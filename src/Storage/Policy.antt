-- ===== src/Storage/Policy.antt =====
-- The precedence of a volume's own setting over the global policy.
use aerospike_ce_kubernetes.Prelude.{Bool, false, ◌≡◌, ◌≢◌, Option, none, some, arith, eq_iff}
use aerospike_ce_kubernetes.Storage.{
  VolumeSpec, StorageSpec, resolve_init_method, resolve_wipe_method, resolve_cascade_delete,
  get_volume_policy,
}

-- A volume's own setting wins over every policy, an explicit "none" or false included, and where no
-- policy applies to a volume, the settings of one that leaves all three unset are "none" and false.
pub resolve_precedence :
    (vol : VolumeSpec) (storage : Option StorageSpec)
    → (vol.init_method ≢ "" → resolve_init_method vol storage ≡ vol.init_method)
      × (vol.wipe_method ≢ "" → resolve_wipe_method vol storage ≡ vol.wipe_method)
      × ((b : Bool) → vol.cascade_delete ≡ some b → resolve_cascade_delete vol storage ≡ b)
      × (get_volume_policy vol storage ≡ none
          → vol.init_method ≡ ""
          → vol.wipe_method ≡ ""
          → vol.cascade_delete ≡ none
          → (resolve_init_method vol storage ≡ "none")
            × (resolve_wipe_method vol storage ≡ "none")
            × (resolve_cascade_delete vol storage ≡ false))
unfolding resolve_init_method resolve_wipe_method resolve_cascade_delete
resolve_precedence vol storage = (
  λ h. ground (arith, eq_iff vol.init_method ""),
  λ h. ground (arith, eq_iff vol.wipe_method ""),
  λ b h. ground arith,
  λ h i w c. ground (arith, eq_iff vol.init_method "", eq_iff vol.wipe_method ""),
)
