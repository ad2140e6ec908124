-- ===== src/Storage.antt =====
-- The volume policies: internal/storage/policy.go, `cascadeDeleteVolumeNames` of
-- internal/storage/pvc.go, and `getDirtyVolumes` of internal/controller/reconciler_restart.go. Methods
-- are the strings of the resource, "" where unset.
pub mod Policy
use aerospike_ce_kubernetes.Prelude.{
  String, Bool, true, false, not, ◌&&◌, Option, none, some, List, [], ◌∷◌, str_eq, if◌then◌else◌,
}

pub record VolumePolicy : Type 0 where
  pub init_method : String
  pub wipe_method : String
  pub cascade_delete : Option Bool

-- `persistent_volume` is the source's `PersistentVolume`, by its volume mode.
pub record VolumeSpec : Type 0 where
  pub name : String
  pub persistent_volume : Option String
  pub init_method : String
  pub wipe_method : String
  pub cascade_delete : Option Bool

pub record StorageSpec : Type 0 where
  pub volumes : List VolumeSpec
  pub filesystem_volume_policy : Option VolumePolicy
  pub block_volume_policy : Option VolumePolicy
  pub delete_local_storage_on_restart : Option Bool

abbrev policy_of_mode : String → StorageSpec → Option VolumePolicy
policy_of_mode mode storage =
    if str_eq (if str_eq mode "" then "Filesystem" else mode) "Block"
    then storage.block_volume_policy
    else storage.filesystem_volume_policy

abbrev policy_of : Option String → Option StorageSpec → Option VolumePolicy
policy_of mode none = none
policy_of none (some storage) = none
policy_of (some mode) (some storage) = policy_of_mode mode storage

unfoldable pub get_volume_policy : VolumeSpec → Option StorageSpec → Option VolumePolicy
get_volume_policy vol storage = policy_of vol.persistent_volume storage

abbrev method_or_none : String → String
method_or_none m = if not (str_eq m "") then m else "none"

unfoldable pub resolve_init_method : VolumeSpec → Option StorageSpec → String
unfolding get_volume_policy
resolve_init_method vol storage =
    if not (str_eq vol.init_method "")
    then vol.init_method
    else elim (get_volume_policy vol storage) [
      | none ↦ "none"
      | some policy ↦ method_or_none policy.init_method
    ]

unfoldable pub resolve_wipe_method : VolumeSpec → Option StorageSpec → String
unfolding get_volume_policy
resolve_wipe_method vol storage =
    if not (str_eq vol.wipe_method "")
    then vol.wipe_method
    else elim (get_volume_policy vol storage) [
      | none ↦ "none"
      | some policy ↦ method_or_none policy.wipe_method
    ]

unfoldable pub resolve_cascade_delete : VolumeSpec → Option StorageSpec → Bool
unfolding get_volume_policy
resolve_cascade_delete vol storage = elim vol.cascade_delete [
  | some b ↦ b
  | none ↦ elim (get_volume_policy vol storage) [
    | none ↦ false
    | some policy ↦ elim policy.cascade_delete [ none ↦ false | some b ↦ b ]
  ]
]

is_dirty : Option StorageSpec → VolumeSpec → Bool
unfolding resolve_wipe_method
is_dirty storage vol =
    let wm = resolve_wipe_method vol storage in not (str_eq wm "") && not (str_eq wm "none")

dirty_names : Option StorageSpec → List VolumeSpec → List String
unfolding is_dirty
dirty_names storage [] = []
dirty_names storage (vol ∷ rest) =
    let later = dirty_names storage rest in if is_dirty storage vol then vol.name ∷ later else later

unfoldable pub get_dirty_volumes : Option StorageSpec → List String
unfolding dirty_names
get_dirty_volumes none = []
get_dirty_volumes (some storage) = dirty_names (some storage) storage.volumes

abbrev is_some_mode : Option String → Bool
is_some_mode none = false
is_some_mode (some mode) = true

cascade_names : Option StorageSpec → List VolumeSpec → List String
cascade_names storage [] = []
cascade_names storage (vol ∷ rest) =
    let later = cascade_names storage rest in
    if is_some_mode vol.persistent_volume && resolve_cascade_delete vol storage
    then vol.name ∷ later
    else later

-- The set of names, as a list.
unfoldable pub cascade_delete_volume_names : Option StorageSpec → List String
unfolding cascade_names
cascade_delete_volume_names none = []
cascade_delete_volume_names (some storage) = cascade_names (some storage) storage.volumes

unfoldable pub has_cascade_delete_pvcs : Option StorageSpec → Bool
unfolding cascade_delete_volume_names
has_cascade_delete_pvcs storage = elim (cascade_delete_volume_names storage) [
  | [] ↦ false
  | name ∷ rest ↦ true
]
