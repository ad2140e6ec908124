-- ===== src/Access/Converge.antt =====
-- The keys of the sets of privileges that `syncRolePrivileges` of
-- internal/controller/reconciler_acl.go compares; Server is what it makes of a role of the server.
pub mod Server
use aerospike_ce_kubernetes.Prelude.{
  ℕ, ◌≡◌, refl, ap, ◌∙◌, String, Bool, true, not, ◌&&◌, ◌||◌, List, [], ◌∷◌, ◌++◌, filter, contains,
  contains-append, any-append, eq_iff, arith,
}
use aerospike_ce_kubernetes.Text.{same_text}
use aerospike_ce_kubernetes.Privilege.{Privilege, privilege_key}
use aerospike_ce_kubernetes.Access.{has_key, privilege_set, missing_privileges}

same_text-true : (s t : List ℕ) → same_text s t ≡ true → s ≡ t
unfolding same_text
same_text-true [] [] h = refl
same_text-true [] (d ∷ t) h = absurd (ground arith)
same_text-true (c ∷ s) [] h = absurd (ground arith)
same_text-true (c ∷ s) (d ∷ t) h =
    let head : c ≡ d = ground (arith, h) in
    let tail : s ≡ t = same_text-true s t (ground (arith, h)) in
    ap (λ x. x ∷ s) head ∙ ap (λ l. d ∷ l) tail

module _ (key : List ℕ) where
  pub has_key-filter :
      (keep : List ℕ → Bool) (l : List Privilege)
      → has_key key (filter (λ p. keep (privilege_key p)) l) ≡ (has_key key l && keep key)
  unfolding has_key
  has_key-filter keep [] = refl
  has_key-filter keep (p ∷ l) =
      let same : same_text (privilege_key p) key ≡ true → keep (privilege_key p) ≡ keep key =
        λ h. ap keep (same_text-true (privilege_key p) key h) in
      ground (arith, has_key-filter keep l, same)

  has_key-privilege_set : (l : List Privilege) → has_key key (privilege_set l) ≡ has_key key l
  unfolding has_key privilege_set
  has_key-privilege_set [] = refl
  has_key-privilege_set (p ∷ l) =
      let same : same_text (privilege_key p) key ≡ true
          → has_key (privilege_key p) l ≡ has_key key l =
        λ h. ap (λ k. has_key k l) (same_text-true (privilege_key p) key h) in
      ground (arith, has_key-privilege_set l, same)

  pub has_key-append :
      (l k : List Privilege) → has_key key (l ++ k) ≡ (has_key key l || has_key key k)
  unfolding has_key
  has_key-append l k = any-append (λ p. same_text (privilege_key p) key) l k

  pub has_key-missing_privileges :
      (wanted there : List Privilege)
      → has_key key (missing_privileges wanted there)
        ≡ (has_key key wanted && not (has_key key there))
  unfolding missing_privileges
  has_key-missing_privileges wanted there =
      let kept =
        has_key-filter (λ k. not (has_key k (privilege_set there))) (privilege_set wanted) in
      let a = has_key-privilege_set wanted in
      let b = has_key-privilege_set there in ground (arith, kept, a, b)
