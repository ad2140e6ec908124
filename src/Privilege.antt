-- ===== src/Privilege.antt =====
-- Privileges as they are written in the resource: `parsePrivilege`, `privilegeFromCodeString`,
-- `roleParsedPrivileges` and `privilegeKey` of internal/controller/reconciler_acl.go. A code of the
-- Aerospike client is the text that it is printed as.
use aerospike_ce_kubernetes.Prelude.{
  ℕ, ◌≡◌, ap, ◌∙◌, String, true, Option, none, some, List, [], ◌∷◌, ◌++◌, arith, if◌then◌else◌, sym,
}
use aerospike_ce_kubernetes.Text.{has_text}
use aerospike_ce_kubernetes.Text.Fields.{cut, lacks, cut-append}

pub record Privilege : Type 0 where
  pub code : List ℕ
  pub namespace : List ℕ
  pub set_name : List ℕ

abbrev pub privilege_codes : List String
privilege_codes =
    "read" ∷ "write" ∷ "read-write" ∷ "read-write-udf" ∷ "sys-admin" ∷ "user-admin" ∷ "data-admin"
    ∷ "truncate" ∷ []

abbrev pub privilege : List ℕ → List ℕ → List ℕ → Privilege
privilege code namespace set_name = record {
  code = code;
  namespace = namespace;
  set_name = set_name;
}

-- `privilegeFromCodeString` on the first part; `none` is its error.
unfoldable pub with_code : List ℕ → List ℕ → List ℕ → Option Privilege
with_code code namespace set_name =
    if has_text code privilege_codes then some (privilege code namespace set_name) else none

-- The parts after the first.
abbrev with_rest : List ℕ → List ℕ → Option (List ℕ × List ℕ) → Option Privilege
with_rest code rest none = with_code code rest []
with_rest code rest (some (namespace, set_name)) = with_code code namespace set_name

abbrev with_parts : List ℕ → Option (List ℕ × List ℕ) → Option Privilege
with_parts s none = with_code s [] []
with_parts s (some (code, rest)) = with_rest code rest (cut b'.' rest)

-- "<code>", "<code>.<namespace>" or "<code>.<namespace>.<set>"
unfoldable pub parse_privilege : List ℕ → Option Privilege
unfolding cut with_code
parse_privilege s = with_parts s (cut b'.' s)

unfoldable pub role_parsed_privileges : List (List ℕ) → Option (List Privilege)
unfolding parse_privilege
role_parsed_privileges [] = some []
role_parsed_privileges (s ∷ rest) =
    let later = role_parsed_privileges rest in
    elim (parse_privilege s) [
      | none ↦ none
      | some p ↦ elim later [ none ↦ none | some ps ↦ some (p ∷ ps) ]
    ]

-- "<code>:<namespace>:<set>"
unfoldable pub privilege_key : Privilege → List ℕ
privilege_key p = p.code ++ (b':' ∷ (p.namespace ++ (b':' ∷ p.set_name)))

-- A privilege of a namespace and a set, or of a namespace, as the resource writes it.
abbrev pub print_privilege : Privilege → List ℕ
print_privilege p = p.code ++ (b'.' ∷ (p.namespace ++ (b'.' ∷ p.set_name)))

-- A privilege with a known code, written with its namespace and set, is parsed as it was meant, where
-- the code and the namespace have no dot; the set may have dots.
pub parse_privilege-print_privilege :
    (p : Privilege)
    → has_text p.code privilege_codes ≡ true
    → lacks b'.' p.code ≡ true
    → lacks b'.' p.namespace ≡ true
    → parse_privilege (print_privilege p) ≡ some p
unfolding parse_privilege with_code
parse_privilege-print_privilege p known code namespace =
    ap (with_parts (print_privilege p))
      (cut-append b'.' p.code (p.namespace ++ (b'.' ∷ p.set_name)) code)
    ∙ ap (with_rest p.code (p.namespace ++ (b'.' ∷ p.set_name)))
        (cut-append b'.' p.namespace p.set_name namespace)
    ∙ ground (arith, known)

second : Option (List ℕ × List ℕ) → List ℕ
second none = []
second (some (a, b)) = b

first : Option (List ℕ × List ℕ) → List ℕ
first none = []
first (some (a, b)) = a

-- Two texts that are cut at the same place are the same before it and after it.
cut_injective :
    (sep : ℕ) (a b c d : List ℕ)
    → lacks sep a ≡ true
    → lacks sep c ≡ true
    → a ++ (sep ∷ b) ≡ c ++ (sep ∷ d)
    → (a ≡ c) × (b ≡ d)
unfolding first second
cut_injective sep a b c d ha hc e =
    let same = sym (cut-append sep a b ha) ∙ ap (cut sep) e ∙ cut-append sep c d hc in
    (ap first same, ap second same)

-- Privileges whose codes and namespaces have no colon have the same key only if they are the same, so
-- that the comparison of a role's privileges by their keys mistakes none for another.
pub privilege_key_injective :
    (p q : Privilege)
    → lacks b':' p.code ≡ true
    → lacks b':' p.namespace ≡ true
    → lacks b':' q.code ≡ true
    → lacks b':' q.namespace ≡ true
    → privilege_key p ≡ privilege_key q
    → p ≡ q
unfolding privilege_key
privilege_key_injective p q pc pn qc qn e =
    let (code, rest) =
      cut_injective b':' p.code (p.namespace ++ (b':' ∷ p.set_name)) q.code
        (q.namespace ++ (b':' ∷ q.set_name)) pc qc e in
    let (namespace, set_name) =
      cut_injective b':' p.namespace p.set_name q.namespace q.set_name pn qn rest in
    ap (λ c. privilege c p.namespace p.set_name) code
    ∙ ap (λ n. privilege q.code n p.set_name) namespace
    ∙ ap (λ s. privilege q.code q.namespace s) set_name
