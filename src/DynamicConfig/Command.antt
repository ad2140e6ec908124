-- ===== src/DynamicConfig/Command.antt =====
-- The set-config commands: `hasUnsafeValueChars`, `buildSetConfigCommand`, `buildRollbackCommand` and
-- `validateDynamicChanges` of internal/controller/reconciler_dynamic_config.go. `format` is
-- `fmt.Sprintf("%v", value)`.
pub mod Safety
use Prim.Native.String.{◌++◌ as ◌+++◌}
use aerospike_ce_kubernetes.Prelude.{
  ℕ, String, Bool, true, false, not, ◌&&◌, ◌||◌, Option, none, some, List, [], ◌∷◌, str_eq, ltb,
  leb, ◌==◌, any, all, if◌then◌else◌,
}
use aerospike_ce_kubernetes.Text.{codes, is_space}
use aerospike_ce_kubernetes.ConfigDiff.Values.{Value, null}
use aerospike_ce_kubernetes.ConfigDiff.{Change}

-- `[A-Za-z0-9_.-]`
unfoldable pub is_key_char : ℕ → Bool
is_key_char c =
    leb b'A' c && leb c b'Z'
    || leb b'a' c && leb c b'z'
    || leb b'0' c && leb c b'9'
    || c == b'_'
    || c == b'.'
    || c == b'-'

abbrev is_nonempty : List ℕ → Bool
is_nonempty [] = false
is_nonempty (c ∷ rest) = true

-- `^[A-Za-z0-9_.-]+$`
unfoldable pub is_toml_bare_key : String → Bool
unfolding is_key_char
is_toml_bare_key key = is_nonempty (codes key) && all is_key_char (codes key)

unfoldable pub is_separator : ℕ → Bool
is_separator c = c == b';' || c == b':' || c == b'='

-- `r < 0x20 || r == 0x7f || unicode.IsControl(r)`
unfoldable pub is_control : ℕ → Bool
is_control c = ltb c 0x20 || c == 0x7f || leb 0x80 c && leb c 0x9f

abbrev starts_with_space : List ℕ → Bool
starts_with_space [] = false
starts_with_space (c ∷ rest) = is_space c

ends_with_space : List ℕ → Bool
ends_with_space [] = false
ends_with_space (c ∷ []) = is_space c
ends_with_space (c ∷ d ∷ rest) = ends_with_space (d ∷ rest)

-- `strings.TrimSpace(s) != s` is a space at an end.
unfoldable pub has_unsafe_value_chars : String → Bool
unfolding is_separator is_control is_space ends_with_space
has_unsafe_value_chars s =
    if any is_separator (codes s)
    then true
    else if any is_control (codes s)
    then true
    else starts_with_space (codes s) || ends_with_space (codes s)

module _ {N : Type 0} (format : Value N → String) where
  -- `none` is the error.
  unfoldable pub build_set_config_command : Change N → Option String
  build_set_config_command change =
      let value_str = format change.new_value in
      if not (is_toml_bare_key change.key)
      then none
      else if has_unsafe_value_chars change.context_name
      then none
      else if has_unsafe_value_chars change.namespace
      then none
      else if has_unsafe_value_chars value_str
      then none
      else if not (str_eq change.namespace "")
      then some (
          "set-config:context=namespace;id="
          +++ (change.namespace +++ (";" +++ (change.key +++ ("=" +++ value_str)))))
      else some (
          "set-config:context="
          +++ (change.context_name +++ (";" +++ (change.key +++ ("=" +++ value_str)))))

  -- "" is `none`: there is nothing to roll back to.
  rollback_to : Change N → Value N → Option String
  unfolding build_set_config_command
  rollback_to change null = none
  rollback_to change old_value =
      build_set_config_command (record change { old_value = null; new_value = old_value })

  unfoldable pub build_rollback_command : Change N → Option String
  unfolding rollback_to
  build_rollback_command change = rollback_to change change.old_value

  abbrev is_built : Option String → Bool
  is_built none = false
  is_built (some cmd) = true

  unfoldable pub validate_dynamic_changes : List (Change N) → Bool
  validate_dynamic_changes changes = all (λ c. is_built (build_set_config_command c)) changes
