-- ===== src/DynamicConfig/Command/Safety.antt =====
-- No value of the configuration can add a command or a parameter to a set-config command.
use Prim.Native.Char.{code}
use Prim.Native.String.append
use Prim.Native.String.{◌++◌ as ◌+++◌}
use aerospike_ce_kubernetes.Prelude.{
  ℕ, ◌+◌, Bool, ◌&&◌, ◌||◌, leb, ltb, String, true, false, ◌≡◌, refl, ap, some, List, [], ◌∷◌, ◌++◌,
  arith, length, filter, any, all, str_eq, length-append, filter-append, if◌then◌else◌,
}
use aerospike_ce_kubernetes.Text.{codes}
use aerospike_ce_kubernetes.ConfigDiff.Values.{Value}
use aerospike_ce_kubernetes.ConfigDiff.{Change}
use aerospike_ce_kubernetes.DynamicConfig.Command.{
  is_key_char, is_toml_bare_key, is_separator, has_unsafe_value_chars, build_set_config_command,
  is_control, leb,
}

-- The ';', ':' and '=' of a text.
abbrev pub separators : String → ℕ
separators s = length (filter is_separator (codes s))

codes-append : (a b : String) → codes (a +++ b) ≡ codes a ++ codes b
codes-append String.[] b = rw append.nil refl
codes-append (String.◌∷◌ c a) b = rw append.cons (ap (λ l. code c ∷ l) (codes-append a b))

separators-append : (a b : String) → separators (a +++ b) ≡ separators a + separators b
separators-append a b =
    rw (codes-append, filter-append)
      (length-append (filter is_separator (codes a)) (filter is_separator (codes b)))

key_char-separator : (c : ℕ) → is_key_char c ≡ true → is_separator c ≡ false
unfolding is_key_char is_separator
key_char-separator c h = ground arith

key_no_separators : (cs : List ℕ) → all is_key_char cs ≡ true → length (filter is_separator cs) ≡ 0
key_no_separators [] h = refl
key_no_separators (c ∷ cs) h = ground (arith, key_char-separator c, key_no_separators cs)

none_no_separators :
    (cs : List ℕ) → any is_separator cs ≡ false → length (filter is_separator cs) ≡ 0
none_no_separators [] h = refl
none_no_separators (c ∷ cs) h = ground (arith, none_no_separators cs)

bare_key_separators : (key : String) → is_toml_bare_key key ≡ true → separators key ≡ 0
unfolding is_toml_bare_key
bare_key_separators key h = ground (arith, key_no_separators (codes key))

safe_separators : (s : String) → has_unsafe_value_chars s ≡ false → separators s ≡ 0
unfolding has_unsafe_value_chars
safe_separators s h = ground (arith, none_no_separators (codes s))

namespace_command : String → String → String → String
namespace_command namespace key value =
    "set-config:context=namespace;id=" +++ (namespace +++ (";" +++ (key +++ ("=" +++ value))))

context_command : String → String → String → String
context_command name key value =
    "set-config:context=" +++ (name +++ (";" +++ (key +++ ("=" +++ value))))

namespace_command-separators :
    (namespace key value : String)
    → separators namespace ≡ 0
    → separators key ≡ 0
    → separators value ≡ 0
    → separators (namespace_command namespace key value) ≡ 6
unfolding namespace_command is_separator
namespace_command-separators namespace key value hn hk hv =
    let start =
      separators-append "set-config:context=namespace;id="
        (namespace +++ (";" +++ (key +++ ("=" +++ value)))) in
    let a = separators-append namespace (";" +++ (key +++ ("=" +++ value))) in
    let b = separators-append ";" (key +++ ("=" +++ value)) in
    let c = separators-append key ("=" +++ value) in
    let d = separators-append "=" value in omega (arith, start, a, b, c, d, hn, hk, hv)

context_command-separators :
    (name key value : String)
    → separators name ≡ 0
    → separators key ≡ 0
    → separators value ≡ 0
    → separators (context_command name key value) ≡ 4
unfolding context_command is_separator
context_command-separators name key value hn hk hv =
    let start =
      separators-append "set-config:context=" (name +++ (";" +++ (key +++ ("=" +++ value)))) in
    let a = separators-append name (";" +++ (key +++ ("=" +++ value))) in
    let b = separators-append ";" (key +++ ("=" +++ value)) in
    let c = separators-append key ("=" +++ value) in
    let d = separators-append "=" value in omega (arith, start, a, b, c, d, hn, hk, hv)

-- From ' ' to '~', or past the controls of Latin-1.
unfoldable pub is_printable : ℕ → Bool
is_printable c = leb 32 c && (ltb c 127 || leb 160 c)

-- All the characters of the text can be printed: none ends a line or is another control.
abbrev pub printable : String → Bool
printable s = all is_printable (codes s)

all-append :
    (xs ys : List ℕ) → all is_printable (xs ++ ys) ≡ (all is_printable xs && all is_printable ys)
all-append [] ys = refl
all-append (x ∷ xs) ys = ground (arith, all-append xs ys)

printable-append : (a b : String) → printable (a +++ b) ≡ (printable a && printable b)
printable-append a b = rw (codes-append) (all-append (codes a) (codes b))

key_char-printable : (c : ℕ) → is_key_char c ≡ true → is_printable c ≡ true
unfolding is_key_char is_printable
key_char-printable c h = ground arith

key_printable : (cs : List ℕ) → all is_key_char cs ≡ true → all is_printable cs ≡ true
key_printable [] h = refl
key_printable (c ∷ cs) h = ground (arith, key_char-printable c, key_printable cs)

control-printable : (c : ℕ) → is_control c ≡ false → is_printable c ≡ true
unfolding is_control is_printable
control-printable c h = ground arith

no_control_printable : (cs : List ℕ) → any is_control cs ≡ false → all is_printable cs ≡ true
no_control_printable [] h = refl
no_control_printable (c ∷ cs) h = ground (arith, control-printable c, no_control_printable cs)

bare_key_printable : (key : String) → is_toml_bare_key key ≡ true → printable key ≡ true
unfolding is_toml_bare_key
bare_key_printable key h = ground (arith, key_printable (codes key))

safe_printable : (s : String) → has_unsafe_value_chars s ≡ false → printable s ≡ true
unfolding has_unsafe_value_chars
safe_printable s h = ground (arith, no_control_printable (codes s))

assignment-printable :
    (key value : String)
    → printable key ≡ true
    → printable value ≡ true
    → printable (";" +++ (key +++ ("=" +++ value))) ≡ true
unfolding is_printable
assignment-printable key value hk hv =
    let b = printable-append ";" (key +++ ("=" +++ value)) in
    let c = printable-append key ("=" +++ value) in
    let d = printable-append "=" value in ground (arith, b, c, d)

namespace_command-printable :
    (namespace key value : String)
    → printable namespace ≡ true
    → printable key ≡ true
    → printable value ≡ true
    → printable (namespace_command namespace key value) ≡ true
unfolding namespace_command is_printable
namespace_command-printable namespace key value hn hk hv =
    let rest = assignment-printable key value hk hv in
    let start =
      printable-append "set-config:context=namespace;id="
        (namespace +++ (";" +++ (key +++ ("=" +++ value)))) in
    let a = printable-append namespace (";" +++ (key +++ ("=" +++ value))) in
    ground (arith, start, a, rest)

context_command-printable :
    (name key value : String)
    → printable name ≡ true
    → printable key ≡ true
    → printable value ≡ true
    → printable (context_command name key value) ≡ true
unfolding context_command is_printable
context_command-printable name key value hn hk hv =
    let rest = assignment-printable key value hk hv in
    let start =
      printable-append "set-config:context=" (name +++ (";" +++ (key +++ ("=" +++ value)))) in
    let a = printable-append name (";" +++ (key +++ ("=" +++ value))) in
    ground (arith, start, a, rest)

module _ {N : Type 0} (format : Value N → String) where
  counted :
      (change : Change N) (cmd : String)
      → build_set_config_command format change ≡ some cmd
      → separators cmd ≡ (if str_eq change.namespace "" then 4 else 6)
  unfolding build_set_config_command namespace_command context_command
  counted change cmd h =
      let value = format change.new_value in
      let by_namespace = namespace_command-separators change.namespace change.key value in
      let by_context = context_command-separators change.context_name change.key value in
      ground (
        arith,
        h,
        by_namespace,
        by_context,
        bare_key_separators change.key,
        safe_separators change.namespace,
        safe_separators change.context_name,
        safe_separators value,
      )

  all_printable :
      (change : Change N) (cmd : String)
      → build_set_config_command format change ≡ some cmd
      → printable cmd ≡ true
  unfolding build_set_config_command namespace_command context_command
  all_printable change cmd h =
      let value = format change.new_value in
      let by_namespace = namespace_command-printable change.namespace change.key value in
      let by_context = context_command-printable change.context_name change.key value in
      ground (
        arith,
        h,
        by_namespace,
        by_context,
        bare_key_printable change.key,
        safe_printable change.namespace,
        safe_printable change.context_name,
        safe_printable value,
      )

  -- A command that is built has exactly the separators ';', ':' and '=' that its form has, six with a
  -- namespace and four without, and every character of it is from 0x20 to 0x7e or at least 0xa0: none
  -- is a control that could end a line. So no key, context, namespace or value, whatever its text,
  -- adds a command or a parameter to it.
  pub build_set_config_command-separators :
      (change : Change N) (cmd : String)
      → build_set_config_command format change ≡ some cmd
      → (separators cmd ≡ (if str_eq change.namespace "" then 4 else 6)) × (printable cmd ≡ true)
  build_set_config_command-separators change cmd h =
      (counted change cmd h, all_printable change cmd h)
