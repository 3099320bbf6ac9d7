-- ===== src/Core/Suite.antt =====
-- core/suite.py: values of a YAML suite as option texts, and the check against command line flags.
use tls_interop_framework.Prelude.{
  Bool, List, Option, [], false, if◌then◌else◌, is_empty, keep, negsuc, none, not, pos, some, true,
  ℤ, ◌&&◌, ◌==◌, ◌||◌, ◌∷◌,
}
use tls_interop_framework.Python.Args.{
  Arg, Namespace, attribute, flag, none_arg, number, option_text, text_of_int, word,
}
use tls_interop_framework.Python.Dict.{has_key, set}
use tls_interop_framework.Python.Result.{Result, bad_suite_value, err, ok, traverse, ◌>>=◌}
use tls_interop_framework.Python.Text.{Text, join, lit, strip, text_eq}

-- What `yaml.safe_load` returns. A float is kept as its `str`, and so is a value of another type,
-- such as a date.
mutual
  pub data Yaml : Type 0 where
    null : Yaml
    bool : Bool → Yaml
    int : ℤ → Yaml
    float : Text → Yaml
    text : Text → Yaml
    list : YamlList → Yaml
    mapping : YamlMap → Yaml

  pub data YamlList : Type 0 where
    nil : YamlList
    cons : Yaml → YamlList → YamlList

  pub data YamlMap : Type 0 where
    end : YamlMap
    entry : Text → Yaml → YamlMap → YamlMap

-- `str(value)` of a list or mapping is Python's own text for it, a parameter here.
module _ (str_nested : Yaml → Text) where
  unfoldable pub yaml_str : Yaml → Text
  yaml_str null = lit "None"
  yaml_str (bool true) = lit "True"
  yaml_str (bool false) = lit "False"
  yaml_str (int n) = text_of_int n
  yaml_str (float t) = t
  yaml_str (text t) = t
  yaml_str v = str_nested v

  unfoldable pub list_texts : YamlList → List Text
  list_texts nil = []
  list_texts (cons v vs) =
      let rest = list_texts vs in
      if is_empty (strip (yaml_str v)) then rest else strip (yaml_str v) ∷ rest

unfoldable pub is_true : Yaml → Bool
is_true (bool true) = true
is_true _ = false

-- The keys of a mapping whose value is `True`.
unfoldable pub enabled_keys : YamlMap → List Text
enabled_keys end = []
enabled_keys (entry k v m) =
    let rest = enabled_keys m in
    if not (is_empty (strip k)) && is_true v then strip k ∷ rest else rest

unfoldable pub coerce_suite_mapping : YamlMap → Text → Result Text
coerce_suite_mapping m key =
    if text_eq key (lit "test_features")
    then ok (join (lit ",") (enabled_keys m))
    else err (bad_suite_value key)

unfoldable pub coerce_suite_matrix_value : (Yaml → Text) → Yaml → Text → Result Text
coerce_suite_matrix_value str_nested null key = ok []
coerce_suite_matrix_value str_nested (bool b) key = ok (if b then lit "true" else lit "false")
coerce_suite_matrix_value str_nested (int n) key = ok (text_of_int n)
coerce_suite_matrix_value str_nested (float t) key = ok t
coerce_suite_matrix_value str_nested (list vs) key = ok (join (lit ",") (list_texts str_nested vs))
coerce_suite_matrix_value str_nested (mapping m) key = coerce_suite_mapping m key
coerce_suite_matrix_value str_nested (text t) key = ok (strip t)

-- `case[k] if k in case`
unfoldable pub case_value : Text → YamlMap → Option Yaml
case_value k end = none
case_value k (entry j v m) = if text_eq j k then some v else case_value k m

module _ (str_nested : Yaml → Text) (args : Namespace) where
  unfoldable pub case_axis_value : YamlMap → Text → Result Text
  case_axis_value case k = elim (case_value k case) [
    | none ↦ ok (option_text k args)
    | some v ↦ coerce_suite_matrix_value str_nested v k
  ]

  unfoldable pub suite_cases_to_combos : List Text → List YamlMap → Result (List (List Text))
  suite_cases_to_combos axis_keys cases =
      traverse (λ case. traverse (case_axis_value case) axis_keys) cases

-- `_apply_suite_matrix`: every key must name an attribute, and sets it to a text.
unfoldable pub apply_suite_matrix : (Yaml → Text) → YamlMap → Namespace → Result Namespace
apply_suite_matrix str_nested end args = ok args
apply_suite_matrix str_nested (entry key value m) args =
    let dest = strip key in
    if is_empty dest || not (has_key dest args) then err (bad_suite_value dest) else do
      t ← coerce_suite_matrix_value str_nested value dest
      apply_suite_matrix str_nested m (set dest (word t) args)

-- The keys of `SUITE_MATRIX_CLI`.
abbrev pub suite_matrix_cli : List Text
suite_matrix_cli =
    lit "server"
    ∷ lit "client"
    ∷ lit "cipher_suite"
    ∷ lit "supported_groups"
    ∷ lit "tls_version"
    ∷ lit "alpn"
    ∷ lit "test_features"
    ∷ []

unfoldable pub int_eq : ℤ → ℤ → Bool
int_eq (pos m) (pos n) = m == n
int_eq (negsuc m) (negsuc n) = m == n
int_eq _ _ = false

unfoldable pub arg_eq : Arg → Arg → Bool
arg_eq none_arg none_arg = true
arg_eq (flag true) (flag true) = true
arg_eq (flag false) (flag false) = true
arg_eq (number m) (number n) = int_eq m n
arg_eq (word s) (word t) = text_eq s t
arg_eq _ _ = false

-- The matrix flags whose value is not the parser's default.
unfoldable pub matrix_flags_differing_from_defaults : Namespace → Namespace → List Text
matrix_flags_differing_from_defaults args defaults =
    keep (λ dest. not (arg_eq (attribute dest args) (attribute dest defaults))) suite_matrix_cli

-- The conflicting flags on which `enforce_suite_cli_exclusivity` ends the program, none if it passes.
unfoldable pub suite_conflicts : Namespace → Namespace → List Text
suite_conflicts args defaults =
    if is_empty (option_text (lit "suite") args)
    then []
    else matrix_flags_differing_from_defaults args defaults
