-- ===== src/Core/Matrix.antt =====
-- core/matrix.py: the expansion of an option's value into the values of a matrix axis.
pub mod Members
use tls_interop_framework.Prelude.{
  Bool, List, Option, [], drop, false, flat_map, if◌then◌else◌, is_empty, is_some, keep, map, none,
  not, some, true, ◌&&◌, ◌++◌, ◌==◌, ◌||◌, ◌∷◌,
}
use tls_interop_framework.Core.Catalog.{cipher_ids, dimension_keys}
use tls_interop_framework.Core.Tokens.{TlsMode, split_csv_tokens, stripped, tls12, tls13}
use tls_interop_framework.Python.Dict.{Dict, lookup}
use tls_interop_framework.Python.Json.{Fields, end}
use tls_interop_framework.Python.Result.{
  Result, empty_after_exclusions, empty_dimension, err, ok, unknown_values, ◌>>=◌,
}
use tls_interop_framework.Python.Sorted.{sort_set}
use tls_interop_framework.Python.Text.{
  Text, has_char, lit, lower, lstrip, mem, starts_with, strip, text_eq,
}

-- What follows a leading ALL, in any case of its letters.
unfoldable pub after_all : Text → Option Text
after_all val = if starts_with (lower val) (lit "all") then some (drop 3 val) else none

-- `re.match(r"(?is)^ALL\s*$", val)`
unfoldable pub matches_all : Text → Bool
matches_all val = elim (after_all val) [ none ↦ false | some rest ↦ is_empty (lstrip rest) ]

subtracted : Text → Option Text
subtracted [] = none
subtracted (c ∷ rest) =
    if (c == b'\\' || c == b'-') && not (is_empty rest) then some (lstrip rest) else none

-- The excluded list of `re.match(r"(?is)^ALL\s*[\\-]\s*(.+)$", val)`. Where only spaces follow the
-- sign the pattern matches one of them, and the list is empty either way.
unfoldable pub all_minus : Text → Option Text
unfolding subtracted
all_minus val = elim (after_all val) [ none ↦ none | some rest ↦ subtracted (lstrip rest) ]

-- `[x for x in choices if x not in exclusions]`
unfoldable pub excluding : List Text → List Text → List Text
excluding exclusions choices = keep (λ x. not (mem x exclusions)) choices

-- A list that must not be empty, for the error about `value`.
unfoldable pub non_empty : Text → List Text → Result (List Text)
non_empty value [] = err (empty_after_exclusions value)
non_empty value (x ∷ xs) = ok (x ∷ xs)

unfoldable pub expand_all_subtraction : Text → List Text → Option (Result (List Text))
expand_all_subtraction value base_choices = elim (all_minus value) [
  | none ↦ none
  | some listed ↦ some (non_empty value (excluding (split_csv_tokens listed) base_choices))
]

unfoldable pub expand_csv_dimension_tokens : Text → List Text → Result (List Text)
expand_csv_dimension_tokens val base_choices =
    let parts = split_csv_tokens val in
    let invalid_parts = excluding base_choices parts in
    if is_empty parts
    then err (empty_dimension val)
    else if is_empty invalid_parts
    then ok parts
    else err (unknown_values invalid_parts)

unfoldable pub expand_dimension_all_forms : Text → List Text → Option (Result (List Text))
expand_dimension_all_forms val base_choices =
    if matches_all val then some (ok base_choices) else expand_all_subtraction val base_choices

-- After the forms with ALL: an asymmetric value stands for itself, a comma list for its tokens.
unfoldable pub expand_listed : Text → List Text → Result (List Text)
expand_listed val base_choices =
    if has_char b':' val then ok (val ∷ []) else expand_csv_dimension_tokens val base_choices

unfoldable pub expand_choices : Text → List Text → Result (List Text)
expand_choices val base_choices = elim (expand_dimension_all_forms val base_choices) [
  | none ↦ expand_listed val base_choices
  | some special ↦ special
]

unfoldable pub expand_dimension : Text → List Text → Result (List Text)
expand_dimension value choices =
    let base_choices = stripped choices in
    let val = strip value in
    if is_empty base_choices
    then ok (val ∷ [])
    else if is_empty val
    then ok ([] ∷ [])
    else expand_choices val base_choices

-- `caps_by_wrapper.get(wrapper_id, {})`
unfoldable pub caps_of : Dict Fields → Text → Fields
caps_of caps_by_wrapper id = elim (lookup id caps_by_wrapper) [ none ↦ end | some c ↦ c ]

unfoldable pub union_cipher_suite_ids_for_wrappers :
    Dict Fields → List Text → Option TlsMode → List Text
union_cipher_suite_ids_for_wrappers caps_by_wrapper ids mode =
    sort_set (flat_map (λ id. cipher_ids (caps_of caps_by_wrapper id) mode) ids)

unfoldable pub default_cipher : TlsMode → Text
default_cipher tls13 = lit "aes-128-gcm"
default_cipher tls12 = lit "ecdhe-rsa-aes-128-gcm-sha256"

-- `sorted(allowed)[0] if allowed else ""`, of a set that is held sorted.
unfoldable pub first_or_empty : List Text → Text
first_or_empty [] = []
first_or_empty (x ∷ xs) = x

unfoldable pub default_cipher_for_tls_mode : TlsMode → List Text → Text
default_cipher_for_tls_mode mode allowed =
    if mem (default_cipher mode) allowed then default_cipher mode else first_or_empty allowed

-- The set is held sorted, so `sorted` of it is itself.
unfoldable pub union_capability_keys : Text → List Text → Dict Fields → Option TlsMode → List Text
union_capability_keys dimension ids caps_by_wrapper cipher_mode =
    if text_eq dimension (lit "cipher_suite") && is_some cipher_mode
    then union_cipher_suite_ids_for_wrappers caps_by_wrapper ids cipher_mode
    else sort_set
        (flat_map (λ id. dimension_keys (caps_of caps_by_wrapper id) dimension cipher_mode) ids)

unfoldable pub default_axis : Text → List Text
default_axis default = if is_empty default then [] ∷ [] else default ∷ []

unfoldable pub filter_expanded_cipher_suite :
    List Text → Text → TlsMode → List Text → Dict Fields → List Text
filter_expanded_cipher_suite expanded val mode ids caps_by_wrapper =
    let allowed = union_cipher_suite_ids_for_wrappers caps_by_wrapper ids (some mode) in
    let filtered = keep (λ x. mem x allowed) expanded in
    if not (is_empty filtered)
    then filtered
    else if is_empty val
    then default_axis (default_cipher_for_tls_mode mode allowed)
    else if not (is_some (after_all val))
    then (if is_empty expanded then val ∷ [] else expanded)
    else []

-- The parameters that the expansion of one capability dimension passes along.
pub record Expansion : Type 0 where
  pub dimension : Text
  pub wrapper_ids : List Text
  pub caps_by_wrapper : Dict Fields
  pub catalog_tokens : List Text
  pub cipher_mode : Option TlsMode

unfoldable pub union_keys : Expansion → List Text
union_keys e = union_capability_keys e.dimension e.wrapper_ids e.caps_by_wrapper e.cipher_mode

unfoldable pub expand_cap_dim_all : Expansion → List Text
expand_cap_dim_all e = if is_empty (union_keys e) then e.catalog_tokens else union_keys e

unfoldable pub expand_cap_dim_all_subtraction : Text → Expansion → Option (Result (List Text))
expand_cap_dim_all_subtraction value e = elim (all_minus value) [
  | none ↦ none
  | some listed ↦
      let pool = if is_empty (union_keys e) then sort_set e.catalog_tokens else union_keys e in
      some (non_empty value (excluding (split_csv_tokens listed) pool))
]

filter_for_mode : Text → Expansion → List Text → List Text
filter_for_mode val e expanded = elim e.cipher_mode [
  | none ↦ expanded
  | some mode ↦
      if text_eq e.dimension (lit "cipher_suite")
      then filter_expanded_cipher_suite expanded val mode e.wrapper_ids e.caps_by_wrapper
      else expanded
]

unfoldable pub expand_cap_dim_tokens : Text → Expansion → Result (List Text)
unfolding filter_for_mode
expand_cap_dim_tokens val e =
    if has_char b':' val
    then ok (val ∷ [])
    else do expanded ← expand_dimension val e.catalog_tokens; ok (filter_for_mode val e expanded)

unfoldable pub expand_without_all : Text → Expansion → Result (List Text)
expand_without_all val e = elim (expand_cap_dim_all_subtraction val e) [
  | none ↦ expand_cap_dim_tokens val e
  | some result ↦ result
]

unfoldable pub expand_capability_dimension :
    Text → Text → List Text → Dict Fields → List Text → Option TlsMode → Result (List Text)
expand_capability_dimension value dimension ids caps_by_wrapper catalog_choices mode =
    let val = strip value in
    let e : Expansion = record {
      dimension = dimension;
      wrapper_ids = ids;
      caps_by_wrapper = caps_by_wrapper;
      catalog_tokens = stripped catalog_choices;
      cipher_mode = if text_eq dimension (lit "cipher_suite") then mode else none;
    } in
    if matches_all val then ok (expand_cap_dim_all e) else expand_without_all val e

-- Every pair of a server's and a client's token.
unfoldable pub pairs_of : List Text → List Text
pairs_of tokens = flat_map (λ srv. map (λ cli. srv ++ b':' ∷ cli) tokens) tokens

is_unset : List Text → Bool
is_unset [] = true
is_unset ([] ∷ []) = true
is_unset _ = false

unfoldable pub expand_alpn_matrix_axis :
    Text → List Text → Dict Fields → List Text → Result (List Text)
unfolding is_unset
expand_alpn_matrix_axis value ids caps_by_wrapper catalog_choices =
    let val = strip value in
    if is_empty val then ok ([] ∷ []) else do
      tokens ←
          expand_capability_dimension val (lit "alpn_protocols") ids caps_by_wrapper catalog_choices
            none
      ok (
          if has_char b':' val
          then tokens
          else if is_unset tokens
          then [] ∷ []
          else pairs_of tokens)
