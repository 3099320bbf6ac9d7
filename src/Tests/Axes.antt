-- ===== src/Tests/Axes.antt =====
-- Axes of the matrix over two small backends.
use tls_interop_framework.Prelude.{
  List, [], any, ap, false, if◌then◌else◌, is_empty, map, none, not, refl, some, true, ◌&&◌, ◌∷◌,
  ◌≡◌,
}
use tls_interop_framework.Cli.{build_matrix_combos, combos_of, product}
use tls_interop_framework.Cli.Product.{build_matrix_combos-is_choice, is_choice, texts_eq}
use tls_interop_framework.Core.Catalog.{
  aggregate_union, capability_dimension_name, cipher_ids, cipher_map,
  cipher_suite_map_from_tls_block, dimension_keys, feature_ids, is_offered,
  load_backend_capabilities,
}
use tls_interop_framework.Core.Cell.{tls_mode_filter_from_args}
use tls_interop_framework.Core.Matrix.{
  after_all, all_minus, caps_of, default_axis, default_cipher, default_cipher_for_tls_mode,
  excluding, expand_all_subtraction, expand_alpn_matrix_axis, expand_cap_dim_all,
  expand_cap_dim_all_subtraction, expand_cap_dim_tokens, expand_capability_dimension,
  expand_choices, expand_csv_dimension_tokens, expand_dimension, expand_dimension_all_forms,
  expand_listed, expand_without_all, filter_expanded_cipher_suite, first_or_empty, matches_all,
  non_empty, pairs_of, union_capability_keys, union_cipher_suite_ids_for_wrappers, union_keys,
}
use tls_interop_framework.Core.Matrix.Members.{
  axis_mode, expand_capability_dimension_all, expand_capability_dimension_minus,
  expand_dimension-mem, expanded, offered_by, pool,
}
use tls_interop_framework.Core.Plan.{
  arg_str, axis_option_ids, build_cli_options_catalog, get_dimension_matrix_values,
  matrix_axis_plan, union_sorted,
}
use tls_interop_framework.Core.Tokens.{
  fold_version, mode_eq, norm_catalog_token, parse_asymmetric, split_csv_tokens, stripped,
  tls_mode_from_version,
}
use tls_interop_framework.Python.Args.{arg_text, attribute, option_text, text_of_int}
use tls_interop_framework.Python.Dict.{keys, lookup}
use tls_interop_framework.Python.Json.{
  decimal, digits, fields_of, get, is_false, items, py_str, repr_text, truthy,
}
use tls_interop_framework.Python.Result.{empty_after_exclusions, err, ok, ◌>>=◌}
use tls_interop_framework.Python.Sorted.{insert_sorted, set_add, sort, sort_set, text_lt}
use tls_interop_framework.Python.Sorted.Laws.{IsAscending}
use tls_interop_framework.Python.Text.{
  Text, contains, has_char, is_space, join, lit, lower, lower_char, lstrip, mem, remove_char,
  rstrip, rstrip_onto, split, split_first, starts_with, strip, text_eq,
}
use tls_interop_framework.Tests.Data.{
  openssl_gnutls, plan_args, small_cache, small_files, small_tuple,
}

abbrev group_dimension : Text
group_dimension = lit "supported_groups"

abbrev minus_value : Text
minus_value = lit "ALL - x25519"

abbrev group_choices : List Text
group_choices = lit "secp256r1" ∷ lit "x25519" ∷ []

all_matches : matches_all (strip (lit "all")) ≡ true
unfolding lit matches_all strip after_all starts_with lower rstrip lstrip is_space lower_char
all_matches = refl

some_group :
    is_empty (pool (lit "all") group_dimension openssl_gnutls small_cache group_choices none)
    ≡ false
unfolding lit union_capability_keys text_eq sort_set dimension_keys is_false get fields_of caps_of
    lookup sort items is_offered mem insert_sorted text_lt set_add cipher_ids cipher_map
    cipher_suite_map_from_tls_block union_cipher_suite_ids_for_wrappers keys decimal digits py_str
    repr_text truthy has_char join
some_group = refl

minus_matches : matches_all (strip minus_value) ≡ false
unfolding matches_all strip after_all starts_with lit lower rstrip lstrip is_space lower_char
minus_matches = refl

minus_listed : all_minus (strip minus_value) ≡ some (lit "x25519")
unfolding all_minus lit strip after_all starts_with lower rstrip lstrip is_space lower_char
minus_listed = refl

expand_capability_dimension_all_example :
    let axis = pool (lit "all") group_dimension openssl_gnutls small_cache group_choices none in
    (expanded (lit "all") group_dimension openssl_gnutls small_cache group_choices none ≡ ok axis)
    × IsAscending axis
    × (mem (lit "x25519") axis
        ≡ any
            (offered_by
              (lit "x25519")
              group_dimension
              small_cache
              (axis_mode (lit "all") group_dimension openssl_gnutls small_cache group_choices none))
            openssl_gnutls)
expand_capability_dimension_all_example =
    expand_capability_dimension_all (lit "all") group_dimension openssl_gnutls small_cache
      group_choices none (lit "x25519") all_matches some_group

expand_capability_dimension_minus_example :
    let left =
      excluding
        (split_csv_tokens (lit "x25519"))
        (pool minus_value group_dimension openssl_gnutls small_cache group_choices none) in
    (expanded minus_value group_dimension openssl_gnutls small_cache group_choices none
      ≡ (if is_empty left then err (empty_after_exclusions (strip minus_value)) else ok left))
    × IsAscending left
    × (mem (lit "x25519") left ≡ (
        any
          (offered_by
            (lit "x25519")
            group_dimension
            small_cache
            (axis_mode minus_value group_dimension openssl_gnutls small_cache group_choices none))
          openssl_gnutls
        && not (mem (lit "x25519") (split_csv_tokens (lit "x25519")))))
expand_capability_dimension_minus_example =
    expand_capability_dimension_minus minus_value group_dimension openssl_gnutls small_cache
      group_choices none (lit "x25519") (lit "x25519") minus_matches minus_listed some_group

choices_given : is_empty (stripped openssl_gnutls) ≡ false
unfolding stripped strip rstrip lstrip lit is_space
choices_given = refl

value_given : is_empty (strip (lit "gnutls, openssl")) ≡ false
unfolding lit strip rstrip lstrip is_space
value_given = refl

value_plain : has_char b':' (strip (lit "gnutls, openssl")) ≡ false
unfolding has_char lit strip rstrip lstrip is_space
value_plain = refl

value_expands :
    expand_dimension (lit "gnutls, openssl") openssl_gnutls ≡ ok (lit "gnutls" ∷ lit "openssl" ∷ [])
unfolding expand_dimension lit stripped strip rstrip lstrip is_space expand_choices
    expand_dimension_all_forms matches_all after_all starts_with lower lower_char
    expand_all_subtraction all_minus expand_listed has_char expand_csv_dimension_tokens
    split_csv_tokens split excluding mem text_eq
value_expands = refl

gnutls_listed : mem (lit "gnutls") (lit "gnutls" ∷ lit "openssl" ∷ []) ≡ true
unfolding lit mem text_eq
gnutls_listed = refl

expand_dimension-mem_example : mem (lit "gnutls") (stripped openssl_gnutls) ≡ true
expand_dimension-mem_example =
    expand_dimension-mem (lit "gnutls, openssl") openssl_gnutls (lit "gnutls" ∷ lit "openssl" ∷ [])
      (lit "gnutls") choices_given value_given value_plain value_expands gnutls_listed

abbrev planned_axes : List Text × List (List Text)
planned_axes = (
  lit "server" ∷ lit "client" ∷ axis_option_ids,
  (lit "openssl" ∷ []) ∷ openssl_gnutls ∷ map (λ id. [] ∷ []) axis_option_ids,
)

plan_given : matrix_axis_plan small_files openssl_gnutls plan_args ≡ ok planned_axes
unfolding matrix_axis_plan load_backend_capabilities aggregate_union expand_dimension stripped strip
    rstrip lstrip lit is_space arg_str attribute lookup text_eq expand_choices
    expand_dimension_all_forms matches_all after_all starts_with lower lower_char
    expand_all_subtraction all_minus expand_listed has_char expand_csv_dimension_tokens
    split_csv_tokens split excluding mem capability_dimension_name cipher_ids cipher_map
    cipher_suite_map_from_tls_block dimension_keys feature_ids is_offered tls_mode_filter_from_args
    caps_of default_axis default_cipher default_cipher_for_tls_mode expand_alpn_matrix_axis
    expand_cap_dim_all expand_cap_dim_all_subtraction expand_cap_dim_tokens
    expand_capability_dimension expand_without_all filter_expanded_cipher_suite first_or_empty
    non_empty pairs_of union_capability_keys union_cipher_suite_ids_for_wrappers union_keys
    axis_option_ids build_cli_options_catalog get_dimension_matrix_values union_sorted fold_version
    mode_eq norm_catalog_token parse_asymmetric tls_mode_from_version arg_text option_text
    text_of_int keys decimal digits fields_of get is_false items py_str repr_text truthy
    insert_sorted set_add sort sort_set text_lt contains join remove_char rstrip_onto split_first
plan_given = refl

matrix_given :
    build_matrix_combos small_files openssl_gnutls (λ v. []) plan_args []
    ≡ ok (planned_axes.0, product planned_axes.1)
unfolding build_matrix_combos combos_of product matrix_axis_plan
matrix_given =
    ap (λ r. r >>= combos_of small_files openssl_gnutls (λ v. []) plan_args []) plan_given

build_matrix_combos-is_choice_example :
    (planned_axes.0 ≡ planned_axes.0)
    × (any (texts_eq small_tuple) (product planned_axes.1) ≡ is_choice small_tuple planned_axes.1)
build_matrix_combos-is_choice_example =
    build_matrix_combos-is_choice small_files openssl_gnutls (λ v. []) plan_args planned_axes
      (planned_axes.0, product planned_axes.1) small_tuple plan_given matrix_given
