-- ===== src/Tests/Cells.antt =====
-- A cell of two small backends, and the backends that its run needs.
use tls_interop_framework.Prelude.{
  All, List, [], false, if◌then◌else◌, is_empty, none, pos, refl, true, ℕ, ◌∷◌, ◌≡◌,
}
use tls_interop_framework.Core.Catalog.{
  capability_dimension_name, capability_token_supported, cipher_map, cipher_modes,
  cipher_suite_map_from_tls_block, feature_entry, load_backend_capabilities, runtime,
  supports_cipher, supports_token, with_default,
}
use tls_interop_framework.Core.Cell.{
  apply_implicit_tls_version, backend_of, cell_cipher_id, cell_field, clear_for_mode, clear_unset,
  clear_unset_tls13_orthogonal_dims, effective_cell_tls_mode, fill_in,
  implicit_tls_version_for_side, load_if_named, load_role_capabilities, merged_version,
  mode_from_ciphers, modes_of_side, no_modes, normalize_cell_tls_micro_params, only12, only13,
  side_of, union_modes, with_port,
}
use tls_interop_framework.Core.Features.{
  after_dashes, auth_eq, cipher_catalog_id_requires_anon, cipher_catalog_id_requires_identity_pem,
  cipher_catalog_id_requires_psk, cipher_catalog_id_uses_dsa_auth, cipher_required_test_feature,
  cipher_token, conflicts_with, group_family, has_part, has_part_prefix, is_ec, is_ffdhe,
  parse_test_features_enabled, signature_scheme_auth_kind, tls12_au_from_token,
  tls12_cipher_metadata_from_name, tls12_group_semantic_skip, tls12_kx_from_token,
  tls12_sig_semantic_skip,
}
use tls_interop_framework.Core.Identity.{
  catalog_identity_pem_paths_for_prefix, cert_path, first_rule, get_cert_prefix_for_scheme,
  get_cert_prefix_for_schemes, identity_pem_present, key_path,
}
use tls_interop_framework.Core.Plan.{
  add_known, cell_of, note_cell, prepared_cell, require_from, required_backends_from_matrix,
}
use tls_interop_framework.Core.Plan.Needed.{required_backends-covered, tuple_covered}
use tls_interop_framework.Core.Tokens.{
  asymmetric_role_part, fold_version, mode_eq, mode_text, norm_catalog_token, parse_asymmetric,
  split_csv_tokens, stripped, tls_mode_from_version,
}
use tls_interop_framework.Core.Validation.{
  both_sides, caps_at, cell_capability_skip_reason, cell_context, check_cell, check_cipher_side,
  check_list_dim, cipher_required_feature_skip_reason, cipher_skip_reason, dimension_reason,
  dimension_skip_reason, enabled_feature_reason, enabled_features_skip_reason,
  expect_hrr_skip_reason, feature_cipher, feature_entry_skip, feature_skip_reason,
  identity_skip_reason, is_orthogonal, mode_at, mode_or, required_server_identity_prefix,
  resolve_cell_tls_modes, semantic_skip_reason, side_tokens, skip_reason_of,
  tls12_semantic_skip_reason_side, tls_version_skip_reason, token_reason, unsupported_fields,
  version_reason,
}
use tls_interop_framework.Python.Args.{
  is_digit, arg_int, arg_text, attribute, int_of_text, negate, option_text, read_digits,
  read_signed, text_of_int,
}
use tls_interop_framework.Python.Dict.{get_text, has_key, lookup, set}
use tls_interop_framework.Python.Json.{
  Fields, decimal, digits, elements, elements_of, fields_of, get, has, is_dict, is_false, items,
  py_str, repr_text, truthy,
}
use tls_interop_framework.Python.Result.{ok}
use tls_interop_framework.Python.Sorted.{set_add, sort_set, text_lt}
use tls_interop_framework.Python.Text.{
  Text, contains, has_char, is_space, join, lit, lower, lower_char, lstrip, mem, or_text,
  remove_char, replace_char, rstrip, rstrip_onto, split, split_first, starts_with, strip, text_eq,
}
use tls_interop_framework.Runner.Config.{
  TlsConfig, client, config_at_port, is_server, pick_list, pick_scalar, port_of,
  tls_config_from_cell,
}
use tls_interop_framework.Runner.Config.Agreement.{
  pick_list-side_tokens, pick_scalar-cell_cipher_id,
}
use tls_interop_framework.Runner.Config.Supported.{IsSupported, config-IsSupported}
use tls_interop_framework.Tests.Data.{
  every_file, no_bytes, openssl_gnutls, small_cell, small_files, small_keys, small_tuple,
}

cell_not_skipped : cell_capability_skip_reason every_file small_files small_cell ≡ none
unfolding cell_capability_skip_reason backend_of lower cell_field strip rstrip lstrip get_text
    lookup text_eq lit is_space skip_reason_of load_backend_capabilities check_cell
    semantic_skip_reason both_sides tls12_semantic_skip_reason_side mode_at cell_context
    resolve_cell_tls_modes has_char effective_cell_tls_mode mode_from_ciphers only12 union_modes
    modes_of_side cell_cipher_id cipher_modes has_key cipher_map cipher_suite_map_from_tls_block
    items fields_of get feature_skip_reason enabled_features_skip_reason parse_test_features_enabled
    sort_set split_csv_tokens stripped split cipher_required_feature_skip_reason feature_cipher
    or_text cipher_required_test_feature cipher_catalog_id_requires_psk has_part mem
    norm_catalog_token remove_char lower_char cipher_catalog_id_requires_anon starts_with
    identity_skip_reason required_server_identity_prefix side_tokens asymmetric_role_part
    parse_asymmetric cipher_catalog_id_requires_identity_pem cipher_catalog_id_uses_dsa_auth
    replace_char contains has_part_prefix after_dashes expect_hrr_skip_reason cipher_skip_reason
    check_cipher_side capability_dimension_name capability_token_supported feature_entry runtime
    supports_cipher supports_token with_default no_modes side_of auth_eq cipher_token conflicts_with
    group_family is_ec is_ffdhe signature_scheme_auth_kind tls12_au_from_token
    tls12_cipher_metadata_from_name tls12_group_semantic_skip tls12_kx_from_token
    tls12_sig_semantic_skip catalog_identity_pem_paths_for_prefix cert_path first_rule
    get_cert_prefix_for_scheme get_cert_prefix_for_schemes identity_pem_present key_path
    fold_version mode_eq mode_text tls_mode_from_version caps_at check_list_dim dimension_reason
    dimension_skip_reason enabled_feature_reason feature_entry_skip is_orthogonal mode_or
    tls_version_skip_reason token_reason unsupported_fields version_reason decimal digits elements
    elements_of has is_dict is_false py_str repr_text truthy set_add text_lt join rstrip_onto
    split_first
cell_not_skipped = refl

server_named : is_empty (backend_of (lit "server") small_cell) ≡ false
unfolding backend_of lit lower cell_field strip rstrip lstrip get_text lookup text_eq is_space
server_named = refl

client_named : is_empty (backend_of (lit "client") small_cell) ≡ false
unfolding backend_of lit lower cell_field strip rstrip lstrip get_text lookup text_eq is_space
client_named = refl

abbrev client_config : TlsConfig
client_config = config_at_port small_files every_file no_bytes small_cell client (pos 5555)

config_built :
    tls_config_from_cell small_files every_file no_bytes small_cell client ≡ ok client_config
unfolding tls_config_from_cell port_of pick_scalar cell_field strip rstrip lstrip get_text lookup
    text_eq lit
config_built = refl

config-IsSupported_example :
    (srv_caps : Fields) × (cli_caps : Fields) × (load_backend_capabilities small_files
        (backend_of (lit "server") small_cell)
      ≡ ok srv_caps)
    × (load_backend_capabilities small_files (backend_of (lit "client") small_cell) ≡ ok cli_caps)
    × IsSupported
        (if is_server client then srv_caps else cli_caps)
        (if is_server client
          then (resolve_cell_tls_modes small_cell srv_caps cli_caps).0
          else (resolve_cell_tls_modes small_cell srv_caps cli_caps).1)
        client_config
config-IsSupported_example =
    config-IsSupported small_files every_file no_bytes small_cell client client_config server_named
      client_named cell_not_skipped config_built

abbrev small_needed : List Text × ℕ
small_needed = (lit "gnutls" ∷ lit "openssl" ∷ [], 0)

needed_found :
    required_backends_from_matrix every_file small_files [] small_keys openssl_gnutls
      (small_tuple ∷ [])
    ≡ ok small_needed
unfolding required_backends_from_matrix require_from prepared_cell normalize_cell_tls_micro_params
    arg_int attribute lookup note_cell cell_capability_skip_reason backend_of lower cell_field strip
    rstrip lstrip get_text load_role_capabilities load_if_named cell_of text_eq lit is_space
    load_backend_capabilities fill_in set clear_for_mode effective_cell_tls_mode
    apply_implicit_tls_version with_port implicit_tls_version_for_side only13 modes_of_side
    cell_cipher_id has_char cipher_modes has_key cipher_map cipher_suite_map_from_tls_block items
    fields_of get truthy norm_catalog_token remove_char lower_char merged_version or_text
    tls_mode_from_version contains fold_version starts_with skip_reason_of check_cell
    semantic_skip_reason both_sides tls12_semantic_skip_reason_side mode_at cell_context
    resolve_cell_tls_modes feature_skip_reason enabled_features_skip_reason
    parse_test_features_enabled sort_set split_csv_tokens stripped split option_text arg_text
    cipher_required_feature_skip_reason feature_cipher cipher_required_test_feature
    cipher_catalog_id_requires_psk has_part mem cipher_catalog_id_requires_anon identity_skip_reason
    required_server_identity_prefix side_tokens asymmetric_role_part parse_asymmetric
    cipher_catalog_id_requires_identity_pem cipher_catalog_id_uses_dsa_auth replace_char
    has_part_prefix after_dashes expect_hrr_skip_reason cipher_skip_reason check_cipher_side
    supports_cipher caps_at dimension_skip_reason dimension_reason check_list_dim mode_eq
    token_reason supports_token capability_dimension_name is_dict capability_token_supported
    is_false has tls_version_skip_reason feature_entry runtime with_default clear_unset
    clear_unset_tls13_orthogonal_dims mode_from_ciphers no_modes only12 side_of union_modes auth_eq
    cipher_token conflicts_with group_family is_ec is_ffdhe signature_scheme_auth_kind
    tls12_au_from_token tls12_cipher_metadata_from_name tls12_group_semantic_skip
    tls12_kx_from_token tls12_sig_semantic_skip catalog_identity_pem_paths_for_prefix cert_path
    first_rule get_cert_prefix_for_scheme get_cert_prefix_for_schemes identity_pem_present key_path
    add_known mode_text enabled_feature_reason feature_entry_skip is_orthogonal mode_or
    unsupported_fields version_reason int_of_text is_digit negate read_digits read_signed
    text_of_int decimal digits elements elements_of py_str repr_text set_add text_lt join
    rstrip_onto split_first
needed_found = refl

required_backends-covered_example :
    All
      (λ tup.
        tuple_covered every_file small_files [] small_keys openssl_gnutls small_needed.0 tup ≡ true)
      (small_tuple ∷ [])
required_backends-covered_example =
    required_backends-covered every_file small_files [] small_keys openssl_gnutls (small_tuple ∷ [])
      small_needed needed_found

pick_list-side_tokens_example :
    pick_list small_cell (lit "supported_groups") true
    ≡ side_tokens small_cell (lit "supported_groups") true
pick_list-side_tokens_example = pick_list-side_tokens small_cell (lit "supported_groups") true

pick_scalar-cell_cipher_id_example :
    pick_scalar small_cell (lit "cipher_suite") false ≡ cell_cipher_id small_cell false
pick_scalar-cell_cipher_id_example = pick_scalar-cell_cipher_id small_cell false
