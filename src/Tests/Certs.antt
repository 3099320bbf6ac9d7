-- ===== src/Tests/Certs.antt =====
-- The certificates of a cell.
use tls_interop_framework.Prelude.{List, false, is_empty, pos, refl, true, ℕ, ◌+◌, ◌∷◌, ◌≡◌}
use tls_interop_framework.Core.Catalog.{load_backend_capabilities, runtime, with_default}
use tls_interop_framework.Core.Cell.{CellMap, backend_of, cell_field}
use tls_interop_framework.Core.Features.{
  cipher_catalog_id_uses_dsa_auth, has_part, parse_test_features_enabled,
}
use tls_interop_framework.Core.Identity.{
  catalog_identity_pem_paths_for_prefix, cert_path, first_rule, get_cert_prefix_for_scheme,
  get_cert_prefix_for_schemes, key_path,
}
use tls_interop_framework.Core.Tokens.{
  asymmetric_role_part, parse_asymmetric, split_csv_tokens, stripped,
}
use tls_interop_framework.Python.Dict.{get_text, lookup}
use tls_interop_framework.Python.Json.{
  decimal, digits, elements, elements_of, fields_of, get, py_str, repr_text,
}
use tls_interop_framework.Python.Result.{ok}
use tls_interop_framework.Python.Sorted.{set_add, sort_set, text_lt}
use tls_interop_framework.Python.Text.{
  Text, contains, has_char, is_space, join, lit, lower, lower_char, lstrip, mem, or_text,
  remove_char, replace_char, rstrip, rstrip_onto, split, split_first, starts_with, strip, text_eq,
}
use tls_interop_framework.Runner.Config.{
  TlsConfig, apply_identity_material, blocked_fields, client, config_at_port, fields_from_cell,
  identity_prefix, pick_list, pick_scalar, port_of, read_identity_pem_bytes, server,
  split_asymmetric_csv, tls_config_from_cell,
}
use tls_interop_framework.Runner.Params.{is_byte_space}
use tls_interop_framework.Tests.Data.{every_file, no_bytes, small_cell, small_files}
use tls_interop_framework.Wrappers.Certs.{
  after_dsa, catalog_or_fail, catalog_paths, dsa_catalog_identity_pem, ensure_cert_paths,
  get_cert_prefix_for_config, has_bytes, has_inline, inline_or_catalog,
  server_trust_signature_schemes_tokens, tracked, write_inline_cert_key,
}
use tls_interop_framework.Wrappers.Certs.Paths.{Resolves, ensure_cert_paths-Resolves}
use tls_interop_framework.Wrappers.Certs.Selected.{client_x509_cafile-identity_prefix, trust_prefix}
use tls_interop_framework.Wrappers.Command.Gnutls.{catalog_cert, client_x509_cafile, or_trust}
use tls_interop_framework.Wrappers.Process.{Attempt, gives}

abbrev schemed_cell : CellMap
schemed_cell = (lit "signature_schemes", lit "ed25519:rsa") ∷ small_cell

abbrev server_config : TlsConfig
server_config = config_at_port small_files every_file no_bytes schemed_cell server (pos 5555)

abbrev client_config : TlsConfig
client_config = config_at_port small_files every_file no_bytes schemed_cell client (pos 5555)

client_built :
    tls_config_from_cell small_files every_file no_bytes schemed_cell client ≡ ok client_config
unfolding tls_config_from_cell port_of pick_scalar cell_field strip rstrip lstrip get_text lookup
    text_eq lit
client_built = refl

schemes_named : is_empty (pick_list schemed_cell (lit "signature_schemes") true) ≡ false
unfolding lit pick_list split_asymmetric_csv strip rstrip lstrip get_text lookup text_eq is_space
    has_char split_csv_tokens stripped split split_first
schemes_named = refl

-- The world counts the staged files.
abbrev stage_pair : List ℕ → List ℕ → ℕ → Attempt (Text × Text) × ℕ
stage_pair cert key w = (gives (lit "/tmp/cert.pem", lit "/tmp/key.pem"), w + 2)

abbrev inline_config : TlsConfig
inline_config = record server_config {
  certificate = lit "CERT";
  private_key = lit "KEY";
  cipher_suite = lit "aes-128-gcm";
}

abbrev staged_paths : Text × Text
staged_paths = (lit "/tmp/cert.pem", lit "/tmp/key.pem")

staged : (ensure_cert_paths every_file stage_pair inline_config 0).0.1 ≡ gives staged_paths
unfolding ensure_cert_paths after_dsa dsa_catalog_identity_pem cipher_catalog_id_uses_dsa_auth
    has_part mem split replace_char lower strip rstrip lstrip lit is_space lower_char text_eq
    inline_or_catalog catalog_identity_pem_paths_for_prefix cert_path first_rule
    get_cert_prefix_for_scheme get_cert_prefix_for_schemes key_path stripped contains or_text
    remove_char rstrip_onto starts_with is_byte_space catalog_or_fail catalog_paths
    get_cert_prefix_for_config has_bytes has_inline tracked write_inline_cert_key
staged = refl

ensure_cert_paths-Resolves_example :
    Resolves every_file stage_pair inline_config 0 staged_paths
      (ensure_cert_paths every_file stage_pair inline_config 0).0.0
ensure_cert_paths-Resolves_example =
    ensure_cert_paths-Resolves every_file stage_pair inline_config 0 staged_paths staged

-- `no_bytes` leaves the certificate and the key of the configuration empty.
abbrev bundle_of_ed25519 : Text × Text
bundle_of_ed25519 = (cert_path (lit "ed25519"), key_path (lit "ed25519"))

client_trusts : client_x509_cafile every_file client_config ≡ gives (cert_path (lit "ed25519"))
unfolding cert_path client_x509_cafile lit cipher_catalog_id_uses_dsa_auth has_part mem split
    replace_char lower strip rstrip lstrip config_at_port fields_from_cell pick_scalar cell_field
    get_text lookup text_eq load_backend_capabilities runtime with_default backend_of
    parse_test_features_enabled catalog_identity_pem_paths_for_prefix first_rule
    get_cert_prefix_for_scheme get_cert_prefix_for_schemes key_path asymmetric_role_part
    parse_asymmetric split_csv_tokens stripped decimal digits elements elements_of fields_of get
    py_str repr_text set_add sort_set text_lt contains has_char is_space join lower_char or_text
    remove_char rstrip_onto split_first starts_with apply_identity_material blocked_fields
    identity_prefix pick_list read_identity_pem_bytes split_asymmetric_csv
    server_trust_signature_schemes_tokens catalog_cert or_trust
client_trusts = refl

client_x509_cafile-identity_prefix_example :
    (cert_path (lit "ed25519")
      ≡ (catalog_identity_pem_paths_for_prefix every_file
          (trust_prefix small_files every_file no_bytes schemed_cell client_config)).0)
    × (every_file (cert_path (lit "ed25519")) ≡ true)
client_x509_cafile-identity_prefix_example =
    client_x509_cafile-identity_prefix small_files every_file no_bytes schemed_cell client_config
      (cert_path (lit "ed25519")) client_built schemes_named client_trusts
