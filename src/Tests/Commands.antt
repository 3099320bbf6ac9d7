-- ===== src/Tests/Commands.antt =====
-- Command lines of GnuTLS and NSS, and what is read from their output.
use tls_interop_framework.Prelude.{[], false, if◌then◌else◌, none, refl, some, true, ◌∷◌, ◌≡◌}
use tls_interop_framework.Core.Identity.{catalog_identity_pem_paths_for_prefix, cert_path, key_path}
use tls_interop_framework.Core.Tokens.{stripped}
use tls_interop_framework.Python.Args.{text_of_int}
use tls_interop_framework.Python.Json.{decimal}
use tls_interop_framework.Python.Text.{
  contains, has_char, is_space, lit, lower, lower_char, lstrip, mem, or_text, remove_char, rstrip,
  starts_with, strip, text_eq,
}
use tls_interop_framework.Runner.Config.{TlsConfig}
use tls_interop_framework.Tests.Data.{every_file, small_config}
use tls_interop_framework.Wrappers.Command.Gnutls.{
  described_group, in_parens, infer_hrr_from_negotiation, priority_or_all, split_last_two,
}
use tls_interop_framework.Wrappers.Command.Nss.{
  client_establish_output_indicates_failure, first_address, first_marker, local_wrapper_env,
  nss_tstclnt_host_and_extra_argv, orchestration_env,
}
use tls_interop_framework.Wrappers.NssDb.{import_row, import_rows, nss_nickname_for_prefix}
use tls_interop_framework.Wrappers.Output.{after_word}
use tls_interop_framework.Wrappers.Process.{fails, gives, path_join, runtime_error}
use tls_interop_framework.Wrappers.Translation.Nss.{nss_tstclnt_sni_name}

abbrev retrying : TlsConfig
retrying = record small_config {
  expect_hrr = true;
  supported_groups = lit "secp256r1" ∷ lit "x25519" ∷ [];
}

gnutls_retry :
    infer_hrr_from_negotiation
      (lit "gnutls-cli --single-key-share localhost")
      retrying
      (lit "- Description: (TLS1.3-X.509)-(ECDHE-X25519)-(RSA)")
    ≡ true
unfolding infer_hrr_from_negotiation lit contains starts_with stripped strip rstrip lstrip is_space
    described_group lower after_word lower_char in_parens remove_char
gnutls_retry = refl

gnutls_first_group :
    infer_hrr_from_negotiation
      (lit "gnutls-cli --single-key-share localhost")
      retrying
      (lit "- Description: (TLS1.3-X.509)-(ECDHE-SECP256R1)-(RSA)")
    ≡ false
unfolding infer_hrr_from_negotiation lit contains starts_with stripped strip rstrip lstrip is_space
    described_group lower after_word lower_char in_parens remove_char
gnutls_first_group = refl

nss_marker :
    client_establish_output_indicates_failure (lit "tstclnt: read from socket failed: -12286 ")
    ≡ some (lit "read from socket failed")
unfolding client_establish_output_indicates_failure lit first_marker contains strip rstrip lstrip
    is_space starts_with
nss_marker = refl

nss_no_marker : client_establish_output_indicates_failure (lit "Handshake done") ≡ none
unfolding client_establish_output_indicates_failure lit first_marker contains strip rstrip lstrip
    is_space starts_with
nss_no_marker = refl

no_priority :
    priority_or_all (lit "--priority" ∷ [] ∷ []) (split_last_two (lit "--priority" ∷ [] ∷ []))
    ≡ fails (runtime_error (lit "empty GnuTLS priority string"))
unfolding lit priority_or_all split_last_two text_eq
no_priority = refl

with_priority :
    priority_or_all []
      (split_last_two (lit "--dhparams" ∷ lit "f" ∷ lit "--priority" ∷ lit "P" ∷ []))
    ≡ gives (lit "P", lit "--dhparams" ∷ lit "f" ∷ [])
unfolding lit priority_or_all split_last_two text_eq
with_priority = refl

nss_pair_env :
    orchestration_env (lit "gnutls" ∷ lit "nss" ∷ [])
    ≡ (lit "INTEROP_GNUTLS_NSS_PAIR", lit "true") ∷ []
unfolding lit orchestration_env mem text_eq
nss_pair_env = refl

nss_slot_env :
    local_wrapper_env (lit "/r") (lit "nss") (some 3)
    ≡ (lit "NSSDB", lit "/r/wrappers/nss/nssdb/nss_slot3") ∷ []
unfolding lit local_wrapper_env path_join has_char text_of_int decimal
nss_slot_env = refl

nss_peer_of_pair :
    nss_tstclnt_host_and_extra_argv
      (λ family h. if text_eq h (lit "node") then some (lit "10.0.0.2" ∷ []) else none)
      true
      (lit "node")
    ≡ (lit "10.0.0.2", lit "-a" ∷ lit "node" ∷ [])
unfolding lit nss_tstclnt_host_and_extra_argv text_eq first_address nss_tstclnt_sni_name strip
    or_text rstrip lstrip is_space mem starts_with
nss_peer_of_pair = refl

-- A bundle that is imported, and the one that NSS cannot import.
nss_rows_of_rsa :
    import_rows every_file (lit "ed25519" ∷ lit "rsa_default" ∷ [])
    ≡ (lit "interop_rsa_default", cert_path (lit "rsa_default"), key_path (lit "rsa_default")) ∷ []
unfolding cert_path import_rows key_path lit import_row mem text_eq
    catalog_identity_pem_paths_for_prefix nss_nickname_for_prefix or_text strip rstrip lstrip
    is_space
nss_rows_of_rsa = refl

nss_default_nickname : nss_nickname_for_prefix (lit " ") ≡ lit "interop_rsa_default"
unfolding lit nss_nickname_for_prefix or_text strip rstrip lstrip is_space
nss_default_nickname = refl
