-- ===== src/Wrappers/Certs/Selected.antt =====
-- The identities that the wrappers select for the two sides of a cell.
use tls_interop_framework.Prelude.{
  Bool, List, Option, ap, arith, false, if◌then◌else◌, is_empty, none, not, refl, some, sym, true,
  ℕ, ◌&&◌, ◌∙◌, ◌≡◌,
}
use tls_interop_framework.Core.Catalog.{CapabilityFile}
use tls_interop_framework.Core.Cell.{CellMap}
use tls_interop_framework.Core.Features.{cipher_catalog_id_uses_dsa_auth}
use tls_interop_framework.Core.Identity.{
  catalog_identity_pem_paths_for_prefix, get_cert_prefix_for_schemes,
}
use tls_interop_framework.Python.Result.{ok}
use tls_interop_framework.Python.Text.{Text, lit}
use tls_interop_framework.Runner.Config.{
  TlsConfig, client, identity_prefix, pick_list, tls_config_from_cell,
}
use tls_interop_framework.Wrappers.Certs.{server_trust_signature_schemes_tokens}
use tls_interop_framework.Wrappers.Certs.Agreement.{client_trust-identity_prefix}
use tls_interop_framework.Wrappers.Command.Gnutls.{catalog_cert, client_x509_cafile, or_trust}
use tls_interop_framework.Wrappers.Process.{gives}

module _ (read_capabilities : Text → CapabilityFile) (is_file : Text → Bool)
    (read_bytes : Text → List ℕ) (cell : CellMap) (cfg : TlsConfig) where
  -- The override for DSA.
  abbrev pub server_identity : Text
  server_identity =
      if cipher_catalog_id_uses_dsa_auth cfg.cipher_suite
      then lit "dsa_default"
      else identity_prefix cell

  same_text : (s t : Text) → some s ≡ some t → s ≡ t
  same_text s t h = cc

  of_test :
      (cert path : Text) (b : Bool)
      → (b ≡ true → is_file cert ≡ true)
      → (if b then some cert else none) ≡ some path
      → (path ≡ cert) × (is_file path ≡ true)
  of_test cert path true there h =
      (sym (same_text cert path h), ap is_file (sym (same_text cert path h)) ∙ there refl)
  of_test cert path false there h = absurd (ground arith)

  catalog_cert-some :
      (prefix path : Text)
      → catalog_cert is_file prefix ≡ some path
      → (path ≡ (catalog_identity_pem_paths_for_prefix is_file prefix).0) × (is_file path ≡ true)
  unfolding catalog_cert
  catalog_cert-some prefix path h =
      let cert = (catalog_identity_pem_paths_for_prefix is_file prefix).0 in
      of_test cert path (not (is_empty cert) && is_file cert) (λ e. ground (arith, e)) h

  trusted :
      (path : Text)
      → or_trust is_file cfg none ≡ gives path
      → catalog_cert is_file
          (get_cert_prefix_for_schemes (server_trust_signature_schemes_tokens cfg))
        ≡ some path
  unfolding or_trust
  trusted path h = ground arith

  -- What a GnuTLS client trusts: the DSA identity where its cipher has DSA authentication and the
  -- certificate of that identity is there, and otherwise the identity of the server.
  abbrev pub trust_prefix : Text
  trust_prefix =
      if cipher_catalog_id_uses_dsa_auth cfg.cipher_suite
      then elim (catalog_cert is_file (lit "dsa_default")) [
        | some cert ↦ lit "dsa_default"
        | none ↦ identity_prefix cell
      ]
      else identity_prefix cell

  of_override :
      (weak : Bool) (own : Option Text) (path : Text)
      → catalog_cert is_file (lit "dsa_default") ≡ own
      → (or_trust is_file cfg none ≡ gives path
          → catalog_cert is_file (identity_prefix cell) ≡ some path)
      → or_trust is_file cfg (if weak then own else none) ≡ gives path
      → catalog_cert is_file (
          if weak
          then elim own [ some cert ↦ lit "dsa_default" | none ↦ identity_prefix cell ]
          else identity_prefix cell)
        ≡ some path
  unfolding or_trust
  of_override true (some cert) path e fallback h = e ∙ ap some (sym (given_path path cert h))
    where
      given_path : (s t : Text) → gives t ≡ gives s → s ≡ t
      given_path s t h = cc
  of_override true none path e fallback h = fallback h
  of_override false own path e fallback h = fallback h

  -- The trust file of a GnuTLS client, for the configuration that a cell gives its client, where the
  -- cell names signature schemes for its server: a file that is given is there, and it is the
  -- certificate of the DSA identity, where the client's cipher has DSA authentication and that
  -- certificate is there, and otherwise the certificate of the server's identity.
  pub client_x509_cafile-identity_prefix :
      (path : Text)
      → tls_config_from_cell read_capabilities is_file read_bytes cell client ≡ ok cfg
      → is_empty (pick_list cell (lit "signature_schemes") true) ≡ false
      → client_x509_cafile is_file cfg ≡ gives path
      → (path ≡ (catalog_identity_pem_paths_for_prefix is_file trust_prefix).0)
        × (is_file path ≡ true)
  unfolding client_x509_cafile
  client_x509_cafile-identity_prefix path built full h = catalog_cert-some trust_prefix path (
      of_override (cipher_catalog_id_uses_dsa_auth cfg.cipher_suite)
        (catalog_cert is_file (lit "dsa_default")) path refl
        (λ k.
          ap (catalog_cert is_file) (
            sym (
              client_trust-identity_prefix read_capabilities is_file read_bytes cell cfg built
                full))
          ∙ trusted path k)
        h)
