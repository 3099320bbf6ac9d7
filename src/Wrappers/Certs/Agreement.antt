-- ===== src/Wrappers/Certs/Agreement.antt =====
-- The prefixes of the certificates that the two sides of a cell select, by their signature schemes.
use tls_interop_framework.Prelude.{
  Bool, Bool-cases, List, [], ap, false, if◌then◌else◌, inl, inr, is_empty, not, refl, sym, true, ℕ,
  ◌∙◌, ◌∷◌, ◌≡◌,
}
use tls_interop_framework.Core.Catalog.{CapabilityFile}
use tls_interop_framework.Core.Cell.{CellMap}
use tls_interop_framework.Core.Identity.{get_cert_prefix_for_scheme, get_cert_prefix_for_schemes}
use tls_interop_framework.Core.Tokens.{asymmetric_role_part, split_csv_tokens, stripped}
use tls_interop_framework.Core.Validation.{side_tokens}
use tls_interop_framework.Python.Dict.{get_text}
use tls_interop_framework.Python.Result.{>>=-eq-ok, ok, ok-injective}
use tls_interop_framework.Python.Text.{Text, lit, split, strip}
use tls_interop_framework.Python.Text.Strip.{strip-strip}
use tls_interop_framework.Runner.Config.{
  TlsConfig, client, config_at_port, fields_from_cell, identity_prefix, is_server, pick_list,
  pick_scalar, port_of, server, tls_config_from_cell,
}
use tls_interop_framework.Runner.Config.Agreement.{pick_list-side_tokens}
use tls_interop_framework.Runner.Config.Supported.{tls_config-IsFrom}
use tls_interop_framework.Wrappers.Certs.{
  get_cert_prefix_for_config, server_trust_signature_schemes_tokens,
}

stripped-stripped : (ts : List Text) → stripped (stripped ts) ≡ stripped ts
unfolding stripped
stripped-stripped [] = refl
stripped-stripped (t ∷ ts) = elim (Bool-cases (is_empty (strip t))) [
  | inl blank ↦ rw blank (stripped-stripped ts)
  | inr full ↦ rw full (rw strip-strip (rw full (ap (λ l. strip t ∷ l) (stripped-stripped ts))))
]

tokens-stripped : (s : Text) → stripped (split_csv_tokens s) ≡ split_csv_tokens s
unfolding split_csv_tokens
tokens-stripped s = stripped-stripped (split b',' s)

pick_list-stripped :
    (cell : CellMap) (name : Text) (b : Bool)
    → stripped (pick_list cell name b) ≡ pick_list cell name b
unfolding side_tokens
pick_list-stripped cell name b =
    rw pick_list-side_tokens (tokens-stripped (asymmetric_role_part (get_text name cell) b))

prefix_of_parts :
    (schemes : List Text) (cipher : Text) (cfg : TlsConfig)
    → stripped schemes ≡ schemes
    → cfg.signature_schemes ≡ schemes
    → cfg.cipher_suite ≡ cipher
    → get_cert_prefix_for_config cfg ≡ (
        if not (is_empty schemes)
        then get_cert_prefix_for_schemes schemes
        else get_cert_prefix_for_scheme cipher)
unfolding get_cert_prefix_for_config
prefix_of_parts [] cipher cfg e s c = rw s (rw e (rw c refl))
prefix_of_parts (t ∷ ts) cipher cfg e s c = rw s (rw e refl)

module _ (read_capabilities : Text → CapabilityFile) (is_file : Text → Bool)
    (read_bytes : Text → List ℕ) (cell : CellMap) (cfg : TlsConfig) where
  -- The prefix of a server, but for the override of DSA.
  pub server_prefix-identity_prefix :
      tls_config_from_cell read_capabilities is_file read_bytes cell server ≡ ok cfg
      → get_cert_prefix_for_config cfg ≡ identity_prefix cell
  unfolding identity_prefix is_server
  server_prefix-identity_prefix built =
      let F = tls_config-IsFrom read_capabilities is_file read_bytes cell server cfg built in
      prefix_of_parts (pick_list cell (lit "signature_schemes") true)
        (pick_scalar cell (lit "cipher_suite") true) cfg
        (pick_list-stripped cell (lit "signature_schemes") true) F.schemes F.cipher

  client_schemes_cert :
      tls_config_from_cell read_capabilities is_file read_bytes cell client ≡ ok cfg
      → cfg.signature_schemes_cert ≡ pick_list cell (lit "signature_schemes") true
  unfolding tls_config_from_cell config_at_port fields_from_cell is_server
  client_schemes_cert built =
      let (port, p, e) =
        >>=-eq-ok (port_of (pick_scalar cell (lit "tls_port") false))
          (λ n. ok (fields_from_cell read_capabilities is_file read_bytes cell false n)) built in
      ap (λ c. c.signature_schemes_cert) (sym (ok-injective e))

  trust_of_parts :
      (schemes : List Text)
      → stripped schemes ≡ schemes
      → cfg.signature_schemes_cert ≡ schemes
      → is_empty schemes ≡ false
      → server_trust_signature_schemes_tokens cfg ≡ schemes
  unfolding server_trust_signature_schemes_tokens
  trust_of_parts schemes e s full = rw s (rw e (rw full refl))

  -- The prefix of a client's trust file, but for the override of DSA.
  pub client_trust-identity_prefix :
      tls_config_from_cell read_capabilities is_file read_bytes cell client ≡ ok cfg
      → is_empty (pick_list cell (lit "signature_schemes") true) ≡ false
      → get_cert_prefix_for_schemes (server_trust_signature_schemes_tokens cfg)
        ≡ identity_prefix cell
  unfolding identity_prefix
  client_trust-identity_prefix built full =
      ap get_cert_prefix_for_schemes (
        trust_of_parts (pick_list cell (lit "signature_schemes") true)
          (pick_list-stripped cell (lit "signature_schemes") true) (client_schemes_cert built) full)
      ∙ named (pick_list cell (lit "signature_schemes") true) full
    where
      named :
          (schemes : List Text)
          → is_empty schemes ≡ false
          → get_cert_prefix_for_schemes schemes ≡ (
              if not (is_empty schemes)
              then get_cert_prefix_for_schemes schemes
              else get_cert_prefix_for_scheme (pick_scalar cell (lit "cipher_suite") true))
      named schemes n = rw n refl
