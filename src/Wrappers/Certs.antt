-- ===== src/Wrappers/Certs.antt =====
-- core/identity.py and wrappers/base.py: the certificates that a configuration selects, and the
-- paths that a tool is given.
pub mod Agreement
pub mod Paths
pub mod Selected
use tls_interop_framework.Prelude.{
  Bool, List, Option, [], any, if◌then◌else◌, is_empty, none, not, some, ℕ, ◌&&◌, ◌||◌, ◌∷◌,
}
use tls_interop_framework.Core.Features.{cipher_catalog_id_uses_dsa_auth}
use tls_interop_framework.Core.Identity.{
  catalog_identity_pem_paths_for_prefix, get_cert_prefix_for_scheme, get_cert_prefix_for_schemes,
}
use tls_interop_framework.Core.Tokens.{stripped}
use tls_interop_framework.Python.Text.{Text, lit}
use tls_interop_framework.Runner.Config.{TlsConfig}
use tls_interop_framework.Runner.Params.{is_byte_space}
use tls_interop_framework.Wrappers.Process.{Attempt, Failure, fails, gives, setup_error}

-- `repeated_config_tokens(config, "signature_schemes")`
abbrev pub scheme_tokens : TlsConfig → List Text
scheme_tokens config = stripped config.signature_schemes

unfoldable pub get_cert_prefix_for_config : TlsConfig → Text
get_cert_prefix_for_config config =
    if is_empty (scheme_tokens config)
    then get_cert_prefix_for_scheme config.cipher_suite
    else get_cert_prefix_for_schemes (scheme_tokens config)

unfoldable pub server_trust_signature_schemes_tokens : TlsConfig → List Text
server_trust_signature_schemes_tokens config =
    if is_empty (stripped config.signature_schemes_cert)
    then scheme_tokens config
    else stripped config.signature_schemes_cert

-- Bytes that are not blank, `b.strip()`.
unfoldable pub has_bytes : List ℕ → Bool
has_bytes b = any (λ x. not (is_byte_space x)) b

unfoldable pub has_inline : TlsConfig → Bool
has_inline config = has_bytes config.certificate && has_bytes config.private_key

abbrev pub no_identity : Failure
no_identity = setup_error (
    lit
      "No identity PEM for this test (set certificate/private_key, or use certs/ from core/gen_interop_certs.sh)")

-- What a method that stages files gives, with the files that it tracks.
abbrev pub Staging : Type 0 → Type 0
Staging W = (List Text × Attempt (Text × Text)) × W

module _ {W : Type 0} (is_file : Text → Bool)
    (stage : List ℕ → List ℕ → W → Attempt (Text × Text) × W) where
  unfoldable pub catalog_paths : Text → Option (Text × Text)
  catalog_paths prefix =
      let paths = catalog_identity_pem_paths_for_prefix is_file prefix in
      if is_empty paths.0 || is_empty paths.1 then none else some paths

  -- `_dsa_catalog_identity_pem`
  unfoldable pub dsa_catalog_identity_pem : TlsConfig → Attempt (Option (Text × Text))
  dsa_catalog_identity_pem config =
      if cipher_catalog_id_uses_dsa_auth config.cipher_suite
      then elim (catalog_paths (lit "dsa_default")) [
        | some paths ↦ gives (some paths)
        | none ↦ if has_inline config then gives none else fails no_identity
      ]
      else gives none

  -- The files are tracked once both are written; a failed write leaves what it wrote untracked.
  unfoldable pub tracked : Attempt (Text × Text) × W → Staging W
  tracked (gives paths, w) = ((paths.0 ∷ paths.1 ∷ [], gives paths), w)
  tracked (fails e, w) = (([], fails e), w)

  unfoldable pub write_inline_cert_key : TlsConfig → W → Staging W
  unfolding tracked
  write_inline_cert_key config w = tracked (stage config.certificate config.private_key w)

  unfoldable pub catalog_or_fail : Option (Text × Text) → W → Staging W
  catalog_or_fail (some paths) w = (([], gives paths), w)
  catalog_or_fail none w = (([], fails no_identity), w)

  unfoldable pub inline_or_catalog : TlsConfig → W → Staging W
  unfolding catalog_or_fail
  inline_or_catalog config w =
      if has_inline config
      then write_inline_cert_key config w
      else catalog_or_fail (catalog_paths (get_cert_prefix_for_config config)) w

  unfoldable pub after_dsa : TlsConfig → Attempt (Option (Text × Text)) → W → Staging W
  after_dsa config (fails e) w = (([], fails e), w)
  after_dsa config (gives (some paths)) w = (([], gives paths), w)
  after_dsa config (gives none) w = inline_or_catalog config w

  -- `_ensure_cert_paths`; `stage` writes the two files to fresh paths, or raises.
  unfoldable pub ensure_cert_paths : TlsConfig → W → Staging W
  ensure_cert_paths config w = after_dsa config (dsa_catalog_identity_pem config) w
