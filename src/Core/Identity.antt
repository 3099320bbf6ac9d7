-- ===== src/Core/Identity.antt =====
-- core/identity.py: certificate prefixes for schemes and ciphers, and the PEM bundles under certs/.
-- A path is the text from the repository's root; `is_file` is the file system's answer.
pub mod Prefixes
use tls_interop_framework.Prelude.{Bool, List, [], if◌then◌else◌, is_empty, not, ◌&&◌, ◌++◌, ◌∷◌}
use tls_interop_framework.Python.Text.{
  Text, contains, lit, lower, or_text, remove_char, replace_char, strip,
}

abbrev pub scheme_prefix_rules : List (Text × Text)
scheme_prefix_rules =
    (lit "ed25519", lit "ed25519")
    ∷ (lit "ed448", lit "ed448")
    ∷ (lit "secp521", lit "ecdsa_p521")
    ∷ (lit "secp384", lit "ecdsa_p384")
    ∷ (lit "ecdsa", lit "ecdsa_p256")
    ∷ (lit "dss", lit "dsa_default")
    ∷ (lit "dsa", lit "dsa_default")
    ∷ (lit "rsa-pss-pss", lit "rsa_pss_pure")
    ∷ (lit "rsa", lit "rsa_default")
    ∷ []

-- The prefixes of the rules, each once, in the rules' order.
abbrev pub identity_prefixes : List Text
identity_prefixes =
    lit "ed25519"
    ∷ lit "ed448"
    ∷ lit "ecdsa_p521"
    ∷ lit "ecdsa_p384"
    ∷ lit "ecdsa_p256"
    ∷ lit "dsa_default"
    ∷ lit "rsa_pss_pure"
    ∷ lit "rsa_default"
    ∷ []

abbrev pub default_prefix : Text
default_prefix = lit "rsa_default"

-- The loop over the rules: the first needle that occurs wins.
unfoldable pub first_rule : Text → List (Text × Text) → Text
first_rule tok [] = default_prefix
first_rule tok ((pattern_text, prefix) ∷ rules) =
    if contains pattern_text tok then prefix else first_rule tok rules

unfoldable pub get_cert_prefix_for_scheme : Text → Text
get_cert_prefix_for_scheme scheme =
    let tok = replace_char b'_' b'-' (remove_char 32 (lower (strip scheme))) in
    if is_empty tok then default_prefix else first_rule tok scheme_prefix_rules

-- The first scheme that is not blank decides.
unfoldable pub get_cert_prefix_for_schemes : List Text → Text
get_cert_prefix_for_schemes [] = default_prefix
get_cert_prefix_for_schemes (s ∷ schemes) =
    let rest = get_cert_prefix_for_schemes schemes in
    if is_empty (strip s) then rest else get_cert_prefix_for_scheme s

unfoldable pub cert_path : Text → Text
cert_path p = lit "certs/" ++ (p ++ lit ".crt")

unfoldable pub key_path : Text → Text
key_path p = lit "certs/" ++ (p ++ lit ".key")

unfoldable pub catalog_identity_pem_paths_for_prefix : (Text → Bool) → Text → Text × Text
catalog_identity_pem_paths_for_prefix is_file prefix =
    let p = or_text (strip prefix) default_prefix in
    if is_file (cert_path p) && is_file (key_path p) then (cert_path p, key_path p) else ([], [])

unfoldable pub identity_pem_present : (Text → Bool) → Text → Bool
identity_pem_present is_file prefix =
    let paths = catalog_identity_pem_paths_for_prefix is_file prefix in
    not (is_empty paths.0) && not (is_empty paths.1)
