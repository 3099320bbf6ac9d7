-- ===== src/Wrappers/Translation/Openssl.antt =====
-- wrappers/openssl/wrapper.py: the arguments for `s_server` and `s_client`.
use tls_interop_framework.Prelude.{
  Bool, List, Option, [], if◌then◌else◌, is_empty, map, none, not, some, ◌&&◌, ◌++◌, ◌||◌, ◌∷◌,
}
use tls_interop_framework.Core.Catalog.{psk_material}
use tls_interop_framework.Core.Features.{
  cipher_catalog_id_requires_anon, cipher_catalog_id_requires_psk, cipher_catalog_id_uses_dsa_auth,
}
use tls_interop_framework.Core.Tokens.{TlsMode, mode_text, norm_catalog_token, tls12, tls13}
use tls_interop_framework.Python.Json.{
  Fields, Json, arr, elements, fields_of, get, is_dict, py_str, repr_text, truthy,
}
use tls_interop_framework.Python.Text.{Text, contains, lit}
use tls_interop_framework.Runner.Config.{TlsConfig}
use tls_interop_framework.Runner.Driver.{test_feature_enabled_in_config}
use tls_interop_framework.Wrappers.Translation.{
  Translation, cipher_value, given, mapped_argv, mode_of, nothing, raw_cipher, refused, ◌⊕◌,
}

-- `_openssl_cipher_needs_legacy_dss`
unfoldable pub openssl_cipher_needs_legacy_dss : Text → Bool
openssl_cipher_needs_legacy_dss cipher =
    let c = norm_catalog_token cipher in not (is_empty c) && cipher_catalog_id_uses_dsa_auth c

unfoldable pub openssl_legacy_provider_argv : TlsConfig → List Text
openssl_legacy_provider_argv config =
    if openssl_cipher_needs_legacy_dss (raw_cipher config)
    then lit "-provider" ∷ lit "legacy" ∷ lit "-provider" ∷ lit "default" ∷ []
    else []

unfoldable pub append_seclevel_zero : Text → Text
append_seclevel_zero value =
    if contains (lit ":@SECLEVEL") value then value else value ++ lit ":@SECLEVEL=0"

unfoldable pub version_flags : Json → List Text
version_flags (arr vs) = map py_str (elements vs)
version_flags value = if truthy value then py_str value ∷ [] else []

-- The flags of a list are texts.
unfoldable pub tls_version_argv : Fields → TlsMode → List Text
unfolding version_flags
tls_version_argv caps mode =
    if is_dict (get (lit "tls_version") caps)
    then version_flags (get (mode_text mode) (fields_of (get (lit "tls_version") caps)))
    else []

-- The value of `-cipher`, with the security level that anonymous and DSS suites need.
unfoldable pub tls12_cipher_value : TlsConfig → Text → Text → Text
tls12_cipher_value config raw value =
    if (test_feature_enabled_in_config config (lit "anonymous")
        && cipher_catalog_id_requires_anon raw)
      || openssl_cipher_needs_legacy_dss raw
    then append_seclevel_zero value
    else value

unfoldable pub cipher_of_mode : TlsConfig → Text → TlsMode → Option Text → Translation
cipher_of_mode config raw tls13 (some value) = given (lit "-ciphersuites" ∷ value ∷ [])
cipher_of_mode config raw tls13 none =
    refused (lit "cipher_suite:" ++ (repr_text raw ++ lit " (no TLS 1.3 mapping)"))
cipher_of_mode config raw tls12 (some value) =
    given (lit "-cipher" ∷ tls12_cipher_value config raw value ∷ [])
cipher_of_mode config raw tls12 none =
    refused (lit "cipher_suite:" ++ (repr_text raw ++ lit " (no TLS 1.2 mapping)"))

unfoldable pub cipher_argv : TlsConfig → Text → TlsMode → Fields → Translation
unfolding cipher_of_mode
cipher_argv config raw mode caps =
    if is_empty raw then nothing else cipher_of_mode config raw mode (cipher_value caps mode raw)

unfoldable pub wants_psk : TlsConfig → Text → Bool
wants_psk config raw =
    not (is_empty raw)
    && test_feature_enabled_in_config config (lit "psk")
    && cipher_catalog_id_requires_psk raw

unfoldable pub psk_arguments : Option (Text × Text) → Translation
psk_arguments (some (identity, secret)) =
    given (lit "-psk_identity" ∷ identity ∷ lit "-psk" ∷ secret ∷ [])
psk_arguments none =
    refused (lit "psk (missing or wrong-length test_features.psk secret_hex_* for cipher)")

unfoldable pub psk_argv : TlsConfig → Fields → Text → Translation
psk_argv config caps raw =
    if wants_psk config raw then psk_arguments (psk_material caps raw) else nothing

unfoldable pub mapped_colon_argv : Fields → Text → Text → List Text → Translation
mapped_colon_argv = mapped_argv (lit " (unsupported for openssl mapping)") (lit ":")

unfoldable pub tls13_lists : TlsConfig → Fields → TlsMode → Translation
tls13_lists config caps tls13 =
    mapped_colon_argv caps (lit "supported_groups") (lit "-groups") config.supported_groups
    ⊕ mapped_colon_argv caps (lit "signature_schemes") (lit "-sigalgs") config.signature_schemes
tls13_lists config caps tls12 = nothing

-- `tls_argv_for_config`
unfoldable pub openssl_argv_for_config : Fields → TlsConfig → Translation
unfolding tls13_lists
openssl_argv_for_config caps config =
    given (tls_version_argv caps (mode_of config))
    ⊕ cipher_argv config (raw_cipher config) (mode_of config) caps
    ⊕ psk_argv config caps (raw_cipher config)
    ⊕ tls13_lists config caps (mode_of config)

unfoldable pub state_debug_argv : TlsConfig → List Text
state_debug_argv config = state_if (mode_of config) config.expect_hrr
  where
    state_if : TlsMode → Bool → List Text
    state_if tls13 retry = lit "-state" ∷ []
    state_if tls12 retry = if retry then lit "-state" ∷ [] else []
