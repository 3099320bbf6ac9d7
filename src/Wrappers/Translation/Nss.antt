-- ===== src/Wrappers/Translation/Nss.antt =====
-- wrappers/nss/wrapper.py: the arguments for `selfserv` and `tstclnt`.
use tls_interop_framework.Prelude.{
  Bool, List, Option, [], drop, false, if◌then◌else◌, is_empty, none, not, some, ℕ, ◌&&◌, ◌++◌,
  ◌==◌, ◌||◌, ◌∷◌,
}
use tls_interop_framework.Core.Catalog.{psk_material}
use tls_interop_framework.Core.Features.{
  cipher_catalog_id_requires_anon, cipher_catalog_id_requires_psk,
}
use tls_interop_framework.Core.Tokens.{TlsMode, norm_catalog_token, tls12, tls13}
use tls_interop_framework.Python.Json.{Fields, repr_text}
use tls_interop_framework.Python.Text.{Text, has_char, lit, lower, mem, starts_with, strip}
use tls_interop_framework.Runner.Config.{TlsConfig}
use tls_interop_framework.Runner.Driver.{test_feature_enabled_in_config}
use tls_interop_framework.Wrappers.Translation.{
  Translation, cipher_value, given, mapped_argv, mode_of, nothing, raw_cipher, refused, ◌⊕◌,
}

unfoldable pub nss_anon_argv : TlsConfig → List Text
nss_anon_argv config =
    let raw = raw_cipher config in
    if not (test_feature_enabled_in_config config (lit "anonymous"))
    then []
    else if is_empty raw || not (cipher_catalog_id_requires_anon raw)
    then []
    else if starts_with (norm_catalog_token raw) (lit "ecdh-anon")
    then lit "-H" ∷ lit "2" ∷ []
    else lit "-H" ∷ lit "1" ∷ []

-- The cipher whose secret is taken.
unfoldable pub cipher_for_psk : Text → Text
cipher_for_psk raw =
    if not (is_empty raw) && cipher_catalog_id_requires_psk raw
    then raw
    else lit "psk-aes-128-gcm-sha256"

unfoldable pub psk_z : Option (Text × Text) → List Text
psk_z none = []
psk_z (some (identity, secret)) = lit "-z" ∷ (lit "0x" ++ (secret ++ b':' ∷ identity)) ∷ []

unfoldable pub psk_z_in : TlsMode → TlsConfig → Fields → List Text
unfolding psk_z
psk_z_in tls12 config caps = []
psk_z_in tls13 config caps =
    if test_feature_enabled_in_config config (lit "psk")
    then psk_z (psk_material caps (cipher_for_psk (raw_cipher config)))
    else []

unfoldable pub nss_psk_z_argv : TlsConfig → Fields → List Text
unfolding psk_z_in
nss_psk_z_argv config caps = psk_z_in (mode_of config) config caps

unfoldable pub mapped_csv_argv : Fields → Text → Text → List Text → Translation
mapped_csv_argv = mapped_argv (lit " (unsupported for NSS mapping)") (lit ",")

unfoldable pub c_argument : Text → Option Text → Translation
c_argument raw (some value) = given (lit "-c" ∷ value ∷ [])
c_argument raw none = refused (lit "cipher_suite:" ++ (repr_text raw ++ lit " (no NSS -c mapping)"))

unfoldable pub nss_cipher_argv : Fields → TlsMode → Text → Translation
unfolding c_argument
nss_cipher_argv caps mode raw =
    if is_empty raw then nothing else c_argument raw (cipher_value caps mode raw)

unfoldable pub nss_tls13_lists : TlsConfig → Fields → TlsMode → Translation
nss_tls13_lists config caps tls13 =
    mapped_csv_argv caps (lit "supported_groups") (lit "-I") config.supported_groups
    ⊕ mapped_csv_argv caps (lit "signature_schemes") (lit "-J") config.signature_schemes
nss_tls13_lists config caps tls12 = nothing

-- `tls_argv_for_config`
unfoldable pub nss_argv_for_config : Fields → TlsConfig → Translation
unfolding nss_tls13_lists
nss_argv_for_config caps config =
    nss_cipher_argv caps (mode_of config) (raw_cipher config)
    ⊕ nss_tls13_lists config caps (mode_of config)
    ⊕ given (nss_anon_argv config)
    ⊕ given (nss_psk_z_argv config caps)

-- The name that the client asks for, which is that of the generated certificates where the host is
-- this machine.
unfoldable pub nss_tstclnt_sni_name : Text → Text
nss_tstclnt_sni_name hostname =
    let h = strip hostname in
    if is_empty h || mem h (lit "127.0.0.1" ∷ lit "localhost" ∷ lit "::1" ∷ [])
    then lit "server-node"
    else if is_bracketed h && has_char b':' (inner h)
    then lit "server-node"
    else h
  where
    last_is : ℕ → Text → Bool
    last_is c [] = false
    last_is c (d ∷ []) = c == d
    last_is c (d ∷ e ∷ s) = last_is c (e ∷ s)

    is_bracketed : Text → Bool
    is_bracketed s = starts_with s (lit "[") && last_is b']' s

    without_last : Text → Text
    without_last [] = []
    without_last (c ∷ []) = []
    without_last (c ∷ d ∷ s) = c ∷ without_last (d ∷ s)

    inner : Text → Text
    inner s = without_last (drop 1 s)

unfoldable pub tls_version_range : TlsConfig → Text
tls_version_range config =
    let v = lower (strip config.version) in
    if mem v (lit "1.2" ∷ lit "1.2.0" ∷ lit "tls1.2" ∷ lit "tls1_2" ∷ [])
    then lit "tls1.2:tls1.2"
    else if mem v (lit "1.3" ∷ lit "1.3.0" ∷ lit "tls1.3" ∷ lit "tls1_3" ∷ [])
    then lit "tls1.3:tls1.3"
    else lit "tls1.2:tls1.3"
