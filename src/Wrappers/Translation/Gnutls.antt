-- ===== src/Wrappers/Translation/Gnutls.antt =====
-- wrappers/gnutls/wrapper.py: the arguments for `gnutls-serv` and `gnutls-cli`. The path of the
-- password file that a server's translation writes is a parameter.
use tls_interop_framework.Prelude.{
  List, Option, [], if◌then◌else◌, is_empty, map, none, not, some, ◌&&◌, ◌++◌, ◌||◌, ◌∷◌,
}
use tls_interop_framework.Core.Catalog.{psk_material}
use tls_interop_framework.Core.Features.{
  cipher_catalog_id_requires_anon, cipher_catalog_id_uses_dsa_auth,
}
use tls_interop_framework.Core.Tokens.{
  TlsMode, mode_text, norm_catalog_token, stripped, tls12, tls13,
}
use tls_interop_framework.Python.Json.{Fields, fields_of, get, is_dict, py_str, repr_text, truthy}
use tls_interop_framework.Python.Text.{Text, join, lit, starts_with}
use tls_interop_framework.Runner.Config.{Role, TlsConfig, client, is_server, server}
use tls_interop_framework.Runner.Driver.{test_feature_enabled_in_config}
use tls_interop_framework.Wrappers.Translation.{
  Translation, cipher_value, given, mapped_tokens, mode_of, nothing, raw_cipher, refused, ◌⊕◌,
}
use tls_interop_framework.Wrappers.Translation.Openssl.{wants_psk}

unfoldable pub gnutls_psk_argv : Text → Role → Text → Text → List Text
gnutls_psk_argv passwd_file server identity secret = lit "--pskpasswd" ∷ passwd_file ∷ []
gnutls_psk_argv passwd_file client identity secret =
    lit "--pskusername" ∷ identity ∷ lit "--pskkey" ∷ secret ∷ []

-- One text of what the tokens map to, each after the prefix of an entry; none where nothing is
-- mapped.
unfoldable pub priority_text : Text → Text → List Text → List Text
priority_text reset prefix [] = []
priority_text reset prefix (v ∷ vs) = (reset ++ join [] (map (λ w. prefix ++ w) (v ∷ vs))) ∷ []

-- The fragment of a field, `_gnutls_join_priority_tokens`.
unfoldable pub gnutls_join_priority_tokens : Text → Text → Fields → Text → List Text → Translation
unfolding priority_text
gnutls_join_priority_tokens reset prefix caps name raw =
    let its = stripped raw in
    if is_empty its || not (is_dict (get name caps))
    then nothing
    else (let t =
          mapped_tokens name (lit " (unsupported for GnuTLS mapping)") (fields_of (get name caps))
            its in
        record t { argv = priority_text reset prefix t.argv })

unfoldable pub priority_frags_13 : TlsConfig → Fields → TlsMode → Translation
priority_frags_13 config caps tls13 =
    gnutls_join_priority_tokens (lit ":-GROUP-ALL") (lit ":+GROUP-") caps (lit "supported_groups")
      config.supported_groups
    ⊕ gnutls_join_priority_tokens [] (lit ":+") caps (lit "signature_schemes")
        config.signature_schemes
priority_frags_13 config caps tls12 = nothing

unfoldable pub cipher_priority : Text → Option Text → Translation
cipher_priority raw (some value) = given ((lit ":-CIPHER-ALL:" ++ value) ∷ [])
cipher_priority raw none =
    refused (lit "cipher_suite:" ++ (repr_text raw ++ lit " (no GnuTLS priority mapping)"))

unfoldable pub cipher_priority_token : Fields → TlsMode → Text → Translation
unfolding cipher_priority
cipher_priority_token caps mode raw =
    if is_empty raw then nothing else cipher_priority raw (cipher_value caps mode raw)

unfoldable pub psk_extra : Text → Role → Option (Text × Text) → Translation
psk_extra passwd_file role (some (identity, secret)) =
    given (gnutls_psk_argv passwd_file role identity secret)
psk_extra passwd_file role none =
    refused (lit "psk (missing or wrong-length test_features.psk secret_hex_* for cipher)")

unfoldable pub gnutls_psk_extras : Text → TlsConfig → Role → Fields → Text → Translation
gnutls_psk_extras passwd_file config role caps raw =
    if wants_psk config raw then psk_extra passwd_file role (psk_material caps raw) else nothing

unfoldable pub gnutls_anon_extras : TlsConfig → Role → Text → List Text
gnutls_anon_extras config role raw =
    if not (is_empty raw)
      && test_feature_enabled_in_config config (lit "anonymous")
      && cipher_catalog_id_requires_anon raw
      && starts_with (norm_catalog_token raw) (lit "dh-anon")
      && is_server role
    then lit "--dhparams" ∷ lit "certs/dh2048.pem" ∷ []
    else []

unfoldable pub side_name : Role → Text
side_name server = lit "server"
side_name client = lit "client"

unfoldable pub priority_base : Fields → Role → TlsMode → List Text
unfolding side_name
priority_base caps role mode =
    let base =
      get (side_name role ++ b':' ∷ mode_text mode)
        (fields_of (get (lit "gnutls_priority_base") caps)) in
    if truthy base then py_str base ∷ [] else []

unfoldable pub dss_schemes : Text → TlsMode → List Text
dss_schemes raw tls13 = []
dss_schemes raw tls12 =
    if not (is_empty raw) && cipher_catalog_id_uses_dsa_auth raw
    then lit ":+SIGN-DSA-SHA256:+SIGN-DSA-SHA1" ∷ []
    else []

unfoldable pub gnutls_priority_parts : TlsConfig → Role → Fields → TlsMode → Text → Translation
unfolding priority_frags_13 dss_schemes
gnutls_priority_parts config role caps mode raw =
    given (priority_base caps role mode)
    ⊕ cipher_priority_token caps mode raw
    ⊕ priority_frags_13 config caps mode
    ⊕ given (dss_schemes raw mode)

-- The parts of a priority string as its two arguments.
unfoldable pub as_priority : Translation → Translation
as_priority t = record t { argv = lit "--priority" ∷ join [] t.argv ∷ [] }

-- `tls_argv_for_config`
unfoldable pub gnutls_argv_for_config : Text → Role → Fields → TlsConfig → Translation
gnutls_argv_for_config passwd_file role caps config =
    gnutls_psk_extras passwd_file config role caps (raw_cipher config)
    ⊕ given (gnutls_anon_extras config role (raw_cipher config))
    ⊕ as_priority (gnutls_priority_parts config role caps (mode_of config) (raw_cipher config))
