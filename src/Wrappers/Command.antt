-- ===== src/Wrappers/Command.antt =====
-- wrappers/utils.py and wrappers/openssl/wrapper.py: the command lines of OpenSSL's tools. The
-- command is the list of its arguments. Paths are as they are given, and the early data file is
-- taken to be written.
pub mod Gnutls
pub mod Nss
use tls_interop_framework.Prelude.{
  Bool, List, [], all, false, if◌then◌else◌, is_empty, leb, length, not, true, ℕ, ◌&&◌, ◌++◌, ◌==◌,
  ◌||◌, ◌∷◌,
}
use tls_interop_framework.Core.Identity.{
  catalog_identity_pem_paths_for_prefix, get_cert_prefix_for_schemes,
}
use tls_interop_framework.Core.Tokens.{stripped}
use tls_interop_framework.Python.Args.{text_of_int}
use tls_interop_framework.Python.Json.{Fields}
use tls_interop_framework.Python.Text.{Text, join, lit, or_text, split, strip, text_eq}
use tls_interop_framework.Runner.Config.{TlsConfig}
use tls_interop_framework.Runner.Driver.{test_feature_enabled_in_config, wants_resumption}
use tls_interop_framework.Wrappers.Certs.{server_trust_signature_schemes_tokens}
use tls_interop_framework.Wrappers.Process.{path_join}
use tls_interop_framework.Wrappers.Translation.Openssl.{
  openssl_argv_for_config, openssl_legacy_provider_argv, state_debug_argv,
}

-- `alpn_cli_protocol_list`
unfoldable pub alpn_cli_protocol_list : TlsConfig → Text
alpn_cli_protocol_list config = join (lit ",") (stripped config.alpn_protocols)

-- `tls_session_state_paths`; the paths of an empty root are those of the repository.
unfoldable pub tls_session_state_paths : TlsConfig → Text × Text
tls_session_state_paths config =
    let root = strip config.repo_root in
    if is_empty root
    then (lit "session.ticket", lit "early_data.txt")
    else (path_join root (lit "session.ticket"), path_join root (lit "early_data.txt"))

-- `[A-Za-z0-9]`
unfoldable pub is_alnum : ℕ → Bool
is_alnum c = (leb b'0' c && leb c b'9') || (leb b'A' c && leb c b'Z') || (leb b'a' c && leb c b'z')

-- What follows the first character of a label: letters, digits and dashes, the last not a dash.
unfoldable pub label_rest : Text → Bool
unfolding is_alnum
label_rest [] = true
label_rest (c ∷ []) = is_alnum c
label_rest (c ∷ d ∷ s) = let rest = label_rest (d ∷ s) in (is_alnum c || c == b'-') && rest

-- `_DNS_LABEL_OK.fullmatch(label)`
unfoldable pub dns_label_ok : Text → Bool
dns_label_ok [] = false
dns_label_ok (c ∷ s) = is_alnum c && label_rest s && leb (length s) 62

unfoldable pub is_digit : ℕ → Bool
is_digit c = leb b'0' c && leb c b'9'

-- `\d{1,3}`
is_octet : Text → Bool
is_octet s = not (is_empty s) && leb (length s) 3 && all is_digit s

-- Four of them, which is what the pattern of an IPv4 address asks for. A digit that is not ASCII
-- is refused by the pattern of a label.
unfoldable pub is_ipv4 : List Text → Bool
unfolding is_octet
is_ipv4 (a ∷ b ∷ c ∷ d ∷ []) = is_octet a && is_octet b && is_octet c && is_octet d
is_ipv4 _ = false

-- `.rstrip(".")`
unfoldable pub rstrip_dots : Text → Text
rstrip_dots [] = []
rstrip_dots (c ∷ s) = onto c (rstrip_dots s)
  where
    onto : ℕ → Text → Text
    onto c [] = if c == b'.' then [] else c ∷ []
    onto c (d ∷ r) = c ∷ d ∷ r

-- `_host_ok_for_sni`; a bracketed address has no label that is accepted.
unfoldable pub host_ok_for_sni : Text → Bool
host_ok_for_sni hostname =
    let hn = rstrip_dots (strip hostname) in
    let labels = split b'.' hn in
    not (is_empty hn) && leb (length hn) 253 && not (is_ipv4 labels) && all dns_label_ok labels

unfoldable pub client_sni_args : TlsConfig → List Text
client_sni_args config =
    let host = strip config.server_hostname in
    if host_ok_for_sni host then lit "-servername" ∷ host ∷ [] else lit "-noservername" ∷ []

unfoldable pub openssl_common_args : Fields → TlsConfig → List Text
openssl_common_args caps config =
    let argv = (openssl_argv_for_config caps config).argv in
    let alpn = alpn_cli_protocol_list config in
    if is_empty alpn then argv else argv ++ (lit "-alpn" ∷ alpn ∷ [])

resume_argv : TlsConfig → List Text
resume_argv config =
    lit "-sess_in"
    ∷ (tls_session_state_paths config).0
    ∷ (if test_feature_enabled_in_config config (lit "0rtt")
        then lit "-early_data" ∷ (tls_session_state_paths config).1 ∷ []
        else [])

unfoldable pub client_session_argv : TlsConfig → List Text
unfolding resume_argv
client_session_argv config =
    let step_name = strip config.resumption_step in
    if not (wants_resumption config)
    then []
    else if text_eq step_name (lit "save")
    then lit "-sess_out" ∷ (tls_session_state_paths config).0 ∷ []
    else if text_eq step_name (lit "resume")
    then resume_argv config
    else []

-- The trust PEM of a server that asks for a client certificate, its own where there is none.
server_ca : (Text → Bool) → TlsConfig → Text → Text
server_ca is_file config own =
    let ca =
      (catalog_identity_pem_paths_for_prefix is_file
        (get_cert_prefix_for_schemes (server_trust_signature_schemes_tokens config))).0 in
    if is_empty ca || not (is_file ca) then own else ca

-- The command of `_start_server`, for resolved paths.
unfoldable pub openssl_server_command : (Text → Bool) → Fields → TlsConfig → Text × Text → List Text
unfolding server_ca
openssl_server_command is_file caps config paths =
    lit "openssl"
    ∷ lit "s_server"
    ∷ (openssl_legacy_provider_argv config
        ++ (lit "-accept"
            ∷ (lit "0.0.0.0:" ++ text_of_int config.port)
            ∷ lit "-cert"
            ∷ paths.0
            ∷ lit "-key"
            ∷ paths.1
            ∷ [])
        ++ openssl_common_args caps config
        ++ (if test_feature_enabled_in_config config (lit "0rtt")
            then lit "-early_data" ∷ []
            else [])
        ++ (if test_feature_enabled_in_config config (lit "mtls")
            then lit "-Verify" ∷ lit "1" ∷ lit "-CAfile" ∷ server_ca is_file config paths.0 ∷ []
            else [])
        ++ state_debug_argv config)

-- The command of `_start_client`; the paths are those of its certificate, for a mutual handshake.
unfoldable pub openssl_client_command : Fields → TlsConfig → Text × Text → List Text
openssl_client_command caps config paths =
    lit "openssl"
    ∷ lit "s_client"
    ∷ (openssl_legacy_provider_argv config
        ++ (lit "-connect"
            ∷ (or_text config.server_hostname (lit "localhost") ++ (b':' ∷ text_of_int config.port))
            ∷ [])
        ++ client_sni_args config
        ++ openssl_common_args caps config
        ++ client_session_argv config
        ++ (if test_feature_enabled_in_config config (lit "mtls")
            then lit "-cert" ∷ paths.0 ∷ lit "-key" ∷ paths.1 ∷ []
            else [])
        ++ state_debug_argv config)
