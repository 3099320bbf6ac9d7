-- ===== src/Wrappers/Command/Gnutls.antt =====
-- wrappers/gnutls/wrapper.py: the command lines of `gnutls-serv` and `gnutls-cli`, the trust file of
-- a client, and what a negotiated group says of a Hello Retry Request.
use tls_interop_framework.Prelude.{
  Bool, List, Option, [], any, false, if◌then◌else◌, is_empty, none, not, some, ◌&&◌, ◌++◌, ◌==◌,
  ◌∷◌,
}
use tls_interop_framework.Core.Features.{cipher_catalog_id_uses_dsa_auth}
use tls_interop_framework.Core.Identity.{
  catalog_identity_pem_paths_for_prefix, get_cert_prefix_for_schemes,
}
use tls_interop_framework.Core.Tokens.{stripped}
use tls_interop_framework.Python.Args.{text_of_int}
use tls_interop_framework.Python.Json.{Fields}
use tls_interop_framework.Python.Text.{
  Text, contains, lit, lower, lstrip, or_text, remove_char, strip, text_eq,
}
use tls_interop_framework.Runner.Config.{Role, TlsConfig}
use tls_interop_framework.Runner.Driver.{test_feature_enabled_in_config, wants_resumption}
use tls_interop_framework.Wrappers.Certs.{server_trust_signature_schemes_tokens}
use tls_interop_framework.Wrappers.Command.{alpn_cli_protocol_list, tls_session_state_paths}
use tls_interop_framework.Wrappers.Output.{after_word}
use tls_interop_framework.Wrappers.Process.{Attempt, fails, gives, runtime_error, setup_error}
use tls_interop_framework.Wrappers.Translation.Gnutls.{gnutls_argv_for_config}
use mathlib.Core.Option

-- The list before its last two elements, and these two.
unfoldable pub split_last_two : List Text → Option (List Text × Text × Text)
split_last_two [] = none
split_last_two (a ∷ []) = none
split_last_two (a ∷ b ∷ []) = some ([], a, b)
split_last_two (a ∷ b ∷ c ∷ s) = Option.map (λ r. (a ∷ r.0, r.1, r.2)) (split_last_two (b ∷ c ∷ s))

-- The text of an empty priority raises.
unfoldable pub checked_priority : Text → List Text → Attempt (Text × List Text)
checked_priority prio mid =
    if is_empty prio
    then fails (runtime_error (lit "empty GnuTLS priority string"))
    else gives (prio, mid)

unfoldable pub priority_or_all :
    List Text → Option (List Text × Text × Text) → Attempt (Text × List Text)
unfolding checked_priority
priority_or_all argv none = checked_priority [] argv
priority_or_all argv (some (mid, option, prio)) =
    if text_eq option (lit "--priority")
    then checked_priority prio mid
    else checked_priority [] argv

-- `_priority_and_mid`
unfoldable pub priority_and_mid : Text → Fields → TlsConfig → Role → Attempt (Text × List Text)
unfolding split_last_two priority_or_all
priority_and_mid passwd_file caps config role =
    let argv = (gnutls_argv_for_config passwd_file role caps config).argv in
    priority_or_all argv (split_last_two argv)

-- The catalog's certificate of a prefix, where it is a file.
unfoldable pub catalog_cert : (Text → Bool) → Text → Option Text
catalog_cert is_file prefix =
    let cert = (catalog_identity_pem_paths_for_prefix is_file prefix).0 in
    if not (is_empty cert) && is_file cert then some cert else none

unfoldable pub or_trust : (Text → Bool) → TlsConfig → Option Text → Attempt Text
unfolding catalog_cert
or_trust is_file config (some cert) = gives cert
or_trust is_file config none =
    elim (catalog_cert is_file
      (get_cert_prefix_for_schemes (server_trust_signature_schemes_tokens config))) [
        | some trust ↦ gives trust
        | none ↦ fails (
            setup_error
              (lit "No trust PEM under certs/ for this client (run core/gen_interop_certs.sh)"))
      ]

-- `_client_x509_cafile`
unfoldable pub client_x509_cafile : (Text → Bool) → TlsConfig → Attempt Text
unfolding or_trust
client_x509_cafile is_file config = or_trust is_file config (
    if cipher_catalog_id_uses_dsa_auth config.cipher_suite
    then catalog_cert is_file (lit "dsa_default")
    else none)

early_data : TlsConfig → List Text
early_data config =
    if test_feature_enabled_in_config config (lit "0rtt")
    then lit "--earlydata" ∷ (tls_session_state_paths config).1 ∷ []
    else []

-- `_client_session_bits`: the arguments, and the variables of the environment.
unfoldable pub client_session_bits : TlsConfig → List Text × List (Text × Text)
unfolding early_data
client_session_bits config =
    let step_name = strip config.resumption_step in
    let session_file = (tls_session_state_paths config).0 in
    if not (wants_resumption config)
    then ([], [])
    else if text_eq step_name (lit "save")
    then (
      lit "--resume" ∷ lit "--waitresumption" ∷ [],
      (lit "GNUTLS_INTEROP_SESSION_OUT", session_file) ∷ [],
    )
    else if text_eq step_name (lit "resume")
    then (early_data config, (lit "GNUTLS_INTEROP_SESSION_IN", session_file) ∷ [])
    else ([], [])

alpn_argv : TlsConfig → List Text
alpn_argv config =
    let alpn = alpn_cli_protocol_list config in
    if is_empty alpn then [] else lit "--alpn" ∷ alpn ∷ []

-- The command of `_start_server`, for resolved paths and a priority.
unfoldable pub gnutls_server_command : TlsConfig → Text × Text → Text × List Text → List Text
unfolding alpn_argv
gnutls_server_command config paths (prio, mid) =
    lit "gnutls-serv"
    ∷ lit "-p"
    ∷ text_of_int config.port
    ∷ lit "--x509certfile"
    ∷ paths.0
    ∷ lit "--x509keyfile"
    ∷ paths.1
    ∷ (if test_feature_enabled_in_config config (lit "mtls")
        then lit "--require-client-cert"
        else lit "--disable-client-cert")
    ∷ (mid
        ++ (lit "--priority" ∷ prio ∷ lit "-q" ∷ lit "--echo" ∷ [])
        ++ (if test_feature_enabled_in_config config (lit "0rtt")
            then lit "--earlydata" ∷ []
            else [])
        ++ alpn_argv config)

-- The command of `_start_client`; the paths are those of its certificate, for a mutual handshake.
unfoldable pub gnutls_client_command : TlsConfig → Text → Text × Text → Text × List Text → List Text
unfolding alpn_argv
gnutls_client_command config cafile paths (prio, mid) =
    lit "gnutls-cli"
    ∷ lit "-p"
    ∷ text_of_int config.port
    ∷ lit "--disable-sni"
    ∷ lit "--insecure"
    ∷ lit "--x509cafile"
    ∷ cafile
    ∷ (mid
        ++ (lit "--priority" ∷ prio ∷ [])
        ++ (client_session_bits config).0
        ++ (if test_feature_enabled_in_config config (lit "mtls")
            then lit "--x509certfile" ∷ paths.0 ∷ lit "--x509keyfile" ∷ paths.1 ∷ []
            else [])
        ++ alpn_argv config
        ++ (if config.expect_hrr then lit "--single-key-share" ∷ [] else [])
        ++ (or_text config.server_hostname (lit "localhost") ∷ []))

-- The text before a closing parenthesis, and what follows.
paren_run : Text → Text × Text
paren_run [] = ([], [])
paren_run (c ∷ s) = let r = paren_run s in if c == b')' then ([], c ∷ s) else (c ∷ r.0, r.1)

-- `\(([^)]+)\)-`
unfoldable pub in_parens : Text → Option (Text × Text)
unfolding paren_run
in_parens s = elim (after_word (lit "(") s) [
  | none ↦ none
  | some inside ↦
      if is_empty (paren_run inside).0
      then none
      else Option.map (λ rest. ((paren_run inside).0, rest))
          (after_word (lit ")-") (paren_run inside).1)
]

second_group : Option (Text × Text) → Option Text
second_group none = none
second_group (some (key_exchange, rest)) = Option.map (λ r. r.0) (in_parens rest)

group_after : Option Text → Option Text
unfolding second_group
group_after none = none
group_after (some s) = second_group (in_parens (lstrip s))

-- The group of the first `Description:`, in a text in lower case.
unfoldable pub described_group : Text → Option Text
unfolding group_after
described_group [] = none
described_group (c ∷ s) = elim (group_after (after_word (lit "description:") (c ∷ s))) [
  | some g ↦ some g
  | none ↦ described_group s
]

dashless : Text → Text
dashless s = remove_char b'-' (lower s)

unfoldable pub retried_group : List Text → Option Text → Bool
unfolding dashless
retried_group (first ∷ second ∷ more) (some g) =
    let negotiated = dashless g in
    not (contains (dashless first) negotiated)
    && any (λ g2. contains (dashless g2) negotiated) (second ∷ more)
retried_group _ _ = false

-- `_infer_hrr_from_negotiation`; the command is that of the last client.
unfoldable pub infer_hrr_from_negotiation : Text → TlsConfig → Text → Bool
unfolding retried_group
infer_hrr_from_negotiation last_client_cmd config output =
    config.expect_hrr
    && contains (lit "--single-key-share") last_client_cmd
    && retried_group (stripped config.supported_groups) (described_group (lower output))
