-- ===== src/Wrappers/Command/Nss.antt =====
-- wrappers/nss/wrapper.py: the command lines of `selfserv` and `tstclnt`, what the output of a
-- client shows, and the environment of a wrapper. The paths of the tools, the database and the
-- nickname of a certificate are given.
use tls_interop_framework.Prelude.{
  Bool, List, Option, [], if◌then◌else◌, none, pos, some, ℕ, ◌&&◌, ◌++◌, ◌∷◌,
}
use tls_interop_framework.Python.Args.{text_of_int}
use tls_interop_framework.Python.Json.{Fields}
use tls_interop_framework.Python.Text.{Text, contains, lit, mem, or_text, strip, text_eq}
use tls_interop_framework.Runner.Config.{TlsConfig}
use tls_interop_framework.Runner.Driver.{test_feature_enabled_in_config, wants_resumption}
use tls_interop_framework.Wrappers.Process.{path_join}
use tls_interop_framework.Wrappers.Translation.Nss.{
  nss_argv_for_config, nss_tstclnt_sni_name, tls_version_range,
}

-- What getaddrinfo is asked for.
pub data Family : Type 0 where
  ipv4 ipv6 : Family

-- A failed query ends the search, an empty one passes on to the next family.
unfoldable pub first_address : Text → Option (List Text) → Text → Text
first_address h none next = h
first_address h (some []) next = next
first_address h (some (a ∷ more)) next = a

-- `resolve` is getaddrinfo: the addresses of a name, or an OSError.
unfoldable pub nss_tstclnt_host_and_extra_argv :
    (Family → Text → Option (List Text)) → Bool → Text → Text × List Text
nss_tstclnt_host_and_extra_argv resolve gnutls_nss_pair hostname =
    let h = or_text hostname (lit "localhost") in
    let extra = lit "-a" ∷ nss_tstclnt_sni_name h ∷ [] in
    if gnutls_nss_pair
    then (first_address h (resolve ipv4 h) (first_address h (resolve ipv6 h) h), extra)
    else (h, extra)

unfoldable pub orchestration_env : List Text → List (Text × Text)
orchestration_env active_backends =
    if mem (lit "gnutls") active_backends && mem (lit "nss") active_backends
    then (lit "INTEROP_GNUTLS_NSS_PAIR", lit "true") ∷ []
    else []

db_id : Text → Option ℕ → Text
db_id backend_id none = backend_id
db_id backend_id (some slot) = lit "nss_slot" ++ text_of_int (pos slot)

unfoldable pub local_wrapper_env : Text → Text → Option ℕ → List (Text × Text)
unfolding db_id
local_wrapper_env repo backend_id slot =
    (lit "NSSDB", path_join repo (path_join (lit "wrappers/nss/nssdb") (db_id backend_id slot)))
    ∷ []

abbrev pub client_fail_markers : List Text
client_fail_markers =
    lit "SSL_ERROR_NO_CYPHER_OVERLAP"
    ∷ lit "read from socket failed"
    ∷ lit "Cannot communicate securely with peer"
    ∷ lit "Handshake failed"
    ∷ []

unfoldable pub first_marker : List Text → Text → Option Text
first_marker [] blob = none
first_marker (marker ∷ markers) blob =
    let rest = first_marker markers blob in if contains marker blob then some marker else rest

-- `_client_establish_output_indicates_failure`
unfoldable pub client_establish_output_indicates_failure : Text → Option Text
client_establish_output_indicates_failure output = first_marker client_fail_markers (strip output)

-- The command of `_start_server`.
unfoldable pub nss_server_command : Fields → TlsConfig → Text → Text → Text → List Text
nss_server_command caps config selfserv db_spec nickname =
    lit "stdbuf"
    ∷ lit "-o0"
    ∷ selfserv
    ∷ lit "-d"
    ∷ db_spec
    ∷ lit "-n"
    ∷ nickname
    ∷ lit "-p"
    ∷ text_of_int config.port
    ∷ lit "-V"
    ∷ tls_version_range config
    ∷ ((nss_argv_for_config caps config).argv
        ++ (if test_feature_enabled_in_config config (lit "mtls") then lit "-r" ∷ [] else [])
        ++ (lit "-v" ∷ lit "-v" ∷ []))

-- Whether a client resumes a session.
unfoldable pub nss_resumes : TlsConfig → Bool
nss_resumes config =
    wants_resumption config && text_eq (strip config.resumption_step) (lit "resume")

-- The command of `_start_client`, for the peer and the arguments of
-- `nss_tstclnt_host_and_extra_argv`.
unfoldable pub nss_client_command : Fields → TlsConfig → Text → Text → Text × List Text → List Text
nss_client_command caps config tstclnt db_spec (peer, extra) =
    tstclnt
    ∷ lit "-d"
    ∷ db_spec
    ∷ lit "-h"
    ∷ peer
    ∷ ((nss_argv_for_config caps config).argv
        ++ (lit "-o" ∷ [])
        ++ (if nss_resumes config then lit "-R" ∷ [] else [])
        ++ (if test_feature_enabled_in_config config (lit "mtls")
            then lit "-n" ∷ lit "interop_rsa_default" ∷ []
            else [])
        ++ (lit "-p" ∷ text_of_int config.port ∷ extra)
        ++ (lit "-V" ∷ tls_version_range config ∷ []))
