-- ===== src/Tests/Data.antt =====
-- Two backends with small capability files, and wrappers that answer every request.
use tls_interop_framework.Prelude.{Bool, List, [], pos, suc, true, ℕ, ◌∷◌}
use tls_interop_framework.Core.Catalog.{CapabilityFile, parsed}
use tls_interop_framework.Core.Cell.{CellMap}
use tls_interop_framework.Python.Args.{Namespace, word}
use tls_interop_framework.Python.Dict.{Dict}
use tls_interop_framework.Python.Json.{Fields, end, field, obj, text}
use tls_interop_framework.Python.Text.{Text, lit}
use tls_interop_framework.Runner.Config.{OperationResponse, TlsConfig, success}
use tls_interop_framework.Runner.Driver.{Endpoints, answered, test_payload}

-- A capability file with one cipher suite and two groups.
abbrev pub small_capabilities : Fields
small_capabilities =
    field (lit "tls13")
      (obj (
        field (lit "cipher_suite")
          (obj (field (lit "aes-128-gcm") (text (lit "TLS_AES_128_GCM_SHA256")) end)) end))
      (field (lit "supported_groups")
        (obj (field (lit "secp256r1") (obj end) (field (lit "x25519") (obj end) end))) end)

abbrev pub small_files : Text → CapabilityFile
small_files name = parsed (obj small_capabilities)

abbrev pub every_file : Text → Bool
every_file path = true

abbrev pub no_bytes : Text → List ℕ
no_bytes path = []

abbrev pub openssl_gnutls : List Text
openssl_gnutls = lit "openssl" ∷ lit "gnutls" ∷ []

abbrev pub small_cache : Dict Fields
small_cache = (lit "openssl", small_capabilities) ∷ (lit "gnutls", small_capabilities) ∷ []

abbrev pub small_keys : List Text
small_keys = lit "server" ∷ lit "client" ∷ lit "cipher_suite" ∷ lit "supported_groups" ∷ []

abbrev pub small_tuple : List Text
small_tuple = lit "openssl" ∷ lit "gnutls" ∷ lit "aes-128-gcm" ∷ lit "x25519" ∷ []

abbrev pub small_cell : CellMap
small_cell =
    (lit "server", lit "openssl")
    ∷ (lit "client", lit "gnutls")
    ∷ (lit "cipher_suite", lit "aes-128-gcm")
    ∷ (lit "supported_groups", lit "x25519")
    ∷ []

-- A configuration in which the client expects a Hello Retry Request.
abbrev pub small_config : TlsConfig
small_config = record {
  version = lit "1.3";
  cipher_suite = lit "aes-128-gcm";
  server_hostname = lit "127.0.0.1";
  port = pos 5555;
  certificate = [];
  private_key = [];
  supported_groups = lit "x25519" ∷ [];
  signature_schemes = [];
  signature_schemes_cert = [];
  alpn_protocols = [];
  psk_modes = [];
  resumption_step = [];
  repo_root = [];
  expect_hrr = true;
}

abbrev pub echo_response : OperationResponse
echo_response = record {
  status = success;
  message = lit "done";
  output_data = test_payload;
  logs = [];
  hrr_occurred = true;
}

-- Wrappers that echo the payload and report a Hello Retry Request. The world counts the requests.
abbrev pub echoing : Endpoints ℕ
echoing = record { call = λ req n. (answered echo_response, suc n); tcp_connects = λ n. (true, n) }

-- Only the two backends are given.
abbrev pub plan_args : Namespace
plan_args = (lit "server", word (lit "openssl")) ∷ (lit "client", word (lit "all")) ∷ []
