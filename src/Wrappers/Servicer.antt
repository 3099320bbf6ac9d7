-- ===== src/Wrappers/Servicer.antt =====
-- wrappers/base.py: `BaseTemplateWrapper`. What a subclass implements is a parameter over the
-- same unknown world. The handlers of the operations are in the children.
pub mod Server
pub mod Client
pub mod Requests
pub mod Keeping
pub mod Ledger
pub mod Tracked
pub mod Frame
pub mod Skip
use tls_interop_framework.Prelude.{
  Bool, List, Option, [], false, if◌then◌else◌, is_empty, negsuc, none, not, pos, some, suc, true,
  zero, ℕ, ℤ, ◌&&◌, ◌++◌, ◌∷◌,
}
use tls_interop_framework.Core.Catalog.{CapabilityFile}
use tls_interop_framework.Python.Dict.{Dict, get_text}
use tls_interop_framework.Python.Result.{Error, Result, err, ok}
use tls_interop_framework.Python.Text.{Text, join, lit, lower, or_text, strip}
use tls_interop_framework.Runner.Config.{
  OperationRequest, OperationResponse, Role, Status, TlsConfig, client, server,
}
use tls_interop_framework.Runner.Params.{catalog_parameter_conflicts, unsupported_cli_params}
use tls_interop_framework.Wrappers.Command.Gnutls.{infer_hrr_from_negotiation}
use tls_interop_framework.Wrappers.Command.Nss.{client_establish_output_indicates_failure}
use tls_interop_framework.Wrappers.Output.{hrr_detected_in_cli_output}
use tls_interop_framework.Wrappers.Process.{
  Attempt, Failure, Method, Os, Servicer, ask, build_cli_debug_logs, change, drain_process_output,
  fail, fails, give, gives, remember_role_cli, set_proc, skip_error, unexpected, ◌>>=◌,
}

pub record Negotiated : Type 0 where
  pub protocol_version : Text
  pub cipher_suite : Text
  pub named_group : Text
  pub hrr_occurred : Bool

-- The tuple that the handlers return, and the `OperationResponse` that is made of it.
pub record OpResult : Type 0 where
  pub status : Status
  pub message : Text
  pub logs : Text
  pub output_data : List ℕ
  pub negotiated : Option Negotiated

-- What `_start_server` or `_start_client` does: the files that it gives to `_track_temp_file`, and the
-- process with the command and the message for the driver, or the exception that it raises. What it
-- writes without tracking it, as GnuTLS does with a PSK password file, is left in the world.
pub record Launch : Type 0 where
  pub tracked_files : List Text
  pub outcome : Attempt (Option ℕ × Text × Text)

-- The hooks of a subclass. `translate` is the `unsupported` part of `tls_argv_for_config`, and
-- `describe` names an exception of core/ by its class and text. `infer_hrr` also reads the last
-- command of the client.
pub record Backend (W : Type 0) : Type 0 where
  pub component_name : Text
  pub translate : Role → TlsConfig → W → Attempt (List Text) × W
  pub start : Role → TlsConfig → W → Launch × W
  pub parse_negotiated_params : Text → Dict Text
  pub infer_hrr_from_negotiation : TlsConfig → Text → Text → Bool
  pub client_establish_output_indicates_failure : Text → Option Text
  pub describe : Error → Text × Text

-- The message that a request without a configuration stands for.
abbrev pub empty_config : TlsConfig
empty_config = record {
  version = [];
  cipher_suite = [];
  server_hostname = [];
  port = pos 0;
  certificate = [];
  private_key = [];
  supported_groups = [];
  signature_schemes = [];
  signature_schemes_cert = [];
  alpn_protocols = [];
  psk_modes = [];
  resumption_step = [];
  repo_root = [];
  expect_hrr = false;
}

unfoldable pub config_of : OperationRequest → TlsConfig
config_of req = elim req.config [ none ↦ empty_config | some config ↦ config ]

unfoldable pub result : Status → Text → Text → Option Negotiated → OpResult
result status message logs negotiated = record {
  status = status;
  message = message;
  logs = logs;
  output_data = [];
  negotiated = negotiated;
}

-- The host of the peer, `localhost` where none is given.
unfoldable pub peer_host : TlsConfig → Text
peer_host config =
    or_text (strip (or_text config.server_hostname (lit "localhost"))) (lit "localhost")

-- `_transmit_payload_bytes`
unfoldable pub transmit_payload_bytes : List ℕ → Role → List ℕ
transmit_payload_bytes payload server = payload ++ 10 ∷ []
transmit_payload_bytes payload client =
    lit "POST / HTTP/1.0" ++ 13 ∷ 10 ∷ 13 ∷ 10 ∷ (payload ++ 10 ∷ [])

unfoldable pub skip_message : Text → List Text → Text
skip_message backend params =
    lit "⏭ SKIPPED: "
    ++ (backend ++ (lit " cannot apply requested parameter(s): " ++ join (lit ", ") params))

-- `if port <= 0`
unfoldable pub is_positive : ℤ → Bool
is_positive (pos zero) = false
is_positive (pos (suc n)) = true
is_positive (negsuc n) = false

-- `_exc_message`
unfoldable pub exc_message : Text → Text → Text → Text
exc_message phase name detail = lit "[" ++ (phase ++ (lit "] " ++ (name ++ (lit ": " ++ detail))))

unfoldable pub wants_hrr : Negotiated → Bool → Negotiated
wants_hrr n inferred = if n.hrr_occurred then n else record n { hrr_occurred = inferred }

-- A process that is there and has exited.
unfoldable pub has_exited : Option ℤ → Bool
has_exited none = false
has_exited (some code) = true

-- `BaseTemplateWrapper.__init__`
unfoldable pub new_servicer : {W : Type 0} → W → Servicer W
new_servicer w = record {
  world = w;
  server_proc = none;
  client_proc = none;
  active_temp_files = [];
  session_artifact_repo_root = [];
  last_server_cmd = [];
  last_client_cmd = [];
  last_server_output = [];
  last_client_output = [];
}

-- The fields of the response that the driver reads.
unfoldable pub response_of : OpResult → OperationResponse
response_of r = record {
  status = r.status;
  message = r.message;
  output_data = r.output_data;
  logs = r.logs;
  hrr_occurred = elim r.negotiated [ none ↦ false | some n ↦ n.hrr_occurred ];
}

-- A subclass with the calls that it makes. `decode` is `.decode(errors="replace")`.
pub record Wrapper (W : Type 0) : Type 0 where
  pub os : Os W
  pub decode : List ℕ → Text
  pub read_capabilities : Text → CapabilityFile
  pub backend : Backend W

unfoldable pub hold_state : {W : Type 0} → Role → Option ℕ × Text × Text → Servicer W → Servicer W
hold_state role (p, cmd_logs, message) s = remember_role_cli role cmd_logs [] (set_proc role p s)

module _ {W : Type 0} (E : Wrapper W) where
  abbrev pub component_backend : Text
  component_backend = lower (strip E.backend.component_name)

  unfoldable pub build_negotiated : Text → Option Negotiated
  build_negotiated merged =
      let d = E.backend.parse_negotiated_params merged in
      let pv = strip (get_text (lit "protocol_version") d) in
      let cs = strip (get_text (lit "cipher_suite") d) in
      let ng = strip (get_text (lit "named_group") d) in
      let hrr = hrr_detected_in_cli_output merged in
      if is_empty pv && is_empty cs && is_empty ng && not hrr
      then none
      else some (record {
        protocol_version = pv;
        cipher_suite = cs;
        named_group = ng;
        hrr_occurred = hrr;
      })

  unfoldable pub raise_described : Error → Failure
  raise_described e = unexpected (E.backend.describe e).0 (E.backend.describe e).1

  -- The end of `_validate_config_supported`.
  unfoldable pub refuse_unsupported : Result (List Text) → Method W (Unit {0})
  unfolding raise_described
  refuse_unsupported (err e) = fail (raise_described e)
  refuse_unsupported (ok []) = give tt
  refuse_unsupported (ok (p ∷ ps)) = fail (skip_error (skip_message component_backend (p ∷ ps)))

  unfoldable pub check_translation : TlsConfig → Attempt (List Text) → Method W (Unit {0})
  check_translation config (fails e) = fail e
  check_translation config (gives translated) =
      refuse_unsupported
        (catalog_parameter_conflicts E.read_capabilities config component_backend translated)

  unfoldable pub translate_and_check : TlsConfig → Role → Result (List Text) → Method W (Unit {0})
  unfolding raise_described
  translate_and_check config role (err e) = fail (raise_described e)
  translate_and_check config role (ok params) =
      ask (E.backend.translate role config) >>= check_translation config

  -- `_validate_config_supported`; the capability file is read before the configuration is translated.
  unfoldable pub validate_config_supported : TlsConfig → Role → Method W (Unit {0})
  validate_config_supported config role =
      translate_and_check config role
        (unsupported_cli_params E.read_capabilities config component_backend)

  -- `_track_temp_file` for the files of a launch. `_active_temp_files` is a set of fresh paths.
  unfoldable pub adopt : Launch → Method W (Option ℕ × Text × Text)
  adopt l s = (l.outcome, record s { active_temp_files = l.tracked_files ++ s.active_temp_files })

  unfoldable pub start : Role → TlsConfig → Method W (Option ℕ × Text × Text)
  start role config = ask (E.backend.start role config) >>= adopt

  abbrev pub remember : Role → Text → Text → Method W (Unit {0})
  remember role cmd output = change (remember_role_cli role cmd output)

  -- The output of a process, remembered for its role.
  unfoldable pub drain_and_remember : Role → Text → Option ℕ → Method W Text
  drain_and_remember role cmd proc =
      drain_process_output E.os E.decode proc >>= λ out. remember role cmd out >>= λ _. give out

  unfoldable pub fail_with_output : {A : Type 0} → Role → Text → Option ℕ → Failure → Method W A
  fail_with_output role cmd proc e = drain_and_remember role cmd proc >>= λ _. fail e

  -- A result with the logs of a role.
  unfoldable pub logged_result :
      Role → Text → Option ℕ → Option Text → Status → Text → Option Negotiated → Method W OpResult
  logged_result role cmd proc output status message negotiated =
      build_cli_debug_logs E.os E.decode role cmd proc output >>= λ logs.
      give (result status message logs negotiated)

  -- What a start gives is held as the role's process, and its command is remembered.
  unfoldable pub hold : Role → Option ℕ × Text × Text → Method W (Unit {0})
  unfolding hold_state
  hold role l = change (hold_state role l)
