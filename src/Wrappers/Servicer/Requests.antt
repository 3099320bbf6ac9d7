-- ===== src/Wrappers/Servicer/Requests.antt =====
-- wrappers/base.py: what a servicer answers to a request.
use tls_interop_framework.Prelude.{
  Bool, List, Option, [], false, if◌then◌else◌, is_empty, none, some, true, ℕ, ◌++◌, ◌∷◌,
}
use tls_interop_framework.Python.Text.{Text, lit, or_text, strip}
use tls_interop_framework.Runner.Config.{
  OpType, OperationRequest, Role, Status, TlsConfig, client, close, error, establish, failure,
  key_update, server, success, transmit,
}
use tls_interop_framework.Wrappers.Process.{
  Attempt, Failure, Method, Servicer, ask, build_cli_debug_logs, change, cleanup_servicer,
  drain_process_output, fails, give, gives, look, proc_of, runtime_error, set_proc, setup_error,
  skip_error, terminate_process_hard, unexpected, ◌>>=◌,
}
use tls_interop_framework.Wrappers.Servicer.{
  OpResult, Wrapper, config_of, exc_message, has_exited, logged_result, result,
  transmit_payload_bytes, validate_config_supported,
}
use tls_interop_framework.Wrappers.Servicer.Client.{establish_client}
use tls_interop_framework.Wrappers.Servicer.Server.{establish_server}

module _ {W : Type 0} (E : Wrapper W) where
  unfoldable pub establish_role : Role → TlsConfig → Method W OpResult
  establish_role server config = establish_server E config
  establish_role client config = establish_client E config

  -- `_release_server_before_establish` and `_release_client_before_establish`
  unfoldable pub release_before_establish : Role → Method W (Unit {0})
  release_before_establish role = look >>= λ s.
      terminate_process_hard E.os E.decode (proc_of role s) >>= λ _.
      change (λ t. set_proc role none t)

  unfoldable pub note_repo_root : TlsConfig → Servicer W → Servicer W
  note_repo_root config s = record s {
    session_artifact_repo_root = or_text (strip config.repo_root) s.session_artifact_repo_root;
  }

  -- `_handle_establish`
  unfoldable pub handle_establish : Role → TlsConfig → Method W OpResult
  handle_establish role config = release_before_establish role >>= λ _.
      validate_config_supported E config role >>= λ _.
      change (note_repo_root config) >>= λ _. establish_role role config

  -- The output as it is, with the logs that show it.
  unfoldable pub logged_output : Role → ℕ → List ℕ → Method W OpResult
  logged_output role p out_data =
      build_cli_debug_logs E.os E.decode role [] (some p)
        (some (if is_empty out_data then [] else E.decode out_data))
      >>= λ logs. give (record (result success [] logs none) { output_data = out_data })

  unfoldable pub transmitted : Role → ℕ → Method W OpResult
  transmitted role p = ask (E.os.read_stdout p) >>= logged_output role p

  -- A TRANSMIT that cannot be carried out.
  unfoldable pub transmit_refused : Role → ℕ → Status → Text → Method W OpResult
  transmit_refused role p status message = drain_process_output E.os E.decode (some p) >>= λ out.
      logged_result E role [] (some p) (some out) status message none

  unfoldable pub payload_written : Role → ℕ → Bool → Method W OpResult
  payload_written role p true = transmitted role p
  payload_written role p false =
      transmit_refused role p error (lit "[TRANSMIT] Broken pipe (process may have exited)")

  unfoldable pub transmit_running : Role → List ℕ → ℕ → Bool → Method W OpResult
  transmit_running role payload p true =
      transmit_refused role p failure (lit "[TRANSMIT] Process already exited")
  transmit_running role payload p false =
      if is_empty payload
      then transmitted role p
      else ask (E.os.write_stdin p (transmit_payload_bytes payload role)) >>= payload_written role p

  unfoldable pub transmit_to : Role → List ℕ → Option ℕ → Method W OpResult
  transmit_to role payload none =
      logged_result E role [] none none failure
        (lit "[TRANSMIT] Process not found (ESTABLISH missing?)") none
  transmit_to role payload (some p) =
      ask (E.os.poll p) >>= λ code. transmit_running role payload p (has_exited code)

  -- `_handle_transmit`
  unfoldable pub handle_transmit : Role → List ℕ → Method W OpResult
  handle_transmit role payload = look >>= λ s. transmit_to role payload (proc_of role s)

  -- `_handle_close`
  unfoldable pub handle_close : Method W OpResult
  handle_close = cleanup_servicer E.os E.decode >>= λ _.
      give (result success (lit "Cleanup successful") [] none)

  -- `_dispatch_op`; KEY_UPDATE is operation 2 of the interface.
  unfoldable pub dispatch_op : OpType → OperationRequest → Method W OpResult
  dispatch_op establish req = handle_establish req.role (config_of req)
  dispatch_op transmit req = handle_transmit req.role req.payload
  dispatch_op close req = handle_close
  dispatch_op key_update req = give (result error (lit "Unsupported OpType: 2") [] none)

  -- The building of logs raises nothing, so the last case is never met.
  unfoldable pub with_logs : Status → Text → Attempt Text × Servicer W → OpResult × Servicer W
  with_logs status message (gives logs, s) = (result status message logs none, s)
  with_logs status message (fails e, s) = (result status message [] none, s)

  -- `_format_op_error`; no handler has logs when it raises.
  unfoldable pub format_op_error :
      Role → Text → Status → Text → Text → Servicer W → OpResult × Servicer W
  format_op_error role phase status name detail s =
      with_logs status (exc_message phase name detail)
        (build_cli_debug_logs E.os E.decode role [] none none s)

  -- The `except` clauses of `ExecuteOperation`.
  unfoldable pub answer_failure : Role → Failure → Servicer W → OpResult × Servicer W
  answer_failure role (setup_error e) s =
      format_op_error role (lit "ESTABLISH/setup") error (lit "WrapperSetupError") e s
  answer_failure role (skip_error e) s = (result success (lit "SKIP: " ++ e) [] none, s)
  answer_failure role (runtime_error e) s =
      format_op_error role (lit "ESTABLISH/runtime") failure (lit "WrapperRuntimeError") e s
  answer_failure role (unexpected name e) s =
      format_op_error role (lit "ExecuteOperation/unexpected") error name e s

  unfoldable pub respond : Role → Attempt OpResult × Servicer W → OpResult × Servicer W
  respond role (gives r, s) = (r, s)
  respond role (fails e, s) = answer_failure role e s

  -- `ExecuteOperation`
  unfoldable pub execute_operation : OperationRequest → Servicer W → OpResult × Servicer W
  execute_operation req s = respond req.role (dispatch_op req.op req s)

  -- The servicer has one worker, so it answers the requests one after the other.
  unfoldable pub serve : List OperationRequest → Servicer W → Servicer W
  serve [] s = s
  serve (req ∷ reqs) s = serve reqs (execute_operation req s).1
