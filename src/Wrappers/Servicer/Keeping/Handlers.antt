-- ===== src/Wrappers/Servicer/Keeping/Handlers.antt =====
-- The parts of the handlers that keep the processes and the temporary files.
use tls_interop_framework.Prelude.{
  Bool, List, Option, [], false, if◌then◌else◌, none, some, true, ℕ, ℤ, ◌∷◌,
}
use tls_interop_framework.Python.Result.{Result, err, ok}
use tls_interop_framework.Python.Text.{Text, lit}
use tls_interop_framework.Runner.Config.{Role, Status, TlsConfig, client, failure, server, success}
use tls_interop_framework.Runner.Params.{catalog_parameter_conflicts, unsupported_cli_params}
use tls_interop_framework.Wrappers.Process.{
  Attempt, Failure, Method, ask, build_cli_debug_logs, drain_process_output, fail, fails, give,
  gives, runtime_error, setup_error, ◌>>=◌,
}
use tls_interop_framework.Wrappers.Servicer.{
  Negotiated, OpResult, Wrapper, build_negotiated, check_translation, component_backend,
  drain_and_remember, fail_with_output, has_exited, is_positive, logged_result, refuse_unsupported,
  remember, result, translate_and_check, validate_config_supported,
}
use tls_interop_framework.Wrappers.Servicer.Client.{
  client_exited, client_verdict, finish_client_establish, judge_client, peer_answered,
  with_inferred_hrr,
}
use tls_interop_framework.Wrappers.Servicer.Keeping.{
  >>=-IsKeeping, IsKeeping, IsKept, Keeps-refl, ask-IsKeeping, build_cli_debug_logs-IsKeeping,
  drain_process_output-IsKeeping, remember-IsKeeping,
}
use tls_interop_framework.Wrappers.Servicer.Server.{
  await_listening, server_listening, server_running,
}

-- A relation that every call of a wrapper respects, the start of a process left out.
pub record IsKeptBy {W : Type 0} (E : Wrapper W) (R : W → W → Type 0) : Type 0 where
  pub calls : IsKept E.os R
  pub translate :
      (role : Role) (config : TlsConfig) (w : W) → R w (E.backend.translate role config w).1

module _ {W : Type 0} (E : Wrapper W) (R : W → W → Type 0) (H : IsKeptBy E R) where
  pub if-IsKeeping :
      {A : Type 0} (b : Bool) (m k : Method W A)
      → IsKeeping R m
      → IsKeeping R k
      → IsKeeping R (if b then m else k)
  if-IsKeeping true m k M K = M
  if-IsKeeping false m k M K = K

  pub unchanged : {A : Type 0} (r : Attempt A) → IsKeeping R (λ s. (r, s))
  unchanged r = Keeps-refl H.calls

  drain_and_remember-IsKeeping :
      (role : Role) (cmd : Text) (proc : Option ℕ)
      → IsKeeping R (drain_and_remember E role cmd proc)
  unfolding drain_and_remember
  drain_and_remember-IsKeeping role cmd proc =
      >>=-IsKeeping H.calls (drain_process_output E.os E.decode proc)
        (λ out. remember E role cmd out >>= λ _. give out)
        (drain_process_output-IsKeeping H.calls E.decode proc)
        (λ out. remember-IsKeeping H.calls role cmd out)

  fail_with_output-IsKeeping :
      (A : Type 0) (role : Role) (cmd : Text) (proc : Option ℕ) (e : Failure)
      → IsKeeping R (fail_with_output E {A = A} role cmd proc e)
  unfolding fail_with_output
  fail_with_output-IsKeeping A role cmd proc e =
      >>=-IsKeeping H.calls (drain_and_remember E role cmd proc) (λ _. fail e)
        (drain_and_remember-IsKeeping role cmd proc) (λ _. unchanged {A = A} (fails e))

  pub logged_result-IsKeeping :
      (role : Role) (cmd : Text) (proc : Option ℕ) (output : Option Text) (status : Status)
      (message : Text) (negotiated : Option Negotiated)
      → IsKeeping R (logged_result E role cmd proc output status message negotiated)
  unfolding logged_result
  logged_result-IsKeeping role cmd proc output status message negotiated =
      >>=-IsKeeping H.calls (build_cli_debug_logs E.os E.decode role cmd proc output)
        (λ logs. give (result status message logs negotiated))
        (build_cli_debug_logs-IsKeeping H.calls E.decode role cmd proc output)
        (λ logs. unchanged (gives (result status message logs negotiated)))

  refuse_unsupported-IsKeeping :
      (found : Result (List Text)) → IsKeeping R (refuse_unsupported E found)
  unfolding refuse_unsupported
  refuse_unsupported-IsKeeping (err e) s = Keeps-refl H.calls s
  refuse_unsupported-IsKeeping (ok []) s = Keeps-refl H.calls s
  refuse_unsupported-IsKeeping (ok (p ∷ ps)) s = Keeps-refl H.calls s

  check_translation-IsKeeping :
      (config : TlsConfig) (translated : Attempt (List Text))
      → IsKeeping R (check_translation E config translated)
  unfolding check_translation
  check_translation-IsKeeping config (fails e) s = Keeps-refl H.calls s
  check_translation-IsKeeping config (gives ts) s =
      refuse_unsupported-IsKeeping
        (catalog_parameter_conflicts E.read_capabilities config (component_backend E) ts) s

  translate_and_check-IsKeeping :
      (config : TlsConfig) (role : Role) (params : Result (List Text))
      → IsKeeping R (translate_and_check E config role params)
  unfolding translate_and_check
  translate_and_check-IsKeeping config role (err e) s = Keeps-refl H.calls s
  translate_and_check-IsKeeping config role (ok ps) s =
      ask-IsKeeping H.calls (E.backend.translate role config) (check_translation E config)
        (H.translate role config) (check_translation-IsKeeping config) s

  -- The validation of a configuration.
  pub validate-IsKeeping :
      (config : TlsConfig) (role : Role) → IsKeeping R (validate_config_supported E config role)
  unfolding validate_config_supported
  validate-IsKeeping config role =
      translate_and_check-IsKeeping config role
        (unsupported_cli_params E.read_capabilities config (component_backend E))

  module _ (p : ℕ) (cmd_logs : Text) where
    module _ (message : Text) (port : ℤ) where
      server_listening-IsKeeping : IsKeeping R (server_listening E p cmd_logs message)
      unfolding server_listening
      server_listening-IsKeeping =
          >>=-IsKeeping H.calls (drain_and_remember E server cmd_logs (some p))
            (λ early.
              logged_result E server cmd_logs (some p) (some early) success message
                (build_negotiated E early))
            (drain_and_remember-IsKeeping server cmd_logs (some p))
            (λ early.
              logged_result-IsKeeping server cmd_logs (some p) (some early) success message
                (build_negotiated E early))

      await_listening-IsKeeping :
          (refused : Option Text) → IsKeeping R (await_listening E p cmd_logs message port refused)
      unfolding await_listening
      await_listening-IsKeeping none = server_listening-IsKeeping
      await_listening-IsKeeping (some tcp_err) =
          fail_with_output-IsKeeping OpResult server cmd_logs (some p) (runtime_error _)

      pub server_running-IsKeeping :
          (exited : Bool) → IsKeeping R (server_running E p cmd_logs message port exited)
      unfolding server_running
      server_running-IsKeeping true = fail_with_output-IsKeeping OpResult server cmd_logs (some p) _
      server_running-IsKeeping false =
          if-IsKeeping (is_positive port)
            (ask (E.os.connects (lit "127.0.0.1") port p)
              >>= await_listening E p cmd_logs message port)
            (fail (setup_error (lit "TlsConfig.port is missing or invalid for server ESTABLISH")))
            (ask-IsKeeping H.calls (E.os.connects (lit "127.0.0.1") port p)
              (await_listening E p cmd_logs message port)
              (H.calls.connects (lit "127.0.0.1") port p) await_listening-IsKeeping)
            (unchanged {A = OpResult} (
              fails
                (setup_error (lit "TlsConfig.port is missing or invalid for server ESTABLISH"))))

    pub client_exited-IsKeeping : IsKeeping R (client_exited E p cmd_logs)
    unfolding client_exited
    client_exited-IsKeeping =
        >>=-IsKeeping H.calls (drain_and_remember E client cmd_logs (some p))
          (λ out.
            logged_result E client cmd_logs (some p) (some out) failure
              (lit "Client process exited (connection failed)") none)
          (drain_and_remember-IsKeeping client cmd_logs (some p))
          (λ out.
            logged_result-IsKeeping client cmd_logs (some p) (some out) failure
              (lit "Client process exited (connection failed)") none)

    pub peer_answered-IsKeeping :
        (config : TlsConfig) (refused : Option Text)
        → IsKeeping R (peer_answered E config p cmd_logs refused)
    unfolding peer_answered
    peer_answered-IsKeeping config none = unchanged (gives tt)
    peer_answered-IsKeeping config (some tcp_err) =
        fail_with_output-IsKeeping (Unit {0}) client cmd_logs (some p) (runtime_error _)

    judge_client-IsKeeping :
        (config : TlsConfig) (merged cmd logs : Text)
        → IsKeeping R (judge_client E config p merged cmd logs)
    unfolding judge_client
    judge_client-IsKeeping config merged cmd logs =
        ask-IsKeeping H.calls (E.os.poll p)
          (λ code. give (
            client_verdict E merged logs
              (with_inferred_hrr E config cmd merged (build_negotiated E merged))
              (has_exited code)))
          (H.calls.poll p)
          (λ code. unchanged (
            gives (
              client_verdict E merged logs
                (with_inferred_hrr E config cmd merged (build_negotiated E merged))
                (has_exited code))))

    pub finish-IsKeeping :
        (config : TlsConfig) (merged : Text)
        → IsKeeping R (finish_client_establish E config p cmd_logs merged)
    unfolding finish_client_establish
    finish-IsKeeping config merged s =
        >>=-IsKeeping H.calls
          (build_cli_debug_logs E.os E.decode client cmd_logs (some p) (some merged))
          (judge_client E config p merged s.last_client_cmd)
          (build_cli_debug_logs-IsKeeping H.calls E.decode client cmd_logs (some p) (some merged))
          (judge_client-IsKeeping config merged s.last_client_cmd) s
