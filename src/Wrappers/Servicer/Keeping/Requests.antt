-- ===== src/Wrappers/Servicer/Keeping/Requests.antt =====
-- What a launched process and a TRANSMIT keep.
use tls_interop_framework.Prelude.{
  Bool, List, Option, [], false, if◌then◌else◌, is_empty, none, some, true, ℕ, ℤ,
}
use tls_interop_framework.Python.Text.{Text, lit}
use tls_interop_framework.Runner.Config.{Role, Status, TlsConfig, client, error, failure, success}
use tls_interop_framework.Wrappers.Output.{merged_output}
use tls_interop_framework.Wrappers.Process.{
  Attempt, Failure, Servicer, ask, build_cli_debug_logs, drain_process_output, fail, fails, give,
  gives, proc_of, read_text, runtime_error, setup_error, skip_error, unexpected, ◌>>=◌,
}
use tls_interop_framework.Wrappers.Servicer.{
  OpResult, Wrapper, exc_message, has_exited, is_positive, logged_result, peer_host, remember,
  result, transmit_payload_bytes,
}
use tls_interop_framework.Wrappers.Servicer.Client.{
  client_extra, client_joined, client_launched, client_running, collect_client_merged_output,
  establish_client_active, finish_client_establish, joined_outputs, more_output, peer_answered,
}
use tls_interop_framework.Wrappers.Servicer.Keeping.{
  >>=-IsKeeping, IsKeeping, Keeps, Keeps-refl, ask-IsKeeping, build_cli_debug_logs-IsKeeping,
  drain_process_output-IsKeeping, read_text-IsKeeping, remember-IsKeeping,
}
use tls_interop_framework.Wrappers.Servicer.Keeping.Handlers.{
  IsKeptBy, client_exited-IsKeeping, finish-IsKeeping, if-IsKeeping, logged_result-IsKeeping,
  peer_answered-IsKeeping, server_running-IsKeeping, unchanged,
}
use tls_interop_framework.Wrappers.Servicer.Requests.{
  answer_failure, format_op_error, handle_transmit, logged_output, payload_written,
  transmit_refused, transmit_running, transmit_to, transmitted, with_logs,
}
use tls_interop_framework.Wrappers.Servicer.Server.{server_launched, server_running}

module _ {W : Type 0} (E : Wrapper W) (R : W → W → Type 0) (H : IsKeptBy E R) where
  more_output-IsKeeping :
      (before : Text) (proc : Option ℕ) → IsKeeping R (more_output E before proc)
  unfolding more_output
  more_output-IsKeeping before none = unchanged E R H (gives before)
  more_output-IsKeeping before (some p) =
      >>=-IsKeeping H.calls (read_text E.os E.decode p) (λ extra. give (merged_output before extra))
        (read_text-IsKeeping H.calls E.decode p)
        (λ extra. unchanged E R H (gives (merged_output before extra)))

  client_extra-IsKeeping : (proc : Option ℕ) → IsKeeping R (client_extra E proc)
  unfolding client_extra
  client_extra-IsKeeping none = unchanged E R H {A = Text} (gives [])
  client_extra-IsKeeping (some p) = read_text-IsKeeping H.calls E.decode p

  collect-IsKeeping : (early : Text) → IsKeeping R (collect_client_merged_output E early)
  unfolding collect_client_merged_output
  collect-IsKeeping early s =
      >>=-IsKeeping H.calls (more_output E s.last_server_output s.server_proc)
        (λ server_out. client_extra E s.client_proc >>= λ extra.
          give (joined_outputs E server_out (merged_output early extra)))
        (more_output-IsKeeping s.last_server_output s.server_proc)
        (λ server_out.
          >>=-IsKeeping H.calls (client_extra E s.client_proc)
            (λ extra. give (joined_outputs E server_out (merged_output early extra)))
            (client_extra-IsKeeping s.client_proc)
            (λ extra.
              unchanged E R H (gives (joined_outputs E server_out (merged_output early extra)))))
        s

  module _ (config : TlsConfig) (p : ℕ) (cmd_logs : Text) where
    client_joined-IsKeeping :
        (exited : Bool) → IsKeeping R (client_joined E config p cmd_logs exited)
    unfolding client_joined
    client_joined-IsKeeping true = client_exited-IsKeeping E R H p cmd_logs
    client_joined-IsKeeping false =
        >>=-IsKeeping H.calls (drain_process_output E.os E.decode (some p))
          (λ early. collect_client_merged_output E early >>= λ merged.
            remember E client cmd_logs merged >>= λ _.
            finish_client_establish E config p cmd_logs merged)
          (drain_process_output-IsKeeping H.calls E.decode (some p))
          (λ early.
            >>=-IsKeeping H.calls (collect_client_merged_output E early)
              (λ merged. remember E client cmd_logs merged >>= λ _.
                finish_client_establish E config p cmd_logs merged)
              (collect-IsKeeping early)
              (λ merged.
                >>=-IsKeeping H.calls (remember E client cmd_logs merged)
                  (λ _. finish_client_establish E config p cmd_logs merged)
                  (remember-IsKeeping H.calls client cmd_logs merged)
                  (λ _. finish-IsKeeping E R H p cmd_logs config merged)))

    active-IsKeeping : IsKeeping R (establish_client_active E config p cmd_logs)
    unfolding establish_client_active
    active-IsKeeping =
        ask-IsKeeping H.calls (E.os.connects (peer_host config) config.port p)
          (λ refused. peer_answered E config p cmd_logs refused >>= λ _.
            ask (E.os.poll p) >>= λ code. client_joined E config p cmd_logs (has_exited code))
          (H.calls.connects (peer_host config) config.port p)
          (λ refused.
            >>=-IsKeeping H.calls (peer_answered E config p cmd_logs refused)
              (λ _.
                ask (E.os.poll p) >>= λ code. client_joined E config p cmd_logs (has_exited code))
              (peer_answered-IsKeeping E R H p cmd_logs config refused)
              (λ _.
                ask-IsKeeping H.calls (E.os.poll p)
                  (λ code. client_joined E config p cmd_logs (has_exited code)) (H.calls.poll p)
                  (λ code. client_joined-IsKeeping (has_exited code))))

    client_running-IsKeeping :
        (exited : Bool) → IsKeeping R (client_running E config p cmd_logs exited)
    unfolding client_running
    client_running-IsKeeping true = client_exited-IsKeeping E R H p cmd_logs
    client_running-IsKeeping false = active-IsKeeping

  -- What follows the start of a server keeps the processes and the files.
  pub server_launched-IsKeeping :
      (port : ℤ) (l : Option ℕ × Text × Text) → IsKeeping R (server_launched E port l)
  unfolding server_launched
  server_launched-IsKeeping port (none, cmd_logs, message) s = Keeps-refl H.calls s
  server_launched-IsKeeping port (some p, cmd_logs, message) s =
      ask-IsKeeping H.calls (E.os.poll p)
        (λ code. server_running E p cmd_logs message port (has_exited code)) (H.calls.poll p)
        (λ code. server_running-IsKeeping E R H p cmd_logs message port (has_exited code)) s

  -- What follows the start of a client does too.
  pub client_launched-IsKeeping :
      (config : TlsConfig) (l : Option ℕ × Text × Text) → IsKeeping R (client_launched E config l)
  unfolding client_launched
  client_launched-IsKeeping config (none, cmd_logs, message) s = Keeps-refl H.calls s
  client_launched-IsKeeping config (some p, cmd_logs, message) s =
      if-IsKeeping E R H (is_positive config.port)
        (ask (E.os.poll p) >>= λ code. client_running E config p cmd_logs (has_exited code))
        (fail (setup_error (lit "TlsConfig.port is missing or invalid for client ESTABLISH")))
        (ask-IsKeeping H.calls (E.os.poll p)
          (λ code. client_running E config p cmd_logs (has_exited code)) (H.calls.poll p)
          (λ code. client_running-IsKeeping config p cmd_logs (has_exited code)))
        (unchanged E R H {A = OpResult}
          (fails (setup_error (lit "TlsConfig.port is missing or invalid for client ESTABLISH"))))
        s

  module _ (role : Role) where
    output-IsKeeping : (p : ℕ) (out_data : List ℕ) → IsKeeping R (logged_output E role p out_data)
    unfolding logged_output
    output-IsKeeping p out_data =
        >>=-IsKeeping H.calls
          (build_cli_debug_logs E.os E.decode role [] (some p)
            (some (if is_empty out_data then [] else E.decode out_data)))
          (λ logs. give (record (result success [] logs none) { output_data = out_data }))
          (build_cli_debug_logs-IsKeeping H.calls E.decode role [] (some p)
            (some (if is_empty out_data then [] else E.decode out_data)))
          (λ logs. Keeps-refl H.calls)

    transmitted-IsKeeping : (p : ℕ) → IsKeeping R (transmitted E role p)
    unfolding transmitted
    transmitted-IsKeeping p =
        ask-IsKeeping H.calls (E.os.read_stdout p) (logged_output E role p) (H.calls.read_stdout p)
          (output-IsKeeping p)

    refused-IsKeeping :
        (p : ℕ) (status : Status) (message : Text)
        → IsKeeping R (transmit_refused E role p status message)
    unfolding transmit_refused
    refused-IsKeeping p status message =
        >>=-IsKeeping H.calls (drain_process_output E.os E.decode (some p))
          (λ out. logged_result E role [] (some p) (some out) status message none)
          (drain_process_output-IsKeeping H.calls E.decode (some p))
          (λ out. logged_result-IsKeeping E R H role [] (some p) (some out) status message none)

    written-IsKeeping : (p : ℕ) (ok_write : Bool) → IsKeeping R (payload_written E role p ok_write)
    unfolding payload_written
    written-IsKeeping p true = transmitted-IsKeeping p
    written-IsKeeping p false = refused-IsKeeping p error _

    module _ (payload : List ℕ) where
      running-IsKeeping :
          (p : ℕ) (exited : Bool) → IsKeeping R (transmit_running E role payload p exited)
      unfolding transmit_running
      running-IsKeeping p true = refused-IsKeeping p failure _
      running-IsKeeping p false =
          if-IsKeeping E R H (is_empty payload) (transmitted E role p)
            (ask (E.os.write_stdin p (transmit_payload_bytes payload role))
              >>= payload_written E role p)
            (transmitted-IsKeeping p)
            (ask-IsKeeping H.calls (E.os.write_stdin p (transmit_payload_bytes payload role))
              (payload_written E role p)
              (H.calls.write_stdin p (transmit_payload_bytes payload role)) (written-IsKeeping p))

      transmit_to-IsKeeping : (proc : Option ℕ) → IsKeeping R (transmit_to E role payload proc)
      unfolding transmit_to
      transmit_to-IsKeeping none = logged_result-IsKeeping E R H role [] none none failure _ none
      transmit_to-IsKeeping (some p) =
          ask-IsKeeping H.calls (E.os.poll p)
            (λ code. transmit_running E role payload p (has_exited code)) (H.calls.poll p)
            (λ code. running-IsKeeping p (has_exited code))

      -- A TRANSMIT keeps the processes and the files.
      pub handle_transmit-IsKeeping : IsKeeping R (handle_transmit E role payload)
      unfolding handle_transmit
      handle_transmit-IsKeeping s = transmit_to-IsKeeping (proc_of role s) s

  with_logs-Keeps :
      (status : Status) (message : Text) (s : Servicer W) (r : Attempt Text × Servicer W)
      → Keeps R s r.1
      → Keeps R s (with_logs E status message r).1
  unfolding with_logs
  with_logs-Keeps status message s (gives logs, t) k = k
  with_logs-Keeps status message s (fails e, t) k = k

  format_op_error-Keeps :
      (role : Role) (phase : Text) (status : Status) (name detail : Text) (s : Servicer W)
      → Keeps R s (format_op_error E role phase status name detail s).1
  unfolding format_op_error
  format_op_error-Keeps role phase status name detail s =
      with_logs-Keeps status (exc_message phase name detail) s
        (build_cli_debug_logs E.os E.decode role [] none none s)
        (build_cli_debug_logs-IsKeeping H.calls E.decode role [] none none s)

  -- The answer to an exception keeps the processes and the files.
  pub answer_failure-Keeps :
      (role : Role) (e : Failure) (s : Servicer W) → Keeps R s (answer_failure E role e s).1
  unfolding answer_failure
  answer_failure-Keeps role (setup_error e) s = format_op_error-Keeps role _ error _ e s
  answer_failure-Keeps role (skip_error e) s = Keeps-refl H.calls s
  answer_failure-Keeps role (runtime_error e) s = format_op_error-Keeps role _ failure _ e s
  answer_failure-Keeps role (unexpected name e) s = format_op_error-Keeps role _ error name e s
