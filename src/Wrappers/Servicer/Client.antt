-- ===== src/Wrappers/Servicer/Client.antt =====
-- wrappers/base.py: ESTABLISH of a client.
use tls_interop_framework.Prelude.{
  Bool, Option, [], false, if◌then◌else◌, is_empty, none, some, true, ℕ, ◌++◌, ◌∷◌,
}
use tls_interop_framework.Python.Args.{text_of_int}
use tls_interop_framework.Python.Text.{Text, lit, strip}
use tls_interop_framework.Runner.Config.{TlsConfig, client, failure, success}
use tls_interop_framework.Wrappers.Output.{merged_output}
use tls_interop_framework.Wrappers.Process.{
  Method, ask, build_cli_debug_logs, drain_process_output, fail, give, look, read_text,
  runtime_error, setup_error, ◌>>=◌,
}
use tls_interop_framework.Wrappers.Servicer.{
  Negotiated, OpResult, Wrapper, build_negotiated, drain_and_remember, fail_with_output, has_exited,
  hold, is_positive, logged_result, peer_host, remember, result, start, wants_hrr,
}

module _ {W : Type 0} (E : Wrapper W) where
  -- What else is read from a process, if it is there, appended to what was read before.
  unfoldable pub more_output : Text → Option ℕ → Method W Text
  more_output before none = give before
  more_output before (some p) =
      read_text E.os E.decode p >>= λ extra. give (merged_output before extra)

  unfoldable pub client_extra : Option ℕ → Method W Text
  client_extra none = give []
  client_extra (some p) = read_text E.os E.decode p

  unfoldable pub joined_outputs : Text → Text → Text
  joined_outputs server_out client_out =
      if is_empty (strip server_out) then client_out else server_out ++ 10 ∷ client_out

  unfoldable pub collect_client_merged_output : Text → Method W Text
  collect_client_merged_output early = look >>= λ s.
      more_output s.last_server_output s.server_proc >>= λ server_out.
      client_extra s.client_proc >>= λ extra.
      give (joined_outputs server_out (merged_output early extra))

  unfoldable pub with_inferred_hrr : TlsConfig → Text → Text → Option Negotiated → Option Negotiated
  with_inferred_hrr config cmd merged none = none
  with_inferred_hrr config cmd merged (some n) =
      some (wants_hrr n (E.backend.infer_hrr_from_negotiation config cmd merged))

  -- The answer to a client's ESTABLISH whose process was polled.
  unfoldable pub client_verdict : Text → Text → Option Negotiated → Bool → OpResult
  client_verdict merged logs negotiated true =
      result failure (lit "Client process exited after handshake") logs negotiated
  client_verdict merged logs negotiated false =
      elim (E.backend.client_establish_output_indicates_failure merged) [
        | none ↦ result success (lit "Client connected") logs negotiated
        | some why ↦ elim why [
          | [] ↦ result success (lit "Client connected") logs negotiated
          | c ∷ t ↦
              result failure (lit "Client handshake failed (" ++ ((c ∷ t) ++ lit ")")) logs
                negotiated
        ]
      ]

  unfoldable pub judge_client : TlsConfig → ℕ → Text → Text → Text → Method W OpResult
  judge_client config p merged cmd logs = ask (E.os.poll p) >>= λ code. give (
      client_verdict merged logs (with_inferred_hrr config cmd merged (build_negotiated E merged))
        (has_exited code))

  -- `_finish_client_establish`
  unfoldable pub finish_client_establish : TlsConfig → ℕ → Text → Text → Method W OpResult
  finish_client_establish config p cmd_logs merged s =
      (build_cli_debug_logs E.os E.decode client cmd_logs (some p) (some merged)
          >>= judge_client config p merged s.last_client_cmd)
        s

  -- The client has exited: what it printed is remembered and logged.
  unfoldable pub client_exited : ℕ → Text → Method W OpResult
  client_exited p cmd_logs = drain_and_remember E client cmd_logs (some p) >>= λ out.
      logged_result E client cmd_logs (some p) (some out) failure
        (lit "Client process exited (connection failed)") none

  -- The rest of `_establish_client_active` after the client was polled.
  unfoldable pub client_joined : TlsConfig → ℕ → Text → Bool → Method W OpResult
  client_joined config p cmd_logs true = client_exited p cmd_logs
  client_joined config p cmd_logs false = drain_process_output E.os E.decode (some p) >>= λ early.
      collect_client_merged_output early >>= λ merged.
      remember E client cmd_logs merged >>= λ _. finish_client_establish config p cmd_logs merged

  -- `_wait_client_peer`
  unfoldable pub peer_answered : TlsConfig → ℕ → Text → Option Text → Method W (Unit {0})
  peer_answered config p cmd_logs none = give tt
  peer_answered config p cmd_logs (some tcp_err) = fail_with_output E client cmd_logs (some p) (
      runtime_error (
        lit "no TCP route to peer "
        ++ (peer_host config
            ++ (lit ":" ++ (text_of_int config.port ++ (lit " (" ++ (tcp_err ++ lit ")")))))))

  -- `_establish_client_active`
  unfoldable pub establish_client_active : TlsConfig → ℕ → Text → Method W OpResult
  establish_client_active config p cmd_logs =
      ask (E.os.connects (peer_host config) config.port p) >>= λ refused.
      peer_answered config p cmd_logs refused >>= λ _.
      ask (E.os.poll p) >>= λ code. client_joined config p cmd_logs (has_exited code)

  unfoldable pub client_running : TlsConfig → ℕ → Text → Bool → Method W OpResult
  client_running config p cmd_logs true = client_exited p cmd_logs
  client_running config p cmd_logs false = establish_client_active config p cmd_logs

  unfoldable pub client_launched : TlsConfig → Option ℕ × Text × Text → Method W OpResult
  client_launched config (none, cmd_logs, message) =
      fail (setup_error (lit "client subprocess was not started"))
  client_launched config (some p, cmd_logs, message) =
      if is_positive config.port
      then (ask (E.os.poll p) >>= λ code. client_running config p cmd_logs (has_exited code))
      else fail (setup_error (lit "TlsConfig.port is missing or invalid for client ESTABLISH"))

  -- `_establish_client`
  unfoldable pub establish_client : TlsConfig → Method W OpResult
  establish_client config =
      start E client config >>= λ l. hold E client l >>= λ _. client_launched config l
