-- ===== src/Wrappers/Servicer/Server.antt =====
-- wrappers/base.py: ESTABLISH of a server.
use tls_interop_framework.Prelude.{Bool, Option, false, if◌then◌else◌, none, some, true, ℕ, ℤ, ◌++◌}
use tls_interop_framework.Python.Args.{text_of_int}
use tls_interop_framework.Python.Text.{Text, lit}
use tls_interop_framework.Runner.Config.{TlsConfig, server, success}
use tls_interop_framework.Wrappers.Process.{Method, ask, fail, runtime_error, setup_error, ◌>>=◌}
use tls_interop_framework.Wrappers.Servicer.{
  OpResult, Wrapper, build_negotiated, drain_and_remember, fail_with_output, has_exited, hold,
  is_positive, logged_result, start,
}

module _ {W : Type 0} (E : Wrapper W) where
  -- The rest of `_establish_server` after the port accepts connections.
  unfoldable pub server_listening : ℕ → Text → Text → Method W OpResult
  server_listening p cmd_logs message = drain_and_remember E server cmd_logs (some p) >>= λ early.
      logged_result E server cmd_logs (some p) (some early) success message
        (build_negotiated E early)

  unfoldable pub await_listening : ℕ → Text → Text → ℤ → Option Text → Method W OpResult
  await_listening p cmd_logs message port none = server_listening p cmd_logs message
  await_listening p cmd_logs message port (some tcp_err) =
      fail_with_output E server cmd_logs (some p) (
        runtime_error (
          lit "server did not listen on port "
          ++ (text_of_int port ++ (lit " (" ++ (tcp_err ++ lit ")")))))

  unfoldable pub server_running : ℕ → Text → Text → ℤ → Bool → Method W OpResult
  server_running p cmd_logs message port true =
      fail_with_output E server cmd_logs (some p)
        (setup_error (lit "server process exited immediately"))
  server_running p cmd_logs message port false =
      if is_positive port
      then ask (E.os.connects (lit "127.0.0.1") port p) >>= await_listening p cmd_logs message port
      else fail (setup_error (lit "TlsConfig.port is missing or invalid for server ESTABLISH"))

  unfoldable pub server_launched : ℤ → Option ℕ × Text × Text → Method W OpResult
  server_launched port (none, cmd_logs, message) =
      fail (setup_error (lit "server subprocess was not started"))
  server_launched port (some p, cmd_logs, message) =
      ask (E.os.poll p) >>= λ code. server_running p cmd_logs message port (has_exited code)

  -- `_establish_server`
  unfoldable pub establish_server : TlsConfig → Method W OpResult
  establish_server config =
      start E server config >>= λ l. hold E server l >>= λ _. server_launched config.port l
