-- ===== src/Runner/Outcome.antt =====
-- core/runner.py: the worker thread of a cell, and the exit code that the cell's outcome gives.
pub mod Codes
use tls_interop_framework.Prelude.{
  Bool, Option, [], false, if◌then◌else◌, is_some, none, some, true, ℕ,
}
use tls_interop_framework.Python.Text.{Text, lit}
use tls_interop_framework.Runner.Config.{TlsConfig}
use tls_interop_framework.Runner.Driver.{
  Driver, Endpoints, Ran, emergency_cleanup, note_failure, returned, run_test_with_configs, threw,
}

abbrev pub exit_skip : ℕ
exit_skip = 77

abbrev pub exit_timeout : ℕ
exit_timeout = 78

-- What the join of the worker thread meets: the thread has finished, or it still runs, with the
-- driver in some state.
pub data Worker (W : Type 0) : Type 0 where
  finishes : Worker W
  hangs : Driver W → Worker W

-- `holder["ok"]`, the timeout flag and `holder["exc"]`.
pub record CellRun : Type 0 where
  pub done : Option Bool
  pub timed_out : Bool
  pub exc : Option Text

unfoldable pub cell_run_of : Ran Bool → CellRun
cell_run_of (returned b) = record { done = some b; timed_out = false; exc = none }
cell_run_of (threw e) = record { done = none; timed_out = false; exc = some e }

-- `not ok`
unfoldable pub is_ok : Option Bool → Bool
is_ok (some true) = true
is_ok _ = false

module _ {W : Type 0} where
  unfoldable pub process_cell_timeout : Driver W → ℕ × Driver W
  process_cell_timeout d =
      (exit_timeout, note_failure (lit "cell_timeout") (lit "cell exceeded wall-clock limit") d)

  unfoldable pub process_cell_outcome : CellRun → Driver W → ℕ × Driver W
  process_cell_outcome run d =
      if run.timed_out
      then process_cell_timeout d
      else if is_some d.last_skip_reason
      then (exit_skip, d)
      else if is_ok run.done
      then (0, d)
      else (1, d)

  -- `raise worker_exc` and the handler of `execute_matrix_cell`.
  unfoldable pub conclude_cell : CellRun × Driver W → ℕ × Driver W
  conclude_cell (run, d) = elim run.exc [
    | none ↦ process_cell_outcome run d
    | some e ↦ (1, note_failure (lit "grpc") e d)
  ]

-- A driver of `InteropDriver.__init__`.
unfoldable pub new_driver : {W : Type 0} → W → Driver W
new_driver w = record { world = w; last_skip_reason = none; fail_log = [] }

module _ {W : Type 0} (E : Endpoints W) where
  unfoldable pub run_cell_worker_thread :
      TlsConfig → TlsConfig → Worker W → Driver W → CellRun × Driver W
  run_cell_worker_thread server_conf client_conf finishes d =
      let result = run_test_with_configs E server_conf client_conf d in
      (cell_run_of result.0, result.1)
  run_cell_worker_thread server_conf client_conf (hangs d') d =
      (record { done = none; timed_out = true; exc = none }, emergency_cleanup E d')

  -- The part of `execute_matrix_cell` after the configurations are built.
  unfoldable pub drive_cell : TlsConfig → TlsConfig → Worker W → W → ℕ × Driver W
  drive_cell server_conf client_conf worker w =
      conclude_cell (run_cell_worker_thread server_conf client_conf worker (new_driver w))
