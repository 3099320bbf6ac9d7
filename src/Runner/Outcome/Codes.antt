-- ===== src/Runner/Outcome/Codes.antt =====
-- What the exit code of a cell says.
use tls_interop_framework.Prelude.{
  Bool, [], arith, false, none, refl, some, sym, true, ◌↔◌, ◌≡◌, ◌≢◌,
}
use tls_interop_framework.Runner.Config.{TlsConfig}
use tls_interop_framework.Runner.Driver.{
  Driver, Endpoints, Ran, emergency_cleanup, note, note_failure, returned, run_test_with_configs,
  threw,
}
use tls_interop_framework.Runner.Driver.Passing.{run_test-heard}
use tls_interop_framework.Runner.Driver.Transcript.{Echoed, Retried, Transcript, traced}
use tls_interop_framework.Runner.Outcome.{
  CellRun, Worker, cell_run_of, conclude_cell, drive_cell, exit_timeout, finishes, hangs, is_ok,
  new_driver, process_cell_outcome, process_cell_timeout, run_cell_worker_thread,
}
use mathlib.Core.Path.{subst}

cell_code :
    {W : Type 0} (run : CellRun) (d : Driver W)
    → (conclude_cell (run, d)).0 ≡ 0
    → (run.exc ≡ none) × (run.done ≡ some true)
unfolding conclude_cell process_cell_outcome process_cell_timeout is_ok
cell_code run d h = ground arith

cell_ran :
    {W : Type 0} (r : Ran Bool) (d : Driver W)
    → (conclude_cell (cell_run_of r, d)).0 ≡ 0
    → r ≡ returned true
unfolding cell_run_of
cell_ran (returned true) d h = refl
cell_ran (returned false) d h =
    let w = cell_code (cell_run_of (returned false)) d h in absurd (ground arith)
cell_ran (threw e) d h = let w = cell_code (cell_run_of (threw e)) d h in absurd (ground arith)

timed_code :
    {W : Type 0} (d : Driver W)
    → (conclude_cell (record { done = none; timed_out = true; exc = none }, d)).0 ≡ exit_timeout
unfolding conclude_cell process_cell_outcome process_cell_timeout
timed_code d = refl

world-conclude :
    {W : Type 0} (run : CellRun) (d : Driver W) → (conclude_cell (run, d)).1.world ≡ d.world
unfolding conclude_cell process_cell_outcome process_cell_timeout note_failure note
world-conclude run d = ground arith

ran_in_time :
    {W : Type 0} (r : Ran Bool) (d : Driver W) → (conclude_cell (cell_run_of r, d)).0 ≢ exit_timeout
unfolding cell_run_of conclude_cell process_cell_outcome is_ok
ran_in_time (returned b) d h = ground arith
ran_in_time (threw e) d h = ground arith

module _ {W : Type 0} (E : Endpoints W) where
  drive_cell-returned :
      (server_conf client_conf : TlsConfig) (worker : Worker W) (w : W)
      → (drive_cell E server_conf client_conf worker w).0 ≡ 0
      → (run_test_with_configs E server_conf client_conf (new_driver w)).0 ≡ returned true
  unfolding drive_cell run_cell_worker_thread
  drive_cell-returned server_conf client_conf finishes w h =
      let r = run_test_with_configs E server_conf client_conf (new_driver w) in cell_ran r.0 r.1 h
  drive_cell-returned server_conf client_conf (hangs d) w h =
      let t = timed_code (emergency_cleanup E d) in absurd (ground arith)

  world-drive_cell :
      (server_conf client_conf : TlsConfig) (worker : Worker W) (w : W)
      → (drive_cell E server_conf client_conf worker w).0 ≡ 0
      → (drive_cell E server_conf client_conf worker w).1.world
        ≡ (run_test_with_configs E server_conf client_conf (new_driver w)).1.world
  unfolding drive_cell run_cell_worker_thread
  world-drive_cell server_conf client_conf finishes w h =
      let r = run_test_with_configs E server_conf client_conf (new_driver w) in
      world-conclude (cell_run_of r.0) r.1
  world-drive_cell server_conf client_conf (hangs d) w h =
      let t = timed_code (emergency_cleanup E d) in absurd (ground arith)

  -- The exit code of a cell is the timeout's exactly if the worker thread still runs at the join.
  pub drive_cell-timeout :
      (server_conf client_conf : TlsConfig) (worker : Worker W) (w : W)
      → ((drive_cell E server_conf client_conf worker w).0 ≡ exit_timeout)
        ↔ ((d : Driver W) × (worker ≡ hangs d))
  unfolding drive_cell run_cell_worker_thread
  drive_cell-timeout server_conf client_conf finishes w =
      let r = run_test_with_configs E server_conf client_conf (new_driver w) in
      ((λ h. absurd (ran_in_time r.0 r.1 h)), (λ p. absurd (let (d, e) = p in ground arith)))
  drive_cell-timeout server_conf client_conf (hangs d) w =
      ((λ h. (d, refl)), (λ p. timed_code (emergency_cleanup E d)))

module _ {W : Type 0} (E : Endpoints W) where
  -- A cell whose exit code is 0 has heard, in this run, the server answer its TRANSMIT with SUCCESS and
  -- with the test's payload in the output data: the transcript of the run, which starts empty, holds
  -- that exchange.
  pub drive_cell-Echoed :
      (server_conf client_conf : TlsConfig) (worker : Worker (Transcript W)) (w : W)
      → (drive_cell (traced E) server_conf client_conf worker (w, [])).0 ≡ 0
      → Echoed (drive_cell (traced E) server_conf client_conf worker (w, [])).1.world.1
  drive_cell-Echoed server_conf client_conf worker w h =
      subst (λ v. Echoed v.1)
        (sym (world-drive_cell (traced E) server_conf client_conf worker (w, []) h))
        (run_test-heard E server_conf client_conf (new_driver (w, []))
          (drive_cell-returned (traced E) server_conf client_conf worker (w, []) h)).0

  -- A cell whose client configuration expects a Hello Retry Request and whose exit code is 0 has heard,
  -- in this run, the client answer its first ESTABLISH, which carries that configuration or its variant
  -- that saves the session, with SUCCESS and with `hrr_occurred`: the transcript of the run, which
  -- starts empty, holds that exchange.
  pub drive_cell-Retried :
      (server_conf client_conf : TlsConfig) (worker : Worker (Transcript W)) (w : W)
      → client_conf.expect_hrr ≡ true
      → (drive_cell (traced E) server_conf client_conf worker (w, [])).0 ≡ 0
      → Retried client_conf (drive_cell (traced E) server_conf client_conf worker (w, [])).1.world.1
  drive_cell-Retried server_conf client_conf worker w wanted h =
      subst (λ v. Retried client_conf v.1)
        (sym (world-drive_cell (traced E) server_conf client_conf worker (w, []) h))
        ((run_test-heard E server_conf client_conf (new_driver (w, []))
            (drive_cell-returned (traced E) server_conf client_conf worker (w, []) h)).1
          wanted)
