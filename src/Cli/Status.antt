-- ===== src/Cli/Status.antt =====
-- The exit status of the program over the results of its cells.
use tls_interop_framework.Prelude.{
  Bool, List, [], all, arith, false, refl, true, ℕ, ◌==◌, ◌||◌, ◌↔◌, ◌∷◌, ◌≡◌,
}
use tls_interop_framework.Cli.{Verdict, all_accepted, exit_status, pass, skip, status_for_rc}
use tls_interop_framework.Runner.Outcome.{exit_skip}

-- A cell passes or is skipped.
unfoldable pub accepted : Verdict → Bool
accepted pass = true
accepted skip = true
accepted _ = false

status_accepted : (rc : ℕ) → accepted (status_for_rc rc) ≡ (rc == 0 || rc == exit_skip)
unfolding accepted status_for_rc
status_accepted rc = ground arith

accepted-all : (rcs : List ℕ) → all_accepted rcs ≡ all (λ rc. accepted (status_for_rc rc)) rcs
unfolding all_accepted
accepted-all [] = refl
accepted-all (rc ∷ rcs) = ground (arith, status_accepted rc, accepted-all rcs)

-- The exit status of a run is 0 exactly if the printed verdict of every cell is PASS or SKIP.
pub exit_status-zero :
    (rcs : List ℕ) → (exit_status rcs ≡ 0) ↔ (all (λ rc. accepted (status_for_rc rc)) rcs ≡ true)
unfolding exit_status
exit_status-zero rcs = let e = accepted-all rcs in ground arith
