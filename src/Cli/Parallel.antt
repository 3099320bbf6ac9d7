-- ===== src/Cli/Parallel.antt =====
-- main.py: the parallel run. Its threads take the combinations in any order, and a cell that is not
-- skipped holds a slot of the queue while it runs.
pub mod Slots
pub mod Progress
use tls_interop_framework.Prelude.{
  Bool, List, [], if◌then◌else◌, is_some, length, suc, zero, ℕ, ◌++◌, ◌∷◌, ◌≡◌,
}
use tls_interop_framework.Cli.{effective_jobs}
use tls_interop_framework.Core.Catalog.{CapabilityFile}
use tls_interop_framework.Core.Plan.{prepared_cell}
use tls_interop_framework.Core.Validation.{cell_capability_skip_reason}
use tls_interop_framework.Python.Args.{Namespace}
use tls_interop_framework.Python.Result.{err, ok}
use tls_interop_framework.Python.Text.{Text}
use tls_interop_framework.Runner.Outcome.{exit_skip}

-- What `run_matrix_cell` does with a combination before it borrows a slot.
pub data Fate : Type 0 where
  to_skip to_run to_raise : Fate

-- The combinations that no thread has taken, the slots in use with their combinations, the queue of
-- free slots, the results, and the combinations whose cell has raised.
pub record Parallel : Type 0 where
  pub waiting : List (List Text)
  pub running : List (ℕ × List Text)
  pub free : List ℕ
  pub results : List (List Text × ℕ)
  pub failed : List (List Text)

-- `range(n)`
unfoldable pub range : ℕ → List ℕ
range zero = []
range (suc n) = range n ++ n ∷ []

-- The state in which the executor starts.
unfoldable pub parallel_start : ℕ → List (List Text) → Parallel
parallel_start jobs combos = record {
  waiting = combos;
  running = [];
  free = range (effective_jobs jobs (length combos));
  results = [];
  failed = [];
}

module _ (read_capabilities : Text → CapabilityFile) (is_file : Text → Bool) (args : Namespace)
    (axis_keys : List Text) where
  unfoldable pub fate : List Text → Fate
  fate tup = elim (prepared_cell read_capabilities args axis_keys tup) [
    | err e ↦ to_raise
    | ok cell ↦
        if is_some (cell_capability_skip_reason is_file read_capabilities cell)
        then to_skip
        else to_run
  ]

  -- One step of some thread. The exit code of a cell that runs is arbitrary here, and a cell may raise
  -- while it holds its slot; `finally` puts the slot back either way.
  pub data Step : Parallel → Parallel → Type 0 where
    skipped :
        (s : Parallel) (before after : List (List Text)) (tup : List Text)
        → s.waiting ≡ before ++ tup ∷ after
        → fate tup ≡ to_skip
        → Step s (record s { waiting = before ++ after; results = (tup, exit_skip) ∷ s.results })
    unprepared :
        (s : Parallel) (before after : List (List Text)) (tup : List Text)
        → s.waiting ≡ before ++ tup ∷ after
        → fate tup ≡ to_raise
        → Step s (record s { waiting = before ++ after; failed = tup ∷ s.failed })
    borrowed :
        (s : Parallel) (before after : List (List Text)) (tup : List Text) (slot : ℕ)
        (rest : List ℕ)
        → s.waiting ≡ before ++ tup ∷ after
        → fate tup ≡ to_run
        → s.free ≡ slot ∷ rest
        → Step s
            (record s { waiting = before ++ after; running = (slot, tup) ∷ s.running; free = rest })
    finished :
        (s : Parallel) (before after : List (ℕ × List Text)) (tup : List Text) (slot rc : ℕ)
        → s.running ≡ before ++ (slot, tup) ∷ after
        → Step s (record s {
          running = before ++ after;
          free = s.free ++ slot ∷ [];
          results = (tup, rc) ∷ s.results;
        })
    raised_running :
        (s : Parallel) (before after : List (ℕ × List Text)) (tup : List Text) (slot : ℕ)
        → s.running ≡ before ++ (slot, tup) ∷ after
        → Step s (record s {
          running = before ++ after;
          free = s.free ++ slot ∷ [];
          failed = tup ∷ s.failed;
        })

  pub data Reach (start : Parallel) : Parallel → Type 0 where
    here : Reach start start
    next : {s t : Parallel} → Reach start s → Step s t → Reach start t
