-- ===== src/Cli.antt =====
-- main.py: the combinations of the matrix, the run over them, and the exit status.
pub mod Parallel
pub mod Status
pub mod Jobs
pub mod Product
use tls_interop_framework.Prelude.{
  Bool, List, [], all, flat_map, if◌then◌else◌, inl, inr, is_some, ltb, map, negsuc, not, pos, suc,
  zero, ℕ, ℤ, ◌&&◌, ◌++◌, ◌/◌, ◌==◌, ◌||◌, ◌∷◌, ◌⊎◌,
}
use tls_interop_framework.Core.Catalog.{CapabilityFile}
use tls_interop_framework.Core.Cell.{CellMap}
use tls_interop_framework.Core.Orchestration.{max_parallel_jobs}
use tls_interop_framework.Core.Plan.{matrix_axis_plan, prepared_cell}
use tls_interop_framework.Core.Suite.{Yaml, YamlMap, end, entry, int_eq, suite_cases_to_combos}
use tls_interop_framework.Core.Validation.{cell_capability_skip_reason}
use tls_interop_framework.Python.Args.{Namespace}
use tls_interop_framework.Python.Result.{Result, ok, ◌>>=◌}
use tls_interop_framework.Python.Text.{Text, mem}
use tls_interop_framework.Runner.Cell.{Session, execute_matrix_cell}
use tls_interop_framework.Runner.Driver.{Endpoints}
use tls_interop_framework.Runner.Outcome.{Worker, exit_skip, exit_timeout}
use tls_interop_framework.Wrappers.Servicer.{result}
use Prim.Native.Nat.{min, max}

-- The words of a result line.
pub data Verdict : Type 0 where
  pass skip timeout fail : Verdict

unfoldable pub status_for_rc : ℕ → Verdict
status_for_rc rc =
    if rc == 0
    then pass
    else if rc == exit_skip
    then skip
    else if rc == exit_timeout
    then timeout
    else fail

-- `itertools.product`
unfoldable pub product : List (List Text) → List (List Text)
product [] = [] ∷ []
product (vals ∷ axes) = flat_map (λ v. map (λ tup. v ∷ tup) (product axes)) vals

-- The keys of a case that are no axis yet, in order, each once.
unfoldable pub add_case_keys : YamlMap → List Text → List Text
add_case_keys end axis_keys = axis_keys
add_case_keys (entry k v m) axis_keys =
    add_case_keys m (if mem k axis_keys then axis_keys else axis_keys ++ k ∷ [])

unfoldable pub add_all_case_keys : List YamlMap → List Text → List Text
add_all_case_keys [] axis_keys = axis_keys
add_all_case_keys (case ∷ cases) axis_keys = add_all_case_keys cases (add_case_keys case axis_keys)

module _ (read_capabilities : Text → CapabilityFile) (known : List Text)
    (str_nested : Yaml → Text) where
  unfoldable pub combos_of :
      Namespace
      → List YamlMap
      → List Text × List (List Text)
      → Result (List Text × List (List Text))
  combos_of args [] (axis_keys, axis_vals) = ok (axis_keys, product axis_vals)
  combos_of args (case ∷ cases) (axis_keys, axis_vals) = do
    let all_keys = add_all_case_keys (case ∷ cases) axis_keys
    combos ← suite_cases_to_combos str_nested args all_keys (case ∷ cases)
    ok (all_keys, combos)

  -- `suite_cases` is empty where the suite has none.
  unfoldable pub build_matrix_combos :
      Namespace → List YamlMap → Result (List Text × List (List Text))
  unfolding combos_of
  build_matrix_combos args suite_cases =
      matrix_axis_plan read_capabilities known args >>= combos_of args suite_cases

-- Every return code is PASS or SKIP.
unfoldable pub all_accepted : List ℕ → Bool
all_accepted rcs = all (λ rc. rc == 0 || rc == exit_skip) rcs

-- The exit status of `_print_matrix_results`.
unfoldable pub exit_status : List ℕ → ℕ
exit_status rcs = if all_accepted rcs then 0 else 1

module _ (read_capabilities : Text → CapabilityFile) (is_file : Text → Bool)
    (read_bytes : Text → List ℕ) (args : Namespace) (axis_keys : List Text) {W : Type 0}
    (E : Endpoints W) where
  -- A cell that is not skipped runs on the session.
  run_prepared : CellMap → Session → Worker W → W → Result (ℕ × W)
  run_prepared cell session worker w =
      if is_some (cell_capability_skip_reason is_file read_capabilities cell)
      then ok (exit_skip, w)
      else do
        result ← execute_matrix_cell read_capabilities is_file read_bytes E cell session worker w
        ok (result.0, result.1.world)

  unfoldable pub run_matrix_cell : List Text → Session → Worker W → W → Result (ℕ × W)
  unfolding run_prepared
  run_matrix_cell tup session worker w = do
    cell ← prepared_cell read_capabilities args axis_keys tup
    run_prepared cell session worker w

  -- The serial run. `workers` says of each cell whether its thread ends in time.
  unfoldable pub run_matrix_serial : List (List Text × Worker W) → Session → W → Result (List ℕ × W)
  run_matrix_serial [] session w = ok ([], w)
  run_matrix_serial ((tup, worker) ∷ combos) session w = do
    first ← run_matrix_cell tup session worker w
    rest ← run_matrix_serial combos session first.1
    ok (first.0 ∷ rest.0, rest.1)

-- What `validate_cli_arguments` decides about --jobs, --attach and --tls-port.
pub data JobsError : Type 0 where
  too_few too_many attach_with_jobs port_with_jobs : JobsError

-- `cpus` is `os.cpu_count() or 2`.
unfoldable pub max_jobs : ℕ → ℕ
max_jobs cpus = if ltb (cpus / 2) 1 then 1 else cpus / 2

unfoldable pub capped : ℕ → ℕ → ℕ
capped cpus jobs = if ltb (max_jobs cpus) jobs then max_jobs cpus else jobs

unfoldable pub check_jobs : ℕ → Bool → ℤ → JobsError ⊎ ℕ
check_jobs jobs attach tls_port =
    if ltb max_parallel_jobs jobs
    then inl too_many
    else if ltb 1 jobs && attach
    then inl attach_with_jobs
    else if ltb 1 jobs && not (int_eq tls_port (pos 0))
    then inl port_with_jobs
    else inr jobs

-- The jobs to run with, or the error that ends the program.
unfoldable pub validate_cli_arguments : ℕ → ℤ → Bool → ℤ → JobsError ⊎ ℕ
unfolding check_jobs
validate_cli_arguments cpus (negsuc n) attach tls_port = inl too_few
validate_cli_arguments cpus (pos zero) attach tls_port = inl too_few
validate_cli_arguments cpus (pos (suc n)) attach tls_port =
    check_jobs (capped cpus (suc n)) attach tls_port

-- `effective_jobs` of `run_matrix_parallel`.
unfoldable pub effective_jobs : ℕ → ℕ → ℕ
effective_jobs jobs combos = min (min (max 1 jobs) combos) max_parallel_jobs
