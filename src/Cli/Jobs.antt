-- ===== src/Cli/Jobs.antt =====
-- The number of jobs that the arguments give.
use tls_interop_framework.Prelude.{
  Bool, arith, false, inr, negsuc, pos, suc, true, zero, ℕ, ℤ, ◌≡◌, ◌≤◌, ◌⊎◌,
}
use tls_interop_framework.Cli.{capped, check_jobs, effective_jobs, max_jobs, validate_cli_arguments}
use tls_interop_framework.Core.Orchestration.{max_parallel_jobs}
use tls_interop_framework.Core.Suite.{int_eq}

check_jobs-inr :
    (jobs n : ℕ) (attach : Bool) (tls_port : ℤ)
    → check_jobs jobs attach tls_port ≡ inr n
    → (n ≡ jobs)
      × (n ≤ max_parallel_jobs)
      × ((n ≤ 1) ⊎ ((attach ≡ false) × (int_eq tls_port (pos 0) ≡ true)))
unfolding check_jobs
check_jobs-inr jobs n attach tls_port h = ground arith

capped_le :
    (cpus jobs : ℕ)
    → 1 ≤ jobs
    → (1 ≤ capped cpus jobs) × (capped cpus jobs ≤ max_jobs cpus) × (capped cpus jobs ≤ jobs)
unfolding capped max_jobs
capped_le cpus jobs h = ground arith

-- The arguments that are accepted give between 1 and 32 jobs, not more than half of the
-- processors (or one), and with more than one job neither --attach nor a --tls-port is set.
pub validate_cli_arguments-inr :
    (cpus : ℕ) (jobs : ℤ) (attach : Bool) (tls_port : ℤ) (n : ℕ)
    → validate_cli_arguments cpus jobs attach tls_port ≡ inr n
    → (1 ≤ n)
      × (n ≤ max_parallel_jobs)
      × (n ≤ max_jobs cpus)
      × ((n ≤ 1) ⊎ ((attach ≡ false) × (int_eq tls_port (pos 0) ≡ true)))
unfolding validate_cli_arguments
validate_cli_arguments-inr cpus (negsuc m) attach tls_port n h = absurd (ground arith)
validate_cli_arguments-inr cpus (pos zero) attach tls_port n h = absurd (ground arith)
validate_cli_arguments-inr cpus (pos (suc m)) attach tls_port n h =
    let (e, le, alone) = check_jobs-inr (capped cpus (suc m)) n attach tls_port h in
    let (a, b, c) = capped_le cpus (suc m) (omega arith) in (omega arith, le, omega arith, alone)

-- The parallel run over some combinations uses at least one job if there is a combination, at most
-- one for each combination, and at most 32.
pub effective_jobs-bounds :
    (jobs combos : ℕ)
    → 1 ≤ combos
    → (1 ≤ effective_jobs jobs combos)
      × (effective_jobs jobs combos ≤ combos)
      × (effective_jobs jobs combos ≤ max_parallel_jobs)
unfolding effective_jobs
effective_jobs-bounds jobs combos h = ground arith
