-- ===== src/Cli/Parallel/Slots.antt =====
-- The slots of the parallel run: each is free or held by one cell, and no combination is lost.
use tls_interop_framework.Prelude.{
  ==_refl, Bool, List, [], ap, arith, if◌then◌else◌, is_empty, length, ltb, pos, refl, some, suc,
  sym, true, zero, ℕ, ℤ, ◌++◌, ◌+◌, ◌<◌, ◌==◌, ◌∙◌, ◌∷◌, ◌≡◌, ◌≢◌, ◌≤◌,
}
use tls_interop_framework.Cli.{effective_jobs}
use tls_interop_framework.Cli.Parallel.{
  Parallel, Reach, Step, borrowed, finished, here, next, parallel_start, raised_running, range,
  skipped, unprepared,
}
use tls_interop_framework.Core.Catalog.{CapabilityFile}
use tls_interop_framework.Core.Cell.{CellMap, backend_of, cell_field}
use tls_interop_framework.Core.Orchestration.{slot_tls_port, worker_port_stride}
use tls_interop_framework.Core.Orchestration.Ports.{slot_tls_port-distinct}
use tls_interop_framework.Python.Args.{Namespace}
use tls_interop_framework.Python.Result.{Result, ok, ok-injective}
use tls_interop_framework.Python.Text.{Text, lit, lower, strip}
use tls_interop_framework.Runner.Cell.{
  Session, backend_tls_port, matrix_tls_port, offset_port, session_tls_port,
}

abbrev pub count {ℓ} : {A : Type ℓ} → (A → Bool) → List A → ℕ
count p [] = 0
count p (x ∷ xs) = let rest = count p xs in if p x then suc rest else rest

count-append {ℓ} :
    {A : Type ℓ} (p : A → Bool) (xs ys : List A) → count p (xs ++ ys) ≡ count p xs + count p ys
count-append p [] ys = omega arith
count-append p (x ∷ xs) ys = ground (arith, count-append p xs ys)

count-middle {ℓ} :
    {A : Type ℓ} (p : A → Bool) (before after : List A) (x : A)
    → count p (before ++ x ∷ after) ≡ count p (x ∷ (before ++ after))
count-middle p [] after x = refl
count-middle p (y ∷ before) after x = ground (arith, count-middle p before after x)

count-taken {ℓ} :
    {A : Type ℓ} (p : A → Bool) (before after : List A) (x : A) (xs : List A)
    → xs ≡ before ++ x ∷ after
    → count p xs ≡ count p (x ∷ (before ++ after))
count-taken p before after x xs e = ap (count p) e ∙ count-middle p before after x

two_counted :
    {A : Type 0} (p : A → Bool) (before middle after : List A) (x y : A)
    → p x ≡ true
    → p y ≡ true
    → 2 ≤ count p (before ++ x ∷ (middle ++ y ∷ after))
two_counted p before middle after x y hx hy =
    ground
      (arith, count-append p before (x ∷ (middle ++ y ∷ after)), count-append p middle (y ∷ after))

count-range : (slot n : ℕ) → count (λ i. i == slot) (range n) ≡ (if ltb slot n then 1 else 0)
unfolding range
count-range slot zero = ground arith
count-range slot (suc n) =
    count-append (λ i. i == slot) (range n) (n ∷ []) ∙ ground (arith, count-range slot n)

-- How often a slot is free or in use.
abbrev pub slot_count : ℕ → Parallel → ℕ
slot_count slot s = count (λ i. i == slot) s.free + count (λ r. r.0 == slot) s.running

-- How many combinations that satisfy `p` are waiting, running, done or failed.
abbrev pub combination_count : (List Text → Bool) → Parallel → ℕ
combination_count p s =
    count p s.waiting
    + (count (λ r. p r.1) s.running + (count (λ r. p r.0) s.results + count p s.failed))

module _ (read_capabilities : Text → CapabilityFile) (is_file : Text → Bool) (args : Namespace)
    (axis_keys : List Text) where
  slot_count-Step :
      (slot : ℕ) {s t : Parallel}
      → Step read_capabilities is_file args axis_keys s t
      → slot_count slot t ≡ slot_count slot s
  slot_count-Step slot (skipped s before after tup e f) = refl
  slot_count-Step slot (unprepared s before after tup e f) = refl
  slot_count-Step slot (borrowed s before after tup i rest e f g) = rw g (ground arith)
  slot_count-Step slot (finished s before after tup i rc e) = ground (
    arith,
    count-taken (λ r. r.0 == slot) before after (i, tup) s.running e,
    count-append (λ j. j == slot) s.free (i ∷ []),
  )
  slot_count-Step slot (raised_running s before after tup i e) = ground (
    arith,
    count-taken (λ r. r.0 == slot) before after (i, tup) s.running e,
    count-append (λ j. j == slot) s.free (i ∷ []),
  )

  combination_count-Step :
      (p : List Text → Bool) {s t : Parallel}
      → Step read_capabilities is_file args axis_keys s t
      → combination_count p t ≡ combination_count p s
  combination_count-Step p (skipped s before after tup e f) =
      ground (arith, count-taken p before after tup s.waiting e)
  combination_count-Step p (unprepared s before after tup e f) =
      ground (arith, count-taken p before after tup s.waiting e)
  combination_count-Step p (borrowed s before after tup i rest e f g) =
      ground (arith, count-taken p before after tup s.waiting e)
  combination_count-Step p (finished s before after tup i rc e) =
      ground (arith, count-taken (λ r. p r.1) before after (i, tup) s.running e)
  combination_count-Step p (raised_running s before after tup i e) =
      ground (arith, count-taken (λ r. p r.1) before after (i, tup) s.running e)

  slot_count-Reach :
      (slot : ℕ) {start s : Parallel}
      → Reach read_capabilities is_file args axis_keys start s
      → slot_count slot s ≡ slot_count slot start
  slot_count-Reach slot here = refl
  slot_count-Reach slot (next r st) = slot_count-Step slot st ∙ slot_count-Reach slot r

  combination_count-Reach :
      (p : List Text → Bool) {start s : Parallel}
      → Reach read_capabilities is_file args axis_keys start s
      → combination_count p s ≡ combination_count p start
  combination_count-Reach p here = refl
  combination_count-Reach p (next r st) = combination_count-Step p st ∙ combination_count-Reach p r

  pub slot_count-start :
      (jobs slot : ℕ) (combos : List (List Text))
      → slot_count slot (parallel_start jobs combos)
        ≡ (if ltb slot (effective_jobs jobs (length combos)) then 1 else 0)
  unfolding parallel_start
  slot_count-start jobs slot combos =
      ground (arith, count-range slot (effective_jobs jobs (length combos)))

  -- In every state that a parallel run reaches, each slot is free or held by exactly one cell if it is
  -- below the number of jobs in effect, and no other slot is ever free or held.
  pub parallel-slot_count :
      (jobs slot : ℕ) (combos : List (List Text)) (s : Parallel)
      → Reach read_capabilities is_file args axis_keys (parallel_start jobs combos) s
      → slot_count slot s ≡ (if ltb slot (effective_jobs jobs (length combos)) then 1 else 0)
  parallel-slot_count jobs slot combos s r =
      slot_count-Reach slot r ∙ slot_count-start jobs slot combos

  -- When a parallel run has no combination waiting and no cell running, then each combination of the
  -- matrix has a result or has raised, exactly as often as it occurs in the matrix: so many results and
  -- failures satisfy a test as combinations do.
  pub parallel-results :
      (p : List Text → Bool) (jobs : ℕ) (combos : List (List Text)) (s : Parallel)
      → Reach read_capabilities is_file args axis_keys (parallel_start jobs combos) s
      → s.waiting ≡ []
      → s.running ≡ []
      → count (λ r. p r.0) s.results + count p s.failed ≡ count p combos
  unfolding parallel_start
  parallel-results p jobs combos s r w q =
      let e = combination_count-Reach p r in
      ground (arith, ap (count p) w, ap (count (λ (x : ℕ × List Text). p x.1)) q)

  -- Two slots in use at the same time are different.
  parallel-slot_tls_port :
      (jobs : ℕ) (combos : List (List Text)) (s : Parallel) (i j p q : ℕ)
      (tup other_tup : List Text) (before middle after : List (ℕ × List Text))
      → Reach read_capabilities is_file args axis_keys (parallel_start jobs combos) s
      → s.running ≡ before ++ (i, tup) ∷ (middle ++ (j, other_tup) ∷ after)
      → p < q + worker_port_stride
      → q < p + worker_port_stride
      → slot_tls_port p (some i) ≢ slot_tls_port q (some j)
  parallel-slot_tls_port jobs combos s i j p q tup other_tup before middle after r e h k same =
      let (i_j, p_q) = slot_tls_port-distinct p q i j h k same in
      let held =
        two_counted (λ (x : ℕ × List Text). x.0 == i) before middle after (i, tup) (j, other_tup)
          (==_refl i) (ground (arith, i_j)) in
      let once = parallel-slot_count jobs i combos s r in
      let listed = ap (count (λ (x : ℕ × List Text). x.0 == i)) e in
      ground (arith, held, once, listed)

  -- The TLS port of a cell that sets none of its own, on a session for a slot.
  cell_port :
      (read_bytes : Text → List ℕ) (cell : CellMap) (session : Session) (i p : ℕ)
      → is_empty (cell_field (lit "tls_port") cell) ≡ true
      → session.slot_id ≡ some i
      → backend_tls_port read_capabilities is_file read_bytes
          (lower (strip (backend_of (lit "server") cell)))
        ≡ ok (pos p)
      → matrix_tls_port read_capabilities is_file read_bytes cell session
        ≡ ok (pos (slot_tls_port p (some i)))
  unfolding matrix_tls_port session_tls_port offset_port
  cell_port read_bytes cell session i p blank slot base = rw blank (rw base (rw slot refl))

  pos_pos : (m n : ℕ) → pos m ≡ pos n → m ≡ n
  pos_pos m n h = cc

  same_port : (m n : ℕ) → (r : Result ℤ) → r ≡ ok (pos m) → r ≡ ok (pos n) → m ≡ n
  same_port m n r h k = pos_pos m n (ok-injective (sym h ∙ k))

  -- Two cells that run at the same time in a parallel run, neither of which sets a TLS port of its own,
  -- are given different TLS ports by the sessions of their slots, if the base ports of their servers'
  -- backends are less than a slot's stride apart.
  pub parallel-matrix_tls_port :
      (jobs : ℕ) (combos : List (List Text)) (s : Parallel) (i j p q : ℕ)
      (tup other_tup : List Text) (before middle after : List (ℕ × List Text))
      (read_bytes : Text → List ℕ) (cell other_cell : CellMap) (session other_session : Session)
      → Reach read_capabilities is_file args axis_keys (parallel_start jobs combos) s
      → s.running ≡ before ++ (i, tup) ∷ (middle ++ (j, other_tup) ∷ after)
      → is_empty (cell_field (lit "tls_port") cell) ≡ true
      → is_empty (cell_field (lit "tls_port") other_cell) ≡ true
      → session.slot_id ≡ some i
      → other_session.slot_id ≡ some j
      → backend_tls_port read_capabilities is_file read_bytes
          (lower (strip (backend_of (lit "server") cell)))
        ≡ ok (pos p)
      → backend_tls_port read_capabilities is_file read_bytes
          (lower (strip (backend_of (lit "server") other_cell)))
        ≡ ok (pos q)
      → p < q + worker_port_stride
      → q < p + worker_port_stride
      → matrix_tls_port read_capabilities is_file read_bytes cell session
        ≢ matrix_tls_port read_capabilities is_file read_bytes other_cell other_session
  parallel-matrix_tls_port jobs combos s i j p q tup other_tup before middle after read_bytes cell
        other_cell session other_session r e blank other_blank slot other_slot base other_base h k
        same =
      let mine = cell_port read_bytes cell session i p blank slot base in
      let theirs =
        cell_port read_bytes other_cell other_session j q other_blank other_slot other_base in
      parallel-slot_tls_port jobs combos s i j p q tup other_tup before middle after r e h k (
        same_port (slot_tls_port p (some i)) (slot_tls_port q (some j))
          (matrix_tls_port read_capabilities is_file read_bytes cell session) mine (same ∙ theirs))
