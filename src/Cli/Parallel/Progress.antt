-- ===== src/Cli/Parallel/Progress.antt =====
-- A parallel run never blocks: while a combination waits or a cell runs, some thread can step.
use tls_interop_framework.Prelude.{
  Bool, List, [], ap, arith, inl, inr, length, refl, ℕ, ◌==◌, ◌∷◌, ◌≡◌, ◌≤◌, ◌⊎◌,
}
use tls_interop_framework.Cli.Jobs.{effective_jobs-bounds}
use tls_interop_framework.Cli.Parallel.{
  Fate, Parallel, Reach, Step, borrowed, fate, finished, parallel_start, skipped, to_raise, to_run,
  to_skip, unprepared,
}
use tls_interop_framework.Cli.Parallel.Slots.{count, parallel-slot_count, slot_count}
use tls_interop_framework.Core.Catalog.{CapabilityFile}
use tls_interop_framework.Python.Args.{Namespace}
use tls_interop_framework.Python.Text.{Text}

fate-cases : (f : Fate) → (f ≡ to_skip) ⊎ ((f ≡ to_run) ⊎ (f ≡ to_raise))
fate-cases to_skip = inl refl
fate-cases to_run = inr (inl refl)
fate-cases to_raise = inr (inr refl)

List-cases {ℓ} : {A : Type ℓ} (xs : List A) → (xs ≡ []) ⊎ ((x : A) × (ys : List A) × (xs ≡ x ∷ ys))
List-cases [] = inl refl
List-cases (x ∷ xs) = inr (x, xs, refl)

module _ (read_capabilities : Text → CapabilityFile) (is_file : Text → Bool) (args : Namespace)
    (axis_keys : List Text) where
  -- Some thread can step.
  abbrev pub CanStep : Parallel → Type 0
  CanStep s = (t : Parallel) × Step read_capabilities is_file args axis_keys s t

  running-CanStep :
      (s : Parallel) (slot : ℕ) (tup : List Text) (rest : List (ℕ × List Text))
      → s.running ≡ (slot, tup) ∷ rest
      → CanStep s
  running-CanStep s slot tup rest e = (_, finished s [] rest tup slot 0 e)

  -- Where slot 0 is free or held, a free list that is empty leaves a cell running.
  held_slot : (s : Parallel) → slot_count 0 s ≡ 1 → s.free ≡ [] → CanStep s
  held_slot s one none_free = elim (List-cases s.running) [
    | inl idle ↦
        let f = ap (count (λ i. i == 0)) none_free in
        let g = ap (count (λ (r : ℕ × List Text). r.0 == 0)) idle in absurd (ground arith)
    | inr ((slot, tup), rest, e) ↦ running-CanStep s slot tup rest e
  ]

  to_run-CanStep :
      (s : Parallel) (tup : List Text) (rest : List (List Text))
      → slot_count 0 s ≡ 1
      → s.waiting ≡ tup ∷ rest
      → fate read_capabilities is_file args axis_keys tup ≡ to_run
      → CanStep s
  to_run-CanStep s tup rest one e f = elim (List-cases s.free) [
    | inl none_free ↦ held_slot s one none_free
    | inr (slot, others, g) ↦ (_, borrowed s [] rest tup slot others e f g)
  ]

  waiting-CanStep :
      (s : Parallel) (tup : List Text) (rest : List (List Text))
      → slot_count 0 s ≡ 1
      → s.waiting ≡ tup ∷ rest
      → CanStep s
  waiting-CanStep s tup rest one e =
      elim (fate-cases (fate read_capabilities is_file args axis_keys tup)) [
        | inl f ↦ (_, skipped s [] rest tup e f)
        | inr (inl f) ↦ to_run-CanStep s tup rest one e f
        | inr (inr f) ↦ (_, unprepared s [] rest tup e f)
      ]

  -- A parallel run over at least one combination never blocks: in every state that it reaches, either
  -- nothing waits and nothing runs, or some thread can step.
  pub parallel-CanStep :
      (jobs : ℕ) (combos : List (List Text)) (s : Parallel)
      → 1 ≤ length combos
      → Reach read_capabilities is_file args axis_keys (parallel_start jobs combos) s
      → ((s.waiting ≡ []) × (s.running ≡ [])) ⊎ CanStep s
  parallel-CanStep jobs combos s some_combo r =
      let (least, l, m) = effective_jobs-bounds jobs (length combos) some_combo in
      let one = parallel-slot_count read_capabilities is_file args axis_keys jobs 0 combos s r in
      elim (List-cases s.waiting) [
        | inr (tup, rest, e) ↦ inr (waiting-CanStep s tup rest (ground arith) e)
        | inl idle ↦ elim (List-cases s.running) [
          | inl done ↦ inl (idle, done)
          | inr ((slot, tup), rest, e) ↦ inr (running-CanStep s slot tup rest e)
        ]
      ]
