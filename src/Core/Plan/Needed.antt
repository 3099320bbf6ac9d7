-- ===== src/Core/Plan/Needed.antt =====
-- The backends that a run starts are those that its cells need.
use tls_interop_framework.Prelude.{
  All, Bool, Bool-cases, List, [], ap, arith, false, inl, inr, is_some, not, or_true, refl, sym,
  true, ℕ, ◌&&◌, ◌||◌, ◌∙◌, ◌∷◌, ◌≡◌,
}
use tls_interop_framework.Core.Catalog.{CapabilityFile}
use tls_interop_framework.Core.Cell.{CellMap, backend_of}
use tls_interop_framework.Core.Plan.{
  add_known, note_cell, prepared_cell, require_from, required_backends_from_matrix,
}
use tls_interop_framework.Core.Validation.{cell_capability_skip_reason}
use tls_interop_framework.Python.Args.{Namespace}
use tls_interop_framework.Python.Result.{>>=-eq-ok, err, ok, ok-injective}
use tls_interop_framework.Python.Sorted.Laws.{mem-set_add}
use tls_interop_framework.Python.Text.{Text, lit, mem, text_eq_refl}

-- The name is no discovered backend, or it is one of `needed`.
unfoldable pub covers : List Text → List Text → Text → Bool
covers known needed name = not (mem name known) || mem name needed

module _ (is_file : Text → Bool) (read_capabilities : Text → CapabilityFile)
    (known : List Text) where
  unfoldable pub is_skipped : CellMap → Bool
  is_skipped cell = is_some (cell_capability_skip_reason is_file read_capabilities cell)

  -- The cell is skipped, or `needed` covers the backends of both of its roles.
  unfoldable pub cell_covered : List Text → CellMap → Bool
  cell_covered needed cell =
      is_skipped cell
      || (covers known needed (backend_of (lit "server") cell)
          && covers known needed (backend_of (lit "client") cell))

-- Every name of the first list is in the second.
abbrev Includes : List Text → List Text → Type 0
Includes a b = (x : Text) → mem x a ≡ true → mem x b ≡ true

add_known-Includes :
    (known : List Text) (name : Text) (needed : List Text)
    → Includes needed (add_known known name needed)
unfolding add_known
add_known-Includes known name needed x h = elim (Bool-cases (mem name known)) [
  | inl k ↦ rw (k, add_known) (mem-set_add x name needed ∙ ground (arith, h))
  | inr k ↦ rw (k, add_known) h
]

add_known-covers :
    (known : List Text) (name : Text) (needed : List Text)
    → covers known (add_known known name needed) name ≡ true
unfolding covers add_known
add_known-covers known name needed = elim (Bool-cases (mem name known)) [
  | inl k ↦ rw (k, add_known) (ground (arith, mem-set_add name name needed, text_eq_refl name))
  | inr k ↦ rw k refl
]

covers-Includes :
    (known a b : List Text) (name : Text)
    → Includes a b
    → covers known a name ≡ true
    → covers known b name ≡ true
unfolding covers
covers-Includes known a b name inc h = elim (or_true (not (mem name known)) (mem name a) h) [
  | inl n ↦ rw n refl
  | inr m ↦ ground (arith, inc name m)
]

module _ (is_file : Text → Bool) (read_capabilities : Text → CapabilityFile) (args : Namespace)
    (axis_keys known : List Text) where
  covered_Includes :
      (a b : List Text) (cell : CellMap)
      → Includes a b
      → cell_covered is_file read_capabilities known a cell ≡ true
      → cell_covered is_file read_capabilities known b cell ≡ true
  unfolding cell_covered
  covered_Includes a b cell inc h = ground (
    arith,
    covers-Includes known a b (backend_of (lit "server") cell) inc,
    covers-Includes known a b (backend_of (lit "client") cell) inc,
  )

  note_cell-Includes :
      (cell : CellMap) (needed : List Text) (skips : ℕ)
      → Includes needed
          (note_cell is_file read_capabilities args axis_keys known cell (needed, skips)).0
  unfolding note_cell
  note_cell-Includes cell needed skips x h =
      elim (Bool-cases (is_some (cell_capability_skip_reason is_file read_capabilities cell))) [
        | inl s ↦ rw (s, note_cell) h
        | inr s ↦
            rw (s, note_cell)
              (add_known-Includes known (backend_of (lit "client") cell) _ x
                (add_known-Includes known (backend_of (lit "server") cell) needed x h))
      ]

  note_cell-covered :
      (cell : CellMap) (needed : List Text) (skips : ℕ)
      → cell_covered is_file read_capabilities known
          (note_cell is_file read_capabilities args axis_keys known cell (needed, skips)).0
          cell
        ≡ true
  unfolding cell_covered is_skipped note_cell
  note_cell-covered cell needed skips =
      let server_name = backend_of (lit "server") cell in
      let client_name = backend_of (lit "client") cell in
      let first = add_known known server_name needed in
      ground (
        arith,
        covers-Includes known first (add_known known client_name first) server_name
            (add_known-Includes known client_name first)
            (add_known-covers known server_name needed),
        add_known-covers known client_name first,
      )

  -- The combination gives a cell that `needed` covers.
  unfoldable pub tuple_covered : List Text → List Text → Bool
  tuple_covered needed tup = elim (prepared_cell read_capabilities args axis_keys tup) [
    | ok cell ↦ cell_covered is_file read_capabilities known needed cell
    | err e ↦ false
  ]

  require_from-covered :
      (combos : List (List Text)) (needed : List Text) (skips : ℕ) (result : List Text × ℕ)
      → require_from is_file read_capabilities args axis_keys known (needed, skips) combos
        ≡ ok result
      → Includes needed result.0 × All (λ tup. tuple_covered result.0 tup ≡ true) combos
  unfolding require_from tuple_covered
  require_from-covered [] needed skips result h =
      ((λ x m. rw (sym (ap (λ r. r.0) (ok-injective h))) m), tt)
  require_from-covered (tup ∷ combos) needed skips result h =
      let (cell, made, rest) =
        >>=-eq-ok (prepared_cell read_capabilities args axis_keys tup)
          (λ c.
            require_from is_file read_capabilities args axis_keys known
              (note_cell is_file read_capabilities args axis_keys known c (needed, skips)) combos)
          h in
      let noted = note_cell is_file read_capabilities args axis_keys known cell (needed, skips) in
      let (inc, covered) = require_from-covered combos noted.0 noted.1 result rest in
      (
        λ x m. inc x (note_cell-Includes cell needed skips x m),
        (
          rw (made, tuple_covered)
              (covered_Includes noted.0 result.0 cell inc (note_cell-covered cell needed skips)),
          covered,
        ),
      )

  -- If the scan of the combinations succeeds, then each of them gives a cell that is skipped or
  -- whose roles both have a backend that is undiscovered or among those that the scan returns.
  pub required_backends-covered :
      (combos : List (List Text)) (result : List Text × ℕ)
      → required_backends_from_matrix is_file read_capabilities args axis_keys known combos
        ≡ ok result
      → All (λ tup. tuple_covered result.0 tup ≡ true) combos
  unfolding required_backends_from_matrix
  required_backends-covered combos result h = (require_from-covered combos [] 0 result h).1
