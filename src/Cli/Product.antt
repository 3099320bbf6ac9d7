-- ===== src/Cli/Product.antt =====
-- The matrix holds every choice of a value from each axis, and nothing else.
use tls_interop_framework.Prelude.{
  Bool, List, [], any, ap, arith, false, flat_map, map, refl, sym, true, ◌&&◌, ◌++◌, ◌||◌, ◌∙◌, ◌∷◌,
  ◌≡◌,
}
use tls_interop_framework.Cli.{build_matrix_combos, combos_of, product}
use tls_interop_framework.Core.Catalog.{CapabilityFile}
use tls_interop_framework.Core.Plan.{matrix_axis_plan}
use tls_interop_framework.Core.Suite.{Yaml}
use tls_interop_framework.Python.Args.{Namespace}
use tls_interop_framework.Python.Result.{>>=-eq-ok, ok, ok-injective}
use tls_interop_framework.Python.Text.{Text, mem, text_eq}

unfoldable pub texts_eq : List Text → List Text → Bool
texts_eq [] [] = true
texts_eq [] (t ∷ ts) = false
texts_eq (s ∷ ss) [] = false
texts_eq (s ∷ ss) (t ∷ ts) = text_eq s t && texts_eq ss ts

-- The tuple holds one value of each axis, in order.
unfoldable pub is_choice : List Text → List (List Text) → Bool
is_choice [] [] = true
is_choice [] (vals ∷ axes) = false
is_choice (v ∷ tup) [] = false
is_choice (v ∷ tup) (vals ∷ axes) = mem v vals && is_choice tup axes

any-append {ℓ} :
    {A : Type ℓ} (p : A → Bool) (xs ys : List A) → any p (xs ++ ys) ≡ (any p xs || any p ys)
any-append p [] ys = refl
any-append p (x ∷ xs) ys = ground (arith, any-append p xs ys)

nil_cons : (v : Text) (tups : List (List Text)) → any (texts_eq []) (map (λ t. v ∷ t) tups) ≡ false
unfolding texts_eq
nil_cons v [] = refl
nil_cons v (t ∷ tups) = nil_cons v tups

nil_choice :
    (vals : List Text) (tups : List (List Text))
    → any (texts_eq []) (flat_map (λ v. map (λ t. v ∷ t) tups) vals) ≡ false
nil_choice [] tups = refl
nil_choice (v ∷ vals) tups =
    any-append (texts_eq []) (map (λ t. v ∷ t) tups) (flat_map (λ v. map (λ t. v ∷ t) tups) vals)
    ∙ ground (arith, nil_cons v tups, nil_choice vals tups)

cons_cons :
    (s v : Text) (tup : List Text) (tups : List (List Text))
    → any (texts_eq (s ∷ tup)) (map (λ t. v ∷ t) tups) ≡ (text_eq s v && any (texts_eq tup) tups)
unfolding texts_eq
cons_cons s v tup [] = ground arith
cons_cons s v tup (t ∷ tups) = ground (arith, cons_cons s v tup tups)

cons_choice :
    (s : Text) (tup : List Text) (vals : List Text) (tups : List (List Text))
    → any (texts_eq (s ∷ tup)) (flat_map (λ v. map (λ t. v ∷ t) tups) vals)
      ≡ (mem s vals && any (texts_eq tup) tups)
unfolding mem
cons_choice s tup [] tups = refl
cons_choice s tup (v ∷ vals) tups =
    any-append (texts_eq (s ∷ tup)) (map (λ t. v ∷ t) tups)
      (flat_map (λ v. map (λ t. v ∷ t) tups) vals)
    ∙ ground (arith, cons_cons s v tup tups, cons_choice s tup vals tups)

product-is_choice :
    (tup : List Text) (axes : List (List Text))
    → any (texts_eq tup) (product axes) ≡ is_choice tup axes
unfolding product is_choice texts_eq
product-is_choice [] [] = refl
product-is_choice (s ∷ tup) [] = refl
product-is_choice [] (vals ∷ axes) = nil_choice vals (product axes)
product-is_choice (s ∷ tup) (vals ∷ axes) =
    cons_choice s tup vals (product axes) ∙ ap (λ b. mem s vals && b) (product-is_choice tup axes)

module _ (read_capabilities : Text → CapabilityFile) (known : List Text)
    (str_nested : Yaml → Text) where
  -- Without suite cases, the matrix of the arguments has the keys of the axis plan, and a tuple is one
  -- of its combinations exactly if it holds one value of each axis of the plan, in order.
  pub build_matrix_combos-is_choice :
      (args : Namespace) (axes matrix : List Text × List (List Text)) (tup : List Text)
      → matrix_axis_plan read_capabilities known args ≡ ok axes
      → build_matrix_combos read_capabilities known str_nested args [] ≡ ok matrix
      → (matrix.0 ≡ axes.0) × (any (texts_eq tup) matrix.1 ≡ is_choice tup axes.1)
  unfolding build_matrix_combos combos_of
  build_matrix_combos-is_choice args axes matrix tup planned built =
      let (plan, e, found) =
        >>=-eq-ok (matrix_axis_plan read_capabilities known args)
          (combos_of read_capabilities known str_nested args []) built in
      let same = ok-injective (sym planned ∙ e) in
      (
        sym (ap (λ m. m.0) (ok-injective found)) ∙ ap (λ a. a.0) (sym same),
        ap (λ m. any (texts_eq tup) m.1) (sym (ok-injective found))
            ∙ product-is_choice tup plan.1
            ∙ ap (λ a. is_choice tup a.1) (sym same),
      )
