-- ===== src/Python/Sorted.antt =====
-- `sorted` on texts, and sets of texts as their sorted lists.
pub mod Laws
use tls_interop_framework.Prelude.{Bool, List, [], false, if◌then◌else◌, ltb, true, ◌==◌, ◌∷◌}
use tls_interop_framework.Python.Text.{Text, text_eq}

-- The order of `str`: by code points, a prefix first.
unfoldable pub text_lt : Text → Text → Bool
text_lt [] [] = false
text_lt [] (d ∷ t) = true
text_lt (c ∷ s) [] = false
text_lt (c ∷ s) (d ∷ t) = if c == d then text_lt s t else ltb c d

unfoldable pub insert_sorted : Text → List Text → List Text
insert_sorted x [] = x ∷ []
insert_sorted x (y ∷ ys) =
    let rest = insert_sorted x ys in if text_lt y x then y ∷ rest else x ∷ y ∷ ys

-- `sorted(texts)` of a list.
unfoldable pub sort : List Text → List Text
sort [] = []
sort (x ∷ xs) = insert_sorted x (sort xs)

-- `add` on a set that is held as a strictly ascending list.
unfoldable pub set_add : Text → List Text → List Text
set_add x [] = x ∷ []
set_add x (y ∷ ys) =
    let rest = set_add x ys in
    if text_eq x y then y ∷ ys else if text_lt y x then y ∷ rest else x ∷ y ∷ ys

-- `sorted(set(texts))`
unfoldable pub sort_set : List Text → List Text
sort_set [] = []
sort_set (x ∷ xs) = set_add x (sort_set xs)
