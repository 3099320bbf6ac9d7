-- ===== src/Prelude/Lists.antt =====
-- Lists with Boolean tests, and lists measured by native numbers.
use Prim.Native.Nat.{ℕ, zero, suc, ◌+◌}
use mathlib.Core.Path.{◌≡◌, refl}
use mathlib.Core.Bool.{Bool, true, false, ◌&&◌, ◌||◌}
use mathlib.Core.List.{List, [], ◌∷◌, ◌++◌}
use mathlib.Core.Option.{Option, none, some}
use native.Mathlib.Omega.{arith}
use tls_interop_framework.Prelude.Tests.{if◌then◌else◌}

module _ {ℓ} {A : Type ℓ} where
  abbrev pub length : List A → ℕ
  length [] = 0
  length (x ∷ xs) = suc (length xs)

  abbrev pub any : (A → Bool) → List A → Bool
  any p [] = false
  any p (x ∷ xs) = p x || any p xs

  abbrev pub all : (A → Bool) → List A → Bool
  all p [] = true
  all p (x ∷ xs) = p x && all p xs

  -- The comprehension `[x for x in xs if p(x)]`.
  abbrev pub keep : (A → Bool) → List A → List A
  keep p [] = []
  keep p (x ∷ xs) = let rest = keep p xs in if p x then x ∷ rest else rest

  abbrev pub is_empty : List A → Bool
  is_empty [] = true
  is_empty (x ∷ xs) = false

  -- `a or b` on optional values.
  abbrev pub or_else : Option A → Option A → Option A
  or_else none b = b
  or_else (some a) b = some a

  -- The first value that a loop returns.
  abbrev pub first_some {κ} : {B : Type κ} → (B → Option A) → List B → Option A
  first_some f [] = none
  first_some f (x ∷ xs) = or_else (f x) (first_some f xs)

  abbrev pub is_some : Option A → Bool
  is_some none = false
  is_some (some a) = true

  -- A predicate on every element.
  abbrev pub All {κ} : (A → Type κ) → List A → Type κ
  All P [] = Unit
  All P (x ∷ xs) = P x × All P xs

  pub length-append : (xs ys : List A) → length (xs ++ ys) ≡ length xs + length ys
  length-append [] ys = omega arith
  length-append (x ∷ xs) ys = omega (arith, length-append xs ys)

-- The results of a loop over the list, one after the other.
abbrev pub flat_map {ℓ κ} : {A : Type ℓ} {B : Type κ} → (A → List B) → List A → List B
flat_map f [] = []
flat_map f (x ∷ xs) = f x ++ flat_map f xs

abbrev pub drop {ℓ} : {A : Type ℓ} → ℕ → List A → List A
drop zero xs = xs
drop (suc n) [] = []
drop (suc n) (x ∷ xs) = drop n xs

pub or_else-none {ℓ} : {A : Type ℓ} (a b : Option A) → or_else a b ≡ none → (a ≡ none) × (b ≡ none)
or_else-none none b h = (refl, h)
or_else-none (some x) b h = cc

pub All-of {ℓ κ υ} :
    {A : Type ℓ} {P : A → Type κ} {Q : A → Type υ} (xs : List A)
    → ((a : A) → P a → Q a)
    → All P xs
    → All Q xs
All-of [] f h = tt
All-of (x ∷ xs) f h = (f x h.0, All-of xs f h.1)

-- A loop that returns nothing found nothing at any element.
pub first_some-none {ℓ κ} :
    {A : Type ℓ} {B : Type κ} (f : B → Option A) (xs : List B)
    → first_some f xs ≡ none
    → All (λ x. f x ≡ none) xs
first_some-none f [] h = tt
first_some-none f (x ∷ xs) h =
    let (p, q) = or_else-none (f x) (first_some f xs) h in (p, first_some-none f xs q)
