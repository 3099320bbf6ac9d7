-- ===== src/Python/Sorted/Laws.antt =====
-- Membership goes through sorting, and a set's list is strictly ascending.
use tls_interop_framework.Prelude.{
  Bool, Bool-cases, List, [], any, ap, arith, false, flat_map, inl, inr, keep, refl, sym, true,
  ◌&&◌, ◌++◌, ◌||◌, ◌∙◌, ◌∷◌, ◌≡◌,
}
use tls_interop_framework.Python.Sorted.{insert_sorted, set_add, sort, sort_set, text_lt}
use tls_interop_framework.Python.Text.{Text, mem, text_eq, text_eq_iff, text_eq_refl}

pub mem-cons : (x y : Text) (ys : List Text) → mem x (y ∷ ys) ≡ (text_eq x y || mem x ys)
unfolding mem
mem-cons x y ys = refl

pub mem-nil : (x : Text) → mem x [] ≡ false
unfolding mem
mem-nil x = refl

pub mem-append : (x : Text) (ys zs : List Text) → mem x (ys ++ zs) ≡ (mem x ys || mem x zs)
unfolding mem
mem-append x [] zs = refl
mem-append x (y ∷ ys) zs = ground (arith, mem-append x ys zs)

pub mem-flat_map {ℓ} :
    {A : Type ℓ} (x : Text) (f : A → List Text) (xs : List A)
    → mem x (flat_map f xs) ≡ any (λ a. mem x (f a)) xs
mem-flat_map x f [] = mem-nil x
mem-flat_map x f (a ∷ xs) =
    mem-append x (f a) (flat_map f xs) ∙ ap (λ b. mem x (f a) || b) (mem-flat_map x f xs)

pub mem-keep : (x : Text) (p : Text → Bool) (ys : List Text) → mem x (keep p ys) ≡ (mem x ys && p x)
unfolding mem
mem-keep x p [] = refl
mem-keep x p (y ∷ ys) = elim (Bool-cases (text_eq x y)) [
  | inl e ↦ let same = (text_eq_iff x y).0 e in ground (arith, mem-keep x p ys, ap p same)
  | inr n ↦ ground (arith, mem-keep x p ys)
]

pub mem-insert_sorted :
    (x y : Text) (ys : List Text) → mem x (insert_sorted y ys) ≡ (text_eq x y || mem x ys)
unfolding insert_sorted mem
mem-insert_sorted x y [] = refl
mem-insert_sorted x y (z ∷ ys) = ground (arith, mem-insert_sorted x y ys)

pub mem-sort : (x : Text) (ys : List Text) → mem x (sort ys) ≡ mem x ys
unfolding sort
mem-sort x [] = refl
mem-sort x (y ∷ ys) =
    mem-insert_sorted x y (sort ys)
    ∙ ap (λ b. text_eq x y || b) (mem-sort x ys)
    ∙ sym (mem-cons x y ys)

pub mem-set_add : (x y : Text) (ys : List Text) → mem x (set_add y ys) ≡ (text_eq x y || mem x ys)
unfolding set_add mem
mem-set_add x y [] = refl
mem-set_add x y (z ∷ ys) = elim (Bool-cases (text_eq y z)) [
  | inl e ↦ rw ((text_eq_iff y z).0 e) (rw text_eq_refl (ground arith))
  | inr n ↦ ground (arith, mem-set_add x y ys)
]

pub mem-sort_set : (x : Text) (ys : List Text) → mem x (sort_set ys) ≡ mem x ys
unfolding sort_set
mem-sort_set x [] = refl
mem-sort_set x (y ∷ ys) =
    mem-set_add x y (sort_set ys)
    ∙ ap (λ b. text_eq x y || b) (mem-sort_set x ys)
    ∙ sym (mem-cons x y ys)

-- Of two texts that are not equal one is less than the other.
pub text_lt_total : (s t : Text) → text_eq s t ≡ false → text_lt t s ≡ false → text_lt s t ≡ true
unfolding text_lt text_eq
text_lt_total [] [] e h = cc
text_lt_total [] (d ∷ t) e h = refl
text_lt_total (c ∷ s) [] e h = cc
text_lt_total (c ∷ s) (d ∷ t) e h = ground (arith, text_lt_total s t)

-- Each element is less than the next, so none occurs twice.
abbrev pub IsAscending : List Text → Type 0
IsAscending [] = Unit
IsAscending (x ∷ []) = Unit
IsAscending (x ∷ y ∷ ys) = (text_lt x y ≡ true) × IsAscending (y ∷ ys)

IsAscending-tail : (x : Text) (ys : List Text) → IsAscending (x ∷ ys) → IsAscending ys
IsAscending-tail x [] h = tt
IsAscending-tail x (y ∷ ys) h = h.1

set_add-IsAscending_after :
    (z x : Text) (ys : List Text)
    → text_lt z x ≡ true
    → IsAscending (z ∷ ys)
    → IsAscending (set_add x ys)
    → IsAscending (z ∷ set_add x ys)
unfolding set_add
set_add-IsAscending_after z x [] lt h k = (lt, tt)
set_add-IsAscending_after z x (y ∷ ys) lt h k = elim (Bool-cases (text_eq x y)) [
  | inl e ↦ rw e h
  | inr n ↦ elim (Bool-cases (text_lt y x)) [
    | inl below ↦ rw n (rw below (h.0, rw below at (rw n at k)))
    | inr above ↦ rw n (rw above (lt, rw above at (rw n at k)))
  ]
]

pub set_add-IsAscending : (x : Text) (ys : List Text) → IsAscending ys → IsAscending (set_add x ys)
unfolding set_add
set_add-IsAscending x [] h = tt
set_add-IsAscending x (y ∷ ys) h = elim (Bool-cases (text_eq x y)) [
  | inl e ↦ rw e h
  | inr n ↦ elim (Bool-cases (text_lt y x)) [
    | inl below ↦ rw n (
        rw below (
          set_add-IsAscending_after y x ys below h
            (set_add-IsAscending x ys (IsAscending-tail y ys h))))
    | inr above ↦ rw n (rw above (text_lt_total x y n above, h))
  ]
]

pub sort_set-IsAscending : (ys : List Text) → IsAscending (sort_set ys)
unfolding sort_set
sort_set-IsAscending [] = tt
sort_set-IsAscending (y ∷ ys) = set_add-IsAscending y (sort_set ys) (sort_set-IsAscending ys)

pub text_lt_trans : (s t u : Text) → text_lt s t ≡ true → text_lt t u ≡ true → text_lt s u ≡ true
unfolding text_lt
text_lt_trans [] [] u h k = cc
text_lt_trans [] (d ∷ t) [] h k = cc
text_lt_trans [] (d ∷ t) (e ∷ u) h k = refl
text_lt_trans (c ∷ s) [] u h k = cc
text_lt_trans (c ∷ s) (d ∷ t) [] h k = cc
text_lt_trans (c ∷ s) (d ∷ t) (e ∷ u) h k = ground (arith, text_lt_trans s t u)

-- A later element of an ascending list is greater than the head.
IsAscending-skip : (x y : Text) (ys : List Text) → IsAscending (x ∷ y ∷ ys) → IsAscending (x ∷ ys)
IsAscending-skip x y [] h = tt
IsAscending-skip x y (z ∷ ys) h = (text_lt_trans x y z h.0 h.1.0, h.1.1)

keep-IsAscending_after :
    (x : Text) (p : Text → Bool) (ys : List Text)
    → IsAscending (x ∷ ys)
    → IsAscending (x ∷ keep p ys)
keep-IsAscending_after x p [] h = tt
keep-IsAscending_after x p (y ∷ ys) h = elim (Bool-cases (p y)) [
  | inl e ↦ rw e (h.0, keep-IsAscending_after y p ys h.1)
  | inr n ↦ rw n (keep-IsAscending_after x p ys (IsAscending-skip x y ys h))
]

-- A filtered ascending list is ascending.
pub keep-IsAscending : (p : Text → Bool) (ys : List Text) → IsAscending ys → IsAscending (keep p ys)
keep-IsAscending p [] h = tt
keep-IsAscending p (y ∷ ys) h = elim (Bool-cases (p y)) [
  | inl e ↦ rw e (keep-IsAscending_after y p ys h)
  | inr n ↦ rw n (keep-IsAscending p ys (IsAscending-tail y ys h))
]
