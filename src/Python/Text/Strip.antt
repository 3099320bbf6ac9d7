-- ===== src/Python/Text/Strip.antt =====
-- `strip`: it may be repeated, its two sides commute, and it goes through `split` by a character
-- that is no space.
use tls_interop_framework.Prelude.{
  Bool-cases, [], ap, false, inl, inr, refl, true, ℕ, ◌∙◌, ◌∷◌, ◌≡◌,
}
use tls_interop_framework.Python.Text.{Text, is_space, lstrip, rstrip, rstrip_onto, strip}

pub lstrip-lstrip : (s : Text) → lstrip (lstrip s) ≡ lstrip s
unfolding lstrip
lstrip-lstrip [] = refl
lstrip-lstrip (c ∷ s) = elim (Bool-cases (is_space c)) [
  | inl sp ↦ rw sp (lstrip-lstrip s)
  | inr ns ↦ rw ns (rw ns)
]

rstrip_onto-rstrip_onto :
    (c : ℕ) (r : Text) → rstrip r ≡ r → rstrip (rstrip_onto c r) ≡ rstrip_onto c r
unfolding rstrip
rstrip_onto-rstrip_onto c [] h = elim (Bool-cases (is_space c)) [
  | inl sp ↦ rw sp
  | inr ns ↦ rw ns (rw ns)
]
rstrip_onto-rstrip_onto c (d ∷ r) h = rw h

pub rstrip-rstrip : (s : Text) → rstrip (rstrip s) ≡ rstrip s
unfolding rstrip
rstrip-rstrip [] = refl
rstrip-rstrip (c ∷ s) = rstrip_onto-rstrip_onto c (rstrip s) (rstrip-rstrip s)

lstrip-rstrip_onto_space :
    (c : ℕ) (r : Text) → is_space c ≡ true → lstrip (rstrip_onto c r) ≡ lstrip r
unfolding rstrip_onto lstrip
lstrip-rstrip_onto_space c [] h = rw h
lstrip-rstrip_onto_space c (d ∷ r) h = rw h

lstrip-rstrip_onto_other :
    (c : ℕ) (r : Text) → is_space c ≡ false → lstrip (rstrip_onto c r) ≡ rstrip_onto c r
unfolding rstrip_onto lstrip
lstrip-rstrip_onto_other c [] h = rw h (rw h)
lstrip-rstrip_onto_other c (d ∷ r) h = rw h

pub lstrip-rstrip : (s : Text) → lstrip (rstrip s) ≡ rstrip (lstrip s)
unfolding lstrip rstrip
lstrip-rstrip [] = refl
lstrip-rstrip (c ∷ s) = elim (Bool-cases (is_space c)) [
  | inl sp ↦ rw sp (lstrip-rstrip_onto_space c (rstrip s) sp ∙ lstrip-rstrip s)
  | inr ns ↦ rw ns (lstrip-rstrip_onto_other c (rstrip s) ns)
]

-- Stripping twice is stripping once.
pub strip-strip : (s : Text) → strip (strip s) ≡ strip s
unfolding strip
strip-strip s = rw lstrip-rstrip (rw rstrip-rstrip (ap rstrip (lstrip-lstrip s)))

pub lstrip-strip : (s : Text) → lstrip (strip s) ≡ strip s
unfolding strip
lstrip-strip s = lstrip-rstrip (lstrip s) ∙ ap rstrip (lstrip-lstrip s)

pub rstrip-strip : (s : Text) → rstrip (strip s) ≡ strip s
unfolding strip
rstrip-strip s = rstrip-rstrip (lstrip s)
