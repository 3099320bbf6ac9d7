-- ===== src/Python/Text/Split.antt =====
-- `split` by a character that is no space, seen through `strip` of the whole and of the parts.
use tls_interop_framework.Prelude.{
  ==_iff, All, Bool-cases, List, [], ap, arith, false, if◌then◌else◌, inl, inr, map, refl, sym,
  true, ℕ, ◌++◌, ◌==◌, ◌∙◌, ◌∷◌, ◌≡◌,
}
use tls_interop_framework.Python.Text.{
  Text, cons_head, has_char, is_space, join, lstrip, rstrip, rstrip_onto, split, strip,
}
use tls_interop_framework.Python.Text.Strip.{lstrip-rstrip}

-- Sets the head of the parts in front.
abbrev onto_head : ℕ → List Text → List Text
onto_head c [] = rstrip_onto c [] ∷ []
onto_head c (q ∷ qs) = rstrip_onto c q ∷ qs

map-rstrip-cons_head :
    (c : ℕ) (ps : List Text) → map rstrip (cons_head c ps) ≡ onto_head c (map rstrip ps)
unfolding cons_head rstrip
map-rstrip-cons_head c [] = refl
map-rstrip-cons_head c (p ∷ ps) = refl

-- The parts after `rstrip`, computed from the front.
abbrev next_parts : ℕ → ℕ → List Text → List Text
next_parts sep c qs = if c == sep then [] ∷ qs else onto_head c qs

map-rstrip-split-cons :
    (sep c : ℕ) (s : Text)
    → map rstrip (split sep (c ∷ s)) ≡ next_parts sep c (map rstrip (split sep s))
unfolding split rstrip
map-rstrip-split-cons sep c s = elim (Bool-cases (c == sep)) [
  | inl e ↦ rw e
  | inr n ↦ rw n (map-rstrip-cons_head c (split sep s))
]

space-ne-sep : (sep c : ℕ) → is_space sep ≡ false → is_space c ≡ true → (c == sep) ≡ false
space-ne-sep sep c hs hc = elim (Bool-cases (c == sep)) [
  | inl e ↦ cc ((==_iff c sep).0 e, hs, hc)
  | inr n ↦ n
]

module _ (sep : ℕ) (plain : is_space sep ≡ false) where
  parts_onto :
      (c : ℕ) (r : Text) (qs : List Text)
      → map rstrip (split sep r) ≡ qs
      → map rstrip (split sep (rstrip_onto c r)) ≡ next_parts sep c qs
  unfolding rstrip_onto
  parts_onto c (d ∷ r) qs h = map-rstrip-split-cons sep c (d ∷ r) ∙ ap (next_parts sep c) h
  parts_onto c [] qs h = elim (Bool-cases (is_space c)) [
    | inl sp ↦ rw sp (rw (space-ne-sep sep c plain sp) (rw (← h) (unfold split rstrip in rw sp)))
    | inr ns ↦ rw ns (map-rstrip-split-cons sep c [] ∙ ap (next_parts sep c) h)
  ]

  pub map-rstrip-split-rstrip :
      (s : Text) → map rstrip (split sep (rstrip s)) ≡ map rstrip (split sep s)
  unfolding rstrip
  map-rstrip-split-rstrip [] = refl
  map-rstrip-split-rstrip (c ∷ s) =
      parts_onto c (rstrip s) (map rstrip (split sep s)) (map-rstrip-split-rstrip s)
      ∙ sym (map-rstrip-split-cons sep c s)

split-cons : (sep : ℕ) (s : Text) → (p : Text) × (ps : List Text) × (split sep s ≡ p ∷ ps)
unfolding split cons_head
split-cons sep [] = ([], [], refl)
split-cons sep (c ∷ s) = elim (Bool-cases (c == sep)) [
  | inl e ↦ ([], split sep s, rw e)
  | inr n ↦ let (p, ps, shape) = split-cons sep s in (c ∷ p, ps, rw n (rw shape))
]

map-lstrip-cons_head :
    (c : ℕ) (ps : List Text) {q : Text} {qs : List Text}
    → is_space c ≡ true
    → ps ≡ q ∷ qs
    → map lstrip (cons_head c ps) ≡ map lstrip ps
unfolding cons_head lstrip
map-lstrip-cons_head c [] h e = cc
map-lstrip-cons_head c (p ∷ ps) h e = rw h

map-strip-eq_lr : (ps : List Text) → map strip ps ≡ map lstrip (map rstrip ps)
unfolding strip
map-strip-eq_lr [] = refl
map-strip-eq_lr (p ∷ ps) = cc (lstrip-rstrip p, map-strip-eq_lr ps)

map-strip-eq_rl : (ps : List Text) → map strip ps ≡ map rstrip (map lstrip ps)
unfolding strip
map-strip-eq_rl [] = refl
map-strip-eq_rl (p ∷ ps) = ap (λ qs. rstrip (lstrip p) ∷ qs) (map-strip-eq_rl ps)

module _ (sep : ℕ) (plain : is_space sep ≡ false) where
  map-lstrip-split-lstrip :
      (s : Text) → map lstrip (split sep (lstrip s)) ≡ map lstrip (split sep s)
  unfolding lstrip
  map-lstrip-split-lstrip [] = refl
  map-lstrip-split-lstrip (c ∷ s) = elim (Bool-cases (is_space c)) [
    | inl sp ↦
        let (p, ps, shape) = split-cons sep s in
        rw sp (
          map-lstrip-split-lstrip s
          ∙ sym (
              unfold split in
              rw (space-ne-sep sep c plain sp) (map-lstrip-cons_head c (split sep s) sp shape)))
    | inr ns ↦ rw ns
  ]

  -- Spaces around the whole do not show in the stripped parts.
  pub map-strip-split-strip : (s : Text) → map strip (split sep (strip s)) ≡ map strip (split sep s)
  unfolding strip
  map-strip-split-strip s =
      map-strip-eq_lr (split sep (rstrip (lstrip s)))
      ∙ ap (map lstrip) (map-rstrip-split-rstrip sep plain (lstrip s))
      ∙ sym (map-strip-eq_lr (split sep (lstrip s)))
      ∙ map-strip-eq_rl (split sep (lstrip s))
      ∙ ap (map rstrip) (map-lstrip-split-lstrip s)
      ∙ sym (map-strip-eq_rl (split sep s))

-- Parts without the separator are found again.
split-eq-singleton : (sep : ℕ) (t : Text) → has_char sep t ≡ false → split sep t ≡ t ∷ []
unfolding split has_char cons_head
split-eq-singleton sep [] h = refl
split-eq-singleton sep (c ∷ t) h = ground (arith, split-eq-singleton sep t)

split-append :
    (sep : ℕ) (t r : Text) → has_char sep t ≡ false → split sep (t ++ sep ∷ r) ≡ t ∷ split sep r
unfolding split has_char cons_head
split-append sep [] r h = ground arith
split-append sep (c ∷ t) r h = ground (arith, split-append sep t r)

pub split-join :
    (sep : ℕ) (t : Text) (ts : List Text)
    → All (λ u. has_char sep u ≡ false) (t ∷ ts)
    → split sep (join (sep ∷ []) (t ∷ ts)) ≡ t ∷ ts
unfolding join
split-join sep t [] h = split-eq-singleton sep t h.0
split-join sep t (u ∷ ts) h =
    split-append sep t (join (sep ∷ []) (u ∷ ts)) h.0 ∙ ap (λ us. t ∷ us) (split-join sep u ts h.1)
