-- ===== src/Core/Tokens/Asymmetric.antt =====
-- SERVER:CLIENT values are taken apart as they were put together.
use tls_interop_framework.Prelude.{
  Bool-cases, [], ap, arith, false, inl, inr, length, refl, sym, true, ℕ, ◌++◌, ◌∙◌, ◌∷◌, ◌≡◌, ◌≤◌,
}
use tls_interop_framework.Core.Tokens.{parse_asymmetric}
use tls_interop_framework.Python.Text.{Text, has_char, is_space, lstrip, rstrip, split_first, strip}
use tls_interop_framework.Python.Text.Strip.{lstrip-strip, rstrip-strip}

length-lstrip : (s : Text) → length (lstrip s) ≤ length s
unfolding lstrip
length-lstrip [] = omega arith
length-lstrip (c ∷ s) = ground (arith, length-lstrip s)

lstrip-head : (c : ℕ) (s : Text) → lstrip (c ∷ s) ≡ c ∷ s → is_space c ≡ false
unfolding lstrip
lstrip-head c s h = elim (Bool-cases (is_space c)) [
  | inl sp ↦ absurd (omega (arith, length-lstrip s, ap (length {A = ℕ}) (rw sp at h)))
  | inr ns ↦ ns
]

lstrip-append : (c : ℕ) (a r : Text) → is_space c ≡ false → lstrip ((c ∷ a) ++ r) ≡ (c ∷ a) ++ r
unfolding lstrip
lstrip-append c a r h = rw h

-- A text in front of one that ends without a space.
rstrip-append :
    (a : Text) (c : ℕ) (r : Text) → rstrip (c ∷ r) ≡ c ∷ r → rstrip (a ++ c ∷ r) ≡ a ++ c ∷ r
unfolding rstrip
rstrip-append [] c r h = h
rstrip-append (d ∷ []) c r h = rw (rstrip-append [] c r h)
rstrip-append (d ∷ e ∷ a) c r h = rw (rstrip-append (e ∷ a) c r h)

strip-lstrip : (s : Text) → strip s ≡ s → lstrip s ≡ s
strip-lstrip s h = ap lstrip (sym h) ∙ lstrip-strip s ∙ h

strip-rstrip : (s : Text) → strip s ≡ s → rstrip s ≡ s
strip-rstrip s h = ap rstrip (sym h) ∙ rstrip-strip s ∙ h

rstrip-colon : (b : Text) → strip b ≡ b → rstrip (b':' ∷ b) ≡ b':' ∷ b
rstrip-colon [] h = unfold rstrip is_space in refl
rstrip-colon (c ∷ b) h = let e = strip-rstrip (c ∷ b) h in unfold rstrip in rw e

strip-asymmetric : (a b : Text) → strip a ≡ a → strip b ≡ b → strip (a ++ b':' ∷ b) ≡ a ++ b':' ∷ b
strip-asymmetric [] b ha hb = unfold strip lstrip is_space in rstrip-colon b hb
strip-asymmetric (c ∷ a) b ha hb =
    let plain = lstrip-head c a (strip-lstrip (c ∷ a) ha) in
    unfold strip in
    rw (lstrip-append c a (b':' ∷ b) plain) (rstrip-append (c ∷ a) b':' b (rstrip-colon b hb))

split_first-append :
    (sep : ℕ) (a b : Text) → has_char sep a ≡ false → split_first sep (a ++ sep ∷ b) ≡ (a, b)
unfolding split_first has_char
split_first-append sep [] b h = ground arith
split_first-append sep (c ∷ a) b h = ground (arith, split_first-append sep a b)

has_char-append : (sep : ℕ) (a b : Text) → has_char sep (a ++ sep ∷ b) ≡ true
unfolding has_char
has_char-append sep [] b = ground arith
has_char-append sep (c ∷ a) b = ground (arith, has_char-append sep a b)

-- Two stripped sides, the first without a colon, are read back from SERVER:CLIENT. The second side
-- may hold colons, and either may be empty.
pub parse_asymmetric-append :
    (a b : Text)
    → strip a ≡ a
    → strip b ≡ b
    → has_char b':' a ≡ false
    → parse_asymmetric (a ++ b':' ∷ b) ≡ (a, b)
unfolding parse_asymmetric
parse_asymmetric-append a b ha hb plain =
    rw (strip-asymmetric a b ha hb)
      (rw (has_char-append b':' a b) (rw (split_first-append b':' a b plain) (rw ha (rw hb))))
