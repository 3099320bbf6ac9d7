-- ===== src/Python/Args/Decimal.antt =====
-- `int` reads back what `str` writes of a number.
use tls_interop_framework.Prelude.{
  All, Bool-cases, [], ap, arith, false, inl, inr, is_empty, ltb, pos, refl, some, suc, true, zero,
  ℕ, ◌%◌, ◌+◌, ◌/◌, ◌<◌, ◌∙◌, ◌∷◌, ◌≡◌,
}
use tls_interop_framework.Python.Args.{int_of_text, is_digit, read_digits, read_signed}
use tls_interop_framework.Python.Json.{decimal, digits}
use tls_interop_framework.Python.Text.{Text, is_space, lstrip, rstrip, rstrip_onto, strip}
use mathlib.Core.Option

read_digits-digits :
    (f n : ℕ) (out : Text) → n < f → read_digits 0 false (digits f n out) ≡ read_digits n true out
unfolding read_digits digits is_digit
read_digits-digits zero n out h = absurd (omega arith)
read_digits-digits (suc f) n out h = elim (Bool-cases (ltb n 10)) [
  | inl small ↦ ground arith
  | inr large ↦ ground (arith, read_digits-digits f (n / 10) ((48 + n % 10) ∷ out))
]

-- Every character is a decimal digit.
abbrev pub AllDigits : Text → Type 0
AllDigits s = All (λ c. is_digit c ≡ true) s

digits-AllDigits : (f n : ℕ) (out : Text) → n < f → AllDigits out → AllDigits (digits f n out)
unfolding digits is_digit
digits-AllDigits zero n out h a = absurd (omega arith)
digits-AllDigits (suc f) n out h a = elim (Bool-cases (ltb n 10)) [
  | inl small ↦ rw (small, digits) (ground arith, a)
  | inr large ↦
      rw (large, digits)
        (digits-AllDigits f (n / 10) ((48 + n % 10) ∷ out) (ground arith) (ground arith, a))
]

pub decimal-AllDigits : (n : ℕ) → AllDigits (decimal n)
unfolding decimal
decimal-AllDigits n = digits-AllDigits (suc n) n [] (omega arith) tt

digit_no_space : (c : ℕ) → is_digit c ≡ true → is_space c ≡ false
unfolding is_digit is_space
digit_no_space c h = ground arith

rstrip-AllDigits : (s : Text) → AllDigits s → rstrip s ≡ s
unfolding rstrip rstrip_onto
rstrip-AllDigits [] h = refl
rstrip-AllDigits (c ∷ []) h = rw (digit_no_space c h.0) refl
rstrip-AllDigits (c ∷ d ∷ s) h = rw (rstrip-AllDigits (d ∷ s) h.1) refl

pub strip-AllDigits : (s : Text) → AllDigits s → strip s ≡ s
unfolding strip lstrip rstrip
strip-AllDigits [] h = refl
strip-AllDigits (c ∷ s) h = rw (digit_no_space c h.0) (rstrip-AllDigits (c ∷ s) h)

read_signed-AllDigits :
    (s : Text) → AllDigits s → read_signed s ≡ Option.map pos (read_digits 0 false s)
unfolding read_signed is_digit read_digits
read_signed-AllDigits [] h = refl
read_signed-AllDigits (c ∷ s) h = ground (arith, h.0)

pub int_of_text-decimal : (n : ℕ) → int_of_text (decimal n) ≡ some (pos n)
unfolding int_of_text decimal read_digits
int_of_text-decimal n =
    ap read_signed (strip-AllDigits (decimal n) (decimal-AllDigits n))
    ∙ read_signed-AllDigits (decimal n) (decimal-AllDigits n)
    ∙ ap (Option.map pos) (read_digits-digits (suc n) n [] (omega arith))

digits-nonempty : (f n : ℕ) (out : Text) → n < f → is_empty (digits f n out) ≡ false
unfolding digits
digits-nonempty zero n out h = absurd (omega arith)
digits-nonempty (suc f) n out h = elim (Bool-cases (ltb n 10)) [
  | inl small ↦ rw (small, digits) refl
  | inr large ↦ rw (large, digits) (digits-nonempty f (n / 10) ((48 + n % 10) ∷ out) (ground arith))
]

pub decimal-nonempty : (n : ℕ) → is_empty (decimal n) ≡ false
unfolding decimal
decimal-nonempty n = digits-nonempty (suc n) n [] (omega arith)
