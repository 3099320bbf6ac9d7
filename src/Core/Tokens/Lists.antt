-- ===== src/Core/Tokens/Lists.antt =====
-- Comma lists: what `split_csv_tokens` returns, and that it reads back what was joined.
use tls_interop_framework.Prelude.{
  All, All-of, Bool-cases, List, [], ap, false, inl, inr, is_empty, keep, map, not, refl, sym, ◌∙◌,
  ◌∷◌, ◌≡◌,
}
use tls_interop_framework.Core.Tokens.{split_csv_tokens, stripped}
use tls_interop_framework.Python.Text.{Text, has_char, is_space, join, lstrip, rstrip, split, strip}
use tls_interop_framework.Python.Text.Split.{map-strip-split-strip, split-join}
use tls_interop_framework.Python.Text.Strip.{strip-strip}

pub stripped-eq : (ps : List Text) → stripped ps ≡ keep (λ p. not (is_empty p)) (map strip ps)
unfolding stripped
stripped-eq [] = refl
stripped-eq (p ∷ ps) = elim (Bool-cases (is_empty (strip p))) [
  | inl e ↦ rw e (stripped-eq ps)
  | inr n ↦ rw n (ap (λ qs. strip p ∷ qs) (stripped-eq ps))
]

comma_plain : is_space b',' ≡ false
unfolding is_space
comma_plain = refl

pub split_csv_tokens-strip : (s : Text) → split_csv_tokens (strip s) ≡ split_csv_tokens s
unfolding split_csv_tokens
split_csv_tokens-strip s =
    stripped-eq (split b',' (strip s))
    ∙ ap (keep (λ p. not (is_empty p))) (map-strip-split-strip b',' comma_plain s)
    ∙ sym (stripped-eq (split b',' s))

-- A token as the catalog has it: not blank, no spaces around it, no comma in it.
abbrev pub IsToken : Text → Type 0
IsToken t = (strip t ≡ t) × (is_empty t ≡ false) × (has_char b',' t ≡ false)

pub stripped-IsToken :
    (ts : List Text) → All (λ t. (strip t ≡ t) × (is_empty t ≡ false)) ts → stripped ts ≡ ts
unfolding stripped
stripped-IsToken [] h = refl
stripped-IsToken (t ∷ ts) ((trimmed, full), rest) =
    rw trimmed (rw full (ap (λ us. t ∷ us) (stripped-IsToken ts rest)))

-- A list of tokens, none of them blank or with a comma or outer spaces, is read back from its
-- comma-separated text, the empty list from the empty text.
pub split_csv_tokens-join :
    (ts : List Text) → All IsToken ts → split_csv_tokens (join (b',' ∷ []) ts) ≡ ts
unfolding split_csv_tokens
split_csv_tokens-join [] h = unfold join split stripped strip lstrip rstrip in refl
split_csv_tokens-join (t ∷ ts) h =
    ap stripped (split-join b',' t ts (All-of (t ∷ ts) (λ u k. k.2) h))
    ∙ stripped-IsToken (t ∷ ts) (All-of (t ∷ ts) (λ u k. (k.0, k.1)) h)

-- Every token that is read is stripped and not empty.
pub stripped-All : (ps : List Text) → All (λ t. (strip t ≡ t) × (is_empty t ≡ false)) (stripped ps)
unfolding stripped
stripped-All [] = tt
stripped-All (p ∷ ps) = elim (Bool-cases (is_empty (strip p))) [
  | inl e ↦ rw e (stripped-All ps)
  | inr n ↦ rw n ((strip-strip p, n), stripped-All ps)
]
