-- ===== src/Core/Identity/Prefixes.antt =====
-- The identity that ECDSA schemes select.
use tls_interop_framework.Prelude.{
  Bool-cases, List, [], arith, false, if◌then◌else◌, inl, inr, is_empty, refl, true, ◌∷◌, ◌≡◌,
}
use tls_interop_framework.Core.Identity.{
  first_rule, get_cert_prefix_for_scheme, get_cert_prefix_for_schemes,
}
use tls_interop_framework.Python.Text.{
  Text, contains, lit, lower, remove_char, replace_char, starts_with, strip,
}
use mathlib.Core.Path.{subst}

-- The name of a scheme as the rules see it.
abbrev pub rule_token : Text → Text
rule_token scheme = replace_char b'_' b'-' (remove_char 32 (lower (strip scheme)))

no_text : (t : Text) → is_empty t ≡ true → t ≡ []
no_text [] h = refl
no_text (c ∷ t) h = absurd (ground arith)

-- A name that holds one of the rules' words is not blank.
named :
    (scheme : Text)
    → contains (lit "ecdsa") (rule_token scheme) ≡ true
    → is_empty (strip scheme) ≡ false
unfolding contains starts_with lit lower remove_char replace_char
named scheme h = elim (Bool-cases (is_empty (strip scheme))) [
  | inl blank ↦ absurd (
      ground (
        arith,
        subst
            (λ t. contains (lit "ecdsa") (replace_char b'_' b'-' (remove_char 32 (lower t))) ≡ true)
            (no_text (strip scheme) blank) h,
      ))
  | inr full ↦ full
]

full_token : (tok : Text) → contains (lit "ecdsa") tok ≡ true → is_empty tok ≡ false
unfolding contains starts_with lit
full_token [] h = absurd (ground arith)
full_token (c ∷ tok) h = refl

-- A first scheme whose name holds `ecdsa`, and no Edwards curve, decides for the ECDSA identity of the
-- curve that it names, P-256 where it names none. It never decides for the identity of DSA, although
-- `dsa` stands in `ecdsa`.
pub schemes-ecdsa :
    (scheme : Text) (schemes : List Text)
    → contains (lit "ecdsa") (rule_token scheme) ≡ true
    → contains (lit "ed25519") (rule_token scheme) ≡ false
    → contains (lit "ed448") (rule_token scheme) ≡ false
    → get_cert_prefix_for_schemes (scheme ∷ schemes) ≡ (
        if contains (lit "secp521") (rule_token scheme)
        then lit "ecdsa_p521"
        else if contains (lit "secp384") (rule_token scheme)
        then lit "ecdsa_p384"
        else lit "ecdsa_p256")
unfolding get_cert_prefix_for_schemes get_cert_prefix_for_scheme first_rule
schemes-ecdsa scheme schemes h no_25519 no_448 =
    rw (named scheme h)
      (rw (full_token (rule_token scheme) h) (rw no_25519 (rw no_448 (rw h refl))))
