-- ===== src/Wrappers/Translation/Complete.antt =====
-- What the checks of a cell accept, the translations of the wrappers can express.
pub mod Backends
use tls_interop_framework.Prelude.{
  All, Bool, Bool-cases, List, [], and_true, arith, false, inl, inr, is_empty, is_some, refl, some,
  sym, true, ◌&&◌, ◌||◌, ◌∷◌, ◌≡◌,
}
use tls_interop_framework.Core.Catalog.{
  capability_dimension_name, capability_token_supported, meta_keys, psk_material, supports_token,
}
use tls_interop_framework.Core.Tokens.{TlsMode, norm_catalog_token, stripped}
use tls_interop_framework.Core.Validation.Sound.{IsOffered}
use tls_interop_framework.Python.Dict.{Dict, has_key, lookup}
use tls_interop_framework.Python.Json.{Fields, Json, fields_of, get, has, is_dict, or_json, truthy}
use tls_interop_framework.Python.Text.{Text, lit, mem, strip, text_eq}
use tls_interop_framework.Runner.Config.{TlsConfig}
use tls_interop_framework.Wrappers.Translation.{
  Translation, joined_argv, mapped_argv, mapped_tokens, mapped_value, raw_cipher, ◌⊕◌,
}
use tls_interop_framework.Wrappers.Translation.Gnutls.{gnutls_join_priority_tokens}
use tls_interop_framework.Wrappers.Translation.Openssl.{wants_psk}
use mathlib.Core.Path.{subst}

-- A token in the normal form of the catalog, which is no key of a block's own.
pub record IsCatalogId (t : Text) : Type 0 where
  pub stripped_form : strip t ≡ t
  pub normal : norm_catalog_token t ≡ t
  pub ordinary : mem t meta_keys ≡ false

-- A block of a capability file has a value for every token that it lists.
abbrev pub IsFilled : Fields → Text → Type 0
IsFilled caps name =
    (t : Text)
    → mem t meta_keys ≡ false
    → has t (fields_of (get name caps)) ≡ true
    → truthy (get t (fields_of (get name caps))) ≡ true

pub ⊕_complete :
    (a b : Translation) → a.unsupported ≡ [] → b.unsupported ≡ [] → (a ⊕ b).unsupported ≡ []
unfolding ◌⊕◌
⊕_complete a b h k = rw h (rw k refl)

mapped_tokens_complete :
    (name remark : Text) (block : Fields) (ts : List Text)
    → All (λ t. truthy (mapped_value block t) ≡ true) ts
    → (mapped_tokens name remark block ts).unsupported ≡ []
unfolding mapped_tokens
mapped_tokens_complete name remark block [] h = refl
mapped_tokens_complete name remark block (t ∷ ts) h =
    rw h.0 (mapped_tokens_complete name remark block ts h.1)

truthy-or_json : (x y : Json) → truthy x ≡ true → truthy (or_json x y) ≡ true
unfolding or_json
truthy-or_json x y h = rw h h

supports-listed :
    (caps : Fields) (name t : Text) (mode : TlsMode)
    → text_eq name (lit "cipher_suite") ≡ false
    → supports_token caps name t (some mode) ≡ true
    → (is_dict (get name caps) && capability_token_supported (fields_of (get name caps)) t) ≡ true
unfolding supports_token
supports-listed caps name t mode other h = ground arith

token-listed :
    (block : Fields) (t : Text)
    → IsCatalogId t
    → capability_token_supported block t ≡ true
    → has t block ≡ true
unfolding capability_token_supported
token-listed block t C h = ground (arith, C.normal)

token-mapped :
    (caps : Fields) (name t : Text) (mode : TlsMode)
    → text_eq name (lit "cipher_suite") ≡ false
    → IsFilled caps name
    → IsCatalogId t
    → supports_token caps name t (some mode) ≡ true
    → truthy (mapped_value (fields_of (get name caps)) t) ≡ true
unfolding mapped_value
token-mapped caps name t mode other filled C h =
    let offered =
      and_true (is_dict (get name caps)) (capability_token_supported (fields_of (get name caps)) t)
        (supports-listed caps name t mode other h) in
    let listed = token-listed (fields_of (get name caps)) t C offered.1 in
    rw C.normal (
      truthy-or_json (get t (fields_of (get name caps))) (get t (fields_of (get name caps)))
        (filled t C.ordinary listed))

stripped-All :
    (P : Text → Type 0) (ts : List Text) → All (λ t. (strip t ≡ t) × P t) ts → All P (stripped ts)
unfolding stripped
stripped-All P [] h = tt
stripped-All P (t ∷ ts) h =
    let rest = stripped-All P ts h.1 in
    elim (Bool-cases (is_empty (strip t))) [
      | inl blank ↦ rw blank rest
      | inr full ↦ rw full (subst P (sym h.0.0) h.0.1, rest)
    ]

-- What a configuration has to be for a translation of what the checks accept.
pub record IsTranslatable (caps : Fields) (cfg : TlsConfig) : Type 0 where
  pub cipher_stripped : strip cfg.cipher_suite ≡ cfg.cipher_suite
  pub cipher_normal : norm_catalog_token cfg.cipher_suite ≡ cfg.cipher_suite
  pub groups : All IsCatalogId cfg.supported_groups
  pub schemes : All IsCatalogId cfg.signature_schemes
  pub groups_filled : IsFilled caps (lit "supported_groups")
  pub schemes_filled : IsFilled caps (lit "signature_schemes")
  pub secret :
      wants_psk cfg (raw_cipher cfg) ≡ true → is_some (psk_material caps (raw_cipher cfg)) ≡ true

module _ (caps : Fields) (mode : TlsMode) (name : Text)
    (known : capability_dimension_name name ≡ name)
    (other : text_eq name (lit "cipher_suite") ≡ false) (filled : IsFilled caps name) where
  tokens-mapped :
      (ts : List Text)
      → All (IsOffered caps mode name) ts
      → All IsCatalogId ts
      → All (λ t. (strip t ≡ t) × (truthy (mapped_value (fields_of (get name caps)) t) ≡ true)) ts
  tokens-mapped [] h C = tt
  tokens-mapped (t ∷ ts) h C = (
    (
      C.0.stripped_form,
      token-mapped caps name t mode other filled C.0
          (subst (λ n. supports_token caps n t (some mode) ≡ true) known h.0),
    ),
    tokens-mapped ts h.1 C.1,
  )

  list_complete :
      (remark : Text) (ts : List Text)
      → All (IsOffered caps mode name) ts
      → All IsCatalogId ts
      → (mapped_tokens name remark (fields_of (get name caps)) (stripped ts)).unsupported ≡ []
  list_complete remark ts h C =
      mapped_tokens_complete name remark (fields_of (get name caps)) (stripped ts) (
        stripped-All (λ t. truthy (mapped_value (fields_of (get name caps)) t) ≡ true) ts
          (tokens-mapped ts h C))

  pub mapped_argv_complete :
      (remark sep opt : Text) (ts : List Text)
      → All (IsOffered caps mode name) ts
      → All IsCatalogId ts
      → (mapped_argv remark sep caps name opt ts).unsupported ≡ []
  unfolding mapped_argv joined_argv
  mapped_argv_complete remark sep opt ts h C = ground (arith, list_complete remark ts h C)

  pub join_priority_complete :
      (reset prefix : Text) (ts : List Text)
      → All (IsOffered caps mode name) ts
      → All IsCatalogId ts
      → (gnutls_join_priority_tokens reset prefix caps name ts).unsupported ≡ []
  unfolding gnutls_join_priority_tokens
  join_priority_complete reset prefix ts h C =
      ground (arith, list_complete (lit " (unsupported for GnuTLS mapping)") ts h C)

pub has_key-lookup :
    (k : Text) (d : Dict Text) → has_key k d ≡ true → (v : Text) × (lookup k d ≡ some v)
unfolding has_key lookup
has_key-lookup k [] h = absurd (ground arith)
has_key-lookup k ((j, w) ∷ d) h = elim (Bool-cases (text_eq j k)) [
  | inl same_key ↦ (w, rw same_key refl)
  | inr differs ↦
      let (v, e) = has_key-lookup k d (later (text_eq j k) (has_key k d) differs h) in
      (v, rw differs e)
]
  where
    later : (a b : Bool) → a ≡ false → (a || b) ≡ true → b ≡ true
    later a b n h = ground arith
