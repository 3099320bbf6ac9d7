-- ===== src/Core/Features.antt =====
-- core/features.py: what a cipher's catalog id says of its key exchange, authentication and needs.
-- A pattern `(^|-)x(-|$)` finds `x` exactly when `x` is one of the parts between dashes.
use tls_interop_framework.Prelude.{
  Bool, List, Option, [], any, false, if◌then◌else◌, is_empty, map, none, not, some, true, ℕ, ◌&&◌,
  ◌++◌, ◌==◌, ◌||◌, ◌∷◌,
}
use tls_interop_framework.Core.Tokens.{norm_catalog_token, split_csv_tokens}
use tls_interop_framework.Python.Sorted.{sort_set}
use tls_interop_framework.Python.Text.{
  Text, contains, lit, lower, mem, remove_char, replace_char, split, starts_with, strip,
}

pub data KeyExchange : Type 0 where
  ecdhe dhe static_rsa unknown : KeyExchange

pub data Auth : Type 0 where
  rsa ecdsa dsa eddsa unknown : Auth

pub data GroupFamily : Type 0 where
  ec ffdhe other : GroupFamily

pub record Tls12CipherMetadata : Type 0 where
  pub kx : KeyExchange
  pub au : Auth

unfoldable pub has_part : Text → Text → Bool
has_part part tok = mem part (split b'-' tok)

-- The texts at which `(^|-)` can match: the whole, and what follows each dash.
unfoldable pub after_dashes : Text → List Text
after_dashes [] = []
after_dashes (c ∷ s) = let rest = after_dashes s in if c == b'-' then s ∷ rest else rest

-- `re.search(r"(^|-)p", tok)`
unfoldable pub has_part_prefix : Text → Text → Bool
has_part_prefix p tok = starts_with tok p || any (λ s. starts_with s p) (after_dashes tok)

unfoldable pub tls12_kx_from_token : Text → KeyExchange
tls12_kx_from_token tok =
    if contains (lit "ecdhe") tok
    then ecdhe
    else if has_part (lit "dhe") tok
    then dhe
    else if contains (lit "rsa") tok || starts_with tok (lit "aes")
    then static_rsa
    else KeyExchange.unknown

unfoldable pub tls12_au_from_token : Text → Auth
tls12_au_from_token tok =
    if has_part (lit "dss") tok
    then dsa
    else if contains (lit "ecdsa") tok
    then ecdsa
    else if contains (lit "rsa") tok || starts_with tok (lit "aes")
    then rsa
    else Auth.unknown

unfoldable pub cipher_token : Text → Text
cipher_token name = remove_char 32 (replace_char b'_' b'-' (lower (strip name)))

unfoldable pub tls12_cipher_metadata_from_name : Text → Tls12CipherMetadata
tls12_cipher_metadata_from_name name =
    let tok = cipher_token name in
    if is_empty tok || starts_with tok (lit "tls-")
    then record { kx = KeyExchange.unknown; au = Auth.unknown }
    else record { kx = tls12_kx_from_token tok; au = tls12_au_from_token tok }

unfoldable pub cipher_catalog_id_requires_psk : Text → Bool
cipher_catalog_id_requires_psk id = has_part (lit "psk") (norm_catalog_token id)

unfoldable pub cipher_catalog_id_requires_anon : Text → Bool
cipher_catalog_id_requires_anon id =
    has_part (lit "anon") (norm_catalog_token id)
    || starts_with (norm_catalog_token id) (lit "adh-")

unfoldable pub cipher_required_test_feature : Text → Option Text
cipher_required_test_feature id =
    if cipher_catalog_id_requires_psk id
    then some (lit "psk")
    else if cipher_catalog_id_requires_anon id
    then some (lit "anonymous")
    else none

-- `cipher_catalog_id_uses_dsa_auth` of core/identity.py, which this module calls.
unfoldable pub cipher_catalog_id_uses_dsa_auth : Text → Bool
cipher_catalog_id_uses_dsa_auth id =
    has_part (lit "dss") (replace_char b'_' b'-' (lower (strip id)))

unfoldable pub cipher_catalog_id_requires_identity_pem : Text → Bool
cipher_catalog_id_requires_identity_pem id =
    let c = norm_catalog_token id in
    if is_empty c || cipher_catalog_id_requires_anon c
    then false
    else if cipher_catalog_id_requires_psk c
    then has_part_prefix (lit "rsa-psk") c
      || has_part_prefix (lit "dhe-psk") c
      || has_part_prefix (lit "ecdhe-psk") c
    else if cipher_catalog_id_uses_dsa_auth c
    then true
    else if contains (lit "ecdsa") c || contains (lit "ed25519") c || contains (lit "ed448") c
    then true
    else has_part_prefix (lit "rsa") c

-- A set of features, as the sorted list of its elements.
unfoldable pub parse_test_features_enabled : Text → List Text
parse_test_features_enabled raw = sort_set (map lower (split_csv_tokens raw))

abbrev block_ciphers : List Text
block_ciphers =
    lit "aes256"
    ∷ lit "aes-256"
    ∷ lit "aria256"
    ∷ lit "aria-256"
    ∷ lit "camellia256"
    ∷ lit "camellia-256"
    ∷ []

-- `[-/]256[-/](?:gcm|ccm|cbc)`
abbrev sized_modes : List Text
sized_modes =
    lit "-256-gcm"
    ∷ lit "-256-ccm"
    ∷ lit "-256-cbc"
    ∷ lit "-256/gcm"
    ∷ lit "-256/ccm"
    ∷ lit "-256/cbc"
    ∷ lit "/256-gcm"
    ∷ lit "/256-ccm"
    ∷ lit "/256-cbc"
    ∷ lit "/256/gcm"
    ∷ lit "/256/ccm"
    ∷ lit "/256/cbc"
    ∷ []

unfoldable pub psk_key_bits_for_cipher : Text → ℕ
psk_key_bits_for_cipher id =
    let c = norm_catalog_token id in
    if contains (lit "chacha20") c
    then 256
    else if any (λ p. contains p c) (block_ciphers ++ sized_modes)
    then 256
    else 128

unfoldable pub signature_scheme_auth_kind : Text → Auth
signature_scheme_auth_kind token =
    let t = remove_char b'-' (remove_char b'_' (lower (strip token))) in
    if is_empty t
    then Auth.unknown
    else if starts_with t (lit "dsa")
    then dsa
    else if contains (lit "rsa") t
    then rsa
    else if contains (lit "ecdsa") t
    then ecdsa
    else if starts_with t (lit "ed25519")
        || starts_with t (lit "ed448")
        || starts_with t (lit "eddsa")
    then eddsa
    else Auth.unknown

abbrev ec_prefixes : List Text
ec_prefixes =
    lit "secp" ∷ lit "x25519" ∷ lit "x448" ∷ lit "brainpool" ∷ lit "xyber" ∷ lit "mlkem" ∷ []

unfoldable pub group_family : Text → GroupFamily
group_family token =
    let t = replace_char b'_' b'-' (lower (strip token)) in
    if is_empty t
    then other
    else if starts_with t (lit "ffdhe")
    then ffdhe
    else if any (starts_with t) ec_prefixes || contains (lit "mlkem") t
    then ec
    else other

pub data Tls12Skip : Type 0 where
  static_rsa_with_groups ecdhe_needs_ec dhe_needs_ffdhe signature_conflicts : Tls12Skip

unfoldable pub is_ec : GroupFamily → Bool
is_ec ec = true
is_ec _ = false

unfoldable pub is_ffdhe : GroupFamily → Bool
is_ffdhe ffdhe = true
is_ffdhe _ = false

group_skip : KeyExchange → List Text → Option Tls12Skip
group_skip static_rsa groups = some static_rsa_with_groups
group_skip ecdhe groups =
    if any (λ g. not (is_ec (group_family g))) groups then some ecdhe_needs_ec else none
group_skip dhe groups =
    if any (λ g. not (is_ffdhe (group_family g))) groups then some dhe_needs_ffdhe else none
group_skip KeyExchange.unknown groups = none

unfoldable pub tls12_group_semantic_skip : Text → List Text → Option Tls12Skip
unfolding group_skip
tls12_group_semantic_skip id groups =
    if is_empty groups then none else group_skip (tls12_cipher_metadata_from_name id).kx groups

unfoldable pub auth_eq : Auth → Auth → Bool
auth_eq rsa rsa = true
auth_eq ecdsa ecdsa = true
auth_eq dsa dsa = true
auth_eq eddsa eddsa = true
auth_eq Auth.unknown Auth.unknown = true
auth_eq _ _ = false

unfoldable pub conflicts_with : Auth → Text → Bool
conflicts_with au sig =
    let sk = signature_scheme_auth_kind sig in not (auth_eq sk Auth.unknown) && not (auth_eq au sk)

unfoldable pub tls12_sig_semantic_skip : Text → List Text → Option Tls12Skip
tls12_sig_semantic_skip id sigs =
    let au = (tls12_cipher_metadata_from_name id).au in
    if is_empty sigs || auth_eq au Auth.unknown
    then none
    else if any (conflicts_with au) sigs
    then some signature_conflicts
    else none
