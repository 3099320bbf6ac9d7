-- ===== src/Core/Tokens.antt =====
-- The token helpers of core/catalog.py: asymmetric values, comma lists, catalog tokens, versions.
pub mod Lists
pub mod Asymmetric
use tls_interop_framework.Prelude.{Bool, List, [], false, if◌then◌else◌, is_empty, true, ◌∷◌}
use tls_interop_framework.Python.Text.{
  Text, contains, has_char, lit, lower, remove_char, split, split_first, strip,
}

pub data TlsMode : Type 0 where
  tls12 tls13 : TlsMode

-- `parse_asymmetric`: the two sides of SERVER:CLIENT, or one value for both.
unfoldable pub parse_asymmetric : Text → Text × Text
parse_asymmetric val =
    let value = strip val in
    if has_char b':' value
    then (strip (split_first b':' value).0, strip (split_first b':' value).1)
    else (value, value)

-- The `server` flag chooses the side.
unfoldable pub asymmetric_role_part : Text → Bool → Text
asymmetric_role_part val server =
    if server then (parse_asymmetric val).0 else (parse_asymmetric val).1

-- `[p.strip() for p in parts if p.strip()]`
unfoldable pub stripped : List Text → List Text
stripped [] = []
stripped (p ∷ ps) = let rest = stripped ps in if is_empty (strip p) then rest else strip p ∷ rest

unfoldable pub split_csv_tokens : Text → List Text
split_csv_tokens part = stripped (split b',' part)

unfoldable pub norm_catalog_token : Text → Text
norm_catalog_token raw = remove_char 32 (lower (strip raw))

unfoldable pub fold_version : Text → Text
fold_version version =
    remove_char b'_' (remove_char b'-' (remove_char b'.' (norm_catalog_token version)))

unfoldable pub tls_mode_from_version : Text → TlsMode
tls_mode_from_version version =
    if is_empty (strip version)
    then tls13
    else if contains (lit "13") (fold_version version)
    then tls13
    else if contains (lit "12") (fold_version version)
    then tls12
    else tls13

unfoldable pub mode_eq : TlsMode → TlsMode → Bool
mode_eq tls12 tls12 = true
mode_eq tls13 tls13 = true
mode_eq _ _ = false

-- The key of a mode in a `tls_version` block.
unfoldable pub mode_text : TlsMode → Text
mode_text tls12 = lit "1.2"
mode_text tls13 = lit "1.3"
