-- ===== src/Runner/Config/Agreement.antt =====
-- The values that the checks of a cell look at are those that the configurations carry.
use tls_interop_framework.Prelude.{
  Bool, List, [], arith, false, if◌then◌else◌, is_empty, refl, sym, true, ◌∷◌, ◌≡◌,
}
use tls_interop_framework.Core.Cell.{CellMap, cell_cipher_id, cell_field, side_of}
use tls_interop_framework.Core.Tokens.{
  asymmetric_role_part, parse_asymmetric, split_csv_tokens, stripped,
}
use tls_interop_framework.Core.Tokens.Lists.{split_csv_tokens-strip}
use tls_interop_framework.Core.Validation.{side_tokens}
use tls_interop_framework.Python.Dict.{get_text}
use tls_interop_framework.Python.Text.{
  Text, has_char, lit, lstrip, rstrip, split, split_first, strip,
}
use tls_interop_framework.Python.Text.Strip.{strip-strip}
use tls_interop_framework.Runner.Config.{pick_list, pick_scalar, split_asymmetric_csv}

strip-field : (name : Text) (cell : CellMap) → strip (cell_field name cell) ≡ cell_field name cell
unfolding cell_field
strip-field name cell = strip-strip (get_text name cell)

-- A role's cipher in the checks is the one in its configuration.
pub pick_scalar-cell_cipher_id :
    (cell : CellMap) (server_side : Bool)
    → pick_scalar cell (lit "cipher_suite") server_side ≡ cell_cipher_id cell server_side
unfolding pick_scalar cell_cipher_id asymmetric_role_part parse_asymmetric side_of
pick_scalar-cell_cipher_id cell server_side = rw strip-field (ground arith)

no_tokens : split_csv_tokens [] ≡ []
unfolding split_csv_tokens split stripped strip lstrip rstrip
no_tokens = refl

-- The sides of a stripped value, read as `split_asymmetric_csv` reads them.
abbrev sides_split : Text → List Text × List Text
sides_split w =
    if is_empty w
    then ([], [])
    else if has_char b':' w
    then (split_csv_tokens (split_first b':' w).0, split_csv_tokens (split_first b':' w).1)
    else (split_csv_tokens w, split_csv_tokens w)

-- The sides of a stripped value, as `parse_asymmetric` returns them.
abbrev sides_parsed : Text → Text × Text
sides_parsed w =
    if has_char b':' w then (strip (split_first b':' w).0, strip (split_first b':' w).1) else (w, w)

sides_agree :
    (w : Text) (b : Bool)
    → (if b then (sides_split w).0 else (sides_split w).1)
      ≡ split_csv_tokens (if b then (sides_parsed w).0 else (sides_parsed w).1)
sides_agree [] true = unfold has_char in sym no_tokens
sides_agree [] false = unfold has_char in sym no_tokens
sides_agree (c ∷ s) true = ground (arith, split_csv_tokens-strip (split_first b':' (c ∷ s)).0)
sides_agree (c ∷ s) false = ground (arith, split_csv_tokens-strip (split_first b':' (c ∷ s)).1)

-- A role's tokens in the checks are those in its configuration, for every dimension.
pub pick_list-side_tokens :
    (cell : CellMap) (name : Text) (server_side : Bool)
    → pick_list cell name server_side ≡ side_tokens cell name server_side
unfolding pick_list side_tokens split_asymmetric_csv asymmetric_role_part parse_asymmetric
pick_list-side_tokens cell name server_side = sides_agree (strip (get_text name cell)) server_side
