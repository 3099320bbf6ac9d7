-- ===== src/Core/Validation/Sound.antt =====
-- What a cell that is not skipped guarantees of the two backends.
use tls_interop_framework.Prelude.{
  All, All-of, Bool, Bool-cases, Option, [], ap, arith, false, first_some-none, inl, inr, is_empty,
  none, or_else-none, refl, some, sym, true, ◌∙◌, ◌∷◌, ◌≡◌, ◌⊎◌,
}
use tls_interop_framework.Core.Catalog.{
  CapabilityFile, capability_dimension_name, load_backend_capabilities, supports_cipher,
  supports_token,
}
use tls_interop_framework.Core.Cell.{CellMap, backend_of, cell_cipher_id, cell_field}
use tls_interop_framework.Core.Tokens.{
  TlsMode, asymmetric_role_part, parse_asymmetric, split_csv_tokens, stripped,
}
use tls_interop_framework.Core.Validation.{
  CellSkipCtx, Reason, both_sides, caps_at, cell_capability_skip_reason, cell_context,
  cell_skip_checks, check_cell, check_cipher_side, check_list_dim, cipher_skip_reason,
  dimension_reason, dimension_skip_reason, listed_dimensions, mode_at, side_tokens, skip_reason_of,
  token_reason,
}
use tls_interop_framework.Python.Dict.{get_text}
use tls_interop_framework.Python.Json.{Fields}
use tls_interop_framework.Python.Result.{Result, err, ok}
use tls_interop_framework.Python.Text.{Text, has_char, lit, lstrip, rstrip, split, strip}
use tls_interop_framework.Python.Text.Strip.{strip-strip}

-- A token is offered by a backend in a dimension, in the mode of its side.
abbrev pub IsOffered : Fields → TlsMode → Text → Text → Type 0
IsOffered caps mode dim tok =
    supports_token caps (capability_dimension_name dim) tok (some mode) ≡ true

token_reason-none :
    (dim : Text) (server_side : Bool) (caps : Fields) (mode : TlsMode) (tok : Text)
    → token_reason dim server_side caps mode tok ≡ none
    → IsOffered caps mode dim tok
unfolding token_reason
token_reason-none dim server_side caps mode tok h = ground arith

nil_of_empty : (s : Text) → is_empty s ≡ true → s ≡ []
nil_of_empty [] e = refl
nil_of_empty (c ∷ s) e = cc

no_tokens : (server_side : Bool) → split_csv_tokens (asymmetric_role_part [] server_side) ≡ []
unfolding split_csv_tokens asymmetric_role_part parse_asymmetric split has_char stripped strip
    lstrip rstrip
no_tokens true = refl
no_tokens false = refl

asymmetric_role_part-strip :
    (s : Text) (server_side : Bool)
    → asymmetric_role_part (strip s) server_side ≡ asymmetric_role_part s server_side
unfolding asymmetric_role_part parse_asymmetric
asymmetric_role_part-strip s server_side = rw strip-strip

side_tokens-blank :
    (cell : CellMap) (dim : Text) (server_side : Bool)
    → is_empty (cell_field dim cell) ≡ true
    → side_tokens cell dim server_side ≡ []
unfolding side_tokens cell_field
side_tokens-blank cell dim server_side h =
    ap split_csv_tokens (
      sym (asymmetric_role_part-strip (get_text dim cell) server_side)
      ∙ ap (λ t. asymmetric_role_part t server_side) (nil_of_empty (strip (get_text dim cell)) h))
    ∙ no_tokens server_side

check_list_dim-none :
    (cell : CellMap) (dim : Text) (server_side : Bool) (caps : Fields) (mode : TlsMode)
    → check_list_dim cell dim server_side caps mode ≡ none
    → All (IsOffered caps mode dim) (side_tokens cell dim server_side)
unfolding check_list_dim
check_list_dim-none cell dim server_side caps mode h =
    elim (Bool-cases (is_empty (cell_field dim cell))) [
      | inl blank ↦ rw (side_tokens-blank cell dim server_side blank) tt
      | inr full ↦
          All-of (side_tokens cell dim server_side) (token_reason-none dim server_side caps mode)
            (first_some-none _ (side_tokens cell dim server_side) (ground arith))
    ]

check_cipher_side-none :
    (cell : CellMap) (server_side : Bool) (caps : Fields) (mode : TlsMode)
    → check_cipher_side cell server_side caps mode ≡ none
    → (is_empty (cell_cipher_id cell server_side) ≡ true)
      ⊎ (supports_cipher caps (cell_cipher_id cell server_side) mode ≡ true)
unfolding check_cipher_side
check_cipher_side-none cell server_side caps mode h = ground arith

both_sides-none :
    (check : Bool → Option Reason) (server_side : Bool)
    → both_sides check ≡ none
    → check server_side ≡ none
unfolding both_sides
both_sides-none check true h = (or_else-none (check true) (check false) h).0
both_sides-none check false h = (or_else-none (check true) (check false) h).1

cipher_skip-none :
    (ctx : CellSkipCtx) (server_side : Bool)
    → cipher_skip_reason ctx ≡ none
    → check_cipher_side ctx.cell server_side (caps_at ctx server_side) (mode_at ctx server_side)
      ≡ none
unfolding cipher_skip_reason
cipher_skip-none ctx server_side h =
    both_sides-none (λ b. check_cipher_side ctx.cell b (caps_at ctx b) (mode_at ctx b)) server_side
      h

dimension-none :
    (ctx : CellSkipCtx) (dim : Text) (server_side : Bool)
    → dimension_reason ctx dim ≡ none
    → check_list_dim ctx.cell dim server_side (caps_at ctx server_side) (mode_at ctx server_side)
      ≡ none
unfolding dimension_reason
dimension-none ctx dim server_side h =
    both_sides-none (λ b. check_list_dim ctx.cell dim b (caps_at ctx b) (mode_at ctx b)) server_side
      h

module _ (is_file : Text → Bool) (ctx : CellSkipCtx) (passed : check_cell is_file ctx ≡ none) where
  every_check :
      All (λ (check : CellSkipCtx → Option Reason). check ctx ≡ none) (cell_skip_checks is_file)
  unfolding check_cell
  every_check = first_some-none (λ check. check ctx) (cell_skip_checks is_file) passed

  -- The backend of a side supports the side's cipher, if it has one, in the side's mode.
  pub cipher-supported :
      (server_side : Bool)
      → (is_empty (cell_cipher_id ctx.cell server_side) ≡ true)
        ⊎ (supports_cipher
              (caps_at ctx server_side)
              (cell_cipher_id ctx.cell server_side)
              (mode_at ctx server_side)
            ≡ true)
  cipher-supported server_side =
      check_cipher_side-none ctx.cell server_side (caps_at ctx server_side)
        (mode_at ctx server_side) (cipher_skip-none ctx server_side every_check.1.1.1.1.0)

  dimension-IsOffered :
      (dim : Text) (server_side : Bool)
      → dimension_reason ctx dim ≡ none
      → All
          (IsOffered (caps_at ctx server_side) (mode_at ctx server_side) dim)
          (side_tokens ctx.cell dim server_side)
  dimension-IsOffered dim server_side h =
      check_list_dim-none ctx.cell dim server_side (caps_at ctx server_side)
        (mode_at ctx server_side) (dimension-none ctx dim server_side h)

  every_dimension : All (λ dim. dimension_reason ctx dim ≡ none) listed_dimensions
  unfolding dimension_skip_reason
  every_dimension = first_some-none (dimension_reason ctx) listed_dimensions every_check.1.1.1.1.1.0

  -- The backend of a side offers each of the side's groups, signature schemes and protocols.
  pub tokens-IsOffered :
      (server_side : Bool)
      → All
          (λ dim.
            All
              (IsOffered (caps_at ctx server_side) (mode_at ctx server_side) dim)
              (side_tokens ctx.cell dim server_side))
          listed_dimensions
  tokens-IsOffered server_side =
      All-of listed_dimensions (λ dim h. dimension-IsOffered dim server_side h) every_dimension

module _ (is_file : Text → Bool) (read_capabilities : Text → CapabilityFile) (cell : CellMap) where
  abbrev server_name : Text
  server_name = backend_of (lit "server") cell

  abbrev client_name : Text
  client_name = backend_of (lit "client") cell

  -- A cell that names both backends and is not skipped has both capability files, and passes every
  -- check on them.
  pub not_skipped :
      is_empty server_name ≡ false
      → is_empty client_name ≡ false
      → cell_capability_skip_reason is_file read_capabilities cell ≡ none
      → (srv_caps : Fields) × (cli_caps : Fields) × (load_backend_capabilities read_capabilities
            server_name
          ≡ ok srv_caps)
        × (load_backend_capabilities read_capabilities client_name ≡ ok cli_caps)
        × (check_cell is_file (cell_context is_file cell server_name client_name srv_caps cli_caps)
            ≡ none)
  unfolding cell_capability_skip_reason skip_reason_of
  not_skipped hs hc h =
      go (load_backend_capabilities read_capabilities server_name)
        (load_backend_capabilities read_capabilities client_name) refl refl
    where
      go :
          (a b : Result Fields)
          → load_backend_capabilities read_capabilities server_name ≡ a
          → load_backend_capabilities read_capabilities client_name ≡ b
          → (srv_caps : Fields) × (cli_caps : Fields) × (load_backend_capabilities read_capabilities
                server_name
              ≡ ok srv_caps)
            × (load_backend_capabilities read_capabilities client_name ≡ ok cli_caps)
            × (check_cell is_file
                  (cell_context is_file cell server_name client_name srv_caps cli_caps)
                ≡ none)
      go (ok x) (ok y) p q = (x, y, p, q, ground arith)
      go (err e) b p q = absurd (ground arith)
      go (ok x) (err e) p q = absurd (ground arith)
