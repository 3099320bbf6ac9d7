-- ===== src/Core/Validation.antt =====
-- core/validation.py: the reasons for which a cell is skipped before it runs. A reason is data with
-- the values that its message names; `true` stands for the server's side.
pub mod Sound
use tls_interop_framework.Prelude.{
  Bool, List, Option, [], false, first_some, if◌then◌else◌, is_empty, map, none, not, or_else, some,
  true, ◌&&◌, ◌||◌, ◌∷◌,
}
use tls_interop_framework.Core.Catalog.{
  CapabilityFile, capability_dimension_name, cipher_modes, feature_entry, load_backend_capabilities,
  runtime, supports_cipher, supports_token,
}
use tls_interop_framework.Core.Cell.{
  CellMap, backend_of, cell_cipher_id, cell_field, effective_cell_tls_mode,
}
use tls_interop_framework.Core.Features.{
  Tls12Skip, cipher_catalog_id_requires_identity_pem, cipher_required_test_feature,
  parse_test_features_enabled, tls12_group_semantic_skip, tls12_sig_semantic_skip,
}
use tls_interop_framework.Core.Identity.{
  get_cert_prefix_for_scheme, get_cert_prefix_for_schemes, identity_pem_present,
}
use tls_interop_framework.Core.Tokens.{
  TlsMode, asymmetric_role_part, mode_eq, mode_text, parse_asymmetric, split_csv_tokens, tls12,
  tls13, tls_mode_from_version,
}
use tls_interop_framework.Python.Dict.{get_text}
use tls_interop_framework.Python.Json.{
  Fields, elements_of, fields_of, get, has, is_dict, py_str, truthy,
}
use tls_interop_framework.Python.Result.{Error, err, ok}
use tls_interop_framework.Python.Text.{Text, has_char, lit, lower, mem, or_text, strip, text_eq}
use mathlib.Core.Option

pub data Reason : Type 0 where
  semantic : Tls12Skip → Reason
  not_wired not_supported : Text → Bool → Reason
  feature_disabled : Reason
  cipher_not_wired : Reason
  missing_identity : Text → Reason
  no_expect_hrr : Reason
  lacks_cipher : Bool → Text → Reason
  lacks_cipher_mode : Bool → Text → TlsMode → Reason
  lacks_token : Bool → Text → Text → Reason
  lacks_version : Bool → TlsMode → Reason
  load_failed : Error → Reason

-- `_CellSkipCtx`
pub record CellSkipCtx : Type 0 where
  pub cell : CellMap
  pub server : Text
  pub client : Text
  pub srv_caps : Fields
  pub cli_caps : Fields
  pub mode_srv : TlsMode
  pub mode_cli : TlsMode

-- The capabilities and the mode of a side.
unfoldable pub caps_at : CellSkipCtx → Bool → Fields
caps_at ctx server = if server then ctx.srv_caps else ctx.cli_caps

unfoldable pub mode_at : CellSkipCtx → Bool → TlsMode
mode_at ctx server = if server then ctx.mode_srv else ctx.mode_cli

-- A check of the server's side, then of the client's.
unfoldable pub both_sides : (Bool → Option Reason) → Option Reason
both_sides check = or_else (check true) (check false)

unfoldable pub check_cipher_side : CellMap → Bool → Fields → TlsMode → Option Reason
check_cipher_side cell server caps mode =
    let id = cell_cipher_id cell server in
    let modes = cipher_modes caps id in
    if is_empty id
    then none
    else if supports_cipher caps id mode
    then none
    else if modes.has12 || modes.has13
    then some (lacks_cipher_mode server id mode)
    else some (lacks_cipher server id)

unfoldable pub is_orthogonal : Text → Bool
is_orthogonal dim = text_eq dim (lit "supported_groups") || text_eq dim (lit "signature_schemes")

unfoldable pub side_tokens : CellMap → Text → Bool → List Text
side_tokens cell dim server = split_csv_tokens (asymmetric_role_part (get_text dim cell) server)

unfoldable pub token_reason : Text → Bool → Fields → TlsMode → Text → Option Reason
token_reason dim server caps mode tok =
    if supports_token caps (capability_dimension_name dim) tok (some mode)
    then none
    else some (lacks_token server dim tok)

unfoldable pub check_list_dim : CellMap → Text → Bool → Fields → TlsMode → Option Reason
check_list_dim cell dim server caps mode =
    if mode_eq mode tls12 && is_orthogonal dim && is_empty (cell_field dim cell)
    then none
    else first_some (token_reason dim server caps mode) (side_tokens cell dim server)

unfoldable pub required_server_identity_prefix : CellMap → Option Text
required_server_identity_prefix cell =
    let schemes = side_tokens cell (lit "signature_schemes") true in
    let cipher = cell_cipher_id cell true in
    if not (is_empty schemes)
    then some (get_cert_prefix_for_schemes schemes)
    else if is_empty cipher || not (cipher_catalog_id_requires_identity_pem cipher)
    then none
    else some (get_cert_prefix_for_scheme cipher)

unfoldable pub tls12_semantic_skip_reason_side : CellMap → Bool → TlsMode → Option Tls12Skip
tls12_semantic_skip_reason_side cell server tls13 = none
tls12_semantic_skip_reason_side cell server tls12 =
    let id = cell_cipher_id cell server in
    if is_empty id
    then none
    else or_else (tls12_group_semantic_skip id (side_tokens cell (lit "supported_groups") server))
        (tls12_sig_semantic_skip id (side_tokens cell (lit "signature_schemes") server))

unfoldable pub semantic_skip_reason : CellSkipCtx → Option Reason
semantic_skip_reason ctx = both_sides λ server.
    Option.map semantic (tls12_semantic_skip_reason_side ctx.cell server (mode_at ctx server))

-- The two reasons are those that the caller's messages name.
unfoldable pub feature_entry_skip : Text → Fields → Reason → Reason → Option Reason
feature_entry_skip feat caps unwired unsupported =
    let entry = feature_entry caps feat in
    if not (truthy (get (lit "wired") entry))
    then some unwired
    else if not (truthy (get (lit "supported") entry))
    then some unsupported
    else none

unfoldable pub enabled_feature_reason : CellSkipCtx → Text → Option Reason
enabled_feature_reason ctx feat = both_sides λ server.
    feature_entry_skip feat (caps_at ctx server) (not_wired feat server) (not_supported feat server)

unfoldable pub enabled_features_skip_reason : CellSkipCtx → List Text → Option Reason
enabled_features_skip_reason ctx enabled = first_some (enabled_feature_reason ctx) enabled

required_feature_reason : CellSkipCtx → List Text → Text → Option Reason
required_feature_reason ctx enabled feat =
    if not (mem feat enabled)
    then some feature_disabled
    else both_sides λ server.
      feature_entry_skip feat (caps_at ctx server) cipher_not_wired (not_supported feat server)

-- The cipher that the features are asked of: the server's, or else the client's.
unfoldable pub feature_cipher : CellMap → Text
feature_cipher cell = or_text (cell_cipher_id cell true) (cell_cipher_id cell false)

unfoldable pub cipher_required_feature_skip_reason : CellSkipCtx → List Text → Option Reason
unfolding required_feature_reason
cipher_required_feature_skip_reason ctx enabled =
    if is_empty (feature_cipher ctx.cell)
    then none
    else elim (cipher_required_test_feature (feature_cipher ctx.cell)) [
      | none ↦ none
      | some feat ↦ required_feature_reason ctx enabled feat
    ]

unfoldable pub feature_skip_reason : CellSkipCtx → Option Reason
feature_skip_reason ctx =
    let enabled = parse_test_features_enabled (get_text (lit "test_features") ctx.cell) in
    or_else (enabled_features_skip_reason ctx enabled)
      (cipher_required_feature_skip_reason ctx enabled)

unfoldable pub identity_skip_reason : (Text → Bool) → CellSkipCtx → Option Reason
identity_skip_reason is_file ctx = elim (required_server_identity_prefix ctx.cell) [
  | none ↦ none
  | some prefix ↦
      if identity_pem_present is_file prefix then none else some (missing_identity prefix)
]

-- The fields that a backend's runtime block declares it cannot apply, a list in every file.
unfoldable pub unsupported_fields : Fields → List Text
unsupported_fields caps =
    map (λ v. strip (py_str v)) (elements_of (runtime caps).unsupported_tls_fields)

unfoldable pub expect_hrr_skip_reason : CellSkipCtx → Option Reason
expect_hrr_skip_reason ctx =
    let wanted = lower (cell_field (lit "expect_hrr") ctx.cell) in
    if not (mem wanted (lit "true" ∷ lit "1" ∷ lit "yes" ∷ []))
    then none
    else if mem (lit "expect_hrr") (unsupported_fields ctx.cli_caps)
    then some no_expect_hrr
    else none

unfoldable pub cipher_skip_reason : CellSkipCtx → Option Reason
cipher_skip_reason ctx =
    both_sides λ server. check_cipher_side ctx.cell server (caps_at ctx server) (mode_at ctx server)

unfoldable pub dimension_reason : CellSkipCtx → Text → Option Reason
dimension_reason ctx dim =
    both_sides
      λ server. check_list_dim ctx.cell dim server (caps_at ctx server) (mode_at ctx server)

abbrev pub listed_dimensions : List Text
listed_dimensions = lit "supported_groups" ∷ lit "signature_schemes" ∷ lit "alpn" ∷ []

unfoldable pub dimension_skip_reason : CellSkipCtx → Option Reason
dimension_skip_reason ctx = first_some (dimension_reason ctx) listed_dimensions

unfoldable pub version_reason : CellSkipCtx → Bool → Option Reason
version_reason ctx server =
    let block = get (lit "tls_version") (caps_at ctx server) in
    if is_dict block && truthy block && not (has (mode_text (mode_at ctx server)) (fields_of block))
    then some (lacks_version server (mode_at ctx server))
    else none

unfoldable pub tls_version_skip_reason : CellSkipCtx → Option Reason
tls_version_skip_reason ctx =
    let tv = cell_field (lit "tls_version") ctx.cell in
    if is_empty tv || has_char b':' tv then none else both_sides (version_reason ctx)

-- One side of an asymmetric version overrides the mode where it is not empty.
unfoldable pub mode_or : TlsMode → Text → TlsMode
mode_or mode version = if is_empty version then mode else tls_mode_from_version version

unfoldable pub resolve_cell_tls_modes : CellMap → Fields → Fields → TlsMode × TlsMode
resolve_cell_tls_modes cell srv_caps cli_caps =
    let mode = effective_cell_tls_mode cell srv_caps cli_caps in
    let tv = cell_field (lit "tls_version") cell in
    if has_char b':' tv
    then (mode_or mode (parse_asymmetric tv).0, mode_or mode (parse_asymmetric tv).1)
    else (mode, mode)

module _ (is_file : Text → Bool) where
  -- `CELL_SKIP_CHECKS`, in order.
  abbrev pub cell_skip_checks : List (CellSkipCtx → Option Reason)
  cell_skip_checks =
      semantic_skip_reason
      ∷ feature_skip_reason
      ∷ identity_skip_reason is_file
      ∷ expect_hrr_skip_reason
      ∷ cipher_skip_reason
      ∷ dimension_skip_reason
      ∷ tls_version_skip_reason
      ∷ []

  unfoldable pub check_cell : CellSkipCtx → Option Reason
  check_cell ctx = first_some (λ (check : CellSkipCtx → Option Reason). check ctx) cell_skip_checks

  unfoldable pub cell_context : CellMap → Text → Text → Fields → Fields → CellSkipCtx
  cell_context cell server client srv_caps cli_caps =
      let modes = resolve_cell_tls_modes cell srv_caps cli_caps in
      record {
        cell = cell;
        server = server;
        client = client;
        srv_caps = srv_caps;
        cli_caps = cli_caps;
        mode_srv = modes.0;
        mode_cli = modes.1;
      }

  module _ (read_capabilities : Text → CapabilityFile) where
    unfoldable pub skip_reason_of : CellMap → Text → Text → Option Reason
    skip_reason_of cell server client = elim (load_backend_capabilities read_capabilities server) [
      | err e ↦ some (load_failed e)
      | ok srv_caps ↦ elim (load_backend_capabilities read_capabilities client) [
        | err e ↦ some (load_failed e)
        | ok cli_caps ↦ check_cell (cell_context cell server client srv_caps cli_caps)
      ]
    ]

    unfoldable pub cell_capability_skip_reason : CellMap → Option Reason
    cell_capability_skip_reason cell =
        let server = backend_of (lit "server") cell in
        let client = backend_of (lit "client") cell in
        if is_empty server || is_empty client then none else skip_reason_of cell server client
