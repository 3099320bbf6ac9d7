-- ===== src/Core/Cell.antt =====
-- core/matrix.py: one cell of the matrix, its TLS mode, and the parameters that are filled in.
use tls_interop_framework.Prelude.{
  Bool, Option, [], false, if◌then◌else◌, is_empty, none, not, pos, some, true, zero, ℤ, ◌&&◌, ◌++◌,
  ◌||◌, ◌∷◌,
}
use tls_interop_framework.Core.Catalog.{
  CapabilityFile, ModeSet, cipher_modes, load_backend_capabilities,
}
use tls_interop_framework.Core.Tokens.{
  TlsMode, mode_eq, parse_asymmetric, tls12, tls13, tls_mode_from_version,
}
use tls_interop_framework.Python.Args.{Namespace, arg_int, attribute, option_text, text_of_int}
use tls_interop_framework.Python.Dict.{Dict, get_text, set}
use tls_interop_framework.Python.Json.{Fields, end}
use tls_interop_framework.Python.Result.{Result, err, ok, ◌>>=◌}
use tls_interop_framework.Python.Text.{
  Text, has_char, lit, lower, or_text, split_first, strip, text_eq,
}

abbrev pub CellMap : Type 0
CellMap = Dict Text

-- `(cell.get(field) or "").strip()`
unfoldable pub cell_field : Text → CellMap → Text
cell_field name cell = strip (get_text name cell)

unfoldable pub tls_mode_filter_from_args : Namespace → Option TlsMode
tls_mode_filter_from_args args =
    let raw_version = strip (option_text (lit "tls_version") args) in
    let left = (parse_asymmetric raw_version).0 in
    let right = (parse_asymmetric raw_version).1 in
    if is_empty raw_version
    then none
    else if has_char b':' raw_version
    then if not (is_empty left)
        && not (is_empty right)
        && mode_eq (tls_mode_from_version left) (tls_mode_from_version right)
      then some (tls_mode_from_version left)
      else none
    else some (tls_mode_from_version raw_version)

unfoldable pub side_of : Text → Bool → Text
side_of cipher_suite server =
    strip (if server then (split_first b':' cipher_suite).0 else (split_first b':' cipher_suite).1)

unfoldable pub cell_cipher_id : CellMap → Bool → Text
cell_cipher_id cell server =
    let cipher_suite = cell_field (lit "cipher_suite") cell in
    if is_empty cipher_suite
    then []
    else if has_char b':' cipher_suite
    then side_of cipher_suite server
    else cipher_suite

unfoldable pub no_modes : ModeSet
no_modes = record { has12 = false; has13 = false }

unfoldable pub union_modes : ModeSet → ModeSet → ModeSet
union_modes a b = record { has12 = a.has12 || b.has12; has13 = a.has13 || b.has13 }

-- The modes of one side's cipher, none where the side has no cipher.
unfoldable pub modes_of_side : Text → Fields → ModeSet
modes_of_side id caps = if is_empty id then no_modes else cipher_modes caps id

-- `modes == {"1.2"}` and `modes == {"1.3"}`
unfoldable pub only12 : ModeSet → Bool
only12 m = m.has12 && not m.has13

unfoldable pub only13 : ModeSet → Bool
only13 m = m.has13 && not m.has12

unfoldable pub mode_from_ciphers : CellMap → Fields → Fields → TlsMode
mode_from_ciphers cell srv_caps cli_caps =
    let srv = modes_of_side (cell_cipher_id cell true) srv_caps in
    let cli = modes_of_side (cell_cipher_id cell false) cli_caps in
    if only12 (union_modes srv cli) then tls12 else tls13

unfoldable pub effective_cell_tls_mode : CellMap → Fields → Fields → TlsMode
effective_cell_tls_mode cell srv_caps cli_caps =
    let tv = cell_field (lit "tls_version") cell in
    if is_empty tv
    then mode_from_ciphers cell srv_caps cli_caps
    else if not (has_char b':' tv)
    then tls_mode_from_version tv
    else if is_empty (parse_asymmetric tv).0
    then mode_from_ciphers cell srv_caps cli_caps
    else tls_mode_from_version (parse_asymmetric tv).0

unfoldable pub implicit_tls_version_for_side : CellMap → Bool → Fields → Text
implicit_tls_version_for_side cell server caps =
    let modes = modes_of_side (cell_cipher_id cell server) caps in
    if only13 modes then lit "1.3" else if only12 modes then lit "1.2" else []

unfoldable pub merged_version : Text → Text → Text
merged_version srv_ver cli_ver =
    if not (is_empty srv_ver) && not (is_empty cli_ver) && not (text_eq srv_ver cli_ver)
    then srv_ver ++ b':' ∷ cli_ver
    else or_text srv_ver cli_ver

unfoldable pub apply_implicit_tls_version : CellMap → Fields → Fields → CellMap
apply_implicit_tls_version output srv_caps cli_caps =
    let srv_ver = implicit_tls_version_for_side output true srv_caps in
    let cli_ver = implicit_tls_version_for_side output false cli_caps in
    if not (is_empty (cell_field (lit "tls_version") output))
    then output
    else if is_empty srv_ver && is_empty cli_ver
    then output
    else set (lit "tls_version") (merged_version srv_ver cli_ver) output

-- One round of the loop over `TLS13_ORTHOGONAL_DIMS`.
unfoldable pub clear_unset : Text → Namespace → CellMap → CellMap
clear_unset dim args output =
    if is_empty (strip (option_text dim args)) then set dim [] output else output

unfoldable pub clear_unset_tls13_orthogonal_dims : Namespace → CellMap → CellMap
clear_unset_tls13_orthogonal_dims args output =
    clear_unset (lit "signature_schemes") args (clear_unset (lit "supported_groups") args output)

unfoldable pub with_port : ℤ → CellMap → CellMap
with_port (pos zero) output = output
with_port port output = set (lit "tls_port") (text_of_int port) output

unfoldable pub clear_for_mode : TlsMode → Namespace → CellMap → CellMap
clear_for_mode tls12 args output = clear_unset_tls13_orthogonal_dims args output
clear_for_mode tls13 args output = output

-- The part of `normalize_cell_tls_micro_params` after the capabilities of both roles are loaded.
unfoldable pub fill_in : CellMap → Namespace → Fields → Fields → CellMap
fill_in output args srv_caps cli_caps =
    let versioned = apply_implicit_tls_version output srv_caps cli_caps in
    let cleared =
      clear_for_mode (effective_cell_tls_mode versioned srv_caps cli_caps) args versioned in
    set (lit "test_features") (strip (option_text (lit "test_features") args)) cleared

-- The name of a role's backend.
unfoldable pub backend_of : Text → CellMap → Text
backend_of role cell = lower (cell_field role cell)

module _ (read_capabilities : Text → CapabilityFile) where
  unfoldable pub load_if_named : Text → Result Fields
  load_if_named name =
      if is_empty name then ok end else load_backend_capabilities read_capabilities name

  unfoldable pub load_role_capabilities : Text → Text → Option (Fields × Fields)
  load_role_capabilities server client = elim (load_if_named server) [
    | err e ↦ none
    | ok srv_caps ↦ elim (load_if_named client) [
      | err e ↦ none
      | ok cli_caps ↦ some (srv_caps, cli_caps)
    ]
  ]

  unfoldable pub normalize_cell_tls_micro_params : CellMap → Namespace → Result CellMap
  normalize_cell_tls_micro_params cell args = do
    port ← arg_int (attribute (lit "tls_port") args)
    let output = with_port port cell
    ok
        (elim (load_role_capabilities (backend_of (lit "server") cell)
          (backend_of (lit "client") cell)) [
            | none ↦ output
            | some (srv_caps, cli_caps) ↦ fill_in output args srv_caps cli_caps
          ])
