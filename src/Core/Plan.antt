-- ===== src/Core/Plan.antt =====
-- core/matrix.py: the axes of the whole matrix, and the backends that its cells need.
-- `known` is what `discover_wrapper_ids` finds, in sorted order.
pub mod Needed
use tls_interop_framework.Prelude.{
  Bool, List, Option, [], false, if◌then◌else◌, is_empty, is_some, none, not, some, true, ℕ, ◌&&◌,
  ◌++◌, ◌+◌, ◌∷◌,
}
use tls_interop_framework.Core.Catalog.{
  CapabilityFile, aggregate_union, capability_dimension_name, load_backend_capabilities,
}
use tls_interop_framework.Core.Cell.{
  CellMap, backend_of, normalize_cell_tls_micro_params, tls_mode_filter_from_args,
}
use tls_interop_framework.Core.Matrix.{
  excluding, expand_alpn_matrix_axis, expand_capability_dimension, expand_dimension,
}
use tls_interop_framework.Core.Tokens.{TlsMode, stripped}
use tls_interop_framework.Core.Validation.{cell_capability_skip_reason}
use tls_interop_framework.Python.Args.{
  Arg, Namespace, attribute, flag, none_arg, number, option_text, text_of_int, word,
}
use tls_interop_framework.Python.Dict.{Dict, lookup}
use tls_interop_framework.Python.Json.{Fields}
use tls_interop_framework.Python.Result.{Result, ok, traverse, ◌>>=◌}
use tls_interop_framework.Python.Sorted.{set_add, sort, sort_set}
use tls_interop_framework.Python.Text.{Text, lit, mem, text_eq}

-- The ids of `STATIC_CLI_OPTIONS`.
abbrev pub static_option_ids : List Text
static_option_ids =
    lit "cipher_suite"
    ∷ lit "tls_version"
    ∷ lit "tls_port"
    ∷ lit "supported_groups"
    ∷ lit "signature_schemes"
    ∷ lit "alpn"
    ∷ lit "test_features"
    ∷ []

-- Options that are no axis.
abbrev off_matrix : List Text
off_matrix = lit "server_wrapper" ∷ lit "client_wrapper" ∷ lit "tls_port" ∷ lit "test_features" ∷ []

abbrev capability_dimensions : List Text
capability_dimensions =
    lit "cipher_suite"
    ∷ lit "supported_groups"
    ∷ lit "signature_schemes"
    ∷ lit "tls_version"
    ∷ lit "alpn"
    ∷ []

-- The ids of the axes after `server` and `client`, sorted.
unfoldable pub axis_option_ids : List Text
axis_option_ids = excluding off_matrix (sort static_option_ids)

-- An option of the catalog: its id, and its choices, none where it has no such key.
unfoldable pub build_cli_options_catalog : Dict (List Text) → Text → List Text
build_cli_options_catalog union option_id = elim (lookup option_id union) [
  | none ↦ []
  | some choices ↦ choices
]

-- `str(value)`
unfoldable pub arg_str : Arg → Text
arg_str none_arg = lit "None"
arg_str (flag true) = lit "True"
arg_str (flag false) = lit "False"
arg_str (number n) = text_of_int n
arg_str (word t) = t

module _ (args : Namespace) (matrix_wrappers : List Text) (caps_cache : Dict Fields)
    (cipher_tls_mode : Option TlsMode) where
  capability_values : Text → Text → List Text → Result (List Text)
  capability_values option_id raw_val tokens =
      if text_eq option_id (lit "alpn")
      then expand_alpn_matrix_axis raw_val matrix_wrappers caps_cache tokens
      else expand_capability_dimension raw_val (capability_dimension_name option_id) matrix_wrappers
          caps_cache tokens
          (if text_eq option_id (lit "cipher_suite") then cipher_tls_mode else none)

  unfoldable pub get_dimension_matrix_values : Text → List Text → Result (List Text)
  unfolding capability_values
  get_dimension_matrix_values option_id choices =
      let tokens = stripped choices in
      let raw_val = option_text option_id args in
      if mem option_id capability_dimensions && not (is_empty tokens)
      then capability_values option_id raw_val tokens
      else if not (is_empty tokens)
      then expand_dimension raw_val tokens
      else ok (raw_val ∷ [])

-- `set(a) | set(b)`, sorted
unfoldable pub union_sorted : List Text → List Text → List Text
union_sorted a b = sort_set (a ++ b)

module _ (read_capabilities : Text → CapabilityFile) (known : List Text) where
  load_entry : Text → Result (Text × Fields)
  load_entry id = load_backend_capabilities read_capabilities id >>= λ caps. ok (id, caps)

  unfoldable pub matrix_axis_plan : Namespace → Result (List Text × List (List Text))
  unfolding load_entry
  matrix_axis_plan args = do
    caps_cache ← traverse load_entry known
    union ← aggregate_union read_capabilities known
    server_vals ← expand_dimension (arg_str (attribute (lit "server") args)) known
    client_vals ← expand_dimension (arg_str (attribute (lit "client") args)) known
    vals ←
        traverse
          (λ id.
            get_dimension_matrix_values args (union_sorted server_vals client_vals) caps_cache
              (tls_mode_filter_from_args args) id (build_cli_options_catalog union id))
          axis_option_ids
    ok (lit "server" ∷ lit "client" ∷ axis_option_ids, server_vals ∷ client_vals ∷ vals)

-- `dict(zip(keys, values))`, where no key is repeated.
unfoldable pub cell_of : List Text → List Text → CellMap
cell_of [] values = []
cell_of (k ∷ names) [] = []
cell_of (k ∷ names) (v ∷ values) = (k, v) ∷ cell_of names values

-- A backend's name joins the set if it is known.
unfoldable pub add_known : List Text → Text → List Text → List Text
add_known known name needed = if mem name known then set_add name needed else needed

-- What `required_backends_from_matrix` and `run_matrix_cell` both make of a combination first.
unfoldable pub prepared_cell :
    (Text → CapabilityFile) → Namespace → List Text → List Text → Result CellMap
prepared_cell read_capabilities args axis_keys tup =
    normalize_cell_tls_micro_params read_capabilities (cell_of axis_keys tup) args

module _ (is_file : Text → Bool) (read_capabilities : Text → CapabilityFile) (args : Namespace)
    (axis_keys known : List Text) where
  unfoldable pub note_cell : CellMap → List Text × ℕ → List Text × ℕ
  note_cell cell (needed, skips) =
      if is_some (cell_capability_skip_reason is_file read_capabilities cell)
      then (needed, skips + 1)
      else (
        add_known known (backend_of (lit "client") cell)
            (add_known known (backend_of (lit "server") cell) needed),
        skips,
      )

  -- The loop over the combinations, from the backends and skips so far.
  unfoldable pub require_from : List Text × ℕ → List (List Text) → Result (List Text × ℕ)
  require_from acc [] = ok acc
  require_from acc (tup ∷ combos) = prepared_cell read_capabilities args axis_keys tup >>= λ cell.
      require_from (note_cell cell acc) combos

  unfoldable pub required_backends_from_matrix : List (List Text) → Result (List Text × ℕ)
  required_backends_from_matrix combos = require_from ([], 0) combos
