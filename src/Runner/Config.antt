-- ===== src/Runner/Config.antt =====
-- core/runner.py and interop_proto/interop.proto: the messages, and the configuration that a cell
-- gives each side. Bytes are the list of their values.
pub mod Agreement
pub mod Supported
use tls_interop_framework.Prelude.{
  Bool, List, Option, [], false, if◌then◌else◌, is_empty, map, none, not, pos, some, true, ℕ, ℤ,
  ◌&&◌, ◌||◌, ◌∷◌,
}
use tls_interop_framework.Core.Catalog.{CapabilityFile, load_backend_capabilities, runtime}
use tls_interop_framework.Core.Cell.{CellMap, backend_of, cell_field}
use tls_interop_framework.Core.Features.{parse_test_features_enabled}
use tls_interop_framework.Core.Identity.{
  catalog_identity_pem_paths_for_prefix, get_cert_prefix_for_scheme, get_cert_prefix_for_schemes,
}
use tls_interop_framework.Core.Tokens.{asymmetric_role_part, split_csv_tokens}
use tls_interop_framework.Python.Args.{int_of_text}
use tls_interop_framework.Python.Dict.{get_text}
use tls_interop_framework.Python.Json.{elements_of, py_str}
use tls_interop_framework.Python.Result.{Result, bad_integer, err, ok, ◌>>=◌}
use tls_interop_framework.Python.Text.{
  Text, has_char, lit, mem, or_text, split_first, strip, text_eq,
}

pub data Role : Type 0 where
  client server : Role

pub data OpType : Type 0 where
  establish transmit key_update close : OpType

pub record TlsConfig : Type 0 where
  pub version : Text
  pub cipher_suite : Text
  pub server_hostname : Text
  pub port : ℤ
  pub certificate : List ℕ
  pub private_key : List ℕ
  pub supported_groups : List Text
  pub signature_schemes : List Text
  pub signature_schemes_cert : List Text
  pub alpn_protocols : List Text
  pub psk_modes : List Text
  pub resumption_step : Text
  pub repo_root : Text
  pub expect_hrr : Bool

pub record OperationRequest : Type 0 where
  pub op : OpType
  pub role : Role
  pub payload : List ℕ
  pub config : Option TlsConfig

pub data Status : Type 0 where
  success failure error : Status

pub record OperationResponse : Type 0 where
  pub status : Status
  pub message : Text
  pub output_data : List ℕ
  pub logs : Text
  pub hrr_occurred : Bool

unfoldable pub is_server : Role → Bool
is_server server = true
is_server client = false

-- `_pick_scalar`
unfoldable pub pick_scalar : CellMap → Text → Bool → Text
pick_scalar cell name server_side =
    let raw = cell_field name cell in
    if is_empty raw
    then []
    else if has_char b':' raw
    then asymmetric_role_part raw server_side
    else raw

-- `split_asymmetric_csv` of wrappers/utils.py: each side's tokens.
unfoldable pub split_asymmetric_csv : Text → List Text × List Text
split_asymmetric_csv val =
    let whole = strip val in
    if is_empty whole
    then ([], [])
    else if has_char b':' whole
    then (split_csv_tokens (split_first b':' whole).0, split_csv_tokens (split_first b':' whole).1)
    else (split_csv_tokens whole, split_csv_tokens whole)

-- `_pick_list`
unfoldable pub pick_list : CellMap → Text → Bool → List Text
pick_list cell name server_side =
    let sides = split_asymmetric_csv (get_text name cell) in
    if server_side then sides.0 else sides.1

-- `int(port_raw) if port_raw else 5555`
unfoldable pub port_of : Text → Result ℤ
port_of [] = ok (pos 5555)
port_of (c ∷ s) = elim (int_of_text (c ∷ s)) [ none ↦ err (bad_integer (c ∷ s)) | some n ↦ ok n ]

-- The identity whose PEM a cell's server presents.
unfoldable pub identity_prefix : CellMap → Text
identity_prefix cell =
    let schemes = pick_list cell (lit "signature_schemes") true in
    if not (is_empty schemes)
    then get_cert_prefix_for_schemes schemes
    else get_cert_prefix_for_scheme (pick_scalar cell (lit "cipher_suite") true)

module _ (read_capabilities : Text → CapabilityFile) (is_file : Text → Bool)
    (read_bytes : Text → List ℕ) where
  -- The fields that the server's backend cannot apply, none where its file cannot be loaded.
  unfoldable pub blocked_fields : CellMap → List Text
  blocked_fields cell =
      elim (load_backend_capabilities read_capabilities (backend_of (lit "server") cell)) [
        | err e ↦ []
        | ok caps ↦ map py_str (elements_of (runtime caps).unsupported_tls_fields)
      ]

  unfoldable pub read_identity_pem_bytes : Text → List ℕ × List ℕ
  read_identity_pem_bytes prefix =
      let paths = catalog_identity_pem_paths_for_prefix is_file prefix in
      if is_empty paths.0 || is_empty paths.1
      then ([], [])
      else (read_bytes paths.0, read_bytes paths.1)

  with_pem : List ℕ × List ℕ → TlsConfig → TlsConfig
  with_pem pem cfg =
      if is_empty pem.0 || is_empty pem.1
      then cfg
      else record cfg { certificate = pem.0; private_key = pem.1 }

  unfoldable pub apply_identity_material : CellMap → TlsConfig → TlsConfig
  unfolding with_pem
  apply_identity_material cell cfg =
      let blocked = blocked_fields cell in
      if mem (lit "certificate") blocked || mem (lit "private_key") blocked
      then cfg
      else with_pem (read_identity_pem_bytes (identity_prefix cell)) cfg

  -- The fields that the cell decides, for a port that is read already.
  unfoldable pub fields_from_cell : CellMap → Bool → ℤ → TlsConfig
  fields_from_cell cell server_side port = record {
    version = or_text (pick_scalar cell (lit "tls_version") server_side) (lit "1.3");
    cipher_suite = pick_scalar cell (lit "cipher_suite") server_side;
    server_hostname = [];
    port = port;
    certificate = [];
    private_key = [];
    supported_groups = pick_list cell (lit "supported_groups") server_side;
    signature_schemes = pick_list cell (lit "signature_schemes") server_side;
    signature_schemes_cert = pick_list cell (lit "signature_schemes") (not server_side);
    alpn_protocols = pick_list cell (lit "alpn") server_side;
    psk_modes = parse_test_features_enabled (get_text (lit "test_features") cell);
    resumption_step = [];
    repo_root = [];
    expect_hrr = not server_side && text_eq (get_text (lit "expect_hrr") cell) (lit "true");
  }

  -- A server's configuration is given its identity too.
  unfoldable pub config_at_port : CellMap → Role → ℤ → TlsConfig
  config_at_port cell server port = apply_identity_material cell (fields_from_cell cell true port)
  config_at_port cell client port = fields_from_cell cell false port

  unfoldable pub tls_config_from_cell : CellMap → Role → Result TlsConfig
  tls_config_from_cell cell role = do
    port ← port_of (pick_scalar cell (lit "tls_port") (is_server role))
    ok (config_at_port cell role port)
