-- ===== src/Runner/Cell.antt =====
-- core/runner.py: `execute_matrix_cell`, from a cell and a session to an exit code.
use tls_interop_framework.Prelude.{
  Bool, List, Option, if◌then◌else◌, is_empty, ltb, negsuc, none, pos, some, suc, ℕ, ℤ, ◌*◌, ◌-◌,
}
use tls_interop_framework.Core.Catalog.{CapabilityFile, load_backend_capabilities, runtime}
use tls_interop_framework.Core.Cell.{CellMap, backend_of, cell_field}
use tls_interop_framework.Core.Orchestration.{slot_tls_port, worker_port_stride}
use tls_interop_framework.Python.Args.{int_of_text}
use tls_interop_framework.Python.Dict.{Dict}
use tls_interop_framework.Python.Json.{Json, bool, num, or_json, py_str}
use tls_interop_framework.Python.Result.{Result, bad_integer, err, ok, ◌>>=◌}
use tls_interop_framework.Python.Text.{Text, lit, lower, strip}
use tls_interop_framework.Runner.Config.{TlsConfig, client, port_of, server, tls_config_from_cell}
use tls_interop_framework.Runner.Driver.{Driver, Endpoints}
use tls_interop_framework.Runner.Outcome.{Worker, drive_cell}

-- `int(value)` of a JSON number or text.
unfoldable pub json_int : Json → Result ℤ
json_int (num n) = ok (pos n)
json_int (bool b) = ok (pos (if b then 1 else 0))
json_int v = elim (int_of_text (py_str v)) [ none ↦ err (bad_integer (py_str v)) | some n ↦ ok n ]

unfoldable pub offset_port : ℤ → Option ℕ → ℤ
offset_port port none = port
offset_port (pos p) (some slot_id) = pos (slot_tls_port p (some slot_id))
offset_port (negsuc n) (some slot_id) =
    let up = slot_id * worker_port_stride in if ltb n up then pos (up - suc n) else negsuc (n - up)

-- The texts that a session gives to a wrapper process.
pub record Session : Type 0 where
  pub slot_id : Option ℕ
  pub grpc_port_overrides : Dict ℕ
  pub root : Text

module _ (read_capabilities : Text → CapabilityFile) (is_file : Text → Bool)
    (read_bytes : Text → List ℕ) where
  -- The port of `backend_tls_endpoint`.
  unfoldable pub backend_tls_port : Text → Result ℤ
  backend_tls_port backend = do
    caps ← load_backend_capabilities read_capabilities backend
    json_int (or_json (runtime caps).tls_port (num 25551))

  unfoldable pub session_tls_port : Session → Text → Result ℤ
  session_tls_port session backend = do
    base_port ← backend_tls_port (lower (strip backend))
    ok (offset_port base_port session.slot_id)

  -- The port that `apply_matrix_tls_endpoints` sets on both sides.
  unfoldable pub matrix_tls_port : CellMap → Session → Result ℤ
  matrix_tls_port cell session =
      let port_raw = cell_field (lit "tls_port") cell in
      if is_empty port_raw
      then session_tls_port session (backend_of (lit "server") cell)
      else do unused ← backend_tls_port (backend_of (lit "server") cell); port_of port_raw

  -- The configurations of both sides, completed for the session.
  unfoldable pub cell_configs : CellMap → Session → Result (TlsConfig × TlsConfig)
  cell_configs cell session = do
    server_conf ← tls_config_from_cell read_capabilities is_file read_bytes cell server
    client_conf ← tls_config_from_cell read_capabilities is_file read_bytes cell client
    port ← matrix_tls_port cell session
    ok (
      record server_conf { port = port; repo_root = session.root },
      record client_conf {
        port = port;
        repo_root = session.root;
        server_hostname = lit "127.0.0.1";
      },
    )

  unfoldable pub execute_matrix_cell :
      {W : Type 0} → Endpoints W → CellMap → Session → Worker W → W → Result (ℕ × Driver W)
  execute_matrix_cell E cell session worker w = do
    configs ← cell_configs cell session
    ok (drive_cell E configs.0 configs.1 worker w)
