-- ===== src/Core/Orchestration.antt =====
-- core/orchestration.py and core/runner.py: the endpoints of the backends, and the ports of the
-- worker slots.
pub mod Ports
use tls_interop_framework.Prelude.{
  Bool, List, Option, [], all, false, if◌then◌else◌, is_empty, leb, negsuc, none, not, pos, some,
  suc, true, zero, ℕ, ◌*◌, ◌++◌, ◌+◌, ◌==◌, ◌||◌, ◌∷◌,
}
use tls_interop_framework.Core.Catalog.{CapabilityFile, load_backend_capabilities, runtime}
use tls_interop_framework.Python.Args.{Namespace, arg_int, attribute, int_of_text, is_digit}
use tls_interop_framework.Python.Dict.{Dict}
use tls_interop_framework.Python.Json.{Json, decimal, py_str, text}
use tls_interop_framework.Python.Result.{
  Result, bad_address, err, grpc_addr_missing, ok, port_out_of_range, traverse, ◌>>=◌,
}
use tls_interop_framework.Python.Text.{Text, has_char, lit, lower, or_text, strip}

abbrev pub worker_port_stride : ℕ
worker_port_stride = 100

abbrev pub max_parallel_jobs : ℕ
max_parallel_jobs = 32

-- `str.rpartition(":")`: what stands before and after the last colon.
unfoldable pub rpartition : Text → Text × Text
rpartition [] = ([], [])
rpartition (c ∷ s) =
    let rest = rpartition s in
    if has_char b':' s then (c ∷ rest.0, rest.1) else if c == b':' then ([], s) else ([], c ∷ s)

-- The port of an address, which must be digits only.
unfoldable pub grpc_port : Text → Result ℕ
grpc_port addr =
    let port_s = (rpartition addr).1 in
    if is_empty port_s || not (all is_digit port_s)
    then err (bad_address addr)
    else elim (int_of_text port_s) [ some (pos n) ↦ ok n | _ ↦ err (bad_address addr) ]

unfoldable pub grpc_host : Text → Text
grpc_host addr = or_text (rpartition addr).0 (lit "127.0.0.1")

unfoldable pub with_port_override : Text → Option ℕ → Text
with_port_override addr none = addr
with_port_override addr (some zero) = addr
with_port_override addr (some (suc p)) = grpc_host addr ++ b':' ∷ decimal (suc p)

unfoldable pub is_text : Json → Bool
is_text (text s) = true
is_text _ = false

module _ (read_capabilities : Text → CapabilityFile) where
  unfoldable pub backend_grpc_addr : Text → Option ℕ → Result Text
  backend_grpc_addr backend_name port_override = do
    caps ← load_backend_capabilities read_capabilities backend_name
    let value = (runtime caps).grpc_addr
    let addr = strip (py_str value)
    if not (is_text value) || is_empty addr
        then err (grpc_addr_missing backend_name)
        else ok (with_port_override addr port_override)

  -- `_worker_slot_grpc_overrides`: one port for each backend.
  unfoldable pub slot_port : ℕ → Text → Result (Text × ℕ)
  slot_port slot_id backend = do
    addr ← backend_grpc_addr (lower (strip backend)) none
    base_grpc ← grpc_port addr
    ok (lower (strip backend), base_grpc + slot_id * worker_port_stride)

  unfoldable pub worker_slot_grpc_overrides : List Text → ℕ → Result (Dict ℕ)
  worker_slot_grpc_overrides backends slot_id = traverse (slot_port slot_id) backends

-- The port that `WrapperSession.tls_endpoint` gives a slot, from the backend's own.
unfoldable pub slot_tls_port : ℕ → Option ℕ → ℕ
slot_tls_port base_port none = base_port
slot_tls_port base_port (some slot_id) = base_port + slot_id * worker_port_stride

-- `validate_run_args`
unfoldable pub validate_run_args : Namespace → Result (Unit {0})
validate_run_args args = do
  port ← arg_int (attribute (lit "tls_port") args)
  elim port [
    | pos n ↦ if leb n 65535 then ok tt else err port_out_of_range
    | negsuc n ↦ err port_out_of_range
  ]
