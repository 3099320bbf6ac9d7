-- ===== src/Tests/Servicers.antt =====
-- Servicers of a tool that starts a process and stages a file for every ESTABLISH.
use tls_interop_framework.Prelude.{
  Bool, [], false, if◌then◌else◌, is_some, none, refl, some, suc, true, ℕ, ◌∷◌, ◌≡◌,
}
use tls_interop_framework.Core.Catalog.{parsed}
use tls_interop_framework.Python.Json.{end, obj}
use tls_interop_framework.Python.Result.{ok}
use tls_interop_framework.Python.Text.{
  is_space, lit, lower, lower_char, lstrip, rstrip, rstrip_onto, strip,
}
use tls_interop_framework.Runner.Config.{OpType, OperationRequest, client, close, establish, server}
use tls_interop_framework.Runner.Driver.{
  Driver, check_response, request, returned, run_test_with_configs,
}
use tls_interop_framework.Runner.Outcome.{new_driver}
use tls_interop_framework.Runner.Params.{catalog_parameter_conflicts}
use tls_interop_framework.Tests.Data.{small_config}
use tls_interop_framework.Tests.Params.{strict_files, strict_reports}
use tls_interop_framework.Wrappers.Pair.{
  AreClean, ClosesArrive, Delivery, Pair, answer_lost, arrives, delivered, endpoints,
  run_test-AreClean,
}
use tls_interop_framework.Wrappers.Process.{Os, Servicer, gives, proc_of}
use tls_interop_framework.Wrappers.Servicer.{
  Launch, Wrapper, component_backend, new_servicer, response_of,
}
use tls_interop_framework.Wrappers.Servicer.Ledger.{Logged, logged, no_ledger}
use tls_interop_framework.Wrappers.Servicer.Requests.{execute_operation, serve}
use tls_interop_framework.Wrappers.Servicer.Skip.{unsupported-skip}
use tls_interop_framework.Wrappers.Servicer.Tracked.{IsTracked, fresh-IsTracked}
use tls_interop_framework.Wrappers.Servicer.Tracked.Close.{IsClean}
use tls_interop_framework.Wrappers.Servicer.Tracked.Served.{
  execute_operation-IsTracked, served_close-IsClean,
}

-- The world is the number of the next process. No process ends by itself.
abbrev quiet_os : Os ℕ
quiet_os = record {
  poll = λ p w. (none, w);
  terminate = λ p w. (true, w);
  kill = λ p w. (true, w);
  wait = λ p w. (true, w);
  read_stdout = λ p w. (lit "ok", w);
  write_stdin = λ p bytes w. (true, w);
  connects = λ host port p w. (none, w);
  remove = λ path w. w;
  cleanup_hook = λ w. w;
}

abbrev launch : ℕ → Launch
launch p = record {
  tracked_files = lit "/tmp/interop_key.pem" ∷ [];
  outcome = gives (some p, lit "tool", lit "started");
}

abbrev tool : Wrapper ℕ
tool = record {
  os = quiet_os;
  decode = λ raw. raw;
  read_capabilities = strict_files;
  backend = record {
    component_name = lit "nss";
    translate = λ role config w. (gives (lit "alpn" ∷ []), w);
    start = λ role config w. (launch w, suc w);
    parse_negotiated_params = λ out. [];
    infer_hrr_from_negotiation = λ config cmd out. false;
    client_establish_output_indicates_failure = λ out. none;
    describe = λ e. (lit "ValueError", []);
  };
}

abbrev open_tool : Wrapper ℕ
open_tool = record tool {
  read_capabilities = λ name. parsed (obj end);
  backend = record tool.backend { translate = λ role config w. (gives [], w) };
}

abbrev blank : Servicer ℕ
blank = new_servicer 0

abbrev blank_logged : Servicer (Logged ℕ)
blank_logged = new_servicer (0, no_ledger)

abbrev fresh_driver : Driver ℕ
fresh_driver = new_driver 0

abbrev start_server : OperationRequest
start_server = request establish server (some small_config) []

execute_operation-IsTracked_example :
    IsTracked (execute_operation (logged open_tool) start_server blank_logged).1
execute_operation-IsTracked_example =
    execute_operation-IsTracked open_tool start_server blank_logged (fresh-IsTracked 0)

served_close-IsClean_example :
    IsClean
      (execute_operation
        (logged open_tool)
        (request close server none [])
        (serve (logged open_tool) (start_server ∷ []) blank_logged)).1
served_close-IsClean_example = served_close-IsClean open_tool (start_server ∷ []) server 0

conflicts :
    catalog_parameter_conflicts tool.read_capabilities small_config
      (component_backend tool)
      (lit "alpn" ∷ [])
    ≡ ok (lit "expect_hrr" ∷ (lit "alpn" ∷ []))
unfolding lower strip lit lstrip rstrip rstrip_onto is_space lower_char
conflicts = strict_reports

unsupported-skip_example :
    let answer = execute_operation tool start_server blank in
    (proc_of server answer.1 ≡ none)
    × ((check_response (response_of answer.0) (lit "ESTABLISH server") fresh_driver).0
        ≡ returned false)
    × (is_some
          (check_response
            (response_of answer.0)
            (lit "ESTABLISH server")
            fresh_driver).1.last_skip_reason
        ≡ true)
unsupported-skip_example =
    unsupported-skip tool server small_config (lit "alpn" ∷ []) (lit "expect_hrr") (lit "alpn" ∷ [])
      (λ w. refl) conflicts [] blank (lit "ESTABLISH server") fresh_driver

abbrev pair : Pair ℕ
pair = record { shared = 0; server_side = blank_logged; client_side = blank_logged }

-- The answer of the server's ESTABLISH is lost.
abbrev lossy : OperationRequest → ℕ → Delivery × ℕ
lossy req w = (if is_establish req.op then answer_lost (lit "UNAVAILABLE") else delivered, w)
  where
    is_establish : OpType → Bool
    is_establish establish = true
    is_establish _ = false

lossy-closes : ClosesArrive lossy
unfolding ClosesArrive arrives request
lossy-closes server w = refl
lossy-closes client w = refl

run_test-AreClean_example :
    AreClean open_tool open_tool
      (λ w. (true, w))
      lossy
      (run_test_with_configs
        (endpoints open_tool open_tool (λ w. (true, w)) lossy)
        small_config
        small_config
        (new_driver pair)).1.world
unfolding new_driver
run_test-AreClean_example =
    run_test-AreClean open_tool open_tool (λ w. (true, w)) lossy lossy-closes small_config
      small_config (new_driver pair)
      (record { server = fresh-IsTracked 0; client = fresh-IsTracked 0 })
