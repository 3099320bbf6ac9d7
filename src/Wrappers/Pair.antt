-- ===== src/Wrappers/Pair.antt =====
-- A test that the driver runs against two servicers. They share the world of the operating system,
-- and each keeps its own ledger.
use tls_interop_framework.Prelude.{Bool, [], ap, arith, false, none, sym, true, ◌∙◌, ◌≡◌}
use tls_interop_framework.Python.Text.{Text, lit}
use tls_interop_framework.Runner.Config.{OperationRequest, Role, TlsConfig, client, close, server}
use tls_interop_framework.Runner.Driver.{
  Driver, Endpoints, Ran, Reply, answered, cleanup, close_role, finally_cleanup, raised, request,
  run_protocol, run_test_with_configs,
}
use tls_interop_framework.Runner.Driver.Holding.{run_protocol-Holds, world-close_role}
use tls_interop_framework.Wrappers.Process.{Servicer}
use tls_interop_framework.Wrappers.Servicer.{OpResult, Wrapper, response_of}
use tls_interop_framework.Wrappers.Servicer.Ledger.{Logged, logged}
use tls_interop_framework.Wrappers.Servicer.Requests.{execute_operation}
use tls_interop_framework.Wrappers.Servicer.Tracked.{IsTracked}
use tls_interop_framework.Wrappers.Servicer.Tracked.Close.{IsClean}
use tls_interop_framework.Wrappers.Servicer.Tracked.Served.{
  execute_close-IsClean, execute_operation-IsTracked,
}
use mathlib.Core.Path.{subst}

pub record Pair (W : Type 0) : Type 0 where
  pub shared : W
  pub server_side : Servicer (Logged W)
  pub client_side : Servicer (Logged W)

-- A servicer in the shared world.
abbrev pub within : {W : Type 0} → W → Servicer (Logged W) → Servicer (Logged W)
within w s = record s { world = (w, s.world.1) }

-- What becomes of a gRPC call: it is answered, its request is lost, or its answer is. The call of the
-- stub raises in the last two.
pub data Delivery : Type 0 where
  delivered : Delivery
  request_lost answer_lost : Text → Delivery

-- The servicer gets the request.
unfoldable pub arrives : Delivery → Bool
arrives (request_lost e) = false
arrives _ = true

-- Every CLOSE that the driver sends gets to its servicer.
unfoldable pub ClosesArrive : {W : Type 0} → (OperationRequest → W → Delivery × W) → Type 0
ClosesArrive {W = W} wire =
    (role : Role) (w : W) → arrives (wire (request close role none []) w).0 ≡ true

module _ {W : Type 0} (server_tool client_tool : Wrapper W) (probe : W → Bool × W)
    (wire : OperationRequest → W → Delivery × W) where
  unfoldable pub from_server : Pair W → OpResult × Servicer (Logged W) → Reply × Pair W
  from_server p (r, s) =
      (answered (response_of r), record p { shared = s.world.0; server_side = s })

  unfoldable pub from_client : Pair W → OpResult × Servicer (Logged W) → Reply × Pair W
  from_client p (r, s) =
      (answered (response_of r), record p { shared = s.world.0; client_side = s })

  unfoldable pub serve_role : Role → OperationRequest → Pair W → Reply × Pair W
  unfolding from_server from_client
  serve_role server req p =
      from_server p (execute_operation (logged server_tool) req (within p.shared p.server_side))
  serve_role client req p =
      from_client p (execute_operation (logged client_tool) req (within p.shared p.client_side))

  unfoldable pub without_answer : Text → Reply × Pair W → Reply × Pair W
  without_answer e (reply, p) = (raised e, p)

  unfoldable pub deliver : Role → OperationRequest → Pair W → Delivery × W → Reply × Pair W
  unfolding without_answer
  deliver role req p (delivered, w) = serve_role role req (record p { shared = w })
  deliver role req p (request_lost e, w) = (raised e, record p { shared = w })
  deliver role req p (answer_lost e, w) =
      without_answer e (serve_role role req (record p { shared = w }))

  -- The call of a stub.
  unfoldable pub call_role : Role → OperationRequest → Pair W → Reply × Pair W
  unfolding deliver
  call_role role req p = deliver role req p (wire req p.shared)

  unfoldable pub probed : Pair W → Bool × W → Bool × Pair W
  probed p (b, w) = (b, record p { shared = w })

  -- The two servicers as the endpoints of a driver.
  unfoldable pub endpoints : Endpoints (Pair W)
  unfolding probed
  endpoints = record {
    call = λ req p. call_role req.role req p;
    tcp_connects = λ p. probed p (probe p.shared);
  }

  -- Neither servicer has lost a process or a file.
  pub record AreTracked (p : Pair W) : Type 0 where
    pub server : IsTracked p.server_side
    pub client : IsTracked p.client_side

  -- Neither servicer holds anything.
  pub record AreClean (p : Pair W) : Type 0 where
    pub server : IsClean p.server_side
    pub client : IsClean p.client_side

  within-IsTracked : (w : W) (s : Servicer (Logged W)) → IsTracked s → IsTracked (within w s)
  within-IsTracked w s T = record { processes = T.processes; files = T.files }

  serve_role-AreTracked :
      (role : Role) (req : OperationRequest) (p : Pair W)
      → AreTracked p
      → AreTracked (serve_role role req p).1
  unfolding serve_role from_server from_client
  serve_role-AreTracked server req p T = record {
    server =
        execute_operation-IsTracked server_tool req (within p.shared p.server_side)
          (within-IsTracked p.shared p.server_side T.server);
    client = T.client;
  }
  serve_role-AreTracked client req p T = record {
    server = T.server;
    client =
        execute_operation-IsTracked client_tool req (within p.shared p.client_side)
          (within-IsTracked p.shared p.client_side T.client);
  }

  shared-AreTracked : (w : W) (p : Pair W) → AreTracked p → AreTracked (record p { shared = w })
  shared-AreTracked w p T = record { server = T.server; client = T.client }

  deliver-AreTracked :
      (role : Role) (req : OperationRequest) (p : Pair W) (r : Delivery × W)
      → AreTracked p
      → AreTracked (deliver role req p r).1
  unfolding deliver without_answer
  deliver-AreTracked role req p (delivered, w) T =
      serve_role-AreTracked role req (record p { shared = w }) (shared-AreTracked w p T)
  deliver-AreTracked role req p (request_lost e, w) T = shared-AreTracked w p T
  deliver-AreTracked role req p (answer_lost e, w) T =
      serve_role-AreTracked role req (record p { shared = w }) (shared-AreTracked w p T)

  call-AreTracked :
      (req : OperationRequest) (p : Pair W) → AreTracked p → AreTracked (endpoints.call req p).1
  unfolding endpoints call_role
  call-AreTracked req p T = deliver-AreTracked req.role req p (wire req p.shared) T

  probe-AreTracked : (p : Pair W) → AreTracked p → AreTracked (endpoints.tcp_connects p).1
  unfolding endpoints probed
  probe-AreTracked p T = record { server = T.server; client = T.client }

  -- A CLOSE that arrives, at the server and then at the client.
  close_server :
      (p : Pair W) (r : Delivery × W)
      → arrives r.0 ≡ true
      → AreTracked p
      → IsClean (deliver server (request close server none []) p r).1.server_side
  unfolding deliver without_answer serve_role from_server arrives
  close_server p (delivered, w) a T =
      execute_close-IsClean server_tool server none [] (within w p.server_side)
        (within-IsTracked w p.server_side T.server)
  close_server p (request_lost e, w) a T = absurd (ground arith)
  close_server p (answer_lost e, w) a T =
      execute_close-IsClean server_tool server none [] (within w p.server_side)
        (within-IsTracked w p.server_side T.server)

  close_client :
      (p : Pair W) (r : Delivery × W)
      → arrives r.0 ≡ true
      → AreTracked p
      → IsClean p.server_side
      → AreClean (deliver client (request close client none []) p r).1
  unfolding deliver without_answer serve_role from_client arrives
  close_client p (delivered, w) a T C = record {
    server = C;
    client =
        execute_close-IsClean client_tool client none [] (within w p.client_side)
          (within-IsTracked w p.client_side T.client);
  }
  close_client p (request_lost e, w) a T C = absurd (ground arith)
  close_client p (answer_lost e, w) a T C = record {
    server = C;
    client =
        execute_close-IsClean client_tool client none [] (within w p.client_side)
          (within-IsTracked w p.client_side T.client);
  }

  closes :
      ClosesArrive wire
      → (p : Pair W) → AreTracked p
      → AreClean
          (endpoints.call
            (request close client none [])
            (endpoints.call (request close server none []) p).1).1
  unfolding endpoints call_role request ClosesArrive
  closes arrive p T =
      let to_server = request close server none [] in
      let q = (deliver server to_server p (wire to_server p.shared)).1 in
      close_client q (wire (request close client none []) q.shared) (arrive client q.shared)
        (deliver-AreTracked server to_server p (wire to_server p.shared) T)
        (close_server p (wire to_server p.shared) (arrive server p.shared) T)

  cleanup-AreClean :
      ClosesArrive wire
      → (d : Driver (Pair W)) → AreTracked d.world
      → AreClean (cleanup endpoints d).world
  unfolding cleanup
  cleanup-AreClean arrive d T =
      let d' = close_role endpoints server (lit "CLOSE server") d in
      subst AreClean
        (sym (
          world-close_role endpoints client (lit "CLOSE client") d'
          ∙ ap (λ p. (endpoints.call (request close client none []) p).1)
              (world-close_role endpoints server (lit "CLOSE server") d)))
        (closes arrive d.world T)

  finally-AreClean :
      ClosesArrive wire
      → (r : Ran Bool × Driver (Pair W)) → AreTracked r.1.world
      → AreClean (finally_cleanup endpoints r).1.world
  unfolding finally_cleanup
  finally-AreClean arrive (x, d) T = cleanup-AreClean arrive d T

  -- After a test against two servicers that have lost nothing so far, if its two CLOSE requests get to
  -- them, every process that they started was seen to have exited or was told to end, every file that
  -- they tracked was given to `os.remove`, and they hold no process and no file. Any other request and
  -- any answer may be lost, and the test may pass, fail or raise. Files that are written and never
  -- tracked are not meant.
  pub run_test-AreClean :
      ClosesArrive wire
      → (server_conf client_conf : TlsConfig) (d : Driver (Pair W)) → AreTracked d.world
      → AreClean (run_test_with_configs endpoints server_conf client_conf d).1.world
  unfolding run_test_with_configs
  run_test-AreClean arrive server_conf client_conf d T =
      finally-AreClean arrive
        (run_protocol endpoints server_conf client_conf (record d { last_skip_reason = none }))
        (run_protocol-Holds endpoints AreTracked call-AreTracked probe-AreTracked server_conf
          client_conf (record d { last_skip_reason = none }) T)
