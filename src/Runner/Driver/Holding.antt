-- ===== src/Runner/Driver/Holding.antt =====
-- What every call of the endpoints preserves holds after every part of a test.
use tls_interop_framework.Prelude.{
  Bool, List, Option, [], arith, false, none, refl, some, true, ℕ, ◌≡◌,
}
use tls_interop_framework.Python.Text.{Text, lit}
use tls_interop_framework.Runner.Config.{
  OpType, OperationRequest, OperationResponse, Role, TlsConfig, client, close, establish, server,
  transmit,
}
use tls_interop_framework.Runner.Driver.{
  Driver, Endpoints, Exec, Ran, Reply, and_then, answered, check_hrr_assertion, check_response,
  checked, close_role, connect, continue, establish_checked, establish_client, execute, note,
  note_failure, pure, raised, received, request, returned, run_post_establish_round_trip,
  run_protocol, step, swallow, test_payload, threw, transmit_server, verify, wants_resumption,
  ◌>>=◌,
}

module _ {W : Type 0} (E : Endpoints W) (I : W → Type 0)
    (calls : (req : OperationRequest) (w : W) → I w → I (E.call req w).1)
    (probes : (w : W) → I w → I (E.tcp_connects w).1) where
  unfoldable pub Holds : Exec W Bool → Type 0
  Holds m = (d : Driver W) → I d.world → I (m d).1.world

  continue-Holds :
      (k : Exec W Bool) (r : Ran Bool × Driver W)
      → Holds k
      → I r.1.world
      → I (continue r (λ passed. elim passed [ true ↦ k | false ↦ pure false ])).1.world
  unfolding Holds
  continue-Holds k (returned true, d) K i = K d i
  continue-Holds k (returned false, d) K i = i
  continue-Holds k (threw e, d) K i = i

  pub and_then-Holds : (m k : Exec W Bool) → Holds m → Holds k → Holds (and_then m k)
  unfolding Holds
  and_then-Holds m k M K d i = continue-Holds k (m d) K (M d i)

  received-Holds :
      (r : Reply × W) (d : Driver W) (f : OperationResponse → Exec W Bool)
      → ((resp : OperationResponse) → Holds (f resp))
      → I r.1
      → I (continue (received E r d) f).1.world
  unfolding Holds received
  received-Holds (answered resp, w) d f F i = F resp (record d { world = w }) i
  received-Holds (raised e, w) d f F i = i

  execute-Holds :
      (op : OpType) (role : Role) (config : Option TlsConfig) (payload : List ℕ)
      (f : OperationResponse → Exec W Bool)
      → ((resp : OperationResponse) → Holds (f resp))
      → Holds (execute E op role config payload >>= f)
  unfolding Holds execute
  execute-Holds op role config payload f F d i =
      received-Holds (E.call (request op role config payload) d.world) d f F
        (calls (request op role config payload) d.world i)

  pub check_response-Holds :
      (resp : OperationResponse) (label : Text) → Holds (check_response resp label)
  unfolding Holds check_response checked note
  check_response-Holds resp label d i = ground arith

  pub check_hrr-Holds :
      (resp : OperationResponse) (conf : TlsConfig) (label : Text)
      → Holds (check_hrr_assertion resp conf label)
  unfolding Holds check_hrr_assertion note_failure note
  check_hrr-Holds resp conf label d i = ground arith

  pub verify-Holds : (resp : OperationResponse) → Holds (verify E resp)
  unfolding Holds verify note_failure note
  verify-Holds resp d i = ground arith

  connect-Holds : Holds (connect E)
  unfolding Holds connect note_failure note
  connect-Holds d i = ground (arith, probes d.world i)

  pub step-Holds :
      (op : OpType) (role : Role) (config : Option TlsConfig) (payload : List ℕ) (label : Text)
      → Holds (step E op role config payload label)
  unfolding step
  step-Holds op role config payload label =
      execute-Holds op role config payload (λ resp. check_response resp label)
        (λ resp. check_response-Holds resp label)

  transmit_server-Holds : Holds (transmit_server E)
  unfolding transmit_server
  transmit_server-Holds =
      execute-Holds transmit server none []
        (λ r. and_then (check_response r (lit "TRANSMIT server")) (verify E r))
        (λ r. and_then-Holds _ _ (check_response-Holds r (lit "TRANSMIT server")) (verify-Holds r))

  pub round_trip-Holds : Holds (run_post_establish_round_trip E)
  unfolding run_post_establish_round_trip
  round_trip-Holds = and_then-Holds _ _ connect-Holds (
      and_then-Holds _ _ (step-Holds transmit client none test_payload (lit "TRANSMIT client"))
        transmit_server-Holds)

  establish_checked-Holds :
      (sent conf : TlsConfig) (label : Text) → Holds (establish_checked E sent conf label)
  unfolding establish_checked
  establish_checked-Holds sent conf label =
      execute-Holds establish client (some sent) []
        (λ r. and_then (check_response r label) (check_hrr_assertion r conf label))
        (λ r. and_then-Holds _ _ (check_response-Holds r label) (check_hrr-Holds r conf label))

  establish_client-Holds :
      (conf : TlsConfig) (resumption : Bool) → Holds (establish_client E conf resumption)
  unfolding establish_client
  establish_client-Holds conf false = establish_checked-Holds conf conf (lit "ESTABLISH client")
  establish_client-Holds conf true =
      and_then-Holds _ _
        (establish_checked-Holds (record conf { resumption_step = lit "save" }) conf
          (lit "ESTABLISH client (resumption save)"))
        (step-Holds establish client (some (record conf { resumption_step = lit "resume" })) []
          (lit "ESTABLISH client (resumption resume)"))

  -- The protocol of a test.
  pub run_protocol-Holds :
      (server_conf client_conf : TlsConfig) (d : Driver W)
      → I d.world
      → I (run_protocol E server_conf client_conf d).1.world
  unfolding run_protocol Holds
  run_protocol-Holds server_conf client_conf =
      and_then-Holds (step E establish server (some server_conf) [] (lit "ESTABLISH server"))
        (and_then (establish_client E client_conf (wants_resumption client_conf))
          (run_post_establish_round_trip E))
        (step-Holds establish server (some server_conf) [] (lit "ESTABLISH server"))
        (and_then-Holds (establish_client E client_conf (wants_resumption client_conf))
          (run_post_establish_round_trip E)
          (establish_client-Holds client_conf (wants_resumption client_conf)) round_trip-Holds)

module _ {W : Type 0} (E : Endpoints W) where
  closed :
      (role : Role) (label : Text) (r : Reply × W) (d : Driver W)
      → (swallow E (continue (received E r d) (λ resp. check_response resp label))).world ≡ r.1
  unfolding received swallow check_response checked note
  closed role label (answered resp, w) d = ground arith
  closed role label (raised e, w) d = refl

  -- A CLOSE changes the world by its call alone.
  pub world-close_role :
      (role : Role) (label : Text) (d : Driver W)
      → (close_role E role label d).world ≡ (E.call (request close role none []) d.world).1
  unfolding close_role execute
  world-close_role role label d = closed role label (E.call (request close role none []) d.world) d
