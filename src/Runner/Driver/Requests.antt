-- ===== src/Runner/Driver/Requests.antt =====
-- The requests that a test sends, in order. The stubs are wrapped so that the world keeps a log of
-- the requests.
use tls_interop_framework.Prelude.{
  Bool, List, Option, [], ap, arith, false, none, refl, some, sym, true, ℕ, ◌++◌, ◌∙◌, ◌∷◌, ◌≡◌,
}
use tls_interop_framework.Python.Text.{Text, lit}
use tls_interop_framework.Runner.Config.{
  OpType, OperationRequest, OperationResponse, Role, TlsConfig, client, close, establish, server,
  transmit,
}
use tls_interop_framework.Runner.Driver.{
  Driver, Endpoints, Exec, Ran, Reply, and_then, answered, check_hrr_assertion, check_response,
  checked, cleanup, close_role, connect, continue, emergency_cleanup, emergency_close,
  emergency_noted, establish_checked, establish_client, execute, finally_cleanup, note,
  note_failure, raised, received, request, returned, run_post_establish_round_trip, run_protocol,
  run_test_with_configs, step, swallow, test_payload, transmit_server, verify, wants_resumption,
  ◌>>=◌,
}
use tls_interop_framework.Runner.Driver.Sending.{
  Logged, Sends, Sends-and_then, SendsFrom, after_call, check_hrr-Sends, check_response-Sends,
  client_requests, close_requests, log_of, logged, protocol_requests,
}
use mathlib.Core.List.{append-nil, append_assoc}

module _ {W : Type 0} (E : Endpoints W) where
  Sends-received :
      (req : OperationRequest) (ss : List OperationRequest) (before : List OperationRequest)
      (r : Reply × W) (d : Driver (Logged W)) (f : OperationResponse → Exec (Logged W) Bool)
      → ((resp : OperationResponse) → Sends ss (f resp))
      → SendsFrom
          (req ∷ ss)
          before
          (continue (received (logged E) (after_call (before ++ req ∷ []) r) d) f)
  unfolding received after_call
  Sends-received req ss before (answered resp, w) d f F =
      let T = F resp (record d { world = (w, before ++ req ∷ []) }) in
      record {
        sent = req ∷ T.sent;
        unsent = T.unsent;
        recorded = T.recorded ∙ append_assoc before (req ∷ []) T.sent;
        in_order = ap (λ l. req ∷ l) T.in_order;
        complete = T.complete;
      }
  Sends-received req ss before (raised e, w) d f F = record {
    sent = req ∷ [];
    unsent = ss;
    recorded = refl;
    in_order = refl;
    complete = λ h. absurd (ground arith);
  }

  Sends-execute :
      (op : OpType) (role : Role) (config : Option TlsConfig) (payload : List ℕ)
      (ss : List OperationRequest) (f : OperationResponse → Exec (Logged W) Bool)
      → ((resp : OperationResponse) → Sends ss (f resp))
      → Sends
          (request op role config payload ∷ ss)
          (execute (logged E) op role config payload >>= f)
  unfolding execute logged
  Sends-execute op role config payload ss f F d =
      Sends-received (request op role config payload) ss (log_of d)
        (E.call (request op role config payload) d.world.0) d f F

  Sends-step :
      (op : OpType) (role : Role) (config : Option TlsConfig) (payload : List ℕ) (label : Text)
      → Sends (request op role config payload ∷ []) (step (logged E) op role config payload label)
  unfolding step
  Sends-step op role config payload label =
      Sends-execute op role config payload [] (λ resp. check_response resp label)
        (λ resp. check_response-Sends resp label)

  verify-Sends : (resp : OperationResponse) → Sends [] (verify (logged E) resp)
  unfolding verify note_failure note
  verify-Sends resp d = record {
    sent = [];
    unsent = [];
    recorded = ground (arith, append-nil (log_of d));
    in_order = refl;
    complete = λ h. refl;
  }

  connect-Sends : Sends [] (connect (logged E))
  unfolding connect note_failure note logged
  connect-Sends d = record {
    sent = [];
    unsent = [];
    recorded = ground (arith, append-nil (log_of d));
    in_order = refl;
    complete = λ h. refl;
  }

  transmit_server-Sends : Sends (request transmit server none [] ∷ []) (transmit_server (logged E))
  unfolding transmit_server
  transmit_server-Sends =
      Sends-execute transmit server none [] []
        (λ r. and_then (check_response r (lit "TRANSMIT server")) (verify (logged E) r))
        (λ r.
          Sends-and_then [] [] _ _ (check_response-Sends r (lit "TRANSMIT server"))
            (verify-Sends r))

  round_trip-Sends :
      Sends
        (request transmit client none test_payload ∷ request transmit server none [] ∷ [])
        (run_post_establish_round_trip (logged E))
  unfolding run_post_establish_round_trip
  round_trip-Sends = Sends-and_then [] _ _ _ connect-Sends (
      Sends-and_then (request transmit client none test_payload ∷ []) _ _ _
        (Sends-step transmit client none test_payload (lit "TRANSMIT client"))
        transmit_server-Sends)

  establish_checked-Sends :
      (sent conf : TlsConfig) (label : Text)
      → Sends
          (request establish client (some sent) [] ∷ [])
          (establish_checked (logged E) sent conf label)
  unfolding establish_checked
  establish_checked-Sends sent conf label =
      Sends-execute establish client (some sent) [] []
        (λ r. and_then (check_response r label) (check_hrr_assertion r conf label))
        (λ r.
          Sends-and_then [] [] _ _ (check_response-Sends r label) (check_hrr-Sends r conf label))

  establish_client-Sends :
      (conf : TlsConfig) (resumption : Bool)
      → Sends (client_requests conf resumption) (establish_client (logged E) conf resumption)
  unfolding establish_client client_requests
  establish_client-Sends conf false = establish_checked-Sends conf conf (lit "ESTABLISH client")
  establish_client-Sends conf true =
      Sends-and_then
        (request establish client (some (record conf { resumption_step = lit "save" })) [] ∷ []) _ _
        _
        (establish_checked-Sends (record conf { resumption_step = lit "save" }) conf
          (lit "ESTABLISH client (resumption save)"))
        (Sends-step establish client (some (record conf { resumption_step = lit "resume" })) []
          (lit "ESTABLISH client (resumption resume)"))

  run_protocol-Sends :
      (server_conf client_conf : TlsConfig)
      → Sends
          (protocol_requests server_conf client_conf)
          (run_protocol (logged E) server_conf client_conf)
  unfolding run_protocol protocol_requests
  run_protocol-Sends server_conf client_conf =
      Sends-and_then (request establish server (some server_conf) [] ∷ []) _ _ _
        (Sends-step establish server (some server_conf) [] (lit "ESTABLISH server"))
        (Sends-and_then (client_requests client_conf (wants_resumption client_conf)) _ _ _
          (establish_client-Sends client_conf (wants_resumption client_conf)) round_trip-Sends)

  log-swallowed :
      (req : OperationRequest) (before : List OperationRequest) (r : Reply × W)
      (d : Driver (Logged W)) (label : Text)
      → log_of (
          swallow (logged E) (
            continue
              (received (logged E) (after_call (before ++ req ∷ []) r) d)
              (λ resp. check_response resp label)))
        ≡ before ++ req ∷ []
  unfolding swallow received after_call check_response checked note
  log-swallowed req before (answered resp, w) d label = ground arith
  log-swallowed req before (raised e, w) d label = refl

  log-close_role :
      (role : Role) (label : Text) (d : Driver (Logged W))
      → log_of (close_role (logged E) role label d) ≡ log_of d ++ request close role none [] ∷ []
  unfolding close_role execute logged
  log-close_role role label d =
      log-swallowed (request close role none []) (log_of d)
        (E.call (request close role none []) d.world.0) d label

  log-cleanup : (d : Driver (Logged W)) → log_of (cleanup (logged E) d) ≡ log_of d ++ close_requests
  unfolding cleanup
  log-cleanup d =
      log-close_role client (lit "CLOSE client")
        (close_role (logged E) server (lit "CLOSE server") d)
      ∙ ap (λ l. l ++ request close client none [] ∷ [])
          (log-close_role server (lit "CLOSE server") d)
      ∙ append_assoc (log_of d) (request close server none [] ∷ [])
          (request close client none [] ∷ [])

  log-noted :
      (label : Text) (req : OperationRequest) (before : List OperationRequest) (r : Reply × W)
      (d : Driver (Logged W))
      → log_of (
          emergency_noted
            (logged E)
            label
            (received (logged E) (after_call (before ++ req ∷ []) r) d))
        ≡ before ++ req ∷ []
  unfolding emergency_noted received after_call note
  log-noted label req before (answered resp, w) d = refl
  log-noted label req before (raised e, w) d = refl

  log-emergency_close :
      (role : Role) (label : Text) (d : Driver (Logged W))
      → log_of (emergency_close (logged E) role label d)
        ≡ log_of d ++ request close role none [] ∷ []
  unfolding emergency_close execute logged
  log-emergency_close role label d =
      log-noted label (request close role none []) (log_of d)
        (E.call (request close role none []) d.world.0) d

  -- The cleanup of a cell that has timed out sends a CLOSE to the server and then a CLOSE to the
  -- client, in whatever state the worker thread has left the driver and whatever the answers are.
  pub emergency_cleanup-requests :
      (d : Driver (Logged W)) → log_of (emergency_cleanup (logged E) d) ≡ log_of d ++ close_requests
  unfolding emergency_cleanup
  emergency_cleanup-requests d =
      log-emergency_close client (lit "CLOSE client (timeout watchdog)")
        (emergency_close (logged E) server (lit "CLOSE server (timeout watchdog)") d)
      ∙ ap (λ l. l ++ request close client none [] ∷ [])
          (log-emergency_close server (lit "CLOSE server (timeout watchdog)") d)
      ∙ append_assoc (log_of d) (request close server none [] ∷ [])
          (request close client none [] ∷ [])

  log-finally :
      (rs before : List OperationRequest) (r : Ran Bool × Driver (Logged W))
      (S : SendsFrom rs before r)
      → log_of (finally_cleanup (logged E) r).1 ≡ before ++ (S.sent ++ close_requests)
  unfolding finally_cleanup
  log-finally rs before (r, d) S =
      log-cleanup d
      ∙ ap (λ l. l ++ close_requests) S.recorded
      ∙ append_assoc before S.sent close_requests

  result-finally : (r : Ran Bool × Driver (Logged W)) → (finally_cleanup (logged E) r).0 ≡ r.0
  unfolding finally_cleanup
  result-finally (r, d) = refl

  -- Whether a test returns or raises, and whatever the wrappers answer, it sends a first part of the
  -- protocol's requests in order, and then a CLOSE to the server and a CLOSE to the client.
  pub run_test-requests :
      (server_conf client_conf : TlsConfig) (d : Driver (Logged W))
      → (sent : List OperationRequest) × (unsent : List OperationRequest) × (sent ++ unsent
          ≡ protocol_requests server_conf client_conf)
        × (log_of (run_test_with_configs (logged E) server_conf client_conf d).1
            ≡ log_of d ++ (sent ++ close_requests))
  unfolding run_test_with_configs
  run_test-requests server_conf client_conf d =
      let d₀ = record d { last_skip_reason = none } in
      let r = run_protocol (logged E) server_conf client_conf d₀ in
      let S = run_protocol-Sends server_conf client_conf d₀ in
      (
        S.sent,
        S.unsent,
        S.in_order,
        log-finally (protocol_requests server_conf client_conf) (log_of d) r S,
      )

  all_sent :
      (rs before : List OperationRequest) (r : Ran Bool × Driver (Logged W))
      → SendsFrom rs before r
      → (finally_cleanup (logged E) r).0 ≡ returned true
      → log_of (finally_cleanup (logged E) r).1 ≡ before ++ (rs ++ close_requests)
  all_sent rs before r S h =
      let whole =
        sym (append-nil S.sent)
        ∙ ap (λ l. S.sent ++ l) (sym (S.complete (sym (result-finally r) ∙ h)))
        ∙ S.in_order in
      log-finally rs before r S ∙ ap (λ l. before ++ (l ++ close_requests)) whole

  -- A test that returns true has sent exactly the requests of the protocol in order, and then a
  -- CLOSE to the server and a CLOSE to the client.
  pub run_test-all_requests :
      (server_conf client_conf : TlsConfig) (d : Driver (Logged W))
      → (run_test_with_configs (logged E) server_conf client_conf d).0 ≡ returned true
      → log_of (run_test_with_configs (logged E) server_conf client_conf d).1
        ≡ log_of d ++ (protocol_requests server_conf client_conf ++ close_requests)
  unfolding run_test_with_configs
  run_test-all_requests server_conf client_conf d h =
      let d₀ = record d { last_skip_reason = none } in
      all_sent (protocol_requests server_conf client_conf) (log_of d)
        (run_protocol (logged E) server_conf client_conf d₀)
        (run_protocol-Sends server_conf client_conf d₀) h
