-- ===== src/Runner/Driver/Passing.antt =====
-- What a test that returns true has heard. A mismatch is never reported as a pass.
use tls_interop_framework.Prelude.{Bool, List, [], false, none, some, sym, true, ◌≡◌}
use tls_interop_framework.Python.Text.{Text, lit}
use tls_interop_framework.Runner.Config.{
  OperationRequest, OperationResponse, TlsConfig, client, close, establish, server, success,
  transmit,
}
use tls_interop_framework.Runner.Driver.{
  Driver, Endpoints, Exec, Ran, and_then, answered, check_hrr_assertion, check_response, cleanup,
  close_role, connect, establish_checked, establish_client, finally_cleanup, request, returned,
  run_post_establish_round_trip, run_protocol, run_test_with_configs, step, test_payload,
  transmit_server, verify, wants_resumption,
}
use tls_interop_framework.Runner.Driver.Holding.{
  Holds, and_then-Holds, check_hrr-Holds, check_response-Holds, round_trip-Holds, step-Holds,
  verify-Holds, world-close_role,
}
use tls_interop_framework.Runner.Driver.Transcript.{
  Echoed, Exchange, Heard, Retried, Transcript, and_then-true, echo_judged, echo_request, exchanged,
  execute-true, first_sent, heard_earlier, heard_last, hrr_judged, of_finally, probed_beside,
  traced,
}
use mathlib.Core.Path.{subst}

module _ {W : Type 0} (E : Endpoints W) where
  abbrev T : Endpoints (Transcript W)
  T = traced E

  call-Heard :
      (x : Exchange) (req : OperationRequest) (w : Transcript W)
      → Heard x w.1
      → Heard x (T.call req w).1.1
  unfolding traced exchanged
  call-Heard x req w h = heard_earlier h

  probe-Heard : (x : Exchange) (w : Transcript W) → Heard x w.1 → Heard x (T.tcp_connects w).1.1
  unfolding traced probed_beside
  probe-Heard x w h = h

  -- What was heard before a part of a test that keeps the transcript was heard after it.
  still :
      (x : Exchange) (m : Exec (Transcript W) Bool) (d d' : Driver (Transcript W))
      → Holds T (λ w. Heard x w.1) (call-Heard x) (probe-Heard x) m
      → m d ≡ (returned true, d')
      → Heard x d.world.1
      → Heard x d'.world.1
  unfolding Holds
  still x m d d' H ran h = subst (λ r. Heard x r.1.world.1) ran (H d h)

  answered-Heard :
      (req : OperationRequest) (w : Transcript W) (resp : OperationResponse) (v : Transcript W)
      → T.call req w ≡ (answered resp, v)
      → Heard (req, answered resp) v.1
  unfolding traced exchanged
  answered-Heard req w resp v call = subst (λ r. Heard (req, r.0) r.1.1) call heard_last

  transmit_server-Echoed :
      (d d' : Driver (Transcript W)) → transmit_server T d ≡ (returned true, d') → Echoed d'.world.1
  unfolding transmit_server
  transmit_server-Echoed d d' h =
      let judge = λ (r : OperationResponse).
        and_then (check_response r (lit "TRANSMIT server")) (verify T r) in
      let (resp, w, call, rest) = execute-true T transmit server none [] d d' judge h in
      let (ok_status, echoed) = echo_judged T resp (record d { world = w }) d' rest in
      (
        resp,
        still (echo_request, answered resp) (judge resp) (record d { world = w }) d'
            (and_then-Holds T (λ v. Heard (echo_request, answered resp) v.1)
              (call-Heard (echo_request, answered resp)) (probe-Heard (echo_request, answered resp))
              _ _
              (check_response-Holds T (λ v. Heard (echo_request, answered resp) v.1)
                (call-Heard (echo_request, answered resp))
                (probe-Heard (echo_request, answered resp)) resp (lit "TRANSMIT server"))
              (verify-Holds T (λ v. Heard (echo_request, answered resp) v.1)
                (call-Heard (echo_request, answered resp))
                (probe-Heard (echo_request, answered resp)) resp))
            rest (answered-Heard echo_request d.world resp w call),
        ok_status,
        echoed,
      )

  round_trip-Echoed :
      (d d' : Driver (Transcript W))
      → run_post_establish_round_trip T d ≡ (returned true, d')
      → Echoed d'.world.1
  unfolding run_post_establish_round_trip
  round_trip-Echoed d d' h =
      let sent = step T transmit client none test_payload (lit "TRANSMIT client") in
      let (d₁, p, q) = and_then-true (connect T) (and_then sent (transmit_server T)) d d' h in
      let (d₂, r, t) = and_then-true sent (transmit_server T) d₁ d' q in
      transmit_server-Echoed d₂ d' t

  -- The answer to an ESTABLISH that was checked.
  HeardRetry : TlsConfig → List Exchange → Type 0
  HeardRetry sent log =
      (resp : OperationResponse) × Heard (request establish client (some sent) [], answered resp)
        log
      × (resp.status ≡ success)
      × (resp.hrr_occurred ≡ true)

  establish_checked-HeardRetry :
      (sent conf : TlsConfig) (label : Text) (d d' : Driver (Transcript W))
      → conf.expect_hrr ≡ true
      → establish_checked T sent conf label d ≡ (returned true, d')
      → HeardRetry sent d'.world.1
  unfolding establish_checked HeardRetry
  establish_checked-HeardRetry sent conf label d d' wanted h =
      let req = request establish client (some sent) [] in
      let judge = λ (r : OperationResponse).
        and_then (check_response r label) (check_hrr_assertion r conf label) in
      let (resp, w, call, rest) = execute-true T establish client (some sent) [] d d' judge h in
      let (ok_status, hrr) = hrr_judged T resp conf label (record d { world = w }) d' wanted rest in
      let x : Exchange = (req, answered resp) in
      (
        resp,
        still x (judge resp) (record d { world = w }) d'
            (and_then-Holds T (λ v. Heard x v.1) (call-Heard x) (probe-Heard x) _ _
              (check_response-Holds T (λ v. Heard x v.1) (call-Heard x) (probe-Heard x) resp label)
              (check_hrr-Holds T (λ v. Heard x v.1) (call-Heard x) (probe-Heard x) resp conf label))
            rest (answered-Heard req d.world resp w call),
        ok_status,
        hrr,
      )

  later_HeardRetry :
      (sent : TlsConfig) (m : Exec (Transcript W) Bool) (d d' : Driver (Transcript W))
      → ((x : Exchange) → Holds T (λ w. Heard x w.1) (call-Heard x) (probe-Heard x) m)
      → m d ≡ (returned true, d')
      → HeardRetry sent d.world.1
      → HeardRetry sent d'.world.1
  unfolding HeardRetry
  later_HeardRetry sent m d d' H ran (resp, h, good, hrr) =
      let x : Exchange = (request establish client (some sent) [], answered resp) in
      (resp, still x m d d' (H x) ran h, good, hrr)

  establish_client-HeardRetry :
      (conf : TlsConfig) (resumption : Bool) (d d' : Driver (Transcript W))
      → conf.expect_hrr ≡ true
      → establish_client T conf resumption d ≡ (returned true, d')
      → HeardRetry (first_sent conf resumption) d'.world.1
  unfolding establish_client first_sent
  establish_client-HeardRetry conf false d d' wanted h =
      establish_checked-HeardRetry conf conf (lit "ESTABLISH client") d d' wanted h
  establish_client-HeardRetry conf true d d' wanted h =
      let saving = record conf { resumption_step = lit "save" } in
      let resuming = some (record conf { resumption_step = lit "resume" }) in
      let label = lit "ESTABLISH client (resumption save)" in
      let resumed =
        step T establish client resuming [] (lit "ESTABLISH client (resumption resume)") in
      let (d₁, p, q) = and_then-true (establish_checked T saving conf label) resumed d d' h in
      later_HeardRetry saving resumed d₁ d'
        (λ x.
          step-Holds T (λ w. Heard x w.1) (call-Heard x) (probe-Heard x) establish client resuming
            [] (lit "ESTABLISH client (resumption resume)"))
        q (establish_checked-HeardRetry saving conf label d d₁ wanted p)

  run_protocol-true :
      (server_conf client_conf : TlsConfig) (d d' : Driver (Transcript W))
      → run_protocol T server_conf client_conf d ≡ (returned true, d')
      → Echoed d'.world.1 × (client_conf.expect_hrr ≡ true → Retried client_conf d'.world.1)
  unfolding run_protocol HeardRetry
  run_protocol-true server_conf client_conf d d' h =
      let started = step T establish server (some server_conf) [] (lit "ESTABLISH server") in
      let resumption = wants_resumption client_conf in
      let joined = establish_client T client_conf resumption in
      let trip = run_post_establish_round_trip T in
      let (d₁, p, q) = and_then-true started (and_then joined trip) d d' h in
      let (d₂, r, t) = and_then-true joined trip d₁ d' q in
      (
        round_trip-Echoed d₂ d' t,
        λ wanted.
            later_HeardRetry (first_sent client_conf resumption) trip d₂ d'
              (λ x. round_trip-Holds T (λ w. Heard x w.1) (call-Heard x) (probe-Heard x)) t
              (establish_client-HeardRetry client_conf resumption d₁ d₂ wanted r),
      )

  cleanup-Heard :
      (x : Exchange) (d : Driver (Transcript W)) → Heard x d.world.1 → Heard x (cleanup T d).world.1
  unfolding cleanup
  cleanup-Heard x d h =
      let d₁ = close_role T server (lit "CLOSE server") d in
      subst (λ w. Heard x w.1) (sym (world-close_role T client (lit "CLOSE client") d₁))
        (call-Heard x (request close client none []) d₁.world (
          subst (λ w. Heard x w.1) (sym (world-close_role T server (lit "CLOSE server") d))
            (call-Heard x (request close server none []) d.world h)))

  finally-Heard :
      (x : Exchange) (r : Ran Bool × Driver (Transcript W))
      → Heard x r.1.world.1
      → Heard x (finally_cleanup T r).1.world.1
  unfolding finally_cleanup
  finally-Heard x (b, d) h = cleanup-Heard x d h

  -- If a test returns true, then the server has answered its TRANSMIT with SUCCESS and with the
  -- payload, and, if the client expects a Hello Retry Request, the client its first ESTABLISH with
  -- SUCCESS and with `hrr_occurred`. Both answers are in the transcript of the test.
  pub run_test-heard :
      (server_conf client_conf : TlsConfig) (d : Driver (Transcript W))
      → (run_test_with_configs T server_conf client_conf d).0 ≡ returned true
      → Echoed (run_test_with_configs T server_conf client_conf d).1.world.1
        × (client_conf.expect_hrr ≡ true
            → Retried client_conf (run_test_with_configs T server_conf client_conf d).1.world.1)
  unfolding run_test_with_configs
  run_test-heard server_conf client_conf d h =
      let d₀ = record d { last_skip_reason = none } in
      let r = run_protocol T server_conf client_conf d₀ in
      let (echoed, retried) = run_protocol-true server_conf client_conf d₀ r.1 (of_finally T r h) in
      (
        (let (resp, heard, good, held) = echoed in
            (resp, finally-Heard (echo_request, answered resp) r heard, good, held)),
        λ wanted.
            (let (resp, heard, good, hrr) = retried wanted in
              (resp, finally-Heard _ r heard, good, hrr)),
      )
