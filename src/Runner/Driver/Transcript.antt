-- ===== src/Runner/Driver/Transcript.antt =====
-- What a call that is judged well has answered, and endpoints that keep a transcript.
use tls_interop_framework.Prelude.{
  Bool, List, Option, [], arith, false, none, refl, some, true, ℕ, ◌∷◌, ◌≡◌,
}
use tls_interop_framework.Python.Text.{Text, lit, strip}
use tls_interop_framework.Runner.Config.{
  OpType, OperationRequest, OperationResponse, Role, TlsConfig, client, establish, server, success,
  transmit,
}
use tls_interop_framework.Runner.Driver.{
  Driver, Endpoints, Exec, Ran, Reply, and_then, answered, check_hrr_assertion, check_response,
  checked, continue, echoes, execute, finally_cleanup, is_skip, is_success, pure, raised, received,
  request, returned, threw, verify, wants_resumption, ◌>>=◌,
}

module _ {W : Type 0} where
  -- What `and_then` returned true from.
  continue-true :
      (r : Ran Bool × Driver W) (k : Exec W Bool) (d' : Driver W)
      → continue r (λ passed. elim passed [ true ↦ k | false ↦ pure false ]) ≡ (returned true, d')
      → (d₁ : Driver W) × (r ≡ (returned true, d₁)) × (k d₁ ≡ (returned true, d'))
  continue-true (returned true, d) k d' h = (d, refl, h)
  continue-true (returned false, d) k d' h = absurd (ground arith)
  continue-true (threw e, d) k d' h = absurd (ground arith)

  pub and_then-true :
      (m k : Exec W Bool) (d d' : Driver W)
      → and_then m k d ≡ (returned true, d')
      → (d₁ : Driver W) × (m d ≡ (returned true, d₁)) × (k d₁ ≡ (returned true, d'))
  and_then-true m k d d' h = continue-true (m d) k d' h

  check_response-true :
      (resp : OperationResponse) (label : Text) (d d' : Driver W)
      → check_response resp label d ≡ (returned true, d')
      → (resp.status ≡ success) × (is_skip (strip resp.message) ≡ false)
  unfolding check_response checked is_success
  check_response-true resp label d d' h = ground arith

  check_hrr-true :
      (resp : OperationResponse) (conf : TlsConfig) (label : Text) (d d' : Driver W)
      → conf.expect_hrr ≡ true
      → check_hrr_assertion resp conf label d ≡ (returned true, d')
      → resp.hrr_occurred ≡ true
  unfolding check_hrr_assertion
  check_hrr-true resp conf label d d' wanted h = ground arith

-- What a driver has sent and heard, the last exchange first.
abbrev pub Exchange : Type 0
Exchange = OperationRequest × Reply

abbrev pub Transcript : Type 0 → Type 0
Transcript W = W × List Exchange

unfoldable pub exchanged :
    {W : Type 0} → OperationRequest → List Exchange → Reply × W → Reply × Transcript W
exchanged req log (reply, w) = (reply, (w, (req, reply) ∷ log))

unfoldable pub probed_beside : {W : Type 0} → List Exchange → Bool × W → Bool × Transcript W
probed_beside log (b, w) = (b, (w, log))

-- The same endpoints, with every request and its reply added to the transcript.
unfoldable pub traced : {W : Type 0} → Endpoints W → Endpoints (Transcript W)
unfolding exchanged probed_beside
traced E = record {
  call = λ req s. exchanged req s.1 (E.call req s.0);
  tcp_connects = λ s. probed_beside s.1 (E.tcp_connects s.0);
}

-- The exchange is in the transcript.
pub data Heard (x : Exchange) : List Exchange → Type 0 where
  heard_last : {log : List Exchange} → Heard x (x ∷ log)
  heard_earlier : {y : Exchange} {log : List Exchange} → Heard x log → Heard x (y ∷ log)

abbrev pub echo_request : OperationRequest
echo_request = request transmit server none []

-- The configuration of a client's first ESTABLISH.
unfoldable pub first_sent : TlsConfig → Bool → TlsConfig
first_sent conf false = conf
first_sent conf true = record conf { resumption_step = lit "save" }

-- The server has answered the TRANSMIT with SUCCESS, and its output holds the payload.
abbrev pub Echoed : List Exchange → Type 0
Echoed log =
    (resp : OperationResponse) × Heard (echo_request, answered resp) log
    × (resp.status ≡ success)
    × (echoes resp ≡ true)

-- The client has answered its first ESTABLISH with SUCCESS after a Hello Retry Request.
abbrev pub Retried : TlsConfig → List Exchange → Type 0
Retried conf log =
    (resp : OperationResponse) × Heard
      (request establish client (some (first_sent conf (wants_resumption conf))) [], answered resp)
      log
    × (resp.status ≡ success)
    × (resp.hrr_occurred ≡ true)

module _ {W : Type 0} (E : Endpoints W) where
  received-true :
      (r : Reply × W) (d d' : Driver W) (f : OperationResponse → Exec W Bool)
      → continue (received E r d) f ≡ (returned true, d')
      → (resp : OperationResponse) × (w : W) × (r ≡ (answered resp, w))
        × (f resp (record d { world = w }) ≡ (returned true, d'))
  unfolding received
  received-true (answered resp, w) d d' f h = (resp, w, refl, h)
  received-true (raised e, w) d d' f h = absurd (ground arith)

  pub execute-true :
      (op : OpType) (role : Role) (config : Option TlsConfig) (payload : List ℕ) (d d' : Driver W)
      (f : OperationResponse → Exec W Bool)
      → (execute E op role config payload >>= f) d ≡ (returned true, d')
      → (resp : OperationResponse) × (w : W) × (E.call (request op role config payload) d.world
          ≡ (answered resp, w))
        × (f resp (record d { world = w }) ≡ (returned true, d'))
  unfolding execute
  execute-true op role config payload d d' f h =
      received-true (E.call (request op role config payload) d.world) d d' f h

  verify-true :
      (resp : OperationResponse) (d d' : Driver W)
      → verify E resp d ≡ (returned true, d')
      → echoes resp ≡ true
  unfolding verify
  verify-true resp d d' h = ground arith

  pub echo_judged :
      (resp : OperationResponse) (d d' : Driver W)
      → and_then (check_response resp (lit "TRANSMIT server")) (verify E resp) d
        ≡ (returned true, d')
      → (resp.status ≡ success) × (echoes resp ≡ true)
  echo_judged resp d d' h =
      let (d₁, p, q) =
        and_then-true (check_response resp (lit "TRANSMIT server")) (verify E resp) d d' h in
      ((check_response-true resp (lit "TRANSMIT server") d d₁ p).0, verify-true resp d₁ d' q)

  pub hrr_judged :
      (resp : OperationResponse) (conf : TlsConfig) (label : Text) (d d' : Driver W)
      → conf.expect_hrr ≡ true
      → and_then (check_response resp label) (check_hrr_assertion resp conf label) d
        ≡ (returned true, d')
      → (resp.status ≡ success) × (resp.hrr_occurred ≡ true)
  hrr_judged resp conf label d d' wanted h =
      let (d₁, p, q) =
        and_then-true (check_response resp label) (check_hrr_assertion resp conf label) d d' h in
      ((check_response-true resp label d d₁ p).0, check_hrr-true resp conf label d₁ d' wanted q)

  pub of_finally :
      (r : Ran Bool × Driver W) → (finally_cleanup E r).0 ≡ returned true → r ≡ (returned true, r.1)
  unfolding finally_cleanup
  of_finally (returned true, d) h = refl
  of_finally (returned false, d) h = absurd (ground arith)
  of_finally (threw e, d) h = absurd (ground arith)
