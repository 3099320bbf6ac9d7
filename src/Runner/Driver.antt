-- ===== src/Runner/Driver.antt =====
-- core/runner.py: `InteropDriver`. The two gRPC stubs and the TCP probe are parameters over an
-- unknown state `W` of the world: a call answers or raises, and changes the state. Sleeps and
-- console lines are left out.
pub mod Transcript
pub mod Passing
pub mod Sending
pub mod Requests
pub mod Holding
use tls_interop_framework.Prelude.{
  Bool, List, Option, [], drop, false, if◌then◌else◌, none, not, some, true, ℕ, ◌++◌, ◌||◌, ◌∷◌,
}
use tls_interop_framework.Core.Tokens.{stripped}
use tls_interop_framework.Python.Text.{Text, contains, lit, lower, mem, or_text, starts_with, strip}
use tls_interop_framework.Runner.Config.{
  OpType, OperationRequest, OperationResponse, Role, Status, TlsConfig, client, close, establish,
  server, success, transmit,
}

-- What a call of a stub gives: a response, or the text of the exception that it raises.
pub data Reply : Type 0 where
  answered : OperationResponse → Reply
  raised : Text → Reply

-- An entry of `fail_log`.
pub data Note : Type 0 where
  of_response : Text → OperationResponse → Note
  of_failure : Text → Text → Note

-- The fields of the driver that change, with the world that its calls change.
pub record Driver (W : Type 0) : Type 0 where
  pub world : W
  pub last_skip_reason : Option Text
  pub fail_log : List Note

-- What a method does: it returns or raises, with the state that it leaves.
pub data Ran (A : Type 0) : Type 0 where
  returned : A → Ran A
  threw : Text → Ran A

abbrev pub Exec : Type 0 → Type 0 → Type 0
Exec W A = Driver W → Ran A × Driver W

module _ {W A B : Type 0} where
  abbrev pub continue : Ran A × Driver W → (A → Exec W B) → Ran B × Driver W
  continue (returned a, d) f = f a d
  continue (threw e, d) f = (threw e, d)

  infixl 5 ◌>>=◌
  abbrev pub ◌>>=◌ : Exec W A → (A → Exec W B) → Exec W B
  ◌>>=◌ m f d = continue (m d) f

abbrev pub pure : {W A : Type 0} → A → Exec W A
pure a d = (returned a, d)

-- `if not m: return False`, then `k`.
abbrev pub and_then : {W : Type 0} → Exec W Bool → Exec W Bool → Exec W Bool
and_then m k = m >>= λ passed. elim passed [ true ↦ k | false ↦ pure false ]

abbrev pub test_payload : List ℕ
test_payload = lit "PAYLOAD"

-- A response is SUCCESS.
unfoldable pub is_success : Status → Bool
is_success success = true
is_success _ = false

-- `msg.lower().startswith("skip:")`
unfoldable pub is_skip : Text → Bool
is_skip msg = starts_with (lower msg) (lit "skip:")

unfoldable pub skip_text : Text → Text
skip_text msg = or_text (strip (drop 5 msg)) (lit "wrapper reported unsupported option")

-- `TEST_PAYLOAD in resp.output_data`
unfoldable pub echoes : OperationResponse → Bool
echoes resp = contains test_payload resp.output_data

module _ {W : Type 0} where
  unfoldable pub note : Note → Driver W → Driver W
  note n d = record d { fail_log = d.fail_log ++ n ∷ [] }

  -- `_note_failure`
  unfoldable pub note_failure : Text → Text → Driver W → Driver W
  note_failure label summary d = note (of_failure label summary) d

  unfoldable pub checked : OperationResponse → Driver W → Bool × Driver W
  checked resp d =
      let msg = strip resp.message in
      if is_success resp.status
      then if is_skip msg
        then (false, record d { last_skip_reason = some (skip_text msg) })
        else (true, d)
      else (false, d)

  unfoldable pub check_response : OperationResponse → Text → Exec W Bool
  check_response resp label d =
      let result = checked resp (note (of_response label resp) d) in (returned result.0, result.1)

  unfoldable pub check_hrr_assertion : OperationResponse → TlsConfig → Text → Exec W Bool
  check_hrr_assertion resp client_conf label d =
      if not client_conf.expect_hrr || resp.hrr_occurred then (returned true, d) else (
        returned false,
        note_failure label (lit "expected Hello Retry Request (expect_hrr=true)") d,
      )

-- The gRPC stubs by role, and `wait_tcp_connect`.
pub record Endpoints (W : Type 0) : Type 0 where
  pub call : OperationRequest → W → Reply × W
  pub tcp_connects : W → Bool × W

unfoldable pub request : OpType → Role → Option TlsConfig → List ℕ → OperationRequest
request op role config payload = record { op = op; role = role; payload = payload; config = config }

-- `test_feature_enabled_in_config` of wrappers/utils.py.
unfoldable pub test_feature_enabled_in_config : TlsConfig → Text → Bool
test_feature_enabled_in_config config feature =
    mem (lower (strip feature)) (stripped config.psk_modes)

unfoldable pub wants_resumption : TlsConfig → Bool
wants_resumption config =
    test_feature_enabled_in_config config (lit "resumption")
    || test_feature_enabled_in_config config (lit "0rtt")

module _ {W : Type 0} (E : Endpoints W) where
  unfoldable pub received : Reply × W → Driver W → Ran OperationResponse × Driver W
  received (answered resp, w) d = (returned resp, record d { world = w })
  received (raised e, w) d = (threw e, record d { world = w })

  -- `_execute`; the stub is chosen by the request's role.
  unfoldable pub execute : OpType → Role → Option TlsConfig → List ℕ → Exec W OperationResponse
  unfolding received request
  execute op role config payload d = received (E.call (request op role config payload) d.world) d

  -- `except Exception` around one CLOSE: the driver goes on.
  unfoldable pub swallow : Ran Bool × Driver W → Driver W
  swallow (r, d) = d

  unfoldable pub close_role : Role → Text → Driver W → Driver W
  unfolding swallow
  close_role role label d =
      swallow ((execute close role none [] >>= λ resp. check_response resp label) d)

  -- `_cleanup`
  unfoldable pub cleanup : Driver W → Driver W
  cleanup d = close_role client (lit "CLOSE client") (close_role server (lit "CLOSE server") d)

  unfoldable pub verify : OperationResponse → Exec W Bool
  verify resp d = if echoes resp then (returned true, d) else (
    returned false,
    note_failure (lit "verify") (lit "server output did not contain echoed payload") d,
  )

  -- The result of `wait_tcp_connect`.
  unfoldable pub connect : Exec W Bool
  connect d =
      let probe = E.tcp_connects d.world in
      let d' = record d { world = probe.1 } in
      if probe.0
      then (returned true, d')
      else (returned false, note_failure (lit "wait_tcp") (lit "not accepting after ESTABLISH") d')

  -- `_execute` and then `_check_response`, which go together but for the checks between them.
  unfoldable pub step : OpType → Role → Option TlsConfig → List ℕ → Text → Exec W Bool
  step op role config payload label =
      execute op role config payload >>= λ resp. check_response resp label

  unfoldable pub transmit_server : Exec W Bool
  unfolding verify
  transmit_server = execute transmit server none [] >>= λ resp.
      and_then (check_response resp (lit "TRANSMIT server")) (verify resp)

  unfoldable pub run_post_establish_round_trip : Exec W Bool
  unfolding connect
  run_post_establish_round_trip =
      and_then connect
        (and_then (step transmit client none test_payload (lit "TRANSMIT client")) transmit_server)

  -- ESTABLISH of the client with the check for a Hello Retry Request.
  unfoldable pub establish_checked : TlsConfig → TlsConfig → Text → Exec W Bool
  establish_checked sent client_conf label = execute establish client (some sent) [] >>= λ resp.
      and_then (check_response resp label) (check_hrr_assertion resp client_conf label)

  unfoldable pub establish_client : TlsConfig → Bool → Exec W Bool
  establish_client client_conf false =
      establish_checked client_conf client_conf (lit "ESTABLISH client")
  establish_client client_conf true =
      and_then
        (establish_checked (record client_conf { resumption_step = lit "save" }) client_conf
          (lit "ESTABLISH client (resumption save)"))
        (step establish client (some (record client_conf { resumption_step = lit "resume" })) []
          (lit "ESTABLISH client (resumption resume)"))

  -- The body of the `try` block.
  unfoldable pub run_protocol : TlsConfig → TlsConfig → Exec W Bool
  run_protocol server_conf client_conf =
      and_then (step establish server (some server_conf) [] (lit "ESTABLISH server")) (
        and_then (establish_client client_conf (wants_resumption client_conf))
          run_post_establish_round_trip)

  -- `finally`: the cleanup runs whether the body returned or raised.
  unfoldable pub finally_cleanup : Ran Bool × Driver W → Ran Bool × Driver W
  finally_cleanup (r, d) = (r, cleanup d)

  unfoldable pub run_test_with_configs : TlsConfig → TlsConfig → Exec W Bool
  unfolding finally_cleanup
  run_test_with_configs server_conf client_conf d =
      finally_cleanup (run_protocol server_conf client_conf (record d { last_skip_reason = none }))

  -- `emergency_cleanup`: a CLOSE whose failure is noted.
  unfoldable pub emergency_noted : Text → Ran OperationResponse × Driver W → Driver W
  emergency_noted label (returned resp, d) = note (of_response label resp) d
  emergency_noted label (threw e, d) = note (of_failure label e) d

  unfoldable pub emergency_close : Role → Text → Driver W → Driver W
  unfolding emergency_noted
  emergency_close role label d = emergency_noted label (execute close role none [] d)

  unfoldable pub emergency_cleanup : Driver W → Driver W
  unfolding emergency_close
  emergency_cleanup d =
      emergency_close client (lit "CLOSE client (timeout watchdog)")
        (emergency_close server (lit "CLOSE server (timeout watchdog)") d)
