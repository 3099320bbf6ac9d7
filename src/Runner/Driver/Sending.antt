-- ===== src/Runner/Driver/Sending.antt =====
-- Endpoints that keep a log of the requests, and what a part of a test sends.
use tls_interop_framework.Prelude.{
  Bool, List, [], ap, arith, false, none, refl, some, sym, true, ◌++◌, ◌∙◌, ◌∷◌, ◌≡◌,
}
use tls_interop_framework.Python.Text.{Text, lit}
use tls_interop_framework.Runner.Config.{
  OperationRequest, OperationResponse, TlsConfig, client, close, establish, server, transmit,
}
use tls_interop_framework.Runner.Driver.{
  Driver, Endpoints, Exec, Ran, Reply, and_then, check_hrr_assertion, check_response, checked,
  continue, note, note_failure, pure, request, returned, test_payload, threw, wants_resumption,
}
use mathlib.Core.List.{append-nil, append_assoc}

abbrev pub Logged : Type 0 → Type 0
Logged W = W × List OperationRequest

unfoldable pub after_call : {W : Type 0} → List OperationRequest → Reply × W → Reply × Logged W
after_call requests (reply, w) = (reply, (w, requests))

unfoldable pub after_probe : {W : Type 0} → List OperationRequest → Bool × W → Bool × Logged W
after_probe requests (b, w) = (b, (w, requests))

-- The same endpoints, with every request added to the log before it is answered.
unfoldable pub logged : {W : Type 0} → Endpoints W → Endpoints (Logged W)
unfolding after_call after_probe
logged E = record {
  call = λ req s. after_call (s.1 ++ req ∷ []) (E.call req s.0);
  tcp_connects = λ s. after_probe s.1 (E.tcp_connects s.0);
}

abbrev pub log_of : {W : Type 0} → Driver (Logged W) → List OperationRequest
log_of d = d.world.1

abbrev pub close_requests : List OperationRequest
close_requests = request close server none [] ∷ request close client none [] ∷ []

-- The requests of a test in which nothing goes wrong, up to the cleanup.
unfoldable pub client_requests : TlsConfig → Bool → List OperationRequest
client_requests conf false = request establish client (some conf) [] ∷ []
client_requests conf true =
    request establish client (some (record conf { resumption_step = lit "save" })) []
    ∷ request establish client (some (record conf { resumption_step = lit "resume" })) []
    ∷ []

unfoldable pub protocol_requests : TlsConfig → TlsConfig → List OperationRequest
protocol_requests server_conf client_conf =
    (request establish server (some server_conf) [] ∷ [])
    ++ (client_requests client_conf (wants_resumption client_conf)
        ++ (request transmit client none test_payload ∷ request transmit server none [] ∷ []))

module _ {W : Type 0} where
  -- From a state with a log, a run sends some of the requests `rs` in order, from the first on, and
  -- all of them if it returns true.
  pub record SendsFrom (rs before : List OperationRequest) (r : Ran Bool × Driver (Logged W))
      : Type 0 where
    pub sent : List OperationRequest
    pub unsent : List OperationRequest
    pub recorded : log_of r.1 ≡ before ++ sent
    pub in_order : sent ++ unsent ≡ rs
    pub complete : r.0 ≡ returned true → unsent ≡ []

  abbrev pub Sends : List OperationRequest → Exec (Logged W) Bool → Type 0
  Sends rs m = (d : Driver (Logged W)) → SendsFrom rs (log_of d) (m d)

  Sends-continue :
      (rs ss before : List OperationRequest) (k : Exec (Logged W) Bool)
      (r : Ran Bool × Driver (Logged W))
      → Sends ss k
      → SendsFrom rs before r
      → SendsFrom
          (rs ++ ss)
          before
          (continue r (λ passed. elim passed [ true ↦ k | false ↦ pure false ]))
  Sends-continue rs ss before k (returned true, d) K S =
      let T = K d in
      let all_sent =
        sym (append-nil S.sent) ∙ ap (λ l. S.sent ++ l) (sym (S.complete refl)) ∙ S.in_order in
      record {
        sent = rs ++ T.sent;
        unsent = T.unsent;
        recorded =
            T.recorded
            ∙ ap (λ l. l ++ T.sent) (S.recorded ∙ ap (λ l. before ++ l) all_sent)
            ∙ append_assoc before rs T.sent;
        in_order = append_assoc rs T.sent T.unsent ∙ ap (λ l. rs ++ l) T.in_order;
        complete = T.complete;
      }
  Sends-continue rs ss before k (returned false, d) K S = record {
    sent = S.sent;
    unsent = S.unsent ++ ss;
    recorded = S.recorded;
    in_order = sym (append_assoc S.sent S.unsent ss) ∙ ap (λ l. l ++ ss) S.in_order;
    complete = λ h. absurd (ground arith);
  }
  Sends-continue rs ss before k (threw e, d) K S = record {
    sent = S.sent;
    unsent = S.unsent ++ ss;
    recorded = S.recorded;
    in_order = sym (append_assoc S.sent S.unsent ss) ∙ ap (λ l. l ++ ss) S.in_order;
    complete = λ h. absurd (ground arith);
  }

  pub Sends-and_then :
      (rs ss : List OperationRequest) (m k : Exec (Logged W) Bool)
      → Sends rs m
      → Sends ss k
      → Sends (rs ++ ss) (and_then m k)
  Sends-and_then rs ss m k M K d = Sends-continue rs ss (log_of d) k (m d) K (M d)

  -- A check of a response sends nothing.
  pub check_response-Sends :
      (resp : OperationResponse) (label : Text) → Sends [] (check_response resp label)
  unfolding check_response checked note
  check_response-Sends resp label d = record {
    sent = [];
    unsent = [];
    recorded = ground (arith, append-nil (log_of d));
    in_order = refl;
    complete = λ h. refl;
  }

  pub check_hrr-Sends :
      (resp : OperationResponse) (conf : TlsConfig) (label : Text)
      → Sends [] (check_hrr_assertion resp conf label)
  unfolding check_hrr_assertion note_failure note
  check_hrr-Sends resp conf label d = record {
    sent = [];
    unsent = [];
    recorded = ground (arith, append-nil (log_of d));
    in_order = refl;
    complete = λ h. refl;
  }
