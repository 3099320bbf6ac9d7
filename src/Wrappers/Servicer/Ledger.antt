-- ===== src/Wrappers/Servicer/Ledger.antt =====
-- A wrapper that keeps a ledger of the processes and files of its servicer.
use tls_interop_framework.Prelude.{
  List, Option, [], arith, none, refl, some, true, ℕ, ℤ, ◌++◌, ◌∙◌, ◌∷◌, ◌≡◌,
}
use tls_interop_framework.Python.Text.{Text, has_char, mem}
use tls_interop_framework.Wrappers.Process.{Attempt, Os, fails, gives}
use tls_interop_framework.Wrappers.Servicer.{Backend, Launch, Wrapper}
use tls_interop_framework.Wrappers.Servicer.Keeping.{IsKept}
use tls_interop_framework.Wrappers.Servicer.Keeping.Handlers.{IsKeptBy}

-- The processes that were started, those that were seen to have exited or were told to end, the files
-- that were given to `_track_temp_file`, and those that were removed. A file that is written and not
-- tracked is in no list.
pub record Ledger : Type 0 where
  pub launched : List ℕ
  pub ended : List ℕ
  pub tracked_files : List Text
  pub removed : List Text

abbrev pub no_ledger : Ledger
no_ledger = record { launched = []; ended = []; tracked_files = []; removed = [] }

abbrev pub Logged : Type 0 → Type 0
Logged W = W × Ledger

unfoldable pub saw_end : ℕ → Ledger → Ledger
saw_end p l = record l { ended = p ∷ l.ended }

unfoldable pub saw_removal : Text → Ledger → Ledger
saw_removal path l = record l { removed = path ∷ l.removed }

unfoldable pub process_of : Attempt (Option ℕ × Text × Text) → List ℕ
process_of (gives (some p, cmd_logs, message)) = p ∷ []
process_of (gives (none, cmd_logs, message)) = []
process_of (fails e) = []

unfoldable pub saw_launch : Launch → Ledger → Ledger
unfolding process_of
saw_launch launch l = record l {
  launched = process_of launch.outcome ++ l.launched;
  tracked_files = launch.tracked_files ++ l.tracked_files;
}

module _ {W : Type 0} where
  unfoldable pub after_poll : ℕ → Ledger → Option ℤ × W → Option ℤ × Logged W
  after_poll p l (none, w) = (none, (w, l))
  after_poll p l (some code, w) = (some code, (w, saw_end p l))

  abbrev with_ledger : {A : Type 0} → Ledger → A × W → A × Logged W
  with_ledger l (a, w) = (a, (w, l))

  unfoldable pub logged_os : Os W → Os (Logged W)
  unfolding after_poll saw_end saw_removal
  logged_os os = record {
    poll = λ p w. after_poll p w.1 (os.poll p w.0);
    terminate = λ p w. with_ledger (saw_end p w.1) (os.terminate p w.0);
    kill = λ p w. with_ledger w.1 (os.kill p w.0);
    wait = λ p w. with_ledger w.1 (os.wait p w.0);
    read_stdout = λ p w. with_ledger w.1 (os.read_stdout p w.0);
    write_stdin = λ p bytes w. with_ledger w.1 (os.write_stdin p bytes w.0);
    connects = λ host port p w. with_ledger w.1 (os.connects host port p w.0);
    remove = λ path w. (os.remove path w.0, saw_removal path w.1);
    cleanup_hook = λ w. (os.cleanup_hook w.0, w.1);
  }

  unfoldable pub after_start : Ledger → Launch × W → Launch × Logged W
  unfolding saw_launch
  after_start l (launch, w) = (launch, (w, saw_launch launch l))

  unfoldable pub logged_backend : Backend W → Backend (Logged W)
  unfolding after_start
  logged_backend B = record {
    component_name = B.component_name;
    translate = λ role config w. with_ledger w.1 (B.translate role config w.0);
    start = λ role config w. after_start w.1 (B.start role config w.0);
    parse_negotiated_params = B.parse_negotiated_params;
    infer_hrr_from_negotiation = B.infer_hrr_from_negotiation;
    client_establish_output_indicates_failure = B.client_establish_output_indicates_failure;
    describe = B.describe;
  }

  -- The same wrapper, with the ledger beside its world.
  unfoldable pub logged : Wrapper W → Wrapper (Logged W)
  logged E = record {
    os = logged_os E.os;
    decode = E.decode;
    read_capabilities = E.read_capabilities;
    backend = logged_backend E.backend;
  }

  -- A later ledger has the same processes and files, and at least the same ends and removals.
  pub record Grows (u v : Logged W) : Type 0 where
    pub launched : v.1.launched ≡ u.1.launched
    pub tracked_files : v.1.tracked_files ≡ u.1.tracked_files
    pub ended : (p : ℕ) → has_char p u.1.ended ≡ true → has_char p v.1.ended ≡ true
    pub removed : (f : Text) → mem f u.1.removed ≡ true → mem f v.1.removed ≡ true

  Grows-refl : (u : Logged W) → Grows u u
  Grows-refl u = record {
    launched = refl;
    tracked_files = refl;
    ended = λ p h. h;
    removed = λ f h. h;
  }

  Grows-trans : (u v w : Logged W) → Grows u v → Grows v w → Grows u w
  Grows-trans u v w H I = record {
    launched = I.launched ∙ H.launched;
    tracked_files = I.tracked_files ∙ H.tracked_files;
    ended = λ p h. I.ended p (H.ended p h);
    removed = λ f h. I.removed f (H.removed f h);
  }

  saw_end-Grows : (p : ℕ) (w v : W) (l : Ledger) → Grows (w, l) (v, saw_end p l)
  unfolding saw_end has_char
  saw_end-Grows p w v l = record {
    launched = refl;
    tracked_files = refl;
    ended = λ q h. ground arith;
    removed = λ f h. h;
  }

  poll-Grows : (p : ℕ) (w : W) (l : Ledger) (r : Option ℤ × W) → Grows (w, l) (after_poll p l r).1
  unfolding after_poll
  poll-Grows p w l (none, v) = record {
    launched = refl;
    tracked_files = refl;
    ended = λ q h. h;
    removed = λ f h. h;
  }
  poll-Grows p w l (some code, v) = saw_end-Grows p w v l

  removal-Grows : (path : Text) (w v : W) (l : Ledger) → Grows (w, l) (v, saw_removal path l)
  unfolding saw_removal mem
  removal-Grows path w v l = record {
    launched = refl;
    tracked_files = refl;
    ended = λ p h. h;
    removed = λ f h. ground arith;
  }

  beside : (w v : W) (l : Ledger) → Grows (w, l) (v, l)
  beside w v l = record {
    launched = refl;
    tracked_files = refl;
    ended = λ p h. h;
    removed = λ f h. h;
  }

  logged_os-Grows : (os : Os W) → IsKept (logged_os os) Grows
  unfolding logged_os
  logged_os-Grows os = record {
    same = Grows-refl;
    both = Grows-trans;
    poll = λ p w. poll-Grows p w.0 w.1 (os.poll p w.0);
    terminate = λ p w. saw_end-Grows p w.0 (os.terminate p w.0).1 w.1;
    kill = λ p w. beside w.0 (os.kill p w.0).1 w.1;
    wait = λ p w. beside w.0 (os.wait p w.0).1 w.1;
    read_stdout = λ p w. beside w.0 (os.read_stdout p w.0).1 w.1;
    write_stdin = λ p bytes w. beside w.0 (os.write_stdin p bytes w.0).1 w.1;
    connects = λ host port p w. beside w.0 (os.connects host port p w.0).1 w.1;
    remove = λ path w. removal-Grows path w.0 (os.remove path w.0) w.1;
    cleanup_hook = λ w. beside w.0 (os.cleanup_hook w.0) w.1;
  }

  -- Every call of a wrapper but the start of a process lets the ledger grow.
  pub logged-Grows : (E : Wrapper W) → IsKeptBy (logged E) Grows
  unfolding logged logged_backend
  logged-Grows E = record {
    calls = logged_os-Grows E.os;
    translate = λ role config w. beside w.0 (E.backend.translate role config w.0).1 w.1;
  }
