-- ===== src/Wrappers/Servicer/Keeping.antt =====
-- What the calls of a servicer keep, for a relation on worlds that every call of the operating
-- system respects.
pub mod Handlers
pub mod Requests
use tls_interop_framework.Prelude.{
  Bool, List, Option, false, none, or_else, refl, some, true, ℕ, ℤ, ◌∙◌, ◌≡◌,
}
use tls_interop_framework.Python.Text.{Text, or_text, strip}
use tls_interop_framework.Runner.Config.{Role, client, server}
use tls_interop_framework.Wrappers.Output.{format_cli_debug_logs, merged_output}
use tls_interop_framework.Wrappers.Process.{
  Attempt, Method, Os, Servicer, ask, build_cli_debug_logs, cached_and_drained, change,
  drain_process_output, ended_or_kill, exit_code_of, fails, followed_by, give, gives, kill_sent,
  last_cmd, last_output, logs_of, output_or_drained, proc_of, read_text, remember_role_cli,
  stop_unless_exited, terminate_process_hard, terminate_sent, ◌>>=◌,
}

-- A relation between an earlier and a later world.
pub record IsKept {W : Type 0} (os : Os W) (R : W → W → Type 0) : Type 0 where
  pub same : (w : W) → R w w
  pub both : (u v w : W) → R u v → R v w → R u w
  pub poll : (p : ℕ) (w : W) → R w (os.poll p w).1
  pub terminate : (p : ℕ) (w : W) → R w (os.terminate p w).1
  pub kill : (p : ℕ) (w : W) → R w (os.kill p w).1
  pub wait : (p : ℕ) (w : W) → R w (os.wait p w).1
  pub read_stdout : (p : ℕ) (w : W) → R w (os.read_stdout p w).1
  pub write_stdin : (p : ℕ) (bytes : List ℕ) (w : W) → R w (os.write_stdin p bytes w).1
  pub connects : (host : Text) (port : ℤ) (p : ℕ) (w : W) → R w (os.connects host port p w).1
  pub remove : (path : Text) (w : W) → R w (os.remove path w)
  pub cleanup_hook : (w : W) → R w (os.cleanup_hook w)

module _ {W : Type 0} (R : W → W → Type 0) where
  -- A later state holds the same processes and the same temporary files.
  pub record Keeps (s t : Servicer W) : Type 0 where
    pub server : t.server_proc ≡ s.server_proc
    pub client : t.client_proc ≡ s.client_proc
    pub files : t.active_temp_files ≡ s.active_temp_files
    pub world : R s.world t.world

  abbrev pub IsKeeping : {A : Type 0} → Method W A → Type 0
  IsKeeping m = (s : Servicer W) → Keeps s (m s).1

module _ {W : Type 0} {os : Os W} {R : W → W → Type 0} (K : IsKept os R) where
  pub Keeps-refl : (s : Servicer W) → Keeps R s s
  Keeps-refl s = record { server = refl; client = refl; files = refl; world = K.same s.world }

  pub Keeps-trans : (s t u : Servicer W) → Keeps R s t → Keeps R t u → Keeps R s u
  Keeps-trans s t u H I = record {
    server = I.server ∙ H.server;
    client = I.client ∙ H.client;
    files = I.files ∙ H.files;
    world = K.both s.world t.world u.world H.world I.world;
  }

  module _ {A B : Type 0} where
    followed_by-Keeps :
        (s : Servicer W) (r : Attempt A × Servicer W) (f : A → Method W B)
        → Keeps R s r.1
        → ((a : A) → IsKeeping R (f a))
        → Keeps R s (followed_by r f).1
    followed_by-Keeps s (gives a, t) f H F = Keeps-trans s t (f a t).1 H (F a t)
    followed_by-Keeps s (fails e, t) f H F = H

    -- A chain of two methods keeps what both keep.
    pub >>=-IsKeeping :
        (m : Method W A) (f : A → Method W B)
        → IsKeeping R m
        → ((a : A) → IsKeeping R (f a))
        → IsKeeping R (m >>= f)
    >>=-IsKeeping m f M F s = followed_by-Keeps s (m s) f (M s) F

    -- A call of the operating system before a method.
    pub ask-IsKeeping :
        (call : W → A × W) (f : A → Method W B)
        → ((w : W) → R w (call w).1)
        → ((a : A) → IsKeeping R (f a))
        → IsKeeping R (ask call >>= f)
    ask-IsKeeping call f C F s =
        Keeps-trans s (record s { world = (call s.world).1 })
          (f (call s.world).0 (record s { world = (call s.world).1 })).1
          (record { server = refl; client = refl; files = refl; world = C s.world })
          (F (call s.world).0 (record s { world = (call s.world).1 }))

  remember-Keeps :
      (role : Role) (cmd output : Text) (s : Servicer W)
      → Keeps R s (remember_role_cli role cmd output s)
  unfolding remember_role_cli
  remember-Keeps server cmd output s = record {
    server = refl;
    client = refl;
    files = refl;
    world = K.same s.world;
  }
  remember-Keeps client cmd output s = record {
    server = refl;
    client = refl;
    files = refl;
    world = K.same s.world;
  }

  pub remember-IsKeeping :
      (role : Role) (cmd output : Text) → IsKeeping R (change (remember_role_cli role cmd output))
  remember-IsKeeping role cmd output s = remember-Keeps role cmd output s

  module _ (decode : List ℕ → Text) where
    kill_sent-IsKeeping : (p : ℕ) (found : Bool) → IsKeeping R (kill_sent os decode p found)
    unfolding kill_sent
    kill_sent-IsKeeping p false = Keeps-refl
    kill_sent-IsKeeping p true =
        ask-IsKeeping (os.wait p) (λ ended. give tt) (K.wait p) (λ ended. Keeps-refl)

    ended_or_kill-IsKeeping : (p : ℕ) (ended : Bool) → IsKeeping R (ended_or_kill os decode p ended)
    unfolding ended_or_kill
    ended_or_kill-IsKeeping p true = Keeps-refl
    ended_or_kill-IsKeeping p false =
        ask-IsKeeping (os.kill p) (kill_sent os decode p) (K.kill p) (kill_sent-IsKeeping p)

    pub terminate_sent-IsKeeping :
        (p : ℕ) (found : Bool) → IsKeeping R (terminate_sent os decode p found)
    unfolding terminate_sent
    terminate_sent-IsKeeping p false = Keeps-refl
    terminate_sent-IsKeeping p true =
        ask-IsKeeping (os.wait p) (ended_or_kill os decode p) (K.wait p) (ended_or_kill-IsKeeping p)

    stop_unless_exited-IsKeeping :
        (p : ℕ) (code : Option ℤ) → IsKeeping R (stop_unless_exited os decode p code)
    unfolding stop_unless_exited
    stop_unless_exited-IsKeeping p (some code) = Keeps-refl
    stop_unless_exited-IsKeeping p none =
        ask-IsKeeping (os.terminate p) (terminate_sent os decode p) (K.terminate p)
          (terminate_sent-IsKeeping p)

    pub terminate_process_hard-IsKeeping :
        (proc : Option ℕ) → IsKeeping R (terminate_process_hard os decode proc)
    unfolding terminate_process_hard
    terminate_process_hard-IsKeeping none = Keeps-refl
    terminate_process_hard-IsKeeping (some p) =
        ask-IsKeeping (os.poll p) (stop_unless_exited os decode p) (K.poll p)
          (stop_unless_exited-IsKeeping p)

    pub read_text-IsKeeping : (p : ℕ) → IsKeeping R (read_text os decode p)
    unfolding read_text
    read_text-IsKeeping p =
        ask-IsKeeping (os.read_stdout p) (λ raw. give (decode raw)) (K.read_stdout p)
          (λ raw. Keeps-refl)

    pub drain_process_output-IsKeeping :
        (proc : Option ℕ) → IsKeeping R (drain_process_output os decode proc)
    unfolding drain_process_output
    drain_process_output-IsKeeping none = Keeps-refl
    drain_process_output-IsKeeping (some p) =
        >>=-IsKeeping (read_text os decode p) (λ out. give (strip out)) (read_text-IsKeeping p)
          (λ out. Keeps-refl)

    exit_code_of-IsKeeping : (proc : Option ℕ) → IsKeeping R (exit_code_of os decode proc)
    unfolding exit_code_of
    exit_code_of-IsKeeping none s = Keeps-refl s
    exit_code_of-IsKeeping (some p) s = record {
      server = refl;
      client = refl;
      files = refl;
      world = K.poll p s.world;
    }

    output_or_drained-IsKeeping :
        (cached : Text) (target : Option ℕ) (output : Option Text)
        → IsKeeping R (output_or_drained os decode cached target output)
    unfolding output_or_drained cached_and_drained
    output_or_drained-IsKeeping cached target (some out) = Keeps-refl
    output_or_drained-IsKeeping cached target none =
        >>=-IsKeeping (drain_process_output os decode target)
          (λ drained. give (merged_output cached drained)) (drain_process_output-IsKeeping target)
          (λ drained. Keeps-refl)

    logs_of-IsKeeping :
        (cmd : Text) (target : Option ℕ) (out : Text)
        → IsKeeping R (logs_of os decode cmd target out)
    unfolding logs_of
    logs_of-IsKeeping cmd target out =
        >>=-IsKeeping (exit_code_of os decode target)
          (λ code. give (format_cli_debug_logs cmd code out)) (exit_code_of-IsKeeping target)
          (λ code. Keeps-refl)

    -- The building of a log keeps the processes and the files.
    pub build_cli_debug_logs-IsKeeping :
        (role : Role) (cmd : Text) (proc : Option ℕ) (output : Option Text)
        → IsKeeping R (build_cli_debug_logs os decode role cmd proc output)
    unfolding build_cli_debug_logs
    build_cli_debug_logs-IsKeeping role cmd proc output s =
        let target = or_else proc (proc_of role s) in
        let full_cmd = strip (or_text cmd (last_cmd role s)) in
        >>=-IsKeeping (output_or_drained os decode (last_output role s) target output)
          (logs_of os decode full_cmd target)
          (output_or_drained-IsKeeping (last_output role s) target output)
          (logs_of-IsKeeping full_cmd target) s

module _ {W : Type 0} (os : Os W) (decode : List ℕ → Text) where
  abbrev IsTotal : Method W (Unit {0}) → Type 0
  IsTotal m = (s : Servicer W) → (m s).0 ≡ gives tt

  kill_sent-IsTotal : (p : ℕ) (found : Bool) → IsTotal (kill_sent os decode p found)
  unfolding kill_sent
  kill_sent-IsTotal p false s = refl
  kill_sent-IsTotal p true s = refl

  ended_or_kill-IsTotal : (p : ℕ) (ended : Bool) → IsTotal (ended_or_kill os decode p ended)
  unfolding ended_or_kill
  ended_or_kill-IsTotal p true s = refl
  ended_or_kill-IsTotal p false s = kill_sent-IsTotal p _ _

  terminate_sent-IsTotal : (p : ℕ) (found : Bool) → IsTotal (terminate_sent os decode p found)
  unfolding terminate_sent
  terminate_sent-IsTotal p false s = refl
  terminate_sent-IsTotal p true s = ended_or_kill-IsTotal p _ _

  stop_unless_exited-IsTotal :
      (p : ℕ) (code : Option ℤ) → IsTotal (stop_unless_exited os decode p code)
  unfolding stop_unless_exited
  stop_unless_exited-IsTotal p (some code) s = refl
  stop_unless_exited-IsTotal p none s = terminate_sent-IsTotal p _ _

  -- The termination of a process does not raise.
  pub terminate-gives :
      (proc : Option ℕ) (s : Servicer W) → (terminate_process_hard os decode proc s).0 ≡ gives tt
  unfolding terminate_process_hard
  terminate-gives none s = refl
  terminate-gives (some p) s = stop_unless_exited-IsTotal p _ _
