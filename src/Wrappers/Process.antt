-- ===== src/Wrappers/Process.antt =====
-- wrappers/base.py: the state of a servicer, and what it does with its subprocesses. The operating
-- system is a parameter over an unknown state `W` of the world. Time is left out: sleeps and
-- timeouts only decide what a call answers.
use tls_interop_framework.Prelude.{
  Bool, List, Option, [], false, if◌then◌else◌, is_empty, none, or_else, some, true, ℕ, ℤ, ◌++◌,
  ◌∷◌,
}
use tls_interop_framework.Python.Text.{Text, has_char, lit, or_text, strip}
use tls_interop_framework.Runner.Config.{Role, client, server}
use tls_interop_framework.Wrappers.Output.{format_cli_debug_logs, merged_output}

-- The exceptions of a servicer; any other is given by the name of its class and its text.
pub data Failure : Type 0 where
  setup_error runtime_error skip_error : Text → Failure
  unexpected : Text → Text → Failure

-- What a method does: it gives a value or raises.
pub data Attempt (A : Type 0) : Type 0 where
  gives : A → Attempt A
  fails : Failure → Attempt A

-- The fields of `BaseTemplateWrapper`. A process is named by a number, its `Popen` object.
pub record Servicer (W : Type 0) : Type 0 where
  pub world : W
  pub server_proc : Option ℕ
  pub client_proc : Option ℕ
  pub active_temp_files : List Text
  pub session_artifact_repo_root : Text
  pub last_server_cmd : Text
  pub last_client_cmd : Text
  pub last_server_output : Text
  pub last_client_output : Text

-- The calls on processes, sockets and files. `terminate` and `kill` answer false where the process
-- is not found, `wait` where it times out, and `write_stdin` where the pipe is broken. `connects`
-- is `wait_tcp_connect`, with the text of the last error where it does not connect.
pub record Os (W : Type 0) : Type 0 where
  pub poll : ℕ → W → Option ℤ × W
  pub terminate : ℕ → W → Bool × W
  pub kill : ℕ → W → Bool × W
  pub wait : ℕ → W → Bool × W
  pub read_stdout : ℕ → W → List ℕ × W
  pub write_stdin : ℕ → List ℕ → W → Bool × W
  pub connects : Text → ℤ → ℕ → W → Option Text × W
  pub remove : Text → W → W
  -- What an override of `_extra_cleanup` adds: NSS removes its certificate database.
  pub cleanup_hook : W → W

abbrev pub Method : Type 0 → Type 0 → Type 0
Method W A = Servicer W → Attempt A × Servicer W

module _ {W A B : Type 0} where
  abbrev pub followed_by : Attempt A × Servicer W → (A → Method W B) → Attempt B × Servicer W
  followed_by (gives a, s) f = f a s
  followed_by (fails e, s) f = (fails e, s)

  infixl 5 ◌>>=◌
  abbrev pub ◌>>=◌ : Method W A → (A → Method W B) → Method W B
  ◌>>=◌ m f s = followed_by (m s) f

module _ {W : Type 0} where
  abbrev pub give : {A : Type 0} → A → Method W A
  give a s = (gives a, s)

  abbrev pub fail : {A : Type 0} → Failure → Method W A
  fail e s = (fails e, s)

  -- A call that answers and changes the world.
  abbrev pub ask : {A : Type 0} → (W → A × W) → Method W A
  ask f s = let r = f s.world in (gives r.0, record s { world = r.1 })

  abbrev pub change : (Servicer W → Servicer W) → Method W (Unit {0})
  change f s = (gives tt, f s)

  abbrev pub look : Method W (Servicer W)
  look s = (gives s, s)

  unfoldable pub proc_of : Role → Servicer W → Option ℕ
  proc_of server s = s.server_proc
  proc_of client s = s.client_proc

  unfoldable pub set_proc : Role → Option ℕ → Servicer W → Servicer W
  set_proc server p s = record s { server_proc = p }
  set_proc client p s = record s { client_proc = p }

  unfoldable pub last_cmd : Role → Servicer W → Text
  last_cmd server s = s.last_server_cmd
  last_cmd client s = s.last_client_cmd

  unfoldable pub last_output : Role → Servicer W → Text
  last_output server s = s.last_server_output
  last_output client s = s.last_client_output

  -- `_remember_role_cli`; an empty output leaves the last one.
  unfoldable pub remember_role_cli : Role → Text → Text → Servicer W → Servicer W
  remember_role_cli server cmd output s = record s {
    last_server_cmd = cmd;
    last_server_output = or_text output s.last_server_output;
  }
  remember_role_cli client cmd output s = record s {
    last_client_cmd = cmd;
    last_client_output = or_text output s.last_client_output;
  }

-- The last character, as a text.
last_char : Text → Text
last_char [] = []
last_char (c ∷ []) = c ∷ []
last_char (c ∷ d ∷ s) = last_char (d ∷ s)

-- `os.path.join(root, name)` of a root that is not empty.
unfoldable pub path_join : Text → Text → Text
unfolding last_char
path_join root name = if has_char b'/' (last_char root) then root ++ name else root ++ b'/' ∷ name

unfoldable pub session_artifact_files : Text → List Text
session_artifact_files repo_root =
    let root = strip repo_root in
    if is_empty root
    then []
    else path_join root (lit "session.ticket") ∷ path_join root (lit "early_data.txt") ∷ []

module _ {W : Type 0} (os : Os W) (decode : List ℕ → Text) where
  unfoldable pub kill_sent : ℕ → Bool → Method W (Unit {0})
  kill_sent p false = give tt
  kill_sent p true = ask (os.wait p) >>= λ ended. give tt

  -- What `_terminate_process_hard` does after it waited for a process that it told to end.
  unfoldable pub ended_or_kill : ℕ → Bool → Method W (Unit {0})
  unfolding kill_sent
  ended_or_kill p true = give tt
  ended_or_kill p false = ask (os.kill p) >>= kill_sent p

  unfoldable pub terminate_sent : ℕ → Bool → Method W (Unit {0})
  terminate_sent p false = give tt
  terminate_sent p true = ask (os.wait p) >>= ended_or_kill p

  unfoldable pub stop_unless_exited : ℕ → Option ℤ → Method W (Unit {0})
  stop_unless_exited p (some code) = give tt
  stop_unless_exited p none = ask (os.terminate p) >>= terminate_sent p

  unfoldable pub terminate_process_hard : Option ℕ → Method W (Unit {0})
  terminate_process_hard none = give tt
  terminate_process_hard (some p) = ask (os.poll p) >>= stop_unless_exited p

  -- `.decode(errors="replace")` of what `read_nonblocking_stdout` reads.
  unfoldable pub read_text : ℕ → Method W Text
  read_text p = ask (os.read_stdout p) >>= λ raw. give (decode raw)

  unfoldable pub drain_process_output : Option ℕ → Method W Text
  drain_process_output none = give []
  drain_process_output (some p) = read_text p >>= λ out. give (strip out)

  -- The exit code that `_build_cli_debug_logs` shows.
  unfoldable pub exit_code_of : Option ℕ → Method W (Option ℤ)
  exit_code_of none = give none
  exit_code_of (some p) = ask (os.poll p)

  -- The output of a log for which the caller gives none.
  unfoldable pub cached_and_drained : Text → Option ℕ → Method W Text
  cached_and_drained cached target =
      drain_process_output target >>= λ drained. give (merged_output cached drained)

  unfoldable pub output_or_drained : Text → Option ℕ → Option Text → Method W Text
  output_or_drained cached target (some out) = give out
  output_or_drained cached target none = cached_and_drained cached target

  unfoldable pub logs_of : Text → Option ℕ → Text → Method W Text
  logs_of cmd target out_text =
      exit_code_of target >>= λ code. give (format_cli_debug_logs cmd code out_text)

  -- `proc` and `cmd` fall back on what the servicer holds for the role.
  unfoldable pub build_cli_debug_logs : Role → Text → Option ℕ → Option Text → Method W Text
  build_cli_debug_logs role cmd proc output s =
      let target = or_else proc (proc_of role s) in
      (output_or_drained (last_output role s) target output
          >>= logs_of (strip (or_text cmd (last_cmd role s))) target)
        s

  -- Files that cannot be removed are passed over.
  unfoldable pub remove_all : List Text → W → W
  remove_all [] w = w
  remove_all (path ∷ paths) w = remove_all paths (os.remove path w)

  -- `_extra_cleanup`, and what a subclass adds to it.
  unfoldable pub extra_cleanup : Servicer W → Servicer W
  extra_cleanup s = record s {
    world = os.cleanup_hook (
        remove_all (session_artifact_files s.session_artifact_repo_root)
          (remove_all s.active_temp_files s.world));
    active_temp_files = [];
  }

  -- `_cleanup`
  unfoldable pub cleanup_servicer : Method W (Unit {0})
  cleanup_servicer = look >>= λ s. terminate_process_hard s.server_proc >>= λ _.
      terminate_process_hard s.client_proc >>= λ _.
      change (λ t. extra_cleanup (record t { server_proc = none; client_proc = none }))
