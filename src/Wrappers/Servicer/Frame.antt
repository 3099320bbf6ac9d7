-- ===== src/Wrappers/Servicer/Frame.antt =====
-- What a part of a handler that holds nothing new leaves alone: the processes of both roles.
use tls_interop_framework.Prelude.{◌≡◌}
use tls_interop_framework.Runner.Config.{Role, client, server}
use tls_interop_framework.Wrappers.Process.{Servicer, proc_of}
use tls_interop_framework.Wrappers.Servicer.{Wrapper}
use tls_interop_framework.Wrappers.Servicer.Keeping.{Keeps}
use tls_interop_framework.Wrappers.Servicer.Keeping.Handlers.{IsKeptBy}

abbrev pub Anything : {W : Type 0} → W → W → Type 0
Anything u v = Unit {0}

pub anything : {W : Type 0} (E : Wrapper W) → IsKeptBy E Anything
anything E = record {
  calls = record {
    same = λ w. tt;
    both = λ u v w h k. tt;
    poll = λ p w. tt;
    terminate = λ p w. tt;
    kill = λ p w. tt;
    wait = λ p w. tt;
    read_stdout = λ p w. tt;
    write_stdin = λ p bytes w. tt;
    connects = λ host port p w. tt;
    remove = λ path w. tt;
    cleanup_hook = λ w. tt;
  };
  translate = λ role config w. tt;
}

pub Keeps-proc_of :
    {W : Type 0} (role : Role) (s t : Servicer W)
    → Keeps Anything s t
    → proc_of role t ≡ proc_of role s
unfolding proc_of
Keeps-proc_of server s t K = K.server
Keeps-proc_of client s t K = K.client
