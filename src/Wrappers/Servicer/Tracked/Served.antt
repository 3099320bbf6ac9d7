-- ===== src/Wrappers/Servicer/Tracked/Served.antt =====
-- Whatever a servicer is asked, it loses no process and no tracked file.
use tls_interop_framework.Prelude.{List, Option, [], ap, none, sym, ℕ, ◌∙◌, ◌∷◌}
use tls_interop_framework.Python.Text.{has_char, mem}
use tls_interop_framework.Runner.Config.{
  OpType, OperationRequest, Role, TlsConfig, close, establish, key_update, transmit,
}
use tls_interop_framework.Runner.Driver.{request}
use tls_interop_framework.Wrappers.Process.{Attempt, Servicer, fails, gives}
use tls_interop_framework.Wrappers.Servicer.{OpResult, Wrapper, config_of, new_servicer}
use tls_interop_framework.Wrappers.Servicer.Keeping.Requests.{
  answer_failure-Keeps, handle_transmit-IsKeeping,
}
use tls_interop_framework.Wrappers.Servicer.Ledger.{Grows, Logged, logged, no_ledger}
use tls_interop_framework.Wrappers.Servicer.Requests.{
  answer_failure, dispatch_op, execute_operation, handle_close, handle_transmit, respond, serve,
}
use tls_interop_framework.Wrappers.Servicer.Tracked.{
  IsTracked, Keeps-IsTracked, fresh-IsTracked, grows,
}
use tls_interop_framework.Wrappers.Servicer.Tracked.Close.{
  IsClean, IsClean-IsTracked, close-IsClean,
}
use tls_interop_framework.Wrappers.Servicer.Tracked.Establish.{establish-IsTracked}

module _ {W : Type 0} (E : Wrapper W) where
  dispatch-IsTracked :
      (op : OpType) (req : OperationRequest) (s : Servicer (Logged W))
      → IsTracked s
      → IsTracked (dispatch_op (logged E) op req s).1
  unfolding dispatch_op
  dispatch-IsTracked establish req s T = establish-IsTracked E req.role (config_of req) s T
  dispatch-IsTracked transmit req s T =
      Keeps-IsTracked s (handle_transmit (logged E) req.role req.payload s).1
        (handle_transmit-IsKeeping (logged E) Grows (grows E) req.role req.payload s) T
  dispatch-IsTracked close req s T =
      IsClean-IsTracked (handle_close (logged E) s).1 (close-IsClean E s T)
  dispatch-IsTracked key_update req s T = T

  respond-IsTracked :
      (role : Role) (r : Attempt OpResult × Servicer (Logged W))
      → IsTracked r.1
      → IsTracked (respond (logged E) role r).1
  unfolding respond
  respond-IsTracked role (gives x, s) T = T
  respond-IsTracked role (fails e, s) T =
      Keeps-IsTracked s (answer_failure (logged E) role e s).1
        (answer_failure-Keeps (logged E) Grows (grows E) role e s) T

  -- A servicer whose processes and files are all accounted for answers any request, whatever the tools
  -- and the operating system do, and all of them are accounted for afterwards: each process that it
  -- ever started is held, was seen to have exited or was told to end, and each file that it ever gave
  -- to `_track_temp_file` is in its set or was given to `os.remove`.
  pub execute_operation-IsTracked :
      (req : OperationRequest) (s : Servicer (Logged W))
      → IsTracked s
      → IsTracked (execute_operation (logged E) req s).1
  unfolding execute_operation
  execute_operation-IsTracked req s T =
      respond-IsTracked req.role (dispatch_op (logged E) req.op req s)
        (dispatch-IsTracked req.op req s T)

  serve-IsTracked :
      (reqs : List OperationRequest) (s : Servicer (Logged W))
      → IsTracked s
      → IsTracked (serve (logged E) reqs s)
  unfolding serve
  serve-IsTracked [] s T = T
  serve-IsTracked (req ∷ reqs) s T =
      serve-IsTracked reqs (execute_operation (logged E) req s).1
        (execute_operation-IsTracked req s T)

  respond-IsClean :
      (role : Role) (r : Attempt OpResult × Servicer (Logged W))
      → IsClean r.1
      → IsClean (respond (logged E) role r).1
  unfolding respond
  respond-IsClean role (gives x, s) C = C
  respond-IsClean role (fails e, s) C =
      let K = answer_failure-Keeps (logged E) Grows (grows E) role e s in
      record {
        processes =
            λ p h. K.world.ended p (C.processes p (ap (has_char p) (sym K.world.launched) ∙ h));
        files = λ f h. K.world.removed f (C.files f (ap (mem f) (sym K.world.tracked_files) ∙ h));
        server = K.server ∙ C.server;
        client = K.client ∙ C.client;
        no_files = K.files ∙ C.no_files;
      }

  pub execute_close-IsClean :
      (role : Role) (config : Option TlsConfig) (payload : List ℕ) (s : Servicer (Logged W))
      → IsTracked s
      → IsClean (execute_operation (logged E) (request close role config payload) s).1
  unfolding execute_operation dispatch_op request
  execute_close-IsClean role config payload s T =
      respond-IsClean role (handle_close (logged E) s) (close-IsClean E s T)

  -- Whatever requests a new servicer has answered, after a CLOSE every process that it started was seen
  -- to have exited or was told to end, every file that it tracked was given to `os.remove`, and it holds
  -- no process and no file. Files that are written and never tracked are not meant.
  pub served_close-IsClean :
      (reqs : List OperationRequest) (role : Role) (w : W)
      → IsClean
          (execute_operation
            (logged E)
            (request close role none [])
            (serve (logged E) reqs (new_servicer (w, no_ledger)))).1
  served_close-IsClean reqs role w =
      execute_close-IsClean role none [] (serve (logged E) reqs (new_servicer (w, no_ledger)))
        (serve-IsTracked reqs (new_servicer (w, no_ledger)) (fresh-IsTracked w))
