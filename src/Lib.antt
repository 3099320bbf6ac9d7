-- ===== src/Lib.antt =====
-- Verification of the TLS interoperability framework: the matrix of test cells, the checks that
-- skip a cell, the configurations that a cell gives, the driver that runs it, and the servicers of
-- the wrappers, which answer the driver.
--
-- A run expands the options into the axes of a matrix, takes their product, completes each
-- combination into a cell, and skips a cell whose backends cannot run it. The others are run by the
-- driver, which sends requests to the wrappers of both roles and judges the answers. The exit codes
-- of the cells give the exit status of the program.
--
-- Files and the code that they model:
--   Prelude                   shared names, Boolean tests, lists, integers
--   Python                    what the program uses of Python: str (Text), sorted and set (Sorted),
--                             dict (Dict), parsed JSON (Json), exceptions (Result), the argument
--                             namespace with int() and str() (Args)
--   Core/Tokens, Core/Catalog core/catalog.py
--   Core/Features             core/features.py
--   Core/Identity             core/identity.py
--   Core/Matrix, Core/Cell, Core/Plan
--                             core/matrix.py: axes, one cell, the whole plan
--   Core/Validation           core/validation.py: the checks of cell_capability_skip_reason
--   Core/Suite                core/suite.py
--   Core/Orchestration        core/orchestration.py, and the ports of core/runner.py
--   Runner/Config             core/runner.py (tls_config_from_cell) and interop_proto/interop.proto
--   Runner/Params             core/validation.py: unsupported_cli_params and
--                             catalog_parameter_conflicts
--   Runner/Driver             core/runner.py (InteropDriver); Transcript and Sending have endpoints
--                             that keep what was sent and heard
--   Runner/Outcome, Runner/Cell
--                             core/runner.py (_run_cell_worker_thread to execute_matrix_cell)
--   Wrappers/Output           wrappers/utils.py: the texts read from, and made of, a tool's output
--   Wrappers/Process          wrappers/base.py: the state of a servicer and its subprocesses
--   Wrappers/Servicer         wrappers/base.py: BaseTemplateWrapper, its handlers in the children
--                             Server, Client and Requests; Keeping, Frame and Skip are lemmas on
--                             them; Ledger adds a log of processes and tracked files to the world,
--                             and Tracked says what the log shows
--   Wrappers/Pair             a test of core/runner.py run against two servicers
--   Wrappers/Connect          wrappers/base.py: wait_tcp_connect
--   Wrappers/Translation      tls_argv_for_config of wrappers/openssl, wrappers/gnutls and
--                             wrappers/nss; Complete has the lemmas on them
--   Wrappers/Certs            core/identity.py and wrappers/base.py: the certificates and keys that a
--                             tool is given
--   Wrappers/Command          wrappers/openssl: the command lines, with what they use of
--                             wrappers/utils.py; Gnutls and Nss have those of the other two
--   Wrappers/NssDb            wrappers/nss/nss_db.py: nicknames and the identities to import
--   Cli                       main.py; Cli/Parallel has the threads and slots of a parallel run
--   Tests                     runs at concrete inputs
-- A definition has the name of the function that it models, without a leading underscore.
--
-- What the model leaves to parameters: `read_capabilities` is what stands in a wrapper's
-- capabilities.json, parsed; `is_file` and `read_bytes` are the file system; `known` are the
-- wrappers that discover_wrapper_ids finds, sorted; `Endpoints` are the two gRPC stubs and the TCP
-- probe over an unknown state of the world; `str_nested` is Python's text of a nested YAML value;
-- `translated` is what a wrapper's translation of a configuration reports as unsupported; `cpus` is
-- the number of processors; `Os` are the calls on processes, sockets and files that a servicer
-- makes, over an unknown state of the world; `Backend` is what a subclass of BaseTemplateWrapper
-- implements; `Network` is the clock and the TCP probe of a wait; `wire` is what becomes of a gRPC
-- call, whose request or answer may be lost; `stage` writes a certificate and a key to two files. No
-- property of them is assumed, but that the clock of a wait does not go back and that a sleep takes
-- its time, and, for what two servicers leave behind, that the CLOSE requests get to them.
--
-- How values are represented: a text is the list of its code points, and lower() maps the letters A
-- to Z, which is all that the catalog has. JSON numbers are natural. A set is the sorted list of its
-- elements. Paths are texts from the repository's root. The reason of a skip is data, not its
-- message. A cell's worker thread either ends in time or hangs in an arbitrary state of the driver.
-- A parallel run is a step relation, in which any thread may step next, a cell's exit code is
-- arbitrary, and a cell may raise.
-- Loops are structural recursion, with two fuels: in the digits of a number it is the number plus
-- one, which is more than it has digits, and in the wait for a port it is the timeout in milliseconds
-- plus one, which is enough as each round sleeps for 50 ms.
--
-- Not modelled: console output, sleeps, log files, the argument parser, the processes of a session,
-- the tools that fill the database of NSS, and the patterns by which the wrappers read negotiated
-- parameters from a tool's output.
pub mod Prelude
pub mod Python
pub mod Core
pub mod Runner
pub mod Wrappers
pub mod Cli
mod Tests
