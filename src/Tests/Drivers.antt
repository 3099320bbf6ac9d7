-- ===== src/Tests/Drivers.antt =====
-- Tests against wrappers that echo.
use tls_interop_framework.Prelude.{List, [], refl, true, ℕ, ◌++◌, ◌↔◌, ◌≡◌}
use tls_interop_framework.Core.Tokens.{stripped}
use tls_interop_framework.Python.Text.{
  contains, is_space, lit, lower, lower_char, lstrip, mem, or_text, rstrip, rstrip_onto,
  starts_with, strip, text_eq,
}
use tls_interop_framework.Runner.Config.{OperationRequest}
use tls_interop_framework.Runner.Driver.{
  establish_client, Driver, check_hrr_assertion, check_response, checked, cleanup, close_role,
  connect, echoes, emergency_cleanup, emergency_close, emergency_noted, establish_checked, execute,
  finally_cleanup, is_skip, is_success, note, note_failure, received, request, returned,
  run_post_establish_round_trip, run_protocol, run_test_with_configs, skip_text, step, swallow,
  test_feature_enabled_in_config, transmit_server, verify, wants_resumption,
}
use tls_interop_framework.Runner.Driver.Requests.{
  emergency_cleanup-requests, run_test-all_requests, run_test-requests,
}
use tls_interop_framework.Runner.Driver.Sending.{
  Logged, logged, after_call, after_probe, close_requests, log_of, protocol_requests,
}
use tls_interop_framework.Runner.Driver.Transcript.{
  Echoed, Retried, exchanged, probed_beside, traced,
}
use tls_interop_framework.Runner.Outcome.{
  cell_run_of, conclude_cell, drive_cell, exit_timeout, finishes, hangs, is_ok, new_driver,
  process_cell_outcome, process_cell_timeout, run_cell_worker_thread,
}
use tls_interop_framework.Runner.Outcome.Codes.{
  drive_cell-Echoed, drive_cell-Retried, drive_cell-timeout,
}
use tls_interop_framework.Tests.Data.{echoing, small_config}

abbrev quiet : Driver ℕ
quiet = new_driver 0

abbrev listening : Driver (Logged ℕ)
listening = new_driver (0, [])

test_passes : (run_test_with_configs echoing small_config small_config quiet).0 ≡ returned true
unfolding run_test_with_configs run_protocol step execute check_response checked is_success is_skip
    starts_with lit lower strip rstrip lstrip is_space lower_char establish_client stripped contains
    mem or_text rstrip_onto text_eq check_hrr_assertion cleanup close_role connect echoes
    establish_checked finally_cleanup note note_failure received request
    run_post_establish_round_trip skip_text swallow test_feature_enabled_in_config transmit_server
    verify wants_resumption
test_passes = refl

logged_passes :
    (run_test_with_configs (logged echoing) small_config small_config listening).0 ≡ returned true
unfolding logged run_test_with_configs run_protocol step execute check_response checked is_success
    is_skip starts_with lit lower strip rstrip lstrip is_space lower_char stripped contains mem
    or_text rstrip_onto text_eq after_call after_probe check_hrr_assertion cleanup close_role
    connect echoes establish_checked establish_client finally_cleanup note note_failure received
    request run_post_establish_round_trip skip_text swallow test_feature_enabled_in_config
    transmit_server verify wants_resumption
logged_passes = refl

traced_passes : (drive_cell (traced echoing) small_config small_config finishes (0, [])).0 ≡ 0
unfolding traced exchanged probed_beside drive_cell conclude_cell run_cell_worker_thread cell_run_of
    run_test_with_configs run_protocol step execute check_response checked is_success is_skip
    starts_with lit lower strip rstrip stripped contains is_space lower_char lstrip mem or_text
    rstrip_onto text_eq check_hrr_assertion cleanup close_role connect echoes emergency_cleanup
    emergency_close emergency_noted establish_checked establish_client finally_cleanup note
    note_failure received request run_post_establish_round_trip skip_text swallow
    test_feature_enabled_in_config transmit_server verify wants_resumption is_ok new_driver
    process_cell_outcome process_cell_timeout
traced_passes = refl

drive_cell-Echoed_example :
    Echoed (drive_cell (traced echoing) small_config small_config finishes (0, [])).1.world.1
drive_cell-Echoed_example =
    drive_cell-Echoed echoing small_config small_config finishes 0 traced_passes

drive_cell-Retried_example :
    Retried small_config
      (drive_cell (traced echoing) small_config small_config finishes (0, [])).1.world.1
drive_cell-Retried_example =
    drive_cell-Retried echoing small_config small_config finishes 0 refl traced_passes

drive_cell-timeout_example :
    ((drive_cell echoing small_config small_config finishes 0).0 ≡ exit_timeout)
    ↔ ((d : Driver ℕ) × (finishes ≡ hangs d))
drive_cell-timeout_example = drive_cell-timeout echoing small_config small_config finishes 0

run_test-requests_example :
    (sent : List OperationRequest) × (unsent : List OperationRequest) × (sent ++ unsent
      ≡ protocol_requests small_config small_config)
    × (log_of (run_test_with_configs (logged echoing) small_config small_config listening).1
        ≡ log_of listening ++ (sent ++ close_requests))
run_test-requests_example = run_test-requests echoing small_config small_config listening

run_test-all_requests_example :
    log_of (run_test_with_configs (logged echoing) small_config small_config listening).1
    ≡ log_of listening ++ (protocol_requests small_config small_config ++ close_requests)
run_test-all_requests_example =
    run_test-all_requests echoing small_config small_config listening logged_passes

emergency_cleanup-requests_example :
    log_of (emergency_cleanup (logged echoing) listening) ≡ log_of listening ++ close_requests
emergency_cleanup-requests_example = emergency_cleanup-requests echoing listening
