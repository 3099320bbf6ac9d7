-- ===== src/Tests/Queue.antt =====
-- Parallel runs of two small cells.
use tls_interop_framework.Prelude.{
  List, [], arith, if◌then◌else◌, is_empty, length, ltb, pos, refl, some, true, ℕ, ◌+◌, ◌∷◌, ◌≡◌,
  ◌≢◌, ◌⊎◌,
}
use tls_interop_framework.Cli.{effective_jobs}
use tls_interop_framework.Cli.Parallel.{
  Parallel, Reach, Step, borrowed, fate, finished, here, next, parallel_start, range, to_run,
}
use tls_interop_framework.Cli.Parallel.Progress.{CanStep, parallel-CanStep}
use tls_interop_framework.Cli.Parallel.Slots.{
  count, parallel-matrix_tls_port, parallel-results, parallel-slot_count, slot_count,
}
use tls_interop_framework.Cli.Product.{texts_eq}
use tls_interop_framework.Core.Catalog.{
  capability_dimension_name, capability_token_supported, cipher_map, cipher_modes,
  cipher_suite_map_from_tls_block, load_backend_capabilities, runtime, supports_cipher,
  supports_token, with_default,
}
use tls_interop_framework.Core.Cell.{
  apply_implicit_tls_version, backend_of, cell_cipher_id, cell_field, clear_for_mode,
  effective_cell_tls_mode, fill_in, implicit_tls_version_for_side, load_if_named,
  load_role_capabilities, merged_version, modes_of_side, normalize_cell_tls_micro_params, only13,
  with_port,
}
use tls_interop_framework.Core.Features.{
  after_dashes, cipher_catalog_id_requires_anon, cipher_catalog_id_requires_identity_pem,
  cipher_catalog_id_requires_psk, cipher_catalog_id_uses_dsa_auth, cipher_required_test_feature,
  has_part, has_part_prefix, parse_test_features_enabled,
}
use tls_interop_framework.Core.Plan.{cell_of, prepared_cell}
use tls_interop_framework.Core.Tokens.{
  asymmetric_role_part, fold_version, mode_eq, norm_catalog_token, parse_asymmetric,
  split_csv_tokens, stripped, tls_mode_from_version,
}
use tls_interop_framework.Core.Validation.{
  both_sides, caps_at, cell_capability_skip_reason, cell_context, check_cell, check_cipher_side,
  check_list_dim, cipher_required_feature_skip_reason, cipher_skip_reason, dimension_reason,
  dimension_skip_reason, enabled_features_skip_reason, expect_hrr_skip_reason, feature_cipher,
  feature_skip_reason, identity_skip_reason, mode_at, required_server_identity_prefix,
  resolve_cell_tls_modes, semantic_skip_reason, side_tokens, skip_reason_of,
  tls12_semantic_skip_reason_side, tls_version_skip_reason, token_reason, version_reason,
}
use tls_interop_framework.Python.Args.{arg_int, arg_text, attribute, option_text}
use tls_interop_framework.Python.Dict.{get_text, has_key, lookup, set}
use tls_interop_framework.Python.Json.{
  fields_of, get, has, is_dict, is_false, items, or_json, truthy,
}
use tls_interop_framework.Python.Result.{ok}
use tls_interop_framework.Python.Sorted.{sort_set}
use tls_interop_framework.Python.Text.{
  Text, contains, has_char, is_space, lit, lower, lower_char, lstrip, mem, or_text, remove_char,
  replace_char, rstrip, split, starts_with, strip, text_eq,
}
use tls_interop_framework.Runner.Cell.{Session, backend_tls_port, json_int, matrix_tls_port}
use tls_interop_framework.Tests.Data.{
  every_file, no_bytes, small_cell, small_files, small_keys, small_tuple,
}

abbrev two_combos : List (List Text)
two_combos = small_tuple ∷ small_tuple ∷ []

abbrev at_start : Parallel
at_start = parallel_start 2 two_combos

abbrev one_runs : Parallel
one_runs = record at_start {
  waiting = small_tuple ∷ [];
  running = (0, small_tuple) ∷ [];
  free = 1 ∷ [];
}

abbrev both_run : Parallel
both_run = record one_runs {
  waiting = [];
  running = (1, small_tuple) ∷ (0, small_tuple) ∷ [];
  free = [];
}

small_runs : fate small_files every_file [] small_keys small_tuple ≡ to_run
unfolding fate prepared_cell normalize_cell_tls_micro_params arg_int attribute lookup
    cell_capability_skip_reason backend_of lower cell_field strip rstrip lstrip get_text
    load_role_capabilities load_if_named cell_of text_eq lit is_space load_backend_capabilities
    fill_in set clear_for_mode effective_cell_tls_mode apply_implicit_tls_version with_port
    implicit_tls_version_for_side only13 modes_of_side cell_cipher_id has_char cipher_modes has_key
    cipher_map cipher_suite_map_from_tls_block items fields_of get truthy norm_catalog_token
    remove_char lower_char merged_version or_text tls_mode_from_version contains fold_version
    starts_with skip_reason_of check_cell semantic_skip_reason both_sides
    tls12_semantic_skip_reason_side mode_at cell_context resolve_cell_tls_modes feature_skip_reason
    enabled_features_skip_reason parse_test_features_enabled sort_set split_csv_tokens stripped
    split option_text arg_text cipher_required_feature_skip_reason feature_cipher
    cipher_required_test_feature cipher_catalog_id_requires_psk has_part mem
    cipher_catalog_id_requires_anon identity_skip_reason required_server_identity_prefix side_tokens
    asymmetric_role_part parse_asymmetric cipher_catalog_id_requires_identity_pem
    cipher_catalog_id_uses_dsa_auth replace_char has_part_prefix after_dashes expect_hrr_skip_reason
    cipher_skip_reason check_cipher_side supports_cipher caps_at dimension_skip_reason
    dimension_reason check_list_dim mode_eq token_reason supports_token capability_dimension_name
    is_dict capability_token_supported is_false has tls_version_skip_reason version_reason
small_runs = refl

first_borrows : Step small_files every_file [] small_keys at_start one_runs
unfolding parallel_start range effective_jobs
first_borrows = borrowed at_start [] (small_tuple ∷ []) small_tuple 0 (1 ∷ []) refl small_runs refl

second_borrows : Step small_files every_file [] small_keys one_runs both_run
second_borrows = borrowed one_runs [] [] small_tuple 1 [] refl small_runs refl

both_reached : Reach small_files every_file [] small_keys at_start both_run
both_reached = next (next here first_borrows) second_borrows

parallel-slot_count_example :
    slot_count 1 both_run ≡ (if ltb 1 (effective_jobs 2 (length two_combos)) then 1 else 0)
parallel-slot_count_example =
    parallel-slot_count small_files every_file [] small_keys 2 1 two_combos both_run both_reached

-- A session on each of the two slots.
abbrev session_on : ℕ → Session
session_on slot = record { slot_id = some slot; grpc_port_overrides = []; root = lit "/r" }

no_own_port : is_empty (cell_field (lit "tls_port") small_cell) ≡ true
unfolding cell_field lit strip rstrip lstrip get_text lookup text_eq
no_own_port = refl

own_base :
    backend_tls_port small_files every_file no_bytes
      (lower (strip (backend_of (lit "server") small_cell)))
    ≡ ok (pos 25551)
unfolding backend_of backend_tls_port lit lower strip load_backend_capabilities json_int or_json
    truthy runtime with_default get fields_of text_eq
own_base = refl

parallel-matrix_tls_port_example :
    matrix_tls_port small_files every_file no_bytes small_cell (session_on 1)
    ≢ matrix_tls_port small_files every_file no_bytes small_cell (session_on 0)
parallel-matrix_tls_port_example =
    parallel-matrix_tls_port small_files every_file [] small_keys 2 two_combos both_run 1 0 25551
      25551 small_tuple small_tuple [] [] [] no_bytes small_cell small_cell (session_on 1)
      (session_on 0) both_reached refl no_own_port no_own_port refl refl own_base own_base
      (omega arith) (omega arith)

abbrev one_done : Parallel
one_done = record both_run {
  running = (0, small_tuple) ∷ [];
  free = 1 ∷ [];
  results = (small_tuple, 0) ∷ at_start.results;
}

abbrev all_done : Parallel
all_done = record one_done {
  running = [];
  free = 1 ∷ 0 ∷ [];
  results = (small_tuple, 0) ∷ (small_tuple, 0) ∷ at_start.results;
}

second_finishes : Step small_files every_file [] small_keys both_run one_done
second_finishes = finished both_run [] ((0, small_tuple) ∷ []) small_tuple 1 0 refl

first_finishes : Step small_files every_file [] small_keys one_done all_done
first_finishes = finished one_done [] [] small_tuple 0 0 refl

done_reached : Reach small_files every_file [] small_keys at_start all_done
done_reached = next (next both_reached second_finishes) first_finishes

parallel-results_example :
    count (λ r. texts_eq small_tuple r.0) all_done.results
      + count (texts_eq small_tuple) all_done.failed
    ≡ count (texts_eq small_tuple) two_combos
parallel-results_example =
    parallel-results small_files every_file [] small_keys (texts_eq small_tuple) 2 two_combos
      all_done done_reached refl refl

parallel-CanStep_example :
    ((both_run.waiting ≡ []) × (both_run.running ≡ []))
    ⊎ CanStep small_files every_file [] small_keys both_run
parallel-CanStep_example =
    parallel-CanStep small_files every_file [] small_keys 2 two_combos both_run (omega arith)
      both_reached
