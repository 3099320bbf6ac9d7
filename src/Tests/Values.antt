-- ===== src/Tests/Values.antt =====
-- Values of options, ports, prefixes and results.
use tls_interop_framework.Prelude.{
  All, List, [], all, arith, false, if◌then◌else◌, inr, pos, refl, some, true, ℕ, ◌++◌, ◌↔◌, ◌∷◌,
  ◌≡◌, ◌≤◌, ◌⊎◌,
}
use tls_interop_framework.Cli.{
  capped, effective_jobs, exit_status, max_jobs, status_for_rc, validate_cli_arguments,
}
use tls_interop_framework.Cli.Jobs.{effective_jobs-bounds, validate_cli_arguments-inr}
use tls_interop_framework.Cli.Status.{accepted, exit_status-zero}
use tls_interop_framework.Core.Identity.{get_cert_prefix_for_schemes}
use tls_interop_framework.Core.Identity.Prefixes.{rule_token, schemes-ecdsa}
use tls_interop_framework.Core.Orchestration.{
  grpc_port, max_parallel_jobs, slot_tls_port, with_port_override,
}
use tls_interop_framework.Core.Orchestration.Ports.{
  grpc_port-with_port_override, slot_tls_port-distinct,
}
use tls_interop_framework.Core.Suite.{int_eq}
use tls_interop_framework.Core.Tokens.{parse_asymmetric, split_csv_tokens}
use tls_interop_framework.Core.Tokens.Asymmetric.{parse_asymmetric-append}
use tls_interop_framework.Core.Tokens.Lists.{IsToken, split_csv_tokens-join}
use tls_interop_framework.Python.Result.{ok}
use tls_interop_framework.Python.Text.{
  Text, contains, has_char, is_space, join, lit, lower, lower_char, lstrip, remove_char,
  replace_char, rstrip, rstrip_onto, starts_with, strip,
}

abbrev two_groups : List Text
two_groups = lit "x25519" ∷ lit "secp256r1" ∷ []

two_IsTokens : All IsToken two_groups
unfolding strip lstrip rstrip rstrip_onto is_space has_char lit
two_IsTokens = ((refl, refl, refl), ((refl, refl, refl), tt))

split_csv_tokens-join_example : split_csv_tokens (join (b',' ∷ []) two_groups) ≡ two_groups
split_csv_tokens-join_example = split_csv_tokens-join two_groups two_IsTokens

server_trimmed : strip (lit "1.2") ≡ lit "1.2"
unfolding lit strip rstrip lstrip is_space
server_trimmed = refl

client_trimmed : strip (lit "1.3") ≡ lit "1.3"
unfolding lit strip rstrip lstrip is_space
client_trimmed = refl

server_plain : has_char b':' (lit "1.2") ≡ false
unfolding has_char lit
server_plain = refl

parse_asymmetric-append_example :
    parse_asymmetric (lit "1.2" ++ b':' ∷ lit "1.3") ≡ (lit "1.2", lit "1.3")
parse_asymmetric-append_example =
    parse_asymmetric-append (lit "1.2") (lit "1.3") server_trimmed client_trimmed server_plain

grpc_port-with_port_override_example :
    grpc_port (with_port_override (lit "127.0.0.1:50051") (some 250)) ≡ ok 250
grpc_port-with_port_override_example =
    grpc_port-with_port_override (lit "127.0.0.1:50051") 250 (omega arith)

abbrev third_slot : ℕ
third_slot = 3

abbrev openssl_port : ℕ
openssl_port = 25551

same_port :
    slot_tls_port openssl_port (some third_slot) ≡ slot_tls_port openssl_port (some third_slot)
same_port = refl

slot_tls_port-distinct_example : (third_slot ≡ third_slot) × (openssl_port ≡ openssl_port)
slot_tls_port-distinct_example =
    slot_tls_port-distinct openssl_port openssl_port third_slot third_slot (omega arith)
      (omega arith) same_port

abbrev ecdsa_scheme : Text
ecdsa_scheme = lit "ECDSA_secp384r1_sha384"

holds_ecdsa : contains (lit "ecdsa") (rule_token ecdsa_scheme) ≡ true
unfolding contains lit replace_char remove_char lower strip rstrip lstrip is_space lower_char
    starts_with
holds_ecdsa = refl

holds_no_ed25519 : contains (lit "ed25519") (rule_token ecdsa_scheme) ≡ false
unfolding contains lit replace_char remove_char lower strip rstrip lstrip is_space lower_char
    starts_with
holds_no_ed25519 = refl

holds_no_ed448 : contains (lit "ed448") (rule_token ecdsa_scheme) ≡ false
unfolding contains lit replace_char remove_char lower strip rstrip lstrip is_space lower_char
    starts_with
holds_no_ed448 = refl

schemes-ecdsa_example : get_cert_prefix_for_schemes (ecdsa_scheme ∷ lit "dsa" ∷ []) ≡ (
    if contains (lit "secp521") (rule_token ecdsa_scheme)
    then lit "ecdsa_p521"
    else if contains (lit "secp384") (rule_token ecdsa_scheme)
    then lit "ecdsa_p384"
    else lit "ecdsa_p256")
schemes-ecdsa_example =
    schemes-ecdsa ecdsa_scheme (lit "dsa" ∷ []) holds_ecdsa holds_no_ed25519 holds_no_ed448

exit_status-zero_example :
    (exit_status (0 ∷ 77 ∷ []) ≡ 0) ↔ (all (λ rc. accepted (status_for_rc rc)) (0 ∷ 77 ∷ []) ≡ true)
exit_status-zero_example = exit_status-zero (0 ∷ 77 ∷ [])

four_jobs : validate_cli_arguments 8 (pos 6) false (pos 0) ≡ inr 4
unfolding validate_cli_arguments capped max_jobs int_eq
four_jobs = refl

validate_cli_arguments-inr_example :
    (1 ≤ 4)
    × (4 ≤ max_parallel_jobs)
    × (4 ≤ max_jobs 8)
    × ((4 ≤ 1) ⊎ ((false ≡ false) × (int_eq (pos 0) (pos 0) ≡ true)))
validate_cli_arguments-inr_example = validate_cli_arguments-inr 8 (pos 6) false (pos 0) 4 four_jobs

effective_jobs-bounds_example :
    (1 ≤ effective_jobs 40 50)
    × (effective_jobs 40 50 ≤ 50)
    × (effective_jobs 40 50 ≤ max_parallel_jobs)
effective_jobs-bounds_example = effective_jobs-bounds 40 50 (omega arith)
