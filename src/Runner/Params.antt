-- ===== src/Runner/Params.antt =====
-- core/validation.py: the fields of a configuration that a backend cannot apply.
pub mod Conflicts
use tls_interop_framework.Prelude.{
  Bool, List, [], any, false, if◌then◌else◌, is_empty, keep, leb, none, not, pos, some, ℕ, ℤ, ◌&&◌,
  ◌++◌, ◌==◌, ◌||◌, ◌∷◌,
}
use tls_interop_framework.Core.Catalog.{CapabilityFile, load_backend_capabilities}
use tls_interop_framework.Core.Suite.{int_eq}
use tls_interop_framework.Core.Validation.{unsupported_fields}
use tls_interop_framework.Python.Dict.{Dict, lookup}
use tls_interop_framework.Python.Result.{Result, ok, ◌>>=◌}
use tls_interop_framework.Python.Text.{Text, lit, lower, mem, strip}
use tls_interop_framework.Runner.Config.{TlsConfig}

-- What an attribute of a configuration holds.
pub data FieldValue : Type 0 where
  repeated : List Text → FieldValue
  string_value : Text → FieldValue
  bytes_value : List ℕ → FieldValue
  bool_value : Bool → FieldValue
  int_value : ℤ → FieldValue

unfoldable pub field_table : TlsConfig → Dict FieldValue
field_table cfg =
    (lit "version", string_value cfg.version)
    ∷ (lit "cipher_suite", string_value cfg.cipher_suite)
    ∷ (lit "server_hostname", string_value cfg.server_hostname)
    ∷ (lit "port", int_value cfg.port)
    ∷ (lit "certificate", bytes_value cfg.certificate)
    ∷ (lit "private_key", bytes_value cfg.private_key)
    ∷ (lit "supported_groups", repeated cfg.supported_groups)
    ∷ (lit "signature_schemes", repeated cfg.signature_schemes)
    ∷ (lit "signature_schemes_cert", repeated cfg.signature_schemes_cert)
    ∷ (lit "alpn_protocols", repeated cfg.alpn_protocols)
    ∷ (lit "psk_modes", repeated cfg.psk_modes)
    ∷ (lit "resumption_step", string_value cfg.resumption_step)
    ∷ (lit "repo_root", string_value cfg.repo_root)
    ∷ (lit "expect_hrr", bool_value cfg.expect_hrr)
    ∷ []

-- `bytes.strip` takes ASCII spaces only.
unfoldable pub is_byte_space : ℕ → Bool
is_byte_space b = (leb 9 b && leb b 13) || b == 32

unfoldable pub iterable_field_has_value : List Text → Bool
iterable_field_has_value raw = any (λ x. not (is_empty (strip x))) raw

unfoldable pub value_is_set : FieldValue → Bool
unfolding is_byte_space
value_is_set (repeated ts) = iterable_field_has_value ts
value_is_set (string_value t) = not (is_empty (strip t))
value_is_set (bytes_value bs) = any (λ b. not (is_byte_space b)) bs
value_is_set (bool_value b) = b
value_is_set (int_value n) = not (int_eq n (pos 0))

-- An attribute that the message has not is None.
unfoldable pub config_has_value : TlsConfig → Text → Bool
unfolding field_table value_is_set
config_has_value cfg name = elim (lookup name (field_table cfg)) [
  | none ↦ false
  | some v ↦ value_is_set v
]

-- One round of the loops over `seen` and `output`, which hold the same names.
unfoldable pub add_unseen : List Text → List Text → List Text
add_unseen output [] = output
add_unseen output (item ∷ rest) =
    add_unseen (if mem item output then output else output ++ item ∷ []) rest

module _ (read_capabilities : Text → CapabilityFile) where
  unfoldable pub unsupported_cli_params : TlsConfig → Text → Result (List Text)
  unsupported_cli_params config backend = do
    caps ← load_backend_capabilities read_capabilities (lower (strip backend))
    ok (
        keep (λ name. not (is_empty name) && config_has_value config name)
          (unsupported_fields caps))

  -- `translated` is what the backend's own translation of the configuration reports as unsupported,
  -- none where no capabilities are given.
  unfoldable pub catalog_parameter_conflicts : TlsConfig → Text → List Text → Result (List Text)
  catalog_parameter_conflicts config backend translated = do
    params ← unsupported_cli_params config backend
    ok (add_unseen (add_unseen [] params) translated)
