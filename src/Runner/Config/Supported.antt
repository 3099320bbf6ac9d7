-- ===== src/Runner/Config/Supported.antt =====
-- A cell that passes the checks before the run gives each side a configuration that the side's
-- backend supports.
use tls_interop_framework.Prelude.{
  All, Bool, List, arith, false, if◌then◌else◌, is_empty, none, refl, true, ℕ, ℤ, ◌≡◌, ◌⊎◌,
}
use tls_interop_framework.Core.Catalog.{CapabilityFile, load_backend_capabilities, supports_cipher}
use tls_interop_framework.Core.Cell.{CellMap, backend_of}
use tls_interop_framework.Core.Tokens.{TlsMode}
use tls_interop_framework.Core.Validation.{
  CellSkipCtx, caps_at, cell_capability_skip_reason, cell_context, check_cell, mode_at,
  resolve_cell_tls_modes,
}
use tls_interop_framework.Core.Validation.Sound.{
  IsOffered, cipher-supported, not_skipped, tokens-IsOffered,
}
use tls_interop_framework.Python.Json.{Fields}
use tls_interop_framework.Python.Result.{>>=-eq-ok, ok, ok-injective}
use tls_interop_framework.Python.Text.{Text, lit, or_text}
use tls_interop_framework.Runner.Config.{
  Role, TlsConfig, apply_identity_material, client, config_at_port, fields_from_cell, is_server,
  pick_list, pick_scalar, port_of, server, tls_config_from_cell,
}
use tls_interop_framework.Runner.Config.Agreement.{
  pick_list-side_tokens, pick_scalar-cell_cipher_id,
}
use mathlib.Core.Path.{subst}

-- What a backend's capabilities say of a configuration in a TLS mode.
pub record IsSupported (caps : Fields) (mode : TlsMode) (cfg : TlsConfig) : Type 0 where
  pub cipher :
      (is_empty cfg.cipher_suite ≡ true) ⊎ (supports_cipher caps cfg.cipher_suite mode ≡ true)
  pub groups : All (IsOffered caps mode (lit "supported_groups")) cfg.supported_groups
  pub schemes : All (IsOffered caps mode (lit "signature_schemes")) cfg.signature_schemes
  pub protocols : All (IsOffered caps mode (lit "alpn")) cfg.alpn_protocols

-- The fields that a cell's configuration takes from the cell.
pub record IsFrom (cell : CellMap) (server_side : Bool) (cfg : TlsConfig) : Type 0 where
  pub version : cfg.version ≡ or_text (pick_scalar cell (lit "tls_version") server_side) (lit "1.3")
  pub cipher : cfg.cipher_suite ≡ pick_scalar cell (lit "cipher_suite") server_side
  pub groups : cfg.supported_groups ≡ pick_list cell (lit "supported_groups") server_side
  pub schemes : cfg.signature_schemes ≡ pick_list cell (lit "signature_schemes") server_side
  pub protocols : cfg.alpn_protocols ≡ pick_list cell (lit "alpn") server_side

-- What passes the checks of a context is supported on either side of it.
IsFrom-IsSupported :
    (is_file : Text → Bool) (ctx : CellSkipCtx) (b : Bool) (cfg : TlsConfig)
    → check_cell is_file ctx ≡ none
    → IsFrom ctx.cell b cfg
    → IsSupported (caps_at ctx b) (mode_at ctx b) cfg
IsFrom-IsSupported is_file ctx b cfg passed h =
    let offered = tokens-IsOffered is_file ctx passed b in
    record {
      cipher = rw h.cipher (rw pick_scalar-cell_cipher_id (cipher-supported is_file ctx passed b));
      groups = rw h.groups (rw pick_list-side_tokens offered.0);
      schemes = rw h.schemes (rw pick_list-side_tokens offered.1.0);
      protocols = rw h.protocols (rw pick_list-side_tokens offered.1.1.0);
    }

module _ (read_capabilities : Text → CapabilityFile) (is_file : Text → Bool)
    (read_bytes : Text → List ℕ) where
  IsFrom-identity :
      (cell : CellMap) (b : Bool) (cfg : TlsConfig)
      → IsFrom cell b cfg
      → IsFrom cell b (apply_identity_material read_capabilities is_file read_bytes cell cfg)
  unfolding apply_identity_material
  IsFrom-identity cell b cfg h = ground arith

  fields-IsFrom :
      (cell : CellMap) (b : Bool) (port : ℤ)
      → IsFrom cell b (fields_from_cell read_capabilities is_file read_bytes cell b port)
  unfolding fields_from_cell
  fields-IsFrom cell b port = record {
    version = refl;
    cipher = refl;
    groups = refl;
    schemes = refl;
    protocols = refl;
  }

  config_at_port-IsFrom :
      (cell : CellMap) (role : Role) (port : ℤ)
      → IsFrom cell
          (is_server role)
          (config_at_port read_capabilities is_file read_bytes cell role port)
  unfolding config_at_port is_server
  config_at_port-IsFrom cell server port =
      IsFrom-identity cell true _ (fields-IsFrom cell true port)
  config_at_port-IsFrom cell client port = fields-IsFrom cell false port

  pub tls_config-IsFrom :
      (cell : CellMap) (role : Role) (cfg : TlsConfig)
      → tls_config_from_cell read_capabilities is_file read_bytes cell role ≡ ok cfg
      → IsFrom cell (is_server role) cfg
  unfolding tls_config_from_cell
  tls_config-IsFrom cell role cfg h =
      let (port, p, e) =
        >>=-eq-ok (port_of (pick_scalar cell (lit "tls_port") (is_server role)))
          (λ n. ok (config_at_port read_capabilities is_file read_bytes cell role n)) h in
      subst (IsFrom cell (is_server role)) (ok-injective e) (config_at_port-IsFrom cell role port)

  -- A cell that names both backends and is not skipped: both capability files load, and whenever the
  -- configuration of a role is built, the role's backend supports its cipher, if it has one, and
  -- offers each of its groups, signature schemes and protocols, in the mode that the checks resolve
  -- for the role.
  pub config-IsSupported :
      (cell : CellMap) (role : Role) (cfg : TlsConfig)
      → is_empty (backend_of (lit "server") cell) ≡ false
      → is_empty (backend_of (lit "client") cell) ≡ false
      → cell_capability_skip_reason is_file read_capabilities cell ≡ none
      → tls_config_from_cell read_capabilities is_file read_bytes cell role ≡ ok cfg
      → (srv_caps : Fields) × (cli_caps : Fields) × (load_backend_capabilities read_capabilities
            (backend_of (lit "server") cell)
          ≡ ok srv_caps)
        × (load_backend_capabilities read_capabilities (backend_of (lit "client") cell)
            ≡ ok cli_caps)
        × IsSupported
            (if is_server role then srv_caps else cli_caps)
            (if is_server role
              then (resolve_cell_tls_modes cell srv_caps cli_caps).0
              else (resolve_cell_tls_modes cell srv_caps cli_caps).1)
            cfg
  unfolding cell_context caps_at mode_at
  config-IsSupported cell role cfg hs hc passed built =
      let (srv_caps, cli_caps, p, q, checks) =
        not_skipped is_file read_capabilities cell hs hc passed in
      (
        srv_caps,
        cli_caps,
        p,
        q,
        IsFrom-IsSupported is_file
            (cell_context is_file cell (backend_of (lit "server") cell)
              (backend_of (lit "client") cell) srv_caps cli_caps)
            (is_server role) cfg checks (tls_config-IsFrom cell role cfg built),
      )
