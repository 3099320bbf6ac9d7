-- ===== src/Wrappers/Certs/Paths.antt =====
-- The paths that a tool is given.
use tls_interop_framework.Prelude.{
  Bool, Bool-cases, List, Option, [], ap, arith, false, if◌then◌else◌, inl, inr, is_empty, none,
  refl, some, sym, true, ℕ, ◌&&◌, ◌||◌, ◌∙◌, ◌∷◌, ◌≡◌,
}
use tls_interop_framework.Core.Features.{cipher_catalog_id_uses_dsa_auth}
use tls_interop_framework.Core.Identity.{
  catalog_identity_pem_paths_for_prefix, cert_path, default_prefix, key_path,
}
use tls_interop_framework.Python.Text.{Text, lit, or_text, strip}
use tls_interop_framework.Runner.Config.{TlsConfig}
use tls_interop_framework.Wrappers.Certs.{
  Staging, after_dsa, catalog_or_fail, catalog_paths, dsa_catalog_identity_pem, ensure_cert_paths,
  get_cert_prefix_for_config, has_inline, inline_or_catalog, no_identity, tracked,
  write_inline_cert_key,
}
use tls_interop_framework.Wrappers.Process.{Attempt, Failure, fails, gives}
use mathlib.Core.Path.{subst}

-- The prefix of the catalog's identity for a configuration.
unfoldable pub catalog_prefix : TlsConfig → Text
catalog_prefix config =
    if cipher_catalog_id_uses_dsa_auth config.cipher_suite
    then lit "dsa_default"
    else get_cert_prefix_for_config config

-- The certificate and the key of one bundle of the catalog, in this order, which are both files.
unfoldable pub IsBundle : (Text → Bool) → Text → Text × Text → Type 0
IsBundle is_file prefix paths =
    (paths ≡ (
      cert_path (or_text (strip prefix) default_prefix),
      key_path (or_text (strip prefix) default_prefix),
    ))
    × (is_file paths.0 ≡ true)
    × (is_file paths.1 ≡ true)

module _ {W : Type 0} (is_file : Text → Bool)
    (stage : List ℕ → List ℕ → W → Attempt (Text × Text) × W) where
  -- What a configuration resolves to: its own certificate and key, written to two files which are
  -- tracked, or a bundle of the catalog with nothing tracked.
  pub data Resolves (config : TlsConfig) (w : W) (paths : Text × Text) : List Text → Type 0 where
    inline :
        has_inline config ≡ true
        → (stage config.certificate config.private_key w).0 ≡ gives paths
        → Resolves config w paths (paths.0 ∷ paths.1 ∷ [])
    bundle : IsBundle is_file (catalog_prefix config) paths → Resolves config w paths []

  some_pair : (p q : Text × Text) → some p ≡ some q → p ≡ q
  some_pair p q h = cc

  -- A bundle is given if both of its files are there, and its paths are not empty.
  bundle_paths :
      (p paths : Text × Text) (c k : Bool)
      → (if is_empty (if c && k then p else ([], [])).0
            || is_empty (if c && k then p else ([], [])).1
          then none
          else some (if c && k then p else ([], [])))
        ≡ some paths
      → (paths ≡ p) × (c ≡ true) × (k ≡ true)
  bundle_paths p paths true true h = elim (Bool-cases (is_empty p.0 || is_empty p.1)) [
    | inl e ↦ absurd (ground (arith, subst (λ b. (if b then none else some p) ≡ some paths) e h))
    | inr n ↦ (
      sym (some_pair p paths (subst (λ b. (if b then none else some p) ≡ some paths) n h)),
      refl,
      refl,
    )
  ]
  bundle_paths p paths true false h = absurd (ground arith)
  bundle_paths p paths false k h = absurd (ground arith)

  catalog-IsBundle :
      (prefix : Text) (paths : Text × Text)
      → catalog_paths is_file stage prefix ≡ some paths
      → IsBundle is_file prefix paths
  unfolding catalog_paths catalog_identity_pem_paths_for_prefix IsBundle
  catalog-IsBundle prefix paths h =
      let p = or_text (strip prefix) default_prefix in
      let (same, cert, key) =
        bundle_paths (cert_path p, key_path p) paths (is_file (cert_path p)) (is_file (key_path p))
          h in
      (same, ap (λ t. is_file t.0) same ∙ cert, ap (λ t. is_file t.1) same ∙ key)

  GivesResolved : TlsConfig → W → Staging W → Type 0
  GivesResolved config w r =
      (paths : Text × Text) → r.0.1 ≡ gives paths → Resolves config w paths r.0.0

  same_paths : (p q : Text × Text) → gives p ≡ gives q → p ≡ q
  same_paths p q h = cc

  raises : (e : Failure) (q : Text × Text) → fails e ≡ gives q → ⊥
  raises e q h = cc

  tracked-GivesResolved :
      (config : TlsConfig) (w : W) (r : Attempt (Text × Text) × W)
      → has_inline config ≡ true
      → (stage config.certificate config.private_key w).0 ≡ r.0
      → GivesResolved config w (tracked is_file stage r)
  unfolding GivesResolved tracked
  tracked-GivesResolved config w (gives p, v) i e q h =
      subst (λ t. Resolves config w t (p.0 ∷ p.1 ∷ [])) (same_paths p q h) (inline i e)
  tracked-GivesResolved config w (fails x, v) i e q h = absurd (raises x q h)

  of_catalog :
      (config : TlsConfig) (o : Option (Text × Text)) (w v : W)
      → cipher_catalog_id_uses_dsa_auth config.cipher_suite ≡ false
      → catalog_paths is_file stage (get_cert_prefix_for_config config) ≡ o
      → GivesResolved config w (catalog_or_fail is_file stage o v)
  unfolding GivesResolved catalog_or_fail catalog_prefix
  of_catalog config (some p) w v plain found q h =
      subst (λ t. Resolves config w t []) (same_paths p q h)
        (bundle (rw plain (catalog-IsBundle (get_cert_prefix_for_config config) p found)))
  of_catalog config none w v plain found q h = absurd (raises no_identity q h)

  inline_or_catalog-GivesResolved :
      (config : TlsConfig) (w : W)
      → (has_inline config ≡ false → cipher_catalog_id_uses_dsa_auth config.cipher_suite ≡ false)
      → GivesResolved config w (inline_or_catalog is_file stage config w)
  unfolding inline_or_catalog write_inline_cert_key
  inline_or_catalog-GivesResolved config w plain = elim (Bool-cases (has_inline config)) [
    | inl own ↦
        rw own
          (tracked-GivesResolved config w (stage config.certificate config.private_key w) own refl)
    | inr none_own ↦ rw none_own (
        of_catalog config (catalog_paths is_file stage (get_cert_prefix_for_config config)) w w
          (plain none_own) refl)
  ]

  dsa-some :
      (config : TlsConfig) (paths : Text × Text)
      → dsa_catalog_identity_pem is_file stage config ≡ gives (some paths)
      → (cipher_catalog_id_uses_dsa_auth config.cipher_suite ≡ true)
        × (catalog_paths is_file stage (lit "dsa_default") ≡ some paths)
  unfolding dsa_catalog_identity_pem
  dsa-some config paths h = ground arith

  dsa-none :
      (config : TlsConfig)
      → dsa_catalog_identity_pem is_file stage config ≡ gives none
      → has_inline config ≡ false
      → cipher_catalog_id_uses_dsa_auth config.cipher_suite ≡ false
  unfolding dsa_catalog_identity_pem
  dsa-none config h own = ground arith

  after_dsa-GivesResolved :
      (config : TlsConfig) (r : Attempt (Option (Text × Text))) (w : W)
      → dsa_catalog_identity_pem is_file stage config ≡ r
      → GivesResolved config w (after_dsa is_file stage config r w)
  unfolding after_dsa GivesResolved catalog_prefix
  after_dsa-GivesResolved config (fails e) w found q h = absurd (raises e q h)
  after_dsa-GivesResolved config (gives (some p)) w found q h =
      let (weak, present) = dsa-some config p found in
      subst (λ t. Resolves config w t []) (same_paths p q h)
        (bundle (rw weak (catalog-IsBundle (lit "dsa_default") p present)))
  after_dsa-GivesResolved config (gives none) w found q h =
      inline_or_catalog-GivesResolved config w (dsa-none config found) q h

  -- If the certificate and key of a configuration are resolved, then they are either the files to which
  -- its own certificate and key were written, and these two are tracked, or the certificate and the key
  -- of one bundle of the catalog, both of which are files, and nothing is tracked. The bundle is that of
  -- DSA for a cipher with DSA authentication, and otherwise that of the configuration's prefix.
  pub ensure_cert_paths-Resolves :
      (config : TlsConfig) (w : W) (paths : Text × Text)
      → (ensure_cert_paths is_file stage config w).0.1 ≡ gives paths
      → Resolves config w paths (ensure_cert_paths is_file stage config w).0.0
  unfolding ensure_cert_paths GivesResolved
  ensure_cert_paths-Resolves config w paths h =
      after_dsa-GivesResolved config (dsa_catalog_identity_pem is_file stage config) w refl paths h
