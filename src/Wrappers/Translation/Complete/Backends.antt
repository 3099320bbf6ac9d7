-- ===== src/Wrappers/Translation/Complete/Backends.antt =====
-- The translations of the three wrappers, where the checks accept the configuration.
use tls_interop_framework.Prelude.{
  Bool, Option, [], arith, false, if◌then◌else◌, inl, inr, is_empty, is_some, none, refl, some, sym,
  true, ◌||◌, ◌≡◌, ◌⊎◌,
}
use tls_interop_framework.Core.Catalog.{
  capability_dimension_name, cipher_map, psk_material, supports_cipher,
}
use tls_interop_framework.Core.Tokens.{TlsMode, tls12, tls13}
use tls_interop_framework.Python.Dict.{has_key}
use tls_interop_framework.Python.Json.{Fields}
use tls_interop_framework.Python.Text.{
  Text, is_space, lit, lstrip, rstrip, rstrip_onto, strip, text_eq,
}
use tls_interop_framework.Runner.Config.{Role, TlsConfig}
use tls_interop_framework.Runner.Config.Supported.{IsSupported}
use tls_interop_framework.Wrappers.Translation.{
  Translation, cipher_value, mapped_argv, mode_of, nothing, raw_cipher, ◌⊕◌,
}
use tls_interop_framework.Wrappers.Translation.Complete.{
  IsTranslatable, has_key-lookup, join_priority_complete, mapped_argv_complete, ⊕_complete,
}
use tls_interop_framework.Wrappers.Translation.Gnutls.{
  as_priority, cipher_priority, cipher_priority_token, gnutls_argv_for_config,
  gnutls_priority_parts, gnutls_psk_extras, priority_frags_13, psk_extra,
}
use tls_interop_framework.Wrappers.Translation.Nss.{
  c_argument, mapped_csv_argv, nss_argv_for_config, nss_cipher_argv, nss_tls13_lists,
}
use tls_interop_framework.Wrappers.Translation.Openssl.{
  cipher_argv, cipher_of_mode, mapped_colon_argv, openssl_argv_for_config, psk_arguments, psk_argv,
  tls13_lists, wants_psk,
}
use mathlib.Core.Path.{subst}

module _ (caps : Fields) (cfg : TlsConfig) (T : IsTranslatable caps cfg)
    (S : IsSupported caps (mode_of cfg) cfg) where
  -- The id is empty or the backend has a value for it.
  cipher-mapped :
      (is_empty (raw_cipher cfg) ≡ true)
      ⊎ ((v : Text) × (cipher_value caps (mode_of cfg) (raw_cipher cfg) ≡ some v))
  unfolding raw_cipher cipher_value supports_cipher
  cipher-mapped = elim S.cipher [
    | inl blank ↦ inl (rw T.cipher_stripped blank)
    | inr listed ↦ inr (
        rw T.cipher_stripped (
          rw T.cipher_normal (
            has_key-lookup cfg.cipher_suite (cipher_map caps (mode_of cfg)) (
              either (has_key cfg.cipher_suite (cipher_map caps (mode_of cfg))) (
                subst
                  (λ k.
                    (has_key k (cipher_map caps (mode_of cfg))
                      || has_key cfg.cipher_suite (cipher_map caps (mode_of cfg)))
                    ≡ true)
                  T.cipher_normal listed)))))
  ]
    where
      either : (b : Bool) → (b || b) ≡ true → b ≡ true
      either b h = ground arith

  -- A part for the cipher that is complete where the id is empty and where it has a value.
  cipher_part :
      (part : Option Text → Translation)
      → ((v : Text) → (part (some v)).unsupported ≡ [])
      → (if is_empty (raw_cipher cfg)
          then nothing
          else part (cipher_value caps (mode_of cfg) (raw_cipher cfg))).unsupported
        ≡ []
  cipher_part part complete = elim cipher-mapped [
    | inl blank ↦ rw blank refl
    | inr found ↦
        rest_part (is_empty (raw_cipher cfg))
          (part (cipher_value caps (mode_of cfg) (raw_cipher cfg)))
          (subst (λ o. (part o).unsupported ≡ []) (sym found.1) (complete found.0))
  ]
    where
      rest_part :
          (b : Bool) (t : Translation)
          → t.unsupported ≡ []
          → (if b then nothing else t).unsupported ≡ []
      rest_part true t h = refl
      rest_part false t h = h

  psk_part :
      (part : Option (Text × Text) → Translation)
      → ((m : Text × Text) → (part (some m)).unsupported ≡ [])
      → (if wants_psk cfg (raw_cipher cfg)
          then part (psk_material caps (raw_cipher cfg))
          else nothing).unsupported
        ≡ []
  psk_part part complete =
      of (wants_psk cfg (raw_cipher cfg)) (psk_material caps (raw_cipher cfg)) T.secret
    where
      of :
          (b : Bool) (o : Option (Text × Text))
          → (b ≡ true → is_some o ≡ true)
          → (if b then part o else nothing).unsupported ≡ []
      of false o h = refl
      of true (some m) h = complete m
      of true none h = absurd (no_secret (h refl))
        where
          no_secret : false ≡ true → ⊥
          no_secret e = cc

  groups_known : capability_dimension_name (lit "supported_groups") ≡ lit "supported_groups"
  unfolding capability_dimension_name lit strip lstrip rstrip rstrip_onto is_space text_eq
  groups_known = refl

  schemes_known : capability_dimension_name (lit "signature_schemes") ≡ lit "signature_schemes"
  unfolding capability_dimension_name lit strip lstrip rstrip rstrip_onto is_space text_eq
  schemes_known = refl

  groups_other : text_eq (lit "supported_groups") (lit "cipher_suite") ≡ false
  unfolding lit text_eq
  groups_other = refl

  schemes_other : text_eq (lit "signature_schemes") (lit "cipher_suite") ≡ false
  unfolding lit text_eq
  schemes_other = refl

  both_lists :
      (remark sep groups_opt schemes_opt : Text)
      → (mapped_argv remark sep caps (lit "supported_groups") groups_opt cfg.supported_groups
          ⊕ mapped_argv remark sep caps
              (lit "signature_schemes")
              schemes_opt
              cfg.signature_schemes).unsupported
        ≡ []
  both_lists remark sep groups_opt schemes_opt =
      ⊕_complete _ _
        (mapped_argv_complete caps (mode_of cfg) (lit "supported_groups") groups_known groups_other
          T.groups_filled remark sep groups_opt cfg.supported_groups S.groups T.groups)
        (mapped_argv_complete caps (mode_of cfg) (lit "signature_schemes") schemes_known
          schemes_other T.schemes_filled remark sep schemes_opt cfg.signature_schemes S.schemes
          T.schemes)

  openssl_lists : (mode : TlsMode) → (tls13_lists cfg caps mode).unsupported ≡ []
  unfolding tls13_lists mapped_colon_argv
  openssl_lists tls13 = both_lists _ _ _ _
  openssl_lists tls12 = refl

  nss_lists : (mode : TlsMode) → (nss_tls13_lists cfg caps mode).unsupported ≡ []
  unfolding nss_tls13_lists mapped_csv_argv
  nss_lists tls13 = both_lists _ _ _ _
  nss_lists tls12 = refl

  gnutls_lists : (mode : TlsMode) → (priority_frags_13 cfg caps mode).unsupported ≡ []
  unfolding priority_frags_13
  gnutls_lists tls13 =
      ⊕_complete _ _
        (join_priority_complete caps (mode_of cfg) (lit "supported_groups") groups_known
          groups_other T.groups_filled (lit ":-GROUP-ALL") (lit ":+GROUP-") cfg.supported_groups
          S.groups T.groups)
        (join_priority_complete caps (mode_of cfg) (lit "signature_schemes") schemes_known
          schemes_other T.schemes_filled [] (lit ":+") cfg.signature_schemes S.schemes T.schemes)
  gnutls_lists tls12 = refl

  openssl_cipher : (cipher_argv cfg (raw_cipher cfg) (mode_of cfg) caps).unsupported ≡ []
  unfolding cipher_argv cipher_of_mode
  openssl_cipher =
      cipher_part (cipher_of_mode cfg (raw_cipher cfg) (mode_of cfg)) (of_mode (mode_of cfg))
    where
      of_mode :
          (mode : TlsMode) (v : Text)
          → (cipher_of_mode cfg (raw_cipher cfg) mode (some v)).unsupported ≡ []
      of_mode tls13 v = refl
      of_mode tls12 v = refl

  openssl_complete : (openssl_argv_for_config caps cfg).unsupported ≡ []
  unfolding openssl_argv_for_config psk_argv psk_arguments
  openssl_complete =
      ⊕_complete _ _
        (⊕_complete _ _ (⊕_complete _ _ refl openssl_cipher) (psk_part psk_arguments (λ m. refl)))
        (openssl_lists (mode_of cfg))

  nss_complete : (nss_argv_for_config caps cfg).unsupported ≡ []
  unfolding nss_argv_for_config nss_cipher_argv c_argument
  nss_complete =
      ⊕_complete _ _
        (⊕_complete _ _
          (⊕_complete _ _ (cipher_part (c_argument (raw_cipher cfg)) (λ v. refl))
            (nss_lists (mode_of cfg)))
          refl)
        refl

  gnutls_complete :
      (passwd_file : Text) (role : Role)
      → (gnutls_argv_for_config passwd_file role caps cfg).unsupported ≡ []
  unfolding gnutls_argv_for_config gnutls_psk_extras psk_extra as_priority gnutls_priority_parts
      cipher_priority_token cipher_priority
  gnutls_complete passwd_file role =
      ⊕_complete _ _ (⊕_complete _ _ (psk_part (psk_extra passwd_file role) (λ m. refl)) refl) (
        ⊕_complete _ _
          (⊕_complete _ _
            (⊕_complete _ _ refl (cipher_part (cipher_priority (raw_cipher cfg)) (λ v. refl)))
            (gnutls_lists (mode_of cfg)))
          refl)

-- A configuration whose cipher, groups and schemes are ids in the normal form of the catalog, and
-- capabilities that have a value for every group and scheme that they list, and a secret for the
-- cipher if the configuration asks for a PSK: if the checks find the configuration supported in the
-- mode of its version, then each of the three wrappers translates it with nothing left unsupported.
pub supported-translated :
    (caps : Fields) (cfg : TlsConfig) (passwd_file : Text) (role : Role)
    → IsTranslatable caps cfg
    → IsSupported caps (mode_of cfg) cfg
    → ((openssl_argv_for_config caps cfg).unsupported ≡ [])
      × ((gnutls_argv_for_config passwd_file role caps cfg).unsupported ≡ [])
      × ((nss_argv_for_config caps cfg).unsupported ≡ [])
supported-translated caps cfg passwd_file role T S = (
  openssl_complete caps cfg T S,
  gnutls_complete caps cfg T S passwd_file role,
  nss_complete caps cfg T S,
)
