-- ===== src/Tests/Translations.antt =====
-- A translation, and a wait for a port.
use tls_interop_framework.Prelude.{
  Bool, [], arith, false, inr, is_some, none, refl, some, sym, true, ℕ, ◌+◌, ◌∷◌, ◌≡◌,
}
use tls_interop_framework.Core.Catalog.{
  capability_dimension_name, capability_token_supported, cipher_map, cipher_modes,
  cipher_suite_map_from_tls_block, meta_keys, psk_material, supports_cipher, supports_token,
}
use tls_interop_framework.Core.Tokens.{
  fold_version, norm_catalog_token, stripped, tls_mode_from_version,
}
use tls_interop_framework.Core.Validation.Sound.{IsOffered}
use tls_interop_framework.Python.Dict.{has_key}
use tls_interop_framework.Python.Json.{
  Fields, decimal, digits, end, field, fields_of, get, has, is_dict, is_false, items, obj, py_str,
  repr_text, text, truthy,
}
use tls_interop_framework.Python.Text.{
  Text, contains, has_char, is_space, join, lit, lower, lower_char, lstrip, mem, remove_char,
  rstrip, rstrip_onto, starts_with, strip, text_eq,
}
use tls_interop_framework.Runner.Config.{TlsConfig, server}
use tls_interop_framework.Runner.Config.Supported.{IsSupported}
use tls_interop_framework.Runner.Driver.{test_feature_enabled_in_config}
use tls_interop_framework.Tests.Data.{small_config}
use tls_interop_framework.Wrappers.Connect.{
  Ends, IsSteady, Network, wait_tcp_connect, wait_tcp_connect-Ends,
}
use tls_interop_framework.Wrappers.Translation.{mode_of, raw_cipher}
use tls_interop_framework.Wrappers.Translation.Complete.{IsFilled, IsTranslatable}
use tls_interop_framework.Wrappers.Translation.Complete.Backends.{supported-translated}
use tls_interop_framework.Wrappers.Translation.Gnutls.{gnutls_argv_for_config}
use tls_interop_framework.Wrappers.Translation.Nss.{nss_argv_for_config}
use tls_interop_framework.Wrappers.Translation.Openssl.{openssl_argv_for_config, wants_psk}
use mathlib.Core.Path.{subst}

abbrev tool_capabilities : Fields
tool_capabilities =
    field (lit "tls13")
      (obj
        (field (lit "cipher_suite") (obj (field (lit "aes-128-gcm") (text (lit "AES")) end)) end))
      (field (lit "supported_groups") (obj (field (lit "x25519") (text (lit "X25519")) end)) (
        field (lit "signature_schemes") (obj (field (lit "ed25519") (text (lit "ed25519")) end))
          end))

abbrev asked : TlsConfig
asked = record small_config {
  version = lit "1.3";
  cipher_suite = lit "aes-128-gcm";
  supported_groups = lit "x25519" ∷ [];
  signature_schemes = lit "ed25519" ∷ [];
  alpn_protocols = [];
  psk_modes = [];
}

cipher_stripped : strip asked.cipher_suite ≡ asked.cipher_suite
unfolding strip lit rstrip lstrip is_space
cipher_stripped = refl

cipher_normal : norm_catalog_token asked.cipher_suite ≡ asked.cipher_suite
unfolding norm_catalog_token lit remove_char lower strip rstrip lstrip is_space lower_char
cipher_normal = refl

group_stripped : strip (lit "x25519") ≡ lit "x25519"
unfolding lit strip rstrip lstrip is_space
group_stripped = refl

group_normal : norm_catalog_token (lit "x25519") ≡ lit "x25519"
unfolding lit norm_catalog_token remove_char lower strip rstrip lstrip is_space lower_char
group_normal = refl

group_ordinary : mem (lit "x25519") meta_keys ≡ false
unfolding lit mem text_eq
group_ordinary = refl

scheme_stripped : strip (lit "ed25519") ≡ lit "ed25519"
unfolding lit strip rstrip lstrip is_space
scheme_stripped = refl

scheme_normal : norm_catalog_token (lit "ed25519") ≡ lit "ed25519"
unfolding lit norm_catalog_token remove_char lower strip rstrip lstrip is_space lower_char
scheme_normal = refl

scheme_ordinary : mem (lit "ed25519") meta_keys ≡ false
unfolding lit mem text_eq
scheme_ordinary = refl

no_psk : wants_psk asked (raw_cipher asked) ≡ false
unfolding raw_cipher wants_psk strip rstrip lstrip lit is_space test_feature_enabled_in_config mem
    stripped
no_psk = refl

cipher_supported : supports_cipher tool_capabilities asked.cipher_suite (mode_of asked) ≡ true
unfolding supports_cipher has_key cipher_map tls_mode_from_version strip rstrip lstrip lit is_space
    contains fold_version remove_char norm_catalog_token lower lower_char starts_with
    cipher_suite_map_from_tls_block decimal digits fields_of get items py_str repr_text truthy
    has_char join rstrip_onto text_eq
cipher_supported = refl

group-IsOffered :
    IsOffered tool_capabilities (mode_of asked) (lit "supported_groups") (lit "x25519")
unfolding lit supports_token text_eq capability_dimension_name strip rstrip lstrip is_space is_dict
    get capability_token_supported is_false fields_of has norm_catalog_token remove_char lower
    cipher_map cipher_modes cipher_suite_map_from_tls_block supports_cipher has_key decimal digits
    items py_str repr_text truthy has_char join lower_char rstrip_onto
group-IsOffered = refl

scheme-IsOffered :
    IsOffered tool_capabilities (mode_of asked) (lit "signature_schemes") (lit "ed25519")
unfolding lit supports_token text_eq capability_dimension_name strip rstrip lstrip is_space is_dict
    get capability_token_supported is_false fields_of has norm_catalog_token remove_char lower
    cipher_map cipher_modes cipher_suite_map_from_tls_block supports_cipher has_key decimal digits
    items py_str repr_text truthy has_char join lower_char rstrip_onto
scheme-IsOffered = refl

-- A block with one entry has a value for it.
single_filled :
    (k v t : Text)
    → truthy (text v) ≡ true
    → has t (field k (text v) end) ≡ true
    → truthy (get t (field k (text v) end)) ≡ true
unfolding has get truthy
single_filled k v t full h = ground arith

group_block :
    fields_of (get (lit "supported_groups") tool_capabilities)
    ≡ field (lit "x25519") (text (lit "X25519")) end
unfolding fields_of get lit text_eq
group_block = refl

scheme_block :
    fields_of (get (lit "signature_schemes") tool_capabilities)
    ≡ field (lit "ed25519") (text (lit "ed25519")) end
unfolding fields_of get lit text_eq
scheme_block = refl

group_value : truthy (text (lit "X25519")) ≡ true
unfolding lit truthy
group_value = refl

scheme_value : truthy (text (lit "ed25519")) ≡ true
unfolding lit truthy
scheme_value = refl

groups-IsFilled : IsFilled tool_capabilities (lit "supported_groups")
groups-IsFilled t m h =
    subst (λ b. truthy (get t b) ≡ true) (sym group_block)
      (single_filled (lit "x25519") (lit "X25519") t group_value
        (subst (λ b. has t b ≡ true) group_block h))

schemes-IsFilled : IsFilled tool_capabilities (lit "signature_schemes")
schemes-IsFilled t m h =
    subst (λ b. truthy (get t b) ≡ true) (sym scheme_block)
      (single_filled (lit "ed25519") (lit "ed25519") t scheme_value
        (subst (λ b. has t b ≡ true) scheme_block h))

unasked : (b c : Bool) → b ≡ false → b ≡ true → c ≡ true
unasked b c h k = absurd (ground arith)

asked-IsTranslatable : IsTranslatable tool_capabilities asked
asked-IsTranslatable = record {
  cipher_stripped = cipher_stripped;
  cipher_normal = cipher_normal;
  groups = (
    record { stripped_form = group_stripped; normal = group_normal; ordinary = group_ordinary },
    tt,
  );
  schemes = (
    record { stripped_form = scheme_stripped; normal = scheme_normal; ordinary = scheme_ordinary },
    tt,
  );
  groups_filled = groups-IsFilled;
  schemes_filled = schemes-IsFilled;
  secret =
      unasked (wants_psk asked (raw_cipher asked))
        (is_some (psk_material tool_capabilities (raw_cipher asked))) no_psk;
}

asked-IsSupported : IsSupported tool_capabilities (mode_of asked) asked
asked-IsSupported = record {
  cipher = inr cipher_supported;
  groups = (group-IsOffered, tt);
  schemes = (scheme-IsOffered, tt);
  protocols = tt;
}

supported-translated_example :
    ((openssl_argv_for_config tool_capabilities asked).unsupported ≡ [])
    × ((gnutls_argv_for_config (lit "/tmp/psk") server tool_capabilities asked).unsupported ≡ [])
    × ((nss_argv_for_config tool_capabilities asked).unsupported ≡ [])
supported-translated_example =
    supported-translated tool_capabilities asked (lit "/tmp/psk") server asked-IsTranslatable
      asked-IsSupported

-- A network that never answers, whose world is its clock.
abbrev silent : Network ℕ
silent = record {
  now = λ w. w;
  sleep = λ ms w. w + ms;
  create_connection = λ w. (some (lit "refused"), w);
  poll = λ w. (none, w);
}

silent-IsSteady : IsSteady silent
silent-IsSteady = record {
  slept = λ ms w. omega arith;
  connected = λ w. omega arith;
  polled = λ w. omega arith;
}

wait_tcp_connect-Ends_example : Ends silent silent-IsSteady (wait_tcp_connect silent true 120 7)
wait_tcp_connect-Ends_example = wait_tcp_connect-Ends silent silent-IsSteady true 120 7
