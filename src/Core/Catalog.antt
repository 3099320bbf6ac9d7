-- ===== src/Core/Catalog.antt =====
-- core/catalog.py: the capability file of a backend, and the union catalog of options.
-- A file's content is given by `read_capabilities`: what stands in
-- wrappers/<key>/capabilities.json, parsed.
use tls_interop_framework.Prelude.{
  Bool, List, Option, [], false, flat_map, if◌then◌else◌, is_empty, keep, leb, length, map, none,
  not, some, ◌&&◌, ◌++◌, ◌/◌, ◌==◌, ◌||◌, ◌∷◌,
}
use tls_interop_framework.Core.Features.{psk_key_bits_for_cipher}
use tls_interop_framework.Core.Tokens.{TlsMode, norm_catalog_token, tls12, tls13}
use tls_interop_framework.Python.Dict.{Dict, has_key, keys}
use tls_interop_framework.Python.Json.{
  Fields, Json, arr, fields_of, get, has, is_dict, is_false, items, nil, null, num, obj, or_json,
  py_str, text, truthy,
}
use tls_interop_framework.Python.Result.{
  Result, capabilities_invalid, capabilities_not_found, capabilities_not_object, err, ok, traverse,
  ◌>>=◌,
}
use tls_interop_framework.Python.Sorted.{sort, sort_set}
use tls_interop_framework.Python.Text.{Text, lit, lower, mem, strip, text_eq}

-- What the file system and `json.loads` make of a capability file.
pub data CapabilityFile : Type 0 where
  missing malformed : CapabilityFile
  parsed : Json → CapabilityFile

-- The keys of `RUNTIME_DEFAULTS`.
pub record Runtime : Type 0 where
  pub grpc_addr : Json
  pub tls_host : Json
  pub tls_port : Json
  pub unsupported_tls_fields : Json
  pub local_cli : Json

-- A set of TLS modes.
pub record ModeSet : Type 0 where
  pub has12 : Bool
  pub has13 : Bool

unfoldable pub capability_token_supported : Fields → Text → Bool
capability_token_supported block token =
    let key = norm_catalog_token token in
    let entry = if has key block then get key block else get token block in
    if is_false (get (lit "supported") block)
    then false
    else if is_false (get (lit "supported") (fields_of entry))
    then false
    else has key block || has token block

-- `{str(k): str(v) for k, v in raw.items() if v}`
text_entries : Dict Json → Dict Text
text_entries [] = []
text_entries ((k, v) ∷ d) =
    let rest = text_entries d in if truthy v then (k, py_str v) ∷ rest else rest

unfoldable pub cipher_suite_map_from_tls_block : Json → Dict Text
unfolding text_entries
cipher_suite_map_from_tls_block tls_block =
    text_entries (items (fields_of (get (lit "cipher_suite") (fields_of tls_block))))

-- A null entry leaves the default.
unfoldable pub with_default : Json → Json → Json
with_default null d = d
with_default v d = v

unfoldable pub runtime : Fields → Runtime
runtime raw =
    let r = fields_of (get (lit "runtime") raw) in
    record {
      grpc_addr = get (lit "grpc_addr") r;
      tls_host = with_default (get (lit "tls_host") r) (text (lit "127.0.0.1"));
      tls_port = with_default (get (lit "tls_port") r) (num 25551);
      unsupported_tls_fields = with_default (get (lit "unsupported_tls_fields") r) (arr nil);
      local_cli = with_default (get (lit "local_cli") r) (arr nil);
    }

-- The cipher map of a mode: one half of `cipher_maps`.
unfoldable pub cipher_map : Fields → TlsMode → Dict Text
cipher_map raw tls13 = cipher_suite_map_from_tls_block (get (lit "tls13") raw)
cipher_map raw tls12 = cipher_suite_map_from_tls_block (get (lit "tls12") raw)

unfoldable pub cipher_ids : Fields → Option TlsMode → List Text
cipher_ids raw none = sort_set (keys (cipher_map raw tls13) ++ keys (cipher_map raw tls12))
cipher_ids raw (some mode) = sort (keep (λ k. not (is_empty k)) (keys (cipher_map raw mode)))

unfoldable pub supports_cipher : Fields → Text → TlsMode → Bool
supports_cipher raw id mode =
    has_key (norm_catalog_token id) (cipher_map raw mode) || has_key id (cipher_map raw mode)

unfoldable pub cipher_modes : Fields → Text → ModeSet
cipher_modes raw id =
    let key = norm_catalog_token id in
    record {
      has12 = has_key key (cipher_map raw tls12) || has_key id (cipher_map raw tls12);
      has13 = has_key key (cipher_map raw tls13) || has_key id (cipher_map raw tls13);
    }

unfoldable pub supports_token : Fields → Text → Text → Option TlsMode → Bool
supports_token raw dimension token mode =
    if text_eq dimension (lit "cipher_suite")
    then elim mode [
      | none ↦ (cipher_modes raw token).has12 || (cipher_modes raw token).has13
      | some m ↦ supports_cipher raw token m
    ]
    else is_dict (get dimension raw)
      && capability_token_supported (fields_of (get dimension raw)) token

abbrev pub meta_keys : List Text
meta_keys = lit "supported" ∷ lit "wired" ∷ lit "description" ∷ []

-- An entry of a capability block that names a token the backend has.
unfoldable pub is_offered : Text × Json → Bool
is_offered e = not (mem e.0 meta_keys) && not (is_false (get (lit "supported") (fields_of e.1)))

unfoldable pub dimension_keys : Fields → Text → Option TlsMode → List Text
dimension_keys raw dimension mode =
    if text_eq dimension (lit "cipher_suite")
    then cipher_ids raw mode
    else let block = fields_of (get dimension raw) in
      if is_false (get (lit "supported") block)
      then []
      else sort (map (λ e. e.0) (keep is_offered (items block)))

unfoldable pub feature_entry : Fields → Text → Fields
feature_entry raw name = fields_of (get name (fields_of (get (lit "test_features") raw)))

unfoldable pub feature_ids : Fields → List Text
feature_ids raw = sort_set (
    keep (λ k. not (is_empty k))
      (map (λ e. lower (strip e.0))
        (keep (λ e. truthy (get (lit "supported") (fields_of e.1)))
          (items (fields_of (get (lit "test_features") raw))))))

unfoldable pub psk_secret_hex : Fields → Text → Option Text
psk_secret_hex raw id =
    let entry = feature_entry raw (lit "psk") in
    let bits = psk_key_bits_for_cipher id in
    let slot = if leb 256 bits then lit "secret_hex_256" else lit "secret_hex_128" in
    let secret =
      strip
        (py_str (or_json (or_json (get slot entry) (get (lit "secret_hex") entry)) (text []))) in
    if is_empty secret || not (length secret == bits / 4) then none else some secret

unfoldable pub psk_material : Fields → Text → Option (Text × Text)
psk_material raw id =
    let entry = feature_entry raw (lit "psk") in
    let identity = strip (py_str (or_json (get (lit "identity") entry) (text (lit "interop")))) in
    elim (psk_secret_hex raw id) [ none ↦ none | some secret ↦ some (identity, secret) ]

unfoldable pub capability_dimension_name : Text → Text
capability_dimension_name option_id =
    if text_eq (strip option_id) (lit "alpn") then lit "alpn_protocols" else strip option_id

object_of : Text → Json → Result Fields
object_of key (obj fs) = ok fs
object_of key _ = err (capabilities_not_object key)

module _ (read_capabilities : Text → CapabilityFile) where
  unfoldable pub load_backend_capabilities : Text → Result Fields
  unfolding object_of
  load_backend_capabilities name =
      let key = lower (strip name) in
      elim (read_capabilities key) [
        | missing ↦ err (capabilities_not_found key)
        | malformed ↦ err (capabilities_invalid key)
        | parsed data_value ↦ object_of key data_value
      ]

  -- The choices of each option, as `aggregate_union` returns them.
  unfoldable pub aggregate_union : List Text → Result (Dict (List Text))
  aggregate_union wrapper_ids = do
    caps ← traverse load_backend_capabilities wrapper_ids
    let union = λ (f : Fields → List Text). sort_set (flat_map f caps)
    ok (
        (lit "cipher_suite", union (λ c. cipher_ids c none))
        ∷ (lit "supported_groups", union (λ c. dimension_keys c (lit "supported_groups") none))
        ∷ (lit "signature_schemes", union (λ c. dimension_keys c (lit "signature_schemes") none))
        ∷ (lit "alpn", union (λ c. dimension_keys c (lit "alpn_protocols") none))
        ∷ (lit "test_features", union feature_ids)
        ∷ (lit "tls_version", lit "1.2" ∷ lit "1.3" ∷ [])
        ∷ [])
