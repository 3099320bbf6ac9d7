-- ===== src/Wrappers/Translation.antt =====
-- The parts that the wrappers' `tls_argv_for_config` share, with `TranslationResult` of
-- core/catalog.py.
pub mod Openssl
pub mod Nss
pub mod Gnutls
pub mod Complete
use tls_interop_framework.Prelude.{List, Option, [], if◌then◌else◌, is_empty, not, ◌++◌, ◌||◌, ◌∷◌}
use tls_interop_framework.Core.Catalog.{cipher_map}
use tls_interop_framework.Core.Tokens.{TlsMode, norm_catalog_token, stripped, tls_mode_from_version}
use tls_interop_framework.Python.Dict.{lookup}
use tls_interop_framework.Python.Json.{
  Fields, Json, fields_of, get, is_dict, or_json, py_str, repr_text, truthy,
}
use tls_interop_framework.Python.Text.{Text, join, strip}
use tls_interop_framework.Runner.Config.{TlsConfig}

pub record Translation : Type 0 where
  pub argv : List Text
  pub unsupported : List Text

abbrev pub nothing : Translation
nothing = record { argv = []; unsupported = [] }

-- A part that is translated, and a part that is not.
abbrev pub given : List Text → Translation
given argv = record { argv = argv; unsupported = [] }

abbrev pub refused : Text → Translation
refused what = record { argv = []; unsupported = what ∷ [] }

-- The arguments of one part and then of the other.
infixl 20 ◌⊕◌
unfoldable pub ◌⊕◌ : Translation → Translation → Translation
a ⊕ b = record { argv = a.argv ++ b.argv; unsupported = a.unsupported ++ b.unsupported }

-- `tls_mode_12_or_13` of a configuration.
abbrev pub mode_of : TlsConfig → TlsMode
mode_of config = tls_mode_from_version config.version

unfoldable pub raw_cipher : TlsConfig → Text
raw_cipher config = strip config.cipher_suite

-- `block.get(norm_catalog_token(it)) or block.get(it)`
unfoldable pub mapped_value : Fields → Text → Json
mapped_value block it = or_json (get (norm_catalog_token it) block) (get it block)

-- The loop over the tokens of a field: the texts they map to, and those that map to nothing.
unfoldable pub mapped_tokens : Text → Text → Fields → List Text → Translation
mapped_tokens name remark block [] = nothing
mapped_tokens name remark block (it ∷ its) =
    let rest = mapped_tokens name remark block its in
    if truthy (mapped_value block it)
    then record rest { argv = py_str (mapped_value block it) ∷ rest.argv }
    else record rest {
      unsupported = (name ++ (b':' ∷ (repr_text it ++ remark))) ∷ rest.unsupported;
    }

unfoldable pub joined_argv : Text → Text → Translation → Translation
joined_argv opt sep t =
    if is_empty t.argv then t else record t { argv = opt ∷ join sep t.argv ∷ [] }

-- One argument for all tokens of a field, where the backend has a block for it.
unfoldable pub mapped_argv : Text → Text → Fields → Text → Text → List Text → Translation
mapped_argv remark sep caps name opt raw =
    let its = stripped raw in
    if is_empty its || not (is_dict (get name caps))
    then nothing
    else joined_argv opt sep (mapped_tokens name remark (fields_of (get name caps)) its)

-- A cipher whose id the backend maps in the mode.
unfoldable pub cipher_value : Fields → TlsMode → Text → Option Text
cipher_value caps mode raw = lookup (norm_catalog_token raw) (cipher_map caps mode)
