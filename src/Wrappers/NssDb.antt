-- ===== src/Wrappers/NssDb.antt =====
-- wrappers/nss/nss_db.py: the nicknames of the identities in the certificate database of NSS, and
-- the identities that are imported into it. The tools that import them are left out.
use tls_interop_framework.Prelude.{
  Bool, List, Option, [], if◌then◌else◌, is_empty, none, some, ◌++◌, ◌||◌, ◌∷◌,
}
use tls_interop_framework.Core.Features.{cipher_catalog_id_uses_dsa_auth}
use tls_interop_framework.Core.Identity.{
  catalog_identity_pem_paths_for_prefix, default_prefix, identity_prefixes,
}
use tls_interop_framework.Python.Text.{Text, lit, mem, or_text, strip}
use tls_interop_framework.Runner.Config.{TlsConfig}
use tls_interop_framework.Wrappers.Certs.{get_cert_prefix_for_config}
use tls_interop_framework.Wrappers.Process.{Attempt, fails, gives, runtime_error}

unfoldable pub nss_nickname_for_prefix : Text → Text
nss_nickname_for_prefix prefix = lit "interop_" ++ or_text (strip prefix) default_prefix

abbrev pub skipped_prefixes : List Text
skipped_prefixes = lit "ed25519" ∷ lit "ed448" ∷ []

-- A nickname with its certificate and its key.
abbrev pub Identity : Type 0
Identity = Text × Text × Text

unfoldable pub import_row : (Text → Bool) → Text → Option Identity
import_row is_file prefix =
    let paths = catalog_identity_pem_paths_for_prefix is_file prefix in
    if mem prefix skipped_prefixes || is_empty paths.0 || is_empty paths.1
    then none
    else some (nss_nickname_for_prefix prefix, paths.0, paths.1)

add_row : Option Identity → List Identity → List Identity
add_row none rows = rows
add_row (some row) rows = row ∷ rows

unfoldable pub import_rows : (Text → Bool) → List Text → List Identity
unfolding add_row
import_rows is_file [] = []
import_rows is_file (prefix ∷ prefixes) =
    add_row (import_row is_file prefix) (import_rows is_file prefixes)

-- `nss_interop_identity_import_rows`
unfoldable pub nss_interop_identity_import_rows : (Text → Bool) → List Identity
nss_interop_identity_import_rows is_file = import_rows is_file identity_prefixes

unfoldable pub nss_server_nickname_for_config : (Text → Bool) → TlsConfig → Attempt Text
nss_server_nickname_for_config is_file config =
    if cipher_catalog_id_uses_dsa_auth (strip config.cipher_suite)
    then if is_empty (catalog_identity_pem_paths_for_prefix is_file (lit "dsa_default")).0
      then fails (
          runtime_error
            (lit "No identity PEM for this test (use certs/ from core/gen_interop_certs.sh)"))
      else gives (nss_nickname_for_prefix (lit "dsa_default"))
    else gives (nss_nickname_for_prefix (get_cert_prefix_for_config config))
