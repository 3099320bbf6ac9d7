-- ===== src/Tests/Params.antt =====
-- A backend that cannot apply `expect_hrr`.
use tls_interop_framework.Prelude.{List, [], is_empty, not, refl, ◌&&◌, ◌||◌, ◌∷◌, ◌≡◌}
use tls_interop_framework.Core.Catalog.{
  CapabilityFile, load_backend_capabilities, parsed, runtime, with_default,
}
use tls_interop_framework.Core.Suite.{int_eq}
use tls_interop_framework.Core.Validation.{unsupported_fields}
use tls_interop_framework.Python.Dict.{lookup}
use tls_interop_framework.Python.Json.{
  Fields, arr, cons, decimal, digits, elements, elements_of, end, field, fields_of, get, nil, obj,
  py_str, repr_text, text,
}
use tls_interop_framework.Python.Result.{ok}
use tls_interop_framework.Python.Text.{
  Text, has_char, is_space, join, lit, lower, lower_char, lstrip, mem, rstrip, rstrip_onto, strip,
  text_eq,
}
use tls_interop_framework.Runner.Params.{
  add_unseen, catalog_parameter_conflicts, config_has_value, field_table, is_byte_space,
  iterable_field_has_value, unsupported_cli_params, value_is_set,
}
use tls_interop_framework.Runner.Params.Conflicts.{mem-catalog_parameter_conflicts}
use tls_interop_framework.Tests.Data.{small_config}

abbrev strict_capabilities : Fields
strict_capabilities =
    field (lit "runtime")
      (obj (field (lit "unsupported_tls_fields") (arr (cons (text (lit "expect_hrr")) nil)) end))
      end

abbrev pub strict_files : Text → CapabilityFile
strict_files name = parsed (obj strict_capabilities)

abbrev pub reported : List Text
reported = lit "expect_hrr" ∷ lit "alpn" ∷ []

strict_loads :
    load_backend_capabilities strict_files (lower (strip (lit "nss"))) ≡ ok strict_capabilities
unfolding lit load_backend_capabilities lower strip
strict_loads = refl

pub strict_reports :
    catalog_parameter_conflicts strict_files small_config (lit "nss") (lit "alpn" ∷ [])
    ≡ ok reported
unfolding catalog_parameter_conflicts lit unsupported_cli_params load_backend_capabilities
    add_unseen mem unsupported_fields elements_of runtime with_default get fields_of text_eq
    elements strip rstrip lstrip int_eq lookup decimal digits py_str repr_text has_char is_space
    join lower lower_char rstrip_onto config_has_value field_table is_byte_space
    iterable_field_has_value value_is_set
strict_reports = refl

mem-catalog_parameter_conflicts_example : mem (lit "expect_hrr") reported ≡ (
    (mem (lit "expect_hrr") (unsupported_fields strict_capabilities)
      && (not (is_empty (lit "expect_hrr")) && config_has_value small_config (lit "expect_hrr")))
    || mem (lit "expect_hrr") (lit "alpn" ∷ []))
mem-catalog_parameter_conflicts_example =
    mem-catalog_parameter_conflicts strict_files small_config (lit "nss") (lit "alpn" ∷ [])
      strict_capabilities reported (lit "expect_hrr") strict_loads strict_reports
