-- ===== src/Runner/Params/Conflicts.antt =====
-- Which parameters are reported, and that none is reported twice.
use tls_interop_framework.Prelude.{
  Bool-cases, List, [], ap, arith, inl, inr, is_empty, keep, not, refl, sym, ◌&&◌, ◌++◌, ◌||◌, ◌∙◌,
  ◌∷◌, ◌≡◌,
}
use tls_interop_framework.Core.Catalog.{CapabilityFile, load_backend_capabilities}
use tls_interop_framework.Core.Validation.{unsupported_fields}
use tls_interop_framework.Python.Json.{Fields}
use tls_interop_framework.Python.Result.{ok, ok-injective}
use tls_interop_framework.Python.Sorted.Laws.{mem-append, mem-cons, mem-keep, mem-nil}
use tls_interop_framework.Python.Text.{Text, lower, mem, strip, text_eq, text_eq_iff}
use tls_interop_framework.Runner.Config.{TlsConfig}
use tls_interop_framework.Runner.Params.{
  add_unseen, catalog_parameter_conflicts, config_has_value, unsupported_cli_params,
}

mem-add_unseen :
    (x : Text) (output rest : List Text)
    → mem x (add_unseen output rest) ≡ (mem x output || mem x rest)
unfolding add_unseen
mem-add_unseen x output [] = ground (arith, mem-nil x)
mem-add_unseen x output (item ∷ rest) = elim (Bool-cases (mem item output)) [
  | inl seen ↦ elim (Bool-cases (text_eq x item)) [
    | inl same ↦
        let e = (text_eq_iff x item).0 same in
        rw (seen, add_unseen)
          (mem-add_unseen x output rest
            ∙ ground (arith, mem-cons x item rest, ap (λ t. mem t output) e))
    | inr differ ↦
        rw (seen, add_unseen) (mem-add_unseen x output rest ∙ ground (arith, mem-cons x item rest))
  ]
  | inr unseen ↦
      rw (unseen, add_unseen)
        (mem-add_unseen x (output ++ item ∷ []) rest
          ∙ ground (
            arith,
            mem-append x output (item ∷ []),
            mem-cons x item rest,
            mem-cons x item [],
            mem-nil x,
          ))
]

module _ (read_capabilities : Text → CapabilityFile) where
  -- Where the backend's capabilities load, the reported conflicts are exactly the parameters that the
  -- translation of the configuration reports and those that the backend declares unsupported, that are
  -- not blank, and that the configuration sets.
  pub mem-catalog_parameter_conflicts :
      (config : TlsConfig) (backend : Text) (translated : List Text) (caps : Fields)
      (names : List Text) (x : Text)
      → load_backend_capabilities read_capabilities (lower (strip backend)) ≡ ok caps
      → catalog_parameter_conflicts read_capabilities config backend translated ≡ ok names
      → mem x names ≡ (
          (mem x (unsupported_fields caps) && (not (is_empty x) && config_has_value config x))
          || mem x translated)
  unfolding catalog_parameter_conflicts unsupported_cli_params
  mem-catalog_parameter_conflicts config backend translated caps names x loaded h =
      let set_names =
        keep (λ name. not (is_empty name) && config_has_value config name)
          (unsupported_fields caps) in
      let same : names ≡ add_unseen (add_unseen [] set_names) translated =
        ok-injective (sym h ∙ rw loaded refl) in
      ap (mem x) same
      ∙ mem-add_unseen x (add_unseen [] set_names) translated
      ∙ ap (λ b. b || mem x translated)
          (mem-add_unseen x [] set_names
            ∙ ground (
              arith,
              mem-nil x,
              mem-keep x (λ name. not (is_empty name) && config_has_value config name)
                  (unsupported_fields caps),
            ))
