-- ===== src/Wrappers/Servicer/Skip.antt =====
-- A configuration that a backend cannot apply: the servicer's answer, and how the driver reads it.
use tls_interop_framework.Prelude.{
  List, [], ap, arith, false, is_some, none, refl, some, sym, true, ℕ, ◌++◌, ◌∙◌, ◌∷◌, ◌≡◌,
}
use tls_interop_framework.Python.Result.{>>=-eq-ok, Result, ok}
use tls_interop_framework.Python.Text.{
  Text, is_space, lit, lower, lower_char, lstrip, rstrip, rstrip_onto, starts_with, strip,
}
use tls_interop_framework.Runner.Config.{Role, TlsConfig, client, establish, server, success}
use tls_interop_framework.Runner.Driver.{
  Driver, check_response, checked, is_skip, is_success, note, request, returned,
}
use tls_interop_framework.Runner.Params.{
  add_unseen, catalog_parameter_conflicts, unsupported_cli_params,
}
use tls_interop_framework.Wrappers.Process.{
  Attempt, Failure, Method, Servicer, change, fails, followed_by, gives, proc_of, set_proc,
  skip_error, terminate_process_hard, ◌>>=◌,
}
use tls_interop_framework.Wrappers.Servicer.{
  OpResult, Wrapper, check_translation, component_backend, config_of, refuse_unsupported,
  response_of, result, skip_message, translate_and_check, validate_config_supported,
}
use tls_interop_framework.Wrappers.Servicer.Frame.{Anything, Keeps-proc_of, anything}
use tls_interop_framework.Wrappers.Servicer.Keeping.{terminate-gives}
use tls_interop_framework.Wrappers.Servicer.Keeping.Handlers.{validate-IsKeeping}
use tls_interop_framework.Wrappers.Servicer.Requests.{
  answer_failure, dispatch_op, establish_role, execute_operation, handle_establish, note_repo_root,
  release_before_establish, respond,
}
use mathlib.Core.Path.{subst}

-- What a method does after a first one that gives a value.
pub followed_by-gives :
    {W A B : Type 0} (r : Attempt A × Servicer W) (a : A) (f : A → Method W B)
    → r.0 ≡ gives a
    → followed_by r f ≡ f a r.1
followed_by-gives (gives b, s) a f h = cc
followed_by-gives (fails e, s) a f h = absurd (ground arith)

followed_by-fails :
    {W A B : Type 0} (r : Attempt A × Servicer W) (e : Failure) (f : A → Method W B)
    → r.0 ≡ fails e
    → followed_by r f ≡ (fails e, r.1)
followed_by-fails (gives a, s) e f h = absurd (ground arith)
followed_by-fails (fails x, s) e f h = cc

rstrip-cons : (c : ℕ) (s : Text) → is_space c ≡ false → rstrip (c ∷ s) ≡ c ∷ rstrip s
unfolding rstrip rstrip_onto
rstrip-cons c s h = go (rstrip s)
  where
    go : (r : Text) → rstrip_onto c r ≡ c ∷ r
    go [] = rw h refl
    go (d ∷ r) = refl

-- The driver reads a message that starts with `SKIP: ` as a skip, whatever follows.
skip-prefix : (e : Text) → is_skip (strip (lit "SKIP: " ++ e)) ≡ true
unfolding is_skip strip lstrip is_space lit lower lower_char starts_with
skip-prefix e = rw (rstrip-cons 83 (75 ∷ 73 ∷ 80 ∷ 58 ∷ 32 ∷ e) refl) (
    rw (rstrip-cons 75 (73 ∷ 80 ∷ 58 ∷ 32 ∷ e) refl) (
      rw (rstrip-cons 73 (80 ∷ 58 ∷ 32 ∷ e) refl)
        (rw (rstrip-cons 80 (58 ∷ 32 ∷ e) refl) (rw (rstrip-cons 58 (32 ∷ e) refl) refl))))

check-skip :
    {W : Type 0} (r : OpResult) (label : Text) (d : Driver W)
    → r.status ≡ success
    → is_skip (strip r.message) ≡ true
    → ((check_response (response_of r) label d).0 ≡ returned false)
      × (is_some (check_response (response_of r) label d).1.last_skip_reason ≡ true)
unfolding check_response checked response_of is_success note
check-skip r label d ok_status skips = rw ok_status (rw skips (refl, refl))

module _ {W : Type 0} (E : Wrapper W) where
  proc_of-set_proc : (role : Role) (s : Servicer W) → proc_of role (set_proc role none s) ≡ none
  unfolding proc_of set_proc
  proc_of-set_proc server s = refl
  proc_of-set_proc client s = refl

  -- The release of a role's process gives a state that holds none for it.
  pub release-free :
      (role : Role) (s : Servicer W)
      → (t : Servicer W) × (release_before_establish E role s ≡ (gives tt, t))
        × (proc_of role t ≡ none)
  unfolding release_before_establish
  release-free role s =
      let r = terminate_process_hard E.os E.decode (proc_of role s) s in
      (
        set_proc role none r.1,
        followed_by-gives r tt (λ _. change (λ t. set_proc role none t))
            (terminate-gives E.os E.decode (proc_of role s) s),
        proc_of-set_proc role r.1,
      )

  module _ (role : Role) (config : TlsConfig) (translated : List Text) (p : Text) (ps : List Text)
      (translates : (w : W) → (E.backend.translate role config w).0 ≡ gives translated)
      (conflicts : catalog_parameter_conflicts E.read_capabilities config
          (component_backend E)
          translated
        ≡ ok (p ∷ ps)) where
    abbrev skip : Failure
    skip = skip_error (skip_message (component_backend E) (p ∷ ps))

    translated-skip :
        (t : Servicer W) → (check_translation E config (gives translated) t) ≡ (fails skip, t)
    unfolding check_translation refuse_unsupported
    translated-skip t = ap (λ found. refuse_unsupported E found t) conflicts

    params-skip :
        (params : Result (List Text)) (t : Servicer W)
        → (qs : List Text) × (params ≡ ok qs)
        → (translate_and_check E config role params t).0 ≡ fails skip
    unfolding translate_and_check
    params-skip params t (qs, h) =
        subst (λ x. (translate_and_check E config role x t).0 ≡ fails skip) (sym h)
          (ap (λ a. (check_translation E config a (after t)).0) (translates t.world)
            ∙ ap (λ x. x.0) (translated-skip (after t)))
      where
        after : Servicer W → Servicer W
        after t = record t { world = (E.backend.translate role config t.world).1 }

    validate-skip : (t : Servicer W) → (validate_config_supported E config role t).0 ≡ fails skip
    unfolding validate_config_supported catalog_parameter_conflicts
    validate-skip t =
        let (qs, h, e) =
          >>=-eq-ok (unsupported_cli_params E.read_capabilities config (component_backend E))
            (λ params. ok (add_unseen (add_unseen [] params) translated)) conflicts in
        params-skip (unsupported_cli_params E.read_capabilities config (component_backend E)) t
          (qs, h)

    establish-skip :
        (s : Servicer W)
        → (u : Servicer W) × (handle_establish E role config s ≡ (fails skip, u))
          × (proc_of role u ≡ none)
    unfolding handle_establish
    establish-skip s =
        let (t, h, free) = release-free role s in
        let v = validate_config_supported E config role t in
        (
          v.1,
          ap
                (λ r. followed_by r (λ _. validate_config_supported E config role >>= λ _.
                  change (note_repo_root E config) >>= λ _. establish_role E role config))
                h
              ∙ followed_by-fails v skip
                  (λ _. change (note_repo_root E config) >>= λ _. establish_role E role config)
                  (validate-skip t),
          Keeps-proc_of role t v.1 (validate-IsKeeping E Anything (anything E) config role t)
              ∙ free,
        )

    -- An ESTABLISH of a configuration with parameters that the backend cannot apply, which its
    -- translation reports or its capabilities declare unsupported: the servicer starts nothing, as
    -- it holds no process for the role afterwards, and the driver that reads its answer stops the
    -- test and counts the cell as skipped.
    pub unsupported-skip :
        (payload : List ℕ) (s : Servicer W) (label : Text) {V : Type 0} (d : Driver V)
        → let answer = execute_operation E (request establish role (some config) payload) s in
          (proc_of role answer.1 ≡ none)
          × ((check_response (response_of answer.0) label d).0 ≡ returned false)
          × (is_some (check_response (response_of answer.0) label d).1.last_skip_reason ≡ true)
    unfolding execute_operation dispatch_op request config_of respond answer_failure result
    unsupported-skip payload s label d =
        let (u, h, free) = establish-skip s in
        let checks =
          check-skip
            (result success (lit "SKIP: " ++ skip_message (component_backend E) (p ∷ ps)) [] none)
            label d refl (skip-prefix (skip_message (component_backend E) (p ∷ ps))) in
        rw h (free, checks.0, checks.1)
