-- ===== src/Wrappers/Servicer/Tracked/Establish.antt =====
-- An ESTABLISH loses no process.
use tls_interop_framework.Prelude.{
  ==_iff, List, Option, [], ap, arith, inl, inr, none, refl, some, sym, true, ℕ, ◌++◌, ◌∙◌, ◌∷◌,
  ◌≡◌, ◌⊎◌,
}
use tls_interop_framework.Python.Text.{Text, has_char, mem}
use tls_interop_framework.Runner.Config.{Role, TlsConfig, client, server}
use tls_interop_framework.Wrappers.Process.{
  Attempt, Method, Servicer, change, fails, followed_by, gives, proc_of, remember_role_cli,
  set_proc, terminate_process_hard, ◌>>=◌,
}
use tls_interop_framework.Wrappers.Servicer.{
  OpResult, Wrapper, adopt, hold, hold_state, start, validate_config_supported,
}
use tls_interop_framework.Wrappers.Servicer.Client.{client_launched, establish_client}
use tls_interop_framework.Wrappers.Servicer.Keeping.{
  IsKeeping, Keeps, Keeps-refl, terminate-gives, terminate_process_hard-IsKeeping,
}
use tls_interop_framework.Wrappers.Servicer.Keeping.Handlers.{validate-IsKeeping}
use tls_interop_framework.Wrappers.Servicer.Keeping.Requests.{
  client_launched-IsKeeping, server_launched-IsKeeping,
}
use tls_interop_framework.Wrappers.Servicer.Ledger.{
  Grows, Logged, after_start, logged, logged_backend, process_of, saw_launch,
}
use tls_interop_framework.Wrappers.Servicer.Requests.{
  establish_role, handle_establish, note_repo_root, release_before_establish,
}
use tls_interop_framework.Wrappers.Servicer.Server.{establish_server, server_launched}
use tls_interop_framework.Wrappers.Servicer.Tracked.{
  HasEnded, IsTracked, Keeps-IsTracked, grows, ledger_of, los, terminate-HasEnded,
}
use mathlib.Core.Path.{subst}

mem-append :
    (f : Text) (xs ys : List Text) → mem f (xs ++ ys) ≡ true → (mem f xs ≡ true) ⊎ (mem f ys ≡ true)
unfolding mem
mem-append f [] ys h = inr h
mem-append f (x ∷ xs) ys h = ground (arith, mem-append f xs ys)

mem-append_left : (f : Text) (xs ys : List Text) → mem f xs ≡ true → mem f (xs ++ ys) ≡ true
unfolding mem
mem-append_left f [] ys h = absurd (ground arith)
mem-append_left f (x ∷ xs) ys h = ground (arith, mem-append_left f xs ys)

mem-append_right : (f : Text) (xs ys : List Text) → mem f ys ≡ true → mem f (xs ++ ys) ≡ true
unfolding mem
mem-append_right f [] ys h = h
mem-append_right f (x ∷ xs) ys h = ground (arith, mem-append_right f xs ys h)

launched_cons :
    (p q : ℕ) (ps : List ℕ) → has_char p (q ∷ ps) ≡ true → (p ≡ q) ⊎ (has_char p ps ≡ true)
unfolding has_char
launched_cons p q ps h = ground (arith, ==_iff p q)

-- Where a role holds none, what holds a process is not it.
not_none : (o : Option ℕ) (p : ℕ) → o ≡ none → o ≡ some p → ⊥
not_none o p e x = cc

module _ {W : Type 0} where
  -- What holds after a chain of two methods.
  pub followed_by-Holds :
      {A B : Type 0} (P Q : Servicer W → Type 0) (r : Attempt A × Servicer W) (f : A → Method W B)
      → P r.1
      → ((t : Servicer W) → P t → Q t)
      → ((a : A) (t : Servicer W) → P t → Q (f a t).1)
      → Q (followed_by r f).1
  followed_by-Holds P Q (gives a, t) f p stay go = go a t p
  followed_by-Holds P Q (fails e, t) f p stay go = stay t p

  -- Every process and file is tracked, and none is held for a role.
  pub record IsFree (role : Role) (s : Servicer (Logged W)) : Type 0 where
    pub tracked : IsTracked s
    pub free : proc_of role s ≡ none

  Keeps-proc :
      (role : Role) (s t : Servicer (Logged W)) → Keeps Grows s t → proc_of role t ≡ proc_of role s
  unfolding proc_of
  Keeps-proc server s t K = K.server
  Keeps-proc client s t K = K.client

  Keeps-IsFree :
      (role : Role) (s t : Servicer (Logged W)) → Keeps Grows s t → IsFree role s → IsFree role t
  Keeps-IsFree role s t K F = record {
    tracked = Keeps-IsTracked s t K F.tracked;
    free = Keeps-proc role s t K ∙ F.free;
  }

  -- A process that has ended need not be held any more.
  dropped-IsFree :
      (role : Role) (s : Servicer (Logged W))
      → IsTracked s
      → HasEnded (proc_of role s) s
      → IsFree role (set_proc role none s)
  unfolding proc_of set_proc
  dropped-IsFree server s T e = record {
    tracked = record {
      processes = λ p h. elim (T.processes p h) [
        | inl x ↦ inl x
        | inr (inl x) ↦ inl (subst (λ o. HasEnded o s) x e)
        | inr (inr x) ↦ inr (inr x)
      ];
      files = T.files;
    };
    free = refl;
  }
  dropped-IsFree client s T e = record {
    tracked = record {
      processes = λ p h. elim (T.processes p h) [
        | inl x ↦ inl x
        | inr (inl x) ↦ inr (inl x)
        | inr (inr x) ↦ inl (subst (λ o. HasEnded o s) x e)
      ];
      files = T.files;
    };
    free = refl;
  }

  note_repo_root-Keeps :
      (E : Wrapper (Logged W)) (config : TlsConfig) (s : Servicer (Logged W))
      → Keeps Grows s s
      → Keeps Grows s (note_repo_root E config s)
  unfolding note_repo_root
  note_repo_root-Keeps E config s k = record {
    server = refl;
    client = refl;
    files = refl;
    world = k.world;
  }

  -- The state after a launch whose process is held.
  abbrev started :
      List Text → Attempt (Option ℕ × Text × Text) → W → Servicer (Logged W) → Servicer (Logged W)
  started fs o w s = record s {
    world = (w, saw_launch (record { tracked_files = fs; outcome = o }) s.world.1);
    active_temp_files = fs ++ s.active_temp_files;
  }

  files_of :
      (fs : List Text) (o : Attempt (Option ℕ × Text × Text)) (w : W) (s : Servicer (Logged W))
      (f : Text)
      → IsTracked s
      → mem f (ledger_of (started fs o w s)).tracked_files ≡ true
      → (mem f (ledger_of (started fs o w s)).removed ≡ true)
        ⊎ (mem f (fs ++ s.active_temp_files) ≡ true)
  unfolding saw_launch
  files_of fs o w s f T h = elim (mem-append f fs (ledger_of s).tracked_files h) [
    | inl x ↦ inr (mem-append_left f fs s.active_temp_files x)
    | inr x ↦ elim (T.files f x) [
      | inl y ↦ inl y
      | inr y ↦ inr (mem-append_right f fs s.active_temp_files y)
    ]
  ]

  -- A start that gives no process.
  unheld-IsTracked :
      (fs : List Text) (o : Attempt (Option ℕ × Text × Text)) (w : W) (s : Servicer (Logged W))
      → process_of o ≡ []
      → IsTracked s
      → IsTracked (started fs o w s)
  unfolding saw_launch
  unheld-IsTracked fs o w s none_started T = record {
    processes = λ p h.
        T.processes p
          (subst (λ ps. has_char p (ps ++ (ledger_of s).launched) ≡ true) none_started h);
    files = λ f h. files_of fs o w s f T h;
  }

  -- A process that is started, held for a role that held none.
  held-IsTracked :
      (role : Role) (fs : List Text) (l : Option ℕ × Text × Text) (w : W) (s : Servicer (Logged W))
      → IsFree role s
      → IsTracked (hold_state role l (started fs (gives l) w s))
  unfolding hold_state remember_role_cli set_proc saw_launch process_of proc_of
  held-IsTracked server fs (some q, cmd, message) w s F = record {
    processes = λ p h. elim (launched_cons p q (ledger_of s).launched h) [
      | inl e ↦ inr (inl (ap some (sym e)))
      | inr x ↦ elim (F.tracked.processes p x) [
        | inl y ↦ inl y
        | inr (inl y) ↦ absurd (not_none s.server_proc p F.free y)
        | inr (inr y) ↦ inr (inr y)
      ]
    ];
    files = λ f h. files_of fs (gives (some q, cmd, message)) w s f F.tracked h;
  }
  held-IsTracked client fs (some q, cmd, message) w s F = record {
    processes = λ p h. elim (launched_cons p q (ledger_of s).launched h) [
      | inl e ↦ inr (inr (ap some (sym e)))
      | inr x ↦ elim (F.tracked.processes p x) [
        | inl y ↦ inl y
        | inr (inl y) ↦ inr (inl y)
        | inr (inr y) ↦ absurd (not_none s.client_proc p F.free y)
      ]
    ];
    files = λ f h. files_of fs (gives (some q, cmd, message)) w s f F.tracked h;
  }
  held-IsTracked server fs (none, cmd, message) w s F = record {
    processes = λ p h. elim (F.tracked.processes p h) [
      | inl y ↦ inl y
      | inr (inl y) ↦ absurd (not_none s.server_proc p F.free y)
      | inr (inr y) ↦ inr (inr y)
    ];
    files = λ f h. files_of fs (gives (none, cmd, message)) w s f F.tracked h;
  }
  held-IsTracked client fs (none, cmd, message) w s F = record {
    processes = λ p h. elim (F.tracked.processes p h) [
      | inl y ↦ inl y
      | inr (inl y) ↦ inr (inl y)
      | inr (inr y) ↦ absurd (not_none s.client_proc p F.free y)
    ];
    files = λ f h. files_of fs (gives (none, cmd, message)) w s f F.tracked h;
  }

module _ {W : Type 0} (E : Wrapper W) where
  -- The start of a process, what holds it, and what follows.
  launch-IsTracked :
      (role : Role) (config : TlsConfig) (k : Option ℕ × Text × Text → Method (Logged W) OpResult)
      → ((l : Option ℕ × Text × Text) → IsKeeping Grows (k l))
      → (s : Servicer (Logged W)) → IsFree role s
      → IsTracked ((start (logged E) role config >>= λ l. hold (logged E) role l >>= λ _. k l) s).1
  unfolding start adopt hold logged logged_backend after_start
  launch-IsTracked role config k keeping s F =
      let r = E.backend.start role config s.world.0 in of_outcome r.0.tracked_files r.0.outcome r.1
    where
      of_outcome :
          (fs : List Text) (o : Attempt (Option ℕ × Text × Text)) (w : W)
          → IsTracked
              (followed_by (o, started fs o w s) (λ l. hold (logged E) role l >>= λ _. k l)).1
      of_outcome fs (fails e) w = unheld-IsTracked fs (fails e) w s refl F.tracked
      of_outcome fs (gives l) w =
          Keeps-IsTracked (hold_state role l (started fs (gives l) w s))
            (k l (hold_state role l (started fs (gives l) w s))).1
            (keeping l (hold_state role l (started fs (gives l) w s)))
            (held-IsTracked role fs l w s F)

  establish_role-IsTracked :
      (role : Role) (config : TlsConfig) (s : Servicer (Logged W))
      → IsFree role s
      → IsTracked (establish_role (logged E) role config s).1
  unfolding establish_role establish_server establish_client
  establish_role-IsTracked server config s F =
      launch-IsTracked server config (server_launched (logged E) config.port)
        (server_launched-IsKeeping (logged E) Grows (grows E) config.port) s F
  establish_role-IsTracked client config s F =
      launch-IsTracked client config (client_launched (logged E) config)
        (client_launched-IsKeeping (logged E) Grows (grows E) config) s F

  release-IsFree :
      (role : Role) (s : Servicer (Logged W))
      → IsTracked s
      → IsFree role (release_before_establish (logged E) role s).1
  unfolding release_before_establish logged
  release-IsFree role s T =
      of_run (terminate_process_hard (los E) E.decode (proc_of role s) s)
        (terminate_process_hard-IsKeeping (grows E).calls E.decode (proc_of role s) s)
        (terminate-gives (los E) E.decode (proc_of role s) s)
        (terminate-HasEnded E (proc_of role s) s)
    where
      of_run :
          (r : Attempt (Unit {0}) × Servicer (Logged W))
          → Keeps Grows s r.1
          → r.0 ≡ gives tt
          → HasEnded (proc_of role s) r.1
          → IsFree role (followed_by r (λ _. change (λ t. set_proc role none t))).1
      of_run (gives u, t) k g e =
          dropped-IsFree role t (Keeps-IsTracked s t k T)
            (subst (λ o. HasEnded o t) (sym (Keeps-proc role s t k)) e)
      of_run (fails x, t) k g e = absurd (ground arith)

  -- An ESTABLISH loses no process.
  pub establish-IsTracked :
      (role : Role) (config : TlsConfig) (s : Servicer (Logged W))
      → IsTracked s
      → IsTracked (handle_establish (logged E) role config s).1
  unfolding handle_establish
  establish-IsTracked role config s T =
      followed_by-Holds (IsFree role) IsTracked (release_before_establish (logged E) role s)
        (λ _. validate_config_supported (logged E) config role >>= λ _.
          change (note_repo_root (logged E) config) >>= λ _. establish_role (logged E) role config)
        (release-IsFree role s T) (λ t F. F.tracked)
        (λ _ t F.
          followed_by-Holds (IsFree role) IsTracked
            (validate_config_supported (logged E) config role t)
            (λ _. change (note_repo_root (logged E) config) >>= λ _.
              establish_role (logged E) role config)
            (Keeps-IsFree role t (validate_config_supported (logged E) config role t).1
              (validate-IsKeeping (logged E) Grows (grows E) config role t) F)
            (λ u G. G.tracked)
            (λ _ u G. establish_role-IsTracked role config (note_repo_root (logged E) config u) (
              Keeps-IsFree role u (note_repo_root (logged E) config u)
                (note_repo_root-Keeps (logged E) config u (Keeps-refl (grows E).calls u)) G)))
