-- ===== src/Wrappers/Servicer/Tracked/Close.antt =====
-- A CLOSE ends every process and removes every tracked file.
use tls_interop_framework.Prelude.{
  List, [], ap, arith, inl, inr, none, or_true, refl, sym, true, ℕ, ◌∙◌, ◌∷◌, ◌≡◌,
}
use tls_interop_framework.Python.Text.{Text, has_char, lit, mem, text_eq, text_eq_iff, text_eq_refl}
use tls_interop_framework.Runner.Config.{success}
use tls_interop_framework.Wrappers.Process.{
  Attempt, Method, Servicer, change, cleanup_servicer, extra_cleanup, fails, followed_by, give,
  gives, remove_all, session_artifact_files, terminate_process_hard, ◌>>=◌,
}
use tls_interop_framework.Wrappers.Servicer.{OpResult, Wrapper, result}
use tls_interop_framework.Wrappers.Servicer.Keeping.{
  Keeps, Keeps-trans, terminate-gives, terminate_process_hard-IsKeeping,
}
use tls_interop_framework.Wrappers.Servicer.Ledger.{Grows, Logged, logged, logged_os, saw_removal}
use tls_interop_framework.Wrappers.Servicer.Requests.{handle_close}
use tls_interop_framework.Wrappers.Servicer.Tracked.{
  HasEnded, IsTracked, Keeps-HasEnded, Keeps-IsTracked, grows, ledger_of, los, terminate-HasEnded,
}
use mathlib.Core.Path.{subst}

module _ {W : Type 0} where
  -- Nothing is held any more: every process that was started has ended, as it was seen to have exited
  -- or was told to end, and every file that was tracked was removed.
  pub record IsClean (s : Servicer (Logged W)) : Type 0 where
    pub processes :
        (p : ℕ) → has_char p (ledger_of s).launched ≡ true → has_char p (ledger_of s).ended ≡ true
    pub files :
        (f : Text) → mem f (ledger_of s).tracked_files ≡ true → mem f (ledger_of s).removed ≡ true
    pub server : s.server_proc ≡ none
    pub client : s.client_proc ≡ none
    pub no_files : s.active_temp_files ≡ []

  pub IsClean-IsTracked : (s : Servicer (Logged W)) → IsClean s → IsTracked s
  IsClean-IsTracked s C = record {
    processes = λ p h. inl (C.processes p h);
    files = λ f h. inl (C.files f h);
  }

module _ {W : Type 0} (E : Wrapper W) where
  remove_all-Grows :
      (paths : List Text) (w : Logged W) → Grows w (remove_all (los E) E.decode paths w)
  unfolding remove_all
  remove_all-Grows [] w = (grows E).calls.same w
  remove_all-Grows (path ∷ paths) w =
      (grows E).calls.both w ((los E).remove path w)
        (remove_all (los E) E.decode paths ((los E).remove path w)) ((grows E).calls.remove path w)
        (remove_all-Grows paths ((los E).remove path w))

  removed_head : (path : Text) (w : Logged W) → mem path ((los E).remove path w).1.removed ≡ true
  unfolding logged logged_os saw_removal mem
  removed_head path w = ground (arith, text_eq_refl path)

  remove_all-removed :
      (paths : List Text) (w : Logged W) (f : Text)
      → mem f paths ≡ true
      → mem f (remove_all (los E) E.decode paths w).1.removed ≡ true
  unfolding remove_all mem
  remove_all-removed [] w f h = absurd (ground arith)
  remove_all-removed (path ∷ paths) w f h = elim (or_true (text_eq f path) (mem f paths) h) [
    | inl e ↦ (remove_all-Grows paths ((los E).remove path w)).removed f (
        subst (λ g. mem g ((los E).remove path w).1.removed ≡ true) (sym ((text_eq_iff f path).0 e))
          (removed_head path w))
    | inr m ↦ remove_all-removed paths ((los E).remove path w) f m
  ]

  -- The end of the cleanup, once both processes have ended.
  abbrev dropped : Servicer (Logged W) → Servicer (Logged W)
  dropped t = extra_cleanup (los E) E.decode (record t { server_proc = none; client_proc = none })

  dropped-IsClean :
      (t : Servicer (Logged W))
      → IsTracked t
      → HasEnded t.server_proc t
      → HasEnded t.client_proc t
      → IsClean (dropped t)
  unfolding extra_cleanup
  dropped-IsClean t T se ce =
      let first = remove_all (los E) E.decode t.active_temp_files t.world in
      let arts = session_artifact_files t.session_artifact_repo_root in
      let G = remove_all-Grows t.active_temp_files t.world in
      let second = remove_all (los E) E.decode arts first in
      let G' =
        (grows E).calls.both first second ((los E).cleanup_hook second)
          (remove_all-Grows arts first) ((grows E).calls.cleanup_hook second) in
      let GG = (grows E).calls.both t.world first ((los E).cleanup_hook second) G G' in
      record {
        processes = λ p h.
            GG.ended p (elim (T.processes p (ap (has_char p) (sym GG.launched) ∙ h)) [
              | inl x ↦ x
              | inr (inl x) ↦ subst (λ o. HasEnded o t) x se
              | inr (inr x) ↦ subst (λ o. HasEnded o t) x ce
            ]);
        files = λ f h. elim (T.files f (ap (mem f) (sym GG.tracked_files) ∙ h)) [
          | inl x ↦ GG.removed f x
          | inr x ↦ G'.removed f (remove_all-removed t.active_temp_files t.world f x)
        ];
        server = refl;
        client = refl;
        no_files = refl;
      }

  abbrev answered : Unit {0} → Method (Logged W) OpResult
  answered _ = give (result success (lit "Cleanup successful") [] none)

  -- A CLOSE of a servicer that has lost no process leaves nothing behind.
  pub close-IsClean :
      (s : Servicer (Logged W)) → IsTracked s → IsClean (handle_close (logged E) s).1
  unfolding handle_close cleanup_servicer logged
  close-IsClean s T =
      of_first (terminate_process_hard (los E) E.decode s.server_proc s)
        (terminate_process_hard-IsKeeping (grows E).calls E.decode s.server_proc s)
        (terminate-gives (los E) E.decode s.server_proc s) (terminate-HasEnded E s.server_proc s)
    where
      of_second :
          (t : Servicer (Logged W)) (r : Attempt (Unit {0}) × Servicer (Logged W))
          → Keeps Grows s t
          → HasEnded s.server_proc t
          → Keeps Grows t r.1
          → r.0 ≡ gives tt
          → HasEnded s.client_proc r.1
          → IsClean (followed_by (followed_by r (λ _. change dropped)) answered).1
      of_second t (gives u, v) k e k' g e' =
          let kk = Keeps-trans (grows E).calls s t v k k' in
          dropped-IsClean v (Keeps-IsTracked s v kk T)
            (subst (λ o. HasEnded o v) (sym kk.server) (Keeps-HasEnded s.server_proc t v k' e))
            (subst (λ o. HasEnded o v) (sym kk.client) e')
      of_second t (fails x, v) k e k' g e' = absurd (ground arith)

      of_first :
          (r : Attempt (Unit {0}) × Servicer (Logged W))
          → Keeps Grows s r.1
          → r.0 ≡ gives tt
          → HasEnded s.server_proc r.1
          → IsClean
              (followed_by
                (followed_by r (λ _.
                  terminate_process_hard (los E) E.decode s.client_proc >>= λ _. change dropped))
                answered).1
      of_first (gives u, t) k g e =
          of_second t (terminate_process_hard (los E) E.decode s.client_proc t) k e
            (terminate_process_hard-IsKeeping (grows E).calls E.decode s.client_proc t)
            (terminate-gives (los E) E.decode s.client_proc t)
            (terminate-HasEnded E s.client_proc t)
      of_first (fails x, t) k g e = absurd (ground arith)
