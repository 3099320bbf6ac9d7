-- ===== src/Wrappers/Servicer/Tracked.antt =====
-- No process is lost: what a servicer starts is held until it has ended, and a file that it tracks is
-- in its set until it is removed.
pub mod Establish
pub mod Close
pub mod Served
use tls_interop_framework.Prelude.{
  ==_refl, Option, ap, arith, inl, inr, none, some, sym, true, ℕ, ℤ, ◌∙◌, ◌≡◌, ◌⊎◌,
}
use tls_interop_framework.Python.Text.{Text, has_char, mem}
use tls_interop_framework.Wrappers.Process.{
  Os, Servicer, followed_by, gives, stop_unless_exited, terminate_process_hard, terminate_sent,
}
use tls_interop_framework.Wrappers.Servicer.{Wrapper, new_servicer}
use tls_interop_framework.Wrappers.Servicer.Keeping.{Keeps, terminate_sent-IsKeeping}
use tls_interop_framework.Wrappers.Servicer.Keeping.Handlers.{IsKeptBy}
use tls_interop_framework.Wrappers.Servicer.Ledger.{
  Grows, Ledger, Logged, after_poll, logged, logged-Grows, logged_os, no_ledger, saw_end,
}

module _ {W : Type 0} where
  abbrev pub ledger_of : Servicer (Logged W) → Ledger
  ledger_of s = s.world.1

  -- Every process that was started is held, was seen to have exited or was told to end, and every
  -- file that was tracked is in the set or was removed.
  pub record IsTracked (s : Servicer (Logged W)) : Type 0 where
    pub processes :
        (p : ℕ)
        → has_char p (ledger_of s).launched ≡ true
        → (has_char p (ledger_of s).ended ≡ true)
          ⊎ ((s.server_proc ≡ some p) ⊎ (s.client_proc ≡ some p))
    pub files :
        (f : Text)
        → mem f (ledger_of s).tracked_files ≡ true
        → (mem f (ledger_of s).removed ≡ true) ⊎ (mem f s.active_temp_files ≡ true)

  pub Keeps-IsTracked : (s t : Servicer (Logged W)) → Keeps Grows s t → IsTracked s → IsTracked t
  Keeps-IsTracked s t K T = record {
    processes = λ p h. elim (T.processes p (ap (has_char p) (sym K.world.launched) ∙ h)) [
      | inl e ↦ inl (K.world.ended p e)
      | inr (inl e) ↦ inr (inl (K.server ∙ e))
      | inr (inr e) ↦ inr (inr (K.client ∙ e))
    ];
    files = λ f h. elim (T.files f (ap (mem f) (sym K.world.tracked_files) ∙ h)) [
      | inl e ↦ inl (K.world.removed f e)
      | inr e ↦ inr (ap (mem f) K.files ∙ e)
    ];
  }

  -- A process has ended, if there is one.
  abbrev pub HasEnded : Option ℕ → Servicer (Logged W) → Type 0
  HasEnded none s = Unit {0}
  HasEnded (some p) s = has_char p (ledger_of s).ended ≡ true

  pub Keeps-HasEnded :
      (proc : Option ℕ) (s t : Servicer (Logged W))
      → Keeps Grows s t
      → HasEnded proc s
      → HasEnded proc t
  Keeps-HasEnded none s t K e = tt
  Keeps-HasEnded (some p) s t K e = K.world.ended p e

  pub fresh-IsTracked : (w : W) → IsTracked (new_servicer (w, no_ledger))
  unfolding new_servicer has_char mem
  fresh-IsTracked w = record {
    processes = λ p h. absurd (ground arith);
    files = λ f h. absurd (ground arith);
  }

module _ {W : Type 0} (E : Wrapper W) where
  abbrev pub los : Os (Logged W)
  los = (logged E).os

  pub grows : IsKeptBy (logged E) Grows
  grows = logged-Grows E

  ended_head : (p : ℕ) (l : Ledger) → has_char p (saw_end p l).ended ≡ true
  unfolding saw_end has_char
  ended_head p l = ground (arith, ==_refl p)

  stop_unless_exited-HasEnded :
      (p : ℕ) (s : Servicer (Logged W)) (l : Ledger) (r : Option ℤ × W)
      → HasEnded
          (some p)
          (followed_by
            (gives (after_poll p l r).0, record s { world = (after_poll p l r).1 })
            (stop_unless_exited los E.decode p)).1
  unfolding after_poll stop_unless_exited logged logged_os
  stop_unless_exited-HasEnded p s l (some code, v) = ended_head p l
  stop_unless_exited-HasEnded p s l (none, v) =
      Keeps-HasEnded (some p) (record s { world = ((E.os.terminate p v).1, saw_end p l) })
        (terminate_sent los E.decode p (E.os.terminate p v).0
          (record s { world = ((E.os.terminate p v).1, saw_end p l) })).1
        (terminate_sent-IsKeeping grows.calls E.decode p (E.os.terminate p v).0
          (record s { world = ((E.os.terminate p v).1, saw_end p l) }))
        (ended_head p l)

  -- A process that was terminated has ended.
  pub terminate-HasEnded :
      (proc : Option ℕ) (s : Servicer (Logged W))
      → HasEnded proc (terminate_process_hard los E.decode proc s).1
  unfolding terminate_process_hard logged logged_os
  terminate-HasEnded none s = tt
  terminate-HasEnded (some p) s = stop_unless_exited-HasEnded p s s.world.1 (E.os.poll p s.world.0)
