-- ===== src/Wrappers/Connect.antt =====
-- wrappers/base.py: `wait_tcp_connect`. Times are in milliseconds, and what the loop calls is a
-- parameter over an unknown world, which the clock reads.
use tls_interop_framework.Prelude.{
  Bool, Bool-cases, Option, [], arith, false, if◌then◌else◌, inl, inr, is_empty, ltb, none, refl,
  some, suc, true, zero, ℕ, ℤ, ◌*◌, ◌+◌, ◌∷◌, ◌≡◌, ◌≤◌,
}
use tls_interop_framework.Python.Text.{Text, lit, or_text}

pub record Network (W : Type 0) : Type 0 where
  pub now : W → ℕ
  pub sleep : ℕ → W → W
  -- One attempt: none where it connects, and else the text of the OSError.
  pub create_connection : W → Option Text × W
  pub poll : W → Option ℤ × W

-- Whether the wait has connected, with the reason where it has not.
abbrev pub Waited : Type 0 → Type 0
Waited W = (Bool × Text) × W

abbrev pub poll_ms : ℕ
poll_ms = 50

module _ {W : Type 0} (N : Network W) where
  unfoldable pub slept : W → W
  slept w = N.sleep poll_ms w

  -- One round of the loop, with what the next rounds do.
  unfoldable pub attempted : Option Text × W → (Text → W → Option (Waited W)) → Option (Waited W)
  unfolding slept
  attempted (none, w) next = some ((true, []), w)
  attempted (some e, w) next = next e (slept w)

  unfoldable pub checked_process : Option ℤ × W → (Text → W → Option (Waited W)) → Option (Waited W)
  unfolding attempted
  checked_process (some code, w) next =
      some ((false, lit "subprocess exited before TCP became ready"), w)
  checked_process (none, w) next = attempted (N.create_connection w) next

  -- Whether there is a process to watch, `proc is not None`.
  unfoldable pub attempt : Bool → W → (Text → W → Option (Waited W)) → Option (Waited W)
  unfolding checked_process
  attempt true w next = checked_process (N.poll w) next
  attempt false w next = attempted (N.create_connection w) next

  -- The loop, on fuel.
  unfoldable pub wait_rounds : ℕ → Bool → ℕ → Text → W → Option (Waited W)
  unfolding attempt lit
  wait_rounds zero watched deadline last_err w = none
  wait_rounds (suc fuel) watched deadline last_err w =
      if ltb (N.now w) deadline
      then attempt watched w (λ e v. wait_rounds fuel watched deadline e v)
      else some ((false, or_text last_err (lit "timeout")), w)

  unfoldable pub wait_tcp_connect : Bool → ℕ → W → Option (Waited W)
  wait_tcp_connect watched timeout_ms w =
      wait_rounds (suc timeout_ms) watched (N.now w + timeout_ms) [] w

-- The clock is monotonic, and a sleep takes at least the time that it is given.
pub record IsSteady {W : Type 0} (N : Network W) : Type 0 where
  pub slept : (ms : ℕ) (w : W) → N.now w + ms ≤ N.now (N.sleep ms w)
  pub connected : (w : W) → N.now w ≤ N.now (N.create_connection w).1
  pub polled : (w : W) → N.now w ≤ N.now (N.poll w).1

ltb-false : (a b : ℕ) → b ≤ a → ltb a b ≡ false
ltb-false a b h = ground arith

module _ {W : Type 0} (N : Network W) (steady : IsSteady N) where
  -- A wait that ends, with a reason if it has not connected.
  abbrev pub Ends : Option (Waited W) → Type 0
  Ends o = (r : Waited W) × (o ≡ some r) × (r.0.0 ≡ false → is_empty r.0.1 ≡ false)

  reason : (e : Text) → is_empty (or_text e (lit "timeout")) ≡ false
  unfolding or_text lit
  reason [] = refl
  reason (c ∷ e) = refl

  attempted-Ends :
      (begun : ℕ) (r : Option Text × W) (next : Text → W → Option (Waited W))
      → begun ≤ N.now r.1
      → ((e : Text) (v : W) → begun + poll_ms ≤ N.now v → Ends (next e v))
      → Ends (attempted N r next)
  unfolding attempted slept
  attempted-Ends begun (none, w) next later go = (((true, []), w), refl, λ h. absurd (ground arith))
  attempted-Ends begun (some e, w) next later go =
      let rested = steady.slept poll_ms w in go e (N.sleep poll_ms w) (omega arith)

  attempt-Ends :
      (watched : Bool) (w : W) (next : Text → W → Option (Waited W))
      → ((e : Text) (v : W) → N.now w + poll_ms ≤ N.now v → Ends (next e v))
      → Ends (attempt N watched w next)
  unfolding attempt lit
  attempt-Ends false w next go =
      attempted-Ends (N.now w) (N.create_connection w) next (steady.connected w) go
  attempt-Ends true w next go = of_poll (N.poll w) (steady.polled w)
    where
      of_poll : (r : Option ℤ × W) → N.now w ≤ N.now r.1 → Ends (checked_process N r next)
      of_poll (some code, v) h = (_, refl, λ k. refl)
      of_poll (none, v) h =
          let tried = steady.connected v in
          attempted-Ends (N.now w) (N.create_connection v) next (omega arith) go

  rounds-Ends :
      (n : ℕ) (watched : Bool) (deadline : ℕ) (last_err : Text) (w : W)
      → deadline ≤ N.now w + n * poll_ms
      → Ends (wait_rounds N (suc n) watched deadline last_err w)
  unfolding wait_rounds
  rounds-Ends zero watched deadline last_err w enough =
      rw (ltb-false (N.now w) deadline (omega arith)) ((_, refl, λ h. reason last_err))
  rounds-Ends (suc n) watched deadline last_err w enough =
      elim (Bool-cases (ltb (N.now w) deadline)) [
        | inr late ↦ rw late ((_, refl, λ h. reason last_err))
        | inl early ↦ rw early (
            attempt-Ends watched w (λ e v. wait_rounds N (suc n) watched deadline e v)
              (λ e v later. rounds-Ends n watched deadline e v (omega arith)))
      ]

  -- On a clock that never goes back, and on which a sleep takes at least the time that it is given,
  -- the wait for a port ends within its rounds, whatever the network and the process do. If it has
  -- not connected, then it gives a reason that is not empty.
  pub wait_tcp_connect-Ends :
      (watched : Bool) (timeout_ms : ℕ) (w : W) → Ends (wait_tcp_connect N watched timeout_ms w)
  unfolding wait_tcp_connect
  wait_tcp_connect-Ends watched timeout_ms w =
      rounds-Ends timeout_ms watched (N.now w + timeout_ms) [] w (omega arith)
