-- ===== src/Workers/Readiness/Ends.antt =====
-- internal/workers/readiness.go: the waiting ends, and what its answer says.
use gameserver_daemon.Common.{
  ℕ, ◌+◌, ◌*◌, ◌^◌, ◌/◌, ◌≤◌, ◌<◌, ◌≡◌, refl, ap, subst, false, Option, none, some, ltb, zero, suc,
  arith, inl, inr, Bool-cases,
}
use gameserver_daemon.Errors.{GoError}
use gameserver_daemon.Workers.Readiness.{Network, after_pause, after_dial, rounds, wait_for_port}

module _ {W : Type 0} (network : Network W) where
  -- The clock does not go back, and a pause that is not broken off takes five seconds.
  pub record KeepsTime : Type 0 where
    pub dials : (w : W) → network.now w ≤ network.now (network.dial w).1
    pub pauses :
        (w : W)
        → (network.pause w).0 ≡ none
        → network.now w + 5 * 10 ^ 9 ≤ network.now (network.pause w).1

  -- How the waiting has ended: with a connection, with the error of the last attempt when the deadline
  -- is over, or with the context's error.
  pub data Ended (deadline : ℕ) : Option (Option GoError) × W → Type 0 where
    opened : {v w : W} → network.dial v ≡ (none, w) → Ended deadline (some none, w)
    timed_out :
        {v w : W} {e : GoError}
        → network.dial v ≡ (some e, w)
        → deadline < network.now w
        → Ended deadline (some (some e), w)
    cancelled :
        {v w : W} {e : GoError} → network.pause v ≡ (some e, w) → Ended deadline (some (some e), w)

  module _ (keeps : KeepsTime) (deadline : ℕ) where
    paused-Ended :
        (next : W → Option (Option GoError) × W) (v : W) (r : Option GoError × W)
        → network.pause v ≡ r
        → (((network.pause v).0 ≡ none) → Ended deadline (next (network.pause v).1))
        → Ended deadline (after_pause network next r)
    paused-Ended next v (some e, w) h k = cancelled h
    paused-Ended next v (none, w) h k =
        subst (λ (x : Option GoError × W). Ended deadline (next x.1)) h
          (k (ap (λ (x : Option GoError × W). x.0) h))

    dialled-Ended :
        (next : W → Option (Option GoError) × W) (v : W) (r : Option GoError × W)
        → network.dial v ≡ r
        → (ltb deadline (network.now r.1) ≡ false
            → (network.pause r.1).0 ≡ none
            → Ended deadline (next (network.pause r.1).1))
        → Ended deadline (after_dial network next deadline r)
    dialled-Ended next v (none, w) h k = opened h
    dialled-Ended next v (some e, w) h k = elim (Bool-cases (ltb deadline (network.now w))) [
      | inl over ↦ rw over (timed_out h (ground arith))
      | inr early ↦ rw early (paused-Ended next w (network.pause w) refl (k early))
    ]

    rounds-Ended :
        (n : ℕ) (w : W)
        → deadline < network.now w + 5 * 10 ^ 9 * n
        → Ended deadline (rounds network (suc n) deadline w)
    unfolding rounds
    rounds-Ended zero w h =
        dialled-Ended (rounds network zero deadline) w (network.dial w) refl
          (λ early p. absurd (ground (arith, h, keeps.dials w)))
    rounds-Ended (suc n) w h =
        dialled-Ended (rounds network (suc n) deadline) w (network.dial w) refl (λ early p.
          rounds-Ended n (network.pause (network.dial w).1).1
            (omega (arith, h, keeps.dials w, keeps.pauses (network.dial w).1 p)))

  -- Waiting for a port ends, after at most a round for each five seconds of the time-out and two more:
  -- with nil, and then the last attempt has connected; with the error of the last attempt, and then
  -- the deadline is over; or with the error of the context. The clock does not go back, and a pause
  -- that is not broken off takes five seconds.
  pub wait_for_port-Ended :
      (keeps : KeepsTime) (fuel timeout : ℕ) (w : W)
      → timeout / (5 * 10 ^ 9) + 2 ≤ fuel
      → Ended (network.now w + timeout) (wait_for_port network fuel timeout w)
  unfolding wait_for_port
  wait_for_port-Ended keeps zero timeout w h = absurd (omega (arith, h))
  wait_for_port-Ended keeps (suc n) timeout w h =
      rounds-Ended keeps (network.now w + timeout) n w (omega (arith, h))
