-- ===== src/Badge/Startup/Bounded.antt =====
-- badge/app/src/startup.rs: a wait ends, and says how.
use dc34_baonix.Base.{
  ℕ, zero, suc, ◌+◌, ◌<◌, ◌≤◌, ◌≡◌, ◌⊎◌, refl, max, arith, Bool, true, false, ◌||◌, leb, leb→le,
  gt_of_leb, Bool-cases, inl, inr,
}
use dc34_baonix.Badge.Startup.{
  Waiting, Waited, WaitLimits, Wait, ready_after, gave_up, running, since, started, wait_loop,
  wait_for,
}

-- An end within the attempts allowed, of which there is always one; and a reason to give up.
abbrev pub IsBounded : WaitLimits → Wait → Type 0
IsBounded limits (ready_after w) = w.attempts ≤ max 1 limits.max_attempts
IsBounded limits (gave_up w) =
    (w.attempts ≤ max 1 limits.max_attempts)
    × ((limits.max_attempts ≤ w.attempts) ⊎ (limits.limit_ms ≤ w.elapsed_ms))
IsBounded limits running = ⊥

or-cases : (a b : Bool) → (a || b) ≡ true → (a ≡ true) ⊎ (b ≡ true)
or-cases true b h = inl refl
or-cases false b h = inr h

module _ {S : Type 0} (w : Waiting S) where
  wait_loop-IsBounded :
      (fuel : ℕ) (limits : WaitLimits) (start : ℕ) (x : Waited) (s : S)
      → limits.max_attempts < x.attempts + fuel
      → x.attempts ≤ limits.max_attempts
      → x.attempts + 1 ≤ max 1 limits.max_attempts
      → IsBounded limits (wait_loop w fuel limits start x s).0
  unfolding wait_loop
  wait_loop-IsBounded zero limits start x s enough few round = absurd (omega arith)
  wait_loop-IsBounded (suc fuel) limits start x s enough few round =
      let time = since w start x.elapsed_ms s in
      let seen : Waited = record { attempts = x.attempts + 1; elapsed_ms = time.0 } in
      let r = w.ready time.1 in
      let tired = leb limits.max_attempts seen.attempts in
      let late = leb limits.limit_ms seen.elapsed_ms in
      elim (Bool-cases r.0) [
        | inl e ↦ rw (e, wait_loop) round
        | inr e ↦ elim (Bool-cases (tired || late)) [
          | inl e1 ↦
              rw (e, e1, wait_loop)
                (
                  round,
                  elim (or-cases tired late e1) [
                    | inl t ↦ inl (leb→le limits.max_attempts seen.attempts t)
                    | inr t ↦ inr (leb→le limits.limit_ms seen.elapsed_ms t)
                  ],
                )
          | inr e1 ↦
              let more : seen.attempts < limits.max_attempts = elim (Bool-cases tired) [
                | inl t ↦ absurd (ground (arith, t, e1))
                | inr t ↦ gt_of_leb limits.max_attempts seen.attempts t
              ] in
              rw (e, e1, wait_loop)
                (wait_loop-IsBounded fuel limits start seen (w.backoff r.1) (omega arith)
                  (omega arith) (omega arith))
        ]
      ]

  -- Whatever it waits for and with or without a clock, a wait ends within the attempts that its
  -- limits allow, and it gives up only when they are used up or the time is over.
  pub wait_for-IsBounded : (limits : WaitLimits) (s : S) → IsBounded limits (wait_for w limits s).0
  unfolding wait_for
  wait_for-IsBounded limits s =
      wait_loop-IsBounded (suc limits.max_attempts) limits (started w s).0
        (record { attempts = 0; elapsed_ms = 0 }) (started w s).1 (omega arith) (omega arith)
        (omega arith)
