-- ===== src/Badge/Link/Attempts.antt =====
-- badge/app/src/usbhost.rs: the attempts of an exchange.
use dc34_baonix.Base.{
  ℕ, zero, suc, ◌+◌, ◌≤◌, ◌≡◌, refl, List, ltb, usize, arith, Bool-cases, Option-cases, inl, inr,
}
use dc34_baonix.Badge.Link.{
  Transport, LinkInner, with_t, discard_stale_responses, retry_budget, recv_deadline_ms,
}
use dc34_baonix.Badge.Link.Exchange.{
  Progress, Asked, Sent, Turn, answered, broke, resend, continue, with_link, wait_loop, elapsed,
  transmit, park, attempt, attempts_loop,
}
use dc34_baonix.Badge.Link.Logged.{
  IsLogged, start, drop_matching-Fed, After, After-trans, After-more, on_t, on_clock, on_mux,
  on_send,
}
use dc34_baonix.Badge.Link.Turns.{Answered, Answered-from, Ends, Ends-from, wait_loop-Ends}

module _ {T : Type 0} ⦃tr : Transport T⦄ {sent : T → List (List ℕ)} {received : T → List ℕ}
    (log : IsLogged tr sent received) where
  transmit-Ends :
      (fuel : ℕ) (a : Asked) (n : ℕ) (p : Progress T) → Ends log a n 1 p.link (transmit fuel a n p)
  unfolding transmit
  transmit-Ends fuel a n p =
      let q = with_link (with_t (tr.send a.out p.link.t).1 p.link) p in
      let clock = tr.now_ms q.link.t in
      let q' = with_link (with_t clock.1 q.link) q in
      let went_out = on_send log a.out p.link in
      let s : Sent = record { ask = a; attempts = n; sent_at = clock.0 } in
      elim (Option-cases (tr.send a.out p.link.t).0) [
        | inr (k, e) ↦ rw (e, transmit) went_out
        | inl e ↦
            rw (e, transmit)
              (Ends-from log a n 0 (wait_loop fuel s q')
                (After-trans log a.out went_out (on_clock log a.out q.link))
                (wait_loop-Ends log fuel s q'))
      ]

  park-Ends :
      (fuel : ℕ) (a : Asked) (n : ℕ) (p : Progress T) → Ends log a n 1 p.link (park fuel a n p)
  unfolding park
  park-Ends fuel a n p =
      let q = with_link (with_t (tr.arm p.link.t).1 p.link) p in
      let second = elapsed a q in
      let armed = on_t log a.out p.link _ (log.arm_sent p.link.t) (log.arm_received p.link.t) in
      let ticked = After-trans log a.out armed (on_clock log a.out q.link) in
      elim (Bool-cases (tr.arm p.link.t).0) [
        | inr e ↦ rw (e, park) (After-more log a.out 1 (omega arith) armed)
        | inl e ↦ elim (Bool-cases (ltb recv_deadline_ms second.0)) [
          | inl late ↦ rw (e, late, park) (After-more log a.out 1 (omega arith) ticked)
          | inr in_time ↦
              rw (e, in_time, park)
                (Ends-from log a n 1 (transmit fuel a n second.1) ticked
                  (transmit-Ends fuel a n second.1))
        ]
      ]

  attempt-Ends :
      (fuel : ℕ) (a : Asked) (n : ℕ) (p : Progress T) → Ends log a n 1 p.link (attempt fuel a n p)
  unfolding attempt discard_stale_responses
  attempt-Ends fuel a n p =
      let stale = discard_stale_responses p.link in
      let dropped = record stale.1 { stale_dropped = usize (stale.1.stale_dropped + stale.0) } in
      let first = elapsed a (with_link dropped p) in
      let emptied =
        on_mux log a.out p.link dropped refl refl refl
          (drop_matching-Fed _ _ _ (drop_matching-Fed _ _ _ (drop_matching-Fed _ _ _ start))) in
      let ticked = After-trans log a.out emptied (on_clock log a.out dropped) in
      elim (Bool-cases (ltb recv_deadline_ms first.0)) [
        | inl late ↦ rw (late, attempt) (After-more log a.out 1 (omega arith) ticked)
        | inr in_time ↦
            rw (in_time, attempt)
              (Ends-from log a n 1 (park fuel a n first.1) ticked (park-Ends fuel a n first.1))
      ]

  -- How the outer loop ends: never for want of attempts.
  abbrev pub Settles : Asked → ℕ → LinkInner T → Turn T → Type 0
  Settles a most l (answered r q) = Answered log a most l r q.link
  Settles a most l (broke k q) = After log a.out l q.link most
  Settles a most l (resend q) = ⊥
  Settles a most l (continue q) = After log a.out l q.link most

  Settles-from :
      (a : Asked) {i : ℕ} (j : ℕ) {l m : LinkInner T} (most : ℕ) (t : Turn T)
      → i + j ≤ most
      → After log a.out l m i
      → Settles a j m t
      → Settles a most l t
  Settles-from a j most (answered r q) le x y =
      let z = Answered-from log a j r x y in (After-more log a.out most le z.0, z.1)
  Settles-from a j most (broke k q) le x y =
      After-more log a.out most le (After-trans log a.out x y)
  Settles-from a j most (resend q) le x y = y
  Settles-from a j most (continue q) le x y =
      After-more log a.out most le (After-trans log a.out x y)

  -- What the outer loop makes of an attempt.
  abbrev go_on : ℕ → ℕ → Asked → ℕ → Turn T → Turn T
  go_on more fuel a n t = elim t [
    | resend q ↦ attempts_loop more fuel a n q
    | answered r q ↦ answered r q
    | broke k q ↦ broke k q
    | continue q ↦ continue q
  ]

  by_attempt :
      (more fuel : ℕ) (a : Asked) (n : ℕ) (l : LinkInner T)
      → ((q : Progress T)
          → n ≤ retry_budget
          → Settles a more q.link (attempts_loop more fuel a n q))
      → (t : Turn T) → Ends log a n 1 l t
      → Settles a (suc more) l (go_on more fuel a n t)
  by_attempt more fuel a n l again (answered r q) (x, ans) =
      (After-more log a.out (suc more) (omega arith) x, ans)
  by_attempt more fuel a n l again (broke k q) x = After-more log a.out (suc more) (omega arith) x
  by_attempt more fuel a n l again (resend q) (few, x) =
      Settles-from a more (suc more) (attempts_loop more fuel a n q) (omega arith) x (again q few)
  by_attempt more fuel a n l again (continue q) x = After-more log a.out (suc more) (omega arith) x

  -- Every attempt sends the request at most once.
  pub attempts_loop-Settles :
      (more fuel : ℕ) (a : Asked) (n : ℕ) (p : Progress T)
      → n + more ≡ retry_budget + 1
      → n ≤ retry_budget
      → Settles a more p.link (attempts_loop more fuel a n p)
  unfolding attempts_loop
  attempts_loop-Settles zero fuel a n p total few = absurd (omega arith)
  attempts_loop-Settles (suc more) fuel a n p total few =
      by_attempt more fuel a (n + 1) p.link
        (λ q few'. attempts_loop-Settles more fuel a (n + 1) q (omega arith) few')
        (attempt fuel a (n + 1) p) (attempt-Ends fuel a (n + 1) p)
