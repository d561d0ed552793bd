-- ===== src/Badge/Link/Deadline.antt =====
-- badge/app/src/usbhost.rs: the wait for an answer lasts only as long as bytes arrive, since the clock
-- runs.
use dc34_baonix.Base.{
  ℕ, zero, suc, ◌+◌, ◌-◌, ◌*◌, ◌<◌, ◌≤◌, ◌≡◌, refl, ap, Option, none, some, List, [], ◌∷◌, ◌++◌,
  length, length-append, ◌==◌, ltb, arith, Bool-cases, Option-cases, inl, inr, ge_of_ltb,
}
use dc34_baonix.Proto.{Frame}
use dc34_baonix.Proto.Mux
use dc34_baonix.Proto.Mux.{Mux, take_matching}
use dc34_baonix.Proto.Mux.Room.{room, room-not_longer, room-taken, push-room}
use dc34_baonix.Badge.Link.{
  Transport, LinkInner, with_t, with_mux, absorb, keep_console, frame_page, retry_budget,
  recv_deadline_ms, attempt_deadline_ms, ty_err,
}
use dc34_baonix.Badge.Link.Exchange.{
  Progress, Sent, Turn, answered, broke, resend, continue, with_link, is_page, error_of,
  absorb_some, receive, listen, turn, wait_loop,
}
use dc34_baonix.Badge.Link.Logged.{IsLogged, or_empty}

-- What the trait's comments demand of the clock: it is monotonic, and a `recv` that returns with
-- nothing has blocked or slept. One that returns bytes may do so at once.
pub record IsTicking {T : Type 0} (tr : Transport T) (clock : T → ℕ) : Type 0 where
  pub reads : (t : T) → (tr.now_ms t).0 ≡ clock t
  pub monotonic : (t : T) → clock t ≤ clock (tr.now_ms t).1
  pub onward : (t : T) → clock t ≤ clock (tr.recv t).1
  pub sleeps : (t : T) → (tr.recv t).0 ≡ some [] → clock t < clock (tr.recv t).1

absorb_some-t : {T : Type 0} (bytes : List ℕ) (l : LinkInner T) → (absorb_some bytes l).t ≡ l.t
unfolding absorb keep_console
absorb_some-t [] l = refl
absorb_some-t (b ∷ bs) l = refl

absorb_some-room :
    {T : Type 0} (bytes : List ℕ) (l : LinkInner T)
    → room (absorb_some bytes l).mux ≤ room l.mux + length bytes
unfolding absorb keep_console Mux.take_console
absorb_some-room [] l = omega arith
absorb_some-room (b ∷ bs) l = push-room (b ∷ bs) l.mux

error_of-some : (o : Option Frame) {e : ℕ × ℕ} → error_of o ≡ some e → (f : Frame) × (o ≡ some f)
error_of-some none h = absurd (ground arith)
error_of-some (some f) h = (f, refl)

module _ {T : Type 0} ⦃tr : Transport T⦄ {sent : T → List (List ℕ)} {received : T → List ℕ}
    {clock : T → ℕ} (log : IsLogged tr sent received) (ticking : IsTicking tr clock) where
  abbrev so_far : Progress T → ℕ
  so_far p = length (received p.link.t)

  -- The rounds that the time left and the bytes and frames at hand allow.
  abbrev allowance : Sent → Progress T → ℕ
  allowance s p = s.ask.began + (recv_deadline_ms + 1) - clock p.link.t + room p.link.mux

  -- A round that goes on uses up one of them, and each byte that arrives brings two at most.
  abbrev Advances : Sent → Progress T → Turn T → Type 0
  Advances s p (continue q) = allowance s q + 2 * so_far p + 1 ≤ allowance s p + 2 * so_far q
  Advances s p _ = Unit

  receive-Advances :
      (s : Sent) (p q : Progress T)
      → clock p.link.t ≤ clock q.link.t
      → clock p.link.t ≤ s.ask.began + recv_deadline_ms
      → received q.link.t ≡ received p.link.t
      → room q.link.mux ≡ room p.link.mux
      → Advances s p (receive q)
  unfolding receive
  receive-Advances s p q le in_time same_bytes same_room =
      elim (Option-cases (tr.recv q.link.t).0) [
        | inl e ↦ rw (e, receive) tt
        | inr ([], e) ↦
            let slept = ticking.sleeps q.link.t e in
            let got = ap length (log.recv_received q.link.t) in
            let none_new = ap (λ o. length (received q.link.t ++ or_empty o)) e in
            let longer = length-append (received q.link.t) [] in
            rw (e, receive) (omega (arith, slept, got, none_new, longer, ap length same_bytes))
        | inr (b ∷ bs, e) ↦
            let moved = with_t (tr.recv q.link.t).1 q.link in
            let got = ap length (log.recv_received q.link.t) in
            let new = ap (λ o. length (received q.link.t ++ or_empty o)) e in
            let longer = length-append (received q.link.t) (b ∷ bs) in
            let there = ap (λ t. length (received t)) (absorb_some-t (b ∷ bs) moved) in
            let later = ap clock (absorb_some-t (b ∷ bs) moved) in
            rw (e, receive)
              (omega (
                arith,
                ticking.onward q.link.t,
                absorb_some-room (b ∷ bs) moved,
                got,
                new,
                longer,
                there,
                later,
                ap length same_bytes,
              ))
      ]

  listen-Advances : (s : Sent) (p : Progress T) → Advances s p (listen s p)
  unfolding listen
  listen-Advances s p =
      let now = (tr.now_ms p.link.t).0 in
      let q = with_link (with_t (tr.now_ms p.link.t).1 p.link) p in
      elim (Bool-cases (ltb recv_deadline_ms (now - s.ask.began))) [
        | inl e ↦ rw (e, listen) tt
        | inr e ↦ elim (Bool-cases (ltb attempt_deadline_ms (now - s.sent_at))) [
          | inr e' ↦
              let early = ge_of_ltb recv_deadline_ms (now - s.ask.began) e in
              rw (e, e', listen)
                (receive-Advances s p q (ticking.monotonic p.link.t)
                  (omega (arith, early, ticking.reads p.link.t)) (log.now_received p.link.t) refl)
          | inl e' ↦ elim (Bool-cases (ltb retry_budget s.attempts)) [
            | inl e2 ↦ rw (e, e', e2, listen) tt
            | inr e2 ↦ rw (e, e', e2, listen) tt
          ]
        ]
      ]

  Advances-from :
      (s : Sent) (p q : Progress T) (t : Turn T)
      → q.link.t ≡ p.link.t
      → room q.link.mux ≤ room p.link.mux
      → Advances s q t
      → Advances s p t
  Advances-from s p q (continue r) same le a =
      omega (arith, ap clock same, ap (λ t. length (received t)) same)
  Advances-from s p q (answered r x) same le a = tt
  Advances-from s p q (broke k x) same le a = tt
  Advances-from s p q (resend x) same le a = tt

  turn-Advances : (s : Sent) (p : Progress T) → Advances s p (turn s p)
  unfolding turn
  turn-Advances s p =
      let m = (take_matching s.ask.want p.link.mux).1 in
      let q = with_link (with_mux m p.link) p in
      let m' = (take_matching ty_err m).1 in
      let q' = with_link (with_mux m' q.link) q in
      let le = room-not_longer s.ask.want p.link.mux in
      elim (Option-cases (take_matching s.ask.want p.link.mux).0) [
        | inr (f, e) ↦ elim (Bool-cases (is_page (frame_page f) s.ask.asked)) [
          | inl same_page ↦ rw (e, same_page, turn) tt
          | inr other ↦ rw (e, other, turn) (omega (arith, room-taken s.ask.want p.link.mux e))
        ]
        | inl e ↦ elim (Option-cases (error_of (take_matching ty_err m).0)) [
          | inr (x, e') ↦ elim (Bool-cases (x.1 == s.ask.asked)) [
            | inl same_page ↦ rw (e, e', same_page, turn) tt
            | inr other ↦
                let (f, there) = error_of-some (take_matching ty_err m).0 e' in
                rw (e, e', other, turn) (omega (arith, room-taken ty_err m there, le))
          ]
          | inl e' ↦
              rw (e, e', turn)
                (Advances-from s p q' (listen s q') refl
                  (omega (arith, room-not_longer ty_err m, le)) (listen-Advances s q'))
        ]
      ]

-- A wait that is over, or else has gone on only so long, for the time and the frames it began with and
-- the bytes that have arrived since.
abbrev pub IsOverOrFed : {T : Type 0} → (T → List ℕ) → ℕ → ℕ → Progress T → Turn T → Type 0
IsOverOrFed received most n p (answered r q) = Unit
IsOverOrFed received most n p (broke k q) = Unit
IsOverOrFed received most n p (resend q) = Unit
IsOverOrFed received most n p (continue q) =
    n + 2 * length (received p.link.t) ≤ most + 2 * length (received q.link.t)

module _ {T : Type 0} ⦃tr : Transport T⦄ {sent : T → List (List ℕ)} {received : T → List ℕ}
    {clock : T → ℕ} (log : IsLogged tr sent received) (ticking : IsTicking tr clock) where
  next_round :
      (n : ℕ) (s : Sent) (p q : Progress T) (t : Turn T)
      → Advances log ticking s p (continue q)
      → IsOverOrFed received (allowance log ticking s q) n q t
      → IsOverOrFed received (allowance log ticking s p) (suc n) p t
  next_round n s p q (continue r) a h = omega arith
  next_round n s p q (answered r x) a h = tt
  next_round n s p q (broke k x) a h = tt
  next_round n s p q (resend x) a h = tt

  -- On a transport whose clock never goes back, and whose `recv` takes time when it returns with
  -- nothing, the wait for an answer ends as soon as no more bytes arrive: after any number of rounds
  -- it is over, or that number is at most what the time to the deadline and the bytes and frames at
  -- hand when it began allow, and two for each byte that has arrived since.
  pub wait_loop-IsOverOrFed :
      (n : ℕ) (s : Sent) (p : Progress T)
      → IsOverOrFed received
          (s.ask.began + (recv_deadline_ms + 1) - clock p.link.t + room p.link.mux)
          n
          p
          (wait_loop n s p)
  unfolding wait_loop
  wait_loop-IsOverOrFed zero s p = omega arith
  wait_loop-IsOverOrFed (suc n) s p =
      by_turn (wait_loop-IsOverOrFed n s) (turn s p) (turn-Advances log ticking s p)
    where
      by_turn :
          ((q : Progress T)
            → IsOverOrFed received (allowance log ticking s q) n q (wait_loop n s q))
          → (t : Turn T) → Advances log ticking s p t
          → IsOverOrFed received (allowance log ticking s p) (suc n) p (elim t [
            | continue q ↦ wait_loop n s q
            | answered r q ↦ answered r q
            | broke k q ↦ broke k q
            | resend q ↦ resend q
          ])
      by_turn again (continue q) a = next_round n s p q (wait_loop n s q) a (again q)
      by_turn again (answered r q) a = tt
      by_turn again (broke k q) a = tt
      by_turn again (resend q) a = tt
