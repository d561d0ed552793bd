-- ===== src/Badge/Link/Turns.antt =====
-- badge/app/src/usbhost.rs: what the loops of `exchange_inner` keep, and what ends them.
use dc34_baonix.Base.{
  ℕ, zero, suc, ◌+◌, ◌-◌, ◌≤◌, ◌≡◌, refl, ◌∙◌, ap, Option, none, some, List, [], ◌++◌, true, ◌==◌,
  ltb, Outcome, ok, err, arith, Bool-cases, Option-cases, inl, inr, ==_iff, ge_of_ltb,
}
use dc34_baonix.Backing.{Error}
use dc34_baonix.Proto.{
  Frame, type_byte, read_req, read_resp, write_req, write_ack, con_out, con_in, error,
}
use dc34_baonix.Proto.Mux.{Mux, take_matching}
use dc34_baonix.Proto.Mux.Matching.{take_matching_lem}
use dc34_baonix.Badge.Link.{
  Transport, LinkInner, with_t, with_mux, frame_page, err_code, retry_budget, recv_deadline_ms,
  attempt_deadline_ms, ty_err,
}
use dc34_baonix.Badge.Link.Exchange.{
  Progress, Asked, Sent, Turn, answered, broke, resend, continue, with_link, is_page, error_of,
  receive, listen, turn, wait_loop,
}
use dc34_baonix.Badge.Link.Logged.{
  IsLogged, Fed, start, taken, Fed-trans, After, After-trans, on_clock, on_mux, on_failed_recv,
  on_recv,
}

-- What an answer that the loops let through is: a frame of the type and for the page that were asked
-- for, or the code of an error for that page, taken from what these bytes, pushed into this
-- multiplexer, leave held.
pub data IsAnswer (want page : ℕ) (m : Mux) (bytes : List ℕ) : Outcome Error Frame → Type 0 where
  response :
      (f : Frame) (k : Mux)
      → Fed m bytes k
      → (take_matching want k).0 ≡ some f
      → type_byte f ≡ want
      → frame_page f ≡ some page
      → IsAnswer want page m bytes (ok f)
  refusal :
      (code : ℕ) (k : Mux)
      → Fed m bytes k
      → (take_matching ty_err k).0 ≡ some (error code page)
      → IsAnswer want page m bytes (err (err_code code))

IsAnswer-from :
    {want page : ℕ} {l m : Mux} {x y : List ℕ} {r : Outcome Error Frame}
    → Fed l x m
    → IsAnswer want page m y r
    → IsAnswer want page l (x ++ y) r
IsAnswer-from a (response f k fed there ty page) = response f k (Fed-trans a fed) there ty page
IsAnswer-from a (refusal code k fed there) = refusal code k (Fed-trans a fed) there

take_matching-wanted :
    (want : ℕ) (m : Mux) {f : Frame} → (take_matching want m).0 ≡ some f → type_byte f ≡ want
take_matching-wanted want m h = elim (take_matching_lem want m) [
  | inl (nowhere, e) ↦ absurd (ground (arith, e))
  | inr (g, rest, t, e) ↦ ground (arith, e, t.wanted)
]

is_page-some : (o : Option ℕ) (page : ℕ) → is_page o page ≡ true → o ≡ some page
is_page-some none page h = absurd (ground arith)
is_page-some (some x) page h = ap some ((==_iff x page).0 h)

error_of-some : (o : Option Frame) {x : ℕ × ℕ} → error_of o ≡ some x → o ≡ some (error x.0 x.1)
error_of-some none h = absurd (ground arith)
error_of-some (some (error code page)) h = ground arith
error_of-some (some (read_req _)) h = absurd (ground arith)
error_of-some (some (read_resp _ _)) h = absurd (ground arith)
error_of-some (some (write_req _ _)) h = absurd (ground arith)
error_of-some (some (write_ack _)) h = absurd (ground arith)
error_of-some (some (con_out _)) h = absurd (ground arith)
error_of-some (some (con_in _)) h = absurd (ground arith)

module _ {T : Type 0} {tr : Transport T} {sent : T → List (List ℕ)} {received : T → List ℕ}
    (log : IsLogged tr sent received) where
  -- An answer, and what led to it.
  abbrev pub Answered : Asked → ℕ → LinkInner T → Outcome Error Frame → LinkInner T → Type 0
  Answered a most l r m = (x : After log a.out l m most) × IsAnswer a.want a.asked l.mux x.arrived r

  pub Answered-from :
      (a : Asked) {i : ℕ} (j : ℕ) {l k m : LinkInner T} (r : Outcome Error Frame)
      → After log a.out l k i
      → Answered a j k r m
      → Answered a (i + j) l r m
  Answered-from a j r x (y, ans) = (After-trans log a.out x y, IsAnswer-from x.fed ans)

  -- How a round, or a whole attempt, stands to the link that it began with.
  abbrev pub Ends : Asked → ℕ → ℕ → LinkInner T → Turn T → Type 0
  Ends a n most l (answered r q) = Answered a most l r q.link
  Ends a n most l (broke k q) = After log a.out l q.link most
  Ends a n most l (resend q) = (n ≤ retry_budget) × After log a.out l q.link most
  Ends a n most l (continue q) = After log a.out l q.link most

  pub Ends-from :
      (a : Asked) (n : ℕ) {i : ℕ} (j : ℕ) {l m : LinkInner T} (t : Turn T)
      → After log a.out l m i
      → Ends a n j m t
      → Ends a n (i + j) l t
  Ends-from a n j (answered r q) x y = Answered-from a j r x y
  Ends-from a n j (broke k q) x y = After-trans log a.out x y
  Ends-from a n j (resend q) x (few, y) = (few, After-trans log a.out x y)
  Ends-from a n j (continue q) x y = After-trans log a.out x y

module _ {T : Type 0} ⦃tr : Transport T⦄ {sent : T → List (List ℕ)} {received : T → List ℕ}
    (log : IsLogged tr sent received) where
  receive-Ends : (a : Asked) (n : ℕ) (p : Progress T) → Ends log a n 0 p.link (receive p)
  unfolding receive
  receive-Ends a n p = elim (Option-cases (tr.recv p.link.t).0) [
    | inl e ↦ rw (e, receive) (on_failed_recv log a.out p.link e)
    | inr (bytes, e) ↦ rw (e, receive) (on_recv log a.out p.link bytes e)
  ]

  listen-Ends : (s : Sent) (p : Progress T) → Ends log s.ask s.attempts 0 p.link (listen s p)
  unfolding listen
  listen-Ends s p =
      let now = (tr.now_ms p.link.t).0 in
      let q = with_link (with_t (tr.now_ms p.link.t).1 p.link) p in
      let ticked = on_clock log s.ask.out p.link in
      elim (Bool-cases (ltb recv_deadline_ms (now - s.ask.began))) [
        | inl e ↦ rw (e, listen) ticked
        | inr e ↦ elim (Bool-cases (ltb attempt_deadline_ms (now - s.sent_at))) [
          | inr e' ↦
              rw (e, e', listen)
                (Ends-from log s.ask s.attempts 0 (receive q) ticked
                  (receive-Ends s.ask s.attempts q))
          | inl e' ↦ elim (Bool-cases (ltb retry_budget s.attempts)) [
            | inl e2 ↦ rw (e, e', e2, listen) ticked
            | inr e2 ↦
                rw (e, e', e2, listen)
                  (
                    ge_of_ltb retry_budget s.attempts e2,
                    After-trans log s.ask.out ticked
                        (on_mux log s.ask.out q.link _ refl refl refl start),
                  )
          ]
        ]
      ]

  pub turn-Ends : (s : Sent) (p : Progress T) → Ends log s.ask s.attempts 0 p.link (turn s p)
  unfolding turn
  turn-Ends s p =
      let m = (take_matching s.ask.want p.link.mux).1 in
      let q = with_link (with_mux m p.link) p in
      let m' = (take_matching ty_err m).1 in
      let q' = with_link (with_mux m' q.link) q in
      let once = taken [] p.link.mux s.ask.want start in
      let twice = taken [] m ty_err once in
      let looked = on_mux log s.ask.out p.link q'.link refl refl refl twice in
      elim (Option-cases (take_matching s.ask.want p.link.mux).0) [
        | inr (f, e) ↦ elim (Bool-cases (is_page (frame_page f) s.ask.asked)) [
          | inl same_page ↦
              rw (e, same_page, turn)
                (
                  on_mux log s.ask.out p.link q.link refl refl refl once,
                  response f p.link.mux start e (take_matching-wanted s.ask.want p.link.mux e)
                      (is_page-some (frame_page f) s.ask.asked same_page),
                )
          | inr other ↦ rw (e, other, turn) (on_mux log s.ask.out p.link _ refl refl refl once)
        ]
        | inl e ↦ elim (Option-cases (error_of (take_matching ty_err m).0)) [
          | inr (x, e') ↦ elim (Bool-cases (x.1 == s.ask.asked)) [
            | inl same_page ↦
                rw (e, e', same_page, turn)
                  (
                    looked,
                    refusal x.0 m once (
                        error_of-some (take_matching ty_err m).0 e'
                        ∙ ap (λ g. some (error x.0 g)) ((==_iff x.1 s.ask.asked).0 same_page)),
                  )
            | inr other ↦ rw (e, e', other, turn) looked
          ]
          | inl e' ↦
              rw (e, e', turn)
                (Ends-from log s.ask s.attempts 0 (listen s q') looked (listen-Ends s q'))
        ]
      ]

  pub wait_loop-Ends :
      (n : ℕ) (s : Sent) (p : Progress T) → Ends log s.ask s.attempts 0 p.link (wait_loop n s p)
  unfolding wait_loop
  wait_loop-Ends zero s p = on_mux log s.ask.out p.link p.link refl refl refl start
  wait_loop-Ends (suc n) s p = by_turn (wait_loop-Ends n s) (turn s p) (turn-Ends s p)
    where
      by_turn :
          ((q : Progress T) → Ends log s.ask s.attempts 0 q.link (wait_loop n s q))
          → (t : Turn T) → Ends log s.ask s.attempts 0 p.link t
          → Ends log s.ask s.attempts 0 p.link (elim t [
            | continue q ↦ wait_loop n s q
            | answered r q ↦ answered r q
            | broke k q ↦ broke k q
            | resend q ↦ resend q
          ])
      by_turn again (continue q) x = Ends-from log s.ask s.attempts 0 (wait_loop n s q) x (again q)
      by_turn again (answered r q) x = x
      by_turn again (broke k q) x = x
      by_turn again (resend q) x = x
