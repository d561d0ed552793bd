-- ===== src/Badge/Link/Exchange.antt =====
-- badge/app/src/usbhost.rs: `exchange`, a request and the wait for its answer.
use dc34_baonix.Base.{
  ℕ, zero, suc, ◌+◌, ◌-◌, ◌^◌, Option, none, some, List, [], ◌∷◌, Bool, false, not, if◌then◌else◌,
  ◌==◌, ltb, min, usize, Outcome, ok, err,
}
use dc34_baonix.Backing.{Error, medium}
use dc34_baonix.Proto.{Frame, write_req, error, encode}
use dc34_baonix.Proto.Mux.{take_matching}
use dc34_baonix.Badge.Link.{
  Transport, SendError, stalled, failed, timed_out, LinkFault, not_parked, stalled_fault,
  send_failed, recv_failed, send_timed_out, timeout, wrong_page, Op, reading, writing, LinkInner,
  with_t, with_mux, absorb, resync, note, discard_stale_responses, frame_page, err_code, ty_err,
  recv_deadline_ms, attempt_deadline_ms, retry_budget,
}

-- The locals of `exchange_inner` that its loops change, beside the link.
pub record Progress (T : Type 0) : Type 0 where
  pub link : LinkInner T
  pub mismatched : ℕ
  pub last_mismatch : Option ℕ

-- Those that they read: the page and the type asked for, the request's bytes, when the exchange
-- began, and for the present attempt its number and when its request was sent.
pub record Asked : Type 0 where
  pub asked : ℕ
  pub want : ℕ
  pub out : List ℕ
  pub began : ℕ

pub record Sent : Type 0 where
  pub ask : Asked
  pub attempts : ℕ
  pub sent_at : ℕ

-- What a round of the inner loop ends in: an answer, a break with a fault, the next attempt, or the
-- next round.
pub data Turn (T : Type 0) : Type 0 where
  answered : Outcome Error Frame → Progress T → Turn T
  broke : LinkFault → Progress T → Turn T
  resend : Progress T → Turn T
  continue : Progress T → Turn T

abbrev pub with_link : {T : Type 0} → LinkInner T → Progress T → Progress T
with_link l p = record p { link = l }

abbrev pub is_page : Option ℕ → ℕ → Bool
is_page none asked = false
is_page (some page) asked = page == asked

-- A response of the right type for another page.
abbrev pub mismatch : {T : Type 0} → Option ℕ → Progress T → Progress T
mismatch got p = record p {
  link = record p.link { late_dropped = usize (p.link.late_dropped + 1) };
  mismatched = usize (p.mismatched + 1);
  last_mismatch = got;
}

abbrev pub error_of : Option Frame → Option (ℕ × ℕ)
error_of (some (error code page)) = some (code, page)
error_of (some _) = none
error_of none = none

abbrev pub waited : {T : Type 0} → ℕ → ℕ → ℕ → LinkInner T → LinkFault
waited attempts elapsed wait l = timeout (record {
  attempts = attempts;
  elapsed_ms = elapsed;
  waited_ms = wait;
  deliveries = l.deliveries;
  bytes_in = l.bytes_in;
})

abbrev pub absorb_some : {T : Type 0} → List ℕ → LinkInner T → LinkInner T
absorb_some [] l = l
absorb_some (b ∷ bs) l = absorb (b ∷ bs) l

abbrev pub send_fault : SendError → LinkFault
send_fault stalled = stalled_fault
send_fault failed = send_failed
send_fault (timed_out sent len) = send_timed_out sent len

module _ {T : Type 0} ⦃tr : Transport T⦄ where
  -- `recv`, and what follows it.
  unfoldable pub receive : Progress T → Turn T
  receive p =
      let got = tr.recv p.link.t in
      let q = with_link (with_t got.1 p.link) p in
      elim got.0 [
        | none ↦ broke recv_failed q
        | some bytes ↦ continue (with_link (absorb_some bytes q.link) q)
      ]

  -- A round that finds no answer held.
  unfoldable pub listen : Sent → Progress T → Turn T
  listen s p =
      let clock = tr.now_ms p.link.t in
      let now = clock.0 in
      let q = with_link (with_t clock.1 p.link) p in
      let late = waited s.attempts (now - s.ask.began) (now - s.sent_at) q.link in
      if ltb recv_deadline_ms (now - s.ask.began)
      then broke late q
      else if ltb attempt_deadline_ms (now - s.sent_at)
      then if ltb retry_budget s.attempts
        then broke late q
        else resend (with_link (record q.link { retries = usize (q.link.retries + 1) }) q)
      else receive q

  unfoldable pub turn : Sent → Progress T → Turn T
  turn s p =
      let taken = take_matching s.ask.want p.link.mux in
      let q = with_link (with_mux taken.1 p.link) p in
      elim taken.0 [
        | some f ↦
            if is_page (frame_page f) s.ask.asked
            then answered (ok f) q
            else continue (mismatch (frame_page f) q)
        | none ↦
            let errs = take_matching ty_err q.link.mux in
            let q' = with_link (with_mux errs.1 q.link) q in
            elim (error_of errs.0) [
              | some e ↦
                  if e.1 == s.ask.asked then answered (err (err_code e.0)) q' else continue q'
              | none ↦ listen s q'
            ]
      ]

  -- The inner loop, with fuel; it has run out where the result is `continue`.
  unfoldable pub wait_loop : ℕ → Sent → Progress T → Turn T
  wait_loop zero s p = continue p
  wait_loop (suc fuel) s p = elim (turn s p) [
    | continue q ↦ wait_loop fuel s q
    | answered r q ↦ answered r q
    | broke k q ↦ broke k q
    | resend q ↦ resend q
  ]

  -- Reading the clock: the time since the exchange began.
  abbrev pub elapsed : Asked → Progress T → ℕ × Progress T
  elapsed a p =
      let clock = tr.now_ms p.link.t in (clock.0 - a.began, with_link (with_t clock.1 p.link) p)

  -- An attempt once its listener is parked: the request goes out and its answer is waited for.
  unfoldable pub transmit : ℕ → Asked → ℕ → Progress T → Turn T
  transmit fuel a attempts p =
      let sent = tr.send a.out p.link.t in
      let q = with_link (with_t sent.1 p.link) p in
      elim sent.0 [
        | some e ↦ broke (send_fault e) q
        | none ↦
            let clock = tr.now_ms q.link.t in
            wait_loop fuel (record { ask = a; attempts = attempts; sent_at = clock.0 })
              (with_link (with_t clock.1 q.link) q)
      ]

  unfoldable pub park : ℕ → Asked → ℕ → Progress T → Turn T
  park fuel a attempts p =
      let armed = tr.arm p.link.t in
      let q = with_link (with_t armed.1 p.link) p in
      let second = elapsed a q in
      if not armed.0
      then broke not_parked q
      else if ltb recv_deadline_ms second.0
      then broke (waited attempts second.0 second.0 second.1.link) second.1
      else transmit fuel a attempts second.1

  -- One attempt.
  unfoldable pub attempt : ℕ → Asked → ℕ → Progress T → Turn T
  attempt fuel a attempts p =
      let stale = discard_stale_responses p.link in
      let dropped = record stale.1 { stale_dropped = usize (stale.1.stale_dropped + stale.0) } in
      let first = elapsed a (with_link dropped p) in
      if ltb recv_deadline_ms first.0
      then broke (waited attempts first.0 first.0 first.1.link) first.1
      else park fuel a attempts first.1

  -- The outer loop, with a number of attempts left; one more than the retry budget is enough. The
  -- result `resend` says that they ran out, `continue` that the fuel of a wait did.
  unfoldable pub attempts_loop : ℕ → ℕ → Asked → ℕ → Progress T → Turn T
  attempts_loop zero fuel a attempts p = resend p
  attempts_loop (suc more) fuel a attempts p = elim (attempt fuel a (attempts + 1) p) [
    | resend q ↦ attempts_loop more fuel a (attempts + 1) q
    | answered r q ↦ answered r q
    | broke k q ↦ broke k q
    | continue q ↦ continue q
  ]

abbrev pub max_u32 : ℕ
max_u32 = 2 ^ 32 - 1

abbrev pub max_u64 : ℕ
max_u64 = 2 ^ 64 - 1

abbrev pub or_max : Option ℕ → ℕ
or_max none = max_u32
or_max (some page) = page

-- A time-out in which answers for another page came is named after the last of them.
unfoldable pub renamed : {T : Type 0} → ℕ → LinkFault → Progress T → LinkFault
renamed asked (timeout w) p =
    if ltb 0 p.mismatched then wrong_page asked (or_max p.last_mismatch) else timeout w
renamed asked k p = k

abbrev pub op_of : Frame → ℕ → Op
op_of (write_req _ _) page = writing page
op_of f page = reading page

module _ {T : Type 0} ⦃tr : Transport T⦄ where
  -- What follows the outer loop. There is no result where the fuel of a wait ran out.
  unfoldable pub settle : ℕ → Turn T → Option (Outcome Error Frame) × LinkInner T
  settle asked (answered r q) = (some r, q.link)
  settle asked (broke k q) =
      let noted = note (renamed asked k q) (resync q.link) in (some (err noted.0), noted.1)
  settle asked (resend q) = (none, q.link)
  settle asked (continue q) = (none, q.link)

  unfoldable pub exchange_inner :
      ℕ → Frame → ℕ → LinkInner T → Option (Outcome Error Frame) × LinkInner T
  exchange_inner fuel f want l = elim (frame_page f) [
    | none ↦ (some (err medium), l)
    | some asked ↦
        let clock = tr.now_ms l.t in
        let ask : Asked = record {
          asked = asked;
          want = want;
          out = encode f [];
          began = clock.0;
        } in
        let start : LinkInner T = record l { t = clock.1; op = some (op_of f asked) } in
        settle asked (
          attempts_loop (retry_budget + 1) fuel ask 0
            (record { link = start; mismatched = 0; last_mismatch = none }))
  ]

  unfoldable pub exchange : ℕ → Frame → ℕ → LinkInner T → Option (Outcome Error Frame) × LinkInner T
  exchange fuel f want l =
      let before = tr.now_ms l.t in
      let r = exchange_inner fuel f want (with_t before.1 l) in
      let after = tr.now_ms r.1.t in
      (
        r.0,
        record r.1 {
          t = after.1;
          blocked_ms = min max_u64 (r.1.blocked_ms + (after.0 - before.0));
          exchanges = usize (r.1.exchanges + 1);
        },
      )
