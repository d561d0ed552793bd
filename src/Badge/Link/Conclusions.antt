-- ===== src/Badge/Link/Conclusions.antt =====
-- badge/app/src/usbhost.rs: how an exchange ends, and what it leaves behind.
use dc34_baonix.Base.{
  ℕ, ◌+◌, ◌≤◌, ◌≡◌, refl, ◌∙◌, ap, Option, none, some, List, [], ◌++◌, ◌==◌, length, usize, Outcome,
  err, arith, Bool-cases, inl, inr,
}
use dc34_baonix.Backing.{Error, medium}
use dc34_baonix.Proto.{Frame, encode}
use dc34_baonix.Proto.Mux
use dc34_baonix.Badge.Link.{
  Transport, LinkInner, LinkFault, Fault, with_t, frame_page, retry_budget, resync, note,
  keep_console, stash_noise, noise_report, nothing_noted,
}
use dc34_baonix.Badge.Link.Exchange.{
  Progress, Asked, Turn, answered, broke, resend, continue, attempts_loop, settle, exchange_inner,
  exchange, renamed, op_of,
}
use dc34_baonix.Badge.Link.Logged.{IsLogged, copies}
use dc34_baonix.Badge.Link.Turns.{IsAnswer}
use dc34_baonix.Badge.Link.Attempts.{Settles, attempts_loop-Settles}

-- How a whole exchange about a page ends: what it returns was taken from what the bytes that arrived
-- meanwhile leave held, and no fault is noted; or the fault is noted under the operation and the
-- caller told `Medium`; or the fuel of a wait ran out.
pub data Concluded {T : Type 0} (received : T → List ℕ) (f : Frame) (want page : ℕ)
    (l m : LinkInner T) : Option (Outcome Error Frame) → Type 0 where
  heard :
      (r : Outcome Error Frame) (arrived : List ℕ)
      → received m.t ≡ received l.t ++ arrived
      → IsAnswer want page l.mux arrived r
      → m.fault ≡ l.fault
      → Concluded received f want page l m (some r)
  faulted :
      (fault : Fault)
      → m.fault ≡ some fault
      → fault.op ≡ some (op_of f page)
      → Concluded received f want page l m (some (err medium))
  unfinished : Concluded received f want page l m none

-- What noting a fault keeps.
stash_noise-keeps :
    {T : Type 0} (l : LinkInner T) → ((stash_noise l).op ≡ l.op) × ((stash_noise l).t ≡ l.t)
unfolding stash_noise
stash_noise-keeps l = elim (Bool-cases (nothing_noted (Mux.take_noise l.mux).0)) [
  | inl e ↦ (rw (e, stash_noise) refl, rw (e, stash_noise) refl)
  | inr e ↦ (rw (e, stash_noise) refl, rw (e, stash_noise) refl)
]

noise_report-t : {T : Type 0} (l : LinkInner T) → (noise_report l).1.t ≡ l.t
unfolding noise_report
noise_report-t l = elim (Bool-cases (usize (length l.noise_sample_bytes + l.noise_dropped) == 0)) [
  | inl e ↦ rw (e, noise_report) refl
  | inr e ↦ rw (e, noise_report) refl
]

resync-keeps : {T : Type 0} (l : LinkInner T) → ((resync l).op ≡ l.op) × ((resync l).t ≡ l.t)
unfolding resync keep_console
resync-keeps l = stash_noise-keeps (keep_console l)

abbrev asked_at : ℕ → Frame → ℕ → ℕ → Asked
asked_at began f want page = record { asked = page; want = want; out = encode f []; began = began }

module _ {T : Type 0} ⦃tr : Transport T⦄ where
  abbrev begun : Frame → ℕ → LinkInner T → Progress T
  begun f page l = record {
    link = record l { t = (tr.now_ms l.t).1; op = some (op_of f page) };
    mismatched = 0;
    last_mismatch = none;
  }

  -- The outer loop of an exchange about a page.
  abbrev all_attempts : ℕ → Frame → ℕ → ℕ → LinkInner T → Turn T
  all_attempts fuel f want page l =
      attempts_loop (retry_budget + 1) fuel (asked_at (tr.now_ms l.t).0 f want page) 0
        (begun f page l)

  inner_is :
      (fuel : ℕ) (f : Frame) (want page : ℕ) (l : LinkInner T)
      → frame_page f ≡ some page
      → exchange_inner fuel f want l ≡ settle page (all_attempts fuel f want page l)
  unfolding exchange_inner
  inner_is fuel f want page l e =
      ap
        (λ o. elim o [
          | none ↦ (some (err medium), l)
          | some asked ↦ settle asked (all_attempts fuel f want asked l)
        ])
        e

module _ {T : Type 0} ⦃tr : Transport T⦄ {sent : T → List (List ℕ)} {received : T → List ℕ}
    (log : IsLogged tr sent received) where
  note-sent : (k : LinkFault) (l : LinkInner T) → sent (note k l).1.t ≡ sent l.t
  unfolding note
  note-sent k l =
      let heard = with_t (tr.status (tr.take_platform_fault l.t).1).1 l in
      ap sent (noise_report-t (stash_noise heard) ∙ (stash_noise-keeps heard).1)
      ∙ log.status_sent (tr.take_platform_fault l.t).1
      ∙ log.fault_sent l.t

  -- So many copies of the request have been sent.
  abbrev pub SentAgain : List ℕ → ℕ → T → T → Type 0
  SentAgain out most before after =
      (times : ℕ) × (times ≤ most) × (sent after ≡ sent before ++ copies times out)

  settle-SentAgain :
      (a : Asked) (n : ℕ) (l : LinkInner T) (t : Turn T)
      → Settles log a n l t
      → SentAgain a.out n l.t (settle a.asked t).1.t
  unfolding settle
  settle-SentAgain a n l (answered r q) (x, ans) = (x.times, x.few, x.sent_is)
  settle-SentAgain a n l (broke k q) x = (
    x.times,
    x.few,
    note-sent (renamed a.asked k q) (resync q.link) ∙ ap sent (resync-keeps q.link).1 ∙ x.sent_is,
  )
  settle-SentAgain a n l (resend q) x = absurd x
  settle-SentAgain a n l (continue q) x = (x.times, x.few, x.sent_is)

  all_attempts-Settles :
      (fuel : ℕ) (f : Frame) (want page : ℕ) (l : LinkInner T)
      → Settles log
          (asked_at (tr.now_ms l.t).0 f want page)
          (retry_budget + 1)
          (begun f page l).link
          (all_attempts fuel f want page l)
  all_attempts-Settles fuel f want page l =
      attempts_loop-Settles log (retry_budget + 1) fuel (asked_at (tr.now_ms l.t).0 f want page) 0
        (begun f page l) (omega arith) (omega arith)

  -- Whatever the peer and the transport do, and however far an exchange about a page has come, the
  -- calls of `send` in it have all been given the request, and there have been at most four.
  pub exchange-sends :
      (fuel : ℕ) (f : Frame) (want page : ℕ) (l : LinkInner T)
      → frame_page f ≡ some page
      → SentAgain (encode f []) (retry_budget + 1) l.t (exchange fuel f want l).1.t
  unfolding exchange
  exchange-sends fuel f want page l e =
      let l' = with_t (tr.now_ms l.t).1 l in
      let r = exchange_inner fuel f want l' in
      let (times, few, s) =
        settle-SentAgain (asked_at (tr.now_ms l'.t).0 f want page) (retry_budget + 1)
          (begun f page l').link (all_attempts fuel f want page l')
          (all_attempts-Settles fuel f want page l') in
      (
        times,
        few,
        log.now_sent r.1.t
            ∙ ap (λ x. sent x.1.t) (inner_is fuel f want page l' e)
            ∙ s
            ∙ ap (λ b. b ++ copies times (encode f [])) (log.now_sent l'.t ∙ log.now_sent l.t),
      )
