-- ===== src/Badge/Send.antt =====
-- badge/app/src/usbhost.rs: sending bytes in packets, the counts kept of it, and the confirmation
-- that a listener is parked. The closures of the source are functions on a state.
pub mod Whole
use dc34_baonix.Base.{
  ℕ, zero, suc, ◌+◌, ◌-◌, ◌≤◌, Option, none, some, List, [], ◌∷◌, length, take, drop, min, max,
  Bool, true, false, not, ◌&&◌, if◌then◌else◌, ◌==◌, ltb, ◌≡◌,
}

abbrev pub send_retry_budget : ℕ
send_retry_budget = 64

abbrev pub tx_packet : ℕ
tx_packet = 512

abbrev pub cdc_packet : ℕ
cdc_packet = 512

pub data SendFault (E : Type 0) : Type 0 where
  stalled : SendFault E
  link : E → SendFault E
  timed_out : ℕ → ℕ → SendFault E

-- What `write_some` returns: how many bytes it took, or an error.
pub data Wrote (E : Type 0) : Type 0 where
  took : ℕ → Wrote E
  failed : E → Wrote E

-- The closures `write_some`, `gap` and `out_of_time`.
pub record Sender (S E : Type 0) : Type 0 where
  pub write_some : List ℕ → S → Wrote E × S
  pub gap : S → S
  pub out_of_time : S → Bool × S

-- How the loop of `send_paced` ends, or that its fuel ran out.
pub data Sending (E : Type 0) : Type 0 where
  done : Sending E
  fault : SendFault E → Sending E
  running : Sending E

module _ {S E : Type 0} (io : Sender S E) (chunk : ℕ) (bytes : List ℕ) where
  -- The bytes offered when so many are sent: `bytes[sent..end]`.
  abbrev pub offered : ℕ → List ℕ
  offered sent = take (min (length bytes) (sent + max chunk 1) - sent) (drop sent bytes)

  abbrev pub after_gap : Bool → S → S
  after_gap first s = if first then s else io.gap s

  -- The loop, with fuel.
  unfoldable pub send_loop : ℕ → ℕ → ℕ → Bool → S → Sending E × S
  send_loop zero sent idle first s = (running, s)
  send_loop (suc fuel) sent idle first s =
      let late = io.out_of_time s in
      let wrote = io.write_some (offered sent) (after_gap first late.1) in
      elim (ltb sent (length bytes)) [
        | false ↦ (done, s)
        | true ↦ elim late.0 [
          | true ↦ (fault (timed_out sent (length bytes)), late.1)
          | false ↦ elim wrote.0 [
            | failed e ↦ (fault (link e), wrote.1)
            | took n ↦ elim (n == 0) [
              | false ↦ send_loop fuel (sent + n) 0 false wrote.1
              | true ↦ elim (ltb send_retry_budget (idle + 1)) [
                | true ↦ (fault stalled, wrote.1)
                | false ↦ send_loop fuel sent (idle + 1) false wrote.1
              ]
            ]
          ]
        ]
      ]

  unfoldable pub send_paced : ℕ → S → Sending E × S
  send_paced fuel s = send_loop fuel 0 0 true s

-- `send_all`: no gap, no deadline, and one chunk of any size.
abbrev pub unpaced : {S E : Type 0} → (List ℕ → S → Wrote E × S) → Sender S E
unpaced write_some = record { write_some = write_some; gap = λ s. s; out_of_time = λ s. (false, s) }

unfoldable pub send_all :
    {S E : Type 0} → (List ℕ → S → Wrote E × S) → ℕ → List ℕ → ℕ → S → Sending E × S
send_all write_some max_usize bytes fuel s = send_paced (unpaced write_some) max_usize bytes fuel s

-- Confirmation that a listener is parked: the closures `parked`, `elapsed_ms` and `settle`.
pub record Watch (S : Type 0) : Type 0 where
  pub parked : S → Bool × S
  pub elapsed_ms : S → ℕ × S
  pub settle : S → S

pub data Park : Type 0 where
  confirmed unconfirmed : ℕ → Park
  looking : Park

-- The loop of `confirm_park`, with fuel.
unfoldable pub confirm_park : {S : Type 0} → Watch S → ℕ → ℕ → ℕ → S → Park × S
confirm_park w zero deadline unparks s = (looking, s)
confirm_park w (suc fuel) deadline unparks s =
    let first = w.parked s in
    let second = w.parked (w.settle first.1) in
    let seen = if first.0 then second.1 else first.1 in
    let lost = if first.0 then unparks + 1 else unparks in
    let clock = w.elapsed_ms seen in
    elim (first.0 && second.0) [
      | true ↦ (confirmed unparks, second.1)
      | false ↦ elim (ltb deadline clock.0) [
        | true ↦ (unconfirmed lost, clock.1)
        | false ↦ confirm_park w fuel deadline lost (w.settle clock.1)
      ]
    ]

pub record TxTally : Type 0 where
  pub asked : ℕ
  pub calls : ℕ
  pub accepted : ℕ
  pub refusals : ℕ
  pub shorts : ℕ
  pub flushes : ℕ
  pub ms : ℕ

abbrev pub new_tally : ℕ → TxTally
new_tally asked = record {
  asked = asked;
  calls = 0;
  accepted = 0;
  refusals = 0;
  shorts = 0;
  flushes = 0;
  ms = 0;
}

unfoldable pub record_call : {E : Type 0} → ℕ → Wrote E → TxTally → TxTally
record_call offer (failed e) t = record t { calls = t.calls + 1 }
record_call offer (took n) t =
    if n == 0 then record t { calls = t.calls + 1; refusals = t.refusals + 1 } else record t {
      calls = t.calls + 1;
      accepted = t.accepted + n;
      shorts = if ltb n offer then t.shorts + 1 else t.shorts;
    }

abbrev pub record_flush : TxTally → TxTally
record_flush t = record t { flushes = t.flushes + 1 }

abbrev pub multi_packet : TxTally → Bool
multi_packet t = ltb tx_packet t.asked

pub record TxLog : Type 0 where
  pub last : TxTally
  pub frames : ℕ
  pub multi_frames : ℕ
  pub accepted : ℕ
  pub refusals : ℕ

unfoldable pub finish : TxTally → TxLog → TxLog
finish t l = record {
  last = t;
  frames = l.frames + 1;
  multi_frames = if multi_packet t then l.multi_frames + 1 else l.multi_frames;
  accepted = l.accepted + t.accepted;
  refusals = l.refusals + t.refusals;
}
