-- ===== src/Badge/Link.antt =====
-- badge/app/src/usbhost.rs: the state of the paging link. A `usize` of the badge has
-- 32 bits, and a counter wraps around as in a release build. A text is the list of its bytes.
pub mod Exchange
pub mod Logged
pub mod Turns
pub mod Attempts
pub mod Conclusions
pub mod Deadline
use dc34_baonix.Base.{
  ℕ, zero, suc, ◌+◌, ◌-◌, Option, none, some, List, [], ◌∷◌, ◌++◌, length, Bool, true, false,
  if◌then◌else◌, ◌==◌, ◌||◌, ◌&&◌, usize,
}
use dc34_baonix.Backing.{Error, out_of_range, medium}
use dc34_baonix.Proto.{
  Frame, read_req, read_resp, write_req, write_ack, con_out, con_in, error, encode, page_bytes,
}
use dc34_baonix.Proto.Mux
use dc34_baonix.Proto.Mux.{Mux, take_matching}

abbrev pub ty_read_resp : ℕ
ty_read_resp = 0x02

abbrev pub ty_write_ack : ℕ
ty_write_ack = 0x04

abbrev pub ty_err : ℕ
ty_err = 0x07

abbrev pub recv_deadline_ms : ℕ
recv_deadline_ms = 2000

abbrev pub attempt_deadline_ms : ℕ
attempt_deadline_ms = 250

abbrev pub retry_budget : ℕ
retry_budget = 3

abbrev pub noise_sample : ℕ
noise_sample = 64

pub data SendError : Type 0 where
  stalled failed : SendError
  timed_out : ℕ → ℕ → SendError

-- The trait `Transport`. `arm` says whether a listener is parked, `send` which error it met, and
-- `recv` and `poll` give no bytes where they fail.
pub record Transport (T : Type 0) : Type 0 where
  pub arm : T → Bool × T
  pub send : List ℕ → T → Option SendError × T
  pub recv : T → Option (List ℕ) × T
  pub poll : T → Option (List ℕ) × T
  pub now_ms : T → ℕ × T
  pub take_platform_fault : T → Option (List ℕ) × T
  pub status : T → Option (List ℕ) × T

-- The measured numbers of a time-out.
pub record Waited : Type 0 where
  pub attempts : ℕ
  pub elapsed_ms : ℕ
  pub waited_ms : ℕ
  pub deliveries : ℕ
  pub bytes_in : ℕ

pub data LinkFault : Type 0 where
  not_parked stalled_fault send_failed recv_failed wrong_type : LinkFault
  send_timed_out : ℕ → ℕ → LinkFault
  timeout : Waited → LinkFault
  wrong_page : ℕ → ℕ → LinkFault

pub data Op : Type 0 where
  reading writing : ℕ → Op

-- What `noise_report` puts into words: how many bytes were discarded, and a sample of them.
pub record Discarded : Type 0 where
  pub total : ℕ
  pub sample : List ℕ

pub record Fault : Type 0 where
  pub kind : LinkFault
  pub op : Option Op
  pub platform : Option (List ℕ)
  pub status : Option (List ℕ)
  pub discarded : Option Discarded

-- `scratch` only saves an allocation and is left out.
pub record LinkInner (T : Type 0) : Type 0 where
  pub t : T
  pub op : Option Op
  pub mux : Mux
  pub console : List ℕ
  pub fault : Option Fault
  pub retries : ℕ
  pub stale_dropped : ℕ
  pub late_dropped : ℕ
  pub noise_sample_bytes : List ℕ
  pub noise_dropped : ℕ
  pub deliveries : ℕ
  pub bytes_in : ℕ
  pub blocked_ms : ℕ
  pub exchanges : ℕ

abbrev pub fresh_mux : Mux
fresh_mux = Mux.capturing_noise_capped noise_sample

abbrev pub new : {T : Type 0} → T → LinkInner T
new t = record {
  t = t;
  op = none;
  mux = fresh_mux;
  console = [];
  fault = none;
  retries = 0;
  stale_dropped = 0;
  late_dropped = 0;
  noise_sample_bytes = [];
  noise_dropped = 0;
  deliveries = 0;
  bytes_in = 0;
  blocked_ms = 0;
  exchanges = 0;
}

abbrev pub with_t : {T : Type 0} → T → LinkInner T → LinkInner T
with_t t l = record l { t = t }

abbrev pub with_mux : {T : Type 0} → Mux → LinkInner T → LinkInner T
with_mux m l = record l { mux = m }

-- The console bytes of the multiplexer go to the link's own.
unfoldable pub keep_console : {T : Type 0} → LinkInner T → LinkInner T
keep_console l =
    let taken = Mux.take_console l.mux in record l { mux = taken.1; console = l.console ++ taken.0 }

unfoldable pub absorb : {T : Type 0} → List ℕ → LinkInner T → LinkInner T
absorb bytes l = keep_console (record l {
  deliveries = usize (l.deliveries + 1);
  bytes_in = usize (l.bytes_in + length bytes);
  mux = Mux.push bytes l.mux;
})

abbrev pub nothing_noted : List ℕ × ℕ → Bool
nothing_noted ([], n) = n == 0
nothing_noted (b ∷ bs, n) = false

unfoldable pub stash_noise : {T : Type 0} → LinkInner T → LinkInner T
stash_noise l =
    let taken = Mux.take_noise l.mux in
    if nothing_noted taken.0 then with_mux taken.1 l else record l {
      mux = taken.1;
      noise_sample_bytes = taken.0.0;
      noise_dropped = usize (l.noise_dropped + taken.0.1);
    }

unfoldable pub resync : {T : Type 0} → LinkInner T → LinkInner T
resync l = with_mux fresh_mux (stash_noise (keep_console l))

unfoldable pub noise_report : {T : Type 0} → LinkInner T → Option Discarded × LinkInner T
noise_report l =
    let total = usize (length l.noise_sample_bytes + l.noise_dropped) in
    let after = record l { noise_sample_bytes = []; noise_dropped = 0 } in
    if total == 0
    then (none, after)
    else (some (record { total = total; sample = l.noise_sample_bytes }), after)

module _ {T : Type 0} ⦃tr : Transport T⦄ where
  unfoldable pub note : LinkFault → LinkInner T → Error × LinkInner T
  note kind l =
      let platform = tr.take_platform_fault l.t in
      let status = tr.status platform.1 in
      let reported = noise_report (stash_noise (with_t status.1 l)) in
      let fault : Fault = record {
        kind = kind;
        op = l.op;
        platform = platform.0;
        status = status.0;
        discarded = reported.0;
      } in
      (medium, record reported.1 { fault = some fault })

-- The loop over one response type, with fuel, and the number of frames it drops; one more than the
-- number of held frames is enough.
unfoldable pub drop_matching : ℕ → ℕ → Mux → ℕ × Mux
drop_matching zero ty m = (0, m)
drop_matching (suc fuel) ty m =
    let taken = take_matching ty m in
    elim taken.0 [
      | none ↦ (0, taken.1)
      | some f ↦ let rest = drop_matching fuel ty taken.1 in (rest.0 + 1, rest.1)
    ]

abbrev pub drop_all_matching : ℕ → Mux → ℕ × Mux
drop_all_matching ty m = drop_matching (suc (length m.held)) ty m

unfoldable pub discard_stale_responses : {T : Type 0} → LinkInner T → ℕ × LinkInner T
discard_stale_responses l =
    let reads = drop_all_matching ty_read_resp l.mux in
    let acks = drop_all_matching ty_write_ack reads.1 in
    let errs = drop_all_matching ty_err acks.1 in (reads.0 + acks.0 + errs.0, with_mux errs.1 l)

unfoldable pub frame_page : Frame → Option ℕ
frame_page (read_req page) = some page
frame_page (read_resp page _) = some page
frame_page (write_req page _) = some page
frame_page (write_ack page) = some page
frame_page (error _ page) = some page
frame_page (con_in _) = none
frame_page (con_out _) = none

unfoldable pub err_code : ℕ → Error
err_code code = if (code == 1) || (code == 2) then out_of_range else medium
