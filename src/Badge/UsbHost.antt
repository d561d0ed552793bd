-- ===== src/Badge/UsbHost.antt =====
-- badge/app/src/usbhost.rs: `Link` and `UsbHost`, the handles on the shared state of the link, and
-- the store of guest pages behind it.
pub mod Paging
pub mod Typing
use dc34_baonix.Base.{
  ℕ, Option, none, some, List, [], ◌∷◌, Bool, true, false, if◌then◌else◌, get_or, Outcome, ok, err,
  panic,
}
use dc34_baonix.Backing.{Error, medium, Page, page_size}
use dc34_baonix.Proto.{Frame, read_req, read_resp, write_req, write_ack, con_out, encode}
use dc34_baonix.Host.HostFile.{bytes_of, page_of}
use dc34_baonix.Badge.Link.{
  Transport, LinkInner, Fault, LinkFault, recv_failed, wrong_type, with_t, absorb, note,
  ty_read_resp, ty_write_ack,
}
use dc34_baonix.Badge.Link.Exchange.{exchange, absorb_some, send_fault}

-- The `Rc<RefCell<LinkInner>>`, which both handles reach. While it is borrowed, their calls do
-- nothing.
pub record Shared (T : Type 0) : Type 0 where
  pub inner : LinkInner T
  pub borrowed : Bool

abbrev pub with_inner : {T : Type 0} → LinkInner T → Shared T → Shared T
with_inner l s = record s { inner = l }

unfoldable pub take_console : {T : Type 0} → Shared T → List ℕ × Shared T
take_console s =
    if s.borrowed
    then ([], s)
    else (s.inner.console, with_inner (record s.inner { console = [] }) s)

abbrev pub retries : {T : Type 0} → Shared T → ℕ
retries s = if s.borrowed then 0 else s.inner.retries

abbrev pub stale_dropped : {T : Type 0} → Shared T → ℕ
stale_dropped s = if s.borrowed then 0 else s.inner.stale_dropped

abbrev pub late_dropped : {T : Type 0} → Shared T → ℕ
late_dropped s = if s.borrowed then 0 else s.inner.late_dropped

abbrev pub blocked : {T : Type 0} → Shared T → ℕ × ℕ
blocked s = if s.borrowed then (0, 0) else (s.inner.blocked_ms, s.inner.exchanges)

unfoldable pub take_fault : {T : Type 0} → Shared T → Option Fault × Shared T
take_fault s =
    if s.borrowed
    then (none, s)
    else (s.inner.fault, with_inner (record s.inner { fault = none }) s)

module _ {T : Type 0} ⦃tr : Transport T⦄ where
  unfoldable pub now_ms : Shared T → Option ℕ × Shared T
  now_ms s =
      let clock = tr.now_ms s.inner.t in
      if s.borrowed then (none, s) else (some clock.0, with_inner (with_t clock.1 s.inner) s)

  -- `None` is success, and `Some` the error that the caller sees.
  abbrev pub noted : LinkFault → LinkInner T → Shared T → Option Error × Shared T
  noted kind l s = let r = note kind l in (some r.0, with_inner r.1 s)

  unfoldable pub pump : Shared T → Option Error × Shared T
  pump s =
      let got = tr.poll s.inner.t in
      let l = record s.inner { op = none; t = got.1 } in
      if s.borrowed then (none, s) else elim got.0 [
        | some bytes ↦ (none, with_inner (absorb_some bytes l) s)
        | none ↦ noted recv_failed l s
      ]

  abbrev pub send_frame : List ℕ → Shared T → Option Error × Shared T
  send_frame out s =
      let sent = tr.send out s.inner.t in
      let l = record s.inner { op = none; t = sent.1 } in
      if s.borrowed
      then (none, s)
      else elim sent.0 [ none ↦ (none, with_inner l s) | some e ↦ noted (send_fault e) l s ]

  unfoldable pub send_console : List ℕ → Shared T → Option Error × Shared T
  send_console [] s = (none, s)
  send_console (b ∷ bs) s = send_frame (encode (con_out (b ∷ bs)) []) s

  -- The match of `read_page` on what the exchange returned.
  abbrev pub read_answer :
      Option (Outcome Error Frame) × LinkInner T → Option (Outcome Error Page) × LinkInner T
  read_answer (none, l) = (none, l)
  read_answer (some (err e), l) = (some (err e), l)
  read_answer (some panic, l) = (some panic, l)
  read_answer (some (ok (read_resp _ d)), l) = (some (ok (page_of d)), l)
  read_answer (some (ok _), l) = let r = note wrong_type l in (some (err r.0), r.1)

  -- With fuel for each wait; there is no result where it ran out.
  unfoldable pub read_page : ℕ → ℕ → Shared T → Option (Outcome Error Page) × Shared T
  read_page fuel page s =
      let r = read_answer (exchange fuel (read_req page) ty_read_resp s.inner) in
      if s.borrowed then (some (err medium), s) else (r.0, with_inner r.1 s)

  abbrev pub write_answer :
      Option (Outcome Error Frame) × LinkInner T → Option (Outcome Error (Unit {0})) × LinkInner T
  write_answer (none, l) = (none, l)
  write_answer (some (err e), l) = (some (err e), l)
  write_answer (some panic, l) = (some panic, l)
  write_answer (some (ok (write_ack _)), l) = (some (ok tt), l)
  write_answer (some (ok _), l) = let r = note wrong_type l in (some (err r.0), r.1)

  unfoldable pub write_page : ℕ → ℕ → Page → Shared T → Option (Outcome Error (Unit {0})) × Shared T
  write_page fuel page d s =
      let r = write_answer (exchange fuel (write_req page (bytes_of d)) ty_write_ack s.inner) in
      if s.borrowed then (some (err medium), s) else (r.0, with_inner r.1 s)
