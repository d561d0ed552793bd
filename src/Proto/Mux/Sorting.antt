-- ===== src/Proto/Mux/Sorting.antt =====
-- crates/rv64-proto/src/lib.rs: the loop of `Mux::push` ends, and sorts the frames in their order.
use dc34_baonix.Base.{
  ℕ, zero, suc, ◌+◌, ◌<◌, ◌≤◌, ◌≡◌, refl, ap, none, some, List, [], ◌∷◌, ◌++◌, length, length-drop,
  arith, inl, inr, Option-cases, from_le, take, drop,
}
use dc34_baonix.Proto.{
  Frame, con_out, con_in, read_req, read_resp, write_req, write_ack, error, Decoder, Round, return,
  continue, next_frame, next_loop, round, finish, at_sync, encode, header, trailer, find_sync,
  discard,
}
use dc34_baonix.Proto.Termination.{length-discard, round-shrinks}
use dc34_baonix.Proto.Frames.{IsSendable}
use dc34_baonix.Proto.Mux.{Mux, push_loop, sort_frame}

-- A frame that is returned has left a shorter buffer.
finish-takes :
    (len : ℕ) (d : Decoder) {f : Frame} {d' : Decoder}
    → header ≤ length d.buf
    → finish len d ≡ return (some f) d'
    → length d'.buf < length d.buf
unfolding finish
finish-takes len d long h =
    ground (arith, length-discard 2 d, length-drop (header + len + trailer) d.buf)

at_sync-takes :
    (d : Decoder) {f : Frame} {d' : Decoder}
    → at_sync d ≡ return (some f) d'
    → length d'.buf < length d.buf
unfolding at_sync
at_sync-takes d {f = f} {d' = d'} h =
    let len = from_le (take 2 (drop 3 d.buf)) in
    ground (
      arith,
      length-discard 2 d,
      (λ (long : header ≤ length d.buf). finish-takes len d {f = f} {d' = d'} long),
    )

round-takes :
    (d : Decoder) {f : Frame} {d' : Decoder}
    → round d ≡ return (some f) d'
    → length d'.buf < length d.buf
unfolding round
round-takes d {f = f} {d' = d'} h = elim (Option-cases (find_sync d.buf)) [
  | inl none_there ↦ ground (arith, none_there)
  | inr (start, there) ↦ ground (
    arith,
    there,
    length-discard start d,
    at_sync-takes d {f = f} {d' = d'},
    at_sync-takes (discard start d) {f = f} {d' = d'},
  )
]

next_loop-takes :
    (n : ℕ) (d : Decoder) {f : Frame} {d' : Decoder}
    → next_loop n d ≡ (some f, d')
    → length d'.buf < length d.buf
unfolding next_loop
next_loop-takes zero d h = ground arith
next_loop-takes (suc n) d {f = f} {d' = d'} h =
    by_round (λ e. next_loop-takes n e {f = f} {d' = d'}) (round d) refl
  where
    by_round :
        ((e : Decoder) → next_loop n e ≡ (some f, d') → length d'.buf < length e.buf)
        → (r : Round) → round d ≡ r
        → length d'.buf < length d.buf
    by_round again (return none e) eq = ground arith
    by_round again (return (some g) e) eq = ground (arith, round-takes d eq)
    by_round again (continue e) eq = ground (arith, round-shrinks d eq, again e)

-- Parting the frames does not touch the decoder.
pub sort_frame-dec : (f : Frame) (m : Mux) → (sort_frame f m).dec ≡ m.dec
unfolding sort_frame
sort_frame-dec (read_req _) m = refl
sort_frame-dec (read_resp _ _) m = refl
sort_frame-dec (write_req _ _) m = refl
sort_frame-dec (write_ack _) m = refl
sort_frame-dec (con_out _) m = refl
sort_frame-dec (con_in _) m = refl
sort_frame-dec (error _ _) m = refl

pub next_frame-takes :
    (d : Decoder) {f : Frame}
    → (next_frame d).0 ≡ some f
    → length (next_frame d).1.buf < length d.buf
unfolding next_frame
next_frame-takes d {f = f} h =
    next_loop-takes (suc (length d.buf)) d {f = f} (ap (λ o. (o, (next_frame d).1)) h)

-- The loop of `push` ends: any two amounts of fuel above the length of the buffer give the same
-- multiplexer.
pub push_loop_enough :
    (n m : ℕ) (x : Mux)
    → length x.dec.buf < n
    → length x.dec.buf < m
    → push_loop n x ≡ push_loop m x
unfolding push_loop
push_loop_enough zero m x p q = absurd (omega arith)
push_loop_enough (suc n) zero x p q = absurd (omega arith)
push_loop_enough (suc n) (suc m) x p q = elim (Option-cases (next_frame x.dec).0) [
  | inl e ↦ rw (e, push_loop) refl
  | inr (f, e) ↦
      let after = sort_frame f (record x { dec = (next_frame x.dec).1 }) in
      let shorter = next_frame-takes x.dec e in
      let left : length after.dec.buf ≡ length (next_frame x.dec).1.buf =
        ap (λ d. length d.buf) (sort_frame-dec f (record x { dec = (next_frame x.dec).1 })) in
      rw (e, push_loop) (push_loop_enough n m after (omega arith) (omega arith))
]

-- The bytes of the frames, one after the other.
abbrev pub wire_of : List Frame → List ℕ
wire_of [] = []
wire_of (f ∷ fs) = encode f [] ++ wire_of fs

abbrev pub sort_all : List Frame → Mux → Mux
sort_all [] m = m
sort_all (f ∷ fs) m = sort_all fs (sort_frame f m)

abbrev pub AllSendable : List Frame → Type 0
AllSendable [] = Unit
AllSendable (f ∷ fs) = IsSendable f × AllSendable fs
