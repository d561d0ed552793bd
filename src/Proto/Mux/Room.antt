-- ===== src/Proto/Mux/Room.antt =====
-- crates/rv64-proto/src/lib.rs: what a multiplexer holds is bounded by what has been pushed.
use dc34_baonix.Base.{
  ℕ, zero, suc, ◌+◌, ◌-◌, ◌<◌, ◌≤◌, ◌≡◌, refl, ◌∙◌, ap, none, some, List, ◌∷◌, length,
  length-append, take, drop, arith, Option-cases, inl, inr, from_le,
}
use dc34_baonix.Proto
use dc34_baonix.Proto.{
  Frame, read_req, read_resp, write_req, write_ack, error, con_out, con_in, Decoder, Round, return,
  continue, discard, find_sync, finish, at_sync, round, next_loop, next_frame, header, trailer,
}
use dc34_baonix.Proto.Termination.{length-discard, round-shrinks}
use dc34_baonix.Proto.Mux.{Mux, push, push_loop, sort_frame, take_matching}
use dc34_baonix.Proto.Mux.Matching.{take_matching_lem}
use dc34_baonix.Proto.Mux.Sorting.{next_frame-takes, sort_frame-dec}

finish-none : (len : ℕ) (d : Decoder) {e : Decoder} → finish len d ≡ return none e → ⊥
unfolding finish
finish-none len d h = ground arith

at_sync-waits :
    (d : Decoder) {e : Decoder} → at_sync d ≡ return none e → length e.buf ≤ length d.buf
unfolding at_sync
at_sync-waits d {e = e} h =
    let len = from_le (take 2 (drop 3 d.buf)) in
    ground (arith, (λ (r : finish len d ≡ return none e). finish-none len d r))

round-waits : (d : Decoder) {e : Decoder} → round d ≡ return none e → length e.buf ≤ length d.buf
unfolding round
round-waits d {e = e} h = elim (Option-cases (find_sync d.buf)) [
  | inl none_there ↦ ground (
    arith,
    none_there,
    length-discard (length d.buf) d,
    length-discard (length d.buf - 1) d,
    length-discard (length d.buf - 0) d,
  )
  | inr (start, there) ↦ ground (
    arith,
    there,
    length-discard start d,
    at_sync-waits d {e = e},
    at_sync-waits (discard start d) {e = e},
  )
]

next_loop-waits :
    (n : ℕ) (d : Decoder) → (next_loop n d).0 ≡ none → length (next_loop n d).1.buf ≤ length d.buf
unfolding next_loop
next_loop-waits zero d h = omega arith
next_loop-waits (suc n) d h = by_round (next_loop-waits n) (round d) refl
  where
    by_round :
        ((e : Decoder) → (next_loop n e).0 ≡ none → length (next_loop n e).1.buf ≤ length e.buf)
        → (r : Round) → round d ≡ r
        → length (next_loop (suc n) d).1.buf ≤ length d.buf
    by_round again (return none e) eq = rw (eq, next_loop) (round-waits d eq)
    by_round again (return (some g) e) eq = absurd (ground arith)
    by_round again (continue e) eq =
        let shorter = round-shrinks d eq in
        let none_there : (next_loop n e).0 ≡ none = ground arith in
        rw (eq, next_loop) (omega (arith, again e none_there))

-- The bytes still to be decoded, and the frames that are held.
abbrev pub room : Mux → ℕ
room m = length m.dec.buf + length m.held

sort_frame-held : (f : Frame) (m : Mux) → length (sort_frame f m).held ≤ length m.held + 1
unfolding sort_frame
sort_frame-held (read_req _) m = omega (arith, length-append m.held)
sort_frame-held (read_resp _ _) m = omega (arith, length-append m.held)
sort_frame-held (write_req _ _) m = omega (arith, length-append m.held)
sort_frame-held (write_ack _) m = omega (arith, length-append m.held)
sort_frame-held (con_out _) m = omega arith
sort_frame-held (con_in _) m = omega arith
sort_frame-held (error _ _) m = omega (arith, length-append m.held)

push_loop-room : (n : ℕ) (m : Mux) → room (push_loop n m) ≤ room m
unfolding push_loop next_loop next_frame
push_loop-room zero m = omega arith
push_loop-room (suc n) m = elim (Option-cases (next_frame m.dec).0) [
  | inl e ↦
      let waits = next_loop-waits (suc (length m.dec.buf)) m.dec e in
      rw (e, push_loop) (omega (arith, waits))
  | inr (f, e) ↦
      let moved = record m { dec = (next_frame m.dec).1 } in
      let shorter = next_frame-takes m.dec e in
      let held = sort_frame-held f moved in
      let left : length (sort_frame f moved).dec.buf ≡ length (next_frame m.dec).1.buf =
        ap (λ d. length d.buf) (sort_frame-dec f moved) in
      rw (e, push_loop) (omega (arith, push_loop-room n (sort_frame f moved)))
]

-- A push makes what is there longer by its bytes at most.
pub push-room : (bytes : List ℕ) (m : Mux) → room (push bytes m) ≤ room m + length bytes
unfolding push Proto.push
push-room bytes m = omega (
  arith,
  push_loop-room _ (record m { dec = Proto.push bytes m.dec }),
  length-append m.dec.buf bytes,
)

-- What taking a frame leaves.
taken_shorter :
    (want : ℕ) (m : Mux) {f : Frame}
    → (take_matching want m).0 ≡ some f
    → length (take_matching want m).1.held < length m.held
taken_shorter want m h = elim (take_matching_lem want m) [
  | inl (nowhere, e) ↦ absurd (ground (arith, e))
  | inr (g, rest, t, e) ↦
      let before = ap length t.stood ∙ length-append t.left (g ∷ t.right) in
      let after = ap length t.others ∙ length-append t.left t.right in
      let left : length (take_matching want m).1.held ≡ length rest = ap (λ r. length r.1.held) e in
      omega (arith, before, after, left)
]

not_longer : (want : ℕ) (m : Mux) → length (take_matching want m).1.held ≤ length m.held
not_longer want m = elim (Option-cases (take_matching want m).0) [
  | inr (f, e) ↦ omega (arith, taken_shorter want m e)
  | inl e ↦ elim (take_matching_lem want m) [
    | inl (nowhere, e') ↦ omega (arith, ap (λ r. length r.1.held) e')
    | inr (g, rest, t, e') ↦ absurd (ground (arith, e, e'))
  ]
]

dec_same : (want : ℕ) (m : Mux) → (take_matching want m).1.dec ≡ m.dec
dec_same want m = elim (take_matching_lem want m) [
  | inl (nowhere, e) ↦ ap (λ r. r.1.dec) e
  | inr (g, rest, t, e) ↦ ap (λ r. r.1.dec) e
]

pub room-not_longer : (want : ℕ) (m : Mux) → room (take_matching want m).1 ≤ room m
room-not_longer want m = omega (arith, not_longer want m, ap (λ d. length d.buf) (dec_same want m))

pub room-taken :
    (want : ℕ) (m : Mux) {f : Frame}
    → (take_matching want m).0 ≡ some f
    → room (take_matching want m).1 < room m
room-taken want m h =
    omega (arith, taken_shorter want m h, ap (λ d. length d.buf) (dec_same want m))
