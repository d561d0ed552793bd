-- ===== src/Proto/Termination.antt =====
-- crates/rv64-proto/src/lib.rs: the loop of `next_frame` ends, and what it discards is counted.
use dc34_baonix.Base.{
  ℕ, zero, suc, ◌+◌, ◌-◌, ◌<◌, ◌≤◌, ◌≡◌, refl, ◌∙◌, ap, Option, length, take, drop, length-drop,
  arith, Bool-cases, Option-cases, inl, inr, from_le,
}
use dc34_baonix.Proto.{
  Frame, Decoder, Round, return, continue, discard, capture_noise, find_sync, finish, at_sync,
  round, next_loop, next_frame, header, trailer,
}

pub discard-buf : (n : ℕ) (d : Decoder) → (discard n d).buf ≡ drop n d.buf
unfolding discard capture_noise
discard-buf n d = elim (Bool-cases d.capture) [ inl h ↦ rw h refl | inr h ↦ rw h refl ]

pub length-discard : (n : ℕ) (d : Decoder) → length (discard n d).buf ≡ length d.buf - n
length-discard n d = ap length (discard-buf n d) ∙ length-drop n d.buf

-- A round that goes on has made the buffer shorter.
finish-shrinks :
    (len : ℕ) (d : Decoder) {d' : Decoder}
    → header ≤ length d.buf
    → finish len d ≡ continue d'
    → length d'.buf < length d.buf
unfolding finish
finish-shrinks len d long h =
    ground (arith, length-discard 2 d, length-drop (header + len + trailer) d.buf)

at_sync-shrinks :
    (d : Decoder) {d' : Decoder} → at_sync d ≡ continue d' → length d'.buf < length d.buf
unfolding at_sync
at_sync-shrinks d {d' = d'} h =
    let len = from_le (take 2 (drop 3 d.buf)) in
    ground (
      arith,
      length-discard 2 d,
      (λ (long : header ≤ length d.buf). finish-shrinks len d {d' = d'} long),
    )

-- After the SYNC has been moved to the front, at most as much is left.
pub round-shrinks :
    (d : Decoder) {d' : Decoder} → round d ≡ continue d' → length d'.buf < length d.buf
unfolding round
round-shrinks d {d' = d'} h = elim (Option-cases (find_sync d.buf)) [
  | inl none_there ↦ ground (arith, none_there)
  | inr (start, there) ↦ ground (
    arith,
    there,
    length-discard start d,
    at_sync-shrinks d {d' = d'},
    at_sync-shrinks (discard start d) {d' = d'},
  )
]

-- The rounds of the loop, one after the other, as many as the number says, up to the one that
-- returns.
pub data Returns (f : Option Frame) (e : Decoder) : ℕ → Decoder → Type 0 where
  last : (d : Decoder) → round d ≡ return f e → Returns f e 1 d
  again :
      (n : ℕ) (d d' : Decoder) → round d ≡ continue d' → Returns f e n d' → Returns f e (suc n) d

next_loop-Returns :
    (n : ℕ) (d : Decoder)
    → length d.buf < n
    → (k : ℕ) × (k ≤ n) × Returns (next_loop n d).0 (next_loop n d).1 k d
unfolding next_loop
next_loop-Returns zero d p = absurd (omega arith)
next_loop-Returns (suc n) d p = by_round (next_loop-Returns n) (round d) refl
  where
    by_round :
        ((e : Decoder)
          → length e.buf < n
          → (k : ℕ) × (k ≤ n) × Returns (next_loop n e).0 (next_loop n e).1 k e)
        → (r : Round) → round d ≡ r
        → (k : ℕ) × (k ≤ suc n) × Returns (next_loop (suc n) d).0 (next_loop (suc n) d).1 k d
    by_round more (return f e) eq = rw (eq, next_loop) (1, omega arith, last d eq)
    by_round more (continue e) eq =
        let shorter = round-shrinks d eq in
        let (k, few, rest) = more e (omega arith) in
        rw (eq, next_loop) (suc k, omega arith, again k d e eq rest)

-- `next_frame` ends: its result is what a round of the loop returns, after at most as many rounds as
-- the buffer has bytes, and that one.
pub next_frame-Returns :
    (d : Decoder) → (k : ℕ) × (k ≤ length d.buf + 1) × Returns (next_frame d).0 (next_frame d).1 k d
unfolding next_frame
next_frame-Returns d =
    let (k, few, rest) = next_loop-Returns (suc (length d.buf)) d (omega arith) in
    (k, omega arith, rest)
