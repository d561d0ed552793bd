-- ===== src/Proto/Noise.antt =====
-- crates/rv64-proto/src/lib.rs: the count of what the decoder discards.
use dc34_baonix.Base.{
  ℕ, ◌+◌, ◌-◌, ◌≤◌, ◌<◌, ◌^◌, ◌≡◌, refl, true, length, take, drop, min, arith, length-append,
  length-take, add_usize-fits,
}
use dc34_baonix.Proto.{Decoder, discard, capture_noise}

-- A capturing decoder that discards `n` bytes of its buffer keeps or counts each of them, whatever
-- the cap, and never keeps more bytes than the cap, as long as the count stays below 2^32.
pub discard-noise :
    (n : ℕ) (d : Decoder)
    → d.capture ≡ true
    → length d.noise ≤ d.noise_cap
    → n ≤ length d.buf
    → d.dropped_noise + n < 2 ^ 32
    → (length (discard n d).noise + (discard n d).dropped_noise
        ≡ length d.noise + d.dropped_noise + n)
      × (length (discard n d).noise ≤ (discard n d).noise_cap)
      × ((discard n d).buf ≡ drop n d.buf)
unfolding discard capture_noise
discard-noise n d on below there fits =
    let keep = min (d.noise_cap - length d.noise) n in
    let kept = length-append d.noise (take keep d.buf) in
    let taken = length-take keep d.buf in
    let counted = add_usize-fits d.dropped_noise (n - keep) (omega arith) in
    rw on (omega (arith, kept, taken, counted), omega (arith, kept, taken), refl)
