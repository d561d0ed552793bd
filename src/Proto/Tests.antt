-- ===== src/Proto/Tests.antt =====
-- Messages of the protocol.
use dc34_baonix.Base.{ℕ, ◌+◌, ◌≤◌, length, ◌≡◌, refl, some, [], ◌∷◌, ◌++◌, arith}
use dc34_baonix.Proto.{Decoder, error, new, encode, next_frame}
use dc34_baonix.Proto.{discard, capturing_noise_capped}
use dc34_baonix.Proto.Noise.{discard-noise}
use dc34_baonix.Proto.Crc.{crc32, crc_bytes, crc_bits, crc_bit}
use dc34_baonix.Proto.Frames.{IsSendable, next_frame-encode}
use dc34_baonix.Proto.Termination.{Returns, next_frame-Returns}

-- The check value of CRC-32/ISO-HDLC, of the text "123456789".
crc32_check :
    crc32 (0x31 ∷ 0x32 ∷ 0x33 ∷ 0x34 ∷ 0x35 ∷ 0x36 ∷ 0x37 ∷ 0x38 ∷ 0x39 ∷ []) ≡ 0xCBF4_3926
unfolding crc32 crc_bytes crc_bits crc_bit
crc32_check = refl

sendable : IsSendable (error 7 9)
unfolding IsSendable
sendable = (omega arith, omega arith)

next_frame-encode_example :
    next_frame (record new { buf = encode (error 7 9) [] ++ (0xC1 ∷ 5 ∷ []) })
    ≡ (some (error 7 9), record new { buf = 0xC1 ∷ 5 ∷ [] })
next_frame-encode_example = next_frame-encode (error 7 9) (0xC1 ∷ 5 ∷ []) new sendable

abbrev noisy : Decoder
noisy = record new { buf = 0xC1 ∷ 0xB0 ∷ 1 ∷ 255 ∷ 255 ∷ 0xC1 ∷ [] }

next_frame-Returns_example :
    (k : ℕ) × (k ≤ length noisy.buf + 1) × Returns (next_frame noisy).0 (next_frame noisy).1 k noisy
next_frame-Returns_example = next_frame-Returns noisy

-- Three bytes of noise, and room for two.
abbrev small : Decoder
small = record (capturing_noise_capped 2) { buf = 1 ∷ 2 ∷ 3 ∷ 4 ∷ [] }

discard-noise_example :
    (length (discard 3 small).noise + (discard 3 small).dropped_noise ≡ 3)
    × (length (discard 3 small).noise ≤ (discard 3 small).noise_cap)
    × ((discard 3 small).buf ≡ 4 ∷ [])
discard-noise_example = discard-noise 3 small refl (omega arith) (omega arith) (omega arith)
