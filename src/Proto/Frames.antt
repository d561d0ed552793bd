-- ===== src/Proto/Frames.antt =====
-- crates/rv64-proto/src/lib.rs: what a frame's message holds, and its way through the decoder.
use dc34_baonix.Base.{
  length-to_le, ℕ, zero, suc, ◌+◌, ◌^◌, ◌<◌, ◌≤◌, ◌≡◌, refl, ◌∙◌, ap, some, List, [], ◌∷◌, ◌++◌,
  length, take, drop, length-append, arith, to_le, from_le, ==_iff,
}
use mathlib.Core.Path.{ap₂}
use dc34_baonix.Proto.{
  Decoder, Frame, read_req, read_resp, write_req, write_ack, con_out, con_in, error, type_byte,
  next_loop, next_frame, max_payload, page_bytes, encode, encode_console, encode_chunks,
  encode_frame_body, decode_body,
}
use dc34_baonix.Proto.RoundTrip.{
  from_le-to_le, take_at, drop_at, wire, encode_frame_body-wire, round-wire,
}

-- The numbers fit their fields, a page is a whole page and a console frame fits one message.
unfoldable pub IsSendable : Frame → Type 0
IsSendable (read_req page) = page < 2 ^ 32
IsSendable (read_resp page d) = (page < 2 ^ 32) × (length d ≡ page_bytes)
IsSendable (write_req page d) = (page < 2 ^ 32) × (length d ≡ page_bytes)
IsSendable (write_ack page) = page < 2 ^ 32
IsSendable (con_out b) = length b ≤ max_payload
IsSendable (con_in b) = length b ≤ max_payload
IsSendable (error code page) = (code < 2 ^ 16) × (page < 2 ^ 32)

abbrev pub payload : Frame → List ℕ
payload (read_req page) = to_le 4 page
payload (read_resp page d) = to_le 4 page ++ d
payload (write_req page d) = to_le 4 page ++ d
payload (write_ack page) = to_le 4 page
payload (con_out b) = b
payload (con_in b) = b
payload (error code page) = to_le 2 code ++ to_le 4 page

take_all : (n : ℕ) (xs : List ℕ) → length xs ≤ n → take n xs ≡ xs
take_all zero [] h = refl
take_all zero (x ∷ xs) h = absurd (omega arith)
take_all (suc n) [] h = refl
take_all (suc n) (x ∷ xs) h = ap (λ l. x ∷ l) (take_all n xs (omega arith))

drop_all : (n : ℕ) (xs : List ℕ) → length xs ≤ n → drop n xs ≡ []
drop_all zero [] h = refl
drop_all zero (x ∷ xs) h = absurd (omega arith)
drop_all (suc n) [] h = refl
drop_all (suc n) (x ∷ xs) h = drop_all n xs (omega arith)

no_chunks : (n ty : ℕ) (out : List ℕ) → encode_chunks n ty [] out ≡ out
unfolding encode_chunks
no_chunks zero ty out = refl
no_chunks (suc n) ty out = refl

encode_console_one :
    (ty : ℕ) (b : List ℕ)
    → length b ≤ max_payload
    → encode_console ty b [] ≡ encode_frame_body ty b []
unfolding encode_console encode_chunks encode_frame_body
encode_console_one ty [] h = refl
encode_console_one ty (x ∷ xs) h =
    rw (encode_chunks, take_all max_payload (x ∷ xs) h, drop_all max_payload (x ∷ xs) h)
      (no_chunks (length xs) ty _)

payload-length : (f : Frame) → IsSendable f → length (payload f) ≤ max_payload
unfolding IsSendable
payload-length (read_req page) s = omega (arith, length-to_le 4 page)
payload-length (write_ack page) s = omega (arith, length-to_le 4 page)
payload-length (read_resp page d) s =
    omega (arith, length-append (to_le 4 page) d, length-to_le 4 page, s.1)
payload-length (write_req page d) s =
    omega (arith, length-append (to_le 4 page) d, length-to_le 4 page, s.1)
payload-length (con_out b) s = s
payload-length (con_in b) s = s
payload-length (error code page) s =
    omega
      (arith, length-append (to_le 2 code) (to_le 4 page), length-to_le 2 code, length-to_le 4 page)

encode-body :
    (f : Frame) → IsSendable f → encode f [] ≡ encode_frame_body (type_byte f) (payload f) []
unfolding encode IsSendable type_byte
encode-body (read_req page) s = refl
encode-body (write_ack page) s = refl
encode-body (read_resp page d) s = refl
encode-body (write_req page d) s = refl
encode-body (con_out b) s = encode_console_one 5 b s
encode-body (con_in b) s = encode_console_one 6 b s
encode-body (error code page) s = refl

page_payload :
    (page : ℕ) (d : List ℕ)
    → page < 2 ^ 32
    → length d ≡ page_bytes
    → (length (to_le 4 page ++ d) ≡ 4 + page_bytes)
      × (from_le (take 4 (to_le 4 page ++ d)) ≡ page)
      × (take page_bytes (drop 4 (to_le 4 page ++ d)) ≡ d)
page_payload page d h n = (
  omega (arith, length-append (to_le 4 page) d, length-to_le 4 page),
  ap from_le (take_at (to_le 4 page) d (length-to_le 4 page)) ∙ from_le-to_le 4 page h,
  ap (take page_bytes) (drop_at (to_le 4 page) d 0 {n = 4} (omega (arith, length-to_le 4 page)))
      ∙ take_all page_bytes d (omega arith),
)

decode-pages :
    (page : ℕ) (d : List ℕ)
    → page < 2 ^ 32
    → length d ≡ page_bytes
    → (decode_body 2 (to_le 4 page ++ d) ≡ some (read_resp page d))
      × (decode_body 3 (to_le 4 page ++ d) ≡ some (write_req page d))
unfolding decode_body
decode-pages page d h n =
    let (len, number, bytes) = page_payload page d h n in
    let whole = (==_iff (length (to_le 4 page ++ d)) (4 + page_bytes)).1 len in
    (
      rw whole (ap₂ (λ p b. some (read_resp p b)) number bytes),
      rw whole (ap₂ (λ p b. some (write_req p b)) number bytes),
    )

decode-payload : (f : Frame) → IsSendable f → decode_body (type_byte f) (payload f) ≡ some f
unfolding decode_body IsSendable type_byte to_le
decode-payload (read_req page) s = ap (λ p. some (read_req p)) (from_le-to_le 4 page s)
decode-payload (write_ack page) s = ap (λ p. some (write_ack p)) (from_le-to_le 4 page s)
decode-payload (read_resp page d) (h, n) = (decode-pages page d h n).0
decode-payload (write_req page d) (h, n) = (decode-pages page d h n).1
decode-payload (con_out b) s = refl
decode-payload (con_in b) s = refl
decode-payload (error code page) (c, p) =
    ap₂ (λ a b. some (error a b)) (from_le-to_le 2 code c) (from_le-to_le 4 page p)

-- A frame that can be sent, encoded and followed by any bytes in an empty decoder's buffer, is what
-- `next_frame` returns, and exactly the following bytes are left; nothing counts as noise.
pub next_frame-encode :
    (f : Frame) (rest : List ℕ) (d : Decoder)
    → IsSendable f
    → next_frame (record d { buf = encode f [] ++ rest }) ≡ (some f, record d { buf = rest })
unfolding next_frame next_loop
next_frame-encode f rest d s =
    let on_wire : encode f [] ++ rest ≡ wire (type_byte f) (payload f) rest =
      ap (λ l. l ++ rest) (encode-body f s)
      ∙ encode_frame_body-wire (type_byte f) (payload f) rest in
    let first =
      round-wire (type_byte f) (payload f) rest d f (payload-length f s) (decode-payload f s) in
    rw (on_wire, first, next_loop) refl
