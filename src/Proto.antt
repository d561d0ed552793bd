-- ===== src/Proto.antt =====
-- crates/rv64-proto/src/lib.rs: the framed protocol between the badge and the host. Bytes are the
-- members of a list of numbers. The counter `dropped_noise` is a `usize`: it has the badge's 32
-- bits here, and 64 where the host runs the same code.
pub mod Crc
pub mod Termination
pub mod RoundTrip
pub mod Frames
pub mod Noise
pub mod Mux
mod Tests
use dc34_baonix.Base.{
  ℕ, zero, suc, ◌+◌, ◌-◌, ◌*◌, ◌/◌, ◌%◌, ◌^◌, min, Bool, true, false, not, ◌&&◌, ◌||◌, Option, none,
  some, List, [], ◌∷◌, ◌++◌, map, length, get_or, take, drop, if◌then◌else◌, ◌==◌, ltb, leb, to_le,
  from_le, u16, add_usize,
}
use dc34_baonix.Proto.Crc.{crc32}

abbrev pub sync : ℕ
sync = 0xB0C1

abbrev pub page_bytes : ℕ
page_bytes = 4096

abbrev pub header : ℕ
header = 5

abbrev pub trailer : ℕ
trailer = 4

abbrev pub max_payload : ℕ
max_payload = page_bytes + 4

-- A `Box<[u8; PAGE]>` is a list of `page_bytes` bytes.
pub data Frame : Type 0 where
  read_req : ℕ → Frame
  read_resp : ℕ → List ℕ → Frame
  write_req : ℕ → List ℕ → Frame
  write_ack : ℕ → Frame
  con_out : List ℕ → Frame
  con_in : List ℕ → Frame
  error : ℕ → ℕ → Frame

unfoldable pub type_byte : Frame → ℕ
type_byte (read_req _) = 0x01
type_byte (read_resp _ _) = 0x02
type_byte (write_req _ _) = 0x03
type_byte (write_ack _) = 0x04
type_byte (con_out _) = 0x05
type_byte (con_in _) = 0x06
type_byte (error _ _) = 0x07

-- `body` of `encode_frame_body`: the type, the length and the payload.
unfoldable pub body_of : ℕ → List ℕ → List ℕ
body_of ty payload = ty ∷ to_le 2 (u16 (length payload)) ++ payload

unfoldable pub encode_frame_body : ℕ → List ℕ → List ℕ → List ℕ
encode_frame_body ty payload out =
    out ++ to_le 2 sync ++ body_of ty payload ++ to_le 4 (crc32 (body_of ty payload))

-- The loop over `b.chunks(MAX_PAYLOAD)`, with fuel; the length of `b` is enough.
unfoldable pub encode_chunks : ℕ → ℕ → List ℕ → List ℕ → List ℕ
encode_chunks zero ty b out = out
encode_chunks (suc fuel) ty [] out = out
encode_chunks (suc fuel) ty (x ∷ xs) out =
    encode_chunks fuel ty (drop max_payload (x ∷ xs))
      (encode_frame_body ty (take max_payload (x ∷ xs)) out)

unfoldable pub encode_console : ℕ → List ℕ → List ℕ → List ℕ
encode_console ty [] out = encode_frame_body ty [] out
encode_console ty (x ∷ xs) out = encode_chunks (length (x ∷ xs)) ty (x ∷ xs) out

unfoldable pub encode : Frame → List ℕ → List ℕ
encode (con_out b) out = encode_console 0x05 b out
encode (con_in b) out = encode_console 0x06 b out
encode (read_req page) out = encode_frame_body 0x01 (to_le 4 page) out
encode (write_ack page) out = encode_frame_body 0x04 (to_le 4 page) out
encode (read_resp page data') out = encode_frame_body 0x02 (to_le 4 page ++ data') out
encode (write_req page data') out = encode_frame_body 0x03 (to_le 4 page ++ data') out
encode (error code page) out = encode_frame_body 0x07 (to_le 2 code ++ to_le 4 page) out

pub record Decoder : Type 0 where
  pub buf : List ℕ
  pub noise : List ℕ
  pub dropped_noise : ℕ
  pub capture : Bool
  pub noise_cap : ℕ

abbrev pub new : Decoder
new = record { buf = []; noise = []; dropped_noise = 0; capture = false; noise_cap = 0 }

abbrev pub capturing_noise_capped : ℕ → Decoder
capturing_noise_capped cap = record new { capture = true; noise_cap = cap }

unfoldable pub push : List ℕ → Decoder → Decoder
push bytes d = record d { buf = d.buf ++ bytes }

unfoldable pub take_noise : Decoder → (List ℕ × ℕ) × Decoder
take_noise d = ((d.noise, d.dropped_noise), record d { noise = []; dropped_noise = 0 })

unfoldable pub capture_noise : ℕ → Decoder → Decoder
capture_noise n d =
    let keep = min (d.noise_cap - length d.noise) n in
    record d {
      noise = d.noise ++ take keep d.buf;
      dropped_noise = add_usize d.dropped_noise (n - keep);
    }

abbrev pub drain : ℕ → Decoder → Decoder
drain n d = record d { buf = drop n d.buf }

unfoldable pub discard : ℕ → Decoder → Decoder
discard n d = drain n (if d.capture then capture_noise n d else d)

-- `windows(2).position(|w| w == s)`
unfoldable pub find_sync : List ℕ → Option ℕ
find_sync [] = none
find_sync (x ∷ rest) =
    if (x == sync % 256) && (get_or rest 0 0 == sync / 256)
    then some 0
    else elim (find_sync rest) [ none ↦ none | some i ↦ some (suc i) ]

-- `self.buf.last() == Some(&0xC1)`
unfoldable pub ends_in_half : List ℕ → Bool
ends_in_half [] = false
ends_in_half (x ∷ []) = x == sync % 256
ends_in_half (x ∷ y ∷ rest) = ends_in_half (y ∷ rest)

unfoldable pub decode_body : ℕ → List ℕ → Option Frame
decode_body ty p =
    let page = from_le (take 4 p) in
    let boxed = take page_bytes (drop 4 p) in
    if (ty == 0x01) && (length p == 4)
    then some (read_req page)
    else if (ty == 0x02) && (length p == 4 + page_bytes)
    then some (read_resp page boxed)
    else if (ty == 0x03) && (length p == 4 + page_bytes)
    then some (write_req page boxed)
    else if (ty == 0x04) && (length p == 4)
    then some (write_ack page)
    else if ty == 0x05
    then some (con_out p)
    else if ty == 0x06
    then some (con_in p)
    else if (ty == 0x07) && (length p == 6)
    then some (error (from_le (take 2 p)) (from_le (take 4 (drop 2 p))))
    else none

-- What a round of the loop of `next_frame` ends in: a return, or another round.
pub data Round : Type 0 where
  return : Option Frame → Decoder → Round
  continue : Decoder → Round

-- A frame that is all there: its body is `buf[2..HEADER + len]`.
unfoldable pub finish : ℕ → Decoder → Round
finish len d =
    let body = take (3 + len) (drop 2 d.buf) in
    let want = from_le (take 4 (drop (header + len) d.buf)) in
    if not (crc32 body == want)
    then continue (discard 2 d)
    else let rest = drain (header + len + trailer) d in
      elim (decode_body (get_or d.buf 2 0) (take len (drop header d.buf))) [
        | some f ↦ return (some f) rest
        | none ↦ continue rest
      ]

-- The buffer starts with a SYNC.
unfoldable pub at_sync : Decoder → Round
at_sync d =
    let len = from_le (take 2 (drop 3 d.buf)) in
    if ltb (length d.buf) header
    then return none d
    else if ltb max_payload len
    then continue (discard 2 d)
    else if ltb (length d.buf) (header + len + trailer)
    then return none d
    else finish len d

unfoldable pub round : Decoder → Round
round d = elim (find_sync d.buf) [
  | none ↦
      let keep = if ends_in_half d.buf then 1 else 0 in
      return none (discard (length d.buf - keep) d)
  | some start ↦ at_sync (if ltb 0 start then discard start d else d)
]

-- The loop, with fuel. A round that goes on has shortened the buffer, so one more than its length
-- is enough.
unfoldable pub next_loop : ℕ → Decoder → Option Frame × Decoder
next_loop zero d = (none, d)
next_loop (suc fuel) d = elim (round d) [ return f d' ↦ (f, d') | continue d' ↦ next_loop fuel d' ]

unfoldable pub next_frame : Decoder → Option Frame × Decoder
next_frame d = next_loop (suc (length d.buf)) d
