-- ===== src/Host/Sending.antt =====
-- crates/rv64-host/src/serve.rs: bytes put on the wire, in one piece or paced, and the keyboard's
-- bytes. An instance of `Sink` stands for a type with `Write`.
pub mod Paced
pub mod Keys
use dc34_baonix.Base.{
  ℕ, zero, suc, ◌+◌, Option, none, some, List, [], ◌∷◌, ◌++◌, length, take, drop, max, Bool, true,
  false, if◌then◌else◌, ◌==◌, ◌≡◌,
}
use dc34_baonix.Proto.{con_in, encode}
use dc34_baonix.Host.{Io, io_then}

pub record Sink (W : Type 0) : Type 0 where
  pub write_all : List ℕ → Io W (Unit {0})
  pub flush : Io W (Unit {0})

-- What the documentation says of a sink that keeps what it is given.
pub record IsSink {W : Type 0} (out : Sink W) (written : W → List ℕ) : Type 0 where
  pub write_ok :
      (l : List ℕ) (w w' : W) → out.write_all l w ≡ (some tt, w') → written w' ≡ written w ++ l
  pub flush_ok : (w w' : W) → out.flush w ≡ (some tt, w') → written w' ≡ written w

module _ {W : Type 0} ⦃sink : Sink W⦄ where
  -- The loop over `out.chunks(p.chunk.max(1))`, with fuel; the length of `out` is enough. The gap
  -- between two chunks changes no state.
  unfoldable pub write_chunks : ℕ → ℕ → List ℕ → Io W (Unit {0})
  write_chunks zero chunk out w = (some tt, w)
  write_chunks (suc fuel) chunk [] w = (some tt, w)
  write_chunks (suc fuel) chunk (b ∷ out) w =
      io_then (sink.write_all (take (max chunk 1) (b ∷ out)) w) (λ _ w'.
        io_then (sink.flush w') (λ _. write_chunks fuel chunk (drop (max chunk 1) (b ∷ out))))

  -- The pace is the size of its chunks.
  unfoldable pub write_reply : List ℕ → Option ℕ → Io W (Unit {0})
  write_reply out none w = io_then (sink.write_all out w) (λ _. sink.flush)
  write_reply out (some chunk) w = write_chunks (length out) chunk out w

abbrev pub quit_key : ℕ
quit_key = 0x03

abbrev pub escape_key : ℕ
escape_key = 0x1d

-- The loop over a read's bytes in `pump_input`: the payload, whether the last byte was an escape
-- that is still open, and whether the operator quit.
pub record Scan : Type 0 where
  pub payload : List ℕ
  pub escaped : Bool
  pub quit : Bool

abbrev pub typed : ℕ → Scan → Scan
typed b s = record s { payload = b ∷ s.payload }

unfoldable pub scan : Bool → List ℕ → Scan
scan escaped [] = record { payload = []; escaped = escaped; quit = false }
scan true (b ∷ bs) = typed b (scan false bs)
scan false (b ∷ bs) =
    if b == escape_key
    then scan true bs
    else if b == quit_key
    then record { payload = []; escaped = false; quit = true }
    else typed b (scan false bs)

-- How the pump stands when it has had some reads: it stopped as `InputEnd` says, a call failed, or
-- it waits for the next read with this state.
pub data InputEnd : Type 0 where
  quit eof failed : InputEnd
  waiting : Bool → InputEnd

module _ {W : Type 0} ⦃sink : Sink W⦄ where
  abbrev pub send_typed : List ℕ → Io W (Unit {0})
  send_typed [] w = (some tt, w)
  send_typed (b ∷ bs) w = write_reply (encode (con_in (b ∷ bs)) []) none w

  -- `pump_input` over the reads that return: the bytes read, where none at all is the end of the
  -- input, or an error.
  unfoldable pub pump_input : List (Option (List ℕ)) → Bool → W → InputEnd × W
  pump_input [] escaped w = (waiting escaped, w)
  pump_input (none ∷ reads) escaped w = (failed, w)
  pump_input (some [] ∷ reads) escaped w = (eof, w)
  pump_input (some (b ∷ bs) ∷ reads) escaped w =
      let s = scan escaped (b ∷ bs) in
      let sent = send_typed s.payload w in
      elim sent.0 [
        | none ↦ (failed, sent.1)
        | some _ ↦ if s.quit then (quit, sent.1) else pump_input reads s.escaped sent.1
      ]
