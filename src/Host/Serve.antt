-- ===== src/Host/Serve.antt =====
-- crates/rv64-host/src/serve.rs: the page server. A buffer is a list of bytes.
pub mod Order
pub mod Pages
pub mod Once
pub mod Replies
pub mod Reached
use dc34_baonix.Base.{
  ℕ, zero, suc, ◌+◌, ◌*◌, Bool, Option, none, some, List, [], ◌∷◌, ◌++◌, length, if◌then◌else◌, ltb,
  ◌≡◌,
}
use dc34_baonix.Proto.{
  Frame, read_req, read_resp, write_req, write_ack, error, con_out, con_in, encode, page_bytes,
}
use dc34_baonix.Proto.Mux
use dc34_baonix.Proto.Mux.{Mux, take_matching}
use dc34_baonix.Host.{Io, io_then, FileIo}

-- `out_of_range(start, len).is_err()`
abbrev pub out_of_range : ℕ → ℕ → Bool
out_of_range start len = ltb len (start + page_bytes)

module _ {F : Type 0} ⦃io : FileIo F⦄ where
  unfoldable pub read_page : ℕ → ℕ → Io F (List ℕ)
  read_page len page img =
      let start = page * page_bytes in
      if out_of_range start len
      then (none, img)
      else io_then (io.seek start img) (λ _. io.read_exact page_bytes)

  unfoldable pub write_page : ℕ → ℕ → List ℕ → Io F (Unit {0})
  write_page len page buf img =
      let start = page * page_bytes in
      if out_of_range start len
      then (none, img)
      else io_then (io.seek start img) (λ _. io.write_all buf)

abbrev pub read_reply : ℕ → Option (List ℕ) → Frame
read_reply page (some d) = read_resp page d
read_reply page none = error 1 page

abbrev pub write_reply : ℕ → Option (Unit {0}) → Frame
write_reply page (some _) = write_ack page
write_reply page none = error 2 page

-- What the loop of `serve_once` works on: the image, the multiplexer, the bytes to send back and
-- the requests answered (`Served`), each its type byte and its page.
pub record Server (F : Type 0) : Type 0 where
  pub img : F
  pub mux : Mux
  pub out : List ℕ
  pub answered : List (ℕ × ℕ)

-- `m.take_matching(0x01).or_else(|| m.take_matching(0x03))`
unfoldable pub next_request : Mux → Option Frame × Mux
next_request m =
    let (f, m') = take_matching 0x01 m in
    elim f [ some r ↦ (some r, m') | none ↦ take_matching 0x03 m' ]

module _ {F : Type 0} ⦃io : FileIo F⦄ where
  -- One request. `none` is the arm that panics as `unreachable`.
  unfoldable pub answer : ℕ → Frame → Server F → Option (Server F)
  answer len (read_req page) s =
      let (r, img) = read_page len page s.img in
      some (record s {
        img = img;
        out = encode (read_reply page r) s.out;
        answered = s.answered ++ (0x01, page) ∷ [];
      })
  answer len (write_req page d) s =
      let (r, img) = write_page len page d s.img in
      some (record s {
        img = img;
        out = encode (write_reply page r) s.out;
        answered = s.answered ++ (0x03, page) ∷ [];
      })
  answer len f s = none

  -- The loop, with fuel. A request that is answered is no longer held, so one more than the number
  -- of held frames is enough.
  unfoldable pub serve_loop : ℕ → ℕ → Server F → Option (Server F)
  serve_loop zero len s = some s
  serve_loop (suc fuel) len s =
      let (f, m) = next_request s.mux in
      elim f [
        | none ↦ some (record s { mux = m })
        | some r ↦ elim (answer len r (record s { mux = m })) [
          | none ↦ none
          | some s' ↦ serve_loop fuel len s'
        ]
      ]

  -- `serve_once` up to the end of its loop: the input is pushed and every request answered.
  unfoldable pub serve_requests : ℕ → List ℕ → F → Mux → List ℕ → Option (Server F)
  serve_requests len input img m out =
      let fed = Mux.push input m in
      serve_loop (suc (length fed.held)) len
        (record { img = img; mux = fed; out = out; answered = [] })
