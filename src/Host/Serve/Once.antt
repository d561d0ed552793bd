-- ===== src/Host/Serve/Once.antt =====
-- crates/rv64-host/src/serve.rs: `serve_once` whole, and the loop `serve_shared` around it. What is
-- written for the operator, on the standard error stream, is put into words by a parameter.
use dc34_baonix.Base.{
  ℕ, zero, suc, ◌+◌, ◌*◌, ◌/◌, Option, none, some, List, [], ◌∷◌, ◌++◌, length, take, drop, Bool,
  true, false, not, ◌&&◌, ◌||◌, if◌then◌else◌, ◌==◌, ltb, leb, get_or, from_le, Outcome, ok, err,
  panic,
}
use dc34_baonix.Proto.{find_sync}
use dc34_baonix.Proto.Mux
use dc34_baonix.Proto.Mux.{Mux}
use dc34_baonix.Host.{Io, io_then, FileIo}
use dc34_baonix.Host.Serve.{serve_requests}
use dc34_baonix.Host.Sending.{Sink, write_reply}
use dc34_baonix.Host.Trail.{Trail, Line, note, tally}

abbrev pub cdc_packet : ℕ
cdc_packet = 512

-- What `describe_reject` finds in bytes that were discarded: how many, where the frame-shaped part
-- begins, its type, its declared length, its page, and of a payload as large as two packets how
-- many whole blocks and which pairs of blocks are alike.
pub record Reject : Type 0 where
  pub discarded : ℕ
  pub at : ℕ
  pub ty : ℕ
  pub declared : ℕ
  pub page : Option ℕ
  pub blocks : Option (ℕ × List (ℕ × ℕ))

-- Where the page stands in the payload of a type.
abbrev pub page_at : ℕ → Option ℕ
page_at ty = if leb 1 ty && leb ty 4 then some 0 else if ty == 7 then some 2 else none

abbrev pub page_in : Option ℕ → List ℕ → Option ℕ
page_in none body = none
page_in (some o) body =
    if leb (o + 4) (length body) then some (from_le (take 4 (drop o body))) else none

-- `chunks(CDC_PACKET)`, with fuel; the number of bytes is enough.
unfoldable pub chunks : ℕ → List ℕ → List (List ℕ)
chunks zero l = []
chunks (suc fuel) [] = []
chunks (suc fuel) (b ∷ bs) = take cdc_packet (b ∷ bs) ∷ chunks fuel (drop cdc_packet (b ∷ bs))

abbrev pub same_block : List ℕ → List ℕ → Bool
same_block [] [] = true
same_block [] (c ∷ cs) = false
same_block (b ∷ bs) [] = false
same_block (b ∷ bs) (c ∷ cs) = (b == c) && same_block bs cs

-- The blocks after one, from this place on, that are like it.
unfoldable pub alike : ℕ → ℕ → List ℕ → List (List ℕ) → List (ℕ × ℕ)
alike i j b [] = []
alike i j b (c ∷ cs) =
    let rest = alike i (j + 1) b cs in if same_block b c then (i, j) ∷ rest else rest

unfoldable pub duplicates : ℕ → List (List ℕ) → List (ℕ × ℕ)
duplicates i [] = []
duplicates i (b ∷ bs) = alike i (i + 1) b bs ++ duplicates (i + 1) bs

unfoldable pub describe_reject : List ℕ → Option Reject
describe_reject noise = elim (find_sync noise) [
  | none ↦ none
  | some at ↦
      let rest = drop at noise in
      let ty = get_or rest 2 0 in
      let body = drop 5 rest in
      let data' = drop 4 body in
      if ltb (length rest) 5 || not (leb 1 ty && leb ty 7)
      then none
      else some (record {
        discarded = length noise;
        at = at;
        ty = ty;
        declared = from_le (take 2 (drop 3 rest));
        page = page_in (page_at ty) body;
        blocks =
            if leb (2 * cdc_packet) (length data')
            then some (length data' / cdc_packet, duplicates 0 (chunks (length data') data'))
            else none;
      })
]

-- The words for the operator.
pub record Wording : Type 0 where
  pub rejected : Reject → List ℕ
  pub dropped : ℕ → List ℕ
  pub duplicate : Line → List ℕ
  pub tallied : ℕ × ℕ → List ℕ

module _ {C : Type 0} ⦃con : Sink C⦄ where
  -- The guest's console, where it wrote anything.
  abbrev pub write_console : List ℕ → Io C (Unit {0})
  write_console [] c = (some tt, c)
  write_console (b ∷ bs) c = io_then (con.write_all (b ∷ bs) c) (λ _. con.flush)

module _ {L : Type 0} ⦃log : Sink L⦄ (words : Wording) where
  abbrev pub write_reject : Option Reject → Io L (Unit {0})
  write_reject none l = (some tt, l)
  write_reject (some r) l = log.write_all (words.rejected r) l

  -- The bytes that were no frame, verbatim, after a description of them.
  abbrev pub write_noise : List ℕ → Io L (Unit {0})
  write_noise [] l = (some tt, l)
  write_noise (b ∷ bs) l =
      io_then (write_reject (describe_reject (b ∷ bs)) l)
        (λ _ l1. io_then (log.write_all (b ∷ bs) l1) (λ _. log.flush))

  abbrev pub write_dropped : ℕ → Io L (Unit {0})
  write_dropped n l = if ltb 0 n then log.write_all (words.dropped n) l else (some tt, l)

  abbrev pub report : (List ℕ × ℕ) → Io L (Unit {0})
  report taken l = io_then (write_noise taken.0 l) (λ _. write_dropped taken.1)

  abbrev pub write_lines : List Line → Io L (Unit {0})
  write_lines [] l = (some tt, l)
  write_lines (x ∷ xs) l = io_then (log.write_all (words.duplicate x) l) (λ _. write_lines xs)

module _ {V : Type 0} ⦃tx : Sink V⦄ where
  abbrev pub send_reply : Option ℕ → List ℕ → Io V (Unit {0})
  send_reply pace [] v = (some tt, v)
  send_reply pace (b ∷ bs) v = write_reply (b ∷ bs) pace v

-- What the server works on: the image, the multiplexer, the console, the operator's stream, and the
-- wire back to the badge.
pub record Serving (F C L V : Type 0) : Type 0 where
  pub img : F
  pub mux : Mux
  pub con : C
  pub log : L
  pub tx : V
  pub trail : Trail

-- How the loop stands when it has had some reads.
pub data Stood : Type 0 where
  closed failed panicked waiting : Stood

module _ {F C L V : Type 0} ⦃io : FileIo F⦄ ⦃con : Sink C⦄ ⦃log : Sink L⦄ ⦃tx : Sink V⦄
    (words : Wording) where
  -- The requests answered and the bytes to send back; `err` is an `io::Error` of a stream.
  unfoldable pub serve_once :
      ℕ → List ℕ → Serving F C L V → Outcome (Unit {0}) (List (ℕ × ℕ) × List ℕ) × Serving F C L V
  serve_once len input s = elim (serve_requests len input s.img s.mux []) [
    | none ↦ (panic, s)
    | some r ↦
        let console = Mux.take_console r.mux in
        let noise = Mux.take_noise console.1 in
        let shown = write_console console.0 s.con in
        let logged = report words noise.0 s.log in
        elim shown.0 [
          | none ↦ (err tt, record s { img = r.img; mux = console.1; con = shown.1 })
          | some _ ↦
              let after = record s { img = r.img; mux = noise.1; con = shown.1; log = logged.1 } in
              elim logged.0 [ none ↦ (err tt, after) | some _ ↦ (ok (r.answered, r.out), after) ]
        ]
  ]

  -- What follows `serve_once` in a round: the lines for duplicates, and then the replies.
  abbrev pub reply :
      Option ℕ → List (ℕ × ℕ) → List ℕ → Serving F C L V → Option (Unit {0}) × Serving F C L V
  reply pace answered out s =
      let noted = note answered s.trail in
      let told = write_lines words noted.0 s.log in
      let sent = send_reply pace out s.tx in
      let after = record s { trail = noted.1; log = told.1 } in
      elim told.0 [ none ↦ (none, after) | some _ ↦ (sent.0, record after { tx = sent.1 }) ]

  -- The loop over the reads that return: the bytes read, where none at all is the end of the link,
  -- or an error.
  unfoldable pub serve_shared :
      ℕ → Option ℕ → List (Option (List ℕ)) → Serving F C L V → Stood × Serving F C L V
  serve_shared len pace [] s = (waiting, s)
  serve_shared len pace (none ∷ reads) s = (failed, s)
  serve_shared len pace (some [] ∷ reads) s =
      let told = log.write_all (words.tallied (tally s.trail)) s.log in
      elim told.0 [
        | none ↦ (failed, record s { log = told.1 })
        | some _ ↦ (closed, record s { log = told.1 })
      ]
  serve_shared len pace (some (b ∷ bs) ∷ reads) s =
      let once = serve_once len (b ∷ bs) s in
      elim once.0 [
        | panic ↦ (panicked, once.1)
        | err _ ↦ (failed, once.1)
        | ok done ↦
            let r = reply pace done.0 done.1 once.1 in
            elim r.0 [ none ↦ (failed, r.1) | some _ ↦ serve_shared len pace reads r.1 ]
      ]
