-- ===== src/Badge/Oled.antt =====
-- badge/app/src/oled.rs: the character grid of the display, and the sink that draws it.
pub mod Escapes
pub mod Printable
use dc34_baonix.Base.{
  ℕ, zero, suc, ◌+◌, ◌-◌, ◌*◌, ◌/◌, ◌%◌, ◌^◌, min, Option, none, some, List, [], ◌∷◌, ◌++◌, length,
  take, drop, set, get_or, Bool, true, false, ◌&&◌, not, if◌then◌else◌, ◌==◌, ltb, leb,
}

abbrev pub cols : ℕ
cols = 16

abbrev pub rows : ℕ
rows = 8

abbrev pub tab : ℕ
tab = 8

abbrev pub alert_after : ℕ
alert_after = 3

abbrev pub heartbeat_chars : List ℕ
heartbeat_chars = 0x7c ∷ 0x2f ∷ 0x2d ∷ 0x5c ∷ []

abbrev pub space : ℕ
space = 0x20

pub data Esc : Type 0 where
  ground_state seen csi : Esc

-- `cells` is the list of the rows, each the list of its cells.
pub record Grid : Type 0 where
  pub cells : List (List ℕ)
  pub row : ℕ
  pub col : ℕ
  pub dirty : Bool
  pub esc : Esc

abbrev pub spaces : ℕ → List ℕ
spaces zero = []
spaces (suc n) = space ∷ spaces n

abbrev pub blank_row : List ℕ
blank_row = spaces cols

abbrev pub blank_rows : ℕ → List (List ℕ)
blank_rows zero = []
blank_rows (suc n) = blank_row ∷ blank_rows n

abbrev pub blank : Grid
blank = record { cells = blank_rows rows; row = 0; col = 0; dirty = true; esc = ground_state }

abbrev pub rotate_left : List (List ℕ) → List (List ℕ)
rotate_left [] = []
rotate_left (r ∷ rs) = rs ++ r ∷ []

unfoldable pub newline : Grid → Grid
newline g =
    if ltb (g.row + 1) rows
    then record g { row = g.row + 1 }
    else record g { cells = set (rotate_left g.cells) (rows - 1) blank_row }

-- The row at an index; the cursor's row is always there.
abbrev pub row_at : List (List ℕ) → ℕ → List ℕ
row_at [] i = []
row_at (r ∷ rs) zero = r
row_at (r ∷ rs) (suc i) = row_at rs i

abbrev pub put_cell : ℕ → Grid → Grid
put_cell b g = record g {
  cells = set g.cells g.row (set (row_at g.cells g.row) g.col b);
  col = g.col + 1;
}

unfoldable pub write : ℕ → Grid → Grid
write b g = put_cell b (if g.col == cols then newline (record g { col = 0 }) else g)

abbrev pub write_times : ℕ → Grid → Grid
write_times zero g = g
write_times (suc n) g = write_times n (write space g)

-- `b.is_ascii_graphic() || b == b' '`
abbrev pub is_shown : ℕ → Bool
is_shown b = leb 0x20 b && leb b 0x7e

-- The match on the byte, outside an escape sequence.
unfoldable pub put_ground : ℕ → Grid → Grid
put_ground b g =
    if b == 0x1b
    then record g { esc = seen }
    else if b == 0x0a
    then newline (record g { col = 0 })
    else if b == 0x0d
    then record g { col = 0 }
    else if b == 0x08
    then record g { col = g.col - 1 }
    else if b == 0x09
    then write_times (min ((g.col / tab + 1) * tab) cols - g.col) g
    else if is_shown b
    then write b g
    else g

abbrev pub in_escape : Esc → ℕ → Grid → Grid
in_escape ground_state b g = put_ground b g
in_escape seen b g = record g { esc = if b == 0x5b then csi else ground_state }
in_escape csi b g = record g { esc = if leb 0x40 b && leb b 0x7e then ground_state else csi }

unfoldable pub put : ℕ → Grid → Grid
put b g = in_escape g.esc b (record g { dirty = true })

-- `write_str`
unfoldable pub write_str : List ℕ → Grid → Grid
write_str [] g = g
write_str (b ∷ bs) g = write_str bs (put b g)

-- "rv64 emu 16x8\n" and "0123456789abcdef\n"
abbrev pub banner : List ℕ
banner =
    0x72 ∷ 0x76 ∷ 0x36 ∷ 0x34 ∷ 0x20 ∷ 0x65 ∷ 0x6d ∷ 0x75 ∷ 0x20 ∷ 0x31 ∷ 0x36 ∷ 0x78 ∷ 0x38 ∷ 0x0a
    ∷ []

abbrev pub ruler : List ℕ
ruler =
    0x30 ∷ 0x31 ∷ 0x32 ∷ 0x33 ∷ 0x34 ∷ 0x35 ∷ 0x36 ∷ 0x37 ∷ 0x38 ∷ 0x39 ∷ 0x61 ∷ 0x62 ∷ 0x63 ∷ 0x64
    ∷ 0x65 ∷ 0x66 ∷ 0x0a ∷ []

abbrev pub new : Grid
new = write_str ruler (write_str banner blank)

abbrev pub take_dirty : Grid → Bool × Grid
take_dirty g = (g.dirty, record g { dirty = false })

-- The trait `Screen`: `draw` says whether it succeeded.
pub record Screen (S : Type 0) : Type 0 where
  pub draw : List ℕ → S → Bool × S
  pub alert : S → S

pub record OledSink (S : Type 0) : Type 0 where
  pub grid : Grid
  pub screen : S
  pub pending : Bool
  pub beat : ℕ
  pub heartbeat : Bool
  pub frames : ℕ
  pub fails : ℕ
  pub streak : ℕ

abbrev pub u32_of : ℕ → ℕ
u32_of n = n % 2 ^ 32

abbrev pub joined_rows : List (List ℕ) → List ℕ
joined_rows [] = []
joined_rows (r ∷ []) = r
joined_rows (r ∷ q ∷ rs) = r ++ 0x0a ∷ joined_rows (q ∷ rs)

-- `set_last` writes the heartbeat where the last cell is blank.
abbrev pub set_last : ℕ → List ℕ → List ℕ
set_last c [] = []
set_last c (b ∷ []) = (if b == space then c else b) ∷ []
set_last c (b ∷ a ∷ bs) = b ∷ set_last c (a ∷ bs)

unfoldable pub frame : {S : Type 0} → OledSink S → List ℕ
frame k =
    let buf = joined_rows (take rows k.grid.cells) in
    if k.heartbeat then set_last (get_or heartbeat_chars (k.beat % 4) 0) buf else buf

module _ {S : Type 0} ⦃scr : Screen S⦄ where
  unfoldable pub flush : OledSink S → OledSink S
  flush k =
      let pending = if k.grid.dirty then true else k.pending in
      let seen_clean = record k { grid = record k.grid { dirty = false }; pending = pending } in
      let drawn = scr.draw (frame seen_clean) k.screen in
      let streak = k.streak + 1 in
      if not pending
      then seen_clean
      else if drawn.0
      then record seen_clean {
        screen = drawn.1;
        pending = false;
        frames = u32_of (k.frames + 1);
        streak = 0;
      }
      else record seen_clean {
        screen = if streak == alert_after then scr.alert drawn.1 else drawn.1;
        fails = u32_of (k.fails + 1);
        streak = streak;
      }

  unfoldable pub with_screen : S → OledSink S
  with_screen s = flush (record {
    grid = new;
    screen = s;
    pending = true;
    beat = 0;
    heartbeat = true;
    frames = 0;
    fails = 0;
    streak = 0;
  })

unfoldable pub tick : {S : Type 0} → OledSink S → OledSink S
tick k = record k { beat = (k.beat + 1) % 2 ^ 64; pending = true }

abbrev pub set_heartbeat : {S : Type 0} → Bool → OledSink S → OledSink S
set_heartbeat on k = record k { heartbeat = on; pending = true }

abbrev pub sink_put : {S : Type 0} → ℕ → OledSink S → OledSink S
sink_put b k = record k { grid = put b k.grid }
