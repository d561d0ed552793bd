-- ===== src/Badge/Oled/Printable.antt =====
-- badge/app/src/oled.rs: the invariant of the grid.
use dc34_baonix.Base.{
  ℕ, zero, suc, ◌+◌, ◌-◌, ◌*◌, ◌/◌, ◌<◌, ◌≤◌, ◌≡◌, refl, ◌∙◌, List, [], ◌∷◌, ◌++◌, length, set,
  length-set, length-append, Bool, true, false, if◌then◌else◌, ◌==◌, ltb, min, arith, Bool-cases,
  inl, inr, ltb→lt,
}
use dc34_baonix.Badge.Oled.{
  Grid, Esc, ground_state, seen, csi, rows, cols, tab, space, spaces, blank_row, blank_rows, blank,
  rotate_left, newline, row_at, put_cell, write, write_times, is_shown, put_ground, in_escape, put,
  write_str, new, banner, ruler,
}

-- A row is as wide as the screen and holds only bytes that are shown.
abbrev AllShown : List ℕ → Type 0
AllShown [] = Unit
AllShown (b ∷ bs) = (is_shown b ≡ true) × AllShown bs

abbrev IsRow : List ℕ → Type 0
IsRow r = (length r ≡ cols) × AllShown r

abbrev AllRows : List (List ℕ) → Type 0
AllRows [] = Unit
AllRows (r ∷ rs) = IsRow r × AllRows rs

pub record IsValid (g : Grid) : Type 0 where
  pub height : length g.cells ≡ rows
  pub shown : AllRows g.cells
  pub row_inside : g.row < rows
  pub col_inside : g.col ≤ cols

AllShown-set : (r : List ℕ) (i b : ℕ) → AllShown r → is_shown b ≡ true → AllShown (set r i b)
AllShown-set [] i b h s = tt
AllShown-set (x ∷ r) zero b (h, hs) s = (s, hs)
AllShown-set (x ∷ r) (suc i) b (h, hs) s = (h, AllShown-set r i b hs s)

AllRows-set :
    (rs : List (List ℕ)) (i : ℕ) (r : List ℕ) → AllRows rs → IsRow r → AllRows (set rs i r)
AllRows-set [] i r h x = tt
AllRows-set (q ∷ rs) zero r (h, hs) x = (x, hs)
AllRows-set (q ∷ rs) (suc i) r (h, hs) x = (h, AllRows-set rs i r hs x)

AllRows-append : (rs : List (List ℕ)) (r : List ℕ) → AllRows rs → IsRow r → AllRows (rs ++ r ∷ [])
AllRows-append [] r h x = (x, tt)
AllRows-append (q ∷ rs) r (h, hs) x = (h, AllRows-append rs r hs x)

AllRows-rotate : (rs : List (List ℕ)) → AllRows rs → AllRows (rotate_left rs)
AllRows-rotate [] h = tt
AllRows-rotate (r ∷ rs) (h, hs) = AllRows-append rs r hs h

length-rotate : (rs : List (List ℕ)) → length (rotate_left rs) ≡ length rs
length-rotate [] = refl
length-rotate (r ∷ rs) = length-append rs (r ∷ []) ∙ omega arith

IsRow-row_at : (rs : List (List ℕ)) (i : ℕ) → AllRows rs → i < length rs → IsRow (row_at rs i)
IsRow-row_at [] i h lt = absurd (omega arith)
IsRow-row_at (r ∷ rs) zero (h, hs) lt = h
IsRow-row_at (r ∷ rs) (suc i) (h, hs) lt = IsRow-row_at rs i hs (omega arith)

AllShown-spaces : (n : ℕ) → AllShown (spaces n)
AllShown-spaces zero = tt
AllShown-spaces (suc n) = (refl, AllShown-spaces n)

IsRow-blank : IsRow blank_row
IsRow-blank = (refl, AllShown-spaces cols)

newline-IsValid : (g : Grid) → IsValid g → IsValid (newline g)
unfolding newline
newline-IsValid g v = elim (Bool-cases (ltb (g.row + 1) rows)) [
  | inl e ↦
      rw (e, newline)
        (record {
          height = v.height;
          shown = v.shown;
          row_inside = ltb→lt (g.row + 1) rows e;
          col_inside = v.col_inside;
        })
  | inr e ↦
      rw (e, newline)
        (record {
          height =
              length-set (rotate_left g.cells) (rows - 1) blank_row
              ∙ length-rotate g.cells
              ∙ v.height;
          shown =
              AllRows-set (rotate_left g.cells) (rows - 1) blank_row
                (AllRows-rotate g.cells v.shown) IsRow-blank;
          row_inside = v.row_inside;
          col_inside = v.col_inside;
        })
]

put_cell-IsValid :
    (b : ℕ) (g : Grid) → is_shown b ≡ true → g.col < cols → IsValid g → IsValid (put_cell b g)
put_cell-IsValid b g s room v =
    let here = IsRow-row_at g.cells g.row v.shown (omega (arith, v.height, v.row_inside)) in
    record {
      height = length-set g.cells g.row (set (row_at g.cells g.row) g.col b) ∙ v.height;
      shown = AllRows-set g.cells g.row (set (row_at g.cells g.row) g.col b) v.shown (
        length-set (row_at g.cells g.row) g.col b ∙ here.0,
        AllShown-set (row_at g.cells g.row) g.col b here.1 s,
      );
      row_inside = v.row_inside;
      col_inside = omega arith;
    }

newline-col : (g : Grid) → (newline g).col ≡ g.col
unfolding newline
newline-col g = elim (Bool-cases (ltb (g.row + 1) rows)) [
  | inl e ↦ rw (e, newline) refl
  | inr e ↦ rw (e, newline) refl
]

-- The cursor moved within the row.
col-IsValid : (c : ℕ) (g : Grid) → c ≤ cols → IsValid g → IsValid (record g { col = c })
col-IsValid c g h v = record {
  height = v.height;
  shown = v.shown;
  row_inside = v.row_inside;
  col_inside = h;
}

-- A mark or a state of the escape machine that is changed.
marked-IsValid :
    (d : Bool) (e : Esc) (g : Grid) → IsValid g → IsValid (record g { dirty = d; esc = e })
marked-IsValid d e g v = record {
  height = v.height;
  shown = v.shown;
  row_inside = v.row_inside;
  col_inside = v.col_inside;
}

write-IsValid : (b : ℕ) (g : Grid) → is_shown b ≡ true → IsValid g → IsValid (write b g)
unfolding write
write-IsValid b g s v = elim (Bool-cases (g.col == cols)) [
  | inl e ↦
      let start = record g { col = 0 } in
      rw (e, write)
        (put_cell-IsValid b (newline start) s (omega (arith, newline-col start))
          (newline-IsValid start (col-IsValid 0 g (omega arith) v)))
  | inr e ↦
      let inside = v.col_inside in
      let room : g.col < cols = ground (arith, inside) in
      rw (e, write) (put_cell-IsValid b g s room v)
]

write_times-IsValid : (n : ℕ) (g : Grid) → IsValid g → IsValid (write_times n g)
write_times-IsValid zero g v = v
write_times-IsValid (suc n) g v =
    write_times-IsValid n (write space g) (write-IsValid space g refl v)

if-IsValid :
    (b : Bool) {g h : Grid} → (b ≡ true → IsValid g) → IsValid h → IsValid (if b then g else h)
if-IsValid true p q = p refl
if-IsValid false p q = q

put_ground-IsValid : (b : ℕ) (g : Grid) → IsValid g → IsValid (put_ground b g)
unfolding put_ground
put_ground-IsValid b g v =
    let inside = v.col_inside in
    if-IsValid (b == 0x1b) (λ _. marked-IsValid g.dirty seen g v)
      (if-IsValid (b == 0x0a)
        (λ _. newline-IsValid (record g { col = 0 }) (col-IsValid 0 g (omega arith) v))
        (if-IsValid (b == 0x0d) (λ _. col-IsValid 0 g (omega arith) v)
          (if-IsValid (b == 0x08) (λ _. col-IsValid (g.col - 1) g (omega arith) v)
            (if-IsValid (b == 0x09)
              (λ _. write_times-IsValid (min ((g.col / tab + 1) * tab) cols - g.col) g v)
              (if-IsValid (is_shown b) (λ s. write-IsValid b g s v) v)))))

in_escape-IsValid : (e : Esc) (b : ℕ) (g : Grid) → IsValid g → IsValid (in_escape e b g)
in_escape-IsValid ground_state b g v = put_ground-IsValid b g v
in_escape-IsValid seen b g v = marked-IsValid g.dirty _ g v
in_escape-IsValid csi b g v = marked-IsValid g.dirty _ g v

-- Whatever byte the guest writes, the grid keeps its eight rows of sixteen cells, each cell a byte
-- that can be shown, and the cursor stays on the grid or one past the end of a row.
pub put-IsValid : (b : ℕ) (g : Grid) → IsValid g → IsValid (put b g)
unfolding put
put-IsValid b g v = in_escape-IsValid g.esc b _ (marked-IsValid true g.esc g v)

pub write_str-IsValid : (bs : List ℕ) (g : Grid) → IsValid g → IsValid (write_str bs g)
unfolding write_str
write_str-IsValid [] g v = v
write_str-IsValid (b ∷ bs) g v = write_str-IsValid bs (put b g) (put-IsValid b g v)

blank_rows-AllRows : (n : ℕ) → AllRows (blank_rows n)
blank_rows-AllRows zero = tt
blank_rows-AllRows (suc n) = (IsRow-blank, blank_rows-AllRows n)

pub blank-IsValid : IsValid blank
blank-IsValid = record {
  height = refl;
  shown = blank_rows-AllRows rows;
  row_inside = omega arith;
  col_inside = omega arith;
}

-- Any bytes written to a new grid leave it valid.
pub screen-IsValid : (bs : List ℕ) → IsValid (write_str bs new)
screen-IsValid bs =
    write_str-IsValid bs new
      (write_str-IsValid ruler _ (write_str-IsValid banner blank blank-IsValid))
