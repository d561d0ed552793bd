-- ===== src/Cache/Bytes/Slices.antt =====
-- Slices of byte arrays, and the guest's bytes by address.
use dc34_baonix.Base.{
  ℕ, zero, suc, ◌+◌, ◌%◌, ◌<◌, ◌≤◌, ◌≡◌, refl, ◌∙◌, sym, ap, ◌⊎◌, some, List, [], ◌∷◌, ◌++◌, length,
  get_elem?, arith,
}
use mathlib.Core.Path.{ap₂}
use dc34_baonix.Backing.{Page, page_size, ram_base, ram_size}
use dc34_baonix.Cache.{PageCache, slice, splice, page_of}
use dc34_baonix.Cache.Valid.{mem}

pub slice-append :
    (d : Page) (off n k : ℕ) → slice d off (n + k) ≡ slice d off n ++ slice d (off + n) k
unfolding slice
slice-append d off zero k =
    let e : 0 + k ≡ k = omega arith in let e' : off + 0 ≡ off = omega arith in rw (e, e')
slice-append d off (suc n) k =
    let e : suc n + k ≡ suc (n + k) = omega arith in
    let e' : off + suc n ≡ off + 1 + n = omega arith in
    rw (e, e') (ap (◌∷◌ (d off)) (slice-append d (off + 1) n k))

pub slice_agree :
    (n : ℕ) (d e : Page) (i j : ℕ)
    → ((k : ℕ) → k < n → d (i + k) ≡ e (j + k))
    → slice d i n ≡ slice e j n
unfolding slice
slice_agree zero d e i j h = refl
slice_agree (suc n) d e i j h =
    let i0 : i + 0 ≡ i = omega arith in
    let j0 : j + 0 ≡ j = omega arith in
    let first : d i ≡ e j = ap d (sym i0) ∙ h 0 (omega arith) ∙ ap e j0 in
    ap₂ ◌∷◌ first (
      slice_agree n d e (i + 1) (j + 1) (λ k lt.
        let ik : i + suc k ≡ i + 1 + k = omega arith in
        let jk : j + suc k ≡ j + 1 + k = omega arith in
        ap d (sym ik) ∙ h (suc k) (omega arith) ∙ ap e jk))

pub length-slice : (n : ℕ) (d : Page) (off : ℕ) → length (slice d off n) ≡ n
unfolding slice
length-slice zero d off = refl
length-slice (suc n) d off = ap suc (length-slice n d (off + 1))

-- A splice leaves the bytes outside.
pub splice_outside :
    (bs : List ℕ) (d : Page) (off j : ℕ)
    → (j < off) ⊎ (off + length bs ≤ j)
    → splice d off bs j ≡ d j
unfolding splice
splice_outside [] d off j h = refl
splice_outside (b ∷ bs) d off j h = ground (arith, splice_outside bs d (off + 1) j)

-- And puts the new ones inside.
pub splice_inside :
    (bs : List ℕ) (d : Page) (off j : ℕ)
    → j < length bs
    → get_elem? bs j ≡ some (splice d off bs (off + j))
unfolding splice
splice_inside [] d off j h = absurd (omega arith)
splice_inside (b ∷ bs) d off zero h = ground arith
splice_inside (b ∷ bs) d off (suc j) h =
    let e : off + suc j ≡ off + 1 + j = omega arith in
    rw e (ground (arith, splice_inside bs d (off + 1) j))

-- An address of guest RAM.
abbrev pub InRam : ℕ → Type 0
InRam a = (ram_base ≤ a) × (a < ram_base + ram_size)

-- The guest's byte at an address.
abbrev pub byte_at : {T : Type 0} → (T → ℕ → Page) → PageCache T → ℕ → ℕ
byte_at contents c a = mem contents c (page_of a) (a % page_size)

-- Addresses of one page.
pub page_of-add : (a k : ℕ) → InRam a → a % page_size + k < page_size → page_of (a + k) ≡ page_of a
page_of-add a k r h = omega arith

pub offset-add : (a k : ℕ) → a % page_size + k < page_size → (a + k) % page_size ≡ a % page_size + k
offset-add a k h = omega arith
