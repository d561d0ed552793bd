-- ===== src/Cache/View.antt =====
-- The memory that a page cache stands for, over its parts: what the backing store holds (`m`), the
-- frames, and the residency index (`slot_of`). A resident page is the frame's, any other the store's.
use dc34_baonix.Base.{
  ℕ, ◌+◌, ◌-◌, ◌≤◌, ◌<◌, ◌≡◌, ◌∙◌, ap, ◌⊎◌, inl, inr, false, Option, none, some, List, length,
  get_elem?, ltb, ◌==◌, if◌then◌else◌, arith, Bool-cases, ltb→lt,
}
use dc34_baonix.Backing.{Page}
use dc34_baonix.Cache.{Frame, ram_pages}

-- The frame that holds a page.
pub holder : List Frame → (ℕ → ℕ) → ℕ → Option Frame
holder frames slot_of p =
    if ltb p ram_pages
    then (if slot_of p == 0 then none else get_elem? frames (slot_of p - 1))
    else none

unfoldable pub view : (ℕ → Page) → List Frame → (ℕ → ℕ) → ℕ → Page
unfolding holder
view m frames slot_of p = elim (holder frames slot_of p) [ none ↦ m p | some f ↦ f.bytes ]

-- The index and the frames name each other, there is room, and a clean frame is as in the store.
pub record Consistent (m : ℕ → Page) (frames : List Frame) (slot_of : ℕ → ℕ) (capacity : ℕ)
    : Type 0 where
  pub bounded : length frames ≤ capacity
  pub positive : 1 ≤ capacity
  pub fits : capacity ≤ ram_pages
  pub in_ram : (i : ℕ) (f : Frame) → get_elem? frames i ≡ some f → f.page < ram_pages
  pub indexed : (i : ℕ) (f : Frame) → get_elem? frames i ≡ some f → slot_of f.page ≡ i + 1
  pub held :
      (p i : ℕ)
      → p < ram_pages
      → slot_of p ≡ i + 1
      → (f : Frame) × (get_elem? frames i ≡ some f) × (f.page ≡ p)
  pub clean :
      (i : ℕ) (f : Frame) → get_elem? frames i ≡ some f → f.dirty ≡ false → f.bytes ≡ m f.page

pub view_absent :
    (m : ℕ → Page) (frames : List Frame) (slot_of : ℕ → ℕ) (p : ℕ)
    → (p < ram_pages → slot_of p ≡ 0)
    → view m frames slot_of p ≡ m p
unfolding view
view_absent m frames slot_of p h = elim (Bool-cases (ltb p ram_pages)) [
  | inr out ↦ ground arith
  | inl inside ↦ let z : slot_of p ≡ 0 = h (ltb→lt _ _ inside) in ground arith
]

module _ {m : ℕ → Page} {frames : List Frame} {slot_of : ℕ → ℕ} {capacity : ℕ}
    (v : Consistent m frames slot_of capacity) where
  pub holder_frame :
      (i : ℕ) (f : Frame) → get_elem? frames i ≡ some f → holder frames slot_of f.page ≡ some f
  unfolding holder
  holder_frame i f h =
      let slot : slot_of f.page ≡ i + 1 = v.indexed i f h in
      let same : slot_of f.page - 1 ≡ i = omega arith in
      let at_slot : get_elem? frames (slot_of f.page - 1) ≡ some f =
        ap (get_elem? frames) same ∙ h in
      ground (arith, v.in_ram i f h)

  pub view_frame :
      (i : ℕ) (f : Frame) → get_elem? frames i ≡ some f → view m frames slot_of f.page ≡ f.bytes
  unfolding view
  view_frame i f h = ground (arith, holder_frame i f h)

  -- A page is held by a frame, or is not resident.
  pub holder_cases :
      (p : ℕ)
      → ((holder frames slot_of p ≡ none) × ((p < ram_pages) → slot_of p ≡ 0))
        ⊎ ((i : ℕ) × (f : Frame) × (holder frames slot_of p ≡ some f)
            × (get_elem? frames i ≡ some f)
            × (f.page ≡ p)
            × (slot_of p ≡ i + 1)
            × (p < ram_pages))
  unfolding holder
  holder_cases p = elim (Bool-cases (ltb p ram_pages)) [
    | inr out ↦ inl (ground arith, λ h. absurd (ground arith))
    | inl inside ↦ elim (Bool-cases (slot_of p == 0)) [
      | inl none_there ↦ inl (ground arith, λ _. ground arith)
      | inr some_there ↦
          let e : slot_of p ≡ slot_of p - 1 + 1 = ground arith in
          let lt : p < ram_pages = ltb→lt _ _ inside in
          let (f, at_slot, same_page) = v.held p (slot_of p - 1) lt e in
          inr (slot_of p - 1, f, ground arith, at_slot, same_page, e, lt)
    ]
  ]

  -- Two slots do not hold one page.
  pub slot_unique :
      (i j : ℕ) (f g : Frame)
      → get_elem? frames i ≡ some f
      → get_elem? frames j ≡ some g
      → f.page ≡ g.page
      → i ≡ j
  slot_unique i j f g hi hj e =
      let both : slot_of f.page ≡ slot_of g.page = ap slot_of e in
      omega (arith, v.indexed i f hi, v.indexed j g hj, both)
