-- ===== src/Cache/Resident.antt =====
-- crates/rv64/src/cache.rs: `resident`, which makes a page resident and returns its slot, in the
-- steps of its body, and `flush`.
pub mod Kept
pub mod Served
use dc34_baonix.Base.{
  ℕ, zero, suc, ◌+◌, ◌-◌, Bool, true, false, Option, none, some, ◌∷◌, [], ◌++◌, length, get_elem?,
  set, ltb, leb, if◌then◌else◌, Outcome, ok, err, panic, M, bind, ◌>>=◌, ◌>>◌,
}
use dc34_baonix.Backing.{Page, Error, out_of_range, MemBacking}
use dc34_baonix.Cache.{
  PageCache, Frame, fresh, ram_pages, resident_slot, set_resident, clear_resident, frame_at,
  set_frame, with_backing, count_hit, count_miss, count_writeback, count_eviction, count_declined,
  select_victim, select_clean_victim,
}

module _ {T : Type 0} where
  -- A hit sets the reference bit.
  unfoldable pub touch : ℕ → M (PageCache T) Error ℕ
  touch i = do
    f ← frame_at i
    set_frame i (record f { referenced = true })
    λ c. (ok i, count_hit c)

  -- A miss while there is room appends a frame.
  unfoldable pub admit : ℕ → Page → M (PageCache T) Error ℕ
  admit page d c =
      bind
        (set_resident page (length c.frames)
          (record c { frames = c.frames ++ (fresh page d ∷ []) }))
        (λ _ c'. (ok (length c.frames), c'))

  -- The end of an eviction: the incoming page takes the victim's frame.
  unfoldable pub replace : ℕ → ℕ → Page → M (PageCache T) Error ℕ
  replace victim page d c = bind (frame_at victim (count_eviction c)) (λ old. do
    clear_resident old.page
    set_frame victim (fresh page d)
    set_resident page victim
    λ c'. (ok victim, c'))

  -- After a refused writeback a clean frame is taken instead; without one the error comes out.
  unfoldable pub take_clean : Error → ℕ → Page → Option ℕ → M (PageCache T) Error ℕ
  take_clean e page d none c = (err e, c)
  take_clean e page d (some i) c = replace i page d (count_declined c)

module _ {T : Type 0} ⦃b : MemBacking T⦄ where
  -- What follows the writeback of the dirty victim.
  unfoldable pub after_writeback :
      ℕ → ℕ → Page → Outcome Error (Unit {0}) × PageCache T → Outcome Error ℕ × PageCache T
  after_writeback victim page d (ok _, c) = replace victim page d (count_writeback c)
  after_writeback victim page d (panic, c) = (panic, c)
  after_writeback victim page d (err e, c) = bind (select_clean_victim c) (take_clean e page d)

  -- The victim is written back first if it is dirty.
  unfoldable pub offer : ℕ → Page → ℕ → Frame → M (PageCache T) Error ℕ
  offer page d victim f c =
      if f.dirty
      then after_writeback victim page d (with_backing (b.write_page f.page f.bytes) c)
      else replace victim page d c

  unfoldable pub evict : ℕ → Page → M (PageCache T) Error ℕ
  evict page d = do victim ← select_victim; f ← frame_at victim; offer page d victim f

  -- The page has been read; it goes to a new frame or to a victim's.
  unfoldable pub place : ℕ → Page → M (PageCache T) Error ℕ
  place page d c = if ltb (length c.frames) c.capacity then admit page d c else evict page d c

  unfoldable pub resident : ℕ → M (PageCache T) Error ℕ
  resident page c = elim (resident_slot c page) [
    | some i ↦ touch i c
    | none ↦
        if leb ram_pages page
        then (err out_of_range, c)
        else bind (with_backing (b.read_page page) (count_miss c)) (λ d. place page d)
  ]

  -- The loop of `flush` from frame `i`, with the frames left.
  unfoldable pub flush_from : ℕ → ℕ → M (PageCache T) Error (Unit {0})
  flush_from zero i c = (ok tt, c)
  flush_from (suc left) i c = elim (get_elem? c.frames i) [
    | none ↦ (panic, c)
    | some f ↦ elim f.dirty [
      | false ↦ flush_from left (i + 1) c
      | true ↦ bind (with_backing (b.write_page f.page f.bytes) c) (λ _ c'.
          bind (set_frame i (record f { dirty = false }) c')
            (λ _ c''. flush_from left (i + 1) (count_writeback c'')))
    ]
  ]

  unfoldable pub flush : M (PageCache T) Error (Unit {0})
  flush c = bind (flush_from (length c.frames) 0 c) (λ _. with_backing b.flush)
