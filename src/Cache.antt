-- ===== src/Cache.antt =====
-- crates/rv64/src/cache.rs: guest RAM, demand-paged over a backing store, with CLOCK eviction.
mod View
mod Moves
pub mod Valid
pub mod Resident
pub mod Memory
mod Tests
pub mod Bytes
use dc34_baonix.Base.{
  ℕ, zero, suc, ◌+◌, ◌-◌, ◌*◌, ◌/◌, ◌%◌, ◌^◌, min, Bool, true, false, not, ◌&&◌, ◌||◌, Option, none,
  some, List, [], ◌∷◌, ◌++◌, length, get_elem?, set, update, take, drop, ltb, leb, ◌==◌,
  if◌then◌else◌, Outcome, ok, err, panic, M, pure, fail, bind, ◌>>=◌, ◌>>◌, u16, u32, u64, to_le,
  from_le,
}
use dc34_baonix.Backing.{Page, Error, out_of_range, MemBacking, page_size, ram_base, ram_size}

pub record Stats : Type 0 where
  pub hits : ℕ
  pub misses : ℕ
  pub writebacks : ℕ
  pub evictions : ℕ
  pub declined : ℕ

abbrev pub no_stats : Stats
no_stats = record { hits = 0; misses = 0; writebacks = 0; evictions = 0; declined = 0 }

unfoldable pub check_range : ℕ → ℕ → Outcome Error (Unit {0})
check_range gpa len =
    if leb (2 ^ 64) (gpa + len)
    then err out_of_range
    else if ltb gpa ram_base || ltb (ram_base + ram_size) (gpa + len)
    then err out_of_range
    else ok tt

pub record Frame : Type 0 where
  pub page : ℕ
  pub dirty : Bool
  pub referenced : Bool
  pub pinned : Bool
  pub bytes : Page

abbrev pub ram_pages : ℕ
ram_pages = 8192

-- `slot_of` is the residency index: 0, or the frame's slot plus one.
pub record PageCache (T : Type 0) : Type 0 where
  pub backing : T
  pub frames : List Frame
  pub slot_of : ℕ → ℕ
  pub hand : ℕ
  pub capacity : ℕ
  pub stats : Stats

-- A frame as a miss brings it in.
abbrev pub fresh : ℕ → Page → Frame
fresh page d = record { page = page; dirty = false; referenced = true; pinned = false; bytes = d }

abbrev pub page_of : ℕ → ℕ
page_of gpa = u32 ((gpa - ram_base) / page_size)

-- `data[off..off + n]`, and the array after `copy_from_slice` there.
unfoldable pub slice : Page → ℕ → ℕ → List ℕ
slice d off zero = []
slice d off (suc n) = d off ∷ slice d (off + 1) n

unfoldable pub splice : Page → ℕ → List ℕ → Page
splice d off [] = d
splice d off (b ∷ bs) = update (splice d (off + 1) bs) off b

-- `iter().position(|f| !f.pinned)`
unfoldable pub unpinned : List Frame → Option ℕ
unpinned [] = none
unpinned (f ∷ fs) =
    let rest = unpinned fs in
    if f.pinned then (elim rest [ none ↦ none | some i ↦ some (suc i) ]) else some 0

-- `if hot.is_none() { hot = Some(i) }`
abbrev pub remember : Option ℕ → ℕ → Option ℕ
remember none i = some i
remember (some h) i = some h

module _ {T : Type 0} where
  -- `PageCache::new`, whose assertions panic.
  unfoldable pub new : T → ℕ → Outcome Error (PageCache T)
  new backing capacity =
      if leb 1 capacity && leb capacity ram_pages
      then ok (record {
        backing = backing;
        frames = [];
        slot_of = λ _. 0;
        hand = 0;
        capacity = capacity;
        stats = no_stats;
      })
      else panic

  unfoldable pub resident_slot : PageCache T → ℕ → Option ℕ
  resident_slot c page =
      if ltb page ram_pages
      then if c.slot_of page == 0 then none else some (c.slot_of page - 1)
      else none

  -- An index out of range panics.
  unfoldable pub set_resident : ℕ → ℕ → M (PageCache T) Error (Unit {0})
  set_resident page slot c =
      if ltb page ram_pages
      then (ok tt, record c { slot_of = update c.slot_of page (u16 (u16 slot + 1)) })
      else (panic, c)

  unfoldable pub clear_resident : ℕ → M (PageCache T) Error (Unit {0})
  clear_resident page c =
      if ltb page ram_pages
      then (ok tt, record c { slot_of = update c.slot_of page 0 })
      else (panic, c)

  -- `frames[i]`, read and written.
  unfoldable pub frame_at : ℕ → M (PageCache T) Error Frame
  frame_at i c = elim (get_elem? c.frames i) [ none ↦ (panic, c) | some f ↦ (ok f, c) ]

  unfoldable pub set_frame : ℕ → Frame → M (PageCache T) Error (Unit {0})
  set_frame i f c =
      if ltb i (length c.frames)
      then (ok tt, record c { frames = set c.frames i f })
      else (panic, c)

  unfoldable pub pin : ℕ → M (PageCache T) Error (Unit {0})
  pin page c = elim (resident_slot c page) [
    | none ↦ (ok tt, c)
    | some i ↦ bind (frame_at i c) (λ f. set_frame i (record f { pinned = true }))
  ]

  -- A call of the backing store.
  abbrev pub with_backing : {A : Type 0} → M T Error A → M (PageCache T) Error A
  with_backing m c = let r = m c.backing in (r.0, record c { backing = r.1 })

  -- Counters are `u64` and wrap.
  abbrev pub count_hit : PageCache T → PageCache T
  count_hit c = record c { stats = record c.stats { hits = u64 (c.stats.hits + 1) } }

  abbrev pub count_miss : PageCache T → PageCache T
  count_miss c = record c { stats = record c.stats { misses = u64 (c.stats.misses + 1) } }

  abbrev pub count_writeback : PageCache T → PageCache T
  count_writeback c = record c {
    stats = record c.stats { writebacks = u64 (c.stats.writebacks + 1) };
  }

  abbrev pub count_eviction : PageCache T → PageCache T
  count_eviction c = record c { stats = record c.stats { evictions = u64 (c.stats.evictions + 1) } }

  abbrev pub count_declined : PageCache T → PageCache T
  count_declined c = record c { stats = record c.stats { declined = u64 (c.stats.declined + 1) } }

  -- The loop of `select_victim`, with the rounds left; `none` when they are used up.
  unfoldable pub clock : ℕ → M (PageCache T) Error (Option ℕ)
  clock zero c = (ok none, c)
  clock (suc left) c =
      let moved = record c { hand = (c.hand + 1) % length c.frames } in
      elim (get_elem? c.frames c.hand) [
        | none ↦ (panic, moved)
        | some f ↦ elim f.pinned [
          | true ↦ clock left moved
          | false ↦ elim f.referenced [
            | true ↦
                clock left
                  (record moved { frames = set c.frames c.hand (record f { referenced = false }) })
            | false ↦ (ok (some c.hand), moved)
          ]
        ]
      ]

  -- What follows the loop: without a frame from it, the first that is not pinned.
  unfoldable pub settle : Option ℕ → M (PageCache T) Error ℕ
  settle (some i) c = (ok i, c)
  settle none c = elim (unpinned c.frames) [ none ↦ (panic, c) | some i ↦ (ok i, c) ]

  unfoldable pub select_victim : M (PageCache T) Error ℕ
  select_victim c = bind (clock (2 * length c.frames) c) settle

  -- The loop of `select_clean_victim` at round `k`, with the rounds left.
  unfoldable pub clean_scan : ℕ → ℕ → Option ℕ → M (PageCache T) Error (Option ℕ)
  clean_scan zero k hot c = elim hot [
    | none ↦ (ok none, c)
    | some i ↦ (ok (some i), record c { hand = (i + 1) % length c.frames })
  ]
  clean_scan (suc left) k hot c =
      let i = (c.hand + k) % length c.frames in
      elim (get_elem? c.frames i) [
        | none ↦ (panic, c)
        | some f ↦ elim (f.pinned || f.dirty) [
          | true ↦ clean_scan left (k + 1) hot c
          | false ↦ elim f.referenced [
            | false ↦ (ok (some i), record c { hand = (i + 1) % length c.frames })
            | true ↦ clean_scan left (k + 1) (remember hot i) c
          ]
        ]
      ]

  unfoldable pub select_clean_victim : M (PageCache T) Error (Option ℕ)
  select_clean_victim c = clean_scan (length c.frames) 0 none c
