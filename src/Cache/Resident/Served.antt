-- ===== src/Cache/Resident/Served.antt =====
-- `resident` of crates/rv64/src/cache.rs keeps the guest's memory, whatever the store does.
use dc34_baonix.Base.{
  ℕ, ◌+◌, ◌<◌, ◌≡◌, ◌≢◌, refl, ◌∙◌, sym, ap, inl, inr, true, none, some, length, get_elem?, set,
  ltb, leb, arith, Bool-cases, Option-cases, Outcome, ok, err, panic, bind, lt→ltb, ltb→lt,
  gt_of_leb, get_elem?-lt, get_elem?-set_self,
}
use mathlib.Core.Path.{subst}
use dc34_baonix.Backing.{Page, Error, MemBacking, IsFlatArray}
use dc34_baonix.Cache.{
  PageCache, Frame, ram_pages, resident_slot, frame_at, set_frame, with_backing, count_hit,
  count_miss, count_writeback, select_victim, select_clean_victim,
}
use dc34_baonix.Cache.View.{Consistent, view}
use dc34_baonix.Cache.Moves.{store-Consistent, view-store}
use dc34_baonix.Cache.Valid.{
  IsValid, Kept, Kept-refl, reflag-Swept, select_victim-Swept, select_victim_unpinned,
  select_clean_victim-Swept,
}
use dc34_baonix.Cache.Resident.Kept.{
  Served, Served-after, Served-bind, stats-Kept, frame_at-some, replace-Served, admit-Served,
  take_clean-Served,
}
use dc34_baonix.Cache.Resident.{touch, take_clean, after_writeback, offer, evict, place, resident}

module _ {T : Type 0} ⦃b : MemBacking T⦄ (contents : T → ℕ → Page)
    (flat : IsFlatArray b contents) where
  -- The dirty victim has been offered to the store, which took it or not.
  module _ (c : PageCache T) (i page : ℕ) (d : Page) (f : Frame) (v : IsValid contents c)
      (at_i : get_elem? c.frames i ≡ some f) (dirty : f.dirty ≡ true) (lt : page < ram_pages)
      (new : c.slot_of page ≡ 0) (read : d ≡ contents c.backing page) where
    abbrev offered : Outcome Error (Unit {0}) × PageCache T
    offered = with_backing (b.write_page f.page f.bytes) c

    apart : (q : ℕ) → f.page ≢ q → contents offered.1.backing q ≡ contents c.backing q
    apart q ne = flat.write_other f.page q f.bytes c.backing ne

    offered-Kept : Kept contents c offered.1
    offered-Kept = record {
      valid = store-Consistent v i f at_i (contents offered.1.backing) dirty apart;
      same = view-store v i f at_i (contents offered.1.backing) dirty apart;
      capacity = refl;
    }

    new_page : f.page ≢ page
    new_page e = absurd (omega (arith, v.indexed i f at_i, ap c.slot_of e))

    offered_read : d ≡ contents offered.1.backing page
    offered_read = read ∙ sym (apart page new_page)

    after-Served :
        (r : Outcome Error (Unit {0}))
        → offered.0 ≡ r
        → Served contents page offered.1 (after_writeback i page d (r, offered.1))
    unfolding after_writeback
    after-Served (ok _) e =
        Served-after contents (stats-Kept contents offered.1 _ offered-Kept.valid) (
          replace-Served contents (count_writeback offered.1) i page d f offered-Kept.valid at_i
            (sym (flat.write_ok f.page f.bytes c.backing offered.1.backing written)) lt new
            offered_read)
      where
        written : b.write_page f.page f.bytes c.backing ≡ (ok tt, offered.1.backing)
        written = ap (λ q. (q, offered.1.backing)) e
    after-Served panic e = record {
      kept = Kept-refl contents offered.1 offered-Kept.valid;
      has_page = λ j h. cc;
    }
    after-Served (err x) e =
        Served-bind contents (select_clean_victim offered.1) (take_clean x page d)
          (select_clean_victim-Swept contents offered.1 offered-Kept.valid).kept
          (λ o h.
            take_clean-Served contents x o offered.1 page d offered-Kept.valid h lt new
              offered_read)

  offer-Served :
      (c : PageCache T) (i page : ℕ) (d : Page) (f : Frame)
      → IsValid contents c
      → get_elem? c.frames i ≡ some f
      → page < ram_pages
      → c.slot_of page ≡ 0
      → d ≡ contents c.backing page
      → Served contents page c (offer page d i f c)
  unfolding offer
  offer-Served c i page d f v at_i lt new read = elim (Bool-cases f.dirty) [
    | inl dirty ↦ rw dirty (
        Served-after contents (offered-Kept c i page d f v at_i dirty lt new read)
          (after-Served c i page d f v at_i dirty lt new read _ refl))
    | inr clean ↦
        rw clean (replace-Served contents c i page d f v at_i (v.clean i f at_i clean) lt new read)
  ]

  -- The whole eviction.
  evict-Served :
      (c : PageCache T) (page : ℕ) (d : Page)
      → IsValid contents c
      → page < ram_pages
      → c.slot_of page ≡ 0
      → d ≡ contents c.backing page
      → Served contents page c (evict page d c)
  unfolding evict
  evict-Served c page d v lt new read =
      let s = select_victim-Swept contents c v in
      Served-bind contents (select_victim c) _ s.kept λ i h.
        let (f, at_i, up) = select_victim_unpinned contents c h in
        let found : frame_at i (select_victim c).1 ≡ (ok f, (select_victim c).1) =
          frame_at-some contents (select_victim c).1 i at_i in
        rw (found, bind)
          (offer-Served (select_victim c).1 i page d f s.kept.valid at_i lt
            (ap (λ q. q page) s.slots ∙ new) (read ∙ ap (λ t. contents t page) (sym s.store)))

  place-Served :
      (c : PageCache T) (page : ℕ) (d : Page)
      → IsValid contents c
      → page < ram_pages
      → c.slot_of page ≡ 0
      → d ≡ contents c.backing page
      → Served contents page c (place page d c)
  unfolding place
  place-Served c page d v lt new read = elim (Bool-cases (ltb (length c.frames) c.capacity)) [
    | inl room ↦ rw room (admit-Served contents c page d v (ltb→lt _ _ room) lt new read)
    | inr full ↦ rw full (evict-Served c page d v lt new read)
  ]

  slot_none :
      (c : PageCache T) (page : ℕ)
      → page < ram_pages
      → resident_slot c page ≡ none
      → c.slot_of page ≡ 0
  unfolding resident_slot
  slot_none c page lt h = ground arith

  touch_lem :
      (c : PageCache T) (i : ℕ) (f : Frame)
      → get_elem? c.frames i ≡ some f
      → touch i c
        ≡ (ok i, count_hit (record c { frames = set c.frames i (record f { referenced = true }) }))
  unfolding touch frame_at set_frame
  touch_lem c i f at_i =
      let in_frames = lt→ltb _ _ (get_elem?-lt c.frames i at_i) in ground (arith, at_i, in_frames)

  touch-Served :
      (c : PageCache T) (i page : ℕ)
      → IsValid contents c
      → resident_slot c page ≡ some i
      → Served contents page c (touch i c)
  unfolding resident_slot
  touch-Served c i page v h =
      let lt : page < ram_pages = ground arith in
      let slot : c.slot_of page ≡ i + 1 = ground arith in
      let (f, at_i, same) = v.held page i lt slot in
      let s = reflag-Swept contents c v i f (record f { referenced = true }) at_i refl refl refl in
      rw (touch_lem c i f at_i) (record {
        kept = record { valid = s.kept.valid; same = s.kept.same; capacity = refl };
        has_page = λ j e.
            let ij : i ≡ j = ground arith in
            (
              record f { referenced = true },
              ap (get_elem? (set c.frames i (record f { referenced = true }))) (sym ij)
                  ∙ get_elem?-set_self c.frames i (record f { referenced = true })
                      (get_elem?-lt c.frames i at_i),
              same,
            );
      })

  -- A page is made resident with the guest's memory kept, on every branch and whatever the store
  -- answers; on success the returned slot holds the page.
  pub resident-Served :
      (c : PageCache T) (page : ℕ) → IsValid contents c → Served contents page c (resident page c)
  unfolding resident
  resident-Served c page v = elim (Option-cases (resident_slot c page)) [
    | inr (i, hit) ↦ rw (hit, resident) (touch-Served c i page v hit)
    | inl miss ↦ elim (Bool-cases (leb ram_pages page)) [
      | inl out ↦
          rw (miss, resident, out) (record { kept = Kept-refl contents c v; has_page = λ i h. cc })
      | inr inside ↦
          rw (miss, resident, inside) (miss-Served (gt_of_leb ram_pages page inside) miss)
    ]
  ]
    where
      miss-Served :
          page < ram_pages
          → resident_slot c page ≡ none
          → Served contents page c
              (bind (with_backing (b.read_page page) (count_miss c)) (place page))
      miss-Served lt miss =
          let t = (b.read_page page c.backing).1 in
          let same : contents t ≡ contents c.backing = flat.read_same page c.backing in
          let valid = subst (λ m. Consistent m c.frames c.slot_of c.capacity) (sym same) v in
          let kept : Kept contents c (with_backing (b.read_page page) (count_miss c)).1 = record {
            valid = valid;
            same = λ p. ap (λ m. view m c.frames c.slot_of p) same;
            capacity = refl;
          } in
          Served-bind contents (with_backing (b.read_page page) (count_miss c)) (place page) kept
            λ d h.
              place-Served (record (count_miss c) { backing = t }) page d valid lt
                (slot_none c page lt miss)
                (flat.read_ok page c.backing t d (ap (λ q. (q.0, q.1.backing)) h)
                  ∙ ap (λ m. m page) (sym same))
