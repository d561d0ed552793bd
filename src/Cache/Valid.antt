-- ===== src/Cache/Valid.antt =====
-- The invariant of a page cache over a backing store, and what a sweep for a victim keeps.
use dc34_baonix.Base.{
  ℕ, zero, suc, ◌+◌, ◌*◌, ◌%◌, ◌≡◌, refl, ◌∙◌, sym, ap, ◌⊎◌, inl, inr, false, ◌||◌, Option, none,
  some, List, [], ◌∷◌, length, get_elem?, set, if◌then◌else◌, ◌==◌, arith, Bool-cases, ==_iff,
  ==_ne, Option-cases, length-set, ok, bind-keeps, bind-eq-ok,
}
use mathlib.Core.Path.{subst, subst₂}
use dc34_baonix.Backing.{Page}
use dc34_baonix.Cache.{
  PageCache, Frame, clock, settle, select_victim, clean_scan, select_clean_victim, unpinned,
  remember,
}
use native.Mathlib.Decide.{ℕ_discrete}
use dc34_baonix.Cache.View.{Consistent, view, view_frame}
use dc34_baonix.Cache.Moves.{set-Consistent, view-set}

module _ {T : Type 0} (contents : T → ℕ → Page) where
  abbrev pub IsValid : PageCache T → Type 0
  IsValid c = Consistent (contents c.backing) c.frames c.slot_of c.capacity

  -- The page of guest memory that the cache stands for.
  abbrev pub mem : PageCache T → ℕ → Page
  mem c = view (contents c.backing) c.frames c.slot_of

  -- Valid still, and the same guest memory.
  pub record Kept (c c' : PageCache T) : Type 0 where
    pub valid : IsValid c'
    pub same : (p : ℕ) → mem c' p ≡ mem c p
    pub capacity : c'.capacity ≡ c.capacity

  -- What a search for a victim leaves: the frames' flags may change, and the hand.
  pub record Swept (c c' : PageCache T) : Type 0 where
    pub kept : Kept c c'
    pub store : c'.backing ≡ c.backing
    pub slots : c'.slot_of ≡ c.slot_of
    pub count : length c'.frames ≡ length c.frames

  pub Kept-refl : (c : PageCache T) → IsValid c → Kept c c
  Kept-refl c v = record { valid = v; same = λ p. refl; capacity = refl }

  pub Kept-trans : {a c d : PageCache T} → Kept a c → Kept c d → Kept a d
  Kept-trans k l = record {
    valid = l.valid;
    same = λ p. l.same p ∙ k.same p;
    capacity = l.capacity ∙ k.capacity;
  }

  Swept-trans : {a c d : PageCache T} → Swept a c → Swept c d → Swept a d
  Swept-trans k l = record {
    kept = Kept-trans k.kept l.kept;
    store = l.store ∙ k.store;
    slots = l.slots ∙ k.slots;
    count = l.count ∙ k.count;
  }

  -- A frame is given anew with its page, its bytes and its dirty bit.
  pub reflag-Swept :
      (c : PageCache T)
      → IsValid c
      → (i : ℕ) (f f' : Frame) → get_elem? c.frames i ≡ some f
      → f'.page ≡ f.page
      → f'.bytes ≡ f.bytes
      → f'.dirty ≡ f.dirty
      → Swept c (record c { frames = set c.frames i f' })
  reflag-Swept c v i f f' at_i ep eb ed =
      let cl : f'.dirty ≡ false → f'.bytes ≡ contents c.backing f.page =
        λ d. eb ∙ v.clean i f at_i (sym ed ∙ d) in
      record {
        kept = record {
          valid = set-Consistent v i f at_i f' ep cl;
          same = λ p. view-set v i f at_i f' ep cl p ∙ unchanged p;
          capacity = refl;
        };
        store = refl;
        slots = refl;
        count = length-set c.frames i f';
      }
    where
      unchanged : (p : ℕ) → (if f.page == p then f'.bytes else mem c p) ≡ mem c p
      unchanged p = elim (ℕ_discrete f.page p) [
        | yes e ↦ rw ((==_iff f.page p).1 e) (eb ∙ sym (view_frame v i f at_i) ∙ ap (mem c) e)
        | no ne ↦ rw (==_ne f.page p ne)
      ]

  Swept-refl : (c : PageCache T) → IsValid c → Swept c c
  Swept-refl c v = record { kept = Kept-refl c v; store = refl; slots = refl; count = refl }

  hand-Swept : (c : PageCache T) (hand : ℕ) → IsValid c → Swept c (record c { hand = hand })
  hand-Swept c hand v = record {
    kept = record { valid = v; same = λ p. refl; capacity = refl };
    store = refl;
    slots = refl;
    count = refl;
  }

  next : PageCache T → PageCache T
  next d = record d { hand = (d.hand + 1) % length d.frames }

  next-Swept : (c : PageCache T) → IsValid c → Swept c (next c)
  unfolding next
  next-Swept c v = hand-Swept c _ v

  -- The CLOCK sweep, on every outcome, keeps the guest's memory.
  clock-Swept : (n : ℕ) (c : PageCache T) → IsValid c → Swept c (clock n c).1
  unfolding clock next
  clock-Swept zero c v = Swept-refl c v
  clock-Swept (suc n) c v = elim (Option-cases (get_elem? c.frames c.hand)) [
    | inl e ↦ rw (e, clock) (next-Swept c v)
    | inr (f, at_hand) ↦ elim (Bool-cases f.pinned) [
      | inl p ↦ rw (at_hand, clock, p) (Swept-trans (next-Swept c v) (clock-Swept n (next c) v))
      | inr p ↦ elim (Bool-cases f.referenced) [
        | inl r ↦
            let s =
              reflag-Swept (next c) v c.hand f (record f { referenced = false }) at_hand refl refl
                refl in
            rw (at_hand, clock, p, r)
              (Swept-trans (next-Swept c v) (Swept-trans s (clock-Swept n _ s.kept.valid)))
        | inr r ↦ rw (at_hand, clock, p, r) (next-Swept c v)
      ]
    ]
  ]

  -- A frame that the sweep stops at is not pinned.
  clock_unpinned :
      (n : ℕ) (c : PageCache T) {c' : PageCache T} {i : ℕ}
      → clock n c ≡ (ok (some i), c')
      → (f : Frame) × (get_elem? c'.frames i ≡ some f) × (f.pinned ≡ false)
  unfolding clock
  clock_unpinned zero c h = ground arith
  clock_unpinned (suc n) c h = elim (Option-cases (get_elem? c.frames c.hand)) [
    | inl e ↦ ground arith
    | inr (f, at_hand) ↦ elim (Bool-cases f.pinned) [
      | inl p ↦ clock_unpinned n _ (rw (at_hand, clock, p) at h)
      | inr p ↦ elim (Bool-cases f.referenced) [
        | inl r ↦ clock_unpinned n _ (rw (at_hand, clock, p, r) at h)
        | inr r ↦ (f, ground arith, p)
      ]
    ]
  ]

  unpinned_lem :
      (fs : List Frame) {i : ℕ}
      → unpinned fs ≡ some i
      → (f : Frame) × (get_elem? fs i ≡ some f) × (f.pinned ≡ false)
  unfolding unpinned
  unpinned_lem [] h = cc
  unpinned_lem (f ∷ fs) {i} h = elim (Bool-cases f.pinned) [
    | inr p ↦ (f, ground arith, p)
    | inl p ↦ elim (Option-cases (unpinned fs)) [
      | inl e ↦ ground arith
      | inr (j, e) ↦
          let (g, at_j, up) = unpinned_lem fs e in
          (g, let s : i ≡ suc j = ground arith in ap (get_elem? (f ∷ fs)) s ∙ at_j, up)
    ]
  ]

  settle_same : (o : Option ℕ) (c : PageCache T) → (settle o c).1 ≡ c
  unfolding settle
  settle_same (some i) c = refl
  settle_same none c = ground arith

  pub select_victim-Swept : (c : PageCache T) → IsValid c → Swept c (select_victim c).1
  unfolding select_victim
  select_victim-Swept c v =
      let s = clock-Swept (2 * length c.frames) c v in
      bind-keeps (Swept c) (clock (2 * length c.frames) c) settle s
        λ o e. rw (settle_same o (clock (2 * length c.frames) c).1) s

  abbrev pub IsUnpinnedAt : PageCache T → ℕ → Type 0
  IsUnpinnedAt c i = (f : Frame) × (get_elem? c.frames i ≡ some f) × (f.pinned ≡ false)

  settle_unpinned :
      (o : Option ℕ) (d : PageCache T) {c' : PageCache T} {i : ℕ}
      → ((j : ℕ) → o ≡ some j → IsUnpinnedAt d j)
      → settle o d ≡ (ok i, c')
      → IsUnpinnedAt c' i
  unfolding settle
  settle_unpinned (some j) d {c'} {i} found h =
      let ei : j ≡ i = ground arith in
      let ed : d ≡ c' = ap (λ q. q.1) h in subst₂ IsUnpinnedAt ed ei (found j refl)
  settle_unpinned none d {c'} {i} found h = elim (Option-cases (unpinned d.frames)) [
    | inl e ↦ ground arith
    | inr (j, e) ↦
        let r : settle none d ≡ (ok j, d) = rw (e, settle) in
        let both = sym r ∙ h in
        let ei : j ≡ i = ground arith in
        let ed : d ≡ c' = ap (λ q. q.1) both in subst₂ IsUnpinnedAt ed ei (unpinned_lem d.frames e)
  ]

  -- A victim that the clock selects is a frame of the cache and is not pinned.
  pub select_victim_unpinned :
      (c : PageCache T) {c' : PageCache T} {i : ℕ}
      → select_victim c ≡ (ok i, c')
      → IsUnpinnedAt c' i
  unfolding select_victim
  select_victim_unpinned c h =
      let (o, swept, settled) = bind-eq-ok (clock (2 * length c.frames) c) settle h in
      let d = (clock (2 * length c.frames) c).1 in
      settle_unpinned o d
        (λ j e. clock_unpinned (2 * length c.frames) c {c' = d} (swept ∙ ap (λ q. (ok q, d)) e))
        settled

  -- The search for a clean victim moves the hand alone.
  pub clean_scan-Swept :
      (n k : ℕ) (hot : Option ℕ) (c : PageCache T) → IsValid c → Swept c (clean_scan n k hot c).1
  unfolding clean_scan
  clean_scan-Swept zero k none c v = Swept-refl c v
  clean_scan-Swept zero k (some i) c v = hand-Swept c _ v
  clean_scan-Swept (suc n) k hot c v =
      elim (Option-cases (get_elem? c.frames ((c.hand + k) % length c.frames))) [
        | inl e ↦ rw (e, clean_scan) (Swept-refl c v)
        | inr (f, at_i) ↦ elim (Bool-cases (f.pinned || f.dirty)) [
          | inl p ↦ rw (at_i, clean_scan, p) (clean_scan-Swept n (k + 1) hot c v)
          | inr p ↦ elim (Bool-cases f.referenced) [
            | inl r ↦ rw (at_i, clean_scan, p, r) (clean_scan-Swept n (k + 1) _ c v)
            | inr r ↦ rw (at_i, clean_scan, p, r) (hand-Swept c _ v)
          ]
        ]
      ]

  abbrev pub IsCleanAt : PageCache T → ℕ → Type 0
  IsCleanAt c i =
      (f : Frame) × (get_elem? c.frames i ≡ some f) × (f.pinned ≡ false) × (f.dirty ≡ false)

  remember_cases :
      (hot : Option ℕ) (i : ℕ) {j : ℕ} → remember hot i ≡ some j → (hot ≡ some j) ⊎ (i ≡ j)
  remember_cases none i h = inr (ground arith)
  remember_cases (some k) i h = inl h

  -- What the search for a clean victim returns is a clean frame that is not pinned.
  clean_scan_clean :
      (n k : ℕ) (hot : Option ℕ) (c : PageCache T) {c' : PageCache T} {i : ℕ}
      → ((j : ℕ) → hot ≡ some j → IsCleanAt c j)
      → clean_scan n k hot c ≡ (ok (some i), c')
      → IsCleanAt c i
  unfolding clean_scan
  clean_scan_clean zero k none c found h = ground arith
  clean_scan_clean zero k (some j) c found h =
      let e : j ≡ _ = ground arith in subst (IsCleanAt c) e (found j refl)
  clean_scan_clean (suc n) k hot c {c'} {i} found h =
      elim (Option-cases (get_elem? c.frames ((c.hand + k) % length c.frames))) [
        | inl e ↦ ground arith
        | inr (f, at_i) ↦ elim (Bool-cases (f.pinned || f.dirty)) [
          | inl p ↦ clean_scan_clean n (k + 1) hot c found (rw (at_i, clean_scan, p) at h)
          | inr p ↦ elim (Bool-cases f.referenced) [
            | inl r ↦
                clean_scan_clean n (k + 1) _ c
                  (λ j e. elim (remember_cases hot _ e) [
                    | inl old ↦ found j old
                    | inr new ↦
                        (f, ap (get_elem? c.frames) (sym new) ∙ at_i, ground arith, ground arith)
                  ])
                  (rw (at_i, clean_scan, p, r) at h)
            | inr r ↦
                let e : (c.hand + k) % length c.frames ≡ i = ground arith in
                (f, ap (get_elem? c.frames) (sym e) ∙ at_i, ground arith, ground arith)
          ]
        ]
      ]

  clean_scan-frames :
      (n k : ℕ) (hot : Option ℕ) (c : PageCache T) → (clean_scan n k hot c).1.frames ≡ c.frames
  unfolding clean_scan
  clean_scan-frames zero k none c = refl
  clean_scan-frames zero k (some i) c = refl
  clean_scan-frames (suc n) k hot c = ground (
    arith,
    clean_scan-frames n (k + 1) hot c,
    clean_scan-frames n (k + 1) (remember hot ((c.hand + k) % length c.frames)) c,
  )

  pub select_clean_victim-Swept : (c : PageCache T) → IsValid c → Swept c (select_clean_victim c).1
  unfolding select_clean_victim
  select_clean_victim-Swept c v = clean_scan-Swept (length c.frames) 0 none c v

  -- A clean victim is a frame of the cache that is neither pinned nor dirty, and the search changes no
  -- frame.
  pub select_clean_victim_clean :
      (c : PageCache T) {c' : PageCache T} {i : ℕ}
      → select_clean_victim c ≡ (ok (some i), c')
      → IsCleanAt c i × (c'.frames ≡ c.frames)
  unfolding select_clean_victim
  select_clean_victim_clean c h = (
    clean_scan_clean (length c.frames) 0 none c (λ j e. ground arith) h,
    ap (λ q. q.1.frames) (sym h) ∙ clean_scan-frames (length c.frames) 0 none c,
  )
