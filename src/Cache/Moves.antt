-- ===== src/Cache/Moves.antt =====
-- The changes that the operations of the page cache make, each with what it does to the memory that
-- the cache stands for.
use dc34_baonix.Base.{
  ℕ, ◌+◌, ◌<◌, ◌≡◌, ◌≢◌, ◌∙◌, sym, ap, inl, inr, true, false, some, List, [], ◌∷◌, ◌++◌, length,
  get_elem?, set, update, ◌==◌, if◌then◌else◌, arith, ==_ne, get_elem?-lt, get_elem?-set_self,
  get_elem?-set_ne, get_elem?-set_cases, get_elem?-append_cases, get_elem?-append_lt,
  get_elem?-append_length, length-append, length-set,
}
use native.Mathlib.Decide.{ℕ_discrete}
use dc34_baonix.Backing.{Page}
use dc34_baonix.Cache.{Frame, fresh, ram_pages}
use dc34_baonix.Cache.View.{Consistent, view, holder_cases, view_frame, view_absent, slot_unique}

module _ {m : ℕ → Page} {frames : List Frame} {slot_of : ℕ → ℕ} {capacity : ℕ}
    (v : Consistent m frames slot_of capacity) (i : ℕ) (f : Frame)
    (at_i : get_elem? frames i ≡ some f) where
  same_frame : {j : ℕ} {g : Frame} → i ≡ j → get_elem? frames j ≡ some g → f ≡ g
  same_frame {j} {g} e at_j =
      let fg : some f ≡ some g = sym at_i ∙ ap (get_elem? frames) e ∙ at_j in ground arith

  -- A frame is given anew and keeps its page.
  module _ (f' : Frame) (same : f'.page ≡ f.page)
      (ok_clean : f'.dirty ≡ false → f'.bytes ≡ m f.page) where
    pub set-Consistent : Consistent m (set frames i f') slot_of capacity
    set-Consistent = record {
      bounded = omega (arith, v.bounded, length-set frames i f');
      positive = v.positive;
      fits = v.fits;
      in_ram = λ j g h. elim (get_elem?-set_cases frames i j f' h) [
        | inl (e, eg) ↦ rw (eg, same) (v.in_ram i f at_i)
        | inr (ne, old) ↦ v.in_ram j g old
      ];
      indexed = λ j g h. elim (get_elem?-set_cases frames i j f' h) [
        | inl (e, eg) ↦ rw (eg, same, ← e) (v.indexed i f at_i)
        | inr (ne, old) ↦ v.indexed j g old
      ];
      held = λ p j lt h. elim (ℕ_discrete i j) [
        | yes e ↦ (
          f',
          rw (← e) (get_elem?-set_self frames i f' (get_elem?-lt frames i at_i)),
          let (g, at_j, gp) = v.held p j lt h in
              same ∙ ap (λ (x : Frame). x.page) (same_frame e at_j) ∙ gp,
        )
        | no ne ↦
            let (g, at_j, gp) = v.held p j lt h in (g, get_elem?-set_ne frames i j f' ne ∙ at_j, gp)
      ];
      clean = λ j g h d. elim (get_elem?-set_cases frames i j f' h) [
        | inl (e, eg) ↦ rw (eg, same) (ok_clean (sym (ap (λ (x : Frame). x.dirty) eg) ∙ d))
        | inr (ne, old) ↦ v.clean j g old d
      ];
    }

    pub view-set :
        (p : ℕ)
        → view m (set frames i f') slot_of p
          ≡ (if f.page == p then f'.bytes else view m frames slot_of p)
    view-set p = elim (ℕ_discrete f.page p) [
      | yes e ↦
          let here : view m (set frames i f') slot_of f'.page ≡ f'.bytes =
            view_frame set-Consistent i f'
              (get_elem?-set_self frames i f' (get_elem?-lt frames i at_i)) in
          let e' : f'.page ≡ p = same ∙ e in
          let at_p : view m (set frames i f') slot_of p ≡ f'.bytes =
            ap (view m (set frames i f') slot_of) (sym e') ∙ here in
          ground arith
      | no ne ↦ elim (holder_cases v p) [
        | inl (none_there, absent) ↦ rw (
          view_absent m (set frames i f') slot_of p absent,
          view_absent m frames slot_of p absent,
          ==_ne f.page p ne,
        )
        | inr (j, g, held, at_j, gp, slot, lt) ↦
            let other : i ≢ j = λ e. ne (ap (λ (x : Frame). x.page) (same_frame e at_j) ∙ gp) in
            let old : view m frames slot_of g.page ≡ g.bytes = view_frame v j g at_j in
            let new : view m (set frames i f') slot_of g.page ≡ g.bytes =
              view_frame set-Consistent j g (get_elem?-set_ne frames i j f' other ∙ at_j) in
            let ne' : f.page ≢ g.page = λ e. ne (e ∙ gp) in
            rw (← gp) (rw (==_ne f.page g.page ne') (new ∙ sym old))
      ]
    ]

  -- The store changes at the page of a dirty frame: what it holds there is not what is read.
  module _ (m' : ℕ → Page) (dirty : f.dirty ≡ true)
      (apart : (q : ℕ) → f.page ≢ q → m' q ≡ m q) where
    pub store-Consistent : Consistent m' frames slot_of capacity
    store-Consistent = record {
      bounded = v.bounded;
      positive = v.positive;
      fits = v.fits;
      in_ram = v.in_ram;
      indexed = v.indexed;
      held = v.held;
      clean = λ j g at_j d.
          let ne : f.page ≢ g.page = λ e.
            let fg : f ≡ g = same_frame (slot_unique v i j f g at_i at_j e) at_j in ground arith in
          v.clean j g at_j d ∙ sym (apart g.page ne);
    }

    pub view-store : (p : ℕ) → view m' frames slot_of p ≡ view m frames slot_of p
    view-store p = elim (holder_cases v p) [
      | inl (none_there, absent) ↦
          let ne : f.page ≢ p = λ e.
            let lt : p < ram_pages = rw (← e) (v.in_ram i f at_i) in
            let slot : slot_of p ≡ i + 1 = rw (← e) (v.indexed i f at_i) in
            absurd (omega (arith, absent lt)) in
          view_absent m' frames slot_of p absent
          ∙ apart p ne
          ∙ sym (view_absent m frames slot_of p absent)
      | inr (j, g, held, at_j, gp, slot, lt) ↦
          rw (← gp) (view_frame store-Consistent j g at_j ∙ sym (view_frame v j g at_j))
    ]

  -- A page that is not resident takes the frame of one whose bytes the store has.
  module _ (page : ℕ) (d : Page) (clean : f.bytes ≡ m f.page) (lt : page < ram_pages)
      (new : slot_of page ≡ 0) (read : d ≡ m page) where
    abbrev frames' : List Frame
    frames' = set frames i (fresh page d)

    abbrev slots' : ℕ → ℕ
    slots' = update (update slot_of f.page 0) page (i + 1)

    pub replace-Consistent : Consistent m frames' slots' capacity
    replace-Consistent = record {
      bounded = omega (arith, v.bounded, length-set frames i (fresh page d));
      positive = v.positive;
      fits = v.fits;
      in_ram = λ j g h. elim (get_elem?-set_cases frames i j (fresh page d) h) [
        | inl (e, eg) ↦ rw eg lt
        | inr (ne, old) ↦ v.in_ram j g old
      ];
      indexed = λ j g h. elim (get_elem?-set_cases frames i j (fresh page d) h) [
        | inl (e, eg) ↦ ground (arith, ap (λ (x : Frame). x.page) eg)
        | inr (ne, old) ↦ ground (
          arith,
          v.indexed j g old,
          v.indexed i f at_i,
          ap slot_of,
          λ (e : f.page ≡ g.page). slot_unique v i j f g at_i old e,
        )
      ];
      held = λ p j below h. elim (ℕ_discrete page p) [
        | yes e ↦
            let ij : i ≡ j = ground arith in
            (
              fresh page d,
              ap (get_elem? frames') (sym ij)
                  ∙ get_elem?-set_self frames i (fresh page d) (get_elem?-lt frames i at_i),
              e,
            )
        | no ne ↦ elim (ℕ_discrete f.page p) [
          | yes e ↦ absurd (ground arith)
          | no ne' ↦
              let (g, at_j, gp) = v.held p j below (ground arith) in
              let other : i ≢ j = λ e. ne' (ap (λ (x : Frame). x.page) (same_frame e at_j) ∙ gp) in
              (g, get_elem?-set_ne frames i j (fresh page d) other ∙ at_j, gp)
        ]
      ];
      clean = λ j g h dd. elim (get_elem?-set_cases frames i j (fresh page d) h) [
        | inl (e, eg) ↦ rw eg read
        | inr (ne, old) ↦ v.clean j g old dd
      ];
    }

    pub view-replace : (p : ℕ) → view m frames' slots' p ≡ view m frames slot_of p
    view-replace p = elim (ℕ_discrete page p) [
      | yes e ↦
          let in_slot : get_elem? frames' i ≡ some (fresh page d) =
            get_elem?-set_self frames i (fresh page d) (get_elem?-lt frames i at_i) in
          rw (← e) (
            view_frame replace-Consistent i (fresh page d) in_slot
            ∙ read
            ∙ sym (view_absent m frames slot_of page (λ _. new)))
      | no ne ↦ elim (ℕ_discrete f.page p) [
        | yes e ↦
            ap (view m frames' slots') (sym e)
            ∙ view_absent m frames' slots' f.page (λ _. ground arith)
            ∙ sym clean
            ∙ sym (view_frame v i f at_i)
            ∙ ap (view m frames slot_of) e
        | no ne' ↦ elim (holder_cases v p) [
          | inl (none_there, absent) ↦
              view_absent m frames' slots' p (λ l. let z = absent l in ground arith)
              ∙ sym (view_absent m frames slot_of p absent)
          | inr (j, g, held, at_j, gp, slot, below) ↦
              let other : i ≢ j = λ e. ne' (ap (λ (x : Frame). x.page) (same_frame e at_j) ∙ gp) in
              rw (← gp) (
                view_frame replace-Consistent j g
                  (get_elem?-set_ne frames i j (fresh page d) other ∙ at_j)
                ∙ sym (view_frame v j g at_j))
        ]
      ]
    ]

-- A page that is not resident takes a new frame.
module _ {m : ℕ → Page} {frames : List Frame} {slot_of : ℕ → ℕ} {capacity : ℕ}
    (v : Consistent m frames slot_of capacity) (page : ℕ) (d : Page)
    (room : length frames < capacity) (lt : page < ram_pages) (new : slot_of page ≡ 0)
    (read : d ≡ m page) where
  abbrev grown : List Frame
  grown = frames ++ (fresh page d ∷ [])

  abbrev slots'' : ℕ → ℕ
  slots'' = update slot_of page (length frames + 1)

  pub admit-Consistent : Consistent m grown slots'' capacity
  admit-Consistent = record {
    bounded = omega (arith, length-append frames (fresh page d ∷ []));
    positive = v.positive;
    fits = v.fits;
    in_ram = λ j g h. elim (get_elem?-append_cases frames (fresh page d) j h) [
      | inl (e, eg) ↦ rw eg lt
      | inr old ↦ v.in_ram j g old
    ];
    indexed = λ j g h. elim (get_elem?-append_cases frames (fresh page d) j h) [
      | inl (e, eg) ↦ ground (arith, ap (λ (x : Frame). x.page) eg)
      | inr old ↦ ground (arith, v.indexed j g old, λ (e : page ≡ g.page). ap slot_of e)
    ];
    held = λ p j below h. elim (ℕ_discrete page p) [
      | yes e ↦
          let ij : length frames ≡ j = ground arith in
          (
            fresh page d,
            ap (get_elem? grown) (sym ij) ∙ get_elem?-append_length frames (fresh page d),
            e,
          )
      | no ne ↦
          let (g, at_j, gp) = v.held p j below (ground arith) in
          (g, get_elem?-append_lt frames _ j (get_elem?-lt frames j at_j) ∙ at_j, gp)
    ];
    clean = λ j g h dd. elim (get_elem?-append_cases frames (fresh page d) j h) [
      | inl (e, eg) ↦ rw eg read
      | inr old ↦ v.clean j g old dd
    ];
  }

  pub view-admit : (p : ℕ) → view m grown slots'' p ≡ view m frames slot_of p
  view-admit p = elim (ℕ_discrete page p) [
    | yes e ↦ rw (← e) (
        view_frame admit-Consistent (length frames) (fresh page d)
          (get_elem?-append_length frames (fresh page d))
        ∙ read
        ∙ sym (view_absent m frames slot_of page (λ _. new)))
    | no ne ↦ elim (holder_cases v p) [
      | inl (none_there, absent) ↦
          view_absent m grown slots'' p (λ l. let z = absent l in ground arith)
          ∙ sym (view_absent m frames slot_of p absent)
      | inr (j, g, held, at_j, gp, slot, below) ↦ rw (← gp) (
          view_frame admit-Consistent j g
            (get_elem?-append_lt frames _ j (get_elem?-lt frames j at_j) ∙ at_j)
          ∙ sym (view_frame v j g at_j))
    ]
  ]
