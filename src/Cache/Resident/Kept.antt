-- ===== src/Cache/Resident/Kept.antt =====
-- `resident` and `flush` of crates/rv64/src/cache.rs keep the guest's memory, whatever the store does.
use dc34_baonix.Base.{
  ℕ, ◌+◌, ◌<◌, ◌≡◌, refl, ◌∙◌, sym, ap, Option, none, some, [], ◌∷◌, ◌++◌, length, get_elem?, set,
  update, arith, Outcome, ok, err, panic, M, bind, lt→ltb, get_elem?-lt, get_elem?-set_self,
  get_elem?-append_length, u16,
}
use mathlib.Core.Path.{subst}
use dc34_baonix.Backing.{Page, Error}
use dc34_baonix.Cache.{
  PageCache, Frame, Stats, fresh, ram_pages, set_resident, clear_resident, frame_at, set_frame,
  count_eviction, count_declined, select_clean_victim,
}
use dc34_baonix.Cache.Moves.{replace-Consistent, view-replace, admit-Consistent, view-admit}
use dc34_baonix.Cache.Valid.{
  IsValid, Kept, Swept, Kept-refl, Kept-trans, select_clean_victim-Swept, select_clean_victim_clean,
}
use dc34_baonix.Cache.Resident.{admit, replace, take_clean}

module _ {T : Type 0} (contents : T → ℕ → Page) where
  -- A call that returned slot `i` left a frame with `page` there.
  abbrev pub HasPage : ℕ → Outcome Error ℕ × PageCache T → Type 0
  HasPage page r =
      (i : ℕ) → r.0 ≡ ok i → (f : Frame) × (get_elem? r.1.frames i ≡ some f) × (f.page ≡ page)

  pub record Served (page : ℕ) (c : PageCache T) (r : Outcome Error ℕ × PageCache T) : Type 0 where
    pub kept : Kept contents c r.1
    pub has_page : HasPage page r

  slot_fits : (i : ℕ) → i < ram_pages → u16 (u16 i + 1) ≡ i + 1
  slot_fits i h = omega arith

  abbrev pub replaced : PageCache T → ℕ → ℕ → Page → Frame → PageCache T
  replaced c i page d f = record (count_eviction c) {
    frames = set c.frames i (fresh page d);
    slot_of = update (update c.slot_of f.page 0) page (i + 1);
  }

  pub replace-replaced :
      (c : PageCache T) (i page : ℕ) (d : Page) (f : Frame)
      → IsValid contents c
      → get_elem? c.frames i ≡ some f
      → page < ram_pages
      → replace i page d c ≡ (ok i, replaced c i page d f)
  unfolding replace frame_at clear_resident set_frame set_resident
  replace-replaced c i page d f v at_i lt =
      let fit = slot_fits i (omega (arith, get_elem?-lt c.frames i at_i, v.bounded, v.fits)) in
      let in_ram = lt→ltb _ _ (v.in_ram i f at_i) in
      let in_frames = lt→ltb _ _ (get_elem?-lt c.frames i at_i) in
      let page_in = lt→ltb _ _ lt in ground (arith, at_i, in_ram, in_frames, page_in, fit)

  pub Served-after :
      {page : ℕ} {c c' : PageCache T} {r : Outcome Error ℕ × PageCache T}
      → Kept contents c c'
      → Served page c' r
      → Served page c r
  Served-after k s = record { kept = Kept-trans contents k s.kept; has_page = s.has_page }

  pub frame_at-some :
      (c : PageCache T) (i : ℕ) {f : Frame}
      → get_elem? c.frames i ≡ some f
      → frame_at i c ≡ (ok f, c)
  unfolding frame_at
  frame_at-some c i e = ground arith

  pub stats-Kept :
      (c : PageCache T) (s : Stats) → IsValid contents c → Kept contents c (record c { stats = s })
  stats-Kept c s v = record { valid = v; same = λ p. refl; capacity = refl }

  pub Served-bind :
      {X : Type 0} {page : ℕ} {c : PageCache T} (r : Outcome Error X × PageCache T)
      (f : X → M (PageCache T) Error ℕ)
      → Kept contents c r.1
      → ((x : X) → r ≡ (ok x, r.1) → Served page r.1 (f x r.1))
      → Served page c (bind r f)
  Served-bind (ok x, d) f k next = Served-after k (next x refl)
  Served-bind (err e, d) f k next = record { kept = k; has_page = λ i h. cc }
  Served-bind (panic, d) f k next = record { kept = k; has_page = λ i h. cc }

  pub replace-Served :
      (c : PageCache T) (i page : ℕ) (d : Page) (f : Frame)
      → IsValid contents c
      → get_elem? c.frames i ≡ some f
      → f.bytes ≡ contents c.backing f.page
      → page < ram_pages
      → c.slot_of page ≡ 0
      → d ≡ contents c.backing page
      → Served page c (replace i page d c)
  replace-Served c i page d f v at_i cl lt new read =
      rw (replace-replaced c i page d f v at_i lt) (record {
        kept = record {
          valid = replace-Consistent v i f at_i page d cl lt new read;
          same = λ p. view-replace v i f at_i page d cl lt new read p;
          capacity = refl;
        };
        has_page = λ j e.
            let ij : i ≡ j = ground arith in
            (
              fresh page d,
              ap (get_elem? (set c.frames i (fresh page d))) (sym ij)
                  ∙ get_elem?-set_self c.frames i (fresh page d) (get_elem?-lt c.frames i at_i),
              refl,
            );
      })

  pub admit-Served :
      (c : PageCache T) (page : ℕ) (d : Page)
      → IsValid contents c
      → length c.frames < c.capacity
      → page < ram_pages
      → c.slot_of page ≡ 0
      → d ≡ contents c.backing page
      → Served page c (admit page d c)
  unfolding admit set_resident
  admit-Served c page d v room lt new read =
      let fit = slot_fits (length c.frames) (omega (arith, v.fits)) in
      let page_in = lt→ltb _ _ lt in
      rw (page_in, fit)
        (record {
          kept = record {
            valid = admit-Consistent v page d room lt new read;
            same = λ p. view-admit v page d room lt new read p;
            capacity = refl;
          };
          has_page = λ j e.
              let ij : length c.frames ≡ j = ground arith in
              (
                fresh page d,
                ap (get_elem? (c.frames ++ (fresh page d ∷ []))) (sym ij)
                    ∙ get_elem?-append_length c.frames (fresh page d),
                refl,
              );
        })

  pub take_clean-Served :
      (x : Error) (o : Option ℕ) (c : PageCache T) {c' : PageCache T} (page : ℕ) (d : Page)
      → IsValid contents c
      → select_clean_victim c ≡ (ok o, c')
      → page < ram_pages
      → c.slot_of page ≡ 0
      → d ≡ contents c.backing page
      → Served page c' (take_clean x page d o c')
  unfolding take_clean
  take_clean-Served x none c {c'} page d v h lt new read =
      let s = select_clean_victim-Swept contents c v in
      let s' = subst (λ q. Swept contents c q.1) h s in
      record { kept = Kept-refl contents c' s'.kept.valid; has_page = λ i e. cc }
  take_clean-Served x (some i) c {c'} page d v h lt new read =
      let s = subst (λ q. Swept contents c q.1) h (select_clean_victim-Swept contents c v) in
      let ((f, at_i, up, clean), same) = select_clean_victim_clean contents c h in
      Served-after (stats-Kept c' _ s.kept.valid) (
        replace-Served (count_declined c') i page d f s.kept.valid (at_i' f same at_i)
          (s.kept.valid.clean i f (at_i' f same at_i) clean) lt (ap (λ q. q page) s.slots ∙ new)
          (read ∙ ap (λ t. contents t page) (sym s.store)))
    where
      at_i' :
          (f : Frame)
          → c'.frames ≡ c.frames
          → get_elem? c.frames i ≡ some f
          → get_elem? c'.frames i ≡ some f
      at_i' f same at_i = ap (λ q. get_elem? q i) same ∙ at_i
