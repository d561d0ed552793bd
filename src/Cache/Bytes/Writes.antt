-- ===== src/Cache/Bytes/Writes.antt =====
-- Writes of crates/rv64/src/cache.rs change the guest's bytes in their range, and no other.
use dc34_baonix.Base.{
  ℕ, zero, suc, ◌+◌, ◌-◌, ◌%◌, ◌<◌, ◌≤◌, ◌≡◌, refl, ◌∙◌, sym, ap, ◌⊎◌, inl, inr, true, Bool-cases,
  some, List, length, get_elem?, set, take, drop, if◌then◌else◌, ◌==◌, ltb, arith, min, Outcome, ok,
  err, panic, M, bind, ltb→lt, ge_of_ltb, lt→ltb, get_elem?-lt, get_elem?-take, get_elem?-drop,
  length-take, length-drop, u64, ==_ne, ==_iff,
}
use native.Mathlib.Decide.{ℕ_discrete}
use dc34_baonix.Backing.{Page, Error, MemBacking, IsFlatArray, page_size, ram_base, ram_size}
use dc34_baonix.Cache.{PageCache, Frame, splice, page_of, set_frame, check_range}
use dc34_baonix.Cache.View.{view_frame}
use dc34_baonix.Cache.Moves.{set-Consistent, view-set}
use dc34_baonix.Cache.Valid.{IsValid, mem, Kept, Kept-refl}
use dc34_baonix.Cache.Resident.{resident}
use dc34_baonix.Cache.Resident.Kept.{frame_at-some}
use dc34_baonix.Cache.Resident.Served.{resident-Served}
use dc34_baonix.Cache.Bytes.{write_loop, write_bytes}
use dc34_baonix.Cache.Bytes.Slices.{splice_outside, splice_inside, InRam, byte_at}
use dc34_baonix.Cache.Bytes.Reads.{check_range-ok}

module _ {T : Type 0} ⦃b : MemBacking T⦄ (contents : T → ℕ → Page)
    (flat : IsFlatArray b contents) where
  -- What a write of `buf[done..]` at `gpa + done` does: the invariant holds and no byte outside the
  -- range changes, whatever the outcome; on success the range holds the buffer.
  pub record Writes (gpa done : ℕ) (buf : List ℕ) (c : PageCache T)
      (r : Outcome Error (Unit {0}) × PageCache T) : Type 0 where
    pub valid : IsValid contents r.1
    pub capacity : r.1.capacity ≡ c.capacity
    pub outside :
        (a : ℕ)
        → InRam a
        → (a < gpa + done) ⊎ (gpa + length buf ≤ a)
        → byte_at contents r.1 a ≡ byte_at contents c a
    pub inside :
        r.0 ≡ ok tt
        → (j : ℕ) → done ≤ j
        → j < length buf
        → get_elem? buf j ≡ some (byte_at contents r.1 (gpa + j))

  Writes-none :
      {gpa done : ℕ} {buf : List ℕ} {c : PageCache T} (o : Outcome Error (Unit {0}))
      (d : PageCache T)
      → Kept contents c d
      → (o ≡ ok tt → length buf ≤ done)
      → Writes gpa done buf c (o, d)
  Writes-none o d k all = record {
    valid = k.valid;
    capacity = k.capacity;
    outside = λ a r h. ap (λ (p : Page). p (a % page_size)) (k.same (page_of a));
    inside = λ e j lo hi. absurd (omega (arith, all e));
  }

  -- The bytes after one frame has been written.
  module _ (c : PageCache T) (v : IsValid contents c) (i addr n : ℕ) (f : Frame)
      (at_i : get_elem? c.frames i ≡ some f) (fp : f.page ≡ page_of addr) (ram : InRam addr)
      (bs : List ℕ) (len : length bs ≡ n) (fits : addr % page_size + n ≤ page_size) where
    abbrev pub written : Frame
    written = record f { bytes = splice f.bytes (addr % page_size) bs; dirty = true }

    abbrev pub stored : PageCache T
    stored = record c { frames = set c.frames i written }

    pub stored-IsValid : IsValid contents stored
    stored-IsValid = set-Consistent v i f at_i written refl (λ d. cc)

    stored-byte :
        (a : ℕ)
        → byte_at contents stored a ≡ (
            if f.page == page_of a
            then splice f.bytes (addr % page_size) bs (a % page_size)
            else byte_at contents c a)
    stored-byte a =
        ap (λ (p : Page). p (a % page_size))
          (view-set v i f at_i written refl (λ d. cc) (page_of a))
        ∙ ground arith

    pub stored_outside :
        (a : ℕ)
        → InRam a
        → (a < addr) ⊎ (addr + n ≤ a)
        → byte_at contents stored a ≡ byte_at contents c a
    stored_outside a r h = stored-byte a ∙ (elim (ℕ_discrete f.page (page_of a)) [
      | no ne ↦ rw (==_ne f.page (page_of a) ne)
      | yes e ↦ rw ((==_iff f.page (page_of a)).1 e) (
          splice_outside bs f.bytes (addr % page_size) (a % page_size) (apart e)
          ∙ ap (λ (p : Page). p (a % page_size))
              (sym (view_frame v i f at_i) ∙ ap (mem contents c) e))
    ])
      where
        apart :
            f.page ≡ page_of a
            → (a % page_size < addr % page_size) ⊎ (addr % page_size + length bs ≤ a % page_size)
        apart e = let same : page_of addr ≡ page_of a = sym fp ∙ e in ground (arith, h)

    pub stored_inside : (k : ℕ) → k < n → get_elem? bs k ≡ some (byte_at contents stored (addr + k))
    stored_inside k lt =
        let same : f.page ≡ page_of (addr + k) = omega arith in
        let off : (addr + k) % page_size ≡ addr % page_size + k = omega arith in
        splice_inside bs f.bytes (addr % page_size) k (omega arith)
        ∙ ap some (
            ap (splice f.bytes (addr % page_size) bs) (sym off)
            ∙ sym (stored-byte (addr + k) ∙ rw ((==_iff f.page (page_of (addr + k))).1 same)))

  -- One frame written, and then the rest.
  Writes-chunk :
      {gpa done n : ℕ} {buf : List ℕ} {c c' : PageCache T}
      {r : Outcome Error (Unit {0}) × PageCache T}
      → IsValid contents c'
      → c'.capacity ≡ c.capacity
      → gpa + done + n ≤ gpa + length buf
      → InRam gpa
      → gpa + length buf ≤ ram_base + ram_size
      → ((a : ℕ)
          → InRam a
          → (a < gpa + done) ⊎ (gpa + done + n ≤ a)
          → byte_at contents c' a ≡ byte_at contents c a)
      → ((k : ℕ)
          → k < n
          → get_elem? (take n (drop done buf)) k ≡ some (byte_at contents c' (gpa + done + k)))
      → Writes gpa (done + n) buf c' r
      → Writes gpa done buf c r
  Writes-chunk {gpa} {done} {n} {buf} {c} {c'} {r} v cap fits ram hi out ins rest = record {
    valid = rest.valid;
    capacity = rest.capacity ∙ cap;
    outside = λ a ra h. rest.outside a ra (ground (arith, h)) ∙ out a ra (ground (arith, h));
    inside = λ e j lo lt. elim (Bool-cases (ltb j (done + n))) [
      | inr after ↦ rest.inside e j (ge_of_ltb _ _ after) lt
      | inl before ↦
          let below : j < done + n = ltb→lt _ _ before in
          let k = j - done in
          let at_j : gpa + done + k ≡ gpa + j = omega arith in
          let idx : done + k ≡ j = omega arith in
          let kept = rest.outside (gpa + j) (omega arith) (inl (omega arith)) in
          ap (get_elem? buf) (sym idx)
          ∙ sym (get_elem?-drop done k buf)
          ∙ sym (get_elem?-take n k (drop done buf) (omega arith))
          ∙ ins k (omega arith)
          ∙ ap some (ap (byte_at contents c') at_j ∙ sym kept)
    ];
  }

  Writes-after :
      {gpa done : ℕ} {buf : List ℕ} {c d : PageCache T} {r : Outcome Error (Unit {0}) × PageCache T}
      → Kept contents c d
      → Writes gpa done buf d r
      → Writes gpa done buf c r
  Writes-after k w = record {
    valid = w.valid;
    capacity = w.capacity ∙ k.capacity;
    outside =
        λ a ra h. w.outside a ra h ∙ ap (λ (p : Page). p (a % page_size)) (k.same (page_of a));
    inside = w.inside;
  }

  pub Writes-bind :
      {X : Type 0} {gpa done : ℕ} {buf : List ℕ} {c : PageCache T}
      (r : Outcome Error X × PageCache T) (f : X → M (PageCache T) Error (Unit {0}))
      → Kept contents c r.1
      → ((x : X) → r ≡ (ok x, r.1) → Writes gpa done buf r.1 (f x r.1))
      → Writes gpa done buf c (bind r f)
  Writes-bind (ok x, d) f k next = Writes-after k (next x refl)
  Writes-bind (err e, d) f k next = Writes-none (err e) d k (λ e. cc)
  Writes-bind (panic, d) f k next = Writes-none panic d k (λ e. cc)

  pub set_frame_lt :
      (c : PageCache T) (i : ℕ) (f : Frame)
      → i < length c.frames
      → set_frame i f c ≡ (ok tt, record c { frames = set c.frames i f })
  unfolding set_frame
  set_frame_lt c i f h = rw (lt→ltb _ _ h)

  write_loop-Writes :
      (fuel gpa : ℕ) (buf : List ℕ) (done : ℕ) (c : PageCache T)
      → IsValid contents c
      → ram_base ≤ gpa
      → gpa + length buf ≤ ram_base + ram_size
      → done ≤ length buf
      → length buf ≤ done + fuel
      → Writes gpa done buf c (write_loop fuel gpa buf done c)
  unfolding write_loop
  write_loop-Writes zero gpa buf done c v lo hi le enough =
      Writes-none (ok tt) c (Kept-refl contents c v) (λ e. omega arith)
  write_loop-Writes (suc fuel) gpa buf done c v lo hi le enough =
      elim (Bool-cases (ltb done (length buf))) [
        | inr stop ↦
            rw (stop, write_loop)
              (Writes-none (ok tt) c (Kept-refl contents c v) (λ e. ge_of_ltb _ _ stop))
        | inl more ↦
            let lt : done < length buf = ltb→lt _ _ more in
            let same : u64 (gpa + done) ≡ gpa + done = omega arith in
            let n = min (page_size - (gpa + done) % page_size) (length buf - done) in
            let s = resident-Served contents flat c (page_of (gpa + done)) v in
            rw (more, write_loop, same)
              (Writes-bind (resident (page_of (gpa + done)) c) _ s.kept λ i h.
                let c1 = (resident (page_of (gpa + done)) c).1 in
                let (f, at_i, fp) = s.has_page i (ap (λ q. q.0) h) in
                let bs = take n (drop done buf) in
                let len : length bs ≡ n =
                  omega (arith, length-take n (drop done buf), length-drop done buf) in
                let ram : InRam (gpa + done) = omega arith in
                let fits : (gpa + done) % page_size + n ≤ page_size = omega arith in
                let f' = written c1 s.kept.valid i (gpa + done) n f at_i fp ram bs len fits in
                let valid =
                  stored-IsValid c1 s.kept.valid i (gpa + done) n f at_i fp ram bs len fits in
                rw
                  (
                    frame_at-some contents c1 i at_i,
                    bind,
                    set_frame_lt c1 i f' (get_elem?-lt c1.frames i at_i),
                  )
                  (Writes-chunk valid refl (omega arith) (omega arith) hi
                    (stored_outside c1 s.kept.valid i (gpa + done) n f at_i fp ram bs len fits)
                    (stored_inside c1 s.kept.valid i (gpa + done) n f at_i fp ram bs len fits)
                    (write_loop-Writes fuel gpa buf (done + n) _ valid lo hi (omega arith)
                      (omega arith))))
      ]

  -- A write by bytes, on every outcome.
  pub write_bytes-Writes :
      (gpa : ℕ) (buf : List ℕ) (c : PageCache T)
      → IsValid contents c
      → Writes gpa 0 buf c (write_bytes gpa buf c)
  unfolding write_bytes
  write_bytes-Writes gpa buf c v =
      Writes-bind (check_range gpa (length buf), c) _ (Kept-refl contents c v)
        λ x h.
          let (lo, hi) = check_range-ok gpa (length buf) (ap (λ q. q.0) h) in
          write_loop-Writes (length buf) gpa buf 0 c v lo hi (omega arith) (omega arith)
