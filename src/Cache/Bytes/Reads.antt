-- ===== src/Cache/Bytes/Reads.antt =====
-- Reads of crates/rv64/src/cache.rs return the guest's bytes.
use dc34_baonix.Base.{
  ℕ, zero, suc, ◌+◌, ◌-◌, ◌%◌, ◌<◌, ◌≤◌, ◌≡◌, refl, ◌∙◌, sym, ap, inl, inr, Bool-cases, some, List,
  ◌++◌, get_elem?, ltb, arith, min, Outcome, ok, err, panic, M, bind, ltb→lt, ge_of_ltb, fun_ext,
  u64,
}
use mathlib.Core.Path.{ap₂}
use dc34_baonix.Backing.{Page, Error, MemBacking, IsFlatArray, page_size, ram_base, ram_size}
use dc34_baonix.Cache.{PageCache, Frame, slice, page_of, frame_at, check_range}
use dc34_baonix.Cache.View.{view_frame}
use dc34_baonix.Cache.Valid.{IsValid, mem, Kept, Kept-refl, Kept-trans}
use dc34_baonix.Cache.Resident.{resident}
use dc34_baonix.Cache.Resident.Kept.{frame_at-some}
use dc34_baonix.Cache.Resident.Served.{resident-Served}
use dc34_baonix.Cache.Bytes.{read_loop, read_bytes}
use dc34_baonix.Cache.Bytes.Slices.{
  slice-append, slice_agree, InRam, byte_at, page_of-add, offset-add,
}

-- What `check_range` lets through.
pub check_range-ok :
    (gpa len : ℕ)
    → check_range gpa len ≡ ok tt
    → (ram_base ≤ gpa) × (gpa + len ≤ ram_base + ram_size)
unfolding check_range
check_range-ok gpa len h = ground arith

module _ {T : Type 0} ⦃b : MemBacking T⦄ (contents : T → ℕ → Page)
    (flat : IsFlatArray b contents) where
  -- What a read of `n` bytes at `a` does.
  pub record Reads (c : PageCache T) (a n : ℕ) (r : Outcome Error (List ℕ) × PageCache T)
      : Type 0 where
    pub kept : Kept contents c r.1
    pub value : (bs : List ℕ) → r.0 ≡ ok bs → bs ≡ slice (byte_at contents c) a n

  pub Kept-byte_at :
      {c c' : PageCache T} → Kept contents c c' → byte_at contents c' ≡ byte_at contents c
  Kept-byte_at k = fun_ext λ a. ap (λ (p : Page). p (a % page_size)) (k.same (page_of a))

  -- A frame's bytes are the guest's.
  pub frame-slice :
      (c : PageCache T) (i a n : ℕ) (f : Frame)
      → IsValid contents c
      → get_elem? c.frames i ≡ some f
      → f.page ≡ page_of a
      → InRam a
      → a % page_size + n ≤ page_size
      → slice f.bytes (a % page_size) n ≡ slice (byte_at contents c) a n
  frame-slice c i a n f v at_i same r fits =
      slice_agree n f.bytes (byte_at contents c) (a % page_size) a λ k lt.
        let here : mem contents c (page_of a) ≡ f.bytes =
          ap (mem contents c) (sym same) ∙ view_frame v i f at_i in
        ap (λ (p : Page). p (a % page_size + k)) (sym here)
        ∙ ap₂ (mem contents c) (sym (page_of-add a k r (omega arith)))
            (sym (offset-add a k (omega arith)))

  Reads-bind :
      {X : Type 0} {c : PageCache T} {a n : ℕ} (r : Outcome Error X × PageCache T)
      (f : X → M (PageCache T) Error (List ℕ))
      → Kept contents c r.1
      → ((x : X) → r ≡ (ok x, r.1) → Reads r.1 a n (f x r.1))
      → Reads c a n (bind r f)
  Reads-bind {a = a} {n = n} (ok x, d) f k next =
      let s = next x refl in
      record {
        kept = Kept-trans contents k s.kept;
        value = λ bs e. s.value bs e ∙ ap (λ q. slice q a n) (Kept-byte_at k);
      }
  Reads-bind (err e, d) f k next = record { kept = k; value = λ bs h. cc }
  Reads-bind (panic, d) f k next = record { kept = k; value = λ bs h. cc }

  -- The frame that `resident` found, read by `k`.
  resident-bind :
      {a n : ℕ} (c : PageCache T) (page : ℕ) (k : Frame → M (PageCache T) Error (List ℕ))
      → IsValid contents c
      → ((c' : PageCache T) (i : ℕ) (f : Frame)
          → IsValid contents c'
          → get_elem? c'.frames i ≡ some f
          → f.page ≡ page
          → Reads c' a n (k f c'))
      → Reads c a n (bind (resident page c) (λ i c1. bind (frame_at i c1) k))
  resident-bind c page k v next =
      let s = resident-Served contents flat c page v in
      Reads-bind (resident page c) _ s.kept λ i h.
        let (f, at_i, same) = s.has_page i (ap (λ q. q.0) h) in
        rw (frame_at-some contents (resident page c).1 i at_i, bind)
          (next (resident page c).1 i f s.kept.valid at_i same)

  -- The loop from `done` on, with enough fuel.
  read_loop-Reads :
      (fuel gpa len done : ℕ) (c : PageCache T)
      → IsValid contents c
      → ram_base ≤ gpa
      → gpa + len ≤ ram_base + ram_size
      → done ≤ len
      → len ≤ done + fuel
      → Reads c (gpa + done) (len - done) (read_loop fuel gpa len done c)
  unfolding read_loop
  read_loop-Reads zero gpa len done c v lo hi le enough =
      let none_left : len - done ≡ 0 = omega arith in
      rw none_left
        (record { kept = Kept-refl contents c v; value = λ bs h. unfold slice in ground arith })
  read_loop-Reads (suc fuel) gpa len done c v lo hi le enough = elim (Bool-cases (ltb done len)) [
    | inr stop ↦
        let none_left : len - done ≡ 0 = omega (arith, ge_of_ltb _ _ stop) in
        rw (none_left, stop, read_loop)
          (record { kept = Kept-refl contents c v; value = λ bs h. unfold slice in ground arith })
    | inl more ↦
        let lt : done < len = ltb→lt _ _ more in
        let same : u64 (gpa + done) ≡ gpa + done = omega arith in
        let n = min (page_size - (gpa + done) % page_size) (len - done) in
        rw (more, read_loop, same)
          (resident-bind c (page_of (gpa + done)) _ v λ c1 i f v1 at_i fp.
            let step =
              read_loop-Reads fuel gpa len (done + n) c1 v1 lo hi (omega arith) (omega arith) in
            chunk c1 i f v1 at_i fp n lt (omega arith) (omega arith) step)
  ]
    where
      chunk :
          (c1 : PageCache T) (i : ℕ) (f : Frame)
          → IsValid contents c1
          → get_elem? c1.frames i ≡ some f
          → f.page ≡ page_of (gpa + done)
          → (n : ℕ) → done < len
          → (gpa + done) % page_size + n ≤ page_size
          → n ≤ len - done
          → {r : Outcome Error (List ℕ) × PageCache T}
          → Reads c1 (gpa + (done + n)) (len - (done + n)) r
          → Reads c1
              (gpa + done)
              (len - done)
              (bind r (λ rest c3. (ok (slice f.bytes ((gpa + done) % page_size) n ++ rest), c3)))
      chunk c1 i f v1 at_i fp n lt fits below {r = (ok rest, c3)} s = record {
        kept = s.kept;
        value = λ bs h.
            let all : len - done ≡ n + (len - (done + n)) = omega arith in
            let from : gpa + done + n ≡ gpa + (done + n) = omega arith in
            let here = frame-slice c1 i (gpa + done) n f v1 at_i fp (omega arith) fits in
            rw (all, slice-append, from, ← here, ← s.value rest refl) (ground arith);
      }
      chunk c1 i f v1 at_i fp n lt fits below {r = (err x, c3)} s = record {
        kept = s.kept;
        value = λ bs h. cc;
      }
      chunk c1 i f v1 at_i fp n lt fits below {r = (panic, c3)} s = record {
        kept = s.kept;
        value = λ bs h. cc;
      }

  -- A read by bytes keeps the guest's memory on every outcome, and returns the guest's bytes.
  pub read_bytes-Reads :
      (gpa len : ℕ) (c : PageCache T) → IsValid contents c → Reads c gpa len (read_bytes gpa len c)
  unfolding read_bytes
  read_bytes-Reads gpa len c v =
      Reads-bind (check_range gpa len, c) _ (Kept-refl contents c v)
        λ x h.
          let (lo, hi) = check_range-ok gpa len (ap (λ q. q.0) h) in
          let loop = read_loop-Reads len gpa len 0 c v lo hi (omega arith) (omega arith) in
          let start : gpa + 0 ≡ gpa = omega arith in
          let all : len - 0 ≡ len = omega arith in rw (start, all) at loop
