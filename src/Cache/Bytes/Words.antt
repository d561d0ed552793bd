-- ===== src/Cache/Bytes/Words.antt =====
-- The accesses by words of crates/rv64/src/cache.rs read and write the guest's bytes in little-endian
-- order, on their fast path and across pages.
use dc34_baonix.Base.{
  ℕ, ◌+◌, ◌%◌, ◌<◌, ◌≤◌, ◌≡◌, refl, ◌∙◌, sym, ap, ◌⊎◌, inl, inr, true, Bool-cases, some, List,
  length, get_elem?, take, ltb, leb, arith, Outcome, ok, err, panic, M, bind, ge_of_ltb, leb→le,
  get_elem?-lt, length-take, get_elem?-take, length-to_le, to_le, from_le,
}
use dc34_baonix.Backing.{Page, Error, MemBacking, IsFlatArray, page_size}
use dc34_baonix.Cache.{PageCache, slice, splice, page_of, frame_at, set_frame, check_range}
use dc34_baonix.Cache.Valid.{IsValid, Kept, Kept-refl, Kept-trans}
use dc34_baonix.Cache.Resident.{resident}
use dc34_baonix.Cache.Resident.Kept.{frame_at-some}
use dc34_baonix.Cache.Resident.Served.{resident-Served}
use dc34_baonix.Cache.Bytes.{read_bytes, read_le, write_le}
use dc34_baonix.Cache.Bytes.Slices.{InRam, byte_at}
use dc34_baonix.Cache.Bytes.Reads.{
  Reads, check_range-ok, frame-slice, Kept-byte_at, read_bytes-Reads,
}
use dc34_baonix.Cache.Bytes.Writes.{
  Writes, Writes-bind, set_frame_lt, written, stored-IsValid, stored_outside, stored_inside,
  write_bytes-Writes,
}

ok_inj : {A : Type 0} {x y : A} → ◌≡◌ {A = Outcome Error A} (ok x) (ok y) → x ≡ y
ok_inj {x = x} e = ap (λ o. elim o [ ok z ↦ z | err _ ↦ x | panic ↦ x ]) e

module _ {T : Type 0} ⦃b : MemBacking T⦄ (contents : T → ℕ → Page)
    (flat : IsFlatArray b contents) where
  -- A call that keeps the memory and on success returns the little-endian word there.
  pub record Loads (c : PageCache T) (a n : ℕ) (r : Outcome Error ℕ × PageCache T) : Type 0 where
    pub kept : Kept contents c r.1
    pub value : (w : ℕ) → r.0 ≡ ok w → w ≡ from_le (slice (byte_at contents c) a n)

  Loads-bind :
      {X : Type 0} {c : PageCache T} {a n : ℕ} (r : Outcome Error X × PageCache T)
      (f : X → M (PageCache T) Error ℕ)
      → Kept contents c r.1
      → ((x : X) → r ≡ (ok x, r.1) → Loads r.1 a n (f x r.1))
      → Loads c a n (bind r f)
  Loads-bind {a = a} {n = n} (ok x, d) f k next =
      let s = next x refl in
      record {
        kept = Kept-trans contents k s.kept;
        value = λ w e. s.value w e ∙ ap (λ q. from_le (slice q a n)) (Kept-byte_at contents flat k);
      }
  Loads-bind (err e, d) f k next = record { kept = k; value = λ w h. cc }
  Loads-bind (panic, d) f k next = record { kept = k; value = λ w h. cc }

  in_frame :
      (n gpa : ℕ) (c : PageCache T)
      → IsValid contents c
      → InRam gpa
      → gpa % page_size + n ≤ page_size
      → Loads c gpa n (
          bind (resident (page_of gpa) c) (λ i c1.
            bind (frame_at i c1) (λ f c2. (ok (from_le (slice f.bytes (gpa % page_size) n)), c2))))
  in_frame n gpa c v ram fits =
      let s = resident-Served contents flat c (page_of gpa) v in
      Loads-bind (resident (page_of gpa) c) _ s.kept λ i h.
        let c1 = (resident (page_of gpa) c).1 in
        let (f, at_i, same) = s.has_page i (ap (λ q. q.0) h) in
        let bytes = frame-slice contents flat c1 i gpa n f s.kept.valid at_i same ram fits in
        rw (frame_at-some contents c1 i at_i, bind)
          (record {
            kept = Kept-refl contents c1 s.kept.valid;
            value = λ w e. sym (ok_inj e) ∙ ap from_le bytes;
          })

  across :
      (n gpa : ℕ) (c : PageCache T) (r : Outcome Error (List ℕ) × PageCache T)
      → Reads contents flat c gpa n r
      → Loads c gpa n (bind r (λ bs c1. (ok (from_le bs), c1)))
  across n gpa c (ok bs, d) s = record {
    kept = s.kept;
    value = λ w e. sym (ok_inj e) ∙ ap from_le (s.value bs refl);
  }
  across n gpa c (err x, d) s = record { kept = s.kept; value = λ w e. cc }
  across n gpa c (panic, d) s = record { kept = s.kept; value = λ w e. cc }

  read_le-Loads :
      (n gpa : ℕ) (c : PageCache T) → 1 ≤ n → IsValid contents c → Loads c gpa n (read_le n gpa c)
  unfolding read_le
  read_le-Loads n gpa c pos v =
      Loads-bind (check_range gpa n, c) _ (Kept-refl contents c v)
        λ x h.
          let (lo, hi) = check_range-ok gpa n (ap (λ q. q.0) h) in
          elim (Bool-cases (leb (gpa % page_size + n) page_size)) [
            | inl fits ↦ rw fits (in_frame n gpa c v (omega arith, omega arith) (leb→le _ _ fits))
            | inr over ↦
                rw over
                  (across n gpa c (read_bytes gpa n c) (read_bytes-Reads contents flat gpa n c v))
          ]

  -- In a valid cache, `read_le` of at least one byte that succeeds returns the bytes of the guest's
  -- memory as a little-endian number, whether or not they lie in one page.
  pub read_le-from_le :
      (n gpa w : ℕ) (c : PageCache T)
      → 1 ≤ n
      → IsValid contents c
      → (read_le n gpa c).0 ≡ ok w
      → w ≡ from_le (slice (byte_at contents c) gpa n)
  read_le-from_le n gpa w c pos v h = (read_le-Loads n gpa c pos v).value w h

  write_le-Writes :
      (n gpa x : ℕ) (c : PageCache T)
      → 1 ≤ n
      → n ≤ 8
      → IsValid contents c
      → Writes contents flat gpa 0 (take n (to_le 8 x)) c (write_le n gpa x c)
  unfolding write_le
  write_le-Writes n gpa x c pos top v =
      Writes-bind contents flat (check_range gpa n, c) _ (Kept-refl contents c v)
        λ u h.
          let (lo, hi) = check_range-ok gpa n (ap (λ q. q.0) h) in
          elim (Bool-cases (ltb page_size (gpa % page_size + n))) [
            | inl over ↦ rw over (write_bytes-Writes contents flat gpa (take n (to_le 8 x)) c v)
            | inr within ↦ rw within (one_frame (omega arith, omega arith) (ge_of_ltb _ _ within))
          ]
    where
      len : length (take n (to_le 8 x)) ≡ n
      len = omega (arith, length-take n (to_le 8 x), length-to_le 8 x)

      one_frame :
          InRam gpa
          → gpa % page_size + n ≤ page_size
          → Writes contents flat gpa 0 (take n (to_le 8 x)) c (
              bind (resident (page_of gpa) c) (λ i c1. bind (frame_at i c1) (λ f.
                set_frame i (record f {
                  bytes = splice f.bytes (gpa % page_size) (take n (to_le 8 x));
                  dirty = true;
                }))))
      one_frame ram fits =
          let s = resident-Served contents flat c (page_of gpa) v in
          let bs = take n (to_le 8 x) in
          Writes-bind contents flat (resident (page_of gpa) c) _ s.kept λ i h.
            let c1 = (resident (page_of gpa) c).1 in
            let (f, at_i, fp) = s.has_page i (ap (λ q. q.0) h) in
            let f' = written contents flat c1 s.kept.valid i gpa n f at_i fp ram bs len fits in
            rw
              (
                frame_at-some contents c1 i at_i,
                bind,
                set_frame_lt contents flat c1 i f' (get_elem?-lt c1.frames i at_i),
              )
              (record {
                valid =
                    stored-IsValid contents flat c1 s.kept.valid i gpa n f at_i fp ram bs len fits;
                capacity = refl;
                outside = λ a ra o.
                    stored_outside contents flat c1 s.kept.valid i gpa n f at_i fp ram bs len fits a
                      ra (ground (arith, o, len));
                inside = λ e j low lt.
                    stored_inside contents flat c1 s.kept.valid i gpa n f at_i fp ram bs len fits j
                      (omega (arith, len));
              })

  -- In a valid cache, after `write_le` of 1 to 8 bytes that succeeds each address of the range holds
  -- the byte of that place of the number.
  pub write_le_inside :
      (n gpa x j : ℕ) (c : PageCache T)
      → 1 ≤ n
      → n ≤ 8
      → IsValid contents c
      → (write_le n gpa x c).0 ≡ ok tt
      → j < n
      → get_elem? (to_le 8 x) j ≡ some (byte_at contents (write_le n gpa x c).1 (gpa + j))
  write_le_inside n gpa x j c pos top v h lt =
      let len : length (take n (to_le 8 x)) ≡ n =
        omega (arith, length-take n (to_le 8 x), length-to_le 8 x) in
      sym (get_elem?-take n j (to_le 8 x) lt)
      ∙ (write_le-Writes n gpa x c pos top v).inside h j (omega arith) (omega (arith, len))

  -- In a valid cache, `write_le` of 1 to 8 bytes leaves a valid cache and changes no byte of RAM
  -- outside of its range, whatever its outcome.
  pub write_le_outside :
      (n gpa x a : ℕ) (c : PageCache T)
      → 1 ≤ n
      → n ≤ 8
      → IsValid contents c
      → InRam a
      → (a < gpa) ⊎ (gpa + n ≤ a)
      → IsValid contents (write_le n gpa x c).1
        × (byte_at contents (write_le n gpa x c).1 a ≡ byte_at contents c a)
  write_le_outside n gpa x a c pos top v ram out =
      let w = write_le-Writes n gpa x c pos top v in
      let len : length (take n (to_le 8 x)) ≡ n =
        omega (arith, length-take n (to_le 8 x), length-to_le 8 x) in
      (w.valid, w.outside a ram (ground (arith, out, len)))
