-- ===== src/Cache/Bytes.antt =====
-- crates/rv64/src/cache.rs: the accesses, by bytes and by little-endian words.
pub mod Slices
pub mod Reads
pub mod Writes
pub mod Words
use dc34_baonix.Base.{
  ℕ, zero, suc, ◌+◌, ◌-◌, ◌%◌, min, true, false, List, [], ◌++◌, length, take, drop, leb, ltb,
  if◌then◌else◌, Outcome, ok, M, bind, ◌>>=◌, ◌>>◌, u64, to_le, from_le,
}
use dc34_baonix.Backing.{Error, MemBacking, page_size}
use dc34_baonix.Cache.{PageCache, check_range, page_of, slice, splice, frame_at, set_frame}
use dc34_baonix.Cache.Resident.{resident}

module _ {T : Type 0} ⦃b : MemBacking T⦄ where
  -- The loop of `read_bytes` for a buffer of `len` bytes, with fuel. It returns the bytes that the
  -- source puts into the buffer from `done` on; every round reads one at least.
  unfoldable pub read_loop : ℕ → ℕ → ℕ → ℕ → M (PageCache T) Error (List ℕ)
  read_loop zero gpa len done c = (ok [], c)
  read_loop (suc fuel) gpa len done c = elim (ltb done len) [
    | false ↦ (ok [], c)
    | true ↦
        let addr = u64 (gpa + done) in
        let off = addr % page_size in
        let n = min (page_size - off) (len - done) in
        bind (resident (page_of addr) c) (λ idx c1. bind (frame_at idx c1) (λ f c2.
          bind (read_loop fuel gpa len (done + n) c2)
            (λ rest c3. (ok (slice f.bytes off n ++ rest), c3))))
  ]

  unfoldable pub read_bytes : ℕ → ℕ → M (PageCache T) Error (List ℕ)
  read_bytes gpa len c = bind (check_range gpa len, c) (λ _. read_loop len gpa len 0)

  unfoldable pub write_loop : ℕ → ℕ → List ℕ → ℕ → M (PageCache T) Error (Unit {0})
  write_loop zero gpa buf done c = (ok tt, c)
  write_loop (suc fuel) gpa buf done c = elim (ltb done (length buf)) [
    | false ↦ (ok tt, c)
    | true ↦
        let addr = u64 (gpa + done) in
        let off = addr % page_size in
        let n = min (page_size - off) (length buf - done) in
        bind (resident (page_of addr) c) (λ idx c1. bind (frame_at idx c1) (λ f c2.
          bind
            (set_frame idx
              (record f { bytes = splice f.bytes off (take n (drop done buf)); dirty = true }) c2)
            (λ _. write_loop fuel gpa buf (done + n))))
  ]

  unfoldable pub write_bytes : ℕ → List ℕ → M (PageCache T) Error (Unit {0})
  write_bytes gpa buf c =
      bind (check_range gpa (length buf), c) (λ _. write_loop (length buf) gpa buf 0)

  -- `read_le::<N>` and `write_le::<N>`: one frame if the access stays in its page.
  unfoldable pub read_le : ℕ → ℕ → M (PageCache T) Error ℕ
  read_le n gpa c =
      let off = gpa % page_size in
      bind (check_range gpa n, c)
        (λ _.
          if leb (off + n) page_size
          then (do
            idx ← resident (page_of gpa)
            f ← frame_at idx
            λ c'. (ok (from_le (slice f.bytes off n)), c'))
          else (do bytes ← read_bytes gpa n; λ c'. (ok (from_le bytes), c')))

  unfoldable pub write_le : ℕ → ℕ → ℕ → M (PageCache T) Error (Unit {0})
  write_le n gpa value c =
      let off = gpa % page_size in
      let bytes = take n (to_le 8 value) in
      bind (check_range gpa n, c)
        (λ _. if ltb page_size (off + n) then write_bytes gpa bytes else (do
          idx ← resident (page_of gpa)
          f ← frame_at idx
          set_frame idx (record f { bytes = splice f.bytes off bytes; dirty = true })))
