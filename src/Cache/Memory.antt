-- ===== src/Cache/Memory.antt =====
-- crates/rv64/src/cache.rs as the guest sees it: the cache is a flat memory.
use dc34_baonix.Base.{
  ℕ, ◌+◌, ◌<◌, ◌≤◌, ◌≡◌, refl, ◌∙◌, sym, ap, ◌⊎◌, some, List, [], length, get_elem?, Outcome, ok,
  err, panic, arith, Bool-cases, inl, inr, leb, ◌&&◌,
}
use dc34_baonix.Backing.{Page, Error, MemBacking, IsFlatArray}
use dc34_baonix.Cache.{PageCache, Frame, new, slice, no_stats, ram_pages}
use mathlib.Core.Path.{subst}
use dc34_baonix.Cache.View.{view_absent}
use dc34_baonix.Cache.Valid.{IsValid, mem}
use dc34_baonix.Cache.Resident.{resident}
use dc34_baonix.Cache.Resident.Served.{resident-Served}
use dc34_baonix.Cache.Bytes.{read_bytes, write_bytes}
use dc34_baonix.Cache.Bytes.Slices.{InRam, byte_at}
use dc34_baonix.Cache.Bytes.Reads.{read_bytes-Reads}
use dc34_baonix.Cache.Bytes.Writes.{write_bytes-Writes}

module _ {T : Type 0} ⦃b : MemBacking T⦄ (contents : T → ℕ → Page)
    (flat : IsFlatArray b contents) where
  start : T → ℕ → PageCache T
  start t capacity = record {
    backing = t;
    frames = [];
    slot_of = λ _. 0;
    hand = 0;
    capacity = capacity;
    stats = no_stats;
  }

  start-IsValid : (t : T) (n : ℕ) → 1 ≤ n → n ≤ ram_pages → IsValid contents (start t n)
  unfolding start
  start-IsValid t n p q = record {
    bounded = omega arith;
    positive = p;
    fits = q;
    in_ram = λ i f h. ground arith;
    indexed = λ i f h. ground arith;
    held = λ p i lt h. absurd (omega arith);
    clean = λ i f h d. ground arith;
  }

  taken : Outcome Error (PageCache T) → PageCache T → PageCache T
  taken (ok c) d = c
  taken (err e) d = d
  taken panic d = d

  -- A cache that `new` returns is valid, and the guest's memory is what the store holds.
  pub new-IsValid :
      (t : T) (capacity p : ℕ) (c : PageCache T)
      → new t capacity ≡ ok c
      → IsValid contents c × (mem contents c p ≡ contents t p)
  unfolding new start taken
  new-IsValid t capacity p c h = elim (Bool-cases (leb 1 capacity && leb capacity ram_pages)) [
    | inl fits ↦
        let made : new t capacity ≡ ok (start t capacity) = rw fits refl in
        let same : start t capacity ≡ c = ap (λ o. taken o (start t capacity)) (sym made ∙ h) in
        subst (λ d. IsValid contents d × (mem contents d p ≡ contents t p)) same
          (
            start-IsValid t capacity (ground arith) (ground arith),
            view_absent (contents t) [] (λ _. 0) p (λ _. refl),
          )
    | inr out ↦ let none_made : new t capacity ≡ panic = rw out refl in ground arith
  ]

  -- In a valid cache, `resident` keeps the guest's memory and leaves a valid cache, whatever its
  -- outcome and whatever the store answers.
  pub resident-mem :
      (c : PageCache T) (page p : ℕ)
      → IsValid contents c
      → IsValid contents (resident page c).1
        × (mem contents (resident page c).1 p ≡ mem contents c p)
  resident-mem c page p v =
      let s = resident-Served contents flat c page v in (s.kept.valid, s.kept.same p)

  -- In a valid cache, a slot that `resident` returns holds the page it was asked for.
  pub resident-slot :
      (c : PageCache T) (page i : ℕ)
      → IsValid contents c
      → (resident page c).0 ≡ ok i
      → (f : Frame) × (get_elem? (resident page c).1.frames i ≡ some f) × (f.page ≡ page)
  resident-slot c page i v h = (resident-Served contents flat c page v).has_page i h

  -- In a valid cache, `read_bytes` that succeeds returns the bytes of the guest's memory.
  pub read_bytes-byte_at :
      (gpa len : ℕ) (c : PageCache T) (bs : List ℕ)
      → IsValid contents c
      → (read_bytes gpa len c).0 ≡ ok bs
      → bs ≡ slice (byte_at contents c) gpa len
  read_bytes-byte_at gpa len c bs v h = (read_bytes-Reads contents flat gpa len c v).value bs h

  -- In a valid cache, `read_bytes` keeps the guest's memory and leaves a valid cache, also when it
  -- fails.
  pub read_bytes-mem :
      (gpa len p : ℕ) (c : PageCache T)
      → IsValid contents c
      → IsValid contents (read_bytes gpa len c).1
        × (mem contents (read_bytes gpa len c).1 p ≡ mem contents c p)
  read_bytes-mem gpa len p c v =
      let s = read_bytes-Reads contents flat gpa len c v in (s.kept.valid, s.kept.same p)

  -- In a valid cache, after `write_bytes` that succeeds each address of the range holds the byte of
  -- the buffer.
  pub write_bytes_inside :
      (gpa j : ℕ) (buf : List ℕ) (c : PageCache T)
      → IsValid contents c
      → (write_bytes gpa buf c).0 ≡ ok tt
      → j < length buf
      → get_elem? buf j ≡ some (byte_at contents (write_bytes gpa buf c).1 (gpa + j))
  write_bytes_inside gpa j buf c v h lt =
      (write_bytes-Writes contents flat gpa buf c v).inside h j (omega arith) lt

  -- In a valid cache, `write_bytes` leaves a valid cache and changes no byte of RAM outside of its
  -- range, whatever its outcome.
  pub write_bytes_outside :
      (gpa a : ℕ) (buf : List ℕ) (c : PageCache T)
      → IsValid contents c
      → InRam a
      → (a < gpa) ⊎ (gpa + length buf ≤ a)
      → IsValid contents (write_bytes gpa buf c).1
        × (byte_at contents (write_bytes gpa buf c).1 a ≡ byte_at contents c a)
  write_bytes_outside gpa a buf c v ram out =
      let w = write_bytes-Writes contents flat gpa buf c v in
      (w.valid, w.outside a ram (ground (arith, out)))
