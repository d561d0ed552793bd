-- ===== src/Host/MemFile.antt =====
-- A file in memory, for the calls of crates/rv64-host on a file of the host system: it shows that
-- the documented behaviour the theorems rely on can be had.
use dc34_baonix.Base.{
  ℕ, zero, suc, ◌+◌, ◌-◌, ◌<◌, ◌≤◌, ◌≡◌, refl, ◌∙◌, ap, none, some, List, [], ◌∷◌, length, get_or,
  if◌then◌else◌, ltb, leb, ◌&&◌, arith, lt→ltb, le→leb, inl, inr, ◌⊎◌,
}
use dc34_baonix.Host.{Io, FileIo, IsFile}

pub record MemFile : Type 0 where
  pub cells : ℕ → ℕ
  pub size : ℕ
  pub at : ℕ

abbrev pub cells_from : ℕ → ℕ → (ℕ → ℕ) → List ℕ
cells_from zero i f = []
cells_from (suc n) i f = f i ∷ cells_from n (suc i) f

unfoldable pub mem_read : ℕ → Io MemFile (List ℕ)
mem_read n t =
    if ltb t.size (t.at + n)
    then (none, t)
    else (some (cells_from n t.at t.cells), record t { at = t.at + n })

-- The cells with a list laid over them.
unfoldable pub laid_over : (ℕ → ℕ) → ℕ → List ℕ → ℕ → ℕ
laid_over f at l i = if leb at i && ltb i (at + length l) then get_or l (i - at) 0 else f i

unfoldable pub mem_write : List ℕ → Io MemFile (Unit {0})
mem_write l t =
    if ltb t.size (t.at + length l)
    then (none, t)
    else (some tt, record t { cells = laid_over t.cells t.at l; at = t.at + length l })

instance abbrev pub mem_file : FileIo MemFile
mem_file = record {
  seek = λ i t. (some tt, record t { at = i });
  read_exact = mem_read;
  write_all = mem_write;
  flush = λ t. (some tt, t);
}

length-cells_from : (n i : ℕ) (f : ℕ → ℕ) → length (cells_from n i f) ≡ n
length-cells_from zero i f = refl
length-cells_from (suc n) i f = ap suc (length-cells_from n (suc i) f)

get_or-cells_from : (n i k : ℕ) (f : ℕ → ℕ) → k < n → get_or (cells_from n i f) k 0 ≡ f (i + k)
get_or-cells_from zero i k f h = absurd (omega arith)
get_or-cells_from (suc n) i zero f h = ap f (omega arith)
get_or-cells_from (suc n) i (suc k) f h =
    get_or-cells_from n (suc i) k f (omega arith) ∙ ap f (omega arith)

laid_over-inside :
    (f : ℕ → ℕ) (at i : ℕ) (l : List ℕ) → i < length l → laid_over f at l (at + i) ≡ get_or l i 0
unfolding laid_over
laid_over-inside f at i l h =
    let below : at ≤ at + i = omega arith in
    let above : at + i < at + length l = omega arith in
    let same : (at + i) - at ≡ i = omega arith in
    rw (le→leb at (at + i) below, lt→ltb (at + i) (at + length l) above)
      (ap (λ k. get_or l k 0) same)

write-cells :
    (l : List ℕ) (i : ℕ) (t : MemFile)
    → (i < t.at) ⊎ (t.at + length l ≤ i)
    → (mem_write l t).1.cells i ≡ t.cells i
unfolding mem_write laid_over
write-cells l i t (inl h) = ground arith
write-cells l i t (inr h) = ground arith

pub mem_file-IsFile : IsFile mem_file (λ t. t.cells) (λ t. t.at)
unfolding mem_read mem_write
mem_file-IsFile = record {
  seek_ok = λ i t t' h. ground arith;
  seek_same = λ i k t. refl;
  read_length = λ n t t' l h. ground (arith, length-cells_from n t.at t.cells);
  read_ok = λ n i t t' l h lt. ground (arith, get_or-cells_from n t.at i t.cells lt);
  read_same = λ n i t. ground arith;
  write_ok = λ l i t t' h lt. ground (arith, laid_over-inside t.cells t.at i l lt);
  write_below = λ l i t h. write-cells l i t (inl h);
  write_above = λ l i t h. write-cells l i t (inr h);
  flush_same = λ i t. refl;
}
