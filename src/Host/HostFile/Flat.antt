-- ===== src/Host/HostFile/Flat.antt =====
-- crates/rv64-host/src/hostfile.rs: a file of the host holds the guest's pages.
use dc34_baonix.Base.{
  ℕ, zero, suc, ◌+◌, ◌*◌, ◌<◌, ◌≤◌, ◌≡◌, ◌≢◌, refl, sym, ◌∙◌, ap, Option, none, some, length, leb,
  ltb, ltb→lt, ge_of_ltb, Bool-cases, inl, inr, ok, err, Outcome, Bool, true, false, if◌then◌else◌,
  ◌⊎◌, arith, get_or,
}
use dc34_baonix.Backing.{Page, MemBacking, page_size, out_of_range}
use dc34_baonix.Host.{io_then, FileIo, IsFile}
use dc34_baonix.Host.Calls.{seek_read-ok, seek_read-same, seek_write-ok, seek_write-other}
use dc34_baonix.Host.HostFile.{
  HostFile, bytes_from, bytes_of, page_of, medium_error, read_page, write_page, flush, host_file,
}

length-bytes_from : (n at : ℕ) (d : Page) → length (bytes_from n at d) ≡ n
length-bytes_from zero at d = refl
length-bytes_from (suc n) at d = ap suc (length-bytes_from n (suc at) d)

get_or-bytes_from : (n at i : ℕ) (d : Page) → i < n → get_or (bytes_from n at d) i 0 ≡ d (at + i)
get_or-bytes_from zero at i d h = absurd (omega arith)
get_or-bytes_from (suc n) at zero d h = ap d (omega arith)
get_or-bytes_from (suc n) at (suc i) d h =
    get_or-bytes_from n (suc at) i d (omega arith) ∙ ap d (omega arith)

-- What the trait's comment demands, byte by byte, of a store of pages of `page_size` bytes.
pub record ServesPages {T : Type 0} (b : MemBacking T) (contents : T → ℕ → Page) : Type 0 where
  pub read_ok :
      (p i : ℕ) (t t' : T) (d : Page)
      → b.read_page p t ≡ (ok d, t')
      → i < page_size
      → d i ≡ contents t p i
  pub read_same : (p q i : ℕ) (t : T) → contents (b.read_page p t).1 q i ≡ contents t q i
  pub write_ok :
      (p i : ℕ) (d : Page) (t t' : T)
      → b.write_page p d t ≡ (ok tt, t')
      → i < page_size
      → contents t' p i ≡ d i
  pub write_other :
      (p q i : ℕ) (d : Page) (t : T)
      → p ≢ q
      → i < page_size
      → contents (b.write_page p d t).1 q i ≡ contents t q i
  pub flush_same : (q i : ℕ) (t : T) → contents (b.flush t).1 q i ≡ contents t q i

-- `map_err` keeps the file and the value.
medium_error-file :
    {F A B : Type 0} (n : ℕ) (r : Option A × F) (k : A → B) → (medium_error n r k).1.file ≡ r.1
medium_error-file n (none, f) k = refl
medium_error-file n (some a, f) k = refl

medium_error-ok :
    {F A B : Type 0} (n : ℕ) (r : Option A × F) (k : A → B) {b : B} {t : HostFile F}
    → medium_error n r k ≡ (ok b, t)
    → (a : A) × (r ≡ (some a, t.file)) × (k a ≡ b)
medium_error-ok n (none, f) k h = absurd (ground arith)
medium_error-ok n (some a, f) k h = (a, ground arith, ground arith)

-- Two pages do not overlap.
apart :
    (p q i : ℕ) {n : ℕ}
    → p ≢ q
    → i < page_size
    → n ≡ page_size
    → (q * page_size + i < p * page_size) ⊎ (p * page_size + n ≤ q * page_size + i)
apart p q i ne lt e = elim (Bool-cases (ltb p q)) [
  | inl lt ↦ inr (ground (arith, ltb→lt p q))
  | inr ge ↦ inl (ground (arith, ge_of_ltb p q))
]

-- A page that is out of range.
guard-ok :
    {T E A : Type 0} (b : Bool) (e : E) (t : T) {t' : T} {r : Outcome E A × T} {a : A}
    → (if b then (err e, t) else r) ≡ (ok a, t')
    → r ≡ (ok a, t')
guard-ok true e t h = absurd (ground arith)
guard-ok false e t h = h

guard-keeps :
    {T E A : Type 0} (P : T → Type 0) (b : Bool) (e : E) (t : T) (r : Outcome E A × T)
    → P t
    → P r.1
    → P (if b then (err e, t) else r).1
guard-keeps P true e t r p q = p
guard-keeps P false e t r p q = q

module _ {F : Type 0} ⦃io : FileIo F⦄ {bytes : F → ℕ → ℕ} {position : F → ℕ}
    (file : IsFile io bytes position) where
  abbrev pub contents : HostFile F → ℕ → Page
  contents t p i = bytes t.file (p * page_size + i)

  file-read_ok :
      (p i : ℕ) (t t' : HostFile F) (d : Page)
      → read_page p t ≡ (ok d, t')
      → i < page_size
      → d i ≡ contents t p i
  unfolding read_page
  file-read_ok p i t t' d h lt =
      let calls = io_then (io.seek (p * page_size) t.file) (λ _. io.read_exact page_size) in
      let (l, done, whole) =
        medium_error-ok t.pages calls page_of (guard-ok (leb t.pages p) out_of_range t h) in
      sym (ap (λ f. f i) whole) ∙ (seek_read-ok file (p * page_size) page_size t.file done).1 i lt

  file-read_same : (p q i : ℕ) (t : HostFile F) → contents (read_page p t).1 q i ≡ contents t q i
  unfolding read_page
  file-read_same p q i t =
      let at = p * page_size in
      let calls = io_then (io.seek at t.file) (λ _. io.read_exact page_size) in
      guard-keeps (λ x. contents x q i ≡ contents t q i) (leb t.pages p) out_of_range t _ refl
        (ap (λ f. bytes f (q * page_size + i)) (medium_error-file t.pages calls page_of)
          ∙ seek_read-same file at page_size (q * page_size + i) t.file)

  file-write_ok :
      (p i : ℕ) (d : Page) (t t' : HostFile F)
      → write_page p d t ≡ (ok tt, t')
      → i < page_size
      → contents t' p i ≡ d i
  unfolding write_page
  file-write_ok p i d t t' h lt =
      let at = p * page_size in
      let calls = io_then (io.seek at t.file) (λ _. io.write_all (bytes_of d)) in
      let (u, done, whole) =
        medium_error-ok t.pages calls (λ u. u) (guard-ok (leb t.pages p) out_of_range t h) in
      let long = length-bytes_from page_size 0 d in
      seek_write-ok file at (bytes_of d) t.file done i (omega arith)
      ∙ get_or-bytes_from page_size 0 i d lt
      ∙ ap d (omega arith)

  file-write_other :
      (p q i : ℕ) (d : Page) (t : HostFile F)
      → p ≢ q
      → i < page_size
      → contents (write_page p d t).1 q i ≡ contents t q i
  unfolding write_page
  file-write_other p q i d t ne lt =
      let at = p * page_size in
      let calls = io_then (io.seek at t.file) (λ _. io.write_all (bytes_of d)) in
      let long = length-bytes_from page_size 0 d in
      guard-keeps (λ x. contents x q i ≡ contents t q i) (leb t.pages p) out_of_range t _ refl
        (ap (λ f. bytes f (q * page_size + i)) (medium_error-file t.pages calls (λ u. u))
          ∙ seek_write-other file at (bytes_of d) (q * page_size + i) t.file
              (apart p q i ne lt long))

  file-flush_same : (q i : ℕ) (t : HostFile F) → contents (flush t).1 q i ≡ contents t q i
  unfolding flush
  file-flush_same q i t =
      ap (λ f. bytes f (q * page_size + i)) (medium_error-file t.pages (io.flush t.file) (λ u. u))
      ∙ file.flush_same (q * page_size + i) t.file

  -- With a file that behaves as its calls' documentation says, whichever of them fail, `HostFile`
  -- serves its pages: the page read is the one in the file at that page's offset, a page written is
  -- there afterwards, and no call changes another page.
  pub host_file-ServesPages : ServesPages host_file contents
  host_file-ServesPages = record {
    read_ok = file-read_ok;
    read_same = file-read_same;
    write_ok = file-write_ok;
    write_other = file-write_other;
    flush_same = file-flush_same;
  }
