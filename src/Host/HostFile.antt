-- ===== src/Host/HostFile.antt =====
-- crates/rv64-host/src/hostfile.rs: guest memory in a file of the host.
pub mod Flat
use dc34_baonix.Base.{
  ℕ, ◌+◌, ◌*◌, Option, none, some, List, [], ◌∷◌, ◌++◌, length, if◌then◌else◌, leb, ◌≡◌, M, Outcome,
  ok, err, get_or, zero, suc, ◌<◌, ◌≢◌, refl, arith,
}
use dc34_baonix.Backing.{Page, MemBacking, Error, page_size, out_of_range, medium}
use dc34_baonix.Host.{Io, io_then, FileIo, IsFile}

pub record HostFile (F : Type 0) : Type 0 where
  pub file : F
  pub pages : ℕ

-- A page's bytes in a row, from its first to its last.
abbrev pub bytes_from : ℕ → ℕ → Page → List ℕ
bytes_from zero at d = []
bytes_from (suc n) at d = d at ∷ bytes_from n (suc at) d

abbrev pub bytes_of : Page → List ℕ
bytes_of d = bytes_from page_size 0 d

abbrev pub page_of : List ℕ → Page
page_of l i = get_or l i 0

-- `.map_err(|_| Error::Medium)`
abbrev pub medium_error :
    {F A B : Type 0} → ℕ → Option A × F → (A → B) → Outcome Error B × HostFile F
medium_error pages (none, f) k = (err medium, record { file = f; pages = pages })
medium_error pages (some a, f) k = (ok (k a), record { file = f; pages = pages })

module _ {F : Type 0} ⦃io : FileIo F⦄ where
  unfoldable pub read_page : ℕ → M (HostFile F) Error Page
  read_page page t =
      if leb t.pages page
      then (err out_of_range, t)
      else medium_error t.pages
          (io_then (io.seek (page * page_size) t.file) (λ _. io.read_exact page_size)) page_of

  unfoldable pub write_page : ℕ → Page → M (HostFile F) Error (Unit {0})
  write_page page d t =
      if leb t.pages page
      then (err out_of_range, t)
      else medium_error t.pages
          (io_then (io.seek (page * page_size) t.file) (λ _. io.write_all (bytes_of d))) (λ u. u)

  unfoldable pub flush : M (HostFile F) Error (Unit {0})
  flush t = medium_error t.pages (io.flush t.file) (λ u. u)

  instance abbrev pub host_file : MemBacking (HostFile F)
  host_file = record { read_page = read_page; write_page = write_page; flush = flush }
