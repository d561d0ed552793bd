-- ===== src/Host.antt =====
-- crates/rv64-host: the laptop's side of the link. Files and streams of the host system are
-- parameters: an instance of `FileIo` stands for a type with `Read + Write + Seek`.
pub mod Calls
pub mod MemFile
pub mod HostFile
pub mod Serve
pub mod Sending
pub mod Trail
pub mod Loading
mod Tests
use dc34_baonix.Base.{ℕ, ◌+◌, ◌<◌, ◌≤◌, ◌≡◌, Option, none, some, List, length, get_or}

-- A call that may fail with an `io::Error`, whose kind the callers never look at.
abbrev pub Io : Type 0 → Type 0 → Type 0
Io F A = F → Option A × F

abbrev pub io_then : {F A B : Type 0} → Option A × F → (A → Io F B) → Option B × F
io_then (none, t) k = (none, t)
io_then (some a, t) k = k a t

-- `seek(SeekFrom::Start(at))`, `read_exact` into a buffer of that length, `write_all`, `flush`.
pub record FileIo (F : Type 0) : Type 0 where
  pub seek : ℕ → Io F (Unit {0})
  pub read_exact : ℕ → Io F (List ℕ)
  pub write_all : List ℕ → Io F (Unit {0})
  pub flush : Io F (Unit {0})

-- What the documentation of those calls says of a file with these bytes and this position. A write
-- that fails may have written any part of its bytes, and no byte elsewhere.
pub record IsFile {F : Type 0} (io : FileIo F) (bytes : F → ℕ → ℕ) (position : F → ℕ) : Type 0 where
  pub seek_ok : (at : ℕ) (t t' : F) → io.seek at t ≡ (some tt, t') → position t' ≡ at
  pub seek_same : (at i : ℕ) (t : F) → bytes (io.seek at t).1 i ≡ bytes t i
  pub read_length :
      (n : ℕ) (t t' : F) (l : List ℕ) → io.read_exact n t ≡ (some l, t') → length l ≡ n
  pub read_ok :
      (n i : ℕ) (t t' : F) (l : List ℕ)
      → io.read_exact n t ≡ (some l, t')
      → i < n
      → get_or l i 0 ≡ bytes t (position t + i)
  pub read_same : (n i : ℕ) (t : F) → bytes (io.read_exact n t).1 i ≡ bytes t i
  pub write_ok :
      (l : List ℕ) (i : ℕ) (t t' : F)
      → io.write_all l t ≡ (some tt, t')
      → i < length l
      → bytes t' (position t + i) ≡ get_or l i 0
  pub write_below :
      (l : List ℕ) (i : ℕ) (t : F) → i < position t → bytes (io.write_all l t).1 i ≡ bytes t i
  pub write_above :
      (l : List ℕ) (i : ℕ) (t : F)
      → position t + length l ≤ i
      → bytes (io.write_all l t).1 i ≡ bytes t i
  pub flush_same : (i : ℕ) (t : F) → bytes (io.flush t).1 i ≡ bytes t i
