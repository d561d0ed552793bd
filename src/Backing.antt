-- ===== src/Backing.antt =====
-- crates/rv64/src/backing.rs and the constants of crates/rv64/src/lib.rs: the interface of a store
-- of guest pages, and the in-memory store.
pub mod Fake
use dc34_baonix.Base.{
  ℕ, ◌*◌, ◌/◌, ◌^◌, ◌≡◌, ◌≢◌, Option, none, some, List, Outcome, ok, err, M, get_elem?, set, update,
}

abbrev pub page_size : ℕ
page_size = 4096

abbrev pub ram_base : ℕ
ram_base = 0x8000_0000

abbrev pub ram_size : ℕ
ram_size = 0x0200_0000

-- A `[u8; PAGE]`: the byte at each offset below `page_size`.
abbrev pub Page : Type 0
Page = ℕ → ℕ

abbrev pub zero_page : Page
zero_page _ = 0

pub data Error : Type 0 where
  out_of_range medium : Error

-- The trait `MemBacking`. `read_page` fills a buffer in the source and returns it here.
pub record MemBacking (T : Type 0) : Type 0 where
  pub read_page : ℕ → M T Error Page
  pub write_page : ℕ → Page → M T Error (Unit {0})
  pub flush : M T Error (Unit {0})

-- What the trait's comment demands of an implementation: a flat array of pages. A failed write may
-- leave anything in the page that it was given, and in no other.
pub record IsFlatArray {T : Type 0} (b : MemBacking T) (contents : T → ℕ → Page) : Type 0 where
  pub read_ok : (p : ℕ) (t t' : T) (d : Page) → b.read_page p t ≡ (ok d, t') → d ≡ contents t p
  pub read_same : (p : ℕ) (t : T) → contents (b.read_page p t).1 ≡ contents t
  pub write_ok :
      (p : ℕ) (d : Page) (t t' : T) → b.write_page p d t ≡ (ok tt, t') → contents t' p ≡ d
  pub write_other :
      (p q : ℕ) (d : Page) (t : T) → p ≢ q → contents (b.write_page p d t).1 q ≡ contents t q
  pub flush_same : (t : T) → contents (b.flush t).1 ≡ contents t

pub record FakeBacking : Type 0 where
  pub pages : List Page

abbrev pub fake_read_page : ℕ → M FakeBacking Error Page
fake_read_page page t = elim (get_elem? t.pages page) [
  | none ↦ (err out_of_range, t)
  | some p ↦ (ok p, t)
]

abbrev pub fake_write_page : ℕ → Page → M FakeBacking Error (Unit {0})
fake_write_page page d t = elim (get_elem? t.pages page) [
  | none ↦ (err out_of_range, t)
  | some _ ↦ (ok tt, record t { pages = set t.pages page d })
]

instance abbrev pub fake_backing : MemBacking FakeBacking
fake_backing = record {
  read_page = fake_read_page;
  write_page = fake_write_page;
  flush = λ t. (ok tt, t);
}
