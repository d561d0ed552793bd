-- ===== src/Backing/Fake.antt =====
-- The in-memory store of crates/rv64/src/backing.rs is a flat array of pages.
use dc34_baonix.Base.{
  ℕ, ◌≡◌, ◌≢◌, refl, ◌∙◌, sym, ap, Option, none, some, ok, get_elem?, set, arith, Option-cases, inl,
  inr, get_elem?-lt, get_elem?-set_self, get_elem?-set_ne,
}
use dc34_baonix.Backing.{
  Page, zero_page, FakeBacking, fake_backing, fake_read_page, fake_write_page, IsFlatArray,
}

-- The pages past the end are never read successfully.
abbrev pub page_or_zero : Option Page → Page
page_or_zero none = zero_page
page_or_zero (some d) = d

abbrev pub contents : FakeBacking → ℕ → Page
contents t p = page_or_zero (get_elem? t.pages p)

read_same : (p : ℕ) (t : FakeBacking) → contents (fake_read_page p t).1 ≡ contents t
read_same p t = elim (Option-cases (get_elem? t.pages p)) [
  | inl h ↦ rw (h, fake_read_page) refl
  | inr (d, h) ↦ rw (h, fake_read_page) refl
]

read_ok :
    (p : ℕ) (t t' : FakeBacking) (d : Page) → fake_read_page p t ≡ (ok d, t') → d ≡ contents t p
read_ok p t t' d h = ground arith

write_ok :
    (p : ℕ) (d : Page) (t t' : FakeBacking)
    → fake_write_page p d t ≡ (ok tt, t')
    → contents t' p ≡ d
write_ok p d t t' h = elim (Option-cases (get_elem? t.pages p)) [
  | inl e ↦ ground arith
  | inr (x, e) ↦
      let stored : fake_write_page p d t ≡ (ok tt, record t { pages = set t.pages p d }) =
        rw (e, fake_write_page) refl in
      ap (λ q. contents q.1 p) (sym h ∙ stored)
      ∙ ap page_or_zero (get_elem?-set_self t.pages p d (get_elem?-lt t.pages p e))
]

write_other :
    (p q : ℕ) (d : Page) (t : FakeBacking)
    → p ≢ q
    → contents (fake_write_page p d t).1 q ≡ contents t q
write_other p q d t ne = elim (Option-cases (get_elem? t.pages p)) [
  | inl e ↦ rw (e, fake_write_page) refl
  | inr (x, e) ↦ rw (e, fake_write_page) (ap page_or_zero (get_elem?-set_ne t.pages p q d ne))
]

pub fake_backing-IsFlatArray : IsFlatArray fake_backing contents
fake_backing-IsFlatArray = record {
  read_ok = read_ok;
  read_same = read_same;
  write_ok = write_ok;
  write_other = write_other;
  flush_same = λ t. refl;
}
