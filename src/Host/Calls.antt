-- ===== src/Host/Calls.antt =====
-- crates/rv64-host: a call at a position, which is a seek and then the call.
use dc34_baonix.Base.{
  ℕ, ◌+◌, ◌<◌, ◌≤◌, ◌≡◌, refl, sym, ◌∙◌, ap, Option, none, some, List, length, get_or, arith, ◌⊎◌,
  inl, inr,
}
use dc34_baonix.Host.{Io, io_then, FileIo, IsFile}

-- A chain that succeeds: both its calls did.
pub io_then-ok :
    {F A B : Type 0} (r : Option A × F) (k : A → Io F B) {b : B} {t : F}
    → io_then r k ≡ (some b, t)
    → (a : A) × (r ≡ (some a, r.1)) × (k a r.1 ≡ (some b, t))
io_then-ok (none, f) k h = absurd (ground arith)
io_then-ok (some a, f) k h = (a, refl, h)

-- What both calls of a chain keep.
io_then-keeps :
    {F A B : Type 0} (P : F → Type 0) (r : Option A × F) (k : A → Io F B)
    → P r.1
    → ((a : A) → r ≡ (some a, r.1) → P (k a r.1).1)
    → P (io_then r k).1
io_then-keeps P (none, f) k p q = p
io_then-keeps P (some a, f) k p q = q a refl

module _ {F : Type 0} {io : FileIo F} {bytes : F → ℕ → ℕ} {position : F → ℕ}
    (file : IsFile io bytes position) where
  pub seek_read-ok :
      (at n : ℕ) (t : F) {l : List ℕ} {t' : F}
      → io_then (io.seek at t) (λ _. io.read_exact n) ≡ (some l, t')
      → (length l ≡ n) × ((i : ℕ) → i < n → get_or l i 0 ≡ bytes t (at + i))
  seek_read-ok at n t {l = l} {t' = t'} h =
      let (u, sought, done) = io_then-ok (io.seek at t) (λ _. io.read_exact n) h in
      let there = file.seek_ok at t (io.seek at t).1 sought in
      (
        file.read_length n _ t' l done,
        λ i lt.
            file.read_ok n i _ t' l done lt
            ∙ ap (λ q. bytes (io.seek at t).1 (q + i)) there
            ∙ file.seek_same at (at + i) t,
      )

  pub seek_read-same :
      (at n i : ℕ) (t : F) → bytes (io_then (io.seek at t) (λ _. io.read_exact n)).1 i ≡ bytes t i
  seek_read-same at n i t =
      io_then-keeps (λ x. bytes x i ≡ bytes t i) (io.seek at t) (λ _. io.read_exact n)
        (file.seek_same at i t) (λ a e. file.read_same n i (io.seek at t).1 ∙ file.seek_same at i t)

  pub seek_write-ok :
      (at : ℕ) (l : List ℕ) (t : F) {t' : F}
      → io_then (io.seek at t) (λ _. io.write_all l) ≡ (some tt, t')
      → (i : ℕ) → i < length l
      → bytes t' (at + i) ≡ get_or l i 0
  seek_write-ok at l t {t' = t'} h i lt =
      let (u, sought, done) = io_then-ok (io.seek at t) (λ _. io.write_all l) h in
      let there = file.seek_ok at t (io.seek at t).1 sought in
      ap (λ q. bytes t' (q + i)) (sym there) ∙ file.write_ok l i _ t' done lt

  pub seek_write-other :
      (at : ℕ) (l : List ℕ) (i : ℕ) (t : F)
      → (i < at) ⊎ (at + length l ≤ i)
      → bytes (io_then (io.seek at t) (λ _. io.write_all l)).1 i ≡ bytes t i
  seek_write-other at l i t apart =
      io_then-keeps (λ x. bytes x i ≡ bytes t i) (io.seek at t) (λ _. io.write_all l)
        (file.seek_same at i t)
        (λ a sought.
          let there = file.seek_ok at t (io.seek at t).1 sought in
          elim apart [
            | inl below ↦ file.write_below l i _ (omega arith) ∙ file.seek_same at i t
            | inr above ↦ file.write_above l i _ (omega arith) ∙ file.seek_same at i t
          ])
