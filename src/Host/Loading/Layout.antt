-- ===== src/Host/Loading/Layout.antt =====
-- crates/rv64-host/src/lib.rs: the boot images do not overlap, and fit in the guest's memory.
use dc34_baonix.Base.{
  ℕ, ◌+◌, ◌%◌, ◌^◌, ◌<◌, ◌≤◌, ◌≡◌, refl, Option, none, some, arith, if◌then◌else◌, ltb, Bool-cases,
  inl, inr, ltb→lt, ge_of_ltb, sym,
}
use mathlib.Core.Path.{subst}
use dc34_baonix.Backing.{page_size}
use dc34_baonix.Host.Loading.{BootLayout, boot_layout, next_multiple_of, wrap, ram_end}

-- The first multiple at or above a number.
abbrev IsNext : ℕ → ℕ → ℕ → Type 0
IsNext m n r = (n ≤ r) × (r < n + m) × (r % m ≡ 0)

next_multiple_of-8 : (n : ℕ) → n + 8 < 2 ^ 64 → IsNext 8 n (next_multiple_of n 8)
next_multiple_of-8 n h = (ground arith, ground arith, ground arith)

next_multiple_of-page :
    (n : ℕ) → n + page_size < 2 ^ 64 → IsNext page_size n (next_multiple_of n page_size)
next_multiple_of-page n h = (ground arith, ground arith, ground arith)

-- Where an initrd of some length is, above the end of the device tree and inside memory.
abbrev pub IsInitrd : ℕ → Option ℕ → Option (ℕ × ℕ) → Type 0
IsInitrd dtb_end none none = Unit
IsInitrd dtb_end none (some r) = ⊥
IsInitrd dtb_end (some len) none = ⊥
IsInitrd dtb_end (some len) (some r) =
    (dtb_end ≤ r.0)
    × (r.0 < dtb_end + page_size)
    × (r.0 % page_size ≡ 0)
    × (r.1 ≡ r.0 + len)
    × (r.1 ≤ ram_end)

pub record IsPlaced (kernel_end dtb_len : ℕ) (initrd_len : Option ℕ) (l : BootLayout) : Type 0 where
  pub above_kernel : kernel_end ≤ l.dtb
  pub dtb_tight : l.dtb < kernel_end + 8
  pub dtb_aligned : l.dtb % 8 ≡ 0
  pub dtb_inside : l.dtb + dtb_len ≤ ram_end
  pub initrd_placed : IsInitrd (l.dtb + dtb_len) initrd_len l.initrd

abbrev pub len_or_zero : Option ℕ → ℕ
len_or_zero none = 0
len_or_zero (some n) = n

-- Either a placement, or that there is none.
abbrev pub Placement : ℕ → ℕ → Option ℕ → Option BootLayout → Type 0
Placement k d i (some l) = IsPlaced k d i l
Placement k d i none = (l : BootLayout) → ¬ IsPlaced k d i l

wrap_small : (n : ℕ) → n < 2 ^ 64 → wrap n ≡ n
wrap_small n h = omega arith

-- The layout of a device tree alone, and with an initrd, once no sum wraps around.
placed_alone :
    (k d dtb : ℕ)
    → IsNext 8 k dtb
    → Placement k d none
        (if ltb ram_end (dtb + d) then none else some (record { dtb = dtb; initrd = none }))
placed_alone k d dtb (le, lt, aligned) = elim (Bool-cases (ltb ram_end (dtb + d))) [
  | inl e ↦ rw e (λ l p.
      let too_big = ltb→lt ram_end (dtb + d) e in
      let a = p.above_kernel in
      let b = p.dtb_tight in let c = p.dtb_aligned in let f = p.dtb_inside in omega arith)
  | inr e ↦ rw e (record {
    above_kernel = le;
    dtb_tight = lt;
    dtb_aligned = aligned;
    dtb_inside = ge_of_ltb ram_end (dtb + d) e;
    initrd_placed = tt;
  })
]

same_multiple : (k a b : ℕ) → IsNext 8 k a → k ≤ b → b < k + 8 → b % 8 ≡ 0 → b ≡ a
same_multiple k a b (le, lt, aligned) x y z = omega arith

no_room :
    (start n dtb_end : ℕ) (o : Option (ℕ × ℕ))
    → IsNext page_size dtb_end start
    → ram_end < start + n
    → ¬ IsInitrd dtb_end (some n) o
no_room start n dtb_end none next big p = p
no_room start n dtb_end (some (from, to)) (le, lt, aligned) big (x, y, z, len, inside) =
    let same : from ≡ start = omega arith in omega arith

placed_with :
    (k d n dtb start : ℕ)
    → IsNext 8 k dtb
    → IsNext page_size (dtb + d) start
    → Placement k d (some n) (
        if ltb ram_end (start + n)
        then none
        else some (record { dtb = dtb; initrd = some (start, start + n) }))
placed_with k d n dtb start (le, lt, aligned) next = elim (Bool-cases (ltb ram_end (start + n))) [
  | inl e ↦ rw e (λ l p.
      let same =
        same_multiple k dtb l.dtb (le, lt, aligned) p.above_kernel p.dtb_tight p.dtb_aligned in
      let there = subst (λ x. IsInitrd (x + d) (some n) l.initrd) same p.initrd_placed in
      no_room start n (dtb + d) l.initrd next (ltb→lt ram_end (start + n) e) there)
  | inr e ↦
      let inside = ge_of_ltb ram_end (start + n) e in
      rw e (record {
        above_kernel = le;
        dtb_tight = lt;
        dtb_aligned = aligned;
        dtb_inside = omega (arith, next.0);
        initrd_placed = (next.0, next.1, next.2, refl, inside);
      })
]

-- Where no sum wraps around, the layout puts the device tree at the first multiple of 8 above the
-- kernel and the initrd on the first page above the device tree, all inside the guest's memory; and
-- it fails only when there is no such placement.
pub boot_layout-Placement :
    (k d : ℕ) (i : Option ℕ)
    → k + d + len_or_zero i + 8192 < 2 ^ 64
    → Placement k d i (boot_layout k d i)
unfolding boot_layout
boot_layout-Placement k d none small =
    let dtb = next_multiple_of k 8 in
    let next = next_multiple_of-8 k (omega arith) in
    let plain = wrap_small (dtb + d) (omega (arith, next.1)) in
    subst
      (λ e.
        Placement k d none
          (if ltb ram_end e then none else some (record { dtb = dtb; initrd = none })))
      (sym plain) (placed_alone k d dtb next)
boot_layout-Placement k d (some n) small =
    let dtb = next_multiple_of k 8 in
    let next = next_multiple_of-8 k (omega arith) in
    let plain = wrap_small (dtb + d) (omega (arith, next.1)) in
    let start = next_multiple_of (dtb + d) page_size in
    let next' = next_multiple_of-page (dtb + d) (omega (arith, next.1)) in
    let plain' = wrap_small (start + n) (omega (arith, next.1, next'.1)) in
    subst
      (λ e. Placement k d (some n) (
        if ltb ram_end (wrap (next_multiple_of e page_size + n))
        then none
        else some (record {
          dtb = dtb;
          initrd = some (next_multiple_of e page_size, wrap (next_multiple_of e page_size + n));
        })))
      (sym plain)
      (subst
        (λ e.
          Placement k d (some n)
            (if ltb ram_end e then none else some (record { dtb = dtb; initrd = some (start, e) })))
        (sym plain') (placed_with k d n dtb start next next'))
