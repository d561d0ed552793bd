-- ===== src/Host/Loading/Fdt/Overwrite.antt =====
-- crates/rv64-host/src/fdt.rs: the value that is found lies in the blob, and overwriting it touches
-- nothing else.
use dc34_baonix.Base.{
  ℕ, zero, suc, ◌+◌, ◌-◌, ◌/◌, ◌%◌, ◌≤◌, ◌≡◌, refl, sym, ◌∙◌, ap, Option, none, some, List, [], ◌∷◌,
  ◌++◌, length, length-append, length-take, length-drop, take, drop, Bool, ◌&&◌, if◌then◌else◌,
  ◌==◌, ltb, arith, Bool-cases, Option-cases, inl, inr, ge_of_ltb, ==_iff, ok,
}
use mathlib.Core.Path.{subst}
use dc34_baonix.Proto.RoundTrip.{take_at, drop_at}
use dc34_baonix.Host.Loading.{get_range}
use dc34_baonix.Host.Loading.Fdt.{
  Search, Scan, missing, found, further, begin_node, property_of, property, on_token, prop_loop,
  prop_range, cstr, be32, text, same_bytes, path_of, fdt_begin_node, fdt_end_node, fdt_prop,
  fdt_nop, fdt_magic, with_header, is_some_number, set_u64, to_be,
}

-- What a round may find.
abbrev Inside : List ℕ → Scan → Type 0
Inside blob missing = Unit
Inside blob (found from to) = (from ≤ to) × (to ≤ length blob)
Inside blob (further i stack) = Unit

property_of-Inside :
    (q : Search) (i : ℕ) (stack : List (List ℕ)) (len nameoff : ℕ)
    → Inside q.blob (property_of q i stack len nameoff)
unfolding property_of
property_of-Inside q i stack len nameoff =
    let to = q.off_struct + (i + len) in
    elim (Bool-cases (ltb (length q.blob) to)) [
      | inl e ↦ rw (e, property_of) tt
      | inr e ↦ elim (Option-cases (cstr q.blob nameoff)) [
        | inl e1 ↦ rw (e, e1, property_of) tt
        | inr (end, e1) ↦
            let pname = text q.blob nameoff end in
            let wanted =
              same_bytes pname q.name
              && ltb 1 (length stack)
              && same_bytes (path_of (drop 1 stack)) q.path in
            elim (Bool-cases (q.is_utf8 pname)) [
              | inr e2 ↦ rw (e, e1, e2, property_of) tt
              | inl e2 ↦ elim (Bool-cases wanted) [
                | inl e3 ↦
                    rw (e, e1, e2, e3, property_of) (omega arith, ge_of_ltb (length q.blob) to e)
                | inr e3 ↦ rw (e, e1, e2, e3, property_of) tt
              ]
            ]
      ]
    ]

property-Inside : (q : Search) (i : ℕ) (stack : List (List ℕ)) → Inside q.blob (property q i stack)
unfolding property
property-Inside q i stack = elim (Option-cases (be32 q.struct_block i)) [
  | inl e ↦ rw (e, property) tt
  | inr (len, e) ↦ elim (Option-cases (be32 q.struct_block (i + 4))) [
    | inl e1 ↦ rw (e, e1, property) tt
    | inr (off, e1) ↦
        rw (e, e1, property) (property_of-Inside q (i + 8) stack len (q.off_strings + off))
  ]
]

begin_node-Inside :
    (q : Search) (i : ℕ) (stack : List (List ℕ)) → Inside q.blob (begin_node q i stack)
unfolding begin_node
begin_node-Inside q i stack = elim (Option-cases (cstr q.struct_block i)) [
  | inl e ↦ rw (e, begin_node) tt
  | inr (end, e) ↦ elim (Bool-cases (q.is_utf8 (text q.struct_block i end))) [
    | inl e1 ↦ rw (e, e1, begin_node) tt
    | inr e1 ↦ rw (e, e1, begin_node) tt
  ]
]

on_token-Inside :
    (q : Search) (i : ℕ) (stack : List (List ℕ)) (token : ℕ)
    → Inside q.blob (on_token q i stack token)
unfolding on_token
on_token-Inside q i stack token = elim (Bool-cases (token == fdt_begin_node)) [
  | inl e ↦ rw (e, on_token) (begin_node-Inside q i stack)
  | inr e ↦ elim (Bool-cases (token == fdt_end_node)) [
    | inl e1 ↦ rw (e, e1, on_token) tt
    | inr e1 ↦ elim (Bool-cases (token == fdt_prop)) [
      | inl e2 ↦ rw (e, e1, e2, on_token) (property-Inside q i stack)
      | inr e2 ↦ elim (Bool-cases (token == fdt_nop)) [
        | inl e3 ↦ rw (e, e1, e2, e3, on_token) tt
        | inr e3 ↦ rw (e, e1, e2, e3, on_token) tt
      ]
    ]
  ]
]

abbrev RangeInside : List ℕ → Option (ℕ × ℕ) → Type 0
RangeInside blob none = Unit
RangeInside blob (some r) = (r.0 ≤ r.1) × (r.1 ≤ length blob)

prop_loop-RangeInside :
    (fuel : ℕ) (q : Search) (i : ℕ) (stack : List (List ℕ))
    → RangeInside q.blob (prop_loop fuel q i stack)
unfolding prop_loop
prop_loop-RangeInside zero q i stack = tt
prop_loop-RangeInside (suc fuel) q i stack =
    by_token (λ j rest. prop_loop-RangeInside fuel q j rest)
      (if ltb (length q.struct_block) (i + 4) then none else be32 q.struct_block i)
  where
    by_scan :
        ((j : ℕ) (rest : List (List ℕ)) → RangeInside q.blob (prop_loop fuel q j rest))
        → (x : Scan) → Inside q.blob x
        → RangeInside q.blob (elim x [
          | missing ↦ none
          | found from to ↦ some (from, to)
          | further j rest ↦ prop_loop fuel q j rest
        ])
    by_scan again missing y = tt
    by_scan again (found from to) y = y
    by_scan again (further j rest) y = again j rest

    by_token :
        ((j : ℕ) (rest : List (List ℕ)) → RangeInside q.blob (prop_loop fuel q j rest))
        → (o : Option ℕ)
        → RangeInside q.blob (elim o [
          | none ↦ none
          | some token ↦ elim (on_token q (i + 4) stack token) [
            | missing ↦ none
            | found from to ↦ some (from, to)
            | further j rest ↦ prop_loop fuel q j rest
          ]
        ])
    by_token again none = tt
    by_token again (some token) =
        by_scan again (on_token q (i + 4) stack token) (on_token-Inside q (i + 4) stack token)

with_header-RangeInside :
    (blob : List ℕ) (k : ℕ → ℕ → ℕ → Option (ℕ × ℕ))
    → ((a b c : ℕ) → RangeInside blob (k a b c))
    → RangeInside blob (with_header blob k)
with_header-RangeInside blob k h = elim (Option-cases (be32 blob 8)) [
  | inl e ↦ rw (e, RangeInside, with_header) tt
  | inr (a, e) ↦ elim (Option-cases (be32 blob 12)) [
    | inl e1 ↦ rw (e, e1, RangeInside, with_header) tt
    | inr (b, e1) ↦ elim (Option-cases (be32 blob 36)) [
      | inl e2 ↦ rw (e, e1, e2, RangeInside, with_header) tt
      | inr (c, e2) ↦ rw (e, e1, e2, with_header) (h a b c)
    ]
  ]
]

pub prop_range-RangeInside :
    (is_utf8 : List ℕ → Bool) (blob path name : List ℕ)
    → RangeInside blob (prop_range is_utf8 blob path name)
unfolding prop_range
prop_range-RangeInside is_utf8 blob path name =
    elim (Bool-cases (is_some_number (be32 blob 0) fdt_magic)) [
      | inr e ↦ rw (e, prop_range) tt
      | inl e ↦
          rw (e, prop_range)
            (with_header-RangeInside blob _ (λ a b c.
              elim (Option-cases (get_range a (a + c) blob)) [
                | inl e1 ↦ rw e1 tt
                | inr (s, e1) ↦ rw e1 (
                    prop_loop-RangeInside (suc (length s))
                      (record {
                        is_utf8 = is_utf8;
                        blob = blob;
                        struct_block = s;
                        off_struct = a;
                        off_strings = b;
                        path = path;
                        name = name;
                      })
                      0 [])
              ]))
    ]

length-to_be : (n v : ℕ) → length (to_be n v) ≡ n
length-to_be zero v = refl
length-to_be (suc n) v =
    length-append (to_be n (v / 256)) ((v % 256) ∷ []) ∙ omega (arith, length-to_be n (v / 256))

-- A blob after eight of its bytes are overwritten.
pub record Overwritten (blob after : List ℕ) (from : ℕ) (value : ℕ) : Type 0 where
  pub whole : length after ≡ length blob
  pub before_same : take from after ≡ take from blob
  pub after_same : drop (from + 8) after ≡ drop (from + 8) blob
  pub value_there : text after from (from + 8) ≡ to_be 8 value

overwrite :
    (blob : List ℕ) (from value : ℕ)
    → from + 8 ≤ length blob
    → Overwritten blob (take from blob ++ (to_be 8 value ++ drop (from + 8) blob)) from value
overwrite blob from value inside =
    let left = take from blob in
    let mid = to_be 8 value in
    let right = drop (from + 8) blob in
    let left_long : length left ≡ from = omega (arith, length-take from blob) in
    let mid_long = length-to_be 8 value in
    let size : (from + 8) - from ≡ 8 = omega arith in
    record {
      whole = omega (
        arith,
        length-append left (mid ++ right),
        length-append mid right,
        left_long,
        mid_long,
        length-drop (from + 8) blob,
      );
      before_same = take_at left (mid ++ right) left_long;
      after_same =
          drop_at left (mid ++ right) 8 (omega (arith, left_long))
          ∙ drop_at mid right 0 {n = 8} (omega (arith, mid_long));
      value_there =
          ap (λ n. take n (drop from (left ++ (mid ++ right)))) size
          ∙ ap (take 8) (drop_at left (mid ++ right) 0 {n = from} (omega (arith, left_long)))
          ∙ take_at mid right {n = 8} mid_long;
    }

-- A device tree that `set_u64` has changed is as long as it was; the eight bytes at the place of
-- the property hold the value, its highest byte first, and every other byte is the one it was.
pub set_u64-Overwritten :
    (is_utf8 : List ℕ → Bool) (blob path name : List ℕ) (value : ℕ) {after : List ℕ}
    → set_u64 is_utf8 blob path name value ≡ ok after
    → (from : ℕ) × (prop_range is_utf8 blob path name ≡ some (from, from + 8))
      × Overwritten blob after from value
unfolding set_u64
set_u64-Overwritten is_utf8 blob path name value {after = after} h =
    elim (Option-cases (prop_range is_utf8 blob path name)) [
      | inl e ↦ absurd (ground (arith, e))
      | inr (r, e) ↦ elim (Bool-cases (r.1 - r.0 == 8)) [
        | inr wrong ↦ absurd (ground (arith, e, wrong))
        | inl right_size ↦
            let inside =
              subst (RangeInside blob) e (prop_range-RangeInside is_utf8 blob path name) in
            let eight = (==_iff (r.1 - r.0) 8).0 right_size in
            let to : r.1 ≡ r.0 + 8 = omega (arith, inside.0, eight) in
            let fits : r.0 + 8 ≤ length blob = omega (arith, inside.1, to) in
            let written : take r.0 blob ++ (to_be 8 value ++ drop r.1 blob) ≡ after =
              ground (arith, e, right_size) in
            (
              r.0,
              e ∙ ap (λ t. some (r.0, t)) to,
              subst (λ a. Overwritten blob a r.0 value)
                  (ap (λ t. take r.0 blob ++ (to_be 8 value ++ drop t blob)) (sym to) ∙ written)
                  (overwrite blob r.0 value fits),
            )
      ]
    ]
