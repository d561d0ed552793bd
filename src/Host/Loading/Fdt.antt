-- ===== src/Host/Loading/Fdt.antt =====
-- crates/rv64-host/src/fdt.rs: a property of the flattened device tree, found and overwritten. That
-- a name is UTF-8 is asked of the standard library, a parameter.
pub mod Overwrite
use dc34_baonix.Base.{
  ℕ, zero, suc, ◌+◌, ◌-◌, ◌*◌, ◌/◌, ◌%◌, ◌≤◌, ◌≡◌, Option, none, some, List, [], ◌∷◌, ◌++◌, length,
  take, drop, Bool, true, false, ◌&&◌, if◌then◌else◌, ◌==◌, ltb, leb, not, Outcome, ok, err,
}
use dc34_baonix.Host.Loading.{get_range, is_prefix}

abbrev pub fdt_begin_node : ℕ
fdt_begin_node = 1

abbrev pub fdt_end_node : ℕ
fdt_end_node = 2

abbrev pub fdt_prop : ℕ
fdt_prop = 3

abbrev pub fdt_nop : ℕ
fdt_nop = 4

abbrev pub fdt_magic : ℕ
fdt_magic = 0xd00d_feed

abbrev pub from_be_onto : ℕ → List ℕ → ℕ
from_be_onto acc [] = acc
from_be_onto acc (b ∷ bs) = from_be_onto (acc * 256 + b) bs

abbrev pub to_be : ℕ → ℕ → List ℕ
to_be zero v = []
to_be (suc n) v = to_be n (v / 256) ++ (v % 256) ∷ []

abbrev pub map_option : {A B : Type 0} → (A → B) → Option A → Option B
map_option f none = none
map_option f (some a) = some (f a)

unfoldable pub be32 : List ℕ → ℕ → Option ℕ
be32 b off = map_option (from_be_onto 0) (get_range off (off + 4) b)

abbrev pub zero_at : List ℕ → Option ℕ
zero_at [] = none
zero_at (b ∷ bs) = if b == 0 then some 0 else map_option suc (zero_at bs)

-- The closure `cstr`: where the text that starts at an offset ends.
unfoldable pub cstr : List ℕ → ℕ → Option ℕ
cstr b at = if leb at (length b) then map_option (λ n. n + at) (zero_at (drop at b)) else none

abbrev pub text : List ℕ → ℕ → ℕ → List ℕ
text b from to = take (to - from) (drop from b)

abbrev pub same_bytes : List ℕ → List ℕ → Bool
same_bytes a b = (length a == length b) && is_prefix a b

abbrev pub next_word : ℕ → ℕ
next_word n = (n + 3) / 4 * 4

-- `format!("/{}", names.join("/"))`
abbrev pub path_of : List (List ℕ) → List ℕ
path_of [] = 0x2f ∷ []
path_of (n ∷ []) = 0x2f ∷ n
path_of (n ∷ m ∷ ns) = 0x2f ∷ n ++ path_of (m ∷ ns)

abbrev pub pop : List (List ℕ) → List (List ℕ)
pop [] = []
pop (n ∷ []) = []
pop (n ∷ m ∷ ns) = n ∷ pop (m ∷ ns)

-- What a round of the loop ends in.
pub data Scan : Type 0 where
  missing : Scan
  found : ℕ → ℕ → Scan
  further : ℕ → List (List ℕ) → Scan

-- What the loop looks at and for.
pub record Search : Type 0 where
  pub is_utf8 : List ℕ → Bool
  pub blob : List ℕ
  pub struct_block : List ℕ
  pub off_struct : ℕ
  pub off_strings : ℕ
  pub path : List ℕ
  pub name : List ℕ

-- A node starts at an offset.
unfoldable pub begin_node : Search → ℕ → List (List ℕ) → Scan
begin_node q i stack = elim (cstr q.struct_block i) [
  | none ↦ missing
  | some end ↦
      let node = text q.struct_block i end in
      if q.is_utf8 node then further (next_word (end + 1)) (stack ++ node ∷ []) else missing
]

-- The property with this length, whose name is at this offset of the blob.
unfoldable pub property_of : Search → ℕ → List (List ℕ) → ℕ → ℕ → Scan
property_of q i stack len nameoff =
    let from = q.off_struct + i in
    let to = q.off_struct + (i + len) in
    let names = drop 1 stack in
    if ltb (length q.blob) to then missing else elim (cstr q.blob nameoff) [
      | none ↦ missing
      | some end ↦
          let pname = text q.blob nameoff end in
          if not (q.is_utf8 pname)
          then missing
          else if same_bytes pname q.name
              && ltb 1 (length stack)
              && same_bytes (path_of names) q.path
          then found from to
          else further (next_word (i + len)) stack
    ]

unfoldable pub property : Search → ℕ → List (List ℕ) → Scan
property q i stack = elim (be32 q.struct_block i) [
  | none ↦ missing
  | some len ↦ elim (be32 q.struct_block (i + 4)) [
    | none ↦ missing
    | some off ↦ property_of q (i + 8) stack len (q.off_strings + off)
  ]
]

-- The match on a token, which stands before the offset.
unfoldable pub on_token : Search → ℕ → List (List ℕ) → ℕ → Scan
on_token q i stack token =
    if token == fdt_begin_node
    then begin_node q i stack
    else if token == fdt_end_node
    then further i (pop stack)
    else if token == fdt_prop
    then property q i stack
    else if token == fdt_nop
    then further i stack
    else missing

-- The loop, with fuel. A round moves on by a word at least, so the length of the block is enough.
unfoldable pub prop_loop : ℕ → Search → ℕ → List (List ℕ) → Option (ℕ × ℕ)
prop_loop zero q i stack = none
prop_loop (suc fuel) q i stack =
    elim (if ltb (length q.struct_block) (i + 4) then none else be32 q.struct_block i) [
      | none ↦ none
      | some token ↦ elim (on_token q (i + 4) stack token) [
        | missing ↦ none
        | found from to ↦ some (from, to)
        | further i' stack' ↦ prop_loop fuel q i' stack'
      ]
    ]

-- The three numbers of the header.
abbrev pub with_header : List ℕ → (ℕ → ℕ → ℕ → Option (ℕ × ℕ)) → Option (ℕ × ℕ)
with_header blob k = elim (be32 blob 8) [
  | none ↦ none
  | some a ↦ elim (be32 blob 12) [
    | none ↦ none
    | some b ↦ elim (be32 blob 36) [ none ↦ none | some c ↦ k a b c ]
  ]
]

abbrev pub is_some_number : Option ℕ → ℕ → Bool
is_some_number none n = false
is_some_number (some m) n = m == n

unfoldable pub prop_range : (List ℕ → Bool) → List ℕ → List ℕ → List ℕ → Option (ℕ × ℕ)
prop_range is_utf8 blob path name =
    if not (is_some_number (be32 blob 0) fdt_magic)
    then none
    else with_header blob (λ off_struct off_strings size.
      elim (get_range off_struct (off_struct + size) blob) [
        | none ↦ none
        | some s ↦
            prop_loop (suc (length s))
              (record {
                is_utf8 = is_utf8;
                blob = blob;
                struct_block = s;
                off_struct = off_struct;
                off_strings = off_strings;
                path = path;
                name = name;
              })
              0 []
      ])

unfoldable pub prop : (List ℕ → Bool) → List ℕ → List ℕ → List ℕ → Option (List ℕ)
prop is_utf8 blob path name =
    map_option (λ r. text blob r.0 r.1) (prop_range is_utf8 blob path name)

pub data SetError : Type 0 where
  no_property : SetError
  wrong_size : ℕ → SetError

unfoldable pub set_u64 : (List ℕ → Bool) → List ℕ → List ℕ → List ℕ → ℕ → Outcome SetError (List ℕ)
set_u64 is_utf8 blob path name value = elim (prop_range is_utf8 blob path name) [
  | none ↦ err no_property
  | some r ↦
      if r.1 - r.0 == 8
      then ok (take r.0 blob ++ (to_be 8 value ++ drop r.1 blob))
      else err (wrong_size (r.1 - r.0))
]
