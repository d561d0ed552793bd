-- ===== src/Proto/RoundTrip.antt =====
-- crates/rv64-proto/src/lib.rs: a frame that was encoded is decoded again.
use dc34_baonix.Base.{
  length-to_le, ℕ, zero, suc, ◌+◌, ◌/◌, ◌^◌, ◌<◌, ◌≤◌, ◌≡◌, refl, ◌∙◌, sym, ap, some, List, [], ◌∷◌,
  ◌++◌, length, take, drop, length-append, take-append, arith, to_le, from_le, u16, ==_refl, get_or,
  ltb, false, le→ltb,
}
use dc34_baonix.Proto.{
  Decoder, Frame, return, find_sync, finish, at_sync, round, header, trailer, max_payload, body_of,
  encode_frame_body, decode_body,
}
use dc34_baonix.Proto.Crc.{crc32, crc32-lt}

pub from_le-to_le : (n x : ℕ) → x < 256 ^ n → from_le (to_le n x) ≡ x
unfolding to_le from_le
from_le-to_le zero x h = omega arith
from_le-to_le (suc n) x h =
    let rest = from_le-to_le n (x / 256) (omega arith) in omega (arith, rest)

pub append_assoc : (xs ys zs : List ℕ) → (xs ++ ys) ++ zs ≡ xs ++ (ys ++ zs)
append_assoc [] ys zs = refl
append_assoc (x ∷ xs) ys zs = ap (λ l. x ∷ l) (append_assoc xs ys zs)

-- A prefix is dropped with more.
drop-append_more : (xs ys : List ℕ) (k : ℕ) → drop (length xs + k) (xs ++ ys) ≡ drop k ys
drop-append_more [] ys k = ap (λ n. drop n ys) {y = k} (omega arith)
drop-append_more (x ∷ xs) ys k =
    ap (λ n. drop n (x ∷ (xs ++ ys))) {y = suc (length xs + k)} (omega arith)
    ∙ drop-append_more xs ys k

pub take_at : (xs ys : List ℕ) {n : ℕ} → length xs ≡ n → take n (xs ++ ys) ≡ xs
take_at xs ys h = ap (λ n. take n (xs ++ ys)) (sym h) ∙ take-append xs ys

pub drop_at : (xs ys : List ℕ) (k : ℕ) {n : ℕ} → length xs + k ≡ n → drop n (xs ++ ys) ≡ drop k ys
drop_at xs ys k h = ap (λ n. drop n (xs ++ ys)) (sym h) ∙ drop-append_more xs ys k

-- The SYNC and what follows the body.
abbrev head : List ℕ
head = 0xC1 ∷ 0xB0 ∷ []

abbrev pub wire : ℕ → List ℕ → List ℕ → List ℕ
wire ty p rest = head ++ (body_of ty p ++ (to_le 4 (crc32 (body_of ty p)) ++ rest))

length-body_of : (ty : ℕ) (p : List ℕ) → length (body_of ty p) ≡ 3 + length p
unfolding body_of
length-body_of ty p =
    omega (arith, length-append (to_le 2 (u16 (length p))) p, length-to_le 2 (u16 (length p)))

pub encode_frame_body-wire :
    (ty : ℕ) (p rest : List ℕ) → encode_frame_body ty p [] ++ rest ≡ wire ty p rest
unfolding encode_frame_body to_le
encode_frame_body-wire ty p rest =
    ap (λ l. head ++ l) (append_assoc (body_of ty p) (to_le 4 (crc32 (body_of ty p))) rest)

body-wire :
    (ty : ℕ) (p rest : List ℕ) → take (3 + length p) (drop 2 (wire ty p rest)) ≡ body_of ty p
body-wire ty p rest = take_at (body_of ty p) _ (length-body_of ty p)

crc-wire :
    (ty : ℕ) (p rest : List ℕ)
    → from_le (take 4 (drop (header + length p) (wire ty p rest))) ≡ crc32 (body_of ty p)
crc-wire ty p rest =
    let crc = to_le 4 (crc32 (body_of ty p)) in
    let len = length-body_of ty p in
    ap (λ l. from_le (take 4 l))
      (drop_at (head ++ body_of ty p) (crc ++ rest) 0 (omega (arith, len)))
    ∙ ap from_le (take_at crc rest (length-to_le 4 _))
    ∙ from_le-to_le 4 _ (omega (arith, crc32-lt (body_of ty p)))

rest-wire : (ty : ℕ) (p rest : List ℕ) → drop (header + length p + trailer) (wire ty p rest) ≡ rest
rest-wire ty p rest =
    let crc = to_le 4 (crc32 (body_of ty p)) in
    drop_at (head ++ body_of ty p) (crc ++ rest) 4 (omega (arith, length-body_of ty p))
    ∙ drop_at crc rest 0 {n = 4} (omega (arith, length-to_le 4 (crc32 (body_of ty p))))

payload-wire : (ty : ℕ) (p rest : List ℕ) → take (length p) (drop header (wire ty p rest)) ≡ p
unfolding body_of to_le
payload-wire ty p rest = take-append p _

type-wire : (ty : ℕ) (p rest : List ℕ) → get_or (wire ty p rest) 2 0 ≡ ty
unfolding body_of
type-wire ty p rest = refl

length-wire : (ty : ℕ) (p rest : List ℕ) → length (wire ty p rest) ≡ 9 + length p + length rest
length-wire ty p rest =
    let crc = to_le 4 (crc32 (body_of ty p)) in
    omega (
      arith,
      length-append (body_of ty p) (crc ++ rest),
      length-append crc rest,
      length-to_le 4 (crc32 (body_of ty p)),
      length-body_of ty p,
    )

len-wire :
    (ty : ℕ) (p rest : List ℕ)
    → length p < 2 ^ 16
    → from_le (take 2 (drop 3 (wire ty p rest))) ≡ length p
unfolding body_of
len-wire ty p rest h =
    let len = to_le 2 (u16 (length p)) in
    ap from_le
      (ap (take 2) (append_assoc len p _) ∙ take_at len _ (length-to_le 2 (u16 (length p))))
    ∙ from_le-to_le 2 (u16 (length p)) (omega arith)
    ∙ omega arith

finish-wire :
    (ty : ℕ) (p rest : List ℕ) (d : Decoder) (f : Frame)
    → decode_body ty p ≡ some f
    → finish (length p) (record d { buf = wire ty p rest })
      ≡ return (some f) (record d { buf = rest })
unfolding finish
finish-wire ty p rest d f h =
    rw
      (
        body-wire ty p rest,
        crc-wire ty p rest,
        payload-wire ty p rest,
        ==_refl (crc32 (body_of ty p)),
        type-wire ty p rest,
        h,
      )
      (ap (λ l. return (some f) (record d { buf = l })) (rest-wire ty p rest))

at_sync-wire :
    (ty : ℕ) (p rest : List ℕ) (d : Decoder) (f : Frame)
    → length p ≤ max_payload
    → decode_body ty p ≡ some f
    → at_sync (record d { buf = wire ty p rest }) ≡ return (some f) (record d { buf = rest })
unfolding at_sync
at_sync-wire ty p rest d f short h =
    let n = length-wire ty p rest in
    let long : ltb (length (wire ty p rest)) header ≡ false = le→ltb _ _ (omega (arith, n)) in
    let whole : ltb (length (wire ty p rest)) (header + length p + trailer) ≡ false =
      le→ltb _ _ (omega (arith, n)) in
    let fits : ltb max_payload (length p) ≡ false = le→ltb _ _ (omega arith) in
    rw (len-wire ty p rest (omega arith), long, fits, whole) (finish-wire ty p rest d f h)

-- One round returns the frame that stands at the front.
pub round-wire :
    (ty : ℕ) (p rest : List ℕ) (d : Decoder) (f : Frame)
    → length p ≤ max_payload
    → decode_body ty p ≡ some f
    → round (record d { buf = wire ty p rest }) ≡ return (some f) (record d { buf = rest })
unfolding round find_sync
round-wire ty p rest d f short h = at_sync-wire ty p rest d f short h
