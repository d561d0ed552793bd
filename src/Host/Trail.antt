-- ===== src/Host/Trail.antt =====
-- crates/rv64-host/src/serve.rs: `Trail`, the watch for a request that is answered twice in a row.
-- Its counters are words of the host.
use dc34_baonix.Base.{
  ℕ, ◌+◌, ◌≡◌, refl, Option, none, some, List, [], ◌∷◌, ◌++◌, length, if◌then◌else◌, ◌==◌, ◌&&◌,
  Bool, false, arith, u64, Bool-cases, inl, inr, ◌<◌, ◌^◌,
}

pub record Trail : Type 0 where
  pub last : Option (ℕ × ℕ)
  pub dupes : ℕ
  pub answered : ℕ

abbrev pub new : Trail
new = record { last = none; dupes = 0; answered = 0 }

-- A line of the report: the request's type byte and page, and the counts so far.
pub record Line : Type 0 where
  pub ty : ℕ
  pub page : ℕ
  pub dupes_so_far : ℕ
  pub answered_so_far : ℕ

abbrev pub same_request : Option (ℕ × ℕ) → ℕ × ℕ → Bool
same_request none r = false
same_request (some q) r = (q.0 == r.0) && (q.1 == r.1)

-- The loop of `note` over the answered requests.
unfoldable pub note : List (ℕ × ℕ) → Trail → List Line × Trail
note [] t = ([], t)
note (r ∷ rs) t =
    let dupes = if same_request t.last r then u64 (t.dupes + 1) else t.dupes in
    let answered = u64 (t.answered + 1) in
    let rest = note rs (record { last = some r; dupes = dupes; answered = answered }) in
    if same_request t.last r
    then (
      record { ty = r.0; page = r.1; dupes_so_far = dupes; answered_so_far = answered } ∷ rest.0,
      rest.1,
    )
    else rest

abbrev pub tally : Trail → ℕ × ℕ
tally t = (t.answered, t.dupes)

-- How often a list repeats the request before it, where `q` came before the list.
abbrev pub repeats : Option (ℕ × ℕ) → List (ℕ × ℕ) → ℕ
repeats q [] = 0
repeats q (r ∷ rs) = (if same_request q r then 1 else 0) + repeats (some r) rs

-- After any answers the tally has counted each of them and each immediate repeat, and there is one
-- line for each of those repeats, as long as the counts fit.
pub tally-note :
    (rs : List (ℕ × ℕ)) (t : Trail)
    → t.answered + length rs < 2 ^ 64
    → t.dupes + repeats t.last rs < 2 ^ 64
    → ((note rs t).1.answered ≡ t.answered + length rs)
      × ((note rs t).1.dupes ≡ t.dupes + repeats t.last rs)
      × (length (note rs t).0 ≡ repeats t.last rs)
unfolding note
tally-note [] t p q = (omega arith, omega arith, refl)
tally-note (r ∷ rs) t p q =
    let dupes = if same_request t.last r then u64 (t.dupes + 1) else t.dupes in
    let after : Trail = record { last = some r; dupes = dupes; answered = u64 (t.answered + 1) } in
    let one_more : u64 (t.answered + 1) ≡ t.answered + 1 = omega arith in
    elim (Bool-cases (same_request t.last r)) [
      | inl e ↦
          let counted : u64 (t.dupes + 1) ≡ t.dupes + 1 = ground (arith, e) in
          let rest = tally-note rs after (omega arith) (ground (arith, e, counted)) in
          (ground (arith, rest, e), ground (arith, rest, e, counted), ground (arith, rest, e))
      | inr e ↦
          let rest = tally-note rs after (omega arith) (ground (arith, e)) in
          (ground (arith, rest, e), ground (arith, rest, e), ground (arith, rest, e))
    ]

-- Answers noted in two portions are noted as in one.
pub note-append :
    (rs qs : List (ℕ × ℕ)) (t : Trail)
    → note (rs ++ qs) t ≡ ((note rs t).0 ++ (note qs (note rs t).1).0, (note qs (note rs t).1).1)
unfolding note
note-append [] qs t = refl
note-append (r ∷ rs) qs t =
    let dupes = if same_request t.last r then u64 (t.dupes + 1) else t.dupes in
    let rest =
      note-append rs qs
        (record { last = some r; dupes = dupes; answered = u64 (t.answered + 1) }) in
    ground (arith, rest)
