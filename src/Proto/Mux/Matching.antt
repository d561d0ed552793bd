-- ===== src/Proto/Mux/Matching.antt =====
-- crates/rv64-proto/src/lib.rs: `Mux::take_matching` takes the first frame of the type it wants.
use dc34_baonix.Base.{
  ℕ, ◌≡◌, ◌≢◌, ◌⊎◌, refl, some, none, List, [], ◌∷◌, ◌++◌, arith, ◌==◌, Bool-cases, inl, inr,
  Option-cases, ==_iff,
}
use dc34_baonix.Proto.{Frame, type_byte}
use dc34_baonix.Proto.Mux.{Mux, take_matching, remove_first}

abbrev pub NoneOf : ℕ → List Frame → Type 0
NoneOf want [] = Unit
NoneOf want (f ∷ fs) = (type_byte f ≢ want) × NoneOf want fs

-- Where the frame that was taken stood.
pub record Taken (want : ℕ) (before : List Frame) (f : Frame) (after : List Frame) : Type 0 where
  pub left : List Frame
  pub right : List Frame
  pub stood : before ≡ left ++ f ∷ right
  pub others : after ≡ left ++ right
  pub wanted : type_byte f ≡ want
  pub first : NoneOf want left

remove_first-Taken :
    (want : ℕ) (fs : List Frame) {f : Frame} {rest : List Frame}
    → remove_first want fs ≡ some (f, rest)
    → Taken want fs f rest
unfolding remove_first
remove_first-Taken want [] h = ground arith
remove_first-Taken want (g ∷ fs) {f = f} {rest = rest} h = elim (Bool-cases (type_byte g == want)) [
  | inl e ↦ record {
    left = [];
    right = fs;
    stood = ground arith;
    others = ground arith;
    wanted = ground (arith, ==_iff (type_byte g) want);
    first = tt;
  }
  | inr e ↦ elim (Option-cases (remove_first want fs)) [
    | inl none_there ↦ absurd (ground (arith, none_there))
    | inr (r, there) ↦
        let t = remove_first-Taken want fs {f = r.0} {rest = r.1} there in
        record {
          left = g ∷ t.left;
          right = t.right;
          stood = ground (arith, t.stood);
          others = ground (arith, t.others);
          wanted = ground (arith, t.wanted);
          first = (ground (arith, ==_iff (type_byte g) want), t.first);
        }
  ]
]

remove_first-NoneOf : (want : ℕ) (fs : List Frame) → remove_first want fs ≡ none → NoneOf want fs
unfolding remove_first
remove_first-NoneOf want [] h = tt
remove_first-NoneOf want (g ∷ fs) h = elim (Bool-cases (type_byte g == want)) [
  | inl e ↦ absurd (ground arith)
  | inr e ↦ elim (Option-cases (remove_first want fs)) [
    | inl none_there ↦
        (ground (arith, ==_iff (type_byte g) want), remove_first-NoneOf want fs none_there)
    | inr (r, there) ↦ absurd (ground (arith, there))
  ]
]

-- Either no held frame is of the wanted type and `take_matching` returns none and changes nothing,
-- or it returns the first held frame of that type and takes exactly that one out of the held ones.
pub take_matching_lem :
    (want : ℕ) (m : Mux)
    → (NoneOf want m.held × (take_matching want m ≡ (none, m)))
      ⊎ ((f : Frame) × (rest : List Frame) × Taken want m.held f rest
          × (take_matching want m ≡ (some f, record m { held = rest })))
unfolding take_matching
take_matching_lem want m = elim (Option-cases (remove_first want m.held)) [
  | inl e ↦ inl (remove_first-NoneOf want m.held e, rw (e, take_matching) refl)
  | inr (r, e) ↦ inr (r.0, r.1, remove_first-Taken want m.held e, rw (e, take_matching) refl)
]
