-- ===== src/Host/Sending/Keys.antt =====
-- crates/rv64-host/src/serve.rs: the keys that are typed, and how their bytes are read in portions.
use dc34_baonix.Base.{
  ℕ, ◌≡◌, refl, ap, List, [], ◌∷◌, ◌++◌, Bool, true, false, ◌==◌, arith, Bool-cases, inl, inr,
}
use dc34_baonix.Host.Sending.{scan, typed, quit_key, escape_key}

-- Reading goes on after a portion in which the operator did not quit.
pub scan-append :
    (escaped : Bool) (bs cs : List ℕ)
    → (scan escaped bs).quit ≡ false
    → scan escaped (bs ++ cs) ≡ record {
      payload = (scan escaped bs).payload ++ (scan (scan escaped bs).escaped cs).payload;
      escaped = (scan (scan escaped bs).escaped cs).escaped;
      quit = (scan (scan escaped bs).escaped cs).quit;
    }
unfolding scan
scan-append escaped [] cs h = refl
scan-append true (b ∷ bs) cs h = ap (typed b) (scan-append false bs cs h)
scan-append false (b ∷ bs) cs h = elim (Bool-cases (b == escape_key)) [
  | inl e ↦ ground (arith, scan-append true bs cs)
  | inr e ↦ elim (Bool-cases (b == quit_key)) [
    | inl q ↦ absurd (ground arith)
    | inr q ↦ ground (arith, scan-append false bs cs)
  ]
]

-- The keys that make the guest receive any bytes: an escape before each byte that has a meaning.
abbrev pub keys_for : List ℕ → List ℕ
keys_for [] = []
keys_for (b ∷ bs) = escape_key ∷ b ∷ keys_for bs

-- No byte is out of reach: with an escape before each byte, any bytes at all arrive as they are, and
-- the pump goes on.
pub scan-keys_for :
    (bs : List ℕ)
    → scan false (keys_for bs) ≡ record { payload = bs; escaped = false; quit = false }
unfolding scan
scan-keys_for [] = refl
scan-keys_for (b ∷ bs) = ap (typed b) (scan-keys_for bs)
