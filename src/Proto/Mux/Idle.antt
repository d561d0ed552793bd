-- ===== src/Proto/Mux/Idle.antt =====
-- crates/rv64-proto/src/lib.rs: a multiplexer with nothing left to decode.
use dc34_baonix.Base.{
  ℕ, zero, suc, ◌≡◌, refl, sym, ◌∙◌, ap, some, none, List, [], ◌∷◌, ◌++◌, arith, Bool, true, false,
  if◌then◌else◌, take, add_usize, min, length, ◌-◌,
}
use mathlib.Core.Path.{ap₂}
use dc34_baonix.Proto.{
  Frame, Decoder, next_frame, next_loop, round, find_sync, ends_in_half, discard, capture_noise,
  drain,
}
use dc34_baonix.Proto.Mux.{Mux, push, push_loop, sort_frame}
use dc34_baonix.Proto.Mux.Sorting.{wire_of, sort_all, AllSendable}
use dc34_baonix.Proto.Mux.Streams.{push-frames, push_of_empty, sort_all-dec}

pub append_nil {ℓ} : {A : Type ℓ} (xs : List A) → xs ++ [] ≡ xs
append_nil [] = refl
append_nil (x ∷ xs) = ap (λ l. x ∷ l) (append_nil xs)

pub take-nil {ℓ} : {A : Type ℓ} (n : ℕ) → take {A = A} n [] ≡ []
take-nil zero = refl
take-nil (suc n) = refl

either_way {ℓ} : {A : Type ℓ} (b : Bool) {x y : A} → x ≡ y → (if b then x else y) ≡ y
either_way true h = h
either_way false h = refl

abbrev emptied : Decoder → Decoder
emptied d = record d { buf = [] }

capture_nothing : (d : Decoder) → capture_noise 0 (emptied d) ≡ emptied d
unfolding capture_noise
capture_nothing d =
    let none_kept : 0 - min (d.noise_cap - length d.noise) 0 ≡ 0 = omega arith in
    ap₂ (λ l n. record d { buf = []; noise = l; dropped_noise = n })
      (ap (λ l. d.noise ++ l) (take-nil _) ∙ append_nil d.noise)
      (ap (λ k. add_usize d.dropped_noise k) none_kept)

discard_nothing : (d : Decoder) → discard 0 (emptied d) ≡ emptied d
unfolding discard
discard_nothing d = ap (drain 0) (either_way d.capture (capture_nothing d))

next_frame-empty : (d : Decoder) → next_frame (emptied d) ≡ (none, emptied d)
unfolding next_frame next_loop round find_sync ends_in_half
next_frame-empty d = ap (λ e. (none, e)) (discard_nothing d)

pub push-nil : (m : Mux) → m.dec.buf ≡ [] → push [] m ≡ m
unfolding push_loop
push-nil m e =
    let idle = ap (λ b. record m.dec { buf = b }) (sym e) in
    push_of_empty [] m e
    ∙ ap
        (λ r. elim r.0 [
          | none ↦ record m { dec = r.1 }
          | some g ↦ push_loop 0 (sort_frame g (record m { dec = r.1 }))
        ])
        (next_frame-empty m.dec)
    ∙ ap (λ d. record m { dec = d }) idle

-- With nothing half received, pushing the bytes of any run of sendable frames parts exactly those
-- frames, in their order, and leaves nothing half received.
pub push-wire_of :
    (fs : List Frame) (m : Mux)
    → AllSendable fs
    → m.dec.buf ≡ []
    → push (wire_of fs) m ≡ sort_all fs m
push-wire_of fs m s e =
    ap (λ b. push b m) (sym (append_nil (wire_of fs)))
    ∙ push-frames fs [] m s e
    ∙ push-nil (sort_all fs m) (ap (λ d. d.buf) (sort_all-dec fs m) ∙ e)
