-- ===== src/Proto/Mux/Streams.antt =====
-- crates/rv64-proto/src/lib.rs: a run of frames goes through `Mux::push` whole and in its order.
use dc34_baonix.Base.{
  ℕ, zero, suc, ◌<◌, ◌≡◌, refl, sym, ◌∙◌, ap, some, none, List, [], ◌∷◌, ◌++◌, length, arith,
}
use dc34_baonix.Proto
use dc34_baonix.Proto.{
  Frame, con_out, con_in, read_req, read_resp, write_req, write_ack, error, Decoder, next_frame,
  next_loop, encode, round, find_sync, ends_in_half, discard, capture_noise,
}
use dc34_baonix.Proto.RoundTrip.{append_assoc}
use dc34_baonix.Proto.Frames.{next_frame-encode}
use dc34_baonix.Proto.Mux.{Mux, push, push_loop, sort_frame}
use dc34_baonix.Proto.Mux.Sorting.{
  push_loop_enough, next_frame-takes, wire_of, sort_all, AllSendable,
}

abbrev pub with_buf : List ℕ → Mux → Mux
with_buf b m = record m { dec = record m.dec { buf = b } }

sort_frame-buf :
    (f : Frame) (b : List ℕ) (m : Mux) → sort_frame f (with_buf b m) ≡ with_buf b (sort_frame f m)
unfolding sort_frame
sort_frame-buf (read_req _) b m = refl
sort_frame-buf (read_resp _ _) b m = refl
sort_frame-buf (write_req _ _) b m = refl
sort_frame-buf (write_ack _) b m = refl
sort_frame-buf (con_out _) b m = refl
sort_frame-buf (con_in _) b m = refl
sort_frame-buf (error _ _) b m = refl

-- A round of the loop that takes a frame.
push_loop-taken :
    (n : ℕ) (m : Mux) {f : Frame} {d : Decoder}
    → next_frame m.dec ≡ (some f, d)
    → push_loop (suc n) m ≡ push_loop n (sort_frame f (record m { dec = d }))
unfolding push_loop
push_loop-taken n m h =
    ap
      (λ r. elim r.0 [
        | none ↦ record m { dec = r.1 }
        | some g ↦ push_loop n (sort_frame g (record m { dec = r.1 }))
      ])
      h

push_loop-frames :
    (fs : List Frame) (rest : List ℕ) (m : Mux) (n k : ℕ)
    → AllSendable fs
    → length (wire_of fs ++ rest) < n
    → length rest < k
    → push_loop n (with_buf (wire_of fs ++ rest) m) ≡ push_loop k (with_buf rest (sort_all fs m))
unfolding push_loop
push_loop-frames [] rest m n k s p q = push_loop_enough n k (with_buf rest m) p q
push_loop-frames (f ∷ fs) rest m zero k s p q = absurd (omega arith)
push_loop-frames (f ∷ fs) rest m (suc n) k (s, ss) p q =
    let tail = wire_of fs ++ rest in
    let joined : wire_of (f ∷ fs) ++ rest ≡ encode f [] ++ tail =
      append_assoc (encode f []) (wire_of fs) rest in
    let taken = next_frame-encode f tail m.dec s in
    let shorter =
      next_frame-takes (record m.dec { buf = encode f [] ++ tail }) (ap (λ r. r.0) taken) in
    let left : length (next_frame (record m.dec { buf = encode f [] ++ tail })).1.buf
        ≡ length tail =
      ap (λ r. length r.1.buf) taken in
    let whole = ap length joined in
    ap (λ b. push_loop (suc n) (with_buf b m)) joined
    ∙ push_loop-taken n (with_buf (encode f [] ++ tail) m) taken
    ∙ ap (push_loop n) (sort_frame-buf f tail m)
    ∙ push_loop-frames fs rest (sort_frame f m) n k ss (omega arith) q

pub sort_all-dec : (fs : List Frame) (m : Mux) → (sort_all fs m).dec ≡ m.dec
unfolding sort_frame
sort_all-dec [] m = refl
sort_all-dec (read_req _ ∷ fs) m = sort_all-dec fs _
sort_all-dec (read_resp _ _ ∷ fs) m = sort_all-dec fs _
sort_all-dec (write_req _ _ ∷ fs) m = sort_all-dec fs _
sort_all-dec (write_ack _ ∷ fs) m = sort_all-dec fs _
sort_all-dec (con_out _ ∷ fs) m = sort_all-dec fs _
sort_all-dec (con_in _ ∷ fs) m = sort_all-dec fs _
sort_all-dec (error _ _ ∷ fs) m = sort_all-dec fs _

pub push_of_empty :
    (b : List ℕ) (m : Mux) → m.dec.buf ≡ [] → push b m ≡ push_loop (suc (length b)) (with_buf b m)
unfolding push Proto.push
push_of_empty b m e = ap (λ x. push_loop (suc (length (x ++ b))) (with_buf (x ++ b) m)) e

-- With nothing half received, pushing the bytes of any run of sendable frames and then any bytes is
-- to part the frames one after the other, in their order, and then to push those bytes.
pub push-frames :
    (fs : List Frame) (rest : List ℕ) (m : Mux)
    → AllSendable fs
    → m.dec.buf ≡ []
    → push (wire_of fs ++ rest) m ≡ push rest (sort_all fs m)
push-frames fs rest m s e =
    let same = ap (λ d. d.buf) (sort_all-dec fs m) ∙ e in
    let bytes = wire_of fs ++ rest in
    push_of_empty bytes m e
    ∙ push_loop-frames fs rest m (suc (length bytes)) (suc (length rest)) s (omega arith)
        (omega arith)
    ∙ sym (push_of_empty rest (sort_all fs m) same)
