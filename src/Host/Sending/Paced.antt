-- ===== src/Host/Sending/Paced.antt =====
-- crates/rv64-host/src/serve.rs: pacing changes when bytes are written, not which.
use dc34_baonix.Base.{
  ℕ, zero, suc, ◌≤◌, ◌≡◌, refl, sym, ◌∙◌, ap, Option, none, some, List, [], ◌∷◌, ◌++◌, length, take,
  drop, length-drop, max, arith,
}
use dc34_baonix.Proto.RoundTrip.{append_assoc}
use dc34_baonix.Proto.Mux.Idle.{append_nil}
use dc34_baonix.Host.{io_then}
use dc34_baonix.Host.Calls.{io_then-ok}
use dc34_baonix.Host.Sending.{Sink, IsSink, write_chunks, write_reply}

take-drop : (n : ℕ) (l : List ℕ) → take n l ++ drop n l ≡ l
take-drop zero l = refl
take-drop (suc n) [] = refl
take-drop (suc n) (x ∷ l) = ap (λ k. x ∷ k) (take-drop n l)

module _ {W : Type 0} ⦃sink : Sink W⦄ {written : W → List ℕ} (kept : IsSink sink written) where
  same_sink :
      (w w' : W)
      → ◌≡◌ {A = Option (Unit {0}) × W} (some tt, w) (some tt, w')
      → written w' ≡ written w ++ []
  same_sink w w' h = ap written (sym (ap (λ r. r.1) h)) ∙ sym (append_nil (written w))

  write_chunks-written :
      (n chunk : ℕ) (out : List ℕ) (w w' : W)
      → length out ≤ n
      → write_chunks n chunk out w ≡ (some tt, w')
      → written w' ≡ written w ++ out
  unfolding write_chunks
  write_chunks-written zero chunk [] w w' le h = same_sink w w' h
  write_chunks-written zero chunk (b ∷ out) w w' le h = absurd (omega arith)
  write_chunks-written (suc n) chunk [] w w' le h = same_sink w w' h
  write_chunks-written (suc n) chunk (b ∷ out) w w' le h =
      let size = max chunk 1 in
      let first = take size (b ∷ out) in
      let rest = drop size (b ∷ out) in
      let (_, done, h1) =
        io_then-ok (sink.write_all first w)
          (λ _ v. io_then (sink.flush v) (λ _. write_chunks n chunk rest)) h in
      let v = (sink.write_all first w).1 in
      let (_, flushed, h2) = io_then-ok (sink.flush v) (λ _. write_chunks n chunk rest) h1 in
      write_chunks-written n chunk rest (sink.flush v).1 w'
        (omega (arith, length-drop size (b ∷ out))) h2
      ∙ ap (λ l. l ++ rest) (kept.flush_ok v _ flushed ∙ kept.write_ok first w v done)
      ∙ append_assoc (written w) first rest
      ∙ ap (λ l. written w ++ l) (take-drop size (b ∷ out))

  -- With a sink that keeps what it is given, a reply that is written without an error has arrived
  -- whole and in its order after what was written before, whatever the pace.
  pub write_reply-written :
      (out : List ℕ) (pace : Option ℕ) (w w' : W)
      → write_reply out pace w ≡ (some tt, w')
      → written w' ≡ written w ++ out
  unfolding write_reply
  write_reply-written out none w w' h =
      let (_, done, flushed) = io_then-ok (sink.write_all out w) (λ _. sink.flush) h in
      kept.flush_ok _ w' flushed ∙ kept.write_ok out w _ done
  write_reply-written out (some chunk) w w' h =
      write_chunks-written (length out) chunk out w w' (omega arith) h
