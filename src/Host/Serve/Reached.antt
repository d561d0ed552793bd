-- ===== src/Host/Serve/Reached.antt =====
-- crates/rv64-host/src/serve.rs: every request is answered.
use dc34_baonix.Base.{
  ℕ, suc, ◌≡◌, ◌⊎◌, refl, sym, ◌∙◌, ap, Option, none, some, List, [], ◌∷◌, ◌++◌, length, ◌==◌,
  arith, Bool-cases, inl, inr, ==_iff,
}
use dc34_baonix.Proto.{
  Frame, read_req, read_resp, write_req, write_ack, error, con_out, con_in, type_byte,
}
use dc34_baonix.Proto.Mux.Idle.{append_nil}
use dc34_baonix.Proto.Mux
use dc34_baonix.Proto.Mux.{Mux}
use dc34_baonix.Host.{FileIo}
use dc34_baonix.Host.Serve.{
  Server, answer, serve_requests, read_reply, write_reply, read_page, write_page,
}
use dc34_baonix.Host.Serve.Order.{
  keep, requests, answer_all, serve_loop-order, with_mux, without_requests,
}
use dc34_baonix.Host.Serve.Replies.{
  nothing, read_reply-IsReply, write_reply-IsReply, HasAnswered, HasAnsweredOne, HasAnswered-more,
}

abbrev IsRequest : Frame → Type 0
IsRequest f = (type_byte f ≡ 0x01) ⊎ (type_byte f ≡ 0x03)

abbrev AllRequests : List Frame → Type 0
AllRequests [] = Unit
AllRequests (f ∷ fs) = IsRequest f × AllRequests fs

AllRequests-append : (fs gs : List Frame) → AllRequests fs → AllRequests gs → AllRequests (fs ++ gs)
AllRequests-append [] gs a b = b
AllRequests-append (f ∷ fs) gs (h, hs) b = (h, AllRequests-append fs gs hs b)

keep-AllRequests :
    (want : ℕ) (fs : List Frame)
    → (want ≡ 0x01) ⊎ (want ≡ 0x03)
    → AllRequests (keep (λ t. t == want) fs)
keep-AllRequests want [] w = tt
keep-AllRequests want (f ∷ fs) w = elim (Bool-cases (type_byte f == want)) [
  | inr e ↦ rw e (keep-AllRequests want fs w)
  | inl e ↦
      let same = (==_iff (type_byte f) want).0 e in
      let kind : IsRequest f = elim w [ inl x ↦ inl (same ∙ x) | inr x ↦ inr (same ∙ x) ] in
      rw e (kind, keep-AllRequests want fs w)
]

requests-AllRequests : (fs : List Frame) → AllRequests (requests fs)
requests-AllRequests fs =
    AllRequests-append _ _ (keep-AllRequests 0x01 fs (inl refl))
      (keep-AllRequests 0x03 fs (inr refl))

module _ {F : Type 0} ⦃io : FileIo F⦄ where
  -- What answering may end in: not in the arm that panics.
  abbrev pub Answers : List Frame → Server F → Option (Server F) → Type 0
  Answers fs s o = (s' : Server F) × (o ≡ some s') × HasAnswered fs s s'

  answer-Answers :
      (len : ℕ) (f : Frame) (s : Server F)
      → IsRequest f
      → (s' : Server F) × (answer len f s ≡ some s') × HasAnsweredOne f s s'
  unfolding answer type_byte
  answer-Answers len (read_req page) s r = (
    _,
    refl,
    record {
      reply = read_reply page (read_page len page s.img).0;
      fits = read_reply-IsReply page (read_page len page s.img).0;
      behind = refl;
      noted = refl;
      same = refl;
    },
  )
  answer-Answers len (write_req page d) s r = (
    _,
    refl,
    record {
      reply = write_reply page (write_page len page d s.img).0;
      fits = write_reply-IsReply page d (write_page len page d s.img).0;
      behind = refl;
      noted = refl;
      same = refl;
    },
  )
  answer-Answers len (read_resp _ _) s (inl h) = absurd (omega (arith, h))
  answer-Answers len (read_resp _ _) s (inr h) = absurd (omega (arith, h))
  answer-Answers len (write_ack _) s (inl h) = absurd (omega (arith, h))
  answer-Answers len (write_ack _) s (inr h) = absurd (omega (arith, h))
  answer-Answers len (con_out _) s (inl h) = absurd (omega (arith, h))
  answer-Answers len (con_out _) s (inr h) = absurd (omega (arith, h))
  answer-Answers len (con_in _) s (inl h) = absurd (omega (arith, h))
  answer-Answers len (con_in _) s (inr h) = absurd (omega (arith, h))
  answer-Answers len (error _ _) s (inl h) = absurd (omega (arith, h))
  answer-Answers len (error _ _) s (inr h) = absurd (omega (arith, h))

  answer_all-Answers :
      (len : ℕ) (fs : List Frame) (s : Server F)
      → AllRequests fs
      → Answers fs s (answer_all len fs s)
  answer_all-Answers len [] s h = (
    s,
    refl,
    record {
      replies = [];
      each = nothing;
      written = sym (append_nil s.out);
      recorded = sym (append_nil s.answered);
      mux_same = refl;
    },
  )
  answer_all-Answers len (f ∷ fs) s (h, hs) =
      let (s1, e, x) = answer-Answers len f s h in
      let (s2, e', y) = answer_all-Answers len fs s1 hs in
      (
        s2,
        ap (λ o. elim o [ none ↦ none | some s' ↦ answer_all len fs s' ]) e ∙ e',
        HasAnswered-more f fs s s1 s2 x y,
      )

  -- Whatever bytes arrive and whatever was held before, the arm that panics as unreachable is not
  -- reached, and when the loop ends every request then held has been answered, the reads in their
  -- order and then the writes in theirs: behind what was to be sent there is one reply for each, for
  -- its page, each is recorded once, and no request is held any more.
  pub serve_requests-Answers :
      (len : ℕ) (input : List ℕ) (img : F) (m : Mux) (out : List ℕ)
      → Answers
          (requests (Mux.push input m).held)
          (record {
            img = img;
            mux = without_requests (Mux.push input m);
            out = out;
            answered = [];
          })
          (serve_requests len input img m out)
  unfolding serve_requests
  serve_requests-Answers len input img m out =
      let fed = Mux.push input m in
      let server : Server F = record { img = img; mux = fed; out = out; answered = [] } in
      let (s, e, x) =
        answer_all-Answers len (requests fed.held) (with_mux (without_requests fed) server)
          (requests-AllRequests fed.held) in
      (s, serve_loop-order (suc (length fed.held)) len server (omega arith) ∙ e, x)
