-- ===== src/Host/Serve/Order.antt =====
-- crates/rv64-host/src/serve.rs: the order in which the requests held are answered.
use dc34_baonix.Base.{
  ℕ, zero, suc, ◌<◌, ◌≡◌, refl, sym, ◌∙◌, ap, Option, none, some, List, [], ◌∷◌, ◌++◌, length,
  if◌then◌else◌, ◌==◌, ◌||◌, not, Bool, false, arith, Bool-cases, Option-cases, inl, inr, ==_iff,
}
use mathlib.Core.Path.{ap₂}
use dc34_baonix.Proto.{
  Frame, read_req, read_resp, write_req, write_ack, error, con_out, con_in, type_byte,
}
use dc34_baonix.Proto.Mux.{Mux, remove_first, take_matching}
use dc34_baonix.Host.{FileIo}
use dc34_baonix.Host.Serve.{Server, answer, serve_loop, next_request}

-- The frames whose type byte passes a test, in their order.
abbrev pub keep : (ℕ → Bool) → List Frame → List Frame
keep p [] = []
keep p (f ∷ fs) = if p (type_byte f) then f ∷ keep p fs else keep p fs

-- What taking the first frame of a type leaves of the others.
record Removed (want : ℕ) (fs : List Frame) (f : Frame) (rest : List Frame) : Type 0 where
  shorter : length fs ≡ suc (length rest)
  wanted : keep (λ t. t == want) fs ≡ f ∷ keep (λ t. t == want) rest
  unwanted : (p : ℕ → Bool) → p want ≡ false → keep p fs ≡ keep p rest

remove_first-Removed :
    (want : ℕ) (fs : List Frame) {f : Frame} {rest : List Frame}
    → remove_first want fs ≡ some (f, rest)
    → Removed want fs f rest
unfolding remove_first
remove_first-Removed want [] h = absurd (ground arith)
remove_first-Removed want (g ∷ fs) {f = f} {rest = rest} h =
    elim (Bool-cases (type_byte g == want)) [
      | inl e ↦
          let same : type_byte g ≡ want = (==_iff (type_byte g) want).0 e in
          record {
            shorter = ground arith;
            wanted = ground arith;
            unwanted = λ p q. ground (arith, ap p same);
          }
      | inr e ↦ elim (Option-cases (remove_first want fs)) [
        | inl none_there ↦ absurd (ground (arith, none_there))
        | inr (r, there) ↦
            let t = remove_first-Removed want fs {f = r.0} {rest = r.1} there in
            record {
              shorter = ground (arith, t.shorter);
              wanted = ground (arith, t.wanted);
              unwanted = λ p q. elim (Bool-cases (p (type_byte g))) [
                | inl passes ↦ ground (arith, passes, t.unwanted p q)
                | inr fails ↦ ground (arith, fails, t.unwanted p q)
              ];
            }
      ]
    ]

remove_first-keep :
    (want : ℕ) (fs : List Frame) → remove_first want fs ≡ none → keep (λ t. t == want) fs ≡ []
unfolding remove_first
remove_first-keep want [] h = refl
remove_first-keep want (g ∷ fs) h = elim (Bool-cases (type_byte g == want)) [
  | inl e ↦ absurd (ground arith)
  | inr e ↦ elim (Option-cases (remove_first want fs)) [
    | inl none_there ↦ rw e (remove_first-keep want fs none_there)
    | inr (r, there) ↦ absurd (ground (arith, there))
  ]
]

-- All the reads, and then all the writes.
abbrev pub requests : List Frame → List Frame
requests fs = keep (λ t. t == 0x01) fs ++ keep (λ t. t == 0x03) fs

abbrev pub is_other : ℕ → Bool
is_other t = not ((t == 0x01) || (t == 0x03))

abbrev pub without_requests : Mux → Mux
without_requests m = record m { held = keep is_other m.held }

keep-is_other :
    (fs : List Frame)
    → keep (λ t. t == 0x01) fs ≡ []
    → keep (λ t. t == 0x03) fs ≡ []
    → keep is_other fs ≡ fs
keep-is_other [] a b = refl
keep-is_other (f ∷ fs) a b = elim (Bool-cases (type_byte f == 0x01)) [
  | inl e ↦ absurd (ground arith)
  | inr e ↦ elim (Bool-cases (type_byte f == 0x03)) [
    | inl e' ↦ absurd (ground arith)
    | inr e' ↦ ground (arith, keep-is_other fs)
  ]
]

-- What a look for the next request finds.
data Found (m : Mux) : Type 0 where
  idle : next_request m ≡ (none, m) → requests m.held ≡ [] → without_requests m ≡ m → Found m
  request :
      (f : Frame) (rest : List Frame)
      → next_request m ≡ (some f, record m { held = rest })
      → length m.held ≡ suc (length rest)
      → requests m.held ≡ f ∷ requests rest
      → keep is_other m.held ≡ keep is_other rest
      → Found m

nothing_taken :
    (want : ℕ) (m : Mux) → remove_first want m.held ≡ none → take_matching want m ≡ (none, m)
unfolding take_matching
nothing_taken want m e = rw (e, take_matching) refl

first_taken :
    (want : ℕ) (m : Mux) {r : Frame × List Frame}
    → remove_first want m.held ≡ some r
    → take_matching want m ≡ (some r.0, record m { held = r.1 })
unfolding take_matching
first_taken want m e = rw (e, take_matching) refl

abbrev or_else : Option Frame × Mux → Option Frame × Mux
or_else r = elim r.0 [ some q ↦ (some q, r.1) | none ↦ take_matching 0x03 r.1 ]

nothing_first : (m : Mux) → remove_first 0x01 m.held ≡ none → next_request m ≡ take_matching 0x03 m
unfolding next_request
nothing_first m e = ap or_else (nothing_taken 0x01 m e)

next_request-Found : (m : Mux) → Found m
unfolding next_request take_matching
next_request-Found m = elim (Option-cases (remove_first 0x01 m.held)) [
  | inr (r, e) ↦
      let t = remove_first-Removed 0x01 m.held e in
      request r.0 r.1 (ap or_else (first_taken 0x01 m e)) t.shorter
        (ap (λ l. l ++ keep (λ t. t == 0x03) m.held) t.wanted
          ∙ ap (λ l. r.0 ∷ keep (λ t. t == 0x01) r.1 ++ l) (t.unwanted (λ t. t == 0x03) refl))
        (t.unwanted is_other refl)
  | inl e ↦ elim (Option-cases (remove_first 0x03 m.held)) [
    | inr (r, e') ↦
        let t = remove_first-Removed 0x03 m.held e' in
        let reads = remove_first-keep 0x01 m.held e in
        request r.0 r.1 (nothing_first m e ∙ first_taken 0x03 m e') t.shorter
          (ap (λ l. l ++ keep (λ t. t == 0x03) m.held) reads
            ∙ t.wanted
            ∙ ap (λ l. r.0 ∷ l ++ keep (λ t. t == 0x03) r.1)
                (sym reads ∙ t.unwanted (λ t. t == 0x01) refl))
          (t.unwanted is_other refl)
    | inl e' ↦
        let reads = remove_first-keep 0x01 m.held e in
        let writes = remove_first-keep 0x03 m.held e' in
        idle (nothing_first m e ∙ nothing_taken 0x03 m e')
          (ap (λ l. l ++ keep (λ t. t == 0x03) m.held) reads ∙ writes)
          (ap (λ l. record m { held = l }) (keep-is_other m.held reads writes))
  ]
]

module _ {F : Type 0} ⦃io : FileIo F⦄ where
  -- The requests of a list answered one after the other.
  abbrev pub answer_all : ℕ → List Frame → Server F → Option (Server F)
  answer_all len [] s = some s
  answer_all len (f ∷ fs) s = elim (answer len f s) [ none ↦ none | some s' ↦ answer_all len fs s' ]

  abbrev pub with_mux : Mux → Server F → Server F
  with_mux m s = record s { mux = m }

  abbrev in_some : Mux → Option (Server F) → Option (Server F)
  in_some m none = none
  in_some m (some s) = some (with_mux m s)

  -- An answer does not look at the multiplexer.
  answer-with_mux :
      (len : ℕ) (f : Frame) (m : Mux) (s : Server F)
      → answer len f (with_mux m s) ≡ in_some m (answer len f s)
  unfolding answer
  answer-with_mux len (read_req _) m s = refl
  answer-with_mux len (write_req _ _) m s = refl
  answer-with_mux len (read_resp _ _) m s = refl
  answer-with_mux len (write_ack _) m s = refl
  answer-with_mux len (con_out _) m s = refl
  answer-with_mux len (con_in _) m s = refl
  answer-with_mux len (error _ _) m s = refl

  -- A round of the loop, when the look for the next request has found this.
  abbrev round_of : ℕ → ℕ → Server F → Option Frame × Mux → Option (Server F)
  round_of n len s r = elim r.0 [
    | none ↦ some (with_mux r.1 s)
    | some q ↦ elim (answer len q (with_mux r.1 s)) [ none ↦ none | some s' ↦ serve_loop n len s' ]
  ]

abbrev InOrder : (F : Type 0) ⦃io : FileIo F⦄ → ℕ → ℕ → Type 0
InOrder F n len =
    (s : Server F)
    → length s.mux.held < n
    → serve_loop n len s
      ≡ answer_all len (requests s.mux.held) (with_mux (without_requests s.mux) s)

module _ {F : Type 0} ⦃io : FileIo F⦄ where
  -- The rest of the loop, after an answer.
  rest-InOrder :
      (n len : ℕ) (m : Mux) (a : Option (Server F))
      → InOrder F n len
      → length m.held < n
      → elim (in_some m a) [ none ↦ none | some s' ↦ serve_loop n len s' ]
        ≡ elim (in_some (without_requests m) a) [
          | none ↦ none
          | some s' ↦ answer_all len (requests m.held) s'
        ]
  rest-InOrder n len m none again h = refl
  rest-InOrder n len m (some s) again h = again (with_mux m s) h

  by-Found :
      (n len : ℕ) (s : Server F)
      → InOrder F n len
      → length s.mux.held < suc n
      → Found s.mux
      → serve_loop (suc n) len s
        ≡ answer_all len (requests s.mux.held) (with_mux (without_requests s.mux) s)
  unfolding serve_loop
  by-Found n len s again h (idle e none_left same) =
      ap (round_of n len s) e
      ∙ ap (λ x. some (with_mux x s)) (sym same)
      ∙ ap (λ l. answer_all len l (with_mux (without_requests s.mux) s)) (sym none_left)
  by-Found n len s again h (request f rest e shorter these others) =
      let m = record s.mux { held = rest } in
      ap (round_of n len s) e
      ∙ ap (λ a. elim a [ none ↦ none | some s' ↦ serve_loop n len s' ]) (answer-with_mux len f m s)
      ∙ rest-InOrder n len m (answer len f s) again (omega arith)
      ∙ ap (λ a. elim a [ none ↦ none | some s' ↦ answer_all len (requests rest) s' ])
          (sym (answer-with_mux len f (without_requests m) s))
      ∙ ap₂ (λ l k. answer_all len l (with_mux (record s.mux { held = k }) s)) (sym these)
          (sym others)

  -- The loop, with more fuel than frames are held, answers all the reads in the order in which they
  -- arrived and then all the writes in theirs, and leaves the other frames held.
  pub serve_loop-order :
      (n len : ℕ) (s : Server F)
      → length s.mux.held < n
      → serve_loop n len s
        ≡ answer_all len (requests s.mux.held) (with_mux (without_requests s.mux) s)
  serve_loop-order zero len s h = absurd (omega arith)
  serve_loop-order (suc n) len s h =
      by-Found n len s (serve_loop-order n len) h (next_request-Found s.mux)
