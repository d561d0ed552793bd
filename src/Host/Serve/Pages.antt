-- ===== src/Host/Serve/Pages.antt =====
-- crates/rv64-host/src/serve.rs: what a request for a page is answered with.
use dc34_baonix.Base.{
  ℕ, suc, ◌+◌, ◌*◌, ◌^◌, ◌<◌, ◌≡◌, ◌⊎◌, refl, sym, ◌∙◌, ap, Option, none, some, List, [], ◌∷◌, ◌++◌,
  length, get_or, if◌then◌else◌, Bool, true, false, arith, Option-cases, inl, inr,
}
use dc34_baonix.Proto.{
  Frame, read_req, read_resp, write_req, error, Decoder, encode, next_frame, page_bytes, type_byte,
}
use dc34_baonix.Proto.Frames.{IsSendable, next_frame-encode}
use dc34_baonix.Proto.Mux
use dc34_baonix.Proto.Mux.{Mux, sort_frame}
use dc34_baonix.Proto.Mux.Idle.{push-wire_of, append_nil}
use dc34_baonix.Host.{FileIo, IsFile}
use dc34_baonix.Host.Calls.{seek_read-ok}
use dc34_baonix.Host.Serve.{
  Server, out_of_range, read_page, write_page, read_reply, write_reply, answer, serve_loop,
  serve_requests,
}
use dc34_baonix.Host.Serve.Order.{serve_loop-order, requests, answer_all, without_requests}

-- A call that is not made when the page is out of range.
guard-ok :
    {F A : Type 0} (b : Bool) (t : F) {t' : F} {r : Option A × F} {a : A}
    → (if b then (none, t) else r) ≡ (some a, t')
    → r ≡ (some a, t')
guard-ok true t h = absurd (ground arith)
guard-ok false t h = h

guard-keeps :
    {F A : Type 0} (P : F → Type 0) (b : Bool) (t : F) (r : Option A × F)
    → P t
    → P r.1
    → P (if b then (none, t) else r).1
guard-keeps P true t r p q = p
guard-keeps P false t r p q = q

-- A frame that arrives whole where nothing is half received and nothing held.
push_one :
    (f : Frame) (m : Mux)
    → IsSendable f
    → m.dec.buf ≡ []
    → Mux.push (encode f []) m ≡ sort_frame f m
push_one f m s e =
    ap (λ b. Mux.push b m) (sym (append_nil (encode f []))) ∙ push-wire_of (f ∷ []) m (s, tt) e

module _ {F : Type 0} ⦃io : FileIo F⦄ where
  abbrev served : F → Mux → List ℕ → Server F
  served img m out = record { img = img; mux = m; out = out; answered = [] }

  -- One frame, where nothing is half received and nothing held.
  serve_one :
      (len : ℕ) (f : Frame) (img : F) (m : Mux) (out : List ℕ)
      → IsSendable f
      → m.dec.buf ≡ []
      → m.held ≡ []
      → sort_frame f m ≡ record m { held = m.held ++ f ∷ [] }
      → serve_requests len (encode f []) img m out
        ≡ answer_all len
            (requests (f ∷ []))
            (served img (without_requests (record m { held = f ∷ [] })) out)
  unfolding serve_requests
  serve_one len f img m out s e h kept =
      let one = record m { held = f ∷ [] } in
      let fed : Mux.push (encode f []) m ≡ one =
        push_one f m s e ∙ kept ∙ ap (λ l. record m { held = l ++ f ∷ [] }) h in
      ap (λ x. serve_loop (suc (length x.held)) len (served img x out)) fed
      ∙ serve_loop-order 2 len (served img one out) (omega arith)

  -- With nothing half received and nothing held, the bytes of one read request are answered with
  -- one frame, the page or the error code 1, and with one entry in the record of answers.
  pub serve_requests-read :
      (len page : ℕ) (img : F) (m : Mux) (out : List ℕ)
      → m.dec.buf ≡ []
      → m.held ≡ []
      → page < 2 ^ 32
      → serve_requests len (encode (read_req page) []) img m out
        ≡ some (record {
          img = (read_page len page img).1;
          mux = m;
          out = encode (read_reply page (read_page len page img).0) out;
          answered = (0x01, page) ∷ [];
        })
  unfolding answer IsSendable sort_frame type_byte
  serve_requests-read len page img m out e h lt =
      serve_one len (read_req page) img m out lt e h refl
      ∙ ap
          (λ l. some (record {
            img = (read_page len page img).1;
            mux = record m { held = l };
            out = encode (read_reply page (read_page len page img).0) out;
            answered = (0x01, page) ∷ [];
          }))
          (sym h)

  -- With nothing half received and nothing held, the bytes of one write request of a whole page are
  -- answered with one frame, the acknowledgement or the error code 2, and one entry in the record.
  pub serve_requests-write :
      (len page : ℕ) (d : List ℕ) (img : F) (m : Mux) (out : List ℕ)
      → m.dec.buf ≡ []
      → m.held ≡ []
      → page < 2 ^ 32
      → length d ≡ page_bytes
      → serve_requests len (encode (write_req page d) []) img m out
        ≡ some (record {
          img = (write_page len page d img).1;
          mux = m;
          out = encode (write_reply page (write_page len page d img).0) out;
          answered = (0x03, page) ∷ [];
        })
  unfolding answer IsSendable sort_frame type_byte
  serve_requests-write len page d img m out e h lt whole =
      serve_one len (write_req page d) img m out (lt, whole) e h refl
      ∙ ap
          (λ l. some (record {
            img = (write_page len page d img).1;
            mux = record m { held = l };
            out = encode (write_reply page (write_page len page d img).0) out;
            answered = (0x03, page) ∷ [];
          }))
          (sym h)

module _ {F : Type 0} ⦃io : FileIo F⦄ {bytes : F → ℕ → ℕ} {position : F → ℕ}
    (file : IsFile io bytes position) where
  -- A list holds the page of an image.
  abbrev pub IsPage : F → ℕ → List ℕ → Type 0
  IsPage img page l =
      (length l ≡ page_bytes)
      × ((i : ℕ) → i < page_bytes → get_or l i 0 ≡ bytes img (page * page_bytes + i))

  pub read_page-IsPage :
      (len page : ℕ) (img : F) {l : List ℕ} {img' : F}
      → read_page len page img ≡ (some l, img')
      → IsPage img page l
  unfolding read_page
  read_page-IsPage len page img h =
      let start = page * page_bytes in
      seek_read-ok file start page_bytes img (guard-ok (out_of_range start len) img h)

  -- Over a file, one read request is answered, and the badge's decoder finds in the answer either
  -- the error code 1 for that page or exactly the bytes that the image has at the page.
  pub read_request-answer :
      (len page : ℕ) (img : F) (m : Mux) (d : Decoder)
      → m.dec.buf ≡ []
      → m.held ≡ []
      → page < 2 ^ 32
      → (s : Server F) × (serve_requests len (encode (read_req page) []) img m [] ≡ some s)
        × (f : Frame) × (next_frame (record d { buf = s.out }) ≡ (some f, record d { buf = [] }))
        × ((f ≡ error 1 page) ⊎ ((l : List ℕ) × (f ≡ read_resp page l) × IsPage img page l))
  unfolding IsSendable
  read_request-answer len page img m d e h lt =
      let r = read_page len page img in
      let reached = serve_requests-read len page img m [] e h lt in
      let received = λ (f : Frame) (s : IsSendable f).
        ap (λ b. next_frame (record d { buf = b })) (sym (append_nil (encode f [])))
        ∙ next_frame-encode f [] d s in
      elim (Option-cases r.0) [
        | inl failed ↦ (
          _,
          reached,
          error 1 page,
          ap (λ o. next_frame (record d { buf = encode (read_reply page o) [] })) failed
              ∙ received (error 1 page) (omega arith, lt),
          inl refl,
        )
        | inr (l, got) ↦
            let whole =
              read_page-IsPage len page img {l = l} {img' = r.1} (ap (λ o. (o, r.1)) got) in
            (
              _,
              reached,
              read_resp page l,
              ap (λ o. next_frame (record d { buf = encode (read_reply page o) [] })) got
                  ∙ received (read_resp page l) (lt, whole.0),
              inr (l, refl, whole),
            )
      ]
