-- ===== src/Badge/UsbHost/Typing.antt =====
-- badge/app/src/usbhost.rs: what is typed at the host reaches the console on the badge.
use dc34_baonix.Base.{
  ℕ, ◌≤◌, ◌≡◌, refl, sym, ◌∙◌, ap, none, some, false, List, [], ◌∷◌, ◌++◌, length,
}
use dc34_baonix.Proto.{Frame, con_in, max_payload}
use dc34_baonix.Proto.Frames.{IsSendable}
use dc34_baonix.Proto.RoundTrip.{append_assoc}
use dc34_baonix.Proto.Mux
use dc34_baonix.Proto.Mux.{Mux, sort_frame}
use dc34_baonix.Proto.Mux.Sorting.{wire_of, sort_all, AllSendable}
use dc34_baonix.Proto.Mux.Idle.{push-wire_of, push-nil, append_nil}
use dc34_baonix.Badge.Link.{Transport, LinkInner, absorb, keep_console}
use dc34_baonix.Badge.Link.Exchange.{absorb_some}
use dc34_baonix.Badge.UsbHost.{Shared, pump}

-- One frame for each portion that was typed.
abbrev pub typed_frames : List (List ℕ) → List Frame
typed_frames [] = []
typed_frames (b ∷ bs) = con_in b ∷ typed_frames bs

abbrev pub joined : List (List ℕ) → List ℕ
joined [] = []
joined (b ∷ bs) = b ++ joined bs

abbrev pub AllFit : List (List ℕ) → Type 0
AllFit [] = Unit
AllFit (b ∷ bs) = (length b ≤ max_payload) × AllFit bs

typed-AllSendable : (bs : List (List ℕ)) → AllFit bs → AllSendable (typed_frames bs)
unfolding IsSendable
typed-AllSendable [] h = tt
typed-AllSendable (b ∷ bs) (h, hs) = (h, typed-AllSendable bs hs)

sort_all-typed :
    (bs : List (List ℕ)) (m : Mux)
    → sort_all (typed_frames bs) m ≡ record m { console = m.console ++ joined bs }
unfolding sort_frame
sort_all-typed [] m = ap (λ l. record m { console = l }) (sym (append_nil m.console))
sort_all-typed (b ∷ bs) m =
    sort_all-typed bs (record m { console = m.console ++ b })
    ∙ ap (λ l. record m { console = l }) (append_assoc m.console b (joined bs))

absorb-typed :
    {T : Type 0} (bs : List (List ℕ)) (l : LinkInner T)
    → AllFit bs
    → l.mux.dec.buf ≡ []
    → l.mux.console ≡ []
    → (absorb (wire_of (typed_frames bs)) l).console ≡ l.console ++ joined bs
unfolding absorb keep_console Mux.take_console
absorb-typed bs l fit idle quiet =
    ap (λ m. l.console ++ m.console)
      (push-wire_of (typed_frames bs) l.mux (typed-AllSendable bs fit) idle
        ∙ sort_all-typed bs l.mux)
    ∙ ap (λ k. l.console ++ (k ++ joined bs)) quiet

-- To absorb no bytes, or not to absorb, gives the same console.
absorb_some-console :
    {T : Type 0} (bytes : List ℕ) (l : LinkInner T)
    → l.mux.dec.buf ≡ []
    → l.mux.console ≡ []
    → (absorb_some bytes l).console ≡ (absorb bytes l).console
unfolding absorb keep_console Mux.take_console
absorb_some-console [] l idle quiet =
    sym (append_nil l.console)
    ∙ ap (λ k. l.console ++ k) (sym quiet)
    ∙ ap (λ m. l.console ++ m.console) (sym (push-nil l.mux idle))
absorb_some-console (x ∷ xs) l idle quiet = refl

module _ {T : Type 0} ⦃tr : Transport T⦄ where
  -- When the link is not borrowed and holds nothing half received, a pump that finds the frames of
  -- any portions typed at the host adds exactly those bytes, in their order, to the console, and
  -- reports no error.
  pub pump-typed :
      (s : Shared T) (bs : List (List ℕ))
      → s.borrowed ≡ false
      → (tr.poll s.inner.t).0 ≡ some (wire_of (typed_frames bs))
      → AllFit bs
      → s.inner.mux.dec.buf ≡ []
      → s.inner.mux.console ≡ []
      → ((pump s).0 ≡ none) × ((pump s).1.inner.console ≡ s.inner.console ++ joined bs)
  unfolding pump
  pump-typed s bs free polled fit idle quiet =
      let l : LinkInner T = record s.inner { op = none; t = (tr.poll s.inner.t).1 } in
      (
        rw (free, polled, pump) refl,
        rw (free, polled, pump)
            (absorb_some-console (wire_of (typed_frames bs)) l idle quiet
              ∙ absorb-typed bs l fit idle quiet),
      )
