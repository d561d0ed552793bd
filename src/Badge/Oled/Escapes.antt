-- ===== src/Badge/Oled/Escapes.antt =====
-- badge/app/src/oled.rs: a control sequence is swallowed whole.
use dc34_baonix.Base.{
  ℕ, ◌≡◌, refl, sym, ◌∙◌, ap, List, [], ◌∷◌, ◌++◌, Bool, true, false, ◌&&◌, if◌then◌else◌, leb,
}
use dc34_baonix.Badge.Oled.{Grid, Esc, ground_state, csi, put, put_ground, in_escape, write_str}

abbrev pub is_final : ℕ → Bool
is_final b = leb 0x40 b && leb b 0x7e

abbrev pub AllInner : List ℕ → Type 0
AllInner [] = Unit
AllInner (b ∷ bs) = (is_final b ≡ false) × AllInner bs

abbrev touched : Esc → Grid → Grid
touched e g = record g { dirty = true; esc = e }

in_csi :
    (ps : List ℕ) (final : ℕ) (g : Grid)
    → AllInner ps
    → is_final final ≡ true
    → write_str (ps ++ final ∷ []) (touched csi g) ≡ touched ground_state g
unfolding write_str put
in_csi [] final g inner end = rw end refl
in_csi (p ∷ ps) final g (here, inner) end =
    ap (λ b. write_str (ps ++ final ∷ []) (touched (if b then ground_state else csi) g)) here
    ∙ in_csi ps final g inner end

-- Outside an escape sequence, ESC, a bracket, any bytes that do not end the sequence, and one that
-- does, change nothing on the grid but its mark of being dirty: no cell and not the cursor.
pub escape_sequence_lem :
    (ps : List ℕ) (final : ℕ) (g : Grid)
    → g.esc ≡ ground_state
    → AllInner ps
    → is_final final ≡ true
    → write_str (0x1b ∷ 0x5b ∷ ps ++ final ∷ []) g ≡ record g { dirty = true }
unfolding write_str put put_ground
escape_sequence_lem ps final g outside inner end =
    ap (λ e. write_str (ps ++ final ∷ []) (put 0x5b (in_escape e 0x1b (record g { dirty = true }))))
      outside
    ∙ in_csi ps final g inner end
    ∙ ap (λ e. touched e g) (sym outside)
