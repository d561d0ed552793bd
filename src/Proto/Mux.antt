-- ===== src/Proto/Mux.antt =====
-- crates/rv64-proto/src/lib.rs: `Mux`, which parts a stream into console bytes and page frames.
pub mod Sorting
pub mod Streams
pub mod Idle
pub mod Matching
pub mod Room
mod Tests
use dc34_baonix.Base.{
  ℕ, zero, suc, Option, none, some, List, [], ◌∷◌, ◌++◌, ◌*◌, length, if◌then◌else◌, ◌==◌,
}
use dc34_baonix.Proto
use dc34_baonix.Proto.{Frame, con_out, con_in, type_byte, Decoder, next_frame}

abbrev pub max_noise : ℕ
max_noise = 64 * 1024

pub record Mux : Type 0 where
  pub dec : Decoder
  pub console : List ℕ
  pub held : List Frame

abbrev pub new : Mux
new = record { dec = Proto.new; console = []; held = [] }

abbrev pub capturing_noise_capped : ℕ → Mux
capturing_noise_capped cap = record new { dec = Proto.capturing_noise_capped cap }

-- The decoder of `Decoder::capturing_noise` keeps `MAX_NOISE` bytes.
abbrev pub capturing_noise : Mux
capturing_noise = capturing_noise_capped max_noise

unfoldable pub take_noise : Mux → (List ℕ × ℕ) × Mux
take_noise m = ((Proto.take_noise m.dec).0, record m { dec = (Proto.take_noise m.dec).1 })

-- The body of the loop of `push`.
unfoldable pub sort_frame : Frame → Mux → Mux
sort_frame (con_in b) m = record m { console = m.console ++ b }
sort_frame (con_out b) m = record m { console = m.console ++ b }
sort_frame f m = record m { held = m.held ++ f ∷ [] }

-- The loop of `push`, with fuel. A frame that is taken leaves a shorter buffer, so one more than
-- its length is enough.
unfoldable pub push_loop : ℕ → Mux → Mux
push_loop zero m = m
push_loop (suc fuel) m =
    let (f, d) = next_frame m.dec in
    elim f [
      | none ↦ record m { dec = d }
      | some g ↦ push_loop fuel (sort_frame g (record m { dec = d }))
    ]

unfoldable pub push : List ℕ → Mux → Mux
push bytes m =
    let fed = record m { dec = Proto.push bytes m.dec } in push_loop (suc (length fed.dec.buf)) fed

-- `position` and `remove`: the first frame of the type, and the others in their order.
unfoldable pub remove_first : ℕ → List Frame → Option (Frame × List Frame)
remove_first want [] = none
remove_first want (f ∷ fs) =
    if type_byte f == want
    then some (f, fs)
    else elim (remove_first want fs) [ none ↦ none | some r ↦ some (r.0, f ∷ r.1) ]

unfoldable pub take_matching : ℕ → Mux → Option Frame × Mux
take_matching want m = elim (remove_first want m.held) [
  | none ↦ (none, m)
  | some r ↦ (some r.0, record m { held = r.1 })
]

unfoldable pub take_console : Mux → List ℕ × Mux
take_console m = (m.console, record m { console = [] })
