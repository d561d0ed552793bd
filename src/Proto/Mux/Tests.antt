-- ===== src/Proto/Mux/Tests.antt =====
-- Streams of frames.
use dc34_baonix.Base.{◌≡◌, ◌⊎◌, refl, none, some, [], ◌∷◌, ◌++◌, arith, List}
use dc34_baonix.Proto.{Frame, con_in, read_req, write_ack, error}
use dc34_baonix.Proto.Frames.{IsSendable}
use dc34_baonix.Proto.Mux.{Mux, new, push, take_matching}
use dc34_baonix.Proto.Mux.Sorting.{wire_of, sort_all, AllSendable}
use dc34_baonix.Proto.Mux.Streams.{push-frames}
use dc34_baonix.Proto.Mux.Matching.{Taken, NoneOf, take_matching_lem}

-- A keystroke before and after a request, and half a SYNC after them.
abbrev stream : List Frame
stream = con_in (0x6c ∷ []) ∷ read_req 9 ∷ con_in (0x73 ∷ []) ∷ []

stream-AllSendable : AllSendable stream
unfolding IsSendable
stream-AllSendable = (omega arith, (omega arith, (omega arith, tt)))

push-frames_example :
    push (wire_of stream ++ 0xC1 ∷ []) new ≡ push (0xC1 ∷ []) (sort_all stream new)
push-frames_example = push-frames stream (0xC1 ∷ []) new stream-AllSendable refl

abbrev holding : Mux
holding = record new { held = write_ack 3 ∷ error 1 4 ∷ write_ack 5 ∷ [] }

take_matching_lem_example :
    (NoneOf 7 holding.held × (take_matching 7 holding ≡ (none, holding)))
    ⊎ ((f : Frame) × (rest : List Frame) × Taken 7 holding.held f rest
        × (take_matching 7 holding ≡ (some f, record holding { held = rest })))
take_matching_lem_example = take_matching_lem 7 holding
