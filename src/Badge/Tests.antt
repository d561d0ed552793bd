-- ===== src/Badge/Tests.antt =====
-- The badge's end over a transport whose deliveries are set down.
use dc34_baonix.Base.{
  ◌-◌, ◌==◌, ℕ, ◌+◌, ◌<◌, ◌≡◌, refl, sym, none, some, [], ◌∷◌, ◌++◌, List, length, arith, Option,
  true, false, take, min,
}
use dc34_baonix.Proto.{read_req, error, encode}
use dc34_baonix.Badge.Link
use dc34_baonix.Badge.Link.{Transport, LinkInner, fresh_mux, retry_budget, ty_read_resp, frame_page}
use dc34_baonix.Badge.Link.Exchange.{Sent, Progress, wait_loop, exchange}
use dc34_baonix.Badge.Link.Conclusions.{SentAgain, exchange-sends}
use dc34_baonix.Badge.Link.Logged.{IsLogged, or_empty}
use dc34_baonix.Proto.Mux.Idle.{append_nil}
use dc34_baonix.Proto.Mux.Room.{room}
use dc34_baonix.Badge.Link.Deadline.{IsTicking, IsOverOrFed, wait_loop-IsOverOrFed}
use dc34_baonix.Proto.Mux.Sorting.{wire_of}
use dc34_baonix.Badge.UsbHost.{Shared, pump}
use dc34_baonix.Badge.UsbHost.Typing.{typed_frames, joined, pump-typed}
use dc34_baonix.Badge.Send.{Sender, took}
use dc34_baonix.Badge.Startup.{Waiting, with_a_clock, wait_for}
use dc34_baonix.Badge.Startup.Bounded.{IsBounded, wait_for-IsBounded}
use dc34_baonix.Badge.Oled.{blank, new, write_str}
use dc34_baonix.Badge.Oled.Printable.{IsValid, screen-IsValid}
use dc34_baonix.Badge.Oled.Escapes.{escape_sequence_lem}

-- A clock that moves on when nothing arrives, what is still to arrive, and what has come and gone.
record Scripted : Type 0 where
  time : ℕ
  arriving : List (List ℕ)
  sent : List (List ℕ)
  received : List ℕ

abbrev next_delivery : Scripted → Option (List ℕ) × Scripted
next_delivery t = elim t.arriving [
  | [] ↦ (some [], record t { time = t.time + 40 })
  | d ∷ ds ↦ (some d, record t { time = t.time + 1; arriving = ds; received = t.received ++ d })
]

instance abbrev scripted : Transport Scripted
scripted = record {
  arm = λ t. (true, t);
  send = λ b t. (none, record t { sent = t.sent ++ b ∷ [] });
  recv = next_delivery;
  poll = next_delivery;
  now_ms = λ t. (t.time, t);
  take_platform_fault = λ t. (none, t);
  status = λ t. (none, t);
}

abbrev delivering : ℕ → List (List ℕ) → List (List ℕ) → List ℕ → Scripted
delivering n ds s r = record { time = n; arriving = ds; sent = s; received = r }

delivery-received :
    (n : ℕ) (ds s : List (List ℕ)) (r : List ℕ)
    → (next_delivery (delivering n ds s r)).1.received
      ≡ r ++ or_empty (next_delivery (delivering n ds s r)).0
delivery-received n [] s r = sym (append_nil r)
delivery-received n (d ∷ ds) s r = refl

delivery-sent :
    (n : ℕ) (ds s : List (List ℕ)) (r : List ℕ) → (next_delivery (delivering n ds s r)).1.sent ≡ s
delivery-sent n [] s r = refl
delivery-sent n (d ∷ ds) s r = refl

delivery-later :
    (n : ℕ) (ds s : List (List ℕ)) (r : List ℕ) → n < (next_delivery (delivering n ds s r)).1.time
delivery-later n [] s r = omega arith
delivery-later n (d ∷ ds) s r = omega arith

scripted-IsLogged : IsLogged scripted (λ t. t.sent) (λ t. t.received)
scripted-IsLogged = record {
  arm_sent = λ t. refl;
  arm_received = λ t. refl;
  now_sent = λ t. refl;
  now_received = λ t. refl;
  fault_sent = λ t. refl;
  fault_received = λ t. refl;
  status_sent = λ t. refl;
  status_received = λ t. refl;
  recv_sent = λ t. delivery-sent t.time t.arriving t.sent t.received;
  recv_received = λ t. delivery-received t.time t.arriving t.sent t.received;
  send_sent = λ b t. refl;
  send_received = λ b t. refl;
}

scripted-IsTicking : IsTicking scripted (λ t. t.time)
scripted-IsTicking = record {
  reads = λ t. refl;
  monotonic = λ t. omega arith;
  onward = λ t. omega (arith, delivery-later t.time t.arriving t.sent t.received);
  sleeps = λ t e. delivery-later t.time t.arriving t.sent t.received;
}

-- An error for the page arrives, and then nothing.
abbrev link : LinkInner Scripted
link = Link.new (delivering 5 (wire_of (error 1 7 ∷ []) ∷ []) [] [])

seven : frame_page (read_req 7) ≡ some 7
unfolding frame_page
seven = refl

exchange-sends_example :
    SentAgain scripted-IsLogged
      (encode (read_req 7) [])
      (retry_budget + 1)
      link.t
      (exchange 3 (read_req 7) ty_read_resp link).1.t
exchange-sends_example = exchange-sends scripted-IsLogged 3 (read_req 7) ty_read_resp 7 link seven

abbrev free_link : Shared Scripted
free_link = record { inner = link; borrowed = false }

abbrev first_attempt : Sent
first_attempt = record {
  ask = record { asked = 7; want = ty_read_resp; out = []; began = 5 };
  attempts = 1;
  sent_at = 5;
}

abbrev waiting : Progress Scripted
waiting = record { link = link; mismatched = 0; last_mismatch = none }

wait_loop-IsOverOrFed_example :
    IsOverOrFed
      (λ t. t.received)
      (5 + 2001 - 5 + room link.mux)
      9
      waiting
      (wait_loop 9 first_attempt waiting)
wait_loop-IsOverOrFed_example =
    wait_loop-IsOverOrFed scripted-IsLogged scripted-IsTicking 9 first_attempt waiting

abbrev portions : List (List ℕ)
portions = (0x6c ∷ 0x73 ∷ []) ∷ (0x0d ∷ []) ∷ []

abbrev idle_link : Shared Scripted
idle_link = record {
  inner = Link.new (delivering 5 (wire_of (typed_frames portions) ∷ []) [] []);
  borrowed = false;
}

pump-typed_example :
    ((pump idle_link).0 ≡ none)
    × ((pump idle_link).1.inner.console ≡ idle_link.inner.console ++ joined portions)
pump-typed_example =
    pump-typed idle_link portions refl refl (omega arith, (omega arith, tt)) refl refl

-- A sink that takes at most two bytes at a time.
abbrev narrow : Sender (List ℕ) (Unit {0})
narrow = record {
  write_some = λ l w. (took (min 2 (length l)), w ++ take (min 2 (length l)) l);
  gap = λ w. w;
  out_of_time = λ w. (false, w);
}

abbrev message : List ℕ
message = 1 ∷ 2 ∷ 3 ∷ 4 ∷ 5 ∷ []

screen-IsValid_example : IsValid (write_str (0x41 ∷ 0x09 ∷ 0xFF ∷ 0x0a ∷ []) new)
screen-IsValid_example = screen-IsValid (0x41 ∷ 0x09 ∷ 0xFF ∷ 0x0a ∷ [])

-- "clear the screen"
escape_sequence_lem_example :
    write_str (0x1b ∷ 0x5b ∷ 0x32 ∷ 0x4a ∷ []) blank ≡ record blank { dirty = true }
escape_sequence_lem_example = escape_sequence_lem (0x32 ∷ []) 0x4a blank refl (refl, tt) refl

-- Something that is ready at the fourth look, without a clock.
abbrev fourth_time : Waiting ℕ
fourth_time = record { ready = λ n. (n == 0, n); clock = none; backoff = λ n. n - 1 }

wait_for-IsBounded_example : IsBounded with_a_clock (wait_for fourth_time with_a_clock 3).0
wait_for-IsBounded_example = wait_for-IsBounded fourth_time with_a_clock 3
