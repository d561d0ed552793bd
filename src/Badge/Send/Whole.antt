-- ===== src/Badge/Send/Whole.antt =====
-- badge/app/src/usbhost.rs: `send_paced` comes to an end, and has then sent what it says.
use dc34_baonix.Base.{ℕ, ◌≤◌, ◌≡◌, List, ◌++◌, length, take}
use dc34_baonix.Badge.Send.{
  stalled, link, timed_out, took, failed, Sender, Sending, done, fault, running,
}

abbrev pub HasEnded : {E : Type 0} → Sending E → Type 0
HasEnded done = Unit
HasEnded (fault k) = Unit
HasEnded running = ⊥

-- A sender that keeps what it says it takes, from the front of what it is offered.
pub record IsHonest {S E : Type 0} (io : Sender S E) (written : S → List ℕ) : Type 0 where
  pub gap_same : (s : S) → written (io.gap s) ≡ written s
  pub clock_same : (s : S) → written (io.out_of_time s).1 ≡ written s
  pub takes :
      (l : List ℕ) (s : S) (n : ℕ)
      → (io.write_some l s).0 ≡ took n
      → (n ≤ length l) × (written (io.write_some l s).1 ≡ written s ++ take n l)
  pub fails :
      (l : List ℕ) (s : S) (e : E)
      → (io.write_some l s).0 ≡ failed e
      → written (io.write_some l s).1 ≡ written s

-- What the end of the loop tells about the number of bytes sent.
abbrev pub Says : {E : Type 0} → List ℕ → ℕ → Sending E → Type 0
Says bytes k done = k ≡ length bytes
Says bytes k (fault (timed_out sent len)) = (sent ≡ k) × (len ≡ length bytes)
Says bytes k (fault stalled) = Unit
Says bytes k (fault (link e)) = Unit
Says bytes k running = Unit

module _ {S E : Type 0} {io : Sender S E} {written : S → List ℕ} (honest : IsHonest io written)
    (chunk : ℕ) (bytes : List ℕ) where
  -- Exactly a prefix has been sent since the sink held these bytes, and the result says which.
  abbrev pub SentPrefix : List ℕ → Sending E × S → Type 0
  SentPrefix w0 r =
      (k : ℕ) × (k ≤ length bytes) × (written r.1 ≡ w0 ++ take k bytes) × Says bytes k r.0
