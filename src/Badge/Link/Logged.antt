-- ===== src/Badge/Link/Logged.antt =====
-- badge/app/src/usbhost.rs: a transport whose calls are written down, and the steps of an exchange
-- on it.
use dc34_baonix.Base.{
  ℕ, zero, suc, ◌+◌, ◌≤◌, ◌≡◌, refl, sym, ◌∙◌, ap, Option, none, some, List, [], ◌∷◌, ◌++◌, arith,
  Option-cases, inl, inr,
}
use mathlib.Core.List.{append_assoc}
use dc34_baonix.Proto.Mux
use dc34_baonix.Proto.Mux.{Mux, take_matching}
use dc34_baonix.Proto.Mux.Idle.{append_nil}
use dc34_baonix.Badge.Link.{Transport, LinkInner, with_t, absorb, keep_console, drop_matching}
use dc34_baonix.Badge.Link.Exchange.{absorb_some}

abbrev pub or_empty : Option (List ℕ) → List ℕ
or_empty none = []
or_empty (some b) = b

-- A record of what the transport has been given to send and what it has handed over, call by call.
-- It only watches: any transport can be given one.
pub record IsLogged {T : Type 0} (tr : Transport T) (sent : T → List (List ℕ))
    (received : T → List ℕ) : Type 0 where
  pub arm_sent : (t : T) → sent (tr.arm t).1 ≡ sent t
  pub arm_received : (t : T) → received (tr.arm t).1 ≡ received t
  pub now_sent : (t : T) → sent (tr.now_ms t).1 ≡ sent t
  pub now_received : (t : T) → received (tr.now_ms t).1 ≡ received t
  pub fault_sent : (t : T) → sent (tr.take_platform_fault t).1 ≡ sent t
  pub fault_received : (t : T) → received (tr.take_platform_fault t).1 ≡ received t
  pub status_sent : (t : T) → sent (tr.status t).1 ≡ sent t
  pub status_received : (t : T) → received (tr.status t).1 ≡ received t
  pub recv_sent : (t : T) → sent (tr.recv t).1 ≡ sent t
  pub recv_received : (t : T) → received (tr.recv t).1 ≡ received t ++ or_empty (tr.recv t).0
  pub send_sent : (b : List ℕ) (t : T) → sent (tr.send b t).1 ≡ sent t ++ b ∷ []
  pub send_received : (b : List ℕ) (t : T) → received (tr.send b t).1 ≡ received t

-- The second multiplexer comes from the first by pushing these bytes, in portions and in order, and
-- by taking frames and console bytes out.
pub data Fed (m : Mux) : List ℕ → Mux → Type 0 where
  start : Fed m [] m
  pushed : (x b : List ℕ) (k : Mux) → Fed m x k → Fed m (x ++ b) (Mux.push b k)
  taken : (x : List ℕ) (k : Mux) (want : ℕ) → Fed m x k → Fed m x (take_matching want k).1
  shown : (x : List ℕ) (k : Mux) → Fed m x k → Fed m x (Mux.take_console k).1

pub Fed-trans : {m k n : Mux} {x y : List ℕ} → Fed m x k → Fed k y n → Fed m (x ++ y) n
Fed-trans {x = x} a start = rw (append_nil x) a
Fed-trans {x = x} a (pushed y b k f) =
    rw (← append_assoc x y b) (pushed (x ++ y) b k (Fed-trans a f))
Fed-trans {x = x} a (taken y k want f) = taken (x ++ y) k want (Fed-trans a f)
Fed-trans {x = x} a (shown y k f) = shown (x ++ y) k (Fed-trans a f)

abbrev pub copies : ℕ → List ℕ → List (List ℕ)
copies zero b = []
copies (suc n) b = b ∷ copies n b

pub copies-add : (n m : ℕ) (b : List ℕ) → copies (n + m) b ≡ copies n b ++ copies m b
copies-add zero m b = let none_more : 0 + m ≡ m = omega arith in ap (λ k. copies k b) none_more
copies-add (suc n) m b =
    let moved : suc n + m ≡ suc (n + m) = omega arith in
    ap (λ k. copies k b) moved ∙ ap (λ l. b ∷ l) (copies-add n m b)

pub drop_matching-Fed :
    {m : Mux} {x : List ℕ} (fuel ty : ℕ) (k : Mux) → Fed m x k → Fed m x (drop_matching fuel ty k).1
unfolding drop_matching
drop_matching-Fed zero ty k f = f
drop_matching-Fed (suc fuel) ty k f = elim (Option-cases (take_matching ty k).0) [
  | inl e ↦ rw (e, drop_matching) (taken _ k ty f)
  | inr (g, e) ↦
      rw (e, drop_matching) (drop_matching-Fed fuel ty (take_matching ty k).1 (taken _ k ty f))
]

-- How the second link comes from the first while an exchange asks: the fault and the operation are
-- the same, the request has been sent at most so many times, and the frames come from what arrived.
module _ {T : Type 0} {tr : Transport T} {sent : T → List (List ℕ)} {received : T → List ℕ}
    (log : IsLogged tr sent received) (out : List ℕ) where
  pub record After (l m : LinkInner T) (most : ℕ) : Type 0 where
    pub fault_same : m.fault ≡ l.fault
    pub op_same : m.op ≡ l.op
    pub times : ℕ
    pub few : times ≤ most
    pub sent_is : sent m.t ≡ sent l.t ++ copies times out
    pub arrived : List ℕ
    pub received_is : received m.t ≡ received l.t ++ arrived
    pub fed : Fed l.mux arrived m.mux

module _ {T : Type 0} {tr : Transport T} {sent : T → List (List ℕ)} {received : T → List ℕ}
    (log : IsLogged tr sent received) (out : List ℕ) where
  abbrev pub After-trans :
      {l m k : LinkInner T} {i j : ℕ}
      → After log out l m i
      → After log out m k j
      → After log out l k (i + j)
  After-trans {l = l} x y = record {
    fault_same = y.fault_same ∙ x.fault_same;
    op_same = y.op_same ∙ x.op_same;
    times = x.times + y.times;
    few = omega (arith, x.few, y.few);
    sent_is =
        y.sent_is
        ∙ ap (λ s. s ++ copies y.times out) x.sent_is
        ∙ append_assoc (sent l.t) (copies x.times out) (copies y.times out)
        ∙ ap (λ c. sent l.t ++ c) (sym (copies-add x.times y.times out));
    arrived = x.arrived ++ y.arrived;
    received_is =
        y.received_is
        ∙ ap (λ s. s ++ y.arrived) x.received_is
        ∙ append_assoc (received l.t) x.arrived y.arrived;
    fed = Fed-trans x.fed y.fed;
  }

  abbrev pub After-more :
      {l m : LinkInner T} {i : ℕ} (j : ℕ) → i ≤ j → After log out l m i → After log out l m j
  After-more j le x = record {
    fault_same = x.fault_same;
    op_same = x.op_same;
    times = x.times;
    few = omega (arith, x.few, le);
    sent_is = x.sent_is;
    arrived = x.arrived;
    received_is = x.received_is;
    fed = x.fed;
  }

  -- A step that sends nothing.
  abbrev pub on_link :
      {l m : LinkInner T} (b : List ℕ)
      → m.fault ≡ l.fault
      → m.op ≡ l.op
      → sent m.t ≡ sent l.t
      → received m.t ≡ received l.t ++ b
      → Fed l.mux b m.mux
      → After log out l m 0
  on_link {l = l} b same op s r f = record {
    fault_same = same;
    op_same = op;
    times = 0;
    few = omega arith;
    sent_is = s ∙ sym (append_nil (sent l.t));
    arrived = b;
    received_is = r;
    fed = f;
  }

  -- One after which the transport has moved on by itself.
  abbrev pub on_t :
      (l : LinkInner T) (t : T)
      → sent t ≡ sent l.t
      → received t ≡ received l.t
      → After log out l (with_t t l) 0
  on_t l t s r = on_link [] refl refl s (r ∙ sym (append_nil (received l.t))) start

  abbrev pub on_clock : (l : LinkInner T) → After log out l (with_t (tr.now_ms l.t).1 l) 0
  on_clock l = on_t l _ (log.now_sent l.t) (log.now_received l.t)

  -- One that takes frames out.
  abbrev pub on_mux :
      (l m : LinkInner T)
      → m.fault ≡ l.fault
      → m.op ≡ l.op
      → m.t ≡ l.t
      → Fed l.mux [] m.mux
      → After log out l m 0
  on_mux l m same op t f =
      on_link [] same op (ap sent t) (ap received t ∙ sym (append_nil (received l.t))) f

  abbrev pub on_send : (l : LinkInner T) → After log out l (with_t (tr.send out l.t).1 l) 1
  on_send l = record {
    fault_same = refl;
    op_same = refl;
    times = 1;
    few = omega arith;
    sent_is = log.send_sent out l.t;
    arrived = [];
    received_is = log.send_received out l.t ∙ sym (append_nil (received l.t));
    fed = start;
  }

  pub on_failed_recv :
      (l : LinkInner T) → (tr.recv l.t).0 ≡ none → After log out l (with_t (tr.recv l.t).1 l) 0
  on_failed_recv l e =
      on_link [] refl refl (log.recv_sent l.t)
        (log.recv_received l.t ∙ ap (λ o. received l.t ++ or_empty o) e) start

  pub on_recv :
      (l : LinkInner T) (bytes : List ℕ)
      → (tr.recv l.t).0 ≡ some bytes
      → After log out l (absorb_some bytes (with_t (tr.recv l.t).1 l)) 0
  unfolding absorb keep_console
  on_recv l [] e =
      on_link [] refl refl (log.recv_sent l.t)
        (log.recv_received l.t ∙ ap (λ o. received l.t ++ or_empty o) e) start
  on_recv l (b ∷ bs) e =
      on_link (b ∷ bs) refl refl (log.recv_sent l.t)
        (log.recv_received l.t ∙ ap (λ o. received l.t ++ or_empty o) e)
        (shown _ _ (pushed [] (b ∷ bs) l.mux start))
