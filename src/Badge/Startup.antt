-- ===== src/Badge/Startup.antt =====
-- badge/app/src/startup.rs: waiting for what the badge needs, and what is reported of it.

pub mod Bounded
use dc34_baonix.Base.{
  ℕ, zero, suc, ◌+◌, ◌-◌, ◌^◌, Option, none, some, List, [], ◌∷◌, ◌++◌, Bool, true, false, ◌||◌,
  if◌then◌else◌, leb,
}

abbrev pub no_clock_attempts : ℕ
no_clock_attempts = 2_000_000

abbrev pub deadline_ms : ℕ
deadline_ms = 30_000

pub record WaitLimits : Type 0 where
  pub limit_ms : ℕ
  pub max_attempts : ℕ

abbrev pub without_a_clock : WaitLimits
without_a_clock = record { limit_ms = 2 ^ 64 - 1; max_attempts = no_clock_attempts }

abbrev pub with_a_clock : WaitLimits
with_a_clock = record { limit_ms = deadline_ms; max_attempts = no_clock_attempts }

pub record Waited : Type 0 where
  pub attempts : ℕ
  pub elapsed_ms : ℕ

-- The closures `ready` and `backoff`, and the clock where there is one.
pub record Waiting (S : Type 0) : Type 0 where
  pub ready : S → Bool × S
  pub clock : Option (S → ℕ × S)
  pub backoff : S → S

-- How the wait ends, or that its fuel ran out.
pub data Wait : Type 0 where
  ready_after gave_up : Waited → Wait
  running : Wait

module _ {S : Type 0} (w : Waiting S) where
  abbrev pub started : S → ℕ × S
  started s = elim w.clock [ none ↦ (0, s) | some now ↦ now s ]

  -- The time since the start; without a clock it stays what it was.
  abbrev pub since : ℕ → ℕ → S → ℕ × S
  since start before s = elim w.clock [
    | none ↦ (before, s)
    | some now ↦ (let r = now s in (r.0 - start, r.1))
  ]

  unfoldable pub wait_loop : ℕ → WaitLimits → ℕ → Waited → S → Wait × S
  wait_loop zero limits start x s = (running, s)
  wait_loop (suc fuel) limits start x s =
      let time = since start x.elapsed_ms s in
      let seen : Waited = record { attempts = x.attempts + 1; elapsed_ms = time.0 } in
      let r = w.ready time.1 in
      elim r.0 [
        | true ↦ (ready_after seen, r.1)
        | false ↦
            elim (leb limits.max_attempts seen.attempts || leb limits.limit_ms seen.elapsed_ms) [
              | true ↦ (gave_up seen, r.1)
              | false ↦ wait_loop fuel limits start seen (w.backoff r.1)
            ]
      ]

  -- With one round more than the attempts allowed, which is enough.
  unfoldable pub wait_for : WaitLimits → S → Wait × S
  wait_for limits s =
      let start = started s in
      wait_loop (suc limits.max_attempts) limits start.0 (record { attempts = 0; elapsed_ms = 0 })
        start.1

-- A dependency: its name, and the wait for it.
pub record Dep : Type 0 where
  pub name : List ℕ
  pub outcome : Wait

abbrev pub is_missing : Dep → Bool
is_missing d = elim d.outcome [ gave_up _ ↦ true | ready_after _ ↦ false | running ↦ false ]

abbrev pub Startup : Type 0
Startup = List Dep

abbrev pub record_dep : List ℕ → Wait → Startup → Startup
record_dep name outcome deps = deps ++ (record { name = name; outcome = outcome }) ∷ []

unfoldable pub missing : Startup → Option (List ℕ)
missing [] = none
missing (d ∷ ds) = if is_missing d then some d.name else missing ds
