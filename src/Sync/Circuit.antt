-- ===== src/Sync/Circuit.antt =====
-- The circuit breaker of a platform: `admit` and `observe` of backend/app/sync_engine/resilience.py,
-- and what `_fetch` of backend/app/services/order_sync.py reports to it. The failure ratio of the
-- policy is a fraction.
pub mod Laws
use cross_pilot.Prelude.{
  ltb, leb, if◌then◌else◌, length, drop, ℕ, suc, ◌-◌, ◌*◌, Bool, true, false, ◌&&◌, Option, none,
  some, List, [], ◌∷◌, ◌++◌,
}
use cross_pilot.Prelude.Int.{ℤ, pos, ◌-ℤ◌, leb_ℤ}

-- The fields of `SyncPolicy` that the breaker reads.
pub record CircuitPolicy : Type 0 where
  pub ratio_top : ℕ
  pub ratio_bottom : ℕ
  pub circuit_min_samples : ℕ
  pub circuit_window : ℕ
  pub circuit_open_seconds : ℕ

pub data CircuitPhase : Type 0 where
  closed open_phase half_open : CircuitPhase

pub record CircuitState : Type 0 where
  pub phase : CircuitPhase
  pub outcomes : List Bool  -- true is a failure, the oldest first
  pub opened_at : Option ℤ
  pub probe_in_flight : Bool

-- `CircuitState()`
abbrev pub fresh_circuit : CircuitState
fresh_circuit = record { phase = closed; outcomes = []; opened_at = none; probe_in_flight = false }

abbrev pub probing : CircuitState → CircuitState
probing state = record state { phase = half_open; probe_in_flight = true }

-- `opened_at is not None and (now - opened_at).total_seconds() >= circuit_open_seconds`
abbrev pub waited : Option ℤ → ℤ → CircuitPolicy → Bool
waited none now policy = false
waited (some at) now policy = leb_ℤ (pos (policy.circuit_open_seconds * 1_000_000)) (now -ℤ at)

-- the half-open breaker: one probe at a time
abbrev pub probe_unless : Bool → CircuitState → CircuitState × Bool
probe_unless true state = (state, false)
probe_unless false state = (probing state, true)

abbrev pub admit_in : CircuitPhase → CircuitState → ℤ → CircuitPolicy → CircuitState × Bool
admit_in closed state now policy = (state, true)
admit_in open_phase state now policy =
    if waited state.opened_at now policy then (probing state, true) else (state, false)
admit_in half_open state now policy = probe_unless state.probe_in_flight state

unfoldable pub admit : CircuitState → ℤ → CircuitPolicy → CircuitState × Bool
admit state now policy = admit_in state.phase state now policy

unfoldable pub count_true : List Bool → ℕ
count_true [] = 0
count_true (true ∷ bs) = suc (count_true bs)
count_true (false ∷ bs) = count_true bs

-- `xs[-n:]` for a positive `n`
unfoldable pub last_n : ℕ → List Bool → List Bool
last_n n xs = drop (length xs - n) xs

-- the ratio of failures is above the policy's
unfoldable pub too_many : List Bool → CircuitPolicy → Bool
unfolding count_true
too_many outcomes policy =
    leb policy.circuit_min_samples (length outcomes)
    && ltb (policy.ratio_top * length outcomes) (count_true outcomes * policy.ratio_bottom)

abbrev pub observe_in : CircuitPhase → CircuitState → Bool → ℤ → CircuitPolicy → CircuitState
observe_in half_open state true now policy = record {
  phase = open_phase;
  outcomes = state.outcomes;
  opened_at = some now;
  probe_in_flight = false;
}
observe_in half_open state false now policy = fresh_circuit
observe_in open_phase state failed now policy = state
observe_in closed state failed now policy =
    let outcomes = last_n policy.circuit_window (state.outcomes ++ failed ∷ []) in
    if too_many outcomes policy
    then record {
      phase = open_phase;
      outcomes = outcomes;
      opened_at = some now;
      probe_in_flight = false;
    }
    else record { phase = closed; outcomes = outcomes; opened_at = none; probe_in_flight = false }

unfoldable pub observe : CircuitState → Bool → ℤ → CircuitPolicy → CircuitState
unfolding last_n too_many
observe state failed now policy = observe_in state.phase state failed now policy

-- How one page ended, in the inner `fetch` of `_fetch`: the limiter was not available or refused,
-- the platform answered 429 or asked to wait, it was down, it failed otherwise, or it gave a page.
pub data PageEnd : Type 0 where
  limited throttled outage other_failure page : PageEnd

-- What `fetch` records with the breaker.
unfoldable pub record_page : PageEnd → CircuitState → ℤ → CircuitPolicy → CircuitState
record_page limited state now policy = state
record_page throttled state now policy = state
record_page outage state now policy = observe state true now policy
record_page other_failure state now policy = state
record_page page state now policy = observe state false now policy

-- What happens to a breaker: it is asked, a page ends, or the store drops its state, whose time to live
-- (`state_ttl_seconds`) is over.
pub data Event : Type 0 where
  ask : ℤ → Event
  ended : PageEnd → ℤ → Event
  expired : Event

abbrev pub step : Event → CircuitState → CircuitPolicy → CircuitState
step (ask now) state policy = (admit state now policy).0
step (ended how now) state policy = record_page how state now policy
step expired state policy = fresh_circuit  -- `state or CircuitState()`, with no state in the store

unfoldable pub after_events : List Event → CircuitState → CircuitPolicy → CircuitState
after_events [] state policy = state
after_events (e ∷ es) state policy = after_events es (step e state policy) policy
