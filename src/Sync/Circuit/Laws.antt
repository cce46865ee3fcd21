-- ===== src/Sync/Circuit/Laws.antt =====
-- What the circuit breaker promises, for every sequence of questions and pages.
use cross_pilot.Sync.Circuit.{
  CircuitPolicy, CircuitPhase, closed, open_phase, half_open, CircuitState, fresh_circuit, waited,
  probe_unless, admit_in, admit, last_n, too_many, observe_in, observe, limited, throttled, outage,
  other_failure, page, record_page, Event, ask, ended, expired, step, after_events,
}
use cross_pilot.Prelude.Int.{ℤ}
use cross_pilot.Prelude.{
  Bool-cases, length, length-drop, All, ℕ, ◌-◌, ◌≤◌, ◌≡◌, refl, ap, inl, inr, Bool, true, false,
  some, List, [], ◌∷◌, ◌++◌, arith,
}

-- An open breaker knows since when, a half-open one has its probe out, and a closed one remembers
-- no more outcomes than the window holds, and too few failures among them to open.
abbrev pub OkIn : CircuitPhase → CircuitState → CircuitPolicy → Type 0
OkIn open_phase state policy = (at : ℤ) × (state.opened_at ≡ some at)
OkIn half_open state policy = state.probe_in_flight ≡ true
OkIn closed state policy =
    (length state.outcomes ≤ policy.circuit_window) × (too_many state.outcomes policy ≡ false)

pub record IsOk (policy : CircuitPolicy) (state : CircuitState) : Type 0 where
  pub inside : OkIn state.phase state policy

length-last_n : (n : ℕ) (xs : List Bool) → length (last_n n xs) ≤ n
unfolding last_n
length-last_n n xs = omega (arith, length-drop (length xs - n) xs)

pub fresh-IsOk :
    (policy : CircuitPolicy) → 1 ≤ policy.circuit_min_samples → IsOk policy fresh_circuit
unfolding too_many
fresh-IsOk policy few = record { inside = (omega arith, ground (arith, few)) }

admit-IsOk :
    (policy : CircuitPolicy) (state : CircuitState) (now : ℤ)
    → IsOk policy state
    → IsOk policy (admit state now policy).0
unfolding admit
admit-IsOk policy state now h = go state.phase
  where
    go : (p : CircuitPhase) → IsOk policy (admit_in p state now policy).0
    go closed = h
    go open_phase = elim (Bool-cases (waited state.opened_at now policy)) [
      | inl late ↦ rw late (record { inside = refl })
      | inr early ↦ rw early h
    ]
    go half_open = asked state.probe_in_flight
      where
        asked : (b : Bool) → IsOk policy (probe_unless b state).0
        asked true = h
        asked false = record { inside = refl }

observe-IsOk :
    (policy : CircuitPolicy) (state : CircuitState) (failed : Bool) (now : ℤ)
    → 1 ≤ policy.circuit_min_samples
    → IsOk policy state
    → IsOk policy (observe state failed now policy)
unfolding observe
observe-IsOk policy state failed now few h = go state.phase failed
  where
    go : (p : CircuitPhase) (f : Bool) → IsOk policy (observe_in p state f now policy)
    go half_open true = record { inside = (now, refl) }
    go half_open false = fresh-IsOk policy few
    go open_phase f = h
    go closed f =
        let outcomes = last_n policy.circuit_window (state.outcomes ++ f ∷ []) in
        elim (Bool-cases (too_many outcomes policy)) [
          | inl many ↦ rw many (record { inside = (now, refl) })
          | inr bearable ↦ rw bearable (record {
            inside = (length-last_n policy.circuit_window (state.outcomes ++ f ∷ []), bearable);
          })
        ]

step-IsOk :
    (policy : CircuitPolicy) (e : Event) (state : CircuitState)
    → 1 ≤ policy.circuit_min_samples
    → IsOk policy state
    → IsOk policy (step e state policy)
unfolding record_page
step-IsOk policy (ask now) state few h = admit-IsOk policy state now h
step-IsOk policy (ended limited now) state few h = h
step-IsOk policy (ended throttled now) state few h = h
step-IsOk policy (ended outage now) state few h = observe-IsOk policy state true now few h
step-IsOk policy (ended other_failure now) state few h = h
step-IsOk policy (ended page now) state few h = observe-IsOk policy state false now few h
step-IsOk policy expired state few h = fresh-IsOk policy few

-- Whatever is asked, however pages end and whenever the state expires, from a sound breaker only sound ones are reached: an open
-- breaker knows since when, a half-open one has its probe out, and a closed one remembers no more
-- than the window, with too few failures to open.
pub reached-IsOk :
    (policy : CircuitPolicy) (es : List Event) (state : CircuitState)
    → 1 ≤ policy.circuit_min_samples
    → IsOk policy state
    → IsOk policy (after_events es state policy)
unfolding after_events
reached-IsOk policy [] state few h = h
reached-IsOk policy (e ∷ es) state few h =
    reached-IsOk policy es (step e state policy) few (step-IsOk policy e state few h)

-- An event after which the state stands and nothing is recorded: a question, a throttled or limited
-- page, or a failure that is no outage.
abbrev pub IsSilent : Event → Type 0
IsSilent (ask now) = Unit
IsSilent (ended limited now) = Unit
IsSilent (ended throttled now) = Unit
IsSilent (ended other_failure now) = Unit
IsSilent (ended how now) = ⊥
IsSilent expired = ⊥

abbrev pub IsProbing : CircuitState → Type 0
IsProbing state = (state.phase ≡ half_open) × (state.probe_in_flight ≡ true)

asked_probing :
    (policy : CircuitPolicy) (state : CircuitState) (now : ℤ)
    → IsProbing state
    → admit state now policy ≡ (state, false)
unfolding admit
asked_probing policy state now (p, f) = rw (p, f) refl

-- While a probe is out, nobody else gets through, and the breaker stays as it is until an outage or
-- a page is recorded or the state expires in the store: in particular when the probe itself was
-- throttled, limited or refused for another reason.
pub probe_alone :
    (policy : CircuitPolicy) (es : List Event) (state : CircuitState) (now : ℤ)
    → IsProbing state
    → All IsSilent es
    → (after_events es state policy ≡ state)
      × ((admit (after_events es state policy) now policy).1 ≡ false)
unfolding after_events record_page
probe_alone policy [] state now h quiet = (refl, ap (λ r. r.1) (asked_probing policy state now h))
probe_alone policy (ask at ∷ es) state now h (q, quiet) =
    let stays : (admit state at policy).0 ≡ state =
      ap (λ r. r.0) (asked_probing policy state at h) in
    rw stays (probe_alone policy es state now h quiet)
probe_alone policy (ended limited at ∷ es) state now h (q, quiet) =
    probe_alone policy es state now h quiet
probe_alone policy (ended throttled at ∷ es) state now h (q, quiet) =
    probe_alone policy es state now h quiet
probe_alone policy (ended other_failure at ∷ es) state now h (q, quiet) =
    probe_alone policy es state now h quiet
probe_alone policy (ended outage at ∷ es) state now h quiet = absurd quiet.0
probe_alone policy (ended page at ∷ es) state now h quiet = absurd quiet.0
probe_alone policy (expired ∷ es) state now h quiet = absurd quiet.0
