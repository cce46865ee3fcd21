-- ===== src/Sync/Locks/Laws.antt =====
-- A lock excludes everybody else until it expires.
use cross_pilot.Sync.Locks.{
  acquired, held, Hold, Held, del, is_alive, expiry, acquire, is_hold_of, release, beat_acquire,
  LockEvent, acquiring, releasing, lock_step, after_locking,
}
use cross_pilot.Prelude.Text.{String, str_eq, eq_iff, eq_refl, dict_get, dict_get-dict_set}
use cross_pilot.Prelude.Int.{ℤ, ltb_ℤ}
use cross_pilot.Prelude.{
  Bool-cases, All, ◌≡◌, refl, ◌∙◌, inl, inr, true, false, ◌&&◌, none, some, List, [], ◌∷◌, arith,
}

pub dict_get-del :
    (name other : String) (locks : Held)
    → str_eq other name ≡ false
    → dict_get other (del name locks) ≡ dict_get other locks
unfolding del
dict_get-del name other [] ne = refl
dict_get-del name other ((n, hold) ∷ rest) ne =
    ground
      (arith, eq_iff n name, eq_iff n other, eq_iff other name, dict_get-del name other rest ne)

-- The hold of a name.
abbrev pub IsHeld : String → Hold → Held → Type 0
IsHeld name hold locks = dict_get name locks ≡ some hold

-- What can happen to a hold before it expires: others ask for locks, and any holder but its own
-- releases.
abbrev pub IsForeign : String → Hold → LockEvent → Type 0
IsForeign name hold (acquiring n token ttl_seconds now) = ltb_ℤ now hold.expires_at ≡ true
IsForeign name hold (releasing n token) = (str_eq n name && str_eq hold.token token) ≡ false

beat_acquire-refused :
    (name : String) (hold : Hold) (token : String) (ttl_seconds now : ℤ) (locks : Held)
    → IsHeld name hold locks
    → ltb_ℤ now hold.expires_at ≡ true
    → beat_acquire name token ttl_seconds now locks
      ≡ (record { status = held; token = none }, locks)
unfolding beat_acquire acquire
beat_acquire-refused name hold token ttl_seconds now locks h early = rw (h, early) refl

acquire-IsHeld :
    (name n : String) (hold : Hold) (token : String) (ttl_seconds now : ℤ) (locks : Held)
    → IsHeld name hold locks
    → ltb_ℤ now hold.expires_at ≡ true
    → IsHeld name hold (acquire n token ttl_seconds now locks).1
unfolding acquire
acquire-IsHeld name n hold token ttl_seconds now locks h early =
    elim (Bool-cases (is_alive (dict_get n locks) now)) [
      | inl alive ↦ rw alive h
      | inr gone ↦ elim (Bool-cases (str_eq n name)) [
        | inl same ↦
            let r : n ≡ name = (eq_iff n name).0 same in absurd (cc (rw (r, h, early) at gone))
        | inr other ↦
            rw
              (
                gone,
                dict_get-dict_set n name
                    (record { token = token; expires_at = expiry now ttl_seconds }) locks,
                other,
              )
              h
      ]
    ]

release-IsHeld :
    (name n : String) (hold : Hold) (token : String) (locks : Held)
    → IsHeld name hold locks
    → (str_eq n name && str_eq hold.token token) ≡ false
    → IsHeld name hold (release n token locks)
unfolding release
release-IsHeld name n hold token locks h foreign =
    elim (Bool-cases (is_hold_of (dict_get n locks) token)) [
      | inr not_its ↦ rw not_its h
      | inl its ↦ elim (Bool-cases (str_eq n name)) [
        | inl same ↦
            let r : n ≡ name = (eq_iff n name).0 same in
            let its_token : str_eq hold.token token ≡ true = rw (r, h) at its in
            absurd (cc (rw (same, its_token) at foreign))
        | inr other ↦
            rw its (dict_get-del n name locks (ground (arith, eq_iff n name, eq_iff name n)) ∙ h)
      ]
    ]

lock_step-IsHeld :
    (name : String) (hold : Hold) (event : LockEvent) (locks : Held)
    → IsHeld name hold locks
    → IsForeign name hold event
    → IsHeld name hold (lock_step event locks)
unfolding beat_acquire
lock_step-IsHeld name hold (acquiring n token ttl_seconds now) locks h early =
    acquire-IsHeld name n hold token ttl_seconds now locks h early
lock_step-IsHeld name hold (releasing n token) locks h foreign =
    release-IsHeld name n hold token locks h foreign

after_locking-IsHeld :
    (name : String) (hold : Hold) (events : List LockEvent) (locks : Held)
    → IsHeld name hold locks
    → All (IsForeign name hold) events
    → IsHeld name hold (after_locking events locks)
unfolding after_locking
after_locking-IsHeld name hold [] locks h foreign = h
after_locking-IsHeld name hold (event ∷ events) locks h foreign =
    after_locking-IsHeld name hold events (lock_step event locks)
      (lock_step-IsHeld name hold event locks h foreign.0) foreign.1

acquired-IsHeld :
    (name token : String) (ttl_seconds now : ℤ) (locks : Held)
    → (beat_acquire name token ttl_seconds now locks).0.status ≡ acquired
    → IsHeld name
        (record { token = token; expires_at = expiry now ttl_seconds })
        (beat_acquire name token ttl_seconds now locks).1
unfolding beat_acquire acquire
acquired-IsHeld name token ttl_seconds now locks got =
    elim (Bool-cases (is_alive (dict_get name locks) now)) [
      | inl alive ↦ absurd (cc (rw alive at got))
      | inr gone ↦
          let hold : Hold = record { token = token; expires_at = expiry now ttl_seconds } in
          rw (gone, dict_get-dict_set name name hold locks, eq_refl name) refl
    ]

-- Whoever acquired a lock holds it alone until it expires: after anything that the processes do
-- before then, its own release left out, everybody who asks for the lock before then hears that it is
-- held and changes nothing.
pub acquired_excludes :
    (name token : String) (ttl_seconds now : ℤ) (events : List LockEvent) (locks : Held)
    (other : String) (ttl' later : ℤ)
    → (beat_acquire name token ttl_seconds now locks).0.status ≡ acquired
    → All (IsForeign name (record { token = token; expires_at = expiry now ttl_seconds })) events
    → ltb_ℤ later (expiry now ttl_seconds) ≡ true
    → beat_acquire name other ttl' later
        (after_locking events (beat_acquire name token ttl_seconds now locks).1)
      ≡ (
        record { status = held; token = none },
        after_locking events (beat_acquire name token ttl_seconds now locks).1,
      )
acquired_excludes name token ttl_seconds now events locks other ttl' later got foreign early =
    let hold : Hold = record { token = token; expires_at = expiry now ttl_seconds } in
    let first : Held = (beat_acquire name token ttl_seconds now locks).1 in
    beat_acquire-refused name hold other ttl' later (after_locking events first)
      (after_locking-IsHeld name hold events first
        (acquired-IsHeld name token ttl_seconds now locks got) foreign)
      early
