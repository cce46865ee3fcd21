-- ===== src/Sync/Locks.antt =====
-- The locks of the periodic tasks: backend/app/sync_engine/locks.py with its store in memory, which
-- never raises. A token, which the source draws at random, and the clock's time are arguments.
pub mod Laws
use cross_pilot.Prelude.Text.{String, str_eq, dict_get, dict_set}
use cross_pilot.Prelude.Int.{ℤ, pos, ◌+ℤ◌, ◌*ℤ◌, ltb_ℤ}
use cross_pilot.Prelude.{if◌then◌else◌, Bool, true, false, Option, none, some, List, [], ◌∷◌}

pub data LockStatus : Type 0 where
  acquired held : LockStatus

pub record LockOutcome : Type 0 where
  pub status : LockStatus
  pub token : Option String

-- `_Hold`
pub record Hold : Type 0 where
  pub token : String
  pub expires_at : ℤ

-- `_held`, with which `del` takes a name out.
abbrev pub Held : Type 0
Held = List (String × Hold)

unfoldable pub del : String → Held → Held
del name [] = []
del name ((n, hold) ∷ rest) =
    let kept = del name rest in if str_eq n name then rest else (n, hold) ∷ kept

abbrev pub is_alive : Option Hold → ℤ → Bool
is_alive none now = false
is_alive (some hold) now = ltb_ℤ now hold.expires_at

abbrev pub expiry : ℤ → ℤ → ℤ
expiry now ttl_seconds = now +ℤ ttl_seconds *ℤ pos 1_000_000

-- `MemoryLockStore.acquire`
unfoldable pub acquire : String → String → ℤ → ℤ → Held → Bool × Held
acquire name token ttl_seconds now locks =
    if is_alive (dict_get name locks) now
    then (false, locks)
    else (true, dict_set name (record { token = token; expires_at = expiry now ttl_seconds }) locks)

abbrev pub is_hold_of : Option Hold → String → Bool
is_hold_of none token = false
is_hold_of (some hold) token = str_eq hold.token token

-- `MemoryLockStore.release`
unfoldable pub release : String → String → Held → Held
release name token locks = if is_hold_of (dict_get name locks) token then del name locks else locks

abbrev pub outcome_of : String → Bool → LockOutcome
outcome_of token true = record { status = acquired; token = some token }
outcome_of token false = record { status = held; token = none }

-- `BeatLock.acquire`
unfoldable pub beat_acquire : String → String → ℤ → ℤ → Held → LockOutcome × Held
beat_acquire name token ttl_seconds now locks =
    let got = acquire name token ttl_seconds now locks in (outcome_of token got.0, got.1)

-- What the processes do with the locks: each acquires with a token and at a time, or releases.
pub data LockEvent : Type 0 where
  acquiring : String → String → ℤ → ℤ → LockEvent
  releasing : String → String → LockEvent

abbrev pub lock_step : LockEvent → Held → Held
lock_step (acquiring name token ttl_seconds now) locks =
    (beat_acquire name token ttl_seconds now locks).1
lock_step (releasing name token) locks = release name token locks

unfoldable pub after_locking : List LockEvent → Held → Held
after_locking [] locks = locks
after_locking (event ∷ events) locks = after_locking events (lock_step event locks)
