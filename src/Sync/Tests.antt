-- ===== src/Sync/Tests.antt =====
-- The sync engine on concrete events and pages.
use cross_pilot.Sync.States.Laws.{Atomic, update-Atomic}
use cross_pilot.Sync.States.{Codec, compare_set, write_all, Others, update_state}
use cross_pilot.Sync.Locks.Laws.{acquired_excludes}
use cross_pilot.Sync.Locks.{
  acquired, held, acquire, beat_acquire, LockEvent, acquiring, releasing, after_locking,
}
use cross_pilot.Sync.Bloom.Laws.{Succeeds, remembered-Seen}
use cross_pilot.Sync.Bloom.{memory_bit_store, BloomFilter, remember_all, probably_seen, dedup_hint}
use cross_pilot.Prelude.Text.{String, str_eq}
use cross_pilot.Prelude.{
  if◌then◌else◌, All, ℕ, zero, suc, ◌≡◌, refl, true, false, Option, none, some, List, [], ◌∷◌,
  arith,
}
use cross_pilot.Sync.Circuit.{
  CircuitPolicy, fresh_circuit, probing, admit, count_true, last_n, too_many, observe, throttled,
  outage, page, record_page, Event, ask, ended, after_events,
}
use cross_pilot.Sync.Circuit.Laws.{IsOk, fresh-IsOk, reached-IsOk, IsProbing, probe_alone}
use cross_pilot.Sync.Rounds.{Round}
use cross_pilot.Sync.Cursor.{Page, PullResult, ValueError, pull_order_pages}
use cross_pilot.Sync.Cursor.Pages.{follow, EndsWell, pull-Collects}
use cross_pilot.Prelude.Result.{Result, ok}
use cross_pilot.Prelude.Int.{pos, ◌+ℤ◌, ◌-ℤ◌, ◌*ℤ◌}

-- the defaults of `SyncPolicy`
abbrev default_policy : CircuitPolicy
default_policy = record {
  ratio_top = 1;
  ratio_bottom = 2;
  circuit_min_samples = 4;
  circuit_window = 20;
  circuit_open_seconds = 300;
}

abbrev bad_day : List Event
bad_day =
    ended page (pos 1)
    ∷ ended outage (pos 2)
    ∷ ended outage (pos 3)
    ∷ ended outage (pos 4)
    ∷ ask (pos 300_000_004)
    ∷ []

reached-IsOk_example : IsOk default_policy (after_events bad_day fresh_circuit default_policy)
reached-IsOk_example =
    reached-IsOk default_policy bad_day fresh_circuit (omega arith)
      (fresh-IsOk default_policy (omega arith))

-- The fourth page opens the breaker, and the question five minutes later sends a probe.
bad_day_probes : IsProbing (after_events bad_day fresh_circuit default_policy)
unfolding after_events admit observe record_page last_n too_many count_true ◌-ℤ◌
bad_day_probes = (refl, refl)

abbrev throttled_probe : List Event
throttled_probe = ended throttled (pos 300_000_005) ∷ ask (pos 900_000_000) ∷ []

probe_alone_example :
    (after_events throttled_probe (probing fresh_circuit) default_policy ≡ probing fresh_circuit)
    × ((admit
          (after_events throttled_probe (probing fresh_circuit) default_policy)
          (pos 1_800_000_000)
          default_policy).1
        ≡ false)
probe_alone_example =
    probe_alone default_policy throttled_probe (probing fresh_circuit) (pos 1_800_000_000)
      (refl, refl) (tt, (tt, tt))

abbrev some_rounds : List Round
some_rounds =
    record {
      now = pos 1000;
      complete = false;
      errored = false;
      failed = 0;
      resume_cursor = some "p3";
    }
    ∷ record { now = pos 2000; complete = true; errored = false; failed = 0; resume_cursor = none }
    ∷ record { now = pos 3000; complete = true; errored = false; failed = 2; resume_cursor = none }
    ∷ record { now = pos 4000; complete = false; errored = true; failed = 0; resume_cursor = none }
    ∷ record { now = pos 5000; complete = true; errored = false; failed = 0; resume_cursor = none }
    ∷ []

abbrev two_pages : ℕ → Option String → Result ValueError (Page ℕ)
two_pages zero cursor = ok (record { items = 1 ∷ 2 ∷ []; next_cursor = some "p2" })
two_pages (suc n) cursor = ok (record { items = 3 ∷ []; next_cursor = none })

pull-Collects_example :
    (r : PullResult ℕ ValueError) × (pull_order_pages two_pages none (pos 5) ≡ ok r)
    × (r.orders ≡ follow two_pages r.pages 0 none)
    × EndsWell two_pages 5 r
pull-Collects_example = pull-Collects two_pages none 5 (omega arith)

-- A filter of sixteen bits in which all keys fall together.
abbrev small_bloom : BloomFilter
small_bloom = record { digest = λ key. (7, 3); bit_size = 16; hash_count = 3 }

remembered-Seen_example :
    Succeeds
      (λ bits.
        All (λ key. dedup_hint small_bloom key bits ≡ ok probably_seen) ("shop:1" ∷ "shop:2" ∷ []))
      (remember_all small_bloom ("shop:1" ∷ "shop:2" ∷ []) (memory_bit_store 16))
remembered-Seen_example = remembered-Seen small_bloom ("shop:1" ∷ "shop:2" ∷ []) (omega arith)

-- Two processes and two locks within a minute.
abbrev minute : List LockEvent
minute =
    acquiring "beat:scan_ads" "t2" (pos 60) (pos 5_000_000)
    ∷ acquiring "beat:scan_cs" "t2" (pos 30) (pos 6_000_000)
    ∷ releasing "beat:scan_ads" "t2"
    ∷ releasing "beat:scan_cs" "t2"
    ∷ []

takes_lock : (beat_acquire "beat:scan_ads" "t1" (pos 60) (pos 0) []).0.status ≡ acquired
unfolding beat_acquire acquire
takes_lock = refl

acquired_excludes_example :
    beat_acquire "beat:scan_ads" "t3"
      (pos 60)
      (pos 59_999_999)
      (after_locking minute (beat_acquire "beat:scan_ads" "t1" (pos 60) (pos 0) []).1)
    ≡ (
      record { status = held; token = none },
      after_locking minute (beat_acquire "beat:scan_ads" "t1" (pos 60) (pos 0) []).1,
    )
unfolding ◌+ℤ◌ ◌*ℤ◌
acquired_excludes_example =
    acquired_excludes "beat:scan_ads" "t1" (pos 60) (pos 0) minute [] "t3" (pos 60) (pos 59_999_999)
      takes_lock (refl, (refl, (refl, (refl, tt)))) refl

-- A counter whose state is a text, and a worker that writes once between.
abbrev plain_codec : Codec String
plain_codec = record { encode = λ t. t; decode = λ t. some t }

abbrev next_state : Option String → String
next_state none = "1"
next_state (some t) = if str_eq t "1" then "2" else "3"

abbrev one_between : Others
one_between = (("shop:1", "1") ∷ []) ∷ []

counts_twice :
    update_state plain_codec 8 "shop:1" next_state one_between [] ≡ (ok "2", ("shop:1", "2") ∷ [])
unfolding update_state compare_set write_all
counts_twice = refl

update-Atomic_example :
    Atomic plain_codec "shop:1" next_state 8 one_between []
      (update_state plain_codec 8 "shop:1" next_state one_between [])
update-Atomic_example = update-Atomic plain_codec "shop:1" next_state one_between []
