-- ===== src/Desk/Laws.antt =====
-- What the order desk and the tickets promise, for every text that stands as a status or an action.
use mathlib.Core.Path.{subst}
use cross_pilot.Desk.{
  ship_overdue, hours, ship_deadline, window_at, ship_window, allowed_returns, find_return,
  decide_return, is_ticket, noted_status, next_ticket_status,
}
use cross_pilot.Prelude.{
  if◌then◌else◌, Bool-cases, All, ℕ, ◌<◌, ◌≡◌, refl, sym, ◌≢◌, inl, inr, true, false, Option, none,
  some, List, [], ◌∷◌, arith,
}
use cross_pilot.Prelude.Text.{String, str_eq, eq_iff}
use cross_pilot.Prelude.Int.{ℤ, pos, ◌-ℤ◌, ◌≤ℤ◌, leb_ℤ, max_ℤ}
use cross_pilot.Prelude.Result.{ok}

-- A paid order that is overdue stays overdue as time passes.
pub overdue_stays :
    (status : String) (paid_at : Option ℤ) (now later sla_hours warn_hours : ℤ)
    → now ≤ℤ later
    → ship_window status paid_at now sla_hours warn_hours ≡ some ship_overdue
    → ship_window status paid_at later sla_hours warn_hours ≡ some ship_overdue
unfolding ship_window
overdue_stays status paid_at now later sla_hours warn_hours l h =
    elim (Bool-cases (str_eq status "PAID")) [
      | inr other ↦ absurd (cc (rw other at h))
      | inl paid ↦ rw paid (go (ship_deadline paid_at sla_hours) (rw paid at h))
    ]
  where
    go :
        (o : Option ℤ)
        → window_at o now (hours (max_ℤ warn_hours (pos 0))) ≡ some ship_overdue
        → window_at o later (hours (max_ℤ warn_hours (pos 0))) ≡ some ship_overdue
    go none e = absurd (cc e)
    go (some deadline) e = elim (Bool-cases (leb_ℤ deadline now)) [
      | inl over ↦ let over' : leb_ℤ deadline later ≡ true = ground arith in rw over' refl
      | inr early ↦ elim (Bool-cases (leb_ℤ (deadline -ℤ hours (max_ℤ warn_hours (pos 0))) now)) [
        | inl soon ↦ absurd (cc (rw (early, soon) at e))
        | inr far ↦ absurd (cc (rw (early, far) at e))
      ]
    ]

-- How far a return has come.
abbrev pub return_level : String → ℕ
return_level s = if str_eq s "REQUESTED" then 0 else if str_eq s "APPROVED" then 1 else 2

abbrev Forward : (String × String) × String → Type 0
Forward ((from, how), to) = return_level from < return_level to

find_return-Forward :
    (current action next : String) (table : List ((String × String) × String))
    → All Forward table
    → find_return current action table ≡ some next
    → return_level current < return_level next
unfolding find_return
find_return-Forward current action next [] fs h = absurd (cc h)
find_return-Forward current action next (((from, how), to) ∷ rest) (f, fs) h =
    elim (Bool-cases (str_eq from current)) [
      | inl same ↦ elim (Bool-cases (str_eq how action)) [
        | inl act ↦
            let e : from ≡ current = (eq_iff from current).0 same in
            let n : to ≡ next = cc (rw (same, act) at h) in rw (← e, ← n) f
        | inr other ↦ find_return-Forward current action next rest fs (rw (same, other) at h)
      ]
      | inr other ↦ find_return-Forward current action next rest fs (rw other at h)
    ]

-- Every action that a return allows takes it further, so a return is settled after at most two.
pub returns_end :
    (current action next : String)
    → decide_return current action ≡ some next
    → return_level current < return_level next
unfolding decide_return
returns_end current action next h =
    find_return-Forward current action next allowed_returns
      (omega arith, (omega arith, (omega arith, tt))) h

differs : (s t : String) → str_eq s t ≡ false → s ≢ t
differs s t h e = cc (h, (eq_iff s t).1 e)

-- What is said of the ticket that an action leads to.
abbrev MovesTo : String → Type 0
MovesTo next = (is_ticket next ≡ true) × (next ≢ "OPEN")

noted-MovesTo : (current : String) → is_ticket current ≡ true → MovesTo (noted_status current)
noted-MovesTo current t = elim (Bool-cases (str_eq current "OPEN")) [
  | inl o ↦ rw o (refl, differs "IN_PROGRESS" "OPEN" refl)
  | inr o ↦ elim (Bool-cases (str_eq current "ASSIGNED")) [
    | inl a ↦ rw (o, a) (refl, differs "IN_PROGRESS" "OPEN" refl)
    | inr a ↦
        let same : noted_status current ≡ current = rw (o, a) refl in
        subst MovesTo (sym same) (t, differs current "OPEN" o)
  ]
]

action-MovesTo :
    (current action next : String)
    → is_ticket current ≡ true
    → str_eq current "CLOSED" ≡ false
    → next_ticket_status current action ≡ ok next
    → MovesTo next
unfolding next_ticket_status
action-MovesTo current action next t c h = elim (Bool-cases (str_eq action "ASSIGN")) [
  | inl a ↦
      let e : "ASSIGNED" ≡ next = cc (rw (t, c, a) at h) in
      subst MovesTo e (refl, differs "ASSIGNED" "OPEN" refl)
  | inr a ↦ elim (Bool-cases (str_eq action "NOTE")) [
    | inl n ↦
        let e : noted_status current ≡ next = cc (rw (t, c, a, n) at h) in
        subst MovesTo e (noted-MovesTo current t)
    | inr n ↦ elim (Bool-cases (str_eq action "CLOSE")) [
      | inl k ↦
          let e : "CLOSED" ≡ next = cc (rw (t, c, a, n, k) at h) in
          subst MovesTo e (refl, differs "CLOSED" "OPEN" refl)
      | inr k ↦ absurd (cc (rw (t, c, a, n, k) at h))
    ]
  ]
]

-- A ticket that an action leads to has one of the four states, is not open again, and did not come
-- from a closed one.
pub ticket_moves :
    (current action next : String)
    → next_ticket_status current action ≡ ok next
    → (is_ticket next ≡ true) × (next ≢ "OPEN") × (current ≢ "CLOSED")
unfolding next_ticket_status
ticket_moves current action next h = elim (Bool-cases (is_ticket current)) [
  | inr t ↦ absurd (cc (rw t at h))
  | inl t ↦ elim (Bool-cases (str_eq current "CLOSED")) [
    | inl c ↦ absurd (cc (rw (t, c) at h))
    | inr c ↦
        let (m, o) = action-MovesTo current action next t c h in (m, o, differs current "CLOSED" c)
  ]
]
