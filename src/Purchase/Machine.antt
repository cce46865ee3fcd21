-- ===== src/Purchase/Machine.antt =====
-- What the state machine of purchase orders promises.
use mathlib.Core.Path.{subst}
use cross_pilot.Prelude.Int.{ℤ, pos, ◌≤ℤ◌, ltb_ℤ}
use cross_pilot.Prelude.{Bool-cases, ℕ, ◌≤◌, ◌≡◌, refl, ◌↔◌, inl, inr, false, arith}
use cross_pilot.Purchase.{
  PoStatus, draft, pending, approved, partial, received, closed, cancelled, Action, submit, reject,
  approve, cancel, close, PurchaseRuleError, cancel_approved, assert_transition,
}
use cross_pilot.Prelude.Result.{Result, ok}

-- How far an order has come.
abbrev pub progress : PoStatus → ℕ
progress draft = 0
progress pending = 1
progress approved = 2
progress partial = 3
progress received = 3
progress closed = 4
progress cancelled = 4

-- Where an action may start from and where it leads to, when `got` pieces were received.
pub data Leads (got : ℤ) : PoStatus → Action → PoStatus → Type 0 where
  submits : Leads got draft submit pending
  rejects : Leads got pending reject draft
  approves : Leads got pending approve approved
  drops : (s : PoStatus) → progress s ≤ 1 → Leads got s cancel cancelled
  withdraws : got ≤ℤ pos 0 → Leads got approved cancel cancelled
  closes : (s : PoStatus) → progress s ≡ 3 → Leads got s close closed

subst-Leads :
    {got : ℤ} {s n next : PoStatus} {a : Action}
    → ◌≡◌ {A = Result PurchaseRuleError PoStatus} (ok n) (ok next)
    → Leads got s a n
    → Leads got s a next
subst-Leads {got} {s} {n} {next} {a} e l =
    let e' : n ≡ next = cc e in subst (λ k. Leads got s a k) e' l

withdraw-Leads :
    (got : ℤ) (next : PoStatus)
    → cancel_approved (ltb_ℤ (pos 0) got) ≡ ok next
    → Leads got approved cancel next
withdraw-Leads got next e = elim (Bool-cases (ltb_ℤ (pos 0) got)) [
  | inl some_got ↦ absurd (cc (rw some_got at e))
  | inr none_got ↦ subst-Leads (rw none_got at e) (withdraws (ground arith))
]

transition-Leads :
    (status : PoStatus) (action : Action) (got : ℤ) (next : PoStatus)
    → assert_transition status action got ≡ ok next
    → Leads got status action next
unfolding assert_transition
transition-Leads draft submit got next e = subst-Leads e submits
transition-Leads pending reject got next e = subst-Leads e rejects
transition-Leads pending approve got next e = subst-Leads e approves
transition-Leads draft cancel got next e = subst-Leads e (drops draft (omega arith))
transition-Leads pending cancel got next e = subst-Leads e (drops pending (omega arith))
transition-Leads approved cancel got next e = withdraw-Leads got next e
transition-Leads partial close got next e = subst-Leads e (closes partial refl)
transition-Leads received close got next e = subst-Leads e (closes received refl)
transition-Leads status action got next e = absurd (cc e)

Leads-transition :
    (got : ℤ) (status : PoStatus) (action : Action) (next : PoStatus)
    → Leads got status action next
    → assert_transition status action got ≡ ok next
unfolding assert_transition
Leads-transition got draft submit pending submits = refl
Leads-transition got pending reject draft rejects = refl
Leads-transition got pending approve approved approves = refl
Leads-transition got draft cancel cancelled (drops draft h) = refl
Leads-transition got pending cancel cancelled (drops pending h) = refl
Leads-transition got approved cancel cancelled (withdraws h) =
    let none_got : ltb_ℤ (pos 0) got ≡ false = ground arith in rw none_got refl
Leads-transition got partial close closed (closes partial h) = refl
Leads-transition got received close closed (closes received h) = refl
Leads-transition got s a n (drops t h) = absurd (omega (arith, h))
Leads-transition got s a n (closes t h) = absurd (omega (arith, h))

-- `assert_transition` returns a status exactly where the relation leads to it; everywhere else it
-- raises. In particular only an unapproved order, or an approved one of which nothing was received,
-- can be cancelled.
pub transition_iff :
    (status : PoStatus) (action : Action) (got : ℤ) (next : PoStatus)
    → (assert_transition status action got ≡ ok next) ↔ Leads got status action next
transition_iff status action got next =
    (transition-Leads status action got next, Leads-transition got status action next)
