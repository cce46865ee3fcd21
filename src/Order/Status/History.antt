-- ===== src/Order/Status/History.antt =====
-- A run of reports on one order, each decided against the state that the reports before it left.
use Prim.Native.Nat.{max}
use native.Mathlib.Nat.{ℕ_set}
use mathlib.Core.List.{foldr, Perm}
use mathlib.Core.List.Perm
use cross_pilot.Prelude.{
  All, ℕ, ◌≤◌, ◌≡◌, refl, sym, ap, ◌∙◌, false, Option, none, some, List, [], ◌∷◌, arith,
}
use cross_pilot.Order.Status.{
  UnifiedStatus, StatusChangeSource, rank, is_manual, allowed, decide_known, decide_status,
}
use cross_pilot.Order.Status.Decide.{level, decide_status-level}

abbrev pub Report : Type 0
Report = Option UnifiedStatus × StatusChangeSource

-- The state of an order after its reports, in the order of their arrival.
abbrev pub settle : UnifiedStatus → List Report → UnifiedStatus
settle c [] = c
settle c ((target, source) ∷ reports) =
    settle (decide_status (some c) target source).to_status reports

pub settle-level : (c : UnifiedStatus) (reports : List Report) → level c ≤ level (settle c reports)
settle-level c [] = omega arith
settle-level c ((target, source) ∷ reports) = omega (
  arith,
  decide_status-level c target source,
  settle-level (decide_status (some c) target source).to_status reports,
)

level-rank : (s : UnifiedStatus) {n : ℕ} → rank s ≡ some n → level s ≡ n
level-rank s h = ground arith

-- Between two states of the main chain an order never goes back, whatever was reported on the way,
-- by whatever source, states off the chain included.
pub settle-rank :
    (c : UnifiedStatus) (reports : List Report) {m n : ℕ}
    → rank c ≡ some m
    → rank (settle c reports) ≡ some n
    → m ≤ n
settle-rank c reports h k =
    omega (arith, settle-level c reports, level-rank c h, level-rank (settle c reports) k)

-- A report by polling or by a webhook of a state on the main chain.
abbrev pub IsProgress : Report → Type 0
IsProgress (none, source) = ⊥
IsProgress (some target, source) = (is_manual source ≡ false) × (level target ≤ 4)

abbrev pub furthest : ℕ → List Report → ℕ
furthest n [] = n
furthest n ((none, source) ∷ reports) = furthest n reports
furthest n ((some target, source) ∷ reports) = furthest (max n (level target)) reports

decide_progress :
    (c t : UnifiedStatus) (s : StatusChangeSource)
    → level c ≤ 4
    → level t ≤ 4
    → is_manual s ≡ false
    → level (decide_status (some c) (some t) s).to_status ≡ max (level c) (level t)
unfolding decide_status decide_known allowed
decide_progress c t s hc ht hs = ground arith

max-le : (m n k : ℕ) → m ≤ k → n ≤ k → max m n ≤ k
max-le m n k h h' = omega arith

-- From a state of the main chain, reports of main-chain states by polling and webhooks leave the order
-- at the furthest of them, or where it was if that is further.
pub settle-furthest :
    (c : UnifiedStatus) (reports : List Report)
    → level c ≤ 4
    → All IsProgress reports
    → level (settle c reports) ≡ furthest (level c) reports
settle-furthest c [] hc h = refl
settle-furthest c ((none, source) ∷ reports) hc h = absurd h.0
settle-furthest c ((some t, s) ∷ reports) hc h =
    let e = decide_progress c t s hc h.0.1 h.0.0 in
    let c' = (decide_status (some c) (some t) s).to_status in
    settle-furthest c' reports (omega (arith, e, max-le (level c) (level t) 4 hc h.0.1)) h.1
    ∙ ap (λ n. furthest n reports) e

abbrev report_level : Report → ℕ
report_level (none, source) = 0
report_level (some target, source) = level target

abbrev further : Report → ℕ → ℕ
further r n = max (report_level r) n

further_comm : (r r' : Report) (n : ℕ) → further r (further r' n) ≡ further r' (further r n)
further_comm r r' n = omega arith

foldr-further :
    (n k : ℕ) (reports : List Report)
    → foldr further (max n k) reports ≡ max k (foldr further n reports)
foldr-further n k [] = omega arith
foldr-further n k (r ∷ reports) = omega (arith, foldr-further n k reports)

furthest-foldr : (n : ℕ) (reports : List Report) → furthest n reports ≡ foldr further n reports
furthest-foldr n [] = refl
furthest-foldr n ((none, source) ∷ reports) = omega (arith, furthest-foldr n reports)
furthest-foldr n ((some t, source) ∷ reports) =
    furthest-foldr (max n (level t)) reports ∙ foldr-further n (level t) reports

-- A state of the main chain is known by its level.
level_inj : (a b : UnifiedStatus) → level a ≡ level b → level b ≤ 4 → a ≡ b
level_inj a b e h = ground arith

furthest_le :
    (n : ℕ) (reports : List Report) → n ≤ 4 → All IsProgress reports → furthest n reports ≤ 4
furthest_le n [] h p = h
furthest_le n ((none, source) ∷ reports) h p = absurd p.0
furthest_le n ((some t, source) ∷ reports) h p =
    furthest_le (max n (level t)) reports (max-le n (level t) 4 h p.0.1) p.1

-- The order in which reports of main-chain states by polling and webhooks arrive does not matter: from
-- a state of the main chain, the same reports in another order lead to the same state.
pub settle-perm :
    (c : UnifiedStatus) (reports reports' : List Report)
    → level c ≤ 4
    → All IsProgress reports
    → All IsProgress reports'
    → Perm reports reports'
    → settle c reports ≡ settle c reports'
settle-perm c reports reports' hc h h' p =
    let e = settle-furthest c reports hc h in
    let e' = settle-furthest c reports' hc h' in
    let same : furthest (level c) reports ≡ furthest (level c) reports' =
      furthest-foldr (level c) reports
      ∙ Perm.foldr-eq ℕ_set further further_comm p (level c)
      ∙ sym (furthest-foldr (level c) reports') in
    level_inj (settle c reports) (settle c reports') (e ∙ same ∙ sym e')
      (omega (arith, e', furthest_le (level c) reports' hc h'))
