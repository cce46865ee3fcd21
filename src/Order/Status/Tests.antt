-- ===== src/Order/Status/Tests.antt =====
-- The status machine on concrete reports and tables.
use mathlib.Core.List.{Perm}
use mathlib.Core.List.Perm
use cross_pilot.Prelude.Text.{String}
use cross_pilot.Prelude.{◌≤◌, ◌≡◌, refl, false, some, List, [], ◌∷◌, arith}
use cross_pilot.Order.Status.{
  pending, paid, shipped, delivered, completed, cancelled, system, webhook, manual, apply, reject,
  parse_unified, decide_status, resolve_target, merge_mapping,
}
use cross_pilot.Order.Status.Decide.{level, cancelled_absorbs}
use cross_pilot.Order.Status.History.{Report, settle, settle-rank, settle-furthest, settle-perm}
use cross_pilot.Order.Status.Mapping.{or_else, resolve-merge}

abbrev late_reports : List Report
late_reports =
    (some shipped, webhook)
    ∷ (some paid, system)
    ∷ (some completed, system)
    ∷ (some shipped, webhook)
    ∷ []

abbrev defaults : List (String × String)
defaults = ("Unshipped", "PAID") ∷ ("Shipped", "SHIPPED") ∷ ("Odd", "NOWHERE") ∷ []

abbrev stored : List (String × String)
stored = ("Shipped", "DELIVERED") ∷ ("Unshipped", "bad") ∷ []

-- A person cannot skip from paid to delivered, a webhook can.
skips :
    (decide_status (some paid) (some delivered) manual
      ≡ record { kind = reject; from_status = some paid; to_status = paid; unmapped = false })
    × (decide_status (some paid) (some delivered) webhook
        ≡ record { kind = apply; from_status = some paid; to_status = delivered; unmapped = false })
unfolding decide_status
skips = (refl, refl)

settled : settle pending late_reports ≡ completed
unfolding decide_status
settled = refl

merged : merge_mapping defaults stored ≡ ("Unshipped", "PAID") ∷ ("Shipped", "DELIVERED") ∷ []
unfolding merge_mapping parse_unified
merged = refl

cancelled_absorbs_example :
    (decide_status (some cancelled) (some paid) webhook).to_status ≡ cancelled
cancelled_absorbs_example = cancelled_absorbs (some paid) webhook

settle-rank_example : 0 ≤ 4
unfolding decide_status
settle-rank_example = settle-rank pending late_reports refl refl

settle-furthest_example : level (settle pending late_reports) ≡ 4
settle-furthest_example = settle-furthest pending late_reports (omega arith) (ground arith)

abbrev other_order : List Report
other_order =
    (some completed, system)
    ∷ (some shipped, webhook)
    ∷ (some shipped, webhook)
    ∷ (some paid, system)
    ∷ []

another_order : Perm late_reports other_order
another_order =
    Perm.trans
      (Perm.cons (some shipped, webhook)
        (Perm.swap (some completed, system) (some paid, system) ((some shipped, webhook) ∷ [])))
      (Perm.trans
        (Perm.swap (some completed, system) (some shipped, webhook)
          ((some paid, system) ∷ (some shipped, webhook) ∷ []))
        (Perm.cons (some completed, system)
          (Perm.cons (some shipped, webhook)
            (Perm.swap (some shipped, webhook) (some paid, system) []))))

settle-perm_example : settle pending late_reports ≡ settle pending other_order
settle-perm_example =
    settle-perm pending late_reports other_order (omega arith) (ground arith) (ground arith)
      another_order

resolve-merge_example :
    resolve_target "Shipped" (merge_mapping defaults stored)
    ≡ or_else (resolve_target "Shipped" stored) (resolve_target "Shipped" defaults)
resolve-merge_example =
    resolve-merge "Shipped" defaults stored (refl, (refl, (refl, tt))) (refl, (refl, tt))
