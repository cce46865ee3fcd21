-- ===== src/Access/Tests.antt =====
-- Roles on concrete codes.
use cross_pilot.Prelude.Text.{String}
use cross_pilot.Prelude.{◌≡◌, refl, true}
use cross_pilot.Access.{
  RoleCode, Perm, role_value, perm_value, role_permissions, role_in, parse_role,
  permissions_for_role, has_value, role_has_permission, role_can_view_cost,
}
use cross_pilot.Access.Laws.{cost_guard_agrees, granted-Listed}
use mathlib.Core.List.{Memᴰ}

cost_guard_agrees_example :
    role_can_view_cost "OPS_STAFF" ≡ role_has_permission "OPS_STAFF" "cost:read"
cost_guard_agrees_example = cost_guard_agrees "OPS_STAFF"

buyer_reads_cost : role_has_permission "PURCHASER" "cost:read" ≡ true
unfolding role_has_permission permissions_for_role parse_role role_in has_value
buyer_reads_cost = refl

granted-Listed_example :
    (r : RoleCode) × (◌≡◌ {A = String} "PURCHASER" (role_value r))
    × (p : Perm) × (◌≡◌ {A = String} "cost:read" (perm_value p))
    × Memᴰ p (role_permissions r)
granted-Listed_example = granted-Listed "PURCHASER" "cost:read" buyer_reads_cost
