-- ===== src/Access/Laws.antt =====
-- What the role matrix promises for every text that is sent as a role or a permission.
use mathlib.Core.List.{Memᴰ}
use cross_pilot.Prelude.{
  Bool-cases, Option-cases, All, ◌≡◌, refl, sym, inl, inr, Bool, true, not, ◌&&◌, ◌||◌, Option,
  none, some, List, [], ◌∷◌, arith,
}
use cross_pilot.Access.{
  RoleCode, owner, admin, ops_manager, ops_staff, purchaser, finance, cs, viewer, Perm, role_value,
  all_roles, perm_value, role_permissions, role_in, parse_role, permissions_of,
  permissions_for_role, has_value, role_has_permission, sees_cost, role_can_view_cost,
}
use cross_pilot.Prelude.Text.{String, str_eq, eq_iff}

-- The guard on cost fields and the permission `cost:read` agree on every role code, known or not:
-- whoever has the one passes the other.
pub cost_guard_agrees :
    (role_code : String) → role_can_view_cost role_code ≡ role_has_permission role_code "cost:read"
unfolding role_can_view_cost role_has_permission permissions_for_role has_value
cost_guard_agrees role_code = go (parse_role role_code)
  where
    go : (o : Option RoleCode) → sees_cost o ≡ has_value "cost:read" (permissions_of o)
    go none = refl
    go (some owner) = refl
    go (some admin) = refl
    go (some ops_manager) = refl
    go (some ops_staff) = refl
    go (some purchaser) = refl
    go (some finance) = refl
    go (some cs) = refl
    go (some viewer) = refl

-- Each permission to change something, with the one to read it.
abbrev pub write_read_pairs : List (String × String)
write_read_pairs =
    ("tenant:write", "tenant:read")
    ∷ ("member:write", "member:read")
    ∷ ("shop:grant", "shop:read")
    ∷ ("product:write", "product:read")
    ∷ ("order:write", "order:read")
    ∷ ("order:ship", "order:read")
    ∷ ("order:rule", "order:read")
    ∷ ("inventory:write", "inventory:read")
    ∷ ("purchase:write", "purchase:read")
    ∷ ("compliance:write", "compliance:read")
    ∷ ("landed_cost:calc", "landed_cost:read")
    ∷ ("finance:write", "finance:read")
    ∷ ("cs:write", "cs:read")
    ∷ ("system:write", "system:read")
    ∷ []

abbrev implies : Bool → Bool → Bool
implies a b = not a || b

-- Whoever has the first permission of the pair has the second.
abbrev pub Reads : String → String × String → Type 0
Reads role_code (w, r) =
    implies (role_has_permission role_code w) (role_has_permission role_code r) ≡ true

-- the same, decided for all pairs at once
abbrev reads : List Perm → List (String × String) → Bool
reads perms [] = true
reads perms ((w, r) ∷ pairs) = implies (has_value w perms) (has_value r perms) && reads perms pairs

All-reads :
    (role_code : String) (pairs : List (String × String))
    → reads (permissions_for_role role_code) pairs ≡ true
    → All (Reads role_code) pairs
unfolding role_has_permission
All-reads role_code [] h = tt
All-reads role_code ((w, r) ∷ pairs) h =
    let perms = permissions_for_role role_code in
    elim (Bool-cases (implies (has_value w perms) (has_value r perms))) [
      | inl kept ↦ (kept, All-reads role_code pairs (rw kept at h))
      | inr broken ↦ absurd (cc (rw broken at h))
    ]

-- Whoever may change something may read it, for every role code.
pub writers_read : (role_code : String) → All (Reads role_code) write_read_pairs
unfolding permissions_for_role has_value
writers_read role_code = All-reads role_code write_read_pairs (go (parse_role role_code))
  where
    go : (o : Option RoleCode) → reads (permissions_of o) write_read_pairs ≡ true
    go none = refl
    go (some owner) = refl
    go (some admin) = refl
    go (some ops_manager) = refl
    go (some ops_staff) = refl
    go (some purchaser) = refl
    go (some finance) = refl
    go (some cs) = refl
    go (some viewer) = refl

role_in-value :
    (code : String) (roles : List RoleCode) (r : RoleCode)
    → role_in code roles ≡ some r
    → code ≡ role_value r
unfolding role_in
role_in-value code [] r h = cc
role_in-value code (x ∷ roles) r h =
    ground (arith, eq_iff (role_value x) code, role_in-value code roles r)

has_value-Mem :
    (permission : String) (perms : List Perm)
    → has_value permission perms ≡ true
    → (p : Perm) × Memᴰ p perms × (permission ≡ perm_value p)
unfolding has_value
has_value-Mem permission [] h = cc
has_value-Mem permission (x ∷ perms) h = elim (Bool-cases (str_eq (perm_value x) permission)) [
  | inl same ↦ (x, Memᴰ.head refl, sym ((eq_iff (perm_value x) permission).0 same))
  | inr other ↦
      let (p, m, e) = has_value-Mem permission perms (rw other at h) in (p, Memᴰ.tail m, e)
]

-- Nothing is granted by default: a permission that is granted stands in the matrix, under the role
-- that has the given code.
pub granted-Listed :
    (role_code permission : String)
    → role_has_permission role_code permission ≡ true
    → (r : RoleCode) × (role_code ≡ role_value r)
      × (p : Perm) × (permission ≡ perm_value p)
      × Memᴰ p (role_permissions r)
unfolding role_has_permission permissions_for_role has_value
granted-Listed role_code permission h = elim (Option-cases (parse_role role_code)) [
  | inl unknown ↦ absurd (cc (rw unknown at h))
  | inr (r, e) ↦
      let (p, m, q) = has_value-Mem permission (role_permissions r) (rw e at h) in
      (r, (unfold parse_role in role_in-value role_code all_roles r e), p, q, m)
]
