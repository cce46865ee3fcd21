-- ===== src/Access.antt =====
-- Roles and permissions, of backend/app/core/permissions.py. A role code and a permission code are
-- the source's strings; the enums are what `RoleCode(…)` and `Perm(…)` make of them.
pub mod Laws
mod Tests
use cross_pilot.Prelude.{if◌then◌else◌, Bool, false, ◌||◌, Option, none, some, List, [], ◌∷◌}
use cross_pilot.Prelude.Text.{String, str_eq}

pub data RoleCode : Type 0 where
  owner admin ops_manager ops_staff purchaser finance cs viewer : RoleCode

pub data Perm : Type 0 where
  tenant_read tenant_write member_read member_write shop_read shop_grant : Perm
  product_read product_write order_read order_ship order_write order_rule : Perm
  inventory_read inventory_write purchase_read purchase_write cost_read ads_read : Perm
  compliance_read compliance_write landed_cost_read landed_cost_calc : Perm
  finance_read finance_write report_export dashboard_read cs_read cs_write : Perm
  audit_read system_read system_write : Perm

abbrev pub role_value : RoleCode → String
role_value owner = "OWNER"
role_value admin = "ADMIN"
role_value ops_manager = "OPS_MANAGER"
role_value ops_staff = "OPS_STAFF"
role_value purchaser = "PURCHASER"
role_value finance = "FINANCE"
role_value cs = "CS"
role_value viewer = "VIEWER"

abbrev pub all_roles : List RoleCode
all_roles = owner ∷ admin ∷ ops_manager ∷ ops_staff ∷ purchaser ∷ finance ∷ cs ∷ viewer ∷ []

abbrev pub perm_value : Perm → String
perm_value tenant_read = "tenant:read"
perm_value tenant_write = "tenant:write"
perm_value member_read = "member:read"
perm_value member_write = "member:write"
perm_value shop_read = "shop:read"
perm_value shop_grant = "shop:grant"
perm_value product_read = "product:read"
perm_value product_write = "product:write"
perm_value order_read = "order:read"
perm_value order_ship = "order:ship"
perm_value order_write = "order:write"
perm_value order_rule = "order:rule"
perm_value inventory_read = "inventory:read"
perm_value inventory_write = "inventory:write"
perm_value purchase_read = "purchase:read"
perm_value purchase_write = "purchase:write"
perm_value cost_read = "cost:read"
perm_value ads_read = "ads:read"
perm_value compliance_read = "compliance:read"
perm_value compliance_write = "compliance:write"
perm_value landed_cost_read = "landed_cost:read"
perm_value landed_cost_calc = "landed_cost:calc"
perm_value finance_read = "finance:read"
perm_value finance_write = "finance:write"
perm_value report_export = "report:export"
perm_value dashboard_read = "dashboard:read"
perm_value cs_read = "cs:read"
perm_value cs_write = "cs:write"
perm_value audit_read = "audit:read"
perm_value system_read = "system:read"
perm_value system_write = "system:write"

-- `_ALL`
abbrev pub all_perms : List Perm
all_perms =
    tenant_read ∷ tenant_write ∷ member_read ∷ member_write ∷ shop_read ∷ shop_grant ∷ product_read
    ∷ product_write ∷ order_read ∷ order_ship ∷ order_write ∷ order_rule ∷ inventory_read
    ∷ inventory_write ∷ purchase_read ∷ purchase_write ∷ cost_read ∷ ads_read ∷ compliance_read
    ∷ compliance_write ∷ landed_cost_read ∷ landed_cost_calc ∷ finance_read ∷ finance_write
    ∷ report_export ∷ dashboard_read ∷ cs_read ∷ cs_write ∷ audit_read ∷ system_read ∷ system_write
    ∷ []

-- `ROLE_PERMISSIONS`
abbrev pub role_permissions : RoleCode → List Perm
role_permissions owner = all_perms
role_permissions admin = all_perms
role_permissions ops_manager =
    shop_read ∷ shop_grant ∷ product_read ∷ product_write ∷ order_read ∷ order_ship ∷ order_write
    ∷ order_rule ∷ inventory_read ∷ inventory_write ∷ purchase_read ∷ cost_read ∷ ads_read
    ∷ compliance_read ∷ compliance_write ∷ landed_cost_read ∷ landed_cost_calc ∷ finance_read
    ∷ report_export ∷ dashboard_read ∷ cs_read ∷ cs_write ∷ []
role_permissions ops_staff =
    product_read ∷ product_write ∷ order_read ∷ order_ship ∷ order_write ∷ inventory_read
    ∷ inventory_write ∷ ads_read ∷ compliance_read ∷ compliance_write ∷ landed_cost_read
    ∷ landed_cost_calc ∷ dashboard_read ∷ cs_read ∷ cs_write ∷ []
role_permissions purchaser =
    product_read ∷ inventory_read ∷ inventory_write ∷ purchase_read ∷ purchase_write ∷ cost_read
    ∷ compliance_read ∷ landed_cost_read ∷ landed_cost_calc ∷ dashboard_read ∷ []
role_permissions finance =
    product_read ∷ order_read ∷ inventory_read ∷ purchase_read ∷ cost_read ∷ ads_read
    ∷ landed_cost_read ∷ finance_read ∷ finance_write ∷ report_export ∷ dashboard_read ∷ []
role_permissions cs = product_read ∷ order_read ∷ order_ship ∷ order_write ∷ cs_read ∷ cs_write ∷ []
role_permissions viewer =
    shop_read ∷ product_read ∷ order_read ∷ inventory_read ∷ ads_read ∷ compliance_read
    ∷ finance_read ∷ dashboard_read ∷ cs_read ∷ []

-- `COST_VISIBLE_ROLES`
abbrev pub cost_visible_roles : List RoleCode
cost_visible_roles = owner ∷ admin ∷ ops_manager ∷ purchaser ∷ finance ∷ []

-- `RoleCode(role_code)`: the member with this value
unfoldable pub role_in : String → List RoleCode → Option RoleCode
role_in code [] = none
role_in code (role ∷ roles) =
    if str_eq (role_value role) code then some role else role_in code roles

unfoldable pub parse_role : String → Option RoleCode
unfolding role_in
parse_role code = role_in code all_roles

abbrev pub permissions_of : Option RoleCode → List Perm
permissions_of none = []
permissions_of (some role) = role_permissions role

unfoldable pub permissions_for_role : String → List Perm
unfolding parse_role
permissions_for_role role_code = permissions_of (parse_role role_code)

-- `permission in {p.value for p in perms}`
unfoldable pub has_value : String → List Perm → Bool
has_value permission [] = false
has_value permission (p ∷ perms) = str_eq (perm_value p) permission || has_value permission perms

unfoldable pub role_has_permission : String → String → Bool
unfolding permissions_for_role has_value
role_has_permission role_code permission = has_value permission (permissions_for_role role_code)

-- `role in COST_VISIBLE_ROLES`, by the values, which differ from member to member
unfoldable pub has_role : RoleCode → List RoleCode → Bool
has_role role [] = false
has_role role (r ∷ roles) = str_eq (role_value r) (role_value role) || has_role role roles

abbrev pub sees_cost : Option RoleCode → Bool
sees_cost none = false
sees_cost (some role) = has_role role cost_visible_roles

unfoldable pub role_can_view_cost : String → Bool
unfolding parse_role has_role
role_can_view_cost role_code = sees_cost (parse_role role_code)
