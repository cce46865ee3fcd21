-- ===== src/Order/Status.antt =====
-- The unified order status machine of backend/app/engines/order_status.py. A platform's own text
-- is mapped to one of nine states, and `decide_status` says whether an order may move there.
-- Python's `is` on members of an enum is `same`, equality of their positions.
pub mod Mapping
pub mod Decide
pub mod History
mod Tests
use cross_pilot.Prelude.{
  ltb, ◌==◌, if◌then◌else◌, ℕ, Bool, true, false, ◌||◌, Option, none, some, List, [], ◌∷◌,
}
use cross_pilot.Prelude.Text.{String, str_eq, dict_get, dict_set}

pub data UnifiedStatus : Type 0 where
  pending paid shipped delivered completed cancelled refunding refunded returned : UnifiedStatus

pub data StatusChangeSource : Type 0 where
  system webhook manual : StatusChangeSource

pub data DecisionKind : Type 0 where
  apply unchanged reject : DecisionKind

-- `status.value`, the text that is stored
abbrev pub value : UnifiedStatus → String
value pending = "PENDING"
value paid = "PAID"
value shipped = "SHIPPED"
value delivered = "DELIVERED"
value completed = "COMPLETED"
value cancelled = "CANCELLED"
value refunding = "REFUNDING"
value refunded = "REFUNDED"
value returned = "RETURNED"

-- the position of a member in its enum
abbrev pub index : UnifiedStatus → ℕ
index pending = 0
index paid = 1
index shipped = 2
index delivered = 3
index completed = 4
index cancelled = 5
index refunding = 6
index refunded = 7
index returned = 8

abbrev pub same : UnifiedStatus → UnifiedStatus → Bool
same a b = index a == index b

abbrev pub all_statuses : List UnifiedStatus
all_statuses =
    pending ∷ paid ∷ shipped ∷ delivered ∷ completed ∷ cancelled ∷ refunding ∷ refunded ∷ returned
    ∷ []

-- `status in {…}`
abbrev pub one_of : UnifiedStatus → List UnifiedStatus → Bool
one_of s [] = false
one_of s (t ∷ ts) = same s t || one_of s ts

-- `UnifiedStatus(text)`: the first member with that value, or a `ValueError`
abbrev pub from_value : String → List UnifiedStatus → Option UnifiedStatus
from_value text [] = none
from_value text (s ∷ ss) = if str_eq text (value s) then some s else from_value text ss

unfoldable pub parse_unified : Option String → Option UnifiedStatus
parse_unified none = none
parse_unified (some text) = if str_eq text "" then none else from_value text all_statuses

-- `_RANK`: the position on the main chain
abbrev pub rank : UnifiedStatus → Option ℕ
rank pending = some 0
rank paid = some 1
rank shipped = some 2
rank delivered = some 3
rank completed = some 4
rank _ = none

-- `_MANUAL`: the edges open to a person
abbrev pub manual_targets : UnifiedStatus → List UnifiedStatus
manual_targets pending = paid ∷ cancelled ∷ []
manual_targets paid = shipped ∷ cancelled ∷ refunding ∷ []
manual_targets shipped = delivered ∷ cancelled ∷ refunding ∷ returned ∷ []
manual_targets delivered = completed ∷ refunding ∷ returned ∷ []
manual_targets completed = refunding ∷ returned ∷ []
manual_targets refunding = refunded ∷ returned ∷ []
manual_targets returned = refunded ∷ []
manual_targets refunded = []
manual_targets cancelled = []

abbrev pub cancel_from : List UnifiedStatus
cancel_from = pending ∷ paid ∷ shipped ∷ []

abbrev pub refund_from : List UnifiedStatus
refund_from = paid ∷ shipped ∷ delivered ∷ completed ∷ []

abbrev pub return_from : List UnifiedStatus
return_from = shipped ∷ delivered ∷ completed ∷ refunding ∷ []

-- The targets off the main chain, the last four tests of `_allowed`.
abbrev side_allowed : UnifiedStatus → UnifiedStatus → Bool
side_allowed current cancelled = one_of current cancel_from
side_allowed current refunding = one_of current refund_from
side_allowed current refunded = one_of current refund_from || same current refunding
side_allowed current returned = one_of current return_from
side_allowed current _ = false

-- `current in _RANK and target in _RANK`
abbrev chain_allowed : Option ℕ → Option ℕ → Bool → Bool
chain_allowed (some c) (some t) side = ltb c t
chain_allowed _ _ side = side

abbrev is_manual : StatusChangeSource → Bool
is_manual manual = true
is_manual _ = false

-- `_allowed`
unfoldable pub allowed : UnifiedStatus → UnifiedStatus → StatusChangeSource → Bool
allowed current target source =
    if is_manual source
    then one_of target (manual_targets current)
    else if same current cancelled
    then false
    else if same current refunded
    then same target returned
    else if same current returned
    then same target refunded
    else chain_allowed (rank current) (rank target) (side_allowed current target)

pub record StatusDecision : Type 0 where
  pub kind : DecisionKind
  pub from_status : Option UnifiedStatus
  pub to_status : UnifiedStatus
  pub unmapped : Bool

-- An order with a known state and a target.
unfoldable pub decide_known : UnifiedStatus → UnifiedStatus → StatusChangeSource → StatusDecision
unfolding allowed
decide_known current target source =
    if same current target
    then record {
      kind = unchanged;
      from_status = some current;
      to_status = current;
      unmapped = false;
    }
    else if allowed current target source
    then record { kind = apply; from_status = some current; to_status = target; unmapped = false }
    else record { kind = reject; from_status = some current; to_status = current; unmapped = false }

unfoldable pub decide_status :
    Option UnifiedStatus → Option UnifiedStatus → StatusChangeSource → StatusDecision
unfolding decide_known
decide_status none none source = record {
  kind = apply;
  from_status = none;
  to_status = pending;
  unmapped = true;
}
decide_status (some current) none source = record {
  kind = unchanged;
  from_status = some current;
  to_status = current;
  unmapped = true;
}
decide_status none (some target) source = record {
  kind = apply;
  from_status = none;
  to_status = target;
  unmapped = false;
}
decide_status (some current) (some target) source = decide_known current target source

-- `resolve_target`: the table has the platform's text, and its value is one of the nine
unfoldable pub resolve_target : String → List (String × String) → Option UnifiedStatus
resolve_target platform_status table = parse_unified (dict_get platform_status table)

abbrev keep_valid :
    Option UnifiedStatus → String × String → List (String × String) → List (String × String)
keep_valid none entry rest = rest
keep_valid (some _) entry rest = entry ∷ rest

-- The dict comprehension over the defaults.
unfoldable pub valid_entries : List (String × String) → List (String × String)
valid_entries [] = []
valid_entries ((key, text) ∷ table) =
    keep_valid (parse_unified (some text)) (key, text) (valid_entries table)

abbrev write_valid : String → Option UnifiedStatus → List (String × String) → List (String × String)
write_valid key none merged = merged
write_valid key (some s) merged = dict_set key (value s) merged

-- The loop over the stored rows.
unfoldable pub overlay : List (String × String) → List (String × String) → List (String × String)
overlay merged [] = merged
overlay merged ((key, text) ∷ stored) =
    overlay (write_valid key (parse_unified (some text)) merged) stored

unfoldable pub merge_mapping :
    List (String × String) → List (String × String) → List (String × String)
unfolding valid_entries overlay
merge_mapping defaults stored = overlay (valid_entries defaults) stored
