-- ===== src/Order/Status/Mapping.antt =====
-- The table from a platform's texts to the nine states.
use cross_pilot.Prelude.{
  if◌then◌else◌, Bool-cases, Option-cases, ◌≡◌, refl, ap, ◌∙◌, ◌↔◌, inl, inr, true, Option, none,
  some, List, [], ◌∷◌, arith,
}
use cross_pilot.Prelude.Text.{String, str_eq, eq_iff, dict_get, dict_get-dict_set}
use cross_pilot.Order.Status.{
  UnifiedStatus, pending, paid, shipped, delivered, completed, cancelled, refunding, refunded,
  returned, value, all_statuses, from_value, parse_unified, resolve_target, valid_entries,
  write_valid, overlay, merge_mapping,
}

pub parse-value : (s : UnifiedStatus) → parse_unified (some (value s)) ≡ some s
unfolding parse_unified
parse-value pending = refl
parse-value paid = refl
parse-value shipped = refl
parse-value delivered = refl
parse-value completed = refl
parse-value cancelled = refl
parse-value refunding = refl
parse-value refunded = refl
parse-value returned = refl

from_value-value :
    (text : String) (ss : List UnifiedStatus) (s : UnifiedStatus)
    → from_value text ss ≡ some s
    → text ≡ value s
from_value-value text [] s h = cc
from_value-value text (x ∷ ss) s h =
    ground (arith, eq_iff text (value x), from_value-value text ss s)

pub parsed_text :
    (text : String) (s : UnifiedStatus) → parse_unified (some text) ≡ some s → text ≡ value s
unfolding parse_unified
parsed_text text s h = ground (arith, from_value-value text all_statuses s)

-- A text parses to a state exactly when it is the text stored for that state.
pub parse_iff :
    (text : String) (s : UnifiedStatus) → (parse_unified (some text) ≡ some s) ↔ (text ≡ value s)
parse_iff text s = (there, back)
  where
    there : parse_unified (some text) ≡ some s → text ≡ value s
    there h = parsed_text text s h

    back : text ≡ value s → parse_unified (some text) ≡ some s
    back e = rw e (parse-value s)

-- The keys of a dict differ.
abbrev pub IsDict {ℓ} : {V : Type ℓ} → List (String × V) → Type ℓ
IsDict [] = Unit
IsDict ((k, v) ∷ d) = (dict_get k d ≡ none) × IsDict d

abbrev pub or_else : Option UnifiedStatus → Option UnifiedStatus → Option UnifiedStatus
or_else none b = b
or_else (some a) b = some a

resolve-valid_entries :
    (k : String) (d : List (String × String))
    → IsDict d
    → resolve_target k (valid_entries d) ≡ resolve_target k d
unfolding resolve_target valid_entries
resolve-valid_entries k [] h = refl
resolve-valid_entries k ((j, text) ∷ d) h = elim (Option-cases (parse_unified (some text))) [
  | inl bad ↦ rw bad (ground (arith, bad, resolve-valid_entries k d h.1, eq_iff j k, missing))
  | inr (s, good) ↦ rw good (ground (arith, resolve-valid_entries k d h.1))
]
  where
    missing : j ≡ k → resolve_target k d ≡ none
    missing e = rw (← e, h.0) (unfold parse_unified in refl)

parse-write_valid :
    (k j : String) (o : Option UnifiedStatus) (merged : List (String × String))
    → resolve_target k (write_valid j o merged)
      ≡ (if str_eq j k then or_else o (resolve_target k merged) else resolve_target k merged)
unfolding resolve_target
parse-write_valid k j none merged = ground arith
parse-write_valid k j (some s) merged =
    rw dict_get-dict_set
      (elim (Bool-cases (str_eq j k)) [ inl e ↦ rw e (parse-value s) | inr e ↦ rw e refl ])

resolve-cons :
    (k j text : String) (d : List (String × String))
    → resolve_target k ((j, text) ∷ d)
      ≡ (if str_eq j k then parse_unified (some text) else resolve_target k d)
unfolding resolve_target
resolve-cons k j text d = ground arith

-- A key that a dict does not have again has no target in the rest.
resolve-rest :
    (k j : String) (d : List (String × String))
    → dict_get j d ≡ none
    → str_eq j k ≡ true
    → resolve_target k d ≡ none
unfolding resolve_target parse_unified
resolve-rest k j d h e = rw (← (eq_iff j k).0 e, h) refl

-- One stored row against the table so far.
resolve_step :
    (k j text : String) (merged stored : List (String × String))
    → dict_get j stored ≡ none
    → or_else
        (resolve_target k stored)
        (resolve_target k (write_valid j (parse_unified (some text)) merged))
      ≡ or_else (resolve_target k ((j, text) ∷ stored)) (resolve_target k merged)
resolve_step k j text merged stored h = elim (Bool-cases (str_eq j k)) [
  | inl e ↦ rw (resolve-cons, parse-write_valid, e, resolve-rest k j stored h e)
  | inr e ↦ rw (resolve-cons, parse-write_valid, e)
]

resolve-overlay :
    (k : String) (merged stored : List (String × String))
    → IsDict stored
    → resolve_target k (overlay merged stored)
      ≡ or_else (resolve_target k stored) (resolve_target k merged)
unfolding overlay
resolve-overlay k merged [] h = unfold resolve_target parse_unified in refl
resolve-overlay k merged ((j, text) ∷ stored) h =
    resolve-overlay k (write_valid j (parse_unified (some text)) merged) stored h.1
    ∙ resolve_step k j text merged stored h.0

-- In the merged table a stored row that names a state decides; else the adapter's default does; a
-- text that neither maps to one of the nine states has no target.
pub resolve-merge :
    (k : String) (defaults stored : List (String × String))
    → IsDict defaults
    → IsDict stored
    → resolve_target k (merge_mapping defaults stored)
      ≡ or_else (resolve_target k stored) (resolve_target k defaults)
unfolding merge_mapping
resolve-merge k defaults stored hd hs =
    resolve-overlay k (valid_entries defaults) stored hs
    ∙ ap (or_else (resolve_target k stored)) (resolve-valid_entries k defaults hd)
