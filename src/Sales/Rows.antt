-- ===== src/Sales/Rows.antt =====
-- Reading the table of orders after a row was added or changed.
use mathlib.Core.Path.{subst}
use cross_pilot.Prelude.Text.{eq_iff}
use cross_pilot.Prelude.{
  ◌==◌, if◌then◌else◌, Bool-cases, ℕ, ◌≡◌, refl, sym, ap, ◌∙◌, ◌↔◌, ◌⊎◌, inl, inr, Bool, true,
  false, Option, none, some, List, [], ◌∷◌, ◌++◌, arith,
}
use cross_pilot.Order.Status.{same, StatusDecision}
use cross_pilot.Sales.Tables.{OrderKey, same_key, SalesOrder, get_by_key, find_order, update_order}
use cross_pilot.Sales.Upsert.{
  UnifiedOrder, stamp, copy_report, apply_status, stored_status, stored_stamp,
}

pub same_key_iff : (a b : OrderKey) → (same_key a b ≡ true) ↔ (a ≡ b)
same_key_iff a b =
    ground (arith, eq_iff a.platform b.platform, eq_iff a.platform_order_id b.platform_order_id)

pub same_key_refl : (a : OrderKey) → same_key a a ≡ true
same_key_refl a = (same_key_iff a a).1 refl

pub same_key_sym : (a b : OrderKey) → same_key a b ≡ true → same_key b a ≡ true
same_key_sym a b h = (same_key_iff b a).1 (sym ((same_key_iff a b).0 h))

-- A change of a row that leaves its id and its key.
pub record KeepsKey (f : SalesOrder → SalesOrder) : Type 0 where
  pub on_id : (row : SalesOrder) → (f row).id ≡ row.id
  pub on_key : (row : SalesOrder) → (f row).key ≡ row.key

pub apply_status-KeepsKey :
    (order : UnifiedOrder) (d : StatusDecision) → KeepsKey (apply_status order d)
unfolding apply_status copy_report stamp
apply_status-KeepsKey order d = record { on_id = λ row. ground arith; on_key = λ row. ground arith }

abbrev pub after_change : Bool → (SalesOrder → SalesOrder) → Option SalesOrder → Option SalesOrder
after_change hit f none = none
after_change true f (some row) = some (f row)
after_change false f (some row) = some row

pub find-update :
    (i id : ℕ) (f : SalesOrder → SalesOrder) (rows : List SalesOrder)
    → KeepsKey f
    → find_order i (update_order id f rows) ≡ after_change (id == i) f (find_order i rows)
unfolding find_order update_order
find-update i id f [] k = refl
find-update i id f (row ∷ rows) k = ground (arith, k.on_id row, find-update i id f rows k)

pub find-append :
    (i : ℕ) (rows : List SalesOrder) (new : SalesOrder)
    → find_order new.id rows ≡ none
    → find_order i (rows ++ new ∷ []) ≡ (if new.id == i then some new else find_order i rows)
unfolding find_order
find-append i [] new h = refl
find-append i (row ∷ rows) new h = ground (arith, find-append i rows new)

pub get-append :
    (key : OrderKey) (rows : List SalesOrder) (new : SalesOrder)
    → get_by_key key rows ≡ none
    → get_by_key key (rows ++ new ∷ []) ≡ (if same_key new.key key then some new else none)
unfolding get_by_key
get-append key [] new h = refl
get-append key (row ∷ rows) new h = ground (arith, get-append key rows new)

pub get-update-none :
    (key : OrderKey) (id : ℕ) (f : SalesOrder → SalesOrder) (rows : List SalesOrder)
    → KeepsKey f
    → get_by_key key rows ≡ none
    → get_by_key key (update_order id f rows) ≡ none
unfolding get_by_key update_order
get-update-none key id f [] k h = refl
get-update-none key id f (row ∷ rows) k h =
    ground (arith, k.on_id row, k.on_key row, get-update-none key id f rows k)

-- The primary key, and the unique index on the keys.
abbrev pub IsTable : List SalesOrder → Type 0
IsTable [] = Unit
IsTable (row ∷ rows) =
    (find_order row.id rows ≡ none) × (get_by_key row.key rows ≡ none) × IsTable rows

other_id :
    (first : SalesOrder) (rows : List SalesOrder) (row : SalesOrder)
    → find_order first.id rows ≡ none
    → find_order row.id rows ≡ some row
    → ¬ (first.id ≡ row.id)
other_id first rows row h k e = absurd (cc (rw e at h, k))

find-cons :
    (i : ℕ) (first : SalesOrder) (rows : List SalesOrder) (row : SalesOrder)
    → find_order first.id rows ≡ none
    → find_order i rows ≡ some row
    → find_order i (first ∷ rows) ≡ some row
unfolding find_order
find-cons i first rows row h k = ground (arith, apart)
  where
    apart : first.id ≡ i → ⊥
    apart e = absurd (cc (rw e at h, k))

pub get-cons :
    (key : OrderKey) (first : SalesOrder) (rows : List SalesOrder) (row : SalesOrder)
    → get_by_key key (first ∷ rows) ≡ some row
    → (first ≡ row) ⊎ (get_by_key key rows ≡ some row)
unfolding get_by_key
get-cons key first rows row h = go (same_key first.key key) h
  where
    go :
        (b : Bool)
        → (if b then some first else get_by_key key rows) ≡ some row
        → (first ≡ row) ⊎ (get_by_key key rows ≡ some row)
    go true h = inl (cc h)
    go false h = inr h

find-here : (row : SalesOrder) (rows : List SalesOrder) → find_order row.id (row ∷ rows) ≡ some row
unfolding find_order
find-here row rows = ground arith

-- An order that was looked up by its key is the one with its id.
pub find-get :
    (key : OrderKey) (rows : List SalesOrder) (row : SalesOrder)
    → IsTable rows
    → get_by_key key rows ≡ some row
    → find_order row.id rows ≡ some row
unfolding get_by_key
find-get key [] row t h = absurd (cc h)
find-get key (first ∷ rows) row t h = elim (get-cons key first rows row h) [
  | inl e ↦ subst (λ r. find_order r.id (first ∷ rows) ≡ some r) e (find-here first rows)
  | inr rest ↦ find-cons row.id first rows row t.0 (find-get key rows row t.2 rest)
]

-- The row with a key after the row with that key was changed.
pub get-update :
    (key : OrderKey) (f : SalesOrder → SalesOrder) (rows : List SalesOrder) (row : SalesOrder)
    → KeepsKey f
    → IsTable rows
    → get_by_key key rows ≡ some row
    → get_by_key key (update_order row.id f rows) ≡ some (f row)
unfolding get_by_key update_order
get-update key f [] row k t h = absurd (cc h)
get-update key f (first ∷ rows) row k t h =
    go (same_key first.key key) refl (get-update key f rows row k t.2)
  where
    go :
        (b : Bool)
        → same_key first.key key ≡ b
        → (get_by_key key rows ≡ some row
            → get_by_key key (update_order row.id f rows) ≡ some (f row))
        → get_by_key key (update_order row.id f (first ∷ rows)) ≡ some (f row)
    go true hit ih =
        let e : first ≡ row = ground (arith, hit, h) in
        ground (arith, hit, e, k.on_key first, ap (λ r. r.id) e)
    go false miss ih =
        let rest : get_by_key key rows ≡ some row = ground (arith, miss, h) in
        let apart = other_id first rows row t.0 (find-get key rows row t.2 rest) in
        ground (arith, miss, apart, ih rest)

pub IsTable-update :
    (id : ℕ) (f : SalesOrder → SalesOrder) (rows : List SalesOrder)
    → KeepsKey f
    → IsTable rows
    → IsTable (update_order id f rows)
unfolding update_order
IsTable-update id f [] k t = tt
IsTable-update id f (row ∷ rows) k t = elim (Bool-cases (row.id == id)) [
  | inl hit ↦ rw hit (rw (k.on_id row) t.0, rw (k.on_key row) t.1, t.2)
  | inr miss ↦ rw miss (
    rw (find-update row.id id f rows k, t.0) refl,
    get-update-none row.key id f rows k t.1,
    IsTable-update id f rows k t.2,
  )
]

find-none :
    (i : ℕ) (row : SalesOrder) (rows : List SalesOrder)
    → find_order i (row ∷ rows) ≡ none
    → ((row.id == i) ≡ false) × (find_order i rows ≡ none)
unfolding find_order
find-none i row rows h = elim (Bool-cases (row.id == i)) [
  | inl hit ↦ absurd (cc (rw hit at h))
  | inr miss ↦ (miss, rw miss at h)
]

get-none :
    (key : OrderKey) (row : SalesOrder) (rows : List SalesOrder)
    → get_by_key key (row ∷ rows) ≡ none
    → (same_key row.key key ≡ false) × (get_by_key key rows ≡ none)
unfolding get_by_key
get-none key row rows h = elim (Bool-cases (same_key row.key key)) [
  | inl hit ↦ absurd (cc (rw hit at h))
  | inr miss ↦ (miss, rw miss at h)
]

same_key-false : (a b : OrderKey) → same_key a b ≡ false → same_key b a ≡ false
same_key-false a b h = elim (Bool-cases (same_key b a)) [
  | inl e ↦ absurd (cc (same_key_sym b a e, h))
  | inr e ↦ e
]

pub IsTable-append :
    (rows : List SalesOrder) (new : SalesOrder)
    → IsTable rows
    → find_order new.id rows ≡ none
    → get_by_key new.key rows ≡ none
    → IsTable (rows ++ new ∷ [])
IsTable-append [] new t h k = (unfold find_order in refl, unfold get_by_key in refl, tt)
IsTable-append (row ∷ rows) new t h k =
    let (apart, h1) = find-none new.id row rows h in
    let (differ, k1) = get-none new.key row rows k in
    (
      find-append row.id rows new h1 ∙ ground (arith, apart, t.0),
      get-append row.key rows new t.1 ∙ ground (arith, same_key-false row.key new.key differ),
      IsTable-append rows new t.2 h1 k1,
    )

-- A change that leaves the stamps leaves what is read of them by a key.
pub stamp-update :
    (key : OrderKey) (id : ℕ) (f : SalesOrder → SalesOrder) (rows : List SalesOrder)
    → KeepsKey f
    → ((row : SalesOrder) → (f row).platform_updated_at ≡ row.platform_updated_at)
    → stored_stamp (get_by_key key (update_order id f rows)) ≡ stored_stamp (get_by_key key rows)
unfolding get_by_key update_order
stamp-update key id f [] k same = refl
stamp-update key id f (row ∷ rows) k same =
    ground (arith, k.on_key row, same row, stamp-update key id f rows k same)

pub status-update :
    (key : OrderKey) (id : ℕ) (f : SalesOrder → SalesOrder) (rows : List SalesOrder)
    → KeepsKey f
    → ((row : SalesOrder) → (f row).unified_status ≡ row.unified_status)
    → stored_status (get_by_key key (update_order id f rows)) ≡ stored_status (get_by_key key rows)
unfolding get_by_key update_order
status-update key id f [] k same = refl
status-update key id f (row ∷ rows) k same =
    ground (arith, k.on_key row, same row, status-update key id f rows k same)
