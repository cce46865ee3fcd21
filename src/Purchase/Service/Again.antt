-- ===== src/Purchase/Service/Again.antt =====
-- A receipt that comes again.
use mathlib.Core.Path.{subst}
use cross_pilot.Prelude.Text.{String, str_eq, eq_refl}
use cross_pilot.Prelude.Result.{Result, ok, err}
use cross_pilot.Prelude.{
  Bool-cases, ℕ, ◌≡◌, refl, sym, ap, ◌∙◌, inl, inr, Bool, true, false, Option, none, some, List, [],
  ◌∷◌, ◌++◌,
}
use cross_pilot.Purchase.{Disposition}
use cross_pilot.Purchase.Tables.{
  PurchaseOrder, PurchaseReceipt, find_purchase, is_key, receipt_by_key,
}
use cross_pilot.Purchase.Service.{
  KeyTexts, clean_key, get_purchase, ReceiptLine, insert_receipt, known_receipt, receive_new,
  receive_unless, receive_purchase,
}
use cross_pilot.Ledger.Exec.{
  LedgerError, not_found, Session, Exec, pure, gets, or_raise, continue, ◌>>=◌, ◌>>◌,
}
use cross_pilot.Ledger.Exec.Runs.{run_ok}
use cross_pilot.Ledger.Orders.{is_some}

-- What holds of the session that a method returned in; nothing is said of one in which it raised.
abbrev pub AfterReturn : {A : Type 0} → (Session → Type 0) → Result LedgerError A × Session → Type 0
AfterReturn Q (ok a, s) = Q s
AfterReturn Q (err e, s) = Unit

pub record Reaches {A : Type 0} (Q : Session → Type 0) (m : Exec A) : Type 0 where
  pub at : (s : Session) → AfterReturn Q (m s)

Reaches-bind :
    {A B : Type 0} (Q : Session → Type 0) (m : Exec A) (next : A → Exec B)
    → ((a : A) → Reaches Q (next a))
    → Reaches Q (m >>= next)
unfolding ◌>>=◌
Reaches-bind {A = A} {B = B} Q m next k = record { at = λ s. go (m s) }
  where
    go : (p : Result LedgerError A × Session) → AfterReturn Q (continue p.0 next p.1)
    go (ok a, s) = (k a).at s
    go (err e, s) = tt

abbrev KeyKnown : String → Session → Type 0
KeyKnown key s = is_some (receipt_by_key key s.receipts) ≡ true

known_after :
    (key : String) (receipts : List PurchaseReceipt) (new : PurchaseReceipt)
    → new.idempotency_key ≡ some key
    → is_some (receipt_by_key key (receipts ++ new ∷ [])) ≡ true
unfolding receipt_by_key
known_after key [] new h = rw (h, eq_refl key) refl
known_after key (receipt ∷ receipts) new h =
    elim (Bool-cases (is_key key receipt.idempotency_key)) [
      | inl e ↦ rw e refl
      | inr e ↦ rw e (known_after key receipts new h)
    ]

insert_receipt-Reaches :
    (id : ℕ) (disposition : Disposition) (key : String)
    → Reaches (KeyKnown key) (insert_receipt id disposition (some key))
unfolding insert_receipt
insert_receipt-Reaches id disposition key = record { at = λ s. known_after key s.receipts _ refl }

receive_new-Reaches :
    (order_id : ℕ) (disposition : Disposition) (allow_over : Bool) (lines : List ReceiptLine)
    (key : String)
    → Reaches (KeyKnown key) (receive_new order_id disposition allow_over lines (some key))
unfolding receive_new
receive_new-Reaches order_id disposition allow_over lines key =
    search (Reaches-bind, insert_receipt-Reaches) depth 16

-- A key that `_clean_key` accepts.
pub record IsClean (py : KeyTexts) (value : String) : Type 0 where
  pub filled : str_eq (py.strip value) "" ≡ false
  pub plain : py.has_mark (py.strip value) ≡ false

clean_runs :
    (py : KeyTexts) (value : String) (s : Session)
    → IsClean py value
    → clean_key py (some value) s ≡ (ok (some (py.strip value)), s)
unfolding clean_key ◌>>=◌
clean_runs py value s h = rw (h.filled, h.plain) refl

receive_runs :
    (py : KeyTexts) (order_id : ℕ) (disposition : Disposition) (allow_over : Bool)
    (lines : List ReceiptLine) (value : String) (s : Session)
    → IsClean py value
    → receive_purchase py order_id disposition allow_over lines (some value) s
      ≡ receive_unless
          (receipt_by_key (py.strip value) s.receipts)
          order_id
          disposition
          allow_over
          lines
          (some (py.strip value))
          s
unfolding receive_purchase
receive_runs py order_id disposition allow_over lines value s h =
    run_ok (clean_key py (some value)) _ s s (some (py.strip value)) (clean_runs py value s h)
    ∙ run_ok (gets (λ t. known_receipt (some (py.strip value)) t.receipts)) _ s s _ refl

found_leaves : (id : ℕ) (s : Session) → ((get_purchase id >> pure tt) s).1 ≡ s
unfolding get_purchase ◌>>=◌
found_leaves id s = go (find_purchase id s.purchases)
  where
    go :
        (o : Option PurchaseOrder)
        → (continue (or_raise o not_found s).0 (λ _. pure tt) (or_raise o not_found s).1).1 ≡ s
    go none = refl
    go (some order) = refl

known_leaves :
    (o : Option PurchaseReceipt) (order_id : ℕ) (disposition : Disposition) (allow_over : Bool)
    (lines : List ReceiptLine) (key : Option String) (s : Session)
    → is_some o ≡ true
    → (receive_unless o order_id disposition allow_over lines key s).1 ≡ s
known_leaves (some existing) order_id disposition allow_over lines key s h =
    found_leaves existing.purchase_order_id s
known_leaves none order_id disposition allow_over lines key s h = absurd (cc h)

key_known :
    (o : Option PurchaseReceipt) (order_id : ℕ) (disposition : Disposition) (allow_over : Bool)
    (lines : List ReceiptLine) (key : String) (s s' : Session)
    → receipt_by_key key s.receipts ≡ o
    → receive_unless o order_id disposition allow_over lines (some key) s ≡ (ok tt, s')
    → KeyKnown key s'
key_known (some existing) order_id disposition allow_over lines key s s' e run =
    let same : s' ≡ s = sym (ap (λ p. p.1) run) ∙ found_leaves existing.purchase_order_id s in
    rw (same, e) refl
key_known none order_id disposition allow_over lines key s s' e run =
    subst (AfterReturn (KeyKnown key)) run
      ((receive_new-Reaches order_id disposition allow_over lines key).at s)

-- A receipt with a key that is neither blank nor refused is booked once: after it has returned, any
-- receipt with the same key, whatever else it says, leaves the session exactly as it is.
pub receive_purchase-again :
    (py : KeyTexts) (order_id order_id' : ℕ) (disposition disposition' : Disposition)
    (allow_over allow_over' : Bool) (lines lines' : List ReceiptLine) (value : String)
    (s s' : Session)
    → IsClean py value
    → receive_purchase py order_id disposition allow_over lines (some value) s ≡ (ok tt, s')
    → (receive_purchase py order_id' disposition' allow_over' lines' (some value) s').1 ≡ s'
receive_purchase-again py order_id order_id' disposition disposition' allow_over allow_over' lines
      lines' value s s' clean run =
    let known =
      key_known (receipt_by_key (py.strip value) s.receipts) order_id disposition allow_over lines
        (py.strip value) s s' refl
        (sym (receive_runs py order_id disposition allow_over lines value s clean) ∙ run) in
    ap (λ p. p.1) (receive_runs py order_id' disposition' allow_over' lines' value s' clean)
    ∙ known_leaves (receipt_by_key (py.strip value) s'.receipts) order_id' disposition' allow_over'
        lines' (some (py.strip value)) s' known
