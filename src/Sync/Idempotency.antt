-- ===== src/Sync/Idempotency.antt =====
-- Which order reports are new: backend/app/sync_engine/idempotency.py. Times are microseconds since an
-- epoch, as `_as_utc` leaves them.
use cross_pilot.Sales.Tables.{OrderKey}
use cross_pilot.Prelude.Text.{String, str_eq}
use cross_pilot.Prelude.Int.{ℤ, ltb_ℤ}
use cross_pilot.Prelude.Result.{Result, ok, err}
use cross_pilot.Prelude.{if◌then◌else◌, ℕ, Bool, ◌||◌, Option, none, some}

pub data WriteAction : Type 0 where
  insert_it update_it skip_it : WriteAction

pub data KeyError : Type 0 where
  part_missing : KeyError

-- The text methods `strip`, `lower` and `upper` of Python, whose tables of characters are not of
-- interest here.
pub record TextMethods : Type 0 where
  pub strip : String → String
  pub lower : String → String
  pub upper : String → String

abbrev pub is_blank : String → Bool
is_blank text = str_eq text ""

-- The number of a shop is never an empty text.
unfoldable pub order_idempotency_key : TextMethods → String → ℕ → String → Result KeyError OrderKey
order_idempotency_key py platform shop_id platform_order_id =
    let platform_norm = py.lower (py.strip platform) in
    let order_id = py.strip platform_order_id in
    if is_blank platform_norm || is_blank order_id
    then err part_missing
    else ok (record { platform = platform_norm; shop_id = shop_id; platform_order_id = order_id })

unfoldable pub decide_write : Option ℤ → ℤ → WriteAction
decide_write none incoming = insert_it
decide_write (some stored) incoming = if ltb_ℤ stored incoming then update_it else skip_it
