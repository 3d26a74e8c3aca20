-- ===== src/Escrows.antt =====
-- The escrows of the items that are to be sold (exchange_sell_escrows): the functions named
-- …SellEscrow… of src/exchange_service.cpp. `prepareSellEscrow` returns the row with the item of the market.
pub mod Executed
use endstone_exchange.Common.{
  false, true, ℕ, suc, ◌+◌, ◌-◌, ◌*◌, String, Bool, not, ◌&&◌, ◌||◌, Option, none, some, List, [],
  ◌∷◌, ltb, ◌==◌, if◌then◌else◌, is_empty, str_eq,
}
use endstone_exchange.Common.Int.{ℤ, pos, pos_part, ltb_ℤ, leb_ℤ}
use endstone_exchange.Money.{Cents}
use endstone_exchange.Table.{select, first, update, affected, sum_of, only}
use endstone_exchange.Tx.{
  ok, err, Tx, Error, Outcome, transaction, and_then, ◌>>=◌, ◌>>◌, pure, throw_if, or_throw, gets,
  modify,
}
use endstone_exchange.Bank.{Uuid, locked_balance}
use endstone_exchange.Domain.{
  RowId, Side, OrderType, OrderRequest, ItemPrototype, ExecutionResult, SellEscrowStatus, is_sell,
  is_limit, escrow_is_prepared, escrow_is_tagged, escrow_is_ordered, escrow_is_canceled,
}
use endstone_exchange.Store.{Db, Order, SellEscrow, on_bank}
use endstone_exchange.Orders.{has_id, add_delivery}
use endstone_exchange.Reads.{sort_on, joined, front}
use endstone_exchange.Matching.{
  Service, Request, validate_request, ensure_account, place_sell_locked, limit_price,
}

abbrev pub has_escrow : RowId → SellEscrow → Bool
has_escrow i e = e.id == i

unfoldable pub update_escrows : (SellEscrow → Bool) → (SellEscrow → SellEscrow) → Db → Db
unfolding update
update_escrows p f s = record s { escrows = update p f s.escrows }

unfoldable pub find_escrow : RowId → Db → Option SellEscrow
unfolding first
find_escrow i s = first (has_escrow i) s.escrows

abbrev pub new_escrow : Request → RowId → SellEscrow
new_escrow r i = record {
  id = i;
  market_id = r.market_id;
  player_uuid = r.player_uuid;
  player_name = r.player_name;
  order_type = r.order_type;
  price_cents = limit_price r;
  requested_qty = r.quantity;
  tagged_qty = 0;
  receipt_count = 0;
  status = SellEscrowStatus.prepared;
  order_id = none;
  cleaned = false;
}

unfoldable pub prepare_escrow_body : Request → Tx Db (SellEscrow × ItemPrototype)
unfolding first
prepare_escrow_body r = do
  market ← or_throw (← gets λ s. first (λ m. m.id == r.market_id) s.markets) Error.market_not_active
  throw_if (not market.active) Error.market_not_active
  escrow_id ← gets λ s. s.next_escrow
  modify λ s. record s {
    escrows = new_escrow r s.next_escrow ∷ s.escrows;
    next_escrow = suc s.next_escrow;
  }
  pure (new_escrow r escrow_id, market.item)

unfoldable pub prepare_sell_escrow :
    Service → OrderRequest → Db → Outcome Db (SellEscrow × ItemPrototype)
unfolding prepare_escrow_body validate_request ensure_account
prepare_sell_escrow c q s = elim (validate_request c q) [
  | err e ↦ (err e, s)
  | ok r ↦
      if not (is_sell r.side)
      then (err Error.escrow_side_not_sell, s)
      else and_then (ensure_account c r.player_uuid r.player_name)
          (λ _. transaction (prepare_escrow_body r)) s
]

abbrev pub tagged_row : ℕ → ℕ → SellEscrow → SellEscrow
tagged_row tagged receipts e = record e {
  tagged_qty = tagged;
  receipt_count = receipts;
  status = SellEscrowStatus.tagged;
}

abbrev pub tagged_alike : ℕ → ℕ → SellEscrow → Bool
tagged_alike tagged receipts e =
    escrow_is_tagged e.status && e.tagged_qty == tagged && e.receipt_count == receipts

unfoldable pub tag_body : RowId → ℕ → ℕ → Tx Db (Unit {0})
unfolding update_escrows find_escrow
tag_body i tagged receipts = do
  e ← or_throw (← gets (find_escrow i)) Error.escrow_missing
  throw_if (ltb tagged e.requested_qty) Error.tagged_less_than_order
  if tagged_alike tagged receipts e then pure tt else (do
    throw_if (not (escrow_is_prepared e.status)) Error.escrow_not_waiting_for_tags
    modify (update_escrows (has_escrow i) (tagged_row tagged receipts)))

unfoldable pub mark_sell_escrow_tagged : RowId → ℤ → ℤ → Db → Outcome Db (Unit {0})
unfolding tag_body
mark_sell_escrow_tagged i tagged receipts s =
    if leb_ℤ tagged (pos 0) || leb_ℤ receipts (pos 0)
    then (err Error.tagged_quantities_not_positive, s)
    else transaction (tag_body i (pos_part tagged) (pos_part receipts)) s

-- SUM(t.quantity) and SUM(t.price_cents*t.quantity) of the trades of a sell order
unfoldable pub sold_quantity : RowId → Db → ℕ
unfolding sum_of
sold_quantity order_id s =
    sum_of (only (λ t. t.sell_order_id == order_id) (λ t. t.quantity)) s.trades

unfoldable pub sold_gross : RowId → Db → Cents
unfolding sum_of
sold_gross order_id s =
    sum_of (only (λ t. t.sell_order_id == order_id) (λ t. t.price_cents * t.quantity)) s.trades

-- `executeSellEscrow` for an escrow that has its order: the result is read again. The code dereferences the
-- order_id without a test; a row that were ORDERED without one stands here as a missing order.
unfoldable pub ordered_result : SellEscrow → Tx Db ExecutionResult
unfolding first sold_quantity sold_gross
ordered_result e = do
  order_id ← or_throw e.order_id Error.escrow_order_missing
  order ← or_throw (← gets λ s. first (has_id order_id) s.orders) Error.escrow_order_missing
  filled ← gets (sold_quantity order_id)
  gross ← gets (sold_gross order_id)
  balance ← on_bank (locked_balance e.player_uuid)
  pure record {
    order_id = order_id;
    requested_quantity = order.original_qty;
    filled_quantity = filled;
    open_quantity = order.remaining_qty;
    gross_cents = gross;
    balance_cents = balance;
  }

abbrev pub escrow_request : SellEscrow → Request
escrow_request e = record {
  market_id = e.market_id;
  player_uuid = e.player_uuid;
  player_name = e.player_name;
  side = Side.sell;
  order_type = e.order_type;
  price_cents = e.price_cents;
  quantity = e.requested_qty;
}

abbrev pub ordered_row : RowId → SellEscrow → SellEscrow
ordered_row order_id e = record e { status = SellEscrowStatus.ordered; order_id = some order_id }

-- `executeSellEscrow` for a tagged escrow: the order is placed, and items that were tagged beyond it go
-- back. (`addDelivery` does nothing for 0.)
unfoldable pub sell_tagged : SellEscrow → Tx Db ExecutionResult
unfolding place_sell_locked update_escrows
sell_tagged e = do
  result ← place_sell_locked (escrow_request e)
  modify (add_delivery e.player_uuid e.market_id (e.tagged_qty - e.requested_qty) "ESCROW_EXCESS")
  modify (update_escrows (has_escrow e.id) (ordered_row result.order_id))
  pure result

unfoldable pub execute_body : RowId → Tx Db ExecutionResult
unfolding ordered_result sell_tagged find_escrow
execute_body i = do
  e ← or_throw (← gets (find_escrow i)) Error.escrow_missing
  if escrow_is_ordered e.status
      then ordered_result e
      else (do throw_if (not (escrow_is_tagged e.status)) Error.escrow_not_ready; sell_tagged e)

unfoldable pub execute_sell_escrow : RowId → Db → Outcome Db ExecutionResult
unfolding execute_body
execute_sell_escrow i = transaction (execute_body i)

abbrev pub canceled_row : SellEscrow → SellEscrow
canceled_row e = record e { status = SellEscrowStatus.canceled; cleaned = true }

unfoldable pub cancel_escrow_body : RowId → Tx Db (Unit {0})
unfolding update_escrows find_escrow
cancel_escrow_body i = do
  e ← or_throw (← gets (find_escrow i)) Error.escrow_missing
  if escrow_is_canceled e.status then pure tt else (do
    throw_if (not (escrow_is_prepared e.status)) Error.escrow_not_prepared
    modify (update_escrows (has_escrow i) canceled_row))

unfoldable pub cancel_sell_escrow : RowId → Db → Outcome Db (Unit {0})
unfolding cancel_escrow_body
cancel_sell_escrow i = transaction (cancel_escrow_body i)

abbrev pub is_ordered_escrow : RowId → SellEscrow → Bool
is_ordered_escrow i e = e.id == i && escrow_is_ordered e.status

-- `markSellEscrowCleaned`: one statement of its own.
unfoldable pub mark_sell_escrow_cleaned : RowId → Db → Outcome Db (Unit {0})
unfolding update_escrows affected
mark_sell_escrow_cleaned i s =
    let s' = update_escrows (is_ordered_escrow i) (λ e. record e { cleaned = true }) s in
    if affected (is_ordered_escrow i) s.escrows == 1
    then (ok tt, s')
    else (err Error.ordered_escrow_missing, s')

abbrev pub escrow_unfinished : Uuid → SellEscrow → Bool
escrow_unfinished p e = str_eq e.player_uuid p && not (escrow_is_canceled e.status) && not e.cleaned

unfoldable pub unfinished_sell_escrows : Uuid → Db → List (SellEscrow × ItemPrototype)
unfolding select sort_on joined
unfinished_sell_escrows p s =
    joined (λ e. e.market_id) s.markets
      (sort_on (λ e. e.id) (select (escrow_unfinished p) s.escrows))

unfoldable pub find_sell_escrow : RowId → Uuid → Db → Option (SellEscrow × ItemPrototype)
unfolding select joined
find_sell_escrow i p s = front (
    joined (λ e. e.market_id) s.markets
      (select (λ e. has_escrow i e && str_eq e.player_uuid p) s.escrows))
