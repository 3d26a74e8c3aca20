-- ===== src/Cancel.antt =====
-- `cancelOrder` and `retireMarket` of src/exchange_service.cpp.
pub mod Released
pub mod Success
use endstone_exchange.Orders.{has_id, update_order, add_delivery}
use endstone_exchange.Bank.{credit, Uuid}
use endstone_exchange.Store.{on_bank, Db, TargetBinding, Order}
use endstone_exchange.Table.{select, first, delete, affected, update}
use endstone_exchange.Domain.{is_buy, is_open, is_limit, OrderStatus, RowId}
use endstone_exchange.Common.{
  ◌||◌, not, ◌==◌, if◌then◌else◌, List, ℕ, ◌&&◌, str_eq, Bool, String, true, false, none, some, [],
  ◌∷◌, ◌==◌,
}
use endstone_exchange.Tx.{
  throw_if, gets, or_throw, ◌>>=◌, ◌>>◌, modify, ◌>>◌, pure, transaction, Outcome, Tx, Error,
}

-- The row of an order that is canceled
abbrev pub released : Order → Order
released o = record o { remaining_qty = 0; reserved_cents = 0; status = OrderStatus.canceled }

-- A buy order gets its reserve back, a sell order the items that are left. (`credit` and `addDelivery`
-- do nothing for 0.) Then the order is closed.
unfoldable pub release_order : String → String → Order → Tx Db (Unit {0})
release_order refund_reason delivery_reason o = do
  if is_buy o.side
      then on_bank (credit o.player_uuid o.reserved_cents refund_reason "ORDER" (some o.id))
      else modify (add_delivery o.player_uuid o.market_id o.remaining_qty delivery_reason)
  modify (update_order o.id released)

cancel_body : RowId → Uuid → Bool → Tx Db (Unit {0})
unfolding release_order
cancel_body order_id player_uuid administrator = do
  o ← or_throw (← gets λ s. first (has_id order_id) s.orders) Error.order_missing
  throw_if (not administrator && not (str_eq o.player_uuid player_uuid))
      Error.order_of_another_player
  throw_if (not (is_limit o.order_type) || not (is_open o.status)) Error.order_not_open
  release_order "ORDER_CANCEL_REFUND" "ORDER_CANCELED" o

unfoldable pub cancel_order : RowId → Uuid → Bool → Db → Outcome Db (Unit {0})
unfolding cancel_body
cancel_order order_id player_uuid administrator =
    transaction (cancel_body order_id player_uuid administrator)

pub for_each : (Order → Tx Db (Unit {0})) → List Order → Tx Db (Unit {0})
for_each body [] = pure tt
for_each body (o ∷ os) = body o >> for_each body os

abbrev of_market : RowId → Order → Bool
of_market market_id o = o.market_id == market_id && is_limit o.order_type && is_open o.status

abbrev binds : String → RowId → TargetBinding → Bool
binds key market_id b = str_eq b.target_key key && b.market_id == market_id

-- DELETE FROM exchange_target_bindings WHERE target_key=... AND market_id=..., and its affected rows
unfoldable pub unbind : String → RowId → Tx Db ℕ
unfolding affected delete
unbind key market_id = do
  rows ← gets λ s. affected (binds key market_id) s.bindings
  modify λ s. record s { bindings = delete (binds key market_id) s.bindings }
  pure rows

unfoldable pub set_market : RowId → Bool → Bool → Db → Db
unfolding update
set_market market_id active reopenable s = record s {
  markets =
      update (λ m. m.id == market_id) (λ m. record m { active = active; reopenable = reopenable })
        s.markets;
}

retire_body : RowId → Tx Db (Unit {0})
unfolding for_each release_order unbind set_market
retire_body market_id = do
  identity ← or_throw (← gets λ s. first (λ m. m.id == market_id) s.markets) Error.market_missing
  books ← gets λ s. affected (λ b. b.id == identity.book_id) s.books
  throw_if (books == 0) Error.book_missing
  market ← or_throw (← gets λ s. first (λ m. m.id == market_id) s.markets) Error.market_missing
  throw_if (not (market.book_id == identity.book_id)) Error.book_identity_changed
  orders ← gets λ s. select (of_market market_id) s.orders
  for_each (release_order "MARKET_CLOSE_REFUND" "MARKET_CLOSED") orders
  rows ← unbind market.target_key market_id
  throw_if (market.active && not (rows == 1)) Error.binding_missing
  modify (set_market market_id false false)

unfoldable pub retire_market : RowId → Db → Outcome Db (Unit {0})
unfolding retire_body
retire_market market_id = transaction (retire_body market_id)
