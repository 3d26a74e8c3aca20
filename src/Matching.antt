-- ===== src/Matching.antt =====
-- `validateRequest`, `placeOrder`, `placeBuy`, `placeSell` and `placeSellLocked` of src/exchange_service.cpp.
-- Money is carried by the model as the code moves it: `Progress` holds the local variables of the two
-- loops (a sell has no `available_balance`; it stays 0 there).
pub mod Loop
pub mod Returning
pub mod Closing
pub mod Invariant
pub mod Buy
pub mod Open
pub mod Placed
pub mod Sell
pub mod PlaceSell
pub mod PlaceOrder
pub mod Funding
use endstone_exchange.Common.{
  ℕ, ◌+◌, ◌-◌, ◌*◌, ◌/◌, String, Bool, not, ◌&&◌, ◌||◌, Option, none, some, List, [], ◌∷◌, ltb, leb,
  ◌==◌, if◌then◌else◌, is_empty,
}
use Prim.Native.Nat.{min}
use endstone_exchange.Common.Int.{ℤ, pos, ◌-ℤ◌, pos_part, ltb_ℤ, leb_ℤ}
use endstone_exchange.Money.{Cents, checked_product}
use endstone_exchange.Tx.{
  Result, ok, err, Tx, Error, Outcome, transaction, and_then, ◌>>=◌, ◌>>◌, pure, lift, throw_if,
  gets, modify,
}
use endstone_exchange.Bank.{Uuid, credit, debit, locked_balance, ensure_account_row}
use endstone_exchange.Domain.{
  RowId, Side, OrderType, OrderStatus, is_buy, is_limit, OrderRequest, ExecutionResult,
}
use endstone_exchange.Store.{Db, Order, on_bank}
use endstone_exchange.Orders.{
  lock_active_book, insert_order, insert_trade, add_delivery, update_order, select_asks,
  select_bids,
}

-- The constructor arguments of `ExchangeService`
pub record Service : Type 0 where
  pub initial_balance_cents : Cents
  pub max_order_quantity : ℕ

-- A request that `validateRequest` has let through, its numbers now known not to be negative. The
-- price of a market order is never read.
pub record Request : Type 0 where
  pub market_id : RowId
  pub player_uuid : Uuid
  pub player_name : String
  pub side : Side
  pub order_type : OrderType
  pub price_cents : Cents
  pub quantity : ℕ

abbrev pub accepted : OrderRequest → Request
accepted q = record {
  market_id = q.market_id;
  player_uuid = q.player_uuid;
  player_name = q.player_name;
  side = q.side;
  order_type = q.order_type;
  price_cents = pos_part q.price_cents;
  quantity = pos_part q.quantity;
}

unfoldable pub validate_request : Service → OrderRequest → Result Request
validate_request c q =
    if q.market_id == 0 || is_empty q.player_uuid || is_empty q.player_name
    then err Error.order_identity_incomplete
    else if leb_ℤ q.quantity (pos 0) || ltb_ℤ (pos c.max_order_quantity) q.quantity
    then err Error.quantity_out_of_range
    else if is_limit q.order_type && leb_ℤ q.price_cents (pos 0)
    then err Error.limit_price_not_positive
    else if is_limit q.order_type
    then elim (checked_product q.price_cents q.quantity) [ ok _ ↦ ok (accepted q) | err e ↦ err e ]
    else ok (accepted q)

pub record Progress : Type 0 where
  pub remaining : ℕ
  pub filled_total : ℕ
  pub gross : Cents
  pub available : Cents

-- for (row : rows) { if (remaining == 0) break; ... }: `none` from the body is its `break`.
abbrev pub goes_on : Option Progress → Progress → (Progress → Tx Db Progress) → Tx Db Progress
goes_on none m k = pure m
goes_on (some m') m k = k m'

unfoldable pub match_loop :
    (Order → Progress → Tx Db (Option Progress)) → List Order → Progress → Tx Db Progress
match_loop body [] m = pure m
match_loop body (o ∷ os) m =
    if m.remaining == 0 then pure m else (body o m >>= λ r. goes_on r m (match_loop body os))

abbrev status_after : ℕ → OrderStatus
status_after after = if after == 0 then OrderStatus.filled else OrderStatus.partial

-- `orderStatus`
unfoldable pub order_status : ℕ → ℕ → OrderStatus
order_status remaining filled =
    if remaining == 0
    then OrderStatus.filled
    else if ltb 0 filled
    then OrderStatus.partial
    else OrderStatus.open_status

-- The status of the submitted order at the end
unfoldable pub final_status : OrderType → ℕ → ℕ → ℕ → OrderStatus
unfolding order_status
final_status OrderType.market quantity remaining filled =
    if filled == quantity
    then OrderStatus.filled
    else if ltb 0 filled
    then OrderStatus.partial
    else OrderStatus.canceled
final_status OrderType.limit quantity remaining filled = order_status remaining filled

abbrev pub taken : ℕ → Order → Order
taken after o = record o { remaining_qty = after; status = status_after after }

abbrev pub taken_reserved : ℕ → Cents → Order → Order
taken_reserved after reserved o = record o {
  remaining_qty = after;
  reserved_cents = reserved;
  status = status_after after;
}

module _ (r : Request) (order_id : RowId) where
  -- The part of an iteration of `placeBuy` behind the payment: the ask, its seller, the delivery, the trade.
  pub settle_ask : Order → ℕ → Progress → Tx Db (Option Progress)
  settle_ask ask fill m = do
    let after = ask.remaining_qty - fill
    modify (update_order ask.id (taken after))
    cost ← lift (checked_product (pos ask.price_cents) (pos fill))
    on_bank (credit ask.player_uuid cost "TRADE_PROCEEDS" "ORDER" (some ask.id))
    modify (add_delivery r.player_uuid r.market_id fill "TRADE_BUY")
    modify (
        insert_trade r.market_id order_id ask.id r.player_uuid ask.player_uuid ask.price_cents fill)
    pure (
        some (record m {
          remaining = m.remaining - fill;
          filled_total = m.filled_total + fill;
          gross = m.gross + cost;
        }))

  -- A market buy pays from the balance, as far as it reaches.
  market_ask : Order → Progress → Tx Db (Option Progress)
  unfolding settle_ask
  market_ask ask m =
      let fill = min (min m.remaining ask.remaining_qty) (m.available / ask.price_cents) in
      if fill == 0 then pure none else (do
        cost ← lift (checked_product (pos ask.price_cents) (pos fill))
        on_bank (debit r.player_uuid cost "MARKET_BUY_TRADE" "ORDER" (some order_id))
        settle_ask ask fill (record m { available = m.available - cost }))

  -- A limit buy has paid in advance, and gets back what the ask is cheaper. `credit` does nothing for 0,
  -- as the test `refund > 0` has it.
  limit_ask : Order → Progress → Tx Db (Option Progress)
  unfolding settle_ask
  limit_ask ask m = do
    let fill = min m.remaining ask.remaining_qty
    refund ← lift (checked_product (pos r.price_cents -ℤ pos ask.price_cents) (pos fill))
    on_bank (credit r.player_uuid refund "PRICE_IMPROVEMENT_REFUND" "ORDER" (some order_id))
    settle_ask ask fill (record m { available = m.available + refund })

  unfoldable pub buy_ask : Order → Progress → Tx Db (Option Progress)
  unfolding market_ask limit_ask
  buy_ask ask m = if is_limit r.order_type then limit_ask ask m else market_ask ask m

  -- An iteration of `placeSellLocked`
  unfoldable pub sell_bid : Order → Progress → Tx Db (Option Progress)
  sell_bid bid m = do
    let fill = min m.remaining bid.remaining_qty
    let after = bid.remaining_qty - fill
    spent ← lift (checked_product (pos bid.price_cents) (pos fill))
    throw_if (ltb bid.reserved_cents spent) Error.reserve_invariant_failed
    modify (update_order bid.id (taken_reserved after (bid.reserved_cents - spent)))
    proceeds ← lift (checked_product (pos bid.price_cents) (pos fill))
    on_bank (credit r.player_uuid proceeds "TRADE_PROCEEDS" "ORDER" (some order_id))
    modify (add_delivery bid.player_uuid r.market_id fill "TRADE_BUY")
    modify (
        insert_trade r.market_id bid.id order_id bid.player_uuid r.player_uuid bid.price_cents fill)
    pure (
        some (record m {
          remaining = m.remaining - fill;
          filled_total = m.filled_total + fill;
          gross = m.gross + proceeds;
        }))

abbrev pub limit_price : Request → Cents
limit_price r = if is_limit r.order_type then r.price_cents else 0

-- The product is taken for a limit order only.
abbrev pub product_if_limit : OrderType → Cents → ℕ → Result Cents
product_if_limit OrderType.limit price n = checked_product (pos price) (pos n)
product_if_limit OrderType.market price n = ok 0

abbrev pub kept_open : Request → Progress → ℕ
kept_open r m = if is_limit r.order_type then m.remaining else 0

abbrev pub report : Request → RowId → Progress → Cents → ExecutionResult
report r order_id m balance = record {
  order_id = order_id;
  requested_quantity = r.quantity;
  filled_quantity = m.filled_total;
  open_quantity = kept_open r m;
  gross_cents = m.gross;
  balance_cents = balance;
}

abbrev pub start : Request → Cents → Progress
start r available = record {
  remaining = r.quantity;
  filled_total = 0;
  gross = 0;
  available = available;
}

abbrev pub bought : Request → Progress → Cents → Order → Order
bought r m reserved o = record o {
  remaining_qty = kept_open r m;
  reserved_cents = reserved;
  status = final_status r.order_type r.quantity m.remaining m.filled_total;
}

abbrev pub sold : Request → Progress → Order → Order
sold r m o = record o {
  remaining_qty = kept_open r m;
  status = final_status r.order_type r.quantity m.remaining m.filled_total;
}

-- `placeBuy`, up to the INSERT of the order and the reserve
unfoldable pub open_buy : Request → Tx Db (RowId × Cents)
open_buy r = do
  available ← on_bank (locked_balance r.player_uuid)
  reserved ← lift (product_if_limit r.order_type r.price_cents r.quantity)
  throw_if (ltb available reserved) Error.insufficient_balance
  order_id ←
      insert_order r.market_id r.player_uuid Side.buy r.order_type (limit_price r) r.quantity
        reserved
  on_bank (debit r.player_uuid reserved "BUY_ORDER_RESERVE" "ORDER" (some order_id))
  pure (order_id, available - reserved)

unfoldable pub close_buy : Request → RowId → Progress → Tx Db ExecutionResult
unfolding final_status
close_buy r order_id m = do
  reserved ← lift (product_if_limit r.order_type r.price_cents m.remaining)
  modify (update_order order_id (bought r m reserved))
  balance ← on_bank (locked_balance r.player_uuid)
  pure (report r order_id m balance)

unfoldable pub place_buy : Request → Tx Db ExecutionResult
unfolding open_buy close_buy
place_buy r = do
  book ← lock_active_book r.market_id
  (order_id, available) ← open_buy r
  asks ← gets (select_asks book r.player_uuid r.order_type r.price_cents)
  m ← match_loop (buy_ask r order_id) asks (start r available)
  close_buy r order_id m

-- What a market sell could not sell goes back to the seller; for a limit order there is nothing to send.
abbrev pub returned : Request → Progress → Db → Db
returned r m s =
    add_delivery r.player_uuid r.market_id (if is_limit r.order_type then 0 else m.remaining)
      "MARKET_REMAINDER" s

unfoldable pub close_sell : Request → RowId → Progress → Tx Db ExecutionResult
unfolding final_status
close_sell r order_id m = do
  modify (returned r m)
  modify (update_order order_id (sold r m))
  balance ← on_bank (locked_balance r.player_uuid)
  pure (report r order_id m balance)

unfoldable pub place_sell_locked : Request → Tx Db ExecutionResult
unfolding close_sell
place_sell_locked r = do
  book ← lock_active_book r.market_id
  _ ← on_bank (locked_balance r.player_uuid)
  order_id ←
      insert_order r.market_id r.player_uuid Side.sell r.order_type (limit_price r) r.quantity 0
  bids ← gets (select_bids book r.player_uuid r.order_type r.price_cents)
  m ← match_loop (sell_bid r order_id) bids (start r 0)
  close_sell r order_id m

module _ (c : Service) where
  -- `ensureAccount`
  unfoldable pub ensure_account : Uuid → String → Db → Outcome Db (Unit {0})
  ensure_account p name s =
      if is_empty p
      then (err Error.player_uuid_empty, s)
      else transaction (on_bank (ensure_account_row p name c.initial_balance_cents)) s

  placed : Request → Db → Outcome Db ExecutionResult
  placed r s =
      if is_buy r.side then transaction (place_buy r) s else transaction (place_sell_locked r) s

  unfoldable pub place_order : OrderRequest → Db → Outcome Db ExecutionResult
  unfolding placed ensure_account
  place_order q s = elim (validate_request c q) [
    | ok r ↦ and_then (ensure_account r.player_uuid r.player_name) (λ _. placed r) s
    | err e ↦ (err e, s)
  ]
