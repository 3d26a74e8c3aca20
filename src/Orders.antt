-- ===== src/Orders.antt =====
-- The order rows: the SELECT … ORDER BY … FOR UPDATE of `placeBuy` and `placeSellLocked`, `lockActiveBook`,
-- the INSERTs of orders, trades and deliveries (`addDelivery`) of src/exchange_service.cpp.
pub mod Rows
pub mod Sorting
pub mod Priority
use endstone_exchange.Common.{
  ℕ, suc, ◌-◌, String, Bool, not, ◌&&◌, ◌||◌, Option, List, [], ◌∷◌, ltb, leb, ◌==◌, if◌then◌else◌,
  str_eq,
}
use endstone_exchange.Money.{Cents}
use endstone_exchange.Table.{select, first, update, affected}
use endstone_exchange.Tx.{Tx, Error, ◌>>=◌, ◌>>◌, pure, throw_if, or_throw, gets, modify}
use endstone_exchange.Bank.{Uuid}
use endstone_exchange.Domain.{
  RowId, Side, OrderType, OrderStatus, is_buy, is_sell, is_limit, is_open,
}
use endstone_exchange.Store.{Db, Market, Order, Trade, Delivery}

abbrev pub has_id : RowId → Order → Bool
has_id i o = o.id == i

-- JOIN exchange_markets m ON m.id=o.market_id WHERE m.book_id=book
abbrev pub in_book : RowId → List Market → Order → Bool
in_book book markets o = ltb 0 (affected (λ m. m.id == o.market_id && m.book_id == book) markets)

-- What `price_filter` adds to the WHERE: a limit for a limit order.
abbrev pub crosses_ask : OrderType → Cents → Order → Bool
crosses_ask t price o = not (is_limit t) || leb o.price_cents price

abbrev pub crosses_bid : OrderType → Cents → Order → Bool
crosses_bid t price o = not (is_limit t) || leb price o.price_cents

abbrev pub is_ask : RowId → List Market → Uuid → Order → Bool
is_ask book markets p o =
    in_book book markets o
    && is_sell o.side
    && is_limit o.order_type
    && is_open o.status
    && not (str_eq o.player_uuid p)

abbrev pub is_bid : RowId → List Market → Uuid → Order → Bool
is_bid book markets p o =
    in_book book markets o
    && is_buy o.side
    && is_limit o.order_type
    && is_open o.status
    && not (str_eq o.player_uuid p)

-- ORDER BY o.price_cents ASC,o.id ASC and ORDER BY o.price_cents DESC,o.id ASC
abbrev pub ask_before : Order → Order → Bool
ask_before a b =
    ltb a.price_cents b.price_cents || (a.price_cents == b.price_cents && leb a.id b.id)

abbrev pub bid_before : Order → Order → Bool
bid_before a b =
    ltb b.price_cents a.price_cents || (a.price_cents == b.price_cents && leb a.id b.id)

insert_by : (Order → Order → Bool) → Order → List Order → List Order
insert_by before o [] = o ∷ []
insert_by before o (x ∷ xs) = if before o x then o ∷ x ∷ xs else x ∷ insert_by before o xs

pub sort_by : (Order → Order → Bool) → List Order → List Order
unfolding insert_by
sort_by before [] = []
sort_by before (o ∷ os) = insert_by before o (sort_by before os)

unfoldable pub select_asks : RowId → Uuid → OrderType → Cents → Db → List Order
unfolding select sort_by
select_asks book p t price s =
    sort_by ask_before (select (λ o. is_ask book s.markets p o && crosses_ask t price o) s.orders)

unfoldable pub select_bids : RowId → Uuid → OrderType → Cents → Db → List Order
unfolding select sort_by
select_bids book p t price s =
    sort_by bid_before (select (λ o. is_bid book s.markets p o && crosses_bid t price o) s.orders)

-- `lockActiveBook`. Nothing changes between its statements, so the book that the second read of the
-- market gives is the one of the first: the test on a changed identity is kept, and never fails.
unfoldable pub lock_active_book : RowId → Tx Db RowId
unfolding first affected
lock_active_book market_id = do
  identity ← or_throw (← gets λ s. first (λ m. m.id == market_id) s.markets) Error.market_missing
  books ← gets λ s. affected (λ b. b.id == identity.book_id) s.books
  throw_if (books == 0) Error.book_missing
  market ← or_throw (← gets λ s. first (λ m. m.id == market_id) s.markets) Error.market_not_active
  throw_if (not market.active) Error.market_not_active
  throw_if (not (market.book_id == identity.book_id)) Error.book_identity_changed
  pure identity.book_id

abbrev pub new_order : RowId → Uuid → Side → OrderType → Cents → ℕ → Cents → RowId → Order
new_order market_id p side t price quantity reserved id = record {
  id = id;
  market_id = market_id;
  player_uuid = p;
  side = side;
  order_type = t;
  price_cents = price;
  original_qty = quantity;
  remaining_qty = quantity;
  reserved_cents = reserved;
  status = OrderStatus.open_status;
}

-- INSERT INTO exchange_orders(...), with status 'OPEN'; the result is LAST_INSERT_ID().
unfoldable pub insert_order : RowId → Uuid → Side → OrderType → Cents → ℕ → Cents → Tx Db RowId
insert_order market_id p side t price quantity reserved = do
  id ← gets λ s. s.next_order
  modify λ s. record s {
    orders = new_order market_id p side t price quantity reserved s.next_order ∷ s.orders;
    next_order = suc s.next_order;
  }
  pure id

unfoldable pub insert_trade : RowId → RowId → RowId → Uuid → Uuid → Cents → ℕ → Db → Db
insert_trade market_id buy_id sell_id buyer seller price fill s = record s {
  trades =
      record {
        id = s.next_trade;
        market_id = market_id;
        buy_order_id = buy_id;
        sell_order_id = sell_id;
        buyer_uuid = buyer;
        seller_uuid = seller;
        price_cents = price;
        quantity = fill;
      }
      ∷ s.trades;
  next_trade = suc s.next_trade;
}

-- `addDelivery`: nothing for no items.
unfoldable pub add_delivery : Uuid → RowId → ℕ → String → Db → Db
add_delivery p market_id quantity reason s = record s {
  deliveries =
      if quantity == 0
      then s.deliveries
      else record {
        id = s.next_delivery;
        player_uuid = p;
        market_id = market_id;
        quantity = quantity;
        claimed_qty = 0;
        reserved_qty = 0;
        reason = reason;
      }
        ∷ s.deliveries;
  next_delivery = if quantity == 0 then s.next_delivery else suc s.next_delivery;
}

-- UPDATE exchange_orders SET ... WHERE id=i
unfoldable pub update_order : RowId → (Order → Order) → Db → Db
unfolding update
update_order i f s = record s { orders = update (has_id i) f s.orders }
