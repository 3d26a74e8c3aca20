-- ===== src/Matching/Sell.antt =====
-- The loop of `placeSellLocked` of src/exchange_service.cpp, with its invariant.
use endstone_exchange.Matching.Loop.{
  sell_bid-Ensures, advanced, settled_bid, times_rest, match_loop-Ensures,
}
use endstone_exchange.Bank.Ledger.{Moves, IsReconciled}
use Prim.Native.Nat.{min}
use endstone_exchange.Orders.Rows.{
  rows-update_order, All-update_order, IsRow-update_other, update-IdsBelow, sum_of-update_order,
  IsRow,
}
use endstone_exchange.Table.{sum_of, update}
use endstone_exchange.Matching.Invariant.{
  reserved_sum, delivered-add_delivery, reserved_cell, offered_cell, IsCounter, Running, IsOrder,
  IsConsistent,
}
use endstone_exchange.Orders.{has_id, add_delivery, insert_trade}
use endstone_exchange.Bank.{Bank}
use endstone_exchange.Domain.{is_sell, RowId}
use endstone_exchange.Store.{Db, Order}
use endstone_exchange.Matching.{sell_bid, match_loop, taken_reserved, Progress, Request}
use endstone_exchange.Common.{sym, ◌+◌, arith, ◌≤◌, ◌*◌, ◌≡◌, ◌-◌, ◌∷◌, [], List, ℕ, refl, false}
use endstone_exchange.Tx.{Ensures}

module _ (r : Request) (bid : Order) (fill : ℕ) (b' : Bank) (s : Db) where
  filled_bid : Order → Order
  filled_bid =
      taken_reserved (bid.remaining_qty - fill) (bid.reserved_cents - bid.price_cents * fill)

  after_bid : List Order
  after_bid = update (has_id bid.id) filled_bid s.orders

  bid_reserves :
      IsConsistent s
      → IsRow s.orders bid
      → bid.price_cents * fill ≤ bid.reserved_cents
      → sum_of reserved_cell after_bid + bid.price_cents * fill ≡ reserved_sum s
  unfolding after_bid filled_bid
  bid_reserves c row le =
      omega
        (arith, sum_of-update_order reserved_cell filled_bid s.next_order s.orders bid c.ids row)

  bid_goods :
      IsConsistent s
      → IsRow s.orders bid
      → is_sell bid.side ≡ false
      → sum_of offered_cell after_bid ≡ sum_of offered_cell s.orders
  unfolding after_bid filled_bid
  bid_goods c row buys =
      ground
        (arith, sum_of-update_order offered_cell filled_bid s.next_order s.orders bid c.ids row)

  filled_bid-IsOrder :
      IsOrder bid → is_sell bid.side ≡ false → fill ≤ bid.remaining_qty → IsOrder (filled_bid bid)
  unfolding filled_bid
  filled_bid-IsOrder k buys le = record {
    reserved = ground (arith, times_rest bid.price_cents bid.remaining_qty fill le);
    opened = λ lim. ground arith;
    left = omega arith;
    closed = λ e. ground arith;
  }

  -- A buy order that is filled in part or in whole keeps the table well formed.
  after_bid-IsConsistent :
      (order_id : RowId)
      → IsConsistent s
      → IsRow s.orders bid
      → IsCounter r false bid
      → fill ≤ bid.remaining_qty
      → (IsReconciled s.bank → IsReconciled b')
      → IsConsistent (settled_bid r order_id bid fill b' s)
  unfolding insert_trade add_delivery filled_bid
  after_bid-IsConsistent order_id c row k le keep = record {
    reconciled = keep c.reconciled;
    ids = update-IdsBelow (has_id bid.id) filled_bid s.next_order s.orders (λ x. refl) c.ids;
    orders =
        All-update_order IsOrder filled_bid s.next_order s.orders bid c.ids row
          (filled_bid-IsOrder k.order k.side le) c.orders;
    trades = (k.stranger, c.trades);
  }

module _ (r : Request) (own : Order) (order_id : RowId) (cash goods : ℕ) where
  abbrev pub Selling : List Order → Progress → Db → Type 0
  Selling = Running r own false 0 1 cash goods

  sell_step :
      (bid : Order) (os : List Order) (m : Progress) (s : Db) (fill : ℕ) (b' : Bank)
      → Selling (bid ∷ os) m s
      → fill ≡ min m.remaining bid.remaining_qty
      → bid.price_cents * fill ≤ bid.reserved_cents
      → Moves r.player_uuid (bid.price_cents * fill) 0 s.bank b'
      → Selling os (advanced bid fill m.available m) (settled_bid r order_id bid fill b' s)
  unfolding insert_trade add_delivery after_bid filled_bid
  sell_step bid os m s fill b' i least paid moved = record {
    consistent =
        after_bid-IsConsistent r bid fill b' s order_id i.consistent i.rows.0 i.counters.0
          (omega arith) moved.reconciled;
    filled = omega (arith, i.filled);
    cash_kept =
        omega (
          arith,
          moved.total,
          bid_reserves r bid fill b' s i.consistent i.rows.0 paid,
          i.cash_kept,
        );
    goods_kept = omega (
      arith,
      bid_goods r bid fill b' s i.consistent i.rows.0 i.counters.0.side,
      delivered-add_delivery bid.player_uuid r.market_id fill "TRADE_BUY" s,
      i.goods_kept,
    );
    own_row =
        IsRow-update_other bid.id _ s.orders own (λ x. refl) (λ e. i.distinct.0.0 (sym e))
          i.own_row;
    rows = rows-update_order _ s.orders bid os (λ x. refl) i.distinct.1.0 i.rows.1;
    distinct = (i.distinct.0.1, i.distinct.1.1);
    counters = i.counters.1;
  }

  sell_finish : (os : List Order) (m : Progress) (s : Db) → Selling os m s → Selling [] m s
  sell_finish os m s i = record {
    consistent = i.consistent;
    filled = i.filled;
    cash_kept = i.cash_kept;
    goods_kept = i.goods_kept;
    own_row = i.own_row;
    rows = tt;
    distinct = (tt, tt);
    counters = tt;
  }

  pub sell_loop-Ensures :
      (bids : List Order) (m : Progress) (s : Db)
      → Selling bids m s
      → Ensures (Selling []) (match_loop (sell_bid r order_id) bids m s)
  sell_loop-Ensures bids m s i =
      match_loop-Ensures (sell_bid r order_id) Selling (Selling []) sell_finish
        (λ bid os m' s' j more.
          sell_bid-Ensures r order_id _ bid m' s'
            λ fill b' least paid moved. sell_step bid os m' s' fill b' j least paid moved)
        bids m s i
