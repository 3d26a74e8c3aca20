-- ===== src/Matching/Buy.antt =====
-- The loop of `placeBuy` of src/exchange_service.cpp, with its invariant.
use endstone_exchange.Common.{sym, ℕ, ◌+◌, ◌-◌, ◌≤◌, ◌≡◌, refl, true, List, [], ◌∷◌, arith, All}
use endstone_exchange.Money.{Cents}
use endstone_exchange.Table.{update, sum_of}
use endstone_exchange.Bank.{Bank}
use endstone_exchange.Bank.Ledger.{IsReconciled}
use endstone_exchange.Domain.{RowId, is_sell, is_limit}
use endstone_exchange.Store.{Db, Order}
use endstone_exchange.Orders.{has_id, insert_trade, add_delivery}
use endstone_exchange.Orders.Rows.{
  rows-update_order, All-update_order, IsRow, update-IdsBelow, sum_of-update_order,
  IsRow-update_other,
}
use endstone_exchange.Matching.{match_loop, Request, Progress, buy_ask, limit_price, taken}
use endstone_exchange.Matching.Loop.{
  match_loop-Ensures, times_rest, BuyFill, advanced, settled_ask, buy_ask-Ensures,
}
use endstone_exchange.Matching.Invariant.{
  delivered-add_delivery, IsOrder, IsConsistent, IsCounter, Running, reserved_cell, offered_cell,
  reserved_sum,
}
use endstone_exchange.Tx.{Ensures}

module _ (r : Request) (own ask : Order) (fill : ℕ) (b' : Bank) (s : Db) where
  after_ask : List Order
  after_ask = update (has_id ask.id) (taken (ask.remaining_qty - fill)) s.orders

  ask_reserves :
      IsConsistent s → IsRow s.orders ask → sum_of reserved_cell after_ask ≡ reserved_sum s
  unfolding after_ask
  ask_reserves c row = omega (
    arith,
    sum_of-update_order reserved_cell (taken (ask.remaining_qty - fill)) s.next_order s.orders ask
        c.ids row,
  )

  ask_goods :
      IsConsistent s
      → IsRow s.orders ask
      → is_sell ask.side ≡ true
      → fill ≤ ask.remaining_qty
      → sum_of offered_cell after_ask + fill ≡ sum_of offered_cell s.orders
  unfolding after_ask
  ask_goods c row sells le = ground (
    arith,
    sum_of-update_order offered_cell (taken (ask.remaining_qty - fill)) s.next_order s.orders ask
        c.ids row,
  )

  taken-IsOrder :
      IsOrder ask
      → is_sell ask.side ≡ true
      → fill ≤ ask.remaining_qty
      → IsOrder (taken (ask.remaining_qty - fill) ask)
  taken-IsOrder k sells le = record {
    reserved = ground arith;
    opened = λ lim. ground arith;
    left = omega arith;
    closed = λ e. ground arith;
  }

  -- A sell order that is filled in part or in whole keeps the table well formed.
  after_ask-IsConsistent :
      (order_id : RowId)
      → IsConsistent s
      → IsRow s.orders ask
      → IsCounter r true ask
      → fill ≤ ask.remaining_qty
      → (IsReconciled s.bank → IsReconciled b')
      → IsConsistent (settled_ask r order_id ask fill b' s)
  unfolding insert_trade add_delivery
  after_ask-IsConsistent order_id c row k le keep = record {
    reconciled = keep c.reconciled;
    ids = update-IdsBelow (has_id ask.id) _ s.next_order s.orders (λ x. refl) c.ids;
    orders =
        All-update_order IsOrder (taken (ask.remaining_qty - fill)) s.next_order s.orders ask c.ids
          row (taken-IsOrder k.order k.side le) c.orders;
    trades = (λ e. k.stranger (sym e), c.trades);
  }

module _ (r : Request) (own : Order) (order_id : RowId) (cash goods : ℕ) where
  abbrev pub Buying : List Order → Progress → Db → Type 0
  Buying = Running r own true (limit_price r) 0 cash goods

  buy_step :
      (ask : Order) (os : List Order) (m : Progress) (s : Db) (fill : ℕ) (available : Cents)
      (b' : Bank)
      → Buying (ask ∷ os) m s
      → BuyFill r ask m s.bank b' fill
      → Buying os (advanced ask fill available m) (settled_ask r order_id ask fill b' s)
  unfolding insert_trade add_delivery after_ask
  buy_step ask os m s fill available b' i f = record {
    consistent =
        after_ask-IsConsistent r own ask fill b' s order_id i.consistent i.rows.0 i.counters.0
          f.at_most_offered f.reconciled;
    filled = omega (arith, f.at_most_left, i.filled);
    cash_kept = omega (
      arith,
      f.total,
      ask_reserves r own ask fill b' s i.consistent i.rows.0,
      times_rest (limit_price r) m.remaining fill f.at_most_left,
      i.cash_kept,
    );
    goods_kept = omega (
      arith,
      ask_goods r own ask fill b' s i.consistent i.rows.0 i.counters.0.side f.at_most_offered,
      delivered-add_delivery r.player_uuid r.market_id fill "TRADE_BUY" s,
      i.goods_kept,
    );
    own_row =
        IsRow-update_other ask.id _ s.orders own (λ x. refl) (λ e. i.distinct.0.0 (sym e))
          i.own_row;
    rows = rows-update_order _ s.orders ask os (λ x. refl) i.distinct.1.0 i.rows.1;
    distinct = (i.distinct.0.1, i.distinct.1.1);
    counters = i.counters.1;
  }

  -- The rows that are left to come do not matter at the end.
  buy_finish : (os : List Order) (m : Progress) (s : Db) → Buying os m s → Buying [] m s
  buy_finish os m s i = record {
    consistent = i.consistent;
    filled = i.filled;
    cash_kept = i.cash_kept;
    goods_kept = i.goods_kept;
    own_row = i.own_row;
    rows = tt;
    distinct = (tt, tt);
    counters = tt;
  }

  pub buy_loop-Ensures :
      (asks : List Order) (m : Progress) (s : Db)
      → (is_limit r.order_type ≡ true → All (λ a. a.price_cents ≤ r.price_cents) asks)
      → Buying asks m s
      → Ensures (Buying []) (match_loop (buy_ask r order_id) asks m s)
  buy_loop-Ensures asks m s cheap i =
      match_loop-Ensures (buy_ask r order_id) Priced (Buying [])
        (λ os m' s' p. buy_finish os m' s' p.0)
        (λ ask os m' s' p more.
          buy_ask-Ensures r order_id _ ask m' s' (λ lim. (p.1 lim).0)
            (buy_finish (ask ∷ os) m' s' p.0)
            λ fill available b' f.
              (buy_step ask os m' s' fill available b' p.0 f, λ lim. (p.1 lim).1))
        asks m s (i, cheap)
    where
      Priced : List Order → Progress → Db → Type 0
      Priced os m' s' =
          Buying os m' s'
          × (is_limit r.order_type ≡ true → All (λ a. a.price_cents ≤ r.price_cents) os)
