-- ===== src/Matching/Closing.antt =====
-- `placeBuy` of src/exchange_service.cpp around its loop: the statements before and behind it.
use endstone_exchange.Matching.Buy.{Buying}
use endstone_exchange.Orders.Sorting.{sort_by-Distinct, sort_by-All}
use endstone_exchange.Bank.Ledger.{total_balance, Moves}
use endstone_exchange.Matching.Open.{own_buy, with_own}
use endstone_exchange.Bank.{Bank}
use text.Mathlib.TextEquality.{eq_iff}
use endstone_exchange.Table.{update, select-All, All-select, sum_of, first}
use endstone_exchange.Matching.Invariant.{
  reserved_cell, offered_cell, Running, items, money, IsConsistent, IsCounter, IsOrder,
}
use endstone_exchange.Orders.{ask_before, select_asks, has_id, crosses_ask, is_ask}
use endstone_exchange.Orders.Rows.{
  rows_differ, sum_of-update_order, All-update_order, update-IdsBelow, select-Distinct, both-All,
  All-IsRow, Distinct, IdsBelow, IsRow,
}
use endstone_exchange.Store.{Db, Market, Order}
use endstone_exchange.Domain.{OrderType, is_buy, is_open, Side, is_limit, RowId}
use endstone_exchange.Matching.{bought, final_status, Progress, start, limit_price, Request}
use endstone_exchange.Common.{
  ltb, if◌then◌else◌, [], ℕ, All-map, ◌+◌, ◌∷◌, ◌*◌, ◌<◌, All, Bool, ◌∙◌, str_eq, ◌≤◌, arith, ◌≢◌,
  ◌&&◌, ◌≡◌, List, refl, true, false,
}

-- The rows that the SELECT of `placeBuy` hands to the loop: sell orders of others that stand in the table.
ask_facts :
    (r : Request) (book : RowId) (markets : List Market) (o : Order)
    → IsOrder o
    → (is_ask book markets r.player_uuid o && crosses_ask r.order_type r.price_cents o) ≡ true
    → IsCounter r true o
ask_facts r book markets o k h = record {
  side = ground arith;
  limit = ground arith;
  stranger = λ e.
      let same : str_eq o.player_uuid r.player_uuid ≡ true =
        (eq_iff o.player_uuid r.player_uuid).1 e in
      ground arith;
  order = k;
}

ask_price :
    (r : Request) (book : RowId) (markets : List Market) (o : Order)
    → (is_ask book markets r.player_uuid o && crosses_ask r.order_type r.price_cents o) ≡ true
    → is_limit r.order_type ≡ true
    → o.price_cents ≤ r.price_cents
ask_price r book markets o h lim = ground arith

-- What `placeBuy` finds for its loop.
module _ (r : Request) (book : RowId) (s : Db) (b' : Bank) (some_items : 0 < r.quantity)
    (c : IsConsistent s)
    (moved : Moves r.player_uuid 0 (limit_price r * r.quantity) s.bank b') where
  unfoldable pub own : Order
  own = own_buy r s.next_order

  unfoldable pub s₁ : Db
  s₁ = with_own r own b' s

  unfoldable pub asks : List Order
  asks = select_asks book r.player_uuid r.order_type r.price_cents s₁

  chosen : Order → Bool
  chosen o = is_ask book s.markets r.player_uuid o && crosses_ask r.order_type r.price_cents o

  opened_orders : All IsOrder s₁.orders
  unfolding s₁ own
  opened_orders = (
    record { reserved = refl; opened = λ lim. ground arith; left = omega arith; closed = λ e. cc },
    c.orders,
  )

  opened_ids : IdsBelow s₁.next_order s₁.orders
  unfolding s₁ own
  opened_ids = (omega arith, c.ids)

  own-IsRow : IsRow s₁.orders own
  unfolding s₁ own first
  own-IsRow = ground arith

  pub chosen_facts :
      All (IsCounter r true) asks
      × (is_limit r.order_type ≡ true → All (λ a. a.price_cents ≤ r.price_cents) asks)
  unfolding asks select_asks s₁ chosen
  chosen_facts = (
    sort_by-All ask_before (IsCounter r true) _ (
        both-All IsOrder (λ o. chosen o ≡ true) (IsCounter r true) _
          (λ o k h. ask_facts r book s.markets o k h)
          (All-select IsOrder chosen s₁.orders opened_orders) (select-All chosen s₁.orders)),
    λ lim.
        sort_by-All ask_before (λ a. a.price_cents ≤ r.price_cents) _
          (All-map (λ o. chosen o ≡ true) (λ a. a.price_cents ≤ r.price_cents) _
            (λ o h. ask_price r book s.markets o h lim) (select-All chosen s₁.orders)),
  )

  asks_rows : All (IsRow s₁.orders) asks
  unfolding asks select_asks s₁ chosen
  asks_rows =
      sort_by-All ask_before (IsRow s₁.orders) _ (
        All-select (IsRow s₁.orders) chosen s₁.orders
          (All-IsRow s₁.next_order s₁.orders opened_ids))

  asks-Distinct : Distinct (own ∷ asks)
  unfolding asks select_asks s₁ chosen own
  asks-Distinct = (
    both-All (IsRow s₁.orders) (IsCounter r true) (λ o. o.id ≢ own.id) _
        (λ o row k.
          rows_differ s₁.orders own o own-IsRow row
            (λ e. let buys : false ≡ true = e ∙ k.side in cc))
        asks_rows chosen_facts.0,
    sort_by-Distinct ask_before _ (select-Distinct chosen s₁.next_order s₁.orders opened_ids),
  )

  opened_money : money s₁ ≡ money s
  unfolding s₁ own sum_of
  opened_money =
      let paid : total_balance s₁.bank + limit_price r * r.quantity ≡ total_balance s.bank + 0 =
        moved.total in
      omega arith

  pub buying :
      (available : ℕ)
      → Buying r own s.next_order
          (money s + limit_price r * r.quantity)
          (items s)
          asks
          (start r available)
          s₁
  unfolding s₁ own sum_of
  buying available = record {
    consistent = record {
      reconciled = moved.reconciled c.reconciled;
      ids = opened_ids;
      orders = opened_orders;
      trades = c.trades;
    };
    filled = omega arith;
    cash_kept = omega (arith, opened_money);
    goods_kept = omega arith;
    own_row = own-IsRow;
    rows = asks_rows;
    distinct = asks-Distinct;
    counters = chosen_facts.0;
  }

-- The UPDATE of the submitted order behind the loop.
module _ (r : Request) (own : Order) (cash goods : ℕ) (m : Progress) (s : Db)
    (is_own : (own.side ≡ Side.buy)
      × (own.order_type ≡ r.order_type)
      × (own.price_cents ≡ limit_price r)
      × (own.original_qty ≡ r.quantity)
      × (own.reserved_cents ≡ limit_price r * r.quantity))
    (i : Running r own true (limit_price r) 0 cash goods [] m s) where
  unfoldable pub close : Order → Order
  close = bought r m (limit_price r * m.remaining)

  reserve :
      (close own).reserved_cents
      ≡ (if is_buy (close own).side then (close own).price_cents * (close own).remaining_qty else 0)
  unfolding close
  reserve = rw (is_own.0, is_own.2) (go r.order_type)
    where
      go :
          (t : OrderType)
          → (if is_limit t then r.price_cents else 0) * m.remaining
            ≡ (if is_limit t then r.price_cents else 0) * (if is_limit t then m.remaining else 0)
      go OrderType.limit = refl
      go OrderType.market = omega arith

  status_open :
      is_limit (close own).order_type ≡ true
      → is_open (close own).status ≡ ltb 0 (close own).remaining_qty
  unfolding close final_status
  status_open lim = go r.order_type (rw is_own.1 at lim)
    where
      go :
          (t : OrderType)
          → is_limit t ≡ true
          → is_open (final_status t r.quantity m.remaining m.filled_total)
            ≡ ltb 0 (if is_limit t then m.remaining else 0)
      go OrderType.limit e = ground arith
      go OrderType.market e = cc

  close_none : is_open (close own).status ≡ false → (close own).remaining_qty ≡ 0
  unfolding close final_status
  close_none = go r.order_type
    where
      go :
          (t : OrderType)
          → is_open (final_status t r.quantity m.remaining m.filled_total) ≡ false
          → (if is_limit t then m.remaining else 0) ≡ 0
      go OrderType.limit e = ground arith
      go OrderType.market e = refl

  close-IsOrder : IsOrder (close own)
  unfolding close final_status
  close-IsOrder = record {
    reserved = reserve;
    opened = λ lim. status_open lim;
    left = ground (arith, is_own.3, i.filled);
    closed = close_none;
  }

  unfoldable pub closed : Db
  closed = record s { orders = update (has_id own.id) close s.orders }

  pub closed-IsConsistent : IsConsistent closed
  unfolding closed close
  closed-IsConsistent = record {
    reconciled = i.consistent.reconciled;
    ids = update-IdsBelow (has_id own.id) close s.next_order s.orders (λ o. refl) i.consistent.ids;
    orders =
        All-update_order IsOrder close s.next_order s.orders own i.consistent.ids i.own_row
          close-IsOrder i.consistent.orders;
    trades = i.consistent.trades;
  }

  pub closed_money : money closed + limit_price r * r.quantity ≡ cash
  unfolding closed close
  closed_money = omega (
    arith,
    sum_of-update_order reserved_cell close s.next_order s.orders own i.consistent.ids i.own_row,
    i.cash_kept,
    is_own.4,
  )

  pub closed_items : items closed ≡ goods
  unfolding closed close
  closed_items = ground (
    arith,
    sum_of-update_order offered_cell close s.next_order s.orders own i.consistent.ids i.own_row,
    i.goods_kept,
    is_own.0,
  )
