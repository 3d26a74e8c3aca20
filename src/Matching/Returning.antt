-- ===== src/Matching/Returning.antt =====
-- `placeSellLocked` of src/exchange_service.cpp around its loop: the statements before and behind it.
use endstone_exchange.Bank.{Bank}
use endstone_exchange.Bank.Ledger.{balance_of, IsReconciled}
use endstone_exchange.Bank.Opening.{locked_balance-lem}
use text.Mathlib.TextEquality.{eq_iff}
use endstone_exchange.Orders.Sorting.{sort_by-Distinct, sort_by-All}
use endstone_exchange.Matching.Sell.{Selling}
use endstone_exchange.Orders.{
  update_order, has_id, bid_before, add_delivery, crosses_bid, select_bids, is_bid,
}
use endstone_exchange.Orders.Rows.{
  select-Distinct, All-IsRow, All-update_order, rows_differ, update-IdsBelow, both-All,
  sum_of-update_order, IsRow, Distinct, IdsBelow,
}
use endstone_exchange.Matching.Open.{own_sell, with_own}
use endstone_exchange.Table.{select-All, update, All-select, sum_of, first}
use endstone_exchange.Matching.Invariant.{
  delivered-add_delivery, offered_cell, reserved_cell, delivered_cell, items, money, IsCounter,
  Running, IsConsistent, IsOrder,
}
use endstone_exchange.Domain.{ExecutionResult, OrderType, is_open, is_limit, Side, RowId}
use endstone_exchange.Store.{Ensures-bank, Market, Db, Order}
use endstone_exchange.Matching.{
  report, close_sell, start, kept_open, final_status, sold, returned, Progress, Request,
}
use endstone_exchange.Common.{
  if◌then◌else◌, ◌∙◌, ltb, ◌≢◌, ◌+◌, str_eq, ◌∷◌, [], arith, ◌&&◌, All, Bool, ◌≡◌, ◌<◌, ℕ, List,
  refl, true, false,
}
use endstone_exchange.Tx.{Ensures-pure, Ensures-modify, Ensures}

bid_facts :
    (r : Request) (book : RowId) (markets : List Market) (o : Order)
    → IsOrder o
    → (is_bid book markets r.player_uuid o && crosses_bid r.order_type r.price_cents o) ≡ true
    → IsCounter r false o
bid_facts r book markets o k h = record {
  side = ground arith;
  limit = ground arith;
  stranger = λ e.
      let same : str_eq o.player_uuid r.player_uuid ≡ true =
        (eq_iff o.player_uuid r.player_uuid).1 e in
      ground arith;
  order = k;
}

-- What `placeSellLocked` finds for its loop.
module _ (r : Request) (book : RowId) (s : Db) (some_items : 0 < r.quantity)
    (c : IsConsistent s) where
  unfoldable pub own : Order
  own = own_sell r s.next_order

  unfoldable pub s₁ : Db
  s₁ = with_own r own s.bank s

  unfoldable pub bids : List Order
  bids = select_bids book r.player_uuid r.order_type r.price_cents s₁

  chosen : Order → Bool
  chosen o = is_bid book s.markets r.player_uuid o && crosses_bid r.order_type r.price_cents o

  opened_orders : All IsOrder s₁.orders
  unfolding s₁ own
  opened_orders = (
    record { reserved = refl; opened = λ lim. ground arith; left = omega arith; closed = λ e. cc },
    c.orders,
  )

  opened_ids : IdsBelow s₁.next_order s₁.orders
  unfolding s₁ own
  opened_ids = (omega arith, c.ids)

  own-IsRow : IsRow s₁.orders own
  unfolding s₁ own first
  own-IsRow = ground arith

  bids_facts : All (IsCounter r false) bids
  unfolding bids select_bids s₁ chosen
  bids_facts = sort_by-All bid_before (IsCounter r false) _ (
      both-All IsOrder (λ o. chosen o ≡ true) (IsCounter r false) _
        (λ o k h. bid_facts r book s.markets o k h)
        (All-select IsOrder chosen s₁.orders opened_orders) (select-All chosen s₁.orders))

  bids_rows : All (IsRow s₁.orders) bids
  unfolding bids select_bids s₁ chosen
  bids_rows =
      sort_by-All bid_before (IsRow s₁.orders) _ (
        All-select (IsRow s₁.orders) chosen s₁.orders
          (All-IsRow s₁.next_order s₁.orders opened_ids))

  bids-Distinct : Distinct (own ∷ bids)
  unfolding bids select_bids s₁ chosen own
  bids-Distinct = (
    both-All (IsRow s₁.orders) (IsCounter r false) (λ o. o.id ≢ own.id) _
        (λ o row k.
          rows_differ s₁.orders own o own-IsRow row
            (λ e. let sells : true ≡ false = e ∙ k.side in cc))
        bids_rows bids_facts,
    sort_by-Distinct bid_before _ (select-Distinct chosen s₁.next_order s₁.orders opened_ids),
  )

  pub selling :
      Selling r own s.next_order (money s) (items s + r.quantity + r.quantity) bids (start r 0) s₁
  unfolding s₁ own sum_of
  selling = record {
    consistent = record {
      reconciled = c.reconciled;
      ids = opened_ids;
      orders = opened_orders;
      trades = c.trades;
    };
    filled = omega arith;
    cash_kept = omega arith;
    goods_kept = omega arith;
    own_row = own-IsRow;
    rows = bids_rows;
    distinct = bids-Distinct;
    counters = bids_facts;
  }

-- The statements behind the loop.
module _ (r : Request) (own : Order) (cash goods : ℕ) (m : Progress) (s : Db)
    (is_own : (own.side ≡ Side.sell)
      × (own.order_type ≡ r.order_type)
      × (own.original_qty ≡ r.quantity)
      × (own.remaining_qty ≡ r.quantity)
      × (own.reserved_cents ≡ 0))
    (i : Running r own false 0 1 cash goods [] m s) where
  unfoldable pub close : Order → Order
  close = sold r m

  status_open :
      is_limit (close own).order_type ≡ true
      → is_open (close own).status ≡ ltb 0 (close own).remaining_qty
  unfolding close final_status
  status_open lim = go r.order_type (rw is_own.1 at lim)
    where
      go :
          (t : OrderType)
          → is_limit t ≡ true
          → is_open (final_status t r.quantity m.remaining m.filled_total)
            ≡ ltb 0 (if is_limit t then m.remaining else 0)
      go OrderType.limit e = ground arith
      go OrderType.market e = cc

  close_none : is_open (close own).status ≡ false → (close own).remaining_qty ≡ 0
  unfolding close final_status
  close_none = go r.order_type
    where
      go :
          (t : OrderType)
          → is_open (final_status t r.quantity m.remaining m.filled_total) ≡ false
          → (if is_limit t then m.remaining else 0) ≡ 0
      go OrderType.limit e = ground arith
      go OrderType.market e = refl

  close-IsOrder : IsOrder (close own)
  unfolding close final_status
  close-IsOrder = record {
    reserved = rw (is_own.0, is_own.4);
    opened = λ lim. status_open lim;
    left = ground (arith, is_own.2, i.filled);
    closed = close_none;
  }

  unfoldable pub closed : Db
  closed = record (returned r m s) { orders = update (has_id own.id) close s.orders }

  returned_items :
      sum_of delivered_cell (returned r m s).deliveries + kept_open r m
      ≡ sum_of delivered_cell s.deliveries + m.remaining
  returned_items = ground (
    arith,
    delivered-add_delivery r.player_uuid r.market_id
        (if is_limit r.order_type then 0 else m.remaining) "MARKET_REMAINDER" s,
  )

  pub closed-IsConsistent : IsConsistent closed
  unfolding closed close add_delivery
  closed-IsConsistent = record {
    reconciled = i.consistent.reconciled;
    ids = update-IdsBelow (has_id own.id) close s.next_order s.orders (λ o. refl) i.consistent.ids;
    orders =
        All-update_order IsOrder close s.next_order s.orders own i.consistent.ids i.own_row
          close-IsOrder i.consistent.orders;
    trades = i.consistent.trades;
  }

  pub closed_money : money closed ≡ cash
  unfolding closed close add_delivery
  closed_money = omega (
    arith,
    sum_of-update_order reserved_cell close s.next_order s.orders own i.consistent.ids i.own_row,
    i.cash_kept,
  )

  pub closed_items : items closed + r.quantity ≡ goods
  unfolding closed close
  closed_items = ground (
    arith,
    sum_of-update_order offered_cell close s.next_order s.orders own i.consistent.ids i.own_row,
    returned_items,
    i.goods_kept,
    is_own.0,
    is_own.3,
  )

pub close_sell-Ensures {κ} :
    (P : ExecutionResult → Db → Type κ) (r : Request) (order_id : RowId) (m : Progress) (s : Db)
    → IsReconciled s.bank
    → P
        (report r order_id m (balance_of r.player_uuid s.bank))
        (record (returned r m s) { orders = update (has_id order_id) (sold r m) s.orders })
    → Ensures P (close_sell r order_id m s)
unfolding close_sell update_order add_delivery
close_sell-Ensures P r order_id m s c p = Ensures-modify P _ _ s (
    Ensures-modify P _ _ _ (
      Ensures-bank P _ _ _ _ (locked_balance-lem r.player_uuid s.bank c)
        λ v b h. Ensures-pure P _ _ (at_end v b h)))
  where
    at_end :
        (v : ℕ) (b : Bank)
        → (b ≡ s.bank) × (v ≡ balance_of r.player_uuid s.bank)
        → P (report r order_id m v) (record (returned r m s) {
          bank = b;
          orders = update (has_id order_id) (sold r m) s.orders;
        })
    at_end v b (same, value) = rw (same, value) p
