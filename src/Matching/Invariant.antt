-- ===== src/Matching/Invariant.antt =====
-- The well-formedness of the order table, the sums over it, and the state that the loops keep.
use endstone_exchange.Common.{
  false, arith, String, ◌∷◌, ℕ, ◌+◌, ◌*◌, ◌≤◌, ◌≡◌, ◌≢◌, Bool, true, List, ltb, if◌then◌else◌, All,
}
use endstone_exchange.Table.{sum_of}
use endstone_exchange.Bank.{Uuid}
use endstone_exchange.Bank.Ledger.{IsReconciled, total_balance}
use endstone_exchange.Domain.{is_buy, is_sell, is_limit, is_open}
use endstone_exchange.Orders.{add_delivery}
use endstone_exchange.Store.{Db, Order, Trade, Delivery}
use endstone_exchange.Orders.Rows.{IdsBelow, IsRow, Distinct}
use endstone_exchange.Matching.{Request, Progress}

-- A buy order has reserved its price for each item that is left, a sell order has reserved nothing; a
-- limit order is open while items are left, and an order that is closed has none left.
pub record IsOrder (o : Order) : Type 0 where
  pub reserved : o.reserved_cents ≡ (if is_buy o.side then o.price_cents * o.remaining_qty else 0)
  pub opened : is_limit o.order_type ≡ true → is_open o.status ≡ ltb 0 o.remaining_qty
  pub left : o.remaining_qty ≤ o.original_qty
  pub closed : is_open o.status ≡ false → o.remaining_qty ≡ 0

abbrev pub IsTrade : Trade → Type 0
IsTrade t = t.buyer_uuid ≢ t.seller_uuid

abbrev pub reserved_cell : Order → ℕ
reserved_cell o = o.reserved_cents

-- SUM(reserved_cents) of all orders
abbrev pub reserved_sum : Db → ℕ
reserved_sum s = sum_of reserved_cell s.orders

-- The items that sell orders hold, and those that deliveries have handed out.
abbrev pub offered_cell : Order → ℕ
offered_cell o = if is_sell o.side then o.remaining_qty else 0

abbrev pub delivered_cell : Delivery → ℕ
delivered_cell d = d.quantity

abbrev pub items : Db → ℕ
items s = sum_of offered_cell s.orders + sum_of delivered_cell s.deliveries

-- All internal money: the balances and the reserves.
abbrev pub money : Db → ℕ
money s = total_balance s.bank + reserved_sum s

pub record IsConsistent (s : Db) : Type 0 where
  pub reconciled : IsReconciled s.bank
  pub ids : IdsBelow s.next_order s.orders
  pub orders : All IsOrder s.orders
  pub trades : All IsTrade s.trades

-- What the WHERE says of a row of the other side, and that it is well formed.
pub record IsCounter (r : Request) (sells : Bool) (o : Order) : Type 0 where
  pub side : is_sell o.side ≡ sells
  pub limit : is_limit o.order_type ≡ true
  pub stranger : o.player_uuid ≢ r.player_uuid
  pub order : IsOrder o

-- The state of a loop with the rows `os` to come: the submitted order `own` and these rows stand in the
-- table as they were read. For each item that is not filled the loop has still to pay out `rate` cents
-- of the reserve, and to deliver `stock` items.
pub record Running (r : Request) (own : Order) (sells : Bool) (rate stock cash goods : ℕ)
    (os : List Order) (m : Progress) (s : Db) : Type 0 where
  pub consistent : IsConsistent s
  pub filled : m.filled_total + m.remaining ≡ r.quantity
  pub cash_kept : money s + rate * m.remaining ≡ cash
  pub goods_kept : items s + stock * m.remaining ≡ goods
  pub own_row : IsRow s.orders own
  pub rows : All (IsRow s.orders) os
  pub distinct : Distinct (own ∷ os)
  pub counters : All (IsCounter r sells) os

pub delivered-add_delivery :
    (p : Uuid) (market_id quantity : ℕ) (reason : String) (s : Db)
    → sum_of delivered_cell (add_delivery p market_id quantity reason s).deliveries
      ≡ sum_of delivered_cell s.deliveries + quantity
unfolding add_delivery sum_of
delivered-add_delivery p market_id quantity reason s = ground arith
