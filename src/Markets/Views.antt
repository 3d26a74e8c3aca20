-- ===== src/Markets/Views.antt =====
-- The views of the order books: `orderBook`, `topOfBooks`, `buyFundingRequired`, `openOrders`, and the balance
-- calls `balance` and `addBalance` of src/exchange_service.cpp.
-- A sum of items beyond the range of int, which `cellInt` refuses in `orderBook`, is not modelled.
use endstone_exchange.Markets.{find_market}
use endstone_exchange.Common.{
  ℕ, ◌+◌, ◌-◌, String, Bool, not, ◌&&◌, ◌||◌, Option, none, some, List, [], ◌∷◌, ltb, ◌==◌,
  if◌then◌else◌, str_eq,
}
use Prim.Native.Nat.{min}
use endstone_exchange.Common.Int.{ℤ, pos, pos_part, ltb_ℤ, leb_ℤ}
use endstone_exchange.Money.{Cents, cents_max, checked_product}
use endstone_exchange.Table.{select, first, affected}
use endstone_exchange.Tx.{Result, ok, err, Error, Outcome, transaction, and_then}
use endstone_exchange.Bank.{Uuid, locked_balance, adjust_balance}
use endstone_exchange.Domain.{
  RowId, OrderType, OrderRequest, ItemPrototype, is_buy, is_sell, is_limit, is_open,
}
use endstone_exchange.Store.{Db, Order, on_bank}
use endstone_exchange.Orders.{in_book, select_asks}
use endstone_exchange.Reads.{sort_on, sort_down, limited, joined}
use endstone_exchange.Matching.{Service, validate_request, ensure_account}

-- `BookLevel`: a price and SUM(remaining_qty)
abbrev pub Level : Type 0
Level = Cents × ℕ

-- GROUP BY o.price_cents
unfoldable pub add_level : Cents → ℕ → List Level → List Level
add_level price n [] = (price, n) ∷ []
add_level price n ((p, q) ∷ ls) =
    if p == price then (p, q + n) ∷ ls else (p, q) ∷ add_level price n ls

unfoldable pub levels : List Order → List Level
unfolding add_level
levels [] = []
levels (o ∷ os) = add_level o.price_cents o.remaining_qty (levels os)

pub record OrderBook : Type 0 where
  pub bids : List Level
  pub asks : List Level
  pub last_price_cents : Option Cents

abbrev pub quoted : (Order → Bool) → RowId → Db → List Order
quoted side book s =
    select (λ o. in_book book s.markets o && side o && is_limit o.order_type && is_open o.status)
      s.orders

-- ORDER BY price_cents DESC and ASC
unfoldable pub bid_levels : RowId → Db → List Level
unfolding levels select sort_down
bid_levels book s = sort_down (λ l. l.0) (levels (quoted (λ o. is_buy o.side) book s))

unfoldable pub ask_levels : RowId → Db → List Level
unfolding levels select sort_on
ask_levels book s = sort_on (λ l. l.0) (levels (quoted (λ o. is_sell o.side) book s))

-- The price of the last trade of the book: the newest row stands first.
unfoldable pub last_price : RowId → Db → Option Cents
unfolding first affected
last_price book s =
    elim (first (λ t. ltb 0 (affected (λ m. m.id == t.market_id && m.book_id == book) s.markets))
      s.trades) [ some t ↦ some t.price_cents | none ↦ none ]

unfoldable pub order_book : RowId → ℤ → Db → Result OrderBook
unfolding find_market bid_levels ask_levels last_price limited
order_book market_id depth s =
    if leb_ℤ depth (pos 0) || ltb_ℤ (pos 50) depth
    then err Error.depth_out_of_range
    else elim (find_market market_id s) [
      | none ↦ err Error.market_missing
      | some m ↦ ok record {
        bids = limited (pos_part depth) (bid_levels m.book_id s);
        asks = limited (pos_part depth) (ask_levels m.book_id s);
        last_price_cents = last_price m.book_id s;
      }
    ]

-- LEAST(SUM(o.remaining_qty),2147483647)
abbrev pub capped : Level → Level
capped (p, n) = (p, min n 2147483647)

abbrev pub best : List Level → List Level
best [] = []
best (l ∷ ls) = capped l ∷ []

-- The entry of a market in the result of `topOfBooks`: the best level of each side
unfoldable pub top_of_book : RowId → Db → OrderBook
unfolding find_market bid_levels ask_levels last_price
top_of_book market_id s = elim (find_market market_id s) [
  | none ↦ record { bids = []; asks = []; last_price_cents = none }
  | some m ↦ record {
    bids = best (bid_levels m.book_id s);
    asks = best (ask_levels m.book_id s);
    last_price_cents = last_price m.book_id s;
  }
]

unfoldable pub tops : List RowId → Db → List (RowId × OrderBook)
unfolding top_of_book
tops [] s = []
tops (i ∷ is) s = (i, top_of_book i s) ∷ tops is s

-- `idList` refuses the id 0; without ids nothing is read.
unfoldable pub top_of_books : List RowId → Db → Result (List (RowId × OrderBook))
unfolding tops affected
top_of_books ids s =
    if ltb 0 (affected (λ i. i == 0) ids) then err Error.market_id_not_positive else ok (tops ids s)

-- The loop of `buyFundingRequired`
unfoldable pub funding_loop : ℕ → Cents → List Order → Result Cents
unfolding checked_product
funding_loop remaining required [] = ok required
funding_loop remaining required (o ∷ os) =
    let fill = min remaining o.remaining_qty in
    if remaining == 0 then ok required else elim (checked_product (pos o.price_cents) (pos fill)) [
      | err e ↦ err e
      | ok cost ↦
          if ltb (cents_max - cost) required
          then err Error.funding_too_large
          else funding_loop (remaining - fill) (required + cost) os
    ]

unfoldable pub buy_funding_required : Service → OrderRequest → Db → Result Cents
unfolding validate_request find_market funding_loop checked_product select_asks
buy_funding_required c q s = elim (validate_request c q) [
  | err e ↦ err e
  | ok r ↦
      if not (is_buy r.side)
      then err Error.only_buy_orders_need_funding
      else elim (find_market r.market_id s) [
        | none ↦ err Error.market_not_active
        | some m ↦
            if not m.active
            then err Error.market_not_active
            else if is_limit r.order_type
            then checked_product (pos r.price_cents) (pos r.quantity)
            else funding_loop r.quantity 0
                (select_asks m.book_id r.player_uuid OrderType.market 0 s)
      ]
]

-- `openOrders`, with the item of the market
unfoldable pub open_orders : Uuid → Db → List (Order × ItemPrototype)
unfolding select sort_down joined
open_orders p s =
    joined (λ o. o.market_id) s.markets
      (sort_down (λ o. o.id)
        (select (λ o. str_eq o.player_uuid p && is_limit o.order_type && is_open o.status)
          s.orders))

-- `balance`
unfoldable pub balance : Uuid → Db → Outcome Db Cents
balance p s = transaction (on_bank (locked_balance p)) s

unfoldable pub add_balance : Service → Uuid → String → ℤ → Db → Outcome Db Cents
unfolding ensure_account
add_balance c p name delta s =
    and_then (ensure_account c p name) (λ _. transaction (on_bank (adjust_balance p delta))) s
