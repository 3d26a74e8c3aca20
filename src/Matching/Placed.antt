-- ===== src/Matching/Placed.antt =====
-- `placeBuy` of src/exchange_service.cpp as a whole.
use endstone_exchange.Matching.Closing.{
  buying, chosen_facts, closed_items, closed_money, closed-IsConsistent, own, s₁, asks, closed,
  close,
}
use endstone_exchange.Matching.Buy.{buy_loop-Ensures, Buying}
use endstone_exchange.Bank.Ledger.{balance_of}
use endstone_exchange.Matching.Open.{
  close_buy-Ensures, open_buy-Ensures, lock_active_book-Ensures, own_buy,
}
use endstone_exchange.Table.{update}
use endstone_exchange.Matching.Invariant.{items, money, IsConsistent}
use endstone_exchange.Orders.{has_id}
use endstone_exchange.Store.{Db, Order}
use endstone_exchange.Domain.{ExecutionResult, Side, is_limit}
use endstone_exchange.Matching.{report, place_buy, bought, Progress, limit_price, Request}
use endstone_exchange.Common.{[], ℕ, ◌+◌, ◌*◌, ◌<◌, ◌≤◌, arith, ◌≡◌, refl, true, false}
use endstone_exchange.Tx.{Ensures-gets, Ensures-call, Ensures-bind, Ensures}

-- What a successful placement leaves: a well-formed database, the money and `gain` more items than
-- before, and a report that adds up.
pub record IsPlaced (r : Request) (gain : ℕ) (s : Db) (x : ExecutionResult) (s' : Db) : Type 0 where
  pub consistent : IsConsistent s'
  pub money_kept : money s' ≡ money s
  pub items_kept : items s' ≡ items s + gain
  pub requested : x.requested_quantity ≡ r.quantity
  pub adds_up : is_limit r.order_type ≡ true → x.filled_quantity + x.open_quantity ≡ r.quantity
  pub not_kept :
      is_limit r.order_type ≡ false → (x.filled_quantity ≤ r.quantity) × (x.open_quantity ≡ 0)
  pub balance : x.balance_cents ≡ balance_of r.player_uuid s'.bank

-- From a well-formed database, a buy order of at least one item that goes through leaves a well-formed
-- database with the money and the items of before; its report gives the requested quantity, filled and
-- open items that add up to it for a limit order, no open items for a market order, and the balance of the
-- buyer.
pub place_buy-IsPlaced :
    (r : Request) (s : Db)
    → 0 < r.quantity
    → IsConsistent s
    → Ensures (IsPlaced r 0 s) (place_buy r s)
unfolding place_buy own s₁ asks closed close
place_buy-IsPlaced r s some_items c = lock_active_book-Ensures P _ _ s λ book.
    Ensures-call P _ _ s (
      open_buy-Ensures r _ s λ available b' moved. Ensures-gets P _ _ _ (
        Ensures-bind P (Buying r own' s.next_order cash (items s) []) _ _ _
          (buy_loop-Ensures r own' s.next_order cash (items s) _ _ _
            (chosen_facts r book s b' some_items c moved).1
            (buying r book s b' some_items c moved available))
          λ m s' i.
            close_buy-Ensures r P s.next_order m s' i.consistent.reconciled (finished m s' i)))
  where
    P : ExecutionResult → Db → Type 0
    P = IsPlaced r 0 s

    own' : Order
    own' = own_buy r s.next_order

    cash : ℕ
    cash = money s + limit_price r * r.quantity

    finished :
        (m : Progress) (s' : Db)
        → Buying r own' s.next_order cash (items s) [] m s'
        → P (report r s.next_order m (balance_of r.player_uuid s'.bank)) (record s' {
          orders =
              update (has_id s.next_order) (bought r m (limit_price r * m.remaining)) s'.orders;
        })
    finished m s' i = record {
      consistent = closed-IsConsistent r own' cash (items s) m s' is_own i;
      money_kept = omega (arith, closed_money r own' cash (items s) m s' is_own i);
      items_kept = omega (arith, closed_items r own' cash (items s) m s' is_own i);
      requested = refl;
      adds_up = λ lim. rw lim i.filled;
      not_kept = λ lim. rw lim (omega (arith, i.filled), refl);
      balance = refl;
    }
      where
        is_own :
            (own'.side ≡ Side.buy)
            × (own'.order_type ≡ r.order_type)
            × (own'.price_cents ≡ limit_price r)
            × (own'.original_qty ≡ r.quantity)
            × (own'.reserved_cents ≡ limit_price r * r.quantity)
        is_own = (refl, refl, refl, refl, refl)
