-- ===== src/Matching/PlaceSell.antt =====
-- `placeSellLocked` of src/exchange_service.cpp as a whole.
use endstone_exchange.Matching.Returning.{
  selling, closed_items, closed_money, closed-IsConsistent, own, s₁, bids, closed, close,
  close_sell-Ensures,
}
use endstone_exchange.Bank.Ledger.{balance_of}
use endstone_exchange.Bank.Opening.{locked_balance-same}
use endstone_exchange.Matching.Placed.{IsPlaced}
use endstone_exchange.Matching.Sell.{sell_loop-Ensures, Selling}
use endstone_exchange.Orders.{has_id, add_delivery}
use endstone_exchange.Matching.Open.{insert_order-Ensures, lock_active_book-Ensures, own_sell}
use endstone_exchange.Table.{update}
use endstone_exchange.Matching.Invariant.{items, money, IsConsistent}
use endstone_exchange.Domain.{ExecutionResult, Side}
use endstone_exchange.Store.{on_bank-same, Db, Order}
use endstone_exchange.Matching.{report, place_sell_locked, sold, returned, Progress, Request}
use endstone_exchange.Common.{◌+◌, [], arith, ◌≡◌, ◌<◌, ℕ, refl}
use endstone_exchange.Tx.{Ensures-bind, Ensures-gets, Ensures-reader, Ensures}

-- From a well-formed database, a sell order of at least one item that goes through leaves a well-formed
-- database with the money of before, and its items are in the book or in deliveries; its report gives the
-- requested quantity, filled and open items that add up to it for a limit order, no open items for a
-- market order, and the balance of the seller.
pub place_sell_locked-IsPlaced :
    (r : Request) (s : Db)
    → 0 < r.quantity
    → IsConsistent s
    → Ensures (IsPlaced r r.quantity s) (place_sell_locked r s)
unfolding place_sell_locked own s₁ bids closed close add_delivery
place_sell_locked-IsPlaced r s some_items c = lock_active_book-Ensures P _ _ s λ book.
    Ensures-reader P _ _ s (on_bank-same _ s (locked_balance-same r.player_uuid s.bank)) λ balance.
      insert_order-Ensures P _ _ _ _ _ _ _ _ s (
        Ensures-gets P _ _ _ (
          Ensures-bind P (Selling r own' s.next_order (money s) goods []) _ _ _
            (sell_loop-Ensures r own' s.next_order (money s) goods _ _ _
              (selling r book s some_items c))
            λ m s' i.
              close_sell-Ensures P r s.next_order m s' i.consistent.reconciled (finished m s' i)))
  where
    P : ExecutionResult → Db → Type 0
    P = IsPlaced r r.quantity s

    own' : Order
    own' = own_sell r s.next_order

    goods : ℕ
    goods = items s + r.quantity + r.quantity

    finished :
        (m : Progress) (s' : Db)
        → Selling r own' s.next_order (money s) goods [] m s'
        → P (report r s.next_order m (balance_of r.player_uuid s'.bank)) (record (returned r m s') {
          orders = update (has_id s.next_order) (sold r m) s'.orders;
        })
    finished m s' i = record {
      consistent = closed-IsConsistent r own' (money s) goods m s' is_own i;
      money_kept = closed_money r own' (money s) goods m s' is_own i;
      items_kept = omega (arith, closed_items r own' (money s) goods m s' is_own i);
      requested = refl;
      adds_up = λ lim. rw lim i.filled;
      not_kept = λ lim. rw lim (omega (arith, i.filled), refl);
      balance = refl;
    }
      where
        is_own :
            (own'.side ≡ Side.sell)
            × (own'.order_type ≡ r.order_type)
            × (own'.original_qty ≡ r.quantity)
            × (own'.remaining_qty ≡ r.quantity)
            × (own'.reserved_cents ≡ 0)
        is_own = (refl, refl, refl, refl, refl)
