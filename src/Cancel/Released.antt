-- ===== src/Cancel/Released.antt =====
-- `cancelOrder` and `retireMarket` of src/exchange_service.cpp, and the money and items of the canceled orders.
use endstone_exchange.Bank.Ledger.{credit-Moves, Moves}
use endstone_exchange.Domain.{RowId, is_sell, is_buy}
use endstone_exchange.Bank.{Uuid, Bank}
use endstone_exchange.Table.{All-select, select, first-holds, first, first-All, update, sum_of}
use endstone_exchange.Orders.Rows.{
  select-Distinct, All-IsRow, rows-update_order, Distinct, sum_of-update_order, All-update_order,
  update-IdsBelow, IdsBelow, IsRow,
}
use endstone_exchange.Orders.{has_id, add_delivery, update_order}
use endstone_exchange.Matching.Invariant.{
  delivered-add_delivery, reserved_sum, reserved_cell, items, offered_cell, IsOrder, money,
  IsConsistent,
}
use endstone_exchange.Store.{Market, TargetBinding, Ensures-on_bank, Order, Db}
use endstone_exchange.Cancel.{
  of_market, unbind, set_market, for_each, cancel_order, retire_market, released, release_order,
}
use endstone_exchange.Common.{
  sym, subst, [], Bool, ==_iff, ◌∷◌, some, if◌then◌else◌, ◌+◌, arith, All, String, List, ◌≡◌, ◌∙◌,
  refl, true, false,
}
use endstone_exchange.Tx.{
  Ensures-pure_bind, Ensures-modify, Ensures-assoc, Ensures-guard, Ensures-or_throw, Ensures-gets,
  Ensures-bind, transaction-keeps, Ensures-pure, Ensures-modify_last, Ensures-mono, Ensures-if,
  Ensures-call, Ensures, Tx,
}

-- What canceling keeps, beside the well-formedness: the money and the items.
pub record IsKept (s s' : Db) : Type 0 where
  pub consistent : IsConsistent s'
  pub money_kept : money s' ≡ money s
  pub items_kept : items s' ≡ items s

pub IsKept-refl : (s : Db) → IsConsistent s → IsKept s s
IsKept-refl s c = record { consistent = c; money_kept = refl; items_kept = refl }

IsKept-trans : (s t u : Db) → IsKept s t → IsKept t u → IsKept s u
IsKept-trans s t u h k = record {
  consistent = k.consistent;
  money_kept = k.money_kept ∙ h.money_kept;
  items_kept = k.items_kept ∙ h.items_kept;
}

module _ (s : Db) (o : Order) (c : IsConsistent s) (row : IsRow s.orders o) where
  gone : List Order
  gone = update (has_id o.id) released s.orders

  gone_ids : IdsBelow s.next_order gone
  unfolding gone
  gone_ids = update-IdsBelow (has_id o.id) released s.next_order s.orders (λ x. refl) c.ids

  gone_orders : All IsOrder gone
  unfolding gone
  gone_orders =
      All-update_order IsOrder released s.next_order s.orders o c.ids row
        (record {
          reserved = ground arith;
          opened = λ lim. refl;
          left = omega arith;
          closed = λ e. refl;
        })
        c.orders

  gone_reserves : sum_of reserved_cell gone + o.reserved_cents ≡ reserved_sum s
  unfolding gone
  gone_reserves =
      omega (arith, sum_of-update_order reserved_cell released s.next_order s.orders o c.ids row)

  gone_goods :
      sum_of offered_cell gone + (if is_sell o.side then o.remaining_qty else 0)
      ≡ sum_of offered_cell s.orders
  unfolding gone
  gone_goods =
      ground (arith, sum_of-update_order offered_cell released s.next_order s.orders o c.ids row)

  refunded :
      (b' : Bank)
      → is_buy o.side ≡ true
      → Moves o.player_uuid o.reserved_cents 0 s.bank b'
      → IsKept s (record s { bank = b'; orders = gone })
  refunded b' buys moved = record {
    consistent = record {
      reconciled = moved.reconciled c.reconciled;
      ids = gone_ids;
      orders = gone_orders;
      trades = c.trades;
    };
    money_kept = omega (arith, moved.total, gone_reserves);
    items_kept = ground (arith, gone_goods);
  }

  handed_back :
      (reason : String)
      → is_buy o.side ≡ false
      → IsOrder o
      → IsKept s (record (add_delivery o.player_uuid o.market_id o.remaining_qty reason s) {
        orders = gone;
      })
  unfolding add_delivery
  handed_back reason sells k = record {
    consistent = record {
      reconciled = c.reconciled;
      ids = gone_ids;
      orders = gone_orders;
      trades = c.trades;
    };
    money_kept = ground (arith, gone_reserves, k.reserved);
    items_kept = ground (
      arith,
      gone_goods,
      delivered-add_delivery o.player_uuid o.market_id o.remaining_qty reason s,
    );
  }

  released_row : IsOrder o
  released_row = first-All IsOrder (has_id o.id) s.orders o c.orders row

-- Canceling one order.
release_order-Ensures {κ} :
    (P : Unit {0} → Db → Type κ) (refund deliver : String) (o : Order) (s : Db)
    → IsConsistent s
    → IsRow s.orders o
    → ((s' : Db) → IsKept s s' → s'.orders ≡ update (has_id o.id) released s.orders → P tt s')
    → Ensures P (release_order refund deliver o s)
unfolding release_order update_order gone add_delivery
release_order-Ensures P refund deliver o s c row k = Ensures-call P _ _ s (
    Ensures-if _ _ _ _ _
      (λ buys. Ensures-on_bank _ _ _ (
        Ensures-mono _ _ _
          (credit-Moves o.player_uuid o.reserved_cents refund "ORDER" (some o.id) s.bank)
          λ _ b' moved. Ensures-modify_last P _ _ (k _ (refunded s o c row b' buys moved) refl)))
      (λ sells. Ensures-modify_last _ _ _ (
        Ensures-modify_last P _ _
          (k _ (handed_back s o c row deliver sells (released_row s o c row)) refl))))

first-IsRow : (i : RowId) (os : List Order) (o : Order) → first (has_id i) os ≡ some o → IsRow os o
first-IsRow i os o h = subst (λ j. first (has_id j) os ≡ some o) (sym same) h
  where
    same : o.id ≡ i
    same = (==_iff o.id i).0 (first-holds (has_id i) os o h)

-- From a well-formed database, however `cancelOrder` ends, the database is well formed and has the money
-- and the items of before.
pub cancel_order-IsKept :
    (order_id : RowId) (p : Uuid) (administrator : Bool) (s : Db)
    → IsConsistent s
    → IsKept s (cancel_order order_id p administrator s).1
unfolding cancel_order
cancel_order-IsKept order_id p administrator s c =
    transaction-keeps (IsKept s) _ s (IsKept-refl s c) (
      Ensures-gets _ _ _ _ (
        Ensures-or_throw _ _ _ _ _ λ o h. Ensures-guard _ _ _ _ _ λ _.
          Ensures-guard _ _ _ _ _ λ _.
            release_order-Ensures _ _ _ o s c (first-IsRow order_id s.orders o h) (λ s' k e. k)))

module _ (body : Order → Tx Db (Unit {0})) (I : List Order → Db → Type 0)
    (step : (o : Order) (os : List Order) (s : Db)
      → I (o ∷ os) s
      → Ensures (λ _ s'. I os s') (body o s)) where
  for_each-Ensures :
      (os : List Order) (s : Db) → I os s → Ensures (λ _ s'. I [] s') (for_each body os s)
  unfolding for_each
  for_each-Ensures [] s i = Ensures-pure _ _ _ i
  for_each-Ensures (o ∷ os) s i =
      Ensures-bind _ (λ _ s'. I os s') (body o) _ s (step o os s i)
        (λ _ s' j. for_each-Ensures os s' j)

-- The orders that a retired market has still to cancel stand in the table as they were read.
Retiring : Db → List Order → Db → Type 0
Retiring s os s' = IsKept s s' × All (IsRow s'.orders) os × Distinct os

retire_step :
    (refund deliver : String) (s : Db) (o : Order) (os : List Order) (s' : Db)
    → Retiring s (o ∷ os) s'
    → Ensures (λ _ s''. Retiring s os s'') (release_order refund deliver o s')
unfolding Retiring
retire_step refund deliver s o os s' (kept, rows, distinct) =
    release_order-Ensures _ refund deliver o s' kept.consistent rows.0 λ s'' k e. (
      IsKept-trans s s' s'' kept k,
      rw e (rows-update_order released s'.orders o os (λ x. refl) distinct.0 rows.1),
      distinct.1,
    )

-- From a well-formed database, however `retireMarket` ends, the database is well formed and has the money
-- and the items of before.
pub retire_market-IsKept :
    (market_id : RowId) (s : Db) → IsConsistent s → IsKept s (retire_market market_id s).1
unfolding retire_market Retiring set_market unbind
retire_market-IsKept market_id s c = transaction-keeps (IsKept s) _ s (IsKept-refl s c) (
    Ensures-gets _ _ _ _ (
      Ensures-or_throw _ _ _ _ _ λ identity _. Ensures-gets _ _ _ _ (
        Ensures-guard _ _ _ _ _ λ _. Ensures-gets _ _ _ _ (
          Ensures-or_throw _ _ _ _ _ λ market _. Ensures-guard _ _ _ _ _ λ _. Ensures-gets _ _ _ _ (
            Ensures-bind _ (λ _ s'. Retiring s [] s') _ _ s
              (for_each-Ensures _ (Retiring s) (retire_step _ _ s)
                (select (of_market market_id) s.orders) s
                (
                  IsKept-refl s c,
                  All-select (IsRow s.orders) (of_market market_id) s.orders
                      (All-IsRow s.next_order s.orders c.ids),
                  select-Distinct (of_market market_id) s.next_order s.orders c.ids,
                ))
              λ _ s' i. Ensures-assoc _ _ _ _ _ (
                Ensures-gets _ _ _ _ (
                  Ensures-assoc _ _ _ _ _ (
                    Ensures-modify _ _ _ _ (
                      Ensures-pure_bind _ _ _ _ (
                        Ensures-guard _ _ _ _ _
                          λ _. Ensures-modify_last _ _ _ (elsewhere s s' i.0)))))))))))
  where
    elsewhere :
        (s s' : Db) {bs : List TargetBinding} {ms : List Market}
        → IsKept s s'
        → IsKept s (record s' { bindings = bs; markets = ms })
    elsewhere s s' k = record {
      consistent = record {
        reconciled = k.consistent.reconciled;
        ids = k.consistent.ids;
        orders = k.consistent.orders;
        trades = k.consistent.trades;
      };
      money_kept = k.money_kept;
      items_kept = k.items_kept;
    }
