-- ===== src/Escrows/Executed.antt =====
-- `executeSellEscrow` of src/exchange_service.cpp, and the items of an escrow.
use endstone_exchange.Bank.Opening.{locked_balance-same}
use endstone_exchange.Matching.PlaceSell.{place_sell_locked-IsPlaced}
use endstone_exchange.Matching.Placed.{IsPlaced}
use endstone_exchange.Table.{first-All}
use endstone_exchange.Matching.Invariant.{delivered-add_delivery, items, money, IsConsistent}
use endstone_exchange.Orders.{add_delivery}
use endstone_exchange.Store.{on_bank-same, Db, SellEscrow}
use endstone_exchange.Domain.{escrow_is_ordered, ExecutionResult, escrow_is_tagged, RowId}
use endstone_exchange.Escrows.{
  ordered_row, escrow_request, has_escrow, find_escrow, ordered_result, sell_tagged,
  execute_sell_escrow, update_escrows,
}
use endstone_exchange.Common.{refl, true, ◌≡◌, ◌≤◌, ◌<◌, arith, inl, inr, ◌⊎◌, ◌+◌, ◌-◌, some, All}
use endstone_exchange.Tx.{
  Ensures-pure, Ensures-guard, Ensures-modify, Ensures-if, Ensures-reader, Ensures-gets,
  Ensures-or_throw, transaction-keeps, Ensures-bind, Ensures,
}

-- An order has items, and the items of a tagged escrow are enough for its order.
pub record IsEscrow (e : SellEscrow) : Type 0 where
  pub some_items : 0 < e.requested_qty
  pub enough : escrow_is_tagged e.status ≡ true → e.requested_qty ≤ e.tagged_qty

-- What an execution does: nothing, or the tagged items of an escrow that was not ordered come in.
pub record IsExecuted (i : RowId) (s s' : Db) : Type 0 where
  pub consistent : IsConsistent s'
  pub money_kept : money s' ≡ money s
  pub items_in :
      (items s' ≡ items s)
      ⊎ ((e : SellEscrow) × (find_escrow i s ≡ some e)
          × (escrow_is_tagged e.status ≡ true)
          × (items s' ≡ items s + e.tagged_qty))

find_escrow-IsEscrow :
    (i : RowId) (s : Db) (e : SellEscrow)
    → All IsEscrow s.escrows
    → find_escrow i s ≡ some e
    → IsEscrow e
unfolding find_escrow
find_escrow-IsEscrow i s e k found = first-All IsEscrow (has_escrow i) s.escrows e k found

IsExecuted-refl : (i : RowId) (s : Db) → IsConsistent s → IsExecuted i s s
IsExecuted-refl i s c = record { consistent = c; money_kept = refl; items_in = inl refl }

sold_out :
    (i : RowId) (e : SellEscrow) (s t : Db) (x : ExecutionResult)
    → e.requested_qty ≤ e.tagged_qty
    → escrow_is_tagged e.status ≡ true
    → find_escrow i s ≡ some e
    → IsPlaced (escrow_request e) e.requested_qty s x t
    → IsExecuted i s (
        update_escrows (has_escrow e.id) (ordered_row x.order_id) (
          add_delivery e.player_uuid e.market_id
            (e.tagged_qty - e.requested_qty)
            "ESCROW_EXCESS"
            t))
unfolding update_escrows add_delivery
sold_out i e s t x enough tagged found placed = record {
  consistent = record {
    reconciled = placed.consistent.reconciled;
    ids = placed.consistent.ids;
    orders = placed.consistent.orders;
    trades = placed.consistent.trades;
  };
  money_kept = placed.money_kept;
  items_in = inr (
    e,
    found,
    tagged,
    omega (
      arith,
      placed.items_kept,
      enough,
      delivered-add_delivery e.player_uuid e.market_id (e.tagged_qty - e.requested_qty)
          "ESCROW_EXCESS" t,
    ),
  );
}

reading_result :
    (i : RowId) (e : SellEscrow) (s : Db)
    → IsConsistent s
    → Ensures (λ _ s'. IsExecuted i s s') (ordered_result e s)
unfolding ordered_result
reading_result i e s c = Ensures-or_throw _ _ _ _ _ λ order_id _. Ensures-gets _ _ _ _ (
    Ensures-or_throw _ _ _ _ _ λ order _. Ensures-gets _ _ _ _ (
      Ensures-gets _ _ _ _ (
        Ensures-reader _ _ _ s (on_bank-same _ s (locked_balance-same e.player_uuid s.bank))
          λ balance. Ensures-pure _ _ _ (IsExecuted-refl i s c))))

selling_tagged :
    (i : RowId) (e : SellEscrow) (s : Db)
    → IsConsistent s
    → IsEscrow e
    → find_escrow i s ≡ some e
    → escrow_is_tagged e.status ≡ true
    → Ensures (λ _ s'. IsExecuted i s s') (sell_tagged e s)
unfolding sell_tagged
selling_tagged i e s c k found tagged =
    Ensures-bind _ (IsPlaced (escrow_request e) e.requested_qty s) _ _ s
      (place_sell_locked-IsPlaced (escrow_request e) s k.some_items c)
      λ x t placed. Ensures-modify _ _ _ _ (
        Ensures-modify _ _ _ _
          (Ensures-pure _ _ _ (sold_out i e s t x (k.enough tagged) tagged found placed)))

-- From a well-formed database whose escrows have items, and tagged ones enough for their orders, however
-- `executeSellEscrow` ends, the database is well formed and has the money of before; and the items are
-- those of before, or all the tagged items of the escrow, which was tagged and not ordered, have come in.
pub execute_sell_escrow-IsExecuted :
    (i : RowId) (s : Db)
    → IsConsistent s
    → All IsEscrow s.escrows
    → IsExecuted i s (execute_sell_escrow i s).1
unfolding execute_sell_escrow
execute_sell_escrow-IsExecuted i s c k =
    transaction-keeps (IsExecuted i s) _ s (IsExecuted-refl i s c) (
      Ensures-gets _ _ _ _ (
        Ensures-or_throw _ _ _ _ _ λ e found.
          Ensures-if _ (escrow_is_ordered e.status) (ordered_result e) _ s
            (λ _. reading_result i e s c)
            (λ _. Ensures-guard _ _ _ _ _ λ tagged.
              selling_tagged i e s c (find_escrow-IsEscrow i s e k found) found (ground arith))))
