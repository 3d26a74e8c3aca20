-- ===== src/Transfers/Deficit.antt =====
-- `economyBackingDeficit` of src/exchange_service.cpp.
use endstone_exchange.Common.Int.{int_laws, eq_of_parts, ◌-ℤ◌}
use endstone_exchange.Matching.Invariant.{reserved_cell, IsOrder}
use endstone_exchange.Transfers.Backing.{withdrawn_cell, credited_cell, IsBacked}
use endstone_exchange.Domain.{
  transfer_is_failed, transfer_is_completed, TransferStatus, TransferDirection, transfer_is_blocked,
  is_open, transfer_is_prepared, transfer_is_external_applied, is_withdraw, is_deposit,
}
use endstone_exchange.Store.{Order, Db, Transfer}
use endstone_exchange.Transfers.{amount_of, pos, is_reached, backing_deficit}
use endstone_exchange.Table.{only, sum_of}
use endstone_exchange.Common.{
  ◌||◌, All, refl, ◌≡◌, arith, ℕ, ◌+◌, if◌then◌else◌, ◌&&◌, not, ◌∷◌, [], List,
}

-- The deposits that UMoney has paid and the exchange has still to credit
abbrev pub underway_cell : Transfer → ℕ
underway_cell t =
    if is_deposit t.direction && transfer_is_external_applied t.status then t.amount_cents else 0

open_reserves :
    (os : List Order)
    → All IsOrder os
    → sum_of (only (λ (o : Order). is_open o.status) (λ o. o.reserved_cents)) os
      ≡ sum_of reserved_cell os
unfolding sum_of
open_reserves [] a = refl
open_reserves (o ∷ os) a = ground (arith, open_reserves os a.1, a.0.reserved, a.0.closed)

abbrev pending_cell : Transfer → ℕ
pending_cell t =
    only
      (λ t.
        is_withdraw t.direction && (transfer_is_prepared t.status || transfer_is_blocked t.status))
      amount_of t

withdrawal_cells :
    (d : TransferDirection) (u : TransferStatus) (n : ℕ)
    → (if is_withdraw d && (transfer_is_prepared u || transfer_is_blocked u) then n else 0)
        + (if is_withdraw d && is_reached u then n else 0)
      ≡ (if is_withdraw d && not (transfer_is_failed u) then n else 0)
withdrawal_cells TransferDirection.deposit u n = refl
withdrawal_cells TransferDirection.withdraw TransferStatus.prepared n = omega arith
withdrawal_cells TransferDirection.withdraw TransferStatus.external_applied n = omega arith
withdrawal_cells TransferDirection.withdraw TransferStatus.completed n = omega arith
withdrawal_cells TransferDirection.withdraw TransferStatus.failed n = omega arith
withdrawal_cells TransferDirection.withdraw TransferStatus.blocked n = omega arith

withdrawals_split :
    (ts : List Transfer)
    → sum_of pending_cell ts
        + sum_of
            (only (λ (t : Transfer). is_withdraw t.direction && is_reached t.status) amount_of)
            ts
      ≡ sum_of withdrawn_cell ts
unfolding sum_of
withdrawals_split [] = refl
withdrawals_split (t ∷ ts) =
    omega (arith, withdrawals_split ts, withdrawal_cells t.direction t.status t.amount_cents)

deposit_cells :
    (d : TransferDirection) (u : TransferStatus) (n : ℕ)
    → (if is_deposit d && is_reached u then n else 0)
      ≡ (if is_deposit d && transfer_is_completed u then n else 0)
        + (if is_deposit d && transfer_is_external_applied u then n else 0)
deposit_cells TransferDirection.withdraw u n = refl
deposit_cells TransferDirection.deposit TransferStatus.prepared n = omega arith
deposit_cells TransferDirection.deposit TransferStatus.external_applied n = omega arith
deposit_cells TransferDirection.deposit TransferStatus.completed n = omega arith
deposit_cells TransferDirection.deposit TransferStatus.failed n = omega arith
deposit_cells TransferDirection.deposit TransferStatus.blocked n = omega arith

deposits_split :
    (ts : List Transfer)
    → sum_of (only (λ (t : Transfer). is_deposit t.direction && is_reached t.status) amount_of) ts
      ≡ sum_of credited_cell ts + sum_of underway_cell ts
unfolding sum_of
deposits_split [] = refl
deposits_split (t ∷ ts) =
    omega (arith, deposits_split ts, deposit_cells t.direction t.status t.amount_cents)

-- Where the money is backed by an opening sum, `economyBackingDeficit` is that sum less the deposits that
-- UMoney has paid and the exchange has still to credit.
pub backing_deficit-lem :
    (opening : ℕ) (s : Db)
    → IsBacked opening s
    → backing_deficit s ≡ pos opening -ℤ pos (sum_of underway_cell s.transfers)
unfolding backing_deficit
backing_deficit-lem opening s h = eq_of_parts _ _ (
    omega (
      int_laws,
      h.backed,
      open_reserves s.orders h.consistent.orders,
      withdrawals_split s.transfers,
      deposits_split s.transfers,
    ))
