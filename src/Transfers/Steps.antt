-- ===== src/Transfers/Steps.antt =====
-- The operations of src/exchange_service.cpp on an economy transfer that is there, and the internal money.
use endstone_exchange.Transfers.Backing.{
  changed_row, IsBacked, credited_cell, found_row, plain_update, prepared_of, status_applied,
  status_prepared, withdrawn_cell,
}
use endstone_exchange.Common.Int.{ℤ}
use endstone_exchange.Bank.Ledger.{credit-Moves, Moves-refl}
use endstone_exchange.Bank.Opening.{locked_balance-same}
use endstone_exchange.Bank.{locked_balance, Uuid}
use endstone_exchange.Transfers.{
  ok, err, failed_row, complete_transfer, refund_transfer, attempted, fail_transfer, completed_row,
  applied_externally, find_transfer, blocked_row, is_prepared_transfer, record_attempt,
  settle_transfer, mark_external_applied, update_transfers, block_transfer, has_transfer,
}
use endstone_exchange.Domain.{
  TransferDirection, transfer_is_external_applied, TransferStatus, transfer_is_failed,
  transfer_is_completed, is_withdraw, RowId, is_deposit,
}
use endstone_exchange.Store.{on_bank-same, Ensures-on_bank, on_bank, Transfer, Db}
use endstone_exchange.Common.{
  ◌==◌, subst, refl, true, false, ◌≡◌, arith, sym, inl, inr, ℕ, ◌+◌, String, Option, none, some,
  if◌then◌else◌, not, Bool-cases,
}
use endstone_exchange.Tx.{
  Error, Outcome, Ensures-pure, Ensures-modify_last, Ensures-or_throw, Ensures-gets, Ensures-modify,
  transaction-keeps, Ensures-mono, Ensures-if, Ensures-call, Ensures-guard, Ensures,
}
use endstone_exchange.Table.{affected, first}

-- However `recordEconomyTransferAttempt` ends, money that was backed by an opening sum is backed by it.
pub record_attempt-IsBacked :
    (i : RowId) (e : String) (opening : ℕ) (s : Db)
    → IsBacked opening s
    → IsBacked opening (record_attempt i e s).1
unfolding record_attempt
record_attempt-IsBacked i e opening s h =
    elim (Bool-cases (affected (is_prepared_transfer i) s.transfers == 1)) [
      | inl z ↦ rw z done
      | inr z ↦
          rw z
            (looked (find_transfer i (update_transfers (is_prepared_transfer i) (attempted e) s)))
    ]
  where
    after : Db
    after = update_transfers (is_prepared_transfer i) (attempted e) s

    done : IsBacked opening after
    done =
        plain_update opening s (is_prepared_transfer i) (attempted e) (λ x. refl) (λ x p. refl)
          (λ x p. refl) h

    looked :
        (o : Option Transfer)
        → IsBacked opening
            (elim o as (λ _. Outcome Db (Unit {0})) [
              | some t ↦
                  if transfer_is_failed t.status
                  then (err Error.prepared_transfer_missing, after)
                  else (ok tt, after)
              | none ↦ (err Error.prepared_transfer_missing, after)
            ]).1
    looked none = done
    looked (some t) = elim (Bool-cases (transfer_is_failed t.status)) [
      | inl z ↦ rw z done
      | inr z ↦ rw z done
    ]

-- However `blockEconomyTransfer` ends, money that was backed by an opening sum is backed by it.
pub block_transfer-IsBacked :
    (i : RowId) (e : String) (opening : ℕ) (s : Db)
    → IsBacked opening s
    → IsBacked opening (block_transfer i e s).1
unfolding block_transfer
block_transfer-IsBacked i e opening s h =
    elim (Bool-cases (affected (is_prepared_transfer i) s.transfers == 1)) [
      | inl z ↦ rw z done
      | inr z ↦ rw z done
    ]
  where
    done : IsBacked opening (update_transfers (is_prepared_transfer i) (blocked_row e) s)
    done =
        plain_update opening s (is_prepared_transfer i) (blocked_row e) (λ x. refl)
          (λ x p. rw (prepared_of i x p)) (λ x p. rw (prepared_of i x p)) h

-- However `markEconomyTransferExternalApplied` ends, money that was backed by an opening sum is backed by
-- it.
pub mark_external_applied-IsBacked :
    (i : RowId) (units : ℤ) (opening : ℕ) (s : Db)
    → IsBacked opening s
    → IsBacked opening (mark_external_applied i units s).1
unfolding mark_external_applied find_transfer update_transfers
mark_external_applied-IsBacked i units opening s h = transaction-keeps (IsBacked opening) _ s h (
    Ensures-gets _ _ _ _ (
      Ensures-or_throw _ _ _ _ _ λ t found. Ensures-guard _ _ _ _ _ λ _.
        Ensures-if _ _ _ _ _
          (λ p. Ensures-modify_last _ _ _ (marked t found (status_prepared t.status p)))
          (λ _. Ensures-pure _ _ _ h)))
  where
    marked :
        (t : Transfer)
        → first (has_transfer i) s.transfers ≡ some t
        → t.status ≡ TransferStatus.prepared
        → IsBacked opening (update_transfers (has_transfer i) (applied_externally units) s)
    marked t found p =
        changed_row opening s h i t found (applied_externally units) (λ x. refl) 0 0 s.bank
          (Moves-refl t.player_uuid s.bank) (rw p (omega arith))

-- A second bank move of nothing
pub reading :
    (p : Uuid) (s : Db) (k : Db → Type 0)
    → k s
    → Ensures (λ _ s'. k s') (on_bank (locked_balance p) s)
reading p s k h =
    Ensures-mono _ _ _ (on_bank-same (locked_balance p) s (locked_balance-same p s.bank))
      (λ a s' e. subst k (sym e) h)

withdraw_not : (d : TransferDirection) → is_withdraw d ≡ not (is_deposit d)
withdraw_not TransferDirection.deposit = refl
withdraw_not TransferDirection.withdraw = refl

settle_transfer-IsBacked :
    (opening : ℕ) (s : Db) (t : Transfer)
    → IsBacked opening s
    → first (has_transfer t.id) s.transfers ≡ some t
    → Ensures (λ _ s'. IsBacked opening s') (settle_transfer t s)
unfolding settle_transfer update_transfers
settle_transfer-IsBacked opening s t h found = Ensures-guard _ _ _ _ _ λ guard.
    Ensures-call _ _ _ _ (
      Ensures-if _ _ _ _ _
        (λ d. Ensures-on_bank _ _ _ (
          Ensures-mono _ _ _
            (credit-Moves t.player_uuid t.amount_cents "UMONEY_DEPOSIT" "ECONOMY_TRANSFER"
              (some t.id) s.bank)
            λ _ b' moved. Ensures-modify _ _ _ _ (
              reading _ _ _ (
                changed_row opening s h t.id t found completed_row (λ x. refl) t.amount_cents 0 b'
                  moved (booked t (ground arith) d)))))
        (λ d. Ensures-pure _ _ _ (
          Ensures-modify _ _ _ _ (
            reading _ _ _ (
              changed_row opening s h t.id t found completed_row (λ x. refl) 0 0 s.bank
                (Moves-refl _ _) (stays t (ground arith) d))))))
  where
    booked :
        (t : Transfer)
        → transfer_is_external_applied t.status ≡ true
        → is_deposit t.direction ≡ true
        → t.amount_cents + withdrawn_cell (completed_row t) + credited_cell t
          ≡ 0 + credited_cell (completed_row t) + withdrawn_cell t
    booked t a d = rw (withdraw_not t.direction, d, status_applied t.status a) (omega arith)

    stays :
        (t : Transfer)
        → transfer_is_external_applied t.status ≡ true
        → is_deposit t.direction ≡ false
        → 0 + withdrawn_cell (completed_row t) + credited_cell t
          ≡ 0 + credited_cell (completed_row t) + withdrawn_cell t
    stays t a d = rw (withdraw_not t.direction, d, status_applied t.status a) (omega arith)

-- However `completeEconomyTransfer` ends, money that was backed by an opening sum is backed by it.
pub complete_transfer-IsBacked :
    (i : RowId) (opening : ℕ) (s : Db)
    → IsBacked opening s
    → IsBacked opening (complete_transfer i s).1
unfolding complete_transfer find_transfer
complete_transfer-IsBacked i opening s h = transaction-keeps (IsBacked opening) _ s h (
    Ensures-gets _ _ _ _ (
      Ensures-or_throw _ _ _ _ _ λ t found. Ensures-guard _ _ _ _ _ λ _.
        Ensures-if _ (transfer_is_completed t.status) (on_bank (locked_balance t.player_uuid))
          (settle_transfer t) s (λ _. reading t.player_uuid s (IsBacked opening) h)
          (λ _. settle_transfer-IsBacked opening s t h (found_row i s.transfers t found))))

refund_transfer-IsBacked :
    (opening : ℕ) (s : Db) (e : String) (t : Transfer)
    → IsBacked opening s
    → first (has_transfer t.id) s.transfers ≡ some t
    → t.status ≡ TransferStatus.prepared
    → Ensures (λ _ s'. IsBacked opening s') (refund_transfer e t s)
unfolding refund_transfer update_transfers
refund_transfer-IsBacked opening s e t h found p = Ensures-call _ _ _ _ (
    Ensures-if _ _ _ _ _
      (λ d. Ensures-on_bank _ _ _ (
        Ensures-mono _ _ _
          (credit-Moves t.player_uuid t.amount_cents "UMONEY_WITHDRAW_REFUND" "ECONOMY_TRANSFER"
            (some t.id) s.bank)
          λ _ b' moved. Ensures-modify_last _ _ _ (
            changed_row opening s h t.id t found (failed_row e) (λ x. refl) t.amount_cents 0 b'
              moved (back t p d))))
      (λ d. Ensures-pure _ _ _ (
        Ensures-modify_last _ _ _ (
          changed_row opening s h t.id t found (failed_row e) (λ x. refl) 0 0 s.bank
            (Moves-refl _ _) (same t p d)))))
  where
    back :
        (t : Transfer)
        → t.status ≡ TransferStatus.prepared
        → is_withdraw t.direction ≡ true
        → t.amount_cents + withdrawn_cell (failed_row e t) + credited_cell t
          ≡ 0 + credited_cell (failed_row e t) + withdrawn_cell t
    back t q d = rw (q, d) (ground arith)

    same :
        (t : Transfer)
        → t.status ≡ TransferStatus.prepared
        → is_withdraw t.direction ≡ false
        → 0 + withdrawn_cell (failed_row e t) + credited_cell t
          ≡ 0 + credited_cell (failed_row e t) + withdrawn_cell t
    same t q d = rw (q, d) (ground arith)

-- However `failEconomyTransfer` ends, money that was backed by an opening sum is backed by it.
pub fail_transfer-IsBacked :
    (i : RowId) (e : String) (opening : ℕ) (s : Db)
    → IsBacked opening s
    → IsBacked opening (fail_transfer i e s).1
unfolding fail_transfer find_transfer
fail_transfer-IsBacked i e opening s h = transaction-keeps (IsBacked opening) _ s h (
    Ensures-gets _ _ _ _ (
      Ensures-or_throw _ _ _ _ _ λ t found. Ensures-guard _ _ _ _ _ λ _. Ensures-call _ _ _ _ (
        Ensures-if _ _ _ _ _
          (λ p.
            Ensures-mono _ _ _
              (refund_transfer-IsBacked opening s e t h (found_row i s.transfers t found)
                (status_prepared t.status p))
              λ _ s' k. reading t.player_uuid s' (IsBacked opening) k)
          (λ _. Ensures-pure _ _ _ (reading t.player_uuid s (IsBacked opening) h)))))
