-- ===== src/Transfers/Once.antt =====
-- `completeEconomyTransfer` of src/exchange_service.cpp, called again.
use endstone_exchange.Tx.Run.{transaction-Ensures}
use endstone_exchange.Table.{first-update_map}
use endstone_exchange.Domain.{
  TransferStatus, is_deposit, transfer_is_completed, transfer_is_failed, RowId,
}
use endstone_exchange.Transfers.{
  completed_row, has_transfer, update_transfers, complete_body, settle_transfer, complete_transfer,
  find_transfer,
}
use endstone_exchange.Bank.Ledger.{credit-Moves}
use endstone_exchange.Bank.Opening.{locked_balance-same}
use endstone_exchange.Money.{Cents}
use endstone_exchange.Store.{Ensures-on_bank, Transfer, on_bank-same, on_bank, Db}
use endstone_exchange.Bank.{credit, Bank, locked_balance, Uuid}
use endstone_exchange.Common.{subst, ==_iff, refl, true, false, ◌≡◌, sym, ◌∙◌, ap, some, ◌==◌}
use endstone_exchange.Tx.{
  pure, Ensures-pure, transaction-again, Ensures-call, Ensures-modify, Ensures-mono, ◌>>◌,
  Ensures-if, throw_if, modify, Ensures-guard, Ensures-or_throw, or_throw, gets, Ensures-gets,
  ◌>>=◌, Result, ok, err, Ensures,
}

-- Reading a balance twice gives it twice.
reads_again :
    (p : Uuid) (s : Db)
    → Ensures
        (λ v s'. (s' ≡ s) × (on_bank (locked_balance p) s ≡ ok (v, s)))
        (on_bank (locked_balance p) s)
reads_again p s =
    go (on_bank (locked_balance p) s) refl
      (on_bank-same (locked_balance p) s (locked_balance-same p s.bank))
  where
    go :
        (r : Result (Cents × Db))
        → on_bank (locked_balance p) s ≡ r
        → Ensures (λ _ s'. s' ≡ s) r
        → Ensures (λ v s'. (s' ≡ s) × (on_bank (locked_balance p) s ≡ ok (v, s))) r
    go (ok (v, s')) e h = (h, e ∙ ap (λ x. ok (v, x)) h)
    go (err e) h k = tt

completed_again :
    (i : RowId) (t : Transfer) (s : Db) (v : Cents)
    → find_transfer i s ≡ some t
    → transfer_is_failed t.status ≡ false
    → transfer_is_completed t.status ≡ true
    → on_bank (locked_balance t.player_uuid) s ≡ ok (v, s)
    → complete_body i s ≡ ok (v, s)
unfolding complete_body ◌>>=◌ gets or_throw throw_if
completed_again i t s v found failed completed read = rw (found, failed, completed) read

-- The row that a transfer has been found by, behind its completion
completed_found :
    (i : RowId) (t : Transfer) (s : Db) (b' : Bank)
    → find_transfer i s ≡ some t
    → find_transfer i (update_transfers (has_transfer t.id) completed_row (record s { bank = b' }))
      ≡ some (completed_row t)
unfolding find_transfer update_transfers
completed_found i t s b' found =
    let same_id : (t.id == t.id) ≡ true = (==_iff t.id t.id).1 refl in
    rw same_id at (
      first-update_map (has_transfer i) (has_transfer t.id) completed_row s.transfers t (λ y. refl)
        found)

-- What `settle_transfer` leaves: the bank of a payment, the row completed, and a balance that can be read again
module _ (P : Cents → Db → Type 0) (t : Transfer) (s : Db)
    (settled : (b' : Bank) (v : Cents) (s' : Db)
      → s' ≡ update_transfers (has_transfer t.id) completed_row (record s { bank = b' })
      → on_bank
          (locked_balance t.player_uuid)
          (update_transfers (has_transfer t.id) completed_row (record s { bank = b' }))
        ≡ ok (v, update_transfers (has_transfer t.id) completed_row (record s { bank = b' }))
      → P v s') where
  settle_transfer-Ensures : Ensures P (settle_transfer t s)
  unfolding settle_transfer
  settle_transfer-Ensures = Ensures-guard _ _ _ _ _ λ _. Ensures-call _ _ _ _ (
      Ensures-if Rest (is_deposit t.direction)
        (on_bank
          (credit t.player_uuid t.amount_cents "UMONEY_DEPOSIT" "ECONOMY_TRANSFER" (some t.id)))
        (pure tt) s
        (λ _. Ensures-on_bank Rest _ s (
          Ensures-mono _ _ _
            (credit-Moves t.player_uuid t.amount_cents "UMONEY_DEPOSIT" "ECONOMY_TRANSFER"
              (some t.id) s.bank)
            λ _ b' _. paid b'))
        (λ _. Ensures-pure Rest tt s (paid s.bank)))
    where
      Rest : Unit {0} → Db → Type 0
      Rest u x = Ensures P (
          (modify (update_transfers (has_transfer t.id) completed_row)
              >> on_bank (locked_balance t.player_uuid))
            x)

      paid :
          (b' : Bank)
          → Ensures P (
              (modify (update_transfers (has_transfer t.id) completed_row)
                  >> on_bank (locked_balance t.player_uuid))
                (record s { bank = b' }))
      paid b' =
          Ensures-modify _ _ _ _
            (Ensures-mono _ _ _ (reads_again t.player_uuid _) λ v s' h. settled b' v s' h.0 h.1)

settle_transfer-again :
    (i : RowId) (t : Transfer) (s : Db)
    → find_transfer i s ≡ some t
    → Ensures (λ v s'. complete_body i s' ≡ ok (v, s')) (settle_transfer t s)
settle_transfer-again i t s found =
    settle_transfer-Ensures (λ v s'. complete_body i s' ≡ ok (v, s')) t s
      λ b' v s' same read.
        subst (λ x. complete_body i x ≡ ok (v, x)) (sym same)
          (completed_again i (completed_row t) _ v (completed_found i t s b' found) refl refl read)

read_again :
    (i : RowId) (t : Transfer) (s : Db)
    → find_transfer i s ≡ some t
    → transfer_is_failed t.status ≡ false
    → transfer_is_completed t.status ≡ true
    → Ensures (λ v s'. complete_body i s' ≡ ok (v, s')) (on_bank (locked_balance t.player_uuid) s)
read_again i t s found failed completed =
    Ensures-mono (λ v s'. (s' ≡ s) × (on_bank (locked_balance t.player_uuid) s ≡ ok (v, s))) _ _
      (reads_again t.player_uuid s)
      λ v s' h.
        subst (λ x. complete_body i x ≡ ok (v, x)) (sym h.0)
          (completed_again i t s v found failed completed h.1)

-- Once `completeEconomyTransfer` has answered with a balance, it answers with it again and changes
-- nothing.
pub complete_transfer-once :
    (i : RowId) (v : Cents) (s : Db)
    → (complete_transfer i s).0 ≡ ok v
    → complete_transfer i (complete_transfer i s).1 ≡ (ok v, (complete_transfer i s).1)
unfolding complete_transfer
complete_transfer-once i v s = transaction-again (complete_body i) s v once
  where
    once : Ensures (λ w s'. complete_body i s' ≡ ok (w, s')) (complete_body i s)
    once = Ensures-gets _ _ _ _ (
        Ensures-or_throw _ _ _ _ _ λ t found. Ensures-guard _ _ _ _ _ λ failed.
          Ensures-if _ (transfer_is_completed t.status) (on_bank (locked_balance t.player_uuid))
            (settle_transfer t) s (λ completed. read_again i t s found failed completed)
            (λ _. settle_transfer-again i t s found))

-- A transfer that is in the table and completed
abbrev pub IsCompleted : RowId → Db → Type 0
IsCompleted i s =
    (t : Transfer) × (find_transfer i s ≡ some t) × (t.status ≡ TransferStatus.completed)

status_completed :
    (x : TransferStatus) → transfer_is_completed x ≡ true → x ≡ TransferStatus.completed
status_completed TransferStatus.completed h = refl
status_completed x h = cc

-- Where `completeEconomyTransfer` has answered with a balance, the transfer is completed.
pub complete_transfer-IsCompleted :
    (i : RowId) (v : Cents) (s : Db)
    → (complete_transfer i s).0 ≡ ok v
    → IsCompleted i (complete_transfer i s).1
unfolding complete_transfer complete_body
complete_transfer-IsCompleted i v s =
    transaction-Ensures (λ _ s'. IsCompleted i s') (complete_body i) s v
      (Ensures-gets _ _ _ _ (
        Ensures-or_throw _ _ _ _ _ λ t found. Ensures-guard _ _ _ _ _ λ _.
          Ensures-if _ (transfer_is_completed t.status) (on_bank (locked_balance t.player_uuid))
            (settle_transfer t) s
            (λ completed.
              Ensures-mono
                (λ v s'. (s' ≡ s) × (on_bank (locked_balance t.player_uuid) s ≡ ok (v, s))) _ _
                (reads_again t.player_uuid s)
                λ v s' h.
                  subst (IsCompleted i) (sym h.0) (t, found, status_completed t.status completed))
            (λ _.
              settle_transfer-Ensures (λ _ s'. IsCompleted i s') t s
                λ b' v s' same _.
                  subst (IsCompleted i) (sym same)
                    (completed_row t, completed_found i t s b' found, refl))))
