-- ===== src/Transfers.antt =====
-- The transfers between the exchange and the server's currency (exchange_economy_transfers): the
-- functions named …EconomyTransfer… of src/exchange_service.cpp, and `economyBackingDeficit`.
-- The column operation_key, a UUID() that the database makes up and the service only hands on, is left out.
-- `error.substr(0, 500)` counts bytes; `slice` takes the whole characters among them.
pub mod Backing
pub mod Steps
pub mod Once
pub mod Attempts
pub mod Prepare
pub mod Deficit
use endstone_exchange.Common.{
  ℕ, suc, ◌+◌, String, Bool, not, ◌&&◌, ◌||◌, Option, none, some, List, [], ◌∷◌, ◌==◌,
  if◌then◌else◌, is_empty,
}
use Prim.Native.String.{slice}
use endstone_exchange.Common.Int.{ℤ, pos, ◌-ℤ◌, ◌+ℤ◌, pos_part, ltb_ℤ, leb_ℤ}
use endstone_exchange.Money.{Cents}
use endstone_exchange.Table.{select, first, update, affected, sum_of, only}
use endstone_exchange.Tx.{
  Result, ok, err, Tx, Error, Outcome, transaction, and_then, ◌>>=◌, ◌>>◌, pure, throw_if, or_throw,
  gets, modify,
}
use endstone_exchange.Bank.{Uuid, credit, debit, locked_balance}
use endstone_exchange.Domain.{
  RowId, TransferDirection, TransferStatus, is_deposit, is_withdraw, is_open, transfer_is_prepared,
  transfer_is_external_applied, transfer_is_completed, transfer_is_failed, transfer_is_blocked,
}
use endstone_exchange.Store.{Db, Transfer, on_bank}
use endstone_exchange.Reads.{sort_on, limited}
use endstone_exchange.Matching.{Service, ensure_account}

abbrev pub has_transfer : RowId → Transfer → Bool
has_transfer i t = t.id == i

abbrev pub is_prepared_transfer : RowId → Transfer → Bool
is_prepared_transfer i t = t.id == i && transfer_is_prepared t.status

unfoldable pub update_transfers : (Transfer → Bool) → (Transfer → Transfer) → Db → Db
unfolding update
update_transfers p f s = record s { transfers = update p f s.transfers }

-- `findEconomyTransfer`
unfoldable pub find_transfer : RowId → Db → Option Transfer
unfolding first
find_transfer i s = first (has_transfer i) s.transfers

abbrev pub safe_error : String → String
safe_error e = slice e 0 500

abbrev pub new_transfer :
    Uuid → String → TransferDirection → Cents → ℕ → Option ℤ → RowId → Transfer
new_transfer p name direction amount units before i = record {
  id = i;
  player_uuid = p;
  player_name = name;
  direction = direction;
  amount_cents = amount;
  amount_units = units;
  status = TransferStatus.prepared;
  external_balance_before_units = before;
  external_balance_units = none;
  attempt_count = 0;
  last_error = none;
}

-- The transaction of `prepareEconomyTransfer`: a withdrawal is taken from the balance at once.
unfoldable pub prepare_body : Uuid → String → TransferDirection → Cents → ℕ → Option ℤ → Tx Db RowId
prepare_body p name direction amount units before = do
  id ← gets λ s. s.next_transfer
  modify λ s. record s {
    transfers = new_transfer p name direction amount units before s.next_transfer ∷ s.transfers;
    next_transfer = suc s.next_transfer;
  }
  if is_withdraw direction
      then on_bank (debit p amount "UMONEY_WITHDRAW_RESERVED" "ECONOMY_TRANSFER" (some id))
      else pure tt
  pure id

-- The row is read again behind the transaction.
unfoldable pub reloaded : RowId → Db → Outcome Db Transfer
unfolding find_transfer
reloaded i s = elim (find_transfer i s) [
  | some t ↦ (ok t, s)
  | none ↦ (err Error.row_not_reloaded, s)
]

unfoldable pub prepare_transfer :
    Service → Uuid → String → TransferDirection → ℤ → ℤ → Option ℤ → Db → Outcome Db Transfer
unfolding prepare_body reloaded ensure_account
prepare_transfer c p name direction amount units before s =
    if is_empty p || is_empty name
    then (err Error.transfer_identity_incomplete, s)
    else if leb_ℤ amount (pos 0) || leb_ℤ units (pos 0)
    then (err Error.transfer_amount_not_positive, s)
    else and_then (ensure_account c p name)
        (λ _.
          and_then
            (transaction (prepare_body p name direction (pos_part amount) (pos_part units) before))
            reloaded)
        s

-- `pendingEconomyTransfers`
unfoldable pub pending_transfers : ℤ → Db → Result (List Transfer)
unfolding select sort_on limited
pending_transfers n s =
    if leb_ℤ n (pos 0) || ltb_ℤ (pos 100) n
    then err Error.query_limit_out_of_range
    else ok (
        limited (pos_part n) (
          sort_on (λ t. t.id)
            (select (λ t. transfer_is_prepared t.status || transfer_is_external_applied t.status)
              s.transfers)))

abbrev attempted : String → Transfer → Transfer
attempted e t = record t { attempt_count = suc t.attempt_count; last_error = some (safe_error e) }

-- `recordEconomyTransferAttempt`: one statement of its own, then a look at what it did not match.
unfoldable pub record_attempt : RowId → String → Db → Outcome Db (Unit {0})
unfolding update_transfers affected find_transfer
record_attempt i e s =
    let s' = update_transfers (is_prepared_transfer i) (attempted e) s in
    if affected (is_prepared_transfer i) s.transfers == 1
    then (ok tt, s')
    else elim (find_transfer i s') [
      | some t ↦
          if transfer_is_failed t.status
          then (err Error.prepared_transfer_missing, s')
          else (ok tt, s')
      | none ↦ (err Error.prepared_transfer_missing, s')
    ]

abbrev pub applied_externally : ℤ → Transfer → Transfer
applied_externally units t = record t {
  status = TransferStatus.external_applied;
  external_balance_units = some units;
  attempt_count = suc t.attempt_count;
  last_error = none;
}

unfoldable pub mark_body : RowId → ℤ → Tx Db (Unit {0})
unfolding update_transfers find_transfer
mark_body i units = do
  t ← or_throw (← gets (find_transfer i)) Error.transfer_missing
  throw_if (transfer_is_failed t.status || transfer_is_blocked t.status)
      Error.transfer_failed_or_blocked
  if transfer_is_prepared t.status
      then modify (update_transfers (has_transfer i) (applied_externally units))
      else pure tt

-- `markEconomyTransferExternalApplied`
unfoldable pub mark_external_applied : RowId → ℤ → Db → Outcome Db (Unit {0})
unfolding mark_body
mark_external_applied i units = transaction (mark_body i units)

abbrev pub completed_row : Transfer → Transfer
completed_row t = record t { status = TransferStatus.completed; last_error = none }

-- What is left of `completeEconomyTransfer` for a transfer that is applied outside and not completed
unfoldable pub settle_transfer : Transfer → Tx Db Cents
unfolding update_transfers
settle_transfer t = do
  throw_if (not (transfer_is_external_applied t.status)) Error.transfer_not_applied
  if is_deposit t.direction
      then on_bank
          (credit t.player_uuid t.amount_cents "UMONEY_DEPOSIT" "ECONOMY_TRANSFER" (some t.id))
      else pure tt
  modify (update_transfers (has_transfer t.id) completed_row)
  on_bank (locked_balance t.player_uuid)

unfoldable pub complete_body : RowId → Tx Db Cents
unfolding settle_transfer find_transfer
complete_body i = do
  t ← or_throw (← gets (find_transfer i)) Error.transfer_missing
  throw_if (transfer_is_failed t.status) Error.transfer_failed
  if transfer_is_completed t.status
      then on_bank (locked_balance t.player_uuid)
      else settle_transfer t

-- `completeEconomyTransfer`
unfoldable pub complete_transfer : RowId → Db → Outcome Db Cents
unfolding complete_body
complete_transfer i = transaction (complete_body i)

abbrev pub failed_row : String → Transfer → Transfer
failed_row e t = record t {
  status = TransferStatus.failed;
  attempt_count = suc t.attempt_count;
  last_error = some (safe_error e);
}

-- What `failEconomyTransfer` does to a prepared transfer: a withdrawal is paid back.
unfoldable pub refund_transfer : String → Transfer → Tx Db (Unit {0})
unfolding update_transfers
refund_transfer e t = do
  if is_withdraw t.direction
      then on_bank (
          credit t.player_uuid t.amount_cents "UMONEY_WITHDRAW_REFUND" "ECONOMY_TRANSFER"
            (some t.id))
      else pure tt
  modify (update_transfers (has_transfer t.id) (failed_row e))

unfoldable pub fail_body : RowId → String → Tx Db Cents
unfolding refund_transfer find_transfer
fail_body i e = do
  t ← or_throw (← gets (find_transfer i)) Error.transfer_missing
  throw_if
      (transfer_is_external_applied t.status
        || transfer_is_completed t.status
        || transfer_is_blocked t.status)
      Error.transfer_applied
  if transfer_is_prepared t.status then refund_transfer e t else pure tt
  on_bank (locked_balance t.player_uuid)

-- `failEconomyTransfer`
unfoldable pub fail_transfer : RowId → String → Db → Outcome Db Cents
unfolding fail_body
fail_transfer i e = transaction (fail_body i e)

abbrev pub blocked_row : String → Transfer → Transfer
blocked_row e t = record t {
  status = TransferStatus.blocked;
  attempt_count = suc t.attempt_count;
  last_error = some (safe_error e);
}

-- `blockEconomyTransfer`: one statement of its own.
unfoldable pub block_transfer : RowId → String → Db → Outcome Db (Unit {0})
unfolding update_transfers affected
block_transfer i e s =
    let s' = update_transfers (is_prepared_transfer i) (blocked_row e) s in
    if affected (is_prepared_transfer i) s.transfers == 1
    then (ok tt, s')
    else (err Error.prepared_transfer_missing, s')

-- `pendingEconomyTransferCount`
unfoldable pub pending_transfer_count : Db → ℕ
unfolding affected
pending_transfer_count s =
    affected
      (λ t.
        transfer_is_prepared t.status
        || transfer_is_external_applied t.status
        || transfer_is_blocked t.status)
      s.transfers

abbrev pub amount_of : Transfer → Cents
amount_of t = t.amount_cents

abbrev pub is_reached : TransferStatus → Bool
is_reached t = transfer_is_external_applied t || transfer_is_completed t

-- `economyBackingDeficit`, which is below 0 where more came in than the exchange owes.
unfoldable pub backing_deficit : Db → ℤ
unfolding sum_of ◌-ℤ◌ ◌+ℤ◌
backing_deficit s =
    pos (
      sum_of (λ a. a.balance_cents) s.bank.accounts
      + sum_of (only (λ o. is_open o.status) (λ o. o.reserved_cents)) s.orders
      + sum_of
          (only
            (λ t.
              is_withdraw t.direction
              && (transfer_is_prepared t.status || transfer_is_blocked t.status))
            amount_of)
          s.transfers)
    -ℤ pos
        (sum_of (only (λ t. is_deposit t.direction && is_reached t.status) amount_of) s.transfers)
    +ℤ pos
        (sum_of (only (λ t. is_withdraw t.direction && is_reached t.status) amount_of) s.transfers)
