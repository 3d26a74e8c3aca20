-- ===== src/Bank.antt =====
-- Accounts and the append-only balance ledger: the statements over exchange_accounts and
-- exchange_balance_ledger in src/exchange_service.cpp (`ensureAccount`, `balance`, `addBalance`,
-- `lockedBalance`, `credit`, `debit`, `recordBalanceChange`).
-- An amount is a natural number, so the tests `amount < 0` of `credit` and `debit` have no counterpart.
-- BIGINT arithmetic out of range is an error of the statement.
pub mod Ledger
pub mod Opening
pub mod Success
use endstone_exchange.Common.{
  ℕ, ◌+◌, ◌-◌, String, Bool, not, ◌&&◌, Option, none, some, List, [], ◌∷◌, ltb, leb, ◌==◌,
  if◌then◌else◌, is_empty, str_eq,
}
use endstone_exchange.Common.Int.{ℤ, pos, neg_ℕ, ◌+ℤ◌, pos_part, ltb_ℤ}
use endstone_exchange.Money.{Cents, cents_max}
use endstone_exchange.Table.{first, update, affected}
use endstone_exchange.Tx.{Tx, Error, ok, err, ◌>>=◌, ◌>>◌, pure, throw_if, or_throw, gets, modify}

abbrev pub Uuid : Type 0
Uuid = String

pub record Account : Type 0 where
  pub player_uuid : Uuid
  pub player_name : String
  pub balance_cents : Cents

pub record LedgerEntry : Type 0 where
  pub player_uuid : Uuid
  pub delta_cents : ℤ
  pub reason : String
  pub reference_type : Option String
  pub reference_id : Option ℕ

pub record Bank : Type 0 where
  pub accounts : List Account
  pub ledger : List LedgerEntry

abbrev pub is_account : Uuid → Account → Bool
is_account p a = str_eq a.player_uuid p

-- NULL for an empty reference type
abbrev sql_reference_type : String → Option String
sql_reference_type t = if is_empty t then none else some t

unfoldable pub record_balance_change : Uuid → ℤ → String → String → Option ℕ → Tx Bank (Unit {0})
record_balance_change p delta reason reference_type reference_id = do
  throw_if (is_empty reason) Error.ledger_reason_empty
  modify λ b. record b {
    ledger =
        record {
          player_uuid = p;
          delta_cents = delta;
          reason = reason;
          reference_type = sql_reference_type reference_type;
          reference_id = reference_id;
        }
        ∷ b.ledger;
  }

-- UPDATE exchange_accounts SET balance_cents=balance_cents+amount WHERE player_uuid=p
abbrev overflowing : Uuid → Cents → Account → Bool
overflowing p amount a = is_account p a && ltb cents_max (a.balance_cents + amount)

abbrev raised : Cents → Account → Account
raised amount a = record a { balance_cents = a.balance_cents + amount }

unfoldable pub raise_balance : Uuid → Cents → Tx Bank ℕ
raise_balance p amount = do
  outside ← gets λ b. affected (overflowing p amount) b.accounts
  throw_if (ltb 0 outside) Error.value_out_of_range
  rows ← gets λ b. affected (is_account p) b.accounts
  modify λ b. record b { accounts = update (is_account p) (raised amount) b.accounts }
  pure rows

-- ... SET balance_cents=balance_cents-amount WHERE player_uuid=p AND balance_cents>=amount
abbrev covered : Uuid → Cents → Account → Bool
covered p amount a = is_account p a && leb amount a.balance_cents

abbrev lowered : Cents → Account → Account
lowered amount a = record a { balance_cents = a.balance_cents - amount }

pub lower_balance : Uuid → Cents → Tx Bank ℕ
lower_balance p amount = do
  rows ← gets λ b. affected (covered p amount) b.accounts
  modify λ b. record b { accounts = update (covered p amount) (lowered amount) b.accounts }
  pure rows

unfoldable pub credit_positive : Uuid → Cents → String → String → Option ℕ → Tx Bank (Unit {0})
unfolding raise_balance record_balance_change
credit_positive p amount reason reference_type reference_id = do
  rows ← raise_balance p amount
  throw_if (not (rows == 1)) Error.credit_account_missing
  record_balance_change p (pos amount) reason reference_type reference_id

unfoldable pub credit : Uuid → Cents → String → String → Option ℕ → Tx Bank (Unit {0})
unfolding credit_positive
credit p amount reason reference_type reference_id =
    if amount == 0 then pure tt else credit_positive p amount reason reference_type reference_id

debit_positive : Uuid → Cents → String → String → Option ℕ → Tx Bank (Unit {0})
unfolding lower_balance record_balance_change
debit_positive p amount reason reference_type reference_id = do
  rows ← lower_balance p amount
  throw_if (not (rows == 1)) Error.insufficient_balance
  record_balance_change p (neg_ℕ amount) reason reference_type reference_id

pub debit : Uuid → Cents → String → String → Option ℕ → Tx Bank (Unit {0})
unfolding debit_positive
debit p amount reason reference_type reference_id =
    if amount == 0 then pure tt else debit_positive p amount reason reference_type reference_id

-- `balance` and `lockedBalance` read the same cell; the second one under FOR UPDATE.
unfoldable pub locked_balance : Uuid → Tx Bank Cents
locked_balance p = do
  a ← or_throw (← gets λ b. first (is_account p) b.accounts) Error.account_missing
  pure a.balance_cents

-- INSERT IGNORE of a fresh account, or the new name for the one that is there
opened : Uuid → String → Cents → Tx Bank (Unit {0})
unfolding record_balance_change
opened p name initial = do
  modify λ b. record b {
    accounts = record { player_uuid = p; player_name = name; balance_cents = initial } ∷ b.accounts;
  }
  record_balance_change p (pos initial) "ACCOUNT_OPENED" "" none

renamed : Uuid → String → Tx Bank (Unit {0})
renamed p name = modify λ b. record b {
  accounts = update (is_account p) (λ a. record a { player_name = name }) b.accounts;
}

-- `ensureAccount` behind its test of the UUID, which stands outside the transaction
pub ensure_account_row : Uuid → String → Cents → Tx Bank (Unit {0})
unfolding opened renamed
ensure_account_row p name initial = do
  known ← gets λ b. affected (is_account p) b.accounts
  if known == 0 then opened p name initial else renamed p name

-- What the UPDATE of `addBalance` writes; its guards keep the sum at 0 or above.
abbrev adjusted : ℤ → Account → Account
adjusted delta a = record a { balance_cents = pos_part (pos a.balance_cents +ℤ delta) }

-- The transaction of `addBalance`
pub adjust_balance : Uuid → ℤ → Tx Bank Cents
unfolding locked_balance record_balance_change ◌+ℤ◌
adjust_balance p delta = do
  current ← locked_balance p
  throw_if (ltb_ℤ (pos current +ℤ delta) (pos 0)) Error.balance_negative
  throw_if (ltb_ℤ (pos 0) delta && ltb_ℤ (pos cents_max) (pos current +ℤ delta))
      Error.balance_too_large
  modify λ b. record b { accounts = update (is_account p) (adjusted delta) b.accounts }
  record_balance_change p delta "ADMIN_ADJUSTMENT" "" none
  pure (pos_part (pos current +ℤ delta))
