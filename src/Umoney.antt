-- ===== src/Umoney.antt =====
-- Transfers from and to UMoney, the currency of the server: `decideUmoneyMutation` of
-- include/endstone_exchange/umoney_gateway.hpp and `processEconomyTransfer` of src/plugin.cpp. The
-- UMoney plugin itself is not code of the repository: `Gateway` is what src/umoney_gateway.cpp calls of
-- it. The log lines are left out, and an exception carries its kind in place of its text.
pub mod Once
pub mod Backed
pub mod Settled
pub mod Direct
pub mod Funded
use endstone_exchange.Common.{ℕ, String, Bool, true, false, Option, none, some, if◌then◌else◌}
use endstone_exchange.Common.Int.{ℤ, pos, neg_ℕ, ◌+ℤ◌, ◌-ℤ◌, ltb_ℤ, leb_ℤ, eqb_ℤ}
use endstone_exchange.Money.{cents_max}
use endstone_exchange.Tx.{Result, ok, err, Error, Outcome, and_then}
use endstone_exchange.Domain.{
  TransferDirection, is_deposit, transfer_is_prepared, transfer_is_external_applied,
  transfer_is_completed,
}
use endstone_exchange.Store.{Db, Transfer}
use endstone_exchange.Transfers.{
  find_transfer, block_transfer, fail_transfer, complete_transfer, mark_external_applied,
  record_attempt,
}

-- `UmoneyMutationDecision`
pub data Decision : Type 0 where
  apply already_applied conflict insufficient : Decision

-- The comparison of the current balance with the two that are possible
abbrev pub compare_balance : ℤ → ℤ → ℤ → Decision
compare_balance expected before current =
    if eqb_ℤ current expected
    then Decision.already_applied
    else if eqb_ℤ current before
    then Decision.apply
    else Decision.conflict

unfoldable pub decide_mutation : TransferDirection → ℤ → ℤ → ℤ → Decision
unfolding ◌+ℤ◌ ◌-ℤ◌
decide_mutation TransferDirection.deposit amount before current =
    if leb_ℤ amount (pos 0)
    then Decision.conflict
    else if ltb_ℤ before amount
    then if eqb_ℤ current before then Decision.insufficient else Decision.conflict
    else compare_balance (before -ℤ amount) before current
decide_mutation TransferDirection.withdraw amount before current =
    if leb_ℤ amount (pos 0)
    then Decision.conflict
    else if ltb_ℤ (pos cents_max -ℤ amount) before
    then Decision.conflict
    else compare_balance (before +ℤ amount) before current

abbrev pub is_already_applied : Decision → Bool
is_already_applied Decision.apply = false
is_already_applied Decision.already_applied = true
is_already_applied Decision.conflict = false
is_already_applied Decision.insufficient = false

-- What the UMoney plugin offers: the balance of a player, if it knows the player, and a change of it.
-- Each call may throw; a change that throws may have happened.
pub record Gateway (W : Type 0) : Type 0 where
  pub read : String → W → Result (Option ℤ)
  pub change : String → ℤ → W → Outcome W (Unit {0})

module _ {W : Type 0} (g : Gateway W) (what : Error → String) where
  -- A call of the service, and one of the gateway
  abbrev pub on_service : {A : Type 0} → (Db → Outcome Db A) → Db × W → Outcome (Db × W) A
  on_service f (s, w) = let (r, s') = f s in (r, (s', w))

  abbrev on_change : String → ℤ → Db × W → Outcome (Db × W) (Unit {0})
  on_change name delta (s, w) = let (r, w') = g.change name delta w in (r, (s, w'))

  abbrev pub on_read : String → Db × W → Outcome (Db × W) ℤ
  on_read name (s, w) = elim (g.read name w) [
    | err e ↦ (err e, (s, w))
    | ok none ↦ (err Error.account_missing, (s, w))
    | ok (some b) ↦ (ok b, (s, w))
  ]

  abbrev delta_of : Transfer → ℤ
  delta_of t = if is_deposit t.direction then neg_ℕ t.amount_units else pos t.amount_units

  -- An exception behind the call that records its cause, or `false`
  abbrev stopped : Bool → Error → Db × W → Outcome (Db × W) Bool
  stopped throw_on_failure e x = if throw_on_failure then (err e, x) else (ok false, x)

  abbrev blocked : Transfer → Bool → Error → Db × W → Outcome (Db × W) Bool
  blocked t throw_on_failure e =
      and_then (on_service (block_transfer t.id (what e))) (λ _. stopped throw_on_failure e)

  -- The external operation is done: it is noted, and then booked.
  unfoldable pub book_transfer : Transfer → ℤ → Db × W → Outcome (Db × W) Bool
  book_transfer t balance =
      and_then (on_service (mark_external_applied t.id balance))
        (λ _. and_then (on_service (complete_transfer t.id)) (λ _ x. (ok true, x)))

  -- The balance behind the change has to be the one that is expected.
  unfoldable pub apply_change : Transfer → ℤ → Db × W → Outcome (Db × W) Bool
  unfolding decide_mutation book_transfer
  apply_change t before = and_then (on_change t.player_name (delta_of t)) (λ _.
      and_then (on_read t.player_name) (λ applied x.
        if is_already_applied (decide_mutation t.direction (pos t.amount_units) before applied)
        then book_transfer t applied x
        else and_then (on_service (block_transfer t.id (what Error.transfer_not_applied)))
            (λ _ y. (err Error.transfer_not_applied, y)) x))

  unfoldable pub decided : Transfer → Bool → ℤ → ℤ → Decision → Db × W → Outcome (Db × W) Bool
  unfolding apply_change book_transfer
  decided t throw_on_failure before current Decision.insufficient =
      and_then (on_service (fail_transfer t.id (what Error.insufficient_balance)))
        (λ _. stopped throw_on_failure Error.insufficient_balance)
  decided t throw_on_failure before current Decision.conflict =
      blocked t throw_on_failure Error.transfer_not_applied
  decided t throw_on_failure before current Decision.apply = apply_change t before
  decided t throw_on_failure before current Decision.already_applied = book_transfer t current

  -- The handler: the attempt is recorded while the transfer is still prepared.
  unfoldable pub caught : Transfer → Bool → Outcome (Db × W) Bool → Outcome (Db × W) Bool
  unfolding find_transfer
  caught t throw_on_failure (ok b, x) = (ok b, x)
  caught t throw_on_failure (err e, (s, w)) = elim (find_transfer t.id s) [
    | none ↦ stopped throw_on_failure e (s, w)
    | some t' ↦
        if transfer_is_prepared t'.status
        then and_then (on_service (record_attempt t.id (what e))) (λ _. stopped throw_on_failure e)
            (s, w)
        else stopped throw_on_failure e (s, w)
  ]

  unfoldable pub attempt : Transfer → Bool → ℤ → Db × W → Outcome (Db × W) Bool
  unfolding decided decide_mutation caught
  attempt t throw_on_failure before x = caught t throw_on_failure (
      and_then (on_read t.player_name)
        (λ current.
          decided t throw_on_failure before current
            (decide_mutation t.direction (pos t.amount_units) before current))
        x)

  -- `processEconomyTransfer` where the service and the gateway exist
  unfoldable pub process_transfer : Transfer → Bool → Db × W → Outcome (Db × W) Bool
  unfolding attempt
  process_transfer t throw_on_failure x =
      if transfer_is_completed t.status
      then (ok true, x)
      else if transfer_is_external_applied t.status
      then and_then (on_service (complete_transfer t.id)) (λ _ y. (ok true, y)) x
      else if transfer_is_prepared t.status
      then elim t.external_balance_before_units [
        | none ↦ blocked t throw_on_failure Error.transfer_not_applied x
        | some before ↦ attempt t throw_on_failure before x
      ]
      else (ok false, x)
