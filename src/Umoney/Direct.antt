-- ===== src/Umoney/Direct.antt =====
-- How orders and purchases are paid from UMoney, in src/plugin.cpp: `spendableBalance`, `fundDirectBalance` and
-- `sweepDirectBalances`, with a gateway. The accounts that a sweep works on are an argument, in the order in
-- which `positiveBalances` has them.
use endstone_exchange.Common.Int.{sub_ℕ, neg_part, ltb_ℤ, pos_part, leb_ℤ, pos, ℤ}
use endstone_exchange.Common.{
  Bool, ◌-◌, false, suc, true, ◌||◌, some, ◌*◌, ltb, [], ◌%◌, ◌==◌, ◌+◌, if◌then◌else◌, ◌∷◌, List,
  ◌/◌, String, ℕ,
}
use endstone_exchange.Money.{cents_max}
use endstone_exchange.Tx.{ok, err, Error, Outcome, and_then}
use endstone_exchange.Bank.{Uuid}
use endstone_exchange.Domain.{TransferDirection}
use endstone_exchange.Store.{Db}
use endstone_exchange.Matching.{Service}
use endstone_exchange.Markets.Views.{balance}
use endstone_exchange.Transfers.{prepare_transfer}
use endstone_exchange.Umoney.{Gateway, on_service, on_read, process_transfer}

-- `AccountBalance`
pub record AccountBalance : Type 0 where
  pub player_uuid : Uuid
  pub player_name : String
  pub balance_cents : ℕ

-- `UmoneyUnitCents`
abbrev pub unit_cents : ℕ
unit_cents = 100

-- The units that make up a shortage, rounded up
abbrev pub units_for : ℕ → ℕ
units_for shortage = shortage / unit_cents + (if shortage % unit_cents == 0 then 0 else 1)

module _ {W : Type 0} (g : Gateway W) (what : Error → String) (c : Service) where
  abbrev pub Action : Type 0 → Type 0
  Action A = Db × W → Outcome (Db × W) A

  -- The sum of what the exchange and UMoney hold, where both fit
  abbrev combined : ℕ → ℤ → Action ℤ
  combined exchange external x =
      if ltb (cents_max / unit_cents) (pos_part external)
        || ltb (suc cents_max / unit_cents) (neg_part external)
        || ltb (cents_max - exchange) (pos_part external * unit_cents)
      then (err Error.funding_too_large, x)
      else (
        ok (sub_ℕ (pos_part external * unit_cents + exchange) (neg_part external * unit_cents)),
        x,
      )

  -- `spendableBalance`
  unfoldable pub spendable_balance : Uuid → String → Action ℤ
  spendable_balance p name =
      and_then (on_service g what (balance p))
        λ exchange. and_then (on_read g what name) λ external. combined exchange external

  -- The funding has to be done, and the balance has to be there.
  unfoldable pub confirm_funding : Uuid → ℤ → Bool → Action (Unit {0})
  confirm_funding p required false x = (err Error.transfer_not_applied, x)
  confirm_funding p required true x =
      and_then (on_service g what (balance p))
        (λ b y. if ltb_ℤ (pos b) required then (err Error.transfer_not_applied, y) else (ok tt, y))
        x

  unfoldable pub deposit_units : Uuid → String → ℤ → ℕ → ℤ → Action (Unit {0})
  deposit_units p name required units external =
      and_then
        (on_service g what (
          prepare_transfer c p name TransferDirection.deposit (pos (units * unit_cents)) (pos units)
            (some external)))
        λ t. and_then (process_transfer g what t true) (confirm_funding p required)

  abbrev pub fund_from : Uuid → String → ℤ → ℕ → ℤ → Action (Unit {0})
  fund_from p name required units external x =
      if ltb_ℤ external (pos units)
      then (err Error.insufficient_balance, x)
      else deposit_units p name required units external x

  abbrev pub too_large : Action (Unit {0})
  too_large x = (err Error.funding_too_large, x)

  abbrev pub fund_shortage : Uuid → String → ℤ → ℕ → Action (Unit {0})
  fund_shortage p name required units =
      if units == 0 || ltb (cents_max / unit_cents) units
      then too_large
      else and_then (on_read g what name) (fund_from p name required units)

  -- `fundDirectBalance`
  unfoldable pub fund_direct : Uuid → String → ℤ → Action (Unit {0})
  fund_direct p name required =
      if leb_ℤ required (pos 0)
      then (λ x. (ok tt, x))
      else and_then (on_service g what (balance p)) λ b x.
        if leb_ℤ required (pos b)
        then (ok tt, x)
        else fund_shortage p name required (units_for (pos_part required - b)) x

  -- An exception of an account is logged, and the next one follows.
  abbrev logged : {A : Type 0} → Outcome (Db × W) A → Db × W
  logged (r, x) = x

  -- One account of `sweepDirectBalances`
  unfoldable pub sweep_account : AccountBalance → Db × W → Db × W
  sweep_account a x =
      let units = a.balance_cents / unit_cents in
      if units == 0
      then x
      else logged (
          and_then (on_read g what a.player_name)
            (λ external.
              and_then
                (on_service g what (
                  prepare_transfer c a.player_uuid a.player_name TransferDirection.withdraw
                    (pos (units * unit_cents)) (pos units) (some external)))
                λ t. process_transfer g what t false)
            x)

  -- `sweepDirectBalances`
  unfoldable pub sweep_direct : List AccountBalance → Db × W → Db × W
  sweep_direct [] x = x
  sweep_direct (a ∷ accounts) x = sweep_direct accounts (sweep_account a x)
