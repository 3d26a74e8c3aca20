-- ===== src/Bank/Opening.antt =====
-- What opening an account does to the balances, in src/exchange_service.cpp, and the balance of a row.
use endstone_exchange.Bank.Ledger.{
  IsReconciled, balance_cell, balance_of, ledger_sum, ledger_up, total_balance,
}
use text.Mathlib.TextEquality.{eq_iff}
use endstone_exchange.Common.{
  some, sym, ℕ, ◌+◌, ◌⊎◌, String, ◌≡◌, refl, true, ◌∷◌, arith, ◌==◌, inl, inr, ==_iff,
}
use endstone_exchange.Common.Int.{pos}
use endstone_exchange.Table
use endstone_exchange.Table.{first, update, affected, sum_of, only}
use endstone_exchange.Tx.{
  Ensures, Ensures-guard, Ensures-or_throw, Ensures-if, Ensures-pure, Ensures-gets, Ensures-modify,
  Ensures-modify_last,
}
use endstone_exchange.Bank.{
  Uuid, Account, LedgerEntry, Bank, is_account, ensure_account_row, locked_balance,
}

-- A new account of an unknown player, with the entry that opens it.
opened-IsReconciled :
    (p : Uuid) (name : String) (initial : ℕ) (e : LedgerEntry) (b : Bank)
    → e.player_uuid ≡ p
    → e.delta_cents ≡ pos initial
    → affected (is_account p) b.accounts ≡ 0
    → IsReconciled b
    → IsReconciled (record {
      accounts =
          record { player_uuid = p; player_name = name; balance_cents = initial } ∷ b.accounts;
      ledger = e ∷ b.ledger;
    })
unfolding affected sum_of
opened-IsReconciled p name initial e b who what unknown r = record {
  unique = λ q. ground (arith, eq_iff p q, r.unique q);
  matches = λ q.
      rw (who, what)
        (ledger_up p q initial (balance_of q b) _ (ledger_sum q b.ledger) (ground arith)
          (r.matches q));
}

-- What opening an account may do: nothing to the money of a known player, the initial balance to a new one.
pub record Opens (initial : ℕ) (b b' : Bank) : Type 0 where
  pub total : (total_balance b' ≡ total_balance b) ⊎ (total_balance b' ≡ total_balance b + initial)
  pub reconciled : IsReconciled b → IsReconciled b'

opened-Opens :
    (p : Uuid) (name : String) (initial : ℕ) (e : LedgerEntry) (b : Bank)
    → e.player_uuid ≡ p
    → e.delta_cents ≡ pos initial
    → (affected (is_account p) b.accounts == 0) ≡ true
    → Opens initial b (record {
      accounts =
          record { player_uuid = p; player_name = name; balance_cents = initial } ∷ b.accounts;
      ledger = e ∷ b.ledger;
    })
unfolding sum_of
opened-Opens p name initial e b who what z = record {
  total = inr (omega arith);
  reconciled = opened-IsReconciled p name initial e b who what ((==_iff _ _).0 z);
}

abbrev with_name : String → Account → Account
with_name name a = record a { player_name = name }

renamed-Opens :
    (p : Uuid) (name : String) (initial : ℕ) (b : Bank)
    → Opens initial b (record b { accounts = update (is_account p) (with_name name) b.accounts })
renamed-Opens p name initial b = record {
  total = inl (
      Table.sum_of-update_same (is_account p) (with_name name) balance_cell b.accounts
        (λ x _. refl));
  reconciled = λ r. record {
    unique = λ q.
        rw
          (Table.affected-update_same (is_account q) (is_account p) (with_name name) b.accounts
            (λ x. refl))
          (r.unique q);
    matches = λ q.
        rw
          (Table.sum_of-update_same (is_account p) (with_name name)
            (only (is_account q) balance_cell) b.accounts (λ x _. refl))
          (r.matches q);
  };
}

pub ensure_account_row-Opens :
    (p : Uuid) (name : String) (initial : ℕ) (b : Bank)
    → Ensures (λ _ b'. Opens initial b b') (ensure_account_row p name initial b)
unfolding ensure_account_row
ensure_account_row-Opens p name initial b = Ensures-gets _ _ _ _ (
    Ensures-if _ _ _ _ _
      (λ z. Ensures-modify _ _ _ _ (
        Ensures-guard _ _ _ _ _
          λ _. Ensures-modify_last _ _ _ (opened-Opens p name initial _ b refl refl z)))
      (λ _. Ensures-modify_last _ _ _ (renamed-Opens p name initial b)))

-- The row of the only account of `p` carries all of its balance.
pub balance_of-first :
    (p : Uuid) (a : Account) (b : Bank)
    → IsReconciled b
    → first (is_account p) b.accounts ≡ some a
    → balance_of p b ≡ a.balance_cents
balance_of-first p a b r h =
    Table.sum_of-first (is_account p) balance_cell b.accounts a (r.unique p) h

-- `lockedBalance` returns the balance and changes nothing.
pub locked_balance-lem :
    (p : Uuid) (b : Bank)
    → IsReconciled b
    → Ensures (λ v b'. (b' ≡ b) × (v ≡ balance_of p b)) (locked_balance p b)
unfolding locked_balance
locked_balance-lem p b r =
    Ensures-gets _ _ _ _ (
      Ensures-or_throw _ _ _ _ _ λ a h. Ensures-pure _ _ _ (refl, sym (balance_of-first p a b r h)))

pub locked_balance-same : (p : Uuid) (b : Bank) → Ensures (λ _ b'. b' ≡ b) (locked_balance p b)
unfolding locked_balance
locked_balance-same p b =
    Ensures-gets _ _ _ _ (Ensures-or_throw _ _ _ _ _ λ a h. Ensures-pure _ _ _ refl)
