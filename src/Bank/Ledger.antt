-- ===== src/Bank/Ledger.antt =====
-- What a statement over the accounts does to the balances, and the agreement of balances and ledger.
use text.Mathlib.TextEquality.{eq_iff}
use endstone_exchange.Common.{
  ℕ, ◌+◌, ◌≤◌, String, ◌≡◌, refl, true, Option, List, [], ◌∷◌, arith, ◌==◌, if◌then◌else◌,
  Bool-cases, inl, inr, str_eq, ==_iff,
}
use endstone_exchange.Common.Int.{ℤ, pos, neg_ℕ, ◌+ℤ◌, int_laws}
use endstone_exchange.Table
use endstone_exchange.Table.{first, update, affected, sum_of, only}
use endstone_exchange.Tx.{
  Ensures, Ensures-guard, Ensures-if, Ensures-pure, Ensures-gets, Ensures-modify,
  Ensures-modify_last, Ensures-assoc, Ensures-pure_bind,
}
use endstone_exchange.Bank.{
  Uuid, Account, LedgerEntry, Bank, is_account, credit, debit, raised, lowered, covered,
}

abbrev pub balance_cell : Account → ℕ
balance_cell a = a.balance_cents

-- SUM(balance_cents), of one player and of all.
abbrev pub balance_of : Uuid → Bank → ℕ
balance_of q b = sum_of (only (is_account q) balance_cell) b.accounts

abbrev pub total_balance : Bank → ℕ
total_balance b = sum_of balance_cell b.accounts

-- SUM(delta_cents) of one player
abbrev pub ledger_sum : Uuid → List LedgerEntry → ℤ
ledger_sum q [] = pos 0
ledger_sum q (e ∷ l) = (if str_eq e.player_uuid q then e.delta_cents else pos 0) +ℤ ledger_sum q l

-- The primary key of the accounts, and the sum of the ledger of every player.
pub record IsReconciled (b : Bank) : Type 0 where
  pub unique : (q : Uuid) → affected (is_account q) b.accounts ≤ 1
  pub matches : (q : Uuid) → pos (balance_of q b) ≡ ledger_sum q b.ledger

-- What a player named `p` gains, seen from the player `q`.
abbrev pub share : Uuid → Uuid → ℕ → ℕ
share p q amount = if str_eq p q then amount else 0

-- `p` alone gains `up` and loses `down`, and the ledger stays in agreement.
pub record Moves (p : Uuid) (up down : ℕ) (b b' : Bank) : Type 0 where
  pub total : total_balance b' + down ≡ total_balance b + up
  pub each : (q : Uuid) → balance_of q b' + share p q down ≡ balance_of q b + share p q up
  pub reconciled : IsReconciled b → IsReconciled b'

pub Moves-refl : (p : Uuid) (b : Bank) → Moves p 0 0 b b
Moves-refl p b = record { total = omega arith; each = λ q. ground arith; reconciled = λ r. r }

module _ (p : Uuid) (amount : ℕ) (b : Bank) where
  accounts_up : List Account
  accounts_up = update (is_account p) (raised amount) b.accounts

  raise_total :
      affected (is_account p) b.accounts ≡ 1
      → sum_of balance_cell accounts_up ≡ total_balance b + amount
  unfolding accounts_up
  raise_total one = omega (
    arith,
    Table.sum_of-update_up (is_account p) (raised amount) balance_cell amount b.accounts
        (λ x h. refl),
    Table.sum_of-only_one (is_account p) amount b.accounts one,
  )

  raise_each :
      (q : Uuid)
      → affected (is_account p) b.accounts ≡ 1
      → sum_of (only (is_account q) balance_cell) accounts_up ≡ balance_of q b + share p q amount
  unfolding accounts_up
  raise_each q one = omega (
    arith,
    Table.sum_of-update_up (is_account p) (raised amount) (only (is_account q) balance_cell)
        (share p q amount) b.accounts (λ x h. ground (arith, eq_iff x.player_uuid p)),
    Table.sum_of-only_one (is_account p) (share p q amount) b.accounts one,
  )

  accounts_down : List Account
  accounts_down = update (covered p amount) (lowered amount) b.accounts

  lower_total :
      affected (covered p amount) b.accounts ≡ 1
      → sum_of balance_cell accounts_down + amount ≡ total_balance b
  unfolding accounts_down
  lower_total one = omega (
    arith,
    Table.sum_of-update_down (covered p amount) (lowered amount) balance_cell amount b.accounts
        (λ x h. ground arith),
    Table.sum_of-only_one (covered p amount) amount b.accounts one,
  )

  lower_each :
      (q : Uuid)
      → affected (covered p amount) b.accounts ≡ 1
      → sum_of (only (is_account q) balance_cell) accounts_down + share p q amount ≡ balance_of q b
  unfolding accounts_down
  lower_each q one = omega (
    arith,
    Table.sum_of-update_down (covered p amount) (lowered amount) (only (is_account q) balance_cell)
        (share p q amount) b.accounts (λ x h. ground (arith, eq_iff x.player_uuid p)),
    Table.sum_of-only_one (covered p amount) (share p q amount) b.accounts one,
  )

pub ledger_up :
    (p q : Uuid) (amount old new : ℕ) (l : ℤ)
    → new ≡ old + share p q amount
    → pos old ≡ l
    → pos new ≡ (if str_eq p q then pos amount else pos 0) +ℤ l
ledger_up p q amount old new l e h = elim (Bool-cases (str_eq p q)) [
  | inl same ↦ rw (same, ← h) (omega (int_laws, (rw same at e)))
  | inr other ↦ rw (other, ← h) (omega (int_laws, (rw other at e)))
]

ledger_down :
    (p q : Uuid) (amount old new : ℕ) (l : ℤ)
    → new + share p q amount ≡ old
    → pos old ≡ l
    → pos new ≡ (if str_eq p q then neg_ℕ amount else pos 0) +ℤ l
ledger_down p q amount old new l e h = elim (Bool-cases (str_eq p q)) [
  | inl same ↦ rw (same, ← h) (omega (int_laws, (rw same at e)))
  | inr other ↦ rw (other, ← h) (omega (int_laws, (rw other at e)))
]

-- The new state of a credit: the row of `p` raised, and one entry that says so.
credited-Moves :
    (p : Uuid) (amount : ℕ) (e : LedgerEntry) (b : Bank)
    → e.player_uuid ≡ p
    → e.delta_cents ≡ pos amount
    → affected (is_account p) b.accounts ≡ 1
    → Moves p amount 0 b (record { accounts = accounts_up p amount b; ledger = e ∷ b.ledger })
unfolding accounts_up
credited-Moves p amount e b who what one = record {
  total = omega (arith, raise_total p amount b one);
  each = λ q. ground (arith, raise_each p amount b q one);
  reconciled = λ r. record {
    unique = λ q. rw (up_unique q) (r.unique q);
    matches = λ q.
        rw (who, what)
          (ledger_up p q amount (balance_of q b) _ (ledger_sum q b.ledger)
            (raise_each p amount b q one) (r.matches q));
  };
}
  where
    up_unique :
        (q : Uuid)
        → affected (is_account q) (accounts_up p amount b) ≡ affected (is_account q) b.accounts
    up_unique q =
        Table.affected-update_same (is_account q) (is_account p) (raised amount) b.accounts
          (λ x. refl)

debited-Moves :
    (p : Uuid) (amount : ℕ) (e : LedgerEntry) (b : Bank)
    → e.player_uuid ≡ p
    → e.delta_cents ≡ neg_ℕ amount
    → affected (covered p amount) b.accounts ≡ 1
    → Moves p 0 amount b (record { accounts = accounts_down p amount b; ledger = e ∷ b.ledger })
unfolding accounts_down
debited-Moves p amount e b who what one = record {
  total = omega (arith, lower_total p amount b one);
  each = λ q. ground (arith, lower_each p amount b q one);
  reconciled = λ r. record {
    unique = λ q. rw (down_unique q) (r.unique q);
    matches = λ q.
        rw (who, what)
          (ledger_down p q amount (balance_of q b) _ (ledger_sum q b.ledger)
            (lower_each p amount b q one) (r.matches q));
  };
}
  where
    down_unique :
        (q : Uuid)
        → affected (is_account q) (accounts_down p amount b) ≡ affected (is_account q) b.accounts
    down_unique q =
        Table.affected-update_same (is_account q) (covered p amount) (lowered amount) b.accounts
          (λ x. refl)

none_moved :
    (p : Uuid) (amount : ℕ) (b : Bank)
    → (amount == 0) ≡ true
    → Moves p amount 0 b b × Moves p 0 amount b b
none_moved p amount b z = rw ((==_iff amount 0).0 z) (Moves-refl p b, Moves-refl p b)

-- A credit that does not throw pays the amount to its player and to no one else.
pub credit-Moves :
    (p : Uuid) (amount : ℕ) (reason t : String) (i : Option ℕ) (b : Bank)
    → Ensures (λ _ b'. Moves p amount 0 b b') (credit p amount reason t i b)
unfolding credit accounts_up
credit-Moves p amount reason t i b =
    Ensures-if _ _ _ _ _ (λ z. Ensures-pure _ _ _ (none_moved p amount b z).0)
      λ _. Ensures-assoc _ _ _ _ _ (
        Ensures-gets _ _ _ _ (
          Ensures-assoc _ _ _ _ _ (
            Ensures-guard _ _ _ _ _ λ _. Ensures-assoc _ _ _ _ _ (
              Ensures-gets _ _ _ _ (
                Ensures-assoc _ _ _ _ _ (
                  Ensures-modify _ _ _ _ (
                    Ensures-pure_bind _ _ _ _ (
                      Ensures-guard _ _ _ _ _ λ one. Ensures-guard _ _ _ _ _ λ _.
                        Ensures-modify_last _ _ _
                          (credited-Moves p amount _ b refl refl (ground arith))))))))))

-- A debit that does not throw takes the amount from its player and from no one else.
pub debit-Moves :
    (p : Uuid) (amount : ℕ) (reason t : String) (i : Option ℕ) (b : Bank)
    → Ensures (λ _ b'. Moves p 0 amount b b') (debit p amount reason t i b)
unfolding debit accounts_down
debit-Moves p amount reason t i b =
    Ensures-if _ _ _ _ _ (λ z. Ensures-pure _ _ _ (none_moved p amount b z).1)
      λ _. Ensures-assoc _ _ _ _ _ (
        Ensures-gets _ _ _ _ (
          Ensures-assoc _ _ _ _ _ (
            Ensures-modify _ _ _ _ (
              Ensures-pure_bind _ _ _ _ (
                Ensures-guard _ _ _ _ _ λ one. Ensures-guard _ _ _ _ _ λ _.
                  Ensures-modify_last _ _ _
                    (debited-Moves p amount _ b refl refl (ground arith)))))))
