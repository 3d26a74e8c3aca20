-- ===== src/Bank/Success.antt =====
-- When `credit` of src/exchange_service.cpp goes through.
use endstone_exchange.Tx.Run.{
  run-bind, run-modify, run-guard, run-gets, run_assoc, run-false, run-true,
}
use endstone_exchange.Money.{cents_max}
use endstone_exchange.Bank.Ledger.{IsReconciled}
use endstone_exchange.Table.{affected-first, first, affected}
use endstone_exchange.Bank.{
  overflowing, Bank, record_balance_change, is_account, raise_balance, Account, credit_positive,
  Uuid, credit,
}
use endstone_exchange.Common.{
  inr, subst, inl, Bool-cases, refl, true, false, ◌≡◌, ◌≤◌, arith, ℕ, ◌+◌, ◌==◌, Bool, not, ◌&&◌,
  Option, some, List, [], ◌∷◌, ltb, String, is_empty,
}
use endstone_exchange.Tx.{ok, pure, modify}

rest_none :
    {A : Type 0} (p q : A → Bool) (xs : List A)
    → affected p xs ≡ 0
    → affected (λ x. p x && q x) xs ≡ 0
unfolding affected
rest_none p q [] h = refl
rest_none p q (x ∷ xs) h = ground (arith, rest_none p q xs)

-- Where a WHERE finds one row, and a further condition fails on it, both find none.
first_none :
    {A : Type 0} (p q : A → Bool) (xs : List A) (x : A)
    → affected p xs ≤ 1
    → first p xs ≡ some x
    → q x ≡ false
    → affected (λ y. p y && q y) xs ≡ 0
unfolding affected first
first_none p q [] x u h k = cc
first_none p q (y ∷ xs) x u h k = elim (Bool-cases (p y)) [
  | inl z ↦
      let same : x ≡ y = ground (arith, h, z) in
      let fails : q y ≡ false = subst (λ v. q v ≡ false) same k in
      rw (z, fails) (rest_none p q xs (ground arith))
  | inr z ↦ rw z (first_none p q xs x (ground arith) (rw z at h) k)
]

one_account :
    (p : Uuid) (a : Account) (rows : List Account)
    → affected (is_account p) rows ≤ 1
    → first (is_account p) rows ≡ some a
    → (affected (is_account p) rows == 1) ≡ true
one_account p a rows u h = ground (arith, affected-first (is_account p) rows a h)

-- A credit to an account that is there, and that has room for it, goes through.
pub credit-succeeds :
    (p : Uuid) (amount : ℕ) (reason t : String) (i : Option ℕ) (a : Account) (b : Bank)
    → IsReconciled b
    → first (is_account p) b.accounts ≡ some a
    → a.balance_cents + amount ≤ cents_max
    → is_empty reason ≡ false
    → (b' : Bank) × (credit p amount reason t i b ≡ ok (tt, b'))
unfolding credit credit_positive raise_balance record_balance_change pure modify
credit-succeeds p amount reason t i a b r found room named = elim (Bool-cases (amount == 0)) [
  | inl z ↦ (b, run-true (amount == 0) _ _ b z refl)
  | inr z ↦ (
    _,
    run-false (amount == 0) _ _ b z (
        run_assoc _ _ _ b (
          run-gets _ _ b (
            run_assoc _ _ _ b (
              run-guard _ _ _ b fits (
                run_assoc _ _ _ b (
                  run-gets _ _ b (
                    run_assoc _ _ _ b (
                      run-modify _ _ b (
                        run-bind (pure (affected (is_account p) b.accounts)) _ _ _ _ refl (
                          run-guard _ _ _ _
                            (one (affected (is_account p) b.accounts)
                              (one_account p a b.accounts (r.unique p) found))
                            (run-guard _ _ _ _ named refl))))))))))),
  )
]
  where
    fits : ltb 0 (affected (overflowing p amount) b.accounts) ≡ false
    fits = ground (
      arith,
      first_none (is_account p) (λ x. ltb cents_max (x.balance_cents + amount)) b.accounts a
          (r.unique p) found (ground arith),
    )

    one : (n : ℕ) → (n == 1) ≡ true → not (n == 1) ≡ false
    one n e = rw e refl
