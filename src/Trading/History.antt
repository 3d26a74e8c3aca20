-- ===== src/Trading/History.antt =====
-- Sequences of calls of src/exchange_service.cpp, and the money behind them.
use endstone_exchange.Cancel.Released.{retire_market-IsKept, cancel_order-IsKept}
use endstone_exchange.Matching.PlaceOrder.{place_order-IsServed, ensure_account-IsServed, IsServed}
use endstone_exchange.Matching.Invariant.{money, IsConsistent}
use endstone_exchange.Store.{Db}
use endstone_exchange.Matching.{Service}
use endstone_exchange.Trading.{Call, after_calls, after_call}
use endstone_exchange.Common.{
  ◌≡◌, ◌≤◌, ℕ, suc, ◌+◌, ◌*◌, List, [], ◌∷◌, arith, inl, inr, ◌⊎◌, length,
}

-- The database is well formed, and its money has grown by the initial balances of `accounts` accounts.
pub record IsGrown (c : Service) (accounts : ℕ) (s s' : Db) : Type 0 where
  pub consistent : IsConsistent s'
  pub money_grown : money s' ≡ money s + accounts * c.initial_balance_cents

call-IsServed : (c : Service) (x : Call) (s : Db) → IsConsistent s → IsServed c s (after_call c x s)
unfolding after_call
call-IsServed c (Call.opens p name) s k = ensure_account-IsServed c p name s k
call-IsServed c (Call.places q) s k = place_order-IsServed c q s k
call-IsServed c (Call.cancels i p administrator) s k =
    let kept = cancel_order-IsKept i p administrator s k in
    record { consistent = kept.consistent; money_kept = inl kept.money_kept }
call-IsServed c (Call.retires i) s k =
    let kept = retire_market-IsKept i s k in
    record { consistent = kept.consistent; money_kept = inl kept.money_kept }

-- From a well-formed database, any sequence of calls that open accounts, place and cancel orders and retire
-- markets, with whatever exceptions, leaves a well-formed database; and its money is that of before and the
-- initial balances of as many accounts as there are calls, or fewer.
pub after_calls-IsGrown :
    (c : Service) (xs : List Call) (s : Db)
    → IsConsistent s
    → (accounts : ℕ) × (accounts ≤ length xs) × IsGrown c accounts s (after_calls c xs s)
unfolding after_calls
after_calls-IsGrown c [] s k =
    (0, omega arith, record { consistent = k; money_grown = omega arith })
after_calls-IsGrown c (x ∷ xs) s k =
    let served = call-IsServed c x s k in
    let (n, few, grown) = after_calls-IsGrown c xs (after_call c x s) served.consistent in
    first_call n few grown served.money_kept
  where
    first_call :
        (n : ℕ)
        → n ≤ length xs
        → IsGrown c n (after_call c x s) (after_calls c xs (after_call c x s))
        → (money (after_call c x s) ≡ money s)
          ⊎ (money (after_call c x s) ≡ money s + c.initial_balance_cents)
        → (accounts : ℕ) × (accounts ≤ suc (length xs))
          × IsGrown c accounts s (after_calls c xs (after_call c x s))
    first_call n few grown (inl e) = (
      n,
      omega arith,
      record { consistent = grown.consistent; money_grown = omega (arith, grown.money_grown) },
    )
    first_call n few grown (inr e) = (
      suc n,
      omega arith,
      record { consistent = grown.consistent; money_grown = grind (arith, grown.money_grown, e) },
    )
