-- ===== src/Matching/PlaceOrder.antt =====
-- `validateRequest`, `ensureAccount` and `placeOrder`: what holds however a call ends.
use endstone_exchange.Matching.PlaceSell.{place_sell_locked-IsPlaced}
use endstone_exchange.Bank.Opening.{ensure_account_row-Opens, Opens}
use endstone_exchange.Matching.Placed.{place_buy-IsPlaced, IsPlaced}
use endstone_exchange.Bank.{Bank, Uuid}
use endstone_exchange.Matching.Invariant.{money, IsConsistent}
use endstone_exchange.Store.{Ensures-on_bank, Db}
use endstone_exchange.Money.{checked_product, Cents}
use endstone_exchange.Common.Int.{ltb_ℤ, pos, leb_ℤ}
use endstone_exchange.Matching.{
  place_sell_locked, place_buy, place_order, ensure_account, placed, accepted, Request,
  validate_request, Service,
}
use endstone_exchange.Domain.{is_buy, ExecutionResult, is_limit, OrderRequest}
use endstone_exchange.Common.{
  ◌+◌, ◌⊎◌, inr, String, inl, Bool-cases, ℕ, if◌then◌else◌, is_empty, ◌||◌, Bool, arith, ◌&&◌, ◌≤◌,
  ◌<◌, ◌≡◌, ◌==◌, refl, true, false,
}
use endstone_exchange.Tx.{
  Ensures-mono, and_then-keeps, transaction-keeps, and_then, Outcome, Returns-if, Result, Returns,
  ok, err,
}

-- What a request is like that `validateRequest` lets through.
pub record IsRequest (c : Service) (q : OrderRequest) (r : Request) : Type 0 where
  pub identity :
      (r.market_id ≡ q.market_id)
      × (r.player_uuid ≡ q.player_uuid)
      × (r.side ≡ q.side)
      × (r.order_type ≡ q.order_type)
  pub some_market : 0 < r.market_id
  pub quantity : pos r.quantity ≡ q.quantity
  pub in_range : (0 < r.quantity) × (r.quantity ≤ c.max_order_quantity)
  pub price :
      is_limit q.order_type ≡ true → (pos r.price_cents ≡ q.price_cents) × (0 < r.price_cents)

accepted-IsRequest :
    (c : Service) (q : OrderRequest)
    → (q.market_id == 0) ≡ false
    → leb_ℤ q.quantity (pos 0) ≡ false
    → ltb_ℤ (pos c.max_order_quantity) q.quantity ≡ false
    → (is_limit q.order_type && leb_ℤ q.price_cents (pos 0)) ≡ false
    → IsRequest c q (accepted q)
accepted-IsRequest c q h₀ h₁ h₂ h₃ = record {
  identity = (refl, refl, refl, refl);
  some_market = ground arith;
  quantity = ground arith;
  in_range = ground arith;
  price = λ lim. ground arith;
}

-- A request that `validateRequest` lets through names a market and has a quantity from 1 to the configured
-- limit, and a positive price if it is a limit order; it is passed on with these numbers.
pub validate_request-IsRequest :
    (c : Service) (q : OrderRequest) → Returns (IsRequest c q) (validate_request c q)
unfolding validate_request
validate_request-IsRequest c q = Returns-if P identity _ _ λ h₀.
    Returns-if P (leb_ℤ q.quantity (pos 0) || ltb_ℤ (pos c.max_order_quantity) q.quantity) _ _ λ h₁.
      Returns-if P (is_limit q.order_type && leb_ℤ q.price_cents (pos 0)) _ _ λ h₂.
        let fine : IsRequest c q (accepted q) =
          accepted-IsRequest c q (ground arith) (ground arith) (ground arith) h₂ in
        last (is_limit q.order_type) (checked_product q.price_cents q.quantity) fine
  where
    P : Request → Type 0
    P = IsRequest c q

    identity : Bool
    identity = q.market_id == 0 || is_empty q.player_uuid || is_empty q.player_name

    last :
        (b : Bool) (p : Result Cents)
        → IsRequest c q (accepted q)
        → Returns P (
            if b
            then elim p as (λ _. Result Request) [ ok _ ↦ ok (accepted q) | err e ↦ err e ]
            else ok (accepted q))
    last true (ok v) f = f
    last true (err e) f = tt
    last false p f = f

-- What a call may do that opens an account on its way: the database stays well formed, and the money
-- grows by the configured initial balance, if at all.
pub record IsServed (c : Service) (s s' : Db) : Type 0 where
  pub consistent : IsConsistent s'
  pub money_kept : (money s' ≡ money s) ⊎ (money s' ≡ money s + c.initial_balance_cents)

IsServed-refl : (c : Service) (s : Db) → IsConsistent s → IsServed c s s
IsServed-refl c s k = record { consistent = k; money_kept = inl refl }

IsServed-placed :
    (c : Service) (r : Request) (gain : ℕ) (s t : Db) (x : ExecutionResult) (u : Db)
    → IsServed c s t
    → IsPlaced r gain t x u
    → IsServed c s u
IsServed-placed c r gain s t x u h k = record {
  consistent = k.consistent;
  money_kept = ground (arith, h.money_kept, k.money_kept);
}

ensured :
    (c : Service) (s : Db) (b' : Bank)
    → IsConsistent s
    → Opens c.initial_balance_cents s.bank b'
    → IsServed c s (record s { bank = b' })
ensured c s b' k o = record {
  consistent = record {
    reconciled = o.reconciled k.reconciled;
    ids = k.ids;
    orders = k.orders;
    trades = k.trades;
  };
  money_kept = ground (arith, o.total);
}

-- From a well-formed database, however `ensureAccount` ends, the database is well formed behind it, and
-- its money is that of before, or that and the configured initial balance.
pub ensure_account-IsServed :
    (c : Service) (p : Uuid) (name : String) (s : Db)
    → IsConsistent s
    → IsServed c s (ensure_account c p name s).1
unfolding ensure_account
ensure_account-IsServed c p name s k = elim (Bool-cases (is_empty p)) [
  | inl e ↦ rw e (IsServed-refl c s k)
  | inr e ↦ rw e (
      transaction-keeps (IsServed c s) _ s (IsServed-refl c s k) (
        Ensures-on_bank _ _ s (
          Ensures-mono _ _ _ (ensure_account_row-Opens p name c.initial_balance_cents s.bank)
            λ _ b' o. ensured c s b' k o)))
]

placed-IsServed :
    (c : Service) (r : Request) (s t : Db)
    → 0 < r.quantity
    → IsServed c s t
    → IsServed c s (placed c r t).1
unfolding placed
placed-IsServed c r s t q h = elim (Bool-cases (is_buy r.side)) [
  | inl e ↦ rw e (
      transaction-keeps (IsServed c s) (place_buy r) t h (
        Ensures-mono _ _ _ (place_buy-IsPlaced r t q h.consistent)
          λ x u k. IsServed-placed c r 0 s t x u h k))
  | inr e ↦ rw e (
      transaction-keeps (IsServed c s) (place_sell_locked r) t h (
        Ensures-mono _ _ _ (place_sell_locked-IsPlaced r t q h.consistent)
          λ x u k. IsServed-placed c r r.quantity s t x u h k))
]

-- From a well-formed database, however `placeOrder` ends, with a result or an exception, the database is
-- well formed behind it, and its money is that of before, or that and the configured initial balance.
pub place_order-IsServed :
    (c : Service) (q : OrderRequest) (s : Db) → IsConsistent s → IsServed c s (place_order c q s).1
unfolding place_order
place_order-IsServed c q s k = go (validate_request c q) (validate_request-IsRequest c q)
  where
    go :
        (v : Result Request)
        → Returns (IsRequest c q) v
        → IsServed c s
            (elim v as (λ _. Outcome Db ExecutionResult) [
              | ok r ↦ and_then (ensure_account c r.player_uuid r.player_name) (λ _. placed c r) s
              | err e ↦ (err e, s)
            ]).1
    go (ok r) h =
        and_then-keeps (IsServed c s) (ensure_account c r.player_uuid r.player_name) _ s
          (ensure_account-IsServed c r.player_uuid r.player_name s k)
          (λ _ t served. placed-IsServed c r s t h.in_range.0 served)
    go (err e) h = IsServed-refl c s k
