-- ===== src/Matching/Loop.antt =====
-- The loops of `placeBuy` and `placeSellLocked` read as rules: an invariant for the loop, and what one
-- iteration leaves behind.
use endstone_exchange.Bank.Ledger.{debit-Moves, credit-Moves, IsReconciled, Moves, total_balance}
use endstone_exchange.Orders.{update_order, insert_trade, add_delivery, has_id}
use endstone_exchange.Table.{update}
use endstone_exchange.Bank.{Bank}
use endstone_exchange.Common.{
  ◌/◌, refl, true, ◌*◌, ◌≤◌, ◌+◌, ◌-◌, arith, sym, subst, ℕ, ◌≡◌, false, Option, none, some, List,
  [], ◌∷◌, ◌==◌,
}
use endstone_exchange.Money.{
  checked_product-difference, checked_product-IsProduct, Cents, IsProduct,
}
use endstone_exchange.Tx.{
  Ensures-guard, Ensures-modify, Result, Tx, Ensures, Ensures-bind, Ensures-if, Ensures-pure,
  Ensures-lift, ◌>>=◌, lift,
}
use endstone_exchange.Store.{Ensures-bank, Db, Order}
use endstone_exchange.Matching.{
  taken_reserved, sell_bid, limit_ask, market_ask, buy_ask, RowId, limit_price, taken, min,
  is_limit, add_delivery, insert_trade, update_order, err, settle_ask, ok, Request, Progress,
  goes_on, match_loop,
}

-- What holds behind an iteration: `J` where it broke off, `I` of the rows left where it did not.
abbrev pub GoesOn {κ} :
    (List Order → Progress → Db → Type κ)
    → (Progress → Db → Type κ)
    → List Order
    → Progress
    → Option Progress
    → Db
    → Type κ
GoesOn I J os m none s = J m s
GoesOn I J os m (some m') s = I os m' s

module _ {κ} (body : Order → Progress → Tx Db (Option Progress))
    (I : List Order → Progress → Db → Type κ) (J : Progress → Db → Type κ)
    (finish : (os : List Order) (m : Progress) (s : Db) → I os m s → J m s)
    (step : (o : Order) (os : List Order) (m : Progress) (s : Db)
      → I (o ∷ os) m s
      → (m.remaining == 0) ≡ false
      → Ensures (GoesOn I J os m) (body o m s)) where
  pub match_loop-Ensures :
      (os : List Order) (m : Progress) (s : Db) → I os m s → Ensures J (match_loop body os m s)
  unfolding match_loop
  match_loop-Ensures [] m s i = Ensures-pure J m s (finish [] m s i)
  match_loop-Ensures (o ∷ os) m s i =
      Ensures-if J (m.remaining == 0) _ _ s (λ _. Ensures-pure J m s (finish (o ∷ os) m s i))
        λ more.
          Ensures-bind J (GoesOn I J os m) (body o m) _ s (step o os m s i more)
            λ r s' h. continue r s' h (match_loop-Ensures os)
    where
      continue :
          (r : Option Progress) (s' : Db)
          → GoesOn I J os m r s'
          → ((m' : Progress) (s'' : Db) → I os m' s'' → Ensures J (match_loop body os m' s''))
          → Ensures J (goes_on r m (match_loop body os) s')
      continue none s' j k = Ensures-pure J m s' j
      continue (some m') s' i' k = k m' s' i'

product_of : (v c : ℕ) (q : Result Cents) → q ≡ ok c → IsProduct v q → c ≡ v
product_of v c (ok w) e h = ground (arith, h.0)
product_of v c (err x) e h = cc

-- A product that the body binds is the product of the numbers.
pub Ensures-product {κ} :
    {A : Type 0} (P : A → Db → Type κ) (v : ℕ) (q : Result Cents) (k : Cents → Tx Db A) (s : Db)
    → IsProduct v q
    → Ensures P (k v s)
    → Ensures P ((lift q >>= k) s)
Ensures-product P v q k s h g =
    Ensures-lift P q k s (λ c e. subst (λ x. Ensures P (k x s)) (sym (product_of v c q e h)) g)

difference_times : (a b n : ℕ) → b ≤ a → (a - b) * n + b * n ≡ a * n
difference_times a b n h = grind arith

pub times_rest : (rate m f : ℕ) → f ≤ m → rate * (m - f) + rate * f ≡ rate * m
times_rest rate m f h = grind arith

-- What an iteration of `placeBuy` that goes on has done, on the money side: it took `fill` items and
-- the balances grew by the limit price for each, which the reserve has paid.
pub record BuyFill (r : Request) (ask : Order) (m : Progress) (b b' : Bank) (fill : ℕ)
    : Type 0 where
  pub at_most_left : fill ≤ m.remaining
  pub at_most_offered : fill ≤ ask.remaining_qty
  pub whole : is_limit r.order_type ≡ true → fill ≡ min m.remaining ask.remaining_qty
  pub total : total_balance b' ≡ total_balance b + limit_price r * fill
  pub reconciled : IsReconciled b → IsReconciled b'

abbrev pub advanced : Order → ℕ → Cents → Progress → Progress
advanced ask fill available m = record {
  remaining = m.remaining - fill;
  filled_total = m.filled_total + fill;
  gross = m.gross + ask.price_cents * fill;
  available = available;
}

module _ (r : Request) (order_id : RowId) where
  -- The database behind an iteration of `placeBuy`
  abbrev pub settled_ask : Order → ℕ → Bank → Db → Db
  settled_ask ask fill b' s =
      insert_trade r.market_id order_id ask.id r.player_uuid ask.player_uuid ask.price_cents fill (
        add_delivery r.player_uuid r.market_id fill "TRADE_BUY" (record s {
          bank = b';
          orders = update (has_id ask.id) (taken (ask.remaining_qty - fill)) s.orders;
        }))

  module _ {κ} (P : Option Progress → Db → Type κ) (ask : Order) where
    pub settle_ask-Ensures :
        (fill : ℕ) (m : Progress) (s : Db)
        → ((b' : Bank)
            → Moves ask.player_uuid (ask.price_cents * fill) 0 s.bank b'
            → P (some (advanced ask fill m.available m)) (settled_ask ask fill b' s))
        → Ensures P (settle_ask r order_id ask fill m s)
    unfolding settle_ask update_order
    settle_ask-Ensures fill m s k = Ensures-modify P _ _ s (
        Ensures-product P (ask.price_cents * fill) _ _ _
          (checked_product-IsProduct ask.price_cents fill)
          (Ensures-bank P _ _ _ _ (credit-Moves ask.player_uuid _ _ _ _ _) λ _ b' h.
            Ensures-modify P _ _ _ (Ensures-modify P _ _ _ (Ensures-pure P _ _ (k b' h)))))

  paid_limit :
      (ask : Order) (fill left : ℕ) (b b₁ b₂ : Bank)
      → is_limit r.order_type ≡ true
      → ask.price_cents ≤ r.price_cents
      → Moves r.player_uuid ((r.price_cents - ask.price_cents) * fill) 0 b b₁
      → Moves ask.player_uuid (ask.price_cents * fill) 0 b₁ b₂
      → total_balance b₂ ≡ total_balance b + limit_price r * fill
  paid_limit ask fill left b b₁ b₂ lim le u v =
      rw lim
        (omega (arith, u.total, v.total, difference_times r.price_cents ask.price_cents fill le))

  limit_ask-Ensures {κ} :
      (P : Option Progress → Db → Type κ) (ask : Order) (m : Progress) (s : Db)
      → is_limit r.order_type ≡ true
      → ask.price_cents ≤ r.price_cents
      → ((fill : ℕ) (available : Cents) (b' : Bank)
          → BuyFill r ask m s.bank b' fill
          → P (some (advanced ask fill available m)) (settled_ask ask fill b' s))
      → Ensures P (limit_ask r order_id ask m s)
  unfolding limit_ask
  limit_ask-Ensures P ask m s lim le k =
      Ensures-product P ((r.price_cents - ask.price_cents) * fill) _ _ _
        (checked_product-difference r.price_cents ask.price_cents fill le)
        (Ensures-bank P _ _ _ _ (credit-Moves r.player_uuid _ _ _ _ _) λ _ b₁ u.
          settle_ask-Ensures P ask fill _ _ λ b₂ v. k fill _ b₂ (record {
            at_most_left = omega arith;
            at_most_offered = omega arith;
            whole = λ _. refl;
            total = paid_limit ask fill 0 s.bank b₁ b₂ lim le u v;
            reconciled = λ h. v.reconciled (u.reconciled h);
          }))
    where
      fill : ℕ
      fill = min m.remaining ask.remaining_qty

  market_ask-Ensures {κ} :
      (P : Option Progress → Db → Type κ) (ask : Order) (m : Progress) (s : Db)
      → is_limit r.order_type ≡ false
      → P none s
      → ((fill : ℕ) (available : Cents) (b' : Bank)
          → BuyFill r ask m s.bank b' fill
          → P (some (advanced ask fill available m)) (settled_ask ask fill b' s))
      → Ensures P (market_ask r order_id ask m s)
  unfolding market_ask
  market_ask-Ensures P ask m s lim stop k =
      Ensures-if P (fill == 0) _ _ s (λ _. Ensures-pure P none s stop)
        λ _.
          Ensures-product P (ask.price_cents * fill) _ _ _
            (checked_product-IsProduct ask.price_cents fill)
            (Ensures-bank P _ _ _ _ (debit-Moves r.player_uuid _ _ _ _ _) λ _ b₁ u.
              settle_ask-Ensures P ask fill _ _ λ b₂ v. k fill _ b₂ (record {
                at_most_left = omega arith;
                at_most_offered = omega arith;
                whole = λ e. cc;
                total = rw lim (omega (arith, u.total, v.total));
                reconciled = λ h. v.reconciled (u.reconciled h);
              }))
    where
      fill : ℕ
      fill = min (min m.remaining ask.remaining_qty) (m.available / ask.price_cents)

  -- One iteration of `placeBuy`: it breaks off with nothing changed, or it settles `fill` items.
  pub buy_ask-Ensures {κ} :
      (P : Option Progress → Db → Type κ) (ask : Order) (m : Progress) (s : Db)
      → (is_limit r.order_type ≡ true → ask.price_cents ≤ r.price_cents)
      → P none s
      → ((fill : ℕ) (available : Cents) (b' : Bank)
          → BuyFill r ask m s.bank b' fill
          → P (some (advanced ask fill available m)) (settled_ask ask fill b' s))
      → Ensures P (buy_ask r order_id ask m s)
  unfolding buy_ask
  buy_ask-Ensures P ask m s le stop k =
      Ensures-if P (is_limit r.order_type) _ _ s (λ lim. limit_ask-Ensures P ask m s lim (le lim) k)
        (λ lim. market_ask-Ensures P ask m s lim stop k)

  -- The database behind an iteration of `placeSellLocked`
  abbrev pub settled_bid : Order → ℕ → Bank → Db → Db
  settled_bid bid fill b' s =
      insert_trade r.market_id bid.id order_id bid.player_uuid r.player_uuid bid.price_cents fill (
        add_delivery bid.player_uuid r.market_id fill "TRADE_BUY" (record s {
          bank = b';
          orders =
              update (has_id bid.id)
                (taken_reserved (bid.remaining_qty - fill)
                  (bid.reserved_cents - bid.price_cents * fill))
                s.orders;
        }))

  -- One iteration of `placeSellLocked`: the bid pays for all that it can take.
  pub sell_bid-Ensures {κ} :
      (P : Option Progress → Db → Type κ) (bid : Order) (m : Progress) (s : Db)
      → ((fill : ℕ) (b' : Bank)
          → fill ≡ min m.remaining bid.remaining_qty
          → bid.price_cents * fill ≤ bid.reserved_cents
          → Moves r.player_uuid (bid.price_cents * fill) 0 s.bank b'
          → P (some (advanced bid fill m.available m)) (settled_bid bid fill b' s))
      → Ensures P (sell_bid r order_id bid m s)
  unfolding sell_bid update_order
  sell_bid-Ensures P bid m s k =
      Ensures-product P (bid.price_cents * fill) _ _ _
        (checked_product-IsProduct bid.price_cents fill)
        (Ensures-guard P _ _ _ _ λ enough. Ensures-modify P _ _ _ (
          Ensures-product P (bid.price_cents * fill) _ _ _
            (checked_product-IsProduct bid.price_cents fill)
            (Ensures-bank P _ _ _ _ (credit-Moves r.player_uuid _ _ _ _ _) λ _ b' h.
              Ensures-modify P _ _ _
                (Ensures-modify P _ _ _ (Ensures-pure P _ _ (k fill b' refl (ground arith) h))))))
    where
      fill : ℕ
      fill = min m.remaining bid.remaining_qty
