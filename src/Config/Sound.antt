-- ===== src/Config/Sound.antt =====
-- What a configuration that `Config::validate` (src/config.cpp) lets through gives the forms of
-- src/trade_form.cpp and the service of src/exchange_service.cpp.
use endstone_exchange.Common.Int.{ltb_ℤ, negsuc, ◌≤ℤ◌, ℤ, pos, pos_part}
use endstone_exchange.Common.{
  inr, inl, Bool-cases, sym, ap, refl, ◌∙◌, is_empty, ◌||◌, List, ◌==◌, zero, suc, arith, ◌*◌, ◌/◌,
  ◌<◌, false, ◌≤◌, ℕ, ◌≡◌, refl,
}
use native.Mathlib.Nat.{le-div_iff_mul-le, mul-le-mul, le_trans}
use endstone_exchange.Texts.{int64_max}
use endstone_exchange.Money.{checked_product, cents_max}
use endstone_exchange.Tx.{ok}
use endstone_exchange.Domain.{OrderRequest}
use endstone_exchange.Matching.{Service, accepted, validate_request}
use endstone_exchange.Trade.{entered, parse_price, parse_quantity, limits_invalid}
use endstone_exchange.Trade.Suggested.{parse_price-IsPrice, parse_whole_number_within}
use endstone_exchange.Config.{valid, Config, MarketConfig, validate, validate_market}

validate-validate_market :
    (c : Config) → validate c ≡ valid tt → validate_market c.market ≡ valid tt
unfolding validate
validate-validate_market c h = ground arith

-- What the checks of the market come to, in numbers
record IsSound (m : MarketConfig) : Type 0 where
  limits_valid : limits_invalid m.price_min_cents m.price_max_cents m.price_step_cents ≡ false
  some_quantity : 0 < pos_part m.max_order_quantity
  fits : pos_part m.price_max_cents ≤ int64_max / pos_part m.max_order_quantity

validate_market-IsSound : (m : MarketConfig) → validate_market m ≡ valid tt → IsSound m
unfolding validate_market limits_invalid
validate_market-IsSound m h = record {
  limits_valid = ground arith;
  some_quantity = ground arith;
  fits = ground arith;
}

product_fits :
    (price n top most : ℕ)
    → price ≤ top
    → n ≤ most
    → 0 < most
    → top ≤ int64_max / most
    → price * n ≤ int64_max
product_fits price n top most a b p fits = le_trans (mul-le-mul a b) ((le-div_iff_mul-le p).0 fits)

checked_product-fits :
    (price n : ℕ) → price * n ≤ int64_max → checked_product (pos price) (pos n) ≡ ok (price * n)
unfolding checked_product
checked_product-fits price zero h = ground arith
checked_product-fits price (suc n) h =
    ground (arith, (le-div_iff_mul-le {k = suc n} {x = price} {y = cents_max} (omega arith)).1 h)

-- A request that names a market and a player, has a price that is positive and a quantity of the range, and
-- whose product fits, is let through as it is.
validate_request-served :
    (s : Service) (q : OrderRequest) (p n : ℕ)
    → (q.market_id == 0 || is_empty q.player_uuid || is_empty q.player_name) ≡ false
    → q.price_cents ≡ pos p
    → q.quantity ≡ pos n
    → 0 < p
    → 0 < n
    → n ≤ s.max_order_quantity
    → checked_product (pos p) (pos n) ≡ ok (p * n)
    → validate_request s q ≡ ok (accepted q)
unfolding validate_request
validate_request-served s q p n named price quantity pp np most product =
    rw (named, price, quantity, product) (ground arith)

quantity_bounds :
    (raw : List ℕ) (most n : ℤ)
    → parse_quantity raw most ≡ entered n
    → (n ≡ pos (pos_part n)) × (0 < pos_part n) × (pos_part n ≤ pos_part most)
unfolding parse_quantity
quantity_bounds raw most n h = elim (Bool-cases (ltb_ℤ most (pos 1))) [
  | inl e ↦ cc (rw e at h)
  | inr e ↦
      let (a, b) = parse_whole_number_within raw (pos 1) most n (rw e at h) in
      go most n a b (ground arith)
]
  where
    go :
        (most n : ℤ)
        → pos 1 ≤ℤ n
        → n ≤ℤ most
        → pos 1 ≤ℤ most
        → (n ≡ pos (pos_part n)) × (0 < pos_part n) × (pos_part n ≤ pos_part most)
    go most (negsuc k) a b c = absurd (omega arith)
    go (negsuc m) (pos k) a b c = absurd (omega arith)
    go (pos m) (pos k) a b c = (refl, omega arith, omega arith)

-- Under a valid configuration, what a player has typed and the form has accepted as price and quantity is
-- let through by the service unchanged, in a request that names a market and a player.
pub validate-served :
    (c : Config) (s : Service) (typed_price typed_quantity : List ℕ) (q : OrderRequest) (p : ℕ)
    (n : ℤ)
    → validate c ≡ valid tt
    → s.max_order_quantity ≡ pos_part c.market.max_order_quantity
    → parse_price typed_price c.market.price_min_cents c.market.price_max_cents
        c.market.price_step_cents
      ≡ entered p
    → parse_quantity typed_quantity c.market.max_order_quantity ≡ entered n
    → (q.market_id == 0 || is_empty q.player_uuid || is_empty q.player_name) ≡ false
    → q.price_cents ≡ pos p
    → q.quantity ≡ n
    → (validate_request s q ≡ ok (accepted q))
      × ((accepted q).price_cents ≡ p)
      × (pos (accepted q).quantity ≡ n)
validate-served c s typed_price typed_quantity q p n v most tp tq named price quantity =
    let sound = validate_market-IsSound c.market (validate-validate_market c v) in
    let fine = parse_price-IsPrice typed_price _ _ _ p tp in
    let (e, some_items, few) = quantity_bounds typed_quantity _ n tq in
    let product =
      checked_product-fits p (pos_part n)
        (product_fits p (pos_part n) _ _ fine.1 few sound.some_quantity sound.fits) in
    (
      validate_request-served s q p (pos_part n) named price (quantity ∙ e) fine.4 some_items
          (omega arith) product,
      ap pos_part price,
      ap (λ (v : ℤ). pos (pos_part v)) quantity ∙ sym e,
    )
