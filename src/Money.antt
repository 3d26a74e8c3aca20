-- ===== src/Money.antt =====
-- `Cents` of include/endstone_exchange/domain.hpp and `checkedProduct` of src/exchange_service.cpp.
-- A column or a value that a guard or a CHECK of the schema keeps at 0 or above is a natural number;
-- what can be negative is an integer.
use native.Mathlib.Nat.{le-div_iff_mul-le}
use endstone_exchange.Common.{
  ℕ, zero, suc, ◌-◌, ◌*◌, ◌/◌, ◌<◌, ◌≤◌, ◌≡◌, Bool, not, ◌&&◌, ◌||◌, arith, ltb, if◌then◌else◌,
}
use endstone_exchange.Common.Int.{ℤ, pos, ◌-ℤ◌, pos_part, ltb_ℤ, eqb_ℤ}
use endstone_exchange.Tx.{Result, ok, err, Error}

abbrev pub Cents : Type 0
Cents = ℕ

-- std::numeric_limits<std::int64_t>::max()
abbrev pub cents_max : ℕ
cents_max = 9223372036854775807

-- The quotient of two positive numbers, which the test guards.
abbrev exceeds_quotient : ℤ → ℤ → Bool
exceeds_quotient price quantity = ltb (cents_max / pos_part quantity) (pos_part price)

unfoldable pub checked_product : ℤ → ℤ → Result Cents
checked_product price quantity =
    if ltb_ℤ price (pos 0)
      || ltb_ℤ quantity (pos 0)
      || (not (eqb_ℤ quantity (pos 0)) && exceeds_quotient price quantity)
    then err Error.product_too_large
    else ok (pos_part price * pos_part quantity)

abbrev pub IsProduct : ℕ → Result Cents → Type 0
IsProduct v (ok w) = (w ≡ v) × (v ≤ cents_max)
IsProduct v (err e) = Unit {0}

div_bound : (price n : ℕ) → ¬ (cents_max / suc n < price) → price * suc n ≤ cents_max
div_bound price n h = (le-div_iff_mul-le (omega arith)).0 (omega arith)

difference_pos : (limit price : ℕ) → price ≤ limit → pos limit -ℤ pos price ≡ pos (limit - price)
unfolding ◌-ℤ◌
difference_pos limit price h = ground arith

-- On numbers that are not negative the product is exact, and it fits the type.
pub checked_product-IsProduct :
    (price n : ℕ) → IsProduct (price * n) (checked_product (pos price) (pos n))
unfolding checked_product
checked_product-IsProduct price zero = ground arith
checked_product-IsProduct price (suc n) = ground (arith, div_bound price n)

-- The price difference of a fill: with `price ≤ limit`, the product and the rest make up the limit.
pub checked_product-difference :
    (limit price n : ℕ)
    → price ≤ limit
    → IsProduct ((limit - price) * n) (checked_product (pos limit -ℤ pos price) (pos n))
checked_product-difference limit price n h =
    rw (difference_pos limit price h) (checked_product-IsProduct (limit - price) n)
