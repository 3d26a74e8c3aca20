-- ===== src/Trade/Prices.antt =====
-- The price that `defaultTradePrice` of src/trade_form.cpp suggests.
use endstone_exchange.Common.Int.{negsuc, pos, ℤ}
use endstone_exchange.Common.{
  false, Bool-cases, ◌&&◌, inr, leb, if◌then◌else◌, inl, subst, ◌⊎◌, ◌%◌, ◌/◌, arith, ◌+◌, ◌*◌, ◌-◌,
  ◌<◌, ◌≡◌, ◌≤◌, ℕ,
}
use native.Mathlib.Nat.{mul-le-mul_right, mod-lt, div-add-mod'}
use native.Mathlib.Decide.{dec_le}
use endstone_exchange.Common.{refl}
use endstone_exchange.Trade
use endstone_exchange.Trade.{default_price, clamp, entered}

abbrev distance : ℕ → ℕ → ℕ
distance a b = (a - b) + (b - a)

-- `r` is a price of the grid from `lo` up to `hi`, and none of them is nearer to `c`.
pub record IsNearest (lo hi step c r : ℕ) : Type 0 where
  pub steps : ℕ
  pub on_grid : r ≡ lo + steps * step
  pub below : r ≤ hi
  pub nearest : (k : ℕ) → lo + k * step ≤ hi → distance r c ≤ distance (lo + k * step) c

step_more : (q s : ℕ) → (q + 1) * s ≡ q * s + s
step_more q s = grind arith

-- Another price of the grid is a step away or more.
grid_cases : (k q s : ℕ) → (k * s ≤ q * s) ⊎ (q * s + s ≤ k * s)
grid_cases k q s = elim (dec_le k q) [
  | yes h ↦ inl (mul-le-mul_right s h)
  | no h ↦ inr (rw (← (step_more q s)) (mul-le-mul_right s (omega arith)))
]

not_both : (a b c d : ℕ) → (leb a b && leb c d) ≡ false → (b < a) ⊎ (d < c)
not_both a b c d h = elim (dec_le a b) [ yes p ↦ inr (ground arith) | no p ↦ inl (omega arith) ]

-- The quotient `q` and the remainder `m` of the way from the minimum
module _ (lo hi step q m : ℕ) (small : m < step) (within : lo + (q * step + m) ≤ hi) where
  down-IsNearest :
      (m < step / 2 + step % 2) ⊎ (hi < lo + q * step + step)
      → IsNearest lo hi step (lo + (q * step + m)) (lo + q * step)
  down-IsNearest c = record {
    steps = q;
    on_grid = refl;
    below = omega arith;
    nearest = λ k h. ground (arith, grid_cases k q step);
  }

  up-IsNearest :
      step / 2 + step % 2 ≤ m
      → lo + q * step + step ≤ hi
      → IsNearest lo hi step (lo + (q * step + m)) (lo + (q + 1) * step)
  up-IsNearest half fits = record {
    steps = q + 1;
    on_grid = refl;
    below = omega (arith, step_more q step);
    nearest = λ k h. ground (arith, grid_cases k q step, step_more q step);
  }

  chosen-IsNearest : IsNearest lo hi step (lo + (q * step + m)) (
      lo
      + (if leb (step / 2 + step % 2) m && leb (lo + q * step + step) hi then q + 1 else q) * step)
  chosen-IsNearest =
      elim (Bool-cases (leb (step / 2 + step % 2) m && leb (lo + q * step + step) hi)) [
        | inl e ↦ rw e (up-IsNearest (ground arith) (ground arith))
        | inr e ↦ rw e (down-IsNearest (not_both _ _ _ _ e))
      ]

on_grid-IsNearest :
    (lo hi step c : ℕ)
    → 0 < step
    → lo ≤ c
    → c ≤ hi
    → IsNearest lo hi step c (Trade.on_grid lo hi step c)
on_grid-IsNearest lo hi step c p a b =
    subst (λ d. IsNearest lo hi step d (Trade.on_grid lo hi step c)) whole
      (chosen-IsNearest lo hi step ((c - lo) / step) ((c - lo) % step) (mod-lt (c - lo) p)
        (omega (arith, whole)))
  where
    whole : lo + ((c - lo) / step * step + (c - lo) % step) ≡ c
    whole = omega (arith, div-add-mod' (c - lo) step)

clamp_bounds : (v : ℤ) (lo hi : ℕ) → lo ≤ hi → (lo ≤ clamp v lo hi) × (clamp v lo hi ≤ hi)
clamp_bounds (pos n) lo hi h = ground arith
clamp_bounds (negsuc n) lo hi h = omega arith

-- For a range of positive prices and a positive step, a price is suggested, at least the minimum, and it is the price of the
-- grid that is nearest to the reference, clamped to the range.
pub default_price-IsNearest :
    (lo hi step : ℕ) (reference : ℤ)
    → 0 < lo
    → lo ≤ hi
    → 0 < step
    → (r : ℕ) × (default_price (pos lo) (pos hi) (pos step) reference ≡ entered r)
      × IsNearest lo hi step (clamp reference lo hi) r
unfolding default_price
default_price-IsNearest lo hi step reference p q s = (
  Trade.on_grid lo hi step (clamp reference lo hi),
  ground arith,
  on_grid-IsNearest lo hi step _ s (clamp_bounds reference lo hi q).0
      (clamp_bounds reference lo hi q).1,
)
