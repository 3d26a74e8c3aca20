-- ===== src/Trade/Suggested.antt =====
-- The form suggests a price as a text and reads the text that comes back: src/trade_form.cpp, with the text of
-- `openTradeInputForm` in src/plugin.cpp.
use endstone_exchange.Common.Int.{negsuc, ◌≤ℤ◌, pos_part, pos, ℤ}
use endstone_exchange.Common.{
  ◌+◌, ap, inr, ◌∷◌, some, false, inl, subst, Option, Bool-cases, ◌*◌, ◌/◌, ◌-◌, arith, ◌≡◌, ◌%◌,
  ◌≤◌, ◌<◌, List, ℕ, refl, none, [],
}
use native.Mathlib.Nat.{mul-mod_left, mul_left_comm}
use endstone_exchange.Texts.{int64_max, to_string}
use endstone_exchange.Texts.Decimal.{trim-to_string, from_chars_signed-to_string}
use endstone_exchange.Trade.{
  limits_invalid, Entered, entered, refused, in_range, parse_whole_number, price_of, parse_price,
  default_price,
}
use endstone_exchange.Trade.Prices.{default_price-IsNearest}

parse_whole_number-to_string :
    (n lo hi : ℕ)
    → lo ≤ n
    → n ≤ hi
    → hi ≤ int64_max
    → parse_whole_number (to_string n) (pos lo) (pos hi) ≡ entered (pos n)
unfolding parse_whole_number
parse_whole_number-to_string n lo hi a b c =
    rw (trim-to_string n)
      (rw (from_chars_signed-to_string int64_max n (omega arith)) (ground arith))

-- Limits of positive prices in whole units
abbrev pub AreLimits : ℕ → ℕ → ℕ → Type 0
AreLimits lo hi step =
    (0 < lo)
    × (lo ≤ hi)
    × (hi ≤ int64_max)
    × (0 < step)
    × (lo % 100 ≡ 0)
    × (hi % 100 ≡ 0)
    × (step % 100 ≡ 0)

AreLimits-limits_invalid :
    (lo hi step : ℕ) → AreLimits lo hi step → limits_invalid (pos lo) (pos hi) (pos step) ≡ false
unfolding limits_invalid
AreLimits-limits_invalid lo hi step h = ground arith

price_of_grid :
    (p lo step : ℕ)
    → p % 100 ≡ 0
    → p ≤ int64_max
    → (p - lo) % step ≡ 0
    → price_of lo step (entered (pos (p / 100))) ≡ entered p
price_of_grid p lo step up fits grid =
    let whole : p / 100 * 100 ≡ p = omega arith in rw whole (rw grid (ground arith))

-- A price of the range in whole units that lies on the grid is read back from its text.
parse_price-to_string :
    (p lo hi step : ℕ)
    → AreLimits lo hi step
    → lo ≤ p
    → p ≤ hi
    → p % 100 ≡ 0
    → (p - lo) % step ≡ 0
    → parse_price (to_string (p / 100)) (pos lo) (pos hi) (pos step) ≡ entered p
unfolding parse_price
parse_price-to_string p lo hi step limits above below up grid =
    rw (AreLimits-limits_invalid lo hi step limits) (
      rw
        (parse_whole_number-to_string (p / 100) (lo / 100) (hi / 100) (omega arith) (omega arith)
          (omega arith))
        (price_of_grid p lo step up (omega arith) grid))

multiple : (k step : ℕ) → step % 100 ≡ 0 → k * step % 100 ≡ 0
multiple k step h = omega (
  arith,
  ap (λ (t : ℕ). k * t) (let e : step ≡ 100 * (step / 100) = omega arith in e),
  mul_left_comm k 100 (step / 100),
)

grid_mod : (lo k step p : ℕ) → p ≡ lo + k * step → (p - lo) % step ≡ 0
grid_mod lo k step p e =
    let whole : p - lo ≡ k * step = omega arith in rw whole (mul-mod_left k step)

-- The price that the form suggests is accepted and gives itself, for limits of positive prices in whole units.
pub parse_price-default_price :
    (lo hi step : ℕ) (reference : ℤ) (r : ℕ)
    → AreLimits lo hi step
    → default_price (pos lo) (pos hi) (pos step) reference ≡ entered r
    → parse_price (to_string (r / 100)) (pos lo) (pos hi) (pos step) ≡ entered r
parse_price-default_price lo hi step reference r limits h =
    let (s, e, n) = default_price-IsNearest lo hi step reference limits.0 limits.1 limits.3 in
    let same : s ≡ r = cc in
    subst (λ p. parse_price (to_string (p / 100)) (pos lo) (pos hi) (pos step) ≡ entered p) same
      (parse_price-to_string s lo hi step limits (omega (arith, n.on_grid)) n.below
        (omega (arith, n.on_grid, multiple n.steps step limits.6))
        (grid_mod lo n.steps step s n.on_grid))

in_range_bounds :
    (lo hi : ℤ) (o : Option (ℤ × List ℕ)) (v : ℤ)
    → in_range lo hi o ≡ entered v
    → (lo ≤ℤ v) × (v ≤ℤ hi)
in_range_bounds lo hi none v h = cc
in_range_bounds lo hi (some (w, [])) v h = ground arith
in_range_bounds lo hi (some (w, c ∷ cs)) v h = cc

positive_bounds : (a b : ℕ) (v : ℤ) → pos a ≤ℤ v → v ≤ℤ pos b → (a ≤ pos_part v) × (pos_part v ≤ b)
positive_bounds a b (pos n) h k = omega arith
positive_bounds a b (negsuc n) h k = omega arith

pub parse_whole_number_within :
    (raw : List ℕ) (lo hi v : ℤ) → parse_whole_number raw lo hi ≡ entered v → (lo ≤ℤ v) × (v ≤ℤ hi)
unfolding parse_whole_number
parse_whole_number_within raw lo hi v h = in_range_bounds lo hi _ v h

price_of_inv :
    (lo step : ℕ) (e : Entered ℤ) (p : ℕ)
    → price_of lo step e ≡ entered p
    → (v : ℤ) × (e ≡ entered v) × (p ≡ pos_part v * 100) × (p ≤ int64_max) × ((p - lo) % step ≡ 0)
price_of_inv lo step (refused x) p h = cc
price_of_inv lo step (entered v) p h = (v, refl, ground arith, ground arith, ground arith)

limits_valid :
    (lo hi step : ℤ)
    → limits_invalid lo hi step ≡ false
    → (0 < pos_part lo) × (pos_part lo % 100 ≡ 0) × (pos_part hi % 100 ≡ 0)
unfolding limits_invalid
limits_valid lo hi step h = ground arith

-- A price that is accepted lies in the range and on the grid, is of whole units, and is positive.
pub parse_price-IsPrice :
    (raw : List ℕ) (lo hi step : ℤ) (p : ℕ)
    → parse_price raw lo hi step ≡ entered p
    → (pos_part lo ≤ p)
      × (p ≤ pos_part hi)
      × (p % 100 ≡ 0)
      × ((p - pos_part lo) % pos_part step ≡ 0)
      × (0 < p)
      × (p ≤ int64_max)
unfolding parse_price
parse_price-IsPrice raw lo hi step p h = elim (Bool-cases (limits_invalid lo hi step)) [
  | inl bad ↦ cc (rw bad at h)
  | inr fine ↦
      let (v, e, whole, fits, grid) =
        price_of_inv (pos_part lo) (pos_part step) _ p (rw fine at h) in
      let (a, b) =
        parse_whole_number_within raw (pos (pos_part lo / 100)) (pos (pos_part hi / 100)) v e in
      let (above, below) = positive_bounds (pos_part lo / 100) (pos_part hi / 100) v a b in
      let limits = limits_valid lo hi step fine in
      (omega arith, omega arith, omega arith, grid, omega arith, fits)
]
