-- ===== src/Trade.antt =====
-- The forms by which players enter orders, of src/trade_form.cpp: which actions are offered, the price
-- that is suggested, and the readers of what a player has typed. Texts are lists of bytes, and the
-- localized texts of the exceptions are left out.
pub mod Forms
pub mod Prices
pub mod Suggested
pub mod Answers
pub mod Fuel
use endstone_exchange.Common.Int.{pos_part, pos, ltb_ℤ, negsuc, leb_ℤ, ℤ}
use endstone_exchange.Common.{
  ◌&&◌, ◌==◌, leb, ◌*◌, ◌+◌, not, ◌%◌, ◌++◌, ◌||◌, [], ◌/◌, false, some, true, Option, ltb, ◌∷◌,
  ◌-◌, if◌then◌else◌, ℕ, Bool, List, none,
}
use endstone_exchange.Texts.{int64_max, trim, from_chars_signed}
use endstone_exchange.Domain.{Side, OrderType}

pub data FormError : Type 0 where
  invalid_price_range whole_number_range quantity_range_invalid price_range_invalid : FormError
  price_too_large price_step invalid_form_data : FormError

pub data Entered {ℓ} (A : Type ℓ) : Type ℓ where
  entered : A → Entered A
  refused : FormError → Entered A

-- `TradeAction`
pub data TradeAction : Type 0 where
  limit_buy limit_sell market_buy market_sell : TradeAction

unfoldable pub uses_price : TradeAction → Bool
uses_price limit_buy = true
uses_price limit_sell = true
uses_price market_buy = false
uses_price market_sell = false

unfoldable pub action_side : TradeAction → Side
action_side limit_buy = Side.buy
action_side limit_sell = Side.sell
action_side market_buy = Side.buy
action_side market_sell = Side.sell

unfoldable pub action_order_type : TradeAction → OrderType
unfolding uses_price
action_order_type a = if uses_price a then OrderType.limit else OrderType.market

unfoldable pub available_actions : Bool → Bool → List TradeAction
available_actions has_bids has_asks =
    (if has_asks then market_buy ∷ [] else [])
    ++ ((if has_bids then market_sell ∷ [] else []) ++ (limit_buy ∷ limit_sell ∷ []))

-- `std::clamp`, between bounds that are not negative
abbrev pub clamp : ℤ → ℕ → ℕ → ℕ
clamp (negsuc n) lo hi = lo
clamp (pos n) lo hi = if ltb n lo then lo else if ltb hi n then hi else n

-- The last comparison of the code is `minimum + steps * step <= maximum - step`; a step more on its left side
-- avoids a difference that may be negative.
abbrev pub on_grid : ℕ → ℕ → ℕ → ℕ → ℕ
on_grid lo hi step clamped =
    let steps = (clamped - lo) / step in
    let remainder = (clamped - lo) % step in
    lo
    + (if leb (step / 2 + step % 2) remainder && leb (lo + steps * step + step) hi
        then steps + 1
        else steps)
      * step

-- `defaultTradePrice`
unfoldable pub default_price : ℤ → ℤ → ℤ → ℤ → Entered ℕ
default_price minimum maximum step reference =
    if leb_ℤ minimum (pos 0) || ltb_ℤ maximum minimum || leb_ℤ step (pos 0)
    then refused invalid_price_range
    else entered (
        on_grid (pos_part minimum) (pos_part maximum) (pos_part step)
          (clamp reference (pos_part minimum) (pos_part maximum)))

abbrev pub in_range : ℤ → ℤ → Option (ℤ × List ℕ) → Entered ℤ
in_range minimum maximum none = refused whole_number_range
in_range minimum maximum (some (v, [])) =
    if ltb_ℤ v minimum || ltb_ℤ maximum v then refused whole_number_range else entered v
in_range minimum maximum (some (v, c ∷ cs)) = refused whole_number_range

-- `parseWholeNumber`; `from_chars` takes no empty text.
unfoldable pub parse_whole_number : List ℕ → ℤ → ℤ → Entered ℤ
unfolding trim from_chars_signed
parse_whole_number raw minimum maximum =
    in_range minimum maximum (from_chars_signed int64_max (trim raw))

-- `parseTradeQuantity`
unfoldable pub parse_quantity : List ℕ → ℤ → Entered ℤ
unfolding parse_whole_number
parse_quantity raw maximum =
    if ltb_ℤ maximum (pos 1)
    then refused quantity_range_invalid
    else parse_whole_number raw (pos 1) maximum

-- The units that were entered, in cents: they are not below the minimum, which is positive.
abbrev pub price_of : ℕ → ℕ → Entered ℤ → Entered ℕ
price_of minimum step (refused e) = refused e
price_of minimum step (entered units) =
    if ltb (int64_max / 100) (pos_part units)
    then refused price_too_large
    else if (pos_part units * 100 - minimum) % step == 0
    then entered (pos_part units * 100)
    else refused price_step

-- Which limits no price can be read for
unfoldable pub limits_invalid : ℤ → ℤ → ℤ → Bool
limits_invalid minimum maximum step =
    leb_ℤ minimum (pos 0)
    || ltb_ℤ maximum minimum
    || leb_ℤ step (pos 0)
    || not (pos_part minimum % 100 == 0)
    || not (pos_part maximum % 100 == 0)
    || not (pos_part step % 100 == 0)

-- `parseTradePrice`
unfoldable pub parse_price : List ℕ → ℤ → ℤ → ℤ → Entered ℕ
parse_price raw minimum maximum step =
    if limits_invalid minimum maximum step
    then refused price_range_invalid
    else price_of (pos_part minimum) (pos_part step)
        (parse_whole_number raw (pos (pos_part minimum / 100)) (pos (pos_part maximum / 100)))
