-- ===== src/Texts.antt =====
-- What src/trade_form.cpp and src/config.cpp use of the C++ library on texts: `std::isspace` in the locale
-- "C", the removal of spaces, `std::from_chars` for integers and `std::to_string`. A text is the list of
-- its bytes.
pub mod Decimal
use endstone_exchange.Common.{
  ℕ, zero, suc, ◌+◌, ◌-◌, ◌*◌, ◌/◌, ◌%◌, Bool, true, false, ◌&&◌, ◌||◌, Option, none, some, List,
  [], ◌∷◌, ◌++◌, ltb, leb, ◌==◌, if◌then◌else◌,
}
use Prim.Native.Char.{code}
use Prim.Native.String.{String}
use Prim.Native.String
use endstone_exchange.Common.Int.{ℤ, pos, neg_ℕ}

-- `std::numeric_limits<std::int64_t>::max()`
abbrev pub int64_max : ℕ
int64_max = 9223372036854775807

-- The bytes of a text of the program, which is ASCII
abbrev pub codes : String → List ℕ
codes String.[] = []
codes (String.◌∷◌ c s) = code c ∷ codes s

unfoldable pub is_space : ℕ → Bool
is_space c = c == 32 || (leb 9 c && leb c 13)

unfoldable pub is_digit : ℕ → Bool
is_digit c = leb b'0' c && leb c b'9'

unfoldable pub skip_spaces : List ℕ → List ℕ
unfolding is_space
skip_spaces [] = []
skip_spaces (c ∷ cs) = let rest = skip_spaces cs in if is_space c then rest else c ∷ cs

-- The spaces at the end are left out.
abbrev pub keep_unless_space : ℕ → List ℕ → List ℕ
keep_unless_space c [] = if is_space c then [] else c ∷ []
keep_unless_space c (d ∷ ds) = c ∷ d ∷ ds

unfoldable pub trim_end : List ℕ → List ℕ
unfolding is_space
trim_end [] = []
trim_end (c ∷ cs) = keep_unless_space c (trim_end cs)

-- `trim`
unfoldable pub trim : List ℕ → List ℕ
unfolding skip_spaces trim_end
trim cs = trim_end (skip_spaces cs)

-- The number that the leading digits stand for, and what follows them
unfoldable pub leading : ℕ → List ℕ → ℕ × List ℕ
unfolding is_digit
leading acc [] = (acc, [])
leading acc (c ∷ cs) =
    let more = leading (acc * 10 + (c - b'0')) cs in if is_digit c then more else (acc, c ∷ cs)

abbrev pub starts_with_digit : List ℕ → Bool
starts_with_digit [] = false
starts_with_digit (c ∷ cs) = is_digit c

-- `std::from_chars` into an unsigned type with the given maximum: `none` is an error code. It takes no sign.
unfoldable pub from_chars_unsigned : ℕ → List ℕ → Option (ℕ × List ℕ)
unfolding is_digit leading
from_chars_unsigned max cs =
    let (v, rest) = leading 0 cs in
    if starts_with_digit cs && leb v max then some (v, rest) else none

abbrev pub as_positive : Option (ℕ × List ℕ) → Option (ℤ × List ℕ)
as_positive none = none
as_positive (some (v, rest)) = some (pos v, rest)

abbrev pub as_negative : Option (ℕ × List ℕ) → Option (ℤ × List ℕ)
as_negative none = none
as_negative (some (v, rest)) = some (neg_ℕ v, rest)

-- `std::from_chars` into a signed type: a minus sign is taken, a plus sign is not.
unfoldable pub from_chars_signed : ℕ → List ℕ → Option (ℤ × List ℕ)
unfolding from_chars_unsigned
from_chars_signed max [] = none
from_chars_signed max (c ∷ cs) =
    if c == b'-'
    then as_negative (from_chars_unsigned (suc max) cs)
    else as_positive (from_chars_unsigned max (c ∷ cs))

-- `std::to_string` of a number that is not negative; the fuel is above the count of its digits.
unfoldable pub digits : ℕ → ℕ → List ℕ
digits zero n = []
digits (suc f) n =
    let front = digits f (n / 10) in (if ltb n 10 then [] else front) ++ ((b'0' + n % 10) ∷ [])

unfoldable pub to_string : ℕ → List ℕ
unfolding digits
to_string n = digits (suc n) n
