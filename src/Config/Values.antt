-- ===== src/Config/Values.antt =====
-- The readers of single values in src/config.cpp: quoted texts, integers, Booleans and sums of money.
use endstone_exchange.Common.Int.{pos_part, negsuc, neg_part, neg_ℕ, pos, ltb_ℤ, ◌+ℤ◌, ℤ}
use endstone_exchange.Common.{
  ◌/◌, length, ◌-◌, ◌&&◌, ltb, leb, ◌||◌, ◌+◌, ◌*◌, ◌==◌, [], if◌then◌else◌, ◌∷◌, Bool, List,
  Option, ℕ, suc, false, true, none, some,
}
use endstone_exchange.Texts.{int64_max, trim, from_chars_signed, from_chars_unsigned}
use endstone_exchange.Config.{
  Checked, valid, invalid, unterminated_escape, invalid_integer, invalid_boolean, empty_money,
  invalid_money, money_too_large, ◌>>=◌, ◌>>◌, refuse_if, same_bytes, no_bytes,
}

-- What stands before the last byte, and the last byte
unfoldable pub but_last : ℕ → List ℕ → List ℕ × ℕ
but_last c [] = ([], c)
but_last c (d ∷ ds) = let (front, last) = but_last d ds in (c ∷ front, last)

abbrev pub unescaped : ℕ → ℕ
unescaped c = if c == b'n' then 10 else if c == b'r' then 13 else if c == b't' then 9 else c

abbrev pub prepend : ℕ → Checked (List ℕ) → Checked (List ℕ)
prepend c (valid cs) = valid (c ∷ cs)
prepend c (invalid e) = invalid e

-- The loop of `unquote`, by its flag `escaped`
unfoldable pub decoded : Bool → List ℕ → Checked (List ℕ)
decoded true [] = invalid unterminated_escape
decoded false [] = valid []
decoded true (c ∷ cs) = prepend (unescaped c) (decoded false cs)
decoded false (c ∷ cs) = let rest = decoded (c == 92) cs in if c == 92 then rest else prepend c rest

abbrev pub without_quotes : List ℕ → Checked (List ℕ)
without_quotes [] = valid []
without_quotes (c ∷ []) = valid (c ∷ [])
without_quotes (c ∷ d ∷ ds) =
    let (front, last) = but_last d ds in
    if c == b'"' && last == b'"' then decoded false front else valid (c ∷ d ∷ ds)

-- `unquote`
unfoldable pub unquote : List ℕ → Checked (List ℕ)
unfolding trim but_last decoded
unquote value = without_quotes (trim value)

abbrev pub whole_text {ℓ} : {A : Type ℓ} → Option (A × List ℕ) → Checked A
whole_text none = invalid invalid_integer
whole_text (some (v, [])) = valid v
whole_text (some (v, c ∷ cs)) = invalid invalid_integer

-- `parseInteger` at a signed and at an unsigned type
unfoldable pub parse_signed : ℕ → List ℕ → Checked ℤ
unfolding trim from_chars_signed
parse_signed max value = whole_text (from_chars_signed max (trim value))

unfoldable pub parse_unsigned : ℕ → List ℕ → Checked ℕ
unfolding trim from_chars_unsigned
parse_unsigned max value = whole_text (from_chars_unsigned max (trim value))

-- `std::tolower` in the locale "C", on each byte
abbrev pub lower_case : List ℕ → List ℕ
lower_case [] = []
lower_case (c ∷ cs) = (if leb b'A' c && leb c b'Z' then c + 32 else c) ∷ lower_case cs

-- `parseBool`
unfoldable pub parse_bool : List ℕ → Checked Bool
unfolding trim
parse_bool value =
    let text = lower_case (trim value) in
    if same_bytes text (b't' ∷ b'r' ∷ b'u' ∷ b'e' ∷ [])
    then valid true
    else if same_bytes text (b'f' ∷ b'a' ∷ b'l' ∷ b's' ∷ b'e' ∷ [])
    then valid false
    else invalid invalid_boolean

-- What stands before the first byte `m`, and what stands behind it, if there is one
unfoldable pub split_at : ℕ → List ℕ → List ℕ × Option (List ℕ)
split_at m [] = ([], none)
split_at m (c ∷ cs) =
    let (front, back) = split_at m cs in if c == m then ([], some cs) else (c ∷ front, back)

abbrev pub has_byte : ℕ → List ℕ → Bool
has_byte m [] = false
has_byte m (c ∷ cs) = c == m || has_byte m cs

abbrev pub behind_point : Option (List ℕ) → List ℕ
behind_point none = []
behind_point (some cs) = cs

-- The fraction filled up to two places
abbrev pub two_places : List ℕ → List ℕ
two_places [] = b'0' ∷ b'0' ∷ []
two_places (c ∷ []) = c ∷ b'0' ∷ []
two_places (c ∷ d ∷ ds) = c ∷ d ∷ ds

abbrev pub hundredfold : ℤ → ℤ
hundredfold (pos n) = pos (n * 100)
hundredfold (negsuc n) = neg_ℕ (suc n * 100)

abbrev pub negated : ℤ → ℤ
negated (pos n) = neg_ℕ n
negated (negsuc n) = pos (suc n)

-- The sum in integers without bound: where it leaves 64 bits, the code has no defined result.
unfoldable pub cents_of : Bool → List ℕ → List ℕ → Checked ℤ
unfolding parse_signed ◌+ℤ◌
cents_of negative whole_part fraction = do
  whole ← parse_signed int64_max whole_part
  minor ← parse_signed int64_max (two_places fraction)
  refuse_if (ltb_ℤ (pos ((int64_max + neg_part minor - pos_part minor) / 100)) whole)
      money_too_large
  let cents = hundredfold whole +ℤ minor
  valid (if negative then negated cents else cents)

abbrev pub unsigned_money : Bool → List ℕ → Checked ℤ
unsigned_money negative value =
    let (whole_part, back) = split_at b'.' value in
    let fraction = behind_point back in
    if no_bytes whole_part || ltb 2 (length fraction) || has_byte b'.' fraction
    then invalid invalid_money
    else cents_of negative whole_part fraction

abbrev pub signed_money : List ℕ → Checked ℤ
signed_money [] = invalid empty_money
signed_money (c ∷ cs) =
    if c == b'+' || c == b'-' then unsigned_money (c == b'-') cs else unsigned_money false (c ∷ cs)

-- `parseCents`
unfoldable pub parse_cents : List ℕ → Checked ℤ
unfolding trim split_at cents_of
parse_cents value = signed_money (trim value)
