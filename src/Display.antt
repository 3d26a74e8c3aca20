-- ===== src/Display.antt =====
-- The parts of src/market_display.cpp that decide and print: chunks of blocks, the support of an item frame, when a
-- hologram is moved, and sums of money. The comparison of floating-point anchors within a tolerance is the
-- argument `near`.
use endstone_exchange.Common.{
  ◌-◌, ℕ, suc, ◌+◌, ◌*◌, ◌/◌, ◌%◌, ◌<◌, ◌≡◌, ◌==◌, Bool, true, false, not, Option, none, some, List,
  [], ◌∷◌, ◌++◌, arith, if◌then◌else◌,
}
use endstone_exchange.Common.Int.{ℤ, pos, negsuc, pos_part, neg_part, neg_ℕ}
use endstone_exchange.Domain.{TargetKind}
use endstone_exchange.Texts.{to_string}

-- `blockToChunk`
unfoldable pub block_to_chunk : ℤ → ℤ
block_to_chunk (pos n) = pos (n / 16)
block_to_chunk (negsuc n) = neg_ℕ ((suc n + 15) / 16)

-- A block lies less than 16 blocks behind the start of its chunk, on both sides of 0.
pub block_to_chunk-lem :
    (b : ℤ)
    → (r : ℕ) × (r < 16)
      × (pos_part b + 16 * neg_part (block_to_chunk b)
          ≡ 16 * pos_part (block_to_chunk b) + neg_part b + r)
unfolding block_to_chunk
block_to_chunk-lem (pos n) = (n % 16, omega arith, omega arith)
block_to_chunk-lem (negsuc n) =
    let chunks : (suc n + 15) / 16 ≡ suc (n / 16) = omega arith in
    (16 * suc (n / 16) - suc n, omega arith, rw chunks (omega arith))

-- `BlockOffset`
pub record BlockOffset : Type 0 where
  pub x : ℤ
  pub y : ℤ
  pub z : ℤ

abbrev offset : ℤ → ℤ → ℤ → Option BlockOffset
offset x y z = some (record { x = x; y = y; z = z })

abbrev offset_at : ℕ → Option BlockOffset
offset_at n =
    if n == 0
    then offset (pos 0) (pos 1) (pos 0)
    else if n == 1
    then offset (pos 0) (negsuc 0) (pos 0)
    else if n == 2
    then offset (pos 0) (pos 0) (pos 1)
    else if n == 3
    then offset (pos 0) (pos 0) (negsuc 0)
    else if n == 4
    then offset (pos 1) (pos 0) (pos 0)
    else if n == 5
    then offset (negsuc 0) (pos 0) (pos 0)
    else none

-- `itemFrameSupportOffset`
unfoldable pub support_offset : ℤ → Option BlockOffset
support_offset (pos n) = offset_at n
support_offset (negsuc n) = none

abbrev is_actor : TargetKind → Bool
is_actor TargetKind.actor = true
is_actor k = false

-- `shouldRepositionHologram`
unfoldable pub should_reposition :
    {Anchor : Type 0} → (Anchor → Anchor → Bool) → TargetKind → Option Anchor → Anchor → Bool
should_reposition near kind none current = is_actor kind
should_reposition near kind (some previous) current = not (near previous current)

-- An integer as `std::format` prints it
abbrev signed_text : ℤ → List ℕ
signed_text (pos n) = to_string n
signed_text (negsuc n) = b'-' ∷ to_string (suc n)

-- A quotient is rounded towards 0.
abbrev whole_units : ℤ → ℤ
whole_units (pos n) = pos (n / 100)
whole_units (negsuc n) = neg_ℕ (suc n / 100)

-- `formatUnitPrice`
unfoldable pub format_unit_price : ℤ → List ℕ
unfolding to_string
format_unit_price cents = signed_text (whole_units cents) ++ (b'u' ∷ [])

-- The sum without its sign
abbrev magnitude_text : ℕ → List ℕ
magnitude_text magnitude =
    let fraction = magnitude % 100 in
    to_string (magnitude / 100)
    ++ (if fraction == 0
        then b'u' ∷ []
        else b'.' ∷ (b'0' + fraction / 10) ∷ (b'0' + fraction % 10) ∷ b'u' ∷ [])

-- `formatCurrency`
unfoldable pub format_currency : ℤ → List ℕ
unfolding to_string
format_currency (pos n) = magnitude_text n
format_currency (negsuc n) = b'-' ∷ magnitude_text (suc n)
