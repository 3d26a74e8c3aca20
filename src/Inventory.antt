-- ===== src/Inventory.antt =====
-- Items in the inventories of players, of src/inventory_escrow.cpp: the markers by which the exchange knows its own items, stacks
-- that are tagged for a sale, and the receipts that stand for them. `endstone::ItemStack` and
-- `endstone::PlayerInventory` belong to Endstone: a stack is what the code reads and sets of it, an inventory
-- is its slots and the off hand.
pub mod Escrow
pub mod Tagging
pub mod Counted
pub mod Restoring
pub mod Splitting
use endstone_exchange.Config.{same_bytes}
use endstone_exchange.Common.{
  ◌&&◌, ◌==◌, ◌%◌, true, if◌then◌else◌, ◌-◌, ◌≡◌, false, ◌+◌, ◌||◌, ℕ, Bool, Option, List, none,
  some, zero, suc, [], ◌∷◌,
}
use endstone_exchange.Common.Int.{eqb_ℤ, ℤ, pos}
use endstone_exchange.Texts.{codes, skip_spaces, from_chars_unsigned, to_string}
use endstone_exchange.Nbt.{Tag, Fields, Host, string_tag, no_fields}
use endstone_exchange.Structure.{field_at}

-- What the code uses of `endstone::CompoundTag` beside `Host`: `erase`, `==`, and that an entry is found
-- behind its insertion.
pub record Compounds : Type 0 where
  pub host : Host
  pub erase : List ℕ → Fields → Fields
  pub same : Fields → Fields → Bool
  pub same-eq : (a b : Fields) → same a b ≡ true → a ≡ b
  pub field_at-insert :
      (k : List ℕ) (t : Tag) (fs : Fields) → field_at k (host.insert_or_assign k t fs) ≡ some t

pub record Stack : Type 0 where
  pub item_type : List ℕ
  pub amount : ℕ
  pub item_data : ℤ
  pub nbt : Fields

pub record Inventory : Type 0 where
  pub slots : List (Option Stack)
  pub off_hand : Option Stack

-- `ItemPrototype`, its NBT decoded: `originalNbt`
pub record Prototype : Type 0 where
  pub item_type : List ℕ
  pub item_data : ℤ
  pub original : Fields

-- `DeliveryClaimTag`, `SellItemTag`, `SellReceiptTag`, `FrameSaleTag`
abbrev pub delivery_claim_tag : List ℕ
delivery_claim_tag = codes "__endstone_exchange_claim"

abbrev pub sell_item_tag : List ℕ
sell_item_tag = codes "__endstone_exchange_sell_item"

abbrev pub sell_receipt_tag : List ℕ
sell_receipt_tag = codes "__endstone_exchange_sell_receipt"

abbrev pub frame_sale_tag : List ℕ
frame_sale_tag = codes "__endstone_exchange_frame_sale"

-- `std::numeric_limits<std::uint64_t>::max()`
abbrev pub id_max : ℕ
id_max = 18446744073709551615

abbrev negative_of : Option (ℕ × List ℕ) → Option (ℕ × List ℕ)
negative_of none = none
negative_of (some (v, rest)) = some ((suc id_max - v) % suc id_max, rest)

abbrev signed_digits : List ℕ → Option (ℕ × List ℕ)
signed_digits [] = none
signed_digits (c ∷ cs) =
    if c == b'-'
    then negative_of (from_chars_unsigned id_max cs)
    else if c == b'+'
    then from_chars_unsigned id_max cs
    else from_chars_unsigned id_max (c ∷ cs)

-- `std::stoull`: `none` is an exception, and the list is what was not consumed.
unfoldable pub stoull : List ℕ → Option (ℕ × List ℕ)
unfolding skip_spaces from_chars_unsigned
stoull cs = signed_digits (skip_spaces cs)

abbrev pub whole_id : Option (ℕ × List ℕ) → Option ℕ
whole_id none = none
whole_id (some (v, [])) = some v
whole_id (some (v, c ∷ cs)) = none

abbrev pub id_of_tag : Option Tag → Option ℕ
id_of_tag (some (string_tag value)) = whole_id (stoull value)
id_of_tag o = none

-- `markerId`
unfoldable pub marker_id : List ℕ → Fields → Option ℕ
unfolding field_at stoull
marker_id marker nbt = id_of_tag (field_at marker nbt)

abbrev pub same_id : Option ℕ → ℕ → Bool
same_id none id = false
same_id (some i) id = i == id

abbrev pub is_some {ℓ} : {A : Type ℓ} → Option A → Bool
is_some none = false
is_some (some a) = true

-- `isInternalEscrowItem`
unfoldable pub is_internal : Stack → Bool
unfolding marker_id
is_internal s =
    is_some (marker_id delivery_claim_tag s.nbt)
    || is_some (marker_id sell_item_tag s.nbt)
    || is_some (marker_id sell_receipt_tag s.nbt)

-- `matchesItemIdentity` of src/item_identity.cpp
unfoldable pub matches : Compounds → Prototype → Stack → Bool
matches m p s =
    same_bytes s.item_type p.item_type && eqb_ℤ s.item_data p.item_data && m.same s.nbt p.original

-- `setMarker`
unfoldable pub set_marker : Compounds → List ℕ → ℕ → Fields → Fields
set_marker m marker id nbt = m.host.insert_or_assign marker (string_tag (to_string id)) nbt

abbrev pub marked : Compounds → List ℕ → ℕ → Stack → Stack
marked m marker id s = record s { nbt = set_marker m marker id s.nbt }

-- Whether the place holds an item with the marker
abbrev pub has_marker : List ℕ → ℕ → Option Stack → Bool
has_marker marker id none = false
has_marker marker id (some s) = same_id (marker_id marker s.nbt) id

-- A loop over the slots and then the off hand, that changes each place on its own
abbrev pub on_slots : (Option Stack → Option Stack) → List (Option Stack) → List (Option Stack)
on_slots f [] = []
on_slots f (o ∷ os) = f o ∷ on_slots f os

abbrev pub on_places : (Option Stack → Option Stack) → Inventory → Inventory
on_places f v = record { slots = on_slots f v.slots; off_hand = f v.off_hand }

-- And one that adds up
abbrev pub sum_slots : (Option Stack → ℕ) → List (Option Stack) → ℕ
sum_slots f [] = 0
sum_slots f (o ∷ os) = f o + sum_slots f os

abbrev pub sum_places : (Option Stack → ℕ) → Inventory → ℕ
sum_places f v = sum_slots f v.slots + f v.off_hand

abbrev pub amount_of : Option Stack → ℕ
amount_of none = 0
amount_of (some s) = s.amount

-- Removing, as `removeDeliveryClaimItems`, `removeTaggedSellItems` and `removeSellReceipts` do, by the marker
unfoldable pub remove_marked : List ℕ → ℕ → Inventory → Inventory
unfolding marker_id
remove_marked marker id = on_places λ o. if has_marker marker id o then none else o

-- Counting, as `taggedItemCount`, `sellReceiptCount` and `taggedSellItems` do
unfoldable pub count_marked : List ℕ → ℕ → Inventory → ℕ
unfolding marker_id
count_marked marker id = sum_places λ o. if has_marker marker id o then amount_of o else 0

unfoldable pub stacks_marked : List ℕ → ℕ → Inventory → ℕ
unfolding marker_id
stacks_marked marker id = sum_places λ o. if has_marker marker id o then 1 else 0
