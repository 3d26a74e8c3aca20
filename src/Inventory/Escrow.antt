-- ===== src/Inventory/Escrow.antt =====
-- The operations of src/inventory_escrow.cpp on whole inventories: splitting into stacks, clearing markers, tagging for
-- a sale, restoring, and exchanging tagged items for receipts.
use endstone_exchange.Common.{
  inr, ◌-◌, inl, ◌==◌, leb, false, ltb, ◌&&◌, not, ◌++◌, if◌then◌else◌, ◌+◌, ◌⊎◌, Bool, List, ℕ,
  Option, none, some, zero, suc, [], ◌∷◌,
}
use endstone_exchange.Common.Int.{leb_ℤ, pos_part, ℤ, pos}
use endstone_exchange.Nbt.{Fields}
use endstone_exchange.Inventory.{
  Compounds, Stack, Inventory, Prototype, delivery_claim_tag, sell_item_tag, frame_sale_tag,
  marker_id, same_id, is_some, is_internal, matches, set_marker, marked, has_marker, on_places,
  sum_places,
}

-- The sample of a prototype, with the marker of a delivery if there is one
abbrev pub sample : Compounds → Prototype → Option ℕ → Stack
sample m p none = record {
  item_type = p.item_type;
  amount = 1;
  item_data = p.item_data;
  nbt = p.original;
}
sample m p (some id) = record {
  item_type = p.item_type;
  amount = 1;
  item_data = p.item_data;
  nbt = set_marker m delivery_claim_tag id p.original;
}

-- The loop of `splitStacks`: each round takes an item at least.
unfoldable pub split_loop : ℕ → Stack → ℕ → ℕ → List Stack
split_loop zero s stack_size remaining = []
split_loop (suc fuel) s stack_size remaining =
    let amount = if ltb stack_size remaining then stack_size else remaining in
    let rest = split_loop fuel s stack_size (remaining - amount) in
    if remaining == 0 then [] else record s { amount = amount } ∷ rest

-- `splitStacks`, with `getMaxStackSize` as an argument
unfoldable pub split_stacks : Compounds → Prototype → ℤ → ℤ → Option ℕ → List Stack
unfolding split_loop set_marker
split_stacks m p max_stack quantity claim =
    split_loop (pos_part quantity) (sample m p claim)
      (if ltb (pos_part max_stack) 1 then 1 else pos_part max_stack) (pos_part quantity)

-- `itemCount`
unfoldable pub item_count : List Stack → ℕ
item_count [] = 0
item_count (s ∷ ss) = s.amount + item_count ss

-- `clearDeliveryClaimTag` and `clearFrameSaleItemTag` on a compound: whether the marker is gone, and the compound
unfoldable pub clear_marker : Compounds → List ℕ → ℕ → Fields → Bool × Fields
unfolding marker_id
clear_marker m marker id nbt =
    if same_id (marker_id marker nbt) id
    then (not (is_some (marker_id marker (m.erase marker nbt))), m.erase marker nbt)
    else (false, nbt)

abbrev cleared : Compounds → List ℕ → ℕ → Option Stack → Option Stack
cleared m marker id none = none
cleared m marker id (some s) =
    let (done, nbt) = clear_marker m marker id s.nbt in
    if done then some (record s { nbt = nbt }) else some s

-- `clearDeliveryClaimTag` on an inventory
unfoldable pub clear_claim_tags : Compounds → ℕ → Inventory → Inventory
unfolding clear_marker
clear_claim_tags m id = on_places (cleared m delivery_claim_tag id)

-- `tagFrameSaleItem`
unfoldable pub tag_frame_item : Compounds → ℕ → Fields → Fields
unfolding set_marker
tag_frame_item m id nbt = set_marker m frame_sale_tag id nbt

-- An identifier in the order of a `std::set`
unfoldable pub insert_id : ℕ → List ℕ → List ℕ
insert_id i [] = i ∷ []
insert_id i (j ∷ js) =
    let rest = insert_id i js in if ltb i j then i ∷ j ∷ js else if i == j then j ∷ js else j ∷ rest

abbrev id_at : List ℕ → Option Stack → Option ℕ
id_at marker none = none
id_at marker (some s) = marker_id marker s.nbt

abbrev with_id : Option ℕ → List ℕ → List ℕ
with_id none ids = ids
with_id (some i) ids = insert_id i ids

abbrev ids_of_slots : List ℕ → List (Option Stack) → List ℕ → List ℕ
ids_of_slots marker [] ids = ids
ids_of_slots marker (o ∷ os) ids = ids_of_slots marker os (with_id (id_at marker o) ids)

-- One of the three lists of `internalEscrowMarkers`, by its marker
unfoldable pub escrow_markers : List ℕ → Inventory → List ℕ
unfolding marker_id insert_id
escrow_markers marker v = with_id (id_at marker v.off_hand) (ids_of_slots marker v.slots [])

-- Whether an item can be sold as the prototype
abbrev pub sellable : Compounds → Prototype → Stack → Bool
sellable m p s = not (is_internal s) && matches m p s

abbrev sellable_amount : Compounds → Prototype → Option Stack → ℕ
sellable_amount m p none = 0
sellable_amount m p (some s) = if sellable m p s then s.amount else 0

-- `sellableItemCount`
unfoldable pub sellable_count : Compounds → Prototype → Inventory → ℕ
unfolding is_internal matches
sellable_count m p = sum_places (sellable_amount m p)

-- A slot, or the off hand
pub data Place : Type 0 where
  slot : ℕ → Place
  off_hand : Place

abbrev pub Candidate : Type 0
Candidate = Place × Stack

abbrev pub candidate_at : Compounds → Prototype → Place → Option Stack → List Candidate
candidate_at m p place none = []
candidate_at m p place (some s) = if sellable m p s then (place, s) ∷ [] else []

abbrev pub slot_candidates : Compounds → Prototype → ℕ → List (Option Stack) → List Candidate
slot_candidates m p i [] = []
slot_candidates m p i (o ∷ os) = candidate_at m p (slot i) o ++ slot_candidates m p (suc i) os

abbrev pub candidates : Compounds → Prototype → Inventory → List Candidate
candidates m p v = slot_candidates m p 0 v.slots ++ candidate_at m p Place.off_hand v.off_hand

abbrev pub total : List Candidate → ℕ
total [] = 0
total ((place, s) ∷ cs) = s.amount + total cs

-- The candidates by their amounts. `std::sort` may put equal amounts in another order.
unfoldable pub insert_candidate : Candidate → List Candidate → List Candidate
insert_candidate c [] = c ∷ []
insert_candidate c (d ∷ ds) =
    let rest = insert_candidate c ds in if leb c.1.amount d.1.amount then c ∷ d ∷ ds else d ∷ rest

unfoldable pub by_amount : List Candidate → List Candidate
unfolding insert_candidate
by_amount [] = []
by_amount (c ∷ cs) = insert_candidate c (by_amount cs)

abbrev pub set_slot : ℕ → Stack → List (Option Stack) → List (Option Stack)
set_slot i s [] = []
set_slot zero s (o ∷ os) = some s ∷ os
set_slot (suc i) s (o ∷ os) = o ∷ set_slot i s os

abbrev pub set_item : Place → Stack → Inventory → Inventory
set_item (slot i) s v = record v { slots = set_slot i s v.slots }
set_item Place.off_hand s v = record v { off_hand = some s }

-- `TaggedSellItems`
pub record Tagged : Type 0 where
  pub quantity : ℕ
  pub stacks : ℕ

-- The loop of `tagSellItems`
unfoldable pub tag_loop :
    Compounds → ℕ → ℕ → List Candidate → Inventory → Tagged → Inventory × Tagged
unfolding set_marker
tag_loop m escrow requested [] v t = (v, t)
tag_loop m escrow requested ((place, s) ∷ cs) v t =
    let rest =
      tag_loop m escrow requested cs (set_item place (marked m sell_item_tag escrow s) v)
        (record { quantity = t.quantity + s.amount; stacks = t.stacks + 1 }) in
    if leb requested t.quantity then (v, t) else rest

pub data Refusal : Type 0 where
  quantity_not_positive inventory_insufficient : Refusal

-- `tagSellItems`
unfoldable pub tag_sell_items :
    Compounds → Prototype → ℤ → ℕ → Inventory → Refusal ⊎ (Inventory × Tagged)
tag_sell_items m p requested escrow v =
    if leb_ℤ requested (pos 0)
    then inl quantity_not_positive
    else if ltb (total (candidates m p v)) (pos_part requested)
    then inl inventory_insufficient
    else inr (
        tag_loop m escrow (pos_part requested) (by_amount (candidates m p v)) v
          (record { quantity = 0; stacks = 0 }))

abbrev pub restored : Prototype → ℕ → Option Stack → Option Stack
restored p escrow none = none
restored p escrow (some s) =
    if same_id (marker_id sell_item_tag s.nbt) escrow
    then some (record s { nbt = p.original })
    else some s

-- `restoreTaggedSellItems`
unfoldable pub restore_tagged : Prototype → ℕ → Inventory → Inventory
restore_tagged p escrow = on_places (restored p escrow)

-- `replaceTaggedSellItemsWithReceipts`, with the receipt as an argument
unfoldable pub replace_with_receipts : Stack → ℕ → Inventory → Inventory
unfolding marker_id
replace_with_receipts receipt escrow =
    on_places λ o. if has_marker sell_item_tag escrow o then some receipt else o
