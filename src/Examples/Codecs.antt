-- ===== src/Examples/Codecs.antt =====
-- The theorems on src/nbt_codec.cpp, src/structure_reader.cpp and src/inventory_escrow.cpp at examples.
use endstone_exchange.Examples.Host.{compounds, host}
use endstone_exchange.Common.{
  ◌≤◌, ◌≢◌, inr, refl, false, some, [], ◌∷◌, none, ◌≡◌, ◌<◌, ℕ, List, arith,
}
use endstone_exchange.Common.Int.{pos}
use endstone_exchange.Texts.{codes}
use endstone_exchange.Bytes.{parsed, out_of_fuel}
use endstone_exchange.Nbt.{
  no_fields, int_tag, list_tag, compound_tag, no_items, item, field, Fields, encode,
}
use endstone_exchange.Nbt.Decoder.{decode}
use endstone_exchange.Nbt.Layout.{IsStored}
use endstone_exchange.Nbt.RoundTrip.{decode-encode}
use endstone_exchange.Nbt.Shrinking.{decode_total}
use endstone_exchange.Leveldb.{Found}
use endstone_exchange.Leveldb.Batches.{Operation}
use endstone_exchange.Structure.{read_from_logs}
use endstone_exchange.Structure.Total.{read_from_logs_total}
use endstone_exchange.Inventory.{
  count_marked, matches, is_internal, marked, Stack, Inventory, Prototype, sell_item_tag,
  stacks_marked,
}
use endstone_exchange.Inventory.Escrow.{by_amount, tag_loop, tag_sell_items, restore_tagged}
use endstone_exchange.Inventory.Restoring.{restore_tagged-tag_sell_items}

-- The entities of a frame: a list with one number, below a name
abbrev sample : Fields
sample =
    field (codes "Count") (int_tag 7)
      (field (codes "Pos") (list_tag (item (int_tag 64) no_items)) no_fields)

sample-IsStored : IsStored host (compound_tag sample)
unfolding IsStored
sample-IsStored =
    let big : 64 < 4294967296 = omega arith in
    (omega arith, refl, (omega arith, omega arith, (omega arith, (omega arith, (big, tt)), tt)))

decode-encode_example :
    (out : List ℕ) × (encode host sample ≡ parsed out) × (decode host out ≡ parsed sample)
decode-encode_example = decode-encode host sample sample-IsStored

-- A list that announces more elements than there are bytes
decode_total_example :
    decode host (69 ∷ 88 ∷ 78 ∷ 66 ∷ 1 ∷ 9 ∷ 255 ∷ 0 ∷ 0 ∷ 0 ∷ 9 ∷ []) ≢ out_of_fuel
decode_total_example = decode_total host (69 ∷ 88 ∷ 78 ∷ 66 ∷ 1 ∷ 9 ∷ 255 ∷ 0 ∷ 0 ∷ 0 ∷ 9 ∷ [])

read_from_logs_total_example :
    read_from_logs host ((0 ∷ 0 ∷ 0 ∷ 0 ∷ 200 ∷ 0 ∷ 1 ∷ 5 ∷ []) ∷ []) (codes "shop") ≢ out_of_fuel
read_from_logs_total_example =
    read_from_logs_total host ((0 ∷ 0 ∷ 0 ∷ 0 ∷ 200 ∷ 0 ∷ 1 ∷ 5 ∷ []) ∷ []) (codes "shop")

-- Written, deleted, and written again
abbrev operations : List Operation
operations =
    Operation.put (codes "k") (1 ∷ 2 ∷ [])
    ∷ Operation.delete (codes "k")
    ∷ Operation.put (codes "k") (3 ∷ [])
    ∷ []

abbrev unseen : Found
unseen = record { value = none; seen = false }

abbrev sequence : List ℕ
sequence = 0 ∷ 0 ∷ 0 ∷ 0 ∷ 0 ∷ 0 ∷ 0 ∷ 0 ∷ []

-- Three stacks of stone, of which two are tagged for a sale of 20
abbrev stone : Prototype
stone = record { item_type = codes "stone"; item_data = pos 0; original = no_fields }

abbrev stone_stack : ℕ → Stack
stone_stack n = record { item_type = codes "stone"; amount = n; item_data = pos 0; nbt = no_fields }

abbrev backpack : Inventory
backpack = record {
  slots = some (stone_stack 64) ∷ none ∷ some (stone_stack 16) ∷ [];
  off_hand = some (stone_stack 3);
}

abbrev tagged_stack : ℕ → Stack
tagged_stack n = marked compounds sell_item_tag 5 (stone_stack n)

abbrev tagged_backpack : Inventory
tagged_backpack = record {
  slots = some (tagged_stack 64) ∷ none ∷ some (tagged_stack 16) ∷ [];
  off_hand = some (tagged_stack 3);
}

tagged_run :
    tag_sell_items compounds stone (pos 20) 5 backpack
    ≡ inr (tagged_backpack, record { quantity = 83; stacks = 3 })
unfolding tag_sell_items is_internal matches tag_loop by_amount
tagged_run = refl

untagged : stacks_marked sell_item_tag 5 backpack ≡ 0
unfolding stacks_marked
untagged = refl

restore_tagged-tag_sell_items_example :
    (20 ≤ count_marked sell_item_tag 5 tagged_backpack)
    × (count_marked sell_item_tag 5 tagged_backpack ≡ 83)
    × (stacks_marked sell_item_tag 5 tagged_backpack ≡ 3)
    × (restore_tagged stone 5 tagged_backpack ≡ backpack)
restore_tagged-tag_sell_items_example =
    restore_tagged-tag_sell_items compounds stone 5 (omega arith) 20 backpack tagged_backpack
      (record { quantity = 83; stacks = 3 }) untagged tagged_run
