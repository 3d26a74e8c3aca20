-- ===== src/Structure.antt =====
-- The reader of Bedrock structures in src/structure_reader.cpp: its class `BedrockNbtReader`, the search for the item of
-- a frame, and `readItemFrameFromLevelDbLogs` on the bytes of the log files. A directory and its files are the argument
-- `logs`, in the order of their names.
pub mod Total
pub mod Parts
use endstone_exchange.Common.{
  length, ◌*◌, ◌||◌, leb, ltb, ◌==◌, false, ◌++◌, ◌+◌, ◌-◌, if◌then◌else◌, Bool, ◌%◌, Option, List,
  ℕ, none, some, zero, suc, [], ◌∷◌,
}
use endstone_exchange.Common.Int.{leb_ℤ, ℤ, pos, negsuc, neg_ℕ}
use endstone_exchange.Texts.{codes}
use endstone_exchange.Bytes.{
  structure_missing, Error, invalid_container_length, unsupported_type, root_not_compound,
  nesting_too_deep, Parsed, parsed, rejected, out_of_fuel, Reader, bind, ◌>>=◌, ◌>>◌, pure, reject,
  raw, integral,
}
use endstone_exchange.Nbt.{
  Tag, Items, Fields, Host, end_tag, byte_tag, short_tag, int_tag, long_tag, float_tag, double_tag,
  string_tag, byte_array_tag, int_array_tag, list_tag, compound_tag, no_items, item, no_fields,
  field,
}
use endstone_exchange.Nbt.Decoder.{read_ints}
use endstone_exchange.Leveldb.{Found, same_bytes}
use endstone_exchange.Leveldb.Logs.{scan_log}

-- `string`
unfoldable pub read_name : Reader (List ℕ)
unfolding integral raw
read_name = do n ← integral 2; raw n

-- `containerLength`: a pattern of 2 ^ 31 or above is a negative number.
unfoldable pub container_length : Reader ℕ
unfolding integral
container_length = do
  n ← integral 4
  if leb 2147483648 n || ltb 16777216 n then reject invalid_container_length else pure n

-- `longArrayAsList`
unfoldable pub read_longs : ℕ → Reader Items
unfolding integral
read_longs zero = pure no_items
read_longs (suc n) = do v ← integral 8; vs ← read_longs n; pure (item (long_tag v) vs)

unfoldable pub sized_bytes : Reader (List ℕ)
unfolding container_length raw
sized_bytes = do n ← container_length; raw n

-- The loop over the elements of a list. Elements of type 0 take no byte.
unfoldable pub elements : Reader Tag → ℕ → Reader Items
elements read zero = pure no_items
elements read (suc n) = do t ← read; ts ← elements read n; pure (item t ts)

-- `list`
abbrev pub read_list : (ℕ → Reader Tag) → Reader Tag
read_list read = do
  kind ← integral 1
  n ← container_length
  ts ← elements (read kind) n
  pure (list_tag ts)

-- A `switch` whose cases are numbered from 0 on
abbrev pub switch : ℕ → List (Reader Tag) → Reader Tag
switch k [] = reject unsupported_type
switch zero (r ∷ rs) = r
switch (suc k) (r ∷ rs) = switch k rs

-- The readers of the payloads in the order of their types, given that of other payloads and that of a compound
unfoldable pub payloads : (ℕ → Reader Tag) → Reader Fields → List (Reader Tag)
unfolding integral read_name sized_bytes container_length read_ints read_longs elements
payloads read compound =
    pure end_tag
    ∷ (integral 1 >>= λ v. pure (byte_tag v))
    ∷ (integral 2 >>= λ v. pure (short_tag v))
    ∷ (integral 4 >>= λ v. pure (int_tag v))
    ∷ (integral 8 >>= λ v. pure (long_tag v))
    ∷ (integral 4 >>= λ v. pure (float_tag v))
    ∷ (integral 8 >>= λ v. pure (double_tag v))
    ∷ (sized_bytes >>= λ s. pure (byte_array_tag s))
    ∷ (read_name >>= λ s. pure (string_tag s))
    ∷ read_list read
    ∷ (compound >>= λ fs. pure (compound_tag fs))
    ∷ (container_length >>= λ n. (read_ints n >>= λ s. pure (int_array_tag s)))
    ∷ (container_length >>= λ n. (read_longs n >>= λ ts. pure (list_tag ts)))
    ∷ []

abbrev pub as_compound : Tag → Reader Fields
as_compound (compound_tag fs) = pure fs
as_compound t = reject root_not_compound

-- The type, a name that is not used, and the compound, whose reader is given
abbrev pub read_root : (ℕ → Reader Tag) → Reader Fields
read_root read = do
  kind ← integral 1
  (if kind == 10 then read_name >>= (λ _. read kind >>= as_compound) else reject root_not_compound)

module _ (h : Host) where
  -- A name, unless the compound ends here, its value, and what follows
  abbrev pub next_field : (Fields → Reader Fields) → (ℕ → Reader Tag) → Fields → ℕ → Reader Fields
  next_field more read acc kind =
      if kind == 0
      then pure acc
      else (do k ← read_name; t ← read kind; more (h.insert_or_assign k t acc))

  -- `payload`, and the loop of `compound`. The fuel is for the nesting and for the entries.
  unfoldable mutual
    unfolding integral payloads read_name

    pub payload : ℕ → ℕ → Reader Tag
    payload zero kind bs = out_of_fuel
    payload (suc f) kind bs = switch kind (payloads (payload f) (entries f no_fields)) bs

    pub entries : ℕ → Fields → Reader Fields
    entries zero acc bs = out_of_fuel
    entries (suc f) acc bs = (integral 1 >>= λ kind. next_field (entries f) (payload f) acc kind) bs

  -- `root`
  unfoldable pub root : List ℕ → Parsed (Fields × List ℕ)
  unfolding payload
  root bs = read_root (payload (2 * length bs + 2)) bs

-- The number that a pattern of a signed type with 2 * `half` values stands for
abbrev signed : ℕ → ℕ → ℤ
signed half v = if ltb v half then pos v else neg_ℕ (half + half - v)

-- `numeric`
unfoldable pub numeric : Tag → Option ℤ
numeric (byte_tag v) = some (pos v)
numeric (short_tag v) = some (signed 32768 v)
numeric (int_tag v) = some (signed 2147483648 v)
numeric (long_tag v) = some (signed 9223372036854775808 v)
numeric t = none

-- `static_cast<int>` of a 64-bit number
abbrev to_int : ℤ → ℤ
to_int (pos n) = signed 2147483648 (n % 4294967296)
to_int (negsuc n) = signed 2147483648 (4294967295 - n % 4294967296)

-- `contains` and `at`
unfoldable pub field_at : List ℕ → Fields → Option Tag
field_at key no_fields = none
field_at key (field k t fs) =
    let more = field_at key fs in if same_bytes k key then some t else more

-- `CapturedFrameItem`
pub record FrameItem : Type 0 where
  pub item_type : List ℕ
  pub item_data : ℤ
  pub nbt : Fields

abbrev number_or_zero : Option Tag → ℤ
number_or_zero none = pos 0
number_or_zero (some t) = elim (numeric t) [ none ↦ pos 0 | some v ↦ v ]

abbrev compound_or_empty : Option Tag → Fields
compound_or_empty (some (compound_tag fs)) = fs
compound_or_empty o = no_fields

abbrev no_item : List ℕ → ℤ → Bool
no_item name count =
    leb_ℤ count (pos 0) || same_bytes name [] || same_bytes name (codes "minecraft:air")

abbrev named_item : Fields → Option Tag → Option FrameItem
named_item fs (some (string_tag name)) =
    if no_item name (number_or_zero (field_at (codes "Count") fs))
    then none
    else some (record {
      item_type = name;
      item_data = to_int (number_or_zero (field_at (codes "Damage") fs));
      nbt = compound_or_empty (field_at (codes "tag") fs);
    })
named_item fs o = none

abbrev item_in : Option Tag → Option FrameItem
item_in (some (compound_tag fs)) = named_item fs (field_at (codes "Name") fs)
item_in o = none

-- `itemFromCompound`
unfoldable pub item_of : Fields → Option FrameItem
unfolding field_at numeric
item_of fs = item_in (field_at (codes "Item") fs)

abbrev pub Search : Type 0
Search = Parsed (Option FrameItem)

-- The next place is searched where nothing was found.
abbrev pub or_else : Search → Search → Search
or_else (parsed none) next = next
or_else (parsed (some i)) next = parsed (some i)
or_else (rejected e) next = rejected e
or_else out_of_fuel next = out_of_fuel

abbrev pub at_depth : ℕ → Search → Search
at_depth depth r = if ltb 32 depth then rejected nesting_too_deep else r

-- `findItem`
unfoldable mutual
  unfolding item_of

  pub find_item : Tag → ℕ → Search
  find_item (compound_tag fs) depth =
      at_depth depth
        (elim (item_of fs) [ some i ↦ parsed (some i) | none ↦ find_in_fields fs (depth + 1) ])
  find_item (list_tag ts) depth = at_depth depth (find_in_items ts (depth + 1))
  find_item t depth = at_depth depth (parsed none)

  pub find_in_items : Items → ℕ → Search
  find_in_items no_items depth = parsed none
  find_in_items (item t ts) depth = or_else (find_item t depth) (find_in_items ts depth)

  pub find_in_fields : Fields → ℕ → Search
  find_in_fields no_fields depth = parsed none
  find_in_fields (field k t fs) depth = or_else (find_item t depth) (find_in_fields fs depth)

-- `readItemFrame` behind the reading of the file
unfoldable pub read_item_frame : Host → List ℕ → Search
unfolding root find_item
read_item_frame h bytes = bind (root h bytes) λ (fs, rest). find_item (compound_tag fs) 0

abbrev pub scan_all : List ℕ → List (List ℕ) → Option Found → Option Found
scan_all wanted logs none = none
scan_all wanted [] (some f) = some f
scan_all wanted (log ∷ logs) (some f) = scan_all wanted logs (scan_log log wanted f)

abbrev pub structure_key : List ℕ → List ℕ
structure_key name = codes "structuretemplate_" ++ name

abbrev pub captured : Host → Option Found → Search
captured h none = out_of_fuel
captured h (some f) =
    if f.seen
    then elim f.value [ some bytes ↦ read_item_frame h bytes | none ↦ rejected structure_missing ]
    else rejected structure_missing

-- `readItemFrameFromLevelDbLogs`
unfoldable pub read_from_logs : Host → List (List ℕ) → List ℕ → Search
unfolding scan_log read_item_frame
read_from_logs h logs name =
    captured h (scan_all (structure_key name) logs (some (record { value = none; seen = false })))
