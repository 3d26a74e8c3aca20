-- ===== src/Nbt/Decoder.antt =====
-- The class `Reader` and `NbtCodec::decode` of src/nbt_codec.cpp. The calls for nested tags are made on
-- fuel; `decode` gives two units for each byte and one more, and `Nbt/Shrinking` has that they suffice.
use endstone_exchange.Common.{
  ℕ, zero, suc, ◌+◌, ◌*◌, Option, none, some, List, [], ◌∷◌, length, ltb, ◌==◌, if◌then◌else◌,
}
use endstone_exchange.Bytes.{
  container_too_large, unknown_type, invalid_header, invalid_root, Parsed, parsed, rejected,
  out_of_fuel, Reader, bind, ◌>>=◌, ◌>>◌, pure, reject, raw, integral,
}
use endstone_exchange.Nbt.{
  Kind, Tag, Items, Fields, Host, end_tag, byte_tag, short_tag, int_tag, long_tag, float_tag,
  double_tag, string_tag, byte_array_tag, int_array_tag, list_tag, compound_tag, no_items, item,
  no_fields, header,
}

-- `16U * 1024U * 1024U`
abbrev pub container_limit : ℕ
container_limit = 16777216

unfoldable pub read_length : Reader ℕ
unfolding integral
read_length = do
  n ← integral 4
  if ltb container_limit n then reject container_too_large else pure n

unfoldable pub read_bytes : Reader (List ℕ)
unfolding read_length raw
read_bytes = do n ← read_length; raw n

unfoldable pub read_ints : ℕ → Reader (List ℕ)
unfolding integral
read_ints zero = pure []
read_ints (suc n) = do v ← integral 4; vs ← read_ints n; pure (v ∷ vs)

-- The payload, by the type that was read, given the loops over a list and over a compound
unfoldable pub read_payload : (ℕ → Reader Items) → (ℕ → Reader Fields) → Kind → Reader Tag
unfolding integral read_bytes read_length read_ints
read_payload items fields Kind.end = pure end_tag
read_payload items fields Kind.byte = do v ← integral 1; pure (byte_tag v)
read_payload items fields Kind.short = do v ← integral 2; pure (short_tag v)
read_payload items fields Kind.int = do v ← integral 4; pure (int_tag v)
read_payload items fields Kind.long = do v ← integral 8; pure (long_tag v)
read_payload items fields Kind.float = do v ← integral 4; pure (float_tag v)
read_payload items fields Kind.double = do v ← integral 8; pure (double_tag v)
read_payload items fields Kind.string = do s ← read_bytes; pure (string_tag s)
read_payload items fields Kind.byte_array = do s ← read_bytes; pure (byte_array_tag s)
read_payload items fields Kind.int_array = do
  n ← read_length
  s ← read_ints n
  pure (int_array_tag s)
read_payload items fields Kind.list = do n ← read_length; ts ← items n; pure (list_tag ts)
read_payload items fields Kind.compound = do n ← read_length; fs ← fields n; pure (compound_tag fs)

abbrev pub payload_of : (Kind → Reader Tag) → Option Kind → Reader Tag
payload_of read none = reject unknown_type
payload_of read (some k) = read k

-- The five bytes of the header are read one after another, up to the first that differs.
unfoldable pub expect : List ℕ → Reader (Unit {0})
unfolding integral
expect [] = pure tt
expect (b ∷ bs) = do c ← integral 1; if c == b then expect bs else reject invalid_header

abbrev pub root_of : Tag → List ℕ → Parsed Fields
root_of (compound_tag fs) [] = parsed fs
root_of t rest = rejected invalid_root

module _ (h : Host) where
  unfoldable mutual
    unfolding integral read_payload read_bytes

    pub read_tag : ℕ → Reader Tag
    read_tag zero bs = out_of_fuel
    read_tag (suc f) bs =
        (do
          n ← integral 1
          payload_of (read_payload (read_items f) (λ n. read_fields f n no_fields)) (h.kind n))
          bs

    pub read_items : ℕ → ℕ → Reader Items
    read_items f zero bs = parsed (no_items, bs)
    read_items zero (suc n) bs = out_of_fuel
    read_items (suc f) (suc n) bs = (do t ← read_tag f; ts ← read_items f n; pure (item t ts)) bs

    -- The key is taken before its value, as the arguments stand.
    pub read_fields : ℕ → ℕ → Fields → Reader Fields
    read_fields f zero fs bs = parsed (fs, bs)
    read_fields zero (suc n) fs bs = out_of_fuel
    read_fields (suc f) (suc n) fs bs =
        (do k ← read_bytes; t ← read_tag f; read_fields f n (h.insert_or_assign k t fs)) bs

  -- `NbtCodec::decode`
  unfoldable pub decode : List ℕ → Parsed Fields
  unfolding expect read_tag
  decode [] = parsed no_fields
  decode (b ∷ bs) =
      bind ((do expect header; read_tag (2 * length (b ∷ bs) + 1)) (b ∷ bs))
        λ (t, rest). root_of t rest
