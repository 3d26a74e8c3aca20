-- ===== src/Nbt.antt =====
-- The codec of src/nbt_codec.cpp: the data it works on, and its class `Writer`. A number of a tag is kept
-- by its bit pattern. The classes of the tags belong to Endstone, so `Host` has what the code uses of
-- them: the numbers of `endstone::nbt::Type`, and `insert_or_assign` on a compound, which is kept as its
-- entries in the order of iteration.
pub mod Decoder
pub mod Layout
pub mod Shrinking
pub mod RoundTrip
use endstone_exchange.Common.{
  ℕ, zero, suc, ◌+◌, ◌%◌, ◌<◌, ◌≡◌, Option, none, some, List, [], ◌∷◌, ◌++◌, length, ltb,
  if◌then◌else◌,
}
use endstone_exchange.Bytes.{Error, string_too_large, Parsed, parsed, rejected, bind, le_bytes}

-- `endstone::nbt::Type`
pub data Kind : Type 0 where
  end byte short int long float double byte_array string list compound int_array : Kind

-- `endstone::nbt::Tag`
mutual
  pub data Tag : Type 0 where
    end_tag : Tag
    byte_tag short_tag int_tag long_tag float_tag double_tag : ℕ → Tag
    string_tag byte_array_tag int_array_tag : List ℕ → Tag
    list_tag : Items → Tag
    compound_tag : Fields → Tag

  pub data Items : Type 0 where
    no_items : Items
    item : Tag → Items → Items

  pub data Fields : Type 0 where
    no_fields : Fields
    field : List ℕ → Tag → Fields → Fields

-- What Endstone gives: each type has a number of one byte, by which it is found again.
pub record Host : Type 0 where
  pub number : Kind → ℕ
  pub kind : ℕ → Option Kind
  pub insert_or_assign : List ℕ → Tag → Fields → Fields
  pub number-lt : (k : Kind) → number k < 256
  pub kind-number : (k : Kind) → kind (number k) ≡ some k

abbrev pub item_count : Items → ℕ
item_count no_items = 0
item_count (item t ts) = suc (item_count ts)

abbrev pub field_count : Fields → ℕ
field_count no_fields = 0
field_count (field k t fs) = suc (field_count fs)

-- `std::numeric_limits<std::uint32_t>::max()`
abbrev pub word_max : ℕ
word_max = 4294967295

-- What a call of the writer appends to `bytes_`, and what follows it
abbrev pub before : List ℕ → Parsed (List ℕ) → Parsed (List ℕ)
before bs r = bind r λ more. parsed (bs ++ more)

-- `static_cast<std::uint32_t>` of a size, and its four bytes
unfoldable pub write_size : ℕ → List ℕ
write_size n = le_bytes 4 (n % suc word_max)

unfoldable pub write_string : List ℕ → Parsed (List ℕ)
unfolding write_size
write_string s =
    if ltb word_max (length s)
    then rejected string_too_large
    else parsed (write_size (length s) ++ s)

unfoldable pub write_ints : List ℕ → List ℕ
write_ints [] = []
write_ints (v ∷ vs) = le_bytes 4 v ++ write_ints vs

-- `EXNB`, and the version
abbrev pub header : List ℕ
header = b'E' ∷ b'X' ∷ b'N' ∷ b'B' ∷ 1 ∷ []

module _ (h : Host) where
  -- `tag` appends the number of the type, and then the payload.
  abbrev pub tagged : Kind → Parsed (List ℕ) → Parsed (List ℕ)
  tagged k = before (h.number k ∷ [])

  unfoldable mutual
    pub write_tag : Tag → Parsed (List ℕ)
    write_tag end_tag = tagged Kind.end (parsed [])
    write_tag (byte_tag v) = tagged Kind.byte (parsed (le_bytes 1 v))
    write_tag (short_tag v) = tagged Kind.short (parsed (le_bytes 2 v))
    write_tag (int_tag v) = tagged Kind.int (parsed (le_bytes 4 v))
    write_tag (long_tag v) = tagged Kind.long (parsed (le_bytes 8 v))
    write_tag (float_tag v) = tagged Kind.float (parsed (le_bytes 4 v))
    write_tag (double_tag v) = tagged Kind.double (parsed (le_bytes 8 v))
    write_tag (string_tag s) = tagged Kind.string (write_string s)
    write_tag (byte_array_tag s) = tagged Kind.byte_array (parsed (write_size (length s) ++ s))
    write_tag (int_array_tag s) =
        tagged Kind.int_array (parsed (write_size (length s) ++ write_ints s))
    write_tag (list_tag ts) =
        tagged Kind.list (before (write_size (item_count ts)) (write_items ts))
    write_tag (compound_tag fs) =
        tagged Kind.compound (before (write_size (field_count fs)) (write_fields fs))

    pub write_items : Items → Parsed (List ℕ)
    write_items no_items = parsed []
    write_items (item t ts) = bind (write_tag t) λ b. before b (write_items ts)

    pub write_fields : Fields → Parsed (List ℕ)
    write_fields no_fields = parsed []
    write_fields (field k t fs) =
        bind (write_string k) λ a. bind (write_tag t) λ b. before (a ++ b) (write_fields fs)

  -- `NbtCodec::encode`
  unfoldable pub encode : Fields → Parsed (List ℕ)
  encode fs = before header (write_tag (compound_tag fs))
