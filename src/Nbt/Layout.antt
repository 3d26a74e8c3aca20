-- ===== src/Nbt/Layout.antt =====
-- Which tags can be stored by src/nbt_codec.cpp and read back: numbers in the range of their types,
-- texts and containers within the limit of the reader, and compounds that their container builds
-- again from their entries.
use endstone_exchange.Common.{ℕ, suc, ◌<◌, ◌≤◌, ◌≡◌, refl, List, [], ◌∷◌, ◌++◌, length, All, arith}
use endstone_exchange.Bytes.{parsed, raw, integral}
use endstone_exchange.Bytes.Words.{integral-le_bytes, length-le_bytes, raw-append}
use endstone_exchange.Nbt.{
  Kind, Tag, Items, Fields, Host, end_tag, byte_tag, short_tag, int_tag, long_tag, float_tag,
  double_tag, string_tag, byte_array_tag, int_array_tag, list_tag, compound_tag, no_items, item,
  no_fields, field, item_count, field_count, write_size, write_string, write_ints,
}
use endstone_exchange.Nbt.Decoder.{
  container_limit, read_length, read_bytes, read_ints, read_tag, read_payload, read_items,
  read_fields,
}
use mathlib.Core.List.{append_assoc}

-- The entries inserted in order
abbrev pub insert_all : Host → Fields → Fields → Fields
insert_all h acc no_fields = acc
insert_all h acc (field k t fs) = insert_all h (h.insert_or_assign k t acc) fs

abbrev IsInt : ℕ → Type 0
IsInt v = v < 4294967296

module _ (h : Host) where
  unfoldable mutual
    pub IsStored : Tag → Type 0
    IsStored end_tag = Unit
    IsStored (byte_tag v) = v < 256
    IsStored (short_tag v) = v < 65536
    IsStored (int_tag v) = IsInt v
    IsStored (long_tag v) = v < 18446744073709551616
    IsStored (float_tag v) = IsInt v
    IsStored (double_tag v) = v < 18446744073709551616
    IsStored (string_tag s) = length s ≤ container_limit
    IsStored (byte_array_tag s) = length s ≤ container_limit
    IsStored (int_array_tag s) = (length s ≤ container_limit) × All IsInt s
    IsStored (list_tag ts) = (item_count ts ≤ container_limit) × AreStored ts
    IsStored (compound_tag fs) =
        (field_count fs ≤ container_limit) × (insert_all h no_fields fs ≡ fs) × FieldsAreStored fs

    pub AreStored : Items → Type 0
    AreStored no_items = Unit
    AreStored (item t ts) = IsStored t × AreStored ts

    pub FieldsAreStored : Fields → Type 0
    FieldsAreStored no_fields = Unit
    FieldsAreStored (field k t fs) = (length k ≤ container_limit) × IsStored t × FieldsAreStored fs

-- One read of each part, behind the bytes that were written for it
pub read_length-write_size :
    (n : ℕ) (rest : List ℕ)
    → n ≤ container_limit
    → read_length (write_size n ++ rest) ≡ parsed (n, rest)
unfolding read_length write_size
read_length-write_size n rest h = ground (arith, integral-le_bytes 4 n rest (omega arith))

pub length-write_size : (n : ℕ) → length (write_size n) ≡ 4
unfolding write_size
length-write_size n = length-le_bytes 4 _

pub read_bytes-append :
    (s rest : List ℕ)
    → length s ≤ container_limit
    → read_bytes ((write_size (length s) ++ s) ++ rest) ≡ parsed (s, rest)
unfolding read_bytes
read_bytes-append s rest h =
    rw append_assoc (rw (read_length-write_size (length s) (s ++ rest) h) (raw-append s rest))

pub read_ints-write_ints :
    (vs rest : List ℕ)
    → All IsInt vs
    → read_ints (length vs) (write_ints vs ++ rest) ≡ parsed (vs, rest)
unfolding read_ints write_ints
read_ints-write_ints [] rest h = refl
read_ints-write_ints (v ∷ vs) rest h = rw append_assoc (
    rw (integral-le_bytes 4 v (write_ints vs ++ rest) (omega arith))
      (rw (read_ints-write_ints vs rest h.1) refl))

pub integral_one : (b : ℕ) (bs : List ℕ) → integral 1 (b ∷ bs) ≡ parsed (b, bs)
unfolding integral raw
integral_one b bs = ground arith

pub write_string_lem :
    (s : List ℕ) → length s ≤ container_limit → write_string s ≡ parsed (write_size (length s) ++ s)
unfolding write_string
write_string_lem s h = ground arith

module _ (h : Host) where
  -- Behind the number of its type, the payload is read.
  pub read_tag-number :
      (k : Kind) (f : ℕ) (bs : List ℕ)
      → read_tag h (suc f) (h.number k ∷ bs)
        ≡ read_payload (read_items h f) (λ n. read_fields h f n no_fields) k bs
  unfolding read_tag
  read_tag-number k f bs = rw (integral_one (h.number k) bs) (rw (h.kind-number k) refl)
