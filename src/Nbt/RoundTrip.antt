-- ===== src/Nbt/RoundTrip.antt =====
-- `NbtCodec::encode` of src/nbt_codec.cpp and behind it `NbtCodec::decode`.
use endstone_exchange.Common.{
  ℕ, zero, suc, ◌+◌, ◌*◌, ◌<◌, ◌≤◌, ◌≡◌, refl, ◌∙◌, List, [], ◌∷◌, ◌++◌, length, length-append,
  arith,
}
use endstone_exchange.Bytes.{parsed, le_bytes}
use endstone_exchange.Bytes.Words.{integral-le_bytes}
use endstone_exchange.Nbt.{
  Kind, Tag, Items, Fields, Host, end_tag, byte_tag, short_tag, int_tag, long_tag, float_tag,
  double_tag, string_tag, byte_array_tag, int_array_tag, list_tag, compound_tag, no_items, item,
  no_fields, field, item_count, field_count, write_size, write_ints, write_tag, write_items,
  write_fields, encode, header,
}
use endstone_exchange.Nbt.Decoder.{
  container_limit, read_bytes, read_tag, read_payload, read_items, read_fields, decode, expect,
}
use endstone_exchange.Nbt.Layout.{
  IsStored, AreStored, FieldsAreStored, insert_all, read_length-write_size, read_bytes-append,
  read_ints-write_ints, integral_one, write_string_lem, read_tag-number,
}
use mathlib.Core.List.{append_assoc, append-nil}

module _ (h : Host) where
  -- Behind a tag that can be stored, the writer has bytes, and the reader takes them for the tag.
  abbrev IsKept : Tag → Type 0
  IsKept t =
      (out : List ℕ) × (write_tag h t ≡ parsed out)
      × (0 < length out)
      × ((rest : List ℕ) (f : ℕ)
          → 2 * length out < f
          → read_tag h f (out ++ rest) ≡ parsed (t, rest))

  abbrev AreKept : Items → Type 0
  AreKept ts =
      (out : List ℕ) × (write_items h ts ≡ parsed out)
      × ((rest : List ℕ) (f : ℕ)
          → 2 * length out + 1 < f
          → read_items h f (item_count ts) (out ++ rest) ≡ parsed (ts, rest))

  abbrev FieldsAreKept : Fields → Type 0
  FieldsAreKept fs =
      (out : List ℕ) × (write_fields h fs ≡ parsed out)
      × ((rest : List ℕ) (f : ℕ) (acc : Fields)
          → 2 * length out + 1 < f
          → read_fields h f (field_count fs) acc (out ++ rest) ≡ parsed (insert_all h acc fs, rest))

  keep :
      (k : Kind) (t : Tag) (p : List ℕ)
      → write_tag h t ≡ parsed (h.number k ∷ p)
      → ((f : ℕ) (rest : List ℕ)
          → 2 * length p + 1 < f
          → read_payload (read_items h f) (λ n. read_fields h f n no_fields) k (p ++ rest)
            ≡ parsed (t, rest))
      → IsKept t
  keep k t p e r = (h.number k ∷ p, e, omega arith, go)
    where
      go :
          (rest : List ℕ) (f : ℕ)
          → 2 * suc (length p) < f
          → read_tag h f (h.number k ∷ (p ++ rest)) ≡ parsed (t, rest)
      go rest zero b = absurd (omega arith)
      go rest (suc f) b = read_tag-number h k f (p ++ rest) ∙ r f rest (omega arith)

  read_items-zero : (f : ℕ) (bs : List ℕ) → read_items h f 0 bs ≡ parsed (no_items, bs)
  unfolding read_tag
  read_items-zero zero bs = refl
  read_items-zero (suc f) bs = refl

  read_fields-zero :
      (f : ℕ) (acc : Fields) (bs : List ℕ) → read_fields h f 0 acc bs ≡ parsed (acc, bs)
  unfolding read_tag
  read_fields-zero zero acc bs = refl
  read_fields-zero (suc f) acc bs = refl

  read_items-suc :
      (f n : ℕ) (bs mid rest : List ℕ) (t : Tag) (ts : Items)
      → read_tag h f bs ≡ parsed (t, mid)
      → read_items h f n mid ≡ parsed (ts, rest)
      → read_items h (suc f) (suc n) bs ≡ parsed (item t ts, rest)
  unfolding read_items
  read_items-suc f n bs mid rest t ts p q = rw p (rw q refl)

  read_fields-suc :
      (f n : ℕ) (acc : Fields) (bs mid last : List ℕ) (k : List ℕ) (t : Tag)
      → read_bytes bs ≡ parsed (k, mid)
      → read_tag h f mid ≡ parsed (t, last)
      → read_fields h (suc f) (suc n) acc bs ≡ read_fields h f n (h.insert_or_assign k t acc) last
  unfolding read_fields
  read_fields-suc f n acc bs mid last k t p q = rw p (rw q refl)

  item-AreKept : (t : Tag) (ts : Items) → IsKept t → AreKept ts → AreKept (item t ts)
  item-AreKept t ts (a, ea, pos, ra) (b, eb, rb) =
      (a ++ b, unfold write_items in rw ea (rw eb refl), go)
    where
      go :
          (rest : List ℕ) (f : ℕ)
          → 2 * length (a ++ b) + 1 < f
          → read_items h f (suc (item_count ts)) ((a ++ b) ++ rest) ≡ parsed (item t ts, rest)
      go rest zero q = absurd (omega arith)
      go rest (suc f) q = rw append_assoc (
          read_items-suc f (item_count ts) (a ++ (b ++ rest)) (b ++ rest) rest t ts
            (ra (b ++ rest) f (omega (arith, length-append a b)))
            (rb rest f (omega (arith, length-append a b))))

  field-AreKept :
      (k : List ℕ) (t : Tag) (fs : Fields)
      → length k ≤ container_limit
      → IsKept t
      → FieldsAreKept fs
      → FieldsAreKept (field k t fs)
  field-AreKept k t fs short (a, ea, pos, ra) (b, eb, rb) = (
    ((write_size (length k) ++ k) ++ a) ++ b,
    unfold write_fields in rw (write_string_lem k short) (rw ea (rw eb refl)),
    go,
  )
    where
      key : List ℕ
      key = write_size (length k) ++ k

      size : length ((key ++ a) ++ b) ≡ length key + length a + length b
      size = omega (arith, length-append (key ++ a) b, length-append key a)

      go :
          (rest : List ℕ) (f : ℕ) (acc : Fields)
          → 2 * length ((key ++ a) ++ b) + 1 < f
          → read_fields h f (suc (field_count fs)) acc (((key ++ a) ++ b) ++ rest)
            ≡ parsed (insert_all h (h.insert_or_assign k t acc) fs, rest)
      go rest zero acc q = absurd (omega arith)
      go rest (suc f) acc q =
          rw (append_assoc (key ++ a) b rest, append_assoc key a (b ++ rest))
            (read_fields-suc f (field_count fs) acc (key ++ (a ++ (b ++ rest))) (a ++ (b ++ rest))
                (b ++ rest) k t (read_bytes-append k (a ++ (b ++ rest)) short)
                (ra (b ++ rest) f (omega (arith, size)))
              ∙ rb rest f (h.insert_or_assign k t acc) (omega (arith, size)))

  mutual
    unfolding write_tag IsStored read_payload

    tag-IsKept : (t : Tag) → IsStored h t → IsKept t
    tag-IsKept end_tag s = keep Kind.end end_tag [] refl λ f rest b. refl
    tag-IsKept (byte_tag v) s =
        keep Kind.byte (byte_tag v) (le_bytes 1 v) refl
          λ f rest b. rw (integral-le_bytes 1 v rest (omega arith)) refl
    tag-IsKept (short_tag v) s =
        keep Kind.short (short_tag v) (le_bytes 2 v) refl
          λ f rest b. rw (integral-le_bytes 2 v rest (omega arith)) refl
    tag-IsKept (int_tag v) s =
        keep Kind.int (int_tag v) (le_bytes 4 v) refl
          λ f rest b. rw (integral-le_bytes 4 v rest (omega arith)) refl
    tag-IsKept (long_tag v) s =
        keep Kind.long (long_tag v) (le_bytes 8 v) refl
          λ f rest b. rw (integral-le_bytes 8 v rest (omega arith)) refl
    tag-IsKept (float_tag v) s =
        keep Kind.float (float_tag v) (le_bytes 4 v) refl
          λ f rest b. rw (integral-le_bytes 4 v rest (omega arith)) refl
    tag-IsKept (double_tag v) s =
        keep Kind.double (double_tag v) (le_bytes 8 v) refl
          λ f rest b. rw (integral-le_bytes 8 v rest (omega arith)) refl
    tag-IsKept (string_tag b) s =
        keep Kind.string (string_tag b) (write_size (length b) ++ b)
          (rw (write_string_lem b s) refl) λ f rest q. rw (read_bytes-append b rest s) refl
    tag-IsKept (byte_array_tag b) s =
        keep Kind.byte_array (byte_array_tag b) (write_size (length b) ++ b) refl
          λ f rest q. rw (read_bytes-append b rest s) refl
    tag-IsKept (int_array_tag vs) s =
        keep Kind.int_array (int_array_tag vs) (write_size (length vs) ++ write_ints vs) refl
          λ f rest q. rw append_assoc (
            rw (read_length-write_size (length vs) (write_ints vs ++ rest) s.0)
              (rw (read_ints-write_ints vs rest s.1) refl))
    tag-IsKept (list_tag ts) s =
        let (out, e, r) = items-AreKept ts s.1 in
        keep Kind.list (list_tag ts) (write_size (item_count ts) ++ out) (rw e refl) λ f rest q.
          rw append_assoc (
            rw (read_length-write_size (item_count ts) (out ++ rest) s.0)
              (rw (r rest f (omega (arith, length-append (write_size (item_count ts)) out))) refl))
    tag-IsKept (compound_tag fs) s =
        let (out, e, r) = fields-AreKept fs s.2 in
        keep Kind.compound (compound_tag fs) (write_size (field_count fs) ++ out) (rw e refl)
          λ f rest q. rw append_assoc (
            rw (read_length-write_size (field_count fs) (out ++ rest) s.0) (
              rw
                (r rest f no_fields
                  (omega (arith, length-append (write_size (field_count fs)) out)))
                (rw s.1 refl)))

    items-AreKept : (ts : Items) → AreStored h ts → AreKept ts
    items-AreKept no_items s = ([], refl, λ rest f b. read_items-zero f rest)
    items-AreKept (item t ts) s = item-AreKept t ts (tag-IsKept t s.0) (items-AreKept ts s.1)

    fields-AreKept : (fs : Fields) → FieldsAreStored h fs → FieldsAreKept fs
    fields-AreKept no_fields s = ([], refl, λ rest f acc b. read_fields-zero f acc rest)
    fields-AreKept (field k t fs) s =
        field-AreKept k t fs s.0 (tag-IsKept t s.1) (fields-AreKept fs s.2)

  expect-header : (bs : List ℕ) → expect header (header ++ bs) ≡ parsed (tt, bs)
  unfolding expect
  expect-header bs = simp integral_one

  -- A compound that can be stored is encoded, and what was encoded is decoded to the compound again.
  pub decode-encode :
      (fs : Fields)
      → IsStored h (compound_tag fs)
      → (out : List ℕ) × (encode h fs ≡ parsed out) × (decode h out ≡ parsed fs)
  unfolding encode decode
  decode-encode fs s =
      let (out, e, pos, r) = tag-IsKept (compound_tag fs) s in
      (
        header ++ out,
        rw e refl,
        rw (expect-header out) (
            let whole =
              r [] (2 * length (header ++ out) + 1) (omega (arith, length-append header out)) in
            rw (rw append-nil at whole) refl),
      )
