-- ===== src/Nbt/Shrinking.antt =====
-- The fuel of the model of `NbtCodec::decode` (src/nbt_codec.cpp), by the bytes that its readers take.
use endstone_exchange.Common.{
  ℕ, zero, suc, ◌+◌, ◌*◌, ◌≤◌, ◌<◌, ◌≢◌, Option, none, some, List, [], ◌∷◌, length, ltb, arith,
  ◌==◌, if◌then◌else◌,
}
use endstone_exchange.Bytes.{
  Parsed, parsed, rejected, out_of_fuel, Reader, bind, ◌>>=◌, pure, raw, integral, reject,
  container_too_large, invalid_header,
}
use endstone_exchange.Bytes.Readers.{
  Ends, Within, Within-bind, Within-if, Within-raw, Within-integral, Within-pure, Within-weaken,
}
use endstone_exchange.Nbt.{
  Kind, Tag, Items, Fields, Host, item, no_fields, header, end_tag, byte_tag, short_tag, int_tag,
  long_tag, float_tag, double_tag, string_tag, byte_array_tag, int_array_tag, list_tag,
  compound_tag,
}
use endstone_exchange.Nbt.Decoder.{
  container_limit, read_length, read_bytes, read_ints, read_tag, read_payload, payload_of,
  read_items, read_fields, decode, expect, root_of,
}

read_length-Within : (limit : ℕ) → Within 0 limit read_length
unfolding read_length
read_length-Within limit =
    Within-bind 0 limit (integral 4)
      (λ n. if ltb container_limit n then reject container_too_large else pure n)
      (Within-weaken 4 limit (integral 4) (Within-integral 4 limit))
      (λ n l h.
        Within-if 0 l (ltb container_limit n) (reject container_too_large) (pure n) (λ bs b. tt)
          (Within-pure l n))

read_bytes-Within : (limit : ℕ) → Within 0 limit read_bytes
unfolding read_bytes
read_bytes-Within limit =
    Within-bind 0 limit read_length raw (read_length-Within limit)
      (λ n l h. Within-weaken n l (raw n) (Within-raw n l))

pub read_ints-Within : (n limit : ℕ) → Within 0 limit (read_ints n)
unfolding read_ints
read_ints-Within zero limit = Within-pure {A = List ℕ} limit []
read_ints-Within (suc n) limit =
    Within-bind 0 limit (integral 4) (λ v. do vs ← read_ints n; pure (v ∷ vs))
      (Within-weaken 4 limit (integral 4) (Within-integral 4 limit))
      (λ v l h.
        Within-bind 0 l (read_ints n) (λ vs. pure (v ∷ vs)) (read_ints-Within n l)
          (λ vs l' h'. Within-pure l' (v ∷ vs)))

-- A reader whose value is wrapped in a tag
module _ {A : Type 0} where
  wrapped :
      (limit : ℕ) (m : Reader A) (f : A → Tag)
      → Within 0 limit m
      → Within 0 limit (m >>= λ a. pure (f a))
  wrapped limit m f h = Within-bind 0 limit m (λ a. pure (f a)) h (λ a l e. Within-pure l (f a))

number : (k limit : ℕ) (f : ℕ → Tag) → Within 0 limit (integral k >>= λ a. pure (f a))
number k limit f =
    wrapped limit (integral k) f (Within-weaken k limit (integral k) (Within-integral k limit))

sized :
    {A : Type 0} (limit : ℕ) (m : ℕ → Reader A) (f : A → Tag)
    → ((n l : ℕ) → l ≤ limit → Within 0 l (m n))
    → Within 0 limit (read_length >>= λ n. (m n >>= λ a. pure (f a)))
sized limit m f h =
    Within-bind 0 limit read_length (λ n. (m n >>= λ a. pure (f a))) (read_length-Within limit)
      (λ n l e. wrapped l (m n) f (h n l (omega arith)))

read_payload-Within :
    (items : ℕ → Reader Items) (fields : ℕ → Reader Fields) (limit : ℕ)
    → ((n l : ℕ) → l ≤ limit → Within 0 l (items n))
    → ((n l : ℕ) → l ≤ limit → Within 0 l (fields n))
    → (k : Kind) → Within 0 limit (read_payload items fields k)
unfolding read_payload
read_payload-Within items fields limit hi hf Kind.end = Within-pure limit end_tag
read_payload-Within items fields limit hi hf Kind.byte = number 1 limit byte_tag
read_payload-Within items fields limit hi hf Kind.short = number 2 limit short_tag
read_payload-Within items fields limit hi hf Kind.int = number 4 limit int_tag
read_payload-Within items fields limit hi hf Kind.long = number 8 limit long_tag
read_payload-Within items fields limit hi hf Kind.float = number 4 limit float_tag
read_payload-Within items fields limit hi hf Kind.double = number 8 limit double_tag
read_payload-Within items fields limit hi hf Kind.string =
    wrapped limit read_bytes string_tag (read_bytes-Within limit)
read_payload-Within items fields limit hi hf Kind.byte_array =
    wrapped limit read_bytes byte_array_tag (read_bytes-Within limit)
read_payload-Within items fields limit hi hf Kind.int_array =
    sized limit read_ints int_array_tag (λ n l e. read_ints-Within n l)
read_payload-Within items fields limit hi hf Kind.list = sized limit items list_tag hi
read_payload-Within items fields limit hi hf Kind.compound = sized limit fields compound_tag hf

payload_of-Within :
    (limit : ℕ) (read : Kind → Reader Tag) (o : Option Kind)
    → ((k : Kind) → Within 0 limit (read k))
    → Within 0 limit (payload_of read o)
payload_of-Within limit read none h = λ bs b. tt
payload_of-Within limit read (some k) h = h k

module _ (h : Host) where
  mutual
    unfolding read_tag

    read_tag-Within : (f limit : ℕ) → 2 * limit < f → Within 1 limit (read_tag h f)
    read_tag-Within zero limit q = absurd (omega arith)
    read_tag-Within (suc f) limit q =
        Within-bind 1 limit (integral 1)
          (λ n.
            payload_of (read_payload (read_items h f) (λ n. read_fields h f n no_fields))
              (h.kind n))
          (Within-integral 1 limit)
          (λ n l e. payload_of-Within l _ (h.kind n) (
            read_payload-Within (read_items h f) (λ n. read_fields h f n no_fields) l
              (λ n l' e'. read_items-Within f n l' (omega arith))
              (λ n l' e'. read_fields-Within f n no_fields l' (omega arith))))

    read_items-Within : (f n limit : ℕ) → 2 * limit + 1 < f → Within 0 limit (read_items h f n)
    read_items-Within zero n limit q = absurd (omega arith)
    read_items-Within (suc f) zero limit q = λ bs b. omega arith
    read_items-Within (suc f) (suc n) limit q = Within-weaken 1 limit _ (
        Within-bind 1 limit (read_tag h f) (λ t. do ts ← read_items h f n; pure (item t ts))
          (read_tag-Within f limit (omega arith))
          (λ t l e.
            Within-bind 0 l (read_items h f n) (λ ts. pure (item t ts))
              (read_items-Within f n l (omega arith)) (λ ts l' e'. Within-pure l' (item t ts))))

    read_fields-Within :
        (f n : ℕ) (acc : Fields) (limit : ℕ)
        → 2 * limit + 1 < f
        → Within 0 limit (read_fields h f n acc)
    read_fields-Within zero n acc limit q = absurd (omega arith)
    read_fields-Within (suc f) zero acc limit q = λ bs b. omega arith
    read_fields-Within (suc f) (suc n) acc limit q =
        Within-bind 0 limit read_bytes
          (λ k. do t ← read_tag h f; read_fields h f n (h.insert_or_assign k t acc))
          (read_bytes-Within limit)
          (λ k l e. Within-weaken 1 l _ (
            Within-bind 1 l (read_tag h f) (λ t. read_fields h f n (h.insert_or_assign k t acc))
              (read_tag-Within f l (omega arith))
              (λ t l' e'. read_fields-Within f n (h.insert_or_assign k t acc) l' (omega arith))))

expect-Within : (bs : List ℕ) (limit : ℕ) → Within 0 limit (expect bs)
unfolding expect
expect-Within [] limit = Within-pure limit tt
expect-Within (b ∷ bs) limit =
    Within-bind 0 limit (integral 1) (λ c. if c == b then expect bs else reject invalid_header)
      (Within-weaken 1 limit (integral 1) (Within-integral 1 limit))
      (λ c l e.
        Within-if 0 l (c == b) (expect bs) (reject invalid_header) (expect-Within bs l)
          (λ bs b. tt))

root_of-Ends :
    (k n : ℕ) (r : Parsed (Tag × List ℕ))
    → Ends k n r
    → bind r (λ (t, rest). root_of t rest) ≢ out_of_fuel
root_of-Ends k n (parsed (compound_tag fs, [])) e = cc
root_of-Ends k n (parsed (compound_tag fs, b ∷ bs)) e = cc
root_of-Ends k n (parsed (t, rest)) e = cc
root_of-Ends k n (rejected x) e = cc
root_of-Ends k n out_of_fuel e = absurd e

-- On every input, however long or malformed, `decode` ends with a compound or with an exception.
pub decode_total : (h : Host) (bs : List ℕ) → decode h bs ≢ out_of_fuel
unfolding decode
decode_total h [] = cc
decode_total h (b ∷ bs) = root_of-Ends 0 (length (b ∷ bs)) _ (
    Within-bind 0 (length (b ∷ bs)) (expect header) (λ _. read_tag h (2 * length (b ∷ bs) + 1))
      (expect-Within header (length (b ∷ bs)))
      (λ u l e. Within-weaken 1 l _ (read_tag-Within h _ l (omega arith))) (b ∷ bs) (omega arith))
