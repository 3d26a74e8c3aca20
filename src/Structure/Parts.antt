-- ===== src/Structure/Parts.antt =====
-- The readers of the parts of a structure in src/structure_reader.cpp, and the bytes that they take.
use endstone_exchange.Nbt.Shrinking.{read_ints-Within}
use endstone_exchange.Nbt.Decoder.{read_ints}
use endstone_exchange.Nbt.{item}
use endstone_exchange.Common.{
  [], ◌∷◌, zero, All, arith, List, ◌<◌, ltb, ◌||◌, suc, leb, if◌then◌else◌, ◌≤◌, ℕ,
}
use endstone_exchange.Bytes.{◌>>=◌, pure, invalid_container_length, reject, raw, integral, Reader}
use endstone_exchange.Bytes.Readers.{
  Within, Within-bind, Within-if, Within-raw, Within-integral, Within-pure, Within-weaken,
}
use endstone_exchange.Nbt.{
  int_array_tag, compound_tag, string_tag, byte_array_tag, double_tag, float_tag, int_tag,
  short_tag, byte_tag, long_tag, end_tag, list_tag, no_items, Tag, Fields,
}
use endstone_exchange.Structure.{
  read_name, container_length, read_longs, sized_bytes, payloads, switch, elements, read_list,
}

module _ {A : Type 0} where
  pub wrapped :
      (limit : ℕ) (m : Reader A) (f : A → Tag)
      → Within 0 limit m
      → Within 0 limit (m >>= λ a. pure (f a))
  wrapped limit m f h = Within-bind 0 limit m (λ a. pure (f a)) h (λ a l e. Within-pure l (f a))

pub some_bytes : (k limit : ℕ) → Within 0 limit (integral k)
some_bytes k limit = Within-weaken k limit (integral k) (Within-integral k limit)

number : (k limit : ℕ) (f : ℕ → Tag) → Within 0 limit (integral k >>= λ a. pure (f a))
number k limit f = wrapped limit (integral k) f (some_bytes k limit)

pub read_name-Within : (limit : ℕ) → Within 0 limit read_name
unfolding read_name
read_name-Within limit =
    Within-bind 0 limit (integral 2) raw (some_bytes 2 limit)
      (λ n l h. Within-weaken n l (raw n) (Within-raw n l))

container_length-Within : (limit : ℕ) → Within 0 limit container_length
unfolding container_length
container_length-Within limit =
    Within-bind 0 limit (integral 4)
      (λ n. if leb 2147483648 n || ltb 16777216 n then reject invalid_container_length else pure n)
      (some_bytes 4 limit)
      (λ n l h.
        Within-if 0 l (leb 2147483648 n || ltb 16777216 n) (reject invalid_container_length)
          (pure n) (λ bs b. tt) (Within-pure l n))

elements-Within :
    (read : Reader Tag) (n limit : ℕ)
    → ((l : ℕ) → l ≤ limit → Within 0 l read)
    → Within 0 limit (elements read n)
unfolding elements
elements-Within read zero limit h = Within-pure limit no_items
elements-Within read (suc n) limit h =
    Within-bind 0 limit read (λ t. do ts ← elements read n; pure (item t ts))
      (h limit (omega arith))
      (λ t l e.
        Within-bind 0 l (elements read n) (λ ts. pure (item t ts))
          (elements-Within read n l (λ l' e'. h l' (omega arith)))
          (λ ts l' e'. Within-pure l' (item t ts)))

read_longs-Within : (n limit : ℕ) → Within 0 limit (read_longs n)
unfolding read_longs
read_longs-Within zero limit = Within-pure limit no_items
read_longs-Within (suc n) limit =
    Within-bind 0 limit (integral 8) (λ v. do vs ← read_longs n; pure (item (long_tag v) vs))
      (some_bytes 8 limit)
      (λ v l e.
        Within-bind 0 l (read_longs n) (λ vs. pure (item (long_tag v) vs)) (read_longs-Within n l)
          (λ vs l' e'. Within-pure l' (item (long_tag v) vs)))

sized_bytes-Within : (limit : ℕ) → Within 0 limit sized_bytes
unfolding sized_bytes
sized_bytes-Within limit =
    Within-bind 0 limit container_length raw (container_length-Within limit)
      (λ n l h. Within-weaken n l (raw n) (Within-raw n l))

sized :
    {A : Type 0} (limit : ℕ) (m : ℕ → Reader A) (f : A → Tag)
    → ((n l : ℕ) → l ≤ limit → Within 0 l (m n))
    → Within 0 limit (container_length >>= λ n. (m n >>= λ a. pure (f a)))
sized limit m f h =
    Within-bind 0 limit container_length (λ n. (m n >>= λ a. pure (f a)))
      (container_length-Within limit) (λ n l e. wrapped l (m n) f (h n l (omega arith)))

read_list-Within :
    (read : ℕ → Reader Tag) (limit : ℕ)
    → ((kind l : ℕ) → l < limit → Within 0 l (read kind))
    → Within 0 limit (read_list read)
read_list-Within read limit h = Within-weaken 1 limit (read_list read) (
    Within-bind 1 limit (integral 1)
      (λ kind. (container_length >>= λ n. (elements (read kind) n >>= λ ts. pure (list_tag ts))))
      (Within-integral 1 limit)
      (λ kind l e.
        sized l (λ n. elements (read kind) n) list_tag
          (λ n l' e'. elements-Within (read kind) n l' (λ l'' e''. h kind l'' (omega arith)))))

pub switch-Within :
    (kind limit : ℕ) (rs : List (Reader Tag))
    → All (λ r. Within 0 limit r) rs
    → Within 0 limit (switch kind rs)
switch-Within kind limit [] h = λ bs b. tt
switch-Within zero limit (r ∷ rs) h = h.0
switch-Within (suc kind) limit (r ∷ rs) h = switch-Within kind limit rs h.1

pub payloads-Within :
    (read : ℕ → Reader Tag) (compound : Reader Fields) (limit : ℕ)
    → ((kind l : ℕ) → l < limit → Within 0 l (read kind))
    → Within 0 limit compound
    → All (λ r. Within 0 limit r) (payloads read compound)
unfolding payloads
payloads-Within read compound limit hr hc = (
  Within-pure limit end_tag,
  (
    number 1 limit byte_tag,
    (
      number 2 limit short_tag,
      (
        number 4 limit int_tag,
        (
          number 8 limit long_tag,
          (
            number 4 limit float_tag,
            (
              number 8 limit double_tag,
              (
                wrapped limit sized_bytes byte_array_tag (sized_bytes-Within limit),
                (
                  wrapped limit read_name string_tag (read_name-Within limit),
                  (
                    read_list-Within read limit hr,
                    (
                      wrapped limit compound compound_tag hc,
                      (
                        sized limit read_ints int_array_tag (λ n l e. read_ints-Within n l),
                        (sized limit read_longs list_tag (λ n l e. read_longs-Within n l), tt),
                      ),
                    ),
                  ),
                ),
              ),
            ),
          ),
        ),
      ),
    ),
  ),
)
