-- ===== src/Leveldb.antt =====
-- The part of src/structure_reader.cpp that looks for the value of a key in the log files of a LevelDB
-- database: numbers of variable length, write batches, and the records of a log, which may be split into fragments.
-- A file is the list of its bytes.
pub mod Batches
pub mod Logs
use endstone_exchange.Common.{
  leb, length, ◌*◌, ◌&&◌, ◌%◌, ltb, ◌+◌, if◌then◌else◌, ◌==◌, Bool, List, Option, ℕ, ◌∷◌, [], suc,
  zero, false, true, none, some,
}
use Prim.Native.Nat.{◌^◌}
use endstone_exchange.Bytes.{take, drop, from_le}

-- `readVarUint32`: a round for each shift below 35. The bits that a byte adds are new, so they are
-- added; `b & 0xf0` is 0 for a byte below 16, `b & 0x80` for a byte below 128.
unfoldable pub var_loop : ℕ → ℕ → ℕ → List ℕ → Option (ℕ × List ℕ)
var_loop zero shift acc bs = none
var_loop (suc rounds) shift acc [] = none
var_loop (suc rounds) shift acc (b ∷ bs) =
    let more = var_loop rounds (shift + 7) (acc + b % 128 * 2 ^ shift) bs in
    if shift == 28 && leb 16 b
    then none
    else if ltb b 128
    then some (acc + b % 128 * 2 ^ shift, bs)
    else more

unfoldable pub read_var_uint : List ℕ → Option (ℕ × List ℕ)
unfolding var_loop
read_var_uint bs = var_loop 5 0 0 bs

-- A number of variable length, and as many bytes behind it
abbrev pub sized_by : Option (ℕ × List ℕ) → Option (List ℕ × List ℕ)
sized_by none = none
sized_by (some (n, bs)) = if ltb (length bs) n then none else some (take n bs, drop n bs)

unfoldable pub read_sized : List ℕ → Option (List ℕ × List ℕ)
unfolding read_var_uint
read_sized bs = sized_by (read_var_uint bs)

-- `value` and `seen`, which the functions share
pub record Found : Type 0 where
  pub value : Option (List ℕ)
  pub seen : Bool

abbrev pub same_bytes : List ℕ → List ℕ → Bool
same_bytes [] [] = true
same_bytes [] (d ∷ ds) = false
same_bytes (c ∷ cs) [] = false
same_bytes (c ∷ cs) (d ∷ ds) = c == d && same_bytes cs ds

abbrev pub deleted : List ℕ → List ℕ → Found → Found
deleted wanted key f = if same_bytes key wanted then record { value = none; seen = true } else f

abbrev pub stored : List ℕ → List ℕ → List ℕ → Found → Found
stored wanted key v f = if same_bytes key wanted then record { value = some v; seen = true } else f

-- The operations of a batch, up to the first that is malformed
unfoldable pub batch_loop : List ℕ → ℕ → List ℕ → Found → Found
unfolding read_sized
batch_loop wanted zero bs f = f
batch_loop wanted (suc n) [] f = f
batch_loop wanted (suc n) (tag ∷ bs) f = elim (read_sized bs) [
  | none ↦ f
  | some (key, rest) ↦ elim (tag == 0) [
    | true ↦ batch_loop wanted n rest (deleted wanted key f)
    | false ↦ elim (tag == 1) [
      | false ↦ f
      | true ↦ elim (read_sized rest) [
        | none ↦ f
        | some (v, last) ↦ batch_loop wanted n last (stored wanted key v f)
      ]
    ]
  ]
]

-- `inspectWriteBatch`: eight bytes of a sequence number, the count, and the operations
unfoldable pub inspect_batch : List ℕ → List ℕ → Found → Found
unfolding from_le batch_loop
inspect_batch record_bytes wanted f =
    if ltb (length record_bytes) 12
    then f
    else batch_loop wanted (from_le (take 4 (drop 8 record_bytes))) (drop 12 record_bytes) f
