-- ===== src/Bytes.antt =====
-- Bytes as numbers, and readers that take them from the front of a list: what the classes `Reader` of
-- src/nbt_codec.cpp and `BedrockNbtReader` of src/structure_reader.cpp have in common. The list is the
-- part of the span behind `position_`, and an exception is an `Error` named after its message.
pub mod Words
pub mod Readers
use Prim.Native.Nat.{◌^◌}
use endstone_exchange.Common.{
  ℕ, zero, suc, ◌+◌, ◌*◌, ◌/◌, ◌%◌, List, [], ◌∷◌, length, ltb, if◌then◌else◌,
}

pub data Error : Type 0 where
  string_too_large truncated container_too_large unknown_type invalid_header invalid_root : Error
  root_not_compound invalid_container_length unsupported_type nesting_too_deep structure_missing :
      Error

-- `out_of_fuel` is no result of the program: the recursion of the model stopped too early.
pub data Parsed {ℓ} (A : Type ℓ) : Type ℓ where
  parsed : A → Parsed A
  rejected : Error → Parsed A
  out_of_fuel : Parsed A

abbrev pub Reader : Type 0 → Type 0
Reader A = List ℕ → Parsed (A × List ℕ)

abbrev pub bind : {A B : Type 0} → Parsed A → (A → Parsed B) → Parsed B
bind (parsed a) f = f a
bind (rejected e) f = rejected e
bind out_of_fuel f = out_of_fuel

infixl 5 ◌>>=◌ ◌>>◌
abbrev pub ◌>>=◌ : {A B : Type 0} → Reader A → (A → Reader B) → Reader B
◌>>=◌ m f bs = bind (m bs) λ (a, rest). f a rest

abbrev pub ◌>>◌ : {A B : Type 0} → Reader A → Reader B → Reader B
m >> k = m >>= λ _. k

abbrev pub pure : {A : Type 0} → A → Reader A
pure a bs = parsed (a, bs)

abbrev pub reject : {A : Type 0} → Error → Reader A
reject e bs = rejected e

abbrev pub take {ℓ} : {A : Type ℓ} → ℕ → List A → List A
take zero xs = []
take (suc n) [] = []
take (suc n) (x ∷ xs) = x ∷ take n xs

abbrev pub drop {ℓ} : {A : Type ℓ} → ℕ → List A → List A
drop zero xs = xs
drop (suc n) [] = []
drop (suc n) (x ∷ xs) = drop n xs

-- The `n` bytes of a value, the lowest first: byte `i` is `(raw >> (i * 8)) & 0xff`.
unfoldable pub le_bytes : ℕ → ℕ → List ℕ
le_bytes zero v = []
le_bytes (suc n) v = v % 256 ∷ le_bytes n (v / 256)

-- The value of bytes. What the code joins by `|` has no bit in common, so the join is a sum.
unfoldable pub from_le : List ℕ → ℕ
from_le [] = 0
from_le (b ∷ bs) = b + 256 * from_le bs

-- `require` and a copy of the next `n` bytes
unfoldable pub raw : ℕ → Reader (List ℕ)
raw n bs = if ltb (length bs) n then rejected truncated else parsed (take n bs, drop n bs)

-- A value of `n` bytes, by its bit pattern: `bit_cast` to a signed type or to a floating-point type keeps it.
unfoldable pub integral : ℕ → Reader ℕ
unfolding raw from_le
integral n = do bs ← raw n; pure (from_le bs)
