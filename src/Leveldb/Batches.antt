-- ===== src/Leveldb/Batches.antt =====
-- Write batches of src/structure_reader.cpp, as a writer of the format lays them out. Numbers of variable
-- length are those that `appendVarUint` of src/hologram_packet.cpp writes.
use Prim.Native.Nat.{◌^◌}
use native.Mathlib.Nat.{div-add-mod}
use native.Mathlib.Numerals.{towards_suc}
use endstone_exchange.Common.{
  ◌∙◌, length, ltb, inr, inl, Bool-cases, true, leb, ap, ◌/◌, false, ◌&&◌, ◌==◌, arith, ◌++◌, ◌%◌,
  ◌<◌, ◌≡◌, ◌+◌, List, ◌*◌, ℕ, zero, suc, some, [], ◌∷◌, refl,
}
use endstone_exchange.Bytes.{le_bytes}
use endstone_exchange.Packet.{var_uint, append_var_uint}
use endstone_exchange.Leveldb.{var_loop, read_var_uint, Found, deleted, stored}

-- What a byte behind the next one weighs
next_weight : (s q : ℕ) → q * 2 ^ (s + 7) ≡ 128 * (q * 2 ^ s)
next_weight s q =
    let seven : 2 ^ (s + 7) ≡ 2 ^ s * 128 = simp towards_suc (omega arith) in rw seven (omega arith)

-- The byte of a round and the rounds behind it give the number at its weight.
weighed : (acc v s : ℕ) → acc + v % 128 * 2 ^ s + v / 128 * 2 ^ (s + 7) ≡ acc + v * 2 ^ s
weighed acc v s =
    rw (next_weight s (v / 128))
      (omega (arith, ap (λ (whole : ℕ). whole * 2 ^ s) (div-add-mod v 128)))

pow_more : (r : ℕ) → 128 ^ suc r ≡ 128 * 128 ^ r
pow_more r = omega arith

-- The last byte, and a byte that is not the last
last_round :
    (r s acc v : ℕ) (rest : List ℕ)
    → v < 128
    → (s == 28 && leb 16 v) ≡ false
    → var_loop (suc r) s acc (v ∷ rest) ≡ some (acc + v * 2 ^ s, rest)
unfolding var_loop
last_round r s acc v rest h ok28 = rw ok28 (ground arith)

inner_round :
    (r s acc g : ℕ) (rest : List ℕ)
    → g < 128
    → (s == 28) ≡ false
    → var_loop (suc r) s acc ((g + 128) ∷ rest) ≡ var_loop r (s + 7) (acc + g * 2 ^ s) rest
unfolding var_loop
inner_round r s acc g rest h not28 =
    let low : (g + 128) % 128 ≡ g = omega arith in
    let big : ltb (g + 128) 128 ≡ false = ground arith in rw not28 (rw low (rw big refl))

-- The bits that are still to be read lie behind those that were.
var_loop-var_uint :
    (r s acc v f : ℕ) (rest : List ℕ)
    → v < 16 * 128 ^ r
    → s + 7 * suc r ≡ 35
    → v < f
    → var_loop (suc r) s acc (var_uint f v ++ rest) ≡ some (acc + v * 2 ^ s, rest)
unfolding var_uint
var_loop-var_uint r s acc v zero rest small shift h = absurd (omega arith)
var_loop-var_uint zero s acc v (suc f) rest small shift h =
    let short : v < 16 = omega arith in
    let low : v % 128 ≡ v = omega arith in
    let whole : (v / 128 == 0) ≡ true = ground arith in
    rw whole (rw low (last_round zero s acc v rest (omega arith) (ground arith)))
var_loop-var_uint (suc r) s acc v (suc f) rest small shift h = elim (Bool-cases (v / 128 == 0)) [
  | inl e ↦
      let low : v % 128 ≡ v = ground arith in
      rw e (rw low (last_round (suc r) s acc v rest (ground arith) (ground arith)))
  | inr e ↦ rw e (
      inner_round (suc r) s acc (v % 128) (var_uint f (v / 128) ++ rest) (omega arith)
        (ground arith)
      ∙ var_loop-var_uint r (s + 7) (acc + v % 128 * 2 ^ s) (v / 128) f rest
          (omega (arith, pow_more r)) (omega arith) (ground arith)
      ∙ ap (λ (t : ℕ). some (t, rest)) (weighed acc v s))
]

pub read_var_uint-append_var_uint :
    (v : ℕ) (rest : List ℕ)
    → v < 4294967296
    → read_var_uint (append_var_uint v ++ rest) ≡ some (v, rest)
unfolding read_var_uint append_var_uint
read_var_uint-append_var_uint v rest h =
    var_loop-var_uint 4 0 0 v (suc v) rest (omega arith) (omega arith) (omega arith)
    ∙ ap (λ (t : ℕ). some (t, rest)) (omega arith)

-- A text or a value as a batch holds it: its length, and its bytes
abbrev pub laid_out : List ℕ → List ℕ
laid_out s = append_var_uint (length s) ++ s

-- The operations of a batch, and their effect on the value of a key
pub data Operation : Type 0 where
  put : List ℕ → List ℕ → Operation
  delete : List ℕ → Operation

abbrev pub encoded : List Operation → List ℕ
encoded [] = []
encoded (put key v ∷ ops) = 1 ∷ (laid_out key ++ (laid_out v ++ encoded ops))
encoded (delete key ∷ ops) = 0 ∷ (laid_out key ++ encoded ops)

abbrev pub applied : List ℕ → List Operation → Found → Found
applied wanted [] f = f
applied wanted (put key v ∷ ops) f = applied wanted ops (stored wanted key v f)
applied wanted (delete key ∷ ops) f = applied wanted ops (deleted wanted key f)

abbrev pub IsShort : Operation → Type 0
IsShort (put key v) = (length key < 4294967296) × (length v < 4294967296)
IsShort (delete key) = length key < 4294967296

-- A write batch: a sequence number of eight bytes, the count of its operations, and the operations
abbrev pub batch : List ℕ → List Operation → List ℕ
batch sequence ops = sequence ++ (le_bytes 4 (length ops) ++ encoded ops)
