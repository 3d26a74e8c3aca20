-- ===== src/Bytes/Words.antt =====
-- Values of several bytes: the reader on what was laid out in bytes.
use Prim.Native.Nat.{◌^◌}
use endstone_exchange.Common.{
  ℕ, zero, suc, ◌/◌, ◌<◌, ◌≡◌, refl, ap, List, [], ◌∷◌, ◌++◌, length, length-append, arith,
}
use endstone_exchange.Bytes.{parsed, take, drop, le_bytes, from_le, raw, integral}

pub take-append {ℓ} : {A : Type ℓ} (xs ys : List A) → take (length xs) (xs ++ ys) ≡ xs
take-append [] ys = refl
take-append (x ∷ xs) ys = ap (λ zs. x ∷ zs) (take-append xs ys)

pub drop-append {ℓ} : {A : Type ℓ} (xs ys : List A) → drop (length xs) (xs ++ ys) ≡ ys
drop-append [] ys = refl
drop-append (x ∷ xs) ys = drop-append xs ys

pub length-le_bytes : (n v : ℕ) → length (le_bytes n v) ≡ n
unfolding le_bytes
length-le_bytes zero v = refl
length-le_bytes (suc n) v = ap suc (length-le_bytes n (v / 256))

pub from_le-le_bytes : (n v : ℕ) → v < 256 ^ n → from_le (le_bytes n v) ≡ v
unfolding le_bytes from_le
from_le-le_bytes zero v h = omega arith
from_le-le_bytes (suc n) v h = omega (arith, from_le-le_bytes n (v / 256) (omega arith))

pub raw-append : (xs ys : List ℕ) → raw (length xs) (xs ++ ys) ≡ parsed (xs, ys)
unfolding raw
raw-append xs ys = ground (arith, length-append xs ys, take-append xs ys, drop-append xs ys)

pub integral-le_bytes :
    (n v : ℕ) (rest : List ℕ) → v < 256 ^ n → integral n (le_bytes n v ++ rest) ≡ parsed (v, rest)
unfolding integral
integral-le_bytes n v rest h =
    let whole = raw-append (le_bytes n v) rest in
    rw (rw length-le_bytes at whole) (rw (from_le-le_bytes n v h) refl)
