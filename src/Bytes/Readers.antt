-- ===== src/Bytes/Readers.antt =====
-- How far a reader goes: it ends with an exception, or with a value and some of its bytes taken.
use endstone_exchange.Common.{
  ℕ, zero, suc, ◌+◌, ◌-◌, ◌≤◌, ◌≡◌, Bool, true, false, List, [], ◌∷◌, length, ltb, Bool-cases, inl,
  inr, if◌then◌else◌, arith,
}
use endstone_exchange.Bytes.{
  Parsed, parsed, rejected, out_of_fuel, Reader, bind, ◌>>=◌, pure, from_le, drop, raw, integral,
}

-- It takes at least `k` of `n` bytes, where it goes through, and it does go through or throw.
abbrev pub Ends : {A : Type 0} → ℕ → ℕ → Parsed (A × List ℕ) → Type 0
Ends k n (parsed (a, rest)) = k + length rest ≤ n
Ends k n (rejected e) = Unit
Ends k n out_of_fuel = ⊥

pub length-drop {ℓ} : {A : Type ℓ} (n : ℕ) (xs : List A) → length (drop n xs) ≡ length xs - n
length-drop zero xs = omega arith
length-drop (suc n) [] = omega arith
length-drop (suc n) (x ∷ xs) = omega (arith, length-drop n xs)

pub Ends-raw : (k : ℕ) (bs : List ℕ) → Ends k (length bs) (raw k bs)
unfolding raw
Ends-raw k bs = elim (Bool-cases (ltb (length bs) k)) [
  | inl short ↦ rw short tt
  | inr enough ↦ rw enough (ground (arith, length-drop k bs))
]

-- On inputs of at most `limit` bytes a reader ends, and takes at least `k` of them.
abbrev pub Within : {A : Type 0} → ℕ → ℕ → Reader A → Type 0
Within k limit m = (bs : List ℕ) → length bs ≤ limit → Ends k (length bs) (m bs)

module _ {A : Type 0} where
  pub Within-pure : (limit : ℕ) (a : A) → Within 0 limit (pure a)
  Within-pure limit a bs h = omega arith

  pub Within-if :
      (k limit : ℕ) (b : Bool) (m m' : Reader A)
      → Within k limit m
      → Within k limit m'
      → Within k limit (if b then m else m')
  Within-if k limit true m m' h h' = h
  Within-if k limit false m m' h h' = h'

  Ends-bind :
      {B : Type 0} (k n k' n' : ℕ) (r : Parsed (A × List ℕ)) (f : A → Reader B)
      → Ends k n r
      → ((a : A) (rest : List ℕ) → k + length rest ≤ n → Ends k' n' (f a rest))
      → Ends k' n' (bind r λ (a, rest). f a rest)
  Ends-bind k n k' n' (parsed (a, rest)) f h g = g a rest h
  Ends-bind k n k' n' (rejected e) f h g = tt
  Ends-bind k n k' n' out_of_fuel f h g = absurd h

  Ends-mono : (k n n' : ℕ) (r : Parsed (A × List ℕ)) → k + n ≤ n' → Ends 0 n r → Ends k n' r
  Ends-mono k n n' (parsed (a, rest)) h e = omega arith
  Ends-mono k n n' (rejected x) h e = tt
  Ends-mono k n n' out_of_fuel h e = e

  pub Within-weaken : (k limit : ℕ) (m : Reader A) → Within k limit m → Within 0 limit m
  Within-weaken k limit m h bs b = go (m bs) (h bs b)
    where
      go : (r : Parsed (A × List ℕ)) → Ends k (length bs) r → Ends 0 (length bs) r
      go (parsed (a, rest)) e = omega arith
      go (rejected x) e = tt
      go out_of_fuel e = e

module _ {A B : Type 0} where
  -- Behind a reader that takes `k` bytes, the next one has a smaller limit.
  pub Within-bind :
      (k limit : ℕ) (m : Reader A) (f : A → Reader B)
      → Within k limit m
      → ((a : A) (l : ℕ) → k + l ≤ limit → Within 0 l (f a))
      → Within k limit (m >>= f)
  Within-bind k limit m f h g bs b =
      Ends-bind k (length bs) k (length bs) (m bs) f (h bs b) λ a rest e.
        Ends-mono k (length rest) (length bs) (f a rest) e
          (g a (length rest) (omega arith) rest (omega arith))

pub Within-raw : (k limit : ℕ) → Within k limit (raw k)
Within-raw k limit bs h = Ends-raw k bs

pub Within-integral : (k limit : ℕ) → Within k limit (integral k)
unfolding integral
Within-integral k limit =
    Within-bind k limit (raw k) (λ bs. pure (from_le bs)) (Within-raw k limit)
      (λ a l h. Within-pure l (from_le a))
