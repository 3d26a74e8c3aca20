-- ===== src/Trade/Fuel.antt =====
-- The fuel of the loop of `textFormValues` in src/trade_form.cpp.
use endstone_exchange.Common.{
  none, some, ltb, Option, ℕ, zero, suc, ◌≡◌, ◌≤◌, ◌<◌, List, [], ◌∷◌, arith, refl, length, ◌==◌,
  Bool-cases, inl, inr,
}
use endstone_exchange.Texts.{skip_spaces}
use endstone_exchange.Trade.{Entered, entered, refused}
use endstone_exchange.Trade.Forms.{
  Read, read_text, before, before_escaped, unescape, behind_value, behind_text, read_values,
}

length-skip_spaces : (cs : List ℕ) → length (skip_spaces cs) ≤ length cs
unfolding skip_spaces
length-skip_spaces [] = omega arith
length-skip_spaces (c ∷ cs) = ground (arith, length-skip_spaces cs)

-- What is left behind a text
abbrev IsWithin : ℕ → Read → Type 0
IsWithin n (entered (value, rest)) = length rest < n
IsWithin n (refused e) = Unit

before-IsWithin : (n k c : ℕ) (r : Read) → n ≤ k → IsWithin n r → IsWithin k (before c r)
before-IsWithin n k c (entered (value, rest)) h w = omega arith
before-IsWithin n k c (refused e) h w = tt

before_escaped-IsWithin :
    (n k : ℕ) (o : Option ℕ) (r : Read) → n ≤ k → IsWithin n r → IsWithin k (before_escaped o r)
before_escaped-IsWithin n k none r h w = tt
before_escaped-IsWithin n k (some c) r h w = before-IsWithin n k c r h w

read_text-IsWithin : (cs : List ℕ) → IsWithin (suc (length cs)) (read_text cs)
unfolding read_text
read_text-IsWithin [] = tt
read_text-IsWithin (c ∷ []) = elim (Bool-cases (c == b'"')) [
  | inl e ↦ rw e (omega arith)
  | inr e ↦ rw e tt
]
read_text-IsWithin (c ∷ d ∷ cs) = elim (Bool-cases (c == b'"')) [
  | inl e ↦ rw e (omega arith)
  | inr e ↦ rw e (elim (Bool-cases (ltb c 32)) [
    | inl x ↦ rw x tt
    | inr x ↦ rw x (elim (Bool-cases (c == 92)) [
      | inl y ↦ rw y (
          before_escaped-IsWithin _ _ (unescape d) (read_text cs) (omega arith)
            (read_text-IsWithin cs))
      | inr y ↦
          rw y
            (before-IsWithin _ _ c (read_text (d ∷ cs)) (omega arith) (read_text-IsWithin (d ∷ cs)))
    ])
  ])
]

-- The loop asks for what follows only at shorter texts.
behind_text-agree :
    (f g : List ℕ → Entered (List (List ℕ))) (n : ℕ) (r : Read)
    → ((cs : List ℕ) → length cs < n → f cs ≡ g cs)
    → IsWithin (suc n) r
    → behind_text f r ≡ behind_text g r
behind_text-agree f g n (refused e) h w = refl
behind_text-agree f g n (entered (value, rest)) h w =
    go (skip_spaces rest) (length-skip_spaces rest)
  where
    go : (cs : List ℕ) → length cs ≤ length rest → behind_value f value cs ≡ behind_value g value cs
    go [] b = refl
    go (c ∷ cs) b = rw (h (skip_spaces cs) (omega (arith, length-skip_spaces cs))) refl

-- Fuel for each byte is enough: with more of it, the values read are the same.
pub read_values-enough :
    (f g : ℕ) (cs : List ℕ) → length cs ≤ f → length cs ≤ g → read_values f cs ≡ read_values g cs
unfolding read_values
read_values-enough f g [] a b = refl
read_values-enough zero g (c ∷ cs) a b = absurd (omega arith)
read_values-enough (suc f) zero (c ∷ cs) a b = absurd (omega arith)
read_values-enough (suc f) (suc g) (c ∷ cs) a b =
    rw
      (behind_text-agree (read_values f) (read_values g) (length cs) (read_text cs)
        (λ ds l. read_values-enough f g ds (omega arith) (omega arith)) (read_text-IsWithin cs))
      refl
