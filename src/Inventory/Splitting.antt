-- ===== src/Inventory/Splitting.antt =====
-- The stacks of `splitStacks` in src/inventory_escrow.cpp.
use endstone_exchange.Common.{
  refl, false, ◌==◌, if◌then◌else◌, ℕ, zero, suc, ◌≡◌, ◌≤◌, ◌<◌, ◌-◌, ltb, All, Option, arith,
  Bool-cases, inl, inr,
}
use endstone_exchange.Common.Int.{ℤ, pos, pos_part}
use endstone_exchange.Inventory.{Compounds, Stack, Prototype}
use endstone_exchange.Inventory.Escrow.{sample, split_loop, split_stacks, item_count}

-- A stack that is not empty and fits
abbrev IsSized : ℕ → Stack → Type 0
IsSized size s = (0 < s.amount) × (s.amount ≤ size)

split_loop-IsSplit :
    (f : ℕ) (s : Stack) (size remaining : ℕ)
    → 0 < size
    → remaining ≤ f
    → (item_count (split_loop f s size remaining) ≡ remaining)
      × All (IsSized size) (split_loop f s size remaining)
unfolding split_loop item_count
split_loop-IsSplit zero s size zero p h = (refl, tt)
split_loop-IsSplit (suc f) s size zero p h = (ground arith, ground arith)
split_loop-IsSplit zero s size (suc r) p h = absurd (omega arith)
split_loop-IsSplit (suc f) s size (suc r) p h = elim (Bool-cases (ltb size (suc r))) [
  | inl e ↦
      let rest = split_loop-IsSplit f s size (suc r - size) p (omega arith) in
      let more : (suc r == 0) ≡ false = ground arith in
      rw e (rw more (ground (arith, rest.0), ((p, omega arith), rest.1)))
  | inr e ↦
      let rest = split_loop-IsSplit f s size (suc r - suc r) p (omega arith) in
      let more : (suc r == 0) ≡ false = ground arith in
      rw e (rw more (ground (arith, rest.0), ((omega arith, ground arith), rest.1)))
]

-- However large a stack may be, `splitStacks` deals out the whole quantity, in stacks that are not empty and that fit.
pub split_stacks-IsSplit :
    (m : Compounds) (p : Prototype) (max_stack : ℤ) (quantity : ℕ) (claim : Option ℕ)
    → (item_count (split_stacks m p max_stack (pos quantity) claim) ≡ quantity)
      × All
          (IsSized (if ltb (pos_part max_stack) 1 then 1 else pos_part max_stack))
          (split_stacks m p max_stack (pos quantity) claim)
unfolding split_stacks
split_stacks-IsSplit m p max_stack quantity claim =
    split_loop-IsSplit quantity (sample m p claim) _ quantity (ground arith) (omega arith)
