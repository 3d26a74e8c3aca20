-- ===== src/Inventory/Restoring.antt =====
-- Restoring what a failed sale had tagged, in src/inventory_escrow.cpp.
use endstone_exchange.Inventory.Counted.{tag_candidates-IsCounted}
use endstone_exchange.Common.{
  ltb, subst, if◌then◌else◌, sym, inl, ◌⊎◌, Bool-cases, ap, ◌∙◌, inr, List, arith, Option, ◌≡◌, ◌≤◌,
  ℕ, none, some, zero, suc, [], ◌∷◌, refl, true, false,
}
use mathlib.Core.Path.{ap₂}
use endstone_exchange.Common.Int.{pos, leb_ℤ}
use endstone_exchange.Inventory.{
  count_marked, Compounds, Stack, Inventory, Prototype, sell_item_tag, same_id, has_marker,
  on_slots, id_max, sum_slots, stacks_marked,
}
use endstone_exchange.Inventory.Escrow.{
  candidates, total, by_amount, Tagged, tag_loop, Refusal, tag_sell_items, restored, restore_tagged,
}
use endstone_exchange.Inventory.Tagging.{
  IsKept, AreKept, InventoryIsKept, Placed, tagged, marker_id-set_marker, tag_loop-IsKept,
  candidates-Placed, by_amount-All, total-by_amount,
}

same_id_refl : (i : ℕ) → same_id (some i) i ≡ true
same_id_refl i = ground arith

AreKept-refl :
    (m : Compounds) (p : Prototype) (escrow : ℕ) (fits : escrow ≤ id_max) (os : List (Option Stack))
    → AreKept m p escrow fits os os
AreKept-refl m p escrow fits [] = tt
AreKept-refl m p escrow fits (o ∷ os) = (inl refl, AreKept-refl m p escrow fits os)

module _ (m : Compounds) (p : Prototype) (escrow : ℕ) (fits : escrow ≤ id_max) where
  abbrev mark : Option Stack → ℕ
  mark o = if has_marker sell_item_tag escrow o then 1 else 0

  restored-same : (o : Option Stack) → mark o ≡ 0 → restored p escrow o ≡ o
  restored-same none h = refl
  restored-same (some s) h = elim (Bool-cases (has_marker sell_item_tag escrow (some s))) [
    | inl e ↦ absurd (ground arith)
    | inr e ↦ rw e refl
  ]

  restored-tagged :
      (s : Stack)
      → s.nbt ≡ p.original
      → restored p escrow (some (tagged m p escrow fits s)) ≡ some s
  restored-tagged s q =
      rw (marker_id-set_marker m p escrow fits sell_item_tag s.nbt)
        (rw (same_id_refl escrow) (ap (λ n. some (record s { nbt = n })) (sym q)))

  restored-IsKept :
      (o o' : Option Stack) → mark o ≡ 0 → IsKept m p escrow fits o o' → restored p escrow o' ≡ o
  restored-IsKept o o' h (inl q) = ap (restored p escrow) q ∙ restored-same o h
  restored-IsKept o o' h (inr (s, e, q, r)) = ap (restored p escrow) r ∙ restored-tagged s q ∙ sym e

  restored-AreKept :
      (os os' : List (Option Stack))
      → sum_slots mark os ≡ 0
      → AreKept m p escrow fits os os'
      → on_slots (restored p escrow) os' ≡ os
  restored-AreKept [] [] h k = refl
  restored-AreKept [] (o' ∷ os') h k = absurd k
  restored-AreKept (o ∷ os) [] h k = absurd k
  restored-AreKept (o ∷ os) (o' ∷ os') h k =
      ap₂ (λ a rest. a ∷ rest) (restored-IsKept o o' (omega arith) k.0)
        (restored-AreKept os os' (omega arith) k.1)

  restored-InventoryIsKept :
      (v v' : Inventory)
      → stacks_marked sell_item_tag escrow v ≡ 0
      → InventoryIsKept m p escrow fits v v'
      → restore_tagged p escrow v' ≡ v
  unfolding restore_tagged stacks_marked
  restored-InventoryIsKept v v' h k =
      ap₂ (λ os o. record { slots = os; off_hand = o })
        (restored-AreKept v.slots v'.slots (omega arith) k.0)
        (restored-IsKept v.off_hand v'.off_hand (omega arith) k.1)

  -- What tagging leaves when it goes through: enough tagged, and only what restoring undoes
  abbrev IsUndone : ℕ → Inventory → Refusal ⊎ (Inventory × Tagged) → Type 0
  IsUndone requested v (inl r) = Unit
  IsUndone requested v (inr (v', t)) =
      (requested ≤ count_marked sell_item_tag escrow v')
      × (count_marked sell_item_tag escrow v' ≡ t.quantity)
      × (stacks_marked sell_item_tag escrow v' ≡ t.stacks)
      × (restore_tagged p escrow v' ≡ v)

  loop-IsUndone :
      (requested : ℕ) (v : Inventory)
      → stacks_marked sell_item_tag escrow v ≡ 0
      → requested ≤ total (candidates m p v)
      → IsUndone requested v (
          inr (
            tag_loop m escrow requested
              (by_amount (candidates m p v))
              v
              (record { quantity = 0; stacks = 0 })))
  loop-IsUndone requested v h e =
      let t : Tagged = record { quantity = 0; stacks = 0 } in
      let (kept, enough) =
        tag_loop-IsKept m p escrow fits requested (by_amount (candidates m p v)) v v t
          (by_amount-All m p escrow fits (Placed m p escrow fits v) _
            (candidates-Placed m p escrow fits v))
          (AreKept-refl m p escrow fits v.slots, inl refl)
          (omega (arith, total-by_amount m p escrow fits (candidates m p v))) in
      let (items, stacks) = tag_candidates-IsCounted m p escrow fits requested v h in
      (omega (arith, enough, items), items, stacks, restored-InventoryIsKept v _ h kept)

  sell-IsUndone :
      (requested : ℕ) (v : Inventory)
      → stacks_marked sell_item_tag escrow v ≡ 0
      → IsUndone requested v (tag_sell_items m p (pos requested) escrow v)
  unfolding tag_sell_items
  sell-IsUndone zero v h = tt
  sell-IsUndone (suc n) v h =
      let some_items : leb_ℤ (pos (suc n)) (pos 0) ≡ false = ground arith in
      elim (Bool-cases (ltb (total (candidates m p v)) (suc n))) [
        | inl z ↦ rw some_items (rw z tt)
        | inr z ↦ rw some_items (rw z (loop-IsUndone (suc n) v h (ground arith)))
      ]

  -- Where no item carries the marker of the escrow, a tagging for a sale that goes through leaves items with the
  -- marker, at least the quantity asked for and as many, in as many stacks, as it reports; and restoring the
  -- tagged items then gives the inventory of before.
  pub restore_tagged-tag_sell_items :
      (requested : ℕ) (v v' : Inventory) (t : Tagged)
      → stacks_marked sell_item_tag escrow v ≡ 0
      → tag_sell_items m p (pos requested) escrow v ≡ inr (v', t)
      → (requested ≤ count_marked sell_item_tag escrow v')
        × (count_marked sell_item_tag escrow v' ≡ t.quantity)
        × (stacks_marked sell_item_tag escrow v' ≡ t.stacks)
        × (restore_tagged p escrow v' ≡ v)
  restore_tagged-tag_sell_items requested v v' t h e =
      subst (IsUndone requested v) e (sell-IsUndone requested v h)
