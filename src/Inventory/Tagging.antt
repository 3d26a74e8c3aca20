-- ===== src/Inventory/Tagging.antt =====
-- Tagging stacks for a sale and restoring them, in src/inventory_escrow.cpp.
use endstone_exchange.Common.{
  inl, leb, All-map, ◌+◌, ◌⊎◌, Bool-cases, ap, ◌∙◌, inr, All-append, List, ◌-◌, arith, All, Option,
  ◌==◌, ◌≡◌, ◌≤◌, ℕ, none, some, zero, suc, [], ◌∷◌, refl, true, false,
}
use endstone_exchange.Texts.{to_string, is_digit}
use endstone_exchange.Texts.Decimal.{to_string-printed}
use endstone_exchange.Nbt.{Fields, string_tag}
use endstone_exchange.Inventory.{
  Compounds, Stack, Inventory, Prototype, sell_item_tag, stoull, whole_id, id_of_tag, marker_id,
  matches, set_marker, marked, id_max,
}
use endstone_exchange.Inventory.Escrow.{
  sellable, Place, slot, Candidate, candidate_at, slot_candidates, candidates, total,
  insert_candidate, by_amount, set_slot, set_item, Tagged, tag_loop,
}

no_sign : (c : ℕ) → is_digit c ≡ true → ((c == b'-') ≡ false) × ((c == b'+') ≡ false)
unfolding is_digit
no_sign c h = ground arith

stoull-to_string : (n : ℕ) → n ≤ id_max → stoull (to_string n) ≡ some (n, [])
unfolding stoull
stoull-to_string n h =
    let (c, ds, e, digit, skipped, read) = to_string-printed id_max n h in
    let (minus, plus) = no_sign c digit in rw skipped (rw minus (rw plus read))

module _ (m : Compounds) (p : Prototype) (escrow : ℕ) (fits : escrow ≤ id_max) where
  pub marker_id-set_marker :
      (marker : List ℕ) (nbt : Fields)
      → marker_id marker (set_marker m marker escrow nbt) ≡ some escrow
  unfolding marker_id set_marker
  marker_id-set_marker marker nbt =
      ap id_of_tag (m.field_at-insert marker (string_tag (to_string escrow)) nbt)
      ∙ ap whole_id (stoull-to_string escrow fits)

  abbrev pub tagged : Stack → Stack
  tagged s = marked m sell_item_tag escrow s

  -- A place keeps what it has, or its item, which has the NBT of the prototype, is tagged.
  abbrev pub IsKept : Option Stack → Option Stack → Type 0
  IsKept o o' =
      (o' ≡ o) ⊎ ((s : Stack) × (o ≡ some s) × (s.nbt ≡ p.original) × (o' ≡ some (tagged s)))

  abbrev pub AreKept : List (Option Stack) → List (Option Stack) → Type 0
  AreKept [] [] = Unit
  AreKept [] (o' ∷ os') = ⊥
  AreKept (o ∷ os) [] = ⊥
  AreKept (o ∷ os) (o' ∷ os') = IsKept o o' × AreKept os os'

  abbrev pub InventoryIsKept : Inventory → Inventory → Type 0
  InventoryIsKept v v' = AreKept v.slots v'.slots × IsKept v.off_hand v'.off_hand

  abbrev pub IsAt : ℕ → Stack → List (Option Stack) → Type 0
  IsAt i s [] = ⊥
  IsAt zero s (o ∷ os) = o ≡ some s
  IsAt (suc i) s (o ∷ os) = IsAt i s os

  -- A candidate of the slots from number `i` on, and one of the inventory
  abbrev pub IsPlaced : ℕ → List (Option Stack) → Option Stack → Candidate → Type 0
  IsPlaced i os hand (slot j, s) = (s.nbt ≡ p.original) × (i ≤ j) × IsAt (j - i) s os
  IsPlaced i os hand (Place.off_hand, s) = (s.nbt ≡ p.original) × (hand ≡ some s)

  sellable_nbt : (s : Stack) → sellable m p s ≡ true → s.nbt ≡ p.original
  unfolding matches
  sellable_nbt s h = m.same-eq s.nbt p.original (ground arith)

  candidate_at-IsPlaced :
      (i : ℕ) (os : List (Option Stack)) (hand : Option Stack) (place : Place) (o : Option Stack)
      → ((s : Stack) → o ≡ some s → s.nbt ≡ p.original → IsPlaced i os hand (place, s))
      → All (IsPlaced i os hand) (candidate_at m p place o)
  candidate_at-IsPlaced i os hand place none h = tt
  candidate_at-IsPlaced i os hand place (some s) h = elim (Bool-cases (sellable m p s)) [
    | inl e ↦ rw e (h s refl (sellable_nbt s e), tt)
    | inr e ↦ rw e tt
  ]

  next-IsPlaced :
      (i : ℕ) (o : Option Stack) (os : List (Option Stack)) (hand : Option Stack) (c : Candidate)
      → IsPlaced (suc i) os hand c
      → IsPlaced i (o ∷ os) hand c
  next-IsPlaced i o os hand (slot j, s) h =
      let e : j - i ≡ suc (j - suc i) = omega arith in (h.0, omega arith, rw e h.2)
  next-IsPlaced i o os hand (Place.off_hand, s) h = h

  slot_candidates-IsPlaced :
      (i : ℕ) (os : List (Option Stack)) (hand : Option Stack)
      → All (IsPlaced i os hand) (slot_candidates m p i os)
  slot_candidates-IsPlaced i [] hand = tt
  slot_candidates-IsPlaced i (o ∷ os) hand =
      All-append (IsPlaced i (o ∷ os) hand) (candidate_at m p (slot i) o)
        (slot_candidates m p (suc i) os)
        (candidate_at-IsPlaced i (o ∷ os) hand (slot i) o
          (λ s e q. let z : i - i ≡ 0 = omega arith in (q, omega arith, rw z e)))
        (All-map (IsPlaced (suc i) os hand) (IsPlaced i (o ∷ os) hand) _ (next-IsPlaced i o os hand)
          (slot_candidates-IsPlaced (suc i) os hand))

  abbrev pub Placed : Inventory → Candidate → Type 0
  Placed v = IsPlaced 0 v.slots v.off_hand

  pub candidates-Placed : (v : Inventory) → All (Placed v) (candidates m p v)
  candidates-Placed v =
      All-append (Placed v) (slot_candidates m p 0 v.slots) _
        (slot_candidates-IsPlaced 0 v.slots v.off_hand)
        (candidate_at-IsPlaced 0 v.slots v.off_hand Place.off_hand v.off_hand (λ s e q. (q, e)))

  pub insert_candidate-All :
      (P : Candidate → Type 0) (c : Candidate) (cs : List Candidate)
      → P c
      → All P cs
      → All P (insert_candidate c cs)
  unfolding insert_candidate
  insert_candidate-All P c [] h k = (h, tt)
  insert_candidate-All P c (d ∷ ds) h k = elim (Bool-cases (leb c.1.amount d.1.amount)) [
    | inl e ↦ rw e (h, k)
    | inr e ↦ rw e (k.0, insert_candidate-All P c ds h k.1)
  ]

  pub by_amount-All :
      (P : Candidate → Type 0) (cs : List Candidate) → All P cs → All P (by_amount cs)
  unfolding by_amount
  by_amount-All P [] h = tt
  by_amount-All P (c ∷ cs) h = insert_candidate-All P c (by_amount cs) h.0 (by_amount-All P cs h.1)

  total-insert_candidate :
      (c : Candidate) (cs : List Candidate) → total (insert_candidate c cs) ≡ c.1.amount + total cs
  unfolding insert_candidate
  total-insert_candidate c [] = refl
  total-insert_candidate c (d ∷ ds) = ground (arith, total-insert_candidate c ds)

  pub total-by_amount : (cs : List Candidate) → total (by_amount cs) ≡ total cs
  unfolding by_amount
  total-by_amount [] = refl
  total-by_amount (c ∷ cs) =
      total-insert_candidate c (by_amount cs) ∙ omega (arith, total-by_amount cs)

  set_slot-AreKept :
      (i : ℕ) (s : Stack) (os os' : List (Option Stack))
      → IsAt i s os
      → s.nbt ≡ p.original
      → AreKept os os'
      → AreKept os (set_slot i (tagged s) os')
  set_slot-AreKept i s [] os' a q k = absurd a
  set_slot-AreKept i s (o ∷ os) [] a q k = absurd k
  set_slot-AreKept zero s (o ∷ os) (o' ∷ os') a q k = (inr (s, a, q, refl), k.1)
  set_slot-AreKept (suc i) s (o ∷ os) (o' ∷ os') a q k = (k.0, set_slot-AreKept i s os os' a q k.1)

  set_item-IsKept :
      (place : Place) (s : Stack) (v v' : Inventory)
      → Placed v (place, s)
      → InventoryIsKept v v'
      → InventoryIsKept v (set_item place (tagged s) v')
  set_item-IsKept (slot j) s v v' h k =
      let z : j - 0 ≡ j = omega arith in
      (set_slot-AreKept j s v.slots v'.slots (rw z at h.2) h.0 k.0, k.1)
  set_item-IsKept Place.off_hand s v v' h k = (k.0, inr (s, h.1, h.0, refl))

  -- The loop tags only candidates, and goes on until their items are enough.
  pub tag_loop-IsKept :
      (requested : ℕ) (cs : List Candidate) (v v' : Inventory) (t : Tagged)
      → All (Placed v) cs
      → InventoryIsKept v v'
      → requested ≤ t.quantity + total cs
      → InventoryIsKept v (tag_loop m escrow requested cs v' t).0
        × (requested ≤ (tag_loop m escrow requested cs v' t).1.quantity)
  unfolding tag_loop
  tag_loop-IsKept requested [] v v' t h k e = (k, omega arith)
  tag_loop-IsKept requested ((place, s) ∷ cs) v v' t h k e =
      elim (Bool-cases (leb requested t.quantity)) [
        | inl z ↦ rw z (k, ground arith)
        | inr z ↦ rw z (
            tag_loop-IsKept requested cs v (set_item place (tagged s) v') _ h.1
              (set_item-IsKept place s v v' h.0 k) (omega arith))
      ]
