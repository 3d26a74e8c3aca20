-- ===== src/Inventory/Counted.antt =====
-- How many items and stacks carry the marker of an escrow behind the loop of `tagSellItems` in
-- src/inventory_escrow.cpp.
use endstone_exchange.Common.{
  ap, sym, ℕ, zero, suc, ◌+◌, ◌-◌, ◌≤◌, ◌<◌, ◌≡◌, ◌≢◌, inl, inr, refl, arith, List, [], ◌∷◌, ◌++◌,
  Option, some, none, All, All-map, All-append, Bool-cases, leb, true, if◌then◌else◌,
}
use endstone_exchange.Inventory.{
  Compounds, Stack, Inventory, Prototype, sell_item_tag, has_marker, id_max, sum_slots, sum_places,
  amount_of, stacks_marked, count_marked,
}
use endstone_exchange.Inventory.Escrow.{
  Place, slot, Candidate, candidate_at, slot_candidates, candidates, sellable, insert_candidate,
  by_amount, set_slot, set_item, Tagged, tag_loop,
}
use endstone_exchange.Inventory.Tagging.{
  candidates-Placed, by_amount-All, IsAt, Placed, tagged, marker_id-set_marker,
  insert_candidate-All,
}

-- The places by numbers
abbrev pub spot : Place → ℕ
spot (slot i) = suc i
spot Place.off_hand = 0

-- No two candidates stand at one place.
abbrev pub Apart : List Candidate → Type 0
Apart [] = Unit
Apart (c ∷ cs) = All (λ d. spot d.0 ≢ spot c.0) cs × Apart cs

module _ (m : Compounds) (p : Prototype) (escrow : ℕ) (fits : escrow ≤ id_max) where
  slot_candidates-behind :
      (i : ℕ) (os : List (Option Stack)) → All (λ c. i < spot c.0) (slot_candidates m p i os)
  slot_candidates-behind i [] = tt
  slot_candidates-behind i (none ∷ os) =
      All-map (λ c. suc i < spot c.0) (λ c. i < spot c.0) _ (λ c h. omega arith)
        (slot_candidates-behind (suc i) os)
  slot_candidates-behind i (some s ∷ os) =
      let more =
        All-map (λ c. suc i < spot c.0) (λ c. i < spot c.0) _ (λ c h. omega arith)
          (slot_candidates-behind (suc i) os) in
      elim (Bool-cases (sellable m p s)) [ inl e ↦ rw e (omega arith, more) | inr e ↦ rw e more ]

  slot_candidates-Apart : (i : ℕ) (os : List (Option Stack)) → Apart (slot_candidates m p i os)
  slot_candidates-Apart i [] = tt
  slot_candidates-Apart i (none ∷ os) = slot_candidates-Apart (suc i) os
  slot_candidates-Apart i (some s ∷ os) = elim (Bool-cases (sellable m p s)) [
    | inl e ↦ rw e (
      All-map (λ c. suc i < spot c.0) (λ c. spot c.0 ≢ suc i) _ (λ c h q. omega arith)
          (slot_candidates-behind (suc i) os),
      slot_candidates-Apart (suc i) os,
    )
    | inr e ↦ rw e (slot_candidates-Apart (suc i) os)
  ]

  append-Apart :
      (cs : List Candidate) (o : Option Stack)
      → All (λ c. 0 < spot c.0) cs
      → Apart cs
      → Apart (cs ++ candidate_at m p Place.off_hand o)
  append-Apart [] none h k = tt
  append-Apart [] (some s) h k = elim (Bool-cases (sellable m p s)) [
    | inl e ↦ rw e (tt, tt)
    | inr e ↦ rw e tt
  ]
  append-Apart (c ∷ cs) o h k =
      (All-append (λ d. spot d.0 ≢ spot c.0) cs _ k.0 (last o), append-Apart cs o h.1 k.1)
    where
      last : (o : Option Stack) → All (λ d. spot d.0 ≢ spot c.0) (candidate_at m p Place.off_hand o)
      last none = tt
      last (some s) = elim (Bool-cases (sellable m p s)) [
        | inl e ↦ rw e ((λ q. omega (arith, h.0, q)), tt)
        | inr e ↦ rw e tt
      ]

  insert_candidate-Apart :
      (c : Candidate) (cs : List Candidate)
      → All (λ d. spot d.0 ≢ spot c.0) cs
      → Apart cs
      → Apart (insert_candidate c cs)
  unfolding insert_candidate
  insert_candidate-Apart c [] h k = (tt, tt)
  insert_candidate-Apart c (d ∷ ds) h k = elim (Bool-cases (leb c.1.amount d.1.amount)) [
    | inl e ↦ rw e (h, k)
    | inr e ↦ rw e (
      insert_candidate-All m p escrow fits (λ x. spot x.0 ≢ spot d.0) c ds (λ q. h.0 (sym q)) k.0,
      insert_candidate-Apart c ds h.1 k.1,
    )
  ]

  by_amount-Apart : (cs : List Candidate) → Apart cs → Apart (by_amount cs)
  unfolding by_amount
  by_amount-Apart [] h = tt
  by_amount-Apart (c ∷ cs) h =
      insert_candidate-Apart c (by_amount cs)
        (by_amount-All m p escrow fits (λ d. spot d.0 ≢ spot c.0) cs h.0) (by_amount-Apart cs h.1)

  candidates-Apart : (v : Inventory) → Apart (candidates m p v)
  candidates-Apart v =
      append-Apart (slot_candidates m p 0 v.slots) v.off_hand (slot_candidates-behind 0 v.slots)
        (slot_candidates-Apart 0 v.slots)

  -- A sum over the places, where one item takes the place of another
  sum_slots-set_slot :
      (f : Option Stack → ℕ) (i : ℕ) (s s' : Stack) (os : List (Option Stack))
      → IsAt m p escrow fits i s os
      → sum_slots f (set_slot i s' os) + f (some s) ≡ sum_slots f os + f (some s')
  sum_slots-set_slot f i s s' [] h = absurd h
  sum_slots-set_slot f zero s s' (o ∷ os) h = rw h (omega arith)
  sum_slots-set_slot f (suc i) s s' (o ∷ os) h = omega (arith, sum_slots-set_slot f i s s' os h)

  sum_places-set_item :
      (f : Option Stack → ℕ) (place : Place) (s s' : Stack) (v : Inventory)
      → Placed m p escrow fits v (place, s)
      → sum_places f (set_item place s' v) + f (some s) ≡ sum_places f v + f (some s')
  sum_places-set_item f (slot j) s s' v h =
      let z : j - 0 ≡ j = omega arith in
      omega (arith, sum_slots-set_slot f j s s' v.slots (rw z at h.2))
  sum_places-set_item f Place.off_hand s s' v h = rw h.1 (omega arith)

  -- Another place keeps its item.
  set_slot-other :
      (i j : ℕ) (s s' : Stack) (os : List (Option Stack))
      → i ≢ j
      → IsAt m p escrow fits j s os
      → IsAt m p escrow fits j s (set_slot i s' os)
  set_slot-other i j s s' [] n h = h
  set_slot-other zero zero s s' (o ∷ os) n h = absurd (n refl)
  set_slot-other zero (suc j) s s' (o ∷ os) n h = h
  set_slot-other (suc i) zero s s' (o ∷ os) n h = h
  set_slot-other (suc i) (suc j) s s' (o ∷ os) n h =
      set_slot-other i j s s' os (λ q. n (ap suc q)) h

  set_item-other :
      (place : Place) (s' : Stack) (v : Inventory) (d : Candidate)
      → spot d.0 ≢ spot place
      → Placed m p escrow fits v d
      → Placed m p escrow fits (set_item place s' v) d
  set_item-other (slot i) s' v (slot j, s) n h =
      (h.0, h.1, set_slot-other i (j - 0) s s' v.slots (λ q. n (omega (arith, q))) h.2)
  set_item-other (slot i) s' v (Place.off_hand, s) n h = h
  set_item-other Place.off_hand s' v (slot j, s) n h = h
  set_item-other Place.off_hand s' v (Place.off_hand, s) n h = absurd (n refl)

  -- What a place adds to `count_marked` and to `stacks_marked`
  abbrev pub amount_at : Option Stack → ℕ
  amount_at o = if has_marker sell_item_tag escrow o then amount_of o else 0

  abbrev pub one_at : Option Stack → ℕ
  one_at o = if has_marker sell_item_tag escrow o then 1 else 0

  tagged_marker :
      (s : Stack) → has_marker sell_item_tag escrow (some (tagged m p escrow fits s)) ≡ true
  tagged_marker s = rw (marker_id-set_marker m p escrow fits sell_item_tag s.nbt) (ground arith)

  -- An item that is not marked in its place adds nothing.
  slot-le-sum :
      (f : Option Stack → ℕ) (i : ℕ) (s : Stack) (os : List (Option Stack))
      → IsAt m p escrow fits i s os
      → f (some s) ≤ sum_slots f os
  slot-le-sum f i s [] h = absurd h
  slot-le-sum f zero s (o ∷ os) h = rw h (omega arith)
  slot-le-sum f (suc i) s (o ∷ os) h = omega (arith, slot-le-sum f i s os h)

  place-le-sum :
      (f : Option Stack → ℕ) (v : Inventory) (c : Candidate)
      → Placed m p escrow fits v c
      → f (some c.1) ≤ sum_places f v
  place-le-sum f v (slot j, s) h = omega (arith, slot-le-sum f (j - 0) s v.slots h.2)
  place-le-sum f v (Place.off_hand, s) h = rw h.1 (omega arith)

  place_unmarked : (o : Option Stack) → one_at o ≡ 0 → amount_at o ≡ 0
  place_unmarked o h = elim (Bool-cases (has_marker sell_item_tag escrow o)) [
    | inl e ↦ absurd (ground arith)
    | inr e ↦ rw e refl
  ]

  slots_unmarked : (os : List (Option Stack)) → sum_slots one_at os ≡ 0 → sum_slots amount_at os ≡ 0
  slots_unmarked [] h = refl
  slots_unmarked (o ∷ os) h =
      omega (arith, place_unmarked o (omega (arith, h)), slots_unmarked os (omega (arith, h)))

  -- The counters of the loop are the sums over the inventory.
  abbrev IsCounted : Inventory → Tagged → Type 0
  IsCounted v t = (sum_places amount_at v ≡ t.quantity) × (sum_places one_at v ≡ t.stacks)

  set_item-IsCounted :
      (place : Place) (s : Stack) (v : Inventory) (t : Tagged)
      → Placed m p escrow fits v (place, s)
      → one_at (some s) ≡ 0
      → IsCounted v t
      → IsCounted
          (set_item place (tagged m p escrow fits s) v)
          (record { quantity = t.quantity + s.amount; stacks = t.stacks + 1 })
  set_item-IsCounted place s v t h z k =
      let amounts = sum_places-set_item amount_at place s (tagged m p escrow fits s) v h in
      let ones = sum_places-set_item one_at place s (tagged m p escrow fits s) v h in
      let amount : amount_at (some (tagged m p escrow fits s)) ≡ s.amount =
        rw (tagged_marker s) refl in
      let one : one_at (some (tagged m p escrow fits s)) ≡ 1 = rw (tagged_marker s) refl in
      (
        omega (arith, amounts, amount, place_unmarked (some s) z, k.0),
        omega (arith, ones, one, z, k.1),
      )

  others-Placed :
      (place : Place) (s' : Stack) (v : Inventory) (cs : List Candidate)
      → All (λ d. spot d.0 ≢ spot place) cs
      → All (Placed m p escrow fits v) cs
      → All (Placed m p escrow fits (set_item place s' v)) cs
  others-Placed place s' v [] n h = tt
  others-Placed place s' v (d ∷ ds) n h =
      (set_item-other place s' v d n.0 h.0, others-Placed place s' v ds n.1 h.1)

  tag_loop-IsCounted :
      (requested : ℕ) (cs : List Candidate) (v : Inventory) (t : Tagged)
      → All (Placed m p escrow fits v) cs
      → Apart cs
      → All (λ c. one_at (some c.1) ≡ 0) cs
      → IsCounted v t
      → IsCounted (tag_loop m escrow requested cs v t).0 (tag_loop m escrow requested cs v t).1
  unfolding tag_loop
  tag_loop-IsCounted requested [] v t h a z k = k
  tag_loop-IsCounted requested ((place, s) ∷ cs) v t h a z k =
      elim (Bool-cases (leb requested t.quantity)) [
        | inl e ↦ rw e k
        | inr e ↦ rw e (
            tag_loop-IsCounted requested cs (set_item place (tagged m p escrow fits s) v) _
              (others-Placed place (tagged m p escrow fits s) v cs a.0 h.1) a.1 z.1
              (set_item-IsCounted place s v t h.0 z.0 k))
      ]

  -- From an inventory without the marker, the loop over its candidates leaves as many marked items and
  -- stacks as it reports.
  pub tag_candidates-IsCounted :
      (requested : ℕ) (v : Inventory)
      → stacks_marked sell_item_tag escrow v ≡ 0
      → let (v', t) =
          tag_loop m escrow requested
            (by_amount (candidates m p v))
            v
            (record { quantity = 0; stacks = 0 }) in
        (count_marked sell_item_tag escrow v' ≡ t.quantity)
        × (stacks_marked sell_item_tag escrow v' ≡ t.stacks)
  unfolding stacks_marked count_marked
  tag_candidates-IsCounted requested v none_marked =
      tag_loop-IsCounted requested (by_amount (candidates m p v)) v _
        (by_amount-All m p escrow fits (Placed m p escrow fits v) _ placed)
        (by_amount-Apart _ (candidates-Apart v))
        (by_amount-All m p escrow fits (λ c. one_at (some c.1) ≡ 0) _
          (All-map (Placed m p escrow fits v) (λ c. one_at (some c.1) ≡ 0) _
            (λ c h. omega (arith, place-le-sum one_at v c h, none_marked)) placed))
        (no_amounts, none_marked)
    where
      placed : All (Placed m p escrow fits v) (candidates m p v)
      placed = candidates-Placed m p escrow fits v

      no_amounts : sum_places amount_at v ≡ 0
      no_amounts = omega (
        arith,
        slots_unmarked v.slots (omega (arith, none_marked)),
        place_unmarked v.off_hand (omega (arith, none_marked)),
      )
