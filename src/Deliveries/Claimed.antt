-- ===== src/Deliveries/Claimed.antt =====
-- The delivery claims of src/exchange_service.cpp and the two counters of the deliveries.
use endstone_exchange.Deliveries.{
  handed_out, reserved_more, new_claim, has_claim, has_delivery, closed_claim,
}
use endstone_exchange.Table.Keys.{IsKeyed-insert, IsKeyed-update, IsKeyed}
use endstone_exchange.Bank.{Uuid}
use endstone_exchange.Domain.{DeliveryClaimStatus, claim_is_applied, claim_is_prepared, RowId}
use endstone_exchange.Store.{Db, Delivery, DeliveryClaim}
use endstone_exchange.Table.{
  sum_of-update_row, first-All, All-update_row, first-holds, update, first, sum_of,
}
use endstone_exchange.Common.{
  some, sym, subst, ==_iff, inr, some, inl, Bool-cases, refl, true, false, ◌≡◌, ◌≤◌, arith, ℕ, suc,
  ◌+◌, ◌==◌, Bool, if◌then◌else◌, ◌&&◌, ◌∷◌, List, All,
}

abbrev pub IsWithin : Delivery → Type 0
IsWithin d = d.claimed_qty + d.reserved_qty ≤ d.quantity

-- The two counters of the delivery `i`, and what the claims on it say: the prepared ones reserve, the
-- applied ones have handed out.
abbrev pub reserved_at : RowId → Delivery → ℕ
reserved_at i d = if d.id == i then d.reserved_qty else 0

abbrev pub claimed_at : RowId → Delivery → ℕ
claimed_at i d = if d.id == i then d.claimed_qty else 0

abbrev pub pending_at : RowId → DeliveryClaim → ℕ
pending_at i c = if c.delivery_id == i && claim_is_prepared c.status then c.quantity else 0

abbrev pub applied_at : RowId → DeliveryClaim → ℕ
applied_at i c = if c.delivery_id == i && claim_is_applied c.status then c.applied_qty else 0

pub record IsClaimed (s : Db) : Type 0 where
  pub deliveries : IsKeyed (λ (d : Delivery). d.id) s.next_delivery s.deliveries
  pub claims : IsKeyed (λ (c : DeliveryClaim). c.id) s.next_claim s.claims
  pub within : All IsWithin s.deliveries
  pub reserves : (i : ℕ) → sum_of (reserved_at i) s.deliveries ≡ sum_of (pending_at i) s.claims
  pub hands_out : (i : ℕ) → sum_of (claimed_at i) s.deliveries ≡ sum_of (applied_at i) s.claims

delivery_of :
    (i : RowId) (ds : List Delivery) (d : Delivery) → first (has_delivery i) ds ≡ some d → d.id ≡ i
delivery_of i ds d h = (==_iff d.id i).0 (first-holds (has_delivery i) ds d h)

pub claim_of :
    (i : RowId) (cs : List DeliveryClaim) (c : DeliveryClaim)
    → first (has_claim i) cs ≡ some c
    → first (has_claim c.id) cs ≡ some c
claim_of i cs c h = subst (λ j. first (has_claim j) cs ≡ some c) (sym same) h
  where
    same : c.id ≡ i
    same = (==_iff c.id i).0 (first-holds (has_claim i) cs c h)

pub reserved_claim :
    (j : RowId) (p : Uuid) (n : ℕ) (s : Db) (d : Delivery)
    → IsClaimed s
    → first (has_delivery j) s.deliveries ≡ some d
    → d.claimed_qty + d.reserved_qty + n ≤ d.quantity
    → IsClaimed (record s {
      claims = new_claim j p n s.next_claim ∷ s.claims;
      next_claim = suc s.next_claim;
      deliveries = update (has_delivery j) (reserved_more n) s.deliveries;
    })
unfolding sum_of
reserved_claim j p n s d h found fits = record {
  deliveries =
      IsKeyed-update (λ (d : Delivery). d.id) s.next_delivery (has_delivery j) (reserved_more n)
        s.deliveries (λ x. refl) h.deliveries;
  claims = IsKeyed-insert (λ (c : DeliveryClaim). c.id) s.next_claim s.claims _ refl h.claims;
  within =
      All-update_row IsWithin (has_delivery j) (reserved_more n) s.deliveries d
        (h.deliveries.unique j) found (omega arith) h.within;
  reserves = λ i. ground (
    arith,
    h.reserves i,
    delivery_of j s.deliveries d found,
    sum_of-update_row (has_delivery j) (reserved_more n) (reserved_at i) s.deliveries d
        (h.deliveries.unique j) found,
  );
  hands_out = λ i. ground (
    arith,
    h.hands_out i,
    sum_of-update_row (has_delivery j) (reserved_more n) (claimed_at i) s.deliveries d
        (h.deliveries.unique j) found,
  );
}

closed_id : (n : ℕ) (c : DeliveryClaim) → (closed_claim n c).id ≡ c.id
closed_id n c = elim (Bool-cases (n == 0)) [ inl e ↦ rw e refl | inr e ↦ rw e refl ]

closed_cells :
    (n i : ℕ) (c : DeliveryClaim)
    → (pending_at i (closed_claim n c) ≡ 0)
      × (applied_at i (closed_claim n c) ≡ (if c.delivery_id == i then n else 0))
closed_cells n i c = elim (Bool-cases (n == 0)) [
  | inl e ↦ rw e (ground arith)
  | inr e ↦ rw e (ground arith)
]

pub closed_by :
    (n : ℕ) (s : Db) (c : DeliveryClaim) (d : Delivery)
    → IsClaimed s
    → first (has_claim c.id) s.claims ≡ some c
    → claim_is_prepared c.status ≡ true
    → first (has_delivery c.delivery_id) s.deliveries ≡ some d
    → n ≤ c.quantity
    → c.quantity ≤ d.reserved_qty
    → IsClaimed (record s {
      deliveries = update (has_delivery c.delivery_id) (handed_out n c.quantity) s.deliveries;
      claims = update (has_claim c.id) (closed_claim n) s.claims;
    })
closed_by n s c d h found prepared delivery fits reserved = record {
  deliveries =
      IsKeyed-update (λ (d : Delivery). d.id) s.next_delivery at (handed_out n c.quantity)
        s.deliveries (λ x. refl) h.deliveries;
  claims =
      IsKeyed-update (λ (c : DeliveryClaim). c.id) s.next_claim (has_claim c.id) (closed_claim n)
        s.claims (closed_id n) h.claims;
  within =
      All-update_row IsWithin at (handed_out n c.quantity) s.deliveries d
        (h.deliveries.unique c.delivery_id) delivery
        (omega (arith, first-All IsWithin at s.deliveries d h.within delivery)) h.within;
  reserves = λ i. ground (
    arith,
    prepared,
    h.reserves i,
    delivery_of c.delivery_id s.deliveries d delivery,
    (closed_cells n i c).0,
    sum_of-update_row at (handed_out n c.quantity) (reserved_at i) s.deliveries d
        (h.deliveries.unique c.delivery_id) delivery,
    sum_of-update_row (has_claim c.id) (closed_claim n) (pending_at i) s.claims c
        (h.claims.unique c.id) found,
  );
  hands_out = λ i. ground (
    arith,
    not_applied c.status prepared,
    h.hands_out i,
    delivery_of c.delivery_id s.deliveries d delivery,
    (closed_cells n i c).1,
    sum_of-update_row at (handed_out n c.quantity) (claimed_at i) s.deliveries d
        (h.deliveries.unique c.delivery_id) delivery,
    sum_of-update_row (has_claim c.id) (closed_claim n) (applied_at i) s.claims c
        (h.claims.unique c.id) found,
  );
}
  where
    at : Delivery → Bool
    at = has_delivery c.delivery_id

    not_applied :
        (u : DeliveryClaimStatus) → claim_is_prepared u ≡ true → claim_is_applied u ≡ false
    not_applied DeliveryClaimStatus.prepared e = refl
    not_applied DeliveryClaimStatus.applied e = cc
    not_applied DeliveryClaimStatus.canceled e = refl
