-- ===== src/Deliveries.antt =====
-- The items that players have to fetch (exchange_deliveries) and the claims that hand them out
-- (exchange_delivery_claims): `pendingDeliveries`, `unfinishedDeliveryClaims` and the functions named
-- …DeliveryClaim… of src/exchange_service.cpp. A view of a row carries the item of its market.
pub mod Claimed
pub mod Calls
use endstone_exchange.Common.{
  true, false, ℕ, suc, ◌+◌, ◌-◌, Bool, not, ◌&&◌, ◌||◌, Option, none, some, List, [], ◌∷◌, ltb,
  ◌==◌, if◌then◌else◌, is_empty, str_eq,
}
use Prim.Native.Nat.{min}
use endstone_exchange.Common.Int.{ℤ, pos, pos_part, ltb_ℤ, leb_ℤ}
use endstone_exchange.Table.{select, first, update, affected}
use endstone_exchange.Tx.{
  ok, err, Tx, Error, Outcome, transaction, ◌>>=◌, ◌>>◌, pure, throw_if, or_throw, gets, modify,
}
use endstone_exchange.Bank.{Uuid}
use endstone_exchange.Domain.{
  RowId, ItemPrototype, DeliveryClaimStatus, claim_is_prepared, claim_is_applied, claim_is_canceled,
}
use endstone_exchange.Store.{Db, Market, Delivery, DeliveryClaim}
use endstone_exchange.Reads.{sort_on, joined, front}

abbrev pub has_delivery : RowId → Delivery → Bool
has_delivery i d = d.id == i

abbrev pub has_claim : RowId → DeliveryClaim → Bool
has_claim i c = c.id == i

abbrev pub delivery_pending : Uuid → Delivery → Bool
delivery_pending p d = str_eq d.player_uuid p && ltb (d.claimed_qty + d.reserved_qty) d.quantity

unfoldable pub pending_deliveries : Uuid → Db → List (Delivery × ItemPrototype)
unfolding select sort_on joined
pending_deliveries p s =
    joined (λ d. d.market_id) s.markets
      (sort_on (λ d. d.id) (select (delivery_pending p) s.deliveries))

-- A delivery JOINed with its market
unfoldable pub with_item : List Market → Option Delivery → Option (Delivery × ItemPrototype)
unfolding first
with_item markets none = none
with_item markets (some d) = elim (first (λ m. m.id == d.market_id) markets) [
  | some m ↦ some (d, m.item)
  | none ↦ none
]

-- A claim joined with its delivery and the market of it
unfoldable pub claim_views : Db → List DeliveryClaim → List (DeliveryClaim × ItemPrototype)
unfolding with_item first
claim_views s [] = []
claim_views s (c ∷ cs) =
    let rest = claim_views s cs in
    elim (with_item s.markets (first (has_delivery c.delivery_id) s.deliveries)) [
      | some (_, item) ↦ (c, item) ∷ rest
      | none ↦ rest
    ]

abbrev pub claim_unfinished : Uuid → DeliveryClaim → Bool
claim_unfinished p c =
    str_eq c.player_uuid p
    && (claim_is_prepared c.status || (claim_is_applied c.status && not c.cleaned))

unfoldable pub unfinished_delivery_claims : Uuid → Db → List (DeliveryClaim × ItemPrototype)
unfolding select sort_on claim_views
unfinished_delivery_claims p s =
    claim_views s (sort_on (λ c. c.id) (select (claim_unfinished p) s.claims))

unfoldable pub find_delivery_claim : RowId → Uuid → Db → Option (DeliveryClaim × ItemPrototype)
unfolding select claim_views
find_delivery_claim i p s =
    front (claim_views s (select (λ c. has_claim i c && str_eq c.player_uuid p) s.claims))

abbrev pub new_claim : RowId → Uuid → ℕ → RowId → DeliveryClaim
new_claim delivery_id p quantity i = record {
  id = i;
  delivery_id = delivery_id;
  player_uuid = p;
  quantity = quantity;
  applied_qty = 0;
  status = DeliveryClaimStatus.prepared;
  cleaned = false;
}

unfoldable pub update_claims : (DeliveryClaim → Bool) → (DeliveryClaim → DeliveryClaim) → Db → Db
unfolding update
update_claims p f s = record s { claims = update p f s.claims }

unfoldable pub update_delivery : RowId → (Delivery → Delivery) → Db → Db
unfolding update
update_delivery i f s = record s { deliveries = update (has_delivery i) f s.deliveries }

abbrev pub reserved_more : ℕ → Delivery → Delivery
reserved_more n d = record d { reserved_qty = d.reserved_qty + n }

-- What is written once a delivery is found and `prepared` items of it are free: the claim and its
-- reservation.
unfoldable pub reserve_claim : RowId → Uuid → ℕ → Tx Db (Unit {0})
unfolding update_delivery
reserve_claim delivery_id p prepared = do
  modify λ s. record s {
    claims = new_claim delivery_id p prepared s.next_claim ∷ s.claims;
    next_claim = suc s.next_claim;
  }
  modify (update_delivery delivery_id (reserved_more prepared))

-- `prepared` items are reserved: what was asked for, or what is neither handed out nor reserved.
unfoldable pub prepare_claim_body : RowId → Uuid → ℕ → Tx Db (DeliveryClaim × ItemPrototype)
unfolding reserve_claim with_item first
prepare_claim_body delivery_id p quantity = do
  (d, item) ←
      or_throw (← gets λ s. with_item s.markets (first (has_delivery delivery_id) s.deliveries))
        Error.delivery_missing
  throw_if (not (str_eq d.player_uuid p)) Error.delivery_of_another_player
  let available = d.quantity - d.claimed_qty - d.reserved_qty
  throw_if (available == 0) Error.delivery_exhausted
  let prepared = min quantity available
  claim_id ← gets λ s. s.next_claim
  reserve_claim delivery_id p prepared
  pure (new_claim delivery_id p prepared claim_id, item)

unfoldable pub prepare_delivery_claim :
    RowId → Uuid → ℤ → Db → Outcome Db (DeliveryClaim × ItemPrototype)
unfolding prepare_claim_body
prepare_delivery_claim delivery_id p quantity s =
    if leb_ℤ quantity (pos 0) || is_empty p
    then (err Error.delivery_claim_incomplete, s)
    else transaction (prepare_claim_body delivery_id p (pos_part quantity)) s

-- A claim that is completed already: the same completion again is let through.
abbrev pub completed_alike : ℕ → DeliveryClaim → Bool
completed_alike delivered c =
    (claim_is_applied c.status && c.applied_qty == delivered)
    || (claim_is_canceled c.status && delivered == 0)

abbrev pub handed_out : ℕ → ℕ → Delivery → Delivery
handed_out delivered prepared d = record d {
  claimed_qty = d.claimed_qty + delivered;
  reserved_qty = d.reserved_qty - prepared;
}

abbrev pub closed_claim : ℕ → DeliveryClaim → DeliveryClaim
closed_claim delivered c =
    if delivered == 0
    then record c { applied_qty = 0; status = DeliveryClaimStatus.canceled; cleaned = true }
    else record c { applied_qty = delivered; status = DeliveryClaimStatus.applied }

-- The completion of a prepared claim
unfoldable pub apply_claim : DeliveryClaim → ℕ → Tx Db (Unit {0})
unfolding update_delivery update_claims first
apply_claim c delivered = do
  throw_if (ltb c.quantity delivered) Error.claim_exceeded
  d ← or_throw (← gets λ s. first (has_delivery c.delivery_id) s.deliveries) Error.delivery_missing
  throw_if (ltb d.reserved_qty c.quantity || ltb d.quantity (d.claimed_qty + delivered))
      Error.delivery_reservation_failed
  modify (update_delivery c.delivery_id (handed_out delivered c.quantity))
  modify (update_claims (has_claim c.id) (closed_claim delivered))

unfoldable pub complete_claim_body : RowId → ℕ → Tx Db (Unit {0})
unfolding apply_claim first
complete_claim_body i delivered = do
  c ← or_throw (← gets λ s. first (has_claim i) s.claims) Error.claim_missing
  if not (claim_is_prepared c.status)
      then throw_if (not (completed_alike delivered c)) Error.claim_completed_differently
      else apply_claim c delivered

unfoldable pub complete_delivery_claim : RowId → ℤ → Db → Outcome Db (Unit {0})
unfolding complete_claim_body
complete_delivery_claim i delivered s =
    if ltb_ℤ delivered (pos 0)
    then (err Error.delivered_quantity_negative, s)
    else transaction (complete_claim_body i (pos_part delivered)) s

abbrev pub is_applied_claim : RowId → DeliveryClaim → Bool
is_applied_claim i c = c.id == i && claim_is_applied c.status

-- `markDeliveryClaimCleaned`: one statement of its own.
unfoldable pub mark_delivery_claim_cleaned : RowId → Db → Outcome Db (Unit {0})
unfolding update_claims affected
mark_delivery_claim_cleaned i s =
    let s' = update_claims (is_applied_claim i) (λ c. record c { cleaned = true }) s in
    if affected (is_applied_claim i) s.claims == 1
    then (ok tt, s')
    else (err Error.applied_claim_missing, s')
