-- ===== src/Deliveries/Calls.antt =====
-- The operations of src/exchange_service.cpp on delivery claims, call by call.
use endstone_exchange.Deliveries.Claimed.{
  IsClaimed, applied_at, claim_of, closed_by, pending_at, reserved_claim,
}
use Prim.Native.Nat.{min}
use mathlib.Core.Option.{some-injective}
use endstone_exchange.Common.Int.{pos_part, pos, leb_ℤ, ltb_ℤ, ℤ}
use endstone_exchange.Deliveries.{
  completed_alike, complete_claim_body, prepare_claim_body, update_delivery, is_applied_claim,
  reserve_claim, update_claims, apply_claim, complete_delivery_claim, prepare_delivery_claim,
  mark_delivery_claim_cleaned, with_item,
}
use endstone_exchange.Table.Keys.{IsKeyed-update}
use endstone_exchange.Bank.{Uuid}
use endstone_exchange.Domain.{ItemPrototype, claim_is_prepared, RowId}
use endstone_exchange.Store.{Market, Db, Delivery, DeliveryClaim}
use endstone_exchange.Table.{affected, sum_of-update_same, update, first}
use endstone_exchange.Common.{
  some, none, Option, is_empty, ap, Option, inr, some, inl, Bool-cases, refl, true, false, ◌≡◌,
  arith, ℕ, ◌-◌, ◌==◌, Bool, ◌||◌, not, List,
}
use endstone_exchange.Tx.{
  refused-keeps, transaction-keeps, Ensures-pure, Ensures-modify_last, Ensures-modify,
  Ensures-assoc, Ensures-guard, Ensures-if, Ensures-or_throw, Ensures-gets, throw_if, Error,
  Ensures,
}

with_item_row :
    (ms : List Market) (o : Option Delivery) (d : Delivery) (item : ItemPrototype)
    → with_item ms o ≡ some (d, item)
    → o ≡ some d
unfolding with_item
with_item_row ms none d item h = cc
with_item_row ms (some x) d item h = go (first (λ m. m.id == x.market_id) ms) h
  where
    go :
        (m : Option Market)
        → elim m as (λ _. Option (Delivery × ItemPrototype)) [
          | some m ↦ some (x, m.item)
          | none ↦ none
        ]
          ≡ some (d, item)
        → some x ≡ some d
    go none e = cc
    go (some m) e = ap some (ap (λ v. v.0) (some-injective (x, m.item) (d, item) e))

-- Where the claims account for the deliveries, they do so however `prepareDeliveryClaim` ends: no delivery
-- has handed out and reserved more than it has, and what each has reserved and handed out is what the
-- claims on it say.
pub prepare_delivery_claim-IsClaimed :
    (delivery_id : RowId) (p : Uuid) (quantity : ℤ) (s : Db)
    → IsClaimed s
    → IsClaimed (prepare_delivery_claim delivery_id p quantity s).1
unfolding prepare_delivery_claim reserve_claim update_delivery
prepare_delivery_claim-IsClaimed delivery_id p quantity s h =
    refused-keeps IsClaimed (leb_ℤ quantity (pos 0) || is_empty p) _ _ s h
      (transaction-keeps IsClaimed _ s h (body (pos_part quantity)))
  where
    body : (n : ℕ) → Ensures (λ _ s'. IsClaimed s') (prepare_claim_body delivery_id p n s)
    body n = Ensures-gets _ _ _ _ (
        Ensures-or_throw _ _ _ _ _ λ v found. Ensures-guard _ _ _ _ _ λ _.
          Ensures-guard _ _ _ _ _ λ free. Ensures-gets _ _ _ _ (
            Ensures-assoc _ _ _ _ _ (
              Ensures-modify _ _ _ _ (
                Ensures-modify _ _ _ _ (
                  Ensures-pure _ _ _ (
                    reserved_claim delivery_id p
                      (min n (v.0.quantity - v.0.claimed_qty - v.0.reserved_qty)) s v.0 h
                      (with_item_row s.markets _ v.0 v.1 found) (ground arith)))))))

-- Where the claims account for the deliveries, they do so however `completeDeliveryClaim` ends: no
-- delivery has handed out and reserved more than it has, and what each has reserved and handed out is what
-- the claims on it say.
pub complete_delivery_claim-IsClaimed :
    (i : RowId) (delivered : ℤ) (s : Db)
    → IsClaimed s
    → IsClaimed (complete_delivery_claim i delivered s).1
unfolding complete_delivery_claim apply_claim update_delivery update_claims throw_if
complete_delivery_claim-IsClaimed i delivered s h =
    refused-keeps IsClaimed (ltb_ℤ delivered (pos 0)) _ _ s h
      (transaction-keeps IsClaimed _ s h (body (pos_part delivered)))
  where
    done_before :
        (b : Bool) → Ensures (λ _ s'. IsClaimed s') (throw_if b Error.claim_completed_differently s)
    done_before true = tt
    done_before false = h

    body : (n : ℕ) → Ensures (λ _ s'. IsClaimed s') (complete_claim_body i n s)
    body n = Ensures-gets _ _ _ _ (
        Ensures-or_throw _ _ _ _ _ λ c found.
          Ensures-if _ (not (claim_is_prepared c.status)) _ (apply_claim c n) s
            (λ _. done_before (not (completed_alike n c)))
            (λ prepared. Ensures-guard _ _ _ _ _ λ fits. Ensures-gets _ _ _ _ (
              Ensures-or_throw _ _ _ _ _ λ d delivery. Ensures-guard _ _ _ _ _ λ ready.
                Ensures-modify _ _ _ _ (
                  Ensures-modify_last _ _ _ (
                    closed_by n s c d h (claim_of i s.claims c found) (ground arith) delivery
                      (ground arith) (ground arith))))))

-- However `markDeliveryClaimCleaned` ends, the claims account for the deliveries as before.
pub mark_delivery_claim_cleaned-IsClaimed :
    (i : RowId) (s : Db) → IsClaimed s → IsClaimed (mark_delivery_claim_cleaned i s).1
unfolding mark_delivery_claim_cleaned update_claims
mark_delivery_claim_cleaned-IsClaimed i s h =
    elim (Bool-cases (affected (is_applied_claim i) s.claims == 1)) [
      | inl z ↦ rw z done
      | inr z ↦ rw z done
    ]
  where
    f : DeliveryClaim → DeliveryClaim
    f c = record c { cleaned = true }

    done : IsClaimed (record s { claims = update (is_applied_claim i) f s.claims })
    done = record {
      deliveries = h.deliveries;
      claims =
          IsKeyed-update (λ (c : DeliveryClaim). c.id) s.next_claim (is_applied_claim i) f s.claims
            (λ x. refl) h.claims;
      within = h.within;
      reserves = λ j. omega (
        arith,
        h.reserves j,
        sum_of-update_same (is_applied_claim i) f (pending_at j) s.claims (λ x e. refl),
      );
      hands_out = λ j. omega (
        arith,
        h.hands_out j,
        sum_of-update_same (is_applied_claim i) f (applied_at j) s.claims (λ x e. refl),
      );
    }
