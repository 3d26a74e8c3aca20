-- ===== src/Frames/Lifecycle.antt =====
-- The life of a listing (exchange_frame_listings.status of src/exchange_service.cpp): what an operation may
-- do to a listing that is there.
use endstone_exchange.Bank.{Uuid}
use endstone_exchange.Table.{first-holds, first-update_map, first, update}
use endstone_exchange.Store.{FrameListing, Db}
use endstone_exchange.Frames.{
  with_status, unbind_listing, update_listing, complete_listing_pickup, mark_listing_dropped,
  cancel_frame_listing, has_listing, find_listing,
}
use endstone_exchange.Domain.{
  listing_is_claimed, listing_is_canceled, listing_is_dropped, listing_is_active, listing_is_paid,
  RowId, FrameListingStatus,
}
use mathlib.Core.Option.{some-injective}
use endstone_exchange.Common.{
  subst, inr, inl, ◌==◌, Bool-cases, refl, true, false, ◌≡◌, arith, sym, ap, ◌∙◌, Bool, some,
  if◌then◌else◌, not, ◌&&◌, ◌||◌,
}
use endstone_exchange.Tx.{
  Ensures-modify_last, Ensures-modify, Ensures-guard, Ensures-pure, pure, Ensures-if,
  Ensures-or_throw, Ensures-gets, transaction-keeps,
}

-- A listing is sold or canceled while it is active; what is sold is dropped, picked up, or both; a
-- canceled or claimed listing stays so.
pub data Follows : FrameListingStatus → FrameListingStatus → Type 0 where
  stays : (t : FrameListingStatus) → Follows t t
  sells : Follows FrameListingStatus.active FrameListingStatus.paid
  cancels : Follows FrameListingStatus.active FrameListingStatus.canceled
  drops : Follows FrameListingStatus.paid FrameListingStatus.dropped
  claims : Follows FrameListingStatus.paid FrameListingStatus.claimed
  picks : Follows FrameListingStatus.dropped FrameListingStatus.claimed

-- The offer of a listing stays, and its status follows.
pub record IsHeir (l l' : FrameListing) : Type 0 where
  pub seller : l'.seller_uuid ≡ l.seller_uuid
  pub price : l'.price_cents ≡ l.price_cents
  pub same_item : l'.item ≡ l.item
  pub status : Follows l.status l'.status

-- Every listing is still there, with its seller, price and item, and its status has followed.
pub IsFollowed : Db → Db → Type 0
IsFollowed s s' =
    (i : RowId) (l : FrameListing)
    → find_listing i s ≡ some l
    → (l' : FrameListing) × (find_listing i s' ≡ some l') × IsHeir l l'

IsHeir-refl : (l : FrameListing) → IsHeir l l
IsHeir-refl l = record {
  seller = refl;
  price = refl;
  same_item = refl;
  status = Follows.stays l.status;
}

IsFollowed-refl : (s : Db) → IsFollowed s s
unfolding IsFollowed
IsFollowed-refl s i l e = (l, e, IsHeir-refl l)

-- The row `j` changes as it may; other tables may change too.
row-IsFollowed :
    (s s' : Db) (j : RowId) (f : FrameListing → FrameListing) (l : FrameListing)
    → find_listing j s ≡ some l
    → s'.listings ≡ update (has_listing j) f s.listings
    → ((x : FrameListing) → (f x).id ≡ x.id)
    → IsHeir l (f l)
    → IsFollowed s s'
unfolding IsFollowed find_listing
row-IsFollowed s s' j f l found rows keeps heir i k e = elim (Bool-cases (k.id == j)) [
  | inl z ↦ (f k, rw z at found_after, subst (λ x. IsHeir x (f x)) (sym (same z)) heir)
  | inr z ↦ (k, rw z at found_after, IsHeir-refl k)
]
  where
    moved :
        first (has_listing i) (update (has_listing j) f s.listings)
        ≡ some (if k.id == j then f k else k)
    moved =
        first-update_map (has_listing i) (has_listing j) f s.listings k (λ x. rw (keeps x) refl) e

    found_after : first (has_listing i) s'.listings ≡ some (if k.id == j then f k else k)
    found_after = ap (first (has_listing i)) rows ∙ moved

    same_id : (k.id == j) ≡ true → i ≡ j
    same_id z = ground (arith, first-holds (has_listing i) s.listings k e)

    same : (k.id == j) ≡ true → k ≡ l
    same z =
        some-injective k l (sym e ∙ ap (λ x. first (has_listing x) s.listings) (same_id z) ∙ found)

status_active :
    (t : FrameListingStatus) → listing_is_active t ≡ true → t ≡ FrameListingStatus.active
status_active FrameListingStatus.active h = refl
status_active FrameListingStatus.paid h = cc
status_active FrameListingStatus.dropped h = cc
status_active FrameListingStatus.claimed h = cc
status_active FrameListingStatus.canceled h = cc

-- What the guards of the four operations leave
canceling :
    (t : FrameListingStatus)
    → not (listing_is_active t) ≡ false
    → Follows t FrameListingStatus.canceled
canceling t h =
    subst (λ x. Follows x FrameListingStatus.canceled) (sym (status_active t (ground arith)))
      Follows.cancels

selling :
    (t : FrameListingStatus) → not (listing_is_active t) ≡ false → Follows t FrameListingStatus.paid
selling t h =
    subst (λ x. Follows x FrameListingStatus.paid) (sym (status_active t (ground arith)))
      Follows.sells

dropping :
    (t : FrameListingStatus)
    → not (listing_is_paid t) ≡ false
    → Follows t FrameListingStatus.dropped
dropping FrameListingStatus.active h = cc
dropping FrameListingStatus.paid h = Follows.drops
dropping FrameListingStatus.dropped h = cc
dropping FrameListingStatus.claimed h = cc
dropping FrameListingStatus.canceled h = cc

picking :
    (t : FrameListingStatus)
    → (not (listing_is_paid t) && not (listing_is_dropped t)) ≡ false
    → Follows t FrameListingStatus.claimed
picking FrameListingStatus.active h = cc
picking FrameListingStatus.paid h = Follows.claims
picking FrameListingStatus.dropped h = Follows.picks
picking FrameListingStatus.claimed h = cc
picking FrameListingStatus.canceled h = cc

-- However `cancelFrameListing` ends, every listing is still there with its seller, price and item, and its
-- status follows the one of before in the life of a listing.
pub cancel_frame_listing-IsFollowed :
    (i : RowId) (requester : Uuid) (administrator : Bool) (s : Db)
    → IsFollowed s (cancel_frame_listing i requester administrator s).1
unfolding cancel_frame_listing update_listing unbind_listing
cancel_frame_listing-IsFollowed i requester administrator s =
    transaction-keeps (IsFollowed s) _ s (IsFollowed-refl s) (
      Ensures-gets _ _ _ _ (
        Ensures-or_throw _ _ _ _ _ λ l found.
          Ensures-if _ (listing_is_canceled l.status) (pure tt) _ s
            (λ _. Ensures-pure _ _ _ (IsFollowed-refl s))
            (λ _. Ensures-guard _ _ _ _ _ λ active. Ensures-guard _ _ _ _ _ λ _.
              Ensures-modify _ _ _ _ (
                Ensures-modify_last _ _ _ (
                  row-IsFollowed s _ i (with_status FrameListingStatus.canceled) l found refl
                    (λ x. refl)
                    (record {
                      seller = refl;
                      price = refl;
                      same_item = refl;
                      status = canceling l.status active;
                    }))))))

-- However `markFrameListingDropped` ends, every listing is still there with its seller, price and item,
-- and its status follows the one of before in the life of a listing.
pub mark_listing_dropped-IsFollowed :
    (i : RowId) (s : Db) → IsFollowed s (mark_listing_dropped i s).1
unfolding mark_listing_dropped update_listing
mark_listing_dropped-IsFollowed i s = transaction-keeps (IsFollowed s) _ s (IsFollowed-refl s) (
    Ensures-gets _ _ _ _ (
      Ensures-or_throw _ _ _ _ _ λ l found.
        Ensures-if _ (listing_is_dropped l.status || listing_is_claimed l.status) (pure tt) _ s
          (λ _. Ensures-pure _ _ _ (IsFollowed-refl s))
          (λ _. Ensures-guard _ _ _ _ _ λ paid. Ensures-modify_last _ _ _ (
            row-IsFollowed s _ i (with_status FrameListingStatus.dropped) l found refl (λ x. refl)
              (record {
                seller = refl;
                price = refl;
                same_item = refl;
                status = dropping l.status paid;
              })))))

-- However `completeFrameListingPickup` ends, every listing is still there with its seller, price and item,
-- and its status follows the one of before in the life of a listing.
pub complete_listing_pickup-IsFollowed :
    (i : RowId) (s : Db) → IsFollowed s (complete_listing_pickup i s).1
unfolding complete_listing_pickup update_listing unbind_listing
complete_listing_pickup-IsFollowed i s = transaction-keeps (IsFollowed s) _ s (IsFollowed-refl s) (
    Ensures-gets _ _ _ _ (
      Ensures-or_throw _ _ _ _ _ λ l found.
        Ensures-if _ (listing_is_claimed l.status) (pure tt) _ s
          (λ _. Ensures-pure _ _ _ (IsFollowed-refl s))
          (λ _. Ensures-guard _ _ _ _ _ λ waiting. Ensures-modify _ _ _ _ (
            Ensures-modify_last _ _ _ (
              row-IsFollowed s _ i (with_status FrameListingStatus.claimed) l found refl (λ x. refl)
                (record {
                  seller = refl;
                  price = refl;
                  same_item = refl;
                  status = picking l.status waiting;
                }))))))
