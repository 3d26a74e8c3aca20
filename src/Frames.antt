-- ===== src/Frames.antt =====
-- The items for sale in item frames (exchange_frame_listings and the bindings of frames to them): the
-- functions named …FrameListing… of src/exchange_service.cpp.
pub mod Purchase
pub mod Lifecycle
use endstone_exchange.Common.{
  true, ℕ, suc, String, Bool, not, ◌&&◌, ◌||◌, Option, none, some, List, [], ◌∷◌, ◌==◌,
  if◌then◌else◌, is_empty, str_eq,
}
use endstone_exchange.Common.Int.{ℤ, pos, pos_part, leb_ℤ, eqb_ℤ}
use endstone_exchange.Money.{Cents}
use endstone_exchange.Table.{select, first, update, delete, affected}
use endstone_exchange.Tx.{
  ok, err, Tx, Error, Outcome, transaction, and_then, ◌>>=◌, ◌>>◌, pure, throw_if, or_throw, gets,
  modify,
}
use endstone_exchange.Bank.{Uuid, credit, debit, locked_balance, is_account}
use endstone_exchange.Domain.{
  RowId, ItemPrototype, FrameListingStatus, listing_is_active, listing_is_paid, listing_is_dropped,
  listing_is_claimed, listing_is_canceled,
}
use endstone_exchange.Store.{Db, FrameListing, FrameBinding, on_bank}
use endstone_exchange.Reads.{sort_on}
use endstone_exchange.Matching.{Service, ensure_account}

-- The argument of `upsertFrameListing`, as far as the function reads it
pub record FrameOffer : Type 0 where
  pub target_key : String
  pub dimension_name : String
  pub block_x : ℤ
  pub block_y : ℤ
  pub block_z : ℤ
  pub seller_uuid : Uuid
  pub seller_name : String
  pub price_cents : ℤ
  pub item : ItemPrototype

abbrev pub has_listing : RowId → FrameListing → Bool
has_listing i l = l.id == i

abbrev pub binds_listing : RowId → FrameBinding → Bool
binds_listing i b = b.listing_id == i

abbrev pub binds_target : String → FrameBinding → Bool
binds_target key b = str_eq b.target_key key

unfoldable pub find_listing : RowId → Db → Option FrameListing
unfolding first
find_listing i s = first (has_listing i) s.listings

-- The JOIN of bindings with listings
unfoldable pub bound_rows : List FrameListing → List FrameBinding → List FrameListing
unfolding first
bound_rows listings [] = []
bound_rows listings (b ∷ bs) =
    let rest = bound_rows listings bs in
    elim (first (has_listing b.listing_id) listings) [ some l ↦ l ∷ rest | none ↦ rest ]

-- `findBoundFrameListing`
unfoldable pub find_bound_listing : String → Db → Option FrameListing
unfolding bound_rows select
find_bound_listing key s =
    elim (bound_rows s.listings (select (binds_target key) s.frame_bindings)) [
      | l ∷ ls ↦ some l
      | [] ↦ none
    ]

-- `boundFrameListings`
unfoldable pub bound_listings : Db → List FrameListing
unfolding bound_rows sort_on
bound_listings s = sort_on (λ l. l.id) (bound_rows s.listings s.frame_bindings)

-- `unsettledFrameListings`
unfoldable pub unsettled_listings : Db → List FrameListing
unfolding select sort_on
unsettled_listings s =
    sort_on (λ l. l.id)
      (select (λ l. listing_is_paid l.status || listing_is_dropped l.status) s.listings)

abbrev pub with_status : FrameListingStatus → FrameListing → FrameListing
with_status t l = record l { status = t }

unfoldable pub update_listing : RowId → (FrameListing → FrameListing) → Db → Db
unfolding update
update_listing i f s = record s { listings = update (has_listing i) f s.listings }

-- DELETE FROM exchange_frame_listing_bindings WHERE listing_id=i
unfoldable pub unbind_listing : RowId → Db → Db
unfolding delete
unbind_listing i s = record s { frame_bindings = delete (binds_listing i) s.frame_bindings }

abbrev pub new_listing : FrameOffer → RowId → FrameListing
new_listing q i = record {
  id = i;
  target_key = q.target_key;
  dimension_name = q.dimension_name;
  block_x = q.block_x;
  block_y = q.block_y;
  block_z = q.block_z;
  seller_uuid = q.seller_uuid;
  seller_name = q.seller_name;
  price_cents = pos_part q.price_cents;
  item = q.item;
  status = FrameListingStatus.active;
  buyer_uuid = none;
  buyer_name = none;
}

-- The listing that a frame has makes room for the new one.
unfoldable pub replace_listing : FrameOffer → Bool → Option FrameListing → Tx Db (Unit {0})
unfolding update_listing unbind_listing
replace_listing q administrator none = pure tt
replace_listing q administrator (some l) = do
  throw_if (not (listing_is_active l.status)) Error.listing_settling
  throw_if (not administrator && not (str_eq l.seller_uuid q.seller_uuid))
      Error.listing_of_another_seller
  modify (update_listing l.id (with_status FrameListingStatus.canceled))
  modify (unbind_listing l.id)

unfoldable pub insert_listing : FrameOffer → Db → Db
insert_listing q s = record s {
  listings = new_listing q s.next_listing ∷ s.listings;
  frame_bindings =
      record { target_key = q.target_key; listing_id = s.next_listing } ∷ s.frame_bindings;
  next_listing = suc s.next_listing;
}

unfoldable pub upsert_body : FrameOffer → Bool → Tx Db FrameListing
unfolding find_bound_listing replace_listing insert_listing
upsert_body q administrator = do
  existing ← gets (find_bound_listing q.target_key)
  replace_listing q administrator existing
  id ← gets λ s. s.next_listing
  modify (insert_listing q)
  pure (new_listing q id)

abbrev pub offer_incomplete : FrameOffer → Bool
offer_incomplete q =
    is_empty q.target_key
    || is_empty q.dimension_name
    || is_empty q.seller_uuid
    || is_empty q.seller_name
    || leb_ℤ q.price_cents (pos 0)
    || is_empty q.item.type

unfoldable pub upsert_frame_listing : Service → FrameOffer → Bool → Db → Outcome Db FrameListing
unfolding upsert_body ensure_account
upsert_frame_listing c q administrator s =
    if offer_incomplete q
    then (err Error.listing_incomplete, s)
    else and_then (ensure_account c q.seller_uuid q.seller_name)
        (λ _. transaction (upsert_body q administrator)) s

unfoldable pub cancel_listing_body : RowId → Uuid → Bool → Tx Db (Unit {0})
unfolding find_listing update_listing unbind_listing
cancel_listing_body i requester administrator = do
  l ← or_throw (← gets (find_listing i)) Error.listing_missing
  if listing_is_canceled l.status then pure tt else (do
    throw_if (not (listing_is_active l.status)) Error.listing_paid
    throw_if (not administrator && not (str_eq l.seller_uuid requester))
        Error.listing_of_another_seller
    modify (update_listing i (with_status FrameListingStatus.canceled))
    modify (unbind_listing i))

unfoldable pub cancel_frame_listing : RowId → Uuid → Bool → Db → Outcome Db (Unit {0})
unfolding cancel_listing_body
cancel_frame_listing i requester administrator =
    transaction (cancel_listing_body i requester administrator)

-- `FramePurchaseResult`
pub record FramePurchase : Type 0 where
  pub listing : FrameListing
  pub buyer_balance : Cents
  pub seller_balance : Cents

abbrev pub paid_by : Uuid → String → FrameListing → FrameListing
paid_by p name l = record l {
  status = FrameListingStatus.paid;
  buyer_uuid = some p;
  buyer_name = some name;
}

abbrev pub bound_to_other : FrameListing → Option FrameBinding → Bool
bound_to_other l none = true
bound_to_other l (some b) = not (str_eq b.target_key l.target_key)

-- The guards of a purchase, up to the locks on the two accounts
unfoldable pub check_purchase : FrameListing → Uuid → ℤ → Tx Db (Unit {0})
unfolding first affected
check_purchase l buyer expected = do
  throw_if (not (listing_is_active l.status)) Error.listing_unavailable
  throw_if (not (eqb_ℤ (pos l.price_cents) expected)) Error.listing_price_changed
  throw_if (str_eq l.seller_uuid buyer) Error.listing_own_purchase
  binding ← gets λ s. first (binds_listing l.id) s.frame_bindings
  throw_if (bound_to_other l binding) Error.listing_unbound
  accounts ←
      gets λ s. affected (λ a. is_account buyer a || is_account l.seller_uuid a) s.bank.accounts
  throw_if (not (accounts == 2)) Error.purchase_account_missing

-- The payment, and the row of the listing
unfoldable pub pay_listing : FrameListing → Uuid → String → Tx Db (Unit {0})
unfolding update_listing
pay_listing l buyer name = do
  on_bank (debit buyer l.price_cents "FRAME_PURCHASE" "FRAME_LISTING" (some l.id))
  on_bank (credit l.seller_uuid l.price_cents "FRAME_SALE" "FRAME_LISTING" (some l.id))
  modify (update_listing l.id (paid_by buyer name))

unfoldable pub purchase_body : RowId → Uuid → String → ℤ → Tx Db FramePurchase
unfolding find_listing check_purchase pay_listing
purchase_body i buyer name expected = do
  l ← or_throw (← gets (find_listing i)) Error.listing_missing
  check_purchase l buyer expected
  pay_listing l buyer name
  buyer_balance ← on_bank (locked_balance buyer)
  seller_balance ← on_bank (locked_balance l.seller_uuid)
  pure record {
    listing = paid_by buyer name l;
    buyer_balance = buyer_balance;
    seller_balance = seller_balance;
  }

unfoldable pub purchase_frame_listing :
    Service → RowId → Uuid → String → ℤ → Db → Outcome Db FramePurchase
unfolding purchase_body ensure_account
purchase_frame_listing c i buyer name expected s =
    if is_empty buyer || is_empty name || leb_ℤ expected (pos 0)
    then (err Error.purchase_incomplete, s)
    else and_then (ensure_account c buyer name)
        (λ _. transaction (purchase_body i buyer name expected)) s

unfoldable pub drop_body : RowId → Tx Db (Unit {0})
unfolding find_listing update_listing
drop_body i = do
  l ← or_throw (← gets (find_listing i)) Error.listing_missing
  if listing_is_dropped l.status || listing_is_claimed l.status then pure tt else (do
    throw_if (not (listing_is_paid l.status)) Error.listing_unpaid
    modify (update_listing i (with_status FrameListingStatus.dropped)))

-- `markFrameListingDropped`
unfoldable pub mark_listing_dropped : RowId → Db → Outcome Db (Unit {0})
unfolding drop_body
mark_listing_dropped i = transaction (drop_body i)

unfoldable pub pickup_body : RowId → Tx Db (Unit {0})
unfolding find_listing update_listing unbind_listing
pickup_body i = do
  l ← or_throw (← gets (find_listing i)) Error.listing_missing
  if listing_is_claimed l.status then pure tt else (do
    throw_if (not (listing_is_paid l.status) && not (listing_is_dropped l.status))
        Error.listing_not_awaiting_pickup
    modify (update_listing i (with_status FrameListingStatus.claimed))
    modify (unbind_listing i))

-- `completeFrameListingPickup`
unfoldable pub complete_listing_pickup : RowId → Db → Outcome Db (Unit {0})
unfolding pickup_body
complete_listing_pickup i = transaction (pickup_body i)
