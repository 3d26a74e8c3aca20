-- ===== src/Domain.antt =====
-- The enumerations and value types of include/endstone_exchange/domain.hpp that the service computes with.
use endstone_exchange.Common.{ℕ, String, Bool, true, false, List}
use endstone_exchange.Common.Int.{ℤ}
use endstone_exchange.Money.{Cents}
use endstone_exchange.Bank.{Uuid}

-- `Id`
abbrev pub RowId : Type 0
RowId = ℕ

pub data TargetKind : Type 0 where
  block actor : TargetKind

pub data Side : Type 0 where
  buy sell : Side

pub data OrderType : Type 0 where
  limit market : OrderType

-- The `status` column of exchange_orders
pub data OrderStatus : Type 0 where
  open_status partial filled canceled : OrderStatus

abbrev pub is_buy : Side → Bool
is_buy Side.buy = true
is_buy Side.sell = false

abbrev pub is_sell : Side → Bool
is_sell Side.buy = false
is_sell Side.sell = true

abbrev pub is_limit : OrderType → Bool
is_limit OrderType.limit = true
is_limit OrderType.market = false

-- status IN ('OPEN','PARTIAL')
abbrev pub is_open : OrderStatus → Bool
is_open OrderStatus.open_status = true
is_open OrderStatus.partial = true
is_open OrderStatus.filled = false
is_open OrderStatus.canceled = false

pub record ItemPrototype : Type 0 where
  pub type : String
  pub item_data : ℤ
  pub nbt : List ℕ
  pub name : String

-- A request as it comes in, its numbers unchecked.
pub record OrderRequest : Type 0 where
  pub market_id : RowId
  pub player_uuid : Uuid
  pub player_name : String
  pub side : Side
  pub order_type : OrderType
  pub price_cents : ℤ
  pub quantity : ℤ

pub record ExecutionResult : Type 0 where
  pub order_id : RowId
  pub requested_quantity : ℕ
  pub filled_quantity : ℕ
  pub open_quantity : ℕ
  pub gross_cents : Cents
  pub balance_cents : Cents

pub data DeliveryClaimStatus : Type 0 where
  prepared applied canceled : DeliveryClaimStatus

pub data SellEscrowStatus : Type 0 where
  prepared tagged ordered canceled : SellEscrowStatus

pub data TransferDirection : Type 0 where
  deposit withdraw : TransferDirection

pub data TransferStatus : Type 0 where
  prepared external_applied completed failed blocked : TransferStatus

pub data FrameListingStatus : Type 0 where
  active paid dropped claimed canceled : FrameListingStatus

abbrev pub is_deposit : TransferDirection → Bool
is_deposit TransferDirection.deposit = true
is_deposit TransferDirection.withdraw = false

abbrev pub is_withdraw : TransferDirection → Bool
is_withdraw TransferDirection.deposit = false
is_withdraw TransferDirection.withdraw = true

-- The tests status == '...' on the columns of the other tables
abbrev pub claim_is_prepared : DeliveryClaimStatus → Bool
claim_is_prepared DeliveryClaimStatus.prepared = true
claim_is_prepared DeliveryClaimStatus.applied = false
claim_is_prepared DeliveryClaimStatus.canceled = false

abbrev pub claim_is_applied : DeliveryClaimStatus → Bool
claim_is_applied DeliveryClaimStatus.prepared = false
claim_is_applied DeliveryClaimStatus.applied = true
claim_is_applied DeliveryClaimStatus.canceled = false

abbrev pub claim_is_canceled : DeliveryClaimStatus → Bool
claim_is_canceled DeliveryClaimStatus.prepared = false
claim_is_canceled DeliveryClaimStatus.applied = false
claim_is_canceled DeliveryClaimStatus.canceled = true

abbrev pub escrow_is_prepared : SellEscrowStatus → Bool
escrow_is_prepared SellEscrowStatus.prepared = true
escrow_is_prepared SellEscrowStatus.tagged = false
escrow_is_prepared SellEscrowStatus.ordered = false
escrow_is_prepared SellEscrowStatus.canceled = false

abbrev pub escrow_is_tagged : SellEscrowStatus → Bool
escrow_is_tagged SellEscrowStatus.prepared = false
escrow_is_tagged SellEscrowStatus.tagged = true
escrow_is_tagged SellEscrowStatus.ordered = false
escrow_is_tagged SellEscrowStatus.canceled = false

abbrev pub escrow_is_ordered : SellEscrowStatus → Bool
escrow_is_ordered SellEscrowStatus.prepared = false
escrow_is_ordered SellEscrowStatus.tagged = false
escrow_is_ordered SellEscrowStatus.ordered = true
escrow_is_ordered SellEscrowStatus.canceled = false

abbrev pub escrow_is_canceled : SellEscrowStatus → Bool
escrow_is_canceled SellEscrowStatus.prepared = false
escrow_is_canceled SellEscrowStatus.tagged = false
escrow_is_canceled SellEscrowStatus.ordered = false
escrow_is_canceled SellEscrowStatus.canceled = true

abbrev pub transfer_is_prepared : TransferStatus → Bool
transfer_is_prepared TransferStatus.prepared = true
transfer_is_prepared TransferStatus.external_applied = false
transfer_is_prepared TransferStatus.completed = false
transfer_is_prepared TransferStatus.failed = false
transfer_is_prepared TransferStatus.blocked = false

abbrev pub transfer_is_external_applied : TransferStatus → Bool
transfer_is_external_applied TransferStatus.prepared = false
transfer_is_external_applied TransferStatus.external_applied = true
transfer_is_external_applied TransferStatus.completed = false
transfer_is_external_applied TransferStatus.failed = false
transfer_is_external_applied TransferStatus.blocked = false

abbrev pub transfer_is_completed : TransferStatus → Bool
transfer_is_completed TransferStatus.prepared = false
transfer_is_completed TransferStatus.external_applied = false
transfer_is_completed TransferStatus.completed = true
transfer_is_completed TransferStatus.failed = false
transfer_is_completed TransferStatus.blocked = false

abbrev pub transfer_is_failed : TransferStatus → Bool
transfer_is_failed TransferStatus.prepared = false
transfer_is_failed TransferStatus.external_applied = false
transfer_is_failed TransferStatus.completed = false
transfer_is_failed TransferStatus.failed = true
transfer_is_failed TransferStatus.blocked = false

abbrev pub transfer_is_blocked : TransferStatus → Bool
transfer_is_blocked TransferStatus.prepared = false
transfer_is_blocked TransferStatus.external_applied = false
transfer_is_blocked TransferStatus.completed = false
transfer_is_blocked TransferStatus.failed = false
transfer_is_blocked TransferStatus.blocked = true

abbrev pub listing_is_active : FrameListingStatus → Bool
listing_is_active FrameListingStatus.active = true
listing_is_active FrameListingStatus.paid = false
listing_is_active FrameListingStatus.dropped = false
listing_is_active FrameListingStatus.claimed = false
listing_is_active FrameListingStatus.canceled = false

abbrev pub listing_is_paid : FrameListingStatus → Bool
listing_is_paid FrameListingStatus.active = false
listing_is_paid FrameListingStatus.paid = true
listing_is_paid FrameListingStatus.dropped = false
listing_is_paid FrameListingStatus.claimed = false
listing_is_paid FrameListingStatus.canceled = false

abbrev pub listing_is_dropped : FrameListingStatus → Bool
listing_is_dropped FrameListingStatus.active = false
listing_is_dropped FrameListingStatus.paid = false
listing_is_dropped FrameListingStatus.dropped = true
listing_is_dropped FrameListingStatus.claimed = false
listing_is_dropped FrameListingStatus.canceled = false

abbrev pub listing_is_claimed : FrameListingStatus → Bool
listing_is_claimed FrameListingStatus.active = false
listing_is_claimed FrameListingStatus.paid = false
listing_is_claimed FrameListingStatus.dropped = false
listing_is_claimed FrameListingStatus.claimed = true
listing_is_claimed FrameListingStatus.canceled = false

abbrev pub listing_is_canceled : FrameListingStatus → Bool
listing_is_canceled FrameListingStatus.active = false
listing_is_canceled FrameListingStatus.paid = false
listing_is_canceled FrameListingStatus.dropped = false
listing_is_canceled FrameListingStatus.claimed = false
listing_is_canceled FrameListingStatus.canceled = true
