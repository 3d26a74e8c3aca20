-- ===== src/Examples/World.antt =====
-- A book with one market, two accounts, and the orders of one player.
use endstone_exchange.Bank.Ledger.{IsReconciled}
use endstone_exchange.Table.Keys.{IsKeyed}
use endstone_exchange.Escrows.Executed.{IsEscrow}
use endstone_exchange.Transfers.Backing.{IsBacked}
use endstone_exchange.Matching.PlaceOrder.{place_order-IsServed}
use endstone_exchange.Bank.{Bank}
use endstone_exchange.Deliveries.Claimed.{IsClaimed}
use endstone_exchange.Matching.Invariant.{IsConsistent}
use endstone_exchange.Matching.{place_order, Service}
use endstone_exchange.Table.{affected, sum_of}
use endstone_exchange.Store.{Transfer, FrameListing, SellEscrow, Db, Market}
use endstone_exchange.Domain.{
  TransferDirection, FrameListingStatus, SellEscrowStatus, TransferStatus, DeliveryClaimStatus,
  OrderType, TargetKind, Side, ItemPrototype, OrderRequest,
}
use endstone_exchange.Common.{
  inr, inl, str_eq, Bool-cases, All, refl, true, false, ◌≡◌, [], ◌∷◌, none, some, arith,
}
use endstone_exchange.Common.Int.{◌+ℤ◌, pos}

abbrev pub apple : ItemPrototype
apple = record { type = "minecraft:apple"; item_data = pos 0; nbt = []; name = "Apple" }

abbrev pub service : Service
service = record { initial_balance_cents = 1000; max_order_quantity = 64 }

abbrev pub market_row : Market
market_row = record {
  id = 1;
  book_id = 1;
  target_key = "block:1";
  target_kind = TargetKind.block;
  dimension_name = "overworld";
  block_x = some (pos 1);
  block_y = some (pos 2);
  block_z = some (pos 3);
  actor_id = none;
  item = apple;
  active = true;
  reopenable = false;
  created_by = "admin";
}

abbrev pub start_db : Db
start_db = record {
  bank = record { accounts = []; ledger = [] };
  books = record { id = 1; item = apple } ∷ [];
  markets = market_row ∷ [];
  bindings = record { target_key = "block:1"; market_id = 1 } ∷ [];
  orders = [];
  trades = [];
  deliveries = [];
  claims = [];
  escrows = [];
  transfers = [];
  listings = [];
  frame_bindings = [];
  next_book = 2;
  next_market = 2;
  next_order = 1;
  next_trade = 1;
  next_delivery = 1;
  next_claim = 1;
  next_escrow = 1;
  next_transfer = 1;
  next_listing = 1;
}

pub start-IsConsistent : IsConsistent start_db
unfolding sum_of affected
start-IsConsistent = record {
  reconciled = record { unique = λ q. omega arith; matches = λ q. refl };
  ids = tt;
  orders = tt;
  trades = tt;
}

-- alice sells, bob buys.
abbrev pub alice_sells : OrderRequest
alice_sells = record {
  market_id = 1;
  player_uuid = "alice";
  player_name = "Alice";
  side = Side.sell;
  order_type = OrderType.limit;
  price_cents = pos 30;
  quantity = pos 5;
}

abbrev pub bob_buys : OrderRequest
bob_buys = record {
  market_id = 1;
  player_uuid = "bob";
  player_name = "Bob";
  side = Side.buy;
  order_type = OrderType.limit;
  price_cents = pos 40;
  quantity = pos 8;
}

unfoldable pub with_ask : Db
unfolding place_order
with_ask = (place_order service alice_sells start_db).1

unfoldable pub with_bid : Db
unfolding place_order with_ask
with_bid = (place_order service bob_buys with_ask).1

pub with_ask-IsConsistent : IsConsistent with_ask
unfolding with_ask
with_ask-IsConsistent =
    (place_order-IsServed service alice_sells start_db start-IsConsistent).consistent

pub with_bid-IsConsistent : IsConsistent with_bid
unfolding with_bid
with_bid-IsConsistent =
    (place_order-IsServed service bob_buys with_ask with_ask-IsConsistent).consistent

-- A player with an account and nothing else
abbrev pub funded_bank : Bank
funded_bank = record {
  accounts = record { player_uuid = "alice"; player_name = "Alice"; balance_cents = 1000 } ∷ [];
  ledger =
      record {
        player_uuid = "alice";
        delta_cents = pos 1000;
        reason = "ACCOUNT_OPENED";
        reference_type = none;
        reference_id = none;
      }
      ∷ [];
}

pub funded-IsReconciled : IsReconciled funded_bank
unfolding affected sum_of ◌+ℤ◌
funded-IsReconciled = record {
  unique = λ q. ground arith;
  matches = λ q. elim (Bool-cases (str_eq "alice" q)) [ inl e ↦ rw e refl | inr e ↦ rw e refl ];
}

abbrev pub deposit_row : TransferStatus → Transfer
deposit_row status = record {
  id = 1;
  player_uuid = "alice";
  player_name = "Alice";
  direction = TransferDirection.deposit;
  amount_cents = 500;
  amount_units = 5;
  status = status;
  external_balance_before_units = some (pos 20);
  external_balance_units = none;
  attempt_count = 0;
  last_error = none;
}

abbrev pub with_deposit : TransferStatus → Db
with_deposit status = record start_db {
  bank = funded_bank;
  transfers = deposit_row status ∷ [];
  next_transfer = 2;
}

one_transfer : (t : Transfer) → t.id ≡ 1 → IsKeyed (λ (x : Transfer). x.id) 2 (t ∷ [])
unfolding affected
one_transfer t e = record { unique = λ i. ground arith; fresh = λ i h. ground (arith, e) }

pub prepared_deposit-IsBacked : IsBacked 1000 (with_deposit TransferStatus.prepared)
unfolding sum_of
prepared_deposit-IsBacked = record {
  consistent = record { reconciled = funded-IsReconciled; ids = tt; orders = tt; trades = tt };
  keyed = one_transfer (deposit_row TransferStatus.prepared) refl;
  backed = refl;
}

pub applied_deposit-IsBacked : IsBacked 1000 (with_deposit TransferStatus.external_applied)
unfolding sum_of
applied_deposit-IsBacked = record {
  consistent = record { reconciled = funded-IsReconciled; ids = tt; orders = tt; trades = tt };
  keyed = one_transfer (deposit_row TransferStatus.external_applied) refl;
  backed = refl;
}

-- A delivery of five items to alice, and a claim on two of them
abbrev pub with_claim : Db
with_claim = record start_db {
  deliveries =
      record {
        id = 1;
        player_uuid = "alice";
        market_id = 1;
        quantity = 5;
        claimed_qty = 0;
        reserved_qty = 2;
        reason = "TRADE_BUY";
      }
      ∷ [];
  claims =
      record {
        id = 1;
        delivery_id = 1;
        player_uuid = "alice";
        quantity = 2;
        applied_qty = 0;
        status = DeliveryClaimStatus.prepared;
        cleaned = false;
      }
      ∷ [];
  next_delivery = 2;
  next_claim = 2;
}

pub with_claim-IsClaimed : IsClaimed with_claim
unfolding affected sum_of
with_claim-IsClaimed = record {
  deliveries = record { unique = λ i. ground arith; fresh = λ i h. ground arith };
  claims = record { unique = λ i. ground arith; fresh = λ i h. ground arith };
  within = (omega arith, tt);
  reserves = λ i. ground arith;
  hands_out = λ i. ground arith;
}

-- alice's tagged items, and a listing of hers in a frame
abbrev tagged_escrow : SellEscrow
tagged_escrow = record {
  id = 1;
  market_id = 1;
  player_uuid = "alice";
  player_name = "Alice";
  order_type = OrderType.limit;
  price_cents = 35;
  requested_qty = 2;
  tagged_qty = 3;
  receipt_count = 1;
  status = SellEscrowStatus.tagged;
  order_id = none;
  cleaned = false;
}

abbrev pub framed_apple : FrameListing
framed_apple = record {
  id = 1;
  target_key = "frame:1";
  dimension_name = "overworld";
  block_x = pos 1;
  block_y = pos 2;
  block_z = pos 4;
  seller_uuid = "alice";
  seller_name = "Alice";
  price_cents = 25;
  item = apple;
  status = FrameListingStatus.active;
  buyer_uuid = none;
  buyer_name = none;
}

abbrev pub shop : Db
shop = record with_bid {
  escrows = tagged_escrow ∷ [];
  listings = framed_apple ∷ [];
  frame_bindings = record { target_key = "frame:1"; listing_id = 1 } ∷ [];
  next_escrow = 2;
  next_listing = 2;
}

pub shop-IsConsistent : IsConsistent shop
shop-IsConsistent = record {
  reconciled = with_bid-IsConsistent.reconciled;
  ids = with_bid-IsConsistent.ids;
  orders = with_bid-IsConsistent.orders;
  trades = with_bid-IsConsistent.trades;
}

pub shop-IsEscrow : All IsEscrow shop.escrows
shop-IsEscrow = (record { some_items = omega arith; enough = λ e. omega arith }, tt)
