-- ===== src/Examples/Witnesses.antt =====
-- The theorems at the worked examples.
use endstone_exchange.Gate.Spaced.{accept-spaced}
use endstone_exchange.Gate.{Gate, accept}
use endstone_exchange.Trading.History.{after_calls-IsGrown, IsGrown}
use endstone_exchange.Trading.{after_calls, Call}
use endstone_exchange.Umoney.Settled.{process_transfer-IsSettled, IsOnce, IsSettled}
use endstone_exchange.Transfers.Attempts.{record_attempt-IsNoted, IsNoted, IsUnprepared, IsAnswer}
use endstone_exchange.Orders.{select_bids, select_asks}
use endstone_exchange.Transfers.Once.{complete_transfer-once}
use endstone_exchange.Bank.{locked_balance, credit}
use endstone_exchange.Orders.Priority.{
  IsCheaper, IsDearer, IsAsk, IsBid, select_bids-IsQueue, select_asks-IsQueue, IsQueue,
}
use endstone_exchange.Frames.Lifecycle.{
  cancel_frame_listing-IsFollowed, mark_listing_dropped-IsFollowed,
  complete_listing_pickup-IsFollowed, IsFollowed,
}
use endstone_exchange.Store.{Transfer, on_bank, Db, Order}
use endstone_exchange.Transfers.Deficit.{backing_deficit-lem, underway_cell}
use endstone_exchange.Table.{update, affected, first, sum_of}
use endstone_exchange.Umoney.Once.{decide_mutation-once, moved}
use endstone_exchange.Domain.{OrderStatus, OrderType, Side, TransferStatus, TransferDirection}
use endstone_exchange.Matching.PlaceSell.{place_sell_locked-IsPlaced}
use endstone_exchange.Escrows.{execute_sell_escrow}
use endstone_exchange.Frames.{complete_listing_pickup, mark_listing_dropped, cancel_frame_listing}
use endstone_exchange.Cancel.{retire_market, cancel_order}
use endstone_exchange.Common.Int.{◌+ℤ◌, ℤ, pos, ◌-ℤ◌}
use endstone_exchange.Deliveries.{prepare_delivery_claim, complete_delivery_claim}
use endstone_exchange.Examples.World.{
  alice_sells, deposit_row, funded_bank, applied_deposit-IsBacked, prepared_deposit-IsBacked,
  shop-IsEscrow, with_claim-IsClaimed, start-IsConsistent, with_ask-IsConsistent, shop-IsConsistent,
  with_bid-IsConsistent, with_claim, bob_buys, start_db, with_ask, service, with_deposit, shop,
  with_bid,
}
use endstone_exchange.Transfers.{
  prepare_transfer, record_attempt, fail_transfer, complete_transfer, block_transfer,
  mark_external_applied, backing_deficit,
}
use endstone_exchange.Escrows.Executed.{execute_sell_escrow-IsExecuted, IsExecuted}
use endstone_exchange.Matching.PlaceOrder.{
  validate_request-IsRequest, place_order-IsServed, ensure_account-IsServed, IsServed, IsRequest,
}
use endstone_exchange.Transfers.Backing.{IsBacked}
use endstone_exchange.Transfers.Steps.{
  mark_external_applied-IsBacked, fail_transfer-IsBacked, block_transfer-IsBacked,
  complete_transfer-IsBacked,
}
use endstone_exchange.Matching.Placed.{place_buy-IsPlaced, IsPlaced}
use endstone_exchange.Deliveries.Claimed.{IsClaimed}
use endstone_exchange.Deliveries.Calls.{
  prepare_delivery_claim-IsClaimed, complete_delivery_claim-IsClaimed,
}
use endstone_exchange.Umoney.{Gateway, process_transfer, Decision, decide_mutation}
use endstone_exchange.Matching.{
  place_order, validate_request, ensure_account, place_sell_locked, place_buy, Request,
}
use endstone_exchange.Transfers.Prepare.{prepare_transfer-IsBacked, IsBackedSince}
use endstone_exchange.Cancel.Released.{retire_market-IsKept, cancel_order-IsKept, IsKept}
use endstone_exchange.Common.{
  Bool, ◌⊎◌, str_eq, String, ◌-◌, ltb, not, true, ◌≤◌, List, ℕ, [], some, ◌∷◌, refl, false, ◌≡◌,
  none, arith,
}
use endstone_exchange.Tx.{
  Outcome, throw_if, or_throw, pure, modify, gets, ◌>>=◌, transaction, ok, Ensures, Returns,
}

place_order-IsServed_example : IsServed service with_ask (place_order service bob_buys with_ask).1
place_order-IsServed_example = place_order-IsServed service bob_buys with_ask with_ask-IsConsistent

abbrev bob_request : Request
bob_request = record {
  market_id = 1;
  player_uuid = "bob";
  player_name = "Bob";
  side = Side.buy;
  order_type = OrderType.market;
  price_cents = 0;
  quantity = 2;
}

place_buy-IsPlaced_example :
    Ensures (IsPlaced bob_request 0 with_bid) (place_buy bob_request with_bid)
place_buy-IsPlaced_example =
    place_buy-IsPlaced bob_request with_bid (omega arith) with_bid-IsConsistent

abbrev alice_request : Request
alice_request = record {
  market_id = 1;
  player_uuid = "alice";
  player_name = "Alice";
  side = Side.sell;
  order_type = OrderType.limit;
  price_cents = 35;
  quantity = 2;
}

place_sell_locked-IsPlaced_example :
    Ensures (IsPlaced alice_request 2 with_bid) (place_sell_locked alice_request with_bid)
place_sell_locked-IsPlaced_example =
    place_sell_locked-IsPlaced alice_request with_bid (omega arith) with_bid-IsConsistent

cancel_order-IsKept_example : IsKept with_bid (cancel_order 2 "bob" false with_bid).1
cancel_order-IsKept_example = cancel_order-IsKept 2 "bob" false with_bid with_bid-IsConsistent

retire_market-IsKept_example : IsKept with_bid (retire_market 1 with_bid).1
retire_market-IsKept_example = retire_market-IsKept 1 with_bid with_bid-IsConsistent

execute_sell_escrow-IsExecuted_example : IsExecuted 1 shop (execute_sell_escrow 1 shop).1
execute_sell_escrow-IsExecuted_example =
    execute_sell_escrow-IsExecuted 1 shop shop-IsConsistent shop-IsEscrow

prepare_delivery_claim-IsClaimed_example :
    IsClaimed (prepare_delivery_claim 1 "alice" (pos 10) with_claim).1
prepare_delivery_claim-IsClaimed_example =
    prepare_delivery_claim-IsClaimed 1 "alice" (pos 10) with_claim with_claim-IsClaimed

complete_delivery_claim-IsClaimed_example :
    IsClaimed (complete_delivery_claim 1 (pos 1) with_claim).1
complete_delivery_claim-IsClaimed_example =
    complete_delivery_claim-IsClaimed 1 (pos 1) with_claim with_claim-IsClaimed

prepare_transfer-IsBacked_example :
    IsBackedSince service 1000
      (prepare_transfer service "alice" "Alice" TransferDirection.withdraw
        (pos 300)
        (pos 3)
        none
        (with_deposit TransferStatus.prepared)).1
prepare_transfer-IsBacked_example =
    prepare_transfer-IsBacked service "alice" "Alice" TransferDirection.withdraw (pos 300) (pos 3)
      none 1000 (with_deposit TransferStatus.prepared) prepared_deposit-IsBacked

mark_external_applied-IsBacked_example :
    IsBacked 1000 (mark_external_applied 1 (pos 15) (with_deposit TransferStatus.prepared)).1
mark_external_applied-IsBacked_example =
    mark_external_applied-IsBacked 1 (pos 15) 1000 (with_deposit TransferStatus.prepared)
      prepared_deposit-IsBacked

complete_transfer-IsBacked_example :
    IsBacked 1000 (complete_transfer 1 (with_deposit TransferStatus.external_applied)).1
complete_transfer-IsBacked_example =
    complete_transfer-IsBacked 1 1000 (with_deposit TransferStatus.external_applied)
      applied_deposit-IsBacked

fail_transfer-IsBacked_example :
    IsBacked 1000 (fail_transfer 1 "no" (with_deposit TransferStatus.prepared)).1
fail_transfer-IsBacked_example =
    fail_transfer-IsBacked 1 "no" 1000 (with_deposit TransferStatus.prepared)
      prepared_deposit-IsBacked

block_transfer-IsBacked_example :
    IsBacked 1000 (block_transfer 1 "no" (with_deposit TransferStatus.prepared)).1
block_transfer-IsBacked_example =
    block_transfer-IsBacked 1 "no" 1000 (with_deposit TransferStatus.prepared)
      prepared_deposit-IsBacked

record_attempt-IsNoted_example :
    ((t : Transfer) × IsNoted 1 "no"
        (with_deposit TransferStatus.prepared)
        (record_attempt 1 "no" (with_deposit TransferStatus.prepared))
        t)
    ⊎ (IsUnprepared 1 (with_deposit TransferStatus.prepared).transfers
        × ((record_attempt 1 "no" (with_deposit TransferStatus.prepared)).1
            ≡ with_deposit TransferStatus.prepared)
        × IsAnswer 1
            (with_deposit TransferStatus.prepared)
            (record_attempt 1 "no" (with_deposit TransferStatus.prepared)).0)
record_attempt-IsNoted_example =
    record_attempt-IsNoted 1 "no" (with_deposit TransferStatus.prepared)
      prepared_deposit-IsBacked.keyed

backing_deficit-lem_example :
    backing_deficit (with_deposit TransferStatus.external_applied)
    ≡ pos 1000
      -ℤ pos (sum_of underway_cell (with_deposit TransferStatus.external_applied).transfers)
backing_deficit-lem_example =
    backing_deficit-lem 1000 (with_deposit TransferStatus.external_applied) applied_deposit-IsBacked

decide_mutation-once_example :
    (pos 20 ≡ pos 20)
    × (decide_mutation TransferDirection.deposit
          (pos 5)
          (pos 20)
          (moved TransferDirection.deposit (pos 5) (pos 20))
        ≡ Decision.already_applied)
unfolding decide_mutation ◌-ℤ◌
decide_mutation-once_example =
    decide_mutation-once TransferDirection.deposit (pos 5) (pos 20) (pos 20) refl

validate_request-IsRequest_example :
    Returns (IsRequest service bob_buys) (validate_request service bob_buys)
validate_request-IsRequest_example = validate_request-IsRequest service bob_buys

ensure_account-IsServed_example :
    IsServed service start_db (ensure_account service "carol" "Carol" start_db).1
ensure_account-IsServed_example =
    ensure_account-IsServed service "carol" "Carol" start_db start-IsConsistent

-- A gateway that works: the balance of every player is one number.
abbrev honest_gateway : Gateway ℤ
honest_gateway = record {
  read = λ name w. ok (some w);
  change = λ name delta w. (ok tt, w +ℤ delta);
}

abbrev settled_run : Outcome (Db × ℤ) Bool
settled_run =
    process_transfer honest_gateway (λ e. "failed") (deposit_row TransferStatus.prepared) false
      (with_deposit TransferStatus.prepared, pos 20)

process_transfer-IsSettled_example :
    IsBacked 1000 settled_run.1.0
    × IsOnce honest_gateway
        (λ e. "failed")
        (deposit_row TransferStatus.prepared)
        (pos 20)
        settled_run.1.1
    × IsSettled honest_gateway
        (λ e. "failed")
        (deposit_row TransferStatus.prepared)
        settled_run.0
        settled_run.1.0
        settled_run.1.1
process_transfer-IsSettled_example =
    process_transfer-IsSettled honest_gateway (λ e. "failed") (deposit_row TransferStatus.prepared)
      1000 false (with_deposit TransferStatus.prepared) (pos 20) refl prepared_deposit-IsBacked

deposit_run : (complete_transfer 1 (with_deposit TransferStatus.external_applied)).0 ≡ ok 1500
unfolding complete_transfer credit locked_balance transaction on_bank ◌>>=◌ gets modify pure
    or_throw throw_if first affected update
deposit_run = refl

complete_transfer-once_example :
    complete_transfer 1 (complete_transfer 1 (with_deposit TransferStatus.external_applied)).1
    ≡ (ok 1500, (complete_transfer 1 (with_deposit TransferStatus.external_applied)).1)
complete_transfer-once_example =
    complete_transfer-once 1 1500 (with_deposit TransferStatus.external_applied) deposit_run

select_asks-IsQueue_example :
    IsQueue IsCheaper
      (IsAsk 1 with_ask.markets "bob" OrderType.limit 40)
      with_ask.orders
      (select_asks 1 "bob" OrderType.limit 40 with_ask)
select_asks-IsQueue_example =
    select_asks-IsQueue 1 "bob" OrderType.limit 40 with_ask.next_order with_ask
      with_ask-IsConsistent.ids

select_bids-IsQueue_example :
    IsQueue IsDearer
      (IsBid 1 with_bid.markets "alice" OrderType.limit 35)
      with_bid.orders
      (select_bids 1 "alice" OrderType.limit 35 with_bid)
select_bids-IsQueue_example =
    select_bids-IsQueue 1 "alice" OrderType.limit 35 with_bid.next_order with_bid
      with_bid-IsConsistent.ids

cancel_frame_listing-IsFollowed_example :
    IsFollowed shop (cancel_frame_listing 1 "alice" false shop).1
cancel_frame_listing-IsFollowed_example = cancel_frame_listing-IsFollowed 1 "alice" false shop

mark_listing_dropped-IsFollowed_example : IsFollowed shop (mark_listing_dropped 1 shop).1
mark_listing_dropped-IsFollowed_example = mark_listing_dropped-IsFollowed 1 shop

complete_listing_pickup-IsFollowed_example : IsFollowed shop (complete_listing_pickup 1 shop).1
complete_listing_pickup-IsFollowed_example = complete_listing_pickup-IsFollowed 1 shop

abbrev alice_ask : Order
alice_ask = record {
  id = 1;
  market_id = 1;
  player_uuid = "alice";
  side = Side.sell;
  order_type = OrderType.limit;
  price_cents = 30;
  original_qty = 5;
  remaining_qty = 5;
  reserved_cents = 0;
  status = OrderStatus.open_status;
}

abbrev with_alice_ask : Db
with_alice_ask = record start_db { bank = funded_bank; orders = alice_ask ∷ []; next_order = 2 }

abbrev calls : List Call
calls =
    Call.places alice_sells
    ∷ Call.places bob_buys
    ∷ Call.cancels 2 "bob" false
    ∷ Call.opens "carol" "Carol"
    ∷ Call.retires 1
    ∷ []

after_calls-IsGrown_example :
    (accounts : ℕ) × (accounts ≤ 5)
    × IsGrown service accounts start_db (after_calls service calls start_db)
after_calls-IsGrown_example = after_calls-IsGrown service calls start_db start-IsConsistent

abbrev gate : Gate
gate = record { cooldown = 250; accepted_at = λ p. none }

alice_accepted : (accept "alice" 1000 gate).0 ≡ true
unfolding accept
alice_accepted = refl

accept-spaced_example :
    ((accept "alice" 1200 (accept "alice" 1000 gate).1).0 ≡ not (ltb (1200 - 1000) gate.cooldown))
    × ((q : String)
        → str_eq q "alice" ≡ false
        → (accept q 1200 (accept "alice" 1000 gate).1).0 ≡ (accept q 1200 gate).0)
accept-spaced_example = accept-spaced "alice" 1000 1200 gate alice_accepted
