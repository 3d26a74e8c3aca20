-- ===== src/Examples/Forms.antt =====
-- The theorems on the forms, the configuration and the funding of orders at examples.
use endstone_exchange.Store.{Db}
use endstone_exchange.Transfers.Prepare.{IsBackedSince}
use endstone_exchange.Umoney.{Gateway}
use endstone_exchange.Common.{some, inr, inl, true, ◌/◌, All, refl, ◌∷◌, [], ◌≡◌, ℕ, List, arith}
use endstone_exchange.Common.Int.{◌+ℤ◌, pos, ℤ}
use endstone_exchange.Domain.{OrderRequest, OrderType, Side, TransferStatus}
use endstone_exchange.Matching.{Service, validate_request, accepted}
use endstone_exchange.Texts.{codes, to_string}
use endstone_exchange.Trade.{
  limits_invalid, parse_whole_number, entered, default_price, parse_price, parse_quantity, clamp,
}
use endstone_exchange.Trade.Forms.{form_values}
use endstone_exchange.Trade.Prices.{IsNearest, default_price-IsNearest}
use endstone_exchange.Trade.Suggested.{AreLimits, parse_price-default_price}
use endstone_exchange.Trade.Answers.{json, IsTyped, form_values-json}
use endstone_exchange.Config.{validate_market, Config, validate, valid, internal}
use endstone_exchange.Config.Sound.{validate-served}
use endstone_exchange.Umoney.Funded.{IsCovered, fund_direct-IsFunded}
use endstone_exchange.Umoney.Direct.{fund_direct}
use endstone_exchange.Tx.{Outcome, ok}
use endstone_exchange.Examples.World.{service, with_deposit, prepared_deposit-IsBacked}

default_price-IsNearest_example :
    (r : ℕ) × (default_price (pos 100) (pos 1000) (pos 300) (pos 560) ≡ entered r)
    × IsNearest 100 1000 300 (clamp (pos 560) 100 1000) r
default_price-IsNearest_example =
    default_price-IsNearest 100 1000 300 (pos 560) (omega arith) (omega arith) (omega arith)

limits : AreLimits 100 1000 300
limits = (omega arith, omega arith, omega arith, omega arith, refl, refl, refl)

default_run : default_price (pos 100) (pos 1000) (pos 300) (pos 560) ≡ entered 700
unfolding default_price
default_run = refl

parse_price-default_price_example :
    parse_price (to_string (700 / 100)) (pos 100) (pos 1000) (pos 300) ≡ entered 700
parse_price-default_price_example =
    parse_price-default_price 100 1000 300 (pos 560) 700 limits default_run

abbrev answers : List (List ℕ)
answers = codes "7" ∷ (b'"' ∷ 10 ∷ []) ∷ []

answers-AreTyped : All (All IsTyped) answers
answers-AreTyped =
    ((inl (omega arith), tt), ((inl (omega arith), (inr (inr (inr (inl refl))), tt)), tt))

form_values-json_example : form_values (json answers) ≡ entered answers
form_values-json_example = form_values-json answers answers-AreTyped

-- The configuration of the defaults
abbrev defaults : Config
defaults = record {
  database = record {
    host = codes "127.0.0.1";
    port = 3306;
    user = codes "exchange";
    password = [];
    name = codes "endstone_exchange";
    connect_timeout_seconds = 5;
  };
  market = record {
    initial_balance_cents = pos 1000000;
    max_order_quantity = pos 640;
    price_min_cents = pos 100;
    price_max_cents = pos 500000;
    price_step_cents = pos 100;
    order_book_depth = pos 5;
    hologram_refresh_ticks = 20;
    frame_capture_delay_ticks = 80;
    cleanup_structure_captures = true;
  };
  economy = record {
    provider = internal;
    umoney_plugin = codes "umoney";
    recovery_interval_ticks = 100;
  };
}

abbrev default_service : Service
default_service = record { initial_balance_cents = 1000000; max_order_quantity = 640 }

abbrev typed_order : OrderRequest
typed_order = record {
  market_id = 1;
  player_uuid = "bob";
  player_name = "Bob";
  side = Side.buy;
  order_type = OrderType.limit;
  price_cents = pos 700;
  quantity = pos 64;
}

defaults_valid : validate defaults ≡ valid tt
unfolding validate validate_market
defaults_valid = refl

price_run : parse_price (codes " 7") (pos 100) (pos 500000) (pos 100) ≡ entered 700
unfolding parse_price limits_invalid parse_whole_number
price_run = refl

quantity_run : parse_quantity (codes "64") (pos 640) ≡ entered (pos 64)
unfolding parse_quantity
quantity_run = refl

validate-served_example :
    (validate_request default_service typed_order ≡ ok (accepted typed_order))
    × ((accepted typed_order).price_cents ≡ 700)
    × (pos (accepted typed_order).quantity ≡ pos 64)
validate-served_example =
    validate-served defaults default_service (codes " 7") (codes "64") typed_order 700 (pos 64)
      defaults_valid refl price_run quantity_run refl refl refl

-- A gateway with one balance, from which an order for 2500 is funded
abbrev one_balance : Gateway ℤ
one_balance = record { read = λ name w. ok (some w); change = λ name delta w. (ok tt, w +ℤ delta) }

abbrev funded_run : Outcome (Db × ℤ) (Unit {0})
funded_run =
    fund_direct one_balance (λ e. "failed") service "alice" "Alice" (pos 2500)
      (with_deposit TransferStatus.prepared, pos 20)

fund_direct-IsFunded_example :
    IsBackedSince service 1000 funded_run.1.0
    × IsCovered "alice" (pos 2500) funded_run.0 funded_run.1.0
fund_direct-IsFunded_example =
    fund_direct-IsFunded one_balance (λ e. "failed") service 1000 "alice" "Alice" (pos 2500)
      (with_deposit TransferStatus.prepared) (pos 20) prepared_deposit-IsBacked
