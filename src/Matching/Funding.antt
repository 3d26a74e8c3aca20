-- ===== src/Matching/Funding.antt =====
-- `buyFundingRequired` and the loop of `placeBuy`, both of src/exchange_service.cpp: the plugin draws the
-- money for a market buy by the one and spends it by the other.
use endstone_exchange.Money.{Cents}
use endstone_exchange.Store.{Order}
use endstone_exchange.Common.{◌<◌}
use endstone_exchange.Tx.{Result, ok, err}

-- A row of the other side that can be bought from
abbrev pub IsOffer : Order → Type 0
IsOffer o = (0 < o.price_cents) × (0 < o.remaining_qty)

value : Result Cents → Cents
value (ok v) = v
value (err e) = 0
