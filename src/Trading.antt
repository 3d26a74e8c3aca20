-- ===== src/Trading.antt =====
-- The calls of the exchange, one after another: what src/plugin.cpp does with the service of
-- src/exchange_service.cpp when players open accounts, place and cancel orders, and markets are retired. Each
-- call may end in an exception, and the next one starts from the database that it left.
pub mod History
use endstone_exchange.Common.{ℕ, suc, String, Bool, List, [], ◌∷◌}
use endstone_exchange.Bank.{Uuid}
use endstone_exchange.Domain.{RowId, OrderRequest}
use endstone_exchange.Store.{Db}
use endstone_exchange.Matching.{Service, ensure_account, place_order}
use endstone_exchange.Cancel.{cancel_order, retire_market}

pub data Call : Type 0 where
  opens : Uuid → String → Call
  places : OrderRequest → Call
  cancels : RowId → Uuid → Bool → Call
  retires : RowId → Call

unfoldable pub after_call : Service → Call → Db → Db
unfolding ensure_account place_order cancel_order retire_market
after_call c (Call.opens p name) s = (ensure_account c p name s).1
after_call c (Call.places q) s = (place_order c q s).1
after_call c (Call.cancels i p administrator) s = (cancel_order i p administrator s).1
after_call c (Call.retires i) s = (retire_market i s).1

unfoldable pub after_calls : Service → List Call → Db → Db
unfolding after_call
after_calls c [] s = s
after_calls c (x ∷ xs) s = after_calls c xs (after_call c x s)
