-- ===== src/Markets.antt =====
-- Markets: `activateMarket`, `closeMarket`, `findMarketByTarget`, `findMarket` and `activeMarkets` of
-- src/exchange_service.cpp. The digest of an item, which the database computes, is an argument.
pub mod Views
use endstone_exchange.Common.{
  false, true, ℕ, suc, ◌+◌, ◌-◌, String, Bool, not, ◌&&◌, ◌||◌, Option, none, some, List, [], ◌∷◌,
  ltb, ◌==◌, if◌then◌else◌, is_empty, str_eq,
}
use Prim.Native.Nat.{min}
use endstone_exchange.Common.Int.{ℤ, pos, pos_part, ltb_ℤ, leb_ℤ, eqb_ℤ}
use endstone_exchange.Money.{Cents, cents_max, checked_product}
use endstone_exchange.Table.{select, first, delete, affected}
use endstone_exchange.Tx.{
  Result, ok, err, Tx, Error, Outcome, transaction, and_then, ◌>>=◌, ◌>>◌, pure, throw_if, or_throw,
  gets, modify,
}
use endstone_exchange.Bank.{Uuid, locked_balance, adjust_balance}
use endstone_exchange.Domain.{
  RowId, TargetKind, OrderType, OrderRequest, ItemPrototype, is_buy, is_sell, is_limit, is_open,
}
use endstone_exchange.Store.{Db, Market, Order, TargetBinding, on_bank}
use endstone_exchange.Orders.{in_book, select_asks}
use endstone_exchange.Reads.{sort_on, sort_down, limited, joined, front}
use endstone_exchange.Matching.{Service, validate_request, ensure_account}
use endstone_exchange.Cancel.{unbind, set_market}

abbrev pub has_market : RowId → Market → Bool
has_market i m = m.id == i

abbrev pub binds_key : String → TargetBinding → Bool
binds_key key b = str_eq b.target_key key

unfoldable pub find_market : RowId → Db → Option Market
unfolding first
find_market i s = first (has_market i) s.markets

-- exchange_target_bindings JOIN exchange_markets, WHERE m.active=1
unfoldable pub bound_markets : List Market → List TargetBinding → List Market
unfolding first
bound_markets markets [] = []
bound_markets markets (b ∷ bs) =
    let rest = bound_markets markets bs in
    elim (first (has_market b.market_id) markets) [
      | some m ↦ if m.active then m ∷ rest else rest
      | none ↦ rest
    ]

unfoldable pub find_market_by_target : String → Db → Option Market
unfolding bound_markets select
find_market_by_target key s = front (bound_markets s.markets (select (binds_key key) s.bindings))

unfoldable pub active_markets : Db → List Market
unfolding bound_markets sort_on
active_markets s = sort_on (λ m. m.id) (bound_markets s.markets s.bindings)

abbrev pub same_kind : TargetKind → TargetKind → Bool
same_kind TargetKind.block TargetKind.block = true
same_kind TargetKind.block TargetKind.actor = false
same_kind TargetKind.actor TargetKind.block = false
same_kind TargetKind.actor TargetKind.actor = true

abbrev pub same_bytes : List ℕ → List ℕ → Bool
same_bytes [] [] = true
same_bytes [] (y ∷ ys) = false
same_bytes (x ∷ xs) [] = false
same_bytes (x ∷ xs) (y ∷ ys) = x == y && same_bytes xs ys

-- item_type, item_data and item_nbt: the columns that make an item the same
abbrev pub same_item : ItemPrototype → ItemPrototype → Bool
same_item a b = str_eq a.type b.type && eqb_ℤ a.item_data b.item_data && same_bytes a.nbt b.nbt

abbrev pub resumes : Market → RowId → Market → Bool
resumes q book m =
    str_eq m.target_key q.target_key
    && same_kind m.target_kind q.target_kind
    && not m.active
    && m.reopenable
    && m.book_id == book

unfoldable pub bind_target : String → RowId → Db → Db
bind_target key i s = record s {
  bindings = record { target_key = key; market_id = i } ∷ s.bindings;
}

-- The market of a target: a closed one of the same item is opened again, or a new row is written.
unfoldable pub open_market : Market → RowId → Option Market → Tx Db RowId
unfolding set_market bind_target
open_market q book (some m) = do
  modify (set_market m.id true false)
  modify (bind_target q.target_key m.id)
  pure m.id
open_market q book none = do
  id ← gets λ s. s.next_market
  modify λ s. record s {
    markets =
        record q { id = s.next_market; book_id = book; active = true; reopenable = false }
        ∷ s.markets;
    next_market = suc s.next_market;
  }
  modify (bind_target q.target_key id)
  pure id

abbrev pub activation_incomplete : Market → Bool
activation_incomplete q =
    is_empty q.target_key
    || is_empty q.dimension_name
    || is_empty q.item.type
    || is_empty q.item.name
    || is_empty q.created_by

unfoldable pub reloaded_market : RowId → Db → Outcome Db Market
unfolding find_market
reloaded_market i s = elim (find_market i s) [
  | some m ↦ (ok m, s)
  | none ↦ (err Error.row_not_reloaded, s)
]

-- The database computes UNHEX(SHA2(CONCAT(...),256)) of the three columns; it is a parameter here.
module _ (fingerprint : String → ℤ → List ℕ → ℕ) where
  abbrev hash_of : ItemPrototype → ℕ
  hash_of i = fingerprint i.type i.item_data i.nbt

  -- INSERT INTO exchange_books ... ON DUPLICATE KEY UPDATE id=LAST_INSERT_ID(id): a book under the same
  -- hash is taken, whatever its item.
  unfoldable pub ensure_book : ItemPrototype → Tx Db RowId
  unfolding first
  ensure_book item = do
    known ← gets λ s. first (λ b. hash_of b.item == hash_of item) s.books
    elim known [
      | some b ↦ pure b.id
      | none ↦ (do
        id ← gets λ s. s.next_book
        modify λ s. record s {
          books = record { id = s.next_book; item = item } ∷ s.books;
          next_book = suc s.next_book;
        }
        pure id)
    ]

  unfoldable pub activate_body : Market → Tx Db RowId
  unfolding ensure_book open_market affected select sort_down
  activate_body q = do
    existing ← gets λ s. affected (binds_key q.target_key) s.bindings
    throw_if (ltb 0 existing) Error.target_already_active
    book_id ← ensure_book q.item
    matching ← gets λ s. affected (λ b. b.id == book_id && same_item b.item q.item) s.books
    throw_if (matching == 0) Error.fingerprint_collision
    resumable ← gets λ s. front (sort_down (λ m. m.id) (select (resumes q book_id) s.markets))
    open_market q book_id resumable

  unfoldable pub activate_market : Market → Db → Outcome Db Market
  unfolding activate_body reloaded_market
  activate_market q s =
      if activation_incomplete q
      then (err Error.market_incomplete, s)
      else and_then (transaction (activate_body q)) reloaded_market s

unfoldable pub close_body : RowId → Tx Db (Unit {0})
unfolding find_market unbind set_market delete
close_body i = do
  m ← or_throw (← gets (find_market i)) Error.market_missing
  if not m.active
      then modify (λ s. record s { bindings = delete (λ b. b.market_id == i) s.bindings })
      else (do
        rows ← unbind m.target_key i
        throw_if (not (rows == 1)) Error.binding_missing
        modify (set_market i false true))

unfoldable pub close_market : RowId → Db → Outcome Db (Unit {0})
unfolding close_body
close_market i = transaction (close_body i)
