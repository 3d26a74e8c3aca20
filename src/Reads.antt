-- ===== src/Reads.antt =====
-- What the SELECT statements of src/exchange_service.cpp share beyond their WHERE: ORDER BY on a key,
-- LIMIT, and the JOIN with exchange_markets.
use endstone_exchange.Common.{
  ℕ, zero, suc, Option, none, some, List, [], ◌∷◌, leb, ◌==◌, if◌then◌else◌,
}
use endstone_exchange.Table.{first}
use endstone_exchange.Domain.{RowId, ItemPrototype}
use endstone_exchange.Store.{Market}

module _ {A : Type 0} (key : A → ℕ) where
  insert_on : A → List A → List A
  insert_on x [] = x ∷ []
  insert_on x (y ∷ ys) = if leb (key x) (key y) then x ∷ y ∷ ys else y ∷ insert_on x ys

  -- ORDER BY key
  unfoldable pub sort_on : List A → List A
  unfolding insert_on
  sort_on [] = []
  sort_on (x ∷ xs) = insert_on x (sort_on xs)

  insert_down : A → List A → List A
  insert_down x [] = x ∷ []
  insert_down x (y ∷ ys) = if leb (key y) (key x) then x ∷ y ∷ ys else y ∷ insert_down x ys

  -- ORDER BY key DESC
  unfoldable pub sort_down : List A → List A
  unfolding insert_down
  sort_down [] = []
  sort_down (x ∷ xs) = insert_down x (sort_down xs)

-- LIMIT n
unfoldable pub limited : {A : Type 0} → ℕ → List A → List A
limited zero xs = []
limited (suc n) [] = []
limited (suc n) (x ∷ xs) = x ∷ limited n xs

-- The first of the rows of a query
abbrev pub front : {A : Type 0} → List A → Option A
front [] = none
front (x ∷ xs) = some x

-- JOIN exchange_markets m ON m.id=market_of row: the rows whose market exists, with its item
unfoldable pub joined : {A : Type 0} → (A → RowId) → List Market → List A → List (A × ItemPrototype)
unfolding first
joined market_of markets [] = []
joined market_of markets (x ∷ xs) =
    let rest = joined market_of markets xs in
    elim (first (λ m. m.id == market_of x) markets) [ some m ↦ (x, m.item) ∷ rest | none ↦ rest ]
