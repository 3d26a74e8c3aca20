-- ===== src/Orders/Priority.antt =====
-- The order in which `placeBuy` and `placeSellLocked` of src/exchange_service.cpp meet the other side.
use endstone_exchange.Money.{Cents}
use mathlib.Core.List.{Mem, mem-cons_self, mem-cons_of_mem}
use mathlib.Core.List.Perm
use text.Mathlib.TextEquality.{eq_iff}
use endstone_exchange.Table.{select-All, select, affected}
use endstone_exchange.Bank.{Uuid}
use endstone_exchange.Orders.Sorting.{
  sort_by-perm, sort_by-All, sort_by-Distinct, bid_before-IsKey, ask_before-IsKey, sort_by-Sorted,
  Sorted, IsKey,
}
use endstone_exchange.Orders.Rows.{Distinct, IdsBelow, select-Distinct}
use endstone_exchange.Domain.{
  OrderType, RowId, Side, OrderStatus, is_buy, is_sell, is_limit, is_open,
}
use endstone_exchange.Store.{Db, Order, Market}
use endstone_exchange.Orders.{
  in_book, crosses_ask, crosses_bid, is_bid, is_ask, ask_before, bid_before, select_asks,
  select_bids, sort_by,
}
use endstone_exchange.Common.{
  ltb, subst, ◌==◌, Bool-cases, refl, Bool, ◌≡◌, ◌≢◌, ◌≤◌, ◌<◌, ◌⊎◌, true, false, ◌&&◌, List, [],
  ◌∷◌, All, All-map, inl, inr, arith, not, str_eq,
}

-- A market with the id of the order stands in the book.
abbrev pub IsInBook : RowId → List Market → Order → Type 0
IsInBook book [] o = ⊥
IsInBook book (m ∷ ms) o = ((m.id ≡ o.market_id) × (m.book_id ≡ book)) ⊎ IsInBook book ms o

-- An open limit order of the given side in the book, of another player than `p`, at a price `Reaches` or
-- for an order `t` that has no limit
pub record IsMatch (side : Side) (Reaches : Cents → Type 0) (t : OrderType) (book : RowId)
    (markets : List Market) (p : Uuid) (o : Order) : Type 0 where
  pub listed : IsInBook book markets o
  pub side_of : o.side ≡ side
  pub kind : o.order_type ≡ OrderType.limit
  pub status_of : (o.status ≡ OrderStatus.open_status) ⊎ (o.status ≡ OrderStatus.partial)
  pub of_other : o.player_uuid ≢ p
  pub reached : (t ≡ OrderType.market) ⊎ Reaches o.price_cents

-- The lower price first, and at one price the lower id; the higher price first
abbrev pub IsCheaper : Order → Order → Type 0
IsCheaper a b = (a.price_cents < b.price_cents) ⊎ ((a.price_cents ≡ b.price_cents) × (a.id ≤ b.id))

abbrev pub IsDearer : Order → Order → Type 0
IsDearer a b = (b.price_cents < a.price_cents) ⊎ ((a.price_cents ≡ b.price_cents) × (a.id ≤ b.id))

abbrev pub IsOrdered : (Order → Order → Type 0) → List Order → Type 0
IsOrdered Before [] = Unit
IsOrdered Before (o ∷ os) = All (Before o) os × IsOrdered Before os

-- What an order meets: matches only, all rows that are matches, none twice, and none before a better one
pub record IsQueue (Before : Order → Order → Type 0) (Meets : Order → Type 0)
    (rows queue : List Order) : Type 0 where
  pub ordered : IsOrdered Before queue
  pub sound : All (λ o. Mem o rows × Meets o) queue
  pub complete : All (λ o. Mem o queue ⊎ ¬ Meets o) rows
  pub once : Distinct queue

in_book_lem :
    (book : RowId) (ms : List Market) (o : Order) → in_book book ms o ≡ true → IsInBook book ms o
unfolding affected
in_book_lem book [] o h = cc
in_book_lem book (m ∷ ms) o h = elim (Bool-cases (m.id == o.market_id && m.book_id == book)) [
  | inl e ↦ inl (ground arith)
  | inr e ↦ inr (in_book_lem book ms o (ground arith))
]

IsInBook-in_book :
    (book : RowId) (ms : List Market) (o : Order) → IsInBook book ms o → in_book book ms o ≡ true
unfolding affected
IsInBook-in_book book [] o h = absurd h
IsInBook-in_book book (m ∷ ms) o (inl h) = ground arith
IsInBook-in_book book (m ∷ ms) o (inr h) = ground (arith, IsInBook-in_book book ms o h)

is_sell_lem : (x : Side) → is_sell x ≡ true → x ≡ Side.sell
is_sell_lem Side.sell h = refl
is_sell_lem Side.buy h = cc

is_buy_lem : (x : Side) → is_buy x ≡ true → x ≡ Side.buy
is_buy_lem Side.sell h = cc
is_buy_lem Side.buy h = refl

is_limit_lem : (x : OrderType) → (x ≡ OrderType.market) ⊎ (x ≡ OrderType.limit)
is_limit_lem OrderType.market = inl refl
is_limit_lem OrderType.limit = inr refl

limit_only : (x : OrderType) → is_limit x ≡ true → x ≡ OrderType.limit
limit_only OrderType.limit h = refl
limit_only OrderType.market h = cc

is_open_lem :
    (x : OrderStatus) → is_open x ≡ true → (x ≡ OrderStatus.open_status) ⊎ (x ≡ OrderStatus.partial)
is_open_lem OrderStatus.open_status h = inl refl
is_open_lem OrderStatus.partial h = inr refl
is_open_lem OrderStatus.filled h = cc
is_open_lem OrderStatus.canceled h = cc

select-Mem : (meets : Order → Bool) (rows : List Order) → All (λ o. Mem o rows) (select meets rows)
unfolding select
select-Mem meets [] = tt
select-Mem meets (o ∷ os) =
    let more =
      All-map (λ x. Mem x os) (λ x. Mem x (o ∷ os)) (select meets os) (λ x h. mem-cons_of_mem o h)
        (select-Mem meets os) in
    elim (Bool-cases (meets o)) [ inl e ↦ rw e (mem-cons_self, more) | inr e ↦ rw e more ]

select_complete :
    (meets : Order → Bool) (rows : List Order)
    → All (λ o. Mem o (select meets rows) ⊎ (meets o ≡ false)) rows
unfolding select
select_complete meets [] = tt
select_complete meets (o ∷ os) = elim (Bool-cases (meets o)) [
  | inl e ↦
      let found : o ∷ select meets os ≡ select meets (o ∷ os) = rw e refl in
      (
        inl (subst (Mem o) found mem-cons_self),
        All-map _ _ os
            (λ x h. elim h [
              | inl m ↦ inl (subst (Mem x) found (mem-cons_of_mem o m))
              | inr n ↦ inr n
            ])
            (select_complete meets os),
      )
  | inr e ↦
      let skipped : select meets os ≡ select meets (o ∷ os) = rw e refl in
      (
        inr e,
        All-map _ _ os (λ x h. elim h [ inl m ↦ inl (subst (Mem x) skipped m) | inr n ↦ inr n ])
            (select_complete meets os),
      )
]

-- A sorted selection, by a key and a WHERE that say what `Before` and `Meets` say
module _ (before : Order → Order → Bool) (key : IsKey before) (Before : Order → Order → Type 0)
    (says : (a b : Order) → before a b ≡ true → Before a b) (meets : Order → Bool)
    (Meets : Order → Type 0) (only_if : (o : Order) → meets o ≡ true → Meets o)
    (holds : (o : Order) → Meets o → meets o ≡ true) where
  Sorted-IsOrdered : (os : List Order) → Sorted before os → IsOrdered Before os
  Sorted-IsOrdered [] h = tt
  Sorted-IsOrdered (o ∷ os) h =
      (All-map (λ x. before o x ≡ true) (Before o) os (says o) h.0, Sorted-IsOrdered os h.1)

  both :
      (rows : List Order) (os : List Order)
      → All (λ o. Mem o rows) os
      → All (λ o. meets o ≡ true) os
      → All (λ o. Mem o rows × Meets o) os
  both rows [] h k = tt
  both rows (o ∷ os) h k = ((h.0, only_if o k.0), both rows os h.1 k.1)

  sort_by-IsQueue :
      (rows : List Order)
      → Distinct (select meets rows)
      → IsQueue Before Meets rows (sort_by before (select meets rows))
  sort_by-IsQueue rows d = record {
    ordered = Sorted-IsOrdered _ (sort_by-Sorted before key (select meets rows));
    sound =
        sort_by-All before _ (select meets rows)
          (both rows (select meets rows) (select-Mem meets rows) (select-All meets rows));
    complete =
        All-map _ _ rows
          (λ o h. elim h [
            | inl m ↦ inl ((Perm.mem_iff (sort_by-perm before (select meets rows))).1 m)
            | inr n ↦ inr (λ k. let yes : meets o ≡ true = holds o k in cc)
          ])
          (select_complete meets rows);
    once = sort_by-Distinct before (select meets rows) d;
  }

ask_before-IsCheaper : (a b : Order) → ask_before a b ≡ true → IsCheaper a b
ask_before-IsCheaper a b h = elim (Bool-cases (ltb a.price_cents b.price_cents)) [
  | inl e ↦ inl (ground arith)
  | inr e ↦ inr (ground arith)
]

bid_before-IsDearer : (a b : Order) → bid_before a b ≡ true → IsDearer a b
bid_before-IsDearer a b h = elim (Bool-cases (ltb b.price_cents a.price_cents)) [
  | inl e ↦ inl (ground arith)
  | inr e ↦ inr (ground arith)
]

module _ (book : RowId) (markets : List Market) (p : Uuid) (t : OrderType) (price : Cents) where
  abbrev pub IsAsk : Order → Type 0
  IsAsk = IsMatch Side.sell (λ c. c ≤ price) t book markets p

  abbrev pub IsBid : Order → Type 0
  IsBid = IsMatch Side.buy (λ c. price ≤ c) t book markets p

  other_lem : (o : Order) → not (str_eq o.player_uuid p) ≡ true → o.player_uuid ≢ p
  other_lem o h e =
      let same : str_eq o.player_uuid p ≡ true = (eq_iff o.player_uuid p).1 e in ground arith

  other_holds : (o : Order) → o.player_uuid ≢ p → not (str_eq o.player_uuid p) ≡ true
  other_holds o h = elim (Bool-cases (str_eq o.player_uuid p)) [
    | inl e ↦ absurd (h ((eq_iff o.player_uuid p).0 e))
    | inr e ↦ rw e refl
  ]

  open_holds :
      (x : OrderStatus)
      → (x ≡ OrderStatus.open_status) ⊎ (x ≡ OrderStatus.partial)
      → is_open x ≡ true
  open_holds x (inl e) = rw e refl
  open_holds x (inr e) = rw e refl

  ask_within :
      (o : Order) → (t ≡ OrderType.market) ⊎ (o.price_cents ≤ price) → crosses_ask t price o ≡ true
  ask_within o (inl e) = rw e refl
  ask_within o (inr e) = ground arith

  bid_within :
      (o : Order) → (t ≡ OrderType.market) ⊎ (price ≤ o.price_cents) → crosses_bid t price o ≡ true
  bid_within o (inl e) = rw e refl
  bid_within o (inr e) = ground arith

  is_ask-IsMatch : (o : Order) → (is_ask book markets p o && crosses_ask t price o) ≡ true → IsAsk o
  is_ask-IsMatch o h = record {
    listed = in_book_lem book markets o (ground arith);
    side_of = is_sell_lem o.side (ground arith);
    kind = limit_only o.order_type (ground arith);
    status_of = is_open_lem o.status (ground arith);
    of_other = other_lem o (ground arith);
    reached = elim (is_limit_lem t) [ inl e ↦ inl e | inr e ↦ inr (ground arith) ];
  }

  ask_holds : (o : Order) → IsAsk o → (is_ask book markets p o && crosses_ask t price o) ≡ true
  ask_holds o k =
      let stands : in_book book markets o ≡ true = IsInBook-in_book book markets o k.listed in
      let on_side : is_sell o.side ≡ true = rw k.side_of refl in
      let limited : is_limit o.order_type ≡ true = rw k.kind refl in
      let opened : is_open o.status ≡ true = open_holds o.status k.status_of in
      let other : not (str_eq o.player_uuid p) ≡ true = other_holds o k.of_other in
      let within : crosses_ask t price o ≡ true = ask_within o k.reached in
      rw stands (rw on_side (rw limited (rw opened (rw other within))))

  is_bid-IsMatch : (o : Order) → (is_bid book markets p o && crosses_bid t price o) ≡ true → IsBid o
  is_bid-IsMatch o h = record {
    listed = in_book_lem book markets o (ground arith);
    side_of = is_buy_lem o.side (ground arith);
    kind = limit_only o.order_type (ground arith);
    status_of = is_open_lem o.status (ground arith);
    of_other = other_lem o (ground arith);
    reached = elim (is_limit_lem t) [ inl e ↦ inl e | inr e ↦ inr (ground arith) ];
  }

  bid_holds : (o : Order) → IsBid o → (is_bid book markets p o && crosses_bid t price o) ≡ true
  bid_holds o k =
      let stands : in_book book markets o ≡ true = IsInBook-in_book book markets o k.listed in
      let on_side : is_buy o.side ≡ true = rw k.side_of refl in
      let limited : is_limit o.order_type ≡ true = rw k.kind refl in
      let opened : is_open o.status ≡ true = open_holds o.status k.status_of in
      let other : not (str_eq o.player_uuid p) ≡ true = other_holds o k.of_other in
      let within : crosses_bid t price o ≡ true = bid_within o k.reached in
      rw stands (rw on_side (rw limited (rw opened (rw other within))))

-- The rows that a buy order meets, in a table whose ids fall from row to row as the
-- INSERTs leave them, are the open limit sell orders of
-- other players in its book that its limit reaches, all of them and each once, the cheapest first and at one
-- price the one with the lowest id.
pub select_asks-IsQueue :
    (book : RowId) (p : Uuid) (t : OrderType) (price : Cents) (n : RowId) (s : Db)
    → IdsBelow n s.orders
    → IsQueue IsCheaper (IsAsk book s.markets p t price) s.orders (select_asks book p t price s)
unfolding select_asks
select_asks-IsQueue book p t price n s ids =
    sort_by-IsQueue ask_before ask_before-IsKey IsCheaper ask_before-IsCheaper
      (λ o. is_ask book s.markets p o && crosses_ask t price o) (IsAsk book s.markets p t price)
      (is_ask-IsMatch book s.markets p t price) (ask_holds book s.markets p t price) s.orders
      (select-Distinct _ n s.orders ids)

-- The rows that a sell order meets, in a table whose ids fall from row to row as the
-- INSERTs leave them, are the open limit buy orders of
-- other players in its book that its limit reaches, all of them and each once, the dearest first and at one
-- price the one with the lowest id.
pub select_bids-IsQueue :
    (book : RowId) (p : Uuid) (t : OrderType) (price : Cents) (n : RowId) (s : Db)
    → IdsBelow n s.orders
    → IsQueue IsDearer (IsBid book s.markets p t price) s.orders (select_bids book p t price s)
unfolding select_bids
select_bids-IsQueue book p t price n s ids =
    sort_by-IsQueue bid_before bid_before-IsKey IsDearer bid_before-IsDearer
      (λ o. is_bid book s.markets p o && crosses_bid t price o) (IsBid book s.markets p t price)
      (is_bid-IsMatch book s.markets p t price) (bid_holds book s.markets p t price) s.orders
      (select-Distinct _ n s.orders ids)
