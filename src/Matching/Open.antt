-- ===== src/Matching/Open.antt =====
-- The statements of `placeBuy` and `placeSellLocked` before and behind their loops, and the rows that
-- their SELECTs hand to the loops.
use endstone_exchange.Table.{update}
use endstone_exchange.Matching.Loop.{Ensures-product}
use endstone_exchange.Bank.Ledger.{debit-Moves, balance_of, IsReconciled, Moves}
use endstone_exchange.Bank.Opening.{locked_balance-lem, locked_balance-same}
use endstone_exchange.Bank.{Uuid, Bank}
use endstone_exchange.Money.{checked_product-IsProduct, Cents, IsProduct}
use endstone_exchange.Common.{refl, arith, subst, if◌then◌else◌, ◌*◌, suc, ◌∷◌, ◌≡◌, ℕ}
use endstone_exchange.Domain.{is_limit, OrderType, Side, ExecutionResult, RowId}
use endstone_exchange.Matching.{
  bought, report, product_if_limit, Progress, limit_price, close_buy, open_buy, Request,
}
use endstone_exchange.Orders.{has_id, new_order, update_order, insert_order, lock_active_book}
use endstone_exchange.Store.{Ensures-bank, Order, Db}
use endstone_exchange.Tx.{
  Ensures-pure_bind, Ensures-pure, Ensures-guard, Ensures-modify, Ensures-or_throw, Ensures-assoc,
  Ensures-gets, Ensures-reader, ◌>>=◌, Ensures, Tx,
}

module _ {κ} {A : Type 0} (P : A → Db → Type κ) where
  pub insert_order-Ensures :
      (market_id : RowId) (p : Uuid) (side : Side) (t : OrderType) (price quantity reserved : ℕ)
      (k : RowId → Tx Db A) (s : Db)
      → Ensures P (
          k s.next_order (record s {
            orders = new_order market_id p side t price quantity reserved s.next_order ∷ s.orders;
            next_order = suc s.next_order;
          }))
      → Ensures P ((insert_order market_id p side t price quantity reserved >>= k) s)
  unfolding insert_order
  insert_order-Ensures market_id p side t price quantity reserved k s h = Ensures-assoc P _ _ _ _ (
      Ensures-gets P _ _ _
        (Ensures-assoc P _ _ _ _ (Ensures-modify P _ _ _ (Ensures-pure_bind P _ _ _ h))))

lock_active_book-same :
    (market_id : RowId) (s : Db) → Ensures (λ _ s'. s' ≡ s) (lock_active_book market_id s)
unfolding lock_active_book
lock_active_book-same market_id s = Ensures-gets _ _ _ _ (
    Ensures-or_throw _ _ _ _ _ λ m _. Ensures-gets _ _ _ _ (
      Ensures-guard _ _ _ _ _ λ _. Ensures-gets _ _ _ _ (
        Ensures-or_throw _ _ _ _ _ λ n _.
          Ensures-guard _ _ _ _ _ λ _. Ensures-guard _ _ _ _ _ λ _. Ensures-pure _ _ _ refl)))

pub lock_active_book-Ensures {κ} :
    {A : Type 0} (P : A → Db → Type κ) (market_id : RowId) (k : RowId → Tx Db A) (s : Db)
    → ((book : RowId) → Ensures P (k book s))
    → Ensures P ((lock_active_book market_id >>= k) s)
lock_active_book-Ensures P market_id k s h =
    Ensures-reader P (lock_active_book market_id) k s (lock_active_book-same market_id s) h

product_if_limit-IsProduct :
    (r : Request) (n : ℕ)
    → IsProduct (limit_price r * n) (product_if_limit r.order_type r.price_cents n)
product_if_limit-IsProduct r n = go r.order_type
  where
    go :
        (t : OrderType)
        → IsProduct
            ((if is_limit t then r.price_cents else 0) * n)
            (product_if_limit t r.price_cents n)
    go OrderType.limit = checked_product-IsProduct r.price_cents n
    go OrderType.market = omega arith

module _ (r : Request) where
  abbrev pub own_buy : RowId → Order
  own_buy =
      new_order r.market_id r.player_uuid Side.buy r.order_type (limit_price r) r.quantity
        (limit_price r * r.quantity)

  abbrev pub own_sell : RowId → Order
  own_sell = new_order r.market_id r.player_uuid Side.sell r.order_type (limit_price r) r.quantity 0

  abbrev pub with_own : Order → Bank → Db → Db
  with_own own b s = record s { bank = b; orders = own ∷ s.orders; next_order = suc s.next_order }

  pub open_buy-Ensures {κ} :
      (P : RowId × Cents → Db → Type κ) (s : Db)
      → ((available : Cents) (b' : Bank)
          → Moves r.player_uuid 0 (limit_price r * r.quantity) s.bank b'
          → P (s.next_order, available) (with_own (own_buy s.next_order) b' s))
      → Ensures P (open_buy r s)
  unfolding open_buy
  open_buy-Ensures P s k =
      Ensures-bank P _ _ _ s (locked_balance-same r.player_uuid s.bank) λ balance b same.
        Ensures-product P (limit_price r * r.quantity) _ _ _
          (product_if_limit-IsProduct r r.quantity)
          (Ensures-guard P _ _ _ _ λ enough. insert_order-Ensures P _ _ _ _ _ _ _ _ _ (
            Ensures-bank P _ _ _ _ (debit-Moves r.player_uuid _ _ _ _ b) λ _ b' moved.
              Ensures-pure P _ _ (
                k _ b' (
                  subst (λ x. Moves r.player_uuid 0 (limit_price r * r.quantity) x b') same
                    moved))))

  pub close_buy-Ensures {κ} :
      (P : ExecutionResult → Db → Type κ) (order_id : RowId) (m : Progress) (s : Db)
      → IsReconciled s.bank
      → P (report r order_id m (balance_of r.player_uuid s.bank)) (record s {
        orders = update (has_id order_id) (bought r m (limit_price r * m.remaining)) s.orders;
      })
      → Ensures P (close_buy r order_id m s)
  unfolding close_buy update_order
  close_buy-Ensures P order_id m s c k =
      Ensures-product P (limit_price r * m.remaining) _ _ _
        (product_if_limit-IsProduct r m.remaining)
        (Ensures-modify P _ _ _ (
          Ensures-bank P _ _ _ _ (locked_balance-lem r.player_uuid s.bank c)
            λ balance b h. Ensures-pure P _ _ (subst₂_read h k)))
    where
      subst₂_read :
          {balance : Cents} {b : Bank}
          → (b ≡ s.bank) × (balance ≡ balance_of r.player_uuid s.bank)
          → P (report r order_id m (balance_of r.player_uuid s.bank)) (record s {
            orders = update (has_id order_id) (bought r m (limit_price r * m.remaining)) s.orders;
          })
          → P (report r order_id m balance) (record s {
            bank = b;
            orders = update (has_id order_id) (bought r m (limit_price r * m.remaining)) s.orders;
          })
      subst₂_read (same, value) p = rw (same, value) p
