-- ===== src/Store.antt =====
-- The tables of the database (src/database.cpp, migrations/) that src/exchange_service.cpp reads and
-- writes. A table is a list of rows, the newest first; `next_…` is its AUTO_INCREMENT. A column under a
-- CHECK (… >= 0) is a natural number; time stamps are left out, but for whether one is NULL.
use endstone_exchange.Common.{refl, ap, ◌≡◌, ℕ, String, Bool, Option, List}
use endstone_exchange.Common.Int.{ℤ}
use endstone_exchange.Money.{Cents}
use endstone_exchange.Bank.{Uuid, Bank}
use endstone_exchange.Domain.{
  RowId, TargetKind, Side, OrderType, OrderStatus, ItemPrototype, DeliveryClaimStatus,
  SellEscrowStatus, TransferDirection, TransferStatus, FrameListingStatus,
}
use endstone_exchange.Tx.{Ensures-mono, ◌>>=◌, Result, ok, err, Tx, Ensures}

pub record Book : Type 0 where
  pub id : RowId
  pub item : ItemPrototype

pub record Market : Type 0 where
  pub id : RowId
  pub book_id : RowId
  pub target_key : String
  pub target_kind : TargetKind
  pub dimension_name : String
  pub block_x : Option ℤ
  pub block_y : Option ℤ
  pub block_z : Option ℤ
  pub actor_id : Option ℤ
  pub item : ItemPrototype
  pub active : Bool
  pub reopenable : Bool
  pub created_by : Uuid

pub record TargetBinding : Type 0 where
  pub target_key : String
  pub market_id : RowId

pub record Order : Type 0 where
  pub id : RowId
  pub market_id : RowId
  pub player_uuid : Uuid
  pub side : Side
  pub order_type : OrderType
  pub price_cents : Cents
  pub original_qty : ℕ
  pub remaining_qty : ℕ
  pub reserved_cents : Cents
  pub status : OrderStatus

pub record Trade : Type 0 where
  pub id : RowId
  pub market_id : RowId
  pub buy_order_id : RowId
  pub sell_order_id : RowId
  pub buyer_uuid : Uuid
  pub seller_uuid : Uuid
  pub price_cents : Cents
  pub quantity : ℕ

pub record Delivery : Type 0 where
  pub id : RowId
  pub player_uuid : Uuid
  pub market_id : RowId
  pub quantity : ℕ
  pub claimed_qty : ℕ
  pub reserved_qty : ℕ
  pub reason : String

pub record DeliveryClaim : Type 0 where
  pub id : RowId
  pub delivery_id : RowId
  pub player_uuid : Uuid
  pub quantity : ℕ
  pub applied_qty : ℕ
  pub status : DeliveryClaimStatus
  pub cleaned : Bool

pub record SellEscrow : Type 0 where
  pub id : RowId
  pub market_id : RowId
  pub player_uuid : Uuid
  pub player_name : String
  pub order_type : OrderType
  pub price_cents : Cents
  pub requested_qty : ℕ
  pub tagged_qty : ℕ
  pub receipt_count : ℕ
  pub status : SellEscrowStatus
  pub order_id : Option RowId
  pub cleaned : Bool

pub record Transfer : Type 0 where
  pub id : RowId
  pub player_uuid : Uuid
  pub player_name : String
  pub direction : TransferDirection
  pub amount_cents : Cents
  pub amount_units : ℕ
  pub status : TransferStatus
  pub external_balance_before_units : Option ℤ
  pub external_balance_units : Option ℤ
  pub attempt_count : ℕ
  pub last_error : Option String

pub record FrameListing : Type 0 where
  pub id : RowId
  pub target_key : String
  pub dimension_name : String
  pub block_x : ℤ
  pub block_y : ℤ
  pub block_z : ℤ
  pub seller_uuid : Uuid
  pub seller_name : String
  pub price_cents : Cents
  pub item : ItemPrototype
  pub status : FrameListingStatus
  pub buyer_uuid : Option Uuid
  pub buyer_name : Option String

pub record FrameBinding : Type 0 where
  pub target_key : String
  pub listing_id : RowId

pub record Db : Type 0 where
  pub bank : Bank
  pub books : List Book
  pub markets : List Market
  pub bindings : List TargetBinding
  pub orders : List Order
  pub trades : List Trade
  pub deliveries : List Delivery
  pub claims : List DeliveryClaim
  pub escrows : List SellEscrow
  pub transfers : List Transfer
  pub listings : List FrameListing
  pub frame_bindings : List FrameBinding
  pub next_book : RowId
  pub next_market : RowId
  pub next_order : RowId
  pub next_trade : RowId
  pub next_delivery : RowId
  pub next_claim : RowId
  pub next_escrow : RowId
  pub next_transfer : RowId
  pub next_listing : RowId

-- A statement over the accounts, run on the whole database.
unfoldable pub on_bank : {A : Type 0} → Tx Bank A → Tx Db A
on_bank m s = elim (m s.bank) [ ok (a, b) ↦ ok (a, record s { bank = b }) | err e ↦ err e ]

pub Ensures-on_bank {κ} :
    {A : Type 0} (P : A → Db → Type κ) (m : Tx Bank A) (s : Db)
    → Ensures (λ a b. P a (record s { bank = b })) (m s.bank)
    → Ensures P (on_bank m s)
unfolding on_bank
Ensures-on_bank {A = A} P m s h = go (m s.bank) h
  where
    go :
        (r : Result (A × Bank))
        → Ensures (λ a b. P a (record s { bank = b })) r
        → Ensures P (elim r as (λ _. Result (A × Db)) [
          | ok (a, b) ↦ ok (a, record s { bank = b })
          | err e ↦ err e
        ])
    go (ok (a, b)) p = p
    go (err e) p = tt

pub Ensures-bank {κ μ} :
    {A B : Type 0} (P : B → Db → Type κ) (R : A → Bank → Type μ) (m : Tx Bank A) (k : A → Tx Db B)
    (s : Db)
    → Ensures R (m s.bank)
    → ((a : A) (b' : Bank) → R a b' → Ensures P (k a (record s { bank = b' })))
    → Ensures P ((on_bank m >>= k) s)
unfolding on_bank ◌>>=◌
Ensures-bank {A = A} {B = B} P R m k s h f = go (m s.bank) h
  where
    go :
        (r : Result (A × Bank))
        → Ensures R r
        → Ensures P
            (elim (elim r as (λ _. Result (A × Db)) [
              | ok (a, b) ↦ ok (a, record s { bank = b })
              | err e ↦ err e
            ])
              as (λ _. Result (B × Db)) [ ok (a, s') ↦ k a s' | err e ↦ err e ])
    go (ok (a, b)) p = f a b p
    go (err e) p = tt

-- A statement that leaves the accounts alone leaves the database alone.
pub on_bank-same :
    {A : Type 0} (m : Tx Bank A) (s : Db)
    → Ensures (λ _ b'. b' ≡ s.bank) (m s.bank)
    → Ensures (λ _ s'. s' ≡ s) (on_bank m s)
on_bank-same m s h =
    Ensures-on_bank _ m s
      (Ensures-mono _ (λ _ b'. record s { bank = b' } ≡ s) _ h (λ a b' e. same b' e))
  where
    same : (b' : Bank) → b' ≡ s.bank → record s { bank = b' } ≡ s
    same b' e = ap {B = Db} (λ x. record s { bank = x }) e

pub on_bank-ok :
    {A : Type 0} (m : Tx Bank A) (s : Db) (a : A) (b' : Bank)
    → m s.bank ≡ ok (a, b')
    → on_bank m s ≡ ok (a, record s { bank = b' })
unfolding on_bank
on_bank-ok m s a b' h = rw (on_bank, h) refl
