-- ===== src/Frames/Purchase.antt =====
-- `purchaseFrameListing` of src/exchange_service.cpp, and the balances of the two players.
use endstone_exchange.Table.{update}
use endstone_exchange.Bank.Ledger.{balance_of}
use endstone_exchange.Matching.Invariant.{money, IsConsistent}
use endstone_exchange.Frames.{has_listing, paid_by, find_listing, FramePurchase}
use endstone_exchange.Store.{FrameListing, Db}
use endstone_exchange.Bank.{Bank, Uuid}
use endstone_exchange.Domain.{listing_is_active, RowId}
use endstone_exchange.Common.{true, ◌≡◌, ◌+◌, some, String}
use endstone_exchange.Tx.{Tx}

-- A purchase that goes through: only the two balances and the row of the listing change.
pub record IsPurchased (i : RowId) (buyer : Uuid) (name : String) (s : Db) (x : FramePurchase)
    (s' : Db) : Type 0 where
  pub listing : FrameListing
  pub found : find_listing i s ≡ some listing
  pub was_active : listing_is_active listing.status ≡ true
  pub sold : x.listing ≡ paid_by buyer name listing
  pub money_kept : money s' ≡ money s
  pub consistent : IsConsistent s'
  pub buyer_pays : balance_of buyer s'.bank + listing.price_cents ≡ balance_of buyer s.bank
  pub seller_gains :
      balance_of listing.seller_uuid s'.bank
      ≡ balance_of listing.seller_uuid s.bank + listing.price_cents
  pub buyer_balance : x.buyer_balance ≡ balance_of buyer s'.bank
  pub seller_balance : x.seller_balance ≡ balance_of listing.seller_uuid s'.bank
  pub row : s'.listings ≡ update (has_listing listing.id) (paid_by buyer name) s.listings
