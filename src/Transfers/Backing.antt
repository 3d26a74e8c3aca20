-- ===== src/Transfers/Backing.antt =====
-- The economy transfers of src/exchange_service.cpp and the internal money.
use endstone_exchange.Bank.Ledger.{Moves}
use endstone_exchange.Bank.{Bank}
use endstone_exchange.Transfers.{is_prepared_transfer, update_transfers, has_transfer}
use endstone_exchange.Table.Keys.{IsKeyed-update, IsKeyed}
use endstone_exchange.Matching.Invariant.{money, IsConsistent}
use endstone_exchange.Domain.{
  transfer_is_external_applied, transfer_is_prepared, TransferStatus, transfer_is_failed,
  transfer_is_completed, is_withdraw, RowId, is_deposit,
}
use endstone_exchange.Store.{Transfer, Db}
use endstone_exchange.Common.{
  subst, refl, true, ◌≡◌, arith, sym, ℕ, ◌+◌, Bool, some, if◌then◌else◌, ◌&&◌, not, List, ==_iff,
}
use endstone_exchange.Table.{
  sum_of-update_same, first-holds, sum_of-update_row, sum_of, update, first,
}

-- What left the exchange, or is on its way: the withdrawals that have not failed.
abbrev pub withdrawn_cell : Transfer → ℕ
withdrawn_cell t =
    if is_withdraw t.direction && not (transfer_is_failed t.status) then t.amount_cents else 0

-- What came in: the deposits that are completed.
abbrev pub credited_cell : Transfer → ℕ
credited_cell t =
    if is_deposit t.direction && transfer_is_completed t.status then t.amount_cents else 0

-- The internal money and what was withdrawn make up what the accounts were opened with and what was
-- deposited; the transfers have ids of their own.
pub record IsBacked (opening : ℕ) (s : Db) : Type 0 where
  pub consistent : IsConsistent s
  pub keyed : IsKeyed (λ (t : Transfer). t.id) s.next_transfer s.transfers
  pub backed :
      money s + sum_of withdrawn_cell s.transfers ≡ opening + sum_of credited_cell s.transfers

-- A transfer that moves `up` cents onto an account and `down` cents off it, as its row changes by `f`
module _ (opening : ℕ) (s : Db) (h : IsBacked opening s) (i : RowId) (t : Transfer)
    (found : first (has_transfer i) s.transfers ≡ some t) (f : Transfer → Transfer)
    (same : (x : Transfer) → (f x).id ≡ x.id) where
  pub changed_row :
      (up down : ℕ) (b' : Bank)
      → Moves t.player_uuid up down s.bank b'
      → up + withdrawn_cell (f t) + credited_cell t ≡ down + credited_cell (f t) + withdrawn_cell t
      → IsBacked opening (record s { bank = b'; transfers = update (has_transfer i) f s.transfers })
  changed_row up down b' moved e = record {
    consistent = record {
      reconciled = moved.reconciled h.consistent.reconciled;
      ids = h.consistent.ids;
      orders = h.consistent.orders;
      trades = h.consistent.trades;
    };
    keyed =
        IsKeyed-update (λ (t : Transfer). t.id) s.next_transfer (has_transfer i) f s.transfers same
          h.keyed;
    backed = omega (
      arith,
      h.backed,
      moved.total,
      e,
      sum_of-update_row (has_transfer i) f withdrawn_cell s.transfers t (h.keyed.unique i) found,
      sum_of-update_row (has_transfer i) f credited_cell s.transfers t (h.keyed.unique i) found,
    );
  }

pub found_row :
    (i : RowId) (ts : List Transfer) (t : Transfer)
    → first (has_transfer i) ts ≡ some t
    → first (has_transfer t.id) ts ≡ some t
found_row i ts t h = subst (λ j. first (has_transfer j) ts ≡ some t) (sym same) h
  where
    same : t.id ≡ i
    same = (==_iff t.id i).0 (first-holds (has_transfer i) ts t h)

-- An UPDATE that leaves both sums alone
pub plain_update :
    (opening : ℕ) (s : Db) (p : Transfer → Bool) (f : Transfer → Transfer)
    → ((x : Transfer) → (f x).id ≡ x.id)
    → ((x : Transfer) → p x ≡ true → withdrawn_cell (f x) ≡ withdrawn_cell x)
    → ((x : Transfer) → p x ≡ true → credited_cell (f x) ≡ credited_cell x)
    → IsBacked opening s
    → IsBacked opening (update_transfers p f s)
unfolding update_transfers
plain_update opening s p f same w c h = record {
  consistent = record {
    reconciled = h.consistent.reconciled;
    ids = h.consistent.ids;
    orders = h.consistent.orders;
    trades = h.consistent.trades;
  };
  keyed = IsKeyed-update (λ (t : Transfer). t.id) s.next_transfer p f s.transfers same h.keyed;
  backed = omega (
    arith,
    h.backed,
    sum_of-update_same p f withdrawn_cell s.transfers w,
    sum_of-update_same p f credited_cell s.transfers c,
  );
}

pub status_prepared :
    (t : TransferStatus) → transfer_is_prepared t ≡ true → t ≡ TransferStatus.prepared
status_prepared TransferStatus.prepared h = refl
status_prepared TransferStatus.external_applied h = cc
status_prepared TransferStatus.completed h = cc
status_prepared TransferStatus.failed h = cc
status_prepared TransferStatus.blocked h = cc

pub status_applied :
    (t : TransferStatus)
    → transfer_is_external_applied t ≡ true
    → t ≡ TransferStatus.external_applied
status_applied TransferStatus.prepared h = cc
status_applied TransferStatus.external_applied h = refl
status_applied TransferStatus.completed h = cc
status_applied TransferStatus.failed h = cc
status_applied TransferStatus.blocked h = cc

pub prepared_of :
    (i : RowId) (t : Transfer)
    → is_prepared_transfer i t ≡ true
    → t.status ≡ TransferStatus.prepared
prepared_of i t h = status_prepared t.status (ground arith)
