-- ===== src/Transfers/Prepare.antt =====
-- `prepareEconomyTransfer` of src/exchange_service.cpp and the internal money.
use endstone_exchange.Table.Keys.{IsKeyed-insert}
use endstone_exchange.Bank.Ledger.{debit-Moves, Moves-refl, total_balance, Moves}
use endstone_exchange.Bank.Opening.{ensure_account_row-Opens, Opens}
use endstone_exchange.Common.Int.{pos, leb_ℤ, pos_part, ℤ}
use endstone_exchange.Domain.{RowId, TransferDirection}
use endstone_exchange.Transfers.Backing.{credited_cell, withdrawn_cell, IsBacked}
use endstone_exchange.Store.{Ensures-on_bank, Transfer, Db}
use endstone_exchange.Bank.{Bank, Uuid}
use endstone_exchange.Matching.{Service, ensure_account}
use endstone_exchange.Table.{sum_of}
use endstone_exchange.Transfers.{
  new_transfer, find_transfer, err, ok, reloaded, prepare_transfer, prepare_body,
}
use endstone_exchange.Common.{
  ◌||◌, suc, is_empty, refl, ◌≡◌, arith, inl, inr, ◌⊎◌, ℕ, ◌+◌, String, Option, none, some,
  Bool-cases, ◌∷◌,
}
use endstone_exchange.Tx.{
  refused-keeps, Ensures-mono, Ensures-call, and_then-keeps, transaction-keeps, Ensures-pure,
  Ensures-pure_bind, transaction, and_then, Ensures-modify, Error, Ensures-gets, Ensures, Outcome,
}

-- A prepared transfer that takes `down` cents off an account
inserted_row :
    (opening down : ℕ) (s : Db) (t : Transfer) (b' : Bank)
    → IsBacked opening s
    → t.id ≡ s.next_transfer
    → Moves t.player_uuid 0 down s.bank b'
    → withdrawn_cell t ≡ down + credited_cell t
    → IsBacked opening
        (record s { bank = b'; transfers = t ∷ s.transfers; next_transfer = suc s.next_transfer })
unfolding sum_of
inserted_row opening down s t b' h e moved w = record {
  consistent = record {
    reconciled = moved.reconciled h.consistent.reconciled;
    ids = h.consistent.ids;
    orders = h.consistent.orders;
    trades = h.consistent.trades;
  };
  keyed = IsKeyed-insert (λ (t : Transfer). t.id) s.next_transfer s.transfers t e h.keyed;
  backed = omega (arith, h.backed, moved.total, w);
}

prepare_body-IsBacked :
    (p : Uuid) (name : String) (d : TransferDirection) (amount units : ℕ) (before : Option ℤ)
    (opening : ℕ) (s : Db)
    → IsBacked opening s
    → Ensures (λ _ s'. IsBacked opening s') (prepare_body p name d amount units before s)
unfolding prepare_body
prepare_body-IsBacked p name TransferDirection.deposit amount units before opening s h =
    Ensures-gets _ _ _ _ (
      Ensures-modify _ _ _ _ (
        Ensures-pure_bind _ _ _ _ (
          Ensures-pure _ _ _
            (inserted_row opening 0 s _ s.bank h refl (Moves-refl p s.bank) refl))))
prepare_body-IsBacked p name TransferDirection.withdraw amount units before opening s h =
    Ensures-gets _ _ _ _ (
      Ensures-modify _ _ _ _ (
        Ensures-call _ _ _ _ (
          Ensures-on_bank _ _ _ (
            Ensures-mono _ _ _
              (debit-Moves p amount "UMONEY_WITHDRAW_RESERVED" "ECONOMY_TRANSFER"
                (some s.next_transfer) s.bank)
              λ _ b' moved. Ensures-pure _ _ _ (
                inserted_row opening amount s
                  (new_transfer p name TransferDirection.withdraw amount units before
                    s.next_transfer)
                  b' h refl moved (omega arith))))))

-- The accounts were opened with `opening` cents, or with the initial balance of one more.
unfoldable pub IsBackedSince : Service → ℕ → Db → Type 0
IsBackedSince c opening s = IsBacked opening s ⊎ IsBacked (opening + c.initial_balance_cents) s

opened-IsBackedSince :
    (c : Service) (p : Uuid) (name : String) (opening : ℕ) (s : Db)
    → IsBacked opening s
    → IsBackedSince c opening (ensure_account c p name s).1
unfolding IsBackedSince ensure_account
opened-IsBackedSince c p name opening s h = elim (Bool-cases (is_empty p)) [
  | inl e ↦ rw e (inl h)
  | inr e ↦ rw e (
      transaction-keeps (IsBackedSince c opening) _ s (inl h) (
        Ensures-on_bank _ _ s (
          Ensures-mono _ _ _ (ensure_account_row-Opens p name c.initial_balance_cents s.bank)
            λ _ b' o. at_bank b' o o.total)))
]
  where
    with_bank :
        (k : ℕ) (b' : Bank)
        → Opens c.initial_balance_cents s.bank b'
        → total_balance b' + opening ≡ total_balance s.bank + k
        → IsBacked k (record s { bank = b' })
    with_bank k b' o e = record {
      consistent = record {
        reconciled = o.reconciled h.consistent.reconciled;
        ids = h.consistent.ids;
        orders = h.consistent.orders;
        trades = h.consistent.trades;
      };
      keyed = h.keyed;
      backed = omega (arith, h.backed, e);
    }

    at_bank :
        (b' : Bank)
        → Opens c.initial_balance_cents s.bank b'
        → (total_balance b' ≡ total_balance s.bank)
          ⊎ (total_balance b' ≡ total_balance s.bank + c.initial_balance_cents)
        → IsBackedSince c opening (record s { bank = b' })
    at_bank b' o (inl e) = inl (with_bank opening b' o (omega arith))
    at_bank b' o (inr e) = inr (with_bank (opening + c.initial_balance_cents) b' o (omega arith))

reloaded-keeps : (I : Db → Type 0) (i : RowId) (s : Db) → I s → I (reloaded i s).1
unfolding reloaded
reloaded-keeps I i s h = go (find_transfer i s)
  where
    go :
        (o : Option Transfer)
        → I
            (elim o as (λ _. Outcome Db Transfer) [
              | some t ↦ (ok t, s)
              | none ↦ (err Error.row_not_reloaded, s)
            ]).1
    go none = h
    go (some t) = h

-- However `prepareEconomyTransfer` ends, money that was backed by an opening sum is backed by it, or by it
-- and the configured initial balance.
pub prepare_transfer-IsBacked :
    (c : Service) (p : Uuid) (name : String) (d : TransferDirection) (amount units : ℤ)
    (before : Option ℤ) (opening : ℕ) (s : Db)
    → IsBacked opening s
    → IsBackedSince c opening (prepare_transfer c p name d amount units before s).1
unfolding prepare_transfer IsBackedSince
prepare_transfer-IsBacked c p name d amount units before opening s h =
    refused-keeps (IsBackedSince c opening) (is_empty p || is_empty name) _ _ s (inl h) (
      refused-keeps (IsBackedSince c opening) (leb_ℤ amount (pos 0) || leb_ℤ units (pos 0)) _ _ s
        (inl h) served)
  where
    stored :
        (k : ℕ) (s' : Db)
        → IsBacked k s'
        → IsBacked k
            (and_then
              (transaction (prepare_body p name d (pos_part amount) (pos_part units) before))
              reloaded
              s').1
    stored k s' b =
        and_then-keeps (IsBacked k) _ _ s'
          (transaction-keeps (IsBacked k) _ s' b (prepare_body-IsBacked p name d _ _ before k s' b))
          (λ i u v. reloaded-keeps (IsBacked k) i u v)

    since :
        (s' : Db)
        → IsBackedSince c opening s'
        → IsBackedSince c opening
            (and_then
              (transaction (prepare_body p name d (pos_part amount) (pos_part units) before))
              reloaded
              s').1
    since s' (inl b) = inl (stored opening s' b)
    since s' (inr b) = inr (stored (opening + c.initial_balance_cents) s' b)

    served :
        IsBackedSince c opening
          (and_then
            (ensure_account c p name)
            (λ _.
              and_then
                (transaction (prepare_body p name d (pos_part amount) (pos_part units) before))
                reloaded)
            s).1
    served =
        and_then-keeps (IsBackedSince c opening) _ _ s (opened-IsBackedSince c p name opening s h)
          (λ _ s' k. since s' k)
