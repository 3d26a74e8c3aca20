-- ===== src/Umoney/Settled.antt =====
-- `processEconomyTransfer` of src/plugin.cpp and the balance that UMoney keeps.
use endstone_exchange.Common.{
  zero, suc, arith, Bool, true, false, ◌≡◌, ◌⊎◌, inl, inr, ℕ, String, Option, some, none, refl,
  Bool-cases, subst, ap, if◌then◌else◌,
}
use endstone_exchange.Common.Int.{ℤ, pos, neg_ℕ, ◌-ℤ◌, ◌+ℤ◌}
use endstone_exchange.Tx.{Result, ok, err, Error, Outcome, and_then}
use endstone_exchange.Tx.Run.{and_then-cases}
use endstone_exchange.Domain.{TransferStatus, TransferDirection, is_deposit, transfer_is_prepared}
use endstone_exchange.Store.{Db, Transfer}
use endstone_exchange.Transfers.{
  find_transfer, record_attempt, complete_transfer, mark_external_applied, block_transfer,
  fail_transfer,
}
use endstone_exchange.Transfers.Once.{IsCompleted, complete_transfer-IsCompleted}
use endstone_exchange.Transfers.Backing.{IsBacked}
use endstone_exchange.Umoney.{
  Gateway, Decision, decide_mutation, is_already_applied, delta_of, on_service, on_change, on_read,
  blocked, stopped, book_transfer, decided, attempt, apply_change, caught, process_transfer,
}
use endstone_exchange.Umoney.Once.{moved, decide_mutation-once, decide_mutation-applied}
use endstone_exchange.Umoney.Backed.{process_transfer-IsBacked}

already_applied_lem : (d : Decision) → is_already_applied d ≡ true → d ≡ Decision.already_applied
already_applied_lem Decision.already_applied h = refl
already_applied_lem d h = cc

below_zero : (n : ℕ) → neg_ℕ n ≡ pos 0 -ℤ pos n
unfolding ◌-ℤ◌
below_zero zero = refl
below_zero (suc n) = ground arith

above_zero : (n : ℕ) → pos n ≡ pos 0 +ℤ pos n
unfolding ◌+ℤ◌
above_zero n = ground arith

module _ {W : Type 0} (g : Gateway W) (what : Error → String) (t : Transfer) where
  -- What UMoney says that the player has
  abbrev pub Has : ℤ → W → Type 0
  Has b w = g.read t.player_name w ≡ ok (some b)

  -- The balance of the start, and the one that the transfer leads to
  abbrev pub IsChanged : ℤ → W → W → Type 0
  IsChanged before w w' =
      Has before w
      × (w' ≡ (g.change t.player_name (moved t.direction (pos t.amount_units) (pos 0)) w).1)

  -- UMoney as before, or changed once from the recorded balance of the start
  abbrev pub IsOnce : W → W → Type 0
  IsOnce w w' =
      (w' ≡ w)
      ⊎ ((before : ℤ) × (t.external_balance_before_units ≡ some before) × IsChanged before w w')

  -- What an answer `true` says
  abbrev pub IsSettled : Result Bool → Db → W → Type 0
  IsSettled (ok true) s' w' =
      IsCompleted t.id s'
      × ((before : ℤ) × (t.external_balance_before_units ≡ some before)
          × Has (moved t.direction (pos t.amount_units) before) w')
  IsSettled (ok false) s' w' = Unit
  IsSettled (err e) s' w' = Unit

  delta_lem : delta_of g what t ≡ moved t.direction (pos t.amount_units) (pos 0)
  delta_lem = go t.direction
    where
      go :
          (d : TransferDirection)
          → (if is_deposit d then neg_ℕ t.amount_units else pos t.amount_units)
            ≡ moved d (pos t.amount_units) (pos 0)
      go TransferDirection.deposit = below_zero t.amount_units
      go TransferDirection.withdraw = above_zero t.amount_units

  module _ (w : W) where
    Ends : Outcome (Db × W) Bool → Type 0
    Ends o = IsOnce w o.1.1 × IsSettled o.0 o.1.0 o.1.1

    stopped-Ends : (b : Bool) (e : Error) (x : Db × W) → IsOnce w x.1 → Ends (stopped g what b e x)
    unfolding Ends
    stopped-Ends true e x h = (h, tt)
    stopped-Ends false e x h = (h, tt)

    blocked-Ends :
        (b : Bool) (e : Error) (x : Db × W) → IsOnce w x.1 → Ends (blocked g what t b e x)
    unfolding Ends
    blocked-Ends b e x h =
        and_then-cases Ends (on_service g what (block_transfer t.id (what e))) _ x
          (λ _ _. stopped-Ends b e _ h) (λ _. (h, tt))

    book_transfer-Ends :
        (before v : ℤ) (x : Db × W)
        → t.external_balance_before_units ≡ some before
        → IsOnce w x.1
        → Has (moved t.direction (pos t.amount_units) before) x.1
        → Ends (book_transfer g what t v x)
    unfolding Ends book_transfer
    book_transfer-Ends before v x q h k =
        and_then-cases Ends (on_service g what (mark_external_applied t.id v)) _ x
          (λ _ _.
            and_then-cases Ends (on_service g what (complete_transfer t.id)) _ _
              (λ b e. (h, (complete_transfer-IsCompleted t.id b _ e, (before, q, k))))
              (λ _. (h, tt)))
          (λ _. (h, tt))

    -- A balance that was read, or an exception
    on_read-Ends :
        (f : ℤ → Db × W → Outcome (Db × W) Bool) (x : Db × W)
        → IsOnce w x.1
        → ((b : ℤ) → Has b x.1 → Ends (f b x))
        → Ends (and_then (on_read g what t.player_name) f x)
    unfolding Ends and_then
    on_read-Ends f (s, u) h k = go (g.read t.player_name u) refl
      where
        read_of : Result (Option ℤ) → Outcome (Db × W) ℤ
        read_of r = elim r as (λ _. Outcome (Db × W) ℤ) [
          | err e ↦ (err e, (s, u))
          | ok none ↦ (err Error.account_missing, (s, u))
          | ok (some b) ↦ (ok b, (s, u))
        ]

        go :
            (r : Result (Option ℤ))
            → g.read t.player_name u ≡ r
            → Ends (elim (read_of r).0 as (λ _. Outcome (Db × W) Bool) [
              | ok a ↦ f a (read_of r).1
              | err e ↦ (err e, (read_of r).1)
            ])
        go (err e) q = (h, tt)
        go (ok none) q = (h, tt)
        go (ok (some b)) q = k b q

    book_where :
        (before v current : ℤ) (x : Db × W)
        → t.external_balance_before_units ≡ some before
        → IsOnce w x.1
        → Has current x.1
        → decide_mutation t.direction (pos t.amount_units) before current ≡ Decision.already_applied
        → Ends (book_transfer g what t v x)
    book_where before v current x q h k e = book_transfer-Ends before v x q h (
        subst (λ b. Has b x.1)
          (decide_mutation-applied t.direction (pos t.amount_units) before current e) k)

    apply_change-Ends :
        (before : ℤ) (s : Db)
        → t.external_balance_before_units ≡ some before
        → Has before w
        → Ends (apply_change g what t before (s, w))
    unfolding Ends apply_change
    apply_change-Ends before s q k =
        and_then-cases Ends (on_change g what t.player_name (delta_of g what t)) _ (s, w)
          (λ _ _. on_read-Ends _ _ changed λ b n.
            elim (Bool-cases
              (is_already_applied (decide_mutation t.direction (pos t.amount_units) before b))) [
                | inl e ↦ rw e (book_where before b b _ q changed n (already_applied_lem _ e))
                | inr e ↦ rw e (
                    and_then-cases Ends
                      (on_service g what (block_transfer t.id (what Error.transfer_not_applied))) _
                      _ (λ _ _. (changed, tt)) (λ _. (changed, tt)))
              ])
          (λ _. (changed, tt))
      where
        changed : IsOnce w (g.change t.player_name (delta_of g what t) w).1
        changed = inr (before, q, (k, ap (λ d. (g.change t.player_name d w).1) delta_lem))

    decided-Ends :
        (b : Bool) (before current : ℤ) (d : Decision) (s : Db)
        → t.external_balance_before_units ≡ some before
        → Has current w
        → decide_mutation t.direction (pos t.amount_units) before current ≡ d
        → Ends (decided g what t b before current d (s, w))
    unfolding decided Ends
    decided-Ends b before current Decision.insufficient s q k e =
        and_then-cases Ends
          (on_service g what (fail_transfer t.id (what Error.insufficient_balance))) _ (s, w)
          (λ _ _. stopped-Ends b Error.insufficient_balance _ (inl refl)) (λ _. (inl refl, tt))
    decided-Ends b before current Decision.conflict s q k e =
        blocked-Ends b Error.transfer_not_applied (s, w) (inl refl)
    decided-Ends b before current Decision.apply s q k e = apply_change-Ends before s q (
        subst (λ c. Has c w)
          (decide_mutation-once t.direction (pos t.amount_units) before current e).0 k)
    decided-Ends b before current Decision.already_applied s q k e =
        book_where before current current (s, w) q (inl refl) k e

    caught-Ends : (b : Bool) (r : Outcome (Db × W) Bool) → Ends r → Ends (caught g what t b r)
    unfolding caught Ends
    caught-Ends b (ok v, x) h = h
    caught-Ends b (err e, (s, u)) h = go (find_transfer t.id s)
      where
        go :
            (o : Option Transfer)
            → Ends (elim o as (λ _. Outcome (Db × W) Bool) [
              | none ↦ stopped g what b e (s, u)
              | some t' ↦
                  if transfer_is_prepared t'.status
                  then and_then
                      (on_service g what (record_attempt t.id (what e)))
                      (λ _. stopped g what b e)
                      (s, u)
                  else stopped g what b e (s, u)
            ])
        go none = stopped-Ends b e (s, u) h.0
        go (some t') = elim (Bool-cases (transfer_is_prepared t'.status)) [
          | inl z ↦ rw z (
              and_then-cases Ends (on_service g what (record_attempt t.id (what e))) _ (s, u)
                (λ _ _. stopped-Ends b e _ h.0) (λ _. (h.0, tt)))
          | inr z ↦ rw z (stopped-Ends b e (s, u) h.0)
        ]

    prepared-Ends :
        (b : Bool) (s : Db)
        → t.status ≡ TransferStatus.prepared
        → Ends (process_transfer g what t b (s, w))
    unfolding process_transfer attempt Ends
    prepared-Ends b s p = rw p (from t.external_balance_before_units refl)
      where
        from :
            (o : Option ℤ)
            → t.external_balance_before_units ≡ o
            → Ends (elim o as (λ _. Outcome (Db × W) Bool) [
              | none ↦ blocked g what t b Error.transfer_not_applied (s, w)
              | some before ↦ attempt g what t b before (s, w)
            ])
        from none q = blocked-Ends b Error.transfer_not_applied (s, w) (inl refl)
        from (some before) q = caught-Ends b _ (
            on_read-Ends _ (s, w) (inl refl)
              λ current k. decided-Ends b before current _ s q k refl)

  -- However `processEconomyTransfer` ends on a prepared transfer, and whatever the UMoney plugin answers, throws or
  -- does: money that was backed by an opening sum is backed by it; UMoney is as before, or was changed once,
  -- by the units of the transfer, off the player for a deposit, where the player had the balance that the
  -- transfer recorded; and an answer `true` means that the transfer is completed and the player has in UMoney the
  -- recorded balance with that change.
  pub process_transfer-IsSettled :
      (opening : ℕ) (throw_on_failure : Bool) (s : Db) (w : W)
      → t.status ≡ TransferStatus.prepared
      → IsBacked opening s
      → IsBacked opening (process_transfer g what t throw_on_failure (s, w)).1.0
        × IsOnce w (process_transfer g what t throw_on_failure (s, w)).1.1
        × IsSettled
            (process_transfer g what t throw_on_failure (s, w)).0
            (process_transfer g what t throw_on_failure (s, w)).1.0
            (process_transfer g what t throw_on_failure (s, w)).1.1
  unfolding Ends
  process_transfer-IsSettled opening b s w p h =
      let (once, settled) = prepared-Ends w b s p in
      (process_transfer-IsBacked g what opening t b s w h, once, settled)
