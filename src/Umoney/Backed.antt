-- ===== src/Umoney/Backed.antt =====
-- `processEconomyTransfer` of src/plugin.cpp and the internal money.
use endstone_exchange.Transfers.{find_transfer, record_attempt}
use endstone_exchange.Domain.{
  transfer_is_external_applied, transfer_is_completed, transfer_is_prepared,
}
use endstone_exchange.Transfers.Backing.{IsBacked}
use endstone_exchange.Transfers.Steps.{
  record_attempt-IsBacked, complete_transfer-IsBacked, block_transfer-IsBacked,
  mark_external_applied-IsBacked, fail_transfer-IsBacked,
}
use endstone_exchange.Common.Int.{pos, ℤ}
use endstone_exchange.Store.{Db, Transfer}
use endstone_exchange.Umoney.{
  process_transfer, decide_mutation, is_already_applied, delta_of, on_service, on_change, Decision,
  blocked, stopped, on_read, book_transfer, decided, attempt, apply_change, caught, Gateway,
}
use endstone_exchange.Common.{
  inr, inl, Bool-cases, refl, true, false, ◌≡◌, ℕ, String, Bool, Option, none, some, if◌then◌else◌,
}
use endstone_exchange.Tx.{and_then, and_then-keeps, Result, ok, err, Error, Outcome}

module _ {W : Type 0} (g : Gateway W) (what : Error → String) (opening : ℕ) where
  Backed : Db × W → Type 0
  Backed x = IsBacked opening x.0

  stopped-keeps : (b : Bool) (e : Error) (x : Db × W) → Backed x → Backed (stopped g what b e x).1
  unfolding Backed
  stopped-keeps true e x h = h
  stopped-keeps false e x h = h

  blocked-keeps :
      (t : Transfer) (b : Bool) (e : Error) (x : Db × W)
      → Backed x
      → Backed (blocked g what t b e x).1
  unfolding Backed
  blocked-keeps t b e x h =
      and_then-keeps Backed _ _ x (block_transfer-IsBacked t.id (what e) opening x.0 h)
        λ _ y k. stopped-keeps b e y k

  book_transfer-keeps :
      (t : Transfer) (v : ℤ) (x : Db × W) → Backed x → Backed (book_transfer g what t v x).1
  unfolding Backed book_transfer
  book_transfer-keeps t v x h =
      and_then-keeps Backed _ _ x (mark_external_applied-IsBacked t.id v opening x.0 h) λ _ y k.
        and_then-keeps Backed _ _ y (complete_transfer-IsBacked t.id opening y.0 k) λ _ z m. m

  on_read-keeps : (name : String) (x : Db × W) → Backed x → Backed (on_read g what name x).1
  unfolding Backed
  on_read-keeps name (s, w) h = go (g.read name w)
    where
      go :
          (r : Result (Option ℤ))
          → IsBacked opening
              (elim r as (λ _. Outcome (Db × W) ℤ) [
                | err e ↦ (err e, (s, w))
                | ok none ↦ (err Error.account_missing, (s, w))
                | ok (some b) ↦ (ok b, (s, w))
              ]).1.0
      go (err e) = h
      go (ok none) = h
      go (ok (some b)) = h

  apply_change-keeps :
      (t : Transfer) (before : ℤ) (x : Db × W)
      → Backed x
      → Backed (apply_change g what t before x).1
  unfolding Backed apply_change
  apply_change-keeps t before x h =
      and_then-keeps Backed (on_change g what t.player_name (delta_of g what t)) _ x h λ _ y k.
        and_then-keeps Backed _ _ y (on_read-keeps t.player_name y k) λ v z m.
          elim (Bool-cases
            (is_already_applied (decide_mutation t.direction (pos t.amount_units) before v))) [
              | inl e ↦ rw e (book_transfer-keeps t v z m)
              | inr e ↦ rw e (
                  and_then-keeps Backed _ _ z
                    (block_transfer-IsBacked t.id (what Error.transfer_not_applied) opening z.0 m)
                    λ _ u n. n)
            ]

  decided-keeps :
      (t : Transfer) (b : Bool) (before current : ℤ) (d : Decision) (x : Db × W)
      → Backed x
      → Backed (decided g what t b before current d x).1
  unfolding decided Backed
  decided-keeps t b before current Decision.insufficient x h =
      and_then-keeps Backed _ _ x
        (fail_transfer-IsBacked t.id (what Error.insufficient_balance) opening x.0 h)
        λ _ y k. stopped-keeps b Error.insufficient_balance y k
  decided-keeps t b before current Decision.conflict x h =
      blocked-keeps t b Error.transfer_not_applied x h
  decided-keeps t b before current Decision.apply x h = apply_change-keeps t before x h
  decided-keeps t b before current Decision.already_applied x h = book_transfer-keeps t current x h

  caught-keeps :
      (t : Transfer) (b : Bool) (r : Outcome (Db × W) Bool)
      → Backed r.1
      → Backed (caught g what t b r).1
  unfolding caught Backed
  caught-keeps t b (ok v, x) h = h
  caught-keeps t b (err e, (s, w)) h = go (find_transfer t.id s)
    where
      go :
          (o : Option Transfer)
          → IsBacked opening
              (elim o as (λ _. Outcome (Db × W) Bool) [
                | none ↦ stopped g what b e (s, w)
                | some t' ↦
                    if transfer_is_prepared t'.status
                    then and_then
                        (on_service g what (record_attempt t.id (what e)))
                        (λ _. stopped g what b e)
                        (s, w)
                    else stopped g what b e (s, w)
              ]).1.0
      go none = stopped-keeps b e (s, w) h
      go (some t') = elim (Bool-cases (transfer_is_prepared t'.status)) [
        | inl z ↦ rw z (
            and_then-keeps Backed _ _ (s, w) (record_attempt-IsBacked t.id (what e) opening s h)
              λ _ y k. stopped-keeps b e y k)
        | inr z ↦ rw z (stopped-keeps b e (s, w) h)
      ]

  attempt-keeps :
      (t : Transfer) (b : Bool) (before : ℤ) (x : Db × W)
      → Backed x
      → Backed (attempt g what t b before x).1
  unfolding attempt
  attempt-keeps t b before x h = caught-keeps t b _ (
      and_then-keeps Backed _ _ x (on_read-keeps t.player_name x h)
        λ current y k. decided-keeps t b before current _ y k)

  -- However `processEconomyTransfer` ends, and whatever the UMoney plugin answers, throws or does, money
  -- that was backed by an opening sum is backed by it.
  pub process_transfer-IsBacked :
      (t : Transfer) (throw_on_failure : Bool) (s : Db) (w : W)
      → IsBacked opening s
      → IsBacked opening (process_transfer g what t throw_on_failure (s, w)).1.0
  unfolding process_transfer Backed
  process_transfer-IsBacked t b s w h =
      choose (transfer_is_completed t.status) _ _ (λ _. h)
        (λ _.
          choose (transfer_is_external_applied t.status) _ _
            (λ _.
              and_then-keeps Backed _ _ (s, w) (complete_transfer-IsBacked t.id opening s h)
                λ _ y k. k)
            (λ _.
              choose (transfer_is_prepared t.status) _ _
                (λ _. from (t.external_balance_before_units)) (λ _. h)))
    where
      choose :
          (c : Bool) (x y : Outcome (Db × W) Bool)
          → (c ≡ true → IsBacked opening x.1.0)
          → (c ≡ false → IsBacked opening y.1.0)
          → IsBacked opening (if c then x else y).1.0
      choose true x y p q = p refl
      choose false x y p q = q refl

      from :
          (o : Option ℤ)
          → IsBacked opening
              (elim o as (λ _. Outcome (Db × W) Bool) [
                | none ↦ blocked g what t b Error.transfer_not_applied (s, w)
                | some before ↦ attempt g what t b before (s, w)
              ]).1.0
      from none = blocked-keeps t b Error.transfer_not_applied (s, w) h
      from (some before) = attempt-keeps t b before (s, w) h
