-- ===== src/Tx.antt =====
-- What the operations of the service return: a value, or one of the exceptions that
-- src/exchange_service.cpp throws, named after its message. `Tx` is the body of a database
-- transaction and `transaction` is the RAII class `Transaction` of src/database.cpp, whose destructor
-- rolls back what was not committed.
pub mod Run
use endstone_exchange.Common.{
  ap, sym, subst, ◌≡◌, refl, Bool, true, false, Option, none, some, if◌then◌else◌,
}

pub data Error : Type 0 where
  product_too_large player_uuid_empty account_missing balance_negative balance_too_large : Error
  insufficient_balance credit_account_missing ledger_reason_empty value_out_of_range : Error
  order_identity_incomplete quantity_out_of_range limit_price_not_positive : Error
  market_incomplete target_already_active market_missing market_not_active book_missing : Error
  binding_missing book_identity_changed reserve_invariant_failed : Error
  order_missing order_of_another_player order_not_open : Error
  query_limit_out_of_range depth_out_of_range market_id_list_empty market_id_not_positive : Error
  delivery_claim_incomplete delivery_missing delivery_of_another_player delivery_exhausted : Error
  delivered_quantity_negative claim_missing claim_completed_differently claim_exceeded : Error
  delivery_reservation_failed applied_claim_missing : Error
  escrow_side_not_sell tagged_quantities_not_positive escrow_missing tagged_less_than_order : Error
  escrow_not_waiting_for_tags escrow_order_missing escrow_not_ready escrow_not_prepared : Error
  ordered_escrow_missing : Error
  transfer_identity_incomplete transfer_amount_not_positive transfer_missing : Error
  transfer_failed_or_blocked transfer_failed transfer_not_applied transfer_applied : Error
  prepared_transfer_missing row_not_reloaded fingerprint_collision : Error
  listing_incomplete listing_settling listing_of_another_seller listing_missing : Error
  listing_paid purchase_incomplete listing_unavailable listing_price_changed : Error
  listing_own_purchase listing_unbound purchase_account_missing listing_unpaid : Error
  listing_not_awaiting_pickup only_buy_orders_need_funding funding_too_large : Error

pub data Result {ℓ} (A : Type ℓ) : Type ℓ where
  ok : A → Result A
  err : Error → Result A

abbrev pub Tx : Type 0 → Type 0 → Type 0
Tx S A = S → Result (A × S)

infixl 5 ◌>>=◌ ◌>>◌
unfoldable pub ◌>>=◌ : {S A B : Type 0} → Tx S A → (A → Tx S B) → Tx S B
◌>>=◌ m f s = elim (m s) [ ok (a, s') ↦ f a s' | err e ↦ err e ]

abbrev pub ◌>>◌ : {S B : Type 0} → Tx S (Unit {0}) → Tx S B → Tx S B
m >> k = m >>= λ _. k

module _ {S A : Type 0} where
  unfoldable pub pure : A → Tx S A
  pure a s = ok (a, s)

  unfoldable pub throw : Error → Tx S A
  throw e s = err e

  unfoldable pub lift : Result A → Tx S A
  lift (ok a) s = ok (a, s)
  lift (err e) s = err e

  unfoldable pub or_throw : Option A → Error → Tx S A
  or_throw none e s = err e
  or_throw (some a) e s = ok (a, s)

module _ {S : Type 0} where
  unfoldable pub throw_if : Bool → Error → Tx S (Unit {0})
  throw_if true e s = err e
  throw_if false e s = ok (tt, s)

  unfoldable pub gets : {A : Type 0} → (S → A) → Tx S A
  gets f s = ok (f s, s)

  unfoldable pub modify : (S → S) → Tx S (Unit {0})
  modify f s = ok (tt, f s)

-- What a caller sees of a call: its result or exception, and the database after it.
abbrev pub Outcome : Type 0 → Type 0 → Type 0
Outcome S A = Result A × S

-- A committed body keeps its writes; an exception leaves the database as it was.
unfoldable pub transaction : {S A : Type 0} → Tx S A → S → Outcome S A
transaction m s = elim (m s) [ ok (a, s') ↦ (ok a, s') | err e ↦ (err e, s) ]

-- A call after another call, each with transactions of its own: an exception of the first stops.
unfoldable pub and_then :
    {S A B : Type 0} → (S → Outcome S A) → (A → S → Outcome S B) → S → Outcome S B
and_then m f s = let (r, s') = m s in elim r [ ok a ↦ f a s' | err e ↦ (err e, s') ]

-- The postcondition of a body: it constrains the results, and an exception meets it.
abbrev pub Ensures {κ} : {S A : Type 0} → (A → S → Type κ) → Result (A × S) → Type κ
Ensures P (ok (a, s)) = P a s
Ensures P (err e) = Unit

-- The rules by which a body is read statement by statement.
module _ {κ} {S A : Type 0} (P : A → S → Type κ) where
  pub Ensures-bind {μ} :
      {B : Type 0} (R : B → S → Type μ) (m : Tx S B) (f : B → Tx S A) (s : S)
      → Ensures R (m s)
      → ((b : B) (s' : S) → R b s' → Ensures P (f b s'))
      → Ensures P ((m >>= f) s)
  unfolding ◌>>=◌
  Ensures-bind {B = B} R m f s h k = go (m s) h
    where
      go :
          (r : Result (B × S))
          → Ensures R r
          → Ensures P (elim r as (λ _. Result (A × S)) [ ok (a, s') ↦ f a s' | err e ↦ err e ])
      go (ok (a, s')) p = k a s' p
      go (err e) p = tt

  pub Ensures-pure : (a : A) (s : S) → P a s → Ensures P (pure a s)
  unfolding pure
  Ensures-pure a s h = h

  pub Ensures-throw : (e : Error) (s : S) → Ensures P (throw e s)
  unfolding throw
  Ensures-throw e s = tt

  -- Behind a test that throws, the rest of the body runs where the test fails.
  pub Ensures-guard :
      (c : Bool) (e : Error) (k : Tx S A) (s : S)
      → (c ≡ false → Ensures P (k s))
      → Ensures P ((throw_if c e >>= λ _. k) s)
  unfolding ◌>>=◌ throw_if
  Ensures-guard true e k s h = tt
  Ensures-guard false e k s h = h refl

  pub Ensures-if :
      (c : Bool) (m k : Tx S A) (s : S)
      → (c ≡ true → Ensures P (m s))
      → (c ≡ false → Ensures P (k s))
      → Ensures P ((if c then m else k) s)
  Ensures-if true m k s h g = h refl
  Ensures-if false m k s h g = g refl

  pub Ensures-gets :
      {B : Type 0} (f : S → B) (k : B → Tx S A) (s : S)
      → Ensures P (k (f s) s)
      → Ensures P ((gets f >>= k) s)
  unfolding ◌>>=◌ gets
  Ensures-gets f k s h = h

  pub Ensures-modify :
      (f : S → S) (k : Tx S A) (s : S) → Ensures P (k (f s)) → Ensures P ((modify f >>= λ _. k) s)
  unfolding ◌>>=◌ modify
  Ensures-modify f k s h = h

  pub Ensures-lift :
      {B : Type 0} (r : Result B) (k : B → Tx S A) (s : S)
      → ((b : B) → r ≡ ok b → Ensures P (k b s))
      → Ensures P ((lift r >>= k) s)
  unfolding ◌>>=◌ lift
  Ensures-lift (ok b) k s h = h b refl
  Ensures-lift (err e) k s h = tt

  pub Ensures-or_throw :
      {B : Type 0} (o : Option B) (e : Error) (k : B → Tx S A) (s : S)
      → ((b : B) → o ≡ some b → Ensures P (k b s))
      → Ensures P ((or_throw o e >>= k) s)
  unfolding ◌>>=◌ or_throw
  Ensures-or_throw none e k s h = tt
  Ensures-or_throw (some b) e k s h = h b refl

module _ {κ} {S A B C : Type 0} (P : A → S → Type κ) where
  pub Ensures-assoc :
      (m : Tx S B) (f : B → Tx S C) (k : C → Tx S A) (s : S)
      → Ensures P ((m >>= λ b. (f b >>= k)) s)
      → Ensures P (((m >>= f) >>= k) s)
  unfolding ◌>>=◌
  Ensures-assoc m f k s h = go (m s) h
    where
      go :
          (r : Result (B × S))
          → Ensures P
              (elim r as (λ _. Result (A × S)) [ ok (b, s') ↦ (f b >>= k) s' | err e ↦ err e ])
          → Ensures P
              (elim (elim r as (λ _. Result (C × S)) [ ok (b, s') ↦ f b s' | err e ↦ err e ])
                as (λ _. Result (A × S)) [ ok (c, s') ↦ k c s' | err e ↦ err e ])
      go (ok (b, s')) p = p
      go (err e) p = tt

module _ {κ} {S A B : Type 0} (P : A → S → Type κ) where
  pub Ensures-pure_bind :
      (b : B) (k : B → Tx S A) (s : S) → Ensures P (k b s) → Ensures P ((pure b >>= k) s)
  unfolding ◌>>=◌ pure
  Ensures-pure_bind b k s h = h

  -- A call of a body: its postcondition is what the rest needs.
  pub Ensures-call :
      (m : Tx S B) (k : B → Tx S A) (s : S)
      → Ensures (λ b s'. Ensures P (k b s')) (m s)
      → Ensures P ((m >>= k) s)
  Ensures-call m k s h = Ensures-bind P (λ b s'. Ensures P (k b s')) m k s h (λ b s' g. g)

  -- A statement that only reads.
  pub Ensures-reader :
      (m : Tx S B) (k : B → Tx S A) (s : S)
      → Ensures (λ _ s'. s' ≡ s) (m s)
      → ((b : B) → Ensures P (k b s))
      → Ensures P ((m >>= k) s)
  Ensures-reader m k s h f =
      Ensures-bind P (λ _ s'. s' ≡ s) m k s h
        (λ b s' e. subst (λ x. Ensures P (k b x)) (sym e) (f b))

pub Ensures-modify_last {κ} :
    {S : Type 0} (P : Unit {0} → S → Type κ) (f : S → S) (s : S)
    → P tt (f s)
    → Ensures P (modify f s)
unfolding modify
Ensures-modify_last P f s h = h

pub Ensures-mono {κ μ} :
    {S A : Type 0} (P : A → S → Type κ) (Q : A → S → Type μ) (r : Result (A × S))
    → Ensures P r
    → ((a : A) (s : S) → P a s → Q a s)
    → Ensures Q r
Ensures-mono P Q (ok (a, s)) h k = k a s h
Ensures-mono P Q (err e) h k = tt

-- The postcondition of a check that touches no database.
abbrev pub Returns {ℓ κ} : {A : Type ℓ} → (A → Type κ) → Result A → Type κ
Returns P (ok a) = P a
Returns P (err e) = Unit

pub Returns-if {ℓ κ} :
    {A : Type ℓ} (P : A → Type κ) (c : Bool) (e : Error) (r : Result A)
    → (c ≡ false → Returns P r)
    → Returns P (if c then err e else r)
Returns-if P true e r h = tt
Returns-if P false e r h = h refl

-- A body that keeps a property of the database keeps it as a transaction, also where it throws.
pub transaction-keeps {κ} :
    {S A : Type 0} (I : S → Type κ) (m : Tx S A) (s : S)
    → I s
    → Ensures (λ _ s'. I s') (m s)
    → I (transaction m s).1
unfolding transaction
transaction-keeps {S = S} {A = A} I m s i h = go (m s) h
  where
    go :
        (r : Result (A × S))
        → Ensures (λ _ s'. I s') r
        → I (elim r as (λ _. Outcome S A) [ ok (a, s') ↦ (ok a, s') | err e ↦ (err e, s) ]).1
    go (ok (a, s')) p = p
    go (err e) p = i

pub and_then-keeps {κ} :
    {S A B : Type 0} (I : S → Type κ) (m : S → Outcome S A) (f : A → S → Outcome S B) (s : S)
    → I (m s).1
    → ((a : A) (s' : S) → I s' → I (f a s').1)
    → I (and_then m f s).1
unfolding and_then
and_then-keeps {S = S} {A = A} {B = B} I m f s h k = go (m s).0 h
  where
    go :
        (r : Result A)
        → I (m s).1
        → I (elim r as (λ _. Outcome S B) [ ok a ↦ f a (m s).1 | err e ↦ (err e, (m s).1) ]).1
    go (ok a) p = k a (m s).1 p
    go (err e) p = p

-- A test that refuses a call before anything is done.
pub refused-keeps {κ} :
    {S A : Type 0} (I : S → Type κ) (b : Bool) (e : Error) (x : Outcome S A) (s : S)
    → I s
    → I x.1
    → I (if b then (err e, s) else x).1
refused-keeps I true e x s h k = h
refused-keeps I false e x s h k = k

-- A body that would answer the same again and change nothing more, run twice
pub transaction-again :
    {S A : Type 0} (m : Tx S A) (s : S) (a : A)
    → Ensures (λ b s'. m s' ≡ ok (b, s')) (m s)
    → (transaction m s).0 ≡ ok a
    → transaction m (transaction m s).1 ≡ (ok a, (transaction m s).1)
unfolding transaction
transaction-again {S = S} {A = A} m s a h = go (m s) h
  where
    run : Result (A × S) → S → Outcome S A
    run r t = elim r as (λ _. Outcome S A) [ ok (b, s') ↦ (ok b, s') | err e ↦ (err e, t) ]

    go :
        (r : Result (A × S))
        → Ensures (λ b s'. m s' ≡ ok (b, s')) r
        → (run r s).0 ≡ ok a
        → run (m (run r s).1) (run r s).1 ≡ (ok a, (run r s).1)
    go (ok (b, s')) e k = rw e (ap (λ x. (x, s')) k)
    go (err e) x k = cc
