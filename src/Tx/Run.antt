-- ===== src/Tx/Run.antt =====
-- The rules by which a body is run: what it comes to, where its tests and its reads are known.
use endstone_exchange.Common.{subst, ap, ◌≡◌, refl, Bool, true, false, Option, some, if◌then◌else◌}
use endstone_exchange.Tx.{
  Outcome, and_then, Ensures, Result, ok, err, Tx, Error, ◌>>=◌, throw_if, gets, or_throw, modify,
  transaction,
}

module _ {S A : Type 0} {r : Result (A × S)} where
  pub run-guard :
      (c : Bool) (e : Error) (k : Tx S A) (s : S)
      → c ≡ false
      → k s ≡ r
      → (throw_if c e >>= λ _. k) s ≡ r
  unfolding ◌>>=◌ throw_if
  run-guard true e k s h g = cc
  run-guard false e k s h g = g

  pub run-gets :
      {B : Type 0} (f : S → B) (k : B → Tx S A) (s : S) → k (f s) s ≡ r → (gets f >>= k) s ≡ r
  unfolding ◌>>=◌ gets
  run-gets f k s g = g

  pub run-or_throw :
      {B : Type 0} (o : Option B) (e : Error) (b : B) (k : B → Tx S A) (s : S)
      → o ≡ some b
      → k b s ≡ r
      → (or_throw o e >>= k) s ≡ r
  unfolding ◌>>=◌ or_throw
  run-or_throw o e b k s h g = rw h g

  pub run-modify : (f : S → S) (k : Tx S A) (s : S) → k (f s) ≡ r → (modify f >>= λ _. k) s ≡ r
  unfolding ◌>>=◌ modify
  run-modify f k s g = g

  pub run-bind :
      {B : Type 0} (m : Tx S B) (b : B) (k : B → Tx S A) (s s' : S)
      → m s ≡ ok (b, s')
      → k b s' ≡ r
      → (m >>= k) s ≡ r
  unfolding ◌>>=◌
  run-bind m b k s s' h g = rw (◌>>=◌, h) g

  pub run-true : (c : Bool) (m k : Tx S A) (s : S) → c ≡ true → m s ≡ r → (if c then m else k) s ≡ r
  run-true true m k s h g = g
  run-true false m k s h g = cc

  pub run-false :
      (c : Bool) (m k : Tx S A) (s : S) → c ≡ false → k s ≡ r → (if c then m else k) s ≡ r
  run-false true m k s h g = cc
  run-false false m k s h g = g

  pub run_assoc :
      {B C : Type 0} (m : Tx S B) (f : B → Tx S C) (k : C → Tx S A) (s : S)
      → (m >>= λ b. (f b >>= k)) s ≡ r
      → ((m >>= f) >>= k) s ≡ r
  unfolding ◌>>=◌
  run_assoc {B = B} {C = C} m f k s g = go (m s) g
    where
      go :
          (x : Result (B × S))
          → elim x as (λ _. Result (A × S)) [ ok (b, s') ↦ (f b >>= k) s' | err e ↦ err e ] ≡ r
          → elim (elim x as (λ _. Result (C × S)) [ ok (b, s') ↦ f b s' | err e ↦ err e ])
              as (λ _. Result (A × S)) [ ok (c, s') ↦ k c s' | err e ↦ err e ]
            ≡ r
      go (ok (b, s')) h = h
      go (err e) h = h

pub run-transaction :
    {S A : Type 0} (m : Tx S A) (s s' : S) (a : A) → m s ≡ ok (a, s') → transaction m s ≡ (ok a, s')
unfolding transaction
run-transaction m s s' a h = rw (transaction, h) refl

abbrev result_or {ℓ} : {A : Type ℓ} → A → Result A → A
result_or a (ok b) = b
result_or a (err e) = a

ok-injective : {A : Type 0} (a b : A) → ok a ≡ ok b → a ≡ b
ok-injective a b h = ap (result_or a) h

-- What a body ensures of its results, a transaction that goes through has.
pub transaction-Ensures {κ} :
    {S A : Type 0} (P : A → S → Type κ) (m : Tx S A) (s : S) (a : A)
    → Ensures P (m s)
    → (transaction m s).0 ≡ ok a
    → P a (transaction m s).1
unfolding transaction
transaction-Ensures {S = S} {A = A} P m s a h = go (m s) h
  where
    run : Result (A × S) → Outcome S A
    run r = elim r as (λ _. Outcome S A) [ ok (b, s') ↦ (ok b, s') | err e ↦ (err e, s) ]

    go : (r : Result (A × S)) → Ensures P r → (run r).0 ≡ ok a → P a (run r).1
    go (ok (b, s')) p k = subst (λ x. P x s') (ok-injective b a k) p
    go (err e) p k = cc

-- A call behind another one, by what the first one gives
pub and_then-cases {κ} :
    {S A B : Type 0} (P : Outcome S B → Type κ) (m : S → Outcome S A) (f : A → S → Outcome S B)
    (s : S)
    → ((a : A) → (m s).0 ≡ ok a → P (f a (m s).1))
    → ((e : Error) → P (err e, (m s).1))
    → P (and_then m f s)
unfolding and_then
and_then-cases {S = S} {A = A} {B = B} P m f s good bad = go (m s).0 refl
  where
    go :
        (r : Result A)
        → (m s).0 ≡ r
        → P (elim r as (λ _. Outcome S B) [ ok a ↦ f a (m s).1 | err e ↦ (err e, (m s).1) ])
    go (ok a) e = good a e
    go (err x) e = bad x
