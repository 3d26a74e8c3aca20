-- ===== src/Umoney/Funded.antt =====
-- `fundDirectBalance` of src/plugin.cpp, the internal money and the balance of the player.
use endstone_exchange.Domain.{TransferDirection}
use endstone_exchange.Common.Int.{pos_part, leb_ℤ, ltb_ℤ, pos, ◌≤ℤ◌, ℤ}
use endstone_exchange.Store.{Transfer, Db}
use endstone_exchange.Bank.{Uuid}
use endstone_exchange.Common.{
  ◌/◌, ltb, ◌-◌, ◌||◌, ◌==◌, ◌*◌, sym, Option, subst, arith, Bool-cases, if◌then◌else◌, ◌+◌, inr,
  ◌⊎◌, inl, Bool, ◌≡◌, ℕ, String, some, none, false, true, refl,
}
use endstone_exchange.Tx.{Result, ok, err, Error, Outcome, and_then}
use endstone_exchange.Matching.{Service}
use endstone_exchange.Markets.Views.{balance}
use endstone_exchange.Transfers.Backing.{IsBacked}
use endstone_exchange.Transfers.Prepare.{IsBackedSince, prepare_transfer-IsBacked}
use endstone_exchange.Umoney.{Gateway, on_service, on_read, process_transfer}
use endstone_exchange.Umoney.Backed.{process_transfer-IsBacked}
use endstone_exchange.Store.{on_bank, Db}
use endstone_exchange.Bank.{locked_balance, Uuid}
use endstone_exchange.Tx.{transaction}
use endstone_exchange.Bank.Opening.{locked_balance-same}
use endstone_exchange.Tx.{Ensures}
use endstone_exchange.Bank.{Bank}
use endstone_exchange.Money.{cents_max}
use endstone_exchange.Umoney.Direct.{
  fund_shortage, fund_from, too_large, units_for, unit_cents, fund_direct, deposit_units,
  confirm_funding,
}

-- A read of the balance changes nothing.
balance_read : (p : Uuid) (s : Db) → (q : Result ℕ) × (balance p s ≡ (q, s))
unfolding balance transaction on_bank
balance_read p s = go (locked_balance p s.bank) (locked_balance-same p s.bank)
  where
    go :
        (r : Result (ℕ × Bank))
        → Ensures (λ _ b. b ≡ s.bank) r
        → (q : Result ℕ) × (elim (elim r as (λ _. Result (ℕ × Db)) [
          | ok (a, b) ↦ ok (a, record s { bank = b })
          | err e ↦ err e
        ])
              as (λ _. Outcome Db ℕ) [ ok (a, s') ↦ (ok a, s') | err e ↦ (err e, s) ]
            ≡ (q, s))
    go (ok (a, b)) h = (ok a, λ i. (ok a, record s { bank = h i }))
    go (err e) h = (err e, refl)

-- A call behind a read of the balance, and one behind a read of UMoney, both of which change nothing
module _ {W : Type 0} (g : Gateway W) (what : Error → String) {A : Type 0} where
  with_balance :
      (P : Outcome (Db × W) A → Type 0) (p : Uuid) (k : ℕ → Db × W → Outcome (Db × W) A) (s : Db)
      (w : W)
      → ((b : ℕ) → balance p s ≡ (ok b, s) → P (k b (s, w)))
      → ((e : Error) → P (err e, (s, w)))
      → P (and_then (on_service g what (balance p)) k (s, w))
  unfolding and_then
  with_balance P p k s w good bad =
      let (r, e) = balance_read p s in
      subst
        (λ (o : Outcome Db ℕ). P (elim o.0 as (λ _. Outcome (Db × W) A) [
          | ok a ↦ k a (o.1, w)
          | err x ↦ (err x, (o.1, w))
        ]))
        (sym e) (go r e)
    where
      go :
          (r : Result ℕ)
          → balance p s ≡ (r, s)
          → P (elim r as (λ _. Outcome (Db × W) A) [ ok a ↦ k a (s, w) | err x ↦ (err x, (s, w)) ])
      go (ok b) q = good b q
      go (err x) q = bad x

  with_read :
      (P : Outcome (Db × W) A → Type 0) (name : String) (k : ℤ → Db × W → Outcome (Db × W) A)
      (s : Db) (w : W)
      → ((b : ℤ) → P (k b (s, w)))
      → ((e : Error) → P (err e, (s, w)))
      → P (and_then (on_read g what name) k (s, w))
  unfolding and_then
  with_read P name k s w good bad = go (g.read name w)
    where
      read_of : Result (Option ℤ) → Outcome (Db × W) ℤ
      read_of r = elim r as (λ _. Outcome (Db × W) ℤ) [
        | err e ↦ (err e, (s, w))
        | ok none ↦ (err Error.account_missing, (s, w))
        | ok (some b) ↦ (ok b, (s, w))
      ]

      go :
          (r : Result (Option ℤ))
          → P (elim (read_of r).0 as (λ _. Outcome (Db × W) A) [
            | ok a ↦ k a (read_of r).1
            | err e ↦ (err e, (read_of r).1)
          ])
      go (err e) = bad e
      go (ok none) = bad Error.account_missing
      go (ok (some b)) = good b

-- What a call that goes through leaves: a balance of at least `required`
abbrev pub IsCovered : Uuid → ℤ → Result (Unit {0}) → Db → Type 0
IsCovered p required (ok u) s =
    (required ≤ℤ pos 0) ⊎ ((b : ℕ) × (balance p s ≡ (ok b, s)) × (required ≤ℤ pos b))
IsCovered p required (err e) s = Unit

module _ {W : Type 0} (g : Gateway W) (what : Error → String) (c : Service) (opening : ℕ) where
  abbrev IsFunded : Uuid → ℤ → Outcome (Db × W) (Unit {0}) → Type 0
  IsFunded p required (r, x) = IsBackedSince c opening x.0 × IsCovered p required r x.0

  since_processed :
      (t : Transfer) (b : Bool) (s : Db) (w : W)
      → IsBackedSince c opening s
      → IsBackedSince c opening (process_transfer g what t b (s, w)).1.0
  unfolding IsBackedSince
  since_processed t b s w (inl h) = inl (process_transfer-IsBacked g what opening t b s w h)
  since_processed t b s w (inr h) =
      inr (process_transfer-IsBacked g what (opening + c.initial_balance_cents) t b s w h)

  confirmed :
      (p : Uuid) (required : ℤ) (done : Bool) (x : Db × W)
      → IsBackedSince c opening x.0
      → IsFunded p required (confirm_funding g what c p required done x)
  unfolding confirm_funding
  confirmed p required false x h = (h, tt)
  confirmed p required true (s, w) h =
      with_balance g what (IsFunded p required) p _ s w
        (λ b q. elim (Bool-cases (ltb_ℤ (pos b) required)) [
          | inl z ↦ rw z (h, tt)
          | inr z ↦ rw z (h, inr (b, q, ground arith))
        ])
        (λ e. (h, tt))

  -- An exception of a call leaves what is backed since the start.
  then-IsFunded :
      {A : Type 0} (p : Uuid) (required : ℤ) (m : Db × W → Outcome (Db × W) A)
      (f : A → Db × W → Outcome (Db × W) (Unit {0})) (x : Db × W)
      → IsBackedSince c opening (m x).1.0
      → ((a : A) (y : Db × W) → IsBackedSince c opening y.0 → IsFunded p required (f a y))
      → IsFunded p required (and_then m f x)
  unfolding and_then
  then-IsFunded {A} p required m f x h k = go (m x).0
    where
      go :
          (r : Result A)
          → IsFunded p required (elim r as (λ _. Outcome (Db × W) (Unit {0})) [
            | ok a ↦ f a (m x).1
            | err e ↦ (err e, (m x).1)
          ])
      go (ok a) = k a (m x).1 h
      go (err e) = (h, tt)

  deposit_units-IsFunded :
      (p : Uuid) (name : String) (required : ℤ) (units : ℕ) (external : ℤ) (s : Db) (w : W)
      → IsBacked opening s
      → IsFunded p required (deposit_units g what c p name required units external (s, w))
  unfolding deposit_units
  deposit_units-IsFunded p name required units external s w h =
      then-IsFunded p required _ _ (s, w)
        (prepare_transfer-IsBacked c p name TransferDirection.deposit (pos (units * 100))
          (pos units) (some external) opening s h)
        (λ t (s', w') k.
          then-IsFunded p required (process_transfer g what t true) _ (s', w')
            (since_processed t true s' w' k) (λ done y k'. confirmed p required done y k'))

  chosen-IsFunded :
      (p : Uuid) (required : ℤ) (b : Bool) (f f' : Db × W → Outcome (Db × W) (Unit {0}))
      (x : Db × W)
      → (b ≡ true → IsFunded p required (f x))
      → (b ≡ false → IsFunded p required (f' x))
      → IsFunded p required ((if b then f else f') x)
  chosen-IsFunded p required true f f' x h h' = h refl
  chosen-IsFunded p required false f f' x h h' = h' refl

  fund_shortage-IsFunded :
      (p : Uuid) (name : String) (required : ℤ) (units : ℕ) (s : Db) (w : W)
      → IsBacked opening s
      → IsFunded p required (fund_shortage g what c p name required units (s, w))
  unfolding IsBackedSince
  fund_shortage-IsFunded p name required units s w h =
      chosen-IsFunded p required (units == 0 || ltb (cents_max / unit_cents) units)
        (too_large g what c)
        (and_then (on_read g what name) (fund_from g what c p name required units)) (s, w)
        (λ _. (inl h, tt))
        (λ _.
          with_read g what (IsFunded p required) name (fund_from g what c p name required units) s w
            (λ external. elim (Bool-cases (ltb_ℤ external (pos units))) [
              | inl z ↦ rw z (inl h, tt)
              | inr z ↦ rw z (deposit_units-IsFunded p name required units external s w h)
            ])
            (λ e. (inl h, tt)))

  -- However `fundDirectBalance` ends, and whatever the UMoney plugin does, money that was backed by an opening sum is backed by it,
  -- or by it and the configured initial balance; and where the call goes through, the balance of the player is at least what was required.
  pub fund_direct-IsFunded :
      (p : Uuid) (name : String) (required : ℤ) (s : Db) (w : W)
      → IsBacked opening s
      → IsBackedSince c opening (fund_direct g what c p name required (s, w)).1.0
        × IsCovered p required
            (fund_direct g what c p name required (s, w)).0
            (fund_direct g what c p name required (s, w)).1.0
  unfolding fund_direct IsBackedSince
  fund_direct-IsFunded p name required s w h =
      chosen-IsFunded p required (leb_ℤ required (pos 0)) _ _ (s, w)
        (λ e. (inl h, inl (ground arith)))
        (λ _.
          with_balance g what (IsFunded p required) p _ s w
            (λ b q. elim (Bool-cases (leb_ℤ required (pos b))) [
              | inl z ↦ rw z (inl h, inr (b, q, ground arith))
              | inr z ↦
                  rw z (
                    fund_shortage-IsFunded p name required (units_for (pos_part required - b)) s w
                      h)
            ])
            (λ e. (inl h, tt)))
