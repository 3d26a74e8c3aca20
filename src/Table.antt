-- ===== src/Table.antt =====
-- The rows of one database table, and the statements of src/exchange_service.cpp over them: SELECT,
-- UPDATE and DELETE with their WHERE, the affected rows (the connection of src/database.cpp asks for
-- CLIENT_FOUND_ROWS, so an UPDATE counts the rows that it matches) and SUM.
pub mod Keys
use endstone_exchange.Common.{
  ℕ, suc, ◌+◌, ◌≤◌, ◌≡◌, refl, Bool, true, false, Option, none, some, List, [], ◌∷◌, arith, All,
  Bool-cases, inl, inr, subst, if◌then◌else◌,
}

module _ {ℓ} {A : Type ℓ} where
  unfoldable pub select : (A → Bool) → List A → List A
  select p [] = []
  select p (x ∷ xs) = if p x then x ∷ select p xs else select p xs

  unfoldable pub first : (A → Bool) → List A → Option A
  first p [] = none
  first p (x ∷ xs) = if p x then some x else first p xs

  unfoldable pub update : (A → Bool) → (A → A) → List A → List A
  update p f [] = []
  update p f (x ∷ xs) = (if p x then f x else x) ∷ update p f xs

  unfoldable pub delete : (A → Bool) → List A → List A
  delete p [] = []
  delete p (x ∷ xs) = if p x then delete p xs else x ∷ delete p xs

  unfoldable pub affected : (A → Bool) → List A → ℕ
  affected p [] = 0
  affected p (x ∷ xs) = if p x then suc (affected p xs) else affected p xs

  unfoldable pub sum_of : (A → ℕ) → List A → ℕ
  sum_of w [] = 0
  sum_of w (x ∷ xs) = w x + sum_of w xs

  -- The sum over the rows that a WHERE selects.
  abbrev pub only : (A → Bool) → (A → ℕ) → A → ℕ
  only p w x = if p x then w x else 0

module _ {ℓ} {A : Type ℓ} where
  pub sum_of-update_same :
      (p : A → Bool) (f : A → A) (w : A → ℕ) (xs : List A)
      → ((x : A) → p x ≡ true → w (f x) ≡ w x)
      → sum_of w (update p f xs) ≡ sum_of w xs
  unfolding sum_of update
  sum_of-update_same p f w [] h = refl
  sum_of-update_same p f w (x ∷ xs) h = ground (arith, h x, sum_of-update_same p f w xs h)

  pub sum_of-update_up :
      (p : A → Bool) (f : A → A) (w : A → ℕ) (d : ℕ) (xs : List A)
      → ((x : A) → p x ≡ true → w (f x) ≡ w x + d)
      → sum_of w (update p f xs) ≡ sum_of w xs + sum_of (only p (λ _. d)) xs
  unfolding sum_of update
  sum_of-update_up p f w d [] h = omega arith
  sum_of-update_up p f w d (x ∷ xs) h = ground (arith, h x, sum_of-update_up p f w d xs h)

  pub sum_of-update_down :
      (p : A → Bool) (f : A → A) (w : A → ℕ) (d : ℕ) (xs : List A)
      → ((x : A) → p x ≡ true → w (f x) + d ≡ w x)
      → sum_of w (update p f xs) + sum_of (only p (λ _. d)) xs ≡ sum_of w xs
  unfolding sum_of update
  sum_of-update_down p f w d [] h = omega arith
  sum_of-update_down p f w d (x ∷ xs) h = ground (arith, h x, sum_of-update_down p f w d xs h)

  -- A row that gets a fixed weight.
  pub sum_of-update_set :
      (p : A → Bool) (f : A → A) (w : A → ℕ) (c : ℕ) (xs : List A)
      → ((x : A) → p x ≡ true → w (f x) ≡ c)
      → sum_of w (update p f xs) + sum_of (only p w) xs ≡ sum_of w xs + sum_of (only p (λ _. c)) xs
  unfolding sum_of update
  sum_of-update_set p f w c [] h = omega arith
  sum_of-update_set p f w c (x ∷ xs) h = ground (arith, h x, sum_of-update_set p f w c xs h)

  pub sum_of-only_rest :
      (p : A → Bool) (w : A → ℕ) (xs : List A) → affected p xs ≡ 0 → sum_of (only p w) xs ≡ 0
  unfolding sum_of affected
  sum_of-only_rest p w [] h = refl
  sum_of-only_rest p w (x ∷ xs) h = ground (arith, sum_of-only_rest p w xs)

  -- Where a WHERE matches one row, a constant weight counts once.
  pub sum_of-only_one :
      (p : A → Bool) (d : ℕ) (xs : List A) → affected p xs ≡ 1 → sum_of (only p (λ _. d)) xs ≡ d
  unfolding sum_of affected
  sum_of-only_one p d [] h = absurd (omega arith)
  sum_of-only_one p d (x ∷ xs) h =
      ground (arith, sum_of-only_one p d xs, sum_of-only_rest p (λ (y : A). d) xs)

  pub affected-update_same :
      (q p : A → Bool) (f : A → A) (xs : List A)
      → ((x : A) → q (f x) ≡ q x)
      → affected q (update p f xs) ≡ affected q xs
  unfolding update affected
  affected-update_same q p f [] h = refl
  affected-update_same q p f (x ∷ xs) h = ground (arith, h x, affected-update_same q p f xs h)

  pub All-update {κ} :
      (P : A → Type κ) (p : A → Bool) (f : A → A) (xs : List A)
      → ((x : A) → p x ≡ true → P x → P (f x))
      → All P xs
      → All P (update p f xs)
  unfolding update
  All-update P p f [] h a = tt
  All-update P p f (x ∷ xs) h a = elim (Bool-cases (p x)) [
    | inl e ↦ rw e (h x e a.0, All-update P p f xs h a.1)
    | inr e ↦ rw e (a.0, All-update P p f xs h a.1)
  ]

  pub All-select {κ} :
      (P : A → Type κ) (p : A → Bool) (xs : List A) → All P xs → All P (select p xs)
  unfolding select
  All-select P p [] a = tt
  All-select P p (x ∷ xs) a = elim (Bool-cases (p x)) [
    | inl e ↦ rw e (a.0, All-select P p xs a.1)
    | inr e ↦ rw e (All-select P p xs a.1)
  ]

  pub select-All : (p : A → Bool) (xs : List A) → All (λ x. p x ≡ true) (select p xs)
  unfolding select
  select-All p [] = tt
  select-All p (x ∷ xs) = ground (arith, select-All p xs)

  pub first-holds : (p : A → Bool) (xs : List A) (x : A) → first p xs ≡ some x → p x ≡ true
  unfolding first
  first-holds p [] x h = cc
  first-holds p (y ∷ xs) x h = ground (arith, first-holds p xs x)

  pub first-All {κ} :
      (P : A → Type κ) (p : A → Bool) (xs : List A) (x : A) → All P xs → first p xs ≡ some x → P x
  unfolding first
  first-All P p [] x a h = cc
  first-All P p (y ∷ xs) x a h = elim (Bool-cases (p y)) [
    | inl e ↦ let same : y ≡ x = ground arith in subst P same a.0
    | inr e ↦ first-All P p xs x a.1 (rw e at h)
  ]

  pub affected-zero : (p : A → Bool) (xs : List A) → All (λ x. p x ≡ false) xs → affected p xs ≡ 0
  unfolding affected
  affected-zero p [] a = refl
  affected-zero p (x ∷ xs) a = ground (arith, affected-zero p xs a.1)

  pub sum_of-only_zero :
      (p : A → Bool) (w : A → ℕ) (xs : List A)
      → All (λ x. p x ≡ false) xs
      → sum_of (only p w) xs ≡ 0
  unfolding sum_of
  sum_of-only_zero p w [] a = refl
  sum_of-only_zero p w (x ∷ xs) a = ground (arith, sum_of-only_zero p w xs a.1)

module _ {ℓ} {A : Type ℓ} where
  pub affected-first :
      (p : A → Bool) (xs : List A) (x : A) → first p xs ≡ some x → 1 ≤ affected p xs
  unfolding first affected
  affected-first p [] x h = cc
  affected-first p (y ∷ xs) x h = ground (arith, affected-first p xs x)

  -- Where a WHERE matches no second row, the first one has the whole sum.
  pub sum_of-first :
      (p : A → Bool) (w : A → ℕ) (xs : List A) (x : A)
      → affected p xs ≤ 1
      → first p xs ≡ some x
      → sum_of (only p w) xs ≡ w x
  unfolding first affected sum_of
  sum_of-first p w [] x u h = cc
  sum_of-first p w (y ∷ xs) x u h = ground (arith, sum_of-first p w xs x, sum_of-only_rest p w xs)

  sum_of-update_rest :
      (p : A → Bool) (f : A → A) (w : A → ℕ) (xs : List A)
      → affected p xs ≡ 0
      → sum_of w (update p f xs) ≡ sum_of w xs
  unfolding affected sum_of update
  sum_of-update_rest p f w [] h = refl
  sum_of-update_rest p f w (x ∷ xs) h = ground (arith, sum_of-update_rest p f w xs)

  -- An UPDATE of one row changes a sum by what that row changes.
  pub sum_of-update_row :
      (p : A → Bool) (f : A → A) (w : A → ℕ) (xs : List A) (x : A)
      → affected p xs ≤ 1
      → first p xs ≡ some x
      → sum_of w (update p f xs) + w x ≡ sum_of w xs + w (f x)
  unfolding first affected sum_of update
  sum_of-update_row p f w [] x u h = cc
  sum_of-update_row p f w (y ∷ xs) x u h =
      ground (arith, sum_of-update_row p f w xs x, sum_of-update_rest p f w xs)

  pub first-update_other :
      (q p : A → Bool) (f : A → A) (xs : List A)
      → ((x : A) → p x ≡ true → (q x ≡ false) × (q (f x) ≡ false))
      → first q (update p f xs) ≡ first q xs
  unfolding first update
  first-update_other q p f [] h = refl
  first-update_other q p f (x ∷ xs) h = ground (arith, h x, first-update_other q p f xs h)

  -- The row that a WHERE finds after an UPDATE that leaves its columns alone.
  pub first-update_map :
      (q p : A → Bool) (f : A → A) (xs : List A) (x : A)
      → ((y : A) → q (f y) ≡ q y)
      → first q xs ≡ some x
      → first q (update p f xs) ≡ some (if p x then f x else x)
  unfolding first update
  first-update_map q p f [] x h e = cc
  first-update_map q p f (y ∷ xs) x h e = elim (Bool-cases (q y)) [
    | inl z ↦
        let same : x ≡ y = ground (arith, e, z) in
        elim (Bool-cases (p y)) [ inl u ↦ rw (same, u, h y, z) refl | inr u ↦ rw (same, u, z) refl ]
    | inr z ↦
        let rest : first q xs ≡ some x = rw z at e in
        elim (Bool-cases (p y)) [
          | inl u ↦ rw (u, h y, z) (first-update_map q p f xs x h rest)
          | inr u ↦ rw (u, z) (first-update_map q p f xs x h rest)
        ]
  ]

  update_none : (p : A → Bool) (f : A → A) (xs : List A) → affected p xs ≡ 0 → update p f xs ≡ xs
  unfolding affected update
  update_none p f [] h = refl
  update_none p f (x ∷ xs) h = ground (arith, update_none p f xs)

  pub All-update_row {κ} :
      (P : A → Type κ) (p : A → Bool) (f : A → A) (xs : List A) (x : A)
      → affected p xs ≤ 1
      → first p xs ≡ some x
      → P (f x)
      → All P xs
      → All P (update p f xs)
  unfolding affected first update
  All-update_row P p f [] x u h k a = tt
  All-update_row P p f (y ∷ xs) x u h k a = elim (Bool-cases (p y)) [
    | inl e ↦
        let same : x ≡ y = ground arith in
        let rest : update p f xs ≡ xs = update_none p f xs (ground arith) in
        rw (e, rest) (subst (λ z. P (f z)) same k, a.1)
    | inr e ↦
        let u' : affected p xs ≤ 1 = ground arith in
        let h' : first p xs ≡ some x = ground arith in
        rw e (a.0, All-update_row P p f xs x u' h' k a.1)
  ]
