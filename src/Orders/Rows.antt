-- ===== src/Orders/Rows.antt =====
-- Order rows by their primary key: ids fall along the table and stay below AUTO_INCREMENT.
use endstone_exchange.Common.{
  ap, subst, ◌∙◌, sym, inr, inl, Bool-cases, All-map, ℕ, ◌+◌, ◌≤◌, ◌<◌, ◌≡◌, refl, ◌≢◌, Bool, some,
  List, [], ◌∷◌, arith, All,
}
use endstone_exchange.Table
use endstone_exchange.Table.{select, first, update, affected, sum_of}
use endstone_exchange.Domain.{is_sell, RowId}
use endstone_exchange.Store.{Order}
use endstone_exchange.Orders.{has_id}

abbrev pub IdsBelow : RowId → List Order → Type 0
IdsBelow n [] = Unit {0}
IdsBelow n (o ∷ os) = (o.id < n) × IdsBelow o.id os

pub affected-above :
    (i n : RowId) (os : List Order) → IdsBelow n os → n ≤ i → affected (has_id i) os ≡ 0
unfolding affected
affected-above i n [] b h = refl
affected-above i n (o ∷ os) b h = ground (arith, affected-above i o.id os b.1)

pub ids_unique : (i n : RowId) (os : List Order) → IdsBelow n os → affected (has_id i) os ≤ 1
unfolding affected
ids_unique i n [] b = omega arith
ids_unique i n (o ∷ os) b = ground (arith, ids_unique i o.id os b.1, affected-above i o.id os b.1)

pub IdsBelow-mono : {m n : RowId} (os : List Order) → m ≤ n → IdsBelow m os → IdsBelow n os
IdsBelow-mono [] h b = tt
IdsBelow-mono (o ∷ os) h b = (omega arith, b.1)

pub update-IdsBelow :
    (p : Order → Bool) (f : Order → Order) (n : RowId) (os : List Order)
    → ((o : Order) → (f o).id ≡ o.id)
    → IdsBelow n os
    → IdsBelow n (update p f os)
unfolding update
update-IdsBelow p f n [] k b = tt
update-IdsBelow p f n (o ∷ os) k b = ground (arith, k o, update-IdsBelow p f o.id os k b.1)

-- `o` is the row of its id.
abbrev pub IsRow : List Order → Order → Type 0
IsRow os o = first (has_id o.id) os ≡ some o

-- The ids of a list of rows differ.
abbrev pub Distinct : List Order → Type 0
Distinct [] = Unit {0}
Distinct (o ∷ os) = All (λ x. x.id ≢ o.id) os × Distinct os

IsRow-cons : (x o : Order) (os : List Order) → o.id < x.id → IsRow os o → IsRow (x ∷ os) o
unfolding first
IsRow-cons x o os h r = ground arith

rows_below : (n : RowId) (os : List Order) → IdsBelow n os → All (λ o. o.id < n) os
rows_below n [] b = tt
rows_below n (o ∷ os) b = (
  b.0,
  All-map (λ x. x.id < o.id) (λ x. x.id < n) os (λ x h. omega arith) (rows_below o.id os b.1),
)

pub both-All :
    (P Q R : Order → Type 0) (os : List Order)
    → ((o : Order) → P o → Q o → R o)
    → All P os
    → All Q os
    → All R os
both-All P Q R [] f p q = tt
both-All P Q R (o ∷ os) f p q = (f o p.0 q.0, both-All P Q R os f p.1 q.1)

pub All-IsRow : (n : RowId) (os : List Order) → IdsBelow n os → All (IsRow os) os
unfolding first
All-IsRow n [] b = tt
All-IsRow n (o ∷ os) b = (
  ground arith,
  both-All (λ x. x.id < o.id) (IsRow os) (IsRow (o ∷ os)) os (λ x h r. IsRow-cons o x os h r)
      (rows_below o.id os b.1) (All-IsRow o.id os b.1),
)

-- An UPDATE of one row leaves every other row what it is.
pub IsRow-update_other :
    (i : RowId) (f : Order → Order) (os : List Order) (o : Order)
    → ((x : Order) → (f x).id ≡ x.id)
    → o.id ≢ i
    → IsRow os o
    → IsRow (update (has_id i) f os) o
IsRow-update_other i f os o k ne r =
    rw (Table.first-update_other (has_id o.id) (has_id i) f os (λ x h. ground (arith, k x))) r

pub sum_of-update_order :
    (w : Order → ℕ) (f : Order → Order) (n : RowId) (os : List Order) (o : Order)
    → IdsBelow n os
    → IsRow os o
    → sum_of w (update (has_id o.id) f os) + w o ≡ sum_of w os + w (f o)
sum_of-update_order w f n os o b r =
    Table.sum_of-update_row (has_id o.id) f w os o (ids_unique o.id n os b) r

-- The rows that a WHERE selects have different ids.
pub select-Distinct :
    (p : Order → Bool) (n : RowId) (os : List Order) → IdsBelow n os → Distinct (select p os)
unfolding select
select-Distinct p n [] b = tt
select-Distinct p n (o ∷ os) b = elim (Bool-cases (p o)) [
  | inl e ↦ rw e (
    Table.All-select (λ x. x.id ≢ o.id) p os
        (All-map (λ x. x.id < o.id) (λ x. x.id ≢ o.id) os (λ x h. omega arith)
          (rows_below o.id os b.1)),
    select-Distinct p o.id os b.1,
  )
  | inr e ↦ rw e (select-Distinct p o.id os b.1)
]

pub All-update_order {κ} :
    (P : Order → Type κ) (f : Order → Order) (n : RowId) (os : List Order) (o : Order)
    → IdsBelow n os
    → IsRow os o
    → P (f o)
    → All P os
    → All P (update (has_id o.id) f os)
All-update_order P f n os o b r k a =
    Table.All-update_row P (has_id o.id) f os o (ids_unique o.id n os b) r k a

-- The other rows of a list keep standing in the table.
pub rows-update_order :
    (f : Order → Order) (os : List Order) (o : Order) (xs : List Order)
    → ((x : Order) → (f x).id ≡ x.id)
    → All (λ x. x.id ≢ o.id) xs
    → All (IsRow os) xs
    → All (IsRow (update (has_id o.id) f os)) xs
rows-update_order f os o xs k ne a =
    both-All (λ x. x.id ≢ o.id) (IsRow os) (IsRow (update (has_id o.id) f os)) xs
      (λ x d r. IsRow-update_other o.id f os x k d r) ne a

-- Rows of different sides have different ids.
pub rows_differ :
    (os : List Order) (own o : Order)
    → IsRow os own
    → IsRow os o
    → is_sell own.side ≢ is_sell o.side
    → o.id ≢ own.id
rows_differ os own o mine row other e = other (ap (λ x. is_sell x.side) same)
  where
    both : some own ≡ some o
    both = sym mine ∙ subst (λ i. first (has_id i) os ≡ some o) e row

    same : own ≡ o
    same = ground (arith, both)
