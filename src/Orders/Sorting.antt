-- ===== src/Orders/Sorting.antt =====
-- ORDER BY: the same rows, in the order of the key.
use mathlib.Core.List.{Perm}
use mathlib.Core.List.Perm
use endstone_exchange.Common.{
  sym, All-map, ◌≡◌, ◌≢◌, inl, inr, Bool, true, false, List, [], ◌∷◌, arith, All, Bool-cases,
}
use endstone_exchange.Store.{Order}
use endstone_exchange.Orders.{insert_by, sort_by, ask_before, bid_before}
use endstone_exchange.Orders.Rows.{Distinct}

module _ (before : Order → Order → Bool) where
  insert_by-All {κ} :
      (P : Order → Type κ) (o : Order) (os : List Order)
      → P o
      → All P os
      → All P (insert_by before o os)
  unfolding insert_by
  insert_by-All P o [] p a = (p, tt)
  insert_by-All P o (x ∷ xs) p a = elim (Bool-cases (before o x)) [
    | inl e ↦ rw e (p, a)
    | inr e ↦ rw e (a.0, insert_by-All P o xs p a.1)
  ]

  pub sort_by-All {κ} :
      (P : Order → Type κ) (os : List Order) → All P os → All P (sort_by before os)
  unfolding sort_by
  sort_by-All P [] a = tt
  sort_by-All P (o ∷ os) a = insert_by-All P o (sort_by before os) a.0 (sort_by-All P os a.1)

  insert_by-Distinct :
      (o : Order) (os : List Order)
      → All (λ x. x.id ≢ o.id) os
      → Distinct os
      → Distinct (insert_by before o os)
  unfolding insert_by
  insert_by-Distinct o [] n d = (tt, tt)
  insert_by-Distinct o (x ∷ xs) n d = elim (Bool-cases (before o x)) [
    | inl e ↦ rw e (n, d)
    | inr e ↦ rw e (
      insert_by-All (λ y. y.id ≢ x.id) o xs (λ e. n.0 (sym e)) d.0,
      insert_by-Distinct o xs n.1 d.1,
    )
  ]

  pub sort_by-Distinct : (os : List Order) → Distinct os → Distinct (sort_by before os)
  unfolding sort_by
  sort_by-Distinct [] d = tt
  sort_by-Distinct (o ∷ os) d =
      insert_by-Distinct o (sort_by before os) (sort_by-All (λ x. x.id ≢ o.id) os d.0)
        (sort_by-Distinct os d.1)

  insert_by-perm : (o : Order) (os : List Order) → Perm (insert_by before o os) (o ∷ os)
  unfolding insert_by
  insert_by-perm o [] = Perm.refl (o ∷ [])
  insert_by-perm o (x ∷ xs) = elim (Bool-cases (before o x)) [
    | inl e ↦ rw e (Perm.refl (o ∷ x ∷ xs))
    | inr e ↦ rw e (Perm.trans (Perm.cons x (insert_by-perm o xs)) (Perm.swap o x xs))
  ]

  pub sort_by-perm : (os : List Order) → Perm (sort_by before os) os
  unfolding sort_by
  sort_by-perm [] = Perm.refl []
  sort_by-perm (o ∷ os) =
      Perm.trans (insert_by-perm o (sort_by before os)) (Perm.cons o (sort_by-perm os))

-- The first of each two rows goes before the second.
abbrev pub Sorted : (Order → Order → Bool) → List Order → Type 0
Sorted before [] = Unit {0}
Sorted before (o ∷ os) = All (λ x. before o x ≡ true) os × Sorted before os

-- A total and transitive key.
pub record IsKey (before : Order → Order → Bool) : Type 0 where
  pub total : (a b : Order) → before a b ≡ false → before b a ≡ true
  pub trans : (a b c : Order) → before a b ≡ true → before b c ≡ true → before a c ≡ true

pub ask_before-IsKey : IsKey ask_before
ask_before-IsKey = record { total = λ a b h. ground arith; trans = λ a b c h k. ground arith }

pub bid_before-IsKey : IsKey bid_before
bid_before-IsKey = record { total = λ a b h. ground arith; trans = λ a b c h k. ground arith }

module _ (before : Order → Order → Bool) (key : IsKey before) where
  insert_by-Sorted :
      (o : Order) (os : List Order) → Sorted before os → Sorted before (insert_by before o os)
  unfolding insert_by
  insert_by-Sorted o [] s = (tt, tt)
  insert_by-Sorted o (x ∷ xs) s = elim (Bool-cases (before o x)) [
    | inl e ↦ rw e (
      (
        e,
        All-map (λ y. before x y ≡ true) (λ y. before o y ≡ true) xs (λ y h. key.trans o x y e h)
            s.0,
      ),
      s,
    )
    | inr e ↦ rw e (
      insert_by-All before (λ y. before x y ≡ true) o xs (key.total o x e) s.0,
      insert_by-Sorted o xs s.1,
    )
  ]

  pub sort_by-Sorted : (os : List Order) → Sorted before (sort_by before os)
  unfolding sort_by
  sort_by-Sorted [] = tt
  sort_by-Sorted (o ∷ os) = insert_by-Sorted o (sort_by before os) (sort_by-Sorted os)
