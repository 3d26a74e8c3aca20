-- ===== src/Table/Keys.antt =====
-- AUTO_INCREMENT PRIMARY KEY: no two rows share a key, and the next key is free.
use endstone_exchange.Common.{arith, ◌∷◌, suc, ◌≡◌, ◌==◌, ◌≤◌, List, Bool, ℕ}
use endstone_exchange.Table.{affected-update_same, affected, update}

module _ {A : Type 0} (key : A → ℕ) where
  abbrev pub has_key : ℕ → A → Bool
  has_key i a = key a == i

  pub record IsKeyed (next : ℕ) (rows : List A) : Type 0 where
    pub unique : (i : ℕ) → affected (has_key i) rows ≤ 1
    pub fresh : (i : ℕ) → next ≤ i → affected (has_key i) rows ≡ 0

  pub IsKeyed-insert :
      (next : ℕ) (rows : List A) (a : A)
      → key a ≡ next
      → IsKeyed next rows
      → IsKeyed (suc next) (a ∷ rows)
  unfolding affected
  IsKeyed-insert next rows a e k = record {
    unique = λ i. ground (arith, k.unique i, k.fresh i);
    fresh = λ i h. ground (arith, k.fresh i (omega arith));
  }

  pub IsKeyed-update :
      (next : ℕ) (p : A → Bool) (f : A → A) (rows : List A)
      → ((a : A) → key (f a) ≡ key a)
      → IsKeyed next rows
      → IsKeyed next (update p f rows)
  IsKeyed-update next p f rows same k = record {
    unique = λ i. rw (affected-update_same (has_key i) p f rows (λ a. rw (same a))) (k.unique i);
    fresh = λ i h. rw (affected-update_same (has_key i) p f rows (λ a. rw (same a))) (k.fresh i h);
  }
