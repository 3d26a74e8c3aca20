-- ===== src/Umoney/Once.antt =====
-- `decideUmoneyMutation` of include/endstone_exchange/umoney_gateway.hpp, before and behind a change.
use endstone_exchange.Common.{ap, true, ◌≡◌, arith}
use endstone_exchange.Common.Int.{negsuc, eqb_ℤ, ℤ, pos, ◌+ℤ◌, ◌-ℤ◌}
use endstone_exchange.Domain.{TransferDirection}
use endstone_exchange.Umoney.{compare_balance, Decision, decide_mutation}

-- The change that a transfer asks for
abbrev pub moved : TransferDirection → ℤ → ℤ → ℤ
moved TransferDirection.deposit amount before = before -ℤ amount
moved TransferDirection.withdraw amount before = before +ℤ amount

eqb_ℤ-refl : (a : ℤ) → eqb_ℤ a a ≡ true
eqb_ℤ-refl (pos n) = ground arith
eqb_ℤ-refl (negsuc n) = ground arith

eqb_ℤ→eq : (a b : ℤ) → eqb_ℤ a b ≡ true → a ≡ b
eqb_ℤ→eq (pos a) (pos b) h = ap pos (ground arith)
eqb_ℤ→eq (pos a) (negsuc b) h = ground arith
eqb_ℤ→eq (negsuc a) (pos b) h = ground arith
eqb_ℤ→eq (negsuc a) (negsuc b) h = ap negsuc (ground arith)

compare_balance-apply :
    (expected before current : ℤ)
    → compare_balance expected before current ≡ Decision.apply
    → (current ≡ before) × (compare_balance expected before expected ≡ Decision.already_applied)
compare_balance-apply expected before current h =
    ground (arith, h, eqb_ℤ-refl expected, eqb_ℤ→eq current before)

compare_balance-applied :
    (expected before current : ℤ)
    → compare_balance expected before current ≡ Decision.already_applied
    → current ≡ expected
compare_balance-applied expected before current h = ground (arith, h, eqb_ℤ→eq current expected)

-- Where `decideUmoneyMutation` says to apply a change, the current balance is the one of the start; and
-- with the balance that the change leads to, it says that the change has been applied.
pub decide_mutation-once :
    (d : TransferDirection) (amount before current : ℤ)
    → decide_mutation d amount before current ≡ Decision.apply
    → (current ≡ before)
      × (decide_mutation d amount before (moved d amount before) ≡ Decision.already_applied)
unfolding decide_mutation
decide_mutation-once TransferDirection.deposit amount before current h =
    ground (arith, h, compare_balance-apply (before -ℤ amount) before current)
decide_mutation-once TransferDirection.withdraw amount before current h =
    ground (arith, h, compare_balance-apply (before +ℤ amount) before current)

-- Where it says that the change has been applied, the current balance is the one that the change leads to.
pub decide_mutation-applied :
    (d : TransferDirection) (amount before current : ℤ)
    → decide_mutation d amount before current ≡ Decision.already_applied
    → current ≡ moved d amount before
unfolding decide_mutation
decide_mutation-applied TransferDirection.deposit amount before current h =
    ground (arith, h, compare_balance-applied (before -ℤ amount) before current)
decide_mutation-applied TransferDirection.withdraw amount before current h =
    ground (arith, h, compare_balance-applied (before +ℤ amount) before current)
