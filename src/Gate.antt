-- ===== src/Gate.antt =====
-- `InteractionGate` of src/interaction_gate.cpp: a player's interactions are spaced by a cooldown. The time
-- is a number of milliseconds, and the hash map of the last accepted times is a function.
pub mod Spaced
use endstone_exchange.Common.{
  ℕ, ◌-◌, String, Bool, true, false, Option, none, some, ltb, if◌then◌else◌, is_empty, str_eq,
}
use endstone_exchange.Common.Int.{ℤ, pos, leb_ℤ, pos_part}

pub record Gate : Type 0 where
  pub cooldown : ℕ
  pub accepted_at : String → Option ℕ

-- The constructor refuses a cooldown that is not positive.
unfoldable pub new_gate : ℤ → Option Gate
new_gate cooldown =
    if leb_ℤ cooldown (pos 0)
    then none
    else some (record { cooldown = pos_part cooldown; accepted_at = λ p. none })

-- accepted_at_[key] = now
abbrev pub assigned : String → ℕ → (String → Option ℕ) → String → Option ℕ
assigned p now m q = if str_eq q p then some now else m q

-- The steady clock does not run backwards; an interval that were negative counts as 0 here, and both are
-- within a positive cooldown.
abbrev pub too_soon : ℕ → ℕ → Option ℕ → Bool
too_soon cooldown now none = false
too_soon cooldown now (some previous) = ltb (now - previous) cooldown

unfoldable pub accept : String → ℕ → Gate → Bool × Gate
accept p now g =
    if is_empty p
    then (false, g)
    else if too_soon g.cooldown now (g.accepted_at p)
    then (false, g)
    else (true, record g { accepted_at = assigned p now g.accepted_at })

unfoldable pub clear : Gate → Gate
clear g = record g { accepted_at = λ p. none }
