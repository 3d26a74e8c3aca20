-- ===== src/Gate/Spaced.antt =====
-- What the gate of src/interaction_gate.cpp lets through.
use endstone_exchange.Gate.{assigned, too_soon, Gate, accept}
use text.Mathlib.TextEquality.{eq_iff}
use endstone_exchange.Common.{
  not, refl, true, false, ◌≡◌, ap, ◌∙◌, sym, ℕ, ◌-◌, ◌&&◌, String, Bool, some, ltb, if◌then◌else◌,
  is_empty, str_eq,
}

answer : Bool → Bool → Bool
answer e z = not e && not z

abbrev gated : Bool → Bool → Gate → Gate → Bool × Gate
gated e z g h = if e then (false, g) else if z then (false, g) else (true, h)

branches :
    (e z : Bool) (g h : Gate)
    → ((gated e z g h).0 ≡ answer e z) × (answer e z ≡ true → (gated e z g h).1 ≡ h)
unfolding answer
branches true z g h = (refl, λ x. cc)
branches false true g h = (refl, λ x. cc)
branches false false g h = (refl, λ x. refl)

-- The gate answers by the player's name and the time since the last accepted interaction.
accept-answer :
    (p : String) (now : ℕ) (g : Gate)
    → (accept p now g).0 ≡ answer (is_empty p) (too_soon g.cooldown now (g.accepted_at p))
unfolding accept
accept-answer p now g = (branches (is_empty p) (too_soon g.cooldown now (g.accepted_at p)) g _).0

accept_next :
    (p : String) (now : ℕ) (g : Gate)
    → (accept p now g).0 ≡ true
    → (accept p now g).1 ≡ record g { accepted_at = assigned p now g.accepted_at }
unfolding accept
accept_next p now g h =
    (branches (is_empty p) (too_soon g.cooldown now (g.accepted_at p)) g _).1
      (sym (accept-answer p now g) ∙ h)

named : (e z : Bool) → answer e z ≡ true → (x : Bool) → answer e x ≡ not x
unfolding answer
named true z h x = cc
named false z h x = refl

-- Behind an interaction that the gate has accepted, it accepts one of the same player exactly when the
-- cooldown is over, and answers to every other player as if there had been none.
pub accept-spaced :
    (p : String) (now later : ℕ) (g : Gate)
    → (accept p now g).0 ≡ true
    → ((accept p later (accept p now g).1).0 ≡ not (ltb (later - now) g.cooldown))
      × ((q : String)
          → str_eq q p ≡ false
          → (accept q later (accept p now g).1).0 ≡ (accept q later g).0)
accept-spaced p now later g h = (
  ap (λ x. (accept p later x).0) (accept_next p now g h)
      ∙ accept-answer p later after
      ∙ ap
          (λ b.
            answer (is_empty p)
              (too_soon g.cooldown later (if b then some now else g.accepted_at p)))
          ((eq_iff p p).1 refl)
      ∙ named (is_empty p) (too_soon g.cooldown now (g.accepted_at p))
          (sym (accept-answer p now g) ∙ h) _,
  λ q e.
      ap (λ x. (accept q later x).0) (accept_next p now g h)
      ∙ accept-answer q later after
      ∙ ap
          (λ b.
            answer (is_empty q)
              (too_soon g.cooldown later (if b then some now else g.accepted_at q)))
          e
      ∙ sym (accept-answer q later g),
)
  where
    after : Gate
    after = record g { accepted_at = assigned p now g.accepted_at }
