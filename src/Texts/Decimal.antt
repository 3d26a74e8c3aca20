-- ===== src/Texts/Decimal.antt =====
-- Decimal numbers: `std::from_chars` on what `std::to_string` prints.
use endstone_exchange.Common.{
  ◌==◌, ◌∙◌, ap, ◌≢◌, ◌%◌, false, Bool, arith, inr, inl, Bool-cases, ◌-◌, ◌/◌, ltb, ◌+◌, ◌*◌,
  if◌then◌else◌, true, [], some, ◌∷◌, All, ◌≡◌, ◌<◌, ◌++◌, ◌≤◌, suc, ℕ, List,
}
use endstone_exchange.Common.{zero, suc, All, All-append, refl}
use endstone_exchange.Texts.{
  pos, is_space, is_digit, skip_spaces, trim_end, trim, leading, from_chars_unsigned,
  from_chars_signed, digits, to_string, keep_unless_space,
}

abbrev AreDigits : List ℕ → Type 0
AreDigits cs = All (λ c. is_digit c ≡ true) cs

digit : (n : ℕ) → is_digit (b'0' + n % 10) ≡ true
unfolding is_digit
digit n = ground arith

All-front : (b : Bool) (xs : List ℕ) → AreDigits xs → AreDigits (if b then [] else xs)
All-front true xs h = tt
All-front false xs h = h

digits-AreDigits : (f n : ℕ) → AreDigits (digits f n)
unfolding digits
digits-AreDigits zero n = tt
digits-AreDigits (suc f) n =
    All-append (λ c. is_digit c ≡ true) (if ltb n 10 then [] else digits f (n / 10))
      ((b'0' + n % 10) ∷ []) (All-front (ltb n 10) _ (digits-AreDigits f (n / 10))) (digit n, tt)

leading-append :
    (acc : ℕ) (xs ys : List ℕ)
    → AreDigits xs
    → leading acc (xs ++ ys) ≡ leading (leading acc xs).0 ys
unfolding leading
leading-append acc [] ys h = refl
leading-append acc (x ∷ xs) ys h = rw h.0 (leading-append (acc * 10 + (x - b'0')) xs ys h.1)

leading_last : (acc n : ℕ) → leading acc ((b'0' + n % 10) ∷ []) ≡ (acc * 10 + n % 10, [])
unfolding leading
leading_last acc n = ground (arith, digit n)

leading-digits : (f n : ℕ) → n < f → leading 0 (digits f n) ≡ (n, [])
unfolding digits
leading-digits zero n h = elim h [ ]
leading-digits (suc f) n h = elim (Bool-cases (ltb n 10)) [
  | inl e ↦ rw e (ground (arith, leading_last 0 n))
  | inr e ↦ rw e (
      leading-append 0 (digits f (n / 10)) ((b'0' + n % 10) ∷ []) (digits-AreDigits f (n / 10))
      ∙ rw (leading-digits f (n / 10) (ground arith)) (ground (arith, leading_last (n / 10) n)))
]

digit_no_space : (c : ℕ) → is_digit c ≡ true → is_space c ≡ false
unfolding is_digit is_space
digit_no_space c h = ground arith

skip_spaces-digits : (cs : List ℕ) → AreDigits cs → skip_spaces cs ≡ cs
unfolding skip_spaces
skip_spaces-digits [] h = refl
skip_spaces-digits (c ∷ cs) h = rw (digit_no_space c h.0) refl

keep_digit : (c : ℕ) (cs : List ℕ) → is_digit c ≡ true → keep_unless_space c cs ≡ c ∷ cs
keep_digit c [] h = rw (digit_no_space c h) refl
keep_digit c (d ∷ ds) h = refl

trim_end-digits : (cs : List ℕ) → AreDigits cs → trim_end cs ≡ cs
unfolding trim_end
trim_end-digits [] h = refl
trim_end-digits (c ∷ cs) h = rw (trim_end-digits cs h.1) (keep_digit c cs h.0)

pub trim-to_string : (n : ℕ) → trim (to_string n) ≡ to_string n
unfolding trim to_string
trim-to_string n =
    let are = digits-AreDigits (suc n) n in
    ap trim_end (skip_spaces-digits _ are) ∙ trim_end-digits _ are

no_minus : (c : ℕ) → is_digit c ≡ true → (c == b'-') ≡ false
unfolding is_digit
no_minus c h = ground arith

unsigned_digits :
    (max n c : ℕ) (cs : List ℕ)
    → is_digit c ≡ true
    → leading 0 (c ∷ cs) ≡ (n, [])
    → n ≤ max
    → from_chars_unsigned max (c ∷ cs) ≡ some (n, [])
unfolding from_chars_unsigned
unsigned_digits max n c cs d e b = rw e (rw d (ground arith))

append-ne-nil : (xs : List ℕ) (y : ℕ) → xs ++ (y ∷ []) ≢ []
append-ne-nil [] y = cc
append-ne-nil (x ∷ xs) y = cc

signed_digits :
    (max n : ℕ) (cs : List ℕ)
    → AreDigits cs
    → leading 0 cs ≡ (n, [])
    → cs ≢ []
    → n ≤ max
    → from_chars_signed max cs ≡ some (pos n, [])
unfolding from_chars_signed
signed_digits max n [] h e ne b = absurd (ne refl)
signed_digits max n (c ∷ cs) h e ne b =
    rw (no_minus c h.0) (rw (unsigned_digits max n c cs h.0 e b) refl)

pub from_chars_signed-to_string :
    (max n : ℕ) → n ≤ max → from_chars_signed max (to_string n) ≡ some (pos n, [])
unfolding to_string
from_chars_signed-to_string max n h =
    signed_digits max n (digits (suc n) n) (digits-AreDigits (suc n) n)
      (leading-digits (suc n) n (omega arith)) (append-ne-nil _ _) h

-- A printed number begins with a digit, and is read by `from_chars` into an unsigned type.
printed :
    (max n : ℕ) (cs : List ℕ)
    → AreDigits cs
    → leading 0 cs ≡ (n, [])
    → cs ≢ []
    → n ≤ max
    → (c : ℕ) × (ds : List ℕ) × (cs ≡ c ∷ ds)
      × (is_digit c ≡ true)
      × (skip_spaces cs ≡ c ∷ ds)
      × (from_chars_unsigned max (c ∷ ds) ≡ some (n, []))
printed max n [] h e ne b = absurd (ne refl)
printed max n (c ∷ ds) h e ne b =
    (c, ds, refl, h.0, skip_spaces-digits (c ∷ ds) h, unsigned_digits max n c ds h.0 e b)

pub to_string-printed :
    (max n : ℕ)
    → n ≤ max
    → (c : ℕ) × (ds : List ℕ) × (to_string n ≡ c ∷ ds)
      × (is_digit c ≡ true)
      × (skip_spaces (to_string n) ≡ c ∷ ds)
      × (from_chars_unsigned max (c ∷ ds) ≡ some (n, []))
unfolding to_string
to_string-printed max n h =
    printed max n (digits (suc n) n) (digits-AreDigits (suc n) n)
      (leading-digits (suc n) n (omega arith)) (append-ne-nil _ _) h
