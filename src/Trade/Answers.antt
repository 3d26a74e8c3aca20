-- ===== src/Trade/Answers.antt =====
-- What the reader of form answers (src/trade_form.cpp) makes of an answer as a JSON printer writes it:
-- quotation marks and backslashes are escaped, and the control characters that have a short escape.
use endstone_exchange.Common.{
  ◌∙◌, length-append, ◌<◌, length, false, arith, ◌⊎◌, ◌≡◌, ◌==◌, ◌≤◌, ◌++◌, All, ◌≢◌, if◌then◌else◌,
  List, ℕ, zero, suc, refl, [], ◌∷◌,
}
use mathlib.Core.List.{append_assoc}
use endstone_exchange.Texts.{skip_spaces, is_space}
use endstone_exchange.Trade.{entered}
use endstone_exchange.Trade.Forms.{read_text, before, read_values, form_values}

-- The bytes of a text that a form can send: those of a control character without a short escape are
-- left out.
abbrev pub IsTyped : ℕ → Type 0
IsTyped c = (32 ≤ c) ⊎ (c ≡ 8) ⊎ (c ≡ 9) ⊎ (c ≡ 10) ⊎ (c ≡ 12) ⊎ (c ≡ 13)

unfoldable pub escape : ℕ → List ℕ
escape c =
    if c == 8
    then 92 ∷ b'b' ∷ []
    else if c == 9
    then 92 ∷ b't' ∷ []
    else if c == 10
    then 92 ∷ b'n' ∷ []
    else if c == 12
    then 92 ∷ b'f' ∷ []
    else if c == 13
    then 92 ∷ b'r' ∷ []
    else if c == b'"'
    then 92 ∷ b'"' ∷ []
    else if c == 92
    then 92 ∷ 92 ∷ []
    else c ∷ []

abbrev pub escaped : List ℕ → List ℕ
escaped [] = []
escaped (c ∷ cs) = escape c ++ escaped cs

-- A text between its quotation marks
abbrev pub quoted : List ℕ → List ℕ
quoted s = b'"' ∷ (escaped s ++ (b'"' ∷ []))

abbrev pub json_more : List (List ℕ) → List ℕ
json_more [] = b']' ∷ []
json_more (v ∷ vs) = b',' ∷ (quoted v ++ json_more vs)

-- An array of texts
unfoldable pub json : List (List ℕ) → List ℕ
json [] = b'[' ∷ b']' ∷ []
json (v ∷ vs) = b'[' ∷ (quoted v ++ json_more vs)

read_text-escape :
    (c : ℕ) (rest : List ℕ)
    → IsTyped c
    → rest ≢ []
    → read_text (escape c ++ rest) ≡ before c (read_text rest)
unfolding read_text escape
read_text-escape c [] h ne = absurd (ne refl)
read_text-escape c (d ∷ rest) h ne = ground arith

read_text_close : (rest : List ℕ) → read_text (b'"' ∷ rest) ≡ entered ([], rest)
unfolding read_text
read_text_close [] = refl
read_text_close (d ∷ rest) = refl

append-ne-nil : (xs : List ℕ) (y : ℕ) (ys : List ℕ) → xs ++ (y ∷ ys) ≢ []
append-ne-nil [] y ys = cc
append-ne-nil (x ∷ xs) y ys = cc

read_text-escaped :
    (s rest : List ℕ) → All IsTyped s → read_text (escaped s ++ (b'"' ∷ rest)) ≡ entered (s, rest)
read_text-escaped [] rest h = read_text_close rest
read_text-escaped (c ∷ s) rest h = rw append_assoc (
    read_text-escape c _ h.0 (append-ne-nil (escaped s) b'"' rest)
    ∙ rw (read_text-escaped s rest h.1) refl)

read_text-quoted :
    (s rest : List ℕ)
    → All IsTyped s
    → read_text ((escaped s ++ (b'"' ∷ [])) ++ rest) ≡ entered (s, rest)
read_text-quoted s rest h = rw append_assoc (read_text-escaped s rest h)

skip_none : (c : ℕ) (cs : List ℕ) → is_space c ≡ false → skip_spaces (c ∷ cs) ≡ c ∷ cs
unfolding skip_spaces
skip_none c cs h = rw h refl

-- Fuel for each value is enough.
read_values-json :
    (f : ℕ) (v : List ℕ) (vs : List (List ℕ))
    → All IsTyped v
    → All (All IsTyped) vs
    → length vs < f
    → read_values f (quoted v ++ json_more vs) ≡ entered (v ∷ vs)
unfolding read_values
read_values-json zero v vs hv hvs q = elim q [ ]
read_values-json (suc f) v [] hv hvs q = rw (read_text-quoted v (b']' ∷ []) hv) refl
read_values-json (suc f) v (w ∷ vs) hv hvs q =
    rw (read_text-quoted v (json_more (w ∷ vs)) hv)
      (rw (read_values-json f w vs hvs.0 hvs.1 (omega arith)) refl)

length-json_more : (vs : List (List ℕ)) → length vs < length (json_more vs)
length-json_more [] = omega arith
length-json_more (v ∷ vs) =
    omega (arith, length-json_more vs, length-append (quoted v) (json_more vs))

-- Every list of texts that can be typed is read back from its array in JSON.
pub form_values-json :
    (vs : List (List ℕ)) → All (All IsTyped) vs → form_values (json vs) ≡ entered vs
unfolding form_values json
form_values-json [] h = refl
form_values-json (v ∷ vs) h =
    read_values-json _ v vs h.0 h.1
      (omega (arith, length-json_more vs, length-append (quoted v) (json_more vs)))
