-- ===== src/Trade/Forms.antt =====
-- `textFormValues` of src/trade_form.cpp: the answer of a form, an array of texts in JSON. The loop over the
-- values takes fuel, since each value ends where its text does; a unit for each byte is enough.
use endstone_exchange.Common.{
  length, ltb, none, [], suc, ◌==◌, some, if◌then◌else◌, ◌∷◌, Option, List, ℕ, zero,
}
use endstone_exchange.Texts.{skip_spaces}
use endstone_exchange.Trade.{Entered, entered, refused, invalid_form_data}

-- The character that stands behind a backslash
unfoldable pub unescape : ℕ → Option ℕ
unescape c =
    if c == b'"'
    then some b'"'
    else if c == 92
    then some 92
    else if c == b'/'
    then some b'/'
    else if c == b'b'
    then some 8
    else if c == b'f'
    then some 12
    else if c == b'n'
    then some 10
    else if c == b'r'
    then some 13
    else if c == b't'
    then some 9
    else none

abbrev pub Read : Type 0
Read = Entered (List ℕ × List ℕ)

abbrev pub before : ℕ → Read → Read
before c (entered (value, rest)) = entered (c ∷ value, rest)
before c (refused e) = refused e

abbrev pub before_escaped : Option ℕ → Read → Read
before_escaped none r = refused invalid_form_data
before_escaped (some c) r = before c r

-- A text up to its closing quote, and what follows it: the loop on `closed`
unfoldable pub read_text : List ℕ → Read
unfolding unescape
read_text [] = refused invalid_form_data
read_text (c ∷ []) = if c == b'"' then entered ([], []) else refused invalid_form_data
read_text (c ∷ d ∷ cs) =
    let escaped = before_escaped (unescape d) (read_text cs) in
    let plain = before c (read_text (d ∷ cs)) in
    if c == b'"'
    then entered ([], d ∷ cs)
    else if ltb c 32
    then refused invalid_form_data
    else if c == 92
    then escaped
    else plain

-- Behind the array there are only spaces.
abbrev pub finish : List (List ℕ) → List ℕ → Entered (List (List ℕ))
finish values [] = entered values
finish values (c ∷ cs) = refused invalid_form_data

abbrev pub add_first : List ℕ → Entered (List (List ℕ)) → Entered (List (List ℕ))
add_first v (entered vs) = entered (v ∷ vs)
add_first v (refused e) = refused e

-- Behind a value: the array is closed, or a comma and the next value follow.
abbrev pub behind_value :
    (List ℕ → Entered (List (List ℕ))) → List ℕ → List ℕ → Entered (List (List ℕ))
behind_value next value [] = refused invalid_form_data
behind_value next value (c ∷ cs) =
    if c == b']'
    then finish (value ∷ []) (skip_spaces cs)
    else if c == b','
    then add_first value (next (skip_spaces cs))
    else refused invalid_form_data

abbrev pub behind_text : (List ℕ → Entered (List (List ℕ))) → Read → Entered (List (List ℕ))
behind_text next (refused e) = refused e
behind_text next (entered (value, rest)) = behind_value next value (skip_spaces rest)

unfoldable pub read_values : ℕ → List ℕ → Entered (List (List ℕ))
unfolding read_text skip_spaces
read_values fuel [] = refused invalid_form_data
read_values zero (c ∷ cs) = refused invalid_form_data
read_values (suc fuel) (c ∷ cs) =
    if c == b'"' then behind_text (read_values fuel) (read_text cs) else refused invalid_form_data

-- An array that is closed at once has no values.
abbrev pub read_array : List ℕ → Entered (List (List ℕ))
read_array [] = refused invalid_form_data
read_array (c ∷ cs) =
    if c == b']' then finish [] (skip_spaces cs) else read_values (length (c ∷ cs)) (c ∷ cs)

abbrev pub read_opening : List ℕ → Entered (List (List ℕ))
read_opening [] = refused invalid_form_data
read_opening (c ∷ cs) = if c == b'[' then read_array (skip_spaces cs) else refused invalid_form_data

-- `textFormValues`
unfoldable pub form_values : List ℕ → Entered (List (List ℕ))
unfolding skip_spaces
form_values response = read_opening (skip_spaces response)
