-- ===== src/Config/Load.antt =====
-- `Config::load` of src/config.cpp: from the lines of the file to the configuration. The file itself is
-- an argument, as the list of its lines.
use mathlib.Core.List.{tail}
use endstone_exchange.Common.{
  ◌&&◌, ◌==◌, ◌++◌, not, Option, ◌∷◌, [], if◌then◌else◌, String, List, ℕ, Bool, false, true, none,
  some,
}
use endstone_exchange.Texts.{codes, trim}
use endstone_exchange.Config.{
  pos, Checked, valid, invalid, invalid_line, ◌>>=◌, ◌>>◌, Config, DatabaseConfig, MarketConfig,
  EconomyConfig, same_bytes, no_bytes, internal, umoney, validate,
}
use endstone_exchange.Config.Values.{
  unquote, parse_signed, parse_unsigned, parse_bool, parse_cents, lower_case, split_at, but_last,
}

-- A line up to its comment: a `#` between quotation marks begins none.
unfoldable pub strip_comment : Bool → Bool → List ℕ → List ℕ
strip_comment quoted escaped [] = []
strip_comment quoted escaped (c ∷ cs) =
    let rest =
      strip_comment (if not escaped && c == b'"' then not quoted else quoted)
        (not escaped && c == 92 && quoted) cs in
    if not escaped && c == b'#' && not quoted then [] else c ∷ rest

abbrev pub Entries : Type 0
Entries = List (List ℕ × List ℕ)

-- A later line takes the place of an earlier one with the same key.
unfoldable pub find_entry : List ℕ → Entries → Option (List ℕ)
find_entry key [] = none
find_entry key ((k, v) ∷ rest) =
    let more = find_entry key rest in if same_bytes k key then some v else more

abbrev pub full_key : List ℕ → List ℕ → List ℕ
full_key section key = (if no_bytes section then [] else section ++ (b'.' ∷ [])) ++ key

abbrev pub assigned : List ℕ → Entries → List ℕ × Option (List ℕ) → Checked (List ℕ × Entries)
assigned section entries (key, none) = invalid invalid_line
assigned section entries (key, some value) =
    valid (section, (full_key section (trim key), trim value) ∷ entries)

-- A trimmed line, behind the current section and the entries of the lines before
abbrev pub take_line : List ℕ → Entries → List ℕ → Checked (List ℕ × Entries)
take_line section entries [] = valid (section, entries)
take_line section entries (c ∷ cs) =
    let (front, last) = but_last c cs in
    if c == b'[' && last == b']'
    then valid (trim (tail front), entries)
    else assigned section entries (split_at b'=' (c ∷ cs))

unfoldable pub read_lines : List ℕ → Entries → List (List ℕ) → Checked Entries
unfolding strip_comment trim split_at but_last
read_lines section entries [] = valid entries
read_lines section entries (line ∷ lines) =
    take_line section entries (trim (strip_comment false false line)) >>= λ (section', entries').
    read_lines section' entries' lines

-- The value of a key by its reader, or what stands without one
abbrev pub value_or {ℓ} : {A : Type ℓ} → (List ℕ → Checked A) → Option (List ℕ) → A → Checked A
value_or read none fallback = valid fallback
value_or read (some text) fallback = read text

-- The keys of a section
module _ (entries : Entries) (section : String) where
  unfoldable pub value_of {ℓ} : {A : Type ℓ} → (List ℕ → Checked A) → String → A → Checked A
  unfolding find_entry
  value_of read key fallback =
      value_or read (find_entry (full_key (codes section) (codes key)) entries) fallback

-- `std::numeric_limits` of `int`, `unsigned int` and `std::uint64_t`
abbrev pub int_max : ℕ
int_max = 2147483647

abbrev pub unsigned_max : ℕ
unsigned_max = 4294967295

abbrev pub uint64_max : ℕ
uint64_max = 18446744073709551615

unfoldable pub database_of : Entries → Checked DatabaseConfig
unfolding value_of unquote parse_unsigned
database_of m = do
  h ← value_of m "database" unquote "host" (codes "127.0.0.1")
  p ← value_of m "database" (parse_unsigned unsigned_max) "port" 3306
  u ← value_of m "database" unquote "user" (codes "exchange")
  w ← value_of m "database" unquote "password" []
  n ← value_of m "database" unquote "name" (codes "endstone_exchange")
  t ← value_of m "database" (parse_unsigned unsigned_max) "connect_timeout_seconds" 5
  valid
      (record { host = h; port = p; user = u; password = w; name = n; connect_timeout_seconds = t })

unfoldable pub market_of : Entries → Checked MarketConfig
unfolding value_of parse_signed parse_unsigned parse_bool parse_cents
market_of m = do
  balance ← value_of m "market" parse_cents "initial_balance" (pos 1000000)
  quantity ← value_of m "market" (parse_signed int_max) "max_order_quantity" (pos 640)
  lowest ← value_of m "market" parse_cents "price_min" (pos 100)
  highest ← value_of m "market" parse_cents "price_max" (pos 500000)
  step ← value_of m "market" parse_cents "price_step" (pos 100)
  depth ← value_of m "market" (parse_signed int_max) "order_book_depth" (pos 5)
  refresh ← value_of m "market" (parse_unsigned uint64_max) "hologram_refresh_ticks" 20
  delay ← value_of m "market" (parse_unsigned uint64_max) "frame_capture_delay_ticks" 80
  cleanup ← value_of m "market" parse_bool "cleanup_structure_captures" true
  valid (record {
    initial_balance_cents = balance;
    max_order_quantity = quantity;
    price_min_cents = lowest;
    price_max_cents = highest;
    price_step_cents = step;
    order_book_depth = depth;
    hologram_refresh_ticks = refresh;
    frame_capture_delay_ticks = delay;
    cleanup_structure_captures = cleanup;
  })

unfoldable pub economy_of : Entries → Checked EconomyConfig
unfolding value_of unquote parse_unsigned
economy_of m = do
  p ← value_of m "economy" unquote "provider" internal
  u ← value_of m "economy" unquote "umoney_plugin" umoney
  i ← value_of m "economy" (parse_unsigned uint64_max) "recovery_interval_ticks" 100
  valid (record { provider = lower_case p; umoney_plugin = u; recovery_interval_ticks = i })

-- `Config::load`
unfoldable pub load : List (List ℕ) → Checked Config
unfolding read_lines database_of market_of economy_of validate
load lines = do
  entries ← read_lines [] [] lines
  d ← database_of entries
  m ← market_of entries
  e ← economy_of entries
  let c : Config = record { database = d; market = m; economy = e }
  validate c
  valid c
