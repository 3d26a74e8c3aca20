-- ===== src/Config.antt =====
-- The configuration of src/config.cpp and include/endstone_exchange/config.hpp: its fields and what `Config::validate` asks of
-- them. Texts are lists of bytes.
pub mod Values
pub mod Load
pub mod Sound
use endstone_exchange.Common.Int.{leb_ℤ, pos_part, eqb_ℤ, pos, ltb_ℤ, ℤ}
use endstone_exchange.Common.{
  if◌then◌else◌, ◌%◌, ◌&&◌, [], not, ◌/◌, leb, ◌∷◌, false, true, ◌==◌, List, ℕ, ltb, Bool, ◌||◌,
}
use endstone_exchange.Texts.{int64_max, is_digit}

pub data ConfigError : Type 0 where
  missing_names invalid_port invalid_database_name invalid_limits order_value_too_large :
      ConfigError
  prices_not_whole unknown_provider invalid_recovery_interval invalid_umoney_plugin : ConfigError
  umoney_initial_balance : ConfigError
  unterminated_escape invalid_integer invalid_boolean empty_money invalid_money : ConfigError
  money_too_large invalid_line : ConfigError

pub data Checked {ℓ} (A : Type ℓ) : Type ℓ where
  valid : A → Checked A
  invalid : ConfigError → Checked A

infixl 5 ◌>>=◌ ◌>>◌
abbrev pub ◌>>=◌ {ℓ κ} : {A : Type ℓ} {B : Type κ} → Checked A → (A → Checked B) → Checked B
valid a >>= f = f a
invalid e >>= f = invalid e

abbrev pub ◌>>◌ {ℓ} : {B : Type ℓ} → Checked (Unit {0}) → Checked B → Checked B
m >> k = m >>= λ _. k

abbrev pub refuse_if : Bool → ConfigError → Checked (Unit {0})
refuse_if true e = invalid e
refuse_if false e = valid tt

-- `DatabaseConfig`
pub record DatabaseConfig : Type 0 where
  pub host : List ℕ
  pub port : ℕ
  pub user : List ℕ
  pub password : List ℕ
  pub name : List ℕ
  pub connect_timeout_seconds : ℕ

-- `MarketConfig`
pub record MarketConfig : Type 0 where
  pub initial_balance_cents : ℤ
  pub max_order_quantity : ℤ
  pub price_min_cents : ℤ
  pub price_max_cents : ℤ
  pub price_step_cents : ℤ
  pub order_book_depth : ℤ
  pub hologram_refresh_ticks : ℕ
  pub frame_capture_delay_ticks : ℕ
  pub cleanup_structure_captures : Bool

-- `EconomyConfig`
pub record EconomyConfig : Type 0 where
  pub provider : List ℕ
  pub umoney_plugin : List ℕ
  pub recovery_interval_ticks : ℕ

-- `Config`
pub record Config : Type 0 where
  pub database : DatabaseConfig
  pub market : MarketConfig
  pub economy : EconomyConfig

abbrev pub same_bytes : List ℕ → List ℕ → Bool
same_bytes [] [] = true
same_bytes [] (d ∷ ds) = false
same_bytes (c ∷ cs) [] = false
same_bytes (c ∷ cs) (d ∷ ds) = c == d && same_bytes cs ds

abbrev pub no_bytes : List ℕ → Bool
no_bytes [] = true
no_bytes (c ∷ cs) = false

abbrev pub internal : List ℕ
internal = b'i' ∷ b'n' ∷ b't' ∷ b'e' ∷ b'r' ∷ b'n' ∷ b'a' ∷ b'l' ∷ []

abbrev pub umoney : List ℕ
umoney = b'u' ∷ b'm' ∷ b'o' ∷ b'n' ∷ b'e' ∷ b'y' ∷ []

-- `usesUmoney`
unfoldable pub uses_umoney : EconomyConfig → Bool
uses_umoney e = same_bytes e.provider umoney

-- `std::isalnum` in the locale "C"
unfoldable pub is_alnum : ℕ → Bool
unfolding is_digit
is_alnum c = is_digit c || (leb b'A' c && leb c b'Z') || (leb b'a' c && leb c b'z')

unfoldable pub name_allowed : List ℕ → Bool
unfolding is_alnum
name_allowed [] = true
name_allowed (c ∷ cs) = (is_alnum c || c == b'_') && name_allowed cs

unfoldable pub has_line_break : List ℕ → Bool
has_line_break [] = false
has_line_break (c ∷ cs) = c == 13 || c == 10 || has_line_break cs

abbrev market_invalid : MarketConfig → Bool
market_invalid m =
    ltb_ℤ m.initial_balance_cents (pos 0)
    || leb_ℤ m.max_order_quantity (pos 0)
    || leb_ℤ m.price_min_cents (pos 0)
    || ltb_ℤ m.price_max_cents m.price_min_cents
    || leb_ℤ m.price_step_cents (pos 0)
    || leb_ℤ m.order_book_depth (pos 0)
    || ltb_ℤ (pos 50) m.order_book_depth
    || m.hologram_refresh_ticks == 0
    || m.frame_capture_delay_ticks == 0

-- The checks of the market: behind the first one, its numbers are positive.
unfoldable pub validate_market : MarketConfig → Checked (Unit {0})
validate_market m = do
  refuse_if (market_invalid m) invalid_limits
  refuse_if (ltb (int64_max / pos_part m.max_order_quantity) (pos_part m.price_max_cents))
      order_value_too_large
  refuse_if
      (not (pos_part m.price_min_cents % 100 == 0)
        || not (pos_part m.price_max_cents % 100 == 0)
        || not (pos_part m.price_step_cents % 100 == 0))
      prices_not_whole

unfoldable pub validate_umoney : Config → Checked (Unit {0})
unfolding has_line_break
validate_umoney c = do
  refuse_if (no_bytes c.economy.umoney_plugin || has_line_break c.economy.umoney_plugin)
      invalid_umoney_plugin
  refuse_if (not (eqb_ℤ c.market.initial_balance_cents (pos 0))) umoney_initial_balance

-- `Config::validate`
unfoldable pub validate : Config → Checked (Unit {0})
unfolding name_allowed uses_umoney
validate c = do
  refuse_if (no_bytes c.database.host || no_bytes c.database.user || no_bytes c.database.name)
      missing_names
  refuse_if
      (c.database.port == 0 || ltb 65535 c.database.port || c.database.connect_timeout_seconds == 0)
      invalid_port
  refuse_if (not (name_allowed c.database.name)) invalid_database_name
  validate_market c.market
  refuse_if
      (not (same_bytes c.economy.provider internal) && not (same_bytes c.economy.provider umoney))
      unknown_provider
  refuse_if (c.economy.recovery_interval_ticks == 0 || ltb 72000 c.economy.recovery_interval_ticks)
      invalid_recovery_interval
  if uses_umoney c.economy then validate_umoney c else valid tt
