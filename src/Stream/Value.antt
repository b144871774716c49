-- ===== src/Stream/Value.antt =====
-- The cells of a row event as values for the target (src/live/structured_stream/value.rs): integers
-- by their width, ordinals of an enumeration, and the time of a day.
pub mod Integers
mod Tests
use mariadb_mysql_cdc.Prelude.{
  ℕ, zero, suc, ◌+◌, ◌-◌, ◌/◌, ◌%◌, ◌^◌, Name, Bool, true, false, ◌||◌, Option, none, some, List,
  [], ◌∷◌, length, ltb, leb, ◌==◌, if◌then◌else◌,
}
use mariadb_mysql_cdc.Stream.Types.{statement, enum_ordinal_exceeds}
use mariadb_mysql_cdc.Stream.Exec.{Result, ok, err}

-- `pos n` is n and `negsuc n` is -(n + 1).
pub data ℤ : Type 0 where
  pos negsuc : ℕ → ℤ

pub data Value : Type 0 where
  int : ℤ → Value
  uint : ℕ → Value
  bytes : Name → Value

-- The unsigned integers that the decoder gives, and the other cells.
pub data MySqlValue : Type 0 where
  tiny_int small_int medium_int int_value big_int : ℕ → MySqlValue
  other_value : MySqlValue

-- a - b
abbrev pub difference : ℕ → ℕ → ℤ
difference a b = if leb b a then pos (a - b) else negsuc (b - a - 1)

-- The cast of an unsigned integer of a width to the signed one.
abbrev pub as_signed : ℕ → ℕ → ℤ
as_signed width value =
    if ltb value (2 ^ (width - 1)) then pos value else difference value (2 ^ width)

unfoldable pub sign_extend_u24 : ℕ → ℤ
sign_extend_u24 value = if (value / 2 ^ 23) % 2 == 0 then pos value else difference value (2 ^ 24)

unfoldable pub convert_mysql_integer_value : MySqlValue → Bool → Option Value
convert_mysql_integer_value (tiny_int v) true = some (int (as_signed 8 v))
convert_mysql_integer_value (tiny_int v) false = some (uint v)
convert_mysql_integer_value (small_int v) true = some (int (as_signed 16 v))
convert_mysql_integer_value (small_int v) false = some (uint v)
convert_mysql_integer_value (medium_int v) true = some (int (sign_extend_u24 v))
convert_mysql_integer_value (medium_int v) false = some (uint v)
convert_mysql_integer_value (int_value v) true = some (int (as_signed 32 v))
convert_mysql_integer_value (int_value v) false = some (uint v)
convert_mysql_integer_value (big_int v) true = some (int (as_signed 64 v))
convert_mysql_integer_value (big_int v) false = some (uint v)
convert_mysql_integer_value other_value signed = none

abbrev pub get : {A : Type 0} → ℕ → List A → Option A
get n [] = none
get zero (x ∷ xs) = some x
get (suc n) (x ∷ xs) = get n xs

-- An ordinal is a u32, which fits `usize`.
unfoldable pub enum_value_to_target_value : ℕ → Option (List Name) → Result Value
enum_value_to_target_value ordinal none = ok (uint ordinal)
enum_value_to_target_value ordinal (some enum_values) =
    if ordinal == 0 then ok (bytes []) else elim (get (ordinal - 1) enum_values) [
      | some value ↦ ok (bytes value)
      | none ↦ err (statement (enum_ordinal_exceeds ordinal (length enum_values)))
    ]

pub record TimeParts : Type 0 where
  pub hour : ℕ
  pub minute : ℕ
  pub second : ℕ

-- The casts are to u8.
unfoldable pub time_from_seconds : ℕ → TimeParts
time_from_seconds seconds_of_day = record {
  hour = seconds_of_day / 3600 % 256;
  minute = seconds_of_day % 3600 / 60 % 256;
  second = seconds_of_day % 60 % 256;
}
