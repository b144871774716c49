-- ===== src/Stream/Value/Integers.antt =====
-- Cells keep what they stand for: src/live/structured_stream/value.rs.
use mariadb_mysql_cdc.Prelude.{
  ℕ, zero, suc, ◌+◌, ◌-◌, ◌*◌, ◌^◌, ◌<◌, ◌≤◌, Name, true, ◌≡◌, refl, ◌↔◌, inl, inr, none, some,
  is_some, Option-cases, dec_lt, List, [], ◌∷◌, length, arith,
}
use mariadb_mysql_cdc.Stream.Exec.{ok}
use mariadb_mysql_cdc.Stream.Value.{
  ℤ, pos, negsuc, Value, int, bytes, MySqlValue, tiny_int, small_int, medium_int, int_value,
  big_int, other_value, sign_extend_u24, convert_mysql_integer_value, get,
  enum_value_to_target_value, time_from_seconds,
}

abbrev pub width : MySqlValue → ℕ
width (tiny_int _) = 8
width (small_int _) = 16
width (medium_int _) = 24
width (int_value _) = 32
width (big_int _) = 64
width other_value = 0

abbrev pub unsigned : MySqlValue → ℕ
unsigned (tiny_int v) = v
unsigned (small_int v) = v
unsigned (medium_int v) = v
unsigned (int_value v) = v
unsigned (big_int v) = v
unsigned other_value = 0

-- The bits of a number in two's complement, and that a width has room for it.
abbrev pub bits_of : ℕ → ℤ → ℕ
bits_of w (pos n) = n
bits_of w (negsuc n) = 2 ^ w - (n + 1)

abbrev pub Fits : ℕ → ℤ → Type 0
Fits w (pos n) = n < 2 ^ (w - 1)
Fits w (negsuc n) = n < 2 ^ (w - 1)

-- A signed integer cell is converted to the number whose two's complement, in the width of the cell,
-- are the bits that were decoded, and which fits the width.
pub convert_mysql_integer_value-bits :
    (value : MySqlValue) (z : ℤ)
    → unsigned value < 2 ^ width value
    → convert_mysql_integer_value value true ≡ some (int z)
    → (bits_of (width value) z ≡ unsigned value) × Fits (width value) z
unfolding convert_mysql_integer_value sign_extend_u24
convert_mysql_integer_value-bits (tiny_int v) z l h = (ground arith, ground arith)
convert_mysql_integer_value-bits (small_int v) z l h = (ground arith, ground arith)
convert_mysql_integer_value-bits (medium_int v) z l h = (ground arith, ground arith)
convert_mysql_integer_value-bits (int_value v) z l h = (ground arith, ground arith)
convert_mysql_integer_value-bits (big_int v) z l h = (ground arith, ground arith)
convert_mysql_integer_value-bits other_value z l h = absurd (ground arith)

-- The parts of a second of a day are in their ranges and add up to it.
pub time_from_seconds-parts :
    (seconds : ℕ)
    → seconds < 86400
    → let t = time_from_seconds seconds in
      (t.hour < 24)
      × (t.minute < 60)
      × (t.second < 60)
      × (t.hour * 3600 + t.minute * 60 + t.second ≡ seconds)
unfolding time_from_seconds
time_from_seconds-parts seconds l = (omega arith, omega arith, omega arith, omega arith)

get_in : (n : ℕ) (xs : List Name) → n < length xs → is_some (get n xs) ≡ true
get_in n [] l = absurd (ground arith)
get_in zero (x ∷ xs) l = refl
get_in (suc n) (x ∷ xs) l = get_in n xs (ground arith)

get_out : (n : ℕ) (xs : List Name) → length xs ≤ n → get n xs ≡ none
get_out n [] l = refl
get_out zero (x ∷ xs) l = absurd (ground arith)
get_out (suc n) (x ∷ xs) l = get_out n xs (ground arith)

-- The ordinal of an enumeration with known values is converted exactly where it is at most the
-- number of values.
pub enum_value_to_target_value-range :
    (ordinal : ℕ) (enum_values : List Name)
    → ((value : Value) × (enum_value_to_target_value ordinal (some enum_values) ≡ ok value))
      ↔ (ordinal ≤ length enum_values)
unfolding enum_value_to_target_value
enum_value_to_target_value-range ordinal enum_values = (
  λ (value, e). ground (arith, get_out (ordinal - 1) enum_values),
  λ l. elim (dec_lt 0 ordinal) [
    | no z ↦ (bytes [], ground arith)
    | yes n ↦ elim (Option-cases (get (ordinal - 1) enum_values)) [
      | inl e ↦ absurd (ground (arith, get_in (ordinal - 1) enum_values))
      | inr (value, e) ↦ (bytes value, ground arith)
    ]
  ],
)
