-- ===== src/Stream/Value/Tests.antt =====
-- Cells at examples: src/live/structured_stream/value.rs.
use mariadb_mysql_cdc.Prelude.{
  ◌+◌, ◌*◌, ◌<◌, ◌≤◌, Name, codes, true, ◌≡◌, refl, ◌↔◌, some, List, [], ◌∷◌, length, arith,
}
use mariadb_mysql_cdc.Stream.Exec.{ok}
use mariadb_mysql_cdc.Stream.Value.{
  negsuc, Value, int, medium_int, sign_extend_u24, convert_mysql_integer_value,
  enum_value_to_target_value, time_from_seconds,
}
use mariadb_mysql_cdc.Stream.Value.Integers.{
  bits_of, Fits, convert_mysql_integer_value-bits, enum_value_to_target_value-range,
  time_from_seconds-parts,
}

-- -1 in three bytes
minus_one : convert_mysql_integer_value (medium_int 16777215) true ≡ some (int (negsuc 0))
unfolding convert_mysql_integer_value sign_extend_u24
minus_one = refl

convert_mysql_integer_value-bits_example : (bits_of 24 (negsuc 0) ≡ 16777215) × Fits 24 (negsuc 0)
convert_mysql_integer_value-bits_example =
    convert_mysql_integer_value-bits (medium_int 16777215) (negsuc 0) (ground arith) minus_one

abbrev sizes : List Name
sizes = codes "small" ∷ codes "large" ∷ []

enum_value_to_target_value-range_example :
    ((value : Value) × (enum_value_to_target_value 2 (some sizes) ≡ ok value)) ↔ (2 ≤ length sizes)
enum_value_to_target_value-range_example = enum_value_to_target_value-range 2 sizes

time_from_seconds-parts_example :
    let t = time_from_seconds 86399 in
    (t.hour < 24)
    × (t.minute < 60)
    × (t.second < 60)
    × (t.hour * 3600 + t.minute * 60 + t.second ≡ 86399)
time_from_seconds-parts_example = time_from_seconds-parts 86399 (ground arith)
