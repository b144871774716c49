-- ===== src/Stream/Reconnect/Text.antt =====
-- `to_ascii_lowercase` and `contains` of Rust's `str`, on bytes.
use mariadb_mysql_cdc.Prelude.{
  ◌+◌, Name, Bool, true, false, ◌&&◌, ◌||◌, [], ◌∷◌, leb, ◌==◌, if◌then◌else◌,
}

unfoldable pub to_ascii_lowercase : Name → Name
to_ascii_lowercase [] = []
to_ascii_lowercase (x ∷ xs) = (if leb 65 x && leb x 90 then x + 32 else x) ∷ to_ascii_lowercase xs

unfoldable pub starts_with : Name → Name → Bool
starts_with [] text = true
starts_with (x ∷ xs) [] = false
starts_with (x ∷ xs) (y ∷ ys) = x == y && starts_with xs ys

unfoldable pub contains_text : Name → Name → Bool
unfolding starts_with
contains_text part [] = starts_with part []
contains_text part (y ∷ ys) = starts_with part (y ∷ ys) || contains_text part ys
