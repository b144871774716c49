-- ===== src/Stream/Token.antt =====
-- The words of a statement (src/live/structured_stream/token.rs) and the quoting of identifiers
-- (src/mysql_support.rs). A text is the list of its characters' codes, and an index into it is the
-- rest of the text from there.
pub mod Ends
pub mod Quoted
mod Tests
use mariadb_mysql_cdc.Prelude.{
  ℕ, zero, suc, ◌+◌, Name, codes, Bool, true, false, ◌&&◌, ◌||◌, not, Option, none, some, List, [],
  ◌∷◌, ◌++◌, map, length, leb, ◌==◌, if◌then◌else◌, is_some,
}

pub data QueryToken : Type 0 where
  identifier : Name → QueryToken
  number dot string other_token : QueryToken

abbrev pub between : ℕ → ℕ → ℕ → Bool
between low high c = leb low c && leb c high

-- char::is_whitespace and char::is_control
unfoldable pub is_whitespace : ℕ → Bool
is_whitespace c =
    between 9 13 c
    || c == 32
    || c == 133
    || c == 160
    || c == 5760
    || between 8192 8202 c
    || c == 8232
    || c == 8233
    || c == 8239
    || c == 8287
    || c == 12288

unfoldable pub is_control : ℕ → Bool
is_control c = leb c 31 || between 127 159 c

abbrev pub is_ascii_alphabetic : ℕ → Bool
is_ascii_alphabetic c = between 65 90 c || between 97 122 c

abbrev pub is_ascii_digit : ℕ → Bool
is_ascii_digit c = between 48 57 c

abbrev pub to_ascii_lowercase : ℕ → ℕ
to_ascii_lowercase c = if between 65 90 c then c + 32 else c

unfoldable pub eq_ignore_ascii_case : Name → Name → Bool
eq_ignore_ascii_case [] [] = true
eq_ignore_ascii_case (c ∷ a) (d ∷ b) =
    let rest = eq_ignore_ascii_case a b in (to_ascii_lowercase c == to_ascii_lowercase d) && rest
eq_ignore_ascii_case _ _ = false

abbrev pub is_next : ℕ → Name → Bool
is_next c [] = false
is_next c (d ∷ rest) = d == c

abbrev ends_dashes : Name → Bool
ends_dashes [] = true
ends_dashes (c ∷ rest) = is_whitespace c || is_control c

-- The rest after the first dash is given.
abbrev pub is_mysql_line_comment_start : ℕ → Name → Bool
is_mysql_line_comment_start c [] = false
is_mysql_line_comment_start c (d ∷ rest) = (c == b'-') && (d == b'-') && ends_dashes rest

unfoldable pub skip_query_line_comment : Name → Name
skip_query_line_comment [] = []
skip_query_line_comment (c ∷ cs) =
    let rest = skip_query_line_comment cs in if c == 10 then c ∷ cs else rest

unfoldable pub skip_query_block_comment : Name → Name
skip_query_block_comment [] = []
skip_query_block_comment (c ∷ []) = []
skip_query_block_comment (c ∷ d ∷ cs) =
    let rest = skip_query_block_comment (d ∷ cs) in if (c == b'*') && (d == b'/') then cs else rest

abbrev pub push : ℕ → Name × Name → Name × Name
push c (value, rest) = (c ∷ value, rest)

-- After the opening quote: the value, and the rest after the closing quote.
unfoldable pub query_quoted_identifier : ℕ → Name → Name × Name
query_quoted_identifier quote [] = ([], [])
query_quoted_identifier quote (c ∷ []) = if c == quote then ([], []) else (c ∷ [], [])
query_quoted_identifier quote (c ∷ d ∷ cs) = elim (c == quote) [
  | false ↦ push c (query_quoted_identifier quote (d ∷ cs))
  | true ↦ elim (d == quote) [
    | true ↦ push quote (query_quoted_identifier quote cs)
    | false ↦ ([], d ∷ cs)
  ]
]

-- After the opening quote.
unfoldable pub skip_query_string : Bool → Bool → Name → Name
skip_query_string no_backslash_escapes escaped [] = []
skip_query_string no_backslash_escapes escaped (c ∷ []) = []
skip_query_string no_backslash_escapes escaped (c ∷ d ∷ cs) = elim escaped [
  | true ↦ skip_query_string no_backslash_escapes false (d ∷ cs)
  | false ↦ elim ((c == b'\\') && not no_backslash_escapes) [
    | true ↦ skip_query_string no_backslash_escapes true (d ∷ cs)
    | false ↦ elim (c == b'\'') [
      | false ↦ skip_query_string no_backslash_escapes false (d ∷ cs)
      | true ↦ elim (d == b'\'') [
        | true ↦ skip_query_string no_backslash_escapes false cs
        | false ↦ d ∷ cs
      ]
    ]
  ]
]

-- The longest prefix that passes the test, and the rest.
unfoldable pub take_while : (ℕ → Bool) → Name → Name × Name
take_while test [] = ([], [])
take_while test (c ∷ cs) =
    let rest = take_while test cs in if test c then push c rest else ([], c ∷ cs)

abbrev pub is_identifier_part : ℕ → Bool
is_identifier_part c = is_ascii_alphabetic c || is_ascii_digit c || c == b'_' || c == b'$'

abbrev pub is_number_part : ℕ → Bool
is_number_part c = is_ascii_alphabetic c || is_ascii_digit c || c == b'_'

abbrev Lexed : Type 0
Lexed = Option QueryToken × Name

abbrev named : Name × Name → Lexed
named (value, rest) = (some (identifier value), rest)

abbrev pub query_identifier_token : ℕ → Name → Lexed
query_identifier_token c cs = named (push c (take_while is_identifier_part cs))

abbrev pub query_number_token : Name → Lexed
query_number_token cs = (some number, (take_while is_number_part cs).1)

abbrev pub drop_one : Name → Name
drop_one [] = []
drop_one (c ∷ cs) = cs

unfoldable pub next_query_token : Bool → ℕ → Name → Lexed
unfolding is_whitespace is_control
next_query_token no_backslash_escapes c cs =
    if is_whitespace c
    then (none, cs)
    else if c == b'#' || is_mysql_line_comment_start c cs
    then (none, skip_query_line_comment (if c == b'#' then cs else drop_one cs))
    else if (c == b'/') && is_next b'*' cs
    then (none, skip_query_block_comment (drop_one cs))
    else if c == b'`' || c == b'"'
    then named (query_quoted_identifier c cs)
    else if c == b'\''
    then (some string, skip_query_string no_backslash_escapes false cs)
    else if c == b'.'
    then (some dot, cs)
    else if is_ascii_alphabetic c || c == b'_' || c == b'$'
    then query_identifier_token c cs
    else if is_ascii_digit c
    then query_number_token cs
    else (some other_token, cs)

abbrev add_token : Option QueryToken → Option (List QueryToken) → Option (List QueryToken)
add_token _ none = none
add_token none (some tokens) = some tokens
add_token (some token) (some tokens) = some (token ∷ tokens)

-- The loop over the characters, on fuel.
unfoldable pub token_rounds : ℕ → Bool → Name → Option (List QueryToken)
token_rounds zero no_backslash_escapes [] = some []
token_rounds zero no_backslash_escapes (c ∷ cs) = none
token_rounds (suc fuel) no_backslash_escapes [] = some []
token_rounds (suc fuel) no_backslash_escapes (c ∷ cs) =
    let found = next_query_token no_backslash_escapes c cs in
    add_token found.0 (token_rounds fuel no_backslash_escapes found.1)

abbrev or_empty : Option (List QueryToken) → List QueryToken
or_empty none = []
or_empty (some tokens) = tokens

unfoldable pub query_tokens_with_mode : Name → Bool → List QueryToken
unfolding token_rounds
query_tokens_with_mode sql no_backslash_escapes =
    or_empty (token_rounds (length sql) no_backslash_escapes sql)

abbrev pub names_schema : Name → List QueryToken → Bool
names_schema schema (identifier name ∷ dot ∷ tokens) = eq_ignore_ascii_case name schema
names_schema schema _ = false

unfoldable pub any_names_schema : Name → List QueryToken → Bool
unfolding eq_ignore_ascii_case
any_names_schema schema [] = false
any_names_schema schema (token ∷ tokens) =
    let rest = any_names_schema schema tokens in names_schema schema (token ∷ tokens) || rest

unfoldable pub query_references_schema_with_mode : Name → Name → Bool → Bool
unfolding query_tokens_with_mode any_names_schema
query_references_schema_with_mode sql schema no_backslash_escapes =
    any_names_schema schema (query_tokens_with_mode sql no_backslash_escapes)

abbrev pub is_qualified : List QueryToken → Bool
is_qualified (identifier _ ∷ dot ∷ identifier _ ∷ tokens) = true
is_qualified _ = false

unfoldable pub any_qualified : List QueryToken → Bool
any_qualified [] = false
any_qualified (token ∷ tokens) =
    let rest = any_qualified tokens in is_qualified (token ∷ tokens) || rest

unfoldable pub query_contains_qualified_identifier_with_mode : Name → Bool → Bool
unfolding query_tokens_with_mode any_qualified
query_contains_qualified_identifier_with_mode sql no_backslash_escapes =
    any_qualified (query_tokens_with_mode sql no_backslash_escapes)

-- str::replace of a backtick by two.
abbrev pub double_backticks : Name → Name
double_backticks [] = []
double_backticks (c ∷ cs) =
    if c == b'`' then c ∷ c ∷ double_backticks cs else c ∷ double_backticks cs

abbrev pub quote_ident : Name → Name
quote_ident name = b'`' ∷ (double_backticks name ++ b'`' ∷ [])
