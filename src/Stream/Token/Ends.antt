-- ===== src/Stream/Token/Ends.antt =====
-- The loop over the characters of a statement ends (query_tokens_with_mode of
-- src/live/structured_stream/token.rs).
use mariadb_mysql_cdc.Prelude.{
  ℕ, zero, suc, ◌≤◌, Name, Bool, true, false, Option, none, some, List, [], ◌∷◌, length, ◌≡◌, arith,
  ◌==◌, is_some, if◌then◌else◌,
}
use mariadb_mysql_cdc.Stream.Token.{
  QueryToken, is_identifier_part, is_number_part, skip_query_line_comment, skip_query_block_comment,
  query_quoted_identifier, skip_query_string, take_while, drop_one, next_query_token, token_rounds,
  query_tokens_with_mode,
}

abbrev pub add_word : Option QueryToken → List QueryToken → List QueryToken
add_word none tokens = tokens
add_word (some token) tokens = token ∷ tokens

line_comment-le : (cs : Name) → length (skip_query_line_comment cs) ≤ length cs
unfolding skip_query_line_comment
line_comment-le [] = ground arith
line_comment-le (c ∷ cs) = ground (arith, line_comment-le cs)

block_comment-le : (cs : Name) → length (skip_query_block_comment cs) ≤ length cs
unfolding skip_query_block_comment
block_comment-le [] = ground arith
block_comment-le (c ∷ []) = ground arith
block_comment-le (c ∷ d ∷ cs) = ground (arith, block_comment-le (d ∷ cs))

quoted-le : (quote : ℕ) (cs : Name) → length (query_quoted_identifier quote cs).1 ≤ length cs
unfolding query_quoted_identifier
quoted-le quote [] = ground arith
quoted-le quote (c ∷ []) = ground arith
quoted-le quote (c ∷ d ∷ cs) = ground (arith, quoted-le quote (d ∷ cs), quoted-le quote cs)

string-le :
    (mode escaped : Bool) (cs : Name) → length (skip_query_string mode escaped cs) ≤ length cs
unfolding skip_query_string
string-le mode escaped [] = ground arith
string-le mode escaped (c ∷ []) = ground arith
string-le mode escaped (c ∷ d ∷ cs) =
    ground
      (arith, string-le mode false (d ∷ cs), string-le mode true (d ∷ cs), string-le mode false cs)

take_while-le : (test : ℕ → Bool) (cs : Name) → length (take_while test cs).1 ≤ length cs
unfolding take_while
take_while-le test [] = ground arith
take_while-le test (c ∷ cs) = ground (arith, take_while-le test cs)

after_mark-le : (b : Bool) (cs : Name) → length (if b then cs else drop_one cs) ≤ length cs
after_mark-le true cs = ground arith
after_mark-le false [] = ground arith
after_mark-le false (c ∷ cs) = ground arith

pub next-le : (mode : Bool) (c : ℕ) (cs : Name) → length (next_query_token mode c cs).1 ≤ length cs
unfolding next_query_token
next-le mode c cs =
    let one = after_mark-le (c == b'#') cs in
    let two = after_mark-le false cs in
    let line = line_comment-le (if c == b'#' then cs else drop_one cs) in
    let block = block_comment-le (drop_one cs) in
    ground (
      arith,
      line,
      one,
      block,
      two,
      quoted-le c cs,
      string-le mode false cs,
      take_while-le is_identifier_part cs,
      take_while-le is_number_part cs,
    )

rounds-enough :
    (m n : ℕ) (mode : Bool) (cs : Name)
    → length cs ≤ m
    → length cs ≤ n
    → (is_some (token_rounds m mode cs) ≡ true) × (token_rounds m mode cs ≡ token_rounds n mode cs)
unfolding token_rounds
rounds-enough zero zero mode [] hm hn = ground arith
rounds-enough zero (suc n) mode [] hm hn = ground arith
rounds-enough (suc m) zero mode [] hm hn = ground arith
rounds-enough (suc m) (suc n) mode [] hm hn = ground arith
rounds-enough zero n mode (c ∷ cs) hm hn = absurd (ground arith)
rounds-enough (suc m) zero mode (c ∷ cs) hm hn = absurd (ground arith)
rounds-enough (suc m) (suc n) mode (c ∷ cs) hm hn =
    let found = next_query_token mode c cs in
    let less = next-le mode c cs in
    ground (arith, rounds-enough m n mode found.1 (omega (arith, less)) (omega (arith, less)))

-- The loop ends at the end of the text, whatever the text is: every word takes at least a character,
-- and with as many rounds as there are characters or more the words are the same.
pub query_tokens_with_mode-ends :
    (fuel : ℕ) (sql : Name) (mode : Bool)
    → length sql ≤ fuel
    → token_rounds fuel mode sql ≡ some (query_tokens_with_mode sql mode)
unfolding query_tokens_with_mode
query_tokens_with_mode-ends fuel sql mode enough =
    ground (arith, rounds-enough (length sql) fuel mode sql (omega arith) enough)

-- The words of a text are its first word, if it has one, and the words of the rest.
pub query_tokens-step :
    (c : ℕ) (cs : Name) (mode : Bool)
    → query_tokens_with_mode (c ∷ cs) mode ≡ (
        let found = next_query_token mode c cs in
        add_word found.0 (query_tokens_with_mode found.1 mode))
unfolding query_tokens_with_mode token_rounds
query_tokens-step c cs mode =
    let found = next_query_token mode c cs in
    let less = next-le mode c cs in
    ground (arith, rounds-enough (length cs) (length found.1) mode found.1 less (omega arith))
