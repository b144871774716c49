-- ===== src/Stream/Token/Tests.antt =====
-- The words of statements, and the theorems at them.
use mariadb_mysql_cdc.Prelude.{true, false, some, [], ◌∷◌, ◌++◌, ◌≡◌, refl, codes, arith}
use mariadb_mysql_cdc.Stream.Token.{
  identifier, number, dot, string, is_whitespace, is_control, skip_query_line_comment,
  skip_query_block_comment, query_quoted_identifier, skip_query_string, take_while,
  next_query_token, token_rounds, query_tokens_with_mode, eq_ignore_ascii_case, any_names_schema,
  query_references_schema_with_mode, any_qualified, query_contains_qualified_identifier_with_mode,
  quote_ident,
}
use mariadb_mysql_cdc.Stream.Token.Ends.{query_tokens_with_mode-ends}
use mariadb_mysql_cdc.Stream.Token.Quoted.{
  query_tokens-quote_ident, query_references_schema-quote_ident,
}

words :
    query_tokens_with_mode (codes "a.b -- c\nd '\\'' /* e */ 12#f") false
    ≡ identifier (codes "a")
      ∷ dot
      ∷ identifier (codes "b")
      ∷ identifier (codes "d")
      ∷ string
      ∷ number
      ∷ []
unfolding query_tokens_with_mode token_rounds next_query_token is_whitespace is_control take_while
    skip_query_line_comment skip_query_block_comment skip_query_string query_quoted_identifier
words = refl

-- Without backslash escapes the text ends at the first quote.
other_mode : query_tokens_with_mode (codes "'\\' a") true ≡ string ∷ identifier (codes "a") ∷ []
unfolding query_tokens_with_mode token_rounds next_query_token is_whitespace is_control take_while
    skip_query_line_comment skip_query_block_comment skip_query_string query_quoted_identifier
other_mode = refl

commented :
    query_references_schema_with_mode (codes "/* shop.t */ SELECT 1") (codes "shop") false ≡ false
unfolding query_references_schema_with_mode query_tokens_with_mode token_rounds next_query_token
    is_whitespace is_control take_while skip_query_block_comment any_names_schema
    eq_ignore_ascii_case
commented = refl

qualified :
    query_contains_qualified_identifier_with_mode (codes "UPDATE `a`.b SET c=1") false ≡ true
unfolding query_contains_qualified_identifier_with_mode query_tokens_with_mode token_rounds
    next_query_token is_whitespace is_control take_while query_quoted_identifier any_qualified
qualified = refl

query_tokens_with_mode-ends_example :
    token_rounds 9 false (codes "a . `b") ≡ some (query_tokens_with_mode (codes "a . `b") false)
query_tokens_with_mode-ends_example =
    query_tokens_with_mode-ends 9 (codes "a . `b") false (omega arith)

query_tokens-quote_ident_example :
    query_tokens_with_mode (quote_ident (codes "a`b") ++ codes ".t") false
    ≡ identifier (codes "a`b") ∷ query_tokens_with_mode (codes ".t") false
query_tokens-quote_ident_example = query_tokens-quote_ident (codes "a`b") (codes ".t") false refl

same_name : eq_ignore_ascii_case (codes "Shop") (codes "shop") ≡ true
unfolding eq_ignore_ascii_case
same_name = refl

query_references_schema-quote_ident_example :
    query_references_schema_with_mode
      (quote_ident (codes "Shop") ++ codes ".t")
      (codes "shop")
      false
    ≡ true
query_references_schema-quote_ident_example =
    query_references_schema-quote_ident (codes "Shop") (codes "shop") (codes "t") false same_name
