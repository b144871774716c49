-- ===== src/Stream/Token/Quoted.antt =====
-- A quoted identifier is read back as it was (quote_ident of src/mysql_support.rs and
-- src/live/structured_stream/token.rs).
use mathlib.Core.List.{append_assoc}
use mariadb_mysql_cdc.Prelude.{
  Name, Bool, true, false, some, [], ◌∷◌, ◌++◌, List-cases, ◌≡◌, ◌≢◌, refl, ◌∙◌, arith, inl, inr,
}
use mariadb_mysql_cdc.Stream.Token.{
  identifier, dot, is_whitespace, is_next, query_quoted_identifier, next_query_token,
  query_tokens_with_mode, eq_ignore_ascii_case, any_names_schema, query_references_schema_with_mode,
  double_backticks, quote_ident,
}
use mariadb_mysql_cdc.Stream.Token.Ends.{query_tokens-step}

not_empty : (name rest : Name) → double_backticks name ++ (b'`' ∷ rest) ≢ []
not_empty [] rest e = ground arith
not_empty (c ∷ name) rest e = ground arith

quoted-double_backticks :
    (name rest : Name)
    → is_next b'`' rest ≡ false
    → query_quoted_identifier b'`' (double_backticks name ++ (b'`' ∷ rest)) ≡ (name, rest)
unfolding query_quoted_identifier
quoted-double_backticks [] [] h = refl
quoted-double_backticks [] (d ∷ rest) h = ground arith
quoted-double_backticks (c ∷ name) rest h =
    let more = quoted-double_backticks name rest h in
    elim (List-cases (double_backticks name ++ (b'`' ∷ rest))) [
      | inl e ↦ absurd (not_empty name rest e)
      | inr (d, tail, e) ↦ ground (arith, more, e)
    ]

backtick-quotes :
    (mode : Bool) (cs : Name)
    → next_query_token mode b'`' cs
      ≡ (some (identifier (query_quoted_identifier b'`' cs).0), (query_quoted_identifier b'`' cs).1)
unfolding next_query_token is_whitespace
backtick-quotes mode [] = refl
backtick-quotes mode (c ∷ cs) = refl

dot-token :
    (mode : Bool) (cs : Name)
    → query_tokens_with_mode (b'.' ∷ cs) mode ≡ dot ∷ query_tokens_with_mode cs mode
unfolding next_query_token is_whitespace
dot-token mode [] = query_tokens-step b'.' [] mode
dot-token mode (c ∷ cs) = query_tokens-step b'.' (c ∷ cs) mode

-- An identifier that is quoted by quote_ident and stands before any text but a backtick is read as
-- one word, the identifier itself, and the words of the text follow.
pub query_tokens-quote_ident :
    (name rest : Name) (mode : Bool)
    → is_next b'`' rest ≡ false
    → query_tokens_with_mode (quote_ident name ++ rest) mode
      ≡ identifier name ∷ query_tokens_with_mode rest mode
query_tokens-quote_ident name rest mode h =
    let tail = double_backticks name ++ (b'`' ∷ rest) in
    rw (append_assoc (double_backticks name) (b'`' ∷ []) rest) (
      query_tokens-step b'`' tail mode
      ∙ rw (backtick-quotes mode tail, quoted-double_backticks name rest h) refl)

-- A statement that begins with a name of the schema, quoted and in any case of its letters, and a dot
-- references the schema, whatever follows.
pub query_references_schema-quote_ident :
    (name schema rest : Name) (mode : Bool)
    → eq_ignore_ascii_case name schema ≡ true
    → query_references_schema_with_mode (quote_ident name ++ b'.' ∷ rest) schema mode ≡ true
unfolding query_references_schema_with_mode any_names_schema
query_references_schema-quote_ident name schema rest mode same =
    rw (query_tokens-quote_ident name (b'.' ∷ rest) mode refl, dot-token mode rest)
      (ground (arith, same))
