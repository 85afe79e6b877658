-- ===== src/Gql/Lexer/Examples.antt =====
-- Tests of the lexer.
use synaptica.Prelude.{◌≡◌, refl, List, [], ◌∷◌, Option, some, Result, ok, map, Bytes, codes}
use synaptica.Gql.Token.{
  Token, SpannedToken, LexerError, keyword_token, keywords, to_ascii_uppercase,
}
use synaptica.Gql.Lexer.{
  Lexer, new, is_eof, peek, peek_at, followed_by, advance, skip_chars, skip_while, current_span,
  string_body, lex_string, digits_value, lex_fraction, lex_exponent, lex_number, word_token,
  lex_identifier, lex_two, single_token, lex_operator_or_delimiter, next_token, tokenize_from,
  tokenize,
}
use synaptica.Gql.Lexer.Progress.{size, Progress, next_token-Progress}
use synaptica.Gql.Lexer.Total.{Ended, tokenize-Ended}
use synaptica.Gql.Lexer.Strings.{escape, next_token-escape}
use synaptica.Prelude.{bytes_eq, get_key}

abbrev query : Bytes
query = codes "match (n)-[:A]->(m) return n.x <= 42, 'it''s', $p -- end"

tokenize-Ended_example :
    (r : Result LexerError (List SpannedToken)) × (tokenize query ≡ some r) × Ended r
tokenize-Ended_example = tokenize-Ended query

next_token-Progress_example : Progress (size (new query)) (next_token (new query))
next_token-Progress_example = next_token-Progress (new query)

abbrev quoted : Bytes
quoted = codes "'it''s' = n"

next_token-escape_example :
    (l' : Lexer) × (next_token (new quoted)
      ≡ ok (
        record { token = Token.string_lit (codes "it's"); span = current_span (new quoted) },
        l',
      ))
    × (l'.rest ≡ codes " = n")
unfolding escape
next_token-escape_example = next_token-escape (new quoted) (codes "it's") (codes " = n") refl refl

tokens_of : Option (Result LexerError (List SpannedToken)) → List Token
tokens_of (some (ok ts)) = map (λ t. t.token) ts
tokens_of _ = []

lexes :
    tokens_of (tokenize (codes "Match (n) -> 'a' 12 1.5"))
    ≡ Token.kw_match
      ∷ Token.l_paren
      ∷ Token.ident (codes "n")
      ∷ Token.r_paren
      ∷ Token.arrow
      ∷ Token.string_lit (codes "a")
      ∷ Token.integer_lit 12
      ∷ Token.float_lit (codes "1.5")
      ∷ Token.eof
      ∷ []
unfolding tokens_of tokenize tokenize_from next_token is_eof peek peek_at followed_by advance
    skip_chars skip_while string_body lex_string digits_value lex_fraction lex_exponent lex_number
    word_token lex_identifier lex_two single_token lex_operator_or_delimiter keyword_token keywords
    to_ascii_uppercase bytes_eq get_key
lexes = refl
