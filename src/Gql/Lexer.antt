-- ===== src/Gql/Lexer.antt =====
-- crates/synaptica-gql/src/lexer.rs: the lexer. `rest` is the input from `pos` on; the text between
-- two positions is the front of it. An error ends the run, so that the lexer behind it is dropped.
pub mod Progress
pub mod Total
pub mod Strings
pub mod Examples
use synaptica.Prelude.{
  ℕ, zero, suc, ◌+◌, ◌-◌, ◌*◌, ◌^◌, Bool, true, false, ◌&&◌, ◌||◌, not, Option, none, some, List,
  [], ◌∷◌, ◌++◌, Bytes, take, length, leb, ltb, ◌==◌, if◌then◌else◌, Result, ok, err, map_ok, codes,
}
use synaptica.Gql.Token.{Span, Token, SpannedToken, LexerError, keyword_token}

pub record Lexer : Type 0 where
  pub rest : List ℕ
  pub pos : ℕ
  pub line : ℕ
  pub column : ℕ

abbrev pub new : List ℕ → Lexer
new input = record { rest = input; pos = 0; line = 1; column = 1 }

unfoldable pub is_eof : Lexer → Bool
is_eof l = elim l.rest [ [] ↦ true | c ∷ cs ↦ false ]

unfoldable pub peek : Lexer → ℕ
peek l = elim l.rest [ [] ↦ 0 | c ∷ cs ↦ c ]

-- `peek_at(1)`, the only offset in use
unfoldable pub peek_at : Lexer → Option ℕ
peek_at l = elim l.rest [ [] ↦ none | c ∷ [] ↦ none | c ∷ d ∷ ds ↦ some d ]

unfoldable pub followed_by : (ℕ → Bool) → Lexer → Bool
followed_by p l = elim (peek_at l) [ none ↦ false | some d ↦ p d ]

-- the lexer behind the character that `advance` returns
unfoldable pub advance : Lexer → Lexer
advance l = elim l.rest [
  | [] ↦ l
  | c ∷ cs ↦ record {
    rest = cs;
    pos = l.pos + 1;
    line = if c == 10 then l.line + 1 else l.line;
    column = if c == 10 then 1 else l.column + 1;
  }
]

abbrev pub current_span : Lexer → Span
current_span l = record { line = l.line; column = l.column; offset = l.pos }

abbrev pub error : Lexer → Bytes → LexerError
error l msg = record { message = msg; line = l.line; column = l.column }

abbrev pub error_at : Span → Bytes → LexerError
error_at span msg = record { message = msg; line = span.line; column = span.column }

-- the character classes of the standard library
abbrev pub is_ascii_whitespace : ℕ → Bool
is_ascii_whitespace c = c == 32 || (c == 9 || (c == 10 || (c == 12 || c == 13)))

abbrev pub is_ascii_digit : ℕ → Bool
is_ascii_digit c = leb 48 c && leb c 57

abbrev pub is_ascii_alphabetic : ℕ → Bool
is_ascii_alphabetic c = (leb 65 c && leb c 90) || (leb 97 c && leb c 122)

abbrev pub is_word : ℕ → Bool
is_word c = (is_ascii_alphabetic c || is_ascii_digit c) || c == 95

-- `while !self.is_eof() && p(self.peek()) { self.advance(); }`
unfoldable pub skip_chars : (ℕ → Bool) → List ℕ → Lexer → Lexer
skip_chars p [] l = l
skip_chars p (c ∷ cs) l = if p c then skip_chars p cs (advance l) else l

unfoldable pub skip_while : (ℕ → Bool) → Lexer → Lexer
skip_while p l = skip_chars p l.rest l

abbrev pub skip_whitespace : Lexer → Lexer
skip_whitespace l = skip_while is_ascii_whitespace l

-- the input from one position to a later one
abbrev pub slice : Lexer → Lexer → Bytes
slice start end = take (end.pos - start.pos) start.rest

abbrev pub next_is : ℕ → Lexer → Bool
next_is c l = not (is_eof l) && peek l == c

abbrev pub Lexed : Type 0
Lexed = Result LexerError (SpannedToken × Lexer)

abbrev pub done : Token → Span → Lexer → Lexed
done token span l = ok (record { token = token; span = span }, l)

unfoldable pub lex_single_line_comment : Span → Lexer → Lexed
lex_single_line_comment span l =
    let start = advance (advance l) in
    let end = skip_while (λ c. not (c == 10)) start in
    done (Token.comment (slice start end)) span end

-- the loop of a comment, over the input left: its text, and the lexer behind it
unfoldable pub comment_body : List ℕ → Lexer → Option (Bytes × Lexer)
comment_body [] l = none
comment_body (c ∷ cs) l =
    let more = comment_body cs (advance l) in
    if c == 42 && followed_by (λ d. d == 47) l
    then some ([], advance (advance l))
    else elim more [ none ↦ none | some (text, l') ↦ some (c ∷ text, l') ]

unfoldable pub lex_multi_line_comment : Span → Lexer → Lexed
lex_multi_line_comment span l =
    let start = advance (advance l) in
    elim (comment_body start.rest start) [
      | none ↦ err (error_at span (codes "unterminated multi-line comment"))
      | some (text, end) ↦ done (Token.comment text) span end
    ]

-- the loop of a string literal
unfoldable pub string_body : List ℕ → Lexer → Option (Bytes × Lexer)
string_body [] l = none
string_body (c ∷ []) l = if c == 39 then some ([], advance l) else none
string_body (c ∷ d ∷ ds) l =
    let escaped = string_body ds (advance (advance l)) in
    let plain = string_body (d ∷ ds) (advance l) in
    if c == 39
    then (if d == 39
        then elim escaped [ none ↦ none | some (s, l') ↦ some (39 ∷ s, l') ]
        else some ([], advance l))
    else elim plain [ none ↦ none | some (s, l') ↦ some (c ∷ s, l') ]

unfoldable pub lex_string : Span → Lexer → Lexed
lex_string span l =
    let start = advance l in
    elim (string_body start.rest start) [
      | none ↦ err (error_at span (codes "unterminated string literal"))
      | some (s, end) ↦ done (Token.string_lit s) span end
    ]

unfoldable pub digits_value : ℕ → Bytes → ℕ
digits_value acc [] = acc
digits_value acc (c ∷ cs) = digits_value (acc * 10 + (c - 48)) cs

-- the fractional part
unfoldable pub lex_fraction : Lexer → Bool × Lexer
lex_fraction l =
    if next_is 46 l && followed_by is_ascii_digit l
    then (true, skip_while is_ascii_digit (advance l))
    else (false, l)

-- the exponent part
unfoldable pub lex_exponent : Lexer → Result LexerError (Bool × Lexer)
lex_exponent l =
    if not (is_eof l) && (peek l == 101 || peek l == 69)
    then (let l = advance l in
        let l = if not (is_eof l) && (peek l == 43 || peek l == 45) then advance l else l in
        if is_eof l || not (is_ascii_digit (peek l))
        then err (error l (codes "invalid numeric literal: expected digit after exponent"))
        else ok (true, skip_while is_ascii_digit l))
    else ok (false, l)

unfoldable pub lex_number : Span → Lexer → Lexed
lex_number span start =
    let (fraction, l) = lex_fraction (skip_while is_ascii_digit start) in
    elim (lex_exponent l) [
      | err e ↦ err e
      | ok (exponent, end) ↦
          let text = slice start end in
          if fraction || exponent
          then done (Token.float_lit text) span end
          else if ltb (digits_value 0 text) (2 ^ 63)
          then done (Token.integer_lit (digits_value 0 text)) span end
          else err (error end (codes "invalid integer literal: " ++ text))
    ]

unfoldable pub word_token : Bytes → Token
word_token word = elim (keyword_token word) [ none ↦ Token.ident word | some t ↦ t ]

unfoldable pub lex_identifier : Span → Lexer → Lexed
lex_identifier span start =
    let end = skip_while is_word start in done (word_token (slice start end)) span end

unfoldable pub lex_parameter : Span → Lexer → Lexed
lex_parameter span l =
    let start = advance l in
    if is_eof start || not (is_ascii_alphabetic (peek start) || peek start == 95)
    then err (error start (codes "expected parameter name after '$'"))
    else (let end = skip_while is_word start in done (Token.parameter (slice start end)) span end)

-- an operator of one character or of two, by what follows
unfoldable pub lex_two : Span → Lexer → List (ℕ × Token) → Lexed → Lexed
lex_two span l [] other = other
lex_two span l ((c, token) ∷ more) other =
    let rest = lex_two span l more other in
    if next_is c l then done token span (advance l) else rest

-- the operators and delimiters of one character
unfoldable pub single_token : ℕ → Option Token
single_token c =
    if c == 43
    then some Token.plus
    else if c == 42
    then some Token.star
    else if c == 47
    then some Token.slash
    else if c == 37
    then some Token.percent
    else if c == 126
    then some Token.tilde
    else if c == 40
    then some Token.l_paren
    else if c == 41
    then some Token.r_paren
    else if c == 91
    then some Token.l_bracket
    else if c == 93
    then some Token.r_bracket
    else if c == 123
    then some Token.l_brace
    else if c == 125
    then some Token.r_brace
    else if c == 44
    then some Token.comma
    else if c == 58
    then some Token.colon
    else if c == 59
    then some Token.semicolon
    else if c == 64
    then some Token.at
    else if c == 61
    then some Token.eq
    else none

unfoldable pub lex_operator_or_delimiter : Span → Lexer → Lexed
lex_operator_or_delimiter span start =
    let ch = peek start in
    let l = advance start in
    elim (single_token ch) [
      | some token ↦ done token span l
      | none ↦
          if ch == 46
          then lex_two span l ((46, Token.double_dot) ∷ []) (done Token.dot span l)
          else if ch == 124
          then lex_two span l ((124, Token.double_pipe) ∷ [])
              (err (error_at span (codes "unexpected character '|'; did you mean '||'?")))
          else if ch == 33
          then lex_two span l ((61, Token.neq) ∷ [])
              (err (error_at span (codes "unexpected character '!'; did you mean '!='?")))
          else if ch == 60
          then lex_two span l ((61, Token.le) ∷ (62, Token.neq) ∷ (45, Token.left_arrow) ∷ [])
              (done Token.lt span l)
          else if ch == 62
          then lex_two span l ((61, Token.ge) ∷ []) (done Token.gt span l)
          else if ch == 45
          then lex_two span l ((62, Token.arrow) ∷ []) (done Token.minus span l)
          else err (error_at span (codes "unexpected character '" ++ ch ∷ codes "'"))
    ]

unfoldable pub next_token : Lexer → Lexed
next_token lexer =
    let l = skip_whitespace lexer in
    let span = current_span l in
    if is_eof l
    then done Token.eof span l
    else let ch = peek l in
      if ch == 45 && followed_by (λ d. d == 45) l
      then lex_single_line_comment span l
      else if ch == 47 && followed_by (λ d. d == 42) l
      then lex_multi_line_comment span l
      else if ch == 39
      then lex_string span l
      else if is_ascii_digit ch
      then lex_number span l
      else if is_ascii_alphabetic ch || ch == 95
      then lex_identifier span l
      else if ch == 36
      then lex_parameter span l
      else lex_operator_or_delimiter span l

abbrev pub is_eof_token : Token → Bool
is_eof_token Token.eof = true
is_eof_token _ = false

-- The loop of `tokenize`, on fuel: `none` is a run that has not ended.
unfoldable pub tokenize_from : ℕ → Lexer → Option (Result LexerError (List SpannedToken))
tokenize_from zero l = none
tokenize_from (suc fuel) l = elim (next_token l) [
  | err e ↦ some (err e)
  | ok (st, l') ↦
      if is_eof_token st.token
      then some (ok (st ∷ []))
      else elim (tokenize_from fuel l') [ none ↦ none | some r ↦ some (map_ok (λ ts. st ∷ ts) r) ]
]

unfoldable pub tokenize : List ℕ → Option (Result LexerError (List SpannedToken))
tokenize input = tokenize_from (suc (length input)) (new input)
