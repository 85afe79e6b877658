-- ===== src/Gql/Lexer/Progress.antt =====
-- Every token but the last takes input: `tokenize` ends.
use synaptica.Prelude.{
  ℕ, ◌^◌, ltb, ◌≤◌, ◌<◌, ◌≡◌, refl, inl, inr, Bool, true, false, ◌&&◌, ◌||◌, not, Option, none,
  some, List, [], ◌∷◌, arith, Bytes, length, ◌==◌, if◌then◌else◌, Bool-cases, Option-cases, Result,
  ok, err, Result-cases,
}
use native.Mathlib.Nat.{le_refl}
use synaptica.Gql.Token.{Span, Token, LexerError}
use synaptica.Gql.Lexer.{
  Lexer, is_eof, peek, followed_by, advance, skip_chars, skip_while, Lexed, done, comment_body,
  string_body, lex_single_line_comment, lex_multi_line_comment, lex_string, lex_fraction,
  lex_exponent, lex_number, lex_identifier, lex_parameter, lex_two, single_token,
  lex_operator_or_delimiter, next_token, is_eof_token, is_ascii_digit, is_word, is_ascii_alphabetic,
  is_ascii_whitespace, next_is, slice, digits_value, skip_whitespace, current_span,
}

-- what is left of the input
abbrev pub size : Lexer → ℕ
size l = length l.rest

pub advance_le : (l : Lexer) → size (advance l) ≤ size l
unfolding advance
advance_le l = ground arith

pub advance_lt : (l : Lexer) → is_eof l ≡ false → size (advance l) < size l
unfolding advance is_eof
advance_lt l h = ground arith

skip_chars_le : (p : ℕ → Bool) (cs : List ℕ) (l : Lexer) → size (skip_chars p cs l) ≤ size l
unfolding skip_chars
skip_chars_le p [] l = le_refl (size l)
skip_chars_le p (c ∷ cs) l = elim (Bool-cases (p c)) [
  | inl e ↦ rw e (omega (arith, skip_chars_le p cs (advance l), advance_le l))
  | inr e ↦ rw e (le_refl (size l))
]

pub skip_while_le : (p : ℕ → Bool) (l : Lexer) → size (skip_while p l) ≤ size l
unfolding skip_while
skip_while_le p l = skip_chars_le p l.rest l

skip_chars_lt :
    (p : ℕ → Bool) (cs : List ℕ) (l : Lexer)
    → l.rest ≡ cs
    → is_eof l ≡ false
    → p (peek l) ≡ true
    → size (skip_chars p cs l) < size l
unfolding skip_chars is_eof peek
skip_chars_lt p [] l e h k = absurd (cc (rw (is_eof, e) at h))
skip_chars_lt p (c ∷ cs) l e h k =
    let t : p c ≡ true = rw (peek, e) at k in
    rw t (omega (arith, skip_chars_le p cs (advance l), advance_lt l h))

pub skip_while_lt :
    (p : ℕ → Bool) (l : Lexer)
    → is_eof l ≡ false
    → p (peek l) ≡ true
    → size (skip_while p l) < size l
unfolding skip_while
skip_while_lt p l h k = skip_chars_lt p l.rest l refl h k

-- a text and a lexer with at most so much input
abbrev pub Within : ℕ → Option (Bytes × Lexer) → Type 0
Within n none = Unit
Within n (some (t, l)) = size l ≤ n

Within-if :
    (n : ℕ) (b : Bool) (x y : Option (Bytes × Lexer))
    → Within n x
    → Within n y
    → Within n (if b then x else y)
Within-if n true x y h k = h
Within-if n false x y h k = k

Within-cons :
    (m n c : ℕ) (o : Option (Bytes × Lexer))
    → m ≤ n
    → Within m o
    → Within n (elim o [ none ↦ none | some (t, l) ↦ some (c ∷ t, l) ])
Within-cons m n c none le h = tt
Within-cons m n c (some (t, l)) le h = omega arith

advance_twice_le : (l : Lexer) → size (advance (advance l)) ≤ size l
advance_twice_le l = omega (arith, advance_le l, advance_le (advance l))

pub comment_body-Within : (cs : List ℕ) (l : Lexer) → Within (size l) (comment_body cs l)
unfolding comment_body
comment_body-Within [] l = tt
comment_body-Within (c ∷ cs) l =
    Within-if (size l) (c == 42 && followed_by (λ d. d == 47) l) _ _ (advance_twice_le l) (
      Within-cons (size (advance l)) (size l) c (comment_body cs (advance l)) (advance_le l)
        (comment_body-Within cs (advance l)))

pub string_body-Within : (cs : List ℕ) (l : Lexer) → Within (size l) (string_body cs l)
unfolding string_body
string_body-Within [] l = tt
string_body-Within (c ∷ []) l =
    Within-if (size l) (c == 39) (some ([], advance l)) none (advance_le l) tt
string_body-Within (c ∷ d ∷ ds) l =
    let l' = advance l in
    let l'' = advance l' in
    Within-if (size l) (c == 39) _ _
      (Within-if (size l) (d == 39) _ (some ([], l'))
        (Within-cons (size l'') (size l) 39 (string_body ds l'') (advance_twice_le l)
          (string_body-Within ds l''))
        (advance_le l))
      (Within-cons (size l') (size l) c (string_body (d ∷ ds) l') (advance_le l)
        (string_body-Within (d ∷ ds) l'))

-- a token with less input left behind it
abbrev pub Below : ℕ → Lexed → Type 0
Below n (err e) = Unit
Below n (ok (st, l)) = size l < n

Below-if :
    (n : ℕ) (b : Bool) (x y : Lexed)
    → (b ≡ true → Below n x)
    → (b ≡ false → Below n y)
    → Below n (if b then x else y)
Below-if n true x y h k = h refl
Below-if n false x y h k = k refl

module _ (span : Span) (l : Lexer) (h : is_eof l ≡ false) where
  lex_single_line_comment-Below : Below (size l) (lex_single_line_comment span l)
  unfolding lex_single_line_comment
  lex_single_line_comment-Below = omega (
    arith,
    advance_lt l h,
    advance_le (advance l),
    skip_while_le (λ c. not (c == 10)) (advance (advance l)),
  )

  lex_multi_line_comment-Below : Below (size l) (lex_multi_line_comment span l)
  unfolding lex_multi_line_comment
  lex_multi_line_comment-Below =
      let start = advance (advance l) in
      let w = comment_body-Within start.rest start in
      elim (Option-cases (comment_body start.rest start)) [
        | inl e ↦ rw (lex_multi_line_comment, e) tt
        | inr ((t, l'), e) ↦
            (let w' : size l' ≤ size start = rw e at w in
              rw (lex_multi_line_comment, e)
                (omega (arith, advance_lt l h, advance_le (advance l))))
      ]

  lex_string-Below : Below (size l) (lex_string span l)
  unfolding lex_string
  lex_string-Below =
      let start = advance l in
      let w = string_body-Within start.rest start in
      elim (Option-cases (string_body start.rest start)) [
        | inl e ↦ rw (lex_string, e) tt
        | inr ((t, l'), e) ↦
            (let w' : size l' ≤ size start = rw e at w in
              rw (lex_string, e) (omega (arith, advance_lt l h)))
      ]

  lex_identifier-Below :
      (is_ascii_alphabetic (peek l) || peek l == 95) ≡ true → Below (size l) (lex_identifier span l)
  unfolding lex_identifier
  lex_identifier-Below k = skip_while_lt is_word l h (ground (arith, k))

  lex_parameter-Below : Below (size l) (lex_parameter span l)
  unfolding lex_parameter
  lex_parameter-Below =
      let start = advance l in
      Below-if (size l) (is_eof start || not (is_ascii_alphabetic (peek start) || peek start == 95))
        _
        (done (Token.parameter (slice start (skip_while is_word start))) span
          (skip_while is_word start))
        (λ e. tt) (λ e. omega (arith, advance_lt l h, skip_while_le is_word start))

lex_two-Below :
    (n : ℕ) (span : Span) (l : Lexer) (table : List (ℕ × Token)) (other : Lexed)
    → size l < n
    → Below n other
    → Below n (lex_two span l table other)
unfolding lex_two
lex_two-Below n span l [] other lt h = h
lex_two-Below n span l ((c, t) ∷ more) other lt h =
    Below-if n (next_is c l) (done t span (advance l)) (lex_two span l more other)
      (λ e. omega (arith, advance_le l)) (λ e. lex_two-Below n span l more other lt h)

lex_fraction_le : (l : Lexer) → size (lex_fraction l).1 ≤ size l
unfolding lex_fraction
lex_fraction_le l = elim (Bool-cases (next_is 46 l && followed_by is_ascii_digit l)) [
  | inl e ↦
      rw (lex_fraction, e) (omega (arith, advance_le l, skip_while_le is_ascii_digit (advance l)))
  | inr e ↦ rw (lex_fraction, e) (le_refl (size l))
]

abbrev AtMost : ℕ → Result LexerError (Bool × Lexer) → Type 0
AtMost n (err e) = Unit
AtMost n (ok (b, l)) = size l ≤ n

AtMost-if :
    (n : ℕ) (b : Bool) (x y : Result LexerError (Bool × Lexer))
    → AtMost n x
    → AtMost n y
    → AtMost n (if b then x else y)
AtMost-if n true x y h k = h
AtMost-if n false x y h k = k

sign_le : (b : Bool) (l : Lexer) → size (if b then advance l else l) ≤ size l
sign_le true l = advance_le l
sign_le false l = le_refl (size l)

lex_exponent-AtMost : (l : Lexer) → AtMost (size l) (lex_exponent l)
unfolding lex_exponent
lex_exponent-AtMost l =
    let l' = advance l in
    let b = not (is_eof l') && (peek l' == 43 || peek l' == 45) in
    let l'' = if b then advance l' else l' in
    AtMost-if (size l) (not (is_eof l) && (peek l == 101 || peek l == 69)) _ (ok (false, l))
      (AtMost-if (size l) (is_eof l'' || not (is_ascii_digit (peek l''))) _
        (ok (true, skip_while is_ascii_digit l'')) tt
        (omega (arith, advance_le l, sign_le b l', skip_while_le is_ascii_digit l'')))
      (le_refl (size l))

lex_number-Below :
    (span : Span) (l : Lexer)
    → is_eof l ≡ false
    → is_ascii_digit (peek l) ≡ true
    → Below (size l) (lex_number span l)
unfolding lex_number
lex_number-Below span l h k =
    let l1 = skip_while is_ascii_digit l in
    let l2 = (lex_fraction l1).1 in
    let w = lex_exponent-AtMost l2 in
    let lt = skip_while_lt is_ascii_digit l h k in
    elim (Result-cases (lex_exponent l2)) [
      | inr (x, e) ↦ rw (lex_number, e) tt
      | inl ((b, l3), e) ↦
          let w' : size l3 ≤ size l2 = rw e at w in
          let small : size l3 < size l = omega (arith, lex_fraction_le l1) in
          elim (Bool-cases ((lex_fraction l1).0 || b)) [
            | inl t ↦ rw (lex_number, e, t) small
            | inr t ↦ elim (Bool-cases (ltb (digits_value 0 (slice l l3)) (2 ^ 63))) [
              | inl u ↦ rw (lex_number, e, t, u) small
              | inr u ↦ rw (lex_number, e, t, u) tt
            ]
          ]
    ]

lex_operator-Below :
    (span : Span) (l : Lexer) → is_eof l ≡ false → Below (size l) (lex_operator_or_delimiter span l)
unfolding lex_operator_or_delimiter
lex_operator-Below span l h =
    let c = peek l in
    let l' = advance l in
    let lt = advance_lt l h in
    elim (Option-cases (single_token c)) [
      | inr (t, e) ↦ rw (lex_operator_or_delimiter, e) lt
      | inl e ↦ elim (Bool-cases (c == 46)) [
        | inl a1 ↦
            rw (lex_operator_or_delimiter, e, a1)
              (lex_two-Below (size l) span l' _ (done Token.dot span l') lt lt)
        | inr b1 ↦ elim (Bool-cases (c == 124)) [
          | inl a2 ↦
              rw (lex_operator_or_delimiter, e, b1, a2)
                (lex_two-Below (size l) span l' _ (err _) lt tt)
          | inr b2 ↦ elim (Bool-cases (c == 33)) [
            | inl a3 ↦
                rw (lex_operator_or_delimiter, e, b1, b2, a3)
                  (lex_two-Below (size l) span l' _ (err _) lt tt)
            | inr b3 ↦ elim (Bool-cases (c == 60)) [
              | inl a4 ↦
                  rw (lex_operator_or_delimiter, e, b1, b2, b3, a4)
                    (lex_two-Below (size l) span l' _ (done Token.lt span l') lt lt)
              | inr b4 ↦ elim (Bool-cases (c == 62)) [
                | inl a5 ↦
                    rw (lex_operator_or_delimiter, e, b1, b2, b3, b4, a5)
                      (lex_two-Below (size l) span l' _ (done Token.gt span l') lt lt)
                | inr b5 ↦ elim (Bool-cases (c == 45)) [
                  | inl a6 ↦
                      rw (lex_operator_or_delimiter, e, b1, b2, b3, b4, b5, a6)
                        (lex_two-Below (size l) span l' _ (done Token.minus span l') lt lt)
                  | inr b6 ↦ rw (lex_operator_or_delimiter, e, b1, b2, b3, b4, b5, b6) tt
                ]
              ]
            ]
          ]
        ]
      ]
    ]

-- what `next_token` promises: less input is left, or the token is the last
abbrev pub Progress : ℕ → Lexed → Type 0
Progress n (err e) = Unit
Progress n (ok (st, l)) = is_eof_token st.token ≡ false → size l < n

Progress-Below : (m n : ℕ) (r : Lexed) → m ≤ n → Below m r → Progress n r
Progress-Below m n (err e) le h = tt
Progress-Below m n (ok (st, l)) le h = λ k. omega arith

-- A token that is not the end of the input takes at least one character.
pub next_token-Progress : (l : Lexer) → Progress (size l) (next_token l)
unfolding next_token
next_token-Progress lexer =
    let l = skip_whitespace lexer in
    let span = current_span l in
    let c = peek l in
    let small = skip_while_le is_ascii_whitespace lexer in
    let found = λ (r : Lexed). Progress-Below (size l) (size lexer) r small in
    elim (Bool-cases (is_eof l)) [
      | inl e ↦ rw (next_token, e) (λ k. absurd (cc k))
      | inr h ↦ elim (Bool-cases (c == 45 && followed_by (λ d. d == 45) l)) [
        | inl a1 ↦ rw (next_token, h, a1) (found _ (lex_single_line_comment-Below span l h))
        | inr b1 ↦ elim (Bool-cases (c == 47 && followed_by (λ d. d == 42) l)) [
          | inl a2 ↦ rw (next_token, h, b1, a2) (found _ (lex_multi_line_comment-Below span l h))
          | inr b2 ↦ elim (Bool-cases (c == 39)) [
            | inl a3 ↦ rw (next_token, h, b1, b2, a3) (found _ (lex_string-Below span l h))
            | inr b3 ↦ elim (Bool-cases (is_ascii_digit c)) [
              | inl a4 ↦ rw (next_token, h, b1, b2, b3, a4) (found _ (lex_number-Below span l h a4))
              | inr b4 ↦ elim (Bool-cases (is_ascii_alphabetic c || c == 95)) [
                | inl a5 ↦
                    rw (next_token, h, b1, b2, b3, b4, a5)
                      (found _ (lex_identifier-Below span l h a5))
                | inr b5 ↦ elim (Bool-cases (c == 36)) [
                  | inl a6 ↦
                      rw (next_token, h, b1, b2, b3, b4, b5, a6)
                        (found _ (lex_parameter-Below span l h))
                  | inr b6 ↦
                      rw (next_token, h, b1, b2, b3, b4, b5, b6)
                        (found _ (lex_operator-Below span l h))
                ]
              ]
            ]
          ]
        ]
      ]
    ]
