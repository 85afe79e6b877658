-- ===== src/Gql/Lexer/Strings.antt =====
-- String literals: a text written between quotes, with its quotes doubled, is read back.
use synaptica.Prelude.{
  ℕ, ◌≡◌, refl, sym, ap, ◌∙◌, inl, inr, false, some, List, [], ◌∷◌, ◌++◌, Bytes, ◌==◌, ==_iff,
  if◌then◌else◌, Bool-cases, ok,
}
use synaptica.Gql.Token.{Span, Token}
use synaptica.Gql.Lexer.{
  Lexer, is_eof, peek, advance, skip_while, skip_chars, skip_whitespace, is_ascii_whitespace,
  current_span, string_body, lex_string, next_token,
}

-- the text of a literal: each quote twice
unfoldable pub escape : Bytes → Bytes
escape [] = []
escape (c ∷ cs) = if c == 39 then 39 ∷ 39 ∷ escape cs else c ∷ escape cs

-- The input that follows a literal does not begin with a quote.
abbrev pub IsClosed : Bytes → Type 0
IsClosed [] = Unit
IsClosed (c ∷ cs) = (c == 39) ≡ false

rest-advance : (l : Lexer) (c : ℕ) (cs : List ℕ) → l.rest ≡ c ∷ cs → (advance l).rest ≡ cs
unfolding advance
rest-advance l c cs e = rw (advance, e) refl

string_body-plain :
    (c : ℕ) (cs : List ℕ) (l l' : Lexer) (s : Bytes)
    → (c == 39) ≡ false
    → string_body cs (advance l) ≡ some (s, l')
    → string_body (c ∷ cs) l ≡ some (c ∷ s, l')
unfolding string_body
string_body-plain c [] l l' s h k = absurd (cc k)
string_body-plain c (d ∷ ds) l l' s h k = rw (h, k) refl

string_body-quote :
    (cs : List ℕ) (l l' : Lexer) (s : Bytes)
    → string_body cs (advance (advance l)) ≡ some (s, l')
    → string_body (39 ∷ 39 ∷ cs) l ≡ some (39 ∷ s, l')
unfolding string_body
string_body-quote cs l l' s k = rw k refl

string_body-end :
    (rest : Bytes) (l : Lexer) → IsClosed rest → string_body (39 ∷ rest) l ≡ some ([], advance l)
unfolding string_body
string_body-end [] l h = refl
string_body-end (c ∷ cs) l h = rw h refl

string_body-escape :
    (s rest : Bytes) (l : Lexer)
    → IsClosed rest
    → l.rest ≡ escape s ++ 39 ∷ rest
    → (l' : Lexer) × (string_body (escape s ++ 39 ∷ rest) l ≡ some (s, l')) × (l'.rest ≡ rest)
unfolding escape
string_body-escape [] rest l h e = (advance l, string_body-end rest l h, rest-advance l 39 rest e)
string_body-escape (c ∷ s) rest l h e = elim (Bool-cases (c == 39)) [
  | inr n ↦
      let e' : l.rest ≡ c ∷ (escape s ++ 39 ∷ rest) = rw n at e in
      let (l', b, r) = string_body-escape s rest (advance l) h (rest-advance l c _ e') in
      (l', rw n (string_body-plain c (escape s ++ 39 ∷ rest) l l' s n b), r)
  | inl q ↦
      let e' : l.rest ≡ 39 ∷ 39 ∷ (escape s ++ 39 ∷ rest) = rw q at e in
      let l2 = advance (advance l) in
      let (l', b, r) =
        string_body-escape s rest l2 h (rest-advance (advance l) 39 _ (rest-advance l 39 _ e')) in
      let same : c ≡ 39 = (==_iff c 39).0 q in
      let doubled : escape (c ∷ s) ++ 39 ∷ rest ≡ 39 ∷ 39 ∷ (escape s ++ 39 ∷ rest) = rw q refl in
      (
        l',
        ap (λ u. string_body u l) doubled
            ∙ string_body-quote (escape s ++ 39 ∷ rest) l l' s b
            ∙ ap (λ u. some (u ∷ s, l')) (sym same),
        r,
      )
]

skip_whitespace-other :
    (l : Lexer) (c : ℕ) (cs : List ℕ)
    → l.rest ≡ c ∷ cs
    → is_ascii_whitespace c ≡ false
    → skip_whitespace l ≡ l
unfolding skip_while skip_chars
skip_whitespace-other l c cs e h = ap (λ u. skip_chars is_ascii_whitespace u l) e ∙ rw h refl

lex_string-some :
    (span : Span) (l l' : Lexer) (s : Bytes)
    → string_body (advance l).rest (advance l) ≡ some (s, l')
    → lex_string span l ≡ ok (record { token = Token.string_lit s; span = span }, l')
unfolding lex_string
lex_string-some span l l' s h = rw (lex_string, h) refl

next_token-quote :
    (l : Lexer) (cs : List ℕ) → l.rest ≡ 39 ∷ cs → next_token l ≡ lex_string (current_span l) l
unfolding next_token is_eof peek
next_token-quote l cs e =
    let k = skip_whitespace-other l 39 cs e refl in
    let z : is_eof l ≡ false = rw (is_eof, e) refl in
    let c : peek l ≡ 39 = rw (peek, e) refl in rw (next_token, k, z, c) refl

-- A quoted text in front of the lexer, its quotes doubled, is read as one string literal with that
-- text, and what follows it is left, unless that begins with a quote.
pub next_token-escape :
    (l : Lexer) (s rest : Bytes)
    → IsClosed rest
    → l.rest ≡ 39 ∷ (escape s ++ 39 ∷ rest)
    → (l' : Lexer) × (next_token l
        ≡ ok (record { token = Token.string_lit s; span = current_span l }, l'))
      × (l'.rest ≡ rest)
next_token-escape l s rest h e =
    let at = rest-advance l 39 _ e in
    let (l', b, r) = string_body-escape s rest (advance l) h at in
    (
      l',
      next_token-quote l _ e
          ∙ lex_string-some (current_span l) l l' s (ap (λ u. string_body u (advance l)) at ∙ b),
      r,
    )
