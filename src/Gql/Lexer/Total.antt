-- ===== src/Gql/Lexer/Total.antt =====
-- `tokenize` returns, and its result ends with the end of the input.
use synaptica.Prelude.{
  ℕ, zero, suc, ◌<◌, ◌≡◌, refl, inl, inr, true, false, some, List, [], ◌∷◌, arith, length,
  Bool-cases, Result, ok, err, Result-cases, map_ok,
}
use synaptica.Gql.Token.{SpannedToken, LexerError}
use synaptica.Gql.Lexer.{Lexer, new, next_token, is_eof_token, tokenize_from, tokenize}
use synaptica.Gql.Lexer.Progress.{size, next_token-Progress}

-- a list of tokens with `Eof` in its last place and nowhere else
abbrev pub EndsWithEof : List SpannedToken → Type 0
EndsWithEof [] = ⊥
EndsWithEof (t ∷ []) = is_eof_token t.token ≡ true
EndsWithEof (t ∷ u ∷ us) = (is_eof_token t.token ≡ false) × EndsWithEof (u ∷ us)

abbrev pub Ended : Result LexerError (List SpannedToken) → Type 0
Ended (err e) = Unit
Ended (ok ts) = EndsWithEof ts

EndsWithEof-cons :
    (t : SpannedToken) (ts : List SpannedToken)
    → is_eof_token t.token ≡ false
    → EndsWithEof ts
    → EndsWithEof (t ∷ ts)
EndsWithEof-cons t [] h k = absurd k
EndsWithEof-cons t (u ∷ us) h k = (h, k)

Ended-cons :
    (t : SpannedToken) (r : Result LexerError (List SpannedToken))
    → is_eof_token t.token ≡ false
    → Ended r
    → Ended (map_ok (λ ts. t ∷ ts) r)
Ended-cons t (err e) h k = tt
Ended-cons t (ok ts) h k = EndsWithEof-cons t ts h k

tokenize_from-Ended :
    (fuel : ℕ) (l : Lexer)
    → size l < fuel
    → (r : Result LexerError (List SpannedToken)) × (tokenize_from fuel l ≡ some r) × Ended r
unfolding tokenize_from
tokenize_from-Ended zero l h = absurd (omega arith)
tokenize_from-Ended (suc fuel) l h =
    let p = next_token-Progress l in
    elim (Result-cases (next_token l)) [
      | inr (x, e) ↦ (err x, rw (tokenize_from, e) refl, tt)
      | inl ((st, l'), e) ↦
          let p' : is_eof_token st.token ≡ false → size l' < size l = rw e at p in
          elim (Bool-cases (is_eof_token st.token)) [
            | inl last ↦ (ok (st ∷ []), rw (tokenize_from, e, last) refl, last)
            | inr more ↦
                let (r, f, k) = tokenize_from-Ended fuel l' (omega (arith, p' more)) in
                (
                  map_ok (λ ts. st ∷ ts) r,
                  rw (tokenize_from, e, more, f) refl,
                  Ended-cons st r more k,
                )
          ]
    ]

-- `tokenize` returns on every input: an error, or tokens of which the last and no other is `Eof`.
pub tokenize-Ended :
    (input : List ℕ)
    → (r : Result LexerError (List SpannedToken)) × (tokenize input ≡ some r) × Ended r
unfolding tokenize
tokenize-Ended input = tokenize_from-Ended (suc (length input)) (new input) (omega arith)
