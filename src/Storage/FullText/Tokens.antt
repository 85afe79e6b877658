-- ===== src/Storage/FullText/Tokens.antt =====
-- The entries that a token's prefix finds are those of that token.
use synaptica.Prelude.{
  ◌<◌, ◌≡◌, refl, sym, ◌∙◌, subst, arith, ◌↔◌, true, [], ◌∷◌, ◌++◌, Bytes, starts_with, All,
}
use synaptica.Core.Graph.{NodeId}
use synaptica.Storage.FullText.{FullTextIndex, entry_key, token_prefix}

-- no byte is NUL, as in a token of alphanumeric characters
abbrev pub HasNoNul : Bytes → Type 0
HasNoNul = All (λ b. 0 < b)

starts_with-cancel : (ps xs ys : Bytes) → starts_with (ps ++ xs) (ps ++ ys) ≡ starts_with xs ys
unfolding starts_with
starts_with-cancel [] xs ys = refl
starts_with-cancel (p ∷ ps) xs ys = ground (arith, starts_with-cancel ps xs ys)

token_of_prefix :
    (s t rest : Bytes)
    → HasNoNul s
    → HasNoNul t
    → starts_with (s ++ 0 ∷ rest) (t ++ 0 ∷ []) ≡ true
    → s ≡ t
unfolding starts_with
token_of_prefix [] [] rest h k e = refl
token_of_prefix [] (b ∷ t) rest h k e = ground arith
token_of_prefix (a ∷ s) [] rest h k e = ground arith
token_of_prefix (a ∷ s) (b ∷ t) rest (ha, h) (hb, k) e =
    ground (arith, token_of_prefix s t rest h k)

prefix_of_token : (s rest : Bytes) → starts_with (s ++ 0 ∷ rest) (s ++ 0 ∷ []) ≡ true
unfolding starts_with
prefix_of_token [] rest = refl
prefix_of_token (a ∷ s) rest = ground (arith, prefix_of_token s rest)

-- The key of a token's entry for a node starts with the prefix that a search for a token scans exactly if
-- the two tokens are the same, for tokens without a NUL byte.
pub token_prefix_exact :
    (index : FullTextIndex) (s t : Bytes) (id : NodeId)
    → HasNoNul s
    → HasNoNul t
    → (starts_with (entry_key index s id) (token_prefix index t) ≡ true) ↔ (s ≡ t)
token_prefix_exact index s t id h k =
    let g = index.graph_id.as_bytes in
    let n = index.name_hash in
    let xs = s ++ 0 ∷ id.as_bytes in
    let ys = t ++ 0 ∷ [] in
    let same : starts_with (g ++ 2 ∷ (n ++ xs)) (g ++ 2 ∷ (n ++ ys)) ≡ starts_with xs ys =
      starts_with-cancel g (2 ∷ (n ++ xs)) (2 ∷ (n ++ ys))
      ∙ starts_with-cancel (2 ∷ []) (n ++ xs) (n ++ ys)
      ∙ starts_with-cancel n xs ys in
    (
      λ e. token_of_prefix s t id.as_bytes h k (sym same ∙ e),
      λ e.
          same ∙ subst (λ u. starts_with xs (u ++ 0 ∷ []) ≡ true) e (prefix_of_token s id.as_bytes),
    )
