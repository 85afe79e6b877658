-- ===== src/Storage/FullText/Examples.antt =====
-- Tokens of a text, and the theorem on their entries at concrete inputs.
use synaptica.Prelude.{
  ◌≡◌, refl, arith, ◌↔◌, ◌||◌, true, [], ◌∷◌, codes, leb, ◌&&◌, starts_with, lex,
}
use synaptica.Core.Graph.{NodeId}
use synaptica.Storage.Index.Comparable.{utf8}
use synaptica.Storage.FullText.{
  FullTextIndex, Text, tokenize, split_words, collect_words, insert_ordered, entry_key,
  token_prefix,
}
use synaptica.Storage.FullText.Tokens.{token_prefix_exact}

-- small letters, and all characters past ASCII
abbrev letters : Text
letters = record {
  to_lowercase = λ s. s;
  is_alphanumeric = λ c. (leb 97 c && leb c 122) || leb 128 c;
}

abbrev bios : FullTextIndex
bios = record {
  graph_id = record { as_bytes = codes "0123456789abcdef" };
  index_name = codes "bios";
  name_hash = codes "8 bytes!";
  property_name = codes "bio";
}

abbrev ada : NodeId
ada = record { as_bytes = codes "node-node-node-a" }

tokens : tokenize letters (codes "graph a db") ≡ codes "db" ∷ codes "graph" ∷ []
unfolding tokenize split_words collect_words insert_ordered utf8 lex
tokens = refl

-- One letter of two bytes is a token, though it is shorter than two characters.
one_letter : tokenize letters (233 ∷ []) ≡ (195 ∷ 169 ∷ []) ∷ []
unfolding tokenize split_words collect_words insert_ordered utf8
one_letter = refl

token_prefix_exact_example :
    (starts_with (entry_key bios (codes "db") ada) (token_prefix bios (codes "db")) ≡ true)
    ↔ (codes "db" ≡ codes "db")
token_prefix_exact_example =
    token_prefix_exact bios (codes "db") (codes "db") ada (omega arith, (omega arith, tt))
      (omega arith, (omega arith, tt))
