-- ===== src/Storage/FullText.antt =====
-- crates/synaptica-storage/src/fulltext.rs: the inverted index of texts. A token is kept as its bytes;
-- Unicode's lower case and alphanumeric test and the hash of the index's name are parameters. A set of
-- tokens or of identifiers is the list of its elements in order.
pub mod Tokens
pub mod Examples
use synaptica.Prelude.{
  ℕ, Bool, true, false, not, Option, none, some, List, [], ◌∷◌, ◌++◌, Bytes, bytes_eq, starts_with,
  lex, Ordering, length, drop, ◌-◌, leb, ltb, if◌then◌else◌, Result, ok, err, ◌>>=◌, map_err,
  map_ok, codes,
}
use synaptica.Core.Graph.{GraphId, NodeId}
use synaptica.Storage.Rocks.{Rocks, Entry, BatchOp}
use synaptica.Storage.Index.{StorageError, internal, deserialization, prop_index}
use synaptica.Storage.Index.Comparable.{utf8}

pub record Text : Type 0 where
  pub to_lowercase : Bytes → Bytes
  pub is_alphanumeric : ℕ → Bool

pub record FullTextIndex : Type 0 where
  pub graph_id : GraphId
  pub index_name : Bytes
  pub name_hash : Bytes
  pub property_name : Bytes

abbrev pub new : (Bytes → Bytes) → GraphId → Bytes → Bytes → FullTextIndex
new hash_index_name graph_id index_name property_name = record {
  graph_id = graph_id;
  index_name = index_name;
  name_hash = hash_index_name index_name;
  property_name = property_name;
}

-- the insertion into a `BTreeSet`
unfoldable pub insert_ordered : Bytes → List Bytes → List Bytes
insert_ordered x [] = x ∷ []
insert_ordered x (y ∷ ys) = elim (lex x y) [
  | Ordering.lt ↦ x ∷ y ∷ ys
  | Ordering.eq ↦ y ∷ ys
  | Ordering.gt ↦ y ∷ insert_ordered x ys
]

-- `split` on the characters that are not alphanumeric, with the part so far
unfoldable pub split_words : (ℕ → Bool) → Bytes → Bytes → List Bytes
split_words is_alphanumeric [] word = word ∷ []
split_words is_alphanumeric (c ∷ cs) word =
    let longer = split_words is_alphanumeric cs (word ++ c ∷ []) in
    let next = split_words is_alphanumeric cs [] in
    if is_alphanumeric c then longer else word ∷ next

-- `filter` and `collect`: the words of two bytes at least
unfoldable pub collect_words : List Bytes → List Bytes
collect_words [] = []
collect_words (w ∷ ws) =
    let rest = collect_words ws in
    if leb 2 (length (utf8 w)) then insert_ordered (utf8 w) rest else rest

unfoldable pub tokenize : Text → Bytes → List Bytes
tokenize t text = collect_words (split_words t.is_alphanumeric (t.to_lowercase text) [])

module _ (index : FullTextIndex) where
  abbrev pub token_scan_prefix : Bytes → Bytes
  token_scan_prefix prefix = index.graph_id.as_bytes ++ 2 ∷ (index.name_hash ++ prefix)

  abbrev pub token_prefix : Bytes → Bytes
  token_prefix token = index.graph_id.as_bytes ++ 2 ∷ (index.name_hash ++ (token ++ 0 ∷ []))

  abbrev pub entry_key : Bytes → NodeId → Bytes
  entry_key token id =
      index.graph_id.as_bytes ++ 2 ∷ (index.name_hash ++ (token ++ 0 ∷ id.as_bytes))

abbrev pub extract_node_id : Bytes → Result StorageError NodeId
extract_node_id key =
    if ltb (length key) 16
    then err (deserialization (codes "fulltext key too short for node id"))
    else ok (record { as_bytes = drop (length key - 16) key })

-- the loop of a scan
unfoldable pub collect_ids : Bytes → List (Result Bytes Entry) → Result StorageError (List NodeId)
collect_ids prefix [] = ok []
collect_ids prefix (err e ∷ items) = err (internal e)
collect_ids prefix (ok (key, value) ∷ items) =
    let rest = collect_ids prefix items in
    if not (starts_with key prefix)
    then ok []
    else (do id ← extract_node_id key; ids ← rest; ok (id ∷ ids))

-- the batch of a text's tokens
unfoldable pub put_tokens : FullTextIndex → NodeId → List Bytes → List BatchOp
put_tokens index id [] = []
put_tokens index id (t ∷ ts) =
    BatchOp.put_cf prop_index (entry_key index t id) [] ∷ put_tokens index id ts

unfoldable pub delete_tokens : FullTextIndex → NodeId → List Bytes → List BatchOp
delete_tokens index id [] = []
delete_tokens index id (t ∷ ts) =
    BatchOp.delete_cf prop_index (entry_key index t id) ∷ delete_tokens index id ts

unfoldable pub holds_id : NodeId → List NodeId → Bool
holds_id id [] = false
holds_id id (j ∷ ids) = if bytes_eq j.as_bytes id.as_bytes then true else holds_id id ids

-- `intersection`
unfoldable pub intersection : List NodeId → List NodeId → List NodeId
intersection [] ids = []
intersection (j ∷ js) ids =
    let rest = intersection js ids in if holds_id j ids then j ∷ rest else rest

-- identifiers in order, each once
unfoldable pub insert_id : NodeId → List NodeId → List NodeId
insert_id x [] = x ∷ []
insert_id x (y ∷ ys) = elim (lex x.as_bytes y.as_bytes) [
  | Ordering.lt ↦ x ∷ y ∷ ys
  | Ordering.eq ↦ y ∷ ys
  | Ordering.gt ↦ y ∷ insert_id x ys
]

unfoldable pub sort_ids : List NodeId → List NodeId
sort_ids [] = []
sort_ids (x ∷ xs) = insert_id x (sort_ids xs)

module _ (rocks : Rocks) (t : Text) (index : FullTextIndex) where
  -- `cf`
  abbrev pub with_cf : {A : Type 0} → rocks.Db → Result StorageError A → Result StorageError A
  with_cf db run =
      if rocks.has_cf db prop_index
      then run
      else err (internal (codes "column family not found: " ++ prop_index))

  abbrev pub scan_prefix_ids : rocks.Db → Bytes → Result StorageError (List NodeId)
  scan_prefix_ids db prefix =
      with_cf db (collect_ids prefix (rocks.iterator_from db prop_index prefix))

  abbrev pub index_text : rocks.Db → NodeId → Bytes → Result StorageError rocks.Db
  index_text db id text =
      with_cf db (map_err internal (rocks.write db (put_tokens index id (tokenize t text))))

  abbrev pub remove_text : rocks.Db → NodeId → Bytes → Result StorageError rocks.Db
  remove_text db id text =
      with_cf db (map_err internal (rocks.write db (delete_tokens index id (tokenize t text))))

  -- the loop of `search` over the tokens behind the first
  unfoldable pub search_rest :
      rocks.Db → List Bytes → List NodeId → Result StorageError (List NodeId)
  search_rest db [] result = ok result
  search_rest db (token ∷ tokens) result = do
    ids ← scan_prefix_ids db (token_prefix index token)
    let both = intersection result ids
    let next = search_rest db tokens both
    elim both [ [] ↦ ok [] | j ∷ js ↦ next ]

  unfoldable pub search : rocks.Db → Bytes → Result StorageError (List NodeId)
  search db query = elim (tokenize t query) [
    | [] ↦ ok []
    | token ∷ tokens ↦ (do
      first ← scan_prefix_ids db (token_prefix index token)
      result ← search_rest db tokens first
      ok (sort_ids result))
  ]

  abbrev pub search_prefix : rocks.Db → Bytes → Result StorageError (List NodeId)
  search_prefix db prefix =
      map_ok sort_ids (scan_prefix_ids db (token_scan_prefix index (t.to_lowercase prefix)))
