-- ===== src/Storage/Index.antt =====
-- crates/synaptica-storage/src/index.rs: property indexes, over the interface to RocksDB. `Codec` is what
-- the code takes from elsewhere: the hash of the standard library, the bits of a float, serde's
-- encodings, and the text of a `Uuid`. The lock of `index_node` makes its scan and its write one step, as a call is here.
pub mod Comparable
pub mod Order
pub mod Unique
pub mod Examples
use synaptica.Prelude.{
  Bool, true, false, not, ◌||◌, Option, none, some, List, [], ◌∷◌, ◌++◌, Bytes, bytes_eq,
  starts_with, length, drop, ◌-◌, leb, lex_le, if◌then◌else◌, Result, ok, err, ◌>>=◌, map_err,
  codes,
}
use synaptica.Core.Graph.{GraphId, NodeId}
use synaptica.Core.Values.{Scalars, Value, Values, null, no_values, more_values}
use synaptica.Core.Nodes.{Node, get_property}
use synaptica.Storage.Rocks.{Rocks, Entry, BatchOp}
use synaptica.Storage.Index.Comparable.{ValueCodec, encode_value_comparable}

pub data StorageError : Type 0 where
  internal serialization deserialization not_found unique_violation : Bytes → StorageError

pub data IndexEntityType : Type 0 where
  node edge : IndexEntityType

pub record IndexDefinition : Type 0 where
  pub name : Bytes
  pub graph_id : GraphId
  pub entity_type : IndexEntityType
  pub property_names : List Bytes
  pub unique : Bool

pub record Codec (S : Scalars) : Type 0 where
  pub values : ValueCodec S
  pub hash_index_name : Bytes → Bytes
  pub show_uuid : Bytes → Bytes
  pub serialize : IndexDefinition → Result Bytes Bytes
  pub deserialize : Bytes → Result Bytes IndexDefinition

abbrev pub prop_index : Bytes
prop_index = codes "prop_index"

abbrev pub meta_prefix : GraphId → Bytes
meta_prefix g = g.as_bytes ++ 0 ∷ []

abbrev pub meta_key : GraphId → Bytes → Bytes
meta_key g name = g.as_bytes ++ 0 ∷ name

module _ {S : Scalars} (codec : Codec S) where
  -- the identifier through its `Display`, which is that of `Uuid`
  abbrev pub duplicate_message : IndexDefinition → Node S → Bytes
  duplicate_message d n =
      codes "index '"
      ++ d.name
      ++ (codes "': duplicate value for node " ++ codec.show_uuid n.id.as_bytes)

  abbrev pub entry_prefix : IndexDefinition → Bytes
  entry_prefix d = d.graph_id.as_bytes ++ 1 ∷ codec.hash_index_name d.name

  abbrev pub entry_value_prefix : IndexDefinition → Bytes → Bytes
  entry_value_prefix d encoded =
      d.graph_id.as_bytes ++ 1 ∷ (codec.hash_index_name d.name ++ encoded)

  abbrev pub entry_key : IndexDefinition → Bytes → NodeId → Bytes
  entry_key d encoded id =
      d.graph_id.as_bytes ++ 1 ∷ (codec.hash_index_name d.name ++ (encoded ++ id.as_bytes))

  unfoldable pub encode_properties : List Bytes → Node S → Bytes → Bytes
  encode_properties [] n buf = buf
  encode_properties (name ∷ names) n buf = elim (get_property n name) [
    | some v ↦ encode_properties names n (encode_value_comparable codec.values v buf)
    | none ↦ encode_properties names n (encode_value_comparable codec.values null buf)
  ]

  unfoldable pub encode_values : Values S → Bytes → Bytes
  encode_values no_values buf = buf
  encode_values (more_values v vs) buf =
      encode_values vs (encode_value_comparable codec.values v buf)

  module _ (rocks : Rocks) where
    -- `cf`
    abbrev pub with_cf : {A : Type 0} → rocks.Db → Result StorageError A → Result StorageError A
    with_cf db run =
        if rocks.has_cf db prop_index
        then run
        else err (internal (codes "column family not found: " ++ prop_index))

    -- the conversion of RocksDB's error
    abbrev pub rocks_err : {A : Type 0} → Result Bytes A → Result StorageError A
    rocks_err r = map_err internal r

    abbrev pub create_index : rocks.Db → IndexDefinition → Result StorageError rocks.Db
    create_index db d = with_cf db (do
      value ← map_err serialization (codec.serialize d)
      rocks_err (rocks.put_cf db prop_index (meta_key d.graph_id d.name) value))

    -- the deletions of the entries under a prefix
    unfoldable pub entry_deletions :
        Bytes → List (Result Bytes Entry) → Result StorageError (List BatchOp)
    entry_deletions prefix [] = ok []
    entry_deletions prefix (err e ∷ items) = err (internal e)
    entry_deletions prefix (ok (key, value) ∷ items) =
        let rest = entry_deletions prefix items in
        if not (starts_with key prefix)
        then ok []
        else (do ops ← rest; ok (BatchOp.delete_cf prop_index key ∷ ops))

    -- `delete_cf` of the metadata is a batch of one deletion
    abbrev pub drop_index : rocks.Db → GraphId → Bytes → Result StorageError rocks.Db
    drop_index db g name =
        let temp : IndexDefinition = record {
          name = name;
          graph_id = g;
          entity_type = node;
          property_names = [];
          unique = false;
        } in
        with_cf db (do
          db ← rocks_err (rocks.write db (BatchOp.delete_cf prop_index (meta_key g name) ∷ []))
          ops ←
              entry_deletions (entry_prefix temp)
                (rocks.iterator_from db prop_index (entry_prefix temp))
          rocks_err (rocks.write db ops))

    -- the last 16 bytes of a key
    abbrev pub entity_id : Bytes → NodeId
    entity_id key = record { as_bytes = drop (length key - 16) key }

    -- the loop of a unique index: no entry of another node under the prefix
    unfoldable pub check_unique :
        Bytes → NodeId → Bytes → List (Result Bytes Entry) → Result StorageError (Unit {0})
    check_unique prefix id message [] = ok tt
    check_unique prefix id message (err e ∷ items) = err (internal e)
    check_unique prefix id message (ok (key, value) ∷ items) =
        let rest = check_unique prefix id message items in
        if not (starts_with key prefix)
        then ok tt
        else if leb 16 (length key)
        then (if bytes_eq (entity_id key).as_bytes id.as_bytes
            then rest
            else err (unique_violation message))
        else rest

    abbrev pub index_node : rocks.Db → IndexDefinition → Node S → Result StorageError rocks.Db
    index_node db d n =
        let encoded = encode_properties d.property_names n [] in
        let prefix = entry_value_prefix d encoded in
        let add = rocks_err (rocks.put_cf db prop_index (entry_key d encoded n.id) []) in
        let checked =
          check_unique prefix n.id (duplicate_message d n)
            (rocks.iterator_from db prop_index prefix) in
        with_cf db (if d.unique then (do _ ← checked; add) else add)

    abbrev pub unindex_node : rocks.Db → IndexDefinition → Node S → Result StorageError rocks.Db
    unindex_node db d n =
        let encoded = encode_properties d.property_names n [] in
        with_cf db (
          rocks_err (rocks.write db (BatchOp.delete_cf prop_index (entry_key d encoded n.id) ∷ [])))

    -- the loop of a scan: the identifiers of the keys up to the first that `stop` holds of
    unfoldable pub collect_ids :
        (Bytes → Bool) → List (Result Bytes Entry) → Result StorageError (List NodeId)
    collect_ids stop [] = ok []
    collect_ids stop (err e ∷ items) = err (internal e)
    collect_ids stop (ok (key, value) ∷ items) =
        let rest = collect_ids stop items in
        if stop key
        then ok []
        else if leb 16 (length key)
        then (do ids ← rest; ok (entity_id key ∷ ids))
        else rest

    abbrev pub lookup : rocks.Db → IndexDefinition → Values S → Result StorageError (List NodeId)
    lookup db d values =
        let prefix = entry_value_prefix d (encode_values values []) in
        with_cf db (
          collect_ids (λ key. not (starts_with key prefix))
            (rocks.iterator_from db prop_index prefix))

    abbrev pub range_scan :
        rocks.Db → IndexDefinition → Value S → Value S → Result StorageError (List NodeId)
    range_scan db d start end =
        let prefix = entry_prefix d in
        let start_key = prefix ++ encode_values (more_values start no_values) [] in
        let end_key = prefix ++ encode_values (more_values end no_values) [] in
        with_cf db (
          collect_ids (λ key. not (starts_with key prefix) || lex_le end_key key)
            (rocks.iterator_from db prop_index start_key))

    -- the loop of `list_indexes`
    unfoldable pub collect_definitions :
        Bytes → List (Result Bytes Entry) → Result StorageError (List IndexDefinition)
    collect_definitions prefix [] = ok []
    collect_definitions prefix (err e ∷ items) = err (internal e)
    collect_definitions prefix (ok (key, value) ∷ items) =
        let rest = collect_definitions prefix items in
        if not (starts_with key prefix)
        then ok []
        else (do d ← map_err deserialization (codec.deserialize value); ds ← rest; ok (d ∷ ds))

    abbrev pub list_indexes : rocks.Db → GraphId → Result StorageError (List IndexDefinition)
    list_indexes db g =
        with_cf db
          (collect_definitions (meta_prefix g) (rocks.iterator_from db prop_index (meta_prefix g)))
