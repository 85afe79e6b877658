-- ===== src/Storage/Index/Examples.antt =====
-- Encoded values, and the theorem on their order at concrete inputs.
use synaptica.Prelude.{◌≡◌, refl, arith, Ordering, [], ◌∷◌, err, lex, be_bytes}
use synaptica.Prelude.Integers.{pos, negsuc}
use synaptica.Core.Values.{integer, float}
use synaptica.Core.Values.WellFormed.{IsValue}
use synaptica.Exec.Expression.Examples.{released}
use synaptica.Prelude.{true, ok, bytes_eq, All, codes, Bytes}
use synaptica.Core.Values.{string, more_fields, no_fields, get_field}
use synaptica.Core.Nodes.{Node}
use synaptica.Storage.Rocks.{BatchOp}
use synaptica.Storage.Rocks.Memory.{Memory, memory, empty, run_batch}
use synaptica.Storage.Index.{
  IndexDefinition, IndexEntityType, Codec, prop_index, entry_key, entry_value_prefix,
  encode_properties, check_unique, index_node,
}
use synaptica.Storage.Index.Unique.{IsOf, index_node-unique}
use synaptica.Storage.Index.Comparable.{ValueCodec, encoded}
use synaptica.Storage.Index.Order.{lex-encoded}

abbrev codec : ValueCodec released
codec = record { float_bits = λ x. 9223372036854775808; serialize = λ v. err [] }

-- A float whose bits are those of -0.0 and that is not below 0.0 gets the least bits of all floats.
negative_zero : encoded codec (float (pos 0)) ≡ 3 ∷ 0 ∷ 0 ∷ 0 ∷ 0 ∷ 0 ∷ 0 ∷ 0 ∷ 0 ∷ []
unfolding encoded be_bytes
negative_zero = refl

lex-encoded_example :
    lex (encoded codec (integer (negsuc 4))) (encoded codec (integer (pos 3))) ≡ Ordering.lt
unfolding IsValue
lex-encoded_example =
    lex-encoded codec (integer (negsuc 4)) (integer (pos 3)) Ordering.lt (omega arith) (omega arith)
      refl

-- a unique index of names, with an entry of the node `first`
abbrev names : IndexDefinition
names = record {
  name = codes "names";
  graph_id = record { as_bytes = codes "0123456789abcdef" };
  entity_type = IndexEntityType.node;
  property_names = codes "name" ∷ [];
  unique = true;
}

abbrev index_codec : Codec released
index_codec = record {
  values = codec;
  hash_index_name = λ name. codes "8 bytes!";
  show_uuid = λ bytes. bytes;
  serialize = λ d. err [];
  deserialize = λ b. err [];
}

abbrev ada : Bytes → Node released
ada id = record {
  id = record { as_bytes = id };
  graph_id = names.graph_id;
  labels = [];
  properties = more_fields (codes "name") (string (codes "Ada")) no_fields;
}

abbrev indexed : Memory
indexed = run_batch empty (
    BatchOp.put_cf prop_index
      (entry_key index_codec names
        (encode_properties index_codec names.property_names (ada (codes "node-node-node-a")) [])
        (ada (codes "node-node-node-a")).id)
      []
    ∷ [])

first_indexed :
    index_node index_codec memory empty names (ada (codes "node-node-node-a")) ≡ ok indexed
unfolding check_unique encode_properties bytes_eq get_field
first_indexed = refl

index_node-unique_example :
    All
      (IsOf
        (entry_value_prefix index_codec names
          (encode_properties index_codec names.property_names (ada (codes "node-node-node-a")) []))
        (ada (codes "node-node-node-a")).id)
      (memory.entries indexed prop_index)
index_node-unique_example =
    index_node-unique index_codec memory empty indexed names (ada (codes "node-node-node-a")) tt
      refl refl first_indexed
