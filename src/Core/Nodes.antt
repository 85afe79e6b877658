-- ===== src/Core/Nodes.antt =====
-- crates/synaptica-core/src/graph.rs: nodes and edges. A `BTreeSet` of labels is the list of them in order.
use synaptica.Prelude.{
  Bool, true, false, Option, none, some, List, [], ◌∷◌, Bytes, Ordering, bytes_eq, lex,
  if◌then◌else◌,
}
use synaptica.Core.Graph.{GraphId, NodeId, EdgeId, Label}
use synaptica.Core.Values.{Scalars, Value, Fields, no_fields, get_field, insert_field}

module _ (S : Scalars) where
  pub record Node : Type 0 where
    pub id : NodeId
    pub graph_id : GraphId
    pub labels : List Label
    pub properties : Fields S

  pub record Edge : Type 0 where
    pub id : EdgeId
    pub graph_id : GraphId
    pub source : NodeId
    pub target : NodeId
    pub label : Label
    pub properties : Fields S

-- `BTreeSet::insert` and `contains`
unfoldable pub insert_label : Label → List Label → List Label
insert_label l [] = l ∷ []
insert_label l (m ∷ ms) = elim (lex l.as_str m.as_str) [
  | Ordering.lt ↦ l ∷ m ∷ ms
  | Ordering.eq ↦ m ∷ ms
  | Ordering.gt ↦ m ∷ insert_label l ms
]

unfoldable pub contains_label : Bytes → List Label → Bool
contains_label l [] = false
contains_label l (m ∷ ms) = if bytes_eq l m.as_str then true else contains_label l ms

module _ {S : Scalars} where
  -- `Node::with_id`; `Node::new` does the same with a fresh identifier
  abbrev pub with_id : GraphId → NodeId → Node S
  with_id graph_id id = record { id = id; graph_id = graph_id; labels = []; properties = no_fields }

  abbrev pub add_label : Node S → Label → Node S
  add_label n l = record {
    id = n.id;
    graph_id = n.graph_id;
    labels = insert_label l n.labels;
    properties = n.properties;
  }

  abbrev pub set_property : Node S → Bytes → Value S → Node S
  set_property n k v = record {
    id = n.id;
    graph_id = n.graph_id;
    labels = n.labels;
    properties = insert_field k v n.properties;
  }

  abbrev pub get_property : Node S → Bytes → Option (Value S)
  get_property n k = get_field k n.properties

  abbrev pub has_label : Node S → Bytes → Bool
  has_label n l = contains_label l n.labels

  -- the other end of an edge
  abbrev pub other_node : Edge S → NodeId → Option NodeId
  other_node e n =
      if bytes_eq e.source.as_bytes n.as_bytes
      then some e.target
      else if bytes_eq e.target.as_bytes n.as_bytes
      then some e.source
      else none
