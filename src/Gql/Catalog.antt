-- ===== src/Gql/Catalog.antt =====
-- crates/synaptica-gql/src/catalog.rs: the catalog in memory, its maps as association lists.
use synaptica.Prelude.{
  ℕ, Bool, true, false, ◌&&◌, Option, none, some, List, [], ◌∷◌, ◌++◌, Bytes, bytes_eq, ◌==◌,
  if◌then◌else◌, get_key, put_key,
}

pub record GraphMeta : Type 0 where
  pub id : ℕ
  pub name : Bytes

pub record InMemoryCatalog : Type 0 where
  pub graphs : List (Bytes × GraphMeta)
  pub labels : List (ℕ × List Bytes)
  pub properties : List ((ℕ × Bytes) × List Bytes)

abbrev pub new : InMemoryCatalog
new = record { graphs = []; labels = []; properties = [] }

abbrev pub add_graph : InMemoryCatalog → Bytes → ℕ → InMemoryCatalog
add_graph c name id = record {
  graphs = put_key name (record { id = id; name = name }) c.graphs;
  labels = c.labels;
  properties = c.properties;
}

-- `get(k).cloned().unwrap_or_default()`, and `entry(k).or_default().extend(names)`
module _ {K : Type 0} (eq : K → K → Bool) where
  unfoldable pub names_at : K → List (K × List Bytes) → List Bytes
  names_at k [] = []
  names_at k ((j, ns) ∷ t) = if eq j k then ns else names_at k t

  unfoldable pub extend_at : K → List Bytes → List (K × List Bytes) → List (K × List Bytes)
  extend_at k names [] = (k, names) ∷ []
  extend_at k names ((j, ns) ∷ t) =
      if eq j k then (j, ns ++ names) ∷ t else (j, ns) ∷ extend_at k names t

abbrev pub eq_pair : ℕ × Bytes → ℕ × Bytes → Bool
eq_pair (a, x) (b, y) = (a == b) && bytes_eq x y

abbrev pub add_labels : InMemoryCatalog → ℕ → List Bytes → InMemoryCatalog
add_labels c graph_id labels = record {
  graphs = c.graphs;
  labels = extend_at (λ a b. a == b) graph_id labels c.labels;
  properties = c.properties;
}

abbrev pub add_properties : InMemoryCatalog → ℕ → Bytes → List Bytes → InMemoryCatalog
add_properties c graph_id label properties = record {
  graphs = c.graphs;
  labels = c.labels;
  properties = extend_at eq_pair (graph_id, label) properties c.properties;
}

abbrev pub get_graph : InMemoryCatalog → Bytes → Option GraphMeta
get_graph c name = get_key name c.graphs

abbrev pub get_labels : InMemoryCatalog → ℕ → List Bytes
get_labels c graph_id = names_at (λ a b. a == b) graph_id c.labels

abbrev pub get_properties : InMemoryCatalog → ℕ → Bytes → List Bytes
get_properties c graph_id label = names_at eq_pair (graph_id, label) c.properties

abbrev pub graph_exists : InMemoryCatalog → Bytes → Bool
graph_exists c name = elim (get_graph c name) [ none ↦ false | some g ↦ true ]
