-- ===== src/Storage/Encoding/Scans.antt =====
-- What a prefix scan over the keys of encoding.rs finds, and that no key is a proper prefix of
-- another key of its family.
use synaptica.Prelude.{
  ℕ, ◌≤◌, ◌≡◌, refl, sym, ap, ◌∙◌, ◌↔◌, true, [], ◌∷◌, ◌++◌, arith, append_assoc, append-nil, Bytes,
  length, take, min, length-take, starts_with, be_bytes, length-be_bytes, take-eq_self,
}
use mathlib.Core.Path.{subst₂}
use native.Mathlib.Decide.{dec_le}
use native.Mathlib.Nat.{le_refl}
use synaptica.Core.Graph.{
  GraphId, NodeId, EdgeId, Label, IsUuid, GraphId-ext, NodeId-ext, EdgeId-ext, Label-ext,
}
use synaptica.Storage.Encoding.{
  encode_label, encode_adj_out_key, encode_adj_in_key, encode_adj_out_label_prefix,
  encode_adj_in_label_prefix, encode_node_label_key, encode_node_label_prefix, u16_max,
}
use synaptica.Storage.Encoding.Split.{
  label_bytes, encode_label-eq, starts_with_label, starts_with_field, append_split,
}

-- an identifier of a graph, and a node of it, and a label that the length prefix can hold
pub record IsScope (g : GraphId) (n : NodeId) (l : Label) : Type 0 where
  pub graph : IsUuid g.as_bytes
  pub node : IsUuid n.as_bytes
  pub label : length l.as_str ≤ u16_max

-- The keys with their fields in a row.
adj_bytes : GraphId → NodeId → Label → Bytes → Bytes
adj_bytes g n l x = g.as_bytes ++ (n.as_bytes ++ (label_bytes l.as_str ++ x))

adj_out_key-eq :
    (g : GraphId) (n : NodeId) (l : Label) (e : EdgeId)
    → encode_adj_out_key g n l e ≡ adj_bytes g n l e.as_bytes
unfolding encode_adj_out_key adj_bytes
adj_out_key-eq g n l e = simp (encode_label-eq, append_assoc)

adj_out_label_prefix-eq :
    (g : GraphId) (n : NodeId) (l : Label) → encode_adj_out_label_prefix g n l ≡ adj_bytes g n l []
unfolding encode_adj_out_label_prefix adj_bytes
adj_out_label_prefix-eq g n l = simp (encode_label-eq, append_assoc, append-nil)

adj_in_key-eq :
    (g : GraphId) (n : NodeId) (l : Label) (e : EdgeId)
    → encode_adj_in_key g n l e ≡ adj_bytes g n l e.as_bytes
unfolding encode_adj_in_key adj_bytes
adj_in_key-eq g n l e = simp (encode_label-eq, append_assoc)

adj_in_label_prefix-eq :
    (g : GraphId) (n : NodeId) (l : Label) → encode_adj_in_label_prefix g n l ≡ adj_bytes g n l []
unfolding encode_adj_in_label_prefix adj_bytes
adj_in_label_prefix-eq g n l = simp (encode_label-eq, append_assoc, append-nil)

starts_with_all : (x : Bytes) → starts_with x [] ≡ true
unfolding starts_with
starts_with_all [] = refl
starts_with_all (b ∷ x) = refl

-- `starts_with` on whole fields of one length
starts_with_same : (x q : Bytes) → length x ≡ length q → (starts_with x q ≡ true) ↔ (x ≡ q)
starts_with_same x q h =
    let (forth, back) = starts_with_field x q [] [] h in
    (
      λ s. (forth (rw (append-nil, append-nil) s)).0,
      λ e. rw (append-nil, append-nil) at (back (e, starts_with_all [])),
    )

module _ (g g' : GraphId) (n n' : NodeId) (l l' : Label) (s : IsScope g n l)
    (s' : IsScope g' n' l') where
  adj_bytes_scan :
      (x q : Bytes)
      → (starts_with (adj_bytes g n l x) (adj_bytes g' n' l' q) ≡ true)
        ↔ ((g ≡ g') × (n ≡ n') × (l ≡ l') × (starts_with x q ≡ true))
  unfolding adj_bytes
  adj_bytes_scan x q =
      let graph =
        starts_with_field g.as_bytes g'.as_bytes (n.as_bytes ++ (label_bytes l.as_str ++ x))
          (n'.as_bytes ++ (label_bytes l'.as_str ++ q)) (s.graph ∙ sym s'.graph) in
      let node =
        starts_with_field n.as_bytes n'.as_bytes (label_bytes l.as_str ++ x)
          (label_bytes l'.as_str ++ q) (s.node ∙ sym s'.node) in
      let label = starts_with_label l.as_str l'.as_str x q s.label s'.label in
      (
        λ h.
            let (eg, h1) = graph.0 h in
            let (en, h2) = node.0 h1 in
            let (el, h3) = label.0 h2 in
            (GraphId-ext g g' eg, NodeId-ext n n' en, Label-ext l l' el, h3),
        λ (eg, en, el, h). graph.1 (
          ap (λ t. t.as_bytes) eg,
          node.1 (ap (λ t. t.as_bytes) en, label.1 (ap (λ t. t.as_str) el, h)),
        ),
      )

  -- A scan by graph, node and label finds an outgoing (or incoming) adjacency key exactly if the
  -- key has that graph, node and label. The identifiers have 16 bytes, the labels at most 65535.
  pub adj_label_scan_exact :
      (e : EdgeId)
      → ((starts_with (encode_adj_out_key g n l e) (encode_adj_out_label_prefix g' n' l') ≡ true)
          ↔ ((g ≡ g') × (n ≡ n') × (l ≡ l')))
        × ((starts_with (encode_adj_in_key g n l e) (encode_adj_in_label_prefix g' n' l') ≡ true)
            ↔ ((g ≡ g') × (n ≡ n') × (l ≡ l')))
  adj_label_scan_exact e =
      let scan = adj_bytes_scan e.as_bytes [] in
      let iff : (starts_with (adj_bytes g n l e.as_bytes) (adj_bytes g' n' l' []) ≡ true)
          ↔ ((g ≡ g') × (n ≡ n') × (l ≡ l')) =
        (
          λ h. let (a, b, c, _) = scan.0 h in (a, b, c),
          λ (a, b, c). scan.1 (a, b, c, starts_with_all e.as_bytes),
        ) in
      (
        rw (adj_out_key-eq, adj_out_label_prefix-eq) iff,
        rw (adj_in_key-eq, adj_in_label_prefix-eq) iff,
      )

  -- An adjacency key starts with another one only if the two have the same graph, node, label and
  -- edge: no key of either family is a proper prefix of another, whatever the labels' lengths.
  -- The identifiers have 16 bytes, the labels at most 65535.
  pub adj_key-prefix_free :
      (e e' : EdgeId)
      → IsUuid e.as_bytes
      → IsUuid e'.as_bytes
      → ((starts_with (encode_adj_out_key g n l e) (encode_adj_out_key g' n' l' e') ≡ true)
          ↔ ((g ≡ g') × (n ≡ n') × (l ≡ l') × (e ≡ e')))
        × ((starts_with (encode_adj_in_key g n l e) (encode_adj_in_key g' n' l' e') ≡ true)
            ↔ ((g ≡ g') × (n ≡ n') × (l ≡ l') × (e ≡ e')))
  adj_key-prefix_free e e' h h' =
      let scan = adj_bytes_scan e.as_bytes e'.as_bytes in
      let same = starts_with_same e.as_bytes e'.as_bytes (h ∙ sym h') in
      let iff : (starts_with (adj_bytes g n l e.as_bytes) (adj_bytes g' n' l' e'.as_bytes) ≡ true)
          ↔ ((g ≡ g') × (n ≡ n') × (l ≡ l') × (e ≡ e')) =
        (
          λ t. let (a, b, c, d) = scan.0 t in (a, b, c, EdgeId-ext e e' (same.0 d)),
          λ (a, b, c, d). scan.1 (a, b, c, same.1 (ap (λ u. u.as_bytes) d)),
        ) in
      (rw (adj_out_key-eq, adj_out_key-eq) iff, rw (adj_in_key-eq, adj_in_key-eq) iff)

-- The label index: a scan by graph and label finds the key of a node exactly if the key has that
-- graph and label. The graphs have 16 bytes, the labels at most 65535.
pub node_label_scan_exact :
    (g g' : GraphId) (l l' : Label) (n : NodeId)
    → IsUuid g.as_bytes
    → IsUuid g'.as_bytes
    → length l.as_str ≤ u16_max
    → length l'.as_str ≤ u16_max
    → (starts_with (encode_node_label_key g l n) (encode_node_label_prefix g' l') ≡ true)
      ↔ ((g ≡ g') × (l ≡ l'))
unfolding encode_node_label_key encode_node_label_prefix
node_label_scan_exact g g' l l' n h h' k k' =
    let graph =
      starts_with_field g.as_bytes g'.as_bytes (label_bytes l.as_str ++ n.as_bytes)
        (label_bytes l'.as_str ++ []) (h ∙ sym h') in
    let label = starts_with_label l.as_str l'.as_str n.as_bytes [] k k' in
    let e1 : encode_node_label_key g l n ≡ g.as_bytes ++ (label_bytes l.as_str ++ n.as_bytes) =
      simp (encode_label-eq, append_assoc) in
    let e2 : encode_node_label_prefix g' l' ≡ g'.as_bytes ++ (label_bytes l'.as_str ++ []) =
      simp (encode_label-eq, append_assoc, append-nil) in
    (
      λ t.
          let (a, t1) = graph.0 (subst₂ (λ u v. starts_with u v ≡ true) e1 e2 t) in
          (GraphId-ext g g' a, Label-ext l l' (label.0 t1).0),
      λ (a, b).
          subst₂ (λ u v. starts_with u v ≡ true) (sym e1) (sym e2)
            (graph.1
              (ap (λ t. t.as_bytes) a, label.1 (ap (λ t. t.as_str) b, starts_with_all n.as_bytes))),
    )

take-min : (n : ℕ) (a : Bytes) → take (min (length a) n) a ≡ take n a
take-min n a = elim (dec_le n (length a)) [
  | yes h ↦ (let e : min (length a) n ≡ n = omega arith in rw e)
  | no h ↦
      (let e : min (length a) n ≡ length a = omega arith in
        rw (e, take-eq_self (length a) a (le_refl (length a)), take-eq_self n a (omega arith)))
]

label_bytes-take :
    (a : Bytes) → label_bytes a ≡ be_bytes 2 (length (take u16_max a)) ++ take u16_max a
label_bytes-take a =
    let n = u16_max in
    let e : length (take n a) ≡ min (length a) n = omega (arith, length-take n a) in
    rw (e, take-min n a)

-- Two labels have one encoding exactly if they agree on their first 65535 bytes: longer labels are
-- told apart by nothing that follows.
pub encode_label-eq_iff :
    (a b buf : Bytes)
    → (encode_label a buf ≡ encode_label b buf) ↔ (take u16_max a ≡ take u16_max b)
encode_label-eq_iff a b buf =
    let len = λ (t : Bytes). length-be_bytes 2 (length t) in
    let ta = take u16_max a in
    let tb = take u16_max b in
    rw (encode_label-eq, encode_label-eq, label_bytes-take a, label_bytes-take b)
      (
        λ h.
            (append_split (be_bytes 2 (length ta)) (be_bytes 2 (length tb)) (len ta ∙ sym (len tb))
              (append_split buf buf refl h).1).1,
        λ h. ap (λ t. buf ++ (be_bytes 2 (length t) ++ t)) h,
      )
