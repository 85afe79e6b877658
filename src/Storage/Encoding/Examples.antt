-- ===== src/Storage/Encoding/Examples.antt =====
-- Tests of the key encodings.
use synaptica.Prelude.{◌≡◌, ◌↔◌, refl, true, some, [], ◌++◌, arith, take, starts_with, codes}
use synaptica.Core.Graph.{GraphId, NodeId, EdgeId, Label, IsUuid}
use synaptica.Storage.Encoding.{
  encode_node_key, decode_node_key, encode_label, decode_label, encode_adj_out_key,
  encode_adj_in_key, encode_adj_out_label_prefix, encode_adj_in_label_prefix, encode_node_label_key,
  encode_node_label_prefix, is_utf8, u16_max,
}
use synaptica.Storage.Encoding.Keys.{decode_node_key_exact, decode_label-encode_label}
use synaptica.Storage.Encoding.Scans.{
  IsScope, adj_label_scan_exact, adj_key-prefix_free, node_label_scan_exact, encode_label-eq_iff,
}

abbrev g : GraphId
g = record { as_bytes = codes "0123456789abcdef" }

abbrev n : NodeId
n = record { as_bytes = codes "fedcba9876543210" }

abbrev e : EdgeId
e = record { as_bytes = codes "edge-edge-edge-0" }

abbrev e' : EdgeId
e' = record { as_bytes = codes "edge-edge-edge-1" }

abbrev person : Label
person = record { as_str = codes "Person" }

abbrev person_company : Label
person_company = record { as_str = codes "PersonCompany" }

IsScope-person : IsScope g n person
IsScope-person = record { graph = refl; node = refl; label = omega arith }

IsScope-person_company : IsScope g n person_company
IsScope-person_company = record { graph = refl; node = refl; label = omega arith }

decode_node_key_exact_example :
    (decode_node_key (codes "0123456789abcdeffedcba9876543210") ≡ some (g, n)) ↔ (
      IsUuid g.as_bytes
      × IsUuid n.as_bytes
      × (starts_with (codes "0123456789abcdeffedcba9876543210") (encode_node_key g n) ≡ true))
decode_node_key_exact_example = decode_node_key_exact (codes "0123456789abcdeffedcba9876543210") g n

reads_node_key : decode_node_key (encode_node_key g n) ≡ some (g, n)
unfolding decode_node_key encode_node_key
reads_node_key = refl

decode_label-encode_label_example :
    decode_label (encode_label (codes "Person") [] ++ codes "rest") ≡ some (codes "Person", 8)
unfolding is_utf8
decode_label-encode_label_example =
    decode_label-encode_label (codes "Person") (codes "rest") (omega arith) refl

adj_label_scan_exact_example :
    ((starts_with (encode_adj_out_key g n person_company e) (encode_adj_out_label_prefix g n person)
        ≡ true)
      ↔ ((g ≡ g) × (n ≡ n) × (person_company ≡ person)))
    × ((starts_with (encode_adj_in_key g n person_company e) (encode_adj_in_label_prefix g n person)
          ≡ true)
        ↔ ((g ≡ g) × (n ≡ n) × (person_company ≡ person)))
adj_label_scan_exact_example =
    adj_label_scan_exact g g n n person_company person IsScope-person_company IsScope-person e

adj_key-prefix_free_example :
    ((starts_with (encode_adj_out_key g n person_company e) (encode_adj_out_key g n person e')
        ≡ true)
      ↔ ((g ≡ g) × (n ≡ n) × (person_company ≡ person) × (e ≡ e')))
    × ((starts_with (encode_adj_in_key g n person_company e) (encode_adj_in_key g n person e')
          ≡ true)
        ↔ ((g ≡ g) × (n ≡ n) × (person_company ≡ person) × (e ≡ e')))
adj_key-prefix_free_example =
    adj_key-prefix_free g g n n person_company person IsScope-person_company IsScope-person e e'
      refl refl

node_label_scan_exact_example :
    (starts_with (encode_node_label_key g person_company n) (encode_node_label_prefix g person)
      ≡ true)
    ↔ ((g ≡ g) × (person_company ≡ person))
node_label_scan_exact_example =
    node_label_scan_exact g g person_company person n refl refl (omega arith) (omega arith)

encode_label-eq_iff_example :
    (encode_label (codes "a") (codes "x") ≡ encode_label (codes "b") (codes "x"))
    ↔ (take u16_max (codes "a") ≡ take u16_max (codes "b"))
encode_label-eq_iff_example = encode_label-eq_iff (codes "a") (codes "b") (codes "x")
