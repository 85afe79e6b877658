-- ===== src/Storage/Encoding.antt =====
-- crates/synaptica-storage/src/encoding.rs: the keys of every column family. A buffer that a helper
-- extends through `&mut Vec<u8>` is passed in and handed back.
pub mod Split
pub mod Keys
pub mod Scans
pub mod Examples
use synaptica.Prelude.{
  ℕ, zero, suc, ◌+◌, ◌*◌, Bool, true, false, ◌&&◌, Option, none, some, List, [], ◌∷◌, ◌++◌, min,
  Bytes, length, take, drop, ltb, leb, ◌==◌, if◌then◌else◌, be_bytes, from_be,
}
use synaptica.Core.Graph.{GraphId, NodeId, EdgeId, Label, uuid_len}

abbrev pub u16_max : ℕ
u16_max = 65535

pub encode_uuid : Bytes → Bytes → Bytes
encode_uuid uuid_bytes buf = buf ++ uuid_bytes

pub encode_label : Bytes → Bytes → Bytes
encode_label bytes buf =
    let len = min (length bytes) u16_max in (buf ++ be_bytes 2 len) ++ take len bytes

-- What `std::str::from_utf8` accepts: after a lead byte the number of bytes that must follow, and
-- the range of the first of them.
utf8_lead : ℕ → Option (ℕ × ℕ × ℕ)
utf8_lead b =
    if ltb b 0x80
    then some (0, 0x80, 0xBF)
    else if leb 0xC2 b && leb b 0xDF
    then some (1, 0x80, 0xBF)
    else if b == 0xE0
    then some (2, 0xA0, 0xBF)
    else if b == 0xED
    then some (2, 0x80, 0x9F)
    else if leb 0xE1 b && leb b 0xEF
    then some (2, 0x80, 0xBF)
    else if b == 0xF0
    then some (3, 0x90, 0xBF)
    else if leb 0xF1 b && leb b 0xF3
    then some (3, 0x80, 0xBF)
    else if b == 0xF4
    then some (3, 0x80, 0x8F)
    else none

utf8_from : ℕ → ℕ → ℕ → Bytes → Bool
utf8_from zero lo hi [] = true
utf8_from (suc n) lo hi [] = false
utf8_from zero lo hi (b ∷ bs) = elim (utf8_lead b) [
  | none ↦ false
  | some (n, l, h) ↦ utf8_from n l h bs
]
utf8_from (suc n) lo hi (b ∷ bs) = elim (leb lo b && leb b hi) [
  | true ↦ utf8_from n 0x80 0xBF bs
  | false ↦ false
]

unfoldable pub is_utf8 : Bytes → Bool
unfolding utf8_lead utf8_from
is_utf8 bytes = utf8_from 0 0x80 0xBF bytes

pub decode_label : Bytes → Option (Bytes × ℕ)
decode_label bytes =
    if ltb (length bytes) 2
    then none
    else let len = from_be (take 2 bytes) in
      if ltb (length bytes) (2 + len)
      then none
      else let s = take len (drop 2 bytes) in if is_utf8 s then some (s, 2 + len) else none

-- Node keys and edge keys

pub encode_node_key : GraphId → NodeId → Bytes
unfolding encode_uuid
encode_node_key graph_id node_id = encode_uuid node_id.as_bytes (encode_uuid graph_id.as_bytes [])

pub decode_node_key : Bytes → Option (GraphId × NodeId)
decode_node_key bytes =
    if ltb (length bytes) (uuid_len * 2)
    then none
    else some (
      record { as_bytes = take uuid_len bytes },
      record { as_bytes = take uuid_len (drop uuid_len bytes) },
    )

pub encode_node_prefix : GraphId → Bytes
unfolding encode_uuid
encode_node_prefix graph_id = encode_uuid graph_id.as_bytes []

pub encode_edge_key : GraphId → EdgeId → Bytes
unfolding encode_uuid
encode_edge_key graph_id edge_id = encode_uuid edge_id.as_bytes (encode_uuid graph_id.as_bytes [])

pub encode_edge_prefix : GraphId → Bytes
unfolding encode_uuid
encode_edge_prefix graph_id = encode_uuid graph_id.as_bytes []

pub decode_edge_key : Bytes → Option (GraphId × EdgeId)
decode_edge_key bytes =
    if ltb (length bytes) (uuid_len * 2)
    then none
    else some (
      record { as_bytes = take uuid_len bytes },
      record { as_bytes = take uuid_len (drop uuid_len bytes) },
    )

-- Adjacency keys

pub encode_adj_out_key : GraphId → NodeId → Label → EdgeId → Bytes
unfolding encode_uuid encode_label
encode_adj_out_key graph_id source label edge_id =
    let buf = encode_uuid graph_id.as_bytes [] in
    let buf = encode_uuid source.as_bytes buf in
    let buf = encode_label label.as_str buf in encode_uuid edge_id.as_bytes buf

pub encode_adj_in_key : GraphId → NodeId → Label → EdgeId → Bytes
unfolding encode_uuid encode_label
encode_adj_in_key graph_id target label edge_id =
    let buf = encode_uuid graph_id.as_bytes [] in
    let buf = encode_uuid target.as_bytes buf in
    let buf = encode_label label.as_str buf in encode_uuid edge_id.as_bytes buf

pub encode_adj_out_prefix : GraphId → NodeId → Bytes
unfolding encode_uuid
encode_adj_out_prefix graph_id source =
    encode_uuid source.as_bytes (encode_uuid graph_id.as_bytes [])

pub encode_adj_out_label_prefix : GraphId → NodeId → Label → Bytes
unfolding encode_uuid encode_label
encode_adj_out_label_prefix graph_id source label =
    encode_label label.as_str (encode_uuid source.as_bytes (encode_uuid graph_id.as_bytes []))

pub encode_adj_in_prefix : GraphId → NodeId → Bytes
unfolding encode_uuid
encode_adj_in_prefix graph_id target =
    encode_uuid target.as_bytes (encode_uuid graph_id.as_bytes [])

pub encode_adj_in_label_prefix : GraphId → NodeId → Label → Bytes
unfolding encode_uuid encode_label
encode_adj_in_label_prefix graph_id target label =
    encode_label label.as_str (encode_uuid target.as_bytes (encode_uuid graph_id.as_bytes []))

-- Label index keys and graph metadata keys

pub encode_node_label_key : GraphId → Label → NodeId → Bytes
unfolding encode_uuid encode_label
encode_node_label_key graph_id label node_id =
    encode_uuid node_id.as_bytes (encode_label label.as_str (encode_uuid graph_id.as_bytes []))

pub encode_node_label_prefix : GraphId → Label → Bytes
unfolding encode_uuid encode_label
encode_node_label_prefix graph_id label =
    encode_label label.as_str (encode_uuid graph_id.as_bytes [])

pub encode_edge_label_key : GraphId → Label → EdgeId → Bytes
unfolding encode_uuid encode_label
encode_edge_label_key graph_id label edge_id =
    encode_uuid edge_id.as_bytes (encode_label label.as_str (encode_uuid graph_id.as_bytes []))

pub encode_graph_meta_key : GraphId → Bytes
unfolding encode_uuid
encode_graph_meta_key graph_id = encode_uuid graph_id.as_bytes []
