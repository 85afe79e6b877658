-- ===== src/Storage/Encoding/Keys.antt =====
-- Reading keys and labels back: `decode_node_key`, `decode_edge_key`, `decode_label`.
use synaptica.Prelude.{
  ◌+◌, ◌*◌, ◌≤◌, ◌≡◌, refl, ap, subst, ◌∙◌, ◌↔◌, true, false, some, [], ◌++◌, arith, append_assoc,
  ltb, le→ltb_false, ltb_false→le, Bytes, length, take, drop, length-append, length-take,
  length-drop, take-append, drop-append, take-append-drop, starts_with, starts_with-append,
  starts_with_sound, be_bytes, from_be, length-be_bytes, from_be-be_bytes,
}
use synaptica.Core.Graph.{GraphId, NodeId, EdgeId, IsUuid, uuid_len}
use synaptica.Storage.Encoding.{
  encode_node_key, decode_node_key, encode_edge_key, decode_edge_key, encode_label, decode_label,
  u16_max, is_utf8,
}
use synaptica.Storage.Encoding.Split.{label_bytes_fit, encode_label-eq}

-- Two UUIDs at the front of a byte string are read back by slicing.
pub two_uuids :
    (a b rest : Bytes)
    → IsUuid a
    → IsUuid b
    → (take uuid_len ((a ++ b) ++ rest) ≡ a)
      × (take uuid_len (drop uuid_len ((a ++ b) ++ rest)) ≡ b)
two_uuids a b rest h k = rw append_assoc (
  take-append uuid_len a (b ++ rest) h,
  rw (drop-append uuid_len a (b ++ rest) h) (take-append uuid_len b rest k),
)

-- A byte string of at least 32 bytes starts with its first two slices of 16.
pub slices-start :
    (bytes : Bytes)
    → starts_with bytes (take uuid_len bytes ++ take uuid_len (drop uuid_len bytes)) ≡ true
slices-start bytes =
    let t = take uuid_len bytes in
    let d = drop uuid_len bytes in
    let e : (t ++ take uuid_len d) ++ drop uuid_len d ≡ bytes =
      append_assoc t _ _
      ∙ ap (λ u. t ++ u) (take-append-drop uuid_len d)
      ∙ take-append-drop uuid_len bytes in
    subst (λ b. starts_with b (t ++ take uuid_len d) ≡ true) e (starts_with-append _ _)

length_slices :
    (bytes : Bytes)
    → uuid_len * 2 ≤ length bytes
    → IsUuid (take uuid_len bytes) × IsUuid (take uuid_len (drop uuid_len bytes))
length_slices bytes h = omega (
  arith,
  length-take uuid_len bytes,
  length-drop uuid_len bytes,
  length-take uuid_len (drop uuid_len bytes),
)

-- The test and the two slices of a decoder, against the bytes that they stand for.
pub slices_exact :
    (bytes a b : Bytes)
    → ((ltb (length bytes) (uuid_len * 2) ≡ false)
        × (take uuid_len bytes ≡ a)
        × (take uuid_len (drop uuid_len bytes) ≡ b))
      ↔ (IsUuid a × IsUuid b × (starts_with bytes (a ++ b) ≡ true))
slices_exact bytes a b = (
  λ (long, e, f).
      let (p, q) = length_slices bytes (ltb_false→le _ _ long) in
      rw (← e, ← f) (p, q, slices-start bytes),
  λ (ha, hb, s).
      let (rest, e) = starts_with_sound bytes _ s in
      let (p, q) = two_uuids a b rest ha hb in
      rw e (le→ltb_false _ _ (omega (arith, length-append (a ++ b) rest, length-append a b)), p, q),
)

-- `decode_node_key` gives `(g, n)` exactly for the byte strings that start with
-- `encode_node_key g n`, where `g` and `n` have 16 bytes.
pub decode_node_key_exact :
    (bytes : Bytes) (g : GraphId) (n : NodeId)
    → (decode_node_key bytes ≡ some (g, n))
      ↔ (IsUuid g.as_bytes × IsUuid n.as_bytes × (starts_with bytes (encode_node_key g n) ≡ true))
unfolding decode_node_key encode_node_key
decode_node_key_exact bytes g n =
    let (forth, back) = slices_exact bytes g.as_bytes n.as_bytes in
    (λ h. forth (ground arith), λ h. ground (arith, back h))

-- `decode_edge_key` gives `(g, e)` exactly for the byte strings that start with
-- `encode_edge_key g e`, where `g` and `e` have 16 bytes.
pub decode_edge_key_exact :
    (bytes : Bytes) (g : GraphId) (e : EdgeId)
    → (decode_edge_key bytes ≡ some (g, e))
      ↔ (IsUuid g.as_bytes × IsUuid e.as_bytes × (starts_with bytes (encode_edge_key g e) ≡ true))
unfolding decode_edge_key encode_edge_key
decode_edge_key_exact bytes g e =
    let (forth, back) = slices_exact bytes g.as_bytes e.as_bytes in
    (λ h. forth (ground arith), λ h. ground (arith, back h))

-- A label of at most 65535 bytes that are UTF-8 is read back from the front of a buffer, with the
-- number of bytes consumed.
pub decode_label-encode_label :
    (s rest : Bytes)
    → length s ≤ u16_max
    → is_utf8 s ≡ true
    → decode_label (encode_label s [] ++ rest) ≡ some (s, 2 + length s)
unfolding decode_label
decode_label-encode_label s rest h u =
    let n = length s in
    let l = be_bytes 2 n in
    let ll : length l ≡ 2 = length-be_bytes 2 n in
    let e1 : take 2 (l ++ (s ++ rest)) ≡ l = take-append 2 l (s ++ rest) ll in
    let e2 : drop 2 (l ++ (s ++ rest)) ≡ s ++ rest = drop-append 2 l (s ++ rest) ll in
    let e3 : from_be l ≡ n = from_be-be_bytes 2 n (omega arith) in
    rw (encode_label-eq, label_bytes_fit s h, append_assoc, e1, e2, e3)
      (ground
        (arith, ll, take-append n s rest refl, length-append l (s ++ rest), length-append s rest))
