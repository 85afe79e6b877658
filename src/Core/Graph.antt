-- ===== src/Core/Graph.antt =====
-- crates/synaptica-core/src/graph.rs: identifiers are UUIDs (16 bytes), labels are strings.
use synaptica.Prelude.{ℕ, ◌≡◌, ap, Bytes, length}

pub record GraphId : Type 0 where
  pub as_bytes : Bytes

pub record NodeId : Type 0 where
  pub as_bytes : Bytes

pub record EdgeId : Type 0 where
  pub as_bytes : Bytes

pub record Label : Type 0 where
  pub as_str : Bytes

-- the array type `[u8; 16]`
abbrev pub uuid_len : ℕ
uuid_len = 16

abbrev pub IsUuid : Bytes → Type 0
IsUuid u = length u ≡ uuid_len

pub GraphId-ext : (a b : GraphId) → a.as_bytes ≡ b.as_bytes → a ≡ b
GraphId-ext a b h = ap (λ u. record { as_bytes = u }) h

pub NodeId-ext : (a b : NodeId) → a.as_bytes ≡ b.as_bytes → a ≡ b
NodeId-ext a b h = ap (λ u. record { as_bytes = u }) h

pub EdgeId-ext : (a b : EdgeId) → a.as_bytes ≡ b.as_bytes → a ≡ b
EdgeId-ext a b h = ap (λ u. record { as_bytes = u }) h

pub Label-ext : (a b : Label) → a.as_str ≡ b.as_str → a ≡ b
Label-ext a b h = ap (λ u. record { as_str = u }) h
