-- ===== src/Core.antt =====
-- crates/synaptica-core: the identifiers, labels, nodes and edges of graph.rs, and the values of types.rs.
pub mod Graph
pub mod Values
pub mod Nodes
