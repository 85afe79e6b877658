-- ===== src/Cluster/Partitions.antt =====
-- crates/synaptica-cluster/src/partition.rs and routing.rs: ranges of keys and who serves them.
pub mod Order
pub mod Ranges
pub mod Lookup
pub mod Examples
use synaptica.Prelude.{
  Bool, true, false, ◌&&◌, Option, none, some, List, [], ◌∷◌, ◌++◌, Bytes, lex, lex_lt, lex_le,
  if◌then◌else◌, find, Result, ok, err, codes,
}

pub record PartitionRange : Type 0 where
  pub start : Bytes
  pub end : Bytes

pub record Partition : Type 0 where
  pub id : Bytes
  pub range : PartitionRange
  pub leader_node : Bytes
  pub replicas : List Bytes

pub record PartitionMap : Type 0 where
  pub partitions : List Partition

abbrev pub new : PartitionMap
new = record { partitions = [] }

unfoldable pub overlaps : Partition → Partition → Bool
overlaps p existing =
    lex_lt p.range.start existing.range.end && lex_lt existing.range.start p.range.end

-- the loop over the partitions: the first one that overlaps
unfoldable pub first_overlap : Partition → List Partition → Option Partition
first_overlap p [] = none
first_overlap p (existing ∷ rest) =
    if overlaps p existing then some existing else first_overlap p rest

-- `sort_by` on the start of the range, which keeps the order of equal elements
unfoldable pub place : Partition → List Partition → List Partition
place p [] = p ∷ []
place p (q ∷ rest) = if lex_le p.range.start q.range.start then p ∷ q ∷ rest else q ∷ place p rest

unfoldable pub sort_by_start : List Partition → List Partition
sort_by_start [] = []
sort_by_start (p ∷ rest) = place p (sort_by_start rest)

unfoldable pub add_partition : PartitionMap → Partition → Result Bytes PartitionMap
add_partition m p = elim (first_overlap p m.partitions) [
  | some existing ↦ err (
      codes "partition '"
      ++ p.id
      ++ codes "' overlaps with existing partition '"
      ++ existing.id
      ++ codes "'")
  | none ↦ ok (record { partitions = sort_by_start (m.partitions ++ p ∷ []) })
]

unfoldable pub holds : Bytes → Partition → Bool
holds key p = lex_le p.range.start key && lex_lt key p.range.end

unfoldable pub find_partition : PartitionMap → Bytes → Option Partition
find_partition m key = find (holds key) m.partitions

abbrev pub all_partitions : PartitionMap → List Partition
all_partitions m = m.partitions

-- routing.rs: the whole query goes to the first partition.
pub record SubQuery : Type 0 where
  pub query : Bytes

unfoldable pub route_query : Bytes → PartitionMap → List (Bytes × SubQuery)
route_query query m = elim (all_partitions m) [
  | [] ↦ []
  | p ∷ rest ↦ (p.id, record { query = query }) ∷ []
]
