-- ===== src/Cluster/Partitions/Examples.antt =====
-- Tests of the partition map: three ranges, the third of which overlaps the first.
use synaptica.Prelude.{
  ◌≡◌, ◌↔◌, refl, true, some, [], ◌∷◌, Bytes, codes, lex, In, ok, if◌then◌else◌,
}
use synaptica.Cluster.Partitions.{
  Partition, PartitionMap, overlaps, first_overlap, place, sort_by_start, add_partition, holds,
  find_partition,
}
use synaptica.Cluster.Partitions.Ranges.{IsMap, add_partition-IsMap, find_partition_exact}
use synaptica.Cluster.Partitions.Lookup.{find_partition-add_partition}

abbrev partition : Bytes → Bytes → Bytes → Partition
partition id start end = record {
  id = id;
  range = record { start = start; end = end };
  leader_node = codes "n1";
  replicas = codes "n2" ∷ [];
}

abbrev upper : Partition
upper = partition (codes "upper") (codes "m") (codes "z")

abbrev lower : Partition
lower = partition (codes "lower") (codes "a") (codes "m")

abbrev one : PartitionMap
one = record { partitions = upper ∷ [] }

abbrev two : PartitionMap
two = record { partitions = lower ∷ upper ∷ [] }

one-IsMap : IsMap one
one-IsMap = record { disjoint = (tt, tt); ordered = (tt, tt) }

adds_lower : add_partition one lower ≡ ok two
unfolding add_partition first_overlap overlaps sort_by_start place lex
adds_lower = refl

add_partition-IsMap_example : IsMap two
add_partition-IsMap_example = add_partition-IsMap one two lower one-IsMap adds_lower

find_partition_exact_example :
    (find_partition two (codes "k") ≡ some lower)
    ↔ (In lower two.partitions × (holds (codes "k") lower ≡ true))
find_partition_exact_example =
    find_partition_exact two (codes "k") lower add_partition-IsMap_example

find_partition-add_partition_example :
    find_partition two (codes "k")
    ≡ (if holds (codes "k") lower then some lower else find_partition one (codes "k"))
find_partition-add_partition_example =
    find_partition-add_partition one two lower one-IsMap adds_lower (codes "k")
