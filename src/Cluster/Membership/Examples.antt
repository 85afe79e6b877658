-- ===== src/Cluster/Membership/Examples.antt =====
-- Tests of the membership: a cluster of two nodes.
use synaptica.Prelude.{◌≡◌, true, false, none, some, [], ◌∷◌, Bytes, bytes_eq, codes, if◌then◌else◌}
use synaptica.Cluster.Membership.{
  ClusterNode, ClusterMembership, remove_node, get_node, mark_dead, mark_alive,
}
use synaptica.Cluster.Membership.Nodes.{get_node-remove_node, get_node-mark}

abbrev node : Bytes → ClusterNode
node id = record { id = id; address = codes "127.0.0.1"; is_alive = true; last_heartbeat = 0 }

abbrev cluster : ClusterMembership
cluster = record { nodes = node (codes "a") ∷ node (codes "b") ∷ [] }

get_node-remove_node_example :
    get_node (remove_node cluster (codes "a")) (codes "b")
    ≡ (if bytes_eq (codes "a") (codes "b") then none else get_node cluster (codes "b"))
get_node-remove_node_example = get_node-remove_node cluster (codes "a") (codes "b")

get_node-mark_example :
    (get_node (mark_dead cluster (codes "a")) (codes "a") ≡ (
      if bytes_eq (codes "a") (codes "a")
      then elim (get_node cluster (codes "a")) [
        | none ↦ none
        | some n ↦ some (record n { is_alive = false })
      ]
      else get_node cluster (codes "a")))
    × (get_node (mark_alive 7 cluster (codes "a")) (codes "a") ≡ (
        if bytes_eq (codes "a") (codes "a")
        then elim (get_node cluster (codes "a")) [
          | none ↦ none
          | some n ↦ some (record n { is_alive = true; last_heartbeat = 7 })
        ]
        else get_node cluster (codes "a")))
get_node-mark_example = get_node-mark cluster 7 (codes "a") (codes "a")
