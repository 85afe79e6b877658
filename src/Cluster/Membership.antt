-- ===== src/Cluster/Membership.antt =====
-- crates/synaptica-cluster/src/membership.rs, rebalance.rs and snapshot.rs. The clock is a parameter:
-- the time that `Instant::now` or `SystemTime::now` gives at a call.
pub mod Nodes
pub mod Examples
use synaptica.Prelude.{
  ℕ, ◌+◌, ◌%◌, ◌^◌, Bool, true, false, not, Option, none, some, List, [], ◌∷◌, ◌++◌, Bytes,
  bytes_eq, any, find, retain, if◌then◌else◌,
}
use synaptica.Cluster.Partitions.{Partition}

pub record ClusterNode : Type 0 where
  pub id : Bytes
  pub address : Bytes
  pub is_alive : Bool
  pub last_heartbeat : ℕ

pub record ClusterMembership : Type 0 where
  pub nodes : List ClusterNode

abbrev pub new : ClusterMembership
new = record { nodes = [] }

abbrev pub is_id : Bytes → ClusterNode → Bool
is_id id n = bytes_eq n.id id

unfoldable pub add_node : ClusterMembership → ClusterNode → ClusterMembership
add_node m node =
    if not (any (is_id node.id) m.nodes) then record { nodes = m.nodes ++ node ∷ [] } else m

unfoldable pub remove_node : ClusterMembership → Bytes → ClusterMembership
remove_node m id = record { nodes = retain (λ n. not (is_id id n)) m.nodes }

unfoldable pub get_node : ClusterMembership → Bytes → Option ClusterNode
get_node m id = find (is_id id) m.nodes

unfoldable pub alive_nodes : ClusterMembership → List ClusterNode
alive_nodes m = retain (λ n. n.is_alive) m.nodes

-- `iter_mut().find` and a change of the node that it finds
unfoldable pub update_first :
    Bytes → (ClusterNode → ClusterNode) → List ClusterNode → List ClusterNode
update_first id f [] = []
update_first id f (n ∷ ns) = if is_id id n then f n ∷ ns else n ∷ update_first id f ns

unfoldable pub mark_dead : ClusterMembership → Bytes → ClusterMembership
mark_dead m id = record { nodes = update_first id (λ n. record n { is_alive = false }) m.nodes }

unfoldable pub mark_alive : ℕ → ClusterMembership → Bytes → ClusterMembership
mark_alive now m id = record {
  nodes = update_first id (λ n. record n { is_alive = true; last_heartbeat = now }) m.nodes;
}

-- rebalance.rs: no moves are planned.
pub record PartitionMove : Type 0 where
  pub partition_id : Bytes
  pub from_node : Bytes
  pub to_node : Bytes

pub record RebalancePlan : Type 0 where
  pub moves : List PartitionMove

unfoldable pub compute_rebalance_plan : List Partition → List Bytes → RebalancePlan
compute_rebalance_plan partitions nodes = record { moves = [] }

-- snapshot.rs
pub record SnapshotMeta : Type 0 where
  pub term : ℕ
  pub index : ℕ
  pub timestamp : ℕ

pub record SnapshotManager : Type 0 where
  pub last_index : ℕ

unfoldable pub create_snapshot : ℕ → SnapshotManager → SnapshotMeta × SnapshotManager
create_snapshot now s =
    let index = (s.last_index + 1) % 2 ^ 64 in
    (record { term = 0; index = index; timestamp = now }, record { last_index = index })

unfoldable pub restore_snapshot : SnapshotManager → SnapshotMeta → SnapshotManager
restore_snapshot s meta = record { last_index = meta.index }
