-- ===== src/Cluster/DecisionLog.antt =====
-- crates/synaptica-cluster/src/distributed_tx.rs: the log of decisions, without a file behind it, as
-- the coordinator makes it.
use synaptica.Prelude.{
  Bool, true, false, none, some, List, [], ◌∷◌, Bytes, if◌then◌else◌, get_key, put_key,
}

pub data LogEntry : Type 0 where
  prepare : Bytes → List Bytes → LogEntry
  commit : Bytes → LogEntry
  abort : Bytes → LogEntry

-- a step of the loop of `in_doubt_transactions`
unfoldable pub note_entry : LogEntry → List (Bytes × Bool) → List (Bytes × Bool)
note_entry (LogEntry.prepare tx_id ids) prepared = elim (get_key tx_id prepared) [
  | some b ↦ prepared
  | none ↦ put_key tx_id true prepared
]
note_entry (LogEntry.commit tx_id) prepared = put_key tx_id false prepared
note_entry (LogEntry.abort tx_id) prepared = put_key tx_id false prepared

unfoldable pub note_entries : List LogEntry → List (Bytes × Bool) → List (Bytes × Bool)
note_entries [] prepared = prepared
note_entries (e ∷ es) prepared = note_entries es (note_entry e prepared)

-- the identifiers that are marked; the source gives them in no particular order
unfoldable pub marked : List (Bytes × Bool) → List Bytes
marked [] = []
marked ((id, in_doubt) ∷ t) = if in_doubt then id ∷ marked t else marked t

unfoldable pub in_doubt_transactions : List LogEntry → List Bytes
in_doubt_transactions entries = marked (note_entries entries [])
