-- ===== src/Tx/Manager.antt =====
-- crates/synaptica-tx/src/mvcc.rs and conflict.rs: optimistic commits. The manager's state holds what
-- it shares with the transactions: the database and the timestamp counter.
pub mod Conflicts
pub mod Publish
pub mod Failures
pub mod Steps
pub mod Threads
pub mod Isolation
pub mod FirstCommitter
pub mod Examples
use synaptica.Prelude.{
  ℕ, zero, suc, ◌+◌, ◌-◌, ◌%◌, Bool, true, false, ◌&&◌, not, Option, none, some, List, [], ◌∷◌,
  Bytes, bytes_eq, length, retain, any, map, ltb, leb, ◌==◌, if◌then◌else◌, Result, ok, err,
  map_err,
}
use synaptica.Storage.Rocks.{Rocks, Entry}
use synaptica.Storage.Oracle.{MvccError, TimestampOracle, next, current, persist_to_db, u64_mod}
use synaptica.Storage.Mvcc.{Write, get_at, prefix_scan_at, batch_write_at}
use synaptica.Tx.Transaction
use synaptica.Tx.Transaction.{Transaction, TxError, TxState, is_active}

-- a column family and a key
abbrev pub CfKey : Type 0
CfKey = Bytes × Bytes

abbrev pub same_key : CfKey → CfKey → Bool
same_key a b = bytes_eq a.0 b.0 && bytes_eq a.1 b.1

abbrev pub contains : List CfKey → CfKey → Bool
contains keys k = any (same_key k) keys

-- conflict.rs
unfoldable pub check_write_write_conflicts : List CfKey → List CfKey → Bool
check_write_write_conflicts tx_write_keys committed_keys_since_snapshot =
    any (contains tx_write_keys) committed_keys_since_snapshot

abbrev pub keys_of : List Write → List CfKey
keys_of ws = map (λ w. (w.cf_name, w.key)) ws

-- what a commit leaves: its timestamp and the keys that it wrote
abbrev pub CommitRecord : Type 0
CommitRecord = ℕ × List CfKey

-- The loop over `committed_writes`; its order does not matter to the result.
unfoldable pub conflicts : List CommitRecord → ℕ → List CfKey → Bool
conflicts records snapshot_ts write_keys = elim write_keys [
  | [] ↦ false
  | k ∷ ks ↦ any (λ r. ltb snapshot_ts r.0 && any (contains (k ∷ ks)) r.1) records
]

abbrev pub gc_threshold : ℕ
gc_threshold = 10000

-- `HashMap::insert`
abbrev pub insert_record : ℕ → List CfKey → List CommitRecord → List CommitRecord
insert_record ts keys records = (ts, keys) ∷ retain (λ r. not (r.0 == ts)) records

abbrev pub newer_than : ℕ → List CommitRecord → List CommitRecord
newer_than watermark records = retain (λ r. ltb watermark r.0) records

-- the automatic pruning at the end of a commit
unfoldable pub auto_gc : ℕ → List CommitRecord → List CommitRecord
auto_gc commit_ts records =
    if ltb gc_threshold (length records)
    then newer_than (commit_ts - gc_threshold) records
    else records

pub record Manager (rocks : Rocks) : Type 0 where
  pub db : rocks.Db
  pub ts_oracle : TimestampOracle
  pub committed_writes : List CommitRecord
  pub gc_watermark : ℕ

pub record Snapshot : Type 0 where
  pub ts : ℕ

module _ (rocks : Rocks) where
  open rocks use {Db}

  abbrev pub new : Db → TimestampOracle → Manager rocks
  new db ts_oracle = record {
    db = db;
    ts_oracle = ts_oracle;
    committed_writes = [];
    gc_watermark = 0;
  }

  -- `tx_id - 1` on 64 bits
  unfoldable pub begin : Manager rocks → Transaction × Manager rocks
  begin m =
      let (tx_id, o) = next m.ts_oracle in
      let snapshot_ts = (tx_id + u64_mod - 1) % u64_mod in
      (Transaction.new tx_id snapshot_ts, record m { ts_oracle = o })

  -- `let _ = self.store.persist_timestamp()`, with the value of the counter that was loaded
  unfoldable pub persist_timestamp : TimestampOracle → Db → Db
  persist_timestamp o db = elim (persist_to_db rocks o db) [ ok db' ↦ db' | err e ↦ db ]

  -- every 100 commit timestamps
  unfoldable pub persist_if_due : ℕ → TimestampOracle → Db → Db
  persist_if_due commit_ts o db = if commit_ts % 100 == 0 then persist_timestamp o db else db

  -- `self.store.batch_write_at(&writes, commit_ts)?`
  abbrev pub write_batch : Manager rocks → Transaction → ℕ → Result TxError (Manager rocks)
  write_batch m tx commit_ts = elim (batch_write_at rocks m.db tx.write_set commit_ts) [
    | err e ↦ err (TxError.mvcc e)
    | ok db ↦ ok (record m { db = db })
  ]

  -- `cw.insert`, and the pruning behind it
  abbrev pub record_commit : Transaction → ℕ → Manager rocks → Manager rocks
  record_commit tx commit_ts m = record m {
    committed_writes =
        auto_gc commit_ts (insert_record commit_ts (keys_of tx.write_set) m.committed_writes);
  }

  -- the part of `commit` behind the conflict check
  unfoldable pub apply_commit :
      Manager rocks → Transaction → Result TxError ℕ × Manager rocks × Transaction
  apply_commit m tx =
      let (commit_ts, o) = next m.ts_oracle in
      elim (write_batch (record m { ts_oracle = o }) tx commit_ts) [
        | err e ↦ (err e, record m { ts_oracle = o }, tx)
        | ok written ↦
            let recorded = record_commit tx commit_ts written in
            (
              ok commit_ts,
              record recorded { db = persist_if_due commit_ts o recorded.db },
              record tx { state = TxState.committed },
            )
      ]

  unfoldable pub commit :
      Manager rocks → Transaction → Result TxError ℕ × Manager rocks × Transaction
  commit m tx =
      if not (is_active tx.state)
      then (err TxError.already_committed, m, tx)
      else if conflicts m.committed_writes tx.snapshot_ts (keys_of tx.write_set)
      then (err TxError.write_conflict, m, tx)
      else apply_commit m tx

  unfoldable pub rollback : Transaction → Result TxError (Unit {0}) × Transaction
  rollback tx =
      if not (is_active tx.state)
      then (err TxError.not_active, tx)
      else (ok tt, record tx { state = TxState.rolled_back })

  unfoldable pub gc_committed_writes : Manager rocks → ℕ → Manager rocks
  gc_committed_writes m watermark = record m {
    committed_writes = newer_than watermark m.committed_writes;
    gc_watermark = watermark;
  }

  unfoldable pub snapshot : Manager rocks → Snapshot
  snapshot m = record { ts = current m.ts_oracle }

  unfoldable pub snapshot_get : Snapshot → Db → Bytes → Bytes → Result TxError (Option Bytes)
  snapshot_get s db cf_name key = map_err TxError.mvcc (get_at rocks db cf_name key s.ts)

  unfoldable pub snapshot_prefix_scan : Snapshot → Db → Bytes → Bytes → Result TxError (List Entry)
  snapshot_prefix_scan s db cf_name prefix =
      map_err TxError.mvcc (prefix_scan_at rocks db cf_name prefix s.ts)
