-- ===== src/Tx/Manager/Threads.antt =====
-- crates/synaptica-tx/src/mvcc.rs with the calls of several threads interleaved. `begin`, `snapshot` and
-- the reads take no lock, so that they can run between any two accesses of a `commit`; the accesses of a
-- commit under the write lock of `committed_writes`, and the one behind it, are moves of their own.
pub mod Snapshots
pub mod Alone
use synaptica.Prelude.{ℕ, suc, ◌+◌, ◌%◌, ◌≤◌, ◌<◌, ◌≡◌, true, false, ◌==◌, if◌then◌else◌, ok, err}
use synaptica.Storage.Rocks.{Rocks}
use synaptica.Storage.Oracle.{next, u64_mod}
use synaptica.Tx.Transaction.{Transaction, TxError, is_active}
use synaptica.Tx.Manager.{
  Manager, conflicts, keys_of, begin, persist_timestamp, write_batch, record_commit,
  gc_committed_writes,
}

-- Where the thread that has the write lock stands in `commit`.
pub data Holder : Type 0 where
  free : Holder
  checked : (tx : Transaction) → Holder  -- before `self.ts_oracle.next()`
  issued : (tx : Transaction) (commit_ts : ℕ) → Holder  -- before `batch_write_at`
  written : (tx : Transaction) (commit_ts : ℕ) → Holder  -- before `cw.insert`

-- `persisting` counts the commits that have dropped the lock with the counter left to persist.
pub record System (rocks : Rocks) : Type 0 where
  pub manager : Manager rocks
  pub holder : Holder
  pub persisting : ℕ

abbrev pub at_rest : {rocks : Rocks} → Manager rocks → System rocks
at_rest m = record { manager = m; holder = free; persisting = 0 }

-- One access to what the threads share. A transaction is its caller's own, and is not part of it:
-- `locks` takes any active one. A `commit` that is refused changes nothing of what is shared. The counter
-- does not wrap around. It is loaded before it is persisted, so that the value may be an old one.
pub data Move (rocks : Rocks) (s : System rocks) : System rocks → Type 0 where
  begins :
      s.manager.ts_oracle.counter + 1 < u64_mod
      → Move rocks s (record s { manager = (begin rocks s.manager).1 })
  locks :
      (tx : Transaction)
      → s.holder ≡ free
      → is_active tx.state ≡ true
      → conflicts s.manager.committed_writes tx.snapshot_ts (keys_of tx.write_set) ≡ false
      → Move rocks s (record s { holder = checked tx })
  issues :
      (tx : Transaction)
      → s.holder ≡ checked tx
      → s.manager.ts_oracle.counter + 1 < u64_mod
      → Move rocks s (record s {
        manager = record s.manager { ts_oracle = (next s.manager.ts_oracle).1 };
        holder = issued tx (next s.manager.ts_oracle).0;
      })
  writes :
      (tx : Transaction) (commit_ts : ℕ) (m : Manager rocks)
      → s.holder ≡ issued tx commit_ts
      → write_batch rocks s.manager tx commit_ts ≡ ok m
      → Move rocks s (record s { manager = m; holder = written tx commit_ts })
  fails :
      (tx : Transaction) (commit_ts : ℕ) (e : TxError)
      → s.holder ≡ issued tx commit_ts
      → write_batch rocks s.manager tx commit_ts ≡ err e
      → Move rocks s (record s { holder = free })
  records :
      (tx : Transaction) (commit_ts : ℕ)
      → s.holder ≡ written tx commit_ts
      → Move rocks s (record {
        manager = record_commit rocks tx commit_ts s.manager;
        holder = free;
        persisting = if commit_ts % 100 == 0 then s.persisting + 1 else s.persisting;
      })
  persists :
      (left counter : ℕ)
      → s.persisting ≡ suc left
      → counter ≤ s.manager.ts_oracle.counter
      → Move rocks s (record s {
        manager = record s.manager {
          db = persist_timestamp rocks (record { counter = counter }) s.manager.db;
        };
        persisting = left;
      })
  prunes :
      (watermark : ℕ)
      → s.holder ≡ free
      → Move rocks s (record s { manager = gc_committed_writes rocks s.manager watermark })

-- any sequence of moves
pub data Moves (rocks : Rocks) (s : System rocks) : System rocks → Type 0 where
  stay : Moves rocks s s
  move : {t u : System rocks} → Moves rocks s t → Move rocks t u → Moves rocks s u
