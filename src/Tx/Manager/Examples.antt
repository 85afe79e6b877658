-- ===== src/Tx/Manager/Examples.antt =====
-- Tests of the transactions, over the database in memory.
use synaptica.Prelude.{
  ℕ, ◌<◌, ◌≡◌, ◌↔◌, refl, inl, true, false, none, some, List, [], ◌∷◌, ◌&&◌, arith, Bytes, bytes_eq,
  lex, be_bytes, from_be, ok, err, map_err, codes, leb, if◌then◌else◌,
}
use synaptica.Storage.Rocks.{BatchOp}
use synaptica.Storage.Rocks.Memory.{Memory, memory, empty, run_batch}
use synaptica.Storage.Oracle.{next}
use synaptica.Storage.Mvcc.{
  Write, batch_write_at, batch_of, get_at, encode_versioned_key, extract_key_prefix, timestamp_of,
  decode_versioned_timestamp, stored,
}
use synaptica.Storage.Mvcc.Latest.{latest, visible}
use synaptica.Storage.Mvcc.Reads.{IsReadable}
use synaptica.Storage.Mvcc.Batches.{last_write, after_batch, written-IsVersioned, written-IsApart}
use synaptica.Tx.Transaction
use synaptica.Tx.Transaction.{
  Transaction, TxError, TxState, is_active, get, put, delete, find_write,
}
use synaptica.Tx.Transaction.OwnWrites.{get-put}
use synaptica.Tx.Manager.{
  Manager, new, begin, commit, apply_commit, conflicts, persist_if_due, auto_gc, keys_of, snapshot,
  snapshot_get, write_batch, CfKey,
}
use synaptica.Tx.Manager.{check_write_write_conflicts}
use synaptica.Tx.Manager.Conflicts.{
  check_write_write_conflicts_exact, Conflict, Overlap, commit-Conflict_exact,
}
use synaptica.Tx.Manager.Publish.{IsOrderly, commit-Committed, latest-commit}
use synaptica.Tx.Manager.Failures.{Kept, commit-failed}
use synaptica.Tx.Manager.Steps.{here}
use synaptica.Tx.Manager.Threads.{
  Holder, System, at_rest, Moves, begins, locks, issues, writes, stay, move,
}
use synaptica.Tx.Manager.Threads.Snapshots.{IsConsistent}
use synaptica.Tx.Manager.Isolation.{
  get-Moves, begin_during_commit, commit_publishes, snapshot_sees_next_commit,
}
use synaptica.Tx.Manager.FirstCommitter.{first_committer_wins}

abbrev cf : Bytes
cf = codes "nodes"

abbrev key : Bytes
key = codes "k"

-- the key at timestamp 3
abbrev start : Memory
start = run_batch empty (BatchOp.put_cf cf (encode_versioned_key key 3) (codes "old") ∷ [])

abbrev manager : Manager memory
manager = new memory start (record { counter = 10 })

abbrev writer : Transaction
writer = record {
  id = 8;
  snapshot_ts = 7;
  state = TxState.active;
  write_set = record { cf_name = cf; key = key; value = some (codes "new") } ∷ [];
}

abbrev rival : Transaction
rival = record {
  id = 9;
  snapshot_ts = 8;
  state = TxState.active;
  write_set = record { cf_name = cf; key = key; value = none } ∷ [];
}

abbrev committed : Manager memory
committed = (commit memory manager writer).1

abbrev closed : Transaction
closed = (commit memory manager writer).2

commits_at_10 : commit memory manager writer ≡ (ok 10, committed, closed)
unfolding commit apply_commit next conflicts batch_write_at
commits_at_10 = refl

older_than : (b : ℕ) → 3 < b → timestamp_of (encode_versioned_key key 3) < b
unfolding encode_versioned_key be_bytes timestamp_of decode_versioned_timestamp from_be
older_than b h = omega arith

orderly : IsOrderly memory manager cf key
unfolding encode_versioned_key be_bytes lex bytes_eq extract_key_prefix timestamp_of
    decode_versioned_timestamp from_be
orderly = record {
  user = refl;
  versioned = (written-IsVersioned 3 (omega arith) key (codes "old"), tt);
  issued = (λ h. omega arith, tt);
  fits = omega arith;
}

IsReadable-before : IsReadable memory start cf key
unfolding encode_versioned_key be_bytes lex bytes_eq
IsReadable-before = record {
  quiet = tt;
  family = refl;
  versioned = (written-IsVersioned 3 (omega arith) key (codes "old"), tt);
  apart = (written-IsApart 3 (omega arith) key (codes "old"), tt);
}

IsReadable-after : IsReadable memory committed.db cf key
unfolding commit apply_commit next conflicts batch_write_at batch_of persist_if_due
    encode_versioned_key be_bytes lex bytes_eq stored
IsReadable-after = record {
  quiet = tt;
  family = refl;
  versioned = (
    written-IsVersioned 10 (omega arith) key (codes "new"),
    (written-IsVersioned 3 (omega arith) key (codes "old"), tt),
  );
  apart = (
    written-IsApart 10 (omega arith) key (codes "new"),
    (written-IsApart 3 (omega arith) key (codes "old"), tt),
  );
}

commit-Conflict_exact_example :
    (commit memory committed rival ≡ (err TxError.write_conflict, committed, rival))
    ↔ Conflict committed.committed_writes rival.snapshot_ts (keys_of rival.write_set)
commit-Conflict_exact_example = commit-Conflict_exact memory committed rival refl

overlap : Overlap (keys_of rival.write_set) (keys_of writer.write_set)
overlap = ((cf, key), inl refl, inl refl)

first_committer_wins_example :
    commit memory committed rival ≡ (err TxError.write_conflict, committed, rival)
unfolding commit apply_commit next conflicts batch_write_at
first_committer_wins_example =
    first_committer_wins memory manager committed committed writer closed rival 10 (omega arith)
      commits_at_10 here (omega arith) refl (omega arith) overlap

commit-failed_example : Kept (commit memory committed rival).1 committed × (rival ≡ rival)
unfolding commit conflicts apply_commit batch_write_at auto_gc persist_if_due next bytes_eq
commit-failed_example =
    commit-failed memory committed committed rival rival TxError.write_conflict
      first_committer_wins_example

latest-commit_example : latest key 12 (memory.entries committed.db cf) ≡ (
    if leb 10 12
    then after_batch 10
        (last_write cf key writer.write_set)
        (latest key 12 (memory.entries start cf))
    else latest key 12 (memory.entries start cf))
latest-commit_example =
    latest-commit memory manager committed writer closed 10
      (commit-Committed memory manager committed writer closed 10 commits_at_10) cf key orderly 12

-- the writer has its timestamp and has not written yet
abbrev in_commit : System memory
in_commit = record {
  manager = record manager { ts_oracle = record { counter = 11 } };
  holder = Holder.issued writer 10;
  persisting = 0;
}

-- another transaction has begun, and the writer has written
abbrev written_late : Manager memory
written_late = record manager { db = committed.db; ts_oracle = record { counter = 12 } }

IsConsistent-in_commit : IsConsistent memory cf key in_commit
unfolding bytes_eq
IsConsistent-in_commit = record {
  orderly = record {
    user = orderly.user;
    versioned = orderly.versioned;
    issued = (λ h. older_than 11 (omega arith), tt);
    fits = omega arith;
  };
  pending = (omega arith, (λ h. older_than 10 (omega arith), tt));
}

writes_at_10 : write_batch memory (begin memory in_commit.manager).1 writer 10 ≡ ok written_late
unfolding begin next commit apply_commit conflicts batch_write_at persist_if_due
writes_at_10 = refl

interleaved :
    Moves memory
      (at_rest manager)
      (record { manager = written_late; holder = Holder.written writer 10; persisting = 0 })
unfolding begin next conflicts
interleaved =
    move
      (move (move (move stay (locks writer refl refl refl)) (issues writer refl (omega arith)))
        (begins (omega arith)))
      (writes writer 10 written_late refl writes_at_10)

get-Moves_example : get memory rival committed.db cf key ≡ get memory rival manager.db cf key
get-Moves_example =
    get-Moves memory (at_rest manager)
      (record { manager = written_late; holder = Holder.written writer 10; persisting = 0 }) rival
      cf key interleaved (record { orderly = orderly; pending = tt }) (omega arith, tt)
      IsReadable-before IsReadable-after

begin_during_commit_example :
    let b = (begin memory in_commit.manager).0 in
    Moves memory in_commit
      (record in_commit { manager = written_late; holder = Holder.written writer 10 })
    × (get memory b start cf key ≡ map_err TxError.mvcc (get_at memory start cf key 9))
    × (get memory b committed.db cf key ≡ ok (visible (some (10, stored (some (codes "new"))))))
    × ((keys : List CfKey)
        → conflicts ((10, keys_of writer.write_set) ∷ []) b.snapshot_ts keys ≡ false)
unfolding last_write synaptica.Storage.Mvcc.Batches.is_write_of bytes_eq
begin_during_commit_example =
    begin_during_commit memory in_commit written_late writer 10 cf key (some (codes "new")) refl
      (omega arith) IsConsistent-in_commit writes_at_10 IsReadable-before IsReadable-after refl

commit_publishes_example :
    (get memory writer start cf key ≡ ok (some (codes "new")))
    × (get_at memory committed.db cf key 11 ≡ ok (some (codes "new")))
unfolding last_write synaptica.Storage.Mvcc.Batches.is_write_of bytes_eq
commit_publishes_example =
    commit_publishes memory manager committed writer closed 10 cf key (some (codes "new")) 11
      commits_at_10 orderly IsReadable-after refl (λ h. absurd (cc h)) (omega arith)

snapshot_sees_next_commit_example :
    snapshot_get memory (snapshot memory manager) committed.db cf key
    ≡ ok (visible (some (10, stored (some (codes "new")))))
unfolding last_write synaptica.Storage.Mvcc.Batches.is_write_of bytes_eq
snapshot_sees_next_commit_example =
    snapshot_sees_next_commit memory manager committed writer closed 10 cf key (some (codes "new"))
      commits_at_10 orderly IsReadable-after refl

abbrev idle : Transaction
idle = Transaction.new 9 8

get-put_example :
    get memory
      (record idle {
        write_set = record { cf_name = cf; key = key; value = some (codes "x") } ∷ [];
      })
      start
      cf
      key
    ≡ (if bytes_eq cf cf && bytes_eq key key
        then ok (some (codes "x"))
        else get memory idle start cf key)
unfolding put
get-put_example =
    get-put memory idle
      (record idle {
        write_set = record { cf_name = cf; key = key; value = some (codes "x") } ∷ [];
      })
      cf key (codes "x") start cf key refl

check_write_write_conflicts_exact_example :
    (check_write_write_conflicts (keys_of rival.write_set) (keys_of writer.write_set) ≡ true)
    ↔ Overlap (keys_of rival.write_set) (keys_of writer.write_set)
check_write_write_conflicts_exact_example =
    check_write_write_conflicts_exact (keys_of rival.write_set) (keys_of writer.write_set)
