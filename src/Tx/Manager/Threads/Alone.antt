-- ===== src/Tx/Manager/Threads/Alone.antt =====
-- A commit that no other thread interrupts.
use synaptica.Prelude.{
  ℕ, ◌+◌, ◌%◌, ◌<◌, ◌≡◌, refl, ap, subst, inl, inr, true, false, ◌==◌, arith, Bool-cases, Result,
  ok, Result-cases,
}
use synaptica.Storage.Rocks.{Rocks}
use synaptica.Storage.Oracle.{next, u64_mod}
use synaptica.Storage.Mvcc.{batch_write_at}
use synaptica.Tx.Transaction.{Transaction, TxError, is_active}
use synaptica.Tx.Manager.{
  Manager, conflicts, keys_of, commit, apply_commit, write_batch, record_commit, persist_if_due,
  auto_gc,
}
use synaptica.Tx.Manager.Threads.{
  Holder, at_rest, Moves, locks, issues, writes, fails, records, persists, stay, move,
}

module _ (rocks : Rocks) (m : Manager rocks) (tx : Transaction) where
  -- the manager with the timestamp issued
  abbrev started : Manager rocks
  started = record m { ts_oracle = (next m.ts_oracle).1 }

  module _ (more : m.ts_oracle.counter + 1 < u64_mod) (on : is_active tx.state ≡ true)
      (free : conflicts m.committed_writes tx.snapshot_ts (keys_of tx.write_set) ≡ false) where
    to_issued : Moves rocks (at_rest m) (record {
      manager = started;
      holder = Holder.issued tx (next m.ts_oracle).0;
      persisting = 0;
    })
    to_issued = move (move stay (locks tx refl on free)) (issues tx refl more)

    -- from the writes to the end
    to_end :
        (db : rocks.Db)
        → write_batch rocks started tx (next m.ts_oracle).0 ≡ ok (record started { db = db })
        → Moves rocks (at_rest m) (
            at_rest
              (record (record_commit rocks tx (next m.ts_oracle).0 (record started { db = db })) {
                db = persist_if_due rocks (next m.ts_oracle).0 (next m.ts_oracle).1 db;
              }))
    unfolding persist_if_due next auto_gc
    to_end db w =
        let ts = (next m.ts_oracle).0 in
        let recorded =
          move (move to_issued (writes tx ts (record started { db = db }) refl w))
            (records tx ts refl) in
        elim (Bool-cases (ts % 100 == 0)) [
          | inl due ↦
              rw (due, persist_if_due)
                (move recorded (persists 0 (next m.ts_oracle).1.counter (rw due) (omega arith)))
          | inr off ↦ rw (off, persist_if_due) (rw off at recorded)
        ]

  -- `commit` is what the moves of a commit amount to, on every branch, if no move of another thread
  -- comes between. The counter does not wrap around.
  pub commit-Moves :
      (m' : Manager rocks) (tx' : Transaction) (r : Result TxError ℕ)
      → m.ts_oracle.counter + 1 < u64_mod
      → commit rocks m tx ≡ (r, m', tx')
      → Moves rocks (at_rest m) (at_rest m')
  unfolding commit apply_commit
  commit-Moves m' tx' r more h =
      let keys = keys_of tx.write_set in
      let ts = (next m.ts_oracle).0 in
      let Ends = λ (n : Manager rocks). Moves rocks (at_rest m) (at_rest n) in
      elim (Bool-cases (is_active tx.state)) [
        | inr off ↦ subst Ends (ap (λ r. r.1) (rw off at h)) stay
        | inl on ↦ elim (Bool-cases (conflicts m.committed_writes tx.snapshot_ts keys)) [
          | inl busy ↦ subst Ends (ap (λ r. r.1) (rw (on, busy) at h)) stay
          | inr free ↦ elim (Result-cases (batch_write_at rocks m.db tx.write_set ts)) [
            | inl (db, e) ↦
                subst Ends (ap (λ r. r.1) (rw (on, free, e, apply_commit) at h))
                  (to_end more on free db (rw (e, write_batch)))
            | inr (x, e) ↦ subst Ends (ap (λ r. r.1) (rw (on, free, e, apply_commit) at h)) (
                move (to_issued more on free)
                  (fails tx ts (TxError.mvcc x) refl (rw (e, write_batch))))
          ]
        ]
      ]
