-- ===== src/Tx/Manager/Failures.antt =====
-- A commit that fails.
use synaptica.Prelude.{◌≡◌, sym, ap, ◌⊎◌, inl, inr, Bool-cases, err, Result-cases}
use synaptica.Storage.Rocks.{Rocks}
use synaptica.Storage.Oracle.{next}
use synaptica.Storage.Mvcc.{batch_write_at}
use synaptica.Tx.Transaction.{Transaction, TxError, is_active}
use synaptica.Tx.Manager.{Manager, conflicts, keys_of, apply_commit, commit}

-- the manager behind a failed commit: as it was, or with one timestamp used up
abbrev pub Kept : {rocks : Rocks} → Manager rocks → Manager rocks → Type 0
Kept m m' = (m' ≡ m) ⊎ (m' ≡ record m { ts_oracle = (next m.ts_oracle).1 })

module _ (rocks : Rocks) where
  -- A commit that fails, for whatever reason, leaves the database, the commit records and the
  -- transaction as they were; at most one timestamp has been used up.
  pub commit-failed :
      (m m' : Manager rocks) (tx tx' : Transaction) (x : TxError)
      → commit rocks m tx ≡ (err x, m', tx')
      → Kept m m' × (tx' ≡ tx)
  unfolding commit apply_commit
  commit-failed m m' tx tx' x h =
      let keys = keys_of tx.write_set in
      let ts = (next m.ts_oracle).0 in
      elim (Bool-cases (is_active tx.state)) [
        | inr off ↦
            (let out = rw off at h in (inl (ap (λ r. r.1) (sym out)), ap (λ r. r.2) (sym out)))
        | inl on ↦ elim (Bool-cases (conflicts m.committed_writes tx.snapshot_ts keys)) [
          | inl busy ↦
              (let out = rw (on, busy) at h in
                (inl (ap (λ r. r.1) (sym out)), ap (λ r. r.2) (sym out)))
          | inr free ↦ elim (Result-cases (batch_write_at rocks m.db tx.write_set ts)) [
            | inl (db, e) ↦ absurd (cc (ap (λ r. r.0) (rw (on, free, e, apply_commit) at h)))
            | inr (y, e) ↦
                (let out = rw (on, free, e, apply_commit) at h in
                  (inr (ap (λ r. r.1) (sym out)), ap (λ r. r.2) (sym out)))
          ]
        ]
      ]
