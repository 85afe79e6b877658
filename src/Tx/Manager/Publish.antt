-- ===== src/Tx/Manager/Publish.antt =====
-- What a successful commit does to the stored versions: the write set appears at the commit
-- timestamp, which no stored version has reached, and nothing else changes.
use synaptica.Prelude.{
  ℕ, ◌+◌, ◌%◌, ◌≤◌, ◌<◌, ◌≡◌, refl, sym, ap, subst, ◌∙◌, ◌⊎◌, inl, inr, true, false, arith, Bytes,
  bytes_eq, leb, le→leb, lt→leb_false, ◌==◌, All, All-imp, Bool-cases, if◌then◌else◌, ok,
  Result-cases, be_bytes, from_be,
}
use mathlib.Core.Path.{ap₂}
use native.Mathlib.Decide.{dec_le}
use synaptica.Storage.Rocks.{Rocks, Entry, insert, default_cf}
use synaptica.Storage.Rocks.Order.{insert-All}
use synaptica.Storage.Oracle.{TimestampOracle, next, ts_oracle_key, u64_mod, persist_to_db}
use synaptica.Storage.Mvcc.{
  batch_write_at, u64_max, extract_key_prefix, timestamp_of, encode_versioned_key,
  decode_versioned_timestamp,
}
use synaptica.Storage.Mvcc.Latest.{latest, IsVersioned, Older}
use synaptica.Storage.Mvcc.Writes.{latest-insert-passed}
use synaptica.Storage.Mvcc.Batches.{
  IsBefore, IsBounded, last_write, after_batch, latest-apply_batch, latest-apply_batch_earlier,
  batch_write_at-entries,
}
use synaptica.Tx.Transaction.{Transaction, TxState, is_active}
use synaptica.Tx.Manager.{
  Manager, conflicts, keys_of, insert_record, auto_gc, persist_timestamp, persist_if_due,
  apply_commit, commit,
}

-- The counter's own key is stored among the versioned keys of the default column family; as a
-- versioned key it is a version of this key, `__ts_oracle_c`.
abbrev pub oracle_prefix : Bytes
unfolding extract_key_prefix
oracle_prefix = extract_key_prefix ts_oracle_key

abbrev pub IsUserKey : Bytes → Type 0
IsUserKey key = bytes_eq (extract_key_prefix ts_oracle_key) key ≡ false

pub oracle_entry-IsVersioned : (v : Bytes) → IsVersioned (ts_oracle_key, v)
unfolding timestamp_of decode_versioned_timestamp extract_key_prefix encode_versioned_key be_bytes
    from_be
oracle_entry-IsVersioned v = record { stamped = omega arith; encoded = refl }

module _ (rocks : Rocks) where
  open rocks use {Db, entries, has_cf}

  -- The parts of a successful commit
  pub record Committed (m m' : Manager rocks) (tx tx' : Transaction) (ts : ℕ) : Type 0 where
    pub was_active : is_active tx.state ≡ true
    pub free : conflicts m.committed_writes tx.snapshot_ts (keys_of tx.write_set) ≡ false
    pub issued : ts ≡ m.ts_oracle.counter
    pub db : Db
    pub wrote : batch_write_at rocks m.db tx.write_set ts ≡ ok db
    pub oracle : m'.ts_oracle.counter ≡ (ts + 1) % u64_mod
    pub stored : m'.db ≡ persist_if_due rocks ts m'.ts_oracle db
    pub recorded :
        m'.committed_writes
        ≡ auto_gc ts (insert_record ts (keys_of tx.write_set) m.committed_writes)
    pub closed : tx'.state ≡ TxState.committed

  pub commit-Committed :
      (m m' : Manager rocks) (tx tx' : Transaction) (ts : ℕ)
      → commit rocks m tx ≡ (ok ts, m', tx')
      → Committed m m' tx tx' ts
  unfolding commit apply_commit next
  commit-Committed m m' tx tx' ts h =
      let keys = keys_of tx.write_set in
      let c = m.ts_oracle.counter in
      elim (Bool-cases (is_active tx.state)) [
        | inr off ↦ absurd (cc (ap (λ r. r.0) (rw off at h)))
        | inl on ↦ elim (Bool-cases (conflicts m.committed_writes tx.snapshot_ts keys)) [
          | inl busy ↦ absurd (cc (ap (λ r. r.0) (rw (on, busy) at h)))
          | inr free ↦ elim (Result-cases (batch_write_at rocks m.db tx.write_set c)) [
            | inr (x, e) ↦ absurd (cc (ap (λ r. r.0) (rw (on, free, e, apply_commit) at h)))
            | inl (db, e) ↦
                let out = rw (on, free, e, apply_commit) at h in
                let same : ts ≡ c = cc (ap (λ r. r.0) out) in
                let em = ap (λ r. r.1) (sym out) in
                record {
                  was_active = on;
                  free = free;
                  issued = same;
                  db = db;
                  wrote = rw same e;
                  oracle = ap (λ n. n.ts_oracle.counter) em ∙ rw same;
                  stored =
                      ap (λ n. n.db) em
                      ∙ sym (
                          ap₂ (λ t o. persist_if_due rocks t o db) same (ap (λ n. n.ts_oracle) em));
                  recorded = ap (λ n. n.committed_writes) em ∙ rw same;
                  closed = ap (λ n. n.state) (ap (λ r. r.2) (sym out));
                }
          ]
        ]
      ]

  -- Persisting the counter leaves a column family as it was, or writes the counter's key.
  abbrev pub Persisted : Bytes → Db → Db → Bytes → Type 0
  Persisted v db db' cf =
      (entries db' cf ≡ entries db cf) ⊎ (entries db' cf ≡ insert ts_oracle_key v (entries db cf))

  pub persist_timestamp-Persisted :
      (o : TimestampOracle) (db : Db) (cf : Bytes)
      → Persisted (be_bytes 8 o.counter) db (persist_timestamp rocks o db) cf
  unfolding persist_timestamp persist_to_db
  persist_timestamp-Persisted o db cf =
      let v = be_bytes 8 o.counter in
      elim (Result-cases (rocks.put db ts_oracle_key v)) [
        | inr (x, e) ↦ inl (rw (e, persist_timestamp))
        | inl (db', e) ↦
            let law = rocks.put_law db db' ts_oracle_key v e cf in
            elim (Bool-cases (bytes_eq default_cf cf)) [
              | inl same ↦ inr (rw (e, persist_timestamp) (law ∙ rw same))
              | inr other ↦ inl (rw (e, persist_timestamp) (law ∙ rw other))
            ]
      ]

  persist_if_due-Persisted :
      (ts : ℕ) (o : TimestampOracle) (db : Db) (cf : Bytes)
      → Persisted (be_bytes 8 o.counter) db (persist_if_due rocks ts o db) cf
  unfolding persist_if_due
  persist_if_due-Persisted ts o db cf = elim (Bool-cases (ts % 100 == 0)) [
    | inr off ↦ inl (rw off)
    | inl due ↦ rw due (persist_timestamp-Persisted o db cf)
  ]

  pub latest-Persisted :
      (v : Bytes) (db db' : Db) (cf key : Bytes) (s : ℕ)
      → Persisted v db db' cf
      → IsUserKey key
      → latest key s (entries db' cf) ≡ latest key s (entries db cf)
  latest-Persisted v db db' cf key s p user = elim p [
    | inl e ↦ rw e
    | inr e ↦ rw e (latest-insert-passed key s ts_oracle_key v (entries db cf) (rw user))
  ]

  pub All-Persisted :
      (P : Entry → Type 0) (v : Bytes) (db db' : Db) (cf : Bytes)
      → Persisted v db db' cf
      → P (ts_oracle_key, v)
      → All P (entries db cf)
      → All P (entries db' cf)
  All-Persisted P v db db' cf p one h = elim p [
    | inl e ↦ subst (All P) (sym e) h
    | inr e ↦ subst (All P) (sym e) (insert-All P ts_oracle_key v (entries db cf) one h)
  ]

  -- For the readers of a key of a column family: it holds versioned keys only, the key is not
  -- `__ts_oracle_c`, every stored version of it is below the next timestamp, and that is a 64-bit one.
  pub record IsOrderly (m : Manager rocks) (cf key : Bytes) : Type 0 where
    pub user : IsUserKey key
    pub versioned : All IsVersioned (entries m.db cf)
    pub issued : All (Older key m.ts_oracle.counter) (entries m.db cf)
    pub fits : m.ts_oracle.counter < u64_mod

  module _ (m m' : Manager rocks) (tx tx' : Transaction) (ts : ℕ) where
    module _ (c : Committed m m' tx tx' ts) (cf key : Bytes) (h : IsOrderly m cf key) where
      ts_fits : ts ≤ u64_max
      ts_fits = omega (arith, c.issued, h.fits)

      before : IsBefore key ts (entries m.db cf)
      before = record {
        sorted = rocks.sorted m.db cf;
        versioned = h.versioned;
        bounded =
            All-imp {P = Older key m.ts_oracle.counter} {Q = IsBounded key ts}
              (λ e o k. omega (arith, o k, c.issued)) (entries m.db cf) h.issued;
      }

      -- After a successful commit at `ts` the latest version of a key for a snapshot from `ts` on is
      -- the last write of the key in the write set, if there is one; in every other case it is what it
      -- was before. Before the commit the column family holds versioned keys only, every version of
      -- the key is below the counter, and the key is not `__ts_oracle_c`, of which the stored counter
      -- would be a version.
      pub latest-commit :
          (s : ℕ)
          → latest key s (entries m'.db cf) ≡ (
              if leb ts s
              then after_batch ts (last_write cf key tx.write_set) (latest key s (entries m.db cf))
              else latest key s (entries m.db cf))
      latest-commit s =
          let v = be_bytes 8 m'.ts_oracle.counter in
          let after = persist_if_due rocks ts m'.ts_oracle c.db in
          let kept = persist_if_due-Persisted ts m'.ts_oracle c.db cf in
          let moved = latest-Persisted v c.db after cf key s kept h.user in
          let batch = (batch_write_at-entries rocks m.db c.db tx.write_set ts c.wrote cf).0 in
          let start =
            ap (λ d. latest key s (entries d cf)) c.stored ∙ moved ∙ ap (latest key s) batch in
          elim (dec_le ts s) [
            | yes le ↦ rw (le→leb ts s le) (
                start
                ∙ latest-apply_batch ts ts_fits cf key s tx.write_set (entries m.db cf) le before)
            | no gt ↦ rw (lt→leb_false ts s (omega arith)) (
                start
                ∙ latest-apply_batch_earlier ts ts_fits cf key s tx.write_set (entries m.db cf)
                    (omega arith))
          ]
