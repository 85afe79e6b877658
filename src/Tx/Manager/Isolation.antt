-- ===== src/Tx/Manager/Isolation.antt =====
-- What the transactions promise each other.
use synaptica.Prelude.{
  ℕ, ◌+◌, ◌-◌, ◌≤◌, ◌<◌, ◌≡◌, ◌≢◌, refl, sym, ap, ◌∙◌, none, some, Option, List, false, [], ◌∷◌,
  arith, Bytes, le→leb, ok, map_err,
}
use synaptica.Storage.Rocks.{Rocks}
use synaptica.Storage.Oracle.{next, current, u64_mod}
use synaptica.Storage.Mvcc.{stored, get_at, u64_max}
use synaptica.Storage.Mvcc.Latest.{latest, latest-settled, visible}
use synaptica.Storage.Mvcc.Reads.{IsReadable, get_at-latest}
use synaptica.Storage.Mvcc.Batches.{
  last_write, after_batch, latest-apply_batch, batch_write_at-entries,
}
use synaptica.Tx.Transaction.{Transaction, TxError, get}
use synaptica.Tx.Transaction.OwnWrites.{get-new, get_own, get_same_read}
use synaptica.Tx.Manager.{
  Manager, CfKey, keys_of, conflicts, commit, begin, snapshot, snapshot_get, write_batch,
}
use synaptica.Tx.Manager.Publish.{commit-Committed, IsOrderly, latest-commit}
use synaptica.Tx.Manager.Threads.{Holder, System, Moves, begins, writes, stay, move}
use synaptica.Tx.Manager.Threads.Snapshots.{
  Precedes, IsConsistent, IsConsistent-before, IsConsistent-older, Moves-Keeps, write_batch-ok,
}

module _ (rocks : Rocks) where
  -- Snapshot isolation among threads: over any sequence of moves (begins, the accesses of commits,
  -- failed ones too, persisting and pruning, in any order that the write lock allows) a transaction
  -- reads of a key what it read before, if its snapshot was taken before and lies below the timestamp
  -- of the commit, if there is one, that has its timestamp and has not written yet. The counter does
  -- not wrap around. At first the column family holds versioned keys only, every version of the key is
  -- below the counter and below the timestamp of such a commit, and the key is not `__ts_oracle_c`.
  -- The key is readable in both states.
  pub get-Moves :
      (s t : System rocks) (tx : Transaction) (cf key : Bytes)
      → Moves rocks s t
      → IsConsistent rocks cf key s
      → Precedes tx.snapshot_ts s
      → IsReadable rocks s.manager.db cf key
      → IsReadable rocks t.manager.db cf key
      → get rocks tx t.manager.db cf key ≡ get rocks tx s.manager.db cf key
  get-Moves s t tx cf key moves c p rs rt =
      get_same_read rocks tx cf key t.manager.db s.manager.db (
        rw (
          get_at-latest rocks s.manager.db cf key tx.snapshot_ts rs,
          get_at-latest rocks t.manager.db cf key tx.snapshot_ts rt,
          (Moves-Keeps rocks cf key tx.snapshot_ts moves c p).same,
        ))

  -- what a transaction reads that has just begun
  get-begin :
      (m : Manager rocks) (db : rocks.Db) (cf key : Bytes)
      → get rocks (begin rocks m).0 db cf key
        ≡ map_err TxError.mvcc (get_at rocks db cf key (begin rocks m).0.snapshot_ts)
  unfolding begin next
  get-begin m db cf key = get-new rocks _ _ db cf key

  begin_snapshot_ts :
      (m : Manager rocks)
      → 0 < m.ts_oracle.counter
      → m.ts_oracle.counter < u64_mod
      → (begin rocks m).0.snapshot_ts + 1 ≡ m.ts_oracle.counter
  unfolding begin next
  begin_snapshot_ts m pos fits = omega arith

  -- The record of a commit refuses no transaction whose snapshot is not older.
  conflicts-passed :
      (ts snapshot_ts : ℕ) (written write_keys : List CfKey)
      → ts ≤ snapshot_ts
      → conflicts ((ts, written) ∷ []) snapshot_ts write_keys ≡ false
  unfolding conflicts
  conflicts-passed ts snapshot_ts written [] le = refl
  conflicts-passed ts snapshot_ts written (k ∷ ks) le = ground arith

  module _ (s : System rocks) (n : Manager rocks) (tx : Transaction) (ts : ℕ) (cf key : Bytes) where
    -- A transaction that begins while a commit stands between taking its timestamp and writing is not
    -- isolated from it: at first it reads of a key that the commit writes what a snapshot below the
    -- commit reads, and once the commit has written the value that the commit put there; and whatever
    -- keys it writes itself, the record of the commit does not make it conflict. The counter
    -- does not wrap around. At first the column family holds versioned keys only, every version of the
    -- key is below the counter and the timestamp of the commit, and the key is not `__ts_oracle_c`.
    -- The key is readable before and after.
    pub begin_during_commit :
        (v : Option Bytes)
        → s.holder ≡ Holder.issued tx ts
        → s.manager.ts_oracle.counter + 1 < u64_mod
        → IsConsistent rocks cf key s
        → write_batch rocks (begin rocks s.manager).1 tx ts ≡ ok n
        → IsReadable rocks s.manager.db cf key
        → IsReadable rocks n.db cf key
        → last_write cf key tx.write_set ≡ some v
        → let b = (begin rocks s.manager).0 in
          Moves rocks s (record s { manager = n; holder = Holder.written tx ts })
          × (get rocks b s.manager.db cf key
              ≡ map_err TxError.mvcc (get_at rocks s.manager.db cf key (ts - 1)))
          × (get rocks b n.db cf key ≡ ok (visible (some (ts, stored v))))
          × ((keys : List CfKey)
              → conflicts ((ts, keys_of tx.write_set) ∷ []) b.snapshot_ts keys ≡ false)
    unfolding begin
    begin_during_commit v e more c w rs rn lw =
        let b = (begin rocks s.manager).0 in
        let es = rocks.entries s.manager.db cf in
        let (past, before) = IsConsistent-before rocks cf key s tx ts e c in
        let snap = begin_snapshot_ts s.manager (omega (arith, past)) c.orderly.fits in
        let fits : ts ≤ u64_max = omega (arith, past, c.orderly.fits) in
        let (db, wrote, done) = write_batch-ok rocks (begin rocks s.manager).1 n tx ts w in
        let batch = (batch_write_at-entries rocks s.manager.db db tx.write_set ts wrote cf).0 in
        let known : latest key b.snapshot_ts (rocks.entries n.db cf) ≡ some (ts, stored v) =
          ap (λ m. latest key b.snapshot_ts (rocks.entries m.db cf)) done
          ∙ ap (latest key b.snapshot_ts) batch
          ∙ latest-apply_batch ts fits cf key b.snapshot_ts tx.write_set es
              (omega (arith, past, snap)) before
          ∙ ap (λ o. after_batch ts o (latest key b.snapshot_ts es)) lw in
        let old : latest key b.snapshot_ts es ≡ latest key (ts - 1) es =
          latest-settled key ts b.snapshot_ts (ts - 1) es (omega (arith, past, snap)) (omega arith)
            (IsConsistent-older rocks cf key s tx ts e c) in
        (
          move (move stay (begins more)) (writes tx ts n e w),
          get-begin s.manager s.manager.db cf key
              ∙ ap (map_err TxError.mvcc) (
                  get_at-latest rocks s.manager.db cf key b.snapshot_ts rs
                  ∙ ap (λ o. ok (visible o)) old
                  ∙ sym (get_at-latest rocks s.manager.db cf key (ts - 1) rs)),
          get-begin s.manager n.db cf key
              ∙ ap (map_err TxError.mvcc) (
                  get_at-latest rocks n.db cf key b.snapshot_ts rn
                  ∙ ap (λ o. ok (visible o)) known),
          λ keys. conflicts-passed ts b.snapshot_ts _ keys (omega (arith, past, snap)),
        )

  module _ (m m' : Manager rocks) (tx tx' : Transaction) (ts : ℕ) (cf key : Bytes) where
    -- what a reader at or above the commit timestamp gets of a key that was written
    get_at_committed :
        (v : Option Bytes) (s : ℕ)
        → commit rocks m tx ≡ (ok ts, m', tx')
        → IsOrderly rocks m cf key
        → IsReadable rocks m'.db cf key
        → last_write cf key tx.write_set ≡ some v
        → ts ≤ s
        → get_at rocks m'.db cf key s ≡ ok (visible (some (ts, stored v)))
    get_at_committed v s e h r w le =
        let c = commit-Committed rocks m m' tx tx' ts e in
        let l = latest-commit rocks m m' tx tx' ts c cf key h s in
        rw (get_at-latest rocks m'.db cf key s r, l, le→leb ts s le, w)

    visible-stored : (v : Option Bytes) → v ≢ some [] → visible (some (ts, stored v)) ≡ v
    visible-stored none ne = refl
    visible-stored (some []) ne = absurd (ne refl)
    visible-stored (some (b ∷ bs)) ne = refl

    -- A commit makes what the transaction saw visible: at every snapshot from the commit timestamp on,
    -- a key that the transaction wrote reads as the transaction itself read it, unless the last value
    -- that it put there is the empty one. Before the commit the column family holds versioned keys only,
    -- every version of the key is below the counter, and the key is not `__ts_oracle_c`, of which the
    -- stored counter would be a version. The key is readable after the commit.
    pub commit_publishes :
        (v : Option Bytes) (s : ℕ)
        → commit rocks m tx ≡ (ok ts, m', tx')
        → IsOrderly rocks m cf key
        → IsReadable rocks m'.db cf key
        → last_write cf key tx.write_set ≡ some v
        → v ≢ some []
        → ts ≤ s
        → (get rocks tx m.db cf key ≡ ok v) × (get_at rocks m'.db cf key s ≡ ok v)
    commit_publishes v s e h r w ne le =
        let c = commit-Committed rocks m m' tx tx' ts e in
        (
          get_own rocks tx cf key m.db v c.was_active w,
          get_at_committed v s e h r w le ∙ ap ok (visible-stored v ne),
        )

    -- A `Snapshot` taken before a commit is not isolated from it: its timestamp is the one that the
    -- commit gets, so that it reads the values that the commit wrote. Before the commit the column family
    -- holds versioned keys only, every version of the key is below the counter, and the key is not
    -- `__ts_oracle_c`. The key is readable after the commit.
    pub snapshot_sees_next_commit :
        (v : Option Bytes)
        → commit rocks m tx ≡ (ok ts, m', tx')
        → IsOrderly rocks m cf key
        → IsReadable rocks m'.db cf key
        → last_write cf key tx.write_set ≡ some v
        → snapshot_get rocks (snapshot rocks m) m'.db cf key ≡ ok (visible (some (ts, stored v)))
    unfolding snapshot snapshot_get current
    snapshot_sees_next_commit v e h r w =
        let c = commit-Committed rocks m m' tx tx' ts e in
        ap (map_err TxError.mvcc)
          (get_at_committed v m.ts_oracle.counter e h r w (omega (arith, c.issued)))
