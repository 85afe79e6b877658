-- ===== src/Tx/Manager/FirstCommitter.antt =====
-- Of two concurrent transactions that write one key only the first to commit succeeds.
use synaptica.Prelude.{
  ℕ, ◌+◌, ◌-◌, ◌%◌, ◌≤◌, ◌<◌, ◌≡◌, refl, sym, subst, ◌∙◌, ◌⊎◌, inl, inr, true, not, List, [], ◌∷◌,
  arith, Bytes, ltb, ltb→lt, lt→ltb, ◌==◌, length, In, In-retain, Bool-cases, ok, err,
}
use native.Mathlib.Nat.{mod-eq_of_lt}
use synaptica.Storage.Rocks.{Rocks}
use synaptica.Storage.Oracle.{next, u64_mod}
use synaptica.Tx.Transaction.{Transaction, TxError, is_active}
use synaptica.Tx.Manager.{
  Manager, CommitRecord, commit, begin, gc_committed_writes, gc_threshold, newer_than, auto_gc,
  insert_record, keys_of,
}
use synaptica.Tx.Manager.Publish.{commit-Committed}
use synaptica.Tx.Manager.Failures.{commit-failed}
use synaptica.Tx.Manager.Conflicts.{Overlap, commit-Conflict_exact, Conflict-of_refused}
use synaptica.Tx.Manager.Steps.{Step, begins, commits, prunes, Run, here, then_step, Step-forward}

-- A record survives pruning below its timestamp.
In-auto_gc :
    (ts : ℕ) (r : CommitRecord) (records : List CommitRecord)
    → In r records
    → ts < r.0 + gc_threshold
    → 0 < r.0
    → In r (auto_gc ts records)
unfolding auto_gc
In-auto_gc ts r records i h pos = elim (Bool-cases (ltb gc_threshold (length records))) [
  | inl t ↦ rw t (In-retain _ r records i (lt→ltb (ts - gc_threshold) r.0 (omega arith)))
  | inr f ↦ rw f i
]

In-insert_record :
    (ts : ℕ) (r : CommitRecord) (records : List CommitRecord)
    → In r records
    → r.0 < ts
    → {keys : List (Bytes × Bytes)} → In r (insert_record ts keys records)
In-insert_record ts r records i h =
    inr (In-retain (λ q. not (q.0 == ts)) r records i (ground arith))

auto_gc_long :
    (ts : ℕ) (records : List CommitRecord)
    → gc_threshold < length records
    → auto_gc ts records ≡ newer_than (ts - gc_threshold) records
unfolding auto_gc
auto_gc_long ts records h = rw (lt→ltb gc_threshold (length records) h)

newer-In :
    (w : ℕ) (r : CommitRecord) (records : List CommitRecord) → In r (newer_than w records) → w < r.0
newer-In w r [] i = absurd i
newer-In w r (x ∷ xs) i = elim (Bool-cases (ltb w x.0)) [
  | inr f ↦ newer-In w r xs (rw f at i)
  | inl t ↦
      let j : (r ≡ x) ⊎ In r (newer_than w xs) = (rw t at i) in
      elim j [
        | inl e ↦ (let l = ltb→lt w x.0 t in subst (λ q. w < q.0) (sym e) l)
        | inr k ↦ newer-In w r xs k
      ]
]

module _ (rocks : Rocks) where
  -- a record of a commit whose timestamp has been issued
  pub record Holds (m : Manager rocks) (r : CommitRecord) : Type 0 where
    pub present : In r m.committed_writes
    pub past : r.0 < m.ts_oracle.counter
    pub positive : 0 < r.0

  commit-Holds :
      (m n : Manager rocks) (tx tx' : Transaction) (ts : ℕ)
      → m.ts_oracle.counter + 1 < u64_mod
      → commit rocks m tx ≡ (ok ts, n, tx')
      → 0 < ts
      → Holds n (ts, keys_of tx.write_set)
  commit-Holds m n tx tx' ts more e pos =
      let c = commit-Committed rocks m n tx tx' ts e in
      let up : n.ts_oracle.counter ≡ ts + 1 =
        c.oracle ∙ mod-eq_of_lt (let q : ts + 1 < u64_mod = omega (arith, c.issued) in q) in
      record {
        present = rw c.recorded (In-auto_gc ts _ _ (inl refl) (omega arith) pos);
        past = omega (arith, up);
        positive = pos;
      }

  Step-Holds :
      {m n : Manager rocks} (r : CommitRecord)
      → Step rocks r.0 m n
      → Holds m r
      → n.ts_oracle.counter ≤ r.0 + gc_threshold
      → Holds n r
  unfolding begin gc_committed_writes next
  Step-Holds r (begins m more) h near =
      let e : (m.ts_oracle.counter + 1) % u64_mod ≡ m.ts_oracle.counter + 1 = mod-eq_of_lt more in
      record { present = h.present; past = omega (arith, e, h.past); positive = h.positive }
  Step-Holds r (prunes m w lt) h near = record {
    present = In-retain _ r m.committed_writes h.present (lt→ltb w r.0 lt);
    past = h.past;
    positive = h.positive;
  }
  Step-Holds r (commits m n tx tx' (ok ts) more e) h near =
      let c = commit-Committed rocks m n tx tx' ts e in
      let up : n.ts_oracle.counter ≡ ts + 1 =
        c.oracle ∙ mod-eq_of_lt (let q : ts + 1 < u64_mod = omega (arith, c.issued) in q) in
      record {
        present = rw c.recorded (
            In-auto_gc ts r _
              (In-insert_record ts r m.committed_writes h.present (omega (arith, h.past, c.issued)))
              (omega (arith, near, up)) h.positive);
        past = omega (arith, h.past, up, c.issued);
        positive = h.positive;
      }
  Step-Holds r (commits m n tx tx' (err x) more e) h near =
      let up : (m.ts_oracle.counter + 1) % u64_mod ≡ m.ts_oracle.counter + 1 = mod-eq_of_lt more in
      elim (commit-failed rocks m n tx tx' x e).0 [
        | inl same ↦ subst (λ q. Holds q r) (sym same) h
        | inr used ↦
            subst (λ q. Holds q r) (sym used)
              (record {
                present = h.present;
                past = omega (arith, h.past, up);
                positive = h.positive;
              })
      ]

  Run-Holds :
      {m : Manager rocks} (r : CommitRecord) {n : Manager rocks}
      → Run rocks r.0 m n
      → Holds m r
      → n.ts_oracle.counter ≤ r.0 + gc_threshold
      → Holds n r
  Run-Holds r here h near = h
  Run-Holds r (then_step run st) h near =
      let up = Step-forward rocks r.0 st in
      Step-Holds r st (Run-Holds r run h (omega (arith, up))) near

  -- First committer wins: after transaction `a` has committed at `ts`, and after any further calls,
  -- the commit of an active transaction `b` whose snapshot is older than `ts` and that wrote one of
  -- the keys of `a` is refused and changes nothing. The calls between do not prune at or above `ts`,
  -- and fewer than 10000 timestamps have been issued since.
  pub first_committer_wins :
      (m m' n : Manager rocks) (a a' b : Transaction) (ts : ℕ)
      → m.ts_oracle.counter + 1 < u64_mod
      → commit rocks m a ≡ (ok ts, m', a')
      → Run rocks ts m' n
      → n.ts_oracle.counter ≤ ts + gc_threshold
      → is_active b.state ≡ true
      → b.snapshot_ts < ts
      → Overlap (keys_of b.write_set) (keys_of a.write_set)
      → commit rocks n b ≡ (err TxError.write_conflict, n, b)
  first_committer_wins m m' n a a' b ts more e run near on older shared =
      let r : CommitRecord = (ts, keys_of a.write_set) in
      let h = Run-Holds r run (commit-Holds m m' a a' ts more e (omega arith)) near in
      (commit-Conflict_exact rocks n b on).1 (r, h.present, older, shared)

  -- The pruning at the end of a commit does not look at the active transactions. After a commit at
  -- `ts` that pruned, whatever refuses an active transaction is a commit of the last 10000
  -- timestamps: older ones that wrote its keys after its snapshot are forgotten.
  pub refused_after_pruning :
      (m m' : Manager rocks) (c c' b : Transaction) (ts : ℕ)
      → commit rocks m c ≡ (ok ts, m', c')
      → gc_threshold < length (insert_record ts (keys_of c.write_set) m.committed_writes)
      → is_active b.state ≡ true
      → (commit rocks m' b).0 ≡ err TxError.write_conflict
      → (r : CommitRecord) × In r m'.committed_writes
        × (ts - gc_threshold < r.0)
        × (b.snapshot_ts < r.0)
        × Overlap (keys_of b.write_set) r.1
  refused_after_pruning m m' c c' b ts e long on h =
      let w = commit-Committed rocks m m' c c' ts e in
      let (r, i, older, shared) = Conflict-of_refused rocks m' b on h in
      let kept = subst (λ l. In r l) (w.recorded ∙ auto_gc_long ts _ long) i in
      (
        r,
        i,
        newer-In (ts - gc_threshold) r (insert_record ts (keys_of c.write_set) m.committed_writes)
            kept,
        older,
        shared,
      )
