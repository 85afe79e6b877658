-- ===== src/Tx/Manager/Threads/Snapshots.antt =====
-- What the moves of other threads leave of what a snapshot shows.
use synaptica.Prelude.{
  ℕ, ◌+◌, ◌%◌, ◌≤◌, ◌<◌, ◌≡◌, refl, ap, ◌∙◌, inl, inr, arith, Bytes, All, All-imp, ok, be_bytes,
  Result-cases,
}
use native.Mathlib.Nat.{mod-eq_of_lt}
use synaptica.Storage.Rocks.{Rocks}
use synaptica.Storage.Oracle.{next, u64_mod}
use synaptica.Storage.Mvcc.{batch_write_at, u64_max}
use synaptica.Storage.Mvcc.Latest.{latest, Older, IsVersioned}
use synaptica.Storage.Mvcc.Batches.{
  IsBefore, IsBounded, latest-apply_batch_earlier, apply_batch-IsBefore, batch_write_at-entries,
}
use synaptica.Tx.Transaction.{Transaction}
use synaptica.Tx.Manager.{Manager, begin, gc_committed_writes, persist_timestamp, write_batch}
use synaptica.Tx.Manager.Publish.{
  IsOrderly, persist_timestamp-Persisted, latest-Persisted, All-Persisted, oracle_entry-IsVersioned,
}
use synaptica.Tx.Manager.Threads.{
  Holder, System, Move, begins, locks, issues, writes, fails, records, persists, prunes, Moves,
  stay, move,
}

-- `P` holds of the timestamp of a commit that has not written yet.
abbrev pub OfIssued : (ℕ → Type 0) → Holder → Type 0
OfIssued P Holder.free = Unit
OfIssued P (Holder.checked tx) = Unit
OfIssued P (Holder.issued tx ts) = P ts
OfIssued P (Holder.written tx ts) = Unit

OfIssued-imp :
    {P Q : ℕ → Type 0} → ((ts : ℕ) → P ts → Q ts) → (h : Holder) → OfIssued P h → OfIssued Q h
OfIssued-imp f Holder.free p = tt
OfIssued-imp f (Holder.checked tx) p = tt
OfIssued-imp f (Holder.issued tx ts) p = f ts p
OfIssued-imp f (Holder.written tx ts) p = tt

-- the snapshot has been taken, and is below the timestamp of a commit that has not written yet
abbrev pub Precedes : {rocks : Rocks} → ℕ → System rocks → Type 0
Precedes snap s = (snap < s.manager.ts_oracle.counter) × OfIssued (λ ts. snap < ts) s.holder

module _ (rocks : Rocks) where
  -- What a successful write of a batch does
  pub write_batch-ok :
      (m n : Manager rocks) (tx : Transaction) (ts : ℕ)
      → write_batch rocks m tx ts ≡ ok n
      → (db : rocks.Db) × (batch_write_at rocks m.db tx.write_set ts ≡ ok db)
        × (n ≡ record m { db = db })
  write_batch-ok m n tx ts h = elim (Result-cases (batch_write_at rocks m.db tx.write_set ts)) [
    | inl (db, e) ↦ (db, e, cc (rw (e, write_batch) at h))
    | inr (x, e) ↦ absurd (cc (rw (e, write_batch) at h))
  ]

module _ (rocks : Rocks) (cf key : Bytes) where
  -- The manager is orderly for the key, and the versions of the key are below the timestamp of a
  -- commit that has not written yet.
  pub record IsConsistent (s : System rocks) : Type 0 where
    pub orderly : IsOrderly rocks s.manager cf key
    pub pending :
        OfIssued
          (λ ts.
            (ts < s.manager.ts_oracle.counter) × All (Older key ts) (rocks.entries s.manager.db cf))
          s.holder

  pub IsConsistent-older :
      (s : System rocks) (tx : Transaction) (ts : ℕ)
      → s.holder ≡ Holder.issued tx ts
      → IsConsistent s
      → All (Older key ts) (rocks.entries s.manager.db cf)
  IsConsistent-older s tx ts e c =
      let p : (ts < s.manager.ts_oracle.counter)
          × All (Older key ts) (rocks.entries s.manager.db cf) =
        (rw e at c.pending) in
      p.1

  pub IsConsistent-before :
      (s : System rocks) (tx : Transaction) (ts : ℕ)
      → s.holder ≡ Holder.issued tx ts
      → IsConsistent s
      → (ts < s.manager.ts_oracle.counter) × IsBefore key ts (rocks.entries s.manager.db cf)
  IsConsistent-before s tx ts e c =
      let es = rocks.entries s.manager.db cf in
      let p : (ts < s.manager.ts_oracle.counter) × All (Older key ts) es = (rw e at c.pending) in
      (
        p.0,
        record {
          sorted = rocks.sorted s.manager.db cf;
          versioned = c.orderly.versioned;
          bounded =
              All-imp {P = Older key ts} {Q = IsBounded key ts} (λ e o k. omega (arith, o k)) es
                p.1;
        },
      )

  -- a change of the counter, with the same contents of the column family
  IsOrderly-advance :
      (m n : Manager rocks)
      → IsOrderly rocks m cf key
      → rocks.entries n.db cf ≡ rocks.entries m.db cf
      → m.ts_oracle.counter ≤ n.ts_oracle.counter
      → n.ts_oracle.counter < u64_mod
      → IsOrderly rocks n cf key
  IsOrderly-advance m n h db le fits = record {
    user = h.user;
    versioned = rw db h.versioned;
    issued = rw db (
        All-imp {P = Older key m.ts_oracle.counter} {Q = Older key n.ts_oracle.counter}
          (λ e o k. omega (arith, o k)) (rocks.entries m.db cf) h.issued);
    fits = fits;
  }

  -- what a move keeps for the readers of the key at a snapshot
  pub record Keeps (snap : ℕ) (s t : System rocks) : Type 0 where
    pub consistent : IsConsistent t
    pub precedes : Precedes snap t
    pub same :
        latest key snap (rocks.entries t.manager.db cf)
        ≡ latest key snap (rocks.entries s.manager.db cf)

  -- the writes of a commit
  writes-Keeps :
      (snap : ℕ) (s : System rocks) (tx : Transaction) (ts : ℕ) (m : Manager rocks)
      → s.holder ≡ Holder.issued tx ts
      → write_batch rocks s.manager tx ts ≡ ok m
      → IsConsistent s
      → Precedes snap s
      → Keeps snap s (record s { manager = m; holder = Holder.written tx ts })
  writes-Keeps snap s tx ts m e w c p =
      let es = rocks.entries s.manager.db cf in
      let (db, wrote, done) = write_batch-ok rocks s.manager m tx ts w in
      let (past, before) = IsConsistent-before s tx ts e c in
      let below : snap < ts = (rw e at p.1) in
      let fits : ts ≤ u64_max = omega (arith, past, c.orderly.fits) in
      let batch = (batch_write_at-entries rocks s.manager.db db tx.write_set ts wrote cf).0 in
      let after = apply_batch-IsBefore ts fits cf key tx.write_set es before in
      let counter = s.manager.ts_oracle.counter in
      rw done (record {
        consistent = record {
          orderly = record {
            user = c.orderly.user;
            versioned = rw batch after.versioned;
            issued = rw batch (
                All-imp {P = IsBounded key ts} {Q = Older key counter}
                  (λ e b k. omega (arith, b k, past)) _ after.bounded);
            fits = c.orderly.fits;
          };
          pending = tt;
        };
        precedes = (p.0, tt);
        same =
            ap (latest key snap) batch
            ∙ latest-apply_batch_earlier ts fits cf key snap tx.write_set es below;
      })

  -- the counter is stored
  persists-Keeps :
      (snap : ℕ) (s : System rocks) (left counter : ℕ)
      → IsConsistent s
      → Precedes snap s
      → Keeps snap s (record s {
        manager = record s.manager {
          db = persist_timestamp rocks (record { counter = counter }) s.manager.db;
        };
        persisting = left;
      })
  persists-Keeps snap s left counter c p =
      let db = s.manager.db in
      let after = persist_timestamp rocks (record { counter = counter }) db in
      let v = be_bytes 8 counter in
      let kept = persist_timestamp-Persisted rocks (record { counter = counter }) db cf in
      let old : (b : ℕ)
          → All (Older key b) (rocks.entries db cf)
          → All (Older key b) (rocks.entries after cf) =
        λ b h.
          All-Persisted rocks (Older key b) v db after cf kept
            (λ hit. absurd (cc (hit, c.orderly.user))) h in
      record {
        consistent = record {
          orderly = record {
            user = c.orderly.user;
            versioned =
                All-Persisted rocks IsVersioned v db after cf kept (oracle_entry-IsVersioned v)
                  c.orderly.versioned;
            issued = old _ c.orderly.issued;
            fits = c.orderly.fits;
          };
          pending = OfIssued-imp (λ ts q. (q.0, old ts q.1)) s.holder c.pending;
        };
        precedes = p;
        same = latest-Persisted rocks v db after cf key snap kept c.orderly.user;
      }

  pub Move-Keeps :
      (snap : ℕ) {s t : System rocks}
      → Move rocks s t
      → IsConsistent s
      → Precedes snap s
      → Keeps snap s t
  unfolding begin next gc_committed_writes
  Move-Keeps snap {s} (begins more) c p =
      let up : (s.manager.ts_oracle.counter + 1) % u64_mod ≡ s.manager.ts_oracle.counter + 1 =
        mod-eq_of_lt more in
      record {
        consistent = record {
          orderly =
              IsOrderly-advance s.manager _ c.orderly refl (omega (arith, up)) (omega (arith, up));
          pending = OfIssued-imp (λ ts q. (omega (arith, q.0, up), q.1)) s.holder c.pending;
        };
        precedes = (omega (arith, p.0, up), p.1);
        same = refl;
      }
  Move-Keeps snap {s} (issues tx e more) c p =
      let up : (s.manager.ts_oracle.counter + 1) % u64_mod ≡ s.manager.ts_oracle.counter + 1 =
        mod-eq_of_lt more in
      record {
        consistent = record {
          orderly =
              IsOrderly-advance s.manager _ c.orderly refl (omega (arith, up)) (omega (arith, up));
          pending = (omega (arith, up), c.orderly.issued);
        };
        precedes = (omega (arith, p.0, up), p.0);
        same = refl;
      }
  Move-Keeps snap {s} (locks tx e on free) c p = record {
    consistent = record { orderly = c.orderly; pending = tt };
    precedes = (p.0, tt);
    same = refl;
  }
  Move-Keeps snap {s} (writes tx ts m e w) c p = writes-Keeps snap s tx ts m e w c p
  Move-Keeps snap {s} (fails tx ts x e w) c p = record {
    consistent = record { orderly = c.orderly; pending = tt };
    precedes = (p.0, tt);
    same = refl;
  }
  Move-Keeps snap {s} (records tx ts e) c p = record {
    consistent = record {
      orderly = IsOrderly-advance s.manager _ c.orderly refl (omega arith) c.orderly.fits;
      pending = tt;
    };
    precedes = (p.0, tt);
    same = refl;
  }
  Move-Keeps snap {s} (persists left counter e le) c p = persists-Keeps snap s left counter c p
  Move-Keeps snap {s} (prunes watermark e) c p = record {
    consistent = record {
      orderly = IsOrderly-advance s.manager _ c.orderly refl (omega arith) c.orderly.fits;
      pending = c.pending;
    };
    precedes = p;
    same = refl;
  }

  -- The same of any sequence of moves
  pub Moves-Keeps :
      (snap : ℕ) {s t : System rocks}
      → Moves rocks s t
      → IsConsistent s
      → Precedes snap s
      → Keeps snap s t
  Moves-Keeps snap stay c p = record { consistent = c; precedes = p; same = refl }
  Moves-Keeps snap (move r mv) c p =
      let k = Moves-Keeps snap r c p in
      let l = Move-Keeps snap mv k.consistent k.precedes in
      record { consistent = l.consistent; precedes = l.precedes; same = l.same ∙ k.same }
