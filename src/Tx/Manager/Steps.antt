-- ===== src/Tx/Manager/Steps.antt =====
-- Runs of the manager: any sequence of whole calls by any transactions. The lock of `committed_writes`
-- puts commits and prunings in such a sequence; a `begin` inside a commit only advances the counter.
use synaptica.Prelude.{ℕ, ◌+◌, ◌%◌, ◌≤◌, ◌<◌, ◌≡◌, ap, ◌∙◌, inl, inr, arith, Result, ok, err}
use native.Mathlib.Nat.{mod-eq_of_lt}
use synaptica.Storage.Rocks.{Rocks}
use synaptica.Storage.Oracle.{next, u64_mod}
use synaptica.Tx.Transaction.{Transaction, TxError}
use synaptica.Tx.Manager.{Manager, commit, begin, gc_committed_writes}
use synaptica.Tx.Manager.Publish.{commit-Committed}
use synaptica.Tx.Manager.Failures.{commit-failed}

-- One call. The counter does not wrap around, and explicit pruning stays below `floor`.
pub data Step (rocks : Rocks) (floor : ℕ) : Manager rocks → Manager rocks → Type 0 where
  begins :
      (m : Manager rocks) → m.ts_oracle.counter + 1 < u64_mod → Step rocks floor m (begin rocks m).1
  commits :
      (m m' : Manager rocks) (tx tx' : Transaction) (r : Result TxError ℕ)
      → m.ts_oracle.counter + 1 < u64_mod
      → commit rocks m tx ≡ (r, m', tx')
      → Step rocks floor m m'
  prunes :
      (m : Manager rocks) (watermark : ℕ)
      → watermark < floor
      → Step rocks floor m (gc_committed_writes rocks m watermark)

pub data Run (rocks : Rocks) (floor : ℕ) (m : Manager rocks) : Manager rocks → Type 0 where
  here : Run rocks floor m m
  then_step :
      {m' n : Manager rocks} → Run rocks floor m m' → Step rocks floor m' n → Run rocks floor m n

-- The counter only advances.
pub Step-forward :
    (rocks : Rocks) (floor : ℕ) {m n : Manager rocks}
    → Step rocks floor m n
    → m.ts_oracle.counter ≤ n.ts_oracle.counter
unfolding begin gc_committed_writes next
Step-forward rocks floor (begins m more) =
    let e : (m.ts_oracle.counter + 1) % u64_mod ≡ m.ts_oracle.counter + 1 = mod-eq_of_lt more in
    omega (arith, e)
Step-forward rocks floor (prunes m w lt) = omega arith
Step-forward rocks floor (commits m n tx tx' (ok ts) more e) =
    let c = commit-Committed rocks m n tx tx' ts e in
    let up : n.ts_oracle.counter ≡ ts + 1 =
      c.oracle ∙ mod-eq_of_lt (let q : ts + 1 < u64_mod = omega (arith, c.issued) in q) in
    omega (arith, c.issued, up)
Step-forward rocks floor (commits m n tx tx' (err x) more e) =
    let up : (m.ts_oracle.counter + 1) % u64_mod ≡ m.ts_oracle.counter + 1 = mod-eq_of_lt more in
    elim (commit-failed rocks m n tx tx' x e).0 [
      | inl same ↦ omega (arith, ap (λ q. q.ts_oracle.counter) same)
      | inr used ↦ omega (arith, ap (λ q. q.ts_oracle.counter) used, up)
    ]
