-- ===== src/Tx/Manager/Conflicts.antt =====
-- When a commit is refused, and what it leaves alone then.
use synaptica.Prelude.{
  ℕ, ◌<◌, ◌≡◌, refl, ap, subst, ◌↔◌, inl, inr, Bool, true, false, ◌&&◌, List, [], ◌∷◌, arith,
  bytes_eq, bytes_eq_sound, bytes_eq_refl, ltb, ltb→lt, lt→ltb, any, In, Bool-cases, &&-eq_true,
  err,
}
use synaptica.Storage.Rocks.{Rocks}
use synaptica.Tx.Transaction.{Transaction, TxError, is_active}
use synaptica.Tx.Manager.{
  CfKey, CommitRecord, same_key, contains, keys_of, conflicts, Manager, commit, rollback,
  apply_commit, check_write_write_conflicts,
}

module _ {A : Type 0} where
  pub any_of_In : (p : A → Bool) (a : A) (xs : List A) → In a xs → p a ≡ true → any p xs ≡ true
  any_of_In p a [] i h = absurd i
  any_of_In p a (x ∷ xs) (inl e) h = rw (← e, h)
  any_of_In p a (x ∷ xs) (inr i) h = ground (arith, any_of_In p a xs i h)

  pub In-of_any : (p : A → Bool) (xs : List A) → any p xs ≡ true → (a : A) × In a xs × (p a ≡ true)
  In-of_any p [] h = absurd (cc)
  In-of_any p (x ∷ xs) h = elim (Bool-cases (p x)) [
    | inl e ↦ (x, inl refl, e)
    | inr e ↦ (let (a, i, q) = In-of_any p xs (rw e at h) in (a, inr i, q))
  ]

pub same_key_sound : (a b : CfKey) → same_key a b ≡ true → a ≡ b
same_key_sound a b h =
    let (p, q) = &&-eq_true (bytes_eq a.0 b.0) (bytes_eq a.1 b.1) h in
    let e = bytes_eq_sound a.0 b.0 p in let f = bytes_eq_sound a.1 b.1 q in λ i. (e i, f i)

pub same_key_refl : (a : CfKey) → same_key a a ≡ true
same_key_refl a = rw (bytes_eq_refl a.0, bytes_eq_refl a.1)

-- two lists of keys have a key in common
abbrev pub Overlap : List CfKey → List CfKey → Type 0
Overlap ks js = (k : CfKey) × In k ks × In k js

any-contains_exact : (ks js : List CfKey) → (any (contains ks) js ≡ true) ↔ Overlap ks js
any-contains_exact ks js = (
  λ h.
      let (j, ij, c) = In-of_any (contains ks) js h in
      let (k, ik, e) = In-of_any (same_key j) ks c in
      (k, ik, subst (λ u. In u js) (same_key_sound j k e) ij),
  λ (k, i, j). any_of_In (contains ks) k js j (any_of_In (same_key k) k ks i (same_key_refl k)),
)

-- `check_write_write_conflicts` answers whether the two lists have a key in common.
pub check_write_write_conflicts_exact :
    (ks js : List CfKey) → (check_write_write_conflicts ks js ≡ true) ↔ Overlap ks js
unfolding check_write_write_conflicts
check_write_write_conflicts_exact ks js = any-contains_exact ks js

-- a commit recorded after the snapshot that wrote one of the keys
abbrev pub Conflict : List CommitRecord → ℕ → List CfKey → Type 0
Conflict records snapshot_ts keys =
    (r : CommitRecord) × In r records × (snapshot_ts < r.0) × Overlap keys r.1

pub conflicts_exact :
    (records : List CommitRecord) (snapshot_ts : ℕ) (keys : List CfKey)
    → (conflicts records snapshot_ts keys ≡ true) ↔ Conflict records snapshot_ts keys
unfolding conflicts
conflicts_exact records s [] = (λ h. absurd (cc), λ (r, i, l, o). absurd o.1)
conflicts_exact records s (k ∷ ks) =
    let test = λ (r : CommitRecord). ltb s r.0 && any (contains (k ∷ ks)) r.1 in
    (
      λ h.
          let (r, i, e) = In-of_any test records h in
          let (l, o) = &&-eq_true (ltb s r.0) _ e in
          (r, i, ltb→lt s r.0 l, (any-contains_exact (k ∷ ks) r.1).0 o),
      λ (r, i, l, o).
          any_of_In test r records i (rw (lt→ltb s r.0 l) ((any-contains_exact (k ∷ ks) r.1).1 o)),
    )

module _ (rocks : Rocks) (m : Manager rocks) (tx : Transaction) where
  apply_commit-ne_conflict : (apply_commit rocks m tx).0 ≡ err TxError.write_conflict → ⊥
  unfolding apply_commit
  apply_commit-ne_conflict h = ground arith

  pub Conflict-of_refused :
      is_active tx.state ≡ true
      → (commit rocks m tx).0 ≡ err TxError.write_conflict
      → Conflict m.committed_writes tx.snapshot_ts (keys_of tx.write_set)
  unfolding commit
  Conflict-of_refused on h =
      let keys = keys_of tx.write_set in
      elim (Bool-cases (conflicts m.committed_writes tx.snapshot_ts keys)) [
        | inl e ↦ (conflicts_exact m.committed_writes tx.snapshot_ts keys).0 e
        | inr e ↦ absurd (apply_commit-ne_conflict (rw (on, e) at h))
      ]

  -- The commit of an active transaction is refused with `WriteConflict`, and then changes neither
  -- the manager nor the transaction, exactly if a commit recorded after the transaction's snapshot
  -- wrote one of its keys.
  pub commit-Conflict_exact :
      is_active tx.state ≡ true
      → (commit rocks m tx ≡ (err TxError.write_conflict, m, tx))
        ↔ Conflict m.committed_writes tx.snapshot_ts (keys_of tx.write_set)
  unfolding commit
  commit-Conflict_exact on = (
    λ h. Conflict-of_refused on (ap (λ r. r.0) h),
    λ c. rw (on, (conflicts_exact m.committed_writes tx.snapshot_ts (keys_of tx.write_set)).1 c),
  )

  -- A transaction that is no longer active is refused by `commit` and by `rollback`, and nothing
  -- changes: also one that was rolled back gets the error `AlreadyCommitted` from `commit`.
  pub inactive_refused :
      is_active tx.state ≡ false
      → (commit rocks m tx ≡ (err TxError.already_committed, m, tx))
        × (rollback rocks tx ≡ (err TxError.not_active, tx))
  unfolding commit rollback
  inactive_refused off = (rw off, rw off)
