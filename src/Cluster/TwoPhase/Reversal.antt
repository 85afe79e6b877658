-- ===== src/Cluster/TwoPhase/Reversal.antt =====
-- An abort behind a commit that stopped half way.
use synaptica.Prelude.{
  ◌≡◌, refl, ap, ◌∙◌, inl, inr, some, [], ◌∷◌, ◌++◌, Bytes, get_key, Option-cases, Result-cases, ok,
  err, append_assoc,
}
use synaptica.Cluster.TwoPhase.{
  DistributedTxState, DistributedTxError, TxRecord, Participants, Coordinator, commit, abort, state,
  refuse_abort, refuse_commit, commit_all,
}
use synaptica.Cluster.DecisionLog.{LogEntry}
use synaptica.Cluster.TwoPhase.Recovery.{get_key-set_state}

module _ (parts : Participants) where
  -- what `abort` makes of a transaction that is in the state `Committing`
  abort_committing :
      (c : Coordinator parts) (k : Bytes) (r : TxRecord)
      → get_key k c.transactions ≡ some r
      → r.state ≡ DistributedTxState.committing
      → ((abort parts c k).0 ≡ ok tt)
        × (state parts (abort parts c k).1 k ≡ some DistributedTxState.aborted)
        × ((abort parts c k).1.log ≡ c.log ++ LogEntry.abort k ∷ [])
  unfolding abort state refuse_abort
  abort_committing c k r g s =
      let r' : TxRecord = record r { state = DistributedTxState.aborting } in
      let one = get_key-set_state k DistributedTxState.aborting r c.transactions g in
      let two = get_key-set_state k DistributedTxState.aborted r' _ one in
      (rw (abort, g, s) refl, rw (abort, g, s, state, two) refl, rw (abort, g, s) refl)

  commit_stopped :
      (c : Coordinator parts) (k : Bytes) (e : DistributedTxError)
      → state parts c k ≡ some DistributedTxState.prepared
      → (commit parts c k).0 ≡ err e
      → (r : TxRecord) × (get_key k (commit parts c k).1.transactions ≡ some r)
        × (r.state ≡ DistributedTxState.committing)
        × ((commit parts c k).1.log ≡ c.log ++ LogEntry.commit k ∷ [])
  unfolding commit state refuse_commit
  commit_stopped c k e h f = elim (Option-cases (get_key k c.transactions)) [
    | inl n ↦ absurd (cc (rw (state, n) at h))
    | inr (r, g) ↦
        let p : some r.state ≡ some DistributedTxState.prepared = rw (state, g) at h in
        let s : r.state ≡ DistributedTxState.prepared = cc p in
        let r' : TxRecord = record r { state = DistributedTxState.committing } in
        let one = get_key-set_state k DistributedTxState.committing r c.transactions g in
        elim (Result-cases (commit_all parts k r.participants c.world).0) [
          | inl (u, d) ↦ absurd (cc (rw (commit, g, s, d) at f))
          | inr (x, d) ↦ (r', rw (commit, g, s, d) one, refl, rw (commit, g, s, d) refl)
        ]
  ]

  -- When the commit of a prepared transaction returns an error, a following `abort` is accepted:
  -- the state becomes `Aborted`, and the log has gained a `Commit` and an `Abort` of the
  -- transaction.
  pub abort-commit :
      (c : Coordinator parts) (k : Bytes) (e : DistributedTxError)
      → state parts c k ≡ some DistributedTxState.prepared
      → (commit parts c k).0 ≡ err e
      → let c' = (commit parts c k).1 in
        ((abort parts c' k).0 ≡ ok tt)
        × (state parts (abort parts c' k).1 k ≡ some DistributedTxState.aborted)
        × ((abort parts c' k).1.log ≡ c.log ++ LogEntry.commit k ∷ LogEntry.abort k ∷ [])
  abort-commit c k e h f =
      let (r, g, s, l) = commit_stopped c k e h f in
      let (a, b, d) = abort_committing (commit parts c k).1 k r g s in
      (a, b, d ∙ ap (λ x. x ++ LogEntry.abort k ∷ []) l ∙ append_assoc c.log _ _)
