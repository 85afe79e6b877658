-- ===== src/Cluster/TwoPhase/Examples.antt =====
-- Tests of the coordinator: two partitions, the second of which does not answer a commit.
use synaptica.Prelude.{
  none, arith, ◌≡◌, ◌↔◌, ◌⊎◌, refl, inr, true, ◌||◌, some, List, [], ◌∷◌, ◌++◌, Bytes, bytes_eq,
  codes, In, ok, err, if◌then◌else◌, get_key, put_key,
}
use synaptica.Cluster.DecisionLog.{LogEntry}
use synaptica.Prelude.Decimals.{decimal_from}
use synaptica.Cluster.TwoPhase.{
  DistributedTxState, DistributedTxError, Participants, Coordinator, new, begin_distributed_tx,
  prepare, commit, abort, recover, state, ask_all, commit_all, set_state, refuse_prepare,
  refuse_commit, refuse_abort, abort_all,
}
use synaptica.Cluster.TwoPhase.Fresh.{Reached, begin_distributed_tx-fresh}
use synaptica.Cluster.TwoPhase.Outcomes.{recover_exact, outcome_final}
use synaptica.Cluster.TwoPhase.Reversal.{abort-commit}

abbrev p1 : Bytes
p1 = codes "p1"

abbrev p2 : Bytes
p2 = codes "p2"

-- The world lists the partitions that committed.
abbrev parts : Participants
parts = record {
  World = List Bytes;
  knows = λ p. bytes_eq p p1 || bytes_eq p p2;
  prepare = λ w p k. (ok true, w);
  commit = λ w p k. if bytes_eq p p1 then (ok tt, p ∷ w) else (err DistributedTxError.timeout, w);
  abort = λ w p k. (ok tt, w);
}

abbrev id : Bytes
id = codes "dtx-1"

abbrev begun : Coordinator parts
begun = (begin_distributed_tx parts (new parts [])).1

abbrev prepared_both : Coordinator parts
prepared_both = (prepare parts begun id (p1 ∷ p2 ∷ [])).1

reached : Reached parts prepared_both
unfolding state begin_distributed_tx get_key
reached =
    Reached.prepares begun id (p1 ∷ p2 ∷ [])
      (Reached.begun (new parts []) (Reached.created []) (omega arith))

recover_exact_example : In id (recover parts prepared_both) ↔ (
    (state parts prepared_both id ≡ some DistributedTxState.preparing)
    ⊎ (state parts prepared_both id ≡ some DistributedTxState.prepared))
recover_exact_example = recover_exact parts prepared_both id reached

is_prepared : state parts prepared_both id ≡ some DistributedTxState.prepared
unfolding state begin_distributed_tx prepare ask_all set_state refuse_prepare get_key put_key
    bytes_eq decimal_from
is_prepared = refl

commit_times_out : (commit parts prepared_both id).0 ≡ err DistributedTxError.timeout
unfolding state begin_distributed_tx prepare ask_all set_state refuse_prepare refuse_commit commit
    commit_all get_key put_key bytes_eq decimal_from
commit_times_out = refl

abort-commit_example :
    ((abort parts (commit parts prepared_both id).1 id).0 ≡ ok tt)
    × (state parts (abort parts (commit parts prepared_both id).1 id).1 id
        ≡ some DistributedTxState.aborted)
    × ((abort parts (commit parts prepared_both id).1 id).1.log
        ≡ prepared_both.log ++ LogEntry.commit id ∷ LogEntry.abort id ∷ [])
abort-commit_example =
    abort-commit parts prepared_both id DistributedTxError.timeout is_prepared commit_times_out

abbrev gone : Coordinator parts
gone = (abort parts prepared_both id).1

is_aborted : state parts gone id ≡ some DistributedTxState.aborted
unfolding state begin_distributed_tx prepare ask_all set_state refuse_prepare abort refuse_abort
    abort_all get_key put_key bytes_eq decimal_from
is_aborted = refl

outcome_final_example :
    (state parts (prepare parts gone id (p1 ∷ [])).1 id ≡ some DistributedTxState.aborted)
    × (state parts (commit parts gone id).1 id ≡ some DistributedTxState.aborted)
    × (state parts (abort parts gone id).1 id ≡ some DistributedTxState.aborted)
outcome_final_example =
    outcome_final parts gone id id (p1 ∷ []) DistributedTxState.aborted (inr refl) is_aborted

begin_distributed_tx-fresh_example :
    state parts prepared_both (begin_distributed_tx parts prepared_both).0 ≡ none
unfolding begin_distributed_tx prepare ask_all set_state refuse_prepare get_key put_key bytes_eq
    decimal_from
begin_distributed_tx-fresh_example =
    begin_distributed_tx-fresh parts prepared_both reached (omega arith)
