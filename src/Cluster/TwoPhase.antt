-- ===== src/Cluster/TwoPhase.antt =====
-- crates/synaptica-cluster/src/distributed_tx.rs: the coordinator of the two-phase commit. The calls
-- of one coordinator run one after the other. What the participants keep is their `World`.
pub mod Recovery
pub mod Steps
pub mod Identifiers
pub mod Fresh
pub mod Outcomes
pub mod Reversal
pub mod Examples
use synaptica.Prelude.Decimals.{decimal}
use synaptica.Prelude.{
  ℕ, zero, suc, ◌+◌, ◌*◌, ◌/◌, ◌%◌, ◌^◌, Bool, true, false, Option, none, some, List, [], ◌∷◌, ◌++◌,
  Bytes, ltb, if◌then◌else◌, Result, ok, err, codes, get_key, put_key,
}
use synaptica.Cluster.DecisionLog.{LogEntry, in_doubt_transactions}

pub data DistributedTxState : Type 0 where
  initiated preparing prepared committing committed aborting aborted : DistributedTxState

pub data DistributedTxError : Type 0 where
  participant_failed : Bytes → DistributedTxError
  timeout already_committed already_aborted coordinator_failed : DistributedTxError

-- `ParticipantHandle`, for the map of participants that the coordinator is made with: which
-- partitions it knows, and what each call answers and leaves behind.
pub record Participants : Type 1 where
  pub World : Type 0
  pub knows : Bytes → Bool
  pub prepare : World → Bytes → Bytes → Result DistributedTxError Bool × World
  pub commit : World → Bytes → Bytes → Result DistributedTxError (Unit {0}) × World
  pub abort : World → Bytes → Bytes → Result DistributedTxError (Unit {0}) × World

pub record TxRecord : Type 0 where
  pub state : DistributedTxState
  pub participants : List Bytes

-- `record.state = state` on the record of the map
unfoldable pub set_state :
    Bytes → DistributedTxState → List (Bytes × TxRecord) → List (Bytes × TxRecord)
set_state tx_id state txns = elim (get_key tx_id txns) [
  | some r ↦ put_key tx_id (record r { state = state }) txns
  | none ↦ txns
]

-- the states that a phase does not start from
unfoldable pub refuse_prepare : DistributedTxState → Option DistributedTxError
refuse_prepare DistributedTxState.initiated = none
refuse_prepare DistributedTxState.committed = some DistributedTxError.already_committed
refuse_prepare DistributedTxState.aborted = some DistributedTxError.already_aborted
refuse_prepare DistributedTxState.preparing = some DistributedTxError.coordinator_failed
refuse_prepare DistributedTxState.prepared = some DistributedTxError.coordinator_failed
refuse_prepare DistributedTxState.committing = some DistributedTxError.coordinator_failed
refuse_prepare DistributedTxState.aborting = some DistributedTxError.coordinator_failed

unfoldable pub refuse_commit : DistributedTxState → Option DistributedTxError
refuse_commit DistributedTxState.prepared = none
refuse_commit DistributedTxState.committed = some DistributedTxError.already_committed
refuse_commit DistributedTxState.aborted = some DistributedTxError.already_aborted
refuse_commit DistributedTxState.initiated = some DistributedTxError.coordinator_failed
refuse_commit DistributedTxState.preparing = some DistributedTxError.coordinator_failed
refuse_commit DistributedTxState.committing = some DistributedTxError.coordinator_failed
refuse_commit DistributedTxState.aborting = some DistributedTxError.coordinator_failed

unfoldable pub refuse_abort : DistributedTxState → Option DistributedTxError
refuse_abort DistributedTxState.committed = some DistributedTxError.already_committed
refuse_abort DistributedTxState.aborted = some DistributedTxError.already_aborted
refuse_abort DistributedTxState.initiated = none
refuse_abort DistributedTxState.preparing = none
refuse_abort DistributedTxState.prepared = none
refuse_abort DistributedTxState.committing = none
refuse_abort DistributedTxState.aborting = none

module _ (parts : Participants) where
  pub record Coordinator : Type 0 where
    pub next_id : ℕ
    pub transactions : List (Bytes × TxRecord)
    pub log : List LogEntry
    pub world : parts.World

  abbrev pub new : parts.World → Coordinator
  new world = record { next_id = 1; transactions = []; log = []; world = world }

  unfoldable pub begin_distributed_tx : Coordinator → Bytes × Coordinator
  begin_distributed_tx c =
      let id = codes "dtx-" ++ decimal c.next_id in
      (
        id,
        record c {
          next_id = (c.next_id + 1) % 2 ^ 64;
          transactions =
              put_key id (record { state = DistributedTxState.initiated; participants = [] })
                c.transactions;
        },
      )

  -- the loop over the votes: an error or a NO ends it
  unfoldable pub ask_all :
      Bytes → List Bytes → parts.World → Result DistributedTxError Bool × parts.World
  ask_all tx_id [] w = (ok true, w)
  ask_all tx_id (pid ∷ ids) w = elim (parts.knows pid) [
    | false ↦ (err (DistributedTxError.participant_failed pid), w)
    | true ↦
        let (vote, w') = parts.prepare w pid tx_id in
        elim vote [
          | err e ↦ (err e, w')
          | ok false ↦ (ok false, w')
          | ok true ↦ ask_all tx_id ids w'
        ]
  ]

  unfoldable pub prepare :
      Coordinator → Bytes → List Bytes → Result DistributedTxError Bool × Coordinator
  prepare c tx_id ids = elim (get_key tx_id c.transactions) [
    | none ↦ (err DistributedTxError.coordinator_failed, c)
    | some r ↦ elim (refuse_prepare r.state) [
      | some e ↦ (err e, c)
      | none ↦
          let txns =
            put_key tx_id (record { state = DistributedTxState.preparing; participants = ids })
              c.transactions in
          let (votes, w) = ask_all tx_id ids c.world in
          let log = c.log ++ LogEntry.prepare tx_id ids ∷ [] in
          elim votes [
            | err e ↦ (err e, record c { transactions = txns; log = log; world = w })
            | ok all_yes ↦ (
              ok all_yes,
              record c {
                transactions =
                    set_state tx_id
                      (if all_yes
                        then DistributedTxState.prepared
                        else DistributedTxState.preparing)
                      txns;
                log = log;
                world = w;
              },
            )
          ]
    ]
  ]

  -- the loop over the commits: an error ends it
  unfoldable pub commit_all :
      Bytes → List Bytes → parts.World → Result DistributedTxError (Unit {0}) × parts.World
  commit_all tx_id [] w = (ok tt, w)
  commit_all tx_id (pid ∷ ids) w = elim (parts.knows pid) [
    | false ↦ (err (DistributedTxError.participant_failed pid), w)
    | true ↦
        let (done, w') = parts.commit w pid tx_id in
        elim done [ err e ↦ (err e, w') | ok u ↦ commit_all tx_id ids w' ]
  ]

  unfoldable pub commit : Coordinator → Bytes → Result DistributedTxError (Unit {0}) × Coordinator
  commit c tx_id = elim (get_key tx_id c.transactions) [
    | none ↦ (err DistributedTxError.coordinator_failed, c)
    | some r ↦ elim (refuse_commit r.state) [
      | some e ↦ (err e, c)
      | none ↦
          let txns = set_state tx_id DistributedTxState.committing c.transactions in
          let log = c.log ++ LogEntry.commit tx_id ∷ [] in
          let (done, w) = commit_all tx_id r.participants c.world in
          elim done [
            | err e ↦ (err e, record c { transactions = txns; log = log; world = w })
            | ok u ↦ (
              ok tt,
              record c {
                transactions = set_state tx_id DistributedTxState.committed txns;
                log = log;
                world = w;
              },
            )
          ]
    ]
  ]

  -- Every known participant is told; what it answers is dropped.
  unfoldable pub abort_all : Bytes → List Bytes → parts.World → parts.World
  abort_all tx_id [] w = w
  abort_all tx_id (pid ∷ ids) w =
      abort_all tx_id ids (if parts.knows pid then (parts.abort w pid tx_id).1 else w)

  unfoldable pub abort : Coordinator → Bytes → Result DistributedTxError (Unit {0}) × Coordinator
  abort c tx_id = elim (get_key tx_id c.transactions) [
    | none ↦ (err DistributedTxError.coordinator_failed, c)
    | some r ↦ elim (refuse_abort r.state) [
      | some e ↦ (err e, c)
      | none ↦ (
        ok tt,
        record c {
          transactions =
              set_state tx_id DistributedTxState.aborted
                (set_state tx_id DistributedTxState.aborting c.transactions);
          log = c.log ++ LogEntry.abort tx_id ∷ [];
          world = abort_all tx_id r.participants c.world;
        },
      )
    ]
  ]

  unfoldable pub recover : Coordinator → List Bytes
  recover c = in_doubt_transactions c.log

  unfoldable pub state : Coordinator → Bytes → Option DistributedTxState
  state c tx_id = elim (get_key tx_id c.transactions) [ none ↦ none | some r ↦ some r.state ]
