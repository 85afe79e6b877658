-- ===== src/Cluster/TwoPhase/Steps.antt =====
-- Each call of the coordinator as a step of the protocol's state machine.
use synaptica.Prelude.{
  ◌≡◌, refl, ap, ◌∙◌, ◌⊎◌, inl, inr, true, false, none, some, List, [], ◌∷◌, ◌++◌, arith, Bytes,
  bytes_eq, bytes_eq_refl, get_key, put_key, if◌then◌else◌, Bool-cases, Option-cases, Result-cases,
}
use synaptica.Cluster.TwoPhase.{
  DistributedTxState, TxRecord, set_state, Participants, Coordinator, refuse_prepare, refuse_commit,
  refuse_abort, prepare, commit, abort, ask_all, commit_all,
}
use synaptica.Cluster.DecisionLog.{LogEntry}
use synaptica.Cluster.TwoPhase.Recovery.{
  state_in, state_in-put_key, state_in-set_state, get_key-set_state,
}
use synaptica.Prelude.{get_key-put_key}

-- The moves of a transaction `k`: its state before, what is logged, its state after
pub data Advance (k : Bytes) : DistributedTxState → LogEntry → DistributedTxState → Type 0 where
  all_vote_yes :
      (ids : List Bytes)
      → Advance k DistributedTxState.initiated (LogEntry.prepare k ids) DistributedTxState.prepared
  not_prepared :
      (ids : List Bytes)
      → Advance k DistributedTxState.initiated (LogEntry.prepare k ids) DistributedTxState.preparing
  all_commit :
      Advance k DistributedTxState.prepared (LogEntry.commit k) DistributedTxState.committed
  commit_stops :
      Advance k DistributedTxState.prepared (LogEntry.commit k) DistributedTxState.committing
  all_told :
      (s : DistributedTxState)
      → refuse_abort s ≡ none
      → Advance k s (LogEntry.abort k) DistributedTxState.aborted

abbrev pub Moved :
    Bytes → DistributedTxState → List (Bytes × TxRecord) → List (Bytes × TxRecord) → Type 0
Moved k s txns txns' =
    (j : Bytes) → state_in txns' j ≡ (if bytes_eq k j then some s else state_in txns j)

Moved-twice :
    (k : Bytes) (s t : DistributedTxState) (a b c : List (Bytes × TxRecord))
    → Moved k s a b
    → Moved k t b c
    → Moved k t a c
Moved-twice k s t a b c f g j = elim (Bool-cases (bytes_eq k j)) [
  | inl e ↦ rw (g j, e)
  | inr e ↦ rw (g j, e, f j, e)
]

initiated_of : (s : DistributedTxState) → refuse_prepare s ≡ none → s ≡ DistributedTxState.initiated
unfolding refuse_prepare
initiated_of s h = ground arith

prepared_of : (s : DistributedTxState) → refuse_commit s ≡ none → s ≡ DistributedTxState.prepared
unfolding refuse_commit
prepared_of s h = ground arith

state_of :
    (k : Bytes) (r : TxRecord) (txns : List (Bytes × TxRecord))
    → get_key k txns ≡ some r
    → state_in txns k ≡ some r.state
unfolding state_in
state_of k r txns h = rw (state_in, h)

module _ (parts : Participants) where
  -- A call on transaction `k` leaves the transactions and the log as they were, or makes one move of
  -- that transaction and logs one entry; no other transaction changes its state.
  pub record Moves (k : Bytes) (c c' : Coordinator parts) : Type 0 where
    pub before : DistributedTxState
    pub after : DistributedTxState
    pub entry : LogEntry
    pub was : state_in c.transactions k ≡ some before
    pub advance : Advance k before entry after
    pub moved : Moved k after c.transactions c'.transactions
    pub logged : c'.log ≡ c.log ++ entry ∷ []
    pub counted : c'.next_id ≡ c.next_id

  abbrev pub Unmoved : Coordinator parts → Coordinator parts → Type 0
  Unmoved c c' = (c'.transactions ≡ c.transactions) × ((c'.log ≡ c.log) × (c'.next_id ≡ c.next_id))

  abbrev pub Effect : Bytes → Coordinator parts → Coordinator parts → Type 0
  Effect k c c' = Unmoved c c' ⊎ Moves k c c'

  pub abort-Effect : (c : Coordinator parts) (k : Bytes) → Effect k c (abort parts c k).1
  unfolding abort
  abort-Effect c k = elim (Option-cases (get_key k c.transactions)) [
    | inl n ↦ inl (rw (abort, n) (refl, (refl, refl)))
    | inr (r, g) ↦ elim (Option-cases (refuse_abort r.state)) [
      | inr (x, f) ↦ inl (rw (abort, g, f) (refl, (refl, refl)))
      | inl f ↦
          let s = DistributedTxState.aborting in
          let txns = set_state k s c.transactions in
          let t = DistributedTxState.aborted in
          inr (
            rw (abort, g, f)
              (record {
                before = r.state;
                after = t;
                entry = LogEntry.abort k;
                was = state_of k r c.transactions g;
                advance = all_told r.state f;
                moved =
                    Moved-twice k s t c.transactions txns _
                      (λ j. state_in-set_state k j s r c.transactions g)
                      (λ j.
                        state_in-set_state k j t (record r { state = s }) txns
                          (get_key-set_state k s r c.transactions g));
                logged = refl;
                counted = refl;
              }))
    ]
  ]

  pub commit-Effect : (c : Coordinator parts) (k : Bytes) → Effect k c (commit parts c k).1
  unfolding commit
  commit-Effect c k = elim (Option-cases (get_key k c.transactions)) [
    | inl n ↦ inl (rw (commit, n) (refl, (refl, refl)))
    | inr (r, g) ↦ elim (Option-cases (refuse_commit r.state)) [
      | inr (x, f) ↦ inl (rw (commit, g, f) (refl, (refl, refl)))
      | inl f ↦
          let s = DistributedTxState.committing in
          let txns = set_state k s c.transactions in
          let t = DistributedTxState.committed in
          let was = state_of k r c.transactions g ∙ ap some (prepared_of r.state f) in
          let first : Moved k s c.transactions txns =
            λ j. state_in-set_state k j s r c.transactions g in
          elim (Result-cases (commit_all parts k r.participants c.world).0) [
            | inr (x, e) ↦ inr (
                rw (commit, g, f, e)
                  (record {
                    before = DistributedTxState.prepared;
                    after = s;
                    entry = LogEntry.commit k;
                    was = was;
                    advance = commit_stops;
                    moved = first;
                    logged = refl;
                    counted = refl;
                  }))
            | inl (u, e) ↦ inr (
                rw (commit, g, f, e)
                  (record {
                    before = DistributedTxState.prepared;
                    after = t;
                    entry = LogEntry.commit k;
                    was = was;
                    advance = all_commit;
                    moved = Moved-twice k s t c.transactions txns _ first (λ j.
                        state_in-set_state k j t (record r { state = s }) txns
                          (get_key-set_state k s r c.transactions g));
                    logged = refl;
                    counted = refl;
                  }))
          ]
    ]
  ]

  pub prepare-Effect :
      (c : Coordinator parts) (k : Bytes) (ids : List Bytes) → Effect k c (prepare parts c k ids).1
  unfolding prepare
  prepare-Effect c k ids = elim (Option-cases (get_key k c.transactions)) [
    | inl n ↦ inl (rw (prepare, n) (refl, (refl, refl)))
    | inr (r, g) ↦ elim (Option-cases (refuse_prepare r.state)) [
      | inr (x, f) ↦ inl (rw (prepare, g, f) (refl, (refl, refl)))
      | inl f ↦
          let s = DistributedTxState.preparing in
          let r' : TxRecord = record { state = s; participants = ids } in
          let txns = put_key k r' c.transactions in
          let was = state_of k r c.transactions g ∙ ap some (initiated_of r.state f) in
          let first : Moved k s c.transactions txns = λ j. state_in-put_key k j r' c.transactions in
          let held : get_key k txns ≡ some r' =
            get_key-put_key k k r' c.transactions ∙ rw (bytes_eq_refl k) in
          let again = λ (t : DistributedTxState).
            Moved-twice k s t c.transactions txns (set_state k t txns) first
              (λ j. state_in-set_state k j t r' txns held) in
          elim (Result-cases (ask_all parts k ids c.world).0) [
            | inr (x, e) ↦ inr (
                rw (prepare, g, f, e)
                  (record {
                    before = DistributedTxState.initiated;
                    after = s;
                    entry = LogEntry.prepare k ids;
                    was = was;
                    advance = not_prepared ids;
                    moved = first;
                    logged = refl;
                    counted = refl;
                  }))
            | inl (true, e) ↦ inr (
                rw (prepare, g, f, e)
                  (record {
                    before = DistributedTxState.initiated;
                    after = DistributedTxState.prepared;
                    entry = LogEntry.prepare k ids;
                    was = was;
                    advance = all_vote_yes ids;
                    moved = again DistributedTxState.prepared;
                    logged = refl;
                    counted = refl;
                  }))
            | inl (false, e) ↦ inr (
                rw (prepare, g, f, e)
                  (record {
                    before = DistributedTxState.initiated;
                    after = s;
                    entry = LogEntry.prepare k ids;
                    was = was;
                    advance = not_prepared ids;
                    moved = again s;
                    logged = refl;
                    counted = refl;
                  }))
          ]
    ]
  ]
