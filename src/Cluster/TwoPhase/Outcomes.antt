-- ===== src/Cluster/TwoPhase/Outcomes.antt =====
-- What every sequence of calls of a coordinator keeps, from its creation on.
use synaptica.Prelude.{
  arith, ◌≡◌, refl, sym, ap, ◌∙◌, subst, ◌↔◌, ◌⊎◌, inl, inr, Bool, true, Option, none, some, List,
  [], Bytes, bytes_eq, bytes_eq_sound, get_key, if◌then◌else◌, Bool-cases, In,
}
use synaptica.Cluster.TwoPhase.{
  DistributedTxState, Participants, Coordinator, begin_distributed_tx, prepare, commit, abort,
  recover, state, refuse_abort,
}
use synaptica.Cluster.DecisionLog.{LogEntry, note_entry, note_entries}
use synaptica.Cluster.TwoPhase.Recovery.{
  mark_of, state_in, state_in-put_key, note_entries-append, mark_prepare, mark_commit, mark_abort,
  In-doubt-note_entries,
}
use synaptica.Cluster.TwoPhase.Steps.{
  Advance, all_vote_yes, not_prepared, all_commit, commit_stops, all_told, Effect, prepare-Effect,
  commit-Effect, abort-Effect,
}
use synaptica.Cluster.TwoPhase.Fresh.{
  Reached, created, begun, prepares, commits, aborts, begin_distributed_tx-fresh,
}

module _ (parts : Participants) where
  -- the log agrees with the states
  abbrev pub Agrees : Coordinator parts → Type 0
  Agrees c = (j : Bytes) → get_key j (note_entries c.log []) ≡ mark_of (state_in c.transactions j)

  marks :
      (k j : Bytes) (s t : DistributedTxState) (e : LogEntry) (m : List (Bytes × Bool))
      → Advance k s e t
      → get_key k m ≡ mark_of (some s)
      → get_key j (note_entry e m) ≡ (if bytes_eq k j then mark_of (some t) else get_key j m)
  unfolding mark_of
  marks k j s t e m (all_vote_yes ids) h = mark_prepare k j ids m h
  marks k j s t e m (not_prepared ids) h = mark_prepare k j ids m h
  marks k j s t e m all_commit h = mark_commit k j m
  marks k j s t e m commit_stops h = mark_commit k j m
  marks k j s t e m (all_told s' f) h = mark_abort k j m

  Effect-Agrees :
      (k : Bytes) (c c' : Coordinator parts) → Effect parts k c c' → Agrees c → Agrees c'
  unfolding note_entries mark_of
  Effect-Agrees k c c' (inl (t, (l, n))) h j = rw (t, l) (h j)
  Effect-Agrees k c c' (inr m) h j =
      let before = h k ∙ ap mark_of m.was in
      let noted = marks k j m.before m.after m.entry (note_entries c.log []) m.advance before in
      elim (Bool-cases (bytes_eq k j)) [
        | inl e ↦ rw (m.logged, note_entries-append, m.moved j, e) (noted ∙ rw e)
        | inr e ↦ rw (m.logged, note_entries-append, m.moved j, e) (noted ∙ rw e (h j))
      ]

  Reached-Agrees : (c : Coordinator parts) → Reached parts c → Agrees c
  unfolding begin_distributed_tx note_entries get_key mark_of state state_in
  Reached-Agrees c (created w) j = refl
  Reached-Agrees c' (begun c r more) j =
      let fresh = begin_distributed_tx-fresh parts c r more in
      let k = (begin_distributed_tx parts c).0 in
      let old = Reached-Agrees c r j in
      let start =
        state_in-put_key k j (record { state = DistributedTxState.initiated; participants = [] })
          c.transactions in
      elim (Bool-cases (bytes_eq k j)) [
        | inl e ↦
            (let same = bytes_eq_sound k j e in
              let gone : state_in c.transactions j ≡ none =
                subst (λ u. state_in c.transactions u ≡ none) same fresh in
              let now : state_in (begin_distributed_tx parts c).1.transactions j
                  ≡ some DistributedTxState.initiated =
                start ∙ rw e in
              old ∙ ap mark_of gone ∙ sym (ap mark_of now))
        | inr e ↦
            let kept : state_in (begin_distributed_tx parts c).1.transactions j
                ≡ state_in c.transactions j =
              start ∙ rw e in
            old ∙ sym (ap mark_of kept)
      ]
  Reached-Agrees c' (prepares c k ids r) j =
      Effect-Agrees k c _ (prepare-Effect parts c k ids) (Reached-Agrees c r) j
  Reached-Agrees c' (commits c k r) j =
      Effect-Agrees k c _ (commit-Effect parts c k) (Reached-Agrees c r) j
  Reached-Agrees c' (aborts c k r) j =
      Effect-Agrees k c _ (abort-Effect parts c k) (Reached-Agrees c r) j

  mark_in_doubt :
      (o : Option DistributedTxState)
      → (mark_of o ≡ some true)
        ↔ ((o ≡ some DistributedTxState.preparing) ⊎ (o ≡ some DistributedTxState.prepared))
  unfolding mark_of
  mark_in_doubt none = (λ h. absurd (cc h), λ h. ground arith)
  mark_in_doubt (some s) = (λ h. ground arith, λ h. ground arith)

  -- After any calls, without the counter of identifiers wrapping around, `recover` gives exactly
  -- the transactions in the states `Preparing` and `Prepared`.
  pub recover_exact :
      (c : Coordinator parts) (k : Bytes)
      → Reached parts c
      → In k (recover parts c) ↔ (
          (state parts c k ≡ some DistributedTxState.preparing)
          ⊎ (state parts c k ≡ some DistributedTxState.prepared))
  unfolding recover state state_in
  recover_exact c k r =
      let (to, from) = In-doubt-note_entries k c.log in
      let (forth, back) = mark_in_doubt (state_in c.transactions k) in
      let a = Reached-Agrees c r k in (λ i. forth (sym a ∙ to i), λ h. from (a ∙ back h))

  -- the two ends of a transaction
  abbrev pub IsFinal : DistributedTxState → Type 0
  IsFinal s = (s ≡ DistributedTxState.committed) ⊎ (s ≡ DistributedTxState.aborted)

  Advance-not_final :
      (k : Bytes) (s t : DistributedTxState) (e : LogEntry) → Advance k s e t → IsFinal s → ⊥
  unfolding refuse_abort
  Advance-not_final k s t e (all_told s' f) h = ground arith
  Advance-not_final k s t e (all_vote_yes ids) h = ground arith
  Advance-not_final k s t e (not_prepared ids) h = ground arith
  Advance-not_final k s t e all_commit h = ground arith
  Advance-not_final k s t e commit_stops h = ground arith

  final_kept :
      (k j : Bytes) (c c' : Coordinator parts) (s : DistributedTxState)
      → Effect parts k c c'
      → IsFinal s
      → state parts c j ≡ some s
      → state parts c' j ≡ some s
  unfolding state state_in
  final_kept k j c c' s (inl (t, (l, n))) f h = rw t h
  final_kept k j c c' s (inr m) f h = elim (Bool-cases (bytes_eq k j)) [
    | inr e ↦ m.moved j ∙ (rw e h)
    | inl e ↦
        let same = bytes_eq_sound k j e in
        let at_j : state_in c.transactions k ≡ some s =
          subst (λ u. state_in c.transactions u ≡ some s) (sym same) h in
        let w : some m.before ≡ some s = sym m.was ∙ at_j in
        let b : m.before ≡ s = ground arith in
        absurd (Advance-not_final k m.before m.after m.entry m.advance (subst IsFinal (sym b) f))
  ]

  -- A transaction that is committed or aborted stays so, whatever call of `prepare`, `commit` or
  -- `abort` is made for it or for another one.
  pub outcome_final :
      (c : Coordinator parts) (j k : Bytes) (ids : List Bytes) (s : DistributedTxState)
      → IsFinal s
      → state parts c j ≡ some s
      → (state parts (prepare parts c k ids).1 j ≡ some s)
        × (state parts (commit parts c k).1 j ≡ some s)
        × (state parts (abort parts c k).1 j ≡ some s)
  outcome_final c j k ids s f h = (
    final_kept k j c _ s (prepare-Effect parts c k ids) f h,
    final_kept k j c _ s (commit-Effect parts c k) f h,
    final_kept k j c _ s (abort-Effect parts c k) f h,
  )
