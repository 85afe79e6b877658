-- ===== src/Cluster/TwoPhase/Recovery.antt =====
-- The log against the states: what `in_doubt_transactions` reads from the log of a coordinator.
use synaptica.Prelude.{
  ◌≡◌, refl, sym, ◌∙◌, subst, ◌↔◌, ◌⊎◌, inl, inr, Bool, true, false, Option, none, some, List, [],
  ◌∷◌, ◌++◌, arith, Bytes, bytes_eq, bytes_eq_sound, bytes_eq_refl, bytes_eq_flip, get_key, put_key,
  get_key-put_key, if◌then◌else◌, Bool-cases, Option-cases, In,
}
use synaptica.Cluster.TwoPhase.{DistributedTxState, TxRecord, set_state}
use synaptica.Cluster.DecisionLog.{
  LogEntry, note_entry, note_entries, marked, in_doubt_transactions,
}

-- The mark that a transaction's state leaves in the map of `in_doubt_transactions`
unfoldable pub mark_of : Option DistributedTxState → Option Bool
mark_of none = none
mark_of (some DistributedTxState.initiated) = none
mark_of (some DistributedTxState.preparing) = some true
mark_of (some DistributedTxState.prepared) = some true
mark_of (some DistributedTxState.committing) = some false
mark_of (some DistributedTxState.committed) = some false
mark_of (some DistributedTxState.aborting) = some false
mark_of (some DistributedTxState.aborted) = some false

unfoldable pub state_in : List (Bytes × TxRecord) → Bytes → Option DistributedTxState
state_in txns tx_id = elim (get_key tx_id txns) [ none ↦ none | some r ↦ some r.state ]

pub note_entries-append :
    (es fs : List LogEntry) (m : List (Bytes × Bool))
    → note_entries (es ++ fs) m ≡ note_entries fs (note_entries es m)
unfolding note_entries
note_entries-append [] fs m = refl
note_entries-append (e ∷ es) fs m = note_entries-append es fs (note_entry e m)

-- what putting a record, or a new state in a record, does to the state of every transaction
pub state_in-put_key :
    (k j : Bytes) (r : TxRecord) (txns : List (Bytes × TxRecord))
    → state_in (put_key k r txns) j ≡ (if bytes_eq k j then some r.state else state_in txns j)
unfolding state_in
state_in-put_key k j r txns = elim (Bool-cases (bytes_eq k j)) [
  | inl e ↦ rw (state_in, get_key-put_key k j r txns, e)
  | inr e ↦ rw (state_in, get_key-put_key k j r txns, e)
]

pub state_in-set_state :
    (k j : Bytes) (s : DistributedTxState) (r : TxRecord) (txns : List (Bytes × TxRecord))
    → get_key k txns ≡ some r
    → state_in (set_state k s txns) j ≡ (if bytes_eq k j then some s else state_in txns j)
unfolding set_state
state_in-set_state k j s r txns h =
    rw (set_state, h) (state_in-put_key k j (record r { state = s }) txns)

pub get_key-set_state :
    (k : Bytes) (s : DistributedTxState) (r : TxRecord) (txns : List (Bytes × TxRecord))
    → get_key k txns ≡ some r
    → get_key k (set_state k s txns) ≡ some (record r { state = s })
unfolding set_state
get_key-set_state k s r txns h =
    rw (set_state, h) (get_key-put_key k k (record r { state = s }) txns ∙ rw (bytes_eq_refl k))

-- what logging an entry does to the mark of every transaction
pub mark_prepare :
    (k j : Bytes) (ids : List Bytes) (m : List (Bytes × Bool))
    → get_key k m ≡ none
    → get_key j (note_entry (LogEntry.prepare k ids) m)
      ≡ (if bytes_eq k j then some true else get_key j m)
unfolding note_entry
mark_prepare k j ids m h = rw (note_entry, h) (get_key-put_key k j true m)

pub mark_commit :
    (k j : Bytes) (m : List (Bytes × Bool))
    → get_key j (note_entry (LogEntry.commit k) m)
      ≡ (if bytes_eq k j then some false else get_key j m)
unfolding note_entry
mark_commit k j m = get_key-put_key k j false m

pub mark_abort :
    (k j : Bytes) (m : List (Bytes × Bool))
    → get_key j (note_entry (LogEntry.abort k) m)
      ≡ (if bytes_eq k j then some false else get_key j m)
unfolding note_entry
mark_abort k j m = get_key-put_key k j false m

-- No identifier stands twice in the map.
unfoldable pub Apart : List (Bytes × Bool) → Type 0
Apart [] = Unit
Apart ((k, v) ∷ t) = (get_key k t ≡ none) × Apart t

put_key-Apart : (k : Bytes) (v : Bool) (t : List (Bytes × Bool)) → Apart t → Apart (put_key k v t)
unfolding Apart put_key get_key
put_key-Apart k v [] h = (refl, tt)
put_key-Apart k v ((j, w) ∷ t) h = elim (Bool-cases (bytes_eq j k)) [
  | inl e ↦ rw e h
  | inr e ↦ rw e (get_key-put_key k j v t ∙ rw (bytes_eq_flip j k e) h.0, put_key-Apart k v t h.1)
]

note_entry-Apart : (e : LogEntry) (m : List (Bytes × Bool)) → Apart m → Apart (note_entry e m)
unfolding note_entry
note_entry-Apart (LogEntry.commit k) m h = put_key-Apart k false m h
note_entry-Apart (LogEntry.abort k) m h = put_key-Apart k false m h
note_entry-Apart (LogEntry.prepare k ids) m h = elim (Option-cases (get_key k m)) [
  | inr (b, e) ↦ rw (e, note_entry) h
  | inl e ↦ rw (e, note_entry) (put_key-Apart k true m h)
]

note_entries-Apart :
    (es : List LogEntry) (m : List (Bytes × Bool)) → Apart m → Apart (note_entries es m)
unfolding note_entries
note_entries-Apart [] m h = h
note_entries-Apart (e ∷ es) m h = note_entries-Apart es (note_entry e m) (note_entry-Apart e m h)

In-marked_present : (k : Bytes) (t : List (Bytes × Bool)) → In k (marked t) → get_key k t ≡ none → ⊥
unfolding marked get_key
In-marked_present k [] i h = i
In-marked_present k ((j, b) ∷ t) i h = elim (Bool-cases (bytes_eq j k)) [
  | inl e ↦ absurd (ground (arith, e))
  | inr e ↦ elim (Bool-cases b) [
    | inr f ↦ In-marked_present k t (rw f at i) (rw e at h)
    | inl f ↦
        let i' : (k ≡ j) ⊎ In k (marked t) = (rw f at i) in
        elim i' [
          | inl s ↦ absurd (cc (e, s, bytes_eq_refl k))
          | inr i'' ↦ In-marked_present k t i'' (rw e at h)
        ]
  ]
]

pub marked_exact :
    (k : Bytes) (t : List (Bytes × Bool)) → Apart t → In k (marked t) ↔ (get_key k t ≡ some true)
unfolding Apart marked get_key
marked_exact k [] h = (λ i. absurd i, λ e. absurd (cc e))
marked_exact k ((j, true) ∷ t) h = elim (Bool-cases (bytes_eq j k)) [
  | inl e ↦ (λ i. rw e, λ g. inl (sym (bytes_eq_sound j k e)))
  | inr e ↦ (
    λ i. elim i [
      | inl s ↦ absurd (cc (e, s, bytes_eq_refl k))
      | inr i' ↦ rw e ((marked_exact k t h.1).0 i')
    ],
    λ g. inr ((marked_exact k t h.1).1 (rw e at g)),
  )
]
marked_exact k ((j, false) ∷ t) h = elim (Bool-cases (bytes_eq j k)) [
  | inl e ↦ (
    λ i.
        (let p = bytes_eq_sound j k e in
          absurd (In-marked_present k t i (subst (λ u. get_key u t ≡ none) p h.0))),
    λ g. absurd (cc (rw e at g)),
  )
  | inr e ↦ (λ i. rw e ((marked_exact k t h.1).0 i), λ g. (marked_exact k t h.1).1 (rw e at g))
]

-- `in_doubt_transactions` gives exactly the transactions that the entries, read in order, leave
-- marked.
pub In-doubt-note_entries :
    (k : Bytes) (es : List LogEntry)
    → In k (in_doubt_transactions es) ↔ (get_key k (note_entries es []) ≡ some true)
unfolding in_doubt_transactions Apart
In-doubt-note_entries k es = marked_exact k (note_entries es []) (note_entries-Apart es [] tt)
