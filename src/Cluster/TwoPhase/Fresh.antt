-- ===== src/Cluster/TwoPhase/Fresh.antt =====
-- The coordinators that calls lead to, and the identifiers that they issue.
use synaptica.Prelude.{
  ℕ, ◌+◌, ◌^◌, ◌<◌, arith, ◌≡◌, refl, sym, ◌∙◌, subst, ◌⊎◌, inl, inr, none, some, List, [], Bytes,
  bytes_eq, bytes_eq_sound, get_key, Bool-cases,
}
use synaptica.Cluster.TwoPhase.{
  DistributedTxState, Participants, Coordinator, new, begin_distributed_tx, prepare, commit, abort,
  state,
}
use native.Mathlib.Nat.{mod-eq_of_lt}
use synaptica.Cluster.TwoPhase.Identifiers.{id_of, id_of-eq}
use synaptica.Cluster.TwoPhase.Recovery.{state_in, state_in-put_key}
use synaptica.Cluster.TwoPhase.Steps.{Effect, prepare-Effect, commit-Effect, abort-Effect}

module _ (parts : Participants) where
  -- The coordinators that calls make of a new one. The counter of identifiers does not
  -- wrap around.
  pub data Reached : Coordinator parts → Type 0 where
    created : (w : parts.World) → Reached (new parts w)
    begun :
        (c : Coordinator parts)
        → Reached c
        → c.next_id + 1 < 2 ^ 64
        → Reached (begin_distributed_tx parts c).1
    prepares :
        (c : Coordinator parts) (k : Bytes) (ids : List Bytes)
        → Reached c
        → Reached (prepare parts c k ids).1
    commits : (c : Coordinator parts) (k : Bytes) → Reached c → Reached (commit parts c k).1
    aborts : (c : Coordinator parts) (k : Bytes) → Reached c → Reached (abort parts c k).1

  -- A transaction that has a state has one of the identifiers issued so far.
  abbrev pub Issued : Coordinator parts → Type 0
  Issued c =
      (j : Bytes) → (state_in c.transactions j ≡ none) ⊎ ((n : ℕ) × (n < c.next_id) × (j ≡ id_of n))

  Effect-Issued :
      (k : Bytes) (c c' : Coordinator parts) → Effect parts k c c' → Issued c → Issued c'
  Effect-Issued k c c' (inl (t, (l, n))) h j = rw (t, n) (h j)
  Effect-Issued k c c' (inr m) h j = elim (Bool-cases (bytes_eq k j)) [
    | inr e ↦ rw (m.moved j, e, m.counted) (h j)
    | inl e ↦
        let same = bytes_eq_sound k j e in
        let was : state_in c.transactions j ≡ some m.before =
          subst (λ u. state_in c.transactions u ≡ some m.before) same m.was in
        elim (h j) [ inl none_there ↦ absurd (cc (was, none_there)) | inr w ↦ inr (rw m.counted w) ]
  ]

  next_id-begin :
      (c : Coordinator parts)
      → c.next_id + 1 < 2 ^ 64
      → (begin_distributed_tx parts c).1.next_id ≡ c.next_id + 1
  unfolding begin_distributed_tx
  next_id-begin c h = mod-eq_of_lt h

  Reached-Issued : (c : Coordinator parts) → Reached c → Issued c
  unfolding begin_distributed_tx get_key state_in
  Reached-Issued c (created w) j = inl refl
  Reached-Issued c' (begun c r more) j =
      let k = (begin_distributed_tx parts c).0 in
      let up = next_id-begin c more in
      let start =
        state_in-put_key k j (record { state = DistributedTxState.initiated; participants = [] })
          c.transactions in
      elim (Bool-cases (bytes_eq k j)) [
        | inl e ↦ inr (c.next_id, omega (arith, up), sym (bytes_eq_sound k j e))
        | inr e ↦ elim (Reached-Issued c r j) [
          | inl z ↦
              (let kept : state_in (begin_distributed_tx parts c).1.transactions j
                    ≡ state_in c.transactions j =
                  start ∙ rw e in
                inl (kept ∙ z))
          | inr (n, lt, q) ↦ inr (n, omega (arith, up, lt), q)
        ]
      ]
  Reached-Issued c' (prepares c k ids r) j =
      Effect-Issued k c _ (prepare-Effect parts c k ids) (Reached-Issued c r) j
  Reached-Issued c' (commits c k r) j =
      Effect-Issued k c _ (commit-Effect parts c k) (Reached-Issued c r) j
  Reached-Issued c' (aborts c k r) j =
      Effect-Issued k c _ (abort-Effect parts c k) (Reached-Issued c r) j

  -- After any calls, without the counter of identifiers wrapping around, the identifier that
  -- `begin_distributed_tx` gives is that of no transaction so far.
  pub begin_distributed_tx-fresh :
      (c : Coordinator parts)
      → Reached c
      → c.next_id + 1 < 2 ^ 64
      → state parts c (begin_distributed_tx parts c).0 ≡ none
  unfolding begin_distributed_tx state state_in
  begin_distributed_tx-fresh c r more = elim (Reached-Issued c r (id_of c.next_id)) [
    | inl z ↦ z
    | inr (n, lt, e) ↦
        (let same = id_of-eq c.next_id n (omega arith) (omega (arith, lt)) e in
          absurd (omega (arith, lt, same)))
  ]
