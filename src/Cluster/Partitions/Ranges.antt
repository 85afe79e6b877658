-- ===== src/Cluster/Partitions/Ranges.antt =====
-- The partitions of a map do not overlap, and so a key has one partition at most.
use synaptica.Prelude.{
  ◌≡◌, sym, ap, subst, ◌↔◌, inl, inr, true, false, &&-eq_true, none, some, List, [], ◌∷◌, ◌++◌,
  arith, Bytes, lex_le, Bool-cases, Option-cases, find, All, All-append, All-imp, All-In, In, ok,
}
use synaptica.Cluster.Partitions.Order.{lex_le_lt, lex_le_trans, lex_le_total}
use synaptica.Cluster.Partitions.{
  Partition, PartitionMap, overlaps, first_overlap, place, sort_by_start, add_partition, holds,
  find_partition,
}

abbrev pub Disjoint : Partition → Partition → Type 0
Disjoint p q = overlaps p q ≡ false

Disjoint-sym : (p q : Partition) → Disjoint p q → Disjoint q p
unfolding overlaps
Disjoint-sym p q h = ground arith

-- every two of the list, in its order
abbrev pub Pairwise : (Partition → Partition → Type 0) → List Partition → Type 0
Pairwise R [] = Unit
Pairwise R (p ∷ ps) = All (R p) ps × Pairwise R ps

-- A partition that is not in the range of another holds none of its keys.
Disjoint-holds :
    (key : Bytes) (p q : Partition) → Disjoint p q → holds key p ≡ true → holds key q ≡ true → ⊥
unfolding overlaps holds
Disjoint-holds key p q d h k =
    let (a, b) = &&-eq_true (lex_le p.range.start key) _ h in
    let (a', b') = &&-eq_true (lex_le q.range.start key) _ k in
    let x = lex_le_lt p.range.start key q.range.end a b' in
    let y = lex_le_lt q.range.start key p.range.end a' b in absurd (cc (rw (x, y) at d))

module _ (P : Partition → Type 0) where
  All-place : (p : Partition) (xs : List Partition) → P p → All P xs → All P (place p xs)
  unfolding place
  All-place p [] h k = (h, tt)
  All-place p (x ∷ xs) h k = elim (Bool-cases (lex_le p.range.start x.range.start)) [
    | inl e ↦ rw e (h, k)
    | inr e ↦ rw e (k.0, All-place p xs h k.1)
  ]

  All-sort : (xs : List Partition) → All P xs → All P (sort_by_start xs)
  unfolding sort_by_start
  All-sort [] h = tt
  All-sort (x ∷ xs) h = All-place x (sort_by_start xs) h.0 (All-sort xs h.1)

module _ (R : Partition → Partition → Type 0) (flip : (p q : Partition) → R p q → R q p) where
  Pairwise-place :
      (p : Partition) (xs : List Partition) → All (R p) xs → Pairwise R xs → Pairwise R (place p xs)
  unfolding place
  Pairwise-place p [] h k = (tt, tt)
  Pairwise-place p (x ∷ xs) h k = elim (Bool-cases (lex_le p.range.start x.range.start)) [
    | inl e ↦ rw e (h, k)
    | inr e ↦ rw e (All-place (R x) p xs (flip p x h.0) k.0, Pairwise-place p xs h.1 k.1)
  ]

  Pairwise-sort : (xs : List Partition) → Pairwise R xs → Pairwise R (sort_by_start xs)
  unfolding sort_by_start
  Pairwise-sort [] h = tt
  Pairwise-sort (x ∷ xs) h =
      Pairwise-place x (sort_by_start xs) (All-sort (R x) xs h.0) (Pairwise-sort xs h.1)

  Pairwise-push :
      (xs : List Partition) (p : Partition)
      → All (R p) xs
      → Pairwise R xs
      → Pairwise R (xs ++ p ∷ [])
  Pairwise-push [] p h k = (tt, tt)
  Pairwise-push (x ∷ xs) p h k =
      (All-append (R x) xs (p ∷ []) k.0 (flip p x h.0, tt), Pairwise-push xs p h.1 k.1)

abbrev pub Ordered : Partition → Partition → Type 0
Ordered p q = lex_le p.range.start q.range.start ≡ true

Ordered-place :
    (p : Partition) (xs : List Partition) → Pairwise Ordered xs → Pairwise Ordered (place p xs)
unfolding place
Ordered-place p [] k = (tt, tt)
Ordered-place p (x ∷ xs) k = elim (Bool-cases (lex_le p.range.start x.range.start)) [
  | inl e ↦ rw e (
    (
      e,
      All-imp {P = Ordered x} {Q = Ordered p}
          (λ q o. lex_le_trans p.range.start x.range.start q.range.start e o) xs k.0,
    ),
    k,
  )
  | inr e ↦ rw e (
    All-place (Ordered x) p xs (lex_le_total p.range.start x.range.start e) k.0,
    Ordered-place p xs k.1,
  )
]

Ordered-sort : (xs : List Partition) → Pairwise Ordered (sort_by_start xs)
unfolding sort_by_start
Ordered-sort [] = tt
Ordered-sort (x ∷ xs) = Ordered-place x (sort_by_start xs) (Ordered-sort xs)

first_overlap-none :
    (p : Partition) (xs : List Partition) → first_overlap p xs ≡ none → All (Disjoint p) xs
unfolding first_overlap
first_overlap-none p [] h = tt
first_overlap-none p (x ∷ xs) h = elim (Bool-cases (overlaps p x)) [
  | inl e ↦ absurd (cc (rw e at h))
  | inr e ↦ (e, first_overlap-none p xs (rw e at h))
]

-- The invariant of a map: no two partitions overlap, and they stand in the order of their starts.
pub record IsMap (m : PartitionMap) : Type 0 where
  pub disjoint : Pairwise Disjoint m.partitions
  pub ordered : Pairwise Ordered m.partitions

pub added :
    (m m' : PartitionMap) (p : Partition)
    → add_partition m p ≡ ok m'
    → (first_overlap p m.partitions ≡ none)
      × (m'.partitions ≡ sort_by_start (m.partitions ++ p ∷ []))
unfolding add_partition
added m m' p h = elim (Option-cases (first_overlap p m.partitions)) [
  | inr (x, e) ↦ absurd (cc (rw (add_partition, e) at h))
  | inl e ↦ (e, (let q = rw (add_partition, e) at h in ground (arith, q)))
]

-- A successful `add_partition` keeps the partitions of a map from overlapping, and in the order of
-- their starts.
pub add_partition-IsMap :
    (m m' : PartitionMap) (p : Partition) → IsMap m → add_partition m p ≡ ok m' → IsMap m'
add_partition-IsMap m m' p h e =
    let (n, s) = added m m' p e in
    record {
      disjoint = rw s (
          Pairwise-sort Disjoint Disjoint-sym (m.partitions ++ p ∷ []) (
            Pairwise-push Disjoint Disjoint-sym m.partitions p (first_overlap-none p m.partitions n)
              h.disjoint));
      ordered = rw s (Ordered-sort (m.partitions ++ p ∷ []));
    }

find_exact :
    (key : Bytes) (xs : List Partition) (p : Partition)
    → Pairwise Disjoint xs
    → (find (holds key) xs ≡ some p) ↔ (In p xs × (holds key p ≡ true))
find_exact key [] p h = (λ e. absurd (cc e), λ (i, t). absurd i)
find_exact key (x ∷ xs) p h = elim (Bool-cases (holds key x)) [
  | inl e ↦ (
    λ f.
        (let s : x ≡ p = (let g = rw e at f in cc g) in
          (inl (sym s), subst (λ u. holds key u ≡ true) s e)),
    λ (i, t). elim i [
      | inl s ↦ rw e (ap some (sym s))
      | inr i' ↦ absurd (Disjoint-holds key x p (All-In (Disjoint x) p xs h.0 i') e t)
    ],
  )
  | inr e ↦ (
    λ f. (let (i, t) = (find_exact key xs p h.1).0 (rw e at f) in (inr i, t)),
    λ (i, t). elim i [
      | inl s ↦ absurd (cc (e, t, s))
      | inr i' ↦ rw e ((find_exact key xs p h.1).1 (i', t))
    ],
  )
]

-- In a map that keeps the invariant `find_partition` gives a partition exactly if it is one of the
-- map whose range holds the key.
pub find_partition_exact :
    (m : PartitionMap) (key : Bytes) (p : Partition)
    → IsMap m
    → (find_partition m key ≡ some p) ↔ (In p m.partitions × (holds key p ≡ true))
unfolding find_partition
find_partition_exact m key p h = find_exact key m.partitions p h.disjoint
