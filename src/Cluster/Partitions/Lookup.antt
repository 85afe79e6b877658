-- ===== src/Cluster/Partitions/Lookup.antt =====
-- Where the partitions of a map are found after one has been added.
use synaptica.Prelude.{
  ◌≡◌, refl, ◌↔◌, ◌⊎◌, inl, inr, some, List, [], ◌∷◌, ◌++◌, Bytes, lex_le, if◌then◌else◌,
  Bool-cases, Option-cases, In, ok,
}
use synaptica.Cluster.Partitions.{
  Partition, PartitionMap, place, sort_by_start, add_partition, holds, find_partition,
}
use synaptica.Cluster.Partitions.Ranges.{IsMap, added, add_partition-IsMap, find_partition_exact}

In-place : (q p : Partition) (xs : List Partition) → In q (place p xs) ↔ ((q ≡ p) ⊎ In q xs)
unfolding place
In-place q p [] = (λ i. i, λ i. i)
In-place q p (x ∷ xs) = elim (Bool-cases (lex_le p.range.start x.range.start)) [
  | inl e ↦ rw e (λ i. i, λ i. i)
  | inr e ↦ rw e (
    λ i. elim i [
      | inl s ↦ inr (inl s)
      | inr j ↦ elim ((In-place q p xs).0 j) [ inl s ↦ inl s | inr k ↦ inr (inr k) ]
    ],
    λ i. elim i [
      | inl s ↦ inr ((In-place q p xs).1 (inl s))
      | inr (inl s) ↦ inl s
      | inr (inr k) ↦ inr ((In-place q p xs).1 (inr k))
    ],
  )
]

In-sort : (q : Partition) (xs : List Partition) → In q (sort_by_start xs) ↔ In q xs
unfolding sort_by_start
In-sort q [] = (λ i. i, λ i. i)
In-sort q (x ∷ xs) =
    let (to, from) = In-place q x (sort_by_start xs) in
    let (to', from') = In-sort q xs in
    (
      λ i. elim (to i) [ inl s ↦ inl s | inr j ↦ inr (to' j) ],
      λ i. from (elim i [ inl s ↦ inl s | inr j ↦ inr (from' j) ]),
    )

In-push : (q p : Partition) (xs : List Partition) → In q (xs ++ p ∷ []) ↔ ((q ≡ p) ⊎ In q xs)
In-push q p [] = (λ i. i, λ i. i)
In-push q p (x ∷ xs) =
    let (to, from) = In-push q p xs in
    (
      λ i. elim i [
        | inl s ↦ inr (inl s)
        | inr j ↦ elim (to j) [ inl s ↦ inl s | inr k ↦ inr (inr k) ]
      ],
      λ i. elim i [
        | inl s ↦ inr (from (inl s))
        | inr (inl s) ↦ inl s
        | inr (inr k) ↦ inr (from (inr k))
      ],
    )

module _ (m m' : PartitionMap) (p : Partition) (h : IsMap m) (e : add_partition m p ≡ ok m') where
  In-added : (q : Partition) → In q m'.partitions ↔ ((q ≡ p) ⊎ In q m.partitions)
  In-added q =
      let (n, s) = added m m' p e in
      let sorted = In-sort q (m.partitions ++ p ∷ []) in
      let pushed = In-push q p m.partitions in
      rw s (λ i. pushed.0 (sorted.0 i), λ i. sorted.1 (pushed.1 i))

  -- After a partition has been added to a map that keeps the invariant, a key in its range is found there, and every other key where it
  -- was found before.
  pub find_partition-add_partition :
      (key : Bytes) → find_partition m' key ≡ (if holds key p then some p else find_partition m key)
  find_partition-add_partition key =
      let h' = add_partition-IsMap m m' p h e in
      let new = λ (q : Partition). find_partition_exact m' key q h' in
      let old = λ (q : Partition). find_partition_exact m key q h in
      elim (Bool-cases (holds key p)) [
        | inl t ↦ rw t ((new p).1 ((In-added p).1 (inl refl), t))
        | inr f ↦ elim (Option-cases (find_partition m key)) [
          | inr (q, g) ↦
              (let (i, t) = (old q).0 g in rw (f, g) ((new q).1 ((In-added q).1 (inr i), t)))
          | inl g ↦ elim (Option-cases (find_partition m' key)) [
            | inl g' ↦ rw (f, g) g'
            | inr (q, g') ↦
                (let (i, t) = (new q).0 g' in
                  elim ((In-added q).0 i) [
                    | inl s ↦ absurd (cc (t, f, s))
                    | inr j ↦ (let o = (old q).1 (j, t) in absurd (cc (o, g)))
                  ])
          ]
        ]
      ]
