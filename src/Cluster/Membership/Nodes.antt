-- ===== src/Cluster/Membership/Nodes.antt =====
-- What each change of the membership does to the lookup of every node.
use synaptica.Prelude.{
  ℕ, ◌≡◌, refl, sym, ap, ◌∙◌, subst, inl, inr, true, false, not, none, some, List, [], ◌∷◌, ◌++◌,
  Bytes, bytes_eq, bytes_eq_sound, bytes_eq_flip, any, find, retain, if◌then◌else◌, Bool-cases,
  Option-cases,
}
use synaptica.Cluster.Membership.{
  ClusterNode, ClusterMembership, is_id, add_node, remove_node, get_node, update_first, mark_dead,
  mark_alive,
}

-- Two identifiers are compared with a third one as they are equal or not.
same_id : (a b c : Bytes) → bytes_eq a b ≡ true → bytes_eq a c ≡ bytes_eq b c
same_id a b c h = (let s = bytes_eq_sound a b h in ap (λ u. bytes_eq u c) s)

find-retain :
    (id j : Bytes) (ns : List ClusterNode)
    → find (is_id j) (retain (λ n. not (is_id id n)) ns)
      ≡ (if bytes_eq id j then none else find (is_id j) ns)
find-retain id j [] = elim (Bool-cases (bytes_eq id j)) [ inl e ↦ rw e refl | inr e ↦ rw e refl ]
find-retain id j (n ∷ ns) =
    let rest = find-retain id j ns in
    elim (Bool-cases (bytes_eq n.id id)) [
      | inl e ↦ elim (Bool-cases (bytes_eq id j)) [
        | inl f ↦ rw (e, f) (rest ∙ rw f refl)
        | inr f ↦ (let g = same_id n.id id j e in rw (e, f, g, f) (rest ∙ rw f refl))
      ]
      | inr e ↦ elim (Bool-cases (bytes_eq n.id j)) [
        | inl g ↦
            (let s = same_id n.id j id g in
              let f : bytes_eq id j ≡ false = bytes_eq_flip j id (sym s ∙ e) in rw (e, g, f) refl)
        | inr g ↦ rw (e, g) rest
      ]
    ]

find-update_first :
    (id j : Bytes) (f : ClusterNode → ClusterNode)
    → ((n : ClusterNode) → (f n).id ≡ n.id)
    → (ns : List ClusterNode)
    → find (is_id j) (update_first id f ns) ≡ (
        if bytes_eq id j
        then elim (find (is_id j) ns) [ none ↦ none | some n ↦ some (f n) ]
        else find (is_id j) ns)
unfolding update_first
find-update_first id j f keeps [] = elim (Bool-cases (bytes_eq id j)) [
  | inl e ↦ rw e refl
  | inr e ↦ rw e refl
]
find-update_first id j f keeps (n ∷ ns) =
    let rest = find-update_first id j f keeps ns in
    elim (Bool-cases (bytes_eq n.id id)) [
      | inl e ↦
          (let s = same_id n.id id j e in
            let k : bytes_eq (f n).id j ≡ bytes_eq n.id j = ap (λ u. bytes_eq u j) (keeps n) in
            elim (Bool-cases (bytes_eq id j)) [
              | inl g ↦ rw (e, k, s, g) refl
              | inr g ↦ rw (e, k, s, g) refl
            ])
      | inr e ↦ elim (Bool-cases (bytes_eq n.id j)) [
        | inl g ↦
            (let s = same_id n.id j id g in
              let h : bytes_eq id j ≡ false = bytes_eq_flip j id (sym s ∙ e) in rw (e, g, h) refl)
        | inr g ↦ rw (e, g) rest
      ]
    ]

-- After `remove_node` the node is not found, and every other one as before.
pub get_node-remove_node :
    (m : ClusterMembership) (id j : Bytes)
    → get_node (remove_node m id) j ≡ (if bytes_eq id j then none else get_node m j)
unfolding get_node remove_node
get_node-remove_node m id j = find-retain id j m.nodes

-- `mark_dead` and `mark_alive` change the liveness of the node found under the identifier, the second
-- one its heartbeat too, and no other node.
pub get_node-mark :
    (m : ClusterMembership) (now : ℕ) (id j : Bytes)
    → (get_node (mark_dead m id) j ≡ (
        if bytes_eq id j
        then elim (get_node m j) [ none ↦ none | some n ↦ some (record n { is_alive = false }) ]
        else get_node m j))
      × (get_node (mark_alive now m id) j ≡ (
          if bytes_eq id j
          then elim (get_node m j) [
            | none ↦ none
            | some n ↦ some (record n { is_alive = true; last_heartbeat = now })
          ]
          else get_node m j))
unfolding get_node mark_dead mark_alive
get_node-mark m now id j = (
  find-update_first id j (λ n. record n { is_alive = false }) (λ n. refl) m.nodes,
  find-update_first id j (λ n. record n { is_alive = true; last_heartbeat = now }) (λ n. refl)
      m.nodes,
)

find-push :
    (j : Bytes) (node : ClusterNode) (ns : List ClusterNode)
    → find (is_id j) (ns ++ node ∷ []) ≡ elim (find (is_id j) ns) [
      | some n ↦ some n
      | none ↦ if is_id j node then some node else none
    ]
find-push j node [] = refl
find-push j node (n ∷ ns) = elim (Bool-cases (is_id j n)) [
  | inl e ↦ rw e refl
  | inr e ↦ rw e (find-push j node ns)
]

find_of_any :
    (j : Bytes) (ns : List ClusterNode)
    → any (is_id j) ns ≡ true
    → (n : ClusterNode) × (find (is_id j) ns ≡ some n)
find_of_any j [] h = absurd (cc h)
find_of_any j (n ∷ ns) h = elim (Bool-cases (is_id j n)) [
  | inl e ↦ (n, rw e refl)
  | inr e ↦ (let (k, f) = find_of_any j ns (rw e at h) in (k, rw e f))
]

-- After `add_node` every node that was found before is found as before, and the new one is found
-- unless its identifier was taken.
pub get_node-add_node :
    (m : ClusterMembership) (node : ClusterNode) (j : Bytes)
    → get_node (add_node m node) j
      ≡ elim (get_node m j) [ some n ↦ some n | none ↦ if is_id j node then some node else none ]
unfolding get_node add_node
get_node-add_node m node j = elim (Bool-cases (any (is_id node.id) m.nodes)) [
  | inr e ↦ rw (add_node, e) (find-push j node m.nodes)
  | inl e ↦ elim (Option-cases (find (is_id j) m.nodes)) [
    | inr (n, f) ↦ rw (add_node, e, f) refl
    | inl f ↦
        let (k, g) = find_of_any node.id m.nodes e in
        elim (Bool-cases (bytes_eq node.id j)) [
          | inr h ↦ rw (add_node, e, f, h) refl
          | inl h ↦
              (let s = bytes_eq_sound node.id j h in
                absurd (cc (subst (λ u. find (is_id u) m.nodes ≡ some k) s g, f)))
        ]
  ]
]
