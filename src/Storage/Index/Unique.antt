-- ===== src/Storage/Index/Unique.antt =====
-- A unique index holds one node for a value.
use mathlib.Core.Bool.{false≢true}
use synaptica.Prelude.{
  ◌-◌, ◌≡◌, refl, sym, ap, ◌∙◌, subst, arith, Bool, true, false, List, [], ◌∷◌, ◌++◌, map, Bytes,
  Ordering, lex, lex_le, starts_with, bytes_eq, bytes_eq_sound, length, length-append, drop,
  drop-append, leb, All, All-imp, if◌then◌else◌, Result, ok, err, ◌>>=◌, map_err, inl, inr,
  Bool-cases, append_assoc,
}
use synaptica.Core.Graph.{NodeId, IsUuid}
use synaptica.Core.Values.{Scalars}
use synaptica.Core.Nodes.{Node}
use synaptica.Storage.Rocks.{Rocks, Entry, IsSorted, seek}
use synaptica.Storage.Rocks.Order.{insert-All}
use synaptica.Storage.Mvcc.Reads.{seek-IsSorted}
use synaptica.Storage.Index.{
  duplicate_message, internal, Codec, IndexDefinition, StorageError, prop_index, encode_properties,
  entry_key, entry_value_prefix, check_unique, index_node,
}

-- Behind a key that is not below `p` and does not start with it, no key starts with `p`.
starts_with_behind :
    (p k l : Bytes)
    → lex_le p k ≡ true
    → starts_with k p ≡ false
    → lex k l ≡ Ordering.lt
    → starts_with l p ≡ false
unfolding lex starts_with
starts_with_behind [] k l h n b = absurd (cc)
starts_with_behind (a ∷ p) [] l h n b = absurd (cc)
starts_with_behind (a ∷ p) (c ∷ k) [] h n b = refl
starts_with_behind (a ∷ p) (c ∷ k) (d ∷ l) h n b = ground (arith, starts_with_behind p k l)

lex_le-starts_with : (p k : Bytes) → starts_with k p ≡ true → lex_le p k ≡ true
unfolding lex starts_with
lex_le-starts_with [] [] h = refl
lex_le-starts_with [] (c ∷ k) h = refl
lex_le-starts_with (a ∷ p) [] h = absurd (cc)
lex_le-starts_with (a ∷ p) (c ∷ k) h = ground (arith, lex_le-starts_with p k)

-- An entry under the prefix `p` is one of the node `id`.
abbrev pub IsOf : Bytes → NodeId → Entry → Type 0
IsOf p id e =
    starts_with e.0 p ≡ true → leb 16 (length e.0) ≡ true → drop (length e.0 - 16) e.0 ≡ id.as_bytes

err≢ok :
    {A : Type 0} {e : StorageError} {a : A} → ◌≡◌ {A = Result StorageError A} (err e) (ok a) → ⊥
err≢ok h = cc

seek-from : (p : Bytes) (es : List Entry) → All (λ e. lex_le p e.0 ≡ true) (seek p es)
seek-from p [] = tt
seek-from p (e ∷ es) = elim (Bool-cases (lex_le p e.0)) [
  | inl y ↦ rw y (y, seek-from p es)
  | inr n ↦ rw n (seek-from p es)
]

module _ (p : Bytes) (id : NodeId) where
  -- the entries from the prefix on are all there is to see
  IsOf-seek : (es : List Entry) → All (IsOf p id) (seek p es) → All (IsOf p id) es
  IsOf-seek [] h = tt
  IsOf-seek (e ∷ es) h = elim (Bool-cases (lex_le p e.0)) [
    | inl y ↦ (let k : All (IsOf p id) (e ∷ seek p es) = rw y at h in (k.0, IsOf-seek es k.1))
    | inr n ↦
        (λ s _. absurd (false≢true (sym n ∙ lex_le-starts_with p e.0 s)), IsOf-seek es (rw n at h))
  ]

module _ {S : Scalars} (codec : Codec S) (rocks : Rocks) (p : Bytes) (id : NodeId)
    (message : Bytes) where
  abbrev Accepts : List Entry → Type 0
  Accepts es = check_unique codec rocks p id message (map ok es) ≡ ok tt

  check_unique-IsOf :
      (es : List Entry)
      → IsSorted es
      → All (λ e. lex_le p e.0 ≡ true) es
      → Accepts es
      → All (IsOf p id) es
  unfolding check_unique
  check_unique-IsOf [] so le h = tt
  check_unique-IsOf (e ∷ es) so le h = elim (Bool-cases (starts_with e.0 p)) [
    | inr n ↦ (
      λ s _. absurd (false≢true (sym n ∙ s)),
      All-imp (λ f b s _. absurd (false≢true (sym (starts_with_behind p e.0 f.0 le.0 n b) ∙ s))) es
          so.0,
    )
    | inl y ↦ elim (Bool-cases (leb 16 (length e.0))) [
      | inl t ↦ elim (Bool-cases (bytes_eq (drop (length e.0 - 16) e.0) id.as_bytes)) [
        | inl q ↦ (
          λ _ _. bytes_eq_sound _ _ q,
          check_unique-IsOf es so.1 le.1 (rw (check_unique, y, t, q) at h),
        )
        | inr q ↦ absurd (err≢ok (rw (check_unique, y, t, q) at h))
      ]
      | inr t ↦ (
        λ _ l. absurd (false≢true (sym t ∙ l)),
        check_unique-IsOf es so.1 le.1 (rw (check_unique, y, t) at h),
      )
    ]
  ]

drop_front : (front id : Bytes) → IsUuid id → drop (length (front ++ id) - 16) (front ++ id) ≡ id
drop_front front id u =
    drop-append (length (front ++ id) - 16) front id (omega (arith, length-append front id))

-- The entry of a node under the prefix of its value is one of the node.
IsOf-entry_key :
    {S : Scalars} (codec : Codec S) (d : IndexDefinition) (encoded : Bytes) (id : NodeId)
    → IsUuid id.as_bytes
    → IsOf (entry_value_prefix codec d encoded) id (entry_key codec d encoded id, [])
IsOf-entry_key codec d encoded id u s l =
    let g = d.graph_id.as_bytes in
    let h = codec.hash_index_name d.name in
    let front = g ++ 1 ∷ (h ++ encoded) in
    let same : front ++ id.as_bytes ≡ g ++ 1 ∷ (h ++ (encoded ++ id.as_bytes)) =
      append_assoc g (1 ∷ (h ++ encoded)) id.as_bytes
      ∙ ap (λ t. g ++ 1 ∷ t) (append_assoc h encoded id.as_bytes) in
    subst (λ k. drop (length k - 16) k ≡ id.as_bytes) same (drop_front front id.as_bytes u)

module _ {A : Type 0} where
  if_ok :
      (b : Bool) (x : Result StorageError A) (e : StorageError) (a : A)
      → (if b then x else err e) ≡ ok a
      → x ≡ ok a
  if_ok true x e a h = h
  if_ok false x e a h = absurd (err≢ok h)

  bind_ok :
      (r : Result StorageError (Unit {0})) (x : Result StorageError A) (a : A)
      → (r >>= λ _. x) ≡ ok a
      → (r ≡ ok tt) × (x ≡ ok a)
  bind_ok (ok u) x a h = (refl, h)
  bind_ok (err e) x a h = absurd (err≢ok h)

  map_err_ok : (r : Result Bytes A) (a : A) → map_err internal r ≡ ok a → r ≡ ok a
  map_err_ok (ok b) a h = cc
  map_err_ok (err e) a h = absurd (err≢ok h)

-- If `index_node` of a unique index succeeds, every entry of the database after it under the prefix of the
-- node's values (of 16 bytes at least) ends in the identifier of the node, where reading meets no error
-- and the identifier has 16 bytes.
pub index_node-unique :
    {S : Scalars} (codec : Codec S) (rocks : Rocks) (db db' : rocks.Db) (d : IndexDefinition)
    (n : Node S)
    → rocks.IsQuiet db
    → IsUuid n.id.as_bytes
    → d.unique ≡ true
    → index_node codec rocks db d n ≡ ok db'
    → All
        (IsOf (entry_value_prefix codec d (encode_properties codec d.property_names n [])) n.id)
        (rocks.entries db' prop_index)
unfolding bytes_eq
index_node-unique codec rocks db db' d n q u f h =
    let encoded = encode_properties codec d.property_names n [] in
    let p = entry_value_prefix codec d encoded in
    let key = entry_key codec d encoded n.id in
    let es = rocks.entries db prop_index in
    let (checked, written) =
      bind_ok _ _ db' (rw f at (if_ok (rocks.has_cf db prop_index) _ _ db' h)) in
    let seen =
      subst (λ items. check_unique codec rocks p n.id (duplicate_message codec d n) items ≡ ok tt)
        (rocks.iterator_law db prop_index p q) checked in
    let found =
      check_unique-IsOf codec rocks p n.id (duplicate_message codec d n) (seek p es)
        (seek-IsSorted p es (rocks.sorted db prop_index)) (seek-from p es) seen in
    let before = IsOf-seek p n.id es found in
    let after = insert-All (IsOf p n.id) key [] es (IsOf-entry_key codec d encoded n.id u) before in
    subst (All (IsOf p n.id))
      (sym (rocks.put_cf_law db db' prop_index key [] (map_err_ok _ db' written) prop_index)) after
