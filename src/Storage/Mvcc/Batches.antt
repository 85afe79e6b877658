-- ===== src/Storage/Mvcc/Batches.antt =====
-- `batch_write_at`: all writes of a batch appear together, at the batch's timestamp, the last write
-- of a key deciding.
use synaptica.Prelude.{
  ℕ, ◌≤◌, ◌<◌, ◌≡◌, refl, sym, ap, subst, ◌∙◌, inl, inr, Bool, true, false, ◌&&◌, Option, none,
  some, List, [], ◌∷◌, arith, Bytes, bytes_eq, bytes_eq_sound, All, map, Bool-cases, if◌then◌else◌,
  ok, lt→leb_false, Result-cases,
}
use synaptica.Storage.Rocks.{Rocks, Entry, BatchOp, IsSorted, insert, apply_op, apply_batch}
use synaptica.Storage.Rocks.Order.{insert-All, insert-IsSorted}
use synaptica.Storage.Mvcc.{
  Write, stored, encode_versioned_key, extract_key_prefix, timestamp_of, u64_max, batch_of,
  batch_write_at,
}
use synaptica.Storage.Mvcc.Versions.{decode-encode_versioned_key, timestamp_of-encode}
use synaptica.Storage.Mvcc.Latest.{latest, IsVersioned, IsApart}
use synaptica.Storage.Mvcc.Writes.{latest-insert-passed, latest-insert_newest}

-- the value that a list of writes leaves at a key: that of the last write of the key
unfoldable pub is_write_of : Bytes → Bytes → Write → Bool
is_write_of cf key w = bytes_eq w.cf_name cf && bytes_eq w.key key

unfoldable pub last_write : Bytes → Bytes → List Write → Option (Option Bytes)
last_write cf key [] = none
last_write cf key (w ∷ ws) = elim (last_write cf key ws) [
  | none ↦ if is_write_of cf key w then some w.value else none
  | some v ↦ some v
]

abbrev pub put_op : ℕ → Write → BatchOp
put_op ts w = BatchOp.put_cf w.cf_name (encode_versioned_key w.key ts) (stored w.value)

-- A batch that is built at all is the list of its writes, in order.
pub batch_of-map :
    (rocks : Rocks) (db : rocks.Db) (ws : List Write) (ts : ℕ) (ops : List BatchOp)
    → batch_of rocks db ws ts ≡ ok ops
    → ops ≡ map (put_op ts) ws
unfolding batch_of
batch_of-map rocks db [] ts ops h = ground arith
batch_of-map rocks db (w ∷ ws) ts ops h = elim (Result-cases (batch_of rocks db ws ts)) [
  | inl (o, e) ↦ ground (arith, e, batch_of-map rocks db ws ts o e)
  | inr (x, e) ↦ absurd (ground (arith, e))
]

pub written-IsVersioned :
    (ts : ℕ) → ts ≤ u64_max → (key v : Bytes) → IsVersioned (encode_versioned_key key ts, v)
written-IsVersioned ts fits key v =
    let t = timestamp_of-encode key ts fits in
    record { stamped = rw t fits; encoded = rw (t, (decode-encode_versioned_key key ts fits).1) }

pub written-IsApart :
    (ts : ℕ) → ts ≤ u64_max → (key v : Bytes) → IsApart key (encode_versioned_key key ts, v)
written-IsApart ts fits key v =
    let e = (decode-encode_versioned_key key ts fits).1 in
    record { inside = λ _. e; around = λ _. e }

and_false : (b : Bool) → (b && false) ≡ false
and_false b = ground arith

-- No stored version of the key has a timestamp above `b`.
abbrev pub IsBounded : Bytes → ℕ → Entry → Type 0
IsBounded key b e = bytes_eq (extract_key_prefix e.0) key ≡ true → timestamp_of e.0 ≤ b

-- the state of a column family before a batch at `ts`, for the readers of a key
pub record IsBefore (key : Bytes) (ts : ℕ) (es : List Entry) : Type 0 where
  pub sorted : IsSorted es
  pub versioned : All IsVersioned es
  pub bounded : All (IsBounded key ts) es

-- what a batch at `ts` leaves at a key
abbrev pub after_batch : ℕ → Option (Option Bytes) → Option (ℕ × Bytes) → Option (ℕ × Bytes)
after_batch ts none old = old
after_batch ts (some v) old = some (ts, stored v)

module _ (ts : ℕ) (fits : ts ≤ u64_max) where
  pub apply_op-IsBefore :
      (cf key : Bytes) (w : Write) (es : List Entry)
      → IsBefore key ts es
      → IsBefore key ts (apply_op cf (put_op ts w) es)
  apply_op-IsBefore cf key w es h =
      let k = encode_versioned_key w.key ts in
      let v = stored w.value in
      elim (Bool-cases (bytes_eq w.cf_name cf)) [
        | inl e ↦ rw e (record {
          sorted = insert-IsSorted k v es h.sorted;
          versioned =
              insert-All IsVersioned k v es (written-IsVersioned ts fits w.key v) h.versioned;
          bounded =
              insert-All (IsBounded key ts) k v es
                (λ _. omega (arith, timestamp_of-encode w.key ts fits)) h.bounded;
        })
        | inr e ↦ rw e h
      ]

  pub apply_batch-IsBefore :
      (cf key : Bytes) (ws : List Write) (es : List Entry)
      → IsBefore key ts es
      → IsBefore key ts (apply_batch cf (map (put_op ts) ws) es)
  apply_batch-IsBefore cf key [] es h = h
  apply_batch-IsBefore cf key (w ∷ ws) es h =
      apply_batch-IsBefore cf key ws (apply_op cf (put_op ts w) es)
        (apply_op-IsBefore cf key w es h)

  -- One write of the batch, for a reader of `key`
  latest-apply_op :
      (cf key : Bytes) (s : ℕ) (w : Write) (es : List Entry)
      → ts ≤ s
      → IsBefore key ts es
      → latest key s (apply_op cf (put_op ts w) es)
        ≡ (if is_write_of cf key w then some (ts, stored w.value) else latest key s es)
  unfolding is_write_of
  latest-apply_op cf key s w es h b =
      let v = stored w.value in
      elim (Bool-cases (bytes_eq w.cf_name cf)) [
        | inr e ↦ rw e
        | inl e ↦ elim (Bool-cases (bytes_eq w.key key)) [
          | inl same ↦
              rw (e, same)
                (subst (λ u. latest key s (insert (encode_versioned_key u ts) v es) ≡ some (ts, v))
                  (sym (bytes_eq_sound w.key key same))
                  (latest-insert_newest key s ts v fits h es b.sorted b.versioned b.bounded))
          | inr other ↦
              rw (e, other)
                (latest-insert-passed key s (encode_versioned_key w.key ts) v es
                  (rw ((decode-encode_versioned_key w.key ts fits).1, other)))
        ]
      ]

  after_op-after_batch :
      (o : Option (Option Bytes)) (b : Bool) (v : Option Bytes) (old : Option (ℕ × Bytes))
      → after_batch ts o (if b then some (ts, stored v) else old)
        ≡ after_batch ts (elim o [ none ↦ if b then some v else none | some u ↦ some u ]) old
  after_op-after_batch none true v old = refl
  after_op-after_batch none false v old = refl
  after_op-after_batch (some u) b v old = refl

  pub latest-apply_batch :
      (cf key : Bytes) (s : ℕ) (ws : List Write) (es : List Entry)
      → ts ≤ s
      → IsBefore key ts es
      → latest key s (apply_batch cf (map (put_op ts) ws) es)
        ≡ after_batch ts (last_write cf key ws) (latest key s es)
  unfolding last_write
  latest-apply_batch cf key s [] es h b = refl
  latest-apply_batch cf key s (w ∷ ws) es h b =
      latest-apply_batch cf key s ws (apply_op cf (put_op ts w) es) h
        (apply_op-IsBefore cf key w es b)
      ∙ ap (λ t. after_batch ts (last_write cf key ws) t) (latest-apply_op cf key s w es h b)
      ∙ after_op-after_batch (last_write cf key ws) (is_write_of cf key w) w.value (latest key s es)

  -- A reader below the batch's timestamp sees none of it.
  pub latest-apply_batch_earlier :
      (cf key : Bytes) (s : ℕ) (ws : List Write) (es : List Entry)
      → s < ts
      → latest key s (apply_batch cf (map (put_op ts) ws) es) ≡ latest key s es
  latest-apply_batch_earlier cf key s [] es h = refl
  latest-apply_batch_earlier cf key s (w ∷ ws) es h =
      latest-apply_batch_earlier cf key s ws (apply_op cf (put_op ts w) es) h
      ∙ elim (Bool-cases (bytes_eq w.cf_name cf)) [
        | inr e ↦ rw e
        | inl e ↦ rw e (
            latest-insert-passed key s (encode_versioned_key w.key ts) (stored w.value) es
              (rw (timestamp_of-encode w.key ts fits, lt→leb_false ts s h) (and_false _)))
      ]

-- What `batch_write_at` does to the contents, when it succeeds: every write of the batch is applied.
pub batch_write_at-entries :
    (rocks : Rocks) (db db' : rocks.Db) (ws : List Write) (ts : ℕ)
    → batch_write_at rocks db ws ts ≡ ok db'
    → (cf : Bytes)
    → (rocks.entries db' cf ≡ apply_batch cf (map (put_op ts) ws) (rocks.entries db cf))
      × (rocks.has_cf db' cf ≡ rocks.has_cf db cf)
unfolding batch_write_at
batch_write_at-entries rocks db db' ws ts h cf = elim (Result-cases (batch_of rocks db ws ts)) [
  | inr (x, e) ↦ absurd (ground (arith, e))
  | inl (ops, e) ↦
      let w : rocks.write db ops ≡ ok db' = ground (arith, e) in
      (
        rocks.write_law db db' ops w cf
            ∙ ap (λ o. apply_batch cf o (rocks.entries db cf)) (batch_of-map rocks db ws ts ops e),
        rocks.write_cfs db db' ops w cf,
      )
]
