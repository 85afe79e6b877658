-- ===== src/Storage/Mvcc.antt =====
-- crates/synaptica-storage/src/mvcc.rs, `MvccStore`: versions of a key are stored under the key
-- followed by the inverted timestamp, so that the newest version of a key comes first.
pub mod Versions
pub mod Latest
pub mod Reads
pub mod Writes
pub mod Batches
pub mod Masking
mod Examples
use synaptica.Prelude.{
  ℕ, ◌+◌, ◌-◌, ◌^◌, Bool, true, false, not, Option, none, some, List, [], ◌∷◌, ◌++◌, Bytes,
  bytes_eq, starts_with, length, take, drop, ltb, leb, if◌then◌else◌, be_bytes, from_be, Result, ok,
  err, ◌>>=◌, map_err, map_ok, codes, map, ◌&&◌, ◌||◌,
}
use synaptica.Storage.Rocks.{Rocks, Entry, BatchOp}
use synaptica.Storage.Oracle.{MvccError, u64_mod}

-- `!timestamp` on 64 bits
abbrev pub u64_max : ℕ
u64_max = u64_mod - 1

abbrev pub invert : ℕ → ℕ
invert timestamp = u64_max - timestamp

unfoldable pub encode_versioned_key : Bytes → ℕ → Bytes
encode_versioned_key key timestamp = key ++ be_bytes 8 (invert timestamp)

unfoldable pub decode_versioned_timestamp : Bytes → Option ℕ
decode_versioned_timestamp versioned_key =
    if ltb (length versioned_key) 8
    then none
    else some (invert (from_be (drop (length versioned_key - 8) versioned_key)))

unfoldable pub extract_key_prefix : Bytes → Bytes
extract_key_prefix versioned_key =
    if leb 8 (length versioned_key)
    then take (length versioned_key - 8) versioned_key
    else versioned_key

abbrev pub tombstone : Bytes
tombstone = []

abbrev pub is_tombstone : Bytes → Bool
is_tombstone [] = true
is_tombstone (b ∷ bs) = false

-- `decode_versioned_timestamp(&k).unwrap_or(0)`
unfoldable pub timestamp_of : Bytes → ℕ
timestamp_of k = elim (decode_versioned_timestamp k) [ none ↦ 0 | some ts ↦ ts ]

cf_missing : Bytes → MvccError
cf_missing cf_name = MvccError.internal (codes "column family not found: " ++ cf_name)

-- what is stored for a value: a deletion stores the tombstone
abbrev pub stored : Option Bytes → Bytes
stored (some v) = v
stored none = tombstone

-- the loop of `get_at`
pub scan_versions : Bytes → ℕ → List (Result Bytes Entry) → Result MvccError (Option Bytes)
scan_versions key snapshot_ts [] = ok none
scan_versions key snapshot_ts (err e ∷ items) = err (MvccError.internal e)
scan_versions key snapshot_ts (ok (k, v) ∷ items) =
    if not (bytes_eq (extract_key_prefix k) key)
    then ok none
    else if leb (timestamp_of k) snapshot_ts
    then (if is_tombstone v then ok none else ok (some v))
    else scan_versions key snapshot_ts items

same_as_last : Option Bytes → Bytes → Bool
same_as_last none key_prefix = false
same_as_last (some last_key) key_prefix = bytes_eq key_prefix last_key

-- the loop of `prefix_scan_at`; the pairs found are returned in order
pub scan_prefix :
    Bytes → ℕ → Option Bytes → List (Result Bytes Entry) → Result MvccError (List Entry)
scan_prefix prefix snapshot_ts last_key [] = ok []
scan_prefix prefix snapshot_ts last_key (err e ∷ items) = err (MvccError.internal e)
scan_prefix prefix snapshot_ts last_key (ok (k, v) ∷ items) =
    let key_prefix = extract_key_prefix k in
    let visible = not (same_as_last last_key key_prefix) && leb (timestamp_of k) snapshot_ts in
    let rest =
      scan_prefix prefix snapshot_ts (if visible then some key_prefix else last_key) items in
    if not (starts_with key_prefix prefix)
    then ok []
    else if visible && not (is_tombstone v)
    then map_ok (λ es. (key_prefix, v) ∷ es) rest
    else rest

-- the loop of `gc_before`, with `last_key` and `found_visible`; the keys to delete in order
pub scan_garbage :
    Bytes → ℕ → Option Bytes → Bool → List (Result Bytes Entry) → Result MvccError (List Bytes)
scan_garbage prefix watermark last_key found_visible [] = ok []
scan_garbage prefix watermark last_key found_visible (err e ∷ items) = err (MvccError.internal e)
scan_garbage prefix watermark last_key found_visible (ok (k, v) ∷ items) =
    let key_prefix = extract_key_prefix k in
    let seen = same_as_last last_key key_prefix && found_visible in
    let old = leb (timestamp_of k) watermark in
    let rest = scan_garbage prefix watermark (some key_prefix) (seen || old) items in
    if not (starts_with key_prefix prefix)
    then ok []
    else if old && seen
    then map_ok (λ ks. k ∷ ks) rest
    else rest

-- a write of a batch: column family, key, and a value or (`None`) a deletion
pub record Write : Type 0 where
  pub cf_name : Bytes
  pub key : Bytes
  pub value : Option Bytes

module _ (rocks : Rocks) where
  open rocks use {Db, has_cf, iterator_from, put_cf, write}

  unfoldable pub put_at : Db → Bytes → Bytes → Bytes → ℕ → Result MvccError Db
  unfolding cf_missing
  put_at db cf_name key value timestamp =
      if has_cf db cf_name
      then map_err MvccError.internal (put_cf db cf_name (encode_versioned_key key timestamp) value)
      else err (cf_missing cf_name)

  unfoldable pub delete_at : Db → Bytes → Bytes → ℕ → Result MvccError Db
  unfolding put_at
  delete_at db cf_name key timestamp = put_at db cf_name key tombstone timestamp

  unfoldable pub get_at : Db → Bytes → Bytes → ℕ → Result MvccError (Option Bytes)
  unfolding cf_missing
  get_at db cf_name key snapshot_ts =
      if has_cf db cf_name
      then scan_versions key snapshot_ts
          (iterator_from db cf_name (encode_versioned_key key u64_max))
      else err (cf_missing cf_name)

  unfoldable pub prefix_scan_at : Db → Bytes → Bytes → ℕ → Result MvccError (List Entry)
  unfolding cf_missing
  prefix_scan_at db cf_name prefix snapshot_ts =
      if has_cf db cf_name
      then scan_prefix prefix snapshot_ts none
          (iterator_from db cf_name (encode_versioned_key prefix u64_max))
      else err (cf_missing cf_name)

  -- the loops of `batch_write_at` and `batch_put_at`
  unfoldable pub batch_of : Db → List Write → ℕ → Result MvccError (List BatchOp)
  unfolding cf_missing
  batch_of db [] timestamp = ok []
  batch_of db (w ∷ ws) timestamp =
      let rest = batch_of db ws timestamp in
      if has_cf db w.cf_name
      then map_ok
          (λ ops.
            BatchOp.put_cf w.cf_name (encode_versioned_key w.key timestamp) (stored w.value) ∷ ops)
          rest
      else err (cf_missing w.cf_name)

  unfoldable pub batch_write_at : Db → List Write → ℕ → Result MvccError Db
  unfolding batch_of
  batch_write_at db writes timestamp = do
    ops ← batch_of db writes timestamp
    map_err MvccError.internal (write db ops)

  -- its writes have a value each
  unfoldable pub batch_put_at : Db → List (Bytes × Bytes × Bytes) → ℕ → Result MvccError Db
  unfolding batch_of
  batch_put_at db writes timestamp = do
    ops ←
        batch_of db (map (λ w. record { cf_name = w.0; key = w.1; value = some w.2 }) writes)
          timestamp
    map_err MvccError.internal (write db ops)

  -- the number of versions removed, and the database
  unfoldable pub gc_before : Db → Bytes → Bytes → ℕ → Result MvccError (ℕ × Db)
  unfolding cf_missing
  gc_before db cf_name prefix watermark =
      if has_cf db cf_name
      then (do
        to_delete ←
            scan_garbage prefix watermark none false
              (iterator_from db cf_name (encode_versioned_key prefix u64_max))
        let batch = map (λ k. BatchOp.delete_cf cf_name k) to_delete
        db' ← map_err MvccError.internal (write db batch)
        ok (length to_delete, db'))
      else err (cf_missing cf_name)
