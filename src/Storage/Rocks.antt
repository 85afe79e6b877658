-- ===== src/Storage/Rocks.antt =====
-- RocksDB as the storage crate uses it: a parameter, with the documented behaviour of the calls.
-- A column family is an ordered map from byte strings to byte strings; `entries` is its contents.
pub mod Order
pub mod Memory
use synaptica.Prelude.{
  ◌≡◌, refl, ◌⊎◌, inl, inr, arith, Bool, true, Option, none, some, List, [], ◌∷◌, map, Bytes,
  bytes_eq, lex, lex_le, retain, All, if◌then◌else◌, Result, ok,
}
use Prim.Native.Nat.{Ordering}
use Prim.Native.Nat.Ordering.{lt, eq, gt}

abbrev pub Entry : Type 0
Entry = Bytes × Bytes

-- one operation of a `WriteBatch`, with its column family
pub data BatchOp : Type 0 where
  put_cf : Bytes → Bytes → Bytes → BatchOp
  delete_cf : Bytes → Bytes → BatchOp

-- strictly increasing keys
abbrev pub IsSorted : List Entry → Type 0
IsSorted [] = Unit
IsSorted (e ∷ es) = All (λ f. lex e.0 f.0 ≡ lt) es × IsSorted es

-- an ordered map: writing a key, removing a key, and the keys from a given one on
abbrev pub insert : Bytes → Bytes → List Entry → List Entry
insert k v [] = (k, v) ∷ []
insert k v ((j, w) ∷ es) = elim (lex k j) [
  | lt ↦ (k, v) ∷ (j, w) ∷ es
  | eq ↦ (k, v) ∷ es
  | gt ↦ (j, w) ∷ insert k v es
]

abbrev pub remove : Bytes → List Entry → List Entry
remove k es = retain (λ e. if bytes_eq e.0 k then Bool.false else true) es

abbrev pub lookup : Bytes → List Entry → Option Bytes
lookup k [] = none
lookup k ((j, w) ∷ es) = if bytes_eq j k then some w else lookup k es

abbrev pub seek : Bytes → List Entry → List Entry
seek start es = retain (λ e. lex_le start e.0) es

-- what a batch does to one column family, its operations in order
abbrev pub apply_op : Bytes → BatchOp → List Entry → List Entry
apply_op cf (put_cf c k v) es = if bytes_eq c cf then insert k v es else es
apply_op cf (delete_cf c k) es = if bytes_eq c cf then remove k es else es

abbrev pub apply_batch : Bytes → List BatchOp → List Entry → List Entry
apply_batch cf [] es = es
apply_batch cf (op ∷ ops) es = apply_batch cf ops (apply_op cf op es)

abbrev pub default_cf : Bytes
default_cf = 100 ∷ 101 ∷ 102 ∷ 97 ∷ 117 ∷ 108 ∷ 116 ∷ []

pub record Rocks : Type 1 where
  pub Db : Type 0
  -- `cf_handle` finds the column family
  pub has_cf : Db → Bytes → Bool
  -- `iterator_cf` from a key, forward: each item is an entry or an error
  pub iterator_from : Db → Bytes → Bytes → List (Result Bytes Entry)
  pub put_cf : Db → Bytes → Bytes → Bytes → Result Bytes Db
  pub write : Db → List BatchOp → Result Bytes Db
  -- `get` and `put` work on the column family "default"
  pub get : Db → Bytes → Result Bytes (Option Bytes)
  pub put : Db → Bytes → Bytes → Result Bytes Db
  -- the contents of a column family, and that reading meets no error
  pub entries : Db → Bytes → List Entry
  pub IsQuiet : Db → Type 0
  pub sorted : (db : Db) (cf : Bytes) → IsSorted (entries db cf)
  pub iterator_law :
      (db : Db) (cf start : Bytes)
      → IsQuiet db
      → iterator_from db cf start ≡ map ok (seek start (entries db cf))
  pub put_cf_law :
      (db db' : Db) (cf k v : Bytes)
      → put_cf db cf k v ≡ ok db'
      → (c : Bytes) → entries db' c ≡ apply_batch c (BatchOp.put_cf cf k v ∷ []) (entries db c)
  pub write_law :
      (db db' : Db) (ops : List BatchOp)
      → write db ops ≡ ok db'
      → (c : Bytes) → entries db' c ≡ apply_batch c ops (entries db c)
  -- a write changes no column family's existence
  pub put_cf_cfs :
      (db db' : Db) (cf k v : Bytes)
      → put_cf db cf k v ≡ ok db'
      → (c : Bytes) → has_cf db' c ≡ has_cf db c
  pub write_cfs :
      (db db' : Db) (ops : List BatchOp)
      → write db ops ≡ ok db'
      → (c : Bytes) → has_cf db' c ≡ has_cf db c
  pub get_law :
      (db : Db) (k : Bytes) → IsQuiet db → get db k ≡ ok (lookup k (entries db default_cf))
  pub put_law :
      (db db' : Db) (k v : Bytes)
      → put db k v ≡ ok db'
      → (c : Bytes)
      → entries db' c ≡ apply_batch c (BatchOp.put_cf default_cf k v ∷ []) (entries db c)

-- The three cases of a write into an ordered map
module _ (k v : Bytes) (x : Entry) (es : List Entry) where
  pub insert_before : lex k x.0 ≡ lt → insert k v (x ∷ es) ≡ (k, v) ∷ x ∷ es
  insert_before h = ground arith

  pub insert_over : lex k x.0 ≡ eq → insert k v (x ∷ es) ≡ (k, v) ∷ es
  insert_over h = ground arith

  pub insert_behind : lex k x.0 ≡ gt → insert k v (x ∷ es) ≡ x ∷ insert k v es
  insert_behind h = ground arith
