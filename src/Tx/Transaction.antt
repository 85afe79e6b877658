-- ===== src/Tx/Transaction.antt =====
-- crates/synaptica-tx/src/transaction.rs: a transaction buffers its writes and reads at its
-- snapshot. The store that the source shares by `Arc` is an argument of `get`.
pub mod OwnWrites
use synaptica.Prelude.{
  ℕ, Bool, true, false, ◌&&◌, not, Option, none, some, List, [], ◌∷◌, ◌++◌, Bytes, bytes_eq,
  if◌then◌else◌, Result, ok, err, map_err,
}
use mathlib.Core.List.{reverse}
use synaptica.Storage.Rocks.{Rocks}
use synaptica.Storage.Oracle.{MvccError}
use synaptica.Storage.Mvcc.{Write, get_at}

pub data TxError : Type 0 where
  mvcc : MvccError → TxError
  write_conflict not_active already_committed already_rolled_back : TxError
  serialization : Bytes → TxError

pub data TxState : Type 0 where
  active committed rolled_back : TxState

-- `BufferedWrite` is the record `Write` of the store: a column family, a key, and a value or
-- (`None`) a deletion.
pub record Transaction : Type 0 where
  pub id : ℕ
  pub snapshot_ts : ℕ
  pub state : TxState
  pub write_set : List Write

abbrev pub new : ℕ → ℕ → Transaction
new id snapshot_ts = record {
  id = id;
  snapshot_ts = snapshot_ts;
  state = TxState.active;
  write_set = [];
}

abbrev pub is_active : TxState → Bool
is_active TxState.active = true
is_active TxState.committed = false
is_active TxState.rolled_back = false

-- the loop of `get`: the first match
pub find_write : Bytes → Bytes → List Write → Option (Option Bytes)
find_write cf_name key [] = none
find_write cf_name key (w ∷ ws) =
    if bytes_eq w.cf_name cf_name && bytes_eq w.key key
    then some w.value
    else find_write cf_name key ws

unfoldable pub put : Transaction → Bytes → Bytes → Bytes → Result TxError Transaction
put tx cf_name key value =
    if not (is_active tx.state)
    then err TxError.not_active
    else ok (record tx {
      write_set = tx.write_set ++ record { cf_name = cf_name; key = key; value = some value } ∷ [];
    })

unfoldable pub delete : Transaction → Bytes → Bytes → Result TxError Transaction
delete tx cf_name key =
    if not (is_active tx.state)
    then err TxError.not_active
    else ok (record tx {
      write_set = tx.write_set ++ record { cf_name = cf_name; key = key; value = none } ∷ [];
    })

module _ (rocks : Rocks) where
  open rocks use {Db}

  unfoldable pub get : Transaction → Db → Bytes → Bytes → Result TxError (Option Bytes)
  get tx db cf_name key =
      if not (is_active tx.state)
      then err TxError.not_active
      else elim (find_write cf_name key (reverse tx.write_set)) [
        | some value ↦ ok value
        | none ↦ map_err TxError.mvcc (get_at rocks db cf_name key tx.snapshot_ts)
      ]
