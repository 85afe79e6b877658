-- ===== src/Storage/Oracle.antt =====
-- crates/synaptica-storage/src/mvcc.rs, `TimestampOracle`: an atomic 64-bit counter, persisted under
-- one key of the default column family.
use synaptica.Prelude.{
  ℕ, ◌+◌, ◌%◌, ◌^◌, Option, none, some, Bytes, length, ◌==◌, if◌then◌else◌, be_bytes, from_be,
  Result, ok, err, map_err, codes,
}
use synaptica.Storage.Rocks.{Rocks}

pub data MvccError : Type 0 where
  internal serialization deserialization : Bytes → MvccError
  not_found : MvccError

abbrev pub u64_mod : ℕ
u64_mod = 2 ^ 64

pub record TimestampOracle : Type 0 where
  pub counter : ℕ

abbrev pub ts_oracle_key : Bytes
ts_oracle_key = codes "__ts_oracle_counter__"

abbrev pub new : TimestampOracle
new = record { counter = 1 }

unfoldable pub new_from_persisted : ℕ → TimestampOracle
new_from_persisted persisted_ts = record { counter = (persisted_ts + 1) % u64_mod }

-- `fetch_add(1)` returns the old value and wraps around.
unfoldable pub next : TimestampOracle → ℕ × TimestampOracle
next o = (o.counter, record { counter = (o.counter + 1) % u64_mod })

unfoldable pub current : TimestampOracle → ℕ
current o = o.counter

-- the value that a stored counter stands for: a value of another length counts as 0
pub persisted_value : Result Bytes (Option Bytes) → ℕ
persisted_value (ok (some bytes)) = if length bytes == 8 then from_be bytes else 0
persisted_value (ok none) = 0
persisted_value (err e) = 0

module _ (rocks : Rocks) where
  open rocks use {Db, get, put}

  unfoldable pub load_from_db : Db → TimestampOracle
  unfolding persisted_value new_from_persisted
  load_from_db db = new_from_persisted (persisted_value (get db ts_oracle_key))

  unfoldable pub persist_to_db : TimestampOracle → Db → Result MvccError Db
  persist_to_db o db = map_err MvccError.internal (put db ts_oracle_key (be_bytes 8 o.counter))
