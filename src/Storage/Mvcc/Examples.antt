-- ===== src/Storage/Mvcc/Examples.antt =====
-- Tests of the multi-version store, over the database in memory.
use synaptica.Prelude.{
  ◌^◌, ◌<◌, ◌++◌, In, inl, ◌≡◌, refl, none, some, List, [], ◌∷◌, arith, Bytes, bytes_eq, lex,
  be_bytes, from_be, starts_with, ok, codes, All,
}
use synaptica.Storage.Rocks.Memory.{Memory, memory, empty, run_batch}
use synaptica.Storage.Rocks.{BatchOp}
use synaptica.Storage.Mvcc.{
  encode_versioned_key, decode_versioned_timestamp, extract_key_prefix, timestamp_of, get_at,
  scan_versions, invert,
}
use synaptica.Storage.Mvcc.Versions.{decode-encode_versioned_key, lex-encode_versioned_key}
use synaptica.Storage.Mvcc.Latest.{latest, visible, IsVersioned}
use synaptica.Storage.Mvcc.Masking.{get_at-masked}
use synaptica.Storage.Mvcc.Reads.{IsReadable, get_at-latest}
use synaptica.Storage.Mvcc.Batches.{written-IsVersioned, written-IsApart}
use Prim.Native.Nat.Ordering.{lt}

abbrev cf : Bytes
cf = codes "nodes"

abbrev key : Bytes
key = codes "k"

-- three versions of a key, the last one a deletion
abbrev history : List BatchOp
history =
    BatchOp.put_cf cf (encode_versioned_key key 10) (codes "v1")
    ∷ BatchOp.put_cf cf (encode_versioned_key key 20) (codes "v2")
    ∷ BatchOp.put_cf cf (encode_versioned_key key 30) []
    ∷ []

abbrev db : Memory
db = run_batch empty history

readable : IsReadable memory db cf key
unfolding encode_versioned_key be_bytes lex bytes_eq extract_key_prefix timestamp_of
    decode_versioned_timestamp from_be starts_with
readable = record {
  quiet = tt;
  family = refl;
  versioned = (
    written-IsVersioned 30 (omega arith) key [],
    (
      written-IsVersioned 20 (omega arith) key (codes "v2"),
      (written-IsVersioned 10 (omega arith) key (codes "v1"), tt),
    ),
  );
  apart = (
    written-IsApart 30 (omega arith) key [],
    (
      written-IsApart 20 (omega arith) key (codes "v2"),
      (written-IsApart 10 (omega arith) key (codes "v1"), tt),
    ),
  );
}

get_at-latest_example :
    get_at memory db cf key 25 ≡ ok (visible (latest key 25 (memory.entries db cf)))
get_at-latest_example = get_at-latest memory db cf key 25 readable

reads :
    (get_at memory db cf key 25 ≡ ok (some (codes "v2"))) × (get_at memory db cf key 30 ≡ ok none)
unfolding get_at scan_versions encode_versioned_key be_bytes lex bytes_eq extract_key_prefix
    timestamp_of decode_versioned_timestamp from_be
reads = (refl, refl)

decode-encode_versioned_key_example :
    (decode_versioned_timestamp (encode_versioned_key key 20) ≡ some 20)
    × (extract_key_prefix (encode_versioned_key key 20) ≡ key)
decode-encode_versioned_key_example = decode-encode_versioned_key key 20 (omega arith)

lex-encode_versioned_key_example :
    lex (encode_versioned_key key 20) (encode_versioned_key key 10) ≡ lt
lex-encode_versioned_key_example = lex-encode_versioned_key key 10 20 (omega arith) (omega arith)

-- a version of the key "kx" among those of "k"
abbrev masking : Memory
masking = run_batch db (BatchOp.put_cf cf (encode_versioned_key (codes "kx") 10) (codes "w") ∷ [])

masking-IsVersioned : All IsVersioned (memory.entries masking cf)
unfolding encode_versioned_key be_bytes lex bytes_eq
masking-IsVersioned = (
  written-IsVersioned 10 (omega arith) (codes "kx") (codes "w"),
  (
    written-IsVersioned 30 (omega arith) key [],
    (
      written-IsVersioned 20 (omega arith) key (codes "v2"),
      (written-IsVersioned 10 (omega arith) key (codes "v1"), tt),
    ),
  ),
)

masking_early : All (λ e. timestamp_of e.0 < 2 ^ 56) (memory.entries masking cf)
unfolding encode_versioned_key be_bytes lex bytes_eq timestamp_of decode_versioned_timestamp from_be
masking_early = (omega arith, (omega arith, (omega arith, (omega arith, tt))))

masking_member : In (key ++ 120 ∷ be_bytes 8 (invert 10), codes "w") (memory.entries masking cf)
unfolding encode_versioned_key be_bytes lex bytes_eq
masking_member = inl refl

get_at-masked_example : get_at memory masking cf key 25 ≡ ok none
get_at-masked_example =
    get_at-masked memory masking cf key 120 (be_bytes 8 (invert 10)) (codes "w") 25 (omega arith)
      (omega arith) tt refl masking-IsVersioned masking_early masking_member
