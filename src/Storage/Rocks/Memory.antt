-- ===== src/Storage/Rocks/Memory.antt =====
-- A database in memory that meets the assumptions on RocksDB: every column family exists, and no
-- call fails.
use synaptica.Prelude.{◌≡◌, refl, ap, sym, true, List, [], ◌∷◌, map, Bytes, Result, ok, err}
use synaptica.Storage.Rocks.{Rocks, Entry, BatchOp, IsSorted, lookup, seek, apply_batch, default_cf}
use synaptica.Storage.Rocks.Order.{apply_batch-IsSorted}

pub record Memory : Type 0 where
  pub family : Bytes → List Entry
  pub ordered : (cf : Bytes) → IsSorted (family cf)

abbrev pub empty : Memory
empty = record { family = λ cf. []; ordered = λ cf. tt }

abbrev pub run_batch : Memory → List BatchOp → Memory
run_batch db ops = record {
  family = λ cf. apply_batch cf ops (db.family cf);
  ordered = λ cf. apply_batch-IsSorted cf ops (db.family cf) (db.ordered cf);
}

family_of : Bytes → Result Bytes Memory → List Entry
family_of c (ok db) = db.family c
family_of c (err e) = []

pub family_of_ok :
    (db db' : Memory) (ops : List BatchOp)
    → ◌≡◌ {A = Result Bytes Memory} (ok (run_batch db ops)) (ok db')
    → (c : Bytes) → db'.family c ≡ apply_batch c ops (db.family c)
unfolding family_of
family_of_ok db db' ops h c = ap (family_of c) (sym h)

abbrev pub memory : Rocks
memory = record {
  Db = Memory;
  has_cf = λ db cf. true;
  iterator_from = λ db cf start. map ok (seek start (db.family cf));
  put_cf = λ db cf k v. ok (run_batch db (BatchOp.put_cf cf k v ∷ []));
  write = λ db ops. ok (run_batch db ops);
  get = λ db k. ok (lookup k (db.family default_cf));
  put = λ db k v. ok (run_batch db (BatchOp.put_cf default_cf k v ∷ []));
  entries = λ db cf. db.family cf;
  IsQuiet = λ db. Unit;
  sorted = λ db cf. db.ordered cf;
  iterator_law = λ db cf start q. refl;
  put_cf_law = λ db db' cf k v h c. family_of_ok db db' (BatchOp.put_cf cf k v ∷ []) h c;
  write_law = λ db db' ops h c. family_of_ok db db' ops h c;
  put_cf_cfs = λ db db' cf k v h c. refl;
  write_cfs = λ db db' ops h c. refl;
  get_law = λ db k q. refl;
  put_law = λ db db' k v h c. family_of_ok db db' (BatchOp.put_cf default_cf k v ∷ []) h c;
}
