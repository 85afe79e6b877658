-- ===== src/Tx/Transaction/OwnWrites.antt =====
-- Reads of a transaction see its own buffered writes, the last one of a key.
use synaptica.Prelude.{
  ℕ, ◌≡◌, refl, ap, ◌∙◌, inl, inr, true, ◌&&◌, Option, none, some, List, [], ◌∷◌, ◌++◌, arith,
  Bytes, bytes_eq, if◌then◌else◌, ok, err, map_err, not, Bool-cases,
}
use mathlib.Core.List.{reverse, reverse-append, reverse-cons}
use synaptica.Storage.Rocks.{Rocks}
use synaptica.Storage.Mvcc.{Write, get_at}
use synaptica.Storage.Mvcc.Batches.{last_write, is_write_of}
use synaptica.Tx.Transaction.{Transaction, TxError, new, is_active, find_write, get, put, delete}

find_write-append :
    (cf key : Bytes) (xs ys : List Write)
    → find_write cf key (xs ++ ys)
      ≡ elim (find_write cf key xs) [ none ↦ find_write cf key ys | some v ↦ some v ]
unfolding find_write
find_write-append cf key [] ys = refl
find_write-append cf key (x ∷ xs) ys = ground (arith, find_write-append cf key xs ys)

find_write_one :
    (cf key : Bytes) (w : Write)
    → find_write cf key (w ∷ []) ≡ (if is_write_of cf key w then some w.value else none)
unfolding find_write is_write_of
find_write_one cf key w = refl

-- Searching the buffer from its end finds the last write of the key.
find_write-reverse :
    (cf key : Bytes) (ws : List Write) → find_write cf key (reverse ws) ≡ last_write cf key ws
unfolding last_write
find_write-reverse cf key [] = unfold find_write in refl
find_write-reverse cf key (w ∷ ws) =
    ap (find_write cf key) (reverse-cons w ws)
    ∙ find_write-append cf key (reverse ws) (w ∷ [])
    ∙ step (find_write-reverse cf key ws)
  where
    step :
        find_write cf key (reverse ws) ≡ last_write cf key ws
        → elim (find_write cf key (reverse ws)) as (λ _. Option (Option Bytes)) [
          | none ↦ find_write cf key (w ∷ [])
          | some v ↦ some v
        ]
          ≡ last_write cf key (w ∷ ws)
    step e = λ i. elim (e i) as (λ _. Option (Option Bytes)) [
      | none ↦ find_write_one cf key w i
      | some v ↦ some v
    ]

module _ (rocks : Rocks) (tx : Transaction) (w : Write) (on : is_active tx.state ≡ true) where
  get_buffered :
      (db : rocks.Db) (cf k : Bytes)
      → get rocks (record tx { write_set = tx.write_set ++ w ∷ [] }) db cf k
        ≡ (if is_write_of cf k w then ok w.value else get rocks tx db cf k)
  unfolding get
  get_buffered db cf k =
      let e : find_write cf k (reverse (tx.write_set ++ w ∷ []))
          ≡ (if is_write_of cf k w then some w.value else find_write cf k (reverse tx.write_set)) =
        rw (reverse-append tx.write_set (w ∷ [])) (unfold find_write is_write_of in refl) in
      elim (Bool-cases (is_write_of cf k w)) [ inl h ↦ rw (on, e, h) | inr h ↦ rw (on, e, h) ]

module _ (rocks : Rocks) (tx tx' : Transaction) (cf_name key : Bytes) where
  -- After a successful `put` a read of the key gives the value that was put, and a read of any other
  -- key, or of the key in another column family, gives what it gave before.
  pub get-put :
      (value : Bytes) (db : rocks.Db) (cf k : Bytes)
      → put tx cf_name key value ≡ ok tx'
      → get rocks tx' db cf k
        ≡ (if bytes_eq cf_name cf && bytes_eq key k then ok (some value) else get rocks tx db cf k)
  unfolding put is_write_of
  get-put value db cf k h = elim (Bool-cases (is_active tx.state)) [
    | inr off ↦ absurd (ground (arith, off))
    | inl on ↦
        let w : Write = record { cf_name = cf_name; key = key; value = some value } in
        let e : tx' ≡ record tx { write_set = tx.write_set ++ w ∷ [] } = ground (arith, on) in
        rw e (get_buffered rocks tx w on db cf k)
  ]

  -- After a successful `delete` a read of the key gives nothing, and a read of any other key, or of
  -- the key in another column family, gives what it gave before.
  pub get-delete :
      (db : rocks.Db) (cf k : Bytes)
      → delete tx cf_name key ≡ ok tx'
      → get rocks tx' db cf k
        ≡ (if bytes_eq cf_name cf && bytes_eq key k then ok none else get rocks tx db cf k)
  unfolding delete is_write_of
  get-delete db cf k h = elim (Bool-cases (is_active tx.state)) [
    | inr off ↦ absurd (ground (arith, off))
    | inl on ↦
        let w : Write = record { cf_name = cf_name; key = key; value = none } in
        let e : tx' ≡ record tx { write_set = tx.write_set ++ w ∷ [] } = ground (arith, on) in
        rw e (get_buffered rocks tx w on db cf k)
  ]

module _ (rocks : Rocks) (tx : Transaction) (cf key : Bytes) where
  -- A buffered key reads as its last write, whatever the store holds.
  pub get_own :
      (db : rocks.Db) (v : Option Bytes)
      → is_active tx.state ≡ true
      → last_write cf key tx.write_set ≡ some v
      → get rocks tx db cf key ≡ ok v
  unfolding get
  get_own db v on w =
      let e : find_write cf key (reverse tx.write_set) ≡ some v =
        find_write-reverse cf key tx.write_set ∙ w in
      rw (on, e)

  -- A transaction depends on the store by what its snapshot shows of the key alone.
  pub get_same_read :
      (d d' : rocks.Db)
      → get_at rocks d cf key tx.snapshot_ts ≡ get_at rocks d' cf key tx.snapshot_ts
      → get rocks tx d cf key ≡ get rocks tx d' cf key
  unfolding get
  get_same_read d d' e = λ i.
      if not (is_active tx.state)
      then err TxError.not_active
      else elim (find_write cf key (reverse tx.write_set)) [
        | some value ↦ ok value
        | none ↦ map_err TxError.mvcc (e i)
      ]

-- A transaction that has written nothing reads what its snapshot shows.
pub get-new :
    (rocks : Rocks) (id snapshot_ts : ℕ) (db : rocks.Db) (cf key : Bytes)
    → get rocks (new id snapshot_ts) db cf key
      ≡ map_err TxError.mvcc (get_at rocks db cf key snapshot_ts)
unfolding get find_write
get-new rocks id snapshot_ts db cf key = refl
