-- ===== src/Storage/Mvcc/Reads.antt =====
-- `get_at` returns the newest visible version, although it stops at the first entry of another key.
use synaptica.Prelude.{
  ℕ, ◌≡◌, refl, sym, ap, ◌∙◌, inl, inr, true, List, [], ◌∷◌, arith, Bytes, bytes_eq, lex, lex_le,
  lex_refl, leb, All, All-map₂, All-retain, map, Bool-cases, ok,
}
use Prim.Native.Nat.Ordering.{lt}
use native.Mathlib.Decide.{dec_lt}
use native.Mathlib.Nat.{le_refl}
use synaptica.Storage.Rocks.{Rocks, Entry, IsSorted, seek}
use synaptica.Storage.Mvcc.{
  encode_versioned_key, extract_key_prefix, timestamp_of, u64_max, scan_versions, get_at,
}
use synaptica.Storage.Mvcc.Versions.{lex-encode_versioned_key}
use synaptica.Storage.Mvcc.Latest.{
  latest, visible, IsVersioned, IsApart, latest-NoVersion, latest-IsBelow, newer_first, version-eq,
  beyond, older,
}

module _ (key : Bytes) (s : ℕ) where
  abbrev From : Entry → Type 0
  From e = lex_le (encode_versioned_key key u64_max) e.0 ≡ true

  scan-latest :
      (es : List Entry)
      → IsSorted es
      → All IsVersioned es
      → All (IsApart key) es
      → All From es
      → scan_versions key s (map ok es) ≡ ok (visible (latest key s es))
  unfolding scan_versions latest
  scan-latest [] so ve ap' fr = refl
  scan-latest (x ∷ es) so ve ap' fr =
      let raw = bytes_eq (extract_key_prefix x.0) key in
      elim (Bool-cases raw) [
        | inr other ↦ rw other (
            rw (
              latest-NoVersion key s es
                (All-map₂ (λ y b v. beyond key x y ve.0 v ap'.0 fr.0 b other) es so.0 ve.1)))
        | inl same ↦ elim (Bool-cases (leb (timestamp_of x.0) s)) [
          | inl seen ↦
              let first =
                newer_first (timestamp_of x.0, x.1) (latest key s es)
                  (latest-IsBelow key s (timestamp_of x.0) es
                    (All-map₂ (λ y b v. older key x y ve.0 v b same) es so.0 ve.1)) in
              rw (same, seen, first) (ground arith)
          | inr hidden ↦ rw (same, hidden) (scan-latest es so.1 ve.1 ap'.1 fr.1)
        ]
      ]

  -- Every version of the key lies at or after the key that the iterator starts from.
  version-From : (e : Entry) → IsVersioned e → bytes_eq (extract_key_prefix e.0) key ≡ true → From e
  version-From e v h =
      let t = timestamp_of e.0 in
      elim (dec_lt t u64_max) [
        | yes k ↦ rw (version-eq key e v h) (
            let l = lex-encode_versioned_key key t u64_max k (le_refl u64_max) in ground (arith, l))
        | no k ↦
            let m : t ≡ u64_max = omega (arith, v.stamped) in
            let same : encode_versioned_key key u64_max ≡ e.0 =
              ap (λ n. encode_versioned_key key n) (sym m) ∙ sym (version-eq key e v h) in
            rw same (let l = lex_refl e.0 in ground (arith, l))
      ]

  pub latest-seek :
      (es : List Entry)
      → All IsVersioned es
      → latest key s (seek (encode_versioned_key key u64_max) es) ≡ latest key s es
  unfolding latest
  latest-seek [] ve = refl
  latest-seek (x ∷ es) ve =
      let ih = latest-seek es ve.1 in
      elim (Bool-cases (lex_le (encode_versioned_key key u64_max) x.0)) [
        | inl from ↦ rw (from, ih)
        | inr before ↦ elim (Bool-cases (bytes_eq (extract_key_prefix x.0) key)) [
          | inl same ↦ absurd (cc (before, version-From x ve.0 same))
          | inr other ↦ rw (before, other) ih
        ]
      ]

  seek-From : (es : List Entry) → All From (seek (encode_versioned_key key u64_max) es)
  seek-From [] = tt
  seek-From (x ∷ es) = elim (Bool-cases (lex_le (encode_versioned_key key u64_max) x.0)) [
    | inl from ↦ rw from (from, seek-From es)
    | inr before ↦ rw before (seek-From es)
  ]

pub seek-IsSorted : (start : Bytes) (es : List Entry) → IsSorted es → IsSorted (seek start es)
seek-IsSorted start [] so = tt
seek-IsSorted start (x ∷ es) so = elim (Bool-cases (lex_le start x.0)) [
  | inl from ↦ rw from (
    All-retain (λ f. lex x.0 f.0 ≡ lt) (λ e. lex_le start e.0) es so.0,
    seek-IsSorted start es so.1,
  )
  | inr before ↦ rw before (seek-IsSorted start es so.1)
]

module _ (rocks : Rocks) where
  open rocks use {Db, has_cf, entries, IsQuiet, sorted, iterator_law}

  -- The column family exists and reading meets no error, it holds versioned keys only, and no other
  -- key in it extends the key or is a proper prefix of it.
  pub record IsReadable (db : Db) (cf_name key : Bytes) : Type 0 where
    pub quiet : IsQuiet db
    pub family : has_cf db cf_name ≡ true
    pub versioned : All IsVersioned (entries db cf_name)
    pub apart : All (IsApart key) (entries db cf_name)

  -- Where the key is readable, `get_at` returns the value of the version with the greatest timestamp
  -- not above the snapshot, and nothing if there is none or if that version is a tombstone.
  pub get_at-latest :
      (db : Db) (cf_name key : Bytes) (snapshot_ts : ℕ)
      → IsReadable db cf_name key
      → get_at rocks db cf_name key snapshot_ts
        ≡ ok (visible (latest key snapshot_ts (entries db cf_name)))
  unfolding get_at
  get_at-latest db cf_name key s h =
      let start = encode_versioned_key key u64_max in
      let es = entries db cf_name in
      rw (h.family, iterator_law db cf_name start h.quiet)
        (scan-latest key s (seek start es) (seek-IsSorted start es (sorted db cf_name))
            (All-retain IsVersioned (λ e. lex_le start e.0) es h.versioned)
            (All-retain (IsApart key) (λ e. lex_le start e.0) es h.apart) (seek-From key s es)
          ∙ ap (λ r. ok (visible r)) (latest-seek key s es h.versioned))
