-- ===== src/Storage/Mvcc/Masking.antt =====
-- A key that extends another one hides it from `get_at`.
use synaptica.Prelude.{
  ℕ, ◌/◌, ◌^◌, ◌<◌, ◌≡◌, ap, ◌⊎◌, inl, inr, true, none, List, [], ◌∷◌, ◌++◌, arith, Bytes, bytes_eq,
  lex, lex_le, lex_refl, lex-append, be_bytes, All, All-retain, All-In, In, In-retain, map,
  Bool-cases, ok,
}
use Prim.Native.Nat.Ordering.{lt, gt}
use synaptica.Storage.Rocks.{Rocks, Entry, IsSorted, seek}
use synaptica.Storage.Mvcc.{
  encode_versioned_key, extract_key_prefix, timestamp_of, u64_max, invert, scan_versions, get_at,
}
use synaptica.Storage.Mvcc.Latest.{IsVersioned, version-eq}
use synaptica.Storage.Mvcc.Reads.{seek-IsSorted}

-- the first byte after the key of a version written before timestamp 2^56 is 0xFF
version_byte : (t : ℕ) → t < 2 ^ 56 → invert t / 256 ^ 7 ≡ 255
version_byte t h = omega arith

module _ (key : Bytes) (b : ℕ) (ext v : Bytes) where
  -- an entry of a key that extends `key`, the extension beginning with `b`
  abbrev longer : Entry
  longer = (key ++ b ∷ ext, v)

  -- It stands before every version of `key`.
  before_versions :
      (e : Entry)
      → b < 255
      → IsVersioned e
      → timestamp_of e.0 < 2 ^ 56
      → bytes_eq (extract_key_prefix e.0) key ≡ true
      → lex e.0 longer.0 ≡ gt
  unfolding encode_versioned_key be_bytes lex
  before_versions e hb ve early same =
      rw (version-eq key e ve same, lex-append)
        (let f = version_byte (timestamp_of e.0) early in ground (arith, f))

  -- It is within the range that `get_at` iterates over.
  in_range : 0 < b → lex_le (encode_versioned_key key u64_max) longer.0 ≡ true
  unfolding encode_versioned_key be_bytes lex
  in_range hb =
      let e = lex-append key (be_bytes 8 (invert u64_max)) (b ∷ ext) in
      rw (e, lex_le) (ground arith)

-- The first entry of an ordered list is one of its entries or stands before it.
head_first :
    (x y : Entry) (ys : List Entry)
    → IsSorted (y ∷ ys)
    → In x (y ∷ ys)
    → (x ≡ y) ⊎ (lex y.0 x.0 ≡ lt)
head_first x y ys so (inl e) = inl e
head_first x y ys so (inr i) = inr (All-In (λ f. lex y.0 f.0 ≡ lt) x ys so.0 i)

first_is_other :
    (key : Bytes) (b : ℕ) (ext v : Bytes) (s : ℕ)
    → b < 255
    → (es : List Entry) → IsSorted es
    → All IsVersioned es
    → All (λ e. timestamp_of e.0 < 2 ^ 56) es
    → In (key ++ b ∷ ext, v) es
    → scan_versions key s (map ok es) ≡ ok none
unfolding scan_versions
first_is_other key b ext v s hb [] so ve early i = absurd i
first_is_other key b ext v s hb (y ∷ ys) so ve early i =
    elim (Bool-cases (bytes_eq (extract_key_prefix y.0) key)) [
      | inr other ↦ rw other
      | inl same ↦
          let gt' = before_versions key b ext v y hb ve.0 early.0 same in
          elim (head_first (key ++ b ∷ ext, v) y ys so i) [
            | inl e ↦ absurd (cc (gt', ap (λ t. t.0) e, lex_refl y.0))
            | inr l ↦ absurd (cc (gt', l))
          ]
    ]

module _ (rocks : Rocks) where
  open rocks use {Db, has_cf, entries, IsQuiet, sorted, iterator_law}

  -- A key is lost to readers as soon as the column family holds a version of a key that extends it,
  -- the extension beginning with a byte from 1 to 254: `get_at` then returns nothing at any snapshot,
  -- whatever versions of the key are stored. The timestamps are below 2^56.
  pub get_at-masked :
      (db : Db) (cf_name key : Bytes) (b : ℕ) (ext v : Bytes) (snapshot_ts : ℕ)
      → 0 < b
      → b < 255
      → IsQuiet db
      → has_cf db cf_name ≡ true
      → All IsVersioned (entries db cf_name)
      → All (λ e. timestamp_of e.0 < 2 ^ 56) (entries db cf_name)
      → In (key ++ b ∷ ext, v) (entries db cf_name)
      → get_at rocks db cf_name key snapshot_ts ≡ ok none
  unfolding get_at
  get_at-masked db cf_name key b ext v s lo hi quiet family ve early i =
      let start = encode_versioned_key key u64_max in
      let es = entries db cf_name in
      rw (family, iterator_law db cf_name start quiet)
        (first_is_other key b ext v s hi (seek start es)
          (seek-IsSorted start es (sorted db cf_name))
          (All-retain IsVersioned (λ e. lex_le start e.0) es ve)
          (All-retain (λ e. timestamp_of e.0 < 2 ^ 56) (λ e. lex_le start e.0) es early)
          (In-retain (λ e. lex_le start e.0) _ es i (in_range key b ext v lo)))
