-- ===== src/Storage/Mvcc/Versions.antt =====
-- Versioned keys: what is read back from one, and how they are ordered.
use synaptica.Prelude.{
  ℕ, ◌+◌, ◌-◌, ◌≤◌, ◌<◌, ◌≡◌, refl, ◌⊎◌, inl, inr, true, some, [], ◌∷◌, ◌++◌, arith, Bytes, length,
  drop, length-append, take-append, drop-append, starts_with, lex, lex_le, lex-append, lex-be_bytes,
  be_bytes, from_be, length-be_bytes, from_be-be_bytes,
}
use Prim.Native.Nat.Ordering.{lt}
use synaptica.Storage.Mvcc.{
  encode_versioned_key, decode_versioned_timestamp, extract_key_prefix, timestamp_of, u64_max,
  invert,
}

-- The timestamp and the key are read back from a versioned key, for any 64-bit timestamp.
pub decode-encode_versioned_key :
    (key : Bytes) (ts : ℕ)
    → ts ≤ u64_max
    → (decode_versioned_timestamp (encode_versioned_key key ts) ≡ some ts)
      × (extract_key_prefix (encode_versioned_key key ts) ≡ key)
unfolding encode_versioned_key decode_versioned_timestamp extract_key_prefix
decode-encode_versioned_key key ts h =
    let tail = be_bytes 8 (invert ts) in
    let n : length (key ++ tail) ≡ length key + 8 =
      omega (arith, length-append key tail, length-be_bytes 8 (invert ts)) in
    let m : length (key ++ tail) - 8 ≡ length key = omega (arith, n) in
    rw m (
      let d : drop (length key) (key ++ tail) ≡ tail = drop-append (length key) key tail refl in
          let b : from_be tail ≡ invert ts = from_be-be_bytes 8 (invert ts) (omega arith) in
          rw (d, b) (ground (arith, n)),
      ground (arith, n, take-append (length key) key tail refl),
    )

pub timestamp_of-encode :
    (key : Bytes) (ts : ℕ) → ts ≤ u64_max → timestamp_of (encode_versioned_key key ts) ≡ ts
unfolding timestamp_of
timestamp_of-encode key ts h = rw ((decode-encode_versioned_key key ts h).0, timestamp_of)

-- A newer version of a key comes before an older one, for 64-bit timestamps.
pub lex-encode_versioned_key :
    (key : Bytes) (older newer : ℕ)
    → older < newer
    → newer ≤ u64_max
    → lex (encode_versioned_key key newer) (encode_versioned_key key older) ≡ lt
unfolding encode_versioned_key
lex-encode_versioned_key key older newer h k =
    rw lex-append (lex-be_bytes 8 (invert newer) (invert older) (omega arith) (omega arith))

-- A byte string between two extensions of `key` extends `key`.
pub starts_with_between :
    (key z x w : Bytes)
    → lex_le (key ++ z) x ≡ true
    → lex x (key ++ w) ≡ lt
    → starts_with x key ≡ true
unfolding lex starts_with
starts_with_between [] z [] w h k = refl
starts_with_between [] z (b ∷ bs) w h k = refl
starts_with_between (c ∷ cs) z [] w h k = absurd (cc)
starts_with_between (c ∷ cs) z (b ∷ bs) w h k = ground (arith, starts_with_between cs z bs w)

-- One of two prefixes of a byte string starts with the other.
pub prefixes_comparable :
    (a b x y : Bytes) → a ++ x ≡ b ++ y → (starts_with a b ≡ true) ⊎ (starts_with b a ≡ true)
unfolding starts_with
prefixes_comparable [] [] x y e = inl refl
prefixes_comparable [] (b ∷ bs) x y e = inr refl
prefixes_comparable (a ∷ as') [] x y e = inl refl
prefixes_comparable (a ∷ as') (b ∷ bs) x y e = ground (arith, prefixes_comparable as' bs x y)
