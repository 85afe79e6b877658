-- ===== src/Storage/Mvcc/Latest.antt =====
-- The reference for reads: of all stored versions of a key, wherever they stand, the one with the
-- greatest timestamp that is not above the snapshot.
use synaptica.Prelude.{
  ℕ, ◌+◌, ◌≤◌, ◌<◌, ◌≡◌, refl, sym, ap, subst, ◌∙◌, inl, inr, true, false, ◌&&◌, Option, none, some,
  List, [], ◌∷◌, arith, Bytes, bytes_eq, bytes_eq_iff, bytes_eq_sound, starts_with, lex, lex_le,
  ltb, leb, All, Bool-cases, &&-eq_true, starts_with_sound, if◌then◌else◌, lex_flip_lt, lex_refl,
}
use Prim.Native.Nat.Ordering.{lt}
use mathlib.Core.Path.{subst₂}
use native.Mathlib.Decide.{dec_lt}
use synaptica.Storage.Rocks.{Entry}
use synaptica.Storage.Mvcc.{
  encode_versioned_key, extract_key_prefix, timestamp_of, u64_max, is_tombstone,
}
use synaptica.Storage.Mvcc.Versions.{
  lex-encode_versioned_key, starts_with_between, prefixes_comparable,
}

-- the version with the greater timestamp
abbrev pub newer : ℕ × Bytes → Option (ℕ × Bytes) → Option (ℕ × Bytes)
newer a none = some a
newer a (some b) = if ltb a.0 b.0 then some b else some a

unfoldable pub latest : Bytes → ℕ → List Entry → Option (ℕ × Bytes)
latest key snapshot_ts [] = none
latest key snapshot_ts (e ∷ es) =
    let rest = latest key snapshot_ts es in
    if bytes_eq (extract_key_prefix e.0) key && leb (timestamp_of e.0) snapshot_ts
    then newer (timestamp_of e.0, e.1) rest
    else rest

-- what a reader gets: a deleted version reads as nothing
abbrev pub visible : Option (ℕ × Bytes) → Option Bytes
visible none = none
visible (some (ts, v)) = if is_tombstone v then none else some v

-- an entry that `put_at` wrote: a key followed by an inverted 64-bit timestamp
pub record IsVersioned (e : Entry) : Type 0 where
  pub stamped : timestamp_of e.0 ≤ u64_max
  pub encoded : e.0 ≡ encode_versioned_key (extract_key_prefix e.0) (timestamp_of e.0)

-- neither of the two keys is a proper prefix of the other
pub record IsApart (key : Bytes) (e : Entry) : Type 0 where
  pub inside : starts_with (extract_key_prefix e.0) key ≡ true → extract_key_prefix e.0 ≡ key
  pub around : starts_with key (extract_key_prefix e.0) ≡ true → extract_key_prefix e.0 ≡ key

abbrev pub NoVersion : Bytes → Entry → Type 0
NoVersion key e = bytes_eq (extract_key_prefix e.0) key ≡ false

pub latest-NoVersion :
    (key : Bytes) (s : ℕ) (es : List Entry) → All (NoVersion key) es → latest key s es ≡ none
unfolding latest
latest-NoVersion key s [] h = refl
latest-NoVersion key s (e ∷ es) h = ground (arith, latest-NoVersion key s es h.1)

-- every version of the key has a timestamp below `b`
abbrev pub Older : Bytes → ℕ → Entry → Type 0
Older key b e = bytes_eq (extract_key_prefix e.0) key ≡ true → timestamp_of e.0 < b

abbrev pub IsBelow : ℕ → Option (ℕ × Bytes) → Type 0
IsBelow b none = Unit
IsBelow b (some r) = r.0 < b

newer-IsBelow :
    (b : ℕ) (a : ℕ × Bytes) (o : Option (ℕ × Bytes)) → a.0 < b → IsBelow b o → IsBelow b (newer a o)
newer-IsBelow b a none h k = h
newer-IsBelow b a (some r) h k = ground arith

pub latest-IsBelow :
    (key : Bytes) (s b : ℕ) (es : List Entry) → All (Older key b) es → IsBelow b (latest key s es)
unfolding latest
latest-IsBelow key s b [] h = tt
latest-IsBelow key s b (x ∷ es) h =
    let ih = latest-IsBelow key s b es h.1 in
    let raw = bytes_eq (extract_key_prefix x.0) key in
    elim (Bool-cases (raw && leb (timestamp_of x.0) s)) [
      | inl t ↦ rw t (newer-IsBelow b _ _ (h.0 (&&-eq_true raw _ t).0) ih)
      | inr f ↦ rw f ih
    ]

-- Snapshots from below `b` on show the same, if every version of the key is below `b`.
pub latest-settled :
    (key : Bytes) (b s s' : ℕ) (es : List Entry)
    → b ≤ s + 1
    → b ≤ s' + 1
    → All (Older key b) es
    → latest key s es ≡ latest key s' es
unfolding latest
latest-settled key b s s' [] h h' older = refl
latest-settled key b s s' (x ∷ es) h h' older =
    ground (arith, older.0, latest-settled key b s s' es h h' older.1)

-- The newest version stands first.
pub newer_first : (a : ℕ × Bytes) (o : Option (ℕ × Bytes)) → IsBelow a.0 o → newer a o ≡ some a
newer_first a none h = refl
newer_first a (some r) h = ground arith

module _ (key : Bytes) where
  -- A stored version of `key`
  pub version-eq :
      (e : Entry)
      → IsVersioned e
      → bytes_eq (extract_key_prefix e.0) key ≡ true
      → e.0 ≡ encode_versioned_key key (timestamp_of e.0)
  version-eq e v h =
      v.encoded ∙ ap (λ k. encode_versioned_key k (timestamp_of e.0)) (bytes_eq_sound _ _ h)

  -- Behind an entry that is not a version of `key`, but lies at or after the start of its versions,
  -- there is no version of `key`.
  pub beyond :
      (x y : Entry)
      → IsVersioned x
      → IsVersioned y
      → IsApart key x
      → lex_le (encode_versioned_key key u64_max) x.0 ≡ true
      → lex x.0 y.0 ≡ lt
      → NoVersion key x
      → NoVersion key y
  unfolding encode_versioned_key
  beyond x y vx vy apart from before other =
      elim (Bool-cases (bytes_eq (extract_key_prefix y.0) key)) [
        | inl hy ↦
            let (rest, e) = starts_with_sound x.0 key (
              starts_with_between key _ x.0 _ from
                (subst (λ t. lex x.0 t ≡ lt) (version-eq y vy hy) before)) in
            let same : extract_key_prefix x.0 ≡ key =
              elim (prefixes_comparable (extract_key_prefix x.0) key _ rest (sym vx.encoded ∙ e)) [
                | inl h ↦ apart.inside h
                | inr h ↦ apart.around h
              ] in
            absurd (cc (other, (bytes_eq_iff (extract_key_prefix x.0) key).1 same))
        | inr f ↦ f
      ]

  -- Behind a version of `key` its other versions are older.
  pub older :
      (x y : Entry)
      → IsVersioned x
      → IsVersioned y
      → lex x.0 y.0 ≡ lt
      → bytes_eq (extract_key_prefix x.0) key ≡ true
      → Older key (timestamp_of x.0) y
  older x y vx vy before hx hy =
      let tx = timestamp_of x.0 in
      let ty = timestamp_of y.0 in
      let ex = version-eq x vx hx in
      let ey = version-eq y vy hy in
      elim (dec_lt ty tx) [
        | yes h ↦ h
        | no h ↦ elim (dec_lt tx ty) [
          | yes k ↦
              let up : lex y.0 x.0 ≡ lt =
                subst₂ (λ u v. lex u v ≡ lt) (sym ey) (sym ex)
                  (lex-encode_versioned_key key tx ty k vy.stamped) in
              absurd (cc (before, lex_flip_lt y.0 x.0 up))
          | no k ↦
              let same : x.0 ≡ y.0 =
                ex
                ∙ ap (λ t. encode_versioned_key key t) (let e : tx ≡ ty = omega arith in e)
                ∙ sym ey in
              absurd (cc (before, lex_refl x.0, same))
        ]
      ]
