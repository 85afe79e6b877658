-- ===== src/Storage/Mvcc/Writes.antt =====
-- What a stored version changes for readers: nothing below its timestamp and for other keys, and
-- it is what readers at or above its timestamp get while no version is newer.
use synaptica.Prelude.{
  Ordering-cases, ℕ, ◌≤◌, ◌≡◌, ◌≢◌, sym, ap, subst, ◌∙◌, inl, inr, Bool, true, false, ◌&&◌, some,
  List, [], ◌∷◌, arith, Bytes, bytes_eq, bytes_eq_refl, lex, lex_refl, eq_of_lex, lex_trans, leb,
  All, All-imp, Bool-cases, if◌then◌else◌, le→leb,
}
use Prim.Native.Nat.Ordering.{lt, eq, gt}
use native.Mathlib.Decide.{dec_lt}
use synaptica.Storage.Rocks.{Entry, IsSorted, insert, insert_before, insert_over, insert_behind}
use synaptica.Storage.Mvcc.{encode_versioned_key, extract_key_prefix, timestamp_of, u64_max}
use synaptica.Storage.Mvcc.Versions.{decode-encode_versioned_key, timestamp_of-encode}
use synaptica.Storage.Mvcc.Latest.{
  latest, newer, newer_first, latest-IsBelow, Older, IsVersioned, version-eq,
}

-- an entry that a read of `key` at `s` passes over
abbrev pub passed : Bytes → ℕ → Entry → Bool
passed key s e = bytes_eq (extract_key_prefix e.0) key && leb (timestamp_of e.0) s

-- A written entry that the read passes over changes nothing, if what it overwrites was passed over
-- too, being an entry of the same key.
pub latest-insert-passed :
    (key : Bytes) (s : ℕ) (k v : Bytes) (es : List Entry)
    → passed key s (k, v) ≡ false
    → latest key s (insert k v es) ≡ latest key s es
unfolding latest
latest-insert-passed key s k v [] h = rw h
latest-insert-passed key s k v (x ∷ es) h = elim (Ordering-cases (lex k x.0)) [
  | inl e ↦ rw (insert_before k v x es e, h)
  | inr (inl e) ↦
      let hx : passed key s x ≡ false =
        subst (λ u. bytes_eq (extract_key_prefix u) key && leb (timestamp_of u) s ≡ false)
          (eq_of_lex k x.0 e) h in
      rw (insert_over k v x es e, h, hx)
  | inr (inr e) ↦ rw (insert_behind k v x es e, latest-insert-passed key s k v es h)
]

module _ (key : Bytes) (s t : ℕ) (v : Bytes) (fits : t ≤ u64_max) (visible_at : t ≤ s) where
  abbrev k : Bytes
  k = encode_versioned_key key t

  -- no stored version of the key is newer than `t`
  abbrev pub NotNewer : Entry → Type 0
  NotNewer e = bytes_eq (extract_key_prefix e.0) key ≡ true → timestamp_of e.0 ≤ t

  other-Older : (e : Entry) → IsVersioned e → lex k e.0 ≢ eq → NotNewer e → Older key t e
  other-Older e ve ne nn hk = elim (dec_lt (timestamp_of e.0) t) [
    | yes h ↦ h
    | no h ↦
        let same : timestamp_of e.0 ≡ t = omega (arith, nn hk) in
        let ek : e.0 ≡ k = version-eq key e ve hk ∙ ap (λ n. encode_versioned_key key n) same in
        absurd (ne (ap (λ u. lex k u) ek ∙ lex_refl k))
  ]

  seen : passed key s (k, v) ≡ true
  seen =
      let d = decode-encode_versioned_key key t fits in
      rw (d.1, timestamp_of-encode key t fits, bytes_eq_refl key) (le→leb t s visible_at)

  All-older :
      (es : List Entry)
      → All (λ y. lex k y.0 ≡ lt) es
      → All IsVersioned es
      → All NotNewer es
      → All (Older key t) es
  All-older [] b ve nn = tt
  All-older (x ∷ es) b ve nn =
      (other-Older x ve.0 (λ e. cc (e, b.0)) nn.0, All-older es b.1 ve.1 nn.1)

  head_older :
      (x : Entry)
      → lex k x.0 ≡ gt
      → IsVersioned x
      → NotNewer x
      → (if passed key s x then newer (timestamp_of x.0, x.1) (some (t, v)) else some (t, v))
        ≡ some (t, v)
  head_older x e ve nn =
      let old = other-Older x ve (λ h. cc (e, h)) nn in
      let raw = bytes_eq (extract_key_prefix x.0) key in
      elim (Bool-cases raw) [ inl h ↦ (let o = old h in rw h (ground arith)) | inr h ↦ rw h ]

  pub latest-insert_newest :
      (es : List Entry)
      → IsSorted es
      → All IsVersioned es
      → All NotNewer es
      → latest key s (insert k v es) ≡ some (t, v)
  unfolding latest
  latest-insert_newest [] so ve nn = rw (seen, timestamp_of-encode key t fits)
  latest-insert_newest (x ∷ es) so ve nn =
      let tk = timestamp_of-encode key t fits in
      elim (Ordering-cases (lex k x.0)) [
        | inl e ↦
            let after = All-imp (λ y b. lex_trans k x.0 y.0 e b) es so.0 in
            rw (insert_before k v x es e, seen, tk)
              (newer_first (t, v) (latest key s (x ∷ es))
                (latest-IsBelow key s t (x ∷ es) (All-older (x ∷ es) (e, after) ve nn)))
        | inr (inl e) ↦
            let after = subst (λ u. All (λ y. lex u y.0 ≡ lt) es) (sym (eq_of_lex k x.0 e)) so.0 in
            rw (insert_over k v x es e, seen, tk)
              (newer_first (t, v) (latest key s es)
                (latest-IsBelow key s t es (All-older es after ve.1 nn.1)))
        | inr (inr e) ↦
            rw (insert_behind k v x es e, latest-insert_newest es so.1 ve.1 nn.1)
              (head_older x e ve.0 nn.0)
      ]
