-- ===== src/Prelude/Tables.antt =====
-- A `HashMap` with byte-string keys, as an association list with one entry for a key.
use mathlib.Core.Path.{◌≡◌, refl}
use mathlib.Core.Logic.{inl, inr}
use mathlib.Core.Bool.{true, false}
use mathlib.Core.List.{List, [], ◌∷◌}
use mathlib.Core.Option.{Option, none, some}
use native.Mathlib.Omega.{arith}
use synaptica.Prelude.Tests.{if◌then◌else◌, Bool-cases}
use synaptica.Prelude.ByteStrings.{Bytes, bytes_eq, bytes_eq_sound, bytes_eq_refl}

-- A key that differs from the first of two equal ones differs from the second.
other_key : (i k j : Bytes) → bytes_eq i k ≡ false → bytes_eq i j ≡ true → bytes_eq k j ≡ false
other_key i k j e f = elim (Bool-cases (bytes_eq k j)) [
  | inr g ↦ g
  | inl g ↦
      let a = bytes_eq_sound i j f in
      let b = bytes_eq_sound k j g in absurd (cc (e, bytes_eq_refl k, a, b))
]

module _ {ℓ} {V : Type ℓ} where
  -- `get`
  unfoldable pub get_key : Bytes → List (Bytes × V) → Option V
  get_key k [] = none
  get_key k ((j, v) ∷ t) = if bytes_eq j k then some v else get_key k t

  -- `insert`
  unfoldable pub put_key : Bytes → V → List (Bytes × V) → List (Bytes × V)
  put_key k v [] = (k, v) ∷ []
  put_key k v ((j, w) ∷ t) = if bytes_eq j k then (j, v) ∷ t else (j, w) ∷ put_key k v t

  pub get_key-put_key :
      (k j : Bytes) (v : V) (t : List (Bytes × V))
      → get_key j (put_key k v t) ≡ (if bytes_eq k j then some v else get_key j t)
  unfolding get_key put_key
  get_key-put_key k j v [] = refl
  get_key-put_key k j v ((i, w) ∷ t) = elim (Bool-cases (bytes_eq i k)) [
    | inl e ↦ (let same = bytes_eq_sound i k e in rw (e, same) (ground arith))
    | inr e ↦ elim (Bool-cases (bytes_eq i j)) [
      | inl f ↦ (let n = other_key i k j e f in rw (e, f, n))
      | inr f ↦ rw (e, f) (get_key-put_key k j v t)
    ]
  ]
