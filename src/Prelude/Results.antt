-- ===== src/Prelude/Results.antt =====
-- Rust's `Result`, with the chaining that `?` makes, and text literals as bytes.
use Prim.Native.Nat.{ℕ}
use Prim.Native.Char.{code}
use Prim.Native.String.{String}
use mathlib.Core.Path.{◌≡◌, refl}
use mathlib.Core.List.{List, [], ◌∷◌}
use mathlib.Core.Logic.{◌⊎◌, inl, inr}

pub data Result {ℓ κ} (E : Type ℓ) (A : Type κ) : Type (ℓ ⊔ κ) where
  ok : A → Result E A
  err : E → Result E A

infixl 5 ◌>>=◌
abbrev pub ◌>>=◌ {ℓ κ μ} :
    {E : Type ℓ} {A : Type κ} {B : Type μ} → Result E A → (A → Result E B) → Result E B
ok a >>= f = f a
err e >>= f = err e

-- `map_err`; `?` makes such a call with the `From` of the error type.
abbrev pub map_err {ℓ κ μ} :
    {E : Type ℓ} {F : Type κ} {A : Type μ} → (E → F) → Result E A → Result F A
map_err f (ok a) = ok a
map_err f (err e) = err (f e)

abbrev pub map_ok {ℓ κ μ} :
    {E : Type ℓ} {A : Type κ} {B : Type μ} → (A → B) → Result E A → Result E B
map_ok f (ok a) = ok (f a)
map_ok f (err e) = err e

pub Result-cases {ℓ κ} :
    {E : Type ℓ} {A : Type κ} (r : Result E A) → ((a : A) × (r ≡ ok a)) ⊎ ((e : E) × (r ≡ err e))
Result-cases (ok a) = inl (a, refl)
Result-cases (err e) = inr (e, refl)

-- The code points of a text literal: its bytes, where it is ASCII.
abbrev pub codes : String → List ℕ
codes String.[] = []
codes (String.◌∷◌ c s) = code c ∷ codes s

-- `P` holds of a value, `Q` of an error.
pub data Post {ℓ κ} {E : Type ℓ} {A : Type κ} (P : A → Type 0) (Q : E → Type 0)
    : Result E A → Type (ℓ ⊔ κ) where
  returns : {a : A} → P a → Post P Q (ok a)
  raises : {e : E} → Q e → Post P Q (err e)

module _ {ℓ κ μ} {E : Type ℓ} {A : Type κ} {B : Type μ} {Q : E → Type 0} where
  pub Post-bind :
      {P : A → Type 0} {R : B → Type 0} {r : Result E A} {f : A → Result E B}
      → Post P Q r
      → ((a : A) → P a → Post R Q (f a))
      → Post R Q (r >>= f)
  Post-bind (returns h) k = k _ h
  Post-bind (raises h) k = raises h

pub Post-imp {ℓ κ} :
    {E : Type ℓ} {A : Type κ} {P R : A → Type 0} {Q : E → Type 0} {r : Result E A}
    → ((a : A) → P a → R a)
    → Post P Q r
    → Post R Q r
Post-imp f (returns h) = returns (f _ h)
Post-imp f (raises h) = raises h
