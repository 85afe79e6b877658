-- ===== src/Exec/Arithmetic/Typed.antt =====
-- The operators on well-formed values yield well-formed values.
use mathlib.Core.Bool.{false≢true}
use synaptica.Prelude.{
  starts_with, codes, Bytes, sym, ◌∙◌, Bool, true, false, Option, none, some, ◌≡◌, Post, returns,
  raises, ok, err, Bool-cases, refl, inl, inr, if◌then◌else◌, Ordering,
}
use synaptica.Prelude.Integers.{ℤ, IsI64, is_i64, wrap_i64, trem, neg_ℤ, tdiv}
use synaptica.Prelude.Integers.Bounds.{is_i64→IsI64, wrap_i64-IsI64, trem-IsI64}
use synaptica.Core.Values.{Scalars, Value, null, bool, integer, float, string, list}
use synaptica.Core.Values.WellFormed.{IsValue, append_values-AreValues}
use synaptica.Gql.Ast.{
  BinaryOp, add, sub, mul, div, modulo, and, or, xor, concat, eq, neq, lt, gt, le, ge, UnaryOp,
}
use synaptica.Exec.Record.{expression_error, Raised, exec, panic, Outcome}
use synaptica.Exec.Arithmetic.{
  expression_err, checked, checked_exact, eval_arithmetic, compare_values, eval_comparison,
  eval_binary_op, eval_unary_op, eval_and, eval_or, eval_xor, eval_concat, eval_not, eval_neg,
  eval_pos, checked_neg, is_zero_value,
}

abbrev pub is_unknown_identifier : Bytes → Bool
is_unknown_identifier message = starts_with message (codes "unknown identifier: ")

-- an error, which is that of an unknown identifier only if `U`, or a panic in a build with overflow checks
abbrev pub IsExpected : Scalars → Type 0 → Raised → Type 0
IsExpected S U (exec (expression_error m)) = is_unknown_identifier m ≡ true → U
IsExpected S U (exec _) = Unit
IsExpected S U panic = S.overflow_checks ≡ true

pub Post-if {ℓ κ} :
    {A : Type ℓ} (P : A → Type κ) (b : Bool) {x y : A} → P x → P y → P (if b then x else y)
Post-if P true h k = h
Post-if P false h k = k

abbrev pub MaybeI64 : Option ℤ → Type 0
MaybeI64 none = Unit
MaybeI64 (some z) = IsI64 z

checked-MaybeI64 : (b : Bool) (z : ℤ) → MaybeI64 (checked b z)
unfolding checked
checked-MaybeI64 b z = elim (Bool-cases (is_i64 z)) [
  | inl e ↦ rw (checked, e) (is_i64→IsI64 z e)
  | inr e ↦
      rw (checked, e) (Post-if MaybeI64 b {x = none} {y = some (wrap_i64 z)} tt (wrap_i64-IsI64 z))
]

checked_exact-MaybeI64 : (q z : ℤ) → (is_i64 q ≡ true → IsI64 z) → MaybeI64 (checked_exact q z)
unfolding checked_exact
checked_exact-MaybeI64 q z h = elim (Bool-cases (is_i64 q)) [
  | inl e ↦ rw (checked_exact, e) (h e)
  | inr e ↦ rw (checked_exact, e) tt
]

module _ {S : Scalars} where
  pub eval_and-IsValue : (a b : Value S) → IsValue (eval_and a b)
  unfolding IsValue
  eval_and-IsValue (bool false) b = tt
  eval_and-IsValue (bool true) (bool true) = tt
  eval_and-IsValue (bool true) (bool false) = tt
  eval_and-IsValue (bool true) _ = tt
  eval_and-IsValue _ (bool true) = tt
  eval_and-IsValue _ (bool false) = tt
  eval_and-IsValue _ _ = tt

  pub eval_or-IsValue : (a b : Value S) → IsValue (eval_or a b)
  unfolding IsValue
  eval_or-IsValue (bool true) b = tt
  eval_or-IsValue (bool false) (bool true) = tt
  eval_or-IsValue (bool false) (bool false) = tt
  eval_or-IsValue (bool false) _ = tt
  eval_or-IsValue _ (bool true) = tt
  eval_or-IsValue _ (bool false) = tt
  eval_or-IsValue _ _ = tt

  eval_xor-IsValue : (a b : Value S) → IsValue (eval_xor a b)
  unfolding IsValue
  eval_xor-IsValue (bool a) (bool b) = tt
  eval_xor-IsValue _ _ = tt

module _ (S : Scalars) (U : Type 0) where
  abbrev pub IsTyped : Outcome (Value S) → Type 0
  IsTyped = Post IsValue (IsExpected S U)

  option-IsTyped :
      (o : Option ℤ) (m : Bytes)
      → is_unknown_identifier m ≡ false
      → MaybeI64 o
      → IsTyped (elim o [ some z ↦ ok (integer z) | none ↦ expression_err m ])
  unfolding IsValue
  option-IsTyped none m f h = raises (λ e. absurd (false≢true (sym f ∙ e)))
  option-IsTyped (some z) m f h = returns h

  arithmetic-IsTyped :
      (a b : Value S) (f : ℤ → ℤ → Option ℤ) (g : S.Float → S.Float → S.Float)
      → ((x y : ℤ) → IsI64 x → IsI64 y → MaybeI64 (f x y))
      → IsValue a
      → IsValue b
      → IsTyped (eval_arithmetic a b f g)
  unfolding eval_arithmetic IsValue starts_with
  arithmetic-IsTyped (integer x) (integer y) f g k h j = option-IsTyped (f x y) _ refl (k x y h j)
  arithmetic-IsTyped (integer x) (float y) f g k h j = returns tt
  arithmetic-IsTyped (float x) (integer y) f g k h j = returns tt
  arithmetic-IsTyped (float x) (float y) f g k h j = returns tt
  arithmetic-IsTyped _ _ f g k h j = raises tt

  comparison-IsTyped :
      (a : Value S) (t : Ordering → Bool) (b : Value S) → IsTyped (eval_comparison a t b)
  unfolding eval_comparison compare_values IsValue
  comparison-IsTyped a t b = go (compare_values a b) (compared a b)
    where
      compared : (a b : Value S) → Post (λ _. Unit) (IsExpected S U) (compare_values a b)
      compared (integer a) (integer b) = returns tt
      compared (float a) (float b) = returns tt
      compared (integer a) (float b) = returns tt
      compared (float a) (integer b) = returns tt
      compared (string a) (string b) = returns tt
      compared null rv = returns tt
      compared lv null = returns tt
      compared _ _ = raises tt

      go :
          (r : Outcome (Option Ordering))
          → Post (λ _. Unit) (IsExpected S U) r
          → IsTyped (elim r [ ok (some o) ↦ ok (bool (t o)) | ok none ↦ ok null | err e ↦ err e ])
      go (ok (some o)) h = returns tt
      go (ok none) h = returns tt
      go (err e) (raises h) = raises h

  concat-IsTyped : (a b : Value S) → IsValue a → IsValue b → IsTyped (eval_concat a b)
  unfolding IsValue
  concat-IsTyped (string a) (string b) h k = returns tt
  concat-IsTyped (list a) (list b) h k = returns (append_values-AreValues a b h k)
  concat-IsTyped _ _ h k = raises tt

  divided-IsTyped :
      (zero_divisor : Bool) (m : Bytes) (r : Outcome (Value S))
      → is_unknown_identifier m ≡ false
      → IsTyped r
      → IsTyped (if zero_divisor then expression_err m else r)
  divided-IsTyped true m r f h = raises (λ e. absurd (false≢true (sym f ∙ e)))
  divided-IsTyped false m r f h = h

  pub eval_binary_op-IsTyped :
      (a : Value S) (op : BinaryOp) (b : Value S)
      → IsValue a
      → IsValue b
      → IsTyped (eval_binary_op a op b)
  unfolding eval_binary_op IsValue starts_with
  eval_binary_op-IsTyped a eq b h k = returns tt
  eval_binary_op-IsTyped a neq b h k = returns tt
  eval_binary_op-IsTyped a lt b h k = comparison-IsTyped a _ b
  eval_binary_op-IsTyped a gt b h k = comparison-IsTyped a _ b
  eval_binary_op-IsTyped a le b h k = comparison-IsTyped a _ b
  eval_binary_op-IsTyped a ge b h k = comparison-IsTyped a _ b
  eval_binary_op-IsTyped a add b h k =
      arithmetic-IsTyped a b _ _ (λ x y _ _. checked-MaybeI64 _ _) h k
  eval_binary_op-IsTyped a sub b h k =
      arithmetic-IsTyped a b _ _ (λ x y _ _. checked-MaybeI64 _ _) h k
  eval_binary_op-IsTyped a mul b h k =
      arithmetic-IsTyped a b _ _ (λ x y _ _. checked-MaybeI64 _ _) h k
  eval_binary_op-IsTyped a div b h k = divided-IsTyped (is_zero_value b) _ _ refl (
      arithmetic-IsTyped a b _ _
        (λ x y _ _. checked_exact-MaybeI64 (tdiv x y) (tdiv x y) (is_i64→IsI64 (tdiv x y))) h k)
  eval_binary_op-IsTyped a modulo b h k = divided-IsTyped (is_zero_value b) _ _ refl (
      arithmetic-IsTyped a b _ _
        (λ x y i _. checked_exact-MaybeI64 (tdiv x y) (trem x y) (λ _. trem-IsI64 x y i)) h k)
  eval_binary_op-IsTyped a and b h k = returns (eval_and-IsValue a b)
  eval_binary_op-IsTyped a or b h k = returns (eval_or-IsValue a b)
  eval_binary_op-IsTyped a xor b h k = returns (eval_xor-IsValue a b)
  eval_binary_op-IsTyped a concat b h k = concat-IsTyped a b h k

  not-IsTyped : (v : Value S) → IsTyped (eval_not v)
  unfolding IsValue
  not-IsTyped (bool b) = returns tt
  not-IsTyped null = returns tt
  not-IsTyped _ = raises tt

  neg-IsTyped : (v : Value S) → IsTyped (eval_neg v)
  unfolding eval_neg IsValue starts_with
  neg-IsTyped (integer i) = option-IsTyped (checked_neg i) _ refl (negated i)
    where
      negated : (i : ℤ) → MaybeI64 (checked_neg i)
      negated i = elim (Bool-cases (is_i64 (neg_ℤ i))) [
        | inl e ↦ rw (checked_neg, e) (is_i64→IsI64 (neg_ℤ i) e)
        | inr e ↦ rw (checked_neg, e) tt
      ]
  neg-IsTyped (float x) = returns tt
  neg-IsTyped null = returns tt
  neg-IsTyped _ = raises tt

  pos-IsTyped : (v : Value S) → IsValue v → IsTyped (eval_pos v)
  pos-IsTyped (integer i) h = returns h
  pos-IsTyped (float x) h = returns h
  pos-IsTyped null h = returns h
  pos-IsTyped _ h = raises tt

  pub eval_unary_op-IsTyped :
      (op : UnaryOp) (v : Value S) → IsValue v → IsTyped (eval_unary_op op v)
  unfolding eval_unary_op
  eval_unary_op-IsTyped UnaryOp.not v h = not-IsTyped v
  eval_unary_op-IsTyped UnaryOp.neg v h = neg-IsTyped v
  eval_unary_op-IsTyped UnaryOp.pos v h = pos-IsTyped v h
