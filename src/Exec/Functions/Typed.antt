-- ===== src/Exec/Functions/Typed.antt =====
-- The functions on well-formed values yield well-formed values; a panic is that of `DURATION`.
use synaptica.Prelude.{
  codes, length, Bool, true, false, Option, none, some, ◌≡◌, refl, Bytes, Result, ok, err, Post,
  returns, raises, inl, inr, if◌then◌else◌, Option-cases, subst, arith,
}
use synaptica.Prelude.Integers.{ℤ, pos, IsI64, is_i64}
use synaptica.Prelude.Integers.Bounds.{is_i64→IsI64, wrap_i64-IsI64}
use synaptica.Core.Values.{
  length_values, length_fields, Scalars, Duration, Value, Values, null, bool, integer, float,
  string, date, time, timestamp, list, map, node, edge, no_values, more_values, keys,
}
use synaptica.Core.Values.WellFormed.{IsValue, AreValues, IsDuration, string_values-AreValues}
use synaptica.Exec.Record.{Outcome}
use synaptica.Exec.Arithmetic.Typed.{MaybeI64, IsTyped}
use synaptica.Exec.Durations.{
  DurationError, invalid, panicked, parse_sign, parse_integer, parse_iso_duration,
}
use synaptica.Exec.Durations.Typed.{IsDurationError, parse_iso_duration-Post}
use synaptica.Exec.Functions.{
  duration_outcome, first, parsed, to_integer, to_float, size, keys_of, labels_of, type_of, to_date,
  to_time, to_timestamp, to_duration, eval_function,
}

parse_integer-MaybeI64 : (s : Bytes) → MaybeI64 (parse_integer is_i64 s)
unfolding parse_integer
parse_integer-MaybeI64 s = from (parse_sign s)
  where
    fitting : (z : ℤ) (b : Bool) → is_i64 z ≡ b → MaybeI64 (if b then some z else none)
    fitting z true e = is_i64→IsI64 z e
    fitting z false e = tt

    from :
        (o : Option ℤ)
        → MaybeI64 (elim o [ none ↦ none | some z ↦ if is_i64 z then some z else none ])
    from none = tt
    from (some z) = fitting z (is_i64 z) refl

module _ (S : Scalars) (U : Type 0) (float_cast : (x : S.Float) → IsI64 (S.i64_of_float x)) where
  IsTyped-if :
      (b : Bool) (x y : Outcome (Value S))
      → IsTyped S U x
      → IsTyped S U y
      → IsTyped S U (if b then x else y)
  IsTyped-if true x y h k = h
  IsTyped-if false x y h k = k

  first-IsValue : (vs : Values S) → AreValues vs → IsValue (first vs)
  unfolding IsValue
  first-IsValue no_values h = tt
  first-IsValue (more_values v vs) h = h.0

  to_integer-IsTyped : (v : Value S) → IsValue v → IsTyped S U (to_integer v)
  unfolding IsValue
  to_integer-IsTyped (integer i) h = returns h
  to_integer-IsTyped (float x) h = returns (float_cast x)
  to_integer-IsTyped (string s) h = elim (Option-cases (parse_integer is_i64 s)) [
    | inl e ↦ rw (to_integer, e) (raises tt)
    | inr (z, e) ↦
        (let k : MaybeI64 (some z) = subst MaybeI64 e (parse_integer-MaybeI64 s) in
          rw (to_integer, e) (returns k))
  ]
  to_integer-IsTyped (bool true) h = returns (omega arith)
  to_integer-IsTyped (bool false) h = returns (omega arith)
  to_integer-IsTyped null h = returns h
  to_integer-IsTyped _ h = raises tt

  to_float-IsTyped : (v : Value S) → IsTyped S U (to_float v)
  unfolding IsValue
  to_float-IsTyped (float x) = returns tt
  to_float-IsTyped (integer i) = returns tt
  to_float-IsTyped (string s) = elim (Option-cases (S.parse_float s)) [
    | inl e ↦ rw (to_float, e) (raises tt)
    | inr (z, e) ↦ rw (to_float, e) (returns tt)
  ]
  to_float-IsTyped null = returns tt
  to_float-IsTyped _ = raises tt

  size-IsTyped : (v : Value S) → IsTyped S U (size v)
  unfolding IsValue
  size-IsTyped (string s) = returns (wrap_i64-IsI64 (pos (length s)))
  size-IsTyped (list l) = returns (wrap_i64-IsI64 (pos (length_values l)))
  size-IsTyped (map m) = returns (wrap_i64-IsI64 (pos (length_fields m)))
  size-IsTyped null = returns tt
  size-IsTyped _ = raises tt

  keys_of-IsTyped : (v : Value S) → IsTyped S U (keys_of v)
  unfolding IsValue
  keys_of-IsTyped (map m) = returns (string_values-AreValues S (keys m))
  keys_of-IsTyped (node id labels m) = returns (string_values-AreValues S (keys m))
  keys_of-IsTyped null = returns tt
  keys_of-IsTyped _ = raises tt

  labels_of-IsTyped : (v : Value S) → IsValue v → IsTyped S U (labels_of v)
  unfolding IsValue
  labels_of-IsTyped (node id labels m) h = returns (string_values-AreValues S labels)
  labels_of-IsTyped (list l) h = returns h
  labels_of-IsTyped null h = returns tt
  labels_of-IsTyped _ h = returns tt

  type_of-IsTyped : (v : Value S) → IsTyped S U (type_of v)
  unfolding IsValue
  type_of-IsTyped (edge id label source target m) = returns tt
  type_of-IsTyped _ = returns tt

  parsed-IsTyped :
      {A : Type 0} (what s : Bytes) (make : A → Value S) (r : Result Bytes A)
      → ((a : A) → IsValue (make a))
      → IsTyped S U (parsed what s make r)
  parsed-IsTyped what s make (ok a) h = returns (h a)
  parsed-IsTyped what s make (err e) h = raises tt

  to_date-IsTyped : (v : Value S) → IsTyped S U (to_date v)
  unfolding IsValue
  to_date-IsTyped (string s) = parsed-IsTyped (codes "date") s date _ (λ d. tt)
  to_date-IsTyped null = returns tt
  to_date-IsTyped _ = raises tt

  to_time-IsTyped : (v : Value S) → IsTyped S U (to_time v)
  unfolding IsValue
  to_time-IsTyped (string s) = parsed-IsTyped (codes "time") s time _ (λ d. tt)
  to_time-IsTyped null = returns tt
  to_time-IsTyped _ = raises tt

  to_timestamp-IsTyped : (v : Value S) → IsTyped S U (to_timestamp v)
  unfolding IsValue
  to_timestamp-IsTyped (string s) = parsed-IsTyped (codes "datetime") s timestamp _ (λ d. tt)
  to_timestamp-IsTyped null = returns tt
  to_timestamp-IsTyped _ = raises tt

  duration-IsTyped :
      (r : Result DurationError Duration)
      → Post IsDuration (IsDurationError S.overflow_checks) r
      → (s : Bytes) → IsTyped S U (duration_outcome s r)
  unfolding IsValue
  duration-IsTyped (ok d) (returns h) s = returns h
  duration-IsTyped (err (invalid e)) h s = raises tt
  duration-IsTyped (err panicked) (raises h) s = raises h

  to_duration-IsTyped : (v : Value S) → IsTyped S U (to_duration v)
  unfolding IsValue
  to_duration-IsTyped (string s) =
      duration-IsTyped (parse_iso_duration S s) (parse_iso_duration-Post S float_cast s) s
  to_duration-IsTyped null = returns tt
  to_duration-IsTyped _ = raises tt

  pub eval_function-IsTyped :
      (name : Bytes) (args : Values S) → AreValues args → IsTyped S U (eval_function name args)
  unfolding eval_function IsValue
  eval_function-IsTyped name args h =
      let v = first args in
      let k = first-IsValue args h in
      IsTyped-if _ _ _ (returns tt) (
        IsTyped-if _ _ _ (to_integer-IsTyped v k) (
          IsTyped-if _ _ _ (to_float-IsTyped v) (
            IsTyped-if _ _ _ (size-IsTyped v) (
              IsTyped-if _ _ _ (keys_of-IsTyped v) (
                IsTyped-if _ _ _ (labels_of-IsTyped v k) (
                  IsTyped-if _ _ _ (type_of-IsTyped v) (
                    IsTyped-if _ _ _ (returns k) (
                      IsTyped-if _ _ _ (to_date-IsTyped v) (
                        IsTyped-if _ _ _ (to_time-IsTyped v) (
                          IsTyped-if _ _ _ (to_timestamp-IsTyped v)
                            (IsTyped-if _ _ _ (to_duration-IsTyped v) (raises tt))))))))))))
