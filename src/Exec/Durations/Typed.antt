-- ===== src/Exec/Durations/Typed.antt =====
-- A duration that `parse_iso_duration` returns is in range; it panics only in a build with overflow checks.
use synaptica.Prelude.{arith}
use synaptica.Prelude.{
  ℕ, Bool, true, false, Option, none, some, [], ◌∷◌, ◌≡◌, refl, Bytes, Result, ok, err, ◌>>=◌, Post,
  returns, raises, Post-bind, Bool-cases, inl, inr, if◌then◌else◌, not, ◌++◌, codes, map_ok, ◌==◌,
}
use synaptica.Prelude.Integers.{ℤ, pos, IsI64, is_i64, wrap_i64, is_i32, wrap_i32, ◌*ℤ◌, ◌+ℤ◌}
use synaptica.Prelude.Integers.Bounds.{
  IsI32, is_i64→IsI64, wrap_i64-IsI64, is_i32→IsI32, wrap_i32-IsI32,
}
use synaptica.Core.Values.{Scalars}
use synaptica.Core.Values.WellFormed.{IsDuration}
use synaptica.Exec.Durations.{
  DurationError, invalid, panicked, arith_result, add_times, invalid_number, parse_integer,
  add_date_unit, parse_date_part, add_time_unit, parse_time_part, parse_iso_duration, split_at_t,
}

abbrev pub IsDurationError : Bool → DurationError → Type 0
IsDurationError checks (invalid e) = Unit
IsDurationError checks panicked = checks ≡ true

Post-if :
    {A : Type 0} {P : A → Type 0} {Q : DurationError → Type 0} (b : Bool)
    (x y : Result DurationError A)
    → Post P Q x
    → Post P Q y
    → Post P Q (if b then x else y)
Post-if true x y h k = h
Post-if false x y h k = k

module _ (checks : Bool) (fits : ℤ → Bool) (wrap : ℤ → ℤ) {P : ℤ → Type 0}
    (fits_lem : (z : ℤ) → fits z ≡ true → P z) (wrap_lem : (z : ℤ) → P (wrap z)) where
  arith_result-Post : (z : ℤ) → Post P (IsDurationError checks) (arith_result checks fits wrap z)
  unfolding arith_result
  arith_result-Post z = elim (Bool-cases (fits z)) [
    | inl e ↦ rw (arith_result, e) (returns (fits_lem z e))
    | inr e ↦ rw (arith_result, e) (overflown checks)
  ]
    where
      overflown : (b : Bool) → Post P (IsDurationError b) (if b then err panicked else ok (wrap z))
      overflown true = raises refl
      overflown false = returns (wrap_lem z)

  add_times-Post :
      (total n : ℤ) (factor : ℕ)
      → Post P (IsDurationError checks) (add_times checks fits wrap total n factor)
  add_times-Post total n factor =
      Post-bind (arith_result-Post (n *ℤ pos factor))
        (λ scaled _. arith_result-Post (total +ℤ scaled))

invalid_number-Post :
    {A : Type 0} (checks : Bool) (m : Bytes) (o : Option A)
    → Post (λ _. Unit) (IsDurationError checks) (invalid_number m o)
invalid_number-Post checks m none = raises tt
invalid_number-Post checks m (some n) = returns tt

abbrev pub AreI32 : ℤ × ℤ → Type 0
AreI32 (months, days) = IsI32 months × IsI32 days

map_ok-Post :
    {A B : Type 0} {P : A → Type 0} {R : B → Type 0} {Q : DurationError → Type 0} (f : A → B)
    (r : Result DurationError A)
    → Post P Q r
    → ((a : A) → P a → R (f a))
    → Post R Q (map_ok f r)
map_ok-Post f (ok a) (returns h) k = returns (k a h)
map_ok-Post f (err e) (raises h) k = raises h

add_date_unit-Post :
    (checks : Bool) (ch : ℕ) (n : ℤ) (sums : ℤ × ℤ)
    → AreI32 sums
    → Post AreI32 (IsDurationError checks) (add_date_unit checks ch n sums)
unfolding add_date_unit
add_date_unit-Post checks ch n (months, days) (hm, hd) =
    let sum = add_times-Post checks is_i32 wrap_i32 is_i32→IsI32 wrap_i32-IsI32 in
    Post-if (ch == 89) _ _ (map_ok-Post _ _ (sum months n 12) (λ m h. (h, hd))) (
      Post-if (ch == 77) _ _ (map_ok-Post _ _ (sum months n 1) (λ m h. (h, hd))) (
        Post-if (ch == 68) _ _ (map_ok-Post _ _ (sum days n 1) (λ d h. (hm, h)))
          (Post-if (ch == 87) _ _ (map_ok-Post _ _ (sum days n 7) (λ d h. (hm, h))) (raises tt))))

parse_date_part-Post :
    (checks : Bool) (s num_buf : Bytes) (sums : ℤ × ℤ)
    → AreI32 sums
    → Post AreI32 (IsDurationError checks) (parse_date_part checks s num_buf sums)
unfolding parse_date_part
parse_date_part-Post checks [] num_buf sums h = returns h
parse_date_part-Post checks (ch ∷ cs) num_buf sums h =
    Post-if _ _ _ (parse_date_part-Post checks cs (num_buf ++ ch ∷ []) sums h) (
      Post-bind (invalid_number-Post checks _ (parse_integer is_i32 num_buf)) (λ n _.
        Post-bind (add_date_unit-Post checks ch n sums h)
          (λ next k. parse_date_part-Post checks cs [] next k)))

module _ (S : Scalars) (float_cast : (x : S.Float) → IsI64 (S.i64_of_float x)) where
  add_time_unit-Post :
      (ch : ℕ) (num_buf : Bytes) (nanos : ℤ)
      → IsI64 nanos
      → Post IsI64 (IsDurationError S.overflow_checks) (add_time_unit S ch num_buf nanos)
  unfolding add_time_unit
  add_time_unit-Post ch num_buf nanos h =
      let sum =
        add_times-Post S.overflow_checks is_i64 wrap_i64 is_i64→IsI64 wrap_i64-IsI64 nanos in
      Post-if (ch == 72) _ _
        (Post-bind (invalid_number-Post S.overflow_checks _ _) (λ n _. sum n 3600000000000))
        (Post-if (ch == 77) _ _
          (Post-bind (invalid_number-Post S.overflow_checks _ _) (λ n _. sum n 60000000000))
          (Post-if (ch == 83) _ _
            (Post-bind (invalid_number-Post S.overflow_checks _ _)
              (λ n _. sum (S.i64_of_float (S.mul_float n (S.float_of_i64 (pos 1000000000)))) 1))
            (raises tt)))

  parse_time_part-Post :
      (s num_buf : Bytes) (nanos : ℤ)
      → IsI64 nanos
      → Post IsI64 (IsDurationError S.overflow_checks) (parse_time_part S s num_buf nanos)
  unfolding parse_time_part
  parse_time_part-Post [] num_buf nanos h = returns h
  parse_time_part-Post (ch ∷ cs) num_buf nanos h =
      Post-if _ _ _ (parse_time_part-Post cs (num_buf ++ ch ∷ []) nanos h) (
        Post-bind (add_time_unit-Post ch num_buf nanos h)
          (λ next k. parse_time_part-Post cs [] next k))

  pub parse_iso_duration-Post :
      (s : Bytes) → Post IsDuration (IsDurationError S.overflow_checks) (parse_iso_duration S s)
  unfolding parse_iso_duration
  parse_iso_duration-Post s = from (S.trim s)
    where
      time_of :
          (t : Option Bytes)
          → Post IsI64
              (IsDurationError S.overflow_checks)
              (elim t [ none ↦ ok (pos 0) | some tp ↦ parse_time_part S tp [] (pos 0) ])
      time_of none = returns (omega arith)
      time_of (some tp) = parse_time_part-Post tp [] (pos 0) (omega arith)

      from :
          (t : Bytes)
          → Post IsDuration (IsDurationError S.overflow_checks) (elim t [
            | [] ↦ err (invalid (codes "duration must start with 'P'"))
            | c ∷ rest ↦
                let (date_part, time_part) = split_at_t rest in
                if not (c == 80) then err (invalid (codes "duration must start with 'P'")) else (do
                  (months, days) ← parse_date_part S.overflow_checks date_part [] (pos 0, pos 0)
                  nanos ← elim time_part [
                    | none ↦ ok (pos 0)
                    | some tp ↦ parse_time_part S tp [] (pos 0)
                  ]
                  ok (record { months = months; days = days; nanos = nanos }))
          ])
      from [] = raises tt
      from (c ∷ rest) = Post-if _ _ _ (raises tt) (
          Post-bind
            (parse_date_part-Post S.overflow_checks _ [] (pos 0, pos 0) (omega arith, omega arith))
            (λ sums h. Post-bind (time_of _) (λ nanos k. returns (h.0, h.1, k))))
