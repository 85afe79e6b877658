-- ===== src/Exec/Durations.antt =====
-- crates/synaptica-exec/src/expression.rs: `parse_iso_duration`. Its sums are of `i32` and `i64`, so
-- that they panic or wrap around on overflow, as the build has it; nothing catches the panic.
pub mod Typed
use synaptica.Prelude.{
  map_ok, ℕ, Bool, true, ◌&&◌, ◌||◌, not, Option, none, some, [], ◌∷◌, ◌++◌, Bytes, ◌==◌,
  if◌then◌else◌, Result, ok, err, ◌>>=◌, codes,
}
use synaptica.Prelude.Decimals.{value}
use synaptica.Prelude.Integers.{ℤ, pos, ◌+ℤ◌, ◌*ℤ◌, neg_ℤ, is_i64, wrap_i64, is_i32, wrap_i32}
use synaptica.Core.Values.{Scalars, Duration}
use synaptica.Gql.Lexer.{is_ascii_digit}

-- the error of `parse_iso_duration`, or a panic
pub data DurationError : Type 0 where
  invalid : Bytes → DurationError
  panicked : DurationError

unfoldable pub all_digits : Bytes → Bool
all_digits [] = true
all_digits (c ∷ cs) = is_ascii_digit c && all_digits cs

-- the digits of `str::parse`, at least one
abbrev pub parse_digits : Bytes → Option ℕ
parse_digits [] = none
parse_digits (c ∷ cs) = if all_digits (c ∷ cs) then some (value 0 (c ∷ cs)) else none

-- the sign and the digits, as `str::parse` of a signed integer reads them
abbrev pub parse_sign : Bytes → Option ℤ
parse_sign [] = none
parse_sign (c ∷ cs) =
    if c == 45
    then elim (parse_digits cs) [ none ↦ none | some n ↦ some (neg_ℤ (pos n)) ]
    else elim (parse_digits (if c == 43 then cs else c ∷ cs)) [
      | none ↦ none
      | some n ↦ some (pos n)
    ]

-- `str::parse` of an integer type with the range `fits`
unfoldable pub parse_integer : (ℤ → Bool) → Bytes → Option ℤ
parse_integer fits s = elim (parse_sign s) [
  | none ↦ none
  | some z ↦ if fits z then some z else none
]

-- the value of an operator on machine integers with the range `fits`, or the panic
unfoldable pub arith_result : Bool → (ℤ → Bool) → (ℤ → ℤ) → ℤ → Result DurationError ℤ
arith_result overflow_checks fits wrap z =
    if fits z then ok z else if overflow_checks then err panicked else ok (wrap z)

-- `total += n * factor`
abbrev pub add_times : Bool → (ℤ → Bool) → (ℤ → ℤ) → ℤ → ℤ → ℕ → Result DurationError ℤ
add_times overflow_checks fits wrap total n factor = do
  scaled ← arith_result overflow_checks fits wrap (n *ℤ pos factor)
  arith_result overflow_checks fits wrap (total +ℤ scaled)

abbrev pub invalid_number : {A : Type 0} → Bytes → Option A → Result DurationError A
invalid_number message (some n) = ok n
invalid_number message none = err (invalid message)

-- the text in front of the first `T`, and the text behind it
unfoldable pub split_at_t : Bytes → Bytes × Option Bytes
split_at_t [] = ([], none)
split_at_t (c ∷ cs) =
    let (before, after) = split_at_t cs in if c == 84 then ([], some cs) else (c ∷ before, after)

-- one unit of the date part, `n` of `Y`, `M`, `D` or `W`: the months and the days
unfoldable pub add_date_unit : Bool → ℕ → ℤ → ℤ × ℤ → Result DurationError (ℤ × ℤ)
add_date_unit checks ch n (months, days) =
    let months_by = λ (factor : ℕ). add_times checks is_i32 wrap_i32 months n factor in
    let days_by = λ (factor : ℕ). add_times checks is_i32 wrap_i32 days n factor in
    if ch == 89
    then map_ok (λ m. (m, days)) (months_by 12)
    else if ch == 77
    then map_ok (λ m. (m, days)) (months_by 1)
    else if ch == 68
    then map_ok (λ d. (months, d)) (days_by 1)
    else if ch == 87
    then map_ok (λ d. (months, d)) (days_by 7)
    else err (invalid (codes "unexpected char '" ++ ch ∷ codes "' in duration date part"))

-- the loop over the date part, with `num_buf`
unfoldable pub parse_date_part : Bool → Bytes → Bytes → ℤ × ℤ → Result DurationError (ℤ × ℤ)
parse_date_part checks [] num_buf sums = ok sums
parse_date_part checks (ch ∷ cs) num_buf sums =
    let pushed = parse_date_part checks cs (num_buf ++ ch ∷ []) sums in
    let cleared = parse_date_part checks cs [] in
    if is_ascii_digit ch || ch == 45 then pushed else (do
      n ←
          invalid_number (codes "invalid number in duration: " ++ num_buf)
            (parse_integer is_i32 num_buf)
      sums ← add_date_unit checks ch n sums
      cleared sums)

module _ (S : Scalars) where
  -- one unit of the time part, `num_buf` of `H`, `M` or `S`
  unfoldable pub add_time_unit : ℕ → Bytes → ℤ → Result DurationError ℤ
  add_time_unit ch num_buf nanos =
      let add = add_times S.overflow_checks is_i64 wrap_i64 nanos in
      if ch == 72
      then (do
        n ← invalid_number (codes "invalid hours: " ++ num_buf) (parse_integer is_i64 num_buf)
        add n 3600000000000)
      else if ch == 77
      then (do
        n ← invalid_number (codes "invalid minutes: " ++ num_buf) (parse_integer is_i64 num_buf)
        add n 60000000000)
      else if ch == 83
      then (do
        n ← invalid_number (codes "invalid seconds: " ++ num_buf) (S.parse_float num_buf)
        add (S.i64_of_float (S.mul_float n (S.float_of_i64 (pos 1000000000)))) 1)
      else err (invalid (codes "unexpected char '" ++ ch ∷ codes "' in duration time part"))

  -- the loop over the time part
  unfoldable pub parse_time_part : Bytes → Bytes → ℤ → Result DurationError ℤ
  parse_time_part [] num_buf nanos = ok nanos
  parse_time_part (ch ∷ cs) num_buf nanos =
      let pushed = parse_time_part cs (num_buf ++ ch ∷ []) nanos in
      let cleared = parse_time_part cs [] in
      if is_ascii_digit ch || (ch == 46 || ch == 45)
      then pushed
      else (do nanos ← add_time_unit ch num_buf nanos; cleared nanos)

  unfoldable pub parse_iso_duration : Bytes → Result DurationError Duration
  parse_iso_duration s = elim (S.trim s) [
    | [] ↦ err (invalid (codes "duration must start with 'P'"))
    | c ∷ rest ↦
        let (date_part, time_part) = split_at_t rest in
        if not (c == 80) then err (invalid (codes "duration must start with 'P'")) else (do
          (months, days) ← parse_date_part S.overflow_checks date_part [] (pos 0, pos 0)
          nanos ← elim time_part [ none ↦ ok (pos 0) | some tp ↦ parse_time_part tp [] (pos 0) ]
          ok (record { months = months; days = days; nanos = nanos }))
  ]
