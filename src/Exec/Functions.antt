-- ===== src/Exec/Functions.antt =====
-- crates/synaptica-exec/src/expression.rs: `eval_function`. A date's, time's or timestamp's text is read
-- with chrono's format strings.
pub mod Typed
use synaptica.Prelude.{
  none, some, ◌++◌, Bytes, bytes_eq, if◌then◌else◌, Result, ok, err, codes, ◌||◌, length,
}
use synaptica.Prelude.Integers.{pos, is_i64, wrap_i64}
use synaptica.Core.Values.{
  Duration, Scalars, Value, Values, null, bool, integer, float, string, date, time, timestamp,
  duration, list, map, node, edge, no_values, more_values, type_name, length_values, length_fields,
  string_values, keys,
}
use synaptica.Core.Values.Display.{show}
use synaptica.Exec.Record.{not_implemented, exec, panic, Outcome}
use synaptica.Exec.Arithmetic.{type_err}
use synaptica.Exec.Durations.{DurationError, parse_integer, parse_iso_duration, invalid, panicked}

-- the result or else another one
abbrev pub or_else : {A : Type 0} → Result Bytes A → Result Bytes A → Result Bytes A
or_else (ok a) other = ok a
or_else (err e) other = other

module _ {S : Scalars} where
  -- `args.first().unwrap_or(&Value::Null)`
  abbrev pub first : Values S → Value S
  first no_values = null
  first (more_values v vs) = v

  abbrev pub parsed :
      {A : Type 0} → Bytes → Bytes → (A → Value S) → Result Bytes A → Outcome (Value S)
  parsed what s make (ok a) = ok (make a)
  parsed what s make (err e) =
      type_err (codes "invalid " ++ what ++ codes " '" ++ s ++ codes "': " ++ e)

  abbrev pub to_integer : Value S → Outcome (Value S)
  to_integer (integer i) = ok (integer i)
  to_integer (float x) = ok (integer (S.i64_of_float x))
  to_integer (string s) = elim (parse_integer is_i64 s) [
    | some i ↦ ok (integer i)
    | none ↦ type_err (codes "cannot convert '" ++ s ++ codes "' to integer")
  ]
  to_integer (bool b) = ok (integer (if b then pos 1 else pos 0))
  to_integer null = ok null
  to_integer v = type_err (codes "cannot convert " ++ type_name v ++ codes " to integer")

  abbrev pub to_float : Value S → Outcome (Value S)
  to_float (float x) = ok (float x)
  to_float (integer i) = ok (float (S.float_of_i64 i))
  to_float (string s) = elim (S.parse_float s) [
    | some x ↦ ok (float x)
    | none ↦ type_err (codes "cannot convert '" ++ s ++ codes "' to float")
  ]
  to_float null = ok null
  to_float v = type_err (codes "cannot convert " ++ type_name v ++ codes " to float")

  abbrev pub size : Value S → Outcome (Value S)
  size (string s) = ok (integer (wrap_i64 (pos (length s))))
  size (list l) = ok (integer (wrap_i64 (pos (length_values l))))
  size (map m) = ok (integer (wrap_i64 (pos (length_fields m))))
  size null = ok null
  size v = type_err (codes "size() not supported for " ++ type_name v)

  abbrev pub keys_of : Value S → Outcome (Value S)
  keys_of (map m) = ok (list (string_values (keys m)))
  keys_of (node id labels m) = ok (list (string_values (keys m)))
  keys_of null = ok null
  keys_of v = type_err (codes "keys() not supported for " ++ type_name v)

  abbrev pub labels_of : Value S → Outcome (Value S)
  labels_of (node id labels m) = ok (list (string_values labels))
  labels_of (list l) = ok (list l)
  labels_of null = ok null
  labels_of v = ok (list no_values)

  abbrev pub type_of : Value S → Outcome (Value S)
  type_of (edge id label source target m) = ok (string label)
  type_of v = ok (string (type_name v))

  abbrev pub to_date : Value S → Outcome (Value S)
  to_date (string s) = parsed (codes "date") s date (S.parse_date s (codes "%Y-%m-%d"))
  to_date null = ok null
  to_date v = type_err (codes "DATE() expects a string, got " ++ type_name v)

  abbrev pub to_time : Value S → Outcome (Value S)
  to_time (string s) =
      parsed (codes "time") s time
        (or_else (S.parse_time s (codes "%H:%M:%S")) (S.parse_time s (codes "%H:%M")))
  to_time null = ok null
  to_time v = type_err (codes "TIME() expects a string, got " ++ type_name v)

  abbrev pub to_timestamp : Value S → Outcome (Value S)
  to_timestamp (string s) = parsed (codes "datetime") s timestamp (
      or_else (S.parse_timestamp s (codes "%Y-%m-%dT%H:%M:%S")) (
        or_else (S.parse_timestamp s (codes "%Y-%m-%d %H:%M:%S"))
          (S.parse_timestamp s (codes "%Y-%m-%dT%H:%M"))))
  to_timestamp null = ok null
  to_timestamp v = type_err (codes "DATETIME() expects a string, got " ++ type_name v)

  abbrev pub duration_outcome : Bytes → Result DurationError Duration → Outcome (Value S)
  duration_outcome s (ok d) = ok (duration d)
  duration_outcome s (err (invalid e)) =
      type_err (codes "invalid duration '" ++ s ++ codes "': " ++ e)
  duration_outcome s (err panicked) = err panic

  abbrev pub to_duration : Value S → Outcome (Value S)
  to_duration (string s) = duration_outcome s (parse_iso_duration S s)
  to_duration null = ok null
  to_duration v = type_err (codes "DURATION() expects a string, got " ++ type_name v)

  unfoldable pub eval_function : Bytes → Values S → Outcome (Value S)
  eval_function name args =
      let f = S.to_lowercase name in
      let v = first args in
      if bytes_eq f (codes "tostring")
      then ok (string (show v))
      else if bytes_eq f (codes "tointeger")
      then to_integer v
      else if bytes_eq f (codes "tofloat")
      then to_float v
      else if bytes_eq f (codes "size")
      then size v
      else if bytes_eq f (codes "keys")
      then keys_of v
      else if bytes_eq f (codes "labels")
      then labels_of v
      else if bytes_eq f (codes "type")
      then type_of v
      else if bytes_eq f (codes "id")
      then ok v
      else if bytes_eq f (codes "date")
      then to_date v
      else if bytes_eq f (codes "time")
      then to_time v
      else if bytes_eq f (codes "datetime") || bytes_eq f (codes "timestamp")
      then to_timestamp v
      else if bytes_eq f (codes "duration")
      then to_duration v
      else err (exec (not_implemented (codes "function: " ++ name)))
