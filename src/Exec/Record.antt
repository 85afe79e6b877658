-- ===== src/Exec/Record.antt =====
-- crates/synaptica-exec/src/result.rs: records and result sets; and the errors of engine.rs. `Raised`
-- is an `ExecError` or a panic.
use synaptica.Prelude.{
  Option, none, some, List, [], ◌∷◌, ◌++◌, Bytes, bytes_eq, if◌then◌else◌, Result, ok, err, ℕ, zero,
  suc,
}
use synaptica.Core.Values.{Scalars, Value, Values, no_values, more_values}

pub data ExecError : Type 0 where
  not_implemented storage_error type_error expression_error internal : Bytes → ExecError

pub data Raised : Type 0 where
  exec : ExecError → Raised
  panic : Raised

abbrev pub Outcome : Type 0 → Type 0
Outcome = Result Raised

module _ (S : Scalars) where
  pub record Record : Type 0 where
    pub columns : List Bytes
    pub values : Values S

  pub record ResultSet : Type 0 where
    pub columns : List Bytes
    pub records : List Record
    pub shared_columns : List Bytes

-- `Iterator::position`
unfoldable pub position : Bytes → List Bytes → Option ℕ
position name [] = none
position name (c ∷ cs) =
    if bytes_eq c name
    then some 0
    else elim (position name cs) [ none ↦ none | some i ↦ some (suc i) ]

module _ {S : Scalars} where
  -- `values[i]`, which panics out of range
  unfoldable pub value_at : Values S → ℕ → Outcome (Value S)
  value_at no_values i = err panic
  value_at (more_values v vs) zero = ok v
  value_at (more_values v vs) (suc i) = value_at vs i

  -- `Record::get`: `none` for a name that is not a column
  unfoldable pub get : Record S → Bytes → Outcome (Option (Value S))
  get r name = elim (position name r.columns) [
    | none ↦ ok none
    | some i ↦ elim (value_at r.values i) [ ok v ↦ ok (some v) | err e ↦ err e ]
  ]

  -- `ResultSet::new`, `add_record`, `is_empty`, `len`, `column_index`
  abbrev pub new : List Bytes → ResultSet S
  new columns = record { columns = columns; records = []; shared_columns = columns }

  abbrev pub add_record : ResultSet S → Values S → ResultSet S
  add_record r values =
      let row : Record S = record { columns = r.shared_columns; values = values } in
      record {
        columns = r.columns;
        records = r.records ++ row ∷ [];
        shared_columns = r.shared_columns;
      }

  abbrev pub column_index : ResultSet S → Bytes → Option ℕ
  column_index r name = position name r.columns
