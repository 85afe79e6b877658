-- ===== src/Core/Values.antt =====
-- crates/synaptica-core/src/types.rs: values. `Scalars` is what the code takes from outside: `f64`,
-- chrono's dates and times, Unicode's lower case, and whether the build checks integer overflow. A
-- `String` is the list of its code points, a `BTreeMap` the list of its entries in the order of the keys.
pub mod Display
pub mod WellFormed
use synaptica.Prelude.{
  ℕ, ◌+◌, ◌/◌, ◌%◌, ◌&&◌, Bool, true, false, Option, none, some, List, [], ◌∷◌, ◌++◌, Bytes,
  Ordering, bytes_eq, lex, if◌then◌else◌, codes, replicate, ◌-◌, length, ◌==◌, Result,
}
use synaptica.Prelude.Integers.{ℤ, pos, negsuc, eqb_ℤ, pos_part, neg_part}

pub record Scalars : Type 1 where
  pub Float : Type 0
  pub eq_float : Float → Float → Bool
  pub partial_cmp_float : Float → Float → Option Ordering
  pub add_float : Float → Float → Float
  pub sub_float : Float → Float → Float
  pub mul_float : Float → Float → Float
  pub div_float : Float → Float → Float
  pub rem_float : Float → Float → Float
  pub neg_float : Float → Float
  pub float_of_i64 : ℤ → Float
  pub i64_of_float : Float → ℤ
  pub parse_float : Bytes → Option Float
  pub show_float : Float → Bytes
  pub Date : Type 0
  pub eq_date : Date → Date → Bool
  pub show_date : Date → Bytes
  pub parse_date : Bytes → Bytes → Result Bytes Date
  pub Time : Type 0
  pub eq_time : Time → Time → Bool
  pub show_time : Time → Bytes
  pub parse_time : Bytes → Bytes → Result Bytes Time
  pub Timestamp : Type 0
  pub eq_timestamp : Timestamp → Timestamp → Bool
  pub show_timestamp : Timestamp → Bytes
  pub parse_timestamp : Bytes → Bytes → Result Bytes Timestamp
  pub to_lowercase : Bytes → Bytes
  pub trim : Bytes → Bytes
  pub overflow_checks : Bool

pub record Duration : Type 0 where
  pub months : ℤ
  pub days : ℤ
  pub nanos : ℤ

module _ (S : Scalars) where
  mutual
    pub data Value : Type 0 where
      null : Value
      bool : Bool → Value
      integer : ℤ → Value
      float : S.Float → Value
      string : Bytes → Value
      bytes : Bytes → Value
      date : S.Date → Value
      time : S.Time → Value
      timestamp : S.Timestamp → Value
      duration : Duration → Value
      list : Values → Value
      map : Fields → Value
      -- `id`, `labels`, `properties`
      node : Bytes → List Bytes → Fields → Value
      -- `id`, `label`, `source_id`, `target_id`, `properties`
      edge : Bytes → Bytes → Bytes → Bytes → Fields → Value

    pub data Values : Type 0 where
      no_values : Values
      more_values : Value → Values → Values

    pub data Fields : Type 0 where
      no_fields : Fields
      more_fields : Bytes → Value → Fields → Fields

-- `PartialEq` of `String`, `Vec<String>` and `Duration`
unfoldable pub names_eq : List Bytes → List Bytes → Bool
names_eq [] [] = true
names_eq [] (y ∷ ys) = false
names_eq (x ∷ xs) [] = false
names_eq (x ∷ xs) (y ∷ ys) = bytes_eq x y && names_eq xs ys

abbrev pub duration_eq : Duration → Duration → Bool
duration_eq a b = (eqb_ℤ a.months b.months && eqb_ℤ a.days b.days) && eqb_ℤ a.nanos b.nanos

abbrev pub bool_eq : Bool → Bool → Bool
bool_eq true b = b
bool_eq false true = false
bool_eq false false = true

module _ {S : Scalars} where
  abbrev pub type_name : Value S → Bytes
  type_name null = codes "NULL"
  type_name (bool b) = codes "BOOLEAN"
  type_name (integer i) = codes "INTEGER"
  type_name (float x) = codes "FLOAT"
  type_name (string s) = codes "STRING"
  type_name (bytes b) = codes "BYTES"
  type_name (date d) = codes "DATE"
  type_name (time t) = codes "TIME"
  type_name (timestamp t) = codes "TIMESTAMP"
  type_name (duration d) = codes "DURATION"
  type_name (list l) = codes "LIST"
  type_name (map m) = codes "MAP"
  type_name (node id labels m) = codes "NODE"
  type_name (edge id label source target m) = codes "EDGE"

  abbrev pub is_null : Value S → Bool
  is_null null = true
  is_null _ = false

  -- `PartialEq`, as derived
  unfoldable mutual
    pub value_eq : Value S → Value S → Bool
    value_eq null null = true
    value_eq (bool a) (bool b) = bool_eq a b
    value_eq (integer a) (integer b) = eqb_ℤ a b
    value_eq (float a) (float b) = S.eq_float a b
    value_eq (string a) (string b) = bytes_eq a b
    value_eq (bytes a) (bytes b) = bytes_eq a b
    value_eq (date a) (date b) = S.eq_date a b
    value_eq (time a) (time b) = S.eq_time a b
    value_eq (timestamp a) (timestamp b) = S.eq_timestamp a b
    value_eq (duration a) (duration b) = duration_eq a b
    value_eq (list a) (list b) = values_eq a b
    value_eq (map a) (map b) = fields_eq a b
    value_eq (node i l m) (node j k n) = (bytes_eq i j && names_eq l k) && fields_eq m n
    value_eq (edge i l s t m) (edge j k u v n) =
        ((bytes_eq i j && bytes_eq l k) && (bytes_eq s u && bytes_eq t v)) && fields_eq m n
    value_eq _ _ = false

    pub values_eq : Values S → Values S → Bool
    values_eq no_values no_values = true
    values_eq (more_values a xs) (more_values b ys) = value_eq a b && values_eq xs ys
    values_eq _ _ = false

    pub fields_eq : Fields S → Fields S → Bool
    fields_eq no_fields no_fields = true
    fields_eq (more_fields j a xs) (more_fields k b ys) =
        (bytes_eq j k && value_eq a b) && fields_eq xs ys
    fields_eq _ _ = false

  -- `BTreeMap::get`
  unfoldable pub get_field : Bytes → Fields S → Option (Value S)
  get_field k no_fields = none
  get_field k (more_fields j v m) = if bytes_eq j k then some v else get_field k m

  -- `BTreeMap::insert`
  unfoldable pub insert_field : Bytes → Value S → Fields S → Fields S
  insert_field k v no_fields = more_fields k v no_fields
  insert_field k v (more_fields j w m) = elim (lex k j) [
    | Ordering.lt ↦ more_fields k v (more_fields j w m)
    | Ordering.eq ↦ more_fields k v m
    | Ordering.gt ↦ more_fields j w (insert_field k v m)
  ]

  -- `Vec::contains`
  unfoldable pub contains : Values S → Value S → Bool
  contains no_values v = false
  contains (more_values w ws) v = if value_eq w v then true else contains ws v

  unfoldable pub length_values : Values S → ℕ
  length_values no_values = 0
  length_values (more_values v vs) = 1 + length_values vs

  unfoldable pub length_fields : Fields S → ℕ
  length_fields no_fields = 0
  length_fields (more_fields k v m) = 1 + length_fields m

  unfoldable pub append_values : Values S → Values S → Values S
  append_values no_values ws = ws
  append_values (more_values v vs) ws = more_values v (append_values vs ws)

  -- a list of strings, as a `Value::List` holds it
  unfoldable pub string_values : List Bytes → Values S
  string_values [] = no_values
  string_values (s ∷ ss) = more_values (string s) (string_values ss)

  -- `BTreeMap::keys`
  unfoldable pub keys : Fields S → List Bytes
  keys no_fields = []
  keys (more_fields k v m) = k ∷ keys m
