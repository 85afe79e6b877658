-- ===== src/Core/Values/Display.antt =====
-- crates/synaptica-core/src/types.rs: `Display` of `Value` and of `Duration`.
use synaptica.Prelude.{
  ℕ, ◌-◌, ◌/◌, ◌%◌, Bool, true, false, List, [], ◌∷◌, ◌++◌, Bytes, if◌then◌else◌, ◌==◌, leb, ◌+◌,
  codes, length, replicate,
}
use synaptica.Prelude.Decimals.{decimal}
use synaptica.Prelude.Integers.{ℤ, pos, negsuc, pos_part, neg_part}
use synaptica.Core.Values.{
  Scalars, Duration, Value, Values, Fields, null, bool, integer, float, string, bytes, date, time,
  timestamp, duration, list, map, node, edge, no_values, more_values, no_fields, more_fields,
}

abbrev pub show_ℤ : ℤ → Bytes
show_ℤ (pos n) = decimal n
show_ℤ (negsuc n) = codes "-" ++ decimal (1 + n)

abbrev pub is_zero : ℤ → Bool
is_zero (pos n) = n == 0
is_zero (negsuc n) = false

abbrev pub is_negative : ℤ → Bool
is_negative (pos n) = false
is_negative (negsuc n) = true

-- `{:09}`
abbrev pub nine_digits : ℕ → Bytes
nine_digits n = let d = decimal n in replicate (9 - length d) 48 ++ d

abbrev pub show_nanos : ℤ → Bytes
show_nanos z =
    let abs_nanos = pos_part z + neg_part z in
    let secs = abs_nanos / 1000000000 in
    let rem = abs_nanos % 1000000000 in
    let sign = if is_negative z then codes "-" else [] in
    if rem == 0
    then codes "T" ++ sign ++ decimal secs ++ codes "S"
    else codes "T" ++ sign ++ decimal secs ++ codes "." ++ nine_digits rem ++ codes "S"

unfoldable pub show_duration : Duration → Bytes
show_duration d =
    codes "P"
    ++ (if is_zero d.months then [] else show_ℤ d.months ++ codes "M")
    ++ (if is_zero d.days then [] else show_ℤ d.days ++ codes "D")
    ++ (if is_zero d.nanos then [] else show_nanos d.nanos)

-- `{:02x}`
abbrev pub hex_digit : ℕ → ℕ
hex_digit n = if leb n 9 then 48 + n else 87 + n

-- `hex::encode`
unfoldable pub encode : Bytes → Bytes
encode [] = []
encode (b ∷ bs) = hex_digit (b / 16) ∷ hex_digit (b % 16) ∷ encode bs

unfoldable pub show_labels : List Bytes → Bytes
show_labels [] = []
show_labels (l ∷ ls) = codes ":" ++ l ++ show_labels ls

module _ {S : Scalars} where
  unfoldable mutual
    pub show : Value S → Bytes
    show null = codes "NULL"
    show (bool b) = if b then codes "true" else codes "false"
    show (integer i) = show_ℤ i
    show (float x) = S.show_float x
    show (string s) = codes "'" ++ s ++ codes "'"
    show (bytes b) = codes "X'" ++ encode b ++ codes "'"
    show (date d) = codes "DATE '" ++ S.show_date d ++ codes "'"
    show (time t) = codes "TIME '" ++ S.show_time t ++ codes "'"
    show (timestamp t) = codes "TIMESTAMP '" ++ S.show_timestamp t ++ codes "'"
    show (duration d) = codes "DURATION '" ++ show_duration d ++ codes "'"
    show (list l) = codes "[" ++ show_values l ++ codes "]"
    show (map m) = codes "{" ++ show_fields m ++ codes "}"
    show (node id labels m) =
        codes "(" ++ id ++ show_labels labels ++ show_properties m ++ codes ")"
    show (edge id label source target m) =
        codes "("
        ++ source
        ++ codes ")-[:"
        ++ label
        ++ show_properties m
        ++ codes "]->("
        ++ target
        ++ codes ")["
        ++ id
        ++ codes "]"

    pub show_values : Values S → Bytes
    show_values no_values = []
    show_values (more_values v vs) = show v ++ show_more_values vs

    -- the values behind the first
    pub show_more_values : Values S → Bytes
    show_more_values no_values = []
    show_more_values (more_values v vs) = codes ", " ++ show v ++ show_more_values vs

    pub show_fields : Fields S → Bytes
    show_fields no_fields = []
    show_fields (more_fields k v m) = k ++ codes ": " ++ show v ++ show_more_fields m

    pub show_more_fields : Fields S → Bytes
    show_more_fields no_fields = []
    show_more_fields (more_fields k v m) =
        codes ", " ++ k ++ codes ": " ++ show v ++ show_more_fields m

    -- the properties of a node or an edge, if it has any
    pub show_properties : Fields S → Bytes
    show_properties no_fields = []
    show_properties (more_fields k v m) =
        codes " {" ++ k ++ codes ": " ++ show v ++ show_more_fields m ++ codes "}"
