-- ===== src/Storage/Index/Comparable.antt =====
-- crates/synaptica-storage/src/index.rs: `encode_value_comparable`, values as bytes that compare as they do.
use synaptica.Prelude.{
  ℕ, zero, suc, ◌+◌, ◌-◌, ◌/◌, ◌%◌, ◌^◌, Bool, true, false, Ordering, none, some, [], ◌∷◌, ◌++◌,
  Bytes, ltb, length, be_bytes, if◌then◌else◌, Result, ok, err,
}
use synaptica.Prelude.Integers.{ℤ, pos, to_bits}
use synaptica.Core.Values.{Scalars, Value, null, bool, integer, float, string}

-- the bits of a float, and `bincode::serialize`
pub record ValueCodec (S : Scalars) : Type 0 where
  pub float_bits : S.Float → ℕ
  pub serialize : Value S → Result Bytes Bytes

-- `as_bytes` of a string: UTF-8
abbrev pub utf8_char : ℕ → Bytes
utf8_char c =
    if ltb c 128
    then c ∷ []
    else if ltb c 2048
    then (192 + c / 64) ∷ (128 + c % 64) ∷ []
    else if ltb c 65536
    then (224 + c / 4096) ∷ (128 + c / 64 % 64) ∷ (128 + c % 64) ∷ []
    else (240 + c / 262144) ∷ (128 + c / 4096 % 64) ∷ (128 + c / 64 % 64) ∷ (128 + c % 64) ∷ []

unfoldable pub utf8 : Bytes → Bytes
utf8 [] = []
utf8 (c ∷ cs) = utf8_char c ++ utf8 cs

-- `^ 0x80` of a byte
abbrev pub flip_sign : ℕ → ℕ
flip_sign b = if ltb b 128 then b + 128 else b - 128

-- the bytes of an integer with the sign bit flipped
abbrev pub flip_first : Bytes → Bytes
flip_first [] = []
flip_first (b ∷ bs) = flip_sign b ∷ bs

unfoldable pub encode_integer : ℤ → Bytes
encode_integer i = flip_first (be_bytes 8 (to_bits i))

-- `*f >= 0.0`
abbrev pub is_ge_zero : (S : Scalars) → S.Float → Bool
is_ge_zero S x = elim (S.partial_cmp_float x (S.float_of_i64 (pos 0))) [
  | some Ordering.lt ↦ false
  | some _ ↦ true
  | none ↦ false
]

-- `bits ^ (1 << 63)` and `!bits`
abbrev pub comparable_bits : Bool → ℕ → ℕ
comparable_bits true bits = if ltb bits (2 ^ 63) then bits + 2 ^ 63 else bits - 2 ^ 63
comparable_bits false bits = 2 ^ 64 - 1 - bits

-- the escaped bytes and the end mark
unfoldable pub escape : Bytes → Bytes
escape [] = 0 ∷ 0 ∷ []
escape (zero ∷ bs) = 0 ∷ 1 ∷ escape bs
escape (suc b ∷ bs) = suc b ∷ escape bs

abbrev pub length_prefixed : Result Bytes Bytes → Bytes
length_prefixed (ok serialized) = be_bytes 4 (length serialized % 2 ^ 32) ++ serialized
length_prefixed (err e) = be_bytes 4 0

module _ {S : Scalars} (codec : ValueCodec S) where
  -- what is appended to the buffer
  unfoldable pub encoded : Value S → Bytes
  encoded null = 0 ∷ []
  encoded (bool b) = 1 ∷ (if b then 1 else 0) ∷ []
  encoded (integer i) = 2 ∷ encode_integer i
  encoded (float x) = 3 ∷ be_bytes 8 (comparable_bits (is_ge_zero S x) (codec.float_bits x))
  encoded (string s) = 4 ∷ escape (utf8 s)
  encoded other = 255 ∷ length_prefixed (codec.serialize other)

  abbrev pub encode_value_comparable : Value S → Bytes → Bytes
  encode_value_comparable v buf = buf ++ encoded v
