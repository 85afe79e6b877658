-- ===== src/Storage/Index/Order.antt =====
-- The encodings of integers and of strings compare as the values do.
use synaptica.Core.Values.WellFormed.{IsValue}
use synaptica.Prelude.{
  Option, some, none, if◌then◌else◌, compare, Ordering-cases, ℕ, zero, suc, ◌+◌, ◌-◌, ◌/◌, ◌%◌, ◌^◌,
  ◌<◌, ◌≤◌, ◌≡◌, refl, sym, ap, ◌∙◌, arith, true, false, Ordering, [], ◌∷◌, Bytes, lex, lex_refl,
  lex_flip_lt, lex-be_bytes, be_bytes, inl, inr,
}
use synaptica.Prelude.Integers.{ℤ, pos, negsuc, IsI64}
use synaptica.Core.Values.{Scalars, Value, null, bool, integer, string}
use synaptica.Exec.Arithmetic.{cmp_ℤ}
use synaptica.Storage.Index.Comparable.{
  flip_sign, ValueCodec, encoded, encode_integer, flip_first, escape, utf8,
}

-- an integer as a number that has the sign bit flipped
abbrev pub shifted : ℤ → ℕ
shifted (pos n) = n + 2 ^ 63
shifted (negsuc n) = 2 ^ 63 - 1 - n

shifted-lt : (z : ℤ) → IsI64 z → shifted z < 256 ^ 8
shifted-lt (pos n) h = omega arith
shifted-lt (negsuc n) h = omega arith

be_bytes-first : (v : ℕ) → be_bytes 8 v ≡ (v / 256 ^ 7) ∷ be_bytes 7 (v % 256 ^ 7)
unfolding be_bytes
be_bytes-first v = refl

∷-cong : {a b : ℕ} {xs ys : Bytes} → a ≡ b → xs ≡ ys → a ∷ xs ≡ b ∷ ys
∷-cong p q = λ i. p i ∷ q i

flip_sign-small : (b : ℕ) → b < 128 → flip_sign b ≡ b + 128
flip_sign-small b h = ground arith

flip_sign-large : (b : ℕ) → 128 ≤ b → flip_sign b ≡ b - 128
flip_sign-large b h = ground arith

flip-be_bytes : (v : ℕ) → v < 2 ^ 63 → flip_first (be_bytes 8 v) ≡ be_bytes 8 (v + 2 ^ 63)
flip-be_bytes v h =
    let q : flip_sign (v / 256 ^ 7) ≡ (v + 2 ^ 63) / 256 ^ 7 =
      flip_sign-small (v / 256 ^ 7) (omega arith) ∙ omega arith in
    let m : v % 256 ^ 7 ≡ (v + 2 ^ 63) % 256 ^ 7 = omega arith in
    ap flip_first (be_bytes-first v)
    ∙ ∷-cong q (ap (be_bytes 7) m)
    ∙ sym (be_bytes-first (v + 2 ^ 63))

-- a number from 2^63 on
flip-be_bytes_high : (v : ℕ) → v < 2 ^ 63 → flip_first (be_bytes 8 (v + 2 ^ 63)) ≡ be_bytes 8 v
flip-be_bytes_high v h =
    let u = v + 2 ^ 63 in
    let q : flip_sign (u / 256 ^ 7) ≡ v / 256 ^ 7 =
      flip_sign-large (u / 256 ^ 7) (omega arith) ∙ omega arith in
    let m : u % 256 ^ 7 ≡ v % 256 ^ 7 = omega arith in
    ap flip_first (be_bytes-first u) ∙ ∷-cong q (ap (be_bytes 7) m) ∙ sym (be_bytes-first v)

encode_integer_eq : (z : ℤ) → IsI64 z → encode_integer z ≡ be_bytes 8 (shifted z)
unfolding encode_integer
encode_integer_eq (pos n) h =
    let same : n % 2 ^ 64 ≡ n = omega arith in
    ap (λ v. flip_first (be_bytes 8 v)) same ∙ flip-be_bytes n h
encode_integer_eq (negsuc n) h =
    let v = 2 ^ 63 - 1 - n in
    let same : 2 ^ 64 - 1 - n % 2 ^ 64 ≡ v + 2 ^ 63 = omega arith in
    ap (λ w. flip_first (be_bytes 8 w)) same ∙ flip-be_bytes_high v (omega arith)

cmp-shifted : (a b : ℤ) → IsI64 a → IsI64 b → cmp_ℤ a b ≡ compare (shifted a) (shifted b)
cmp-shifted (pos a) (pos b) h k = ground arith
cmp-shifted (pos a) (negsuc b) h k = ground arith
cmp-shifted (negsuc a) (pos b) h k = ground arith
cmp-shifted (negsuc a) (negsuc b) h k = ground arith

lex-compare :
    (w a b : ℕ) → a < 256 ^ w → b < 256 ^ w → lex (be_bytes w a) (be_bytes w b) ≡ compare a b
lex-compare w a b h k = elim (Ordering-cases (compare a b)) [
  | inl e ↦ lex-be_bytes w a b (ground arith) k ∙ sym e
  | inr (inl e) ↦
      (let same : a ≡ b = ground arith in rw same (lex_refl (be_bytes w b) ∙ sym (rw same at e)))
  | inr (inr e) ↦
      lex_flip_lt (be_bytes w b) (be_bytes w a) (lex-be_bytes w b a (ground arith) h) ∙ sym e
]

lex-encode_integer :
    (a b : ℤ) → IsI64 a → IsI64 b → lex (encode_integer a) (encode_integer b) ≡ cmp_ℤ a b
lex-encode_integer a b h k =
    rw (encode_integer_eq a h, encode_integer_eq b k)
      (lex-compare 8 (shifted a) (shifted b) (shifted-lt a h) (shifted-lt b k)
        ∙ sym (cmp-shifted a b h k))

-- The bytes of strings compare as their escaped forms.
lex-escape : (s t : Bytes) → lex (escape s) (escape t) ≡ lex s t
unfolding lex escape
lex-escape [] [] = refl
lex-escape [] (zero ∷ t) = ground arith
lex-escape [] (suc b ∷ t) = ground arith
lex-escape (zero ∷ s) [] = ground arith
lex-escape (suc a ∷ s) [] = ground arith
lex-escape (zero ∷ s) (zero ∷ t) = lex-escape s t
lex-escape (zero ∷ s) (suc b ∷ t) = ground arith
lex-escape (suc a ∷ s) (zero ∷ t) = ground arith
lex-escape (suc a ∷ s) (suc b ∷ t) = ground (arith, lex-escape s t)

-- the order of two values of one type: that of integers, of Booleans, and that which Rust gives `str`
abbrev pub order_of : {S : Scalars} → Value S → Value S → Option Ordering
order_of null null = some Ordering.eq
order_of (bool a) (bool b) = some (compare (if a then 1 else 0) (if b then 1 else 0))
order_of (integer a) (integer b) = some (cmp_ℤ a b)
order_of (string s) (string t) = some (lex (utf8 s) (utf8 t))
order_of _ _ = none

some_injective : {o p : Ordering} → ◌≡◌ {A = Option Ordering} (some o) (some p) → o ≡ p
some_injective e = cc

-- Two values that are null, or two Booleans, integers of `i64` or strings, compare as the bytes that the
-- index stores for them.
pub lex-encoded :
    {S : Scalars} (codec : ValueCodec S) (v w : Value S) (o : Ordering)
    → IsValue v
    → IsValue w
    → order_of v w ≡ some o
    → lex (encoded codec v) (encoded codec w) ≡ o
unfolding encoded IsValue lex
lex-encoded codec null null o h k e = some_injective e
lex-encoded codec (bool true) (bool true) o h k e = some_injective e
lex-encoded codec (bool true) (bool false) o h k e = some_injective e
lex-encoded codec (bool false) (bool true) o h k e = some_injective e
lex-encoded codec (bool false) (bool false) o h k e = some_injective e
lex-encoded codec (integer a) (integer b) o h k e = lex-encode_integer a b h k ∙ some_injective e
lex-encoded codec (string s) (string t) o h k e = lex-escape (utf8 s) (utf8 t) ∙ some_injective e
lex-encoded codec _ _ o h k e = absurd (cc)
