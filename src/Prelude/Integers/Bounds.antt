-- ===== src/Prelude/Integers/Bounds.antt =====
-- The results of the machine operators are in range.
use synaptica.Prelude.{
  ℕ, zero, suc, ◌+◌, ◌%◌, ◌^◌, ◌<◌, ◌≤◌, ◌≡◌, true, arith, ltb, ltb→lt, inl, inr, Bool-cases,
}
use synaptica.Prelude.Integers.{
  ℤ, pos, negsuc, IsI64, is_i64, is_i32, wrap_i64, wrap_i32, of_bits, to_bits, trem, neg_ℤ,
  pos_part, neg_part,
}
use native.Mathlib.Nat.{mod-le}

abbrev pub IsI32 : ℤ → Type 0
IsI32 (pos n) = n < 2 ^ 31
IsI32 (negsuc n) = n < 2 ^ 31

pub is_i64→IsI64 : (z : ℤ) → is_i64 z ≡ true → IsI64 z
is_i64→IsI64 (pos n) h = ltb→lt n (2 ^ 63) h
is_i64→IsI64 (negsuc n) h = ltb→lt n (2 ^ 63) h

pub is_i32→IsI32 : (z : ℤ) → is_i32 z ≡ true → IsI32 z
is_i32→IsI32 (pos n) h = ltb→lt n (2 ^ 31) h
is_i32→IsI32 (negsuc n) h = ltb→lt n (2 ^ 31) h

of_bits-IsI64 : (b : ℕ) → b < 2 ^ 64 → IsI64 (of_bits b)
of_bits-IsI64 b h = elim (Bool-cases (ltb b (2 ^ 63))) [
  | inl e ↦ rw e (ground arith)
  | inr e ↦ rw e (ground arith)
]

to_bits-lt : (z : ℤ) → to_bits z < 2 ^ 64
to_bits-lt (pos n) = omega arith
to_bits-lt (negsuc n) = omega arith

pub wrap_i64-IsI64 : (z : ℤ) → IsI64 (wrap_i64 z)
wrap_i64-IsI64 z = of_bits-IsI64 (to_bits z) (to_bits-lt z)

pub wrap_i32-IsI32 : (z : ℤ) → IsI32 (wrap_i32 z)
wrap_i32-IsI32 (pos n) = elim (Bool-cases (ltb (n % 2 ^ 32) (2 ^ 31))) [
  | inl e ↦ rw e (ground arith)
  | inr e ↦ rw e (ground arith)
]
wrap_i32-IsI32 (negsuc n) = elim (Bool-cases (ltb (n % 2 ^ 32) (2 ^ 31))) [
  | inl e ↦ rw e (ground arith)
  | inr e ↦ rw e (ground arith)
]

neg_ℤ-IsI64 : (n : ℕ) → n ≤ 2 ^ 63 → IsI64 (neg_ℤ (pos n))
neg_ℤ-IsI64 zero h = omega arith
neg_ℤ-IsI64 (suc n) h = omega arith

-- A remainder is in range if the dividend is.
pub trem-IsI64 : (a b : ℤ) → IsI64 a → IsI64 (trem a b)
trem-IsI64 (pos m) b h = let k : m % (pos_part b + neg_part b) ≤ m = mod-le _ _ in omega arith
trem-IsI64 (negsuc m) b h =
    let k : suc m % (pos_part b + neg_part b) ≤ suc m = mod-le _ _ in
    neg_ℤ-IsI64 (suc m % (pos_part b + neg_part b)) (omega arith)
