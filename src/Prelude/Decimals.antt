-- ===== src/Prelude/Decimals.antt =====
-- Numbers in decimal digits.
use Prim.Native.Nat.{ℕ, zero, suc, ◌+◌, ◌-◌, ◌*◌, ◌/◌, ◌%◌, ◌^◌, ◌<◌}
use mathlib.Core.Path.{◌≡◌, refl}
use mathlib.Core.Logic.{inl, inr}
use mathlib.Core.List.{[], ◌∷◌, ◌++◌}
use native.Mathlib.Omega.{arith}
use synaptica.Prelude.Tests.{ltb, if◌then◌else◌, Bool-cases}
use synaptica.Prelude.ByteStrings.{Bytes}

-- the digits of a number below 10 ^ fuel
unfoldable pub decimal_from : ℕ → ℕ → Bytes
decimal_from zero n = []
decimal_from (suc fuel) n =
    if ltb n 10 then (48 + n) ∷ [] else decimal_from fuel (n / 10) ++ (48 + n % 10) ∷ []

-- a `u64` has 20 digits at most
abbrev pub decimal : ℕ → Bytes
decimal n = decimal_from 20 n

-- the number that a row of digits stands for
unfoldable pub value : ℕ → Bytes → ℕ
value acc [] = acc
value acc (d ∷ ds) = value (acc * 10 + (d - 48)) ds

value-append :
    (acc : ℕ) (ds : Bytes) (d : ℕ) → value acc (ds ++ d ∷ []) ≡ value acc ds * 10 + (d - 48)
unfolding value
value-append acc [] d = refl
value-append acc (e ∷ ds) d = value-append (acc * 10 + (e - 48)) ds d

pub value-decimal_from : (fuel n : ℕ) → n < 10 ^ fuel → value 0 (decimal_from fuel n) ≡ n
unfolding decimal_from value
value-decimal_from zero n h = omega arith
value-decimal_from (suc fuel) n h = elim (Bool-cases (ltb n 10)) [
  | inl e ↦ rw e (omega arith)
  | inr e ↦
      let small : n / 10 < 10 ^ fuel = omega arith in
      rw (e, value-append, value-decimal_from fuel (n / 10) small) (omega arith)
]
