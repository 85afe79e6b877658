-- ===== src/Prelude/Words.antt =====
-- Fixed-width unsigned integers and their big-endian bytes.
use Prim.Native.Nat.{ℕ, zero, suc, ◌+◌, ◌*◌, ◌/◌, ◌%◌, ◌^◌, ◌<◌}
use Prim.Native.Nat.Ordering.{lt}
use mathlib.Core.Path.{◌≡◌, refl, ap}
use mathlib.Core.Logic.{◌⊎◌, inl, inr}
use mathlib.Core.List.{[], ◌∷◌}
use native.Mathlib.Nat.{pow-suc, div-add-mod', mod-lt, div-lt_iff_lt-mul, pow-succ'}
use native.Mathlib.Omega.{arith}
use synaptica.Prelude.Lists.{length}
use synaptica.Prelude.ByteStrings.{Bytes, IsBytes, lex}

-- `to_be_bytes` of a `w`-byte unsigned integer `v < 256 ^ w`
unfoldable pub be_bytes : ℕ → ℕ → Bytes
be_bytes zero v = []
be_bytes (suc w) v = (v / 256 ^ w) ∷ be_bytes w (v % 256 ^ w)

-- `from_be_bytes`
unfoldable pub from_be : Bytes → ℕ
from_be [] = 0
from_be (b ∷ bs) = b * 256 ^ length bs + from_be bs

pow-pos : (w : ℕ) → 0 < 256 ^ w
pow-pos zero = omega arith
pow-pos (suc w) = rw pow-suc (omega (arith, pow-pos w))

pub length-be_bytes : (w v : ℕ) → length (be_bytes w v) ≡ w
unfolding be_bytes
length-be_bytes zero v = refl
length-be_bytes (suc w) v = ap suc (length-be_bytes w (v % 256 ^ w))

pub from_be-be_bytes : (w v : ℕ) → v < 256 ^ w → from_be (be_bytes w v) ≡ v
unfolding be_bytes from_be
from_be-be_bytes zero v h = omega arith
from_be-be_bytes (suc w) v h =
    let m = 256 ^ w in
    let r : v % m < m = mod-lt v (pow-pos w) in
    rw (length-be_bytes w (v % m), from_be-be_bytes w (v % m) r) (div-add-mod' v m)

high_byte : (w v : ℕ) → v < 256 ^ suc w → v / 256 ^ w < 256
high_byte w v h = (div-lt_iff_lt-mul (pow-pos w)).1 (rw pow-succ' at h)

pub be_bytes-IsBytes : (w v : ℕ) → v < 256 ^ w → IsBytes (be_bytes w v)
unfolding be_bytes
be_bytes-IsBytes zero v h = tt
be_bytes-IsBytes (suc w) v h =
    (high_byte w v h, be_bytes-IsBytes w (v % 256 ^ w) (mod-lt v (pow-pos w)))

-- A number is below another by its high part, or by its low part at equal high parts.
split_lt : (m a b : ℕ) → 0 < m → a < b → (a / m < b / m) ⊎ ((a / m ≡ b / m) × (a % m < b % m))
split_lt m a b p h = grind (arith, div-add-mod' a m, div-add-mod' b m, mod-lt a p)

-- Big-endian bytes are ordered as the numbers are.
pub lex-be_bytes : (w a b : ℕ) → a < b → b < 256 ^ w → lex (be_bytes w a) (be_bytes w b) ≡ lt
unfolding be_bytes lex
lex-be_bytes zero a b h k = absurd (omega arith)
lex-be_bytes (suc w) a b h k =
    let m = 256 ^ w in
    elim (split_lt m a b (pow-pos w) h) [
      | inl high ↦ ground arith
      | inr (same, low) ↦ ground (arith, lex-be_bytes w (a % m) (b % m), mod-lt b (pow-pos w))
    ]
