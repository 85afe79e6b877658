-- ===== src/Prelude/ByteStrings.antt =====
-- Byte strings as lists of numbers: equality, prefixes, and the lexicographic order that `Ord` gives
-- `Vec<u8>`, `&[u8]` and `str` in Rust. A `String` is the list of its UTF-8 bytes.
use Prim.Native.Nat.{ℕ, ◌<◌, compare, Ordering}
use Prim.Native.Nat.Ordering.{lt, eq, gt}
use mathlib.Core.Path.{◌≡◌, refl}
use mathlib.Core.Logic.{inl, inr, ◌↔◌}
use mathlib.Core.Bool.{Bool, true, false}
use mathlib.Core.List.{List, [], ◌∷◌, ◌++◌}
use native.Mathlib.Omega.{arith}
use synaptica.Prelude.Tests.{Bool-cases, ◌==◌, if◌then◌else◌}
use synaptica.Prelude.Lists.{All}

abbrev pub Bytes : Type 0
Bytes = List ℕ

-- every element is a byte
abbrev pub IsBytes : Bytes → Type 0
IsBytes = All (λ b. b < 256)

unfoldable pub bytes_eq : Bytes → Bytes → Bool
bytes_eq [] [] = true
bytes_eq [] (y ∷ ys) = false
bytes_eq (x ∷ xs) [] = false
bytes_eq (x ∷ xs) (y ∷ ys) = if x == y then bytes_eq xs ys else false

pub bytes_eq_sound : (xs ys : Bytes) → bytes_eq xs ys ≡ true → xs ≡ ys
unfolding bytes_eq
bytes_eq_sound [] [] h = refl
bytes_eq_sound [] (y ∷ ys) h = cc
bytes_eq_sound (x ∷ xs) [] h = cc
bytes_eq_sound (x ∷ xs) (y ∷ ys) h = ground (arith, bytes_eq_sound xs ys)

pub bytes_eq_refl : (xs : Bytes) → bytes_eq xs xs ≡ true
unfolding bytes_eq
bytes_eq_refl [] = refl
bytes_eq_refl (x ∷ xs) = ground (arith, bytes_eq_refl xs)

pub bytes_eq_flip : (xs ys : Bytes) → bytes_eq xs ys ≡ false → bytes_eq ys xs ≡ false
bytes_eq_flip xs ys h = elim (Bool-cases (bytes_eq ys xs)) [
  | inr e ↦ e
  | inl e ↦ (let s = bytes_eq_sound ys xs e in absurd (cc (h, s, bytes_eq_refl xs)))
]

pub bytes_eq_iff : (xs ys : Bytes) → (bytes_eq xs ys ≡ true) ↔ (xs ≡ ys)
bytes_eq_iff xs ys = (bytes_eq_sound xs ys, λ e. rw (← e) (bytes_eq_refl xs))

-- `slice::starts_with`: whether `xs` starts with `ps`
unfoldable pub starts_with : Bytes → Bytes → Bool
starts_with xs [] = true
starts_with [] (p ∷ ps) = false
starts_with (x ∷ xs) (p ∷ ps) = if x == p then starts_with xs ps else false

pub starts_with-append : (ps xs : Bytes) → starts_with (ps ++ xs) ps ≡ true
unfolding starts_with
starts_with-append [] xs = refl
starts_with-append (p ∷ ps) xs = ground (arith, starts_with-append ps xs)

pub starts_with_sound :
    (xs ps : Bytes) → starts_with xs ps ≡ true → (rest : Bytes) × (xs ≡ ps ++ rest)
unfolding starts_with
starts_with_sound xs [] h = (xs, refl)
starts_with_sound [] (p ∷ ps) h = absurd (cc)
starts_with_sound (x ∷ xs) (p ∷ ps) h =
    let (rest, e) = starts_with_sound xs ps (ground arith) in (rest, ground arith)

-- the order of byte strings
unfoldable pub lex : Bytes → Bytes → Ordering
lex [] [] = eq
lex [] (y ∷ ys) = lt
lex (x ∷ xs) [] = gt
lex (x ∷ xs) (y ∷ ys) = elim (compare x y) [ lt ↦ lt | eq ↦ lex xs ys | gt ↦ gt ]

abbrev pub lex_lt : Bytes → Bytes → Bool
lex_lt xs ys = elim (lex xs ys) [ lt ↦ true | _ ↦ false ]

abbrev pub lex_le : Bytes → Bytes → Bool
lex_le xs ys = elim (lex xs ys) [ gt ↦ false | _ ↦ true ]

pub lex_refl : (xs : Bytes) → lex xs xs ≡ eq
unfolding lex
lex_refl [] = refl
lex_refl (x ∷ xs) = ground (arith, lex_refl xs)

pub eq_of_lex : (xs ys : Bytes) → lex xs ys ≡ eq → xs ≡ ys
unfolding lex
eq_of_lex [] [] h = refl
eq_of_lex [] (y ∷ ys) h = cc
eq_of_lex (x ∷ xs) [] h = cc
eq_of_lex (x ∷ xs) (y ∷ ys) h = ground (arith, eq_of_lex xs ys)

pub lex_flip_gt : (xs ys : Bytes) → lex xs ys ≡ gt → lex ys xs ≡ lt
unfolding lex
lex_flip_gt [] [] h = cc
lex_flip_gt [] (y ∷ ys) h = cc
lex_flip_gt (x ∷ xs) [] h = refl
lex_flip_gt (x ∷ xs) (y ∷ ys) h = ground (arith, lex_flip_gt xs ys)

pub lex_flip_lt : (xs ys : Bytes) → lex xs ys ≡ lt → lex ys xs ≡ gt
unfolding lex
lex_flip_lt [] [] h = cc
lex_flip_lt [] (y ∷ ys) h = refl
lex_flip_lt (x ∷ xs) [] h = cc
lex_flip_lt (x ∷ xs) (y ∷ ys) h = ground (arith, lex_flip_lt xs ys)

pub lex_trans : (xs ys zs : Bytes) → lex xs ys ≡ lt → lex ys zs ≡ lt → lex xs zs ≡ lt
unfolding lex
lex_trans xs [] zs h k = absurd (lex-nil_right xs h)
  where
    lex-nil_right : (ts : Bytes) → lex ts [] ≡ lt → ⊥
    lex-nil_right [] e = cc
    lex-nil_right (t ∷ ts) e = cc
lex_trans xs (y ∷ ys) [] h k = absurd (cc)
lex_trans [] (y ∷ ys) (z ∷ zs) h k = refl
lex_trans (x ∷ xs) (y ∷ ys) (z ∷ zs) h k = ground (arith, lex_trans xs ys zs)

-- A common prefix does not matter to the order.
pub lex-append : (ps xs ys : Bytes) → lex (ps ++ xs) (ps ++ ys) ≡ lex xs ys
unfolding lex
lex-append [] xs ys = refl
lex-append (p ∷ ps) xs ys = ground (arith, lex-append ps xs ys)
