-- ===== src/Cluster/Partitions/Order.antt =====
-- The order of keys, as the ranges of partitions use it.
use synaptica.Prelude.{
  ◌≡◌, inl, inr, true, false, subst, Bytes, lex, lex_lt, lex_le, lex_trans, lex_flip_gt, eq_of_lex,
}
use Prim.Native.Nat.Ordering.{lt}
use synaptica.Prelude.{Ordering-cases}

lt_of_lex_lt : (a b : Bytes) → lex_lt a b ≡ true → lex a b ≡ lt
lt_of_lex_lt a b h = elim (Ordering-cases (lex a b)) [
  | inl e ↦ e
  | inr (inl e) ↦ absurd (cc (rw (lex_lt, e) at h))
  | inr (inr e) ↦ absurd (cc (rw (lex_lt, e) at h))
]

pub lex_le_lt : (a b c : Bytes) → lex_le a b ≡ true → lex_lt b c ≡ true → lex_lt a c ≡ true
lex_le_lt a b c h k = elim (Ordering-cases (lex a b)) [
  | inl e ↦ rw (lex_lt, lex_trans a b c e (lt_of_lex_lt b c k))
  | inr (inl e) ↦ (let s = eq_of_lex a b e in rw s k)
  | inr (inr e) ↦ absurd (cc (rw (lex_le, e) at h))
]

pub lex_le_trans : (a b c : Bytes) → lex_le a b ≡ true → lex_le b c ≡ true → lex_le a c ≡ true
lex_le_trans a b c h k = elim (Ordering-cases (lex b c)) [
  | inl e ↦ (let l = lt_of_lex_lt a c (lex_le_lt a b c h (rw (lex_lt, e))) in rw (lex_le, l))
  | inr (inl e) ↦ (let s = eq_of_lex b c e in subst (λ u. lex_le a u ≡ true) s h)
  | inr (inr e) ↦ absurd (cc (rw (lex_le, e) at k))
]

pub lex_le_total : (a b : Bytes) → lex_le a b ≡ false → lex_le b a ≡ true
lex_le_total a b h = elim (Ordering-cases (lex a b)) [
  | inl e ↦ absurd (cc (rw (lex_le, e) at h))
  | inr (inl e) ↦ absurd (cc (rw (lex_le, e) at h))
  | inr (inr e) ↦ rw (lex_le, lex_flip_gt a b e)
]
