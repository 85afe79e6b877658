-- ===== src/Storage/Rocks/Order.antt =====
-- The ordered map of Storage/Rocks.antt stays ordered under its operations.
use synaptica.Prelude.{
  Ordering-cases, ◌≡◌, sym, subst, inl, inr, Bool, List, [], ◌∷◌, Bytes, bytes_eq, lex, lex_trans,
  lex_flip_gt, eq_of_lex, All, All-imp, All-retain, retain, Bool-cases,
}
use Prim.Native.Nat.Ordering.{lt}
use synaptica.Storage.Rocks.{
  Entry, BatchOp, IsSorted, insert, insert_before, insert_over, insert_behind, apply_op,
  apply_batch,
}

-- An ordered map keeps a property of its entries and its order under a write.
pub insert-All {κ} :
    (P : Entry → Type κ) (k v : Bytes) (es : List Entry)
    → P (k, v)
    → All P es
    → All P (insert k v es)
insert-All P k v [] p h = (p, tt)
insert-All P k v (x ∷ es) p h = elim (Ordering-cases (lex k x.0)) [
  | inl e ↦ subst (All P) (sym (insert_before k v x es e)) (p, h)
  | inr (inl e) ↦ subst (All P) (sym (insert_over k v x es e)) (p, h.1)
  | inr (inr e) ↦ subst (All P) (sym (insert_behind k v x es e)) (h.0, insert-All P k v es p h.1)
]

pub insert-IsSorted : (k v : Bytes) (es : List Entry) → IsSorted es → IsSorted (insert k v es)
insert-IsSorted k v [] so = (tt, tt)
insert-IsSorted k v (x ∷ es) so = elim (Ordering-cases (lex k x.0)) [
  | inl e ↦
      subst IsSorted (sym (insert_before k v x es e))
        ((e, All-imp (λ y b. lex_trans k x.0 y.0 e b) es so.0), so)
  | inr (inl e) ↦
      subst IsSorted (sym (insert_over k v x es e))
        (subst (λ u. All (λ y. lex u y.0 ≡ lt) es) (sym (eq_of_lex k x.0 e)) so.0, so.1)
  | inr (inr e) ↦ subst IsSorted (sym (insert_behind k v x es e)) (
    insert-All (λ y. lex x.0 y.0 ≡ lt) k v es (lex_flip_gt k x.0 e) so.0,
    insert-IsSorted k v es so.1,
  )
]

pub retain-IsSorted : (p : Entry → Bool) (es : List Entry) → IsSorted es → IsSorted (retain p es)
retain-IsSorted p [] so = tt
retain-IsSorted p (x ∷ es) so = elim (Bool-cases (p x)) [
  | inl e ↦ rw e (All-retain (λ f. lex x.0 f.0 ≡ lt) p es so.0, retain-IsSorted p es so.1)
  | inr e ↦ rw e (retain-IsSorted p es so.1)
]

apply_op-IsSorted :
    (cf : Bytes) (op : BatchOp) (es : List Entry) → IsSorted es → IsSorted (apply_op cf op es)
apply_op-IsSorted cf (BatchOp.put_cf c k v) es so = elim (Bool-cases (bytes_eq c cf)) [
  | inl e ↦ rw e (insert-IsSorted k v es so)
  | inr e ↦ rw e so
]
apply_op-IsSorted cf (BatchOp.delete_cf c k) es so = elim (Bool-cases (bytes_eq c cf)) [
  | inl e ↦ rw e (retain-IsSorted _ es so)
  | inr e ↦ rw e so
]

pub apply_batch-IsSorted :
    (cf : Bytes) (ops : List BatchOp) (es : List Entry)
    → IsSorted es
    → IsSorted (apply_batch cf ops es)
apply_batch-IsSorted cf [] es so = so
apply_batch-IsSorted cf (op ∷ ops) es so =
    apply_batch-IsSorted cf ops (apply_op cf op es) (apply_op-IsSorted cf op es so)
