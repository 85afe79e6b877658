-- ===== src/Core/Values/WellFormed.antt =====
-- The values that Rust's types allow: integers of `i64`, durations of `i32` and `i64`, and maps whose
-- keys increase, as in a `BTreeMap`.
use synaptica.Prelude.{
  Ordering-cases, ◌≡◌, some, List, [], ◌∷◌, Bytes, Ordering, lex, bytes_eq, inl, inr, Bool-cases,
  lex_flip_gt, eq_of_lex, subst, sym,
}
use synaptica.Prelude.Integers.{IsI64}
use synaptica.Prelude.Integers.Bounds.{IsI32}
use synaptica.Core.Values.{
  Scalars, Duration, Value, Values, Fields, integer, duration, list, map, node, edge, no_values,
  more_values, no_fields, more_fields, get_field, insert_field, append_values, string_values,
}

abbrev pub IsDuration : Duration → Type 0
IsDuration d = IsI32 d.months × IsI32 d.days × IsI64 d.nanos

module _ {S : Scalars} where
  -- the key is less than the first one of the map
  abbrev pub IsBefore : Bytes → Fields S → Type 0
  IsBefore k no_fields = Unit
  IsBefore k (more_fields j v m) = lex k j ≡ Ordering.lt

  unfoldable mutual
    pub IsValue : Value S → Type 0
    IsValue (integer i) = IsI64 i
    IsValue (duration d) = IsDuration d
    IsValue (list l) = AreValues l
    IsValue (map m) = AreFields m
    IsValue (node id labels m) = AreFields m
    IsValue (edge id label source target m) = AreFields m
    IsValue _ = Unit

    pub AreValues : Values S → Type 0
    AreValues no_values = Unit
    AreValues (more_values v vs) = IsValue v × AreValues vs

    pub AreFields : Fields S → Type 0
    AreFields no_fields = Unit
    AreFields (more_fields k v m) = IsValue v × (IsBefore k m × AreFields m)

  insert_field-IsBefore :
      (j k : Bytes) (v : Value S) (m : Fields S)
      → IsBefore j m
      → lex j k ≡ Ordering.lt
      → IsBefore j (insert_field k v m)
  unfolding insert_field
  insert_field-IsBefore j k v no_fields h l = l
  insert_field-IsBefore j k v (more_fields i w m) h l = elim (Ordering-cases (lex k i)) [
    | inl e ↦ rw (insert_field, e) l
    | inr (inl e) ↦ rw (insert_field, e) l
    | inr (inr e) ↦ rw (insert_field, e) h
  ]

  pub insert_field-AreFields :
      (k : Bytes) (v : Value S) (m : Fields S)
      → IsValue v
      → AreFields m
      → AreFields (insert_field k v m)
  unfolding insert_field IsValue
  insert_field-AreFields k v no_fields hv hm = (hv, (tt, tt))
  insert_field-AreFields k v (more_fields i w m) hv (hw, (hb, hm)) =
      elim (Ordering-cases (lex k i)) [
        | inl e ↦ rw (insert_field, e) (hv, (e, (hw, (hb, hm))))
        | inr (inl e) ↦
            rw (insert_field, e) (hv, (subst (λ x. IsBefore x m) (sym (eq_of_lex k i e)) hb, hm))
        | inr (inr e) ↦
            rw (insert_field, e)
              (
                hw,
                (
                  insert_field-IsBefore i k v m hb (lex_flip_gt k i e),
                  insert_field-AreFields k v m hv hm,
                ),
              )
      ]

  pub get_field-IsValue :
      (k : Bytes) (m : Fields S) (v : Value S) → AreFields m → get_field k m ≡ some v → IsValue v
  unfolding get_field IsValue
  get_field-IsValue k no_fields v hm e = absurd (cc)
  get_field-IsValue k (more_fields j w m) v (hw, (hb, hm)) e = elim (Bool-cases (bytes_eq j k)) [
    | inl t ↦ (let same : w ≡ v = cc (rw t at e) in subst IsValue same hw)
    | inr f ↦ get_field-IsValue k m v hm (rw f at e)
  ]

  pub append_values-AreValues :
      (vs ws : Values S) → AreValues vs → AreValues ws → AreValues (append_values vs ws)
  unfolding append_values IsValue
  append_values-AreValues no_values ws h k = k
  append_values-AreValues (more_values v vs) ws (h, hs) k = (h, append_values-AreValues vs ws hs k)

pub string_values-AreValues : (S : Scalars) (ss : List Bytes) → AreValues (string_values {S = S} ss)
unfolding string_values IsValue
string_values-AreValues S [] = tt
string_values-AreValues S (s ∷ ss) = (tt, string_values-AreValues S ss)
