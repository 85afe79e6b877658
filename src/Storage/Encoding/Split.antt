-- ===== src/Storage/Encoding/Split.antt =====
-- How the parts of a key can be read off again: fields of a fixed length, and length-prefixed labels.
use synaptica.Prelude.{
  ℕ, ◌≤◌, min, ◌≡◌, refl, sym, ap, ◌∙◌, ◌↔◌, true, [], ◌∷◌, ◌++◌, arith, append_assoc, Bytes,
  length, take, take-eq_self, starts_with, be_bytes, from_be, length-be_bytes, from_be-be_bytes,
  List,
}
use mathlib.Core.Path.{ap₂}
use synaptica.Storage.Encoding.{encode_label, u16_max}

-- Two concatenations with heads of one length agree part by part.
pub append_split {ℓ} :
    {A : Type ℓ} (a b : List A) {x y : List A}
    → length a ≡ length b
    → a ++ x ≡ b ++ y
    → (a ≡ b) × (x ≡ y)
append_split [] [] h e = (refl, e)
append_split [] (b ∷ bs) h e = absurd (omega arith)
append_split (a ∷ as') [] h e = absurd (omega arith)
append_split (a ∷ as') (b ∷ bs) {x} {y} h e =
    let (p, q) = append_split as' bs {x = x} {y = y} (omega arith) (cc) in (cc, q)

starts_with_cons :
    (a p : ℕ) (xs ps : Bytes)
    → (starts_with (a ∷ xs) (p ∷ ps) ≡ true) ↔ ((a ≡ p) × (starts_with xs ps ≡ true))
unfolding starts_with
starts_with_cons a p xs ps = ground arith

abbrev first : Bytes → ℕ
first [] = 0
first (x ∷ xs) = x

abbrev rest : Bytes → Bytes
rest [] = []
rest (x ∷ xs) = xs

-- `starts_with` on fields of one length is equality of the first and `starts_with` on the rest.
pub starts_with_field :
    (a p x q : Bytes)
    → length a ≡ length p
    → (starts_with (a ++ x) (p ++ q) ≡ true) ↔ ((a ≡ p) × (starts_with x q ≡ true))
starts_with_field [] [] x q h = (λ s. (refl, s), λ s. s.1)
starts_with_field [] (p ∷ ps) x q h = absurd (omega arith)
starts_with_field (a ∷ as') [] x q h = absurd (omega arith)
starts_with_field (a ∷ as') (p ∷ ps) x q h =
    let ih = starts_with_field as' ps x q (omega arith) in
    let step = starts_with_cons a p (as' ++ x) (ps ++ q) in
    (
      λ s. let r = ih.0 (step.0 s).1 in (ap₂ (λ u v. u ∷ v) (step.0 s).0 r.0, r.1),
      λ s. step.1 (ap first s.0, ih.1 (ap rest s.0, s.1)),
    )

-- What `encode_label` appends: the length in two bytes, and the (truncated) text.
abbrev pub label_bytes : Bytes → Bytes
label_bytes bytes = let len = min (length bytes) u16_max in be_bytes 2 len ++ take len bytes

pub encode_label-eq : (bytes buf : Bytes) → encode_label bytes buf ≡ buf ++ label_bytes bytes
unfolding encode_label
encode_label-eq bytes buf = append_assoc buf _ _

-- A label that fits is stored whole.
pub label_bytes_fit :
    (bytes : Bytes)
    → length bytes ≤ u16_max
    → label_bytes bytes ≡ be_bytes 2 (length bytes) ++ bytes
label_bytes_fit bytes h =
    let e : min (length bytes) u16_max ≡ length bytes = omega arith in
    rw (e, take-eq_self (length bytes) bytes (omega arith))

be_bytes_injective : (m n : ℕ) → m ≤ u16_max → n ≤ u16_max → be_bytes 2 m ≡ be_bytes 2 n → m ≡ n
be_bytes_injective m n h k e =
    sym (from_be-be_bytes 2 m (omega arith)) ∙ ap from_be e ∙ from_be-be_bytes 2 n (omega arith)

-- A length-prefixed label followed by anything starts with a length-prefixed label followed by
-- something exactly if the labels are equal and what follows does.
pub starts_with_label :
    (a b x q : Bytes)
    → length a ≤ u16_max
    → length b ≤ u16_max
    → (starts_with (label_bytes a ++ x) (label_bytes b ++ q) ≡ true)
      ↔ ((a ≡ b) × (starts_with x q ≡ true))
starts_with_label a b x q h k =
    rw (label_bytes_fit a h, label_bytes_fit b k, append_assoc, append_assoc) (forth, back)
  where
    la : Bytes
    la = be_bytes 2 (length a)

    lb : Bytes
    lb = be_bytes 2 (length b)

    lens : (length la ≡ length lb)
    lens = length-be_bytes 2 (length a) ∙ sym (length-be_bytes 2 (length b))

    forth :
        starts_with (la ++ (a ++ x)) (lb ++ (b ++ q)) ≡ true → (a ≡ b) × (starts_with x q ≡ true)
    forth s =
        let (e, t) = (starts_with_field la lb (a ++ x) (b ++ q) lens).0 s in
        (starts_with_field a b x q (be_bytes_injective (length a) (length b) h k e)).0 t

    back : (a ≡ b) × (starts_with x q ≡ true) → starts_with (la ++ (a ++ x)) (lb ++ (b ++ q)) ≡ true
    back s =
        (starts_with_field la lb (a ++ x) (b ++ q) lens).1
          (ap (λ t. be_bytes 2 (length t)) s.0, (starts_with_field a b x q (ap length s.0)).1 s)
