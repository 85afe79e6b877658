-- ===== src/Cluster/TwoPhase/Identifiers.antt =====
-- The identifiers `dtx-1`, `dtx-2`, … of a coordinator differ.
use synaptica.Prelude.{ℕ, ◌^◌, ◌<◌, ◌≡◌, sym, ap, ◌∙◌, [], ◌∷◌, ◌++◌, arith, Bytes, codes}
use synaptica.Prelude.Decimals.{decimal, value, value-decimal_from}

-- the identifier of the transaction with a number
abbrev pub id_of : ℕ → Bytes
id_of n = codes "dtx-" ++ decimal n

tail4 : Bytes → Bytes
tail4 (a ∷ b ∷ c ∷ d ∷ ds) = ds
tail4 _ = []

pub id_of-eq : (m n : ℕ) → m < 2 ^ 64 → n < 2 ^ 64 → id_of m ≡ id_of n → m ≡ n
unfolding tail4
id_of-eq m n h k e =
    let d : decimal m ≡ decimal n = ap tail4 e in
    sym (value-decimal_from 20 m (omega arith))
    ∙ ap (value 0) d
    ∙ value-decimal_from 20 n (omega arith)
