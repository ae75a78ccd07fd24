-- ===== src/Tests/Orders.antt =====
-- The lexicographic order of byte strings.
use zewif_zcashd.Base.{◌≡◌, refl, [], ◌∷◌, Bool, true, false, if◌then◌else◌, ltb, ◌==◌, arith}
use zewif_zcashd.Base.BTreeMap.{Ord}
use zewif_zcashd.Wire.Parser.{Bytes}

unfoldable pub lt_bytes : Bytes → Bytes → Bool
lt_bytes xs [] = false
lt_bytes [] (b ∷ bs) = true
lt_bytes (a ∷ xs) (b ∷ bs) =
    let rest = lt_bytes xs bs in if ltb a b then true else if a == b then rest else false

pub lt_bytes_irrefl : (xs : Bytes) → lt_bytes xs xs ≡ false
unfolding lt_bytes
lt_bytes_irrefl [] = refl
lt_bytes_irrefl (a ∷ xs) = ground (arith, lt_bytes_irrefl xs)

pub lt_bytes_trans :
    (xs bs cs : Bytes) → lt_bytes xs bs ≡ true → lt_bytes bs cs ≡ true → lt_bytes xs cs ≡ true
unfolding lt_bytes
lt_bytes_trans xs [] cs h k = absurd (cc)
lt_bytes_trans [] (b ∷ bs) [] h k = absurd (cc)
lt_bytes_trans [] (b ∷ bs) (c ∷ cs) h k = refl
lt_bytes_trans (a ∷ xs) (b ∷ bs) [] h k = absurd (cc)
lt_bytes_trans (a ∷ xs) (b ∷ bs) (c ∷ cs) h k = ground (arith, lt_bytes_trans xs bs cs)

pub lt_bytes_total : (xs bs : Bytes) → lt_bytes xs bs ≡ false → lt_bytes bs xs ≡ false → xs ≡ bs
unfolding lt_bytes
lt_bytes_total [] [] h k = refl
lt_bytes_total [] (b ∷ bs) h k = absurd (cc)
lt_bytes_total (a ∷ xs) [] h k = absurd (cc)
lt_bytes_total (a ∷ xs) (b ∷ bs) h k = ground (arith, lt_bytes_total xs bs)

abbrev pub ord_bytes : Ord Bytes
ord_bytes = record {
  lt = lt_bytes;
  lt_irrefl = lt_bytes_irrefl;
  lt_trans = lt_bytes_trans;
  lt_total = lt_bytes_total;
}
