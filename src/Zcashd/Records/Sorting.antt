-- ===== src/Zcashd/Records/Sorting.antt =====
-- The sort of the records by the data of their keys.
use zewif_zcashd.Base.{◌≡◌, true, false, List, [], ◌∷◌, inl, inr, Bool-cases, All}
use zewif_zcashd.Base.BTreeMap.{Ord}
use zewif_zcashd.Wire.Parser.{Bytes}
use zewif_zcashd.Dump.{DbKey, DbValue}
use zewif_zcashd.Zcashd.Records.{place, sort_by_data}

-- The same items, each as often.
pub data Rearranged : List (DbKey × DbValue) → List (DbKey × DbValue) → Type 0 where
  done : Rearranged [] []
  keep :
      (r : DbKey × DbValue) (xs ys : List (DbKey × DbValue))
      → Rearranged xs ys
      → Rearranged (r ∷ xs) (r ∷ ys)
  swap :
      (r q : DbKey × DbValue) (xs : List (DbKey × DbValue)) → Rearranged (r ∷ q ∷ xs) (q ∷ r ∷ xs)
  both :
      (xs ys zs : List (DbKey × DbValue)) → Rearranged xs ys → Rearranged ys zs → Rearranged xs zs

Rearranged-refl : (xs : List (DbKey × DbValue)) → Rearranged xs xs
Rearranged-refl [] = done
Rearranged-refl (x ∷ xs) = keep x xs xs (Rearranged-refl xs)

module _ (datas : Ord Bytes) where
  -- No record is behind one with greater data.
  unfoldable pub Ascending : List (DbKey × DbValue) → Type 0
  Ascending [] = Unit
  Ascending (x ∷ xs) = All (λ y. datas.lt (y.0).key_data (x.0).key_data ≡ false) xs × Ascending xs

  place-Rearranged :
      (r : DbKey × DbValue) (xs : List (DbKey × DbValue)) → Rearranged (r ∷ xs) (place datas r xs)
  place-Rearranged r [] = keep r [] [] done
  place-Rearranged r (x ∷ xs) = elim (Bool-cases (datas.lt (x.0).key_data (r.0).key_data)) [
    | inl before ↦ rw before (both _ _ _ (swap r x xs) (keep x _ _ (place-Rearranged r xs)))
    | inr after ↦ rw after (Rearranged-refl (r ∷ x ∷ xs))
  ]

  place-All :
      (Q : DbKey × DbValue → Type 0) (r : DbKey × DbValue) (xs : List (DbKey × DbValue))
      → Q r
      → All Q xs
      → All Q (place datas r xs)
  place-All Q r [] q h = (q, tt)
  place-All Q r (x ∷ xs) q (hx, h) = elim (Bool-cases (datas.lt (x.0).key_data (r.0).key_data)) [
    | inl before ↦ rw before (hx, place-All Q r xs q h)
    | inr after ↦ rw after (q, (hx, h))
  ]

  -- What is not below `x` is not below anything that `x` is not below.
  not_below :
      (r x : DbKey × DbValue) (xs : List (DbKey × DbValue))
      → datas.lt (x.0).key_data (r.0).key_data ≡ false
      → All (λ y. datas.lt (y.0).key_data (x.0).key_data ≡ false) xs
      → All (λ y. datas.lt (y.0).key_data (r.0).key_data ≡ false) xs
  not_below r x [] h a = tt
  not_below r x (y ∷ ys) h (hy, a) = (
    elim (Bool-cases (datas.lt (y.0).key_data (r.0).key_data)) [
      | inr e ↦ e
      | inl below ↦ elim (Bool-cases (datas.lt (r.0).key_data (x.0).key_data)) [
        | inl less ↦ absurd (cc (datas.lt_trans _ _ _ below less, hy))
        | inr e ↦
            let same : (x.0).key_data ≡ (r.0).key_data = datas.lt_total _ _ h e in
            absurd (cc (same, below, hy))
      ]
    ],
    not_below r x ys h a,
  )

  place-Ascending :
      (r : DbKey × DbValue) (xs : List (DbKey × DbValue))
      → Ascending xs
      → Ascending (place datas r xs)
  unfolding Ascending
  place-Ascending r [] h = (tt, tt)
  place-Ascending r (x ∷ xs) (least, h) =
      elim (Bool-cases (datas.lt (x.0).key_data (r.0).key_data)) [
        | inl before ↦
            rw before (place-All _ r xs (lt_asym _ _ before) least, place-Ascending r xs h)
        | inr after ↦ rw after ((after, not_below r x xs after least), (least, h))
      ]
    where
      lt_asym : (a b : Bytes) → datas.lt a b ≡ true → datas.lt b a ≡ false
      lt_asym a b e = elim (Bool-cases (datas.lt b a)) [
        | inl f ↦ absurd (cc (datas.lt_trans a b a e f, datas.lt_irrefl a))
        | inr f ↦ f
      ]

  -- For any order of data the sort of the watch-only records returns the same records, each as
  -- often, none of them behind one whose key has greater data.
  pub sort_by_data-Ascending :
      (records : List (DbKey × DbValue))
      → Ascending (sort_by_data datas records) × Rearranged records (sort_by_data datas records)
  unfolding sort_by_data Ascending
  sort_by_data-Ascending [] = (tt, done)
  sort_by_data-Ascending (r ∷ records) =
      let (sorted, same) = sort_by_data-Ascending records in
      (
        place-Ascending r (sort_by_data datas records) sorted,
        both _ _ _ (keep r _ _ same) (place-Rearranged r (sort_by_data datas records)),
      )
