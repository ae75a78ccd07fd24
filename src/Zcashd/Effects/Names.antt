-- ===== src/Zcashd/Effects/Names.antt =====
-- The records of a name, and loops over them.
use zewif_zcashd.Base.{
  ◌≡◌, refl, ◌∙◌, subst, true, false, ◌&&◌, List, inl, inr, Bool-cases, some, ok, ◌>>=◌,
  Result-cases,
}
use zewif_zcashd.Base.BTreeMap.{
  Ord, same, same_iff, contains_key, get, contains_key-get, get-contains_key,
  contains_key-get-is_some,
}
use zewif_zcashd.Wire.Parser.{Bytes}
use zewif_zcashd.Dump.{DbKey, DbValue, ZcashdDump, records_for_keyname}
use zewif_zcashd.Dump.Index.{IsIndexed}
use zewif_zcashd.Dump.Records.{records_for_keyname-exact}
use zewif_zcashd.Zcashd.State.{Z, eq_key, records_of, has_keys}
use zewif_zcashd.Zcashd.Effects.{Handles}

module _ (names : Ord Bytes) (keys : Ord DbKey) (d : ZcashdDump) where
  -- With a key of the name there are records of the name, and they have the dump's keys of that name.
  pub records_of-exact :
      (keyname : Bytes)
      → IsIndexed names keys d
      → has_keys names keys d keyname ≡ true
      → (records : List (DbKey × DbValue)) × (records_for_keyname names keys d keyname ≡ ok records)
        × ((k : DbKey)
            → contains_key keys k records
              ≡ (same names k.keyname keyname && contains_key keys k d.records))
  records_of-exact keyname h has = elim (records_for_keyname-exact names keys d keyname h) [
    | inl (failed, no_keys, nothing) ↦ absurd (cc)
    | inr (records, e, has_some, all) ↦ (
      records,
      e,
      λ k.
          contains_key-get-is_some keys k records
          ∙ rw (all k, contains_key-get-is_some keys k d.records)
              (elim (Bool-cases (same names k.keyname keyname)) [
                | inl a ↦ rw a refl
                | inr a ↦ rw a refl
              ]),
    )
  ]

  -- Without a key of the name the dump has no record of the name.
  pub records_of-none :
      (keyname : Bytes)
      → IsIndexed names keys d
      → has_keys names keys d keyname ≡ false
      → (k : DbKey) → (same names k.keyname keyname && contains_key keys k d.records) ≡ false
  records_of-none keyname h away k = elim (records_for_keyname-exact names keys d keyname h) [
    | inl (failed, no_keys, nothing) ↦ elim (Bool-cases (same names k.keyname keyname)) [
      | inl at ↦
          rw
            (
              at,
              contains_key-get-is_some keys k d.records,
              nothing k ((same_iff names k.keyname keyname).0 at),
            )
            refl
      | inr other ↦ rw other refl
    ]
    | inr (records, e, has_some, all) ↦ absurd (cc)
  ]

  -- The records of a name hold every key of the dump that has the name.
  pub records_for_keyname_complete :
      (keyname : Bytes) (records : List (DbKey × DbValue)) (k : DbKey)
      → IsIndexed names keys d
      → records_for_keyname names keys d keyname ≡ ok records
      → k.keyname ≡ keyname
      → contains_key keys k d.records ≡ true
      → contains_key keys k records ≡ true
  records_for_keyname_complete keyname records k h e at there =
      elim (records_for_keyname-exact names keys d keyname h) [
        | inl (failed, no_keys, nothing) ↦ absurd (cc)
        | inr (found, e', has, all) ↦
            let is : found ≡ records = cc in
            let (v, value) = contains_key-get keys k d.records there in
            let named : same names k.keyname keyname ≡ true =
              (same_iff names k.keyname keyname).1 at in
            get-contains_key keys k records v
              (subst (λ r. get keys k r ≡ some v) is (all k ∙ rw (named, value) refl))
      ]

  -- A loop over the records of a name handles every key of the dump that has the name.
  pub Handles-records_of {κ} :
      {B : Type κ} (keyname : Bytes) (k : DbKey) (f : List (DbKey × DbValue) → Z B)
      → IsIndexed names keys d
      → k.keyname ≡ keyname
      → contains_key keys k d.records ≡ true
      → ((records : List (DbKey × DbValue))
          → contains_key keys k records ≡ true
          → Handles k (f records))
      → Handles k (records_of names keys d keyname >>= f)
  Handles-records_of keyname k f h at there g = record {
    run = λ s s' b e. elim (Result-cases (records_for_keyname names keys d keyname)) [
      | inl (records, found) ↦
          (g records (records_for_keyname_complete keyname records k h found at there)).run s s' b
            (rw found at e)
      | inr (inl (x, failed)) ↦ let bad = rw failed at e in absurd (cc)
      | inr (inr failed) ↦ let bad = rw failed at e in absurd (cc)
    ];
  }
