-- ===== src/Dump/Records.antt =====
-- What the queries of a dump return.
use zewif_zcashd.Base.{
  ◌≡◌, ◌≢◌, refl, sym, ap, ◌∙◌, subst, Bool, true, false, ◌&&◌, ◌||◌, Option, none, some, List, [],
  ◌∷◌, ok, err, bind-eq-ok, if◌then◌else◌, Bool-cases, ◌⊎◌, inl, inr, All,
}
use zewif_zcashd.Base.BTreeMap.{
  Ord, same, same_iff, same_refl, get, insert, contains_key, get-insert, contains_key-get, get-none,
  get-empty, contains_key-empty,
}
use zewif_zcashd.Wire.Parser.{Bytes}
use zewif_zcashd.Dump.{
  DbKey, DbValue, ZcashdDump, or_else, keys_of, value_for_key, collect_records, records_for_keyname,
  has_keys_for_keyname, record_for_keyname, only_record, record_not_found, keyname_not_found,
}
use zewif_zcashd.Dump.Index.{IsIndexed}

and_right : (a b : Bool) → (a && b) ≡ true → b ≡ true
and_right true b e = e
and_right false b e = absurd (cc)

and_left : (a b : Bool) → (a && b) ≡ true → a ≡ true
and_left true b e = refl
and_left false b e = absurd (cc)

pub or_else-eq-ok {ℓ} :
    {E : Type 0} {A : Type ℓ} (x : E) (o : Option A) {a : A} → or_else x o ≡ ok a → o ≡ some a
or_else-eq-ok x none e = absurd (cc)
or_else-eq-ok x (some b) e = cc

if_and :
    (a b : Bool) (o : Option DbValue)
    → (b ≡ false → o ≡ none)
    → (if a && b then o else none) ≡ (if a then o else none)
if_and true true o h = refl
if_and true false o h = sym (h refl)
if_and false b o h = refl

module _ (names : Ord Bytes) (keys : Ord DbKey) where
  -- The loop finds a value for each key that has one, and collects them over what was there.
  collect_records-ok :
      (d : ZcashdDump) (ks : List (DbKey × Unit {0})) (before : List (DbKey × DbValue))
      → ((key : DbKey) → contains_key keys key ks ≡ true → contains_key keys key d.records ≡ true)
      → (records : List (DbKey × DbValue)) × (collect_records names keys d ks before ≡ ok records)
        × ((key : DbKey)
            → get keys key records
              ≡ (if contains_key keys key ks then get keys key d.records else get keys key before))
  unfolding collect_records contains_key value_for_key
  collect_records-ok d [] before h = (before, refl, λ key. refl)
  collect_records-ok d ((k, u) ∷ ks) before h =
      let (v, found) = contains_key-get keys k d.records (h k (rw (same_refl keys k) refl)) in
      let (records, e, all) = collect_records-ok d ks (insert keys k v before) (λ key c.
        h key (elim (Bool-cases (same keys k key)) [ inl a ↦ rw a refl | inr a ↦ rw a c ])) in
      (
        records,
        rw found e,
        λ key. elim (Bool-cases (same keys k key)) [
          | inl here ↦
              let is : k ≡ key = (same_iff keys k key).0 here in
              let value : get keys key d.records ≡ some v =
                subst (λ x. get keys x d.records ≡ some v) is found in
              all key
              ∙ rw (get-insert keys k key v before, here, value)
                  (elim (Bool-cases (contains_key keys key ks)) [
                    | inl a ↦ rw a refl
                    | inr a ↦ rw a refl
                  ])
          | inr there ↦ all key ∙ rw (get-insert keys k key v before, there) refl
        ],
      )

  -- In a dump whose index is that of its records, records_for_keyname either returns
  -- KeynameNotFound, and then the index lacks the name and no key of the name has a record, or
  -- returns records in which a key has a value if and only if it has the name and a record in the
  -- dump, and then that record's value.
  pub records_for_keyname-exact :
      (d : ZcashdDump) (keyname : Bytes)
      → IsIndexed names keys d
      → ((records_for_keyname names keys d keyname ≡ err (keyname_not_found keyname))
          × (has_keys_for_keyname names keys d keyname ≡ false)
          × ((key : DbKey) → key.keyname ≡ keyname → get keys key d.records ≡ none))
        ⊎ ((records : List (DbKey × DbValue)) × (records_for_keyname names keys d keyname
              ≡ ok records)
            × (has_keys_for_keyname names keys d keyname ≡ true)
            × ((key : DbKey)
                → get keys key records
                  ≡ (if same names key.keyname keyname then get keys key d.records else none)))
  unfolding records_for_keyname has_keys_for_keyname keys_of
  records_for_keyname-exact d keyname h =
      elim (Bool-cases (contains_key names keyname d.keys_by_keyname)) [
        | inl there ↦
            let (ks, found) = contains_key-get names keyname d.keys_by_keyname there in
            let members : (key : DbKey)
                → contains_key keys key ks
                  ≡ (same names key.keyname keyname && contains_key keys key d.records) =
              λ key. rw found at (h.member keyname key) in
            let (records, e, all) =
              collect_records-ok d ks []
                (λ key c. and_right (same names key.keyname keyname) _ (sym (members key) ∙ c)) in
            inr (
              records,
              rw found e,
              there,
              λ key.
                  all key
                  ∙ rw (members key, get-empty keys {V = DbValue} key)
                      (if_and _ _ _ (get-none keys key d.records)),
            )
        | inr away ↦
            let nothing : get names keyname d.keys_by_keyname ≡ none =
              get-none names keyname d.keys_by_keyname away in
            inl (
              rw nothing refl,
              away,
              λ key at. get-none keys key d.records (
                  let here : same names key.keyname keyname ≡ true =
                    (same_iff names key.keyname keyname).1 at in
                  sym (
                    sym (contains_key-empty keys (Unit {0}) key)
                    ∙ rw (nothing, here) at (h.member keyname key))),
            )
      ]

  only_record-eq-ok :
      (d : ZcashdDump) (keyname : Bytes) (ks : List (DbKey × Unit {0})) (key : DbKey)
      (value : DbValue)
      → only_record names keys d keyname ks ≡ ok (key, value)
      → (ks ≡ (key, tt) ∷ []) × (get keys key d.records ≡ some value)
  unfolding value_for_key
  only_record-eq-ok d keyname [] key value e = absurd (cc)
  only_record-eq-ok d keyname (k ∷ j ∷ ks) key value e = absurd (cc)
  only_record-eq-ok d keyname ((k, tt) ∷ []) key value e =
      let (v, found, done) = bind-eq-ok (or_else (record_not_found k) (get keys k d.records)) _ e in
      let is : k ≡ key = cc in
      let at : v ≡ value = cc in
      (
        ap (λ x. (x, tt) ∷ []) is,
        subst (λ x. get keys x d.records ≡ some value) is (or_else-eq-ok _ _ found ∙ ap some at),
      )

  -- In a dump with a right index, a record that record_for_keyname returns has the name asked for
  -- and its value in the dump, and no other key of that name has a record.
  pub record_for_keyname-exact :
      (d : ZcashdDump) (keyname : Bytes) (key : DbKey) (value : DbValue)
      → IsIndexed names keys d
      → record_for_keyname names keys d keyname ≡ ok (key, value)
      → (key.keyname ≡ keyname)
        × (get keys key d.records ≡ some value)
        × ((other : DbKey)
            → other.keyname ≡ keyname
            → other ≢ key
            → get keys other d.records ≡ none)
  unfolding record_for_keyname keys_of contains_key
  record_for_keyname-exact d keyname key value h e =
      let (ks, e₁, e₂) =
        bind-eq-ok (or_else (keyname_not_found keyname) (get names keyname d.keys_by_keyname)) _
          e in
      let found : get names keyname d.keys_by_keyname ≡ some ks = or_else-eq-ok _ _ e₁ in
      let (one, here) = only_record-eq-ok d keyname ks key value e₂ in
      let members : (j : DbKey)
          → (same keys key j || false)
            ≡ (same names j.keyname keyname && contains_key keys j d.records) =
        λ j. rw (found, one) at (h.member keyname j) in
      (
        (same_iff names key.keyname keyname).0
            (and_left _ _ (sym (members key) ∙ rw (same_refl keys key) refl)),
        here,
        λ other at apart. get-none keys other d.records (
            let named : same names other.keyname keyname ≡ true =
              (same_iff names other.keyname keyname).1 at in
            let away : same keys key other ≡ false = elim (Bool-cases (same keys key other)) [
              | inl c ↦ absurd (apart (sym ((same_iff keys key other).0 c)))
              | inr c ↦ c
            ] in
            sym (rw (named, away) at (members other))),
      )

  All-insert :
      (Q : DbKey × DbValue → Type 0) (key : DbKey) (value : DbValue)
      (records : List (DbKey × DbValue))
      → Q (key, value)
      → All Q records
      → All Q (insert keys key value records)
  unfolding insert
  All-insert Q key value [] q h = (q, tt)
  All-insert Q key value ((j, w) ∷ records) q (first, h) = elim (Bool-cases (keys.lt key j)) [
    | inl before ↦ rw before (q, (first, h))
    | inr not_before ↦ elim (Bool-cases (keys.lt j key)) [
      | inl after ↦ rw (not_before, after) (first, All-insert Q key value records q h)
      | inr not_after ↦
          let at : key ≡ j = keys.lt_total key j not_before not_after in
          rw (not_before, not_after) (subst (λ x. Q (x, value)) at q, h)
    ]
  ]

  -- The value of a record in the dump.
  abbrev pub IsRecord : ZcashdDump → DbKey × DbValue → Type 0
  IsRecord d (key, value) = get keys key d.records ≡ some value

  collect_records-All :
      (d : ZcashdDump) (ks : List (DbKey × Unit {0})) (before records : List (DbKey × DbValue))
      → All (IsRecord d) before
      → collect_records names keys d ks before ≡ ok records
      → All (IsRecord d) records
  unfolding collect_records value_for_key
  collect_records-All d [] before records h e =
      let is : before ≡ records = cc in subst (All (IsRecord d)) is h
  collect_records-All d ((key, u) ∷ ks) before records h e =
      let (value, found, rest) =
        bind-eq-ok (or_else (record_not_found key) (get keys key d.records)) _ e in
      collect_records-All d ks (insert keys key value before) records
        (All-insert (IsRecord d) key value before (or_else-eq-ok _ _ found) h) rest

  -- Each record of a name has its value in the dump.
  pub records_for_keyname-All :
      (d : ZcashdDump) (keyname : Bytes) (records : List (DbKey × DbValue))
      → records_for_keyname names keys d keyname ≡ ok records
      → All (IsRecord d) records
  unfolding records_for_keyname
  records_for_keyname-All d keyname records e =
      let (ks, found, rest) =
        bind-eq-ok (or_else (keyname_not_found keyname) (get names keyname d.keys_by_keyname)) _
          e in
      collect_records-All d ks [] records tt rest
