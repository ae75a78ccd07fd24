-- ===== src/Dump/Index.antt =====
-- The index by name holds exactly the keys of the records.
use zewif_zcashd.Base.{
  ◌≡◌, ◌≢◌, refl, sym, ap, ◌∙◌, subst, Bool, true, false, ◌&&◌, ◌||◌, some, List, [], ◌∷◌, Result,
  ok, err, panic, bind-eq-ok, if◌then◌else◌, Bool-cases, inl, inr, arith,
}
use zewif_zcashd.Base.BTreeMap.{
  Ord, same, same_iff, get, insert, contains_key, get-insert, contains_key-insert,
}
use zewif_zcashd.Wire.Error.{ParseError}
use zewif_zcashd.Wire.Parser.{Bytes}
use zewif_zcashd.Dump.{
  DbKey, DbValue, ZcashdDump, parse_data, keys_of, add_record, add_parsed, add_records,
  from_bdb_dump,
}

module _ (names : Ord Bytes) (keys : Ord DbKey) where
  -- A key is in the set of a name if and only if it has that name and a record; and a name's set, where
  -- there is one, is not empty.
  pub record IsIndexed (d : ZcashdDump) : Type 0 where
    pub member :
        (keyname : Bytes) (key : DbKey)
        → contains_key keys key (keys_of names keys d keyname)
          ≡ (same names key.keyname keyname && contains_key keys key d.records)
    pub inhabited : (keyname : Bytes) → get names keyname d.keys_by_keyname ≢ some []

  pub IsIndexed-empty : IsIndexed (record { records = []; keys_by_keyname = [] })
  unfolding keys_of get contains_key
  IsIndexed-empty = record {
    member = λ keyname key. elim (Bool-cases (same names key.keyname keyname)) [
      | inl a ↦ rw a refl
      | inr a ↦ rw a refl
    ];
    inhabited = λ keyname e. cc;
  }

  insert-nonempty : (key : DbKey) (s : List (DbKey × Unit {0})) → insert keys key tt s ≢ []
  unfolding insert
  insert-nonempty key [] e = cc
  insert-nonempty key ((j, u) ∷ s) e = ground arith

  or_within : (k s c : Bool) → (k ≡ true → s ≡ true) → (k || (s && c)) ≡ (s && (k || c))
  or_within true s c h = rw (h refl) refl
  or_within false s c h = refl

  or_without : (k s c : Bool) → (k ≡ true → s ≡ false) → (s && c) ≡ (s && (k || c))
  or_without true s c h = rw (h refl) refl
  or_without false s c h = refl

  same_name :
      (key j : DbKey) (keyname : Bytes)
      → same keys key j ≡ true
      → same names j.keyname keyname ≡ same names key.keyname keyname
  same_name key j keyname e =
      ap (λ k. same names k.keyname keyname) (sym ((same_iff keys key j).0 e))

  keys_of-add_record :
      (key : DbKey) (value : DbValue) (d : ZcashdDump) (keyname : Bytes)
      → get names keyname (add_record names keys key value d).keys_by_keyname ≡ (
          if same names key.keyname keyname
          then some (insert keys key tt (keys_of names keys d keyname))
          else get names keyname d.keys_by_keyname)
  unfolding add_record
  keys_of-add_record key value d keyname = elim (Bool-cases (same names key.keyname keyname)) [
    | inl at ↦
        let there : key.keyname ≡ keyname = (same_iff names key.keyname keyname).0 at in
        get-insert names key.keyname keyname (insert keys key tt (keys_of names keys d key.keyname))
          d.keys_by_keyname
        ∙ ap
            (λ n.
              if same names key.keyname keyname
              then some (insert keys key tt (keys_of names keys d n))
              else get names keyname d.keys_by_keyname)
            there
    | inr away ↦
        get-insert names key.keyname keyname (insert keys key tt (keys_of names keys d key.keyname))
          d.keys_by_keyname
        ∙ rw away refl
  ]

  member-add_record :
      (key : DbKey) (value : DbValue) (d : ZcashdDump) (keyname : Bytes) (j : DbKey)
      → IsIndexed d
      → contains_key keys j (keys_of names keys (add_record names keys key value d) keyname)
        ≡ (same names j.keyname keyname && contains_key keys j (insert keys key value d.records))
  unfolding keys_of
  member-add_record key value d keyname j h = elim (Bool-cases (same names key.keyname keyname)) [
    | inl at ↦
        rw
          (
            keys_of-add_record key value d keyname,
            at,
            contains_key-insert keys key j tt (keys_of names keys d keyname),
            contains_key-insert keys key j value d.records,
            h.member keyname j,
          )
          (or_within _ _ _ (λ e. same_name key j keyname e ∙ at))
    | inr away ↦
        rw
          (
            keys_of-add_record key value d keyname,
            away,
            contains_key-insert keys key j value d.records,
          )
          (h.member keyname j ∙ or_without _ _ _ (λ e. same_name key j keyname e ∙ away))
  ]

  pub IsIndexed-add_record :
      (key : DbKey) (value : DbValue) (d : ZcashdDump)
      → IsIndexed d
      → IsIndexed (add_record names keys key value d)
  unfolding add_record
  IsIndexed-add_record key value d h = record {
    member = λ keyname j. member-add_record key value d keyname j h;
    inhabited = λ keyname e. elim (Bool-cases (same names key.keyname keyname)) [
      | inl at ↦
          let found = rw at at (sym (keys_of-add_record key value d keyname) ∙ e) in
          insert-nonempty key (keys_of names keys d keyname) (cc)
      | inr away ↦
          h.inhabited keyname (rw away at (sym (keys_of-add_record key value d keyname) ∙ e))
    ];
  }

  IsIndexed-add_parsed :
      (strict : Bool) (parsed : Result ParseError DbKey) (value : DbValue) (d d' : ZcashdDump)
      → IsIndexed d
      → add_parsed names keys strict parsed value d ≡ ok d'
      → IsIndexed d'
  IsIndexed-add_parsed strict (ok key) value d d' h e =
      let same : add_record names keys key value d ≡ d' = cc in
      subst IsIndexed same (IsIndexed-add_record key value d h)
  IsIndexed-add_parsed true (err x) value d d' h e = absurd (cc)
  IsIndexed-add_parsed false (err x) value d d' h e =
      let same : d ≡ d' = cc in subst IsIndexed same h
  IsIndexed-add_parsed strict panic value d d' h e = absurd (cc)

  IsIndexed-add_records :
      (strict : Bool) (data_records : List (Bytes × Bytes)) (d d' : ZcashdDump)
      → IsIndexed d
      → add_records names keys strict data_records d ≡ ok d'
      → IsIndexed d'
  unfolding add_records
  IsIndexed-add_records strict [] d d' h e = let same : d ≡ d' = cc in subst IsIndexed same h
  IsIndexed-add_records strict ((k, v) ∷ more) d d' h e =
      let (d₁, e₁, e₂) = bind-eq-ok (add_parsed names keys strict (parse_data k) v d) _ e in
      IsIndexed-add_records strict more d₁ d'
        (IsIndexed-add_parsed strict (parse_data k) v d d₁ h e₁) e₂

  -- Whatever key and value data from_bdb_dump makes a dump of, strictly or not, a key is in the set
  -- of a name if and only if it has that name and a record, and no name has an empty set.
  pub from_bdb_dump-IsIndexed :
      (data_records : List (Bytes × Bytes)) (strict : Bool) (d : ZcashdDump)
      → from_bdb_dump names keys data_records strict ≡ ok d
      → IsIndexed d
  unfolding from_bdb_dump
  from_bdb_dump-IsIndexed data_records strict d e =
      IsIndexed-add_records strict data_records _ d IsIndexed-empty e
