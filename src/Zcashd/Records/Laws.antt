-- ===== src/Zcashd/Records/Laws.antt =====
-- What a map that refuses duplicates holds, and that the keys of its records are handled.
use zewif_zcashd.Base.{
  String, ◌≡◌, refl, ap, ◌∙◌, subst, true, false, List, [], ◌∷◌, inl, inr, Bool-cases, none, some,
  ok, bind-eq-ok, map_err-eq-ok, lift-eq-ok, All,
}
use zewif_zcashd.Base.Bytes.{codes, eq_bytes}
use zewif_zcashd.Base.HashMap.{
  Eq, beq_refl, insert, get, contains, contains_key, get-insert, get-none,
}
use zewif_zcashd.Base.BTreeMap
use zewif_zcashd.Base.BTreeMap.{Ord}
use zewif_zcashd.Wire.Parser.{Bytes, P, parse_buf}
use zewif_zcashd.Wallet.Addresses.{script}
use zewif_zcashd.Wallet.Transparent.{script_id}
use zewif_zcashd.Dump.{DbKey, DbValue, ZcashdDump, records_for_keyname}
use zewif_zcashd.Dump.Index.{IsIndexed}
use zewif_zcashd.Zcashd.State.{
  Error, eq_key, mark_key_parsed, for_records, has_keys, records_of, parse_in, duplicate_script_id,
}
use zewif_zcashd.Zcashd.Effects.{
  Shrinks, Handles, shrinking, Shrinks-pure, Handles-for_records, Handles-first, Handles-then,
  Handles-mark_key_parsed,
}
use zewif_zcashd.Zcashd.Effects.Names.{Handles-records_of}
use zewif_zcashd.Zcashd.Records.{unique_entry, insert_unique, parse_cscripts}

module _ {K V : Type 0} ⦃eq : Eq K⦄ (kc vc : String) (pk : P K) (pv : P V)
    (duplicate : K → Error) where
  unique_entry-Shrinks :
      (m : List (K × V)) (key : DbKey) (value : DbValue)
      → Shrinks (unique_entry kc pk vc pv duplicate m key value)
  unfolding unique_entry
  unique_entry-Shrinks m key value = search shrinking depth 12

  pub unique_entry-Handles :
      (m : List (K × V)) (key : DbKey) (value : DbValue)
      → Handles key (unique_entry kc pk vc pv duplicate m key value)
  unfolding unique_entry
  unique_entry-Handles m key value = Handles-then key (parse_in kc pk key.key_data) _ (λ k.
      Handles-then key (parse_in vc pv value) _ (λ v.
        Handles-then key (insert_unique duplicate k v m) _
          (λ m'. Handles-first key _ (Handles-mark_key_parsed key) (λ u. Shrinks-pure m'))))

  -- The record's key and value as they are decoded, and found in the map.
  abbrev pub IsHeld : List (K × V) → DbKey × DbValue → Type 0
  IsHeld m (key, value) =
      (k : K) × (v : V) × (parse_buf pk key.key_data false ≡ ok k)
      × (parse_buf pv value false ≡ ok v)
      × (get k m ≡ some v)

  unique_entry-eq-ok :
      (m m' : List (K × V)) (key : DbKey) (value : DbValue) (s s' : List DbKey)
      → unique_entry kc pk vc pv duplicate m key value s ≡ ok (m', s')
      → ((j : K) (w : V) → get j m ≡ some w → get j m' ≡ some w) × IsHeld m' (key, value)
  unfolding unique_entry
  unique_entry-eq-ok m m' key value s s' e =
      let ((k, s₁), a₁, e₁) = bind-eq-ok (parse_in kc pk key.key_data s) _ e in
      let ((v, s₂), a₂, e₂) = bind-eq-ok (parse_in vc pv value s₁) _ e₁ in
      let ((n, s₃), a₃, e₃) = bind-eq-ok (insert_unique duplicate k v m s₂) _ e₂ in
      let ((u, s₄), a₄, e₄) = bind-eq-ok (mark_key_parsed key s₃) _ e₃ in
      let last : n ≡ m' = cc in
      elim (Bool-cases (contains_key k m)) [
        | inl there ↦ let bad = rw there at a₃ in absurd (cc)
        | inr fresh ↦
            let inserted = rw fresh at a₃ in
            let is : insert k v m ≡ m' = ap (λ x. x) (let h : insert k v m ≡ n = cc in h) ∙ last in
            (
              λ j w h.
                  subst (λ x. get j x ≡ some w) is
                    (get-insert k j v m ∙ elim (Bool-cases (eq.beq k j)) [
                      | inl same ↦
                          let at : k ≡ j = (eq.beq_iff k j).0 same in
                          let none_there : get j m ≡ none =
                            subst (λ x. get x m ≡ none) at (get-none k m fresh) in
                          absurd (cc)
                      | inr other ↦ rw other h
                    ]),
              (
                k,
                v,
                map_err-eq-ok _ _ (map_err-eq-ok _ _ (lift-eq-ok _ s a₁)),
                map_err-eq-ok _ _ (map_err-eq-ok _ _ (lift-eq-ok _ s₁ a₂)),
                subst (λ x. get k x ≡ some v) is (get-insert k k v m ∙ rw (beq_refl k) refl),
              ),
            )
      ]

  -- After the loop the map still holds what it held, and holds what each record decodes to.
  pub unique_entries-hold :
      (records : List (DbKey × DbValue)) (m m' : List (K × V)) (s s' : List DbKey)
      → for_records (unique_entry kc pk vc pv duplicate) records m s ≡ ok (m', s')
      → ((j : K) (w : V) → get j m ≡ some w → get j m' ≡ some w) × All (IsHeld m') records
  unfolding for_records
  unique_entries-hold [] m m' s s' h =
      let same : m ≡ m' = cc in (λ j w g. subst (λ x. get j x ≡ some w) same g, tt)
  unique_entries-hold ((key, value) ∷ records) m m' s s' h =
      let ((n, s₁), e₁, e₂) = bind-eq-ok (unique_entry kc pk vc pv duplicate m key value s) _ h in
      let (kept, (k, v, pk', pv', found)) = unique_entry-eq-ok m n key value s s₁ e₁ in
      let (kept', held) = unique_entries-hold records n m' s₁ s' e₂ in
      (λ j w g. kept' j w (kept j w g), ((k, v, pk', pv', kept' k v found), held))

module _ (names : Ord Bytes) (keys : Ord DbKey) (d : ZcashdDump) where
  -- Where a dump with a right index has cscript records and parse_cscripts succeeds, each of these
  -- records decodes and the map has its script under its id, and no key of the dump named cscript
  -- is unparsed afterwards.
  pub parse_cscripts_complete :
      (s s' : List DbKey) (m : List (Bytes × Bytes))
      → IsIndexed names keys d
      → has_keys names keys d (codes "cscript") ≡ true
      → parse_cscripts names keys d s ≡ ok (m, s')
      → ((records : List (DbKey × DbValue)) × (records_for_keyname names keys d (codes "cscript")
            ≡ ok records)
          × All
              (IsHeld "cscript ScriptID" "cscript redeem script" script_id script
                duplicate_script_id m)
              records)
        × ((k : DbKey)
            → k.keyname ≡ codes "cscript"
            → BTreeMap.contains_key keys k d.records ≡ true
            → contains k s' ≡ false)
  unfolding parse_cscripts
  parse_cscripts_complete s s' m h has e =
      let run = rw has at e in
      let ((records, s₁), e₁, e₂) =
        bind-eq-ok (records_of names keys d (codes "cscript") s) _ run in
      (
        (
          records,
          map_err-eq-ok _ _ (lift-eq-ok _ s e₁),
          (unique_entries-hold _ _ _ _ _ records [] m s₁ s' e₂).1,
        ),
        λ k at there.
            let loop = Handles-records_of names keys d (codes "cscript") k _ h at there (λ rs c.
              Handles-for_records
                (unique_entry "cscript ScriptID" script_id "cscript redeem script" script
                  duplicate_script_id)
                keys (unique_entry-Shrinks _ _ _ _ _) (unique_entry-Handles _ _ _ _ _) rs [] k c) in
            loop.run s s' m run,
      )
