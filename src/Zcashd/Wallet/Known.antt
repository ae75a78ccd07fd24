-- ===== src/Zcashd/Wallet/Known.antt =====
-- The key names that the wallet parser reads, and what its loops over the records of one name do to the
-- set of unparsed keys.
use zewif_zcashd.Base.{
  ◌≡◌, refl, sym, ap, ◌∙◌, true, false, not, ◌&&◌, ◌||◌, List, [], ◌∷◌, inl, inr, Bool-cases, ok,
  pure, ◌>>=◌, if◌then◌else◌, All, bind-eq-ok, map_err-eq-ok, lift-eq-ok,
}
use zewif_zcashd.Base.Bytes.{codes, eq_bytes}
use zewif_zcashd.Base.HashMap.{contains}
use zewif_zcashd.Base.BTreeMap.{Ord, same, same_iff, contains_key}
use zewif_zcashd.Wire.Parser.{Bytes}
use zewif_zcashd.Dump.{DbKey, DbValue, ZcashdDump, records_for_keyname}
use zewif_zcashd.Dump.Index.{IsIndexed}
use zewif_zcashd.Zcashd.State.{Z, eq_key, for_records, records_of, has_keys}
use zewif_zcashd.Zcashd.Records.{place, sort_by_data}
use zewif_zcashd.Zcashd.Effects.{Handles}
use zewif_zcashd.Zcashd.Effects.Names.{records_for_keyname_complete, records_of-none}
use zewif_zcashd.Zcashd.Effects.Marks.{
  Marks, Marks-pure, Marks-raise, Marks-abort, Marks-lift, Marks-bind, Marks-if,
  Marks-mark_key_parsed, Marks-for_records, Marks-records_of, Marks-Shrinks, Named, Effect,
  Handles-loop, records_named, contains-one,
}

-- The names of the records that `parse` looks at.
abbrev pub known_names : List Bytes
known_names =
    codes "bestblock"
    ∷ codes "cscript"
    ∷ codes "defaultkey"
    ∷ codes "hdseed"
    ∷ codes "chdseed"
    ∷ codes "key"
    ∷ codes "ckey"
    ∷ codes "keymeta"
    ∷ codes "minversion"
    ∷ codes "mkey"
    ∷ codes "name"
    ∷ codes "orderposnext"
    ∷ codes "pool"
    ∷ codes "purpose"
    ∷ codes "sapzaddr"
    ∷ codes "sapextfvk"
    ∷ codes "sapzkey"
    ∷ codes "csapzkey"
    ∷ codes "sapzkeymeta"
    ∷ codes "tx"
    ∷ codes "version"
    ∷ codes "watchs"
    ∷ codes "witnesscachesize"
    ∷ codes "wkey"
    ∷ codes "zkey"
    ∷ codes "czkey"
    ∷ codes "zkeymeta"
    ∷ codes "networkinfo"
    ∷ codes "orchard_note_commitment_tree"
    ∷ codes "unifiedaddrmeta"
    ∷ codes "unifiedaccount"
    ∷ codes "unifiedfvk"
    ∷ codes "mnemonicphrase"
    ∷ codes "cmnemonicphrase"
    ∷ codes "mnemonichdchain"
    ∷ codes "recipientmapping"
    ∷ codes "bestblock_nomerkle"
    ∷ []

pub record IsKnown (k : DbKey) : Type 0 where
  pub among : contains k.keyname known_names ≡ true

-- For a name that is written out, the first argument is `refl`.
pub IsKnown-of_name :
    (n : Bytes) → contains n known_names ≡ true → (k : DbKey) → k.keyname ≡ n → IsKnown k
IsKnown-of_name n e k h = record { among = ap (λ m. contains m known_names) h ∙ e }

-- The rules by which `search` follows the body of a parser.
pub ruleset marking =
    (Marks-pure, Marks-raise, Marks-abort, Marks-lift, Marks-bind, Marks-if, Marks-mark_key_parsed)

module _ (datas : Ord Bytes) where
  All-place :
      (Q : DbKey → Type 0) (r : DbKey × DbValue) (records : List (DbKey × DbValue))
      → Q (r.0)
      → All (λ (key, value). Q key) records
      → All (λ (key, value). Q key) (place datas r records)
  All-place Q r [] q qs = (q, tt)
  All-place Q (key, value) ((j, w) ∷ records) q (p, ps) =
      elim (Bool-cases (datas.lt j.key_data key.key_data)) [
        | inl less ↦ rw less (p, All-place Q (key, value) records q ps)
        | inr other ↦ rw other (q, (p, ps))
      ]

  pub All-sort_by_data :
      (Q : DbKey → Type 0) (records : List (DbKey × DbValue))
      → All (λ (key, value). Q key) records
      → All (λ (key, value). Q key) (sort_by_data datas records)
  unfolding sort_by_data
  All-sort_by_data Q [] q = tt
  All-sort_by_data Q ((key, value) ∷ records) (q, qs) =
      All-place Q (key, value) (sort_by_data datas records) q (All-sort_by_data Q records qs)

  contains_key-place :
      (keys : Ord DbKey) (k key : DbKey) (value : DbValue) (records : List (DbKey × DbValue))
      → (same keys key k || contains_key keys k records) ≡ true
      → contains_key keys k (place datas (key, value) records) ≡ true
  unfolding contains_key
  contains_key-place keys k key value [] e = e
  contains_key-place keys k key value ((j, w) ∷ records) e =
      elim (Bool-cases (datas.lt j.key_data key.key_data)) [
        | inl less ↦ rw less (elim (Bool-cases (same keys j k)) [
          | inl at ↦ rw at refl
          | inr away ↦ rw away (contains_key-place keys k key value records (rw away at e))
        ])
        | inr other ↦ rw other e
      ]

  pub contains_key-sort_by_data :
      (keys : Ord DbKey) (k : DbKey) (records : List (DbKey × DbValue))
      → contains_key keys k records ≡ true
      → contains_key keys k (sort_by_data datas records) ≡ true
  unfolding sort_by_data contains_key
  contains_key-sort_by_data keys k [] e = e
  contains_key-sort_by_data keys k ((key, value) ∷ records) e =
      contains_key-place keys k key value (sort_by_data datas records)
        (elim (Bool-cases (same keys key k)) [
          | inl at ↦ rw at refl
          | inr away ↦ rw away (contains_key-sort_by_data keys k records (rw away at e))
        ])

module _ (names : Ord Bytes) (keys : Ord DbKey) (d : ZcashdDump) (h : IsIndexed names keys d) where
  abbrev pub Does {ℓ} : {A : Type ℓ} → List Bytes → Z A → Type ℓ
  Does ns m = Effect IsKnown keys d ns m

  -- Where the dump has no key of a name, none of its keys has the name.
  pub Named-absent :
      (n : Bytes) (k : DbKey)
      → has_keys names keys d n ≡ false
      → Named keys d (n ∷ []) k
      → false ≡ true
  Named-absent n k away (e, there) =
      let at : same names k.keyname n ≡ true =
        (same_iff names k.keyname n).1 (contains-one k.keyname n e) in
      let none_there : (same names k.keyname n && contains_key keys k d.records) ≡ false =
        records_of-none names keys d n h away k in
      sym (rw (at, there) at none_there)

  -- Without a key of the name an action that is left out handles all of them.
  pub Does-allowed {ℓ} :
      {A : Type ℓ} (n : Bytes) (a : A) {m : Z A}
      → Does (n ∷ []) m
      → Does (n ∷ []) (if has_keys names keys d n then m else pure a)
  Does-allowed n a {m = m} g = elim (Bool-cases (has_keys names keys d n)) [
    | inl has ↦ rw has g
    | inr away ↦ rw away (record {
      marks = Marks-pure IsKnown a;
      handles = λ k named. let bad = Named-absent n k away named in absurd (cc);
    })
  ]

  pub Does-guarded {ℓ} :
      {A : Type ℓ} (n : Bytes) (a : A) {m : Z A}
      → Does (n ∷ []) m
      → Does (n ∷ []) (if not (has_keys names keys d n) then pure a else m)
  Does-guarded n a {m = m} g = elim (Bool-cases (has_keys names keys d n)) [
    | inl has ↦ rw has g
    | inr away ↦ rw away (record {
      marks = Marks-pure IsKnown a;
      handles = λ k named. let bad = Named-absent n k away named in absurd (cc);
    })
  ]

  -- An action on the records of a name handles a key of the name, where it handles it if it is given
  -- with records that hold it.
  pub Handles-read {ℓ} :
      {B : Type ℓ} (n : Bytes)
      → contains n known_names ≡ true
      → (k : DbKey) → Named keys d (n ∷ []) k
      → {f : List (DbKey × DbValue) → Z B}
      → ((records : List (DbKey × DbValue))
          → All (λ (key, value). IsKnown key) records
          → contains_key keys k records ≡ true
          → Handles k (f records))
      → Handles k (records_of names keys d n >>= f)
  Handles-read n known k (e, there) {f} g = record {
    run = λ s s' b done.
        let at : k.keyname ≡ n = contains-one k.keyname n e in
        let ((records, s₁), found, rest) = bind-eq-ok (records_of names keys d n s) _ done in
        let is : records_for_keyname names keys d n ≡ ok records =
          map_err-eq-ok _ _ (lift-eq-ok _ s found) in
        (g records (records_named IsKnown names keys d h n records is (IsKnown-of_name n known))
            (records_for_keyname_complete names keys d n records k h is at there)).run
          s₁ s' b rest;
  }

  module _ {ℓ} {A : Type ℓ} (n : Bytes) (known : contains n known_names ≡ true)
      (arrange : List (DbKey × DbValue) → List (DbKey × DbValue))
      (all : (records : List (DbKey × DbValue))
        → All (λ (key, value). IsKnown key) records
        → All (λ (key, value). IsKnown key) (arrange records))
      (members : (k : DbKey) (records : List (DbKey × DbValue))
        → contains_key keys k records ≡ true
        → contains_key keys k (arrange records) ≡ true)
      (body : A → DbKey → DbValue → Z A)
      (marks : (a : A) (key : DbKey) (value : DbValue)
        → IsKnown key
        → Marks IsKnown (body a key value))
      (a : A) where
    pub Marks-loop :
        Marks IsKnown
          (records_of names keys d n >>= λ records. for_records body (arrange records) a)
    Marks-loop =
        Marks-records_of IsKnown names keys d h n _ (IsKnown-of_name n known)
          λ records q. Marks-for_records IsKnown body marks (arrange records) a (all records q)

    pub Does-arranged :
        ((a : A) (key : DbKey) (value : DbValue) → Handles key (body a key value))
        → Does
            (n ∷ [])
            (records_of names keys d n >>= λ records. for_records body (arrange records) a)
    Does-arranged own = record {
      marks = Marks-loop;
      handles = λ k named. Handles-read n known k named λ records q c.
          Handles-loop IsKnown keys body marks own (arrange records) a k (all records q)
            (members k records c);
    }

abbrev pub as_found : List (DbKey × DbValue) → List (DbKey × DbValue)
as_found records = records
