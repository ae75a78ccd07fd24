-- ===== src/Zcashd/Effects/Marks.antt =====
-- Which keys an action may take off the set of unparsed keys, and which it is certain to take off it.
use zewif_zcashd.Base.{
  ◌≡◌, refl, sym, ap, ◌∙◌, subst, Bool, true, false, List, [], ◌∷◌, ◌++◌, inl, inr, ◌⊎◌, Bool-cases,
  Result, ok, err, pure, raise, abort, lift, ◌>>=◌, if◌then◌else◌, bind-eq-ok, Result-cases, All,
  none, some,
}
use zewif_zcashd.Base.Bytes.{eq_bytes, bytes_eq, bytes_eq_iff}
use zewif_zcashd.Base.HashMap.{contains, remove_item, contains-remove_item}
use zewif_zcashd.Base.BTreeMap.{Ord, same, same_iff, same_refl, contains_key, get, contains_key-get}
use zewif_zcashd.Wire.Parser.{Bytes}
use zewif_zcashd.Dump.{DbKey, DbValue, ZcashdDump, records_for_keyname}
use zewif_zcashd.Dump.Index.{IsIndexed}
use zewif_zcashd.Dump.Records.{records_for_keyname-exact, records_for_keyname-All}
use zewif_zcashd.Zcashd.State.{
  Error, Z, eq_key, key_eq, key_eq_iff, mark_key_parsed, mark_keys_parsed, for_records, records_of,
}
use zewif_zcashd.Zcashd.Effects.{Shrinks, Handles, Handles-first, Handles-then}

module _ (Q : DbKey → Type 0) where
  -- After a success every key is as unparsed as before, or is of the kind `Q` and not unparsed.
  pub record Marks {ℓ} {A : Type ℓ} (m : Z A) : Type ℓ where
    pub run :
        (s s' : List DbKey) (a : A)
        → m s ≡ ok (a, s')
        → (k : DbKey) → (contains k s' ≡ contains k s) ⊎ ((contains k s' ≡ false) × Q k)

  pub Marks-pure {ℓ} : {A : Type ℓ} (a : A) → Marks (pure a)
  Marks-pure a = record { run = λ s s' b e k. inl (let same : s' ≡ s = cc in ap (contains k) same) }

  pub Marks-raise {ℓ} : {A : Type ℓ} (e : Error) → Marks (raise {A = A} e)
  Marks-raise x = record { run = λ s s' b e k. absurd (cc) }

  pub Marks-abort {ℓ} : {A : Type ℓ} → Marks (abort {A = A})
  Marks-abort = record { run = λ s s' b e k. absurd (cc) }

  pub Marks-lift {ℓ} : {A : Type ℓ} (r : Result Error A) → Marks (lift r)
  Marks-lift (ok a) = Marks-pure a
  Marks-lift (err e) = Marks-raise e
  Marks-lift Result.panic = record { run = λ s s' b e k. absurd (cc) }

  pub Marks-bind {ℓ κ} :
      {A : Type ℓ} {B : Type κ} {p : Z A} (f : A → Z B)
      → Marks p
      → ((a : A) → Marks (f a))
      → Marks (p >>= f)
  Marks-bind {p = p} f hp hf = record {
    run = λ s s'' b e k.
        let ((a, s'), e₁, e₂) = bind-eq-ok (p s) _ e in
        elim ((hf a).run s' s'' b e₂ k) [
          | inl kept ↦ elim (hp.run s s' a e₁ k) [
            | inl before ↦ inl (kept ∙ before)
            | inr (gone, q) ↦ inr (kept ∙ gone, q)
          ]
          | inr marked ↦ inr marked
        ];
  }

  pub Marks-if {ℓ} :
      {A : Type ℓ} (b : Bool) {p q : Z A} → Marks p → Marks q → Marks (if b then p else q)
  Marks-if true hp hq = hp
  Marks-if false hp hq = hq

  pub Marks-mark_key_parsed : (key : DbKey) → Q key → Marks (mark_key_parsed key)
  unfolding mark_key_parsed
  Marks-mark_key_parsed key q = record {
    run = λ s s' a e k.
        let is : s' ≡ remove_item key s = cc in
        let now : contains k s' ≡ (if key_eq key k then false else contains k s) =
          ap (contains k) is ∙ contains-remove_item key k s in
        elim (Bool-cases (key_eq key k)) [
          | inl at ↦ inr (now ∙ rw at refl, subst Q ((key_eq_iff key k).0 at) q)
          | inr away ↦ inl (now ∙ rw away refl)
        ];
  }

  pub Marks-for_records {ℓ} :
      {A : Type ℓ} (body : A → DbKey → DbValue → Z A)
      → ((a : A) (key : DbKey) (value : DbValue) → Q key → Marks (body a key value))
      → (records : List (DbKey × DbValue)) (a : A) → All (λ (key, value). Q key) records
      → Marks (for_records body records a)
  unfolding for_records
  Marks-for_records body h [] a q = Marks-pure a
  Marks-for_records body h ((key, value) ∷ records) a (q, qs) =
      Marks-bind _ (h a key value q) (λ a'. Marks-for_records body h records a' qs)

  pub Marks-mark_keys_parsed :
      (records : List (DbKey × DbValue))
      → All (λ (key, value). Q key) records
      → Marks (mark_keys_parsed records)
  unfolding mark_keys_parsed
  Marks-mark_keys_parsed [] q = Marks-pure tt
  Marks-mark_keys_parsed ((key, value) ∷ records) (q, qs) =
      Marks-bind _ (Marks-mark_key_parsed key q) (λ u. Marks-mark_keys_parsed records qs)

  pub Marks-Shrinks {ℓ} : {A : Type ℓ} {m : Z A} → Marks m → Shrinks m
  Marks-Shrinks h = record {
    run = λ s s' a e k there. elim (h.run s s' a e k) [
      | inl same ↦ sym same ∙ there
      | inr (gone, q) ↦ absurd (cc)
    ];
  }

  -- What holds of each key that is among some records holds of each of them.
  All-keys :
      (keys : Ord DbKey) (records : List (DbKey × DbValue))
      → ((k : DbKey) → contains_key keys k records ≡ true → Q k)
      → All (λ (key, value). Q key) records
  unfolding contains_key
  All-keys keys [] h = tt
  All-keys keys ((key, value) ∷ records) h = (
    h key (rw (same_refl keys key) refl),
    All-keys keys records
        λ k c. h k (elim (Bool-cases (same keys key k)) [ inl a ↦ rw a refl | inr a ↦ rw a c ]),
  )

  module _ (names : Ord Bytes) (keys : Ord DbKey) (d : ZcashdDump)
      (h : IsIndexed names keys d) where
    -- The records of a name have keys of that name.
    pub records_named :
        (keyname : Bytes) (records : List (DbKey × DbValue))
        → records_for_keyname names keys d keyname ≡ ok records
        → ((k : DbKey) → k.keyname ≡ keyname → Q k)
        → All (λ (key, value). Q key) records
    records_named keyname records e q = elim (records_for_keyname-exact names keys d keyname h) [
      | inl (failed, no_keys, nothing) ↦ absurd (cc)
      | inr (found, e', has, all) ↦
          let is : found ≡ records = cc in
          All-keys keys records λ k c.
            let (v, value) = contains_key-get keys k records c in
            elim (Bool-cases (same names k.keyname keyname)) [
              | inl at ↦ q k ((same_iff names k.keyname keyname).0 at)
              | inr other ↦
                  let bad : get keys k records ≡ none =
                    subst (λ r. get keys k r ≡ none) is (all k ∙ rw other refl) in
                  absurd (cc)
            ]
    ]

    pub Marks-records_of {ℓ} :
        {B : Type ℓ} (keyname : Bytes) (f : List (DbKey × DbValue) → Z B)
        → ((k : DbKey) → k.keyname ≡ keyname → Q k)
        → ((records : List (DbKey × DbValue))
            → All (λ (key, value). Q key) records
            → Marks (f records))
        → Marks (records_of names keys d keyname >>= f)
    Marks-records_of keyname f q g = record {
      run = λ s s' b e. elim (Result-cases (records_for_keyname names keys d keyname)) [
        | inl (records, found) ↦
            (g records (records_named keyname records found q)).run s s' b (rw found at e)
        | inr (inl (x, failed)) ↦ let bad = rw failed at e in absurd (cc)
        | inr (inr failed) ↦ let bad = rw failed at e in absurd (cc)
      ];
    }

All-both :
    (Q R : DbKey × DbValue → Type 0) (records : List (DbKey × DbValue))
    → All Q records
    → All R records
    → All (λ (key, value). Q (key, value) × R (key, value)) records
All-both Q R [] q r = tt
All-both Q R ((key, value) ∷ records) (q, qs) (r, rs) = ((q, r), All-both Q R records qs rs)

-- The records of a name have the name, and their values in the dump.
pub records_for_keyname-members :
    (names : Ord Bytes) (keys : Ord DbKey) (d : ZcashdDump) (keyname : Bytes)
    (records : List (DbKey × DbValue))
    → IsIndexed names keys d
    → records_for_keyname names keys d keyname ≡ ok records
    → All (λ (key, value). (key.keyname ≡ keyname) × (get keys key d.records ≡ some value)) records
records_for_keyname-members names keys d keyname records h e =
    All-both (λ (key, value). key.keyname ≡ keyname)
      (λ (key, value). get keys key d.records ≡ some value) records
      (records_named (λ k. k.keyname ≡ keyname) names keys d h keyname records e (λ k at. at))
      (records_for_keyname-All names keys d keyname records e)

-- Where each round handles its own key, a loop over keys of the kind `Q` handles all of them.
pub Handles-loop {ℓ} :
    (Q : DbKey → Type 0) (keys : Ord DbKey) {A : Type ℓ} (body : A → DbKey → DbValue → Z A)
    → ((a : A) (key : DbKey) (value : DbValue) → Q key → Marks Q (body a key value))
    → ((a : A) (key : DbKey) (value : DbValue) → Handles key (body a key value))
    → (records : List (DbKey × DbValue)) (a : A) (k : DbKey) → All (λ (key, value). Q key) records
    → contains_key keys k records ≡ true
    → Handles k (for_records body records a)
unfolding for_records contains_key
Handles-loop Q keys body h g [] a k q e = absurd (cc)
Handles-loop Q keys body h g ((key, value) ∷ records) a k (q, qs) e =
    elim (Bool-cases (same keys key k)) [
      | inl here ↦
          let at : key ≡ k = (same_iff keys key k).0 here in
          Handles-first k _ (subst (λ x. Handles x (body a key value)) at (g a key value))
            (λ a'. Marks-Shrinks Q (Marks-for_records Q body h records a' qs))
      | inr there ↦
          Handles-then k (body a key value) _
            (λ a'. Handles-loop Q keys body h g records a' k qs (rw there at e))
    ]

-- A key of the dump that has one of some names.
abbrev pub Named : (keys : Ord DbKey) → ZcashdDump → List Bytes → DbKey → Type 0
Named keys d ns k = (contains k.keyname ns ≡ true) × (contains_key keys k d.records ≡ true)

pub contains-append :
    (n : Bytes) (ms ns : List Bytes)
    → contains n (ms ++ ns) ≡ true
    → (contains n ms ≡ true) ⊎ (contains n ns ≡ true)
unfolding contains
contains-append n [] ns e = inr e
contains-append n (m ∷ ms) ns e = elim (Bool-cases (bytes_eq m n)) [
  | inl at ↦ inl (rw at refl)
  | inr away ↦ elim (contains-append n ms ns (rw away at e)) [
    | inl l ↦ inl (rw away l)
    | inr r ↦ inr r
  ]
]

pub contains-one : (n m : Bytes) → contains n (m ∷ []) ≡ true → n ≡ m
unfolding contains
contains-one n m e = elim (Bool-cases (bytes_eq m n)) [
  | inl at ↦ sym ((bytes_eq_iff m n).0 at)
  | inr away ↦ let bad : false ≡ true = rw away at e in absurd (cc)
]

module _ (Q : DbKey → Type 0) (keys : Ord DbKey) (d : ZcashdDump) where
  -- An action that marks keys of the kind `Q` only, and among them all keys of the names `ns`.
  pub record Effect {ℓ} {A : Type ℓ} (ns : List Bytes) (m : Z A) : Type ℓ where
    pub marks : Marks Q m
    pub handles : (k : DbKey) → Named keys d ns k → Handles k m

  pub Effect-Marks {ℓ} : {A : Type ℓ} {m : Z A} → Marks Q m → Effect [] m
  unfolding contains
  Effect-Marks h = record { marks = h; handles = λ k (e, there). absurd (cc) }

  pub Effect-bind {ℓ κ} :
      {A : Type ℓ} {B : Type κ} (ms ns : List Bytes) {p : Z A} (f : A → Z B)
      → Effect ms p
      → ((a : A) → Effect ns (f a))
      → Effect (ms ++ ns) (p >>= f)
  Effect-bind ms ns {p = p} f hp hf = record {
    marks = Marks-bind Q f hp.marks (λ a. (hf a).marks);
    handles = λ k (e, there). elim (contains-append k.keyname ms ns e) [
      | inl l ↦ Handles-first k f (hp.handles k (l, there)) (λ a. Marks-Shrinks Q ((hf a).marks))
      | inr r ↦ Handles-then k p f (λ a. (hf a).handles k (r, there))
    ];
  }
