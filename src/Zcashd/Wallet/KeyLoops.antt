-- ===== src/Zcashd/Wallet/KeyLoops.antt =====
-- Actions on the records of two names, one of keys in the clear and one of encrypted keys.
use zewif_zcashd.Base.{
  ◌≡◌, refl, sym, ◌∙◌, subst, true, false, not, Bool, List, [], ◌∷◌, inl, inr, Bool-cases, pure,
  raise, ◌>>=◌, if◌then◌else◌, All, length, ◌==◌, map_err,
}
use zewif_zcashd.Base.Bytes.{bytes_eq, bytes_eq_iff, eq_bytes}
use zewif_zcashd.Base.HashMap.{contains}
use zewif_zcashd.Base.BTreeMap.{Ord, same, same_iff, contains_key}
use zewif_zcashd.Wire.Parser.{Bytes}
use zewif_zcashd.Wallet.Equality.{eq_sprout_address}
use zewif_zcashd.Dump.{DbKey, DbValue, ZcashdDump, records_for_keyname}
use zewif_zcashd.Dump.Index.{IsIndexed}
use zewif_zcashd.Zcashd.State.{
  Error, dump_error, Z, eq_key, EncryptedKeyPolicy, has_keys, records_of, mark_records_parsed,
  skip_or_reject_encrypted,
}
use zewif_zcashd.Zcashd.Keys.{meta_key}
use zewif_zcashd.Zcashd.Keys.Laws.{among, mark_records_parsed-exact}
use zewif_zcashd.Zcashd.Effects.{
  Handles, Handles-raise, Handles-then, Handles-first, Handles-if, Shrinks-pure,
}
use zewif_zcashd.Zcashd.Effects.Marks.{
  Marks, Marks-pure, Marks-raise, Marks-bind, Marks-if, Marks-lift, Marks-records_of, Named,
  contains-append,
}
use zewif_zcashd.Zcashd.Wallet.Known.{
  known_names, IsKnown, IsKnown-of_name, Does, Handles-read, Named-absent,
}
use zewif_zcashd.Zcashd.Wallet.Singles.{Marks-mark_records_parsed}

pub IsKnown-meta_key :
    (n : Bytes) → contains n known_names ≡ true → (key : DbKey) → IsKnown (meta_key n key)
IsKnown-meta_key n e key = record { among = e }

module _ (names : Ord Bytes) (keys : Ord DbKey) (d : ZcashdDump) (h : IsIndexed names keys d) where
  among-contains :
      (n : Bytes) (ns : List Bytes) → contains n ns ≡ true → among names keys d n ns ≡ true
  unfolding among contains
  among-contains n [] e = absurd (cc)
  among-contains n (m ∷ ns) e = elim (Bool-cases (bytes_eq m n)) [
    | inl at ↦
        let is : same names n m ≡ true = (same_iff names n m).1 (sym ((bytes_eq_iff m n).0 at)) in
        rw is refl
    | inr away ↦ elim (Bool-cases (same names n m)) [
      | inl is ↦ rw is refl
      | inr other ↦ rw other (among-contains n ns (rw away at e))
    ]
  ]

  Handles-mark_records_parsed :
      (keynames : List Bytes) (k : DbKey)
      → Named keys d keynames k
      → Handles k (mark_records_parsed names keys d keynames)
  Handles-mark_records_parsed keynames k (e, there) = record {
    run = λ s s' a done.
        let (s₁, is, all) = mark_records_parsed-exact names keys d keynames s h in
        let same_set : s₁ ≡ s' = cc in
        subst (λ t. contains k t ≡ false) same_set
          (all k ∙ rw (among-contains k.keyname keynames e, there) refl);
  }

  pub Does-mark_records_parsed :
      (keynames : List Bytes)
      → All (λ n. contains n known_names ≡ true) keynames
      → Does names keys d h keynames (mark_records_parsed names keys d keynames)
  Does-mark_records_parsed keynames q = record {
    marks = Marks-mark_records_parsed names keys d h keynames q;
    handles = Handles-mark_records_parsed keynames;
  }

  pub Does-raise {ℓ} :
      {A : Type ℓ} (ns : List Bytes) (e : Error) → Does names keys d h ns (raise {A = A} e)
  Does-raise ns e = record { marks = Marks-raise IsKnown e; handles = λ k named. Handles-raise k e }

  pub Does-if {ℓ} :
      {A : Type ℓ} (ns : List Bytes) (b : Bool) {p q : Z A}
      → Does names keys d h ns p
      → Does names keys d h ns q
      → Does names keys d h ns (if b then p else q)
  Does-if ns true hp hq = hp
  Does-if ns false hp hq = hq

  pub Does-then_pure {ℓ κ} :
      {A : Type ℓ} {B : Type κ} (ns : List Bytes) {p : Z A} (b : B)
      → Does names keys d h ns p
      → Does names keys d h ns (p >>= λ a. pure b)
  Does-then_pure ns b hp = record {
    marks = Marks-bind IsKnown _ hp.marks (λ a. Marks-pure IsKnown b);
    handles = λ k named. Handles-first k _ (hp.handles k named) (λ a. Shrinks-pure b);
  }

  pub Does-skip_or_reject_encrypted :
      (policy : EncryptedKeyPolicy) (keynames : List Bytes)
      → All (λ n. contains n known_names ≡ true) keynames
      → Does names keys d h keynames (skip_or_reject_encrypted names keys d policy keynames)
  unfolding skip_or_reject_encrypted
  Does-skip_or_reject_encrypted policy keynames q =
      Does-if keynames _ (Does-raise keynames _) (Does-mark_records_parsed keynames q)

  -- Fewer names.
  pub Does-first_name {ℓ} :
      {A : Type ℓ} (n m : Bytes) {p : Z A}
      → Does names keys d h (n ∷ m ∷ []) p
      → Does names keys d h (n ∷ []) p
  unfolding contains
  Does-first_name n m hp = record {
    marks = hp.marks;
    handles = λ k (e, there). hp.handles k (
      elim (Bool-cases (bytes_eq n k.keyname)) [
        | inl at ↦ rw at refl
        | inr away ↦ let bad = rw away at e in absurd (cc)
      ],
      there,
    );
  }

  -- An action that reads the records of two names, by which of them are there.
  pub Does-two {ℓ} :
      {A : Type ℓ} (n m : Bytes) {p : Z A}
      → (has_keys names keys d n ≡ true
          → has_keys names keys d m ≡ true
          → Does names keys d h (n ∷ m ∷ []) p)
      → (has_keys names keys d n ≡ true
          → has_keys names keys d m ≡ false
          → Does names keys d h (n ∷ []) p)
      → (has_keys names keys d n ≡ false
          → has_keys names keys d m ≡ true
          → Does names keys d h (m ∷ []) p)
      → (has_keys names keys d n ≡ false → has_keys names keys d m ≡ false → Marks IsKnown p)
      → Does names keys d h (n ∷ m ∷ []) p
  Does-two n m {p = p} both one two neither = elim (Bool-cases (has_keys names keys d n)) [
    | inl a ↦ elim (Bool-cases (has_keys names keys d m)) [
      | inl b ↦ both a b
      | inr b ↦ record {
        marks = (one a b).marks;
        handles = λ k (e, there). elim (contains-append k.keyname (n ∷ []) (m ∷ []) e) [
          | inl l ↦ (one a b).handles k (l, there)
          | inr r ↦ let bad = Named-absent names keys d h m k b (r, there) in absurd (cc)
        ];
      }
    ]
    | inr a ↦ elim (Bool-cases (has_keys names keys d m)) [
      | inl b ↦ record {
        marks = (two a b).marks;
        handles = λ k (e, there). elim (contains-append k.keyname (n ∷ []) (m ∷ []) e) [
          | inl l ↦ let bad = Named-absent names keys d h n k a (l, there) in absurd (cc)
          | inr r ↦ (two a b).handles k (r, there)
        ];
      }
      | inr b ↦ record {
        marks = neither a b;
        handles = λ k (e, there). elim (contains-append k.keyname (n ∷ []) (m ∷ []) e) [
          | inl l ↦ let bad = Named-absent names keys d h n k a (l, there) in absurd (cc)
          | inr r ↦ let bad = Named-absent names keys d h m k b (r, there) in absurd (cc)
        ];
      }
    ]
  ]

  -- An action on the records of a name, that reads another name's records only to count them.
  module _ {B : Type 0} (n m : Bytes) (known : contains n known_names ≡ true) (x : Error)
      (loop : List (DbKey × DbValue) → Z B)
      (marks : (records : List (DbKey × DbValue))
        → All (λ (key, value). IsKnown key) records
        → Marks IsKnown (loop records))
      (own : (records : List (DbKey × DbValue)) (k : DbKey)
        → All (λ (key, value). IsKnown key) records
        → contains_key keys k records ≡ true
        → Handles k (loop records)) where
    pub Does-checked : Does names keys d h (n ∷ []) (do
      records ← records_of names keys d n
      others ← records_of names keys d m
      if not (length records == length others) then raise x else loop records)
    Does-checked = record {
      marks = Marks-records_of IsKnown names keys d h n _ (IsKnown-of_name n known) λ records q.
          Marks-bind IsKnown {p = records_of names keys d m} _
            (Marks-lift IsKnown (map_err dump_error (records_for_keyname names keys d m)))
            λ others. Marks-if IsKnown _ (Marks-raise IsKnown x) (marks records q);
      handles = λ k (e, there).
          Handles-read names keys d h n known k (e, there)
            λ records q c.
              Handles-then k (records_of names keys d m) _
                λ others. Handles-if k _ (Handles-raise k x) (own records k q c);
    }
