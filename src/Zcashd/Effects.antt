-- ===== src/Zcashd/Effects.antt =====
-- What an action does to the set of unparsed keys: it never grows, and which keys it is certain to take
-- off it.
pub mod Names
pub mod Marks
use zewif_zcashd.Base.{
  ◌≡◌, refl, ◌∙◌, subst, Bool, true, false, ◌&&◌, List, [], ◌∷◌, inl, inr, Bool-cases, some, Result,
  All, ok, err, pure, raise, abort, lift, ◌>>=◌, if◌then◌else◌, bind-eq-ok, Result-cases, arith,
}
use zewif_zcashd.Base.HashMap.{beq_refl, contains, remove_item, contains-remove_item}
use zewif_zcashd.Base.BTreeMap.{
  Ord, same, same_iff, contains_key, get, contains_key-get, get-contains_key,
  contains_key-get-is_some,
}
use zewif_zcashd.Wire.Parser.{Bytes}
use zewif_zcashd.Dump.{DbKey, DbValue, ZcashdDump, records_for_keyname}
use zewif_zcashd.Dump.Index.{IsIndexed}
use zewif_zcashd.Dump.Records.{records_for_keyname-exact}
use zewif_zcashd.Zcashd.State.{
  Error, Z, eq_key, key_eq, key_eq_iff, mark_key_parsed, mark_keys_parsed, for_records, records_of,
  has_keys,
}

-- After a success no key is unparsed that was not so before.
pub record Shrinks {ℓ} {A : Type ℓ} (m : Z A) : Type ℓ where
  pub run :
      (s s' : List DbKey) (a : A)
      → m s ≡ ok (a, s')
      → (k : DbKey) → contains k s' ≡ true
      → contains k s ≡ true

-- After a success the key is not unparsed.
pub record Handles {ℓ} {A : Type ℓ} (k : DbKey) (m : Z A) : Type ℓ where
  pub run : (s s' : List DbKey) (a : A) → m s ≡ ok (a, s') → contains k s' ≡ false

pub Shrinks-pure {ℓ} : {A : Type ℓ} (a : A) → Shrinks (pure a)
Shrinks-pure a = record {
  run = λ s s' b e k h. let same : s' ≡ s = cc in subst (λ x. contains k x ≡ true) same h;
}

pub Shrinks-raise {ℓ} : {A : Type ℓ} (e : Error) → Shrinks (raise {A = A} e)
Shrinks-raise x = record { run = λ s s' b e k h. absurd (cc) }

pub Shrinks-lift {ℓ} : {A : Type ℓ} (r : Result Error A) → Shrinks (lift r)
Shrinks-lift (ok a) = Shrinks-pure a
Shrinks-lift (err e) = Shrinks-raise e
Shrinks-lift Result.panic = record { run = λ s s' b e k h. absurd (cc) }

pub Shrinks-bind {ℓ κ} :
    {A : Type ℓ} {B : Type κ} {p : Z A} (f : A → Z B)
    → Shrinks p
    → ((a : A) → Shrinks (f a))
    → Shrinks (p >>= f)
Shrinks-bind {p = p} f hp hf = record {
  run = λ s s'' b e k h.
      let ((a, s'), e₁, e₂) = bind-eq-ok (p s) _ e in
      hp.run s s' a e₁ k ((hf a).run s' s'' b e₂ k h);
}

pub Shrinks-if {ℓ} :
    {A : Type ℓ} (b : Bool) {p q : Z A} → Shrinks p → Shrinks q → Shrinks (if b then p else q)
Shrinks-if true hp hq = hp
Shrinks-if false hp hq = hq

pub Shrinks-mark_key_parsed : (key : DbKey) → Shrinks (mark_key_parsed key)
unfolding mark_key_parsed
Shrinks-mark_key_parsed key = record {
  run = λ s s' a e k h.
      let is : s' ≡ remove_item key s = cc in
      let found : contains k (remove_item key s) ≡ true = subst (λ x. contains k x ≡ true) is h in
      ground (arith, contains-remove_item key k s);
}

pub Handles-mark_key_parsed : (key : DbKey) → Handles key (mark_key_parsed key)
unfolding mark_key_parsed
Handles-mark_key_parsed key = record {
  run = λ s s' a e.
      let is : remove_item key s ≡ s' = cc in
      subst (λ x. contains key x ≡ false) is
        (contains-remove_item key key s ∙ rw (beq_refl key) refl);
}

pub Handles-raise {ℓ} : {A : Type ℓ} (k : DbKey) (e : Error) → Handles k (raise {A = A} e)
Handles-raise k x = record { run = λ s s' b e. absurd (cc) }

pub Handles-first {ℓ κ} :
    {A : Type ℓ} {B : Type κ} (k : DbKey) {p : Z A} (f : A → Z B)
    → Handles k p
    → ((a : A) → Shrinks (f a))
    → Handles k (p >>= f)
Handles-first k {p = p} f hp hf = record {
  run = λ s s'' b e.
      let ((a, s'), e₁, e₂) = bind-eq-ok (p s) _ e in
      elim (Bool-cases (contains k s'')) [
        | inl there ↦
            let back : contains k s' ≡ true = (hf a).run s' s'' b e₂ k there in
            absurd (cc (back, hp.run s s' a e₁))
        | inr away ↦ away
      ];
}

pub Handles-then {ℓ κ} :
    {A : Type ℓ} {B : Type κ} (k : DbKey) (p : Z A) (f : A → Z B)
    → ((a : A) → Handles k (f a))
    → Handles k (p >>= f)
Handles-then k p f hf = record {
  run = λ s s'' b e. let ((a, s'), e₁, e₂) = bind-eq-ok (p s) _ e in (hf a).run s' s'' b e₂;
}

pub Handles-if {ℓ} :
    {A : Type ℓ} (k : DbKey) (b : Bool) {p q : Z A}
    → Handles k p
    → Handles k q
    → Handles k (if b then p else q)
Handles-if k true hp hq = hp
Handles-if k false hp hq = hq

pub Handles-abort {ℓ} : {A : Type ℓ} (k : DbKey) → Handles k (abort {A = A})
Handles-abort k = record { run = λ s s' b e. absurd (cc) }

pub ruleset handling = (
  Handles-then, Handles-first, Handles-raise, Handles-abort, Handles-if, Handles-mark_key_parsed,
  Shrinks-pure,
)

pub ruleset shrinking =
    (Shrinks-pure, Shrinks-raise, Shrinks-lift, Shrinks-bind, Shrinks-if, Shrinks-mark_key_parsed)

module _ {ℓ} {A : Type ℓ} (body : A → DbKey → DbValue → Z A) where
  pub Shrinks-for_records :
      ((a : A) (key : DbKey) (value : DbValue) → Shrinks (body a key value))
      → (records : List (DbKey × DbValue)) (a : A) → Shrinks (for_records body records a)
  unfolding for_records
  Shrinks-for_records h [] a = Shrinks-pure a
  Shrinks-for_records h ((key, value) ∷ records) a =
      Shrinks-bind _ (h a key value) (λ a'. Shrinks-for_records h records a')

  -- Where each round handles its own key, the loop handles all keys of the records.
  pub Handles-for_records :
      (keys : Ord DbKey)
      → ((a : A) (key : DbKey) (value : DbValue) → Shrinks (body a key value))
      → ((a : A) (key : DbKey) (value : DbValue) → Handles key (body a key value))
      → (records : List (DbKey × DbValue)) (a : A) (k : DbKey) → contains_key keys k records ≡ true
      → Handles k (for_records body records a)
  unfolding for_records contains_key
  Handles-for_records keys h g [] a k e = absurd (cc)
  Handles-for_records keys h g ((key, value) ∷ records) a k e =
      elim (Bool-cases (same keys key k)) [
        | inl here ↦
            let at : key ≡ k = (same_iff keys key k).0 here in
            Handles-first k _ (subst (λ x. Handles x (body a key value)) at (g a key value))
              (λ a'. Shrinks-for_records h records a')
        | inr there ↦
            Handles-then k (body a key value) _
              (λ a'. Handles-for_records keys h g records a' k (rw there at e))
      ]

pub Shrinks-mark_keys_parsed :
    (records : List (DbKey × DbValue)) → Shrinks (mark_keys_parsed records)
unfolding mark_keys_parsed
Shrinks-mark_keys_parsed [] = Shrinks-pure tt
Shrinks-mark_keys_parsed ((key, value) ∷ records) =
    Shrinks-bind _ (Shrinks-mark_key_parsed key) (λ u. Shrinks-mark_keys_parsed records)

pub Handles-mark_keys_parsed :
    (keys : Ord DbKey) (records : List (DbKey × DbValue)) (k : DbKey)
    → contains_key keys k records ≡ true
    → Handles k (mark_keys_parsed records)
unfolding mark_keys_parsed contains_key
Handles-mark_keys_parsed keys [] k e = absurd (cc)
Handles-mark_keys_parsed keys ((key, value) ∷ records) k e = elim (Bool-cases (same keys key k)) [
  | inl here ↦
      let at : key ≡ k = (same_iff keys key k).0 here in
      Handles-first k _
        (subst (λ x. Handles x (mark_key_parsed key)) at (Handles-mark_key_parsed key))
        (λ u. Shrinks-mark_keys_parsed records)
  | inr there ↦
      Handles-then k (mark_key_parsed key) _
        (λ u. Handles-mark_keys_parsed keys records k (rw there at e))
]

-- Marking the keys of some records takes them off the set, and nothing else.
pub mark_keys_parsed-exact :
    (keys : Ord DbKey) (records : List (DbKey × DbValue)) (s : List DbKey)
    → (s' : List DbKey) × (mark_keys_parsed records s ≡ ok (tt, s'))
      × ((k : DbKey)
          → contains k s' ≡ (if contains_key keys k records then false else contains k s))
unfolding mark_keys_parsed mark_key_parsed contains_key
mark_keys_parsed-exact keys [] s = (s, refl, λ k. refl)
mark_keys_parsed-exact keys ((key, value) ∷ records) s =
    let (s', e, all) = mark_keys_parsed-exact keys records (remove_item key s) in
    (
      s',
      e,
      λ k.
          all k
          ∙ rw (contains-remove_item key k s) (elim (Bool-cases (same keys key k)) [
            | inl here ↦
                let at : key ≡ k = (same_iff keys key k).0 here in
                let beq : key_eq key k ≡ true = (key_eq_iff key k).1 at in
                rw (here, beq)
                  (elim (Bool-cases (contains_key keys k records)) [
                    | inl a ↦ rw a refl
                    | inr a ↦ rw a refl
                  ])
            | inr there ↦
                let beq : key_eq key k ≡ false = elim (Bool-cases (key_eq key k)) [
                  | inl b ↦ absurd (cc ((same_iff keys key k).1 ((key_eq_iff key k).0 b), there))
                  | inr b ↦ b
                ] in
                rw (there, beq) refl
          ]),
    )

-- What each round keeps, the loop keeps.
pub for_records-invariant {ℓ κ} :
    {A : Type ℓ} (Inv : A → Type κ) (body : A → DbKey → DbValue → Z A)
    → ((a a' : A) (key : DbKey) (value : DbValue) (s s' : List DbKey)
        → Inv a
        → body a key value s ≡ ok (a', s')
        → Inv a')
    → (records : List (DbKey × DbValue)) (a a' : A) (s s' : List DbKey) → Inv a
    → for_records body records a s ≡ ok (a', s')
    → Inv a'
unfolding for_records
for_records-invariant Inv body step [] a a' s s' h e = let same : a ≡ a' = cc in subst Inv same h
for_records-invariant Inv body step ((key, value) ∷ records) a a' s s' h e =
    let ((b, s₁), e₁, e₂) = bind-eq-ok (body a key value s) _ e in
    for_records-invariant Inv body step records b a' s₁ s' (step a b key value s s₁ h e₁) e₂

-- What each round keeps on a record of a kind, a loop over records of the kind keeps.
pub for_records-invariant_on {ℓ κ} :
    {A : Type ℓ} (Q : DbKey × DbValue → Type 0) (Inv : A → Type κ)
    (body : A → DbKey → DbValue → Z A)
    → ((a a' : A) (key : DbKey) (value : DbValue) (s s' : List DbKey)
        → Q (key, value)
        → Inv a
        → body a key value s ≡ ok (a', s')
        → Inv a')
    → (records : List (DbKey × DbValue)) (a a' : A) (s s' : List DbKey) → All Q records
    → Inv a
    → for_records body records a s ≡ ok (a', s')
    → Inv a'
unfolding for_records
for_records-invariant_on Q Inv body step [] a a' s s' q h e =
    let same : a ≡ a' = cc in subst Inv same h
for_records-invariant_on Q Inv body step ((key, value) ∷ records) a a' s s' (q, qs) h e =
    let ((b, s₁), e₁, e₂) = bind-eq-ok (body a key value s) _ e in
    for_records-invariant_on Q Inv body step records b a' s₁ s' qs (step a b key value s s₁ q h e₁)
      e₂
