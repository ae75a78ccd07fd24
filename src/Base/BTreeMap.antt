-- ===== src/Base/BTreeMap.antt =====
-- Ordered maps and sets of the standard library: association lists in increasing order of the keys.
-- A set is a map to the unit type, as it is there.
use zewif_zcashd.Base.{
  ◌≡◌, refl, Bool, true, false, not, ◌&&◌, ◌||◌, Option, none, some, List, [], ◌∷◌, inl, inr, ◌↔◌,
  if◌then◌else◌, Bool-cases, All,
}

-- A strict total order.
pub record Ord {ℓ} (A : Type ℓ) : Type ℓ where
  pub lt : A → A → Bool
  pub lt_irrefl : (a : A) → lt a a ≡ false
  pub lt_trans : (a b c : A) → lt a b ≡ true → lt b c ≡ true → lt a c ≡ true
  pub lt_total : (a b : A) → lt a b ≡ false → lt b a ≡ false → a ≡ b

module _ {ℓ} {K : Type ℓ} (o : Ord K) where
  -- `Ordering::Equal`
  abbrev pub same : K → K → Bool
  same j k = not (o.lt j k) && not (o.lt k j)

  pub same_iff : (j k : K) → (same j k ≡ true) ↔ (j ≡ k)
  same_iff j k = (
    λ e. elim (Bool-cases (o.lt j k)) [
      | inl less ↦ let bad : false ≡ true = rw less at e in absurd (cc)
      | inr l ↦ elim (Bool-cases (o.lt k j)) [
        | inl more ↦ let bad : false ≡ true = rw (l, more) at e in absurd (cc)
        | inr m ↦ o.lt_total j k l m
      ]
    ],
    λ e. rw (e, o.lt_irrefl k) refl,
  )

  pub same_refl : (k : K) → same k k ≡ true
  same_refl k = (same_iff k k).1 refl

  pub same_sym : (j k : K) → same j k ≡ same k j
  same_sym j k = elim (Bool-cases (o.lt j k)) [
    | inl a ↦ elim (Bool-cases (o.lt k j)) [ inl b ↦ rw (a, b) refl | inr b ↦ rw (a, b) refl ]
    | inr a ↦ elim (Bool-cases (o.lt k j)) [ inl b ↦ rw (a, b) refl | inr b ↦ rw (a, b) refl ]
  ]

  module _ {κ} {V : Type κ} where
    unfoldable pub get : K → List (K × V) → Option V
    get k [] = none
    get k ((j, v) ∷ m) = if same j k then some v else get k m

    unfoldable pub contains_key : K → List (K × V) → Bool
    contains_key k [] = false
    contains_key k ((j, v) ∷ m) = same j k || contains_key k m

    -- `BTreeMap::insert`
    unfoldable pub insert : K → V → List (K × V) → List (K × V)
    insert k v [] = (k, v) ∷ []
    insert k v ((j, w) ∷ m) =
        let rest = insert k v m in
        if o.lt k j then (k, v) ∷ (j, w) ∷ m else if o.lt j k then (j, w) ∷ rest else (j, v) ∷ m

    -- `BTreeMap::remove`
    unfoldable pub remove : K → List (K × V) → List (K × V)
    remove k [] = []
    remove k ((j, w) ∷ m) = if same j k then m else (j, w) ∷ remove k m

    -- In increasing order of the keys, without duplicates.
    unfoldable pub Sorted : List (K × V) → Type 0
    Sorted [] = Unit
    Sorted ((j, v) ∷ m) = All (λ (i, w). o.lt j i ≡ true) m × Sorted m

    pub get-insert :
        (k j : K) (v : V) (m : List (K × V))
        → get j (insert k v m) ≡ (if same k j then some v else get j m)
    unfolding get insert
    get-insert k j v [] = refl
    get-insert k j v ((i, w) ∷ m) = elim (Bool-cases (o.lt k i)) [
      | inl before ↦ rw before refl
      | inr a ↦ elim (Bool-cases (o.lt i k)) [
        | inl after ↦ elim (Bool-cases (same i j)) [
          | inl here ↦
              let h : i ≡ j = (same_iff i j).0 here in
              let apart : same k j ≡ false = rw (← h, a, after) refl in
              rw (a, after, here, apart) refl
          | inr there ↦ rw (a, after, there, get-insert k j v m) refl
        ]
        | inr b ↦
            let h : i ≡ k = o.lt_total i k b a in
            rw (a, b, h) (elim (Bool-cases (same k j)) [ inl c ↦ rw c refl | inr c ↦ rw c refl ])
      ]
    ]

    pub contains_key-insert :
        (k j : K) (v : V) (m : List (K × V))
        → contains_key j (insert k v m) ≡ (same k j || contains_key j m)
    unfolding contains_key insert
    contains_key-insert k j v [] = refl
    contains_key-insert k j v ((i, w) ∷ m) = elim (Bool-cases (o.lt k i)) [
      | inl before ↦ rw before refl
      | inr a ↦ elim (Bool-cases (o.lt i k)) [
        | inl after ↦
            rw (a, after, contains_key-insert k j v m)
              (elim (Bool-cases (same i j)) [
                | inl c ↦
                    rw c (elim (Bool-cases (same k j)) [ inl d ↦ rw d refl | inr d ↦ rw d refl ])
                | inr c ↦ rw c refl
              ])
        | inr b ↦
            let h : i ≡ k = o.lt_total i k b a in
            rw (a, b, h) (elim (Bool-cases (same k j)) [ inl c ↦ rw c refl | inr c ↦ rw c refl ])
      ]
    ]

    pub contains_key-get :
        (k : K) (m : List (K × V)) → contains_key k m ≡ true → (v : V) × (get k m ≡ some v)
    unfolding contains_key get
    contains_key-get k [] e = absurd (cc)
    contains_key-get k ((j, v) ∷ m) e = elim (Bool-cases (same j k)) [
      | inl here ↦ (v, rw here refl)
      | inr there ↦ let (w, found) = contains_key-get k m (rw there at e) in (w, rw there found)
    ]

    pub get-contains_key :
        (k : K) (m : List (K × V)) (v : V) → get k m ≡ some v → contains_key k m ≡ true
    unfolding contains_key get
    get-contains_key k [] v e = absurd (cc)
    get-contains_key k ((j, w) ∷ m) v e = elim (Bool-cases (same j k)) [
      | inl here ↦ rw here refl
      | inr there ↦ rw there (get-contains_key k m v (rw there at e))
    ]

    pub get-none : (k : K) (m : List (K × V)) → contains_key k m ≡ false → get k m ≡ none
    unfolding contains_key get
    get-none k [] e = refl
    get-none k ((j, w) ∷ m) e = elim (Bool-cases (same j k)) [
      | inl here ↦ let bad : true ≡ false = rw here at e in absurd (cc)
      | inr there ↦ rw there (get-none k m (rw there at e))
    ]

    abbrev pub is_some : Option V → Bool
    is_some none = false
    is_some (some v) = true

    pub contains_key-get-is_some : (k : K) (m : List (K × V)) → contains_key k m ≡ is_some (get k m)
    unfolding contains_key get
    contains_key-get-is_some k [] = refl
    contains_key-get-is_some k ((j, v) ∷ m) = elim (Bool-cases (same j k)) [
      | inl here ↦ rw here refl
      | inr there ↦ rw there (contains_key-get-is_some k m)
    ]

  pub get-empty {κ} : {V : Type κ} (k : K) → get {V = V} k [] ≡ none
  unfolding get
  get-empty k = refl

  pub contains_key-empty {κ} : (V : Type κ) (k : K) → contains_key {V = V} k [] ≡ false
  unfolding contains_key
  contains_key-empty V k = refl
