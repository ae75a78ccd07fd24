-- ===== src/Base/HashMap.antt =====
-- Hash maps and sets of the standard library: association lists, whose order stands for the
-- unspecified order of iteration.
use mathlib.Core.Path.{◌≡◌, refl}
use mathlib.Core.Logic.{◌↔◌, inl, inr}
use mathlib.Core.Bool.{Bool, true, false, ◌||◌}
use mathlib.Core.Option.{Option, none, some}
use mathlib.Core.List.{List, [], ◌∷◌}
use zewif_zcashd.Base.Tests.{if◌then◌else◌, Bool-cases}

pub record Eq {ℓ} (A : Type ℓ) : Type ℓ where
  pub beq : A → A → Bool
  pub beq_iff : (a b : A) → (beq a b ≡ true) ↔ (a ≡ b)

module _ {ℓ} {K : Type ℓ} ⦃e : Eq K⦄ where
  pub beq_refl : (k : K) → e.beq k k ≡ true
  beq_refl k = (e.beq_iff k k).1 refl

  unfoldable pub contains : K → List K → Bool
  contains k [] = false
  contains k (x ∷ xs) = e.beq x k || contains k xs

  -- `HashSet::insert`
  unfoldable pub insert_item : K → List K → List K
  unfolding contains
  insert_item k xs = if contains k xs then xs else k ∷ xs

  -- `HashSet::remove`
  unfoldable pub remove_item : K → List K → List K
  remove_item k [] = []
  remove_item k (x ∷ xs) = let rest = remove_item k xs in if e.beq x k then rest else x ∷ rest

  pub contains-remove_item :
      (k j : K) (xs : List K)
      → contains j (remove_item k xs) ≡ (if e.beq k j then false else contains j xs)
  unfolding contains remove_item
  contains-remove_item k j [] = elim (Bool-cases (e.beq k j)) [
    | inl a ↦ rw a refl
    | inr a ↦ rw a refl
  ]
  contains-remove_item k j (x ∷ xs) = elim (Bool-cases (e.beq x k)) [
    | inl here ↦
        let at : x ≡ k = (e.beq_iff x k).0 here in
        rw (here, contains-remove_item k j xs, at)
          (elim (Bool-cases (e.beq k j)) [ inl a ↦ rw a refl | inr a ↦ rw a refl ])
    | inr there ↦
        rw (there, contains-remove_item k j xs)
          (elim (Bool-cases (e.beq k j)) [
            | inl a ↦
                let at : k ≡ j = (e.beq_iff k j).0 a in
                let apart : e.beq x j ≡ false = rw (← at) there in rw (a, apart) refl
            | inr a ↦ rw a refl
          ])
  ]

module _ {ℓ κ} {K : Type ℓ} {V : Type κ} ⦃e : Eq K⦄ where
  unfoldable pub get : K → List (K × V) → Option V
  get k [] = none
  get k ((j, v) ∷ m) = if e.beq j k then some v else get k m

  -- `HashMap::insert`: a key that is there keeps its place.
  unfoldable pub insert : K → V → List (K × V) → List (K × V)
  insert k v [] = (k, v) ∷ []
  insert k v ((j, w) ∷ m) = if e.beq j k then (j, v) ∷ m else (j, w) ∷ insert k v m

  unfoldable pub contains_key : K → List (K × V) → Bool
  contains_key k [] = false
  contains_key k ((j, v) ∷ m) = e.beq j k || contains_key k m

  -- `into_iter().collect()`
  unfoldable pub collect : List (K × V) → List (K × V) → List (K × V)
  collect [] m = m
  collect ((k, v) ∷ r) m = collect r (insert k v m)

  pub get-insert :
      (k j : K) (v : V) (m : List (K × V))
      → get j (insert k v m) ≡ (if e.beq k j then some v else get j m)
  unfolding get insert
  get-insert k j v [] = refl
  get-insert k j v ((i, w) ∷ m) = elim (Bool-cases (e.beq i k)) [
    | inl same ↦
        let here : i ≡ k = (e.beq_iff i k).0 same in
        rw (same, here) (elim (Bool-cases (e.beq k j)) [ inl a ↦ rw a | inr a ↦ rw a ])
    | inr other ↦ rw other (elim (Bool-cases (e.beq i j)) [
      | inl there ↦
          let h : i ≡ j = (e.beq_iff i j).0 there in
          let far : e.beq k j ≡ false = apart k j h other in rw (there, far)
      | inr away ↦ rw (away, get-insert k j v m)
    ])
  ]
    where
      apart : (k j : K) → i ≡ j → e.beq i k ≡ false → e.beq k j ≡ false
      apart k j h other = elim (Bool-cases (e.beq k j)) [
        | inl same ↦
            let bad : e.beq i k ≡ true = (e.beq_iff i k).1 (cc (h, (e.beq_iff k j).0 same)) in
            absurd (cc)
        | inr away ↦ away
      ]

  pub get-none : (k : K) (m : List (K × V)) → contains_key k m ≡ false → get k m ≡ none
  unfolding contains_key get
  get-none k [] h = refl
  get-none k ((j, w) ∷ m) h = elim (Bool-cases (e.beq j k)) [
    | inl here ↦ let bad : true ≡ false = rw here at h in absurd (cc)
    | inr there ↦ rw there (get-none k m (rw there at h))
  ]
