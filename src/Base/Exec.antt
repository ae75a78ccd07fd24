-- ===== src/Base/Exec.antt =====
-- Outcomes of Rust code, and actions that thread a state.
use mathlib.Core.Path.{◌≡◌, refl}
use mathlib.Core.Logic.{◌⊎◌, inl, inr}

-- `Ok`, `Err`, or a panic that unwinds.
pub data Result {ℓ} (E : Type 0) (A : Type ℓ) : Type ℓ where
  ok : A → Result E A
  err : E → Result E A
  panic : Result E A

-- An action on a state `S`. After an error or a panic no caller looks at the state again.
abbrev pub M {ℓ} : Type 0 → Type 0 → Type ℓ → Type ℓ
M E S A = S → Result E (A × S)

module _ {E S : Type 0} where
  abbrev pub pure {ℓ} : {A : Type ℓ} → A → M E S A
  pure a s = ok (a, s)

  abbrev pub raise {ℓ} : {A : Type ℓ} → E → M E S A
  raise e s = err e

  abbrev pub abort {ℓ} : {A : Type ℓ} → M E S A
  abort s = panic

abbrev pub bind {ℓ κ} :
    {E : Type 0} {A : Type ℓ} {B : Type κ} → Result E A → (A → Result E B) → Result E B
bind (ok a) f = f a
bind (err e) f = err e
bind panic f = panic

infixl 5 ◌>>=◌ ◌>>◌
abbrev pub ◌>>=◌ {ℓ κ} :
    {E S : Type 0} {A : Type ℓ} {B : Type κ} → M E S A → (A → M E S B) → M E S B
◌>>=◌ m f = λ s. bind (m s) (λ (a, t). f a t)

abbrev pub ◌>>◌ {ℓ} : {E S : Type 0} {B : Type ℓ} → M E S (Unit {0}) → M E S B → M E S B
m >> k = m >>= λ _. k

-- The error of the inner action, converted by `From`.
abbrev pub map_err {ℓ} : {E F : Type 0} {A : Type ℓ} → (E → F) → Result E A → Result F A
map_err f (ok a) = ok a
map_err f (err e) = err (f e)
map_err f panic = panic

-- A call that does not touch the state.
abbrev pub lift {ℓ} : {E S : Type 0} {A : Type ℓ} → Result E A → M E S A
lift (ok a) s = ok (a, s)
lift (err e) s = err e
lift panic s = panic

pub bind-eq-ok {ℓ κ} :
    {E : Type 0} {A : Type ℓ} {B : Type κ} (m : Result E A) (f : A → Result E B) {b : B}
    → bind m f ≡ ok b
    → (a : A) × (m ≡ ok a) × (f a ≡ ok b)
bind-eq-ok (ok a) f h = (a, refl, h)
bind-eq-ok (err e) f h = cc
bind-eq-ok panic f h = cc

pub map_err-eq-ok {ℓ} :
    {E F : Type 0} {A : Type ℓ} (f : E → F) (m : Result E A) {a : A} → map_err f m ≡ ok a → m ≡ ok a
map_err-eq-ok f (ok a) h = cc
map_err-eq-ok f (err e) h = cc
map_err-eq-ok f panic h = cc

pub Result-cases {ℓ} :
    {E : Type 0} {A : Type ℓ} (r : Result E A)
    → ((a : A) × (r ≡ ok a)) ⊎ (((e : E) × (r ≡ err e)) ⊎ (r ≡ panic))
Result-cases (ok a) = inl (a, refl)
Result-cases (err e) = inr (inl (e, refl))
Result-cases panic = inr (inr refl)

pub lift-eq-ok {ℓ} :
    {E S : Type 0} {A : Type ℓ} (r : Result E A) (s : S) {s' : S} {a : A}
    → lift r s ≡ ok (a, s')
    → r ≡ ok a
lift-eq-ok (ok b) s e = cc
lift-eq-ok (err x) s e = absurd (cc)
lift-eq-ok panic s e = absurd (cc)
