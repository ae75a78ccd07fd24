-- ===== src/Migrate/Received/Returns.antt =====
-- The parts of the migration that do not fail, in a build without overflow checks.
use zewif_zcashd.Base.{
  ℕ, suc, ◌-◌, ◌%◌, ◌^◌, ◌+◌, ◌<◌, ◌≡◌, refl, ap, false, List, [], ◌∷◌, Option, none, some, Result,
  ok, bind, leb, ◌==◌, length, inl, inr, Bool-cases, arith,
}
use zewif_zcashd.Base.Bytes.{eq_bytes}
use zewif_zcashd.Base.HashMap
use zewif_zcashd.Base.HashMap.{Eq}
use zewif_zcashd.Wire.Parser.{Bytes}
use zewif_zcashd.Wallet.Equality.{eq_nat}
use zewif_zcashd.Wallet.Trees.{IncrementalWitness, SaplingNoteData, JsOutPoint}
use zewif_zcashd.Migrate.State.{AreBelow, MigrateError, update_at}
use zewif_zcashd.Migrate.Trees.{
  bit, in_u64, add_parents, merkle_tree_size, first_position, sapling_note_position,
}
use zewif_zcashd.Migrate.Received.{route_orchard, or_legacy, in_u32, sprout_output_index}

-- A result that is a value with a property.
abbrev pub Succeeds : {A : Type 0} → (A → Type 0) → Result MigrateError A → Type 0
Succeeds {A} Q r = (a : A) × (r ≡ ok a) × Q a

abbrev pub Returns : {A : Type 0} → Result MigrateError A → Type 0
Returns {A} r = Succeeds {A = A} (λ a. Unit {0}) r

pub Succeeds-bind :
    {A B : Type 0} (Q : A → Type 0) (R : B → Type 0) (r : Result MigrateError A)
    (f : A → Result MigrateError B)
    → Succeeds Q r
    → ((a : A) → Q a → Succeeds R (f a))
    → Succeeds R (bind r f)
Succeeds-bind Q R r f (a, e, q) g = rw e (g a q)

pub bit-Returns : (n : ℕ) → Returns (bit false n)
bit-Returns n = elim (Bool-cases (leb 64 n)) [
  | inl far ↦ rw far (2 ^ (n % 64), refl, tt)
  | inr near ↦ rw near (2 ^ n, refl, tt)
]

pub in_u64-Returns : (v : ℕ) → Returns (in_u64 false v)
in_u64-Returns v = elim (Bool-cases (leb (2 ^ 64) v)) [
  | inl far ↦ rw far (v % 2 ^ 64, refl, tt)
  | inr near ↦ rw near (v, refl, tt)
]

pub in_u32-Returns : (v : ℕ) → Returns (in_u32 false v)
in_u32-Returns v = elim (Bool-cases (leb (2 ^ 32) v)) [
  | inl far ↦ rw far (v % 2 ^ 32, refl, tt)
  | inr near ↦ rw near (v, refl, tt)
]

pub add_parents-Returns :
    (i size : ℕ) (parents : List (Option Bytes)) → Returns (add_parents false i size parents)
unfolding add_parents
add_parents-Returns i size [] = (size, refl, tt)
add_parents-Returns i size (none ∷ parents) = add_parents-Returns (i + 1) size parents
add_parents-Returns i size (some parent ∷ parents) =
    Succeeds-bind (λ n. Unit {0}) (λ n. Unit {0}) _ _
      (Succeeds-bind (λ n. Unit {0}) (λ n. Unit {0}) _ _ (bit-Returns (i + 1))
        λ leaves u. in_u64-Returns (size + leaves))
      λ size' u. add_parents-Returns (i + 1) size' parents

pub first_position-Returns :
    (witnesses : List IncrementalWitness) → Returns (first_position false witnesses)
unfolding merkle_tree_size
first_position-Returns [] = (none, refl, tt)
first_position-Returns (witness ∷ witnesses) =
    Succeeds-bind (λ n. Unit {0}) (λ n. Unit {0}) _ _ (add_parents-Returns 0 _ witness.tree.parents)
      λ size u. (_, refl, tt)

pub position-Returns : (nd : SaplingNoteData) → Returns (sapling_note_position false nd)
unfolding sapling_note_position
position-Returns nd = first_position-Returns nd.witnesses

pub sprout_output_index-Returns :
    (outpoint : JsOutPoint) → Returns (sprout_output_index false outpoint)
unfolding sprout_output_index
sprout_output_index-Returns outpoint =
    Succeeds-bind (λ n. Unit {0}) (λ n. Unit {0}) _ _ (in_u32-Returns _)
      λ double u. in_u32-Returns (double + outpoint.n)

pub insert-AreBelow :
    {A : Type 0} (n i : ℕ) (a : A) (m : List (ℕ × A))
    → i < n
    → AreBelow n m
    → AreBelow n (HashMap.insert i a m)
unfolding HashMap.insert
insert-AreBelow n i a [] less h = (less, tt)
insert-AreBelow n i a ((j, b) ∷ m) less (first, h) = elim (Bool-cases (j == i)) [
  | inl here ↦ rw here (first, h)
  | inr away ↦ rw away (first, insert-AreBelow n i a m less h)
]

module _ {OrchardIvk : Type 0} ⦃ivks : Eq OrchardIvk⦄ where
  pub route_orchard-below :
      (n legacy_index : ℕ) (routes : List (ℕ × List OrchardIvk)) (ivk : OrchardIvk)
      → legacy_index < n
      → AreBelow n routes
      → or_legacy legacy_index (route_orchard routes ivk) < n
  unfolding route_orchard
  route_orchard-below n legacy_index [] ivk l h = l
  route_orchard-below n legacy_index ((index, keys) ∷ routes) ivk l (first, h) =
      elim (Bool-cases (HashMap.contains ivk keys)) [
        | inl found ↦ rw found first
        | inr away ↦ rw away (route_orchard-below n legacy_index routes ivk l h)
      ]

pub update_at-Succeeds :
    {A : Type 0} (i : ℕ) (f : A → A) (xs : List A)
    → i < length xs
    → Succeeds (λ ys. length ys ≡ length xs) (update_at i f xs)
unfolding update_at
update_at-Succeeds i f [] less = absurd (omega arith)
update_at-Succeeds i f (x ∷ xs) less = elim (Bool-cases (i == 0)) [
  | inl here ↦ rw here (f x ∷ xs, refl, refl)
  | inr away ↦
      let next : i - 1 < length xs = ground arith in
      rw away (
        Succeeds-bind (λ ys. length ys ≡ length xs) (λ ys. length ys ≡ length (x ∷ xs)) _ _
          (update_at-Succeeds (i - 1) f xs next) λ ys e. (x ∷ ys, refl, ap suc e))
]
