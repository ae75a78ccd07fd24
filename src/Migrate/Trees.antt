-- ===== src/Migrate/Trees.antt =====
-- src/migrate/received_outputs.rs: the position of a Sapling note, from the size of a tree.
pub mod Laws
use zewif_zcashd.Base.{
  ℕ, ◌+◌, ◌-◌, ◌%◌, ◌^◌, Bool, List, [], ◌∷◌, Option, none, some, Result, ok, panic, bind,
  if◌then◌else◌, leb,
}
use zewif_zcashd.Wire.Parser.{Bytes}
use zewif_zcashd.Wallet.Trees.{IncrementalMerkleTree, IncrementalWitness, SaplingNoteData}

-- `is_some() as u64`
abbrev pub count {ℓ} : {A : Type ℓ} → Option A → ℕ
count none = 0
count (some a) = 1

-- `checked_sub`
abbrev pub checked_sub : ℕ → ℕ → Option ℕ
checked_sub m n = if leb n m then some (m - n) else none

-- The errors of the caller do not matter. `checks` says whether the build checks for overflow.
module _ {E : Type 0} (checks : Bool) where
  -- A `u64`, where arithmetic passes it: a panic with the checks, and a wrap-around without.
  abbrev pub in_u64 : ℕ → Result E ℕ
  in_u64 v = if leb (2 ^ 64) v then (if checks then panic else ok (v % 2 ^ 64)) else ok v

  -- `1u64 << n`
  abbrev pub bit : ℕ → Result E ℕ
  bit n = if leb 64 n then (if checks then panic else ok (2 ^ (n % 64))) else ok (2 ^ n)

  -- The loop over `parents`, from the level `i`.
  unfoldable pub add_parents : (i size : ℕ) → List (Option Bytes) → Result E ℕ
  add_parents i size [] = ok size
  add_parents i size (none ∷ parents) = add_parents (i + 1) size parents
  add_parents i size (some parent ∷ parents) =
      bind (bind (bit (i + 1)) (λ leaves. in_u64 (size + leaves)))
        (λ size'. add_parents (i + 1) size' parents)

  unfoldable pub merkle_tree_size : IncrementalMerkleTree → Result E ℕ
  unfolding add_parents
  merkle_tree_size tree = add_parents 0 (count tree.left + count tree.right) tree.parents

  abbrev pub first_position : List IncrementalWitness → Result E (Option ℕ)
  first_position [] = ok none
  first_position (witness ∷ witnesses) =
      bind (merkle_tree_size witness.tree) (λ size. ok (checked_sub size 1))

  unfoldable pub sapling_note_position : SaplingNoteData → Result E (Option ℕ)
  unfolding merkle_tree_size
  sapling_note_position note_data = first_position note_data.witnesses
