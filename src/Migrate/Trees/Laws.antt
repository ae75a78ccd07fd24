-- ===== src/Migrate/Trees/Laws.antt =====
-- The size of a tree is the number of leaves that were appended to it.
use zewif_zcashd.Base.{
  ℕ, zero, suc, ◌+◌, ◌-◌, ◌*◌, ◌^◌, ◌<◌, ◌≤◌, ◌≡◌, refl, ap, ◌∙◌, Bool, true, false, List, [], ◌∷◌,
  ◌++◌, Option, none, some, ok, leb, length, length-append, arith, inl, inr, Bool-cases, subst,
}
use native.Mathlib.Nat.{pow-suc}
use zewif_zcashd.Wire.Parser.{Bytes}
use zewif_zcashd.Wallet.Trees.{
  IncrementalMerkleTree, empty_tree, set_left, set_right, SaplingNoteData, IncrementalWitness,
}
use zewif_zcashd.Migrate.Trees.{
  count, checked_sub, add_parents, merkle_tree_size, sapling_note_position,
}

-- How zcashd appends leaves, with the hash of two nodes.
module _ (combine : Bytes → Bytes → Bytes) where
  -- A completed subtree goes to the lowest level that is free, and takes in the roots below.
  unfoldable pub carry : Bytes → List (Option Bytes) → List (Option Bytes)
  carry root [] = some root ∷ []
  carry root (none ∷ parents) = some root ∷ parents
  carry root (some parent ∷ parents) = none ∷ carry (combine parent root) parents

  unfoldable pub append : IncrementalMerkleTree → Bytes → IncrementalMerkleTree
  append t leaf = elim t.left [
    | none ↦ set_left leaf t
    | some left ↦ elim t.right [
      | none ↦ set_right leaf t
      | some right ↦ record {
        left = some leaf;
        right = none;
        parents = carry (combine left right) t.parents;
      }
    ]
  ]

  unfoldable pub append_all : IncrementalMerkleTree → List Bytes → IncrementalMerkleTree
  append_all t [] = t
  append_all t (leaf ∷ leaves) = append_all (append t leaf) leaves

-- The leaves below the parents, from the level `i`.
unfoldable below : ℕ → List (Option Bytes) → ℕ
below i [] = 0
below i (none ∷ parents) = below (i + 1) parents
below i (some parent ∷ parents) = 2 ^ (i + 1) + below (i + 1) parents

unfoldable leaves_of : IncrementalMerkleTree → ℕ
leaves_of t = count t.left + count t.right + below 0 t.parents

pow-next : (k : ℕ) → 2 ^ (k + 1) ≡ 2 ^ k * 2
pow-next k = ap (λ n. 2 ^ n) (omega arith) ∙ pow-suc 2 k

pow-far : (j : ℕ) → 2 ^ 64 ≤ 2 ^ (j + 64)
pow-far zero = omega arith
pow-far (suc j) =
    let at : 2 ^ (suc j + 64) ≡ 2 ^ (j + 64) * 2 =
      ap (λ n. 2 ^ n) (omega arith) ∙ pow-suc 2 (j + 64) in
    omega (arith, pow-far j)

pow-near : (k : ℕ) → 2 ^ k < 2 ^ 64 → leb 64 k ≡ false
pow-near k h = elim (Bool-cases (leb 64 k)) [
  | inr near ↦ near
  | inl far ↦
      let at : k - 64 + 64 ≡ k = ground (arith, far) in
      let large : 2 ^ 64 ≤ 2 ^ k = subst (λ n. 2 ^ 64 ≤ 2 ^ n) at (pow-far (k - 64)) in
      absurd (omega arith)
]

module _ (combine : Bytes → Bytes → Bytes) where
  below-carry :
      (i : ℕ) (root : Bytes) (parents : List (Option Bytes))
      → below i (carry combine root parents) ≡ 2 ^ (i + 1) + below i parents
  unfolding below carry
  below-carry i root [] = refl
  below-carry i root (none ∷ parents) = refl
  below-carry i root (some parent ∷ parents) =
      omega (arith, pow-next (i + 1), below-carry (i + 1) (combine parent root) parents)

  leaves_of-append-fields :
      (left right : Option Bytes) (parents : List (Option Bytes)) (leaf : Bytes)
      → let t : IncrementalMerkleTree = record { left = left; right = right; parents = parents } in
        leaves_of (append combine t leaf) ≡ leaves_of t + 1
  unfolding leaves_of append
  leaves_of-append-fields none right parents leaf = omega arith
  leaves_of-append-fields (some left) none parents leaf = omega arith
  leaves_of-append-fields (some left) (some right) parents leaf =
      omega (arith, below-carry 0 (combine left right) parents)

  leaves_of-append :
      (t : IncrementalMerkleTree) (leaf : Bytes)
      → leaves_of (append combine t leaf) ≡ leaves_of t + 1
  leaves_of-append t leaf = leaves_of-append-fields t.left t.right t.parents leaf

  leaves_of-append_all :
      (t : IncrementalMerkleTree) (leaves : List Bytes)
      → leaves_of (append_all combine t leaves) ≡ leaves_of t + length leaves
  unfolding append_all
  leaves_of-append_all t [] = omega arith
  leaves_of-append_all t (leaf ∷ leaves) =
      omega (arith, leaves_of-append t leaf, leaves_of-append_all (append combine t leaf) leaves)

checked_sub-next : (n : ℕ) → checked_sub (n + 1) 1 ≡ some n
checked_sub-next n = let has : leb 1 (n + 1) ≡ true = ground arith in rw has (ap some (omega arith))

module _ {E : Type 0} (checks : Bool) where
  add_parents-below :
      (i size : ℕ) (parents : List (Option Bytes))
      → size + below i parents < 2 ^ 64
      → add_parents {E = E} checks i size parents ≡ ok (size + below i parents)
  unfolding below add_parents
  add_parents-below i size [] h = ap ok (omega arith)
  add_parents-below i size (none ∷ parents) h = add_parents-below (i + 1) size parents h
  add_parents-below i size (some parent ∷ parents) h =
      let near : leb 64 (i + 1) ≡ false = pow-near (i + 1) (omega arith) in
      let small : leb (2 ^ 64) (size + 2 ^ (i + 1)) ≡ false = ground arith in
      rw (near, small)
        (add_parents-below (i + 1) (size + 2 ^ (i + 1)) parents (omega arith) ∙ ap ok (omega arith))

  merkle_tree_size-append_all :
      (combine : Bytes → Bytes → Bytes) (leaves : List Bytes)
      → length leaves < 2 ^ 64
      → merkle_tree_size {E = E} checks (append_all combine empty_tree leaves) ≡ ok (length leaves)
  unfolding merkle_tree_size leaves_of below
  merkle_tree_size-append_all combine leaves h =
      let t = append_all combine empty_tree leaves in
      let all : leaves_of t ≡ length leaves =
        omega (arith, leaves_of-append_all combine empty_tree leaves) in
      add_parents-below 0 (count t.left + count t.right) t.parents (omega arith) ∙ ap ok all

  -- For a note whose first witness has the tree that zcashd's way of appending makes of some leaves
  -- and one more, fewer than 2 ^ 64 in all, with any hash of two nodes, the position is the number
  -- of the leaves before the last.
  pub sapling_note_position-last :
      (combine : Bytes → Bytes → Bytes) (leaves : List Bytes) (leaf : Bytes) (nd : SaplingNoteData)
      (witness : IncrementalWitness) (witnesses : List IncrementalWitness)
      → length leaves + 1 < 2 ^ 64
      → nd.witnesses ≡ witness ∷ witnesses
      → witness.tree ≡ append_all combine empty_tree (leaves ++ (leaf ∷ []))
      → sapling_note_position {E = E} checks nd ≡ ok (some (length leaves))
  unfolding sapling_note_position
  sapling_note_position-last combine leaves leaf nd witness witnesses h first tree =
      let size : length (leaves ++ (leaf ∷ [])) ≡ length leaves + 1 =
        omega (arith, length-append leaves (leaf ∷ [])) in
      let whole = merkle_tree_size-append_all combine (leaves ++ (leaf ∷ [])) (omega arith) in
      rw (first, tree, whole, size) (ap ok (checked_sub-next (length leaves)))
