-- ===== src/Wallet/Trees/Laws.antt =====
-- Trees, witnesses and Sapling notes are read off their encodings.
use zewif_zcashd.Base.{
  ℕ, ◌*◌, ◌^◌, ◌≤◌, ◌<◌, ◌≡◌, List, [], ◌∷◌, ◌++◌, Option, none, some, length, All, arith,
}
use zewif_zcashd.Wire.Parser.{Bytes, P, isize_max}
use zewif_zcashd.Wire.Reads.{Reads, Reads-bind, Reads-map, Reads-pure, Reads-with_frame}
use zewif_zcashd.Wire.Ints.{to_le_bytes, to_unsigned}
use zewif_zcashd.Wire.Ints.Endian.{IsSigned}
use zewif_zcashd.Wire.Ints.Laws.{Reads-i32}
use zewif_zcashd.Wire.CompactSize.Canonical.{compact_size_bytes}
use zewif_zcashd.Wire.Collections.{parse_optional, parse_vec}
use zewif_zcashd.Wire.Collections.Laws.{
  concat, Reads-parse_vec, Reads-parse_optional-some, Reads-parse_optional-none,
}
use zewif_zcashd.Wallet.Words.{u256, byte_array}
use zewif_zcashd.Wallet.Words.Laws.{Reads-u256, Reads-byte_array_of}
use zewif_zcashd.Wallet.Addresses.{sapling_ivk}
use zewif_zcashd.Wallet.Trees.{
  IncrementalMerkleTree, incremental_merkle_tree, IncrementalWitness, incremental_witness,
  SaplingNoteData, sapling_note_data,
}

-- A byte that says whether a value follows, and the value.
abbrev pub optional_bytes {ℓ} : {A : Type ℓ} → (A → Bytes) → Option A → Bytes
optional_bytes encode none = 0 ∷ []
optional_bytes encode (some a) = 1 ∷ encode a

abbrev pub IsSome {ℓ κ} : {A : Type ℓ} → (A → Type κ) → Option A → Type κ
IsSome Q none = Unit
IsSome Q (some a) = Q a

abbrev pub IsHash : Bytes → Type 0
IsHash h = length h ≡ 32

abbrev pub bytes_of : Bytes → Bytes
bytes_of h = h

Reads-parse_optional :
    {T : Type 0} (parse : P T) (encode : T → Bytes) (Q : T → Type 0)
    → ((x : T) → Q x → Reads parse (encode x) x)
    → (o : Option T) → IsSome Q o
    → Reads (parse_optional parse) (optional_bytes encode o) o
Reads-parse_optional parse encode Q h none q = Reads-parse_optional-none parse encode
Reads-parse_optional parse encode Q h (some x) q = Reads-parse_optional-some parse encode x (h x q)

All-Reads :
    {T : Type 0} (parse : P T) (encode : T → Bytes) (Q : T → Type 0)
    → ((x : T) → Q x → Reads parse (encode x) x)
    → (xs : List T) → All Q xs
    → All (λ x. Reads parse (encode x) x) xs
All-Reads parse encode Q h [] q = tt
All-Reads parse encode Q h (x ∷ xs) (q, qs) = (h x q, All-Reads parse encode Q h xs qs)

-- The vectors of a tree or a witness fit an allocation.
abbrev pub Fits {ℓ} : {A : Type ℓ} → ℕ → List A → Type 0
Fits size xs = (size * length xs ≤ isize_max) × (length xs < 2 ^ 64)

abbrev pub vec_bytes : {T : Type 0} → P T → (T → Bytes) → List T → Bytes
vec_bytes parse encode xs = compact_size_bytes (length xs) ++ concat parse encode xs

Reads-vec :
    {T : Type 0} (parse : P T) (encode : T → Bytes) (Q : T → Type 0)
    → ((x : T) → Q x → Reads parse (encode x) x)
    → (size : ℕ) (xs : List T) → Fits size xs
    → All Q xs
    → Reads (parse_vec size parse) (vec_bytes parse encode xs) xs
Reads-vec parse encode Q h size xs (fits, short) q =
    Reads-parse_vec parse encode size xs fits short (All-Reads parse encode Q h xs q)

abbrev pub tree_bytes : IncrementalMerkleTree → Bytes
tree_bytes t =
    optional_bytes bytes_of t.left
    ++ (optional_bytes bytes_of t.right
        ++ vec_bytes (parse_optional u256) (optional_bytes bytes_of) t.parents)

pub record IsTree (t : IncrementalMerkleTree) : Type 0 where
  pub left : IsSome IsHash t.left
  pub right : IsSome IsHash t.right
  pub parents : All (IsSome IsHash) t.parents
  pub fits : Fits 33 t.parents

Reads-node :
    (o : Option Bytes) → IsSome IsHash o → Reads (parse_optional u256) (optional_bytes bytes_of o) o
Reads-node = Reads-parse_optional u256 bytes_of IsHash Reads-u256

pub Reads-incremental_merkle_tree :
    (t : IncrementalMerkleTree) → IsTree t → Reads incremental_merkle_tree (tree_bytes t) t
unfolding incremental_merkle_tree
Reads-incremental_merkle_tree t h = Reads-bind _ (Reads-with_frame _ (Reads-node t.left h.left)) (
    Reads-bind _ (Reads-with_frame _ (Reads-node t.right h.right)) (
      Reads-map _
        (Reads-with_frame _ (
          Reads-vec (parse_optional u256) (optional_bytes bytes_of) (IsSome IsHash) Reads-node 33
            t.parents h.fits h.parents))
        (Reads-pure t)))

abbrev pub witness_bytes : (hash : P Bytes) → IncrementalWitness → Bytes
witness_bytes hash w =
    tree_bytes w.tree ++ (vec_bytes hash bytes_of w.filled ++ optional_bytes tree_bytes w.cursor)

pub record IsWitness (w : IncrementalWitness) : Type 0 where
  pub tree : IsTree w.tree
  pub filled : All IsHash w.filled
  pub fits : Fits 32 w.filled
  pub cursor : IsSome IsTree w.cursor

pub Reads-incremental_witness :
    (hash : P Bytes)
    → ((h : Bytes) → IsHash h → Reads hash h h)
    → (w : IncrementalWitness) → IsWitness w
    → Reads (incremental_witness hash) (witness_bytes hash w) w
unfolding incremental_witness
Reads-incremental_witness hash reads w h =
    Reads-bind _ (Reads-with_frame _ (Reads-incremental_merkle_tree w.tree h.tree)) (
      Reads-bind _
        (Reads-with_frame _ (Reads-vec hash bytes_of IsHash reads 32 w.filled h.fits h.filled))
        (Reads-map _
          (Reads-with_frame _ (
            Reads-parse_optional incremental_merkle_tree tree_bytes IsTree
              Reads-incremental_merkle_tree w.cursor h.cursor))
          (Reads-pure w)))

Reads-hash_array : (h : Bytes) → IsHash h → Reads (byte_array 32) h h
Reads-hash_array h e = Reads-byte_array_of 32 h e (omega arith)

Reads-sapling_ivk : (h : Bytes) → IsHash h → Reads sapling_ivk h h
unfolding sapling_ivk
Reads-sapling_ivk h e = Reads-map _ (Reads-with_frame _ (Reads-u256 h e)) (Reads-pure h)

-- The fields in their order.
abbrev pub note_bytes : SaplingNoteData → Bytes
note_bytes n =
    to_le_bytes 4 (to_unsigned 32 n.version)
    ++ (n.incoming_viewing_key
        ++ (optional_bytes bytes_of n.nullifier
            ++ (vec_bytes (incremental_witness (byte_array 32)) (witness_bytes (byte_array 32))
                  n.witnesses
                ++ to_le_bytes 4 (to_unsigned 32 n.witness_height))))

pub record IsNote (witness_size : ℕ) (n : SaplingNoteData) : Type 0 where
  pub version : IsSigned 32 n.version
  pub incoming_viewing_key : IsHash n.incoming_viewing_key
  pub nullifier : IsSome IsHash n.nullifier
  pub witnesses : All IsWitness n.witnesses
  pub fits : Fits witness_size n.witnesses
  pub witness_height : IsSigned 32 n.witness_height

pub Reads-sapling_note_data :
    (witness_size : ℕ) (n : SaplingNoteData)
    → IsNote witness_size n
    → Reads (sapling_note_data witness_size) (note_bytes n) n
unfolding sapling_note_data
Reads-sapling_note_data witness_size n h =
    Reads-bind _ (Reads-with_frame _ (Reads-i32 n.version h.version)) (
      Reads-bind _
        (Reads-with_frame _ (Reads-sapling_ivk n.incoming_viewing_key h.incoming_viewing_key))
        (Reads-bind _
          (Reads-with_frame _ (
            Reads-parse_optional (byte_array 32) bytes_of IsHash Reads-hash_array n.nullifier
              h.nullifier))
          (Reads-bind _
            (Reads-with_frame _ (
              Reads-vec (incremental_witness (byte_array 32)) (witness_bytes (byte_array 32))
                IsWitness (Reads-incremental_witness (byte_array 32) Reads-hash_array) witness_size
                n.witnesses h.fits h.witnesses))
            (Reads-map _ (Reads-with_frame _ (Reads-i32 n.witness_height h.witness_height))
              (Reads-pure n)))))
