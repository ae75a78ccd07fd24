-- ===== src/Wallet/Words/Laws.antt =====
-- Byte arrays read back, and which readers of words depend only on the bytes they take.
use zewif_zcashd.Base.{
  ℕ, ◌≤◌, ◌≡◌, refl, ap, subst, [], ◌∷◌, Result, ok, err, lift, ◌==◌, ==_iff, length, All, arith,
  true,
}
use zewif_zcashd.Wire.Error.{ParseError}
use zewif_zcashd.Wire.Parser.{Bytes, isize_max}
use zewif_zcashd.Wire.Reads.{Reads, Reads-map, Reads-pure, Reads-with_frame}
use zewif_zcashd.Wire.Local.{IsLocal, local, IsLocal-raise, IsLocal-pure, IsLocal-abort}
use zewif_zcashd.Wire.Ints.{u8}
use zewif_zcashd.Wire.Ints.Laws.{Reads-u8, IsLocal-u8}
use zewif_zcashd.Wire.Collections.{parse_fixed_length_array, parse_fixed_length_vec}
use zewif_zcashd.Wire.Collections.Laws.{
  concat, Reads-parse_fixed_length_vec, IsLocal-parse_fixed_length_array,
}
use zewif_zcashd.Wallet.Words.{byte_array, u160, u252, u256}

abbrev one_byte : ℕ → Bytes
one_byte b = b ∷ []

concat-one_byte : (bs : Bytes) → concat u8 one_byte bs ≡ bs
unfolding concat
concat-one_byte [] = refl
concat-one_byte (b ∷ bs) = ap (λ r. b ∷ r) (concat-one_byte bs)

each_byte : (bs : Bytes) → All (λ b. Reads u8 (one_byte b) b) bs
each_byte [] = tt
each_byte (b ∷ bs) = (Reads-u8 b, each_byte bs)

pub Reads-byte_array : (bs : Bytes) → length bs ≤ isize_max → Reads (byte_array (length bs)) bs bs
unfolding byte_array parse_fixed_length_array
Reads-byte_array bs h =
    let same : (length bs == length bs) ≡ true = (==_iff _ _).1 refl in
    Reads-map _
      (subst (λ cs. Reads (parse_fixed_length_vec 1 u8 (length bs)) cs bs) (concat-one_byte bs)
        (Reads-parse_fixed_length_vec u8 one_byte 1 bs (omega arith) (each_byte bs)))
      (rw same (Reads-pure bs))

-- At a size that is written out.
pub Reads-byte_array_of :
    (n : ℕ) (bs : Bytes) → length bs ≡ n → n ≤ isize_max → Reads (byte_array n) bs bs
Reads-byte_array_of n bs e h =
    subst (λ k. Reads (byte_array k) bs bs) e (Reads-byte_array bs (omega arith))

pub Reads-u160 : (bs : Bytes) → length bs ≡ 20 → Reads u160 bs bs
unfolding u160
Reads-u160 bs e =
    Reads-map _ (Reads-with_frame _ (Reads-byte_array_of 20 bs e (omega arith))) (Reads-pure bs)

pub Reads-u256 : (bs : Bytes) → length bs ≡ 32 → Reads u256 bs bs
unfolding u256
Reads-u256 bs e =
    Reads-map _ (Reads-with_frame _ (Reads-byte_array_of 32 bs e (omega arith))) (Reads-pure bs)

pub IsLocal-byte_array : (n : ℕ) → IsLocal (byte_array n)
unfolding byte_array
IsLocal-byte_array n = IsLocal-parse_fixed_length_array u8 IsLocal-u8 1 n

pub IsLocal-u160 : IsLocal u160
unfolding u160
IsLocal-u160 = search (local, IsLocal-byte_array)

pub IsLocal-u256 : IsLocal u256
unfolding u256
IsLocal-u256 = search (local, IsLocal-byte_array)

pub IsLocal-lift {ℓ} : {A : Type ℓ} (r : Result ParseError A) → IsLocal (lift r)
IsLocal-lift (ok a) = IsLocal-pure a
IsLocal-lift (err e) = IsLocal-raise e
IsLocal-lift Result.panic = IsLocal-abort

pub IsLocal-u252 : IsLocal u252
unfolding u252
IsLocal-u252 = search (local, IsLocal-byte_array, IsLocal-lift)
