-- ===== src/Tests/Sprout.antt =====
-- The wallet parser on a wallet of one encrypted Sprout key.
use zewif_zcashd.Base.{
  ◌≡◌, refl, ap, ◌∙◌, ◌↔◌, Bool, true, false, ◌&&◌, List, [], ◌∷◌, inl, inr, Bool-cases, none, ok,
  err, if◌then◌else◌, take, some,
}
use zewif_zcashd.Base.Bytes.{codes, bytes_eq, bytes_eq_iff}
use zewif_zcashd.Base.HashMap.{Eq, contains}
use zewif_zcashd.Base.BTreeMap.{contains_key, get, insert}
use zewif_zcashd.Wallet.Addresses.{SproutPaymentAddress}
use zewif_zcashd.Dump.{DbKey, ZcashdDump, keys_of, add_record, has_keys_for_keyname}
use zewif_zcashd.Dump.Keys.{lt_key}
use zewif_zcashd.Dump.Index.{IsIndexed, IsIndexed-empty, IsIndexed-add_record}
use zewif_zcashd.Zcashd.State.{
  eq_key, skip, reject, skip_encrypted, has_keys, inconsistent_key_encryption,
  encrypted_sprout_unsupported,
}
use zewif_zcashd.Zcashd.Keys.{Libraries, parse_sprout_keys}
use zewif_zcashd.Zcashd.Keys.Laws.{among}
use zewif_zcashd.Zcashd.Keys.Sprout.{parse_sprout_keys-encrypted}
use zewif_zcashd.Tests.Orders.{lt_bytes, ord_bytes}
use zewif_zcashd.Tests.Zcashd.{keys}

abbrev address_eq : SproutPaymentAddress → SproutPaymentAddress → Bool
address_eq a b = bytes_eq a.a_pk b.a_pk && bytes_eq a.pk_enc b.pk_enc

address_eq→eq : (a b : SproutPaymentAddress) → address_eq a b ≡ true → a ≡ b
address_eq→eq a b e = elim (Bool-cases (bytes_eq a.a_pk b.a_pk)) [
  | inl at ↦
      let first : a.a_pk ≡ b.a_pk = (bytes_eq_iff _ _).0 at in
      let second : a.pk_enc ≡ b.pk_enc = (bytes_eq_iff _ _).0 (rw at at e) in
      ap (λ n. record { a_pk = n; pk_enc = a.pk_enc }) first
      ∙ ap (λ x. record { a_pk = b.a_pk; pk_enc = x }) second
  | inr away ↦ let bad : false ≡ true = rw away at e in absurd (cc)
]

address_eq_iff : (a b : SproutPaymentAddress) → (address_eq a b ≡ true) ↔ (a ≡ b)
address_eq_iff a b = (
  address_eq→eq a b,
  λ e.
      rw
        (
          (bytes_eq_iff a.a_pk b.a_pk).1 (ap (λ k. k.a_pk) e),
          (bytes_eq_iff a.pk_enc b.pk_enc).1 (ap (λ k. k.pk_enc) e),
        )
        refl,
)

instance abbrev eq_address : Eq SproutPaymentAddress
eq_address = record { beq = address_eq; beq_iff = address_eq_iff }

abbrev lib : Libraries
lib = record {
  sha256 = take 32;
  sha512 = λ b. b;
  decrypt_padded = λ key iv ciphertext. some (take 32 ciphertext);
  public_key = λ scalar compressed. none;
}

abbrev sprout_key : DbKey
sprout_key = record { keyname = codes "czkey"; key_data = 1 ∷ [] }

abbrev sealed : ZcashdDump
sealed = record {
  records = (sprout_key, []) ∷ [];
  keys_by_keyname = (codes "czkey", (sprout_key, tt) ∷ []) ∷ [];
}

sealed-IsIndexed : IsIndexed ord_bytes keys sealed
unfolding add_record keys_of insert get lt_key lt_bytes
sealed-IsIndexed =
    IsIndexed-add_record ord_bytes keys sprout_key [] _ (IsIndexed-empty ord_bytes keys)

parse_sprout_keys-encrypted_example :
    (has_keys ord_bytes keys sealed (codes "zkey") ≡ true
      → parse_sprout_keys lib ord_bytes keys sealed reject []
        ≡ err (inconsistent_key_encryption (codes "zkey")))
    × (has_keys ord_bytes keys sealed (codes "zkey") ≡ false
        → skip_encrypted reject ≡ false
        → parse_sprout_keys lib ord_bytes keys sealed reject [] ≡ err encrypted_sprout_unsupported)
    × (has_keys ord_bytes keys sealed (codes "zkey") ≡ false
        → (s' : List DbKey) × (parse_sprout_keys lib ord_bytes keys sealed skip [] ≡ ok (none, s'))
          × ((k : DbKey)
              → contains k s' ≡ (
                  if among ord_bytes keys sealed k.keyname (codes "czkey" ∷ codes "zkeymeta" ∷ [])
                    && contains_key keys k sealed.records
                  then false
                  else contains k [])))
unfolding has_keys_for_keyname contains_key lt_bytes
parse_sprout_keys-encrypted_example =
    parse_sprout_keys-encrypted lib ord_bytes keys sealed reject [] sealed-IsIndexed refl
