-- ===== src/Zcashd/State.antt =====
-- src/zcashd_parser.rs and src/error.rs: the errors, the policy for encrypted keys, and the set of the
-- keys of records that no parser has handled yet.
use zewif_zcashd.Base.{
  ℕ, String, Bool, true, false, not, ◌&&◌, ◌≡◌, refl, ap, ◌∙◌, ◌↔◌, List, [], ◌∷◌, inl, inr,
  Bool-cases, Result, ok, M, pure, raise, lift, map_err, ◌>>=◌, ◌>>◌, if◌then◌else◌,
}
use zewif_zcashd.Base.Bytes.{bytes_eq, bytes_eq_iff}
use zewif_zcashd.Base.HashMap.{Eq, remove_item}
use zewif_zcashd.Base.BTreeMap.{Ord}
use zewif_zcashd.Wire.Error.{ParseError, push_frame, text}
use zewif_zcashd.Wire.Parser.{Bytes, P, parse_buf}
use zewif_zcashd.Wallet.Addresses.{SaplingZPaymentAddress}
use zewif_zcashd.Wallet.Crypto.{DecryptionError}
use zewif_zcashd.Dump.{
  DbKey, DbValue, DumpError, ZcashdDump, key_for_keyname, value_for_keyname, records_for_keyname,
  has_keys_for_keyname,
}

pub data EncryptedKeyPolicy : Type 0 where
  reject : EncryptedKeyPolicy
  decrypt_with : (passphrase : Bytes) → EncryptedKeyPolicy
  skip : EncryptedKeyPolicy

-- The errors of the wallet parser; those of the Berkeley DB reader and of the migration do not occur in
-- it. A key name is its bytes.
pub data Error : Type 0 where
  parse_error : ParseError → Error
  dump_error : DumpError → Error
  unexpected_sap_ext_fvk_marker : ℕ → Error
  duplicate_sapling_ext_fvk : (ivk : Bytes) → Error
  unexpected_unified_address_metadata_value : ℕ → Error
  unexpected_unified_account_metadata_value : ℕ → Error
  mismatched_key_metadata : (keyname metadata_keyname : Bytes) → Error
  invalid_legacy_seed_length : Error
  encrypted_wallet_requires_passphrase : Error
  wrong_wallet_passphrase : Error
  decryption : DecryptionError → Error
  corrupted_encrypted_key : (keyname : Bytes) → Error
  inconsistent_key_encryption : (keyname : Bytes) → Error
  encrypted_sprout_unsupported : Error
  duplicate_address_name : (address : Bytes) → Error
  duplicate_address_purpose : (address : Bytes) → Error
  duplicate_sapling_address : SaplingZPaymentAddress → Error
  duplicate_script_id : (script_id : Bytes) → Error
  duplicate_transaction : (txid : Bytes) → Error

-- The equality that `DbKey` derives.
abbrev pub key_eq : DbKey → DbKey → Bool
key_eq a b = bytes_eq a.keyname b.keyname && bytes_eq a.key_data b.key_data

key_eq→eq : (a b : DbKey) → key_eq a b ≡ true → a ≡ b
key_eq→eq a b e = elim (Bool-cases (bytes_eq a.keyname b.keyname)) [
  | inl at ↦
      let name : a.keyname ≡ b.keyname = (bytes_eq_iff _ _).0 at in
      let rest : a.key_data ≡ b.key_data = (bytes_eq_iff _ _).0 (rw at at e) in
      ap (λ n. record { keyname = n; key_data = a.key_data }) name
      ∙ ap (λ x. record { keyname = b.keyname; key_data = x }) rest
  | inr away ↦ let bad : false ≡ true = rw away at e in absurd (cc)
]

pub key_eq_iff : (a b : DbKey) → (key_eq a b ≡ true) ↔ (a ≡ b)
key_eq_iff a b = (
  key_eq→eq a b,
  λ e.
      rw
        (
          (bytes_eq_iff a.keyname b.keyname).1 (ap (λ k. k.keyname) e),
          (bytes_eq_iff a.key_data b.key_data).1 (ap (λ k. k.key_data) e),
        )
        refl,
)

instance abbrev pub eq_key : Eq DbKey
eq_key = record { beq = key_eq; beq_iff = key_eq_iff }

-- Actions on `unparsed_keys`.
abbrev pub Z {ℓ} : Type ℓ → Type ℓ
Z A = M Error (List DbKey) A

-- `?` on the errors of the layers below, by `From`.
abbrev pub of_parse {ℓ} : {A : Type ℓ} → Result ParseError A → Z A
of_parse r = lift (map_err parse_error r)

abbrev pub of_dump {ℓ} : {A : Type ℓ} → Result DumpError A → Z A
of_dump r = lift (map_err dump_error r)

abbrev pub of_decryption {ℓ} : {A : Type ℓ} → Result DecryptionError A → Z A
of_decryption r = lift (map_err decryption r)

-- `parse!(buf = …, T, context)?`
abbrev pub parse_in {ℓ} : {A : Type ℓ} → String → P A → Bytes → Z A
parse_in context parse buf =
    of_parse (map_err (push_frame (text context)) (parse_buf parse buf false))

abbrev pub skip_encrypted : EncryptedKeyPolicy → Bool
skip_encrypted skip = true
skip_encrypted reject = false
skip_encrypted (decrypt_with passphrase) = false

unfoldable pub mark_key_parsed : DbKey → Z (Unit {0})
mark_key_parsed key s = ok (tt, remove_item key s)

-- A loop that marks each key.
unfoldable pub mark_keys_parsed : List (DbKey × DbValue) → Z (Unit {0})
mark_keys_parsed [] = pure tt
mark_keys_parsed ((key, value) ∷ records) = mark_key_parsed key >> mark_keys_parsed records

-- `for (key, value) in records`, on what the loop builds up.
unfoldable pub for_records {ℓ} :
    {A : Type ℓ} → (A → DbKey → DbValue → Z A) → List (DbKey × DbValue) → A → Z A
for_records body [] a = pure a
for_records body ((key, value) ∷ records) a = do a' ← body a key value; for_records body records a'

-- The parser's fields: the dump, with the orders its maps are kept in, and the policy.
module _ (names : Ord Bytes) (keys : Ord DbKey) (d : ZcashdDump) where
  abbrev pub has_keys : Bytes → Bool
  has_keys keyname = has_keys_for_keyname names keys d keyname

  abbrev pub records_of : Bytes → Z (List (DbKey × DbValue))
  records_of keyname = of_dump (records_for_keyname names keys d keyname)

  unfoldable pub mark_records_parsed : List Bytes → Z (Unit {0})
  unfolding mark_keys_parsed
  mark_records_parsed [] = pure tt
  mark_records_parsed (keyname ∷ keynames) =
      (if has_keys keyname
        then (do records ← records_of keyname; mark_keys_parsed records)
        else pure tt)
      >> mark_records_parsed keynames

  unfoldable pub skip_or_reject_encrypted : EncryptedKeyPolicy → List Bytes → Z (Unit {0})
  unfolding mark_records_parsed
  skip_or_reject_encrypted policy keynames =
      if not (skip_encrypted policy)
      then raise encrypted_wallet_requires_passphrase
      else mark_records_parsed keynames

  -- `ZcashdParser::value_for_keyname`
  unfoldable pub marked_value : Bytes → Z DbValue
  marked_value keyname =
      mark_key_parsed (key_for_keyname names keys keyname)
      >> of_dump (value_for_keyname names keys d keyname)
