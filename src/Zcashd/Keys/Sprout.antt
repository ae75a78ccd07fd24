-- ===== src/Zcashd/Keys/Sprout.antt =====
-- The Sprout keys: encrypted ones are skipped or refused, never decrypted.
use zewif_zcashd.Base.{
  ◌≡◌, refl, ap, ◌∙◌, true, false, ◌&&◌, List, [], ◌∷◌, none, ok, err, bind, if◌then◌else◌, Option,
}
use zewif_zcashd.Base.Bytes.{codes}
use zewif_zcashd.Base.HashMap.{Eq, contains}
use zewif_zcashd.Base.BTreeMap.{Ord, contains_key}
use zewif_zcashd.Wire.Parser.{Bytes}
use zewif_zcashd.Wallet.Addresses.{SproutPaymentAddress}
use zewif_zcashd.Dump.{DbKey, ZcashdDump}
use zewif_zcashd.Dump.Index.{IsIndexed}
use zewif_zcashd.Zcashd.State.{
  eq_key, EncryptedKeyPolicy, skip, skip_encrypted, has_keys, mark_records_parsed,
  inconsistent_key_encryption, encrypted_sprout_unsupported,
}
use zewif_zcashd.Zcashd.Keys.{
  Libraries, SproutSpendingKey, encrypted_sprout_keys, parse_sprout_keys,
}
use zewif_zcashd.Zcashd.Keys.Laws.{among, mark_records_parsed-exact}

module _ ⦃e : Eq SproutPaymentAddress⦄ (lib : Libraries) (names : Ord Bytes) (keys : Ord DbKey)
    (d : ZcashdDump) where
  refused :
      (policy : EncryptedKeyPolicy) (s : List DbKey)
      → skip_encrypted policy ≡ false
      → encrypted_sprout_keys lib names keys d policy s ≡ err encrypted_sprout_unsupported
  unfolding encrypted_sprout_keys
  refused policy s p = rw p refl

  skipped :
      (s s' : List DbKey)
      → mark_records_parsed names keys d (codes "czkey" ∷ codes "zkeymeta" ∷ []) s ≡ ok (tt, s')
      → encrypted_sprout_keys lib names keys d skip s ≡ ok (none, s')
  unfolding encrypted_sprout_keys
  skipped s s' marked =
      ap
        (λ r.
          bind {B = Option (List (SproutPaymentAddress × SproutSpendingKey)) × List DbKey} r
            (λ (u, t). ok (none, t)))
        marked

  only_encrypted :
      (policy : EncryptedKeyPolicy) (s : List DbKey)
      → has_keys names keys d (codes "czkey") ≡ true
      → has_keys names keys d (codes "zkey") ≡ false
      → parse_sprout_keys lib names keys d policy s
        ≡ encrypted_sprout_keys lib names keys d policy s
  unfolding parse_sprout_keys
  only_encrypted policy s c z = rw (z, c) refl

  -- In a dump with a right index and czkey records, parse_sprout_keys returns
  -- InconsistentKeyEncryption where there are zkey records too; where there are none, it returns
  -- EncryptedSproutUnsupported under a policy other than to skip, and under that one succeeds
  -- without keys, and takes exactly the czkey and zkeymeta keys of the dump off the unparsed keys.
  pub parse_sprout_keys-encrypted :
      (policy : EncryptedKeyPolicy) (s : List DbKey)
      → IsIndexed names keys d
      → has_keys names keys d (codes "czkey") ≡ true
      → (has_keys names keys d (codes "zkey") ≡ true
          → parse_sprout_keys lib names keys d policy s
            ≡ err (inconsistent_key_encryption (codes "zkey")))
        × (has_keys names keys d (codes "zkey") ≡ false
            → skip_encrypted policy ≡ false
            → parse_sprout_keys lib names keys d policy s ≡ err encrypted_sprout_unsupported)
        × (has_keys names keys d (codes "zkey") ≡ false
            → (s' : List DbKey) × (parse_sprout_keys lib names keys d skip s ≡ ok (none, s'))
              × ((k : DbKey)
                  → contains k s' ≡ (
                      if among names keys d k.keyname (codes "czkey" ∷ codes "zkeymeta" ∷ [])
                        && contains_key keys k d.records
                      then false
                      else contains k s)))
  unfolding parse_sprout_keys
  parse_sprout_keys-encrypted policy s h c = (
    λ z. rw (z, c) refl,
    λ z p. only_encrypted policy s c z ∙ refused policy s p,
    λ z.
        let (s', marked, all) =
          mark_records_parsed-exact names keys d (codes "czkey" ∷ codes "zkeymeta" ∷ []) s h in
        (s', only_encrypted skip s c z ∙ skipped s s' marked, all),
  )
