-- ===== src/Zcashd/Seeds/Laws.antt =====
-- The legacy seed: the branch for a seed in the clear.
use zewif_zcashd.Base.{
  ◌≡◌, ◌≢◌, refl, sym, ap, Bool, true, false, List, [], inl, inr, Bool-cases, Option, none, ok,
  bind-eq-ok, map_err-eq-ok, lift-eq-ok,
}
use zewif_zcashd.Base.Bytes.{codes}
use zewif_zcashd.Base.BTreeMap.{Ord, get, contains_key-get}
use zewif_zcashd.Wire.Parser.{Bytes, parse_buf}
use zewif_zcashd.Wire.Parser.{next}
use zewif_zcashd.Wire.Ints.{u8}
use zewif_zcashd.Wire.Collections.{
  parse_fixed_length_array, parse_fixed_length_vec, with_capacity, parse_items,
}
use zewif_zcashd.Wallet.Words.{byte_array}
use zewif_zcashd.Wallet.Addresses.{seed_fingerprint}
use zewif_zcashd.Dump.{
  DbKey, ZcashdDump, key_for_keyname, has_value_for_keyname, record_for_keyname,
}
use zewif_zcashd.Dump.Index.{IsIndexed}
use zewif_zcashd.Dump.Records.{record_for_keyname-exact}
use zewif_zcashd.Zcashd.State.{EncryptedKeyPolicy, of_dump, key_eq, key_eq_iff}
use zewif_zcashd.Zcashd.Keys.{Libraries}
use zewif_zcashd.Zcashd.Seeds.{SeedLibrary, plain_hdseed, parse_hdseed, fingerprint}

-- No fingerprint is read off an empty buffer.
seed_fingerprint-empty :
    (encode : Bytes → Bytes) (trace : Bool) (a : Bytes)
    → parse_buf (seed_fingerprint encode) [] trace ≢ ok a
unfolding parse_buf seed_fingerprint byte_array parse_fixed_length_array parse_fixed_length_vec
    with_capacity parse_items u8 next
seed_fingerprint-empty encode trace a e = absurd (cc)

module _ {LegacySeed MnemonicLanguage Bip39Mnemonic : Type 0}
    (seeds : SeedLibrary LegacySeed MnemonicLanguage Bip39Mnemonic) (lib : Libraries)
    (names : Ord Bytes) (keys : Ord DbKey) (d : ZcashdDump) (policy : EncryptedKeyPolicy) where
  -- In a dump with a right index that has a record under the key hdseed without data, parse_hdseed
  -- does not succeed, with or without a master key.
  pub parse_hdseed-plain :
      (master_key : Option Bytes) (s s' : List DbKey) (seed : Option LegacySeed)
      → IsIndexed names keys d
      → has_value_for_keyname names keys d (codes "hdseed") ≡ true
      → parse_hdseed seeds lib names keys d policy master_key s ≢ ok (seed, s')
  unfolding parse_hdseed plain_hdseed has_value_for_keyname
  parse_hdseed-plain master_key s s' seed h has e =
      let run = rw has at e in
      let (((key, value), s₁), e₁, e₂) =
        bind-eq-ok (of_dump (record_for_keyname names keys d (codes "hdseed")) s) _ run in
      let ((unused, s₂), e₃, e₄) =
        bind-eq-ok (fingerprint seeds lib names keys d policy key.key_data s₁) _ e₂ in
      let found : record_for_keyname names keys d (codes "hdseed") ≡ ok (key, value) =
        map_err-eq-ok _ _ (lift-eq-ok _ s e₁) in
      let (named, here, others) =
        record_for_keyname-exact names keys d (codes "hdseed") key value h found in
      let bare : DbKey = key_for_keyname names keys (codes "hdseed") in
      let (v, at) = contains_key-get keys bare d.records has in
      elim (Bool-cases (key_eq bare key)) [
        | inl same ↦
            let is : key.key_data ≡ [] =
              sym (ap (λ k. k.key_data) ((key_eq_iff bare key).0 same)) in
            let parsed = map_err-eq-ok _ _ (map_err-eq-ok _ _ (lift-eq-ok _ s₁ e₃)) in
            seed_fingerprint-empty seeds.encode_seed_fingerprint false unused (rw is at parsed)
        | inr other ↦
            let gone : get keys bare d.records ≡ none =
              others bare refl (λ same. cc ((key_eq_iff bare key).1 same, other)) in
            cc
      ]
