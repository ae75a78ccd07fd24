-- ===== src/Zcashd/Wallet/Singles.antt =====
-- What the parsers of single records, of seeds and of the master key do to the set of unparsed keys.
use zewif_zcashd.Base.{
  ◌≡◌, refl, Option-cases, true, List, [], ◌∷◌, inl, inr, Bool-cases, Option, none, some, Result,
  ok, pure, ◌>>◌, err, ◌>>=◌, Result-cases, All,
}
use zewif_zcashd.Base.Bytes.{codes, bytes_eq, eq_bytes}
use zewif_zcashd.Base.HashMap.{contains}
use zewif_zcashd.Base.BTreeMap.{Ord}
use zewif_zcashd.Wire.Parser.{Bytes}
use zewif_zcashd.Wallet.Crypto.{DecryptionError, decrypt_secret, unsupported_derivation_method}
use zewif_zcashd.Wire.Collections.{data_bytes}
use zewif_zcashd.Dump.{DbKey, DbValue, ZcashdDump, record_for_keyname}
use zewif_zcashd.Dump.Index.{IsIndexed}
use zewif_zcashd.Dump.Records.{record_for_keyname-exact}
use zewif_zcashd.Zcashd.State.{
  Z, of_dump, marked_value, mark_records_parsed, skip_or_reject_encrypted, EncryptedKeyPolicy,
  reject, skip, decrypt_with, has_keys, parse_in, mark_key_parsed, of_decryption,
}
use zewif_zcashd.Zcashd.Records.Single.{
  parse_i64, parse_opt_i64, parse_client_version, parse_block_locator, parse_opt_block_locator,
  parse_default_key, parse_mnemonic_hd_chain, parse_network_info,
}
use zewif_zcashd.Zcashd.Keys.{Libraries}
use zewif_zcashd.Zcashd.MasterKey.{
  scalar_matches, first_verifies, master_key_verifies, candidate, accept, try_records,
  derive_master_key,
}
use zewif_zcashd.Zcashd.Seeds.{
  SeedLibrary, legacy_seed_of, fingerprint, bip39_mnemonic, plain_hdseed, encrypted_hdseed,
  parse_hdseed, plain_mnemonic, encrypted_mnemonic, parse_mnemonic_phrase,
}
use zewif_zcashd.Zcashd.Transactions.{TreeLibrary, parse_orchard_note_commitment_tree}
use zewif_zcashd.Zcashd.Effects.Marks.{
  Marks, Marks-lift, Marks-bind, Marks-if, Marks-pure, Marks-raise, Marks-abort,
  Marks-mark_keys_parsed, Marks-records_of,
}
use zewif_zcashd.Zcashd.Wallet.Known.{known_names, IsKnown, IsKnown-of_name, marking}

module _ (names : Ord Bytes) (keys : Ord DbKey) (d : ZcashdDump) where
  pub Marks-marked_value :
      (n : Bytes) → contains n known_names ≡ true → Marks IsKnown (marked_value names keys d n)
  unfolding marked_value
  Marks-marked_value n known = search marking

  pub Marks-parse_i64 :
      (n : Bytes) → contains n known_names ≡ true → Marks IsKnown (parse_i64 names keys d n)
  unfolding parse_i64
  Marks-parse_i64 n known = search (marking, Marks-marked_value)

  pub Marks-parse_opt_i64 :
      (n : Bytes) → contains n known_names ≡ true → Marks IsKnown (parse_opt_i64 names keys d n)
  unfolding parse_opt_i64
  Marks-parse_opt_i64 n known = search (marking, Marks-parse_i64)

  pub Marks-parse_client_version :
      (n : Bytes)
      → contains n known_names ≡ true
      → Marks IsKnown (parse_client_version names keys d n)
  unfolding parse_client_version
  Marks-parse_client_version n known = search (marking, Marks-marked_value)

  pub Marks-parse_block_locator :
      (n : Bytes)
      → contains n known_names ≡ true
      → Marks IsKnown (parse_block_locator names keys d n)
  unfolding parse_block_locator
  Marks-parse_block_locator n known = search (marking, Marks-marked_value)

  pub Marks-parse_opt_block_locator :
      (n : Bytes)
      → contains n known_names ≡ true
      → Marks IsKnown (parse_opt_block_locator names keys d n)
  unfolding parse_opt_block_locator
  Marks-parse_opt_block_locator n known = search (marking, Marks-parse_block_locator)

  pub Marks-parse_default_key : Marks IsKnown (parse_default_key names keys d)
  unfolding parse_default_key contains bytes_eq
  Marks-parse_default_key =
      Marks-bind IsKnown _ (Marks-marked_value (codes "defaultkey") refl)
        λ value. Marks-lift IsKnown _

  pub Marks-parse_mnemonic_hd_chain : Marks IsKnown (parse_mnemonic_hd_chain names keys d)
  unfolding parse_mnemonic_hd_chain contains bytes_eq
  Marks-parse_mnemonic_hd_chain =
      let first = Marks-marked_value (codes "mnemonichdchain") refl in search marking

  pub Marks-parse_network_info : Marks IsKnown (parse_network_info names keys d)
  unfolding parse_network_info contains bytes_eq
  Marks-parse_network_info =
      Marks-bind IsKnown _ (Marks-marked_value (codes "networkinfo") refl)
        λ value. Marks-lift IsKnown _

  pub Marks-parse_orchard_note_commitment_tree :
      {BridgeTree : Type 0} (trees : TreeLibrary BridgeTree)
      → Marks IsKnown (parse_orchard_note_commitment_tree trees names keys d)
  unfolding parse_orchard_note_commitment_tree contains bytes_eq
  Marks-parse_orchard_note_commitment_tree trees =
      let first = Marks-marked_value (codes "orchard_note_commitment_tree") refl in search marking

module _ (names : Ord Bytes) (keys : Ord DbKey) (d : ZcashdDump) (h : IsIndexed names keys d) where
  pub Marks-mark_records_parsed :
      (keynames : List Bytes)
      → All (λ n. contains n known_names ≡ true) keynames
      → Marks IsKnown (mark_records_parsed names keys d keynames)
  unfolding mark_records_parsed
  Marks-mark_records_parsed [] q = Marks-pure IsKnown tt
  Marks-mark_records_parsed (n ∷ ns) (q, qs) =
      Marks-bind IsKnown _
        (Marks-if IsKnown _
          (Marks-records_of IsKnown names keys d h n _ (IsKnown-of_name n q)
            (Marks-mark_keys_parsed IsKnown))
          (Marks-pure IsKnown tt))
        (λ u. Marks-mark_records_parsed ns qs)

  pub Marks-skip_or_reject_encrypted :
      (policy : EncryptedKeyPolicy) (keynames : List Bytes)
      → All (λ n. contains n known_names ≡ true) keynames
      → Marks IsKnown (skip_or_reject_encrypted names keys d policy keynames)
  unfolding skip_or_reject_encrypted
  Marks-skip_or_reject_encrypted policy keynames q =
      Marks-if IsKnown _ (Marks-raise IsKnown _) (Marks-mark_records_parsed keynames q)

  -- The only record of a name has a key of that name.
  Marks-record_of {ℓ} :
      {B : Type ℓ} (n : Bytes) (f : DbKey → DbValue → Z B)
      → contains n known_names ≡ true
      → ((key : DbKey) (value : DbValue) → IsKnown key → Marks IsKnown (f key value))
      → Marks IsKnown (of_dump (record_for_keyname names keys d n) >>= λ (key, value). f key value)
  Marks-record_of n f known g = record {
    run = λ s s' b e. elim (Result-cases (record_for_keyname names keys d n)) [
      | inl ((key, value), found) ↦
          (g key value (
              IsKnown-of_name n known key
                (record_for_keyname-exact names keys d n key value h found).0)).run
            s s' b (rw found at e)
      | inr (inl (x, failed)) ↦ let bad = rw failed at e in absurd (cc)
      | inr (inr failed) ↦ let bad = rw failed at e in absurd (cc)
    ];
  }

  module _ {LegacySeed MnemonicLanguage Bip39Mnemonic : Type 0}
      (seeds : SeedLibrary LegacySeed MnemonicLanguage Bip39Mnemonic) (lib : Libraries)
      (policy : EncryptedKeyPolicy) where
    Marks-legacy_seed_of :
        (bytes : Bytes) → Marks IsKnown (legacy_seed_of seeds lib names keys d policy bytes)
    Marks-legacy_seed_of bytes = elim (Option-cases (seeds.legacy_seed bytes)) [
      | inl e ↦ rw (e, legacy_seed_of) (Marks-raise IsKnown _)
      | inr (seed, e) ↦ rw (e, legacy_seed_of) (Marks-pure IsKnown _)
    ]

    Marks-plain_hdseed : Marks IsKnown (plain_hdseed seeds lib names keys d policy)
    unfolding plain_hdseed contains bytes_eq
    Marks-plain_hdseed = Marks-record_of (codes "hdseed") _ refl λ key value known.
        let after : Marks IsKnown {A = Option LegacySeed} (do
          unused ← fingerprint seeds lib names keys d policy key.key_data
          seed_data ← parse_in "legacy seed data" data_bytes value
          mark_key_parsed key
          legacy_seed_of seeds lib names keys d policy seed_data) =
          search (marking, Marks-legacy_seed_of) in
        after

    Marks-encrypted_hdseed :
        (master_key : Option Bytes)
        → Marks IsKnown (encrypted_hdseed seeds lib names keys d policy master_key)
    unfolding encrypted_hdseed contains bytes_eq
    Marks-encrypted_hdseed none =
        Marks-bind IsKnown _
          (Marks-skip_or_reject_encrypted policy (codes "chdseed" ∷ []) (refl, tt))
          (λ u. Marks-pure IsKnown none)
    Marks-encrypted_hdseed (some master_key) =
        Marks-record_of (codes "chdseed") _ refl λ key value known.
          let after : Marks IsKnown {A = Option LegacySeed} (do
            unused ← fingerprint seeds lib names keys d policy key.key_data
            ciphertext ← parse_in "chdseed ciphertext" data_bytes value
            seed_bytes ←
                of_decryption (decrypt_secret lib.decrypt_padded master_key ciphertext key.key_data)
            mark_key_parsed key
            legacy_seed_of seeds lib names keys d policy seed_bytes) =
            search (marking, Marks-legacy_seed_of) in
          after

    pub Marks-parse_hdseed :
        (master_key : Option Bytes)
        → Marks IsKnown (parse_hdseed seeds lib names keys d policy master_key)
    unfolding parse_hdseed
    Marks-parse_hdseed master_key = search (marking, Marks-plain_hdseed, Marks-encrypted_hdseed)

    Marks-plain_mnemonic : Marks IsKnown (plain_mnemonic seeds lib names keys d policy)
    unfolding plain_mnemonic contains bytes_eq
    Marks-plain_mnemonic = Marks-record_of (codes "mnemonicphrase") _ refl λ key value known.
        let after : Marks IsKnown {A = Option Bip39Mnemonic} (do
          unused ← fingerprint seeds lib names keys d policy key.key_data
          mnemonic ← parse_in "mnemonic phrase" (bip39_mnemonic seeds) value
          mark_key_parsed key
          pure (some mnemonic)) =
          search marking in
        after

    Marks-encrypted_mnemonic :
        (master_key : Option Bytes)
        → Marks IsKnown (encrypted_mnemonic seeds lib names keys d policy master_key)
    unfolding encrypted_mnemonic contains bytes_eq
    Marks-encrypted_mnemonic none =
        Marks-bind IsKnown _
          (Marks-skip_or_reject_encrypted policy (codes "cmnemonicphrase" ∷ []) (refl, tt))
          (λ u. Marks-pure IsKnown none)
    Marks-encrypted_mnemonic (some master_key) =
        Marks-record_of (codes "cmnemonicphrase") _ refl λ key value known.
          let after : Marks IsKnown {A = Option Bip39Mnemonic} (do
            unused ← fingerprint seeds lib names keys d policy key.key_data
            ciphertext ← parse_in "cmnemonicphrase ciphertext" data_bytes value
            plaintext ←
                of_decryption (decrypt_secret lib.decrypt_padded master_key ciphertext key.key_data)
            mnemonic ← parse_in "mnemonic phrase" (bip39_mnemonic seeds) plaintext
            mark_key_parsed key
            pure (some mnemonic)) =
            search marking depth 12 in
          after

    pub Marks-parse_mnemonic_phrase :
        (master_key : Option Bytes)
        → Marks IsKnown (parse_mnemonic_phrase seeds lib names keys d policy master_key)
    unfolding parse_mnemonic_phrase
    Marks-parse_mnemonic_phrase master_key =
        search (marking, Marks-plain_mnemonic, Marks-encrypted_mnemonic)

  module _ (lib : Libraries) where
    Marks-scalar_matches :
        (pubkey : Bytes) (r : Result DecryptionError Bytes)
        → Marks IsKnown (scalar_matches lib names keys d pubkey r)
    unfolding scalar_matches
    Marks-scalar_matches pubkey (ok scalar) = Marks-pure IsKnown _
    Marks-scalar_matches pubkey (err e) = Marks-pure IsKnown _
    Marks-scalar_matches pubkey Result.panic = Marks-abort IsKnown

    Marks-first_verifies :
        (master_key : Bytes) (records : List (DbKey × DbValue))
        → Marks IsKnown (first_verifies lib names keys d master_key records)
    unfolding first_verifies
    Marks-first_verifies master_key [] = Marks-pure IsKnown true
    Marks-first_verifies master_key ((key, value) ∷ records) =
        search (marking, Marks-scalar_matches)

    Marks-master_key_verifies :
        (master_key : Bytes) → Marks IsKnown (master_key_verifies lib names keys d master_key)
    unfolding master_key_verifies
    Marks-master_key_verifies master_key = search (marking, Marks-first_verifies)

    Marks-accept :
        (all : List (DbKey × DbValue)) (found : Option Bytes) (next : Z (Option Bytes))
        → All (λ (key, value). IsKnown key) all
        → Marks IsKnown next
        → Marks IsKnown (accept lib names keys d all found next)
    unfolding accept
    Marks-accept all none next q h = h
    Marks-accept all (some master_key) next q h =
        Marks-bind IsKnown _ (Marks-mark_keys_parsed IsKnown all q) (λ u. Marks-pure IsKnown _)

    Marks-candidate :
        (r : Result DecryptionError Bytes) → Marks IsKnown (candidate lib names keys d r)
    unfolding candidate
    Marks-candidate (ok master_key) = search (marking, Marks-master_key_verifies)
    Marks-candidate (err (unsupported_derivation_method m)) = Marks-raise IsKnown _
    Marks-candidate (err e) = Marks-pure IsKnown none
    Marks-candidate Result.panic = Marks-abort IsKnown

    Marks-try_records :
        (passphrase : Bytes) (all rest : List (DbKey × DbValue))
        → All (λ (key, value). IsKnown key) all
        → Marks IsKnown (try_records lib names keys d passphrase all rest)
    unfolding try_records
    Marks-try_records passphrase all [] q = Marks-raise IsKnown _
    Marks-try_records passphrase all ((key, value) ∷ rest) q =
        let next = Marks-try_records passphrase all rest q in
        let found = λ (o : Option Bytes). Marks-accept all o _ q next in
        search (marking, Marks-candidate, found)

    Marks-with_policy :
        (policy : EncryptedKeyPolicy)
        → has_keys names keys d (codes "mkey") ≡ true
        → Marks IsKnown (derive_master_key lib names keys d policy)
    unfolding derive_master_key contains bytes_eq
    Marks-with_policy reject has = rw has (Marks-raise IsKnown _)
    Marks-with_policy skip has = rw has (
        Marks-records_of IsKnown names keys d h (codes "mkey") _
          (IsKnown-of_name (codes "mkey") refl)
          λ records q.
            Marks-bind IsKnown _ (Marks-mark_keys_parsed IsKnown records q)
              (λ u. Marks-pure IsKnown none))
    Marks-with_policy (decrypt_with passphrase) has = rw has (
        Marks-records_of IsKnown names keys d h (codes "mkey") _
          (IsKnown-of_name (codes "mkey") refl)
          λ records q. Marks-try_records passphrase records records q)

    pub Marks-derive_master_key :
        (policy : EncryptedKeyPolicy) → Marks IsKnown (derive_master_key lib names keys d policy)
    unfolding derive_master_key
    Marks-derive_master_key policy = elim (Bool-cases (has_keys names keys d (codes "mkey"))) [
      | inl has ↦ Marks-with_policy policy has
      | inr away ↦ rw away (Marks-pure IsKnown none)
    ]
