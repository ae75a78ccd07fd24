-- ===== src/Zcashd/Wallet/KeyParsers.antt =====
-- What the parsers of keys, in the clear or encrypted, do to the set of unparsed keys.
use zewif_zcashd.Base.{refl, [], ◌∷◌, Option, none, some}
use zewif_zcashd.Base.Bytes.{codes, bytes_eq, eq_bytes}
use zewif_zcashd.Base.HashMap.{contains}
use zewif_zcashd.Base.BTreeMap.{Ord}
use zewif_zcashd.Wire.Parser.{Bytes}
use zewif_zcashd.Wallet.Equality.{eq_sprout_address}
use zewif_zcashd.Dump.{DbKey, ZcashdDump}
use zewif_zcashd.Dump.Index.{IsIndexed}
use zewif_zcashd.Zcashd.State.{eq_key, EncryptedKeyPolicy}
use zewif_zcashd.Zcashd.Keys.{
  Libraries, key_round, sprout_key_round, parse_encrypted_keys, encrypted_keys, plain_keys,
  parse_keys, plain_sprout_keys, encrypted_sprout_keys, parse_sprout_keys,
}
use zewif_zcashd.Zcashd.Sapling.{
  SaplingLibrary, sapling_key_round, parse_encrypted_sapling_keys, encrypted_sapling_keys,
  plain_sapling_keys, parse_sapling_keys,
}
use zewif_zcashd.Zcashd.Effects.{Handles-first, Shrinks-pure}
use zewif_zcashd.Zcashd.Effects.Marks.{Marks-pure, Marks-bind, Marks-for_records, Handles-loop}
use zewif_zcashd.Zcashd.Wallet.Known.{IsKnown, Does, Does-arranged, Does-allowed, as_found}
use zewif_zcashd.Zcashd.Wallet.KeyLoops.{
  IsKnown-meta_key, Does-checked, Does-raise, Does-if, Does-then_pure, Does-mark_records_parsed,
  Does-skip_or_reject_encrypted, Does-first_name, Does-two,
}
use zewif_zcashd.Zcashd.Wallet.KeyRounds.{
  Marks-key_round, Handles-key_round, Marks-encrypted_key_round, Handles-encrypted_key_round,
  Marks-sprout_key_round, Handles-sprout_key_round, Marks-sapling_key_round,
  Handles-sapling_key_round, Marks-encrypted_sapling_round, Handles-encrypted_sapling_round,
}

module _ (names : Ord Bytes) (keys : Ord DbKey) (d : ZcashdDump) (h : IsIndexed names keys d) where
  module _ (lib : Libraries) where
    Does-encrypted_keys :
        (policy : EncryptedKeyPolicy) (master_key : Option Bytes)
        → Does names keys d h
            (codes "ckey" ∷ [])
            (encrypted_keys lib names keys d policy master_key)
    unfolding encrypted_keys parse_encrypted_keys contains bytes_eq
    Does-encrypted_keys policy (some master_key) =
        Does-arranged names keys d h (codes "ckey") refl as_found (λ records q. q)
          (λ k records c. c) _
          (λ m key value known.
            Marks-encrypted_key_round lib names keys d master_key m key value known
              (IsKnown-meta_key (codes "keymeta") refl key))
          [] (Handles-encrypted_key_round lib names keys d master_key)
    Does-encrypted_keys policy none =
        Does-first_name names keys d h (codes "ckey") (codes "keymeta") (
          Does-then_pure names keys d h (codes "ckey" ∷ codes "keymeta" ∷ []) [] (
            Does-skip_or_reject_encrypted names keys d h policy
              (codes "ckey" ∷ codes "keymeta" ∷ []) (refl, (refl, tt))))

    Does-plain_keys : Does names keys d h (codes "key" ∷ []) (plain_keys lib names keys d)
    unfolding plain_keys contains bytes_eq
    Does-plain_keys =
        Does-checked names keys d h (codes "key") (codes "keymeta") refl _ _
          (λ records q.
            Marks-for_records IsKnown (key_round lib names keys d)
              (λ m key value known.
                Marks-key_round lib names keys d m key value known
                  (IsKnown-meta_key (codes "keymeta") refl key))
              records [] q)
          (λ records k q c.
            Handles-loop IsKnown keys (key_round lib names keys d)
              (λ m key value known.
                Marks-key_round lib names keys d m key value known
                  (IsKnown-meta_key (codes "keymeta") refl key))
              (Handles-key_round lib names keys d) records [] k q c)

    pub Does-parse_keys :
        (policy : EncryptedKeyPolicy) (master_key : Option Bytes)
        → Does names keys d h
            (codes "key" ∷ codes "ckey" ∷ [])
            (parse_keys lib names keys d policy master_key)
    unfolding parse_keys
    Does-parse_keys policy master_key =
        Does-two names keys d h (codes "key") (codes "ckey")
          (λ a b. rw (a, b) (Does-raise names keys d h _ _)) (λ a b. rw (a, b) Does-plain_keys)
          (λ a b. rw (a, b) (Does-encrypted_keys policy master_key))
          (λ a b. rw (a, b) (Does-plain_keys.marks))

    module _ {ExtSk ExtFvk : Type 0} (sapling : SaplingLibrary ExtSk ExtFvk) where
      Does-encrypted_sapling_keys :
          (policy : EncryptedKeyPolicy) (master_key : Option Bytes)
          → Does names keys d h
              (codes "csapzkey" ∷ [])
              (encrypted_sapling_keys sapling lib names keys d policy master_key)
      unfolding encrypted_sapling_keys parse_encrypted_sapling_keys contains bytes_eq
      Does-encrypted_sapling_keys policy (some master_key) =
          Does-arranged names keys d h (codes "csapzkey") refl as_found (λ records q. q)
            (λ k records c. c) _
            (λ m key value known.
              Marks-encrypted_sapling_round lib names keys d sapling master_key m key value known
                (IsKnown-meta_key (codes "sapzkeymeta") refl key))
            [] (Handles-encrypted_sapling_round lib names keys d sapling master_key)
      Does-encrypted_sapling_keys policy none =
          Does-first_name names keys d h (codes "csapzkey") (codes "sapzkeymeta") (
            Does-then_pure names keys d h (codes "csapzkey" ∷ codes "sapzkeymeta" ∷ []) [] (
              Does-skip_or_reject_encrypted names keys d h policy
                (codes "csapzkey" ∷ codes "sapzkeymeta" ∷ []) (refl, (refl, tt))))

      Does-plain_sapling_keys :
          Does names keys d h (codes "sapzkey" ∷ []) (plain_sapling_keys sapling lib names keys d)
      unfolding plain_sapling_keys contains bytes_eq
      Does-plain_sapling_keys =
          Does-checked names keys d h (codes "sapzkey") (codes "sapzkeymeta") refl _ _
            (λ records q.
              Marks-for_records IsKnown (sapling_key_round sapling lib names keys d)
                (λ m key value known.
                  Marks-sapling_key_round lib names keys d sapling m key value known
                    (IsKnown-meta_key (codes "sapzkeymeta") refl key))
                records [] q)
            (λ records k q c.
              Handles-loop IsKnown keys (sapling_key_round sapling lib names keys d)
                (λ m key value known.
                  Marks-sapling_key_round lib names keys d sapling m key value known
                    (IsKnown-meta_key (codes "sapzkeymeta") refl key))
                (Handles-sapling_key_round lib names keys d sapling) records [] k q c)

      pub Does-parse_sapling_keys :
          (policy : EncryptedKeyPolicy) (master_key : Option Bytes)
          → Does names keys d h
              (codes "sapzkey" ∷ codes "csapzkey" ∷ [])
              (parse_sapling_keys sapling lib names keys d policy master_key)
      unfolding parse_sapling_keys
      Does-parse_sapling_keys policy master_key =
          Does-two names keys d h (codes "sapzkey") (codes "csapzkey")
            (λ a b. rw (a, b) (Does-raise names keys d h _ _))
            (λ a b. rw (a, b) Does-plain_sapling_keys)
            (λ a b. rw (a, b) (Does-encrypted_sapling_keys policy master_key))
            (λ a b. rw (a, b) (Marks-pure IsKnown []))

    Does-plain_sprout_keys :
        Does names keys d h (codes "zkey" ∷ []) (plain_sprout_keys lib names keys d)
    unfolding plain_sprout_keys contains bytes_eq
    Does-plain_sprout_keys =
        Does-checked names keys d h (codes "zkey") (codes "zkeymeta") refl _ _
          (λ records q.
            Marks-bind IsKnown _
              (Marks-for_records IsKnown (sprout_key_round lib names keys d)
                (λ m key value known.
                  Marks-sprout_key_round lib names keys d m key value known
                    (IsKnown-meta_key (codes "zkeymeta") refl key))
                records [] q)
              (λ m. Marks-pure IsKnown (some m)))
          (λ records k q c.
            Handles-first k _
              (Handles-loop IsKnown keys (sprout_key_round lib names keys d)
                (λ m key value known.
                  Marks-sprout_key_round lib names keys d m key value known
                    (IsKnown-meta_key (codes "zkeymeta") refl key))
                (Handles-sprout_key_round lib names keys d) records [] k q c)
              (λ m. Shrinks-pure (some m)))

    Does-encrypted_sprout_keys :
        (policy : EncryptedKeyPolicy)
        → Does names keys d h (codes "czkey" ∷ []) (encrypted_sprout_keys lib names keys d policy)
    unfolding encrypted_sprout_keys contains bytes_eq
    Does-encrypted_sprout_keys policy =
        Does-if names keys d h _ _
          (Does-first_name names keys d h (codes "czkey") (codes "zkeymeta") (
            Does-then_pure names keys d h (codes "czkey" ∷ codes "zkeymeta" ∷ []) none (
              Does-mark_records_parsed names keys d h (codes "czkey" ∷ codes "zkeymeta" ∷ [])
                (refl, (refl, tt)))))
          (Does-raise names keys d h _ _)

    pub Does-parse_sprout_keys :
        (policy : EncryptedKeyPolicy)
        → Does names keys d h
            (codes "zkey" ∷ codes "czkey" ∷ [])
            (parse_sprout_keys lib names keys d policy)
    unfolding parse_sprout_keys
    Does-parse_sprout_keys policy =
        Does-two names keys d h (codes "zkey") (codes "czkey")
          (λ a b. rw (a, b) (Does-raise names keys d h _ _))
          (λ a b. rw (a, b) Does-plain_sprout_keys)
          (λ a b.
            rw a (
              Does-allowed names keys d h (codes "czkey") none (Does-encrypted_sprout_keys policy)))
          (λ a b. rw (a, b) (Marks-pure IsKnown none))
