-- ===== src/Zcashd/Wallet/Unlocking.antt =====
-- What the derivation of the master key does to the set of unparsed keys.
use zewif_zcashd.Base.{◌≡◌, refl, true, List, [], ◌∷◌, inl, inr, Bool-cases, Option, none, some}
use zewif_zcashd.Base.Bytes.{codes, bytes_eq, eq_bytes}
use zewif_zcashd.Base.HashMap.{contains}
use zewif_zcashd.Base.BTreeMap.{Ord, contains_key}
use zewif_zcashd.Wire.Parser.{Bytes}
use zewif_zcashd.Dump.{DbKey, DbValue, ZcashdDump}
use zewif_zcashd.Dump.Index.{IsIndexed}
use zewif_zcashd.Zcashd.State.{Z, eq_key, EncryptedKeyPolicy, reject, skip, decrypt_with, has_keys}
use zewif_zcashd.Zcashd.Keys.{Libraries}
use zewif_zcashd.Zcashd.MasterKey.{accept, try_records, derive_master_key}
use zewif_zcashd.Zcashd.Effects.{
  Handles, Handles-raise, Handles-first, Handles-then, Handles-mark_keys_parsed, Shrinks-pure,
}
use zewif_zcashd.Zcashd.Effects.Marks.{Named}
use zewif_zcashd.Zcashd.Wallet.Known.{Does, Named-absent, Handles-read}
use zewif_zcashd.Zcashd.Wallet.Singles.{Marks-derive_master_key}

module _ (lib : Libraries) (names : Ord Bytes) (keys : Ord DbKey) (d : ZcashdDump) where
  Handles-accept :
      (all : List (DbKey × DbValue)) (found : Option Bytes) (next : Z (Option Bytes)) (k : DbKey)
      → contains_key keys k all ≡ true
      → Handles k next
      → Handles k (accept lib names keys d all found next)
  unfolding accept
  Handles-accept all none next k c g = g
  Handles-accept all (some master_key) next k c g =
      Handles-first k _ (Handles-mark_keys_parsed keys all k c)
        (λ u. Shrinks-pure (some master_key))

  -- Every candidate that is returned has marked all records before.
  Handles-try_records :
      (passphrase : Bytes) (all rest : List (DbKey × DbValue)) (k : DbKey)
      → contains_key keys k all ≡ true
      → Handles k (try_records lib names keys d passphrase all rest)
  unfolding try_records
  Handles-try_records passphrase all [] k c = Handles-raise k _
  Handles-try_records passphrase all ((key, value) ∷ rest) k c =
      let next = Handles-try_records passphrase all rest k c in
      let found = λ (o : Option Bytes). Handles-accept all o _ k c next in
      search (Handles-then, found)

  module _ (h : IsIndexed names keys d) where
    Handles-with_policy :
        (policy : EncryptedKeyPolicy) (k : DbKey)
        → has_keys names keys d (codes "mkey") ≡ true
        → Named keys d (codes "mkey" ∷ []) k
        → Handles k (derive_master_key lib names keys d policy)
    unfolding derive_master_key contains bytes_eq
    Handles-with_policy reject k has named = rw has (Handles-raise k _)
    Handles-with_policy skip k has named = rw has (
        Handles-read names keys d h (codes "mkey") refl k named λ records q c.
          Handles-first k _ (Handles-mark_keys_parsed keys records k c) (λ u. Shrinks-pure none))
    Handles-with_policy (decrypt_with passphrase) k has named = rw has (
        Handles-read names keys d h (codes "mkey") refl k named
          λ records q c. Handles-try_records passphrase records records k c)

    pub Does-derive_master_key :
        (policy : EncryptedKeyPolicy)
        → Does names keys d h (codes "mkey" ∷ []) (derive_master_key lib names keys d policy)
    Does-derive_master_key policy = record {
      marks = Marks-derive_master_key names keys d h lib policy;
      handles = λ k named. elim (Bool-cases (has_keys names keys d (codes "mkey"))) [
        | inl has ↦ Handles-with_policy policy k has named
        | inr away ↦
            let bad = Named-absent names keys d h (codes "mkey") k away named in absurd (cc)
      ];
    }
