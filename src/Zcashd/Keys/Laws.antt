-- ===== src/Zcashd/Keys/Laws.antt =====
-- Which keys `mark_records_parsed` and a skipped parse take off the unparsed keys, and what the decrypted
-- keys satisfy.
use zewif_zcashd.Base.{
  ◌≡◌, refl, ap, ◌∙◌, subst, Bool, true, false, ◌&&◌, ◌||◌, List, [], ◌∷◌, inl, inr, Bool-cases,
  Option, none, ok, bind, bind-eq-ok, if◌then◌else◌, length, ◌==◌, ==_iff, All,
}
use zewif_zcashd.Base.Bytes.{codes, eq_bytes, bytes_eq, bytes_eq_iff}
use zewif_zcashd.Base.HashMap.{insert, contains}
use zewif_zcashd.Base.BTreeMap.{Ord, same, contains_key}
use zewif_zcashd.Wire.Parser.{Bytes}
use zewif_zcashd.Wallet.Meta.{KeyMetadata}
use zewif_zcashd.Wire.Collections.{data_bytes}
use zewif_zcashd.Wallet.Crypto.{decrypt_secret}
use zewif_zcashd.Wallet.Transparent.{pub_key, KeyPair, from_decrypted_scalar, der_blob_from_scalar}
use zewif_zcashd.Wallet.Transparent.Der.{secp256k1_scalar}
use zewif_zcashd.Wallet.Transparent.Der.Sec1.{secp256k1_scalar-der_blob_from_scalar}
use zewif_zcashd.Dump.{DbKey, DbValue, ZcashdDump}
use zewif_zcashd.Dump.Index.{IsIndexed}
use zewif_zcashd.Zcashd.State.{
  eq_key, EncryptedKeyPolicy, skip, has_keys, records_of, mark_records_parsed,
  skip_or_reject_encrypted, parse_in, of_decryption,
}
use zewif_zcashd.Zcashd.Effects.{mark_keys_parsed-exact, for_records-invariant}
use zewif_zcashd.Zcashd.Effects.Names.{records_of-exact, records_of-none}
use zewif_zcashd.Zcashd.Keys.{
  Libraries, derived_pubkey_matches, metadata_of, mark_both, recovered, sha256d,
  encrypted_key_round, parse_encrypted_keys, encrypted_keys, parse_keys,
}

merge :
    (a b c x : Bool)
    → (if b && c then false else if a && c then false else x) ≡ (if (a || b) && c then false else x)
merge true true true x = refl
merge true false true x = refl
merge false b c x = refl
merge true true false x = refl
merge true false false x = refl

drop_other :
    (a b c x : Bool)
    → (a && c) ≡ false
    → (if b && c then false else x) ≡ (if (a || b) && c then false else x)
drop_other true true c x h = refl
drop_other true false c x h = rw h refl
drop_other false b c x h = refl

module _ (names : Ord Bytes) (keys : Ord DbKey) (d : ZcashdDump) where
  -- Whether a name is among some.
  unfoldable pub among : Bytes → List Bytes → Bool
  among n [] = false
  among n (m ∷ ms) = same names n m || among n ms

  -- In a dump with a right index mark_records_parsed succeeds for any names, and takes off the
  -- unparsed keys exactly the keys of the dump that have one of these names.
  pub mark_records_parsed-exact :
      (keynames : List Bytes) (s : List DbKey)
      → IsIndexed names keys d
      → (s' : List DbKey) × (mark_records_parsed names keys d keynames s ≡ ok (tt, s'))
        × ((k : DbKey)
            → contains k s' ≡ (
                if among k.keyname keynames && contains_key keys k d.records
                then false
                else contains k s))
  unfolding mark_records_parsed among
  mark_records_parsed-exact [] s h = (s, refl, λ k. refl)
  mark_records_parsed-exact (n ∷ ns) s h = elim (Bool-cases (has_keys names keys d n)) [
    | inl has ↦
        let (records, e, members) = records_of-exact names keys d n h has in
        let (s₁, e₁, all₁) = mark_keys_parsed-exact keys records s in
        let (s₂, e₂, all₂) = mark_records_parsed-exact ns s₁ h in
        (
          s₂,
          rw (has, e, e₁) e₂,
          λ k.
              all₂ k
              ∙ rw (all₁ k, members k)
                  (merge (same names k.keyname n) (among k.keyname ns)
                    (contains_key keys k d.records) (contains k s)),
        )
    | inr away ↦
        let (s', e, all) = mark_records_parsed-exact ns s h in
        (
          s',
          rw away e,
          λ k.
              all k
              ∙ drop_other (same names k.keyname n) (among k.keyname ns)
                  (contains_key keys k d.records) (contains k s)
                  (records_of-none names keys d n h away k),
        )
  ]

  parse_keys-encrypted :
      (lib : Libraries) (policy : EncryptedKeyPolicy) (master_key : Option Bytes) (s : List DbKey)
      → has_keys names keys d (codes "ckey") ≡ true
      → has_keys names keys d (codes "key") ≡ false
      → parse_keys lib names keys d policy master_key s
        ≡ encrypted_keys lib names keys d policy master_key s
  unfolding parse_keys
  parse_keys-encrypted lib policy master_key s c k = rw (k, c) refl

  encrypted_keys-skip :
      (lib : Libraries) (s s' : List DbKey)
      → mark_records_parsed names keys d (codes "ckey" ∷ codes "keymeta" ∷ []) s ≡ ok (tt, s')
      → encrypted_keys lib names keys d skip none s ≡ ok ([], s')
  unfolding encrypted_keys skip_or_reject_encrypted
  encrypted_keys-skip lib s s' e =
      ap (λ r. bind {B = List (Bytes × KeyPair) × List DbKey} r (λ (u, t). ok ([], t))) e

  -- Under the policy to skip, with ckey and no key records in a dump with a right index and without
  -- a master key, parse_keys returns no keys, and takes exactly the ckey and keymeta keys of the
  -- dump off the unparsed keys.
  pub parse_keys-skip :
      (lib : Libraries) (s : List DbKey)
      → IsIndexed names keys d
      → has_keys names keys d (codes "ckey") ≡ true
      → has_keys names keys d (codes "key") ≡ false
      → (s' : List DbKey) × (parse_keys lib names keys d skip none s ≡ ok ([], s'))
        × ((k : DbKey)
            → contains k s' ≡ (
                if among k.keyname (codes "ckey" ∷ codes "keymeta" ∷ [])
                  && contains_key keys k d.records
                then false
                else contains k s))
  parse_keys-skip lib s h c k =
      let (s', e, all) = mark_records_parsed-exact (codes "ckey" ∷ codes "keymeta" ∷ []) s h in
      (s', parse_keys-encrypted lib skip none s c k ∙ encrypted_keys-skip lib s s' e, all)

module _ (lib : Libraries) where
  -- What a recovered key pair satisfies: its private key wraps 32 bytes that derive the public key it
  -- is filed under, and these are the scalar that the wrapped key gives back.
  abbrev pub IsRecovered : Bytes × KeyPair → Type 0
  IsRecovered (pubkey, pair) =
      (pair.pubkey ≡ pubkey)
      × ((scalar : Bytes) × (length scalar ≡ 32)
          × (derived_pubkey_matches lib scalar pubkey ≡ true)
          × (pair.privkey.der ≡ der_blob_from_scalar scalar)
          × (secp256k1_scalar pair.privkey.der ≡ ok scalar))

  IsRecovered-insert :
      (pubkey : Bytes) (pair : KeyPair) (m : List (Bytes × KeyPair))
      → IsRecovered (pubkey, pair)
      → All IsRecovered m
      → All IsRecovered (insert pubkey pair m)
  unfolding insert
  IsRecovered-insert pubkey pair [] r h = (r, tt)
  IsRecovered-insert pubkey pair ((k, p) ∷ m) r (first, h) = elim (Bool-cases (bytes_eq k pubkey)) [
    | inl here ↦ let at : k ≡ pubkey = (bytes_eq_iff k pubkey).0 here in rw (here, at) (r, h)
    | inr there ↦ rw there (first, IsRecovered-insert pubkey pair m r h)
  ]

  from_decrypted_scalar-IsRecovered :
      (pubkey scalar : Bytes) (metadata : KeyMetadata)
      → length scalar ≡ 32
      → derived_pubkey_matches lib scalar pubkey ≡ true
      → IsRecovered (pubkey, from_decrypted_scalar lib.sha256 pubkey scalar metadata)
  unfolding from_decrypted_scalar
  from_decrypted_scalar-IsRecovered pubkey scalar metadata size matches =
      (refl, (scalar, size, matches, refl, secp256k1_scalar-der_blob_from_scalar scalar size))

  module _ (names : Ord Bytes) (keys : Ord DbKey) (d : ZcashdDump) (master_key : Bytes) where
    recovered-eq-ok :
        (pubkey scalar : Bytes) (metadata : KeyMetadata) (key : DbKey)
        (m m' : List (Bytes × KeyPair)) (s s' : List DbKey)
        → All IsRecovered m
        → recovered lib names keys d pubkey scalar metadata key m s ≡ ok (m', s')
        → All IsRecovered m'
    unfolding recovered
    recovered-eq-ok pubkey scalar metadata key m m' s s' h e =
        elim (Bool-cases (length scalar == 32)) [
          | inr other ↦ let bad = rw other at e in absurd (cc)
          | inl size ↦ elim (Bool-cases (derived_pubkey_matches lib scalar pubkey)) [
            | inr other ↦ let bad = rw (size, other) at e in absurd (cc)
            | inl matches ↦
                let pair : KeyPair = from_decrypted_scalar lib.sha256 pubkey scalar metadata in
                let ((u, s₁), e₁, e₂) =
                  bind-eq-ok (mark_both lib names keys d (codes "keymeta") key s) _
                    (rw (size, matches) at e) in
                let is : insert pubkey pair m ≡ m' = cc in
                subst (All IsRecovered) is (
                  IsRecovered-insert pubkey pair m
                    (from_decrypted_scalar-IsRecovered pubkey scalar metadata ((==_iff _ _).0 size)
                      matches)
                    h)
          ]
        ]

    encrypted_key_round-IsRecovered :
        (m m' : List (Bytes × KeyPair)) (key : DbKey) (value : DbValue) (s s' : List DbKey)
        → All IsRecovered m
        → encrypted_key_round lib names keys d master_key m key value s ≡ ok (m', s')
        → All IsRecovered m'
    unfolding encrypted_key_round
    encrypted_key_round-IsRecovered m m' key value s s' h e =
        let ((pubkey, s₁), a₁, e₁) = bind-eq-ok (parse_in "pubkey" pub_key key.key_data s) _ e in
        let ((ciphertext, s₂), a₂, e₂) =
          bind-eq-ok (parse_in "ckey ciphertext" data_bytes value s₁) _ e₁ in
        let ((metadata, s₃), a₃, e₃) =
          bind-eq-ok (metadata_of lib names keys d (codes "keymeta") key s₂) _ e₂ in
        let ((scalar, s₄), a₄, e₄) =
          bind-eq-ok
            (of_decryption
              (decrypt_secret lib.decrypt_padded master_key ciphertext (sha256d lib pubkey)) s₃)
            _ e₃ in
        recovered-eq-ok pubkey scalar metadata key m m' s₄ s' h e₄

    -- Every key pair that a success of parse_encrypted_keys returns, for any libraries, dump,
    -- master key and unparsed keys, has the public key it is filed under, and its private key wraps
    -- a scalar of 32 bytes that derives this public key and that secp256k1_scalar gives back from
    -- the wrapping.
    pub parse_encrypted_keys-IsRecovered :
        (s s' : List DbKey) (m : List (Bytes × KeyPair))
        → parse_encrypted_keys lib names keys d master_key s ≡ ok (m, s')
        → All IsRecovered m
    unfolding parse_encrypted_keys
    parse_encrypted_keys-IsRecovered s s' m e =
        let ((records, s₁), e₁, e₂) = bind-eq-ok (records_of names keys d (codes "ckey") s) _ e in
        for_records-invariant (All IsRecovered) (encrypted_key_round lib names keys d master_key)
          (λ a a' key value t t' h f. encrypted_key_round-IsRecovered a a' key value t t' h f)
          records [] m s₁ s' tt e₂
