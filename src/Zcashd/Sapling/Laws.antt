-- ===== src/Zcashd/Sapling/Laws.antt =====
-- What the decrypted Sapling keys satisfy.
use zewif_zcashd.Base.{
  ◌≡◌, refl, sym, subst, false, not, some, List, [], ◌∷◌, inl, inr, Bool-cases, Result, ok, err,
  panic, raise, bind, bind-eq-ok, map_err-eq-ok, lift-eq-ok, take, drop, if◌then◌else◌, ltb, length,
  All, String,
}
use zewif_zcashd.Base.Bytes.{codes, eq_bytes, bytes_eq, bytes_eq_iff}
use zewif_zcashd.Base.HashMap.{insert}
use zewif_zcashd.Base.BTreeMap.{Ord, get}
use zewif_zcashd.Dump.Index.{IsIndexed}
use zewif_zcashd.Zcashd.Effects.Marks.{records_for_keyname-members}
use zewif_zcashd.Wire.Error.{ParseError}
use zewif_zcashd.Wire.Parser.{Bytes, P, Parser, new, parse_buf}
use zewif_zcashd.Wallet.Meta.{KeyMetadata, key_metadata}
use zewif_zcashd.Wallet.Addresses.{sapling_ivk}
use zewif_zcashd.Wallet.Crypto.{decrypt_secret}
use zewif_zcashd.Dump.{DbKey, DbValue, ZcashdDump, value_for_key, records_for_keyname}
use zewif_zcashd.Zcashd.State.{
  parse_in, corrupted_encrypted_key, of_parse, of_decryption, of_dump, records_of,
}
use zewif_zcashd.Zcashd.Effects.{for_records-invariant_on}
use zewif_zcashd.Zcashd.Keys.{Libraries, mark_both, meta_key}
use zewif_zcashd.Zcashd.Sapling.{
  SaplingLibrary, SaplingKey, sapling_fvk_fingerprint, csapzkey_value, sapling_metadata, keep_key,
  encrypted_sapling_round, parse_encrypted_sapling_keys,
}

parse_in-eq-ok :
    {A : Type 0} (context : String) (p : P A) (buf : Bytes) (s s' : List DbKey) (a : A)
    → parse_in context p buf s ≡ ok (a, s')
    → parse_buf p buf false ≡ ok a
parse_in-eq-ok context p buf s s' a e = map_err-eq-ok _ _ (map_err-eq-ok _ _ (lift-eq-ok _ s e))

first-eq-ok :
    {A : Type 0} (r : Result ParseError (A × Parser)) (a : A)
    → bind r (λ (x, t). ok x) ≡ ok a
    → (t : Parser) × (r ≡ ok (a, t))
first-eq-ok (ok (x, t)) a e = (t, cc)
first-eq-ok (err e') a e = absurd (cc)
first-eq-ok panic a e = absurd (cc)

module _ {ExtSk ExtFvk : Type 0} (sapling : SaplingLibrary ExtSk ExtFvk) (lib : Libraries)
    (master_key : Bytes) where
  -- The fingerprint that zcashd takes as the initialisation vector.
  abbrev pub fingerprint_of : ExtFvk → Bytes
  fingerprint_of extfvk =
      sapling.blake2b (codes "ZcashSaplingFVFP") (take 96 (drop 41 (sapling.extfvk_bytes extfvk)))

  -- What the spending key of a csapzkey value satisfies.
  abbrev pub IsSealedIn : Bytes → ExtSk → Type 0
  IsSealedIn value extsk =
      (extfvk : ExtFvk) × ((ciphertext : Bytes) × ((plaintext : Bytes) × ((s : Parser)
            × (csapzkey_value sapling (new value) ≡ ok ((extfvk, ciphertext), s)))
          × (decrypt_secret lib.decrypt_padded master_key ciphertext (fingerprint_of extfvk)
              ≡ ok plaintext)
          × (parse_buf sapling.read_extsk plaintext false ≡ ok extsk)
          × (sapling.extfvk_bytes (sapling.to_extfvk extsk) ≡ sapling.extfvk_bytes extfvk)))

  fingerprint-eq-ok :
      (extfvk : ExtFvk) (s s' : List DbKey) (iv : Bytes)
      → sapling_fvk_fingerprint sapling extfvk s ≡ ok (iv, s')
      → fingerprint_of extfvk ≡ iv
  unfolding sapling_fvk_fingerprint
  fingerprint-eq-ok extfvk s s' iv e =
      elim (Bool-cases (ltb (length (sapling.extfvk_bytes extfvk)) 137)) [
        | inl short ↦ let bad = rw short at e in absurd (cc)
        | inr long ↦ let good = rw long at e in cc
      ]

  module _ (names : Ord Bytes) (keys : Ord DbKey) (d : ZcashdDump) where
    -- The metadata record of the same key data.
    abbrev pub HasMetadata : DbKey → KeyMetadata → Type 0
    HasMetadata key metadata =
        (binary : Bytes) × (value_for_key names keys d (meta_key (codes "sapzkeymeta") key)
          ≡ ok binary)
        × (parse_buf key_metadata binary false ≡ ok metadata)

    sapling_metadata-eq-ok :
        (key : DbKey) (metadata : KeyMetadata) (s s' : List DbKey)
        → sapling_metadata sapling lib names keys d key s ≡ ok (metadata, s')
        → HasMetadata key metadata
    sapling_metadata-eq-ok key metadata s s' e =
        let ((binary, s₁), e₁, e₂) =
          bind-eq-ok (of_dump (value_for_key names keys d (meta_key (codes "sapzkeymeta") key)) s) _
            e in
        (
          binary,
          map_err-eq-ok _ _ (lift-eq-ok _ s e₁),
          parse_in-eq-ok "sapzkeymeta metadata" key_metadata binary s₁ s' metadata e₂,
        )

    -- The record of the dump that the entry for an incoming viewing key comes from.
    abbrev pub IsUnsealed : Bytes × SaplingKey ExtSk → Type 0
    IsUnsealed (ivk, k) =
        (key : DbKey) × ((value : DbValue) × (key.keyname ≡ codes "csapzkey")
          × (get keys key d.records ≡ some value)
          × (parse_buf sapling_ivk key.key_data false ≡ ok ivk)
          × (k.ivk ≡ ivk)
          × IsSealedIn value k.extsk
          × HasMetadata key k.metadata)

    IsUnsealed-insert :
        (ivk : Bytes) (key : SaplingKey ExtSk) (m : List (Bytes × SaplingKey ExtSk))
        → IsUnsealed (ivk, key)
        → All IsUnsealed m
        → All IsUnsealed (insert ivk key m)
    unfolding insert
    IsUnsealed-insert ivk key [] r h = (r, tt)
    IsUnsealed-insert ivk key ((i, k) ∷ m) r (first, h) = elim (Bool-cases (bytes_eq i ivk)) [
      | inl here ↦ let at : i ≡ ivk = (bytes_eq_iff i ivk).0 here in rw (here, at) (r, h)
      | inr there ↦ rw there (first, IsUnsealed-insert ivk key m r h)
    ]

    keep_key-IsUnsealed :
        (ivk : Bytes) (extsk : ExtSk) (metadata : KeyMetadata) (key : DbKey)
        (m m' : List (Bytes × SaplingKey ExtSk)) (s s' : List DbKey)
        → All IsUnsealed m
        → IsUnsealed (ivk, record { ivk = ivk; extsk = extsk; metadata = metadata })
        → keep_key sapling lib names keys d ivk extsk metadata key m s ≡ ok (m', s')
        → All IsUnsealed m'
    keep_key-IsUnsealed ivk extsk metadata key m m' s s' h now e =
        let entry : SaplingKey ExtSk = record { ivk = ivk; extsk = extsk; metadata = metadata } in
        let ((u, s₁), e₁, e₂) =
          bind-eq-ok (mark_both lib names keys d (codes "sapzkeymeta") key s) _ e in
        let is : insert ivk entry m ≡ m' = cc in
        subst (All IsUnsealed) is (IsUnsealed-insert ivk entry m now h)

    -- The comparison of the viewing keys, and what follows it.
    checked-IsUnsealed :
        (ivk : Bytes) (extsk : ExtSk) (metadata : KeyMetadata) (key : DbKey) (value : DbValue)
        (extfvk : ExtFvk) (m m' : List (Bytes × SaplingKey ExtSk)) (s s' : List DbKey)
        → All IsUnsealed m
        → ((sapling.extfvk_bytes (sapling.to_extfvk extsk) ≡ sapling.extfvk_bytes extfvk)
            → IsUnsealed (ivk, record { ivk = ivk; extsk = extsk; metadata = metadata }))
        → (if not (
                bytes_eq
                  (sapling.extfvk_bytes (sapling.to_extfvk extsk))
                  (sapling.extfvk_bytes extfvk))
              then raise (corrupted_encrypted_key (codes "csapzkey"))
              else keep_key sapling lib names keys d ivk extsk metadata key m)
            s
          ≡ ok (m', s')
        → All IsUnsealed m'
    checked-IsUnsealed ivk extsk metadata key value extfvk m m' s s' h now e =
        elim (Bool-cases (
          bytes_eq (sapling.extfvk_bytes (sapling.to_extfvk extsk))
            (sapling.extfvk_bytes extfvk))) [
              | inr differ ↦ let bad = rw differ at e in absurd (cc)
              | inl equal ↦
                  keep_key-IsUnsealed ivk extsk metadata key m m' s s' h
                    (now ((bytes_eq_iff _ _).0 equal)) (rw equal at e)
            ]

    round-IsUnsealed :
        (m m' : List (Bytes × SaplingKey ExtSk)) (key : DbKey) (value : DbValue) (s s' : List DbKey)
        → key.keyname ≡ codes "csapzkey"
        → get keys key d.records ≡ some value
        → All IsUnsealed m
        → encrypted_sapling_round sapling lib names keys d master_key m key value s ≡ ok (m', s')
        → All IsUnsealed m'
    unfolding encrypted_sapling_round
    round-IsUnsealed m m' key value s s' named there h e =
        let ((ivk, s₁), a₁, e₁) = bind-eq-ok (parse_in "ivk" sapling_ivk key.key_data s) _ e in
        let (((extfvk, ciphertext), s₂), a₂, e₂) =
          bind-eq-ok (of_parse (bind (csapzkey_value sapling (new value)) (λ (a, t). ok a)) s₁) _
            e₁ in
        let ((metadata, s₃), a₃, e₃) =
          bind-eq-ok (sapling_metadata sapling lib names keys d key s₂) _ e₂ in
        let ((iv, s₄), a₄, e₄) = bind-eq-ok (sapling_fvk_fingerprint sapling extfvk s₃) _ e₃ in
        let ((plaintext, s₅), a₅, e₅) =
          bind-eq-ok (of_decryption (decrypt_secret lib.decrypt_padded master_key ciphertext iv) s₄)
            _ e₄ in
        let ((extsk, s₆), a₆, e₆) =
          bind-eq-ok (parse_in "sapling extended spending key" sapling.read_extsk plaintext s₅) _
            e₅ in
        let (t, read) = first-eq-ok _ _ (map_err-eq-ok _ _ (lift-eq-ok _ s₁ a₂)) in
        let filed : parse_buf sapling_ivk key.key_data false ≡ ok ivk =
          parse_in-eq-ok "ivk" sapling_ivk key.key_data s s₁ ivk a₁ in
        let plain : decrypt_secret lib.decrypt_padded master_key ciphertext (fingerprint_of extfvk)
            ≡ ok plaintext =
          subst (λ v. decrypt_secret lib.decrypt_padded master_key ciphertext v ≡ ok plaintext)
            (sym (fingerprint-eq-ok extfvk s₃ s₄ iv a₄)) (map_err-eq-ok _ _ (lift-eq-ok _ s₄ a₅)) in
        let spending : parse_buf sapling.read_extsk plaintext false ≡ ok extsk =
          parse_in-eq-ok "sapling extended spending key" sapling.read_extsk plaintext s₅ s₆ extsk
            a₆ in
        let about = sapling_metadata-eq-ok key metadata s₂ s₃ a₃ in
        checked-IsUnsealed ivk extsk metadata key value extfvk m m' s₆ s' h
          (λ equal. (
            key,
            (
              value,
              named,
              there,
              filed,
              refl,
              (extfvk, (ciphertext, (plaintext, (t, read), plain, spending, equal))),
              about,
            ),
          ))
          e₆

    -- In a dump with a right index, every Sapling key that a success of
    -- parse_encrypted_sapling_keys returns comes from a csapzkey record of the dump: the incoming
    -- viewing key that it has and is filed under is the record's key data; csapzkey_value reads the
    -- record's value as a viewing key and a ciphertext; the spending key is read off what
    -- decrypt_secret gives for this ciphertext under the viewing key's fingerprint, and derives a
    -- viewing key of the same bytes; and the metadata is that of the sapzkeymeta record with the
    -- same key data.
    pub parse_encrypted_sapling_keys-IsUnsealed :
        (s s' : List DbKey) (m : List (Bytes × SaplingKey ExtSk))
        → IsIndexed names keys d
        → parse_encrypted_sapling_keys sapling lib names keys d master_key s ≡ ok (m, s')
        → All IsUnsealed m
    unfolding parse_encrypted_sapling_keys
    parse_encrypted_sapling_keys-IsUnsealed s s' m indexed e =
        let ((records, s₁), e₁, e₂) =
          bind-eq-ok (records_of names keys d (codes "csapzkey") s) _ e in
        let found : records_for_keyname names keys d (codes "csapzkey") ≡ ok records =
          map_err-eq-ok _ _ (lift-eq-ok _ s e₁) in
        for_records-invariant_on
          (λ (key, value). (key.keyname ≡ codes "csapzkey") × (get keys key d.records ≡ some value))
          (All IsUnsealed) (encrypted_sapling_round sapling lib names keys d master_key)
          (λ a a' key value t t' (named, there) h f.
            round-IsUnsealed a a' key value t t' named there h f)
          records [] m s₁ s'
          (records_for_keyname-members names keys d (codes "csapzkey") records indexed found) tt e₂
