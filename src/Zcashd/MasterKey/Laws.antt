-- ===== src/Zcashd/MasterKey/Laws.antt =====
-- What is marked where an encrypted wallet is skipped, and what it takes to decrypt one.
use zewif_zcashd.Base.{
  ◌≡◌, refl, ap, ◌∙◌, subst, true, false, ◌&&◌, List, [], ◌∷◌, inl, inr, Bool-cases, Option, none,
  some, Option-cases, Result, ok, err, bind, bind-eq-ok, if◌then◌else◌,
}
use zewif_zcashd.Base.Bytes.{codes}
use zewif_zcashd.Base.BTreeMap.{Ord, same, contains_key}
use zewif_zcashd.Base.HashMap.{contains}
use zewif_zcashd.Wire.Parser.{Bytes, new}
use zewif_zcashd.Wallet.Crypto.{decrypt_master_key, DecryptionError, MasterKeyParams}
use zewif_zcashd.Dump.{DbKey, DbValue, ZcashdDump}
use zewif_zcashd.Dump.Index.{IsIndexed}
use zewif_zcashd.Zcashd.State.{
  eq_key, decrypt_with, skip, of_parse, has_keys, records_of, mark_keys_parsed,
}
use zewif_zcashd.Zcashd.Effects.{mark_keys_parsed-exact}
use zewif_zcashd.Zcashd.Effects.Names.{records_of-exact}
use zewif_zcashd.Zcashd.Keys.{Libraries}
use zewif_zcashd.Zcashd.MasterKey.{
  derive_master_key, try_records, candidate, accept, master_key_verifies, master_key_params,
}

module _ (lib : Libraries) (names : Ord Bytes) (keys : Ord DbKey) (d : ZcashdDump) where
  -- Under the policy to skip, in a dump with mkey records and a right index, derive_master_key
  -- succeeds without a master key, and takes exactly the mkey keys of the dump off the unparsed
  -- keys.
  pub derive_master_key-skip :
      (s : List DbKey)
      → IsIndexed names keys d
      → has_keys names keys d (codes "mkey") ≡ true
      → (s' : List DbKey) × (derive_master_key lib names keys d skip s ≡ ok (none, s'))
        × ((k : DbKey)
            → contains k s' ≡ (
                if same names k.keyname (codes "mkey") && contains_key keys k d.records
                then false
                else contains k s))
  unfolding derive_master_key
  derive_master_key-skip s h has =
      let (records, e, members) = records_of-exact names keys d (codes "mkey") h has in
      let (s', e', all) = mark_keys_parsed-exact keys records s in
      (s', rw (has, e, e') refl, λ k. rw (← members k) (all k))

  -- What it takes for a candidate to be returned.
  pub Accepted : (passphrase master_key : Bytes) → Type 0
  Accepted passphrase master_key =
      ((params : MasterKeyParams) × (decrypt_master_key lib.decrypt_padded lib.sha512 params
            passphrase
          ≡ ok master_key))
      × ((s : List DbKey) × (s' : List DbKey) × (master_key_verifies lib names keys d master_key s
            ≡ ok (true, s')))

  candidate-eq-some :
      (r : Result DecryptionError Bytes) (s s' : List DbKey) (mk : Bytes)
      → candidate lib names keys d r s ≡ ok (some mk, s')
      → (r ≡ ok mk)
        × ((s' : List DbKey) × (master_key_verifies lib names keys d mk s ≡ ok (true, s')))
  unfolding candidate
  candidate-eq-some (ok key) s s' mk e =
      let ((verified, s₁), e₁, e₂) = bind-eq-ok (master_key_verifies lib names keys d key s) _ e in
      elim (Bool-cases verified) [
        | inl v ↦
            let done = rw v at e₂ in
            let is : key ≡ mk = cc in
            (
              ap ok is,
              (
                s₁,
                subst (λ k. master_key_verifies lib names keys d k s ≡ ok (true, s₁)) is
                    (e₁ ∙ ap (λ b. ok (b, s₁)) v),
              ),
            )
        | inr v ↦ let done = rw v at e₂ in absurd (cc)
      ]
  candidate-eq-some (err (DecryptionError.unsupported_derivation_method m)) s s' mk e = absurd (cc)
  candidate-eq-some (err (DecryptionError.invalid_master_key_params m)) s s' mk e = absurd (cc)
  candidate-eq-some (err (DecryptionError.short_initialization_vector m)) s s' mk e = absurd (cc)
  candidate-eq-some (err DecryptionError.decrypt) s s' mk e = absurd (cc)
  candidate-eq-some (err (DecryptionError.master_key_length m)) s s' mk e = absurd (cc)
  candidate-eq-some Result.panic s s' mk e = absurd (cc)

  try_records-eq-ok :
      (passphrase : Bytes) (all rest : List (DbKey × DbValue)) (s s' : List DbKey)
      (found : Option Bytes)
      → try_records lib names keys d passphrase all rest s ≡ ok (found, s')
      → (mk : Bytes) × (found ≡ some mk) × Accepted passphrase mk
  unfolding try_records accept Accepted
  try_records-eq-ok passphrase all [] s s' found e = absurd (cc)
  try_records-eq-ok passphrase all ((key, value) ∷ rest) s s' found e =
      let ((params, s₁), e₁, e₂) =
        bind-eq-ok (of_parse (bind (master_key_params (new value)) (λ (p, t). ok p)) s) _ e in
      let ((r, s₂), e₃, e₄) =
        bind-eq-ok
          (candidate lib names keys d
            (decrypt_master_key lib.decrypt_padded lib.sha512 params passphrase) s₁)
          _ e₂ in
      elim (Option-cases r) [
        | inl nothing ↦ try_records-eq-ok passphrase all rest s₂ s' found (rw nothing at e₄)
        | inr (mk, some_key) ↦
            let ((u, s₃), e₅, e₆) = bind-eq-ok (mark_keys_parsed all s₂) _ (rw some_key at e₄) in
            let (decrypts, (s₄, verifies)) =
              candidate-eq-some _ s₁ s₂ mk (e₃ ∙ ap (λ o. ok (o, s₂)) some_key) in
            (mk, cc, ((params, decrypts), (s₁, s₄, verifies)))
      ]

  -- With a passphrase and an mkey record, whatever derive_master_key returns is a master key, which
  -- decrypt_master_key gives for the passphrase and some parameters, and which master_key_verifies
  -- accepts.
  pub derive_master_key-decrypt :
      (passphrase : Bytes) (s s' : List DbKey) (found : Option Bytes)
      → has_keys names keys d (codes "mkey") ≡ true
      → derive_master_key lib names keys d (decrypt_with passphrase) s ≡ ok (found, s')
      → (mk : Bytes) × (found ≡ some mk) × Accepted passphrase mk
  unfolding derive_master_key
  derive_master_key-decrypt passphrase s s' found has e =
      let run = rw has at e in
      let ((records, s₁), e₁, e₂) = bind-eq-ok (records_of names keys d (codes "mkey") s) _ run in
      try_records-eq-ok passphrase records records s₁ s' found e₂
