-- ===== src/Migrate/Transparent/Laws.antt =====
-- The spend authority of a transparent address is that of its first key, whatever else the wallet
-- says of the address.
use zewif_zcashd.Base.{
  ◌≡◌, refl, ap, ◌∙◌, sym, Bool, false, List, [], ◌∷◌, Option, none, some, ok, bind-eq-ok,
  if◌then◌else◌, inl, inr, Bool-cases,
}
use zewif_zcashd.Base.Bytes.{eq_bytes, bytes_eq, bytes_eq_iff}
use zewif_zcashd.Base.HashMap
use zewif_zcashd.Base.HashMap.{get-insert}
use zewif_zcashd.Wire.Parser.{Bytes}
use zewif_zcashd.Wallet.Transparent.{KeyPair}
use zewif_zcashd.Wallet.Transparent.WatchScript.{
  WatchScript, WatchScriptKind, p2pk, p2pkh, p2sh, other,
}
use zewif_zcashd.Migrate.Transparent.{
  SpendAuthority, KeyScope, TransparentInfo, TransparentLibrary, get_or_insert, or_no_info,
  update_info, with_authority, with_pubkey, as_foreign, with_script, or_invalid,
  transparent_spend_info, add_keypairs, watch_pubkey, watch_info, add_watch_scripts,
  add_redeem_scripts,
}

abbrev pub or_else : {A : Type 0} → Option A → Option A → Option A
or_else none o = o
or_else (some a) o = some a

insert-or_else :
    {A : Type 0} (a : A) (o rest : Option A) → or_else (get_or_insert a o) rest ≡ or_else o (some a)
insert-or_else a none rest = refl
insert-or_else a (some b) rest = refl

or_else-none : {A : Type 0} (o : Option A) → or_else o none ≡ o
or_else-none none = refl
or_else-none (some a) = refl

module _ {Account Address PublicKey PubKey : Type 0}
    (lib : TransparentLibrary Account Address PublicKey PubKey) where
  -- The authority of an address among the entries.
  abbrev pub authority_of : Option (TransparentInfo PubKey) → Option SpendAuthority
  authority_of none = none
  authority_of (some info) = info.spend_authority

  abbrev pub authority_at : Bytes → List (Bytes × TransparentInfo PubKey) → Option SpendAuthority
  authority_at address entries = authority_of (HashMap.get address entries)

  abbrev pub is_at : Bytes → Option PublicKey → Bool
  is_at address none = false
  is_at address (some pk) = bytes_eq (lib.p2pkh_of pk) address

  -- The authority of the first key of an address.
  unfoldable pub first_authority : Bytes → List KeyPair → Option SpendAuthority
  first_authority address [] = none
  first_authority address (keypair ∷ keypairs) =
      if is_at address (lib.from_slice keypair.pubkey)
      then some (transparent_spend_info keypair).0
      else first_authority address keypairs

  authority_of-or_no_info :
      (o : Option (TransparentInfo PubKey)) → (or_no_info lib o).spend_authority ≡ authority_of o
  authority_of-or_no_info none = refl
  authority_of-or_no_info (some info) = refl

  -- What leaves the authority of an entry alone leaves all authorities alone.
  update_info-keeps :
      (a b : Bytes) (f : TransparentInfo PubKey → TransparentInfo PubKey)
      (entries : List (Bytes × TransparentInfo PubKey))
      → ((info : TransparentInfo PubKey) → (f info).spend_authority ≡ info.spend_authority)
      → authority_at a (update_info lib b f entries) ≡ authority_at a entries
  unfolding update_info
  update_info-keeps a b f entries keeps =
      ap authority_of (get-insert b a _ entries) ∙ elim (Bool-cases (bytes_eq b a)) [
        | inl here ↦
            let at : b ≡ a = (bytes_eq_iff b a).0 here in
            rw (here, at)
              (keeps (or_no_info lib (HashMap.get a entries))
                ∙ authority_of-or_no_info (HashMap.get a entries))
        | inr away ↦ rw away refl
      ]

  with_pubkey-keeps :
      (o : Option PubKey) (info : TransparentInfo PubKey)
      → (with_pubkey lib o info).spend_authority ≡ info.spend_authority
  with_pubkey-keeps none info = refl
  with_pubkey-keeps (some pubkey) info = refl

  watch_pubkey-keeps :
      (a pubkey : Bytes) (o : Option PublicKey) (entries : List (Bytes × TransparentInfo PubKey))
      → authority_at a (watch_pubkey lib o pubkey entries) ≡ authority_at a entries
  watch_pubkey-keeps a pubkey none entries = refl
  watch_pubkey-keeps a pubkey (some pk) entries =
      update_info-keeps a (lib.p2pkh_of pk) _ entries
        (λ info. with_pubkey-keeps (lib.pub_key_from_bytes pubkey) info)

  watch_info-keeps :
      (a : Bytes) (kind : WatchScriptKind) (entries : List (Bytes × TransparentInfo PubKey))
      → authority_at a (watch_info lib kind entries) ≡ authority_at a entries
  unfolding watch_info
  watch_info-keeps a (p2pk pubkey) entries =
      watch_pubkey-keeps a pubkey (lib.from_slice pubkey) entries
  watch_info-keeps a (p2pkh key_id) entries =
      update_info-keeps a (lib.key_id_string key_id) (as_foreign lib) entries (λ info. refl)
  watch_info-keeps a (p2sh script_id) entries =
      update_info-keeps a (lib.script_id_string script_id) (as_foreign lib) entries (λ info. refl)
  watch_info-keeps a (other script) entries = refl

  add_watch_scripts-keeps :
      (a : Bytes) (scripts : List WatchScript) (entries : List (Bytes × TransparentInfo PubKey))
      → authority_at a (add_watch_scripts lib scripts entries) ≡ authority_at a entries
  unfolding add_watch_scripts
  add_watch_scripts-keeps a [] entries = refl
  add_watch_scripts-keeps a (watch ∷ scripts) entries =
      add_watch_scripts-keeps a scripts (watch_info lib watch.kind entries)
      ∙ watch_info-keeps a watch.kind entries

  add_redeem_scripts-keeps :
      (a : Bytes) (scripts : List (Bytes × Bytes)) (entries : List (Bytes × TransparentInfo PubKey))
      → authority_at a (add_redeem_scripts lib scripts entries) ≡ authority_at a entries
  unfolding add_redeem_scripts
  add_redeem_scripts-keeps a [] entries = refl
  add_redeem_scripts-keeps a ((script_id, script) ∷ scripts) entries =
      add_redeem_scripts-keeps a scripts _
      ∙ update_info-keeps a (lib.script_id_string script_id)
          (λ info. as_foreign lib (with_script lib script info)) entries (λ info. refl)

  with_authority-sets :
      (spend : SpendAuthority × KeyScope) (info : TransparentInfo PubKey)
      → (with_authority lib spend info).spend_authority ≡ get_or_insert spend.0 info.spend_authority
  with_authority-sets (authority, scope) info = refl

  add_keypair-authority :
      (a b : Bytes) (spend : SpendAuthority × KeyScope)
      (entries : List (Bytes × TransparentInfo PubKey)) (rest : Option SpendAuthority)
      → or_else (authority_at a (update_info lib b (with_authority lib spend) entries)) rest
        ≡ or_else (authority_at a entries) (if bytes_eq b a then some spend.0 else rest)
  unfolding update_info
  add_keypair-authority a b spend entries rest =
      ap (λ o. or_else (authority_of o) rest) (get-insert b a _ entries)
      ∙ elim (Bool-cases (bytes_eq b a)) [
        | inl here ↦
            let at : b ≡ a = (bytes_eq_iff b a).0 here in
            let info = or_no_info lib (HashMap.get a entries) in
            rw (here, at)
              (ap (λ o. or_else o rest)
                  (with_authority-sets spend info
                    ∙ ap (λ o. get_or_insert spend.0 o)
                        (authority_of-or_no_info (HashMap.get a entries)))
                ∙ insert-or_else spend.0 (authority_at a entries) rest)
        | inr away ↦ rw away refl
      ]

  is_at-eq-ok :
      (a : Bytes) (o : Option PublicKey) (pk : PublicKey)
      → or_invalid lib o ≡ ok pk
      → is_at a o ≡ bytes_eq (lib.p2pkh_of pk) a
  is_at-eq-ok a none pk e = absurd (cc)
  is_at-eq-ok a (some pk') pk e = cc

  add_keypairs-authority :
      (a : Bytes) (keypairs : List KeyPair)
      (entries entries' : List (Bytes × TransparentInfo PubKey))
      → add_keypairs lib keypairs entries ≡ ok entries'
      → authority_at a entries' ≡ or_else (authority_at a entries) (first_authority a keypairs)
  unfolding add_keypairs first_authority
  add_keypairs-authority a [] entries entries' e =
      let same : entries' ≡ entries = cc in
      ap (λ l. authority_at a l) same ∙ sym (or_else-none (authority_at a entries))
  add_keypairs-authority a (keypair ∷ keypairs) entries entries' e =
      let (pk, e₁, e₂) = bind-eq-ok (or_invalid lib (lib.from_slice keypair.pubkey)) _ e in
      let here = is_at-eq-ok a (lib.from_slice keypair.pubkey) pk e₁ in
      add_keypairs-authority a keypairs _ entries' e₂
      ∙ add_keypair-authority a (lib.p2pkh_of pk) (transparent_spend_info keypair) entries
          (first_authority a keypairs)
      ∙ rw here refl

  -- Where the keys of the wallet give entries, the spend authority that an address has after the
  -- watch-only scripts and the redeem scripts are added is that of the first key of this address,
  -- and none where no key is.
  pub entries-authority :
      (keypairs : List KeyPair) (watch_scripts : List WatchScript) (cscripts : List (Bytes × Bytes))
      (entries : List (Bytes × TransparentInfo PubKey))
      → add_keypairs lib keypairs [] ≡ ok entries
      → (a : Bytes)
      → authority_at a
          (add_redeem_scripts lib cscripts (add_watch_scripts lib watch_scripts entries))
        ≡ first_authority a keypairs
  unfolding HashMap.get
  entries-authority keypairs watch_scripts cscripts entries e a =
      add_redeem_scripts-keeps a cscripts _
      ∙ add_watch_scripts-keeps a watch_scripts entries
      ∙ add_keypairs-authority a keypairs [] entries e
