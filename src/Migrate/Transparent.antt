-- ===== src/Migrate/Transparent.antt =====
-- src/migrate/addresses.rs: the transparent addresses, with the key paths of src/migrate/accounts.rs.
pub mod Laws
use zewif_zcashd.Base.{
  ℕ, ◌+◌, ◌-◌, ◌*◌, ◌^◌, Bool, true, false, ◌&&◌, List, [], ◌∷◌, Option, none, some, Result, ok,
  err, bind, if◌then◌else◌, leb, ltb, ◌==◌, length,
}
use zewif_zcashd.Base.Bytes.{eq_bytes}
use zewif_zcashd.Base.HashMap
use zewif_zcashd.Base.BTreeMap.{Ord}
use zewif_zcashd.Wire.Parser.{Bytes}
use zewif_zcashd.Wallet.Meta.{Network}
use zewif_zcashd.Wallet.Transparent.{KeyPair}
use zewif_zcashd.Wallet.Transparent.WatchScript.{
  WatchScript, WatchScriptKind, p2pk, p2pkh, p2sh, other,
}
use zewif_zcashd.Migrate.State.{MigrateError, WalletAccounts, update_at, invalid_public_key}

-- The variants of the crate zewif that occur; a derivation is its change and its address index.
pub data KeyScope : Type 0 where
  external internal ephemeral foreign : KeyScope

pub data SpendAuthority : Type 0 where
  derived : (change address_index : ℕ) → SpendAuthority
  imported : SpendAuthority

unfoldable pub scope_for_change : ℕ → KeyScope
scope_for_change change =
    if change == 0
    then external
    else if change == 1
    then internal
    else if change == 2
    then ephemeral
    else external

-- `parse::<u32>()`: digits behind a `+` that may be absent, of a number below 2³².
unfoldable pub digits_value : ℕ → Bytes → Option ℕ
digits_value n [] = some n
digits_value n (c ∷ cs) =
    let m = n * 10 + (c - b'0') in
    let rest = digits_value m cs in
    if leb b'0' c && leb c b'9' && ltb m (2 ^ 32) then rest else none

abbrev pub unsigned_digits : Bytes → Option ℕ
unsigned_digits [] = none
unsigned_digits (c ∷ cs) = digits_value 0 (c ∷ cs)

unfoldable pub parse_u32 : Bytes → Option ℕ
unfolding digits_value
parse_u32 [] = none
parse_u32 (c ∷ cs) = if c == b'+' then unsigned_digits cs else unsigned_digits (c ∷ cs)

-- The last two of the parts between slashes, which `rsplit` gives first.
abbrev pub onto_part : ℕ → List Bytes → List Bytes
onto_part c [] = (c ∷ []) ∷ []
onto_part c (part ∷ parts) = (c ∷ part) ∷ parts

unfoldable pub split_path : Bytes → List Bytes
split_path [] = [] ∷ []
split_path (c ∷ cs) =
    let parts = split_path cs in if c == b'/' then [] ∷ parts else onto_part c parts

unfoldable pub last_two : List Bytes → Option (Bytes × Bytes)
last_two [] = none
last_two (a ∷ []) = none
last_two (a ∷ b ∷ []) = some (a, b)
last_two (a ∷ b ∷ c ∷ parts) = last_two (b ∷ c ∷ parts)

abbrev pub both_numbers : Option ℕ → Option ℕ → Option (ℕ × ℕ)
both_numbers none index = none
both_numbers (some change) none = none
both_numbers (some change) (some index) = some (change, index)

abbrev pub info_of : Option (Bytes × Bytes) → Option (ℕ × ℕ)
info_of none = none
info_of (some (change, index)) = both_numbers (parse_u32 change) (parse_u32 index)

-- The change and the address index.
unfoldable pub derivation_info_from_keypath : Bytes → Option (ℕ × ℕ)
unfolding parse_u32 split_path last_two
derivation_info_from_keypath keypath = info_of (last_two (split_path keypath))

abbrev pub spend_info_of : Option (ℕ × ℕ) → SpendAuthority × KeyScope
spend_info_of none = (imported, foreign)
spend_info_of (some (change, index)) = (derived change index, scope_for_change change)

abbrev pub path_info : Option Bytes → Option (ℕ × ℕ)
path_info none = none
path_info (some hd_path) = derivation_info_from_keypath hd_path

unfoldable pub transparent_spend_info : KeyPair → SpendAuthority × KeyScope
unfolding scope_for_change derivation_info_from_keypath
transparent_spend_info keypair = spend_info_of (path_info keypair.metadata.hd_keypath)

-- A redeem script is its bytes.
pub record TransparentInfo (PubKey : Type 0) : Type 0 where
  pub spend_authority : Option SpendAuthority
  pub scope : Option KeyScope
  pub redeem_script : Option Bytes
  pub pubkey : Option PubKey

abbrev pub no_info : {PubKey : Type 0} → TransparentInfo PubKey
no_info = record { spend_authority = none; scope = none; redeem_script = none; pubkey = none }

abbrev pub get_or_insert : {A : Type 0} → A → Option A → Option A
get_or_insert a none = some a
get_or_insert a (some b) = some b

-- secp256k1, the encodings of addresses, and the addresses and accounts of the crate zewif. The
-- addresses of key ids and script ids are for the wallet's network, and `p2pkh_of` is the address of a
-- public key. `to_address` sets the scope.
pub record TransparentLibrary (Account Address PublicKey PubKey : Type 0) : Type 0 where
  pub from_slice : Bytes → Option PublicKey
  pub p2pkh_of : PublicKey → Bytes
  pub key_id_string : Bytes → Bytes
  pub script_id_string : Bytes → Bytes
  pub pub_key_from_bytes : Bytes → Option PubKey
  pub new : Bytes → Address
  pub set_spend_authority : SpendAuthority → Address → Address
  pub set_pubkey : PubKey → Address → Address
  pub set_redeem_script : Bytes → Address → Address
  pub add_address : Address → KeyScope → Account → Account

module _ {Account Address PublicKey PubKey : Type 0}
    (lib : TransparentLibrary Account Address PublicKey PubKey) where
  abbrev pub or_no_info : Option (TransparentInfo PubKey) → TransparentInfo PubKey
  or_no_info none = no_info
  or_no_info (some info) = info

  -- `entries.entry(…).or_default()`, and what is done with the entry.
  unfoldable pub update_info :
      Bytes
      → (TransparentInfo PubKey → TransparentInfo PubKey)
      → List (Bytes × TransparentInfo PubKey)
      → List (Bytes × TransparentInfo PubKey)
  update_info address f entries =
      HashMap.insert address (f (or_no_info (HashMap.get address entries))) entries

  abbrev pub with_authority :
      SpendAuthority × KeyScope → TransparentInfo PubKey → TransparentInfo PubKey
  with_authority (authority, scope) info = record info {
    spend_authority = get_or_insert authority info.spend_authority;
    scope = get_or_insert scope info.scope;
  }

  abbrev pub as_foreign : TransparentInfo PubKey → TransparentInfo PubKey
  as_foreign info = record info { scope = get_or_insert foreign info.scope }

  abbrev pub with_pubkey : Option PubKey → TransparentInfo PubKey → TransparentInfo PubKey
  with_pubkey none info = info
  with_pubkey (some pubkey) info = record info { pubkey = get_or_insert pubkey info.pubkey }

  abbrev pub with_script : Bytes → TransparentInfo PubKey → TransparentInfo PubKey
  with_script script info = record info { redeem_script = get_or_insert script info.redeem_script }

  abbrev pub or_invalid : Option PublicKey → Result MigrateError PublicKey
  or_invalid none = err invalid_public_key
  or_invalid (some pk) = ok pk

  -- The loop over the key database.
  unfoldable pub add_keypairs :
      List KeyPair
      → List (Bytes × TransparentInfo PubKey)
      → Result MigrateError (List (Bytes × TransparentInfo PubKey))
  unfolding update_info transparent_spend_info
  add_keypairs [] entries = ok entries
  add_keypairs (keypair ∷ keypairs) entries =
      bind (or_invalid (lib.from_slice keypair.pubkey)) (λ pk.
        add_keypairs keypairs
          (update_info (lib.p2pkh_of pk) (with_authority (transparent_spend_info keypair)) entries))

  abbrev pub watch_pubkey :
      Option PublicKey
      → Bytes
      → List (Bytes × TransparentInfo PubKey)
      → List (Bytes × TransparentInfo PubKey)
  watch_pubkey none pubkey entries = entries
  watch_pubkey (some pk) pubkey entries =
      update_info (lib.p2pkh_of pk)
        (λ info. as_foreign (with_pubkey (lib.pub_key_from_bytes pubkey) info)) entries

  -- One watch-only script, whose warnings are left out.
  unfoldable pub watch_info :
      WatchScriptKind
      → List (Bytes × TransparentInfo PubKey)
      → List (Bytes × TransparentInfo PubKey)
  unfolding update_info
  watch_info (p2pk pubkey) entries = watch_pubkey (lib.from_slice pubkey) pubkey entries
  watch_info (p2pkh key_id) entries = update_info (lib.key_id_string key_id) as_foreign entries
  watch_info (p2sh script_id) entries =
      update_info (lib.script_id_string script_id) as_foreign entries
  watch_info (other script) entries = entries

  unfoldable pub add_watch_scripts :
      List WatchScript
      → List (Bytes × TransparentInfo PubKey)
      → List (Bytes × TransparentInfo PubKey)
  unfolding watch_info
  add_watch_scripts [] entries = entries
  add_watch_scripts (watch ∷ scripts) entries =
      add_watch_scripts scripts (watch_info watch.kind entries)

  unfoldable pub add_redeem_scripts :
      List (Bytes × Bytes)
      → List (Bytes × TransparentInfo PubKey)
      → List (Bytes × TransparentInfo PubKey)
  unfolding update_info
  add_redeem_scripts [] entries = entries
  add_redeem_scripts ((script_id, script) ∷ scripts) entries = add_redeem_scripts scripts (
      update_info (lib.script_id_string script_id) (λ info. as_foreign (with_script script info))
        entries)

  abbrev pub set_authority : Option SpendAuthority → Option PubKey → Address → Address
  set_authority (some authority) pubkey address = lib.set_spend_authority authority address
  set_authority none none address = address
  set_authority none (some pubkey) address = lib.set_pubkey pubkey address

  abbrev pub set_script : Option Bytes → Address → Address
  set_script none address = address
  set_script (some script) address = lib.set_redeem_script script address

  abbrev pub or_external : Option KeyScope → KeyScope
  or_external none = external
  or_external (some scope) = scope

  unfoldable pub emit : Bytes × TransparentInfo PubKey → Account → Account
  emit (address, info) account =
      lib.add_address
        (set_script info.redeem_script
          (set_authority info.spend_authority info.pubkey (lib.new address)))
        (or_external info.scope) account

  unfoldable pub emit_all : List (Bytes × TransparentInfo PubKey) → Account → Account
  unfolding emit
  emit_all [] account = account
  emit_all (entry ∷ entries) account = emit_all entries (emit entry account)

  -- `sort_by` on the addresses, a stable sort; `texts` is the order of strings.
  module _ (texts : Ord Bytes) where
    unfoldable pub place_entry :
        Bytes × TransparentInfo PubKey
        → List (Bytes × TransparentInfo PubKey)
        → List (Bytes × TransparentInfo PubKey)
    place_entry e [] = e ∷ []
    place_entry e (x ∷ entries) =
        let rest = place_entry e entries in
        if texts.lt (x.0) (e.0) then x ∷ rest else e ∷ x ∷ entries

    unfoldable pub sort_entries :
        List (Bytes × TransparentInfo PubKey) → List (Bytes × TransparentInfo PubKey)
    unfolding place_entry
    sort_entries [] = []
    sort_entries (e ∷ entries) = place_entry e (sort_entries entries)

    -- The legacy account is looked up once, before anything is added.
    unfoldable pub attach_transparent_addresses :
        {Ufvk : Type 0}
        → List KeyPair
        → List WatchScript
        → (cscripts : List (Bytes × Bytes)) → WalletAccounts Account Ufvk
        → Result MigrateError (WalletAccounts Account Ufvk)
    unfolding add_keypairs add_watch_scripts add_redeem_scripts sort_entries emit_all update_at
    attach_transparent_addresses keypairs watch_scripts cscripts accounts =
        bind (add_keypairs keypairs []) (λ entries.
          let all = add_redeem_scripts cscripts (add_watch_scripts watch_scripts entries) in
          bind (update_at accounts.legacy_index (emit_all (sort_entries all)) accounts.accounts)
            (λ l. ok (record accounts { accounts = l })))
