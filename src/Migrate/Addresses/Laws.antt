-- ===== src/Migrate/Addresses/Laws.antt =====
-- Attaching the addresses never panics, and keeps the accounts in their places.
use zewif_zcashd.Base.{
  ℕ, ◌<◌, ◌≡◌, refl, ◌∙◌, map, List, [], ◌∷◌, Option, none, some, Result, ok, err, bind, length,
  inl, inr, Bool-cases, ◌⊎◌, All, arith,
}
use zewif_zcashd.Base.Bytes.{eq_bytes, bytes_eq}
use zewif_zcashd.Base.HashMap
use zewif_zcashd.Base.BTreeMap.{Ord}
use zewif_zcashd.Wire.Parser.{Bytes}
use zewif_zcashd.Wallet.Addresses.{
  orchard, sapling, p2pkh, SaplingZPaymentAddress, SproutPaymentAddress, UnifiedAddressMetadata,
}
use zewif_zcashd.Wallet.Transparent.{KeyPair}
use zewif_zcashd.Wallet.Transparent.WatchScript.{WatchScript}
use zewif_zcashd.Wallet.Equality.{eq_receiver}
use zewif_zcashd.Zcashd.Keys.{SproutSpendingKey}
use zewif_zcashd.Zcashd.Wallet.{Crates, ZcashdWallet}
use zewif_zcashd.Migrate.State.{
  MigrateError, WalletAccounts, IsInBounds, update_at, missing_address_ufvk, invalid_receiver_types,
  unified_address_derivation,
}
use zewif_zcashd.Migrate.Received.Returns.{update_at-Succeeds}
use zewif_zcashd.Migrate.Transparent.{
  TransparentLibrary, TransparentInfo, or_invalid, add_keypairs, attach_transparent_addresses,
  KeyScope,
}
use zewif_zcashd.Migrate.Addresses.{
  AddressLibrary, add_sapling_addresses, attach_sapling_addresses, add_sprout_addresses,
  attach_sprout_addresses, or_error, unified_text, place_of, add_unified_addresses,
  attach_unified_addresses,
}
use zewif_zcashd.Migrate.Addresses.Attach.{attach_addresses}

-- A result that is a value with a property, or an error, and no panic.
abbrev pub Ends : {A : Type 0} → (A → Type 0) → Result MigrateError A → Type 0
Ends {A} Q r = ((a : A) × (r ≡ ok a) × Q a) ⊎ ((e : MigrateError) × (r ≡ err e))

pub Ends-bind :
    {A B : Type 0} (Q : A → Type 0) (R : B → Type 0) (r : Result MigrateError A)
    (f : A → Result MigrateError B)
    → Ends Q r
    → ((a : A) → Q a → Ends R (f a))
    → Ends R (bind r f)
Ends-bind Q R r f (inl (a, e, q)) g = rw e (g a q)
Ends-bind Q R r f (inr (x, e)) g = rw e (inr (x, refl))

-- As many accounts as before.
abbrev pub SameLength : {A : Type 0} → List A → List A → Type 0
SameLength xs ys = length ys ≡ length xs

pub update_at-Ends :
    {A : Type 0} (i : ℕ) (f : A → A) (xs : List A)
    → i < length xs
    → Ends (SameLength xs) (update_at i f xs)
update_at-Ends i f xs less = inl (update_at-Succeeds i f xs less)

-- A change of one account, and then what ends for as many accounts.
update_at-then :
    {A : Type 0} (i : ℕ) (f : A → A) (xs : List A) (g : List A → Result MigrateError (List A))
    → i < length xs
    → ((ys : List A) → SameLength xs ys → Ends (SameLength ys) (g ys))
    → Ends (SameLength xs) (bind (update_at i f xs) g)
update_at-then i f xs g less h =
    Ends-bind (SameLength xs) (SameLength xs) _ g (update_at-Ends i f xs less) λ ys e.
      elim (h ys e) [ inl (zs, e', same) ↦ inl (zs, e', same ∙ e) | inr (x, e') ↦ inr (x, e') ]

-- What `attach_…` keeps of the accounts.
abbrev pub Keeps :
    {Account Ufvk : Type 0} → WalletAccounts Account Ufvk → WalletAccounts Account Ufvk → Type 0
Keeps w w' = IsInBounds w' × (length w'.accounts ≡ length w.accounts)

pub kept :
    {Account Ufvk : Type 0} (w : WalletAccounts Account Ufvk)
    (r : Result MigrateError (List Account))
    → IsInBounds w
    → Ends (SameLength w.accounts) r
    → Ends (Keeps w) (bind r (λ l. ok (record w { accounts = l })))
kept w r h ends =
    Ends-bind (SameLength w.accounts) (Keeps w) r _ ends
      λ l same. inl (record w { accounts = l }, refl, (rw same h, same))

module _ {Account Address PublicKey PubKey : Type 0}
    (lib : TransparentLibrary Account Address PublicKey PubKey) where
  abbrev Always : List (Bytes × TransparentInfo PubKey) → Type 0
  Always entries = Unit {0}

  or_invalid-Ends : (o : Option PublicKey) → Ends (λ pk. Unit {0}) (or_invalid lib o)
  or_invalid-Ends none = inr (_, refl)
  or_invalid-Ends (some pk) = inl (pk, refl, tt)

  add_keypairs-Ends :
      (keypairs : List KeyPair) (entries : List (Bytes × TransparentInfo PubKey))
      → Ends Always (add_keypairs lib keypairs entries)
  unfolding add_keypairs
  add_keypairs-Ends [] entries = inl (entries, refl, tt)
  add_keypairs-Ends (keypair ∷ keypairs) entries =
      Ends-bind (λ pk. Unit {0}) Always _ _ (or_invalid-Ends (lib.from_slice keypair.pubkey))
        λ pk u. add_keypairs-Ends keypairs _

  attach_transparent_addresses-Keeps :
      {Ufvk : Type 0} (texts : Ord Bytes) (keypairs : List KeyPair)
      (watch_scripts : List WatchScript) (cscripts : List (Bytes × Bytes))
      (w : WalletAccounts Account Ufvk)
      → IsInBounds w
      → Ends (Keeps w) (attach_transparent_addresses lib texts keypairs watch_scripts cscripts w)
  unfolding attach_transparent_addresses
  attach_transparent_addresses-Keeps texts keypairs watch_scripts cscripts w h =
      Ends-bind Always (Keeps w) _ _ (add_keypairs-Ends keypairs [])
        λ entries u. kept w _ h (update_at-Ends w.legacy_index _ w.accounts h.0)

module _ {Account Ufvk ExtFvk Request : Type 0}
    (lib : AddressLibrary Account Ufvk ExtFvk Request) where
  add_sapling_addresses-Ends :
      (legacy_index : ℕ) (l : List (Bytes × KeyScope)) (accounts : List Account)
      → legacy_index < length accounts
      → Ends (SameLength accounts) (add_sapling_addresses lib legacy_index l accounts)
  unfolding add_sapling_addresses
  add_sapling_addresses-Ends legacy_index [] accounts less = inl (accounts, refl, refl)
  add_sapling_addresses-Ends legacy_index ((text, scope) ∷ l) accounts less =
      update_at-then legacy_index _ accounts _ less
        λ ys e. add_sapling_addresses-Ends legacy_index l ys (omega arith)

  add_sprout_addresses-Ends :
      (legacy_index : ℕ) (l : List (Bytes × Unit {0})) (accounts : List Account)
      → legacy_index < length accounts
      → Ends (SameLength accounts) (add_sprout_addresses lib legacy_index l accounts)
  unfolding add_sprout_addresses
  add_sprout_addresses-Ends legacy_index [] accounts less = inl (accounts, refl, refl)
  add_sprout_addresses-Ends legacy_index ((text, u) ∷ l) accounts less =
      update_at-then legacy_index _ accounts _ less
        λ ys e. add_sprout_addresses-Ends legacy_index l ys (omega arith)

  attach_sapling_addresses-Keeps :
      (texts : Ord Bytes) (z : List (SaplingZPaymentAddress × Bytes)) (v : List (Bytes × ExtFvk))
      (w : WalletAccounts Account Ufvk)
      → IsInBounds w
      → Ends (Keeps w) (attach_sapling_addresses lib texts z v w)
  unfolding attach_sapling_addresses
  attach_sapling_addresses-Keeps texts z v w h =
      kept w _ h (add_sapling_addresses-Ends w.legacy_index _ w.accounts h.0)

  attach_sprout_addresses-Keeps :
      (texts : Ord Bytes) (k : Option (List (SproutPaymentAddress × SproutSpendingKey)))
      (w : WalletAccounts Account Ufvk)
      → IsInBounds w
      → Ends (Keeps w) (attach_sprout_addresses lib texts k w)
  unfolding attach_sprout_addresses
  attach_sprout_addresses-Keeps texts none w h = inl (w, refl, (h, refl))
  attach_sprout_addresses-Keeps texts (some k) w h =
      kept w _ h (add_sprout_addresses-Ends w.legacy_index _ w.accounts h.0)

  or_error-Ends :
      {A : Type 0} (e : MigrateError) (o : Option A) → Ends (λ a. Unit {0}) (or_error lib e o)
  or_error-Ends e none = inr (e, refl)
  or_error-Ends e (some a) = inl (a, refl, tt)

  unified_text-Ends :
      (keys : List (Bytes × Ufvk)) (metadata : UnifiedAddressMetadata)
      → Ends (λ text. Unit {0}) (unified_text lib keys metadata)
  unfolding unified_text
  unified_text-Ends keys metadata =
      Ends-bind (λ ufvk. Unit {0}) (λ text. Unit {0}) _ _
        (or_error-Ends (missing_address_ufvk metadata.key_id) (HashMap.get metadata.key_id keys))
        λ ufvk u.
          Ends-bind (λ request. Unit {0}) (λ text. Unit {0}) _ _
            (or_error-Ends invalid_receiver_types (
              lib.custom (HashMap.contains orchard metadata.receiver_types)
                (HashMap.contains sapling metadata.receiver_types)
                (HashMap.contains p2pkh metadata.receiver_types)))
            λ request u'.
              or_error-Ends unified_address_derivation
                (lib.address ufvk metadata.diversifier_index request)

  place_of-below :
      (n legacy_index : ℕ) (fp : Bytes) (index : List (Bytes × ℕ))
      → legacy_index < n
      → All (λ (fingerprint, i). i < n) index
      → place_of lib legacy_index (HashMap.get fp index) < n
  unfolding HashMap.get
  place_of-below n legacy_index fp [] l h = l
  place_of-below n legacy_index fp ((g, i) ∷ index) l (first, h) =
      elim (Bool-cases (bytes_eq g fp)) [
        | inl here ↦ rw here first
        | inr away ↦ rw away (place_of-below n legacy_index fp index l h)
      ]

  add_unified_addresses-Ends :
      (keys : List (Bytes × Ufvk)) (index : List (Bytes × ℕ)) (legacy_index : ℕ)
      (metas : List UnifiedAddressMetadata) (accounts : List Account)
      → legacy_index < length accounts
      → All (λ (fingerprint, i). i < length accounts) index
      → Ends
          (SameLength accounts)
          (add_unified_addresses lib keys index legacy_index metas accounts)
  unfolding add_unified_addresses
  add_unified_addresses-Ends keys index legacy_index [] accounts less h = inl (accounts, refl, refl)
  add_unified_addresses-Ends keys index legacy_index (metadata ∷ metas) accounts less h =
      Ends-bind (λ text. Unit {0}) (SameLength accounts) _ _ (unified_text-Ends keys metadata)
        λ text u.
          update_at-then _ _ accounts _
            (place_of-below (length accounts) legacy_index metadata.key_id index less h)
            λ ys e.
              add_unified_addresses-Ends keys index legacy_index metas ys (omega arith) (rw e h)

  attach_unified_addresses-Keeps :
      (keys : List (Bytes × Ufvk)) (metas : List UnifiedAddressMetadata)
      (w : WalletAccounts Account Ufvk)
      → IsInBounds w
      → Ends (Keeps w) (attach_unified_addresses lib keys metas w)
  unfolding attach_unified_addresses
  attach_unified_addresses-Keeps keys metas w h =
      kept w _ h
        (add_unified_addresses-Ends keys w.ufvk_index w.legacy_index metas w.accounts h.0 h.2)

-- One step after another.
Keeps-bind :
    {Account Ufvk : Type 0} (w : WalletAccounts Account Ufvk)
    (r : Result MigrateError (WalletAccounts Account Ufvk))
    (f : WalletAccounts Account Ufvk → Result MigrateError (WalletAccounts Account Ufvk))
    → Ends (Keeps w) r
    → ((a : WalletAccounts Account Ufvk) → IsInBounds a → Ends (Keeps a) (f a))
    → Ends (Keeps w) (bind r f)
Keeps-bind w r f ends g = Ends-bind (Keeps w) (Keeps w) r f ends λ a (h, same). elim (g a h) [
  | inl (b, e, k) ↦ inl (b, e, (k.0, k.1 ∙ same))
  | inr (x, e) ↦ inr (x, e)
]

module _ {Account Address PublicKey PubKey Request : Type 0} (c : Crates)
    (transparent : TransparentLibrary Account Address PublicKey PubKey)
    (lib : AddressLibrary Account c.Ufvk c.ExtFvk Request) (texts : Ord Bytes) where
  -- Where the places that the accounts name are in bounds, attach_addresses does not panic on any
  -- wallet: it returns an error, or accounts, and then there are as many as before and the places
  -- are in bounds again.
  pub attach_addresses-IsInBounds :
      (wallet : ZcashdWallet c) (w : WalletAccounts Account c.Ufvk)
      → IsInBounds w
      → ((w' : WalletAccounts Account c.Ufvk) × (attach_addresses c transparent lib texts wallet w
            ≡ ok w')
          × (IsInBounds w' × (length w'.accounts ≡ length w.accounts)))
        ⊎ ((e : MigrateError) × (attach_addresses c transparent lib texts wallet w ≡ err e))
  unfolding attach_addresses
  attach_addresses-IsInBounds wallet w h =
      Keeps-bind w _ _
        (attach_transparent_addresses-Keeps transparent texts (map (λ e. e.1) wallet.keys)
          wallet.watch_scripts wallet.cscripts w h)
        λ a ha.
          Keeps-bind a _ _
            (attach_sapling_addresses-Keeps lib texts wallet.sapling_z_addresses
              wallet.sapling_extended_full_viewing_keys a ha)
            λ b hb.
              Keeps-bind b _ _ (attach_sprout_addresses-Keeps lib texts wallet.sprout_keys b hb)
                λ d hd.
                  attach_unified_addresses-Keeps lib wallet.unified_accounts.full_viewing_keys
                    wallet.unified_accounts.address_metadata d hd
