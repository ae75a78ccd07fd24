-- ===== src/Migrate/Accounts/Laws.antt =====
-- The accounts that are built name places in bounds.
use zewif_zcashd.Base.{
  ℕ, suc, ◌+◌, ◌<◌, ◌≤◌, ◌≡◌, refl, ap, ◌∙◌, subst, List, [], ◌∷◌, ◌++◌, Option, ok, bind-eq-ok,
  ltb, length, length-append, inl, inr, Bool-cases, All, arith,
}
use zewif_zcashd.Base.Bytes.{eq_bytes, bytes_eq}
use zewif_zcashd.Base.HashMap
use zewif_zcashd.Wire.Parser.{Bytes}
use zewif_zcashd.Wallet.Meta.{MnemonicHdChain}
use zewif_zcashd.Wallet.Addresses.{UnifiedAccountMetadata}
use zewif_zcashd.Migrate.State.{WalletAccounts, AreBelow, IsInBounds}
use zewif_zcashd.Migrate.Accounts.{
  AccountsLibrary, place_meta, sort_metas, ufvk_of, unified_account, add_unified,
  mnemonic_seed_fingerprint, legacy_seed_fp, legacy_account, build_accounts,
}

-- The places that a map from fingerprints gives.
abbrev GoBelow : ℕ → List (Bytes × ℕ) → Type 0
GoBelow n m = All (λ (fingerprint, index). index < n) m

GoBelow-insert :
    (n k : ℕ) (fp : Bytes) (m : List (Bytes × ℕ))
    → n ≤ k
    → GoBelow n m
    → GoBelow (suc k) (HashMap.insert fp n m)
unfolding HashMap.insert
GoBelow-insert n k fp [] le h = (omega arith, tt)
GoBelow-insert n k fp ((g, i) ∷ m) le (first, h) = elim (Bool-cases (bytes_eq g fp)) [
  | inl here ↦ rw here (omega arith, wider m h)
  | inr away ↦ rw away (omega arith, GoBelow-insert n k fp m le h)
]
  where
    wider : (m : List (Bytes × ℕ)) → GoBelow n m → GoBelow (suc k) m
    wider [] h = tt
    wider ((g, i) ∷ m) (first, h) = (omega arith, wider m h)

AreBelow-append :
    {A : Type 0} (n : ℕ) (a : A) (m : List (ℕ × A))
    → AreBelow n m
    → AreBelow (suc n) (m ++ ((n, a) ∷ []))
AreBelow-append n a [] h = (omega arith, tt)
AreBelow-append n a ((i, b) ∷ m) (first, h) = (omega arith, AreBelow-append n a m h)

AreBelow-wider : {A : Type 0} (n : ℕ) (m : List (ℕ × A)) → AreBelow n m → AreBelow (suc n) m
AreBelow-wider n [] h = tt
AreBelow-wider n ((i, b) ∷ m) (first, h) = (omega arith, AreBelow-wider n m h)

GoBelow-wider : (n : ℕ) (m : List (Bytes × ℕ)) → GoBelow n m → GoBelow (suc n) m
GoBelow-wider n [] h = tt
GoBelow-wider n ((g, i) ∷ m) (first, h) = (omega arith, GoBelow-wider n m h)

length-next : {A : Type 0} (a : A) (xs : List A) → length (xs ++ (a ∷ [])) ≡ suc (length xs)
length-next a xs = omega (arith, length-append xs (a ∷ []))

module _ {Account Ufvk LegacySeed Bip39Mnemonic Mnemonic : Type 0}
    (lib : AccountsLibrary Account Ufvk LegacySeed Bip39Mnemonic Mnemonic) where
  length-place_meta :
      (m : Bytes × UnifiedAccountMetadata) (metas : List (Bytes × UnifiedAccountMetadata))
      → length (place_meta lib m metas) ≡ suc (length metas)
  unfolding place_meta
  length-place_meta m [] = refl
  length-place_meta m (x ∷ metas) =
      elim (Bool-cases (ltb (x.1).zip32_account_id (m.1).zip32_account_id)) [
        | inl before ↦ rw before (ap suc (length-place_meta m metas))
        | inr after ↦ rw after refl
      ]

  length-sort_metas :
      (metas : List (Bytes × UnifiedAccountMetadata)) → length (sort_metas lib metas) ≡ length metas
  unfolding sort_metas
  length-sort_metas [] = refl
  length-sort_metas (m ∷ metas) =
      length-place_meta m (sort_metas lib metas) ∙ ap suc (length-sort_metas metas)

  -- What holds of the accounts while they are built.
  abbrev Building : WalletAccounts Account Ufvk → Type 0
  Building w = AreBelow (length w.accounts) w.unified × GoBelow (length w.accounts) w.ufvk_index

  add_unified-Building :
      (keys : List (Bytes × Ufvk)) (metas : List (Bytes × UnifiedAccountMetadata))
      (w w' : WalletAccounts Account Ufvk)
      → Building w
      → add_unified lib keys metas w ≡ ok w'
      → Building w' × (length w'.accounts ≡ length w.accounts + length metas)
  unfolding add_unified
  add_unified-Building keys [] w w' h e =
      let at : w ≡ w' = cc in
      (subst Building at h, let size : length w'.accounts ≡ length w.accounts = cc in omega arith)
  add_unified-Building keys ((fp, meta) ∷ metas) w w' (unified, index) e =
      let (ufvk, e₁, e₂) = bind-eq-ok (ufvk_of lib fp (HashMap.get fp keys)) _ e in
      let size = length-next (unified_account lib meta ufvk) w.accounts in
      let next : Building (record {
        accounts = w.accounts ++ (unified_account lib meta ufvk ∷ []);
        ufvk_index = HashMap.insert fp (length w.accounts) w.ufvk_index;
        unified = w.unified ++ ((length w.accounts, ufvk) ∷ []);
        legacy_index = w.legacy_index;
      }) =
        rw size (
          AreBelow-append (length w.accounts) ufvk w.unified unified,
          GoBelow-insert (length w.accounts) (length w.accounts) fp w.ufvk_index (omega arith)
              index,
        ) in
      let (built, total) = add_unified-Building keys metas _ w' next e₂ in
      (built, omega (arith, total, size))

  -- Where build_accounts returns accounts, the places that they name are in bounds, there is one
  -- account for each unified account of the wallet and one more, and the legacy account is the
  -- last.
  pub build_accounts-IsInBounds :
      (keys : List (Bytes × Ufvk)) (metadata : List (Bytes × UnifiedAccountMetadata))
      (mnemonic : Option Bip39Mnemonic) (chain : Option MnemonicHdChain) (seed : Option LegacySeed)
      (w : WalletAccounts Account Ufvk)
      → build_accounts lib keys metadata mnemonic chain seed ≡ ok w
      → IsInBounds w
        × (w.legacy_index ≡ length metadata)
        × (length w.accounts ≡ length metadata + 1)
  unfolding build_accounts
  build_accounts-IsInBounds keys metadata mnemonic chain seed w e =
      let (w₁, e₁, f₁) =
        bind-eq-ok
          (add_unified lib keys (sort_metas lib metadata)
            (record { accounts = []; ufvk_index = []; unified = []; legacy_index = 0 }))
          _ e in
      let ((unified, index), total) =
        add_unified-Building keys (sort_metas lib metadata) _ w₁ (tt, tt) e₁ in
      let (fp, e₂, f₂) =
        bind-eq-ok (legacy_seed_fp lib (mnemonic_seed_fingerprint lib mnemonic chain) seed) _ f₁ in
      let size = length-next (legacy_account lib fp) w₁.accounts in
      let count : length w₁.accounts ≡ length metadata =
        omega (arith, total, length-sort_metas metadata) in
      let at : (record w₁ {
        accounts = w₁.accounts ++ (legacy_account lib fp ∷ []);
        legacy_index = length w₁.accounts;
      })
          ≡ w =
        cc in
      subst
        (λ w.
          IsInBounds w
          × (w.legacy_index ≡ length metadata)
          × (length w.accounts ≡ length metadata + 1))
        at
        (
          rw size (
            omega arith,
            AreBelow-wider (length w₁.accounts) w₁.unified unified,
            GoBelow-wider (length w₁.accounts) w₁.ufvk_index index,
          ),
          count,
          omega (arith, size),
        )
