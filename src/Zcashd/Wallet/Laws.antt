-- ===== src/Zcashd/Wallet/Laws.antt =====
-- Which keys `parse` reports as unparsed.
use zewif_zcashd.Base.{
  ◌≡◌, refl, sym, ◌∙◌, true, false, Bool, List, [], ◌∷◌, inl, inr, Bool-cases, ok, ◌>>=◌, ◌++◌,
}
use zewif_zcashd.Base.Bytes.{codes, eq_bytes, bytes_eq}
use zewif_zcashd.Base.HashMap.{contains}
use zewif_zcashd.Base.BTreeMap.{Ord, same, same_iff, contains_key}
use zewif_zcashd.Wire.Parser.{Bytes}
use zewif_zcashd.Dump.{DbKey, DbValue, ZcashdDump}
use zewif_zcashd.Dump.Index.{IsIndexed}
use zewif_zcashd.Zcashd.State.{Z, has_keys, eq_key, key_eq, key_eq_iff, EncryptedKeyPolicy}
use zewif_zcashd.Zcashd.Effects.Marks.{Effect-bind, Effect-Marks, Marks, Marks-pure}
use zewif_zcashd.Zcashd.Wallet.{Crates, ZcashdWallet, parse, all_keys, parse_dump_with_policy}
use zewif_zcashd.Zcashd.Wallet.Known.{known_names, IsKnown, Does}
use zewif_zcashd.Zcashd.Wallet.Singles.{
  Marks-parse_block_locator, Marks-parse_default_key, Marks-parse_hdseed,
  Marks-parse_client_version, Marks-parse_opt_i64, Marks-parse_i64, Marks-parse_network_info,
  Marks-parse_orchard_note_commitment_tree, Marks-parse_mnemonic_phrase,
  Marks-parse_mnemonic_hd_chain, Marks-parse_opt_block_locator,
}
use zewif_zcashd.Zcashd.Wallet.Unlocking.{Does-derive_master_key}
use zewif_zcashd.Zcashd.Wallet.Loops.{
  Does-parse_cscripts, Does-parse_address_names, Does-parse_key_pool, Does-parse_address_purposes,
  Does-parse_sapling_z_addresses, Does-parse_sapling_extended_full_viewing_keys,
  Does-parse_transactions, Does-parse_watch_scripts, account_names, Does-parse_wallet_keys,
  Does-parse_unified_accounts, Does-parse_send_recipients,
}
use zewif_zcashd.Zcashd.Wallet.KeyParsers.{
  Does-parse_keys, Does-parse_sapling_keys, Does-parse_sprout_keys,
}

-- The names of which a success of `parse` leaves no key unparsed, with a record of the name
-- `unifiedaddrmeta` and without.
abbrev pub handled_names : Bool → List Bytes
handled_names has_accounts =
    codes "mkey"
      ∷ codes "cscript"
      ∷ codes "key"
      ∷ codes "ckey"
      ∷ codes "name"
      ∷ codes "pool"
      ∷ codes "purpose"
      ∷ codes "sapzaddr"
      ∷ codes "sapextfvk"
      ∷ codes "sapzkey"
      ∷ codes "csapzkey"
      ∷ codes "tx"
      ∷ codes "watchs"
      ∷ codes "wkey"
      ∷ codes "zkey"
      ∷ codes "czkey"
      ∷ account_names has_accounts
    ++ (codes "recipientmapping" ∷ [])

contains-all_keys :
    (keys : Ord DbKey) (k : DbKey) (records : List (DbKey × DbValue))
    → contains k (all_keys records) ≡ contains_key keys k records
unfolding all_keys contains contains_key
contains-all_keys keys k [] = refl
contains-all_keys keys k ((key, value) ∷ records) = elim (Bool-cases (same keys key k)) [
  | inl at ↦ rw (at, (key_eq_iff key k).1 ((same_iff keys key k).0 at)) refl
  | inr away ↦
      let other : key_eq key k ≡ false = elim (Bool-cases (key_eq key k)) [
        | inl b ↦ absurd (cc ((same_iff keys key k).1 ((key_eq_iff key k).0 b), away))
        | inr b ↦ b
      ] in
      rw (away, other) (contains-all_keys keys k records)
]

module _ (c : Crates) (names : Ord Bytes) (keys : Ord DbKey) (datas : Ord Bytes) (d : ZcashdDump)
    (policy : EncryptedKeyPolicy) (strict : Bool) (h : IsIndexed names keys d) where
  -- The next parser marks keys of known names only, or handles the keys of some names besides.
  after-Marks :
      {A B : Type 0} {p : Z A} {f : A → Z B} {ns : List Bytes}
      → Marks IsKnown p
      → ((a : A) → Does names keys d h ns (f a))
      → Does names keys d h ns (p >>= f)
  after-Marks {f = f} {ns = ns} m g =
      Effect-bind IsKnown keys d [] ns f (Effect-Marks IsKnown keys d m) g

  after_loop :
      {A B : Type 0} {p : Z A} {f : A → Z B} {ms ns : List Bytes}
      → Does names keys d h ms p
      → ((a : A) → Does names keys d h ns (f a))
      → Does names keys d h (ms ++ ns) (p >>= f)
  after_loop {f = f} {ms = ms} {ns = ns} m g = Effect-bind IsKnown keys d ms ns f m g

  -- The parsers in their order.
  Does-parse :
      Does names keys d h
        (handled_names (has_keys names keys d (codes "unifiedaddrmeta")))
        (parse c names keys datas d policy strict)
  unfolding parse contains bytes_eq
  Does-parse = after_loop (Does-derive_master_key c.lib names keys d h policy) λ master_key.
      after-Marks (Marks-parse_block_locator names keys d (codes "bestblock") refl) λ a1.
        after_loop (Does-parse_cscripts names keys d h) λ a2.
          after-Marks (Marks-parse_default_key names keys d) λ a3.
            after-Marks (Marks-parse_hdseed names keys d h c.seeds c.lib policy master_key) λ a4.
              after_loop (Does-parse_keys names keys d h c.lib policy master_key) λ a5.
                after-Marks (Marks-parse_client_version names keys d (codes "minversion") refl)
                  λ a6. after_loop (Does-parse_address_names names keys d h) λ a7.
                    after-Marks (Marks-parse_opt_i64 names keys d (codes "orderposnext") refl) λ a8.
                      after_loop (Does-parse_key_pool names keys d h) λ a9.
                        after_loop (Does-parse_address_purposes names keys d h) λ a10.
                          after_loop (Does-parse_sapling_z_addresses names keys d h) λ a11.
                            after_loop
                              (Does-parse_sapling_extended_full_viewing_keys names keys d h
                                c.sapling)
                              λ a12.
                                after_loop
                                  (Does-parse_sapling_keys names keys d h c.lib c.sapling policy
                                    master_key)
                                  λ a13.
                                    after_loop
                                      (Does-parse_transactions names keys d h c.txs datas strict)
                                      λ a14.
                                        after-Marks
                                          (Marks-parse_client_version names keys d (codes "version")
                                            refl)
                                          λ a15.
                                            after_loop
                                              (Does-parse_watch_scripts names keys d h datas)
                                              λ a16.
                                                after-Marks
                                                  (Marks-parse_i64 names keys d
                                                    (codes "witnesscachesize") refl)
                                                  λ a17.
                                                    after_loop
                                                      (Does-parse_wallet_keys names keys d h)
                                                      λ a18.
                                                        after_loop
                                                          (Does-parse_sprout_keys names keys d h
                                                            c.lib policy)
                                                          λ a19.
                                                            after-Marks
                                                            (Marks-parse_network_info names keys d)
                                                            λ a20.
                                                            after-Marks
                                                            (Marks-parse_orchard_note_commitment_tree
                                                            names keys d c.trees)
                                                            λ a21.
                                                            after_loop
                                                            (Does-parse_unified_accounts names keys
                                                            d h c.accounts)
                                                            λ a22.
                                                            after-Marks
                                                            (Marks-parse_mnemonic_phrase names keys
                                                            d h c.seeds c.lib policy master_key)
                                                            λ a23.
                                                            after-Marks
                                                            (Marks-parse_mnemonic_hd_chain names
                                                            keys d)
                                                            λ a24.
                                                            after_loop
                                                            (Does-parse_send_recipients names keys d
                                                            h c.txs.read_txid)
                                                            λ a25.
                                                            after-Marks
                                                            (Marks-parse_opt_block_locator names
                                                            keys d (codes "bestblock_nomerkle")
                                                            refl)
                                                            λ a26.
                                                            Effect-Marks IsKnown keys d
                                                            (Marks-pure IsKnown _)

  -- In a dump with a right index, under any policy, strict or not, where parse_dump_with_policy
  -- returns a wallet and a set of unparsed keys: every key of the set is in the dump; a key whose
  -- name no parser knows is in the set if and only if it is in the dump; and no key of the set is
  -- named mkey, cscript, key, ckey, name, pool, purpose, sapzaddr, sapextfvk, sapzkey, csapzkey,
  -- tx, watchs, wkey, zkey, czkey, unifiedaddrmeta or recipientmapping, nor, where the dump has a
  -- key named unifiedaddrmeta, unifiedaccount or unifiedfvk.
  pub parse_dump_with_policy-reports :
      (w : ZcashdWallet c) (u : List DbKey)
      → parse_dump_with_policy c names keys datas d policy strict ≡ ok (w, u)
      → (k : DbKey)
      → (contains k u ≡ true → contains_key keys k d.records ≡ true)
        × (contains k.keyname known_names ≡ false → contains k u ≡ contains_key keys k d.records)
        × (contains k.keyname (handled_names (has_keys names keys d (codes "unifiedaddrmeta")))
              ≡ true
            → contains k u ≡ false)
  unfolding parse_dump_with_policy
  parse_dump_with_policy-reports w u e k =
      let start = contains-all_keys keys k d.records in
      let fate = Does-parse.marks.run (all_keys d.records) u w e k in
      let there : contains k u ≡ true → contains_key keys k d.records ≡ true = λ t. elim fate [
        | inl same_as ↦ sym start ∙ (sym same_as ∙ t)
        | inr (gone, q) ↦ absurd (cc)
      ] in
      (
        there,
        λ unknown. elim fate [
          | inl same_as ↦ same_as ∙ start
          | inr (gone, q) ↦ let bad = q.among in absurd (cc)
        ],
        λ handled. elim (Bool-cases (contains_key keys k d.records)) [
          | inl found ↦ (Does-parse.handles k (handled, found)).run (all_keys d.records) u w e
          | inr absent ↦ elim (Bool-cases (contains k u)) [
            | inl t ↦ let bad = there t in absurd (cc)
            | inr away ↦ away
          ]
        ],
      )
