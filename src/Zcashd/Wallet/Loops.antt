-- ===== src/Zcashd/Wallet/Loops.antt =====
-- What the loops over the records of one name do to the set of unparsed keys.
use zewif_zcashd.Base.{
  ◌≡◌, refl, Bool, true, false, List, [], ◌∷◌, none, some, length, ◌==◌, ◌<◌, ◌>>=◌, inl, inr,
  Bool-cases, arith,
}
use zewif_zcashd.Base.Bytes.{codes, bytes_eq, eq_bytes}
use zewif_zcashd.Base.HashMap.{contains}
use zewif_zcashd.Base.BTreeMap.{Ord, contains_key}
use zewif_zcashd.Wire.Parser.{Bytes, P}
use zewif_zcashd.Wallet.Equality.{eq_int, eq_sapling_address}
use zewif_zcashd.Wallet.Tx.{TxLibrary}
use zewif_zcashd.Dump.{DbKey, DbValue, ZcashdDump}
use zewif_zcashd.Dump.Index.{IsIndexed}
use zewif_zcashd.Zcashd.Records.{
  parse_address_names, parse_address_purposes, parse_sapling_z_addresses, parse_cscripts,
  parse_key_pool, parse_watch_scripts, parse_wallet_keys, wallet_key_round, sort_by_data,
}
use zewif_zcashd.Zcashd.Records.Laws.{unique_entry-Handles}
use zewif_zcashd.Zcashd.Sapling.{SaplingLibrary, parse_sapling_extended_full_viewing_keys}
use zewif_zcashd.Zcashd.Accounts.{
  AccountLibrary, parse_unified_accounts, no_accounts, parse_send_recipients,
}
use zewif_zcashd.Zcashd.Transactions.{parse_transactions}
use zewif_zcashd.Zcashd.Effects.{Handles, Handles-first, Handles-then, Shrinks-pure}
use zewif_zcashd.Zcashd.State.{Z, for_records, records_of, has_keys}
use zewif_zcashd.Zcashd.Effects.Marks.{
  Marks-Shrinks, Handles-loop, contains-append, Effect-Marks, Marks, Marks-pure, Marks-if,
  Marks-bind, Marks-for_records, Marks-records_of,
}
use zewif_zcashd.Zcashd.Wallet.Known.{
  known_names, Handles-read, Named-absent, IsKnown, IsKnown-of_name, Does, Does-guarded,
  Does-allowed, Does-arranged, as_found, All-sort_by_data, contains_key-sort_by_data,
}
use zewif_zcashd.Zcashd.Wallet.Rounds.{
  Marks-unique_entry, Marks-key_pool_round, Handles-key_pool_round, Marks-wallet_key_round,
  Handles-wallet_key_round, Marks-watch_script_round, Handles-watch_script_round,
  Marks-viewing_key_round, Handles-viewing_key_round, Marks-address_metadata_round,
  Marks-account_metadata_round, Marks-full_viewing_key_round, Handles-address_metadata_round,
  Handles-account_metadata_round, Handles-full_viewing_key_round, Marks-send_recipient_round,
  Handles-send_recipient_round, Marks-transaction_round, Handles-transaction_round,
}

-- The names of which a success of `parse_unified_accounts` leaves no key unparsed, with an address
-- record and without.
abbrev pub account_names : Bool → List Bytes
account_names true = codes "unifiedaddrmeta" ∷ codes "unifiedaccount" ∷ codes "unifiedfvk" ∷ []
account_names false = codes "unifiedaddrmeta" ∷ []

length-contains_key :
    (keys : Ord DbKey) (k : DbKey) (records : List (DbKey × DbValue))
    → contains_key keys k records ≡ true
    → (length records == 0) ≡ false
unfolding contains_key
length-contains_key keys k [] e = absurd (cc)
length-contains_key keys k (r ∷ records) e =
    let long : 0 < length (r ∷ records) = omega arith in ground arith

module _ (names : Ord Bytes) (keys : Ord DbKey) (d : ZcashdDump) (h : IsIndexed names keys d) where
  pub Does-parse_address_names :
      Does names keys d h (codes "name" ∷ []) (parse_address_names names keys d)
  unfolding parse_address_names contains bytes_eq
  Does-parse_address_names =
      Does-arranged names keys d h (codes "name") refl as_found (λ records q. q) (λ k records c. c)
        _ (Marks-unique_entry _ _ _ _ _) [] (unique_entry-Handles _ _ _ _ _)

  pub Does-parse_address_purposes :
      Does names keys d h (codes "purpose" ∷ []) (parse_address_purposes names keys d)
  unfolding parse_address_purposes contains bytes_eq
  Does-parse_address_purposes =
      Does-arranged names keys d h (codes "purpose") refl as_found (λ records q. q)
        (λ k records c. c) _ (Marks-unique_entry _ _ _ _ _) [] (unique_entry-Handles _ _ _ _ _)

  pub Does-parse_sapling_z_addresses :
      Does names keys d h (codes "sapzaddr" ∷ []) (parse_sapling_z_addresses names keys d)
  unfolding parse_sapling_z_addresses contains bytes_eq
  Does-parse_sapling_z_addresses = Does-guarded names keys d h (codes "sapzaddr") [] (
      Does-arranged names keys d h (codes "sapzaddr") refl as_found (λ records q. q)
        (λ k records c. c) _ (Marks-unique_entry _ _ _ _ _) [] (unique_entry-Handles _ _ _ _ _))

  pub Does-parse_cscripts : Does names keys d h (codes "cscript" ∷ []) (parse_cscripts names keys d)
  unfolding parse_cscripts contains bytes_eq
  Does-parse_cscripts = Does-guarded names keys d h (codes "cscript") [] (
      Does-arranged names keys d h (codes "cscript") refl as_found (λ records q. q)
        (λ k records c. c) _ (Marks-unique_entry _ _ _ _ _) [] (unique_entry-Handles _ _ _ _ _))

  pub Does-parse_key_pool : Does names keys d h (codes "pool" ∷ []) (parse_key_pool names keys d)
  unfolding parse_key_pool contains bytes_eq
  Does-parse_key_pool =
      Does-arranged names keys d h (codes "pool") refl as_found (λ records q. q) (λ k records c. c)
        _ (Marks-key_pool_round) [] (Handles-key_pool_round)

  pub Does-parse_watch_scripts :
      (datas : Ord Bytes)
      → Does names keys d h (codes "watchs" ∷ []) (parse_watch_scripts names keys d datas)
  unfolding parse_watch_scripts contains bytes_eq
  Does-parse_watch_scripts datas = Does-guarded names keys d h (codes "watchs") [] (
      Does-arranged names keys d h (codes "watchs") refl (sort_by_data datas)
        (All-sort_by_data datas IsKnown)
        (λ k records c. contains_key-sort_by_data datas keys k records c) _
        (Marks-watch_script_round) [] (Handles-watch_script_round))

  pub Does-parse_sapling_extended_full_viewing_keys :
      {ExtSk ExtFvk : Type 0} (sapling : SaplingLibrary ExtSk ExtFvk)
      → Does names keys d h
          (codes "sapextfvk" ∷ [])
          (parse_sapling_extended_full_viewing_keys sapling names keys d)
  unfolding parse_sapling_extended_full_viewing_keys contains bytes_eq
  Does-parse_sapling_extended_full_viewing_keys sapling =
      Does-guarded names keys d h (codes "sapextfvk") [] (
        Does-arranged names keys d h (codes "sapextfvk") refl as_found (λ records q. q)
          (λ k records c. c) _ (Marks-viewing_key_round sapling) []
          (Handles-viewing_key_round sapling))

  pub Does-parse_send_recipients :
      (read_txid : P Bytes)
      → Does names keys d h
          (codes "recipientmapping" ∷ [])
          (parse_send_recipients read_txid names keys d)
  unfolding parse_send_recipients contains bytes_eq
  Does-parse_send_recipients read_txid = Does-guarded names keys d h (codes "recipientmapping") [] (
      Does-arranged names keys d h (codes "recipientmapping") refl as_found (λ records q. q)
        (λ k records c. c) _ (Marks-send_recipient_round read_txid) []
        (Handles-send_recipient_round read_txid))

  pub Does-parse_transactions :
      {Transaction OrchardIvk : Type 0} (txs : TxLibrary Transaction OrchardIvk) (datas : Ord Bytes)
      (strict : Bool)
      → Does names keys d h (codes "tx" ∷ []) (parse_transactions txs names keys d datas strict)
  unfolding parse_transactions contains bytes_eq
  Does-parse_transactions txs datas strict = Does-allowed names keys d h (codes "tx") [] (
      Does-arranged names keys d h (codes "tx") refl (sort_by_data datas)
        (All-sort_by_data datas IsKnown)
        (λ k records c. contains_key-sort_by_data datas keys k records c) _
        (Marks-transaction_round txs strict) [] (Handles-transaction_round txs strict))

  pub Does-parse_wallet_keys :
      Does names keys d h (codes "wkey" ∷ []) (parse_wallet_keys names keys d)
  unfolding parse_wallet_keys contains bytes_eq
  Does-parse_wallet_keys = Does-guarded names keys d h (codes "wkey") none (record {
    marks =
        Marks-records_of IsKnown names keys d h (codes "wkey") _
          (IsKnown-of_name (codes "wkey") refl)
          λ records q. Marks-if IsKnown _ (Marks-pure IsKnown none) (
            Marks-bind IsKnown _
              (Marks-for_records IsKnown wallet_key_round Marks-wallet_key_round records [] q)
              (λ m. Marks-pure IsKnown (some m)));
    handles = λ k named. Handles-read names keys d h (codes "wkey") refl k named λ records q c.
        rw (length-contains_key keys k records c) (
          Handles-first k _
            (Handles-loop IsKnown keys wallet_key_round Marks-wallet_key_round
              Handles-wallet_key_round records [] k q c)
            (λ m. Shrinks-pure (some m)));
  })

  -- A loop over the records of a name, and what follows it.
  module _ {A : Type 0} (n : Bytes) (known : contains n known_names ≡ true)
      (body : A → DbKey → DbValue → Z A)
      (marks : (a : A) (key : DbKey) (value : DbValue)
        → IsKnown key
        → Marks IsKnown (body a key value))
      (own : (a : A) (key : DbKey) (value : DbValue) → Handles key (body a key value)) (a : A) where
    Does-loop_then :
        {B : Type 0} {ns : List Bytes} {f : A → Z B}
        → ((b : A) → Does names keys d h ns (f b))
        → Does names keys d h
            (n ∷ ns)
            (records_of names keys d n >>= λ records. for_records body records a >>= f)
    Does-loop_then {ns = ns} {f = f} after = record {
      marks = Marks-records_of IsKnown names keys d h n _ (IsKnown-of_name n known) λ records q.
          Marks-bind IsKnown f (Marks-for_records IsKnown body marks records a q)
            (λ b. (after b).marks);
      handles = λ k (e, there). elim (contains-append k.keyname (n ∷ []) ns e) [
        | inl here ↦
            Handles-read names keys d h n known k (here, there)
              λ records q c.
                Handles-first k f (Handles-loop IsKnown keys body marks own records a k q c)
                  (λ b. Marks-Shrinks IsKnown ((after b).marks))
        | inr later ↦ Handles-then k (records_of names keys d n) _ λ records.
            Handles-then k (for_records body records a) f λ b. (after b).handles k (later, there)
      ];
    }

  pub Does-parse_unified_accounts :
      {Ufvk : Type 0} (accounts : AccountLibrary Ufvk)
      → Does names keys d h
          (account_names (has_keys names keys d (codes "unifiedaddrmeta")))
          (parse_unified_accounts accounts names keys d)
  unfolding parse_unified_accounts contains bytes_eq
  Does-parse_unified_accounts accounts =
      elim (Bool-cases (has_keys names keys d (codes "unifiedaddrmeta"))) [
        | inl has ↦ rw has (
            Does-loop_then (codes "unifiedaddrmeta") refl _ (Marks-address_metadata_round accounts)
              (Handles-address_metadata_round accounts) []
              λ addresses.
                Does-loop_then (codes "unifiedaccount") refl _
                  (Marks-account_metadata_round accounts) (Handles-account_metadata_round accounts)
                  []
                  λ infos.
                    Does-loop_then (codes "unifiedfvk") refl _
                      (Marks-full_viewing_key_round accounts)
                      (Handles-full_viewing_key_round accounts) []
                      λ fvks. Effect-Marks IsKnown keys d (Marks-pure IsKnown _))
        | inr away ↦ rw away (record {
          marks = Marks-pure IsKnown no_accounts;
          handles = λ k named.
              let bad = Named-absent names keys d h (codes "unifiedaddrmeta") k away named in
              absurd (cc);
        })
      ]
