-- ===== src/Wallet/Meta/Chain.antt =====
-- What the parser of the mnemonic chain reads.
use zewif_zcashd.Base.{◌^◌, ◌<◌, ◌≡◌, ◌++◌, ◌∷◌, [], length, arith}
use zewif_zcashd.Wire.Parser.{Bytes}
use zewif_zcashd.Wire.Reads.{Reads, Reads-bind, Reads-map, Reads-pure, Reads-with_frame}
use zewif_zcashd.Wire.Ints.{to_le_bytes, to_unsigned}
use zewif_zcashd.Wire.Ints.Endian.{IsSigned}
use zewif_zcashd.Wire.Ints.Laws.{Reads-u32, Reads-i32, Reads-bool, bool_byte}
use zewif_zcashd.Wallet.Words.Laws.{Reads-byte_array_of}
use zewif_zcashd.Wallet.Meta.{MnemonicHdChain, mnemonic_hd_chain}
use zewif_zcashd.Wallet.Meta.Laws.{Reads-seconds_since_epoch}

-- The fields in their order.
abbrev pub chain_bytes : MnemonicHdChain → Bytes
chain_bytes c =
    to_le_bytes 4 (to_unsigned 32 c.version)
    ++ (c.seed_fp
        ++ (to_le_bytes 8 c.create_time
            ++ (to_le_bytes 4 c.account_counter
                ++ (to_le_bytes 4 c.legacy_tkey_external_counter
                    ++ (to_le_bytes 4 c.legacy_tkey_internal_counter
                        ++ (to_le_bytes 4 c.legacy_sapling_key_counter
                            ++ (bool_byte c.mnemonic_seed_backup_confirmed ∷ [])))))))

-- The ranges of the fields.
pub record IsInRange (c : MnemonicHdChain) : Type 0 where
  pub version : IsSigned 32 c.version
  pub seed_fp : length c.seed_fp ≡ 32
  pub create_time : c.create_time < 2 ^ 64
  pub account_counter : c.account_counter < 2 ^ 32
  pub legacy_tkey_external_counter : c.legacy_tkey_external_counter < 2 ^ 32
  pub legacy_tkey_internal_counter : c.legacy_tkey_internal_counter < 2 ^ 32
  pub legacy_sapling_key_counter : c.legacy_sapling_key_counter < 2 ^ 32

-- A mnemonic chain whose fields lie in their ranges is read off the fields' encodings in their
-- order.
pub Reads-mnemonic_hd_chain :
    (c : MnemonicHdChain) → IsInRange c → Reads mnemonic_hd_chain (chain_bytes c) c
unfolding mnemonic_hd_chain
Reads-mnemonic_hd_chain c h = Reads-bind _ (Reads-with_frame _ (Reads-i32 c.version h.version)) (
    Reads-bind _ (Reads-with_frame _ (Reads-byte_array_of 32 c.seed_fp h.seed_fp (omega arith))) (
      Reads-bind _ (Reads-with_frame _ (Reads-seconds_since_epoch c.create_time h.create_time)) (
        Reads-bind _ (Reads-with_frame _ (Reads-u32 c.account_counter h.account_counter)) (
          Reads-bind _
            (Reads-with_frame _
              (Reads-u32 c.legacy_tkey_external_counter h.legacy_tkey_external_counter))
            (Reads-bind _
              (Reads-with_frame _
                (Reads-u32 c.legacy_tkey_internal_counter h.legacy_tkey_internal_counter))
              (Reads-bind _
                (Reads-with_frame _
                  (Reads-u32 c.legacy_sapling_key_counter h.legacy_sapling_key_counter))
                (Reads-map _ (Reads-with_frame _ (Reads-bool c.mnemonic_seed_backup_confirmed))
                  (Reads-pure c))))))))
