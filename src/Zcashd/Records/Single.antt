-- ===== src/Zcashd/Records/Single.antt =====
-- src/zcashd_parser.rs: the records of which there is one.
use zewif_zcashd.Base.{
  ℤ, String, false, not, Option, none, some, pure, ◌>>=◌, if◌then◌else◌, map_err,
}
use zewif_zcashd.Base.Bytes.{codes, eq_bytes}
use zewif_zcashd.Base.BTreeMap.{Ord}
use zewif_zcashd.Wire.Error.{for_keyname, push_frame}
use zewif_zcashd.Wire.Parser.{Bytes, P, parse_buf}
use zewif_zcashd.Wire.Ints.{i64}
use zewif_zcashd.Wallet.Meta.{
  ClientVersion, client_version, BlockLocator, block_locator, MnemonicHdChain, mnemonic_hd_chain,
  NetworkInfo, network_info,
}
use zewif_zcashd.Wallet.Transparent.{pub_key}
use zewif_zcashd.Dump.{DbKey, ZcashdDump, has_value_for_keyname}
use zewif_zcashd.Zcashd.State.{Z, parse_in, of_parse, marked_value}

-- `parse!` with a context that names the record.
abbrev parse_named {ℓ} : {A : Type ℓ} → String → Bytes → P A → Bytes → Z A
parse_named context keyname parse buf =
    of_parse (map_err (push_frame (for_keyname context keyname)) (parse_buf parse buf false))

module _ (names : Ord Bytes) (keys : Ord DbKey) (d : ZcashdDump) where
  unfoldable pub parse_i64 : Bytes → Z ℤ
  unfolding marked_value
  parse_i64 keyname = do
    value ← marked_value names keys d keyname
    parse_named "i64" keyname i64 value

  unfoldable pub parse_opt_i64 : Bytes → Z (Option ℤ)
  unfolding parse_i64
  parse_opt_i64 keyname =
      if has_value_for_keyname names keys d keyname
      then (do n ← parse_i64 keyname; pure (some n))
      else pure none

  unfoldable pub parse_client_version : Bytes → Z ClientVersion
  unfolding marked_value
  parse_client_version keyname = do
    value ← marked_value names keys d keyname
    parse_named "client version" keyname client_version value

  unfoldable pub parse_block_locator : Bytes → Z BlockLocator
  unfolding marked_value
  parse_block_locator keyname = do
    value ← marked_value names keys d keyname
    parse_named "block locator" keyname block_locator value

  unfoldable pub parse_opt_block_locator : Bytes → Z (Option BlockLocator)
  unfolding parse_block_locator
  parse_opt_block_locator keyname =
      if has_value_for_keyname names keys d keyname
      then (do locator ← parse_block_locator keyname; pure (some locator))
      else pure none

  unfoldable pub parse_default_key : Z Bytes
  unfolding marked_value
  parse_default_key = do
    value ← marked_value names keys d (codes "defaultkey")
    parse_in "defaultkey" pub_key value

  unfoldable pub parse_mnemonic_hd_chain : Z (Option MnemonicHdChain)
  unfolding marked_value
  parse_mnemonic_hd_chain =
      if not (has_value_for_keyname names keys d (codes "mnemonichdchain")) then pure none else (do
        value ← marked_value names keys d (codes "mnemonichdchain")
        chain ← parse_in "mnemonichdchain" mnemonic_hd_chain value
        pure (some chain))

  unfoldable pub parse_network_info : Z NetworkInfo
  unfolding marked_value
  parse_network_info = do
    value ← marked_value names keys d (codes "networkinfo")
    parse_in "network info" network_info value
