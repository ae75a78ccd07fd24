-- ===== src/Wallet/Meta.antt =====
-- Small records: src/zcashd_wallet/client_version.rs, seconds_since_epoch.rs, key_metadata.rs,
-- mnemonic_hd_chain.rs, block_locator.rs and network_info.rs.
pub mod Laws
pub mod Chain
use zewif_zcashd.Base.{
  ℕ, ◌+◌, ◌-◌, ◌/◌, ◌%◌, ◌≡◌, Bool, true, false, ◌&&◌, ◌||◌, not, List, [], ◌∷◌, Option, none, some,
  ℤ, pos, negsuc, pure, raise, ◌>>=◌, if◌then◌else◌, ◌==◌, leb, ltb,
}
use zewif_zcashd.Base.Bytes.{codes, bytes_eq}
use zewif_zcashd.Wire.Error.{with_frame, text, of_kind, unrecognized_network}
use zewif_zcashd.Wire.Parser.{Bytes, P}
use zewif_zcashd.Wire.Ints.{u8, u32, u64, i32, bool}
use zewif_zcashd.Wire.Collections.{string, parse_pair, parse_vec}
use zewif_zcashd.Wallet.Words.{byte_array, u256}

pub record ClientVersion : Type 0 where
  pub version : ℕ
  pub major : ℕ
  pub minor : ℕ
  pub revision : ℕ
  pub build : ℕ

unfoldable pub from_integer : ℕ → ClientVersion
from_integer version =
    let remainder = version % 1_000_000 in
    let remainder' = remainder % 10_000 in
    record {
      version = version;
      major = version / 1_000_000;
      minor = remainder / 10_000;
      revision = remainder' / 100;
      build = remainder' % 100;
    }

unfoldable pub client_version : P ClientVersion
client_version = do version ← with_frame (text "ClientVersion") u32; pure (from_integer version)

-- What `Display` writes behind the three numbers.
pub data Stage : Type 0 where
  beta rc build_of : ℕ → Stage
  release : Stage

unfoldable pub stage : ClientVersion → Stage
stage v =
    if ltb v.build 25
    then beta (v.build + 1)
    else if ltb v.build 50
    then rc (v.build - 24)
    else if v.build == 50
    then release
    else build_of (v.build - 50)

unfoldable pub seconds_since_epoch : P ℕ
seconds_since_epoch = do seconds ← with_frame (text "seconds") u64; pure seconds

abbrev pub is_zero : ℕ → Bool
is_zero seconds = seconds == 0

pub record KeyMetadata : Type 0 where
  pub version : ℤ
  pub create_time : Option ℕ
  pub hd_keypath : Option Bytes
  pub seed_fp : Option Bytes

-- `VERSION_WITH_HDDATA`, on an i32.
unfoldable pub has_hd_data : ℤ → Bool
has_hd_data (pos n) = leb 10 n
has_hd_data (negsuc n) = false

-- Whether `trim` leaves nothing: every character is white space.
unfoldable pub is_blank : Bytes → Bool
is_blank [] = true
is_blank (b ∷ []) = leb 0x09 b && leb b 0x0d || b == 0x20
is_blank (b ∷ c ∷ []) =
    let one = is_blank (c ∷ []) in
    if leb 0x09 b && leb b 0x0d || b == 0x20 then one else b == 0xc2 && (c == 0x85 || c == 0xa0)
is_blank (b ∷ c ∷ d ∷ r) =
    let one = is_blank (c ∷ d ∷ r) in
    let two = is_blank (d ∷ r) in
    let three = is_blank r in
    if leb 0x09 b && leb b 0x0d || b == 0x20
    then one
    else if b == 0xc2 && (c == 0x85 || c == 0xa0)
    then two
    else (b == 0xe1 && c == 0x9a && d == 0x80
        || b == 0xe2
          && c == 0x80
          && (leb 0x80 d && leb d 0x8a || d == 0xa8 || d == 0xa9 || d == 0xaf)
        || b == 0xe2 && c == 0x81 && d == 0x9f
        || b == 0xe3 && c == 0x80 && d == 0x80)
      && three

unfoldable pub all_zero : Bytes → Bool
all_zero [] = true
all_zero (b ∷ bs) = b == 0 && all_zero bs

-- `Option::filter`
abbrev pub keep_unless {ℓ} : {A : Type ℓ} → (A → Bool) → Option A → Option A
keep_unless test none = none
keep_unless test (some a) = if test a then none else some a

-- The fields that only a version with HD data holds.
unfoldable pub hd_data : Bool → P (Option Bytes × Option Bytes)
hd_data true = do
  hd_keypath ← with_frame (text "hd_keypath") string
  seed_fp ← with_frame (text "seed_fp") (byte_array 32)
  pure (some hd_keypath, some seed_fp)
hd_data false = pure (none, none)

unfoldable pub key_metadata : P KeyMetadata
unfolding is_blank all_zero has_hd_data
key_metadata = do
  version ← with_frame (text "version") i32
  create_time ← with_frame (text "create_time") seconds_since_epoch
  (hd_keypath, seed_fp) ← hd_data (has_hd_data version)
  pure (record {
    version = version;
    create_time = if is_zero create_time then none else some create_time;
    hd_keypath = keep_unless is_blank hd_keypath;
    seed_fp = keep_unless all_zero seed_fp;
  })

pub record MnemonicHdChain : Type 0 where
  pub version : ℤ
  pub seed_fp : Bytes
  pub create_time : ℕ
  pub account_counter : ℕ
  pub legacy_tkey_external_counter : ℕ
  pub legacy_tkey_internal_counter : ℕ
  pub legacy_sapling_key_counter : ℕ
  pub mnemonic_seed_backup_confirmed : Bool

unfoldable pub mnemonic_hd_chain : P MnemonicHdChain
mnemonic_hd_chain = do
  version ← with_frame (text "version") i32
  seed_fp ← with_frame (text "seed_fp") (byte_array 32)
  create_time ← with_frame (text "create_time") seconds_since_epoch
  account_counter ← with_frame (text "account_counter") u32
  external ← with_frame (text "legacy_tkey_external_counter") u32
  internal ← with_frame (text "legacy_tkey_internal_counter") u32
  sapling ← with_frame (text "legacy_sapling_key_counter") u32
  confirmed ← with_frame (text "mnemonic_seed_backup_confirmed") bool
  pure (record {
    version = version;
    seed_fp = seed_fp;
    create_time = create_time;
    account_counter = account_counter;
    legacy_tkey_external_counter = external;
    legacy_tkey_internal_counter = internal;
    legacy_sapling_key_counter = sapling;
    mnemonic_seed_backup_confirmed = confirmed;
  })

pub record BlockLocator : Type 0 where
  pub version : ClientVersion
  pub blocks : List Bytes

unfoldable pub block_locator : P BlockLocator
block_locator = do
  version ← with_frame (text "version") client_version
  blocks ← with_frame (text "blocks") (parse_vec 32 u256)
  pure (record { version = version; blocks = blocks })

pub data Network : Type 0 where
  mainnet testnet regtest : Network

pub record NetworkInfo : Type 0 where
  pub zcash : Bytes
  pub network : Network

-- The match on the identifier string.
unfoldable pub network_of : Bytes → P Network
unfolding bytes_eq
network_of identifier =
    if bytes_eq identifier (codes "main")
    then pure mainnet
    else if bytes_eq identifier (codes "test")
    then pure testnet
    else if bytes_eq identifier (codes "regtest")
    then pure regtest
    else raise (of_kind (unrecognized_network identifier))

unfoldable pub network_info : P NetworkInfo
network_info = do
  (zcash, identifier) ← with_frame (text "(zcash, identifier)") (parse_pair string string)
  network ← network_of identifier
  pure (record { zcash = zcash; network = network })
