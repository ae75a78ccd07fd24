-- ===== src/Wallet/Meta/Laws.antt =====
-- What the parsers of key metadata read, the digits of a client version, and that the parsers of the small
-- records depend only on the bytes they take.
use zewif_zcashd.Base.{
  ℕ, ◌+◌, ◌*◌, ◌^◌, ◌<◌, ◌≡◌, Bool, true, false, ◌++◌, none, some, ℤ, if◌then◌else◌, ◌==◌, length,
  arith,
}
use zewif_zcashd.Wire.Parser.{Bytes}
use zewif_zcashd.Wire.Reads.{Reads, Reads-bind, Reads-map, Reads-pure, Reads-with_frame}
use zewif_zcashd.Wire.Local.{IsLocal, local}
use zewif_zcashd.Wire.Ints.{to_le_bytes, to_unsigned}
use zewif_zcashd.Wire.Ints.Endian.{IsSigned}
use zewif_zcashd.Wire.Ints.Laws.{ints_local, Reads-u64, Reads-i32}
use zewif_zcashd.Wire.Utf8.{is_utf8}
use zewif_zcashd.Wire.CompactSize.Canonical.{compact_size_bytes}
use zewif_zcashd.Wire.Collections.Laws.{
  Reads-string, IsLocal-string, IsLocal-parse_vec, IsLocal-parse_pair,
}
use zewif_zcashd.Wallet.Words.Laws.{Reads-byte_array_of, IsLocal-byte_array, IsLocal-u256}
use zewif_zcashd.Wallet.Meta.{
  from_integer, client_version, seconds_since_epoch, has_hd_data, is_blank, all_zero, hd_data,
  key_metadata, mnemonic_hd_chain, block_locator, network_of, network_info,
}

-- The components that from_integer gives any number make it up again, and minor, revision and build
-- are below 100.
pub from_integer_digits :
    (n : ℕ)
    → let v = from_integer n in
      (v.major * 1_000_000 + v.minor * 10_000 + v.revision * 100 + v.build ≡ n)
      × (v.minor < 100)
      × (v.revision < 100)
      × (v.build < 100)
unfolding from_integer
from_integer_digits n = (omega arith, omega arith, omega arith, omega arith)

IsLocal-client_version : IsLocal client_version
unfolding client_version
IsLocal-client_version = search ints_local

IsLocal-seconds_since_epoch : IsLocal seconds_since_epoch
unfolding seconds_since_epoch
IsLocal-seconds_since_epoch = search ints_local

IsLocal-hd_data : (b : Bool) → IsLocal (hd_data b)
unfolding hd_data
IsLocal-hd_data true = search (local, IsLocal-string, IsLocal-byte_array)
IsLocal-hd_data false = search local

ruleset meta_local = (
  ints_local, IsLocal-client_version, IsLocal-seconds_since_epoch, IsLocal-hd_data, IsLocal-string,
  IsLocal-byte_array, IsLocal-u256, IsLocal-parse_vec, IsLocal-parse_pair,
)

pub IsLocal-key_metadata : IsLocal key_metadata
unfolding key_metadata
IsLocal-key_metadata = search meta_local depth 12

pub IsLocal-mnemonic_hd_chain : IsLocal mnemonic_hd_chain
unfolding mnemonic_hd_chain
IsLocal-mnemonic_hd_chain = search meta_local depth 30

pub IsLocal-block_locator : IsLocal block_locator
unfolding block_locator
IsLocal-block_locator = search meta_local

IsLocal-network_of : (identifier : Bytes) → IsLocal (network_of identifier)
unfolding network_of
IsLocal-network_of identifier = search local depth 8

pub IsLocal-network_info : IsLocal network_info
unfolding network_info
IsLocal-network_info = search (meta_local, IsLocal-network_of)

pub Reads-seconds_since_epoch : (t : ℕ) → t < 2 ^ 64 → Reads seconds_since_epoch (to_le_bytes 8 t) t
unfolding seconds_since_epoch
Reads-seconds_since_epoch t h = Reads-map _ (Reads-with_frame _ (Reads-u64 t h)) (Reads-pure t)

-- A record as zcashd writes it, without and with the fields on the HD seed.
abbrev pub key_metadata_head : (version : ℤ) (create_time : ℕ) → Bytes
key_metadata_head version create_time =
    to_le_bytes 4 (to_unsigned 32 version) ++ to_le_bytes 8 create_time

abbrev pub hd_bytes : (path fp : Bytes) → Bytes
hd_bytes path fp = (compact_size_bytes (length path) ++ path) ++ fp

Reads-hd_data :
    (path fp : Bytes)
    → length path < 2 ^ 64
    → is_utf8 path ≡ true
    → length fp ≡ 32
    → Reads (hd_data true) (hd_bytes path fp) (some path, some fp)
unfolding hd_data
Reads-hd_data path fp h u n =
    Reads-bind _ (Reads-with_frame _ (Reads-string path h u))
      (Reads-map _ (Reads-with_frame _ (Reads-byte_array_of 32 fp n (omega arith))) (Reads-pure _))

-- The encoding of metadata of a version with HD data, with a creation time below 2 ^ 64, a UTF-8
-- path shorter than 2 ^ 64 and a fingerprint of 32 bytes, is read as that metadata, in which a
-- creation time of 0, a blank path and a fingerprint of zeros count as absent.
pub Reads-key_metadata_hd :
    (version : ℤ) (create_time : ℕ) (path fp : Bytes)
    → IsSigned 32 version
    → has_hd_data version ≡ true
    → create_time < 2 ^ 64
    → length path < 2 ^ 64
    → is_utf8 path ≡ true
    → length fp ≡ 32
    → Reads key_metadata
        (to_le_bytes 4 (to_unsigned 32 version) ++ (to_le_bytes 8 create_time ++ hd_bytes path fp))
        (record {
          version = version;
          create_time = if create_time == 0 then none else some create_time;
          hd_keypath = if is_blank path then none else some path;
          seed_fp = if all_zero fp then none else some fp;
        })
unfolding key_metadata
Reads-key_metadata_hd version create_time path fp hv hd ht hp u hf =
    Reads-bind _ (Reads-with_frame _ (Reads-i32 version hv)) (
      Reads-bind _ (Reads-with_frame _ (Reads-seconds_since_epoch create_time ht))
        (rw hd (Reads-map _ (Reads-hd_data path fp hp u hf) (Reads-pure _))))

pub Reads-key_metadata_plain :
    (version : ℤ) (create_time : ℕ)
    → IsSigned 32 version
    → has_hd_data version ≡ false
    → create_time < 2 ^ 64
    → Reads key_metadata
        (to_le_bytes 4 (to_unsigned 32 version) ++ to_le_bytes 8 create_time)
        (record {
          version = version;
          create_time = if create_time == 0 then none else some create_time;
          hd_keypath = none;
          seed_fp = none;
        })
unfolding key_metadata hd_data
Reads-key_metadata_plain version create_time hv hd ht =
    Reads-bind _ (Reads-with_frame _ (Reads-i32 version hv)) (
      Reads-map _ (Reads-with_frame _ (Reads-seconds_since_epoch create_time ht))
        (rw hd (Reads-pure _)))
