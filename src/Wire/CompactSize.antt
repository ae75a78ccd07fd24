-- ===== src/Wire/CompactSize.antt =====
-- src/zcashd_wallet/compact_size.rs: the variable-length integer of Bitcoin.
pub mod Canonical
use zewif_zcashd.Base.{
  ℕ, ◌+◌, ◌^◌, ◌<◌, ◌≡◌, List, [], ◌∷◌, pure, raise, ◌>>=◌, if◌then◌else◌, ltb, ◌==◌,
}
use zewif_zcashd.Wire.Error.{with_frame, text, of_kind, non_canonical_compact_size}
use zewif_zcashd.Wire.Parser.{Bytes, P}
use zewif_zcashd.Wire.Ints.{u8, u16, u32, u64, to_le_bytes}

-- One arm of the match: the value must not fit the next shorter form.
unfoldable pub checked : ℕ → ℕ → ℕ → P ℕ
checked prefix least n =
    if ltb n least then raise (of_kind (non_canonical_compact_size prefix n)) else pure n

-- `n as usize` keeps a u64.
unfoldable pub parse_compact_size : P ℕ
parse_compact_size = do
  size ← with_frame (text "compact size") u8
  if size == 0xfd
      then (do n ← with_frame (text "compact size") u16; checked 0xfd 253 n)
      else if size == 0xfe
      then (do n ← with_frame (text "compact size") u32; checked 0xfe 0x10000 n)
      else if size == 0xff
      then (do n ← with_frame (text "compact size") u64; checked 0xff 0x100000000 n)
      else pure size
