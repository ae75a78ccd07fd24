-- ===== src/Wallet/Transparent/Laws.antt =====
-- What the parser of public keys reads, and that the parsers of keys and ids depend only on the bytes they
-- take.
use zewif_zcashd.Base.{ℕ, ◌≡◌, subst, ◌∷◌, length, arith}
use zewif_zcashd.Wire.Error.{with_frame, text}
use zewif_zcashd.Wire.Parser.{Bytes, next}
use zewif_zcashd.Wire.Reads.{Reads, Reads-bind, Reads-with_frame, Reads-next}
use zewif_zcashd.Wire.Local.{IsLocal, local}
use zewif_zcashd.Wire.CompactSize.Canonical.{compact_size_bytes}
use zewif_zcashd.Wire.Collections.Laws.{Reads-compact_size, IsLocal-compact_size}
use zewif_zcashd.Wallet.Words.Laws.{IsLocal-u160, IsLocal-u256}
use zewif_zcashd.Wallet.Transparent.{pub_key, priv_key, key_id, script_id}

next_of :
    (n : ℕ) (key : Bytes) → length key ≡ n → Reads (with_frame (text "PubKey") (next n)) key key
next_of n key e = Reads-with_frame _ (subst (λ k. Reads (next k) key key) e (Reads-next key))

-- A key of 33 or of 65 bytes, behind its length.
pub Reads-pub_key_compressed : (key : Bytes) → length key ≡ 33 → Reads pub_key (33 ∷ key) key
unfolding pub_key compact_size_bytes
Reads-pub_key_compressed key e =
    Reads-bind _ (Reads-with_frame _ (Reads-compact_size 33 (omega arith))) (next_of 33 key e)

pub Reads-pub_key_uncompressed : (key : Bytes) → length key ≡ 65 → Reads pub_key (65 ∷ key) key
unfolding pub_key compact_size_bytes
Reads-pub_key_uncompressed key e =
    Reads-bind _ (Reads-with_frame _ (Reads-compact_size 65 (omega arith))) (next_of 65 key e)

pub IsLocal-pub_key : IsLocal pub_key
unfolding pub_key
IsLocal-pub_key = search (local, IsLocal-compact_size)

pub IsLocal-priv_key : IsLocal priv_key
unfolding priv_key
IsLocal-priv_key = search (local, IsLocal-compact_size, IsLocal-u256) depth 8

pub IsLocal-key_id : IsLocal key_id
unfolding key_id
IsLocal-key_id = search (local, IsLocal-u160)

pub IsLocal-script_id : IsLocal script_id
unfolding script_id
IsLocal-script_id = search (local, IsLocal-u160)
