-- ===== src/Wallet/Transparent/WatchScript/Inverse.antt =====
-- Classification keeps the whole script: the kind and its payload spell it out again.
use zewif_zcashd.Base.{
  ℕ, zero, suc, ◌≡◌, refl, ap, [], ◌∷◌, ◌++◌, Result, ok, ==_iff, ◌&&◌, Bool, true, false, length,
  take, arith, length-take,
}
use zewif_zcashd.Wire.Error.{ParseError}
use zewif_zcashd.Wire.Parser.{Bytes, parse_buf}
use zewif_zcashd.Wire.Buffer.{parse_buf-Reads}
use zewif_zcashd.Wallet.Words.{u160_from_slice, try_from}
use zewif_zcashd.Wallet.Transparent.{pub_key}
use zewif_zcashd.Wallet.Transparent.Laws.{Reads-pub_key_compressed, Reads-pub_key_uncompressed}
use zewif_zcashd.Wallet.Transparent.WatchScript.{
  op_dup, op_equal, op_equalverify, op_hash160, op_checksig, pushbytes_20, pushbytes_33,
  pushbytes_65, WatchScriptKind, p2pk, p2pkh, p2sh, other, byte_is, slice, arm, is_p2pkh, is_p2sh,
  is_p2pk_compressed, is_p2pk_uncompressed, classify,
}

-- The script that a kind stands for.
unfoldable pub script_of : WatchScriptKind → Bytes
script_of (p2pkh key_id) =
    op_dup ∷ op_hash160 ∷ pushbytes_20 ∷ (key_id ++ op_equalverify ∷ op_checksig ∷ [])
script_of (p2sh script_id) = op_hash160 ∷ pushbytes_20 ∷ (script_id ++ op_equal ∷ [])
script_of (p2pk pubkey) = length pubkey ∷ (pubkey ++ op_checksig ∷ [])
script_of (other script) = script

-- A list whose elements from `n` on are known.
ends_in :
    (n : ℕ) (r : Bytes) (x : ℕ) → length r ≡ suc n → byte_is n x r ≡ true → r ≡ take n r ++ x ∷ []
ends_in zero (y ∷ []) x e h = ap (λ z. z ∷ []) ((==_iff y x).0 h)
ends_in zero (y ∷ z ∷ r) x e h = absurd (omega arith)
ends_in n [] x e h = absurd (omega arith)
ends_in (suc n) (y ∷ r) x e h = ap (λ l. y ∷ l) (ends_in n r x (omega arith) h)

ends_in_two :
    (n : ℕ) (r : Bytes) (x y : ℕ)
    → length r ≡ suc (suc n)
    → byte_is n x r ≡ true
    → byte_is (suc n) y r ≡ true
    → r ≡ take n r ++ x ∷ y ∷ []
ends_in_two n [] x y e h k = absurd (omega arith)
ends_in_two zero (z ∷ r) x y e h k = cc ((==_iff z x).0 h, ends_in zero r y (omega arith) k)
ends_in_two (suc n) (z ∷ r) x y e h k = ap (λ l. z ∷ l) (ends_in_two n r x y (omega arith) h k)

and_true : (a b : Bool) → (a && b) ≡ true → (a ≡ true) × (b ≡ true)
and_true true true h = (refl, refl)
and_true true false h = cc
and_true false b h = cc

abbrev Spells : Bytes → WatchScriptKind → Type 0
Spells script kind = script_of kind ≡ script

-- The script of a payload that was read.
pub from_slice_is : (h : Bytes) → length h ≡ 20 → u160_from_slice h ≡ ok h
unfolding u160_from_slice try_from
from_slice_is h e = rw ((==_iff (length h) 20).1 e)

-- Each arm: where the test holds, the payload is read, and with it the kind spells the script.
abbrev Read : Result ParseError Bytes → (Bytes → WatchScriptKind) → Bytes → Type 0
Read payload kind script = (x : Bytes) × (payload ≡ ok x) × Spells script (kind x)

p2pkh_arm :
    (script : Bytes)
    → is_p2pkh script ≡ true
    → Read (u160_from_slice (slice 3 23 script)) p2pkh script
unfolding script_of
p2pkh_arm (a ∷ b ∷ c ∷ r) h =
    let size : length r ≡ 22 = ground arith in
    let verify : byte_is 20 op_equalverify r ≡ true = ground arith in
    let check : byte_is 21 op_checksig r ≡ true = ground arith in
    let prefix : (a ≡ op_dup) × (b ≡ op_hash160) × (c ≡ pushbytes_20) =
      (ground arith, ground arith, ground arith) in
    (
      take 20 r,
      from_slice_is (take 20 r) (omega (arith, length-take 20 r)),
      cc (
        ends_in_two 20 r op_equalverify op_checksig size verify check,
        prefix.0,
        prefix.1,
        prefix.2,
      ),
    )
p2pkh_arm _ h = absurd (cc)

p2sh_arm :
    (script : Bytes)
    → is_p2sh script ≡ true
    → Read (u160_from_slice (slice 2 22 script)) p2sh script
unfolding script_of
p2sh_arm (a ∷ b ∷ r) h =
    let size : length r ≡ 21 = ground arith in
    let equal : byte_is 20 op_equal r ≡ true = ground arith in
    let prefix : (a ≡ op_hash160) × (b ≡ pushbytes_20) = (ground arith, ground arith) in
    (
      take 20 r,
      from_slice_is (take 20 r) (omega (arith, length-take 20 r)),
      cc (ends_in 20 r op_equal size equal, prefix.0, prefix.1),
    )
p2sh_arm _ h = absurd (cc)

compressed_arm :
    (script : Bytes)
    → is_p2pk_compressed script ≡ true
    → Read (parse_buf pub_key (slice 0 34 script) false) p2pk script
unfolding script_of
compressed_arm (a ∷ r) h =
    let size : length r ≡ 34 = ground arith in
    let check : byte_is 33 op_checksig r ≡ true = ground arith in
    let prefix : a ≡ pushbytes_33 = ground arith in
    let key : length (take 33 r) ≡ 33 = omega (arith, length-take 33 r) in
    (
      take 33 r,
      rw prefix (parse_buf-Reads (Reads-pub_key_compressed (take 33 r) key) false (omega arith)),
      cc (ends_in 33 r op_checksig size check, prefix, key),
    )
compressed_arm _ h = absurd (cc)

uncompressed_arm :
    (script : Bytes)
    → is_p2pk_uncompressed script ≡ true
    → Read (parse_buf pub_key (slice 0 66 script) false) p2pk script
unfolding script_of
uncompressed_arm (a ∷ r) h =
    let size : length r ≡ 66 = ground arith in
    let check : byte_is 65 op_checksig r ≡ true = ground arith in
    let prefix : a ≡ pushbytes_65 = ground arith in
    let key : length (take 65 r) ≡ 65 = omega (arith, length-take 65 r) in
    (
      take 65 r,
      rw prefix (parse_buf-Reads (Reads-pub_key_uncompressed (take 65 r) key) false (omega arith)),
      cc (ends_in 65 r op_checksig size check, prefix, key),
    )
uncompressed_arm _ h = absurd (cc)

arm-Spells :
    (test : Bool) (payload : Result ParseError Bytes) (kind : Bytes → WatchScriptKind)
    (below : WatchScriptKind) (script : Bytes)
    → (test ≡ true → Read payload kind script)
    → Spells script below
    → Spells script (arm test payload kind below)
arm-Spells true payload kind below script read rest = let (x, e, h) = read refl in rw e h
arm-Spells false payload kind below script read rest = rest

-- The kind that classify gives any script spells the script again: no byte is lost or changed, and
-- what is of no standard form is kept verbatim.
pub script_of-classify : (script : Bytes) → script_of (classify script) ≡ script
unfolding classify script_of
script_of-classify script = arm-Spells (is_p2pkh script) _ p2pkh _ script (p2pkh_arm script) (
    arm-Spells (is_p2sh script) _ p2sh _ script (p2sh_arm script) (
      arm-Spells (is_p2pk_compressed script) _ p2pk _ script (compressed_arm script)
        (arm-Spells (is_p2pk_uncompressed script) _ p2pk _ script (uncompressed_arm script) refl)))
