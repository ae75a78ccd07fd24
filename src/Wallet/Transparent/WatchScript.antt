-- ===== src/Wallet/Transparent/WatchScript.antt =====
-- src/zcashd_wallet/transparent/watch_script.rs: the kinds of watch-only scripts.
pub mod Inverse
pub mod Standard
use zewif_zcashd.Base.{
  ℕ, ◌-◌, ◌&&◌, ◌||◌, [], ◌∷◌, Option, none, some, Result, ok, err, panic, pure, ◌>>=◌,
  if◌then◌else◌, ◌==◌, length, take, drop, get_elem?, Bool, true, false,
}
use zewif_zcashd.Wire.Error.{ParseError, with_frame, text}
use zewif_zcashd.Wire.Parser.{Bytes, P, parse_buf}
use zewif_zcashd.Wire.Collections.{data_bytes}
use zewif_zcashd.Wallet.Words.{u160_from_slice}
use zewif_zcashd.Wallet.Transparent.{pub_key}

-- Opcodes.
abbrev pub op_dup : ℕ
op_dup = 0x76

abbrev pub op_equal : ℕ
op_equal = 0x87

abbrev pub op_equalverify : ℕ
op_equalverify = 0x88

abbrev pub op_hash160 : ℕ
op_hash160 = 0xa9

abbrev pub op_checksig : ℕ
op_checksig = 0xac

abbrev pub pushbytes_20 : ℕ
pushbytes_20 = 0x14

abbrev pub pushbytes_33 : ℕ
pushbytes_33 = 0x21

abbrev pub pushbytes_65 : ℕ
pushbytes_65 = 0x41

pub data WatchScriptKind : Type 0 where
  p2pk : (pubkey : Bytes) → WatchScriptKind
  p2pkh : (key_id : Bytes) → WatchScriptKind
  p2sh : (script_id : Bytes) → WatchScriptKind
  other : (script : Bytes) → WatchScriptKind

-- `script[i] == v`, where a test of the length has shown that `i` is in range.
abbrev pub byte_is : ℕ → ℕ → Bytes → Bool
byte_is i v script = elim (get_elem? script i) [ none ↦ false | some b ↦ b == v ]

-- `script[a..b]`, in range too.
abbrev pub slice : ℕ → ℕ → Bytes → Bytes
slice a b script = take (b - a) (drop a script)

-- `if let Ok(x) = r { return f(x) }`, and the code below it.
abbrev pub if_ok :
    Result ParseError Bytes → (Bytes → WatchScriptKind) → WatchScriptKind → WatchScriptKind
if_ok (ok x) f below = f x
if_ok (err e) f below = below
if_ok panic f below = below

abbrev pub is_p2pkh : Bytes → Bool
is_p2pkh script =
    length script == 25
    && byte_is 0 op_dup script
    && byte_is 1 op_hash160 script
    && byte_is 2 pushbytes_20 script
    && byte_is 23 op_equalverify script
    && byte_is 24 op_checksig script

abbrev pub is_p2sh : Bytes → Bool
is_p2sh script =
    length script == 23
    && byte_is 0 op_hash160 script
    && byte_is 1 pushbytes_20 script
    && byte_is 22 op_equal script

abbrev pub is_p2pk_compressed : Bytes → Bool
is_p2pk_compressed script =
    length script == 35
    && byte_is 0 pushbytes_33 script
    && byte_is 34 op_checksig script
    && (byte_is 1 0x02 script || byte_is 1 0x03 script)

abbrev pub is_p2pk_uncompressed : Bytes → Bool
is_p2pk_uncompressed script =
    length script == 67
    && byte_is 0 pushbytes_65 script
    && byte_is 66 op_checksig script
    && byte_is 1 0x04 script

-- One test of `classify`: a pattern, what to make of the slice, and the code below.
abbrev pub arm :
    Bool → Result ParseError Bytes → (Bytes → WatchScriptKind) → WatchScriptKind → WatchScriptKind
arm test payload kind below = if test then if_ok payload kind below else below

unfoldable pub classify : Bytes → WatchScriptKind
classify script = arm (is_p2pkh script) (u160_from_slice (slice 3 23 script)) p2pkh (
    arm (is_p2sh script) (u160_from_slice (slice 2 22 script)) p2sh (
      arm (is_p2pk_compressed script) (parse_buf pub_key (slice 0 34 script) false) p2pk (
        arm (is_p2pk_uncompressed script) (parse_buf pub_key (slice 0 66 script) false) p2pk
          (other script))))

pub record WatchScript : Type 0 where
  pub script : Bytes
  pub kind : WatchScriptKind

-- `Parse for WatchScript`, on the data of a `Script`.
unfoldable pub watch_script : P WatchScript
unfolding classify
watch_script = do
  script ← with_frame (text "watch-only script") (with_frame (text "Script") data_bytes)
  pure (record { script = script; kind = classify script })

-- `to_address_string`, with the encoders of addresses of another crate.
unfoldable pub to_address_string :
    {Address : Type 0}
    → (p2pkh_address p2sh_address : Bytes → Address) → WatchScript
    → Option Address
to_address_string p2pkh_address p2sh_address watch = elim (watch.kind) [
  | p2pkh key_id ↦ some (p2pkh_address key_id)
  | p2sh script_id ↦ some (p2sh_address script_id)
  | _ ↦ none
]
