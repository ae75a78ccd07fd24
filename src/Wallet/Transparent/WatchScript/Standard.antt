-- ===== src/Wallet/Transparent/WatchScript/Standard.antt =====
-- Each standard script is recognised as what it is.
use zewif_zcashd.Base.{
  ℕ, zero, suc, ◌≡◌, refl, subst, ◌⊎◌, inl, inr, [], ◌∷◌, ◌++◌, some, ◌||◌, true, false, length,
  take, get_elem?, arith, length-append, take-append,
}
use zewif_zcashd.Wire.Parser.{Bytes}
use zewif_zcashd.Wire.Buffer.{parse_buf-Reads}
use zewif_zcashd.Wallet.Transparent.Laws.{Reads-pub_key_compressed, Reads-pub_key_uncompressed}
use zewif_zcashd.Wallet.Transparent.WatchScript.{
  op_equal, op_equalverify, op_checksig, pushbytes_65, WatchScriptKind, p2pk, p2pkh, p2sh, other,
  byte_is, is_p2pkh, is_p2sh, is_p2pk_compressed, is_p2pk_uncompressed, classify,
}
use zewif_zcashd.Wallet.Transparent.WatchScript.Inverse.{script_of, from_slice_is}

-- A hash of 20 bytes, or a SEC1 public key: 33 bytes that begin with 2 or 3, or 65 that begin with 4.
abbrev pub IsSec1 : Bytes → Type 0
IsSec1 key =
    ((length key ≡ 33) × ((byte_is 0 0x02 key || byte_is 0 0x03 key) ≡ true))
    ⊎ ((length key ≡ 65) × (byte_is 0 0x04 key ≡ true))

abbrev pub IsStandard : WatchScriptKind → Type 0
IsStandard (p2pk pubkey) = IsSec1 pubkey
IsStandard (p2pkh key_id) = length key_id ≡ 20
IsStandard (p2sh script_id) = length script_id ≡ 20
IsStandard (other script) = ⊥

get_elem?-append_at : (h r : Bytes) (n : ℕ) → length h ≡ n → get_elem? (h ++ r) n ≡ get_elem? r 0
get_elem?-append_at [] r zero e = refl
get_elem?-append_at [] r (suc n) e = absurd (omega arith)
get_elem?-append_at (x ∷ h) r zero e = absurd (omega arith)
get_elem?-append_at (x ∷ h) r (suc n) e = get_elem?-append_at h r n (omega arith)

get_elem?-append_next :
    (h r : Bytes) (x n : ℕ) → length h ≡ n → get_elem? (h ++ x ∷ r) (suc n) ≡ get_elem? r 0
get_elem?-append_next [] r x zero e = refl
get_elem?-append_next [] r x (suc n) e = absurd (omega arith)
get_elem?-append_next (y ∷ h) r x zero e = absurd (omega arith)
get_elem?-append_next (y ∷ h) r x (suc n) e = get_elem?-append_next h r x n (omega arith)

take-append_of : (n : ℕ) (h r : Bytes) → length h ≡ n → take n (h ++ r) ≡ h
take-append_of n h r e = subst (λ k. take k (h ++ r) ≡ h) e (take-append h r)

classify-p2pkh : (h : Bytes) → length h ≡ 20 → classify (script_of (p2pkh h)) ≡ p2pkh h
unfolding classify script_of
classify-p2pkh h e = ground (
  arith,
  length-append h (op_equalverify ∷ op_checksig ∷ []),
  get_elem?-append_at h (op_equalverify ∷ op_checksig ∷ []) 20 e,
  get_elem?-append_next h (op_checksig ∷ []) op_equalverify 20 e,
  take-append_of 20 h (op_equalverify ∷ op_checksig ∷ []) e,
  from_slice_is h e,
)

classify-p2sh : (h : Bytes) → length h ≡ 20 → classify (script_of (p2sh h)) ≡ p2sh h
unfolding classify script_of
classify-p2sh h e = ground (
  arith,
  length-append h (op_equal ∷ []),
  get_elem?-append_at h (op_equal ∷ []) 20 e,
  take-append_of 20 h (op_equal ∷ []) e,
  from_slice_is h e,
)

classify-compressed :
    (k : Bytes)
    → length k ≡ 33
    → (byte_is 0 0x02 k || byte_is 0 0x03 k) ≡ true
    → classify (script_of (p2pk k)) ≡ p2pk k
unfolding classify script_of
classify-compressed [] e sign = absurd (omega arith)
classify-compressed (b ∷ k) e sign =
    let size : length k ≡ 32 = omega arith in
    rw size (
      ground (
        arith,
        length-append k (op_checksig ∷ []),
        get_elem?-append_at k (op_checksig ∷ []) 32 size,
        take-append_of 32 k (op_checksig ∷ []) size,
        parse_buf-Reads (Reads-pub_key_compressed (b ∷ k) e) false (omega arith),
      ))

classify-uncompressed :
    (k : Bytes) → length k ≡ 65 → byte_is 0 0x04 k ≡ true → classify (script_of (p2pk k)) ≡ p2pk k
unfolding classify script_of
classify-uncompressed [] e sign = absurd (omega arith)
classify-uncompressed (b ∷ k) e sign =
    let tail : Bytes = op_checksig ∷ [] in
    let script : Bytes = pushbytes_65 ∷ b ∷ (k ++ tail) in
    let size : length k ≡ 64 = omega arith in
    let whole : length script ≡ 67 = omega (arith, length-append k tail) in
    let last : get_elem? (k ++ tail) 64 ≡ some op_checksig = get_elem?-append_at k tail 64 size in
    let check : byte_is 66 op_checksig script ≡ true = ground (arith, last) in
    let form : is_p2pk_uncompressed script ≡ true = rw (whole, check, sign) in
    let others : (is_p2pkh script ≡ false)
        × (is_p2sh script ≡ false)
        × (is_p2pk_compressed script ≡ false) =
      (rw whole, rw whole, rw whole) in
    rw (
      size,
      others.0,
      others.1,
      others.2,
      form,
      take-append_of 64 k tail size,
      parse_buf-Reads (Reads-pub_key_uncompressed (b ∷ k) e) false (omega arith),
    )

-- A script of a standard form, over a hash of 20 bytes or a SEC1 public key, is classified as that
-- form with its payload.
pub classify-script_of :
    (kind : WatchScriptKind) → IsStandard kind → classify (script_of kind) ≡ kind
classify-script_of (p2pk k) (inl (size, sign)) = classify-compressed k size sign
classify-script_of (p2pk k) (inr (size, sign)) = classify-uncompressed k size sign
classify-script_of (p2pkh h) size = classify-p2pkh h size
classify-script_of (p2sh h) size = classify-p2sh h size
classify-script_of (other script) h = absurd h
