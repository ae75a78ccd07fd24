-- ===== src/Wallet/Equality.antt =====
-- The equalities that the keys of the program's maps and sets derive.
use zewif_zcashd.Base.{
  ℕ, ℤ, pos, negsuc, ◌≡◌, refl, ap, ◌∙◌, ◌↔◌, Bool, true, false, ◌&&◌, ◌==◌, ==_iff, arith,
}
use zewif_zcashd.Base.Bytes.{bytes_eq, bytes_eq_iff, bytes_eq_refl}
use zewif_zcashd.Base.HashMap.{Eq}
use zewif_zcashd.Wallet.Addresses.{
  ReceiverType, discriminant, p2pkh, p2sh, sapling, orchard, SproutPaymentAddress,
  SaplingZPaymentAddress,
}
use zewif_zcashd.Wallet.Trees.{JsOutPoint, OutPoint}

pub and-eq-true : (a b : Bool) → (a && b) ≡ true → (a ≡ true) × (b ≡ true)
and-eq-true true b e = (refl, e)
and-eq-true false b e = absurd (cc)

instance abbrev pub eq_nat : Eq ℕ
eq_nat = record { beq = ◌==◌; beq_iff = ==_iff }

abbrev pub int_eq : ℤ → ℤ → Bool
int_eq (pos m) (pos n) = m == n
int_eq (pos m) (negsuc n) = false
int_eq (negsuc m) (pos n) = false
int_eq (negsuc m) (negsuc n) = m == n

pub int_eq_iff : (a b : ℤ) → (int_eq a b ≡ true) ↔ (a ≡ b)
int_eq_iff (pos m) (pos n) = ground arith
int_eq_iff (pos m) (negsuc n) = ground arith
int_eq_iff (negsuc m) (pos n) = ground arith
int_eq_iff (negsuc m) (negsuc n) = ground arith

instance abbrev pub eq_int : Eq ℤ
eq_int = record { beq = int_eq; beq_iff = int_eq_iff }

abbrev pub receiver_eq : ReceiverType → ReceiverType → Bool
receiver_eq s t = discriminant s == discriminant t

of_discriminant : (s t : ReceiverType) → discriminant s ≡ discriminant t → s ≡ t
of_discriminant p2pkh p2pkh e = refl
of_discriminant p2pkh p2sh e = absurd (omega arith)
of_discriminant p2pkh sapling e = absurd (omega arith)
of_discriminant p2pkh orchard e = absurd (omega arith)
of_discriminant p2sh p2pkh e = absurd (omega arith)
of_discriminant p2sh p2sh e = refl
of_discriminant p2sh sapling e = absurd (omega arith)
of_discriminant p2sh orchard e = absurd (omega arith)
of_discriminant sapling p2pkh e = absurd (omega arith)
of_discriminant sapling p2sh e = absurd (omega arith)
of_discriminant sapling sapling e = refl
of_discriminant sapling orchard e = absurd (omega arith)
of_discriminant orchard p2pkh e = absurd (omega arith)
of_discriminant orchard p2sh e = absurd (omega arith)
of_discriminant orchard sapling e = absurd (omega arith)
of_discriminant orchard orchard e = refl

pub receiver_eq_iff : (s t : ReceiverType) → (receiver_eq s t ≡ true) ↔ (s ≡ t)
receiver_eq_iff s t =
    (λ e. of_discriminant s t ((==_iff _ _).0 e), λ e. (==_iff _ _).1 (ap discriminant e))

instance abbrev pub eq_receiver : Eq ReceiverType
eq_receiver = record { beq = receiver_eq; beq_iff = receiver_eq_iff }

abbrev pub sprout_address_eq : SproutPaymentAddress → SproutPaymentAddress → Bool
sprout_address_eq a b = bytes_eq a.a_pk b.a_pk && bytes_eq a.pk_enc b.pk_enc

pub sprout_address_eq_iff : (a b : SproutPaymentAddress) → (sprout_address_eq a b ≡ true) ↔ (a ≡ b)
sprout_address_eq_iff a b = (
  λ e.
      let (x, y) = and-eq-true _ _ e in
      ap (λ z. record { a_pk = z; pk_enc = a.pk_enc }) ((bytes_eq_iff _ _).0 x)
      ∙ ap (λ z. record { a_pk = b.a_pk; pk_enc = z }) ((bytes_eq_iff _ _).0 y),
  λ e. rw (e, bytes_eq_refl b.a_pk, bytes_eq_refl b.pk_enc) refl,
)

instance abbrev pub eq_sprout_address : Eq SproutPaymentAddress
eq_sprout_address = record { beq = sprout_address_eq; beq_iff = sprout_address_eq_iff }

abbrev pub sapling_address_eq : SaplingZPaymentAddress → SaplingZPaymentAddress → Bool
sapling_address_eq a b = bytes_eq a.diversifier b.diversifier && bytes_eq a.pk b.pk

pub sapling_address_eq_iff :
    (a b : SaplingZPaymentAddress) → (sapling_address_eq a b ≡ true) ↔ (a ≡ b)
sapling_address_eq_iff a b = (
  λ e.
      let (x, y) = and-eq-true _ _ e in
      ap (λ z. record { diversifier = z; pk = a.pk }) ((bytes_eq_iff _ _).0 x)
      ∙ ap (λ z. record { diversifier = b.diversifier; pk = z }) ((bytes_eq_iff _ _).0 y),
  λ e. rw (e, bytes_eq_refl b.diversifier, bytes_eq_refl b.pk) refl,
)

instance abbrev pub eq_sapling_address : Eq SaplingZPaymentAddress
eq_sapling_address = record { beq = sapling_address_eq; beq_iff = sapling_address_eq_iff }

abbrev pub out_point_eq : OutPoint → OutPoint → Bool
out_point_eq a b = bytes_eq a.txid b.txid && a.vout == b.vout

pub out_point_eq_iff : (a b : OutPoint) → (out_point_eq a b ≡ true) ↔ (a ≡ b)
out_point_eq_iff a b = (
  λ e.
      let (x, y) = and-eq-true _ _ e in
      ap (λ z. record { txid = z; vout = a.vout }) ((bytes_eq_iff _ _).0 x)
      ∙ ap (λ z. record { txid = b.txid; vout = z }) ((==_iff _ _).0 y),
  λ e. rw (e, bytes_eq_refl b.txid) ((==_iff b.vout b.vout).1 refl),
)

instance abbrev pub eq_out_point : Eq OutPoint
eq_out_point = record { beq = out_point_eq; beq_iff = out_point_eq_iff }

abbrev pub js_out_point_eq : JsOutPoint → JsOutPoint → Bool
js_out_point_eq a b = bytes_eq a.hash b.hash && (a.js == b.js && a.n == b.n)

pub js_out_point_eq_iff : (a b : JsOutPoint) → (js_out_point_eq a b ≡ true) ↔ (a ≡ b)
js_out_point_eq_iff a b = (
  λ e.
      let (x, yz) = and-eq-true _ _ e in
      let (y, z) = and-eq-true _ _ yz in
      ap (λ t. record { hash = t; js = a.js; n = a.n }) ((bytes_eq_iff _ _).0 x)
      ∙ (ap (λ t. record { hash = b.hash; js = t; n = a.n }) ((==_iff _ _).0 y)
          ∙ ap (λ t. record { hash = b.hash; js = b.js; n = t }) ((==_iff _ _).0 z)),
  λ e. rw (e, bytes_eq_refl b.hash, (==_iff b.js b.js).1 refl) ((==_iff b.n b.n).1 refl),
)

instance abbrev pub eq_js_out_point : Eq JsOutPoint
eq_js_out_point = record { beq = js_out_point_eq; beq_iff = js_out_point_eq_iff }
