-- ===== src/Base/Bits.antt =====
-- The masks that the code puts on a byte, as arithmetic: tables checked by evaluation.
use Prim.Native.Nat.{ℕ, zero, suc, ◌*◌, ◌/◌, ◌%◌, ◌<◌, bit_and}
use mathlib.Core.Path.{◌≡◌, refl}
use mathlib.Core.Bool.{Bool, true, ◌&&◌}
use native.Mathlib.Omega.{arith}
use zewif_zcashd.Base.Tests.{◌==◌, ==_iff}

holds_below : ℕ → (ℕ → Bool) → Bool
holds_below zero test = true
holds_below (suc n) test = test n && holds_below n test

holds_below→all :
    (n : ℕ) (test : ℕ → Bool) (b : ℕ) → holds_below n test ≡ true → b < n → test b ≡ true
unfolding holds_below
holds_below→all zero test b e h = absurd (omega arith)
holds_below→all (suc n) test b e h = ground (arith, holds_below→all n test b)

high_bit_table : holds_below 256 (λ b. bit_and b 0x80 == b / 128 * 128) ≡ true
unfolding holds_below
high_bit_table = refl

low_bits_table : holds_below 256 (λ b. bit_and b 0x7f == b % 128) ≡ true
unfolding holds_below
low_bits_table = refl

high_half_table : holds_below 256 (λ b. bit_and b 0xf0 == b / 16 * 16) ≡ true
unfolding holds_below
high_half_table = refl

pub high_bit : (b : ℕ) → b < 256 → bit_and b 0x80 ≡ b / 128 * 128
high_bit b h = (==_iff _ _).0 (holds_below→all 256 _ b high_bit_table h)

pub low_bits : (b : ℕ) → b < 256 → bit_and b 0x7f ≡ b % 128
low_bits b h = (==_iff _ _).0 (holds_below→all 256 _ b low_bits_table h)

pub high_half : (b : ℕ) → b < 256 → bit_and b 0xf0 ≡ b / 16 * 16
high_half b h = (==_iff _ _).0 (holds_below→all 256 _ b high_half_table h)
