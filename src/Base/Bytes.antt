-- ===== src/Base/Bytes.antt =====
-- Byte strings compared, and the bytes of an ASCII text.
use Prim.Native.Nat.{ℕ}
use Prim.Native.Char.{code}
use Prim.Native.String.{String}
use mathlib.Core.Path.{◌≡◌, refl}
use mathlib.Core.Logic.{◌↔◌}
use mathlib.Core.Bool.{Bool, true, false, ◌&&◌}
use mathlib.Core.List.{List, [], ◌∷◌}
use native.Mathlib.Omega.{arith}
use zewif_zcashd.Base.Tests.{◌==◌}
use zewif_zcashd.Base.HashMap.{Eq}

abbrev pub codes : String → List ℕ
codes String.[] = []
codes (String.◌∷◌ c s) = code c ∷ codes s

unfoldable pub bytes_eq : List ℕ → List ℕ → Bool
bytes_eq [] [] = true
bytes_eq [] (c ∷ cs) = false
bytes_eq (b ∷ bs) [] = false
bytes_eq (b ∷ bs) (c ∷ cs) = b == c && bytes_eq bs cs

bytes_eq→eq : (bs cs : List ℕ) → bytes_eq bs cs ≡ true → bs ≡ cs
unfolding bytes_eq
bytes_eq→eq [] [] h = refl
bytes_eq→eq [] (c ∷ cs) h = cc
bytes_eq→eq (b ∷ bs) [] h = cc
bytes_eq→eq (b ∷ bs) (c ∷ cs) h = ground (arith, bytes_eq→eq bs cs)

pub bytes_eq_refl : (bs : List ℕ) → bytes_eq bs bs ≡ true
unfolding bytes_eq
bytes_eq_refl [] = refl
bytes_eq_refl (b ∷ bs) = ground (arith, bytes_eq_refl bs)

pub bytes_eq_iff : (bs cs : List ℕ) → (bytes_eq bs cs ≡ true) ↔ (bs ≡ cs)
bytes_eq_iff bs cs = (bytes_eq→eq bs cs, λ e. rw e (bytes_eq_refl cs))

instance abbrev pub eq_bytes : Eq (List ℕ)
eq_bytes = record { beq = bytes_eq; beq_iff = bytes_eq_iff }
