-- ===== src/Migrate/Document/Laws.antt =====
-- The birthday of an account is the least height of its transactions that have one.
use zewif_zcashd.Base.{
  ℕ, ◌≤◌, ◌≡◌, refl, subst, Bool, true, false, List, [], ◌∷◌, Option, none, some, ltb, inl, inr,
  Bool-cases, ◌⊎◌, All, arith, ◌||◌,
}
use zewif_zcashd.Base.Bytes.{eq_bytes}
use zewif_zcashd.Base.HashMap
use zewif_zcashd.Wire.Parser.{Bytes}
use zewif_zcashd.Migrate.Document.{earliest}

-- A height is no more than what a transaction may have.
abbrev pub AtMost : ℕ → Option ℕ → Type 0
AtMost h none = Unit {0}
AtMost h (some k) = h ≤ k

-- The height is one of some transactions.
abbrev pub IsHeightOf : List (Bytes × ℕ) → List Bytes → ℕ → Type 0
IsHeightOf heights txids h =
    (txid : Bytes) × (HashMap.contains txid txids ≡ true) × (HashMap.get txid heights ≡ some h)

Option-cases : (o : Option ℕ) → (o ≡ none) ⊎ ((h : ℕ) × (o ≡ some h))
Option-cases none = inl refl
Option-cases (some h) = inr (h, refl)

or-true : (a b : Bool) → b ≡ true → (a || b) ≡ true
or-true true b e = refl
or-true false b e = e

AtMost-wider : (h k : ℕ) (o : Option ℕ) → h ≤ k → AtMost k o → AtMost h o
AtMost-wider h k none le m = tt
AtMost-wider h k (some j) le m = omega arith

module _ (heights : List (Bytes × ℕ)) where
  abbrev AllAtMost : ℕ → List Bytes → Type 0
  AllAtMost h txids = All (λ txid. AtMost h (HashMap.get txid heights)) txids

  AllAtMost-none :
      (h : ℕ) (txids : List Bytes)
      → All (λ txid. HashMap.get txid heights ≡ none) txids
      → AllAtMost h txids
  AllAtMost-none h [] a = tt
  AllAtMost-none h (txid ∷ txids) (first, a) = (rw first tt, AllAtMost-none h txids a)

  AllAtMost-wider : (h k : ℕ) (txids : List Bytes) → h ≤ k → AllAtMost k txids → AllAtMost h txids
  AllAtMost-wider h k [] le a = tt
  AllAtMost-wider h k (txid ∷ txids) le (first, a) =
      (AtMost-wider h k (HashMap.get txid heights) le first, AllAtMost-wider h k txids le a)

  IsHeightOf-rest :
      (txid : Bytes) (txids : List Bytes) (h : ℕ)
      → IsHeightOf heights txids h
      → IsHeightOf heights (txid ∷ txids) h
  unfolding HashMap.contains
  IsHeightOf-rest txid txids h (x, among, e) = (x, or-true _ _ among, e)

  IsHeightOf-first :
      (txid : Bytes) (txids : List Bytes) (h : ℕ)
      → HashMap.get txid heights ≡ some h
      → IsHeightOf heights (txid ∷ txids) h
  unfolding HashMap.contains
  IsHeightOf-first txid txids h e = let same = HashMap.beq_refl txid in (txid, rw same refl, e)

  -- Where the earliest height of some transactions is none, none of them has a height, and where it
  -- is a height, one of them has it and every height that one of them has is no less.
  pub earliest-IsHeightOf :
      (txids : List Bytes)
      → (earliest heights txids ≡ none → All (λ txid. HashMap.get txid heights ≡ none) txids)
        × ((h : ℕ)
            → earliest heights txids ≡ some h
            → IsHeightOf heights txids h × All (λ txid. AtMost h (HashMap.get txid heights)) txids)
  unfolding earliest
  earliest-IsHeightOf [] = (λ e. tt, λ h e. absurd (cc))
  earliest-IsHeightOf (txid ∷ txids) =
      let (nowhere, somewhere) = earliest-IsHeightOf txids in
      elim (Option-cases (HashMap.get txid heights)) [
        | inl away ↦ rw away (
          λ e. (refl, nowhere e),
          λ h e. let (of, most) = somewhere h e in (IsHeightOf-rest txid txids h of, (tt, most)),
        )
        | inr (h₀, here) ↦ elim (Option-cases (earliest heights txids)) [
          | inl none_after ↦
              rw (here, none_after)
                (
                  λ e. absurd (cc),
                  λ h e.
                      let at : h₀ ≡ h = cc in
                      (
                        IsHeightOf-first txid txids h cc,
                        (omega arith, AllAtMost-none h txids (nowhere none_after)),
                      ),
                )
          | inr (k, after) ↦
              let (of, most) = somewhere k after in
              elim (Bool-cases (ltb k h₀)) [
                | inl less ↦
                    rw (here, after, less)
                      (
                        λ e. absurd (cc),
                        λ h e.
                            let at : k ≡ h = cc in
                            (
                              IsHeightOf-rest txid txids h
                                  (subst (λ j. IsHeightOf heights txids j) at of),
                              (ground (arith, less), subst (λ j. AllAtMost j txids) at most),
                            ),
                      )
                | inr more ↦
                    rw (here, after, more)
                      (
                        λ e. absurd (cc),
                        λ h e.
                            let at : h₀ ≡ h = cc in
                            (
                              IsHeightOf-first txid txids h cc,
                              (omega arith, AllAtMost-wider h k txids (ground (arith, more)) most),
                            ),
                      )
              ]
        ]
      ]
