-- ===== src/Dump/Keys.antt =====
-- The keys of the database: their encoding, and the order that `DbKey` derives.
use zewif_zcashd.Base.{
  ℕ, zero, suc, ◌≤◌, ◌<◌, ◌^◌, ◌≡◌, refl, sym, ap, ◌∙◌, subst, Bool, true, false, ◌&&◌, ◌||◌, List,
  [], ◌∷◌, ◌++◌, ok, Bool-cases, ◌⊎◌, inl, inr, length, take, arith, length-append, length-drop,
  ◌↔◌,
}
use zewif_zcashd.Base.BTreeMap.{Ord, same, same_iff}
use zewif_zcashd.Wire.Error.{text}
use zewif_zcashd.Wire.Parser.{
  Bytes, Parser, new, next, rest, check_finished, remaining, advance, peek_rest, usize_size,
}
use zewif_zcashd.Wire.Reads.{IsValid, Reads-with_frame, advance-IsValid, advance-peek}
use zewif_zcashd.Wire.CompactSize.Canonical.{compact_size_bytes}
use zewif_zcashd.Wire.Utf8.{is_utf8}
use zewif_zcashd.Wire.Collections.Laws.{Reads-string}
use zewif_zcashd.Dump.{DbKey, parse_key, parse_data}

take-all {ℓ} : {A : Type ℓ} (n : ℕ) (xs : List A) → length xs ≤ n → take n xs ≡ xs
take-all zero [] h = refl
take-all (suc n) [] h = refl
take-all zero (x ∷ xs) h = absurd (omega arith)
take-all (suc n) (x ∷ xs) h = ap (λ l. x ∷ l) (take-all n xs (omega arith))

rest-all : (s : Parser) → IsValid s → rest s ≡ ok (peek_rest s, advance (remaining s) s)
unfolding rest next
rest-all s v =
    ground
      (arith, take-all (remaining s) (peek_rest s) (omega (arith, length-drop s.offset s.buffer)))

-- A key whose name is UTF-8 is given back by parse_data from the name's compact size, the name and
-- the data, where these together fit a usize.
pub parse_data-encoding :
    (key : DbKey)
    → is_utf8 key.keyname ≡ true
    → length ((compact_size_bytes (length key.keyname) ++ key.keyname) ++ key.key_data) < usize_size
    → parse_data ((compact_size_bytes (length key.keyname) ++ key.keyname) ++ key.key_data) ≡ ok key
unfolding parse_data parse_key check_finished
parse_data-encoding key u short =
    let name = compact_size_bytes (length key.keyname) ++ key.keyname in
    let s : Parser = new (name ++ key.key_data) in
    let v : IsValid s = (omega arith, short) in
    let fits : length key.keyname < 2 ^ 64 = omega (
      arith,
      length-append (compact_size_bytes (length key.keyname)) key.keyname,
      length-append name key.key_data,
    ) in
    let first =
      (Reads-with_frame (text "keyname") (Reads-string key.keyname fits u)).run s key.key_data v
        refl in
    let after : IsValid (advance (length name) s) = advance-IsValid s name key.key_data v refl in
    let left : peek_rest (advance (length name) s) ≡ key.key_data =
      advance-peek s name key.key_data refl in
    rw (first, rest-all (advance (length name) s) after, left) (ground arith)

-- `derive(PartialOrd, Ord)`: by name, then by data.
module _ (names datas : Ord Bytes) where
  unfoldable pub lt_key : DbKey → DbKey → Bool
  lt_key a b =
      names.lt a.keyname b.keyname
      || (same names a.keyname b.keyname && datas.lt a.key_data b.key_data)

  lt_key_iff :
      (a b : DbKey)
      → (lt_key a b ≡ true) ↔ (
          (names.lt a.keyname b.keyname ≡ true)
          ⊎ ((a.keyname ≡ b.keyname) × (datas.lt a.key_data b.key_data ≡ true)))
  unfolding lt_key
  lt_key_iff a b = (
    λ e. elim (Bool-cases (names.lt a.keyname b.keyname)) [
      | inl less ↦ inl less
      | inr l ↦ elim (Bool-cases (same names a.keyname b.keyname)) [
        | inl at ↦ inr ((same_iff names a.keyname b.keyname).0 at, step _ _ _ l at e)
        | inr away ↦ absurd (never _ _ _ l away e)
      ]
    ],
    λ h. elim h [
      | inl less ↦ first _ _ less
      | inr (at, less) ↦ second _ _ _ ((same_iff names a.keyname b.keyname).1 at) less
    ],
  )
    where
      step : (x y z : Bool) → x ≡ false → y ≡ true → (x || (y && z)) ≡ true → z ≡ true
      step x y z p q e = rw (p, q) at e

      never : (x y z : Bool) → x ≡ false → y ≡ false → (x || (y && z)) ≡ true → ⊥
      never x y z p q e = let bad : false ≡ true = rw (p, q) at e in absurd (cc)

      first : (x y : Bool) → x ≡ true → (x || y) ≡ true
      first x y p = rw p refl

      second : (x y z : Bool) → y ≡ true → z ≡ true → (x || (y && z)) ≡ true
      second true y z p q = refl
      second false y z p q = rw (p, q) refl

  pub lt_key_irrefl : (a : DbKey) → lt_key a a ≡ false
  lt_key_irrefl a = elim (Bool-cases (lt_key a a)) [
    | inl e ↦ elim ((lt_key_iff a a).0 e) [
      | inl less ↦ absurd (cc (less, names.lt_irrefl a.keyname))
      | inr (at, less) ↦ absurd (cc (less, datas.lt_irrefl a.key_data))
    ]
    | inr e ↦ e
  ]

  pub lt_key_trans : (a b c : DbKey) → lt_key a b ≡ true → lt_key b c ≡ true → lt_key a c ≡ true
  lt_key_trans a b c e f = (lt_key_iff a c).1 (elim ((lt_key_iff a b).0 e) [
    | inl less ↦ elim ((lt_key_iff b c).0 f) [
      | inl less' ↦ inl (names.lt_trans _ _ _ less less')
      | inr (at, l) ↦ inl (subst (λ n. names.lt a.keyname n ≡ true) at less)
    ]
    | inr (at, l) ↦ elim ((lt_key_iff b c).0 f) [
      | inl less ↦ inl (subst (λ n. names.lt n c.keyname ≡ true) (sym at) less)
      | inr (at', l') ↦ inr (at ∙ at', datas.lt_trans _ _ _ l l')
    ]
  ])

  pub lt_key_total : (a b : DbKey) → lt_key a b ≡ false → lt_key b a ≡ false → a ≡ b
  lt_key_total a b e f =
      let refuse : (x y : DbKey) → lt_key x y ≡ false → names.lt x.keyname y.keyname ≡ false =
        λ x y h. elim (Bool-cases (names.lt x.keyname y.keyname)) [
          | inl l ↦ absurd (cc ((lt_key_iff x y).1 (inl l), h))
          | inr l ↦ l
        ] in
      let at : a.keyname ≡ b.keyname =
        names.lt_total a.keyname b.keyname (refuse a b e) (refuse b a f) in
      let below : (x y : DbKey)
          → x.keyname ≡ y.keyname
          → lt_key x y ≡ false
          → datas.lt x.key_data y.key_data ≡ false =
        λ x y p h. elim (Bool-cases (datas.lt x.key_data y.key_data)) [
          | inl l ↦ absurd (cc ((lt_key_iff x y).1 (inr (p, l)), h))
          | inr l ↦ l
        ] in
      let with : a.key_data ≡ b.key_data =
        datas.lt_total a.key_data b.key_data (below a b at e) (below b a (sym at) f) in
      ap (λ n. record { keyname = n; key_data = a.key_data }) at
      ∙ ap (λ d. record { keyname = b.keyname; key_data = d }) with

  -- The derived order of the keys is a strict total order where those of names and data are.
  abbrev pub ord_key : Ord DbKey
  ord_key = record {
    lt = lt_key;
    lt_irrefl = lt_key_irrefl;
    lt_trans = lt_key_trans;
    lt_total = lt_key_total;
  }
