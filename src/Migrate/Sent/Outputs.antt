-- ===== src/Migrate/Sent/Outputs.antt =====
-- Which outputs `sent_outputs` makes of the recipients of a transaction.
use zewif_zcashd.Base.{
  ℕ, ◌+◌, ◌%◌, ◌^◌, ◌≡◌, sym, ap, ◌∙◌, subst, true, false, List, [], ◌∷◌, ◌++◌, Option, none, some,
  ok, length, inl, inr, Bool-cases, Option-cases, All, bind-eq-ok, append-nil, append_assoc, arith,
}
use zewif_zcashd.Zcashd.Accounts.{RecipientMapping}
use zewif_zcashd.Migrate.Sent.{
  Target, SentLibrary, is_target, amount_of, transparent_target, sent_recipient, find_output,
  from_target, sent_outputs,
}

module _ {Account Transaction TxOut SentOutput : Type 0}
    (lib : SentLibrary Account Transaction TxOut SentOutput) where
  abbrev pub Misses : Target → TxOut → Type 0
  Misses target tx_out = is_target lib target (lib.recipient_address tx_out) ≡ false

  -- The output that a mapping gives, where it gives one, numbered from `start`.
  pub data Finds (start : ℕ) (target : Target) (mapping : RecipientMapping)
      : List TxOut → List SentOutput → Type 0 where
    nowhere : (vout : List TxOut) → All (Misses target) vout → Finds start target mapping vout []
    first_at :
        (before : List TxOut) (tx_out : TxOut) (after : List TxOut) (value : ℕ)
        → All (Misses target) before
        → is_target lib target (lib.recipient_address tx_out) ≡ true
        → lib.amount tx_out ≡ some value
        → Finds start target mapping (before ++ tx_out ∷ after) (
            lib.from_parts ((start + length before) % 2 ^ 32) (sent_recipient lib mapping) value
            ∷ [])

  -- The outputs of all mappings, in the order of the mappings.
  pub data Sends (vout : List TxOut) : List RecipientMapping → List SentOutput → Type 0 where
    no_more : Sends vout [] []
    shielded :
        (mapping : RecipientMapping) (mappings : List RecipientMapping) (sent : List SentOutput)
        → transparent_target mapping.recipient_address ≡ none
        → Sends vout mappings sent
        → Sends vout (mapping ∷ mappings) sent
    transparent :
        (mapping : RecipientMapping) (mappings : List RecipientMapping) (target : Target)
        (found sent : List SentOutput)
        → transparent_target mapping.recipient_address ≡ some target
        → Finds 0 target mapping vout found
        → Sends vout mappings sent
        → Sends vout (mapping ∷ mappings) (found ++ sent)

  Finds-later :
      (idx : ℕ) (target : Target) (mapping : RecipientMapping) (tx_out : TxOut) (vout : List TxOut)
      (found : List SentOutput)
      → Misses target tx_out
      → Finds (idx + 1) target mapping vout found
      → Finds idx target mapping (tx_out ∷ vout) found
  Finds-later idx target mapping tx_out vout found miss (nowhere _ all) =
      nowhere (tx_out ∷ vout) (miss, all)
  Finds-later idx target mapping tx_out vout found miss
        (first_at before x after value all hit amount) =
      let place : idx + 1 + length before ≡ idx + length (tx_out ∷ before) = omega arith in
      subst
        (λ n.
          Finds idx target mapping (tx_out ∷ before ++ x ∷ after)
            (lib.from_parts (n % 2 ^ 32) (sent_recipient lib mapping) value ∷ []))
        (sym place) (first_at (tx_out ∷ before) x after value (miss, all) hit amount)

  amount_of-eq-ok : (o : Option ℕ) (value : ℕ) → amount_of lib o ≡ ok value → o ≡ some value
  amount_of-eq-ok none value e = absurd (cc)
  amount_of-eq-ok (some v) value e = cc

  find_output-Finds :
      (target : Target) (mapping : RecipientMapping) (idx : ℕ) (vout : List TxOut)
      (sent sent' : List SentOutput)
      → find_output lib target mapping idx vout sent ≡ ok sent'
      → (found : List SentOutput) × (sent' ≡ sent ++ found) × Finds idx target mapping vout found
  unfolding find_output
  find_output-Finds target mapping idx [] sent sent' e =
      let same : sent ≡ sent' = cc in ([], sym same ∙ sym (append-nil sent), nowhere [] tt)
  find_output-Finds target mapping idx (tx_out ∷ vout) sent sent' e =
      elim (Bool-cases (is_target lib target (lib.recipient_address tx_out))) [
        | inl hit ↦
            let (value, amount, done) =
              bind-eq-ok (amount_of lib (lib.amount tx_out)) _ (rw hit at e) in
            let zero_more : idx + 0 ≡ idx = omega arith in
            (
              lib.from_parts ((idx + 0) % 2 ^ 32) (sent_recipient lib mapping) value ∷ [],
              rw zero_more cc,
              first_at [] tx_out vout value tt hit (amount_of-eq-ok _ _ amount),
            )
        | inr miss ↦
            let (found, all, rest) =
              find_output-Finds target mapping (idx + 1) vout sent sent' (rw miss at e) in
            (found, all, Finds-later idx target mapping tx_out vout found miss rest)
      ]

  sent_outputs-appends :
      (mappings : List RecipientMapping) (vout : List TxOut) (sent sent' : List SentOutput)
      → sent_outputs lib mappings vout sent ≡ ok sent'
      → (added : List SentOutput) × (sent' ≡ sent ++ added) × Sends vout mappings added
  unfolding sent_outputs
  sent_outputs-appends [] vout sent sent' e =
      let same : sent ≡ sent' = cc in ([], sym same ∙ sym (append-nil sent), no_more)
  sent_outputs-appends (mapping ∷ mappings) vout sent sent' e =
      let (now, e₁, e₂) =
        bind-eq-ok
          (from_target lib (transparent_target mapping.recipient_address) mapping vout sent) _ e in
      let (added, all, rest) = sent_outputs-appends mappings vout now sent' e₂ in
      elim (Option-cases (transparent_target mapping.recipient_address)) [
        | inl without ↦
            let same : sent ≡ now = let r = rw without at e₁ in cc in
            (
              added,
              all ∙ ap (λ x. x ++ added) (sym same),
              shielded mapping mappings added without rest,
            )
        | inr (target, is) ↦
            let (found, more, finds) =
              find_output-Finds target mapping 0 vout sent now (rw is at e₁) in
            (
              found ++ added,
              all ∙ ap (λ x. x ++ added) more ∙ append_assoc sent found added,
              transparent mapping mappings target found added is finds rest,
            )
      ]

  -- Where sent_outputs succeeds on the recipients and the outputs of a transaction, what it returns
  -- is, recipient by recipient and in their order: nothing for a recipient that is not transparent
  -- or whose address no output has, and otherwise one sent output with the place modulo 2 ^ 32 and
  -- the value of the first output to that address, and the recipient's text.
  pub sent_outputs-Sends :
      (mappings : List RecipientMapping) (vout : List TxOut) (sent : List SentOutput)
      → sent_outputs lib mappings vout [] ≡ ok sent
      → Sends vout mappings sent
  sent_outputs-Sends mappings vout sent e =
      let (added, all, sends) = sent_outputs-appends mappings vout [] sent e in
      subst (Sends vout mappings) (sym all) sends
