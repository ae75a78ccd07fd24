-- ===== src/Migrate/AddressBook/Laws.antt =====
-- Each entry of the address book is a new entry with the changes that the wallet records for its
-- address.
use zewif_zcashd.Base.{
  ◌≡◌, refl, ap, ◌∙◌, sym, true, List, [], ◌∷◌, ◌++◌, Option, none, some, if◌then◌else◌, inl, inr,
  Bool-cases, All,
}
use zewif_zcashd.Base.BTreeMap.{Ord, same, same_iff, get, get-insert, get-empty, insert, Sorted}
use zewif_zcashd.Wire.Parser.{Bytes}
use zewif_zcashd.Zcashd.Accounts.{RecipientMapping}
use zewif_zcashd.Migrate.AddressBook.{
  EntryLibrary, is_empty_string, or_new, update_entry, with_label, with_purpose, as_recipient,
  add_names, add_purposes, add_mappings, add_recipients, entries_of, values, build_address_book,
}

module _ {V : Type 0} (texts : Ord Bytes) where
  All-insert :
      (j k : Bytes) (v : V) (m : List (Bytes × V))
      → texts.lt j k ≡ true
      → All (λ (i, w). texts.lt j i ≡ true) m
      → All (λ (i, w). texts.lt j i ≡ true) (insert texts k v m)
  unfolding insert
  All-insert j k v [] less h = (less, tt)
  All-insert j k v ((i, w) ∷ m) less (first, h) = elim (Bool-cases (texts.lt k i)) [
    | inl before ↦ rw before (less, (first, h))
    | inr a ↦ elim (Bool-cases (texts.lt i k)) [
      | inl after ↦ rw (a, after) (first, All-insert j k v m less h)
      | inr b ↦ rw (a, b) (first, h)
    ]
  ]

  All-lt :
      (j k : Bytes) (m : List (Bytes × V))
      → texts.lt j k ≡ true
      → All (λ (i, w). texts.lt k i ≡ true) m
      → All (λ (i, w). texts.lt j i ≡ true) m
  All-lt j k [] less h = tt
  All-lt j k ((i, w) ∷ m) less (first, h) = (texts.lt_trans j k i less first, All-lt j k m less h)

  insert-Sorted :
      (k : Bytes) (v : V) (m : List (Bytes × V))
      → Sorted texts m
      → Sorted texts (insert texts k v m)
  unfolding insert Sorted
  insert-Sorted k v [] h = (tt, tt)
  insert-Sorted k v ((i, w) ∷ m) (first, h) = elim (Bool-cases (texts.lt k i)) [
    | inl before ↦ rw before ((before, All-lt k i m before first), (first, h))
    | inr a ↦ elim (Bool-cases (texts.lt i k)) [
      | inl after ↦ rw (a, after) (All-insert i k v m after first, insert-Sorted k v m h)
      | inr b ↦ rw (a, b) (first, h)
    ]
  ]

module _ {Entry : Type 0} (lib : EntryLibrary Entry) (texts : Ord Bytes) where
  -- The changes that concern an address, in the order in which they are made.
  unfoldable pub label_changes : Bytes → List (Bytes × Bytes) → List (Entry → Entry)
  label_changes a [] = []
  label_changes a ((address, name) ∷ names) =
      if same texts address a
      then with_label lib texts name ∷ label_changes a names
      else label_changes a names

  unfoldable pub purpose_changes : Bytes → List (Bytes × Bytes) → List (Entry → Entry)
  purpose_changes a [] = []
  purpose_changes a ((address, purpose) ∷ purposes) =
      if same texts address a
      then with_purpose lib texts purpose ∷ purpose_changes a purposes
      else purpose_changes a purposes

  unfoldable pub mapping_changes : Bytes → List RecipientMapping → List (Entry → Entry)
  mapping_changes a [] = []
  mapping_changes a (mapping ∷ mappings) =
      if is_empty_string mapping.unified_address
      then mapping_changes a mappings
      else if same texts mapping.unified_address a
      then as_recipient lib texts ∷ mapping_changes a mappings
      else mapping_changes a mappings

  unfoldable pub recipient_changes :
      Bytes → List (Bytes × List RecipientMapping) → List (Entry → Entry)
  unfolding mapping_changes
  recipient_changes a [] = []
  recipient_changes a ((txid, mappings) ∷ recipients) =
      mapping_changes a mappings ++ recipient_changes a recipients

  unfoldable pub changed : Bytes → Option Entry → List (Entry → Entry) → Option Entry
  changed a entry [] = entry
  changed a entry (f ∷ changes) = changed a (some (f (or_new lib texts a entry))) changes

  changed-append :
      (a : Bytes) (entry : Option Entry) (xs ys : List (Entry → Entry))
      → changed a entry (xs ++ ys) ≡ changed a (changed a entry xs) ys
  unfolding changed
  changed-append a entry [] ys = refl
  changed-append a entry (f ∷ xs) ys = changed-append a (some (f (or_new lib texts a entry))) xs ys

  get-update_entry :
      (a address : Bytes) (f : Entry → Entry) (entries : List (Bytes × Entry))
      → get texts a (update_entry lib texts address f entries) ≡ (
          if same texts address a
          then some (f (or_new lib texts a (get texts a entries)))
          else get texts a entries)
  unfolding update_entry
  get-update_entry a address f entries = elim (Bool-cases (same texts address a)) [
    | inl here ↦
        let at : address ≡ a = (same_iff texts address a).0 here in
        get-insert texts address a _ entries ∙ rw (here, at) refl
    | inr away ↦ get-insert texts address a _ entries ∙ rw away refl
  ]

  get-add_names :
      (a : Bytes) (names : List (Bytes × Bytes)) (entries : List (Bytes × Entry))
      → get texts a (add_names lib texts names entries)
        ≡ changed a (get texts a entries) (label_changes a names)
  unfolding add_names changed label_changes
  get-add_names a [] entries = refl
  get-add_names a ((address, name) ∷ names) entries =
      let step = get-update_entry a address (with_label lib texts name) entries in
      get-add_names a names (update_entry lib texts address (with_label lib texts name) entries)
      ∙ elim (Bool-cases (same texts address a)) [
        | inl here ↦ rw (step, here) refl
        | inr away ↦ rw (step, away) refl
      ]

  get-add_purposes :
      (a : Bytes) (purposes : List (Bytes × Bytes)) (entries : List (Bytes × Entry))
      → get texts a (add_purposes lib texts purposes entries)
        ≡ changed a (get texts a entries) (purpose_changes a purposes)
  unfolding add_purposes changed purpose_changes
  get-add_purposes a [] entries = refl
  get-add_purposes a ((address, purpose) ∷ purposes) entries =
      let step = get-update_entry a address (with_purpose lib texts purpose) entries in
      get-add_purposes a purposes
        (update_entry lib texts address (with_purpose lib texts purpose) entries)
      ∙ elim (Bool-cases (same texts address a)) [
        | inl here ↦ rw (step, here) refl
        | inr away ↦ rw (step, away) refl
      ]

  get-add_mappings :
      (a : Bytes) (mappings : List RecipientMapping) (entries : List (Bytes × Entry))
      → get texts a (add_mappings lib texts mappings entries)
        ≡ changed a (get texts a entries) (mapping_changes a mappings)
  unfolding add_mappings changed mapping_changes
  get-add_mappings a [] entries = refl
  get-add_mappings a (mapping ∷ mappings) entries =
      elim (Bool-cases (is_empty_string mapping.unified_address)) [
        | inl empty ↦ rw empty (get-add_mappings a mappings entries)
        | inr full ↦
            let step =
              get-update_entry a mapping.unified_address (as_recipient lib texts) entries in
            rw full (
              get-add_mappings a mappings
                (update_entry lib texts mapping.unified_address (as_recipient lib texts) entries)
              ∙ elim (Bool-cases (same texts mapping.unified_address a)) [
                | inl here ↦ rw (step, here) refl
                | inr away ↦ rw (step, away) refl
              ])
      ]

  get-add_recipients :
      (a : Bytes) (recipients : List (Bytes × List RecipientMapping))
      (entries : List (Bytes × Entry))
      → get texts a (add_recipients lib texts recipients entries)
        ≡ changed a (get texts a entries) (recipient_changes a recipients)
  unfolding add_recipients changed recipient_changes
  get-add_recipients a [] entries = refl
  get-add_recipients a ((txid, mappings) ∷ recipients) entries =
      get-add_recipients a recipients (add_mappings lib texts mappings entries)
      ∙ ap (λ e. changed a e (recipient_changes a recipients)) (get-add_mappings a mappings entries)
      ∙ sym (
          changed-append a (get texts a entries) (mapping_changes a mappings)
            (recipient_changes a recipients))

  -- Every loop keeps the order.
  add_names-Sorted :
      (names : List (Bytes × Bytes)) (entries : List (Bytes × Entry))
      → Sorted texts entries
      → Sorted texts (add_names lib texts names entries)
  unfolding add_names update_entry
  add_names-Sorted [] entries h = h
  add_names-Sorted ((address, name) ∷ names) entries h =
      add_names-Sorted names _ (insert-Sorted texts address _ entries h)

  add_purposes-Sorted :
      (purposes : List (Bytes × Bytes)) (entries : List (Bytes × Entry))
      → Sorted texts entries
      → Sorted texts (add_purposes lib texts purposes entries)
  unfolding add_purposes update_entry
  add_purposes-Sorted [] entries h = h
  add_purposes-Sorted ((address, purpose) ∷ purposes) entries h =
      add_purposes-Sorted purposes _ (insert-Sorted texts address _ entries h)

  add_mappings-Sorted :
      (mappings : List RecipientMapping) (entries : List (Bytes × Entry))
      → Sorted texts entries
      → Sorted texts (add_mappings lib texts mappings entries)
  unfolding add_mappings update_entry
  add_mappings-Sorted [] entries h = h
  add_mappings-Sorted (mapping ∷ mappings) entries h =
      elim (Bool-cases (is_empty_string mapping.unified_address)) [
        | inl empty ↦ rw empty (add_mappings-Sorted mappings entries h)
        | inr full ↦ rw full (
            add_mappings-Sorted mappings _
              (insert-Sorted texts mapping.unified_address _ entries h))
      ]

  add_recipients-Sorted :
      (recipients : List (Bytes × List RecipientMapping)) (entries : List (Bytes × Entry))
      → Sorted texts entries
      → Sorted texts (add_recipients lib texts recipients entries)
  unfolding add_recipients
  add_recipients-Sorted [] entries h = h
  add_recipients-Sorted ((txid, mappings) ∷ recipients) entries h =
      add_recipients-Sorted recipients _ (add_mappings-Sorted mappings entries h)

  -- The address book consists of the values of a map in increasing order of the addresses, in which
  -- an address has an entry if and only if some change concerns it, and then the entry is a new one
  -- with exactly the changes for this address, in their order: the labels of its names, its
  -- purposes, and the purpose send for each recipient where there is none yet.
  pub build_address_book-entries :
      (names purposes : List (Bytes × Bytes)) (recipients : List (Bytes × List RecipientMapping))
      → (entries : List (Bytes × Entry)) × (build_address_book lib texts names purposes recipients
          ≡ values lib texts entries)
        × Sorted texts entries
        × ((a : Bytes)
            → get texts a entries
              ≡ changed a none (
                  label_changes a names
                  ++ (purpose_changes a purposes ++ recipient_changes a recipients)))
  unfolding build_address_book Sorted
  build_address_book-entries names purposes recipients = (
    entries_of lib texts names purposes recipients,
    refl,
    add_recipients-Sorted recipients _
        (add_purposes-Sorted purposes _ (add_names-Sorted names [] tt)),
    λ a.
        get-add_recipients a recipients _
        ∙ ap (λ e. changed a e (recipient_changes a recipients))
            (get-add_purposes a purposes _
              ∙ ap (λ e. changed a e (purpose_changes a purposes))
                  (get-add_names a names []
                    ∙ ap (λ e. changed a e (label_changes a names)) (get-empty texts a)))
        ∙ sym (
            changed-append a (changed a none (label_changes a names)) (purpose_changes a purposes)
              (recipient_changes a recipients))
        ∙ sym (
            changed-append a none (label_changes a names)
              (purpose_changes a purposes ++ recipient_changes a recipients)),
  )
