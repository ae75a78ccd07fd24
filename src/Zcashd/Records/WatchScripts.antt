-- ===== src/Zcashd/Records/WatchScripts.antt =====
-- The watch-only scripts that `parse_watch_scripts` returns, and their order.
use zewif_zcashd.Base.{
  ◌≡◌, sym, ap, ◌∙◌, subst, true, false, List, [], ◌∷◌, ◌++◌, ok, bind-eq-ok, map_err-eq-ok,
  lift-eq-ok, append-nil, append_assoc, ◌⊎◌, inl, inr, Bool-cases,
}
use zewif_zcashd.Base.Bytes.{codes, eq_bytes}
use zewif_zcashd.Base.BTreeMap.{Ord}
use zewif_zcashd.Wire.Parser.{Bytes, parse_buf}
use zewif_zcashd.Wallet.Transparent.WatchScript.{WatchScript, watch_script}
use zewif_zcashd.Dump.{DbKey, DbValue, ZcashdDump, records_for_keyname}
use zewif_zcashd.Zcashd.State.{eq_key, for_records, has_keys, records_of, parse_in, mark_key_parsed}
use zewif_zcashd.Zcashd.Records.{watch_script_round, sort_by_data, parse_watch_scripts}
use zewif_zcashd.Zcashd.Records.Sorting.{Ascending, Rearranged, sort_by_data-Ascending}

-- Each script is read off the whole of the data of the record's key at the same place.
pub data Decoded : List (DbKey × DbValue) → List WatchScript → Type 0 where
  all_read : Decoded [] []
  one_read :
      (key : DbKey) (value : DbValue) (script : WatchScript) (records : List (DbKey × DbValue))
      (scripts : List WatchScript)
      → parse_buf watch_script key.key_data false ≡ ok script
      → Decoded records scripts
      → Decoded ((key, value) ∷ records) (script ∷ scripts)

watch_script_round-eq-ok :
    (scripts scripts' : List WatchScript) (key : DbKey) (value : DbValue) (s s' : List DbKey)
    → watch_script_round scripts key value s ≡ ok (scripts', s')
    → (script : WatchScript) × (parse_buf watch_script key.key_data false ≡ ok script)
      × (scripts' ≡ scripts ++ (script ∷ []))
unfolding watch_script_round
watch_script_round-eq-ok scripts scripts' key value s s' e =
    let ((script, s₁), a₁, e₁) =
      bind-eq-ok (parse_in "watch-only script" watch_script key.key_data s) _ e in
    let ((u, s₂), a₂, e₂) = bind-eq-ok (mark_key_parsed key s₁) _ e₁ in
    (script, map_err-eq-ok _ _ (map_err-eq-ok _ _ (lift-eq-ok _ s a₁)), cc)

-- The loop adds the scripts of the records behind those it starts from.
for_records-Decoded :
    (records : List (DbKey × DbValue)) (before after : List WatchScript) (s s' : List DbKey)
    → for_records watch_script_round records before s ≡ ok (after, s')
    → (scripts : List WatchScript) × (after ≡ before ++ scripts) × Decoded records scripts
unfolding for_records
for_records-Decoded [] before after s s' e =
    let same : before ≡ after = cc in ([], sym same ∙ sym (append-nil before), all_read)
for_records-Decoded ((key, value) ∷ records) before after s s' e =
    let ((now, s₁), e₁, e₂) = bind-eq-ok (watch_script_round before key value s) _ e in
    let (script, read, is) = watch_script_round-eq-ok before now key value s s₁ e₁ in
    let (scripts, more, rest) = for_records-Decoded records now after s₁ s' e₂ in
    (
      script ∷ scripts,
      more ∙ ap (λ x. x ++ scripts) is ∙ append_assoc before (script ∷ []) scripts,
      one_read key value script records scripts read rest,
    )

module _ (names : Ord Bytes) (keys : Ord DbKey) (d : ZcashdDump) (datas : Ord Bytes) where
  -- Where parse_watch_scripts succeeds, either the dump has no watchs keys and no script is
  -- returned, or the scripts are those that the keys of the watchs records hold, one for each
  -- record and each read off the whole of the data of its key, in an order of the records in which
  -- none is behind one with greater data.
  pub parse_watch_scripts-Decoded :
      (s s' : List DbKey) (scripts : List WatchScript)
      → parse_watch_scripts names keys d datas s ≡ ok (scripts, s')
      → ((has_keys names keys d (codes "watchs") ≡ false) × (scripts ≡ []))
        ⊎ ((has_keys names keys d (codes "watchs") ≡ true)
            × ((found : List (DbKey × DbValue)) × ((sorted : List (DbKey × DbValue))
                  × (records_for_keyname names keys d (codes "watchs") ≡ ok found)
                  × Rearranged found sorted
                  × Ascending datas sorted
                  × Decoded sorted scripts)))
  unfolding parse_watch_scripts
  parse_watch_scripts-Decoded s s' scripts e =
      elim (Bool-cases (has_keys names keys d (codes "watchs"))) [
        | inr away ↦ let done = rw away at e in inl (away, cc)
        | inl has ↦
            let run = rw has at e in
            let ((found, s₁), e₁, e₂) =
              bind-eq-ok (records_of names keys d (codes "watchs") s) _ run in
            let (read, all, decoded) =
              for_records-Decoded (sort_by_data datas found) [] scripts s₁ s' e₂ in
            let (ascending, same) = sort_by_data-Ascending datas found in
            inr (
              has,
              (
                found,
                (
                  sort_by_data datas found,
                  map_err-eq-ok _ _ (lift-eq-ok _ s e₁),
                  same,
                  ascending,
                  subst (Decoded (sort_by_data datas found)) (sym all) decoded,
                ),
              ),
            )
      ]
