-- ===== src/Backup/Merge/Settled.antt =====
-- A second import of the same changes by `libs/sdk-core/src/persist/sync.rs` changes nothing, so that no
-- trigger fires and a backup does not ask for the next one.
use breez_sdk.Prelude.{
  ◌≡◌, ◌∙◌, sym, ap, refl, Bool, true, false, not, Option, none, some, List, [], ◌∷◌, arith, any,
  inl, inr, ok, is_some, Bool-cases, Option-cases, filterb, Member, Text, eq_text, eq_text_iff,
  eq_text_refl,
}
use breez_sdk.Backup.Rows.{find_row, Keyed, missing_rows, insert_rows, newer_rows, replace_rows}
use breez_sdk.Backup.Rows.Found.{or_from}
use breez_sdk.Backup.Tables.{
  SwapRefund, SyncDb, same_refund, swap_key, info_key, metadata_key, reverse_swap_key, fees_key,
}
use breez_sdk.Backup.Database.{
  ignore_refunds, newer_metadata, newer_fees, import_swaps, import_refunds, import_external_info,
  import_metadata, import_reverse_swaps, sync_swaps_fees_local, import_sync, fire_triggers,
  request_each, has_trigger,
}
use breez_sdk.Backup.Merge.Steps.{tables}
use breez_sdk.Backup.Merge.Merged.{KeyedTables, Merged, newer_of, import_sync-Merged}

filterb-nothing :
    {A : Type 0} (p : A → Bool) (xs : List A)
    → ((x : A) → Member x xs → p x ≡ false)
    → filterb p xs ≡ []
filterb-nothing p [] h = refl
filterb-nothing p (x ∷ xs) h = rw (h x (inl refl), filterb-nothing p xs (λ y m. h y (inr m))) refl

module _ {R : Type 0} (key : R → Text) where
  Member-find_row :
      (r : R) (t : List R) → Keyed key t → Member r t → find_row key (key r) t ≡ some r
  unfolding find_row
  Member-find_row r [] keyed m = absurd m
  Member-find_row r (x ∷ t) keyed (inl e) =
      let same : eq_text (key x) (key r) ≡ true =
        (eq_text_iff (key x) (key r)).1 (ap key (sym e)) in
      rw same (ap some (sym e))
  Member-find_row r (x ∷ t) keyed (inr m) =
      let rest = Member-find_row r t keyed.1 m in
      elim (Bool-cases (eq_text (key x) (key r))) [
        | inr other ↦ rw other rest
        | inl same ↦
            let gone : find_row key (key r) t ≡ none =
              ap (λ k. find_row key k t) (sym ((eq_text_iff (key x) (key r)).0 same)) ∙ keyed.0 in
            absurd (ground (arith, gone, rest))
      ]

  missing_rows-settled :
      (remote own merged : List R)
      → Keyed key remote
      → ((a : Text) → find_row key a merged ≡ or_from (find_row key a own) (find_row key a remote))
      → missing_rows key remote merged ≡ []
  unfolding missing_rows
  missing_rows-settled remote own merged keyed h =
      filterb-nothing (λ r. not (is_some (find_row key (key r) merged))) remote
        (λ r m. ground (
          arith,
          h (key r),
          Member-find_row r remote keyed m,
          Option-cases (find_row key (key r) own),
        ))

  newer_rows-settled :
      (newer : R → Option R → Bool) (remote own merged : List R)
      → Keyed key remote
      → ((r : R) → newer r (some r) ≡ false)
      → ((a : Text)
          → find_row key a merged ≡ newer_of newer (find_row key a remote) (find_row key a own))
      → newer_rows key newer remote merged ≡ []
  unfolding newer_rows
  newer_rows-settled newer remote own merged keyed irreflexive h =
      filterb-nothing (λ r. newer r (find_row key (key r) merged)) remote
        (λ r m.
          let found = Member-find_row r remote keyed m in
          elim (Bool-cases (newer r (find_row key (key r) own))) [
            | inl newer_one ↦
                let e : find_row key (key r) merged ≡ some r =
                  ground (arith, h (key r), found, newer_one) in
                ap (newer r) e ∙ irreflexive r
            | inr older ↦
                let e : find_row key (key r) merged ≡ find_row key (key r) own =
                  ground (arith, h (key r), found, older) in
                ap (newer r) e ∙ older
          ])

any-Member :
    (r : SwapRefund) (rows : List SwapRefund) → Member r rows → any (same_refund r) rows ≡ true
any-Member r [] m = absurd m
any-Member r (x ∷ rows) (inl e) =
    let here : same_refund r x ≡ true =
      ap (same_refund r) (sym e)
      ∙ ground (arith, eq_text_refl r.bitcoin_address, eq_text_refl r.refund_tx_id) in
    rw here refl
any-Member r (x ∷ rows) (inr m) = ground (arith, any-Member r rows m)

ignore_refunds-settled :
    (rows t : List SwapRefund)
    → ((r : SwapRefund) → Member r rows → any (same_refund r) t ≡ true)
    → ignore_refunds rows t ≡ (0, t)
unfolding ignore_refunds
ignore_refunds-settled [] t h = refl
ignore_refunds-settled (r ∷ rows) t h =
    rw (ignore_refunds-settled rows t (λ x m. h x (inr m)), h r (inl refl)) refl

module _ (remote merged : SyncDb) where
  import_swaps-settled :
      missing_rows swap_key remote.swaps merged.swaps ≡ [] → import_swaps remote merged ≡ ok merged
  unfolding import_swaps insert_rows fire_triggers request_each has_trigger
  import_swaps-settled h = rw (h, import_swaps) refl

  import_external_info-settled :
      missing_rows info_key remote.payments_external_info merged.payments_external_info ≡ []
      → import_external_info remote merged ≡ ok merged
  unfolding import_external_info insert_rows fire_triggers request_each has_trigger
  import_external_info-settled h = rw (h, import_external_info) refl

  import_reverse_swaps-settled :
      missing_rows reverse_swap_key remote.reverse_swaps merged.reverse_swaps ≡ []
      → import_reverse_swaps remote merged ≡ ok merged
  unfolding import_reverse_swaps insert_rows fire_triggers request_each has_trigger
  import_reverse_swaps-settled h = rw (h, import_reverse_swaps) refl

  import_refunds-settled :
      ignore_refunds remote.swap_refunds merged.swap_refunds ≡ (0, merged.swap_refunds)
      → import_refunds remote merged ≡ merged
  unfolding import_refunds fire_triggers request_each has_trigger
  import_refunds-settled h = rw (h, import_refunds) refl

  import_metadata-settled :
      newer_rows metadata_key newer_metadata remote.payments_metadata merged.payments_metadata ≡ []
      → import_metadata remote merged ≡ merged
  unfolding import_metadata replace_rows fire_triggers request_each has_trigger
  import_metadata-settled h = rw (h, import_metadata) refl

  sync_swaps_fees_local-settled :
      newer_rows fees_key newer_fees remote.swaps_fees merged.swaps_fees ≡ []
      → sync_swaps_fees_local remote merged ≡ merged
  unfolding sync_swaps_fees_local replace_rows fire_triggers request_each has_trigger
  sync_swaps_fees_local-settled h = rw (h, sync_swaps_fees_local) refl

  -- Changes that are already there are not imported again, and file no request.
  Merged-settled :
      (own : SyncDb)
      → KeyedTables (tables remote)
      → Merged (tables remote) (tables own) (tables merged)
      → import_sync remote merged ≡ ok merged
  unfolding import_sync
  Merged-settled own keyed m =
      let swaps = import_swaps-settled (
        missing_rows-settled swap_key remote.swaps own.swaps merged.swaps keyed.keyed_swaps
          m.merged_swaps) in
      let refunds = import_refunds-settled (
        ignore_refunds-settled remote.swap_refunds merged.swap_refunds
          (λ r at. ground (arith, m.merged_refunds r, any-Member r remote.swap_refunds at))) in
      let info = import_external_info-settled (
        missing_rows-settled info_key remote.payments_external_info own.payments_external_info
          merged.payments_external_info keyed.keyed_info m.merged_info) in
      let metadata = import_metadata-settled (
        newer_rows-settled metadata_key newer_metadata remote.payments_metadata
          own.payments_metadata merged.payments_metadata keyed.keyed_metadata (λ r. ground arith)
          m.merged_metadata) in
      let reverse = import_reverse_swaps-settled (
        missing_rows-settled reverse_swap_key remote.reverse_swaps own.reverse_swaps
          merged.reverse_swaps keyed.keyed_reverse_swaps m.merged_reverse_swaps) in
      let fees = sync_swaps_fees_local-settled (
        newer_rows-settled fees_key newer_fees remote.swaps_fees own.swaps_fees merged.swaps_fees
          keyed.keyed_fees (λ r. ground arith) m.merged_fees) in
      rw (swaps, refunds, info, metadata, reverse, fees) refl

pub import_sync-again :
    (remote own merged : SyncDb)
    → KeyedTables (tables remote)
    → import_sync remote own ≡ ok merged
    → import_sync remote merged ≡ ok merged
import_sync-again remote own merged keyed h =
    Merged-settled remote merged own keyed (import_sync-Merged remote own merged keyed h)
