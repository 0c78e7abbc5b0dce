-- ===== src/Backup/Merge/Imported.antt =====
-- A successful import of `libs/sdk-core/src/persist/sync.rs`, step by step, and the tables that it leaves.
use mathlib.Core.Path.{subst}
use breez_sdk.Prelude.{List, ◌≡◌, sym, ap, ◌∙◌, some, arith, inl, inr, Result-cases, ok}
use breez_sdk.Backup.Rows.{newer_rows, missing_rows, insert_rows, replace_rows}
use breez_sdk.Backup.Tables.{
  SyncSwap, ExternalInfo, SyncReverseSwap, SyncDb, swap_clash, reverse_swap_clash, no_clash,
  swap_key, info_key, metadata_key, reverse_swap_key, fees_key,
}
use breez_sdk.Backup.Database.{
  ignore_refunds, newer_metadata, newer_fees, import_swaps, import_refunds, import_external_info,
  import_metadata, import_reverse_swaps, sync_swaps_fees_local, import_sync,
}
use breez_sdk.Backup.Merge.Steps.{
  Tables, tables, import_swaps-tables, import_refunds-tables, import_external_info-tables,
  import_metadata-tables, import_reverse_swaps-tables, sync_swaps_fees_local-tables,
}

-- The steps of a successful import.
pub record Steps (remote own merged : SyncDb) : Type 0 where
  pub db1 : SyncDb
  pub db2 : SyncDb
  pub db3 : SyncDb
  pub step1 : import_swaps remote own ≡ ok db1
  pub step2 : import_external_info remote (import_refunds remote db1) ≡ ok db2
  pub step3 : import_reverse_swaps remote (import_metadata remote db2) ≡ ok db3
  pub last_step : sync_swaps_fees_local remote db3 ≡ merged

pub import_sync-Steps :
    (remote own merged : SyncDb) → import_sync remote own ≡ ok merged → Steps remote own merged
unfolding import_sync
import_sync-Steps remote own merged h = elim (Result-cases (import_swaps remote own)) [
  | inr (e, fails) ↦ absurd (ground (arith, h, fails))
  | inl (db1, s1) ↦ elim (Result-cases (import_external_info remote (import_refunds remote db1))) [
    | inr (e, fails) ↦ absurd (ground (arith, h, s1, fails))
    | inl (db2, s2) ↦
        elim (Result-cases (import_reverse_swaps remote (import_metadata remote db2))) [
          | inr (e, fails) ↦ absurd (ground (arith, h, s1, s2, fails))
          | inl (db3, s3) ↦ record {
            db1 = db1;
            db2 = db2;
            db3 = db3;
            step1 = s1;
            step2 = s2;
            step3 = s3;
            last_step = ground (arith, h, s1, s2, s3);
          }
        ]
  ]
]

-- The steps that cannot fail, on the tables.
abbrev pub refunds_step : SyncDb → Tables → Tables
refunds_step remote t = record t {
  swap_refunds = (ignore_refunds remote.swap_refunds t.swap_refunds).1;
}

abbrev pub metadata_step : SyncDb → Tables → Tables
metadata_step remote t = record t {
  payments_metadata =
      replace_rows metadata_key
        (newer_rows metadata_key newer_metadata remote.payments_metadata t.payments_metadata)
        t.payments_metadata;
}

abbrev pub fees_step : SyncDb → Tables → Tables
fees_step remote t = record t {
  swaps_fees =
      replace_rows fees_key (newer_rows fees_key newer_fees remote.swaps_fees t.swaps_fees)
        t.swaps_fees;
}

-- The tables after a successful import, computed from those before.
pub record Imported (remote own merged : SyncDb) : Type 0 where
  pub s : List SyncSwap
  pub i : List ExternalInfo
  pub v : List SyncReverseSwap
  pub inserted_swaps :
      insert_rows swap_key swap_clash (missing_rows swap_key remote.swaps own.swaps) own.swaps
      ≡ some s
  pub inserted_info :
      insert_rows info_key no_clash
        (missing_rows info_key remote.payments_external_info own.payments_external_info)
        own.payments_external_info
      ≡ some i
  pub inserted_reverse_swaps :
      insert_rows reverse_swap_key reverse_swap_clash
        (missing_rows reverse_swap_key remote.reverse_swaps own.reverse_swaps)
        own.reverse_swaps
      ≡ some v
  pub final_tables :
      tables merged
      ≡ fees_step remote
          (record (metadata_step remote
            (record (refunds_step remote (record (tables own) { swaps = s })) {
              payments_external_info = i;
            })) { reverse_swaps = v })

pub import_sync-Imported :
    (remote own merged : SyncDb) → import_sync remote own ≡ ok merged → Imported remote own merged
import_sync-Imported remote own merged h =
    let st = import_sync-Steps remote own merged h in
    let (s, (hs, es)) = import_swaps-tables remote own st.db1 st.step1 in
    let er = import_refunds-tables remote st.db1 ∙ ap (refunds_step remote) es in
    let refunded = import_refunds remote st.db1 in
    let (i, (hi, ei)) = import_external_info-tables remote refunded st.db2 st.step2 in
    let e2 : tables st.db2 ≡ record (refunds_step remote (record (tables own) { swaps = s })) {
      payments_external_info = i;
    } =
      ei ∙ ap (λ (t : Tables). record t { payments_external_info = i }) er in
    let em = import_metadata-tables remote st.db2 ∙ ap (metadata_step remote) e2 in
    let with_metadata = import_metadata remote st.db2 in
    let (v, (hv, ev)) = import_reverse_swaps-tables remote with_metadata st.db3 st.step3 in
    let e3 = ev ∙ ap (λ (t : Tables). record t { reverse_swaps = v }) em in
    record {
      s = s;
      i = i;
      v = v;
      inserted_swaps = hs;
      inserted_info =
          subst
            (λ (t : Tables).
              insert_rows info_key no_clash
                (missing_rows info_key remote.payments_external_info t.payments_external_info)
                t.payments_external_info
              ≡ some i)
            er hi;
      inserted_reverse_swaps =
          subst
            (λ (t : Tables).
              insert_rows reverse_swap_key reverse_swap_clash
                (missing_rows reverse_swap_key remote.reverse_swaps t.reverse_swaps) t.reverse_swaps
              ≡ some v)
            em hv;
      final_tables =
          ap tables (sym st.last_step)
          ∙ (sync_swaps_fees_local-tables remote st.db3 ∙ ap (fees_step remote) e3);
    }
