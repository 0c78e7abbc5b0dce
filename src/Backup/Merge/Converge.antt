-- ===== src/Backup/Merge/Converge.antt =====
-- Two devices that exchange their changes through `libs/sdk-core/src/persist/sync.rs`, each importing
-- from the other, as `sync_remote_and_push` of `libs/sdk-core/src/backup.rs` does with the server's copy.
use breez_sdk.Prelude.{
  ◌≡◌, refl, ◌⊎◌, ap, ℕ, Option, none, some, arith, Text, any, inl, inr, ltb, ok, is_some,
  Bool-cases,
}
use breez_sdk.Backup.Rows.{find_row}
use breez_sdk.Backup.Rows.Found.{or_from}
use breez_sdk.Backup.Tables.{
  SwapRefund, SwapFees, SyncDb, same_refund, swap_key, info_key, reverse_swap_key, fees_key,
}
use breez_sdk.Backup.Database.{newer_fees, import_sync}
use breez_sdk.Backup.Merge.Steps.{Tables, tables}
use breez_sdk.Backup.Merge.Merged.{
  KeyedTables, Merged, newer_of, import_sync-Merged, import_sync-Keyed,
}

abbrev pub fees_date : Option SwapFees → Option ℕ
fees_date none = none
fees_date (some f) = some f.created_at

-- Rows that only one side had are the same on both, and so is all else, but for two rows of one key that
-- the sides had from the start, and for fees of the same second.
pub record Converged (own remote l r : Tables) : Type 0 where
  pub swap_on_both :
      (a : Text) → is_some (find_row swap_key a l.swaps) ≡ is_some (find_row swap_key a r.swaps)
  pub same_swap :
      (a : Text)
      → (find_row swap_key a own.swaps ≡ none) ⊎ (find_row swap_key a remote.swaps ≡ none)
      → find_row swap_key a l.swaps ≡ find_row swap_key a r.swaps
  pub same_refunds :
      (f : SwapRefund) → any (same_refund f) l.swap_refunds ≡ any (same_refund f) r.swap_refunds
  pub same_info :
      (a : Text)
      → (find_row info_key a own.payments_external_info ≡ none)
        ⊎ (find_row info_key a remote.payments_external_info ≡ none)
      → find_row info_key a l.payments_external_info ≡ find_row info_key a r.payments_external_info
  pub same_reverse_swap :
      (a : Text)
      → (find_row reverse_swap_key a own.reverse_swaps ≡ none)
        ⊎ (find_row reverse_swap_key a remote.reverse_swaps ≡ none)
      → find_row reverse_swap_key a l.reverse_swaps ≡ find_row reverse_swap_key a r.reverse_swaps
  pub same_fees :
      (a : Text)
      → (find_row fees_key a l.swaps_fees ≡ find_row fees_key a r.swaps_fees)
        ⊎ (fees_date (find_row fees_key a own.swaps_fees)
            ≡ fees_date (find_row fees_key a remote.swaps_fees))

module _ {R : Type 0} where
  or_from-both : (x y : Option R) → is_some (or_from x y) ≡ is_some (or_from y (or_from x y))
  or_from-both none none = refl
  or_from-both none (some y) = refl
  or_from-both (some x) none = refl
  or_from-both (some x) (some y) = refl

  or_from-exchange :
      (x y : Option R) → (x ≡ none) ⊎ (y ≡ none) → or_from x y ≡ or_from y (or_from x y)
  or_from-exchange none none h = refl
  or_from-exchange none (some y) h = refl
  or_from-exchange (some x) none h = refl
  or_from-exchange (some x) (some y) (inl e) = absurd (ground (arith, e))
  or_from-exchange (some x) (some y) (inr e) = absurd (ground (arith, e))

newer_fees-exchange :
    (x y : Option SwapFees)
    → (newer_of newer_fees y x ≡ newer_of newer_fees (newer_of newer_fees y x) y)
      ⊎ (fees_date x ≡ fees_date y)
newer_fees-exchange none none = inl refl
newer_fees-exchange none (some y) = inl (ground arith)
newer_fees-exchange (some x) none = inl refl
newer_fees-exchange (some x) (some y) = elim (Bool-cases (ltb x.created_at y.created_at)) [
  | inl older ↦ inl (ground (arith, older))
  | inr at_least ↦ elim (Bool-cases (ltb y.created_at x.created_at)) [
    | inl newer ↦ inl (ground (arith, at_least, newer))
    | inr at_most ↦
        let same : x.created_at ≡ y.created_at = ground (arith, at_least, at_most) in
        inr (ap some same)
  ]
]

module _ (own remote l r : Tables) (first : Merged remote own l) (second : Merged l remote r) where
  Merged-Converged : Converged own remote l r
  Merged-Converged = record {
    swap_on_both = λ a.
        rw (second.merged_swaps a, first.merged_swaps a)
          (or_from-both (find_row swap_key a own.swaps) (find_row swap_key a remote.swaps));
    same_swap = λ a h.
        rw (second.merged_swaps a, first.merged_swaps a)
          (or_from-exchange (find_row swap_key a own.swaps) (find_row swap_key a remote.swaps) h);
    same_refunds = λ f. ground (arith, second.merged_refunds f, first.merged_refunds f);
    same_info = λ a h.
        rw (second.merged_info a, first.merged_info a)
          (or_from-exchange (find_row info_key a own.payments_external_info)
            (find_row info_key a remote.payments_external_info) h);
    same_reverse_swap = λ a h.
        rw (second.merged_reverse_swaps a, first.merged_reverse_swaps a)
          (or_from-exchange (find_row reverse_swap_key a own.reverse_swaps)
            (find_row reverse_swap_key a remote.reverse_swaps) h);
    same_fees = λ a.
        rw (second.merged_fees a, first.merged_fees a)
          (newer_fees-exchange (find_row fees_key a own.swaps_fees)
            (find_row fees_key a remote.swaps_fees));
  }

pub import_sync-Converged :
    (own remote l r : SyncDb)
    → KeyedTables (tables own)
    → KeyedTables (tables remote)
    → import_sync remote own ≡ ok l
    → import_sync l remote ≡ ok r
    → Converged (tables own) (tables remote) (tables l) (tables r)
import_sync-Converged own remote l r keyed_own keyed_remote first second =
    Merged-Converged (tables own) (tables remote) (tables l) (tables r)
      (import_sync-Merged remote own l keyed_remote first)
      (import_sync-Merged l remote r (import_sync-Keyed remote own l keyed_own first) second)
