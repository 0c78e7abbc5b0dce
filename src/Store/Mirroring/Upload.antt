-- ===== src/Store/Mirroring/Upload.antt =====
-- An upload leaves nothing to upload (`libs/sdk-core/src/ldk/store/mirroring_store.rs`).
use mathlib.Core.Path.{subst}
use breez_sdk.Prelude.{
  ◌≡◌, refl, inl, inr, Bool, true, false, List, [], ◌∷◌, arith, Result, ok, any, filterb, All,
  Result-cases, Bool-cases,
}
use breez_sdk.Prelude.Int.{eq_ℤ_iff}
use breez_sdk.Store.Versioned.{VersionedStore}
use breez_sdk.Store.Keys.{RowKey, eq_key, eq_key_iff, full_key}
use breez_sdk.Store.Table.{Row, Table, update_row, delete_row, set_synced, dirty_row, is_dirty}
use breez_sdk.Store.Mirroring.{MirrorError, upload_removed, upload_outdated, outdated_row, upload}

-- Some row of the list has the key of `r`.
abbrev covered : List Row → Row → Bool
covered rows r = any (λ (x : Row). eq_key x.at r.at) rows

All-imp : {P Q : Row → Type 0} (t : Table) → ((r : Row) → P r → Q r) → All P t → All Q t
All-imp [] f h = tt
All-imp (r ∷ t) f h = (f r h.0, All-imp t f h.1)

-- The rows that a test selects cover every row that passes it.
filterb_covers :
    (p : Row → Bool) (t : Table) → All (λ r. p r ≡ true → covered (filterb p t) r ≡ true) t
filterb_covers p [] = tt
filterb_covers p (r ∷ t) = (
  (λ q. ground (arith, q, eq_key_iff r.at r.at)),
  All-imp t (λ x h q. ground (arith, h q)) (filterb_covers p t),
)

All-and : (P Q : Row → Type 0) (t : Table) → All P t → All Q t → All (λ r. P r × Q r) t
All-and P Q [] h k = tt
All-and P Q (r ∷ t) h k = ((h.0, k.0), All-and P Q t h.1 k.1)

All-delete_row :
    {P Q : Row → Type 0} (k : RowKey) (t : Table)
    → ((r : Row) → P r → eq_key k r.at ≡ false → Q r)
    → All P t
    → All Q (delete_row k t)
unfolding delete_row
All-delete_row k [] f h = tt
All-delete_row k (r ∷ t) f h = elim (Bool-cases (eq_key r.at k)) [
  | inl same ↦ rw same (All-delete_row k t f h.1)
  | inr other ↦ rw other (
    f r h.0 (ground (arith, other, eq_key_iff r.at k, eq_key_iff k r.at)),
    All-delete_row k t f h.1,
  )
]

All-update_row :
    {P Q : Row → Type 0} (k : RowKey) (g : Row → Row) (t : Table)
    → ((r : Row) → P r → eq_key k r.at ≡ true → Q (g r))
    → ((r : Row) → P r → eq_key k r.at ≡ false → Q r)
    → All P t
    → All Q (update_row k g t)
unfolding update_row
All-update_row k g [] f f' h = tt
All-update_row k g (r ∷ t) f f' h = elim (Bool-cases (eq_key r.at k)) [
  | inl same ↦ rw same (
    f r h.0 (ground (arith, same, eq_key_iff r.at k, eq_key_iff k r.at)),
    All-update_row k g t f f' h.1,
  )
  | inr other ↦ rw other (
    f' r h.0 (ground (arith, other, eq_key_iff r.at k, eq_key_iff k r.at)),
    All-update_row k g t f f' h.1,
  )
]

module _ (remote : VersionedStore) where
  abbrev IsDone : (Row → Type 0) → Result MirrorError (Unit {0}) × Table × remote.State → Type 0
  IsDone P out = out.0 ≡ ok tt → All P out.1

  -- After the first loop no row has a tombstone.
  upload_removed_live :
      (rows : List Row) (t : Table) (st : remote.State)
      → All (λ r. r.removed ≡ true → covered rows r ≡ true) t
      → IsDone (λ r. r.removed ≡ false) (upload_removed remote rows t st)
  unfolding upload_removed
  upload_removed_live [] t st h done =
      All-imp t
        (λ r f. elim (Bool-cases r.removed) [
          | inl dead ↦ absurd (ground (arith, f dead))
          | inr live ↦ live
        ])
        h
  upload_removed_live (x ∷ rows) t st h done =
      elim (Result-cases (remote.delete (full_key x.at) st).0) [
        | inr (y, p) ↦ absurd (ground (arith, p, done))
        | inl (u, p) ↦
            let step : upload_removed remote rows (delete_row x.at t)
                  (remote.delete (full_key x.at) st).1
                ≡ upload_removed remote (x ∷ rows) t st =
              ground (arith, p) in
            subst (IsDone (λ r. r.removed ≡ false)) step
              (upload_removed_live rows (delete_row x.at t) (remote.delete (full_key x.at) st).1
                (All-delete_row x.at t (λ r f ne dead. ground (arith, f dead, ne)) h))
              done
      ]

  abbrev ToSync : List Row → Row → Type 0
  ToSync rows r = (r.removed ≡ false) × (outdated_row r ≡ true → covered rows r ≡ true)

  -- After the second loop every row is clean.
  upload_outdated_clean :
      (rows : List Row) (t : Table) (st : remote.State)
      → All (ToSync rows) t
      → IsDone (λ r. dirty_row r ≡ false) (upload_outdated remote rows t st)
  unfolding upload_outdated
  upload_outdated_clean [] t st h done =
      All-imp t
        (λ r f. elim (Bool-cases (outdated_row r)) [
          | inl old ↦ absurd (ground (arith, f.1 old))
          | inr current ↦ ground (arith, f.0, current)
        ])
        h
  upload_outdated_clean (x ∷ rows) t st h done =
      elim (Result-cases (remote.put (full_key x.at) x.value x.local_version st).0) [
        | inr (y, p) ↦ absurd (ground (arith, p, done))
        | inl (u, p) ↦
            let st' = (remote.put (full_key x.at) x.value x.local_version st).1 in
            let step : upload_outdated remote rows (update_row x.at set_synced t) st'
                ≡ upload_outdated remote (x ∷ rows) t st =
              ground (arith, p) in
            subst (IsDone (λ r. dirty_row r ≡ false)) step
              (upload_outdated_clean rows (update_row x.at set_synced t) st' (
                All-update_row x.at set_synced t
                  (λ r f same. (
                    f.0,
                    λ old. absurd (ground (arith, old, eq_ℤ_iff r.local_version r.local_version)),
                  ))
                  (λ r f ne. (f.0, λ old. ground (arith, f.1 old, ne))) h))
              done
      ]

  clean_table : (t : Table) → All (λ r. dirty_row r ≡ false) t → is_dirty t ≡ false
  unfolding is_dirty
  clean_table [] h = refl
  clean_table (r ∷ t) h = ground (arith, h.0, clean_table t h.1)

  -- An upload that succeeded has left no changed row and no tombstone.
  pub upload_clean :
      (t : Table) (st : remote.State)
      → (upload remote t st).0 ≡ ok tt
      → is_dirty (upload remote t st).1 ≡ false
  unfolding upload
  upload_clean t st done =
      let first = upload_removed remote (filterb (λ (r : Row). r.removed) t) t st in
      elim (Result-cases first.0) [
        | inr (x, p) ↦ absurd (ground (arith, p, done))
        | inl (u, p) ↦
            let live =
              upload_removed_live (filterb (λ (r : Row). r.removed) t) t st
                (filterb_covers (λ (r : Row). r.removed) t) p in
            let step : upload_outdated remote (filterb outdated_row first.1) first.1 first.2
                ≡ upload remote t st =
              ground (arith, p) in
            clean_table (upload remote t st).1 (
              subst (IsDone (λ r. dirty_row r ≡ false)) step
                (upload_outdated_clean (filterb outdated_row first.1) first.1 first.2
                  (All-and _ _ first.1 live (filterb_covers outdated_row first.1)))
                done)
      ]
