-- ===== src/Store/Mirroring/Reads.antt =====
-- What reads see after writes and removals (`libs/sdk-core/src/ldk/store/mirroring_store.rs`).
use mathlib.Core.Path.{subst}
use breez_sdk.Prelude.{
  ◌≡◌, refl, inl, inr, false, none, some, [], ◌∷◌, ◌++◌, arith, Bytes, ok, err, if◌then◌else◌,
  eq_text_iff, Option-cases, Result-cases, Bool-cases,
}
use breez_sdk.Prelude.Int.{ℤ, pos, negsuc, ◌+ℤ◌}
use breez_sdk.Store.Versioned.{VersionedStore}
use breez_sdk.Store.Keys.{RowKey, eq_key, eq_key_iff, full_key}
use breez_sdk.Store.Table.{
  Row, Table, select_row, update_row, delete_row, set_value, set_synced, set_removed,
}
use breez_sdk.Store.Mirroring.{read, not_found, write_local, write, remove}

module _ (k j : RowKey) where
  read-set_synced : (t : Table) → read j (update_row k set_synced t) ≡ read j t
  unfolding read update_row
  read-set_synced [] = refl
  read-set_synced (r ∷ t) = ground (arith, read-set_synced t)

  read-update_ne :
      (f : Row → Row) (t : Table)
      → eq_key k j ≡ false
      → ((r : Row) → (f r).at ≡ r.at)
      → read j (update_row k f t) ≡ read j t
  unfolding read update_row
  read-update_ne f [] ne keeps = refl
  read-update_ne f (r ∷ t) ne keeps = ground (
    arith,
    keeps r,
    eq_key_iff r.at k,
    eq_key_iff r.at j,
    eq_key_iff k j,
    read-update_ne f t ne keeps,
  )

  read-set_value :
      (v : Bytes) (n : ℤ) (t : Table) (r : Row)
      → select_row k t ≡ some r
      → read j (update_row k (set_value v n) t) ≡ (if eq_key k j then ok v else read j t)
  unfolding read update_row select_row
  read-set_value v n [] r e = cc
  read-set_value v n (x ∷ t) r e = ground (
    arith,
    eq_key_iff x.at k,
    eq_key_iff x.at j,
    eq_key_iff k j,
    read-set_value v n t r,
    read-update_ne (set_value v n) t,
  )

  read-append_missing :
      (v : Bytes) (a b : ℤ) (t : Table)
      → select_row k t ≡ none
      → read j (
          t
          ++ record { at = k; value = v; local_version = a; remote_version = b; removed = false }
            ∷ [])
        ≡ (if eq_key k j then ok v else read j t)
  unfolding read select_row
  read-append_missing v a b [] e = ground arith
  read-append_missing v a b (x ∷ t) e =
      ground
        (arith, eq_key_iff x.at k, eq_key_iff x.at j, eq_key_iff k j, read-append_missing v a b t)

  read_present :
      (v : Bytes) (t : Table) (r : Row)
      → select_row k t ≡ some r
      → r.removed ≡ false
      → r.value ≡ v
      → read k t ≡ ok v
  unfolding read select_row
  read_present v [] r e live same = cc
  read_present v (x ∷ t) r e live same = ground (arith, read_present v t r)

  read-set_removed :
      (t : Table)
      → read j (update_row k set_removed t) ≡ (if eq_key k j then err not_found else read j t)
  unfolding read update_row
  read-set_removed [] = ground arith
  read-set_removed (x ∷ t) =
      ground (arith, eq_key_iff x.at k, eq_key_iff x.at j, eq_key_iff k j, read-set_removed t)

  read-delete_row :
      (t : Table) → read j (delete_row k t) ≡ (if eq_key k j then err not_found else read j t)
  unfolding read delete_row
  read-delete_row [] = ground arith
  read-delete_row (x ∷ t) =
      ground (arith, eq_key_iff x.at k, eq_key_iff x.at j, eq_key_iff k j, read-delete_row t)

  write_local_skips :
      (v : Bytes) (t : Table)
      → write_local k v t ≡ none
      → read j t ≡ (if eq_key k j then ok v else read j t)
  unfolding write_local
  write_local_skips v t e = elim (Option-cases (select_row k t)) [
    | inl missing ↦ absurd (ground (arith, e, missing))
    | inr (r, found) ↦ elim (Bool-cases (eq_key k j)) [
      | inr ne ↦ rw ne
      | inl same ↦ rw same (
          subst (λ z. read z t ≡ ok v) ((eq_key_iff k j).0 same)
            (read_present v t r found (ground (arith, e, found))
              (ground (arith, e, found, eq_text_iff r.value v))))
    ]
  ]

  read-write_local :
      (v : Bytes) (t t' : Table) (n : ℤ)
      → write_local k v t ≡ some (t', n)
      → read j t' ≡ (if eq_key k j then ok v else read j t)
  unfolding write_local
  read-write_local v t t' n e = elim (Option-cases (select_row k t)) [
    | inl missing ↦ ground (arith, e, missing, read-append_missing v (pos 0) (negsuc 0) t missing)
    | inr (r, found) ↦
        ground (arith, e, found, read-set_value v (r.local_version +ℤ pos 1) t r found)
  ]

module _ (remote : VersionedStore) (k j : RowKey) (t : Table) (st : remote.State) where
  -- A write is seen by every later read, also where the server refused it, and changes no other key.
  pub read-write :
      (v : Bytes) → read j (write remote k v t st).1 ≡ (if eq_key k j then ok v else read j t)
  unfolding write
  read-write v = elim (Option-cases (write_local k v t)) [
    | inl same ↦ ground (arith, same, write_local_skips k j v t same)
    | inr ((t', n), e) ↦ elim (Result-cases (remote.put (full_key k) v n st).0) [
      | inl (u, p) ↦ ground (arith, e, p, read-set_synced k j t', read-write_local k j v t t' n e)
      | inr (x, p) ↦ ground (arith, e, p, read-write_local k j v t t' n e)
    ]
  ]

  -- A removed key is gone for every later read, also where the server refused the removal, and no
  -- other key changes.
  pub read-remove :
      read j (remove remote k t st).1 ≡ (if eq_key k j then err not_found else read j t)
  unfolding remove
  read-remove = elim (Result-cases (remote.delete (full_key k) st).0) [
    | inl (u, p) ↦
        ground (arith, p, read-delete_row k j (update_row k set_removed t), read-set_removed k j t)
    | inr (x, p) ↦ ground (arith, p, read-set_removed k j t)
  ]
