-- ===== src/Store/Mirroring/Failures.antt =====
-- What a failed call leaves behind (`libs/sdk-core/src/ldk/store/mirroring_store.rs`).
use breez_sdk.Prelude.{
  ◌≡◌, ◌≢◌, refl, ap, ◌∙◌, inl, inr, false, Option, none, some, arith, Bytes, ok, err, eq_text_iff,
  Option-cases, Result-cases,
}
use breez_sdk.Prelude.Int.{ℤ, pos, negsuc, ◌+ℤ◌, suc_ne}
use breez_sdk.Store.Versioned.{VersionedStore, IsVersioned}
use breez_sdk.Store.Keys.{RowKey, eq_key_iff, full_key}
use breez_sdk.Store.Table.{
  Row, Table, select_row, set_value, select_row-update_row, select_row-append,
}
use breez_sdk.Store.Mirroring.{IoError, write_local, write}
use breez_sdk.Store.Mirroring.Agreement.{at-select_row}
use breez_sdk.Store.Mirroring.Sync.{AgreesAt}

-- The version that a write sends, and the remote version that its row has until the write is
-- confirmed.
abbrev next_version : Option Row → ℤ
next_version none = pos 0
next_version (some r) = r.local_version +ℤ pos 1

abbrev known_version : Option Row → ℤ
known_version none = negsuc 0
known_version (some r) = r.remote_version

abbrev pending_row : RowKey → Bytes → Option Row → Row
pending_row k v o = record {
  at = k;
  value = v;
  local_version = next_version o;
  remote_version = known_version o;
  removed = false;
}

-- The row that `write` has made before it calls the server.
select_row-pending :
    (k : RowKey) (v : Bytes) (t t' : Table) (n : ℤ)
    → write_local k v t ≡ some (t', n)
    → (select_row k t' ≡ some (pending_row k v (select_row k t)))
      × (n ≡ next_version (select_row k t))
unfolding write_local
select_row-pending k v t t' n e = elim (Option-cases (select_row k t)) [
  | inl missing ↦ ground (
    arith,
    e,
    missing,
    eq_key_iff k k,
    select_row-append k
        (record {
          at = k;
          value = v;
          local_version = pos 0;
          remote_version = negsuc 0;
          removed = false;
        })
        t,
  )
  | inr (r, found) ↦ ground (
    arith,
    e,
    found,
    eq_key_iff k k,
    at-select_row k t r found,
    select_row-update_row k k (set_value v (r.local_version +ℤ pos 1)) t (λ r. refl),
  )
]

write_local_again :
    (k : RowKey) (v : Bytes) (t : Table) (r : Row)
    → select_row k t ≡ some r
    → r.value ≡ v
    → r.removed ≡ false
    → write_local k v t ≡ none
unfolding write_local
write_local_again k v t r found same live = ground (arith, found, same, live, eq_text_iff r.value v)

module _ (remote : VersionedStore) (laws : IsVersioned remote) where
  -- A failed write leaves the pending row.
  failed_write :
      (k : RowKey) (v : Bytes) (t : Table) (st : remote.State) (x : IoError)
      → (write remote k v t st).0 ≡ err x
      → select_row k (write remote k v t st).1 ≡ some (pending_row k v (select_row k t))
  unfolding write
  failed_write k v t st x failed = elim (Option-cases (write_local k v t)) [
    | inl same ↦ absurd (ground (arith, failed, same))
    | inr ((t', n), e) ↦ elim (Result-cases (remote.put (full_key k) v n st).0) [
      | inl (u, p) ↦ absurd (ground (arith, failed, e, p))
      | inr (y, p) ↦ ground (arith, e, p, select_row-pending k v t t' n e)
    ]
  ]

  -- Where table and server agreed and a write failed, the same write repeated reports success: it
  -- changes nothing and does not call the server, and the two do not agree on the key.
  pub write_retry :
      (k : RowKey) (v : Bytes) (t : Table) (st st' : remote.State) (x : IoError)
      → AgreesAt remote laws k t st
      → (write remote k v t st).0 ≡ err x
      → (write remote k v (write remote k v t st).1 st' ≡ (ok tt, (write remote k v t st).1, st'))
        × ¬ AgreesAt remote laws k (write remote k v t st).1 st'
  unfolding write
  write_retry k v t st st' x agree failed =
      let pending = failed_write k v t st x failed in
      (
        ground (
          arith,
          write_local_again k v (write remote k v t st).1 (pending_row k v (select_row k t)) pending
              refl refl,
        ),
        λ later. elim (Option-cases (select_row k t)) [
          | inl missing ↦ ground (arith, pending, missing, later)
          | inr (r, found) ↦ ground (arith, pending, found, later, agree, suc_ne r.local_version)
        ],
      )

  -- Where table and server agreed on an existing key and a write failed before it reached the server,
  -- no later write of another value to that key succeeds: it sends a version that the server refuses.
  pub write_after_failure :
      (k : RowKey) (v w : Bytes) (t : Table) (st st' : remote.State) (x : IoError) (r : Row)
      → select_row k t ≡ some r
      → AgreesAt remote laws k t st
      → (write remote k v t st).0 ≡ err x
      → laws.view st' (full_key k) ≡ laws.view st (full_key k)
      → v ≢ w
      → (write remote k w (write remote k v t st).1 st').0 ≢ ok tt
  unfolding write write_local
  write_after_failure k v w t st st' x r found agree failed same differs done =
      let t' = (write remote k v t st).1 in
      let version = r.local_version +ℤ pos 1 +ℤ pos 1 in
      let pending : select_row k t' ≡ some (pending_row k v (some r)) =
        failed_write k v t st x failed ∙ ap (λ o. some (pending_row k v o)) found in
      elim (Result-cases (remote.put (full_key k) w version st').0) [
        | inr (y, p) ↦ ground (arith, done, pending, differs, eq_text_iff v w, p)
        | inl (u, p) ↦ ground (
          arith,
          (laws.put_ok (full_key k) w version st' p).0,
          same,
          found,
          agree,
          suc_ne (r.local_version +ℤ pos 1),
        )
      ]
