-- ===== src/Store/Mirroring/Sync.antt =====
-- The server follows the table (`libs/sdk-core/src/ldk/store/mirroring_store.rs`).
use breez_sdk.Prelude.{
  ◌≡◌, refl, inl, inr, true, false, none, some, arith, Bytes, ok, if◌then◌else◌, eq_text_iff,
  Option-cases, Result-cases, Bool-cases,
}
use breez_sdk.Prelude.Int.{ℤ, pos, ◌+ℤ◌, eq_ℤ_iff}
use breez_sdk.Store.Versioned.{VersionedStore, IsVersioned}
use breez_sdk.Store.Mock.{mock, MockStore, mock_put}
use breez_sdk.Prelude.TextMap.{lookup}
use breez_sdk.Store.Keys.{RowKey, eq_key, eq_key_iff, full_key, IsPlain}
use breez_sdk.Store.Table.{
  Table, select_row, update_row, set_removed, select_row-update_row, select_row-delete_row,
}
use breez_sdk.Store.Mirroring.{write_local, write, remove}
use breez_sdk.Store.Mirroring.Agreement.{Agree, full_key_injective, select_row-write_local}

module _ (remote : VersionedStore) (laws : IsVersioned remote) where
  abbrev pub AgreesAt : RowKey → Table → remote.State → Type 0
  AgreesAt k t st = Agree (select_row k t) (laws.view st (full_key k))

  module _ (k j : RowKey) (pk : IsPlain k) (pj : IsPlain j) (t : Table) (st : remote.State) where
    -- The server's entry of `j` after a confirmed write of `k`.
    view-put :
        (v : Bytes) (n : ℤ)
        → (remote.put (full_key k) v n st).0 ≡ ok tt
        → laws.view (remote.put (full_key k) v n st).1 (full_key j)
          ≡ (if eq_key k j then some (v, n +ℤ pos 1) else laws.view st (full_key j))
    view-put v n p = ground (
      arith,
      (laws.put_ok (full_key k) v n st p).1 (full_key j),
      eq_text_iff (full_key k) (full_key j),
      eq_key_iff k j,
      full_key_injective k j pk pj,
    )

    view-delete :
        (remote.delete (full_key k) st).0 ≡ ok tt
        → laws.view (remote.delete (full_key k) st).1 (full_key j)
          ≡ (if eq_key k j then none else laws.view st (full_key j))
    view-delete p = ground (
      arith,
      laws.delete_ok (full_key k) st p (full_key j),
      eq_text_iff (full_key k) (full_key j),
      eq_key_iff k j,
      full_key_injective k j pk pj,
    )

    -- A write that returned `ok` keeps the table and the server in agreement on every key on which
    -- they agreed, the written one included.
    pub write-AgreesAt :
        (v : Bytes)
        → (write remote k v t st).0 ≡ ok tt
        → AgreesAt j t st
        → AgreesAt j (write remote k v t st).1 (write remote k v t st).2
    unfolding write
    write-AgreesAt v done agree = elim (Option-cases (write_local k v t)) [
      | inl same ↦ ground (arith, same, agree)
      | inr ((t', n), e) ↦ elim (Result-cases (remote.put (full_key k) v n st).0) [
        | inr (x, p) ↦ absurd (ground (arith, done, e, p))
        | inl (u, p) ↦ elim (Bool-cases (eq_key k j)) [
          | inl same ↦
              ground (arith, e, p, same, select_row-write_local k j v t t' n e, view-put v n p)
          | inr ne ↦
              ground (arith, e, p, ne, agree, select_row-write_local k j v t t' n e, view-put v n p)
        ]
      ]
    ]

    -- A removal that returned `ok` has taken the key off the table and off the server, and keeps every
    -- other key on which the two agreed in agreement.
    pub remove-AgreesAt :
        (remove remote k t st).0 ≡ ok tt
        → (eq_key k j ≡ false → AgreesAt j t st)
        → AgreesAt j (remove remote k t st).1 (remove remote k t st).2
          × (eq_key k j ≡ true → select_row j (remove remote k t st).1 ≡ none)
    unfolding remove
    remove-AgreesAt done agree = elim (Result-cases (remote.delete (full_key k) st).0) [
      | inr (x, p) ↦ absurd (ground (arith, done, p))
      | inl (u, p) ↦ elim (Bool-cases (eq_key k j)) [
        | inl same ↦
            ground (
              arith,
              p,
              same,
              select_row-delete_row k j (update_row k set_removed t),
              view-delete p,
            )
        | inr ne ↦ ground (
          arith,
          p,
          ne,
          agree ne,
          select_row-delete_row k j (update_row k set_removed t),
          select_row-update_row k j set_removed t (λ r. refl),
          view-delete p,
        )
      ]
    ]

-- The version that a write sends is the one that the server expects: against a server that is
-- reachable, a write of a key on which table and server agree succeeds.
pub write_succeeds :
    (k : RowKey) (v : Bytes) (t : Table) (s : MockStore)
    → s.should_fail_put ≡ false
    → s.conflict_on_put ≡ false
    → Agree (select_row k t) (lookup (full_key k) s.entries)
    → (write mock k v t s).0 ≡ ok tt
unfolding write write_local mock_put
write_succeeds k v t s up free agree = elim (Option-cases (select_row k t)) [
  | inl missing ↦ ground (arith, up, free, missing, agree)
  | inr (r, found) ↦ ground (
    arith,
    up,
    free,
    found,
    agree,
    eq_ℤ_iff (r.local_version +ℤ pos 1) (r.local_version +ℤ pos 1),
  )
]
