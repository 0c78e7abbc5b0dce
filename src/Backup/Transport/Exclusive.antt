-- ===== src/Backup/Transport/Exclusive.antt =====
-- `LdkBackupTransport` of `libs/sdk-core/src/ldk/backup_transport.rs` over any store that keeps the
-- promises of the trait `VersionedStore`: a push replaces the generation that it is based on.
use mathlib.Core.Path.{subst}
use breez_sdk.Prelude.{
  ◌≡◌, ◌∙◌, sym, refl, ℕ, Option, some, arith, Bytes, ok, inl, inr, Result-cases, ◌≢◌, eq_text_refl,
}
use breez_sdk.Prelude.Int.{ℤ, pos, ◌+ℤ◌, suc_ne}
use breez_sdk.Prelude.Words.{as_u64}
use breez_sdk.Store.Versioned.{VersionedStore, Accepts, IsVersioned}
use breez_sdk.Backup.Transport.{
  BackupState, backup_key, as_i64, version_or_default, ldk_pull, ldk_push,
}

module _ (store : VersionedStore) (laws : IsVersioned store) where
  open store use {State, get, put}
  open laws use {view, get_ok, put_ok}

  -- The version that a push names to the store.
  abbrev base_version : Option ℕ → ℤ
  base_version version = as_i64 (version_or_default version)

  ldk_push-put :
      (version : Option ℕ) (hex : Bytes) (st : State) (n : ℕ)
      → (ldk_push store version hex st).0 ≡ ok n
      → ((put backup_key hex (base_version version) st).0 ≡ ok tt)
        × (n ≡ as_u64 (base_version version +ℤ pos 1))
  unfolding ldk_push
  ldk_push-put version hex st n h =
      elim (Result-cases (put backup_key hex (base_version version) st).0) [
        | inr (e, refused) ↦ absurd (ground (arith, h, refused))
        | inl (done, taken) ↦ (taken, ground (arith, h, taken))
      ]

  pub ldk_push-view :
      (version : Option ℕ) (hex : Bytes) (st : State) (n : ℕ)
      → (ldk_push store version hex st).0 ≡ ok n
      → Accepts (base_version version) (view st backup_key)
        × (view (ldk_push store version hex st).1 backup_key
            ≡ some (hex, base_version version +ℤ pos 1))
  unfolding ldk_push
  ldk_push-view version hex st n h =
      let put_done = ldk_push-put version hex st n h in
      let after = put_ok backup_key hex (base_version version) st put_done.0 in
      (after.0, after.1 backup_key ∙ rw (eq_text_refl backup_key) refl)

  pub ldk_pull-view :
      (st : State) (r : Option BackupState) (hex : Bytes) (v : ℤ)
      → view st backup_key ≡ some (hex, v)
      → (ldk_pull store st).0 ≡ ok r
      → r ≡ some (record { generation = as_u64 v; contents = hex })
  unfolding ldk_pull
  ldk_pull-view st r hex v stored h = elim (Result-cases (get backup_key st).0) [
    | inr (e, refused) ↦ absurd (ground (arith, h, refused))
    | inl (entry, answer) ↦
        let e : entry ≡ some (hex, v) = sym (get_ok backup_key st entry answer) ∙ stored in
        ground (arith, h, answer, e)
  ]

  -- After a push that succeeded, a pull that succeeds returns what was pushed, as the generation that
  -- the push returned.
  pub ldk_pull-ldk_push :
      (version : Option ℕ) (hex : Bytes) (st : State) (n : ℕ) (r : Option BackupState)
      → (ldk_push store version hex st).0 ≡ ok n
      → (ldk_pull store (ldk_push store version hex st).1).0 ≡ ok r
      → r ≡ some (record { generation = n; contents = hex })
  ldk_pull-ldk_push version hex st n r h pulled =
      let n_is = (ldk_push-put version hex st n h).1 in
      let after = (ldk_push-view version hex st n h).1 in
      rw n_is (
        ldk_pull-view (ldk_push store version hex st).1 r hex (base_version version +ℤ pos 1) after
          pulled)

  -- Two devices that have the same generation cannot both push: the second one has to merge first.
  pub ldk_push-once :
      (version : Option ℕ) (hex other_hex : Bytes) (st : State) (n m : ℕ)
      → (ldk_push store version hex st).0 ≡ ok n
      → (ldk_push store version other_hex (ldk_push store version hex st).1).0 ≢ ok m
  ldk_push-once version hex other_hex st n m h second =
      let after = (ldk_push-view version hex st n h).1 in
      let st' : State = (ldk_push store version hex st).1 in
      let accepted : Accepts (base_version version) (some (hex, base_version version +ℤ pos 1)) =
        subst (Accepts (base_version version)) after
          (ldk_push-view version other_hex st' m second).0 in
      suc_ne (base_version version) (sym accepted)
