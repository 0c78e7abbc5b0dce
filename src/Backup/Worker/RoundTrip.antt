-- ===== src/Backup/Worker/RoundTrip.antt =====
-- `push` and `pull` of `BackupWorker` in `libs/sdk-core/src/backup.rs`, over the transport of
-- `libs/sdk-core/src/ldk/backup_transport.rs` and any versioned store.
use mathlib.Core.Path.{subst}
use breez_sdk.Prelude.{
  ◌≡◌, ◌≢◌, ◌∙◌, sym, ap, refl, ℕ, suc, ◌≤◌, Option, none, some, arith, Bytes, ok, inl, inr,
  Option-cases, Result-cases, Bool-cases, length,
}
use breez_sdk.Prelude.Int.{pos}
use breez_sdk.Store.Versioned.{VersionedStore, IsVersioned, Accepts}
use breez_sdk.Backup.Transport.{
  as_i64, BackupState, ldk_backup_transport, backup_key, ldk_pull, ldk_push,
}
use breez_sdk.Backup.Transport.Exclusive.{ldk_pull-ldk_push, ldk_push-view}
use breez_sdk.Backup.Worker.{
  Platform, Device, making_file, push, pull, read_backup, sync_remote_and_push,
}

-- What the cipher and the compression promise.
pub record IsCodec (p : Platform) : Type 0 where
  pub decrypts :
      (key plain secret : Bytes)
      → p.sym_encrypt key plain ≡ some secret
      → p.sym_decrypt key secret ≡ some plain
  pub decompresses :
      (plain : Bytes) (limit : ℕ)
      → length plain ≤ limit
      → p.decompress_to_vec_with_limit (p.compress_to_vec plain) limit ≡ some plain

module _ (p0 : Platform) (encryption_key : Bytes) (store : VersionedStore)
    (laws : IsVersioned store) where
  abbrev pub over_store : Platform
  over_store = record p0 { transport = ldk_backup_transport store }

  push-sent :
      (version : Option ℕ) (hex secret : Bytes) (n : ℕ) (d : Device over_store encryption_key)
      → (push over_store encryption_key version hex d).0 ≡ ok (n, secret)
      → (p0.sym_encrypt encryption_key (p0.compress_to_vec hex) ≡ some secret)
        × (((ldk_push store version secret d.server).0 ≡ ok n)
            × ((push over_store encryption_key version hex d).1.server
                ≡ (ldk_push store version secret d.server).1))
  unfolding push
  push-sent version hex secret n d h =
      elim (Option-cases (p0.sym_encrypt encryption_key (p0.compress_to_vec hex))) [
        | inl fails ↦ absurd (ground (arith, h, fails))
        | inr (encrypted, done) ↦
            elim (Result-cases (ldk_push store version encrypted d.server).0) [
              | inr (e, refused) ↦ absurd (ground (arith, h, done, refused))
              | inl (m, taken) ↦
                  let same_hex : encrypted ≡ secret = ground (arith, h, done, taken) in
                  let same_version : m ≡ n = ground (arith, h, done, taken) in
                  (
                    done ∙ ap some same_hex,
                    (ground (arith, taken, same_hex, same_version), rw (done, push, same_hex) refl),
                  )
            ]
      ]

  -- Another device reads what this one has pushed, where it has the same key.
  pub pull-push :
      (codec : IsCodec p0) (version : Option ℕ) (hex secret : Bytes) (n : ℕ)
      (d other : Device over_store encryption_key) (r : Option BackupState)
      → (push over_store encryption_key version hex d).0 ≡ ok (n, secret)
      → other.server ≡ (push over_store encryption_key version hex d).1.server
      → length hex ≤ 4000000
      → (pull over_store encryption_key other).0 ≡ ok r
      → r ≡ some (record { generation = n; contents = hex })
  unfolding pull read_backup
  pull-push codec version hex secret n d other r pushed same_server short pulled =
      let (encrypted, (sent, after)) = push-sent version hex secret n d pushed in
      let same = same_server ∙ after in
      let decrypted = codec.decrypts encryption_key (p0.compress_to_vec hex) secret encrypted in
      let decompressed = codec.decompresses hex 4000000 short in
      elim (Result-cases (ldk_pull store other.server).0) [
        | inr (e, refused) ↦ absurd (ground (arith, pulled, refused))
        | inl (answer, got) ↦
            let e : answer ≡ some (record { generation = n; contents = secret }) =
              ldk_pull-ldk_push store laws version secret d.server n answer sent
                (ap (λ (st : store.State). (ldk_pull store st).0) (sym same) ∙ got) in
            ground (arith, pulled, got, e, decrypted, decompressed)
      ]

  -- A backup that does not decompress within the limit reads as none, and then a device that is behind
  -- cannot push: it names the version of an empty server.
  pub sync_remote_and_push-oversized :
      (hex stored plain : Bytes) (last v : ℕ) (pushed : ℕ × Bytes)
      (d : Device over_store encryption_key)
      → laws.view d.server backup_key ≡ some (stored, pos (suc v))
      → p0.sym_decrypt encryption_key stored ≡ some plain
      → p0.decompress_to_vec_with_limit plain 4000000 ≡ none
      → (sync_remote_and_push over_store encryption_key hex last d).0 ≢ ok pushed
  unfolding sync_remote_and_push pull read_backup ldk_pull as_i64
  sync_remote_and_push-oversized hex stored plain last v (n, sent) d at decrypted too_long h =
      let st1 : store.State = (store.get backup_key d.server).1 in
      let kept : laws.view st1 backup_key ≡ some (stored, pos (suc v)) =
        laws.get_keeps backup_key backup_key d.server ∙ at in
      elim (Result-cases (store.get backup_key d.server).0) [
        | inr (e, refused) ↦ absurd (ground (arith, h, refused))
        | inl (answer, got) ↦
            let e : answer ≡ some (stored, pos (suc v)) =
              sym (laws.get_ok backup_key d.server answer got) ∙ at in
            let d1 : Device over_store encryption_key = (pull over_store encryption_key d).1 in
            let taken : (push over_store encryption_key none hex d1).0 ≡ ok (n, sent) =
              elim (Bool-cases (p0.failing making_file)) [
                | inl stops ↦ absurd (ground (arith, h, got, e, decrypted, too_long, stops))
                | inr goes ↦ ground (arith, h, got, e, decrypted, too_long, goes)
              ] in
            let put_none = (push-sent none hex sent n d1 taken).1.0 in
            let accepted : Accepts (pos 0) (some (stored, pos (suc v))) =
              subst (Accepts (pos 0)) kept (ldk_push-view store laws none sent st1 n put_none).0 in
            absurd (ground (arith, accepted))
      ]
