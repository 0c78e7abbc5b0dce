-- ===== src/Store/Vss/Kept.antt =====
-- What a `VssStore` reads after it has written (`libs/sdk-core/src/ldk/store/vss_store.rs`).
use breez_sdk.Prelude.{
  false, ◌≡◌, refl, sym, ap, ◌∙◌, ℕ, true, Option, none, some, Text, Bytes, Result, ok, err, arith,
  inl, inr, Bool-cases, Option-cases, Result-cases, eq_text, eq_text_iff, eq_text_refl, true,
  if◌then◌else◌,
}
use breez_sdk.Prelude.Int.{ℤ, pos, ◌+ℤ◌, eq_ℤ, eq_ℤ_iff}
use breez_sdk.Store.Versioned.{Versioned, Accepts}
use breez_sdk.Store.Vss.{
  VssError, no_such_key, conflict_error, other_error, KeyValue, VssClient, Sealing, opened, vss_get,
  vss_put, construct_storable, deconstruct_storable, converted,
}

-- What the server documents: a read returns the current object and changes nothing; a write that names a
-- version from 0 on, and succeeds, has found that version, if there was an object, and has advanced it by one.
pub record IsVss (client : VssClient) : Type 1 where
  pub view : client.State → Text → Option (Bytes × ℤ)
  pub get_found :
      (k : Text) (st : client.State) (kv : KeyValue)
      → (client.get_object k st).0 ≡ ok (some kv)
      → view st k ≡ some (kv.value, kv.version)
  pub get_missing :
      (k : Text) (st : client.State) → (client.get_object k st).0 ≡ ok none → view st k ≡ none
  pub get_no_such_key :
      (k : Text) (st : client.State)
      → (client.get_object k st).0 ≡ err no_such_key
      → view st k ≡ none
  pub put_ok :
      (k : Text) (b : Bytes) (n : ℕ) (st : client.State)
      → (client.put_object (record { key = k; version = pos n; value = b }) st).0 ≡ ok tt
      → Accepts (pos n) (view st k)
        × ((j : Text)
            → view (client.put_object (record { key = k; version = pos n; value = b }) st).1 j
              ≡ (if eq_text k j then some (b, pos n +ℤ pos 1) else view st j))

-- What is sealed can be opened with the same key, and keys can be read back.
pub record IsSealing (sealing : Sealing) : Type 0 where
  pub deobfuscate-obfuscate : (k : Text) → sealing.deobfuscate (sealing.obfuscate k) ≡ some k
  pub deconstruct-build :
      (b : Bytes) (v : ℤ) (k : Text) → sealing.deconstruct (sealing.build b v k) k ≡ some (b, v)

module _ (client : VssClient) (server : IsVss client) (sealing : Sealing)
    (seals : IsSealing sealing) where
  -- An object of the server, opened.
  unfoldable opened_object : Text → Option (Bytes × ℤ) → Option Versioned
  opened_object k none = none
  opened_object k (some (bytes, version)) = elim (sealing.deconstruct bytes k) [
    | none ↦ none
    | some (value, stored) ↦ some (value, version)
  ]

  unfoldable pub vss_view : client.State → Text → Option Versioned
  unfolding opened_object
  vss_view st k = opened_object (sealing.obfuscate k) (server.view st (sealing.obfuscate k))

  obfuscate-eq_text :
      (k j : Text) → eq_text (sealing.obfuscate k) (sealing.obfuscate j) ≡ eq_text k j
  obfuscate-eq_text k j =
      let back : eq_text (sealing.obfuscate k) (sealing.obfuscate j) ≡ true → some k ≡ some j =
        λ same.
          sym (seals.deobfuscate-obfuscate k)
          ∙ (ap sealing.deobfuscate
                ((eq_text_iff (sealing.obfuscate k) (sealing.obfuscate j)).0 same)
              ∙ seals.deobfuscate-obfuscate j) in
      elim (Bool-cases (eq_text k j)) [
        | inl same ↦
            (eq_text_iff (sealing.obfuscate k) (sealing.obfuscate j)).1
              (ap sealing.obfuscate ((eq_text_iff k j).0 same))
            ∙ sym same
        | inr other ↦ elim (Bool-cases (eq_text (sealing.obfuscate k) (sealing.obfuscate j))) [
          | inr differ ↦ differ ∙ sym other
          | inl equal ↦ absurd (ground (arith, back equal, other, eq_text_iff k j))
        ]
      ]

  opened-object :
      (k : Text) (kv : KeyValue) (r : Option Versioned)
      → opened sealing k kv ≡ ok r
      → opened_object k (some (kv.value, kv.version)) ≡ r
  unfolding opened opened_object deconstruct_storable
  opened-object k kv r h = elim (Option-cases (sealing.deconstruct kv.value k)) [
    | inl fails ↦ absurd (ground (arith, h, fails))
    | inr ((value, stored), opens) ↦ ground (arith, h, opens)
  ]

  -- A read that succeeds returns what the server holds.
  pub vss_get-view :
      (k : Text) (st : client.State) (r : Option Versioned)
      → (vss_get client sealing k st).0 ≡ ok r
      → vss_view st k ≡ r
  unfolding vss_get vss_view
  vss_get-view k st r h = elim (Result-cases (client.get_object (sealing.obfuscate k) st).0) [
    | inl (none, gone) ↦
        rw (server.get_missing (sealing.obfuscate k) st gone) (ground (arith, h, gone))
    | inl (some kv, found) ↦
        rw (server.get_found (sealing.obfuscate k) st kv found)
          (opened-object (sealing.obfuscate k) kv r (ground (arith, h, found)))
    | inr (no_such_key, gone) ↦
        rw (server.get_no_such_key (sealing.obfuscate k) st gone) (ground (arith, h, gone))
    | inr (conflict_error, fails) ↦ absurd (ground (arith, h, fails))
    | inr (other_error, fails) ↦ absurd (ground (arith, h, fails))
  ]

  opened_object-Accepts :
      (k : Text) (o : Option (Bytes × ℤ)) (v : ℤ) → Accepts v o → Accepts v (opened_object k o)
  unfolding opened_object
  opened_object-Accepts k none v h = tt
  opened_object-Accepts k (some (bytes, version)) v h =
      elim (Option-cases (sealing.deconstruct bytes k)) [
        | inl fails ↦ rw (fails, Accepts, opened_object) tt
        | inr ((value, stored), opens) ↦ rw (opens, Accepts, opened_object) h
      ]

  -- What a write leaves of the objects, opened.
  written :
      (k j : Text) (b : Bytes) (n : ℕ) (st : client.State)
      → opened_object (sealing.obfuscate j) (
          if eq_text (sealing.obfuscate k) (sealing.obfuscate j)
          then some (construct_storable sealing (sealing.obfuscate k) b (pos n), pos n +ℤ pos 1)
          else server.view st (sealing.obfuscate j))
        ≡ (if eq_text k j then some (b, pos n +ℤ pos 1) else vss_view st j)
  unfolding opened_object construct_storable vss_view
  written k j b n st = elim (Bool-cases (eq_text k j)) [
    | inr other ↦ rw (obfuscate-eq_text k j ∙ other, other) refl
    | inl same ↦
        let opens : sealing.deconstruct (sealing.build b (pos n +ℤ pos 1) (sealing.obfuscate k))
              (sealing.obfuscate j)
            ≡ some (b, pos n +ℤ pos 1) =
          ap
            (λ (i : Text).
              sealing.deconstruct (sealing.build b (pos n +ℤ pos 1) (sealing.obfuscate k))
                (sealing.obfuscate i))
            (sym ((eq_text_iff k j).0 same))
          ∙ seals.deconstruct-build b (pos n +ℤ pos 1) (sealing.obfuscate k) in
        rw (obfuscate-eq_text k j ∙ same, same, opens) refl
  ]

  converted-ok : (r : Result VssError (Unit {0})) → converted client sealing r ≡ ok tt → r ≡ ok tt
  converted-ok (ok a) h = refl
  converted-ok (err e) h = absurd (ground (arith, h))

  -- What a write at a version from 0 on that succeeds leaves of the objects, opened.
  vss_put-view :
      (k j : Text) (b : Bytes) (n : ℕ) (st : client.State)
      → (vss_put client sealing k b (pos n) st).0 ≡ ok tt
      → Accepts (pos n) (vss_view st k)
        × (vss_view (vss_put client sealing k b (pos n) st).1 j
            ≡ (if eq_text k j then some (b, pos n +ℤ pos 1) else vss_view st j))
  unfolding vss_put vss_view construct_storable
  vss_put-view k j b n st h =
      let sealed = construct_storable sealing (sealing.obfuscate k) b (pos n) in
      let (accepted, after) = server.put_ok (sealing.obfuscate k) sealed n st (
        converted-ok
          (client.put_object (record { key = sealing.obfuscate k; version = pos n; value = sealed })
            st).0
          h) in
      (
        opened_object-Accepts (sealing.obfuscate k) (server.view st (sealing.obfuscate k)) (pos n)
            accepted,
        ap (opened_object (sealing.obfuscate j)) (after (sealing.obfuscate j)) ∙ written k j b n st,
      )

  -- The object that the server holds after such a write.
  vss_put-object :
      (k : Text) (b : Bytes) (n : ℕ) (st : client.State)
      → (vss_put client sealing k b (pos n) st).0 ≡ ok tt
      → server.view (vss_put client sealing k b (pos n) st).1 (sealing.obfuscate k)
        ≡ some (construct_storable sealing (sealing.obfuscate k) b (pos n), pos n +ℤ pos 1)
  unfolding vss_put
  vss_put-object k b n st h =
      let sealed = construct_storable sealing (sealing.obfuscate k) b (pos n) in
      let (accepted, after) = server.put_ok (sealing.obfuscate k) sealed n st (
        converted-ok
          (client.put_object (record { key = sealing.obfuscate k; version = pos n; value = sealed })
            st).0
          h) in
      after (sealing.obfuscate k) ∙ rw (eq_text_refl (sealing.obfuscate k)) refl

  opened-built :
      (k : Text) (b : Bytes) (n : ℕ) (kv : KeyValue)
      → ◌≡◌ {A = Option (Bytes × ℤ)}
          (some (kv.value, kv.version))
          (some (construct_storable sealing (sealing.obfuscate k) b (pos n), pos n +ℤ pos 1))
      → opened sealing (sealing.obfuscate k) kv ≡ ok (some (b, pos n +ℤ pos 1))
  unfolding opened deconstruct_storable construct_storable
  opened-built k b n kv same =
      let value_is : kv.value ≡ sealing.build b (pos n +ℤ pos 1) (sealing.obfuscate k) =
        ground (arith, same) in
      let version_is : kv.version ≡ pos n +ℤ pos 1 = ground (arith, same) in
      let opens : sealing.deconstruct kv.value (sealing.obfuscate k) ≡ some (b, pos n +ℤ pos 1) =
        ap (λ v. sealing.deconstruct v (sealing.obfuscate k)) value_is
        ∙ seals.deconstruct-build b (pos n +ℤ pos 1) (sealing.obfuscate k) in
      let equal : eq_ℤ (pos n +ℤ pos 1) kv.version ≡ true =
        (eq_ℤ_iff (pos n +ℤ pos 1) kv.version).1 (sym version_is) in
      ground (arith, opens, equal, version_is)

  -- After a write at a version from 0 on that succeeds, the version was the one that was held, if any; and
  -- a read of the key that the server answers succeeds and returns the value with the next version.
  pub vss_get-vss_put :
      (k : Text) (b : Bytes) (n : ℕ) (st : client.State) (answer : Option KeyValue)
      → (vss_put client sealing k b (pos n) st).0 ≡ ok tt
      → (client.get_object (sealing.obfuscate k) (vss_put client sealing k b (pos n) st).1).0
        ≡ ok answer
      → Accepts (pos n) (vss_view st k)
        × ((vss_get client sealing k (vss_put client sealing k b (pos n) st).1).0
            ≡ ok (some (b, pos n +ℤ pos 1)))
  unfolding vss_get
  vss_get-vss_put k b n st answer h answers =
      let st1 = (vss_put client sealing k b (pos n) st).1 in
      let held = vss_put-object k b n st h in
      (
        (vss_put-view k k b n st h).0,
        elim (Option-cases answer) [
          | inl empty ↦
              let gone = server.get_missing (sealing.obfuscate k) st1 (answers ∙ ap ok empty) in
              absurd (ground (arith, sym gone ∙ held))
          | inr (kv, found) ↦
              let at : (client.get_object (sealing.obfuscate k) st1).0 ≡ ok (some kv) =
                answers ∙ ap ok found in
              rw (at, vss_get)
                (opened-built k b n kv
                  (sym (server.get_found (sealing.obfuscate k) st1 kv at) ∙ held))
        ],
      )

  -- After such a write, a read of another key that succeeds returns what was held of it.
  pub vss_get-others :
      (k j : Text) (b : Bytes) (n : ℕ) (st : client.State) (r : Option Versioned)
      → (vss_put client sealing k b (pos n) st).0 ≡ ok tt
      → eq_text k j ≡ false
      → (vss_get client sealing j (vss_put client sealing k b (pos n) st).1).0 ≡ ok r
      → r ≡ vss_view st j
  vss_get-others k j b n st r h other got =
      sym (vss_get-view j (vss_put client sealing k b (pos n) st).1 r got)
      ∙ ((vss_put-view k j b n st h).1 ∙ rw other refl)

  -- A value and version that a read returns were sealed together, under the obfuscated key: an object whose
  -- version the server has changed is refused.
  pub vss_get-sealed :
      (k : Text) (st : client.State) (b : Bytes) (v : ℤ)
      → (vss_get client sealing k st).0 ≡ ok (some (b, v))
      → (bytes : Bytes) × ((server.view st (sealing.obfuscate k) ≡ some (bytes, v))
          × (sealing.deconstruct bytes (sealing.obfuscate k) ≡ some (b, v)))
  unfolding vss_get opened deconstruct_storable
  vss_get-sealed k st b v h = elim (Result-cases (client.get_object (sealing.obfuscate k) st).0) [
    | inr (no_such_key, gone) ↦ absurd (ground (arith, h, gone))
    | inr (conflict_error, fails) ↦ absurd (ground (arith, h, fails))
    | inr (other_error, fails) ↦ absurd (ground (arith, h, fails))
    | inl (none, gone) ↦ absurd (ground (arith, h, gone))
    | inl (some kv, found) ↦
        elim (Option-cases (sealing.deconstruct kv.value (sealing.obfuscate k))) [
          | inl fails ↦ absurd (ground (arith, h, found, fails))
          | inr ((value, stored), opens) ↦
              let same : stored ≡ kv.version =
                (eq_ℤ_iff stored kv.version).0 (ground (arith, h, found, opens)) in
              let value_is : value ≡ b = ground (arith, h, found, opens, same) in
              let version_is : kv.version ≡ v = ground (arith, h, found, opens, same) in
              (
                kv.value,
                (
                  server.get_found (sealing.obfuscate k) st kv found
                      ∙ ap (λ (x : ℤ). some (kv.value, x)) version_is,
                  opens ∙ ground (arith, value_is, same ∙ version_is),
                ),
              )
        ]
  ]
