-- ===== src/Store/Locking/Exclusion/Updates.antt =====
-- How the invariant survives a change of one process and of the stored lock.
use mathlib.Core.Path.{subst}
use breez_sdk.Prelude.{
  ℕ, ◌+◌, ◌≤◌, ◌≡◌, refl, ◌≢◌, ◌⊎◌, inl, inr, Option, some, Text, Bytes, arith, sym, ◌∙◌, ◌==◌,
  if◌then◌else◌, Bool-cases, eq_text, eq_text_refl,
}
use breez_sdk.Prelude.Int.{ℤ, pos, ◌+ℤ◌, suc_ne, int_laws}
use breez_sdk.Store.Versioned.{VersionedStore, IsVersioned, Accepts}
use breez_sdk.Store.TimeLock.{LockData, Json, encode, is_locked, next_lock}
use breez_sdk.Store.TimeLock.Encoding.{IsJson, decode-encode}
use breez_sdk.Store.Locking.{VersionedTimeLock, lock_key, lock_duration}
use breez_sdk.Store.Locking.Outcomes.{taken, dropped, no_lock}
use breez_sdk.Store.Locking.System.{System, set_client}
use breez_sdk.Store.Locking.Exclusion.Invariant.{Holds, Fits, Inv, accepted_version, overtaken}

client_cases :
    (c e : ℕ) (o : Option VersionedTimeLock) (f : ℕ → Option VersionedTimeLock)
    (vtl : VersionedTimeLock)
    → set_client c o f e ≡ some vtl
    → (c ≡ e) × (o ≡ some vtl) ⊎ (c ≢ e) × (f e ≡ some vtl)
client_cases c e o f vtl p = elim (Bool-cases (e == c)) [
  | inl same ↦ inl (ground arith, ground arith)
  | inr other ↦ inr (ground arith, ground arith)
]

module _ (store : VersionedStore) (laws : IsVersioned store) (json : Json) (ids : ℕ → Text)
    (inj : (c e : ℕ) → ids c ≡ ids e → c ≡ e) where
  -- The stored lock stays as it is, and process `c` changes.
  pub keep :
      (s : System store) (h : Inv store laws json ids s) (remote' : store.State)
      → laws.view remote' lock_key ≡ laws.view s.remote lock_key
      → (c : ℕ) (o : Option VersionedTimeLock)
      → ((vtl : VersionedTimeLock)
          → o ≡ some vtl
          → Fits s.clock h.lock_data h.version (ids c) (s.clock c) vtl)
      → Inv store laws json ids (record s { remote = remote'; client = set_client c o s.client })
  keep s h remote' same c o fit = record {
    lock_data = h.lock_data;
    version = h.version;
    nonneg = h.nonneg;
    stored = subst (λ r. Holds json r h.lock_data h.version) (sym same) h.stored;
    skewed = h.skewed;
    bound = h.bound;
    fits = λ e vtl p. elim (client_cases c e o s.client vtl p) [
      | inl (at_c, q) ↦
          subst (λ z. Fits s.clock h.lock_data h.version (ids z) (s.clock z) vtl) at_c (fit vtl q)
      | inr (ne, q) ↦ h.fits e vtl q
    ];
  }

  -- Process `c` has written the lock `d'`.
  pub written :
      (s : System store) (h : Inv store laws json ids s) (remote' : store.State) (c : ℕ)
      (vtl vtl' : VersionedTimeLock) (d' : LockData)
      → s.client c ≡ some vtl
      → Accepts vtl.version (laws.view s.remote lock_key)
      → Holds json (laws.view remote' lock_key) d' (vtl.version +ℤ pos 1)
      → d'.instance_id ≡ ids c
      → d'.locked_until ≤ s.clock c + lock_duration
      → Fits s.clock d' (vtl.version +ℤ pos 1) (ids c) (s.clock c) vtl'
      → Inv store laws json ids
          (record s { remote = remote'; client = set_client c (some vtl') s.client })
  written s h remote' c vtl vtl' d' at_c acc holds own bounded fit =
      let fc : Fits s.clock h.lock_data h.version (ids c) (s.clock c) vtl = h.fits c vtl at_c in
      let now : vtl.version ≡ h.version =
        accepted_version json (laws.view s.remote lock_key) h.lock_data h.version vtl.version
          h.stored acc fc.nonneg fc.behind in
      record {
        lock_data = d';
        version = vtl.version +ℤ pos 1;
        nonneg = omega (int_laws, fc.nonneg);
        stored = holds;
        skewed = h.skewed;
        bound = λ e q.
            subst (λ z. d'.locked_until ≤ s.clock z + lock_duration) (inj c e (sym own ∙ q))
              bounded;
        fits = λ e wtl p. elim (client_cases c e (some vtl') s.client wtl p) [
          | inl (same, q) ↦
              subst (λ z. Fits s.clock d' (vtl.version +ℤ pos 1) (ids z) (s.clock z) wtl) same
                (subst (λ w. Fits s.clock d' (vtl.version +ℤ pos 1) (ids c) (s.clock c) w)
                  (ground (arith, q)) fit)
          | inr (ne, q) ↦
              subst (λ w. Fits s.clock d' (w +ℤ pos 1) (ids e) (s.clock e) wtl) (sym now)
                (overtaken s.clock ids h.lock_data d' h.version c e vtl wtl (inj c e) ne fc now
                  (h.fits e wtl q))
        ];
      }

module _ (store : VersionedStore) (laws : IsVersioned store) (json : Json)
    (is_json : IsJson json) where
  -- What an accepted write of an encoded lock leaves behind.
  pub written-Holds :
      (st st' : store.State) (d : LockData) (value : Bytes) (v : ℤ)
      → encode json d ≡ some value
      → ((j : Text)
          → laws.view st' j
            ≡ (if eq_text lock_key j then some (value, v +ℤ pos 1) else laws.view st j))
      → Holds json (laws.view st' lock_key) d (v +ℤ pos 1)
  written-Holds st st' d value v e wrote =
      let at_key : laws.view st' lock_key ≡ some (value, v +ℤ pos 1) =
        ground (arith, wrote lock_key, eq_text_refl lock_key) in
      subst (λ r. Holds json r d (v +ℤ pos 1)) (sym at_key)
        (decode-encode json d value is_json e, refl)

-- The lock in memory after a call of its own process, beside the lock that is stored then.
module _ (clock : ℕ → ℕ) (d : LockData) (v : ℤ) (id : Text) (now : ℕ) (vtl : VersionedTimeLock)
    (f : Fits clock d v id now vtl) where
  -- The write was confirmed.
  pub taken-Fits : Fits clock (next_lock vtl.tl now) (vtl.version +ℤ pos 1) id now (taken now vtl)
  unfolding next_lock
  taken-Fits = record {
    own_id = f.own_id;
    duration = f.duration;
    nonneg = omega (int_laws, f.nonneg);
    behind = omega arith;
    held = λ locked. (f.own_id, omega arith);
    fresh = λ same. inl f.own_id;
  }

  -- The write was made, and its confirmation was lost.
  pub lost-Fits :
      (d.instance_id ≡ id → d.locked_until ≤ now + lock_duration)
      → Fits clock (next_lock vtl.tl now) (vtl.version +ℤ pos 1) id now vtl
  unfolding next_lock
  lost-Fits bound = record {
    own_id = f.own_id;
    duration = f.duration;
    nonneg = f.nonneg;
    behind = omega int_laws;
    held =
        λ locked. (f.own_id, omega (arith, (f.held locked).1, bound (f.held locked).0, f.duration));
    fresh = λ same. absurd (suc_ne vtl.version same);
  }

  -- The lock was dropped, and the release was written.
  pub released-Fits : Fits clock (no_lock vtl) (vtl.version +ℤ pos 1) id now (dropped vtl)
  unfolding is_locked
  released-Fits = record {
    own_id = f.own_id;
    duration = f.duration;
    nonneg = f.nonneg;
    behind = omega int_laws;
    held = λ locked. ground (arith, locked);
    fresh = λ same. absurd (suc_ne vtl.version same);
  }

  -- The lock was dropped, and nothing was written.
  pub dropped-Fits : Fits clock d v id now (dropped vtl)
  unfolding is_locked
  dropped-Fits = record {
    own_id = f.own_id;
    duration = f.duration;
    nonneg = f.nonneg;
    behind = f.behind;
    held = λ locked. ground (arith, locked);
    fresh = f.fresh;
  }
