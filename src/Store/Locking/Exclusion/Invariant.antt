-- ===== src/Store/Locking/Exclusion/Invariant.antt =====
-- What holds of every process and of the stored lock between two steps.
use mathlib.Core.Path.{subst}
use breez_sdk.Prelude.{
  ℕ, ◌+◌, ◌≤◌, ◌≡◌, ◌≢◌, ◌⊎◌, inl, inr, true, Option, none, some, Text, ok, arith, sym, ◌∙◌,
}
use breez_sdk.Prelude.Int.{ℤ, pos, ◌+ℤ◌, ◌≤ℤ◌, int_laws, ≤ℤ_antisym, ne_suc_of_le}
use breez_sdk.Store.Versioned.{Versioned, VersionedStore, IsVersioned, Accepts}
use breez_sdk.Store.TimeLock.{LockData, Json, decode, is_locked, clock_skew_leeway}
use breez_sdk.Store.Locking.{VersionedTimeLock, lock_key, lock_duration, stored_or_default}
use breez_sdk.Store.Locking.System.{System, IsSkewed}

-- The entry decodes to `d` and has version `v`; a missing entry counts as an expired lock.
abbrev pub Holds : Json → Option Versioned → LockData → ℤ → Type 0
Holds json o d v = (decode json (stored_or_default o).0 ≡ ok d) × ((stored_or_default o).1 ≡ v)

-- One process, beside the stored lock `d` at version `v`.
pub record Fits (clock : ℕ → ℕ) (d : LockData) (v : ℤ) (id : Text) (now : ℕ)
    (vtl : VersionedTimeLock) : Type 0 where
  pub own_id : vtl.tl.instance_id ≡ id
  pub duration : vtl.tl.lock_duration ≡ lock_duration
  pub nonneg : pos 0 ≤ℤ vtl.version
  pub behind : vtl.version ≤ℤ v
  pub held :
      is_locked vtl.tl now ≡ true → (d.instance_id ≡ id) × (vtl.tl.locked_until ≤ d.locked_until)
  pub fresh :
      vtl.version ≡ v
      → (d.instance_id ≡ id) ⊎ ((e : ℕ) → d.locked_until ≤ clock e + clock_skew_leeway)

module _ (store : VersionedStore) (laws : IsVersioned store) (json : Json) (ids : ℕ → Text) where
  pub record Inv (s : System store) : Type 0 where
    pub lock_data : LockData
    pub version : ℤ
    pub nonneg : pos 0 ≤ℤ version
    pub stored : Holds json (laws.view s.remote lock_key) lock_data version
    pub skewed : IsSkewed s.clock
    pub bound :
        (c : ℕ) → lock_data.instance_id ≡ ids c → lock_data.locked_until ≤ s.clock c + lock_duration
    pub fits :
        (c : ℕ) (vtl : VersionedTimeLock)
        → s.client c ≡ some vtl
        → Fits s.clock lock_data version (ids c) (s.clock c) vtl

-- An accepted write was made at the stored version.
pub accepted_version :
    (json : Json) (o : Option Versioned) (d : LockData) (v w : ℤ)
    → Holds json o d v
    → Accepts w o
    → pos 0 ≤ℤ w
    → w ≤ℤ v
    → w ≡ v
accepted_version json none d v w h a p q = ≤ℤ_antisym w v q (subst (λ z. z ≤ℤ w) h.1 p)
accepted_version json (some (b, c)) d v w h a p q = sym a ∙ h.1

-- Once `c` could write, nobody else holds the lock, whatever was written.
pub overtaken :
    (clock : ℕ → ℕ) (ids : ℕ → Text) (d d' : LockData) (v : ℤ) (c e : ℕ)
    (vtl wtl : VersionedTimeLock)
    → (ids c ≡ ids e → c ≡ e)
    → c ≢ e
    → Fits clock d v (ids c) (clock c) vtl
    → vtl.version ≡ v
    → Fits clock d v (ids e) (clock e) wtl
    → Fits clock d' (v +ℤ pos 1) (ids e) (clock e) wtl
unfolding is_locked
overtaken clock ids d d' v c e vtl wtl inj ne fc now fe = record {
  own_id = fe.own_id;
  duration = fe.duration;
  nonneg = fe.nonneg;
  behind = omega (int_laws, fe.behind);
  held = λ locked. elim (fc.fresh now) [
    | inl mine ↦ absurd (ne (inj (cc (mine, (fe.held locked).0))))
    | inr expired ↦ ground (arith, expired e, (fe.held locked).1, locked)
  ];
  fresh = λ same. absurd (ne_suc_of_le wtl.version v fe.behind same);
}
