-- ===== src/Store/Locking/Exclusion.antt =====
-- At most one process has access to the store behind the locks of
-- `libs/sdk-core/src/ldk/store/locking_store.rs` and `time_lock.rs`.
mod Invariant
mod Opening
mod Updates
mod Steps
use breez_sdk.Prelude.{
  ℕ, ◌≡◌, ◌≢◌, inl, inr, true, false, Option, some, Text, Result, ok, err, arith, Bool-cases, sym,
  ◌∙◌,
}
use breez_sdk.Store.Versioned.{Error, conflict, VersionedStore, IsVersioned}
use breez_sdk.Store.TimeLock.{Json, is_locked}
use breez_sdk.Store.TimeLock.Encoding.{IsJson}
use breez_sdk.Store.Locking.{VersionedTimeLock, ensure_locked, guarded}
use breez_sdk.Store.Locking.System.{System, Reach, IsInitial}
use breez_sdk.Store.Locking.Exclusion.Invariant.{Inv}
use breez_sdk.Store.Locking.Exclusion.Steps.{Reach-Inv, IsInitial-Inv}

module _ (store : VersionedStore) (laws : IsVersioned store) (json : Json) (is_json : IsJson json)
    (ids : ℕ → Text) (inj : (c e : ℕ) → ids c ≡ ids e → c ≡ e) where
  one_holder :
      (s : System store) (c e : ℕ) (a b : VersionedTimeLock)
      → Inv store laws json ids s
      → c ≢ e
      → s.client c ≡ some a
      → s.client e ≡ some b
      → is_locked a.tl (s.clock c) ≡ true
      → is_locked b.tl (s.clock e) ≡ false
  one_holder s c e a b h ne at_c at_e held = elim (Bool-cases (is_locked b.tl (s.clock e))) [
    | inr free ↦ free
    | inl both ↦
        absurd
          (ne (inj c e (sym ((h.fits c a at_c).held held).0 ∙ ((h.fits e b at_e).held both).0)))
  ]

  -- Processes with distinct ids share one server, which nobody had locked at first, and their clocks
  -- stay within twice the leeway of one another. After any sequence of opening, locking, unlocking,
  -- crashing, passing time and other use of the server, with writes whose confirmation may be lost:
  -- while one process passes the check in front of its calls, every call of any other process that
  -- has opened the store returns a conflict and leaves the server as it was.
  pub exclusive_access :
      (s t : System store) (c e : ℕ) (a b : VersionedTimeLock)
      → IsInitial store laws json ids s
      → Reach store laws json ids s t
      → c ≢ e
      → t.client c ≡ some a
      → t.client e ≡ some b
      → ensure_locked store (t.clock c) a ≡ ok tt
      → {A : Type 0} (call : store.State → Result Error A × store.State)
      → guarded store (t.clock e) b call t.remote ≡ (err conflict, t.remote)
  unfolding ensure_locked guarded
  exclusive_access s t c e a b initial reach ne at_c at_e passed call =
      let inv : Inv store laws json ids t =
        Reach-Inv store laws json is_json ids inj
          (IsInitial-Inv store laws json is_json ids inj s initial) reach in
      elim (Bool-cases (is_locked a.tl (t.clock c))) [
        | inr free ↦ absurd (ground (arith, passed, free))
        | inl held ↦ ground (arith, one_holder t c e a b inv ne at_c at_e held)
      ]
