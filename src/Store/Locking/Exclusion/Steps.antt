-- ===== src/Store/Locking/Exclusion/Steps.antt =====
-- Every step keeps the invariant.
use mathlib.Core.Path.{subst}
use mathlib.Core.Option.{some-injective}
use breez_sdk.Prelude.{
  ℕ, ◌+◌, ◌≤◌, ◌≡◌, refl, inl, inr, ap, none, some, Text, [], ok, arith, sym, ◌∙◌,
}
use breez_sdk.Prelude.Int.{pos, ◌+ℤ◌}
use breez_sdk.Store.Versioned.{VersionedStore, IsVersioned}
use breez_sdk.Store.TimeLock.{
  Json, LockData, PreviousHolder, decode, is_locked, next_lock, unix_epoch,
}
use breez_sdk.Store.TimeLock.Encoding.{IsJson}
use breez_sdk.Store.Locking.{VersionedTimeLock, lock_key, lock_duration, lock, unlock, open_lock}
use breez_sdk.Store.Locking.Outcomes.{
  Outcome, not_sent, not_confirmed, confirmed, dropped, no_lock, lock-Outcome, unlock-Outcome,
}
use breez_sdk.Store.Locking.System.{
  System, IsSkewed, Step, tick, open_store, lock_store, unlock_store, crash, other, Reach, here,
  next, IsInitial, set_client,
}
use breez_sdk.Store.Locking.Exclusion.Invariant.{Holds, Fits, Inv}
use breez_sdk.Store.Locking.Exclusion.Opening.{open_lock-Opened, open_lock_keeps, Opened-Fits}
use breez_sdk.Store.Locking.Exclusion.Updates.{
  keep, written, written-Holds, taken-Fits, lost-Fits, released-Fits, dropped-Fits,
}

module _ (store : VersionedStore) (laws : IsVersioned store) (json : Json) (is_json : IsJson json)
    (ids : ℕ → Text) (inj : (c e : ℕ) → ids c ≡ ids e → c ≡ e) where
  abbrev Invariant : System store → Type 0
  Invariant = Inv store laws json ids

  -- Time passes: locks only expire.
  tick-Inv :
      (s : System store) (clock' : ℕ → ℕ)
      → ((c : ℕ) → s.clock c ≤ clock' c)
      → IsSkewed clock'
      → Invariant s
      → Invariant (record s { clock = clock' })
  unfolding is_locked
  tick-Inv s clock' later skewed h = record {
    lock_data = h.lock_data;
    version = h.version;
    nonneg = h.nonneg;
    stored = h.stored;
    skewed = skewed;
    bound = λ c own. omega (arith, h.bound c own, later c);
    fits = λ c vtl p.
        let f : Fits s.clock h.lock_data h.version (ids c) (s.clock c) vtl = h.fits c vtl p in
        record {
          own_id = f.own_id;
          duration = f.duration;
          nonneg = f.nonneg;
          behind = f.behind;
          held = λ locked. f.held (ground (arith, locked, later c));
          fresh = λ same. elim (f.fresh same) [
            | inl own ↦ inl own
            | inr expired ↦ inr (λ e. omega (arith, expired e, later e))
          ];
        };
  }

  -- A call of process `c` that wrote `d`, or tried to.
  Outcome-Inv :
      (s : System store) (h : Invariant s) (c : ℕ) (vtl vtl' : VersionedTimeLock)
      (remote' : store.State) {d : LockData} {unsent failed stored : VersionedTimeLock}
      → s.client c ≡ some vtl
      → d.instance_id ≡ ids c
      → d.locked_until ≤ s.clock c + lock_duration
      → Fits s.clock h.lock_data h.version (ids c) (s.clock c) unsent
      → Fits s.clock h.lock_data h.version (ids c) (s.clock c) failed
      → Fits s.clock d (vtl.version +ℤ pos 1) (ids c) (s.clock c) failed
      → Fits s.clock d (vtl.version +ℤ pos 1) (ids c) (s.clock c) stored
      → Outcome store json d vtl unsent failed stored s.remote vtl' remote'
      → Invariant (record s { remote = remote'; client = set_client c (some vtl') s.client })
  Outcome-Inv s h c vtl vtl' remote' at_c own bounded fu ff fl fs (not_sent p q) =
      keep store laws json ids inj s h remote' (ap (λ st. laws.view st lock_key) q) c (some vtl')
        (λ w e.
          subst (Fits s.clock h.lock_data h.version (ids c) (s.clock c))
            (sym p ∙ some-injective _ _ e) fu)
  Outcome-Inv s h c vtl vtl' remote' {d} at_c own bounded fu ff fl fs
        (not_confirmed value x e p q r) =
      elim (laws.put_err lock_key value vtl.version s.remote x p) [
        | inl same ↦
            keep store laws json ids inj s h remote'
              (ap (λ st. laws.view st lock_key) r ∙ same lock_key) c (some vtl')
              (λ w e'.
                subst (Fits s.clock h.lock_data h.version (ids c) (s.clock c))
                  (sym q ∙ some-injective _ _ e') ff)
        | inr (acc, wrote) ↦
            written store laws json ids inj s h remote' c vtl vtl' d at_c acc
              (written-Holds store laws json is_json s.remote remote' d value vtl.version e
                (λ j. ap (λ st. laws.view st j) r ∙ wrote j))
              own bounded
              (subst (Fits s.clock d (vtl.version +ℤ pos 1) (ids c) (s.clock c)) (sym q) fl)
      ]
  Outcome-Inv s h c vtl vtl' remote' {d} at_c own bounded fu ff fl fs (confirmed value e p q r) =
      let (acc, wrote) = laws.put_ok lock_key value vtl.version s.remote p in
      written store laws json ids inj s h remote' c vtl vtl' d at_c acc
        (written-Holds store laws json is_json s.remote remote' d value vtl.version e
          (λ j. ap (λ st. laws.view st j) r ∙ wrote j))
        own bounded (subst (Fits s.clock d (vtl.version +ℤ pos 1) (ids c) (s.clock c)) (sym q) fs)

  lock-Inv :
      (s : System store) (h : Invariant s) (c : ℕ) (vtl : VersionedTimeLock)
      → s.client c ≡ some vtl
      → Invariant (record s {
        remote = (lock store json (s.clock c) vtl s.remote).2;
        client = set_client c (some (lock store json (s.clock c) vtl s.remote).1) s.client;
      })
  unfolding next_lock
  lock-Inv s h c vtl at_c =
      let f : Fits s.clock h.lock_data h.version (ids c) (s.clock c) vtl = h.fits c vtl at_c in
      Outcome-Inv s h c vtl (lock store json (s.clock c) vtl s.remote).1
        (lock store json (s.clock c) vtl s.remote).2 at_c f.own_id (omega (arith, f.duration)) f f
        (lost-Fits s.clock h.lock_data h.version (ids c) (s.clock c) vtl f (h.bound c))
        (taken-Fits s.clock h.lock_data h.version (ids c) (s.clock c) vtl f)
        (lock-Outcome store json (s.clock c) vtl s.remote)

  unlock-Inv :
      (s : System store) (h : Invariant s) (c : ℕ) (vtl : VersionedTimeLock)
      → s.client c ≡ some vtl
      → Invariant (record s {
        remote = (unlock store json (s.clock c) vtl s.remote).2;
        client = set_client c (some (unlock store json (s.clock c) vtl s.remote).1) s.client;
      })
  unlock-Inv s h c vtl at_c =
      let f : Fits s.clock h.lock_data h.version (ids c) (s.clock c) vtl = h.fits c vtl at_c in
      let fd : Fits s.clock h.lock_data h.version (ids c) (s.clock c) (dropped vtl) =
        dropped-Fits s.clock h.lock_data h.version (ids c) (s.clock c) vtl f in
      let fr : Fits s.clock (no_lock vtl) (vtl.version +ℤ pos 1) (ids c) (s.clock c) (dropped vtl) =
        released-Fits s.clock h.lock_data h.version (ids c) (s.clock c) vtl f in
      elim (unlock-Outcome store json (s.clock c) vtl s.remote) [
        | inl (same, kept, free) ↦
            keep store laws json ids inj s h (unlock store json (s.clock c) vtl s.remote).2
              (ap (λ st. laws.view st lock_key) kept) c
              (some (unlock store json (s.clock c) vtl s.remote).1)
              (λ w e.
                subst (Fits s.clock h.lock_data h.version (ids c) (s.clock c))
                  (sym same ∙ some-injective _ _ e) f)
        | inr (out, held) ↦
            Outcome-Inv s h c vtl (unlock store json (s.clock c) vtl s.remote).1
              (unlock store json (s.clock c) vtl s.remote).2 at_c f.own_id (omega arith) fd fd fr fr
              out
      ]

  open-Inv :
      (s : System store) (h : Invariant s) (c : ℕ) (vtl : VersionedTimeLock) (p : PreviousHolder)
      → (open_lock store json (ids c) (s.clock c) s.remote).0 ≡ ok (vtl, p)
      → Invariant (record s {
        remote = (open_lock store json (ids c) (s.clock c) s.remote).1;
        client = set_client c (some vtl) s.client;
      })
  open-Inv s h c vtl p e =
      keep store laws json ids inj s h (open_lock store json (ids c) (s.clock c) s.remote).1
        (open_lock_keeps store laws json (ids c) (s.clock c) lock_key s.remote) c (some vtl)
        (λ w q.
          subst (Fits s.clock h.lock_data h.version (ids c) (s.clock c)) (some-injective _ _ q) (
            Opened-Fits s.clock h.lock_data h.version (ids c) c vtl h.skewed h.nonneg (
              open_lock-Opened store laws json (ids c) (s.clock c) s.remote h.lock_data h.version
                vtl p h.stored e)))

  pub Step-Inv : {s t : System store} → Step store laws json ids s t → Invariant s → Invariant t
  Step-Inv {s} (tick clock' later skewed) h = tick-Inv s clock' later skewed h
  Step-Inv {s} (open_store c vtl p e) h = open-Inv s h c vtl p e
  Step-Inv {s} (lock_store c vtl at_c) h = lock-Inv s h c vtl at_c
  Step-Inv {s} (unlock_store c vtl at_c) h = unlock-Inv s h c vtl at_c
  Step-Inv {s} (crash c) h = keep store laws json ids inj s h s.remote refl c none (λ w e. cc)
  Step-Inv {s} (other remote' same) h = record {
    lock_data = h.lock_data;
    version = h.version;
    nonneg = h.nonneg;
    stored = subst (λ r. Holds json r h.lock_data h.version) (sym same) h.stored;
    skewed = h.skewed;
    bound = h.bound;
    fits = h.fits;
  }

  pub Reach-Inv : {s t : System store} → Invariant s → Reach store laws json ids s t → Invariant t
  Reach-Inv h here = h
  Reach-Inv h (next r st) = Step-Inv st (Reach-Inv h r)

  pub IsInitial-Inv : (s : System store) → IsInitial store laws json ids s → Invariant s
  unfolding decode
  IsInitial-Inv s i = record {
    lock_data = record { locked_until = unix_epoch; instance_id = [] };
    version = pos 0;
    nonneg = omega arith;
    stored = (ground (arith, i.unlocked), ground (arith, i.unlocked));
    skewed = i.skewed;
    bound = λ c own. omega arith;
    fits = λ c vtl p. cc (p, i.closed c);
  }
