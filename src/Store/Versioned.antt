-- ===== src/Store/Versioned.antt =====
-- The trait `VersionedStore` of `libs/sdk-core/src/ldk/store/versioned_store.rs`, as a record of
-- operations on the state of the server, and what its documentation promises, as laws.
use breez_sdk.Prelude.{
  ◌≡◌, ◌⊎◌, Option, none, some, List, Text, Bytes, Result, ok, err, if◌then◌else◌, eq_text, any,
  true,
}
use breez_sdk.Prelude.Int.{ℤ, pos, ◌+ℤ◌}

-- The strings that the two variants carry hold diagnostic details, and are left out.
pub data Error : Type 0 where
  conflict internal : Error

-- A value with its version, which is an `i64`.
abbrev pub Versioned : Type 0
Versioned = Bytes × ℤ

-- A call returns its result and the state that it leaves.
pub record VersionedStore : Type 1 where
  pub State : Type 0
  pub get : Text → State → Result Error (Option Versioned) × State
  pub put : Text → Bytes → ℤ → State → Result Error (Unit {0}) × State
  pub delete : Text → State → Result Error (Unit {0}) × State
  pub list : State → Result Error (List (Text × ℤ)) × State

-- What a write at `version` requires of the current entry: the versions agree. The trait leaves
-- open what version a missing key has.
abbrev pub Accepts : ℤ → Option Versioned → Type 0
Accepts version none = Unit
Accepts version (some (b, current)) = current ≡ version

-- The promises: reads return the current entry and change nothing; a write that returns `ok` was
-- accepted and has advanced the version by one. A call that fails may have lost only its answer.
pub record IsVersioned (s : VersionedStore) : Type 1 where
  pub view : s.State → Text → Option Versioned
  pub get_ok :
      (k : Text) (st : s.State) (r : Option Versioned) → (s.get k st).0 ≡ ok r → view st k ≡ r
  pub get_keeps : (k j : Text) (st : s.State) → view (s.get k st).1 j ≡ view st j
  pub put_ok :
      (k : Text) (b : Bytes) (v : ℤ) (st : s.State)
      → (s.put k b v st).0 ≡ ok tt
      → Accepts v (view st k)
        × ((j : Text)
            → view (s.put k b v st).1 j ≡ (if eq_text k j then some (b, v +ℤ pos 1) else view st j))
  pub put_err :
      (k : Text) (b : Bytes) (v : ℤ) (st : s.State) (e : Error)
      → (s.put k b v st).0 ≡ err e
      → ((j : Text) → view (s.put k b v st).1 j ≡ view st j)
        ⊎ (Accepts v (view st k)
            × ((j : Text)
                → view (s.put k b v st).1 j
                  ≡ (if eq_text k j then some (b, v +ℤ pos 1) else view st j)))
  pub delete_ok :
      (k : Text) (st : s.State)
      → (s.delete k st).0 ≡ ok tt
      → (j : Text) → view (s.delete k st).1 j ≡ (if eq_text k j then none else view st j)
  pub delete_err :
      (k : Text) (st : s.State) (e : Error)
      → (s.delete k st).0 ≡ err e
      → (j : Text)
      → (view (s.delete k st).1 j ≡ view st j)
        ⊎ (view (s.delete k st).1 j ≡ (if eq_text k j then none else view st j))
  pub list_ok :
      (k : Text) (b : Bytes) (v : ℤ) (st : s.State) (entries : List (Text × ℤ))
      → (s.list st).0 ≡ ok entries
      → view st k ≡ some (b, v)
      → any (λ (e : Text × ℤ). eq_text e.0 k) entries ≡ true
  pub list_keeps : (j : Text) (st : s.State) → view (s.list st).1 j ≡ view st j
