-- ===== src/Store/Mock.antt =====
-- `MockVersionedStore` of `libs/sdk-core/src/ldk/store/mock_versioned_store.rs`, the in-memory
-- store that the tests run against, and that it keeps the promises of the trait.
use mathlib.Core.Path.{subst}
use breez_sdk.Prelude.{
  any, true, ◌∷◌, ◌≡◌, inl, Bool, false, Option, none, some, List, [], map, arith, Text, Bytes,
  Result, ok, err, if◌then◌else◌, eq_text, not,
}
use breez_sdk.Prelude.Int.{ℤ, pos, ◌+ℤ◌, eq_ℤ, eq_ℤ_iff}
use breez_sdk.Prelude.TextMap.{TextMap, lookup, insert, erase, lookup-insert, lookup-erase}
use breez_sdk.Store.Versioned.{
  Error, conflict, internal, Versioned, VersionedStore, Accepts, IsVersioned,
}

-- The flags make single operations fail.
pub record MockStore : Type 0 where
  pub entries : TextMap Versioned
  pub should_fail_get : Bool
  pub should_fail_put : Bool
  pub should_fail_delete : Bool
  pub should_fail_list : Bool
  pub conflict_on_put : Bool

-- `MockVersionedStore::default()`
abbrev pub empty_mock : MockStore
empty_mock = record {
  entries = [];
  should_fail_get = false;
  should_fail_put = false;
  should_fail_delete = false;
  should_fail_list = false;
  conflict_on_put = false;
}

unfoldable pub mock_get : Text → MockStore → Result Error (Option Versioned) × MockStore
mock_get key s = if s.should_fail_get then (err internal, s) else (ok (lookup key s.entries), s)

-- Whether the version of a stored entry differs from the one given.
unfoldable pub mismatch : Option Versioned → ℤ → Bool
mismatch none version = false
mismatch (some (value, current)) version = not (eq_ℤ current version)

unfoldable pub mock_put : Text → Bytes → ℤ → MockStore → Result Error (Unit {0}) × MockStore
unfolding mismatch
mock_put key value version s =
    if s.should_fail_put
    then (err internal, s)
    else if s.conflict_on_put
    then (err conflict, s)
    else if mismatch (lookup key s.entries) version
    then (err conflict, s)
    else (ok tt, record s { entries = insert key (value, version +ℤ pos 1) s.entries })

unfoldable pub mock_delete : Text → MockStore → Result Error (Unit {0}) × MockStore
mock_delete key s =
    if s.should_fail_delete
    then (err internal, s)
    else (ok tt, record s { entries = erase key s.entries })

abbrev key_version : Text × Versioned → Text × ℤ
key_version (key, (value, version)) = (key, version)

unfoldable pub mock_list : MockStore → Result Error (List (Text × ℤ)) × MockStore
mock_list s = if s.should_fail_list then (err internal, s) else (ok (map key_version s.entries), s)

abbrev pub mock : VersionedStore
mock = record {
  State = MockStore;
  get = mock_get;
  put = mock_put;
  delete = mock_delete;
  list = mock_list;
}

abbrev mock_view : MockStore → Text → Option Versioned
mock_view s k = lookup k s.entries

pub mock_get_ok :
    (k : Text) (s : MockStore) (r : Option Versioned) → (mock_get k s).0 ≡ ok r → mock_view s k ≡ r
unfolding mock_get
mock_get_ok k s r h = ground arith

pub mock_get_keeps : (k j : Text) (s : MockStore) → mock_view (mock_get k s).1 j ≡ mock_view s j
unfolding mock_get
mock_get_keeps k j s = ground arith

mock-Accepts : (o : Option Versioned) (v : ℤ) → mismatch o v ≡ false → Accepts v o
unfolding mismatch
mock-Accepts none v h = tt
mock-Accepts (some (b, c)) v h = ground (arith, eq_ℤ_iff c v)

pub mock_put_ok :
    (k : Text) (b : Bytes) (v : ℤ) (s : MockStore)
    → (mock_put k b v s).0 ≡ ok tt
    → Accepts v (mock_view s k)
      × ((j : Text)
          → mock_view (mock_put k b v s).1 j
            ≡ (if eq_text k j then some (b, v +ℤ pos 1) else mock_view s j))
unfolding mock_put
mock_put_ok k b v s h = (
  mock-Accepts (lookup k s.entries) v (ground arith),
  λ j. ground (arith, lookup-insert k j (b, v +ℤ pos 1) s.entries),
)

pub mock_put_err :
    (k : Text) (b : Bytes) (v : ℤ) (s : MockStore) (e : Error)
    → (mock_put k b v s).0 ≡ err e
    → (j : Text) → mock_view (mock_put k b v s).1 j ≡ mock_view s j
unfolding mock_put
mock_put_err k b v s e h j = ground arith

pub mock_delete_ok :
    (k : Text) (s : MockStore)
    → (mock_delete k s).0 ≡ ok tt
    → (j : Text) → mock_view (mock_delete k s).1 j ≡ (if eq_text k j then none else mock_view s j)
unfolding mock_delete
mock_delete_ok k s h j = ground (arith, lookup-erase k j s.entries)

pub mock_list_keeps : (j : Text) (s : MockStore) → mock_view (mock_list s).1 j ≡ mock_view s j
unfolding mock_list
mock_list_keeps j s = ground arith

pub mock_delete_err :
    (k : Text) (s : MockStore) (e : Error)
    → (mock_delete k s).0 ≡ err e
    → (j : Text) → mock_view (mock_delete k s).1 j ≡ mock_view s j
unfolding mock_delete
mock_delete_err k s e h j = ground arith

listed :
    (k : Text) (w : Versioned) (m : TextMap Versioned)
    → lookup k m ≡ some w
    → any (λ (e : Text × ℤ). eq_text e.0 k) (map key_version m) ≡ true
unfolding lookup
listed k w [] e = cc
listed k w ((j, x) ∷ m) e = ground (arith, listed k w m)

pub mock_list_ok :
    (k : Text) (b : Bytes) (v : ℤ) (s : MockStore) (entries : List (Text × ℤ))
    → (mock_list s).0 ≡ ok entries
    → mock_view s k ≡ some (b, v)
    → any (λ (e : Text × ℤ). eq_text e.0 k) entries ≡ true
unfolding mock_list
mock_list_ok k b v s entries h found =
    subst (λ l. any (λ (e : Text × ℤ). eq_text e.0 k) l ≡ true) (ground (arith, h))
      (listed k (b, v) s.entries found)

-- The in-memory store keeps every promise of the trait.
abbrev pub mock-IsVersioned : IsVersioned mock
mock-IsVersioned = record {
  view = mock_view;
  get_ok = mock_get_ok;
  get_keeps = mock_get_keeps;
  put_ok = mock_put_ok;
  put_err = λ k b v s e h. inl (mock_put_err k b v s e h);
  delete_ok = mock_delete_ok;
  delete_err = λ k s e h j. inl (mock_delete_err k s e h j);
  list_ok = mock_list_ok;
  list_keeps = mock_list_keeps;
}
