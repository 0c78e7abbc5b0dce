-- ===== src/Store/Table.antt =====
-- The SQL table `store` of `libs/sdk-core/src/ldk/store/mirroring_store.rs`, and its statements.
use breez_sdk.Prelude.{
  ◌≡◌, refl, Bool, true, false, ◌&&◌, ◌||◌, not, Option, none, some, List, [], ◌∷◌, ◌++◌, arith,
  Bytes, if◌then◌else◌, any,
}
use breez_sdk.Prelude.Int.{ℤ, eq_ℤ}
use breez_sdk.Store.Keys.{RowKey, eq_key, eq_key_iff}

pub record Row : Type 0 where
  pub at : RowKey
  pub value : Bytes
  pub local_version : ℤ
  pub remote_version : ℤ
  pub removed : Bool

abbrev pub Table : Type 0
Table = List Row

-- `SELECT … WHERE primary_ns = ?1 AND secondary_ns = ?2 AND key = ?3`
unfoldable pub select_row : RowKey → Table → Option Row
select_row k [] = none
select_row k (r ∷ t) = if eq_key r.at k then some r else select_row k t

-- The same with `AND removed = 0`.
unfoldable pub select_live : RowKey → Table → Option Row
select_live k [] = none
select_live k (r ∷ t) = if eq_key r.at k && not r.removed then some r else select_live k t

-- `UPDATE store SET … WHERE primary_ns = ?1 AND secondary_ns = ?2 AND key = ?3`
unfoldable pub update_row : RowKey → (Row → Row) → Table → Table
update_row k f [] = []
update_row k f (r ∷ t) = (if eq_key r.at k then f r else r) ∷ update_row k f t

-- `DELETE FROM store WHERE primary_ns = ?1 AND secondary_ns = ?2 AND key = ?3`
unfoldable pub delete_row : RowKey → Table → Table
delete_row k [] = []
delete_row k (r ∷ t) = let rest = delete_row k t in if eq_key r.at k then rest else r ∷ rest

-- `INSERT INTO store …`; the primary key refuses a second row of one name.
unfoldable pub insert_row : Row → Table → Option Table
unfolding select_row
insert_row r t = elim (select_row r.at t) [ none ↦ some (t ++ r ∷ []) | some _ ↦ none ]

-- The new values that the two `UPDATE` statements write.
abbrev pub set_value : Bytes → ℤ → Row → Row
set_value value version r = record r { value = value; local_version = version; removed = false }

abbrev pub set_synced : Row → Row
set_synced r = record r { remote_version = r.local_version }

abbrev pub set_removed : Row → Row
set_removed r = record r { removed = true }

-- `local_version != remote_version OR removed = 1`
abbrev pub dirty_row : Row → Bool
dirty_row r = not (eq_ℤ r.local_version r.remote_version) || r.removed

-- `SELECT count(1) FROM store WHERE …`, and whether the count is above 0.
unfoldable pub is_dirty : Table → Bool
is_dirty t = any dirty_row t

abbrev pub map_row : (Row → Row) → Option Row → Option Row
map_row f none = none
map_row f (some r) = some (f r)

-- What the statements do to one row.
module _ (k j : RowKey) where
  pub select_row-update_row :
      (f : Row → Row) (t : Table)
      → ((r : Row) → (f r).at ≡ r.at)
      → select_row j (update_row k f t)
        ≡ (if eq_key k j then map_row f (select_row j t) else select_row j t)
  unfolding select_row update_row
  select_row-update_row f [] keeps = ground arith
  select_row-update_row f (r ∷ t) keeps = ground (
    arith,
    keeps r,
    eq_key_iff r.at k,
    eq_key_iff r.at j,
    eq_key_iff k j,
    select_row-update_row f t keeps,
  )

  pub select_row-delete_row :
      (t : Table) → select_row j (delete_row k t) ≡ (if eq_key k j then none else select_row j t)
  unfolding select_row delete_row
  select_row-delete_row [] = ground arith
  select_row-delete_row (r ∷ t) =
      ground (arith, eq_key_iff r.at k, eq_key_iff r.at j, eq_key_iff k j, select_row-delete_row t)

pub select_row-append :
    (j : RowKey) (r : Row) (t : Table)
    → select_row j (t ++ r ∷ [])
      ≡ elim (select_row j t) [ none ↦ if eq_key r.at j then some r else none | some x ↦ some x ]
unfolding select_row
select_row-append j r [] = refl
select_row-append j r (x ∷ t) = ground (arith, select_row-append j r t)
