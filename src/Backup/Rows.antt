-- ===== src/Backup/Rows.antt =====
-- The statements that `libs/sdk-core/src/persist/sync.rs` runs on two tables with a primary key: rows
-- that are missing are inserted, and rows that are newer replace their counterparts.
pub mod Found
use breez_sdk.Prelude.{
  ◌≡◌, Bool, not, Option, none, some, List, [], ◌∷◌, if◌then◌else◌, eq_text, Text, any, filterb,
  is_some,
}

module _ {R : Type 0} (key : R → Text) where
  -- The row with a primary key.
  unfoldable pub find_row : Text → List R → Option R
  find_row a [] = none
  find_row a (r ∷ t) = if eq_text (key r) a then some r else find_row a t

  -- Primary keys are distinct.
  abbrev pub Keyed : List R → Type 0
  Keyed [] = Unit
  Keyed (r ∷ t) = (find_row (key r) t ≡ none) × Keyed t

  -- `SELECT … FROM remote WHERE key NOT IN (SELECT key FROM local)`
  unfoldable pub missing_rows : List R → List R → List R
  unfolding find_row
  missing_rows remote local = filterb (λ r. not (is_some (find_row (key r) local))) remote

  -- `INSERT INTO local …`, which fails on a row that breaks the primary key or a `UNIQUE` column.
  unfoldable pub insert_rows : (R → R → Bool) → List R → List R → Option (List R)
  unfolding find_row
  insert_rows clash [] t = some t
  insert_rows clash (r ∷ rows) t =
      if is_some (find_row (key r) t)
      then none
      else if any (clash r) t
      then none
      else insert_rows clash rows (r ∷ t)

  -- `SELECT … FROM remote LEFT JOIN local ON … WHERE …`, the condition on both rows a parameter.
  unfoldable pub newer_rows : (R → Option R → Bool) → List R → List R → List R
  unfolding find_row
  newer_rows newer remote local = filterb (λ r. newer r (find_row (key r) local)) remote

  unfoldable pub delete_by_key : Text → List R → List R
  delete_by_key a [] = []
  delete_by_key a (r ∷ t) =
      let rest = delete_by_key a t in if eq_text (key r) a then rest else r ∷ rest

  -- `INSERT OR REPLACE INTO local …`; the keys are distinct, so that the order of the rows is free.
  unfoldable pub replace_rows : List R → List R → List R
  unfolding delete_by_key
  replace_rows [] t = t
  replace_rows (r ∷ rows) t = r ∷ delete_by_key (key r) (replace_rows rows t)
