-- ===== src/Backup/Rows/Found.antt =====
-- What the statements of `libs/sdk-core/src/persist/sync.rs` leave under each primary key.
use breez_sdk.Prelude.{
  ◌≡◌, refl, sym, ap, ◌∙◌, Bool, true, false, Option, none, some, List, [], ◌∷◌, arith,
  if◌then◌else◌, eq_text, eq_text_iff, Text, any, is_some, inl, inr, Bool-cases, Option-cases, not,
}
use breez_sdk.Backup.Rows.{
  find_row, Keyed, missing_rows, insert_rows, newer_rows, delete_by_key, replace_rows,
}

abbrev pub or_from : {R : Type 0} → Option R → Option R → Option R
or_from none o = o
or_from (some r) o = some r

abbrev pub kept_if : {R : Type 0} → Bool → Option R → Option R
kept_if true o = o
kept_if false o = none

module _ {R : Type 0} (key : R → Text) where
  pub find_row-same :
      (a b : Text) (t : List R) → eq_text a b ≡ true → find_row key b t ≡ find_row key a t
  find_row-same a b t same = ap (λ c. find_row key c t) (sym ((eq_text_iff a b).0 same))

  find_row-key : (a : Text) (t : List R) (r : R) → find_row key a t ≡ some r → key r ≡ a
  unfolding find_row
  find_row-key a [] r h = absurd (ground (arith, h))
  find_row-key a (x ∷ t) r h = elim (Bool-cases (eq_text (key x) a)) [
    | inl same ↦ ground (arith, h, same, (eq_text_iff (key x) a).0 same)
    | inr other ↦ find_row-key a t r (ground (arith, h, other))
  ]

  pub find_row-insert_rows :
      (clash : R → R → Bool) (a : Text) (rows t t' : List R)
      → insert_rows key clash rows t ≡ some t'
      → find_row key a t' ≡ or_from (find_row key a t) (find_row key a rows)
  unfolding insert_rows find_row
  find_row-insert_rows clash a [] t t' h = ground (arith, h)
  find_row-insert_rows clash a (r ∷ rows) t t' h = elim (Option-cases (find_row key (key r) t)) [
    | inr (x, taken) ↦ absurd (ground (arith, h, taken))
    | inl free ↦ elim (Bool-cases (any (clash r) t)) [
      | inl clashing ↦ absurd (ground (arith, h, free, clashing))
      | inr fits ↦
          let rest = find_row-insert_rows clash a rows (r ∷ t) t' (ground (arith, h, free, fits)) in
          elim (Bool-cases (eq_text (key r) a)) [
            | inl same ↦ ground (arith, rest, same, free, find_row-same (key r) a t same)
            | inr other ↦ ground (arith, rest, other)
          ]
    ]
  ]

  pub find_row-missing_rows :
      (a : Text) (remote local : List R)
      → find_row key a (missing_rows key remote local)
        ≡ kept_if (not (is_some (find_row key a local))) (find_row key a remote)
  unfolding missing_rows find_row
  find_row-missing_rows a [] local = ground arith
  find_row-missing_rows a (r ∷ remote) local =
      let rest = find_row-missing_rows a remote local in
      elim (Bool-cases (eq_text (key r) a)) [
        | inl same ↦ ground (arith, rest, same, find_row-same (key r) a local same)
        | inr other ↦ ground (arith, rest, other)
      ]

  pub find_row-newer_rows :
      (newer : R → Option R → Bool) (a : Text) (remote local : List R)
      → Keyed key remote
      → find_row key a (newer_rows key newer remote local) ≡ elim (find_row key a remote) [
        | none ↦ none
        | some r ↦ if newer r (find_row key a local) then some r else none
      ]
  unfolding newer_rows find_row
  find_row-newer_rows newer a [] local keyed = ground arith
  find_row-newer_rows newer a (r ∷ remote) local keyed =
      let rest = find_row-newer_rows newer a remote local keyed.1 in
      elim (Bool-cases (eq_text (key r) a)) [
        | inl same ↦
            let none_left : find_row key a remote ≡ none =
              find_row-same (key r) a remote same ∙ keyed.0 in
            let at_key = find_row-same (key r) a local same in
            ground (arith, rest, same, none_left, at_key)
        | inr other ↦ ground (arith, rest, other)
      ]

  pub find_row-delete_by_key :
      (a b : Text) (t : List R)
      → find_row key b (delete_by_key key a t) ≡ (if eq_text a b then none else find_row key b t)
  unfolding delete_by_key find_row
  find_row-delete_by_key a b [] = ground arith
  find_row-delete_by_key a b (r ∷ t) = ground (
    arith,
    find_row-delete_by_key a b t,
    eq_text_iff (key r) a,
    eq_text_iff (key r) b,
    eq_text_iff a b,
  )

  pub find_row-replace_rows :
      (a : Text) (rows t : List R)
      → find_row key a (replace_rows key rows t) ≡ or_from (find_row key a rows) (find_row key a t)
  unfolding replace_rows find_row
  find_row-replace_rows a [] t = refl
  find_row-replace_rows a (r ∷ rows) t =
      let rest = find_row-replace_rows a rows t in
      let gone = find_row-delete_by_key (key r) a (replace_rows key rows t) in
      ground (arith, rest, gone)

  pub insert_rows-Keyed :
      (clash : R → R → Bool) (rows t t' : List R)
      → insert_rows key clash rows t ≡ some t'
      → Keyed key t
      → Keyed key t'
  unfolding insert_rows
  insert_rows-Keyed clash [] t t' h keyed = ground (arith, h, keyed)
  insert_rows-Keyed clash (r ∷ rows) t t' h keyed = elim (Option-cases (find_row key (key r) t)) [
    | inr (x, taken) ↦ absurd (ground (arith, h, taken))
    | inl free ↦ elim (Bool-cases (any (clash r) t)) [
      | inl clashing ↦ absurd (ground (arith, h, free, clashing))
      | inr fits ↦
          insert_rows-Keyed clash rows (r ∷ t) t' (ground (arith, h, free, fits)) (free, keyed)
    ]
  ]

  pub delete_by_key-Keyed :
      (a : Text) (t : List R) → Keyed key t → Keyed key (delete_by_key key a t)
  unfolding delete_by_key
  delete_by_key-Keyed a [] keyed = tt
  delete_by_key-Keyed a (r ∷ t) keyed =
      let rest = delete_by_key-Keyed a t keyed.1 in
      let gone = find_row-delete_by_key a (key r) t in ground (arith, rest, gone, keyed)

  pub replace_rows-Keyed : (rows t : List R) → Keyed key t → Keyed key (replace_rows key rows t)
  unfolding replace_rows
  replace_rows-Keyed [] t keyed = keyed
  replace_rows-Keyed (r ∷ rows) t keyed =
      let rest = replace_rows key rows t in
      (
        ground (arith, find_row-delete_by_key (key r) (key r) rest, eq_text_iff (key r) (key r)),
        delete_by_key-Keyed (key r) rest (replace_rows-Keyed rows t keyed),
      )
