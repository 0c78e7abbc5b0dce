-- ===== src/Store/Mirroring/Agreement.antt =====
-- The table and the server agree on a key (`libs/sdk-core/src/ldk/store/mirroring_store.rs`).
use mathlib.Core.Option.{some-injective}
use breez_sdk.Prelude.{
  ◌≡◌, refl, sym, ap, ◌∙◌, inl, inr, false, Option, none, some, [], ◌∷◌, arith, Bytes,
  if◌then◌else◌, Option-cases,
}
use breez_sdk.Prelude.Int.{ℤ, pos, negsuc, ◌+ℤ◌}
use breez_sdk.Store.Versioned.{Versioned}
use breez_sdk.Store.Keys.{
  RowKey, eq_key, eq_key_iff, full_key, split_key, IsPlain, split_key-full_key,
}
use breez_sdk.Store.Table.{
  Row, Table, select_row, update_row, set_value, set_synced, select_row-update_row,
  select_row-append,
}
use breez_sdk.Store.Mirroring.{write_local}

-- No row and no entry; or a clean row with the server's value, one version behind the server's.
abbrev pub Agree : Option Row → Option Versioned → Type 0
Agree none entry = entry ≡ none
Agree (some r) entry =
    (r.removed ≡ false)
    × (r.local_version ≡ r.remote_version)
    × (entry ≡ some (r.value, r.local_version +ℤ pos 1))

pub at-select_row : (k : RowKey) (t : Table) (r : Row) → select_row k t ≡ some r → r.at ≡ k
unfolding select_row
at-select_row k [] r e = cc
at-select_row k (x ∷ t) r e = ground (arith, eq_key_iff x.at k, at-select_row k t r)

-- Distinct rows have distinct keys on the server, where no namespace holds a slash.
pub full_key_injective : (k j : RowKey) → IsPlain k → IsPlain j → full_key k ≡ full_key j → k ≡ j
full_key_injective k j pk pj e =
    some-injective k j (sym (split_key-full_key k pk) ∙ ap split_key e ∙ split_key-full_key j pj)

-- The row that a confirmed write leaves.
abbrev pub synced_row : RowKey → Bytes → ℤ → Row
synced_row k v n = record {
  at = k;
  value = v;
  local_version = n;
  remote_version = n;
  removed = false;
}

pub select_row-write_local :
    (k j : RowKey) (v : Bytes) (t t' : Table) (n : ℤ)
    → write_local k v t ≡ some (t', n)
    → select_row j (update_row k set_synced t')
      ≡ (if eq_key k j then some (synced_row k v n) else select_row j t)
unfolding write_local
select_row-write_local k j v t t' n e = elim (Option-cases (select_row k t)) [
  | inl missing ↦ ground (
    arith,
    e,
    missing,
    eq_key_iff k j,
    select_row-update_row k j set_synced t' (λ r. refl),
    select_row-append j
        (record {
          at = k;
          value = v;
          local_version = pos 0;
          remote_version = negsuc 0;
          removed = false;
        })
        t,
  )
  | inr (r, found) ↦ ground (
    arith,
    e,
    found,
    eq_key_iff k j,
    at-select_row k t r found,
    select_row-update_row k j set_synced t' (λ r. refl),
    select_row-update_row k j (set_value v (r.local_version +ℤ pos 1)) t (λ r. refl),
  )
]
