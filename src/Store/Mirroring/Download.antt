-- ===== src/Store/Mirroring/Download.antt =====
-- A download copies the server (`libs/sdk-core/src/ldk/store/mirroring_store.rs`).
use mathlib.Core.Path.{subst}
use breez_sdk.Prelude.{
  ◌≡◌, ◌⊎◌, refl, sym, ap, ◌∙◌, inl, inr, true, false, Option, none, some, List, [], ◌∷◌, arith,
  Text, Bytes, Result, ok, if◌then◌else◌, any, eq_text, eq_text_iff, Option-cases, Result-cases,
  Bool-cases,
}
use breez_sdk.Prelude.Int.{ℤ, pos, ◌-ℤ◌, +ℤ_-ℤ_cancel}
use breez_sdk.Store.Versioned.{Versioned, VersionedStore, IsVersioned}
use breez_sdk.Store.Keys.{
  RowKey, eq_key, eq_key_iff, full_key, split_key, IsPlain, split_key-full_key, split_key_sound,
}
use breez_sdk.Store.Table.{Row, Table, select_row, insert_row, select_row-append}
use breez_sdk.Store.Mirroring.{MirrorError, download_entries, download}
use breez_sdk.Store.Mirroring.Agreement.{Agree}

-- The row that stands for a downloaded entry.
abbrev entry_row : RowKey → Bytes → ℤ → Row
entry_row k value version = record {
  at = k;
  value = value;
  local_version = version -ℤ pos 1;
  remote_version = version -ℤ pos 1;
  removed = false;
}

-- During the loop a key is copied already, or still among the entries to come if the server has it.
abbrev Pending : RowKey → List (Text × ℤ) → Option Row → Option Versioned → Type 0
Pending k entries o entry =
    Agree o entry
    ⊎ (o ≡ none)
      × ((w : Versioned)
          → entry ≡ some w
          → any (λ (e : Text × ℤ). eq_text e.0 (full_key k)) entries ≡ true)

select_row-insert_row :
    (j : RowKey) (r : Row) (t t' : Table)
    → insert_row r t ≡ some t'
    → (select_row r.at t ≡ none)
      × (select_row j t' ≡ (if eq_key r.at j then some r else select_row j t))
unfolding insert_row
select_row-insert_row j r t t' e = elim (Option-cases (select_row r.at t)) [
  | inr (x, found) ↦ absurd (ground (arith, e, found))
  | inl missing ↦ (missing, ground (arith, e, missing, eq_key_iff r.at j, select_row-append j r t))
]

-- An entry under another name than the key's leaves the key pending.
skip_entry :
    (k : RowKey) (f : Text) (n : ℤ) (entries : List (Text × ℤ)) (o : Option Row)
    (entry : Option Versioned)
    → (f ≡ full_key k → entry ≡ none)
    → Pending k ((f, n) ∷ entries) o entry
    → Pending k entries o entry
skip_entry k f n entries o entry absent (inl agree) = inl agree
skip_entry k f n entries o entry absent (inr (missing, later)) =
    inr (missing, λ w e. ground (arith, later w e, absent, e, eq_text_iff f (full_key k)))

module _ (remote : VersionedStore) (laws : IsVersioned remote) (k : RowKey) (plain : IsPlain k)
    (entry : Option Versioned) where
  -- An entry that was inserted settles its own key, and leaves the others as they were.
  insert_entry :
      (j : RowKey) (f : Text) (n : ℤ) (value : Bytes) (version : ℤ) (entries : List (Text × ℤ))
      (t t' : Table)
      → split_key f ≡ some j
      → (f ≡ full_key k → entry ≡ some (value, version))
      → insert_row (entry_row j value version) t ≡ some t'
      → Pending k ((f, n) ∷ entries) (select_row k t) entry
      → Pending k entries (select_row k t') entry
  insert_entry j f n value version entries t t' named there e pending =
      let (fresh, now) = select_row-insert_row k (entry_row j value version) t t' e in
      elim (Bool-cases (eq_key j k)) [
        | inl same ↦
            let is_k : j ≡ k = (eq_key_iff j k).0 same in
            let at_k : f ≡ full_key k = sym ((split_key_sound f j named).1) ∙ ap full_key is_k in
            inl (ground (arith, now, same, there at_k, +ℤ_-ℤ_cancel version))
        | inr ne ↦
            subst (λ o. Pending k entries o entry) (sym (now ∙ rw ne))
              (skip_entry k f n entries (select_row k t) entry
                (λ at_k. absurd (other_name j f named at_k ne)) pending)
      ]
    where
      other_name :
          (i : RowKey) (g : Text) → split_key g ≡ some i → g ≡ full_key k → ¬ (eq_key i k ≡ false)
      other_name i g p q ne =
          let same : some i ≡ some k = sym p ∙ ap split_key q ∙ split_key-full_key k plain in
          ground (arith, same, eq_key_iff i k, ne)

  abbrev Copies : Result MirrorError (Unit {0}) × Table × remote.State → Type 0
  Copies out = out.0 ≡ ok tt → Agree (select_row k out.1) entry

  download_entries-Copies :
      (entries : List (Text × ℤ)) (t : Table) (st : remote.State)
      → laws.view st (full_key k) ≡ entry
      → Pending k entries (select_row k t) entry
      → Copies (download_entries remote entries t st)
  unfolding download_entries
  download_entries-Copies [] t st same (inl agree) done = agree
  download_entries-Copies [] t st same (inr (missing, later)) done =
      rw missing (elim (Option-cases entry) [
        | inl gone ↦ gone
        | inr (w, there) ↦ absurd (ground (arith, later w there))
      ])
  download_entries-Copies ((f, n) ∷ entries) t st same pending done =
      elim (Option-cases (split_key f)) [
        | inl malformed ↦
            let step : download_entries remote entries t st
                ≡ download_entries remote ((f, n) ∷ entries) t st =
              ground (arith, malformed) in
            subst Copies step
              (download_entries-Copies entries t st same (
                skip_entry k f n entries (select_row k t) entry
                  (λ at_k.
                    absurd
                      (ground (arith, malformed, ap split_key at_k, split_key-full_key k plain)))
                  pending))
              done
        | inr (j, named) ↦ elim (Result-cases (remote.get f st).0) [
          | inr (x, p) ↦ absurd (ground (arith, named, p, done))
          | inl (o, p) ↦
              let there : laws.view st f ≡ o = laws.get_ok f st o p in
              let same' : laws.view (remote.get f st).1 (full_key k) ≡ entry =
                laws.get_keeps f (full_key k) st ∙ same in
              elim (Option-cases o) [
                | inl gone ↦
                    let step : download_entries remote entries t (remote.get f st).1
                        ≡ download_entries remote ((f, n) ∷ entries) t st =
                      ground (arith, named, p, gone) in
                    subst Copies step
                      (download_entries-Copies entries t (remote.get f st).1 same' (
                        skip_entry k f n entries (select_row k t) entry
                          (λ at_k. sym same ∙ ap (laws.view st) (sym at_k) ∙ there ∙ gone) pending))
                      done
                | inr ((value, version), found) ↦
                    elim (Option-cases (insert_row (entry_row j value version) t)) [
                      | inl refused ↦ absurd (ground (arith, named, p, found, refused, done))
                      | inr (t', e) ↦
                          let step : download_entries remote entries t' (remote.get f st).1
                              ≡ download_entries remote ((f, n) ∷ entries) t st =
                            ground (arith, named, p, found, e) in
                          subst Copies step
                            (download_entries-Copies entries t' (remote.get f st).1 same' (
                              insert_entry j f n value version entries t t' named
                                (λ at_k. sym same ∙ ap (laws.view st) (sym at_k) ∙ there ∙ found) e
                                pending))
                            done
                    ]
              ]
        ]
      ]

  -- The whole download.
  download-Agree :
      (t : Table) (st : remote.State)
      → laws.view st (full_key k) ≡ entry
      → (download remote t st).0 ≡ ok tt
      → Agree (select_row k (download remote t st).1) entry
  unfolding download select_row
  download-Agree t st same done = elim (Result-cases (remote.list st).0) [
    | inr (x, p) ↦ absurd (ground (arith, p, done))
    | inl (entries, p) ↦
        let step : download_entries remote entries [] (remote.list st).1 ≡ download remote t st =
          ground (arith, p) in
        subst Copies step
          (download_entries-Copies entries [] (remote.list st).1
            (laws.list_keeps (full_key k) st ∙ same)
            (inr (refl, λ w there. laws.list_ok (full_key k) w.0 w.1 st entries p (same ∙ there))))
          done
  ]

-- After a download that succeeded, the table has, for a key without a slash in its namespaces, the
-- value that the server had, as a clean row one version behind; and no row if the server had none.
pub download_copies :
    (remote : VersionedStore) (laws : IsVersioned remote) (k : RowKey) (t : Table)
    (st : remote.State)
    → IsPlain k
    → (download remote t st).0 ≡ ok tt
    → Agree (select_row k (download remote t st).1) (laws.view st (full_key k))
download_copies remote laws k t st plain done =
    download-Agree remote laws k plain (laws.view st (full_key k)) t st refl done
