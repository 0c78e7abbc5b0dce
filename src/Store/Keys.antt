-- ===== src/Store/Keys.antt =====
-- The keys of `libs/sdk-core/src/ldk/store/mirroring_store.rs`: a row is named by two namespaces and a
-- key, and the remote store by the three joined by slashes.
use mathlib.Core.Path.{subst, subst₂}
use breez_sdk.Prelude.{
  inl, inr, ℕ, ◌≡◌, ◌↔◌, refl, sym, ap, Bool, true, false, ◌&&◌, Option, none, some, [], ◌∷◌, ◌++◌,
  arith, Text, ◌==◌, if◌then◌else◌, eq_text, eq_text_iff, Bool-cases, Option-cases,
}

pub record RowKey : Type 0 where
  pub primary_ns : Text
  pub secondary_ns : Text
  pub key : Text

-- The three comparisons of each `WHERE` clause.
unfoldable pub eq_key : RowKey → RowKey → Bool
eq_key a b =
    eq_text a.primary_ns b.primary_ns
    && (eq_text a.secondary_ns b.secondary_ns && eq_text a.key b.key)

pub eq_key_iff : (a b : RowKey) → (eq_key a b ≡ true) ↔ (a ≡ b)
unfolding eq_key
eq_key_iff a b = ground (
  arith,
  eq_text_iff a.primary_ns b.primary_ns,
  eq_text_iff a.secondary_ns b.secondary_ns,
  eq_text_iff a.key b.key,
)

-- `format!("{primary_ns}/{secondary_ns}/{key}")`
unfoldable pub full_key : RowKey → Text
full_key k = k.primary_ns ++ (b'/' ∷ (k.secondary_ns ++ (b'/' ∷ k.key)))

-- The text before and after the first slash.
abbrev pub cons_before : ℕ → Option (Text × Text) → Option (Text × Text)
cons_before c none = none
cons_before c (some (before, after)) = some (c ∷ before, after)

unfoldable pub split_once : Text → Option (Text × Text)
split_once [] = none
split_once (c ∷ s) =
    let rest = cons_before c (split_once s) in if c == b'/' then some ([], s) else rest

-- `full_key.splitn(3, '/')`, where it gives exactly three parts.
unfoldable pub split_key : Text → Option RowKey
unfolding split_once
split_key s = elim (split_once s) [
  | none ↦ none
  | some (primary, rest) ↦ elim (split_once rest) [
    | none ↦ none
    | some (secondary, key) ↦
        some (record { primary_ns = primary; secondary_ns = secondary; key = key })
  ]
]

-- No slash stands in a namespace.
abbrev pub HasNoSlash : Text → Type 0
HasNoSlash [] = Unit
HasNoSlash (c ∷ s) = ((c == b'/') ≡ false) × HasNoSlash s

abbrev pub IsPlain : RowKey → Type 0
IsPlain k = HasNoSlash k.primary_ns × HasNoSlash k.secondary_ns

split_once-append : (s t : Text) → HasNoSlash s → split_once (s ++ (b'/' ∷ t)) ≡ some (s, t)
unfolding split_once
split_once-append [] t h = refl
split_once-append (c ∷ s) t h = ground (arith, split_once-append s t h.1, h.0)

split_here :
    (c : ℕ) (s before after : Text)
    → (c == b'/') ≡ true
    → ([] ≡ before) × (s ≡ after)
    → HasNoSlash before × (before ++ (b'/' ∷ after) ≡ c ∷ s)
split_here c s before after slash e =
    subst₂ (λ b a. HasNoSlash b × (b ++ (b'/' ∷ a) ≡ c ∷ s)) e.0 e.1 (tt, ground (arith, slash))

split_later :
    (c : ℕ) (s b a before after : Text)
    → (c == b'/') ≡ false
    → HasNoSlash b × (b ++ (b'/' ∷ a) ≡ s)
    → (c ∷ b ≡ before) × (a ≡ after)
    → HasNoSlash before × (before ++ (b'/' ∷ after) ≡ c ∷ s)
split_later c s b a before after plain ih e =
    subst₂ (λ x y. HasNoSlash x × (x ++ (b'/' ∷ y) ≡ c ∷ s)) e.0 e.1
      ((plain, ih.0), ap (λ z. c ∷ z) ih.1)

split_once_sound :
    (s before after : Text)
    → split_once s ≡ some (before, after)
    → HasNoSlash before × (before ++ (b'/' ∷ after) ≡ s)
unfolding split_once
split_once_sound [] before after e = cc
split_once_sound (c ∷ s) before after e = elim (Bool-cases (c == b'/')) [
  | inl slash ↦ split_here c s before after slash (ground (arith, e, slash))
  | inr plain ↦ elim (Option-cases (split_once s)) [
    | inl all ↦ absurd (ground (arith, e, plain, all))
    | inr (pair, p) ↦
        split_later c s pair.0 pair.1 before after plain (split_once_sound s pair.0 pair.1 p)
          (ground (arith, e, plain, p))
  ]
]

-- The key of the remote store names its row again, where no namespace holds a slash.
pub split_key-full_key : (k : RowKey) → IsPlain k → split_key (full_key k) ≡ some k
unfolding split_key full_key
split_key-full_key k h = ground (
  arith,
  split_once-append k.primary_ns (k.secondary_ns ++ (b'/' ∷ k.key)) h.0,
  split_once-append k.secondary_ns k.key h.1,
)

-- A remote key that names a row is that row's key, with no slash in its namespaces.
pub split_key_sound : (f : Text) (k : RowKey) → split_key f ≡ some k → IsPlain k × (full_key k ≡ f)
unfolding split_key full_key
split_key_sound f k e = elim (Option-cases (split_once f)) [
  | inl p ↦ absurd (ground (arith, e, p))
  | inr (first, p) ↦ elim (Option-cases (split_once first.1)) [
    | inl q ↦ absurd (ground (arith, e, p, q))
    | inr (second, q) ↦
        let (plain, joined) = split_once_sound f first.0 first.1 p in
        let (plain', joined') = split_once_sound first.1 second.0 second.1 q in
        let same : k ≡ record { primary_ns = first.0; secondary_ns = second.0; key = second.1 } =
          ground (arith, e, p, q) in
        subst
          (λ (r : RowKey).
            IsPlain r × (r.primary_ns ++ (b'/' ∷ (r.secondary_ns ++ (b'/' ∷ r.key))) ≡ f))
          (sym same) ((plain, plain'), rw joined' joined)
  ]
]
