-- ===== src/Fees/Menu.antt =====
-- What a validated menu promises to the code that picks from it (`libs/sdk-core/src/models.rs`).
use mathlib.Core.Path.{subst}
use native.Mathlib.Nat.{mul-le-mul_left}
use breez_sdk.Prelude.{
  ◌≡◌, refl, ap, ◌∙◌, ◌⊎◌, ℕ, ◌≤◌, ◌<◌, ◌*◌, Bool, true, inl, inr, Option, List, [], ◌∷◌, arith,
  Text, ok, All, Bool-cases, filterb,
}
use breez_sdk.Prelude.Int.{ℤ}
use breez_sdk.Fees.{
  OpeningFeeParams, get_channel_fees_msat_for, dearer, is_ordered, try_from, validate,
  get_48h_opening_fee_params, get_cheapest_opening_fee_params, valid_48h,
}

-- No dearer in both parts of the price.
abbrev pub NoDearer : OpeningFeeParams → OpeningFeeParams → Type 0
NoDearer p q = (p.min_msat ≤ q.min_msat) × (p.proportional ≤ q.proportional)

NoDearer-trans :
    (p q : OpeningFeeParams) (ps : List OpeningFeeParams)
    → NoDearer p q
    → All (NoDearer q) ps
    → All (NoDearer p) ps
NoDearer-trans p q [] h all = tt
NoDearer-trans p q (r ∷ ps) h all =
    ((omega (arith, h, all.0), omega (arith, h, all.0)), NoDearer-trans p q ps h all.1)

is_ordered-NoDearer :
    (p : OpeningFeeParams) (ps : List OpeningFeeParams)
    → is_ordered (p ∷ ps) ≡ true
    → All (NoDearer p) ps
unfolding is_ordered dearer
is_ordered-NoDearer p [] h = tt
is_ordered-NoDearer p (q ∷ ps) h =
    let first : NoDearer p q = ground (arith, h) in
    (first, NoDearer-trans p q ps first (is_ordered-NoDearer q ps (ground (arith, h))))

is_ordered-tail :
    (p : OpeningFeeParams) (ps : List OpeningFeeParams)
    → is_ordered (p ∷ ps) ≡ true
    → is_ordered ps ≡ true
unfolding is_ordered
is_ordered-tail p [] h = refl
is_ordered-tail p (q ∷ ps) h = ground (arith, h)

try_from-is_ordered :
    (parse : Text → Option ℤ) (now : ℤ) (ps qs : List OpeningFeeParams)
    → try_from parse now ps ≡ ok qs
    → (ps ≡ qs) × (is_ordered qs ≡ true)
unfolding try_from validate
try_from-is_ordered parse now ps qs h = ground (arith, h)

-- The first hit of a filter is no dearer than any other hit.
weaken :
    (v : OpeningFeeParams → Bool) (p : OpeningFeeParams) (ps : List OpeningFeeParams)
    → All (NoDearer p) ps
    → All (λ r. v r ≡ true → NoDearer p r) ps
weaken v p [] all = tt
weaken v p (r ∷ ps) all = (λ _. all.0, weaken v p ps all.1)

first_hit :
    (v : OpeningFeeParams → Bool) (ps : List OpeningFeeParams) (q : OpeningFeeParams)
    (qs : List OpeningFeeParams)
    → is_ordered ps ≡ true
    → filterb v ps ≡ q ∷ qs
    → (v q ≡ true) × All (λ r. v r ≡ true → NoDearer q r) ps
first_hit v [] q qs ordered h = absurd (ground (arith, h))
first_hit v (p ∷ ps) q qs ordered h = elim (Bool-cases (v p)) [
  | inl hit ↦
      let same : p ≡ q = ground (arith, h, hit) in
      subst (λ z. (v z ≡ true) × All (λ r. v r ≡ true → NoDearer z r) (p ∷ ps)) same
        (hit, (λ _. (omega arith, omega arith), weaken v p ps (is_ordered-NoDearer p ps ordered)))
  | inr miss ↦
      let rest = first_hit v ps q qs (is_ordered-tail p ps ordered) (ground (arith, h, miss)) in
      (rest.0, (λ hit. absurd (ground (arith, hit, miss)), rest.1))
]

monotone_fee :
    (p q : OpeningFeeParams) (amount : ℕ)
    → NoDearer p q
    → amount * q.proportional < 18446744073709551616
    → get_channel_fees_msat_for amount p ≤ get_channel_fees_msat_for amount q
unfolding get_channel_fees_msat_for
monotone_fee p q amount h fits =
    let le : amount * p.proportional ≤ amount * q.proportional = mul-le-mul_left amount h.1 in
    ground (arith, le, h, fits)

hits :
    (ps : List OpeningFeeParams)
    → (ps ≡ []) ⊎ ((p : OpeningFeeParams) × ((qs : List OpeningFeeParams) × (ps ≡ p ∷ qs)))
hits [] = inl refl
hits (p ∷ ps) = inr (p, (ps, refl))

module _ (parse : Text → Option ℤ) (now : ℤ) (amount : ℕ) where
  cheapest_of :
      (p : OpeningFeeParams) (ps : List OpeningFeeParams)
      → All (NoDearer p) ps
      → All (λ (q : OpeningFeeParams). amount * q.proportional < 18446744073709551616) ps
      → All (λ q. get_channel_fees_msat_for amount p ≤ get_channel_fees_msat_for amount q) ps
  cheapest_of p [] all fits = tt
  cheapest_of p (q ∷ ps) all fits =
      (monotone_fee p q amount all.0 fits.0, cheapest_of p ps all.1 fits.1)

  valid_48h_cheapest :
      (p : OpeningFeeParams) (ps : List OpeningFeeParams)
      → All (λ r. valid_48h parse now r ≡ true → NoDearer p r) ps
      → All (λ (q : OpeningFeeParams). amount * q.proportional < 18446744073709551616) ps
      → All
          (λ q. get_channel_fees_msat_for amount p ≤ get_channel_fees_msat_for amount q)
          (filterb (valid_48h parse now) ps)
  valid_48h_cheapest p [] all fits = tt
  valid_48h_cheapest p (q ∷ ps) all fits =
      let rest = valid_48h_cheapest p ps all.1 fits.1 in
      elim (Bool-cases (valid_48h parse now q)) [
        | inl valid ↦ rw valid (monotone_fee p q amount (all.0 valid) fits.0, rest)
        | inr short ↦ rw short rest
      ]

  -- What the cheapest entry of a menu that was validated charges for an amount is at most what any
  -- entry charges, where no product of the amount and a rate leaves the range of `u64`.
  pub get_cheapest-least :
      (ps qs : List OpeningFeeParams) (p : OpeningFeeParams)
      → try_from parse now ps ≡ ok qs
      → get_cheapest_opening_fee_params qs ≡ ok p
      → All (λ (q : OpeningFeeParams). amount * q.proportional < 18446744073709551616) qs
      → All (λ q. get_channel_fees_msat_for amount p ≤ get_channel_fees_msat_for amount q) qs
  unfolding get_cheapest_opening_fee_params
  get_cheapest-least ps [] p valid first fits = tt
  get_cheapest-least ps (q ∷ qs) p valid first fits =
      let same : q ≡ p = ground (arith, first) in
      let ordered = (try_from-is_ordered parse now ps (q ∷ qs) valid).1 in
      subst
        (λ z.
          All (λ r. get_channel_fees_msat_for amount z ≤ get_channel_fees_msat_for amount r)
            (q ∷ qs))
        same (omega arith, cheapest_of q qs (is_ordered-NoDearer q qs ordered) fits.1)

  -- The entry that is picked for a validity of 48 hours has that validity, and charges at most what
  -- any other entry with that validity charges, where no product of the amount and a rate leaves
  -- the range of `u64`.
  pub get_48h-least :
      (ps qs : List OpeningFeeParams) (p : OpeningFeeParams)
      → try_from parse now ps ≡ ok qs
      → get_48h_opening_fee_params parse now qs ≡ ok p
      → All (λ (q : OpeningFeeParams). amount * q.proportional < 18446744073709551616) qs
      → (valid_48h parse now p ≡ true)
        × All
            (λ q. get_channel_fees_msat_for amount p ≤ get_channel_fees_msat_for amount q)
            (filterb (valid_48h parse now) qs)
  unfolding get_48h_opening_fee_params
  get_48h-least ps qs p valid picked fits =
      let ordered = (try_from-is_ordered parse now ps qs valid).1 in
      elim (hits (filterb (valid_48h parse now) qs)) [
        | inl nothing ↦ absurd (ground (arith, picked, nothing))
        | inr (q, (rest, e)) ↦
            let same : q ≡ p = ground (arith, picked, e) in
            let found =
              first_hit (valid_48h parse now) qs p rest ordered (e ∙ ap (λ z. z ∷ rest) same) in
            (found.0, valid_48h_cheapest p qs found.1 fits)
      ]
