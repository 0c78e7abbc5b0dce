-- ===== src/SwapIn/Payout/Paid.antt =====
-- Which outputs `unpaid_utxos` of `libs/sdk-core/src/swap_in/swap.rs` takes for paid, without its order: by
-- the amounts of the outputs that come before in height.
use breez_sdk.SwapIn.Payout.Heights.{
  Ascending, AtLeast, AtLeast-Member, Member-sort, height_leb_refl, sort-Ascending, sort-Member,
  sum_of, sum_of-sort,
}
use mathlib.Core.Path.{subst}
use breez_sdk.Prelude.{
  ◌≡◌, refl, sym, ap, ◌∙◌, ℕ, ◌+◌, ◌*◌, ◌≤◌, ◌<◌, inl, inr, true, false, Option, List, [], ◌∷◌,
  arith, Member, Bool-cases, leb, if◌then◌else◌,
}
use breez_sdk.Prelude.Words.{wrap_u64}
use breez_sdk.SwapIn.Model.{SwapOutput}
use breez_sdk.SwapIn.Payout.{height_leb, sort_by_height, take_paid}

abbrev pub msat_of : SwapOutput → ℕ
msat_of o = o.amount_sat * 1000

-- What an output counts for the sum below a height, or up to it.
abbrev pub msat_below : Option ℕ → SwapOutput → ℕ
msat_below h o = if height_leb h o.confirmed_at_height then 0 else msat_of o

abbrev pub msat_upto : Option ℕ → SwapOutput → ℕ
msat_upto h o = if height_leb o.confirmed_at_height h then msat_of o else 0

sum_of-below :
    (u : SwapOutput) (p : SwapOutput) (os : List SwapOutput)
    → u ≡ p
    → AtLeast p os
    → sum_of (msat_below u.confirmed_at_height) os ≡ 0
sum_of-below u p [] same least = refl
sum_of-below u p (q ∷ os) same (first, least) =
    let at : height_leb u.confirmed_at_height q.confirmed_at_height ≡ true =
      subst (λ (z : SwapOutput). height_leb z.confirmed_at_height q.confirmed_at_height ≡ true)
        (sym same) first in
    ground (arith, at, sum_of-below u p os same least)

wraps : (s a : ℕ) → s + a < 18446744073709551616 → wrap_u64 (s + wrap_u64 a) ≡ s + a
wraps s a h = omega (arith, h)

-- An output that is taken: those below it do not cover what was paid.
taken-below :
    (paid s : ℕ) (os : List SwapOutput) (u : SwapOutput)
    → Ascending os
    → s + sum_of msat_of os < 18446744073709551616
    → Member u (take_paid paid s os)
    → Member u os × (s + sum_of (msat_below u.confirmed_at_height) os < paid)
unfolding take_paid
taken-below paid s [] u sorted bound m = absurd m
taken-below paid s (p ∷ os) u (least, sorted) bound m = elim (Bool-cases (leb paid s)) [
  | inl over ↦ absurd (
      subst
        (λ b.
          Member u (if b then [] else p ∷ take_paid paid (wrap_u64 (s + wrap_u64 (msat_of p))) os))
        over m)
  | inr more ↦
      let step = wraps s (msat_of p) (omega (arith, bound)) in
      elim (subst
        (λ b.
          Member u (if b then [] else p ∷ take_paid paid (wrap_u64 (s + wrap_u64 (msat_of p))) os))
        more m) [
          | inl same ↦
              let own : height_leb u.confirmed_at_height p.confirmed_at_height ≡ true =
                ap (λ (z : SwapOutput). height_leb u.confirmed_at_height z.confirmed_at_height)
                  (sym same)
                ∙ height_leb_refl u.confirmed_at_height in
              (inl same, ground (arith, more, own, sum_of-below u p os same least))
          | inr rest ↦
              let (at, under) =
                taken-below paid (s + msat_of p) os u sorted (omega (arith, bound))
                  (subst (λ n. Member u (take_paid paid n os)) step rest) in
              (inr at, ground (arith, under))
        ]
]

own_upto : (u p : SwapOutput) → u ≡ p → msat_upto u.confirmed_at_height p ≡ msat_of u
own_upto u p same =
    ap (λ (z : SwapOutput). msat_upto u.confirmed_at_height z) (sym same)
    ∙ rw (height_leb_refl u.confirmed_at_height) refl

Member-upto :
    (u : SwapOutput) (os : List SwapOutput)
    → Member u os
    → msat_of u ≤ sum_of (msat_upto u.confirmed_at_height) os
Member-upto u [] m = absurd m
Member-upto u (q ∷ os) (inl same) = omega (arith, own_upto u q same)
Member-upto u (q ∷ os) (inr m) = omega (arith, Member-upto u os m)

-- The other way: where those up to its height, itself left out, do not cover it.
below-taken :
    (paid s : ℕ) (os : List SwapOutput) (u : SwapOutput)
    → Ascending os
    → s + sum_of msat_of os < 18446744073709551616
    → Member u os
    → s + sum_of (msat_upto u.confirmed_at_height) os < paid + msat_of u
    → Member u (take_paid paid s os)
unfolding take_paid
below-taken paid s [] u sorted bound m under = absurd m
below-taken paid s (p ∷ os) u (least, sorted) bound (inl same) under =
    let more : leb paid s ≡ false = ground (arith, under, own_upto u p same) in rw more (inl same)
below-taken paid s (p ∷ os) u (least, sorted) bound (inr m) under =
    let lower = AtLeast-Member p u os least m in
    let counted : msat_upto u.confirmed_at_height p ≡ msat_of p = rw lower refl in
    let more : leb paid s ≡ false = ground (arith, under, counted, Member-upto u os m) in
    let step = wraps s (msat_of p) (omega (arith, bound)) in
    rw more (
      inr (
        subst (λ n. Member u (take_paid paid n os)) (sym step)
          (below-taken paid (s + msat_of p) os u sorted (omega (arith, bound)) m
            (omega (arith, under, counted)))))

module _ (paid : ℕ) (outputs : List SwapOutput)
    (bound : sum_of msat_of outputs < 18446744073709551616) where
  sorted_bound : 0 + sum_of msat_of (sort_by_height outputs) < 18446744073709551616
  sorted_bound = omega (arith, bound, sum_of-sort msat_of outputs)

  -- An output that counts as paid is one of the outputs, and those below it do not cover what was paid.
  pub paid-below :
      (u : SwapOutput)
      → Member u (take_paid paid 0 (sort_by_height outputs))
      → Member u outputs × (sum_of (msat_below u.confirmed_at_height) outputs < paid)
  paid-below u m =
      let (at, under) =
        taken-below paid 0 (sort_by_height outputs) u (sort-Ascending outputs) sorted_bound m in
      (
        Member-sort u outputs at,
        omega (arith, under, sum_of-sort (msat_below u.confirmed_at_height) outputs),
      )

  -- An output counts as paid where those up to its height, itself left out, do not cover what was paid.
  pub below-paid :
      (u : SwapOutput)
      → Member u outputs
      → sum_of (msat_upto u.confirmed_at_height) outputs < paid + msat_of u
      → Member u (take_paid paid 0 (sort_by_height outputs))
  below-paid u m under =
      below-taken paid 0 (sort_by_height outputs) u (sort-Ascending outputs) sorted_bound
        (sort-Member u outputs m)
        (omega (arith, under, sum_of-sort (msat_upto u.confirmed_at_height) outputs))
