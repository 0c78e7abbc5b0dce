-- ===== src/SwapIn/Payout/Heights.antt =====
-- The order by height in which `unpaid_utxos` of `libs/sdk-core/src/swap_in/swap.rs` goes through the outputs.
use mathlib.Core.Path.{subst}
use breez_sdk.Prelude.{
  ◌≡◌, refl, ap, ◌∙◌, ℕ, ◌+◌, inl, inr, true, false, none, some, Option, List, [], ◌∷◌, arith,
  Member, All, Bool-cases, if◌then◌else◌,
}
use breez_sdk.SwapIn.Model.{SwapOutput}
use breez_sdk.SwapIn.Payout.{height_leb, insert_by_height, sort_by_height}

abbrev pub sum_of : (SwapOutput → ℕ) → List SwapOutput → ℕ
sum_of w [] = 0
sum_of w (o ∷ os) = w o + sum_of w os

abbrev pub AtLeast : SwapOutput → List SwapOutput → Type 0
AtLeast p os =
    All (λ (q : SwapOutput). height_leb p.confirmed_at_height q.confirmed_at_height ≡ true) os

abbrev pub Ascending : List SwapOutput → Type 0
Ascending [] = Unit
Ascending (o ∷ os) = AtLeast o os × Ascending os

height_leb-total : (a b : Option ℕ) → height_leb a b ≡ false → height_leb b a ≡ true
unfolding height_leb
height_leb-total none b h = ground (arith, h)
height_leb-total (some a) none h = refl
height_leb-total (some a) (some b) h = ground (arith, h)

height_leb_trans :
    (a b c : Option ℕ) → height_leb a b ≡ true → height_leb b c ≡ true → height_leb a c ≡ true
unfolding height_leb
height_leb_trans none b c h k = refl
height_leb_trans (some a) none c h k = ground (arith, h)
height_leb_trans (some a) (some b) none h k = ground (arith, k)
height_leb_trans (some a) (some b) (some c) h k = ground (arith, h, k)

pub height_leb_refl : (a : Option ℕ) → height_leb a a ≡ true
unfolding height_leb
height_leb_refl none = refl
height_leb_refl (some a) = ground arith

AtLeast-trans :
    (p o : SwapOutput) (os : List SwapOutput)
    → height_leb p.confirmed_at_height o.confirmed_at_height ≡ true
    → AtLeast o os
    → AtLeast p os
AtLeast-trans p o [] h least = tt
AtLeast-trans p o (q ∷ os) h (first, least) = (
  height_leb_trans p.confirmed_at_height o.confirmed_at_height q.confirmed_at_height h first,
  AtLeast-trans p o os h least,
)

insert-AtLeast :
    (p o : SwapOutput) (os : List SwapOutput)
    → height_leb p.confirmed_at_height o.confirmed_at_height ≡ true
    → AtLeast p os
    → AtLeast p (insert_by_height o os)
unfolding insert_by_height
insert-AtLeast p o [] h least = (h, tt)
insert-AtLeast p o (q ∷ os) h (first, least) =
    elim (Bool-cases (height_leb o.confirmed_at_height q.confirmed_at_height)) [
      | inl here ↦ rw here (h, (first, least))
      | inr later ↦ rw later (first, insert-AtLeast p o os h least)
    ]

insert-Ascending :
    (o : SwapOutput) (os : List SwapOutput) → Ascending os → Ascending (insert_by_height o os)
unfolding insert_by_height
insert-Ascending o [] sorted = (tt, tt)
insert-Ascending o (q ∷ os) (least, sorted) =
    elim (Bool-cases (height_leb o.confirmed_at_height q.confirmed_at_height)) [
      | inl here ↦ rw here ((here, AtLeast-trans o q os here least), (least, sorted))
      | inr later ↦ rw later (
        insert-AtLeast q o os (height_leb-total o.confirmed_at_height q.confirmed_at_height later)
            least,
        insert-Ascending o os sorted,
      )
    ]

pub sort-Ascending : (os : List SwapOutput) → Ascending (sort_by_height os)
unfolding sort_by_height
sort-Ascending [] = tt
sort-Ascending (o ∷ os) = insert-Ascending o (sort_by_height os) (sort-Ascending os)

sum_of-insert :
    (w : SwapOutput → ℕ) (o : SwapOutput) (os : List SwapOutput)
    → sum_of w (insert_by_height o os) ≡ w o + sum_of w os
unfolding insert_by_height
sum_of-insert w o [] = refl
sum_of-insert w o (q ∷ os) =
    elim (Bool-cases (height_leb o.confirmed_at_height q.confirmed_at_height)) [
      | inl here ↦ rw here refl
      | inr later ↦ rw later (omega (arith, sum_of-insert w o os))
    ]

pub sum_of-sort :
    (w : SwapOutput → ℕ) (os : List SwapOutput) → sum_of w (sort_by_height os) ≡ sum_of w os
unfolding sort_by_height
sum_of-sort w [] = refl
sum_of-sort w (o ∷ os) = omega (arith, sum_of-insert w o (sort_by_height os), sum_of-sort w os)

insert-Member :
    (u o : SwapOutput) (os : List SwapOutput) → Member u (o ∷ os) → Member u (insert_by_height o os)
unfolding insert_by_height
insert-Member u o [] m = m
insert-Member u o (q ∷ os) m =
    elim (Bool-cases (height_leb o.confirmed_at_height q.confirmed_at_height)) [
      | inl here ↦ rw here m
      | inr later ↦ rw later (elim m [
        | inl same ↦ inr (insert-Member u o os (inl same))
        | inr (inl same) ↦ inl same
        | inr (inr rest) ↦ inr (insert-Member u o os (inr rest))
      ])
    ]

Member-insert :
    (u o : SwapOutput) (os : List SwapOutput) → Member u (insert_by_height o os) → Member u (o ∷ os)
unfolding insert_by_height
Member-insert u o [] m = m
Member-insert u o (q ∷ os) m =
    elim (Bool-cases (height_leb o.confirmed_at_height q.confirmed_at_height)) [
      | inl here ↦
          subst (λ b. Member u (if b then o ∷ (q ∷ os) else q ∷ insert_by_height o os)) here m
      | inr later ↦
          elim (subst (λ b. Member u (if b then o ∷ (q ∷ os) else q ∷ insert_by_height o os)) later
            m) [
              | inl same ↦ inr (inl same)
              | inr rest ↦ elim (Member-insert u o os rest) [
                | inl same ↦ inl same
                | inr more ↦ inr (inr more)
              ]
            ]
    ]

pub sort-Member :
    (u : SwapOutput) (os : List SwapOutput) → Member u os → Member u (sort_by_height os)
unfolding sort_by_height
sort-Member u [] m = m
sort-Member u (o ∷ os) (inl same) = insert-Member u o (sort_by_height os) (inl same)
sort-Member u (o ∷ os) (inr m) = insert-Member u o (sort_by_height os) (inr (sort-Member u os m))

pub Member-sort :
    (u : SwapOutput) (os : List SwapOutput) → Member u (sort_by_height os) → Member u os
unfolding sort_by_height
Member-sort u [] m = m
Member-sort u (o ∷ os) m = elim (Member-insert u o (sort_by_height os) m) [
  | inl same ↦ inl same
  | inr rest ↦ inr (Member-sort u os rest)
]

pub AtLeast-Member :
    (p u : SwapOutput) (os : List SwapOutput)
    → AtLeast p os
    → Member u os
    → height_leb p.confirmed_at_height u.confirmed_at_height ≡ true
AtLeast-Member p u [] least m = absurd m
AtLeast-Member p u (q ∷ os) (first, least) (inl same) =
    ap (λ (z : SwapOutput). height_leb p.confirmed_at_height z.confirmed_at_height) same ∙ first
AtLeast-Member p u (q ∷ os) (first, least) (inr m) = AtLeast-Member p u os least m
