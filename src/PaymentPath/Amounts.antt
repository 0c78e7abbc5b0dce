-- ===== src/PaymentPath/Amounts.antt =====
-- The amounts of `PaymentPath` in `libs/sdk-core/src/models.rs` fit each other: what the first hop is
-- offered for an amount arrives as that amount.
use native.Mathlib.Nat.{div-add-mod', mod-lt, mod-eq_of_lt, mul-le-mul_right}
use breez_sdk.Prelude.{
  refl, ◌≡◌, ◌∙◌, ap, ℕ, suc, ◌+◌, ◌*◌, ◌/◌, ◌%◌, ◌≤◌, ◌<◌, List, [], ◌∷◌, arith, Bool-cases, inl,
  inr, leb, leb→le, ◌==◌,
}
use breez_sdk.Prelude.Words.{wrap_u64, sub_u64}
use breez_sdk.PaymentPath.{
  PaymentPathEdge, divide_ceil, amount_to_forward, amount_from_forward, forward_all, back_all,
  skip_one, final_hop_amount, first_hop_amount,
}

le_of_mul-lt : (x y m : ℕ) → x * m < y * m + m → x ≤ y
le_of_mul-lt x y m h = elim (Bool-cases (leb x y)) [
  | inl below ↦ leb→le x y below
  | inr above ↦
      let gap : suc y ≤ x = ground (arith, above) in
      let product : suc y * m ≤ x * m = mul-le-mul_right m gap in absurd (omega (arith, h, product))
]

-- A multiple of `m` is the one that the quotient, rounded up, is of.
divide_ceil-multiple : (a f m : ℕ) → 0 < m → a ≤ f * m → f * m < a + m → divide_ceil a m ≡ f
unfolding divide_ceil
divide_ceil-multiple a f m pos above below =
    let split = div-add-mod' a m in
    let small = mod-lt a pos in
    elim (Bool-cases (a % m == 0)) [
      | inl even ↦
          let none_left : a % m ≡ 0 = ground (arith, even) in
          let le : a / m ≤ f = le_of_mul-lt (a / m) f m (omega (arith, split, above, pos)) in
          let ge : f ≤ a / m = le_of_mul-lt f (a / m) m (omega (arith, split, none_left, below)) in
          rw even (omega (arith, le, ge))
      | inr odd ↦
          let some_left : 0 < a % m = ground (arith, odd) in
          let le : f ≤ suc (a / m) =
            le_of_mul-lt f (suc (a / m)) m (omega (arith, split, small, below)) in
          let gt : suc (a / m) ≤ f = elim (Bool-cases (leb f (a / m))) [
            | inr more ↦ ground (arith, more)
            | inl at_most ↦
                let product : f * m ≤ a / m * m = mul-le-mul_right m (leb→le f (a / m) at_most) in
                absurd (omega (arith, split, some_left, above, product))
          ] in
          rw odd (omega (arith, le, gt))
    ]

-- No step leaves 64 bits.
abbrev pub FitsHop : ℕ → PaymentPathEdge → Type 0
FitsHop forward e =
    e.base_fee_msat + forward * (1000000 + e.fee_per_millionth) + 1000000 + e.fee_per_millionth
    < 18446744073709551616

-- What a hop adds to what it forwards, without its base fee.
abbrev scaled : ℕ → PaymentPathEdge → ℕ
scaled forward e = forward * (1000000 + e.fee_per_millionth) / 1000000

amount_from_forward-fits :
    (forward : ℕ) (e : PaymentPathEdge)
    → FitsHop forward e
    → amount_from_forward forward e ≡ e.base_fee_msat + scaled forward e
unfolding amount_from_forward
amount_from_forward-fits forward e fits =
    let rate : wrap_u64 (1000000 + e.fee_per_millionth) ≡ 1000000 + e.fee_per_millionth =
      mod-eq_of_lt (omega (arith, fits)) in
    let product : wrap_u64 (forward * (1000000 + e.fee_per_millionth))
        ≡ forward * (1000000 + e.fee_per_millionth) =
      mod-eq_of_lt (omega (arith, fits)) in
    let total : wrap_u64 (e.base_fee_msat + scaled forward e) ≡ e.base_fee_msat + scaled forward e =
      mod-eq_of_lt (omega (arith, fits)) in
    rw (rate, product) total

-- A hop that is offered what `amount_from_forward` says forwards the amount that was meant.
amount_to_forward-from :
    (forward : ℕ) (e : PaymentPathEdge)
    → FitsHop forward e
    → amount_to_forward (amount_from_forward forward e) e ≡ forward
unfolding amount_to_forward
amount_to_forward-from forward e fits =
    let offered = amount_from_forward-fits forward e fits in
    let rate : wrap_u64 (1000000 + e.fee_per_millionth) ≡ 1000000 + e.fee_per_millionth =
      mod-eq_of_lt (omega (arith, fits)) in
    let rest : sub_u64 (e.base_fee_msat + scaled forward e) e.base_fee_msat ≡ scaled forward e =
      omega (arith, fits) in
    let product : wrap_u64 (1000000 * scaled forward e) ≡ 1000000 * scaled forward e =
      mod-eq_of_lt (omega (arith, fits)) in
    rw (offered, rest, product, rate)
      (divide_ceil-multiple (1000000 * scaled forward e) forward (1000000 + e.fee_per_millionth)
        (omega arith) (omega arith) (omega arith))

-- No hop's step leaves 64 bits when `amount` is to arrive.
abbrev pub FitsAll : List PaymentPathEdge → ℕ → Type 0
FitsAll [] amount = Unit
FitsAll (h ∷ hops) amount = FitsHop (back_all hops amount) h × FitsAll hops amount

forward_all-back_all :
    (hops : List PaymentPathEdge) (amount : ℕ)
    → FitsAll hops amount
    → forward_all hops (back_all hops amount) ≡ amount
unfolding forward_all back_all
forward_all-back_all [] amount fits = refl
forward_all-back_all (h ∷ hops) amount fits =
    ap (forward_all hops) (amount_to_forward-from (back_all hops amount) h fits.0)
    ∙ forward_all-back_all hops amount fits.1

-- What `first_hop_amount` asks of the first hop arrives as the final amount, to the millisatoshi.
pub final_hop_amount-first_hop_amount :
    (edges : List PaymentPathEdge) (amount : ℕ)
    → FitsAll (skip_one edges) amount
    → final_hop_amount edges (first_hop_amount edges amount) ≡ amount
unfolding final_hop_amount first_hop_amount
final_hop_amount-first_hop_amount edges amount fits =
    forward_all-back_all (skip_one edges) amount fits
