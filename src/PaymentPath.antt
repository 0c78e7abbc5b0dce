-- ===== src/PaymentPath.antt =====
-- `PaymentPath` and `PaymentPathEdge` of `libs/sdk-core/src/models.rs`: the amounts along a route whose
-- hops take fees. The arithmetic is on 64 bits and wraps around in a release build.
pub mod Amounts
mod Tests
use breez_sdk.Prelude.{
  ℕ, suc, ◌+◌, ◌-◌, ◌*◌, ◌/◌, ◌%◌, Bool, List, [], ◌∷◌, Text, Bytes, if◌then◌else◌, ◌==◌,
}
use breez_sdk.Prelude.Words.{wrap_u64, sub_u64}

pub record PaymentPathEdge : Type 0 where
  pub node_id : Bytes
  pub short_channel_id : Text
  pub channel_delay : ℕ
  pub base_fee_msat : ℕ
  pub fee_per_millionth : ℕ

-- `u64::div_ceil`
unfoldable pub divide_ceil : ℕ → ℕ → ℕ
divide_ceil dividend factor =
    if dividend % factor == 0 then dividend / factor else suc (dividend / factor)

unfoldable pub amount_to_forward : ℕ → PaymentPathEdge → ℕ
unfolding divide_ceil
amount_to_forward in_amount e =
    divide_ceil (wrap_u64 (1000000 * sub_u64 in_amount e.base_fee_msat))
      (wrap_u64 (1000000 + e.fee_per_millionth))

unfoldable pub amount_from_forward : ℕ → PaymentPathEdge → ℕ
amount_from_forward forward e =
    wrap_u64
      (e.base_fee_msat + wrap_u64 (forward * wrap_u64 (1000000 + e.fee_per_millionth)) / 1000000)

-- `iter().skip(1)`
abbrev pub skip_one : List PaymentPathEdge → List PaymentPathEdge
skip_one [] = []
skip_one (e ∷ es) = es

-- The loops of the two methods: along the hops, and back.
unfoldable pub forward_all : List PaymentPathEdge → ℕ → ℕ
unfolding amount_to_forward
forward_all [] amount = amount
forward_all (h ∷ hops) amount = forward_all hops (amount_to_forward amount h)

unfoldable pub back_all : List PaymentPathEdge → ℕ → ℕ
unfolding amount_from_forward
back_all [] amount = amount
back_all (h ∷ hops) amount = amount_from_forward (back_all hops amount) h

unfoldable pub final_hop_amount : List PaymentPathEdge → ℕ → ℕ
unfolding forward_all
final_hop_amount edges first_hop_amount = forward_all (skip_one edges) first_hop_amount

unfoldable pub first_hop_amount : List PaymentPathEdge → ℕ → ℕ
unfolding back_all
first_hop_amount edges final_amount = back_all (skip_one edges) final_amount
