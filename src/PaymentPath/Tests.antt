-- ===== src/PaymentPath/Tests.antt =====
-- Amounts of `PaymentPath` in `libs/sdk-core/src/models.rs` at a route of three hops.
use breez_sdk.Prelude.{◌≡◌, refl, List, [], ◌∷◌, arith, ℕ, codes}
use breez_sdk.PaymentPath.{
  back_all, PaymentPathEdge, final_hop_amount, first_hop_amount, amount_to_forward,
}
use breez_sdk.PaymentPath.Amounts.{final_hop_amount-first_hop_amount}

abbrev edge : ℕ → ℕ → PaymentPathEdge
edge base rate = record {
  node_id = [];
  short_channel_id = codes "1x1x1";
  channel_delay = 40;
  base_fee_msat = base;
  fee_per_millionth = rate;
}

abbrev route : List PaymentPathEdge
route = edge 7 7 ∷ edge 1000 10 ∷ edge 1 999 ∷ []

asked : first_hop_amount route 1000000 ≡ 1002010
unfolding first_hop_amount
asked = refl

-- A hop that is offered less than its base fee wraps around.
too_little : amount_to_forward 0 (edge 1 0) ≡ 18446744073709
unfolding amount_to_forward
too_little = refl

final_hop_amount-first_hop_amount_example :
    final_hop_amount route (first_hop_amount route 1000000) ≡ 1000000
unfolding back_all
final_hop_amount-first_hop_amount_example =
    final_hop_amount-first_hop_amount route 1000000 (ground arith, (ground arith, tt))
