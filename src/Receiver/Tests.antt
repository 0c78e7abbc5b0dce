-- ===== src/Receiver/Tests.antt =====
-- Concrete payments to be received (`libs/sdk-core/src/receiver.rs`).
use breez_sdk.Prelude.{◌≡◌, refl, ◌<◌, none, some, [], ◌∷◌, ok, err, codes}
use breez_sdk.Prelude.Int.{◌+ℤ◌, pos}
use breez_sdk.Fees.{get_channel_fees_msat_for, valid_for, OpeningFeeParams}
use breez_sdk.Receiver.{
  ReceiveRequest, ReceiveResponse, ReceiverServices, invalid_amount, receive_payment,
}
use breez_sdk.Receiver.Bounds.{FitsRoom, receive_payment-FitsRoom}

abbrev params : OpeningFeeParams
params = record {
  min_msat = 2000000;
  proportional = 4000;
  valid_until = [];
  max_idle_time = 1;
  max_client_to_self_delay = 1;
  promise = [];
}

abbrev services : ReceiverServices
services = record {
  max_receivable_single_payment_msat = ok 1000000;
  node_id = ok (codes "n");
  list_lsps = λ n. ok ((params ∷ []) ∷ []);
  create_invoice = λ r. ok (codes "ln");
  parse_invoice = λ b. some b;
  parse_from_rfc3339 = λ d. some (pos 9000);
  now = pos 100;
}

abbrev request : ReceiveRequest
request = record {
  amount_msat = 5000000;
  description = [];
  preimage = none;
  opening_fee_params = none;
  use_description_hash = none;
  expiry = none;
}

abbrev response : ReceiveResponse
response = record {
  ln_invoice = codes "ln";
  used_fee_params = some params;
  opening_fee_msat = some 2000000;
}

with_channel : receive_payment services request ≡ ok response
unfolding receive_payment valid_for ◌+ℤ◌ get_channel_fees_msat_for
with_channel = refl

receive_payment-FitsRoom_example :
    (0 < request.amount_msat) × FitsRoom request 1000000 (some params) (some 2000000)
receive_payment-FitsRoom_example =
    receive_payment-FitsRoom services request 1000000 response refl with_channel

-- An amount that the fee would use up is refused.
too_small : receive_payment services (record request { amount_msat = 1500000 }) ≡ err invalid_amount
unfolding receive_payment valid_for ◌+ℤ◌ get_channel_fees_msat_for
too_small = refl
