-- ===== src/SwapIn/Tests.antt =====
-- Concrete swaps (`libs/sdk-core/src/swap_in/swap.rs`).
pub mod StatusTests
pub mod CallTests
use breez_sdk.Prelude.{none, some, [], ◌∷◌, codes}
use breez_sdk.Prelude.Int.{pos}
use breez_sdk.Fees.{OpeningFeeParams}
use breez_sdk.SwapIn.Model.{SwapInfo, SwapOutput, SwapChainData, initial, redeemable}

abbrev pub params : OpeningFeeParams
params = record {
  min_msat = 2000;
  proportional = 4000;
  valid_until = codes "t";
  max_idle_time = 10;
  max_client_to_self_delay = 10;
  promise = [];
}

abbrev pub fresh_swap : SwapInfo
fresh_swap = record {
  bitcoin_address = codes "bc1";
  created_at = pos 1000;
  lock_height = pos 288;
  payment_hash = 7 ∷ [];
  preimage = 8 ∷ [];
  private_key = [];
  public_key = [];
  swapper_public_key = [];
  script = [];
  bolt11 = none;
  paid_msat = 0;
  total_incoming_txs = 0;
  confirmed_sats = 0;
  unconfirmed_sats = 0;
  status = initial;
  refund_tx_ids = [];
  unconfirmed_tx_ids = [];
  confirmed_tx_ids = [];
  min_allowed_deposit = pos 1000;
  max_allowed_deposit = pos 50000;
  max_swapper_payable = pos 90000;
  last_redeem_error = none;
  channel_opening_fees = some params;
  confirmed_at = none;
}

-- One deposit, in a block.
abbrev pub deposit : SwapOutput
deposit = record {
  address = codes "bc1";
  amount_sat = 10000;
  tx_id = codes "a";
  output_index = 0;
  confirmed_at_height = some 100;
  block_hash = none;
  spend = none;
}

abbrev pub pending : SwapOutput
pending = record deposit { tx_id = codes "b"; confirmed_at_height = none }

abbrev pub paid_swap : SwapInfo
paid_swap = record fresh_swap { paid_msat = 10000000 }

abbrev pub confirmed_swap : SwapInfo
confirmed_swap = record fresh_swap {
  status = redeemable;
  total_incoming_txs = 1;
  confirmed_sats = 10000;
  confirmed_tx_ids = codes "a" ∷ [];
  confirmed_at = some 100;
}
