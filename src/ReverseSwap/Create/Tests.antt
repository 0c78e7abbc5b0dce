-- ===== src/ReverseSwap/Create/Tests.antt =====
-- A reverse swap that is created (`libs/sdk-core/src/swap_out/reverseswap.rs`).
use breez_sdk.Prelude.{arith, ◌≢◌, ◌≡◌, refl, none, some, [], ◌∷◌, ok, codes, true, eq_text}
use breez_sdk.ReverseSwap.Model.{
  update_reverse_swap_status, update_reverse_swap_lockup_txid, FullReverseSwap, get_reverse_swap,
  swap_created, lock_tx_mempool, payment_pending, initial, list_blocking,
}
use breez_sdk.ReverseSwap.{ReverseServices, ReverseState}
use breez_sdk.ReverseSwap.Create.{
  validate_claim_tx_fee, CreateServices, CreateResponse, PrepareResponse, validate_amounts,
  validate_invoice_amount, PayOnchainRequest, Race, polled, timed_out, create_reverse_swap,
  poll_initial_boltz_status_transition,
}
use breez_sdk.ReverseSwap.Create.Prepare.{
  PairInfo, PrepareRequest, send_amount, prepare_onchain_payment, pay_onchain,
}
use breez_sdk.ReverseSwap.Create.Prepare.Passes.{validate_amounts-prepare_onchain_payment}
use breez_sdk.ReverseSwap.Create.Prepare.Blocked.{pay_onchain-blocked}
use breez_sdk.ReverseSwap.Create.Checked.{Checked}
use breez_sdk.ReverseSwap.Create.Outcome.{create_reverse_swap-Checked}

abbrev reverse_services : ReverseServices
reverse_services = record {
  get_lockup_address = λ r. ok (codes "lock");
  address_transactions = λ a. ok [];
  get_payment_status = λ r. some payment_pending;
  get_boltz_status = λ i. ok swap_created;
  current_tip = ok 600;
  create_claim_tx = λ r. ok (codes "c");
  convert_reverse_swap_info = λ r. ok tt;
}

abbrev response : CreateResponse
response = record {
  id = codes "r";
  invoice = codes "i";
  redeem_script = codes "s";
  onchain_amount = 9850;
  timeout_block_height = 700;
  lockup_address = codes "lock";
}

-- The hash of a preimage is the preimage, and a script is its text.
abbrev services_with : (FullReverseSwap → Race) → CreateServices
services_with outcome = record {
  reverse = reverse_services;
  is_address = λ a. true;
  fetch_reverse_routing_node = ok (codes "n");
  create_swap_keys = ok (record { priv_key = codes "k"; preimage = codes "p" });
  create_reverse_swap_on_remote = λ amount hash pk fees node. ok (some response);
  current_height = ok 600;
  sha256 = λ b. b;
  public_key = λ k. some k;
  parse_invoice = λ i. some (some 10000000, codes "p");
  script_from_hex = λ s. some s;
  refund_address = λ s. some (codes "f");
  build_expected_reverse_swap_script = λ hash pk refund timeout. some (codes "s");
  p2wsh = λ s. codes "lock";
  get_service_fee_sat = λ amount percentage. 50;
  claim_base_size = 100;
  race = outcome;
}

abbrev paying_services : CreateServices
paying_services = services_with (λ r. polled (ok tt))

abbrev slow_services : CreateServices
slow_services = services_with (λ r. timed_out)

abbrev payment_request : PayOnchainRequest
payment_request = record {
  recipient_address = codes "mine";
  prepare_res = record {
    sender_amount_sat = 10000;
    recipient_amount_sat = 9600;
    fees_lockup = 100;
    fees_percentage = 5;
    fees_hash = codes "h";
    fees_claim = 250;
    total_fees = 400;
  };
}

abbrev created : FullReverseSwap
created = record {
  id = codes "r";
  created_at_block_height = 600;
  preimage = codes "p";
  private_key = codes "k";
  claim_pubkey = codes "mine";
  timeout_block_height = 700;
  invoice = codes "i";
  redeem_script = codes "s";
  onchain_amount_sat = 9850;
  sat_per_vbyte = none;
  receive_amount_sat = some 9600;
  cache = record { status = initial; lockup_txid = none; claim_txid = none };
}

abbrev no_swaps : ReverseState
no_swaps = record { table = []; subscribed = true; events = []; broadcasts = [] }

polls_on :
    poll_initial_boltz_status_transition (ok swap_created ∷ ok lock_tx_mempool ∷ []) ≡ some (ok tt)
unfolding poll_initial_boltz_status_transition
polls_on = refl

create_reverse_swap-Checked_example : Checked paying_services payment_request created
unfolding create_reverse_swap eq_text get_reverse_swap update_reverse_swap_lockup_txid
    update_reverse_swap_status
create_reverse_swap-Checked_example =
    create_reverse_swap-Checked paying_services payment_request created no_swaps refl

abbrev pair : PairInfo
pair = record {
  min_sat = 1000;
  max_sat = 100000;
  pair_hash = codes "h";
  percentage = 5;
  lockup = 100;
  claim = 200;
  total = none;
}

abbrev send_request : PrepareRequest
send_request = record { amount_sat = 10000; amount_type = send_amount; feerate = 2 }

abbrev prepared : PrepareResponse
prepared = record {
  sender_amount_sat = 10000;
  recipient_amount_sat = 9542;
  fees_lockup = 100;
  fees_percentage = 5;
  fees_hash = codes "h";
  fees_claim = 308;
  total_fees = 458;
}

prepares :
    prepare_onchain_payment paying_services (ok pair) (λ amount percentage. amount) send_request
    ≡ ok prepared
unfolding prepare_onchain_payment validate_claim_tx_fee
prepares = refl

validate_amounts-prepare_onchain_payment_example :
    validate_amounts paying_services prepared created ≡ ok tt
unfolding validate_invoice_amount
validate_amounts-prepare_onchain_payment_example =
    validate_amounts-prepare_onchain_payment paying_services (ok pair) (λ amount percentage. amount)
      send_request prepared created (ground arith) refl (ground arith) (ground arith) prepares refl
      refl

abbrev one_swap : ReverseState
one_swap = record no_swaps { table = created ∷ [] }

pay_onchain-blocked_example :
    ((pay_onchain paying_services (ok pair) payment_request one_swap).1 ≡ one_swap)
    × ((pay_onchain paying_services (ok pair) payment_request one_swap).0 ≢ ok created)
unfolding list_blocking
pay_onchain-blocked_example =
    pay_onchain-blocked paying_services (ok pair) payment_request one_swap created refl
