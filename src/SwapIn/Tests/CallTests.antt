-- ===== src/SwapIn/Tests/CallTests.antt =====
-- Refreshing, redeeming and creating concrete swaps (`libs/sdk-core/src/swap_in/swap.rs`).
use breez_sdk.SwapIn.Equality.{SwapStatus-discrete, ℤ-discrete}
use native.Mathlib.Decide.{ℕ_discrete}
use breez_sdk.Prelude.{
  ◌≡◌, refl, ℕ, ◌/◌, true, false, Option, none, some, List, [], ◌∷◌, Text, Bytes, Result, ok, err,
  codes, eq_text,
}
use breez_sdk.Prelude.Int.{pos, ◌≤ℤ◌}
use breez_sdk.Prelude.Words.{as_u32}
use breez_sdk.Fees.{valid_for, OpeningFeeParams, get_channel_fees_msat_for}
use breez_sdk.SwapIn.Model.{status_code, min_height, SwapInfo, chain_info, refundable}
use breez_sdk.SwapIn.Onchain.{OnchainTx}
use breez_sdk.SwapIn.Payout.{unpaid_utxos, calculate_status, SwapAddressType, taproot}
use breez_sdk.SwapIn.Storage.{
  update_swap_max_allowed_deposit, update_swap_fees, set_swap_status, get_swap_chain_data, SwapRow,
  select_swap, get_swap_info_by_address, list_swaps,
}
use breez_sdk.SwapIn.Refresh.{
  SwapError, SwapState, payment_failed, generic, service_connectivity, refresh_swap,
}
use breez_sdk.SwapIn.Refresh.Stored.{refresh_swap-stored}
use breez_sdk.SwapIn.PaymentRequest.{
  PaymentServices, Invoice, FetchBolt11Result, ReceivePaymentResponse, get_payment_request,
}
use breez_sdk.SwapIn.PaymentRequest.Reuse.{NewRequest, get_payment_request-fee}
use breez_sdk.SwapIn.Redeem.{SwapServices, create_swap, list_unused}
use breez_sdk.SwapIn.Redeem.Recorded.{create_swap-reuse}
use breez_sdk.SwapIn.Tests.{params, fresh_swap, confirmed_swap, deposit}

abbrev address_of : Text → Result SwapError SwapAddressType
address_of a = ok taproot

abbrev offline : Text → Result SwapError (List OnchainTx)
offline a = err (service_connectivity [])

abbrev no_payment : Bytes → Option ℕ
no_payment hash = none

abbrev stored_row : SwapRow
stored_row = record { info = confirmed_swap; chain_data = some (deposit ∷ []) }

abbrev before : SwapState
before = record { table = stored_row ∷ []; current_tip = 0; subscribed = true; events = [] }

abbrev late_swap : SwapInfo
late_swap = record confirmed_swap { status = refundable }

abbrev late_state : SwapState
late_state = record before {
  table = record stored_row { info = late_swap } ∷ [];
  events = late_swap ∷ [];
}

-- A refresh without the chain service, after the swapper's window, marks the swap as refundable.
refresh_late :
    refresh_swap address_of offline no_payment confirmed_swap 600 before
    ≡ (ok late_swap, late_state)
unfolding refresh_swap ℕ_discrete ℤ-discrete SwapStatus-discrete calculate_status
    get_swap_chain_data eq_text min_height as_u32 unpaid_utxos set_swap_status
refresh_late = refl

refresh_swap-stored_example :
    get_swap_info_by_address (codes "bc1") late_state.table ≡ some late_swap
unfolding chain_info select_swap eq_text
refresh_swap-stored_example =
    refresh_swap-stored address_of offline no_payment confirmed_swap late_swap (some (deposit ∷ []))
      600 before late_state (stored_row, (refl, refl, refl)) refl refresh_late

-- A node with one invoice, which expired long ago.
abbrev old_invoice : Invoice
old_invoice = record { expires_at = some 5000; amount_milli_satoshis = some 10000000 }

abbrev old_result : FetchBolt11Result
old_result = record { fetched_bolt11 = codes "ln1"; payer_amount_msat = none }

abbrev new_response : ReceivePaymentResponse
new_response = record { response_bolt11 = codes "ln2"; response_fee_params = some params }

abbrev node : PaymentServices
node = record {
  State = Unit {0};
  parse_invoice = λ b. ok old_invoice;
  parse_from_rfc3339 = λ d. some (pos 9000000);
  now = pos 8000000;
  fetch_bolt11 = λ h st. (ok none, st);
  delete_invoice = λ b st. (ok tt, st);
  open_channel_needed = λ n st. ok false;
  receive_payment = λ r st. (ok new_response, st);
}

new_request : get_payment_request node confirmed_swap 10 tt ≡ (ok (codes "ln2", true), tt)
unfolding get_payment_request valid_for get_channel_fees_msat_for
new_request = refl

get_payment_request-fee_example : NewRequest node confirmed_swap 10 (codes "ln2") tt
get_payment_request-fee_example =
    get_payment_request-fee node confirmed_swap 10 (codes "ln2") tt tt new_request

abbrev services : SwapServices
services = record {
  payments = node;
  parse_address = address_of;
  address_transactions = offline;
  get_completed_payment_by_hash = no_payment;
  chain_tip = ok 200;
  clock = 5000;
  max_receivable_msat = 70000000;
  payout_segwit = λ r w. (ok tt, w);
  payout_taproot = λ s r w. (err (payment_failed (codes "no")), w);
  create_taproot_swap = λ p w. (err (generic []), w);
}

abbrev unused_state : SwapState
unused_state = record before { table = record { info = fresh_swap; chain_data = none } ∷ [] }

abbrev new_params : OpeningFeeParams
new_params = record params { min_msat = 3000 }

abbrev handed_out : SwapInfo
handed_out = record fresh_swap { max_allowed_deposit = pos 70000 }

abbrev reused_state : SwapState
reused_state = record before {
  table =
      record {
        info = record handed_out { channel_opening_fees = some new_params };
        chain_data = none;
      }
      ∷ [];
}

reuse : create_swap services new_params unused_state tt ≡ (ok handed_out, reused_state, tt)
unfolding create_swap list_swaps status_code update_swap_fees update_swap_max_allowed_deposit
    eq_text
reuse = refl

create_swap-reuse_example :
    (get_swap_info_by_address (codes "bc1") reused_state.table
      ≡ some (record handed_out { channel_opening_fees = some new_params }))
    × (handed_out.channel_opening_fees ≡ fresh_swap.channel_opening_fees)
    × (handed_out.max_allowed_deposit ≤ℤ fresh_swap.max_swapper_payable)
    × (handed_out.max_allowed_deposit ≤ℤ pos (70000000 / 1000))
unfolding get_swap_info_by_address list_unused list_swaps status_code eq_text
create_swap-reuse_example =
    create_swap-reuse services new_params fresh_swap handed_out unused_state reused_state tt tt refl
      refl reuse
