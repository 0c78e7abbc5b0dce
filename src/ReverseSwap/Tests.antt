-- ===== src/ReverseSwap/Tests.antt =====
-- A concrete reverse swap (`libs/sdk-core/src/swap_out/reverseswap.rs`).
use breez_sdk.Prelude.{◌≡◌, refl, ◌<◌, true, none, some, [], ◌∷◌, ok, codes, eq_text}
use breez_sdk.SwapIn.Onchain.{OnchainTx, Vout}
use breez_sdk.ReverseSwap.Model.{
  in_progress, cancelled, completed_seen, completed_confirmed, payment_complete, FullReverseSwap,
  get_reverse_swap, swap_created,
}
use breez_sdk.ReverseSwap.{
  claim_tx_status, tx_unknown, ReverseServices, ReverseState, get_status_update_for_monitored,
  claim_one, get_lockup_tx, get_claim_tx,
}
use breez_sdk.ReverseSwap.Status.{progress, status_update-progress}
use breez_sdk.ReverseSwap.Claims.{claim_one-forgets}

abbrev seen : FullReverseSwap
seen = record {
  id = codes "r";
  created_at_block_height = 90;
  preimage = [];
  private_key = [];
  claim_pubkey = codes "mine";
  timeout_block_height = 500;
  invoice = [];
  redeem_script = [];
  onchain_amount_sat = 7000;
  sat_per_vbyte = none;
  receive_amount_sat = some 6000;
  cache = record {
    status = completed_seen;
    lockup_txid = some (codes "l");
    claim_txid = some (codes "c");
  };
}

abbrev paying : FullReverseSwap
paying = record seen {
  cache = record { status = in_progress; lockup_txid = none; claim_txid = none };
}

abbrev mine : Vout
mine = record {
  scriptpubkey = [];
  scriptpubkey_asm = [];
  scriptpubkey_type = [];
  scriptpubkey_address = codes "mine";
  value = 6000;
}

abbrev lock_output : Vout
lock_output = record mine { scriptpubkey_address = codes "lock"; value = 7000 }

abbrev claim_transaction : OnchainTx
claim_transaction = record {
  txid = codes "c";
  version = 2;
  locktime = 0;
  vin =
      record {
        vin_txid = codes "l";
        vout_index = 0;
        prevout = lock_output;
        scriptsig = [];
        scriptsig_asm = [];
        witness = none;
        is_coinbase = true;
        sequence = 0;
      }
      ∷ [];
  vout = mine ∷ [];
  size = 1;
  weight = 1;
  fee = 1;
  tx_status = record {
    confirmed = true;
    block_height = some 400;
    status_block_hash = none;
    block_time = none;
  };
}

abbrev services : ReverseServices
services = record {
  get_lockup_address = λ r. ok (codes "lock");
  address_transactions = λ a. ok (claim_transaction ∷ []);
  get_payment_status = λ r. some payment_complete;
  get_boltz_status = λ i. ok swap_created;
  current_tip = ok 600;
  create_claim_tx = λ r. ok (codes "c");
  convert_reverse_swap_info = λ r. ok tt;
}

abbrev before : ReverseState
before = record { table = seen ∷ []; subscribed = true; events = []; broadcasts = [] }

timed_out : get_status_update_for_monitored services paying tx_unknown ≡ ok (some cancelled)
unfolding get_status_update_for_monitored
timed_out = refl

status_update-progress_example : progress in_progress < progress cancelled
status_update-progress_example =
    status_update-progress services paying tx_unknown cancelled timed_out

claim_one-forgets_example :
    get_reverse_swap (codes "r") (claim_one services seen before).1.table
    ≡ some (record seen {
      cache = record { status = completed_confirmed; lockup_txid = none; claim_txid = none };
    })
unfolding get_reverse_swap eq_text get_lockup_tx get_claim_tx claim_tx_status
claim_one-forgets_example =
    claim_one-forgets services seen (codes "l") (codes "c") none claim_transaction before refl refl
      refl refl refl refl
