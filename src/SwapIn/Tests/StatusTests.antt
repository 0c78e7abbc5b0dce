-- ===== src/SwapIn/Tests/StatusTests.antt =====
-- The status of concrete swaps, and what is due on them (`libs/sdk-core/src/swap_in/swap.rs`).
use mathlib.Core.Path.{subst}
use breez_sdk.Prelude.{
  ◌≡◌, refl, ◌≤◌, ◌<◌, inl, inr, true, false, ◌&&◌, none, some, [], ◌∷◌, arith, codes, is_some,
  Member, eq_text, sym, ◌*◌, ◌+◌,
}
use breez_sdk.Prelude.Words.{wrap_u64, as_u32, as_u64}
use breez_sdk.SwapIn.Model.{
  SwapOutput, SwapChainData, redeemable, refundable, completed, utxos, is_utxo, confirmed_utxos,
  min_height,
}
use breez_sdk.SwapIn.Onchain.{OnchainTx, Vout, onchain_outputs}
use breez_sdk.SwapIn.Onchain.Outputs.{
  output_at, has_spend, is_paid, is_spent, onchain_outputs-exact,
}
use breez_sdk.SwapIn.Payout.{
  segwit, taproot, payout_blocks_left, take_paid, sort_by_height, height_leb, unpaid_utxos,
  refundable_utxos, other_outpoint, calculate_status, status_after_payout,
}
use breez_sdk.SwapIn.Payout.Heights.{sum_of}
use breez_sdk.SwapIn.Payout.Paid.{msat_of, msat_below, msat_upto}
use breez_sdk.SwapIn.Payout.Safety.{IsAlone, refundable_after_lock}
use breez_sdk.SwapIn.Payout.Window.{InWindow, redeemable_only}
use breez_sdk.SwapIn.Payout.Covered.{completed-covered, covered-completed}
use breez_sdk.SwapIn.Tests.{fresh_swap, paid_swap, deposit, pending}

abbrev outputs : SwapChainData
outputs = deposit ∷ []

abbrev mixed : SwapChainData
mixed = deposit ∷ pending ∷ []

-- A deposit below the other one, which covers what was paid.
abbrev early : SwapOutput
early = record deposit { tx_id = codes "e"; confirmed_at_height = some 90 }

abbrev both : SwapChainData
both = early ∷ deposit ∷ []

deposit-IsAlone : IsAlone deposit both
unfolding eq_text
deposit-IsAlone o (inl same) other =
    absurd (ground (arith, subst (λ (z : SwapOutput). other_outpoint deposit z ≡ false) same other))
deposit-IsAlone o (inr (inl same)) other = same
deposit-IsAlone o (inr (inr never)) other = absurd never

refundable_after_lock_example : calculate_status paid_swap segwit (some both) 400 ≡ refundable
unfolding is_utxo as_u32 height_leb
refundable_after_lock_example =
    refundable_after_lock segwit paid_swap both 400 deposit 100 deposit-IsAlone (omega arith)
      (omega arith) (inr (inl refl)) refl refl (omega arith) (omega arith)

is_redeemable : calculate_status fresh_swap taproot (some outputs) 200 ≡ redeemable
unfolding calculate_status payout_blocks_left utxos confirmed_utxos min_height as_u32 as_u64
is_redeemable = refl

is_completed : calculate_status paid_swap segwit (some outputs) 200 ≡ completed
unfolding calculate_status status_after_payout unpaid_utxos take_paid sort_by_height min_height
    as_u32 eq_text
is_completed = refl

is_refundable_late : calculate_status fresh_swap taproot (some outputs) 500 ≡ refundable
unfolding calculate_status status_after_payout refundable_utxos unpaid_utxos take_paid
    sort_by_height min_height as_u32
is_refundable_late = refl

completed-covered_example :
    sum_of (msat_below deposit.confirmed_at_height) outputs < paid_swap.paid_msat
unfolding height_leb is_utxo
completed-covered_example =
    completed-covered segwit paid_swap outputs 200 deposit (omega arith) is_completed
      (λ o m other. elim m [ inl same ↦ same | inr never ↦ absurd never ]) (inl refl) refl

one_covered :
    (u : SwapOutput)
    → Member u outputs
    → is_utxo u ≡ true
    → sum_of (msat_upto u.confirmed_at_height) outputs < paid_swap.paid_msat + msat_of u
unfolding height_leb
one_covered u (inl same) unspent =
    subst
      (λ (z : SwapOutput).
        sum_of (msat_upto z.confirmed_at_height) outputs < paid_swap.paid_msat + msat_of z)
      (sym same) (omega arith)
one_covered u (inr never) unspent = absurd never

covered-completed_example : calculate_status paid_swap segwit (some outputs) 400 ≡ completed
unfolding min_height as_u32
covered-completed_example =
    covered-completed segwit paid_swap outputs 400 100 (omega arith) refl (omega arith) one_covered

redeemable_only_example :
    (fresh_swap.paid_msat ≡ 0)
    × (((o : SwapOutput) × Member o outputs × (o.spend ≡ none))
        × InWindow taproot fresh_swap 200 deposit 100)
redeemable_only_example =
    redeemable_only taproot fresh_swap outputs 200 deposit 100 is_redeemable (inl refl) refl

covered :
    (p : SwapOutput)
    → Member p mixed
    → p.confirmed_at_height ≡ none
    → (paid_swap.paid_msat ≤ wrap_u64 (p.amount_sat * 1000)) × (other_outpoint deposit p ≡ true)
unfolding eq_text
covered p (inl same) open_height = absurd (ground (arith, same, open_height))
covered p (inr (inl same)) open_height =
    subst
      (λ (z : SwapOutput).
        (paid_swap.paid_msat ≤ wrap_u64 (z.amount_sat * 1000)) × (other_outpoint deposit z ≡ true))
      (sym same) (omega arith, refl)
covered p (inr (inr never)) open_height = absurd never

-- A transaction that pays to the address, and one that spends it.
abbrev unknown_output : Vout
unknown_output = record {
  scriptpubkey = [];
  scriptpubkey_asm = [];
  scriptpubkey_type = [];
  scriptpubkey_address = codes "other";
  value = 5;
}

abbrev funding : OnchainTx
funding = record {
  txid = codes "a";
  version = 2;
  locktime = 0;
  vin = [];
  vout = unknown_output ∷ record unknown_output { scriptpubkey_address = codes "bc1" } ∷ [];
  size = 1;
  weight = 1;
  fee = 1;
  tx_status = record {
    confirmed = true;
    block_height = some 100;
    status_block_hash = none;
    block_time = none;
  };
}

abbrev spending : OnchainTx
spending = record funding {
  txid = codes "b";
  vin =
      record {
        vin_txid = codes "a";
        vout_index = 1;
        prevout = unknown_output;
        scriptsig = [];
        scriptsig_asm = [];
        witness = none;
        is_coinbase = false;
        sequence = 0;
      }
      ∷ [];
  vout = [];
}

onchain_outputs-exact_example :
    (is_some (output_at (codes "a") 1 (onchain_outputs (codes "bc1") (spending ∷ funding ∷ [])))
      ≡ is_paid (codes "bc1") (codes "a") 1 (spending ∷ funding ∷ []))
    × (has_spend (output_at (codes "a") 1 (onchain_outputs (codes "bc1") (spending ∷ funding ∷ [])))
        ≡ is_paid (codes "bc1") (codes "a") 1 (spending ∷ funding ∷ [])
          && is_spent (codes "a") 1 (spending ∷ funding ∷ []))
onchain_outputs-exact_example =
    onchain_outputs-exact (codes "bc1") (codes "a") 1 (spending ∷ funding ∷ [])
