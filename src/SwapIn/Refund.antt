-- ===== src/SwapIn/Refund.antt =====
-- `prepare_refund` and `refund` of `libs/sdk-core/src/swap_in/swap.rs`: what is left on the address
-- of a swap goes back to the user. The transactions themselves, with their keys and signatures, and
-- the chain service are parameters.
pub mod Timelock
use breez_sdk.Prelude.{
  ℕ, ◌+◌, ◌*◌, ◌/◌, Bool, true, false, ◌&&◌, ◌||◌, not, Option, none, some, List, [], ◌∷◌, Text,
  Bytes, Result, ok, err, if◌then◌else◌, leb, ltb, ◌==◌, all, is_empty,
}
use breez_sdk.Prelude.Words.{as_u32, wrap_u64, saturating_add_u32}
use breez_sdk.SwapIn.Model.{SwapInfo, SwapOutput, SwapChainData, chain_info}
use breez_sdk.SwapIn.Onchain.{OnchainTx}
use breez_sdk.SwapIn.Payout.{SwapAddressType, segwit, taproot, refundable_utxos}
use breez_sdk.SwapIn.Storage.{
  SwapTable, get_swap_info_by_address, get_swap_chain_data, set_swap_chain_data,
  insert_swap_refund_tx_ids,
}
use breez_sdk.SwapIn.Refresh.{
  SwapError, no_utxos, utxos_timelocked, swap_not_found, SwapState, emit_swap_updated,
  fetch_swap_onchain_data,
}

-- `compute_tx_fee`, with four weight units to a virtual byte.
unfoldable pub compute_tx_fee : ℕ → ℕ → ℕ
compute_tx_fee weight sat_per_vbyte = (wrap_u64 (weight * sat_per_vbyte) + 3) / 4

-- The order of strings, and of outputs by transaction and index.
unfoldable pub text_leb : Text → Text → Bool
text_leb [] t = true
text_leb (a ∷ s) [] = false
text_leb (a ∷ s) (b ∷ t) = ltb a b || ((a == b) && text_leb s t)

abbrev pub outpoint_leb : SwapOutput → SwapOutput → Bool
outpoint_leb a b =
    if text_leb b.tx_id a.tx_id
    then text_leb a.tx_id b.tx_id && leb a.output_index b.output_index
    else true

unfoldable pub insert_by_outpoint : SwapOutput → List SwapOutput → List SwapOutput
unfolding text_leb
insert_by_outpoint o [] = o ∷ []
insert_by_outpoint o (p ∷ os) =
    let rest = insert_by_outpoint o os in if outpoint_leb o p then o ∷ (p ∷ os) else p ∷ rest

unfoldable pub sort_by_outpoint : List SwapOutput → List SwapOutput
unfolding insert_by_outpoint
sort_by_outpoint [] = []
sort_by_outpoint (o ∷ os) = insert_by_outpoint o (sort_by_outpoint os)

-- Whether a unilateral refund of an output may be mined.
abbrev pub past_lock : SwapInfo → ℕ → SwapOutput → Bool
past_lock swap tip u = elim u.confirmed_at_height [
  | none ↦ false
  | some confirmed_at ↦ leb (saturating_add_u32 confirmed_at (as_u32 swap.lock_height)) tip
]

unfoldable pub has_passed_timelock : SwapInfo → ℕ → List SwapOutput → Bool
has_passed_timelock swap tip outputs = all (past_lock swap tip) outputs

pub record RefundRequest : Type 0 where
  pub swap_address : Text
  pub to_address : Text
  pub sat_per_vbyte : ℕ
  pub unilateral : Option Bool

-- The transactions that the two kinds of address know.
pub data RefundKind : Type 0 where
  segwit_refund : RefundKind
  unilateral_refund : RefundKind
  cooperative_refund : RefundKind

unfoldable pub refund_kind : SwapAddressType → Option Bool → RefundKind
refund_kind segwit unilateral = segwit_refund
refund_kind taproot (some true) = unilateral_refund
refund_kind taproot (some false) = cooperative_refund
refund_kind taproot none = cooperative_refund

abbrev pub needs_timelock : RefundKind → Bool
needs_timelock segwit_refund = true
needs_timelock unilateral_refund = true
needs_timelock cooperative_refund = false

pub record RefundServices : Type 0 where
  pub parse_address : Text → Result SwapError SwapAddressType
  pub current_tip : Result SwapError ℕ
  pub address_transactions : Text → Result SwapError (List OnchainTx)
  pub check_destination : Text → Result SwapError (Unit {0})
  pub fake_tx_weight : RefundKind → SwapInfo → List SwapOutput → Text → Result SwapError ℕ
  pub create_tx : RefundKind → SwapInfo → List SwapOutput → Text → ℕ → Result SwapError Bytes
  pub broadcast_transaction : Bytes → Result SwapError Text

pub record RefundResponse : Type 0 where
  pub refund_tx_id : Text

pub record PrepareRefundResponse : Type 0 where
  pub refund_tx_weight : ℕ
  pub refund_tx_fee_sat : ℕ

module _ (services : RefundServices) where
  open services use {
    parse_address, address_transactions, check_destination, fake_tx_weight, create_tx,
    broadcast_transaction,
  }

  -- The chain data of a swap: from the storage, or fetched and stored.
  unfoldable pub load_chain_data :
      Text → SwapInfo → SwapTable → Result SwapError SwapChainData × SwapTable
  unfolding fetch_swap_onchain_data
  load_chain_data a swap t = elim (get_swap_chain_data a t) [
    | some outputs ↦ (ok outputs, t)
    | none ↦ elim (fetch_swap_onchain_data address_transactions swap) [
      | err e ↦ (err e, t)
      | ok outputs ↦ (ok outputs, set_swap_chain_data a outputs (chain_info outputs) t)
    ]
  ]

  -- The beginning of both functions, up to the outputs, sorted.
  unfoldable pub select_outputs :
      Text
      → SwapTable
      → Result SwapError (ℕ × SwapAddressType × SwapInfo × List SwapOutput) × SwapTable
  unfolding load_chain_data sort_by_outpoint
  select_outputs a t = elim services.current_tip [
    | err e ↦ (err e, t)
    | ok tip ↦ elim (parse_address a) [
      | err e ↦ (err e, t)
      | ok address_type ↦ elim (get_swap_info_by_address a t) [
        | none ↦ (err swap_not_found, t)
        | some swap ↦
            let (r, t') = load_chain_data a swap t in
            elim r [
              | err e ↦ (err e, t')
              | ok outputs ↦
                  let utxos = refundable_utxos swap outputs tip address_type in
                  if is_empty utxos
                  then (err no_utxos, t')
                  else (ok (tip, address_type, swap, sort_by_outpoint utxos), t')
            ]
      ]
    ]
  ]

  -- `prepare_refund`
  unfoldable pub prepare_refund :
      RefundRequest → SwapTable → Result SwapError PrepareRefundResponse × SwapTable
  unfolding select_outputs refund_kind compute_tx_fee
  prepare_refund req t =
      let (r, t') = select_outputs req.swap_address t in
      elim r [
        | err e ↦ (err e, t')
        | ok (tip, address_type, swap, utxos) ↦ elim (check_destination req.to_address) [
          | err e ↦ (err e, t')
          | ok _ ↦
              elim (fake_tx_weight (refund_kind address_type req.unilateral) swap utxos
                req.to_address) [
                  | err e ↦ (err e, t')
                  | ok weight ↦ (
                    ok (record {
                      refund_tx_weight = weight;
                      refund_tx_fee_sat = compute_tx_fee weight req.sat_per_vbyte;
                    }),
                    t',
                  )
                ]
        ]
      ]

  -- The transaction of `refund`, behind the check of the time lock.
  unfoldable pub build_refund :
      RefundRequest → ℕ → SwapAddressType → SwapInfo → List SwapOutput → Result SwapError Bytes
  unfolding refund_kind has_passed_timelock
  build_refund req tip address_type swap utxos =
      let kind = refund_kind address_type req.unilateral in
      if needs_timelock kind && not (has_passed_timelock swap tip utxos)
      then err utxos_timelocked
      else create_tx kind swap utxos req.to_address req.sat_per_vbyte

  unfoldable pub refund : RefundRequest → SwapState → Result SwapError RefundResponse × SwapState
  unfolding select_outputs build_refund emit_swap_updated
  refund req st =
      let (r, t') = select_outputs req.swap_address st.table in
      let st' : SwapState = record st { table = t' } in
      elim r [
        | err e ↦ (err e, st')
        | ok (tip, address_type, swap, utxos) ↦ elim (check_destination req.to_address) [
          | err e ↦ (err e, st')
          | ok _ ↦ elim (build_refund req tip address_type swap utxos) [
            | err e ↦ (err e, st')
            | ok tx ↦ elim (broadcast_transaction tx) [
              | err e ↦ (err e, st')
              | ok tx_id ↦
                  let t'' = insert_swap_refund_tx_ids swap.bitcoin_address tx_id t' in
                  let (s, st'') = emit_swap_updated req.swap_address (record st { table = t'' }) in
                  elim s [
                    | err e ↦ (err e, st'')
                    | ok _ ↦ (ok (record { refund_tx_id = tx_id }), st'')
                  ]
            ]
          ]
        ]
      ]
