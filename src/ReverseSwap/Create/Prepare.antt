-- ===== src/ReverseSwap/Create/Prepare.antt =====
-- What `BreezServices` in `libs/sdk-core/src/breez_services.rs` does around a reverse swap: the fees, the
-- limits, the preparation and `pay_onchain`. Amounts are on 64 bits; the arithmetic on floats is a
-- parameter.
pub mod Passes
pub mod Blocked
use mathlib.Core.Path.{subst}
use breez_sdk.Prelude.{
  refl, ◌≢◌, ap, sym, ◌∙◌, ◌≡◌, ℕ, ◌+◌, ◌-◌, ◌*◌, ◌/◌, ◌≤◌, ◌<◌, ◌%◌, Bool, true, false, ◌&&◌,
  Option, none, some, List, [], ◌∷◌, Text, Result, ok, err, ◌>>=◌, ◌>>◌, ensure, if◌then◌else◌, leb,
  ltb, is_empty, arith, map, inl, inr, Bool-cases, Result-cases, ◌==◌,
}
use breez_sdk.Prelude.Words.{wrap_u64, sub_u64}
use breez_sdk.ReverseSwap.Model.{FullReverseSwap, list_blocking}
use breez_sdk.ReverseSwap.{ReverseState, ReverseServices}
use breez_sdk.ReverseSwap.Create.{
  CreateServices, PrepareResponse, PayOnchainRequest, ReverseSwapError, calculate_claim_tx_fee,
  validate_claim_tx_fee, generic, validate_amounts, validate_invoice_amount, create_reverse_swap,
  claim_feerate_too_low,
}

-- `ReverseSwapPairInfo`
pub record PairInfo : Type 0 where
  pub min_sat : ℕ
  pub max_sat : ℕ
  pub pair_hash : Text
  pub percentage : ℕ
  pub lockup : ℕ
  pub claim : ℕ
  pub total : Option ℕ

-- `ReverseSwapFeesRequest`
pub record FeesRequest : Type 0 where
  pub send_amount_sat : Option ℕ
  pub claim_tx_feerate : Option ℕ

pub data SwapAmountType : Type 0 where
  send_amount receive_amount : SwapAmountType

-- `PrepareOnchainPaymentRequest`
pub record PrepareRequest : Type 0 where
  pub amount_sat : ℕ
  pub amount_type : SwapAmountType
  pub feerate : ℕ

-- `SendOnchainError`, and the errors of `fetch_reverse_swap_fees`.
pub data SendOnchainError : Type 0 where
  out_of_range too_low too_high generic_send_error : SendOnchainError
  swap_error : ReverseSwapError → SendOnchainError

abbrev pub lift_error : {A : Type 0} → Result ReverseSwapError A → Result SendOnchainError A
lift_error (ok a) = ok a
lift_error (err e) = err (swap_error e)

module _ (services : CreateServices) (fees : Result ReverseSwapError PairInfo) where
  open services use {get_service_fee_sat, claim_base_size, reverse}
  open reverse use {convert_reverse_swap_info}

  abbrev claim_or : Option ℕ → ℕ → ℕ
  claim_or none own = own
  claim_or (some rate) own = calculate_claim_tx_fee claim_base_size rate

  unfoldable pub fetch_reverse_swap_fees : FeesRequest → Result SendOnchainError PairInfo
  fetch_reverse_swap_fees req = lift_error fees >>= λ res. elim req.send_amount_sat [
    | none ↦ ok res
    | some amount ↦
        ensure (leb amount res.max_sat) too_high
        >> (ensure (leb res.min_sat amount) too_low
            >> (let claim_fee = claim_or req.claim_tx_feerate res.claim in
                ok (record res {
                  claim = claim_fee;
                  total = some (
                      wrap_u64 (
                        wrap_u64 (get_service_fee_sat amount res.percentage + res.lockup)
                        + claim_fee));
                })))
  ]

  -- The amounts to send and to receive, by the type of the amount that is given.
  unfoldable pub prepared_amounts :
      (ℕ → ℕ → ℕ) → SwapAmountType → ℕ → PairInfo → ℕ → Result SendOnchainError (ℕ × ℕ)
  prepared_amounts get_invoice_amount_sat send_amount amount info claim_fee =
      let total =
        wrap_u64
          (wrap_u64 (get_service_fee_sat amount info.percentage + info.lockup) + claim_fee) in
      ensure (ltb total amount) generic_send_error >> ok (amount, amount - total)
  prepared_amounts get_invoice_amount_sat receive_amount amount info claim_fee = ok (
    get_invoice_amount_sat (wrap_u64 (wrap_u64 (amount + info.lockup) + claim_fee)) info.percentage,
    amount,
  )

  abbrev pub response_of : PairInfo → ℕ → ℕ × ℕ → PrepareResponse
  response_of info claim_fee amounts = record {
    sender_amount_sat = amounts.0;
    recipient_amount_sat = amounts.1;
    fees_lockup = info.lockup;
    fees_percentage = info.percentage;
    fees_hash = info.pair_hash;
    fees_claim = claim_fee;
    total_fees = sub_u64 amounts.0 amounts.1;
  }

  unfoldable pub prepare_onchain_payment :
      (ℕ → ℕ → ℕ) → PrepareRequest → Result SendOnchainError PrepareResponse
  unfolding prepared_amounts
  prepare_onchain_payment get_invoice_amount_sat req =
      let claim_fee = calculate_claim_tx_fee claim_base_size req.feerate in
      lift_error (validate_claim_tx_fee claim_base_size claim_fee)
      >> (lift_error fees >>= λ info.
          prepared_amounts get_invoice_amount_sat req.amount_type req.amount_sat info claim_fee
          >>= λ amounts.
              ensure (leb info.min_sat amounts.0 && leb amounts.0 info.max_sat) out_of_range
              >> ok (response_of info claim_fee amounts))

  unfoldable pub in_progress_onchain_payments :
      List FullReverseSwap → Result SendOnchainError (List FullReverseSwap)
  in_progress_onchain_payments [] = ok []
  in_progress_onchain_payments (r ∷ rs) =
      let rest = in_progress_onchain_payments rs in
      elim (convert_reverse_swap_info r) [
        | err _ ↦ err generic_send_error
        | ok _ ↦ rest >>= λ infos. ok (r ∷ infos)
      ]

  -- The two checks that come first.
  unfoldable pub may_start : PayOnchainRequest → ReverseState → Result SendOnchainError (Unit {0})
  unfolding list_blocking in_progress_onchain_payments
  may_start req st =
      ensure (ltb req.prepare_res.recipient_amount_sat req.prepare_res.sender_amount_sat)
        generic_send_error
      >> (in_progress_onchain_payments (list_blocking st.table) >>= λ infos.
          ensure (is_empty infos) generic_send_error)

  -- `pay_onchain` up to the synchronisation and the notification that follow.
  unfoldable pub pay_onchain :
      PayOnchainRequest → ReverseState → Result SendOnchainError FullReverseSwap × ReverseState
  unfolding may_start create_reverse_swap
  pay_onchain req st =
      let (r, st1) = create_reverse_swap services req st in
      elim (may_start req st) [
        | err e ↦ (err e, st)
        | ok _ ↦ (
          lift_error r >>= λ rsi. elim (convert_reverse_swap_info rsi) [
            | err _ ↦ err generic_send_error
            | ok _ ↦ ok rsi
          ],
          st1,
        )
      ]
