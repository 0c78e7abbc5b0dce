-- ===== src/ReverseSwap/Create/Prepare/Passes.antt =====
-- A payment that `prepare_onchain_payment` of `libs/sdk-core/src/breez_services.rs` has prepared, and the
-- checks of `create_reverse_swap` in `libs/sdk-core/src/swap_out/reverseswap.rs`.
use mathlib.Core.Path.{subst}
use breez_sdk.Prelude.{
  ap, sym, ◌∙◌, ◌≡◌, ℕ, ◌+◌, ◌-◌, ◌*◌, ◌≤◌, ◌<◌, Result, ok, ◌>>◌, ensure, ltb, arith, inl, inr,
  Bool-cases, Result-cases, ◌==◌,
}
use breez_sdk.Prelude.Words.{wrap_u64, sub_u64}
use breez_sdk.ReverseSwap.Model.{FullReverseSwap}
use breez_sdk.ReverseSwap.Create.{
  CreateServices, PrepareResponse, ReverseSwapError, calculate_claim_tx_fee, validate_claim_tx_fee,
  generic, validate_amounts, validate_invoice_amount,
}
use breez_sdk.ReverseSwap.Create.Prepare.{
  PairInfo, PrepareRequest, SwapAmountType, send_amount, response_of, prepared_amounts,
  prepare_onchain_payment,
}

module _ (services : CreateServices) (fees : Result ReverseSwapError PairInfo) where
  open services use {get_service_fee_sat, claim_base_size, reverse}
  open reverse use {convert_reverse_swap_info}

  -- What a preparation for an amount to send returns.
  pub record PreparedToSend (req : PrepareRequest) (res : PrepareResponse) : Type 0 where
    pub sends_amount : res.sender_amount_sat ≡ req.amount_sat
    pub total_below :
        wrap_u64 (
          wrap_u64 (get_service_fee_sat req.amount_sat res.fees_percentage + res.fees_lockup)
          + res.fees_claim)
        < req.amount_sat
    pub receives_rest :
        res.recipient_amount_sat
        ≡ req.amount_sat
          - wrap_u64 (
              wrap_u64 (get_service_fee_sat req.amount_sat res.fees_percentage + res.fees_lockup)
              + res.fees_claim)
    pub claim_enough : calculate_claim_tx_fee claim_base_size 1 ≤ res.fees_claim

  validate_claim_tx_fee-min :
      (claim_fee : ℕ)
      → validate_claim_tx_fee claim_base_size claim_fee ≡ ok tt
      → calculate_claim_tx_fee claim_base_size 1 ≤ claim_fee
  unfolding validate_claim_tx_fee
  validate_claim_tx_fee-min claim_fee h = ground (arith, h)

  prepared_amounts-send :
      (rounding : ℕ → ℕ → ℕ) (amount : ℕ) (info : PairInfo) (claim_fee : ℕ) (amounts : ℕ × ℕ)
      → prepared_amounts services fees rounding send_amount amount info claim_fee ≡ ok amounts
      → (amounts.0 ≡ amount)
        × ((wrap_u64
                (wrap_u64 (get_service_fee_sat amount info.percentage + info.lockup) + claim_fee)
              < amount)
            × (amounts.1
                ≡ amount
                  - wrap_u64 (
                      wrap_u64 (get_service_fee_sat amount info.percentage + info.lockup)
                      + claim_fee)))
  unfolding prepared_amounts
  prepared_amounts-send rounding amount info claim_fee amounts h =
      let total : ℕ =
        wrap_u64
          (wrap_u64 (get_service_fee_sat amount info.percentage + info.lockup) + claim_fee) in
      elim (Bool-cases (ltb total amount)) [
        | inr low ↦ absurd (ground (arith, h, low))
        | inl enough ↦
            (ground (arith, h, enough), (ground (arith, enough), ground (arith, h, enough)))
      ]

  prepare_onchain_payment-PreparedToSend :
      (rounding : ℕ → ℕ → ℕ) (req : PrepareRequest) (res : PrepareResponse)
      → req.amount_type ≡ send_amount
      → prepare_onchain_payment services fees rounding req ≡ ok res
      → PreparedToSend req res
  unfolding prepare_onchain_payment
  prepare_onchain_payment-PreparedToSend rounding req res sends h =
      let claim_fee : ℕ = calculate_claim_tx_fee claim_base_size req.feerate in
      elim (Result-cases (validate_claim_tx_fee claim_base_size claim_fee)) [
        | inr (e, fails) ↦ absurd (ground (arith, h, fails))
        | inl (done, enough) ↦ elim (Result-cases fees) [
          | inr (e, fails) ↦ absurd (ground (arith, h, enough, fails))
          | inl (info, got) ↦
              elim (Result-cases (
                prepared_amounts services fees rounding req.amount_type req.amount_sat info
                  claim_fee)) [
                    | inr (e, fails) ↦ absurd (ground (arith, h, enough, got, fails))
                    | inl (amounts, made) ↦
                        let split =
                          prepared_amounts-send rounding req.amount_sat info claim_fee amounts (
                            ap
                              (λ (t : SwapAmountType).
                                prepared_amounts services fees rounding t req.amount_sat info
                                  claim_fee)
                              (sym sends)
                            ∙ made) in
                        let e : response_of services fees info claim_fee amounts ≡ res =
                          ground (arith, h, enough, got, made) in
                        subst (PreparedToSend req) e (record {
                          sends_amount = split.0;
                          total_below = split.1.0;
                          receives_rest = split.1.1;
                          claim_enough = validate_claim_tx_fee-min claim_fee enough;
                        })
                  ]
        ]
      ]

  amounts_pass :
      (onchain recipient claim_fee : ℕ)
      → claim_base_size < 1000000
      → recipient + claim_fee ≡ onchain
      → calculate_claim_tx_fee claim_base_size 1 ≤ claim_fee
      → (ensure (onchain == onchain) generic
          >> (ensure (ltb recipient onchain) generic
              >> validate_claim_tx_fee claim_base_size (onchain - recipient)))
        ≡ ok tt
  unfolding validate_claim_tx_fee calculate_claim_tx_fee
  amounts_pass onchain recipient claim_fee small sum least =
      let fee : claim_fee ≡ onchain - recipient = omega (arith, sum) in
      let some_fee : recipient < onchain = omega (arith, small, sum, least) in
      let enough : calculate_claim_tx_fee claim_base_size 1 ≤ onchain - recipient =
        subst (λ (n : ℕ). calculate_claim_tx_fee claim_base_size 1 ≤ n) fee least in
      ground (arith, some_fee, enough)

  -- What was prepared for an amount to send passes the checks on creation, where the swapper keeps to
  -- its fees.
  pub validate_amounts-prepare_onchain_payment :
      (rounding : ℕ → ℕ → ℕ) (req : PrepareRequest) (res : PrepareResponse) (r : FullReverseSwap)
      → claim_base_size < 1000000
      → req.amount_type ≡ send_amount
      → req.amount_sat < 18446744073709551616
      → get_service_fee_sat req.amount_sat res.fees_percentage + res.fees_lockup + res.fees_claim
        < 18446744073709551616
      → prepare_onchain_payment services fees rounding req ≡ ok res
      → validate_invoice_amount services r (wrap_u64 (res.sender_amount_sat * 1000)) ≡ ok tt
      → r.onchain_amount_sat
          + get_service_fee_sat req.amount_sat res.fees_percentage
          + res.fees_lockup
        ≡ res.sender_amount_sat
      → validate_amounts services res r ≡ ok tt
  unfolding prepare_onchain_payment prepared_amounts validate_claim_tx_fee validate_amounts
  validate_amounts-prepare_onchain_payment rounding req res r small sends fits no_wrap h invoice
        onchain =
      let prepared = prepare_onchain_payment-PreparedToSend rounding req res sends h in
      let service : ℕ = get_service_fee_sat req.amount_sat res.fees_percentage in
      let same_fee : get_service_fee_sat res.sender_amount_sat res.fees_percentage ≡ service =
        ap (λ (n : ℕ). get_service_fee_sat n res.fees_percentage) prepared.sends_amount in
      let sent = prepared.sends_amount in
      let without_service : sub_u64 res.sender_amount_sat service
          ≡ r.onchain_amount_sat + res.fees_lockup =
        omega (arith, onchain, fits, sent) in
      let without_lockup : sub_u64 (r.onchain_amount_sat + res.fees_lockup) res.fees_lockup
          ≡ r.onchain_amount_sat =
        omega (arith, onchain, fits, sent) in
      let total : wrap_u64 (wrap_u64 (service + res.fees_lockup) + res.fees_claim)
          ≡ service + res.fees_lockup + res.fees_claim =
        omega (arith, no_wrap) in
      let recipient : res.recipient_amount_sat + res.fees_claim ≡ r.onchain_amount_sat =
        omega (arith, prepared.receives_rest, prepared.total_below, total, onchain, sent) in
      let least = prepared.claim_enough in
      rw (invoice, same_fee, without_service, without_lockup, validate_amounts)
        (amounts_pass r.onchain_amount_sat res.recipient_amount_sat res.fees_claim small recipient
          least)
