-- ===== src/ReverseSwap/Create/Prepare/Blocked.antt =====
-- One reverse swap at a time: `pay_onchain` of `libs/sdk-core/src/breez_services.rs`.
use breez_sdk.Prelude.{
  refl, ◌≢◌, ap, ◌≡◌, false, List, [], ◌∷◌, Result, ok, err, ltb, is_empty, arith, inl, inr,
  Bool-cases, Result-cases,
}
use breez_sdk.ReverseSwap.Model.{FullReverseSwap, list_blocking}
use breez_sdk.ReverseSwap.{ReverseState}
use breez_sdk.ReverseSwap.Create.{CreateServices, PayOnchainRequest, ReverseSwapError}
use breez_sdk.ReverseSwap.Create.Prepare.{
  PairInfo, SendOnchainError, generic_send_error, in_progress_onchain_payments, may_start,
  pay_onchain,
}

module _ (services : CreateServices) (fees : Result ReverseSwapError PairInfo) where
  open services use {get_service_fee_sat, claim_base_size, reverse}
  open reverse use {convert_reverse_swap_info}

  in_progress-nonempty :
      (rs infos : List FullReverseSwap)
      → is_empty rs ≡ false
      → in_progress_onchain_payments services fees rs ≡ ok infos
      → is_empty infos ≡ false
  unfolding in_progress_onchain_payments
  in_progress-nonempty [] infos some_left h = absurd (ground (arith, some_left))
  in_progress-nonempty (r ∷ rs) infos some_left h =
      elim (Result-cases (convert_reverse_swap_info r)) [
        | inr (e, fails) ↦ absurd (ground (arith, h, fails))
        | inl (done, converted) ↦
            elim (Result-cases (in_progress_onchain_payments services fees rs)) [
              | inr (e, fails) ↦ absurd (ground (arith, h, converted, fails))
              | inl (rest, got) ↦ ground (arith, h, converted, got)
            ]
      ]

  in_progress-error :
      (rs : List FullReverseSwap) (e : SendOnchainError)
      → in_progress_onchain_payments services fees rs ≡ err e
      → e ≡ generic_send_error
  unfolding in_progress_onchain_payments
  in_progress-error [] e h = absurd (ground (arith, h))
  in_progress-error (r ∷ rs) e h = elim (Result-cases (convert_reverse_swap_info r)) [
    | inr (x, fails) ↦ ground (arith, h, fails)
    | inl (done, converted) ↦ elim (Result-cases (in_progress_onchain_payments services fees rs)) [
      | inl (rest, got) ↦ absurd (ground (arith, h, converted, got))
      | inr (x, fails) ↦ in_progress-error rs e (ground (arith, h, converted, fails))
    ]
  ]

  may_start-blocked :
      (req : PayOnchainRequest) (st : ReverseState)
      → is_empty (list_blocking st.table) ≡ false
      → may_start services fees req st ≡ err generic_send_error
  unfolding may_start
  may_start-blocked req st blocking =
      elim (Bool-cases
        (ltb req.prepare_res.recipient_amount_sat req.prepare_res.sender_amount_sat)) [
          | inr small ↦ rw small refl
          | inl enough ↦
              elim (Result-cases
                (in_progress_onchain_payments services fees (list_blocking st.table))) [
                  | inr (e, fails) ↦
                      rw (enough, fails)
                        (ap err (in_progress-error (list_blocking st.table) e fails))
                  | inl (infos, got) ↦
                      let more = in_progress-nonempty (list_blocking st.table) infos blocking got in
                      rw (enough, got, more) refl
                ]
        ]

  -- While a reverse swap is blocking, no other one is started and nothing changes.
  pub pay_onchain-blocked :
      (req : PayOnchainRequest) (st : ReverseState) (r : FullReverseSwap)
      → is_empty (list_blocking st.table) ≡ false
      → ((pay_onchain services fees req st).1 ≡ st) × ((pay_onchain services fees req st).0 ≢ ok r)
  unfolding pay_onchain
  pay_onchain-blocked req st r blocking =
      rw (may_start-blocked req st blocking, pay_onchain) (refl, λ h. ground (arith, h))
