-- ===== src/ReverseSwap/Status.antt =====
-- How the status of a reverse swap moves (`libs/sdk-core/src/swap_out/reverseswap.rs`).
use breez_sdk.Prelude.{
  ◌≡◌, refl, ℕ, ◌<◌, ◌≤◌, ◌⊎◌, inl, inr, true, Option, none, some, arith, ok, Option-cases,
  Result-cases, Bool-cases,
}
use breez_sdk.ReverseSwap.Model.{
  ReverseSwapStatus, initial, in_progress, cancelled, completed_seen, completed_confirmed,
  FullReverseSwap, PaymentStatus, payment_failed,
}
use breez_sdk.ReverseSwap.{
  is_failed_payment, ClaimTxStatus, tx_unknown, tx_mempool, tx_confirmed, ReverseServices,
  next_status, get_status_update_for_monitored,
}

-- How far a swap is; the two ends are the farthest.
unfoldable pub progress : ReverseSwapStatus → ℕ
progress initial = 0
progress in_progress = 1
progress completed_seen = 2
progress cancelled = 3
progress completed_confirmed = 3

failed_payment :
    (services : ReverseServices) (p : Option PaymentStatus)
    → is_failed_payment services p ≡ true
    → p ≡ some payment_failed
failed_payment services p h = ground (arith, h)

next_cancelled :
    (services : ReverseServices) (r : FullReverseSwap) (now : ReverseSwapStatus)
    (claim : ClaimTxStatus)
    → next_status services now r claim ≡ ok (some cancelled)
    → ((now ≡ initial) × (services.get_payment_status r ≡ none))
      ⊎ ((now ≡ in_progress)
          × (claim ≡ tx_unknown)
          × ((tip : ℕ) × ((services.current_tip ≡ ok tip) × (r.timeout_block_height ≤ tip))))
unfolding next_status
next_cancelled services r initial claim h = elim (Option-cases (services.get_payment_status r)) [
  | inl nothing ↦ inl (refl, nothing)
  | inr (p, paid) ↦ absurd (ground (arith, h, paid))
]
next_cancelled services r in_progress tx_unknown h = elim (Result-cases services.current_tip) [
  | inl (tip, known) ↦ inr (refl, refl, (tip, (known, ground (arith, h, known))))
  | inr (e, failed) ↦ absurd (ground (arith, h, failed))
]
next_cancelled services r in_progress tx_mempool h = absurd (ground (arith, h))
next_cancelled services r in_progress tx_confirmed h = absurd (ground (arith, h))
next_cancelled services r completed_seen claim h = absurd (ground (arith, h))
next_cancelled services r cancelled claim h = absurd (ground (arith, h))
next_cancelled services r completed_confirmed claim h = absurd (ground (arith, h))

module _ (services : ReverseServices) (r : FullReverseSwap) (claim : ClaimTxStatus) where
  next_status-progress :
      (now new : ReverseSwapStatus)
      → next_status services now r claim ≡ ok (some new)
      → progress now < progress new
  unfolding next_status progress
  next_status-progress now new h = ground (arith, h)

  -- A new status is always farther than the one before, so that a status never comes back, a swap that
  -- was cancelled or is confirmed gets none, and at most three changes happen.
  pub status_update-progress :
      (new : ReverseSwapStatus)
      → get_status_update_for_monitored services r claim ≡ ok (some new)
      → progress r.cache.status < progress new
  unfolding get_status_update_for_monitored progress
  status_update-progress new h = ground (arith, h, next_status-progress r.cache.status new)

  -- A swap is cancelled only when its payment failed, when the swapper reports that it failed before
  -- a payment, or when no claim is seen and the chain has reached the height of the timeout.
  pub status_update-cancelled :
      get_status_update_for_monitored services r claim ≡ ok (some cancelled)
      → (services.get_payment_status r ≡ some payment_failed)
        ⊎ (((r.cache.status ≡ initial) × (services.get_payment_status r ≡ none))
            ⊎ ((r.cache.status ≡ in_progress)
                × (claim ≡ tx_unknown)
                × ((tip : ℕ) × ((services.current_tip ≡ ok tip) × (r.timeout_block_height ≤ tip)))))
  unfolding get_status_update_for_monitored next_status
  status_update-cancelled h =
      elim (Bool-cases (is_failed_payment services (services.get_payment_status r))) [
        | inl failed ↦ inl (failed_payment services (services.get_payment_status r) failed)
        | inr fine ↦ inr (next_cancelled services r r.cache.status claim (ground (arith, h, fine)))
      ]
