-- ===== src/Fees.antt =====
-- The fees of a channel that a service provider opens: `OpeningFeeParams` and
-- `OpeningFeeParamsMenu` of `libs/sdk-core/src/models.rs`. The parser of dates is a parameter; a
-- date and the current time are seconds.
pub mod Menu
mod Tests
use breez_sdk.Prelude.{
  ℕ, ◌+◌, ◌*◌, ◌/◌, max, Bool, true, false, ◌&&◌, ◌||◌, not, Option, none, some, List, [], ◌∷◌,
  Text, Result, ok, err, if◌then◌else◌, ltb, ◌==◌, any, filterb,
}
use breez_sdk.Prelude.Int.{ℤ, pos, ◌+ℤ◌, ◌-ℤ◌, ltb_ℤ}
use breez_sdk.Prelude.Words.{wrap_u64}

pub record OpeningFeeParams : Type 0 where
  pub min_msat : ℕ
  pub proportional : ℕ
  pub valid_until : Text
  pub max_idle_time : ℕ
  pub max_client_to_self_delay : ℕ
  pub promise : Text

pub data FeeError : Type 0 where
  bad_date : FeeError
  not_ordered : FeeError
  expired_params : FeeError
  no_values : FeeError

unfoldable pub get_channel_fees_msat_for : ℕ → OpeningFeeParams → ℕ
get_channel_fees_msat_for amount p =
    max (wrap_u64 (amount * p.proportional) / 1000000 / 1000 * 1000) p.min_msat

-- `OpeningFeeParamsMenu::validate`: the test on two neighbours, and on all of them.
unfoldable pub dearer : OpeningFeeParams → OpeningFeeParams → Bool
dearer p q =
    (ltb p.min_msat q.min_msat && (p.proportional == q.proportional))
    || (((p.min_msat == q.min_msat) && ltb p.proportional q.proportional)
        || (ltb p.min_msat q.min_msat && ltb p.proportional q.proportional))

unfoldable pub is_ordered : List OpeningFeeParams → Bool
is_ordered [] = true
is_ordered (p ∷ []) = true
is_ordered (p ∷ (q ∷ ps)) = dearer p q && is_ordered (q ∷ ps)

unfoldable pub get_cheapest_opening_fee_params :
    List OpeningFeeParams → Result FeeError OpeningFeeParams
get_cheapest_opening_fee_params [] = err no_values
get_cheapest_opening_fee_params (p ∷ ps) = ok p

-- `DateTime::parse_from_rfc3339` of the crate `chrono`.
module _ (parse_from_rfc3339 : Text → Option ℤ) (now : ℤ) where
  unfoldable pub valid_for : ℕ → OpeningFeeParams → Result FeeError Bool
  valid_for expiry p = elim (parse_from_rfc3339 p.valid_until) [
    | none ↦ err bad_date
    | some date ↦ ok (ltb_ℤ (now +ℤ pos expiry) date)
  ]

  unfoldable pub is_expired : OpeningFeeParams → Bool
  is_expired p = elim (parse_from_rfc3339 p.valid_until) [
    | none ↦ false
    | some date ↦ ltb_ℤ date now
  ]

  unfoldable pub validate : List OpeningFeeParams → Result FeeError (Unit {0})
  unfolding is_ordered is_expired
  validate ps =
      if not (is_ordered ps)
      then err not_ordered
      else if any is_expired ps
      then err expired_params
      else ok tt

  -- `OpeningFeeParamsMenu::try_from`, on values that are already converted.
  unfoldable pub try_from : List OpeningFeeParams → Result FeeError (List OpeningFeeParams)
  unfolding validate
  try_from ps = elim (validate ps) [ err e ↦ err e | ok _ ↦ ok ps ]

  unfoldable pub valid_48h : OpeningFeeParams → Bool
  valid_48h p = elim (parse_from_rfc3339 p.valid_until) [
    | none ↦ false
    | some date ↦ ltb_ℤ (pos 172800) (date -ℤ now)
  ]

  unfoldable pub get_48h_opening_fee_params :
      List OpeningFeeParams → Result FeeError OpeningFeeParams
  unfolding valid_48h get_cheapest_opening_fee_params
  get_48h_opening_fee_params ps = elim (filterb valid_48h ps) [ [] ↦ err no_values | p ∷ _ ↦ ok p ]
