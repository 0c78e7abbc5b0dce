-- ===== src/Fees/Tests.antt =====
-- A concrete menu of fees (`libs/sdk-core/src/models.rs`).
use breez_sdk.Prelude.{◌≡◌, refl, Option, some, [], ◌∷◌, Text, ok, codes}
use breez_sdk.Prelude.Int.{ℤ, pos}
use breez_sdk.Fees.{dearer, OpeningFeeParams, try_from}

abbrev short_term : OpeningFeeParams
short_term = record {
  min_msat = 2000;
  proportional = 4000;
  valid_until = [];
  max_idle_time = 1;
  max_client_to_self_delay = 1;
  promise = [];
}

abbrev long_term : OpeningFeeParams
long_term = record short_term { min_msat = 3000; proportional = 5000; valid_until = codes "late" }

abbrev parse : Text → Option ℤ
parse [] = some (pos 2000)
parse (c ∷ t) = some (pos 900000)

is_valid :
    try_from parse (pos 1000) (short_term ∷ long_term ∷ []) ≡ ok (short_term ∷ long_term ∷ [])
unfolding try_from dearer
is_valid = refl
