-- ===== src/SwapIn/Equality.antt =====
-- The derived `PartialEq` of the swaps and of their chain data.
use native.Mathlib.Decide.{ℕ_discrete}
use breez_sdk.Prelude.Int.{ℤ}
use breez_sdk.Fees.{OpeningFeeParams}
use breez_sdk.SwapIn.Model.{SwapStatus, SwapInfo, SwapSpend, SwapOutput, SwapChainData}

unfoldable pub ℤ-discrete : Discrete ℤ
ℤ-discrete = hlevel ℕ_discrete

unfoldable pub OpeningFeeParams-discrete : Discrete OpeningFeeParams
OpeningFeeParams-discrete = hlevel ℕ_discrete

unfoldable pub SwapStatus-discrete : Discrete SwapStatus
SwapStatus-discrete = hlevel

unfoldable pub SwapInfo-discrete : Discrete SwapInfo
SwapInfo-discrete = hlevel (ℕ_discrete, ℤ-discrete, OpeningFeeParams-discrete, SwapStatus-discrete)

unfoldable pub SwapSpend-discrete : Discrete SwapSpend
SwapSpend-discrete = hlevel ℕ_discrete

unfoldable pub SwapOutput-discrete : Discrete SwapOutput
SwapOutput-discrete = hlevel (ℕ_discrete, SwapSpend-discrete)

unfoldable pub SwapChainData-discrete : Discrete SwapChainData
SwapChainData-discrete = hlevel (ℕ_discrete, SwapOutput-discrete)
