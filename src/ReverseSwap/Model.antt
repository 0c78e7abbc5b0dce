-- ===== src/ReverseSwap/Model.antt =====
-- The data of reverse swaps (`libs/sdk-core/src/models.rs`) and how they are stored
-- (`libs/sdk-core/src/persist/reverseswap.rs`).
use breez_sdk.Prelude.{
  ℕ, Bool, true, false, Option, none, some, List, [], ◌∷◌, Text, Bytes, if◌then◌else◌, filterb,
  eq_text,
}

pub data ReverseSwapStatus : Type 0 where
  initial : ReverseSwapStatus
  in_progress : ReverseSwapStatus
  cancelled : ReverseSwapStatus
  completed_seen : ReverseSwapStatus
  completed_confirmed : ReverseSwapStatus

abbrev pub is_monitored_state : ReverseSwapStatus → Bool
is_monitored_state initial = true
is_monitored_state in_progress = true
is_monitored_state completed_seen = true
is_monitored_state cancelled = false
is_monitored_state completed_confirmed = false

abbrev pub is_blocking_state : ReverseSwapStatus → Bool
is_blocking_state initial = true
is_blocking_state in_progress = true
is_blocking_state completed_seen = false
is_blocking_state cancelled = false
is_blocking_state completed_confirmed = false

-- `BoltzApiReverseSwapStatus`, by its variants.
pub data BoltzStatus : Type 0 where
  swap_created : BoltzStatus
  swap_expired : BoltzStatus
  lock_tx_mempool : BoltzStatus
  lock_tx_confirmed : BoltzStatus
  lock_tx_failed : BoltzStatus
  lock_tx_refunded : BoltzStatus
  invoice_settled : BoltzStatus
  invoice_expired : BoltzStatus

-- Boltz reports the swap as cancelled or failed.
abbrev pub is_failed_swap : BoltzStatus → Bool
is_failed_swap swap_expired = true
is_failed_swap lock_tx_failed = true
is_failed_swap lock_tx_refunded = true
is_failed_swap invoice_expired = true
is_failed_swap swap_created = false
is_failed_swap lock_tx_mempool = false
is_failed_swap lock_tx_confirmed = false
is_failed_swap invoice_settled = false

pub data PaymentStatus : Type 0 where
  payment_pending : PaymentStatus
  payment_complete : PaymentStatus
  payment_failed : PaymentStatus

-- `ReverseSwapInfoCached`
pub record ReverseSwapCache : Type 0 where
  pub status : ReverseSwapStatus
  pub lockup_txid : Option Text
  pub claim_txid : Option Text

-- `FullReverseSwapInfo`
pub record FullReverseSwap : Type 0 where
  pub id : Text
  pub created_at_block_height : ℕ
  pub preimage : Bytes
  pub private_key : Bytes
  pub claim_pubkey : Text
  pub timeout_block_height : ℕ
  pub invoice : Text
  pub redeem_script : Text
  pub onchain_amount_sat : ℕ
  pub sat_per_vbyte : Option ℕ
  pub receive_amount_sat : Option ℕ
  pub cache : ReverseSwapCache

-- The joined rows of the two tables, one for an id.
abbrev pub ReverseTable : Type 0
ReverseTable = List FullReverseSwap

unfoldable pub get_reverse_swap : Text → ReverseTable → Option FullReverseSwap
get_reverse_swap i [] = none
get_reverse_swap i (r ∷ t) = if eq_text r.id i then some r else get_reverse_swap i t

unfoldable pub update_cache :
    Text → (ReverseSwapCache → ReverseSwapCache) → ReverseTable → ReverseTable
update_cache i f [] = []
update_cache i f (r ∷ t) =
    (if eq_text r.id i then record r { cache = f r.cache } else r) ∷ update_cache i f t

-- `INSERT OR REPLACE` of the id and the status: the other columns of the row are null afterwards.
abbrev pub replace_status : ReverseSwapStatus → ReverseSwapCache → ReverseSwapCache
replace_status s c = record { status = s; lockup_txid = none; claim_txid = none }

unfoldable pub update_reverse_swap_status : Text → ReverseSwapStatus → ReverseTable → ReverseTable
unfolding update_cache
update_reverse_swap_status i s t = update_cache i (replace_status s) t

abbrev pub put_lockup_txid : Option Text → ReverseSwapCache → ReverseSwapCache
put_lockup_txid txid c = record c { lockup_txid = txid }

unfoldable pub update_reverse_swap_lockup_txid : Text → Option Text → ReverseTable → ReverseTable
unfolding update_cache
update_reverse_swap_lockup_txid i txid t = update_cache i (put_lockup_txid txid) t

abbrev pub put_claim_txid : Option Text → ReverseSwapCache → ReverseSwapCache
put_claim_txid txid c = record c { claim_txid = txid }

unfoldable pub update_reverse_swap_claim_txid : Text → Option Text → ReverseTable → ReverseTable
unfolding update_cache
update_reverse_swap_claim_txid i txid t = update_cache i (put_claim_txid txid) t

unfoldable pub list_blocking : ReverseTable → List FullReverseSwap
list_blocking t = filterb (λ (r : FullReverseSwap). is_blocking_state r.cache.status) t

unfoldable pub list_monitored : ReverseTable → List FullReverseSwap
list_monitored t = filterb (λ (r : FullReverseSwap). is_monitored_state r.cache.status) t
