-- ===== src/Backup/Tables.antt =====
-- The tables of the schema `sync`, their keys and their unique columns, as `current_sync_migrations` of
-- `libs/sdk-core/src/persist/migrations.rs` leaves them.
use breez_sdk.Prelude.{ℕ, Bool, false, ◌||◌, ◌&&◌, Option, List, eq_text, Text, Bytes}
use breez_sdk.Prelude.Int.{ℤ}

pub record SyncSwap : Type 0 where
  pub bitcoin_address : Text
  pub created_at : ℤ
  pub lock_height : ℤ
  pub payment_hash : Bytes
  pub preimage : Bytes
  pub private_key : Bytes
  pub public_key : Bytes
  pub swapper_public_key : Bytes
  pub script : Bytes
  pub min_allowed_deposit : ℤ
  pub max_allowed_deposit : ℤ
  pub max_swapper_payable : ℤ

pub record SwapRefund : Type 0 where
  pub bitcoin_address : Text
  pub refund_tx_id : Text

pub record ExternalInfo : Type 0 where
  pub payment_id : Text
  pub lnurl_success_action : Option Text
  pub ln_address : Option Text
  pub lnurl_metadata : Option Text
  pub lnurl_withdraw_endpoint : Option Text
  pub attempted_amount_msat : Option ℤ
  pub attempted_error : Option Text
  pub lnurl_pay_domain : Option Text
  pub lnurl_pay_comment : Option Text

pub record PaymentMetadata : Type 0 where
  pub payment_id : Text
  pub metadata : Option Text
  pub updated_at : ℕ

pub record SyncReverseSwap : Type 0 where
  pub id : Text
  pub created_at_block_height : ℤ
  pub preimage : Bytes
  pub private_key : Bytes
  pub claim_pubkey : Text
  pub timeout_block_height : ℤ
  pub invoice : Text
  pub onchain_amount_sat : ℤ
  pub sat_per_vbyte : Option ℤ
  pub receive_amount_sat : Option ℤ
  pub redeem_script : Text

pub record SwapFees : Type 0 where
  pub bitcoin_address : Text
  pub created_at : ℕ
  pub channel_opening_fees : Text

pub data SyncTable : Type 0 where
  swaps_table swap_refunds_table external_info_table metadata_table : SyncTable
  reverse_swaps_table swaps_fees_table : SyncTable

-- `sync_requests`; its ids come from a sequence, which never gives an id again.
pub record SyncRequest : Type 0 where
  pub request_id : ℕ
  pub changed_table : SyncTable

pub record SyncDb : Type 0 where
  pub swaps : List SyncSwap
  pub swap_refunds : List SwapRefund
  pub payments_external_info : List ExternalInfo
  pub payments_metadata : List PaymentMetadata
  pub reverse_swaps : List SyncReverseSwap
  pub swaps_fees : List SwapFees
  pub sync_requests : List SyncRequest
  pub sequence : ℕ

-- A row that breaks a `UNIQUE` column.
abbrev pub swap_clash : SyncSwap → SyncSwap → Bool
swap_clash a b =
    eq_text a.payment_hash b.payment_hash
    || (eq_text a.preimage b.preimage
        || (eq_text a.private_key b.private_key
            || (eq_text a.public_key b.public_key
                || (eq_text a.swapper_public_key b.swapper_public_key
                    || eq_text a.script b.script))))

abbrev pub reverse_swap_clash : SyncReverseSwap → SyncReverseSwap → Bool
reverse_swap_clash a b =
    eq_text a.preimage b.preimage
    || (eq_text a.private_key b.private_key || eq_text a.invoice b.invoice)

abbrev pub same_refund : SwapRefund → SwapRefund → Bool
same_refund a b =
    eq_text a.bitcoin_address b.bitcoin_address && eq_text a.refund_tx_id b.refund_tx_id

abbrev pub swap_key : SyncSwap → Text
swap_key r = r.bitcoin_address

abbrev pub info_key : ExternalInfo → Text
info_key r = r.payment_id

abbrev pub metadata_key : PaymentMetadata → Text
metadata_key r = r.payment_id

abbrev pub reverse_swap_key : SyncReverseSwap → Text
reverse_swap_key r = r.id

abbrev pub fees_key : SwapFees → Text
fees_key r = r.bitcoin_address

abbrev pub no_clash : ExternalInfo → ExternalInfo → Bool
no_clash a b = false
