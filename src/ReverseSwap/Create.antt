-- ===== src/ReverseSwap/Create.antt =====
-- Creating a reverse swap: `create_reverse_swap` and what it calls in
-- `libs/sdk-core/src/swap_out/reverseswap.rs`, the checks of `FullReverseSwapInfo` in
-- `libs/sdk-core/src/models.rs`, and `insert_reverse_swap` of `libs/sdk-core/src/persist/reverseswap.rs`.
-- The swapper, the node, the parsers of invoices, scripts and addresses and the arithmetic on floats are
-- parameters; amounts are on 64 bits and wrap around.
pub mod Checked
pub mod Outcome
pub mod Prepare
mod Tests
use breez_sdk.Prelude.{
  ◌≡◌, ℕ, ◌+◌, ◌-◌, ◌*◌, ◌/◌, ◌%◌, Bool, true, false, ◌||◌, ◌&&◌, not, Option, none, some, List, [],
  ◌∷◌, ◌++◌, Text, Bytes, Result, ok, err, ◌>>=◌, ◌>>◌, ok_or, ensure, if◌then◌else◌, leb, ltb,
  ◌==◌, any, eq_text, is_some,
}
use breez_sdk.Prelude.Words.{wrap_u64, sub_u64}
use breez_sdk.SwapIn.Onchain.{OnchainTx}
use breez_sdk.ReverseSwap.Model.{
  FullReverseSwap, ReverseTable, BoltzStatus, lock_tx_mempool, lock_tx_confirmed, initial,
  in_progress, cancelled, get_reverse_swap, update_reverse_swap_status,
  update_reverse_swap_lockup_txid,
}
use breez_sdk.ReverseSwap.{
  ReverseServices, ReverseState, get_lockup_tx, emit_reverse_swap_updated, txid_of,
}

-- `ReverseSwapError`, by its variants, without their texts.
pub data ReverseSwapError : Type 0 where
  claim_feerate_too_low generic invalid_destination_address persistence : ReverseSwapError
  route_not_found service_connectivity unexpected_invoice_amount : ReverseSwapError
  unexpected_lockup_address unexpected_payment_hash unexpected_redeem_script : ReverseSwapError
  payment_failed_error payment_timeout invoice_error : ReverseSwapError

-- `PrepareOnchainPaymentResponse`; the percentage is a float, by its bits.
pub record PrepareResponse : Type 0 where
  pub sender_amount_sat : ℕ
  pub recipient_amount_sat : ℕ
  pub fees_lockup : ℕ
  pub fees_percentage : ℕ
  pub fees_hash : Text
  pub fees_claim : ℕ
  pub total_fees : ℕ

pub record PayOnchainRequest : Type 0 where
  pub recipient_address : Text
  pub prepare_res : PrepareResponse

pub record SwapKeys : Type 0 where
  pub priv_key : Bytes
  pub preimage : Bytes

-- `CreateReverseSwapResponse`, the answer of the swapper.
pub record CreateResponse : Type 0 where
  pub id : Text
  pub invoice : Text
  pub redeem_script : Text
  pub onchain_amount : ℕ
  pub timeout_block_height : ℕ
  pub lockup_address : Text

-- How the race ends between paying the invoice and polling the swapper.
pub data Race : Type 0 where
  pay_returned : Race
  pay_failed : Race
  timed_out : Race
  polled : Result ReverseSwapError (Unit {0}) → Race

-- The loop over the answers of the swapper; `none` where it goes on.
unfoldable pub poll_initial_boltz_status_transition :
    List (Result ReverseSwapError BoltzStatus) → Option (Result ReverseSwapError (Unit {0}))
poll_initial_boltz_status_transition [] = none
poll_initial_boltz_status_transition (err e ∷ answers) = some (err e)
poll_initial_boltz_status_transition (ok lock_tx_mempool ∷ answers) = some (ok tt)
poll_initial_boltz_status_transition (ok lock_tx_confirmed ∷ answers) = some (ok tt)
poll_initial_boltz_status_transition (ok _ ∷ answers) = poll_initial_boltz_status_transition answers

unfoldable pub race_result : Race → Result ReverseSwapError (Unit {0})
race_result pay_returned = err payment_failed_error
race_result pay_failed = err payment_failed_error
race_result timed_out = err payment_timeout
race_result (polled r) = r

-- The fee of a claim at a rate, from the size of the transaction without witnesses; on 32 bits.
unfoldable pub calculate_claim_tx_fee : ℕ → ℕ → ℕ
calculate_claim_tx_fee base_size rate = (base_size * 4 + 217) * rate % 4294967296 / 4

unfoldable pub validate_claim_tx_fee : ℕ → ℕ → Result ReverseSwapError (Unit {0})
unfolding calculate_claim_tx_fee
validate_claim_tx_fee base_size claim_fee =
    ensure (leb (calculate_claim_tx_fee base_size 1) claim_fee) claim_feerate_too_low

pub record CreateServices : Type 0 where
  pub reverse : ReverseServices
  pub is_address : Text → Bool
  pub fetch_reverse_routing_node : Result ReverseSwapError Text
  pub create_swap_keys : Result ReverseSwapError SwapKeys
  pub create_reverse_swap_on_remote :
      ℕ → Bytes → Bytes → Text → Text → Result ReverseSwapError (Option CreateResponse)
  pub current_height : Result ReverseSwapError ℕ
  pub sha256 : Bytes → Bytes
  pub public_key : Bytes → Option Bytes
  pub parse_invoice : Text → Option (Option ℕ × Bytes)
  pub script_from_hex : Text → Option Bytes
  pub refund_address : Bytes → Option Bytes
  pub build_expected_reverse_swap_script : Bytes → Bytes → Bytes → ℕ → Option Bytes
  pub p2wsh : Bytes → Text
  pub get_service_fee_sat : ℕ → ℕ → ℕ
  pub claim_base_size : ℕ
  pub race : FullReverseSwap → Race

abbrev pub or_zero : Option ℕ → ℕ
or_zero none = 0
or_zero (some n) = n

-- A row that breaks the primary key or a `UNIQUE` column of `reverse_swaps`.
abbrev pub conflicts : FullReverseSwap → FullReverseSwap → Bool
conflicts a b =
    eq_text a.id b.id
    || (eq_text a.preimage b.preimage
        || (eq_text a.private_key b.private_key || eq_text a.invoice b.invoice))

unfoldable pub insert_reverse_swap : FullReverseSwap → ReverseTable → Option ReverseTable
insert_reverse_swap r t = if any (conflicts r) t then none else some (t ++ r ∷ [])

module _ (services : CreateServices) where
  open services use {
    reverse, is_address, fetch_reverse_routing_node, create_swap_keys,
    create_reverse_swap_on_remote, current_height, sha256, public_key, parse_invoice,
    script_from_hex, refund_address, build_expected_reverse_swap_script, p2wsh, get_service_fee_sat,
    claim_base_size, race,
  }

  unfoldable pub validate_recipient_address : Text → Result ReverseSwapError (Unit {0})
  validate_recipient_address a = ensure (is_address a) invalid_destination_address

  unfoldable pub validate_invoice_amount : FullReverseSwap → ℕ → Result ReverseSwapError (Unit {0})
  validate_invoice_amount r expected = ok_or (parse_invoice r.invoice) invoice_error >>= λ inv.
      ensure (or_zero inv.0 == expected) unexpected_invoice_amount

  unfoldable pub validate_invoice : FullReverseSwap → ℕ → Result ReverseSwapError (Unit {0})
  unfolding validate_invoice_amount
  validate_invoice r expected =
      validate_invoice_amount r expected
      >> (ok_or (parse_invoice r.invoice) invoice_error >>= λ inv.
          ensure (eq_text inv.1 (sha256 r.preimage)) unexpected_payment_hash)

  unfoldable pub validate_redeem_script :
      FullReverseSwap → Text → Result ReverseSwapError (Unit {0})
  validate_redeem_script r lockup_address =
      ok_or (script_from_hex r.redeem_script) generic >>= λ received.
      ok_or (public_key r.private_key) generic >>= λ pk.
      ok_or (refund_address received) generic >>= λ refund.
      ok_or
        (build_expected_reverse_swap_script (sha256 r.preimage) pk refund r.timeout_block_height)
        generic
      >>= λ expected.
          ensure (eq_text received expected) unexpected_redeem_script
          >> ensure (eq_text (p2wsh received) lockup_address) unexpected_lockup_address

  -- The swap that the answer of the swapper makes.
  unfoldable pub swap_of_response :
      PayOnchainRequest → SwapKeys → CreateResponse → ℕ → FullReverseSwap
  swap_of_response req keys response height = record {
    id = response.id;
    created_at_block_height = height;
    preimage = keys.preimage;
    private_key = keys.priv_key;
    claim_pubkey = req.recipient_address;
    timeout_block_height = response.timeout_block_height;
    invoice = response.invoice;
    redeem_script = response.redeem_script;
    onchain_amount_sat = response.onchain_amount;
    sat_per_vbyte = none;
    receive_amount_sat = some req.prepare_res.recipient_amount_sat;
    cache = record { status = initial; lockup_txid = none; claim_txid = none };
  }

  unfoldable pub create_and_validate_rev_swap_on_remote :
      PayOnchainRequest → Text → Result ReverseSwapError FullReverseSwap
  unfolding swap_of_response validate_invoice validate_redeem_script
  create_and_validate_rev_swap_on_remote req routing_node = create_swap_keys >>= λ keys.
      ok_or (public_key keys.priv_key) generic >>= λ pk.
      create_reverse_swap_on_remote req.prepare_res.sender_amount_sat (sha256 keys.preimage) pk
        req.prepare_res.fees_hash routing_node
      >>= λ answer. ok_or answer service_connectivity >>= λ response. current_height >>= λ height.
          let r = swap_of_response req keys response height in
          validate_invoice r (wrap_u64 (req.prepare_res.sender_amount_sat * 1000))
          >> (validate_redeem_script r response.lockup_address >> ok r)

  -- The checks of `create_reverse_swap` on the amounts.
  unfoldable pub validate_amounts :
      PrepareResponse → FullReverseSwap → Result ReverseSwapError (Unit {0})
  unfolding validate_invoice_amount validate_claim_tx_fee
  validate_amounts prep r =
      let service_fee = get_service_fee_sat prep.sender_amount_sat prep.fees_percentage in
      let expected = sub_u64 (sub_u64 prep.sender_amount_sat service_fee) prep.fees_lockup in
      validate_invoice_amount r (wrap_u64 (prep.sender_amount_sat * 1000))
      >> (ensure (r.onchain_amount_sat == expected) generic
          >> (ensure (ltb prep.recipient_amount_sat r.onchain_amount_sat) generic
              >> validate_claim_tx_fee claim_base_size
                  (r.onchain_amount_sat - prep.recipient_amount_sat)))

  -- What is stored after the race.
  unfoldable pub store_result :
      FullReverseSwap
      → Result ReverseSwapError (Unit {0})
      → ReverseState
      → Result ReverseSwapError FullReverseSwap × ReverseState
  unfolding get_lockup_tx emit_reverse_swap_updated
  store_result r (err e) st =
      let (a, st1) =
        emit_reverse_swap_updated reverse r.id
          (record st { table = update_reverse_swap_status r.id cancelled st.table }) in
      (elim a [ err _ ↦ err generic | ok _ ↦ err e ], st1)
  store_result r (ok _) st = elim (get_lockup_tx reverse r) [
    | err _ ↦ (err generic, st)
    | ok lockup ↦
        let t = update_reverse_swap_status r.id in_progress st.table in
        let (a, st1) =
          emit_reverse_swap_updated reverse r.id (record st {
            table = update_reverse_swap_lockup_txid r.id (txid_of reverse lockup) t;
          }) in
        (elim a [ err _ ↦ err generic | ok _ ↦ ok r ], st1)
  ]

  -- A swap is checked before it is stored.
  unfoldable pub checked_swap : PayOnchainRequest → Result ReverseSwapError FullReverseSwap
  unfolding validate_recipient_address create_and_validate_rev_swap_on_remote validate_amounts
  checked_swap req =
      validate_recipient_address req.recipient_address
      >> (fetch_reverse_routing_node >>= λ node.
          create_and_validate_rev_swap_on_remote req node >>= λ r.
          validate_amounts req.prepare_res r >> ok r)

  unfoldable pub create_reverse_swap :
      PayOnchainRequest → ReverseState → Result ReverseSwapError FullReverseSwap × ReverseState
  unfolding checked_swap insert_reverse_swap store_result race_result
  create_reverse_swap req st = elim (checked_swap req) [
    | err e ↦ (err e, st)
    | ok r ↦ elim (insert_reverse_swap r st.table) [
      | none ↦ (err persistence, st)
      | some t ↦ store_result r (race_result (race r)) (record st { table = t })
    ]
  ]
