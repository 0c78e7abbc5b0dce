-- ===== src/ReverseSwap/Create/Checked.antt =====
-- What `create_reverse_swap` of `libs/sdk-core/src/swap_out/reverseswap.rs` has checked when it stores a
-- swap, and what it stores.
use mathlib.Core.Path.{subst}
use breez_sdk.Prelude.{
  ◌≡◌, refl, ap, sym, ◌∙◌, ℕ, ◌+◌, ◌*◌, ◌≤◌, ◌<◌, true, Option, some, Text, Bytes, ok, arith, inl,
  inr, eq_text_iff, Result-cases, Option-cases, Bool-cases, ◌>>◌,
}
use breez_sdk.Prelude.Words.{wrap_u64, sub_u64}
use breez_sdk.ReverseSwap.Model.{FullReverseSwap}
use breez_sdk.ReverseSwap.Create.{
  CreateServices, PayOnchainRequest, PrepareResponse, or_zero, calculate_claim_tx_fee,
  validate_claim_tx_fee, validate_recipient_address, validate_invoice_amount, validate_invoice,
  validate_redeem_script, create_and_validate_rev_swap_on_remote, validate_amounts, checked_swap,
  swap_of_response, SwapKeys, CreateResponse,
}

module _ (services : CreateServices) where
  open services use {
    create_reverse_swap_on_remote, current_height, create_swap_keys, fetch_reverse_routing_node,
    is_address, sha256, public_key, parse_invoice, script_from_hex, refund_address,
    build_expected_reverse_swap_script, p2wsh, get_service_fee_sat, claim_base_size,
  }

  -- The invoice asks for `msat` and pays for the preimage of the swap.
  pub record InvoiceFits (r : FullReverseSwap) (msat : ℕ) : Type 0 where
    pub invoice_amount : Option ℕ
    pub parsed : parse_invoice r.invoice ≡ some (invoice_amount, sha256 r.preimage)
    pub amount_fits : or_zero invoice_amount ≡ msat

  -- The script is the one that the keys, the preimage and the timeout make with some refund address.
  pub record ScriptFits (r : FullReverseSwap) : Type 0 where
    pub key : Bytes
    pub refund : Bytes
    pub script_bytes : Bytes
    pub own_key : public_key r.private_key ≡ some key
    pub received : script_from_hex r.redeem_script ≡ some script_bytes
    pub expected :
        build_expected_reverse_swap_script (sha256 r.preimage) key refund r.timeout_block_height
        ≡ some script_bytes

  -- The amounts of the preparation are those of the swap.
  pub record AmountsFit (prep : PrepareResponse) (r : FullReverseSwap) : Type 0 where
    pub onchain_fits :
        r.onchain_amount_sat
        ≡ sub_u64
            (sub_u64 prep.sender_amount_sat
              (get_service_fee_sat prep.sender_amount_sat prep.fees_percentage))
            prep.fees_lockup
    pub receives : prep.recipient_amount_sat < r.onchain_amount_sat
    pub claim_fee_enough :
        calculate_claim_tx_fee claim_base_size 1 + prep.recipient_amount_sat ≤ r.onchain_amount_sat

  validate_amounts-AmountsFit :
      (prep : PrepareResponse) (r : FullReverseSwap)
      → validate_amounts services prep r ≡ ok tt
      → AmountsFit prep r
  unfolding validate_amounts validate_claim_tx_fee
  validate_amounts-AmountsFit prep r h =
      elim (Result-cases
        (validate_invoice_amount services r (wrap_u64 (prep.sender_amount_sat * 1000)))) [
          | inr (e, fails) ↦ absurd (ground (arith, h, fails))
          | inl (done, fits) ↦ record {
            onchain_fits = ground (arith, h, fits);
            receives = ground (arith, h, fits);
            claim_fee_enough = ground (arith, h, fits);
          }
        ]

  validate_invoice-InvoiceFits :
      (r : FullReverseSwap) (msat : ℕ)
      → validate_invoice services r msat ≡ ok tt
      → InvoiceFits r msat
  unfolding validate_invoice validate_invoice_amount
  validate_invoice-InvoiceFits r msat h = elim (Option-cases (parse_invoice r.invoice)) [
    | inl fails ↦ absurd (ground (arith, h, fails))
    | inr ((amount, hash), found) ↦
        let same : hash ≡ sha256 r.preimage =
          (eq_text_iff hash (sha256 r.preimage)).0 (ground (arith, h, found)) in
        record {
          invoice_amount = amount;
          parsed = found ∙ ap (λ (b : Bytes). some (amount, b)) same;
          amount_fits = ground (arith, h, found);
        }
  ]

  validate_redeem_script-ScriptFits :
      (r : FullReverseSwap) (lockup_address : Text)
      → validate_redeem_script services r lockup_address ≡ ok tt
      → ScriptFits r
  unfolding validate_redeem_script
  validate_redeem_script-ScriptFits r lockup_address h =
      elim (Option-cases (script_from_hex r.redeem_script)) [
        | inl fails ↦ absurd (ground (arith, h, fails))
        | inr (received, hex) ↦ elim (Option-cases (public_key r.private_key)) [
          | inl fails ↦ absurd (ground (arith, h, hex, fails))
          | inr (pk, own) ↦ elim (Option-cases (refund_address received)) [
            | inl fails ↦ absurd (ground (arith, h, hex, own, fails))
            | inr (refund, asm) ↦
                elim (Option-cases (
                  build_expected_reverse_swap_script (sha256 r.preimage) pk refund
                    r.timeout_block_height)) [
                      | inl fails ↦ absurd (ground (arith, h, hex, own, asm, fails))
                      | inr (expected, built) ↦
                          let same : received ≡ expected =
                            (eq_text_iff received expected).0
                              (ground (arith, h, hex, own, asm, built)) in
                          record {
                            key = pk;
                            refund = refund;
                            script_bytes = received;
                            own_key = own;
                            received = hex;
                            expected = built ∙ ap some (sym same);
                          }
                    ]
          ]
        ]
      ]

  -- Everything that is checked of a swap before it is stored.
  pub record Checked (req : PayOnchainRequest) (r : FullReverseSwap) : Type 0 where
    pub valid_recipient : is_address req.recipient_address ≡ true
    pub to_recipient : r.claim_pubkey ≡ req.recipient_address
    pub invoice_fits : InvoiceFits r (wrap_u64 (req.prepare_res.sender_amount_sat * 1000))
    pub script_fits : ScriptFits r
    pub amounts_fit : AmountsFit req.prepare_res r

  -- What the answer of the swapper has to pass.
  validated-Checked :
      (req : PayOnchainRequest) (keys : SwapKeys) (response : CreateResponse) (height : ℕ)
      (r : FullReverseSwap)
      → (let made = swap_of_response services req keys response height in
          validate_invoice services made (wrap_u64 (req.prepare_res.sender_amount_sat * 1000))
          >> (validate_redeem_script services made response.lockup_address >> ok made))
        ≡ ok r
      → (r.claim_pubkey ≡ req.recipient_address)
        × (InvoiceFits r (wrap_u64 (req.prepare_res.sender_amount_sat * 1000)) × ScriptFits r)
  unfolding swap_of_response
  validated-Checked req keys response height r h =
      let made : FullReverseSwap = swap_of_response services req keys response height in
      let msat : ℕ = wrap_u64 (req.prepare_res.sender_amount_sat * 1000) in
      elim (Result-cases (validate_invoice services made msat)) [
        | inr (e, fails) ↦ absurd (ground (arith, h, fails))
        | inl (done, invoice) ↦
            elim (Result-cases (validate_redeem_script services made response.lockup_address)) [
              | inr (e, fails) ↦ absurd (ground (arith, h, invoice, fails))
              | inl (done, script) ↦
                  let same : made ≡ r = ground (arith, h, invoice, script) in
                  subst
                    (λ (x : FullReverseSwap).
                      (x.claim_pubkey ≡ req.recipient_address)
                      × (InvoiceFits x msat × ScriptFits x))
                    same
                    (
                      refl,
                      (
                        validate_invoice-InvoiceFits made msat invoice,
                        validate_redeem_script-ScriptFits made response.lockup_address script,
                      ),
                    )
            ]
      ]

  remote-Checked :
      (req : PayOnchainRequest) (node : Text) (r : FullReverseSwap)
      → create_and_validate_rev_swap_on_remote services req node ≡ ok r
      → (r.claim_pubkey ≡ req.recipient_address)
        × (InvoiceFits r (wrap_u64 (req.prepare_res.sender_amount_sat * 1000)) × ScriptFits r)
  unfolding create_and_validate_rev_swap_on_remote
  remote-Checked req node r h = elim (Result-cases create_swap_keys) [
    | inr (e, fails) ↦ absurd (ground (arith, h, fails))
    | inl (keys, got_keys) ↦ elim (Option-cases (public_key keys.priv_key)) [
      | inl fails ↦ absurd (ground (arith, h, got_keys, fails))
      | inr (pk, got_pk) ↦
          elim (Result-cases (
            create_reverse_swap_on_remote req.prepare_res.sender_amount_sat (sha256 keys.preimage)
              pk req.prepare_res.fees_hash node)) [
                | inr (e, fails) ↦ absurd (ground (arith, h, got_keys, got_pk, fails))
                | inl (answer, answered) ↦ elim (Option-cases answer) [
                  | inl fails ↦ absurd (ground (arith, h, got_keys, got_pk, answered, fails))
                  | inr (response, success) ↦ elim (Result-cases current_height) [
                    | inr (e, fails) ↦
                        absurd (ground (arith, h, got_keys, got_pk, answered, success, fails))
                    | inl (height, at_height) ↦
                        validated-Checked req keys response height r
                          (sym (rw (got_keys, got_pk, answered, success, at_height) refl) ∙ h)
                  ]
                ]
              ]
    ]
  ]

  pub checked_swap-Checked :
      (req : PayOnchainRequest) (r : FullReverseSwap)
      → checked_swap services req ≡ ok r
      → Checked req r
  unfolding checked_swap validate_recipient_address
  checked_swap-Checked req r h = elim (Bool-cases (is_address req.recipient_address)) [
    | inr bad ↦ absurd (ground (arith, h, bad))
    | inl good ↦ elim (Result-cases fetch_reverse_routing_node) [
      | inr (e, fails) ↦ absurd (ground (arith, h, good, fails))
      | inl (node, routed) ↦
          elim (Result-cases (create_and_validate_rev_swap_on_remote services req node)) [
            | inr (e, fails) ↦ absurd (ground (arith, h, good, routed, fails))
            | inl (made, created) ↦
                elim (Result-cases (validate_amounts services req.prepare_res made)) [
                  | inr (e, fails) ↦ absurd (ground (arith, h, good, routed, created, fails))
                  | inl (done, amounts) ↦
                      let same : made ≡ r = ground (arith, h, good, routed, created, amounts) in
                      let remote = remote-Checked req node made created in
                      subst (Checked req) same (record {
                        valid_recipient = good;
                        to_recipient = remote.0;
                        invoice_fits = remote.1.0;
                        script_fits = remote.1.1;
                        amounts_fit = validate_amounts-AmountsFit req.prepare_res made amounts;
                      })
                ]
          ]
    ]
  ]
