-- ===== src/ReverseSwap/Claims.antt =====
-- What one round over a reverse swap leaves behind (`libs/sdk-core/src/swap_out/reverseswap.rs`).
use breez_sdk.Prelude.{
  ◌≡◌, refl, ap, ◌∙◌, inl, inr, false, Option, none, some, [], ◌∷◌, arith, Text, ok, eq_text,
  is_none, Result-cases, Bool-cases,
}
use breez_sdk.SwapIn.Onchain.{OnchainTx}
use breez_sdk.ReverseSwap.Model.{
  ReverseSwapStatus, completed_seen, completed_confirmed, FullReverseSwap, ReverseSwapCache,
  ReverseTable, get_reverse_swap, update_cache, update_reverse_swap_status, replace_status,
}
use breez_sdk.ReverseSwap.{
  is_failed_payment, claim_tx_status, ClaimTxStatus, tx_confirmed, ReverseServices, ReverseState,
  emit_reverse_swap_updated, get_lockup_tx, get_claim_tx, get_status_update_for_monitored,
  next_status, store_status, broadcast_claim, cache_lockup, cache_claim, claim_one,
}

pub get_updated :
    (i : Text) (f : ReverseSwapCache → ReverseSwapCache) (t : ReverseTable) (r : FullReverseSwap)
    → get_reverse_swap i t ≡ some r
    → get_reverse_swap i (update_cache i f t) ≡ some (record r { cache = f r.cache })
unfolding get_reverse_swap update_cache
get_updated i f [] r h = absurd (ground (arith, h))
get_updated i f (q ∷ t) r h = elim (Bool-cases (eq_text q.id i)) [
  | inl hit ↦
      let same : q ≡ r = ground (arith, h, hit) in
      rw (hit, hit) (ap (λ (z : FullReverseSwap). some (record z { cache = f z.cache })) same)
  | inr miss ↦ rw (miss, miss) (get_updated i f t r (ground (arith, h, miss)))
]

module _ (services : ReverseServices) where
  open services use {get_lockup_address, get_payment_status, convert_reverse_swap_info}

  pub emit-table :
      (i : Text) (st : ReverseState) → (emit_reverse_swap_updated services i st).1.table ≡ st.table
  unfolding emit_reverse_swap_updated
  emit-table i st = ground arith

  store_status-table :
      (r : FullReverseSwap) (s : ReverseSwapStatus) (st : ReverseState)
      → (store_status services r (some s) st).1.table ≡ update_reverse_swap_status r.id s st.table
  unfolding store_status
  store_status-table r s st =
      emit-table r.id (record st { table = update_reverse_swap_status r.id s st.table })

  broadcast-table :
      (r : FullReverseSwap) (lockup : Option OnchainTx) (st : ReverseState)
      → (broadcast_claim services r (claim_tx_status lockup) st).1.table ≡ st.table
  unfolding broadcast_claim
  broadcast-table r lockup st = ground arith

  cache_lockup_same :
      (r : FullReverseSwap) (lockup : Option OnchainTx) (st : ReverseState)
      → is_none r.cache.lockup_txid ≡ false
      → cache_lockup services r lockup st ≡ (ok tt, st)
  unfolding cache_lockup
  cache_lockup_same r lockup st h = rw h refl

  cache_claim_same :
      (r : FullReverseSwap) (claim : Option OnchainTx) (sent : Option Text) (st : ReverseState)
      → is_none r.cache.claim_txid ≡ false
      → cache_claim services r claim sent st ≡ (ok tt, st)
  unfolding cache_claim
  cache_claim_same r claim sent st h = rw h refl

  now_confirmed :
      (r : FullReverseSwap) (claim : ClaimTxStatus)
      → r.cache.status ≡ completed_seen
      → is_failed_payment services (get_payment_status r) ≡ false
      → claim ≡ tx_confirmed
      → get_status_update_for_monitored services r claim ≡ ok (some completed_confirmed)
  unfolding get_status_update_for_monitored next_status
  now_confirmed r claim status paid confirmed = ground (arith, status, paid, confirmed)

  conclude :
      (r : FullReverseSwap) (end st : ReverseState) {x : Option FullReverseSwap}
      → end ≡ st
      → get_reverse_swap r.id st.table ≡ x
      → get_reverse_swap r.id end.table ≡ x
  conclude r end st e h = ap (λ (z : ReverseState). get_reverse_swap r.id z.table) e ∙ h

  -- A swap whose claim had been seen, with both transaction ids stored, and whose claim is now confirmed
  -- is stored as confirmed without either of the ids, whether the round returns an error or not.
  pub claim_one-forgets :
      (r : FullReverseSwap) (lockup_txid claim_txid : Text) (lockup : Option OnchainTx)
      (claim : OnchainTx) (st : ReverseState)
      → get_reverse_swap r.id st.table ≡ some r
      → r.cache ≡ record {
        status = completed_seen;
        lockup_txid = some lockup_txid;
        claim_txid = some claim_txid;
      }
      → is_failed_payment services (get_payment_status r) ≡ false
      → get_lockup_tx services r ≡ ok lockup
      → get_claim_tx services r ≡ ok (some claim)
      → claim_tx_status (some claim) ≡ tx_confirmed
      → get_reverse_swap r.id (claim_one services r st).1.table
        ≡ some (record r {
          cache = record { status = completed_confirmed; lockup_txid = none; claim_txid = none };
        })
  unfolding claim_one update_reverse_swap_status
  claim_one-forgets r lockup_txid claim_txid lockup claim st held cached paid locked claimed
        confirmed =
      let status : r.cache.status ≡ completed_seen =
        ap (λ (c : ReverseSwapCache). c.status) cached in
      let new = now_confirmed r (claim_tx_status (some claim)) status paid confirmed in
      let stored = store_status services r (some completed_confirmed) st in
      let sent = broadcast_claim services r (claim_tx_status lockup) stored.1 in
      let kept =
        cache_lockup_same r lockup sent.1
          (ap (λ (c : ReverseSwapCache). is_none c.lockup_txid) cached) in
      let written = get_updated r.id (replace_status completed_confirmed) st.table r held in
      let table = store_status-table r completed_confirmed st in
      elim (Result-cases stored.0) [
        | inr (e, failed) ↦
            let end : (claim_one services r st).1 ≡ stored.1 =
              ground (arith, locked, claimed, new, failed) in
            conclude r (claim_one services r st).1 stored.1 end
              (ap (get_reverse_swap r.id) table ∙ written)
        | inl (u, done) ↦ elim (Result-cases sent.0) [
          | inr (e, failed) ↦
              let end : (claim_one services r st).1 ≡ sent.1 =
                ground (arith, locked, claimed, new, done, failed) in
              conclude r (claim_one services r st).1 sent.1 end
                (ap (get_reverse_swap r.id) (broadcast-table r lockup stored.1 ∙ table) ∙ written)
          | inl (txid, broadcast) ↦
              let last =
                cache_claim_same r (some claim) txid sent.1
                  (ap (λ (c : ReverseSwapCache). is_none c.claim_txid) cached) in
              let end : (claim_one services r st).1 ≡ sent.1 =
                ground (arith, locked, claimed, new, done, broadcast, kept, last) in
              conclude r (claim_one services r st).1 sent.1 end
                (ap (get_reverse_swap r.id) (broadcast-table r lockup stored.1 ∙ table) ∙ written)
        ]
      ]
