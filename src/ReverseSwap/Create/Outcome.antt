-- ===== src/ReverseSwap/Create/Outcome.antt =====
-- What `create_reverse_swap` of `libs/sdk-core/src/swap_out/reverseswap.rs` returns and stores.
use breez_sdk.Prelude.{
  ◌≡◌, refl, ap, sym, ◌∙◌, true, false, Option, some, [], ◌∷◌, ◌++◌, Text, Result, ok, arith, inl,
  inr, eq_text, eq_text_iff, eq_text_refl, any, Result-cases, Option-cases, Bool-cases,
}
use breez_sdk.SwapIn.Onchain.{OnchainTx}
use breez_sdk.ReverseSwap.Model.{
  FullReverseSwap, ReverseTable, in_progress, get_reverse_swap, update_reverse_swap_status,
  update_reverse_swap_lockup_txid, replace_status, put_lockup_txid,
}
use breez_sdk.ReverseSwap.{ReverseState, get_lockup_tx, txid_of}
use breez_sdk.ReverseSwap.Claims.{get_updated, emit-table}
use breez_sdk.ReverseSwap.Create.{
  CreateServices, PayOnchainRequest, ReverseSwapError, insert_reverse_swap, conflicts, checked_swap,
  store_result, race_result, create_reverse_swap,
}
use breez_sdk.ReverseSwap.Create.Checked.{Checked, checked_swap-Checked}

get_reverse_swap-appended :
    (r : FullReverseSwap) (t : ReverseTable)
    → any (conflicts r) t ≡ false
    → get_reverse_swap r.id (t ++ r ∷ []) ≡ some r
unfolding get_reverse_swap
get_reverse_swap-appended r [] free = rw (eq_text_refl r.id) refl
get_reverse_swap-appended r (q ∷ t) free = elim (Bool-cases (eq_text q.id r.id)) [
  | inl same ↦
      let e : eq_text r.id q.id ≡ true =
        ap (λ (i : Text). eq_text r.id i) ((eq_text_iff q.id r.id).0 same) ∙ eq_text_refl r.id in
      absurd (ground (arith, free, e))
  | inr other ↦ rw other (get_reverse_swap-appended r t (ground (arith, free)))
]

insert_reverse_swap-found :
    (r : FullReverseSwap) (t t' : ReverseTable)
    → insert_reverse_swap r t ≡ some t'
    → get_reverse_swap r.id t' ≡ some r
unfolding insert_reverse_swap
insert_reverse_swap-found r t t' h = elim (Bool-cases (any (conflicts r) t)) [
  | inl clash ↦ absurd (ground (arith, h, clash))
  | inr free ↦
      let same : t ++ r ∷ [] ≡ t' = ground (arith, h, free) in
      ap (get_reverse_swap r.id) (sym same) ∙ get_reverse_swap-appended r t free
]

module _ (services : CreateServices) where
  open services use {reverse, race}

  -- The stored swap when the lockup transaction was looked for.
  abbrev pub paid_swap : FullReverseSwap → Option OnchainTx → FullReverseSwap
  paid_swap r lockup = record r {
    cache = put_lockup_txid (txid_of reverse lockup) (replace_status in_progress r.cache);
  }

  create_reverse_swap-stored :
      (req : PayOnchainRequest) (r : FullReverseSwap) (st : ReverseState) (t : ReverseTable)
      → checked_swap services req ≡ ok r
      → insert_reverse_swap r st.table ≡ some t
      → create_reverse_swap services req st
        ≡ store_result services r (race_result (race r)) (record st { table = t })
  unfolding create_reverse_swap
  create_reverse_swap-stored req r st t checked inserted =
      rw (checked, inserted, create_reverse_swap) refl

  -- A swap whose payment the swapper has seen is stored as in progress, with the lockup transaction.
  pub create_reverse_swap-paid :
      (req : PayOnchainRequest) (r : FullReverseSwap) (st : ReverseState) (t : ReverseTable)
      (lockup : Option OnchainTx)
      → checked_swap services req ≡ ok r
      → insert_reverse_swap r st.table ≡ some t
      → race_result (race r) ≡ ok tt
      → get_lockup_tx reverse r ≡ ok lockup
      → get_reverse_swap r.id (create_reverse_swap services req st).1.table
        ≡ some (paid_swap r lockup)
  unfolding store_result update_reverse_swap_status update_reverse_swap_lockup_txid
  create_reverse_swap-paid req r st t lockup checked inserted won seen =
      let step = create_reverse_swap-stored req r st t checked inserted in
      let in_table : ReverseTable = update_reverse_swap_status r.id in_progress t in
      let updated : ReverseState = record st {
        table = update_reverse_swap_lockup_txid r.id (txid_of reverse lockup) in_table;
      } in
      let marked : FullReverseSwap = record r { cache = replace_status in_progress r.cache } in
      rw (step, won, seen, store_result)
        (ap (get_reverse_swap r.id) (emit-table reverse r.id updated)
          ∙ get_updated r.id (put_lockup_txid (txid_of reverse lockup)) in_table marked (
              get_updated r.id (replace_status in_progress) t r
                (insert_reverse_swap-found r st.table t inserted)))

  store_result-same :
      (r r' : FullReverseSwap) (won : Result ReverseSwapError (Unit {0})) (st : ReverseState)
      → (store_result services r won st).0 ≡ ok r'
      → r ≡ r'
  unfolding store_result
  store_result-same r r' won st h = ground (arith, h)

  -- A creation that returns a swap has made all the checks on it.
  pub create_reverse_swap-Checked :
      (req : PayOnchainRequest) (r : FullReverseSwap) (st : ReverseState)
      → (create_reverse_swap services req st).0 ≡ ok r
      → Checked services req r
  unfolding create_reverse_swap
  create_reverse_swap-Checked req r st h = elim (Result-cases (checked_swap services req)) [
    | inr (e, fails) ↦ absurd (ground (arith, h, fails))
    | inl (made, checked) ↦ elim (Option-cases (insert_reverse_swap made st.table)) [
      | inl fails ↦ absurd (ground (arith, h, checked, fails))
      | inr (t, inserted) ↦
          let stored : (store_result services made (race_result (race made))
                (record st { table = t })).0
              ≡ ok r =
            ground (arith, h, checked, inserted) in
          let same =
            store_result-same made r (race_result (race made)) (record st { table = t }) stored in
          checked_swap-Checked services req r (checked ∙ ap ok same)
    ]
  ]
