-- ===== src/SwapIn/Storage.antt =====
-- The swaps that `libs/sdk-core/src/persist/swap.rs` keeps: the joined rows of its tables, one for an
-- address. Failures of the local database are left out, but for the primary key and the fees that an
-- insertion has to have.
use breez_sdk.Prelude.{
  ◌≡◌, ℕ, Bool, true, ◌&&◌, ◌||◌, not, Option, none, some, List, [], ◌∷◌, ◌++◌, arith, map, Text,
  Bytes, if◌then◌else◌, ◌==◌, eq_text, eq_text_iff, any, filterb, is_some,
}
use breez_sdk.Prelude.Int.{ℤ, leb_ℤ, ltb_ℤ}
use breez_sdk.Fees.{OpeningFeeParams}
use breez_sdk.SwapIn.Model.{SwapStatus, status_code, SwapInfo, SwapChainData, SwapChainInfo}

pub record SwapRow : Type 0 where
  pub info : SwapInfo
  pub chain_data : Option SwapChainData

abbrev pub SwapTable : Type 0
SwapTable = List SwapRow

-- `SELECT … WHERE swaps.bitcoin_address = ?1`
unfoldable pub select_swap : Text → SwapTable → Option SwapRow
select_swap a [] = none
select_swap a (r ∷ t) = if eq_text r.info.bitcoin_address a then some r else select_swap a t

-- `UPDATE … WHERE bitcoin_address = :bitcoin_address`
unfoldable pub update_swap : Text → (SwapRow → SwapRow) → SwapTable → SwapTable
update_swap a f [] = []
update_swap a f (r ∷ t) = (if eq_text r.info.bitcoin_address a then f r else r) ∷ update_swap a f t

unfoldable pub get_swap_info_by_address : Text → SwapTable → Option SwapInfo
unfolding select_swap
get_swap_info_by_address a t = elim (select_swap a t) [ none ↦ none | some r ↦ some r.info ]

unfoldable pub get_swap_info_by_hash : Bytes → SwapTable → Option SwapInfo
get_swap_info_by_hash hash [] = none
get_swap_info_by_hash hash (r ∷ t) =
    if eq_text r.info.payment_hash hash then some r.info else get_swap_info_by_hash hash t

unfoldable pub get_swap_chain_data : Text → SwapTable → Option SwapChainData
unfolding select_swap
get_swap_chain_data a t = elim (select_swap a t) [ none ↦ none | some r ↦ r.chain_data ]

-- The columns that go with new chain data, in the table and in a copy of a swap.
abbrev pub with_chain_info : SwapChainInfo → SwapInfo → SwapInfo
with_chain_info c i = record i {
  total_incoming_txs = c.info_total_incoming_txs;
  unconfirmed_sats = c.info_unconfirmed_sats;
  unconfirmed_tx_ids = c.info_unconfirmed_tx_ids;
  confirmed_sats = c.info_confirmed_sats;
  confirmed_tx_ids = c.info_confirmed_tx_ids;
  confirmed_at = c.info_confirmed_at;
}

abbrev pub put_chain_data : SwapChainData → SwapChainInfo → SwapRow → SwapRow
put_chain_data d c r = record { info = with_chain_info c r.info; chain_data = some d }

unfoldable pub set_swap_chain_data : Text → SwapChainData → SwapChainInfo → SwapTable → SwapTable
unfolding update_swap
set_swap_chain_data a d c t = update_swap a (put_chain_data d c) t

abbrev pub put_status : SwapStatus → SwapRow → SwapRow
put_status s r = record r { info = record r.info { status = s } }

unfoldable pub set_swap_status : Text → SwapStatus → SwapTable → SwapTable
unfolding update_swap
set_swap_status a s t = update_swap a (put_status s) t

abbrev pub put_paid : ℕ → SwapRow → SwapRow
put_paid n r = record r { info = record r.info { paid_msat = n } }

unfoldable pub update_swap_paid_amount : Text → ℕ → SwapTable → SwapTable
unfolding update_swap
update_swap_paid_amount a n t = update_swap a (put_paid n) t

abbrev pub put_max_deposit : ℤ → SwapRow → SwapRow
put_max_deposit n r = record r { info = record r.info { max_allowed_deposit = n } }

unfoldable pub update_swap_max_allowed_deposit : Text → ℤ → SwapTable → SwapTable
unfolding update_swap
update_swap_max_allowed_deposit a n t = update_swap a (put_max_deposit n) t

abbrev pub put_redeem_error : Text → SwapRow → SwapRow
put_redeem_error e r = record r { info = record r.info { last_redeem_error = some e } }

unfoldable pub update_swap_redeem_error : Text → Text → SwapTable → SwapTable
unfolding update_swap
update_swap_redeem_error a e t = update_swap a (put_redeem_error e) t

abbrev pub put_bolt11 : Text → SwapRow → SwapRow
put_bolt11 b r = record r { info = record r.info { bolt11 = some b } }

unfoldable pub update_swap_bolt11 : Text → Text → SwapTable → SwapTable
unfolding update_swap
update_swap_bolt11 a b t = update_swap a (put_bolt11 b) t

abbrev pub put_fees : OpeningFeeParams → SwapRow → SwapRow
put_fees p r = record r { info = record r.info { channel_opening_fees = some p } }

unfoldable pub update_swap_fees : Text → OpeningFeeParams → SwapTable → SwapTable
unfolding update_swap
update_swap_fees a p t = update_swap a (put_fees p) t

-- `INSERT OR IGNORE`: a transaction that is there is not added again.
abbrev pub put_refund : Text → SwapRow → SwapRow
put_refund id r =
    if any (eq_text id) r.info.refund_tx_ids
    then r
    else record r { info = record r.info { refund_tx_ids = r.info.refund_tx_ids ++ id ∷ [] } }

unfoldable pub insert_swap_refund_tx_ids : Text → Text → SwapTable → SwapTable
unfolding update_swap
insert_swap_refund_tx_ids a id t = update_swap a (put_refund id) t

-- `none` where the transaction of the database is refused. The invoice is not stored, nor are
-- refunds and errors.
unfoldable pub insert_swap : SwapInfo → SwapTable → Option SwapTable
unfolding select_swap
insert_swap i t =
    if is_some (select_swap i.bitcoin_address t) || not (is_some i.channel_opening_fees)
    then none
    else some (
        t
        ++ record {
          info = record i { bolt11 = none; refund_tx_ids = []; last_redeem_error = none };
          chain_data = none;
        }
          ∷ [])

-- `ListSwapsRequest`, without offset and limit, which no caller within the SDK sets.
pub record ListSwapsRequest : Type 0 where
  pub req_status : Option (List SwapStatus)
  pub from_timestamp : Option ℤ
  pub to_timestamp : Option ℤ

abbrev pub has_status : List SwapStatus → SwapInfo → Bool
has_status ss i = any (λ s. status_code s == status_code i.status) ss

unfoldable pub matches : ListSwapsRequest → SwapInfo → Bool
matches req i =
    (elim req.req_status [ none ↦ true | some ss ↦ has_status ss i ])
    && ((elim req.from_timestamp [ none ↦ true | some from ↦ leb_ℤ from i.created_at ])
        && (elim req.to_timestamp [ none ↦ true | some to ↦ ltb_ℤ i.created_at to ]))

unfoldable pub list_swaps : ListSwapsRequest → SwapTable → List SwapInfo
unfolding matches
list_swaps req t = filterb (matches req) (map (λ (r : SwapRow). r.info) t)

abbrev pub by_status : List SwapStatus → ListSwapsRequest
by_status ss = record { req_status = some ss; from_timestamp = none; to_timestamp = none }

abbrev pub map_swap : (SwapRow → SwapRow) → Option SwapRow → Option SwapRow
map_swap f none = none
map_swap f (some r) = some (f r)

pub select_swap-update_swap :
    (a b : Text) (f : SwapRow → SwapRow) (t : SwapTable)
    → ((r : SwapRow) → (f r).info.bitcoin_address ≡ r.info.bitcoin_address)
    → select_swap b (update_swap a f t)
      ≡ (if eq_text a b then map_swap f (select_swap b t) else select_swap b t)
unfolding select_swap update_swap
select_swap-update_swap a b f [] keeps = ground arith
select_swap-update_swap a b f (r ∷ t) keeps = ground (
  arith,
  keeps r,
  eq_text_iff r.info.bitcoin_address a,
  eq_text_iff r.info.bitcoin_address b,
  eq_text_iff a b,
  select_swap-update_swap a b f t keeps,
)
