-- ===== src/Payments.antt =====
-- The payments that `libs/sdk-core/src/persist/transactions.rs` stores, and how one is looked up. Failures of
-- the database are left out, and so are the details that a lookup joins from the tables of swaps.
use breez_sdk.Prelude.{
  ℕ, Bool, true, false, not, Option, none, some, List, [], ◌∷◌, Text, if◌then◌else◌, eq_text,
  filterb,
}
use breez_sdk.Prelude.Int.{ℤ, pos, negsuc}
use breez_sdk.Backup.Rows.{find_row, delete_by_key, replace_rows}
use breez_sdk.Backup.Tables.{ExternalInfo, info_key, PaymentMetadata, metadata_key}

pub data PaymentType : Type 0 where
  sent received closed_channel : PaymentType

pub data PaymentStatus : Type 0 where
  pending complete failed : PaymentStatus

-- `Payment`; its details are serialised.
pub record Payment : Type 0 where
  pub id : Text
  pub payment_type : PaymentType
  pub payment_time : ℕ
  pub amount_msat : ℕ
  pub fee_msat : ℕ
  pub status : PaymentStatus
  pub error : Option Text
  pub description : Option Text
  pub details : Text
  pub metadata : Option Text

-- A row of the table `payments`.
pub record PaymentRow : Type 0 where
  pub payment : Payment
  pub is_pseudo : Bool

abbrev pub payment_key : PaymentRow → Text
payment_key r = r.payment.id

-- The statement is executed for one payment after the other.
unfoldable pub insert_or_update_payments : List Payment → Bool → List PaymentRow → List PaymentRow
unfolding delete_by_key
insert_or_update_payments [] pseudo t = t
insert_or_update_payments (p ∷ ps) pseudo t =
    insert_or_update_payments ps pseudo
      (record { payment = p; is_pseudo = pseudo } ∷ delete_by_key payment_key p.id t)

unfoldable pub delete_pseudo_payments : List PaymentRow → List PaymentRow
delete_pseudo_payments t = filterb (λ (r : PaymentRow). not r.is_pseudo) t

unfoldable pub insert_payment_external_info : ExternalInfo → List ExternalInfo → List ExternalInfo
unfolding replace_rows
insert_payment_external_info i t = replace_rows info_key (i ∷ []) t

unfoldable pub update_payment_attempted_error :
    Text → Option Text → List ExternalInfo → List ExternalInfo
update_payment_attempted_error hash e [] = []
update_payment_attempted_error hash e (i ∷ t) =
    (if eq_text i.payment_id hash then record i { attempted_error = e } else i)
    ∷ update_payment_attempted_error hash e t

abbrev pub is_complete : PaymentStatus → Bool
is_complete complete = true
is_complete pending = false
is_complete failed = false

abbrev pub or_amount : Option ℕ → ℕ → ℕ
or_amount none n = n
or_amount (some m) n = m

-- The amount that is shown: the attempted one, if there is one and the payment is not complete.
abbrev pub shown_amount : Payment → Option ℕ → ℕ
shown_amount p attempted =
    if is_complete p.status then p.amount_msat else or_amount attempted p.amount_msat

abbrev pub error_of : Option ExternalInfo → Option Text
error_of none = none
error_of (some i) = i.attempted_error

abbrev pub note_of : Option PaymentMetadata → Option Text
note_of none = none
note_of (some m) = m.metadata

abbrev pub attempt_of : Option ExternalInfo → Option ℤ
attempt_of none = none
attempt_of (some i) = i.attempted_amount_msat

-- `u64` in a column of integers; no negative number is written.
abbrev pub to_column : Option ℕ → Option ℤ
to_column none = none
to_column (some n) = some (pos n)

abbrev pub from_column : Option ℤ → Option ℕ
from_column none = none
from_column (some (pos n)) = some n
from_column (some (negsuc n)) = none

-- The joined row: `sql_row_to_payment`.
unfoldable pub sql_row_to_payment : Payment → Option ExternalInfo → Option PaymentMetadata → Payment
sql_row_to_payment p info note = record p {
  amount_msat = shown_amount p (from_column (attempt_of info));
  error = error_of info;
  metadata = note_of note;
}

unfoldable pub get_payment_by_hash :
    Text → List PaymentRow → List ExternalInfo → List PaymentMetadata → Option Payment
unfolding find_row sql_row_to_payment
get_payment_by_hash hash t infos notes = elim (find_row payment_key hash t) [
  | none ↦ none
  | some r ↦ some (
      sql_row_to_payment r.payment (find_row info_key hash infos)
        (find_row metadata_key hash notes))
]

unfoldable pub get_completed_payment_by_hash :
    Text → List PaymentRow → List ExternalInfo → List PaymentMetadata → Option Payment
unfolding get_payment_by_hash
get_completed_payment_by_hash hash t infos notes = elim (get_payment_by_hash hash t infos notes) [
  | none ↦ none
  | some p ↦ if is_complete p.status then some p else none
]
