-- ===== src/Lsp.antt =====
-- The service provider that the node is connected to: `set_lsp` and `get_lsp_id` of
-- `libs/sdk-core/src/persist/settings.rs` and `connect_lsp_peer` of `libs/sdk-core/src/breez_services.rs`.
-- The node and the list of providers are parameters.
use breez_sdk.Prelude.{
  Option, none, some, List, [], ◌∷◌, Text, Result, ok, err, if◌then◌else◌, eq_text, any, find, ℕ,
}
use breez_sdk.Payments.{Payment}

pub record LspInformation : Type 0 where
  pub id : Text
  pub pubkey : Text
  pub host : Text

-- The settings with the keys `lsp` and `lsp-pubkey`.
pub record LspSettings : Type 0 where
  pub lsp : Option Text
  pub lsp_pubkey : Option Text

unfoldable pub set_lsp : Text → Option Text → LspSettings → LspSettings
set_lsp lsp_id (some pubkey) s = record { lsp = some lsp_id; lsp_pubkey = some pubkey }
set_lsp lsp_id none s = elim s.lsp [
  | none ↦ record { lsp = some lsp_id; lsp_pubkey = none }
  | some old ↦ if eq_text old lsp_id then s else record { lsp = some lsp_id; lsp_pubkey = none }
]

abbrev pub get_lsp_id : LspSettings → Option Text
get_lsp_id s = s.lsp

-- The node, with the calls that a payment and a synchronisation make.
pub record Node : Type 1 where
  pub State : Type 0
  pub send_payment : Text → Option ℕ → State → Result Text Payment × State
  pub send_spontaneous : Text → ℕ → Option Text → State → Result Text Payment × State
  pub node_id : State → Result Text Text
  pub list_lsps : Text → State → Result Text (List LspInformation)
  pub connected_peers : State → List Text
  pub connect_peer : Text → Text → State → Result Text (Unit {0}) × State
  pub list_payments : State → Result Text (List Payment) × State

abbrev pub first : List LspInformation → Option LspInformation
first [] = none
first (l ∷ ls) = some l

abbrev pub or_first : Option LspInformation → List LspInformation → Option LspInformation
or_first (some l) ls = some l
or_first none ls = first ls

abbrev pub with_id : Option Text → List LspInformation → Option LspInformation
with_id none ls = none
with_id (some i) ls = find (λ (l : LspInformation). eq_text l.id i) ls

-- The provider that is selected, else the first one.
unfoldable pub chosen_lsp : LspSettings → List LspInformation → Option LspInformation
chosen_lsp s ls = or_first (with_id (get_lsp_id s) ls) ls

module _ (node : Node) where
  unfoldable pub connect_if_needed :
      LspInformation → node.State → Result Text (Unit {0}) × node.State
  connect_if_needed l n =
      if any (λ (e : Text). eq_text e l.pubkey) (node.connected_peers n)
      then (ok tt, n)
      else node.connect_peer l.pubkey l.host n

  unfoldable pub connect_lsp_peer :
      Text → LspSettings → node.State → Result Text (Unit {0}) × LspSettings × node.State
  unfolding chosen_lsp connect_if_needed set_lsp
  connect_lsp_peer node_pubkey s n = elim (node.list_lsps node_pubkey n) [
    | err e ↦ (err e, s, n)
    | ok ls ↦ elim (chosen_lsp s ls) [
      | none ↦ (ok tt, s, n)
      | some l ↦
          let (connected, n1) = connect_if_needed l n in
          (connected, set_lsp l.id (some l.pubkey) s, n1)
    ]
  ]
