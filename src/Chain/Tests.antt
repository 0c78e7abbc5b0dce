-- ===== src/Chain/Tests.antt =====
-- A concrete address (`libs/sdk-core/src/chain.rs`).
use breez_sdk.Prelude.{Text, eq_text, ◌≡◌, refl, inl, inr, true, false, none, some, [], ◌∷◌, codes}
use breez_sdk.SwapIn.Onchain.{OnchainTx, Vin, Vout}
use breez_sdk.Chain.{Utxo, get_utxos}
use breez_sdk.Chain.Unspent.{get_utxos-unspent}

abbrev up : Text
up = codes "up"

abbrev high : Utxo
high = record { out = (codes "a", 0); amount = 5; utxo_height = some 900 }

abbrev low : Utxo
low = record { out = (codes "b", 0); amount = 5; utxo_height = some 100 }

abbrev home : Vout
home = record {
  scriptpubkey = [];
  scriptpubkey_asm = [];
  scriptpubkey_type = [];
  scriptpubkey_address = codes "bc1";
  value = 5;
}

abbrev funding : OnchainTx
funding = record {
  txid = codes "a";
  version = 2;
  locktime = 0;
  vin = [];
  vout = home ∷ home ∷ [];
  size = 1;
  weight = 1;
  fee = 1;
  tx_status = record {
    confirmed = true;
    block_height = some 100;
    status_block_hash = none;
    block_time = none;
  };
}

abbrev spending_input : Vin
spending_input = record {
  vin_txid = codes "a";
  vout_index = 1;
  prevout = home;
  scriptsig = [];
  scriptsig_asm = [];
  witness = none;
  is_coinbase = false;
  sequence = 0;
}

abbrev spending : OnchainTx
spending = record funding { txid = codes "b"; vin = spending_input ∷ []; vout = [] }

abbrev left : Utxo
left = record { out = (codes "a", 0); amount = 5; utxo_height = some 100 }

kept : get_utxos some (codes "bc1") false (funding ∷ spending ∷ []) ≡ some (left ∷ [])
unfolding get_utxos eq_text
kept = refl

get_utxos-unspent_example : ¬ (left.out ≡ (codes "a", 1))
unfolding eq_text
get_utxos-unspent_example =
    get_utxos-unspent some (codes "bc1") false (funding ∷ spending ∷ []) (left ∷ []) left spending
      spending_input (codes "a") kept (inl refl) (inr (inl refl)) (inl refl) refl refl
