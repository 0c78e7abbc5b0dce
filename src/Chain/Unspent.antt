-- ===== src/Chain/Unspent.antt =====
-- Which outputs of an address count as unspent (`libs/sdk-core/src/chain.rs`).
use mathlib.Core.Path.{subst}
use breez_sdk.Prelude.{
  All, ◌≡◌, sym, ap, ◌∙◌, ℕ, suc, inl, inr, Bool, true, false, ◌||◌, Option, some, List, [], ◌∷◌,
  ◌++◌, arith, Text, any, filterb, is_some, eq_text, eq_text_iff, Member, Member-filterb,
  Option-cases, Bool-cases,
}
use breez_sdk.SwapIn.Onchain.{OnchainTx, Vin, Vout}
use breez_sdk.Chain.{
  OutPoint, eq_outpoint, Utxo, counts, spent_vins, spent_outputs, unspent_vouts, unspent_outputs,
  get_utxos,
}

-- Every output that was kept is missing in a list of spent ones.
abbrev Unspent : List OutPoint → List Utxo → Type 0
Unspent spent utxos = All (λ (u : Utxo). any (eq_outpoint u.out) spent ≡ false) utxos

Unspent-append :
    (spent : List OutPoint) (utxos : List Utxo) (u : Utxo)
    → Unspent spent utxos
    → any (eq_outpoint u.out) spent ≡ false
    → Unspent spent (utxos ++ u ∷ [])
Unspent-append spent [] u all h = (h, tt)
Unspent-append spent (v ∷ utxos) u all h = (all.0, Unspent-append spent utxos u all.1 h)

any-append :
    (p : OutPoint → Bool) (spent : List OutPoint) (o : OutPoint)
    → any p (spent ++ o ∷ []) ≡ any p spent || p o
any-append p [] o = ground arith
any-append p (q ∷ spent) o = ground (arith, any-append p spent o)

eq_outpoint_refl : (o : OutPoint) → eq_outpoint o o ≡ true
eq_outpoint_refl o = ground (arith, eq_text_iff o.0 o.0)

true_ne : ¬ (true ≡ false)
true_ne h = ground (arith, h)

All-Member :
    (spent : List OutPoint) (utxos : List Utxo) (u : Utxo)
    → Unspent spent utxos
    → Member u utxos
    → any (eq_outpoint u.out) spent ≡ false
All-Member spent [] u all m = absurd m
All-Member spent (v ∷ utxos) u all (inl same) =
    subst (λ (z : Utxo). any (eq_outpoint z.out) spent ≡ false) (sym same) all.0
All-Member spent (v ∷ utxos) u all (inr m) = All-Member spent utxos u all.1 m

module _ (parse_txid : Text → Option Text) (address : Text) (flag : Bool) where
  unspent_vouts-Unspent :
      (spent : List OutPoint) (tx : OnchainTx) (n : ℕ) (vs : List Vout) (utxos result : List Utxo)
      → Unspent spent utxos
      → unspent_vouts parse_txid address flag spent tx n vs utxos ≡ some result
      → Unspent spent result
  unfolding unspent_vouts
  unspent_vouts-Unspent spent tx n [] utxos result all h =
      let same : utxos ≡ result = ground (arith, h) in subst (Unspent spent) same all
  unspent_vouts-Unspent spent tx n (v ∷ vs) utxos result all h =
      elim (Bool-cases (eq_text v.scriptpubkey_address address)) [
        | inr other ↦
            unspent_vouts-Unspent spent tx (suc n) vs utxos result all (ground (arith, h, other))
        | inl pays ↦ elim (Option-cases (parse_txid tx.txid)) [
          | inl bad ↦ absurd (ground (arith, h, pays, bad))
          | inr (t, parsed) ↦ elim (Bool-cases (any (eq_outpoint (t, n)) spent)) [
            | inl gone ↦
                unspent_vouts-Unspent spent tx (suc n) vs utxos result all
                  (ground (arith, h, pays, parsed, gone))
            | inr left ↦
                let u : Utxo = record {
                  out = (t, n);
                  amount = v.value;
                  utxo_height = tx.tx_status.block_height;
                } in
                unspent_vouts-Unspent spent tx (suc n) vs (utxos ++ u ∷ []) result
                  (Unspent-append spent utxos u all left) (ground (arith, h, pays, parsed, left))
          ]
        ]
      ]

  unspent_outputs-Unspent :
      (spent : List OutPoint) (txs : List OnchainTx) (utxos result : List Utxo)
      → Unspent spent utxos
      → unspent_outputs parse_txid address flag spent txs utxos ≡ some result
      → Unspent spent result
  unfolding unspent_outputs
  unspent_outputs-Unspent spent [] utxos result all h =
      let same : utxos ≡ result = ground (arith, h) in subst (Unspent spent) same all
  unspent_outputs-Unspent spent (tx ∷ txs) utxos result all h =
      elim (Option-cases (unspent_vouts parse_txid address flag spent tx 0 tx.vout utxos)) [
        | inl bad ↦ absurd (ground (arith, h, bad))
        | inr (utxos', e) ↦
            unspent_outputs-Unspent spent txs utxos' result
              (unspent_vouts-Unspent spent tx 0 tx.vout utxos utxos' all e) (ground (arith, h, e))
      ]

  -- A list of spent outpoints only grows.
  spent_vins-grows :
      (p : OutPoint → Bool) (tx : OnchainTx) (vs : List Vin) (spent result : List OutPoint)
      → spent_vins parse_txid address flag tx vs spent ≡ some result
      → any p spent ≡ true
      → any p result ≡ true
  unfolding spent_vins
  spent_vins-grows p tx [] spent result h k = ground (arith, h, k)
  spent_vins-grows p tx (v ∷ vs) spent result h k =
      elim (Bool-cases (counts parse_txid address flag tx v)) [
        | inr no_match ↦ spent_vins-grows p tx vs spent result (ground (arith, h, no_match)) k
        | inl counted ↦ elim (Option-cases (parse_txid v.vin_txid)) [
          | inl bad ↦ absurd (ground (arith, h, counted, bad))
          | inr (t, parsed) ↦
              spent_vins-grows p tx vs (spent ++ (t, v.vout_index) ∷ []) result
                (ground (arith, h, counted, parsed))
                (ground (arith, any-append p spent (t, v.vout_index), k))
        ]
      ]

  spent_vins-finds :
      (tx : OnchainTx) (vs : List Vin) (spent result : List OutPoint) (v : Vin) (t : Text)
      → spent_vins parse_txid address flag tx vs spent ≡ some result
      → Member v vs
      → counts parse_txid address flag tx v ≡ true
      → parse_txid v.vin_txid ≡ some t
      → any (eq_outpoint (t, v.vout_index)) result ≡ true
  unfolding spent_vins
  spent_vins-finds tx [] spent result v t h m counted parsed = absurd m
  spent_vins-finds tx (w ∷ vs) spent result v t h (inl same) counted parsed =
      let counted' : counts parse_txid address flag tx w ≡ true =
        ap (counts parse_txid address flag tx) (sym same) ∙ counted in
      let parsed' : parse_txid w.vin_txid ≡ some t =
        ap (λ (z : Vin). parse_txid z.vin_txid) (sym same) ∙ parsed in
      let index : w.vout_index ≡ v.vout_index = ap (λ (z : Vin). z.vout_index) (sym same) in
      spent_vins-grows (eq_outpoint (t, v.vout_index)) tx vs (spent ++ (t, w.vout_index) ∷ [])
        result (ground (arith, h, counted', parsed'))
        (any-append (eq_outpoint (t, v.vout_index)) spent (t, w.vout_index)
          ∙ ground (arith, index, eq_text_iff t t))
  spent_vins-finds tx (w ∷ vs) spent result v t h (inr m) counted parsed =
      elim (Bool-cases (counts parse_txid address flag tx w)) [
        | inr no_match ↦
            spent_vins-finds tx vs spent result v t (ground (arith, h, no_match)) m counted parsed
        | inl counted' ↦ elim (Option-cases (parse_txid w.vin_txid)) [
          | inl bad ↦ absurd (ground (arith, h, counted', bad))
          | inr (t', parsed') ↦
              spent_vins-finds tx vs (spent ++ (t', w.vout_index) ∷ []) result v t
                (ground (arith, h, counted', parsed')) m counted parsed
        ]
      ]

  spent_outputs-grows :
      (p : OutPoint → Bool) (txs : List OnchainTx) (spent result : List OutPoint)
      → spent_outputs parse_txid address flag txs spent ≡ some result
      → any p spent ≡ true
      → any p result ≡ true
  unfolding spent_outputs
  spent_outputs-grows p [] spent result h k = ground (arith, h, k)
  spent_outputs-grows p (tx ∷ txs) spent result h k =
      elim (Option-cases (spent_vins parse_txid address flag tx tx.vin spent)) [
        | inl bad ↦ absurd (ground (arith, h, bad))
        | inr (spent', e) ↦
            spent_outputs-grows p txs spent' result (ground (arith, h, e))
              (spent_vins-grows p tx tx.vin spent spent' e k)
      ]

  spent_outputs-finds :
      (txs : List OnchainTx) (spent result : List OutPoint) (tx : OnchainTx) (v : Vin) (t : Text)
      → spent_outputs parse_txid address flag txs spent ≡ some result
      → Member tx txs
      → Member v tx.vin
      → counts parse_txid address flag tx v ≡ true
      → parse_txid v.vin_txid ≡ some t
      → any (eq_outpoint (t, v.vout_index)) result ≡ true
  unfolding spent_outputs
  spent_outputs-finds [] spent result tx v t h m input counted parsed = absurd m
  spent_outputs-finds (x ∷ txs) spent result tx v t h (inl same) input counted parsed =
      elim (Option-cases (spent_vins parse_txid address flag x x.vin spent)) [
        | inl bad ↦ absurd (ground (arith, h, bad))
        | inr (spent', e) ↦
            spent_outputs-grows (eq_outpoint (t, v.vout_index)) txs spent' result
              (ground (arith, h, e))
              (spent_vins-finds x x.vin spent spent' v t e
                (subst (λ (z : OnchainTx). Member v z.vin) same input)
                (ap (λ z. counts parse_txid address flag z v) (sym same) ∙ counted) parsed)
      ]
  spent_outputs-finds (x ∷ txs) spent result tx v t h (inr m) input counted parsed =
      elim (Option-cases (spent_vins parse_txid address flag x x.vin spent)) [
        | inl bad ↦ absurd (ground (arith, h, bad))
        | inr (spent', e) ↦
            spent_outputs-finds txs spent' result tx v t (ground (arith, h, e)) m input counted
              parsed
      ]

  -- No output that is returned as unspent is named by an input that takes money from the address, in a
  -- confirmed transaction or, if unconfirmed spends count, in any.
  pub get_utxos-unspent :
      (txs : List OnchainTx) (result : List Utxo) (u : Utxo) (tx : OnchainTx) (v : Vin) (t : Text)
      → get_utxos parse_txid address flag txs ≡ some result
      → Member u result
      → Member tx txs
      → Member v tx.vin
      → counts parse_txid address flag tx v ≡ true
      → parse_txid v.vin_txid ≡ some t
      → ¬ (u.out ≡ (t, v.vout_index))
  unfolding get_utxos
  get_utxos-unspent txs result u tx v t h mem at input counted parsed same =
      elim (Option-cases (spent_outputs parse_txid address flag txs [])) [
        | inl bad ↦ absurd (ground (arith, h, bad))
        | inr (spent, e) ↦
            elim (Option-cases (unspent_outputs parse_txid address flag spent txs [])) [
              | inl bad ↦ absurd (ground (arith, h, e, bad))
              | inr (utxos, f) ↦
                  let kept : filterb (λ (z : Utxo). is_some z.utxo_height) utxos ≡ result =
                    ground (arith, h, e, f) in
                  let (mem', _) =
                    Member-filterb (λ (z : Utxo). is_some z.utxo_height) u utxos
                      (subst (Member u) (sym kept) mem) in
                  let free =
                    All-Member spent utxos u (unspent_outputs-Unspent spent txs [] utxos tt f)
                      mem' in
                  let found = spent_outputs-finds txs [] spent tx v t e at input counted parsed in
                  absurd
                    (true_ne (sym found ∙ ap (λ z. any (eq_outpoint z) spent) (sym same) ∙ free))
            ]
      ]
