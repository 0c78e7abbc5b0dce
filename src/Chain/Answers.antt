-- ===== src/Chain/Answers.antt =====
-- What the calls of the chain service return when instances fail, and the block of an address
-- (`libs/sdk-core/src/chain.rs`).
use breez_sdk.Prelude.{
  ◌≡◌, ◌≢◌, refl, ℕ, List, [], ◌∷◌, ◌++◌, map, some, arith, Text, Result, ok, err,
}
use breez_sdk.Chain.{first_answer, Utxo, fold_block, confirmed_block}

-- Of several instances the first that answers counts, whatever the ones before it failed with, so that
-- one that works is enough.
pub first_answer_after_failures {ℓ} :
    {A : Type ℓ} (failed : List Text) (a : A) (rest : List (Result Text A))
    → first_answer (map err failed ++ ok a ∷ rest) ≡ ok a
unfolding first_answer
first_answer_after_failures [] a rest = refl
first_answer_after_failures (e ∷ failed) a rest = first_answer_after_failures failed a rest

fold_block-last :
    (us : List Utxo) (u : Utxo) (b h : ℕ)
    → u.utxo_height ≡ some h
    → h ≢ 0
    → fold_block b (us ++ u ∷ []) ≡ h
unfolding fold_block
fold_block-last [] u b h height some_height = ground (arith, height, some_height)
fold_block-last (v ∷ us) u b h height some_height = fold_block-last us u _ h height some_height

-- The block that is taken for the highest one is the block of the last output in the list, where that
-- one has a height other than 0, however high the blocks of the others are.
pub confirmed_block-last :
    (us : List Utxo) (u : Utxo) (h : ℕ)
    → u.utxo_height ≡ some h
    → h ≢ 0
    → confirmed_block (us ++ u ∷ []) ≡ h
unfolding confirmed_block
confirmed_block-last us u h height some_height = fold_block-last us u 0 h height some_height
