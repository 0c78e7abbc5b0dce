-- ===== src/Prelude/TextMap.antt =====
-- A map keyed by texts, as an association list: Rust's `HashMap<String, V>`, and SQL tables by key.
use mathlib.Core.Path.{◌≡◌, refl}
use mathlib.Core.Option.{Option, none, some}
use mathlib.Core.List.{List, [], ◌∷◌}
use native.Mathlib.Omega.{arith}
use breez_sdk.Prelude.Tests.{if◌then◌else◌}
use breez_sdk.Prelude.Texts.{Text, eq_text, eq_text_iff}

abbrev pub TextMap {ℓ} : Type ℓ → Type ℓ
TextMap V = List (Text × V)

module _ {ℓ} {V : Type ℓ} where
  unfoldable pub lookup : Text → TextMap V → Option V
  lookup k [] = none
  lookup k ((j, v) ∷ m) = if eq_text j k then some v else lookup k m

  unfoldable pub erase : Text → TextMap V → TextMap V
  erase k [] = []
  erase k ((j, v) ∷ m) = let rest = erase k m in if eq_text j k then rest else (j, v) ∷ rest

  unfoldable pub insert : Text → V → TextMap V → TextMap V
  insert k v [] = (k, v) ∷ []
  insert k v ((j, w) ∷ m) = if eq_text j k then (k, v) ∷ m else (j, w) ∷ insert k v m

  pub lookup-erase :
      (k j : Text) (m : TextMap V)
      → lookup j (erase k m) ≡ (if eq_text k j then none else lookup j m)
  unfolding lookup erase
  lookup-erase k j [] = ground arith
  lookup-erase k j ((i, v) ∷ m) =
      ground (arith, lookup-erase k j m, eq_text_iff i k, eq_text_iff i j, eq_text_iff k j)

  pub lookup-insert :
      (k j : Text) (v : V) (m : TextMap V)
      → lookup j (insert k v m) ≡ (if eq_text k j then some v else lookup j m)
  unfolding lookup insert
  lookup-insert k j v [] = refl
  lookup-insert k j v ((i, w) ∷ m) =
      ground (arith, lookup-insert k j v m, eq_text_iff i k, eq_text_iff i j, eq_text_iff k j)
