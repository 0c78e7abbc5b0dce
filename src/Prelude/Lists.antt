-- ===== src/Prelude/Lists.antt =====
-- Lists measured by native numbers and filtered by Boolean tests.
use Prim.Native.Nat.{ℕ, suc}
use mathlib.Core.Path.{◌≡◌, refl, sym, ap, ◌∙◌, subst}
use mathlib.Core.Logic.{◌⊎◌, inl, inr}
use mathlib.Core.Bool.{Bool, true, false, ◌&&◌, ◌||◌}
use mathlib.Core.List.{List, [], ◌∷◌}
use mathlib.Core.Option.{Option, none, some}
use native.Mathlib.Omega.{arith}
use breez_sdk.Prelude.Tests.{if◌then◌else◌, Bool-cases}

module _ {ℓ} {A : Type ℓ} where
  abbrev pub length : List A → ℕ
  length [] = 0
  length (x ∷ xs) = suc (length xs)

  abbrev pub is_empty : List A → Bool
  is_empty [] = true
  is_empty (x ∷ xs) = false

  -- Rust's `Iterator::filter`, `any`, `all` and `find`.
  abbrev pub filterb : (A → Bool) → List A → List A
  filterb p [] = []
  filterb p (x ∷ xs) = let rest = filterb p xs in if p x then x ∷ rest else rest

  abbrev pub any : (A → Bool) → List A → Bool
  any p [] = false
  any p (x ∷ xs) = p x || any p xs

  abbrev pub all : (A → Bool) → List A → Bool
  all p [] = true
  all p (x ∷ xs) = p x && all p xs

  abbrev pub find : (A → Bool) → List A → Option A
  find p [] = none
  find p (x ∷ xs) = if p x then some x else find p xs

  -- A predicate of every element, which the tactics read as a tuple.
  abbrev pub All {κ} : (A → Type κ) → List A → Type κ
  All P [] = Unit
  All P (x ∷ xs) = P x × All P xs

module _ {A : Type 0} where
  -- Membership, which the tactics read as a disjunction.
  abbrev pub Member : A → List A → Type 0
  Member x [] = ⊥
  Member x (y ∷ ys) = (x ≡ y) ⊎ Member x ys

  pub filterb-Member :
      (p : A → Bool) (x : A) (xs : List A) → Member x xs → p x ≡ true → Member x (filterb p xs)
  filterb-Member p x [] m h = absurd m
  filterb-Member p x (y ∷ ys) (inl e) h =
      let keep : p y ≡ true = ap p (sym e) ∙ h in rw keep (inl e)
  filterb-Member p x (y ∷ ys) (inr m) h =
      let rest = filterb-Member p x ys m h in
      elim (Bool-cases (p y)) [ inl keep ↦ rw keep (inr rest) | inr drop ↦ rw drop rest ]

  Member-kept :
      (p : A → Bool) (x y : A) (ys : List A)
      → p y ≡ true
      → Member x (y ∷ filterb p ys)
      → (Member x (filterb p ys) → Member x ys × (p x ≡ true))
      → Member x (y ∷ ys) × (p x ≡ true)
  Member-kept p x y ys keep (inl e) rec = (inl e, ap p e ∙ keep)
  Member-kept p x y ys keep (inr m) rec = (inr (rec m).0, (rec m).1)

  pub Member-filterb :
      (p : A → Bool) (x : A) (xs : List A) → Member x (filterb p xs) → Member x xs × (p x ≡ true)
  Member-filterb p x [] m = absurd m
  Member-filterb p x (y ∷ ys) m = elim (Bool-cases (p y)) [
    | inl keep ↦
        Member-kept p x y ys keep
          (subst (λ b. Member x (if b then y ∷ filterb p ys else filterb p ys)) keep m)
          (Member-filterb p x ys)
    | inr drop ↦
        let rest =
          Member-filterb p x ys
            (subst (λ b. Member x (if b then y ∷ filterb p ys else filterb p ys)) drop m) in
        (inr rest.0, rest.1)
  ]

  pub Member-nonempty : (x : A) (xs : List A) → Member x xs → is_empty xs ≡ false
  Member-nonempty x [] m = absurd m
  Member-nonempty x (y ∷ ys) m = refl

  pub all-Member : (p : A → Bool) (x : A) (xs : List A) → all p xs ≡ true → Member x xs → p x ≡ true
  all-Member p x [] h m = absurd m
  all-Member p x (y ∷ ys) h (inl e) = ap p e ∙ ground (arith, h)
  all-Member p x (y ∷ ys) h (inr m) = all-Member p x ys (ground (arith, h)) m

  pub filterb-none :
      (p : A → Bool) (xs : List A)
      → is_empty (filterb p xs) ≡ true
      → (x : A) → Member x xs
      → p x ≡ false
  filterb-none p xs h x m = elim (Bool-cases (p x)) [
    | inr miss ↦ miss
    | inl hit ↦
        absurd (ground (arith, h, Member-nonempty x (filterb p xs) (filterb-Member p x xs m hit)))
  ]
