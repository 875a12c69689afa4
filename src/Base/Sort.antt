-- ===== src/Base/Sort.antt =====
-- Python's `sorted`, a stable sort by a strict order.
use echidra_oss.Base.Tests.{if◌then◌else◌, Bool-cases}
use echidra_oss.Base.Lists.{All, All-map, All-Permᴰ}
use mathlib.Core.Path.{◌≡◌, refl}
use mathlib.Core.Logic.{inl, inr}
use mathlib.Core.Bool.{Bool, true, false}
use mathlib.Core.List.Permᴰ
use mathlib.Core.List.{List, [], ◌∷◌, Permᴰ}

module _ {ℓ} {A : Type ℓ} (lt : A → A → Bool) where
  -- An item goes in front of the first one that is not smaller.
  unfoldable pub place : A → List A → List A
  place x [] = x ∷ []
  place x (y ∷ ys) = if lt y x then y ∷ place x ys else x ∷ y ∷ ys

  unfoldable pub sorted : List A → List A
  unfolding place
  sorted [] = []
  sorted (x ∷ xs) = place x (sorted xs)

  -- No item is smaller than one that stands before it.
  abbrev pub IsSorted : List A → Type 0
  IsSorted [] = Unit
  IsSorted (x ∷ xs) = All (λ y. lt y x ≡ false) xs × IsSorted xs

  place-Permᴰ : (x : A) (ys : List A) → Permᴰ (place x ys) (x ∷ ys)
  unfolding place
  place-Permᴰ x [] = Permᴰ.refl (x ∷ [])
  place-Permᴰ x (y ∷ ys) = elim (Bool-cases (lt y x)) [
    | inl e ↦
        rw e (Permᴰ.trans (Permᴰ.cons refl (place-Permᴰ x ys)) (Permᴰ.swap {l = ys} refl refl))
    | inr e ↦ rw e (Permᴰ.refl (x ∷ y ∷ ys))
  ]

  -- Sorting keeps the items, each as often.
  pub sorted-Permᴰ : (xs : List A) → Permᴰ (sorted xs) xs
  unfolding sorted
  sorted-Permᴰ [] = Permᴰ.nil
  sorted-Permᴰ (x ∷ xs) =
      Permᴰ.trans (place-Permᴰ x (sorted xs)) (Permᴰ.cons refl (sorted-Permᴰ xs))

  module _ (asym : (a b : A) → lt a b ≡ true → lt b a ≡ false)
      (through : (a b c : A) → lt b a ≡ false → lt c b ≡ false → lt c a ≡ false) where
    place-IsSorted : (x : A) (ys : List A) → IsSorted ys → IsSorted (place x ys)
    unfolding place
    place-IsSorted x [] s = (tt, tt)
    place-IsSorted x (y ∷ ys) (first, rest) = elim (Bool-cases (lt y x)) [
      | inl e ↦ rw e (
        All-Permᴰ _ (Permᴰ.symm (place-Permᴰ x ys)) (asym y x e, first),
        place-IsSorted x ys rest,
      )
      | inr e ↦ rw e ((e, All-map ys (λ c h. through x y c e h) first), (first, rest))
    ]

    -- The result is in order, if the order is asymmetric and "not smaller" is transitive.
    pub sorted-IsSorted : (xs : List A) → IsSorted (sorted xs)
    unfolding sorted
    sorted-IsSorted [] = tt
    sorted-IsSorted (x ∷ xs) = place-IsSorted x (sorted xs) (sorted-IsSorted xs)
