-- ===== src/Base/Lists.antt =====
-- Lists over the native numbers: lengths, sums, tests and predicates.
use Prim.Native.Nat.{ℕ, suc, ◌+◌, ◌≤◌}
use mathlib.Core.Path.{◌≡◌, refl}
use mathlib.Core.Logic.{inl, inr}
use mathlib.Core.Bool.{Bool, true, false, ◌&&◌, ◌||◌}
use mathlib.Core.List.{List, [], ◌∷◌, ◌++◌, Memᴰ, Permᴰ}
use native.Mathlib.Omega.{arith}
use echidra_oss.Base.Tests.{if◌then◌else◌, Bool-cases}

module _ {ℓ} {A : Type ℓ} where
  abbrev pub length : List A → ℕ
  length [] = 0
  length (x ∷ xs) = suc (length xs)

  -- Python's truth of a list.
  abbrev pub nonempty : List A → Bool
  nonempty [] = false
  nonempty (x ∷ xs) = true

  -- The sum of a measure of the elements.
  abbrev pub sum_of : (A → ℕ) → List A → ℕ
  sum_of f [] = 0
  sum_of f (x ∷ xs) = f x + sum_of f xs

  -- `[x for x in xs if p(x)]`
  abbrev pub keep : (A → Bool) → List A → List A
  keep p [] = []
  keep p (x ∷ xs) = if p x then x ∷ keep p xs else keep p xs

  -- `any(p(x) for x in xs)`
  abbrev pub any : (A → Bool) → List A → Bool
  any p [] = false
  any p (x ∷ xs) = p x || any p xs

  -- `all(p(x) for x in xs)`
  abbrev pub all : (A → Bool) → List A → Bool
  all p [] = true
  all p (x ∷ xs) = p x && all p xs

  abbrev pub All {κ} : (A → Type κ) → List A → Type κ
  All P [] = Unit
  All P (x ∷ xs) = P x × All P xs

  pub length-append : (xs ys : List A) → length (xs ++ ys) ≡ length xs + length ys
  length-append [] ys = omega arith
  length-append (x ∷ xs) ys = omega (arith, length-append xs ys)

  pub length-keep-le : (p : A → Bool) (xs : List A) → length (keep p xs) ≤ length xs
  length-keep-le p [] = omega arith
  length-keep-le p (x ∷ xs) = ground (arith, length-keep-le p xs)

  pub All-append {κ} : (P : A → Type κ) (xs ys : List A) → All P xs → All P ys → All P (xs ++ ys)
  All-append P [] ys h k = k
  All-append P (x ∷ xs) ys (p, h) k = (p, All-append P xs ys h k)

  pub All-if {κ} :
      (P : A → Type κ) (b : Bool) (xs ys : List A)
      → All P xs
      → All P ys
      → All P (if b then xs else ys)
  All-if P true xs ys h k = h
  All-if P false xs ys h k = k

  pub All-keep {κ} : (P : A → Type κ) (p : A → Bool) (xs : List A) → All P xs → All P (keep p xs)
  All-keep P p [] h = tt
  All-keep P p (x ∷ xs) (q, h) = All-if P (p x) _ _ (q, All-keep P p xs h) (All-keep P p xs h)

  pub keep_passes : (p : A → Bool) (xs : List A) → All (λ x. p x ≡ true) (keep p xs)
  keep_passes p [] = tt
  keep_passes p (x ∷ xs) = elim (Bool-cases (p x)) [
    | inl e ↦ rw e (e, keep_passes p xs)
    | inr e ↦ rw e (keep_passes p xs)
  ]

  pub All_at {κ} : (P : A → Type κ) {a : A} {xs : List A} → Memᴰ a xs → All P xs → P a
  All_at P (Memᴰ.head e) (p, h) = rw e p
  All_at P (Memᴰ.tail m) (p, h) = All_at P m h

  pub All-intro {κ} : (P : A → Type κ) (xs : List A) → ((a : A) → Memᴰ a xs → P a) → All P xs
  All-intro P [] f = tt
  All-intro P (x ∷ xs) f = (f x (Memᴰ.head refl), All-intro P xs (λ a m. f a (Memᴰ.tail m)))

  Memᴰ_of_if :
      (b : Bool) (a x : A) (xs ys : List A)
      → (Memᴰ a xs → Memᴰ a ys)
      → Memᴰ a (if b then x ∷ xs else xs)
      → Memᴰ a (x ∷ ys)
  Memᴰ_of_if true a x xs ys f (Memᴰ.head e) = Memᴰ.head e
  Memᴰ_of_if true a x xs ys f (Memᴰ.tail m) = Memᴰ.tail (f m)
  Memᴰ_of_if false a x xs ys f m = Memᴰ.tail (f m)

  -- What a filter keeps was there before.
  pub Memᴰ_of_keep : (p : A → Bool) (a : A) (xs : List A) → Memᴰ a (keep p xs) → Memᴰ a xs
  Memᴰ_of_keep p a [] m = m
  Memᴰ_of_keep p a (x ∷ xs) m = Memᴰ_of_if (p x) a x _ xs (Memᴰ_of_keep p a xs) m

  pub All-map {κ μ} :
      {P : A → Type κ} {Q : A → Type μ} (xs : List A) → ((a : A) → P a → Q a) → All P xs → All Q xs
  All-map [] f h = tt
  All-map (x ∷ xs) f (p, h) = (f x p, All-map xs f h)

  -- What holds of every item holds in every order.
  pub All-Permᴰ {κ} : (P : A → Type κ) {xs ys : List A} → Permᴰ xs ys → All P xs → All P ys
  All-Permᴰ P Permᴰ.nil h = tt
  All-Permᴰ P (Permᴰ.cons e r) (p, h) = (rw (← e) p, All-Permᴰ P r h)
  All-Permᴰ P (Permᴰ.swap d e) (p, (q, h)) = (rw (← e) q, (rw (← d) p, h))
  All-Permᴰ P (Permᴰ.trans r s) h = All-Permᴰ P s (All-Permᴰ P r h)
