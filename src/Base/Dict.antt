-- ===== src/Base/Dict.antt =====
-- A Python dict in insertion order, over a type of keys with a Boolean equality.
use echidra_oss.Base.Tests.{if_either, if◌then◌else◌, Bool-cases, str_eq, str_eq_iff}
use Prim.Native.String.{String}
use Prim.Native.Nat.{ℕ, ◌+◌}
use echidra_oss.Base.Lists.{All, sum_of}
use mathlib.Core.Option.{some-injective}
use mathlib.Core.Bool.{false≢true, false}
use mathlib.Core.List.{◌++◌}
use echidra_oss.Base.Lists.{keep}
use mathlib.Core.Path.{sym, ◌∙◌, subst, ◌≡◌, refl}
use mathlib.Core.Logic.{◌↔◌, ◌≢◌, inl, inr}
use mathlib.Core.Bool.{Bool, true, false}
use mathlib.Core.Option.{Option, none, some}
use mathlib.Core.List.{List, [], ◌∷◌}
use native.Mathlib.Omega.{arith}

pub record Eq {ℓ} (A : Type ℓ) : Type ℓ where
  pub beq : A → A → Bool
  pub beq_iff : (a b : A) → (beq a b ≡ true) ↔ (a ≡ b)

instance abbrev pub string_eq : Eq String
string_eq = record { beq = str_eq; beq_iff = str_eq_iff }

abbrev pub Dict {ℓ κ} : Type ℓ → Type κ → Type (ℓ ⊔ κ)
Dict K V = List (K × V)

module _ {ℓ} {K : Type ℓ} ⦃e : Eq K⦄ where
  beq_sym_false : (j k : K) → e.beq j k ≡ false → e.beq k j ≡ false
  beq_sym_false j k other = elim (Bool-cases (e.beq k j)) [
    | inl same ↦ absurd (false≢true (sym other ∙ (e.beq_iff j k).1 (sym ((e.beq_iff k j).0 same))))
    | inr differ ↦ differ
  ]

module _ {ℓ κ} {K : Type ℓ} {V : Type κ} ⦃e : Eq K⦄ where
  -- `d.get(k)`
  unfoldable pub lookup : K → Dict K V → Option V
  lookup k [] = none
  lookup k ((j, v) ∷ d) = if e.beq j k then some v else lookup k d

  -- `d[k] = v`: a key that is there keeps its place.
  unfoldable pub insert : K → V → Dict K V → Dict K V
  insert k v [] = (k, v) ∷ []
  insert k v ((j, w) ∷ d) = if e.beq j k then (j, v) ∷ d else (j, w) ∷ insert k v d

  -- `del d[k]`
  unfoldable pub erase : K → Dict K V → Dict K V
  erase k [] = []
  erase k ((j, w) ∷ d) = if e.beq j k then d else (j, w) ∷ erase k d

  pub lookup-insert_self : (k : K) (v : V) (d : Dict K V) → lookup k (insert k v d) ≡ some v
  unfolding lookup insert
  lookup-insert_self k v [] = rw ((e.beq_iff k k).1 refl)
  lookup-insert_self k v ((j, w) ∷ d) = elim (Bool-cases (e.beq j k)) [
    | inl same ↦ rw (same, same)
    | inr other ↦ rw (other, other) (lookup-insert_self k v d)
  ]

  pub lookup-insert_ne :
      (k q : K) (v : V) (d : Dict K V) → k ≢ q → lookup q (insert k v d) ≡ lookup q d
  unfolding lookup insert
  lookup-insert_ne k q v [] ne = ground (arith, e.beq_iff k q)
  lookup-insert_ne k q v ((j, w) ∷ d) ne =
      ground (arith, e.beq_iff j k, e.beq_iff j q, lookup-insert_ne k q v d ne)

  -- What a measure of the values adds up to, when a key is given a value for the first time.
  pub sum_of-insert_new :
      (f : V → ℕ) (k : K) (v : V) (d : Dict K V)
      → lookup k d ≡ none
      → sum_of (λ x. f x.1) (insert k v d) ≡ sum_of (λ x. f x.1) d + f v
  unfolding lookup insert
  sum_of-insert_new f k v [] h = omega arith
  sum_of-insert_new f k v ((j, w) ∷ d) h = ground (arith, sum_of-insert_new f k v d)

  -- And when it is given another value.
  pub sum_of-insert :
      (f : V → ℕ) (k : K) (v old : V) (d : Dict K V)
      → lookup k d ≡ some old
      → sum_of (λ x. f x.1) (insert k v d) + f old ≡ sum_of (λ x. f x.1) d + f v
  unfolding lookup insert
  sum_of-insert f k v old [] h = cc
  sum_of-insert f k v old ((j, w) ∷ d) h = ground (arith, sum_of-insert f k v old d)

  -- What holds of every value holds of a value that is found.
  pub All-lookup {μ} :
      (P : V → Type μ) (k : K) (v : V) (d : Dict K V)
      → All (λ x. P x.1) d
      → lookup k d ≡ some v
      → P v
  unfolding lookup
  All-lookup P k v [] h found = cc
  All-lookup P k v ((j, w) ∷ d) (p, h) found = elim (Bool-cases (e.beq j k)) [
    | inl same ↦ subst P (some-injective w v (rw same at found)) p
    | inr other ↦ All-lookup P k v d h (rw other at found)
  ]

  -- What holds of every value and of a new one holds after the new one is stored.
  pub All-insert {μ} :
      (P : V → Type μ) (k : K) (v : V) (d : Dict K V)
      → All (λ x. P x.1) d
      → P v
      → All (λ x. P x.1) (insert k v d)
  unfolding insert
  All-insert P k v [] h p = (p, tt)
  All-insert P k v ((j, w) ∷ d) (q, h) p =
      if_either (All (λ x. P x.1)) (e.beq j k) _ _ (p, h) (q, All-insert P k v d h p)

  -- A value that a filter keeps is still found.
  pub lookup-keep :
      (p : V → Bool) (k : K) (v : V) (d : Dict K V)
      → lookup k d ≡ some v
      → p v ≡ true
      → lookup k (keep (λ x. p x.1) d) ≡ some v
  unfolding lookup
  lookup-keep p k v [] found h = cc
  lookup-keep p k v ((j, w) ∷ d) found h = ground (arith, lookup-keep p k v d)

  -- No key stands twice.
  abbrev pub IsKeyed : Dict K V → Type κ
  IsKeyed [] = Unit
  IsKeyed ((j, w) ∷ d) = (lookup j d ≡ none) × IsKeyed d

  pub lookup-erase_ne : (k q : K) (d : Dict K V) → k ≢ q → lookup q (erase k d) ≡ lookup q d
  unfolding lookup erase
  lookup-erase_ne k q [] ne = refl
  lookup-erase_ne k q ((j, w) ∷ d) ne =
      ground (arith, e.beq_iff j k, e.beq_iff j q, lookup-erase_ne k q d ne)

  lookup_of_same :
      (j k : K) (d : Dict K V) → e.beq j k ≡ true → lookup j d ≡ none → lookup k d ≡ none
  lookup_of_same j k d same h = rw (← (e.beq_iff j k).0 same) h

  pub lookup-erase_self : (k : K) (d : Dict K V) → IsKeyed d → lookup k (erase k d) ≡ none
  unfolding lookup erase
  lookup-erase_self k [] h = refl
  lookup-erase_self k ((j, w) ∷ d) (new, h) = elim (Bool-cases (e.beq j k)) [
    | inl same ↦ rw same (lookup_of_same j k d same new)
    | inr other ↦ rw (other, other) (lookup-erase_self k d h)
  ]

  pub erase-IsKeyed : (k : K) (d : Dict K V) → IsKeyed d → IsKeyed (erase k d)
  unfolding erase
  erase-IsKeyed k [] h = tt
  erase-IsKeyed k ((j, w) ∷ d) (new, h) = elim (Bool-cases (e.beq j k)) [
    | inl same ↦ rw same h
    | inr other ↦ rw other (
      lookup-erase_ne k j d (λ p. false≢true (sym other ∙ (e.beq_iff j k).1 (sym p))) ∙ new,
      erase-IsKeyed k d h,
    )
  ]

  pub lookup-append_last :
      (k : K) (v : V) (d : Dict K V) → lookup k d ≡ none → lookup k (d ++ (k, v) ∷ []) ≡ some v
  unfolding lookup
  lookup-append_last k v [] h = rw ((e.beq_iff k k).1 refl)
  lookup-append_last k v ((j, w) ∷ d) h = ground (arith, lookup-append_last k v d)

  lookup-append_other :
      (k q : K) (v : V) (d : Dict K V)
      → lookup q d ≡ none
      → e.beq k q ≡ false
      → lookup q (d ++ (k, v) ∷ []) ≡ none
  unfolding lookup
  lookup-append_other k q v [] h other = rw other
  lookup-append_other k q v ((j, w) ∷ d) h other = ground (arith, lookup-append_other k q v d)

  pub append_last-IsKeyed :
      (k : K) (v : V) (d : Dict K V) → IsKeyed d → lookup k d ≡ none → IsKeyed (d ++ (k, v) ∷ [])
  unfolding lookup
  append_last-IsKeyed k v [] h new = (refl, tt)
  append_last-IsKeyed k v ((j, w) ∷ d) (fresh, h) new = elim (Bool-cases (e.beq j k)) [
    | inl same ↦ cc (rw same at new)
    | inr other ↦ (
      lookup-append_other k j v d fresh (beq_sym_false j k other),
      append_last-IsKeyed k v d h (rw other at new),
    )
  ]
