-- ===== src/Python/Regex/Matches.antt =====
-- The matcher by derivatives decides which texts a regular expression describes.
use mathlib.Core.Path.{subst}
use echidra_oss.Base.{
  ℕ, [], ◌∷◌, ◌++◌, Bool, true, ◌&&◌, ◌≡◌, inl, inr, refl, sym, ◌∙◌, arith, Bool-cases,
}
use echidra_oss.Base.Text.{Text}
use echidra_oss.Python.Regex.{
  is_fails, is_empty, Regex, fails, empty, class, both, either, many, nullable, both_of, either_of,
}

-- The texts that a regular expression describes.
pub data Matches : Regex → Text → Type 0 where
  matches_empty : {v : Text} → v ≡ [] → Matches empty v
  matches_class : {p : ℕ → Bool} {v : Text} (c : ℕ) → v ≡ c ∷ [] → p c ≡ true → Matches (class p) v
  matches_both :
      {r s : Regex} {v : Text} (t u : Text)
      → v ≡ t ++ u
      → Matches r t
      → Matches s u
      → Matches (both r s) v
  matches_left : {r s : Regex} {v : Text} → Matches r v → Matches (either r s) v
  matches_right : {r s : Regex} {v : Text} → Matches s v → Matches (either r s) v
  matches_none : {r : Regex} {v : Text} → v ≡ [] → Matches (many r) v
  matches_more :
      {r : Regex} {v : Text} (t u : Text)
      → v ≡ t ++ u
      → Matches r t
      → Matches (many r) u
      → Matches (many r) v

pub nothing_fails : (v : Text) → Matches fails v → ⊥
nothing_fails v m = elim m [ ]

and_left : (a b : Bool) → (a && b) ≡ true → a ≡ true
and_left a b h = ground arith

and_right : (a b : Bool) → (a && b) ≡ true → b ≡ true
and_right a b h = ground arith

pub nullable-Matches : (r : Regex) → nullable r ≡ true → Matches r []
nullable-Matches fails h = cc
nullable-Matches empty h = matches_empty refl
nullable-Matches (class p) h = cc
nullable-Matches (both r s) h =
    matches_both [] [] refl (nullable-Matches r (and_left (nullable r) _ h))
      (nullable-Matches s (and_right (nullable r) _ h))
nullable-Matches (either r s) h = elim (Bool-cases (nullable r)) [
  | inl e ↦ matches_left (nullable-Matches r e)
  | inr e ↦ matches_right (nullable-Matches s (ground arith))
]
nullable-Matches (many r) h = matches_none refl

no_cons : (t u : Text) → [] ≡ t ++ u → (t ≡ []) × (u ≡ [])
no_cons [] u e = (refl, sym e)
no_cons (c ∷ t) u e = cc

pub Matches-nullable : {r : Regex} {v : Text} → Matches r v → v ≡ [] → nullable r ≡ true
Matches-nullable (matches_empty e) h = refl
Matches-nullable (matches_class c e p) h = cc
Matches-nullable (matches_both t u e m n) h =
    let ends = no_cons t u (sym h ∙ e) in
    ground (arith, Matches-nullable m ends.0, Matches-nullable n ends.1)
Matches-nullable (matches_left m) h = ground (arith, Matches-nullable m h)
Matches-nullable (matches_right m) h = ground (arith, Matches-nullable m h)
Matches-nullable (matches_none e) h = refl
Matches-nullable (matches_more t u e m n) h = refl

fails-Matches : (r : Regex) (v : Text) → is_fails r ≡ true → Matches r v → ⊥
fails-Matches fails v h m = elim m [ ]
fails-Matches empty v h m = cc
fails-Matches (class p) v h m = cc
fails-Matches (both r s) v h m = cc
fails-Matches (either r s) v h m = cc
fails-Matches (many r) v h m = cc

is_fails-eq : (r : Regex) → is_fails r ≡ true → r ≡ fails
is_fails-eq r h = ground arith

is_empty-eq : (r : Regex) → is_empty r ≡ true → r ≡ empty
is_empty-eq r h = ground arith

pub empty-Matches : (v : Text) → Matches empty v → v ≡ []
empty-Matches v (matches_empty e) = e

-- The two short forms describe what `both` and `either` do.
pub both_of_sound : (r s : Regex) (v : Text) → Matches (both_of r s) v → Matches (both r s) v
both_of_sound r s v m = elim (Bool-cases (is_fails r)) [
  | inl e ↦ absurd (nothing_fails v (rw e at m))
  | inr e ↦ elim (Bool-cases (is_empty r)) [
    | inl d ↦ matches_both [] v refl (rw (is_empty-eq r d) (matches_empty refl)) (rw (e, d) at m)
    | inr d ↦ rw (e, d) at m
  ]
]

pub both_of_complete :
    (r s : Regex) (t u : Text) → Matches r t → Matches s u → Matches (both_of r s) (t ++ u)
both_of_complete r s t u m n = elim (Bool-cases (is_fails r)) [
  | inl e ↦ absurd (fails-Matches r t e m)
  | inr e ↦ elim (Bool-cases (is_empty r)) [
    | inl d ↦ rw (e, d, empty-Matches t (subst (λ x. Matches x t) (is_empty-eq r d) m)) n
    | inr d ↦ rw (e, d) (matches_both t u refl m n)
  ]
]

pub either_of_sound : (r s : Regex) (v : Text) → Matches (either_of r s) v → Matches (either r s) v
either_of_sound r s v m = elim (Bool-cases (is_fails r)) [
  | inl e ↦ matches_right (rw e at m)
  | inr e ↦ elim (Bool-cases (is_fails s)) [
    | inl d ↦ matches_left (rw (e, d) at m)
    | inr d ↦ rw (e, d) at m
  ]
]

pub either_of-left : (r s : Regex) (v : Text) → Matches r v → Matches (either_of r s) v
either_of-left r s v m = elim (Bool-cases (is_fails r)) [
  | inl e ↦ absurd (fails-Matches r v e m)
  | inr e ↦ elim (Bool-cases (is_fails s)) [
    | inl d ↦ rw (e, d) m
    | inr d ↦ rw (e, d) (matches_left m)
  ]
]

pub either_of-right : (r s : Regex) (v : Text) → Matches s v → Matches (either_of r s) v
either_of-right r s v m = elim (Bool-cases (is_fails r)) [
  | inl e ↦ rw e m
  | inr e ↦ elim (Bool-cases (is_fails s)) [
    | inl d ↦ absurd (fails-Matches s v d m)
    | inr d ↦ rw (e, d) (matches_right m)
  ]
]
