-- ===== src/Python/Regex/Decides.antt =====
-- Searching by derivatives finds a match exactly where one stands in the text.
use mathlib.Core.Path.{subst}
use echidra_oss.Base.{
  ℕ, [], ◌∷◌, ◌++◌, true, ◌≡◌, ◌↔◌, ◌⊎◌, inl, inr, refl, sym, ap, ◌∙◌, arith, Bool-cases,
}
use echidra_oss.Base.Text.{Text}
use echidra_oss.Python.Regex.{
  Regex, fails, empty, class, both, either, many, nullable, both_of, deriv, starts, found_in,
}
use echidra_oss.Python.Regex.Matches.{
  Matches, matches_empty, matches_class, matches_both, matches_left, matches_right, matches_none,
  matches_more, nullable-Matches, Matches-nullable, both_of_sound, both_of_complete,
  either_of_sound, either_of-left, either_of-right, empty-Matches, nothing_fails,
}

-- The first part of a text that is not empty.
abbrev Splits : ℕ → Text → Text → Text → Type 0
Splits c v t u = ((t ≡ []) × (c ∷ v ≡ u)) ⊎ ((t' : Text) × (t ≡ c ∷ t') × (v ≡ t' ++ u))

splits : (c : ℕ) (v t u : Text) → c ∷ v ≡ t ++ u → Splits c v t u
splits c v [] u e = inl (refl, e)
splits c v (d ∷ t) u e = inr (t, (cc), (cc))

either_cases : {r s : Regex} {v : Text} → Matches (either r s) v → Matches r v ⊎ Matches s v
either_cases (matches_left m) = inl m
either_cases (matches_right m) = inr m

-- A match of the derivative of a first part is one of the whole, behind the character.
both_first :
    (d r s : Regex) (c : ℕ) {v : Text}
    → ((t : Text) → Matches d t → Matches r (c ∷ t))
    → Matches (both d s) v
    → Matches (both r s) (c ∷ v)
both_first d r s c f (matches_both t u e m n) =
    matches_both (c ∷ t) u (ap (λ (x : Text). c ∷ x) e) (f t m) n

many_first :
    (d r : Regex) (c : ℕ) {v : Text}
    → ((t : Text) → Matches d t → Matches r (c ∷ t))
    → Matches (both d (many r)) v
    → Matches (many r) (c ∷ v)
many_first d r c f (matches_both t u e m n) =
    matches_more (c ∷ t) u (ap (λ (x : Text). c ∷ x) e) (f t m) n

deriv_sound : (r : Regex) (c : ℕ) (v : Text) → Matches (deriv c r) v → Matches r (c ∷ v)
deriv_sound fails c v m = absurd (nothing_fails v m)
deriv_sound empty c v m = absurd (nothing_fails v m)
deriv_sound (class p) c v m = elim (Bool-cases (p c)) [
  | inl e ↦ matches_class c (ap (λ (x : Text). c ∷ x) (empty-Matches v (rw e at m))) e
  | inr e ↦ absurd (nothing_fails v (rw e at m))
]
deriv_sound (both r s) c v m =
    let first = λ (n : Matches (both_of (deriv c r) s) v).
      both_first (deriv c r) r s c (deriv_sound r c) (both_of_sound (deriv c r) s v n) in
    elim (Bool-cases (nullable r)) [
      | inl e ↦
          elim (either_cases (either_of_sound (both_of (deriv c r) s) (deriv c s) v (rw e at m))) [
            | inl n ↦ first n
            | inr n ↦ matches_both [] (c ∷ v) refl (nullable-Matches r e) (deriv_sound s c v n)
          ]
      | inr e ↦ first (rw e at m)
    ]
deriv_sound (either r s) c v m = elim (either_cases (either_of_sound (deriv c r) (deriv c s) v m)) [
  | inl n ↦ matches_left (deriv_sound r c v n)
  | inr n ↦ matches_right (deriv_sound s c v n)
]
deriv_sound (many r) c v m =
    many_first (deriv c r) r c (deriv_sound r c) (both_of_sound (deriv c r) (many r) v m)

-- The derivative of `both`, by where its second part may begin.
both_derived_first :
    (r s : Regex) (c : ℕ) (v : Text)
    → Matches (both_of (deriv c r) s) v
    → Matches (deriv c (both r s)) v
both_derived_first r s c v m = elim (Bool-cases (nullable r)) [
  | inl e ↦ rw e (either_of-left (both_of (deriv c r) s) (deriv c s) v m)
  | inr e ↦ rw e m
]

both_derived_later :
    (r s : Regex) (c : ℕ) (v : Text)
    → nullable r ≡ true
    → Matches (deriv c s) v
    → Matches (deriv c (both r s)) v
both_derived_later r s c v e m = rw e (either_of-right (both_of (deriv c r) s) (deriv c s) v m)

deriv_complete : (c : ℕ) (v w : Text) {r : Regex} → Matches r w → w ≡ c ∷ v → Matches (deriv c r) v
deriv_complete c v w (matches_empty e) h = cc
deriv_complete c v w (matches_class {p} d e k) h =
    let same : d ≡ c = cc in rw (subst (λ x. p x ≡ true) same k) (matches_empty (cc))
deriv_complete c v w (matches_both {r} {s} t u e m n) h = elim (splits c v t u (sym h ∙ e)) [
  | inl (z, q) ↦ both_derived_later r s c v (Matches-nullable m z) (deriv_complete c v u n (sym q))
  | inr (t', z, q) ↦ subst (Matches (deriv c (both r s))) (sym q) (
      both_derived_first r s c (t' ++ u)
        (both_of_complete (deriv c r) s t' u (deriv_complete c t' t m z) n))
]
deriv_complete c v w (matches_left {r} {s} m) h =
    either_of-left (deriv c r) (deriv c s) v (deriv_complete c v w m h)
deriv_complete c v w (matches_right {r} {s} m) h =
    either_of-right (deriv c r) (deriv c s) v (deriv_complete c v w m h)
deriv_complete c v w (matches_none e) h = cc
deriv_complete c v w (matches_more {r} t u e m n) h = elim (splits c v t u (sym h ∙ e)) [
  | inl (z, q) ↦ deriv_complete c v u n (sym q)
  | inr (t', z, q) ↦
      subst (Matches (deriv c (many r))) (sym q)
        (both_of_complete (deriv c r) (many r) t' u (deriv_complete c t' t m z) n)
]

-- A part of the text, from its start, that the pattern describes.
abbrev StartsWith : Regex → Text → Type 0
StartsWith r s = (t : Text) × (u : Text) × (s ≡ t ++ u) × Matches r t

starts_sound : (r : Regex) (s : Text) → starts r s ≡ true → StartsWith r s
unfolding starts
starts_sound r [] h = ([], [], refl, nullable-Matches r h)
starts_sound r (c ∷ s) h = elim (Bool-cases (nullable r)) [
  | inl e ↦ ([], c ∷ s, refl, nullable-Matches r e)
  | inr e ↦
      let rest = starts_sound (deriv c r) s (rw e at h) in
      (c ∷ rest.0, rest.1, ap (λ (x : Text). c ∷ x) rest.2, deriv_sound r c rest.0 rest.3)
]

starts_complete : (r : Regex) (t u : Text) → Matches r t → starts r (t ++ u) ≡ true
unfolding starts
starts_complete r [] [] m = Matches-nullable m refl
starts_complete r [] (c ∷ u) m = rw (Matches-nullable m refl)
starts_complete r (c ∷ t) u m =
    ground (arith, starts_complete (deriv c r) t u (deriv_complete c t (c ∷ t) m refl))

-- A part anywhere in the text that the pattern describes, with what is before and behind it.
abbrev pub Contains : Regex → Text → Type 0
Contains r s =
    (before : Text) × (t : Text) × (after : Text) × (s ≡ before ++ (t ++ after)) × Matches r t

found_in_sound : (r : Regex) (s : Text) → found_in r s ≡ true → Contains r s
unfolding found_in
found_in_sound r [] h =
    let at_end = starts_sound r [] h in ([], at_end.0, at_end.1, at_end.2, at_end.3)
found_in_sound r (c ∷ s) h = elim (Bool-cases (starts r (c ∷ s))) [
  | inl e ↦ let here = starts_sound r (c ∷ s) e in ([], here.0, here.1, here.2, here.3)
  | inr e ↦
      let rest = found_in_sound r s (rw e at h) in
      (c ∷ rest.0, rest.1, rest.2, ap (λ (x : Text). c ∷ x) rest.3, rest.4)
]

found_in-starts : (r : Regex) (s : Text) → starts r s ≡ true → found_in r s ≡ true
unfolding found_in
found_in-starts r [] h = h
found_in-starts r (c ∷ s) h = rw h

found_in_complete :
    (r : Regex) (before t after : Text) → Matches r t → found_in r (before ++ (t ++ after)) ≡ true
unfolding found_in
found_in_complete r [] t after m = found_in-starts r (t ++ after) (starts_complete r t after m)
found_in_complete r (c ∷ before) t after m = ground (arith, found_in_complete r before t after m)

-- A search finds a pattern in a text exactly if the text has a part that the pattern describes.
pub found_in_iff : (r : Regex) (s : Text) → (found_in r s ≡ true) ↔ Contains r s
found_in_iff r s = (found_in_sound r s, λ c. rw c.3 (found_in_complete r c.0 c.1 c.2 c.4))
