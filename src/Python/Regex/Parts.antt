-- ===== src/Python/Regex/Parts.antt =====
-- What the texts of a compound pattern are made of.
use echidra_oss.Base.{ℕ, List, [], ◌∷◌, ◌++◌, Bool, true, ◌≡◌, refl, ap, ◌∙◌, ==_iff, ◌⊎◌, inl, inr}
use echidra_oss.Base.Text.{Text}
use echidra_oss.Python.Regex.{
  Regex, empty, class, both, char, literal_text, one_of_regexes, optional,
}
use echidra_oss.Python.Regex.Matches.{
  Matches, matches_empty, matches_class, matches_both, matches_left, matches_right, nothing_fails,
}
use mathlib.Core.List.{Memᴰ}

pub Matches-both :
    {r s : Regex} {v : Text}
    → Matches (both r s) v
    → (t : Text) × (u : Text) × (v ≡ t ++ u) × Matches r t × Matches s u
Matches-both (matches_both t u e m n) = (t, u, e, m, n)

pub Matches-class :
    {p : ℕ → Bool} {v : Text} → Matches (class p) v → (c : ℕ) × (v ≡ c ∷ []) × (p c ≡ true)
Matches-class (matches_class c e h) = (c, e, h)

pub Matches-empty : {v : Text} → Matches empty v → v ≡ []
Matches-empty (matches_empty e) = e

Matches-char : (c : ℕ) {v : Text} → Matches (char c) v → v ≡ c ∷ []
Matches-char c m = let one = Matches-class m in one.1 ∙ ap (λ d. d ∷ []) ((==_iff one.0 c).0 one.2)

char-Matches : (c : ℕ) → Matches (char c) (c ∷ [])
char-Matches c = matches_class c refl ((==_iff c c).1 refl)

pub Matches-literal : (t : Text) {v : Text} → Matches (literal_text t) v → v ≡ t
Matches-literal [] m = Matches-empty m
Matches-literal (c ∷ []) m = Matches-char c m
Matches-literal (c ∷ d ∷ t) m =
    let parts = Matches-both m in
    let first = Matches-char c parts.3 in
    let rest = Matches-literal (d ∷ t) parts.4 in rw (parts.2, first, rest) refl

pub literal-Matches : (t : Text) → Matches (literal_text t) t
literal-Matches [] = matches_empty refl
literal-Matches (c ∷ []) = char-Matches c
literal-Matches (c ∷ d ∷ t) =
    matches_both (c ∷ []) (d ∷ t) refl (char-Matches c) (literal-Matches (d ∷ t))

-- A text of one of some patterns is one of a pattern among them.
pub Matches-one_of :
    (rs : List Regex) {v : Text}
    → Matches (one_of_regexes rs) v
    → (r : Regex) × Memᴰ r rs × Matches r v
Matches-one_of [] m = absurd (nothing_fails _ m)
Matches-one_of (r ∷ []) m = (r, Memᴰ.head refl, m)
Matches-one_of (r ∷ s ∷ rs) (matches_left m) = (r, Memᴰ.head refl, m)
Matches-one_of (r ∷ s ∷ rs) (matches_right m) =
    let later = Matches-one_of (s ∷ rs) m in (later.0, Memᴰ.tail later.1, later.2)

pub one_of-Matches :
    (rs : List Regex) {v : Text} (r : Regex)
    → Memᴰ r rs
    → Matches r v
    → Matches (one_of_regexes rs) v
one_of-Matches [] q k m = elim k [ ]
one_of-Matches (r ∷ []) q (Memᴰ.tail k) m = elim k [ ]
one_of-Matches (r ∷ []) q (Memᴰ.head e) m = rw (← e) m
one_of-Matches (r ∷ s ∷ rs) q (Memᴰ.head e) m = matches_left (rw (← e) m)
one_of-Matches (r ∷ s ∷ rs) q (Memᴰ.tail k) m = matches_right (one_of-Matches (s ∷ rs) q k m)

-- A letter, or nothing.
pub Matches-optional-char :
    (c : ℕ) {v : Text} → Matches (optional (char c)) v → (v ≡ c ∷ []) ⊎ (v ≡ [])
Matches-optional-char c (matches_left m) = inl (Matches-char c m)
Matches-optional-char c (matches_right m) = inr (Matches-empty m)

pub optional-char-Matches : (c : ℕ) → Matches (optional (char c)) (c ∷ [])
optional-char-Matches c = matches_left (char-Matches c)

pub optional-Matches : (r : Regex) → Matches (optional r) []
optional-Matches r = matches_right (matches_empty refl)
