-- ===== src/Features/Requests/SensitivePath.antt =====
-- Which paths are sensitive, in terms of the markers.
use mathlib.Core.Path.{subst}
use echidra_oss.Base.{
  ℕ, String, List, [], ◌∷◌, ◌++◌, map, Bool, true, false, not, ◌≡◌, refl, sym, ap, ◌∙◌, inl, inr,
  ◌↔◌, if◌then◌else◌, arith, leb, leb→le, all,
}
use echidra_oss.Base.Text.{Text, codes}
use echidra_oss.Features.Patterns.{
  marker_pattern, sensitive_path_markers, sensitive_path_marker_pattern,
}
use echidra_oss.Features.Requests.{is_sensitive_path}
use echidra_oss.Python.Regex.{search_in, start_mark, end_mark, is_alnum, char}
use echidra_oss.Python.Regex.Decides.{Contains, found_in_iff}
use echidra_oss.Python.Regex.Matches.{Matches, matches_class, matches_both}
use echidra_oss.Python.Regex.Parts.{
  Matches-both, Matches-class, Matches-literal, literal-Matches, Matches-one_of, one_of-Matches,
  Matches-optional-char, optional-char-Matches, optional-Matches,
}
use echidra_oss.Python.Split.{lower}
use mathlib.Core.List.{Memᴰ, append_assoc, append-nil}

-- No letter or digit comes next.
abbrev pub ends_name : Text → Bool
ends_name [] = true
ends_name (c ∷ s) = not (is_alnum c)

abbrev pub plural_end : Bool → Text
plural_end plural = if plural then b's' ∷ [] else []

-- A marker, possibly in its plural, that no letter or digit follows.
abbrev pub HasMarker : Text → Type 0
HasMarker path =
    (marker : String) × Memᴰ marker sensitive_path_markers
    × (plural : Bool) × (before : Text) × (after : Text) × (path
        ≡ before ++ (codes marker ++ (plural_end plural ++ after)))
    × (ends_name after ≡ true)

joined :
    {v t u p q name plural last : Text}
    → v ≡ t ++ u
    → t ≡ name
    → u ≡ p ++ q
    → p ≡ plural
    → q ≡ last
    → v ≡ name ++ (plural ++ last)
joined e f g h k = cc

-- The part of a text between the marks that a marker's pattern describes.
marker-Matches :
    (marker : String) {v : Text}
    → Matches (marker_pattern marker) v
    → (plural : Bool) × (c : ℕ) × (v ≡ codes marker ++ (plural_end plural ++ c ∷ []))
      × (not (is_alnum c) ≡ true)
marker-Matches marker m =
    let a = Matches-both m in
    let b = Matches-both a.4 in
    let name = Matches-literal (codes marker) a.3 in
    let last = Matches-class b.4 in
    elim (Matches-optional-char b's' b.3) [
      | inl s ↦ (true, last.0, joined a.2 name b.2 s last.1, last.2)
      | inr e ↦ (false, last.0, joined a.2 name b.2 e last.1, last.2)
    ]

Matches-marker :
    (marker : String) (plural : Bool) (c : ℕ)
    → not (is_alnum c) ≡ true
    → Matches (marker_pattern marker) (codes marker ++ (plural_end plural ++ c ∷ []))
Matches-marker marker true c h =
    matches_both (codes marker) _ refl (literal-Matches (codes marker))
      (matches_both (b's' ∷ []) (c ∷ []) refl (optional-char-Matches b's') (matches_class c refl h))
Matches-marker marker false c h =
    matches_both (codes marker) _ refl (literal-Matches (codes marker))
      (matches_both [] (c ∷ []) refl (optional-Matches (char b's')) (matches_class c refl h))

-- A character of a text with a mark at its end, and the text before and behind it.
data Place (s before : Text) (c : ℕ) : Type 0 where
  inside : (after : Text) → s ≡ before ++ c ∷ after → Place s before c
  at_end : s ≡ before → Place s before c

Place-next : (d : ℕ) {s before : Text} {c : ℕ} → Place s before c → Place (d ∷ s) (d ∷ before) c
Place-next d (inside after e) = inside after (ap (λ (x : Text). d ∷ x) e)
Place-next d (at_end e) = at_end (ap (λ (x : Text). d ∷ x) e)

Place-of :
    (s before : Text) (c : ℕ) (after : Text)
    → s ++ end_mark ∷ [] ≡ before ++ c ∷ after
    → Place s before c
Place-of [] [] c after e = at_end refl
Place-of (d ∷ s) [] c after e = inside s cc
Place-of [] (b ∷ []) c after e = cc
Place-of [] (b ∷ d ∷ before) c after e = cc
Place-of (d ∷ s) (b ∷ before) c after e =
    let same : d ≡ b = cc in
    subst (λ x. Place (d ∷ s) (x ∷ before) c) same (Place-next d (Place-of s before c after cc))

-- Every marker begins with a character, and not with a mark.
abbrev starts_well : Text → Bool
starts_well [] = false
starts_well (c ∷ s) = leb c 0x10FFFF

all_at :
    {A : Type 0} (p : A → Bool) (xs : List A) (a : A) → Memᴰ a xs → all p xs ≡ true → p a ≡ true
all_at p [] a m h = elim m [ ]
all_at p (x ∷ xs) a (Memᴰ.head e) h = let q : p a ≡ p x = ap p e in ground arith
all_at p (x ∷ xs) a (Memᴰ.tail m) h = all_at p xs a m (ground arith)

not_at_start : (t s u : Text) → starts_well t ≡ true → start_mark ∷ s ≡ t ++ u → ⊥
not_at_start [] s u h e = cc
not_at_start (c ∷ t) s u h e =
    let same : start_mark ≡ c = cc in omega (arith, same, leb→le c 0x10FFFF h)

Memᴰ-map :
    {A B : Type 0} (f : A → B) (xs : List A) (y : B)
    → Memᴰ y (map f xs)
    → (x : A) × Memᴰ x xs × (y ≡ f x)
Memᴰ-map f [] y m = elim m [ ]
Memᴰ-map f (x ∷ xs) y (Memᴰ.head e) = (x, Memᴰ.head refl, e)
Memᴰ-map f (x ∷ xs) y (Memᴰ.tail m) =
    let later = Memᴰ-map f xs y m in (later.0, Memᴰ.tail later.1, later.2)

map-Memᴰ : {A B : Type 0} (f : A → B) (xs : List A) (x : A) → Memᴰ x xs → Memᴰ (f x) (map f xs)
map-Memᴰ f [] x m = elim m [ ]
map-Memᴰ f (y ∷ xs) x (Memᴰ.head e) = Memᴰ.head (ap f e)
map-Memᴰ f (y ∷ xs) x (Memᴰ.tail m) = Memᴰ.tail (map-Memᴰ f xs x m)

ungroup : (a b c d : Text) → (a ++ (b ++ c)) ++ d ≡ a ++ (b ++ (c ++ d))
ungroup a b c d = append_assoc a (b ++ c) d ∙ ap (λ (x : Text). a ++ x) (append_assoc b c d)

regroup :
    (a b p : Text) (c : ℕ) (d : Text) → a ++ ((b ++ (p ++ c ∷ [])) ++ d) ≡ (a ++ (b ++ p)) ++ c ∷ d
regroup a b p c d =
    ap (λ (x : Text). a ++ x)
      (append_assoc b (p ++ c ∷ []) d ∙ ap (λ (x : Text). b ++ x) (append_assoc p (c ∷ []) d))
    ∙ sym (ungroup a b p (c ∷ d))

extend :
    (s a b p d r : Text) (c : ℕ) (q : Text)
    → s ≡ a ++ (b ++ (p ++ d))
    → d ++ r ≡ c ∷ q
    → s ++ r ≡ a ++ ((b ++ (p ++ c ∷ [])) ++ q)
extend s a b p d r c q e f =
    ap (λ (x : Text). x ++ r) (e ∙ sym (ungroup a b p d))
    ∙ append_assoc (a ++ (b ++ p)) d r
    ∙ ap (λ (x : Text). (a ++ (b ++ p)) ++ x) f
    ∙ sym (regroup a b p c q)

-- A text between the marks whose part is a marker.
marked-HasMarker :
    (s before after : Text) (marker : String) (plural : Bool) (c : ℕ)
    → Memᴰ marker sensitive_path_markers
    → not (is_alnum c) ≡ true
    → start_mark ∷ (s ++ end_mark ∷ [])
      ≡ before ++ ((codes marker ++ (plural_end plural ++ c ∷ [])) ++ after)
    → HasMarker s
marked-HasMarker s [] after marker plural c m h e = absurd (
    not_at_start (codes marker) _ ((plural_end plural ++ c ∷ []) ++ after)
      (all_at (λ m. starts_well (codes m)) sensitive_path_markers marker m refl)
      (e ∙ append_assoc (codes marker) _ after))
marked-HasMarker s (b ∷ before) after marker plural c m h e =
    let name = before ++ (codes marker ++ plural_end plural) in
    let same : s ++ end_mark ∷ []
        ≡ before ++ ((codes marker ++ (plural_end plural ++ c ∷ [])) ++ after) =
      cc in
    elim (Place-of s name c after
      (same ∙ regroup before (codes marker) (plural_end plural) c after)) [
        | inside rest f ↦ (
          marker,
          m,
          plural,
          before,
          c ∷ rest,
          f ∙ ungroup before (codes marker) (plural_end plural) (c ∷ rest),
          h,
        )
        | at_end f ↦ (
          marker,
          m,
          plural,
          before,
          [],
          f ∙ sym (append-nil name) ∙ ungroup before (codes marker) (plural_end plural) [],
          refl,
        )
      ]

HasMarker-marked :
    (s : Text)
    → HasMarker s
    → Contains sensitive_path_marker_pattern (start_mark ∷ (s ++ end_mark ∷ []))
HasMarker-marked s (marker, m, plural, before, [], e, h) = (
  start_mark ∷ before,
  codes marker ++ (plural_end plural ++ end_mark ∷ []),
  [],
  ap (λ (x : Text). start_mark ∷ x)
      (extend s before (codes marker) (plural_end plural) [] (end_mark ∷ []) end_mark [] e refl),
  one_of-Matches _ _ (map-Memᴰ marker_pattern _ marker m)
      (Matches-marker marker plural end_mark refl),
)
HasMarker-marked s (marker, m, plural, before, c ∷ after, e, h) = (
  start_mark ∷ before,
  codes marker ++ (plural_end plural ++ c ∷ []),
  after ++ end_mark ∷ [],
  ap (λ (x : Text). start_mark ∷ x)
      (extend s before (codes marker) (plural_end plural) (c ∷ after) (end_mark ∷ []) c
        (after ++ end_mark ∷ []) e refl),
  one_of-Matches _ _ (map-Memᴰ marker_pattern _ marker m) (Matches-marker marker plural c h),
)

Contains-HasMarker :
    (s : Text)
    → Contains sensitive_path_marker_pattern (start_mark ∷ (s ++ end_mark ∷ []))
    → HasMarker s
Contains-HasMarker s (before, t, after, e, m) =
    let found = Matches-one_of (map marker_pattern sensitive_path_markers) m in
    let named = Memᴰ-map marker_pattern sensitive_path_markers found.0 found.1 in
    let parts = marker-Matches named.0 (subst (λ r. Matches r t) named.2 found.2) in
    marked-HasMarker s before after named.0 parts.0 parts.1 named.1 parts.3
      (e ∙ ap (λ t. before ++ (t ++ after)) parts.2)

-- A path is sensitive exactly if it has, in small letters, one of the markers or a marker and an
-- `s`, with no letter or digit right behind.
pub is_sensitive_path_iff : (path : Text) → (is_sensitive_path path ≡ true) ↔ HasMarker (lower path)
unfolding is_sensitive_path search_in
is_sensitive_path_iff path = (
  λ h. Contains-HasMarker (lower path) ((found_in_iff sensitive_path_marker_pattern _).0 h),
  λ h. (found_in_iff sensitive_path_marker_pattern _).1 (HasMarker-marked (lower path) h),
)
