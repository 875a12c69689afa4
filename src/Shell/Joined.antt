-- ===== src/Shell/Joined.antt =====
-- A line that is joined from parts is split into these parts.
use echidra_oss.Base.{
  ℕ, zero, List, [], ◌∷◌, ◌++◌, Bool, true, false, not, ◌&&◌, ◌||◌, none, ◌≡◌, refl, ap, ◌∙◌, arith,
  All, Bool-cases, inl, inr, if◌then◌else◌, nonempty, ◌==◌, sym,
}
use echidra_oss.Base.Text.{Text, codes, strip, starts_with}
use echidra_oss.Shell.Split.{
  parts, part_before, Mode, bare, single, double, escaped_bare, escaped_double, split_from,
  split_unquoted, list_separators, first_separator,
}
use mathlib.Core.List.{reverse_aux, reverse-reverse, append-nil}

-- A character that can begin a separator.
abbrev pub is_special : ℕ → Bool
is_special c = c == b'&' || c == b'|' || c == b';'

-- Quotes are closed, and outside them no special character stands without a backslash before it.
abbrev pub is_closed : Mode → Text → Bool
is_closed bare [] = true
is_closed _ [] = false
is_closed single (c ∷ s) = if c == 39 then is_closed bare s else is_closed single s
is_closed double (c ∷ s) =
    if c == 92
    then is_closed escaped_double s
    else if c == 34
    then is_closed bare s
    else is_closed double s
is_closed escaped_bare (c ∷ s) = is_closed bare s
is_closed escaped_double (c ∷ s) = is_closed double s
is_closed bare (c ∷ s) =
    if c == 39
    then is_closed single s
    else if c == 34
    then is_closed double s
    else if c == 92
    then is_closed escaped_bare s
    else (not (is_special c) && is_closed bare s)

pub data Joint : Type 0 where
  and_then or_else always : Joint

abbrev pub sign_of : Joint → Text
sign_of and_then = codes "&&"
sign_of or_else = codes "||"
sign_of always = codes ";"

-- A part of a line: closed, and with more than white space.
abbrev pub IsPart : Text → Type 0
IsPart t = (is_closed bare t ≡ true) × (nonempty (strip t) ≡ true)

special_not : (c : ℕ) (b : Bool) → (not (is_special c) && b) ≡ true → is_special c ≡ false
special_not c b h = ground arith

closed_later : (c : ℕ) (b : Bool) → (not (is_special c) && b) ≡ true → b ≡ true
closed_later c b h = ground arith

no_separator :
    (c : ℕ) (s : Text) → is_special c ≡ false → first_separator list_separators (c ∷ s) ≡ none
no_separator c s h =
    let and_not : (c == 38) ≡ false = ground arith in
    let or_not : (c == 124) ≡ false = ground arith in
    let semicolon_not : (c == 59) ≡ false = ground arith in rw (and_not, or_not, semicolon_not) refl

scan_part :
    (mode : Mode) (operator current t rest : Text)
    → is_closed mode t ≡ true
    → split_from list_separators zero mode operator current (t ++ rest)
      ≡ split_from list_separators zero bare operator (reverse_aux t current) rest
unfolding split_from
scan_part bare operator current [] rest h = refl
scan_part single operator current [] rest h = cc
scan_part double operator current [] rest h = cc
scan_part escaped_bare operator current [] rest h = cc
scan_part escaped_double operator current [] rest h = cc
scan_part escaped_bare operator current (c ∷ t) rest h =
    scan_part bare operator (c ∷ current) t rest h
scan_part escaped_double operator current (c ∷ t) rest h =
    scan_part double operator (c ∷ current) t rest h
scan_part single operator current (c ∷ t) rest h = elim (Bool-cases (c == 39)) [
  | inl e ↦ rw e (scan_part bare operator (c ∷ current) t rest (rw e at h))
  | inr e ↦ rw e (scan_part single operator (c ∷ current) t rest (rw e at h))
]
scan_part double operator current (c ∷ t) rest h = elim (Bool-cases (c == 92)) [
  | inl e ↦ rw e (scan_part escaped_double operator (c ∷ current) t rest (rw e at h))
  | inr e ↦ elim (Bool-cases (c == 34)) [
    | inl f ↦ rw (e, f) (scan_part bare operator (c ∷ current) t rest (rw (e, f) at h))
    | inr f ↦ rw (e, f) (scan_part double operator (c ∷ current) t rest (rw (e, f) at h))
  ]
]
scan_part bare operator current (c ∷ t) rest h = elim (Bool-cases (c == 39)) [
  | inl e ↦ rw e (scan_part single operator (c ∷ current) t rest (rw e at h))
  | inr e ↦ elim (Bool-cases (c == 34)) [
    | inl f ↦ rw (e, f) (scan_part double operator (c ∷ current) t rest (rw (e, f) at h))
    | inr f ↦ elim (Bool-cases (c == 92)) [
      | inl g ↦
          rw (e, f, g) (scan_part escaped_bare operator (c ∷ current) t rest (rw (e, f, g) at h))
      | inr g ↦
          let plain : (not (is_special c) && is_closed bare t) ≡ true = rw (e, f, g) at h in
          rw (e, f, g, no_separator c (t ++ rest) (special_not c _ plain))
            (scan_part bare operator (c ∷ current) t rest (closed_later c _ plain))
    ]
  ]
]

-- A line of a first part and others, each behind its sign.
abbrev pub join : Text → List (Joint × Text) → Text
join first [] = first
join first ((joint, part) ∷ later) = first ++ (sign_of joint ++ join part later)

-- The parts as the scanner gives them: stripped, with the sign before each.
abbrev pub parts_of : Text → Text → List (Joint × Text) → List (Text × Text)
parts_of operator first [] = (operator, strip first) ∷ []
parts_of operator first ((joint, part) ∷ later) =
    (operator, strip first) ∷ parts_of (sign_of joint) part later

end_part :
    (operator first : Text)
    → nonempty (strip first) ≡ true
    → split_from list_separators zero bare operator (reverse_aux first []) []
      ≡ parts ((operator, strip first) ∷ [])
unfolding split_from
end_part operator first k = rw (reverse-reverse first, k) refl

-- No second semicolon follows.
first_not_semicolon : (c : ℕ) (s : Text) → is_closed bare (c ∷ s) ≡ true → (c == 59) ≡ false
first_not_semicolon c s h = ground (arith, h)

not_doubled :
    (part : Text) (later : List (Joint × Text))
    → IsPart part
    → starts_with (join part later) (codes ";") ≡ false
not_doubled [] later (h, k) = cc
not_doubled (c ∷ part) [] (h, k) = rw (first_not_semicolon c part h) refl
not_doubled (c ∷ part) (p ∷ later) (h, k) = rw (first_not_semicolon c part h) refl

at_and :
    (operator first rest : Text)
    → nonempty (strip first) ≡ true
    → split_from list_separators zero bare operator (reverse_aux first []) (codes "&&" ++ rest)
      ≡ part_before
          (operator, strip first)
          (split_from list_separators zero bare (codes "&&") [] rest)
unfolding split_from
at_and operator first rest k = rw (reverse-reverse first, k) refl

at_or :
    (operator first rest : Text)
    → nonempty (strip first) ≡ true
    → split_from list_separators zero bare operator (reverse_aux first []) (codes "||" ++ rest)
      ≡ part_before
          (operator, strip first)
          (split_from list_separators zero bare (codes "||") [] rest)
unfolding split_from
at_or operator first rest k = rw (reverse-reverse first, k) refl

at_semicolon :
    (operator first rest : Text)
    → nonempty (strip first) ≡ true
    → starts_with rest (codes ";") ≡ false
    → split_from list_separators zero bare operator (reverse_aux first []) (codes ";" ++ rest)
      ≡ part_before
          (operator, strip first)
          (split_from list_separators zero bare (codes ";") [] rest)
unfolding split_from
at_semicolon operator first rest k h = rw (h, reverse-reverse first, k) refl

at_sign :
    (joint : Joint) (operator first part : Text) (later : List (Joint × Text))
    → nonempty (strip first) ≡ true
    → IsPart part
    → split_from list_separators zero bare operator
        (reverse_aux first [])
        (sign_of joint ++ join part later)
      ≡ part_before
          (operator, strip first)
          (split_from list_separators zero bare (sign_of joint) [] (join part later))
at_sign and_then operator first part later k m = at_and operator first (join part later) k
at_sign or_else operator first part later k m = at_or operator first (join part later) k
at_sign always operator first part later k m =
    at_semicolon operator first (join part later) k (not_doubled part later m)

split_joined :
    (operator first : Text) (later : List (Joint × Text))
    → IsPart first
    → All (λ p. IsPart p.1) later
    → split_from list_separators zero bare operator [] (join first later)
      ≡ parts (parts_of operator first later)
split_joined operator first [] (h, k) l =
    ap (split_from list_separators zero bare operator []) (sym (append-nil first))
    ∙ scan_part bare operator [] first [] h
    ∙ end_part operator first k
split_joined operator first ((joint, part) ∷ later) (h, k) (m, l) =
    scan_part bare operator [] first (sign_of joint ++ join part later) h
    ∙ at_sign joint operator first part later k m
    ∙ ap (part_before (operator, strip first)) (split_joined (sign_of joint) part later m l)

-- A line that is joined from parts by "&&", "||" and ";" is split into exactly these parts,
-- stripped and each with the sign before it, if in every part the quotes are closed, every "&", "|"
-- and ";" is quoted or escaped, and there is more than white space.
pub split_unquoted-join :
    (first : Text) (later : List (Joint × Text))
    → IsPart first
    → All (λ p. IsPart p.1) later
    → split_unquoted (join first later) list_separators ≡ parts (parts_of [] first later)
unfolding split_unquoted
split_unquoted-join first later h l = split_joined [] first later h l
