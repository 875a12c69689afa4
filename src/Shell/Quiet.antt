-- ===== src/Shell/Quiet.antt =====
-- A command without a redirect is left as it is.
use echidra_oss.Base.{
  ℕ, zero, [], ◌∷◌, ◌++◌, Bool, true, false, not, ◌&&◌, some, ◌≡◌, ap, sym, ◌∙◌, arith, Bool-cases,
  inl, inr, if◌then◌else◌, ◌==◌, ==_iff,
}
use echidra_oss.Base.Text.{Text, strip}
use echidra_oss.Shell.Redirects.{Pieces, joined, Redirected, redirects_from, split_redirects}
use echidra_oss.Shell.Split.{Mode, bare, single, double, escaped_bare, escaped_double}
use mathlib.Core.List.{append_assoc, append-nil}

-- Every `>` of the text is quoted or escaped.
abbrev pub is_quiet : Mode → Text → Bool
is_quiet mode [] = true
is_quiet single (c ∷ s) = if c == 39 then is_quiet bare s else is_quiet single s
is_quiet double (c ∷ s) =
    if c == 92
    then is_quiet escaped_double s
    else if c == 34
    then is_quiet bare s
    else is_quiet double s
is_quiet escaped_bare (c ∷ s) = is_quiet bare s
is_quiet escaped_double (c ∷ s) = is_quiet double s
is_quiet bare (c ∷ s) =
    if c == 39
    then is_quiet single s
    else if c == 34
    then is_quiet double s
    else if c == 92
    then is_quiet escaped_bare s
    else (not (c == b'>') && is_quiet bare s)

-- The text read so far: a backslash that has been read is in no piece yet.
abbrev text_read : Mode → Pieces → Text
text_read escaped_bare pieces = joined pieces ++ 92 ∷ []
text_read _ pieces = joined pieces

abbrev kept_whole : Text → Redirected
kept_whole command = some (strip command, [])

not_redirect : (c : ℕ) (b : Bool) → (not (c == 62) && b) ≡ true → (c == 62) ≡ false
not_redirect c b h = ground arith

quiet_later : (c : ℕ) (b : Bool) → (not (c == 62) && b) ≡ true → b ≡ true
quiet_later c b h = ground arith

-- One more character in a piece of its own, or behind a backslash.
read_on : (p : Text) (c : ℕ) (t : Text) → kept_whole ((p ++ c ∷ []) ++ t) ≡ kept_whole (p ++ c ∷ t)
read_on p c t = ap kept_whole (append_assoc p (c ∷ []) t)

read_escaped :
    (p : Text) (c : ℕ) (t : Text)
    → kept_whole ((p ++ 92 ∷ c ∷ []) ++ t) ≡ kept_whole ((p ++ 92 ∷ []) ++ c ∷ t)
read_escaped p c t =
    ap kept_whole (append_assoc p (92 ∷ c ∷ []) t ∙ sym (append_assoc p (92 ∷ []) (c ∷ t)))

escaped_read :
    (c : ℕ) (p t : Text)
    → (c == 92) ≡ true
    → kept_whole ((p ++ 92 ∷ []) ++ t) ≡ kept_whole (p ++ c ∷ t)
escaped_read c p t e =
    ap kept_whole (append_assoc p (92 ∷ []) t ∙ ap (λ d. p ++ d ∷ t) (sym ((==_iff c 92).0 e)))

quiet_from :
    (mode : Mode) (pieces : Pieces) (t : Text)
    → is_quiet mode t ≡ true
    → redirects_from zero mode pieces t ≡ kept_whole (text_read mode pieces ++ t)
unfolding redirects_from joined
quiet_from bare pieces [] h = ap kept_whole (sym (append-nil (joined pieces)))
quiet_from single pieces [] h = ap kept_whole (sym (append-nil (joined pieces)))
quiet_from double pieces [] h = ap kept_whole (sym (append-nil (joined pieces)))
quiet_from escaped_bare pieces [] h = ap kept_whole (sym (append-nil (joined pieces ++ 92 ∷ [])))
quiet_from escaped_double pieces [] h = ap kept_whole (sym (append-nil (joined pieces)))
quiet_from escaped_bare pieces (c ∷ t) h =
    quiet_from bare ((92 ∷ c ∷ []) ∷ pieces) t h ∙ read_escaped (joined pieces) c t
quiet_from escaped_double pieces (c ∷ t) h =
    quiet_from double ((c ∷ []) ∷ pieces) t h ∙ read_on (joined pieces) c t
quiet_from single pieces (c ∷ t) h = elim (Bool-cases (c == 39)) [
  | inl e ↦ rw e (quiet_from bare ((c ∷ []) ∷ pieces) t (rw e at h) ∙ read_on (joined pieces) c t)
  | inr e ↦ rw e (quiet_from single ((c ∷ []) ∷ pieces) t (rw e at h) ∙ read_on (joined pieces) c t)
]
quiet_from double pieces (c ∷ t) h = elim (Bool-cases (c == 92)) [
  | inl e ↦
      rw e
        (quiet_from escaped_double ((c ∷ []) ∷ pieces) t (rw e at h) ∙ read_on (joined pieces) c t)
  | inr e ↦ elim (Bool-cases (c == 34)) [
    | inl f ↦
        rw (e, f)
          (quiet_from bare ((c ∷ []) ∷ pieces) t (rw (e, f) at h) ∙ read_on (joined pieces) c t)
    | inr f ↦
        rw (e, f)
          (quiet_from double ((c ∷ []) ∷ pieces) t (rw (e, f) at h) ∙ read_on (joined pieces) c t)
  ]
]
quiet_from bare pieces (c ∷ t) h = elim (Bool-cases (c == 39)) [
  | inl e ↦ rw e (quiet_from single ((c ∷ []) ∷ pieces) t (rw e at h) ∙ read_on (joined pieces) c t)
  | inr e ↦ elim (Bool-cases (c == 34)) [
    | inl f ↦
        rw (e, f)
          (quiet_from double ((c ∷ []) ∷ pieces) t (rw (e, f) at h) ∙ read_on (joined pieces) c t)
    | inr f ↦ elim (Bool-cases (c == 92)) [
      | inl g ↦
          rw (e, f, g)
            (quiet_from escaped_bare pieces t (rw (e, f, g) at h)
              ∙ escaped_read c (joined pieces) t g)
      | inr g ↦
          let plain : (not (c == 62) && is_quiet bare t) ≡ true = rw (e, f, g) at h in
          rw (e, f, g, not_redirect c _ plain)
            (quiet_from bare ((c ∷ []) ∷ pieces) t (quiet_later c _ plain)
              ∙ read_on (joined pieces) c t)
    ]
  ]
]

-- A command in which every `>` is quoted or escaped has no redirects, and is only stripped.
pub split_redirects_quiet :
    (command : Text)
    → is_quiet bare command ≡ true
    → split_redirects command ≡ some (strip command, [])
unfolding split_redirects joined
split_redirects_quiet command h = quiet_from bare [] command h
