-- ===== src/Python/Shlex/Words.antt =====
-- A line of two bare words.
use echidra_oss.Base.{ℕ, List, [], ◌∷◌, ◌++◌, Bool, false, some, ◌≡◌, refl, All, ap, sym, ◌∙◌}
use echidra_oss.Base.Text.{Text}
use echidra_oss.Base.Plain.{nonempty-reverse_aux}
use echidra_oss.Python.Shlex.{
  Reader, within_word, other, class_of, read_all, shlex_split, read_char, end_line, new_reader,
  between,
}
use mathlib.Core.List.{reverse_aux, reverse-reverse, append_assoc}

-- No white space, quotation mark or backslash.
abbrev pub IsBare : Text → Type 0
IsBare s = All (λ c. class_of c ≡ other) s

pub read_all-IsBare :
    (s : Text) (words : List Text) (word : Text) (quoted : Bool)
    → IsBare s
    → read_all s (record { mode = within_word; words = words; word = word; quoted = quoted })
      ≡ record { mode = within_word; words = words; word = reverse_aux s word; quoted = quoted }
unfolding read_all
read_all-IsBare [] words word quoted h = refl
read_all-IsBare (c ∷ s) words word quoted (p, h) =
    rw p (read_all-IsBare s words (c ∷ word) quoted h)

read_all-append : (s t : Text) (r : Reader) → read_all (s ++ t) r ≡ read_all t (read_all s r)
unfolding read_all
read_all-append [] t r = refl
read_all-append (c ∷ s) t r = read_all-append s t (read_char r.mode (class_of c) c r)

-- A word of one character, behind other words.
abbrev begun : List Text → ℕ → Reader
begun words c = record { mode = within_word; words = words; word = c ∷ []; quoted = false }

first_char :
    (c : ℕ) (s : Text) (words : List Text)
    → class_of c ≡ other
    → read_all (c ∷ s) (record { mode = between; words = words; word = []; quoted = false })
      ≡ read_all s (begun words c)
unfolding read_all
first_char c s words h =
    ap
      (λ k. read_all s (
        read_char between k c
          (record { mode = between; words = words; word = []; quoted = false })))
      h

-- A first word that is done.
abbrev one_word : Text → Reader
one_word word = record { mode = between; words = word ∷ []; word = []; quoted = false }

read_all-first :
    (d : ℕ) (first : Text)
    → IsBare (d ∷ first)
    → read_all ((d ∷ first) ++ 32 ∷ []) new_reader ≡ one_word (d ∷ first)
unfolding read_all
read_all-first d first (q, h) =
    first_char d (first ++ 32 ∷ []) [] q
    ∙ rw
        (
          read_all-append first (32 ∷ []) (begun [] d),
          read_all-IsBare first [] (d ∷ []) false h,
          nonempty-reverse_aux first (d ∷ []) refl,
          reverse-reverse (d ∷ first),
        )
        refl

end_second :
    (c : ℕ) (s : Text) (first : Text)
    → IsBare (c ∷ s)
    → end_line within_word (read_all (c ∷ s) (one_word first)) ≡ some (first ∷ (c ∷ s) ∷ [])
unfolding read_all
end_second c s first (p, i) =
    ap (end_line within_word) (first_char c s (first ∷ []) p)
    ∙ rw
        (
          read_all-IsBare s (first ∷ []) (c ∷ []) false i,
          nonempty-reverse_aux s (c ∷ []) refl,
          reverse-reverse (c ∷ s),
        )
        refl

mode_second :
    (c : ℕ) (s : Text) (first : Text)
    → IsBare (c ∷ s)
    → (read_all (c ∷ s) (one_word first)).mode ≡ within_word
unfolding read_all
mode_second c s first (p, i) =
    ap (λ (r : Reader). r.mode)
      (first_char c s (first ∷ []) p ∙ read_all-IsBare s (first ∷ []) (c ∷ []) false i)

-- A bare word, a space and another one.
pub shlex_split-two :
    (d : ℕ) (first : Text) (c : ℕ) (s : Text)
    → IsBare (d ∷ first)
    → IsBare (c ∷ s)
    → shlex_split ((d ∷ first) ++ 32 ∷ c ∷ s) ≡ some ((d ∷ first) ∷ (c ∷ s) ∷ [])
unfolding shlex_split
shlex_split-two d first c s h i =
    ap (λ (r : Reader). end_line r.mode r)
      (ap (λ (t : Text). read_all t new_reader) (sym (append_assoc (d ∷ first) (32 ∷ []) (c ∷ s)))
        ∙ read_all-append ((d ∷ first) ++ 32 ∷ []) (c ∷ s) new_reader
        ∙ ap (read_all (c ∷ s)) (read_all-first d first h))
    ∙ ap (λ mode. end_line mode (read_all (c ∷ s) (one_word (d ∷ first))))
        (mode_second c s (d ∷ first) i)
    ∙ end_second c s (d ∷ first) i
