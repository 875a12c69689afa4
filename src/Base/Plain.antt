-- ===== src/Base/Plain.antt =====
-- Texts of printable ASCII characters without spaces, and stripping.
use mathlib.Core.List.{reverse, reverse_aux, reverse-append, reverse-reverse}
use Prim.Native.Nat.{ℕ}
use mathlib.Core.Path.{◌≡◌, refl}
use mathlib.Core.Bool.{true, false, Bool}
use mathlib.Core.List.{[], ◌∷◌, ◌++◌}
use native.Mathlib.Omega.{arith}
use echidra_oss.Base.Lists.{All, nonempty}
use echidra_oss.Base.Text.{Text, within, is_space, drop_while, rstrip_by, strip}

-- Printable ASCII bytes other than the space.
abbrev pub IsPlain : Text → Type 0
IsPlain t = All (λ c. within 33 126 c ≡ true) t

pub not_space : (c : ℕ) → within 33 126 c ≡ true → is_space c ≡ false
unfolding is_space
not_space c h = ground arith

drop_while-plain : (t : Text) → IsPlain t → drop_while is_space t ≡ t
drop_while-plain [] h = refl
drop_while-plain (c ∷ t) (p, h) = rw (not_space c p) refl

pub All-reverse_aux : (t r : Text) → IsPlain t → IsPlain r → IsPlain (reverse_aux t r)
All-reverse_aux [] r h k = k
All-reverse_aux (c ∷ t) r (p, h) k = All-reverse_aux t (c ∷ r) h (p, k)

pub strip-plain : (t : Text) → IsPlain t → strip t ≡ t
strip-plain t h =
    rw (drop_while-plain t h, drop_while-plain (reverse t) (All-reverse_aux t [] h tt))
      (reverse-reverse t)

pub strip-behind : (t : Text) → IsPlain t → strip (32 ∷ t) ≡ t
unfolding is_space
strip-behind t h = strip-plain t h

pub nonempty-reverse_aux : (t r : Text) → nonempty r ≡ true → nonempty (reverse_aux t r) ≡ true
nonempty-reverse_aux [] r h = h
nonempty-reverse_aux (c ∷ t) r h = nonempty-reverse_aux t (c ∷ r) refl

nonempty-reverse : (t : Text) → nonempty t ≡ true → nonempty (reverse t) ≡ true
nonempty-reverse [] h = h
nonempty-reverse (c ∷ t) h = nonempty-reverse_aux t (c ∷ []) refl

module _ (p : ℕ → Bool) (keeps : (c : ℕ) → within 33 126 c ≡ true → p c ≡ false) where
  drop_while-start : (t s : Text) → IsPlain t → nonempty t ≡ true → drop_while p (t ++ s) ≡ t ++ s
  drop_while-start [] s h k = cc
  drop_while-start (c ∷ t) s (q, h) k = rw (keeps c q) refl

  -- A plain end of a text is not stripped by a test that holds of no plain character.
  pub rstrip_by-end : (s t : Text) → IsPlain t → nonempty t ≡ true → rstrip_by p (s ++ t) ≡ s ++ t
  rstrip_by-end s t h k =
      rw
        (
          reverse-append s t,
          drop_while-start (reverse t) (reverse s) (All-reverse_aux t [] h tt)
              (nonempty-reverse t k),
          ← reverse-append s t,
        )
        (reverse-reverse (s ++ t))

pub rstrip_by-plain_end :
    (s t : Text) → IsPlain t → nonempty t ≡ true → rstrip_by is_space (s ++ t) ≡ s ++ t
rstrip_by-plain_end = rstrip_by-end is_space not_space
