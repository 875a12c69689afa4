-- ===== src/Passwords/Checks.antt =====
-- What a check against a stored hash says.
use mathlib.Core.Path.{◌≡◌}
use echidra_oss.Base.{
  ℕ, [], ◌∷◌, ◌++◌, true, false, some, ◌≡◌, refl, ap, arith, any, ◌==◌, ==_iff, Bool-cases, inl,
  inr, Option-cases, ◌∙◌, Option, ◌&&◌, none,
}
use echidra_oss.Base.Text.{Text, codes, text_eq, is_space}
use echidra_oss.Passwords.{
  Derive, right, hash_password, stored_of, int_of, digits_from, verify_password, compare_digest,
  is_ascii, password_hash_iterations, compare_candidate, Stored, verify_iterations, verify_stored,
}
use echidra_oss.Python.Split.{split_once}
use echidra_oss.Python.Utf8.{encode}
use mathlib.Core.Option.{some-injective}

split_once-before :
    (sep : ℕ) (s t : Text)
    → any (λ c. c == sep) s ≡ false
    → split_once sep (s ++ sep ∷ t) ≡ some (s, t)
unfolding split_once
split_once-before sep [] t h = ground (arith, ==_iff sep sep)
split_once-before sep (c ∷ s) t h = elim (Bool-cases (c == sep)) [
  | inl e ↦ cc (rw e at h)
  | inr e ↦ rw (e, split_once-before sep s t (rw e at h)) refl
]

found_first :
    (sep c : ℕ) (s a b : Text)
    → c ≡ sep
    → ◌≡◌ {A = Option (Text × Text)} (some ([], s)) (some (a, b))
    → c ∷ s ≡ a ++ sep ∷ b
found_first sep c s a b e h =
    let pair : Path (Text × Text) ([], s) (a, b) = some-injective _ _ h in
    let first : [] ≡ a = ap (λ (p : Text × Text). p.0) pair in
    let rest : s ≡ b = ap (λ (p : Text × Text). p.1) pair in rw (← first, ← rest, e) refl

found_later :
    (sep c : ℕ) (s a b v w : Text)
    → s ≡ v ++ sep ∷ w
    → ◌≡◌ {A = Option (Text × Text)} (some (c ∷ v, w)) (some (a, b))
    → c ∷ s ≡ a ++ sep ∷ b
found_later sep c s a b v w e h =
    let pair : Path (Text × Text) (c ∷ v, w) (a, b) = some-injective _ _ h in
    let first : c ∷ v ≡ a = ap (λ (p : Text × Text). p.0) pair in
    let rest : w ≡ b = ap (λ (p : Text × Text). p.1) pair in
    rw (← first, ← rest) (ap (λ (x : Text). c ∷ x) e)

-- The parts that a split gives, with the separator between them, are the text.
split_once-parts : (sep : ℕ) (s a b : Text) → split_once sep s ≡ some (a, b) → s ≡ a ++ sep ∷ b
unfolding split_once
split_once-parts sep [] a b h = cc
split_once-parts sep (c ∷ s) a b h = elim (Bool-cases (c == sep)) [
  | inl e ↦ found_first sep c s a b ((==_iff c sep).0 e) (rw e at h)
  | inr e ↦ elim (Option-cases (split_once sep s)) [
    | inl f ↦ cc (rw (e, f) at h)
    | inr ((v, w), f) ↦ found_later sep c s a b v w (split_once-parts sep s v w f) (rw (e, f) at h)
  ]
]

text_eq_refl : (s : Text) → text_eq s s ≡ true
text_eq_refl [] = refl
text_eq_refl (c ∷ s) = ground (arith, text_eq_refl s)

text_eq-eq : (s t : Text) → text_eq s t ≡ true → s ≡ t
text_eq-eq [] [] h = refl
text_eq-eq [] (d ∷ t) h = cc
text_eq-eq (c ∷ s) [] h = cc
text_eq-eq (c ∷ s) (d ∷ t) h =
    let first : c ≡ d = ground arith in
    let rest : s ≡ t = text_eq-eq s t (ground arith) in rw (first, rest) refl

-- A text without the separator.
abbrev pub IsPart : Text → Type 0
IsPart s = any (λ c. c == b'$') s ≡ false

stored_of-parts :
    (salt digest : Text)
    → IsPart salt
    → stored_of (codes "pbkdf2_sha256$390000$" ++ salt ++ b'$' ∷ digest)
      ≡ some (record {
        algorithm = codes "pbkdf2_sha256";
        iterations = codes "390000";
        salt = salt;
        digest = digest;
      })
unfolding stored_of split_once
stored_of-parts salt digest h = rw (split_once-before b'$' salt digest h) refl

int_of-iterations : int_of (codes "390000") ≡ some password_hash_iterations
unfolding int_of digits_from is_space
int_of-iterations = refl

compare_digest_refl : (s : Text) → is_ascii s ≡ true → compare_digest s s ≡ right
compare_digest_refl s h = rw (h, text_eq_refl s) refl

-- A password is right against its own hash, if the salt has no dollar sign and the derivation gives
-- ASCII texts.
pub verify_password-hash :
    (derive : Derive) (salt password digest password_hash : Text)
    → IsPart salt
    → is_ascii digest ≡ true
    → derive (encode password) (encode salt) password_hash_iterations ≡ some digest
    → hash_password derive salt password ≡ some password_hash
    → verify_password derive password password_hash ≡ right
unfolding verify_password hash_password
verify_password-hash derive salt password digest password_hash part ascii derived hashed =
    let same : codes "pbkdf2_sha256$390000$" ++ salt ++ b'$' ∷ digest ≡ password_hash =
      some-injective _ _ (rw derived at hashed) in
    rw (← same, stored_of-parts salt digest part, int_of-iterations, derived)
      (compare_digest_refl digest ascii)

-- A stored hash with its four parts joined.
abbrev pub joined : Text → Text → Text → Text
joined iterations salt digest =
    codes "pbkdf2_sha256" ++ b'$' ∷ (iterations ++ b'$' ∷ (salt ++ b'$' ∷ digest))

-- A stored hash that the password fits: its digest is what the derivation gives.
abbrev pub Fits : Derive → Text → Text → Type 0
Fits derive password password_hash =
    (iterations : Text) × (salt : Text) × (digest : Text) × (n : ℕ) × (password_hash
      ≡ joined iterations salt digest)
    × (int_of iterations ≡ some n)
    × (derive (encode password) (encode salt) n ≡ some digest)

compare_digest-right : (a b : Text) → compare_digest a b ≡ right → a ≡ b
compare_digest-right a b h = elim (Bool-cases (is_ascii a && is_ascii b)) [
  | inl e ↦ elim (Bool-cases (text_eq a b)) [
    | inl f ↦ text_eq-eq a b f
    | inr f ↦ cc (rw (e, f) at h)
  ]
  | inr e ↦ cc (rw e at h)
]

candidate-right :
    (candidate : Option Text) (digest : Text)
    → compare_candidate candidate digest ≡ right
    → candidate ≡ some digest
candidate-right none digest h = cc
candidate-right (some c) digest h = ap some (compare_digest-right c digest h)

iterations-right :
    (derive : Derive) (password : Text) (s : Stored) (parsed : Option ℕ)
    → verify_iterations derive password s parsed ≡ right
    → (n : ℕ) × (parsed ≡ some n) × (derive (encode password) (encode s.salt) n ≡ some s.digest)
iterations-right derive password s none h = cc
iterations-right derive password s (some n) h = (n, refl, candidate-right _ s.digest h)

-- Every stored hash is its parts joined.
abbrev join : Stored → Text
join s = s.algorithm ++ b'$' ∷ (s.iterations ++ b'$' ∷ (s.salt ++ b'$' ∷ s.digest))

stored_of-join : (t : Text) (s : Stored) → stored_of t ≡ some s → t ≡ join s
unfolding stored_of
stored_of-join t s h = elim (Option-cases (split_once b'$' t)) [
  | inl e ↦ cc (rw e at h)
  | inr ((a, r), e) ↦ elim (Option-cases (split_once b'$' r)) [
    | inl f ↦ cc (rw (e, f) at h)
    | inr ((i, q), f) ↦ elim (Option-cases (split_once b'$' q)) [
      | inl g ↦ cc (rw (e, f, g) at h)
      | inr ((salt, digest), g) ↦
          let same : Path Stored
              (record { algorithm = a; iterations = i; salt = salt; digest = digest }) s =
            some-injective _ _ (rw (e, f, g) at h) in
          let whole : t
              ≡ join (record { algorithm = a; iterations = i; salt = salt; digest = digest }) =
            split_once-parts b'$' t a r e
            ∙ ap (λ (x : Text). a ++ b'$' ∷ x)
                (split_once-parts b'$' r i q f
                  ∙ ap (λ (x : Text). i ++ b'$' ∷ x) (split_once-parts b'$' q salt digest g)) in
          whole ∙ ap join same
    ]
  ]
]

stored-right :
    (derive : Derive) (password t : Text) (s : Stored)
    → t ≡ join s
    → verify_stored derive password (some s) ≡ right
    → Fits derive password t
stored-right derive password t s e h =
    elim (Bool-cases (text_eq s.algorithm (codes "pbkdf2_sha256"))) [
      | inl f ↦
          let parsed = iterations-right derive password s (int_of s.iterations) (rw f at h) in
          (
            s.iterations,
            s.salt,
            s.digest,
            parsed.0,
            e
                ∙ ap
                    (λ (x : Text). x ++ b'$' ∷ (s.iterations ++ b'$' ∷ (s.salt ++ b'$' ∷ s.digest)))
                    (text_eq-eq _ _ f),
            parsed.1,
            parsed.2,
          )
      | inr f ↦ cc (rw f at h)
    ]

-- Whatever text is stored: if a password is right against it, the text is the algorithm's name, a
-- number of iterations, a salt and a digest with dollar signs between them, and the digest is what
-- the derivation gives for the password.
pub verify_password-Fits :
    (derive : Derive) (password password_hash : Text)
    → verify_password derive password password_hash ≡ right
    → Fits derive password password_hash
unfolding verify_password
verify_password-Fits derive password password_hash h =
    elim (Option-cases (stored_of password_hash)) [
      | inl e ↦ cc (rw e at h)
      | inr (s, e) ↦
          stored-right derive password password_hash s (stored_of-join password_hash s e)
            (rw e at h)
    ]
