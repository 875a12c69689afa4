-- ===== src/Python/Utf8/Visible.antt =====
-- The visible form of a text: it has no surrogates, and it is empty only for an empty text.
use mathlib.Core.Bool.{false≢true}
use echidra_oss.Base.{
  ℕ, zero, suc, ◌+◌, ◌-◌, ◌*◌, ◌/◌, ◌%◌, [], ◌∷◌, ◌++◌, Bool, true, false, ◌||◌, ◌≡◌, refl, arith,
  none, some, if◌then◌else◌, ltb, ◌==◌, nonempty, All, All-append, is_some, if_either, Bool-cases,
  Option, inl, inr,
}
use echidra_oss.Base.Text.{Text, within}
use echidra_oss.Python.Utf8.{Lead, whole, begins, wrong, lead_of, encode_char}
use echidra_oss.Python.Utf8.Escapes.{
  hex_digit, escape_byte, escape_bytes, Pending, start_with, after_broken, go_on, put, decode_from,
  decode_replaced, to_visible, encode_replaced, encode_escaped, or_replaced, is_surrogate,
  put_before, escape_surrogate,
}

-- A Unicode character.
abbrev pub is_scalar : ℕ → Bool
is_scalar c = ltb c 0xD800 || within 0xE000 0x10FFFF c

abbrev pub IsUnicode : Text → Type 0
IsUnicode t = All (λ c. is_scalar c ≡ true) t

-- A sequence that still needs some bytes ends in a Unicode character.
abbrev Leads : ℕ → ℕ → ℕ → ℕ → Type 0
Leads zero value low high = true ≡ false
Leads (suc zero) value low high =
    (b : ℕ) → within low high b ≡ true → is_scalar (value * 64 + (b - 128)) ≡ true
Leads (suc (suc n)) value low high =
    (b : ℕ) → within low high b ≡ true → Leads (suc n) (value * 64 + (b - 128)) 128 191

abbrev IsSoundLead : Lead → Type 0
IsSoundLead (whole c) = is_scalar c ≡ true
IsSoundLead (begins g) = Leads g.needed g.value g.low g.high
IsSoundLead wrong = Unit

by_test {ℓ κ} :
    {A : Type ℓ} (P : A → Type κ) (b : Bool) (x y : A)
    → (b ≡ true → P x)
    → (b ≡ false → P y)
    → P (if b then x else y)
by_test P true x y p q = p refl
by_test P false x y p q = q refl

lead_of-IsSoundLead : (b : ℕ) → IsSoundLead (lead_of b)
lead_of-IsSoundLead b =
    by_test IsSoundLead (ltb b 128) _ _ (λ h. ground arith)
      (λ _.
        by_test IsSoundLead (within 194 223 b) _ _ (λ h c k. ground arith)
          (λ _.
            by_test IsSoundLead (b == 224) _ _ (λ h c k d l. ground arith)
              (λ _.
                by_test IsSoundLead (b == 237) _ _ (λ h c k d l. ground arith)
                  (λ not_237.
                    by_test IsSoundLead (within 225 239 b) _ _ (λ h c k d l. ground arith)
                      (λ _.
                        by_test IsSoundLead (b == 240) _ _ (λ h c k d l e m. ground arith)
                          (λ _.
                            by_test IsSoundLead (within 241 243 b) _ _
                              (λ h c k d l e m. ground arith)
                              (λ _.
                                by_test IsSoundLead (b == 244) _ _ (λ h c k d l e m. ground arith)
                                  (λ _. tt))))))))

hex_digit-is_scalar : (n : ℕ) → is_scalar (hex_digit (n % 16)) ≡ true
hex_digit-is_scalar n = ground arith

escape_byte-IsUnicode : (b : ℕ) → IsUnicode (escape_byte b)
escape_byte-IsUnicode b =
    (refl, (refl, (hex_digit-is_scalar (b / 16), (hex_digit-is_scalar b, tt))))

escape_bytes-IsUnicode : (bytes : Text) → IsUnicode (escape_bytes bytes)
unfolding escape_bytes
escape_bytes-IsUnicode [] = tt
escape_bytes-IsUnicode (b ∷ bytes) =
    All-append (λ c. is_scalar c ≡ true) (escape_byte b) (escape_bytes bytes)
      (escape_byte-IsUnicode b) (escape_bytes-IsUnicode bytes)

-- A sequence begun is sound and has a first byte.
abbrev IsSoundPending : Pending → Type 0
IsSoundPending none = Unit
IsSoundPending (some (g, raw)) = Leads g.needed g.value g.low g.high × (nonempty raw ≡ true)

abbrev IsSoundStep : Text × Pending → Type 0
IsSoundStep (text, pending) = IsUnicode text × IsSoundPending pending

start_with-IsSoundStep : (b : ℕ) (lead : Lead) → IsSoundLead lead → IsSoundStep (start_with b lead)
start_with-IsSoundStep b (whole c) h = ((h, tt), tt)
start_with-IsSoundStep b (begins g) h = (tt, (h, refl))
start_with-IsSoundStep b wrong h = (escape_byte-IsUnicode b, tt)

after_broken-IsSoundStep :
    (raw : Text) (p : Text × Pending) → IsSoundStep p → IsSoundStep (after_broken raw p)
after_broken-IsSoundStep raw (text, pending) (h, k) =
    (All-append (λ c. is_scalar c ≡ true) (escape_bytes raw) text (escape_bytes-IsUnicode raw) h, k)

nonempty-end : (raw : Text) (b : ℕ) → nonempty (raw ++ b ∷ []) ≡ true
nonempty-end [] b = refl
nonempty-end (c ∷ raw) b = refl

go_on-IsSoundStep :
    (b needed value low high : ℕ) (raw : Text)
    → within low high b ≡ true
    → Leads needed value low high
    → IsSoundStep (go_on b (record { needed = needed; value = value; low = low; high = high }) raw)
go_on-IsSoundStep b zero value low high raw h k = cc
go_on-IsSoundStep b (suc zero) value low high raw h k = ((k b h, tt), tt)
go_on-IsSoundStep b (suc (suc n)) value low high raw h k =
    rw (two_more n) (tt, (rw (one_less n) (k b h), nonempty-end raw b))
  where
    two_more : (n : ℕ) → (suc (suc n) == 1) ≡ false
    two_more n = ground arith

    one_less : (n : ℕ) → suc (suc n) - 1 ≡ suc n
    one_less n = omega arith

put-IsSoundStep : (b : ℕ) (pending : Pending) → IsSoundPending pending → IsSoundStep (put b pending)
put-IsSoundStep b none h = start_with-IsSoundStep b (lead_of b) (lead_of-IsSoundLead b)
put-IsSoundStep b (some (g, raw)) (h, k) =
    by_test IsSoundStep (within g.low g.high b) _ _
      (λ e. go_on-IsSoundStep b g.needed g.value g.low g.high raw e h)
      (λ _.
        after_broken-IsSoundStep raw _
          (start_with-IsSoundStep b (lead_of b) (lead_of-IsSoundLead b)))

decode_from-IsUnicode :
    (pending : Pending) (bytes : Text)
    → IsSoundPending pending
    → IsUnicode (decode_from pending bytes)
unfolding decode_from
decode_from-IsUnicode none [] h = tt
decode_from-IsUnicode (some (g, raw)) [] h = escape_bytes-IsUnicode raw
decode_from-IsUnicode pending (b ∷ bytes) h =
    let (here, sound) = put-IsSoundStep b pending h in
    All-append (λ c. is_scalar c ≡ true) (put b pending).0 _ here
      (decode_from-IsUnicode (put b pending).1 bytes sound)

-- Whatever a text has in it, its visible form is valid Unicode.
pub to_visible-IsUnicode : (text : Text) → IsUnicode (to_visible text)
unfolding to_visible decode_replaced
to_visible-IsUnicode text = decode_from-IsUnicode none _ tt

-- A step that has put a text out or still has a sequence begun.
abbrev is_live : Text × Pending → Bool
is_live (text, pending) = nonempty text || is_some pending

start_with-is_live : (b : ℕ) (lead : Lead) → is_live (start_with b lead) ≡ true
start_with-is_live b (whole c) = refl
start_with-is_live b (begins g) = refl
start_with-is_live b wrong = refl

nonempty-escape_bytes : (raw : Text) → nonempty raw ≡ true → nonempty (escape_bytes raw) ≡ true
unfolding escape_bytes
nonempty-escape_bytes [] h = cc
nonempty-escape_bytes (b ∷ raw) h = refl

nonempty-append : (s t : Text) → nonempty s ≡ true → nonempty (s ++ t) ≡ true
nonempty-append [] t h = cc
nonempty-append (c ∷ s) t h = refl

nonempty-append_right : (s t : Text) → nonempty t ≡ true → nonempty (s ++ t) ≡ true
nonempty-append_right [] t h = h
nonempty-append_right (c ∷ s) t h = refl

after_broken-is_live :
    (raw : Text) (p : Text × Pending) → nonempty raw ≡ true → is_live (after_broken raw p) ≡ true
after_broken-is_live raw (text, pending) h =
    rw (nonempty-append (escape_bytes raw) text (nonempty-escape_bytes raw h)) refl

put-is_live : (b : ℕ) (pending : Pending) → IsSoundPending pending → is_live (put b pending) ≡ true
put-is_live b none h = start_with-is_live b (lead_of b)
put-is_live b (some (g, raw)) (h, k) =
    if_either (λ p. is_live p ≡ true) (within g.low g.high b) _ _
      (if_either {A = Text × Pending} (λ p. is_live p ≡ true) (g.needed == 1) _ _ refl refl)
      (after_broken-is_live raw (start_with b (lead_of b)) k)

decode_from-nonempty :
    (pending : Pending) (bytes : Text)
    → IsSoundPending pending
    → (is_some pending || nonempty bytes) ≡ true
    → nonempty (decode_from pending bytes) ≡ true
unfolding decode_from
decode_from-nonempty none [] h k = absurd (false≢true k)
decode_from-nonempty (some (g, raw)) [] h k = nonempty-escape_bytes raw h.1
decode_from-nonempty pending (b ∷ bytes) h k =
    let p = put b pending in
    let live = put-is_live b pending h in
    elim (Bool-cases (nonempty p.0)) [
      | inl e ↦ nonempty-append p.0 _ e
      | inr e ↦
          nonempty-append_right p.0 _
            (decode_from-nonempty p.1 bytes (put-IsSoundStep b pending h).1 (still _ _ _ e live))
    ]
  where
    still : (a c d : Bool) → a ≡ false → (a || c) ≡ true → (c || d) ≡ true
    still a c d e l = ground arith

nonempty-encode_char : (c : ℕ) → nonempty (encode_char c) ≡ true
nonempty-encode_char c = ground arith

nonempty-put_before :
    (bytes text : Text) (rest : Option Text)
    → nonempty bytes ≡ true
    → nonempty (encode_replaced text) ≡ true
    → nonempty (or_replaced text (put_before bytes rest)) ≡ true
nonempty-put_before bytes text none h k = k
nonempty-put_before bytes text (some rest) h k = nonempty-append bytes rest h

nonempty-encode_replaced : (c : ℕ) (s : Text) → nonempty (encode_replaced (c ∷ s)) ≡ true
unfolding encode_replaced
nonempty-encode_replaced c s = nonempty-append _ _ (
    if_either (λ (t : Text). nonempty t ≡ true) (is_surrogate c) (escape_surrogate c)
      (encode_char c) refl (nonempty-encode_char c))

nonempty-encoded :
    (c : ℕ) (s : Text) → nonempty (or_replaced (c ∷ s) (encode_escaped (c ∷ s))) ≡ true
unfolding encode_escaped
nonempty-encoded c s =
    let replaced = nonempty-encode_replaced c s in
    if_either (λ r. nonempty (or_replaced (c ∷ s) r) ≡ true) (within 0xDC80 0xDCFF c) _ _
      (nonempty-put_before ((c - 0xDC00) ∷ []) (c ∷ s) (encode_escaped s) refl replaced)
      (if_either (λ r. nonempty (or_replaced (c ∷ s) r) ≡ true) (is_surrogate c) _ _ replaced
        (nonempty-put_before (encode_char c) (c ∷ s) (encode_escaped s) (nonempty-encode_char c)
          replaced))

-- A text that is not empty has a visible form that is not empty.
pub nonempty-to_visible : (text : Text) → nonempty text ≡ true → nonempty (to_visible text) ≡ true
unfolding to_visible decode_replaced
nonempty-to_visible [] h = absurd (false≢true h)
nonempty-to_visible (c ∷ s) h = decode_from-nonempty none _ tt (rw (nonempty-encoded c s) refl)
