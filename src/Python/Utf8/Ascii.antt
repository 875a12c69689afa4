-- ===== src/Python/Utf8/Ascii.antt =====
-- ASCII texts are their own encodings.
use echidra_oss.Base.{[], ◌∷◌, ◌++◌, none, some, ◌≡◌, refl, All, ltb, true, false, ap}
use echidra_oss.Base.Text.{Text}
use echidra_oss.Python.Utf8.{put_bytes, decode, decode_ignore, end_bytes, Decoder}
use mathlib.Core.List.{append_assoc, append-nil}

abbrev pub IsAscii : Text → Type 0
IsAscii s = All (λ c. ltb c 128 ≡ true) s

put_bytes_ascii :
    (mark s t : Text)
    → IsAscii s
    → put_bytes mark s (record { text = t; begun = none; bad = false })
      ≡ record { text = t ++ s; begun = none; bad = false }
unfolding put_bytes
put_bytes_ascii mark [] t h = rw (append-nil t) refl
put_bytes_ascii mark (c ∷ s) t (p, h) =
    rw (p, put_bytes_ascii mark s (t ++ c ∷ []) h, append_assoc t (c ∷ []) s) refl

pub decode_ascii : (s : Text) → IsAscii s → decode s ≡ some s
unfolding decode
decode_ascii s h = rw (put_bytes_ascii [] s [] h) refl

pub decode_ignore_ascii : (s : Text) → IsAscii s → decode_ignore s ≡ s
unfolding decode_ignore
decode_ignore_ascii s h =
    ap (λ (d : Decoder). (end_bytes [] d.begun d).text) (put_bytes_ascii [] s [] h)
