-- ===== src/Telnet/Burst.antt =====
-- A client that sends its credentials in one packet, as most bots do, loses none of them.
use echidra_oss.Base.Plain.{IsPlain, strip-plain}
use mathlib.Core.List.{reverse, reverse_aux, append_assoc, append-nil, reverse-reverse}
use echidra_oss.Base.{
  String, ℕ, zero, suc, ◌≤◌, List, [], ◌∷◌, ◌++◌, map, Bool, true, false, ◌||◌, Option, some, ◌≡◌,
  refl, ap, arith, length, All, nonempty, ◌==◌,
}
use echidra_oss.Base.Text.{Text, codes, within}
use echidra_oss.Telnet.Login.{
  handle, dialogue, drain_iac, reply_to, attempts, attempt, echo_line, read_line, log_stripped,
  reject,
}
use echidra_oss.Telnet.{latin_1, send}
use echidra_oss.Network.{
  await_one, log_line, arrived, Connection, Answer, returns, take_text, await_at_most,
}
use echidra_oss.Telnet.Line.{Drained, parse_from, parse_line, has_line_end, drain_from}

-- A line and its end, and other bytes behind it.
abbrev pub line_then : Text → Text → Text
line_then t rest = t ++ 13 ∷ 10 ∷ rest

not_iac : (c : ℕ) → within 33 126 c ≡ true → (c == 255) ≡ false
not_iac c h = ground arith

not_erasing : (c : ℕ) → within 33 126 c ≡ true → (c == 8 || c == 127) ≡ false
not_erasing c h = ground arith

not_ending : (c : ℕ) → within 33 126 c ≡ true → (c == 13 || c == 10) ≡ false
not_ending c h = ground arith

parse_from-plain :
    (line t rest : Text)
    → IsPlain t
    → parse_from 0 line (line_then t rest)
      ≡ record { text = reverse (reverse_aux t line); rest = rest; ended = true }
unfolding parse_from
parse_from-plain line [] rest h = refl
parse_from-plain line (c ∷ t) rest (p, h) =
    rw (not_iac c p, not_erasing c p, not_ending c p) (parse_from-plain (c ∷ line) t rest h)

has_line_end-then : (t rest : Text) → has_line_end (line_then t rest) ≡ true
unfolding has_line_end
has_line_end-then [] rest = refl
has_line_end-then (c ∷ t) rest = ground (arith, has_line_end-then t rest)

drain_from-plain :
    (d : Drained) (t : Text)
    → All (λ c. (c == 255) ≡ false) t
    → drain_from 0 d t ≡ record d { leftover = d.leftover ++ t }
unfolding drain_from
drain_from-plain d [] h = rw (append-nil d.leftover) refl
drain_from-plain d (c ∷ t) (p, h) =
    rw
      (
        p,
        drain_from-plain (record d { leftover = d.leftover ++ c ∷ [] }) t h,
        append_assoc d.leftover (c ∷ []) t,
      )
      refl

parse_line-then :
    (t rest : Text)
    → IsPlain t
    → parse_line (line_then t rest) ≡ record { text = t; rest = rest; ended = true }
unfolding parse_line
parse_line-then t rest h = rw (parse_from-plain [] t rest h, reverse-reverse t) refl

-- A read of a line that is already there.
read_line-then :
    (echo : Bool) (t rest : Text)
    → IsPlain t
    → read_line echo (line_then t rest)
      ≡ echo_line echo (record { text = t; rest = rest; ended = true })
unfolding read_line
read_line-then echo t rest h = rw (has_line_end-then t rest, parse_line-then t rest h) refl

log_stripped-plain :
    (prefix : String) (t : Text)
    → IsPlain t
    → nonempty t ≡ true
    → log_stripped prefix t ≡ log_line (codes prefix ++ t)
unfolding log_stripped
log_stripped-plain prefix t h k = rw (strip-plain t h, k) refl

-- What one attempt does with a user name and a password that are already there.
abbrev pub pair_then : Text × Text → Text → Text
pair_then (username, password) rest = line_then username (line_then password rest)

abbrev pub lines_of : Text × Text → List Text
lines_of (username, password) =
    (codes "login: " ++ username) ∷ (codes "password: " ++ password) ∷ []

abbrev pub IsCredentialPair : Text × Text → Type 0
IsCredentialPair (username, password) =
    IsPlain username × (nonempty username ≡ true) × IsPlain password × (nonempty password ≡ true)

-- What is sent in such an attempt.
abbrev transcript : Text → List Text → List Text
transcript prompt sent =
    sent
    ++ map latin_1 prompt ∷ []
    ++ codes "\r\n" ∷ []
    ++ codes "Password: " ∷ []
    ++ codes "\r\nLogin incorrect\r\n" ∷ []

abbrev reached : Text → Text → List Text → List Text → Answer (Option Text) × Connection
reached prompt rest sent logged =
    (returns (some rest), record { script = []; sent = transcript prompt sent; logged = logged })

attempt_pair :
    (prompt rest : Text) (p : Text × Text) (sent logged : List Text)
    → IsCredentialPair p
    → (later : List Text) × (attempt prompt
          (pair_then p rest)
          (record { script = []; sent = sent; logged = logged })
        ≡ (
          returns (some rest),
          record { script = []; sent = later; logged = logged ++ lines_of p },
        ))
unfolding attempt echo_line send await_one log_line reject
attempt_pair prompt rest (u, p) sent logged (hu, ku, hp, kp) =
    rw
      (
        read_line-then true u (line_then p rest) hu,
        log_stripped-plain "login: " u hu ku,
        read_line-then false p rest hp,
        log_stripped-plain "password: " p hp kp,
      )
      (
        transcript prompt sent,
        ap (reached prompt rest sent)
            (append_assoc logged ((codes "login: " ++ u) ∷ []) ((codes "password: " ++ p) ∷ [])),
      )

-- The packet of a list of pairs, and what is to be logged of it.
abbrev pub burst_of : List (Text × Text) → Text
burst_of [] = []
burst_of (p ∷ pairs) = pair_then p (burst_of pairs)

abbrev pub logged_of : List (Text × Text) → List Text
logged_of [] = []
logged_of (p ∷ pairs) = lines_of p ++ logged_of pairs

-- The connection after a run from the end of its script.
abbrev Reaches : Answer Text × Connection → List Text → Type 0
Reaches ran logged =
    (later : List Text) × (ran
      ≡ (returns [], record { script = []; sent = later; logged = logged }))

attempts_pairs :
    (n : ℕ) (prompt : Text) (pairs : List (Text × Text)) (sent logged : List Text)
    → length pairs ≤ n
    → All IsCredentialPair pairs
    → Reaches
        (attempts n prompt (burst_of pairs) (record { script = []; sent = sent; logged = logged }))
        (logged ++ logged_of pairs)
unfolding attempts attempt read_line echo_line send await_one has_line_end
attempts_pairs zero prompt [] sent logged h k = (sent, rw (append-nil logged) refl)
attempts_pairs zero prompt (p ∷ pairs) sent logged h k = absurd (omega (arith, h))
attempts_pairs (suc n) prompt [] sent logged h k =
    (sent ++ map latin_1 prompt ∷ [], rw (append-nil logged) refl)
attempts_pairs (suc n) prompt (p ∷ pairs) sent logged h (k, l) =
    let tried = attempt_pair prompt (burst_of pairs) p sent logged k in
    let rest = attempts_pairs n prompt pairs tried.0 (logged ++ lines_of p) (omega (arith, h)) l in
    rw (tried.1, ← append_assoc logged (lines_of p) (logged_of pairs)) rest

Plain-no_iac :
    (t rest : Text)
    → IsPlain t
    → All (λ c. (c == 255) ≡ false) rest
    → All (λ c. (c == 255) ≡ false) (line_then t rest)
Plain-no_iac [] rest h k = (refl, (refl, k))
Plain-no_iac (c ∷ t) rest (p, h) k = (not_iac c p, Plain-no_iac t rest h k)

burst_no_iac :
    (pairs : List (Text × Text))
    → All IsCredentialPair pairs
    → All (λ c. (c == 255) ≡ false) (burst_of pairs)
burst_no_iac [] h = tt
burst_no_iac ((u, p) ∷ pairs) ((hu, ku, hp, kp), h) =
    Plain-no_iac u _ hu (Plain-no_iac p _ hp (burst_no_iac pairs h))

-- A read that has room for all that arrived brings all of it.
take_text-all : (limit : ℕ) (t : Text) → length t ≤ limit → take_text limit t ≡ t
unfolding take_text
take_text-all zero [] h = refl
take_text-all zero (c ∷ t) h = absurd (omega (arith, h))
take_text-all (suc n) [] h = refl
take_text-all (suc n) (c ∷ t) h = rw (take_text-all n t (omega (arith, h))) refl

-- If the first packet of a client has at most 64 bytes and holds up to five pairs of a user name
-- and a password, each on a line of its own and of printable characters without spaces, and then
-- the client closes its side, all of them are logged, in order, and nothing else; and the session
-- ends as a disconnect.
pub handle_burst :
    (banner prompt : Text) (pairs : List (Text × Text))
    → length pairs ≤ 5
    → length (burst_of pairs) ≤ 64
    → All IsCredentialPair pairs
    → ((handle banner prompt (arrived (burst_of pairs) ∷ [])).0 ≡ "disconnect")
      × ((handle banner prompt (arrived (burst_of pairs) ∷ [])).1.logged ≡ logged_of pairs)
unfolding handle dialogue drain_iac reply_to await_one await_at_most send
handle_burst banner prompt pairs h short k =
    rw
      (
        take_text-all 64 (burst_of pairs) short,
        drain_from-plain (record { reply = []; leftover = [] }) (burst_of pairs)
            (burst_no_iac pairs k),
      )
      (let ran = attempts_pairs 5 prompt pairs (map latin_1 banner ∷ []) [] h k in
        rw ran.1 (refl, refl))
