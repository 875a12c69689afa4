-- ===== src/Ftp/Login.antt =====
-- A client that tries one user name and password over FTP, from its lines to the features.
use echidra_oss.Session.{CommandEvent, SessionRecord}
use echidra_oss.Python.Split.{lower}
use echidra_oss.Python.Shlex.Words.{IsBare, shlex_split-two}
use echidra_oss.Features.Requests.{parse_command, pair_text}
use echidra_oss.Features.Extract.{extract_session_features}
use echidra_oss.Features.State.{no_pairing, nothing_seen, Extraction, Pairing}
use echidra_oss.Features.Events.{
  note_line, note_counts, note_command, note_http, note_credentials, note_event, note_all,
  note_ftp_login,
}
use echidra_oss.Base.{
  ℕ, List, [], ◌∷◌, ◌++◌, true, false, ◌≡◌, refl, arith, All-append, All-map, nonempty, ltb, ap,
  ◌∙◌, map, Option, if_either,
}
use echidra_oss.Base.Text.{Text, codes, rstrip_by, within}
use echidra_oss.Base.Plain.{IsPlain, strip-behind, rstrip_by-end, strip-plain}
use echidra_oss.Ftp.{
  send, dialogue, handle, read_first_message, read_command, describe_first_message, decode_line,
  answer_password, answer_user, answer_username, is_line_end,
}
use echidra_oss.Network.{Outcome, arrived, await_one, log_line}
use echidra_oss.Python.Utf8.Ascii.{IsAscii, decode_ignore_ascii}
use mathlib.Core.List.{reverse-append}

plain_not_end : (c : ℕ) → within 33 126 c ≡ true → is_line_end c ≡ false
plain_not_end c h = ground arith

plain_ascii : (c : ℕ) → within 33 126 c ≡ true → ltb c 128 ≡ true
plain_ascii c h = ground arith

-- The line end is stripped, and nothing before it.
rstrip_by-line_end :
    (s : Text) → rstrip_by is_line_end (s ++ 13 ∷ 10 ∷ []) ≡ rstrip_by is_line_end s
rstrip_by-line_end s = rw (reverse-append s (13 ∷ 10 ∷ [])) refl

-- A command of ASCII characters with a plain argument.
decode_line-plain :
    (command t : Text)
    → IsAscii command
    → IsPlain t
    → nonempty t ≡ true
    → decode_line ((command ++ t) ++ 13 ∷ 10 ∷ []) ≡ command ++ t
unfolding decode_line
decode_line-plain command t a h k =
    let ascii = All-append (λ c. ltb c 128 ≡ true) command t a (All-map t plain_ascii h) in
    rw
      (
        decode_ignore_ascii ((command ++ t) ++ 13 ∷ 10 ∷ []) (
            All-append (λ c. ltb c 128 ≡ true) (command ++ t) (13 ∷ 10 ∷ []) ascii
              (refl, (refl, tt))),
        rstrip_by-line_end (command ++ t),
      )
      (rstrip_by-end is_line_end plain_not_end command t h k)

-- The outcomes of the awaits: what is sent is taken, and the client sends its first character,
-- the rest of its first line and its second line.
abbrev pub tries : Text → Text → List Outcome
tries user password =
    arrived []
    ∷ arrived (codes "U")
    ∷ arrived ((codes "SER " ++ user) ++ 13 ∷ 10 ∷ [])
    ∷ arrived []
    ∷ arrived ((codes "PASS " ++ password) ++ 13 ∷ 10 ∷ [])
    ∷ []

abbrev pub lines_of_try : Text → Text → List Text
lines_of_try user password = (codes "USER " ++ user) ∷ (codes "PASS " ++ password) ∷ []

describe_user :
    (t : Text)
    → IsPlain t
    → nonempty t ≡ true
    → describe_first_message ((codes "USER " ++ t) ++ 13 ∷ 10 ∷ []) ≡ codes "USER " ++ t
unfolding describe_first_message
describe_user t h k =
    decode_line-plain (codes "USER ") t (refl, (refl, (refl, (refl, (refl, tt))))) h k

handle_try :
    (user password : Text)
    → IsPlain user
    → nonempty user ≡ true
    → IsPlain password
    → nonempty password ≡ true
    → ((handle (tries user password)).0 ≡ "disconnect")
      × ((handle (tries user password)).1.logged ≡ lines_of_try user password)
unfolding handle dialogue read_first_message read_command answer_username answer_user
    answer_password send await_one log_line
handle_try user password hu ku hp kp =
    rw
      (
        describe_user user hu ku,
        strip-behind user hu,
        decode_line-plain (codes "PASS ") password (refl, (refl, (refl, (refl, (refl, tt))))) hp kp,
        strip-behind password hp,
      )
      (refl, refl)

-- The loop of the extraction as far as it is about FTP logins.
abbrev note_ftp_line : Text → Pairing → Pairing
note_ftp_line cmd p = let parsed = parse_command cmd in note_ftp_login parsed.0 parsed.1 p

note_ftp_lines : List Text → Pairing → Pairing
note_ftp_lines [] p = p
note_ftp_lines (cmd ∷ cmds) p = note_ftp_lines cmds (note_ftp_line cmd p)

note_event-ftp :
    (event : CommandEvent) (e : Extraction)
    → (note_event "ftp" event e).ftp ≡ note_ftp_line event.cmd e.ftp
unfolding note_event note_line note_counts note_command note_http note_credentials
note_event-ftp event e =
    if_either (λ (z : Extraction). z.ftp ≡ note_ftp_line event.cmd e.ftp) _ _ _ refl refl

note_all-ftp :
    (events : List CommandEvent) (e : Extraction)
    → (note_all "ftp" events e).ftp
      ≡ note_ftp_lines (map (λ (c : CommandEvent). c.cmd) events) e.ftp
unfolding note_all note_ftp_lines
note_all-ftp [] e = refl
note_all-ftp (event ∷ events) e =
    note_all-ftp events (note_event "ftp" event e)
    ∙ ap (note_ftp_lines (map (λ (c : CommandEvent). c.cmd) events)) (note_event-ftp event e)

-- A user name or a password that is sent: plain, and not special to `shlex`.
abbrev pub IsTried : Text → Type 0
IsTried t = IsPlain t × IsBare t × (nonempty t ≡ true)

parse_command-two :
    (d : ℕ) (name t : Text)
    → IsBare (d ∷ name)
    → IsTried t
    → parse_command ((d ∷ name) ++ 32 ∷ t) ≡ (lower (d ∷ name), t ∷ [])
unfolding parse_command
parse_command-two d name [] h (_, _, k) = cc
parse_command-two d name (c ∷ t) h (_, i, _) = rw (shlex_split-two d name c t h i) refl

note_ftp_lines-try :
    (user password : Text)
    → IsTried user
    → IsTried password
    → (note_ftp_lines (lines_of_try user password) no_pairing).tried
      ≡ pair_text (lower user) (lower password) ∷ []
unfolding note_ftp_lines
note_ftp_lines-try user password h k =
    rw
      (
        parse_command-two 85 (codes "SER") user (refl, (refl, (refl, (refl, tt)))) h,
        parse_command-two 80 (codes "ASS") password (refl, (refl, (refl, (refl, tt)))) k,
        strip-plain user h.0,
        strip-plain password k.0,
      )
      refl

-- If an FTP client sends a user name and a password, each in its command and of printable
-- characters other than spaces, quotation marks and backslashes, the session ends as a disconnect,
-- and the features of a record with the commands that were logged have exactly this pair, in small
-- letters.
pub handle_features :
    (user password : Text) (r : SessionRecord) (count : Option ℕ)
    → IsTried user
    → IsTried password
    → r.protocol ≡ "ftp"
    → map (λ (c : CommandEvent). c.cmd) r.commands ≡ (handle (tries user password)).1.logged
    → ((handle (tries user password)).0 ≡ "disconnect")
      × ((extract_session_features r count).ftp_credentials_tried
          ≡ pair_text (lower user) (lower password) ∷ [])
unfolding extract_session_features
handle_features user password r count h k ftp logged =
    let ran = handle_try user password h.0 h.2 k.0 k.2 in
    (
      ran.0,
      rw ftp (
          ap (λ (p : Pairing). p.tried)
            (note_all-ftp r.commands nothing_seen
              ∙ ap (λ lines. note_ftp_lines lines no_pairing) (logged ∙ ran.1))
          ∙ note_ftp_lines-try user password h k),
    )
