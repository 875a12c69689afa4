-- ===== src/Features/Extract/TelnetBurst.antt =====
-- The credentials of a Telnet client, from its packet to the features.
use echidra_oss.Base.Plain.{IsPlain, rstrip_by-plain_end, strip-behind}
use echidra_oss.Base.{
  ℕ, ◌≤◌, List, [], ◌∷◌, ◌++◌, map, true, Option, none, some, ◌≡◌, refl, ap, ◌∙◌, length, All,
  nonempty, if_either,
}
use echidra_oss.Base.Text.{Text, codes, strip, is_space}
use echidra_oss.Features.State.{Pairing, Extraction, nothing_seen, no_pairing, line_of}
use echidra_oss.Features.Events.{
  note_credentials, note_http, note_command, note_counts, note_line, note_event, note_all,
  note_login_line, complete_pair,
}
use echidra_oss.Features.Extract.{extract_session_features}
use echidra_oss.Features.Requests.{pair_text}
use echidra_oss.Python.Split.{lower, split_once}
use echidra_oss.Session.{CommandEvent, SessionRecord}
use echidra_oss.Network.{arrived}
use echidra_oss.Telnet.Login.{handle}
use echidra_oss.Telnet.Burst.{IsCredentialPair, burst_of, logged_of, handle_burst}
use mathlib.Core.List.{append_assoc, append-nil}

-- The loop as far as it is about Telnet logins.
note_lines : List Text → Pairing → Pairing
note_lines [] p = p
note_lines (cmd ∷ cmds) p = note_lines cmds (note_login_line (line_of cmd) p)

note_event-telnet :
    (event : CommandEvent) (e : Extraction)
    → (note_event "telnet" event e).telnet ≡ note_login_line (line_of event.cmd) e.telnet
unfolding note_event note_line note_counts note_command note_http note_credentials
note_event-telnet event e =
    if_either (λ (z : Extraction). z.telnet ≡ note_login_line (line_of event.cmd) e.telnet) _ _ _
      refl refl

note_all-telnet :
    (events : List CommandEvent) (e : Extraction)
    → (note_all "telnet" events e).telnet
      ≡ note_lines (map (λ (c : CommandEvent). c.cmd) events) e.telnet
unfolding note_all note_lines
note_all-telnet [] e = refl
note_all-telnet (event ∷ events) e =
    note_all-telnet events (note_event "telnet" event e)
    ∙ ap (note_lines (map (λ (c : CommandEvent). c.cmd) events)) (note_event-telnet event e)

strip-login :
    (u : Text) → IsPlain u → nonempty u ≡ true → strip (codes "login: " ++ u) ≡ codes "login: " ++ u
unfolding is_space
strip-login u h k = rstrip_by-plain_end (codes "login: ") u h k

strip-password :
    (p : Text)
    → IsPlain p
    → nonempty p ≡ true
    → strip (codes "password: " ++ p) ≡ codes "password: " ++ p
unfolding is_space
strip-password p h k = rstrip_by-plain_end (codes "password: ") p h k

note_login_line-login :
    (u : Text) (p : Pairing)
    → IsPlain u
    → nonempty u ≡ true
    → note_login_line (line_of (codes "login: " ++ u)) p ≡ record p { pending = some (lower u) }
unfolding note_login_line split_once
note_login_line-login u p h k = rw (strip-login u h k, strip-behind u h) refl

note_login_line-password :
    (s : Text) (p : Pairing)
    → IsPlain s
    → nonempty s ≡ true
    → note_login_line (line_of (codes "password: " ++ s)) p ≡ complete_pair p.pending (lower s) p
unfolding note_login_line split_once
note_login_line-password s p h k = rw (strip-password s h k, strip-behind s h) refl

-- `user:password` of a pair, in small letters.
abbrev pub tried_of : Text × Text → Text
tried_of (username, password) = pair_text (lower username) (lower password)

note_lines-logged :
    (pairs : List (Text × Text)) (tried : List Text)
    → All IsCredentialPair pairs
    → (note_lines (logged_of pairs) (record { pending = none; tried = tried })).tried
      ≡ tried ++ map tried_of pairs
unfolding note_lines
note_lines-logged [] tried h = rw (append-nil tried) refl
note_lines-logged ((u, s) ∷ pairs) tried ((hu, ku, hs, ks), h) =
    rw (note_login_line-login u _ hu ku, note_login_line-password s _ hs ks)
      (note_lines-logged pairs (tried ++ tried_of (u, s) ∷ []) h
        ∙ append_assoc tried (tried_of (u, s) ∷ []) (map tried_of pairs))

-- If a Telnet session's record has the lines that the login logs for a client which sends up to
-- five pairs of a user name and a password in a first packet of at most 64 bytes, each on a line of
-- its own and of printable characters without spaces, and then closes its side, then the
-- credentials in the features are exactly these pairs, in order and in small letters.
pub extract_session_features-burst :
    (banner prompt : Text) (pairs : List (Text × Text)) (r : SessionRecord) (count : Option ℕ)
    → length pairs ≤ 5
    → length (burst_of pairs) ≤ 64
    → All IsCredentialPair pairs
    → r.protocol ≡ "telnet"
    → map (λ (c : CommandEvent). c.cmd) r.commands
      ≡ (handle banner prompt (arrived (burst_of pairs) ∷ [])).1.logged
    → (extract_session_features r count).telnet_credentials_tried ≡ map tried_of pairs
unfolding extract_session_features
extract_session_features-burst banner prompt pairs r count h short k telnet logged =
    let lines = logged ∙ (handle_burst banner prompt pairs h short k).1 in
    rw telnet (
      ap (λ (p : Pairing). p.tried)
        (note_all-telnet r.commands nothing_seen ∙ ap (λ lines. note_lines lines no_pairing) lines)
      ∙ note_lines-logged pairs [] k)
