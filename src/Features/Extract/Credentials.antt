-- ===== src/Features/Extract/Credentials.antt =====
-- Credential lines are not commands: what is seen of the commands does not depend on them.
use echidra_oss.Base.{
  ℕ, String, List, [], ◌∷◌, Bool, true, not, ◌&&◌, Option, ◌≡◌, refl, ap, sym, ◌∙◌, keep,
  Bool-cases, inl, inr,
}
use echidra_oss.Features.{SessionFeatures}
use echidra_oss.Features.State.{Line, Extraction, nothing_seen, line_of, is_credential}
use echidra_oss.Features.Events.{
  note_name, note_credentials, note_http, note_command, note_counts, note_line, note_event,
  note_all,
}
use echidra_oss.Features.Events.Steps.{Seen, seen, note_http-besides, note_credentials-besides}
use echidra_oss.Features.Extract.{extract_session_features}
use echidra_oss.Session.{CommandEvent, SessionRecord}

-- A command, and not a line of a login.
abbrev pub is_command : CommandEvent → Bool
is_command event = not (is_credential (line_of event.cmd))

note_counts-seen :
    (protocol : String) (l : Line) (e : Extraction) → seen (note_counts protocol l e) ≡ seen e
unfolding note_counts
note_counts-seen protocol l e = refl

-- What a line shows is decided by the part for commands.
note_line-seen :
    (protocol : String) (l : Line) (e : Extraction)
    → seen (note_line protocol l e)
      ≡ seen (note_command l (note_http protocol l (note_credentials protocol l (note_name l e))))
unfolding note_line
note_line-seen protocol l e = note_counts-seen protocol l _

before_command :
    (protocol : String) (l : Line) (e : Extraction)
    → seen (note_http protocol l (note_credentials protocol l (note_name l e))) ≡ seen e
before_command protocol l e =
    ap (λ p. p.1) (note_http-besides protocol l _)
    ∙ ap (λ p. p.1) (note_credentials-besides protocol l (note_name l e))

note_command-credential :
    (l : Line) (e : Extraction) → is_credential l ≡ true → seen (note_command l e) ≡ seen e
unfolding note_command
note_command-credential l e h = rw h refl

-- Variables in which just this was seen.
abbrev from_seen : Seen → Extraction
from_seen s = record nothing_seen {
  remote_fetch_seen = s.remote_fetch_seen;
  run_fetched_seen = s.run_fetched_seen;
  authorized_keys_write_attempt = s.authorized_keys_write_attempt;
  system_binary_read_attempt = s.system_binary_read_attempt;
  plain_echo_seen = s.plain_echo_seen;
  other_command_seen = s.other_command_seen;
}

note_command-from_seen :
    (l : Line) (e : Extraction)
    → seen (note_command l e) ≡ seen (note_command l (from_seen (seen e)))
unfolding note_command
note_command-from_seen l e = elim (Bool-cases (is_credential l)) [
  | inl h ↦ rw h refl
  | inr h ↦ rw h refl
]

note_command-cong :
    (l : Line) (e d : Extraction)
    → seen e ≡ seen d
    → seen (note_command l e) ≡ seen (note_command l d)
note_command-cong l e d h =
    note_command-from_seen l e
    ∙ ap (λ s. seen (note_command l (from_seen s))) h
    ∙ sym (note_command-from_seen l d)

note_event-seen :
    (protocol : String) (event : CommandEvent) (e : Extraction)
    → seen (note_event protocol event e) ≡ seen (note_command (line_of event.cmd) e)
unfolding note_event
note_event-seen protocol event e =
    let l = line_of event.cmd in
    note_line-seen protocol l e ∙ note_command-cong l _ e (before_command protocol l e)

note_all-keep :
    (protocol : String) (events : List CommandEvent) (e d : Extraction)
    → seen e ≡ seen d
    → seen (note_all protocol events e) ≡ seen (note_all protocol (keep is_command events) d)
unfolding note_all
note_all-keep protocol [] e d h = h
note_all-keep protocol (event ∷ events) e d h =
    let l = line_of event.cmd in
    let step = note_event-seen protocol event e in
    elim (Bool-cases (is_credential l)) [
      | inl login ↦
          rw login
            (note_all-keep protocol events _ d (step ∙ note_command-credential l e login ∙ h))
      | inr command ↦ rw command (
          note_all-keep protocol events _ _
            (step ∙ note_command-cong l e d h ∙ sym (note_event-seen protocol event d)))
    ]

-- The flags of the features that tell what the commands tried.
pub record CommandFlags : Type 0 where
  pub remote_fetch_and_run_attempt : Bool
  pub authorized_keys_write_attempt : Bool
  pub system_binary_read_attempt : Bool

abbrev pub command_flags : SessionFeatures → CommandFlags
command_flags f = record {
  remote_fetch_and_run_attempt = f.remote_fetch_and_run_attempt;
  authorized_keys_write_attempt = f.authorized_keys_write_attempt;
  system_binary_read_attempt = f.system_binary_read_attempt;
}

abbrev pub without_credentials : SessionRecord → SessionRecord
without_credentials r = record r { commands = keep is_command r.commands }

abbrev flags_of_seen : Seen → CommandFlags
flags_of_seen s = record {
  remote_fetch_and_run_attempt = s.remote_fetch_seen && s.run_fetched_seen;
  authorized_keys_write_attempt = s.authorized_keys_write_attempt;
  system_binary_read_attempt = s.system_binary_read_attempt;
}

-- The flags for fetching and running a program, for writing authorized keys and for reading a
-- system program are those of the session without its lines that start, stripped and in small
-- letters, with "login:" or "password:".
pub extract_session_features-without_credentials :
    (r : SessionRecord) (connection_count : Option ℕ)
    → command_flags (extract_session_features r connection_count)
      ≡ command_flags (extract_session_features (without_credentials r) connection_count)
unfolding extract_session_features
extract_session_features-without_credentials r connection_count =
    ap flags_of_seen (note_all-keep r.protocol r.commands nothing_seen nothing_seen refl)
