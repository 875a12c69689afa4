-- ===== src/Features/Events/Steps.antt =====
-- What each part of the loop leaves alone.
use echidra_oss.Features.Requests.{http_request_target}
use echidra_oss.Features.Patterns.{http_credential_body_pattern}
use echidra_oss.Python.Regex.{search_in}
use echidra_oss.Base.{
  ℕ, String, List, Bool, Option, none, some, ◌≡◌, refl, ◌∙◌, if_either, ap, if◌then◌else◌, ◌&&◌,
  str_eq,
}
use echidra_oss.Base.Text.{Text, codes, text_eq}
use echidra_oss.Features.State.{Line, Pairing, Extraction}
use echidra_oss.Features.Events.{
  note_http_login, note_credentials, note_path, note_target, note_request, note_authorization,
  note_user_agent, note_http, query_pair, note_post_body, note_counted_pair,
}

-- The counts of commands.
pub record Counts : Type 0 where
  pub command_names : List Text
  pub discovery_command_count : ℕ
  pub file_read_count : ℕ
  pub sensitive_file_read_count : ℕ

abbrev pub counts : Extraction → Counts
counts e = record {
  command_names = e.command_names;
  discovery_command_count = e.discovery_command_count;
  file_read_count = e.file_read_count;
  sensitive_file_read_count = e.sensitive_file_read_count;
}

-- What was seen of the commands.
pub record Seen : Type 0 where
  pub remote_fetch_seen : Bool
  pub run_fetched_seen : Bool
  pub authorized_keys_write_attempt : Bool
  pub system_binary_read_attempt : Bool
  pub plain_echo_seen : Bool
  pub other_command_seen : Bool

abbrev pub seen : Extraction → Seen
seen e = record {
  remote_fetch_seen = e.remote_fetch_seen;
  run_fetched_seen = e.run_fetched_seen;
  authorized_keys_write_attempt = e.authorized_keys_write_attempt;
  system_binary_read_attempt = e.system_binary_read_attempt;
  plain_echo_seen = e.plain_echo_seen;
  other_command_seen = e.other_command_seen;
}

-- The logins of the protocols other than HTTP.
pub record Logins : Type 0 where
  pub telnet : Pairing
  pub ssh : Pairing
  pub ftp : Pairing

abbrev pub logins : Extraction → Logins
logins e = record { telnet = e.telnet; ssh = e.ssh; ftp = e.ftp }

-- A part of the variables that a test leaves alone in both branches.
if_keeps :
    {A : Type 0} (f : Extraction → A) (b : Bool) (x y e : Extraction)
    → f x ≡ f e
    → f y ≡ f e
    → f (if b then x else y) ≡ f e
if_keeps f b x y e = if_either (λ z. f z ≡ f e) b x y

abbrev BesidesHttp : Type 0
BesidesHttp = Counts × Seen × Logins

abbrev besides_http : Extraction → BesidesHttp
besides_http e = (counts e, seen e, logins e)

note_target-besides :
    (l : Line) (t : Option Text) (e : Extraction)
    → besides_http (note_target l t e) ≡ besides_http e
note_target-besides l none e = refl
note_target-besides l (some target) e = refl

note_request-besides :
    (l : Line) (e : Extraction) → besides_http (note_request l e) ≡ besides_http e
note_request-besides l e = if_keeps besides_http _ _ e e (note_target-besides l _ _) refl

note_path-besides : (l : Line) (e : Extraction) → besides_http (note_path l e) ≡ besides_http e
note_path-besides l e = if_keeps besides_http _ _ e e refl refl

note_authorization-besides :
    (l : Line) (e : Extraction) → besides_http (note_authorization l e) ≡ besides_http e
note_authorization-besides l e = if_keeps besides_http _ _ e e refl refl

note_user_agent-besides :
    (l : Line) (e : Extraction) → besides_http (note_user_agent l e) ≡ besides_http e
note_user_agent-besides l e = if_keeps besides_http _ _ e e refl refl

pub note_http-besides :
    (protocol : String) (l : Line) (e : Extraction)
    → besides_http (note_http protocol l e) ≡ besides_http e
unfolding note_http
note_http-besides protocol l e =
    if_keeps besides_http _ _ e e
      (note_user_agent-besides l _
        ∙ note_authorization-besides l _
        ∙ note_request-besides l _
        ∙ note_path-besides l e)
      refl

abbrev besides_login : Extraction → Counts × Seen
besides_login e = (counts e, seen e)

note_http_login-besides :
    (l : Line) (e : Extraction) → besides_http (note_http_login l e) ≡ besides_http e
note_http_login-besides l e =
    if_keeps besides_http
      (text_eq l.command_name (codes "post") && search_in http_credential_body_pattern l.normalized)
      (note_post_body l e)
      (if text_eq l.command_name (codes "get")
        then note_counted_pair (query_pair (http_request_target l.cmd)) e
        else e)
      e refl
      (if_keeps besides_http (text_eq l.command_name (codes "get"))
        (note_counted_pair (query_pair (http_request_target l.cmd)) e) e e refl refl)

pub note_credentials-besides :
    (protocol : String) (l : Line) (e : Extraction)
    → besides_login (note_credentials protocol l e) ≡ besides_login e
unfolding note_credentials
note_credentials-besides protocol l e =
    if_keeps besides_login (str_eq protocol "telnet") _ _ e refl (
      if_keeps besides_login (str_eq protocol "tcp_shell") _ _ e refl (
        if_keeps besides_login (str_eq protocol "ftp") _ _ e refl (
          if_keeps besides_login (str_eq protocol "http") (note_http_login l e) e e
            (ap (λ (p : BesidesHttp). (p.0, p.1)) (note_http_login-besides l e)) refl)))
