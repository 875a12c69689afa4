-- ===== src/Features/Events.antt =====
-- classifier/features/session.py: the loop of `extract_session_features`, one function for each
-- part of its body, in the order of the source.
pub mod Steps
use echidra_oss.Features.State.{
  Line, line_of, Pairing, no_pairing, Extraction, nothing_seen, count_if, is_login, is_password,
  is_credential,
}
use echidra_oss.Base.{
  ℕ, suc, String, List, [], ◌∷◌, ◌++◌, Bool, false, not, ◌&&◌, ◌||◌, Option, none, some,
  if◌then◌else◌, is_some, nonempty, any, str_eq, ◌==◌,
}
use echidra_oss.Base.Text.{Text, codes, text_eq, starts_with, strip}
use echidra_oss.Features.Patterns.{
  discovery_commands, exit_commands, http_request_commands, http_methods, echo_command_names, is_in,
  http_credential_body_pattern, scanner_user_agent_pattern, http_injected_command_pattern,
  path_traversal_pattern, ftp_other_protocol_pattern, remote_fetch_pattern, run_fetched_pattern,
  authorized_keys_write_pattern, system_binary_read_pattern, not_a_plain_echo_pattern,
}
use echidra_oss.Features.Requests.{
  parse_command, http_request_target, http_probe_target, basic_auth_pair, pair_text,
  extract_http_credential_pair, is_sensitive_path,
}
use echidra_oss.Python.Regex.{search_in}
use echidra_oss.Python.Split.{lower, split_words, after_first}
use echidra_oss.Python.Url.{unquote, unquote_plus}
use echidra_oss.Session.{CommandEvent}

abbrev pub note_name : Line → Extraction → Extraction
note_name l e = record e {
  command_names = e.command_names ++ l.command_name ∷ [];
  auth_attempt_count =
      count_if (is_in ("user" ∷ "pass" ∷ []) l.command_name || is_credential l)
        e.auth_attempt_count;
}

-- `event.cmd.split(":", 1)[1].strip()`, of a line with a colon.
abbrev pub behind_colon : Text → Text
behind_colon cmd = strip (after_first b':' cmd)

abbrev pub complete_pair : Option Text → Text → Pairing → Pairing
complete_pair none password p = p
complete_pair (some user) password p = record {
  pending = none;
  tried = p.tried ++ pair_text user password ∷ [];
}

-- The login of a shell or a Telnet session.
unfoldable pub note_login_line : Line → Pairing → Pairing
note_login_line l p =
    let value = lower (behind_colon l.cmd) in
    if is_login l
    then record p { pending = some value }
    else if is_password l
    then complete_pair p.pending value p
    else p

-- `USER` and `PASS`, with their first argument.
abbrev pub note_ftp_login : Text → List Text → Pairing → Pairing
note_ftp_login name [] p = p
note_ftp_login name (arg ∷ args) p =
    let value = lower (strip arg) in
    if text_eq name (codes "user")
    then record p { pending = some value }
    else if text_eq name (codes "pass")
    then complete_pair p.pending value p
    else p

abbrev pub note_ftp : Line → Extraction → Extraction
note_ftp l e = record e {
  ftp = note_ftp_login l.command_name l.args e.ftp;
  ftp_other_protocol_probe =
      e.ftp_other_protocol_probe || search_in ftp_other_protocol_pattern l.normalized;
}

abbrev pub with_pair : Option Text → List Text → List Text
with_pair none tried = tried
with_pair (some pair) tried = tried ++ pair ∷ []

-- `event.cmd.partition(": ")[2]`
unfoldable pub behind_colon_space : Text → Text
behind_colon_space [] = []
behind_colon_space (c ∷ s) =
    if starts_with (c ∷ s) (codes ": ") then after_first 32 s else behind_colon_space s

abbrev pub note_post_body : Line → Extraction → Extraction
note_post_body l e = record e {
  auth_attempt_count = suc e.auth_attempt_count;
  http_credentials_tried =
      with_pair (extract_http_credential_pair (behind_colon_space l.cmd)) e.http_credentials_tried;
}

-- The pair of a query string counts as an attempt only if it is complete.
abbrev pub note_counted_pair : Option Text → Extraction → Extraction
note_counted_pair pair e = record e {
  auth_attempt_count = count_if (is_some pair) e.auth_attempt_count;
  http_credentials_tried = with_pair pair e.http_credentials_tried;
}

abbrev pub query_pair : Option Text → Option Text
query_pair none = none
query_pair (some target) =
    if any (λ c. c == b'?') target
    then extract_http_credential_pair (after_first b'?' target)
    else none

abbrev pub note_http_login : Line → Extraction → Extraction
note_http_login l e =
    if text_eq l.command_name (codes "post") && search_in http_credential_body_pattern l.normalized
    then note_post_body l e
    else if text_eq l.command_name (codes "get")
    then note_counted_pair (query_pair (http_request_target l.cmd)) e
    else e

-- The branches on the protocol.
unfoldable pub note_credentials : String → Line → Extraction → Extraction
note_credentials protocol l e =
    if str_eq protocol "telnet"
    then record e { telnet = note_login_line l e.telnet }
    else if str_eq protocol "tcp_shell"
    then record e { ssh = note_login_line l e.ssh }
    else if str_eq protocol "ftp"
    then note_ftp l e
    else if str_eq protocol "http"
    then note_http_login l e
    else e

abbrev pub first_arg : List Text → List Text → List Text
first_arg [] paths = paths
first_arg (arg ∷ args) paths = paths ++ arg ∷ []

abbrev pub note_path : Line → Extraction → Extraction
note_path l e =
    if is_in http_request_commands l.command_name
    then record e { http_paths_requested = first_arg l.args e.http_paths_requested }
    else e

abbrev pub add_new : Option Text → List Text → List Text
add_new none seen = seen
add_new (some name) seen = if any (text_eq name) seen then seen else seen ++ name ∷ []

abbrev pub is_proxy_target : Line → Text → Bool
is_proxy_target l target =
    text_eq l.command_name (codes "connect")
    || starts_with (lower target) (codes "http://")
    || starts_with (lower target) (codes "https://")

abbrev pub note_target : Line → Option Text → Extraction → Extraction
note_target l none e = e
note_target l (some target) e =
    let is_proxy = is_proxy_target l target in
    record e {
      http_proxy_request = e.http_proxy_request || is_proxy;
      http_path_traversal_attempt =
          e.http_path_traversal_attempt
          || (not is_proxy && search_in path_traversal_pattern (unquote (unquote target)));
      http_probe_targets = add_new (http_probe_target target) e.http_probe_targets;
    }

abbrev pub note_request : Line → Extraction → Extraction
note_request l e =
    if is_in http_methods l.command_name
    then note_target l (http_request_target l.cmd) (record e {
      http_command_injection_attempt =
          e.http_command_injection_attempt
          || search_in http_injected_command_pattern (unquote_plus l.normalized);
    })
    else e

abbrev pub first_word : List Text → Option Text
first_word [] = none
first_word (word ∷ words) = some word

abbrev pub note_authorization : Line → Extraction → Extraction
note_authorization l e =
    if starts_with l.normalized (codes "authorization:")
    then note_counted_pair (basic_auth_pair (after_first b':' l.cmd)) (record e {
      http_auth_schemes =
          add_new (first_word (split_words (after_first b':' l.normalized))) e.http_auth_schemes;
    })
    else e

abbrev pub note_user_agent : Line → Extraction → Extraction
note_user_agent l e =
    let user_agent = behind_colon l.cmd in
    if starts_with l.normalized (codes "user-agent:") && nonempty user_agent
    then record e {
      http_user_agents = e.http_user_agents ++ user_agent ∷ [];
      http_known_scanner_user_agent =
          e.http_known_scanner_user_agent
          || search_in scanner_user_agent_pattern (lower user_agent);
    }
    else e

-- The parts for HTTP that stand behind the branches on the protocol.
unfoldable pub note_http : String → Line → Extraction → Extraction
note_http protocol l e =
    if str_eq protocol "http"
    then note_user_agent l (note_authorization l (note_request l (note_path l e)))
    else e

abbrev pub is_plain_echo : Line → Bool
is_plain_echo l =
    is_in echo_command_names l.command_name && not (search_in not_a_plain_echo_pattern l.normalized)

-- Credential lines are not commands.
unfoldable pub note_command : Line → Extraction → Extraction
note_command l e = if is_credential l then e else record e {
  remote_fetch_seen = e.remote_fetch_seen || search_in remote_fetch_pattern l.normalized;
  run_fetched_seen = e.run_fetched_seen || search_in run_fetched_pattern l.normalized;
  authorized_keys_write_attempt =
      e.authorized_keys_write_attempt || search_in authorized_keys_write_pattern l.normalized;
  system_binary_read_attempt =
      e.system_binary_read_attempt || search_in system_binary_read_pattern l.normalized;
  plain_echo_seen = e.plain_echo_seen || is_plain_echo l;
  other_command_seen =
      e.other_command_seen || (not (is_plain_echo l) && not (is_in exit_commands l.command_name));
}

abbrev pub is_cat : Line → Bool
is_cat l = text_eq l.command_name (codes "cat")

-- The counts of commands.
unfoldable pub note_counts : String → Line → Extraction → Extraction
note_counts protocol l e =
    let reads =
      is_cat l || (str_eq protocol "http" && is_in http_request_commands l.command_name) in
    record e {
      discovery_command_count =
          count_if (is_in discovery_commands l.command_name) e.discovery_command_count;
      file_read_count = count_if (is_cat l) e.file_read_count;
      sensitive_file_read_count =
          count_if (reads && any is_sensitive_path l.args) e.sensitive_file_read_count;
      exit_command_present = e.exit_command_present || is_in exit_commands l.command_name;
    }

-- The body of the loop.
unfoldable pub note_line : String → Line → Extraction → Extraction
note_line protocol l e =
    note_counts protocol l
      (note_command l (note_http protocol l (note_credentials protocol l (note_name l e))))

unfoldable pub note_event : String → CommandEvent → Extraction → Extraction
note_event protocol event e = note_line protocol (line_of event.cmd) e

-- The loop.
unfoldable pub note_all : String → List CommandEvent → Extraction → Extraction
note_all protocol [] e = e
note_all protocol (event ∷ events) e = note_all protocol events (note_event protocol event e)
