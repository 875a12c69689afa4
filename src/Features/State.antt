-- ===== src/Features/State.antt =====
-- classifier/features/session.py: the variables of the loop of `extract_session_features`, and what
-- it computes first of each line.
use echidra_oss.Base.{ℕ, suc, List, [], Bool, false, ◌||◌, Option, none, if◌then◌else◌}
use echidra_oss.Base.Text.{Text, codes, starts_with, strip}
use echidra_oss.Features.Requests.{parse_command}
use echidra_oss.Python.Split.{lower}

-- A line with what the loop computes of it first.
pub record Line : Type 0 where
  pub cmd : Text
  pub command_name : Text
  pub args : List Text
  pub normalized : Text

abbrev pub line_of : Text → Line
line_of cmd =
    let parsed = parse_command cmd in
    record { cmd = cmd; command_name = parsed.0; args = parsed.1; normalized = lower (strip cmd) }

-- The user name that waits for its password, and the pairs so far.
pub record Pairing : Type 0 where
  pub pending : Option Text
  pub tried : List Text

abbrev pub no_pairing : Pairing
no_pairing = record { pending = none; tried = [] }

-- The local variables of the loop.
pub record Extraction : Type 0 where
  pub command_names : List Text
  pub discovery_command_count : ℕ
  pub file_read_count : ℕ
  pub sensitive_file_read_count : ℕ
  pub exit_command_present : Bool
  pub auth_attempt_count : ℕ
  pub telnet : Pairing
  pub ssh : Pairing
  pub ftp : Pairing
  pub ftp_other_protocol_probe : Bool
  pub http_credentials_tried : List Text
  pub http_paths_requested : List Text
  pub http_user_agents : List Text
  pub http_known_scanner_user_agent : Bool
  pub http_command_injection_attempt : Bool
  pub http_path_traversal_attempt : Bool
  pub http_proxy_request : Bool
  pub http_probe_targets : List Text
  pub http_auth_schemes : List Text
  pub remote_fetch_seen : Bool
  pub run_fetched_seen : Bool
  pub authorized_keys_write_attempt : Bool
  pub system_binary_read_attempt : Bool
  pub plain_echo_seen : Bool
  pub other_command_seen : Bool

abbrev pub nothing_seen : Extraction
nothing_seen = record {
  command_names = [];
  discovery_command_count = 0;
  file_read_count = 0;
  sensitive_file_read_count = 0;
  exit_command_present = false;
  auth_attempt_count = 0;
  telnet = no_pairing;
  ssh = no_pairing;
  ftp = no_pairing;
  ftp_other_protocol_probe = false;
  http_credentials_tried = [];
  http_paths_requested = [];
  http_user_agents = [];
  http_known_scanner_user_agent = false;
  http_command_injection_attempt = false;
  http_path_traversal_attempt = false;
  http_proxy_request = false;
  http_probe_targets = [];
  http_auth_schemes = [];
  remote_fetch_seen = false;
  run_fetched_seen = false;
  authorized_keys_write_attempt = false;
  system_binary_read_attempt = false;
  plain_echo_seen = false;
  other_command_seen = false;
}

abbrev pub count_if : Bool → ℕ → ℕ
count_if test n = if test then suc n else n

abbrev pub is_login : Line → Bool
is_login l = starts_with l.normalized (codes "login:")

abbrev pub is_password : Line → Bool
is_password l = starts_with l.normalized (codes "password:")

-- `normalized.startswith(("login:", "password:"))`
abbrev pub is_credential : Line → Bool
is_credential l = is_login l || is_password l
