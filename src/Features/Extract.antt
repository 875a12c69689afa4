-- ===== src/Features/Extract.antt =====
-- classifier/features/session.py: `extract_session_features`.
pub mod TelnetBurst
pub mod Credentials
pub mod Counts
use echidra_oss.Base.{ℕ, ◌-◌, List, [], ◌∷◌, not, ◌&&◌, Option, length, nonempty, any, map}
use echidra_oss.Base.Text.{Text, text_eq}
use echidra_oss.Features.{SessionFeatures}
use echidra_oss.Features.State.{Extraction, nothing_seen, count_if}
use echidra_oss.Features.Events.{note_all}
use echidra_oss.Features.Timing.{
  seconds, times_between, average_of, human_timing_score, commands_per_minute,
}
use echidra_oss.Session.{SessionRecord}

-- `len(set(names))`
unfoldable pub distinct_count : List Text → ℕ
distinct_count [] = 0
distinct_count (name ∷ names) =
    let rest = distinct_count names in count_if (not (any (text_eq name) names)) rest

-- The features of a session whose commands have been read.
abbrev pub features_of : SessionRecord → Option ℕ → Extraction → SessionFeatures
features_of session connection_count e =
    let times = times_between session.commands in
    let unique_command_count = distinct_count e.command_names in
    record {
      session_id = session.session_id;
      protocol = session.protocol;
      persona_id = session.persona_id;
      end_reason = session.end_reason;
      duration_seconds = seconds session.duration_seconds;
      command_count = session.command_count;
      commands_per_minute = commands_per_minute session.command_count session.duration_seconds;
      unique_command_count = unique_command_count;
      repeated_command_count = session.command_count - unique_command_count;
      discovery_command_count = e.discovery_command_count;
      file_read_count = e.file_read_count;
      sensitive_file_read_count = e.sensitive_file_read_count;
      decoy_files_surfaced = session.decoy_files_surfaced;
      decoy_files_surfaced_count = length session.decoy_files_surfaced;
      exit_command_present = e.exit_command_present;
      inter_command_intervals_seconds = map seconds times;
      average_inter_command_interval_seconds = average_of times;
      human_timing_score = human_timing_score (average_of times);
      command_names = e.command_names;
      auth_attempt_count = e.auth_attempt_count;
      telnet_credentials_tried = e.telnet.tried;
      ssh_credentials_tried = e.ssh.tried;
      ftp_credentials_tried = e.ftp.tried;
      ftp_other_protocol_probe = e.ftp_other_protocol_probe;
      http_credentials_tried = e.http_credentials_tried;
      http_paths_requested = e.http_paths_requested;
      http_user_agents = e.http_user_agents;
      http_known_scanner_user_agent = e.http_known_scanner_user_agent;
      http_command_injection_attempt = e.http_command_injection_attempt;
      http_path_traversal_attempt = e.http_path_traversal_attempt;
      http_proxy_request = e.http_proxy_request;
      http_probe_targets = e.http_probe_targets;
      http_auth_schemes = e.http_auth_schemes;
      remote_fetch_and_run_attempt = e.remote_fetch_seen && e.run_fetched_seen;
      authorized_keys_write_attempt = e.authorized_keys_write_attempt;
      system_binary_read_attempt = e.system_binary_read_attempt;
      login_check_only = nonempty e.ssh.tried && e.plain_echo_seen && not e.other_command_seen;
      connection_count_from_same_ip = connection_count;
    }

-- `extract_session_features`
unfoldable pub extract_session_features : SessionRecord → Option ℕ → SessionFeatures
extract_session_features session connection_count =
    features_of session connection_count (note_all session.protocol session.commands nothing_seen)
