-- ===== src/Rules/Fields.antt =====
-- classifier/rules/engine.py: `hasattr(features, name)` and `getattr(features, name)`, for the
-- measurements of a session.
use echidra_oss.Base.{ℕ, String, List, [], ◌∷◌, map, Option, none, some, str_eq, if◌then◌else◌}
use echidra_oss.Base.Text.{Text, codes}
use echidra_oss.Base.Ratios.{Ratio, whole}
use echidra_oss.Features.{SessionFeatures}
use echidra_oss.Rules.Value.{Value, null, bool, number, text, items, Values, nil, cons}

abbrev pub texts : List Text → Values
texts [] = nil
texts (s ∷ ss) = cons (text s) (texts ss)

abbrev pub numbers : List Ratio → Values
numbers [] = nil
numbers (n ∷ ns) = cons (number n) (numbers ns)

abbrev pub optional : Option Ratio → Value
optional none = null
optional (some n) = number n

abbrev pub optional_count : Option ℕ → Value
optional_count none = null
optional_count (some n) = number (whole n)

-- The value of a named measurement; nothing if there is none of that name.
unfoldable pub get_field : SessionFeatures → String → Option Value
get_field f name =
    if str_eq name "session_id"
    then some (text (codes f.session_id))
    else if str_eq name "protocol"
    then some (text (codes f.protocol))
    else if str_eq name "persona_id"
    then some (text (codes f.persona_id))
    else if str_eq name "end_reason"
    then some (text (codes f.end_reason))
    else if str_eq name "duration_seconds"
    then some (number f.duration_seconds)
    else if str_eq name "command_count"
    then some (number (whole f.command_count))
    else if str_eq name "commands_per_minute"
    then some (number f.commands_per_minute)
    else if str_eq name "unique_command_count"
    then some (number (whole f.unique_command_count))
    else if str_eq name "repeated_command_count"
    then some (number (whole f.repeated_command_count))
    else if str_eq name "discovery_command_count"
    then some (number (whole f.discovery_command_count))
    else if str_eq name "file_read_count"
    then some (number (whole f.file_read_count))
    else if str_eq name "sensitive_file_read_count"
    then some (number (whole f.sensitive_file_read_count))
    else if str_eq name "decoy_files_surfaced"
    then some (items (texts (map codes f.decoy_files_surfaced)))
    else if str_eq name "decoy_files_surfaced_count"
    then some (number (whole f.decoy_files_surfaced_count))
    else if str_eq name "exit_command_present"
    then some (bool f.exit_command_present)
    else if str_eq name "inter_command_intervals_seconds"
    then some (items (numbers f.inter_command_intervals_seconds))
    else if str_eq name "average_inter_command_interval_seconds"
    then some (optional f.average_inter_command_interval_seconds)
    else if str_eq name "human_timing_score"
    then some (optional f.human_timing_score)
    else if str_eq name "command_names"
    then some (items (texts f.command_names))
    else if str_eq name "auth_attempt_count"
    then some (number (whole f.auth_attempt_count))
    else if str_eq name "telnet_credentials_tried"
    then some (items (texts f.telnet_credentials_tried))
    else if str_eq name "ssh_credentials_tried"
    then some (items (texts f.ssh_credentials_tried))
    else if str_eq name "ftp_credentials_tried"
    then some (items (texts f.ftp_credentials_tried))
    else if str_eq name "ftp_other_protocol_probe"
    then some (bool f.ftp_other_protocol_probe)
    else if str_eq name "http_credentials_tried"
    then some (items (texts f.http_credentials_tried))
    else if str_eq name "http_paths_requested"
    then some (items (texts f.http_paths_requested))
    else if str_eq name "http_user_agents"
    then some (items (texts f.http_user_agents))
    else if str_eq name "http_known_scanner_user_agent"
    then some (bool f.http_known_scanner_user_agent)
    else if str_eq name "http_command_injection_attempt"
    then some (bool f.http_command_injection_attempt)
    else if str_eq name "http_path_traversal_attempt"
    then some (bool f.http_path_traversal_attempt)
    else if str_eq name "http_proxy_request"
    then some (bool f.http_proxy_request)
    else if str_eq name "http_probe_targets"
    then some (items (texts f.http_probe_targets))
    else if str_eq name "http_auth_schemes"
    then some (items (texts f.http_auth_schemes))
    else if str_eq name "remote_fetch_and_run_attempt"
    then some (bool f.remote_fetch_and_run_attempt)
    else if str_eq name "authorized_keys_write_attempt"
    then some (bool f.authorized_keys_write_attempt)
    else if str_eq name "system_binary_read_attempt"
    then some (bool f.system_binary_read_attempt)
    else if str_eq name "login_check_only"
    then some (bool f.login_check_only)
    else if str_eq name "connection_count_from_same_ip"
    then some (optional_count f.connection_count_from_same_ip)
    else none
