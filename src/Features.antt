-- ===== src/Features.antt =====
-- classifier/features/session.py: the measurements of one session that the rules read.
-- Times and rates are exact non-negative quotients; the source has floats.
pub mod Patterns
pub mod Requests
pub mod Timing
pub mod State
pub mod Events
pub mod Extract
mod Tests
use echidra_oss.Base.{ℕ, String, List, Bool, Option}
use echidra_oss.Base.Text.{Text}
use echidra_oss.Base.Ratios.{Ratio}

-- `SessionFeatures`
pub record SessionFeatures : Type 0 where
  pub session_id : String
  pub protocol : String
  pub persona_id : String
  pub end_reason : String
  pub duration_seconds : Ratio
  pub command_count : ℕ
  pub commands_per_minute : Ratio
  pub unique_command_count : ℕ
  pub repeated_command_count : ℕ
  pub discovery_command_count : ℕ
  pub file_read_count : ℕ
  pub sensitive_file_read_count : ℕ
  pub decoy_files_surfaced : List String
  pub decoy_files_surfaced_count : ℕ
  pub exit_command_present : Bool
  pub inter_command_intervals_seconds : List Ratio
  pub average_inter_command_interval_seconds : Option Ratio
  pub human_timing_score : Option Ratio
  pub command_names : List Text
  pub auth_attempt_count : ℕ
  pub telnet_credentials_tried : List Text
  pub ssh_credentials_tried : List Text
  pub ftp_credentials_tried : List Text
  pub ftp_other_protocol_probe : Bool
  pub http_credentials_tried : List Text
  pub http_paths_requested : List Text
  pub http_user_agents : List Text
  pub http_known_scanner_user_agent : Bool
  pub http_command_injection_attempt : Bool
  pub http_path_traversal_attempt : Bool
  pub http_proxy_request : Bool
  pub http_probe_targets : List Text
  pub http_auth_schemes : List Text
  pub remote_fetch_and_run_attempt : Bool
  pub authorized_keys_write_attempt : Bool
  pub system_binary_read_attempt : Bool
  pub login_check_only : Bool
  pub connection_count_from_same_ip : Option ℕ
