-- ===== src/Session/Shell.antt =====
-- honeypot/core/session.py: the state of a shell session that its record is made of. The fake
-- files and the working directory are the shell's.
use echidra_oss.Python.Utf8.Escapes.{to_visible}
use echidra_oss.Base.{
  ℕ, ◌+◌, ◌-◌, String, List, [], ◌∷◌, ◌++◌, false, Option, none, some, if◌then◌else◌,
}
use echidra_oss.Base.Text.{Text}
use echidra_oss.Session.{CommandEvent, SessionRecord, Peer, peer_ip_of, peer_port_of, one_of}

-- `SessionState`
pub record SessionState : Type 0 where
  pub session_id : String
  pub peer : Peer
  pub persona_id : String
  pub start_time : ℕ
  pub last_active : ℕ
  pub end_time : Option ℕ
  pub end_reason : Option String
  pub client_version : Option String
  pub end_stage : Option String
  pub end_error : Option String
  pub commands : List CommandEvent
  pub command_count : ℕ
  pub decoy_files_surfaced : List String

-- `__init__`, with the fresh UUID and the time.
abbrev pub open_state : String → ℕ → Peer → String → SessionState
open_state session_id now peer persona_id = record {
  session_id = session_id;
  peer = peer;
  persona_id = persona_id;
  start_time = now;
  last_active = now;
  end_time = none;
  end_reason = none;
  client_version = none;
  end_stage = none;
  end_error = none;
  commands = [];
  command_count = 0;
  decoy_files_surfaced = [];
}

-- `log_command`; bytes of the visitor that were no UTF-8 are surrogates in the command.
unfoldable pub log_command : ℕ → Text → SessionState → SessionState
log_command now cmd s = record s {
  commands = s.commands ++ record { cmd = to_visible cmd; timestamp = now } ∷ [];
  command_count = s.command_count + 1;
  last_active = now;
}

-- `record_decoy_file_surfaced`
unfoldable pub record_decoy_file_surfaced : String → SessionState → SessionState
record_decoy_file_surfaced path s =
    if one_of s.decoy_files_surfaced path
    then s
    else record s { decoy_files_surfaced = s.decoy_files_surfaced ++ path ∷ [] }

abbrev pub finalize_at : ℕ → String → Option ℕ → SessionState → SessionState
finalize_at now reason none s = record s { end_time = some now; end_reason = some reason }
finalize_at now reason (some ended) s = s

-- `finalize`
unfoldable pub finalize : ℕ → String → SessionState → SessionState
finalize now reason s = finalize_at now reason s.end_time s

-- `active_record`
unfoldable pub active_record : ℕ → SessionState → SessionRecord
active_record now s = record {
  schema_version = 1;
  session_id = s.session_id;
  protocol = "tcp_shell";
  peer_ip = peer_ip_of s.peer;
  peer_port = peer_port_of s.peer;
  has_latitude = false;
  has_longitude = false;
  persona_id = s.persona_id;
  started_at = s.start_time;
  ended_at = now;
  duration_seconds = now - s.start_time;
  end_reason = "disconnect";
  command_count = s.command_count;
  commands = s.commands;
  decoy_files_surfaced = s.decoy_files_surfaced;
  client_version = none;
  end_stage = none;
  end_error = none;
}

abbrev pub record_of : Option ℕ → Option String → SessionState → Option SessionRecord
record_of none _ s = none
record_of (some _) none s = none
record_of (some ended) (some reason) s = some (record {
  schema_version = 1;
  session_id = s.session_id;
  protocol = "tcp_shell";
  peer_ip = peer_ip_of s.peer;
  peer_port = peer_port_of s.peer;
  has_latitude = false;
  has_longitude = false;
  persona_id = s.persona_id;
  started_at = s.start_time;
  ended_at = ended;
  duration_seconds = ended - s.start_time;
  end_reason = reason;
  command_count = s.command_count;
  commands = s.commands;
  decoy_files_surfaced = s.decoy_files_surfaced;
  client_version = s.client_version;
  end_stage = s.end_stage;
  end_error = s.end_error;
})

-- `to_record`, which raises for an active session.
unfoldable pub to_record : SessionState → Option SessionRecord
to_record s = record_of s.end_time s.end_reason s
