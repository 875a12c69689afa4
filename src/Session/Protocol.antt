-- ===== src/Session/Protocol.antt =====
-- honeypot/network/protocol_session.py: the session of a Telnet, FTP or HTTP connection.
use echidra_oss.Base.{
  nonempty, ℕ, ◌-◌, String, List, [], ◌∷◌, ◌++◌, false, Option, none, some, if◌then◌else◌, length,
}
use echidra_oss.Base.Text.{Text}
use echidra_oss.Session.{CommandEvent, SessionRecord, Peer, peer_ip_of, peer_port_of}

-- `ProtocolSession`
pub record ProtocolSession : Type 0 where
  pub session_id : String
  pub peer : Peer
  pub protocol : String
  pub persona_id : String
  pub start_time : ℕ
  pub end_time : Option ℕ
  pub end_reason : Option String
  pub commands : List CommandEvent

-- `__init__`, with the fresh UUID and the time.
abbrev pub open_session : String → ℕ → Peer → String → String → ProtocolSession
open_session session_id now peer protocol persona_id = record {
  session_id = session_id;
  peer = peer;
  protocol = protocol;
  persona_id = persona_id;
  start_time = now;
  end_time = none;
  end_reason = none;
  commands = [];
}

-- `log_command`
unfoldable pub log_command : ℕ → Text → ProtocolSession → ProtocolSession
log_command now cmd s =
    if nonempty cmd
    then record s { commands = s.commands ++ record { cmd = cmd; timestamp = now } ∷ [] }
    else s

abbrev pub finalize_at : ℕ → String → Option ℕ → ProtocolSession → ProtocolSession
finalize_at now reason none s = record s { end_time = some now; end_reason = some reason }
finalize_at now reason (some ended) s = s

-- `finalize`
unfoldable pub finalize : ℕ → String → ProtocolSession → ProtocolSession
finalize now reason s = finalize_at now reason s.end_time s

abbrev pub record_of : Option ℕ → Option String → ProtocolSession → Option SessionRecord
record_of none _ s = none
record_of (some _) none s = none
record_of (some ended) (some reason) s = some (record {
  schema_version = 1;
  session_id = s.session_id;
  protocol = s.protocol;
  peer_ip = peer_ip_of s.peer;
  peer_port = peer_port_of s.peer;
  has_latitude = false;
  has_longitude = false;
  persona_id = s.persona_id;
  started_at = s.start_time;
  ended_at = ended;
  duration_seconds = ended - s.start_time;
  end_reason = reason;
  command_count = length s.commands;
  commands = s.commands;
  decoy_files_surfaced = [];
  client_version = none;
  end_stage = none;
  end_error = none;
})

-- `to_record`, which raises for an active session.
unfoldable pub to_record : ProtocolSession → Option SessionRecord
to_record s = record_of s.end_time s.end_reason s
