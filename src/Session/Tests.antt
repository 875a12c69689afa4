-- ===== src/Session/Tests.antt =====
-- The theorems on sessions at concrete runs.
use echidra_oss.Base.Text.{Text, codes}
use echidra_oss.Base.{
  ℕ, String, List, [], ◌∷◌, Bool, true, none, some, ◌≡◌, refl, arith, str_eq, all, ◌++◌,
}
use echidra_oss.Session.{Peer, host_port, SessionRecord, is_accepted, is_safe_path, has_parent_from}
use echidra_oss.Session.Accepted.{IsIdentified}
use echidra_oss.Session.Shell.{
  active_record, to_record as shell_record, finalize as finalize_shell, SessionState,
}
use echidra_oss.Session.ShellRecord.{
  Activity, logs, surfaces, run, is_legal, shell_records_accepted, shell_of, HasUnicode,
}
use echidra_oss.Session.Protocol.{
  open_session, to_record as protocol_record, finalize as finalize_protocol,
}
use echidra_oss.Session.ProtocolRecord.{log_lines, protocol_record_accepted}

abbrev client : Peer
client = host_port "192.0.2.7" 50022

abbrev is_client : String → Bool
is_client s = str_eq s "192.0.2.7"

abbrev is_id : String → Bool
is_id s = str_eq s "id"

client-IsIdentified : IsIdentified is_client is_id "id" client "router" none none none
client-IsIdentified = record {
  session = refl;
  ip = refl;
  port = refl;
  persona = refl;
  version = refl;
  stage = refl;
  error = refl;
}

abbrev shell_events : List (ℕ × Activity)
shell_events =
    (3, logs (codes "cat /etc/passwd" ++ 0xDCFF ∷ []))
    ∷ (3, surfaces "/etc/passwd")
    ∷ (5, surfaces "/etc/passwd")
    ∷ (9, logs (codes "exit"))
    ∷ []

shell_events_legal : all is_legal shell_events ≡ true
unfolding is_safe_path has_parent_from
shell_events_legal = refl

-- The client of an SSH session, which fails at its authentication.
ssh-IsIdentified :
    IsIdentified is_client is_id "id" client "router" (some "SSH-2.0-Go") none (some "timeout")
ssh-IsIdentified = record {
  session = refl;
  ip = refl;
  port = refl;
  persona = refl;
  version = refl;
  stage = refl;
  error = refl;
}

abbrev ssh_shell : SessionState
ssh_shell = shell_of "id" 2 client "router" (some "SSH-2.0-Go") none (some "timeout")

shell_records_accepted_example :
    ((is_accepted is_client is_id (active_record 9 (run shell_events ssh_shell)) ≡ true)
      × HasUnicode (active_record 9 (run shell_events ssh_shell)))
    × ((r : SessionRecord) × (shell_record (finalize_shell 9 "logout" (run shell_events ssh_shell))
          ≡ some r)
        × (is_accepted is_client is_id r ≡ true)
        × HasUnicode r)
shell_records_accepted_example =
    shell_records_accepted is_client is_id "id" client "router" "logout" (some "SSH-2.0-Go") none
      (some "timeout") 2 9 shell_events ssh-IsIdentified refl
      (omega arith, (omega arith, (omega arith, (omega arith, omega arith)))) shell_events_legal

abbrev telnet_lines : List (ℕ × Text)
telnet_lines = (4, codes "USER root") ∷ (4, []) ∷ (7, codes "PASS admin") ∷ []

protocol_record_accepted_example :
    (r : SessionRecord) × (protocol_record (
        finalize_protocol 8 "disconnect"
          (log_lines telnet_lines (open_session "id" 2 client "telnet" "router")))
      ≡ some r)
    × (is_accepted is_client is_id r ≡ true)
protocol_record_accepted_example =
    protocol_record_accepted is_client is_id "id" client "telnet" "router" "disconnect" 2 8
      telnet_lines client-IsIdentified refl refl
      (omega arith, (omega arith, (omega arith, omega arith)))
