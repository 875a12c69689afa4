-- ===== src/Session.antt =====
-- classifier/schemas/session.py: the record of a finished session, and what is checked of it.
-- Times are whole microseconds. The texts of records are valid Unicode.
pub mod Protocol
pub mod Shell
pub mod Accepted
pub mod ShellRecord
pub mod ProtocolRecord
mod Tests
use echidra_oss.Base.{
  nonempty, ℕ, ◌+◌, ◌-◌, String, List, [], ◌∷◌, Bool, true, false, not, ◌&&◌, ◌||◌, Option, none,
  some, if◌then◌else◌, str_eq, any, all, length, leb, ltb, ◌==◌, is_some,
}
use echidra_oss.Base.Text.{Text, codes, text_eq}

-- `CommandEvent`
pub record CommandEvent : Type 0 where
  pub cmd : Text
  pub timestamp : ℕ

-- `SessionRecord`; of the coordinates only whether they are given.
pub record SessionRecord : Type 0 where
  pub schema_version : ℕ
  pub session_id : String
  pub protocol : String
  pub peer_ip : Option String
  pub peer_port : Option ℕ
  pub has_latitude : Bool
  pub has_longitude : Bool
  pub persona_id : String
  pub started_at : ℕ
  pub ended_at : ℕ
  pub duration_seconds : ℕ
  pub end_reason : String
  pub command_count : ℕ
  pub commands : List CommandEvent
  pub decoy_files_surfaced : List String
  pub client_version : Option String
  pub end_stage : Option String
  pub end_error : Option String

abbrev pub protocols : List String
protocols = "tcp_shell" ∷ "http" ∷ "ftp" ∷ "telnet" ∷ []

abbrev pub end_reasons : List String
end_reasons = "logout" ∷ "timeout" ∷ "disconnect" ∷ "shutdown" ∷ "error" ∷ []

-- `SshEndStage`
abbrev pub ssh_end_stages : List String
ssh_end_stages =
    "no_version" ∷ "not_ssh" ∷ "key_exchange_failed" ∷ "before_auth" ∷ "auth_without_password"
    ∷ "after_password" ∷ "shell" ∷ []

abbrev pub one_of : List String → String → Bool
one_of names name = any (str_eq name) names

-- What holds of an optional field, where it is set.
abbrev pub if_set {ℓ} : {A : Type ℓ} → (A → Bool) → Option A → Bool
if_set test none = true
if_set test (some a) = test a

abbrev pub is_port : ℕ → Bool
is_port port = leb 1 port && leb port 65535

-- The parts of a path: the texts between slashes, with the one begun so far in reverse.
abbrev pub starts_at_root : Text → Bool
starts_at_root [] = false
starts_at_root (c ∷ path) = c == b'/'

abbrev pub is_parent : Text → Bool
is_parent part = text_eq part (b'.' ∷ b'.' ∷ [])

unfoldable pub has_parent_from : Text → Text → Bool
has_parent_from part [] = is_parent part
has_parent_from part (c ∷ path) =
    let rest = has_parent_from [] path in
    let longer = has_parent_from (c ∷ part) path in
    if c == b'/' then is_parent part || rest else longer

-- `path.startswith("/") and ".." not in PurePosixPath(path).parts`
unfoldable pub is_safe_path : String → Bool
is_safe_path path = starts_at_root (codes path) && not (has_parent_from [] (codes path))

-- `len(paths) == len(set(paths))`
unfoldable pub are_distinct : List String → Bool
are_distinct [] = true
are_distinct (path ∷ paths) = not (one_of paths path) && are_distinct paths

abbrev pub not_before : Option ℕ → ℕ → Bool
not_before none time = true
not_before (some previous) time = leb previous time

-- The loop over the commands, with the time of the command before.
unfoldable pub commands_fit : ℕ → ℕ → Option ℕ → List CommandEvent → Bool
commands_fit started ended previous [] = true
commands_fit started ended previous (c ∷ commands) =
    leb started c.timestamp
    && leb c.timestamp ended
    && not_before previous c.timestamp
    && commands_fit started ended (some c.timestamp) commands

-- `abs(a - b) <= 1e-6`: at most one microsecond.
abbrev pub is_near : ℕ → ℕ → Bool
is_near a b = leb a (b + 1) && leb b (a + 1)

abbrev pub both_or_none : Bool → Bool → Bool
both_or_none true b = b
both_or_none false b = not b

-- `validate_session_consistency`: whether the record is accepted.
unfoldable pub is_consistent : SessionRecord → Bool
is_consistent r =
    both_or_none r.has_latitude r.has_longitude
    && leb r.started_at r.ended_at
    && is_near r.duration_seconds (r.ended_at - r.started_at)
    && commands_fit r.started_at r.ended_at none r.commands
    && r.command_count == length r.commands
    && are_distinct r.decoy_files_surfaced
    && all is_safe_path r.decoy_files_surfaced

abbrev pub has_text : CommandEvent → Bool
has_text c = nonempty c.cmd

-- `SessionRecord.model_validate`. The tests for addresses and for UUIDs are the schema library's.
unfoldable pub is_accepted : (String → Bool) → (String → Bool) → SessionRecord → Bool
is_accepted is_ip is_uuid r =
    r.schema_version == 1
    && is_uuid r.session_id
    && one_of protocols r.protocol
    && if_set is_ip r.peer_ip
    && if_set is_port r.peer_port
    && not (str_eq r.persona_id "")
    && one_of end_reasons r.end_reason
    && all has_text r.commands
    && if_set (λ s. leb (length (codes s)) 255) r.client_version
    && if_set (one_of ssh_end_stages) r.end_stage
    && if_set (λ s. leb (length (codes s)) 1000) r.end_error
    && is_consistent r

-- What a connection has as its peer: nothing, a tuple of a host and a port, a shorter tuple, or
-- another value, by its text.
pub data Peer : Type 0 where
  no_peer empty_tuple : Peer
  host_only other_value : String → Peer
  host_port : String → ℕ → Peer

abbrev pub peer_ip_of : Peer → Option String
peer_ip_of no_peer = none
peer_ip_of empty_tuple = none
peer_ip_of (host_only host) = some host
peer_ip_of (other_value value) = some value
peer_ip_of (host_port host port) = some host

abbrev pub peer_port_of : Peer → Option ℕ
peer_port_of (host_port host port) = some port
peer_port_of _ = none
