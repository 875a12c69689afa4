-- ===== src/Server.antt =====
-- honeypot/network/protocol_server.py: which connections get a handler. Tasks are numbered in the
-- order of their creation; listening and cancelling are the event loop's.
pub mod Limit
mod Tests
use echidra_oss.Base.{
  ℕ, ◌+◌, List, [], ◌∷◌, Bool, true, false, not, if◌then◌else◌, leb, ◌==◌, length, keep,
}

-- The set `self.tasks`, the number of the next task, and the connections closed without a handler.
pub record ProtocolServer : Type 0 where
  pub tasks : List ℕ
  pub next_task : ℕ
  pub closed : ℕ

abbrev pub new_server : ProtocolServer
new_server = record { tasks = []; next_task = 0; closed = 0 }

-- `max_connections`, its default
abbrev pub max_connections : ℕ
max_connections = 100

abbrev pub close_connection : ProtocolServer → ProtocolServer
close_connection s = record s { closed = s.closed + 1 }

abbrev pub start_task : ProtocolServer → ProtocolServer
start_task s = record s { tasks = s.next_task ∷ s.tasks; next_task = s.next_task + 1 }

-- `_handle_client`; `constructs` says whether the handler could be made.
unfoldable pub handle_client : ℕ → Bool → ProtocolServer → ProtocolServer
handle_client limit constructs s =
    if leb limit (length s.tasks)
    then close_connection s
    else if constructs
    then start_task s
    else close_connection s

-- `self.tasks.discard`, the callback of a finished task.
unfoldable pub discard : ℕ → ProtocolServer → ProtocolServer
discard task s = record s { tasks = keep (λ t. not (t == task)) s.tasks }
