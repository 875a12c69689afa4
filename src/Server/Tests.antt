-- ===== src/Server/Tests.antt =====
-- The theorem on servers at a concrete run.
use echidra_oss.Base.{true}
use echidra_oss.Server.{ProtocolServer, new_server, handle_client, discard}
use echidra_oss.Server.Limit.{Step, Reachable, IsWithin, Reachable-IsWithin}

-- Two clients come to a server for one connection; the first leaves.
abbrev busy_server : ProtocolServer
busy_server = discard 0 (handle_client 1 true (handle_client 1 true new_server))

two_clients : Reachable 1 busy_server
two_clients =
    Reachable.steps
      (Reachable.steps (Reachable.steps Reachable.starts (Step.connects true new_server))
        (Step.connects true (handle_client 1 true new_server)))
      (Step.ends 0 (handle_client 1 true (handle_client 1 true new_server)))

Reachable-IsWithin_example : IsWithin 1 busy_server
Reachable-IsWithin_example = Reachable-IsWithin 1 two_clients
