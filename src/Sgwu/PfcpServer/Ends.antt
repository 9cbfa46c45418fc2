-- ===== src/Sgwu/PfcpServer/Ends.antt =====
-- internal/sgwu/pfcpserver/server.go: the Session Establishment Requests that are answered.
use vectorcore_sgw.Common.{◌≡◌, List}
use vectorcore_sgw.Pfcp.Header.{Header}
use vectorcore_sgw.Sgwu.Session.{Session}
use vectorcore_sgw.Sgwu.PfcpServer.State.{Ending, ended, Server, Output}
use vectorcore_sgw.Sgwu.PfcpServer.Settles.{Settles}

-- The message has been dealt with.
abbrev Ends : Ending (Server × List Output) → Type 0
Ends e = (r : Server × List Output) × (e ≡ ended r)
