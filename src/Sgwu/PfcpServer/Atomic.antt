-- ===== src/Sgwu/PfcpServer/Atomic.antt =====
-- internal/sgwu/pfcpserver/server.go: a Session Establishment Request is carried out in full or not at
-- all.
use vectorcore_sgw.Common.{All, length, ℕ, ◌≡◌, List, number_keys}
use vectorcore_sgw.Common.Results.{ok}
use vectorcore_sgw.Pfcp.Header.{Header}
use vectorcore_sgw.Pfcp.Ie.{Element}
use vectorcore_sgw.Pfcp.Values.{Fseid, fseid_value}
use vectorcore_sgw.Pfcp.Messages.{SessionEstablishmentRequest, parse_session_establishment_request}
use vectorcore_sgw.Sgwu.Session.{Session, alloc_seid}
use vectorcore_sgw.Sgwu.PfcpServer.State.{Config, Server}
use vectorcore_sgw.Sgwu.PfcpServer.Establish.{Draws}
use vectorcore_sgw.Sgwu.PfcpServer.BuiltFars.{RulesOf}
use vectorcore_sgw.Sgwu.PfcpServer.Total.{HasIp4, NamesFar, Serve}
use vectorcore_sgw.Sgwu.PfcpServer.Outcome.{Outcome}

module _ (cfg : Config) where
  -- The session and the Created PDR elements are those that the request in the bytes describes: the
  -- CP-SEID of its CP F-SEID, a PDR for each Create PDR and a FAR for each Create FAR, in their order,
  -- with TEIDs that no session had where they were to be chosen.
  pub record RequestedBy (raw : List ℕ) (s : Server) (sess : Session) (created : List Element)
      : Type 0 where
    pub req : SessionEstablishmentRequest
    pub request_read : parse_session_establishment_request raw ≡ ok req
    pub fseid : Fseid
    pub fseid_read : fseid_value req.cp_seid ≡ ok fseid
    pub cp_seid : sess.cp_seid ≡ fseid.seid
    pub rules : RulesOf s.heap (alloc_seid s.store).0 req (sess.pdrs, created, sess.fars)

  -- A message that the server can deal with: it has IPv4 addresses, and if the bytes are a request, then
  -- each of its Create PDRs names its FAR, and each call of AllocTEID finds a number that serves.
  pub record IsServed (raw : List ℕ) (draws : Draws) (s : Server) : Type 0 where
    pub addresses : HasIp4 cfg
    pub names_fars :
        (req : SessionEstablishmentRequest)
        → parse_session_establishment_request raw ≡ ok req
        → All NamesFar req.create_pdrs
    pub serves :
        (req : SessionEstablishmentRequest)
        → parse_session_establishment_request raw ≡ ok req
        → Serve cfg s.heap (alloc_seid s.store).0 (length req.create_pdrs) draws
