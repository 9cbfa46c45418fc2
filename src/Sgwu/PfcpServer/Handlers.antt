-- ===== src/Sgwu/PfcpServer/Handlers.antt =====
-- internal/sgwu/pfcpserver/server.go: the Session Deletion Request, and the dispatch on the type of a
-- message.
use vectorcore_sgw.Common.{
  ℕ, String, not, none, some, List, [], ◌∷◌, ◌++◌, number_keys, text_keys, nat_beq, if◌then◌else◌,
}
use vectorcore_sgw.Common.Addr.{Addr}
use vectorcore_sgw.Common.Maps.{lookup}
use vectorcore_sgw.Common.Results.{ok, err}
use vectorcore_sgw.Pfcp.Header.{Header}
use vectorcore_sgw.Pfcp.Types.{
  cause_request_accepted, cause_request_rejected, cause_no_established_association,
}
use vectorcore_sgw.Pfcp.Values.{new_cause}
use vectorcore_sgw.Pfcp.Messages.{
  parse_session_deletion_request, msg_heartbeat_request, msg_association_setup_request,
  msg_association_release_request, msg_session_establishment_request,
  msg_session_modification_request, msg_session_deletion_request, msg_session_deletion_response,
}
use vectorcore_sgw.Sgwu.Session.{delete_by_up_seid}
use vectorcore_sgw.Sgwu.PfcpServer.State.{Config, Source, Server, Output, Ending, ended, is_allowed}
use vectorcore_sgw.Sgwu.PfcpServer.Establish.{Draws}
use vectorcore_sgw.Sgwu.PfcpServer.Answers.{session_header, answer, has_association, removals}
use vectorcore_sgw.Sgwu.PfcpServer.Association.{
  handle_assoc_setup, handle_heartbeat, handle_association_release,
}
use vectorcore_sgw.Sgwu.PfcpServer.Establishment.{handle_session_establishment}
use vectorcore_sgw.Sgwu.PfcpServer.Modification.{handle_session_modification}

-- `net.IP.String` of the bytes of an address is an argument.
module _ (cfg : Config) (ip_text : Addr → String) where
  abbrev pub deletion_answer : ℕ → ℕ → ℕ → Output
  deletion_answer seid seq cause =
      answer (session_header msg_session_deletion_response seid seq) (new_cause cause ∷ [])

  unfoldable pub handle_session_deletion : Source → Header → List ℕ → Server → Server × List Output
  handle_session_deletion src hdr raw s =
      if not (has_association src s)
      then (s, deletion_answer 0 hdr.sequence_number cause_no_established_association ∷ [])
      else elim (parse_session_deletion_request raw) [
        | err e ↦ (s, [])
        | ok req ↦ elim (lookup req.seid s.store.by_up_seid) [
          | none ↦ (s, deletion_answer 0 req.sequence_number cause_request_rejected ∷ [])
          | some r ↦ (
            record s { store = delete_by_up_seid s.heap req.seid s.store },
            removals cfg (r ∷ [])
                ++ (deletion_answer (s.heap r).cp_seid req.sequence_number cause_request_accepted
                    ∷ []),
          )
        ]
      ]

  -- `handle`: the dispatch on the message type. `now` is `time.Now()`.
  unfoldable pub handle :
      Source → Header → List ℕ → Draws → ℕ → Server → Ending (Server × List Output)
  handle src hdr raw draws now s =
      if not (is_allowed cfg src.ip)
      then ended (s, [])
      else if nat_beq hdr.message_type msg_association_setup_request
      then ended (handle_assoc_setup cfg ip_text src hdr raw now s)
      else if nat_beq hdr.message_type msg_heartbeat_request
      then ended (handle_heartbeat cfg ip_text src raw now s)
      else if nat_beq hdr.message_type msg_session_establishment_request
      then handle_session_establishment cfg src hdr raw draws s
      else if nat_beq hdr.message_type msg_session_modification_request
      then handle_session_modification cfg src hdr raw draws s
      else if nat_beq hdr.message_type msg_session_deletion_request
      then ended (handle_session_deletion src hdr raw s)
      else if nat_beq hdr.message_type msg_association_release_request
      then ended (handle_association_release cfg ip_text src raw s)
      else ended (s, [])
