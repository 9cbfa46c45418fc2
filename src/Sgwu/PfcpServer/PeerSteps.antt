-- ===== src/Sgwu/PfcpServer/PeerSteps.antt =====
-- internal/sgwu/pfcpserver/server.go: the session store over the messages of the association.
use vectorcore_sgw.Common.{
  ℕ, refl, String, not, ◌&&◌, List, inl, inr, Bool-cases, Option-cases, number_keys, text_keys,
  nat_beq,
}
use vectorcore_sgw.Common.Addr.{Addr}
use vectorcore_sgw.Common.Maps.{lookup}
use vectorcore_sgw.Common.Results.{Result-cases}
use vectorcore_sgw.Pfcp.Header.{Header}
use vectorcore_sgw.Pfcp.Messages.{
  parse_association_setup_request, parse_heartbeat_request, parse_association_release_request,
}
use vectorcore_sgw.Sgwu.PfcpServer.State.{Config, Source, Server}
use vectorcore_sgw.Sgwu.PfcpServer.Answers.{source_key}
use vectorcore_sgw.Sgwu.PfcpServer.Association.{
  associate, handle_assoc_setup, delete_peer_sessions, heard, handle_heartbeat,
  handle_association_release, cp_node_key,
}
use vectorcore_sgw.Sgwu.PfcpServer.Invariant.{same_sessions, deleted_by_node-IsSound}
use vectorcore_sgw.Sgwu.PfcpServer.Known.{IsSound}

module _ (cfg : Config) (ip_text : Addr → String) where
  associate-IsSound :
      (src : Source) (key : String) (ts now : ℕ) (s : Server)
      → IsSound s
      → IsSound (associate cfg ip_text src key ts now s)
  unfolding associate
  associate-IsSound src key ts now s h = elim (Option-cases (lookup key s.peers)) [
    | inl new ↦ rw (new, associate) (same_sessions s _ refl refl refl h)
    | inr old ↦ rw (old.1, associate) (same_sessions s _ refl refl refl h)
  ]

  pub assoc_setup-IsSound :
      (src : Source) (hdr : Header) (raw : List ℕ) (now : ℕ) (s : Server)
      → IsSound s
      → IsSound (handle_assoc_setup cfg ip_text src hdr raw now s).0
  unfolding handle_assoc_setup
  assoc_setup-IsSound src hdr raw now s h =
      elim (Result-cases (parse_association_setup_request raw)) [
        | inr bad ↦ rw (bad.1, handle_assoc_setup) h
        | inl req ↦ rw (req.1, handle_assoc_setup) (associate-IsSound src _ _ now s h)
      ]

  peer_sessions-IsSound :
      (key : String) (s : Server) → IsSound s → IsSound (delete_peer_sessions cfg ip_text key s).0
  unfolding delete_peer_sessions
  peer_sessions-IsSound key s h = deleted_by_node-IsSound s key h

  heard-IsSound :
      (src : Source) (ts now : ℕ) (s : Server)
      → IsSound s
      → IsSound (heard cfg ip_text src ts now s).0
  unfolding heard
  heard-IsSound src ts now s h = elim (Option-cases (lookup (source_key src) s.peers)) [
    | inl new ↦ rw (new, heard) h
    | inr old ↦
        let before = (s.peer_at old.0).recovery_ts in
        elim (Bool-cases (not (nat_beq before 0) && not (nat_beq ts before))) [
          | inl restarted ↦
              rw (old.1, heard, restarted)
                (same_sessions (delete_peer_sessions cfg ip_text (source_key src) s).0 _ refl refl
                  refl (peer_sessions-IsSound (source_key src) s h))
          | inr steady ↦ rw (old.1, heard, steady) (same_sessions s _ refl refl refl h)
        ]
  ]

  pub heartbeat-IsSound :
      (src : Source) (raw : List ℕ) (now : ℕ) (s : Server)
      → IsSound s
      → IsSound (handle_heartbeat cfg ip_text src raw now s).0
  unfolding handle_heartbeat
  heartbeat-IsSound src raw now s h = elim (Result-cases (parse_heartbeat_request raw)) [
    | inr bad ↦ rw (bad.1, handle_heartbeat) h
    | inl req ↦ rw (req.1, handle_heartbeat) (heard-IsSound src _ now s h)
  ]

  pub release-IsSound :
      (src : Source) (raw : List ℕ) (s : Server)
      → IsSound s
      → IsSound (handle_association_release cfg ip_text src raw s).0
  unfolding handle_association_release
  release-IsSound src raw s h = elim (Result-cases (parse_association_release_request raw)) [
    | inr bad ↦ rw (bad.1, handle_association_release) h
    | inl req ↦
        rw (req.1, handle_association_release)
          (same_sessions
            (delete_peer_sessions cfg ip_text (cp_node_key cfg ip_text req.0.node_id src) s).0 _
            refl refl refl (peer_sessions-IsSound _ s h))
  ]
