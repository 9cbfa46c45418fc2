-- ===== src/Sgwu/PfcpServer/Association.antt =====
-- internal/sgwu/pfcpserver/server.go: associations with control planes: setup, heartbeat and release.
use Prim.Native.String.{◌++◌ as str_append}
use vectorcore_sgw.Common.{
  ℕ, ◌+◌, String, not, ◌&&◌, none, some, List, [], ◌∷◌, ◌++◌, number_keys, text_keys, ◌==◌, nat_beq,
  if◌then◌else◌,
}
use vectorcore_sgw.Common.Addr.{Addr}
use vectorcore_sgw.Common.Maps.{lookup, insert, delete}
use vectorcore_sgw.Common.Results.{ok, err}
use vectorcore_sgw.Pfcp.Ie.{Element}
use vectorcore_sgw.Pfcp.Header.{Header}
use vectorcore_sgw.Pfcp.Types.{cause_request_accepted, cause_request_rejected}
use vectorcore_sgw.Pfcp.Values.{
  new_cause, new_node_id_ipv4, node_id_ipv4, new_recovery_time_stamp, recovery_time_stamp_value,
  new_up_function_features,
}
use vectorcore_sgw.Pfcp.Messages.{
  AssociationSetupRequest, parse_association_setup_request, parse_heartbeat_request,
  parse_association_release_request, msg_heartbeat_response, msg_association_setup_response,
  msg_association_release_response,
}
use vectorcore_sgw.Sgwu.Session.{delete_by_cp_node_key}
use vectorcore_sgw.Sgwu.PfcpServer.State.{Config, Source, Server, Output, set_at}
use vectorcore_sgw.Sgwu.PfcpServer.Answers.{node_header, answer, source_key, removals}

-- `net.IP.String` of the bytes of an address is an argument.
module _ (cfg : Config) (ip_text : Addr → String) where
  -- `nodeIDKey` where there is a Node ID
  abbrev pub node_id_key : Element → String
  node_id_key ie = elim (node_id_ipv4 ie) [ none ↦ "" | some ip ↦ str_append "ipv4:" (ip_text ip) ]

  abbrev pub cp_node_key : Element → Source → String
  cp_node_key ie src = if node_id_key ie == "" then source_key src else node_id_key ie

  abbrev setup_answer : ℕ → ℕ → List Element → Output
  setup_answer seq cause more = answer (node_header msg_association_setup_response seq) (
      new_node_id_ipv4 cfg.local_node_id
      ∷ new_cause cause
      ∷ new_recovery_time_stamp cfg.local_ts
      ∷ more)

  -- The peer's record, old or new, under its key and under that of the source.
  unfoldable pub associate : Source → String → ℕ → ℕ → Server → Server
  associate src peer_key peer_ts now s = elim (lookup peer_key s.peers) [
    | some r ↦ record s {
      peer_at =
          set_at s.peer_at r
            (record (s.peer_at r) { recovery_ts = peer_ts; last_seen = now; last_addr = src.text });
      peers = if source_key src == peer_key then s.peers else insert (source_key src) r s.peers;
    }
    | none ↦
        let r = s.next_peer in
        let keyed = insert peer_key r s.peers in
        record s {
          peer_at = set_at s.peer_at r (record {
            node_id_key = peer_key;
            recovery_ts = peer_ts;
            last_seen = now;
            last_addr = src.text;
          });
          next_peer = r + 1;
          peers = if source_key src == peer_key then keyed else insert (source_key src) r keyed;
        }
  ]

  abbrev stamp_of : Element → ℕ
  stamp_of ie = elim (recovery_time_stamp_value ie) [ ok t ↦ t | err e ↦ 0 ]

  abbrev setup_key : AssociationSetupRequest → Source → String
  setup_key req src =
      if node_id_key req.node_id == "" then str_append "addr:" src.text else node_id_key req.node_id

  unfoldable pub handle_assoc_setup : Source → Header → List ℕ → ℕ → Server → Server × List Output
  unfolding associate
  handle_assoc_setup src hdr raw now s = elim (parse_association_setup_request raw) [
    | err e ↦ (s, setup_answer hdr.sequence_number cause_request_rejected [] ∷ [])
    | ok req ↦ (
      associate src (setup_key req src) (stamp_of req.recovery_time_stamp) now s,
      setup_answer req.header.sequence_number cause_request_accepted
            (new_up_function_features 0x10 ∷ [])
          ∷ [],
    )
  ]

  unfoldable pub delete_peer_sessions : String → Server → Server × List Output
  delete_peer_sessions key s =
      let r = delete_by_cp_node_key s.heap key s.store in
      (record s { store = r.1 }, removals cfg r.0)

  -- What a Heartbeat Request does to the record of its source.
  unfoldable pub heard : Source → ℕ → ℕ → Server → Server × List Output
  unfolding delete_peer_sessions
  heard src peer_ts now s = elim (lookup (source_key src) s.peers) [
    | none ↦ (s, [])
    | some r ↦
        let old = (s.peer_at r).recovery_ts in
        let after =
          if not (nat_beq old 0) && not (nat_beq peer_ts old)
          then delete_peer_sessions (source_key src) s
          else (s, []) in
        (
          record after.0 {
            peer_at =
                set_at after.0.peer_at r
                  (record (after.0.peer_at r) { recovery_ts = peer_ts; last_seen = now });
          },
          after.1,
        )
  ]

  unfoldable pub handle_heartbeat : Source → List ℕ → ℕ → Server → Server × List Output
  unfolding heard
  handle_heartbeat src raw now s = elim (parse_heartbeat_request raw) [
    | err e ↦ (s, [])
    | ok req ↦
        let after = heard src (stamp_of req.recovery_time_stamp) now s in
        (
          after.0,
          after.1
              ++ (answer (node_header msg_heartbeat_response req.header.sequence_number)
                    (new_recovery_time_stamp cfg.local_ts ∷ [])
                  ∷ []),
        )
  ]

  unfoldable pub handle_association_release : Source → List ℕ → Server → Server × List Output
  unfolding delete_peer_sessions
  handle_association_release src raw s = elim (parse_association_release_request raw) [
    | err e ↦ (s, [])
    | ok req ↦
        let key = cp_node_key req.node_id src in
        let after = delete_peer_sessions key s in
        (
          record after.0 { peers = delete key s.peers },
          after.1
              ++ (answer (node_header msg_association_release_response req.header.sequence_number)
                    (new_node_id_ipv4 cfg.local_node_id ∷ new_cause cause_request_accepted ∷ [])
                  ∷ []),
        )
  ]
