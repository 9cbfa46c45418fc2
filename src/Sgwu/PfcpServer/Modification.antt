-- ===== src/Sgwu/PfcpServer/Modification.antt =====
-- internal/sgwu/pfcpserver/server.go: the Session Modification Request.
use vectorcore_sgw.Common.{
  ℕ, not, ◌&&◌, none, some, List, [], ◌∷◌, ◌++◌, map, number_keys, text_keys, if◌then◌else◌,
}
use vectorcore_sgw.Common.Maps.{lookup}
use vectorcore_sgw.Common.Results.{ok, err}
use vectorcore_sgw.Pfcp.Ie.{Element}
use vectorcore_sgw.Pfcp.Header.{Header}
use vectorcore_sgw.Pfcp.Types.{
  cause_request_accepted, cause_request_rejected, cause_no_established_association,
  cause_rule_creation_failure,
}
use vectorcore_sgw.Pfcp.Values.{new_cause}
use vectorcore_sgw.Pfcp.Messages.{
  SessionModificationRequest, parse_session_modification_request, msg_session_modification_response,
}
use vectorcore_sgw.Sgwu.Session.{Pdr, Session, Heap, Store}
use vectorcore_sgw.Sgwu.PfcpServer.State.{
  Attempt, done, refused, panicked, waiting, ◌>>=◌, attempt, Config, Source, Server, Output, Ending,
  ended, crashed, unended, end_marker_to, set_at,
}
use vectorcore_sgw.Sgwu.PfcpServer.Rules.{
  RuleError, fast_path, no_local_ip, already_exists, parse_create_pdr, create_fars, has_pdr,
  remove_pdrs, remove_fars,
}
use vectorcore_sgw.Sgwu.PfcpServer.FarUpdates.{
  parse_update_fars, EndMarkerEvent, apply_far_updates_to_candidate,
}
use vectorcore_sgw.Sgwu.PfcpServer.Establish.{Draws, choose_fteid}
use vectorcore_sgw.Sgwu.PfcpServer.Answers.{session_header, answer, has_association, tracked}

module _ (cfg : Config) where
  abbrev pub refuse_modification : ℕ → ℕ → Output
  refuse_modification seq cause =
      answer (session_header msg_session_modification_response 0 seq) (new_cause cause ∷ [])

  -- One round over the Create PDRs of a modification.
  unfoldable pub add_pdr :
      Heap
      → Store
      → Element
      → List Pdr
      → Draws
      → Attempt RuleError (List Pdr × List Element × Draws)
  add_pdr heap store ie pdrs draws = do
    parsed ← attempt (parse_create_pdr ie)
    fresh ← if has_pdr parsed.0.id pdrs then refused (already_exists parsed.0.id) else done parsed.0
    r ←
        if parsed.1
        then choose_fteid (no_local_ip fresh.source_interface) cfg heap store fresh draws
        else done (fresh, [], draws)
    done (pdrs ++ (r.0 ∷ []), r.1, r.2)

  unfoldable pub add_pdrs :
      Heap → Store → List Element → List Pdr → Draws → Attempt RuleError (List Pdr × List Element)
  add_pdrs heap store [] pdrs draws = done (pdrs, [])
  add_pdrs heap store (ie ∷ ies) pdrs draws = do
    first ← add_pdr heap store ie pdrs draws
    rest ← add_pdrs heap store ies first.0 first.2
    done (rest.0, first.1 ++ rest.1)

  -- The candidate session, the Created PDRs and the End Markers.
  unfoldable pub apply_session_modification :
      Heap
      → Store
      → Session
      → SessionModificationRequest
      → Draws
      → Attempt RuleError (Session × List Element × List EndMarkerEvent)
  apply_session_modification heap store sess req draws = do
    more_fars ← attempt (create_fars req.create_fars sess.fars)
    added ← add_pdrs heap store req.create_pdrs sess.pdrs draws
    pdrs ← attempt (remove_pdrs req.remove_pdrs added.0)
    fars ← attempt (remove_fars req.remove_fars more_fars)
    updates ← attempt (parse_update_fars req.update_fars fars)
    changed ← attempt (apply_far_updates_to_candidate updates fars)
    let candidate = record sess { pdrs = pdrs; fars = changed.0 }
    if cfg.has_bpf && not (cfg.updates candidate)
        then refused fast_path
        else done (candidate, added.1, changed.1)

  abbrev end_markers : List EndMarkerEvent → List Output
  end_markers events =
      if cfg.sends_end_markers then map (λ ev. end_marker_to ev.teid ev.dst_ip) events else []

  -- After the request has been read and its session found.
  unfoldable pub modify :
      SessionModificationRequest → ℕ → Draws → Server → Ending (Server × List Output)
  unfolding apply_session_modification
  modify req r draws s = elim (apply_session_modification s.heap s.store (s.heap r) req draws) [
    | refused e ↦
        ended (s, refuse_modification req.header.sequence_number cause_rule_creation_failure ∷ [])
    | panicked ↦ crashed
    | waiting ↦ unended
    | done changed ↦ ended (
      record s { heap = set_at s.heap r changed.0 },
      tracked cfg changed.0.fars
          ++ (end_markers changed.2
              ++ (answer
                    (session_header msg_session_modification_response (s.heap r).cp_seid
                      req.header.sequence_number)
                    (new_cause cause_request_accepted ∷ changed.1)
                  ∷ [])),
    )
  ]

  unfoldable pub handle_session_modification :
      Source → Header → List ℕ → Draws → Server → Ending (Server × List Output)
  unfolding modify
  handle_session_modification src hdr raw draws s =
      if not (has_association src s)
      then ended (s, refuse_modification hdr.sequence_number cause_no_established_association ∷ [])
      else elim (parse_session_modification_request raw) [
        | err e ↦ ended (s, [])
        | ok req ↦ elim (lookup req.header.seid s.store.by_up_seid) [
          | none ↦
              ended (s, refuse_modification req.header.sequence_number cause_request_rejected ∷ [])
          | some r ↦ modify req r draws s
        ]
      ]
