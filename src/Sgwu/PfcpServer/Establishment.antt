-- ===== src/Sgwu/PfcpServer/Establishment.antt =====
-- internal/sgwu/pfcpserver/server.go: the Session Establishment Request.
use vectorcore_sgw.Common.{
  ℕ, ◌+◌, not, ◌&&◌, none, some, List, [], ◌∷◌, ◌++◌, number_keys, text_keys, if◌then◌else◌,
}
use vectorcore_sgw.Common.Results.{ok, err}
use vectorcore_sgw.Pfcp.Ie.{Element}
use vectorcore_sgw.Pfcp.Header.{Header}
use vectorcore_sgw.Pfcp.Types.{
  cause_request_accepted, cause_request_rejected, cause_no_established_association,
  cause_rule_creation_failure,
}
use vectorcore_sgw.Pfcp.Values.{Fseid, new_cause, new_node_id_ipv4, new_fseid, fseid_value}
use vectorcore_sgw.Pfcp.Messages.{
  SessionEstablishmentRequest, parse_session_establishment_request,
  msg_session_establishment_response,
}
use vectorcore_sgw.Sgwu.Session.{
  Pdr, Far, Session, Heap, Store, alloc_seid, create, delete_by_cp_seid,
}
use vectorcore_sgw.Sgwu.PfcpServer.State.{
  Attempt, done, refused, panicked, waiting, ◌>>=◌, Config, Source, Server, Output, Ending, ended,
  crashed, unended, set_at,
}
use vectorcore_sgw.Sgwu.PfcpServer.Establish.{
  Refusal, request_rejected, rule_failure, Draws, validate_all, validate_create_pdr,
  validate_create_far, build_pdrs, build_fars,
}
use vectorcore_sgw.Sgwu.PfcpServer.Answers.{
  session_header, answer, source_key, has_association, tracked,
}

module _ (cfg : Config) where
  -- The three refusals of an establishment.
  abbrev pub refuse_establishment : ℕ → ℕ → Output
  refuse_establishment seq cause =
      answer (session_header msg_session_establishment_response 0 seq)
        (new_node_id_ipv4 cfg.local_node_id ∷ new_cause cause ∷ [])

  abbrev pub cause_of : Refusal → ℕ
  cause_of request_rejected = cause_request_rejected
  cause_of rule_failure = cause_rule_creation_failure

  -- The rules of a session, all checked before the first is made.
  unfoldable pub establish_rules :
      Heap
      → Store
      → SessionEstablishmentRequest
      → Draws
      → Attempt Refusal (List Pdr × List Element × List Far)
  establish_rules heap store req draws = do
    u ← validate_all validate_create_pdr req.create_pdrs
    v ← validate_all validate_create_far req.create_fars
    pdrs ← build_pdrs cfg heap store req.create_pdrs draws
    fars ← build_fars req.create_fars
    done (pdrs.0, pdrs.1, fars)

  -- The answer to an established session.
  abbrev pub accept_establishment : ℕ → ℕ → Element → List Element → Output
  accept_establishment cp_seid seq up_fseid created =
      answer (session_header msg_session_establishment_response cp_seid seq)
        (new_node_id_ipv4 cfg.local_node_id ∷ new_cause cause_request_accepted ∷ up_fseid ∷ created)

  -- The session stored, its rules installed, and the answer.
  unfoldable pub commit : ℕ → ℕ → Session → List Element → Server → Ending (Server × List Output)
  commit hdr_seq seq sess created s =
      let r = s.next_session in
      let heap = set_at s.heap r sess in
      elim (create heap r s.store) [
        | err e ↦ ended (s, refuse_establishment hdr_seq cause_request_rejected ∷ [])
        | ok store ↦
            let stored = record s { heap = heap; next_session = r + 1; store = store } in
            if cfg.has_bpf && not (cfg.installs sess)
            then ended (
              record stored { store = delete_by_cp_seid heap sess.cp_seid store },
              refuse_establishment hdr_seq cause_rule_creation_failure ∷ [],
            )
            else elim (new_fseid sess.up_seid cfg.local_ip) [
              | none ↦ crashed
              | some up_fseid ↦ ended (
                stored,
                tracked cfg sess.fars
                    ++ (accept_establishment sess.cp_seid seq up_fseid created ∷ []),
              )
            ]
      ]

  abbrev pub new_session : Source → Fseid → ℕ → List Pdr → List Far → Session
  new_session src fseid up_seid pdrs fars = record {
    cp_seid = fseid.seid;
    up_seid = up_seid;
    cp_node_key = source_key src;
    pdrs = pdrs;
    fars = fars;
  }

  -- After the request has been read and a UP-SEID allocated.
  unfoldable pub establish :
      Source
      → ℕ
      → SessionEstablishmentRequest
      → Fseid
      → ℕ
      → Draws
      → Server
      → Ending (Server × List Output)
  unfolding establish_rules commit
  establish src hdr_seq req fseid up_seid draws s =
      elim (establish_rules s.heap s.store req draws) [
        | refused e ↦ ended (s, refuse_establishment hdr_seq (cause_of e) ∷ [])
        | panicked ↦ crashed
        | waiting ↦ unended
        | done rules ↦
            commit hdr_seq req.header.sequence_number
              (new_session src fseid up_seid rules.0 rules.2) rules.1 s
      ]

  unfoldable pub handle_session_establishment :
      Source → Header → List ℕ → Draws → Server → Ending (Server × List Output)
  unfolding establish
  handle_session_establishment src hdr raw draws s =
      let rejected =
        ended (s, refuse_establishment hdr.sequence_number cause_request_rejected ∷ []) in
      if not (has_association src s)
      then ended (s, refuse_establishment hdr.sequence_number cause_no_established_association ∷ [])
      else elim (parse_session_establishment_request raw) [
        | err e ↦ rejected
        | ok req ↦ elim (fseid_value req.cp_seid) [
          | err e ↦ rejected
          | ok fseid ↦
              let next = alloc_seid s.store in
              establish src hdr.sequence_number req fseid next.1 draws (record s { store = next.0 })
        ]
      ]
