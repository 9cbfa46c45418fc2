-- ===== src/Sgwu/PfcpServer/Runs.antt =====
-- A concrete server of internal/sgwu/pfcpserver with one control plane, and the theorems at it.
use vectorcore_sgw.Common.{refl, [], ◌∷◌, arith, number_keys, text_keys}
use vectorcore_sgw.Common.Addr.{ip4}
use vectorcore_sgw.Pfcp.Ie.{new_grouped}
use vectorcore_sgw.Pfcp.Types.{type_create_pdr, type_pdi, type_remove_far, type_fteid}
use vectorcore_sgw.Pfcp.Values.{
  new_node_id_ipv4, new_pdr_id, new_far_id, new_precedence, new_source_interface, one_byte,
}
use vectorcore_sgw.Pfcp.Messages.{SessionEstablishmentRequest, SessionModificationRequest}
use vectorcore_sgw.Sgwu.PfcpServer.State.{Gives}
use vectorcore_sgw.Sgwu.PfcpServer.Modification.{apply_session_modification}
use vectorcore_sgw.Sgwu.PfcpServer.Known.{IsSound}
use vectorcore_sgw.Sgwu.PfcpServer.Sound.{Serving, opened, handled, Serving-IsSound}
use vectorcore_sgw.Sgwu.PfcpServer.Outcome.{Outcome}
use vectorcore_sgw.Sgwu.PfcpServer.Identifiers.{
  UniqueCandidate, apply_session_modification-UniqueCandidate,
}
use vectorcore_sgw.Sgwu.PfcpServer.Sample.{
  config, text_of, source, no_session, no_peer, setup_header, setup_bytes, with_peer, associated,
  create_pdr, create_far, establishment_header, cp_fseid, establishment, draws, with_session,
  established,
}

with_peer-Serving : Serving config text_of with_peer
with_peer-Serving =
    handled source setup_header setup_bytes [] 20 (opened (λ r. no_session) (λ r. no_peer))
      (omega arith) associated

with_session-Serving : Serving config text_of with_session
with_session-Serving =
    handled source establishment_header (establishment create_pdr) draws 21 with_peer-Serving
      (omega arith) established

Serving-IsSound_example : IsSound with_session
Serving-IsSound_example = Serving-IsSound config text_of with_session-Serving

abbrev request : SessionEstablishmentRequest
request = record {
  header = record establishment_header { len = 104 };
  node_id = new_node_id_ipv4 (ip4 10 0 0 2);
  cp_seid = cp_fseid;
  create_pdrs = create_pdr ∷ [];
  create_fars = create_far ∷ [];
}

-- A second PDR for the session, and no FAR any more.
abbrev modification : SessionModificationRequest
modification = record {
  header = record establishment_header { message_type = 52; seid = 1; sequence_number = 9 };
  update_fars = [];
  create_pdrs =
      new_grouped type_create_pdr (
        new_pdr_id 2
        ∷ new_precedence 50
        ∷ new_grouped type_pdi (new_source_interface 1 ∷ one_byte type_fteid 0x05 ∷ [])
        ∷ new_far_id 2
        ∷ [])
      ∷ [];
  create_fars = [];
  remove_pdrs = [];
  remove_fars = new_grouped type_remove_far (new_far_id 1 ∷ []) ∷ [];
}

apply_session_modification-UniqueCandidate_example :
    Gives (UniqueCandidate config with_session.heap with_session.store) (
      apply_session_modification config with_session.heap with_session.store
        (with_session.heap 0)
        modification
        ((78 ∷ []) ∷ []))
apply_session_modification-UniqueCandidate_example =
    apply_session_modification-UniqueCandidate config with_session.heap with_session.store
      (with_session.heap 0) modification ((78 ∷ []) ∷ []) ((refl, tt), (refl, tt))
