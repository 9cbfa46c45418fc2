-- ===== src/Sgwu/PfcpServer/Sample.antt =====
-- A concrete server of internal/sgwu/pfcpserver with one control plane, and what it does with some messages.
use vectorcore_sgw.Common.{ℕ, ◌≡◌, refl, String, true, false, List, [], ◌∷◌, number_keys, text_keys}
use vectorcore_sgw.Common.Addr.{Addr, no_addr, ip4}
use vectorcore_sgw.Common.Maps.{lookup, insert}
use vectorcore_sgw.Pfcp.Ie.{
  Element, marshal, marshal_all, parse_ies, find, find_all, children, new_grouped,
}
use vectorcore_sgw.Pfcp.Header.{
  Header, marshal_message, marshal_session_header, parse, parse_header, marshal_header, bound_body,
  read_node, read_session,
}
use vectorcore_sgw.Pfcp.Types.{
  type_create_pdr, type_pdi, type_create_far, type_forwarding_parameters, type_fteid, type_fseid,
  type_activate_predefined_rules,
}
use vectorcore_sgw.Pfcp.Values.{
  new_node_id_ipv4, node_id_ipv4, new_recovery_time_stamp, recovery_time_stamp_value, new_fseid,
  fseid_value, new_fteid_v4, fteid_pfcp_value, new_pdr_id, pdr_id_value, new_far_id, far_id_value,
  new_precedence, new_source_interface, source_interface_value, new_destination_interface,
  destination_interface_value, new_apply_action, apply_action_value, new_created_pdr, one_byte,
}
use vectorcore_sgw.Pfcp.Messages.{
  parse_association_setup_request, parse_session_establishment_request, find_last,
}
use vectorcore_sgw.Sgwu.Session.{
  Session, Pdr, Far, drop_none, new_store, alloc_seid, create, alloc_teid, local_teid_in_use,
}
use vectorcore_sgw.Sgwu.PfcpServer.State.{
  PeerRecord, Config, Source, Server, Output, ended, crashed, set_at,
}
use vectorcore_sgw.Sgwu.PfcpServer.Establish.{
  Draws, validate_all, validate_create_pdr, validate_create_far, choose_fteid, build_pdr,
  build_pdrs, build_far, build_fars, local_gtpu_ip_for_source,
}
use vectorcore_sgw.Sgwu.PfcpServer.Answers.{path_peers}
use vectorcore_sgw.Sgwu.PfcpServer.Association.{handle_assoc_setup}
use vectorcore_sgw.Sgwu.PfcpServer.Establishment.{
  accept_establishment, establish_rules, commit, establish, handle_session_establishment,
}
use vectorcore_sgw.Sgwu.PfcpServer.Handlers.{handle}

abbrev pub config : Config
config = record {
  local_node_id = ip4 10 0 0 1;
  local_ip = ip4 10 0 0 1;
  access_ip = ip4 10 1 0 1;
  core_ip = ip4 10 2 0 1;
  local_ts = 500;
  allowed_nets = [];
  has_bpf = true;
  installs = λ sess. true;
  updates = λ sess. true;
  sends_end_markers = true;
  tracks_peers = true;
}

-- Only one address is written out here.
abbrev pub text_of : Addr → String
text_of ip = "10.0.0.2"

abbrev pub source : Source
source = record { ip = "10.0.0.2"; text = "10.0.0.2:8805" }

abbrev pub no_session : Session
no_session = record { cp_seid = 0; up_seid = 0; cp_node_key = ""; pdrs = []; fars = [] }

abbrev pub no_peer : PeerRecord
no_peer = record { node_id_key = ""; recovery_ts = 0; last_seen = 0; last_addr = "" }

abbrev empty_server : Server
empty_server = record {
  heap = λ r. no_session;
  next_session = 0;
  store = new_store;
  peer_at = λ r. no_peer;
  next_peer = 0;
  peers = [];
}

abbrev pub setup_header : Header
setup_header = record {
  version = 1;
  has_seid = false;
  message_type = 5;
  len = 21;
  seid = 0;
  sequence_number = 7;
}

abbrev pub setup_bytes : List ℕ
setup_bytes =
    marshal_message setup_header
      (new_node_id_ipv4 (ip4 10 0 0 2) ∷ new_recovery_time_stamp 1000 ∷ [])

abbrev pub with_peer : Server
with_peer = record empty_server {
  peer_at =
      set_at (λ r. no_peer) 0
        (record {
          node_id_key = "ipv4:10.0.0.2";
          recovery_ts = 1000;
          last_seen = 20;
          last_addr = "10.0.0.2:8805";
        });
  next_peer = 1;
  peers = ("ipv4:10.0.0.2", 0) ∷ [];
}

pub associated :
    handle config text_of source setup_header setup_bytes [] 20 empty_server
    ≡ ended (
      with_peer,
      (handle_assoc_setup config text_of source setup_header setup_bytes 20 empty_server).1,
    )
unfolding handle handle_assoc_setup parse_association_setup_request marshal_message parse parse_ies
    marshal_all marshal find_last node_id_ipv4 new_node_id_ipv4 recovery_time_stamp_value
    new_recovery_time_stamp parse_header marshal_header bound_body read_node lookup insert
associated = refl

-- A rule from the access side to the core side, with a local F-TEID to be chosen.
abbrev pub create_pdr : Element
create_pdr = new_grouped type_create_pdr (
    new_pdr_id 1
    ∷ new_precedence 100
    ∷ new_grouped type_pdi (new_source_interface 0 ∷ one_byte type_fteid 0x05 ∷ [])
    ∷ new_far_id 1
    ∷ [])

-- The same with predefined rules in place of a FAR.
abbrev create_predefined : Element
create_predefined = new_grouped type_create_pdr (
    new_pdr_id 1
    ∷ new_precedence 100
    ∷ new_grouped type_pdi (new_source_interface 0 ∷ [])
    ∷ one_byte type_activate_predefined_rules 0
    ∷ [])

abbrev pub create_far : Element
create_far = new_grouped type_create_far (
    new_far_id 1
    ∷ new_apply_action 2
    ∷ new_grouped type_forwarding_parameters (new_destination_interface 1 ∷ [])
    ∷ [])

abbrev a_pdr : Pdr
a_pdr = record {
  id = 1;
  precedence = 100;
  source_interface = 0;
  local_teid = 77;
  local_ip = ip4 10 1 0 1;
  far_id = 1;
  ebi = 0;
  qci = 0;
  qos_valid = false;
}

abbrev a_far : Far
a_far = record {
  id = 1;
  apply_action = 2;
  dest_interface = 1;
  outer_teid = 0;
  outer_ip = no_addr;
  drop_reason = drop_none;
}

abbrev pub establishment_header : Header
establishment_header = record {
  version = 1;
  has_seid = true;
  message_type = 50;
  len = 0;
  seid = 0;
  sequence_number = 8;
}

abbrev pub cp_fseid : Element
cp_fseid = record {
  typ = type_fseid;
  value = 2 ∷ 0 ∷ 0 ∷ 0 ∷ 0 ∷ 0 ∷ 0 ∷ 3 ∷ 132 ∷ 10 ∷ 0 ∷ 0 ∷ 2 ∷ [];
}

abbrev pub establishment : Element → List ℕ
establishment pdr =
    marshal_message establishment_header
      (new_node_id_ipv4 (ip4 10 0 0 2) ∷ cp_fseid ∷ pdr ∷ create_far ∷ [])

-- The random numbers: 0, which is refused, and 77.
abbrev pub draws : Draws
draws = (0 ∷ 77 ∷ []) ∷ []

abbrev pub with_session : Server
with_session = record with_peer {
  heap =
      set_at (λ r. no_session) 0
        (record {
          cp_seid = 900;
          up_seid = 1;
          cp_node_key = "ipv4:10.0.0.2";
          pdrs = a_pdr ∷ [];
          fars = a_far ∷ [];
        });
  next_session = 1;
  store = record { by_cp_seid = (900, 0) ∷ []; by_up_seid = (1, 0) ∷ []; seid_counter = 1 };
}

-- The answer: accepted, the UP F-SEID of 1, and the F-TEID that was chosen for the PDR.
abbrev accepted : List Output
accepted =
    accept_establishment config 900 8
      (record { typ = type_fseid; value = 2 ∷ 0 ∷ 0 ∷ 0 ∷ 0 ∷ 0 ∷ 0 ∷ 0 ∷ 1 ∷ 10 ∷ 0 ∷ 0 ∷ 1 ∷ [] })
      (new_created_pdr (new_pdr_id 1)
          (record { typ = type_fteid; value = 1 ∷ 0 ∷ 0 ∷ 0 ∷ 77 ∷ 10 ∷ 1 ∷ 0 ∷ 1 ∷ [] })
        ∷ [])
    ∷ []

pub established :
    handle config text_of source establishment_header (establishment create_pdr) draws 21 with_peer
    ≡ ended (with_session, accepted)
unfolding handle handle_session_establishment lookup parse_session_establishment_request parse
    parse_ies find find_all find_last children parse_header marshal_message marshal_session_header
    marshal_all marshal new_node_id_ipv4 new_grouped new_pdr_id new_precedence new_source_interface
    new_far_id new_destination_interface bound_body read_session fseid_value alloc_seid establish
    establish_rules validate_all validate_create_pdr validate_create_far apply_action_value
    build_pdrs build_pdr pdr_id_value far_id_value source_interface_value fteid_pfcp_value
    choose_fteid alloc_teid local_teid_in_use local_gtpu_ip_for_source new_fteid_v4 new_created_pdr
    build_fars build_far destination_interface_value commit create insert new_fseid path_peers
established = refl

-- Predefined rules without a FAR: the code calls a method of a nil element.
predefined_crash :
    handle config text_of source establishment_header
      (establishment create_predefined)
      draws
      21
      with_peer
    ≡ crashed
unfolding handle handle_session_establishment lookup parse_session_establishment_request parse
    parse_ies find find_all find_last children parse_header marshal_message marshal_session_header
    marshal_all marshal new_node_id_ipv4 new_grouped new_pdr_id new_precedence new_source_interface
    new_far_id new_destination_interface bound_body read_session fseid_value alloc_seid establish
    establish_rules validate_all validate_create_pdr validate_create_far apply_action_value
    build_pdrs build_pdr pdr_id_value far_id_value source_interface_value fteid_pfcp_value
    choose_fteid alloc_teid local_teid_in_use local_gtpu_ip_for_source new_fteid_v4 new_created_pdr
    build_fars build_far destination_interface_value commit create insert new_fseid path_peers
predefined_crash = refl
