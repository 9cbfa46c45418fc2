-- ===== src/Pfcp/Messages.antt =====
-- internal/pfcp/message/message.go: the requests that the user plane reads. Each parser goes over the
-- elements once and keeps, for each field, the last element of its type, or all of them.
use vectorcore_sgw.Common.{
  ℕ, Bool, true, false, not, Option, none, some, List, [], ◌∷◌, nat_beq, if◌then◌else◌,
}
use vectorcore_sgw.Common.Results.{Result, ok, err, ◌>>=◌}
use vectorcore_sgw.Pfcp.Ie.{Element, find_all}
use vectorcore_sgw.Pfcp.Header.{Header, HeaderError, parse}
use vectorcore_sgw.Pfcp.Types.{
  type_node_id, type_recovery_time_stamp, type_fseid, type_create_pdr, type_create_far,
  type_update_far, type_remove_pdr, type_remove_far,
}

abbrev pub msg_heartbeat_request : ℕ
msg_heartbeat_request = 1

abbrev pub msg_heartbeat_response : ℕ
msg_heartbeat_response = 2

abbrev pub msg_association_setup_request : ℕ
msg_association_setup_request = 5

abbrev pub msg_association_setup_response : ℕ
msg_association_setup_response = 6

abbrev pub msg_association_release_request : ℕ
msg_association_release_request = 9

abbrev pub msg_association_release_response : ℕ
msg_association_release_response = 10

abbrev pub msg_session_establishment_request : ℕ
msg_session_establishment_request = 50

abbrev pub msg_session_establishment_response : ℕ
msg_session_establishment_response = 51

abbrev pub msg_session_modification_request : ℕ
msg_session_modification_request = 52

abbrev pub msg_session_modification_response : ℕ
msg_session_modification_response = 53

abbrev pub msg_session_deletion_request : ℕ
msg_session_deletion_request = 54

abbrev pub msg_session_deletion_response : ℕ
msg_session_deletion_response = 55

pub data RequestError : Type 0 where
  malformed : HeaderError → RequestError
  wrong_s_flag : RequestError
  wrong_message_type : ℕ → RequestError
  initial_seid : ℕ → RequestError
  missing : ℕ → RequestError

-- `case T: req.F = i`: the last element of the type.
unfoldable pub find_last : List Element → ℕ → Option Element
find_last [] t = none
find_last (ie ∷ ies) t = elim (find_last ies t) [
  | some later ↦ some later
  | none ↦ if nat_beq ie.typ t then some ie else none
]

-- `if req.F == nil`
abbrev pub mandatory : ℕ → Option Element → Result RequestError Element
mandatory t none = err (missing t)
mandatory t (some ie) = ok ie

abbrev pub mandatory_list : ℕ → List Element → Result RequestError (List Element)
mandatory_list t [] = err (missing t)
mandatory_list t (ie ∷ ies) = ok (ie ∷ ies)

abbrev lift {ℓ} : {A : Type ℓ} → Result HeaderError A → Result RequestError A
lift (ok a) = ok a
lift (err e) = err (malformed e)

-- The head of every parser: the message, its S flag and its type.
unfoldable pub expect : Bool → ℕ → List ℕ → Result RequestError (Header × List Element)
expect has_seid message_type b = lift (parse b) >>= λ r.
    if not (if has_seid then r.0.has_seid else not r.0.has_seid)
    then err wrong_s_flag
    else if not (nat_beq r.0.message_type message_type)
    then err (wrong_message_type r.0.message_type)
    else ok r

pub record AssociationSetupRequest : Type 0 where
  pub header : Header
  pub node_id : Element
  pub recovery_time_stamp : Element

unfoldable pub parse_association_setup_request :
    List ℕ → Result RequestError AssociationSetupRequest
unfolding expect
parse_association_setup_request b = do
  r ← expect false msg_association_setup_request b
  node_id ← mandatory type_node_id (find_last r.1 type_node_id)
  stamp ← mandatory type_recovery_time_stamp (find_last r.1 type_recovery_time_stamp)
  ok (record { header = r.0; node_id = node_id; recovery_time_stamp = stamp })

pub record HeartbeatRequest : Type 0 where
  pub header : Header
  pub recovery_time_stamp : Element

unfoldable pub parse_heartbeat_request : List ℕ → Result RequestError HeartbeatRequest
unfolding expect
parse_heartbeat_request b = do
  r ← expect false msg_heartbeat_request b
  stamp ← mandatory type_recovery_time_stamp (find_last r.1 type_recovery_time_stamp)
  ok (record { header = r.0; recovery_time_stamp = stamp })

pub record SessionEstablishmentRequest : Type 0 where
  pub header : Header
  pub node_id : Element
  pub cp_seid : Element
  pub create_pdrs : List Element
  pub create_fars : List Element

unfoldable pub parse_session_establishment_request :
    List ℕ → Result RequestError SessionEstablishmentRequest
unfolding expect
parse_session_establishment_request b = do
  r ← expect true msg_session_establishment_request b
  fresh ← if not (nat_beq r.0.seid 0) then err (initial_seid r.0.seid) else ok r
  node_id ← mandatory type_node_id (find_last fresh.1 type_node_id)
  cp_seid ← mandatory type_fseid (find_last fresh.1 type_fseid)
  pdrs ← mandatory_list type_create_pdr (find_all fresh.1 type_create_pdr)
  fars ← mandatory_list type_create_far (find_all fresh.1 type_create_far)
  ok (record {
    header = fresh.0;
    node_id = node_id;
    cp_seid = cp_seid;
    create_pdrs = pdrs;
    create_fars = fars;
  })

-- The code also keeps the CP F-SEID and the Update PDRs, which no handler reads.
pub record SessionModificationRequest : Type 0 where
  pub header : Header
  pub update_fars : List Element
  pub create_pdrs : List Element
  pub create_fars : List Element
  pub remove_pdrs : List Element
  pub remove_fars : List Element

unfoldable pub parse_session_modification_request :
    List ℕ → Result RequestError SessionModificationRequest
unfolding expect
parse_session_modification_request b = do
  r ← expect true msg_session_modification_request b
  ok (record {
    header = r.0;
    update_fars = find_all r.1 type_update_far;
    create_pdrs = find_all r.1 type_create_pdr;
    create_fars = find_all r.1 type_create_far;
    remove_pdrs = find_all r.1 type_remove_pdr;
    remove_fars = find_all r.1 type_remove_far;
  })

unfoldable pub parse_session_deletion_request : List ℕ → Result RequestError Header
unfolding expect
parse_session_deletion_request b = expect true msg_session_deletion_request b >>= λ r. ok r.0

pub record AssociationReleaseRequest : Type 0 where
  pub header : Header
  pub node_id : Element

unfoldable pub parse_association_release_request :
    List ℕ → Result RequestError AssociationReleaseRequest
unfolding expect
parse_association_release_request b = do
  r ← expect false msg_association_release_request b
  node_id ← mandatory type_node_id (find_last r.1 type_node_id)
  ok (record { header = r.0; node_id = node_id })
