-- ===== src/Sgwu/PfcpServer/Rules.antt =====
-- internal/sgwu/pfcpserver/server.go: reading the rules of a session from PFCP elements, and the
-- changes of a Session Modification Request to the rules of one session.
use vectorcore_sgw.Common.{
  ℕ, Bool, true, false, not, Option, none, some, List, [], ◌∷◌, ◌++◌, length, any, ltb, nat_beq,
  if◌then◌else◌,
}
use vectorcore_sgw.Common.Addr.{no_addr}
use vectorcore_sgw.Common.Bytes.{has_bit}
use vectorcore_sgw.Common.Results.{Result, ok, err, ◌>>=◌}
use vectorcore_sgw.Pfcp.Ie.{Element, ElementError, find, children}
use vectorcore_sgw.Pfcp.Types.{
  type_pdi, type_forwarding_parameters, type_source_interface, type_fteid, type_precedence,
  type_destination_interface, type_apply_action, type_pdr_id, type_outer_header_creation,
  type_far_id, type_vector_core_qos_marking, apply_action_forw,
}
use vectorcore_sgw.Pfcp.Values.{
  ValueError, u32_at, pdr_id_value, far_id_value, source_interface_value,
  destination_interface_value, apply_action_value, fteid_pfcp_value, vector_core_qos_marking_value,
  outer_header_creation_value,
}
use vectorcore_sgw.Sgwu.Session.{Pdr, Far, drop_none}

pub data RuleError : Type 0 where
  bad_children : ElementError → RuleError
  bad_value : ValueError → RuleError
  missing_element : RuleError
  already_exists : ℕ → RuleError
  does_not_exist : ℕ → RuleError
  no_local_ip : ℕ → RuleError
  fast_path : RuleError

-- `v, _ := ie.Value()`: the zero value where the decoder fails.
abbrev pub value_or_zero : Result ValueError ℕ → ℕ
value_or_zero (ok v) = v
value_or_zero (err e) = 0

abbrev pub need : Option Element → Result RuleError Element
need none = err missing_element
need (some ie) = ok ie

abbrev pub children_of : Element → Result RuleError (List Element)
children_of ie = elim (children ie) [ ok cs ↦ ok cs | err e ↦ err (bad_children e) ]

abbrev pub valued {ℓ} : {A : Type ℓ} → Result ValueError A → Result RuleError A
valued (ok a) = ok a
valued (err e) = err (bad_value e)

abbrev pub precedence_of : Element → ℕ
precedence_of ie = if ltb (length ie.value) 4 then 0 else u32_at ie.value 0

-- The optional QoS metadata of a Create PDR: EBI, QCI and whether they are valid.
abbrev pub qos_of : List Element → Result ValueError (ℕ × ℕ × Bool)
qos_of cs = elim (find cs type_vector_core_qos_marking) [
  | none ↦ ok (0, 0, false)
  | some ie ↦ vector_core_qos_marking_value ie
]

-- A PDR of these parts, with no local F-TEID yet.
abbrev pub pdr_of : ℕ → ℕ → ℕ → ℕ → ℕ × ℕ × Bool → Pdr
pdr_of id far_id source_interface precedence qos = record {
  id = id;
  precedence = precedence;
  source_interface = source_interface;
  local_teid = 0;
  local_ip = no_addr;
  far_id = far_id;
  ebi = qos.0;
  qci = qos.1;
  qos_valid = qos.2;
}

-- The F-TEID in the PDI: whether it is to be chosen, and the PDR with one that is given.
abbrev pub with_local_fteid : Pdr → List Element → Result RuleError (Pdr × Bool)
with_local_fteid pdr pdi = elim (find pdi type_fteid) [
  | none ↦ ok (pdr, false)
  | some ie ↦ valued (fteid_pfcp_value ie) >>= λ r.
      if r.1
      then ok (pdr, true)
      else ok (record pdr { local_teid = r.0.teid; local_ip = r.0.ipv4 }, false)
]

unfoldable pub parse_create_pdr : Element → Result RuleError (Pdr × Bool)
parse_create_pdr ie = do
  cs ← children_of ie
  pdr_id ← need (find cs type_pdr_id)
  precedence ← need (find cs type_precedence)
  far_id ← need (find cs type_far_id)
  pdi ← need (find cs type_pdi)
  pdi_children ← children_of pdi
  source ← need (find pdi_children type_source_interface)
  qos ← valued (qos_of cs)
  with_local_fteid
      (pdr_of (value_or_zero (pdr_id_value pdr_id)) (value_or_zero (far_id_value far_id))
        (value_or_zero (source_interface_value source)) (precedence_of precedence) qos)
      pdi_children

abbrev pub far_of : ℕ → ℕ → Far
far_of id apply_action = record {
  id = id;
  apply_action = apply_action;
  dest_interface = 0;
  outer_teid = 0;
  outer_ip = no_addr;
  drop_reason = drop_none;
}

-- `ApplyAction & FORW != 0`
abbrev pub forwards : ℕ → Bool
forwards action = has_bit action apply_action_forw

-- The optional Outer Header Creation of forwarding parameters.
abbrev pub with_outer_header : Far → List Element → Result RuleError Far
with_outer_header far cs = elim (find cs type_outer_header_creation) [
  | none ↦ ok far
  | some ie ↦ valued (outer_header_creation_value ie) >>= λ ohc.
      ok (record far { outer_teid = ohc.teid; outer_ip = ohc.ipv4 })
]

-- `parseCreateFAR` where the action forwards.
abbrev pub with_forwarding : Far → List Element → Result RuleError Far
with_forwarding far cs = do
  fp ← need (find cs type_forwarding_parameters)
  fp_children ← children_of fp
  dest ← need (find fp_children type_destination_interface)
  with_outer_header
      (record far { dest_interface = value_or_zero (destination_interface_value dest) }) fp_children

unfoldable pub parse_create_far : Element → Result RuleError Far
parse_create_far ie = do
  cs ← children_of ie
  far_id ← need (find cs type_far_id)
  action_ie ← need (find cs type_apply_action)
  let action = value_or_zero (apply_action_value action_ie)
  let far = far_of (value_or_zero (far_id_value far_id)) action
  if not (forwards action) then ok far else with_forwarding far cs

abbrev pub has_far : ℕ → List Far → Bool
has_far id fars = any (λ f. nat_beq f.id id) fars

abbrev pub has_pdr : ℕ → List Pdr → Bool
has_pdr id pdrs = any (λ p. nat_beq p.id id) pdrs

-- `append(candidate.FARs, far)`, and likewise for PDRs.
unfoldable pub add_far : Far → List Far → Result RuleError (List Far)
add_far far fars =
    if has_far far.id fars then err (already_exists far.id) else ok (fars ++ (far ∷ []))

unfoldable pub create_fars : List Element → List Far → Result RuleError (List Far)
create_fars [] fars = ok fars
create_fars (ie ∷ ies) fars = do
  far ← parse_create_far ie
  more ← add_far far fars
  create_fars ies more

unfoldable pub without_pdr : ℕ → List Pdr → List Pdr
without_pdr id [] = []
without_pdr id (p ∷ ps) = if nat_beq p.id id then without_pdr id ps else p ∷ without_pdr id ps

unfoldable pub without_far : ℕ → List Far → List Far
without_far id [] = []
without_far id (f ∷ fs) = if nat_beq f.id id then without_far id fs else f ∷ without_far id fs

unfoldable pub remove_pdrs : List Element → List Pdr → Result RuleError (List Pdr)
remove_pdrs [] pdrs = ok pdrs
remove_pdrs (ie ∷ ies) pdrs = do
  cs ← children_of ie
  id_ie ← need (find cs type_pdr_id)
  let id = value_or_zero (pdr_id_value id_ie)
  if has_pdr id pdrs then remove_pdrs ies (without_pdr id pdrs) else err (does_not_exist id)

unfoldable pub remove_fars : List Element → List Far → Result RuleError (List Far)
remove_fars [] fars = ok fars
remove_fars (ie ∷ ies) fars = do
  cs ← children_of ie
  id_ie ← need (find cs type_far_id)
  let id = value_or_zero (far_id_value id_ie)
  if has_far id fars then remove_fars ies (without_far id fars) else err (does_not_exist id)
