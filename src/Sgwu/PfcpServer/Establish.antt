-- ===== src/Sgwu/PfcpServer/Establish.antt =====
-- internal/sgwu/pfcpserver/server.go: the checks of a Session Establishment Request, and the rules that
-- it makes.
use vectorcore_sgw.Common.{
  ℕ, Bool, false, not, ◌&&◌, ◌||◌, Option, none, some, List, [], ◌∷◌, ◌++◌, is_some, nat_beq,
  if◌then◌else◌,
}
use vectorcore_sgw.Common.Addr.{Addr}
use vectorcore_sgw.Common.Results.{Result, ok, err}
use vectorcore_sgw.Pfcp.Ie.{Element, ElementError, find, children}
use vectorcore_sgw.Pfcp.Types.{
  type_pdi, type_forwarding_parameters, type_source_interface, type_fteid, type_precedence,
  type_destination_interface, type_apply_action, type_pdr_id, type_outer_header_creation,
  type_far_id, type_activate_predefined_rules,
}
use vectorcore_sgw.Pfcp.Values.{
  pdr_id_value, far_id_value, source_interface_value, destination_interface_value,
  apply_action_value, fteid_pfcp_value, outer_header_creation_value, new_pdr_id, new_fteid_v4,
  new_created_pdr,
}
use vectorcore_sgw.Sgwu.Session.{Pdr, Far, Heap, Store, alloc_teid}
use vectorcore_sgw.Sgwu.PfcpServer.State.{Attempt, done, refused, panicked, waiting, ◌>>=◌, Config}
use vectorcore_sgw.Sgwu.PfcpServer.Rules.{
  value_or_zero, precedence_of, qos_of, pdr_of, far_of, forwards,
}

-- The two refusals: Cause 64 and Cause 73.
pub data Refusal : Type 0 where
  request_rejected : Refusal
  rule_failure : Refusal

abbrev pub has_type : List Element → ℕ → Bool
has_type cs t = is_some (find cs t)

-- The children of an element, for an error none of them.
abbrev pub children_or_nil : Element → List Element
children_or_nil ie = elim (children ie) [ ok cs ↦ cs | err e ↦ [] ]

-- Whether the children of an element are read and have an element of the type.
abbrev pub has_in : Result ElementError (List Element) → ℕ → Bool
has_in (ok cs) t = has_type cs t
has_in (err e) t = false

abbrev pub has_child : Option Element → ℕ → Bool
has_child none t = false
has_child (some ie) t = has_in (children ie) t

-- One round of the validation of Create PDRs.
unfoldable pub validate_create_pdr : Element → Result Refusal (Unit {0})
validate_create_pdr ie = elim (children ie) [
  | err e ↦ err request_rejected
  | ok cs ↦
      if not (has_type cs type_pdr_id)
        || not (has_type cs type_precedence)
        || not (has_type cs type_pdi)
      then err rule_failure
      else if not (has_type cs type_far_id) && not (has_type cs type_activate_predefined_rules)
      then err rule_failure
      else if not (has_child (find cs type_pdi) type_source_interface)
      then err rule_failure
      else ok tt
]

abbrev pub action_of : List Element → ℕ
action_of cs = elim (find cs type_apply_action) [
  | none ↦ 0
  | some ie ↦ value_or_zero (apply_action_value ie)
]

-- One round of the validation of Create FARs.
unfoldable pub validate_create_far : Element → Result Refusal (Unit {0})
validate_create_far ie = elim (children ie) [
  | err e ↦ err request_rejected
  | ok cs ↦
      if not (has_type cs type_far_id) || not (has_type cs type_apply_action)
      then err rule_failure
      else if forwards (action_of cs)
          && not (has_child (find cs type_forwarding_parameters) type_destination_interface)
      then err rule_failure
      else ok tt
]

unfoldable pub validate_all :
    (Element → Result Refusal (Unit {0})) → List Element → Attempt Refusal (Unit {0})
validate_all check [] = done tt
validate_all check (ie ∷ ies) = elim (check ie) [
  | err e ↦ refused e
  | ok u ↦ validate_all check ies
]

-- A method call on the element: a panic where there is none.
abbrev pub called {ℓ} : {E : Type 0} {A : Type ℓ} → Option Element → (Element → A) → Attempt E A
called none f = panicked
called (some ie) f = done (f ie)

unfoldable pub local_gtpu_ip_for_source : Config → ℕ → Option Addr
local_gtpu_ip_for_source cfg source =
    if nat_beq source 0
    then some cfg.access_ip
    else if nat_beq source 1
    then some cfg.core_ip
    else none

-- The random numbers of each call of AllocTEID, in order.
abbrev pub Draws : Type 0
Draws = List (List ℕ)

-- A PDR whose F-TEID is chosen here, and the Created PDR element that tells it.
unfoldable pub choose_fteid :
    {E : Type 0} → E → Config → Heap → Store → Pdr → Draws → Attempt E (Pdr × List Element × Draws)
choose_fteid e cfg heap store pdr [] = waiting
choose_fteid e cfg heap store pdr (draw ∷ draws) = elim (alloc_teid heap draw store) [
  | none ↦ waiting
  | some teid ↦ elim (local_gtpu_ip_for_source cfg pdr.source_interface) [
    | none ↦ refused e
    | some ip ↦ elim (new_fteid_v4 teid ip) [
      | none ↦ panicked
      | some fteid ↦ done (
        record pdr { local_teid = teid; local_ip = ip },
        new_created_pdr (new_pdr_id pdr.id) fteid ∷ [],
        draws,
      )
    ]
  ]
]

-- Whether the F-TEID of a PDI is to be chosen. A given F-TEID is not looked at any further.
abbrev pub chooses : List Element → Attempt Refusal Bool
chooses pdi = elim (find pdi type_fteid) [
  | none ↦ done false
  | some ie ↦ elim (fteid_pfcp_value ie) [ err e ↦ refused rule_failure | ok r ↦ done r.1 ]
]

abbrev pub quality : List Element → Attempt Refusal (ℕ × ℕ × Bool)
quality cs = elim (qos_of cs) [ err e ↦ refused rule_failure | ok q ↦ done q ]

abbrev pub precedence_in : List Element → ℕ
precedence_in cs = elim (find cs type_precedence) [ none ↦ 0 | some p ↦ precedence_of p ]

-- One round of the second pass over the Create PDRs.
unfoldable pub build_pdr :
    Config → Heap → Store → Element → Draws → Attempt Refusal (Pdr × List Element × Draws)
unfolding choose_fteid
build_pdr cfg heap store ie draws = do
  let cs = children_or_nil ie
  pdr_id ← called (find cs type_pdr_id) pdr_id_value
  far_id ← called (find cs type_far_id) far_id_value
  pdi ← called (find cs type_pdi) children_or_nil
  source ← called (find pdi type_source_interface) source_interface_value
  qos ← quality cs
  let pdr =
      pdr_of (value_or_zero pdr_id) (value_or_zero far_id) (value_or_zero source) (precedence_in cs)
        qos
  choose ← chooses pdi
  if choose then choose_fteid rule_failure cfg heap store pdr draws else done (pdr, [], draws)

unfoldable pub build_pdrs :
    Config → Heap → Store → List Element → Draws → Attempt Refusal (List Pdr × List Element)
build_pdrs cfg heap store [] draws = done ([], [])
build_pdrs cfg heap store (ie ∷ ies) draws = do
  first ← build_pdr cfg heap store ie draws
  rest ← build_pdrs cfg heap store ies first.2
  done (first.0 ∷ rest.0, first.1 ++ rest.1)

-- The forwarding parameters, of which every error is passed over.
abbrev pub routed : Far → List Element → Far
routed far fp =
    let to : Far = elim (find fp type_destination_interface) [
      | none ↦ far
      | some ie ↦ record far { dest_interface = value_or_zero (destination_interface_value ie) }
    ] in
    elim (find fp type_outer_header_creation) [
      | none ↦ to
      | some ie ↦ elim (outer_header_creation_value ie) [
        | err e ↦ to
        | ok ohc ↦ record to { outer_teid = ohc.teid; outer_ip = ohc.ipv4 }
      ]
    ]

unfoldable pub build_far : Element → Attempt Refusal Far
build_far ie = do
  let cs = children_or_nil ie
  far_id ← called (find cs type_far_id) far_id_value
  action ← called (find cs type_apply_action) apply_action_value
  let far = far_of (value_or_zero far_id) (value_or_zero action)
  done (elim (find cs type_forwarding_parameters) [
    | none ↦ far
    | some fp ↦ if forwards (value_or_zero action) then routed far (children_or_nil fp) else far
  ])

unfoldable pub build_fars : List Element → Attempt Refusal (List Far)
build_fars [] = done []
build_fars (ie ∷ ies) = do first ← build_far ie; rest ← build_fars ies; done (first ∷ rest)
