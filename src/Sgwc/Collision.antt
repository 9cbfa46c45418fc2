-- ===== src/Sgwc/Collision.antt =====
-- internal/sgwc/collision/collision.go: the procedure collision tracker of one session. This file
-- has the types and the decision on a pair of procedures; `Tracker` has the stateful operations.
pub mod Tracker
pub mod Decide
pub mod Invariant
pub mod Admission
pub mod Runs
use Prim.Native.String.{◌++◌ as str_append}
use vectorcore_sgw.Common.{
  ℕ, zero, suc, String, Bool, true, false, ◌||◌, ◌&&◌, Option, none, some, List, [], ◌∷◌, any,
  number_keys, ◌==◌, if◌then◌else◌,
}

-- The tracker's collision mode; `mode_unset` is the empty string.
pub data Mode : Type 0 where
  mode_unset strict permissive : Mode
  mode_text : String → Mode

-- A procedure name is a string; `procedure_text` stands for one that is none of the constants.
pub data Procedure : Type 0 where
  create_session modify_bearer delete_session release_access_bearers : Procedure
  create_bearer create_bearer_response update_bearer delete_bearer : Procedure
  procedure_text : String → Procedure

pub data Owner : Type 0 where
  mme pgw sgw : Owner
  owner_text : String → Owner

pub data Action : Type 0 where
  allow reject_new : Action

pub data Policy : Type 0 where
  policy_none allow_response session_overlap bearer_overlap : Policy
  bearer_disjoint bearer_unknown : Policy

-- A request to start a procedure.
pub record Request : Type 0 where
  pub procedure : Procedure
  pub owner : Owner
  pub peer : String
  pub teid : ℕ
  pub seq : ℕ
  pub ebis : List ℕ
  pub reason : String

pub record ActiveProcedure : Type 0 where
  pub id : ℕ
  pub procedure : Procedure
  pub owner : Owner
  pub peer : String
  pub teid : ℕ
  pub seq : ℕ
  pub ebis : List ℕ
  pub started_at : ℕ
  pub updated_at : ℕ

-- `Current` is the zero value where no procedure blocks: `none` here.
pub record Decision : Type 0 where
  pub action : Action
  pub current : Option ActiveProcedure
  pub reason : String
  pub policy : Policy

-- The text of a procedure, as `%s` prints it.
unfoldable pub procedure_name : Procedure → String
procedure_name create_session = "CREATE_SESSION"
procedure_name modify_bearer = "MODIFY_BEARER"
procedure_name delete_session = "DELETE_SESSION"
procedure_name release_access_bearers = "RELEASE_ACCESS_BEARERS"
procedure_name create_bearer = "CREATE_BEARER"
procedure_name create_bearer_response = "CREATE_BEARER_RESPONSE"
procedure_name update_bearer = "UPDATE_BEARER"
procedure_name delete_bearer = "DELETE_BEARER"
procedure_name (procedure_text s) = s

-- The table `procedurePairRules`, read at an active procedure and the next one.
unfoldable pub procedure_pair_rules : Procedure → Procedure → Option Policy
procedure_pair_rules create_bearer create_bearer_response = some allow_response
procedure_pair_rules create_bearer_response create_bearer = some allow_response
procedure_pair_rules modify_bearer delete_session = some policy_none
procedure_pair_rules create_bearer delete_session = some policy_none
procedure_pair_rules create_bearer_response delete_session = some policy_none
procedure_pair_rules update_bearer delete_session = some policy_none
procedure_pair_rules delete_bearer delete_session = some policy_none
procedure_pair_rules delete_bearer release_access_bearers = some policy_none
procedure_pair_rules release_access_bearers delete_bearer = some policy_none
procedure_pair_rules update_bearer release_access_bearers = some policy_none
procedure_pair_rules release_access_bearers update_bearer = some policy_none
procedure_pair_rules _ _ = none

unfoldable pub is_bearer_scoped : Procedure → Bool
is_bearer_scoped modify_bearer = true
is_bearer_scoped create_bearer = true
is_bearer_scoped create_bearer_response = true
is_bearer_scoped update_bearer = true
is_bearer_scoped delete_bearer = true
is_bearer_scoped _ = false

unfoldable pub is_session_wide : Procedure → Bool
is_session_wide create_session = true
is_session_wide delete_session = true
is_session_wide release_access_bearers = true
is_session_wide _ = false

-- What `pairPolicy` does when the table has no rule.
unfoldable pub default_policy : Procedure → Procedure → Policy
default_policy active next =
    if is_session_wide active || is_session_wide next
    then session_overlap
    else if is_bearer_scoped active && is_bearer_scoped next
    then bearer_overlap
    else session_overlap

unfoldable pub pair_policy : Procedure → Procedure → Policy
pair_policy active next = elim (procedure_pair_rules active next) [
  | some rule ↦ rule
  | none ↦ default_policy active next
]

-- Two nested loops with an early return.
unfoldable pub overlaps_ebi : List ℕ → List ℕ → Bool
overlaps_ebi a b = any (λ x. any (λ y. x == y) b) a

unfoldable pub is_empty : List ℕ → Bool
is_empty [] = true
is_empty (x ∷ xs) = false

unfoldable pub is_permissive : Mode → Bool
is_permissive permissive = true
is_permissive _ = false

-- `fmt.Sprintf` with the two names put in.
unfoldable pub overlap_reason : String → ActiveProcedure → Request → String
unfolding procedure_name
overlap_reason text cur req = str_append text (
    str_append ": active=" (
      str_append (procedure_name cur.procedure)
        (str_append " new=" (procedure_name req.procedure))))

abbrev pub plain_decision : Action → Policy → String → Decision
plain_decision a p r = record { action = a; current = none; reason = r; policy = p }

-- The case `PolicyBearerOverlap` of `decide`. The empty mode counts as strict.
unfoldable pub decide_bearer : Mode → ActiveProcedure → Request → Decision
decide_bearer mode cur req =
    if is_empty cur.ebis || is_empty req.ebis
    then (if is_permissive mode
        then plain_decision allow bearer_unknown
            "bearer procedure unknown EBI scope allowed by permissive mode"
        else plain_decision reject_new bearer_overlap
            (overlap_reason "bearer procedure overlap with unknown EBI scope" cur req))
    else if overlaps_ebi cur.ebis req.ebis
    then plain_decision reject_new bearer_overlap
        (overlap_reason "bearer procedure overlap" cur req)
    else plain_decision allow bearer_disjoint "bearer procedure EBIs are disjoint"

-- The `switch` of `decide`.
unfoldable pub decide_by : Policy → Mode → ActiveProcedure → Request → Decision
decide_by allow_response mode cur req =
    plain_decision allow allow_response
      "matching bearer response is allowed while request is active"
decide_by session_overlap mode cur req =
    plain_decision reject_new session_overlap
      (overlap_reason "session-wide procedure overlap" cur req)
decide_by bearer_overlap mode cur req = decide_bearer mode cur req
decide_by _ mode cur req = plain_decision allow policy_none ""

unfoldable pub decide : Mode → ActiveProcedure → Request → Decision
decide mode cur req = decide_by (pair_policy cur.procedure req.procedure) mode cur req
