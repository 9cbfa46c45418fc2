-- ===== src/Sgwc/Session.antt =====
-- internal/sgwc/session/session.go: the state of one PDN session of the control plane, its state
-- machine, its PFCP binding and the identifiers of its PFCP rules. Each method runs under the session's
-- mutex, and `time.Now()` is an argument. Fields that no method here writes are left out. So is the
-- checkpoint that follows a write: it hands a copy of the session to a file.
pub mod Peers
pub mod Machine
pub mod Rules
pub mod Runs
use vectorcore_sgw.Common.{
  ℕ, ◌+◌, ◌%◌, ◌^◌, String, Bool, true, false, not, ◌&&◌, ◌||◌, List, [], ◌∷◌, map, text_keys, ◌==◌,
  nat_beq, if◌then◌else◌,
}
use vectorcore_sgw.Common.Addr.{Addr, no_addr}

-- The constants of `SessionState`; `unset` stands for the empty text in the enumerations below.
pub data SessionState : Type 0 where
  pending active modifying recovering deleting deleted : SessionState

pub record Teid : Type 0 where
  pub teid : ℕ
  pub ipv4 : Addr

pub record Fseid : Type 0 where
  pub seid : ℕ
  pub ipv4 : Addr

pub record PfcpSessionBinding : Type 0 where
  pub local_fseid : Fseid
  pub sgwu_fseid : Fseid
  pub sgwu_name : String
  pub sgwu_addr : String
  pub established : Bool

pub data ReconciliationState : Type 0 where
  unset unknown matched missing mismatched unverifiable no_binding : ReconciliationState

pub record ReconciliationStatus : Type 0 where
  pub state : ReconciliationState
  pub at : ℕ
  pub reason : String

-- `PGWPathState` and `MMERestorationState`, of which only the second has the last value.
pub data PathState : Type 0 where
  unset unknown up degraded suspect down restarted restoration_pending : PathState

pub record PgwFailureStatus : Type 0 where
  pub path_state : PathState
  pub pgw_addr : String
  pub path_down_at : ℕ
  pub restart_detected_at : ℕ
  pub recovery_seen : Bool
  pub recovery_counter : ℕ

pub data PolicyAction : Type 0 where
  unset unknown preserve delete : PolicyAction

pub record MmeRestorationStatus : Type 0 where
  pub path_state : PathState
  pub mme_addr : String
  pub path_down_at : ℕ
  pub restart_detected_at : ℕ
  pub recovery_seen : Bool
  pub recovery_counter : ℕ
  pub restoration_pending : Bool
  pub policy_action : PolicyAction
  pub policy_reason : String
  pub ddn_triggered : Bool
  pub ddn_triggered_at : ℕ
  pub ddn_sequence : ℕ
  pub ddn_acked : Bool
  pub ddn_acked_at : ℕ
  pub ddn_ack_cause : ℕ
  pub ddn_failure_at : ℕ
  pub ddn_failure_cause : ℕ
  pub ddn_failure_reason : String
  pub ddn_control_action : String
  pub ddn_control_priority : String
  pub ddn_control_reason : String
  pub ddn_control_retry_at : ℕ
  pub ddn_control_decided_at : ℕ
  pub stop_paging_sent : Bool
  pub stop_paging_sent_at : ℕ
  pub stop_paging_sequence : ℕ
  pub user_plane_restored : Bool
  pub user_plane_restored_at : ℕ
  pub restored_ebi : ℕ

-- A bearer as far as the methods here write it.
pub record Bearer : Type 0 where
  pub enb_s1u : Teid
  pub sgw_s1u : Teid
  pub sgw_s5u : Teid
  pub last_control_activity_at : ℕ
  pub last_user_plane_activity_at : ℕ
  pub last_activity_source : String
  pub inactive_since : ℕ
  pub cleanup_eligible : Bool

pub record Session : Type 0 where
  pub state : SessionState
  pub updated_at : ℕ
  pub next_rule_id : ℕ
  pub bearers : List (ℕ × Bearer)
  pub pfcp : PfcpSessionBinding
  pub reconciliation : ReconciliationStatus
  pub pgw_failure : PgwFailureStatus
  pub mme : MmeRestorationStatus

abbrev pub no_teid : Teid
no_teid = record { teid = 0; ipv4 = no_addr }

abbrev pub no_fseid : Fseid
no_fseid = record { seid = 0; ipv4 = no_addr }

-- The zero value of the type
abbrev pub no_pfcp : PfcpSessionBinding
no_pfcp = record {
  local_fseid = no_fseid;
  sgwu_fseid = no_fseid;
  sgwu_name = "";
  sgwu_addr = "";
  established = false;
}

unfoldable pub valid_transition : SessionState → SessionState → Bool
valid_transition pending active = true
valid_transition pending recovering = true
valid_transition pending deleting = true
valid_transition pending deleted = true
valid_transition active modifying = true
valid_transition active recovering = true
valid_transition active deleting = true
valid_transition modifying active = true
valid_transition modifying recovering = true
valid_transition modifying deleting = true
valid_transition recovering active = true
valid_transition recovering deleting = true
valid_transition recovering deleted = true
valid_transition deleting deleted = true
valid_transition from to = false

unfoldable pub transition : SessionState → ℕ → Session → Session × Bool
transition next now s =
    if valid_transition s.state next
    then (record s { state = next; updated_at = now }, true)
    else (s, false)

-- `s.State != StateDeleting && s.State != StateDeleted`, where the state becomes `recovering`.
unfoldable pub to_recovering : SessionState → SessionState
to_recovering deleting = deleting
to_recovering deleted = deleted
to_recovering other = recovering

-- `s.State == StateRecovering`, where the state becomes `active`.
unfoldable pub recovered : SessionState → SessionState
recovered recovering = active
recovered other = other

-- What `AllocBearerRuleIDs` returns.
pub record RuleIds : Type 0 where
  pub pdr_ul : ℕ
  pub pdr_dl : ℕ
  pub far_ul : ℕ
  pub far_dl : ℕ

abbrev pub rule_base : Session → ℕ
rule_base s = if nat_beq s.next_rule_id 0 then 3 else s.next_rule_id

unfoldable pub alloc_bearer_rule_ids : Session → Session × RuleIds
alloc_bearer_rule_ids s =
    let base = rule_base s in
    (
      record s { next_rule_id = (base + 2) % 2 ^ 32 },
      record {
        pdr_ul = base % 2 ^ 16;
        pdr_dl = (base + 1) % 2 ^ 32 % 2 ^ 16;
        far_ul = base;
        far_dl = (base + 1) % 2 ^ 32;
      },
    )

abbrev pub or_current : ℕ → ℕ → ℕ
or_current at now = if nat_beq at 0 then now else at

unfoldable pub set_pfcp_binding : PfcpSessionBinding → ℕ → Session → Session
set_pfcp_binding binding now s = record s {
  pfcp = binding;
  reconciliation = record { state = ReconciliationState.unset; at = 0; reason = "" };
  updated_at = now;
}

-- The switch of `MarkPFCPReconciliation`
unfoldable pub reconciled : ReconciliationState → Session → Session
reconciled matched s = record s {
  state = recovered s.state;
  pfcp = record s.pfcp { established = true };
}
reconciled missing s = record s { state = to_recovering s.state }
reconciled mismatched s = record s { state = to_recovering s.state }
reconciled unverifiable s = record s { state = to_recovering s.state }
reconciled no_binding s = record s { state = to_recovering s.state }
reconciled other s = s

unfoldable pub mark_pfcp_reconciliation : ReconciliationState → String → ℕ → ℕ → Session → Session
mark_pfcp_reconciliation state reason at now s = record (reconciled state s) {
  reconciliation = record { state = state; at = or_current at now; reason = reason };
  updated_at = or_current at now;
}

abbrev pub had_pfcp : PfcpSessionBinding → Bool
had_pfcp p =
    p.established || not (nat_beq p.local_fseid.seid 0) || not (nat_beq p.sgwu_fseid.seid 0)

abbrev pub without_sgwu : ℕ × Bearer → ℕ × Bearer
without_sgwu entry = (entry.0, record entry.1 { sgw_s1u = no_teid; sgw_s5u = no_teid })

unfoldable pub invalidate_pfcp_binding : ℕ → Session → Session × Bool
invalidate_pfcp_binding now s =
    if had_pfcp s.pfcp
    then (
      record s {
        pfcp = no_pfcp;
        reconciliation = record { state = missing; at = now; reason = "pfcp-binding-invalidated" };
        bearers = map without_sgwu s.bearers;
        state = to_recovering s.state;
        updated_at = now;
      },
      true,
    )
    else (s, false)

unfoldable pub invalidate_pfcp_binding_for_peer : String → String → ℕ → Session → Session × Bool
invalidate_pfcp_binding_for_peer name addr now s =
    if (s.pfcp.sgwu_name == name) && (s.pfcp.sgwu_addr == addr)
    then invalidate_pfcp_binding now s
    else (s, false)
