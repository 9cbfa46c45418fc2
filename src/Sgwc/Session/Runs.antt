-- ===== src/Sgwc/Session/Runs.antt =====
-- Concrete sessions of internal/sgwc/session/session.go, and the theorems at them.
use vectorcore_sgw.Common.{◌≡◌, refl, true, false, [], ◌∷◌, arith}
use vectorcore_sgw.Sgwc.Session.{
  SessionState, Session, PfcpSessionBinding, ReconciliationState, PathState, PolicyAction, RuleIds,
  no_teid, no_fseid, no_pfcp, to_recovering, alloc_bearer_rule_ids, invalidate_pfcp_binding,
  mark_pfcp_reconciliation, transition,
}
use vectorcore_sgw.Sgwc.Session.Machine.{
  invalidated, compared, transitioned, none_yet, after, allocated, Follows, step-Follows, Onward,
  Steps-Onward,
}
use vectorcore_sgw.Sgwc.Session.Rules.{created, moved, issued, Ascending, Issued-Ascending}

abbrev bound_pfcp : PfcpSessionBinding
bound_pfcp = record no_pfcp { local_fseid = record no_fseid { seid = 7 }; established = true }

abbrev session_in : SessionState → Session
session_in state = record {
  state = state;
  updated_at = 1;
  next_rule_id = 0;
  bearers =
      (
        5,
        record {
          enb_s1u = no_teid;
          sgw_s1u = record no_teid { teid = 21 };
          sgw_s5u = record no_teid { teid = 22 };
          last_control_activity_at = 1;
          last_user_plane_activity_at = 0;
          last_activity_source = "create_session";
          inactive_since = 0;
          cleanup_eligible = false;
        },
      )
      ∷ [];
  pfcp = bound_pfcp;
  reconciliation = record { state = ReconciliationState.unset; at = 0; reason = "" };
  pgw_failure = record {
    path_state = PathState.unset;
    pgw_addr = "";
    path_down_at = 0;
    restart_detected_at = 0;
    recovery_seen = false;
    recovery_counter = 0;
  };
  mme = record {
    path_state = PathState.unset;
    mme_addr = "";
    path_down_at = 0;
    restart_detected_at = 0;
    recovery_seen = false;
    recovery_counter = 0;
    restoration_pending = false;
    policy_action = PolicyAction.unset;
    policy_reason = "";
    ddn_triggered = false;
    ddn_triggered_at = 0;
    ddn_sequence = 0;
    ddn_acked = false;
    ddn_acked_at = 0;
    ddn_ack_cause = 0;
    ddn_failure_at = 0;
    ddn_failure_cause = 0;
    ddn_failure_reason = "";
    ddn_control_action = "";
    ddn_control_priority = "";
    ddn_control_reason = "";
    ddn_control_retry_at = 0;
    ddn_control_decided_at = 0;
    stop_paging_sent = false;
    stop_paging_sent_at = 0;
    stop_paging_sequence = 0;
    user_plane_restored = false;
    user_plane_restored_at = 0;
    restored_ebi = 0;
  };
}

abbrev live : Session
live = session_in SessionState.active

-- The user plane of a live session restarts, and its binding is found again.
lost_state : (invalidate_pfcp_binding 9 live).0.state ≡ SessionState.recovering
unfolding invalidate_pfcp_binding to_recovering
lost_state = refl

step-Follows_example : Follows SessionState.active (invalidate_pfcp_binding 9 live).0.state
step-Follows_example = step-Follows (invalidated {s = live} 9)

-- A session in deletion loses its binding, has identifiers allocated, and is deleted.
abbrev dying : Session
dying = session_in SessionState.deleting

Steps-Onward_example :
    Onward SessionState.deleting
      (transition SessionState.deleted 11
        (alloc_bearer_rule_ids
          (mark_pfcp_reconciliation ReconciliationState.missing "lost" 0 9 dying)).0).0.state
Steps-Onward_example = Steps-Onward (
    after
      (allocated (after (none_yet {s = dying}) (compared ReconciliationState.missing "lost" 0 9)))
      (transitioned SessionState.deleted 11))

-- Two allocations, with the loss of the binding between them.
abbrev first_ids : RuleIds
first_ids = record { pdr_ul = 3; pdr_dl = 4; far_ul = 3; far_dl = 4 }

first_alloc : (alloc_bearer_rule_ids live).1 ≡ first_ids
unfolding alloc_bearer_rule_ids
first_alloc = refl

Issued-Ascending_example : Ascending (
    (alloc_bearer_rule_ids (invalidate_pfcp_binding 9 (alloc_bearer_rule_ids live).0).0).1
    ∷ (alloc_bearer_rule_ids live).1
    ∷ [])
Issued-Ascending_example =
    Issued-Ascending (issued (moved (issued (created {s = live} refl)) (invalidated 9)))
      (omega arith)
