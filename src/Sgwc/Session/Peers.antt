-- ===== src/Sgwc/Session/Peers.antt =====
-- internal/sgwc/session/session.go: what a session records of its bearers, its PGW and its MME.
use vectorcore_sgw.Common.{
  ℕ, ◌+◌, String, Bool, true, false, none, some, map, number_keys, text_keys, ◌==◌, nat_beq,
  if◌then◌else◌,
}
use vectorcore_sgw.Common.Int.{ℤ, pos_part, non_positive}
use vectorcore_sgw.Common.Maps.{lookup, insert, delete}
use vectorcore_sgw.Sgwc.Session.{
  PathState, up, down, restarted, PolicyAction, Bearer, Session, no_teid, to_recovering, recovered,
  or_current,
}

-- `if source != ""`, and likewise for the address of a peer.
abbrev pub or_kept : String → String → String
or_kept new old = if new == "" then old else new

unfoldable pub mark_bearer_control_activity_locked : String → ℕ → Bearer → Bearer
mark_bearer_control_activity_locked source at b = record b {
  last_control_activity_at = at;
  last_activity_source = or_kept source b.last_activity_source;
  inactive_since = 0;
  cleanup_eligible = false;
}

unfoldable pub set_bearer : ℕ → Bearer → ℕ → Session → Session
set_bearer ebi b now s = record s {
  bearers = insert ebi (mark_bearer_control_activity_locked "set_bearer" now b) s.bearers;
  updated_at = now;
}

-- The bearer is marked before it goes, which its holders see and the session does not.
unfoldable pub delete_bearer : ℕ → ℕ → Session → Session
delete_bearer ebi now s = record s { bearers = delete ebi s.bearers; updated_at = now }

unfoldable pub mark_bearer_control_activity : ℕ → String → ℕ → ℕ → Session → Session × Bool
mark_bearer_control_activity ebi source at now s = elim (lookup ebi s.bearers) [
  | none ↦ (s, false)
  | some b ↦ (
    record s {
      bearers =
          insert ebi (mark_bearer_control_activity_locked source (or_current at now) b) s.bearers;
      updated_at = or_current at now;
    },
    true,
  )
]

unfoldable pub mark_bearer_user_plane_activity : ℕ → String → ℕ → ℕ → Session → Session × Bool
mark_bearer_user_plane_activity ebi source at now s = elim (lookup ebi s.bearers) [
  | none ↦ (s, false)
  | some b ↦ (
    record s {
      bearers =
          insert ebi
            (record b {
              last_user_plane_activity_at = or_current at now;
              last_activity_source = or_kept source b.last_activity_source;
              inactive_since = 0;
              cleanup_eligible = false;
            })
            s.bearers;
      updated_at = or_current at now;
    },
    true,
  )
]

abbrev pub without_enb : ℕ → ℕ × Bearer → ℕ × Bearer
without_enb now entry = (
  entry.0,
  mark_bearer_control_activity_locked "release_access_bearers" now
      (record entry.1 { enb_s1u = no_teid }),
)

unfoldable pub clear_enb_fteids : ℕ → Session → Session
clear_enb_fteids now s = record s { bearers = map (without_enb now) s.bearers; updated_at = now }

-- When a path went down: the first time that it was seen down since it was up.
unfoldable pub down_since : PathState → ℕ → ℕ → ℕ
down_since down at since = if nat_beq since 0 then at else since
down_since up at since = 0
down_since other at since = since

unfoldable pub set_pgw_path_state : PathState → String → ℕ → ℕ → Session → Session
set_pgw_path_state state addr at now s = record s {
  pgw_failure = record s.pgw_failure {
    path_state = state;
    pgw_addr = or_kept addr s.pgw_failure.pgw_addr;
    path_down_at = down_since state (or_current at now) s.pgw_failure.path_down_at;
  };
  updated_at = or_current at now;
}

unfoldable pub mark_pgw_restart : String → ℕ → ℕ → ℕ → Session → Session
mark_pgw_restart addr recovery at now s = record s {
  pgw_failure = record s.pgw_failure {
    path_state = restarted;
    pgw_addr = addr;
    restart_detected_at = or_current at now;
    recovery_seen = true;
    recovery_counter = recovery;
  };
  updated_at = or_current at now;
}

unfoldable pub set_mme_path_state : PathState → String → ℕ → ℕ → Session → Session
set_mme_path_state state addr at now s = record s {
  mme = record s.mme {
    path_state = state;
    mme_addr = or_kept addr s.mme.mme_addr;
    path_down_at = down_since state (or_current at now) s.mme.path_down_at;
  };
  updated_at = or_current at now;
}

unfoldable pub mark_mme_restart : String → ℕ → ℕ → ℕ → Session → Session
mark_mme_restart addr recovery at now s = record s {
  mme = record s.mme {
    path_state = PathState.restoration_pending;
    mme_addr = addr;
    restart_detected_at = or_current at now;
    recovery_seen = true;
    recovery_counter = recovery;
    restoration_pending = true;
  };
  updated_at = or_current at now;
}

unfoldable pub set_mme_restoration_policy : PolicyAction → String → ℕ → ℕ → Session → Session
set_mme_restoration_policy action reason at now s = record s {
  mme = record s.mme { policy_action = action; policy_reason = reason };
  updated_at = or_current at now;
}

unfoldable pub mark_ddn_triggered : ℕ → ℕ → ℕ → Session → Session
mark_ddn_triggered seq at now s = record s {
  mme = record s.mme {
    ddn_triggered = true;
    ddn_triggered_at = or_current at now;
    ddn_sequence = seq;
    ddn_failure_reason = "";
  };
  updated_at = or_current at now;
}

unfoldable pub mark_ddn_failed : String → ℕ → ℕ → Session → Session
mark_ddn_failed reason at now s = record s {
  mme = record s.mme { ddn_failure_reason = reason };
  updated_at = or_current at now;
}

unfoldable pub mark_ddn_control_decision : String → String → String → ℤ → ℕ → ℕ → Session → Session
mark_ddn_control_decision action priority reason retry_after at now s = record s {
  mme = record s.mme {
    ddn_control_action = action;
    ddn_control_priority = priority;
    ddn_control_reason = reason;
    ddn_control_decided_at = or_current at now;
    ddn_control_retry_at =
        if non_positive retry_after then 0 else or_current at now + pos_part retry_after;
  };
  updated_at = or_current at now;
}

-- Cause 16 is Request Accepted.
unfoldable pub mark_ddn_ack : ℕ → ℕ → ℕ → Session → Session
mark_ddn_ack cause at now s = record s {
  mme = record s.mme {
    ddn_acked = true;
    ddn_acked_at = or_current at now;
    ddn_ack_cause = cause;
    ddn_failure_reason = "";
  };
  state = if nat_beq cause 16 then to_recovering s.state else s.state;
  updated_at = or_current at now;
}

unfoldable pub mark_ddn_failure_indication : ℕ → ℕ → ℕ → Session → Session
mark_ddn_failure_indication cause at now s = record s {
  mme = record s.mme {
    ddn_failure_at = or_current at now;
    ddn_failure_cause = cause;
    ddn_failure_reason = "ddn-failure-indication";
  };
  updated_at = or_current at now;
}

unfoldable pub mark_stop_paging_sent : ℕ → ℕ → ℕ → Session → Session
mark_stop_paging_sent seq at now s = record s {
  mme = record s.mme {
    stop_paging_sent = true;
    stop_paging_sent_at = or_current at now;
    stop_paging_sequence = seq;
  };
  updated_at = or_current at now;
}

unfoldable pub mark_user_plane_restored : ℕ → ℕ → ℕ → Session → Session
mark_user_plane_restored ebi at now s = record s {
  mme = record s.mme {
    user_plane_restored = true;
    user_plane_restored_at = or_current at now;
    restored_ebi = ebi;
    restoration_pending = false;
    path_state = up;
  };
  state = recovered s.state;
  updated_at = or_current at now;
}
