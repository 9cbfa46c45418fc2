-- ===== src/Sgwc/Manager/Creation.antt =====
-- internal/sgwc/session/manager.go: Create, which is two steps: what it does before it takes the mutex,
-- and what it does under it. Other calls may come in between.
use vectorcore_sgw.Common.{
  ℕ, ◌+◌, String, Bool, true, false, not, Option, none, some, List, [], ◌∷◌, ◌++◌, nat_beq,
  number_keys, text_keys, if◌then◌else◌,
}
use vectorcore_sgw.Common.Addr.{Addr, no_addr}
use vectorcore_sgw.Common.Maps.{lookup, insert}
use vectorcore_sgw.Common.Results.{Result, ok, err}
use vectorcore_sgw.Sgwc.Session.{
  Teid, Session, SessionState, ReconciliationState, PathState, PolicyAction, no_pfcp, no_teid,
}
use vectorcore_sgw.Sgwc.Teid.{Allocator, AllocError, alloc, free}
use vectorcore_sgw.Sgwc.Manager.{
  SgwSession, PdnKey, pdn_keys, pdn_key, Manager, find_all_by_s11_teid, remove_locked, free_unused,
}

pub data CreateError : Type 0 where
  teid_alloc_failed : AllocError → CreateError
  session_id_failed : CreateError

pub record CreateParams : Type 0 where
  pub imsi : String
  pub mme_control_fteid : Teid
  pub reuse_sgw_s11_fteid : Teid
  pub default_ebi : ℕ

-- `Create`, the fields of a new session that its own methods write: it is pending, and has its default
-- bearer.
abbrev pub fresh_inner : ℕ → ℕ → Session
fresh_inner ebi now = record {
  state = SessionState.pending;
  updated_at = now;
  next_rule_id = 0;
  bearers =
      (
        ebi,
        record {
          enb_s1u = no_teid;
          sgw_s1u = no_teid;
          sgw_s5u = no_teid;
          last_control_activity_at = now;
          last_user_plane_activity_at = 0;
          last_activity_source = "create_session";
          inactive_since = 0;
          cleanup_eligible = false;
        },
      )
      ∷ [];
  pfcp = no_pfcp;
  reconciliation = record { state = ReconciliationState.unset; at = 0; reason = "" };
  pgw_failure = record {
    path_state = PathState.unset;
    pgw_addr = "";
    path_down_at = 0;
    restart_detected_at = 0;
    recovery_seen = false;
    recovery_counter = 0;
  };
  mme = record {
    path_state = PathState.unset;
    mme_addr = "";
    path_down_at = 0;
    restart_detected_at = 0;
    recovery_seen = false;
    recovery_counter = 0;
    restoration_pending = false;
    policy_action = PolicyAction.unset;
    policy_reason = "";
    ddn_triggered = false;
    ddn_triggered_at = 0;
    ddn_sequence = 0;
    ddn_acked = false;
    ddn_acked_at = 0;
    ddn_ack_cause = 0;
    ddn_failure_at = 0;
    ddn_failure_cause = 0;
    ddn_failure_reason = "";
    ddn_control_action = "";
    ddn_control_priority = "";
    ddn_control_reason = "";
    ddn_control_retry_at = 0;
    ddn_control_decided_at = 0;
    stop_paging_sent = false;
    stop_paging_sent_at = 0;
    stop_paging_sequence = 0;
    user_plane_restored = false;
    user_plane_restored_at = 0;
    restored_ebi = 0;
  };
}

-- `Create`, the session.
abbrev pub created_session : CreateParams → String → Teid → ℕ → SgwSession
created_session p id s11 now = record {
  session_id = id;
  imsi = p.imsi;
  mme_control_fteid = p.mme_control_fteid;
  sgw_s11_fteid = s11;
  pgw_control_fteid = record { teid = 0; ipv4 = no_addr };
  sgw_s5c_fteid = record { teid = 0; ipv4 = no_addr };
  default_bearer_id = p.default_ebi;
  created_at = now;
  inner = fresh_inner p.default_ebi now;
}

-- `Create`, the S11 TEID: the one to reuse, or a new one.
unfoldable pub pick_s11 :
    List (Option ℕ) → CreateParams → Allocator → Result AllocError (Teid × Bool) × Allocator
pick_s11 reads p a =
    if nat_beq p.reuse_sgw_s11_fteid.teid 0
    then (let r = alloc reads a in
        elim r.0 [
          | err e ↦ (err e, r.1)
          | ok t ↦ (ok (record { teid = t; ipv4 = no_addr }, true), r.1)
        ])
    else (ok (p.reuse_sgw_s11_fteid, false), a)

-- `Create` up to where it takes the mutex, which touches the allocator only. `reads` is what the
-- allocator reads of `crypto/rand`, and `id` the new session's identifier, also random; `none` is an
-- error of the read.
unfoldable pub prepare :
    List (Option ℕ)
    → Option String
    → ℕ
    → CreateParams
    → Allocator
    → Result CreateError SgwSession × Allocator
unfolding pick_s11
prepare reads id now p a =
    let picked = pick_s11 reads p a in
    elim picked.0 [
      | err e ↦ (err (teid_alloc_failed e), picked.1)
      | ok s11 ↦ elim id [
        | none ↦ (err session_id_failed, if s11.1 then free s11.0.teid picked.1 else picked.1)
        | some id ↦ (ok (created_session p id s11.0 now), picked.1)
      ]
    ]

module _ (split_host_port : String → Option String) (join_host_port : String → String)
    (addr_text : Addr → String) where
  -- `Create`, the eviction of the session of the same PDN connection.
  unfoldable pub evict : PdnKey → ℕ → Manager → Manager × Option ℕ
  unfolding remove_locked
  evict pdn t m = elim (lookup pdn m.by_pdn) [
    | none ↦ (m, none)
    | some old ↦
        let removed = remove_locked split_host_port join_host_port addr_text old m in
        let old_t = (m.heap old).sgw_s11_fteid.teid in
        (
          if not (nat_beq old_t t)
              then free_unused split_host_port join_host_port addr_text old_t removed
              else removed,
          some old,
        )
  ]

  -- `Create`, the new session in the indexes.
  unfoldable pub register : SgwSession → Manager → Manager
  register s m =
      let t = s.sgw_s11_fteid.teid in
      record m {
        heap = λ k. if nat_beq k m.next then s else m.heap k;
        next = m.next + 1;
        by_id = insert s.session_id m.next m.by_id;
        by_s11 = insert t (find_all_by_s11_teid t m ++ (m.next ∷ [])) m.by_s11;
        by_pdn = insert (pdn_key s) m.next m.by_pdn;
        by_imsi = insert s.imsi m.next m.by_imsi;
      }

  -- `Create` from where it takes the mutex, with the session that has been made before. The result is the
  -- reference to it, and to the session that was evicted.
  unfoldable pub create_locked : SgwSession → Manager → (ℕ × Option ℕ) × Manager
  unfolding evict register
  create_locked s m =
      let evicted = evict (pdn_key s) s.sgw_s11_fteid.teid m in
      ((evicted.0.next, evicted.1), register s evicted.0)
