-- ===== src/Sgwc/Session/Machine.antt =====
-- internal/sgwc/session/session.go: the state machine of a session under all of its methods.
use vectorcore_sgw.Common.{
  ℕ, ◌≡◌, refl, ◌∙◌, subst, ◌⊎◌, inl, inr, String, true, ◌&&◌, Bool-cases, Option-cases, text_keys,
  ◌==◌, number_keys, nat_beq,
}
use vectorcore_sgw.Common.Int.{ℤ}
use vectorcore_sgw.Common.Maps.{lookup}
use vectorcore_sgw.Sgwc.Session.{
  SessionState, deleting, deleted, PfcpSessionBinding, ReconciliationState, PathState, PolicyAction,
  Bearer, Session, valid_transition, transition, to_recovering, recovered, alloc_bearer_rule_ids,
  set_pfcp_binding, reconciled, mark_pfcp_reconciliation, had_pfcp, invalidate_pfcp_binding,
  invalidate_pfcp_binding_for_peer,
}
use vectorcore_sgw.Sgwc.Session.Peers.{
  set_bearer, delete_bearer, mark_bearer_control_activity, mark_bearer_user_plane_activity,
  clear_enb_fteids, set_pgw_path_state, mark_pgw_restart, set_mme_path_state, mark_mme_restart,
  set_mme_restoration_policy, mark_ddn_triggered, mark_ddn_failed, mark_ddn_control_decision,
  mark_ddn_ack, mark_ddn_failure_indication, mark_stop_paging_sent, mark_user_plane_restored,
}

-- One call of a method, other than of `AllocBearerRuleIDs`.
pub data Step : Session → Session → Type 0 where
  transitioned : {s : Session} (next : SessionState) (now : ℕ) → Step s (transition next now s).0
  bound : {s : Session} (p : PfcpSessionBinding) (now : ℕ) → Step s (set_pfcp_binding p now s)
  compared :
      {s : Session} (state : ReconciliationState) (reason : String) (at now : ℕ)
      → Step s (mark_pfcp_reconciliation state reason at now s)
  invalidated : {s : Session} (now : ℕ) → Step s (invalidate_pfcp_binding now s).0
  peer_lost :
      {s : Session} (name addr : String) (now : ℕ)
      → Step s (invalidate_pfcp_binding_for_peer name addr now s).0
  bearer_set : {s : Session} (ebi : ℕ) (b : Bearer) (now : ℕ) → Step s (set_bearer ebi b now s)
  bearer_deleted : {s : Session} (ebi now : ℕ) → Step s (delete_bearer ebi now s)
  control_seen :
      {s : Session} (ebi : ℕ) (source : String) (at now : ℕ)
      → Step s (mark_bearer_control_activity ebi source at now s).0
  user_plane_seen :
      {s : Session} (ebi : ℕ) (source : String) (at now : ℕ)
      → Step s (mark_bearer_user_plane_activity ebi source at now s).0
  access_released : {s : Session} (now : ℕ) → Step s (clear_enb_fteids now s)
  pgw_path :
      {s : Session} (state : PathState) (addr : String) (at now : ℕ)
      → Step s (set_pgw_path_state state addr at now s)
  pgw_restarted :
      {s : Session} (addr : String) (recovery at now : ℕ)
      → Step s (mark_pgw_restart addr recovery at now s)
  mme_path :
      {s : Session} (state : PathState) (addr : String) (at now : ℕ)
      → Step s (set_mme_path_state state addr at now s)
  mme_restarted :
      {s : Session} (addr : String) (recovery at now : ℕ)
      → Step s (mark_mme_restart addr recovery at now s)
  policy_set :
      {s : Session} (action : PolicyAction) (reason : String) (at now : ℕ)
      → Step s (set_mme_restoration_policy action reason at now s)
  ddn_triggered : {s : Session} (seq at now : ℕ) → Step s (mark_ddn_triggered seq at now s)
  ddn_failed :
      {s : Session} (reason : String) (at now : ℕ) → Step s (mark_ddn_failed reason at now s)
  ddn_controlled :
      {s : Session} (action priority reason : String) (retry : ℤ) (at now : ℕ)
      → Step s (mark_ddn_control_decision action priority reason retry at now s)
  ddn_acked : {s : Session} (cause at now : ℕ) → Step s (mark_ddn_ack cause at now s)
  ddn_refused :
      {s : Session} (cause at now : ℕ) → Step s (mark_ddn_failure_indication cause at now s)
  paging_stopped : {s : Session} (seq at now : ℕ) → Step s (mark_stop_paging_sent seq at now s)
  restored : {s : Session} (ebi at now : ℕ) → Step s (mark_user_plane_restored ebi at now s)

-- Any number of calls.
pub data Steps : Session → Session → Type 0 where
  none_yet : {s : Session} → Steps s s
  after : {s t u : Session} → Steps s t → Step t u → Steps s u
  allocated : {s t : Session} → Steps s t → Steps s (alloc_bearer_rule_ids t).0

-- A state that is kept, or left along the table of `validTransition`.
abbrev pub Follows : SessionState → SessionState → Type 0
Follows a b = (b ≡ a) ⊎ (valid_transition a b ≡ true)

to_recovering-Follows : (a : SessionState) → Follows a (to_recovering a)
unfolding to_recovering valid_transition
to_recovering-Follows SessionState.pending = inr refl
to_recovering-Follows SessionState.active = inr refl
to_recovering-Follows SessionState.modifying = inr refl
to_recovering-Follows SessionState.recovering = inl refl
to_recovering-Follows deleting = inl refl
to_recovering-Follows deleted = inl refl

recovered-Follows : (a : SessionState) → Follows a (recovered a)
unfolding recovered valid_transition
recovered-Follows SessionState.pending = inl refl
recovered-Follows SessionState.active = inl refl
recovered-Follows SessionState.modifying = inl refl
recovered-Follows SessionState.recovering = inr refl
recovered-Follows deleting = inl refl
recovered-Follows deleted = inl refl

transition-Follows :
    (next : SessionState) (now : ℕ) (s : Session) → Follows s.state (transition next now s).0.state
unfolding transition
transition-Follows next now s = elim (Bool-cases (valid_transition s.state next)) [
  | inl valid ↦ rw valid (inr valid)
  | inr refused ↦ rw refused (inl refl)
]

reconciled-Follows :
    (state : ReconciliationState) (s : Session) → Follows s.state (reconciled state s).state
unfolding reconciled
reconciled-Follows ReconciliationState.unset s = inl refl
reconciled-Follows ReconciliationState.unknown s = inl refl
reconciled-Follows ReconciliationState.matched s = recovered-Follows s.state
reconciled-Follows ReconciliationState.missing s = to_recovering-Follows s.state
reconciled-Follows ReconciliationState.mismatched s = to_recovering-Follows s.state
reconciled-Follows ReconciliationState.unverifiable s = to_recovering-Follows s.state
reconciled-Follows ReconciliationState.no_binding s = to_recovering-Follows s.state

invalidate-Follows :
    (now : ℕ) (s : Session) → Follows s.state (invalidate_pfcp_binding now s).0.state
unfolding invalidate_pfcp_binding
invalidate-Follows now s = elim (Bool-cases (had_pfcp s.pfcp)) [
  | inl had ↦ rw had (to_recovering-Follows s.state)
  | inr none_there ↦ rw none_there (inl refl)
]

-- Every method keeps the state or moves it along the table of validTransition, also those that write
-- the state without asking the table: reconciliation, the loss of the user plane, the DDN
-- acknowledgement and the restoration of the user plane.
pub step-Follows : {s t : Session} → Step s t → Follows s.state t.state
unfolding mark_pfcp_reconciliation invalidate_pfcp_binding_for_peer mark_ddn_ack
    mark_user_plane_restored set_pfcp_binding set_bearer delete_bearer mark_bearer_control_activity
    mark_bearer_user_plane_activity clear_enb_fteids set_pgw_path_state mark_pgw_restart
    set_mme_path_state mark_mme_restart set_mme_restoration_policy mark_ddn_triggered
    mark_ddn_failed mark_ddn_control_decision mark_ddn_failure_indication mark_stop_paging_sent
step-Follows (transitioned {s} next now) = transition-Follows next now s
step-Follows (bound p now) = inl refl
step-Follows (compared {s} state reason at now) = reconciled-Follows state s
step-Follows (invalidated {s} now) = invalidate-Follows now s
step-Follows (peer_lost {s} name addr now) =
    elim (Bool-cases ((s.pfcp.sgwu_name == name) && (s.pfcp.sgwu_addr == addr))) [
      | inl mine ↦ rw mine (invalidate-Follows now s)
      | inr other ↦ rw other (inl refl)
    ]
step-Follows (bearer_set ebi b now) = inl refl
step-Follows (bearer_deleted ebi now) = inl refl
step-Follows (control_seen {s} ebi source at now) = elim (Option-cases (lookup ebi s.bearers)) [
  | inl absent ↦ rw (absent, mark_bearer_control_activity) (inl refl)
  | inr there ↦ rw (there.1, mark_bearer_control_activity) (inl refl)
]
step-Follows (user_plane_seen {s} ebi source at now) = elim (Option-cases (lookup ebi s.bearers)) [
  | inl absent ↦ rw (absent, mark_bearer_user_plane_activity) (inl refl)
  | inr there ↦ rw (there.1, mark_bearer_user_plane_activity) (inl refl)
]
step-Follows (access_released now) = inl refl
step-Follows (pgw_path state addr at now) = inl refl
step-Follows (pgw_restarted addr recovery at now) = inl refl
step-Follows (mme_path state addr at now) = inl refl
step-Follows (mme_restarted addr recovery at now) = inl refl
step-Follows (policy_set action reason at now) = inl refl
step-Follows (Step.ddn_triggered seq at now) = inl refl
step-Follows (ddn_failed reason at now) = inl refl
step-Follows (ddn_controlled action priority reason retry at now) = inl refl
step-Follows (Step.ddn_acked {s} cause at now) = elim (Bool-cases (nat_beq cause 16)) [
  | inl accepted ↦ rw accepted (to_recovering-Follows s.state)
  | inr other ↦ rw other (inl refl)
]
step-Follows (ddn_refused cause at now) = inl refl
step-Follows (paging_stopped seq at now) = inl refl
step-Follows (restored {s} ebi at now) = recovered-Follows s.state

-- Where a session in deletion can come to.
unfoldable pub Onward : SessionState → SessionState → Type 0
Onward deleted b = b ≡ deleted
Onward deleting b = (b ≡ deleting) ⊎ (b ≡ deleted)
Onward a b = Unit

from_deleted : (c : SessionState) → valid_transition deleted c ≡ true → c ≡ deleted
unfolding valid_transition
from_deleted SessionState.pending h = cc
from_deleted SessionState.active h = cc
from_deleted SessionState.modifying h = cc
from_deleted SessionState.recovering h = cc
from_deleted deleting h = cc
from_deleted deleted h = refl

from_deleting : (c : SessionState) → valid_transition deleting c ≡ true → c ≡ deleted
unfolding valid_transition
from_deleting SessionState.pending h = cc
from_deleting SessionState.active h = cc
from_deleting SessionState.modifying h = cc
from_deleting SessionState.recovering h = cc
from_deleting deleting h = cc
from_deleting deleted h = refl

deleted-Follows : (b c : SessionState) → b ≡ deleted → Follows b c → c ≡ deleted
deleted-Follows b c e (inl same) = same ∙ e
deleted-Follows b c e (inr valid) =
    from_deleted c (subst (λ x. valid_transition x c ≡ true) e valid)

Onward-Follows : (a b c : SessionState) → Onward a b → Follows b c → Onward a c
unfolding Onward
Onward-Follows SessionState.pending b c h f = tt
Onward-Follows SessionState.active b c h f = tt
Onward-Follows SessionState.modifying b c h f = tt
Onward-Follows SessionState.recovering b c h f = tt
Onward-Follows deleted b c h f = deleted-Follows b c h f
Onward-Follows deleting b c (inr h) f = inr (deleted-Follows b c h f)
Onward-Follows deleting b c (inl h) (inl same) = inl (same ∙ h)
Onward-Follows deleting b c (inl h) (inr valid) =
    inr (from_deleting c (subst (λ x. valid_transition x c ≡ true) h valid))

Onward-refl : (a : SessionState) → Onward a a
unfolding Onward
Onward-refl SessionState.pending = tt
Onward-refl SessionState.active = tt
Onward-refl SessionState.modifying = tt
Onward-refl SessionState.recovering = tt
Onward-refl deleting = inl refl
Onward-refl deleted = refl

-- Whatever methods are called, a deleted session stays deleted, and one in deletion comes to no other
-- state than deleted.
pub Steps-Onward : {s t : Session} → Steps s t → Onward s.state t.state
unfolding alloc_bearer_rule_ids
Steps-Onward (none_yet {s}) = Onward-refl s.state
Steps-Onward (after {s} {t} {u} before step) =
    Onward-Follows s.state t.state u.state (Steps-Onward before) (step-Follows step)
Steps-Onward (allocated before) = Steps-Onward before
