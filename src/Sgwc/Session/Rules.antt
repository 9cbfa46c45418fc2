-- ===== src/Sgwc/Session/Rules.antt =====
-- internal/sgwc/session/session.go: the identifiers that AllocBearerRuleIDs gives to the rules of
-- dedicated bearers, over the life of a session.
use vectorcore_sgw.Common.{
  ℕ, suc, ◌+◌, ◌*◌, ◌%◌, ◌^◌, ◌<◌, ◌≤◌, ◌≡◌, refl, ◌&&◌, List, [], ◌∷◌, All, length, arith, inl,
  inr, Bool-cases, Option-cases, text_keys, ◌==◌, number_keys, nat_beq, if◌then◌else◌,
}
use vectorcore_sgw.Common.Maps.{lookup}
use vectorcore_sgw.Sgwc.Session.{
  Session, ReconciliationState, RuleIds, valid_transition, transition, rule_base,
  alloc_bearer_rule_ids, set_pfcp_binding, reconciled, mark_pfcp_reconciliation, had_pfcp,
  invalidate_pfcp_binding, invalidate_pfcp_binding_for_peer,
}
use vectorcore_sgw.Sgwc.Session.Peers.{
  set_bearer, delete_bearer, mark_bearer_control_activity, mark_bearer_user_plane_activity,
  clear_enb_fteids, set_pgw_path_state, mark_pgw_restart, set_mme_path_state, mark_mme_restart,
  set_mme_restoration_policy, mark_ddn_triggered, mark_ddn_failed, mark_ddn_control_decision,
  mark_ddn_ack, mark_ddn_failure_indication, mark_stop_paging_sent, mark_user_plane_restored,
}
use vectorcore_sgw.Sgwc.Session.Machine.{
  Step, transitioned, bound, compared, invalidated, peer_lost, bearer_set, bearer_deleted,
  control_seen, user_plane_seen, access_released, pgw_path, pgw_restarted, mme_path, mme_restarted,
  policy_set, ddn_failed, ddn_controlled, ddn_refused, paging_stopped, restored,
}

reconciled-next_rule_id :
    (state : ReconciliationState) (s : Session) → (reconciled state s).next_rule_id ≡ s.next_rule_id
unfolding reconciled
reconciled-next_rule_id ReconciliationState.unset s = refl
reconciled-next_rule_id ReconciliationState.unknown s = refl
reconciled-next_rule_id ReconciliationState.matched s = refl
reconciled-next_rule_id ReconciliationState.missing s = refl
reconciled-next_rule_id ReconciliationState.mismatched s = refl
reconciled-next_rule_id ReconciliationState.unverifiable s = refl
reconciled-next_rule_id ReconciliationState.no_binding s = refl

invalidate-next_rule_id :
    (now : ℕ) (s : Session) → (invalidate_pfcp_binding now s).0.next_rule_id ≡ s.next_rule_id
unfolding invalidate_pfcp_binding
invalidate-next_rule_id now s = elim (Bool-cases (had_pfcp s.pfcp)) [
  | inl had ↦ rw had refl
  | inr none_there ↦ rw none_there refl
]

-- No other method writes the counter.
step-next_rule_id : {s t : Session} → Step s t → t.next_rule_id ≡ s.next_rule_id
unfolding transition mark_pfcp_reconciliation invalidate_pfcp_binding_for_peer mark_ddn_ack
    mark_user_plane_restored set_pfcp_binding set_bearer delete_bearer clear_enb_fteids
    set_pgw_path_state mark_pgw_restart set_mme_path_state mark_mme_restart
    set_mme_restoration_policy mark_ddn_triggered mark_ddn_failed mark_ddn_control_decision
    mark_ddn_failure_indication mark_stop_paging_sent mark_bearer_control_activity
    mark_bearer_user_plane_activity
step-next_rule_id (transitioned {s} next now) = elim (Bool-cases (valid_transition s.state next)) [
  | inl valid ↦ rw valid refl
  | inr refused ↦ rw refused refl
]
step-next_rule_id (bound p now) = refl
step-next_rule_id (compared {s} state reason at now) = reconciled-next_rule_id state s
step-next_rule_id (invalidated {s} now) = invalidate-next_rule_id now s
step-next_rule_id (peer_lost {s} name addr now) =
    elim (Bool-cases ((s.pfcp.sgwu_name == name) && (s.pfcp.sgwu_addr == addr))) [
      | inl mine ↦ rw mine (invalidate-next_rule_id now s)
      | inr other ↦ rw other refl
    ]
step-next_rule_id (bearer_set ebi b now) = refl
step-next_rule_id (bearer_deleted ebi now) = refl
step-next_rule_id (control_seen {s} ebi source at now) =
    elim (Option-cases (lookup ebi s.bearers)) [
      | inl absent ↦ rw (absent, mark_bearer_control_activity) refl
      | inr there ↦ rw (there.1, mark_bearer_control_activity) refl
    ]
step-next_rule_id (user_plane_seen {s} ebi source at now) =
    elim (Option-cases (lookup ebi s.bearers)) [
      | inl absent ↦ rw (absent, mark_bearer_user_plane_activity) refl
      | inr there ↦ rw (there.1, mark_bearer_user_plane_activity) refl
    ]
step-next_rule_id (access_released now) = refl
step-next_rule_id (pgw_path state addr at now) = refl
step-next_rule_id (pgw_restarted addr recovery at now) = refl
step-next_rule_id (mme_path state addr at now) = refl
step-next_rule_id (mme_restarted addr recovery at now) = refl
step-next_rule_id (policy_set action reason at now) = refl
step-next_rule_id (Step.ddn_triggered seq at now) = refl
step-next_rule_id (ddn_failed reason at now) = refl
step-next_rule_id (ddn_controlled action priority reason retry at now) = refl
step-next_rule_id (Step.ddn_acked cause at now) = refl
step-next_rule_id (ddn_refused cause at now) = refl
step-next_rule_id (paging_stopped seq at now) = refl
step-next_rule_id (restored ebi at now) = refl

-- The life of a session from one whose counter is 0, with the identifiers given so far, the last first.
pub data Issued : List RuleIds → Session → Type 0 where
  created : {s : Session} → s.next_rule_id ≡ 0 → Issued [] s
  moved : {given : List RuleIds} {s t : Session} → Issued given s → Step s t → Issued given t
  issued :
      {given : List RuleIds} {s : Session}
      → Issued given s
      → Issued ((alloc_bearer_rule_ids s).1 ∷ given) (alloc_bearer_rule_ids s).0

-- Every identifier is below the two numbers.
abbrev pub Below : ℕ → ℕ → RuleIds → Type 0
Below pdr far ids =
    (ids.pdr_ul < pdr) × (ids.pdr_dl < pdr) × (ids.far_ul < far) × (ids.far_dl < far)

-- Neither 1 nor 2, different from each other, and greater than all that were given before.
unfoldable pub Ascending : List RuleIds → Type 0
Ascending [] = Unit
Ascending (ids ∷ given) =
    (2 < ids.pdr_ul)
    × (ids.pdr_ul < ids.pdr_dl)
    × (2 < ids.far_ul)
    × (ids.far_ul < ids.far_dl)
    × All (Below ids.pdr_ul ids.far_ul) given
    × Ascending given

Below-later :
    (n m : ℕ) (given : List RuleIds) → n ≤ m → All (Below n n) given → All (Below m m) given
Below-later n m [] le h = tt
Below-later n m (ids ∷ given) le ((a, b, c, d), rest) =
    ((omega arith, omega arith, omega arith, omega arith), Below-later n m given le rest)

-- The counter, and the identifiers, after so many allocations that none has wrapped.
abbrev Counted : List RuleIds → Session → Type 0
Counted given s =
    (rule_base s ≡ 3 + 2 * length given)
    × All (Below (3 + 2 * length given) (3 + 2 * length given)) given
    × Ascending given

base_is : (k m : ℕ) → k ≡ m → 0 < m → (if nat_beq k 0 then 3 else k) ≡ m
base_is k m e h = ground arith

alloc-Counted :
    (given : List RuleIds) (s : Session)
    → suc (length given) < 32767
    → Counted given s
    → Counted ((alloc_bearer_rule_ids s).1 ∷ given) (alloc_bearer_rule_ids s).0
unfolding alloc_bearer_rule_ids Ascending
alloc-Counted given s few (base, below, ascending) =
    let n = length given in
    let pdr_ul : rule_base s % 2 ^ 16 ≡ 3 + 2 * n = omega (arith, base, few) in
    let far_dl : (rule_base s + 1) % 2 ^ 32 ≡ 4 + 2 * n = omega (arith, base, few) in
    let pdr_dl : (rule_base s + 1) % 2 ^ 32 % 2 ^ 16 ≡ 4 + 2 * n = omega (arith, base, few) in
    let next : (rule_base s + 2) % 2 ^ 32 ≡ 5 + 2 * n = omega (arith, base, few) in
    (
      base_is ((rule_base s + 2) % 2 ^ 32) (3 + 2 * suc n) (omega (arith, next)) (omega arith),
      (
        (omega (arith, pdr_ul), omega (arith, pdr_dl), omega (arith, base), omega (arith, far_dl)),
        Below-later (3 + 2 * n) (3 + 2 * suc n) given (omega arith) below,
      ),
      (
        omega (arith, pdr_ul),
        omega (arith, pdr_ul, pdr_dl),
        omega (arith, base),
        omega (arith, base, far_dl),
        rw (pdr_ul, base) below,
        ascending,
      ),
    )

Issued-Counted :
    {given : List RuleIds} {s : Session} → Issued given s → length given < 32767 → Counted given s
unfolding Ascending alloc_bearer_rule_ids
Issued-Counted (created {s} zero_counter) few = (rw zero_counter refl, tt, tt)
Issued-Counted (moved {given} {s} {t} r step) few =
    let before = Issued-Counted r few in (rw (step-next_rule_id step) before.0, before.1, before.2)
Issued-Counted (issued {given} {s} r) few =
    alloc-Counted given s few (Issued-Counted r (omega (arith, few)))

-- While a session whose counter starts at 0 has had fewer than 32767 allocations, whatever other
-- methods are called in between, no rule identifier is 1 or 2, and each is greater than all that were
-- given before, as a 16-bit PDR identifier and as a 32-bit FAR identifier: none is given twice.
pub Issued-Ascending :
    {given : List RuleIds} {s : Session} → Issued given s → length given < 32767 → Ascending given
Issued-Ascending r few = (Issued-Counted r few).2
