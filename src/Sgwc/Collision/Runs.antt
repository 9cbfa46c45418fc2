-- ===== src/Sgwc/Collision/Runs.antt =====
-- Concrete runs of the tracker of internal/sgwc/collision/collision.go, and the theorems at them.
use vectorcore_sgw.Common.{
  ℕ, ◌≡◌, refl, ◌↔◌, true, Option, none, some, [], ◌∷◌, arith, number_keys, ◌==◌, if◌then◌else◌,
  length, ◌+◌, ◌≤◌, subst, ap, is_some,
}
use vectorcore_sgw.Common.Int.{pos}
use vectorcore_sgw.Common.Maps.{lookup, insert, delete}
use vectorcore_sgw.Sgwc.Collision.{
  permissive, strict, pgw, allow, reject_new, bearer_overlap, policy_none, Request, Decision,
  ActiveProcedure, decide, update_bearer, delete_bearer, procedure_pair_rules, default_policy,
  pair_policy, is_bearer_scoped, is_session_wide, decide_by, decide_bearer, overlaps_ebi, is_empty,
  is_permissive, overlap_reason, procedure_name,
}
use vectorcore_sgw.Sgwc.Collision.Decide.{Conflict, decide-Conflict}
use vectorcore_sgw.Sgwc.Collision.Tracker.{
  Tracker, new_tracker_with_timeout, begin, begin_locked, finish, sweep_expired,
  sweep_expired_locked, sweep_loop, is_expired, first_conflict, make_active, repair,
  or_default_timeout, or_default_mode,
}
use vectorcore_sgw.Sgwc.Collision.Invariant.{
  Inv, Reach, created, then_step, begun, Reach-Inv, active-no-Conflict, as_request,
}
use vectorcore_sgw.Sgwc.Collision.Admission.{
  given, procedure_of, sweep_expired-exact, BlockedBy, swept_active, swept, begin-rejected,
  begin-admitted, finish-begin, begin_after_timeout,
}

abbrev update_five : Request
update_five = record {
  procedure = update_bearer;
  owner = pgw;
  peer = "10.0.0.1";
  teid = 7;
  seq = 1;
  ebis = 5 ∷ 6 ∷ [];
  reason = "";
}

abbrev delete_six : Request
delete_six = record update_five { procedure = delete_bearer; seq = 2; ebis = 6 ∷ [] }

abbrev delete_seven : Request
delete_seven = record update_five { procedure = delete_bearer; seq = 3; ebis = 7 ∷ [] }

abbrev update_active : ActiveProcedure
update_active = record {
  id = 1;
  procedure = update_bearer;
  owner = pgw;
  peer = "10.0.0.1";
  teid = 7;
  seq = 1;
  ebis = 5 ∷ 6 ∷ [];
  started_at = 100;
  updated_at = 100;
}

abbrev delete_active : ActiveProcedure
delete_active = record update_active {
  id = 2;
  procedure = delete_bearer;
  seq = 3;
  ebis = 7 ∷ [];
  started_at = 150;
  updated_at = 150;
}

abbrev one_active : Tracker
one_active = record {
  next_id = 1;
  timeout = pos 1000;
  mode = strict;
  active = (1, update_active) ∷ [];
}

abbrev two_active : Tracker
two_active = record one_active {
  next_id = 2;
  active = (1, update_active) ∷ (2, delete_active) ∷ [];
}

abbrev admitted : Decision
admitted = record { action = allow; current = none; reason = ""; policy = policy_none }

-- `begin`, with what a run of it goes through.
run_begin : Request → ℕ → Tracker → Tracker × (Option ActiveProcedure × Decision)
unfolding begin begin_locked repair or_default_timeout or_default_mode sweep_expired_locked
    sweep_loop is_expired first_conflict decide decide_by pair_policy procedure_pair_rules
    default_policy is_session_wide is_bearer_scoped decide_bearer is_empty is_permissive
    overlaps_ebi overlap_reason procedure_name make_active lookup insert delete finish
run_begin = begin

begin_first :
    begin update_five 100 (new_tracker_with_timeout (pos 1000))
    ≡ (one_active, (some update_active, admitted))
unfolding new_tracker_with_timeout run_begin
begin_first = refl

begin_second : begin delete_seven 150 one_active ≡ (two_active, (some delete_active, admitted))
unfolding run_begin
begin_second = refl

one_reached : Reach one_active
unfolding new_tracker_with_timeout
one_reached =
    subst (λ r. Reach r.0) begin_first
      (then_step (created (pos 1000))
        (begun update_five 100 (new_tracker_with_timeout (pos 1000)) (omega arith)))

two_reached : Reach two_active
two_reached =
    subst (λ r. Reach r.0) begin_second
      (then_step one_reached (begun delete_seven 150 one_active (omega arith)))

decide-Conflict_example :
    ((decide strict update_active delete_six).action ≡ reject_new)
    ↔ Conflict strict update_active delete_six
decide-Conflict_example = decide-Conflict strict update_active delete_six

active-no-Conflict_example : ¬ Conflict permissive update_active (as_request delete_active)
unfolding lookup
active-no-Conflict_example = active-no-Conflict 1 2 two_reached refl refl (omega arith)

one_Inv : Inv one_active
one_Inv = Reach-Inv one_reached

abbrev refusal : Decision
refusal = record {
  action = reject_new;
  current = some update_active;
  reason = "bearer procedure overlap: active=UPDATE_BEARER new=DELETE_BEARER";
  policy = bearer_overlap;
}

begin_refused : begin delete_six 150 one_active ≡ (one_active, (none, refusal))
unfolding run_begin
begin_refused = refl

-- The first procedure is dropped 1000 ns after its last update; the second stays.
sweep_expired-exact_example :
    ((k : ℕ) (p : ActiveProcedure)
      → (lookup k (sweep_expired 1120 two_active).0.active ≡ some p)
        ↔ ((lookup k two_active.active ≡ some p) × (1120 ≤ p.updated_at + 1000)))
    × (length (sweep_expired 1120 two_active).0.active + (sweep_expired 1120 two_active).1 ≡ 2)
sweep_expired-exact_example =
    sweep_expired-exact 1120 1000 two_active (Reach-Inv two_reached) (given 999)

begin-rejected_example :
    BlockedBy (or_default_mode one_active.mode) delete_six (swept_active 150 one_active) refusal
    × ((begin delete_six 150 one_active).0 ≡ swept 150 one_active)
begin-rejected_example =
    begin-rejected delete_six 150 one_active refusal one_Inv (ap (λ r. r.1) begin_refused)

begin-admitted_example :
    ((k : ℕ) (p : ActiveProcedure)
      → lookup k (swept_active 150 one_active) ≡ some p
      → ¬ Conflict (or_default_mode one_active.mode) p delete_seven)
    × (delete_active ≡ procedure_of 2 delete_seven 150)
    × (lookup 2 (swept_active 150 one_active) ≡ none)
    × ((k : ℕ)
        → lookup k (begin delete_seven 150 one_active).0.active
          ≡ (if 2 == k then some delete_active else lookup k (swept_active 150 one_active)))
begin-admitted_example =
    begin-admitted delete_seven 150 one_active delete_active admitted one_Inv (omega arith)
      (ap (λ r. r.1) begin_second)

finish-begin_example :
    (finish delete_active (begin delete_seven 150 one_active).0).active
    ≡ swept_active 150 one_active
finish-begin_example =
    finish-begin delete_seven 150 one_active delete_active admitted one_Inv (omega arith)
      (ap (λ r. r.1) begin_second)

begin_after_timeout_example : is_some (begin delete_six 1200 one_active).1.0 ≡ true
unfolding is_expired or_default_timeout
begin_after_timeout_example = begin_after_timeout delete_six 1200 one_active (refl, tt)
