-- ===== src/Sgwc/Collision/Tracker.antt =====
-- The operations of `Tracker` in internal/sgwc/collision/collision.go. A method that changes the
-- tracker returns the new one; each runs under the tracker's mutex. The clock is an argument.
use vectorcore_sgw.Common.{
  ℕ, suc, ◌+◌, ◌*◌, ◌^◌, ◌%◌, Bool, true, false, Option, none, some, List, [], ◌∷◌, map,
  number_keys, ◌==◌, if◌then◌else◌,
}
use vectorcore_sgw.Common.Int.{ℤ, pos, sub_ℕ, ltb_ℤ, non_positive}
use vectorcore_sgw.Common.Maps.{insert, delete}
use vectorcore_sgw.Sgwc.Collision.{
  Mode, mode_unset, strict, Action, allow, reject_new, policy_none, Request, ActiveProcedure,
  Decision, decide,
}

pub record Tracker : Type 0 where
  pub next_id : ℕ
  pub timeout : ℤ
  pub mode : Mode
  pub active : List (ℕ × ActiveProcedure)

-- two minutes, in nanoseconds
abbrev pub default_active_procedure_timeout : ℤ
default_active_procedure_timeout = pos (120 * 1000000000)

unfoldable pub or_default_timeout : ℤ → ℤ
or_default_timeout timeout =
    if non_positive timeout then default_active_procedure_timeout else timeout

unfoldable pub or_default_mode : Mode → Mode
or_default_mode mode_unset = strict
or_default_mode mode = mode

unfoldable pub new_tracker_with_timeout : ℤ → Tracker
unfolding or_default_timeout
new_tracker_with_timeout timeout = record {
  next_id = 0;
  timeout = or_default_timeout timeout;
  mode = strict;
  active = [];
}

unfoldable pub new_tracker : Tracker
unfolding new_tracker_with_timeout
new_tracker = new_tracker_with_timeout default_active_procedure_timeout

unfoldable pub configure : Mode → ℤ → Tracker → Tracker
unfolding or_default_timeout or_default_mode
configure mode timeout t = record t {
  mode = or_default_mode mode;
  timeout = or_default_timeout timeout;
}

-- `now.Sub(proc.UpdatedAt) > t.timeout`
unfoldable pub is_expired : ℤ → ℕ → ActiveProcedure → Bool
is_expired timeout now proc = ltb_ℤ timeout (sub_ℕ now proc.updated_at)

-- The loop of `sweepExpiredLocked`: what stays, and how many were deleted.
unfoldable pub sweep_loop : ℤ → ℕ → List (ℕ × ActiveProcedure) → List (ℕ × ActiveProcedure) × ℕ
unfolding is_expired
sweep_loop timeout now [] = ([], 0)
sweep_loop timeout now ((id, proc) ∷ rest) =
    let swept = sweep_loop timeout now rest in
    if is_expired timeout now proc then (swept.0, suc swept.1) else ((id, proc) ∷ swept.0, swept.1)

unfoldable pub sweep_expired_locked : ℕ → Tracker → Tracker × ℕ
unfolding sweep_loop
sweep_expired_locked now t =
    let swept = sweep_loop t.timeout now t.active in (record t { active = swept.0 }, swept.1)

unfoldable pub sweep_expired : ℕ → Tracker → Tracker × ℕ
unfolding sweep_expired_locked or_default_timeout
sweep_expired now t = sweep_expired_locked now (record t { timeout = or_default_timeout t.timeout })

abbrev pub is_allow : Action → Bool
is_allow allow = true
is_allow reject_new = false

-- The loop of `Begin` over the active procedures: the first decision that does not allow.
unfoldable pub first_conflict : Mode → Request → List (ℕ × ActiveProcedure) → Option Decision
first_conflict mode req [] = none
first_conflict mode req ((id, cur) ∷ rest) =
    let d = decide mode cur req in
    if is_allow d.action
    then first_conflict mode req rest
    else some (record d { current = some cur })

-- `t.nextID++`, a uint64
abbrev pub bump_id : ℕ → ℕ
bump_id n = (n + 1) % 2 ^ 64

unfoldable pub make_active : ℕ → Request → ℕ → ActiveProcedure
make_active id req now = record {
  id = id;
  procedure = req.procedure;
  owner = req.owner;
  peer = req.peer;
  teid = req.teid;
  seq = req.seq;
  ebis = req.ebis;
  started_at = now;
  updated_at = now;
}

-- The zero values that `Begin` repairs before it looks at the clock.
unfoldable pub repair : Tracker → Tracker
unfolding or_default_timeout or_default_mode
repair t = record t { timeout = or_default_timeout t.timeout; mode = or_default_mode t.mode }

-- The rest of `Begin`, on a tracker that is repaired and swept. The procedure is `none` where Go
-- returns the zero value.
unfoldable pub begin_locked : Request → ℕ → Tracker → Tracker × (Option ActiveProcedure × Decision)
begin_locked req now t = elim (first_conflict t.mode req t.active) [
  | some d ↦ (t, (none, d))
  | none ↦
      let id : ℕ = bump_id t.next_id in
      let proc : ActiveProcedure = make_active id req now in
      (
        record t { next_id = id; active = insert id proc t.active },
        (some proc, record { action = allow; current = none; reason = ""; policy = policy_none }),
      )
]

-- `Begin` on a tracker that is not nil.
unfoldable pub begin : Request → ℕ → Tracker → Tracker × (Option ActiveProcedure × Decision)
begin req now t = begin_locked req now (sweep_expired_locked now (repair t)).0

unfoldable pub finish : ActiveProcedure → Tracker → Tracker
finish proc t = if proc.id == 0 then t else record t { active = delete proc.id t.active }

-- `Active`: the procedures in iteration order.
unfoldable pub active_procedures : Tracker → List ActiveProcedure
active_procedures t = map (λ entry. entry.1) t.active
