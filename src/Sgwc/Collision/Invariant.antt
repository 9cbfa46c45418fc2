-- ===== src/Sgwc/Collision/Invariant.antt =====
-- Trackers of internal/sgwc/collision/collision.go between two calls: the keys of the map, and the
-- conflicts among its procedures.
use vectorcore_sgw.Common.{
  ℕ, suc, ◌+◌, ◌^◌, ◌≤◌, ◌<◌, ◌≡◌, refl, inl, inr, true, none, some, List, [], ◌∷◌, ◌++◌, All,
  All-append, All-imp, All-both, arith, number_keys, nat_beq_iff, ◌==◌, Bool-cases, Option-cases,
  subst,
}
use vectorcore_sgw.Common.Int.{ℤ}
use vectorcore_sgw.Common.Maps.{
  lookup, insert, delete, Distinct, insert-Distinct, delete-Distinct, delete-All, lookup-All,
  insert_fresh,
}
use vectorcore_sgw.Sgwc.Collision.{Mode, permissive, Request, ActiveProcedure, decide}
use vectorcore_sgw.Sgwc.Collision.Decide.{
  Conflict, whole_session, unknown_scope, shared_bearer, decide-Conflict,
}
use vectorcore_sgw.Sgwc.Collision.Tracker.{
  Tracker, is_allow, sweep_loop, is_expired, first_conflict, make_active, repair, begin_locked,
  begin, finish, configure, sweep_expired, sweep_expired_locked, new_tracker_with_timeout, bump_id,
}

-- An active procedure, read as the request that it came from.
abbrev pub as_request : ActiveProcedure → Request
as_request p = record {
  procedure = p.procedure;
  owner = p.owner;
  peer = p.peer;
  teid = p.teid;
  seq = p.seq;
  ebis = p.ebis;
  reason = "";
}

abbrev pub Entry : Type 0
Entry = ℕ × ActiveProcedure

abbrev pub Issued : ℕ → Entry → Type 0
Issued last entry = (entry.1.id ≡ entry.0) × (0 < entry.0) × (entry.0 ≤ last)

-- The later entry has the greater identifier, and does not conflict with the earlier one.
abbrev pub Follows : Entry → Entry → Type 0
Follows earlier later = (earlier.0 < later.0) × ¬ Conflict permissive earlier.1 (as_request later.1)

abbrev pub Serial : List Entry → Type 0
Serial [] = Unit
Serial (entry ∷ rest) = All (Follows entry) rest × Serial rest

pub record Inv (t : Tracker) : Type 0 where
  pub distinct : Distinct t.active
  pub issued : All (Issued t.next_id) t.active
  pub serial : Serial t.active

module _ (timeout : ℤ) (now : ℕ) where
  sweep-All : (P : Entry → Type 0) (m : List Entry) → All P m → All P (sweep_loop timeout now m).0
  unfolding sweep_loop
  sweep-All P [] h = h
  sweep-All P ((id, p) ∷ m) h = elim (Bool-cases (is_expired timeout now p)) [
    | inl old ↦ rw old (sweep-All P m h.1)
    | inr new ↦ rw new (h.0, sweep-All P m h.1)
  ]

  sweep_absent :
      (k : ℕ) (m : List Entry) → lookup k m ≡ none → lookup k (sweep_loop timeout now m).0 ≡ none
  unfolding sweep_loop lookup
  sweep_absent k [] h = refl
  sweep_absent k ((id, p) ∷ m) h = ground (arith, sweep_absent k m)

  sweep-Distinct : (m : List Entry) → Distinct m → Distinct (sweep_loop timeout now m).0
  unfolding sweep_loop
  sweep-Distinct [] h = h
  sweep-Distinct ((id, p) ∷ m) h = elim (Bool-cases (is_expired timeout now p)) [
    | inl old ↦ rw old (sweep-Distinct m h.1)
    | inr new ↦ rw new (sweep_absent id m h.0, sweep-Distinct m h.1)
  ]

  sweep-Serial : (m : List Entry) → Serial m → Serial (sweep_loop timeout now m).0
  unfolding sweep_loop
  sweep-Serial [] h = h
  sweep-Serial ((id, p) ∷ m) h = elim (Bool-cases (is_expired timeout now p)) [
    | inl old ↦ rw old (sweep-Serial m h.1)
    | inr new ↦ rw new (sweep-All (Follows (id, p)) m h.0, sweep-Serial m h.1)
  ]

delete-Serial : (k : ℕ) (m : List Entry) → Serial m → Serial (delete k m)
unfolding delete
delete-Serial k [] h = h
delete-Serial k ((id, p) ∷ m) h = elim (Bool-cases (id == k)) [
  | inl same ↦ rw same (delete-Serial k m h.1)
  | inr other ↦ rw other (delete-All (Follows (id, p)) k m h.0, delete-Serial k m h.1)
]

append-Serial :
    (x : Entry) (m : List Entry)
    → Serial m
    → All (λ entry. Follows entry x) m
    → Serial (m ++ (x ∷ []))
append-Serial x [] s f = (tt, tt)
append-Serial x (e ∷ m) s f =
    (All-append (Follows e) m (x ∷ []) s.0 (f.0, tt), append-Serial x m s.1 f.1)

pub Issued-absent : (n : ℕ) (m : List Entry) → All (Issued n) m → lookup (suc n) m ≡ none
unfolding lookup
Issued-absent n [] h = refl
Issued-absent n ((id, p) ∷ m) h = ground (arith, Issued-absent n m h.1)

-- What the loop of `Begin` has found out when it ends.
pub first_conflict-none :
    (mode : Mode) (req : Request) (m : List Entry)
    → first_conflict mode req m ≡ none
    → All (λ entry. ¬ Conflict mode entry.1 req) m
unfolding first_conflict
first_conflict-none mode req [] h = tt
first_conflict-none mode req ((id, p) ∷ m) h =
    elim (Bool-cases (is_allow (decide mode p req).action)) [
      | inl pass ↦ (
        λ c. cc (subst (λ a. is_allow a ≡ true) ((decide-Conflict mode p req).1 c) pass),
        first_conflict-none mode req m (rw pass at h),
      )
      | inr stop ↦ cc (rw stop at h)
    ]

permissive-Conflict :
    (mode : Mode) (p : ActiveProcedure) (id now : ℕ) (req : Request)
    → Conflict permissive p (as_request (make_active id req now))
    → Conflict mode p req
unfolding make_active
permissive-Conflict mode p id now req (whole_session x b) = whole_session x b
permissive-Conflict mode p id now req (unknown_scope x m s) = absurd (m refl)
permissive-Conflict mode p id now req (shared_bearer x e l r) = shared_bearer x e l r

pub sweep-Inv : (now : ℕ) (t : Tracker) → Inv t → Inv (sweep_expired_locked now t).0
unfolding sweep_expired_locked
sweep-Inv now t h = record {
  distinct = sweep-Distinct t.timeout now t.active h.distinct;
  issued = sweep-All t.timeout now (Issued t.next_id) t.active h.issued;
  serial = sweep-Serial t.timeout now t.active h.serial;
}

pub repair-Inv : (t : Tracker) → Inv t → Inv (repair t)
unfolding repair
repair-Inv t h = record { distinct = h.distinct; issued = h.issued; serial = h.serial }

-- The entry that `Begin` adds to a swept tracker that has no conflict with it.
admit-Inv :
    (t : Tracker) (req : Request) (now : ℕ)
    → t.next_id + 1 < 2 ^ 64
    → first_conflict t.mode req t.active ≡ none
    → Inv t
    → let id = bump_id t.next_id in
      Inv (record t { next_id = id; active = insert id (make_active id req now) t.active })
admit-Inv t req now bound free h =
    let id : ℕ = bump_id t.next_id in
    let next : id ≡ suc t.next_id = omega arith in
    let absent : lookup id t.active ≡ none = rw next (Issued-absent t.next_id t.active h.issued) in
    record {
      distinct = insert-Distinct id (make_active id req now) t.active h.distinct;
      issued = rw (insert_fresh id (make_active id req now) t.active absent) (
          All-append (Issued id) t.active ((id, make_active id req now) ∷ [])
            (All-imp (Issued t.next_id) (Issued id) (λ e i. (i.0, i.1, omega arith)) t.active
              h.issued)
            ((unfold make_active in refl, omega arith, omega arith), tt));
      serial = rw (insert_fresh id (make_active id req now) t.active absent) (
          append-Serial (id, make_active id req now) t.active h.serial
            (All-both (Issued t.next_id) (λ e. ¬ Conflict t.mode e.1 req)
              (λ e. Follows e (id, make_active id req now))
              (λ e i c. (omega arith, λ x. c (permissive-Conflict t.mode e.1 id now req x)))
              t.active h.issued (first_conflict-none t.mode req t.active free)));
    }

begin_locked-Inv :
    (req : Request) (now : ℕ) (t : Tracker)
    → t.next_id + 1 < 2 ^ 64
    → Inv t
    → Inv (begin_locked req now t).0
unfolding begin_locked
begin_locked-Inv req now t bound h = elim (Option-cases (first_conflict t.mode req t.active)) [
  | inl free ↦ rw (free, begin_locked) (admit-Inv t req now bound free h)
  | inr (d, found) ↦ rw (found, begin_locked) h
]

pub begin-Inv :
    (req : Request) (now : ℕ) (t : Tracker)
    → t.next_id + 1 < 2 ^ 64
    → Inv t
    → Inv (begin req now t).0
unfolding begin sweep_expired_locked repair
begin-Inv req now t bound h =
    begin_locked-Inv req now (sweep_expired_locked now (repair t)).0 bound
      (sweep-Inv now (repair t) (repair-Inv t h))

pub finish-Inv : (p : ActiveProcedure) (t : Tracker) → Inv t → Inv (finish p t)
unfolding finish
finish-Inv p t h = elim (Bool-cases (p.id == 0)) [
  | inl zero_id ↦ rw zero_id h
  | inr real ↦ rw real (record {
    distinct = delete-Distinct p.id t.active h.distinct;
    issued = delete-All (Issued t.next_id) p.id t.active h.issued;
    serial = delete-Serial p.id t.active h.serial;
  })
]

-- The calls that a session makes on its tracker, in the order in which they take the mutex. Fewer
-- than 2 ^ 64 procedures are begun.
pub data Step : Tracker → Tracker → Type 0 where
  configured : (mode : Mode) (timeout : ℤ) (t : Tracker) → Step t (configure mode timeout t)
  begun :
      (req : Request) (now : ℕ) (t : Tracker) → t.next_id + 1 < 2 ^ 64 → Step t (begin req now t).0
  swept : (now : ℕ) (t : Tracker) → Step t (sweep_expired now t).0
  finished : (p : ActiveProcedure) (t : Tracker) → Step t (finish p t)

pub data Reach : Tracker → Type 0 where
  created : (timeout : ℤ) → Reach (new_tracker_with_timeout timeout)
  then_step : {t u : Tracker} → Reach t → Step t u → Reach u

Step-Inv : {t u : Tracker} → Step t u → Inv t → Inv u
unfolding configure sweep_expired
Step-Inv (configured mode timeout t) h = record {
  distinct = h.distinct;
  issued = h.issued;
  serial = h.serial;
}
Step-Inv (begun req now t bound) h = begin-Inv req now t bound h
Step-Inv (swept now t) h =
    sweep-Inv now _ (record { distinct = h.distinct; issued = h.issued; serial = h.serial })
Step-Inv (finished p t) h = finish-Inv p t h

pub Reach-Inv : {t : Tracker} → Reach t → Inv t
unfolding new_tracker_with_timeout
Reach-Inv (created timeout) = record { distinct = tt; issued = tt; serial = tt }
Reach-Inv (then_step r s) = Step-Inv s (Reach-Inv r)

Serial-Follows :
    (i j : ℕ) {p q : ActiveProcedure} (m : List Entry)
    → Serial m
    → lookup i m ≡ some p
    → lookup j m ≡ some q
    → i < j
    → Follows (i, p) (j, q)
unfolding lookup
Serial-Follows i j [] s x y h = cc
Serial-Follows i j {p} {q} ((k, r) ∷ m) s x y h = elim (Bool-cases (k == i)) [
  | inl first ↦
      let key : k ≡ i = (nat_beq_iff k i).0 first in
      let value : r ≡ p = cc (rw first at x) in
      subst (λ e. Follows e (j, q)) (λ n. (key n, value n))
        (lookup-All (Follows (k, r)) j {v = q} m s.0 (ground arith))
  | inr later ↦
      let x' : lookup i m ≡ some p = rw later at x in
      elim (Bool-cases (k == j)) [
        | inl same ↦
            absurd
              (omega (arith, (nat_beq_iff k j).0 same, (lookup-All (Follows (k, r)) i m s.0 x').0))
        | inr other ↦ Serial-Follows i j m s.1 x' (rw other at y) h
      ]
]

-- In a tracker that any sequence of calls has led to, a procedure that was admitted later than
-- another active one does not conflict with it: the pair is exempt, or both concern bearers only and
-- no EBI is in both scopes. Configuration, expiry and the order of the map's iteration are free.
pub active-no-Conflict :
    {t : Tracker} (i j : ℕ) {p q : ActiveProcedure}
    → Reach t
    → lookup i t.active ≡ some p
    → lookup j t.active ≡ some q
    → i < j
    → ¬ Conflict permissive p (as_request q)
active-no-Conflict {t} i j r x y h = (Serial-Follows i j t.active (Reach-Inv r).serial x y h).1
