-- ===== src/Sgwc/Collision/Admission.antt =====
-- What `Begin`, `SweepExpired` and `Finish` of internal/sgwc/collision/collision.go answer and leave
-- behind, in terms of the procedures that have not expired.
use vectorcore_sgw.Common.{
  ℕ, suc, ◌+◌, ◌^◌, ◌<◌, ◌≤◌, ◌≡◌, ◌↔◌, ◌∙◌, leb, refl, inl, inr, true, false, Option, none, some,
  List, [], ◌∷◌, length, All, arith, number_keys, nat_beq_iff, ◌==◌, if◌then◌else◌, Bool-cases,
  Option-cases, sym, ap, subst, is_some,
}
use vectorcore_sgw.Common.Int.{ℤ, pos, negsuc}
use vectorcore_sgw.Common.Maps.{
  lookup, insert, Distinct, lookup-All, lookup-insert, delete-insert_fresh,
}
use vectorcore_sgw.Sgwc.Collision.{
  Mode, Request, ActiveProcedure, Decision, Action, allow, reject_new, decide,
}
use vectorcore_sgw.Sgwc.Collision.Decide.{Conflict, decide-Conflict}
use vectorcore_sgw.Sgwc.Collision.Tracker.{
  Tracker, is_allow, sweep_loop, is_expired, first_conflict, make_active, repair, begin_locked,
  begin, finish, sweep_expired, sweep_expired_locked, or_default_timeout, or_default_mode, bump_id,
}
use vectorcore_sgw.Sgwc.Collision.Invariant.{
  Entry, Inv, first_conflict-none, sweep-Inv, repair-Inv, Issued-absent,
}

abbrev pub unexpired : ℤ → ℕ → Option ActiveProcedure → Option ActiveProcedure
unexpired timeout now none = none
unexpired timeout now (some p) = if is_expired timeout now p then none else some p

pub lookup-sweep_loop :
    (timeout : ℤ) (now k : ℕ) (m : List Entry)
    → Distinct m
    → lookup k (sweep_loop timeout now m).0 ≡ unexpired timeout now (lookup k m)
unfolding sweep_loop lookup
lookup-sweep_loop timeout now k [] d = refl
lookup-sweep_loop timeout now k ((id, p) ∷ m) d =
    ground (arith, nat_beq_iff id k, lookup-sweep_loop timeout now k m d.1)

length-sweep_loop :
    (timeout : ℤ) (now : ℕ) (m : List Entry)
    → length (sweep_loop timeout now m).0 + (sweep_loop timeout now m).1 ≡ length m
unfolding sweep_loop
length-sweep_loop timeout now [] = omega arith
length-sweep_loop timeout now ((id, p) ∷ m) = ground (arith, length-sweep_loop timeout now m)

-- The timeout that a tracker works with, in nanoseconds: the one that it has, or two minutes where that
-- is not positive.
pub data TimeoutOf : ℤ → ℕ → Type 0 where
  given : (n : ℕ) → TimeoutOf (pos (suc n)) (suc n)
  not_given : TimeoutOf (pos 0) 120000000000
  negative : (n : ℕ) → TimeoutOf (negsuc n) 120000000000

or_default_timeout-pos :
    (timeout : ℤ) (limit : ℕ) → TimeoutOf timeout limit → or_default_timeout timeout ≡ pos limit
unfolding or_default_timeout
or_default_timeout-pos timeout limit (given n) = refl
or_default_timeout-pos timeout limit not_given = refl
or_default_timeout-pos timeout limit (negative n) = refl

-- The procedure that is left of an entry, and that its last update is not further back than the limit.
unexpired-some :
    (limit now : ℕ) (o : Option ActiveProcedure) (p : ActiveProcedure)
    → unexpired (pos limit) now o ≡ some p
    → (o ≡ some p) × (now ≤ p.updated_at + limit)
unfolding is_expired
unexpired-some limit now none p e = absurd (cc e)
unexpired-some limit now (some q) p e = elim (Bool-cases (is_expired (pos limit) now q)) [
  | inl late ↦ absurd (cc (rw late at e))
  | inr alive ↦
      let same : q ≡ p = cc (rw alive at e) in
      (
        ap some same,
        subst (λ (x : ActiveProcedure). now ≤ x.updated_at + limit) same (recent q alive),
      )
]
  where
    recent :
        (x : ActiveProcedure) → is_expired (pos limit) now x ≡ false → now ≤ x.updated_at + limit
    recent x h = elim (Bool-cases (leb x.updated_at now)) [
      | inl past ↦ ground (arith, rw past at h)
      | inr ahead ↦ ground arith
    ]

some-unexpired :
    (limit now : ℕ) (p : ActiveProcedure)
    → now ≤ p.updated_at + limit
    → unexpired (pos limit) now (some p) ≡ some p
unfolding is_expired
some-unexpired limit now p h = elim (Bool-cases (leb p.updated_at now)) [
  | inl past ↦ ground arith
  | inr ahead ↦ ground arith
]

-- A sweep keeps exactly the procedures whose last update is not further back than the timeout, under
-- their identifiers, and returns the number of the others. The timeout is the tracker's, or two minutes
-- where that is not positive.
pub sweep_expired-exact :
    (now limit : ℕ) (t : Tracker)
    → Inv t
    → TimeoutOf t.timeout limit
    → ((k : ℕ) (p : ActiveProcedure)
        → (lookup k (sweep_expired now t).0.active ≡ some p)
          ↔ ((lookup k t.active ≡ some p) × (now ≤ p.updated_at + limit)))
      × (length (sweep_expired now t).0.active + (sweep_expired now t).1 ≡ length t.active)
unfolding sweep_expired sweep_expired_locked
sweep_expired-exact now limit t h timeout =
    let left : (k : ℕ)
        → lookup k (sweep_expired now t).0.active ≡ unexpired (pos limit) now (lookup k t.active) =
      λ k.
        lookup-sweep_loop (or_default_timeout t.timeout) now k t.active h.distinct
        ∙ ap (λ x. unexpired x now (lookup k t.active))
            (or_default_timeout-pos t.timeout limit timeout) in
    (
      λ k p. (
        λ e. unexpired-some limit now (lookup k t.active) p (sym (left k) ∙ e),
        λ (there, recent).
            left k ∙ ap (unexpired (pos limit) now) there ∙ some-unexpired limit now p recent,
      ),
      length-sweep_loop (or_default_timeout t.timeout) now t.active,
    )

-- The decision `d` names a procedure of the map, which conflicts with the request.
pub record BlockedBy (mode : Mode) (req : Request) (m : List Entry) (d : Decision) : Type 0 where
  pub id : ℕ
  pub blocker : ActiveProcedure
  pub present : lookup id m ≡ some blocker
  pub named : d.current ≡ some blocker
  pub rejected : d.action ≡ reject_new
  pub conflict : Conflict mode blocker req

lookup_later :
    (k id : ℕ) (p q : ActiveProcedure) (m : List Entry)
    → lookup id m ≡ none
    → lookup k m ≡ some q
    → lookup k ((id, p) ∷ m) ≡ some q
unfolding lookup
lookup_later k id p q m absent h = ground (arith, nat_beq_iff id k, absent, h)

lookup_first : (id : ℕ) (p : ActiveProcedure) (m : List Entry) → lookup id ((id, p) ∷ m) ≡ some p
unfolding lookup
lookup_first id p m = ground (arith, nat_beq_iff id id)

stop-reject : (a : Action) → is_allow a ≡ false → a ≡ reject_new
stop-reject allow h = cc
stop-reject reject_new h = refl

first_conflict-some :
    (mode : Mode) (req : Request) (m : List Entry) (d : Decision)
    → Distinct m
    → first_conflict mode req m ≡ some d
    → BlockedBy mode req m d
unfolding first_conflict
first_conflict-some mode req [] d h e = cc
first_conflict-some mode req ((id, p) ∷ m) d h e =
    elim (Bool-cases (is_allow (decide mode p req).action)) [
      | inl pass ↦
          let b : BlockedBy mode req m d = first_conflict-some mode req m d h.1 (rw pass at e) in
          record {
            id = b.id;
            blocker = b.blocker;
            present = lookup_later b.id id p b.blocker m h.0 b.present;
            named = b.named;
            rejected = b.rejected;
            conflict = b.conflict;
          }
      | inr stop ↦
          let found : Decision = record (decide mode p req) { current = some p } in
          let reject : found.action ≡ reject_new = stop-reject _ stop in
          let same : found ≡ d = cc (rw stop at e) in
          record {
            id = id;
            blocker = p;
            present = lookup_first id p m;
            named = subst (λ x. x.current ≡ some p) same refl;
            rejected = subst (λ x. x.action ≡ reject_new) same reject;
            conflict = (decide-Conflict mode p req).0 reject;
          }
    ]

-- The map that `Begin` decides on.
abbrev pub swept_active : ℕ → Tracker → List Entry
swept_active now t = (sweep_loop (or_default_timeout t.timeout) now t.active).0

abbrev pub swept : ℕ → Tracker → Tracker
swept now t = (sweep_expired_locked now (repair t)).0

swept-Inv : (now : ℕ) (t : Tracker) → Inv t → Inv (swept now t)
swept-Inv now t h = sweep-Inv now (repair t) (repair-Inv t h)

-- The procedure that the request asks for, begun now under the identifier.
abbrev pub procedure_of : ℕ → Request → ℕ → ActiveProcedure
procedure_of id req now = record {
  id = id;
  procedure = req.procedure;
  owner = req.owner;
  peer = req.peer;
  teid = req.teid;
  seq = req.seq;
  ebis = req.ebis;
  started_at = now;
  updated_at = now;
}

module _ (req : Request) (now : ℕ) (t : Tracker) where
  locked_rejected :
      (d : Decision)
      → Distinct t.active
      → (begin_locked req now t).1 ≡ (none, d)
      → BlockedBy t.mode req t.active d × ((begin_locked req now t).0 ≡ t)
  unfolding begin_locked
  locked_rejected d h e = elim (Option-cases (first_conflict t.mode req t.active)) [
    | inl free ↦ absurd (ground arith)
    | inr (d', found) ↦
        let same : d' ≡ d = cc (rw (found, begin_locked) at e) in
        (first_conflict-some t.mode req t.active d h (rw same at found), rw (found, begin_locked))
  ]

  -- What an admission leaves behind.
  record Admitted (proc : ActiveProcedure) (after : Tracker) : Type 0 where
    free : first_conflict t.mode req t.active ≡ none
    numbered : proc.id ≡ bump_id t.next_id
    described : proc ≡ procedure_of proc.id req now
    added : after.active ≡ insert proc.id proc t.active

  locked-Admitted :
      (proc : ActiveProcedure) (d : Decision)
      → (begin_locked req now t).1 ≡ (some proc, d)
      → Admitted proc (begin_locked req now t).0
  unfolding begin_locked make_active
  locked-Admitted proc d e = elim (Option-cases (first_conflict t.mode req t.active)) [
    | inr (d', found) ↦ absurd (ground arith)
    | inl free ↦
        let same : make_active (bump_id t.next_id) req now ≡ proc =
          cc (rw (free, begin_locked) at e) in
        record {
          free = free;
          numbered = sym (ap (λ p. p.id) same);
          described = sym same ∙ ap (λ (p : ActiveProcedure). procedure_of p.id req now) same;
          added = rw (free, begin_locked) (ap (λ p. insert p.id p t.active) same);
        }
  ]

-- A rejected `Begin` names an unexpired procedure that conflicts with the request, and does nothing
-- but drop the expired ones.
pub begin-rejected :
    (req : Request) (now : ℕ) (t : Tracker) (d : Decision)
    → Inv t
    → (begin req now t).1 ≡ (none, d)
    → BlockedBy (or_default_mode t.mode) req (swept_active now t) d
      × ((begin req now t).0 ≡ swept now t)
unfolding begin sweep_expired_locked repair
begin-rejected req now t d h e =
    locked_rejected req now (swept now t) d (swept-Inv now t h).distinct e

begin_admitted_lem :
    (req : Request) (now : ℕ) (t : Tracker) (proc : ActiveProcedure) (d : Decision)
    → (begin req now t).1 ≡ (some proc, d)
    → Admitted req now (swept now t) proc (begin req now t).0
unfolding begin
begin_admitted_lem req now t proc d e = locked-Admitted req now (swept now t) proc d e

-- The identifier of the next procedure is not in use.
fresh_id :
    (t : Tracker) → t.next_id + 1 < 2 ^ 64 → Inv t → lookup (bump_id t.next_id) t.active ≡ none
fresh_id t bound h =
    let next : bump_id t.next_id ≡ suc t.next_id = omega arith in
    rw next (Issued-absent t.next_id t.active h.issued)

-- A procedure is admitted only when no unexpired one conflicts with the request. It is the one that
-- the request asks for, begun now, and stands under an identifier that no unexpired procedure has; all
-- those stay as they were.
pub begin-admitted :
    (req : Request) (now : ℕ) (t : Tracker) (proc : ActiveProcedure) (d : Decision)
    → Inv t
    → t.next_id + 1 < 2 ^ 64
    → (begin req now t).1 ≡ (some proc, d)
    → ((k : ℕ) (p : ActiveProcedure)
        → lookup k (swept_active now t) ≡ some p
        → ¬ Conflict (or_default_mode t.mode) p req)
      × (proc ≡ procedure_of proc.id req now)
      × (lookup proc.id (swept_active now t) ≡ none)
      × ((k : ℕ)
          → lookup k (begin req now t).0.active
            ≡ (if proc.id == k then some proc else lookup k (swept_active now t)))
unfolding sweep_expired_locked repair
begin-admitted req now t proc d h bound e =
    let a : Admitted req now (swept now t) proc (begin req now t).0 =
      begin_admitted_lem req now t proc d e in
    (
      λ k p q.
          lookup-All (λ entry. ¬ Conflict (or_default_mode t.mode) entry.1 req) k
            (swept_active now t) (first_conflict-none _ req (swept_active now t) a.free) q,
      a.described,
      rw a.numbered (fresh_id (swept now t) bound (swept-Inv now t h)),
      λ k. rw a.added (lookup-insert (swept_active now t) proc.id proc k),
    )

-- Finishing the procedure that `Begin` has just admitted gives back the unexpired ones.
pub finish-begin :
    (req : Request) (now : ℕ) (t : Tracker) (proc : ActiveProcedure) (d : Decision)
    → Inv t
    → t.next_id + 1 < 2 ^ 64
    → (begin req now t).1 ≡ (some proc, d)
    → (finish proc (begin req now t).0).active ≡ swept_active now t
unfolding finish sweep_expired_locked repair
finish-begin req now t proc d h bound e =
    let a : Admitted req now (swept now t) proc (begin req now t).0 =
      begin_admitted_lem req now t proc d e in
    let absent : lookup proc.id (swept_active now t) ≡ none =
      rw a.numbered (fresh_id (swept now t) bound (swept-Inv now t h)) in
    elim (Bool-cases (proc.id == 0)) [
      | inl zero_id ↦ absurd (omega (arith, (nat_beq_iff proc.id 0).0 zero_id, a.numbered))
      | inr real ↦ rw (real, a.added) (delete-insert_fresh proc.id proc (swept_active now t) absent)
    ]

All-expired-sweep :
    (timeout : ℤ) (now : ℕ) (m : List Entry)
    → All (λ entry. is_expired timeout now entry.1 ≡ true) m
    → (sweep_loop timeout now m).0 ≡ []
unfolding sweep_loop
All-expired-sweep timeout now [] h = refl
All-expired-sweep timeout now ((id, p) ∷ m) h = ground (arith, All-expired-sweep timeout now m h.1)

-- Procedures that were never finished cannot block a session for ever: once all of them are older
-- than the timeout, `Begin` admits any request.
pub begin_after_timeout :
    (req : Request) (now : ℕ) (t : Tracker)
    → All (λ entry. is_expired (or_default_timeout t.timeout) now entry.1 ≡ true) t.active
    → is_some (begin req now t).1.0 ≡ true
unfolding begin begin_locked sweep_expired_locked repair first_conflict
begin_after_timeout req now t h =
    rw
      (
        All-expired-sweep (or_default_timeout t.timeout) now t.active h,
        begin_locked,
        first_conflict,
      )
      refl
