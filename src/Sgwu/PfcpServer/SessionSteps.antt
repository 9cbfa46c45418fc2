-- ===== src/Sgwu/PfcpServer/SessionSteps.antt =====
-- internal/sgwu/pfcpserver/server.go: the session store over the messages of sessions.
use vectorcore_sgw.Common.{
  ℕ, ◌+◌, ◌^◌, ◌<◌, ◌≤◌, ◌≡◌, refl, subst, String, Bool, true, false, not, ◌&&◌, none, List, arith,
  inl, inr, Bool-cases, Option-cases, number_keys, text_keys, if◌then◌else◌,
}
use vectorcore_sgw.Common.Addr.{Addr}
use vectorcore_sgw.Common.Maps.{lookup}
use vectorcore_sgw.Common.Results.{Result-cases}
use vectorcore_sgw.Pfcp.Header.{Header}
use vectorcore_sgw.Pfcp.Ie.{Element}
use vectorcore_sgw.Pfcp.Values.{Fseid, new_fseid, fseid_value}
use vectorcore_sgw.Pfcp.Messages.{
  SessionEstablishmentRequest, SessionModificationRequest, parse_session_establishment_request,
  parse_session_modification_request, parse_session_deletion_request,
}
use vectorcore_sgw.Sgwu.Session.{Session, Heap, Store, alloc_seid, create}
use vectorcore_sgw.Sgwu.Session.Reach.{fresh_seid, alloc_seid-counter}
use vectorcore_sgw.Sgwu.PfcpServer.State.{
  Attempt, Config, Source, Server, set_at, Gives, Leaves, Gives-bind, is_done, is_refused,
  is_panicked, is_waiting, Attempt-cases, attempt,
}
use vectorcore_sgw.Sgwu.PfcpServer.Establish.{Draws}
use vectorcore_sgw.Sgwu.PfcpServer.Rules.{
  RuleError, fast_path, create_fars, remove_pdrs, remove_fars,
}
use vectorcore_sgw.Sgwu.PfcpServer.FarUpdates.{
  EndMarkerEvent, parse_update_fars, apply_far_updates_to_candidate,
}
use vectorcore_sgw.Sgwu.PfcpServer.Answers.{has_association}
use vectorcore_sgw.Sgwu.PfcpServer.Establishment.{
  establish_rules, commit, establish, handle_session_establishment, new_session,
}
use vectorcore_sgw.Sgwu.PfcpServer.Modification.{
  add_pdrs, apply_session_modification, modify, handle_session_modification,
}
use vectorcore_sgw.Sgwu.PfcpServer.Handlers.{handle_session_deletion}
use vectorcore_sgw.Sgwu.PfcpServer.Invariant.{
  deleted_by_up-IsSound, allocated-IsSound, created-IsSound, modified-IsSound, rolled_back-IsSound,
}
use vectorcore_sgw.Sgwu.PfcpServer.Known.{IsSound}

module _ (cfg : Config) (ip_text : Addr → String) where
  commit-IsSound :
      (hdr_seq seq : ℕ) (sess : Session) (created : List Element) (s : Server)
      → IsSound s
      → lookup sess.up_seid s.store.by_up_seid ≡ none
      → sess.up_seid ≤ s.store.seid_counter
      → Leaves IsSound (commit cfg hdr_seq seq sess created s)
  unfolding commit
  commit-IsSound hdr_seq seq sess created s h fresh small =
      elim (Result-cases (create (set_at s.heap s.next_session sess) s.next_session s.store)) [
        | inr bad ↦ rw (bad.1, commit) h
        | inl good ↦
            let made = created-IsSound s sess good.0 h fresh small good.1 in
            elim (Bool-cases (cfg.has_bpf && not (cfg.installs sess))) [
              | inl failed ↦ rw (good.1, commit, failed) (rolled_back-IsSound _ sess.cp_seid made)
              | inr taken ↦ elim (Option-cases (new_fseid sess.up_seid cfg.local_ip)) [
                | inl broken ↦ rw (good.1, commit, taken, broken) tt
                | inr fseid ↦ rw (good.1, commit, taken, fseid.1) made
              ]
            ]
      ]

  establish-IsSound :
      (src : Source) (hdr_seq : ℕ) (req : SessionEstablishmentRequest) (fseid : Fseid) (up_seid : ℕ)
      (draws : Draws) (s : Server)
      → IsSound s
      → lookup up_seid s.store.by_up_seid ≡ none
      → up_seid ≤ s.store.seid_counter
      → Leaves IsSound (establish cfg src hdr_seq req fseid up_seid draws s)
  unfolding establish
  establish-IsSound src hdr_seq req fseid up_seid draws s h fresh small =
      elim (Attempt-cases (establish_rules cfg s.heap s.store req draws)) [
        | is_refused e why ↦ rw (why, establish) h
        | is_panicked why ↦ rw (why, establish) tt
        | is_waiting why ↦ rw (why, establish) tt
        | is_done rules why ↦
            rw (why, establish)
              (commit-IsSound hdr_seq _ (new_session cfg src fseid up_seid rules.0 rules.2) _ s h
                fresh small)
      ]

  pub establishment-IsSound :
      (src : Source) (hdr : Header) (raw : List ℕ) (draws : Draws) (s : Server)
      → IsSound s
      → s.store.seid_counter + 1 < 2 ^ 64
      → Leaves IsSound (handle_session_establishment cfg src hdr raw draws s)
  unfolding handle_session_establishment
  establishment-IsSound src hdr raw draws s h small = elim (Bool-cases (has_association src s)) [
    | inr none_there ↦ rw none_there h
    | inl known ↦ elim (Result-cases (parse_session_establishment_request raw)) [
      | inr bad ↦ rw (known, bad.1, handle_session_establishment) h
      | inl req ↦ elim (Result-cases (fseid_value req.0.cp_seid)) [
        | inr bad ↦ rw (known, req.1, handle_session_establishment, bad.1) h
        | inl fseid ↦
            rw (known, req.1, handle_session_establishment, fseid.1)
              (establish-IsSound src hdr.sequence_number req.0 fseid.0 (alloc_seid s.store).1 draws
                (record s { store = (alloc_seid s.store).0 }) (allocated-IsSound s small h)
                (fresh_seid s.heap s.store h.inv small)
                (omega (arith, alloc_seid-counter s.store small)))
      ]
    ]
  ]

  -- The candidate of a modification keeps the keys of its session.
  abbrev KeepsKeys : Session → Session × List Element × List EndMarkerEvent → Type 0
  KeepsKeys sess r = (r.0.cp_seid ≡ sess.cp_seid) × (r.0.up_seid ≡ sess.up_seid)

  apply-KeepsKeys :
      (heap : Heap) (store : Store) (sess : Session) (req : SessionModificationRequest)
      (draws : Draws)
      → Gives (KeepsKeys sess) (apply_session_modification cfg heap store sess req draws)
  unfolding apply_session_modification
  apply-KeepsKeys heap store sess req draws =
      let P = KeepsKeys sess in
      Gives-bind P (attempt (create_fars req.create_fars sess.fars)) _ λ more_fars.
        Gives-bind P (add_pdrs cfg heap store req.create_pdrs sess.pdrs draws) _ λ added.
          Gives-bind P (attempt (remove_pdrs req.remove_pdrs added.0)) _ λ pdrs.
            Gives-bind P (attempt (remove_fars req.remove_fars more_fars)) _ λ fars.
              Gives-bind P (attempt (parse_update_fars req.update_fars fars)) _ λ updates.
                Gives-bind P (attempt (apply_far_updates_to_candidate updates fars)) _ λ changed.
                  ends
                    (cfg.has_bpf
                      && not (cfg.updates (record sess { pdrs = pdrs; fars = changed.0 })))
                    fast_path (record sess { pdrs = pdrs; fars = changed.0 }, added.1, changed.1)
                    (refl, refl)
    where
      ends :
          (b : Bool) (e : RuleError) (r : Session × List Element × List EndMarkerEvent)
          → KeepsKeys sess r
          → Gives (KeepsKeys sess) (if b then Attempt.refused e else Attempt.done r)
      ends true e r k = tt
      ends false e r k = k

  modify-IsSound :
      (req : SessionModificationRequest) (r : ℕ) (draws : Draws) (s : Server)
      → IsSound s
      → Leaves IsSound (modify cfg req r draws s)
  unfolding modify
  modify-IsSound req r draws s h =
      elim (Attempt-cases (apply_session_modification cfg s.heap s.store (s.heap r) req draws)) [
        | is_refused e why ↦ rw (why, modify) h
        | is_panicked why ↦ rw (why, modify) tt
        | is_waiting why ↦ rw (why, modify) tt
        | is_done changed why ↦
            let keys =
              subst (Gives (KeepsKeys (s.heap r))) why
                (apply-KeepsKeys s.heap s.store (s.heap r) req draws) in
            rw (why, modify) (modified-IsSound s r changed.0 keys.0 keys.1 h)
      ]

  pub modification-IsSound :
      (src : Source) (hdr : Header) (raw : List ℕ) (draws : Draws) (s : Server)
      → IsSound s
      → Leaves IsSound (handle_session_modification cfg src hdr raw draws s)
  unfolding handle_session_modification
  modification-IsSound src hdr raw draws s h = elim (Bool-cases (has_association src s)) [
    | inr none_there ↦ rw none_there h
    | inl known ↦ elim (Result-cases (parse_session_modification_request raw)) [
      | inr bad ↦ rw (known, bad.1, handle_session_modification) h
      | inl req ↦ elim (Option-cases (lookup req.0.header.seid s.store.by_up_seid)) [
        | inl absent ↦ rw (known, req.1, handle_session_modification, absent) h
        | inr there ↦
            rw (known, req.1, handle_session_modification, there.1)
              (modify-IsSound req.0 there.0 draws s h)
      ]
    ]
  ]

  pub deletion-IsSound :
      (src : Source) (hdr : Header) (raw : List ℕ) (s : Server)
      → IsSound s
      → IsSound (handle_session_deletion cfg ip_text src hdr raw s).0
  unfolding handle_session_deletion
  deletion-IsSound src hdr raw s h = elim (Bool-cases (has_association src s)) [
    | inr none_there ↦ rw none_there h
    | inl known ↦ elim (Result-cases (parse_session_deletion_request raw)) [
      | inr bad ↦ rw (known, bad.1, handle_session_deletion) h
      | inl req ↦ elim (Option-cases (lookup req.0.seid s.store.by_up_seid)) [
        | inl absent ↦ rw (known, req.1, handle_session_deletion, absent) h
        | inr there ↦
            rw (known, req.1, handle_session_deletion, there.1)
              (deleted_by_up-IsSound s req.0.seid h)
      ]
    ]
  ]
