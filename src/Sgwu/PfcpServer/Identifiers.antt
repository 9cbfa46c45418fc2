-- ===== src/Sgwu/PfcpServer/Identifiers.antt =====
-- internal/sgwu/pfcpserver/server.go: the identifiers of the rules of a session under a modification.
use vectorcore_sgw.Common.{
  ◌≡◌, refl, sym, subst, Bool, true, false, not, ◌&&◌, List, [], ◌∷◌, inl, inr, Bool-cases,
  Option-cases, if◌then◌else◌,
}
use vectorcore_sgw.Common.Results.{Result, err, Yields, Yields-then, Yields-bind}
use vectorcore_sgw.Pfcp.Ie.{Element, find}
use vectorcore_sgw.Pfcp.Types.{type_pdr_id, type_far_id}
use vectorcore_sgw.Pfcp.Values.{pdr_id_value, far_id_value, new_fteid_v4}
use vectorcore_sgw.Pfcp.Messages.{SessionModificationRequest}
use vectorcore_sgw.Sgwu.Session.{Pdr, Far, Session, Heap, Store, alloc_teid}
use vectorcore_sgw.Sgwu.PfcpServer.State.{
  done, refused, Config, attempt, Gives, Gives-bind, Gives-then, Gives-attempt,
}
use vectorcore_sgw.Sgwu.PfcpServer.Establish.{Draws, choose_fteid, local_gtpu_ip_for_source}
use vectorcore_sgw.Sgwu.PfcpServer.Rules.{
  fast_path, no_local_ip, parse_create_far, parse_create_pdr, add_far, create_fars, has_far,
  has_pdr, without_far, without_pdr, remove_pdrs, remove_fars, children_of, need, value_or_zero,
}
use vectorcore_sgw.Sgwu.PfcpServer.FarUpdates.{
  EndMarkerEvent, parse_update_fars, apply_far_updates_to_candidate,
}
use vectorcore_sgw.Sgwu.PfcpServer.Modification.{add_pdr, add_pdrs, apply_session_modification}
use vectorcore_sgw.Sgwu.PfcpServer.Updates.{SameIds, updates-SameIds}
use vectorcore_sgw.Sgwu.PfcpServer.Unique.{
  far_ids, pdr_ids, IsUnique, without-IsUnique, far_ids-without, pdr_ids-without, UniqueFars,
  UniquePdrs, appended_far, appended_pdr,
}

add_far-UniqueFars :
    (f : Far) (fars : List Far) → UniqueFars fars → Yields UniqueFars (add_far f fars)
unfolding add_far
add_far-UniqueFars f fars u = elim (Bool-cases (has_far f.id fars)) [
  | inl there ↦ rw there tt
  | inr new ↦ rw new (appended_far f fars new u)
]

create_fars-UniqueFars :
    (ies : List Element) (fars : List Far)
    → UniqueFars fars
    → Yields UniqueFars (create_fars ies fars)
unfolding create_fars
create_fars-UniqueFars [] fars u = u
create_fars-UniqueFars (ie ∷ ies) fars u = Yields-bind UniqueFars (parse_create_far ie) _ λ far.
    Yields-then UniqueFars UniqueFars (add_far far fars) _ (add_far-UniqueFars far fars u)
      λ more v. create_fars-UniqueFars ies more v

chosen-Yields :
    {E A : Type 0} (P : A → Type 0) (b : Bool) (r : Result E A) (e : E)
    → Yields P r
    → Yields P (if b then r else err e)
chosen-Yields P true r e h = h
chosen-Yields P false r e h = tt

remove_fars-UniqueFars :
    (ies : List Element) (fars : List Far)
    → UniqueFars fars
    → Yields UniqueFars (remove_fars ies fars)
unfolding remove_fars
remove_fars-UniqueFars [] fars u = u
remove_fars-UniqueFars (ie ∷ ies) fars u = Yields-bind UniqueFars (children_of ie) _ λ cs.
    Yields-bind UniqueFars (need (find cs type_far_id)) _ λ id_ie.
      let id = value_or_zero (far_id_value id_ie) in
      chosen-Yields UniqueFars (has_far id fars) (remove_fars ies (without_far id fars)) _ (
        remove_fars-UniqueFars ies (without_far id fars)
          (rw (far_ids-without id fars) (without-IsUnique id (far_ids fars) u)))

remove_pdrs-UniquePdrs :
    (ies : List Element) (pdrs : List Pdr)
    → UniquePdrs pdrs
    → Yields UniquePdrs (remove_pdrs ies pdrs)
unfolding remove_pdrs
remove_pdrs-UniquePdrs [] pdrs u = u
remove_pdrs-UniquePdrs (ie ∷ ies) pdrs u = Yields-bind UniquePdrs (children_of ie) _ λ cs.
    Yields-bind UniquePdrs (need (find cs type_pdr_id)) _ λ id_ie.
      let id = value_or_zero (pdr_id_value id_ie) in
      chosen-Yields UniquePdrs (has_pdr id pdrs) (remove_pdrs ies (without_pdr id pdrs)) _ (
        remove_pdrs-UniquePdrs ies (without_pdr id pdrs)
          (rw (pdr_ids-without id pdrs) (without-IsUnique id (pdr_ids pdrs) u)))

-- The choice of an F-TEID leaves the identifier of a PDR.
abbrev SamePdr : Pdr → Pdr × List Element × Draws → Type 0
SamePdr pdr r = r.0.id ≡ pdr.id

choose_fteid-SamePdr :
    {E : Type 0} (e : E) (cfg : Config) (heap : Heap) (store : Store) (pdr : Pdr) (draws : Draws)
    → Gives (SamePdr pdr) (choose_fteid e cfg heap store pdr draws)
unfolding choose_fteid
choose_fteid-SamePdr e cfg heap store pdr [] = tt
choose_fteid-SamePdr e cfg heap store pdr (draw ∷ draws) =
    elim (Option-cases (alloc_teid heap draw store)) [
      | inl dry ↦ rw (dry, choose_fteid) tt
      | inr teid ↦ elim (Option-cases (local_gtpu_ip_for_source cfg pdr.source_interface)) [
        | inl nowhere ↦ rw (teid.1, choose_fteid, nowhere) tt
        | inr ip ↦ elim (Option-cases (new_fteid_v4 teid.0 ip.0)) [
          | inl broken ↦ rw (teid.1, choose_fteid, ip.1, broken) tt
          | inr fteid ↦ rw (teid.1, choose_fteid, ip.1, fteid.1) refl
        ]
      ]
    ]

module _ (cfg : Config) (heap : Heap) (store : Store) where
  abbrev UniqueAdded : List Pdr × List Element × Draws → Type 0
  UniqueAdded r = UniquePdrs r.0

  add_new :
      (pdr : Pdr) (chosen : Bool) (pdrs : List Pdr) (draws : Draws)
      → has_pdr pdr.id pdrs ≡ false
      → UniquePdrs pdrs
      → Gives (SamePdr pdr) (
          if chosen
          then choose_fteid (no_local_ip pdr.source_interface) cfg heap store pdr draws
          else done (pdr, [], draws))
  add_new pdr true pdrs draws new u =
      choose_fteid-SamePdr (no_local_ip pdr.source_interface) cfg heap store pdr draws
  add_new pdr false pdrs draws new u = refl

  add_pdr-UniqueAdded :
      (ie : Element) (pdrs : List Pdr) (draws : Draws)
      → UniquePdrs pdrs
      → Gives UniqueAdded (add_pdr cfg heap store ie pdrs draws)
  unfolding add_pdr
  add_pdr-UniqueAdded ie pdrs draws u =
      Gives-bind UniqueAdded (attempt (parse_create_pdr ie)) _ λ parsed.
        elim (Bool-cases (has_pdr parsed.0.id pdrs)) [
          | inl there ↦ rw there tt
          | inr new ↦ rw new (
              Gives-then (SamePdr parsed.0) UniqueAdded
                (if parsed.1
                  then choose_fteid (no_local_ip parsed.0.source_interface) cfg heap store parsed.0
                      draws
                  else done (parsed.0, [], draws))
                _ (add_new parsed.0 parsed.1 pdrs draws new u)
                (λ r same. appended_pdr r.0 pdrs (rw same new) u))
        ]

  add_pdrs-UniquePdrs :
      (ies : List Element) (pdrs : List Pdr) (draws : Draws)
      → UniquePdrs pdrs
      → Gives
          (λ (r : List Pdr × List Element). UniquePdrs r.0)
          (add_pdrs cfg heap store ies pdrs draws)
  unfolding add_pdrs
  add_pdrs-UniquePdrs [] pdrs draws u = u
  add_pdrs-UniquePdrs (ie ∷ ies) pdrs draws u =
      let P = λ (r : List Pdr × List Element). UniquePdrs r.0 in
      Gives-then UniqueAdded P (add_pdr cfg heap store ie pdrs draws) _
        (add_pdr-UniqueAdded ie pdrs draws u)
        λ first v.
          Gives-then P P (add_pdrs cfg heap store ies first.0 first.2) _
            (add_pdrs-UniquePdrs ies first.0 first.2 v) λ rest w. w

  -- The rules of a session, with no identifier twice among its PDRs and none among its FARs.
  abbrev pub UniqueRules : Session → Type 0
  UniqueRules sess = UniquePdrs sess.pdrs × UniqueFars sess.fars

  abbrev pub UniqueCandidate : Session × List Element × List EndMarkerEvent → Type 0
  UniqueCandidate r = UniqueRules r.0

  candidate-Unique :
      (b : Bool) (r : Session × List Element × List EndMarkerEvent)
      → UniqueRules r.0
      → Gives UniqueCandidate (if b then refused fast_path else done r)
  candidate-Unique true r u = tt
  candidate-Unique false r u = u

  -- A Session Modification Request that is accepted, whatever rules it creates, removes and updates,
  -- leaves a session in which no identifier stands twice among the PDRs and none among the FARs, where
  -- that was so before it.
  pub apply_session_modification-UniqueCandidate :
      (sess : Session) (req : SessionModificationRequest) (draws : Draws)
      → UniqueRules sess
      → Gives UniqueCandidate (apply_session_modification cfg heap store sess req draws)
  unfolding apply_session_modification
  apply_session_modification-UniqueCandidate sess req draws u =
      let P = UniqueCandidate in
      let Pdrs = λ (r : List Pdr × List Element). UniquePdrs r.0 in
      Gives-then UniqueFars P (attempt (create_fars req.create_fars sess.fars)) _
        (Gives-attempt UniqueFars _ (create_fars-UniqueFars req.create_fars sess.fars u.1))
        λ more uf.
          Gives-then Pdrs P (add_pdrs cfg heap store req.create_pdrs sess.pdrs draws) _
            (add_pdrs-UniquePdrs req.create_pdrs sess.pdrs draws u.0)
            λ added up.
              Gives-then UniquePdrs P (attempt (remove_pdrs req.remove_pdrs added.0)) _
                (Gives-attempt UniquePdrs _ (remove_pdrs-UniquePdrs req.remove_pdrs added.0 up))
                λ pdrs vp.
                  Gives-then UniqueFars P (attempt (remove_fars req.remove_fars more)) _
                    (Gives-attempt UniqueFars _ (remove_fars-UniqueFars req.remove_fars more uf))
                    λ fars vf.
                      Gives-bind P (attempt (parse_update_fars req.update_fars fars)) _ λ updates.
                        Gives-then (SameIds fars) P
                          (attempt (apply_far_updates_to_candidate updates fars)) _
                          (Gives-attempt (SameIds fars) _ (updates-SameIds updates fars))
                          λ changed same.
                            candidate-Unique
                              (cfg.has_bpf
                                && not
                                    (cfg.updates (record sess { pdrs = pdrs; fars = changed.0 })))
                              (record sess { pdrs = pdrs; fars = changed.0 }, added.1, changed.1)
                              (vp, subst IsUnique (sym same) vf)
